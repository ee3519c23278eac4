-- ===== src/Application/World.antt =====
-- A client of the repository over PostgreSQL: its calls, each in its own session, and the calls of
-- the other clients in between.
use retsu.Base.{ℕ, ◌+◌, List, Action}
use retsu.Repository.{Error, QueueRepository}
use retsu.Postgres.Tables.{Database, Session}
use retsu.Postgres.Queues.{create_queue, queue_name, queue_details, update_queue}
use retsu.Postgres.Messages.{enqueue_message, acknowledge_message}
use retsu.Postgres.Dequeue.{dequeue_message}
use retsu.Postgres.Cleanup.{process_expired_messages, purge_dead_letter_messages}
use retsu.Postgres.Calls.{Call, history}

-- `served` calls are done; call number n runs in `session n`, after `others n`.
pub record World : Type 0 where
  pub database : Database
  pub served : ℕ
  pub session : ℕ → Session
  pub others : ℕ → List (Session × Call)

-- The database that the next call finds.
abbrev pub now_found : World → Database
now_found w = history (w.others w.served) w.database

unfoldable pub call : {A : Type 0} → (Session → Action Database Error A) → Action World Error A
call operation w =
    let (r, db) = operation (w.session w.served) (now_found w) in
    (r, record w { database = db; served = w.served + 1 })

-- `PgQueueRepository`
unfoldable pub postgres : QueueRepository World
postgres = record {
  create_queue = λ queue. call λ s. create_queue s queue;
  queue_name = λ id. call λ s. queue_name s id;
  queue_details = λ id. call λ s. queue_details s id;
  update_queue = λ id configuration. call λ s. update_queue s id configuration;
  enqueue_message = λ id message ttl. call λ s. enqueue_message s id message ttl;
  dequeue_message = λ id handle. call λ s. dequeue_message s id handle;
  acknowledge_message =
      λ id message_id handle. call λ s. acknowledge_message s id message_id handle;
  process_expired_messages = λ batch_size. call λ s. process_expired_messages s batch_size;
  purge_dead_letter_messages =
      λ retention batch_size. call λ s. purge_dead_letter_messages s retention batch_size;
}
