-- ===== src/Postgres/Calls/Survival.antt =====
-- A property of the database survives each call whose statement keeps it, whatever goes wrong around
-- the statement (src/modules/queue/infrastructure/postgres.rs).
use retsu.Base.{
  not, contains, expect, to_signed, i16_max, i32_max, transpose_map, ◌≡◌, subst, Option, some,
  keep_if, arith, ℤ, ok,
}
use retsu.Domain.Message.{Uuid}
use retsu.Domain.Queue.{Queue, QueueConfigurationUpdate}
use retsu.Repository.{CreateQueueOutcome}
use retsu.Postgres.Tables.{Database, Session, QueueRow, execute}
use retsu.Postgres.Queues.{
  QueueDetailsRow, queue_details_from_row, creation_outcome, insert_bound, update_bound,
  expect_given, insert_queue, update_row, reconfigured, select_name, select_details, create_queue,
  queue_name, queue_details, update_queue,
}
use retsu.Postgres.Messages.{
  is_leased_as, delete_leased, insert_message, new_row, enqueue_message, acknowledge_message,
}
use retsu.Postgres.Dequeue.{dequeue_statement, dequeue_message, DequeueMessageRow}
use retsu.Postgres.Cleanup.{
  process_expired_messages, purge_dead_letter_messages, delete_expired, delete_dead_letters,
  expired_ids, purgeable_ids, read_purge_row, collect,
}
use retsu.Postgres.Calls.{
  Call, creates, reads_name, reads_details, updates, enqueues, dequeues, acknowledges, expires,
  purges, after, outcome-keeps, execute-keeps, read-keeps, bound-keeps,
}

module _ (P : Database → Type 0) (s : Session) where
  -- The statement of the call keeps the property.
  unfoldable pub Keeps : Call → Database → Type 0
  Keeps (creates queue) db =
      (row : QueueRow) (r : Option Uuid) (db' : Database)
      → insert_queue row db ≡ some (r, db')
      → P db'
  Keeps (reads_name id) db = Unit {0}
  Keeps (reads_details id) db = Unit {0}
  Keeps (updates id configuration) db =
      (x y z : Option ℤ) (r : Option QueueDetailsRow) (db' : Database)
      → update_row (reconfigured s.now x y z) id db ≡ some (r, db')
      → P db'
  Keeps (enqueues id message ttl) db =
      (r : Unit {0}) (db' : Database)
      → insert_message (new_row s.now db.next_order id message ttl) db ≡ some (r, db')
      → P db'
  Keeps (dequeues id handle) db =
      (r : DequeueMessageRow) (db' : Database)
      → dequeue_statement s id handle db ≡ some (r, db')
      → P db'
  Keeps (acknowledges id message_id handle) db = P (record db {
    messages = keep_if (λ m. not (is_leased_as s.now id message_id handle m)) db.messages;
  })
  Keeps (expires batch_size) db = P (record db {
    messages =
        keep_if (λ m. not (contains (expired_ids s batch_size db.messages) m.id)) db.messages;
  })
  Keeps (purges retention batch_size) db = P (record db {
    dead_letters =
        keep_if (λ d. not (contains (purgeable_ids s retention batch_size db.dead_letters) d.id))
          db.dead_letters;
  })

  create_queue-keeps :
      (queue : Queue) (db : Database)
      → P db
      → Keeps (creates queue) db
      → P (create_queue s queue db).1
  unfolding create_queue Keeps
  create_queue-keeps queue db h keep =
      bound-keeps P (expect (to_signed i32_max queue.settings.visibility_timeout_seconds))
        (expect (to_signed i16_max queue.settings.max_delivery_attempts))
        (expect (to_signed i32_max queue.settings.default_message_ttl_seconds))
        (insert_bound s queue) db h
        λ x y z.
          read-keeps P {B = CreateQueueOutcome} (execute s (insert_queue _) db)
            (λ inserted. ok (creation_outcome inserted))
            (execute-keeps P s (insert_queue _) db h (keep _))

  update_queue-keeps :
      (id : Uuid) (configuration : QueueConfigurationUpdate) (db : Database)
      → P db
      → Keeps (updates id configuration) db
      → P (update_queue s id configuration db).1
  unfolding update_queue Keeps
  update_queue-keeps id configuration db h keep =
      bound-keeps P (expect_given i32_max configuration.visibility_timeout_seconds)
        (expect_given i16_max configuration.max_delivery_attempts)
        (expect_given i32_max configuration.default_message_ttl_seconds) (update_bound s id) db h
        λ x y z.
          read-keeps P (execute s (update_row (reconfigured s.now x y z) id) db)
            (transpose_map queue_details_from_row)
            (execute-keeps P s (update_row (reconfigured s.now x y z) id) db h (keep x y z))

  pub after-keeps : (c : Call) (db : Database) → P db → Keeps c db → P (after s c db)
  unfolding after Keeps queue_name queue_details enqueue_message dequeue_message acknowledge_message
      process_expired_messages delete_expired purge_dead_letter_messages delete_dead_letters
  after-keeps (creates queue) db h keep = create_queue-keeps queue db h keep
  after-keeps (reads_name id) db h keep =
      execute-keeps P s (select_name id) db h (λ r db' e. subst P (ground arith) h)
  after-keeps (reads_details id) db h keep =
      read-keeps P (execute s (select_details id) db) _
        (execute-keeps P s (select_details id) db h (λ r db' e. subst P (ground arith) h))
  after-keeps (updates id configuration) db h keep = update_queue-keeps id configuration db h keep
  after-keeps (enqueues id message ttl) db h keep = outcome-keeps P s.fault db _ h keep
  after-keeps (dequeues id handle) db h keep =
      read-keeps P (execute s (dequeue_statement s id handle) db) _
        (execute-keeps P s (dequeue_statement s id handle) db h keep)
  after-keeps (acknowledges id message_id handle) db h keep =
      let statement = delete_leased s.now id message_id handle in
      read-keeps P (execute s statement db) _
        (execute-keeps P s statement db h (λ r db' e. subst P (ground arith) keep))
  after-keeps (expires batch_size) db h keep =
      let statement = delete_expired s batch_size in
      read-keeps P (execute s statement db) _
        (execute-keeps P s statement db h (λ r db' e. subst P (ground arith) keep))
  after-keeps (purges retention batch_size) db h keep =
      let statement = delete_dead_letters s retention batch_size in
      read-keeps P (execute s statement db) (collect read_purge_row)
        (execute-keeps P s statement db h (λ r db' e. subst P (ground arith) keep))
