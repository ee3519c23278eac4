-- ===== src/Postgres/Calls.antt =====
-- The calls of a repository over PostgreSQL as one step function, histories of them, and how a
-- property of the database survives a call (src/modules/queue/infrastructure/postgres.rs).
pub mod Survival
use retsu.Base.{
  ℕ, not, contains, expect, to_signed, i16_max, i32_max, transpose_map, ◌≡◌, refl, subst, Bool,
  true, false, Option, none, some, List, [], ◌∷◌, Text, Result, ok, err, panicked, arith,
  Option-cases, inl, inr, Action, lift, ◌>>=◌, and_then, Distinct, NamesDiffer,
}
use retsu.Domain.Message.{Uuid, Message}
use retsu.Domain.Queue.{Queue, QueueConfigurationUpdate}
use retsu.Repository.{Error, CreateQueueOutcome}
use retsu.Postgres.Tables.{
  Database, Session, Statement, Fault, no_fault, pool_exhausted, not_executed, reply_lost, executed,
  execute,
}
use retsu.Postgres.Queues.{
  QueueDetailsRow, queue_details_from_row, creation_outcome, insert_bound, update_bound,
  expect_given, insert_queue, update_row, reconfigured, select_name, select_details, create_queue,
  queue_name, queue_details, update_queue,
}
use retsu.Postgres.Messages.{
  is_leased_as, acknowledgement, delete_leased, insert_message, new_row, enqueue_message,
  acknowledge_message,
}
use retsu.Postgres.Dequeue.{dequeue_statement, dequeue_message}
use retsu.Postgres.Cleanup.{
  process_expired_messages, purge_dead_letter_messages, delete_expired, delete_dead_letters,
  expired_ids, purgeable_ids, read_expiry_row, read_purge_row, collect,
}

-- A call of the trait `QueueRepository`.
pub data Call : Type 0 where
  creates : Queue → Call
  reads_name reads_details : Uuid → Call
  updates : Uuid → QueueConfigurationUpdate → Call
  enqueues : Uuid → Message → (effective_ttl_seconds : ℕ) → Call
  dequeues : Uuid → (receipt_handle : Uuid) → Call
  acknowledges : Uuid → Uuid → Uuid → Call
  expires : (batch_size : ℕ) → Call
  purges : (retention_seconds batch_size : ℕ) → Call

-- The database that a call leaves.
unfoldable pub after : Session → Call → Database → Database
after s (creates queue) db = (create_queue s queue db).1
after s (reads_name id) db = (queue_name s id db).1
after s (reads_details id) db = (queue_details s id db).1
after s (updates id configuration) db = (update_queue s id configuration db).1
after s (enqueues id message ttl) db = (enqueue_message s id message ttl db).1
after s (dequeues id handle) db = (dequeue_message s id handle db).1
after s (acknowledges id message_id handle) db = (acknowledge_message s id message_id handle db).1
after s (expires batch_size) db = (process_expired_messages s batch_size db).1
after s (purges retention batch_size) db = (purge_dead_letter_messages s retention batch_size db).1

unfoldable pub history : List (Session × Call) → Database → Database
history [] db = db
history ((s, c) ∷ cs) db = history cs (after s c db)

-- A property of the database survives a chain of steps that each keep it.
module _ (P : Database → Type 0) where
  pub outcome-keeps :
      {A : Type 0} (f : Fault) (db : Database) (outcome : Option (A × Database))
      → P db
      → ((a : A) (db' : Database) → outcome ≡ some (a, db') → P db')
      → P (executed f db outcome).1
  outcome-keeps pool_exhausted db outcome h keep = h
  outcome-keeps not_executed db outcome h keep = h
  outcome-keeps no_fault db none h keep = h
  outcome-keeps no_fault db (some (a, db')) h keep = keep a db' refl
  outcome-keeps reply_lost db none h keep = h
  outcome-keeps reply_lost db (some (a, db')) h keep = keep a db' refl

  pub execute-keeps :
      {A : Type 0} (s : Session) (statement : Statement A) (db : Database)
      → P db
      → ((a : A) (db' : Database) → statement db ≡ some (a, db') → P db')
      → P (execute s statement db).1
  execute-keeps s statement db h keep = outcome-keeps s.fault db (statement db) h keep

  pub read-keeps :
      {A B : Type 0} (ran : Result Error A × Database) (read : A → Result Error B)
      → P ran.1
      → P (and_then ran (λ a. lift (read a))).1
  read-keeps (ok a, db) read h = h
  read-keeps (err e, db) read h = h
  read-keeps (panicked, db) read h = h

  pub bound-keeps :
      {A B : Type 0} (v a t : Result Error A) (next : A → A → A → Action Database Error B)
      (db : Database)
      → P db
      → ((x y z : A) → P (next x y z db).1)
      → P ((lift v >>= λ x. lift a >>= λ y. lift t >>= λ z. next x y z) db).1
  bound-keeps (ok x) (ok y) (ok z) next db h keep = keep x y z
  bound-keeps (ok x) (ok y) (err e) next db h keep = h
  bound-keeps (ok x) (ok y) panicked next db h keep = h
  bound-keeps (ok x) (err e) t next db h keep = h
  bound-keeps (ok x) panicked t next db h keep = h
  bound-keeps (err e) a t next db h keep = h
  bound-keeps panicked a t next db h keep = h

-- No rows at all.
unfoldable pub no_rows : Database
no_rows = record { queues = []; messages = []; dead_letters = []; next_order = 1 }
