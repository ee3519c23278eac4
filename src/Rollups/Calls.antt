-- ===== src/Rollups/Calls.antt =====
-- The calls of a repository with the triggers that they fire
-- (migrations/20260727190617_create_queue_priority_state_rollups.sql,
-- src/modules/queue/infrastructure/postgres.rs).

use retsu.Base.{
  ℕ, Bool, true, false, none, some, Option, List, [], ◌∷◌, contains, keep_if, if◌then◌else◌,
}
use retsu.Domain.Message.{Uuid}
use retsu.Postgres.Tables.{
  QueueRow, MessageRow, Database, Session, Fault, no_fault, pool_exhausted, not_executed,
  reply_lost, find_queue,
}
use retsu.Postgres.Messages.{new_row, insert_message, is_leased_as}
use retsu.Postgres.Dequeue.{delivery_candidate, lease, dequeue_statement}
use retsu.Postgres.Dequeue.Inversion.{moved}
use retsu.Postgres.Cleanup.{expired_ids}
use retsu.Postgres.Calls.{
  Call, creates, reads_name, reads_details, updates, enqueues, dequeues, acknowledges, expires,
  purges, after,
}
use retsu.Postgres.Invariant.{queue_ids}
use retsu.Rollups.Shards.{ShardRow}
use retsu.Rollups.Trigger.{Dml, inserted, deleted, updated, fire}

abbrev pub Rolled : Type 0
Rolled = Database × List ShardRow

-- Whether the statement runs in the database.
abbrev pub executes : Fault → Bool
executes no_fault = true
executes pool_exhausted = false
executes not_executed = false
executes reply_lost = true

-- A statement that fails fires no trigger.
abbrev pub unless_refused : {A : Type 0} → List Dml → Option A → List Dml
unless_refused dmls none = []
unless_refused dmls (some a) = dmls

-- UPDATE queue_message … FROM candidate
abbrev pub leases : ℕ → QueueRow → Uuid → Option MessageRow → Dml
leases now q handle none = updated [] []
leases now q handle (some m) = updated (m ∷ []) (lease now q handle m ∷ [])

-- The CTEs `dead_lettered` and `leased` on the queue that `target_queue` found.
abbrev pub dequeue_dml : Session → Uuid → Database → Option QueueRow → List Dml
dequeue_dml s handle db none = deleted [] ∷ updated [] [] ∷ []
dequeue_dml s handle db (some q) =
    deleted (moved s q db) ∷ leases s.now q handle (delivery_candidate s q db.messages) ∷ []

-- The parts of a call's statement that fire triggers.
unfoldable pub dml : Session → Call → Database → List Dml
dml s (creates queue) db = []
dml s (reads_name id) db = []
dml s (reads_details id) db = []
dml s (updates id configuration) db = []
dml s (enqueues id message ttl) db =
    let row = new_row s.now db.next_order id message ttl in
    unless_refused (inserted (row ∷ []) ∷ []) (insert_message row db)
dml s (dequeues id handle) db =
    unless_refused (dequeue_dml s handle db (find_queue id db.queues))
      (dequeue_statement s id handle db)
dml s (acknowledges id message_id handle) db =
    deleted (keep_if (is_leased_as s.now id message_id handle) db.messages) ∷ []
dml s (expires batch_size) db =
    deleted (keep_if (λ m. contains (expired_ids s batch_size db.messages) m.id) db.messages) ∷ []
dml s (purges retention batch_size) db = []

-- A trigger that fails undoes the statement.
abbrev pub with_triggers : Rolled → Database → Option (List ShardRow) → Rolled
with_triggers before db none = before
with_triggers before db (some rows) = (db, rows)

unfoldable pub rolled_after : Session → Call → Rolled → Rolled
unfolding after dml fire
rolled_after s c (db, rows) =
    if executes s.fault
    then with_triggers (db, rows) (after s c db) (fire (queue_ids db.queues) (dml s c db) rows)
    else (after s c db, rows)

unfoldable pub rolled_history : List (Session × Call) → Rolled → Rolled
unfolding rolled_after
rolled_history [] state = state
rolled_history ((s, c) ∷ cs) state = rolled_history cs (rolled_after s c state)
