-- ===== src/Rollups/Histories.antt =====
-- The counts agree with the messages after any history of calls, and no trigger ever undoes one
-- (migrations/20260727190617_create_queue_priority_state_rollups.sql).

use retsu.Base.{
  ℕ, ◌≡◌, ◌∙◌, sym, refl, ap, subst, arith, true, false, some, Option, Option-cases, Bool-cases,
  inl, inr, List, [], ◌∷◌, find, same,
}
use retsu.Domain.Message.{Uuid}
use retsu.Domain.Queue.{Queue, QueueConfigurationUpdate}
use retsu.Postgres.Tables.{QueueRow, Database, Session, queue_checks, find_queue}
use retsu.Postgres.Messages.{enqueue_message, acknowledge_message}
use retsu.Postgres.Dequeue.{dequeue_message}
use retsu.Postgres.Queues.{insert_queue, update_row, reconfigured, QueueDetailsRow}
use retsu.Postgres.Cleanup.{process_expired_messages}
use retsu.Postgres.Calls.{
  Call, creates, reads_name, reads_details, updates, enqueues, dequeues, acknowledges, expires,
  purges, after,
}
use retsu.Postgres.Calls.Survival.{Keeps, after-keeps}
use retsu.Postgres.Invariant.{IsWellFormed}
use retsu.Postgres.Invariant.Steps.{after-IsWellFormed}
use retsu.Rollups.Shards.{ShardRow}
use retsu.Rollups.Firing.{Agrees}
use retsu.Rollups.Calls.{executes, dml, rolled_after, rolled_history}
use retsu.Rollups.Backfill.{backfill, backfill-Agrees}
use retsu.Rollups.Execution.{executed-not, read-database}
use retsu.Rollups.Agreement.{
  Rolls, by_parts, no_trigger, acknowledges-Rolls, expires-Rolls, enqueues-Rolls, dequeues-Rolls,
}
use retsu.Postgres.Calls.{history}

-- The calls that touch no message, and those that do not reach the database.
same_messages :
    (s : Session) (c : Call) (db : Database)
    → Keeps (λ x. x.messages ≡ db.messages) s c db
    → (after s c db).messages ≡ db.messages
same_messages s c db k = after-keeps (λ x. x.messages ≡ db.messages) s c db refl k

insert_queue-messages :
    (row : QueueRow) (db db' : Database) (r : Option Uuid)
    → insert_queue row db ≡ some (r, db')
    → db'.messages ≡ db.messages
insert_queue-messages row db db' r e = elim (Bool-cases (queue_checks row)) [
  | inr bad ↦ absurd (cc (rw bad at e))
  | inl good ↦ elim (Option-cases (find (λ q. same q.name row.name) db.queues)) [
    | inr (q, taken) ↦ ground arith
    | inl free ↦ elim (Option-cases (find_queue row.id db.queues)) [
      | inr (q, taken) ↦ absurd (ground arith)
      | inl fresh ↦ ground arith
    ]
  ]
]

update_row-messages :
    (change : QueueRow → QueueRow) (id : Uuid) (db db' : Database) (r : Option QueueDetailsRow)
    → update_row change id db ≡ some (r, db')
    → db'.messages ≡ db.messages
update_row-messages change id db db' r e = elim (Option-cases (find_queue id db.queues)) [
  | inl missing ↦ ground arith
  | inr (q, found) ↦ elim (Bool-cases (queue_checks (change q))) [
    | inr bad ↦ absurd (ground arith)
    | inl good ↦ ground arith
  ]
]

module _ (s : Session) (db : Database) where
  -- A call that touches no message.
  abbrev IsQuiet : Call → Type 0
  IsQuiet c = (dml s c db ≡ []) × ((after s c db).messages ≡ db.messages)

  creates-IsQuiet : (queue : Queue) → IsQuiet (creates queue)
  unfolding dml Keeps
  creates-IsQuiet queue =
      (refl, same_messages s (creates queue) db λ row r db' e. insert_queue-messages row db db' r e)

  reads_name-IsQuiet : (id : Uuid) → IsQuiet (reads_name id)
  unfolding dml Keeps
  reads_name-IsQuiet id = (refl, same_messages s (reads_name id) db tt)

  reads_details-IsQuiet : (id : Uuid) → IsQuiet (reads_details id)
  unfolding dml Keeps
  reads_details-IsQuiet id = (refl, same_messages s (reads_details id) db tt)

  updates-IsQuiet :
      (id : Uuid) (configuration : QueueConfigurationUpdate) → IsQuiet (updates id configuration)
  unfolding dml Keeps
  updates-IsQuiet id configuration = (
    refl,
    same_messages s (updates id configuration) db
        λ x y z r db' e. update_row-messages (reconfigured s.now x y z) id db db' r e,
  )

  purges-IsQuiet : (retention batch_size : ℕ) → IsQuiet (purges retention batch_size)
  unfolding dml Keeps
  purges-IsQuiet retention batch_size =
      (refl, same_messages s (purges retention batch_size) db refl)

  -- A call whose statement does not run.
  idle-messages : (c : Call) → executes s.fault ≡ false → (after s c db).messages ≡ db.messages
  unfolding after enqueue_message dequeue_message acknowledge_message process_expired_messages
  idle-messages (creates queue) h = (creates-IsQuiet queue).1
  idle-messages (reads_name id) h = (reads_name-IsQuiet id).1
  idle-messages (reads_details id) h = (reads_details-IsQuiet id).1
  idle-messages (updates id configuration) h = (updates-IsQuiet id configuration).1
  idle-messages (enqueues id message ttl) h = ap (λ x. x.messages) (executed-not s.fault db _ h)
  idle-messages (dequeues id handle) h =
      ap (λ x. x.messages) (read-database _ _ ∙ executed-not s.fault db _ h)
  idle-messages (acknowledges id message_id handle) h =
      ap (λ x. x.messages) (read-database _ _ ∙ executed-not s.fault db _ h)
  idle-messages (expires batch_size) h =
      ap (λ x. x.messages) (read-database _ _ ∙ executed-not s.fault db _ h)
  idle-messages (purges retention batch_size) h = (purges-IsQuiet retention batch_size).1

  module _ (rows : List ShardRow) (w : IsWellFormed db) (a : Agrees rows db.messages) where
    quiet-Rolls : (c : Call) → IsQuiet c → Rolls s db rows w a c
    quiet-Rolls c (e, kept) =
        by_parts s db rows w a c [] db.messages e kept (no_trigger s db rows w a)

    call-Rolls : (c : Call) → executes s.fault ≡ true → Rolls s db rows w a c
    call-Rolls (creates queue) run = quiet-Rolls _ (creates-IsQuiet queue)
    call-Rolls (reads_name id) run = quiet-Rolls _ (reads_name-IsQuiet id)
    call-Rolls (reads_details id) run = quiet-Rolls _ (reads_details-IsQuiet id)
    call-Rolls (updates id configuration) run = quiet-Rolls _ (updates-IsQuiet id configuration)
    call-Rolls (enqueues id message ttl) run = enqueues-Rolls s db rows w a run id message ttl
    call-Rolls (dequeues id handle) run = dequeues-Rolls s db rows w a run id handle
    call-Rolls (acknowledges id message_id handle) run =
        acknowledges-Rolls s db rows w a run id message_id handle
    call-Rolls (expires batch_size) run = expires-Rolls s db rows w a run batch_size
    call-Rolls (purges retention batch_size) run =
        quiet-Rolls _ (purges-IsQuiet retention batch_size)

    pub rolled_after-Agrees :
        (c : Call)
        → (rolled_after s c (db, rows)).0 ≡ after s c db
          × Agrees (rolled_after s c (db, rows)).1 (after s c db).messages
    unfolding rolled_after
    rolled_after-Agrees c = elim (Bool-cases (executes s.fault)) [
      | inl run ↦ let (rows', ran, b) = call-Rolls c run in rw (run, ran) (refl, b)
      | inr idle ↦ rw idle (refl, subst (Agrees rows) (sym (idle-messages c idle)) a)
    ]

history_from-Agrees :
    (cs : List (Session × Call)) (db : Database) (rows : List ShardRow)
    → IsWellFormed db
    → Agrees rows db.messages
    → ((rolled_history cs (db, rows)).0 ≡ history cs db)
      × Agrees (rolled_history cs (db, rows)).1 (history cs db).messages
unfolding rolled_history history
history_from-Agrees [] db rows w a = (refl, a)
history_from-Agrees ((s, c) ∷ cs) db rows w a =
    let (same, b) = rolled_after-Agrees s db rows w a c in
    let next = rolled_after s c (db, rows) in
    let (ends, agrees) =
      history_from-Agrees cs next.0 next.1
        (subst IsWellFormed (sym same) (after-IsWellFormed s c db w))
        (subst (λ x. Agrees next.1 x.messages) (sym same) b) in
    (
      ends ∙ ap (history cs) same,
      subst (λ x. Agrees (rolled_history cs next).1 (history cs x).messages) same agrees,
    )

-- On well-formed tables that the migration has backfilled, after any history of calls no trigger
-- has undone a statement, so that the tables are those of the history without triggers; and for
-- each state, each row of counts, and each sum of them over some of the keys, is the number of
-- messages in that state with these keys.
pub migrated-Agrees :
    (cs : List (Session × Call)) (db : Database)
    → IsWellFormed db
    → ((rolled_history cs (db, backfill db.messages)).0 ≡ history cs db)
      × Agrees (rolled_history cs (db, backfill db.messages)).1 (history cs db).messages
migrated-Agrees cs db w =
    history_from-Agrees cs db (backfill db.messages) w (backfill-Agrees db.messages)
