-- ===== src/Postgres/Persistence.antt =====
-- Queues are never removed: no statement of src/modules/queue/infrastructure/postgres.rs deletes one.
use mathlib.Core.List.{map-append}
use retsu.Base.{
  ◌≡◌, refl, true, Option, some, Bool-cases, Option-cases, inl, inr, List, [], ◌∷◌, ◌++◌, contains,
  contains-append, arith, find, same, ◌==◌, ==_iff,
}
use retsu.Domain.Message.{Uuid}
use retsu.Postgres.Tables.{QueueRow, Database, Session, find_queue, queue_checks}
use retsu.Postgres.Queues.{QueueDetailsRow, insert_queue, update_row, reconfigured, replace_queue}
use retsu.Postgres.Dequeue.{DequeueMessageRow, dequeue_statement}
use retsu.Postgres.Dequeue.Inversion.{dequeue_from_cases, statement_cases}
use retsu.Postgres.Messages.Inversion.{insert_message-eq-some}
use retsu.Postgres.Calls.{
  Call, creates, reads_name, reads_details, updates, enqueues, dequeues, acknowledges, expires,
  purges, after, history,
}
use retsu.Postgres.Calls.Survival.{Keeps, after-keeps}
use retsu.Postgres.Invariant.{queue_ids}

module _ (id : Uuid) where
  abbrev pub HasQueue : Database → Type 0
  HasQueue db = contains (queue_ids db.queues) id ≡ true

  insert_queue-HasQueue :
      (row : QueueRow) (db db' : Database) (r : Option Uuid)
      → insert_queue row db ≡ some (r, db')
      → HasQueue db
      → HasQueue db'
  insert_queue-HasQueue row db db' r e h = elim (Bool-cases (queue_checks row)) [
    | inr bad ↦ absurd (cc (rw bad at e))
    | inl good ↦ elim (Option-cases (find (λ q. same q.name row.name) db.queues)) [
      | inr (q, taken) ↦ let kept : db' ≡ db = ground arith in rw kept h
      | inl free ↦ elim (Option-cases (find_queue row.id db.queues)) [
        | inr (q, taken) ↦ absurd (ground arith)
        | inl fresh ↦
            let changed : db'.queues ≡ db.queues ++ row ∷ [] = ground arith in
            rw (changed, map-append) (rw (contains-append, h) refl)
      ]
    ]
  ]

  replace_queue-ids :
      (row : QueueRow) (qs : List QueueRow) → queue_ids (replace_queue row qs) ≡ queue_ids qs
  replace_queue-ids row [] = refl
  replace_queue-ids row (q ∷ qs) = elim (Bool-cases (q.id == row.id)) [
    | inl e ↦ rw e (cc ((==_iff _ _).0 e, replace_queue-ids row qs))
    | inr e ↦ rw e (cc (replace_queue-ids row qs))
  ]

  update_row-HasQueue :
      (change : QueueRow → QueueRow) (queue_id : Uuid) (db db' : Database)
      (r : Option QueueDetailsRow)
      → update_row change queue_id db ≡ some (r, db')
      → HasQueue db
      → HasQueue db'
  update_row-HasQueue change queue_id db db' r e h =
      elim (Option-cases (find_queue queue_id db.queues)) [
        | inl missing ↦ let kept : db' ≡ db = ground arith in rw kept h
        | inr (q, found) ↦ elim (Bool-cases (queue_checks (change q))) [
          | inr bad ↦ absurd (ground arith)
          | inl good ↦
              let changed : db'.queues ≡ replace_queue (change q) db.queues = ground arith in
              rw (changed, replace_queue-ids) h
        ]
      ]

  dequeue_statement-HasQueue :
      (s : Session) (queue_id handle : Uuid) (db db' : Database) (row : DequeueMessageRow)
      → dequeue_statement s queue_id handle db ≡ some (row, db')
      → HasQueue db
      → HasQueue db'
  dequeue_statement-HasQueue s queue_id handle db db' row e h =
      elim (statement_cases s queue_id handle db db' row e) [
        | inl (missing, replied, kept) ↦ rw kept h
        | inr (q, target, ran) ↦ elim (dequeue_from_cases s q handle db db' row ran) [
          | inl (m, l) ↦ rw l.queues h
          | inr f ↦ rw f.queues h
        ]
      ]

  Keeps-HasQueue : (s : Session) (c : Call) (db : Database) → HasQueue db → Keeps HasQueue s c db
  unfolding Keeps
  Keeps-HasQueue s (creates queue) db h = λ row r db' e. insert_queue-HasQueue row db db' r e h
  Keeps-HasQueue s (reads_name queue_id) db h = tt
  Keeps-HasQueue s (reads_details queue_id) db h = tt
  Keeps-HasQueue s (updates queue_id configuration) db h =
      λ x y z r db' e. update_row-HasQueue (reconfigured s.now x y z) queue_id db db' r e h
  Keeps-HasQueue s (enqueues queue_id message ttl) db h = λ r db' e.
      let (good, target, fresh, changed) = insert_message-eq-some _ db db' r e in rw changed h
  Keeps-HasQueue s (dequeues queue_id handle) db h =
      λ r db' e. dequeue_statement-HasQueue s queue_id handle db db' r e h
  Keeps-HasQueue s (acknowledges queue_id message_id handle) db h = h
  Keeps-HasQueue s (expires batch_size) db h = h
  Keeps-HasQueue s (purges retention batch_size) db h = h

  -- A queue that exists exists after any history of calls.
  pub history-HasQueue :
      (cs : List (Session × Call)) (db : Database) → HasQueue db → HasQueue (history cs db)
  unfolding history
  history-HasQueue [] db h = h
  history-HasQueue ((s, c) ∷ cs) db h =
      history-HasQueue cs (after s c db) (after-keeps HasQueue s c db h (Keeps-HasQueue s c db h))
