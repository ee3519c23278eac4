-- ===== src/Postgres/Messages/Inversion.antt =====
-- What an INSERT INTO queue_message that met its constraints has done
-- (src/modules/queue/infrastructure/postgres.rs).
use retsu.Base.{
  ◌+◌, ◌≡◌, true, false, some, Bool-cases, inl, inr, [], ◌∷◌, ◌++◌, is_some, contains, arith,
}
use retsu.Postgres.Tables.{MessageRow, Database, message_ids, message_checks, find_queue}
use retsu.Postgres.Messages.{insert_message}

pub insert_message-eq-some :
    (row : MessageRow) (db db' : Database) (r : Unit {0})
    → insert_message row db ≡ some (r, db')
    → (message_checks row ≡ true)
      × (is_some (find_queue row.queue_id db.queues) ≡ true)
      × (contains (message_ids db.messages) row.id ≡ false)
      × (db' ≡ record db { messages = db.messages ++ row ∷ []; next_order = db.next_order + 1 })
insert_message-eq-some row db db' r e = elim (Bool-cases (message_checks row)) [
  | inr bad ↦ absurd (ground arith)
  | inl good ↦ elim (Bool-cases (is_some (find_queue row.queue_id db.queues))) [
    | inr bad ↦ absurd (ground arith)
    | inl target ↦ elim (Bool-cases (contains (message_ids db.messages) row.id)) [
      | inl bad ↦ absurd (ground arith)
      | inr fresh ↦ (good, target, fresh, ground arith)
    ]
  ]
]
