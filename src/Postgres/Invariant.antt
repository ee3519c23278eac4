-- ===== src/Postgres/Invariant.antt =====
-- What the constraints of migrations/ make of the tables, as an invariant of the database.
pub mod Queues
pub mod Messages
pub mod Steps
use retsu.Base.{ℕ, ◌<◌, ◌≡◌, true, List, [], ◌∷◌, map, Text, NamesDiffer, All, contains, Distinct}
use retsu.Domain.Message.{Uuid}
use retsu.Postgres.Tables.{
  QueueRow, MessageRow, DeadLetterRow, Database, queue_checks, message_checks, dead_letter_checks,
  message_ids, dead_letter_ids,
}

abbrev pub queue_ids : List QueueRow → List Uuid
queue_ids = map λ q. q.id

abbrev pub orders : List MessageRow → List ℕ
orders = map λ m. m.enqueue_order

abbrev pub names : List QueueRow → List Text
names = map λ q. q.name

pub record QueuesOk (queues : List QueueRow) : Type 0 where
  pub checked : All (λ q. queue_checks q ≡ true) queues
  pub ids : Distinct (queue_ids queues)
  pub names_differ : NamesDiffer (names queues)

-- A message row that meets its check constraints, its foreign key, and the bound of the sequence.
abbrev pub MessageOk : List Uuid → ℕ → MessageRow → Type 0
MessageOk known next m =
    (message_checks m ≡ true) × (contains known m.queue_id ≡ true) × (m.enqueue_order < next)

pub record MessagesOk (known : List Uuid) (next : ℕ) (messages : List MessageRow) : Type 0 where
  pub rows : All (MessageOk known next) messages
  pub ids : Distinct (message_ids messages)
  pub order : Distinct (orders messages)

abbrev pub DeadLetterOk : List Uuid → DeadLetterRow → Type 0
DeadLetterOk known d = (dead_letter_checks d ≡ true) × (contains known d.queue_id ≡ true)

pub record DeadLettersOk (known : List Uuid) (letters : List DeadLetterRow) : Type 0 where
  pub rows : All (DeadLetterOk known) letters
  pub ids : Distinct (dead_letter_ids letters)

pub record IsWellFormed (db : Database) : Type 0 where
  pub queues : QueuesOk db.queues
  pub messages : MessagesOk (queue_ids db.queues) db.next_order db.messages
  pub dead_letters : DeadLettersOk (queue_ids db.queues) db.dead_letters
