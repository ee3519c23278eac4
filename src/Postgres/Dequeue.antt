-- ===== src/Postgres/Dequeue.antt =====
-- Dequeue: dead-lettering, the choice of a message, its lease, and the reply (src/modules/queue/infrastructure/postgres.rs).
pub mod Inversion
pub mod Order
use mathlib.Core.Option
use retsu.Base.{
  contains, ℕ, ◌+◌, ◌*◌, Bool, true, false, ◌&&◌, ◌||◌, not, Option, none, some, List, [], ◌∷◌,
  ◌++◌, map, Text, Result, ok, err, try, ok_or, lift, Action, ◌>>=◌, ℤ, pos, to_unsigned, ◌==◌, leb,
  ltb, if◌then◌else◌, is_some, keep_if, take, length, order_by, first_row, from_utf8, find,
}
use retsu.Domain.Message.{Uuid, Message, rank, from_rank}
use retsu.Repository.{
  Error, missing_queue_name, negative_dead_letter_count, payload_not_utf8,
  negative_delivery_attempt_count, incomplete_leased_message, invalid_priority_rank, Delivery,
  DequeueMessageOutcome, dequeued, empty, queue_not_found, AcknowledgeMessageOutcome, acknowledged,
  unchanged,
}
use retsu.Postgres.Tables.{
  second, QueueRow, MessageState, ready, in_flight, MessageRow, DeadLetterRow, Database, Session,
  Statement, execute, find_queue, message_ids, dead_letter_ids, message_checks, dead_letter_checks,
  is_in_flight, holds,
}

abbrev pub dequeue_dead_letter_batch_size : ℕ
dequeue_dead_letter_batch_size = 8

-- A delivered message whose lease has run out and whose attempts are used up, before its expiry.
abbrev pub is_exhausted : ℕ → QueueRow → MessageRow → Bool
is_exhausted now q m =
    m.queue_id == q.id
    && (is_in_flight m.state
        && (leb m.available_after now
            && (ltb now m.expires_at && leb q.max_delivery_attempts m.delivery_attempts)))

-- The conditions of the CTE `candidate`.
abbrev pub is_deliverable : ℕ → QueueRow → MessageRow → Bool
is_deliverable now q m =
    m.queue_id == q.id
    && (ltb now m.expires_at
        && (ltb m.delivery_attempts q.max_delivery_attempts
            && (not (is_in_flight m.state) || leb m.available_after now)))

-- ORDER BY available_after ASC, id ASC
abbrev pub dead_letter_order : MessageRow → MessageRow → Bool
dead_letter_order a b =
    ltb a.available_after b.available_after
    || (a.available_after == b.available_after && leb a.id b.id)

-- ORDER BY priority DESC, enqueue_order ASC
abbrev pub delivery_order : MessageRow → MessageRow → Bool
delivery_order a b =
    ltb b.priority a.priority || (a.priority == b.priority && leb a.enqueue_order b.enqueue_order)

-- FOR UPDATE SKIP LOCKED
abbrev pub unlocked : Session → List MessageRow → List MessageRow
unlocked s = keep_if λ m. not (s.is_locked m.id)

unfoldable pub dead_letter_candidates : Session → QueueRow → List MessageRow → List MessageRow
dead_letter_candidates s q messages =
    take dequeue_dead_letter_batch_size
      (order_by dead_letter_order (unlocked s (keep_if (is_exhausted s.now q) messages)))

unfoldable pub delivery_candidate : Session → QueueRow → List MessageRow → Option MessageRow
delivery_candidate s q messages =
    first_row (order_by delivery_order (unlocked s (keep_if (is_deliverable s.now q) messages)))

-- The row that the CTE `stored_dead_letters` makes of a deleted message.
abbrev pub dead_letter : ℕ → ℕ → MessageRow → DeadLetterRow
dead_letter now delivered m = record {
  id = m.id;
  queue_id = m.queue_id;
  payload = m.payload;
  priority = m.priority;
  enqueued_at = m.enqueued_at;
  expires_at = m.expires_at;
  delivery_attempts = m.delivery_attempts;
  last_delivered_at = delivered;
  dead_lettered_at = now;
}

-- INSERT INTO queue_dead_letter_message of one row, with its constraints.
abbrev pub store_dead_letter : ℕ → MessageRow → List DeadLetterRow → Option (List DeadLetterRow)
store_dead_letter now m letters = elim m.last_delivered_at [
  | none ↦ none
  | some delivered ↦
      if dead_letter_checks (dead_letter now delivered m)
        && not (contains (dead_letter_ids letters) m.id)
      then some (letters ++ dead_letter now delivered m ∷ [])
      else none
]

unfoldable pub store_dead_letters :
    ℕ → List MessageRow → List DeadLetterRow → Option (List DeadLetterRow)
store_dead_letters now [] letters = some letters
store_dead_letters now (m ∷ ms) letters =
    Option.bind (store_dead_letter now m letters) (store_dead_letters now ms)

-- The assignments of the CTE `leased`.
abbrev pub lease : ℕ → QueueRow → Uuid → MessageRow → MessageRow
lease now q receipt_handle m = record m {
  state = in_flight;
  receipt_handle = some receipt_handle;
  delivery_attempts = m.delivery_attempts + 1;
  last_delivered_at = some now;
  available_after = now + q.visibility_timeout_seconds * second;
}

-- UPDATE queue_message … WHERE message.id = candidate.id
abbrev pub replace_message : MessageRow → List MessageRow → List MessageRow
replace_message row = map λ m. if m.id == row.id then row else m

-- What sqlx reads from the one row of the reply.
pub record DequeueMessageRow : Type 0 where
  pub queue_exists : Bool
  pub queue_name : Option Text
  pub id : Option Uuid
  pub payload : Option Text
  pub priority : Option ℤ
  pub delivery_attempts : Option ℤ
  pub dead_lettered : ℤ

abbrev pub reply : Option Text → Option MessageRow → ℕ → DequeueMessageRow
reply name leased count = record {
  queue_exists = is_some name;
  queue_name = name;
  id = Option.map (λ m. m.id) leased;
  payload = Option.map (λ m. m.payload) leased;
  priority = Option.map (λ m. pos m.priority) leased;
  delivery_attempts = Option.map (λ m. pos m.delivery_attempts) leased;
  dead_lettered = pos count;
}

abbrev pub victims : Session → QueueRow → List MessageRow → List Uuid
victims s q messages = message_ids (dead_letter_candidates s q messages)

-- The CTEs `dead_lettered` and `leased` on the queue that `target_queue` found. Both read the rows
-- as they were before the statement.
unfoldable pub dequeue_from : Session → QueueRow → Uuid → Statement DequeueMessageRow
dequeue_from s q receipt_handle db =
    let ids = victims s q db.messages in
    let deleted = keep_if (λ m. contains ids m.id) db.messages in
    let kept = keep_if (λ m. not (contains ids m.id)) db.messages in
    elim (store_dead_letters s.now deleted db.dead_letters) [
      | none ↦ none
      | some letters ↦ elim (delivery_candidate s q db.messages) [
        | none ↦ some (
          reply (some q.name) none (length deleted),
          record db { messages = kept; dead_letters = letters },
        )
        | some m ↦
            let leased = lease s.now q receipt_handle m in
            if message_checks leased
            then some (
              reply (some q.name) (some leased) (length deleted),
              record db { messages = replace_message leased kept; dead_letters = letters },
            )
            else none
      ]
    ]

unfoldable pub dequeue_statement : Session → Uuid → Uuid → Statement DequeueMessageRow
dequeue_statement s queue_id receipt_handle db = elim (find_queue queue_id db.queues) [
  | none ↦ some (reply none none 0, db)
  | some q ↦ dequeue_from s q receipt_handle db
]

-- The arm of the match for a message that was leased.
abbrev pub read_delivery :
    Uuid → Text → ℕ → Uuid → Text → ℤ → ℤ → Result Error DequeueMessageOutcome
read_delivery receipt_handle queue_name dead_lettered id payload priority_rank delivery_attempts =
    try (ok_or (from_utf8 payload) payload_not_utf8) λ payload'.
      try (ok_or (from_rank priority_rank) (invalid_priority_rank priority_rank)) λ priority.
        try (ok_or (to_unsigned delivery_attempts) negative_delivery_attempt_count) λ attempts. ok (
          dequeued (record {
            id = id;
            payload = payload';
            priority = priority;
            receipt_handle = receipt_handle;
            delivery_attempts = attempts;
            queue_name = queue_name;
            dead_lettered = dead_lettered;
          }))

-- `match (row.id, row.payload, row.priority, row.delivery_attempts)`
abbrev pub read_fields :
    Uuid
    → Text
    → ℕ
    → Option Uuid
    → Option Text
    → Option ℤ
    → Option ℤ
    → Result Error DequeueMessageOutcome
read_fields receipt_handle name count none none none none = ok (empty name count)
read_fields receipt_handle name count (some id) (some payload) (some priority) (some attempts) =
    read_delivery receipt_handle name count id payload priority attempts
read_fields receipt_handle name count _ _ _ _ = err incomplete_leased_message

unfoldable pub dequeue_outcome : Uuid → DequeueMessageRow → Result Error DequeueMessageOutcome
dequeue_outcome receipt_handle row =
    if not row.queue_exists
    then ok queue_not_found
    else try (ok_or row.queue_name missing_queue_name) λ name.
      try (ok_or (to_unsigned row.dead_lettered) negative_dead_letter_count) λ count.
        read_fields receipt_handle name count row.id row.payload row.priority row.delivery_attempts

unfoldable pub dequeue_message : Session → Uuid → Uuid → Action Database Error DequeueMessageOutcome
dequeue_message s queue_id receipt_handle = do
  row ← execute s (dequeue_statement s queue_id receipt_handle)
  lift (dequeue_outcome receipt_handle row)
