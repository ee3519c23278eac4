-- ===== src/Postgres/Messages.antt =====
-- Enqueue and acknowledge (src/modules/queue/infrastructure/postgres.rs).
pub mod Inversion
use mathlib.Core.Option
use retsu.Base.{
  contains, ℕ, ◌+◌, ◌*◌, Bool, true, false, ◌&&◌, ◌||◌, not, Option, none, some, List, [], ◌∷◌,
  ◌++◌, map, Text, Result, ok, err, try, ok_or, lift, Action, ◌>>=◌, ℤ, pos, to_unsigned, ◌==◌, leb,
  ltb, if◌then◌else◌, is_some, keep_if, take, length, order_by, first_row, from_utf8, find,
}
use retsu.Domain.Message.{Uuid, Message, rank, from_rank}
use retsu.Repository.{
  Error, missing_queue_name, negative_dead_letter_count, payload_not_utf8,
  negative_delivery_attempt_count, incomplete_leased_message, invalid_priority_rank, Delivery,
  DequeueMessageOutcome, dequeued, empty, queue_not_found, AcknowledgeMessageOutcome, acknowledged,
  unchanged,
}
use retsu.Postgres.Tables.{
  second, QueueRow, MessageState, ready, in_flight, MessageRow, DeadLetterRow, Database, Session,
  Statement, execute, find_queue, message_ids, dead_letter_ids, message_checks, dead_letter_checks,
  is_in_flight, holds,
}

-- The row that INSERT INTO queue_message makes, its defaults included.
abbrev pub new_row : ℕ → ℕ → Uuid → Message → ℕ → MessageRow
new_row now order queue_id message effective_ttl_seconds = record {
  id = message.id;
  queue_id = queue_id;
  enqueue_order = order;
  payload = message.payload;
  priority = rank message.priority;
  state = ready;
  enqueued_at = now;
  expires_at = now + effective_ttl_seconds * second;
  delivery_attempts = 0;
  receipt_handle = none;
  available_after = now;
  last_delivered_at = none;
}

-- INSERT INTO queue_message, with its primary key, foreign key and check constraints.
abbrev pub insert_message : MessageRow → Statement (Unit {0})
insert_message row db =
    if message_checks row
      && (is_some (find_queue row.queue_id db.queues)
          && not (contains (message_ids db.messages) row.id))
    then some (tt, record db { messages = db.messages ++ row ∷ []; next_order = db.next_order + 1 })
    else none

unfoldable pub enqueue_message : Session → Uuid → Message → ℕ → Action Database Error (Unit {0})
enqueue_message s queue_id message effective_ttl_seconds =
    execute s
      λ db. insert_message (new_row s.now db.next_order queue_id message effective_ttl_seconds) db

-- DELETE FROM queue_message WHERE id = $1 AND queue_id = $2 AND receipt_handle = $3
--   AND available_after > CURRENT_TIMESTAMP RETURNING id
abbrev pub is_leased_as : ℕ → Uuid → Uuid → Uuid → MessageRow → Bool
is_leased_as now queue_id message_id receipt_handle m =
    m.id == message_id
    && (m.queue_id == queue_id
        && (holds m.receipt_handle receipt_handle && ltb now m.available_after))

abbrev pub delete_leased : ℕ → Uuid → Uuid → Uuid → Statement (Option Uuid)
delete_leased now queue_id message_id receipt_handle db =
    let test = is_leased_as now queue_id message_id receipt_handle in
    some (
      Option.map (λ m. m.id) (find test db.messages),
      record db { messages = keep_if (λ m. not (test m)) db.messages },
    )

abbrev pub acknowledgement : Option Uuid → AcknowledgeMessageOutcome
acknowledgement (some id) = acknowledged
acknowledgement none = unchanged

unfoldable pub acknowledge_message :
    Session → Uuid → Uuid → Uuid → Action Database Error AcknowledgeMessageOutcome
acknowledge_message s queue_id message_id receipt_handle = do
  deleted ← execute s (delete_leased s.now queue_id message_id receipt_handle)
  lift (ok (acknowledgement deleted))
