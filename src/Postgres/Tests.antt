-- ===== src/Postgres/Tests.antt =====
-- Concrete tables for src/modules/queue/infrastructure/postgres.rs, and a delivery on them.
pub mod Deliveries
pub mod Upkeep
use mathlib.Core.List.Perm
use mathlib.Core.Option
use retsu.Postgres.Leases.Histories.{dequeue_message-exclusive}
use retsu.Postgres.Dequeue.Order.{
  IsAvailable, Precedes, dequeue_message-order, dequeue_message-empty,
}
use retsu.Postgres.Invariant.Steps.{history-IsWellFormed}
use retsu.Postgres.DeadLetters.{Moves, dequeue_message-dead_letters, dequeue_message-conserves}
use retsu.Postgres.Receipts.{dequeue_message-acknowledge_message, dequeue_message-stale}
use retsu.Postgres.Acknowledgement.{
  IsReceipt, without, acknowledge_message-acknowledged, acknowledge_message-unchanged,
}
use retsu.Postgres.Maintenance.{
  Removes, IsExpired, IsRetained, process_expired_messages-Removes,
  purge_dead_letter_messages-Removes,
}
use retsu.Postgres.Configuration.{
  queue_row, updated, row_details, create_queue-new_queue, create_queue-queue_details,
  update_queue-queue_details,
}
use retsu.Postgres.Persistence.{HasQueue, history-HasQueue}
use retsu.Postgres.Queues.{queue_name, create_queue, queue_details, update_queue, replace_queue}
use retsu.Domain.Queue.{
  Queue, QueueConfigurationUpdate, new_queue, new_update, new_settings, parse_name, details,
}
use retsu.Postgres.Invariant.{names}
use retsu.Base.{
  has_name, if◌then◌else◌, ℕ, ◌+◌, ◌*◌, ◌<◌, ◌≡◌, ◌≢◌, refl, Bool, true, false, Option, none, some,
  List, [], ◌∷◌, ◌++◌, Text, bytes, same, from_utf8, is_utf8, ok, order_by, insert_row, Memᴰ, Perm,
  arith, All, contains,
}
use retsu.Domain.Message.{Uuid, high, low, rank, from_rank}
use retsu.Domain.Queue.Names.{matches_format}
use retsu.Repository.{
  created, already_exists, Delivery, dequeued, empty, acknowledged, unchanged, QueueExpirySummary,
  QueuePurgeSummary, processed, purged,
}
use retsu.Postgres.Tables.{
  second, QueueRow, MessageRow, ready, in_flight, DeadLetterRow, Database, Session, no_fault,
  find_queue, queue_checks, message_checks, dead_letter_checks, message_ids, dead_letter_ids,
}
use retsu.Postgres.Messages.{acknowledge_message, enqueue_message}
use retsu.Postgres.Dequeue.{
  dequeue_message, dequeue_statement, dequeue_from, dequeue_outcome, dead_letter_candidates,
  delivery_candidate, store_dead_letters,
}
use retsu.Postgres.Cleanup.{
  delete_expired, expired_ids, add_to_group, group_by_name, process_expired_messages,
  purge_dead_letter_messages,
}
use retsu.Postgres.Calls.{
  Call, reads_name, expires, dequeues, creates, enqueues, after, history, no_rows,
}
use retsu.Postgres.Invariant.{IsWellFormed}

abbrev pub jobs : QueueRow
jobs = record {
  id = 1;
  name = bytes "jobs";
  visibility_timeout_seconds = 30;
  max_delivery_attempts = 2;
  default_message_ttl_seconds = 3_600;
  created_at = 0;
  updated_at = 0;
}

-- A message that waits, by identifier, order and priority.
abbrev pub waiting : Uuid → ℕ → ℕ → MessageRow
waiting id order priority = record {
  id = id;
  queue_id = 1;
  enqueue_order = order;
  payload = bytes "work";
  priority = priority;
  state = ready;
  enqueued_at = 0;
  expires_at = 3_600 * second;
  delivery_attempts = 0;
  receipt_handle = none;
  available_after = 0;
  last_delivered_at = none;
}

-- A message that was delivered twice and not acknowledged.
abbrev pub exhausted : MessageRow
exhausted = record {
  id = 10;
  queue_id = 1;
  enqueue_order = 1;
  payload = bytes "poison";
  priority = 3;
  state = in_flight;
  enqueued_at = 0;
  expires_at = 3_600 * second;
  delivery_attempts = 2;
  receipt_handle = some 90;
  available_after = 40 * second;
  last_delivered_at = some (10 * second);
}

-- A message that no one took before its expiry.
abbrev pub forgotten : MessageRow
forgotten = record (waiting 13 4 2) { expires_at = 5 * second }

abbrev pub old_letter : DeadLetterRow
old_letter = record {
  id = 20;
  queue_id = 1;
  payload = bytes "old";
  priority = 1;
  enqueued_at = 0;
  expires_at = 50 * second;
  delivery_attempts = 2;
  last_delivered_at = 10 * second;
  dead_lettered_at = 41 * second;
}

abbrev pub tables : Database
tables = record {
  queues = jobs ∷ [];
  messages = exhausted ∷ waiting 11 2 1 ∷ waiting 12 3 3 ∷ forgotten ∷ [];
  dead_letters = old_letter ∷ [];
  next_order = 5;
}

abbrev pub at : ℕ → Session
at seconds = record {
  now = seconds * second;
  is_locked = λ id. false;
  name_before = λ a b. false;
  fault = no_fault;
}

pub tables-IsWellFormed : IsWellFormed tables
unfolding queue_checks message_checks dead_letter_checks matches_format
tables-IsWellFormed = record {
  queues = record { checked = (refl, tt); ids = (refl, tt); names_differ = (refl, tt) };
  messages = record {
    rows = (
      (refl, refl, omega arith),
      ((refl, refl, omega arith), ((refl, refl, omega arith), ((refl, refl, omega arith), tt))),
    );
    ids = (refl, (refl, (refl, (refl, tt))));
    order = (refl, (refl, (refl, (refl, tt))));
  };
  dead_letters = record { rows = ((refl, refl), tt); ids = (refl, tt) };
}

abbrev pub delivery : Delivery
delivery = record {
  id = 12;
  payload = bytes "work";
  priority = high;
  receipt_handle = 99;
  delivery_attempts = 1;
  queue_name = bytes "jobs";
  dead_lettered = 1;
}

abbrev pub tables_after : Database
tables_after = (dequeue_message (at 100) 1 99 tables).1

pub delivered : dequeue_message (at 100) 1 99 tables ≡ (ok (dequeued delivery), tables_after)
unfolding dequeue_message dequeue_statement dequeue_from dequeue_outcome dead_letter_candidates
    delivery_candidate store_dead_letters order_by insert_row from_rank from_utf8 is_utf8
    message_checks dead_letter_checks Option.bind
delivered = refl

tables_after_tests :
    (message_ids tables_after.messages ≡ 11 ∷ 12 ∷ 13 ∷ [])
    × (dead_letter_ids tables_after.dead_letters ≡ 20 ∷ 10 ∷ [])
unfolding dequeue_message dequeue_statement dequeue_from dequeue_outcome dead_letter_candidates
    delivery_candidate store_dead_letters order_by insert_row from_rank from_utf8 is_utf8
    message_checks dead_letter_checks Option.bind
tables_after_tests = (refl, refl)

-- Other calls, and the delivery of the next message.
abbrev pub calls : List (Session × Call)
calls = (at 101, reads_name 1) ∷ (at 102, expires 10) ∷ []
