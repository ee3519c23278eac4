-- ===== src/Postgres/Tests/Upkeep.antt =====
-- The theorems about acknowledgements, maintenance and configuration at work on concrete tables
-- (src/modules/queue/infrastructure/postgres.rs).

use mathlib.Core.Option
use retsu.Postgres.Acknowledgement.{IsReceipt, acknowledge_message-unchanged}
use retsu.Postgres.Maintenance.{
  Removes, IsExpired, IsRetained, process_expired_messages-Removes,
  purge_dead_letter_messages-Removes,
}
use retsu.Postgres.Configuration.{
  queue_row, updated, row_details, create_queue-new_queue, create_queue-queue_details,
  update_queue-queue_details,
}
use retsu.Postgres.Queues.{create_queue, queue_details, update_queue, replace_queue}
use retsu.Domain.Queue.{
  Queue, QueueConfigurationUpdate, new_queue, new_update, new_settings, parse_name, details,
}
use retsu.Postgres.Invariant.{names}
use retsu.Base.{
  has_name, if◌then◌else◌, ◌*◌, ◌≡◌, refl, none, some, List, [], ◌∷◌, ◌++◌, bytes, same, from_utf8,
  is_utf8, ok, order_by, insert_row, arith, All,
}
use retsu.Domain.Message.{from_rank}
use retsu.Repository.{
  created, already_exists, empty, unchanged, QueueExpirySummary, QueuePurgeSummary, processed,
  purged,
}
use retsu.Postgres.Tables.{
  second, MessageRow, DeadLetterRow, Database, message_checks, dead_letter_checks,
}
use retsu.Postgres.Messages.{acknowledge_message}
use retsu.Postgres.Dequeue.{
  dequeue_message, dequeue_statement, dequeue_from, dequeue_outcome, dead_letter_candidates,
  delivery_candidate, store_dead_letters,
}
use retsu.Postgres.Cleanup.{process_expired_messages, purge_dead_letter_messages}
use retsu.Postgres.Tests.{jobs, tables, at, tables-IsWellFormed}

-- No message of these tables has the receipt.
none-IsReceipt : All (λ m. ¬ IsReceipt (40 * second) 1 10 90 m) tables.messages
none-IsReceipt =
    (λ r. ground arith, (λ r. ground arith, (λ r. ground arith, (λ r. ground arith, tt))))

acknowledge_message-unchanged_example :
    acknowledge_message (at 40) 1 10 90 tables ≡ (ok unchanged, tables)
acknowledge_message-unchanged_example =
    acknowledge_message-unchanged (at 40) 1 10 90 tables refl none-IsReceipt

process_expired_messages-Removes_example :
    (summaries : List QueueExpirySummary) × (left : List MessageRow) × (process_expired_messages
        (at 100)
        10
        tables
      ≡ (ok summaries, record tables { messages = left }))
    × Removes (IsExpired (100 * second)) tables.messages left (processed summaries) 10
process_expired_messages-Removes_example =
    process_expired_messages-Removes (at 100) 10 tables tables-IsWellFormed refl

purge_dead_letter_messages-Removes_example :
    (summaries : List QueuePurgeSummary) × (left : List DeadLetterRow) × (purge_dead_letter_messages
        (at 100)
        30
        10
        tables
      ≡ (ok summaries, record tables { dead_letters = left }))
    × Removes (IsRetained (100 * second) 30) tables.dead_letters left (purged summaries) 10
purge_dead_letter_messages-Removes_example =
    purge_dead_letter_messages-Removes (at 100) 30 10 tables tables-IsWellFormed refl

-- In a queue without messages there is nothing to deliver.
abbrev quiet_tables : Database
quiet_tables = record { queues = jobs ∷ []; messages = []; dead_letters = []; next_order = 1 }

idled : dequeue_message (at 100) 1 99 quiet_tables ≡ (ok (empty (bytes "jobs") 0), quiet_tables)
unfolding dequeue_message dequeue_statement dequeue_from dequeue_outcome dead_letter_candidates
    delivery_candidate store_dead_letters order_by insert_row from_rank from_utf8 is_utf8
    message_checks dead_letter_checks Option.bind
idled = refl

abbrev mail : Queue
mail = record {
  id = 2;
  name = bytes "mail";
  settings = record {
    visibility_timeout_seconds = 60;
    max_delivery_attempts = 5;
    default_message_ttl_seconds = 604_800;
  };
}

mail_valid : new_queue 2 (bytes "mail") (some 60) none none ≡ ok mail
unfolding new_queue parse_name new_settings
mail_valid = refl

create_queue-new_queue_example : create_queue (at 100) mail tables ≡ (
    if has_name (names tables.queues) mail.name then (ok already_exists, tables) else (
      ok created,
      record tables { queues = tables.queues ++ queue_row (100 * second) mail ∷ [] },
    ))
create_queue-new_queue_example =
    create_queue-new_queue (at 100) 2 (bytes "mail") (some 60) none none mail tables mail_valid refl
      refl

create_queue-queue_details_example :
    queue_details (at 101) 2 (create_queue (at 100) mail tables).1
    ≡ (ok (some (details mail)), (create_queue (at 100) mail tables).1)
unfolding same
create_queue-queue_details_example =
    create_queue-queue_details (at 100) (at 101) 2 (bytes "mail") (some 60) none none mail tables
      mail_valid refl refl refl refl

abbrev longer : QueueConfigurationUpdate
longer = record {
  visibility_timeout_seconds = some 90;
  max_delivery_attempts = none;
  default_message_ttl_seconds = none;
}

abbrev longer_tables : Database
longer_tables = record tables {
  queues = replace_queue (updated (100 * second) longer jobs) tables.queues;
}

longer_valid : new_update (some 90) none none ≡ ok longer
unfolding new_update
longer_valid = refl

update_queue-queue_details_example :
    (update_queue (at 100) 1 longer tables
      ≡ (ok (some (row_details (updated (100 * second) longer jobs))), longer_tables))
    × (queue_details (at 101) 1 longer_tables
        ≡ (ok (some (row_details (updated (100 * second) longer jobs))), longer_tables))
update_queue-queue_details_example =
    update_queue-queue_details (at 100) (at 101) 1 (some 90) none none longer tables jobs
      tables-IsWellFormed longer_valid refl refl refl (omega arith)
