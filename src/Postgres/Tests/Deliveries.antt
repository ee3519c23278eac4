-- ===== src/Postgres/Tests/Deliveries.antt =====
-- The theorems about deliveries at work on concrete tables
-- (src/modules/queue/infrastructure/postgres.rs).

use mathlib.Core.Option
use retsu.Postgres.Servable.{IsServable}
use retsu.Postgres.Progress.{dequeue_message-answers}
use retsu.Postgres.Leases.Histories.{dequeue_message-exclusive}
use retsu.Postgres.Dequeue.Order.{IsAvailable, Precedes, dequeue_message-order}
use retsu.Postgres.Invariant.Steps.{history-IsWellFormed}
use retsu.Postgres.DeadLetters.{Moves, dequeue_message-dead_letters, dequeue_message-conserves}
use retsu.Postgres.Receipts.{dequeue_message-acknowledge_message, dequeue_message-stale}
use retsu.Postgres.Acknowledgement.{without}
use retsu.Postgres.Queues.{queue_name}
use retsu.Base.{
  is_utf8, ◌↔◌, ◌*◌, none, ◌+◌, ◌≡◌, ◌≢◌, refl, some, ◌++◌, bytes, from_utf8, is_utf8, ok, order_by,
  insert_row, Memᴰ, Perm, arith, All,
}
use retsu.Domain.Message.{low, rank, from_rank}
use retsu.Repository.{
  DequeueMessageOutcome, queue_not_found, Delivery, dequeued, acknowledged, unchanged,
}
use retsu.Postgres.Tables.{
  second, QueueRow, MessageRow, Database, find_queue, message_checks, dead_letter_checks,
  message_ids, dead_letter_ids,
}
use retsu.Postgres.Messages.{acknowledge_message}
use retsu.Postgres.Dequeue.{
  dequeue_message, dequeue_statement, dequeue_from, dequeue_outcome, dead_letter_candidates,
  delivery_candidate, store_dead_letters,
}
use retsu.Postgres.Cleanup.{
  delete_expired, expired_ids, add_to_group, group_by_name, process_expired_messages,
}
use retsu.Postgres.Calls.{after, history, no_rows}
use retsu.Postgres.Invariant.{IsWellFormed}
use retsu.Postgres.Tests.{
  jobs, tables, at, tables-IsWellFormed, delivery, tables_after, delivered, calls,
}

abbrev second_delivery : Delivery
second_delivery = record {
  id = 11;
  payload = bytes "work";
  priority = low;
  receipt_handle = 98;
  delivery_attempts = 1;
  queue_name = bytes "jobs";
  dead_lettered = 0;
}

abbrev tables_end : Database
tables_end = (dequeue_message (at 103) 1 98 (history calls tables_after)).1

delivered_again :
    dequeue_message (at 103) 1 98 (history calls tables_after)
    ≡ (ok (dequeued second_delivery), tables_end)
unfolding history after queue_name process_expired_messages delete_expired expired_ids group_by_name
    add_to_group dequeue_message dequeue_statement dequeue_from dequeue_outcome
    dead_letter_candidates delivery_candidate store_dead_letters order_by insert_row from_rank
    from_utf8 is_utf8 message_checks dead_letter_checks Option.bind
delivered_again = refl

dequeue_message-exclusive_example : second_delivery.id ≢ delivery.id
dequeue_message-exclusive_example =
    dequeue_message-exclusive (at 100) (at 103) 1 1 99 98 jobs tables tables_after tables_end
      delivery second_delivery calls refl delivered (omega arith, (omega arith, tt)) (omega arith)
      delivered_again

dequeue_message-order_example :
    (q : QueueRow) × (m : MessageRow) × (find_queue 1 tables.queues ≡ some q)
    × Memᴰ m tables.messages
    × IsAvailable (at 100) q m
    × All (λ x. IsAvailable (at 100) q x → Precedes m x) tables.messages
    × (delivery.id ≡ m.id)
    × (delivery.payload ≡ m.payload)
    × (rank delivery.priority ≡ m.priority)
    × (delivery.delivery_attempts ≡ m.delivery_attempts + 1)
    × (delivery.receipt_handle ≡ 99)
dequeue_message-order_example =
    dequeue_message-order (at 100) 1 99 tables tables_after delivery delivered

history-IsWellFormed_example : IsWellFormed (history calls no_rows)
history-IsWellFormed_example = history-IsWellFormed calls

dequeue_message-conserves_example :
    Perm
      (message_ids tables_after.messages ++ dead_letter_ids tables_after.dead_letters)
      (message_ids tables.messages ++ dead_letter_ids tables.dead_letters)
dequeue_message-conserves_example =
    dequeue_message-conserves (at 100) 1 99 tables tables_after (dequeued delivery)
      tables-IsWellFormed delivered

dequeue_message-dead_letters_example :
    (q : QueueRow) × (find_queue 1 tables.queues ≡ some q) × Moves (at 100) q tables tables_after 1
dequeue_message-dead_letters_example =
    dequeue_message-dead_letters (at 100) 1 99 tables tables_after (dequeued delivery) 1
      tables-IsWellFormed delivered refl

dequeue_message-acknowledge_message_example :
    acknowledge_message (at 129) 1 12 99 tables_after ≡ (ok acknowledged, without 12 tables_after)
dequeue_message-acknowledge_message_example =
    dequeue_message-acknowledge_message (at 100) (at 129) 1 99 jobs tables tables_after delivery
      tables-IsWellFormed refl delivered refl (omega arith)

dequeue_message-stale_example :
    acknowledge_message (at 129) 1 12 98 tables_after ≡ (ok unchanged, tables_after)
dequeue_message-stale_example =
    dequeue_message-stale (at 100) (at 129) 1 1 99 98 tables tables_after delivery delivered refl
      (ground arith)

tables-IsServable :
    All (IsServable (100 * second) (dead_letter_ids tables.dead_letters)) tables.messages
unfolding is_utf8
tables-IsServable = (
  record { text = refl; enqueued = omega arith; delivered = omega arith; apart = refl },
  (
    record { text = refl; enqueued = omega arith; delivered = tt; apart = refl },
    (
      record { text = refl; enqueued = omega arith; delivered = tt; apart = refl },
      (record { text = refl; enqueued = omega arith; delivered = tt; apart = refl }, tt),
    ),
  ),
)

dequeue_message-answers_example :
    (r : DequeueMessageOutcome) × (db' : Database) × (dequeue_message (at 100) 1 99 tables
      ≡ (ok r, db'))
    × ((r ≡ queue_not_found) ↔ (find_queue 1 tables.queues ≡ none))
dequeue_message-answers_example =
    dequeue_message-answers (at 100) 1 99 tables tables-IsWellFormed tables-IsServable refl
