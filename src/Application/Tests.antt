-- ===== src/Application/Tests.antt =====
-- A request to enqueue at work on concrete tables (src/modules/queue/application).
use retsu.Base.{◌*◌, ◌≡◌, refl, none, [], ◌∷◌, ◌++◌, bytes, same, ok}
use retsu.Domain.Message.{high, Message, new_message}
use retsu.Postgres.Tables.{Database, second}
use retsu.Postgres.Messages.{new_row}
use retsu.Postgres.Calls.{history}
use retsu.Postgres.Tests.{jobs, tables, at, tables-IsWellFormed}
use retsu.Application.World.{World, postgres}
use retsu.Application.EnqueueMessage
use retsu.Application.Laws.{enqueue_message-enqueued}

-- A client alone on the tables.
abbrev alone : World
alone = record { database = tables; served = 0; session = λ n. at 100; others = λ n. [] }

abbrev request : EnqueueMessage.EnqueueMessageCommand
request = record {
  queue_id = 1;
  payload = bytes "hello";
  priority = bytes "HIGH";
  ttl_seconds = none;
}

abbrev hello : Message
hello = record { id = 30; payload = bytes "hello"; priority = high; ttl_seconds = none }

hello_valid : new_message 30 (bytes "hello") (bytes "HIGH") none ≡ ok hello
unfolding new_message same
hello_valid = refl

abbrev enqueued : Database
enqueued = record tables {
  messages = tables.messages ++ new_row (100 * second) 5 1 hello 3_600 ∷ [];
  next_order = 6;
}

enqueue_message-enqueued_example : EnqueueMessage.execute postgres 30 request alone ≡ (
  ok (record { id = 30; queue_name = bytes "jobs"; priority = high }),
  record alone { database = enqueued; served = 2 },
)
unfolding history
enqueue_message-enqueued_example =
    enqueue_message-enqueued alone 30 request hello jobs tables-IsWellFormed hello_valid refl refl
      refl refl
