-- ===== src/Application/DequeueMessage.antt =====
-- src/modules/queue/application/dequeue_message.rs
use retsu.Base.{ℕ, Option, none, some, Text, Result, ok, err, Action, lift, failing_as, ◌>>=◌}
use retsu.Domain.Message.{Uuid, MessagePriority}
use retsu.Repository.{
  Error, DequeueMessageOutcome, dequeued, empty, queue_not_found, QueueRepository,
}

pub record DequeuedMessage : Type 0 where
  pub id : Uuid
  pub payload : Text
  pub priority : MessagePriority
  pub receipt_handle : Uuid
  pub delivery_attempts : ℕ

pub record DequeueMessageResult : Type 0 where
  pub message : Option DequeuedMessage
  pub queue_name : Text
  pub dead_lettered : ℕ

pub data DequeueMessageError : Type 0 where
  no_such_queue : DequeueMessageError
  persistence : Error → DequeueMessageError

-- The match on the repository's outcome.
abbrev pub result : DequeueMessageOutcome → Result DequeueMessageError DequeueMessageResult
result (dequeued d) = ok (record {
  message = some (record {
    id = d.id;
    payload = d.payload;
    priority = d.priority;
    receipt_handle = d.receipt_handle;
    delivery_attempts = d.delivery_attempts;
  });
  queue_name = d.queue_name;
  dead_lettered = d.dead_lettered;
})
result (empty name count) = ok (record { message = none; queue_name = name; dead_lettered = count })
result queue_not_found = err no_such_queue

-- With the receipt handle that it draws.
unfoldable pub execute :
    {S : Type 0}
    → QueueRepository S
    → (receipt_handle : Uuid) → (queue_id : Uuid)
    → Action S DequeueMessageError DequeueMessageResult
execute repository receipt_handle queue_id = do
  outcome ← failing_as persistence (repository.dequeue_message queue_id receipt_handle)
  lift (result outcome)
