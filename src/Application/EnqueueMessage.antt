-- ===== src/Application/EnqueueMessage.antt =====
-- src/modules/queue/application/enqueue_message.rs
use retsu.Base.{ℕ, Option, Text, ok, Action, map_err, ok_or, unwrap_or, lift, failing_as, ◌>>=◌}
use retsu.Domain.Message.{Uuid, MessagePriority, MessageValidationError, new_message}
use retsu.Repository.{Error, QueueRepository}

pub record EnqueueMessageCommand : Type 0 where
  pub queue_id : Uuid
  pub payload : Text
  pub priority : Text
  pub ttl_seconds : Option ℕ

pub record EnqueuedMessage : Type 0 where
  pub id : Uuid
  pub queue_name : Text
  pub priority : MessagePriority

pub data EnqueueMessageError : Type 0 where
  message_refused : MessageValidationError → EnqueueMessageError
  no_such_queue : EnqueueMessageError
  persistence : Error → EnqueueMessageError

-- With the identifier that `Message::new` draws.
unfoldable pub execute :
    {S : Type 0}
    → QueueRepository S
    → Uuid
    → EnqueueMessageCommand
    → Action S EnqueueMessageError EnqueuedMessage
execute repository id command = do
  message ← lift (
      map_err message_refused (new_message id command.payload command.priority command.ttl_seconds))
  found ← failing_as persistence (repository.queue_details command.queue_id)
  queue ← lift (ok_or found no_such_queue)
  _ ← failing_as persistence (
      repository.enqueue_message command.queue_id message
        (unwrap_or message.ttl_seconds queue.default_message_ttl_seconds))
  lift (ok (record { id = message.id; queue_name = queue.name; priority = message.priority }))
