-- ===== src/Api/Requests.antt =====
-- src/modules/queue/api/dto.rs: the requests and responses of the HTTP interface. JSON itself is the
-- `serde` crate's.
use retsu.Base.{ℕ, Option, Text}
use retsu.Domain.Message.{Uuid, as_str}
use retsu.Domain.Queue.{QueueDetails}
use retsu.Application.CreateQueue.{CreateQueueCommand}
use retsu.Application.UpdateQueue.{UpdateQueueCommand}
use retsu.Application.EnqueueMessage.{EnqueueMessageCommand, EnqueuedMessage}
use retsu.Application.DequeueMessage.{DequeuedMessage}
use retsu.Application.AcknowledgeMessage.{AcknowledgeMessageCommand}

pub record CreateQueueRequest : Type 0 where
  pub name : Text
  pub visibility_timeout_seconds : Option ℕ
  pub max_delivery_attempts : Option ℕ
  pub default_message_ttl_seconds : Option ℕ

abbrev pub create_command : CreateQueueRequest → CreateQueueCommand
create_command r = record {
  name = r.name;
  visibility_timeout_seconds = r.visibility_timeout_seconds;
  max_delivery_attempts = r.max_delivery_attempts;
  default_message_ttl_seconds = r.default_message_ttl_seconds;
}

pub record QueueResponse : Type 0 where
  pub id : Uuid
  pub name : Text
  pub visibility_timeout_seconds : ℕ
  pub max_delivery_attempts : ℕ
  pub default_message_ttl_seconds : ℕ

abbrev pub queue_response : QueueDetails → QueueResponse
queue_response queue = record {
  id = queue.id;
  name = queue.name;
  visibility_timeout_seconds = queue.visibility_timeout_seconds;
  max_delivery_attempts = queue.max_delivery_attempts;
  default_message_ttl_seconds = queue.default_message_ttl_seconds;
}

pub record UpdateQueueRequest : Type 0 where
  pub visibility_timeout_seconds : Option ℕ
  pub max_delivery_attempts : Option ℕ
  pub default_message_ttl_seconds : Option ℕ

abbrev pub update_command : Uuid → UpdateQueueRequest → UpdateQueueCommand
update_command queue_id r = record {
  queue_id = queue_id;
  visibility_timeout_seconds = r.visibility_timeout_seconds;
  max_delivery_attempts = r.max_delivery_attempts;
  default_message_ttl_seconds = r.default_message_ttl_seconds;
}

pub record EnqueueMessageRequest : Type 0 where
  pub payload : Text
  pub priority : Text
  pub ttl_seconds : Option ℕ

abbrev pub enqueue_command : Uuid → EnqueueMessageRequest → EnqueueMessageCommand
enqueue_command queue_id r = record {
  queue_id = queue_id;
  payload = r.payload;
  priority = r.priority;
  ttl_seconds = r.ttl_seconds;
}

pub record EnqueueMessageResponse : Type 0 where
  pub id : Uuid

abbrev pub enqueue_response : EnqueuedMessage → EnqueueMessageResponse
enqueue_response message = record { id = message.id }

pub record DequeueMessageResponse : Type 0 where
  pub id : Uuid
  pub payload : Text
  pub priority : Text
  pub receipt_handle : Uuid
  pub delivery_attempts : ℕ

abbrev pub dequeue_response : DequeuedMessage → DequeueMessageResponse
dequeue_response message = record {
  id = message.id;
  payload = message.payload;
  priority = as_str message.priority;
  receipt_handle = message.receipt_handle;
  delivery_attempts = message.delivery_attempts;
}

pub record MessagePath : Type 0 where
  pub queue_id : Uuid
  pub message_id : Uuid

pub record AcknowledgeMessageRequest : Type 0 where
  pub receipt_handle : Uuid

abbrev pub acknowledge_command : MessagePath → AcknowledgeMessageRequest → AcknowledgeMessageCommand
acknowledge_command path r = record {
  queue_id = path.queue_id;
  message_id = path.message_id;
  receipt_handle = r.receipt_handle;
}
