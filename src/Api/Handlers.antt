-- ===== src/Api/Handlers.antt =====
-- src/modules/queue/api/handlers.rs: the handlers of the five routes, and what they make of the errors
-- of the use cases. The extractors have read path and body before.
use retsu.Base.{ℕ, none, some, Option, Text, bytes, Action, ◌>>=◌, ok, failing_as, lift}
use retsu.Domain.Message.{Uuid, invalid_priority, invalid_ttl}
use retsu.Domain.Queue.{
  QueueNameError, invalid_length, invalid_format, QueueSettingsError, invalid_visibility_timeout,
  invalid_max_delivery_attempts, invalid_default_message_ttl,
}
use retsu.Repository.{QueueRepository}
use retsu.Application.CreateQueue.{CreateQueueError}
use retsu.Application.UpdateQueue.{UpdateQueueError}
use retsu.Application.EnqueueMessage.{EnqueueMessageError}
use retsu.Application.DequeueMessage.{DequeueMessageError, DequeuedMessage}
use retsu.Application.AcknowledgeMessage.{AcknowledgeMessageError}
use retsu.Application.CreateQueue
use retsu.Application.UpdateQueue
use retsu.Application.EnqueueMessage
use retsu.Application.DequeueMessage
use retsu.Application.AcknowledgeMessage
use retsu.Api.Module.{Counted}
use retsu.Api.Module
use retsu.Api.Errors.{ApiError, bad_request, conflict, internal, resource_not_found, storage}
use retsu.Api.Requests.{
  CreateQueueRequest, create_command, QueueResponse, queue_response, UpdateQueueRequest,
  update_command, EnqueueMessageRequest, enqueue_command, EnqueueMessageResponse, enqueue_response,
  DequeueMessageResponse, dequeue_response, MessagePath, AcknowledgeMessageRequest,
  acknowledge_command,
}

pub data HttpResponse : Type 0 where
  created_queue : QueueResponse → HttpResponse
  updated_queue : QueueResponse → HttpResponse
  created_message : EnqueueMessageResponse → HttpResponse
  delivered_message : DequeueMessageResponse → HttpResponse
  no_content : HttpResponse

-- The codes of `Created`, `Ok` and `NoContent`.
abbrev pub status_of : HttpResponse → ℕ
status_of (created_queue body) = 201
status_of (updated_queue body) = 200
status_of (created_message body) = 201
status_of (delivered_message body) = 200
status_of no_content = 204

-- `to_string` of the errors of the domain
abbrev pub name_message : QueueNameError → Text
name_message invalid_length = bytes "queue name must contain between 1 and 64 ASCII characters"
name_message invalid_format =
    bytes
      "queue name must contain only ASCII lowercase letters, digits, dots, underscores, or hyphens, and must start and end with an ASCII lowercase letter or digit"

abbrev pub map_queue_settings_error : QueueSettingsError → ApiError
map_queue_settings_error invalid_visibility_timeout =
    bad_request (bytes "invalid_visibility_timeout")
      (bytes "visibility timeout must be between 1 and 21600 seconds")
map_queue_settings_error invalid_max_delivery_attempts =
    bad_request (bytes "invalid_max_delivery_attempts")
      (bytes "max delivery attempts must be between 1 and 100")
map_queue_settings_error invalid_default_message_ttl =
    bad_request (bytes "invalid_default_message_ttl")
      (bytes "default message TTL must be between 1 and 2592000 seconds")

abbrev pub no_queue : ApiError
no_queue = resource_not_found (bytes "queue_not_found") (bytes "the requested queue does not exist")

abbrev pub map_create_queue_error : CreateQueueError → ApiError
map_create_queue_error (CreateQueue.name_refused e) =
    bad_request (bytes "invalid_queue_name") (name_message e)
map_create_queue_error (CreateQueue.settings_refused e) = map_queue_settings_error e
map_create_queue_error CreateQueue.queue_exists =
    conflict (bytes "queue_already_exists") (bytes "a queue with this name already exists")
map_create_queue_error (CreateQueue.persistence e) = internal (storage e)

abbrev pub map_update_queue_error : UpdateQueueError → ApiError
map_update_queue_error UpdateQueue.no_configuration_changes =
    bad_request (bytes "empty_queue_update")
      (bytes "at least one queue configuration field must be provided")
map_update_queue_error (UpdateQueue.settings_refused e) = map_queue_settings_error e
map_update_queue_error UpdateQueue.no_such_queue = no_queue
map_update_queue_error (UpdateQueue.persistence e) = internal (storage e)

abbrev pub map_enqueue_message_error : EnqueueMessageError → ApiError
map_enqueue_message_error (EnqueueMessage.message_refused invalid_priority) =
    bad_request (bytes "invalid_priority") (bytes "priority must be one of HIGH, MEDIUM or LOW")
map_enqueue_message_error (EnqueueMessage.message_refused invalid_ttl) =
    bad_request (bytes "invalid_ttl")
      (bytes "ttl_seconds must be between 1 and 2592000 when provided")
map_enqueue_message_error EnqueueMessage.no_such_queue = no_queue
map_enqueue_message_error (EnqueueMessage.persistence e) = internal (storage e)

abbrev pub map_dequeue_message_error : DequeueMessageError → ApiError
map_dequeue_message_error DequeueMessage.no_such_queue = no_queue
map_dequeue_message_error (DequeueMessage.persistence e) = internal (storage e)

abbrev pub map_acknowledge_message_error : AcknowledgeMessageError → ApiError
map_acknowledge_message_error AcknowledgeMessage.no_such_queue = no_queue
map_acknowledge_message_error (AcknowledgeMessage.persistence e) = internal (storage e)

-- 200 with the message, or 204.
abbrev pub delivery_response : Option DequeuedMessage → HttpResponse
delivery_response (some message) = delivered_message (dequeue_response message)
delivery_response none = no_content

module _ {S : Type 0} (repository : QueueRepository S) where
  -- With the identifiers that the use cases draw.
  unfoldable pub create_queue : Uuid → CreateQueueRequest → Action (Counted S) ApiError HttpResponse
  create_queue id request = do
    queue ←
        failing_as map_create_queue_error
          (Module.create_queue repository id (create_command request))
    lift (ok (created_queue (queue_response queue)))

  unfoldable pub update_queue :
      (queue_id : Uuid) → UpdateQueueRequest → Action (Counted S) ApiError HttpResponse
  update_queue queue_id request = do
    queue ←
        failing_as map_update_queue_error
          (Module.update_queue repository (update_command queue_id request))
    lift (ok (updated_queue (queue_response queue)))

  unfoldable pub enqueue_message :
      Uuid → (queue_id : Uuid) → EnqueueMessageRequest → Action (Counted S) ApiError HttpResponse
  enqueue_message id queue_id request = do
    message ←
        failing_as map_enqueue_message_error
          (Module.enqueue_message repository id (enqueue_command queue_id request))
    lift (ok (created_message (enqueue_response message)))

  unfoldable pub dequeue_message :
      (receipt_handle : Uuid) → (queue_id : Uuid) → Action (Counted S) ApiError HttpResponse
  dequeue_message receipt_handle queue_id = do
    message ←
        failing_as map_dequeue_message_error
          (Module.dequeue_message repository receipt_handle queue_id)
    lift (ok (delivery_response message))

  unfoldable pub acknowledge_message :
      MessagePath → AcknowledgeMessageRequest → Action (Counted S) ApiError HttpResponse
  acknowledge_message path request = do
    _ ←
        failing_as map_acknowledge_message_error
          (Module.acknowledge_message repository (acknowledge_command path request))
    lift (ok no_content)
