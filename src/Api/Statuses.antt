-- ===== src/Api/Statuses.antt =====
-- The statuses of the responses, and that what failed inside is not shown.
use retsu.Base.{arith, ℕ, ◌≡◌, refl, Option, none, some, Text, bytes, Result, ok, err, panicked}
use retsu.Domain.Message.{Uuid, invalid_priority, invalid_ttl}
use retsu.Domain.Queue.{
  invalid_visibility_timeout, invalid_max_delivery_attempts, invalid_default_message_ttl,
}
use retsu.Repository.{
  Error, DequeueMessageOutcome, dequeued, empty, queue_not_found, QueueRepository,
}
use retsu.Application.CreateQueue.{CreateQueueError}
use retsu.Application.UpdateQueue.{UpdateQueueError}
use retsu.Application.EnqueueMessage.{EnqueueMessageError}
use retsu.Application.DequeueMessage.{DequeueMessageError}
use retsu.Application.AcknowledgeMessage.{AcknowledgeMessageError}
use retsu.Application.CreateQueue
use retsu.Application.UpdateQueue
use retsu.Application.EnqueueMessage
use retsu.Application.DequeueMessage
use retsu.Application.AcknowledgeMessage
use retsu.Api.Module.{Log}
use retsu.Api.Module
use retsu.Api.Errors.{ApiError, ErrorResponse, error_response}
use retsu.Api.Handlers.{
  HttpResponse, status_of, map_create_queue_error, map_update_queue_error,
  map_enqueue_message_error, map_dequeue_message_error, map_acknowledge_message_error,
  dequeue_message,
}

module _ (canonical_reason : ℕ → Option Text) where
  -- The one response to everything that failed inside.
  abbrev pub internal_response : ErrorResponse
  internal_response = error_response canonical_reason (record {
    status = 500;
    code = bytes "internal_error";
    detail = bytes "an unexpected error occurred";
    source = none;
  })

  -- An error of the storage gives the one response, and no other error gives a status of 500.
  abbrev pub Hides : {E : Type 0} → (E → ApiError) → (Error → E) → E → Type 0
  Hides {E} map_error persistence e =
      ((x : Error)
        → e ≡ persistence x
        → error_response canonical_reason (map_error e) ≡ internal_response)
      × ((error_response canonical_reason (map_error e)).status ≡ 500
          → (x : Error) × (e ≡ persistence x))

  create-Hides : (e : CreateQueueError) → Hides map_create_queue_error CreateQueue.persistence e
  unfolding error_response
  create-Hides (CreateQueue.name_refused e) = (λ x h. absurd (cc), λ h. absurd (omega arith))
  create-Hides (CreateQueue.settings_refused invalid_visibility_timeout) =
      (λ x h. absurd (cc), λ h. absurd (omega arith))
  create-Hides (CreateQueue.settings_refused invalid_max_delivery_attempts) =
      (λ x h. absurd (cc), λ h. absurd (omega arith))
  create-Hides (CreateQueue.settings_refused invalid_default_message_ttl) =
      (λ x h. absurd (cc), λ h. absurd (omega arith))
  create-Hides CreateQueue.queue_exists = (λ x h. absurd (cc), λ h. absurd (omega arith))
  create-Hides (CreateQueue.persistence e) = (λ x h. refl, λ h. (e, refl))

  update-Hides : (e : UpdateQueueError) → Hides map_update_queue_error UpdateQueue.persistence e
  unfolding error_response
  update-Hides UpdateQueue.no_configuration_changes =
      (λ x h. absurd (cc), λ h. absurd (omega arith))
  update-Hides (UpdateQueue.settings_refused invalid_visibility_timeout) =
      (λ x h. absurd (cc), λ h. absurd (omega arith))
  update-Hides (UpdateQueue.settings_refused invalid_max_delivery_attempts) =
      (λ x h. absurd (cc), λ h. absurd (omega arith))
  update-Hides (UpdateQueue.settings_refused invalid_default_message_ttl) =
      (λ x h. absurd (cc), λ h. absurd (omega arith))
  update-Hides UpdateQueue.no_such_queue = (λ x h. absurd (cc), λ h. absurd (omega arith))
  update-Hides (UpdateQueue.persistence e) = (λ x h. refl, λ h. (e, refl))

  enqueue-Hides :
      (e : EnqueueMessageError) → Hides map_enqueue_message_error EnqueueMessage.persistence e
  unfolding error_response
  enqueue-Hides (EnqueueMessage.message_refused invalid_priority) =
      (λ x h. absurd (cc), λ h. absurd (omega arith))
  enqueue-Hides (EnqueueMessage.message_refused invalid_ttl) =
      (λ x h. absurd (cc), λ h. absurd (omega arith))
  enqueue-Hides EnqueueMessage.no_such_queue = (λ x h. absurd (cc), λ h. absurd (omega arith))
  enqueue-Hides (EnqueueMessage.persistence e) = (λ x h. refl, λ h. (e, refl))

  dequeue-Hides :
      (e : DequeueMessageError) → Hides map_dequeue_message_error DequeueMessage.persistence e
  unfolding error_response
  dequeue-Hides DequeueMessage.no_such_queue = (λ x h. absurd (cc), λ h. absurd (omega arith))
  dequeue-Hides (DequeueMessage.persistence e) = (λ x h. refl, λ h. (e, refl))

  acknowledge-Hides :
      (e : AcknowledgeMessageError)
      → Hides map_acknowledge_message_error AcknowledgeMessage.persistence e
  unfolding error_response
  acknowledge-Hides AcknowledgeMessage.no_such_queue =
      (λ x h. absurd (cc), λ h. absurd (omega arith))
  acknowledge-Hides (AcknowledgeMessage.persistence e) = (λ x h. refl, λ h. (e, refl))

  -- For each of the five use cases, every error of the storage gives one and the same response,
  -- with status 500, and no other error gives a response with status 500.
  pub errors-Hides :
      ((e : CreateQueueError) → Hides map_create_queue_error CreateQueue.persistence e)
      × ((e : UpdateQueueError) → Hides map_update_queue_error UpdateQueue.persistence e)
      × ((e : EnqueueMessageError) → Hides map_enqueue_message_error EnqueueMessage.persistence e)
      × ((e : DequeueMessageError) → Hides map_dequeue_message_error DequeueMessage.persistence e)
      × ((e : AcknowledgeMessageError)
          → Hides map_acknowledge_message_error AcknowledgeMessage.persistence e)
  errors-Hides = (create-Hides, update-Hides, enqueue-Hides, dequeue-Hides, acknowledge-Hides)

-- The status that the client sees; none when the task panicked.
abbrev pub answered : Result ApiError HttpResponse → Option ℕ
answered (ok response) = some (status_of response)
answered (err e) = some e.status
answered panicked = none

-- The statuses of the documentation, by the outcome of the storage.
abbrev pub documented : Result Error DequeueMessageOutcome → Option ℕ
documented (ok (dequeued delivery)) = some 200
documented (ok (empty queue_name dead_lettered)) = some 204
documented (ok queue_not_found) = some 404
documented (err e) = some 500
documented panicked = none

module _ {S : Type 0} (repository : QueueRepository S) where
  by_outcome :
      (receipt_handle queue_id : Uuid) (s : S) (log : Log) (o : Result Error DequeueMessageOutcome)
      → (repository.dequeue_message queue_id receipt_handle s).0 ≡ o
      → answered (dequeue_message repository receipt_handle queue_id (s, log)).0 ≡ documented o
  unfolding dequeue_message Module.dequeue_message DequeueMessage.execute
  by_outcome receipt_handle queue_id s log (ok (dequeued delivery)) e = rw e refl
  by_outcome receipt_handle queue_id s log (ok (empty queue_name dead_lettered)) e = rw e refl
  by_outcome receipt_handle queue_id s log (ok queue_not_found) e = rw e refl
  by_outcome receipt_handle queue_id s log (err x) e = rw e refl
  by_outcome receipt_handle queue_id s log panicked e = rw e refl

  -- A dequeue request is answered 200 when the storage delivered a message, 204 when the queue had
  -- none, 404 when there is no such queue, and 500 when the storage failed.
  pub dequeue_message-documented :
      (receipt_handle queue_id : Uuid) (s : S) (log : Log)
      → answered (dequeue_message repository receipt_handle queue_id (s, log)).0
        ≡ documented (repository.dequeue_message queue_id receipt_handle s).0
  dequeue_message-documented receipt_handle queue_id s log =
      by_outcome receipt_handle queue_id s log
        (repository.dequeue_message queue_id receipt_handle s).0 refl
