-- ===== src/Api/Tests.antt =====
-- Requests against a small repository, on which the theorems about the interface are applied.
use mathlib.Core.Option
use retsu.Api.RequestId.{ServiceResponse, request_id, valid_request_id, labelled, call}
use retsu.Api.Identified.{call-answers}
use retsu.Base.{
  true, and_then, Result, ℕ, ◌+◌, ◌≡◌, refl, Option, none, some, List, [], ◌∷◌, Text, bytes, ok,
  err,
}
use retsu.Repository.{
  Error, statement_failed, QueueRepository, QueueExpirySummary, QueuePurgeSummary, Delivery,
  dequeued, created, unchanged,
}
use retsu.Domain.Message.{high}
use retsu.Domain.Queue.{QueueDetails}
use retsu.Application.CreateQueue.{CreateQueueError}
use retsu.Application.UpdateQueue.{UpdateQueueError}
use retsu.Application.EnqueueMessage.{EnqueueMessageError}
use retsu.Application.DequeueMessage.{DequeueMessageError}
use retsu.Application.AcknowledgeMessage.{AcknowledgeMessageError}
use retsu.Application.CreateQueue
use retsu.Application.UpdateQueue
use retsu.Application.EnqueueMessage
use retsu.Application.DequeueMessage
use retsu.Application.AcknowledgeMessage
use retsu.Api.Requests.{
  MessagePath, CreateQueueRequest, UpdateQueueRequest, EnqueueMessageRequest,
  AcknowledgeMessageRequest,
}
use retsu.Api.Handlers.{
  dequeue_message, map_create_queue_error, map_update_queue_error, map_enqueue_message_error,
  map_dequeue_message_error, map_acknowledge_message_error,
}
use retsu.Api.Handlers
use retsu.Api.Counters.{KeepsCounters, handlers-KeepsCounters}
use retsu.Api.Statuses.{Hides, errors-Hides, answered, dequeue_message-documented}

abbrev jobs : QueueDetails
jobs = record {
  id = 7;
  name = bytes "jobs";
  visibility_timeout_seconds = 30;
  max_delivery_attempts = 5;
  default_message_ttl_seconds = 604_800;
}

abbrev delivery : Delivery
delivery = record {
  id = 1;
  payload = bytes "hello";
  priority = high;
  receipt_handle = 9;
  delivery_attempts = 1;
  queue_name = bytes "jobs";
  dead_lettered = 2;
}

abbrev expired : List QueueExpirySummary
expired = (record { queue_name = bytes "jobs"; never_delivered = 2; previously_delivered = 3 }) ∷ []

abbrev old : List QueuePurgeSummary
old = (record { queue_name = bytes "jobs"; purged = 4 }) ∷ []

-- Its state counts the calls; enqueueing fails.
abbrev repository : QueueRepository ℕ
repository = record {
  create_queue = λ queue n. (ok created, n + 1);
  queue_name = λ id n. (ok (some jobs.name), n + 1);
  queue_details = λ id n. (ok (some jobs), n + 1);
  update_queue = λ id configuration n. (ok (some jobs), n + 1);
  enqueue_message = λ id message ttl n. (err statement_failed, n + 1);
  dequeue_message = λ id handle n. (ok (dequeued delivery), n + 1);
  acknowledge_message = λ id message_id handle n. (ok unchanged, n + 1);
  process_expired_messages = λ batch_size n. (ok expired, n + 1);
  purge_dead_letter_messages = λ retention batch_size n. (ok old, n + 1);
}

abbrev path : MessagePath
path = record { queue_id = 7; message_id = 1 }

abbrev create : CreateQueueRequest
create = record {
  name = bytes "jobs";
  visibility_timeout_seconds = none;
  max_delivery_attempts = none;
  default_message_ttl_seconds = none;
}

abbrev update : UpdateQueueRequest
update = record {
  visibility_timeout_seconds = some 60;
  max_delivery_attempts = none;
  default_message_ttl_seconds = none;
}

abbrev enqueue : EnqueueMessageRequest
enqueue = record { payload = bytes "hello"; priority = bytes "HIGH"; ttl_seconds = none }

abbrev acknowledge : AcknowledgeMessageRequest
acknowledge = record { receipt_handle = 9 }

handlers-KeepsCounters_example :
    KeepsCounters (Handlers.create_queue repository 5 create)
    × KeepsCounters (Handlers.update_queue repository 7 update)
    × KeepsCounters (Handlers.enqueue_message repository 5 7 enqueue)
    × KeepsCounters (Handlers.dequeue_message repository 5 7)
    × KeepsCounters (Handlers.acknowledge_message repository path acknowledge)
handlers-KeepsCounters_example =
    handlers-KeepsCounters repository 5 7 path create update enqueue acknowledge

abbrev no_reasons : ℕ → Option Text
no_reasons status = none

errors-Hides_example :
    ((e : CreateQueueError) → Hides no_reasons map_create_queue_error CreateQueue.persistence e)
    × ((e : UpdateQueueError) → Hides no_reasons map_update_queue_error UpdateQueue.persistence e)
    × ((e : EnqueueMessageError)
        → Hides no_reasons map_enqueue_message_error EnqueueMessage.persistence e)
    × ((e : DequeueMessageError)
        → Hides no_reasons map_dequeue_message_error DequeueMessage.persistence e)
    × ((e : AcknowledgeMessageError)
        → Hides no_reasons map_acknowledge_message_error AcknowledgeMessage.persistence e)
errors-Hides_example = errors-Hides no_reasons

dequeue_message-documented_example : answered (dequeue_message repository 9 7 (0, [])).0 ≡ some 200
dequeue_message-documented_example = dequeue_message-documented repository 9 7 0 []

-- A `http` crate whose headers carry any text, and a service that answers with a number.
abbrev read_header : Text → Option Text
read_header = some

abbrev echo : Text → ℕ → Result Error (ServiceResponse Text ℕ) × ℕ
echo id n = (ok (record { request_id = none; rest = n }), n + 1)

call-answers_example :
    ((h : Text) × (read_header (request_id read_header (bytes "0a1b") (some (bytes "abc-1")))
        ≡ some h)
      × (call read_header read_header echo (bytes "0a1b") (some (bytes "abc-1")) 0
          ≡ and_then
              (echo (request_id read_header (bytes "0a1b") (some (bytes "abc-1"))) 0)
              (labelled read_header read_header echo h)))
    × ((v : Text)
        → Option.bind (some (bytes "abc-1")) read_header ≡ some v
        → valid_request_id v ≡ true
        → request_id read_header (bytes "0a1b") (some (bytes "abc-1")) ≡ v)
call-answers_example =
    call-answers read_header read_header echo (bytes "0a1b") (some (bytes "abc-1")) 0
      (λ t visible. (t, refl)) refl
