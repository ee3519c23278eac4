-- ===== src/Application/CreateQueue.antt =====
-- src/modules/queue/application/create_queue.rs
use retsu.Base.{ℕ, Option, Text, Result, ok, err, Action, map_err, lift, failing_as, ◌>>=◌}
use retsu.Domain.Message.{Uuid}
use retsu.Domain.Queue.{
  QueueDetails, QueueNameError, QueueSettingsError, QueueValidationError, invalid_name,
  invalid_settings, new_queue, details,
}
use retsu.Repository.{Error, CreateQueueOutcome, created, already_exists, QueueRepository}

pub record CreateQueueCommand : Type 0 where
  pub name : Text
  pub visibility_timeout_seconds : Option ℕ
  pub max_delivery_attempts : Option ℕ
  pub default_message_ttl_seconds : Option ℕ

pub data CreateQueueError : Type 0 where
  name_refused : QueueNameError → CreateQueueError
  settings_refused : QueueSettingsError → CreateQueueError
  queue_exists : CreateQueueError
  persistence : Error → CreateQueueError

-- `From<QueueValidationError>`
abbrev pub refused : QueueValidationError → CreateQueueError
refused (invalid_name e) = name_refused e
refused (invalid_settings e) = settings_refused e

-- `match outcome { Created => {} AlreadyExists => return Err(…) }`
abbrev pub created_or_exists :
    QueueDetails → CreateQueueOutcome → Result CreateQueueError QueueDetails
created_or_exists queue created = ok queue
created_or_exists queue already_exists = err queue_exists

-- With the identifier that `Queue::new` draws.
unfoldable pub execute :
    {S : Type 0}
    → QueueRepository S
    → Uuid
    → CreateQueueCommand
    → Action S CreateQueueError QueueDetails
execute repository id command = do
  queue ← lift (
      map_err refused (
        new_queue id command.name command.visibility_timeout_seconds command.max_delivery_attempts
          command.default_message_ttl_seconds))
  outcome ← failing_as persistence (repository.create_queue queue)
  lift (created_or_exists (details queue) outcome)
