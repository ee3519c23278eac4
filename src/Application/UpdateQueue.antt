-- ===== src/Application/UpdateQueue.antt =====
-- src/modules/queue/application/update_queue.rs
use retsu.Base.{
  ℕ, Option, not, ◌&&◌, is_some, err, Action, map_err, ok_or, lift, failing_as, ◌>>=◌,
  if◌then◌else◌,
}
use retsu.Domain.Message.{Uuid}
use retsu.Domain.Queue.{QueueDetails, QueueSettingsError, new_update}
use retsu.Repository.{Error, QueueRepository}

pub record UpdateQueueCommand : Type 0 where
  pub queue_id : Uuid
  pub visibility_timeout_seconds : Option ℕ
  pub max_delivery_attempts : Option ℕ
  pub default_message_ttl_seconds : Option ℕ

pub data UpdateQueueError : Type 0 where
  no_configuration_changes : UpdateQueueError
  settings_refused : QueueSettingsError → UpdateQueueError
  no_such_queue : UpdateQueueError
  persistence : Error → UpdateQueueError

unfoldable pub execute :
    {S : Type 0} → QueueRepository S → UpdateQueueCommand → Action S UpdateQueueError QueueDetails
execute repository command =
    if not (is_some command.visibility_timeout_seconds)
      && (not (is_some command.max_delivery_attempts)
          && not (is_some command.default_message_ttl_seconds))
    then lift (err no_configuration_changes)
    else do
      configuration ← lift (
          map_err settings_refused (
            new_update command.visibility_timeout_seconds command.max_delivery_attempts
              command.default_message_ttl_seconds))
      queue ← failing_as persistence (repository.update_queue command.queue_id configuration)
      lift (ok_or queue no_such_queue)
