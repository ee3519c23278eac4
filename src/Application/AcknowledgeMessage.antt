-- ===== src/Application/AcknowledgeMessage.antt =====
-- src/modules/queue/application/acknowledge_message.rs
use retsu.Base.{Option, none, some, Text, ok, Action, ok_or, lift, failing_as, ◌>>=◌}
use retsu.Domain.Message.{Uuid}
use retsu.Repository.{Error, AcknowledgeMessageOutcome, acknowledged, unchanged, QueueRepository}

pub record AcknowledgeMessageCommand : Type 0 where
  pub queue_id : Uuid
  pub message_id : Uuid
  pub receipt_handle : Uuid

pub record AcknowledgedMessage : Type 0 where
  pub queue_name : Text

pub data AcknowledgeMessageError : Type 0 where
  no_such_queue : AcknowledgeMessageError
  persistence : Error → AcknowledgeMessageError

-- The match on the repository's outcome.
abbrev pub acknowledged_message : Text → AcknowledgeMessageOutcome → Option AcknowledgedMessage
acknowledged_message name acknowledged = some (record { queue_name = name })
acknowledged_message name unchanged = none

unfoldable pub execute :
    {S : Type 0}
    → QueueRepository S
    → AcknowledgeMessageCommand
    → Action S AcknowledgeMessageError (Option AcknowledgedMessage)
execute repository command = do
  found ← failing_as persistence (repository.queue_name command.queue_id)
  name ← lift (ok_or found no_such_queue)
  outcome ←
      failing_as persistence
        (repository.acknowledge_message command.queue_id command.message_id command.receipt_handle)
  lift (ok (acknowledged_message name outcome))
