-- ===== src/Api/Module.antt =====
-- src/modules/queue/mod.rs: `QueueModule`, the use cases with the counters that they move
-- (src/observability/metrics). A counter's `add` is kept as an entry of a log.
use retsu.Base.{
  ℕ, Option, none, some, List, [], ◌∷◌, ◌++◌, Text, bytes, ok, Action, ◌>>=◌, ◌==◌, if◌then◌else◌,
}
use retsu.Domain.Message.{Uuid, as_str}
use retsu.Domain.Queue.{QueueDetails}
use retsu.Repository.{QueueRepository, QueueExpirySummary, QueuePurgeSummary}
use retsu.Application.CreateQueue.{CreateQueueCommand, CreateQueueError}
use retsu.Application.UpdateQueue.{UpdateQueueCommand, UpdateQueueError}
use retsu.Application.EnqueueMessage.{EnqueueMessageCommand, EnqueueMessageError, EnqueuedMessage}
use retsu.Application.DequeueMessage.{DequeueMessageError, DequeueMessageResult, DequeuedMessage}
use retsu.Application.AcknowledgeMessage.{
  AcknowledgeMessageCommand, AcknowledgeMessageError, AcknowledgedMessage,
}
use retsu.Application.Maintenance.{ProcessExpiredMessagesError, PurgeDeadLetterMessagesError}
use retsu.Application.CreateQueue
use retsu.Application.UpdateQueue
use retsu.Application.EnqueueMessage
use retsu.Application.DequeueMessage
use retsu.Application.AcknowledgeMessage
use retsu.Application.Maintenance

-- The counters, with their attributes.
pub data Counter : Type 0 where
  messages_enqueued : (queue_name priority : Text) → Counter
  messages_acknowledged : (queue_name : Text) → Counter
  messages_dead_lettered : (queue_name : Text) → Counter
  messages_expired : (queue_name delivery_history : Text) → Counter
  messages_purged : (queue_name : Text) → Counter

pub record Addition : Type 0 where
  pub counter : Counter
  pub count : ℕ

abbrev pub Log : Type 0
Log = List Addition

-- The state, and what was added to the counters, in order.
abbrev pub Counted : Type 0 → Type 0
Counted S = S × Log

-- A call of a use case moves no counter.
abbrev pub uncounted : {S E A : Type 0} → Action S E A → Action (Counted S) E A
uncounted action (s, log) = let (r, s') = action s in (r, (s', log))

-- `if count == 0 { return; }` and `add`
abbrev pub addition : Counter → ℕ → Log
addition counter count =
    if count == 0 then [] else (record { counter = counter; count = count }) ∷ []

abbrev pub message_enqueued : Text → Text → Log
message_enqueued queue_name priority =
    (record { counter = messages_enqueued queue_name priority; count = 1 }) ∷ []

abbrev pub message_acknowledged : Text → Log
message_acknowledged queue_name =
    (record { counter = messages_acknowledged queue_name; count = 1 }) ∷ []

abbrev pub acknowledgement : Option AcknowledgedMessage → Log
acknowledgement none = []
acknowledgement (some message) = message_acknowledged message.queue_name

abbrev pub expired_additions : List QueueExpirySummary → Log
expired_additions [] = []
expired_additions (queue ∷ queues) =
    addition (messages_expired queue.queue_name (bytes "never_delivered")) queue.never_delivered
    ++ (addition (messages_expired queue.queue_name (bytes "previously_delivered"))
          queue.previously_delivered
        ++ expired_additions queues)

abbrev pub purged_additions : List QueuePurgeSummary → Log
purged_additions [] = []
purged_additions (queue ∷ queues) =
    addition (messages_purged queue.queue_name) queue.purged ++ purged_additions queues

-- `Ok(value)` after the additions.
abbrev pub counted : {S E A : Type 0} → Log → A → Action (Counted S) E A
counted added value (s, log) = (ok value, (s, log ++ added))

module _ {S : Type 0} (queue_repository : QueueRepository S) where
  unfoldable pub create_queue :
      Uuid → CreateQueueCommand → Action (Counted S) CreateQueueError QueueDetails
  create_queue id command = uncounted (CreateQueue.execute queue_repository id command)

  unfoldable pub update_queue :
      UpdateQueueCommand → Action (Counted S) UpdateQueueError QueueDetails
  update_queue command = uncounted (UpdateQueue.execute queue_repository command)

  unfoldable pub enqueue_message :
      Uuid → EnqueueMessageCommand → Action (Counted S) EnqueueMessageError EnqueuedMessage
  enqueue_message id command =
      uncounted (EnqueueMessage.execute queue_repository id command) >>= λ message.
      counted (message_enqueued message.queue_name (as_str message.priority)) message

  unfoldable pub dequeue_message :
      (receipt_handle : Uuid)
      → (queue_id : Uuid) → Action (Counted S) DequeueMessageError (Option DequeuedMessage)
  dequeue_message receipt_handle queue_id =
      uncounted (DequeueMessage.execute queue_repository receipt_handle queue_id) >>= λ result.
      counted (addition (messages_dead_lettered result.queue_name) result.dead_lettered)
        result.message

  unfoldable pub acknowledge_message :
      AcknowledgeMessageCommand → Action (Counted S) AcknowledgeMessageError (Unit {0})
  acknowledge_message command =
      uncounted (AcknowledgeMessage.execute queue_repository command) >>= λ message.
      counted (acknowledgement message) tt

  unfoldable pub process_expired_messages :
      (batch_size : ℕ) → Action (Counted S) ProcessExpiredMessagesError (List QueueExpirySummary)
  process_expired_messages batch_size =
      uncounted (Maintenance.process_expired_messages queue_repository batch_size) >>= λ summary.
      counted (expired_additions summary) summary

  unfoldable pub purge_dead_letter_messages :
      (retention batch_size : ℕ)
      → Action (Counted S) PurgeDeadLetterMessagesError (List QueuePurgeSummary)
  purge_dead_letter_messages retention batch_size =
      uncounted (Maintenance.purge_dead_letter_messages queue_repository retention batch_size)
      >>= λ summary. counted (purged_additions summary) summary
