-- ===== src/Repository.antt =====
-- src/modules/queue/application/repository.rs: what the application asks of its storage, and the
-- outcomes and summaries that it gets back. A repository over a state `S` is a record of actions.
use retsu.Base.{ℕ, ◌+◌, Option, List, [], ◌∷◌, Text, Action, ℤ}
use retsu.Domain.Message.{Uuid, Message, MessagePriority}
use retsu.Domain.Queue.{Queue, QueueDetails, QueueConfigurationUpdate}

-- The errors that an `anyhow::Error` of the storage layer stands for.
pub data Error : Type 0 where
  pool_unavailable statement_failed : Error
  negative_visibility_timeout negative_delivery_attempt_limit negative_default_message_ttl : Error
  missing_queue_name negative_dead_letter_count payload_not_utf8 : Error
  negative_delivery_attempt_count incomplete_leased_message : Error
  negative_never_delivered negative_previously_delivered negative_purged : Error
  negative_ready negative_in_flight : Error
  invalid_priority_rank : ℤ → Error
  cached_load_failed : Error → Error

pub data CreateQueueOutcome : Type 0 where
  created already_exists : CreateQueueOutcome

pub record Delivery : Type 0 where
  pub id : Uuid
  pub payload : Text
  pub priority : MessagePriority
  pub receipt_handle : Uuid
  pub delivery_attempts : ℕ
  pub queue_name : Text
  pub dead_lettered : ℕ

pub data DequeueMessageOutcome : Type 0 where
  dequeued : Delivery → DequeueMessageOutcome
  empty : (queue_name : Text) (dead_lettered : ℕ) → DequeueMessageOutcome
  queue_not_found : DequeueMessageOutcome

pub data AcknowledgeMessageOutcome : Type 0 where
  acknowledged unchanged : AcknowledgeMessageOutcome

pub record QueuePurgeSummary : Type 0 where
  pub queue_name : Text
  pub purged : ℕ

pub record QueueExpirySummary : Type 0 where
  pub queue_name : Text
  pub never_delivered : ℕ
  pub previously_delivered : ℕ

-- `.iter().map(f).sum()`
abbrev pub sum_of {ℓ} : {A : Type ℓ} → (A → ℕ) → List A → ℕ
sum_of f [] = 0
sum_of f (x ∷ xs) = f x + sum_of f xs

-- `QueueExpiredMessagesCleanupSummary::processed`
abbrev pub processed_of_queue : QueueExpirySummary → ℕ
processed_of_queue s = s.never_delivered + s.previously_delivered

-- `ExpiredMessagesCleanupSummary::processed`, by its `per_queue`
abbrev pub processed : List QueueExpirySummary → ℕ
processed = sum_of processed_of_queue

abbrev pub never_delivered : List QueueExpirySummary → ℕ
never_delivered = sum_of λ s. s.never_delivered

abbrev pub previously_delivered : List QueueExpirySummary → ℕ
previously_delivered = sum_of λ s. s.previously_delivered

-- `DeadLetterMessagesPurgeSummary::purged`, by its `per_queue`
abbrev pub purged : List QueuePurgeSummary → ℕ
purged = sum_of λ s. s.purged

pub record QueueRepository (S : Type 0) : Type 0 where
  pub create_queue : Queue → Action S Error CreateQueueOutcome
  pub queue_name : Uuid → Action S Error (Option Text)
  pub queue_details : Uuid → Action S Error (Option QueueDetails)
  pub update_queue : Uuid → QueueConfigurationUpdate → Action S Error (Option QueueDetails)
  pub enqueue_message : Uuid → Message → (effective_ttl_seconds : ℕ) → Action S Error (Unit {0})
  pub dequeue_message : Uuid → (receipt_handle : Uuid) → Action S Error DequeueMessageOutcome
  pub acknowledge_message : Uuid → Uuid → Uuid → Action S Error AcknowledgeMessageOutcome
  pub process_expired_messages : (batch_size : ℕ) → Action S Error (List QueueExpirySummary)
  pub purge_dead_letter_messages :
      (retention_seconds batch_size : ℕ) → Action S Error (List QueuePurgeSummary)
