-- ===== src/Application/Maintenance.antt =====
-- src/modules/queue/application/process_expired_messages.rs and purge_dead_letter_messages.rs
use retsu.Base.{ℕ, List, Action, ok_or, lift, failing_as, ◌>>=◌, ℤ, to_signed, i64_max, pos, negsuc}
use retsu.Repository.{Error, QueueExpirySummary, QueuePurgeSummary, QueueRepository}

pub data ProcessExpiredMessagesError : Type 0 where
  process_failed : Error → ProcessExpiredMessagesError

pub data PurgeDeadLetterMessagesError : Type 0 where
  retention_overflow : PurgeDeadLetterMessagesError
  purge_failed : Error → PurgeDeadLetterMessagesError

unfoldable pub process_expired_messages :
    {S : Type 0}
    → QueueRepository S
    → (batch_size : ℕ) → Action S ProcessExpiredMessagesError (List QueueExpirySummary)
process_expired_messages repository batch_size =
    failing_as process_failed (repository.process_expired_messages batch_size)

-- The number that `i64::try_from(retention.as_secs())` carries.
abbrev pub seconds : ℤ → ℕ
seconds (pos n) = n
seconds (negsuc n) = 0

unfoldable pub purge_dead_letter_messages :
    {S : Type 0}
    → QueueRepository S
    → (retention batch_size : ℕ) → Action S PurgeDeadLetterMessagesError (List QueuePurgeSummary)
purge_dead_letter_messages repository retention batch_size = do
  retention_seconds ← lift (ok_or (to_signed i64_max retention) retention_overflow)
  failing_as purge_failed
      (repository.purge_dead_letter_messages (seconds retention_seconds) batch_size)
