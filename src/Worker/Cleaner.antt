-- ===== src/Worker/Cleaner.antt =====
-- src/modules/queue/worker/expired_message_cleaner.rs and dead_letter_message_cleaner.rs: the loops of
-- the two cleaners. What each `select!` finds is given as a list; logs are left out.
use retsu.Base.{
  ℕ, List, [], ◌∷◌, Text, bytes, Result, ok, err, panicked, Action, ◌>>=◌, ◌==◌, if◌then◌else◌,
}
use retsu.Repository.{QueueRepository, processed, purged}
use retsu.Application.Maintenance.{
  ProcessExpiredMessagesError, process_expired_messages, PurgeDeadLetterMessagesError,
  purge_dead_letter_messages,
}
use retsu.Configuration.Schema.{
  DeadLetterMessageCleanerConfig, ExpiredMessageCleanerConfig, from_secs,
}

abbrev pub expired_message_cleaner_name : Text
expired_message_cleaner_name = bytes "expired-message-cleaner"

abbrev pub dead_letter_message_cleaner_name : Text
dead_letter_message_cleaner_name = bytes "dead-letter-message-cleaner"

-- A biased `select!` of the cancellation and another future: it takes the cancellation whenever that
-- is there, else it waits for the other.
pub data Poll : Type 0 where
  cancelled completed : Poll

-- Where the loop stands: it is about to call, or it sleeps for so many milliseconds.
pub data Phase : Type 0 where
  calling : Phase
  sleeping : (duration : ℕ) → Phase

-- The polls are used up; the task returned `Ok(())`; it returned an error; it panicked.
pub data Exit (E : Type 0) : Type 0 where
  running : Phase → Exit E
  stopped : Exit E
  failed : E → Exit E
  task_panicked : Exit E

-- What a run leaves: the counts of its calls, in order, how it ended, and the state.
pub record Run (S E : Type 0) : Type 0 where
  pub counts : List ℕ
  pub exit : Exit E
  pub state : S

abbrev pub counting : {S E : Type 0} → ℕ → Run S E → Run S E
counting n run = record run { counts = n ∷ run.counts }

module _ {S E : Type 0} (call : Action S E ℕ) (delay : ℕ → ℕ) where
  -- A call's result: `?` ends the loop, a count goes on.
  abbrev pub called : Result E ℕ × S → (Phase → S → Run S E) → Run S E
  called (ok n, s) next = counting n (next (sleeping (delay n)) s)
  called (err e, s) next = record { counts = []; exit = failed e; state = s }
  called (panicked, s) next = record { counts = []; exit = task_panicked; state = s }

  unfoldable pub clean : Phase → List Poll → S → Run S E
  clean phase [] s = record { counts = []; exit = running phase; state = s }
  clean phase (cancelled ∷ polls) s = record { counts = []; exit = stopped; state = s }
  clean calling (completed ∷ polls) s = called (call s) (λ phase. clean phase polls)
  clean (sleeping duration) (completed ∷ polls) s = clean calling polls s

-- A full batch is followed by the short delay.
abbrev pub delay_after : (batch_size saturated_batch_delay processing_interval n : ℕ) → ℕ
delay_after batch_size saturated_batch_delay processing_interval n =
    if n == batch_size then saturated_batch_delay else processing_interval

module _ {S : Type 0} (repository : QueueRepository S) where
  unfoldable pub expired_message_cleaner :
      ExpiredMessageCleanerConfig → List Poll → S → Run S ProcessExpiredMessagesError
  unfolding clean
  expired_message_cleaner c =
      clean
        (process_expired_messages repository c.batch_size >>= λ summary s.
          (ok (processed summary), s))
        (delay_after c.batch_size c.saturated_batch_delay_milliseconds
          (from_secs c.processing_interval_seconds))
        calling

  unfoldable pub dead_letter_message_cleaner :
      DeadLetterMessageCleanerConfig → List Poll → S → Run S PurgeDeadLetterMessagesError
  unfolding clean
  dead_letter_message_cleaner c =
      clean
        (purge_dead_letter_messages repository c.retention_seconds c.batch_size >>= λ summary s.
          (ok (purged summary), s))
        (delay_after c.batch_size c.saturated_batch_delay_milliseconds
          (from_secs c.processing_interval_seconds))
        calling
