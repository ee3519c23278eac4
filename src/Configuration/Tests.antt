-- ===== src/Configuration/Tests.antt =====
-- The defaults, and a configuration loaded from nothing.
use retsu.Base.{ℕ, ◌≤◌, ◌≡◌, refl, Bool, true, none, List, [], ◌∷◌, Text, Result, ok, err, length}
use retsu.Repository.{Error, statement_failed, sum_of}
use retsu.Repository
use retsu.Application.Maintenance.{PurgeDeadLetterMessagesError, purge_failed}
use retsu.Cache.Memory.{MemoryCachePolicy, new_policy, entry_weight}
use retsu.Configuration.Schema.{AppConfiguration, validate_app_configuration}
use retsu.Configuration.Defaults.{default_app_configuration}
use retsu.Configuration.Loading.{ConfigurationError, FileSource, load}
use retsu.Configuration.Limits.{load-new_policy, load-dead_letter_message_cleaner}
use retsu.Worker.Cleaner.{completed, dead_letter_message_cleaner, failed}

abbrev any_url : Text → Bool
any_url text = true

defaults : validate_app_configuration any_url default_app_configuration ≡ true
defaults = refl

abbrev nothing_set : FileSource → Result ConfigurationError AppConfiguration
nothing_set file = ok default_app_configuration

loaded : load any_url nothing_set none ≡ ok default_app_configuration
unfolding load
loaded = refl

abbrev policy : MemoryCachePolicy
policy = record { max_entries = 10_000; max_capacity_bytes = 8_388_608 }

load-new_policy_example :
    (policy : MemoryCachePolicy) × (new_policy {E = Unit} 10_000 8_388_608 ≡ ok policy)
    × ((weights : List ℕ)
        → sum_of (entry_weight policy) weights ≤ policy.max_capacity_bytes
        → length weights ≤ policy.max_entries)
load-new_policy_example = load-new_policy any_url nothing_set none loaded

-- A repository whose statements all fail.
abbrev broken : Repository.QueueRepository ℕ
broken = record {
  create_queue = λ queue n. (err statement_failed, n);
  queue_name = λ id n. (err statement_failed, n);
  queue_details = λ id n. (err statement_failed, n);
  update_queue = λ id configuration n. (err statement_failed, n);
  enqueue_message = λ id message ttl n. (err statement_failed, n);
  dequeue_message = λ id handle n. (err statement_failed, n);
  acknowledge_message = λ id message_id handle n. (err statement_failed, n);
  process_expired_messages = λ batch_size n. (err statement_failed, n);
  purge_dead_letter_messages = λ retention batch_size n. (err statement_failed, n);
}

load-dead_letter_message_cleaner_example :
    (x : Error) × (purge_failed statement_failed ≡ purge_failed x)
    × ((s' : ℕ) × (broken.purge_dead_letter_messages
            default_app_configuration.worker.queue.dead_letter_message_cleaner.retention_seconds
            default_app_configuration.worker.queue.dead_letter_message_cleaner.batch_size s').0
          ≡ err x)
unfolding dead_letter_message_cleaner retsu.Worker.Cleaner.clean
    retsu.Application.Maintenance.purge_dead_letter_messages
load-dead_letter_message_cleaner_example =
    load-dead_letter_message_cleaner any_url nothing_set none broken (completed ∷ []) 0
      (purge_failed statement_failed) loaded ended
  where
    ended :
        (dead_letter_message_cleaner broken
          default_app_configuration.worker.queue.dead_letter_message_cleaner
          (completed ∷ [])
          0).exit
        ≡ failed (purge_failed statement_failed)
    ended = refl
