-- ===== src/Configuration/Limits.antt =====
-- What the ranges of a loaded configuration rule out, in the cache and in the cleaners.
use retsu.Base.{
  ℕ, ◌&&◌, ◌≤◌, ◌<◌, ◌≡◌, refl, subst, Bool, true, false, Bool-cases, inl, inr, Option, List, Text,
  Result, ok, err, panicked, try, length, ltb, leb, in_range, arith, and_then, ◌>>=◌, map_err,
  i64_max,
}
use retsu.Repository.{Error, QueueRepository, sum_of, QueuePurgeSummary, purged}
use retsu.Application.Maintenance.{
  PurgeDeadLetterMessagesError, purge_failed, purge_dead_letter_messages,
}
use retsu.Cache.Memory.{MemoryCachePolicy, new_policy, entry_weight, u32_max}
use retsu.Cache.Weights.{entries-le-max_entries}
use retsu.Configuration.Schema.{
  from_secs, AppConfiguration, validate_app_configuration, validate_cache_config,
  validate_telemetry_config, validate_logging_config, validate_http_config, validate_worker_config,
  validate_database_config, validate_cache_policy_config,
  validate_dead_letter_message_cleaner_config, validate_worker_management_config,
  DeadLetterMessageCleanerConfig, CachePolicyConfig,
}
use retsu.Configuration.Loading.{
  ConfigurationError, FileSource, file_source, validation_failed, checked, load,
}
use retsu.Worker.Cleaner.{Poll, failed, calling, delay_after, dead_letter_message_cleaner}
use retsu.Worker.Loops.{AccountsFor, clean-AccountsFor}

module _ (is_url : Text → Bool)
    (build_and_deserialize : FileSource → Result ConfigurationError AppConfiguration)
    (config_path : Option Text) where
  checked-ok :
      (r : Result ConfigurationError AppConfiguration) {c : AppConfiguration}
      → try r (checked is_url) ≡ ok c
      → validate_app_configuration is_url c ≡ true
  checked-ok (ok c') {c} h = elim (Bool-cases (validate_app_configuration is_url c')) [
    | inl e ↦
        let same : ok c' ≡ ok c = rw e at h in
        let here : c' ≡ c = cc same in
        subst (λ x. validate_app_configuration is_url x ≡ true) here e
    | inr e ↦ let bad : err validation_failed ≡ ok c = rw e at h in absurd (cc)
  ]
  checked-ok (err e) h = absurd (cc)
  checked-ok panicked h = absurd (cc)

  load-validates :
      {c : AppConfiguration}
      → load is_url build_and_deserialize config_path ≡ ok c
      → validate_app_configuration is_url c ≡ true
  unfolding load
  load-validates h = checked-ok (build_and_deserialize (file_source config_path)) h

and_left : (a b : Bool) → a && b ≡ true → a ≡ true
and_left true b h = refl
and_left false b h = h

and_right : (a b : Bool) → a && b ≡ true → b ≡ true
and_right true b h = h
and_right false b h = absurd (cc)

module _ (is_url : Text → Bool) (c : AppConfiguration)
    (valid : validate_app_configuration is_url c ≡ true) where
  cache_valid : validate_cache_config is_url c.cache ≡ true
  cache_valid = and_left (validate_cache_config is_url c.cache) _ (
      and_right (validate_telemetry_config is_url c.telemetry) _ (
        and_right (validate_logging_config c.logging) _
          (and_right (validate_http_config c.http) _ valid)))

  worker_valid : validate_worker_config c.worker ≡ true
  worker_valid = and_right (validate_database_config is_url c.database) _ (
      and_right (validate_cache_config is_url c.cache) _ (
        and_right (validate_telemetry_config is_url c.telemetry) _ (
          and_right (validate_logging_config c.logging) _
            (and_right (validate_http_config c.http) _ valid))))

  policy_valid : validate_cache_policy_config c.cache.in_memory.regions.queue_names ≡ true
  policy_valid =
      and_left (validate_cache_policy_config c.cache.in_memory.regions.queue_names) _ cache_valid

  cleaner_valid :
      validate_dead_letter_message_cleaner_config c.worker.queue.dead_letter_message_cleaner ≡ true
  cleaner_valid =
      and_left
        (validate_dead_letter_message_cleaner_config c.worker.queue.dead_letter_message_cleaner) _
        (and_right (validate_worker_management_config c.worker.management) _
          (and_right (in_range 1 300 c.worker.shutdown_timeout_seconds) _ worker_valid))

retention_fits :
    (d : DeadLetterMessageCleanerConfig)
    → validate_dead_letter_message_cleaner_config d ≡ true
    → d.retention_seconds ≤ 31_536_000
retention_fits d h =
    let range = and_left (in_range 3_600 31_536_000 d.retention_seconds) _ h in
    ground (arith, range)

policy_fits :
    (p : CachePolicyConfig)
    → validate_cache_policy_config p ≡ true
    → (0 < p.max_entries) × (0 < p.max_capacity_bytes) × (p.max_capacity_bytes ≤ u32_max)
policy_fits p h = (
  ground (arith, and_left (in_range 1 1_000_000 p.max_entries) _ h),
  ground (arith, and_right (in_range 1 1_000_000 p.max_entries) _ h),
  ground (arith, and_right (in_range 1 1_000_000 p.max_entries) _ h),
)

ltb_of_lt : (a b : ℕ) → a < b → ltb a b ≡ true
ltb_of_lt a b h = ground arith

new_policy-ok :
    (p : CachePolicyConfig)
    → 0 < p.max_entries
    → 0 < p.max_capacity_bytes
    → new_policy {E = Unit} p.max_entries p.max_capacity_bytes
      ≡ ok (record { max_entries = p.max_entries; max_capacity_bytes = p.max_capacity_bytes })
unfolding new_policy
new_policy-ok p h k = rw (ltb_of_lt 0 p.max_entries h, ltb_of_lt 0 p.max_capacity_bytes k) refl

abbrev delay : DeadLetterMessageCleanerConfig → ℕ → ℕ
delay d =
    delay_after d.batch_size d.saturated_batch_delay_milliseconds
      (from_secs d.processing_interval_seconds)

storage_failed :
    {S : Type 0} (r : Result Error (List QueuePurgeSummary)) (s : S)
    {e : PurgeDeadLetterMessagesError}
    → (and_then (map_err purge_failed r, s) (λ summary s'. (ok (purged summary), s'))).0 ≡ err e
    → (x : Error) × (e ≡ purge_failed x) × (r ≡ err x)
storage_failed (ok summary) s h = absurd (cc)
storage_failed (err x) s h = (x, cc, refl)
storage_failed panicked s h = absurd (cc)

purge-err :
    {S : Type 0} (repository : QueueRepository S) (retention batch_size : ℕ) (s : S)
    {e : PurgeDeadLetterMessagesError}
    → leb retention i64_max ≡ true
    → (and_then
        (purge_dead_letter_messages repository retention batch_size s)
        (λ summary s'. (ok (purged summary), s'))).0
      ≡ err e
    → (x : Error) × (e ≡ purge_failed x)
      × ((repository.purge_dead_letter_messages retention batch_size s).0 ≡ err x)
unfolding purge_dead_letter_messages
purge-err repository retention batch_size s fits h =
    let (r, s') = repository.purge_dead_letter_messages retention batch_size s in
    storage_failed r s' (rw fits at h)

module _ (is_url : Text → Bool)
    (build_and_deserialize : FileSource → Result ConfigurationError AppConfiguration)
    (config_path : Option Text) {c : AppConfiguration} where
  -- For a configuration that loads, the policy of the cache of queue names is built without a
  -- panic, and entries whose weights fit the capacity in bytes are no more than the configured
  -- number of entries.
  pub load-new_policy :
      load is_url build_and_deserialize config_path ≡ ok c
      → (policy : MemoryCachePolicy) × (new_policy {E = Unit}
            c.cache.in_memory.regions.queue_names.max_entries
            c.cache.in_memory.regions.queue_names.max_capacity_bytes
          ≡ ok policy)
        × ((weights : List ℕ)
            → sum_of (entry_weight policy) weights ≤ policy.max_capacity_bytes
            → length weights ≤ policy.max_entries)
  load-new_policy loaded =
      let p = c.cache.in_memory.regions.queue_names in
      let (entries, bytes', small) =
        policy_fits p (
          policy_valid is_url c (load-validates is_url build_and_deserialize config_path loaded)) in
      let made = new_policy-ok p entries bytes' in
      (
        _,
        made,
        λ weights full.
            entries-le-max_entries p.max_entries p.max_capacity_bytes weights small made full,
      )

  -- With a configuration that loads, the cleaner of dead letters ends with an error only if a call
  -- of the storage with the configured retention and batch size returned that error: the retention
  -- never overflows.
  pub load-dead_letter_message_cleaner :
      {S : Type 0} (repository : QueueRepository S) (polls : List Poll) (s : S)
      (e : PurgeDeadLetterMessagesError)
      → load is_url build_and_deserialize config_path ≡ ok c
      → (dead_letter_message_cleaner repository c.worker.queue.dead_letter_message_cleaner polls
          s).exit
        ≡ failed e
      → (x : Error) × (e ≡ purge_failed x)
        × ((s' : S) × (repository.purge_dead_letter_messages
                c.worker.queue.dead_letter_message_cleaner.retention_seconds
                c.worker.queue.dead_letter_message_cleaner.batch_size s').0
              ≡ err x)
  unfolding dead_letter_message_cleaner
  load-dead_letter_message_cleaner repository polls s e loaded ended =
      let d = c.worker.queue.dead_letter_message_cleaner in
      let fits =
        retention_fits d (
          cleaner_valid is_url c
            (load-validates is_url build_and_deserialize config_path loaded)) in
      let run = purge_dead_letter_messages repository d.retention_seconds d.batch_size in
      let accounts : AccountsFor (run >>= λ summary s'. (ok (purged summary), s')) (delay d) polls
          (failed e) =
        rw ended at (
          clean-AccountsFor (run >>= λ summary s'. (ok (purged summary), s')) (delay d) calling
            polls s) in
      let (x, same, returned) =
        purge-err repository d.retention_seconds d.batch_size accounts.0 (ground (arith, fits))
          accounts.1 in
      (x, same, (accounts.0, returned))
