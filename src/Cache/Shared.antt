-- ===== src/Cache/Shared.antt =====
-- src/modules/queue/infrastructure/l2.rs: `L2QueueRepository`, the details of queues in a cache that
-- all processes share. JSON, the printing of identifiers and the timer are parameters; metrics and
-- logs are left out.
use retsu.Base.{
  ℕ, zero, suc, List, Bool, true, false, Option, none, some, Text, ◌++◌, bytes, inl, inr, Result,
  ok, err, panicked, map_ok, Action, ◌>>=◌,
}
use mathlib.Core.Option
use retsu.Domain.Message.{Uuid, Message}
use retsu.Domain.Queue.{Queue, QueueDetails, QueueConfigurationUpdate, details}
use retsu.Repository.{
  Error, CreateQueueOutcome, created, already_exists, DequeueMessageOutcome,
  AcknowledgeMessageOutcome, QueueExpirySummary, QueuePurgeSummary, QueueRepository,
}
use retsu.Cache.Redis.{Reply, map_reply, Command, RedisProtocolCommands}

abbrev pub key_prefix : Text
key_prefix = bytes "retsu:queue_details"

-- Durations are in milliseconds.
abbrev pub details_ttl : ℕ
details_ttl = 300_000

abbrev pub missing_ttl : ℕ
missing_ttl = 5_000

abbrev pub load_lock_ttl : ℕ
load_lock_ttl = 2_000

abbrev pub load_retry_interval : ℕ
load_retry_interval = 10

pub data CachedQueueDetails : Type 0 where
  found : QueueDetails → CachedQueueDetails
  missing : CachedQueueDetails

abbrev pub into_details : CachedQueueDetails → Option QueueDetails
into_details (found details) = some details
into_details missing = none

-- What the repository takes from other crates: `serde_json::to_vec` and `from_slice`, the `Display`
-- of a `Uuid`, and `tokio::time::sleep`.
pub record Runtime (S : Type 0) : Type 0 where
  pub to_vec : CachedQueueDetails → Reply Text
  pub from_slice : Text → Reply CachedQueueDetails
  pub display : Uuid → Text
  pub sleep : ℕ → S → S

pub record L2QueueRepository (S : Type 0) : Type 0 where
  pub source : QueueRepository S
  pub cache : Option (RedisProtocolCommands S)

-- What a lookup answers, with the state that it leaves.
abbrev pub Answer : Type 0 → Type 0
Answer S = Result Error (Option QueueDetails) × S

module _ {S : Type 0} (runtime : Runtime S) where
  unfoldable pub details_key : Uuid → Text
  details_key queue_id = key_prefix ++ (bytes ":" ++ runtime.display queue_id)

  unfoldable pub load_lock_key : Uuid → Text
  unfolding details_key
  load_lock_key queue_id = details_key queue_id ++ bytes ":load-lock"

  abbrev pub decoded : Reply (Option Text) → Reply (Option CachedQueueDetails)
  decoded (inl e) = inl e
  decoded (inr none) = inr none
  decoded (inr (some value)) = map_reply some (runtime.from_slice value)

  module _ (cache : RedisProtocolCommands S) where
    unfoldable pub read : Uuid → Command S (Option CachedQueueDetails)
    unfolding details_key
    read queue_id s = let (r, s') = cache.get (details_key queue_id) s in (decoded r, s')

    -- The value is sent if it could be encoded.
    abbrev pub send : (key : Text) (ttl : ℕ) → Reply Text → Command S (Unit {0})
    send key ttl (inl e) s = (inl e, s)
    send key ttl (inr value) s = cache.set key value ttl s

    unfoldable pub write : Uuid → CachedQueueDetails → (ttl : ℕ) → Command S (Unit {0})
    unfolding details_key
    write queue_id details' ttl s = send (details_key queue_id) ttl (runtime.to_vec details') s

    unfoldable pub insert : QueueDetails → Command S (Unit {0})
    unfolding write
    insert details' = write details'.id (found details') details_ttl

module _ {S : Type 0} (runtime : Runtime S) (l2 : L2QueueRepository S) where
  module _ (cache : RedisProtocolCommands S) (queue_id : Uuid) where
    -- What the answer of the source leaves in the cache; a failure of the cache is only logged.
    abbrev pub populate : Result Error (Option QueueDetails) → S → S
    populate (ok (some details')) s = (insert runtime cache details' s).1
    populate (ok none) s = (write runtime cache queue_id missing missing_ttl s).1
    populate (err e) s = s
    populate panicked s = s

    unfoldable pub load_and_cache : S → Answer S
    unfolding insert write
    load_and_cache s =
        let (result, s') = l2.source.queue_details queue_id s in (result, populate result s')

    -- An entry is the answer, a failure sends the client to the source, a miss goes on.
    abbrev pub after_read :
        Reply (Option CachedQueueDetails) → (S → Option (Answer S)) → S → Option (Answer S)
    after_read (inl error) on_miss s = some (l2.source.queue_details queue_id s)
    after_read (inr (some details')) on_miss s = some (ok (into_details details'), s)
    after_read (inr none) on_miss s = on_miss s

    -- One round of the loop, by the reply to `set_if_absent`.
    abbrev pub attempt : Reply Bool → (S → Option (Answer S)) → S → Option (Answer S)
    attempt (inl error) retry s = some (l2.source.queue_details queue_id s)
    attempt (inr true) retry s =
        let (r, s') = read runtime cache queue_id s in
        after_read r (λ s''. some (load_and_cache s'')) s'
    attempt (inr false) retry s =
        let (r, s') = read runtime cache queue_id (runtime.sleep load_retry_interval s) in
        after_read r retry s'

    -- The loop of `queue_details`, for at most so many rounds; `none` when they did not do.
    unfoldable pub wait_for_load : ℕ → S → Option (Answer S)
    unfolding load_and_cache read load_lock_key
    wait_for_load zero s = none
    wait_for_load (suc rounds) s =
        let (locked, s') =
          cache.set_if_absent (load_lock_key runtime queue_id) (bytes "1") load_lock_ttl s in
        attempt locked (wait_for_load rounds) s'

  abbrev pub cached_queue_details :
      ℕ → Uuid → Option (RedisProtocolCommands S) → S → Option (Answer S)
  cached_queue_details rounds queue_id none s = some (l2.source.queue_details queue_id s)
  cached_queue_details rounds queue_id (some cache) s =
      let (r, s') = read runtime cache queue_id s in
      after_read cache queue_id r (wait_for_load cache queue_id rounds) s'

  unfoldable pub queue_details : ℕ → Uuid → S → Option (Answer S)
  unfolding read wait_for_load
  queue_details rounds queue_id s = cached_queue_details rounds queue_id l2.cache s

  -- `.map(|details| details.map(|details| details.name().to_owned()))`
  abbrev pub name_of : Answer S → Result Error (Option Text) × S
  name_of (r, s) = (map_ok (Option.map λ d. d.name) r, s)

  abbrev pub cached_queue_name :
      ℕ → Uuid → Option (RedisProtocolCommands S) → S → Option (Result Error (Option Text) × S)
  cached_queue_name rounds queue_id none s = some (l2.source.queue_name queue_id s)
  cached_queue_name rounds queue_id (some cache) s =
      Option.map name_of (queue_details rounds queue_id s)

  unfoldable pub queue_name : ℕ → Uuid → S → Option (Result Error (Option Text) × S)
  queue_name rounds queue_id s = cached_queue_name rounds queue_id l2.cache s

  -- The write through the cache, whose failure is only logged.
  abbrev pub write_through : Option (RedisProtocolCommands S) → QueueDetails → S → S
  write_through none details' s = s
  write_through (some cache) details' s = (insert runtime cache details' s).1

  abbrev pub write_created : CreateQueueOutcome → Queue → S → S
  write_created created queue s = write_through l2.cache (details queue) s
  write_created already_exists queue s = s

  unfoldable pub create_queue : Queue → Action S Error CreateQueueOutcome
  unfolding insert
  create_queue queue =
      l2.source.create_queue queue >>= λ outcome s. (ok outcome, write_created outcome queue s)

  abbrev pub write_updated : Option QueueDetails → S → S
  write_updated none s = s
  write_updated (some details') s = write_through l2.cache details' s

  unfoldable pub update_queue :
      Uuid → QueueConfigurationUpdate → Action S Error (Option QueueDetails)
  unfolding insert
  update_queue queue_id configuration =
      l2.source.update_queue queue_id configuration >>= λ details' s.
      (ok details', write_updated details' s)

  unfoldable pub enqueue_message :
      Uuid → Message → (effective_ttl_seconds : ℕ) → Action S Error (Unit {0})
  enqueue_message = l2.source.enqueue_message

  unfoldable pub dequeue_message : Uuid → Uuid → Action S Error DequeueMessageOutcome
  dequeue_message = l2.source.dequeue_message

  unfoldable pub acknowledge_message : Uuid → Uuid → Uuid → Action S Error AcknowledgeMessageOutcome
  acknowledge_message = l2.source.acknowledge_message

  unfoldable pub process_expired_messages : ℕ → Action S Error (List QueueExpirySummary)
  process_expired_messages = l2.source.process_expired_messages

  unfoldable pub purge_dead_letter_messages : ℕ → ℕ → Action S Error (List QueuePurgeSummary)
  purge_dead_letter_messages = l2.source.purge_dead_letter_messages
