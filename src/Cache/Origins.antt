-- ===== src/Cache/Origins.antt =====
-- Where the answers of the shared cache come from: a failure of the cache is never one.
use retsu.Base.{
  ℕ, zero, suc, Bool, true, false, Option, none, some, Text, ◌≡◌, refl, ◌⊎◌, inl, inr, Result, ok,
  err, panicked, and_then,
}
use retsu.Domain.Message.{Uuid}
use retsu.Domain.Queue.{Queue, QueueDetails, QueueConfigurationUpdate}
use retsu.Repository.{Error}
use retsu.Cache.Redis.{Reply, RedisProtocolCommands}
use retsu.Cache.Shared.{
  Runtime, L2QueueRepository, CachedQueueDetails, found, into_details, details_key, read,
  load_and_cache, after_read, attempt, wait_for_load, queue_details, Answer, create_queue,
  update_queue, load_retry_interval, details_ttl, insert, write_through,
}

module _ {S : Type 0} (runtime : Runtime S) (l2 : L2QueueRepository S)
    (cache : RedisProtocolCommands S) (id : Uuid) where
  -- The source gave the result, in some state.
  abbrev pub FromSource : Result Error (Option QueueDetails) → Type 0
  FromSource r = (s : S) × ((l2.source.queue_details id s).0 ≡ r)

  -- A value that the cache returned for the queue encodes the result.
  abbrev pub FromCache : Result Error (Option QueueDetails) → Type 0
  FromCache r =
      (s : S) × (d : CachedQueueDetails) × ((read runtime cache id s).0 ≡ inr (some d))
      × (r ≡ ok (into_details d))

  abbrev HasOrigin : Option (Answer S) → Type 0
  HasOrigin none = Unit
  HasOrigin (some (r, s)) = FromSource r ⊎ FromCache r

  source-HasOrigin : (s : S) → HasOrigin (some (l2.source.queue_details id s))
  source-HasOrigin s = inl (s, refl)

  after_read-HasOrigin :
      (s s' : S) (r : Reply (Option CachedQueueDetails)) (on_miss : S → Option (Answer S))
      → (read runtime cache id s).0 ≡ r
      → ((s'' : S) → HasOrigin (on_miss s''))
      → HasOrigin (after_read runtime l2 cache id r on_miss s')
  after_read-HasOrigin s s' (inl e) on_miss eq next = source-HasOrigin s'
  after_read-HasOrigin s s' (inr (some d)) on_miss eq next = inr (s, d, eq, refl)
  after_read-HasOrigin s s' (inr none) on_miss eq next = next s'

  loaded-HasOrigin : (s : S) → HasOrigin (some (load_and_cache runtime l2 cache id s))
  unfolding load_and_cache
  loaded-HasOrigin s = inl (s, refl)

  attempt-HasOrigin :
      (locked : Reply Bool) (retry : S → Option (Answer S)) (s : S)
      → ((s' : S) → HasOrigin (retry s'))
      → HasOrigin (attempt runtime l2 cache id locked retry s)
  attempt-HasOrigin (inl e) retry s next = source-HasOrigin s
  attempt-HasOrigin (inr true) retry s next = after_read-HasOrigin s _ _ _ refl loaded-HasOrigin
  attempt-HasOrigin (inr false) retry s next =
      after_read-HasOrigin (runtime.sleep load_retry_interval s) _ _ retry refl next

  wait_for_load-HasOrigin :
      (rounds : ℕ) (s : S) → HasOrigin (wait_for_load runtime l2 cache id rounds s)
  unfolding wait_for_load
  wait_for_load-HasOrigin zero s = tt
  wait_for_load-HasOrigin (suc rounds) s = attempt-HasOrigin _ _ _ (wait_for_load-HasOrigin rounds)

  queue_details-HasOrigin :
      (rounds : ℕ) (s : S)
      → l2.cache ≡ some cache
      → HasOrigin (queue_details runtime l2 rounds id s)
  unfolding queue_details
  queue_details-HasOrigin rounds s enabled =
      rw enabled (after_read-HasOrigin s _ _ _ refl (wait_for_load-HasOrigin rounds))

  -- With the shared cache on, whatever a lookup returns, an error included, is what the source
  -- returned in some state, or the answer that an entry read from the cache stands for: an error
  -- of the cache is never returned.
  pub queue_details-origin :
      (rounds : ℕ) (s : S) {r : Result Error (Option QueueDetails)} {s' : S}
      → l2.cache ≡ some cache
      → queue_details runtime l2 rounds id s ≡ some (r, s')
      → FromSource r ⊎ FromCache r
  queue_details-origin rounds s {r} {s'} enabled returned =
      let origin : HasOrigin (some (r, s')) =
        rw returned at (queue_details-HasOrigin rounds s enabled) in
      origin

module _ {S : Type 0} (runtime : Runtime S) (l2 : L2QueueRepository S) where
  finished_same :
      {A : Type 0} (m : Result Error A × S) (f : A → S → S)
      → (and_then m (λ a s. (ok a, f a s))).0 ≡ m.0
  finished_same (ok a, s) f = refl
  finished_same (err e, s) f = refl
  finished_same (panicked, s) f = refl

  -- Creating and updating a queue through the shared cache return exactly what the source returns,
  -- whatever the cache does.
  pub writes-same :
      (queue : Queue) (id : Uuid) (configuration : QueueConfigurationUpdate) (s : S)
      → ((create_queue runtime l2 queue s).0 ≡ (l2.source.create_queue queue s).0)
        × ((update_queue runtime l2 id configuration s).0
            ≡ (l2.source.update_queue id configuration s).0)
  unfolding create_queue update_queue
  writes-same queue id configuration s = (finished_same _ _, finished_same _ _)

  module _ (cache : RedisProtocolCommands S) (enabled : l2.cache ≡ some cache) (d : QueueDetails)
      (value : Text) (encoded : runtime.to_vec (found d) ≡ inr value)
      (decodes : runtime.from_slice value ≡ inr (found d))
      (stored : (key : Text) (s : S)
        → (cache.get key (cache.set key value details_ttl s).1).0 ≡ inr (some value)) where
    inserted-read :
        (s : S) → (read runtime cache d.id (insert runtime cache d s).1).0 ≡ inr (some (found d))
    unfolding read insert details_key
    inserted-read s = rw (encoded, stored (details_key runtime d.id) s, decodes) refl

    written-queue_details :
        (rounds : ℕ) (s : S)
        → queue_details runtime l2 rounds d.id (write_through runtime l2 l2.cache d s)
          ≡ some (ok (some d), (read runtime cache d.id (insert runtime cache d s).1).1)
    unfolding queue_details
    written-queue_details rounds s = rw (enabled, inserted-read s) refl

    -- After an update that the source answered with details of the queue, a lookup with the shared
    -- cache on returns these details from the cache, when they can be encoded and decoded and the
    -- server returns what was just set.
    pub update_queue-found :
        (rounds : ℕ) (configuration : QueueConfigurationUpdate) (s s' : S)
        → l2.source.update_queue d.id configuration s ≡ (ok (some d), s')
        → queue_details runtime l2 rounds d.id (update_queue runtime l2 d.id configuration s).1
          ≡ some (ok (some d), (read runtime cache d.id (insert runtime cache d s').1).1)
    unfolding update_queue
    update_queue-found rounds configuration s s' updated =
        rw updated (written-queue_details rounds s')
