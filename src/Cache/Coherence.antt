-- ===== src/Cache/Coherence.antt =====
-- What an entry of the shared cache says stays right: every lookup answers what the source would.
use retsu.Base.{
  ℕ, zero, suc, Bool, true, false, Option, none, some, Text, ◌≡◌, refl, subst, sym, ◌⊎◌, inl, inr,
  Result, bytes, and_then, ok, err, panicked,
}
use retsu.Domain.Message.{Uuid}
use retsu.Domain.Queue.{Queue, details, QueueDetails, QueueConfigurationUpdate}
use retsu.Repository.{Error, CreateQueueOutcome, created, already_exists}
use retsu.Cache.Redis.{Reply, map_reply, RedisProtocolCommands}
use retsu.Cache.Shared.{
  Runtime, L2QueueRepository, CachedQueueDetails, found, missing, into_details, details_key,
  load_lock_key, decoded, read, send, write, insert, populate, load_and_cache, after_read, attempt,
  wait_for_load, queue_details, Answer, details_ttl, missing_ttl, load_lock_ttl, update_queue,
  create_queue, load_retry_interval, write_through, write_updated, write_created,
}
use retsu.Cache.Keys.{PrintsUuids, details_key-injective, load_lock_key-apart}

map_reply-eq-inr :
    (r : Reply CachedQueueDetails) {d : CachedQueueDetails}
    → map_reply some r ≡ inr (some d)
    → r ≡ inr d
map_reply-eq-inr (inl e) h = absurd (cc)
map_reply-eq-inr (inr d') h = cc

module _ {S : Type 0} (runtime : Runtime S) (l2 : L2QueueRepository S)
    (cache : RedisProtocolCommands S) (held : S → Text → Option Text)
    (IsAnswer : Uuid → Option QueueDetails → Type 0) where
  -- A value that may stand at a key: an entry that it encodes is an answer about its queue.
  abbrev pub IsTrue : Text → Text → Type 0
  IsTrue key value =
      (queue_id : Uuid) (d : CachedQueueDetails)
      → key ≡ details_key runtime queue_id
      → runtime.from_slice value ≡ inr d
      → IsAnswer queue_id (into_details d)

  abbrev pub IsCoherent : S → Type 0
  IsCoherent s = (key value : Text) → held s key ≡ some value → IsTrue key value

  -- A value that was there before, or that another client of the cache wrote.
  abbrev WasThere : S → Text → Text → Type 0
  WasThere s key value = (held s key ≡ some value) ⊎ IsTrue key value

  -- No value stands in `s'` but those of `s` and of other clients.
  abbrev pub AddsNothing : S → S → Type 0
  AddsNothing s s' = (key value : Text) → held s' key ≡ some value → WasThere s key value

  -- No value but those, and `v` at `k`.
  abbrev pub AddsOnly : Text → Text → S → S → Type 0
  AddsOnly k v s s' =
      (key value : Text)
      → held s' key ≡ some value
      → WasThere s key value ⊎ ((key ≡ k) × (value ≡ v))

  -- Redis stores what it is sent, may drop a value at any time, and replies with what it holds; JSON
  -- reads back what it wrote; the source answers rightly, and does not touch the cache.
  pub record SharedCacheLaws : Type 0 where
    pub prints : PrintsUuids runtime
    pub round_trip :
        (d : CachedQueueDetails) (value : Text)
        → runtime.to_vec d ≡ inr value
        → runtime.from_slice value ≡ inr d
    pub get_held :
        (key value : Text) (s : S)
        → (cache.get key s).0 ≡ inr (some value)
        → held s key ≡ some value
    pub get_left : (key : Text) (s : S) → AddsNothing s (cache.get key s).1
    pub set_left :
        (key value : Text) (ttl : ℕ) (s : S) → AddsOnly key value s (cache.set key value ttl s).1
    pub set_if_absent_left :
        (key value : Text) (ttl : ℕ) (s : S)
        → AddsOnly key value s (cache.set_if_absent key value ttl s).1
    pub sleep_left : (duration : ℕ) (s : S) → AddsNothing s (runtime.sleep duration s)
    pub source_left : (id : Uuid) (s : S) → AddsNothing s (l2.source.queue_details id s).1
    pub source_right :
        (id : Uuid) (s : S) (d : Option QueueDetails)
        → (l2.source.queue_details id s).0 ≡ ok d
        → IsAnswer id d
    pub about_its_queue : (id : Uuid) (d : QueueDetails) → IsAnswer id (some d) → d.id ≡ id

  module _ (laws : SharedCacheLaws) where
    nothing-IsCoherent : {s s' : S} → AddsNothing s s' → IsCoherent s → IsCoherent s'
    nothing-IsCoherent h c key value e = elim (h key value e) [
      | inl was ↦ c key value was
      | inr other ↦ other
    ]

    only-IsCoherent :
        {k v : Text} {s s' : S} → AddsOnly k v s s' → IsTrue k v → IsCoherent s → IsCoherent s'
    only-IsCoherent h right c key value e = elim (h key value e) [
      | inl (inl was) ↦ c key value was
      | inl (inr other) ↦ other
      | inr here ↦ rw (here.0, here.1) right
    ]

    written-IsTrue :
        (id : Uuid) (d : CachedQueueDetails) (value : Text)
        → IsAnswer id (into_details d)
        → runtime.to_vec d ≡ inr value
        → IsTrue (details_key runtime id) value
    written-IsTrue id d value right e id' d' key reads =
        let same = details_key-injective runtime laws.prints id id' key in
        let entry : d ≡ d' = cc (reads, laws.round_trip d value e) in rw⁻¹ (same, entry) right

    send-IsCoherent :
        (id : Uuid) (d : CachedQueueDetails) (ttl : ℕ) (r : Reply Text) (s : S)
        → IsAnswer id (into_details d)
        → runtime.to_vec d ≡ r
        → IsCoherent s
        → IsCoherent (send runtime cache (details_key runtime id) ttl r s).1
    send-IsCoherent id d ttl (inl e) s right h c = c
    send-IsCoherent id d ttl (inr v) s right h c =
        only-IsCoherent (laws.set_left _ v ttl s) (written-IsTrue id d v right h) c

    -- An entry that is an answer may be written.
    pub write-IsCoherent :
        (id : Uuid) (d : CachedQueueDetails) (ttl : ℕ) (s : S)
        → IsAnswer id (into_details d)
        → IsCoherent s
        → IsCoherent (write runtime cache id d ttl s).1
    unfolding write
    write-IsCoherent id d ttl s right c = send-IsCoherent id d ttl (runtime.to_vec d) s right refl c

    pub insert-IsCoherent :
        (d : QueueDetails) (s : S)
        → IsAnswer d.id (some d)
        → IsCoherent s
        → IsCoherent (insert runtime cache d s).1
    unfolding insert
    insert-IsCoherent d s right c = write-IsCoherent d.id (found d) details_ttl s right c

    -- The answer is right, and the cache stays coherent.
    abbrev pub IsGood : Uuid → Option (Answer S) → Type 0
    IsGood id none = Unit
    IsGood id (some (r, s)) = ((d : Option QueueDetails) → r ≡ ok d → IsAnswer id d) × IsCoherent s

    source-IsGood :
        (id : Uuid) (s : S) → IsCoherent s → IsGood id (some (l2.source.queue_details id s))
    source-IsGood id s c = (laws.source_right id s, nothing-IsCoherent (laws.source_left id s) c)

    populate-IsCoherent :
        (id : Uuid) (r : Result Error (Option QueueDetails)) (s : S)
        → ((d : Option QueueDetails) → r ≡ ok d → IsAnswer id d)
        → IsCoherent s
        → IsCoherent (populate runtime l2 cache id r s)
    populate-IsCoherent id (ok (some d)) s right c =
        let answer = right (some d) refl in
        insert-IsCoherent d s
          (subst (λ i. IsAnswer i (some d)) (sym (laws.about_its_queue id d answer)) answer) c
    populate-IsCoherent id (ok none) s right c =
        write-IsCoherent id missing missing_ttl s (right none refl) c
    populate-IsCoherent id (err e) s right c = c
    populate-IsCoherent id panicked s right c = c

    load_and_cache-IsGood :
        (id : Uuid) (s : S) → IsCoherent s → IsGood id (some (load_and_cache runtime l2 cache id s))
    unfolding load_and_cache
    load_and_cache-IsGood id s c =
        let right = laws.source_right id s in
        (right, populate-IsCoherent id _ _ right (nothing-IsCoherent (laws.source_left id s) c))

    read-IsCoherent : (id : Uuid) (s : S) → IsCoherent s → IsCoherent (read runtime cache id s).1
    unfolding read
    read-IsCoherent id s c = nothing-IsCoherent (laws.get_left (details_key runtime id) s) c

    entry-IsAnswer :
        (id : Uuid) (r : Reply (Option Text)) (d : CachedQueueDetails)
        → ((v : Text) → r ≡ inr (some v) → IsTrue (details_key runtime id) v)
        → decoded runtime r ≡ inr (some d)
        → IsAnswer id (into_details d)
    entry-IsAnswer id (inl e) d h eq = absurd (cc)
    entry-IsAnswer id (inr none) d h eq = absurd (cc)
    entry-IsAnswer id (inr (some v)) d h eq =
        h v refl id d refl (map_reply-eq-inr (runtime.from_slice v) eq)

    read-IsAnswer :
        (id : Uuid) (s : S)
        → IsCoherent s
        → (d : CachedQueueDetails) → (read runtime cache id s).0 ≡ inr (some d)
        → IsAnswer id (into_details d)
    unfolding read
    read-IsAnswer id s c d =
        entry-IsAnswer id (cache.get (details_key runtime id) s).0 d
          (λ v e. c (details_key runtime id) v (laws.get_held (details_key runtime id) v s e))

    after_read-IsGood :
        (id : Uuid) (r : Reply (Option CachedQueueDetails)) (on_miss : S → Option (Answer S))
        (s : S)
        → ((d : CachedQueueDetails) → r ≡ inr (some d) → IsAnswer id (into_details d))
        → IsCoherent s
        → ((s' : S) → IsCoherent s' → IsGood id (on_miss s'))
        → IsGood id (after_read runtime l2 cache id r on_miss s)
    after_read-IsGood id (inl e) on_miss s right c next = source-IsGood id s c
    after_read-IsGood id (inr (some d)) on_miss s right c next =
        (λ d' e. subst (IsAnswer id) (cc e) (right d refl), c)
    after_read-IsGood id (inr none) on_miss s right c next = next s c

    attempt-IsGood :
        (id : Uuid) (locked : Reply Bool) (retry : S → Option (Answer S)) (s : S)
        → IsCoherent s
        → ((s' : S) → IsCoherent s' → IsGood id (retry s'))
        → IsGood id (attempt runtime l2 cache id locked retry s)
    attempt-IsGood id (inl e) retry s c next = source-IsGood id s c
    attempt-IsGood id (inr true) retry s c next =
        after_read-IsGood id _ _ _ (read-IsAnswer id s c) (read-IsCoherent id s c)
          (load_and_cache-IsGood id)
    attempt-IsGood id (inr false) retry s c next =
        let slept = nothing-IsCoherent (laws.sleep_left load_retry_interval s) c in
        after_read-IsGood id _ retry _ (read-IsAnswer id _ slept) (read-IsCoherent id _ slept) next

    lock-IsTrue : (id : Uuid) (value : Text) → IsTrue (load_lock_key runtime id) value
    lock-IsTrue id value id' d key reads =
        absurd (load_lock_key-apart runtime laws.prints id id' key)

    wait_for_load-IsGood :
        (rounds : ℕ) (id : Uuid) (s : S)
        → IsCoherent s
        → IsGood id (wait_for_load runtime l2 cache id rounds s)
    unfolding wait_for_load
    wait_for_load-IsGood zero id s c = tt
    wait_for_load-IsGood (suc rounds) id s c =
        attempt-IsGood id _ _ _
          (only-IsCoherent (laws.set_if_absent_left _ _ load_lock_ttl s)
            (lock-IsTrue id (bytes "1")) c)
          (wait_for_load-IsGood rounds id)

    module _ (enabled : l2.cache ≡ some cache) where
      queue_details-IsGood :
          (rounds : ℕ) (id : Uuid) (s : S)
          → IsCoherent s
          → IsGood id (queue_details runtime l2 rounds id s)
      unfolding queue_details
      queue_details-IsGood rounds id s c = rw enabled (
          after_read-IsGood id _ _ _ (read-IsAnswer id s c) (read-IsCoherent id s c)
            (wait_for_load-IsGood rounds id))

      -- With the shared cache on, a lookup that returns details, or that there are none, gives an
      -- answer that the source could give about that queue, and leaves only such answers in the
      -- cache: when only such answers were in it, the source answers rightly and does not touch
      -- the cache, other clients write right answers only, the server holds nothing but what it
      -- was sent, JSON reads back what it wrote, and identifiers are printed in 36 characters and
      -- differently.
      pub queue_details-IsAnswer :
          (rounds : ℕ) (id : Uuid) (s : S) {d : Option QueueDetails} {s' : S}
          → IsCoherent s
          → queue_details runtime l2 rounds id s ≡ some (ok d, s')
          → IsAnswer id d × IsCoherent s'
      queue_details-IsAnswer rounds id s {d} {s'} c returned =
          let good : IsGood id (some (ok d, s')) =
            rw returned at (queue_details-IsGood rounds id s c) in
          (good.0 d refl, good.1)

      write_through-IsCoherent :
          (d : QueueDetails) (s : S)
          → IsAnswer d.id (some d)
          → IsCoherent s
          → IsCoherent (write_through runtime l2 l2.cache d s)
      write_through-IsCoherent d s right c = rw enabled (insert-IsCoherent d s right c)

      updated-IsCoherent :
          (r : Answer S)
          → ((d : QueueDetails) → r.0 ≡ ok (some d) → IsAnswer d.id (some d))
          → IsCoherent r.1
          → IsCoherent (and_then r (λ d s. (ok d, write_updated runtime l2 d s))).1
      updated-IsCoherent (ok none, s) right c = c
      updated-IsCoherent (ok (some d), s) right c = write_through-IsCoherent d s (right d refl) c
      updated-IsCoherent (err e, s) right c = c
      updated-IsCoherent (panicked, s) right c = c

      created-IsCoherent :
          (queue : Queue) (r : Result Error CreateQueueOutcome × S)
          → (r.0 ≡ ok created → IsAnswer queue.id (some (details queue)))
          → IsCoherent r.1
          → IsCoherent (and_then r (λ o s. (ok o, write_created runtime l2 o queue s))).1
      created-IsCoherent queue (ok created, s) right c =
          write_through-IsCoherent (details queue) s (right refl) c
      created-IsCoherent queue (ok already_exists, s) right c = c
      created-IsCoherent queue (err e, s) right c = c
      created-IsCoherent queue (panicked, s) right c = c

      pub update_queue-IsCoherent :
          (id : Uuid) (configuration : QueueConfigurationUpdate) (s : S)
          → AddsNothing s (l2.source.update_queue id configuration s).1
          → ((d : QueueDetails)
              → (l2.source.update_queue id configuration s).0 ≡ ok (some d)
              → IsAnswer d.id (some d))
          → IsCoherent s
          → IsCoherent (update_queue runtime l2 id configuration s).1
      unfolding update_queue
      update_queue-IsCoherent id configuration s left right c =
          updated-IsCoherent _ right (nothing-IsCoherent left c)

      pub create_queue-IsCoherent :
          (queue : Queue) (s : S)
          → AddsNothing s (l2.source.create_queue queue s).1
          → ((l2.source.create_queue queue s).0 ≡ ok created
              → IsAnswer queue.id (some (details queue)))
          → IsCoherent s
          → IsCoherent (create_queue runtime l2 queue s).1
      unfolding create_queue
      create_queue-IsCoherent queue s left right c =
          created-IsCoherent queue _ right (nothing-IsCoherent left c)
