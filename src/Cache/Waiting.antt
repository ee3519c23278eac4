-- ===== src/Cache/Waiting.antt =====
-- The loop in which a client of the shared cache waits for the lock of a load: it ends.
use retsu.Base.{
  ℕ, zero, suc, ◌+◌, ◌-◌, ◌*◌, ◌≤◌, ◌<◌, Bool, true, false, Option, none, some, is_some, Text, ◌≡◌,
  refl, inl, inr, bytes, arith,
}
use retsu.Domain.Message.{Uuid}
use retsu.Cache.Redis.{Reply, RedisProtocolCommands}
use retsu.Cache.Shared.{
  Runtime, L2QueueRepository, CachedQueueDetails, details_key, load_lock_key, read, after_read,
  attempt, wait_for_load, queue_details, Answer, load_lock_ttl, load_retry_interval, load_and_cache,
}

module _ {S : Type 0} (runtime : Runtime S) (l2 : L2QueueRepository S)
    (cache : RedisProtocolCommands S) (id : Uuid) (remaining : S → ℕ) where
  -- The lock expires: `remaining` is how many milliseconds it still stands. A refused client finds
  -- one that stands, reading does not prolong it, and sleeping lets that much of it pass.
  pub record LockExpires : Type 0 where
    pub refused :
        (s : S)
        → (cache.set_if_absent (load_lock_key runtime id) (bytes "1") load_lock_ttl s).0 ≡ inr false
        → 0 < remaining s
    pub kept :
        (s : S)
        → (cache.set_if_absent (load_lock_key runtime id) (bytes "1") load_lock_ttl s).0 ≡ inr false
        → remaining (cache.set_if_absent (load_lock_key runtime id) (bytes "1") load_lock_ttl s).1
          ≤ remaining s
    pub slept :
        (duration : ℕ) (s : S) → remaining (runtime.sleep duration s) ≤ remaining s - duration
    pub after_get : (key : Text) (s : S) → remaining (cache.get key s).1 ≤ remaining s

  shorter :
      (rounds a b c d : ℕ)
      → 0 < a
      → b ≤ a
      → c ≤ b - load_retry_interval
      → d ≤ c
      → a + load_retry_interval ≤ load_retry_interval * suc rounds
      → d + load_retry_interval ≤ load_retry_interval * rounds
  shorter rounds a b c d h i j k l = omega arith

  module _ (expires : LockExpires) where
    -- Every way on ends, or it needs the next round, which does.
    after_read-is_some :
        (r : Reply (Option CachedQueueDetails)) (on_miss : S → Option (Answer S)) (s : S)
        → is_some (on_miss s) ≡ true
        → is_some (after_read runtime l2 cache id r on_miss s) ≡ true
    after_read-is_some (inl e) on_miss s h = refl
    after_read-is_some (inr (some d)) on_miss s h = refl
    after_read-is_some (inr none) on_miss s h = h

    attempt-is_some :
        (locked : Reply Bool) (retry : S → Option (Answer S)) (s : S)
        → (locked ≡ inr false
            → is_some (retry (read runtime cache id (runtime.sleep load_retry_interval s)).1)
              ≡ true)
        → is_some (attempt runtime l2 cache id locked retry s) ≡ true
    attempt-is_some (inl e) retry s h = refl
    attempt-is_some (inr true) retry s h =
        after_read-is_some (read runtime cache id s).0
          (λ x. some (load_and_cache runtime l2 cache id x)) (read runtime cache id s).1 refl
    attempt-is_some (inr false) retry s h =
        let slept = runtime.sleep load_retry_interval s in
        after_read-is_some (read runtime cache id slept).0 retry (read runtime cache id slept).1
          (h refl)

    wait_for_load-is_some :
        (rounds : ℕ) (s : S)
        → remaining s + load_retry_interval ≤ load_retry_interval * rounds
        → is_some (wait_for_load runtime l2 cache id rounds s) ≡ true
    unfolding wait_for_load read
    wait_for_load-is_some zero s h = absurd (omega arith)
    wait_for_load-is_some (suc rounds) s h =
        let s1 = (cache.set_if_absent (load_lock_key runtime id) (bytes "1") load_lock_ttl s).1 in
        let s2 = runtime.sleep load_retry_interval s1 in
        attempt-is_some
          (cache.set_if_absent (load_lock_key runtime id) (bytes "1") load_lock_ttl s).0
          (wait_for_load runtime l2 cache id rounds) s1
          λ refused. wait_for_load-is_some rounds (read runtime cache id s2).1 (
            shorter rounds _ _ _ _ (expires.refused s refused) (expires.kept s refused)
              (expires.slept load_retry_interval s1) (expires.after_get (details_key runtime id) s2)
              h)

    -- With the shared cache on, a lookup ends within 201 rounds of its loop, when the lock of the
    -- queue stands for no more than its 2000 milliseconds, a refusal means that it stands and does
    -- not prolong it, reading does not prolong it, and sleeping lets it pass.
    pub queue_details-is_some :
        (rounds : ℕ) (s : S)
        → l2.cache ≡ some cache
        → remaining s ≤ load_lock_ttl
        → 200 < rounds
        → is_some (queue_details runtime l2 rounds id s) ≡ true
    unfolding queue_details read
    queue_details-is_some rounds s enabled standing enough = rw enabled (
        after_read-is_some (read runtime cache id s).0 (wait_for_load runtime l2 cache id rounds)
          (read runtime cache id s).1
          (wait_for_load-is_some rounds _
            (omega (arith, expires.after_get (details_key runtime id) s))))

-- More rounds than an answer took do not change it.
module _ {S : Type 0} (runtime : Runtime S) (l2 : L2QueueRepository S)
    (cache : RedisProtocolCommands S) (id : Uuid) where
  abbrev Extends : (S → Option (Answer S)) → (S → Option (Answer S)) → Type 0
  Extends f g = (s : S) (a : Answer S) → f s ≡ some a → g s ≡ some a

  after_read-Extends :
      (r : Reply (Option CachedQueueDetails)) (f g : S → Option (Answer S))
      → Extends f g
      → Extends (after_read runtime l2 cache id r f) (after_read runtime l2 cache id r g)
  after_read-Extends (inl e) f g h s a eq = eq
  after_read-Extends (inr (some d)) f g h s a eq = eq
  after_read-Extends (inr none) f g h s a eq = h s a eq

  attempt-Extends :
      (locked : Reply Bool) (f g : S → Option (Answer S))
      → Extends f g
      → Extends (attempt runtime l2 cache id locked f) (attempt runtime l2 cache id locked g)
  attempt-Extends (inl e) f g h s a eq = eq
  attempt-Extends (inr true) f g h s a eq = eq
  attempt-Extends (inr false) f g h s a eq =
      let slept = runtime.sleep load_retry_interval s in
      after_read-Extends (read runtime cache id slept).0 f g h (read runtime cache id slept).1 a eq

  wait_for_load-Extends :
      (rounds more : ℕ)
      → rounds ≤ more
      → Extends (wait_for_load runtime l2 cache id rounds) (wait_for_load runtime l2 cache id more)
  unfolding wait_for_load
  wait_for_load-Extends zero more le s a eq = absurd (cc)
  wait_for_load-Extends (suc rounds) zero le s a eq = absurd (omega arith)
  wait_for_load-Extends (suc rounds) (suc more) le s a eq =
      let (locked, s1) =
        cache.set_if_absent (load_lock_key runtime id) (bytes "1") load_lock_ttl s in
      attempt-Extends locked (wait_for_load runtime l2 cache id rounds)
        (wait_for_load runtime l2 cache id more) (wait_for_load-Extends rounds more (omega arith))
        s1 a eq

  pub queue_details-more :
      (rounds more : ℕ) (s : S) {a : Answer S}
      → l2.cache ≡ some cache
      → queue_details runtime l2 rounds id s ≡ some a
      → rounds ≤ more
      → queue_details runtime l2 more id s ≡ some a
  unfolding queue_details
  queue_details-more rounds more s {a} enabled eq le = rw enabled (
      after_read-Extends (read runtime cache id s).0 (wait_for_load runtime l2 cache id rounds)
        (wait_for_load runtime l2 cache id more) (wait_for_load-Extends rounds more le)
        (read runtime cache id s).1 a (rw enabled at eq))
