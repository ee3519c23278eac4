-- ===== src/Cache/Tests/Rig.antt =====
-- A cache server that is a function from keys to values with one lock, a JSON that writes numbers
-- as bytes, and a source with one queue.
use retsu.Base.{
  ℕ, ◌-◌, ◌≤◌, ◌<◌, true, false, Option, none, some, Text, ◌≡◌, refl, sym, ap, inl, inr, [], ◌∷◌,
  ◌⊎◌, ok, err, bytes, arith, ltb, ◌==◌, ==_iff, if◌then◌else◌, same, same_iff, Bool-cases,
  unwrap_or, ◌∙◌,
}
use retsu.Domain.Message.{Uuid}
use retsu.Domain.Queue.{QueueDetails}
use retsu.Repository.{statement_failed, QueueRepository, created, queue_not_found, unchanged}
use retsu.Cache.Redis.{Reply, backend_failed, RedisProtocolCommands}
use retsu.Cache.Shared.{
  CachedQueueDetails, found, missing, Runtime, L2QueueRepository, load_lock_key, load_lock_ttl,
}
use retsu.Cache.Keys.{PrintsUuids}
use retsu.Cache.Coherence.{SharedCacheLaws}
use retsu.Cache.Waiting.{LockExpires}

pub record Server : Type 0 where
  pub values : Text → Option Text
  pub locked_for : ℕ

abbrev pub held : Server → Text → Option Text
held s key = s.values key

abbrev pub put : Text → Text → Server → Server
put key value s = record s { values = λ k. if same k key then some value else s.values k }

abbrev pub server_cache : RedisProtocolCommands Server
server_cache = record {
  get = λ key s. (inr (s.values key), s);
  set = λ key value ttl s. (inr tt, put key value s);
  set_if_absent = λ key value ttl s.
      if ltb 0 s.locked_for then (inr false, s) else (inr true, record s { locked_for = ttl });
}

abbrev pub encode : CachedQueueDetails → Text
encode (found d) =
    1 ∷ d.id ∷ d.visibility_timeout_seconds ∷ d.max_delivery_attempts
    ∷ d.default_message_ttl_seconds ∷ d.name
encode missing = 0 ∷ []

-- 1 is the tag of `Found`.
abbrev pub tagged : ℕ → Text → Reply CachedQueueDetails
tagged tag (id ∷ visibility ∷ attempts ∷ ttl ∷ name) =
    if tag == 1
    then inr (
        found (record {
          id = id;
          name = name;
          visibility_timeout_seconds = visibility;
          max_delivery_attempts = attempts;
          default_message_ttl_seconds = ttl;
        }))
    else inl (backend_failed [])
tagged tag _ = inr missing

abbrev pub from_slice : Text → Reply CachedQueueDetails
from_slice [] = inl (backend_failed [])
from_slice (tag ∷ rest) = tagged tag rest

abbrev pub runtime : Runtime Server
runtime = record {
  to_vec = λ d. inr (encode d);
  from_slice = from_slice;
  display = λ id. id ∷ bytes "-000-0000-0000-0000-000000000000000";
  sleep = λ duration s. record s { locked_for = s.locked_for - duration };
}

abbrev pub jobs : QueueDetails
jobs = record {
  id = 7;
  name = bytes "jobs";
  visibility_timeout_seconds = 30;
  max_delivery_attempts = 5;
  default_message_ttl_seconds = 604_800;
}

-- The source has the queue `jobs`, and refuses every message.
abbrev pub source : QueueRepository Server
source = record {
  create_queue = λ queue s. (ok created, s);
  queue_name = λ id s. (ok (if id == 7 then some jobs.name else none), s);
  queue_details = λ id s. (ok (if id == 7 then some jobs else none), s);
  update_queue = λ id configuration s. (ok (if id == 7 then some jobs else none), s);
  enqueue_message = λ id message ttl s. (err statement_failed, s);
  dequeue_message = λ id handle s. (ok queue_not_found, s);
  acknowledge_message = λ id message_id handle s. (ok unchanged, s);
  process_expired_messages = λ batch_size s. (ok [], s);
  purge_dead_letter_messages = λ retention batch_size s. (ok [], s);
}

abbrev pub l2 : L2QueueRepository Server
l2 = record { source = source; cache = some server_cache }

abbrev pub IsAnswer : Uuid → Option QueueDetails → Type 0
IsAnswer id d = d ≡ (if id == 7 then some jobs else none)

pub prints : PrintsUuids runtime
prints = record { injective = λ a b h. cc h; width = λ a. refl }

round_trip : (d : CachedQueueDetails) → from_slice (encode d) ≡ inr d
round_trip (found d) = refl
round_trip missing = refl

put_left :
    (key value : Text) (s : Server) (k v : Text)
    → held (put key value s) k ≡ some v
    → (held s k ≡ some v) ⊎ ((k ≡ key) × (v ≡ value))
put_left key value s k v h = elim (Bool-cases (same k key)) [
  | inl e ↦ inr ((same_iff k key).0 e, sym (cc (rw e at h)))
  | inr e ↦ inl (rw e at h)
]

set_if_absent_left :
    (ttl : ℕ) (s : Server) (k v value key : Text)
    → held (server_cache.set_if_absent key value ttl s).1 k ≡ some v
    → held s k ≡ some v
set_if_absent_left ttl s k v value key h = elim (Bool-cases (ltb 0 s.locked_for)) [
  | inl e ↦ rw e at h
  | inr e ↦ rw e at h
]

its_queue : (id : Uuid) (d : QueueDetails) → IsAnswer id (some d) → d.id ≡ id
its_queue id d h = elim (Bool-cases (id == 7)) [
  | inl e ↦
      let same : some d ≡ some jobs = rw e at h in
      ap (λ o. (unwrap_or o jobs).id) same ∙ sym ((==_iff id 7).0 e)
  | inr e ↦ let none' : some d ≡ none = rw e at h in absurd (cc)
]

pub laws : SharedCacheLaws runtime l2 server_cache held IsAnswer
laws = record {
  prints = prints;
  round_trip = λ d value h. let same : encode d ≡ value = cc h in rw⁻¹ same (round_trip d);
  get_held = λ key value s h. cc h;
  get_left = λ key s k v h. inl h;
  set_left = λ key value ttl s k v h. elim (put_left key value s k v h) [
    | inl was ↦ inl (inl was)
    | inr here ↦ inr here
  ];
  set_if_absent_left =
      λ key value ttl s k v h. inl (inl (set_if_absent_left ttl s k v value key h));
  sleep_left = λ duration s k v h. inl h;
  source_left = λ id s k v h. inl h;
  source_right = λ id s d h. sym (cc h);
  about_its_queue = its_queue;
}

refused :
    (s : Server) (key value : Text) (ttl : ℕ)
    → (server_cache.set_if_absent key value ttl s).0 ≡ inr false
    → (0 < s.locked_for)
      × ((server_cache.set_if_absent key value ttl s).1.locked_for ≤ s.locked_for)
refused s key value ttl h = elim (Bool-cases (ltb 0 s.locked_for)) [
  | inl e ↦ rw e (ground arith, omega arith)
  | inr e ↦ let bad : inr true ≡ inr false = rw e at h in absurd (cc bad)
]

pub expires : LockExpires runtime l2 server_cache 7 (λ s. s.locked_for)
expires = record {
  refused = λ s h. (refused s (load_lock_key runtime 7) (bytes "1") load_lock_ttl h).0;
  kept = λ s h. (refused s (load_lock_key runtime 7) (bytes "1") load_lock_ttl h).1;
  slept = λ duration s. omega arith;
  after_get = λ key s. omega arith;
}
