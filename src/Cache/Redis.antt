-- ===== src/Cache/Redis.antt =====
-- src/cache/redis_protocol.rs and the error of src/cache/mod.rs. The server is a parameter: what it
-- replies to a command.
use retsu.Base.{
  ℕ, ◌-◌, ◌^◌, Bool, true, false, Option, Text, ◌⊎◌, inl, inr, is_some, leb, if◌then◌else◌,
}

pub data CacheError : Type 0 where
  backend_failed : (source : Text) → CacheError

-- `Result<A, CacheError>`
abbrev pub Reply : Type 0 → Type 0
Reply A = CacheError ⊎ A

abbrev pub map_reply : {A B : Type 0} → (A → B) → Reply A → Reply B
map_reply f (inl e) = inl e
map_reply f (inr a) = inr (f a)

abbrev pub Command : Type 0 → Type 0 → Type 0
Command S A = S → Reply A × S

-- Times to live are in milliseconds.
pub record RedisProtocolCommands (S : Type 0) : Type 0 where
  pub get : (key : Text) → Command S (Option Text)
  pub set : (key value : Text) (ttl : ℕ) → Command S (Unit {0})
  pub set_if_absent : (key value : Text) (ttl : ℕ) → Command S Bool

-- The commands that the connection sends.
pub data ServerCommand : Type 0 where
  get : (key : Text) → ServerCommand
  set : (key value : Text) (only_if_absent : Bool) (px : ℕ) → ServerCommand

-- `u64::try_from(ttl.as_millis()).unwrap_or(u64::MAX)`
unfoldable pub ttl_milliseconds : ℕ → ℕ
ttl_milliseconds ttl = if leb ttl (2 ^ 64 - 1) then ttl else 2 ^ 64 - 1

abbrev pub replied : {S A B : Type 0} → (A → B) → Reply A × S → Reply B × S
replied f (r, s) = (map_reply f r, s)

-- `RedisProtocolCache`, by the function that sends a command and waits for its reply.
unfoldable pub redis_protocol :
    {S : Type 0} → (ServerCommand → Command S (Option Text)) → RedisProtocolCommands S
unfolding ttl_milliseconds
redis_protocol query = record {
  get = λ key s. query (get key) s;
  set = λ key value ttl s. replied (λ _. tt) (query (set key value false (ttl_milliseconds ttl)) s);
  set_if_absent =
      λ key value ttl s. replied is_some (query (set key value true (ttl_milliseconds ttl)) s);
}
