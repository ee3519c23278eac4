-- ===== src/Cache/Memory.antt =====
-- src/cache/memory.rs: the in-process cache and its policy. The `moka` cache is a parameter; the
-- metrics are left out.
use retsu.Base.{
  ℕ, ◌+◌, ◌/◌, ◌%◌, min, max, Option, none, some, Result, ok, err, panicked, Action, ltb, ◌==◌,
  if◌then◌else◌,
}

pub record MemoryCachePolicy : Type 0 where
  pub max_entries : ℕ
  pub max_capacity_bytes : ℕ

abbrev pub u32_max : ℕ
u32_max = 4_294_967_295

-- `MemoryCachePolicy::new`, whose two asserts panic.
unfoldable pub new_policy :
    {E : Type 0} (max_entries max_capacity_bytes : ℕ) → Result E MemoryCachePolicy
new_policy max_entries max_capacity_bytes =
    if ltb 0 max_entries
    then (if ltb 0 max_capacity_bytes
        then ok (record { max_entries = max_entries; max_capacity_bytes = max_capacity_bytes })
        else panicked)
    else panicked

-- `u64::div_ceil`
abbrev pub div_ceil : ℕ → ℕ → ℕ
div_ceil a b = if a % b == 0 then a / b else a / b + 1

-- `.clamp(1, u64::from(u32::MAX)) as u32`
unfoldable pub minimum_entry_weight : MemoryCachePolicy → ℕ
minimum_entry_weight policy =
    max 1 (min u32_max (div_ceil policy.max_capacity_bytes policy.max_entries))

-- The weight that the cache gives to an entry, by the weight of the caller's function.
unfoldable pub entry_weight : MemoryCachePolicy → (weight : ℕ) → ℕ
unfolding minimum_entry_weight
entry_weight policy weight = max weight (minimum_entry_weight policy)

pub data LoadFailure (E : Type 0) : Type 0 where
  not_found : LoadFailure E
  source_failed : E → LoadFailure E

-- `moka::future::Cache<K, Arc<V>>`, with loaders that fail as `E` says.
pub record MokaCache (S K V E : Type 0) : Type 0 where
  pub get : K → S → Option V × S
  pub try_get_with : K → Action S (LoadFailure E) V → Action S (LoadFailure E) V
  pub insert : K → V → S → S

module _ {V E : Type 0} where
  abbrev pub as_load : Result E (Option V) → Result (LoadFailure E) V
  as_load (ok (some value)) = ok value
  as_load (ok none) = err not_found
  as_load (err error) = err (source_failed error)
  as_load panicked = panicked

  abbrev pub of_load : Result (LoadFailure E) V → Result E (Option V)
  of_load (ok value) = ok (some value)
  of_load (err not_found) = ok none
  of_load (err (source_failed error)) = err error
  of_load panicked = panicked

  abbrev pub loading : {S : Type 0} → Action S E (Option V) → Action S (LoadFailure E) V
  loading loader s = let (r, s') = loader s in (as_load r, s')

module _ {S K V E : Type 0} where
  abbrev pub hit_or_load :
      MokaCache S K V E → K → Action S E (Option V) → Option V × S → Result E (Option V) × S
  hit_or_load inner key loader (some value, s) = (ok (some value), s)
  hit_or_load inner key loader (none, s) =
      let (r, s') = inner.try_get_with key (loading loader) s in (of_load r, s')

  unfoldable pub get_or_load : MokaCache S K V E → K → Action S E (Option V) → Action S E (Option V)
  get_or_load inner key loader s = hit_or_load inner key loader (inner.get key s)
