-- ===== src/Cache/Weights.antt =====
-- The weights of the in-process cache: its capacity in bytes also bounds its number of entries.
use retsu.Base.{
  ℕ, zero, suc, ◌*◌, ◌/◌, ◌%◌, ◌≤◌, ◌<◌, List, [], ◌∷◌, ◌≡◌, ok, length, arith, Bool-cases, inl,
  inr, ◌==◌,
}
use native.Mathlib.Nat.{div-add-mod, mod-lt, le_of_mul-le-mul_left, mul-le-mul_left}
use retsu.Repository.{sum_of}
use retsu.Cache.Memory.{
  MemoryCachePolicy, new_policy, div_ceil, minimum_entry_weight, entry_weight, u32_max,
}

le-div_ceil : (a b : ℕ) → 0 < b → a ≤ b * div_ceil a b
le-div_ceil a b h = elim (Bool-cases (a % b == 0)) [
  | inl e ↦ rw e (grind (arith, div-add-mod a b))
  | inr e ↦ rw e (grind (arith, div-add-mod a b, mod-lt a h))
]

le_times : (b q : ℕ) → 0 < b → q ≤ b * q
le_times zero q h = absurd (omega arith)
le_times (suc b) q h = omega arith

div_ceil-le : (a b : ℕ) → 0 < b → a ≤ u32_max → div_ceil a b ≤ u32_max
div_ceil-le a b h k =
    let more = le_times b (a / b) h in
    elim (Bool-cases (a % b == 0)) [
      | inl e ↦ rw e (grind (arith, div-add-mod a b))
      | inr e ↦ rw e (grind (arith, div-add-mod a b))
    ]

minimum_entry_weight-bounds :
    (policy : MemoryCachePolicy)
    → (0 < minimum_entry_weight policy) × (minimum_entry_weight policy ≤ u32_max)
unfolding minimum_entry_weight
minimum_entry_weight-bounds policy = (omega arith, omega arith)

capacity-le :
    (policy : MemoryCachePolicy)
    → 0 < policy.max_entries
    → policy.max_capacity_bytes ≤ u32_max
    → policy.max_capacity_bytes ≤ minimum_entry_weight policy * policy.max_entries
unfolding minimum_entry_weight
capacity-le policy h k =
    let least = div_ceil-le policy.max_capacity_bytes policy.max_entries h k in
    let weight : div_ceil policy.max_capacity_bytes policy.max_entries
        ≤ minimum_entry_weight policy =
      omega arith in
    omega (
      arith,
      le-div_ceil policy.max_capacity_bytes policy.max_entries h,
      mul-le-mul_left policy.max_entries weight,
    )

entry_weight-least :
    (policy : MemoryCachePolicy) (weight : ℕ)
    → minimum_entry_weight policy ≤ entry_weight policy weight
unfolding entry_weight
entry_weight-least policy weight = omega arith

length-weights :
    (policy : MemoryCachePolicy) (weights : List ℕ)
    → minimum_entry_weight policy * length weights ≤ sum_of (entry_weight policy) weights
length-weights policy [] = omega arith
length-weights policy (w ∷ ws) =
    let rest = length-weights policy ws in
    let here : minimum_entry_weight policy ≤ entry_weight policy w = entry_weight-least policy w in
    omega arith

new_policy-made :
    (max_entries max_capacity_bytes : ℕ) {policy : MemoryCachePolicy}
    → new_policy {E = Unit} max_entries max_capacity_bytes ≡ ok policy
    → (0 < max_entries)
      × (policy.max_entries ≡ max_entries)
      × (policy.max_capacity_bytes ≡ max_capacity_bytes)
unfolding new_policy
new_policy-made max_entries max_capacity_bytes made = ground arith

pub entries-le-max_entries :
    (max_entries max_capacity_bytes : ℕ) {policy : MemoryCachePolicy} (weights : List ℕ)
    → max_capacity_bytes ≤ u32_max
    → new_policy {E = Unit} max_entries max_capacity_bytes ≡ ok policy
    → sum_of (entry_weight policy) weights ≤ max_capacity_bytes
    → length weights ≤ max_entries
entries-le-max_entries max_entries max_capacity_bytes {policy} weights small made full =
    let (positive, entries, capacity) = new_policy-made max_entries max_capacity_bytes made in
    let weighed = length-weights policy weights in
    let room = capacity-le policy (omega arith) (omega arith) in
    let total : minimum_entry_weight policy * length weights
        ≤ minimum_entry_weight policy * policy.max_entries =
      omega arith in
    omega (arith, le_of_mul-le-mul_left total (minimum_entry_weight-bounds policy).0)
