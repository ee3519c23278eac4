-- ===== src/Base/Keys.antt =====
-- Keys of rows: membership tests, and lists of rows in which no key occurs twice.
use Prim.Native.Nat.{ℕ, ◌+◌, ◌≤◌}
use mathlib.Core.Path.{◌≡◌, refl, ap, sym, ◌∙◌}
use mathlib.Core.Logic.{inl, inr, ◌≢◌}
use mathlib.Core.Bool.{Bool, true, false, ◌||◌}
use mathlib.Core.List.{List, [], ◌∷◌, ◌++◌, map, Memᴰ}
use native.Mathlib.Omega.{arith}
use retsu.Base.Tests.{◌==◌, ==_iff, Bool-cases}
use retsu.Base.Lists.{keep_if, length, All, All-map}

abbrev pub contains : List ℕ → ℕ → Bool
contains [] k = false
contains (x ∷ xs) k = x == k || contains xs k

-- No key occurs twice.
abbrev pub Distinct : List ℕ → Type 0
Distinct [] = Unit
Distinct (x ∷ xs) = (contains xs x ≡ false) × Distinct xs

pub contains-append :
    (xs ys : List ℕ) (k : ℕ) → contains (xs ++ ys) k ≡ contains xs k || contains ys k
contains-append [] ys k = refl
contains-append (x ∷ xs) ys k = ground (arith, contains-append xs ys k)

pub Distinct-append :
    (xs : List ℕ) (k : ℕ) → Distinct xs → contains xs k ≡ false → Distinct (xs ++ k ∷ [])
Distinct-append [] k d h = (refl, tt)
Distinct-append (x ∷ xs) k d h =
    (ground (arith, contains-append xs (k ∷ []) x), Distinct-append xs k d.1 (ground arith))

module _ {ℓ} {A : Type ℓ} (key : A → ℕ) where
  pub contains-keep_if :
      (p : A → Bool) (xs : List A) (k : ℕ)
      → contains (map key xs) k ≡ false
      → contains (map key (keep_if p xs)) k ≡ false
  contains-keep_if p [] k h = refl
  contains-keep_if p (x ∷ xs) k h = ground (arith, contains-keep_if p xs k)

  pub Distinct-keep_if :
      (p : A → Bool) (xs : List A) → Distinct (map key xs) → Distinct (map key (keep_if p xs))
  Distinct-keep_if p [] d = tt
  Distinct-keep_if p (x ∷ xs) d = elim (Bool-cases (p x)) [
    | inl e ↦ rw e (contains-keep_if p xs (key x) d.0, Distinct-keep_if p xs d.1)
    | inr e ↦ rw e (Distinct-keep_if p xs d.1)
  ]

  pub no_key : (k : ℕ) (xs : List A) → contains (map key xs) k ≡ false → All (λ x. key x ≢ k) xs
  no_key k [] h = tt
  no_key k (x ∷ xs) h = (ground arith, no_key k xs (ground arith))

  pub contains-Memᴰ : {x : A} {xs : List A} → Memᴰ x xs → contains (map key xs) (key x) ≡ true
  contains-Memᴰ (Memᴰ.head e) = ground (arith, ap key e)
  contains-Memᴰ (Memᴰ.tail m) = ground (arith, contains-Memᴰ m)

  -- Two rows of a table with one key are one row.
  pub key_unique :
      (xs : List A) {x : A}
      → Distinct (map key xs)
      → Memᴰ x xs
      → All (λ y. key y ≡ key x → y ≡ x) xs
  key_unique [] d m = elim m [ ]
  key_unique (y ∷ xs) {x} d (Memᴰ.head e) = (
    λ _. sym e,
    All-map (λ z. key z ≢ key y) (λ z. key z ≡ key x → z ≡ x) (λ z n k. absurd (n (k ∙ ap key e)))
        xs (no_key (key y) xs d.0),
  )
  key_unique (y ∷ xs) {x} d (Memᴰ.tail m) =
      (λ k. absurd (cc (d.0, ap (contains (map key xs)) k, contains-Memᴰ m)), key_unique xs d.1 m)

module _ {ℓ κ} {A : Type ℓ} {K : Type κ} (key : A → K) where
  pub length-map : (xs : List A) → length (map key xs) ≡ length xs
  length-map [] = refl
  length-map (x ∷ xs) = ground (arith, length-map xs)

  -- A change of rows that keeps the keys.
  pub map-key_same :
      (f : A → A) (xs : List A) → All (λ x. key (f x) ≡ key x) xs → map key (map f xs) ≡ map key xs
  map-key_same f [] h = refl
  map-key_same f (x ∷ xs) h = cc (h.0, map-key_same f xs h.1)

module _ {ℓ κ} {A : Type ℓ} (P : A → Type κ) where
  -- A change of rows that keeps a property.
  pub All-change :
      (f : A → A) → ((x : A) → P x → P (f x)) → (xs : List A) → All P xs → All P (map f xs)
  All-change f h [] a = tt
  All-change f h (x ∷ xs) a = (h x a.0, All-change f h xs a.1)

module _ {ℓ} {A : Type ℓ} (key : A → ℕ) where
  -- The row behind a key of a list.
  pub contains-key :
      (xs : List A) (k : ℕ) → contains (map key xs) k ≡ true → (x : A) × Memᴰ x xs × (key x ≡ k)
  contains-key [] k h = absurd cc
  contains-key (x ∷ xs) k h = elim (Bool-cases (key x == k)) [
    | inl e ↦ (x, Memᴰ.head refl, (==_iff _ _).0 e)
    | inr e ↦ let (y, m, same) = contains-key xs k (rw e at h) in (y, Memᴰ.tail m, same)
  ]

  absent :
      (k : ℕ) (xs : List A)
      → contains (map key xs) k ≡ false
      → length (keep_if (λ x. k == key x) xs) ≡ 0
  absent k [] h = refl
  absent k (x ∷ xs) h = ground (arith, absent k xs (ground arith))

  once : (k : ℕ) (xs : List A) → Distinct (map key xs) → length (keep_if (λ x. k == key x) xs) ≤ 1
  once k [] d = omega arith
  once k (x ∷ xs) d = elim (Bool-cases (k == key x)) [
    | inl e ↦ let same = (==_iff _ _).0 e in ground (arith, absent k xs (rw same d.0))
    | inr e ↦ rw e (once k xs d.1)
  ]

  either :
      (p q : A → Bool) (xs : List A)
      → length (keep_if (λ x. p x || q x) xs) ≤ length (keep_if p xs) + length (keep_if q xs)
  either p q [] = omega arith
  either p q (x ∷ xs) = ground (arith, either p q xs)

  none_kept : (xs : List A) → length (keep_if (λ x. false) xs) ≡ 0
  none_kept [] = refl
  none_kept (x ∷ xs) = none_kept xs

  -- A list of keys picks at most as many rows as it has keys.
  pub length-picked :
      (ks : List ℕ) (xs : List A)
      → Distinct (map key xs)
      → length (keep_if (λ x. contains ks (key x)) xs) ≤ length ks
  length-picked [] xs d = rw (none_kept xs) (omega arith)
  length-picked (k ∷ ks) xs d =
      let both = either (λ x. k == key x) (λ x. contains ks (key x)) xs in
      let one = once k xs d in let rest = length-picked ks xs d in omega arith
