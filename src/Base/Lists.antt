-- ===== src/Base/Lists.antt =====
-- Lists measured by native numbers, filtered by Boolean tests, and predicates over their items.
use Prim.Native.Nat.{ℕ, zero, suc, ◌+◌, ◌≤◌, min}
use mathlib.Core.Path.{◌≡◌, refl, sym, ap, subst}
use mathlib.Core.Logic.{inl, inr}
use mathlib.Core.Bool.{Bool, true, not, ◌&&◌}
use mathlib.Core.List.{List, [], ◌∷◌, ◌++◌, map, Memᴰ, Perm, perm_middle}
use mathlib.Core.List.Perm
use mathlib.Core.Option.{Option, none, some}
use native.Mathlib.Omega.{arith}
use retsu.Base.Tests.{if◌then◌else◌, Bool-cases}

-- `LIMIT 1`
abbrev pub first_row {ℓ} : {A : Type ℓ} → List A → Option A
first_row [] = none
first_row (x ∷ xs) = some x

module _ {ℓ} {A : Type ℓ} where
  abbrev pub length : List A → ℕ
  length [] = 0
  length (x ∷ xs) = suc (length xs)

  pub length-append : (xs ys : List A) → length (xs ++ ys) ≡ length xs + length ys
  length-append [] ys = omega arith
  length-append (x ∷ xs) ys = omega (arith, length-append xs ys)

  abbrev pub take : ℕ → List A → List A
  take zero xs = []
  take (suc n) [] = []
  take (suc n) (x ∷ xs) = x ∷ take n xs

  pub length-take : (n : ℕ) (xs : List A) → length (take n xs) ≡ min n (length xs)
  length-take zero xs = omega arith
  length-take (suc n) [] = omega arith
  length-take (suc n) (x ∷ xs) = omega (arith, length-take n xs)

  abbrev pub all : (A → Bool) → List A → Bool
  all p [] = true
  all p (x ∷ xs) = p x && all p xs

  -- The rows that pass a test, in order.
  abbrev pub keep_if : (A → Bool) → List A → List A
  keep_if p [] = []
  keep_if p (x ∷ xs) = if p x then x ∷ keep_if p xs else keep_if p xs

  pub length-keep_if : (p : A → Bool) (xs : List A) → length (keep_if p xs) ≤ length xs
  length-keep_if p [] = omega arith
  length-keep_if p (x ∷ xs) = ground (arith, length-keep_if p xs)

  abbrev pub All {κ} : (A → Type κ) → List A → Type κ
  All P [] = Unit
  All P (x ∷ xs) = P x × All P xs

module _ {ℓ κ} {A : Type ℓ} (P : A → Type κ) where
  pub All-take : (n : ℕ) (xs : List A) → All P xs → All P (take n xs)
  All-take zero xs h = tt
  All-take (suc n) [] h = tt
  All-take (suc n) (x ∷ xs) h = (h.0, All-take n xs h.1)

  pub All-append : (xs ys : List A) → All P xs → All P ys → All P (xs ++ ys)
  All-append [] ys h k = k
  All-append (x ∷ xs) ys h k = (h.0, All-append xs ys h.1 k)

  pub All-keep_if : (p : A → Bool) (xs : List A) → All P xs → All P (keep_if p xs)
  All-keep_if p [] h = tt
  All-keep_if p (x ∷ xs) h = elim (Bool-cases (p x)) [
    | inl e ↦ rw e (h.0, All-keep_if p xs h.1)
    | inr e ↦ rw e (All-keep_if p xs h.1)
  ]

  pub All-Memᴰ : {x : A} {xs : List A} → All P xs → Memᴰ x xs → P x
  All-Memᴰ {x} h (Memᴰ.head e) = subst P (sym e) h.0
  All-Memᴰ h (Memᴰ.tail m) = All-Memᴰ h.1 m

module _ {ℓ} {A : Type ℓ} where
  Memᴰ-tails : (x : A) (ys xs : List A) → All (λ y. Memᴰ y xs) ys → All (λ y. Memᴰ y (x ∷ xs)) ys
  Memᴰ-tails x [] xs h = tt
  Memᴰ-tails x (y ∷ ys) xs h = (Memᴰ.tail h.0, Memᴰ-tails x ys xs h.1)

  -- Every item of a list is one of its members.
  pub All-members : (xs : List A) → All (λ x. Memᴰ x xs) xs
  All-members [] = tt
  All-members (x ∷ xs) = (Memᴰ.head refl, Memᴰ-tails x xs xs (All-members xs))

  pub All-keep_if_test : (p : A → Bool) (xs : List A) → All (λ x. p x ≡ true) (keep_if p xs)
  All-keep_if_test p [] = tt
  All-keep_if_test p (x ∷ xs) = elim (Bool-cases (p x)) [
    | inl e ↦ rw e (e, All-keep_if_test p xs)
    | inr e ↦ rw e (All-keep_if_test p xs)
  ]

  -- The rows that pass and the rows that fail make up the table.
  pub keep_if-perm :
      (p : A → Bool) (xs : List A) → Perm (keep_if p xs ++ keep_if (λ x. not (p x)) xs) xs
  keep_if-perm p [] = Perm.nil
  keep_if-perm p (x ∷ xs) = elim (Bool-cases (p x)) [
    | inl e ↦ rw e (Perm.cons x (keep_if-perm p xs))
    | inr e ↦ rw e (Perm.trans perm_middle' (Perm.cons x (keep_if-perm p xs)))
  ]
    where
      perm_middle' :
          Perm
            (keep_if p xs ++ (x ∷ keep_if (λ y. not (p y)) xs))
            (x ∷ (keep_if p xs ++ keep_if (λ y. not (p y)) xs))
      perm_middle' = perm_middle (keep_if p xs) (keep_if (λ y. not (p y)) xs)

  abbrev pub find : (A → Bool) → List A → Option A
  find p [] = none
  find p (x ∷ xs) = if p x then some x else find p xs

  pub find-Memᴰ :
      (p : A → Bool) (xs : List A) {x : A} → find p xs ≡ some x → Memᴰ x xs × (p x ≡ true)
  find-Memᴰ p [] e = cc
  find-Memᴰ p (y ∷ xs) {x} e = elim (Bool-cases (p y)) [
    | inl t ↦ let same : x ≡ y = ground arith in (Memᴰ.head same, rw same t)
    | inr t ↦ let (m, h) = find-Memᴰ p xs (rw t at e) in (Memᴰ.tail m, h)
  ]

module _ {ℓ κ μ} {A : Type ℓ} (P : A → Type κ) (Q : A → Type μ) where
  pub All-map : ((x : A) → P x → Q x) → (xs : List A) → All P xs → All Q xs
  All-map f [] h = tt
  All-map f (x ∷ xs) h = (f x h.0, All-map f xs h.1)

  pub All-both : (xs : List A) → All P xs → All Q xs → All (λ x. P x × Q x) xs
  All-both [] h k = tt
  All-both (x ∷ xs) h k = ((h.0, k.0), All-both xs h.1 k.1)

module _ {ℓ} {A : Type ℓ} (p : A → Bool) where
  -- What holds of the rows that pass a test holds of each row if it passes.
  pub keep_if-All_inv {κ} :
      (P : A → Type κ) (xs : List A) → All P (keep_if p xs) → All (λ x. p x ≡ true → P x) xs
  keep_if-All_inv P [] h = tt
  keep_if-All_inv P (x ∷ xs) h = elim (Bool-cases (p x)) [
    | inl e ↦
        let (hx, rest) : P x × All P (keep_if p xs) = rw e at h in
        (λ _. hx, keep_if-All_inv P xs rest)
    | inr e ↦ (λ t. absurd (cc (e, t)), keep_if-All_inv P xs (rw e at h))
  ]

module _ {ℓ κ} {A : Type ℓ} (P : A → Type κ) where
  pub All-first : (xs : List A) {m : A} → first_row xs ≡ some m → All P xs → P m
  All-first [] e h = absurd (cc)
  All-first (x ∷ xs) {m} e h = let same : x ≡ m = cc in rw (← same) h.0

  pub All-none : (xs : List A) → first_row xs ≡ none → All P xs
  All-none [] e = tt
  All-none (x ∷ xs) e = absurd (cc)

module _ {ℓ} {A : Type ℓ} where
  pub Memᴰ-keep_if :
      (p : A → Bool) (xs : List A) {x : A} → Memᴰ x xs → p x ≡ true → Memᴰ x (keep_if p xs)
  Memᴰ-keep_if p [] m e = elim m [ ]
  Memᴰ-keep_if p (y ∷ xs) {x} (Memᴰ.head same) e = rw (← same, e) (Memᴰ.head refl)
  Memᴰ-keep_if p (y ∷ xs) (Memᴰ.tail m) e = elim (Bool-cases (p y)) [
    | inl t ↦ rw t (Memᴰ.tail (Memᴰ-keep_if p xs m e))
    | inr t ↦ rw t (Memᴰ-keep_if p xs m e)
  ]

  pub Memᴰ-map {κ} :
      {B : Type κ} (f : A → B) {x : A} {xs : List A} → Memᴰ x xs → Memᴰ (f x) (map f xs)
  Memᴰ-map f (Memᴰ.head same) = Memᴰ.head (ap f same)
  Memᴰ-map f (Memᴰ.tail m) = Memᴰ.tail (Memᴰ-map f m)
