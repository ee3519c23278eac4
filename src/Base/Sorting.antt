-- ===== src/Base/Sorting.antt =====
-- `ORDER BY … LIMIT n` over a list of rows: insertion sort, and what its first row is.
use mathlib.Core.Path.{◌≡◌, subst}
use mathlib.Core.Logic.{inl, inr}
use mathlib.Core.Bool.{Bool, true, false}
use mathlib.Core.List.{List, [], ◌∷◌, Perm}
use mathlib.Core.List.Perm
use mathlib.Core.Option.{some}
use retsu.Base.Tests.{if◌then◌else◌, Bool-cases}
use retsu.Base.Lists.{first_row, All}

module _ {ℓ} {A : Type ℓ} (before : A → A → Bool) where
  unfoldable pub insert_row : A → List A → List A
  insert_row x [] = x ∷ []
  insert_row x (y ∷ ys) = if before x y then x ∷ y ∷ ys else y ∷ insert_row x ys

  unfoldable pub order_by : List A → List A
  unfolding insert_row
  order_by [] = []
  order_by (x ∷ xs) = insert_row x (order_by xs)

module _ {ℓ} {A : Type ℓ} (before : A → A → Bool) where
  insert_row-perm : (x : A) (ys : List A) → Perm (insert_row before x ys) (x ∷ ys)
  unfolding insert_row
  insert_row-perm x [] = Perm.refl _
  insert_row-perm x (y ∷ ys) = elim (Bool-cases (before x y)) [
    | inl e ↦ rw e (Perm.refl _)
    | inr e ↦ rw e (Perm.trans (Perm.cons y (insert_row-perm x ys)) (Perm.swap x y ys))
  ]

  pub order_by-perm : (xs : List A) → Perm (order_by before xs) xs
  unfolding order_by
  order_by-perm [] = Perm.nil
  order_by-perm (x ∷ xs) =
      Perm.trans (insert_row-perm x (order_by before xs)) (Perm.cons x (order_by-perm xs))

  module _ {κ} (P : A → Type κ) where
    insert_row-All : (x : A) (ys : List A) → P x → All P ys → All P (insert_row before x ys)
    unfolding insert_row
    insert_row-All x [] p h = (p, tt)
    insert_row-All x (y ∷ ys) p h = elim (Bool-cases (before x y)) [
      | inl e ↦ rw e (p, h)
      | inr e ↦ rw e (h.0, insert_row-All x ys p h.1)
    ]

    pub order_by-All : (xs : List A) → All P xs → All P (order_by before xs)
    unfolding order_by
    order_by-All [] h = tt
    order_by-All (x ∷ xs) h = insert_row-All x _ h.0 (order_by-All xs h.1)

    insert_row-All_inv : (x : A) (ys : List A) → All P (insert_row before x ys) → P x × All P ys
    unfolding insert_row
    insert_row-All_inv x [] h = (h.0, tt)
    insert_row-All_inv x (y ∷ ys) h = elim (Bool-cases (before x y)) [
      | inl e ↦ rw e at h
      | inr e ↦
          let (hy, rest) : P y × All P (insert_row before x ys) = rw e at h in
          let (hx, hys) = insert_row-All_inv x ys rest in (hx, (hy, hys))
    ]

    pub order_by-All_inv : (xs : List A) → All P (order_by before xs) → All P xs
    unfolding order_by
    order_by-All_inv [] h = tt
    order_by-All_inv (x ∷ xs) h =
        let (hx, rest) = insert_row-All_inv x (order_by before xs) h in
        (hx, order_by-All_inv xs rest)

  -- Every row stands before all that follow it.
  abbrev pub Sorted : List A → Type ℓ
  Sorted [] = Unit
  Sorted (x ∷ xs) = All (λ y. before x y ≡ true) xs × Sorted xs

-- An order that is total and transitive.
pub record IsOrder {ℓ} {A : Type ℓ} (before : A → A → Bool) : Type ℓ where
  pub total : (a b : A) → before a b ≡ false → before b a ≡ true
  pub trans : (a b c : A) → before a b ≡ true → before b c ≡ true → before a c ≡ true

module _ {ℓ} {A : Type ℓ} (before : A → A → Bool) (o : IsOrder before) where
  before_refl : (a : A) → before a a ≡ true
  before_refl a = elim (Bool-cases (before a a)) [ inl e ↦ e | inr e ↦ o.total a a e ]

  All-trans :
      (x y : A) (ys : List A)
      → before x y ≡ true
      → All (λ z. before y z ≡ true) ys
      → All (λ z. before x z ≡ true) ys
  All-trans x y [] e h = tt
  All-trans x y (z ∷ zs) e h = (o.trans x y z e h.0, All-trans x y zs e h.1)

  insert_row-Sorted :
      (x : A) (ys : List A) → Sorted before ys → Sorted before (insert_row before x ys)
  unfolding insert_row
  insert_row-Sorted x [] h = (tt, tt)
  insert_row-Sorted x (y ∷ ys) h = elim (Bool-cases (before x y)) [
    | inl e ↦ rw e ((e, All-trans x y ys e h.0), h)
    | inr e ↦ rw e (
      insert_row-All before (λ z. before y z ≡ true) x ys (o.total x y e) h.0,
      insert_row-Sorted x ys h.1,
    )
  ]

  pub order_by-Sorted : (xs : List A) → Sorted before (order_by before xs)
  unfolding order_by
  order_by-Sorted [] = tt
  order_by-Sorted (x ∷ xs) = insert_row-Sorted x _ (order_by-Sorted xs)

  -- The first row of `ORDER BY` stands before every row.
  pub first_row-least :
      (xs : List A) {y : A}
      → first_row (order_by before xs) ≡ some y
      → All (λ x. before y x ≡ true) xs
  first_row-least xs {y} e =
      order_by-All_inv before (λ x. before y x ≡ true) xs
        (go (order_by before xs) (order_by-Sorted xs) e)
    where
      go :
          (zs : List A) → Sorted before zs → first_row zs ≡ some y → All (λ x. before y x ≡ true) zs
      go [] s e' = tt
      go (z ∷ zs) s e' =
          let same : z ≡ y = cc in
          subst (λ w. All (λ x. before w x ≡ true) (z ∷ zs)) same (before_refl z, s.0)
