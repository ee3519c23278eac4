-- ===== src/Base/Selection.antt =====
-- Rows that a statement selects: those that pass a test and no one has locked, in an order, up to a
-- limit; and the rows of a table that a list of keys picks.
use Prim.Native.Nat.{ℕ, ◌≤◌}
use mathlib.Core.Path.{◌≡◌, subst}
use mathlib.Core.Bool.{Bool, true, not}
use mathlib.Core.List.{List, map, Memᴰ}
use native.Mathlib.Omega.{arith}
use retsu.Base.Lists.{
  keep_if, take, length, length-take, All, All-take, All-keep_if, All-both, All-members,
  All-keep_if_test, All-Memᴰ, All-map,
}
use retsu.Base.Keys.{contains, contains-key, Distinct, key_unique, length-picked, length-map}
use retsu.Base.Sorting.{order_by, order_by-All}

module _ {A : Type 0} (key : A → ℕ) (test : A → Bool) (before : A → A → Bool) (locked : A → Bool)
    (limit : ℕ) (rows : List A) where
  abbrev pub selected : List A
  selected = take limit (order_by before (keep_if (λ x. not (locked x)) (keep_if test rows)))

  abbrev IsSelectable : A → Type 0
  IsSelectable x = Memᴰ x rows × (test x ≡ true)

  selected-All : All IsSelectable selected
  selected-All = All-take IsSelectable limit _ (
      order_by-All before IsSelectable _ (
        All-keep_if IsSelectable (λ x. not (locked x)) _
          (All-both (λ x. Memᴰ x rows) (λ x. test x ≡ true) (keep_if test rows)
            (All-keep_if (λ x. Memᴰ x rows) test rows (All-members rows))
            (All-keep_if_test test rows))))

  module _ (distinct : Distinct (map key rows)) where
    -- A row with a selected key is the selected row, so it passes the test.
    pub picked-test :
        (x : A) → Memᴰ x rows → contains (map key selected) (key x) ≡ true → test x ≡ true
    picked-test x listed picked =
        let (v, chosen, same_key) = contains-key key selected (key x) picked in
        let (v_listed, passed) = All-Memᴰ IsSelectable selected-All chosen in
        let same =
          All-Memᴰ (λ y. key y ≡ key x → y ≡ x) (key_unique key rows distinct listed) v_listed
            same_key in
        subst (λ y. test y ≡ true) same passed

    pub picked-All :
        All (λ x. test x ≡ true) (keep_if (λ x. contains (map key selected) (key x)) rows)
    picked-All =
        All-map (λ x. Memᴰ x rows × (contains (map key selected) (key x) ≡ true)) _
          (λ x h. picked-test x h.0 h.1) _
          (All-both (λ x. Memᴰ x rows) (λ x. contains (map key selected) (key x) ≡ true) _
            (All-keep_if (λ x. Memᴰ x rows) _ rows (All-members rows))
            (All-keep_if_test (λ x. contains (map key selected) (key x)) rows))

    pub length-picked_limit :
        length (keep_if (λ x. contains (map key selected) (key x)) rows) ≤ limit
    length-picked_limit = ground (
      arith,
      length-picked key (map key selected) rows distinct,
      length-map key selected,
      length-take limit (order_by before (keep_if (λ x. not (locked x)) (keep_if test rows))),
    )
