-- ===== src/Rollups/Replacement.antt =====
-- What the statements on queue_message make of its rows, counted by any test
-- (migrations/20260727190617_create_queue_priority_state_rollups.sql).

use retsu.Base.{
  ◌+◌, ◌≤◌, ◌≡◌, ap, refl, arith, Bool, true, false, not, List, [], ◌∷◌, ◌++◌, contains, keep_if,
  ◌==◌, Bool-cases, inl, inr, Memᴰ, Distinct, contains-Memᴰ,
}
use retsu.Postgres.Tables.{MessageRow, message_ids}
use retsu.Postgres.Dequeue.{replace_message}
use retsu.Rollups.Tallies.{unit_if, count}

-- The statement replaces the rows `old` by the rows `new`.
pub record Replaces (old new ms ms' : List MessageRow) : Type 0 where
  pub balance : (p : MessageRow → Bool) → count p ms' + count p old ≡ count p ms + count p new
  pub covered : (p : MessageRow → Bool) → count p old ≤ count p ms

-- Rows of a table that a statement adds, removes and changes.
module _ (p : MessageRow → Bool) where
  count-append : (ms ns : List MessageRow) → count p (ms ++ ns) ≡ count p ms + count p ns
  count-append [] ns = omega arith
  count-append (m ∷ ms) ns = omega (arith, count-append ms ns)

  count-parts :
      (test : MessageRow → Bool) (ms : List MessageRow)
      → count p (keep_if (λ m. not (test m)) ms) + count p (keep_if test ms) ≡ count p ms
  count-parts test [] = refl
  count-parts test (m ∷ ms) = elim (Bool-cases (test m)) [
    | inl e ↦ rw e (omega (arith, count-parts test ms))
    | inr e ↦ rw e (omega (arith, count-parts test ms))
  ]

  replace-absent :
      (n : MessageRow) (ms : List MessageRow)
      → contains (message_ids ms) n.id ≡ false
      → count p (replace_message n ms) ≡ count p ms
  replace-absent n [] h = refl
  replace-absent n (x ∷ ms) h =
      let other : (x.id == n.id) ≡ false = ground arith in
      rw other (omega (arith, replace-absent n ms (ground arith)))

  count-replace_message :
      (o n : MessageRow) (ms : List MessageRow)
      → n.id ≡ o.id
      → Memᴰ o ms
      → Distinct (message_ids ms)
      → count p (replace_message n ms) + unit_if (p o) ≡ count p ms + unit_if (p n)
  count-replace_message o n [] same m d = elim m [ ]
  count-replace_message o n (x ∷ ms) same (Memᴰ.head e) d =
      let here : (x.id == n.id) ≡ true = ground (arith, ap (λ y. y.id) e) in
      let absent : contains (message_ids ms) n.id ≡ false = rw (same, ap (λ y. y.id) e) d.0 in
      rw (here, e) (omega (arith, replace-absent n ms absent))
  count-replace_message o n (x ∷ ms) same (Memᴰ.tail m) d =
      let listed = contains-Memᴰ (λ y. y.id) m in
      let other : (x.id == n.id) ≡ false = ground arith in
      rw other (omega (arith, count-replace_message o n ms same m d.1))

  count-Memᴰ : {o : MessageRow} {ms : List MessageRow} → Memᴰ o ms → unit_if (p o) ≤ count p ms
  count-Memᴰ (Memᴰ.head e) = rw e (omega arith)
  count-Memᴰ (Memᴰ.tail m) = omega (arith, count-Memᴰ m)

pub insert-Replaces :
    (n : MessageRow) (ms : List MessageRow) → Replaces [] (n ∷ []) ms (ms ++ n ∷ [])
insert-Replaces n ms = record {
  balance = λ p. omega (arith, count-append p ms (n ∷ []));
  covered = λ p. omega arith;
}

pub delete-Replaces :
    (test : MessageRow → Bool) (ms : List MessageRow)
    → Replaces (keep_if test ms) [] ms (keep_if (λ m. not (test m)) ms)
delete-Replaces test ms = record {
  balance = λ p. omega (arith, count-parts p test ms);
  covered = λ p. omega (arith, count-parts p test ms);
}

pub replace-Replaces :
    (o n : MessageRow) (ms : List MessageRow)
    → n.id ≡ o.id
    → Memᴰ o ms
    → Distinct (message_ids ms)
    → Replaces (o ∷ []) (n ∷ []) ms (replace_message n ms)
replace-Replaces o n ms same m d = record {
  balance = λ p. omega (arith, count-replace_message p o n ms same m d);
  covered = λ p. omega (arith, count-Memᴰ p m);
}
