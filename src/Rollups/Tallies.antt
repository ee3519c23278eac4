-- ===== src/Rollups/Tallies.antt =====
-- What the changes of a trigger add up to, column by column
-- (migrations/20260727190617_create_queue_priority_state_rollups.sql).
use retsu.Base.{
  ℕ, ◌+◌, ◌≡◌, ◌∙◌, ap, sym, refl, arith, Bool, true, false, ◌&&◌, List, [], ◌∷◌, if◌then◌else◌,
  Bool-cases, inl, inr, All,
}
use retsu.Postgres.Tables.{MessageState, ready, in_flight, MessageRow}
use retsu.Rollups.Shards.{ShardKey, Delta, Change, key_of, same_key, delta}
use retsu.Rollups.Trigger.{one_up, one_down, no_change, join_group, tally, same_state}

abbrev pub unit_if : Bool → ℕ
unit_if b = if b then 1 else 0

abbrev pub count {ℓ} : {A : Type ℓ} → (A → Bool) → List A → ℕ
count p [] = 0
count p (x ∷ xs) = unit_if (p x) + count p xs

abbrev pub up_of : Delta → ℕ
up_of d = d.up

abbrev pub down_of : Delta → ℕ
down_of d = d.down

-- The messages of a state whose keys pass a test.
abbrev pub counts_in : MessageState → (ShardKey → Bool) → MessageRow → Bool
counts_in col among m = among (key_of m) && same_state col m.state

-- One side of a column's changes, over the keys that pass a test.
abbrev pub moved : (Delta → ℕ) → MessageState → (ShardKey → Bool) → List Change → ℕ
moved side col among [] = 0
moved side col among (c ∷ cs) =
    (if among c.key then side (delta col c) else 0) + moved side col among cs

abbrev pub IsApart : ShardKey → Change → Type 0
IsApart key c = same_key key c.key ≡ false

-- No two changes have one key.
abbrev pub Apart : List Change → Type 0
Apart [] = Unit
Apart (c ∷ cs) = All (IsApart c.key) cs × Apart cs

pub same_key-≡ : (a b : ShardKey) → same_key a b ≡ true → a ≡ b
same_key-≡ a b h =
    let q : a.queue_id ≡ b.queue_id = ground arith in
    let p : a.priority ≡ b.priority = ground arith in let n : a.shard ≡ b.shard = ground arith in cc

pub same_key_refl : (a : ShardKey) → same_key a a ≡ true
same_key_refl a = ground arith

pub same_key_sym : (a b : ShardKey) → same_key a b ≡ same_key b a
same_key_sym a b = ground arith

module _ (step : Change → Change) (key : ShardKey)
    (keeps : (c : Change) → (step c).key ≡ c.key) where
  join_group-All :
      (P : ShardKey → Type 0) (cs : List Change)
      → P key
      → All (λ c. P c.key) cs
      → All (λ c. P c.key) (join_group step key cs)
  unfolding join_group
  join_group-All P [] h a = (rw (keeps (no_change key)) h, tt)
  join_group-All P (c ∷ cs) h a = elim (Bool-cases (same_key key c.key)) [
    | inl e ↦ rw e (rw (keeps c) a.0, a.1)
    | inr e ↦ rw e (a.0, join_group-All P cs h a.1)
  ]

  join_group-Apart : (cs : List Change) → Apart cs → Apart (join_group step key cs)
  unfolding join_group
  join_group-Apart [] a = (tt, tt)
  join_group-Apart (c ∷ cs) a = elim (Bool-cases (same_key key c.key)) [
    | inl e ↦ rw e (rw (keeps c) a.0, a.1)
    | inr e ↦ rw e (
      join_group-All (λ k. same_key c.key k ≡ false) cs (same_key_sym c.key key ∙ e) a.0,
      join_group-Apart cs a.1,
    )
  ]

  module _ (side : Delta → ℕ) (col : MessageState) (gain : ℕ)
      (gains : (c : Change) → side (delta col (step c)) ≡ gain + side (delta col c))
      (starts : side (delta col (no_change key)) ≡ 0) where
    moved-join_group :
        (among : ShardKey → Bool) (cs : List Change)
        → moved side col among (join_group step key cs)
          ≡ (if among key then gain else 0) + moved side col among cs
    unfolding join_group
    moved-join_group among [] =
        let same : (step (no_change key)).key ≡ key = keeps (no_change key) in
        let first : side (delta col (step (no_change key))) ≡ gain + 0 =
          gains (no_change key) ∙ ap (λ n. gain + n) starts in
        simp (same, first) (ground arith)
    moved-join_group among (c ∷ cs) = elim (Bool-cases (same_key key c.key)) [
      | inl e ↦
          let same : c.key ≡ key = sym (same_key-≡ key c.key e) in
          rw e (simp (keeps c ∙ same, same, gains c) (ground arith))
      | inr e ↦ rw e (omega (arith, moved-join_group among cs))
    ]

one_up_key : (st : MessageState) (c : Change) → (one_up st c).key ≡ c.key
one_up_key ready c = refl
one_up_key in_flight c = refl

one_down_key : (st : MessageState) (c : Change) → (one_down st c).key ≡ c.key
one_down_key ready c = refl
one_down_key in_flight c = refl

one_up_gain :
    (col st : MessageState) (c : Change)
    → (delta col (one_up st c)).up ≡ unit_if (same_state col st) + (delta col c).up
one_up_gain ready ready c = omega arith
one_up_gain ready in_flight c = omega arith
one_up_gain in_flight ready c = omega arith
one_up_gain in_flight in_flight c = omega arith

one_up_other :
    (col st : MessageState) (c : Change) → (delta col (one_up st c)).down ≡ 0 + (delta col c).down
one_up_other ready ready c = omega arith
one_up_other ready in_flight c = omega arith
one_up_other in_flight ready c = omega arith
one_up_other in_flight in_flight c = omega arith

one_down_gain :
    (col st : MessageState) (c : Change)
    → (delta col (one_down st c)).down ≡ unit_if (same_state col st) + (delta col c).down
one_down_gain ready ready c = omega arith
one_down_gain ready in_flight c = omega arith
one_down_gain in_flight ready c = omega arith
one_down_gain in_flight in_flight c = omega arith

one_down_other :
    (col st : MessageState) (c : Change) → (delta col (one_down st c)).up ≡ 0 + (delta col c).up
one_down_other ready ready c = omega arith
one_down_other ready in_flight c = omega arith
one_down_other in_flight ready c = omega arith
one_down_other in_flight in_flight c = omega arith

none_yet :
    (col : MessageState) (key : ShardKey) → delta col (no_change key) ≡ record { up = 0; down = 0 }
none_yet ready key = refl
none_yet in_flight key = refl

counted : (p q : Bool) (n : ℕ) → (if p then unit_if q else 0) + n ≡ unit_if (p && q) + n
counted true q n = refl
counted false q n = refl

idle : (p : Bool) (n : ℕ) → (if p then 0 else 0) + n ≡ n
idle true n = omega arith
idle false n = omega arith

-- The changes add up to the new rows and take away the old ones.
pub moved-tally :
    (col : MessageState) (among : ShardKey → Bool) (old new : List MessageRow)
    → (moved up_of col among (tally old new) ≡ count (counts_in col among) new)
      × (moved down_of col among (tally old new) ≡ count (counts_in col among) old)
unfolding tally
moved-tally col among [] [] = (refl, refl)
moved-tally col among [] (n ∷ ns) =
    let (ups, downs) = moved-tally col among [] ns in
    let keeps = one_up_key n.state in
    let key = key_of n in
    (
      moved-join_group (one_up n.state) key keeps up_of col (unit_if (same_state col n.state))
            (one_up_gain col n.state) (ap up_of (none_yet col key)) among (tally [] ns)
          ∙ counted (among key) (same_state col n.state) _
          ∙ ap (λ x. unit_if (counts_in col among n) + x) ups,
      moved-join_group (one_up n.state) key keeps down_of col 0 (one_up_other col n.state)
            (ap down_of (none_yet col key)) among (tally [] ns)
          ∙ idle (among key) _
          ∙ downs,
    )
moved-tally col among (o ∷ os) ns =
    let (ups, downs) = moved-tally col among os ns in
    let keeps = one_down_key o.state in
    let key = key_of o in
    (
      moved-join_group (one_down o.state) key keeps up_of col 0 (one_down_other col o.state)
            (ap up_of (none_yet col key)) among (tally os ns)
          ∙ idle (among key) _
          ∙ ups,
      moved-join_group (one_down o.state) key keeps down_of col (unit_if (same_state col o.state))
            (one_down_gain col o.state) (ap down_of (none_yet col key)) among (tally os ns)
          ∙ counted (among key) (same_state col o.state) _
          ∙ ap (λ x. unit_if (counts_in col among o) + x) downs,
    )

pub tally-Apart : (old new : List MessageRow) → Apart (tally old new)
unfolding tally
tally-Apart [] [] = tt
tally-Apart [] (n ∷ ns) =
    join_group-Apart (one_up n.state) (key_of n) (one_up_key n.state) _ (tally-Apart [] ns)
tally-Apart (o ∷ os) ns =
    join_group-Apart (one_down o.state) (key_of o) (one_down_key o.state) _ (tally-Apart os ns)

-- Each change is of the key of a row.
pub tally-All :
    (P : ShardKey → Type 0) (old new : List MessageRow)
    → All (λ m. P (key_of m)) old
    → All (λ m. P (key_of m)) new
    → All (λ c. P c.key) (tally old new)
unfolding tally
tally-All P [] [] a b = tt
tally-All P [] (n ∷ ns) a b =
    join_group-All (one_up n.state) (key_of n) (one_up_key n.state) P _ b.0
      (tally-All P [] ns tt b.1)
tally-All P (o ∷ os) ns a b =
    join_group-All (one_down o.state) (key_of o) (one_down_key o.state) P _ a.0
      (tally-All P os ns a.1 b)
