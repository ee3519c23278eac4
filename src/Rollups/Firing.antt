-- ===== src/Rollups/Firing.antt =====
-- The trigger keeps the counts in step with the messages, statement by statement
-- (migrations/20260727190617_create_queue_priority_state_rollups.sql).

use retsu.Base.{
  ◌+◌, ◌%◌, ◌≤◌, ◌≡◌, ap, refl, arith, Bool, true, some, List, [], ◌∷◌, contains, keep_if,
  Bool-cases, inl, inr, All, All-map, All-keep_if, All-members, Memᴰ,
}
use retsu.Domain.Message.{Uuid}
use retsu.Postgres.Tables.{MessageState, ready, in_flight, MessageRow, message_checks}
use retsu.Rollups.Shards.{ShardKey, ShardRow, Change, key_of, same_key, adjust_all}
use retsu.Rollups.Trigger.{
  Dml, inserted, deleted, updated, tally, has_effect, any_moved, is_unmoved, same_state, changes,
}
use retsu.Rollups.Tallies.{
  up_of, down_of, unit_if, count, counts_in, moved, moved-tally, tally-Apart, tally-All,
}
use retsu.Rollups.Having.{moved-keep_if, keep_if-Apart, moved-member}
use retsu.Rollups.Adjustment.{stored, total, Balances, IsCovered, IsKnown, adjust_all-Balances}
use retsu.Rollups.Replacement.{Replaces}

-- The counts are those of the messages: each row, and each sum of rows.
pub record Agrees (rows : List ShardRow) (ms : List MessageRow) : Type 0 where
  pub each :
      (col : MessageState) (key : ShardKey)
      → stored col key rows ≡ count (counts_in col (same_key key)) ms
  pub sums :
      (col : MessageState) (among : ShardKey → Bool)
      → total col among rows ≡ count (counts_in col among) ms

abbrev pub IsKeyed : List Uuid → MessageRow → Type 0
IsKeyed known m = IsKnown known (key_of m)

module _ (known : List Uuid) (old new ms ms' : List MessageRow) (r : Replaces old new ms ms')
    (keyed_old : All (IsKeyed known) old) (keyed_new : All (IsKeyed known) new)
    (rows : List ShardRow) (a : Agrees rows ms) where
  tally-IsCovered : All (IsCovered rows) (tally old new)
  tally-IsCovered =
      All-map (λ c. Memᴰ c (tally old new)) (IsCovered rows)
        (λ c m col.
          let few = moved-member down_of col m in
          let same = (moved-tally col (same_key c.key) old new).1 in
          let all = r.covered (counts_in col (same_key c.key)) in
          let held = a.each col c.key in omega (arith, few, same, all, held))
        (tally old new) (All-members (tally old new))

  balanced-Agrees :
      (cs : List Change) (rows' : List ShardRow)
      → ((col : MessageState) (among : ShardKey → Bool)
          → moved up_of col among cs + count (counts_in col among) old
            ≡ count (counts_in col among) new + moved down_of col among cs)
      → Balances cs rows rows'
      → Agrees rows' ms'
  balanced-Agrees cs rows' even b = record {
    each = λ col key. omega (
      arith,
      b.each col key,
      a.each col key,
      even col (same_key key),
      r.balance (counts_in col (same_key key)),
    );
    sums = λ col among. omega (
      arith,
      b.sums col among,
      a.sums col among,
      even col among,
      r.balance (counts_in col among),
    );
  }

  tally-fires :
      (rows' : List ShardRow) × (adjust_all known (tally old new) rows ≡ some rows')
      × Agrees rows' ms'
  tally-fires =
      let (rows', ran, b) =
        adjust_all-Balances known (tally old new) (tally-Apart old new)
          (tally-All (IsKnown known) old new keyed_old keyed_new) rows tally-IsCovered in
      (
        rows',
        ran,
        balanced-Agrees (tally old new) rows'
            (λ col among.
              let (ups, downs) = moved-tally col among old new in omega (arith, ups, downs))
            b,
      )

  kept-fires :
      (rows' : List ShardRow) × (adjust_all known (keep_if has_effect (tally old new)) rows
        ≡ some rows')
      × Agrees rows' ms'
  kept-fires =
      let cs = keep_if has_effect (tally old new) in
      let (rows', ran, b) =
        adjust_all-Balances known cs
          (keep_if-Apart has_effect (tally old new) (tally-Apart old new))
          (All-keep_if (λ c. IsKnown known c.key) has_effect (tally old new)
            (tally-All (IsKnown known) old new keyed_old keyed_new))
          rows (All-keep_if (IsCovered rows) has_effect (tally old new) tally-IsCovered) in
      (
        rows',
        ran,
        balanced-Agrees cs rows'
            (λ col among.
              let (ups, downs) = moved-tally col among old new in
              let kept = moved-keep_if col among (tally old new) in omega (arith, ups, downs, kept))
            b,
      )

-- A trigger runs, and its counts agree with the messages that its statement leaves.
abbrev pub Fires : List Uuid → Dml → List ShardRow → List MessageRow → Type 0
Fires known d rows ms' =
    (rows' : List ShardRow) × (adjust_all known (changes d) rows ≡ some rows') × Agrees rows' ms'

same_state-≡ : (a b : MessageState) → same_state a b ≡ true → a ≡ b
same_state-≡ ready ready h = refl
same_state-≡ in_flight in_flight h = refl
same_state-≡ ready in_flight h = absurd cc
same_state-≡ in_flight ready h = absurd cc

unmoved-counts :
    (col : MessageState) (among : ShardKey → Bool) (o n : MessageRow)
    → is_unmoved o n ≡ true
    → counts_in col among n ≡ counts_in col among o
unmoved-counts col among o n h =
    let i : n.id ≡ o.id = ground arith in
    let q : n.queue_id ≡ o.queue_id = ground arith in
    let p : n.priority ≡ o.priority = ground arith in
    let st : n.state ≡ o.state = same_state-≡ n.state o.state (ground arith) in
    let key : key_of n ≡ key_of o = cc in cc

module _ (known : List Uuid) (ms ms' : List MessageRow) (rows : List ShardRow)
    (a : Agrees rows ms) where
  pub inserted-Fires :
      (n : MessageRow)
      → Replaces [] (n ∷ []) ms ms'
      → IsKeyed known n
      → Fires known (inserted (n ∷ [])) rows ms'
  unfolding changes
  inserted-Fires n r good = tally-fires known [] (n ∷ []) ms ms' r tt (good, tt) rows a

  pub deleted-Fires :
      (old : List MessageRow)
      → Replaces old [] ms ms'
      → All (IsKeyed known) old
      → Fires known (deleted old) rows ms'
  unfolding changes
  deleted-Fires old r good = tally-fires known old [] ms ms' r good tt rows a

  pub updated-Fires :
      (o n : MessageRow)
      → n.id ≡ o.id
      → Replaces (o ∷ []) (n ∷ []) ms ms'
      → IsKeyed known o
      → IsKeyed known n
      → Fires known (updated (o ∷ []) (n ∷ [])) rows ms'
  unfolding changes adjust_all
  updated-Fires o n same r good good' = elim (Bool-cases (any_moved (o ∷ []) (n ∷ []))) [
    | inl e ↦
        let (rows', ran, b) =
          kept-fires known (o ∷ []) (n ∷ []) ms ms' r (good, tt) (good', tt) rows a in
        (rows', rw e ran, b)
    | inr e ↦
        let still : is_unmoved o n ≡ true = ground arith in
        (
          rows,
          rw e refl,
          record {
            each = λ col key.
                let one = unmoved-counts col (same_key key) o n still in
                omega
                  (arith, ap unit_if one, r.balance (counts_in col (same_key key)), a.each col key);
            sums = λ col among.
                let one = unmoved-counts col among o n still in
                omega (arith, ap unit_if one, r.balance (counts_in col among), a.sums col among);
          },
        )
  ]

-- The key of a row that meets its constraints meets those of the counts.
pub row-IsKeyed :
    (known : List Uuid) (m : MessageRow)
    → contains known m.queue_id ≡ true
    → message_checks m ≡ true
    → IsKeyed known m
unfolding message_checks
row-IsKeyed known m there good =
    let (lo, hi) : (1 ≤ m.priority) × (m.priority ≤ 3) = (ground arith, ground arith) in
    let last : m.id % 256 % 32 ≤ 31 = omega arith in ground arith
