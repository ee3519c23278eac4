-- ===== src/Rollups/Having.antt =====
-- The changes that HAVING keeps (migrations/20260727190617_create_queue_priority_state_rollups.sql).
use retsu.Base.{
  ℕ, ◌+◌, ◌≤◌, ◌≡◌, refl, arith, Bool, false, List, [], ◌∷◌, Memᴰ, Bool-cases, inl, inr,
  All-keep_if, keep_if,
}
use retsu.Postgres.Tables.{MessageState, ready, in_flight}
use retsu.Rollups.Shards.{ShardKey, Delta, Change, same_key, delta}
use retsu.Rollups.Trigger.{has_effect}
use retsu.Rollups.Tallies.{up_of, down_of, moved, IsApart, Apart, same_key_refl}

zero_delta :
    (col : MessageState) (c : Change)
    → has_effect c ≡ false
    → up_of (delta col c) ≡ down_of (delta col c)
zero_delta ready c h = ground arith
zero_delta in_flight c h = ground arith

-- HAVING leaves out only changes that change nothing.
pub moved-keep_if :
    (col : MessageState) (among : ShardKey → Bool) (cs : List Change)
    → moved up_of col among (keep_if has_effect cs) + moved down_of col among cs
      ≡ moved up_of col among cs + moved down_of col among (keep_if has_effect cs)
moved-keep_if col among [] = refl
moved-keep_if col among (c ∷ cs) = elim (Bool-cases (has_effect c)) [
  | inl e ↦ rw e (omega (arith, moved-keep_if col among cs))
  | inr e ↦
      let even = zero_delta col c e in
      rw e (elim (Bool-cases (among c.key)) [
        | inl f ↦ rw f (omega (arith, even, moved-keep_if col among cs))
        | inr f ↦ rw f (omega (arith, moved-keep_if col among cs))
      ])
]

pub keep_if-Apart : (p : Change → Bool) (cs : List Change) → Apart cs → Apart (keep_if p cs)
keep_if-Apart p [] a = tt
keep_if-Apart p (c ∷ cs) a = elim (Bool-cases (p c)) [
  | inl e ↦ rw e (All-keep_if (IsApart c.key) p cs a.0, keep_if-Apart p cs a.1)
  | inr e ↦ rw e (keep_if-Apart p cs a.1)
]

-- A change takes no more than the changes of its key do.
pub moved-member :
    (side : Delta → ℕ) (col : MessageState) {c : Change} {cs : List Change}
    → Memᴰ c cs
    → side (delta col c) ≤ moved side col (same_key c.key) cs
moved-member side col {c} (Memᴰ.head e) = rw (← e, same_key_refl c.key) (omega arith)
moved-member side col (Memᴰ.tail m) = omega (arith, moved-member side col m)
