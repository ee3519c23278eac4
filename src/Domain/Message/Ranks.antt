-- ===== src/Domain/Message/Ranks.antt =====
-- The priorities of src/modules/queue/domain/message.rs and the ranks that the constraint
-- queue_message_priority_range (migrations/20260726062530_create_table_queue_message.sql) admits.
use std.Equiv.{IsEquiv, Iso, iso_to_equiv}
use std.HLevel.{Σ_prop_path}
use mathlib.Core.Bool.{Bool-set}
use retsu.Base.{ℕ, ◌≡◌, refl, true, some, Bool-cases, inl, inr, in_range, pos, ◌==◌, arith, ◌∙◌}
use retsu.Domain.Message.{MessagePriority, high, medium, low, rank, from_rank}

-- A rank that meets the constraint.
abbrev pub Rank : Type 0
Rank = (n : ℕ) × (in_range 1 3 n ≡ true)

abbrev pub to_rank : MessagePriority → Rank
to_rank high = (3, refl)
to_rank medium = (2, refl)
to_rank low = (1, refl)

to_rank-rank : (p : MessagePriority) → (to_rank p).0 ≡ rank p
to_rank-rank high = refl
to_rank-rank medium = refl
to_rank-rank low = refl

read :
    (n : ℕ)
    → in_range 1 3 n ≡ true
    → (p : MessagePriority) × (rank p ≡ n) × (from_rank (pos n) ≡ some p)
unfolding from_rank
read n h = elim (Bool-cases (n == 3)) [
  | inl e ↦ (high, ground arith, rw e refl)
  | inr e ↦ elim (Bool-cases (n == 2)) [
    | inl f ↦ (medium, ground arith, rw (e, f) refl)
    | inr f ↦ let one : (n == 1) ≡ true = ground arith in (low, ground arith, rw (e, f, one) refl)
  ]
]

rank_injective : (p q : MessagePriority) → rank p ≡ rank q → p ≡ q
rank_injective high high e = refl
rank_injective medium medium e = refl
rank_injective low low e = refl
rank_injective high medium e = absurd (omega (arith, e))
rank_injective high low e = absurd (omega (arith, e))
rank_injective medium high e = absurd (omega (arith, e))
rank_injective medium low e = absurd (omega (arith, e))
rank_injective low high e = absurd (omega (arith, e))
rank_injective low medium e = absurd (omega (arith, e))

abbrev rank_iso : Iso MessagePriority Rank
rank_iso = record {
  fun = λ p. to_rank p;
  inv = λ (n, h). (read n h).0;
  rinv = λ (n, h).
      Σ_prop_path (λ k. Bool-set (in_range 1 3 k) true) (to_rank-rank (read n h).0 ∙ (read n h).1);
  linv = λ p. rank_injective _ p ((read (to_rank p).0 (to_rank p).1).1 ∙ to_rank-rank p);
}

-- The priorities and the ranks that the database's constraint admits are equivalent types by
-- MessagePriority::rank, and for each such rank MessagePriority::from_rank gives the priority with
-- it.
pub to_rank-IsEquiv :
    IsEquiv to_rank
    × ((r : Rank) → (p : MessagePriority) × (from_rank (pos r.0) ≡ some p) × (rank p ≡ r.0))
to_rank-IsEquiv = ((iso_to_equiv rank_iso).1, λ r. let (p, e, f) = read r.0 r.1 in (p, f, e))
