-- ===== src/Rollups/Ages.antt =====
-- The oldest of the messages that pass a test, and counts of messages in groups
-- (src/modules/queue/infrastructure/state_collector.rs).
use mathlib.Core.Option
use retsu.Base.{
  ℕ, ◌+◌, ◌≡◌, ◌∙◌, refl, ap, arith, Bool, true, false, Option, none, some, Bool-cases, inl, inr,
  List, [], ◌∷◌, if◌then◌else◌, keep_if, order_by, insert_row, first_row, All,
}
use retsu.Postgres.Tables.{MessageRow}
use retsu.Rollups.Tallies.{count, unit_if}
use retsu.Rollups.Collector.{enqueue_time, oldest, least}

-- The time of the earliest enqueue among the messages that pass a test.
abbrev pub earliest : (MessageRow → Bool) → List MessageRow → Option ℕ
earliest test [] = none
earliest test (m ∷ ms) =
    if test m then least (some m.enqueued_at) (earliest test ms) else earliest test ms

least_insert :
    (m : MessageRow) (ms : List MessageRow)
    → Option.map (λ x. x.enqueued_at) (first_row (insert_row enqueue_time m ms))
      ≡ least (some m.enqueued_at) (Option.map (λ x. x.enqueued_at) (first_row ms))
unfolding insert_row
least_insert m [] = refl
least_insert m (x ∷ ms) = elim (Bool-cases (enqueue_time m x)) [
  | inl e ↦ rw e refl
  | inr e ↦ rw e refl
]

pub oldest-earliest :
    (test : MessageRow → Bool) (ms : List MessageRow) → oldest test ms ≡ earliest test ms
unfolding oldest order_by
oldest-earliest test [] = refl
oldest-earliest test (m ∷ ms) = elim (Bool-cases (test m)) [
  | inl e ↦ rw e (
      least_insert m (order_by enqueue_time (keep_if test ms))
      ∙ ap (least (some m.enqueued_at)) (oldest-earliest test ms))
  | inr e ↦ rw e (oldest-earliest test ms)
]

least_left : (k : ℕ) (a b : Option ℕ) → least (some k) (least a b) ≡ least (least (some k) a) b
least_left k none b = refl
least_left k (some x) none = refl
least_left k (some x) (some y) = ground arith

least_right : (k : ℕ) (a b : Option ℕ) → least (some k) (least a b) ≡ least a (least (some k) b)
least_right k none b = refl
least_right k (some x) none = ground arith
least_right k (some x) (some y) = ground arith

-- Two tests that never hold together and a test that holds when one does.
abbrev pub IsSplit : Bool → Bool → Bool → Type 0
IsSplit r p q = unit_if r ≡ unit_if p + unit_if q

earliest_step :
    (k : ℕ) (r p q : Bool) (c a b : Option ℕ)
    → IsSplit r p q
    → c ≡ least a b
    → (if r then least (some k) c else c)
      ≡ least (if p then least (some k) a else a) (if q then least (some k) b else b)
earliest_step k true true false c a b h e = ap (least (some k)) e ∙ least_left k a b
earliest_step k true false true c a b h e = ap (least (some k)) e ∙ least_right k a b
earliest_step k false false false c a b h e = e
earliest_step k true true true c a b h e = absurd (omega (arith, h))
earliest_step k true false false c a b h e = absurd (omega (arith, h))
earliest_step k false true true c a b h e = absurd (omega (arith, h))
earliest_step k false true false c a b h e = absurd (omega (arith, h))
earliest_step k false false true c a b h e = absurd (omega (arith, h))

pub earliest-split :
    (r p q : MessageRow → Bool) (ms : List MessageRow)
    → All (λ m. IsSplit (r m) (p m) (q m)) ms
    → earliest r ms ≡ least (earliest p ms) (earliest q ms)
earliest-split r p q [] h = refl
earliest-split r p q (m ∷ ms) h =
    earliest_step m.enqueued_at (r m) (p m) (q m) _ _ _ h.0 (earliest-split r p q ms h.1)

pub count-split :
    (a b c d : MessageRow → Bool) (ms : List MessageRow)
    → All (λ m. unit_if (a m) + unit_if (b m) ≡ unit_if (c m) + unit_if (d m)) ms
    → count a ms + count b ms ≡ count c ms + count d ms
count-split a b c d [] h = refl
count-split a b c d (m ∷ ms) h = omega (arith, h.0, count-split a b c d ms h.1)
