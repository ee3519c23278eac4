-- ===== src/Postgres/Servable.antt =====
-- Messages that a dequeue can hand out or bury (src/modules/queue/infrastructure/postgres.rs).
use mathlib.Core.Option
use mathlib.Core.List.{map-append}
use retsu.Base.{
  ℕ, ◌+◌, ◌<◌, ◌≤◌, ◌≡◌, ◌≢◌, refl, true, false, Option, none, some, Bool-cases, inl, inr, List, [],
  ◌∷◌, ◌++◌, is_utf8, All, All-map, All-both, Distinct, contains, contains-append, no_key, pos,
  arith, ◌==◌,
}
use retsu.Domain.Message.{Uuid, MessagePriority, from_rank, high, medium, low}
use retsu.Postgres.Tables.{
  thirty_days, QueueRow, MessageRow, MessageState, ready, in_flight, DeadLetterRow, message_ids,
  dead_letter_ids, queue_checks, message_checks, state_checks, delivery_checks, dead_letter_checks,
}
use retsu.Postgres.Dequeue.{
  is_exhausted, is_deliverable, dead_letter, store_dead_letter, store_dead_letters, lease,
}

abbrev pub IsBefore : ℕ → Option ℕ → Type 0
IsBefore now none = Unit
IsBefore now (some t) = t ≤ now

-- A message that the code can hand out or bury: its payload is text, the clock has not gone back
-- behind it, and no dead letter has its identifier.
pub record IsServable (now : ℕ) (letters : List Uuid) (m : MessageRow) : Type 0 where
  pub text : is_utf8 m.payload ≡ true
  pub enqueued : m.enqueued_at ≤ now
  pub delivered : IsBefore now m.last_delivered_at
  pub apart : contains letters m.id ≡ false

-- A message whose dead letter meets the checks.
abbrev pub IsStorable : ℕ → MessageRow → Type 0
IsStorable now m =
    (t : ℕ) × (m.last_delivered_at ≡ some t) × (dead_letter_checks (dead_letter now t m) ≡ true)

-- The parts of a row's checks.
pub row_checks :
    (m : MessageRow)
    → message_checks m ≡ true
    → (state_checks m.state m.receipt_handle m.last_delivered_at m.delivery_attempts ≡ true)
      × (delivery_checks m.last_delivered_at m.available_after m.enqueued_at ≡ true)
      × (1 ≤ m.priority)
      × (m.priority ≤ 3)
      × (m.enqueued_at < m.expires_at)
      × (m.expires_at ≤ m.enqueued_at + thirty_days)
unfolding message_checks
row_checks m h =
    (ground arith, ground arith, ground arith, ground arith, ground arith, ground arith)

pub storable :
    (now : ℕ) (q : QueueRow) (m : MessageRow) (delivered : Option ℕ) (state : MessageState)
    → m.last_delivered_at ≡ delivered
    → m.state ≡ state
    → is_exhausted now q m ≡ true
    → message_checks m ≡ true
    → IsBefore now delivered
    → IsStorable now m
unfolding dead_letter_checks
storable now q m none ready e f gone checked before = absurd (ground (arith, gone))
storable now q m none in_flight e f gone checked before =
    let (states, deliveries, lo, hi, live, span) = row_checks m checked in
    let never = rw (f, e) at states in absurd (ground (arith, never))
storable now q m (some t) ready e f gone checked before = absurd (ground (arith, gone))
storable now q m (some t) in_flight e f gone checked before =
    let (states, deliveries, lo, hi, live, span) = row_checks m checked in
    let times = rw e at deliveries in (t, e, ground (arith, times))

module _ (now : ℕ) where
  store-one :
      (m : MessageRow) (letters : List DeadLetterRow) (s : IsStorable now m)
      → contains (dead_letter_ids letters) m.id ≡ false
      → store_dead_letter now m letters ≡ some (letters ++ dead_letter now s.0 m ∷ [])
  store-one m letters (t, delivered, checked) fresh = rw (delivered, checked, fresh) refl

  pub store-all :
      (ms : List MessageRow) (letters : List DeadLetterRow)
      → All (IsStorable now) ms
      → Distinct (message_ids ms)
      → All (λ m. contains (dead_letter_ids letters) m.id ≡ false) ms
      → (letters' : List DeadLetterRow) × (store_dead_letters now ms letters ≡ some letters')
  unfolding store_dead_letters Option.bind
  store-all [] letters s d fresh = (letters, refl)
  store-all (m ∷ ms) letters s d fresh =
      let letters1 = letters ++ dead_letter now s.0.0 m ∷ [] in
      let fresh1 : All (λ x. contains (dead_letter_ids letters1) x.id ≡ false) ms =
        All-map (λ x. (contains (dead_letter_ids letters) x.id ≡ false) × (x.id ≢ m.id)) _
          (λ x h.
            rw
              (
                map-append (λ (y : DeadLetterRow). y.id) letters (dead_letter now s.0.0 m ∷ []),
                contains-append (dead_letter_ids letters) (m.id ∷ []) x.id,
                h.0,
              )
              (ground (arith, h.1)))
          ms (All-both _ _ ms fresh.1 (no_key (λ y. y.id) m.id ms d.0)) in
      let (letters', rest) = store-all ms letters1 s.1 d.1 fresh1 in
      (letters', rw (store-one m letters s.0 fresh.0) rest)

pub lease-checked :
    (now : ℕ) (q : QueueRow) (handle : Uuid) (m : MessageRow)
    → queue_checks q ≡ true
    → message_checks m ≡ true
    → is_deliverable now q m ≡ true
    → m.enqueued_at ≤ now
    → message_checks (lease now q handle m) ≡ true
unfolding queue_checks message_checks
lease-checked now q handle m good checked fit later = ground arith

pub rank-read : (n : ℕ) → 1 ≤ n → n ≤ 3 → (p : MessagePriority) × (from_rank (pos n) ≡ some p)
unfolding from_rank
rank-read n lo hi = elim (Bool-cases (n == 3)) [
  | inl e ↦ (high, rw e refl)
  | inr e ↦ elim (Bool-cases (n == 2)) [
    | inl f ↦ (medium, rw (e, f) refl)
    | inr f ↦ let one : (n == 1) ≡ true = ground arith in (low, rw (e, f, one) refl)
  ]
]
