-- ===== src/Postgres/Leases.antt =====
-- A delivered message is the receiver's alone until its lease ends
-- (src/modules/queue/infrastructure/postgres.rs).
pub mod Histories
use retsu.Base.{
  ℕ, ◌+◌, ◌*◌, ◌<◌, ◌≡◌, ◌≢◌, refl, sym, ap, ◌∙◌, Bool, true, false, not, Option, none, some, List,
  [], ◌∷◌, Memᴰ, All, All-map, All-keep_if, All-append, All-change, All-Memᴰ, All-members,
  key_unique, arith, Bool-cases, inl, inr, ◌==◌, ==_iff, ok, if◌then◌else◌,
}
use retsu.Domain.Message.{Uuid, Message}
use retsu.Repository.{Delivery, dequeued}
use retsu.Postgres.Tables.{second, QueueRow, MessageRow, in_flight, Database, Session, find_queue}
use retsu.Postgres.Dequeue.{
  is_deliverable, lease, replace_message, dequeue_message, dequeue_statement, DequeueMessageRow,
}
use retsu.Postgres.Dequeue.Inversion.{
  replaced_row, moved, stays, Leases, FindsNone, dequeue_from_cases, statement_cases, Delivers,
  dequeue_message-Delivers,
}
use retsu.Postgres.Dequeue.Order.{one_chosen, IsAvailable}
use retsu.Postgres.Invariant.{IsWellFormed}

-- Each row with this identifier is leased until the deadline.
abbrev pub IsHeld : Uuid → ℕ → List MessageRow → Type 0
IsHeld id deadline = All λ x. x.id ≡ id → (x.state ≡ in_flight) × (x.available_after ≡ deadline)

module _ (id : Uuid) (deadline : ℕ) where
  -- A held row is not deliverable before the deadline.
  held-unavailable :
      (s : Session) (q : QueueRow) (ms : List MessageRow) (m : MessageRow)
      → s.now < deadline
      → IsHeld id deadline ms
      → Memᴰ m ms
      → is_deliverable s.now q m ≡ true
      → m.id ≢ id
  held-unavailable s q ms m early h listed fit same =
      let (state, until) =
        All-Memᴰ (λ x. x.id ≡ id → (x.state ≡ in_flight) × (x.available_after ≡ deadline)) h listed
          same in
      ground arith

  pub replace_message-IsHeld :
      (row : MessageRow) (ms : List MessageRow)
      → row.id ≢ id
      → IsHeld id deadline ms
      → IsHeld id deadline (replace_message row ms)
  replace_message-IsHeld row ms other h =
      All-change _ _
        (λ x k. elim (Bool-cases (x.id == row.id)) [
          | inl e ↦ rw e (λ same. absurd (other same))
          | inr e ↦ rw e k
        ])
        ms h

  dequeue_statement-IsHeld :
      (s : Session) (queue_id handle : Uuid) (db db' : Database) (row : DequeueMessageRow)
      → s.now < deadline
      → dequeue_statement s queue_id handle db ≡ some (row, db')
      → IsHeld id deadline db.messages
      → IsHeld id deadline db'.messages
  dequeue_statement-IsHeld s queue_id handle db db' row early e h =
      elim (statement_cases s queue_id handle db db' row e) [
        | inl (missing, replied, same) ↦ rw same h
        | inr (q, target, ran) ↦ elim (dequeue_from_cases s q handle db db' row ran) [
          | inl (m, l) ↦
              let (listed, fit) = (one_chosen s q db.messages m l.chosen).0 in
              rw l.messages (
                replace_message-IsHeld (lease s.now q handle m) (stays s q db)
                  (held-unavailable s q db.messages m early h listed fit.0)
                  (All-keep_if _ _ db.messages h))
          | inr f ↦ rw f.messages (All-keep_if _ _ db.messages h)
        ]
      ]

  -- No dequeue before the deadline delivers it.
  not_delivered :
      (s : Session) (queue_id handle : Uuid) (db db' : Database) (d : Delivery)
      → s.now < deadline
      → dequeue_message s queue_id handle db ≡ (ok (dequeued d), db')
      → IsHeld id deadline db.messages
      → d.id ≢ id
  not_delivered s queue_id handle db db' d early e h same =
      let v = dequeue_message-Delivers s queue_id handle db db' d e in
      let (listed, fit) = (one_chosen s v.queue db.messages v.message v.leases.chosen).0 in
      held-unavailable s v.queue db.messages v.message early h listed fit.0 (sym v.reads.id ∙ same)

-- The row that a delivery leaves under its identifier is leased until the end of the visibility
-- timeout.
pub delivered-IsHeld :
    (s : Session) (queue_id handle : Uuid) (db db' : Database) (d : Delivery)
    → (v : Delivers s queue_id handle db db' d)
    → IsHeld d.id (s.now + v.queue.visibility_timeout_seconds * second) db'.messages
delivered-IsHeld s queue_id handle db db' d v =
    rw (v.leases.messages, v.reads.id)
      (All-map (λ x. x.id ≡ row.id → x ≡ row) _
        (λ x only same.
          let is_row = only same in (ap (λ y. y.state) is_row, ap (λ y. y.available_after) is_row))
        (replace_message row (stays s v.queue db)) (replaced_row row (stays s v.queue db)))
  where
    row : MessageRow
    row = lease s.now v.queue handle v.message
