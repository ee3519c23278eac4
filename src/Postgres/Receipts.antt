-- ===== src/Postgres/Receipts.antt =====
-- The receipt of a delivery against acknowledgements (src/modules/queue/infrastructure/postgres.rs).
use retsu.Base.{
  ℕ, ◌+◌, ◌*◌, ◌<◌, ◌≡◌, ◌≢◌, refl, sym, ap, ◌∙◌, subst, true, false, not, some, Bool-cases, inl,
  inr, Memᴰ, Memᴰ-keep_if, Memᴰ-map, find-Memᴰ, contains, All-map, if◌then◌else◌, ◌==◌, ==_iff,
  arith, ok,
}
use retsu.Domain.Message.{Uuid}
use retsu.Repository.{Delivery, dequeued, acknowledged, unchanged}
use retsu.Postgres.Tables.{second, no_fault, QueueRow, MessageRow, Database, Session, find_queue}
use retsu.Postgres.Messages.{acknowledge_message}
use retsu.Postgres.Dequeue.{is_deliverable, lease, replace_message, dequeue_message, victims}
use retsu.Postgres.Dequeue.Inversion.{replaced_row, dequeue_message-Delivers, stays}
use retsu.Postgres.Dequeue.Order.{one_chosen}
use retsu.Postgres.DeadLetters.{picked-exhausted}
use retsu.Postgres.Calls.{dequeues, after}
use retsu.Postgres.Invariant.{IsWellFormed}
use retsu.Postgres.Invariant.Steps.{after-IsWellFormed}
use retsu.Postgres.Acknowledgement.{
  IsReceipt, without, acknowledge_message-acknowledged, acknowledge_message-unchanged,
}

-- The invariant after a dequeue whose result is known.
dequeued-IsWellFormed :
    (s : Session) (queue_id handle : Uuid) (db db' : Database) {r : _}
    → dequeue_message s queue_id handle db ≡ (r, db')
    → IsWellFormed db
    → IsWellFormed db'
unfolding after
dequeued-IsWellFormed s queue_id handle db db' e w =
    subst IsWellFormed (ap (λ x. x.1) e) (after-IsWellFormed s (dequeues queue_id handle) db w)

module _ (s : Session) (queue_id handle : Uuid) (db db' : Database) where
  -- The leased row is in the table.
  leased-listed :
      (m : MessageRow) (q : QueueRow)
      → IsWellFormed db
      → Memᴰ m db.messages
      → is_deliverable s.now q m ≡ true
      → Memᴰ (lease s.now q handle m) (replace_message (lease s.now q handle m) (stays s q db))
  leased-listed m q w listed fit =
      let free : contains (victims s q db.messages) m.id ≡ false =
        (elim (Bool-cases (contains (victims s q db.messages) m.id)) [
          | inl picked ↦
              let gone = picked-exhausted s q db.messages m w.messages.ids listed picked in
              absurd (ground arith)
          | inr e ↦ e
        ]) in
      let stay =
        Memᴰ-keep_if (λ x. not (contains (victims s q db.messages) x.id)) db.messages listed
          (rw free refl) in
      let row = lease s.now q handle m in
      let put : MessageRow → MessageRow = λ x. if x.id == row.id then row else x in
      let same : put m ≡ row = rw ((==_iff m.id m.id).1 refl) refl in
      subst (λ x. Memᴰ x (replace_message row (stays s q db))) same (Memᴰ-map put stay)

  -- After a delivery the receipt names a row of the table until the visibility timeout ends.
  leased-IsReceipt :
      (now : ℕ) (q : QueueRow) (d : Delivery)
      → IsWellFormed db
      → find_queue queue_id db.queues ≡ some q
      → dequeue_message s queue_id handle db ≡ (ok (dequeued d), db')
      → now < s.now + q.visibility_timeout_seconds * second
      → (m : MessageRow) × Memᴰ m db'.messages × IsReceipt now queue_id d.id d.receipt_handle m
  leased-IsReceipt now q d w target e early =
      let v = dequeue_message-Delivers s queue_id handle db db' d e in
      let same : v.queue ≡ q = ground (arith, v.target) in
      let (listed, fit) = (one_chosen s v.queue db.messages v.message v.leases.chosen).0 in
      let row = leased-listed v.message v.queue w listed fit.0 in
      let asked = (==_iff _ _).0 ((find-Memᴰ _ db.queues v.target).1) in
      (
        lease s.now v.queue handle v.message,
        rw v.leases.messages row,
        (sym v.reads.id, ground arith, ground (arith, v.reads.receipt), rw (← same) at early),
      )

-- What a dequeue has delivered, an acknowledgement with the receipt removes, and nothing else, as
-- long as the queue's visibility timeout has not ended, on tables that meet their constraints and
-- when nothing fails around the acknowledgement.
pub dequeue_message-acknowledge_message :
    (s s' : Session) (queue_id handle : Uuid) (q : QueueRow) (db db' : Database) (d : Delivery)
    → IsWellFormed db
    → find_queue queue_id db.queues ≡ some q
    → dequeue_message s queue_id handle db ≡ (ok (dequeued d), db')
    → s'.fault ≡ no_fault
    → s'.now < s.now + q.visibility_timeout_seconds * second
    → acknowledge_message s' queue_id d.id d.receipt_handle db'
      ≡ (ok acknowledged, without d.id db')
dequeue_message-acknowledge_message s s' queue_id handle q db db' d w target e clear early =
    let (m, listed, receipt) =
      leased-IsReceipt s queue_id handle db db' s'.now q d w target e early in
    acknowledge_message-acknowledged s' queue_id d.id d.receipt_handle db' m
      (dequeued-IsWellFormed s queue_id handle db db' e w) clear listed receipt

-- A receipt handle other than the one of a delivery does not acknowledge the message directly
-- after it: the answer is that nothing changed, and nothing changes, when nothing fails around the
-- acknowledgement.
pub dequeue_message-stale :
    (s s' : Session) (queue_id queue_id' handle old : Uuid) (db db' : Database) (d : Delivery)
    → dequeue_message s queue_id handle db ≡ (ok (dequeued d), db')
    → s'.fault ≡ no_fault
    → old ≢ handle
    → acknowledge_message s' queue_id' d.id old db' ≡ (ok unchanged, db')
dequeue_message-stale s s' queue_id queue_id' handle old db db' d e clear other =
    let v = dequeue_message-Delivers s queue_id handle db db' d e in
    let row = lease s.now v.queue handle v.message in
    acknowledge_message-unchanged s' queue_id' d.id old db' clear (
      rw v.leases.messages (
        All-map (λ x. x.id ≡ row.id → x ≡ row) _
          (λ x only (same_id, same_queue, held, early).
            let held_by : some handle ≡ some old =
              ap (λ y. y.receipt_handle) (sym (only (same_id ∙ v.reads.id))) ∙ held in
            other (ground arith))
          (replace_message row (stays s v.queue db)) (replaced_row row (stays s v.queue db))))
