-- ===== src/Postgres/Dequeue/Order.antt =====
-- Which message a dequeue delivers: the order and the conditions of the CTE `candidate`
-- (src/modules/queue/infrastructure/postgres.rs).
use retsu.Base.{
  ◌↔◌, ◌||◌, leb, refl, ℕ, ◌+◌, Text, sym, ◌≡◌, ◌⊎◌, inl, inr, true, false, not, none, some, List,
  ok, arith, Memᴰ, All, All-keep_if, All-keep_if_test, keep_if-All_inv, All-map, All-both,
  All-first, All-none, All-members, order_by, order_by-All, order_by-All_inv, first_row-least,
  IsOrder, keep_if, ◌≤◌, ◌<◌,
}
use retsu.Domain.Message.{Uuid, rank}
use retsu.Repository.{Delivery, dequeued, empty}
use retsu.Postgres.Tables.{
  MessageState, ready, in_flight, is_in_flight, QueueRow, MessageRow, Database, Session, find_queue,
}
use retsu.Postgres.Dequeue.{
  is_deliverable, delivery_order, unlocked, delivery_candidate, dequeue_message,
}
use retsu.Postgres.Dequeue.Inversion.{dequeue_message-Delivers, dequeue_message-Idles}

delivery_order-IsOrder : IsOrder delivery_order
delivery_order-IsOrder = record { total = λ a b h. ground arith; trans = λ a b c h k. ground arith }

-- A row that the dequeue may take: of the queue, unexpired, with an attempt left, neither leased nor
-- locked by another transaction.
abbrev pub IsAvailable : Session → QueueRow → MessageRow → Type 0
IsAvailable s q m =
    (m.queue_id ≡ q.id)
    × (s.now < m.expires_at)
    × (m.delivery_attempts < q.max_delivery_attempts)
    × ((m.state ≡ ready) ⊎ (m.available_after ≤ s.now))
    × (s.is_locked m.id ≡ false)

-- `m` goes before `x`: by priority, and by age within a priority.
abbrev pub Precedes : MessageRow → MessageRow → Type 0
Precedes m x =
    (x.priority < m.priority) ⊎ ((x.priority ≡ m.priority) × (m.enqueue_order ≤ x.enqueue_order))

-- The two filters of the candidates.
abbrev pub IsCandidate : Session → QueueRow → MessageRow → Type 0
IsCandidate s q m = (is_deliverable s.now q m ≡ true) × (s.is_locked m.id ≡ false)

abbrev IsFirst : Session → QueueRow → List MessageRow → MessageRow → Type 0
IsFirst s q messages m = All (λ x. IsCandidate s q x → delivery_order m x ≡ true) messages

-- The test of the lease, as a statement.
free_iff :
    (state : MessageState) (until now : ℕ)
    → (not (is_in_flight state) || leb until now ≡ true) ↔ ((state ≡ ready) ⊎ (until ≤ now))
free_iff ready until now = (λ h. inl refl, λ h. refl)
free_iff in_flight until now = (λ h. inr (ground arith), λ h. ground arith)

pub IsCandidate-IsAvailable :
    (s : Session) (q : QueueRow) (m : MessageRow) → IsCandidate s q m → IsAvailable s q m
IsCandidate-IsAvailable s q m h = (
  ground arith,
  ground arith,
  ground arith,
  (free_iff m.state m.available_after s.now).0 (ground arith),
  h.1,
)

pub IsAvailable-IsCandidate :
    (s : Session) (q : QueueRow) (m : MessageRow) → IsAvailable s q m → IsCandidate s q m
IsAvailable-IsCandidate s q m (same_queue, fresh, left, free, not_locked) =
    let fits = (free_iff m.state m.available_after s.now).1 free in (ground arith, not_locked)

delivery_order-Precedes : (m x : MessageRow) → delivery_order m x ≡ true → Precedes m x
delivery_order-Precedes m x h = ground arith

module _ (s : Session) (q : QueueRow) (messages : List MessageRow) where
  abbrev available : List MessageRow
  available = unlocked s (keep_if (is_deliverable s.now q) messages)

  available_inv :
      (P : MessageRow → Type 0) → All P available → All (λ x. IsCandidate s q x → P x) messages
  available_inv P h =
      All-map (λ x. is_deliverable s.now q x ≡ true → not (s.is_locked x.id) ≡ true → P x)
        (λ x. IsCandidate s q x → P x) (λ x f a. f a.0 (rw a.1)) messages
        (keep_if-All_inv (is_deliverable s.now q) _ messages
          (keep_if-All_inv (λ x. not (s.is_locked x.id)) P _ h))

  -- A row that passes both filters is a row of the table.
  abbrev IsListed : MessageRow → Type 0
  IsListed x = Memᴰ x messages × IsCandidate s q x

  available-IsListed : All IsListed available
  available-IsListed =
      All-map
        (λ x.
          (Memᴰ x messages × (is_deliverable s.now q x ≡ true)) × (not (s.is_locked x.id) ≡ true))
        IsListed (λ x h. (h.0.0, (h.0.1, ground arith))) available
        (All-both _ _ available
          (All-keep_if _ (λ x. not (s.is_locked x.id)) _
            (All-both _ _ (keep_if (is_deliverable s.now q) messages)
              (All-keep_if _ (is_deliverable s.now q) messages (All-members messages))
              (All-keep_if_test (is_deliverable s.now q) messages)))
          (All-keep_if_test (λ x. not (s.is_locked x.id)) _))

  pub one_chosen :
      (m : MessageRow)
      → delivery_candidate s q messages ≡ some m
      → IsListed m × IsFirst s q messages m
  unfolding delivery_candidate
  one_chosen m e = (
    All-first IsListed (order_by delivery_order available) e
        (order_by-All delivery_order IsListed available available-IsListed),
    available_inv (λ x. delivery_order m x ≡ true)
        (first_row-least delivery_order delivery_order-IsOrder available e),
  )

  pub nothing_chosen :
      delivery_candidate s q messages ≡ none → All (λ x. ¬ IsCandidate s q x) messages
  unfolding delivery_candidate
  nothing_chosen e =
      available_inv (λ x. ⊥)
        (order_by-All_inv delivery_order (λ x. ⊥) available (All-none (λ x. ⊥) _ e))

-- A dequeue that returns a message returns the payload, priority and attempts of a row that was
-- deliverable and unlocked in the queue asked for, and no such row has a higher priority, or the
-- same priority and an earlier place in the order of enqueueing.
pub dequeue_message-order :
    (s : Session) (queue_id handle : Uuid) (db db' : Database) (d : Delivery)
    → dequeue_message s queue_id handle db ≡ (ok (dequeued d), db')
    → (q : QueueRow) × (m : MessageRow) × (find_queue queue_id db.queues ≡ some q)
      × Memᴰ m db.messages
      × IsAvailable s q m
      × All (λ x. IsAvailable s q x → Precedes m x) db.messages
      × (d.id ≡ m.id)
      × (d.payload ≡ m.payload)
      × (rank d.priority ≡ m.priority)
      × (d.delivery_attempts ≡ m.delivery_attempts + 1)
      × (d.receipt_handle ≡ handle)
dequeue_message-order s queue_id handle db db' d e =
    let v = dequeue_message-Delivers s queue_id handle db db' d e in
    let (listed, first) = one_chosen s v.queue db.messages v.message v.leases.chosen in
    (
      v.queue,
      v.message,
      v.target,
      listed.0,
      IsCandidate-IsAvailable s v.queue v.message listed.1,
      All-map (λ x. IsCandidate s v.queue x → delivery_order v.message x ≡ true) _
          (λ x f a. delivery_order-Precedes v.message x (f (IsAvailable-IsCandidate s v.queue x a)))
          db.messages first,
      v.reads.id,
      v.reads.payload,
      sym v.reads.priority,
      v.reads.attempts,
      v.reads.receipt,
    )

-- A dequeue that returns no message names the queue asked for, and found no deliverable, unlocked
-- row in it.
pub dequeue_message-empty :
    (s : Session) (queue_id handle : Uuid) (db db' : Database) (name : Text) (count : ℕ)
    → dequeue_message s queue_id handle db ≡ (ok (empty name count), db')
    → (q : QueueRow) × (find_queue queue_id db.queues ≡ some q)
      × (name ≡ q.name)
      × All (λ x. ¬ IsAvailable s q x) db.messages
dequeue_message-empty s queue_id handle db db' name count e =
    let v = dequeue_message-Idles s queue_id handle db db' name count e in
    (
      v.queue,
      v.target,
      v.queue_name,
      All-map (λ x. ¬ IsCandidate s v.queue x) _
          (λ x f a. f (IsAvailable-IsCandidate s v.queue x a)) db.messages
          (nothing_chosen s v.queue db.messages v.finds.chosen),
    )
