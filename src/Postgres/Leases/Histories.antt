-- ===== src/Postgres/Leases/Histories.antt =====
-- A lease along a history of calls: what `dequeue_message` has handed out is not handed out again
-- before the visibility timeout (src/modules/queue/infrastructure/postgres.rs).
use retsu.Base.{
  ℕ, ◌+◌, ◌*◌, ◌<◌, ◌≡◌, ◌≢◌, subst, Option, some, Option-cases, Bool-cases, inl, inr, List, [],
  ◌∷◌, All, All-append, All-keep_if, arith, ok, same, find,
}
use retsu.Domain.Message.{Uuid}
use retsu.Repository.{Delivery, dequeued}
use retsu.Postgres.Tables.{
  second, QueueRow, MessageRow, Database, Session, find_queue, queue_checks,
}
use retsu.Postgres.Queues.{insert_queue, update_row, reconfigured, QueueDetailsRow}
use retsu.Postgres.Messages.{insert_message}
use retsu.Postgres.Messages.Inversion.{insert_message-eq-some}
use retsu.Postgres.Dequeue.{dequeue_message}
use retsu.Postgres.Dequeue.Inversion.{dequeue_message-Delivers}
use retsu.Postgres.Calls.{
  Call, creates, reads_name, reads_details, updates, enqueues, dequeues, acknowledges, expires,
  purges, after, history,
}
use retsu.Postgres.Calls.Survival.{Keeps, after-keeps}
use retsu.Postgres.Leases.{IsHeld, dequeue_statement-IsHeld, not_delivered, delivered-IsHeld}

-- A call before the deadline that enqueues no message with this identifier.
abbrev pub IsQuiet : Uuid → ℕ → Session × Call → Type 0
IsQuiet id deadline (s, enqueues queue_id message ttl) = (s.now < deadline) × (message.id ≢ id)
IsQuiet id deadline (s, creates queue) = s.now < deadline
IsQuiet id deadline (s, reads_name queue_id) = s.now < deadline
IsQuiet id deadline (s, reads_details queue_id) = s.now < deadline
IsQuiet id deadline (s, updates queue_id configuration) = s.now < deadline
IsQuiet id deadline (s, dequeues queue_id handle) = s.now < deadline
IsQuiet id deadline (s, acknowledges queue_id message_id handle) = s.now < deadline
IsQuiet id deadline (s, expires batch_size) = s.now < deadline
IsQuiet id deadline (s, purges retention batch_size) = s.now < deadline

insert_queue-messages :
    (row : QueueRow) (db db' : Database) (r : Option Uuid)
    → insert_queue row db ≡ some (r, db')
    → db'.messages ≡ db.messages
insert_queue-messages row db db' r e = elim (Bool-cases (queue_checks row)) [
  | inr bad ↦ absurd (cc (rw bad at e))
  | inl good ↦ elim (Option-cases (find (λ q. same q.name row.name) db.queues)) [
    | inr (q, taken) ↦ ground arith
    | inl free ↦ elim (Option-cases (find_queue row.id db.queues)) [
      | inr (q, taken) ↦ absurd (ground arith)
      | inl fresh ↦ ground arith
    ]
  ]
]

update_row-messages :
    (change : QueueRow → QueueRow) (queue_id : Uuid) (db db' : Database)
    (r : Option QueueDetailsRow)
    → update_row change queue_id db ≡ some (r, db')
    → db'.messages ≡ db.messages
update_row-messages change queue_id db db' r e =
    elim (Option-cases (find_queue queue_id db.queues)) [
      | inl missing ↦ ground arith
      | inr (q, found) ↦ elim (Bool-cases (queue_checks (change q))) [
        | inr bad ↦ absurd (ground arith)
        | inl good ↦ ground arith
      ]
    ]

module _ (id : Uuid) (deadline : ℕ) where
  abbrev Held : Database → Type 0
  Held db = IsHeld id deadline db.messages

  insert_message-IsHeld :
      (row : MessageRow) (db db' : Database) (r : Unit {0})
      → row.id ≢ id
      → insert_message row db ≡ some (r, db')
      → Held db
      → Held db'
  insert_message-IsHeld row db db' r other e h =
      let (good, target, fresh, changed) = insert_message-eq-some row db db' r e in
      rw changed (All-append _ db.messages (row ∷ []) h ((λ same. absurd (other same)), tt))

  Keeps-IsHeld :
      (s : Session) (c : Call) (db : Database)
      → IsQuiet id deadline (s, c)
      → Held db
      → Keeps Held s c db
  unfolding Keeps
  Keeps-IsHeld s (creates queue) db early h =
      λ row r db' e. rw (insert_queue-messages row db db' r e) h
  Keeps-IsHeld s (reads_name queue_id) db early h = tt
  Keeps-IsHeld s (reads_details queue_id) db early h = tt
  Keeps-IsHeld s (updates queue_id configuration) db early h =
      λ x y z r db' e. rw (update_row-messages (reconfigured s.now x y z) queue_id db db' r e) h
  Keeps-IsHeld s (enqueues queue_id message ttl) db (early, other) h =
      λ r db' e. insert_message-IsHeld _ db db' r other e h
  Keeps-IsHeld s (dequeues queue_id handle) db early h =
      λ r db' e. dequeue_statement-IsHeld id deadline s queue_id handle db db' r early e h
  Keeps-IsHeld s (acknowledges queue_id message_id handle) db early h =
      All-keep_if _ _ db.messages h
  Keeps-IsHeld s (expires batch_size) db early h = All-keep_if _ _ db.messages h
  Keeps-IsHeld s (purges retention batch_size) db early h = h

  history-IsHeld :
      (cs : List (Session × Call)) (db : Database)
      → All (IsQuiet id deadline) cs
      → Held db
      → Held (history cs db)
  unfolding history
  history-IsHeld [] db quiet h = h
  history-IsHeld ((s, c) ∷ cs) db (now, later) h =
      history-IsHeld cs (after s c db) later (after-keeps Held s c db h (Keeps-IsHeld s c db now h))

-- A message that a dequeue has delivered is not delivered again before the end of the queue's
-- visibility timeout, after any calls before then that enqueue no message with its identifier,
-- whatever their order, times, locks and failures are.
pub dequeue_message-exclusive :
    (s s' : Session) (queue_id queue_id' handle handle' : Uuid) (q : QueueRow)
    (db db' end : Database) (d d' : Delivery) (cs : List (Session × Call))
    → find_queue queue_id db.queues ≡ some q
    → dequeue_message s queue_id handle db ≡ (ok (dequeued d), db')
    → All (IsQuiet d.id (s.now + q.visibility_timeout_seconds * second)) cs
    → s'.now < s.now + q.visibility_timeout_seconds * second
    → dequeue_message s' queue_id' handle' (history cs db') ≡ (ok (dequeued d'), end)
    → d'.id ≢ d.id
dequeue_message-exclusive s s' queue_id queue_id' handle handle' q db db' end d d' cs target e quiet
      early e' =
    let v = dequeue_message-Delivers s queue_id handle db db' d e in
    let same_queue : v.queue ≡ q = ground (arith, v.target) in
    not_delivered d.id _ s' queue_id' handle' (history cs db') end d' early e' (
      history-IsHeld d.id _ cs db' quiet (
        subst (λ x. IsHeld d.id (s.now + x.visibility_timeout_seconds * second) db'.messages)
          same_queue (delivered-IsHeld s queue_id handle db db' d v)))
