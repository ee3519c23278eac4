-- ===== src/Postgres/Dequeue/Inversion.antt =====
-- What a successful `dequeue_message` (src/modules/queue/infrastructure/postgres.rs) has done, case
-- by case: the lemmas that the other proofs about it share.
use retsu.Base.{
  contains, ℕ, ◌≡◌, refl, ◌⊎◌, inl, inr, true, not, none, some, List, [], ◌∷◌, Text, ok,
  Option-cases, Bool-cases, arith, pos, keep_if, length, from_utf8, All, ◌==◌, ==_iff,
}
use retsu.Domain.Message.{Uuid, rank}
use retsu.Domain.Message.Validation.{from_rank-eq-some_iff}
use retsu.Repository.{Delivery, dequeued, empty, queue_not_found}
use retsu.Postgres.Tables.{
  QueueRow, MessageRow, Database, Session, find_queue, message_checks, query-eq-ok,
}
use retsu.Postgres.Dequeue.{
  delivery_candidate, store_dead_letters, lease, replace_message, DequeueMessageRow, reply, victims,
  dequeue_from, dequeue_statement, dequeue_outcome, dequeue_message,
}

-- The rows that the statement moves out of `queue_message`, and those that it leaves.
abbrev pub moved : Session → QueueRow → Database → List MessageRow
moved s q db = keep_if (λ m. contains (victims s q db.messages) m.id) db.messages

abbrev pub stays : Session → QueueRow → Database → List MessageRow
stays s q db = keep_if (λ m. not (contains (victims s q db.messages) m.id)) db.messages

-- The statement leased the message `m`.
pub record Leases (s : Session) (q : QueueRow) (handle : Uuid) (db db' : Database) (m : MessageRow)
    (row : DequeueMessageRow) : Type 0 where
  pub stored : store_dead_letters s.now (moved s q db) db.dead_letters ≡ some db'.dead_letters
  pub chosen : delivery_candidate s q db.messages ≡ some m
  pub checked : message_checks (lease s.now q handle m) ≡ true
  pub messages : db'.messages ≡ replace_message (lease s.now q handle m) (stays s q db)
  pub queues : db'.queues ≡ db.queues
  pub next_order : db'.next_order ≡ db.next_order
  pub replied : row ≡ reply (some q.name) (some (lease s.now q handle m)) (length (moved s q db))

-- The statement found nothing to lease.
pub record FindsNone (s : Session) (q : QueueRow) (db db' : Database) (row : DequeueMessageRow)
    : Type 0 where
  pub stored : store_dead_letters s.now (moved s q db) db.dead_letters ≡ some db'.dead_letters
  pub chosen : delivery_candidate s q db.messages ≡ none
  pub messages : db'.messages ≡ stays s q db
  pub queues : db'.queues ≡ db.queues
  pub next_order : db'.next_order ≡ db.next_order
  pub replied : row ≡ reply (some q.name) none (length (moved s q db))

pub dequeue_from_cases :
    (s : Session) (q : QueueRow) (handle : Uuid) (db db' : Database) (row : DequeueMessageRow)
    → dequeue_from s q handle db ≡ some (row, db')
    → ((m : MessageRow) × Leases s q handle db db' m row) ⊎ FindsNone s q db db' row
unfolding dequeue_from
dequeue_from_cases s q handle db db' row e =
    elim (Option-cases (store_dead_letters s.now (moved s q db) db.dead_letters)) [
      | inl missing ↦ absurd (cc (rw (missing, dequeue_from) at e))
      | inr (letters, stored) ↦ elim (Option-cases (delivery_candidate s q db.messages)) [
        | inl nothing ↦ inr (ground arith)
        | inr (m, chosen) ↦ elim (Bool-cases (message_checks (lease s.now q handle m))) [
          | inl checked ↦ inl (m, ground arith)
          | inr refused ↦ absurd (cc (rw (stored, chosen, refused, dequeue_from) at e))
        ]
      ]
    ]

-- The reply of a delivery carries the leased row `m`.
pub record Reads (handle : Uuid) (name : Text) (m : MessageRow) (count : ℕ) (d : Delivery)
    : Type 0 where
  pub id : d.id ≡ m.id
  pub payload : d.payload ≡ m.payload
  pub priority : m.priority ≡ rank d.priority
  pub attempts : d.delivery_attempts ≡ m.delivery_attempts
  pub receipt : d.receipt_handle ≡ handle
  pub queue_name : d.queue_name ≡ name
  pub dead_lettered : d.dead_lettered ≡ count

reply-Reads :
    (handle : Uuid) (name : Text) (m : MessageRow) (count : ℕ) (d : Delivery)
    → dequeue_outcome handle (reply (some name) (some m) count) ≡ ok (dequeued d)
    → Reads handle name m count d
unfolding dequeue_outcome from_utf8
reply-Reads handle name m count d e =
    ground (arith, from_rank-eq-some_iff (pos m.priority) d.priority)

-- Everything that follows from a delivery.
pub record Delivers (s : Session) (queue_id handle : Uuid) (db db' : Database) (d : Delivery)
    : Type 0 where
  pub queue : QueueRow
  pub message : MessageRow
  pub row : DequeueMessageRow
  pub target : find_queue queue_id db.queues ≡ some queue
  pub leases : Leases s queue handle db db' message row
  pub reads :
      Reads handle queue.name (lease s.now queue handle message) (length (moved s queue db)) d

-- Everything that follows from an empty reply.
pub record Idles (s : Session) (queue_id : Uuid) (db db' : Database) (name : Text) (count : ℕ)
    : Type 0 where
  pub queue : QueueRow
  pub row : DequeueMessageRow
  pub target : find_queue queue_id db.queues ≡ some queue
  pub finds : FindsNone s queue db db' row
  pub queue_name : name ≡ queue.name
  pub dead_lettered : count ≡ length (moved s queue db)

pub statement_cases :
    (s : Session) (queue_id handle : Uuid) (db db' : Database) (row : DequeueMessageRow)
    → dequeue_statement s queue_id handle db ≡ some (row, db')
    → ((find_queue queue_id db.queues ≡ none) × (row ≡ reply none none 0) × (db' ≡ db))
      ⊎ ((q : QueueRow) × (find_queue queue_id db.queues ≡ some q)
          × (dequeue_from s q handle db ≡ some (row, db')))
unfolding dequeue_statement
statement_cases s queue_id handle db db' row e =
    elim (Option-cases (find_queue queue_id db.queues)) [
      | inl missing ↦ inl (ground arith)
      | inr (q, target) ↦ inr (q, target, rw (target, dequeue_statement) at e)
    ]

module _ (s : Session) (queue_id handle : Uuid) (db db' : Database) where
  row-Delivers :
      (d : Delivery) (row : DequeueMessageRow)
      → dequeue_statement s queue_id handle db ≡ some (row, db')
      → dequeue_outcome handle row ≡ ok (dequeued d)
      → Delivers s queue_id handle db db' d
  unfolding dequeue_outcome
  row-Delivers d row ran read = elim (statement_cases s queue_id handle db db' row ran) [
    | inl (missing, replied, same) ↦ absurd (no_queue (rw replied at read))
    | inr (q, target, ran') ↦ elim (dequeue_from_cases s q handle db db' row ran') [
      | inl (m, l) ↦ record {
        queue = q;
        message = m;
        row = row;
        target = target;
        leases = l;
        reads = reply-Reads handle q.name _ _ d (rw l.replied at read);
      }
      | inr f ↦ absurd (idle q.name (length (moved s q db)) (rw f.replied at read))
    ]
  ]
    where
      no_queue : dequeue_outcome handle (reply none none 0) ≡ ok (dequeued d) → ⊥
      no_queue e = cc

      idle :
          (name : Text) (count : ℕ)
          → dequeue_outcome handle (reply (some name) none count) ≡ ok (dequeued d)
          → ⊥
      idle name count e = cc

  pub dequeue_message-Delivers :
      (d : Delivery)
      → dequeue_message s queue_id handle db ≡ (ok (dequeued d), db')
      → Delivers s queue_id handle db db' d
  unfolding dequeue_message
  dequeue_message-Delivers d e =
      let (row, ran, read) =
        query-eq-ok s (dequeue_statement s queue_id handle) (dequeue_outcome handle) db db' e in
      row-Delivers d row ran read

  row-Idles :
      (name : Text) (count : ℕ) (row : DequeueMessageRow)
      → dequeue_statement s queue_id handle db ≡ some (row, db')
      → dequeue_outcome handle row ≡ ok (empty name count)
      → Idles s queue_id db db' name count
  unfolding dequeue_outcome
  row-Idles name count row ran read = elim (statement_cases s queue_id handle db db' row ran) [
    | inl (missing, replied, same) ↦ absurd (cc (rw replied at read))
    | inr (q, target, ran') ↦ elim (dequeue_from_cases s q handle db db' row ran') [
      | inl (m, l) ↦ absurd (leased q.name (lease s.now q handle m) _ (rw l.replied at read))
      | inr f ↦
          let (same_name, same_count) = emptied q.name _ (rw f.replied at read) in
          record {
            queue = q;
            row = row;
            target = target;
            finds = f;
            queue_name = same_name;
            dead_lettered = same_count;
          }
    ]
  ]
    where
      leased :
          (n : Text) (m : MessageRow) (c : ℕ)
          → dequeue_outcome handle (reply (some n) (some m) c) ≡ ok (empty name count)
          → ⊥
      leased n m c e = ground arith

      emptied :
          (n : Text) (c : ℕ)
          → dequeue_outcome handle (reply (some n) none c) ≡ ok (empty name count)
          → (name ≡ n) × (count ≡ c)
      emptied n c e = ground arith

  pub dequeue_message-Idles :
      (name : Text) (count : ℕ)
      → dequeue_message s queue_id handle db ≡ (ok (empty name count), db')
      → Idles s queue_id db db' name count
  unfolding dequeue_message
  dequeue_message-Idles name count e =
      let (row, ran, read) =
        query-eq-ok s (dequeue_statement s queue_id handle) (dequeue_outcome handle) db db' e in
      row-Idles name count row ran read

  row_missed :
      (row : DequeueMessageRow)
      → dequeue_statement s queue_id handle db ≡ some (row, db')
      → dequeue_outcome handle row ≡ ok queue_not_found
      → db' ≡ db
  unfolding dequeue_outcome
  row_missed row ran read = elim (statement_cases s queue_id handle db db' row ran) [
    | inl (missing, replied, same) ↦ same
    | inr (q, target, ran') ↦ elim (dequeue_from_cases s q handle db db' row ran') [
      | inl (m, l) ↦ absurd (leased q.name (lease s.now q handle m) _ (rw l.replied at read))
      | inr f ↦ absurd (idle q.name _ (rw f.replied at read))
    ]
  ]
    where
      leased :
          (n : Text) (m : MessageRow) (c : ℕ)
          → dequeue_outcome handle (reply (some n) (some m) c) ≡ ok queue_not_found
          → ⊥
      leased n m c e = ground arith

      idle :
          (n : Text) (c : ℕ)
          → dequeue_outcome handle (reply (some n) none c) ≡ ok queue_not_found
          → ⊥
      idle n c e = cc

  -- The answer that there is no such queue leaves the tables.
  pub dequeue_message-queue_not_found :
      dequeue_message s queue_id handle db ≡ (ok queue_not_found, db') → db' ≡ db
  unfolding dequeue_message
  dequeue_message-queue_not_found e =
      let (row, ran, read) =
        query-eq-ok s (dequeue_statement s queue_id handle) (dequeue_outcome handle) db db' e in
      row_missed row ran read

-- In the place of the rows with its identifier there is only the leased row.
pub replaced_row :
    (row : MessageRow) (ms : List MessageRow)
    → All (λ x. x.id ≡ row.id → x ≡ row) (replace_message row ms)
replaced_row row [] = tt
replaced_row row (x ∷ ms) = elim (Bool-cases (x.id == row.id)) [
  | inl e ↦ (rw e (λ same. refl), replaced_row row ms)
  | inr e ↦ (rw e (λ same. absurd (ground (arith, ==_iff x.id row.id))), replaced_row row ms)
]
