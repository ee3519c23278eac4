-- ===== src/Postgres/Progress.antt =====
-- A dequeue always answers (src/modules/queue/infrastructure/postgres.rs).

use retsu.Base.{
  ℕ, ◌≤◌, ◌≡◌, ◌≢◌, refl, ◌∙◌, true, none, some, Option-cases, inl, inr, List, Text, is_utf8,
  from_utf8, All, All-map, All-both, ◌↔◌, All-keep_if, All-Memᴰ, Distinct-keep_if, picked-All, ok,
  arith, find-Memᴰ, length,
}
use retsu.Domain.Message.{Uuid}
use retsu.Repository.{Delivery, DequeueMessageOutcome, dequeued, empty, queue_not_found}
use retsu.Postgres.Tables.{
  QueueRow, MessageRow, DeadLetterRow, Database, Session, no_fault, find_queue, dead_letter_ids,
  queue_checks, query-some,
}
use retsu.Postgres.Dequeue.{
  DequeueMessageRow, replace_message, is_exhausted, dead_letter_order, dead_letter_candidates,
  delivery_candidate, dequeue_dead_letter_batch_size, store_dead_letters, lease, reply,
  dequeue_from, dequeue_statement, dequeue_outcome, dequeue_message,
}
use retsu.Postgres.Dequeue.Inversion.{moved, stays}
use retsu.Postgres.Dequeue.Order.{one_chosen}
use retsu.Postgres.Invariant.{IsWellFormed, MessageOk, queue_ids}
use retsu.Postgres.Servable.{IsServable, row_checks, storable, store-all, lease-checked, rank-read}

-- Reading the reply of a delivery succeeds.
outcome-some :
    (handle : Uuid) (name : Text) (m : MessageRow) (count : ℕ)
    → is_utf8 m.payload ≡ true
    → 1 ≤ m.priority
    → m.priority ≤ 3
    → (d : Delivery) × (dequeue_outcome handle (reply (some name) (some m) count) ≡ ok (dequeued d))
unfolding dequeue_outcome from_utf8
outcome-some handle name m count text lo hi =
    let (p, ranked) = rank-read m.priority lo hi in
    let d : Delivery = record {
      id = m.id;
      payload = m.payload;
      priority = p;
      receipt_handle = handle;
      delivery_attempts = m.delivery_attempts;
      queue_name = name;
      dead_lettered = count;
    } in
    (d, rw (text, ranked) refl)

outcome-none :
    (handle : Uuid) (name : Text) (count : ℕ)
    → dequeue_outcome handle (reply (some name) none count) ≡ ok (empty name count)
unfolding dequeue_outcome
outcome-none handle name count = refl

module _ (s : Session) (handle : Uuid) (db : Database) (w : IsWellFormed db)
    (servable : All (IsServable s.now (dead_letter_ids db.dead_letters)) db.messages) where
  abbrev Served : MessageRow → Type 0
  Served m =
      MessageOk (queue_ids db.queues) db.next_order m
      × IsServable s.now (dead_letter_ids db.dead_letters) m

  served : All Served db.messages
  served = All-both _ _ db.messages w.messages.rows servable

  moved-stored :
      (q : QueueRow)
      → (letters : List DeadLetterRow) × (store_dead_letters s.now (moved s q db) db.dead_letters
          ≡ some letters)
  unfolding dead_letter_candidates
  moved-stored q =
      store-all s.now (moved s q db) db.dead_letters
        (All-map (λ m. Served m × (is_exhausted s.now q m ≡ true)) _
          (λ m h. storable s.now q m _ _ refl refl h.1 h.0.0.0 h.0.1.delivered) (moved s q db)
          (All-both _ _ (moved s q db) (All-keep_if Served _ db.messages served) (
            picked-All (λ m. m.id) (is_exhausted s.now q) dead_letter_order (λ m. s.is_locked m.id)
              dequeue_dead_letter_batch_size db.messages w.messages.ids)))
        (Distinct-keep_if (λ m. m.id) _ db.messages w.messages.ids)
        (All-map Served _ (λ m h. h.1.apart) (moved s q db)
          (All-keep_if Served _ db.messages served))

  from-some :
      (q : QueueRow)
      → queue_checks q ≡ true
      → (row : DequeueMessageRow) × (db' : Database) × (r : DequeueMessageOutcome) × (dequeue_from s
            q handle db
          ≡ some (row, db'))
        × (dequeue_outcome handle row ≡ ok r)
        × (r ≢ queue_not_found)
  unfolding dequeue_from
  from-some q good =
      let (letters, stored) = moved-stored q in
      elim (Option-cases (delivery_candidate s q db.messages)) [
        | inl nothing ↦
            let count = length (moved s q db) in
            let kept : Database = record db { messages = stays s q db; dead_letters = letters } in
            (
              reply (some q.name) none count,
              kept,
              empty q.name count,
              rw (dequeue_from, stored, nothing) refl,
              outcome-none handle q.name count,
              (λ e. cc),
            )
        | inr (m, chosen) ↦
            let (listed, fit) = (one_chosen s q db.messages m chosen).0 in
            let (row_ok, able) = All-Memᴰ Served served listed in
            let (states, deliveries, lo, hi, live, span) = row_checks m row_ok.0 in
            let leased = lease-checked s.now q handle m good row_ok.0 fit.0 able.enqueued in
            let count = length (moved s q db) in
            let row = lease s.now q handle m in
            let (d, read) = outcome-some handle q.name row count able.text lo hi in
            let kept : Database = record db {
              messages = replace_message row (stays s q db);
              dead_letters = letters;
            } in
            (
              reply (some q.name) (some row) count,
              kept,
              dequeued d,
              rw (dequeue_from, stored, chosen, leased) refl,
              read,
              (λ e. cc),
            )
      ]

statement-none :
    (s : Session) (queue_id handle : Uuid) (db : Database)
    → find_queue queue_id db.queues ≡ none
    → dequeue_statement s queue_id handle db ≡ some (reply none none 0, db)
unfolding dequeue_statement
statement-none s queue_id handle db missing = rw (dequeue_statement, missing) refl

statement-some :
    (s : Session) (queue_id handle : Uuid) (db : Database) (q : QueueRow)
    → find_queue queue_id db.queues ≡ some q
    → dequeue_statement s queue_id handle db ≡ dequeue_from s q handle db
unfolding dequeue_statement
statement-some s queue_id handle db q found = rw (dequeue_statement, found) refl

-- A dequeue answers, and that there is no such queue exactly when there is none, when nothing
-- fails around its statement, on tables that meet their constraints and whose messages are text,
-- were enqueued and last delivered no later than the statement, and share no identifier with a
-- dead letter.
pub dequeue_message-answers :
    (s : Session) (queue_id handle : Uuid) (db : Database)
    → IsWellFormed db
    → All (IsServable s.now (dead_letter_ids db.dead_letters)) db.messages
    → s.fault ≡ no_fault
    → (r : DequeueMessageOutcome) × (db' : Database) × (dequeue_message s queue_id handle db
        ≡ (ok r, db'))
      × ((r ≡ queue_not_found) ↔ (find_queue queue_id db.queues ≡ none))
unfolding dequeue_message dequeue_outcome
dequeue_message-answers s queue_id handle db w servable clear =
    elim (Option-cases (find_queue queue_id db.queues)) [
      | inl missing ↦ (
        queue_not_found,
        db,
        rw (statement-none s queue_id handle db missing, clear) refl,
        ((λ e. missing), (λ e. refl)),
      )
      | inr (q, found) ↦
          let listed = (find-Memᴰ _ db.queues found).0 in
          let good = All-Memᴰ (λ x. queue_checks x ≡ true) w.queues.checked listed in
          let (row, db', r, ran, read, real) = from-some s handle db w servable q good in
          (
            r,
            db',
            query-some s (dequeue_statement s queue_id handle) (dequeue_outcome handle) row r db db'
                clear (statement-some s queue_id handle db q found ∙ ran) read,
            ((λ e. absurd (real e)), (λ e. absurd (ground arith))),
          )
    ]
