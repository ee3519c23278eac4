-- ===== src/Postgres/Invariant/Messages.antt =====
-- The statements on messages and dead letters keep the invariant
-- (src/modules/queue/infrastructure/postgres.rs).
use mathlib.Core.List.{map-append}
use mathlib.Core.Option
use retsu.Base.{
  ℕ, ◌+◌, ◌≡◌, refl, sym, ap, ◌∙◌, Bool, true, false, some, List, [], ◌∷◌, ◌++◌, All, All-append,
  All-map, All-change, All-keep_if, All-Memᴰ, keep_if, contains, Distinct-append, Distinct-keep_if,
  key_unique, map-key_same, arith, Bool-cases, Option-cases, inl, inr, ◌==◌, ==_iff, if◌then◌else◌,
}
use retsu.Domain.Message.{Uuid}
use retsu.Postgres.Tables.{
  QueueRow, MessageRow, DeadLetterRow, Database, Session, message_ids, dead_letter_ids,
  message_checks, dead_letter_checks,
}
use retsu.Postgres.Messages.{insert_message}
use retsu.Postgres.Messages.Inversion.{insert_message-eq-some}
use retsu.Postgres.Dequeue.{
  dead_letter, store_dead_letter, store_dead_letters, lease, replace_message, DequeueMessageRow,
  dequeue_statement,
}
use retsu.Postgres.Dequeue.Inversion.{
  moved, stays, Leases, FindsNone, dequeue_from_cases, statement_cases,
}
use retsu.Postgres.Dequeue.Order.{one_chosen}
use retsu.Postgres.Invariant.{queue_ids, orders, MessageOk, MessagesOk, DeadLettersOk, IsWellFormed}
use retsu.Postgres.Invariant.Queues.{is_some-find_queue}

module _ (known : List Uuid) (next : ℕ) where
  pub keep_if-MessagesOk :
      (p : MessageRow → Bool) (ms : List MessageRow)
      → MessagesOk known next ms
      → MessagesOk known next (keep_if p ms)
  keep_if-MessagesOk p ms w = record {
    rows = All-keep_if _ p ms w.rows;
    ids = Distinct-keep_if (λ m. m.id) p ms w.ids;
    order = Distinct-keep_if (λ m. m.enqueue_order) p ms w.order;
  }

  older : (ms : List MessageRow) → All (MessageOk known next) ms → contains (orders ms) next ≡ false
  older [] h = refl
  older (m ∷ ms) h = ground (arith, older ms h.1)

  appended-MessagesOk :
      (ms : List MessageRow) (row : MessageRow)
      → MessagesOk known next ms
      → message_checks row ≡ true
      → contains known row.queue_id ≡ true
      → contains (message_ids ms) row.id ≡ false
      → row.enqueue_order ≡ next
      → MessagesOk known (next + 1) (ms ++ row ∷ [])
  appended-MessagesOk ms row w checked target fresh last = record {
    rows =
        All-append _ ms (row ∷ [])
          (All-map (MessageOk known next) _ (λ m h. (h.0, h.1, omega arith)) ms w.rows)
          ((checked, target, omega arith), tt);
    ids = rw map-append (Distinct-append _ row.id w.ids fresh);
    order = rw map-append (Distinct-append _ row.enqueue_order w.order (rw last (older ms w.rows)));
  }

  -- The replaced row is the only one with its identifier, and has its place in the order.
  module _ (m row : MessageRow) (id_kept : row.id ≡ m.id)
      (order_kept : row.enqueue_order ≡ m.enqueue_order) where
    replace_message-MessagesOk :
        (ms : List MessageRow)
        → MessagesOk known next ms
        → All (λ x. x.id ≡ m.id → x ≡ m) ms
        → MessageOk known next row
        → MessagesOk known next (replace_message row ms)
    replace_message-MessagesOk ms w only good = record {
      rows =
          All-change (MessageOk known next) _
            (λ x h. elim (Bool-cases (x.id == row.id)) [ inl e ↦ rw e good | inr e ↦ rw e h ]) ms
            w.rows;
      ids =
          rw
            (map-key_same (λ x. x.id) (λ x. if x.id == row.id then row else x) ms
              (All-map _ _ (λ x h. ground arith) ms w.rows))
            w.ids;
      order =
          rw
            (map-key_same (λ x. x.enqueue_order) (λ x. if x.id == row.id then row else x) ms
              (All-map (λ x. x.id ≡ m.id → x ≡ m) _
                (λ x h. elim (Bool-cases (x.id == row.id)) [
                  | inl e ↦ rw e (
                      order_kept ∙ ap (λ y. y.enqueue_order) (sym (h ((==_iff _ _).0 e ∙ id_kept))))
                  | inr e ↦ rw e
                ])
                ms only))
            w.order;
    }

pub insert_message-IsWellFormed :
    (row : MessageRow) (db db' : Database) (r : Unit {0})
    → row.enqueue_order ≡ db.next_order
    → insert_message row db ≡ some (r, db')
    → IsWellFormed db
    → IsWellFormed db'
insert_message-IsWellFormed row db db' r last e w =
    let (good, target, fresh, changed) = insert_message-eq-some row db db' r e in
    rw changed (record {
      queues = w.queues;
      messages =
          appended-MessagesOk _ _ db.messages row w.messages good
            (sym (is_some-find_queue row.queue_id db.queues) ∙ target) fresh last;
      dead_letters = w.dead_letters;
    })

module _ (known : List Uuid) where
  store_dead_letter-DeadLettersOk :
      (now : ℕ) (m : MessageRow) (letters letters' : List DeadLetterRow)
      → contains known m.queue_id ≡ true
      → store_dead_letter now m letters ≡ some letters'
      → DeadLettersOk known letters
      → DeadLettersOk known letters'
  store_dead_letter-DeadLettersOk now m letters letters' target e w =
      elim (Option-cases m.last_delivered_at) [
        | inl never ↦ absurd (cc (rw never at e))
        | inr (t, delivered) ↦
            let row = dead_letter now t m in
            elim (Bool-cases (dead_letter_checks row)) [
              | inr bad ↦ absurd (cc (rw (delivered, bad) at e))
              | inl good ↦ elim (Bool-cases (contains (dead_letter_ids letters) m.id)) [
                | inl bad ↦ absurd (cc (rw (delivered, good, bad) at e))
                | inr fresh ↦
                    let changed : letters' ≡ letters ++ row ∷ [] =
                      cc (rw (delivered, good, fresh) at e) in
                    rw changed (record {
                      rows = All-append _ letters (row ∷ []) w.rows ((good, target), tt);
                      ids = rw map-append (Distinct-append _ m.id w.ids fresh);
                    })
              ]
            ]
      ]

  pub store_dead_letters-DeadLettersOk :
      (now : ℕ) (ms : List MessageRow) (letters letters' : List DeadLetterRow)
      → All (λ m. contains known m.queue_id ≡ true) ms
      → store_dead_letters now ms letters ≡ some letters'
      → DeadLettersOk known letters
      → DeadLettersOk known letters'
  unfolding store_dead_letters Option.bind
  store_dead_letters-DeadLettersOk now [] letters letters' h e w =
      let same : letters ≡ letters' = cc in rw (← same) w
  store_dead_letters-DeadLettersOk now (m ∷ ms) letters letters' h e w =
      elim (Option-cases (store_dead_letter now m letters)) [
        | inl bad ↦ absurd (cc (rw (bad, store_dead_letters) at e))
        | inr (next, stored) ↦
            store_dead_letters-DeadLettersOk now ms next letters' h.1
              (rw (stored, store_dead_letters) at e)
              (store_dead_letter-DeadLettersOk now m letters next h.0 stored w)
      ]

abbrev Targets : List Uuid → List MessageRow → Type 0
Targets known = All λ m. contains known m.queue_id ≡ true

moved-Targets :
    (s : Session) (q : QueueRow) (db : Database)
    → IsWellFormed db
    → Targets (queue_ids db.queues) (moved s q db)
moved-Targets s q db w = All-keep_if _ _ db.messages (
    All-map (MessageOk (queue_ids db.queues) db.next_order) _ (λ m h. h.1) db.messages
      w.messages.rows)

module _ (s : Session) (q : QueueRow) (handle : Uuid) (db db' : Database) (row : DequeueMessageRow)
    (w : IsWellFormed db) where
  Leases-IsWellFormed : (m : MessageRow) → Leases s q handle db db' m row → IsWellFormed db'
  Leases-IsWellFormed m l =
      let listed = (one_chosen s q db.messages m l.chosen).0.0 in
      let ok_m = All-Memᴰ _ w.messages.rows listed in
      record {
        queues = rw l.queues w.queues;
        messages =
            rw (l.queues, l.next_order, l.messages)
              (replace_message-MessagesOk _ _ m (lease s.now q handle m) refl refl (stays s q db)
                (keep_if-MessagesOk _ _ _ db.messages w.messages)
                (All-keep_if _ _ db.messages
                  (key_unique (λ x. x.id) db.messages w.messages.ids listed))
                (l.checked, ok_m.1, ok_m.2));
        dead_letters = rw l.queues (
            store_dead_letters-DeadLettersOk _ s.now (moved s q db) db.dead_letters _
              (moved-Targets s q db w) l.stored w.dead_letters);
      }

  FindsNone-IsWellFormed : FindsNone s q db db' row → IsWellFormed db'
  FindsNone-IsWellFormed f = record {
    queues = rw f.queues w.queues;
    messages =
        rw (f.queues, f.next_order, f.messages) (keep_if-MessagesOk _ _ _ db.messages w.messages);
    dead_letters = rw f.queues (
        store_dead_letters-DeadLettersOk _ s.now (moved s q db) db.dead_letters _
          (moved-Targets s q db w) f.stored w.dead_letters);
  }

pub dequeue_statement-IsWellFormed :
    (s : Session) (queue_id handle : Uuid) (db db' : Database) (row : DequeueMessageRow)
    → dequeue_statement s queue_id handle db ≡ some (row, db')
    → IsWellFormed db
    → IsWellFormed db'
dequeue_statement-IsWellFormed s queue_id handle db db' row e w =
    elim (statement_cases s queue_id handle db db' row e) [
      | inl (missing, replied, same) ↦ rw same w
      | inr (q, target, ran) ↦ elim (dequeue_from_cases s q handle db db' row ran) [
        | inl (m, l) ↦ Leases-IsWellFormed s q handle db db' row w m l
        | inr f ↦ FindsNone-IsWellFormed s q handle db db' row w f
      ]
    ]

module _ (db : Database) (w : IsWellFormed db) where
  -- Deleting rows needs no constraint.
  pub fewer_messages-IsWellFormed :
      (p : MessageRow → Bool) → IsWellFormed (record db { messages = keep_if p db.messages })
  fewer_messages-IsWellFormed p = record {
    queues = w.queues;
    messages = keep_if-MessagesOk _ _ p db.messages w.messages;
    dead_letters = w.dead_letters;
  }

  pub fewer_letters-IsWellFormed :
      (p : DeadLetterRow → Bool)
      → IsWellFormed (record db { dead_letters = keep_if p db.dead_letters })
  fewer_letters-IsWellFormed p = record {
    queues = w.queues;
    messages = w.messages;
    dead_letters = record {
      rows = All-keep_if _ p db.dead_letters w.dead_letters.rows;
      ids = Distinct-keep_if (λ d. d.id) p db.dead_letters w.dead_letters.ids;
    };
  }
