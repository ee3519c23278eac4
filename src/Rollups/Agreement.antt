-- ===== src/Rollups/Agreement.antt =====
-- The counts agree with the messages after any history of calls
-- (migrations/20260727190617_create_queue_priority_state_rollups.sql).
use mathlib.Core.Option
use retsu.Base.{
  ℕ, ◌≡◌, ◌++◌, ◌∙◌, sym, refl, ap, subst, arith, Bool, true, not, none, some, Option, Option-cases,
  Bool-cases, inl, inr, List, [], ◌∷◌, contains, keep_if, All, All-map, All-keep_if, All-Memᴰ,
  Memᴰ-keep_if, Distinct-keep_if, Memᴰ,
}
use retsu.Domain.Message.{Uuid, Message}
use retsu.Postgres.Tables.{QueueRow, MessageRow, Database, Session, executed, find_queue}
use retsu.Postgres.Messages.{
  new_row, insert_message, is_leased_as, enqueue_message, acknowledge_message,
}
use retsu.Postgres.Messages.Inversion.{insert_message-eq-some}
use retsu.Postgres.Dequeue.{
  delivery_candidate, lease, dequeue_statement, dequeue_message, DequeueMessageRow, victims,
  replace_message,
}
use retsu.Postgres.Dequeue.Inversion.{moved, stays, dequeue_from_cases, statement_cases}
use retsu.Postgres.Dequeue.Order.{one_chosen}
use retsu.Postgres.DeadLetters.{picked-exhausted}
use retsu.Postgres.Cleanup.{expired_ids, process_expired_messages, delete_expired}
use retsu.Postgres.Calls.{Call, enqueues, dequeues, acknowledges, expires, after}
use retsu.Postgres.Invariant.{IsWellFormed, MessageOk, queue_ids}
use retsu.Postgres.Invariant.Queues.{is_some-find_queue}
use retsu.Rollups.Shards.{ShardRow, adjust_all}
use retsu.Rollups.Trigger.{Dml, inserted, deleted, updated, changes, tally, fire}
use retsu.Rollups.Replacement.{insert-Replaces, delete-Replaces, replace-Replaces}
use retsu.Rollups.Firing.{
  Agrees, Fires, IsKeyed, row-IsKeyed, inserted-Fires, deleted-Fires, updated-Fires,
}
use retsu.Rollups.Execution.{executed-none, executed-some, read-database}
use retsu.Rollups.Calls.{executes, unless_refused, leases, dequeue_dml, dml}

module _ (s : Session) (db : Database) (rows : List ShardRow) (w : IsWellFormed db)
    (a : Agrees rows db.messages) where
  abbrev pub known : List Uuid
  known = queue_ids db.queues

  abbrev pub Yields : List Dml → List MessageRow → Type 0
  Yields ds ms = (rows' : List ShardRow) × (fire known ds rows ≡ some rows') × Agrees rows' ms

  abbrev pub Rolls : Call → Type 0
  Rolls c = Yields (dml s c db) (after s c db).messages

  pub by_parts :
      (c : Call) (ds : List Dml) (ms : List MessageRow)
      → dml s c db ≡ ds
      → (after s c db).messages ≡ ms
      → Yields ds ms
      → Rolls c
  by_parts c ds ms e left y =
      subst (λ d. Yields d (after s c db).messages) (sym e) (subst (Yields ds) (sym left) y)

  pub no_trigger : Yields [] db.messages
  unfolding fire
  no_trigger = (rows, refl, a)

  all-IsKeyed : All (IsKeyed known) db.messages
  all-IsKeyed =
      All-map (MessageOk known db.next_order) (IsKeyed known) (λ m h. row-IsKeyed known m h.1 h.0)
        db.messages w.messages.rows

  fire-one : (d : Dml) (ms : List MessageRow) → Fires known d rows ms → Yields (d ∷ []) ms
  unfolding fire Option.bind
  fire-one d ms (rows', ran, b) = (rows', rw ran refl, b)

  module _ (run : executes s.fault ≡ true) where
    delete-Rolls :
        (test : MessageRow → Bool) (c : Call)
        → dml s c db ≡ deleted (keep_if test db.messages) ∷ []
        → (after s c db).messages ≡ keep_if (λ m. not (test m)) db.messages
        → Rolls c
    delete-Rolls test c e left = by_parts c _ _ e left (
        fire-one (deleted (keep_if test db.messages)) _ (
          deleted-Fires known db.messages _ rows a _ (delete-Replaces test db.messages)
            (All-keep_if (IsKeyed known) test db.messages all-IsKeyed)))

    pub acknowledges-Rolls :
        (id message_id handle : Uuid) → Rolls (acknowledges id message_id handle)
    unfolding dml after acknowledge_message
    acknowledges-Rolls id message_id handle =
        delete-Rolls (is_leased_as s.now id message_id handle) (acknowledges id message_id handle)
          refl (ap (λ x. x.messages) (read-database _ _ ∙ executed-some s.fault db _ _ run))

    pub expires-Rolls : (batch_size : ℕ) → Rolls (expires batch_size)
    unfolding dml after process_expired_messages delete_expired
    expires-Rolls batch_size =
        delete-Rolls (λ m. contains (expired_ids s batch_size db.messages) m.id)
          (expires batch_size) refl
          (ap (λ x. x.messages) (read-database _ _ ∙ executed-some s.fault db _ _ run))

    pub enqueues-Rolls : (id : Uuid) (message : Message) (ttl : ℕ) → Rolls (enqueues id message ttl)
    unfolding dml after enqueue_message fire
    enqueues-Rolls id message ttl =
        let row = new_row s.now db.next_order id message ttl in
        let fired : Option (Unit {0} × Database) → List Dml =
          unless_refused (inserted (row ∷ []) ∷ []) in
        let left : Option (Unit {0} × Database) → List MessageRow =
          λ o. (executed s.fault db o).1.messages in
        elim (Option-cases (insert_message row db)) [
          | inl refused ↦
              by_parts (enqueues id message ttl) [] db.messages (ap fired refused)
                (ap left refused ∙ ap (λ x. x.messages) (executed-none (Unit {0}) s.fault db))
                no_trigger
          | inr ((r, db'), stored) ↦
              let (good, target, fresh, changed) = insert_message-eq-some row db db' r stored in
              let there = sym (is_some-find_queue id db.queues) ∙ target in
              by_parts (enqueues id message ttl) (inserted (row ∷ []) ∷ [])
                (db.messages ++ row ∷ []) (ap fired stored)
                (ap left stored
                  ∙ ap (λ x. x.messages) (executed-some s.fault db r db' run ∙ changed))
                (fire-one (inserted (row ∷ [])) _ (
                  inserted-Fires known db.messages _ rows a row (insert-Replaces row db.messages)
                    (row-IsKeyed known row there good)))
        ]

    moved-Fires : (q : QueueRow) → Fires known (deleted (moved s q db)) rows (stays s q db)
    moved-Fires q =
        deleted-Fires known db.messages _ rows a _
          (delete-Replaces (λ m. contains (victims s q db.messages) m.id) db.messages)
          (All-keep_if (IsKeyed known) _ db.messages all-IsKeyed)

    -- The message that a dequeue leases is not one that it moves away.
    leased-stays :
        (q : QueueRow) (m : MessageRow)
        → delivery_candidate s q db.messages ≡ some m
        → Memᴰ m (stays s q db)
    leased-stays q m chosen =
        let (listed, (fits, free)) = (one_chosen s q db.messages m chosen).0 in
        Memᴰ-keep_if _ db.messages listed
          (elim (Bool-cases (contains (victims s q db.messages) m.id)) [
            | inl e ↦
                let gone = picked-exhausted s q db.messages m w.messages.ids listed e in
                absurd (ground (arith, fits, gone))
            | inr e ↦ rw e refl
          ])

    leases-Yields :
        (q : QueueRow) (handle : Uuid) (m : MessageRow)
        → delivery_candidate s q db.messages ≡ some m
        → Yields
            (deleted (moved s q db) ∷ leases s.now q handle (some m) ∷ [])
            (replace_message (lease s.now q handle m) (stays s q db))
    unfolding fire Option.bind
    leases-Yields q handle m chosen =
        let (rows1, ran1, a1) = moved-Fires q in
        let keyed =
          All-Memᴰ (IsKeyed known) all-IsKeyed ((one_chosen s q db.messages m chosen).0.0) in
        let (rows2, ran2, a2) =
          updated-Fires known (stays s q db) _ rows1 a1 m (lease s.now q handle m) refl
            (replace-Replaces m (lease s.now q handle m) (stays s q db) refl
              (leased-stays q m chosen) (Distinct-keep_if (λ x. x.id) _ db.messages w.messages.ids))
            keyed keyed in
        (rows2, rw (ran1, ran2) refl, a2)

    idles-Yields :
        (q : QueueRow) (handle : Uuid)
        → Yields (deleted (moved s q db) ∷ leases s.now q handle none ∷ []) (stays s q db)
    unfolding fire changes adjust_all tally Option.bind
    idles-Yields q handle = let (rows1, ran1, a1) = moved-Fires q in (rows1, rw ran1 refl, a1)

    untouched-Yields : Yields (deleted [] ∷ updated [] [] ∷ []) db.messages
    unfolding fire changes adjust_all tally Option.bind
    untouched-Yields = (rows, refl, a)

    pub dequeues-Rolls : (id handle : Uuid) → Rolls (dequeues id handle)
    unfolding dml after dequeue_message
    dequeues-Rolls id handle =
        let c = dequeues id handle in
        let fired : Option (DequeueMessageRow × Database) → List Dml =
          λ x. unless_refused (dequeue_dml s handle db (find_queue id db.queues)) x in
        let target_of : Option QueueRow → List Dml = λ x. dequeue_dml s handle db x in
        let left : Option (DequeueMessageRow × Database) → List MessageRow =
          λ o. (executed s.fault db o).1.messages in
        let read : (after s c db).messages ≡ left (dequeue_statement s id handle db) =
          ap (λ x. x.messages) (read-database _ _) in
        elim (Option-cases (dequeue_statement s id handle db)) [
          | inl refused ↦
              by_parts c [] db.messages (ap fired refused)
                (read
                  ∙ ap left refused
                  ∙ ap (λ x. x.messages) (executed-none DequeueMessageRow s.fault db))
                no_trigger
          | inr ((r, db'), stored) ↦
              let ends =
                read ∙ ap left stored ∙ ap (λ x. x.messages) (executed-some s.fault db r db' run) in
              elim (statement_cases s id handle db db' r stored) [
                | inl (missing, replied, kept) ↦
                    by_parts c _ db.messages (ap fired stored ∙ ap target_of missing)
                      (ends ∙ ap (λ x. x.messages) kept) untouched-Yields
                | inr (q, target, ran) ↦
                    let ds : Option MessageRow → List Dml =
                      λ x. deleted (moved s q db) ∷ leases s.now q handle x ∷ [] in
                    elim (dequeue_from_cases s q handle db db' r ran) [
                      | inl (m, l) ↦
                          by_parts c _ _ (ap fired stored ∙ ap target_of target ∙ ap ds l.chosen)
                            (ends ∙ l.messages) (leases-Yields q handle m l.chosen)
                      | inr f ↦
                          by_parts c _ _ (ap fired stored ∙ ap target_of target ∙ ap ds f.chosen)
                            (ends ∙ f.messages) (idles-Yields q handle)
                    ]
              ]
        ]
