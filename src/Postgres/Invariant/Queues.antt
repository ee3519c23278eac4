-- ===== src/Postgres/Invariant/Queues.antt =====
-- The statements on `queue` keep the invariant (src/modules/queue/infrastructure/postgres.rs).

use retsu.Base.{
  ◌≡◌, refl, ap, sym, true, false, Option, some, is_some, List, [], ◌∷◌, ◌++◌, Text, same, find,
  has_name, NamesDiffer-append, All-append, All-map, All-change, All-members, Memᴰ, key_unique,
  find-Memᴰ, contains, contains-append, Distinct-append, map-key_same, arith, ◌∙◌, ==_iff,
  Bool-cases, Option-cases, inl, inr, ◌==◌,
}
use mathlib.Core.List.{map-append}
use retsu.Domain.Message.{Uuid}
use retsu.Postgres.Tables.{QueueRow, Database, queue_checks, find_queue}
use retsu.Postgres.Queues.{QueueDetailsRow, insert_queue, replace_queue, update_row}
use retsu.Postgres.Invariant.{queue_ids, names, MessageOk, DeadLetterOk, IsWellFormed}

pub is_some-find_queue :
    (id : Uuid) (qs : List QueueRow) → is_some (find_queue id qs) ≡ contains (queue_ids qs) id
is_some-find_queue id [] = refl
is_some-find_queue id (q ∷ qs) = ground (arith, is_some-find_queue id qs)

pub is_some-named :
    (name : Text) (qs : List QueueRow)
    → is_some (find (λ q. same q.name name) qs) ≡ has_name (names qs) name
is_some-named name [] = refl
is_some-named name (q ∷ qs) = ground (arith, is_some-named name qs)

-- More queues leave the foreign keys as they are.
widened :
    (known : List Uuid) (id k : Uuid)
    → contains known k ≡ true
    → contains (known ++ id ∷ []) k ≡ true
widened known id k h = ground (arith, contains-append known (id ∷ []) k)

module _ (row : QueueRow) (db : Database) (w : IsWellFormed db) where
  appended : Database
  appended = record db { queues = db.queues ++ row ∷ [] }

  appended-IsWellFormed :
      queue_checks row ≡ true
      → has_name (names db.queues) row.name ≡ false
      → contains (queue_ids db.queues) row.id ≡ false
      → IsWellFormed appended
  unfolding appended
  appended-IsWellFormed checked fresh_name fresh_id = record {
    queues = record {
      checked = All-append _ db.queues (row ∷ []) w.queues.checked (checked, tt);
      ids = rw (map-append) (Distinct-append _ row.id w.queues.ids fresh_id);
      names_differ =
          rw (map-append) (NamesDiffer-append _ row.name w.queues.names_differ fresh_name);
    };
    messages = record {
      rows = rw map-append (
          All-map (MessageOk (queue_ids db.queues) db.next_order) _
            (λ m h. (h.0, widened _ row.id m.queue_id h.1, h.2)) db.messages w.messages.rows);
      ids = w.messages.ids;
      order = w.messages.order;
    };
    dead_letters = record {
      rows = rw map-append (
          All-map (DeadLetterOk (queue_ids db.queues)) _
            (λ d h. (h.0, widened _ row.id d.queue_id h.1)) db.dead_letters w.dead_letters.rows);
      ids = w.dead_letters.ids;
    };
  }

pub insert_queue-IsWellFormed :
    (row : QueueRow) (db db' : Database) (r : Option Uuid)
    → insert_queue row db ≡ some (r, db')
    → IsWellFormed db
    → IsWellFormed db'
unfolding appended
insert_queue-IsWellFormed row db db' r e w = elim (Bool-cases (queue_checks row)) [
  | inr bad ↦ absurd (cc (rw bad at e))
  | inl good ↦ elim (Option-cases (find (λ q. same q.name row.name) db.queues)) [
    | inr (q, taken) ↦ let kept : db' ≡ db = ground arith in rw kept w
    | inl free ↦ elim (Option-cases (find_queue row.id db.queues)) [
      | inr (q, taken) ↦ absurd (ground arith)
      | inl fresh ↦
          let changed : db' ≡ appended row db w = ground arith in
          rw changed (
            appended-IsWellFormed row db w good (rw (← is_some-named row.name db.queues, free))
              (rw (← is_some-find_queue row.id db.queues, fresh)))
    ]
  ]
]

-- The replaced row is the only one with its identifier.
module _ (change : QueueRow → QueueRow) (id_kept : (q : QueueRow) → (change q).id ≡ q.id)
    (name_kept : (q : QueueRow) → (change q).name ≡ q.name) (db : Database) (w : IsWellFormed db)
    (q : QueueRow) (listed : Memᴰ q db.queues) where
  replaced : Database
  replaced = record db { queues = replace_queue (change q) db.queues }

  replaced_ids : queue_ids (replace_queue (change q) db.queues) ≡ queue_ids db.queues
  replaced_ids =
      map-key_same (λ x. x.id) _ db.queues
        (All-map (λ x. Memᴰ x db.queues) _ (λ x m. ground arith) db.queues (All-members db.queues))

  replaced_names : names (replace_queue (change q) db.queues) ≡ names db.queues
  replaced_names =
      map-key_same (λ x. x.name) _ db.queues
        (All-map (λ x. x.id ≡ q.id → x ≡ q) _
          (λ x h. elim (Bool-cases (x.id == (change q).id)) [
            | inl e ↦ rw e (name_kept q ∙ ap (λ y. y.name) (sym (h ((==_iff _ _).0 e ∙ id_kept q))))
            | inr e ↦ rw e
          ])
          db.queues (key_unique (λ x. x.id) db.queues w.queues.ids listed))

  replaced-IsWellFormed : queue_checks (change q) ≡ true → IsWellFormed replaced
  unfolding replaced
  replaced-IsWellFormed good = record {
    queues = record {
      checked =
          All-change (λ x. queue_checks x ≡ true) _
            (λ x h. elim (Bool-cases (x.id == (change q).id)) [
              | inl e ↦ rw e good
              | inr e ↦ rw e h
            ])
            db.queues w.queues.checked;
      ids = rw replaced_ids w.queues.ids;
      names_differ = rw replaced_names w.queues.names_differ;
    };
    messages = rw replaced_ids w.messages;
    dead_letters = rw replaced_ids w.dead_letters;
  }

pub update_row-IsWellFormed :
    (change : QueueRow → QueueRow) (queue_id : Uuid) (db db' : Database)
    (r : Option QueueDetailsRow)
    → ((q : QueueRow) → (change q).id ≡ q.id)
    → ((q : QueueRow) → (change q).name ≡ q.name)
    → update_row change queue_id db ≡ some (r, db')
    → IsWellFormed db
    → IsWellFormed db'
unfolding replaced
update_row-IsWellFormed change queue_id db db' r ids names e w =
    elim (Option-cases (find_queue queue_id db.queues)) [
      | inl missing ↦ let kept : db' ≡ db = ground arith in rw kept w
      | inr (q, found) ↦ elim (Bool-cases (queue_checks (change q))) [
        | inr bad ↦ absurd (ground arith)
        | inl good ↦
            let listed = (find-Memᴰ _ db.queues found).0 in
            let changed : db' ≡ replaced change ids names db w q listed = ground arith in
            rw changed (replaced-IsWellFormed change ids names db w q listed good)
      ]
    ]
