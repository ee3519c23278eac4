-- ===== src/Postgres/DeadLetters.antt =====
-- What a dequeue moves to the dead letters (src/modules/queue/infrastructure/postgres.rs).
use retsu.Base.{
  ℕ, ◌<◌, ◌≤◌, ◌≡◌, refl, sym, ap, ◌∙◌, subst, true, Option, none, some, Option-cases, Bool-cases,
  inl, inr, List, [], ◌∷◌, ◌++◌, map, Text, Memᴰ, Perm, All, All-map, All-members, keep_if-perm,
  contains, Distinct, picked-test, picked-All, length-picked_limit, map-key_same, ◌==◌, ==_iff,
  length, ok, arith,
}
use mathlib.Core.Option
use mathlib.Core.List.Perm
use mathlib.Core.List.{perm_middle, map-append, append_assoc, append-nil}
use retsu.Domain.Message.{Uuid}
use retsu.Repository.{DequeueMessageOutcome, dequeued, empty, queue_not_found}
use retsu.Postgres.Tables.{
  is_in_flight, QueueRow, MessageRow, MessageState, ready, in_flight, DeadLetterRow, Database,
  Session, find_queue, message_ids, dead_letter_ids,
}
use retsu.Postgres.Dequeue.{
  is_exhausted, dead_letter_order, dead_letter_candidates, dequeue_dead_letter_batch_size,
  dead_letter, store_dead_letter, store_dead_letters, replace_message, victims, dequeue_message,
}
use retsu.Postgres.Dequeue.Inversion.{
  moved, stays, dequeue_message-Delivers, dequeue_message-Idles, dequeue_message-queue_not_found,
}
use retsu.Postgres.Invariant.{IsWellFormed}

-- A leased message of the queue whose lease has ended, with no attempt left, before its expiry.
abbrev pub IsExhausted : Session → QueueRow → MessageRow → Type 0
IsExhausted s q m =
    (m.queue_id ≡ q.id)
    × (m.state ≡ in_flight)
    × (m.available_after ≤ s.now)
    × (s.now < m.expires_at)
    × (q.max_delivery_attempts ≤ m.delivery_attempts)

-- What a message and its dead letter have in common.
pub record Content : Type 0 where
  pub id : Uuid
  pub queue_id : Uuid
  pub payload : Text
  pub priority : ℕ
  pub enqueued_at : ℕ
  pub expires_at : ℕ
  pub delivery_attempts : ℕ
  pub last_delivered_at : Option ℕ

abbrev pub message_content : MessageRow → Content
message_content m = record {
  id = m.id;
  queue_id = m.queue_id;
  payload = m.payload;
  priority = m.priority;
  enqueued_at = m.enqueued_at;
  expires_at = m.expires_at;
  delivery_attempts = m.delivery_attempts;
  last_delivered_at = m.last_delivered_at;
}

abbrev pub letter_content : DeadLetterRow → Content
letter_content d = record {
  id = d.id;
  queue_id = d.queue_id;
  payload = d.payload;
  priority = d.priority;
  enqueued_at = d.enqueued_at;
  expires_at = d.expires_at;
  delivery_attempts = d.delivery_attempts;
  last_delivered_at = some d.last_delivered_at;
}

-- The dead letters that an outcome reports.
abbrev pub reported : DequeueMessageOutcome → Option ℕ
reported (dequeued d) = some d.dead_lettered
reported (empty name count) = some count
reported queue_not_found = none

flying : (state : MessageState) → is_in_flight state ≡ true → state ≡ in_flight
flying ready h = absurd cc
flying in_flight h = refl

is_exhausted-IsExhausted :
    (s : Session) (q : QueueRow) (m : MessageRow)
    → is_exhausted s.now q m ≡ true
    → IsExhausted s q m
is_exhausted-IsExhausted s q m h =
    (ground arith, flying m.state (ground arith), ground arith, ground arith, ground arith)

module _ (s : Session) (q : QueueRow) where
  -- With distinct identifiers, a row that the statement picks is exhausted.
  pub picked-exhausted :
      (ms : List MessageRow) (m : MessageRow)
      → Distinct (message_ids ms)
      → Memᴰ m ms
      → contains (victims s q ms) m.id ≡ true
      → is_exhausted s.now q m ≡ true
  unfolding dead_letter_candidates
  picked-exhausted ms m distinct listed picked =
      picked-test (λ x. x.id) (is_exhausted s.now q) dead_letter_order (λ x. s.is_locked x.id)
        dequeue_dead_letter_batch_size ms distinct m listed picked

stored_one :
    (now : ℕ) (m : MessageRow) (letters letters' : List DeadLetterRow)
    → store_dead_letter now m letters ≡ some letters'
    → (d : DeadLetterRow) × (letters' ≡ letters ++ d ∷ [])
      × (letter_content d ≡ message_content m)
      × (d.dead_lettered_at ≡ now)
stored_one now m letters letters' e = elim (Option-cases m.last_delivered_at) [
  | inl never ↦ absurd (ground arith)
  | inr (t, delivered) ↦ (dead_letter now t m, ground arith, rw delivered refl, refl)
]

-- The stored dead letters hold what the moved messages held.
pub stored-content :
    (now : ℕ) (ms : List MessageRow) (letters letters' : List DeadLetterRow)
    → store_dead_letters now ms letters ≡ some letters'
    → (new : List DeadLetterRow) × (letters' ≡ letters ++ new)
      × (map letter_content new ≡ map message_content ms)
      × All (λ d. d.dead_lettered_at ≡ now) new
unfolding store_dead_letters Option.bind
stored-content now [] letters letters' e = ([], rw (append-nil letters) (ground arith), refl, tt)
stored-content now (m ∷ ms) letters letters' e =
    elim (Option-cases (store_dead_letter now m letters)) [
      | inl refused ↦ absurd (cc (rw (refused, store_dead_letters) at e))
      | inr (letters1, stored) ↦
          let (d, extended, content, at) = stored_one now m letters letters1 stored in
          let (new, rest, contents, ats) =
            stored-content now ms letters1 letters' (rw (stored, store_dead_letters) at e) in
          (
            d ∷ new,
            rw (rest, extended) (append_assoc letters (d ∷ []) new),
            cc (content, contents),
            (at, ats),
          )
    ]

module _ (s : Session) (q : QueueRow) (db : Database) (w : IsWellFormed db) where
  -- What the statement moves is exhausted, and at most a batch.
  moved-exhausted : All (IsExhausted s q) (moved s q db)
  unfolding dead_letter_candidates
  moved-exhausted =
      All-map (λ m. is_exhausted s.now q m ≡ true) _ (is_exhausted-IsExhausted s q) (moved s q db)
        (picked-All (λ m. m.id) (is_exhausted s.now q) dead_letter_order (λ m. s.is_locked m.id)
          dequeue_dead_letter_batch_size db.messages w.messages.ids)

  moved-bound : length (moved s q db) ≤ dequeue_dead_letter_batch_size
  unfolding dead_letter_candidates
  moved-bound =
      length-picked_limit (λ m. m.id) (is_exhausted s.now q) dead_letter_order
        (λ m. s.is_locked m.id) dequeue_dead_letter_batch_size db.messages w.messages.ids

-- The statement moved `gone` to the dead letters as `new`, and `left` stayed.
pub record Moves (s : Session) (q : QueueRow) (db db' : Database) (count : ℕ) : Type 0 where
  pub gone : List MessageRow
  pub left : List MessageRow
  pub new : List DeadLetterRow
  pub counted : length gone ≡ count
  pub bounded : count ≤ 8
  pub exhausted : All (IsExhausted s q) gone
  pub split : Perm (gone ++ left) db.messages
  pub stayed : message_ids db'.messages ≡ message_ids left
  pub stored : db'.dead_letters ≡ db.dead_letters ++ new
  pub content : map letter_content new ≡ map message_content gone
  pub dated : All (λ d. d.dead_lettered_at ≡ s.now) new

replaced-ids :
    (row : MessageRow) (ms : List MessageRow)
    → message_ids (replace_message row ms) ≡ message_ids ms
replaced-ids row ms =
    map-key_same (λ m. m.id) _ ms
      (All-map (λ m. Memᴰ m ms) _
        (λ m listed. elim (Bool-cases (m.id == row.id)) [
          | inl e ↦ rw e (sym ((==_iff _ _).0 e))
          | inr e ↦ rw e refl
        ])
        ms (All-members ms))

moves :
    (s : Session) (q : QueueRow) (db db' : Database)
    → IsWellFormed db
    → store_dead_letters s.now (moved s q db) db.dead_letters ≡ some db'.dead_letters
    → message_ids db'.messages ≡ message_ids (stays s q db)
    → Moves s q db db' (length (moved s q db))
moves s q db db' w stored stayed =
    let (new, extended, content, dated) =
      stored-content s.now (moved s q db) db.dead_letters db'.dead_letters stored in
    record {
      gone = moved s q db;
      left = stays s q db;
      new = new;
      counted = refl;
      bounded = moved-bound s q db w;
      exhausted = moved-exhausted s q db w;
      split = keep_if-perm _ db.messages;
      stayed = stayed;
      stored = extended;
      content = content;
      dated = dated;
    }

-- A dequeue that answers, on tables that meet their constraints, has moved as many messages to the
-- dead letters as it reports, at most eight: each was leased in the queue asked for with an ended
-- lease and no attempt left, and was not expired; each dead letter holds what its message held;
-- every other message is still in the table.
pub dequeue_message-dead_letters :
    (s : Session) (queue_id handle : Uuid) (db db' : Database) (r : DequeueMessageOutcome)
    (count : ℕ)
    → IsWellFormed db
    → dequeue_message s queue_id handle db ≡ (ok r, db')
    → reported r ≡ some count
    → (q : QueueRow) × (find_queue queue_id db.queues ≡ some q) × Moves s q db db' count
dequeue_message-dead_letters s queue_id handle db db' (dequeued d) count w e known =
    let v = dequeue_message-Delivers s queue_id handle db db' d e in
    let same : length (moved s v.queue db) ≡ count = ground (arith, v.reads.dead_lettered) in
    (
      v.queue,
      v.target,
      subst (Moves s v.queue db db') same (
          moves s v.queue db db' w v.leases.stored
            (ap message_ids v.leases.messages ∙ replaced-ids _ (stays s v.queue db))),
    )
dequeue_message-dead_letters s queue_id handle db db' (empty name n) count w e known =
    let v = dequeue_message-Idles s queue_id handle db db' name n e in
    let same : length (moved s v.queue db) ≡ count = ground (arith, v.dead_lettered) in
    (
      v.queue,
      v.target,
      subst (Moves s v.queue db db') same
          (moves s v.queue db db' w v.finds.stored (ap message_ids v.finds.messages)),
    )
dequeue_message-dead_letters s queue_id handle db db' queue_not_found count w e known = absurd cc

map-map_same :
    {A B : Type 0} (f : A → B) (g : B → ℕ) (xs : List A) → map g (map f xs) ≡ map (λ x. g (f x)) xs
map-map_same f g [] = refl
map-map_same f g (x ∷ xs) = cc (map-map_same f g xs)

content-ids :
    (new : List DeadLetterRow) (gone : List MessageRow)
    → map letter_content new ≡ map message_content gone
    → dead_letter_ids new ≡ message_ids gone
content-ids new gone e =
    sym (map-map_same letter_content (λ c. c.id) new)
    ∙ (ap (map (λ (c : Content). c.id)) e ∙ map-map_same message_content (λ c. c.id) gone)

append-perm_comm : (xs ys : List ℕ) → Perm (xs ++ ys) (ys ++ xs)
append-perm_comm [] ys = subst (Perm ys) (sym (append-nil ys)) (Perm.refl ys)
append-perm_comm (x ∷ xs) ys =
    Perm.trans (Perm.cons x (append-perm_comm xs ys)) (Perm.symm (perm_middle ys xs))

-- Rows that move from the front of one table to the end of another.
perm_moved : (g l d : List ℕ) → Perm (l ++ (d ++ g)) ((g ++ l) ++ d)
perm_moved g l d = Perm.trans (append-perm_comm l (d ++ g)) (
    Perm.trans (subst (Perm (d ++ g ++ l)) (append_assoc d g l) (Perm.refl _))
      (append-perm_comm d (g ++ l)))

-- What the moves keep: the identifiers of both tables together.
Moves-conserves :
    (s : Session) (q : QueueRow) (db db' : Database) (count : ℕ)
    → Moves s q db db' count
    → Perm
        (message_ids db'.messages ++ dead_letter_ids db'.dead_letters)
        (message_ids db.messages ++ dead_letter_ids db.dead_letters)
Moves-conserves s q db db' count m =
    let kept : Perm (message_ids m.gone ++ message_ids m.left) (message_ids db.messages) =
      subst (λ x. Perm x (message_ids db.messages))
        (map-append (λ (x : MessageRow). x.id) m.gone m.left)
        (Perm.map (λ (x : MessageRow). x.id) m.split) in
    rw
      (
        m.stayed,
        m.stored,
        map-append (λ (x : DeadLetterRow). x.id) db.dead_letters m.new,
        content-ids m.new m.gone m.content,
      )
      (Perm.trans
        (perm_moved (message_ids m.gone) (message_ids m.left) (dead_letter_ids db.dead_letters))
        (Perm.append_right (dead_letter_ids db.dead_letters) kept))

-- A dequeue that answers, on tables that meet their constraints, loses no message and makes none:
-- the identifiers of the messages and the dead letters together are the same before and after it.
pub dequeue_message-conserves :
    (s : Session) (queue_id handle : Uuid) (db db' : Database) (r : DequeueMessageOutcome)
    → IsWellFormed db
    → dequeue_message s queue_id handle db ≡ (ok r, db')
    → Perm
        (message_ids db'.messages ++ dead_letter_ids db'.dead_letters)
        (message_ids db.messages ++ dead_letter_ids db.dead_letters)
dequeue_message-conserves s queue_id handle db db' (dequeued d) w e =
    let (q, target, m) =
      dequeue_message-dead_letters s queue_id handle db db' (dequeued d) d.dead_lettered w e refl in
    Moves-conserves s q db db' d.dead_lettered m
dequeue_message-conserves s queue_id handle db db' (empty name n) w e =
    let (q, target, m) =
      dequeue_message-dead_letters s queue_id handle db db' (empty name n) n w e refl in
    Moves-conserves s q db db' n m
dequeue_message-conserves s queue_id handle db db' queue_not_found w e =
    rw (dequeue_message-queue_not_found s queue_id handle db db' e) (Perm.refl _)
