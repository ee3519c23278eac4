-- ===== src/Postgres/Tables.antt =====
-- The tables of migrations/ with their constraints, a client's session, and how one statement of
-- src/modules/queue/infrastructure/postgres.rs runs in it.
use retsu.Base.{
  ℕ, ◌≡◌, refl, arith, ◌+◌, ◌*◌, Bool, true, false, ◌&&◌, not, Option, none, some, List, map, Text,
  Result, ok, err, Action, lift, ◌>>=◌, and_then-eq-ok, in_range, leb, ltb, ◌==◌, is_some, find,
  i16_max,
}
use retsu.Domain.Message.{Uuid}
use retsu.Domain.Queue.Names.{name_checks}
use retsu.Repository.{Error, pool_unavailable, statement_failed}

-- Times count microseconds, PostgreSQL's resolution.
abbrev pub second : ℕ
second = 1_000_000

abbrev pub thirty_days : ℕ
thirty_days = 2_592_000 * second

pub record QueueRow : Type 0 where
  pub id : Uuid
  pub name : Text
  pub visibility_timeout_seconds : ℕ
  pub max_delivery_attempts : ℕ
  pub default_message_ttl_seconds : ℕ
  pub created_at : ℕ
  pub updated_at : ℕ

pub data MessageState : Type 0 where
  ready in_flight : MessageState

pub record MessageRow : Type 0 where
  pub id : Uuid
  pub queue_id : Uuid
  pub enqueue_order : ℕ
  pub payload : Text
  pub priority : ℕ
  pub state : MessageState
  pub enqueued_at : ℕ
  pub expires_at : ℕ
  pub delivery_attempts : ℕ
  pub receipt_handle : Option Uuid
  pub available_after : ℕ
  pub last_delivered_at : Option ℕ

pub record DeadLetterRow : Type 0 where
  pub id : Uuid
  pub queue_id : Uuid
  pub payload : Text
  pub priority : ℕ
  pub enqueued_at : ℕ
  pub expires_at : ℕ
  pub delivery_attempts : ℕ
  pub last_delivered_at : ℕ
  pub dead_lettered_at : ℕ

-- `next_order` is the next value of the identity column `enqueue_order`.
pub record Database : Type 0 where
  pub queues : List QueueRow
  pub messages : List MessageRow
  pub dead_letters : List DeadLetterRow
  pub next_order : ℕ

-- What may go wrong around a statement: no connection, no execution, or a lost reply.
pub data Fault : Type 0 where
  no_fault pool_exhausted not_executed reply_lost : Fault

-- `state = 'IN_FLIGHT'`
abbrev pub is_in_flight : MessageState → Bool
is_in_flight ready = false
is_in_flight in_flight = true

-- `receipt_handle = $3`, which is not true of NULL.
abbrev pub holds : Option Uuid → Uuid → Bool
holds none handle = false
holds (some h) handle = h == handle

-- `now` is CURRENT_TIMESTAMP, `is_locked` the message and dead-letter rows that other transactions
-- have locked, `name_before` the database's order of texts.
pub record Session : Type 0 where
  pub now : ℕ
  pub is_locked : Uuid → Bool
  pub name_before : Text → Text → Bool
  pub fault : Fault

-- A statement that violates a constraint is `none`, and changes nothing.
abbrev pub Statement : Type 0 → Type 0
Statement A = Database → Option (A × Database)

-- `database::acquire(…).await?`, the statement, and `result?`.
abbrev pub executed :
    {A : Type 0} → Fault → Database → Option (A × Database) → Result Error A × Database
executed pool_exhausted db outcome = (err pool_unavailable, db)
executed not_executed db outcome = (err statement_failed, db)
executed no_fault db none = (err statement_failed, db)
executed no_fault db (some (a, db')) = (ok a, db')
executed reply_lost db none = (err statement_failed, db)
executed reply_lost db (some (a, db')) = (err statement_failed, db')

abbrev pub execute : {A : Type 0} → Session → Statement A → Action Database Error A
execute s statement db = executed s.fault db (statement db)

abbrev pub find_queue : Uuid → List QueueRow → Option QueueRow
find_queue queue_id = find λ q. q.id == queue_id

abbrev pub message_ids : List MessageRow → List Uuid
message_ids = map λ m. m.id

abbrev pub dead_letter_ids : List DeadLetterRow → List Uuid
dead_letter_ids = map λ d. d.id

-- The check constraints of migrations/20260725153509_create_table_queue.sql.
unfoldable pub queue_checks : QueueRow → Bool
queue_checks q =
    name_checks q.name
    && (in_range 1 21_600 q.visibility_timeout_seconds
        && (in_range 1 100 q.max_delivery_attempts
            && (in_range 1 2_592_000 q.default_message_ttl_seconds
                && leb q.created_at q.updated_at)))

-- queue_message_state_consistency
abbrev pub state_checks : MessageState → Option Uuid → Option ℕ → ℕ → Bool
state_checks ready handle delivered attempts =
    not (is_some handle) && (not (is_some delivered) && attempts == 0)
state_checks in_flight handle delivered attempts =
    is_some handle && (is_some delivered && ltb 0 attempts)

-- queue_message_availability_after_enqueue_or_delivery and
-- queue_message_delivery_not_before_enqueue
abbrev pub delivery_checks : Option ℕ → ℕ → ℕ → Bool
delivery_checks none available_after enqueued_at = leb enqueued_at available_after
delivery_checks (some t) available_after enqueued_at = ltb t available_after && leb enqueued_at t

-- The check constraints of migrations/20260726062530_create_table_queue_message.sql, and the range
-- of SMALLINT.
unfoldable pub message_checks : MessageRow → Bool
message_checks m =
    in_range 1 3 m.priority
    && (leb m.delivery_attempts i16_max
        && (ltb m.enqueued_at m.expires_at
            && (leb m.expires_at (m.enqueued_at + thirty_days)
                && (state_checks m.state m.receipt_handle m.last_delivered_at m.delivery_attempts
                    && delivery_checks m.last_delivered_at m.available_after m.enqueued_at))))

-- The check constraints of migrations/20260727072303_create_table_queue_dead_letter_message.sql.
unfoldable pub dead_letter_checks : DeadLetterRow → Bool
dead_letter_checks d =
    in_range 1 3 d.priority
    && (leb d.enqueued_at d.last_delivered_at
        && (ltb d.enqueued_at d.expires_at && leb d.last_delivered_at d.dead_lettered_at))

-- A statement whose reply arrived was executed, and met its constraints.
pub executed-eq-ok :
    {A : Type 0} (f : Fault) (db : Database) (outcome : Option (A × Database)) {a : A}
    {db' : Database}
    → executed f db outcome ≡ (ok a, db')
    → (f ≡ no_fault) × (outcome ≡ some (a, db'))
executed-eq-ok pool_exhausted db outcome h = absurd (cc)
executed-eq-ok not_executed db outcome h = absurd (cc)
executed-eq-ok no_fault db none h = absurd (cc)
executed-eq-ok no_fault db (some (a, db')) h = ground arith
executed-eq-ok reply_lost db none h = absurd (cc)
executed-eq-ok reply_lost db (some (a, db')) h = absurd (cc)

-- So too for a statement with the code that reads its reply.
pub query-eq-ok :
    {A B : Type 0} (s : Session) (statement : Statement A) (read : A → Result Error B) {b : B}
    (db db' : Database)
    → (execute s statement >>= λ a. lift (read a)) db ≡ (ok b, db')
    → (a : A) × (statement db ≡ some (a, db')) × (read a ≡ ok b)
query-eq-ok s statement read db db' h =
    let (a, db1, ran, e) = and_then-eq-ok (execute s statement db) (λ a. lift (read a)) h in
    let same : db1 ≡ db' = ground arith in
    (a, rw (← same) ((executed-eq-ok s.fault db (statement db) ran).1), ground arith)

-- A statement that runs, and whose reply is read, answers.
pub query-some :
    {A B : Type 0} (s : Session) (statement : Statement A) (read : A → Result Error B) (a : A)
    (b : B) (db db' : Database)
    → s.fault ≡ no_fault
    → statement db ≡ some (a, db')
    → read a ≡ ok b
    → (execute s statement >>= λ x. lift (read x)) db ≡ (ok b, db')
query-some s statement read a b db db' clear ran known = rw (clear, ran, known) refl
