-- ===== src/Postgres/Configuration.antt =====
-- Creating, updating and reading queues: what the repository answers for validated values
-- (src/modules/queue/infrastructure/postgres.rs).

use retsu.Base.{
  find-Memᴰ, All-Memᴰ, ℕ, ◌≤◌, ◌≡◌, refl, subst, true, false, Option, none, some, Option-cases,
  Bool-cases, inl, inr, List, [], ◌∷◌, ◌++◌, Text, ok, expect, to_signed, i16_max, i32_max, pos, ℤ,
  find, same, has_name, if◌then◌else◌, unwrap_or, arith, in_range, ◌==◌, ==_iff,
}
use retsu.Domain.Message.{Uuid}
use retsu.Domain.Queue.{
  Queue, QueueDetails, QueueConfigurationUpdate, new_queue, new_update, details,
}
use retsu.Domain.Queue.Names.{name_checks, parse_name-eq-ok_iff}
use retsu.Domain.Queue.Settings.{
  IsSettings, InRangeIfGiven, new_queue-eq-ok_iff, new_update-eq-ok_iff,
}
use retsu.Repository.{Error, created, already_exists}
use retsu.Postgres.Tables.{QueueRow, Database, Session, no_fault, find_queue, queue_checks}
use retsu.Postgres.Queues.{
  create_queue, queue_details, details_row, queue_details_from_row, reconfigured, expect_given,
  update_row, update_bound, update_queue, replace_queue, coalesce,
}
use retsu.Postgres.Invariant.{names, IsWellFormed}
use retsu.Postgres.Invariant.Queues.{is_some-named}

-- The row of a new queue.
abbrev pub queue_row : ℕ → Queue → QueueRow
queue_row now queue = record {
  id = queue.id;
  name = queue.name;
  visibility_timeout_seconds = queue.settings.visibility_timeout_seconds;
  max_delivery_attempts = queue.settings.max_delivery_attempts;
  default_message_ttl_seconds = queue.settings.default_message_ttl_seconds;
  created_at = now;
  updated_at = now;
}

-- A value within the type's bound converts.
expected : (most n : ℕ) → n ≤ most → expect {E = Error} (to_signed most n) ≡ ok (pos n)
expected most n h = ground arith

queue_row-checked :
    (now : ℕ) (queue : Queue)
    → name_checks queue.name ≡ true
    → IsSettings queue.settings
    → queue_checks (queue_row now queue) ≡ true
unfolding queue_checks
queue_row-checked now queue named settings = ground (arith, settings)

-- The creation of a queue that `Queue::new` has made, under an identifier that no queue has, answers
-- without a panic when nothing fails around the statement: if the name is taken, that the queue
-- exists, and nothing changes; else that it is created, and the table has one more row, with the
-- queue's values.
pub create_queue-new_queue :
    (s : Session) (id : Uuid) (name : Text) (visibility attempts ttl : Option ℕ) (queue : Queue)
    (db : Database)
    → new_queue id name visibility attempts ttl ≡ ok queue
    → s.fault ≡ no_fault
    → find_queue id db.queues ≡ none
    → create_queue s queue db ≡ (
        if has_name (names db.queues) queue.name
        then (ok already_exists, db)
        else (ok created, record db { queues = db.queues ++ queue_row s.now queue ∷ [] }))
unfolding create_queue
create_queue-new_queue s id name visibility attempts ttl queue db valid clear fresh =
    let (same_id, parsed, given, settings) =
      (new_queue-eq-ok_iff id name visibility attempts ttl queue).0 valid in
    let (same_name, checked) = (parse_name-eq-ok_iff name queue.name).0 parsed in
    let named : name_checks queue.name ≡ true =
      subst (λ x. name_checks x ≡ true) same_name checked in
    let good = queue_row-checked s.now queue named settings in
    let taken_or_free = is_some-named queue.name db.queues in
    let free_id : find_queue queue.id db.queues ≡ none = rw same_id fresh in
    rw
      (
        expected i32_max queue.settings.visibility_timeout_seconds (omega (arith, settings)),
        expected i16_max queue.settings.max_delivery_attempts (omega (arith, settings)),
        expected i32_max queue.settings.default_message_ttl_seconds (omega (arith, settings)),
        clear,
        good,
        ← taken_or_free,
      )
      (elim (Option-cases (find (λ q. same q.name queue.name) db.queues)) [
        | inl free ↦ rw (free, free_id) refl
        | inr (q, taken) ↦ rw taken refl
      ])

-- What a reader is told of a row.
abbrev pub row_details : QueueRow → QueueDetails
row_details q = record {
  id = q.id;
  name = q.name;
  visibility_timeout_seconds = q.visibility_timeout_seconds;
  max_delivery_attempts = q.max_delivery_attempts;
  default_message_ttl_seconds = q.default_message_ttl_seconds;
}

pub queue_details-some :
    (s : Session) (id : Uuid) (db : Database) (q : QueueRow)
    → s.fault ≡ no_fault
    → find_queue id db.queues ≡ some q
    → queue_details s id db ≡ (ok (some (row_details q)), db)
unfolding queue_details queue_details_from_row
queue_details-some s id db q clear found = rw (clear, found) refl

find_queue-append :
    (id : Uuid) (qs : List QueueRow) (row : QueueRow)
    → find_queue id qs ≡ none
    → row.id ≡ id
    → find_queue id (qs ++ row ∷ []) ≡ some row
find_queue-append id [] row missing same_id = rw ((==_iff row.id id).1 same_id) refl
find_queue-append id (q ∷ qs) row missing same_id = elim (Bool-cases (q.id == id)) [
  | inl e ↦ absurd (ground arith)
  | inr e ↦ rw e (find_queue-append id qs row (rw e at missing) same_id)
]

find_queue-replace :
    (id : Uuid) (qs : List QueueRow) (q row : QueueRow)
    → find_queue id qs ≡ some q
    → row.id ≡ id
    → find_queue id (replace_queue row qs) ≡ some row
find_queue-replace id [] q row found same_id = absurd cc
find_queue-replace id (x ∷ qs) q row found same_id = elim (Bool-cases (x.id == row.id)) [
  | inl e ↦ rw (e, (==_iff row.id id).1 same_id) refl
  | inr e ↦
      let other : (x.id == id) ≡ false = subst (λ k. (x.id == k) ≡ false) same_id e in
      rw (e, other) (find_queue-replace id qs q row (rw other at found) same_id)
]

-- A queue that was created reads back with the values that it was created with, when its name and
-- identifier are not taken and nothing fails around the two statements.
pub create_queue-queue_details :
    (s s' : Session) (id : Uuid) (name : Text) (visibility attempts ttl : Option ℕ) (queue : Queue)
    (db : Database)
    → new_queue id name visibility attempts ttl ≡ ok queue
    → s.fault ≡ no_fault
    → s'.fault ≡ no_fault
    → find_queue id db.queues ≡ none
    → has_name (names db.queues) queue.name ≡ false
    → let db' = (create_queue s queue db).1 in
      queue_details s' id db' ≡ (ok (some (details queue)), db')
create_queue-queue_details s s' id name visibility attempts ttl queue db valid clear clear' fresh
      free =
    let made =
      create_queue-new_queue s id name visibility attempts ttl queue db valid clear fresh in
    let same_id = ((new_queue-eq-ok_iff id name visibility attempts ttl queue).0 valid).0 in
    rw (made, free)
      (queue_details-some s' id _ (queue_row s.now queue) clear'
        (find_queue-append id db.queues (queue_row s.now queue) fresh same_id))

-- The row after an update with values that are given or kept.
abbrev pub updated : ℕ → QueueConfigurationUpdate → QueueRow → QueueRow
updated now u q = record q {
  visibility_timeout_seconds = unwrap_or u.visibility_timeout_seconds q.visibility_timeout_seconds;
  max_delivery_attempts = unwrap_or u.max_delivery_attempts q.max_delivery_attempts;
  default_message_ttl_seconds =
      unwrap_or u.default_message_ttl_seconds q.default_message_ttl_seconds;
  updated_at = now;
}

-- A given value in the range converts, and COALESCE takes it.
given_value :
    (hi most : ℕ) (value : Option ℕ) (column : ℕ)
    → hi ≤ most
    → InRangeIfGiven 1 hi value
    → (z : Option ℤ) × (expect_given most value ≡ ok z)
      × (coalesce z column ≡ unwrap_or value column)
given_value hi most none column fits h = (none, refl, refl)
given_value hi most (some v) column fits (lo, up) =
    (some (pos v), rw (expected most v (omega arith)) refl, refl)

kept_range :
    (hi : ℕ) (value : Option ℕ) (column : ℕ)
    → InRangeIfGiven 1 hi value
    → in_range 1 hi column ≡ true
    → in_range 1 hi (unwrap_or value column) ≡ true
kept_range hi none column fits h = h
kept_range hi (some v) column fits h = ground (arith, fits)

updated-checked :
    (now : ℕ) (u : QueueConfigurationUpdate) (q : QueueRow)
    → InRangeIfGiven 1 21_600 u.visibility_timeout_seconds
    → InRangeIfGiven 1 100 u.max_delivery_attempts
    → InRangeIfGiven 1 2_592_000 u.default_message_ttl_seconds
    → queue_checks q ≡ true
    → q.created_at ≤ now
    → queue_checks (updated now u q) ≡ true
unfolding queue_checks
updated-checked now u q v a t good later =
    let visibility =
      kept_range 21_600 u.visibility_timeout_seconds q.visibility_timeout_seconds v
        (ground arith) in
    let attempts =
      kept_range 100 u.max_delivery_attempts q.max_delivery_attempts a (ground arith) in
    let ttl =
      kept_range 2_592_000 u.default_message_ttl_seconds q.default_message_ttl_seconds t
        (ground arith) in
    let named : name_checks q.name ≡ true = ground arith in
    rw (named, visibility, attempts, ttl) (ground arith)

update_row-some :
    (change : QueueRow → QueueRow) (id : Uuid) (db : Database) (q row : QueueRow)
    → find_queue id db.queues ≡ some q
    → change q ≡ row
    → queue_checks row ≡ true
    → update_row change id db
      ≡ some (some (details_row row), record db { queues = replace_queue row db.queues })
update_row-some change id db q row found same_row good = rw (update_row, found, same_row, good) refl

-- The statement of an update on an existing queue.
update_bound-some :
    (s : Session) (id : Uuid) (x y z : Option ℤ) (db : Database) (q row : QueueRow)
    → s.fault ≡ no_fault
    → find_queue id db.queues ≡ some q
    → reconfigured s.now x y z q ≡ row
    → queue_checks row ≡ true
    → update_bound s id x y z db
      ≡ (ok (some (row_details row)), record db { queues = replace_queue row db.queues })
unfolding queue_details_from_row
update_bound-some s id x y z db q row clear found same_row good =
    let ran = update_row-some (reconfigured s.now x y z) id db q row found same_row good in
    rw (clear, ran) refl

-- The update of an existing queue by values that QueueConfigurationUpdate::new accepts answers the
-- queue with each value replaced if it was given and kept if not, on tables that meet their
-- constraints and at a time not before the queue's creation, when nothing fails around the two
-- statements; a read of the queue after it answers the same.
pub update_queue-queue_details :
    (s s' : Session) (id : Uuid) (visibility attempts ttl : Option ℕ) (u : QueueConfigurationUpdate)
    (db : Database) (q : QueueRow)
    → IsWellFormed db
    → new_update visibility attempts ttl ≡ ok u
    → s.fault ≡ no_fault
    → s'.fault ≡ no_fault
    → find_queue id db.queues ≡ some q
    → q.created_at ≤ s.now
    → let db' = record db { queues = replace_queue (updated s.now u q) db.queues } in
      (update_queue s id u db ≡ (ok (some (row_details (updated s.now u q))), db'))
      × (queue_details s' id db' ≡ (ok (some (row_details (updated s.now u q))), db'))
unfolding update_queue
update_queue-queue_details s s' id visibility attempts ttl u db q w valid clear clear' found later =
    let (given, v, a, t) = (new_update-eq-ok_iff visibility attempts ttl u).0 valid in
    let v' : InRangeIfGiven 1 21_600 u.visibility_timeout_seconds = rw given v in
    let a' : InRangeIfGiven 1 100 u.max_delivery_attempts = rw given a in
    let t' : InRangeIfGiven 1 2_592_000 u.default_message_ttl_seconds = rw given t in
    let (listed, same_id) = find-Memᴰ _ db.queues found in
    let checked = All-Memᴰ (λ x. queue_checks x ≡ true) w.queues.checked listed in
    let good = updated-checked s.now u q v' a' t' checked later in
    let (x, x_ok, x_col) =
      given_value 21_600 i32_max u.visibility_timeout_seconds q.visibility_timeout_seconds
        (omega arith) v' in
    let (y, y_ok, y_col) =
      given_value 100 i16_max u.max_delivery_attempts q.max_delivery_attempts (omega arith) a' in
    let (z, z_ok, z_col) =
      given_value 2_592_000 i32_max u.default_message_ttl_seconds q.default_message_ttl_seconds
        (omega arith) t' in
    let same_row : reconfigured s.now x y z q ≡ updated s.now u q = cc (x_col, y_col, z_col) in
    (
      rw (x_ok, y_ok, z_ok)
          (update_bound-some s id x y z db q (updated s.now u q) clear found same_row good),
      queue_details-some s' id _ (updated s.now u q) clear'
          (find_queue-replace id db.queues q (updated s.now u q) found ((==_iff _ _).0 same_id)),
    )
