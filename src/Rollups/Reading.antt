-- ===== src/Rollups/Reading.antt =====
-- What the collector reads is what a dequeue would find
-- (src/modules/queue/infrastructure/state_collector.rs).

use retsu.Base.{
  ℕ, ◌+◌, ◌<◌, ◌≡◌, ◌∙◌, sym, refl, ap, arith, Bool, true, false, ◌&&◌, some, List, [], ◌∷◌, map,
  ok, pos, ◌==◌, order_by, All, All-map, order_by-All, Memᴰ, All-members,
}
use retsu.Domain.Message.{MessagePriority, high, medium, low, rank, from_rank}
use retsu.Postgres.Tables.{
  QueueRow, MessageState, ready, in_flight, MessageRow, Database, Session, no_fault, queue_checks,
  message_checks, query-some,
}
use retsu.Postgres.Dequeue.{is_deliverable}
use retsu.Postgres.Servable.{row_checks}
use retsu.Postgres.Cleanup.{collect}
use retsu.Postgres.Calls.{Call, history}
use retsu.Postgres.Invariant.{IsWellFormed, MessageOk, queue_ids}
use retsu.Rollups.Shards.{ShardRow, key_of}
use retsu.Rollups.Tallies.{count, counts_in, unit_if}
use retsu.Rollups.Firing.{Agrees}
use retsu.Rollups.Calls.{rolled_history}
use retsu.Rollups.Histories.{migrated-Agrees}
use retsu.Rollups.Backfill.{backfill}
use retsu.Postgres.Invariant.Steps.{history_from-IsWellFormed}
use retsu.Rollups.Ages.{earliest, IsSplit, oldest-earliest, earliest-split, count-split}
use retsu.Rollups.Collector.{
  QueuePriorityStateSnapshot, minus, belongs, is_expired_ready, is_timed_out, is_retryable,
  is_fresh_ready, has_lease, oldest, least, age, state_row, cross, name_order, state_rows,
  read_state_row, collect_states,
}

-- The messages of a priority that a dequeue from the queue could take.
abbrev pub available_at : ℕ → QueueRow → MessagePriority → MessageRow → Bool
available_at now q p m = m.priority == rank p && is_deliverable now q m

-- The messages of a priority that a lease in force holds.
abbrev pub leased_at : ℕ → QueueRow → MessagePriority → MessageRow → Bool
leased_at now q p m = m.priority == rank p && (m.queue_id == q.id && has_lease now m)

abbrev pub snapshot_of :
    ℕ → List MessageRow → QueueRow × MessagePriority → QueuePriorityStateSnapshot
snapshot_of now ms (q, p) = record {
  queue_name = q.name;
  priority = p;
  ready = count (available_at now q p) ms;
  in_flight = count (leased_at now q p) ms;
  oldest_ready_age = age now (earliest (available_at now q p) ms);
  oldest_in_flight_age = age now (earliest (leased_at now q p) ms);
}

-- A message belongs to one of the collector's groups, or to none.
module _ (now : ℕ) (q : QueueRow) (p : MessagePriority) where
  abbrev mine : MessageRow → Bool
  mine m = belongs q (rank p) (key_of m)

  ready-IsSplit :
      (m : MessageRow) (st : MessageState)
      → m.state ≡ st
      → (st ≡ ready → m.delivery_attempts < q.max_delivery_attempts)
      → (IsSplit
          (available_at now q p m)
          (mine m && is_fresh_ready now m)
          (mine m && is_retryable now q m))
        × (unit_if (counts_in ready (belongs q (rank p)) m)
              + unit_if (mine m && is_retryable now q m)
            ≡ unit_if (mine m && is_expired_ready now m) + unit_if (available_at now q p m))
  ready-IsSplit m ready e few = let left = few refl in (rw e (ground arith), rw e (ground arith))
  ready-IsSplit m in_flight e few = (rw e (ground arith), rw e (ground arith))

  leased_split :
      (m : MessageRow) (st : MessageState)
      → m.state ≡ st
      → (leased_at now q p m ≡ mine m && has_lease now m)
        × (unit_if (counts_in in_flight (belongs q (rank p)) m) + 0
            ≡ unit_if (mine m && is_timed_out now m) + unit_if (leased_at now q p m))
  leased_split m ready e = (rw e (ground arith), rw e (ground arith))
  leased_split m in_flight e = (rw e (ground arith), rw e (ground arith))

-- READY messages have no deliveries behind them, and queues allow one at least.
untried :
    (q : QueueRow) (m : MessageRow)
    → queue_checks q ≡ true
    → message_checks m ≡ true
    → m.state ≡ ready
    → m.delivery_attempts < q.max_delivery_attempts
unfolding queue_checks
untried q m good checked e =
    let states = (row_checks m checked).0 in let none_yet = rw e at states in ground arith

count-none : (ms : List MessageRow) → count (λ m. false) ms ≡ 0
count-none [] = refl
count-none (m ∷ ms) = omega (arith, count-none ms)

minus-sum : (a b d : ℕ) → a ≡ b + d → minus a b ≡ pos d
minus-sum a b d e = ground arith

rank-read_back : (p : MessagePriority) → from_rank (pos (rank p)) ≡ some p
unfolding from_rank
rank-read_back high = refl
rank-read_back medium = refl
rank-read_back low = refl

module _ (now : ℕ) (db : Database) (rows : List ShardRow) (w : IsWellFormed db)
    (a : Agrees rows db.messages) where
  module _ (q : QueueRow) (good : queue_checks q ≡ true) (p : MessagePriority) where
    splits :
        All
          (λ m.
            (IsSplit
              (available_at now q p m)
              (mine now q p m && is_fresh_ready now m)
              (mine now q p m && is_retryable now q m))
            × (unit_if (counts_in ready (belongs q (rank p)) m)
                  + unit_if (mine now q p m && is_retryable now q m)
                ≡ unit_if (mine now q p m && is_expired_ready now m)
                  + unit_if (available_at now q p m)))
          db.messages
    splits =
        All-map (MessageOk (queue_ids db.queues) db.next_order) _
          (λ m h. ready-IsSplit now q p m m.state refl (untried q m good h.0)) db.messages
          w.messages.rows

    ready-read :
        (state_row now db rows (q, rank p)).ready ≡ pos (count (available_at now q p) db.messages)
    unfolding state_row
    ready-read =
        let sums = a.sums ready (belongs q (rank p)) in
        let parts =
          count-split (counts_in ready (belongs q (rank p)))
            (λ m. mine now q p m && is_retryable now q m)
            (λ m. mine now q p m && is_expired_ready now m) (available_at now q p) db.messages
            (All-map _ _ (λ m h. h.1) db.messages splits) in
        minus-sum _ _ _ (omega (arith, sums, parts))

    in_flight-read :
        (state_row now db rows (q, rank p)).in_flight ≡ pos (count (leased_at now q p) db.messages)
    unfolding state_row
    in_flight-read =
        let sums = a.sums in_flight (belongs q (rank p)) in
        let parts =
          count-split (counts_in in_flight (belongs q (rank p))) (λ m. false)
            (λ m. mine now q p m && is_timed_out now m) (leased_at now q p) db.messages
            (All-map (λ m. Memᴰ m db.messages) _ (λ m h. (leased_split now q p m m.state refl).1)
              db.messages (All-members db.messages)) in
        let zero = count-none db.messages in minus-sum _ _ _ (omega (arith, sums, parts, zero))

    oldest_ready-read :
        (state_row now db rows (q, rank p)).oldest_ready_age
        ≡ age now (earliest (available_at now q p) db.messages)
    unfolding state_row
    oldest_ready-read =
        let fresh : MessageRow → Bool = λ m. mine now q p m && is_fresh_ready now m in
        let retryable : MessageRow → Bool = λ m. mine now q p m && is_retryable now q m in
        let parts =
          earliest-split (available_at now q p) fresh retryable db.messages
            (All-map _ _ (λ m h. h.0) db.messages splits) in
        ap (age now) (
          ap (λ x. least x (oldest retryable db.messages)) (oldest-earliest fresh db.messages)
          ∙ ap (least (earliest fresh db.messages)) (oldest-earliest retryable db.messages)
          ∙ sym parts)

    oldest_in_flight-read :
        (state_row now db rows (q, rank p)).oldest_in_flight_age
        ≡ age now (earliest (leased_at now q p) db.messages)
    unfolding state_row
    oldest_in_flight-read = ap (age now) (
        oldest-earliest (λ m. mine now q p m && has_lease now m) db.messages
        ∙ ap (λ (t : MessageRow → Bool). earliest t db.messages)
            (λ i. λ m. sym ((leased_split now q p m m.state refl).0) i))

    row-read :
        read_state_row (state_row now db rows (q, rank p)) ≡ ok (snapshot_of now db.messages (q, p))
    unfolding state_row
    row-read =
        rw (rank-read_back p, ready-read, in_flight-read, oldest_ready-read, oldest_in_flight-read)
          refl

  cross-read :
      (qs : List QueueRow)
      → All (λ q. queue_checks q ≡ true) qs
      → collect read_state_row (map (state_row now db rows) (cross (3 ∷ 2 ∷ 1 ∷ []) qs))
        ≡ ok (map (snapshot_of now db.messages) (cross (high ∷ medium ∷ low ∷ []) qs))
  cross-read [] h = refl
  cross-read (q ∷ qs) h =
      rw (row-read q h.0 high, row-read q h.0 medium, row-read q h.0 low, cross-read qs h.1) refl

-- The queues by name, each with its priorities from the highest.
abbrev pub lines : Session → Database → List (QueueRow × MessagePriority)
lines s db = cross (high ∷ medium ∷ low ∷ []) (order_by (name_order s) db.queues)

collect_states-eq-ok :
    (s : Session) (db : Database) (rows : List ShardRow)
    → IsWellFormed db
    → Agrees rows db.messages
    → s.fault ≡ no_fault
    → collect_states s rows db ≡ (ok (map (snapshot_of s.now db.messages) (lines s db)), db)
unfolding collect_states state_rows
collect_states-eq-ok s db rows w a clear =
    query-some s (λ x. some (state_rows s rows x, x)) (collect read_state_row) _ _ db db clear refl
      (cross-read s.now db rows w a (order_by (name_order s) db.queues)
        (order_by-All (name_order s) _ db.queues w.queues.checked))

-- On well-formed tables that the migration has backfilled, after any history of calls with their
-- triggers, the collector's statement without a failure around it reads, for each queue in the
-- order of names and each priority from the highest, what a scan of the messages finds: how many
-- messages a dequeue could take, how many a lease in force holds, and the age of the oldest of
-- each, 0 if there is none.
pub collect_states-migrated :
    (cs : List (Session × Call)) (db : Database) (s : Session)
    → IsWellFormed db
    → s.fault ≡ no_fault
    → let (now_found, rows) = rolled_history cs (db, backfill db.messages) in
      (collect_states s rows now_found).0
      ≡ ok (map (snapshot_of s.now (history cs db).messages) (lines s (history cs db)))
collect_states-migrated cs db s w clear =
    let (same, agrees) = migrated-Agrees cs db w in
    let rows = (rolled_history cs (db, backfill db.messages)).1 in
    rw same (
      ap (λ x. x.0)
        (collect_states-eq-ok s (history cs db) rows (history_from-IsWellFormed cs db w) agrees
          clear))
