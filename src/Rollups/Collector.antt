-- ===== src/Rollups/Collector.antt =====
-- PostgresQueueStateCollector (src/modules/queue/infrastructure/state_collector.rs). An age is in
-- microseconds: the conversion to seconds, in floating point, is left out.
use mathlib.Core.Option
use retsu.Base.{
  ℕ, ◌+◌, ◌-◌, Bool, true, ◌&&◌, ◌||◌, not, Option, none, some, List, [], ◌∷◌, ◌++◌, map, Text,
  Result, ok, err, try, ok_or, lift, Action, ◌>>=◌, ℤ, pos, negsuc, to_unsigned, ◌==◌, same, leb,
  ltb, if◌then◌else◌, keep_if, order_by, first_row,
}
use retsu.Domain.Message.{MessagePriority, from_rank}
use retsu.Repository.{
  Error, pool_unavailable, statement_failed, invalid_priority_rank, negative_ready,
  negative_in_flight,
}
use retsu.Postgres.Tables.{
  QueueRow, ready, in_flight, MessageRow, Database, Session, Fault, no_fault, pool_exhausted,
  not_executed, reply_lost, execute, is_in_flight,
}
use retsu.Postgres.Cleanup.{collect}
use retsu.Rollups.Shards.{ShardKey, ShardRow, key_of}
use retsu.Rollups.Tallies.{count}
use retsu.Rollups.Adjustment.{total}

-- The advisory lock of LOCK_NAMESPACE and LOCK_IDENTIFIER: the connection that holds it.
abbrev pub Connection : Type 0
Connection = ℕ

abbrev pub Lock : Type 0
Lock = Option Connection

pub record QueueStateCollectorLease : Type 0 where
  pub connection : Connection

-- pg_try_advisory_lock, which a connection that holds the lock may call again
abbrev pub is_free_for : Connection → Lock → Bool
is_free_for c none = true
is_free_for c (some holder) = holder == c

abbrev pub locked_by : Connection → Lock → Lock
locked_by c lock = if is_free_for c lock then some c else lock

-- `c` is the connection that the pool gives.
unfoldable pub try_acquire_lease :
    Fault → Connection → Action Lock Error (Option QueueStateCollectorLease)
try_acquire_lease pool_exhausted c lock = (err pool_unavailable, lock)
try_acquire_lease not_executed c lock = (err statement_failed, lock)
try_acquire_lease reply_lost c lock = (err statement_failed, locked_by c lock)
try_acquire_lease no_fault c lock =
    (ok (if is_free_for c lock then some (record { connection = c }) else none), locked_by c lock)

-- A dropped lease closes its connection (`close_on_drop`), which frees the lock.
unfoldable pub drop_lease : QueueStateCollectorLease → Lock → Lock
drop_lease lease none = none
drop_lease lease (some holder) = if holder == lease.connection then none else some holder

pub record QueuePriorityStateRow : Type 0 where
  pub queue_name : Text
  pub priority : ℤ
  pub ready : ℤ
  pub in_flight : ℤ
  pub oldest_ready_age : ℤ
  pub oldest_in_flight_age : ℤ

pub record QueuePriorityStateSnapshot : Type 0 where
  pub queue_name : Text
  pub priority : MessagePriority
  pub ready : ℕ
  pub in_flight : ℕ
  pub oldest_ready_age : ℤ
  pub oldest_in_flight_age : ℤ

-- A subtraction of BIGINTs or of times.
abbrev pub minus : ℕ → ℕ → ℤ
minus a b = if leb b a then pos (a - b) else negsuc (b - a - 1)

-- The rows of a queue and a priority.
abbrev pub belongs : QueueRow → ℕ → ShardKey → Bool
belongs q p key = key.queue_id == q.id && key.priority == p

abbrev pub is_expired_ready : ℕ → MessageRow → Bool
is_expired_ready now m = not (is_in_flight m.state) && leb m.expires_at now

abbrev pub is_timed_out : ℕ → MessageRow → Bool
is_timed_out now m = is_in_flight m.state && leb m.available_after now

abbrev pub is_retryable : ℕ → QueueRow → MessageRow → Bool
is_retryable now q m =
    is_timed_out now m && (ltb now m.expires_at && ltb m.delivery_attempts q.max_delivery_attempts)

abbrev pub is_fresh_ready : ℕ → MessageRow → Bool
is_fresh_ready now m = not (is_in_flight m.state) && ltb now m.expires_at

abbrev pub has_lease : ℕ → MessageRow → Bool
has_lease now m = is_in_flight m.state && ltb now m.available_after

-- ORDER BY message.enqueued_at LIMIT 1
abbrev pub enqueue_time : MessageRow → MessageRow → Bool
enqueue_time a b = leb a.enqueued_at b.enqueued_at

unfoldable pub oldest : (MessageRow → Bool) → List MessageRow → Option ℕ
unfolding order_by
oldest test ms =
    Option.map (λ m. m.enqueued_at) (first_row (order_by enqueue_time (keep_if test ms)))

-- LEAST, which passes over NULL
abbrev pub least : Option ℕ → Option ℕ → Option ℕ
least none b = b
least (some a) none = some a
least (some a) (some b) = some (if leb a b then a else b)

-- COALESCE(EXTRACT(EPOCH FROM (CURRENT_TIMESTAMP - …)), 0.0)
abbrev pub age : ℕ → Option ℕ → ℤ
age now none = pos 0
age now (some t) = minus now t

-- One row of the statement: of a queue and one of its priorities.
unfoldable pub state_row : ℕ → Database → List ShardRow → QueueRow × ℕ → QueuePriorityStateRow
unfolding oldest
state_row now db rows (q, p) =
    let mine : MessageRow → Bool = λ m. belongs q p (key_of m) in
    record {
      queue_name = q.name;
      priority = pos p;
      ready =
          minus
            (total ready (belongs q p) rows
              + count (λ m. mine m && is_retryable now q m) db.messages)
            (count (λ m. mine m && is_expired_ready now m) db.messages);
      in_flight =
          minus (total in_flight (belongs q p) rows)
            (count (λ m. mine m && is_timed_out now m) db.messages);
      oldest_ready_age = age now (
          least (oldest (λ m. mine m && is_fresh_ready now m) db.messages)
            (oldest (λ m. mine m && is_retryable now q m) db.messages));
      oldest_in_flight_age = age now (oldest (λ m. mine m && has_lease now m) db.messages);
    }

-- FROM queue CROSS JOIN priorities
abbrev pub cross {ℓ} : {A : Type ℓ} → List A → List QueueRow → List (QueueRow × A)
cross priorities [] = []
cross priorities (q ∷ qs) = map (λ p. (q, p)) priorities ++ cross priorities qs

-- ORDER BY queue.name
abbrev pub name_order : Session → QueueRow → QueueRow → Bool
name_order s a b = same a.name b.name || s.name_before a.name b.name

unfoldable pub state_rows : Session → List ShardRow → Database → List QueuePriorityStateRow
unfolding state_row
state_rows s rows db =
    map (state_row s.now db rows) (cross (3 ∷ 2 ∷ 1 ∷ []) (order_by (name_order s) db.queues))

abbrev pub read_state_row : QueuePriorityStateRow → Result Error QueuePriorityStateSnapshot
read_state_row row =
    try (ok_or (from_rank row.priority) (invalid_priority_rank row.priority)) λ priority.
      try (ok_or (to_unsigned row.ready) negative_ready) λ ready_count.
        try (ok_or (to_unsigned row.in_flight) negative_in_flight) λ in_flight_count. ok (record {
          queue_name = row.queue_name;
          priority = priority;
          ready = ready_count;
          in_flight = in_flight_count;
          oldest_ready_age = row.oldest_ready_age;
          oldest_in_flight_age = row.oldest_in_flight_age;
        })

unfoldable pub collect_states :
    Session → List ShardRow → Action Database Error (List QueuePriorityStateSnapshot)
unfolding state_rows
collect_states s shards = do
  rows ← execute s (λ db. some (state_rows s shards db, db))
  lift (collect read_state_row rows)
