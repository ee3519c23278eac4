-- ===== src/Rollups/Tests.antt =====
-- The counts, the collector and the gauges at work on concrete tables
-- (src/modules/queue/infrastructure/state_collector.rs,
-- migrations/20260727190617_create_queue_priority_state_rollups.sql).

use retsu.Base.{
  arith, ℕ, ◌*◌, ◌≡◌, refl, none, some, List, [], ◌∷◌, map, bytes, ok, pos, order_by, insert_row,
}
use retsu.Domain.Message.{MessagePriority, high, medium, low, from_rank}
use retsu.Postgres.Tables.{second, Session, pool_exhausted, no_fault}
use retsu.Postgres.Calls.{Call, dequeues, enqueues, acknowledges, expires, history}
use retsu.Postgres.Tests.{tables, tables-IsWellFormed, at}
use retsu.Rollups.Trigger.{join_group, tally}
use retsu.Rollups.Backfill.{backfill}
use retsu.Rollups.Firing.{Agrees}
use retsu.Rollups.Calls.{Rolled, rolled_history}
use retsu.Rollups.Histories.{migrated-Agrees}
use retsu.Rollups.Collector.{
  QueuePriorityStateSnapshot, QueueStateCollectorLease, oldest, state_row, state_rows,
  collect_states, try_acquire_lease, drop_lease,
}
use retsu.Rollups.Reading.{snapshot_of, lines, collect_states-migrated}
use retsu.Rollups.Metrics.{new_metrics, refresh_state_metrics}
use retsu.Rollups.Gauges.{Shows, refresh_state_metrics-Shows}
use retsu.Rollups.Refreshes.{Refresh, refresh_all, Accounts, refresh_all-Accounts}
use retsu.Rollups.Leadership.{
  Reachable, starts, moves, takes, dies, IsExclusive, Reachable-IsExclusive,
}

-- A delivery, a new message, an acknowledgement and a cleanup.
abbrev served_calls : List (Session × Call)
served_calls =
    (at 100, dequeues 1 99)
    ∷ (
      at 101,
      enqueues 1 (record { id = 14; payload = bytes "more"; priority = medium; ttl_seconds = none })
          60,
    )
    ∷ (at 102, acknowledges 1 12 99)
    ∷ (at 103, expires 10)
    ∷ []

abbrev migrated : Rolled
migrated = rolled_history served_calls (tables, backfill tables.messages)

migrated-Agrees_example :
    (migrated.0 ≡ history served_calls tables)
    × Agrees migrated.1 (history served_calls tables).messages
migrated-Agrees_example = migrated-Agrees served_calls tables tables-IsWellFormed

collect_states-migrated_example :
    (collect_states (at 104) migrated.1 migrated.0).0
    ≡ ok (
        map
          (snapshot_of (at 104).now (history served_calls tables).messages)
          (lines (at 104) (history served_calls tables)))
collect_states-migrated_example =
    collect_states-migrated served_calls tables (at 104) tables-IsWellFormed refl

refresh_state_metrics-Shows_example :
    let out = refresh_state_metrics (at 104) 7 1 (migrated, new_metrics) in
    (out.0 ≡ ok tt) × Shows (at 104) 7 (history served_calls tables) new_metrics out.1.1
refresh_state_metrics-Shows_example =
    refresh_state_metrics-Shows (at 104) 7 1 new_metrics served_calls tables tables-IsWellFormed
      refl

-- A session that gets no connection.
abbrev cut_off : Session
cut_off = record (at 104) { fault = pool_exhausted }

-- A refresh that gets no connection, and one that answers.
abbrev refreshes : List Refresh
refreshes =
    (record { session = cut_off; now = 7; elapsed = 1; tables = (tables, []) })
    ∷ (record { session = at 104; now = 22; elapsed = 1; tables = migrated })
    ∷ []

refresh_all-Accounts_example :
    Accounts new_metrics refreshes
      (refresh_all refreshes new_metrics).0
      (refresh_all refreshes new_metrics).1
refresh_all-Accounts_example = refresh_all-Accounts refreshes new_metrics

abbrev first_lease : QueueStateCollectorLease
first_lease = record { connection = 4 }

abbrev second_lease : QueueStateCollectorLease
second_lease = record { connection = 5 }

-- The session of the first collector has died, and another leads while the first keeps its lease.
succeeded : Reachable (some 5, second_lease ∷ [], first_lease ∷ [])
unfolding try_acquire_lease drop_lease
succeeded =
    moves (moves (moves starts (takes no_fault 4 first_lease tt tt refl)) (dies 4))
      (takes no_fault 5 second_lease tt ((λ h. omega (arith, h)), tt) refl)

Reachable-IsExclusive_example : IsExclusive (some 5) (second_lease ∷ [])
Reachable-IsExclusive_example = Reachable-IsExclusive succeeded

abbrev snapshot_at : MessagePriority → ℕ → ℕ → QueuePriorityStateSnapshot
snapshot_at p n age = record {
  queue_name = bytes "jobs";
  priority = p;
  ready = n;
  in_flight = 0;
  oldest_ready_age = pos age;
  oldest_in_flight_age = pos 0;
}

-- One high and one low message wait; the medium one has expired, and the exhausted one counts in
-- neither column.
collected_states : collect_states (at 100) (backfill tables.messages) tables ≡ (
  ok (
      snapshot_at high 1 (100 * second)
      ∷ snapshot_at medium 0 0
      ∷ snapshot_at low 1 (100 * second)
      ∷ []),
  tables,
)
unfolding collect_states state_rows state_row oldest order_by insert_row from_rank backfill tally
    join_group
collected_states = refl
