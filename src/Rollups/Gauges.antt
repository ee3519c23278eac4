-- ===== src/Rollups/Gauges.antt =====
-- What the gauges show after a refresh (src/modules/queue/mod.rs,
-- src/observability/metrics/queue_state.rs).

use retsu.Base.{ℕ, ◌-◌, ◌≡◌, refl, ap, some, List, [], ◌∷◌, map, Result, ok}
use retsu.Domain.Message.{MessagePriority, as_str}
use retsu.Repository.{Error}
use retsu.Postgres.Tables.{QueueRow, MessageRow, Database, Session, no_fault}
use retsu.Postgres.Calls.{Call, history}
use retsu.Rollups.Tallies.{count}
use retsu.Rollups.Calls.{Rolled, rolled_history}
use retsu.Rollups.Collector.{QueuePriorityStateSnapshot}
use retsu.Rollups.Reading.{snapshot_of, available_at, leased_at, lines, collect_states-migrated}
use retsu.Rollups.Backfill.{backfill}
use retsu.Postgres.Invariant.{IsWellFormed}
use retsu.Rollups.Metrics.{
  QueueStateMetrics, Observation, messages_ready, messages_in_flight, snapshot_age, measurement,
  refreshed, refresh_state_metrics, replace, collection_finished, observe,
}

-- A number for each queue and priority.
abbrev pub shown : (QueueRow → MessagePriority → ℕ) → QueueRow × MessagePriority → Observation ℕ
shown value (q, p) = record { queue_name = q.name; priority = as_str p; value = value q p }

observed_ready :
    (now : ℕ) (ms : List MessageRow) (xs : List (QueueRow × MessagePriority))
    → map (observe λ queue. queue.ready) (map measurement (map (snapshot_of now ms) xs))
      ≡ map (shown λ q p. count (available_at now q p) ms) xs
observed_ready now ms [] = refl
observed_ready now ms ((q, p) ∷ xs) =
    ap (λ ys. shown (λ q' p'. count (available_at now q' p') ms) (q, p) ∷ ys)
      (observed_ready now ms xs)

observed_in_flight :
    (now : ℕ) (ms : List MessageRow) (xs : List (QueueRow × MessagePriority))
    → map (observe λ queue. queue.in_flight) (map measurement (map (snapshot_of now ms) xs))
      ≡ map (shown λ q p. count (leased_at now q p) ms) xs
observed_in_flight now ms [] = refl
observed_in_flight now ms ((q, p) ∷ xs) =
    ap (λ ys. shown (λ q' p'. count (leased_at now q' p') ms) (q, p) ∷ ys)
      (observed_in_flight now ms xs)

-- What a refresh without an error leaves.
pub record Shows (s : Session) (now : ℕ) (db : Database) (before after : QueueStateMetrics)
    : Type 0 where
  pub ready :
      messages_ready after
      ≡ map (shown λ q p. count (available_at s.now q p) db.messages) (lines s db)
  pub in_flight :
      messages_in_flight after
      ≡ map (shown λ q p. count (leased_at s.now q p) db.messages) (lines s db)
  pub fresh : (t : ℕ) → snapshot_age t after ≡ some (t - now)
  pub success : after.collection_success ≡ some 1
  pub failures : after.collection_failures ≡ before.collection_failures

module _ (s : Session) (now elapsed : ℕ) (metrics : QueueStateMetrics) where
  refreshed-Shows :
      (db : Database) (state : Rolled) (r : Result Error (List QueuePriorityStateSnapshot))
      → r ≡ ok (map (snapshot_of s.now db.messages) (lines s db))
      → ((refreshed now elapsed metrics (r, state)).0 ≡ ok tt)
        × Shows s now db metrics (refreshed now elapsed metrics (r, state)).1.1
  unfolding messages_ready messages_in_flight snapshot_age replace collection_finished
  refreshed-Shows db state r e = rw e (
    refl,
    record {
      ready = observed_ready s.now db.messages (lines s db);
      in_flight = observed_in_flight s.now db.messages (lines s db);
      fresh = λ t. refl;
      success = refl;
      failures = refl;
    },
  )

  -- On well-formed tables that the migration has backfilled, after any history of calls with their
  -- triggers, a refresh of the state metrics without a failure around its statement succeeds: for
  -- each queue and each of its priorities the ready gauge shows the number of messages that a
  -- dequeue from the queue could take at that time, and the in-flight gauge the number that a
  -- lease in force holds; the snapshot is as old as the time since, the last collection counts as
  -- a success, and no failure is counted.
  pub refresh_state_metrics-Shows :
      (cs : List (Session × Call)) (db : Database)
      → IsWellFormed db
      → s.fault ≡ no_fault
      → let state = rolled_history cs (db, backfill db.messages) in
        let out = refresh_state_metrics s now elapsed (state, metrics) in
        (out.0 ≡ ok tt) × Shows s now (history cs db) metrics out.1.1
  unfolding refresh_state_metrics
  refresh_state_metrics-Shows cs db w clear =
      refreshed-Shows (history cs db) _ _ (collect_states-migrated cs db s w clear)
