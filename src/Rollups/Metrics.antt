-- ===== src/Rollups/Metrics.antt =====
-- src/observability/metrics/queue_state.rs and the two methods of `QueueModule` around the collector
-- (src/modules/queue/mod.rs). Times are numbers of a monotonic clock.
use mathlib.Core.Option
use retsu.Base.{
  ℕ, ◌+◌, ◌-◌, Bool, true, false, Option, none, some, List, [], ◌∷◌, ◌++◌, map, Text, bytes, Result,
  ok, err, panicked, Action, ℤ, if◌then◌else◌,
}
use retsu.Domain.Message.{as_str}
use retsu.Repository.{Error}
use retsu.Postgres.Tables.{Session, Fault}
use retsu.Rollups.Calls.{Rolled}
use retsu.Rollups.Collector.{
  QueuePriorityStateSnapshot, QueueStateCollectorLease, Connection, Lock, try_acquire_lease,
  collect_states,
}

pub record QueuePriorityStateMetric : Type 0 where
  pub queue_name : Text
  pub priority : Text
  pub ready : ℕ
  pub in_flight : ℕ
  pub oldest_ready_age : ℤ
  pub oldest_in_flight_age : ℤ

-- The shared snapshot that the observable gauges read.
pub record QueueStateMetricCache : Type 0 where
  pub queues : List QueuePriorityStateMetric
  pub updated_at : Option ℕ

-- A record of the histogram, with its attribute `outcome`.
pub record Collection : Type 0 where
  pub duration : ℕ
  pub outcome : Text

-- The snapshot with what was recorded: the gauge's last value, the counter and the histogram.
pub record QueueStateMetrics : Type 0 where
  pub state : QueueStateMetricCache
  pub collection_success : Option ℕ
  pub collection_failures : ℕ
  pub collection_duration : List Collection

unfoldable pub new_metrics : QueueStateMetrics
new_metrics = record {
  state = record { queues = []; updated_at = none };
  collection_success = none;
  collection_failures = 0;
  collection_duration = [];
}

-- What a gauge's callback observes: a value with the attributes `queue.name` and
-- `message.priority`.
pub record Observation (A : Type 0) : Type 0 where
  pub queue_name : Text
  pub priority : Text
  pub value : A

abbrev pub observe :
    {A : Type 0} → (QueuePriorityStateMetric → A) → QueuePriorityStateMetric → Observation A
observe value queue = record {
  queue_name = queue.queue_name;
  priority = queue.priority;
  value = value queue;
}

unfoldable pub messages_ready : QueueStateMetrics → List (Observation ℕ)
messages_ready metrics = map (observe λ queue. queue.ready) metrics.state.queues

unfoldable pub messages_in_flight : QueueStateMetrics → List (Observation ℕ)
messages_in_flight metrics = map (observe λ queue. queue.in_flight) metrics.state.queues

unfoldable pub oldest_ready_message_age : QueueStateMetrics → List (Observation ℤ)
oldest_ready_message_age metrics =
    map (observe λ queue. queue.oldest_ready_age) metrics.state.queues

unfoldable pub oldest_in_flight_message_age : QueueStateMetrics → List (Observation ℤ)
oldest_in_flight_message_age metrics =
    map (observe λ queue. queue.oldest_in_flight_age) metrics.state.queues

-- `updated_at.elapsed()`
unfoldable pub snapshot_age : ℕ → QueueStateMetrics → Option ℕ
snapshot_age now metrics = Option.map (λ t. now - t) metrics.state.updated_at

unfoldable pub replace : ℕ → List QueuePriorityStateMetric → QueueStateMetrics → QueueStateMetrics
replace now queues metrics = record metrics {
  state = record { queues = queues; updated_at = some now };
}

unfoldable pub collection_finished : ℕ → Bool → QueueStateMetrics → QueueStateMetrics
collection_finished duration succeeded metrics = record metrics {
  collection_success = some (if succeeded then 1 else 0);
  collection_failures =
      if succeeded then metrics.collection_failures else metrics.collection_failures + 1;
  collection_duration =
      metrics.collection_duration
      ++ (record {
        duration = duration;
        outcome = if succeeded then bytes "success" else bytes "error";
      })
        ∷ [];
}

abbrev pub measurement : QueuePriorityStateSnapshot → QueuePriorityStateMetric
measurement state = record {
  queue_name = state.queue_name;
  priority = as_str state.priority;
  ready = state.ready;
  in_flight = state.in_flight;
  oldest_ready_age = state.oldest_ready_age;
  oldest_in_flight_age = state.oldest_in_flight_age;
}

-- The arms of the match on the collected states, `elapsed` after the start.
abbrev pub refreshed :
    {S : Type 0}
    → ℕ
    → ℕ
    → QueueStateMetrics
    → Result Error (List QueuePriorityStateSnapshot) × S
    → Result Error (Unit {0}) × (S × QueueStateMetrics)
refreshed now elapsed metrics (ok snapshot, s) =
    (ok tt, (s, collection_finished elapsed true (replace now (map measurement snapshot) metrics)))
refreshed now elapsed metrics (err e, s) = (err e, (s, collection_finished elapsed false metrics))
refreshed now elapsed metrics (panicked, s) = (panicked, (s, metrics))

unfoldable pub refresh_state_metrics :
    Session → (now elapsed : ℕ) → Action (Rolled × QueueStateMetrics) Error (Unit {0})
unfolding collection_finished replace
refresh_state_metrics s now elapsed ((db, rows), metrics) =
    let (r, db') = collect_states s rows db in refreshed now elapsed metrics (r, (db', rows))

unfoldable pub try_acquire_state_collector_lease :
    Fault → Connection → Action Lock Error (Option QueueStateCollectorLease)
try_acquire_state_collector_lease = try_acquire_lease
