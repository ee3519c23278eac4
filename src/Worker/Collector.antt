-- ===== src/Worker/Collector.antt =====
-- src/modules/queue/worker/state_metrics_collector.rs: the loops that wait for the lease and then
-- refresh the metrics. What each `select!` finds is given as a list; logs are left out.
use retsu.Base.{
  ℕ, suc, Option, none, some, List, [], ◌∷◌, Text, bytes, Result, ok, err, panicked, Action,
}
use retsu.Worker.Cleaner.{Poll, cancelled, completed}

abbrev pub state_metrics_collector_name : Text
state_metrics_collector_name = bytes "state-metrics-collector"

-- A loop waits for the next tick of its interval, or for the call that follows it.
pub data Wait : Type 0 where
  for_tick for_call : Wait

pub data CollectorError (E : Type 0) : Type 0 where
  acquire_failed : E → CollectorError E
  refresh_failed : E → CollectorError E

-- The polls are used up, without or with the lease; the task returned; it panicked.
pub data CollectorExit (E : Type 0) : Type 0 where
  following leading : CollectorExit E
  collector_stopped : CollectorExit E
  collector_failed : CollectorError E → CollectorExit E
  collector_panicked : CollectorExit E

-- How many refreshes succeeded, how the task ended, and the state.
pub record CollectorRun (S E : Type 0) : Type 0 where
  pub refreshed : ℕ
  pub exit : CollectorExit E
  pub state : S

abbrev pub ended : {S E : Type 0} → CollectorExit E → S → CollectorRun S E
ended exit s = record { refreshed = 0; exit = exit; state = s }

module _ {S E Lease : Type 0} (try_acquire : Action S E (Option Lease))
    (refresh : Lease → Action S E (Unit {0})) where
  abbrev pub refreshed_by : Result E (Unit {0}) × S → (S → CollectorRun S E) → CollectorRun S E
  refreshed_by (ok _, s) next = let run = next s in record run { refreshed = suc run.refreshed }
  refreshed_by (err e, s) next = ended (collector_failed (refresh_failed e)) s
  refreshed_by (panicked, s) next = ended collector_panicked s

  unfoldable pub collect : Lease → Wait → List Poll → S → CollectorRun S E
  collect lease wait [] s = ended leading s
  collect lease wait (cancelled ∷ polls) s = ended collector_stopped s
  collect lease for_tick (completed ∷ polls) s = collect lease for_call polls s
  collect lease for_call (completed ∷ polls) s =
      refreshed_by (refresh lease s) (collect lease for_tick polls)

  abbrev pub acquired_by :
      Result E (Option Lease) × S
      → (retry : S → CollectorRun S E) → (lead : Lease → S → CollectorRun S E) → CollectorRun S E
  acquired_by (ok none, s) retry lead = retry s
  acquired_by (ok (some lease), s) retry lead = lead lease s
  acquired_by (err e, s) retry lead = ended (collector_failed (acquire_failed e)) s
  acquired_by (panicked, s) retry lead = ended collector_panicked s

  -- `wait_for_leadership`, and `collect` once there is a lease.
  unfoldable pub wait_for_leadership : Wait → List Poll → S → CollectorRun S E
  unfolding collect
  wait_for_leadership wait [] s = ended following s
  wait_for_leadership wait (cancelled ∷ polls) s = ended collector_stopped s
  wait_for_leadership for_tick (completed ∷ polls) s = wait_for_leadership for_call polls s
  wait_for_leadership for_call (completed ∷ polls) s =
      acquired_by (try_acquire s) (wait_for_leadership for_tick polls)
        λ lease. collect lease for_tick polls

  unfoldable pub state_metrics_collector : List Poll → S → CollectorRun S E
  unfolding wait_for_leadership
  state_metrics_collector = wait_for_leadership for_tick
