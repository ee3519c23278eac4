-- ===== src/Worker/Tests.antt =====
-- Short runs of the workers, on which their theorems are applied.
use retsu.Base.{
  ℕ, min, ◌+◌, ◌-◌, ◌↔◌, Option, ◌==◌, if◌then◌else◌, true, none, some, ◌≡◌, refl, List, [], ◌∷◌,
  Text, bytes, ok, err, Action,
}
use retsu.Repository.{Error, statement_failed}
use retsu.Worker.Cleaner.{Poll, cancelled, completed, calling, stopped, clean}
use retsu.Worker.Collector.{state_metrics_collector, collector_failed, refresh_failed}
use retsu.Worker.Serve.{Joined, worker_exit, join_error, First, signal, Drain, drained, serve}
use retsu.Worker.Loops.{AccountsFor, clean-AccountsFor}
use retsu.Worker.Leadership.{
  RefreshesWithLease, CollectorAccountsFor, state_metrics_collector-CollectorAccountsFor,
}
use retsu.Worker.Exits.{serve-eq-ok_iff, EndsWell}

-- The state counts down; a call removes two rows at most, and fails at 100.
abbrev remove : Action ℕ Error ℕ
remove n = if n == 100 then (err statement_failed, n) else (ok (min 2 n), n - 2)

abbrev pause : ℕ → ℕ
pause n = if n == 2 then 50 else 60_000

abbrev polls : List Poll
polls = completed ∷ completed ∷ completed ∷ completed ∷ completed ∷ cancelled ∷ []

drains :
    clean remove pause calling polls 5
    ≡ (record { counts = 2 ∷ 2 ∷ 1 ∷ []; exit = stopped; state = 0 })
unfolding clean
drains = refl

clean-AccountsFor_example : AccountsFor remove pause polls (clean remove pause calling polls 5).exit
clean-AccountsFor_example = clean-AccountsFor remove pause calling polls 5

-- The lease comes with the second attempt; the third refresh fails.
abbrev try_acquire : Action ℕ Error (Option Text)
try_acquire n = (ok (if n == 1 then some (bytes "lease") else none), n + 1)

abbrev refresh : Text → Action ℕ Error (Unit {0})
refresh lease n = if n == 4 then (err statement_failed, n) else (ok tt, n + 1)

abbrev ticks : List Poll
ticks =
    completed ∷ completed ∷ completed ∷ completed ∷ completed ∷ completed ∷ completed ∷ completed
    ∷ completed ∷ completed ∷ []

leads : state_metrics_collector try_acquire refresh ticks 0 ≡ (record {
  refreshed = 2;
  exit = collector_failed (refresh_failed statement_failed);
  state = 4;
})
unfolding state_metrics_collector
leads = refl

state_metrics_collector-CollectorAccountsFor_example :
    CollectorAccountsFor try_acquire refresh ticks
      (state_metrics_collector try_acquire refresh ticks 0).exit
    × RefreshesWithLease try_acquire refresh
        (state_metrics_collector try_acquire refresh ticks 0).refreshed
state_metrics_collector-CollectorAccountsFor_example =
    state_metrics_collector-CollectorAccountsFor try_acquire refresh ticks 0

abbrev cleaner : Joined Error
cleaner = worker_exit (bytes "cleaner") none

abbrev broken : Joined Error
broken = worker_exit (bytes "collector") (some statement_failed)

abbrev ends : List (Joined Error)
ends = cleaner ∷ broken ∷ join_error ∷ []

abbrev well : Drain Error
well = drained (cleaner ∷ [])

abbrev asked : First Error
asked = signal true

serve-eq-ok_iff_example :
    (serve (bytes "cleaner" ∷ []) true asked well ≡ ok tt) ↔ ((asked ≡ signal true) × EndsWell well)
serve-eq-ok_iff_example = serve-eq-ok_iff (bytes "cleaner") [] true asked well
