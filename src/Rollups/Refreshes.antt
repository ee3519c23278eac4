-- ===== src/Rollups/Refreshes.antt =====
-- What a series of refreshes records (src/modules/queue/mod.rs,
-- src/observability/metrics/queue_state.rs).
use retsu.Base.{
  ℕ, ◌+◌, ◌≡◌, refl, arith, Option, some, List, [], ◌∷◌, ◌++◌, map, Text, bytes, same, same_refl,
  true, false, Result, ok, err, panicked, if◌then◌else◌,
}
use retsu.Repository.{Error}
use retsu.Postgres.Tables.{Session}
use retsu.Rollups.Calls.{Rolled}
use retsu.Rollups.Collector.{QueuePriorityStateSnapshot, collect_states}
use retsu.Rollups.Metrics.{
  QueueStateMetricCache, Collection, QueueStateMetrics, measurement, refreshed,
  refresh_state_metrics, replace, collection_finished,
}

-- A refresh, and the tables that it finds, which any calls may have changed since the one before.
pub record Refresh : Type 0 where
  pub session : Session
  pub now : ℕ
  pub elapsed : ℕ
  pub tables : Rolled

-- The results of refreshes one after another.
unfoldable pub refresh_all :
    List Refresh → QueueStateMetrics → List (Result Error (Unit {0})) × QueueStateMetrics
unfolding refresh_state_metrics
refresh_all [] metrics = ([], metrics)
refresh_all (a ∷ as') metrics =
    let (r, (tables, next)) = refresh_state_metrics a.session a.now a.elapsed (a.tables, metrics) in
    let (rs, last) = refresh_all as' next in (r ∷ rs, last)

abbrev pub succeeded : List (Result Error (Unit {0})) → ℕ
succeeded [] = 0
succeeded (ok u ∷ rs) = 1 + succeeded rs
succeeded (err e ∷ rs) = succeeded rs
succeeded (panicked ∷ rs) = succeeded rs

abbrev pub failed : List (Result Error (Unit {0})) → ℕ
failed [] = 0
failed (ok u ∷ rs) = failed rs
failed (err e ∷ rs) = 1 + failed rs
failed (panicked ∷ rs) = failed rs

-- The value that the last result leaves in the success gauge.
abbrev pub last_told : Option ℕ → List (Result Error (Unit {0})) → Option ℕ
last_told told [] = told
last_told told (ok u ∷ rs) = last_told (some 1) rs
last_told told (err e ∷ rs) = last_told (some 0) rs
last_told told (panicked ∷ rs) = last_told told rs

-- The snapshot of the last statement that answered.
abbrev pub shown_after :
    ℕ
    → Result Error (List QueuePriorityStateSnapshot)
    → QueueStateMetricCache
    → QueueStateMetricCache
shown_after now (ok states) shown = record {
  queues = map measurement states;
  updated_at = some now;
}
shown_after now (err e) shown = shown
shown_after now panicked shown = shown

abbrev pub last_shown : QueueStateMetricCache → List Refresh → QueueStateMetricCache
last_shown shown [] = shown
last_shown shown (a ∷ as') =
    last_shown (shown_after a.now (collect_states a.session a.tables.1 a.tables.0).0 shown) as'

abbrev pub with_outcome : Text → List Collection → ℕ
with_outcome outcome [] = 0
with_outcome outcome (c ∷ cs) = (if same outcome c.outcome then 1 else 0) + with_outcome outcome cs

-- What the metrics tell of the refreshes between two states of them.
pub record Accounts (before : QueueStateMetrics) (refreshes : List Refresh)
    (results : List (Result Error (Unit {0}))) (after : QueueStateMetrics) : Type 0 where
  pub failures : after.collection_failures ≡ before.collection_failures + failed results
  pub errors :
      with_outcome (bytes "error") after.collection_duration
      ≡ with_outcome (bytes "error") before.collection_duration + failed results
  pub successes :
      with_outcome (bytes "success") after.collection_duration
      ≡ with_outcome (bytes "success") before.collection_duration + succeeded results
  pub told : after.collection_success ≡ last_told before.collection_success results
  pub shown : after.state ≡ last_shown before.state refreshes

with_outcome-append :
    (outcome : Text) (xs ys : List Collection)
    → with_outcome outcome (xs ++ ys) ≡ with_outcome outcome xs + with_outcome outcome ys
with_outcome-append outcome [] ys = omega arith
with_outcome-append outcome (x ∷ xs) ys = omega (arith, with_outcome-append outcome xs ys)

one_more :
    (outcome : Text) (xs : List Collection) (c : Collection) (m k : ℕ)
    → same outcome c.outcome ≡ true
    → k ≡ with_outcome outcome (xs ++ c ∷ []) + m
    → k ≡ with_outcome outcome xs + (1 + m)
one_more outcome xs c m k h e = ground (arith, e, h, with_outcome-append outcome xs (c ∷ []))

no_more :
    (outcome : Text) (xs : List Collection) (c : Collection) (m k : ℕ)
    → same outcome c.outcome ≡ false
    → k ≡ with_outcome outcome (xs ++ c ∷ []) + m
    → k ≡ with_outcome outcome xs + m
no_more outcome xs c m k h e = ground (arith, e, h, with_outcome-append outcome xs (c ∷ []))

different :
    (same (bytes "error") (bytes "success") ≡ false)
    × (same (bytes "success") (bytes "error") ≡ false)
unfolding same
different = (refl, refl)

-- One refresh before the others.
refreshed-Accounts :
    (a : Refresh) (before : QueueStateMetrics) (r : Result Error (List QueuePriorityStateSnapshot))
    (t : Rolled) (as' : List Refresh) (rs : List (Result Error (Unit {0})))
    (after : QueueStateMetrics)
    → (collect_states a.session a.tables.1 a.tables.0).0 ≡ r
    → Accounts (refreshed a.now a.elapsed before (r, t)).1.1 as' rs after
    → Accounts before (a ∷ as') ((refreshed a.now a.elapsed before (r, t)).0 ∷ rs) after
unfolding collection_finished replace
refreshed-Accounts a before (ok states) t as' rs after e w = record {
  failures = w.failures;
  errors = no_more (bytes "error") before.collection_duration _ (failed rs) _ different.0 w.errors;
  successes =
      one_more (bytes "success") before.collection_duration _ (succeeded rs) _
        (same_refl (bytes "success")) w.successes;
  told = w.told;
  shown = rw e w.shown;
}
refreshed-Accounts a before (err x) t as' rs after e w = record {
  failures = omega (arith, w.failures);
  errors =
      one_more (bytes "error") before.collection_duration _ (failed rs) _
        (same_refl (bytes "error")) w.errors;
  successes =
      no_more (bytes "success") before.collection_duration _ (succeeded rs) _ different.1
        w.successes;
  told = w.told;
  shown = rw e w.shown;
}
refreshed-Accounts a before panicked t as' rs after e w = record {
  failures = w.failures;
  errors = w.errors;
  successes = w.successes;
  told = w.told;
  shown = rw e w.shown;
}

-- Over any series of refreshes of the state metrics, each on whatever tables it finds, the failure
-- counter and the recorded outcomes count the results that are errors and those that are not, the
-- success gauge tells the last result that was no panic, and the snapshot and its time are those
-- of the last refresh whose statement answered.
pub refresh_all-Accounts :
    (refreshes : List Refresh) (before : QueueStateMetrics)
    → let out = refresh_all refreshes before in Accounts before refreshes out.0 out.1
unfolding refresh_all refresh_state_metrics
refresh_all-Accounts [] before = record {
  failures = omega arith;
  errors = omega arith;
  successes = omega arith;
  told = refl;
  shown = refl;
}
refresh_all-Accounts (a ∷ as') before =
    let next = (refresh_state_metrics a.session a.now a.elapsed (a.tables, before)).1.1 in
    refreshed-Accounts a before _ _ as' _ _ refl (refresh_all-Accounts as' next)
