-- ===== src/Worker/Leadership.antt =====
-- How the collector's loops end, and that it refreshes only with a lease.
use retsu.Base.{
  ℕ, zero, suc, ◌≡◌, refl, List, [], ◌∷◌, Memᴰ, Result, ok, err, panicked, Action, Option, none,
  some, inl, inr, ◌⊎◌,
}
use retsu.Worker.Cleaner.{Poll, cancelled, completed}
use retsu.Worker.Collector.{
  Wait, for_tick, for_call, acquire_failed, refresh_failed, CollectorExit, following, leading,
  collector_stopped, collector_failed, collector_panicked, CollectorRun, refreshed_by, collect,
  acquired_by, wait_for_leadership, state_metrics_collector,
}
use retsu.Worker.Loops.{not_there, not_later}

module _ {S E Lease : Type 0} (try_acquire : Action S E (Option Lease))
    (refresh : Lease → Action S E (Unit {0})) where
  abbrev pub WasAcquired : Lease → Type 0
  WasAcquired lease = (s : S) × ((try_acquire s).0 ≡ ok (some lease))

  -- A way to end that the polls and the calls account for.
  abbrev pub CollectorAccountsFor : List Poll → CollectorExit E → Type 0
  CollectorAccountsFor polls following = ¬ Memᴰ cancelled polls
  CollectorAccountsFor polls leading =
      (¬ Memᴰ cancelled polls) × ((lease : Lease) × WasAcquired lease)
  CollectorAccountsFor polls collector_stopped = Memᴰ cancelled polls
  CollectorAccountsFor polls (collector_failed (acquire_failed e)) =
      (s : S) × ((try_acquire s).0 ≡ err e)
  CollectorAccountsFor polls (collector_failed (refresh_failed e)) =
      (lease : Lease) × WasAcquired lease × ((s : S) × ((refresh lease s).0 ≡ err e))
  CollectorAccountsFor polls collector_panicked =
      ((s : S) × ((try_acquire s).0 ≡ panicked))
      ⊎ ((lease : Lease) × WasAcquired lease × ((s : S) × ((refresh lease s).0 ≡ panicked)))

  collector_later :
      (polls : List Poll) (exit : CollectorExit E)
      → CollectorAccountsFor polls exit
      → CollectorAccountsFor (completed ∷ polls) exit
  collector_later polls following h = not_later polls h
  collector_later polls leading h = (not_later polls h.0, h.1)
  collector_later polls collector_stopped h = Memᴰ.tail h
  collector_later polls (collector_failed (acquire_failed e)) h = h
  collector_later polls (collector_failed (refresh_failed e)) h = h
  collector_later polls collector_panicked h = h

  refreshed-AccountsFor :
      (lease : Lease) (polls : List Poll) (s : S) (r : Result E (Unit {0}) × S)
      (next : S → CollectorRun S E)
      → WasAcquired lease
      → (refresh lease s).0 ≡ r.0
      → ((s' : S) → CollectorAccountsFor polls (next s').exit)
      → CollectorAccountsFor (completed ∷ polls) (refreshed_by try_acquire refresh r next).exit
  refreshed-AccountsFor lease polls s (ok _, s') next a e h = collector_later polls _ (h s')
  refreshed-AccountsFor lease polls s (err x, s') next a e h = (lease, a, (s, e))
  refreshed-AccountsFor lease polls s (panicked, s') next a e h = inr (lease, a, (s, e))

  collect-AccountsFor :
      (lease : Lease) (wait : Wait) (polls : List Poll) (s : S)
      → WasAcquired lease
      → CollectorAccountsFor polls (collect try_acquire refresh lease wait polls s).exit
  unfolding collect
  collect-AccountsFor lease wait [] s a = (not_there, (lease, a))
  collect-AccountsFor lease wait (cancelled ∷ polls) s a = Memᴰ.head refl
  collect-AccountsFor lease for_tick (completed ∷ polls) s a =
      collector_later polls _ (collect-AccountsFor lease for_call polls s a)
  collect-AccountsFor lease for_call (completed ∷ polls) s a =
      refreshed-AccountsFor lease polls s (refresh lease s)
        (collect try_acquire refresh lease for_tick polls) a refl
        (λ s'. collect-AccountsFor lease for_tick polls s' a)

  acquired-AccountsFor :
      (polls : List Poll) (s : S) (r : Result E (Option Lease) × S)
      → (try_acquire s).0 ≡ r.0
      → ((s' : S)
          → CollectorAccountsFor polls
              (wait_for_leadership try_acquire refresh for_tick polls s').exit)
      → CollectorAccountsFor
          (completed ∷ polls)
          (acquired_by try_acquire refresh r
            (wait_for_leadership try_acquire refresh for_tick polls)
            (λ lease. collect try_acquire refresh lease for_tick polls)).exit
  acquired-AccountsFor polls s (ok none, s') e h = collector_later polls _ (h s')
  acquired-AccountsFor polls s (ok (some lease), s') e h =
      collector_later polls _ (collect-AccountsFor lease for_tick polls s' (s, e))
  acquired-AccountsFor polls s (err x, s') e h = (s, e)
  acquired-AccountsFor polls s (panicked, s') e h = inl (s, e)

  waiting-AccountsFor :
      (wait : Wait) (polls : List Poll) (s : S)
      → CollectorAccountsFor polls (wait_for_leadership try_acquire refresh wait polls s).exit
  unfolding wait_for_leadership
  waiting-AccountsFor wait [] s = not_there
  waiting-AccountsFor wait (cancelled ∷ polls) s = Memᴰ.head refl
  waiting-AccountsFor for_tick (completed ∷ polls) s =
      collector_later polls _ (waiting-AccountsFor for_call polls s)
  waiting-AccountsFor for_call (completed ∷ polls) s =
      acquired-AccountsFor polls s (try_acquire s) refl (waiting-AccountsFor for_tick polls)

  -- So many refreshes with a lease one after another, from a state on, that all succeeded.
  abbrev pub Refreshes : Lease → ℕ → S → Type 0
  Refreshes lease zero s = Unit
  Refreshes lease (suc n) s = (s' : S) × (refresh lease s ≡ (ok tt, s')) × Refreshes lease n s'

  -- No refresh succeeded, or a lease was acquired and, from the state that this left on, so many
  -- refreshes with it succeeded.
  abbrev pub RefreshesWithLease : ℕ → Type 0
  RefreshesWithLease n =
      (n ≡ 0)
      ⊎ ((lease : Lease) × (s : S) × (s' : S) × (try_acquire s ≡ (ok (some lease), s'))
          × Refreshes lease n s')

  refreshed-Refreshes :
      (lease : Lease) (s : S) (r : Result E (Unit {0}) × S) (next : S → CollectorRun S E)
      → refresh lease s ≡ r
      → ((s' : S) → Refreshes lease (next s').refreshed s')
      → Refreshes lease (refreshed_by try_acquire refresh r next).refreshed s
  refreshed-Refreshes lease s (ok _, s') next e h = (s', e, h s')
  refreshed-Refreshes lease s (err x, s') next e h = tt
  refreshed-Refreshes lease s (panicked, s') next e h = tt

  collect-Refreshes :
      (lease : Lease) (wait : Wait) (polls : List Poll) (s : S)
      → Refreshes lease (collect try_acquire refresh lease wait polls s).refreshed s
  unfolding collect
  collect-Refreshes lease wait [] s = tt
  collect-Refreshes lease wait (cancelled ∷ polls) s = tt
  collect-Refreshes lease for_tick (completed ∷ polls) s = collect-Refreshes lease for_call polls s
  collect-Refreshes lease for_call (completed ∷ polls) s =
      refreshed-Refreshes lease s (refresh lease s)
        (collect try_acquire refresh lease for_tick polls) refl
        (collect-Refreshes lease for_tick polls)

  acquired-RefreshesWithLease :
      (polls : List Poll) (s : S) (r : Result E (Option Lease) × S)
      → try_acquire s ≡ r
      → ((s' : S)
          → RefreshesWithLease
              (wait_for_leadership try_acquire refresh for_tick polls s').refreshed)
      → RefreshesWithLease
          (acquired_by try_acquire refresh r
            (wait_for_leadership try_acquire refresh for_tick polls)
            (λ lease. collect try_acquire refresh lease for_tick polls)).refreshed
  acquired-RefreshesWithLease polls s (ok none, s') e h = h s'
  acquired-RefreshesWithLease polls s (ok (some lease), s') e h =
      inr (lease, s, s', e, collect-Refreshes lease for_tick polls s')
  acquired-RefreshesWithLease polls s (err x, s') e h = inl refl
  acquired-RefreshesWithLease polls s (panicked, s') e h = inl refl

  waiting-RefreshesWithLease :
      (wait : Wait) (polls : List Poll) (s : S)
      → RefreshesWithLease (wait_for_leadership try_acquire refresh wait polls s).refreshed
  unfolding wait_for_leadership
  waiting-RefreshesWithLease wait [] s = inl refl
  waiting-RefreshesWithLease wait (cancelled ∷ polls) s = inl refl
  waiting-RefreshesWithLease for_tick (completed ∷ polls) s =
      waiting-RefreshesWithLease for_call polls s
  waiting-RefreshesWithLease for_call (completed ∷ polls) s =
      acquired-RefreshesWithLease polls s (try_acquire s) refl
        (waiting-RefreshesWithLease for_tick polls)

  -- The collector returns only if a poll found the cancellation, and returns or panics with a
  -- failure only if acquiring the lease or a refresh failed so; unless no refresh succeeded, a
  -- lease was acquired, and the refreshes that succeeded are as many with that lease, one after
  -- another from the state that acquiring it left.
  pub state_metrics_collector-CollectorAccountsFor :
      (polls : List Poll) (s : S)
      → CollectorAccountsFor polls (state_metrics_collector try_acquire refresh polls s).exit
        × RefreshesWithLease (state_metrics_collector try_acquire refresh polls s).refreshed
  unfolding state_metrics_collector
  state_metrics_collector-CollectorAccountsFor polls s =
      (waiting-AccountsFor for_tick polls s, waiting-RefreshesWithLease for_tick polls s)
