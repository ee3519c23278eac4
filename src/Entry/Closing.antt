-- ===== src/Entry/Closing.antt =====
-- Which pools a process leaves open (src/lib.rs, src/entrypoints, src/app/mod.rs).
use retsu.Base.{
  ℕ, ◌+◌, ◌≤◌, ◌≡◌, ◌∙◌, refl, arith, Option, List, Text, Result, ok, err, panicked, Action, ◌>>=◌,
  and_then, lift, map_err, ◌⊎◌, inl, inr, subst,
}
use retsu.Entry.Modules.{ModuleDefinition, ResolvedWorker}
use retsu.Entry.Dispatch.{
  Cli, RuntimeProcess, api_process, worker_process, migrate_process, PreparedEntrypoint, output,
  runtime, prepare,
}
use retsu.Entry.Running.{
  Libraries, ApplicationContext, then_always, both, after_error, with_module, initialize, run_api,
  run_worker, run_migrate, run_process, traces_down, shutdown, run_prepared, run,
}

module _ {S E C Pool QueueModule : Type 0} (lib : Libraries S E C Pool QueueModule)
    (pools : S → ℕ) where
  -- An action that leaves as many pools open as there were.
  abbrev pub KeepsPools : {A : Type 0} → Action S E A → Type 0
  KeepsPools call = (s : S) → pools (call s).1 ≡ pools s

  abbrev pub opened_by : Result E Pool → ℕ
  opened_by (ok pool) = 1
  opened_by (err e) = 0
  opened_by panicked = 0

  -- `connect` opens a pool when it succeeds, `close` ends one, a dropped handle may end one, and
  -- nothing else does either.
  pub record PoolLaws : Type 0 where
    pub connects :
        (c : C) (s : S) → pools (lib.connect c s).1 ≡ pools s + opened_by (lib.connect c s).0
    pub closes : (pool : Pool) (s : S) → 1 ≤ pools s → pools (lib.close pool s) + 1 ≡ pools s
    pub drops :
        (pool : Pool) (s : S)
        → (pools (lib.drop_pool pool s) ≤ pools s) × (pools s ≤ pools (lib.drop_pool pool s) + 1)
    pub registers : (c : C) (pool : Pool) (s : S) → pools (lib.register_pool c pool s) ≡ pools s
    pub banner : KeepsPools lib.print_banner
    pub writes : (text : Text) → KeepsPools (lib.write_all text)
    pub loads : (path : Option Text) → KeepsPools (lib.load path)
    pub migrates : (pool : Pool) → KeepsPools (lib.migrate pool)
    pub makes : (c : C) (pool : Pool) → KeepsPools (lib.new_queue_module c pool)
    pub observes : (c : C) → KeepsPools (lib.initialize_observability c)
    pub shuts_metrics : KeepsPools lib.shutdown_metrics
    pub shuts_traces : KeepsPools (traces_down lib lib.shutdown_traces)
    pub serves_api : (c : C) (pool : Pool) (m : QueueModule) → KeepsPools (lib.serve_api c pool m)
    pub serves_workers :
        (c : C) (w : ResolvedWorker) (pool : Pool) (m : QueueModule)
        → KeepsPools (lib.serve_workers c w pool m)

  -- A panic, or the error with which `QueueModule::new` failed on a pool that was just opened and
  -- registered.
  abbrev pub MayStayOpen : Result E (Unit {0}) → Type 0
  MayStayOpen result =
      (result ≡ panicked)
      ⊎ ((c : C) × (s : S) × (pool : Pool) × (s' : S) × (e : E) × (lib.connect c s ≡ (ok pool, s'))
          × ((lib.new_queue_module c pool (lib.register_pool c pool s')).0 ≡ err e)
          × (result ≡ err e))

  -- As many pools are open as before, or at most one more after such an end.
  abbrev pub ClosesTo : ℕ → Result E (Unit {0}) × S → Type 0
  ClosesTo n (result, s) = (pools s ≡ n) ⊎ ((n ≤ pools s) × (pools s ≤ n + 1) × MayStayOpen result)

  abbrev pub ClosesPools : Action S E (Unit {0}) → Type 0
  ClosesPools call = (s : S) → ClosesTo (pools s) (call s)

  module _ (laws : PoolLaws) where
    -- After an action that keeps the pools.
    chained :
        {A : Type 0} (m : Action S E A) (f : A → Action S E (Unit {0}))
        → KeepsPools m
        → ((a : A) → ClosesPools (f a))
        → ClosesPools (m >>= f)
    chained m f h k s = through (m s) (h s)
      where
        through : (r : Result _ _ × S) → pools r.1 ≡ pools s → ClosesTo (pools s) (and_then r f)
        through (ok a, s') e = subst (λ n. ClosesTo n (f a s')) e (k a s')
        through (err x, s') e = inl e
        through (panicked, s') e = inl e

    -- A handle dropped at an end that may leave the pool open.
    let_go-ClosesTo :
        (pool : Pool) (n : ℕ) (result : Result E (Unit {0})) (s : S)
        → pools s ≡ n + 1
        → MayStayOpen result
        → ClosesTo n (result, lib.drop_pool pool s)
    let_go-ClosesTo pool n result s e h =
        let (below, above) = laws.drops pool s in
        inr (omega (arith, e, above), omega (arith, e, below), h)

    -- Work on an open pool, and then its end.
    worked :
        (pool : Pool) (n : ℕ) (r : Result E (Unit {0}) × S)
        → pools r.1 ≡ n + 1
        → ClosesTo n (then_always (lib.close pool) (lib.drop_pool pool) r)
    worked pool n (ok a, s) e = inl (omega (arith, e, laws.closes pool s (omega (arith, e))))
    worked pool n (err x, s) e = inl (omega (arith, e, laws.closes pool s (omega (arith, e))))
    worked pool n (panicked, s) e = let_go-ClosesTo pool n panicked s e (inl refl)

    module_made :
        (pool : Pool) (n : ℕ) (r : Result E QueueModule × S)
        (work : ApplicationContext Pool QueueModule → Action S E (Unit {0}))
        → pools r.1 ≡ n + 1
        → ((x : E) → r.0 ≡ err x → MayStayOpen (err x))
        → ((m : QueueModule) (s : S)
            → pools s ≡ n + 1
            → ClosesTo n (work (record { database_pool = pool; queue_module = m }) s))
        → ClosesTo n (and_then (with_module lib pool r) work)
    module_made pool n (ok m, s) work e h k = k m s e
    module_made pool n (err x, s) work e h k = let_go-ClosesTo pool n (err x) s e (h x refl)
    module_made pool n (panicked, s) work e h k = let_go-ClosesTo pool n panicked s e (inl refl)

    connected :
        (n : ℕ) (r : Result E Pool × S) (f : Pool → Action S E (Unit {0}))
        → pools r.1 ≡ n + opened_by r.0
        → ((pool : Pool) (s : S) → pools s ≡ n + 1 → ClosesTo n (f pool s))
        → ClosesTo n (and_then r f)
    connected n (ok pool, s) f e k = k pool s e
    connected n (err x, s) f e k = inl (omega (arith, e))
    connected n (panicked, s) f e k = inl (omega (arith, e))

    -- A process that serves with a context.
    with_context :
        (c : C) (work : Pool → QueueModule → Action S E (Unit {0}))
        → ((pool : Pool) (m : QueueModule) → KeepsPools (work pool m))
        → ClosesPools (
            initialize lib c >>= λ context. λ s.
              then_always
                (lib.close context.database_pool)
                (lib.drop_pool context.database_pool)
                (work context.database_pool context.queue_module s))
    unfolding initialize
    with_context c work k s = opened (lib.connect c s) refl (laws.connects c s)
      where
        end : ApplicationContext Pool QueueModule → Action S E (Unit {0})
        end context s' =
            then_always (lib.close context.database_pool) (lib.drop_pool context.database_pool)
              (work context.database_pool context.queue_module s')

        made : Pool → Action S E (ApplicationContext Pool QueueModule)
        made pool s' =
            with_module lib pool (lib.new_queue_module c pool (lib.register_pool c pool s'))

        opened :
            (r : Result E Pool × S)
            → lib.connect c s ≡ r
            → pools r.1 ≡ pools s + opened_by r.0
            → ClosesTo (pools s) (and_then (and_then r made) end)
        opened (ok pool, s') same e =
            let registered = lib.register_pool c pool s' in
            module_made pool (pools s) (lib.new_queue_module c pool registered) end
              (laws.makes c pool registered ∙ (laws.registers c pool s' ∙ e))
              (λ x failed. inr (c, s, pool, s', x, same, failed, refl))
              (λ m s1 e1. worked pool (pools s) (work pool m s1) (k pool m s1 ∙ e1))
        opened (err x, s') same e = inl (omega (arith, e))
        opened (panicked, s') same e = inl (omega (arith, e))

    run_process-ClosesPools : (p : RuntimeProcess) (c : C) → ClosesPools (run_process lib p c)
    unfolding run_process run_api run_worker run_migrate
    run_process-ClosesPools api_process c = with_context c (lib.serve_api c) (laws.serves_api c)
    run_process-ClosesPools (worker_process w) c =
        with_context c (lib.serve_workers c w) (laws.serves_workers c w)
    run_process-ClosesPools migrate_process c = λ s.
        connected (pools s) (lib.connect c s) _ (laws.connects c s)
          (λ pool s' e. worked pool (pools s) (lib.migrate pool s') (laws.migrates pool s' ∙ e))

    -- The error of the first stays, unless the second panics.
    after_error-MayStayOpen :
        (x : E) (second : Result E (Unit {0}))
        → MayStayOpen (err x)
        → MayStayOpen (after_error x second)
    after_error-MayStayOpen x (ok a) h = h
    after_error-MayStayOpen x (err f) h = h
    after_error-MayStayOpen x panicked h = inl refl

    both-ClosesTo :
        (second : Action S E (Unit {0})) (n : ℕ) (r : Result E (Unit {0}) × S)
        → KeepsPools second
        → ClosesTo n r
        → ClosesTo n (both second r)
    both-ClosesTo second n (ok a, s) k (inl e) = inl (k s ∙ e)
    both-ClosesTo second n (ok a, s) k (inr (low, high, inl never)) = absurd (cc)
    both-ClosesTo second n (ok a, s) k (inr (low, high, inr (c, t, p, t', x, o, f, never))) =
        absurd (cc)
    both-ClosesTo second n (err x, s) k (inl e) = inl (k s ∙ e)
    both-ClosesTo second n (err x, s) k (inr (low, high, h)) = inr (
      omega (arith, low, k s),
      omega (arith, high, k s),
      after_error-MayStayOpen x (second s).0 h,
    )
    both-ClosesTo second n (panicked, s) k h = h

    both-KeepsPools :
        (second : Action S E (Unit {0})) (n : ℕ) (r : Result E (Unit {0}) × S)
        → KeepsPools second
        → pools r.1 ≡ n
        → pools (both second r).1 ≡ n
    both-KeepsPools second n (ok a, s) k e = k s ∙ e
    both-KeepsPools second n (err x, s) k e = k s ∙ e
    both-KeepsPools second n (panicked, s) k e = e

    shutdown-KeepsPools : KeepsPools (shutdown lib)
    unfolding shutdown
    shutdown-KeepsPools s =
        both-KeepsPools (traces_down lib lib.shutdown_traces) (pools s) (lib.shutdown_metrics s)
          laws.shuts_traces (laws.shuts_metrics s)

    run_prepared-ClosesPools : (p : PreparedEntrypoint) → ClosesPools (run_prepared lib p)
    run_prepared-ClosesPools (output text) = λ s. inl (laws.writes text s)
    run_prepared-ClosesPools (runtime e) =
        chained (lib.load e.config_path) _ (laws.loads e.config_path) (λ c.
          chained (lib.initialize_observability c) _ (laws.observes c) (λ _. λ s.
            both-ClosesTo (shutdown lib) (pools s) (run_process lib e.process c s)
              shutdown-KeepsPools (run_process-ClosesPools e.process c s)))

    -- Whatever command line it is given and whatever fails on the way, a run leaves no pool of
    -- connections open that it opened, unless it panics or ends with the error of QueueModule::new
    -- on a pool that was opened and registered, and then at most one: when connect opens one
    -- exactly if it succeeds, closing an open one ends it, dropping a handle ends at most one, and
    -- nothing else opens or ends one.
    pub run-ClosesPools :
        (catalog : List ModuleDefinition) (cli : Cli) → ClosesPools (run lib catalog cli)
    unfolding run
    run-ClosesPools catalog cli = chained lib.print_banner _ laws.banner (λ _.
        chained (lift (map_err lib.unresolved (prepare catalog cli))) (run_prepared lib) (λ s. refl)
          run_prepared-ClosesPools)
