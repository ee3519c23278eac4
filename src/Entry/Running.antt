-- ===== src/Entry/Running.antt =====
-- src/lib.rs, src/entrypoints, src/app/mod.rs, and `Observability::shutdown` of
-- src/observability/mod.rs: what a process opens and closes around its work. The standard streams, the
-- loading of the configuration, the pool with its handles and its gauge, the exporters and the servers
-- are parameters; logs and the fields of the process's span are left out.
use retsu.Base.{
  Option, none, some, List, Text, Result, ok, err, panicked, map_err, Action, ◌>>=◌, lift,
}
use retsu.Entry.Modules.{ModuleDefinition, WorkerResolutionError, ResolvedWorker}
use retsu.Entry.Dispatch.{
  Cli, RuntimeProcess, api_process, worker_process, migrate_process, RuntimeEntrypoint,
  PreparedEntrypoint, output, runtime, prepare,
}

-- The libraries, over the configuration `C`, a pool of connections, a queue module and the errors.
pub record Libraries (S E C Pool QueueModule : Type 0) : Type 0 where
  pub print_banner : Action S E (Unit {0})
  pub write_all : Text → Action S E (Unit {0})
  pub load : Option Text → Action S E C
  pub connect : C → Action S E Pool
  pub close : Pool → S → S
  -- The callback of the gauge keeps a handle of the pool.
  pub register_pool : C → Pool → S → S
  -- A handle of a pool goes out of scope.
  pub drop_pool : Pool → S → S
  pub migrate : Pool → Action S E (Unit {0})
  pub new_queue_module : C → Pool → Action S E QueueModule
  pub initialize_observability : C → Action S E (Unit {0})
  pub shutdown_metrics : Action S E (Unit {0})
  pub shutdown_traces : Option (Action S E (Unit {0}))
  pub serve_api : C → Pool → QueueModule → Action S E (Unit {0})
  pub serve_workers : C → ResolvedWorker → Pool → QueueModule → Action S E (Unit {0})
  pub unresolved : WorkerResolutionError → E

pub record ApplicationContext (Pool QueueModule : Type 0) : Type 0 where
  pub database_pool : Pool
  pub queue_module : QueueModule

-- `let result = call.await; cleanup.await; result`; a panic of the call unwinds past the cleanup, and
-- lets go of what is in scope.
abbrev pub then_always :
    {S E A : Type 0} → (cleanup let_go : S → S) → Result E A × S → Result E A × S
then_always cleanup let_go (ok a, s) = (ok a, cleanup s)
then_always cleanup let_go (err e, s) = (err e, cleanup s)
then_always cleanup let_go (panicked, s) = (panicked, let_go s)

-- `let first = …; let second = …; first?; second?`
abbrev pub after_error : {E A : Type 0} → E → Result E A → Result E A
after_error e (ok a) = err e
after_error e (err f) = err e
after_error e panicked = panicked

abbrev pub both : {S E A : Type 0} → Action S E A → Result E A × S → Result E A × S
both second (ok a, s) = second s
both second (err e, s) = let (r, s') = second s in (after_error e r, s')
both second (panicked, s) = (panicked, s)

module _ {S E C Pool QueueModule : Type 0} (lib : Libraries S E C Pool QueueModule) where
  -- A failure of `QueueModule::new` drops the handle of the pool.
  abbrev pub with_module :
      Pool → Result E QueueModule × S → Result E (ApplicationContext Pool QueueModule) × S
  with_module pool (ok m, s) = (ok (record { database_pool = pool; queue_module = m }), s)
  with_module pool (err e, s) = (err e, lib.drop_pool pool s)
  with_module pool (panicked, s) = (panicked, lib.drop_pool pool s)

  unfoldable pub initialize : C → Action S E (ApplicationContext Pool QueueModule)
  initialize configuration = lib.connect configuration >>= λ pool. λ s.
      with_module pool
        (lib.new_queue_module configuration pool (lib.register_pool configuration pool s))

  unfoldable pub run_api : C → Action S E (Unit {0})
  unfolding initialize
  run_api configuration = initialize configuration >>= λ context. λ s.
      then_always (lib.close context.database_pool) (lib.drop_pool context.database_pool)
        (lib.serve_api configuration context.database_pool context.queue_module s)

  unfoldable pub run_worker : C → ResolvedWorker → Action S E (Unit {0})
  unfolding initialize
  run_worker configuration registration = initialize configuration >>= λ context. λ s.
      then_always (lib.close context.database_pool) (lib.drop_pool context.database_pool)
        (lib.serve_workers configuration registration context.database_pool context.queue_module s)

  unfoldable pub run_migrate : C → Action S E (Unit {0})
  run_migrate configuration = lib.connect configuration >>= λ pool.
      λ s. then_always (lib.close pool) (lib.drop_pool pool) (lib.migrate pool s)

  -- `RuntimeEntrypoint::run`
  unfoldable pub run_process : RuntimeProcess → C → Action S E (Unit {0})
  unfolding run_api run_worker run_migrate
  run_process api_process configuration = run_api configuration
  run_process (worker_process w) configuration = run_worker configuration w
  run_process migrate_process configuration = run_migrate configuration

  abbrev pub traces_down : Option (Action S E (Unit {0})) → Action S E (Unit {0})
  traces_down none s = (ok tt, s)
  traces_down (some shutdown) s = shutdown s

  -- `Observability::shutdown`
  unfoldable pub shutdown : Action S E (Unit {0})
  shutdown s = both (traces_down lib.shutdown_traces) (lib.shutdown_metrics s)

  abbrev pub run_runtime : RuntimeEntrypoint → Action S E (Unit {0})
  run_runtime entrypoint = lib.load entrypoint.config_path >>= λ configuration.
      lib.initialize_observability configuration >>= λ _.
      λ s. both shutdown (run_process entrypoint.process configuration s)

  abbrev pub run_prepared : PreparedEntrypoint → Action S E (Unit {0})
  run_prepared (output text) = lib.write_all text
  run_prepared (runtime entrypoint) = run_runtime entrypoint

  -- `run`, on the command line that was parsed.
  unfoldable pub run : List ModuleDefinition → Cli → Action S E (Unit {0})
  unfolding run_process shutdown prepare
  run catalog cli =
      lib.print_banner >>= λ _. lift (map_err lib.unresolved (prepare catalog cli)) >>= run_prepared
