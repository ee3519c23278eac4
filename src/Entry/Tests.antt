-- ===== src/Entry/Tests.antt =====
-- The workers of the catalog of the code.
use retsu.Base.{
  ℕ, ◌+◌, ◌-◌, ◌≤◌, arith, ◌≡◌, ◌↔◌, refl, true, none, some, List, [], ◌∷◌, Text, bytes, has_name,
  ok, err,
}
use retsu.Entry.Modules.{module_catalog, ResolvedWorker, worker_names}
use retsu.Entry.Dispatch.{
  Cli, api, migrate, worker, run, worker_process, prepared, prepare, list, output,
}
use retsu.Entry.Running.{Libraries, run_process, run_migrate, shutdown}
use retsu.Entry.Running
use retsu.Entry.Closing.{PoolLaws, ClosesTo, run-ClosesPools}
use retsu.Entry.Resolution.{prepare-Runs_iff}

lists :
    prepare module_catalog
      (record { config = none; command = worker (list (some (bytes "queue"))) })
    ≡ ok (
        output
          (bytes "dead-letter-message-cleaner\nexpired-message-cleaner\nstate-metrics-collector\n"))
unfolding prepare worker_names retsu.Entry.Modules.worker_module_definition retsu.Base.same
lists = refl

prepare-Runs_iff_example :
    ((names : List Text) × (worker_names module_catalog (bytes "queue") ≡ ok names)
      × (has_name names (bytes "expired-message-cleaner") ≡ true))
    ↔ ((w : ResolvedWorker) × (prepare module_catalog (record {
      config = none;
      command = worker (run (bytes "queue") (bytes "expired-message-cleaner"));
    })
          ≡ ok (prepared module_catalog none (worker_process w)))
        × (w.module_name ≡ bytes "queue")
        × (w.worker_name ≡ bytes "expired-message-cleaner"))
prepare-Runs_iff_example =
    prepare-Runs_iff module_catalog none (bytes "queue") (bytes "expired-message-cleaner")

-- Libraries whose state is the number of open pools, and whose migrations fail.
abbrev libraries : Libraries ℕ Text Text (Unit {0}) (Unit {0})
libraries = record {
  print_banner = λ s. (ok tt, s);
  write_all = λ text. λ s. (ok tt, s);
  load = λ path. λ s. (ok (bytes "configuration"), s);
  connect = λ c. λ s. (ok tt, s + 1);
  close = λ pool. λ s. s - 1;
  register_pool = λ c pool. λ s. s;
  drop_pool = λ pool. λ s. s;
  migrate = λ pool. λ s. (err (bytes "migration failed"), s);
  new_queue_module = λ c pool. λ s. (ok tt, s);
  initialize_observability = λ c. λ s. (ok tt, s);
  shutdown_metrics = λ s. (err (bytes "exporter failed"), s);
  shutdown_traces = none;
  serve_api = λ c pool m. λ s. (ok tt, s);
  serve_workers = λ c w pool m. λ s. (ok tt, s);
  unresolved = λ e. bytes "no such worker";
}

pool_laws : PoolLaws libraries (λ n. n)
pool_laws = record {
  connects = λ c s. refl;
  closes = λ pool s h. omega (arith, h);
  drops = λ pool s. (omega arith, omega arith);
  registers = λ c pool s. refl;
  banner = λ s. refl;
  writes = λ text s. refl;
  loads = λ path s. refl;
  migrates = λ pool s. refl;
  makes = λ c pool s. refl;
  observes = λ c s. refl;
  shuts_metrics = λ s. refl;
  shuts_traces = λ s. refl;
  serves_api = λ c pool m s. refl;
  serves_workers = λ c w pool m s. refl;
}

abbrev migration : Cli
migration = record { config = none; command = migrate }

-- The error of the migration is the one that is returned.
migration_fails :
    (Running.run libraries module_catalog migration 0).0 ≡ err (bytes "migration failed")
unfolding Running.run prepare run_process run_migrate shutdown
migration_fails = refl

run-ClosesPools_example :
    ClosesTo libraries (λ n. n) 0 (Running.run libraries module_catalog migration 0)
run-ClosesPools_example = run-ClosesPools libraries (λ n. n) pool_laws module_catalog migration 0

abbrev without_module : Libraries ℕ Text Text (Unit {0}) (Unit {0})
without_module = record libraries {
  new_queue_module = λ c pool. λ s. (err (bytes "invalid cache"), s);
}

-- The pool whose queue module cannot be built stays open with the callback of its gauge.
module_fails :
    Running.run without_module module_catalog (record { config = none; command = api }) 0
    ≡ (err (bytes "invalid cache"), 1)
unfolding Running.run prepare run_process Running.run_api Running.initialize shutdown
module_fails = refl
