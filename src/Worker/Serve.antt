-- ===== src/Worker/Serve.antt =====
-- src/worker/mod.rs: `serve` runs the workers until a signal comes or one of them ends. What its
-- `select!` and the drain find is given as values; spans and logs are left out.
use retsu.Base.{Bool, Option, none, some, List, [], ◌∷◌, Text, Result, ok, err, try, if◌then◌else◌}

-- What the task set yields: a worker's end, with the error if it returned one, or the join error of a
-- task that panicked.
pub data Joined (E : Type 0) : Type 0 where
  worker_exit : (name : Text) (error : Option E) → Joined E
  join_error : Joined E

pub data ServeError (E : Type 0) : Type 0 where
  signal_failed : ServeError E
  task_set_empty : ServeError E
  worker_panicked : ServeError E
  worker_failed : (name : Text) → E → ServeError E
  exited_unexpectedly : (name : Text) → ServeError E
  failed_during_shutdown : (name : Text) → E → ServeError E
  panicked_during_shutdown : ServeError E

-- The first of the signal and a worker's end, and whether the drain ended in time.
pub data First (E : Type 0) : Type 0 where
  signal : (received : Bool) → First E
  joined : Option (Joined E) → First E

pub data Drain (E : Type 0) : Type 0 where
  drained : List (Joined E) → Drain E
  timed_out : Drain E

module _ {E : Type 0} where
  abbrev pub unexpected_worker_exit : Option (Joined E) → Result (ServeError E) (Unit {0})
  unexpected_worker_exit none = err task_set_empty
  unexpected_worker_exit (some join_error) = err worker_panicked
  unexpected_worker_exit (some (worker_exit name none)) = err (exited_unexpectedly name)
  unexpected_worker_exit (some (worker_exit name (some e))) = err (worker_failed name e)

  -- The error that a worker's end is during the shutdown.
  abbrev pub shutdown_error : Joined E → Option (ServeError E)
  shutdown_error (worker_exit name none) = none
  shutdown_error (worker_exit name (some e)) = some (failed_during_shutdown name e)
  shutdown_error join_error = some panicked_during_shutdown

  -- `first_error.get_or_insert(error)`
  abbrev pub get_or_insert : Option (ServeError E) → Option (ServeError E) → Option (ServeError E)
  get_or_insert (some first_error) later = some first_error
  get_or_insert none later = later

  unfoldable pub drain_from : Option (ServeError E) → List (Joined E) → Option (ServeError E)
  drain_from first_error [] = first_error
  drain_from first_error (j ∷ js) = drain_from (get_or_insert first_error (shutdown_error j)) js

  abbrev pub as_result : Option (ServeError E) → Result (ServeError E) (Unit {0})
  as_result none = ok tt
  as_result (some e) = err e

  unfoldable pub drain : List (Joined E) → Result (ServeError E) (Unit {0})
  unfolding drain_from
  drain js = as_result (drain_from none js)

  -- `crate::shutdown::signal()`, which may fail.
  abbrev pub signalled : Bool → Result (ServeError E) (Unit {0})
  signalled received = if received then ok tt else err signal_failed

  abbrev pub first_result : First E → Result (ServeError E) (Unit {0})
  first_result (signal received) = signalled received
  first_result (joined worker_result) = unexpected_worker_exit worker_result

  abbrev pub drain_result : Drain E → Result (ServeError E) (Unit {0})
  unfolding drain
  drain_result (drained js) = drain js
  drain_result timed_out = ok tt

  -- With workers; `result?` stands before `drain_result`.
  unfoldable pub serve_workers : First E → Drain E → Result (ServeError E) (Unit {0})
  unfolding drain
  serve_workers first shutdown = try (first_result first) λ _. drain_result shutdown

  -- Without workers it only waits for the signal.
  unfoldable pub serve :
      (registrations : List Text)
      → (received : Bool) → First E
      → Drain E
      → Result (ServeError E) (Unit {0})
  unfolding serve_workers
  serve [] received first shutdown = signalled received
  serve (name ∷ names) received first shutdown = serve_workers first shutdown
