-- ===== src/Entry/Dispatch.antt =====
-- src/entrypoints/dispatch.rs and the commands of src/cli.rs: what a command line prepares.
use retsu.Base.{Option, none, some, List, [], ◌∷◌, ◌++◌, Text, bytes, Result, ok, map_ok}
use retsu.Entry.Modules.{
  ModuleDefinition, WorkerResolutionError, ResolvedWorker, join, worker_module_names, worker_names,
  resolve_worker,
}

pub data WorkerCommand : Type 0 where
  list : (owner : Option Text) → WorkerCommand
  run : (owner name : Text) → WorkerCommand

pub data Command : Type 0 where
  api : Command
  worker : WorkerCommand → Command
  migrate : Command

pub record Cli : Type 0 where
  pub config : Option Text
  pub command : Command

pub data RuntimeProcess : Type 0 where
  api_process : RuntimeProcess
  worker_process : ResolvedWorker → RuntimeProcess
  migrate_process : RuntimeProcess

pub record RuntimeEntrypoint : Type 0 where
  pub config_path : Option Text
  pub process : RuntimeProcess

pub data PreparedEntrypoint : Type 0 where
  output : Text → PreparedEntrypoint
  runtime : RuntimeEntrypoint → PreparedEntrypoint

abbrev pub mode_of : RuntimeProcess → Text
mode_of api_process = bytes "api"
mode_of (worker_process w) = bytes "worker"
mode_of migrate_process = bytes "migrate"

abbrev pub process_mode : RuntimeEntrypoint → Text
process_mode e = mode_of e.process

abbrev pub selection_of : RuntimeProcess → Option (Text × Text)
selection_of api_process = none
selection_of (worker_process w) = some (w.module_name, w.worker_name)
selection_of migrate_process = none

abbrev pub worker_selection : RuntimeEntrypoint → Option (Text × Text)
worker_selection e = selection_of e.process

-- `if !output.is_empty() { output.push('\n'); }`
abbrev pub ended_line : Text → Text
ended_line [] = []
ended_line (b ∷ bs) = (b ∷ bs) ++ bytes "\n"

-- The names, one in a line.
abbrev pub lines : List Text → Text
lines names = ended_line (join (bytes "\n") names)

module _ (catalog : List ModuleDefinition) where
  abbrev pub listed_names : Option Text → Result WorkerResolutionError (List Text)
  listed_names none = ok (worker_module_names catalog)
  listed_names (some owner) = worker_names catalog owner

  abbrev pub worker_list_output : Option Text → Result WorkerResolutionError Text
  worker_list_output owner = map_ok lines (listed_names owner)

  abbrev pub prepared : Option Text → RuntimeProcess → PreparedEntrypoint
  prepared config process = runtime (record { config_path = config; process = process })

  abbrev pub prepare_command :
      Option Text → Command → Result WorkerResolutionError PreparedEntrypoint
  prepare_command config api = ok (prepared config api_process)
  prepare_command config migrate = ok (prepared config migrate_process)
  prepare_command config (worker (list owner)) = map_ok output (worker_list_output owner)
  prepare_command config (worker (run owner name)) =
      map_ok (λ w. prepared config (worker_process w)) (resolve_worker catalog owner name)

  unfoldable pub prepare : Cli → Result WorkerResolutionError PreparedEntrypoint
  unfolding worker_names resolve_worker
  prepare cli = prepare_command cli.config cli.command
