-- ===== src/Entry/Modules.antt =====
-- src/modules/mod.rs and definition.rs: the catalog of modules and workers, and the resolution of
-- names. The functions take the catalog, which the code keeps in a constant.
use retsu.Base.{
  Bool, true, false, not, ◌&&◌, Option, List, [], ◌∷◌, ◌++◌, map, Text, bytes, same, find, keep_if,
  Result, ok, try, map_ok, ok_or,
}
use retsu.Configuration.Schema.{
  WorkerConfig, DeadLetterMessageCleanerConfig, ExpiredMessageCleanerConfig,
  StateMetricsCollectorConfig,
}
use retsu.Worker.Cleaner.{dead_letter_message_cleaner_name, expired_message_cleaner_name}
use retsu.Worker.Collector.{state_metrics_collector_name}

-- `WorkerRegistration`, by the loop that it runs and the configuration that the loop has.
pub data WorkerRegistration : Type 0 where
  dead_letter_message_cleaner : DeadLetterMessageCleanerConfig → WorkerRegistration
  expired_message_cleaner : ExpiredMessageCleanerConfig → WorkerRegistration
  state_metrics_collector : StateMetricsCollectorConfig → WorkerRegistration

pub record WorkerDefinition : Type 0 where
  pub name : Text
  pub registration_factory : WorkerConfig → WorkerRegistration

pub record ModuleDefinition : Type 0 where
  pub name : Text
  pub workers : List WorkerDefinition

-- `ModuleDefinition::worker`
abbrev pub worker : ModuleDefinition → Text → Option WorkerDefinition
worker m name = find (λ w. same w.name name) m.workers

abbrev pub workers : List WorkerDefinition
workers =
    (record {
      name = dead_letter_message_cleaner_name;
      registration_factory = λ c. dead_letter_message_cleaner c.queue.dead_letter_message_cleaner;
    })
    ∷ (record {
      name = expired_message_cleaner_name;
      registration_factory = λ c. expired_message_cleaner c.queue.expired_message_cleaner;
    })
    ∷ (record {
      name = state_metrics_collector_name;
      registration_factory = λ c. state_metrics_collector c.queue.state_metrics_collector;
    })
    ∷ []

abbrev pub module_catalog : List ModuleDefinition
module_catalog = (record { name = bytes "queue"; workers = workers }) ∷ []

pub data WorkerResolutionError : Type 0 where
  unknown_module : (name available : Text) → WorkerResolutionError
  unknown_worker : (owner name available : Text) → WorkerResolutionError

-- `names.join(separator)`
abbrev pub join : Text → List Text → Text
join separator [] = []
join separator (name ∷ []) = name
join separator (name ∷ other ∷ names) = name ++ (separator ++ join separator (other ∷ names))

abbrev pub display_names : List Text → Text
display_names [] = bytes "<none>"
display_names (name ∷ names) = join (bytes ", ") (name ∷ names)

abbrev pub is_empty : {A : Type 0} → List A → Bool
is_empty [] = true
is_empty (x ∷ xs) = false

abbrev pub names_of : List WorkerDefinition → List Text
names_of = map λ w. w.name

abbrev pub worker_module_names : List ModuleDefinition → List Text
worker_module_names catalog = map (λ m. m.name) (keep_if (λ m. not (is_empty m.workers)) catalog)

abbrev pub is_worker_module : Text → ModuleDefinition → Bool
is_worker_module name m = same m.name name && not (is_empty m.workers)

unfoldable pub worker_module_definition :
    List ModuleDefinition → Text → Result WorkerResolutionError ModuleDefinition
worker_module_definition catalog name =
    ok_or (find (is_worker_module name) catalog)
      (unknown_module name (display_names (worker_module_names catalog)))

unfoldable pub worker_names :
    List ModuleDefinition → Text → Result WorkerResolutionError (List Text)
unfolding worker_module_definition
worker_names catalog name = map_ok (λ m. names_of m.workers) (worker_module_definition catalog name)

pub record ResolvedWorker : Type 0 where
  pub module_name : Text
  pub worker_name : Text
  pub definition : WorkerDefinition

unfoldable pub resolve_worker :
    List ModuleDefinition → (owner name : Text) → Result WorkerResolutionError ResolvedWorker
unfolding worker_module_definition
resolve_worker catalog owner name = try (worker_module_definition catalog owner) λ m.
    try (ok_or (worker m name) (unknown_worker owner name (display_names (names_of m.workers))))
      λ w. ok (record { module_name = m.name; worker_name = w.name; definition = w })
