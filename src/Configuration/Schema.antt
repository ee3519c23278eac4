-- ===== src/Configuration/Schema.antt =====
-- src/configuration/schema.rs: the configuration and the ranges that `validate` checks. Whether a text
-- is a URL is the `validator` crate's question, a parameter.
use retsu.Base.{ℕ, ◌*◌, Bool, ◌&&◌, Text, List, length, leb, in_range}

pub data IpAddr : Type 0 where
  v4 : (a b c d : ℕ) → IpAddr
  v6 : (segments : List ℕ) → IpAddr

pub data Environment : Type 0 where
  local test staging production : Environment

pub data LogFormat : Type 0 where
  pretty json : LogFormat

pub record HttpConfig : Type 0 where
  pub bind_address : IpAddr
  pub port : ℕ

pub record LoggingConfig : Type 0 where
  pub filter : Text
  pub format : LogFormat

pub record MetricsConfig : Type 0 where
  pub max_queues : ℕ

pub record TraceExportConfig : Type 0 where
  pub enabled : Bool
  pub filter : Text
  pub endpoint : Text
  pub timeout_seconds : ℕ

pub record TelemetryConfig : Type 0 where
  pub metrics : MetricsConfig
  pub traces : TraceExportConfig

pub record CachePolicyConfig : Type 0 where
  pub max_entries : ℕ
  pub max_capacity_bytes : ℕ

pub record InMemoryCacheRegionsConfig : Type 0 where
  pub queue_names : CachePolicyConfig

pub record InMemoryCacheConfig : Type 0 where
  pub enabled : Bool
  pub regions : InMemoryCacheRegionsConfig

pub record DistributedCacheConfig : Type 0 where
  pub enabled : Bool
  pub url : Text
  pub connection_timeout_milliseconds : ℕ
  pub command_timeout_milliseconds : ℕ

pub record CacheConfig : Type 0 where
  pub in_memory : InMemoryCacheConfig
  pub distributed : DistributedCacheConfig

pub record DatabaseConfig : Type 0 where
  pub url : Text
  pub max_connections : ℕ
  pub acquire_timeout_seconds : ℕ

pub record WorkerManagementConfig : Type 0 where
  pub bind_address : IpAddr
  pub port : ℕ

pub record DeadLetterMessageCleanerConfig : Type 0 where
  pub retention_seconds : ℕ
  pub processing_interval_seconds : ℕ
  pub batch_size : ℕ
  pub saturated_batch_delay_milliseconds : ℕ

pub record ExpiredMessageCleanerConfig : Type 0 where
  pub processing_interval_seconds : ℕ
  pub batch_size : ℕ
  pub saturated_batch_delay_milliseconds : ℕ

pub record StateMetricsCollectorConfig : Type 0 where
  pub collection_interval_seconds : ℕ
  pub leadership_retry_interval_seconds : ℕ

pub record QueueWorkerConfig : Type 0 where
  pub dead_letter_message_cleaner : DeadLetterMessageCleanerConfig
  pub expired_message_cleaner : ExpiredMessageCleanerConfig
  pub state_metrics_collector : StateMetricsCollectorConfig

pub record WorkerConfig : Type 0 where
  pub shutdown_timeout_seconds : ℕ
  pub management : WorkerManagementConfig
  pub queue : QueueWorkerConfig

pub record AppConfiguration : Type 0 where
  pub environment : Environment
  pub http : HttpConfig
  pub logging : LoggingConfig
  pub telemetry : TelemetryConfig
  pub cache : CacheConfig
  pub database : DatabaseConfig
  pub worker : WorkerConfig

abbrev pub validate_http_config : HttpConfig → Bool
validate_http_config c = leb 1 c.port

abbrev pub validate_logging_config : LoggingConfig → Bool
validate_logging_config c = leb 1 (length c.filter)

abbrev pub validate_metrics_config : MetricsConfig → Bool
validate_metrics_config c = in_range 1 100_000 c.max_queues

abbrev pub validate_cache_policy_config : CachePolicyConfig → Bool
validate_cache_policy_config c =
    in_range 1 1_000_000 c.max_entries && (in_range 1 4_294_967_295 c.max_capacity_bytes)

abbrev pub validate_in_memory_cache_regions_config : InMemoryCacheRegionsConfig → Bool
validate_in_memory_cache_regions_config c = validate_cache_policy_config c.queue_names

abbrev pub validate_in_memory_cache_config : InMemoryCacheConfig → Bool
validate_in_memory_cache_config c = validate_in_memory_cache_regions_config c.regions

abbrev pub validate_worker_management_config : WorkerManagementConfig → Bool
validate_worker_management_config c = leb 1 c.port

abbrev pub validate_dead_letter_message_cleaner_config : DeadLetterMessageCleanerConfig → Bool
validate_dead_letter_message_cleaner_config c =
    in_range 3_600 31_536_000 c.retention_seconds
    && (in_range 5 3_600 c.processing_interval_seconds
        && (in_range 1 10_000 c.batch_size
            && (in_range 1 5_000 c.saturated_batch_delay_milliseconds)))

abbrev pub validate_expired_message_cleaner_config : ExpiredMessageCleanerConfig → Bool
validate_expired_message_cleaner_config c =
    in_range 5 3_600 c.processing_interval_seconds
    && (in_range 1 10_000 c.batch_size && (in_range 1 5_000 c.saturated_batch_delay_milliseconds))

abbrev pub validate_state_metrics_collector_config : StateMetricsCollectorConfig → Bool
validate_state_metrics_collector_config c =
    in_range 5 3_600 c.collection_interval_seconds
    && (in_range 5 300 c.leadership_retry_interval_seconds)

abbrev pub validate_queue_worker_config : QueueWorkerConfig → Bool
validate_queue_worker_config c =
    validate_dead_letter_message_cleaner_config c.dead_letter_message_cleaner
    && (validate_expired_message_cleaner_config c.expired_message_cleaner
        && (validate_state_metrics_collector_config c.state_metrics_collector))

abbrev pub validate_worker_config : WorkerConfig → Bool
validate_worker_config c =
    in_range 1 300 c.shutdown_timeout_seconds
    && (validate_worker_management_config c.management && (validate_queue_worker_config c.queue))

module _ (is_url : Text → Bool) where
  abbrev pub validate_trace_export_config : TraceExportConfig → Bool
  validate_trace_export_config c =
      leb 1 (length c.filter) && (is_url c.endpoint && (in_range 1 60 c.timeout_seconds))

  abbrev pub validate_telemetry_config : TelemetryConfig → Bool
  validate_telemetry_config c =
      validate_metrics_config c.metrics && (validate_trace_export_config c.traces)

  abbrev pub validate_distributed_cache_config : DistributedCacheConfig → Bool
  validate_distributed_cache_config c =
      is_url c.url
      && (in_range 1 10_000 c.connection_timeout_milliseconds
          && (in_range 1 10_000 c.command_timeout_milliseconds))

  abbrev pub validate_cache_config : CacheConfig → Bool
  validate_cache_config c =
      validate_in_memory_cache_config c.in_memory
      && (validate_distributed_cache_config c.distributed)

  abbrev pub validate_database_config : DatabaseConfig → Bool
  validate_database_config c =
      is_url c.url && (leb 1 c.max_connections && (in_range 5 60 c.acquire_timeout_seconds))

  abbrev pub validate_app_configuration : AppConfiguration → Bool
  validate_app_configuration c =
      validate_http_config c.http
      && (validate_logging_config c.logging
          && (validate_telemetry_config c.telemetry
              && (validate_cache_config c.cache
                  && (validate_database_config c.database && (validate_worker_config c.worker)))))

-- Durations are in milliseconds.
abbrev pub from_secs : ℕ → ℕ
from_secs seconds = seconds * 1_000

-- `WorkerConfig::shutdown_timeout`
abbrev pub shutdown_timeout : WorkerConfig → ℕ
shutdown_timeout c = from_secs c.shutdown_timeout_seconds
