-- ===== src/Configuration/Loading.antt =====
-- src/configuration/mod.rs: `load`. What the `config` crate builds from a file and the environment,
-- and makes of it, is a parameter.
use retsu.Base.{
  Bool, true, false, Option, none, some, Text, bytes, Result, ok, err, try, if◌then◌else◌,
}
use retsu.Configuration.Schema.{AppConfiguration, validate_app_configuration}

pub data ConfigurationError : Type 0 where
  load_failed : (source : Text) → ConfigurationError
  validation_failed : ConfigurationError

abbrev pub default_config_path : Text
default_config_path = bytes "config/retsu.yaml"

-- The file, and whether it must be there.
pub record FileSource : Type 0 where
  pub path : Text
  pub required : Bool

abbrev pub file_source : Option Text → FileSource
file_source (some path) = record { path = path; required = true }
file_source none = record { path = default_config_path; required = false }

abbrev pub checked :
    (is_url : Text → Bool) → AppConfiguration → Result ConfigurationError AppConfiguration
checked is_url c = if validate_app_configuration is_url c then ok c else err validation_failed

unfoldable pub load :
    (is_url : Text → Bool)
    → (build_and_deserialize : FileSource → Result ConfigurationError AppConfiguration)
    → Option Text
    → Result ConfigurationError AppConfiguration
load is_url build_and_deserialize config_path =
    try (build_and_deserialize (file_source config_path)) (checked is_url)
