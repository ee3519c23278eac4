-- ===== src/Configuration.antt =====
-- src/configuration: what may be configured, its defaults, and how it is loaded. Reading files and
-- the environment is a parameter.
pub mod Schema
pub mod Defaults
pub mod Loading
pub mod Limits
mod Tests
