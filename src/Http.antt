-- ===== src/Http.antt =====
-- src/http: the middleware that measures and traces requests, around any service.
pub mod Request
pub mod Metrics
pub mod Tracing
pub mod Records
pub mod Measurements
mod Tests
