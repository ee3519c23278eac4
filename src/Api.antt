-- ===== src/Api.antt =====
-- src/modules/queue/mod.rs, src/modules/queue/api and src/api: the queue module with its counters, the
-- HTTP handlers and the responses to errors; and src/http/request_id.rs.
pub mod Module
pub mod Errors
pub mod Requests
pub mod RequestId
pub mod Identified
pub mod Handlers
pub mod Counters
pub mod Statuses
mod Tests
