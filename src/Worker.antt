-- ===== src/Worker.antt =====
-- src/worker and src/modules/queue/worker: the background workers and what runs them.
pub mod Cleaner
pub mod Collector
pub mod Serve
pub mod Loops
pub mod Leadership
pub mod Exits
mod Tests
