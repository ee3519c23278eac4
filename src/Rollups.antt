-- ===== src/Rollups.antt =====
-- migrations/20260727190617_create_queue_priority_state_rollups.sql and
-- src/modules/queue/infrastructure/state_collector.rs: the counts of messages by queue, priority and
-- state that triggers keep, and what the collector reads from them.
pub mod Shards
pub mod Trigger
pub mod Tallies
pub mod Having
pub mod Adjustment
pub mod Replacement
pub mod Firing
pub mod Backfill
pub mod Calls
pub mod Execution
pub mod Agreement
pub mod Histories
pub mod Collector
pub mod Ages
pub mod Reading
pub mod Metrics
pub mod Gauges
pub mod Refreshes
pub mod Leadership
mod Tests
