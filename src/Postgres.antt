-- ===== src/Postgres.antt =====
-- src/modules/queue/infrastructure/postgres.rs: the repository over PostgreSQL. Its statements are
-- functions on the tables; the Rust code around each statement is modelled as it stands.
pub mod Tables
pub mod Queues
pub mod Messages
pub mod Dequeue
pub mod Cleanup
pub mod Calls
pub mod Invariant
pub mod Leases
pub mod Acknowledgement
pub mod DeadLetters
pub mod Receipts
pub mod Maintenance
pub mod Configuration
pub mod Tests
pub mod Persistence
pub mod Servable
pub mod Progress
