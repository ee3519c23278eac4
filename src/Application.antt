-- ===== src/Application.antt =====
-- src/modules/queue/application: the use cases, over any repository. The tracing spans are left out.
pub mod CreateQueue
pub mod UpdateQueue
pub mod EnqueueMessage
pub mod DequeueMessage
pub mod AcknowledgeMessage
pub mod Maintenance
pub mod World
pub mod Laws
pub mod Tests
