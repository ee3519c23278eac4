-- ===== src/Domain.antt =====
-- src/modules/queue/domain: messages, queues, and the validation of what a client asks for.
pub mod Message
pub mod Queue
mod Tests
