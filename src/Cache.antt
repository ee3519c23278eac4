-- ===== src/Cache.antt =====
-- src/cache, and the two caches of src/modules/queue/infrastructure: the Redis one of queue details
-- (l2.rs) and the in-process one of queue names (l1.rs), each over any repository.
pub mod Redis
pub mod Shared
pub mod Keys
pub mod Coherence
pub mod Waiting
pub mod Origins
pub mod Memory
pub mod Local
pub mod Weights
pub mod Names
mod Tests
