-- ===== src/Examples.antt =====
-- The theorems at concrete inputs, and runs of the code.
pub mod Validation
pub mod Decisions
pub mod Ledgers
pub mod Replicas
pub mod Queues
pub mod Votes
pub mod Conflicts
pub mod Batches
pub mod Pools
