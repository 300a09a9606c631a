-- ===== src/ChainReplication.antt =====
-- Chain replication: the nodes stand in a fixed order, the head makes the blocks, each node passes
-- them on to the next, and the tail tells the head which it has.
pub mod Decide
pub mod Linear
pub mod Batches
pub mod Order
pub mod Sizes
pub mod Replication
