-- ===== src/BlockManagement.antt =====
-- src/stage/consensus/block_management: the stage that builds a node's own blocks and checks those
-- of its peers.
pub mod Bitcoin
pub mod Avalanche
