-- ===== src/Decide.antt =====
-- src/stage/consensus/decide: the stage that decides which blocks are committed, and in what order.
pub mod Bitcoin
pub mod Avalanche
