-- ===== src/TxnValidation.antt =====
-- src/stage/txn_validation: the stage that admits a client's transactions to a node's pool.
pub mod Pool
pub mod Rule
pub mod Growth
pub mod Waiting
pub mod Keyed
pub mod Kept
pub mod Lossless
pub mod Ledger
pub mod Bitcoin
pub mod Avalanche
pub mod Balance
pub mod Transfers
pub mod Soundness
pub mod Known
pub mod Totality
pub mod Clients
