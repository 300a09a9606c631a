-- ===== src/BlockManagement/Bitcoin.antt =====
-- src/stage/consensus/block_management/bitcoin/basic.rs: BitcoinBlockManagement. Its state, and the
-- parts that its handlers share.
pub mod Utxo
pub mod Validate
pub mod Ledger
pub mod Refines
pub mod Payments
pub mod Undoing
pub mod Replays
pub mod Reorg
pub mod Propose
pub mod Building
pub mod Sealing
pub mod Accepting
pub mod Filling
pub mod Livelock
use cbox.Base.{
  ℕ, ◌+◌, ◌%◌, ◌^◌, List, [], ◌∷◌, Option, none, some, Bool, true, false, Outcome, ok, panic,
  unwrap, ◌>>=◌, ◌==◌, nat_eq, list_eq, if◌then◌else◌,
}
use cbox.Base.HashMap.{HashMap, get}
use cbox.Base.HashSet.{HashSet}
use cbox.Protocol.{Hash, NodeId, PubKey, Txn, TxnCtx, BitcoinTxn, Block, BlkCtx, as_bitcoin}

-- An output of a transaction, with the key that may spend it.
abbrev pub Utxo : Type 0
Utxo = Hash × PubKey

abbrev pub TxnPool : Type 0
TxnPool = HashMap Hash (Txn × TxnCtx)

-- A block with its height, which is 0 while an ancestor is missing.
abbrev pub BlockPool : Type 0
BlockPool = HashMap Hash (Block × BlkCtx × ℕ)

-- An `Instant` is a number of nanoseconds, and an `f64` its bits.
pub record State : Type 0 where
  pub id : NodeId
  pub txn_pool : TxnPool
  pub block_pool : BlockPool
  pub utxo : HashSet Utxo
  pub chain_tail : Hash
  pub difficulty : ℕ
  pub pending_txns : List Hash
  pub block_under_construction : List Hash
  pub merkle_root : Option Hash
  pub block_size : ℕ
  pub new_utxo : HashSet Utxo
  pub utxo_spent : HashSet Utxo
  pub pow_time : Option (ℕ × ℕ)
  pub orphan_blocks : HashMap Hash (HashSet Hash)

unfoldable pub new : NodeId → ℕ → State
new id difficulty = record {
  id = id;
  txn_pool = [];
  block_pool = [];
  utxo = [];
  chain_tail = 0;
  difficulty = difficulty;
  pending_txns = [];
  block_under_construction = [];
  merkle_root = none;
  block_size = 0;
  new_utxo = [];
  utxo_spent = [];
  pow_time = none;
  orphan_blocks = [];
}

unfoldable pub get_chain_length : State → Outcome ℕ
get_chain_length s = if s.chain_tail == 0 then ok 0 else (do
  (_, _, chain_tail_height) ← unwrap (get s.chain_tail s.block_pool)
  ok chain_tail_height)

abbrev pub u64 : ℕ
u64 = 2 ^ 64

-- The value of an input to the sender, or none if it is not the sender's.
unfoldable pub value_to : PubKey → BitcoinTxn → Option ℕ
value_to txn_sender (BitcoinTxn.incentive out_utxo receiver) =
    if receiver == txn_sender then some out_utxo else none
value_to txn_sender (BitcoinTxn.grant out_utxo receiver) =
    if receiver == txn_sender then some out_utxo else none
value_to txn_sender (BitcoinTxn.send sender _ receiver out_utxo remainder _ _ _ _) =
    if receiver == txn_sender
    then some out_utxo
    else (if sender == txn_sender then some remainder else none)

-- The loop over the inputs: none where the code returns false.
unfoldable pub input_value : TxnPool → PubKey → List Hash → ℕ → Outcome (Option ℕ)
input_value pool txn_sender [] total = ok (some total)
input_value pool txn_sender (h ∷ hs) total = elim (get h pool) [
  | none ↦ ok none
  | some (txn, _) ↦ do
    utxo ← unwrap (as_bitcoin txn)
    elim (value_to txn_sender utxo) [
      | none ↦ ok none
      | some value ↦ input_value pool txn_sender hs ((total + value) % u64)
    ]
]

abbrev pub is_balanced : Option ℕ → ℕ → ℕ → Bool
is_balanced none out_utxo remainder = false
is_balanced (some total) out_utxo remainder = total == (out_utxo + remainder) % u64

unfoldable pub validate_txn : TxnPool → BitcoinTxn → Outcome Bool
validate_txn pool (BitcoinTxn.send sender in_utxo _ out_utxo remainder _ _ _ _) = do
  total ← input_value pool sender in_utxo 0
  ok (is_balanced total out_utxo remainder)
validate_txn pool (BitcoinTxn.grant _ _) = ok true
validate_txn pool (BitcoinTxn.incentive _ _) = panic
