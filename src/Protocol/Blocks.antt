-- ===== src/Protocol/Blocks.antt =====
-- src/protocol/block.rs and src/context.rs: headers, blocks, and the ids that travel with them.
use cbox.Base.{ℕ, ◌+◌, ◌*◌, ◌^◌, ◌<◌, ◌≡◌, arith, Bool, true, List, Outcome, ok, panic}
use cbox.Protocol.Types.{Hash, NodeId}
use cbox.Protocol.Transactions.{Txn}

pub data BlockHeader : Type 0 where
  dummy : BlockHeader
  bitcoin : (proposer : NodeId) (prev_hash merkle_root : Hash) (nonce : ℕ) → BlockHeader
  avalanche : (proposer : NodeId) (id depth : ℕ) → BlockHeader
  chain_replication : (blk_id : Hash) → BlockHeader

pub record Block : Type 0 where
  pub header : BlockHeader
  pub txns : List Txn

pub record TxnCtx : Type 0 where
  pub id : Hash

pub record BlkCtx : Type 0 where
  pub id : Hash
  pub txn_ctx : List TxnCtx

-- The fields of a Bitcoin header that are read; another header is `unreachable!`.
unfoldable pub prev_hash_of : BlockHeader → Outcome Hash
prev_hash_of (BlockHeader.bitcoin _ prev_hash _ _) = ok prev_hash
prev_hash_of BlockHeader.dummy = panic
prev_hash_of (BlockHeader.avalanche _ _ _) = panic
prev_hash_of (BlockHeader.chain_replication _) = panic

unfoldable pub proposer_of : BlockHeader → Outcome NodeId
proposer_of (BlockHeader.bitcoin proposer _ _ _) = ok proposer
proposer_of BlockHeader.dummy = panic
proposer_of (BlockHeader.avalanche _ _ _) = panic
proposer_of (BlockHeader.chain_replication _) = panic

unfoldable pub nonce_of : BlockHeader → Outcome ℕ
nonce_of (BlockHeader.bitcoin _ _ _ nonce) = ok nonce
nonce_of BlockHeader.dummy = panic
nonce_of (BlockHeader.avalanche _ _ _) = panic
nonce_of (BlockHeader.chain_replication _) = panic

unfoldable pub merkle_root_of : BlockHeader → Outcome Hash
merkle_root_of (BlockHeader.bitcoin _ _ merkle_root _) = ok merkle_root
merkle_root_of BlockHeader.dummy = panic
merkle_root_of (BlockHeader.avalanche _ _ _) = panic
merkle_root_of (BlockHeader.chain_replication _) = panic

-- src/protocol/crypto/mod.rs, DummyMerkleTree::verify: every root passes. (The time that it is to
-- take is left out.)
unfoldable pub merkle_verify : Hash → ℕ → Bool
merkle_verify root num_elem = true

-- `compute_id` of an Avalanche header: the limbs of a `U256`, of 64 bits each, the lowest first.
unfoldable pub avalanche_id : NodeId → ℕ → ℕ → Hash
avalanche_id proposer id depth = 2 ^ 64 * (depth + 2 ^ 64 * (proposer + 2 ^ 64 * id))

limb : (a y b z : ℕ) → a < 2 ^ 64 → b < 2 ^ 64 → a + 2 ^ 64 * y ≡ b + 2 ^ 64 * z → (a ≡ b) × (y ≡ z)
limb a y b z small small' h = (omega arith, omega arith)

-- Headers whose proposers, ids and depths fit into 64 bits have different ids if they differ.
pub avalanche_id-injective :
    (proposer id depth proposer' id' depth' : ℕ)
    → proposer < 2 ^ 64
    → depth < 2 ^ 64
    → proposer' < 2 ^ 64
    → depth' < 2 ^ 64
    → avalanche_id proposer id depth ≡ avalanche_id proposer' id' depth'
    → (proposer ≡ proposer') × (id ≡ id') × (depth ≡ depth')
unfolding avalanche_id
avalanche_id-injective proposer id depth proposer' id' depth' p d p' d' h =
    let (depths, rest) =
      limb depth (proposer + 2 ^ 64 * id) depth' (proposer' + 2 ^ 64 * id') d d'
        (omega (arith, h)) in
    let (proposers, ids) = limb proposer id proposer' id' p p' rest in (proposers, ids, depths)
