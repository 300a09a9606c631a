-- ===== src/ChainReplication/Batches.antt =====
-- src/stage/consensus/block_management/chain_replication.rs: ChainReplicationBlockManagement. The
-- size of a transaction (crate get-size) is a parameter.
use cbox.Base.{
  ℕ, ◌++◌, ◌+◌, ◌%◌, ◌^◌, List, [], ◌∷◌, Bool, true, false, Outcome, ok, panic, assert, unwrap,
  ◌>>=◌, ◌>>◌, ◌==◌, nat_eq, if◌then◌else◌, leb, length, take, drop, get_elem?, map, not,
}
use cbox.Protocol.{Hash, NodeId, Txn, TxnCtx, Block, BlkCtx, BlockHeader}
use cbox.ChainReplication.Decide.{succ_u256}

pub record State : Type 0 where
  pub id : NodeId
  pub mem_pool : List (Txn × TxnCtx)
  pub is_head : Bool
  pub block_size : ℕ
  pub next_blk_id : Hash
  pub curr_batch_len : ℕ
  pub curr_batch_size : ℕ

pub data CurBlockState : Type 0 where
  working : CurBlockState
  full : CurBlockState
  empty_mempool : CurBlockState

unfoldable pub new : NodeId → List NodeId → ℕ → Outcome State
new id order blk_size = do
  first ← unwrap (get_elem? order 0)
  ok (record {
    id = id;
    mem_pool = [];
    is_head = first == id;
    block_size = blk_size;
    next_blk_id = 1;
    curr_batch_len = 0;
    curr_batch_size = 0;
  })

unfoldable pub record_new_txn : State → Txn → TxnCtx → State × Bool
record_new_txn s txn ctx =
    if s.is_head then (record s { mem_pool = s.mem_pool ++ (txn, ctx) ∷ [] }, true) else (s, true)

module _ (size_of : Txn → ℕ) where
  -- The loop of `prepare_new_block`, on the transactions that are not in the batch yet.
  unfoldable pub fill : State → List (Txn × TxnCtx) → State × CurBlockState
  fill s [] = if leb s.block_size s.curr_batch_size then (s, full) else (s, empty_mempool)
  fill s ((next_txn, _) ∷ rest) =
      let rest' =
        fill
          (record s {
            curr_batch_len = s.curr_batch_len + 1;
            curr_batch_size = (s.curr_batch_size + size_of next_txn) % 2 ^ 64;
          })
          rest in
      if leb s.block_size s.curr_batch_size then (s, full) else rest'

  unfoldable pub prepare_new_block : State → State × CurBlockState
  prepare_new_block s = if s.is_head then fill s (drop s.curr_batch_len s.mem_pool) else (s, full)

-- The test that `wait_to_propose` waits for.
unfoldable pub may_propose : State → Bool
may_propose s = if s.is_head then leb s.block_size s.curr_batch_size else false

-- The block of these transactions, its context, and the state after it.
unfoldable pub batch_block : State → List (Txn × TxnCtx) → Block
batch_block s batch = record {
  header = BlockHeader.chain_replication s.next_blk_id;
  txns = map (λ e. e.0) batch;
}

unfoldable pub batch_ctx : State → List (Txn × TxnCtx) → BlkCtx
batch_ctx s batch = record { id = s.next_blk_id; txn_ctx = map (λ e. e.1) batch }

unfoldable pub proposed : State → Hash → State
proposed s next = record s {
  mem_pool = drop s.curr_batch_len s.mem_pool;
  curr_batch_len = 0;
  curr_batch_size = 0;
  next_blk_id = next;
}

unfoldable pub get_new_block : State → Outcome (State × (Block × BlkCtx))
get_new_block s = do
  assert s.is_head
  assert (leb s.curr_batch_len (length s.mem_pool))
  let batch = take s.curr_batch_len s.mem_pool
  next ← succ_u256 s.next_blk_id
  ok (proposed s next, (batch_block s batch, batch_ctx s batch))

unfoldable pub validate_block : State → Block → BlkCtx → Outcome (List (Block × BlkCtx))
validate_block s block ctx = do
  assert (not s.is_head)
  elim block.header [
    | BlockHeader.chain_replication blk_id ↦ ok ((block, ctx) ∷ [])
    | BlockHeader.dummy ↦ panic
    | BlockHeader.bitcoin proposer prev_hash merkle_root nonce ↦ panic
    | BlockHeader.avalanche proposer id depth ↦ panic
  ]
