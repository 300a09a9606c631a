-- ===== src/BlockManagement/Avalanche.antt =====
-- src/stage/consensus/block_management/avalanche/basic.rs: AvalancheBlockManagement, which batches the
-- transactions of a node, parents first, and checks the batches of its peers. The counters for reports,
-- the logs and the waiting on `_notify` are left out.
pub mod Funds
pub mod Propose
pub mod Validate
pub mod Filling
pub mod Emits
pub mod Masks
pub mod Shown
pub mod Fits
pub mod VoteNo
pub mod Once
use cbox.Base.{ℕ, ◌+◌, ◌*◌, ◌^◌, List, [], Option, none, some, Bool, true, false}
use cbox.Base.HashMap.{HashMap}
use cbox.Base.HashSet.{HashSet}
use cbox.Protocol.{Hash, NodeId, Txn, TxnCtx, Block, BlkCtx, BlockHeader}

pub record DagNode : Type 0 where
  pub num_parents : ℕ
  pub children : HashSet Hash

pub record PeerReq : Type 0 where
  pub proposer : NodeId
  pub blk_id : ℕ
  pub depth : ℕ
  pub dep_set : List Hash

-- The transactions of a batch, their ids, and the indices of those to be checked again.
abbrev pub PendingBlk : Type 0
PendingBlk = List Txn × (List TxnCtx × List ℕ)

abbrev pub TxnPool : Type 0
TxnPool = HashMap Hash (Txn × TxnCtx)

abbrev pub TxnDag : Type 0
TxnDag = HashMap Hash DagNode

abbrev pub PendingBlks : Type 0
PendingBlks = HashMap (NodeId × (ℕ × ℕ)) PendingBlk

pub record State : Type 0 where
  pub id : NodeId
  pub blk_len : ℕ
  pub txn_pool : TxnPool
  pub txn_dag : TxnDag
  pub dag_frontier : List Hash
  pub blk_counter : ℕ
  pub curr_batch : List Hash
  pub next_propose_time : ℕ
  pub proposal_timeout : ℕ
  pub pending_blks : PendingBlks
  pub blk_quota : ℕ

unfoldable pub new : NodeId → ℕ → ℕ → ℕ → State
new id blk_len proposal_timeout now = record {
  id = id;
  blk_len = blk_len;
  txn_pool = [];
  txn_dag = [];
  dag_frontier = [];
  blk_counter = 0;
  curr_batch = [];
  next_propose_time = now + proposal_timeout;
  proposal_timeout = proposal_timeout;
  pending_blks = [];
  blk_quota = 0;
}

pub data CurBlockState : Type 0 where
  working : CurBlockState
  full : CurBlockState
  empty_mempool : CurBlockState
