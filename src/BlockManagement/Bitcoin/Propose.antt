-- ===== src/BlockManagement/Bitcoin/Propose.antt =====
-- The building of a block by the node itself: `record_new_txn`, `prepare_new_block`, `get_new_block`
-- and the two message handlers. The size of a transaction (crate get-size) and the id of a header
-- (a sha256) are parameters; the random Merkle root and the time of the proof of work are arguments.
-- The loop of `prepare_new_block` runs on fuel.
use cbox.Base.{
  ℕ, zero, suc, ◌+◌, ◌%◌, List, [], ◌∷◌, ◌++◌, none, some, Bool, true, false, not, ◌&&◌, ◌||◌,
  Outcome, ok, err, panic, stuck, unwrap, ◌>>=◌, nat_eq, list_eq, pair_eq, if◌then◌else◌, ltb,
  CopycatError, map,
}
use cbox.Base.HashMap.{get, contains_key, is_some}
use cbox.Base.HashMap
use cbox.Base.HashSet.{contains, extend, retain_not}
use cbox.Protocol.{Hash, NodeId, Txn, TxnCtx, BitcoinTxn, Block, BlkCtx, BlockHeader, as_bitcoin}
use cbox.BlockManagement.Bitcoin.{Utxo, TxnPool, State, u64, get_chain_length}
use cbox.BlockManagement.Bitcoin.Utxo.{inputs_of, outputs_of, script_succeeds, is_incentive}

pub data CurBlockState : Type 0 where
  working : CurBlockState
  full : CurBlockState
  empty_mempool : CurBlockState

unfoldable pub record_new_txn : State → Txn → TxnCtx → State × Bool
record_new_txn s txn ctx = if contains_key ctx.id s.txn_pool then (s, false) else (
  record s {
    txn_pool = HashMap.insert ctx.id (txn, ctx) s.txn_pool;
    pending_txns = s.pending_txns ++ ctx.id ∷ [];
  },
  true,
)

-- The output can be spent in the block under construction.
unfoldable pub is_available : State → Utxo → Bool
is_available s key =
    (contains key s.utxo || contains key s.new_utxo) && not (contains key s.utxo_spent)

unfoldable pub all_available : State → List Utxo → Bool
all_available s [] = true
all_available s (key ∷ keys) = if is_available s key then all_available s keys else false

abbrev pub max_block_size : ℕ
max_block_size = 1048576

-- One that cannot enter now goes to the back of the queue.
unfoldable pub defer : State → Hash → State
defer s txn_hash = record s { pending_txns = s.pending_txns ++ txn_hash ∷ [] }

module _ (size_of : Txn → ℕ) where
  -- The transaction enters the block under construction.
  unfoldable pub include : State → Hash → Txn → BitcoinTxn → State
  include s txn_hash txn btc = record s {
    block_under_construction = s.block_under_construction ++ txn_hash ∷ [];
    utxo_spent = extend s.utxo_spent (inputs_of btc);
    new_utxo = extend s.new_utxo (outputs_of txn_hash btc);
    block_size = (s.block_size + size_of txn) % u64;
  }

  -- The body of the loop for a transaction off the queue, with whether the block was modified.
  unfoldable pub try_txn : State → Hash → Outcome (State × Bool)
  try_txn s txn_hash = do
    (txn, _) ← unwrap (get txn_hash s.txn_pool)
    btc ← unwrap (as_bitcoin txn)
    if is_incentive btc
        then panic
        else (if all_available s (inputs_of btc) && script_succeeds btc
            then ok (include s txn_hash txn btc, true)
            else ok (defer s txn_hash, false))

  unfoldable pub fill : ℕ → State → Bool → Outcome (State × (CurBlockState × Bool))
  fill zero s modified = stuck
  fill (suc fuel) s modified =
      if ltb max_block_size s.block_size then ok (s, (full, modified)) else (elim s.pending_txns [
        | [] ↦ ok (s, (empty_mempool, modified))
        | txn_hash ∷ rest ↦ do
          (s', added) ← try_txn (record s { pending_txns = rest }) txn_hash
          fill fuel s' (modified || added)
      ])

  unfoldable pub prepare_new_block : ℕ → State → Hash → ℕ × ℕ → Outcome (State × CurBlockState)
  prepare_new_block fuel s merkle_root pow_time = do
    (s', (blk_full, modified)) ← fill fuel s false
    if modified || not (is_some s'.pow_time)
        then ok (record s' { merkle_root = some merkle_root; pow_time = some pow_time }, blk_full)
        else ok (s', blk_full)

-- The transactions of these hashes, with their contexts; each must be in the pool.
unfoldable pub collect : TxnPool → List Hash → Outcome (List (Txn × TxnCtx))
collect pool [] = ok []
collect pool (h ∷ hs) = do entry ← unwrap (get h pool); rest ← collect pool hs; ok (entry ∷ rest)

-- The state after the node has made this block.
unfoldable pub proposed : State → Hash → Block → BlkCtx → ℕ → State
proposed s hash block block_ctx height = record s {
  block_under_construction = [];
  block_pool = HashMap.insert hash (block, block_ctx, height) s.block_pool;
  chain_tail = hash;
  utxo = retain_not s.utxo_spent (extend s.utxo s.new_utxo);
  new_utxo = [];
  utxo_spent = [];
  merkle_root = none;
  pow_time = none;
  block_size = 0;
}

module _ (header_id : BlockHeader → Outcome Hash) where
  unfoldable pub get_new_block : State → Outcome (State × (Block × BlkCtx))
  get_new_block s = do
    entries ← collect s.txn_pool s.block_under_construction
    root ← unwrap s.merkle_root
    let header = BlockHeader.bitcoin s.id s.chain_tail root 1
    hash ← header_id header
    let block_ctx : BlkCtx = record { id = hash; txn_ctx = map (λ e. e.1) entries }
    let block : Block = record { header = header; txns = map (λ e. e.0) entries }
    chain_length ← get_chain_length s
    pow ← unwrap s.pow_time
    ok (proposed s hash block block_ctx (chain_length + 1), (block, block_ctx))

unfoldable pub handle_pmaker_msg : State → List ℕ → Outcome State
handle_pmaker_msg s [] = err (CopycatError.copycat_error "got empty message from pacemaker")
handle_pmaker_msg s (b ∷ bs) = ok (record s { difficulty = b })

-- What `handle_peer_blk_req` sends: the block to the peer, or the request to the neighbours but
-- these.
pub data Reply : Type 0 where
  send : NodeId → Block → Reply
  gossip : List ℕ → List NodeId → Reply

-- `from_little_endian` panics on more than 32 bytes.
module _ (from_little_endian : List ℕ → Outcome Hash) where
  unfoldable pub handle_peer_blk_req : State → NodeId → List ℕ → Outcome Reply
  handle_peer_blk_req s peer msg = do
    blk_id ← from_little_endian msg
    elim (get blk_id s.block_pool) [
      | some (blk, _, _) ↦ ok (Reply.send peer blk)
      | none ↦ ok (Reply.gossip msg (s.id ∷ peer ∷ []))
    ]
