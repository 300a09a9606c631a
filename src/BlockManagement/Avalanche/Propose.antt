-- ===== src/BlockManagement/Avalanche/Propose.antt =====
-- The handlers of AvalancheBlockManagement on a node's own batches, and its answer to a peer.
use cbox.Base.{
  ℕ, zero, suc, ◌+◌, ◌-◌, ◌%◌, ◌^◌, List, [], ◌∷◌, ◌++◌, none, some, Bool, true, false, Outcome, ok,
  panic, stuck, unwrap, assert, ◌>>=◌, ◌==◌, nat_eq, if◌then◌else◌, leb, ltb, length,
}
use cbox.Base.HashMap.{get, contains_key}
use cbox.Base.HashMap
use cbox.Base.HashSet
use cbox.Protocol.{
  Hash, Txn, TxnCtx, AvalancheTxn, as_avalanche, Block, BlkCtx, BlockHeader, avalanche_id,
}
use cbox.BlockManagement.Avalanche.{
  PeerReq, TxnPool, TxnDag, State, CurBlockState, full, empty_mempool,
}

-- A transaction becomes a child of its parents that are in the dag, which are counted.
unfoldable pub link : Hash → List Hash → TxnDag → TxnDag × ℕ
link txn_hash [] dag = (dag, 0)
link txn_hash (parent ∷ parents) dag = elim (get parent dag) [
  | none ↦ link txn_hash parents dag
  | some node ↦
      let (dag', num_parents) = link txn_hash parents (
        HashMap.insert parent (record node { children = HashSet.insert txn_hash node.children })
          dag) in
      (dag', suc num_parents)
]

unfoldable pub parents_of : AvalancheTxn → Outcome (List Hash)
parents_of (AvalancheTxn.grant _ _ _) = ok []
parents_of (AvalancheTxn.send _ in_utxo _ _ _ _) = ok in_utxo
parents_of (AvalancheTxn.noop _) = panic
parents_of AvalancheTxn.place_holder = panic

-- The count in the dag is that of all the parents, that of the parents in the dag decides whether the
-- transaction goes to the frontier.
unfoldable pub record_new_txn : State → Txn → TxnCtx → Outcome (State × Bool)
record_new_txn s txn ctx = elim (contains_key ctx.id s.txn_pool) [
  | true ↦ ok (s, false)
  | false ↦ do
    avax_txn ← unwrap (as_avalanche txn)
    parents ← parents_of avax_txn
    let (dag, num_parents) = link ctx.id parents s.txn_dag
    ok (
      record s {
        txn_pool = HashMap.insert ctx.id (txn, ctx) s.txn_pool;
        txn_dag =
            HashMap.insert ctx.id (record { num_parents = length parents; children = [] }) dag;
        dag_frontier = if num_parents == 0 then s.dag_frontier ++ ctx.id ∷ [] else s.dag_frontier;
      },
      true,
    )
]

-- The loop over the children of a transaction that is batched: those whose last parent it was go to the
-- frontier.
unfoldable pub release : List Hash → TxnDag → List Hash → TxnDag × List Hash
release [] dag frontier = (dag, frontier)
release (child ∷ children) dag frontier = elim (get child dag) [
  | none ↦ release children dag frontier
  | some node ↦
      let num_parents = (node.num_parents + 2 ^ 64 - 1) % 2 ^ 64 in
      release children (HashMap.insert child (record node { num_parents = num_parents }) dag)
        (if num_parents == 0 then frontier ++ child ∷ [] else frontier)
]

unfoldable pub prepare_new_block : ℕ → State → Outcome (State × CurBlockState)
prepare_new_block zero s = stuck
prepare_new_block (suc fuel) s = elim (leb s.blk_len (length s.curr_batch)) [
  | true ↦ ok (s, full)
  | false ↦ elim s.dag_frontier [
    | [] ↦ ok (s, empty_mempool)
    | next_txn ∷ frontier ↦ elim (get next_txn s.txn_dag) [
      | none ↦ prepare_new_block fuel (record s { dag_frontier = frontier })
      | some node ↦
          let (dag, frontier') =
            release node.children (HashMap.remove next_txn s.txn_dag) frontier in
          prepare_new_block fuel (record s {
            txn_dag = dag;
            dag_frontier = frontier';
            curr_batch = s.curr_batch ++ next_txn ∷ [];
          })
    ]
  ]
]

-- Whether `wait_to_propose` returns at this time.
unfoldable pub may_propose : ℕ → State → Bool
may_propose now s =
    if s.blk_quota == 0
    then false
    else (if length s.curr_batch == 0
        then false
        else (if leb s.blk_len (length s.curr_batch) then true else leb s.next_propose_time now))

unfoldable pub collect : TxnPool → List Hash → Outcome (List Txn × List TxnCtx)
collect pool [] = ok ([], [])
collect pool (h ∷ hs) = do
  (txn, ctx) ← unwrap (get h pool)
  (txns, txn_ctx) ← collect pool hs
  ok (txn ∷ txns, ctx ∷ txn_ctx)

unfoldable pub get_new_block : ℕ → State → Outcome (State × (Block × BlkCtx))
get_new_block now s = do
  _ ← assert (ltb 0 s.blk_quota)
  (txns, txn_ctx) ← collect s.txn_pool s.curr_batch
  ok (
    record s {
      curr_batch = [];
      blk_counter = s.blk_counter + 1;
      next_propose_time = now + s.proposal_timeout;
      blk_quota = s.blk_quota - 1;
    },
    (
      record { header = BlockHeader.avalanche s.id s.blk_counter 0; txns = txns },
      record { id = avalanche_id s.id s.blk_counter 0; txn_ctx = txn_ctx },
    ),
  )

unfoldable pub handle_pmaker_msg : State → State
handle_pmaker_msg s = record s { blk_quota = s.blk_quota + 1 }

-- The transactions of a request that are known.
unfoldable pub known_txns : TxnPool → List Hash → List Txn
known_txns pool [] = []
known_txns pool (h ∷ hs) = elim (get h pool) [
  | none ↦ known_txns pool hs
  | some entry ↦ entry.0 ∷ known_txns pool hs
]

-- The block that is sent to the peer.
unfoldable pub handle_peer_blk_req : State → PeerReq → Block
handle_peer_blk_req s peer_req = record {
  header = BlockHeader.avalanche peer_req.proposer peer_req.blk_id (peer_req.depth + 1);
  txns = known_txns s.txn_pool peer_req.dep_set;
}
