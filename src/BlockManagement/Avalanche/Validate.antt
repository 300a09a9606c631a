-- ===== src/BlockManagement/Avalanche/Validate.antt =====
-- `validate_block`: the batch of a peer is checked, its unknown transactions enter the dag, and what it
-- spends and this node does not know is asked for at its proposer; the answers have higher depths. The
-- id of a placeholder (sha256 of its bincode) is a parameter.
use cbox.Base.{
  ℕ, zero, suc, List, [], ◌∷◌, ◌++◌, Option, none, some, Bool, true, false, Outcome, ok, panic,
  unwrap, assert, ◌>>=◌, ◌==◌, nat_eq, pair_eq, if◌then◌else◌, length, get_elem?,
}
use cbox.Base.HashMap.{get, contains_key}
use cbox.Base.HashMap
use cbox.Protocol.{
  Hash, NodeId, Txn, TxnCtx, AvalancheTxn, as_avalanche, Block, BlkCtx, BlockHeader, avalanche_id,
}
use cbox.BlockManagement.Avalanche.{PeerReq, TxnDag, State}
use cbox.BlockManagement.Avalanche.Funds.{Checked, validate_txn}
use cbox.BlockManagement.Avalanche.Propose.{link}

unfoldable pub header_of : BlockHeader → Outcome (NodeId × (ℕ × ℕ))
header_of (BlockHeader.avalanche proposer id depth) = ok (proposer, (id, depth))
header_of BlockHeader.dummy = panic
header_of (BlockHeader.bitcoin _ _ _ _) = panic
header_of (BlockHeader.chain_replication _) = panic

-- The variables of the loops: the state, the batch as it is to go on, what is missing, the indices to be
-- checked again, and what is ready to be proposed.
pub record Progress : Type 0 where
  pub state : State
  pub txns : List Txn
  pub txn_ctxs : List TxnCtx
  pub missing_deps : List Hash
  pub recheck_txn_idx : List ℕ
  pub pending_frontier : List Hash

unfoldable pub push_txn : Progress → Txn → TxnCtx → Progress
push_txn p txn txn_ctx = record p {
  txns = p.txns ++ txn ∷ [];
  txn_ctxs = p.txn_ctxs ++ txn_ctx ∷ [];
}

-- A known transaction of the dag without parents is ready.
unfoldable pub is_ready : TxnDag → Hash → Bool
is_ready dag h = elim (get h dag) [ none ↦ false | some node ↦ node.num_parents == 0 ]

-- A valid transaction enters the pool and the dag.
unfoldable pub admit : Progress → Txn → TxnCtx → List Hash → Progress
admit p txn txn_ctx in_utxo =
    let (dag, num_parents) = link txn_ctx.id in_utxo p.state.txn_dag in
    record p {
      state = record p.state {
        txn_pool = HashMap.insert txn_ctx.id (txn, txn_ctx) p.state.txn_pool;
        txn_dag =
            HashMap.insert txn_ctx.id (record { num_parents = num_parents; children = [] }) dag;
      };
      pending_frontier =
          if num_parents == 0 then p.pending_frontier ++ txn_ctx.id ∷ [] else p.pending_frontier;
    }

-- `unwrap_or(false)`.
unfoldable pub is_valid : Checked → Bool
is_valid (Checked.valid b) = b
is_valid (Checked.missing deps) = false

-- `xs[idx] = x`, of an index that is in range.
unfoldable pub set_elem {ℓ} : {A : Type ℓ} → List A → ℕ → A → List A
set_elem [] idx x = []
set_elem (y ∷ ys) zero x = x ∷ ys
set_elem (y ∷ ys) (suc idx) x = y ∷ set_elem ys idx x

module _ (place_holder_ctx : Outcome TxnCtx) where
  -- A transfer that is not known.
  unfoldable pub check_send :
      Progress → ℕ → Txn → TxnCtx → AvalancheTxn → List Hash → Outcome Progress
  check_send p idx txn txn_ctx avax_txn in_utxo = do
    checked ← validate_txn p.state.txn_pool avax_txn
    elim checked [
      | Checked.valid b ↦ elim b [
        | true ↦ ok (push_txn (admit p txn txn_ctx in_utxo) txn txn_ctx)
        | false ↦ do
          ctx ← place_holder_ctx
          ok (push_txn p (Txn.avalanche AvalancheTxn.place_holder) ctx)
      ]
      | Checked.missing txn_missing_deps ↦ ok (
          push_txn
            (record p {
              missing_deps = p.missing_deps ++ txn_missing_deps;
              recheck_txn_idx = p.recheck_txn_idx ++ idx ∷ [];
            })
            txn txn_ctx)
    ]

  unfoldable pub check_new : Progress → ℕ → Txn → TxnCtx → AvalancheTxn → Outcome Progress
  check_new p idx txn txn_ctx (AvalancheTxn.noop _) = ok (push_txn p txn txn_ctx)
  check_new p idx txn txn_ctx AvalancheTxn.place_holder = ok (push_txn p txn txn_ctx)
  check_new p idx txn txn_ctx (AvalancheTxn.grant _ _ _) =
      ok (push_txn (admit p txn txn_ctx []) txn txn_ctx)
  check_new p idx txn txn_ctx (AvalancheTxn.send sender in_utxo receiver out_utxo rest signature) =
      check_send p idx txn txn_ctx
        (AvalancheTxn.send sender in_utxo receiver out_utxo rest signature) in_utxo

  unfoldable pub check_txn : Progress → ℕ → Txn → TxnCtx → Outcome Progress
  check_txn p idx txn txn_ctx = elim (get txn_ctx.id p.state.txn_pool) [
    | some entry ↦ ok (
        push_txn
          (record p {
            pending_frontier =
                if is_ready p.state.txn_dag txn_ctx.id
                then p.pending_frontier ++ txn_ctx.id ∷ []
                else p.pending_frontier;
          })
          txn entry.1)
    | none ↦ do avax_txn ← unwrap (as_avalanche txn); check_new p idx txn txn_ctx avax_txn
  ]

  -- The loop over the batch, whose lists have been found to be of one length.
  unfoldable pub check_txns : Progress → ℕ → List Txn → List TxnCtx → Outcome Progress
  check_txns p idx [] txn_ctxs = ok p
  check_txns p idx (txn ∷ txns) [] = panic
  check_txns p idx (txn ∷ txns) (txn_ctx ∷ txn_ctxs) = do
    p' ← check_txn p idx txn txn_ctx
    check_txns p' (suc idx) txns txn_ctxs

  -- A transfer that is checked again; what it spends has been asked for.
  unfoldable pub recheck_send :
      Progress → ℕ → Txn → TxnCtx → AvalancheTxn → List Hash → Outcome Progress
  recheck_send p idx txn txn_ctx avax_txn in_utxo = do
    checked ← validate_txn p.state.txn_pool avax_txn
    elim (is_valid checked) [
      | true ↦ ok (admit p txn txn_ctx in_utxo)
      | false ↦ do
        ctx ← place_holder_ctx
        ok (record p {
          txns = set_elem p.txns idx (Txn.avalanche AvalancheTxn.place_holder);
          txn_ctxs = set_elem p.txn_ctxs idx ctx;
        })
    ]

  unfoldable pub recheck_new : Progress → ℕ → Txn → TxnCtx → AvalancheTxn → Outcome Progress
  recheck_new p idx txn txn_ctx (AvalancheTxn.noop _) = ok p
  recheck_new p idx txn txn_ctx AvalancheTxn.place_holder = ok p
  recheck_new p idx txn txn_ctx (AvalancheTxn.grant _ _ _) = ok p
  recheck_new p idx txn txn_ctx
        (AvalancheTxn.send sender in_utxo receiver out_utxo rest signature) =
      recheck_send p idx txn txn_ctx
        (AvalancheTxn.send sender in_utxo receiver out_utxo rest signature) in_utxo

  unfoldable pub recheck_txn : Progress → ℕ → Outcome Progress
  recheck_txn p idx = do
    txn ← unwrap (get_elem? p.txns idx)
    txn_ctx ← unwrap (get_elem? p.txn_ctxs idx)
    elim (contains_key txn_ctx.id p.state.txn_pool) [
      | true ↦ ok p
      | false ↦ do avax_txn ← unwrap (as_avalanche txn); recheck_new p idx txn txn_ctx avax_txn
    ]

  unfoldable pub recheck_txns : Progress → List ℕ → Outcome Progress
  recheck_txns p [] = ok p
  recheck_txns p (idx ∷ idxs) = do p' ← recheck_txn p idx; recheck_txns p' idxs

  -- `while curr_depth > 0`: the batches that waited for this answer, up to the one that was voted on;
  -- with the last `curr_depth`, or nothing where a batch was not there. A batch of a depth other than
  -- the last one is not kept.
  unfoldable pub recheck_blks : ℕ → NodeId → ℕ → Progress → Outcome (Progress × Option ℕ)
  recheck_blks zero proposer blk_id p = ok (p, some zero)
  recheck_blks (suc curr_depth) proposer blk_id p =
      elim (get (proposer, (blk_id, curr_depth)) p.state.pending_blks) [
        | none ↦ ok (p, none)
        | some (curr_txns, (curr_txn_ctx, recheck_idx)) ↦ do
          p' ←
              recheck_txns
                (record p {
                  state = record p.state {
                    pending_blks =
                        HashMap.remove (proposer, (blk_id, curr_depth)) p.state.pending_blks;
                  };
                  txns = curr_txns;
                  txn_ctxs = curr_txn_ctx;
                })
                recheck_idx
          recheck_blks curr_depth proposer blk_id p'
      ]

  -- What is missing is asked for, and the batch waits.
  unfoldable pub request : Progress → NodeId → ℕ → ℕ → State × PeerReq
  request p proposer blk_id depth = (
    record p.state {
      dag_frontier = p.pending_frontier ++ p.state.dag_frontier;
      pending_blks =
          HashMap.insert (proposer, (blk_id, depth)) (p.txns, (p.txn_ctxs, p.recheck_txn_idx))
            p.state.pending_blks;
    },
    record { proposer = proposer; blk_id = blk_id; depth = depth; dep_set = p.missing_deps },
  )

  -- The batch goes on. Its id is made of the header that came, whose depth may not be 0.
  unfoldable pub emit : Progress → NodeId → ℕ → ℕ → ℕ → State × (Block × BlkCtx)
  emit p proposer blk_id depth curr_depth = (
    record p.state { dag_frontier = p.pending_frontier ++ p.state.dag_frontier },
    (
      record { header = BlockHeader.avalanche proposer blk_id curr_depth; txns = p.txns },
      record { id = avalanche_id proposer blk_id depth; txn_ctx = p.txn_ctxs },
    ),
  )

  unfoldable pub validate_block :
      State → Block → BlkCtx → Outcome (State × (List (Block × BlkCtx) × Option PeerReq))
  validate_block s block blk_ctx = do
    _ ← assert (length block.txns == length blk_ctx.txn_ctx)
    (proposer, (blk_id, depth)) ← header_of block.header
    p ←
        check_txns
          (record {
            state = s;
            txns = [];
            txn_ctxs = [];
            missing_deps = [];
            recheck_txn_idx = [];
            pending_frontier = [];
          })
          0 block.txns blk_ctx.txn_ctx
    elim p.missing_deps [
      | h ∷ hs ↦
          let (s', peer_req) = request p proposer blk_id depth in ok (s', ([], some peer_req))
      | [] ↦ do
        (p', last_depth) ← recheck_blks depth proposer blk_id p
        elim last_depth [
          | none ↦ ok (p'.state, ([], none))
          | some curr_depth ↦
              let (s', emitted) = emit p' proposer blk_id depth curr_depth in
              ok (s', (emitted ∷ [], none))
        ]
    ]
