-- ===== src/Examples/Batches.antt =====
-- Avalanche block management at concrete inputs.
use cbox.Base.{
  Bool-cases, inl, inr, subst, some_unique, pair_eq, ◌==◌, length, nat_eq, ℕ, ◌+◌, ◌<◌, List, [],
  ◌∷◌, none, true, ok, ◌≡◌, refl, arith,
}
use cbox.Base.HashMap.{get, contains_key}
use cbox.Base.HashMap
use cbox.Base.HashSet.{contains, IsDistinct}
use cbox.Base.HashSet
use cbox.Protocol.{
  NodeId, Hash, Txn, AvalancheTxn, Block, BlkCtx, BlockHeader, as_avalanche, avalanche_id,
  avalanche_id-injective,
}
use cbox.BlockManagement.Avalanche.{new, State, PendingBlk, CurBlockState, empty_mempool}
use cbox.BlockManagement.Avalanche.Funds.{
  validate_txn, validate_send, gather, value_to, sum_values, is_balanced,
}
use cbox.BlockManagement.Avalanche.Propose.{
  get_new_block, collect, handle_pmaker_msg, link, release, prepare_new_block, record_new_txn,
  parents_of,
}
use cbox.BlockManagement.Avalanche.Validate.{
  header_of, push_txn, admit, check_send, check_new, check_txn, check_txns, recheck_blks,
  recheck_txns, recheck_txn, recheck_new, recheck_send, is_valid, emit, validate_block,
}
use cbox.BlockManagement.Avalanche.Once.{
  Run, start, step, feedback, validate, prepare, propose, Run-proposes_once,
}
use cbox.BlockManagement.Avalanche.Filling.{listed, Batched, prepare_new_block-Batched}
use cbox.BlockManagement.Avalanche.Emits.{ArePaired}
use cbox.BlockManagement.Avalanche.Fits.{Fits, validate_block-Fits}
use cbox.BlockManagement.Avalanche.Shown.{Shows}
use cbox.Examples.Votes.{key, grant, first, ctx}

abbrev empty : State
empty = record {
  id = 0;
  blk_len = 5;
  txn_pool = [];
  txn_dag = [];
  dag_frontier = [];
  blk_counter = 0;
  curr_batch = [];
  next_propose_time = 10;
  proposal_timeout = 10;
  pending_blks = [];
  blk_quota = 1;
}

-- A transfer of more than the output that it spends.
abbrev overdraft : Txn
overdraft = Txn.avalanche (AvalancheTxn.send key (1 ∷ []) (8 ∷ []) 6 0 [])

abbrev peer_block : Block
peer_block = record { header = BlockHeader.avalanche 3 4 0; txns = grant ∷ first ∷ overdraft ∷ [] }

abbrev peer_ctx : BlkCtx
peer_ctx = record { id = avalanche_id 3 4 0; txn_ctx = ctx 1 ∷ ctx 2 ∷ ctx 3 ∷ [] }

-- The grant and the first transfer enter the dag.
abbrev checked : State
checked = record empty {
  txn_pool = (1, (grant, ctx 1)) ∷ (2, (first, ctx 2)) ∷ [];
  txn_dag =
      (1, record { num_parents = 0; children = 2 ∷ [] })
      ∷ (2, record { num_parents = 1; children = [] })
      ∷ [];
  dag_frontier = 1 ∷ [];
}

abbrev emitted : List (Block × BlkCtx)
emitted =
    (
      record {
        header = BlockHeader.avalanche 3 4 0;
        txns = grant ∷ first ∷ Txn.avalanche AvalancheTxn.place_holder ∷ [];
      },
      record { id = avalanche_id 3 4 0; txn_ctx = ctx 1 ∷ ctx 2 ∷ ctx 99 ∷ [] },
    )
    ∷ []

peer_run : validate_block (ok (ctx 99)) empty peer_block peer_ctx ≡ ok (checked, (emitted, none))
unfolding validate_block header_of check_txns check_txn check_new check_send push_txn admit link
    recheck_blks emit validate_txn validate_send gather value_to sum_values is_balanced get
    HashMap.insert HashSet.insert as_avalanche
peer_run = refl

empty-ArePaired : ArePaired empty.pending_blks
unfolding get
empty-ArePaired k blk found = cc

abbrev at_depth_0 : NodeId × (ℕ × ℕ)
at_depth_0 = (3, (4, 0))

-- The transfer waits for its parent, which comes with the batch of depth 1.
abbrev waiting : State
waiting = record empty { pending_blks = (at_depth_0, (first ∷ [], (ctx 2 ∷ [], 0 ∷ []))) ∷ [] }

abbrev answer : Block
answer = record { header = BlockHeader.avalanche 3 4 1; txns = grant ∷ [] }

abbrev answer_ctx : BlkCtx
answer_ctx = record { id = 0; txn_ctx = ctx 1 ∷ [] }

abbrev answered : State
answered = record empty {
  txn_pool = (1, (grant, ctx 1)) ∷ (2, (first, ctx 2)) ∷ [];
  txn_dag =
      (1, record { num_parents = 0; children = 2 ∷ [] })
      ∷ (2, record { num_parents = 1; children = [] })
      ∷ [];
  dag_frontier = 1 ∷ [];
}

abbrev released : List (Block × BlkCtx)
released =
    (
      record { header = BlockHeader.avalanche 3 4 0; txns = first ∷ [] },
      record { id = avalanche_id 3 4 1; txn_ctx = ctx 2 ∷ [] },
    )
    ∷ []

answer_run :
    validate_block (ok (ctx 99)) waiting answer answer_ctx ≡ ok (answered, (released, none))
unfolding validate_block header_of check_txns check_txn check_new check_send push_txn admit link
    recheck_blks recheck_txns recheck_txn recheck_new recheck_send is_valid emit validate_txn
    validate_send gather value_to sum_values is_balanced get contains_key HashMap.insert
    HashMap.remove HashSet.insert as_avalanche
answer_run = refl

waiting-ArePaired : ArePaired waiting.pending_blks
unfolding get
waiting-ArePaired k blk found = elim (Bool-cases (at_depth_0 == k)) [
  | inl here ↦
      subst (λ (b : PendingBlk). length b.0 ≡ length b.1.0) (some_unique refl (rw here at found))
        refl
  | inr other ↦ absurd (cc (rw other at found))
]

validate_block-Fits_example :
    ArePaired answered.pending_blks
    × Fits 3 4 released
    × Shows waiting.pending_blks (grant ∷ []) 3 4 1 released
unfolding header_of
validate_block-Fits_example =
    validate_block-Fits (ok (ctx 99)) waiting answer answer_ctx 3 4 1 (answered, (released, none))
      waiting-ArePaired refl answer_run

checked_small : 1 + listed checked.txn_dag < 3
unfolding listed
checked_small = omega arith

prepare_new_block-Batched_example :
    (s' : State) × (st : CurBlockState) × (prepare_new_block 3 checked ≡ ok (s', st))
    × Batched checked s' st
prepare_new_block-Batched_example = prepare_new_block-Batched 3 checked checked_small

avalanche_id-injective_example : (◌≡◌ {A = ℕ} 3 3) × (◌≡◌ {A = ℕ} 4 4) × (◌≡◌ {A = ℕ} 2 2)
avalanche_id-injective_example =
    avalanche_id-injective 3 4 2 3 4 2 (omega arith) (omega arith) (omega arith) (omega arith) refl

abbrev prepared : State
prepared = record checked { txn_dag = []; dag_frontier = []; curr_batch = 1 ∷ 2 ∷ [] }

prepared_run : prepare_new_block 4 checked ≡ ok (prepared, empty_mempool)
unfolding prepare_new_block release get HashMap.insert HashMap.remove
prepared_run = refl

abbrev proposed : State
proposed = record prepared {
  blk_counter = 1;
  curr_batch = [];
  next_propose_time = 17;
  blk_quota = 0;
}

abbrev own_block : Block × BlkCtx
own_block = (
  record { header = BlockHeader.avalanche 0 0 0; txns = grant ∷ first ∷ [] },
  record { id = avalanche_id 0 0 0; txn_ctx = ctx 1 ∷ ctx 2 ∷ [] },
)

proposed_run : get_new_block 7 prepared ≡ ok (proposed, own_block)
unfolding get_new_block collect get
proposed_run = refl

prepared_small : 1 + listed checked.txn_dag < 4
unfolding listed
prepared_small = omega arith

-- The transactions of a peer's batch are batched and proposed.
proposals : Run (ok (ctx 99)) (new 0 5 10 0) (1 ∷ 2 ∷ []) proposed
unfolding new handle_pmaker_msg header_of
proposals =
    step
      (step
        (step (step start (feedback (new 0 5 10 0)))
          (validate empty peer_block peer_ctx 3 4 0 (checked, (emitted, none)) refl peer_run))
        (prepare checked 4 prepared_small (prepared, empty_mempool) prepared_run))
      (propose prepared 7 (proposed, own_block) proposed_run)

Run-proposes_once_example :
    IsDistinct {A = Hash} (1 ∷ 2 ∷ [])
    × ((h : Hash) → contains h (1 ∷ 2 ∷ []) ≡ true → get h proposed.txn_dag ≡ none)
Run-proposes_once_example = Run-proposes_once (ok (ctx 99)) 0 5 10 0 proposed (1 ∷ 2 ∷ []) proposals

-- A transfer of two outputs, one of which has left the dag: both are counted.
abbrev both : Txn
both = Txn.avalanche (AvalancheTxn.send key (1 ∷ 0 ∷ []) (8 ∷ []) 6 0 [])

abbrev before : State
before = record empty {
  txn_dag = (1, record { num_parents = 0; children = [] }) ∷ [];
  dag_frontier = 1 ∷ [];
}

abbrev recorded : State
recorded = record empty {
  txn_pool = (4, (both, ctx 4)) ∷ [];
  txn_dag =
      (1, record { num_parents = 0; children = 4 ∷ [] })
      ∷ (4, record { num_parents = 2; children = [] })
      ∷ [];
  dag_frontier = 1 ∷ [];
}

recorded_run : record_new_txn before both (ctx 4) ≡ ok (recorded, true)
unfolding record_new_txn parents_of link get contains_key HashMap.insert HashSet.insert as_avalanche
recorded_run = refl

abbrev stranded : State
stranded = record empty {
  txn_pool = (4, (both, ctx 4)) ∷ [];
  txn_dag = (4, record { num_parents = 1; children = [] }) ∷ [];
  curr_batch = 1 ∷ [];
}

-- After its other parent is batched the transfer still waits for one, and nothing is ready.
stranded_run : prepare_new_block 3 recorded ≡ ok (stranded, empty_mempool)
unfolding prepare_new_block release get HashMap.insert HashMap.remove
stranded_run = refl
