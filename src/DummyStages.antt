-- ===== src/DummyStages.antt =====
-- The stages without a protocol: DummyBlockManagement (src/stage/consensus/block_management/dummy.rs),
-- DummyTxnValidation (src/stage/txn_validation/dummy.rs), AvalancheVoteNoTxnValidation
-- (src/stage/txn_validation/avalanche/vote_no.rs), DummyCommit (src/stage/commit/dummy.rs) and
-- DummyPacemaker (src/stage/pacemaker/dummy.rs). The size of the pool (crate get-size), the id of a
-- transaction (sha256) and the random id of a block are parameters.
use cbox.Base.{
  ℕ, ◌-◌, ◌*◌, ◌^◌, List, [], ◌∷◌, ◌++◌, Bool, true, ◌||◌, Outcome, ok, panic, ◌>>=◌, >>=-runs, leb,
  length, ◌≡◌, refl, sym, ap, ◌∙◌, append-nil, append_assoc,
}
use cbox.Protocol.{Hash, NodeId, Txn, TxnCtx, Block, BlkCtx, BlockHeader}

pub record State : Type 0 where
  pub mem_pool : List Txn
  pub last_block : ℕ

pub data CurBlockState : Type 0 where
  working : CurBlockState
  full : CurBlockState
  empty_mempool : CurBlockState

unfoldable pub new : ℕ → State
new now = record { mem_pool = []; last_block = now }

unfoldable pub record_new_txn : State → Txn → TxnCtx → State × Bool
record_new_txn s txn ctx = (record s { mem_pool = s.mem_pool ++ txn ∷ [] }, true)

unfoldable pub prepare_new_block : State → CurBlockState
prepare_new_block s = CurBlockState.full

-- Whether the loop of `wait_to_propose` ends at this time, in nanoseconds.
unfoldable pub may_propose : (List Txn → ℕ) → ℕ → State → Bool
may_propose size_of now s =
    leb (2 ^ 20) (size_of s.mem_pool) || leb (10 * 10 ^ 9) (now - s.last_block)

unfoldable pub validate_block : Block → BlkCtx → Outcome (List (Block × BlkCtx))
validate_block block ctx = ok ((block, ctx) ∷ [])

unfoldable pub handle_pmaker_msg : State → Outcome State
handle_pmaker_msg s = ok s

unfoldable pub handle_peer_blk_req : NodeId → Outcome State
handle_peer_blk_req peer = panic

-- The other stages.
unfoldable pub validate : List (NodeId × (Txn × TxnCtx)) → Outcome (List (NodeId × (Txn × TxnCtx)))
validate txn_batch = ok txn_batch

unfoldable pub validate_none :
    List (NodeId × (Txn × TxnCtx)) → Outcome (List (NodeId × (Txn × TxnCtx)))
validate_none txn_batch = ok []

unfoldable pub commit : List Txn → Outcome (Unit {0})
commit txn_batch = ok tt

unfoldable pub get_propose_msg : Outcome (List ℕ)
get_propose_msg = panic

unfoldable pub handle_feedback : List ℕ → Outcome (Unit {0})
handle_feedback feedback = panic

module _ (from_txn : Txn → Outcome TxnCtx) where
  -- `BlkCtx::from_blk`.
  unfoldable pub ctxs_of : List Txn → Outcome (List TxnCtx)
  ctxs_of [] = ok []
  ctxs_of (txn ∷ txns) = do ctx ← from_txn txn; ctxs ← ctxs_of txns; ok (ctx ∷ ctxs)

  unfoldable pub get_new_block : Hash → State → Outcome (State × (Block × BlkCtx))
  get_new_block blk_id s = do
    txn_ctx ← ctxs_of s.mem_pool
    ok (
      record s { mem_pool = [] },
      (
        record { header = BlockHeader.dummy; txns = s.mem_pool },
        record { id = blk_id; txn_ctx = txn_ctx },
      ),
    )

  pub data Event : Type 0 where
    new_txn : Txn → TxnCtx → Event
    propose : Hash → Event

  -- What the events bring, and what the blocks that are built take.
  unfoldable pub brought : List Event → List Txn
  brought [] = []
  brought (new_txn txn ctx ∷ events) = txn ∷ brought events
  brought (propose blk_id ∷ events) = brought events

  unfoldable pub run : State → List Event → Outcome (State × List Txn)
  run s [] = ok (s, [])
  run s (new_txn txn ctx ∷ events) = run (record_new_txn s txn ctx).0 events
  run s (propose blk_id ∷ events) = do
    (s', (block, blk_ctx)) ← get_new_block blk_id s
    (s'', proposed) ← run s' events
    ok (s'', block.txns ++ proposed)

  ctxs_of-ok :
      ((txn : Txn) → (ctx : TxnCtx) × (from_txn txn ≡ ok ctx))
      → (txns : List Txn)
      → (ctxs : List TxnCtx) × (ctxs_of txns ≡ ok ctxs) × (length ctxs ≡ length txns)
  unfolding ctxs_of
  ctxs_of-ok ids [] = ([], refl, refl)
  ctxs_of-ok ids (txn ∷ txns) =
      let (ctx, is) = ids txn in
      let (ctxs, rest, same) = ctxs_of-ok ids txns in
      (ctx ∷ ctxs, >>=-runs _ ctx is (>>=-runs _ ctxs rest refl), ap ℕ.suc same)

  -- When every transaction has an id, a run returns, and the transactions in the blocks that it builds,
  -- followed by those left in the pool, are those that were in the pool, followed by those that came,
  -- in order.
  pub run-fifo :
      ((txn : Txn) → (ctx : TxnCtx) × (from_txn txn ≡ ok ctx))
      → (s : State) (events : List Event)
      → (s' : State) × (proposed : List Txn) × (run s events ≡ ok (s', proposed))
        × (proposed ++ s'.mem_pool ≡ s.mem_pool ++ brought events)
  unfolding run brought record_new_txn get_new_block
  run-fifo ids s [] = (s, [], refl, sym (append-nil s.mem_pool))
  run-fifo ids s (new_txn txn ctx ∷ events) =
      let (s', proposed, runs, same) =
        run-fifo ids (record s { mem_pool = s.mem_pool ++ txn ∷ [] }) events in
      (s', proposed, runs, same ∙ append_assoc s.mem_pool (txn ∷ []) (brought events))
  run-fifo ids s (propose blk_id ∷ events) =
      let (ctxs, is, _) = ctxs_of-ok ids s.mem_pool in
      let (s', proposed, runs, same) = run-fifo ids (record s { mem_pool = [] }) events in
      (
        s',
        s.mem_pool ++ proposed,
        >>=-runs _
            (
              record s { mem_pool = [] },
              (
                record { header = BlockHeader.dummy; txns = s.mem_pool },
                record { id = blk_id; txn_ctx = ctxs },
              ),
            )
            (>>=-runs _ ctxs is refl) (>>=-runs _ (s', proposed) runs refl),
        append_assoc s.mem_pool proposed s'.mem_pool ∙ ap (λ l. s.mem_pool ++ l) same,
      )
