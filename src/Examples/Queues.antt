-- ===== src/Examples/Queues.antt =====
-- The relay of a block, the dummy decision and the pacemaker at concrete inputs.
use cbox.Base.{panic, false, ℕ, List, [], ◌∷◌, ◌≡◌, refl, ok, arith, ◌+◌, nat_eq}
use cbox.Base.HashSet
use cbox.Base.HashSet.{IsDistinct}
use cbox.Protocol.{Txn, Block, BlkCtx, BlockHeader, BitcoinTxn}
use cbox.ChainReplication.Linear.{relay, relay_lem}
use cbox.DummyDecision
use cbox.DummyDecision.{run_lem}
use cbox.Pacemaker
use cbox.Pacemaker.{Answers, run_quota}

abbrev block : ℕ → Block
block amount = record {
  header = BlockHeader.dummy;
  txns = Txn.bitcoin (BitcoinTxn.grant amount []) ∷ [];
}

abbrev order : List ℕ
order = 4 ∷ 2 ∷ 7 ∷ []

order-IsDistinct : IsDistinct order
unfolding HashSet.contains
order-IsDistinct = (refl, (refl, (refl, tt)))

relay_lem_example : relay 3 order 4 4 (block 1) ≡ ok order
relay_lem_example = relay_lem 4 (2 ∷ 7 ∷ []) (block 1) order-IsDistinct

abbrev blk_ctx : BlkCtx
blk_ctx = record { id = 1; txn_ctx = [] }

abbrev decisions : List DummyDecision.Event
decisions =
    DummyDecision.Event.blocks ((block 1, blk_ctx) ∷ (block 2, blk_ctx) ∷ [])
    ∷ DummyDecision.Event.commit
    ∷ []

run-decisions :
    DummyDecision.run DummyDecision.new decisions
    ≡ ok
        (record { blocks_to_commit = block 2 ∷ []; blocks_committed = 1 }, (1, (block 1).txns) ∷ [])
unfolding DummyDecision.run DummyDecision.new DummyDecision.on_event DummyDecision.new_tail
    DummyDecision.next_to_commit DummyDecision.commit_front DummyDecision.is_commit_ready
run-decisions = refl

run_lem_example : DummyDecision.Ends DummyDecision.new decisions false
run_lem_example = run_lem decisions DummyDecision.new

run-peer_msg :
    DummyDecision.run DummyDecision.new
      (DummyDecision.Event.commit ∷ DummyDecision.Event.peer_msg 3 [] ∷ [])
    ≡ panic
unfolding DummyDecision.run DummyDecision.new DummyDecision.on_event DummyDecision.handle_peer_msg
    DummyDecision.is_commit_ready
run-peer_msg = refl

abbrev paces : List Pacemaker.Event
paces =
    Pacemaker.Event.propose
    ∷ Pacemaker.Event.propose
    ∷ Pacemaker.Event.propose
    ∷ Pacemaker.Event.feedback []
    ∷ Pacemaker.Event.propose
    ∷ []

abbrev two : Pacemaker.State
two = record { quota = 2 }

paces-Answers : Answers (two, 0) paces
unfolding Pacemaker.on_event Pacemaker.may_propose Pacemaker.get_propose_msg
    Pacemaker.handle_feedback
paces-Answers = (omega arith, tt)

run_quota_example : (Pacemaker.run (two, 0) paces).0.quota + (Pacemaker.run (two, 0) paces).1 ≡ 2
run_quota_example = run_quota 2 paces two 0 (omega arith) refl paces-Answers
