-- ===== src/BlockManagement/Avalanche/VoteNo.antt =====
-- src/stage/consensus/block_management/avalanche/vote_no.rs: AvalancheVoteNoBlockManagement, which
-- proposes nothing and hands on every batch as it came. It keeps no state that changes.
use cbox.Base.{ℕ, List, [], ◌∷◌, Bool, false, Outcome, ok, panic}
use cbox.Protocol.{NodeId, Txn, TxnCtx, Block, BlkCtx}
use cbox.BlockManagement.Avalanche.{CurBlockState, full}

unfoldable pub record_new_txn : Txn → TxnCtx → Outcome Bool
record_new_txn txn ctx = ok false

unfoldable pub prepare_new_block : Outcome CurBlockState
prepare_new_block = ok full

unfoldable pub get_new_block : Outcome (Block × BlkCtx)
get_new_block = panic

unfoldable pub validate_block : Block → BlkCtx → Outcome (List (Block × BlkCtx))
validate_block block ctx = ok ((block, ctx) ∷ [])

unfoldable pub handle_pmaker_msg : Outcome (Unit {0})
handle_pmaker_msg = panic

unfoldable pub handle_peer_blk_req : NodeId → List ℕ → Outcome (Unit {0})
handle_peer_blk_req peer msg = ok tt
