-- ===== src/Examples/Decisions.antt =====
-- src/stage/consensus/decide/bitcoin: three blocks, the third of which takes the place of the second.
use cbox.Base.{ℕ, List, [], ◌∷◌, true, false, ◌≡◌, ◌≤◌, refl, ok, length, ◌+◌}
use cbox.Base.HashMap
use cbox.Base.HashSet
use cbox.Base.HashSet.{contains, IsDistinct}
use cbox.Protocol.{Hash, Txn, TxnCtx, Block, BlkCtx, BlockHeader, prev_hash_of}
use cbox.Protocol
use cbox.Decide.Bitcoin.{State, new, new_tail, next_to_commit, commit_ready, tail_ids}
use cbox.Decide.Bitcoin
use cbox.Decide.Bitcoin.NewTail.{IsUndecided, new_tail_reorg}
use cbox.Decide.Bitcoin.Commit.{IsCommit, next_to_commit_lem}
use cbox.Decide.Bitcoin.History.{Reach, countdown, committed_in_order}

abbrev block : Hash → Block
block prev = record { header = BlockHeader.bitcoin 9 prev 0 1; txns = [] }

abbrev blk_ctx : Hash → BlkCtx
blk_ctx id = record { id = id; txn_ctx = [] }

-- A node that commits at a depth of one, and its states after blocks 11 and 12.
abbrev empty : State
empty = record {
  commit_len = 1;
  block_pool = [];
  chain_tail = [];
  first_block_seen = false;
  miners_blk_cnt = [];
}

abbrev chain : List (Block × BlkCtx)
chain = (block 0, blk_ctx 11) ∷ (block 11, blk_ctx 12) ∷ []

abbrev two_blocks : State
two_blocks = record {
  commit_len = 1;
  block_pool = (11, (block 0, blk_ctx 11, 1)) ∷ (12, (block 11, blk_ctx 12, 2)) ∷ [];
  chain_tail = 11 ∷ 12 ∷ [];
  first_block_seen = true;
  miners_blk_cnt = [];
}

new_run : new 1 ≡ empty
unfolding new
new_run = refl

new_tail_run : new_tail (new 1) chain ≡ ok two_blocks
unfolding new new_tail prev_hash_of Bitcoin.first_height Bitcoin.prune Bitcoin.record_tail
    HashMap.insert
new_tail_run = refl

two_blocks-IsUndecided : IsUndecided two_blocks 0 1
unfolding HashMap.get prev_hash_of Bitcoin.first_height
two_blocks-IsUndecided = record {
  chain = (
    record { block = block 0; ctx = blk_ctx 11; found = refl; on_parent = refl; real = refl },
    (
      record { block = block 11; ctx = blk_ctx 12; found = refl; on_parent = refl; real = refl },
      tt,
    ),
  );
  based = refl;
}

-- Block 13 on block 11 takes the place of block 12.
new_tail_reorg_example :
    (s' : State) × (new_tail two_blocks ((block 11, blk_ctx 13) ∷ []) ≡ ok s')
    × (s'.chain_tail ≡ 11 ∷ 13 ∷ [])
    × IsUndecided s' 0 1
unfolding HashSet.contains prev_hash_of
new_tail_reorg_example =
    new_tail_reorg two_blocks 0 1 (11 ∷ []) (12 ∷ []) (block 11) (blk_ctx 13) []
      two_blocks-IsUndecided refl (refl, refl, tt) (refl, tt) (refl, (refl, tt))

next_to_commit_lem_example :
    (s' : State) × (txns : List Txn) × (h : Hash) × (next_to_commit two_blocks ≡ ok (s', (1, txns)))
    × (1 ≤ length s'.chain_tail)
    × IsCommit two_blocks s' 0 1 txns h
unfolding commit_ready
next_to_commit_lem_example = next_to_commit_lem two_blocks 0 1 two_blocks-IsUndecided refl

abbrev one_left : State
one_left = record {
  commit_len = 1;
  block_pool = (11, (block 0, blk_ctx 11, 1)) ∷ (12, (block 11, blk_ctx 12, 2)) ∷ [];
  chain_tail = 12 ∷ [];
  first_block_seen = true;
  miners_blk_cnt = (9, 1) ∷ [];
}

abbrev one : List ℕ
one = 1 ∷ []

run : Reach 1 one_left 11 one
unfolding next_to_commit Bitcoin.commit_block HashMap.get HashMap.insert prev_hash_of
    Protocol.proposer_of commit_ready HashSet.contains
run =
    Reach.commit 11 (12 ∷ []) one_left 1 []
      (Reach.tail [] [] (block 0) (blk_ctx 11) ((block 11, blk_ctx 12) ∷ []) two_blocks Reach.start
        (unfold new in refl) (refl, refl, (refl, refl, tt)) (refl, (refl, tt)) (refl, tt)
        new_tail_run)
      refl refl refl

committed_in_order_example :
    (one ≡ countdown (length one)) × IsUndecided one_left 11 (length one + 1)
committed_in_order_example = committed_in_order run
