-- ===== src/Decide/Bitcoin.antt =====
-- src/stage/consensus/decide/bitcoin/basic.rs: BitcoinDecision. `chain_tail` lists the undecided
-- blocks, the oldest first. The logs and the waiting on `_notify` are left out.
pub mod Chain
pub mod NewTail
pub mod Commit
pub mod History
use mathlib.Core.List.{reverse}
use cbox.Base.{
  ℕ, ◌+◌, ◌-◌, List, [], ◌∷◌, ◌++◌, Option, none, some, Bool, true, false, Outcome, ok, panic,
  unwrap, ◌>>=◌, ◌==◌, nat_eq, if◌then◌else◌, leb, ltb, length,
}
use cbox.Base.HashMap.{HashMap, get, insert}
use cbox.Protocol.{Hash, NodeId, Txn, Block, BlkCtx, prev_hash_of, proposer_of}

abbrev pub BlockPool : Type 0
BlockPool = HashMap Hash (Block × BlkCtx × ℕ)

pub record State : Type 0 where
  pub commit_len : ℕ
  pub block_pool : BlockPool
  pub chain_tail : List Hash
  pub first_block_seen : Bool
  pub miners_blk_cnt : HashMap NodeId ℕ

unfoldable pub new : ℕ → State
new commit_depth = record {
  commit_len = commit_depth;
  block_pool = [];
  chain_tail = [];
  first_block_seen = false;
  miners_blk_cnt = [];
}

-- The height of a block on this parent; the parent must be known (else `unimplemented!`).
unfoldable pub first_height : BlockPool → Hash → Outcome ℕ
first_height pool prev_hash =
    if prev_hash == 0
    then ok 1
    else (do (_, _, height) ← unwrap (get prev_hash pool); ok (height + 1))

-- The loop that pops overwritten blocks off the back. It walks the deque from the back, and returns
-- what is left in that order, with whether it ran empty.
unfoldable pub prune : BlockPool → Hash → ℕ → List Hash → Outcome (List Hash × Bool)
prune pool ancester first [] = ok ([], true)
prune pool ancester first (old_tail ∷ rest) = do
  (_, _, old_height) ← unwrap (get old_tail pool)
  elim (leb first old_height) [
    | true ↦ prune pool ancester first rest
    | false ↦
        if old_height == first - 1
        then (if old_tail == ancester then ok (old_tail ∷ rest, false) else panic)
        else panic
  ]

-- The last loop of `new_tail`: the blocks enter the pool and the tail, at rising heights.
unfoldable pub record_tail : BlockPool → ℕ → List (Block × BlkCtx) → BlockPool
record_tail pool height [] = pool
record_tail pool height ((blk, blk_ctx) ∷ rest) =
    record_tail (insert blk_ctx.id (blk, blk_ctx, height) pool) (height + 1) rest

abbrev pub tail_ids : List (Block × BlkCtx) → List Hash
tail_ids [] = []
tail_ids ((_, blk_ctx) ∷ rest) = blk_ctx.id ∷ tail_ids rest

unfoldable pub new_tail : State → List (Block × BlkCtx) → Outcome State
new_tail s [] = ok s
new_tail s ((blk, blk_ctx) ∷ rest) = do
  prev_hash ← prev_hash_of blk.header
  first ← first_height s.block_pool prev_hash
  (left, emptied) ← prune s.block_pool prev_hash first (reverse s.chain_tail)
  ok (record s {
    block_pool = record_tail s.block_pool first ((blk, blk_ctx) ∷ rest);
    chain_tail = reverse left ++ tail_ids ((blk, blk_ctx) ∷ rest);
    first_block_seen = if emptied then true else s.first_block_seen;
  })

-- The test that `commit_ready` waits for.
unfoldable pub commit_ready : State → Bool
commit_ready s = ltb s.commit_len (length s.chain_tail)

abbrev pub get_or_zero : Option ℕ → ℕ
get_or_zero none = 0
get_or_zero (some n) = n

unfoldable pub commit_block : State → List Hash → Outcome (State × (ℕ × List Txn))
commit_block s [] = panic
commit_block s (blk_hash ∷ rest) = do
  (blk, _, height) ← unwrap (get blk_hash s.block_pool)
  miner ← proposer_of blk.header
  let counts = s.miners_blk_cnt
  let counts' = insert miner (get_or_zero (get miner counts) + 1) counts
  ok (record s { chain_tail = rest; miners_blk_cnt = counts' }, (height, blk.txns))

unfoldable pub next_to_commit : State → Outcome (State × (ℕ × List Txn))
unfolding commit_block
next_to_commit s = commit_block s s.chain_tail
