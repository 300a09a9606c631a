-- ===== src/Decide/Bitcoin/Commit.antt =====
-- `next_to_commit` takes the undecided blocks in the order of the chain.
use cbox.Base.{
  ℕ, ◌+◌, ◌≤◌, List, ◌∷◌, some, true, ◌≡◌, refl, ap, ◌∙◌, ok, length, nat_eq, arith, subst,
  List-cons, ltb→lt,
}
use cbox.Base.HashMap.{get, insert}
use cbox.Protocol.{Hash, Block, BlkCtx, BlockHeader, Txn, NodeId, prev_hash_of, proposer_of}
use cbox.Decide.Bitcoin.{
  State, first_height, commit_ready, get_or_zero, commit_block, next_to_commit,
}
use cbox.Decide.Bitcoin.Chain.{IsChain}
use cbox.Decide.Bitcoin.NewTail.{IsUndecided}

proposer_of_lem :
    (header : BlockHeader) {prev_hash : Hash}
    → prev_hash_of header ≡ ok prev_hash
    → (miner : NodeId) × (proposer_of header ≡ ok miner)
unfolding prev_hash_of proposer_of
proposer_of_lem (BlockHeader.bitcoin p _ _ _) h = (p, refl)
proposer_of_lem BlockHeader.dummy h = absurd (cc h)
proposer_of_lem (BlockHeader.avalanche _ _ _) h = absurd (cc h)
proposer_of_lem (BlockHeader.chain_replication _) h = absurd (cc h)

-- The step from `s` to `s'` takes the first undecided block, and this is that block: on the parent
-- of the chain and at its height. The others are a chain on this block, one higher.
pub record IsCommit (s s' : State) (parent : Hash) (height : ℕ) (txns : List Txn) (h : Hash)
    : Type 0 where
  pub block : Block
  pub ctx : BlkCtx
  pub found : get h s.block_pool ≡ some (block, ctx, height)
  pub on_parent : prev_hash_of block.header ≡ ok parent
  pub its_txns : block.txns ≡ txns
  pub taken : s.chain_tail ≡ h ∷ s'.chain_tail
  pub left : IsUndecided s' h (height + 1)

module _ (s : State) (parent : Hash) (height : ℕ) (h : Hash) (rest : List Hash) where
  abbrev after : NodeId → State
  after miner = record s {
    chain_tail = rest;
    miners_blk_cnt = insert miner (get_or_zero (get miner s.miners_blk_cnt) + 1) s.miners_blk_cnt;
  }

  commit_block_lem :
      s.chain_tail ≡ h ∷ rest
      → IsUndecided s parent height
      → (miner : NodeId) × (txns : List Txn) × (commit_block s (h ∷ rest)
          ≡ ok (after miner, (height, txns)))
        × IsCommit s (after miner) parent height txns h
  unfolding commit_block first_height
  commit_block_lem is u =
      let c = subst (IsChain s.block_pool parent height) is u.chain in
      let (miner, by) = proposer_of_lem c.0.block.header c.0.on_parent in
      (
        miner,
        c.0.block.txns,
        rw c.0.found (rw by),
        record {
          block = c.0.block;
          ctx = c.0.ctx;
          found = c.0.found;
          on_parent = c.0.on_parent;
          its_txns = refl;
          taken = is;
          left = record { chain = c.1; based = rw c.0.real (rw c.0.found) };
        },
      )

-- When more than `commit_len` blocks of a chain are undecided, `next_to_commit` does not panic: it
-- commits the first of them, with its height and transactions, and leaves at least `commit_len`
-- blocks undecided, as a chain on the block that was committed.
pub next_to_commit_lem :
    (s : State) (parent : Hash) (height : ℕ)
    → IsUndecided s parent height
    → commit_ready s ≡ true
    → (s' : State) × (txns : List Txn) × (h : Hash) × (next_to_commit s ≡ ok (s', (height, txns)))
      × (s.commit_len ≤ length s'.chain_tail)
      × IsCommit s s' parent height txns h
unfolding commit_ready next_to_commit
next_to_commit_lem s parent height u ready =
    let (h, rest, is) = List-cons s.chain_tail (λ is.
      absurd (omega (arith, ltb→lt s.commit_len (length s.chain_tail) ready, ap length is))) in
    let (miner, txns, runs, commit) = commit_block_lem s parent height h rest is u in
    (
      after s parent height h rest miner,
      txns,
      h,
      ap (commit_block s) is ∙ runs,
      (omega (arith, ltb→lt s.commit_len (length s.chain_tail) ready, ap length is)),
      commit,
    )
