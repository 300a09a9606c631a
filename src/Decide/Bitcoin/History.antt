-- ===== src/Decide/Bitcoin/History.antt =====
-- Every run of a BitcoinDecision whose new tails fork off no committed block.
use cbox.Base.{
  ℕ, zero, suc, ◌+◌, List, [], ◌∷◌, ◌++◌, true, false, ◌≡◌, refl, sym, ap, ◌∙◌, ok, All, arith,
  nat_eq, subst, length, ok-injective, ap₂, subst₂,
}
use cbox.Base.HashSet.{contains, IsDistinct}
use cbox.Protocol.{Hash, Block, BlkCtx, Txn}
use cbox.Decide.Bitcoin.{State, new, first_height, tail_ids, new_tail, commit_ready, next_to_commit}
use cbox.Decide.Bitcoin.Chain.{IsLinked, tip}
use cbox.Decide.Bitcoin.NewTail.{IsUndecided, new_tail_reorg}
use cbox.Decide.Bitcoin.Commit.{next_to_commit_lem}

-- The states that such a run comes to, with the last block committed, and the heights committed, the
-- last one first. A new tail begins on that block or on an undecided one.
pub data Reach (depth : ℕ) : State → Hash → List ℕ → Type 0 where
  start : Reach depth (new depth) 0 []
  tail :
      {s : State} {last : Hash} {heights : List ℕ} (keep drop : List Hash) (blk : Block)
      (ctx : BlkCtx) (rest : List (Block × BlkCtx)) (s' : State)
      → Reach depth s last heights
      → s.chain_tail ≡ keep ++ drop
      → IsLinked (tip last keep) ((blk, ctx) ∷ rest)
      → IsDistinct (tail_ids ((blk, ctx) ∷ rest))
      → All (λ h. contains h (tail_ids ((blk, ctx) ∷ rest)) ≡ false) (last ∷ keep)
      → new_tail s ((blk, ctx) ∷ rest) ≡ ok s'
      → Reach depth s' last heights
  commit :
      {s : State} {last : Hash} {heights : List ℕ} (h : Hash) (left : List Hash) (s' : State)
      (height : ℕ) (txns : List Txn)
      → Reach depth s last heights
      → commit_ready s ≡ true
      → s.chain_tail ≡ h ∷ left
      → next_to_commit s ≡ ok (s', (height, txns))
      → Reach depth s' h (height ∷ heights)

-- n, n - 1, ..., 1.
abbrev pub countdown : ℕ → List ℕ
countdown zero = []
countdown (suc n) = suc n ∷ countdown n

-- In a run from the start in which every new tail begins on an undecided block or on the last one that
-- was committed, so that none forks off below that, and brings distinct blocks that are not among those
-- that are kept, the heights committed are 1, 2, 3 and so on, with none left out and none repeated, and
-- the undecided blocks are a chain on the last block committed, right above it.
pub committed_in_order :
    {depth : ℕ} {s : State} {last : Hash} {heights : List ℕ}
    → Reach depth s last heights
    → (heights ≡ countdown (length heights)) × IsUndecided s last (length heights + 1)
unfolding new first_height
committed_in_order start = (refl, record { chain = tt; based = ap ok (omega arith) })
committed_in_order
      (tail {s} {last} {heights} keep drop blk ctx rest s' before split linked distinct apart
        runs) =
    let (counted, u) = committed_in_order before in
    let (after, does, _, u') =
      new_tail_reorg s last (length heights + 1) keep drop blk ctx rest u split linked distinct
        apart in
    let same : after ≡ s' = ok-injective (sym does ∙ runs) in
    (counted, subst (λ t. IsUndecided t last (length heights + 1)) same u')
committed_in_order (commit {s} {last} {heights} h left s' height txns before ready is runs) =
    let (counted, u) = committed_in_order before in
    let (after, txns', h', does, _, c) = next_to_commit_lem s last (length heights + 1) u ready in
    let same = ok-injective (sym does ∙ runs) in
    let is_state : after ≡ s' = ap (λ (p : State × (ℕ × List Txn)). p.0) same in
    let is_height : length heights + 1 ≡ height = ap (λ (p : State × (ℕ × List Txn)). p.1.0) same in
    let is_block : h' ≡ h = cc (sym c.taken ∙ is) in
    (
      ap₂ {A = ℕ} {B = List ℕ} ◌∷◌ (omega arith) counted,
      subst₂ (λ t k. IsUndecided t k (suc (length heights) + 1)) is_state is_block
          (subst (λ n. IsUndecided after h' n) (omega arith) c.left),
    )
