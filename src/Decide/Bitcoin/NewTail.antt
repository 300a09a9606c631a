-- ===== src/Decide/Bitcoin/NewTail.antt =====
-- `new_tail` replaces the overwritten end of the undecided chain by the new blocks.
use mathlib.Core.List.{reverse, reverse-append, reverse-cons, reverse-reverse}
use cbox.Base.{
  ℕ, suc, ◌+◌, ◌≤◌, List, [], ◌∷◌, ◌++◌, some, Bool, true, false, ◌≡◌, refl, ap, ◌∙◌, ok, All,
  length, nat_eq, arith, if◌then◌else◌, subst, add-zero, All-append, All-map,
}
use cbox.Base.HashMap.{get}
use cbox.Base.HashSet.{contains, IsDistinct}
use cbox.Protocol.{Hash, Block, BlkCtx, prev_hash_of}
use cbox.Decide.Bitcoin.{State, BlockPool, first_height, prune, record_tail, tail_ids, new_tail}
use cbox.Decide.Bitcoin.Chain.{
  IsAt, IsChain, IsLinked, IsHigh, tip, IsChain-append, IsChain-split, IsChain-IsHigh,
  IsChain-agree, get-record_tail, record_tail-IsChain,
}

-- The undecided blocks are a chain on `parent`, the first of them at `height`, where the code too
-- puts a block on this parent.
pub record IsUndecided (s : State) (parent : Hash) (height : ℕ) : Type 0 where
  pub chain : IsChain s.block_pool parent height s.chain_tail
  pub based : first_height s.block_pool parent ≡ ok height

All-reverse : (P : Hash → Type 0) (hs : List Hash) → All P hs → All P (reverse hs)
All-reverse P [] all = tt
All-reverse P (h ∷ hs) all =
    rw reverse-cons (All-append P (reverse hs) (h ∷ []) (All-reverse P hs all.1) (all.0, tt))

-- Read from the back, a chain begins with its tip.
reverse-tip :
    (h : Hash) (hs : List Hash) → (rest : List Hash) × (reverse (h ∷ hs) ≡ tip h hs ∷ rest)
reverse-tip h [] = ([], refl)
reverse-tip h (k ∷ hs) =
    let (rest, split) = reverse-tip k hs in
    (rest ++ h ∷ [], reverse-cons h (k ∷ hs) ∙ ap (λ l. l ++ h ∷ []) split)

module _ (pool : BlockPool) where
  module _ (ancester : Hash) (first : ℕ) (h : Hash) (rest : List Hash) where
    prune-pop :
        (e : Block × BlkCtx × ℕ)
        → get h pool ≡ some e
        → first ≤ e.2
        → prune pool ancester first (h ∷ rest) ≡ prune pool ancester first rest
    unfolding prune
    prune-pop e found high = ground arith

    prune-stop :
        (e : Block × BlkCtx × ℕ)
        → get h pool ≡ some e
        → first ≡ e.2 + 1
        → h ≡ ancester
        → prune pool ancester first (h ∷ rest) ≡ ok (h ∷ rest, false)
    unfolding prune
    prune-stop e found next same = ground arith

  prune_high :
      (ancester : Hash) (first : ℕ) (hs rest : List Hash)
      → All (IsHigh pool first) hs
      → prune pool ancester first (hs ++ rest) ≡ prune pool ancester first rest
  prune_high ancester first [] rest high = refl
  prune_high ancester first (h ∷ hs) rest ((e, found, le), high) =
      prune-pop ancester first h (hs ++ rest) e found le ∙ prune_high ancester first hs rest high

  tip-IsAt :
      (parent : Hash) (height : ℕ) (h : Hash) (hs : List Hash)
      → IsChain pool parent height (h ∷ hs)
      → (grand : Hash) × IsAt pool grand (height + length hs) (tip h hs)
  tip-IsAt parent height h [] c = (parent, rw add-zero c.0)
  tip-IsAt parent height h (k ∷ hs) c =
      let (grand, at) = tip-IsAt h (height + 1) k hs c.1 in
      (grand, subst (λ n. IsAt pool grand n (tip k hs)) (omega arith) at)

  -- A block on the tip of a chain stands right above it.
  first_height-tip :
      (parent : Hash) (height : ℕ) (hs : List Hash)
      → first_height pool parent ≡ ok height
      → IsChain pool parent height hs
      → first_height pool (tip parent hs) ≡ ok (height + length hs)
  unfolding first_height
  first_height-tip parent height [] based c = rw add-zero based
  first_height-tip parent height (h ∷ hs) based c =
      let (grand, at) = tip-IsAt parent height h hs c in
      rw at.real (rw at.found (ap (λ (n : ℕ). ok n) (omega arith)))

  -- What is left of a chain is found to be whole.
  prune_kept :
      (parent : Hash) (height : ℕ) (hs : List Hash)
      → IsChain pool parent height hs
      → (emptied : Bool) × (prune pool (tip parent hs) (height + length hs) (reverse hs)
          ≡ ok (reverse hs, emptied))
  unfolding prune
  prune_kept parent height [] c = (true, refl)
  prune_kept parent height (h ∷ hs) c =
      let (rest, split) = reverse-tip h hs in
      let (grand, at) = tip-IsAt parent height h hs c in
      (
        false,
        rw split (
            prune-stop (tip h hs) (height + suc (length hs)) (tip h hs) rest
              (at.block, at.ctx, height + length hs) at.found (omega arith) refl),
      )

module _ (s : State) (parent : Hash) (height : ℕ) (keep drop : List Hash) (blk : Block)
    (ctx : BlkCtx) (rest : List (Block × BlkCtx)) where
  abbrev new_ids : List Hash
  new_ids = tail_ids ((blk, ctx) ∷ rest)

  -- The state after the new blocks have taken the place of `drop`.
  abbrev replaced : Bool → State
  replaced emptied = record s {
    block_pool = record_tail s.block_pool (height + length keep) ((blk, ctx) ∷ rest);
    chain_tail = keep ++ new_ids;
    first_block_seen = if emptied then true else s.first_block_seen;
  }

  new_tail-replaced :
      IsUndecided s parent height
      → s.chain_tail ≡ keep ++ drop
      → prev_hash_of blk.header ≡ ok (tip parent keep)
      → (emptied : Bool) × (new_tail s ((blk, ctx) ∷ rest) ≡ ok (replaced emptied))
  unfolding new_tail
  new_tail-replaced u split on =
      let (kept, dropped) =
        IsChain-split s.block_pool parent height keep drop
          (subst (IsChain s.block_pool parent height) split u.chain) in
      let n = height + length keep in
      let back : reverse s.chain_tail ≡ reverse drop ++ reverse keep =
        ap reverse split ∙ reverse-append keep drop in
      let high =
        All-reverse (IsHigh s.block_pool n) drop
          (IsChain-IsHigh s.block_pool n (tip parent keep) n drop (omega arith) dropped) in
      let (emptied, stops) = prune_kept s.block_pool parent height keep kept in
      (
        emptied,
        rw on (
            rw (first_height-tip s.block_pool parent height keep u.based kept) (
              rw back (
                rw (prune_high s.block_pool (tip parent keep) n (reverse drop) (reverse keep) high)
                  (rw stops (rw reverse-reverse))))),
      )

  -- Where the new blocks, whose ids are not 0, are a chain that begins on a block of the undecided
  -- chain, or on the parent of that chain, and where no two of them are the same and none is that
  -- parent or among the blocks up to there, `new_tail` keeps the chain up to that block, drops the rest,
  -- and puts the new blocks there. It does not panic, and what it leaves is again a chain on the same
  -- parent.
  pub new_tail_reorg :
      IsUndecided s parent height
      → s.chain_tail ≡ keep ++ drop
      → IsLinked (tip parent keep) ((blk, ctx) ∷ rest)
      → IsDistinct new_ids
      → All (λ h. contains h new_ids ≡ false) (parent ∷ keep)
      → (s' : State) × (new_tail s ((blk, ctx) ∷ rest) ≡ ok s')
        × (s'.chain_tail ≡ keep ++ new_ids)
        × IsUndecided s' parent height
  unfolding first_height
  new_tail_reorg u split linked distinct apart =
      let n = height + length keep in
      let bs = (blk, ctx) ∷ rest in
      let pool' = record_tail s.block_pool n bs in
      let (kept, dropped) =
        IsChain-split s.block_pool parent height keep drop
          (subst (IsChain s.block_pool parent height) split u.chain) in
      let (emptied, runs) = new_tail-replaced u split linked.0 in
      (
        replaced emptied,
        runs,
        refl,
        record {
          chain =
              IsChain-append pool' parent height keep new_ids
                (IsChain-agree s.block_pool pool' parent height keep
                  (All-map (λ h. contains h new_ids ≡ false) (λ h. get h pool' ≡ get h s.block_pool)
                    keep (λ h. get-record_tail bs s.block_pool n h) apart.1)
                  kept)
                (record_tail-IsChain bs s.block_pool (tip parent keep) n linked distinct);
          based = rw (get-record_tail bs s.block_pool n parent apart.0) u.based;
        },
      )
