-- ===== src/Decide/Bitcoin/Chain.antt =====
-- Chains of blocks in the block pool: each block on the one before it, at the next height.
use cbox.Base.{
  ℕ, ◌+◌, ◌≤◌, List, [], ◌∷◌, ◌++◌, some, false, ◌≡◌, refl, ◌∙◌, ok, All, length, nat_eq, arith,
  ◌==◌, subst, add-zero,
}
use cbox.Base.HashMap.{get, insert, get-insert}
use cbox.Base.HashSet.{contains, IsDistinct}
use cbox.Protocol.{Hash, Block, BlkCtx, prev_hash_of}
use cbox.Decide.Bitcoin.{BlockPool, record_tail, tail_ids}

-- The pool has this block at this height, on this parent. Zero is no block's hash.
pub record IsAt (pool : BlockPool) (parent : Hash) (height : ℕ) (h : Hash) : Type 0 where
  pub block : Block
  pub ctx : BlkCtx
  pub found : get h pool ≡ some (block, ctx, height)
  pub on_parent : prev_hash_of block.header ≡ ok parent
  pub real : (h == 0) ≡ false

abbrev pub IsChain : BlockPool → Hash → ℕ → List Hash → Type 0
IsChain pool parent height [] = Unit
IsChain pool parent height (h ∷ hs) = IsAt pool parent height h × IsChain pool h (height + 1) hs

-- The last block of a chain on this parent.
abbrev pub tip : Hash → List Hash → Hash
tip parent [] = parent
tip parent (h ∷ hs) = tip h hs

module _ (pool : BlockPool) where
  pub IsChain-append :
      (parent : Hash) (height : ℕ) (hs ks : List Hash)
      → IsChain pool parent height hs
      → IsChain pool (tip parent hs) (height + length hs) ks
      → IsChain pool parent height (hs ++ ks)
  IsChain-append parent height [] ks c d = rw add-zero at d
  IsChain-append parent height (h ∷ hs) ks c d = (
    c.0,
    IsChain-append h (height + 1) hs ks c.1
        (subst (λ n. IsChain pool (tip h hs) n ks) (omega arith) d),
  )

  pub IsChain-split :
      (parent : Hash) (height : ℕ) (hs ks : List Hash)
      → IsChain pool parent height (hs ++ ks)
      → IsChain pool parent height hs × IsChain pool (tip parent hs) (height + length hs) ks
  IsChain-split parent height [] ks c = (tt, rw add-zero c)
  IsChain-split parent height (h ∷ hs) ks c =
      let (l, r) = IsChain-split h (height + 1) hs ks c.1 in
      ((c.0, l), subst (λ n. IsChain pool (tip h hs) n ks) (omega arith) r)

  -- The pool has the block, no lower than this.
  abbrev pub IsHigh : ℕ → Hash → Type 0
  IsHigh height h = (e : Block × BlkCtx × ℕ) × (get h pool ≡ some e) × (height ≤ e.2)

  pub IsChain-IsHigh :
      (low : ℕ) (parent : Hash) (height : ℕ) (hs : List Hash)
      → low ≤ height
      → IsChain pool parent height hs
      → All (IsHigh low) hs
  IsChain-IsHigh low parent height [] le c = tt
  IsChain-IsHigh low parent height (h ∷ hs) le c = (
    ((c.0.block, c.0.ctx, height), c.0.found, le),
    IsChain-IsHigh low h (height + 1) hs (omega arith) c.1,
  )

-- Other blocks do not matter to a chain.
pub IsChain-agree :
    (pool pool' : BlockPool) (parent : Hash) (height : ℕ) (hs : List Hash)
    → All (λ h. get h pool' ≡ get h pool) hs
    → IsChain pool parent height hs
    → IsChain pool' parent height hs
IsChain-agree pool pool' parent height [] same c = tt
IsChain-agree pool pool' parent height (h ∷ hs) same c = (
  record {
    block = c.0.block;
    ctx = c.0.ctx;
    found = same.0 ∙ c.0.found;
    on_parent = c.0.on_parent;
    real = c.0.real;
  },
  IsChain-agree pool pool' h (height + 1) hs same.1 c.1,
)

-- Blocks as `new_tail` gets them: each on the one before it, and none with the hash zero, which
-- stands for the parent of a chain's first block.
abbrev pub IsLinked : Hash → List (Block × BlkCtx) → Type 0
IsLinked parent [] = Unit
IsLinked parent ((blk, ctx) ∷ rest) =
    (prev_hash_of blk.header ≡ ok parent) × ((ctx.id == 0) ≡ false) × IsLinked ctx.id rest

pub get-record_tail :
    (bs : List (Block × BlkCtx)) (pool : BlockPool) (height : ℕ) (h : Hash)
    → contains h (tail_ids bs) ≡ false
    → get h (record_tail pool height bs) ≡ get h pool
unfolding record_tail contains
get-record_tail [] pool height h other = refl
get-record_tail ((blk, ctx) ∷ rest) pool height h other =
    get-record_tail rest (insert ctx.id (blk, ctx, height) pool) (height + 1) h (ground arith)
    ∙ ground (arith, get-insert ctx.id h (blk, ctx, height) pool)

-- What `record_tail` puts into the pool is a chain there.
pub record_tail-IsChain :
    (bs : List (Block × BlkCtx)) (pool : BlockPool) (parent : Hash) (height : ℕ)
    → IsLinked parent bs
    → IsDistinct (tail_ids bs)
    → IsChain (record_tail pool height bs) parent height (tail_ids bs)
unfolding record_tail
record_tail-IsChain [] pool parent height linked distinct = tt
record_tail-IsChain ((blk, ctx) ∷ rest) pool parent height linked distinct =
    let pool' = insert ctx.id (blk, ctx, height) pool in
    (
      record {
        block = blk;
        ctx = ctx;
        found =
            get-record_tail rest pool' (height + 1) ctx.id distinct.0
            ∙ ground (arith, get-insert ctx.id ctx.id (blk, ctx, height) pool);
        on_parent = linked.0;
        real = linked.1;
      },
      record_tail-IsChain rest pool' ctx.id (height + 1) linked.2 distinct.1,
    )
