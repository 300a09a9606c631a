-- ===== src/ChainReplication/Replication.antt =====
-- What the head proposes: the transactions leave its pool in order, in batches of the block size.
use cbox.Base.{
  ℕ, zero, suc, ◌++◌, ◌+◌, ◌-◌, ◌≤◌, ◌<◌, ◌%◌, ◌^◌, List, [], ◌∷◌, true, ◌≡◌, refl, ap, ap₂, ◌∙◌,
  ◌⊎◌, inl, inr, ok, nat_eq, if◌then◌else◌, ltb, leb, length, take, drop, drop_of_length-le, map,
  arith, Bool-cases, subst,
}
use cbox.Protocol.{Txn, TxnCtx, Block, BlkCtx, BlockHeader}
use cbox.ChainReplication.Batches.{
  State, CurBlockState, fill, prepare_new_block, batch_block, batch_ctx, proposed, get_new_block,
}
use cbox.ChainReplication.Sizes.{total, total-take, length-drop, total-split, map-split}

-- The batch is the front of the pool, and its size is known.
pub record IsBatched (size_of : Txn → ℕ) (s : State) : Type 0 where
  pub fits : s.curr_batch_len ≤ length s.mem_pool
  pub size : s.curr_batch_size ≡ total size_of (take s.curr_batch_len s.mem_pool)

-- The batch `s'` is the first one, from that of `s` on, that has the size, or it is all of `rest`.
abbrev IsFilled : (Txn → ℕ) → State → List (Txn × TxnCtx) → State × CurBlockState → Type 0
IsFilled size_of s rest (s', blk_full) =
    (n : ℕ) × (n ≤ length rest)
    × (s'.curr_batch_len ≡ s.curr_batch_len + n)
    × (s'.curr_batch_size ≡ s.curr_batch_size + total size_of (take n rest))
    × ((m : ℕ) → m < n → s.curr_batch_size + total size_of (take m rest) < s.block_size)
    × (((blk_full ≡ CurBlockState.full) × (s.block_size ≤ s'.curr_batch_size))
        ⊎ ((blk_full ≡ CurBlockState.empty_mempool) × (n ≡ length rest)))
    × (s'.mem_pool ≡ s.mem_pool)
    × (s'.is_head ≡ s.is_head)
    × (s'.next_blk_id ≡ s.next_blk_id)

below_upto :
    (size_of : Txn → ℕ) (z : Txn × TxnCtx) (rest : List (Txn × TxnCtx)) (start block n : ℕ)
    → ((m : ℕ) → m < n → (start + size_of z.0) + total size_of (take m rest) < block)
    → start < block
    → (m : ℕ) → m < suc n
    → start + total size_of (take m (z ∷ rest)) < block
below_upto size_of z rest start block n first room zero h = omega arith
below_upto size_of z rest start block n first room (suc m) h = omega (arith, first m (omega arith))

fill_lem :
    (size_of : Txn → ℕ) (s : State) (rest : List (Txn × TxnCtx))
    → s.curr_batch_size + total size_of rest < 2 ^ 64
    → IsFilled size_of s rest (fill size_of s rest)
unfolding fill
fill_lem size_of s [] small = elim (Bool-cases (leb s.block_size s.curr_batch_size)) [
  | inl reached ↦ rw reached (
    0,
    omega arith,
    omega arith,
    omega arith,
    λ m h. absurd (omega arith),
    inl (refl, ground arith),
    refl,
    refl,
    refl,
  )
  | inr below ↦ rw below (
    0,
    omega arith,
    omega arith,
    omega arith,
    λ m h. absurd (omega arith),
    inr (refl, refl),
    refl,
    refl,
    refl,
  )
]
fill_lem size_of s ((txn, ctx) ∷ rest) small =
    elim (Bool-cases (leb s.block_size s.curr_batch_size)) [
      | inl reached ↦ rw reached (
        0,
        omega arith,
        omega arith,
        omega arith,
        λ m h. absurd (omega arith),
        inl (refl, ground arith),
        refl,
        refl,
        refl,
      )
      | inr below ↦
          let s₁ : State = record s {
            curr_batch_len = s.curr_batch_len + 1;
            curr_batch_size = (s.curr_batch_size + size_of txn) % 2 ^ 64;
          } in
          let size : s₁.curr_batch_size ≡ s.curr_batch_size + size_of txn = omega arith in
          let (n, le, len, sum, first, last, pool, head, id) =
            fill_lem size_of s₁ rest (omega (arith, size)) in
          rw below (
            suc n,
            omega arith,
            omega arith,
            omega (arith, size),
            below_upto size_of (txn, ctx) rest s.curr_batch_size s.block_size n
                (λ m h. omega (arith, first m h, size)) (ground arith),
            elim last [
              | inl (is, reached) ↦ inl (is, reached)
              | inr (is, all) ↦ inr (is, omega arith)
            ],
            pool,
            head,
            id,
          )
    ]

prepare_new_block-fill :
    (size_of : Txn → ℕ) (s : State)
    → s.is_head ≡ true
    → prepare_new_block size_of s ≡ fill size_of s (drop s.curr_batch_len s.mem_pool)
unfolding prepare_new_block
prepare_new_block-fill size_of s is_head =
    ap
      (λ b.
        if b then fill size_of s (drop s.curr_batch_len s.mem_pool) else (s, CurBlockState.full))
      is_head

get_new_block-eq :
    (p : State)
    → p.is_head ≡ true
    → leb p.curr_batch_len (length p.mem_pool) ≡ true
    → ltb (p.next_blk_id + 1) (2 ^ 256) ≡ true
    → get_new_block p
      ≡ ok (
        proposed p (p.next_blk_id + 1),
        (
          batch_block p (take p.curr_batch_len p.mem_pool),
          batch_ctx p (take p.curr_batch_len p.mem_pool),
        ),
      )
unfolding get_new_block
get_new_block-eq p is_head fits wide = rw fits (rw wide (rw is_head refl))

-- The block `blk` that the head makes from the state `s`, where `s'` is the state after it: it has the
-- next id and the transactions of the front of the pool; it has the block size, or it has the whole pool;
-- no shorter batch than both the one before and this one has the block size.
abbrev pub IsNextBatch : (Txn → ℕ) → State → State → Block → Type 0
IsNextBatch size_of s s' blk =
    (n : ℕ) × (blk.header ≡ BlockHeader.chain_replication s.next_blk_id)
    × (blk.txns ≡ map (λ z. z.0) (take n s.mem_pool))
    × (blk.txns ++ map (λ z. z.0) s'.mem_pool ≡ map (λ z. z.0) s.mem_pool)
    × ((s.block_size ≤ total size_of (take n s.mem_pool)) ⊎ (s'.mem_pool ≡ []))
    × ((m : ℕ) → s.curr_batch_len ≤ m → m < n → total size_of (take m s.mem_pool) < s.block_size)
    × (s'.next_blk_id ≡ s.next_blk_id + 1)

module _ (size_of : Txn → ℕ) where
  -- `prepare_new_block` and then `get_new_block`, on the head, where the batch is the front of the pool
  -- with its size, the whole pool's size fits 64 bits, and the next id is less than 2^256 - 1: the calls
  -- succeed, and the block is the front of the pool, the shortest one from the old batch on that has the
  -- block size, or all of the pool if there is none; the rest of the pool stays, in its order, with a new
  -- empty batch.
  pub get_new_block-IsNextBatch :
      (s : State)
      → s.is_head ≡ true
      → IsBatched size_of s
      → total size_of s.mem_pool < 2 ^ 64
      → ltb (s.next_blk_id + 1) (2 ^ 256) ≡ true
      → (s' : State) × (blk : Block) × (ctx : BlkCtx) × (get_new_block
            (prepare_new_block size_of s).0
          ≡ ok (s', (blk, ctx)))
        × IsNextBatch size_of s s' blk
        × (ctx.id ≡ s.next_blk_id)
        × IsBatched size_of s'
  unfolding proposed batch_block batch_ctx
  get_new_block-IsNextBatch s is_head batched small wide =
      let pool = s.mem_pool in
      let rest = drop s.curr_batch_len pool in
      let (k, le, len, sum, first, last, same_pool, same_head, same_id) =
        fill_lem size_of s rest
          (omega (arith, batched.size, total-split size_of s.curr_batch_len pool)) in
      let n = s.curr_batch_len + k in
      let p = (fill size_of s rest).0 in
      let sum' = total-take size_of s.curr_batch_len k pool in
      let within : leb n (length pool) ≡ true =
        ground (arith, length-drop s.curr_batch_len pool batched.fits) in
      let within' : leb p.curr_batch_len (length p.mem_pool) ≡ true =
        ap₂ (λ l q. leb l (length q)) len same_pool ∙ within in
      let wide' : ltb (p.next_blk_id + 1) (2 ^ 256) ≡ true =
        ap (λ i. ltb (i + 1) (2 ^ 256)) same_id ∙ wide in
      let blk = batch_block p (take p.curr_batch_len p.mem_pool) in
      let txns : blk.txns ≡ map (λ z. z.0) (take n pool) =
        ap₂ (λ l q. map (λ z. z.0) (take l q)) len same_pool in
      let left : (proposed p (p.next_blk_id + 1)).mem_pool ≡ drop n pool = ap₂ drop len same_pool in
      (
        proposed p (p.next_blk_id + 1),
        blk,
        batch_ctx p (take p.curr_batch_len p.mem_pool),
        ap (λ r. get_new_block r.0) (prepare_new_block-fill size_of s is_head)
            ∙ get_new_block-eq p (same_head ∙ is_head) within' wide',
        (
          n,
          ap BlockHeader.chain_replication same_id,
          txns,
          ap₂ (λ x y. x ++ map (λ z. z.0) y) txns left ∙ map-split n pool,
          elim last [
            | inl (is, reached) ↦ inl (omega (arith, sum', sum, batched.size))
            | inr (is, all) ↦ inr (
                left
                ∙ drop_of_length-le n pool
                    (omega (arith, length-drop s.curr_batch_len pool batched.fits)))
          ],
          λ m old new.
              let is_m : s.curr_batch_len + (m - s.curr_batch_len) ≡ m = omega arith in
              subst (λ i. total size_of (take i pool) < s.block_size) is_m
                (omega (
                  arith,
                  total-take size_of s.curr_batch_len (m - s.curr_batch_len) pool,
                  first (m - s.curr_batch_len) (omega arith),
                  batched.size,
                )),
          ap (λ i. i + 1) same_id,
        ),
        same_id,
        record { fits = omega arith; size = refl },
      )
