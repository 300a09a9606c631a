-- ===== src/BlockManagement/Bitcoin/Validate.antt =====
-- `validate_block` and what it calls. Loops that follow hashes run on fuel. The waiting that stands
-- for work (`process_illusion`, `sleep`) and the logs are left out.
use mathlib.Core.List.{reverse}
use cbox.Base.{
  ℕ, zero, suc, ◌+◌, ◌-◌, List, [], ◌∷◌, ◌++◌, none, some, Bool, true, false, not, ◌&&◌, length,
  Outcome, ok, stuck, unwrap, assert, ◌>>=◌, ◌>>◌, ◌==◌, nat_eq, list_eq, pair_eq, if◌then◌else◌,
  ltb, leb,
}
use cbox.Base.HashMap.{HashMap, get, contains_key, get_or_empty}
use cbox.Base.HashMap
use cbox.Base.HashSet.{HashSet}
use cbox.Base.HashSet
use cbox.Protocol.{
  Hash, Txn, TxnCtx, Block, BlkCtx, as_bitcoin, prev_hash_of, nonce_of, merkle_root_of,
  merkle_verify,
}
use cbox.BlockManagement.Bitcoin.{State, TxnPool, BlockPool, get_chain_length, validate_txn}
use cbox.BlockManagement.Bitcoin.Utxo.{Replay, zip_txns, undo_chain, apply_chain}

-- What a call hands on: the blocks of a new chain, and the hashes asked of the peers by `gossip`.
pub record Answer : Type 0 where
  pub new_chain : List (Block × BlkCtx)
  pub requests : List Hash

abbrev pub nothing : Answer
nothing = record { new_chain = []; requests = [] }

-- The loop that validates the block's transactions and takes the new ones into the pool, which keeps
-- them also where a later one is not valid.
unfoldable pub validate_txns : TxnPool → List (Txn × TxnCtx) → Outcome (TxnPool × Bool)
validate_txns pool [] = ok (pool, true)
validate_txns pool ((txn, ctx) ∷ rest) = do
  btc ← unwrap (as_bitcoin txn)
  elim (contains_key ctx.id pool) [
    | true ↦ validate_txns pool rest
    | false ↦ do
      valid ← validate_txn pool btc
      elim valid [
        | true ↦ validate_txns (HashMap.insert ctx.id (txn, ctx) pool) rest
        | false ↦ ok (pool, false)
      ]
  ]

-- The height above this parent, or 0 where the parent or its height is not known.
unfoldable pub height_above : BlockPool → Hash → ℕ
height_above pool prev_hash = if prev_hash == 0 then 1 else (elim (get prev_hash pool) [
  | none ↦ 0
  | some (_, _, parent_height) ↦ if ltb 0 parent_height then parent_height + 1 else 0
])

-- The loop that looks for the first ancestor that is not in the pool.
unfoldable pub missing_ancestor : ℕ → BlockPool → Hash → Outcome Hash
missing_ancestor zero pool parent = stuck
missing_ancestor (suc fuel) pool parent = do
  assert (not (parent == 0))
  elim (get parent pool) [
    | none ↦ ok parent
    | some (blk, _, height) ↦ do
      assert (height == 0)
      prev_hash ← prev_hash_of blk.header
      missing_ancestor fuel pool prev_hash
  ]

-- What `update_orphans_and_return_tail` works on, and what it returns.
pub record Forest : Type 0 where
  pub block_pool : BlockPool
  pub orphan_blocks : HashMap Hash (HashSet Hash)

unfoldable pub set_height : Hash → ℕ → BlockPool → Outcome BlockPool
set_height h height pool = do
  (blk, ctx, _) ← unwrap (get h pool)
  ok (HashMap.insert h (blk, ctx, height) pool)

-- The loop over the children, with the recursive call as `update`.
unfoldable pub update_children :
    (Forest → Hash → ℕ → Outcome (Forest × Hash × ℕ))
    → ℕ
    → Forest
    → List Hash
    → Hash
    → ℕ
    → Outcome (Forest × Hash × ℕ)
update_children update height f [] longest_tail longest_height =
    ok (f, longest_tail, longest_height)
update_children update height f (child ∷ rest) longest_tail longest_height = do
  pool ← set_height child (height + 1) f.block_pool
  (f', tail, tail_height) ← update (record f { block_pool = pool }) child (height + 1)
  let longer = ltb longest_height tail_height
  update_children update height f' rest (if longer then tail else longest_tail)
      (if longer then tail_height else longest_height)

unfoldable pub update_orphans_and_return_tail : ℕ → Forest → Hash → ℕ → Outcome (Forest × Hash × ℕ)
update_orphans_and_return_tail zero f block_hash height = stuck
update_orphans_and_return_tail (suc fuel) f block_hash height =
    elim (get block_hash f.orphan_blocks) [
      | none ↦ ok (f, block_hash, height)
      | some children ↦
          update_children (update_orphans_and_return_tail fuel) height
            (record f { orphan_blocks = HashMap.remove block_hash f.orphan_blocks }) children
            block_hash height
    ]

-- `while new_tail_ancester_height > chain_length`, by the rounds that it has to go.
unfoldable pub climb :
    ℕ → BlockPool → Hash → ℕ → List (Block × BlkCtx) → Outcome (List (Block × BlkCtx) × Hash)
climb zero pool ancester height new_chain = ok (new_chain, ancester)
climb (suc rounds) pool ancester height new_chain = do
  (parent, ctx, parent_height) ← unwrap (get ancester pool)
  assert (height == parent_height)
  prev_hash ← prev_hash_of parent.header
  climb rounds pool prev_hash (height - 1) (new_chain ++ (parent, ctx) ∷ [])

-- The loop that goes back along both chains until they meet.
unfoldable pub find_fork :
    ℕ
    → BlockPool
    → Hash
    → Hash
    → List (Block × BlkCtx)
    → List (Block × BlkCtx)
    → Outcome (List (Block × BlkCtx) × List (Block × BlkCtx))
find_fork zero pool new_ancester old_ancester new_chain old_chain = stuck
find_fork (suc fuel) pool new_ancester old_ancester new_chain old_chain =
    elim (new_ancester == old_ancester) [
      | true ↦ ok (new_chain, old_chain)
      | false ↦ do
        (new_parent, new_ctx, new_height) ← unwrap (get new_ancester pool)
        (old_parent, old_ctx, old_height) ← unwrap (get old_ancester pool)
        assert (new_height == old_height)
        new_prev ← prev_hash_of new_parent.header
        old_prev ← prev_hash_of old_parent.header
        find_fork fuel pool new_prev old_prev (new_chain ++ (new_parent, new_ctx) ∷ [])
            (old_chain ++ (old_parent, old_ctx) ∷ [])
    ]

-- The last part: the new chain is valid, and becomes the node's chain.
unfoldable pub move_over : State → Hash → Replay → State
move_over s new_tail r = record s {
  merkle_root = none;
  pow_time = none;
  pending_txns =
      HashSet.retain_not r.txns_applied
        ((s.pending_txns ++ s.block_under_construction) ++ r.undo_txns);
  block_under_construction = [];
  block_size = 0;
  utxo_spent = [];
  new_utxo = [];
  chain_tail = new_tail;
  utxo = HashSet.retain_not r.diff.gone (HashSet.extend s.utxo r.diff.added);
}

unfoldable pub empty_replay : Replay
empty_replay = record { diff = record { added = []; gone = [] }; undo_txns = []; txns_applied = [] }

-- The change to a longer chain, from the fork on.
unfoldable pub switch_chain :
    State → Hash → List (Block × BlkCtx) → List (Block × BlkCtx) → Outcome (State × Answer)
switch_chain s new_tail new_chain old_chain = do
  undone ← undo_chain empty_replay old_chain
  applied ← apply_chain s.utxo undone (reverse new_chain)
  elim applied [
    | none ↦ ok (s, nothing)
    | some r ↦ ok (move_over s new_tail r, record { new_chain = reverse new_chain; requests = [] })
  ]

-- The block has its height: its descendants get theirs, and the longest chain may be a new one.
unfoldable pub connect : ℕ → State → Hash → ℕ → Outcome (State × Answer)
connect fuel s block_hash blk_height = do
  (f, new_tail, new_tail_height) ←
      update_orphans_and_return_tail fuel
        (record { block_pool = s.block_pool; orphan_blocks = s.orphan_blocks }) block_hash
        blk_height
  let s' = record s { block_pool = f.block_pool; orphan_blocks = f.orphan_blocks }
  (tail_block, tail_ctx, _) ← unwrap (get new_tail f.block_pool)
  tail_parent ← prev_hash_of tail_block.header
  chain_length ← get_chain_length s'
  if leb new_tail_height chain_length then ok (s', nothing) else (do
    (new_chain, ancester) ←
        climb (new_tail_height - 1 - chain_length) f.block_pool tail_parent (new_tail_height - 1)
          ((tail_block, tail_ctx) ∷ [])
    (new_chain', old_chain) ← find_fork fuel f.block_pool ancester s'.chain_tail new_chain []
    switch_chain s' new_tail new_chain' old_chain)

-- The block has no height yet: it is an orphan, and its first missing ancestor is asked for.
unfoldable pub adopt_orphan : ℕ → State → Hash → Hash → Outcome (State × Answer)
adopt_orphan fuel s block_hash prev_hash = do
  let siblings = HashSet.insert block_hash (get_or_empty (get prev_hash s.orphan_blocks))
  let s' = record s { orphan_blocks = HashMap.insert prev_hash siblings s.orphan_blocks }
  parent ← missing_ancestor fuel s.block_pool prev_hash
  ok (s', record { new_chain = []; requests = parent ∷ [] })

unfoldable pub place_block : ℕ → State → Block → BlkCtx → Hash → Outcome (State × Answer)
place_block fuel s block ctx prev_hash =
    let height = height_above s.block_pool prev_hash in
    let s' = record s { block_pool = HashMap.insert ctx.id (block, ctx, height) s.block_pool } in
    if height == 0 then adopt_orphan fuel s' ctx.id prev_hash else connect fuel s' ctx.id height

-- A block that is not in the pool yet.
unfoldable pub validate_new_block : ℕ → State → Block → BlkCtx → Outcome (State × Answer)
validate_new_block fuel s block ctx = do
  prev_hash ← prev_hash_of block.header
  nonce ← nonce_of block.header
  merkle_root ← merkle_root_of block.header
  if nonce == 1 && merkle_verify merkle_root (length block.txns)
      then (do
        txns ← zip_txns block ctx
        (pool, valid) ← validate_txns s.txn_pool txns
        let s' = record s { txn_pool = pool }
        if valid then place_block fuel s' block ctx prev_hash else ok (s', nothing))
      else ok (s, nothing)

unfoldable pub validate_block : ℕ → State → Block → BlkCtx → Outcome (State × Answer)
validate_block fuel s block ctx =
    if contains_key ctx.id s.block_pool
    then ok (s, nothing)
    else validate_new_block fuel s block ctx
