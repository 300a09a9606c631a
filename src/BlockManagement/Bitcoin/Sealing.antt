-- ===== src/BlockManagement/Bitcoin/Sealing.antt =====
-- The block that `get_new_block` makes of what was built.
use cbox.Base.{
  ℕ, ◌+◌, List, [], ◌∷◌, some, ◌≡◌, refl, ap, Outcome, ok, suc, nat_eq, list_eq, pair_eq, arith,
  eq_refl, map, length,
}
use cbox.Base.HashMap.{get, get-insert}
use cbox.Base.HashSet.{contains, extend, contains-extend, contains-retain_not}
use cbox.Protocol.{Hash, Txn, TxnCtx, BitcoinTxn, Block, BlkCtx, BlockHeader}
use cbox.BlockManagement.Bitcoin.{State, TxnPool, get_chain_length}
use cbox.BlockManagement.Bitcoin.Utxo.{zip, zip_txns}
use cbox.BlockManagement.Bitcoin.Ledger.{Ledger}
use cbox.BlockManagement.Bitcoin.Reorg.{ReadsTxns, Holds}
use cbox.BlockManagement.Bitcoin.Propose.{is_available, collect, proposed, get_new_block}
use cbox.BlockManagement.Bitcoin.Building.{Pooled, Builds}

-- The transactions of the block are those of the queue, in their order.
collect-Pooled :
    (pool : TxnPool) (hs : List Hash) (ts : List (Hash × BitcoinTxn))
    → Pooled pool hs ts
    → (zs : List (Txn × TxnCtx)) × (collect pool hs ≡ ok zs) × ReadsTxns zs ts
unfolding collect
collect-Pooled pool [] [] each = ([], refl, tt)
collect-Pooled pool [] (t ∷ ts) each = absurd each
collect-Pooled pool (h ∷ hs) [] each = absurd each
collect-Pooled pool (h ∷ hs) (t ∷ ts) ((txn, ctx, found, is_btc, is_id, is_key), each) =
    let (zs, collects, reads) = collect-Pooled pool hs ts each in
    ((txn, ctx) ∷ zs, rw found (rw collects refl), (is_btc, is_id, reads))

zip-map :
    (zs : List (Txn × TxnCtx))
    → (zip (map (λ e. e.0) zs) (map (λ e. e.1) zs) ≡ zs)
      × (length (map {B = Txn} (λ e. e.0) zs) ≡ length (map {B = TxnCtx} (λ e. e.1) zs))
zip-map [] = (refl, refl)
zip-map (z ∷ zs) = (ap (λ r. z ∷ r) (zip-map zs).0, ap suc (zip-map zs).1)

module _ (header_id : BlockHeader → Outcome Hash) where
  -- When the block under construction has transactions `ts` that lead from the ledger `V` to `W`, the
  -- Merkle root and the proof of work are there, the header has an id, and the tail's height is known,
  -- `get_new_block` returns a block with exactly the transactions `ts`, on the tail and with their ids
  -- as contexts, which becomes the tail at the next height; the node then holds the ledger `W`, and the
  -- next block starts from it with no transactions.
  pub get_new_block-Builds :
      (s : State) (V W : Ledger) (ts : List (Hash × BitcoinTxn)) (root hash : Hash) (pow : ℕ × ℕ)
      (chain_length : ℕ)
      → Builds V W ts s
      → s.merkle_root ≡ some root
      → s.pow_time ≡ some pow
      → header_id (BlockHeader.bitcoin s.id s.chain_tail root 1) ≡ ok hash
      → get_chain_length s ≡ ok chain_length
      → (s' : State) × (block : Block) × (ctx : BlkCtx) × (zs : List (Txn × TxnCtx))
        × (get_new_block header_id s ≡ ok (s', (block, ctx)))
        × (block.header ≡ BlockHeader.bitcoin s.id s.chain_tail root 1)
        × (zip_txns block ctx ≡ ok zs)
        × ReadsTxns zs ts
        × (s'.chain_tail ≡ hash)
        × (get hash s'.block_pool ≡ some (block, ctx, chain_length + 1))
        × Holds s' W
        × Builds W W [] s'
  unfolding get_new_block zip_txns proposed is_available contains
  get_new_block-Builds s V W ts root hash pow chain_length builds has_root has_pow has_id has_len =
      let (zs, collects, reads) =
        collect-Pooled s.txn_pool s.block_under_construction ts builds.pooled in
      let ctx : BlkCtx = record { id = hash; txn_ctx = map (λ e. e.1) zs } in
      let block : Block = record {
        header = BlockHeader.bitcoin s.id s.chain_tail root 1;
        txns = map (λ e. e.0) zs;
      } in
      let holds : Holds (proposed s hash block ctx (chain_length + 1)) W = λ x. ground (
        arith,
        contains-retain_not x s.utxo_spent (extend s.utxo s.new_utxo),
        contains-extend x s.utxo s.new_utxo,
        builds.same x,
      ) in
      (
        proposed s hash block ctx (chain_length + 1),
        block,
        ctx,
        zs,
        rw collects (rw has_len (rw has_root (rw has_id (rw has_pow refl)))),
        refl,
        rw (zip-map zs).1
            (rw (eq_refl (length (map {B = TxnCtx} (λ e. e.1) zs))) (ap ok (zip-map zs).0)),
        reads,
        refl,
        ground
            (arith, get-insert hash hash (block, ctx, chain_length + 1) s.block_pool, eq_refl hash),
        holds,
        record { pooled = tt; pays = refl; same = λ x. ground (arith, holds x) },
      )
