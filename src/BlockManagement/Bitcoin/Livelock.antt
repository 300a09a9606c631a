-- ===== src/BlockManagement/Bitcoin/Livelock.antt =====
-- The loop of `prepare_new_block` when no pending transaction can enter the block.
use cbox.Base.{
  ℕ, zero, suc, List, [], ◌∷◌, ◌++◌, some, Bool, false, ◌≡◌, ◌≢◌, refl, sym, ◌&&◌, ok, stuck,
  nat_eq, list_eq, pair_eq, ltb, All, All-append, arith, ◌||◌, subst,
}
use cbox.Base.HashMap.{get}
use cbox.Protocol.{Hash, Txn, TxnCtx, BitcoinTxn, as_bitcoin}
use cbox.BlockManagement.Bitcoin.{Utxo, State}
use cbox.BlockManagement.Bitcoin.Utxo.{inputs_of, script_succeeds, is_incentive}
use cbox.BlockManagement.Bitcoin.Propose.{
  max_block_size, is_available, all_available, defer, try_txn, fill, prepare_new_block,
}

-- The transaction of this hash is a client's one, and cannot enter the block: one of its inputs is
-- not there, or its script fails.
abbrev pub IsRefused : State → Hash → Type 0
IsRefused s h =
    (txn : Txn) × (ctx : TxnCtx) × (btc : BitcoinTxn) × (get h s.txn_pool ≡ some (txn, ctx))
    × (as_bitcoin txn ≡ some btc)
    × (is_incentive btc ≡ false)
    × ((all_available s (inputs_of btc) && script_succeeds btc) ≡ false)

all_available-queue :
    (s : State) (q : List Hash) (us : List Utxo)
    → all_available (record s { pending_txns = q }) us ≡ all_available s us
unfolding all_available is_available
all_available-queue s q [] = refl
all_available-queue s q (u ∷ us) = ground (arith, all_available-queue s q us)

module _ (size_of : Txn → ℕ) where
  try_txn-refused :
      (s : State) (q : List Hash) (h : Hash)
      → IsRefused s h
      → try_txn size_of (record s { pending_txns = q }) h
        ≡ ok (defer (record s { pending_txns = q }) h, false)
  unfolding try_txn
  try_txn-refused s q h (txn, ctx, btc, found, is_btc, client, refused) =
      rw found
        (rw is_btc (rw client (rw (all_available-queue s q (inputs_of btc)) (rw refused refl))))

  fill-stuck :
      (fuel : ℕ) (s : State) (h : Hash) (q : List Hash) (modified : Bool)
      → ltb max_block_size s.block_size ≡ false
      → All (IsRefused s) (h ∷ q)
      → fill size_of fuel (record s { pending_txns = h ∷ q }) modified ≡ stuck
  unfolding fill defer
  fill-stuck zero s h q modified room refused = refl
  fill-stuck (suc fuel) s h [] modified room refused = rw room (
      rw (try_txn-refused s [] h refused.0)
        (fill-stuck fuel s h [] (modified || false) room refused))
  fill-stuck (suc fuel) s h (j ∷ q) modified room refused = rw room (
      rw (try_txn-refused s (j ∷ q) h refused.0) (
        fill-stuck fuel s j (q ++ h ∷ []) (modified || false) room
          (refused.1.0, All-append (IsRefused s) q (h ∷ []) refused.1.1 (refused.0, tt))))

  -- When the block under construction is not over its size limit, the queue is not empty and no
  -- transaction in it can enter the block (an input is not there, or its script fails), the loop of
  -- `prepare_new_block` never ends: whatever the fuel, it is used up.
  pub prepare_new_block-livelock :
      (s : State) (merkle_root : Hash) (pow_time : ℕ × ℕ)
      → ltb max_block_size s.block_size ≡ false
      → s.pending_txns ≢ []
      → All (IsRefused s) s.pending_txns
      → (fuel : ℕ) → prepare_new_block size_of fuel s merkle_root pow_time ≡ stuck
  unfolding prepare_new_block
  prepare_new_block-livelock s root pow room waits refused fuel =
      rw (go s.pending_txns refl waits refused) refl
    where
      go :
          (q : List Hash)
          → s.pending_txns ≡ q
          → q ≢ []
          → All (IsRefused s) q
          → fill size_of fuel s false ≡ stuck
      go [] is some_wait each = absurd (some_wait refl)
      go (h ∷ q) is some_wait each =
          subst (λ p. fill size_of fuel (record s { pending_txns = p }) false ≡ stuck) (sym is)
            (fill-stuck fuel s h q false room each)
