-- ===== src/BlockManagement/Bitcoin/Utxo.antt =====
-- The two sets in which `validate_block` keeps how the unspent outputs differ from `self.utxo`: those
-- that are new (`undo_utxo_spent`, then `new_utxos`) and those that are gone (`undo_new_utxo`, then
-- `utxos_spent`). It undoes the old chain on them, and then applies the new one.
use mathlib.Core.List.{reverse}
use cbox.Base.{
  List, [], ◌∷◌, ◌++◌, Option, none, some, Bool, true, false, not, ◌&&◌, Outcome, ok, unwrap,
  assert, ◌>>=◌, ◌>>◌, ◌==◌, nat_eq, list_eq, pair_eq, if◌then◌else◌, ltb, length,
}
use cbox.Base.HashSet.{HashSet, contains, insert, remove}
use cbox.Protocol.{Hash, PubKey, Txn, TxnCtx, BitcoinTxn, Block, BlkCtx, as_bitcoin}
use cbox.BlockManagement.Bitcoin.{Utxo}

pub record Diff : Type 0 where
  pub added : HashSet Utxo
  pub gone : HashSet Utxo

-- The sets, with the transactions undone and not applied again, and those newly applied.
pub record Replay : Type 0 where
  pub diff : Diff
  pub undo_txns : HashSet Hash
  pub txns_applied : HashSet Hash

unfoldable pub with_key : PubKey → List Hash → List Utxo
with_key sender [] = []
with_key sender (h ∷ hs) = (h, sender) ∷ with_key sender hs

-- The outputs that a transaction spends.
unfoldable pub inputs_of : BitcoinTxn → List Utxo
inputs_of (BitcoinTxn.send sender in_utxo _ _ _ _ _ _ _) = with_key sender in_utxo
inputs_of (BitcoinTxn.grant _ _) = []
inputs_of (BitcoinTxn.incentive _ _) = []

-- The outputs that it makes, in the order in which the code takes them.
unfoldable pub outputs_of : Hash → BitcoinTxn → List Utxo
outputs_of id (BitcoinTxn.send sender _ receiver out_utxo remainder _ _ _ _) =
    (if ltb 0 out_utxo then (id, receiver) ∷ [] else [])
    ++ (if ltb 0 remainder then (id, sender) ∷ [] else [])
outputs_of id (BitcoinTxn.grant _ receiver) = (id, receiver) ∷ []
outputs_of id (BitcoinTxn.incentive _ receiver) = (id, receiver) ∷ []

unfoldable pub script_succeeds : BitcoinTxn → Bool
script_succeeds (BitcoinTxn.send _ _ _ _ _ _ _ _ script_succeed) = script_succeed
script_succeeds (BitcoinTxn.grant _ _) = true
script_succeeds (BitcoinTxn.incentive _ _) = true

unfoldable pub is_incentive : BitcoinTxn → Bool
is_incentive (BitcoinTxn.send _ _ _ _ _ _ _ _ _) = false
is_incentive (BitcoinTxn.grant _ _) = false
is_incentive (BitcoinTxn.incentive _ _) = true

-- Undoing: an input is there again.
unfoldable pub undo_inputs : Diff → List Utxo → Diff
undo_inputs d [] = d
undo_inputs d (u ∷ us) = undo_inputs (record d { added = insert u d.added }) us

-- Undoing: an output is there no more.
unfoldable pub undo_output : Diff → Utxo → Diff
undo_output d u =
    if contains u d.added
    then record d { added = remove u d.added }
    else record d { gone = insert u d.gone }

unfoldable pub undo_outputs : Diff → List Utxo → Diff
undo_outputs d [] = d
undo_outputs d (u ∷ us) = undo_outputs (undo_output d u) us

unfoldable pub undo_txn : Replay → Hash → BitcoinTxn → Replay
undo_txn r id txn = record {
  diff = undo_outputs (undo_inputs r.diff (inputs_of txn)) (outputs_of id txn);
  undo_txns = if is_incentive txn then r.undo_txns else insert id r.undo_txns;
  txns_applied = r.txns_applied;
}

-- Applying: an input must be new and still there, or in `self.utxo` and not yet spent.
unfoldable pub spend : HashSet Utxo → Diff → Utxo → Option Diff
spend utxo d u =
    if contains u d.added
    then some (record d { added = remove u d.added })
    else (if contains u utxo && not (contains u d.gone)
        then some (record d { gone = insert u d.gone })
        else none)

unfoldable pub spend_all : HashSet Utxo → Diff → List Utxo → Option Diff
spend_all utxo d [] = some d
spend_all utxo d (u ∷ us) = elim (spend utxo d u) [ none ↦ none | some d' ↦ spend_all utxo d' us ]

-- Applying: `if !utxos_spent.remove(&utxo) { new_utxos.insert(utxo); }`.
unfoldable pub make_output : Diff → Utxo → Diff
make_output d u =
    if contains u d.gone
    then record d { gone = remove u d.gone }
    else record d { added = insert u d.added }

unfoldable pub make_outputs : Diff → List Utxo → Diff
make_outputs d [] = d
make_outputs d (u ∷ us) = make_outputs (make_output d u) us

unfoldable pub note_applied : Replay → Hash → BitcoinTxn → Diff → Replay
note_applied r id txn d =
    if is_incentive txn
    then record r { diff = d }
    else (if contains id r.undo_txns
        then record r { diff = d; undo_txns = remove id r.undo_txns }
        else record r { diff = d; txns_applied = insert id r.txns_applied })

-- The body of the loop over a new block's transactions: none where the chain is rejected, for a
-- double spending or a script that fails.
unfoldable pub apply_txn : HashSet Utxo → Replay → Hash → BitcoinTxn → Option Replay
apply_txn utxo r id txn = elim (spend_all utxo r.diff (inputs_of txn)) [
  | none ↦ none
  | some d ↦
      if script_succeeds txn
      then some (note_applied r id txn (make_outputs d (outputs_of id txn)))
      else none
]

-- A block's transactions with their contexts; the two lists must be of one length.
abbrev pub zip : List Txn → List TxnCtx → List (Txn × TxnCtx)
zip [] cs = []
zip (t ∷ ts) [] = []
zip (t ∷ ts) (c ∷ cs) = (t, c) ∷ zip ts cs

unfoldable pub zip_txns : Block → BlkCtx → Outcome (List (Txn × TxnCtx))
zip_txns blk ctx = do assert (length blk.txns == length ctx.txn_ctx); ok (zip blk.txns ctx.txn_ctx)

unfoldable pub undo_txns : Replay → List (Txn × TxnCtx) → Outcome Replay
undo_txns r [] = ok r
undo_txns r ((txn, ctx) ∷ rest) = do
  btc ← unwrap (as_bitcoin txn)
  undo_txns (undo_txn r ctx.id btc) rest

-- The old chain's blocks, the newest first, and the transactions of each from the last one on.
unfoldable pub undo_chain : Replay → List (Block × BlkCtx) → Outcome Replay
undo_chain r [] = ok r
undo_chain r ((blk, ctx) ∷ rest) = do
  txns ← zip_txns blk ctx
  r' ← undo_txns r (reverse txns)
  undo_chain r' rest

unfoldable pub apply_txns : HashSet Utxo → Replay → List (Txn × TxnCtx) → Outcome (Option Replay)
apply_txns utxo r [] = ok (some r)
apply_txns utxo r ((txn, ctx) ∷ rest) = do
  btc ← unwrap (as_bitcoin txn)
  elim (apply_txn utxo r ctx.id btc) [ none ↦ ok none | some r' ↦ apply_txns utxo r' rest ]

-- The new chain's blocks, the oldest first.
unfoldable pub apply_chain : HashSet Utxo → Replay → List (Block × BlkCtx) → Outcome (Option Replay)
apply_chain utxo r [] = ok (some r)
apply_chain utxo r ((blk, ctx) ∷ rest) = do
  txns ← zip_txns blk ctx
  applied ← apply_txns utxo r txns
  elim applied [ none ↦ ok none | some r' ↦ apply_chain utxo r' rest ]
