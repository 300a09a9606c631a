-- ===== src/TxnValidation/Avalanche.antt =====
-- src/stage/txn_validation/avalanche/basic.rs: AvalancheTxnValidation. The `Noop` and the
-- `PlaceHolder` are `unreachable!` there, both as a client's transaction and as an input.
use cbox.Base.{
  ℕ, List, Option, none, some, true, Outcome, ok, panic, unwrap, ◌>>=◌, ◌==◌, nat_eq, list_eq,
  if◌then◌else◌,
}
use cbox.Protocol.{PubKey, Txn, AvalancheTxn, as_avalanche}
use cbox.TxnValidation.Pool.{TxnPool, State, Entry, Verdict, verdict}
use cbox.TxnValidation.Pool
use cbox.TxnValidation.Ledger.{validate_send}

-- What a transaction in the pool is worth to `sender` as an input, if it is the sender's at all.
unfoldable pub value_for : PubKey → AvalancheTxn → Outcome (Option ℕ)
value_for sender (AvalancheTxn.grant out_utxo receiver _) =
    ok (if receiver == sender then some out_utxo else none)
value_for sender (AvalancheTxn.send parent_sender _ parent_recver out_utxo remainder _) = ok (
    if parent_recver == sender
    then some out_utxo
    else (if parent_sender == sender then some remainder else none))
value_for sender (AvalancheTxn.noop _) = panic
value_for sender AvalancheTxn.place_holder = panic

unfoldable pub validate_txn : TxnPool → AvalancheTxn → Outcome Verdict
validate_txn pool (AvalancheTxn.send sender in_utxo _ out_utxo remainder _) =
    validate_send as_avalanche value_for pool sender in_utxo out_utxo remainder
validate_txn pool (AvalancheTxn.grant _ _ _) = ok (verdict true)
validate_txn pool (AvalancheTxn.noop _) = panic
validate_txn pool AvalancheTxn.place_holder = panic

unfoldable pub check : TxnPool → Txn → Outcome Verdict
check pool txn = do avax_txn ← unwrap (as_avalanche txn); validate_txn pool avax_txn

-- `validate`, with fuel for the depth of `validate_inner`.
unfoldable pub validate : ℕ → State → List Entry → Outcome (State × List Entry)
validate = Pool.validate check
