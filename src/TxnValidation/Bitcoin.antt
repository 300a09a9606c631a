-- ===== src/TxnValidation/Bitcoin.antt =====
-- src/stage/txn_validation/bitcoin/basic.rs: BitcoinTxnValidation. A client sends grants and
-- transfers only; an `Incentive` is `unreachable!` there, and so is another chain's transaction.
use cbox.Base.{
  ℕ, List, Option, none, some, true, Outcome, ok, panic, unwrap, ◌>>=◌, ◌==◌, nat_eq, list_eq,
  if◌then◌else◌,
}
use cbox.Protocol.{PubKey, Txn, BitcoinTxn, as_bitcoin}
use cbox.TxnValidation.Pool.{TxnPool, State, Entry, Verdict, verdict}
use cbox.TxnValidation.Pool
use cbox.TxnValidation.Ledger.{validate_send}

-- What a transaction in the pool is worth to `sender` as an input, if it is the sender's at all.
unfoldable pub value_for : PubKey → BitcoinTxn → Outcome (Option ℕ)
value_for sender (BitcoinTxn.grant out_utxo receiver) =
    ok (if receiver == sender then some out_utxo else none)
value_for sender (BitcoinTxn.incentive out_utxo receiver) =
    ok (if receiver == sender then some out_utxo else none)
value_for sender (BitcoinTxn.send parent_sender _ parent_recver out_utxo remainder _ _ _ _) = ok (
    if parent_recver == sender
    then some out_utxo
    else (if parent_sender == sender then some remainder else none))

unfoldable pub validate_txn : TxnPool → BitcoinTxn → Outcome Verdict
validate_txn pool (BitcoinTxn.send sender in_utxo _ out_utxo remainder _ _ _ _) =
    validate_send as_bitcoin value_for pool sender in_utxo out_utxo remainder
validate_txn pool (BitcoinTxn.grant _ _) = ok (verdict true)
validate_txn pool (BitcoinTxn.incentive _ _) = panic

unfoldable pub check : TxnPool → Txn → Outcome Verdict
check pool txn = do btc_txn ← unwrap (as_bitcoin txn); validate_txn pool btc_txn

-- `validate`, with fuel for the depth of `validate_inner`.
unfoldable pub validate : ℕ → State → List Entry → Outcome (State × List Entry)
validate = Pool.validate check
