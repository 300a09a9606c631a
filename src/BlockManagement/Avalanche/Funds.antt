-- ===== src/BlockManagement/Avalanche/Funds.antt =====
-- `validate_txn`: the inputs of a transfer are known, belong to its sender, and have the value of its
-- outputs. A sum of `u64`s wraps.
use cbox.Base.{
  ℕ, ◌+◌, ◌%◌, ◌^◌, List, [], ◌∷◌, Option, none, some, Bool, true, false, Outcome, ok, panic,
  unwrap, ◌>>=◌, ◌==◌, nat_eq, list_eq, if◌then◌else◌,
}
use cbox.Base.HashMap.{get}
use cbox.Protocol.{Hash, PubKey, AvalancheTxn, as_avalanche}
use cbox.BlockManagement.Avalanche.{TxnPool}

-- The inputs that are known, and those that are missing.
unfoldable pub gather : TxnPool → List Hash → Outcome (List AvalancheTxn × List Hash)
gather pool [] = ok ([], [])
gather pool (h ∷ hs) = elim (get h pool) [
  | none ↦ do (in_utxo, missing_deps) ← gather pool hs; ok (in_utxo, h ∷ missing_deps)
  | some entry ↦ do
    txn ← unwrap (as_avalanche entry.0)
    (in_utxo, missing_deps) ← gather pool hs
    ok (txn ∷ in_utxo, missing_deps)
]

-- What an output of a transaction is worth to this key, if it is its own.
unfoldable pub value_to : PubKey → AvalancheTxn → Outcome (Option ℕ)
value_to txn_sender (AvalancheTxn.grant out_utxo receiver _) =
    ok (if receiver == txn_sender then some out_utxo else none)
value_to txn_sender (AvalancheTxn.send sender _ receiver out_utxo remainder _) = ok (
    if receiver == txn_sender
    then some out_utxo
    else (if sender == txn_sender then some remainder else none))
value_to txn_sender (AvalancheTxn.noop _) = panic
value_to txn_sender AvalancheTxn.place_holder = panic

unfoldable pub sum_values : PubKey → List AvalancheTxn → ℕ → Outcome (Option ℕ)
sum_values txn_sender [] input_value = ok (some input_value)
sum_values txn_sender (utxo ∷ utxos) input_value = do
  value ← value_to txn_sender utxo
  elim value [ none ↦ ok none | some v ↦ sum_values txn_sender utxos ((input_value + v) % 2 ^ 64) ]

-- `Result<bool, Vec<Hash>>`.
pub data Checked : Type 0 where
  valid : Bool → Checked
  missing : List Hash → Checked

unfoldable pub is_balanced : ℕ → Option ℕ → Bool
is_balanced output_value none = false
is_balanced output_value (some input_value) = input_value == output_value

unfoldable pub validate_send : TxnPool → PubKey → List Hash → ℕ → ℕ → Outcome Checked
validate_send pool sender in_utxo out_utxo remainder = do
  (inputs, missing_deps) ← gather pool in_utxo
  elim missing_deps [
    | [] ↦ do
      input_value ← sum_values sender inputs 0
      ok (Checked.valid (is_balanced ((out_utxo + remainder) % 2 ^ 64) input_value))
    | h ∷ hs ↦ ok (Checked.missing (h ∷ hs))
  ]

unfoldable pub validate_txn : TxnPool → AvalancheTxn → Outcome Checked
validate_txn pool (AvalancheTxn.send sender in_utxo _ out_utxo remainder _) =
    validate_send pool sender in_utxo out_utxo remainder
validate_txn pool (AvalancheTxn.grant _ _ _) = ok (Checked.valid true)
validate_txn pool (AvalancheTxn.noop _) = ok (Checked.valid true)
validate_txn pool AvalancheTxn.place_holder = panic
