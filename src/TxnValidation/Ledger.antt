-- ===== src/TxnValidation/Ledger.antt =====
-- The balance check of a transfer, which `validate_txn` of both chains makes
-- (src/stage/txn_validation/{bitcoin,avalanche}/basic.rs). The chain gives its own transaction out
-- of a `Txn`, and what such a transaction is worth to a spender. Amounts are u64 and wrap, as in a
-- release build.
use cbox.Base.{
  ℕ, ◌+◌, ◌%◌, ◌^◌, List, [], ◌∷◌, ◌++◌, Option, none, some, false, Outcome, ok, panic, ◌>>=◌, ◌==◌,
  nat_eq,
}
use cbox.Base.HashMap.{get}
use cbox.Protocol.{Hash, PubKey, Txn}
use cbox.TxnValidation.Pool.{TxnPool, Verdict, verdict, missing}

-- The number of values of a `u64`.
abbrev pub u64 : ℕ
u64 = 2 ^ 64

module _ {T : Type 0} (as_txn : Txn → Option T) where
  -- The loop over `in_utxo`: the parents that are in the pool, and the hashes of the others.
  unfoldable pub gather : TxnPool → List Hash → List T → List Hash → Outcome (List T × List Hash)
  gather pool [] in_utxo_txns missing_deps = ok (in_utxo_txns, missing_deps)
  gather pool (h ∷ hs) in_utxo_txns missing_deps = elim (get h pool) [
    | none ↦ gather pool hs in_utxo_txns (missing_deps ++ h ∷ [])
    | some (txn, _) ↦ elim (as_txn txn) [
      | none ↦ panic
      | some parent ↦ gather pool hs (in_utxo_txns ++ parent ∷ []) missing_deps
    ]
  ]

-- The comparison of the inputs with the outputs.
unfoldable pub compare_values : Option ℕ → ℕ → ℕ → Verdict
compare_values none out_utxo remainder = verdict false
compare_values (some input_value) out_utxo remainder =
    verdict (input_value == (out_utxo + remainder) % u64)

module _ {T : Type 0} (value_for : PubKey → T → Outcome (Option ℕ)) where
  -- The loop over the parents: their value to the sender, or none if one is not the sender's.
  unfoldable pub sum_inputs : PubKey → List T → ℕ → Outcome (Option ℕ)
  sum_inputs sender [] input_value = ok (some input_value)
  sum_inputs sender (parent ∷ parents) input_value = do
    found ← value_for sender parent
    elim found [
      | none ↦ ok none
      | some value ↦ sum_inputs sender parents ((input_value + value) % u64)
    ]

  -- The missing dependencies, if there are any, come first.
  unfoldable pub settle : PubKey → ℕ → ℕ → List T → List Hash → Outcome Verdict
  settle sender out_utxo remainder parents (d ∷ ds) = ok (missing (d ∷ ds))
  settle sender out_utxo remainder parents [] = do
    input_value ← sum_inputs sender parents 0
    ok (compare_values input_value out_utxo remainder)

module _ {T : Type 0} (as_txn : Txn → Option T) (value_for : PubKey → T → Outcome (Option ℕ)) where
  -- The `Send` case of `validate_txn`.
  unfoldable pub validate_send : TxnPool → PubKey → List Hash → ℕ → ℕ → Outcome Verdict
  validate_send pool sender in_utxo out_utxo remainder = do
    (in_utxo_txns, missing_deps) ← gather as_txn pool in_utxo [] []
    settle value_for sender out_utxo remainder in_utxo_txns missing_deps
