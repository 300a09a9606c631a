-- ===== src/TxnValidation/Soundness.antt =====
-- What the pool of a node holds, for each chain: nothing but transactions that are valid against
-- that very pool.
use cbox.Base.{
  ℕ, Bool, List, ◌≡◌, refl, some, none, true, Outcome, ok, nat_eq, arith, Option-cases, inl, inr,
}
use cbox.Base.HashMap.{get, insert, get-insert}
use cbox.Protocol.{
  Hash, Txn, TxnCtx, BitcoinTxn, AvalancheTxn, PubKey, Signature, as_bitcoin, as_avalanche,
}
use cbox.TxnValidation.Pool.{TxnPool, Entry, State, Verdict, verdict, missing, entry_id}
use cbox.TxnValidation.Pool
use cbox.TxnValidation.Growth.{Extends-induction, validate-Extends, get-insert_new}
use cbox.TxnValidation.Waiting.{ReportsMissing}
use cbox.TxnValidation.Transfers.{
  IsFunded, IsFunded-insert, validate_send_iff, validate_send-missing,
}
use cbox.TxnValidation.Bitcoin
use cbox.TxnValidation.Avalanche

-- A verdict of valid outlives the growth of the pool.
abbrev pub IsMonotone : (TxnPool → Txn → Outcome Verdict) → Type 0
IsMonotone check =
    (pool : TxnPool) (txn : Txn) (k : Hash) (v : Txn × TxnCtx)
    → get k pool ≡ none
    → check pool txn ≡ ok (verdict true)
    → check (insert k v pool) txn ≡ ok (verdict true)

abbrev pub IsSound : (TxnPool → Txn → Outcome Verdict) → TxnPool → Type 0
IsSound check pool =
    (h : Hash) (e : Txn × TxnCtx) → get h pool ≡ some e → check pool e.0 ≡ ok (verdict true)

module _ (check : TxnPool → Txn → Outcome Verdict) (monotone : IsMonotone check) where
  IsSound-insert :
      (pool : TxnPool) (e : Entry)
      → get (entry_id e) pool ≡ none
      → check pool e.1.0 ≡ ok (verdict true)
      → IsSound check pool
      → IsSound check (insert (entry_id e) e.1 pool)
  IsSound-insert pool e new valid sound h w found = elim (Option-cases (get h pool)) [
    | inl absent ↦
        let same : w ≡ e.1 = ground (arith, get-insert (entry_id e) h e.1 pool) in
        rw same (monotone pool e.1.0 (entry_id e) e.1 new valid)
    | inr (w', held) ↦
        let same : w ≡ w' = ground (arith, get-insert_new (entry_id e) h e.1 w' pool new held) in
        monotone pool w.0 (entry_id e) e.1 new (rw same (sound h w' held))
  ]

  pub validate-IsSound :
      (fuel : ℕ) (s : State) (batch : List Entry) {p : State × List Entry}
      → Pool.validate check fuel s batch ≡ ok p
      → IsSound check s.txn_pool
      → IsSound check p.0.txn_pool
  validate-IsSound fuel s batch {p} h =
      Extends-induction check (IsSound check) IsSound-insert s.txn_pool p.1 p.0.txn_pool
        (validate-Extends check fuel s batch h)

Bitcoin-IsMonotone : IsMonotone Bitcoin.check
unfolding Bitcoin.check as_bitcoin Bitcoin.validate_txn
Bitcoin-IsMonotone pool (Txn.bitcoin (BitcoinTxn.send a hs _ o r _ _ _ _)) k v new h =
    (validate_send_iff as_bitcoin Bitcoin.value_for a o r (insert k v pool) hs).1 (
      IsFunded-insert as_bitcoin Bitcoin.value_for a o r pool hs k v new
        ((validate_send_iff as_bitcoin Bitcoin.value_for a o r pool hs).0 h))
Bitcoin-IsMonotone pool (Txn.bitcoin (BitcoinTxn.grant _ _)) k v new h = refl
Bitcoin-IsMonotone pool (Txn.bitcoin (BitcoinTxn.incentive _ _)) k v new h = h
Bitcoin-IsMonotone pool (Txn.dummy _) k v new h = h
Bitcoin-IsMonotone pool (Txn.avalanche _) k v new h = h

Avalanche-IsMonotone : IsMonotone Avalanche.check
unfolding Avalanche.check as_avalanche Avalanche.validate_txn
Avalanche-IsMonotone pool (Txn.avalanche (AvalancheTxn.send a hs _ o r _)) k v new h =
    (validate_send_iff as_avalanche Avalanche.value_for a o r (insert k v pool) hs).1 (
      IsFunded-insert as_avalanche Avalanche.value_for a o r pool hs k v new
        ((validate_send_iff as_avalanche Avalanche.value_for a o r pool hs).0 h))
Avalanche-IsMonotone pool (Txn.avalanche (AvalancheTxn.grant _ _ _)) k v new h = refl
Avalanche-IsMonotone pool (Txn.avalanche (AvalancheTxn.noop _)) k v new h = h
Avalanche-IsMonotone pool (Txn.avalanche AvalancheTxn.place_holder) k v new h = h
Avalanche-IsMonotone pool (Txn.dummy _) k v new h = h
Avalanche-IsMonotone pool (Txn.bitcoin _) k v new h = h

pub Bitcoin-ReportsMissing : ReportsMissing Bitcoin.check
unfolding Bitcoin.check as_bitcoin Bitcoin.validate_txn
Bitcoin-ReportsMissing pool (Txn.bitcoin (BitcoinTxn.send a hs _ o r _ _ _ _)) deps h =
    validate_send-missing as_bitcoin Bitcoin.value_for a o r pool hs deps h
Bitcoin-ReportsMissing pool (Txn.bitcoin (BitcoinTxn.grant _ _)) deps h = absurd (cc h)
Bitcoin-ReportsMissing pool (Txn.bitcoin (BitcoinTxn.incentive _ _)) deps h = absurd (cc h)
Bitcoin-ReportsMissing pool (Txn.dummy _) deps h = absurd (cc h)
Bitcoin-ReportsMissing pool (Txn.avalanche _) deps h = absurd (cc h)

pub Avalanche-ReportsMissing : ReportsMissing Avalanche.check
unfolding Avalanche.check as_avalanche Avalanche.validate_txn
Avalanche-ReportsMissing pool (Txn.avalanche (AvalancheTxn.send a hs _ o r _)) deps h =
    validate_send-missing as_avalanche Avalanche.value_for a o r pool hs deps h
Avalanche-ReportsMissing pool (Txn.avalanche (AvalancheTxn.grant _ _ _)) deps h = absurd (cc h)
Avalanche-ReportsMissing pool (Txn.avalanche (AvalancheTxn.noop _)) deps h = absurd (cc h)
Avalanche-ReportsMissing pool (Txn.avalanche AvalancheTxn.place_holder) deps h = absurd (cc h)
Avalanche-ReportsMissing pool (Txn.dummy _) deps h = absurd (cc h)
Avalanche-ReportsMissing pool (Txn.bitcoin _) deps h = absurd (cc h)

module _ (sender : PubKey) (in_utxo : List Hash) (receiver : PubKey) (out_utxo remainder : ℕ)
    (signature : Signature) where
  -- In whatever pool a BitcoinTxnValidation that started empty has come to, a transfer spends only
  -- transactions of that pool, each of them its sender's to spend, and its inputs are worth its
  -- outputs as u64 numbers.
  pub bitcoin_pool_IsFunded :
      (fuel : ℕ) (batch : List Entry) {p : State × List Entry} (h : Hash)
      (script_bytes script_runtime : ℕ) (script_succeed : Bool) (ctx : TxnCtx)
      → Bitcoin.validate fuel Pool.new batch ≡ ok p
      → get h p.0.txn_pool
        ≡ some (
          Txn.bitcoin (
              BitcoinTxn.send sender in_utxo receiver out_utxo remainder signature script_bytes
                script_runtime script_succeed),
          ctx,
        )
      → IsFunded as_bitcoin Bitcoin.value_for p.0.txn_pool sender in_utxo out_utxo remainder
  unfolding Bitcoin.validate Bitcoin.check as_bitcoin Bitcoin.validate_txn Pool.new get
  bitcoin_pool_IsFunded fuel batch {p} h b t ok? ctx runs found =
      (validate_send_iff as_bitcoin Bitcoin.value_for sender out_utxo remainder p.0.txn_pool
          in_utxo).0
        (validate-IsSound Bitcoin.check Bitcoin-IsMonotone fuel Pool.new batch runs
          (λ k e absent. absurd (cc absent)) h _ found)

  -- In whatever pool an AvalancheTxnValidation that started empty has come to, a transfer spends only
  -- transactions of that pool, each of them its sender's to spend, and its inputs are worth its
  -- outputs as u64 numbers.
  pub avalanche_pool_IsFunded :
      (fuel : ℕ) (batch : List Entry) {p : State × List Entry} (h : Hash) (ctx : TxnCtx)
      → Avalanche.validate fuel Pool.new batch ≡ ok p
      → get h p.0.txn_pool
        ≡ some (
          Txn.avalanche (AvalancheTxn.send sender in_utxo receiver out_utxo remainder signature),
          ctx,
        )
      → IsFunded as_avalanche Avalanche.value_for p.0.txn_pool sender in_utxo out_utxo remainder
  unfolding Avalanche.validate Avalanche.check as_avalanche Avalanche.validate_txn Pool.new get
  avalanche_pool_IsFunded fuel batch {p} h ctx runs found =
      (validate_send_iff as_avalanche Avalanche.value_for sender out_utxo remainder p.0.txn_pool
          in_utxo).0
        (validate-IsSound Avalanche.check Avalanche-IsMonotone fuel Pool.new batch runs
          (λ k e absent. absurd (cc absent)) h _ found)
