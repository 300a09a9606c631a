-- ===== src/TxnValidation/Clients.antt =====
-- The transactions that clients send, for each chain, and that `validate` serves them all.
use cbox.Base.{
  ℕ, ◌<◌, ◌+◌, ◌%◌, List, [], ◌∷◌, ◌++◌, Option, none, some, true, ◌≡◌, refl, Outcome, ok, All,
  All-append, length, Option-cases, inl, inr, nat_eq, list_eq,
}
use cbox.Base.HashMap.{get}
use cbox.Protocol.{Hash, PubKey, Txn, BitcoinTxn, AvalancheTxn, as_bitcoin, as_avalanche}
use cbox.TxnValidation.Pool.{TxnPool, Entry, State, Verdict, verdict, missing}
use cbox.TxnValidation.Ledger.{u64, gather, sum_inputs, compare_values, settle, validate_send}
use cbox.TxnValidation.Known.{Heard, HoldsClients, IsKnown}
use cbox.TxnValidation.Totality.{Decides, validate_total}
use cbox.TxnValidation.Bitcoin
use cbox.TxnValidation.Avalanche

module _ {T : Type 0} (as_txn : Txn → Option T) (value_for : PubKey → T → Outcome (Option ℕ))
    (IsClient : Txn → Type 0)
    (reads : (txn : Txn)
      → IsClient txn
      → (t : T) × (as_txn txn ≡ some t)
        × ((sender : PubKey) → (o : Option ℕ) × (value_for sender t ≡ ok o))) where
  -- Each of these has a value, or none, to each spender.
  abbrev HasValue : T → Type 0
  HasValue t = (sender : PubKey) → (o : Option ℕ) × (value_for sender t ≡ ok o)

  gather_total :
      (pool : TxnPool) (hs : List Hash) (found : List T) (deps : List Hash)
      → HoldsClients IsClient pool
      → All HasValue found
      → (r : List T × List Hash) × (gather as_txn pool hs found deps ≡ ok r) × All HasValue r.0
  unfolding gather
  gather_total pool [] found deps clients all = ((found, deps), refl, all)
  gather_total pool (h ∷ hs) found deps clients all = elim (Option-cases (get h pool)) [
    | inl absent ↦ rw (absent, gather) (gather_total pool hs found (deps ++ h ∷ []) clients all)
    | inr (e, held) ↦
        let (t, is_t, values) = reads e.0 (clients h e held) in
        rw (held, gather)
          (rw (is_t, gather)
            (gather_total pool hs (found ++ t ∷ []) deps clients
              (All-append HasValue found (t ∷ []) all (values, tt))))
  ]

  sum_inputs_total :
      (sender : PubKey) (ts : List T) (start : ℕ)
      → All HasValue ts
      → (o : Option ℕ) × (sum_inputs value_for sender ts start ≡ ok o)
  unfolding sum_inputs
  sum_inputs_total sender [] start all = (some start, refl)
  sum_inputs_total sender (t ∷ ts) start all =
      let (o, says) = all.0 sender in
      elim (Option-cases o) [
        | inl nothing ↦ (none, rw says (rw nothing))
        | inr (value, is_value) ↦
            let (o', sums) = sum_inputs_total sender ts ((start + value) % u64) all.1 in
            (o', rw says (rw is_value sums))
      ]

  validate_send_total :
      (pool : TxnPool) (sender : PubKey) (in_utxo : List Hash) (out_utxo remainder : ℕ)
      → HoldsClients IsClient pool
      → (v : Verdict) × (validate_send as_txn value_for pool sender in_utxo out_utxo remainder
          ≡ ok v)
  unfolding validate_send
  validate_send_total pool sender in_utxo out_utxo remainder clients =
      let ((ts, deps), gathers, all) = gather_total pool in_utxo [] [] clients tt in
      rw gathers (settled ts deps all)
    where
      settled :
          (ts : List T) (deps : List Hash)
          → All HasValue ts
          → (v : Verdict) × (settle value_for sender out_utxo remainder ts deps ≡ ok v)
      settled ts (d ∷ ds) all = (missing (d ∷ ds), unfold settle in refl)
      settled ts [] all =
          let (o, sums) = sum_inputs_total sender ts 0 all in
          (compare_values o out_utxo remainder, unfold settle in rw sums)

-- Grants and transfers; the rest is `unreachable!` in BitcoinTxnValidation.
abbrev pub IsBitcoinClient : Txn → Type 0
IsBitcoinClient (Txn.bitcoin (BitcoinTxn.send _ _ _ _ _ _ _ _ _)) = Unit
IsBitcoinClient (Txn.bitcoin (BitcoinTxn.grant _ _)) = Unit
IsBitcoinClient (Txn.bitcoin (BitcoinTxn.incentive _ _)) = ⊥
IsBitcoinClient (Txn.dummy _) = ⊥
IsBitcoinClient (Txn.avalanche _) = ⊥

-- Grants and transfers; the rest is `unreachable!` in AvalancheTxnValidation.
abbrev pub IsAvalancheClient : Txn → Type 0
IsAvalancheClient (Txn.avalanche (AvalancheTxn.send _ _ _ _ _ _)) = Unit
IsAvalancheClient (Txn.avalanche (AvalancheTxn.grant _ _ _)) = Unit
IsAvalancheClient (Txn.avalanche (AvalancheTxn.noop _)) = ⊥
IsAvalancheClient (Txn.avalanche AvalancheTxn.place_holder) = ⊥
IsAvalancheClient (Txn.dummy _) = ⊥
IsAvalancheClient (Txn.bitcoin _) = ⊥

bitcoin_reads :
    (txn : Txn)
    → IsBitcoinClient txn
    → (t : BitcoinTxn) × (as_bitcoin txn ≡ some t)
      × ((sender : PubKey) → (o : Option ℕ) × (Bitcoin.value_for sender t ≡ ok o))
unfolding as_bitcoin Bitcoin.value_for
bitcoin_reads (Txn.bitcoin (BitcoinTxn.send a hs b o r g n d y)) c =
    (BitcoinTxn.send a hs b o r g n d y, refl, λ sender. (_, refl))
bitcoin_reads (Txn.bitcoin (BitcoinTxn.grant o a)) c =
    (BitcoinTxn.grant o a, refl, λ sender. (_, refl))
bitcoin_reads (Txn.bitcoin (BitcoinTxn.incentive _ _)) c = absurd c
bitcoin_reads (Txn.dummy _) c = absurd c
bitcoin_reads (Txn.avalanche _) c = absurd c

avalanche_reads :
    (txn : Txn)
    → IsAvalancheClient txn
    → (t : AvalancheTxn) × (as_avalanche txn ≡ some t)
      × ((sender : PubKey) → (o : Option ℕ) × (Avalanche.value_for sender t ≡ ok o))
unfolding as_avalanche Avalanche.value_for
avalanche_reads (Txn.avalanche (AvalancheTxn.send a hs b o r g)) c =
    (AvalancheTxn.send a hs b o r g, refl, λ sender. (_, refl))
avalanche_reads (Txn.avalanche (AvalancheTxn.grant o a n)) c =
    (AvalancheTxn.grant o a n, refl, λ sender. (_, refl))
avalanche_reads (Txn.avalanche (AvalancheTxn.noop _)) c = absurd c
avalanche_reads (Txn.avalanche AvalancheTxn.place_holder) c = absurd c
avalanche_reads (Txn.dummy _) c = absurd c
avalanche_reads (Txn.bitcoin _) c = absurd c

bitcoin-Decides : Decides Bitcoin.check IsBitcoinClient
unfolding Bitcoin.check as_bitcoin Bitcoin.validate_txn
bitcoin-Decides pool (Txn.bitcoin (BitcoinTxn.send a hs _ o r _ _ _ _)) clients c =
    validate_send_total as_bitcoin Bitcoin.value_for IsBitcoinClient bitcoin_reads pool a hs o r
      clients
bitcoin-Decides pool (Txn.bitcoin (BitcoinTxn.grant _ _)) clients c = (verdict true, refl)
bitcoin-Decides pool (Txn.bitcoin (BitcoinTxn.incentive _ _)) clients c = absurd c
bitcoin-Decides pool (Txn.dummy _) clients c = absurd c
bitcoin-Decides pool (Txn.avalanche _) clients c = absurd c

avalanche-Decides : Decides Avalanche.check IsAvalancheClient
unfolding Avalanche.check as_avalanche Avalanche.validate_txn
avalanche-Decides pool (Txn.avalanche (AvalancheTxn.send a hs _ o r _)) clients c =
    validate_send_total as_avalanche Avalanche.value_for IsAvalancheClient avalanche_reads pool a hs
      o r clients
avalanche-Decides pool (Txn.avalanche (AvalancheTxn.grant _ _ _)) clients c = (verdict true, refl)
avalanche-Decides pool (Txn.avalanche (AvalancheTxn.noop _)) clients c = absurd c
avalanche-Decides pool (Txn.avalanche AvalancheTxn.place_holder) clients c = absurd c
avalanche-Decides pool (Txn.dummy _) clients c = absurd c
avalanche-Decides pool (Txn.bitcoin _) clients c = absurd c

module _ (hs : List Hash) (fuel : ℕ) (s : State) (batch : List Entry) where
  -- Let `hs` have the hashes of the transactions of the batch and of those that wait, and let all of
  -- these and of the pool be grants and transfers. With more fuel than `hs` is long,
  -- BitcoinTxnValidation returns: it neither panics nor runs out of fuel, and the state that it
  -- leaves is one in which the same holds.
  pub bitcoin_validate_total :
      length hs < fuel
      → IsKnown IsBitcoinClient hs s
      → All (λ e. Heard IsBitcoinClient hs e.1) batch
      → (p : State × List Entry) × (Bitcoin.validate fuel s batch ≡ ok p)
        × IsKnown IsBitcoinClient hs p.0
  unfolding Bitcoin.validate
  bitcoin_validate_total =
      validate_total Bitcoin.check IsBitcoinClient bitcoin-Decides hs fuel s batch

  -- Let `hs` have the hashes of the transactions of the batch and of those that wait, and let all of
  -- these and of the pool be grants and transfers. With more fuel than `hs` is long,
  -- AvalancheTxnValidation returns: it neither panics nor runs out of fuel, and the state that it
  -- leaves is one in which the same holds.
  pub avalanche_validate_total :
      length hs < fuel
      → IsKnown IsAvalancheClient hs s
      → All (λ e. Heard IsAvalancheClient hs e.1) batch
      → (p : State × List Entry) × (Avalanche.validate fuel s batch ≡ ok p)
        × IsKnown IsAvalancheClient hs p.0
  unfolding Avalanche.validate
  avalanche_validate_total =
      validate_total Avalanche.check IsAvalancheClient avalanche-Decides hs fuel s batch
