-- ===== src/Examples/Validation.antt =====
-- src/stage/txn_validation: a payment that arrives before the grant that it spends.
use cbox.Base.{List, [], ◌∷◌, true, ◌≡◌, refl, ok, arith, All, ◌↔◌}
use cbox.Base.HashMap
use cbox.Base.HashSet
use cbox.Protocol.{Hash, PubKey, Txn, TxnCtx, BitcoinTxn, AvalancheTxn, as_bitcoin, as_avalanche}
use cbox.TxnValidation.Pool
use cbox.TxnValidation.Pool.{State, Entry, verdict, TxnPool}
use cbox.TxnValidation.Bitcoin
use cbox.TxnValidation.Avalanche
use cbox.TxnValidation.Ledger.{validate_send}
use cbox.TxnValidation.Ledger
use cbox.TxnValidation.Transfers.{IsFunded, validate_send_iff}
use cbox.TxnValidation.Growth.{Extends, validate-Extends}
use cbox.TxnValidation.Kept
use cbox.TxnValidation.Soundness.{bitcoin_pool_IsFunded, avalanche_pool_IsFunded}
use cbox.TxnValidation.Known.{IsKnown, Heard}
use cbox.TxnValidation.Clients.{
  IsBitcoinClient, IsAvalancheClient, bitcoin_validate_total, avalanche_validate_total,
}

abbrev alice : PubKey
alice = 1 ∷ []

abbrev bob : PubKey
bob = 2 ∷ []

abbrev ctx : Hash → TxnCtx
ctx h = record { id = h }

abbrev grant : Txn
grant = Txn.bitcoin (BitcoinTxn.grant 10 alice)

abbrev payment : Txn
payment = Txn.bitcoin (BitcoinTxn.send alice (1 ∷ []) bob 7 3 [] 0 0 true)

-- The payment comes first, and waits for the grant.
abbrev batch : List Entry
batch = (0, (payment, ctx 2)) ∷ (5, (grant, ctx 1)) ∷ []

abbrev returned : List Entry
returned = (5, (grant, ctx 1)) ∷ (0, (payment, ctx 2)) ∷ []

abbrev settled : State
settled = record { txn_pool = (1, (grant, ctx 1)) ∷ (2, (payment, ctx 2)) ∷ []; pending_txns = [] }

validate_run : Bitcoin.validate 3 Pool.new batch ≡ ok (settled, returned)
unfolding Bitcoin.validate Bitcoin.check Pool.validate Pool.validate_inner HashMap.contains_key
    HashMap.get Pool.new as_bitcoin Bitcoin.validate_txn validate_send Ledger.gather Ledger.settle
    Pool.conclude Pool.validate_children Pool.add_pendings Pool.add_pending HashMap.insert
    Pool.joined HashMap.or_insert HashMap.remove Bitcoin.value_for Ledger.compare_values
    Ledger.sum_inputs Pool.admit
validate_run = refl

abbrev avalanche_grant : Txn
avalanche_grant = Txn.avalanche (AvalancheTxn.grant 10 alice 0)

abbrev avalanche_payment : Txn
avalanche_payment = Txn.avalanche (AvalancheTxn.send alice (1 ∷ []) bob 7 3 [])

abbrev avalanche_batch : List Entry
avalanche_batch = (0, (avalanche_payment, ctx 2)) ∷ (5, (avalanche_grant, ctx 1)) ∷ []

abbrev avalanche_returned : List Entry
avalanche_returned = (5, (avalanche_grant, ctx 1)) ∷ (0, (avalanche_payment, ctx 2)) ∷ []

abbrev avalanche_settled : State
avalanche_settled = record {
  txn_pool = (1, (avalanche_grant, ctx 1)) ∷ (2, (avalanche_payment, ctx 2)) ∷ [];
  pending_txns = [];
}

avalanche_run :
    Avalanche.validate 3 Pool.new avalanche_batch ≡ ok (avalanche_settled, avalanche_returned)
unfolding Avalanche.validate Avalanche.check Pool.validate Pool.validate_inner HashMap.contains_key
    HashMap.get Pool.new as_avalanche Avalanche.validate_txn validate_send Ledger.gather
    Ledger.settle Pool.conclude Pool.validate_children Pool.add_pendings Pool.add_pending
    HashMap.insert Pool.joined HashMap.or_insert HashMap.remove Avalanche.value_for
    Ledger.compare_values Ledger.sum_inputs Pool.admit
avalanche_run = refl

bitcoin_pool_IsFunded_example :
    IsFunded as_bitcoin Bitcoin.value_for settled.txn_pool alice (1 ∷ []) 7 3
bitcoin_pool_IsFunded_example =
    bitcoin_pool_IsFunded alice (1 ∷ []) bob 7 3 [] 3 batch {p = (settled, returned)} 2 0 0 true
      (ctx 2) validate_run (unfold HashMap.get in refl)

avalanche_pool_IsFunded_example :
    IsFunded as_avalanche Avalanche.value_for avalanche_settled.txn_pool alice (1 ∷ []) 7 3
avalanche_pool_IsFunded_example =
    avalanche_pool_IsFunded alice (1 ∷ []) bob 7 3 [] 3 avalanche_batch
      {p = (avalanche_settled, avalanche_returned)} 2 (ctx 2) avalanche_run
      (unfold HashMap.get in refl)

validate-Extends_example : Extends Bitcoin.check Pool.new.txn_pool returned settled.txn_pool
unfolding Bitcoin.validate Pool.validate
validate-Extends_example =
    validate-Extends Bitcoin.check 3 Pool.new batch {p = (settled, returned)} validate_run

validate_send_iff_example :
    (validate_send as_bitcoin Bitcoin.value_for settled.txn_pool alice (1 ∷ []) 7 3
      ≡ ok (verdict true))
    ↔ IsFunded as_bitcoin Bitcoin.value_for settled.txn_pool alice (1 ∷ []) 7 3
validate_send_iff_example =
    validate_send_iff as_bitcoin Bitcoin.value_for alice 7 3 settled.txn_pool (1 ∷ [])

bitcoin-IsKnown : IsKnown IsBitcoinClient (1 ∷ 2 ∷ []) Pool.new
unfolding Pool.new HashMap.get
bitcoin-IsKnown = record {
  clients = λ h e found. absurd (cc found);
  waiting = λ dep w found. absurd (cc found);
}

avalanche-IsKnown : IsKnown IsAvalancheClient (1 ∷ 2 ∷ []) Pool.new
unfolding Pool.new HashMap.get
avalanche-IsKnown = record {
  clients = λ h e found. absurd (cc found);
  waiting = λ dep w found. absurd (cc found);
}

bitcoin-Heard : All (λ (e : Entry). Heard IsBitcoinClient (1 ∷ 2 ∷ []) e.1) batch
unfolding HashSet.contains
bitcoin-Heard = ((tt, refl), ((tt, refl), tt))

avalanche-Heard : All (λ (e : Entry). Heard IsAvalancheClient (1 ∷ 2 ∷ []) e.1) avalanche_batch
unfolding HashSet.contains
avalanche-Heard = ((tt, refl), ((tt, refl), tt))

bitcoin_validate_total_example :
    (p : State × List Entry) × (Bitcoin.validate 3 Pool.new batch ≡ ok p)
    × IsKnown IsBitcoinClient (1 ∷ 2 ∷ []) p.0
bitcoin_validate_total_example =
    bitcoin_validate_total (1 ∷ 2 ∷ []) 3 Pool.new batch (omega arith) bitcoin-IsKnown bitcoin-Heard

avalanche_validate_total_example :
    (p : State × List Entry) × (Avalanche.validate 3 Pool.new avalanche_batch ≡ ok p)
    × IsKnown IsAvalancheClient (1 ∷ 2 ∷ []) p.0
avalanche_validate_total_example =
    avalanche_validate_total (1 ∷ 2 ∷ []) 3 Pool.new avalanche_batch (omega arith) avalanche-IsKnown
      avalanche-Heard
