-- ===== src/Protocol/Transactions.antt =====
-- src/protocol/transaction: the transactions of each chain. A `u64` amount and a `Duration` (in
-- nanoseconds) are numbers.
use cbox.Base.{ℕ, Bool, List, Option, none, some}
use cbox.Protocol.Types.{Hash, PubKey, Signature}

pub data BitcoinTxn : Type 0 where
  incentive : (out_utxo : ℕ) (receiver : PubKey) → BitcoinTxn
  send :
      (sender : PubKey) (in_utxo : List Hash) (receiver : PubKey) (out_utxo remainder : ℕ)
      (sender_signature : Signature) (script_bytes script_runtime : ℕ) (script_succeed : Bool)
      → BitcoinTxn
  grant : (out_utxo : ℕ) (receiver : PubKey) → BitcoinTxn

pub data AvalancheTxn : Type 0 where
  send :
      (sender : PubKey) (in_utxo : List Hash) (receiver : PubKey) (out_utxo remainder : ℕ)
      (sender_signature : Signature)
      → AvalancheTxn
  grant : (out_utxo : ℕ) (receiver : PubKey) (nonce : ℕ) → AvalancheTxn
  noop : (parents : List Hash) → AvalancheTxn
  place_holder : AvalancheTxn

pub record DummyTxn : Type 0 where
  pub id : Hash
  pub content : List ℕ
  pub pub_key : PubKey
  pub signature : Signature

pub data Txn : Type 0 where
  dummy : DummyTxn → Txn
  bitcoin : BitcoinTxn → Txn
  avalanche : AvalancheTxn → Txn

-- `match txn.as_ref() { Txn::Bitcoin { txn } => txn, _ => unreachable!() }`.
unfoldable pub as_bitcoin : Txn → Option BitcoinTxn
as_bitcoin (Txn.bitcoin txn) = some txn
as_bitcoin (Txn.dummy txn) = none
as_bitcoin (Txn.avalanche txn) = none

-- `match txn.as_ref() { Txn::Avalanche { txn } => txn, _ => unreachable!() }`.
unfoldable pub as_avalanche : Txn → Option AvalancheTxn
as_avalanche (Txn.avalanche txn) = some txn
as_avalanche (Txn.dummy txn) = none
as_avalanche (Txn.bitcoin txn) = none
