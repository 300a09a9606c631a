-- ===== src/BlockManagement/Bitcoin/Ledger.antt =====
-- The unspent outputs as a ledger, the specification of what `validate_block` keeps in three sets:
-- a transaction takes its inputs off the ledger and puts its outputs on it.
use cbox.Base.{
  List, [], ◌∷◌, Option, none, some, Bool, true, false, not, ◌&&◌, ◌||◌, ◌≡◌, ◌==◌, nat_eq, list_eq,
  pair_eq, if◌then◌else◌,
}
use cbox.Base.HashSet.{HashSet, contains}
use cbox.Protocol.{Hash, BitcoinTxn}
use cbox.BlockManagement.Bitcoin.{Utxo}
use cbox.BlockManagement.Bitcoin.Utxo.{Diff, inputs_of, outputs_of, script_succeeds}

abbrev pub Ledger : Type 0
Ledger = Utxo → Bool

abbrev pub take : Ledger → Utxo → Ledger
take V u x = not (u == x) && V x

abbrev pub put : Ledger → Utxo → Ledger
put V u x = (u == x) || V x

-- Each in turn must be on the ledger.
abbrev pub take_all : Ledger → List Utxo → Option Ledger
take_all V [] = some V
take_all V (u ∷ us) = elim (V u) [ true ↦ take_all (take V u) us | false ↦ none ]

abbrev pub put_all : Ledger → List Utxo → Ledger
put_all V [] = V
put_all V (u ∷ us) = put_all (put V u) us

abbrev pub pay : Ledger → Hash × BitcoinTxn → Option Ledger
pay V (id, txn) = elim (take_all V (inputs_of txn)) [
  | none ↦ none
  | some V' ↦ if script_succeeds txn then some (put_all V' (outputs_of id txn)) else none
]

abbrev pub pay_all : Ledger → List (Hash × BitcoinTxn) → Option Ledger
pay_all V [] = some V
pay_all V (t ∷ ts) = elim (pay V t) [ none ↦ none | some V' ↦ pay_all V' ts ]

-- Each in turn is not on the ledger yet.
abbrev pub AreNew : Ledger → List Utxo → Type 0
AreNew V [] = Unit
AreNew V (u ∷ us) = (V u ≡ false) × AreNew (put V u) us

-- Every output that these transactions make is made for the first time, where `E` has those that
-- were ever made before.
abbrev pub MakeNew : Ledger → List (Hash × BitcoinTxn) → Type 0
MakeNew E [] = Unit
MakeNew E ((id, txn) ∷ ts) =
    AreNew E (outputs_of id txn) × MakeNew (put_all E (outputs_of id txn)) ts

abbrev pub Below : Ledger → Ledger → Type 0
Below V E = (u : Utxo) → V u ≡ true → E u ≡ true

-- What the three sets stand for: an output is live if it is new, or old and not gone.
abbrev pub live : HashSet Utxo → Diff → Ledger
live utxo d u = contains u d.added || (contains u utxo && not (contains u d.gone))

-- What is new was not there before, and what is gone was.
pub record IsDiff (utxo : HashSet Utxo) (d : Diff) : Type 0 where
  pub apart : (u : Utxo) → contains u d.added ≡ true → contains u utxo ≡ false
  pub within : (u : Utxo) → contains u d.gone ≡ true → contains u utxo ≡ true

-- The sets stand for this ledger.
pub record Represents (utxo : HashSet Utxo) (d : Diff) (V : Ledger) : Type 0 where
  pub is_diff : IsDiff utxo d
  pub same : (u : Utxo) → live utxo d u ≡ V u
