-- ===== src/BlockManagement/Bitcoin/Accepting.antt =====
-- What the block under construction accepts, and what its entry leaves unmade.
use cbox.Base.{
  ℕ, List, [], ◌∷◌, some, true, false, ◌≡◌, refl, ◌∙◌, inl, inr, ◌==◌, nat_eq, list_eq, pair_eq,
  arith, eq_refl, Bool-cases, Option-cases,
}
use cbox.Base.HashSet.{contains, contains-extend, IsDistinct}
use cbox.Protocol.{Hash, Txn, BitcoinTxn}
use cbox.BlockManagement.Bitcoin.{Utxo, State}
use cbox.BlockManagement.Bitcoin.Utxo.{inputs_of, outputs_of, script_succeeds}
use cbox.BlockManagement.Bitcoin.Ledger.{Ledger, take_all, pay}
use cbox.BlockManagement.Bitcoin.Payments.{take_all_lem, take_all-IsDistinct}
use cbox.BlockManagement.Bitcoin.Propose.{is_available, all_available, include}
use cbox.BlockManagement.Bitcoin.Building.{IsUnmade, outputs_of-id, all_available-each}

all_available_of_each :
    (s : State) (us : List Utxo)
    → ((x : Utxo) → contains x us ≡ true → is_available s x ≡ true)
    → all_available s us ≡ true
unfolding all_available contains
all_available_of_each s [] each = refl
all_available_of_each s (u ∷ us) each =
    ground (arith, each u, eq_refl u, all_available_of_each s us (λ x c. each x (ground arith)))

-- A payment that goes through on the ledger is one that the block accepts.
pub accepted_of_pay :
    (s : State) (W : Ledger) (h : Hash) (btc : BitcoinTxn) (W' : Ledger)
    → ((x : Utxo) → is_available s x ≡ W x)
    → pay W (h, btc) ≡ some W'
    → (all_available s (inputs_of btc) ≡ true)
      × (script_succeeds btc ≡ true)
      × IsDistinct (inputs_of btc)
accepted_of_pay s W h btc W' same pays = elim (Option-cases (take_all W (inputs_of btc))) [
  | inl short ↦ absurd (cc (rw (short, pay) at pays))
  | inr (left, takes) ↦ elim (Bool-cases (script_succeeds btc)) [
    | inl runs ↦ (
      all_available_of_each s (inputs_of btc)
          (λ x c. same x ∙ (take_all_lem W (inputs_of btc) left x takes).1 c),
      runs,
      take_all-IsDistinct W (inputs_of btc) left takes,
    )
    | inr fails ↦ let stops = rw (takes, pay) at pays in absurd (cc (rw fails at stops))
  ]
]

-- The outputs of another transaction are not made by the entry of this one.
pub IsUnmade-include :
    (size_of : Txn → ℕ) (s : State) (h j : Hash) (txn : Txn) (btc : BitcoinTxn)
    → (h == j) ≡ false
    → all_available s (inputs_of btc) ≡ true
    → IsUnmade s j
    → IsUnmade (include size_of s h txn btc) j
unfolding include is_available
IsUnmade-include size_of s h j txn btc other all unmade k =
    let (held, made, spent) = unmade k in
    let not_output : contains (j, k) (outputs_of h btc) ≡ false =
      elim (Bool-cases (contains (j, k) (outputs_of h btc))) [
        | inl output ↦
            let same = outputs_of-id h j k btc output in
            absurd (ground (arith, other, same, eq_refl j))
        | inr no_output ↦ no_output
      ] in
    (
      held,
      ground (arith, contains-extend (j, k) s.new_utxo (outputs_of h btc), not_output, made),
      ground (
        arith,
        contains-extend (j, k) s.utxo_spent (inputs_of btc),
        all_available-each s (inputs_of btc) (j, k) all,
        held,
        made,
        spent,
      ),
    )
