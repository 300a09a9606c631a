-- ===== src/BlockManagement/Bitcoin/Replays.antt =====
-- The undoing of one chain and the applying of another, against the ledger.
use mathlib.Core.List.{reverse, reverse-cons}
use cbox.Base.{
  List, [], ◌∷◌, ◌++◌, Option, none, some, true, false, ◌≡◌, refl, sym, ◌∙◌, nat_eq, list_eq,
  pair_eq, if◌then◌else◌, arith, Bool-cases, Option-cases, inl, inr, subst, some-injective,
}
use cbox.Base.HashSet.{HashSet, contains, contains-extend, contains-retain_not, extend, retain_not}
use cbox.Protocol.{Hash, BitcoinTxn}
use cbox.BlockManagement.Bitcoin.{Utxo}
use cbox.BlockManagement.Bitcoin.Utxo.{
  Diff, Replay, inputs_of, outputs_of, script_succeeds, undo_txn, apply_txn, note_applied,
  spend_all, make_outputs,
}
use cbox.BlockManagement.Bitcoin.Ledger.{
  Ledger, take_all, put_all, pay, pay_all, AreNew, MakeNew, Below, Represents,
}
use cbox.BlockManagement.Bitcoin.Refines.{spend_all-Agree, make_outputs-Represents, Agree}
use cbox.BlockManagement.Bitcoin.Payments.{
  put_all_lem, take_all_lem, AreNew_lem, AreNew-Below, pay-some, pay-Below, pay_all-spent,
  take_all-Below,
}
use cbox.BlockManagement.Bitcoin.Undoing.{undo_txn-Represents}

-- The loops of the code, over one list of transactions with their hashes.
unfoldable pub rewind : Replay → List (Hash × BitcoinTxn) → Replay
rewind r [] = r
rewind r ((id, txn) ∷ ts) = rewind (undo_txn r id txn) ts

unfoldable pub replay : HashSet Utxo → Replay → List (Hash × BitcoinTxn) → Option Replay
replay utxo r [] = some r
replay utxo r ((id, txn) ∷ ts) = elim (apply_txn utxo r id txn) [
  | none ↦ none
  | some r' ↦ replay utxo r' ts
]

pub rewind-append :
    (r : Replay) (ts us : List (Hash × BitcoinTxn)) → rewind r (ts ++ us) ≡ rewind (rewind r ts) us
unfolding rewind
rewind-append r [] us = refl
rewind-append r ((id, txn) ∷ ts) us = rewind-append (undo_txn r id txn) ts us

-- A result of the code and one of the ledger: both fail, or the one stands for the other.
abbrev pub ReplayAgree : HashSet Utxo → Option Replay → Option Ledger → Type 0
ReplayAgree utxo none none = Unit
ReplayAgree utxo none (some V) = ⊥
ReplayAgree utxo (some r) none = ⊥
ReplayAgree utxo (some r) (some V) = Represents utxo r.diff V

module _ (utxo : HashSet Utxo) where
  pub rewind-Represents :
      (ts : List (Hash × BitcoinTxn)) (V E Vn : Ledger) (r : Replay)
      → Below V E
      → MakeNew E ts
      → pay_all V ts ≡ some Vn
      → ((x : Utxo) → contains x utxo ≡ Vn x)
      → Represents utxo r.diff Vn
      → Represents utxo (rewind r (reverse ts)).diff V
  unfolding rewind
  rewind-Represents [] V E Vn r below new pays held rep =
      subst (Represents utxo r.diff) (sym (some-injective V Vn pays)) rep
  rewind-Represents ((id, txn) ∷ ts) V E Vn r below new pays held rep =
      elim (Option-cases (pay V (id, txn))) [
        | inl short ↦ absurd (cc (rw (short, pay_all) at pays))
        | inr (V', first) ↦
            let ins = inputs_of txn in
            let outs = outputs_of id txn in
            let (W, takes, is) = pay-some V id txn V' first in
            let below' = pay-Below V E id txn V' below first in
            let others = rw (first, pay_all) at pays in
            let rep' = rewind-Represents ts V' (put_all E outs) Vn r below' new.1 others held rep in
            let absent : (x : Utxo) → contains x ins ≡ true → contains x utxo ≡ false = λ x c.
              let on : V x ≡ true = (take_all_lem V ins W x takes).1 c in
              let unmade : contains x outs ≡ false =
                ground (arith, AreNew_lem E outs x new.0, below x on) in
              held x
              ∙ pay_all-spent ts V' (put_all E outs) Vn x below' new.1 others
                  (ground (arith, put_all_lem E outs x, below x on))
                  (rw is
                    (ground (arith, put_all_lem W outs x, (take_all_lem V ins W x takes).0))) in
            rw (reverse-cons (id, txn) ts) (
              rw (rewind-append r (reverse ts) ((id, txn) ∷ [])) (
                undo_txn-Represents utxo V E id txn V' (rewind r (reverse ts)) below new.0 first
                  absent rep'))
      ]

  note_applied-diff :
      (r : Replay) (id : Hash) (txn : BitcoinTxn) (d : Diff) → (note_applied r id txn d).diff ≡ d
  unfolding note_applied
  note_applied-diff r id txn d = ground arith

  apply_txn-Agree :
      (r : Replay) (V E : Ledger) (id : Hash) (txn : BitcoinTxn)
      → Below V E
      → AreNew E (outputs_of id txn)
      → Represents utxo r.diff V
      → ReplayAgree utxo (apply_txn utxo r id txn) (pay V (id, txn))
  unfolding apply_txn
  apply_txn-Agree r V E id txn below new rep =
      go (spend_all utxo r.diff (inputs_of txn)) (take_all V (inputs_of txn)) refl
        (spend_all-Agree utxo r.diff V (inputs_of txn) rep)
    where
      go :
          (s : Option Diff) (t : Option Ledger)
          → take_all V (inputs_of txn) ≡ t
          → Agree utxo s t
          → ReplayAgree utxo
              (elim s [
                | none ↦ none
                | some d ↦
                    if script_succeeds txn
                    then some (note_applied r id txn (make_outputs d (outputs_of id txn)))
                    else none
              ])
              (elim t [
                | none ↦ none
                | some W ↦
                    if script_succeeds txn then some (put_all W (outputs_of id txn)) else none
              ])
      go none none is agree = tt
      go none (some W) is agree = absurd agree
      go (some d) none is agree = absurd agree
      go (some d) (some W) is agree = elim (Bool-cases (script_succeeds txn)) [
        | inl runs ↦ rw runs (
            rw note_applied-diff (
              make_outputs-Represents utxo d W (outputs_of id txn) agree (
                AreNew-Below W E (outputs_of id txn) (take_all-Below V E (inputs_of txn) W below is)
                  new)))
        | inr fails ↦ rw fails tt
      ]

  pub replay-Agree :
      (ts : List (Hash × BitcoinTxn)) (r : Replay) (V E : Ledger)
      → Below V E
      → MakeNew E ts
      → Represents utxo r.diff V
      → ReplayAgree utxo (replay utxo r ts) (pay_all V ts)
  unfolding replay
  replay-Agree [] r V E below new rep = rep
  replay-Agree ((id, txn) ∷ ts) r V E below new rep =
      go (apply_txn utxo r id txn) (pay V (id, txn)) refl
        (apply_txn-Agree r V E id txn below new.0 rep)
        (λ r' V' pays.
          replay-Agree ts r' V' (put_all E (outputs_of id txn)) (pay-Below V E id txn V' below pays)
            new.1)
    where
      go :
          (s : Option Replay) (t : Option Ledger)
          → pay V (id, txn) ≡ t
          → ReplayAgree utxo s t
          → ((r' : Replay) (V' : Ledger)
              → pay V (id, txn) ≡ some V'
              → Represents utxo r'.diff V'
              → ReplayAgree utxo (replay utxo r' ts) (pay_all V' ts))
          → ReplayAgree utxo
              (elim s [ none ↦ none | some r' ↦ replay utxo r' ts ])
              (elim t [ none ↦ none | some V' ↦ pay_all V' ts ])
      go none none is agree rest = tt
      go none (some W) is agree rest = absurd agree
      go (some r') none is agree rest = absurd agree
      go (some r') (some V') is agree rest = rest r' V' is agree

-- The set that the code keeps in the end holds what the three sets stand for.
pub contains-moved :
    (utxo : HashSet Utxo) (d : Diff) (V : Ledger) (x : Utxo)
    → Represents utxo d V
    → contains x (retain_not d.gone (extend utxo d.added)) ≡ V x
contains-moved utxo d V x rep = ground (
  arith,
  contains-retain_not x d.gone (extend utxo d.added),
  contains-extend x utxo d.added,
  rep.same x,
  rep.is_diff.apart x,
  rep.is_diff.within x,
)
