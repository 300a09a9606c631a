-- ===== src/BlockManagement/Bitcoin/Undoing.antt =====
-- The undoing of one transaction, against the ledger.
use cbox.Base.{
  List, [], ◌∷◌, some, true, false, ◌≡◌, ◌∙◌, nat_eq, list_eq, pair_eq, arith, eq→path, eq_refl,
  subst,
}
use cbox.Base.HashSet.{HashSet, contains, IsDistinct, insert}
use cbox.Protocol.{Hash, BitcoinTxn}
use cbox.BlockManagement.Bitcoin.{Utxo}
use cbox.BlockManagement.Bitcoin.Utxo.{
  Diff, Replay, inputs_of, outputs_of, undo_inputs, undo_outputs, undo_output, undo_txn,
}
use cbox.BlockManagement.Bitcoin.Ledger.{Ledger, take, put, put_all, pay, AreNew, Below, Represents}
use cbox.BlockManagement.Bitcoin.Refines.{undo_output-Represents, undo_input-Represents}
use cbox.BlockManagement.Bitcoin.Payments.{
  drop_all, put_all_lem, drop_all_lem, take_all_lem, AreNew_lem, pay-some, take_all-IsDistinct,
}

-- Each in turn is on the ledger.
abbrev pub AreLive : Ledger → List Utxo → Type 0
AreLive V [] = Unit
AreLive V (u ∷ us) = (V u ≡ true) × AreLive (take V u) us

IsDistinct-AreNew :
    (V : Ledger) (us : List Utxo)
    → IsDistinct us
    → ((x : Utxo) → contains x us ≡ true → V x ≡ false)
    → AreNew V us
unfolding contains
IsDistinct-AreNew V [] distinct off = tt
IsDistinct-AreNew V (u ∷ us) distinct off = (
  ground (arith, off u, eq_refl u),
  IsDistinct-AreNew (put V u) us distinct.1 (λ x c. ground (arith, off x, eq→path u x, distinct.0)),
)

pub IsDistinct-AreLive :
    (V : Ledger) (us : List Utxo)
    → IsDistinct us
    → ((x : Utxo) → contains x us ≡ true → V x ≡ true)
    → AreLive V us
unfolding contains
IsDistinct-AreLive V [] distinct on = tt
IsDistinct-AreLive V (u ∷ us) distinct on = (
  ground (arith, on u, eq_refl u),
  IsDistinct-AreLive (take V u) us distinct.1
      (λ x c. ground (arith, on x, eq→path u x, distinct.0)),
)

AreNew-IsDistinct : (V : Ledger) (us : List Utxo) → AreNew V us → IsDistinct us
AreNew-IsDistinct V [] new = tt
AreNew-IsDistinct V (u ∷ us) new = (
  ground (arith, AreNew_lem (put V u) us u new.1, eq_refl u),
  AreNew-IsDistinct (put V u) us new.1,
)

module _ (utxo : HashSet Utxo) where
  undo_inputs-Represents :
      (d : Diff) (V : Ledger) (us : List Utxo)
      → Represents utxo d V
      → AreNew V us
      → ((x : Utxo) → contains x us ≡ true → contains x utxo ≡ false)
      → Represents utxo (undo_inputs d us) (put_all V us)
  unfolding undo_inputs contains
  undo_inputs-Represents d V [] r new absent = r
  undo_inputs-Represents d V (u ∷ us) r new absent =
      undo_inputs-Represents (record d { added = insert u d.added }) (put V u) us
        (undo_input-Represents utxo d V u r new.0 (absent u (ground (arith, eq_refl u)))) new.1
        (λ x c. absent x (ground arith))

  undo_outputs-Represents :
      (d : Diff) (V : Ledger) (us : List Utxo)
      → Represents utxo d V
      → AreLive V us
      → Represents utxo (undo_outputs d us) (drop_all V us)
  unfolding undo_outputs
  undo_outputs-Represents d V [] r on = r
  undo_outputs-Represents d V (u ∷ us) r on =
      undo_outputs-Represents (undo_output d u) (take V u) us
        (undo_output-Represents utxo d V u r on.0) on.1

  -- To undo a payment's transaction is to go back to the ledger before it.
  pub undo_txn-Represents :
      (V E : Ledger) (id : Hash) (txn : BitcoinTxn) (V' : Ledger) (r : Replay)
      → Below V E
      → AreNew E (outputs_of id txn)
      → pay V (id, txn) ≡ some V'
      → ((x : Utxo) → contains x (inputs_of txn) ≡ true → contains x utxo ≡ false)
      → Represents utxo r.diff V'
      → Represents utxo (undo_txn r id txn).diff V
  unfolding undo_txn
  undo_txn-Represents V E id txn V' r below new pays absent rep =
      let ins = inputs_of txn in
      let outs = outputs_of id txn in
      let (W, takes, is) = pay-some V id txn V' pays in
      let rep' = subst (Represents utxo r.diff) is rep in
      let spent = IsDistinct-AreNew (put_all W outs) ins (take_all-IsDistinct V ins W takes) (λ x c.
        ground (
          arith,
          put_all_lem W outs x,
          take_all_lem V ins W x takes,
          AreNew_lem E outs x new,
          below x,
        )) in
      let made =
        IsDistinct-AreLive (put_all (put_all W outs) ins) outs (AreNew-IsDistinct E outs new)
          (λ x c. ground (arith, put_all_lem (put_all W outs) ins x, put_all_lem W outs x)) in
      let back =
        undo_outputs-Represents (undo_inputs r.diff ins) (put_all (put_all W outs) ins) outs
          (undo_inputs-Represents r.diff (put_all W outs) ins rep' spent absent) made in
      record {
        is_diff = back.is_diff;
        same = λ x.
            back.same x
            ∙ ground (
              arith,
              drop_all_lem (put_all (put_all W outs) ins) outs x,
              put_all_lem (put_all W outs) ins x,
              put_all_lem W outs x,
              take_all_lem V ins W x takes,
              AreNew_lem E outs x new,
              below x,
            );
      }
