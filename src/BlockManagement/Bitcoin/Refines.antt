-- ===== src/BlockManagement/Bitcoin/Refines.antt =====
-- The three sets of `validate_block` implement the ledger, step by step.
use cbox.Base.{
  List, [], ◌∷◌, Option, none, some, true, false, not, ◌&&◌, ◌≡◌, nat_eq, list_eq, pair_eq, arith,
  eq→path, Bool-cases, inl, inr,
}
use cbox.Base.HashSet.{HashSet, contains, insert, remove, contains-insert, contains-remove}
use cbox.BlockManagement.Bitcoin.{Utxo}
use cbox.BlockManagement.Bitcoin.Utxo.{
  Diff, spend, spend_all, make_output, make_outputs, undo_output,
}
use cbox.BlockManagement.Bitcoin.Ledger.{Ledger, take, put, take_all, put_all, AreNew, Represents}

module _ (utxo : HashSet Utxo) (d : Diff) (V : Ledger) (u : Utxo) (r : Represents utxo d V) where
  -- What is not on the ledger cannot be spent.
  spend-none : V u ≡ false → spend utxo d u ≡ none
  unfolding spend
  spend-none off = ground (arith, r.same u)

  spend-Represents :
      V u ≡ true → (d' : Diff) × (spend utxo d u ≡ some d') × Represents utxo d' (take V u)
  unfolding spend
  spend-Represents on = elim (Bool-cases (contains u d.added)) [
    | inl new ↦ (
      record d { added = remove u d.added },
      rw new,
      record {
        is_diff = record {
          apart = λ x h. r.is_diff.apart x (ground (arith, contains-remove u x d.added));
          within = λ x h. r.is_diff.within x h;
        };
        same = λ x.
            ground (arith, contains-remove u x d.added, r.same x, r.is_diff.apart u, eq→path u x);
      },
    )
    | inr old ↦
        let there : (contains u utxo && not (contains u d.gone)) ≡ true =
          ground (arith, r.same u) in
        (
          record d { gone = insert u d.gone },
          rw old (rw there),
          record {
            is_diff = record {
              apart = λ x h. r.is_diff.apart x h;
              within = λ x h.
                  ground
                    (arith, contains-insert u x d.gone, r.is_diff.within x, eq→path u x, there);
            };
            same = λ x. ground (arith, contains-insert u x d.gone, r.same x, eq→path u x);
          },
        )
  ]

  make_output-Represents : V u ≡ false → Represents utxo (make_output d u) (put V u)
  unfolding make_output
  make_output-Represents off = elim (Bool-cases (contains u d.gone)) [
    | inl gone ↦ rw gone (record {
      is_diff = record {
        apart = λ x h. r.is_diff.apart x h;
        within = λ x h. r.is_diff.within x (ground (arith, contains-remove u x d.gone));
      };
      same = λ x.
          ground
            (arith, contains-remove u x d.gone, r.same x, r.is_diff.within u gone, eq→path u x);
    })
    | inr kept ↦ rw kept (record {
      is_diff = record {
        apart = λ x h.
            ground (arith, contains-insert u x d.added, r.is_diff.apart x, eq→path u x, r.same u);
        within = λ x h. r.is_diff.within x h;
      };
      same = λ x. ground (arith, contains-insert u x d.added, r.same x);
    })
  ]

  -- Undoing an output takes it off the ledger.
  pub undo_output-Represents : V u ≡ true → Represents utxo (undo_output d u) (take V u)
  unfolding undo_output
  undo_output-Represents on = elim (Bool-cases (contains u d.added)) [
    | inl new ↦ rw new (record {
      is_diff = record {
        apart = λ x h. r.is_diff.apart x (ground (arith, contains-remove u x d.added));
        within = λ x h. r.is_diff.within x h;
      };
      same = λ x.
          ground (arith, contains-remove u x d.added, r.same x, r.is_diff.apart u, eq→path u x);
    })
    | inr old ↦ rw old (record {
      is_diff = record {
        apart = λ x h. r.is_diff.apart x h;
        within = λ x h.
            ground (arith, contains-insert u x d.gone, r.is_diff.within x, eq→path u x, r.same u);
      };
      same = λ x. ground (arith, contains-insert u x d.gone, r.same x, eq→path u x);
    })
  ]

  -- Undoing an input puts it back; it is none of the outputs that the node now holds unspent.
  pub undo_input-Represents :
      V u ≡ false
      → contains u utxo ≡ false
      → Represents utxo (record d { added = insert u d.added }) (put V u)
  undo_input-Represents off absent = record {
    is_diff = record {
      apart = λ x h.
          ground (arith, contains-insert u x d.added, r.is_diff.apart x, eq→path u x, absent);
      within = λ x h. r.is_diff.within x h;
    };
    same = λ x. ground (arith, contains-insert u x d.added, r.same x);
  }

-- A result of the code and one of the ledger: both fail, or the one stands for the other.
abbrev pub Agree : HashSet Utxo → Option Diff → Option Ledger → Type 0
Agree utxo none none = Unit
Agree utxo none (some V) = ⊥
Agree utxo (some d) none = ⊥
Agree utxo (some d) (some V) = Represents utxo d V

module _ (utxo : HashSet Utxo) where
  pub spend_all-Agree :
      (d : Diff) (V : Ledger) (us : List Utxo)
      → Represents utxo d V
      → Agree utxo (spend_all utxo d us) (take_all V us)
  unfolding spend_all
  spend_all-Agree d V [] r = r
  spend_all-Agree d V (u ∷ us) r = elim (Bool-cases (V u)) [
    | inl on ↦
        let (d', spends, r') = spend-Represents utxo d V u r on in
        rw (on, take_all) (rw (spends, spend_all) (spend_all-Agree d' (take V u) us r'))
    | inr off ↦ rw (off, take_all) (rw (spend-none utxo d V u r off, spend_all) tt)
  ]

  pub make_outputs-Represents :
      (d : Diff) (V : Ledger) (us : List Utxo)
      → Represents utxo d V
      → AreNew V us
      → Represents utxo (make_outputs d us) (put_all V us)
  unfolding make_outputs
  make_outputs-Represents d V [] r new = r
  make_outputs-Represents d V (u ∷ us) r new =
      make_outputs-Represents (make_output d u) (put V u) us
        (make_output-Represents utxo d V u r new.0) new.1
