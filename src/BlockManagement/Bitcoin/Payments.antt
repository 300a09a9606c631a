-- ===== src/BlockManagement/Bitcoin/Payments.antt =====
-- Laws of the ledger: what a payment leaves on it, and that a payment can be taken back.
use cbox.Base.{
  List, [], ◌∷◌, some, true, false, not, ◌&&◌, ◌||◌, ◌≡◌, sym, ap, ◌∙◌, nat_eq, list_eq, pair_eq,
  arith, eq→path, eq_refl, Bool-cases, Option-cases, inl, inr, some-injective,
}
use cbox.Base.HashSet.{contains, IsDistinct}
use cbox.Protocol.{Hash, BitcoinTxn}
use cbox.BlockManagement.Bitcoin.{Utxo}
use cbox.BlockManagement.Bitcoin.Utxo.{inputs_of, outputs_of, script_succeeds}
use cbox.BlockManagement.Bitcoin.Ledger.{
  Ledger, take, put, take_all, put_all, pay, pay_all, AreNew, MakeNew, Below,
}

-- Takes the outputs of a transaction off the ledger again.
abbrev pub drop_all : Ledger → List Utxo → Ledger
drop_all V [] = V
drop_all V (u ∷ us) = drop_all (take V u) us

pub put_all_lem : (V : Ledger) (us : List Utxo) (x : Utxo) → put_all V us x ≡ contains x us || V x
unfolding contains
put_all_lem V [] x = ground arith
put_all_lem V (u ∷ us) x = ground (arith, put_all_lem (put V u) us x)

pub drop_all_lem :
    (V : Ledger) (us : List Utxo) (x : Utxo) → drop_all V us x ≡ not (contains x us) && V x
unfolding contains
drop_all_lem V [] x = ground arith
drop_all_lem V (u ∷ us) x = ground (arith, drop_all_lem (take V u) us x)

take_all-cons :
    (V : Ledger) (u : Utxo) (us : List Utxo) {W : Ledger}
    → take_all V (u ∷ us) ≡ some W
    → (V u ≡ true) × (take_all (take V u) us ≡ some W)
take_all-cons V u us h = elim (Bool-cases (V u)) [
  | inl on ↦ (on, rw (on, take_all) at h)
  | inr off ↦ absurd (cc (rw (off, take_all) at h))
]

-- What is left when the inputs are taken, and that they were there.
pub take_all_lem :
    (V : Ledger) (us : List Utxo) (W : Ledger) (x : Utxo)
    → take_all V us ≡ some W
    → (W x ≡ not (contains x us) && V x) × (contains x us ≡ true → V x ≡ true)
unfolding contains
take_all_lem V [] W x h =
    (ap (λ (f : Ledger). f x) (sym (some-injective V W h)), λ c. absurd (cc c))
take_all_lem V (u ∷ us) W x h =
    let (on, rest) = take_all-cons V u us h in
    let (left, there) = take_all_lem (take V u) us W x rest in
    (ground (arith, left), λ c. ground (arith, there, on, eq→path u x))

pub AreNew_lem :
    (V : Ledger) (us : List Utxo) (x : Utxo) → AreNew V us → contains x us ≡ true → V x ≡ false
unfolding contains
AreNew_lem V [] x new c = absurd (cc c)
AreNew_lem V (u ∷ us) x new c = ground (arith, AreNew_lem (put V u) us x new.1, eq→path u x, new.0)

pub put-Below : (V E : Ledger) (u : Utxo) → Below V E → Below (put V u) (put E u)
put-Below V E u below x h = ground (arith, below x)

pub put_all-Below :
    (V E : Ledger) (us : List Utxo) → Below V E → Below (put_all V us) (put_all E us)
put_all-Below V E [] below = below
put_all-Below V E (u ∷ us) below = put_all-Below (put V u) (put E u) us (put-Below V E u below)

-- What is new to a greater ledger is new.
pub AreNew-Below : (V E : Ledger) (us : List Utxo) → Below V E → AreNew E us → AreNew V us
AreNew-Below V E [] below new = tt
AreNew-Below V E (u ∷ us) below new = (
  ground (arith, below u, new.0),
  AreNew-Below (put V u) (put E u) us (put-Below V E u below) new.1,
)

-- A payment that goes through takes the inputs, and then puts the outputs.
pub pay-some :
    (V : Ledger) (id : Hash) (txn : BitcoinTxn) (V' : Ledger)
    → pay V (id, txn) ≡ some V'
    → (W : Ledger) × (take_all V (inputs_of txn) ≡ some W) × (V' ≡ put_all W (outputs_of id txn))
pay-some V id txn V' h = elim (Option-cases (take_all V (inputs_of txn))) [
  | inl short ↦ absurd (cc (rw (short, pay) at h))
  | inr (W, takes) ↦
      let h' = rw (takes, pay) at h in
      elim (Bool-cases (script_succeeds txn)) [
        | inl runs ↦
            (W, takes, sym (some-injective (put_all W (outputs_of id txn)) V' (rw runs at h')))
        | inr fails ↦ absurd (cc (rw fails at h'))
      ]
]

pub take_all-Below :
    (V E : Ledger) (us : List Utxo) (W : Ledger) → Below V E → take_all V us ≡ some W → Below W E
take_all-Below V E us W below takes x h = ground (arith, (take_all_lem V us W x takes).0, below x)

pub pay-Below :
    (V E : Ledger) (id : Hash) (txn : BitcoinTxn) (V' : Ledger)
    → Below V E
    → pay V (id, txn) ≡ some V'
    → Below V' (put_all E (outputs_of id txn))
pay-Below V E id txn V' below h =
    let (W, takes, is) = pay-some V id txn V' h in
    rw is (put_all-Below W E (outputs_of id txn) (take_all-Below V E (inputs_of txn) W below takes))

-- Once spent, an output is never on the ledger again.
pub pay_all-spent :
    (ts : List (Hash × BitcoinTxn)) (V E Vn : Ledger) (u : Utxo)
    → Below V E
    → MakeNew E ts
    → pay_all V ts ≡ some Vn
    → E u ≡ true
    → V u ≡ false
    → Vn u ≡ false
pay_all-spent [] V E Vn u below new h old off =
    ap (λ (f : Ledger). f u) (sym (some-injective V Vn h)) ∙ off
pay_all-spent ((id, txn) ∷ ts) V E Vn u below new h old off =
    elim (Option-cases (pay V (id, txn))) [
      | inl short ↦ absurd (cc (rw (short, pay_all) at h))
      | inr (V', pays) ↦
          let (W, takes, is) = pay-some V id txn V' pays in
          let outs = outputs_of id txn in
          let unmade : contains u outs ≡ false = ground (arith, AreNew_lem E outs u new.0) in
          let off' : V' u ≡ false =
            rw is (
              ground (arith, put_all_lem W outs u, (take_all_lem V (inputs_of txn) W u takes).0)) in
          pay_all-spent ts V' (put_all E outs) Vn u (pay-Below V E id txn V' below pays) new.1
            (rw (pays, pay_all) at h) (ground (arith, put_all_lem E outs u)) off'
    ]

pub take_all-IsDistinct :
    (V : Ledger) (us : List Utxo) (W : Ledger) → take_all V us ≡ some W → IsDistinct us
take_all-IsDistinct V [] W h = tt
take_all-IsDistinct V (u ∷ us) W h =
    let (on, rest) = take_all-cons V u us h in
    (
      ground (arith, (take_all_lem (take V u) us W u rest).1, eq_refl u),
      take_all-IsDistinct (take V u) us W rest,
    )
