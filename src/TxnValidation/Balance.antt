-- ===== src/TxnValidation/Balance.antt =====
-- What the balance check of a transfer decides.
use cbox.Base.{
  ℕ, ◌+◌, ◌%◌, ◌<◌, List, [], ◌∷◌, ◌++◌, Option, none, some, ◌≡◌, refl, sym, ap, ◌∙◌, ◌⊎◌, inl, inr,
  Outcome, ok, All, append-nil, append_assoc, >>=-eq-ok, arith, nat_eq, Option-cases, length,
  length-append, panic,
}
use cbox.Base.HashMap.{get}
use cbox.Protocol.{Hash, PubKey, Txn, TxnCtx}
use cbox.TxnValidation.Pool.{TxnPool}
use cbox.TxnValidation.Ledger.{u64, gather, sum_inputs}

module _ {T : Type 0} (as_txn : Txn → Option T) where
  -- The hashes are those of these transactions of the pool.
  abbrev pub Holds : TxnPool → List Hash → List T → Type 0
  Holds pool [] [] = Unit
  Holds pool [] (t ∷ ts) = ⊥
  Holds pool (h ∷ hs) [] = ⊥
  Holds pool (h ∷ hs) (t ∷ ts) =
      ((e : Txn × TxnCtx) × (get h pool ≡ some e) × (as_txn e.0 ≡ some t)) × Holds pool hs ts

  module _ (pool : TxnPool) (h : Hash) (hs : List Hash) (found : List T) (deps : List Hash) where
    gather_absent :
        get h pool ≡ none
        → gather as_txn pool (h ∷ hs) found deps ≡ gather as_txn pool hs found (deps ++ h ∷ [])
    unfolding gather
    gather_absent absent = rw (absent, gather)

    gather_held :
        (e : Txn × TxnCtx) (t : T)
        → get h pool ≡ some e
        → as_txn e.0 ≡ some t
        → gather as_txn pool (h ∷ hs) found deps ≡ gather as_txn pool hs (found ++ t ∷ []) deps
    unfolding gather
    gather_held e t held is_t = rw (held, gather) (rw (is_t, gather))

    gather_other :
        (e : Txn × TxnCtx)
        → get h pool ≡ some e
        → as_txn e.0 ≡ none
        → gather as_txn pool (h ∷ hs) found deps ≡ panic
    unfolding gather
    gather_other e held other = rw (held, gather) (rw (other, gather))

    -- The three things that a round of the loop does.
    gather-cases :
        ((get h pool ≡ none)
          × (gather as_txn pool (h ∷ hs) found deps ≡ gather as_txn pool hs found (deps ++ h ∷ [])))
        ⊎ ((e : Txn × TxnCtx) × (t : T) × (get h pool ≡ some e)
            × (as_txn e.0 ≡ some t)
            × (gather as_txn pool (h ∷ hs) found deps
                ≡ gather as_txn pool hs (found ++ t ∷ []) deps))
        ⊎ (gather as_txn pool (h ∷ hs) found deps ≡ panic)
    gather-cases = elim (Option-cases (get h pool)) [
      | inl absent ↦ inl (absent, gather_absent absent)
      | inr (e, held) ↦ elim (Option-cases (as_txn e.0)) [
        | inl other ↦ inr (inr (gather_other e held other))
        | inr (t, is_t) ↦ inr (inl (e, t, held, is_t, gather_held e t held is_t))
      ]
    ]

  -- What the loop reports as missing, the pool does not hold.
  pub gather-missing :
      (pool : TxnPool) (hs : List Hash) (found : List T) (deps : List Hash) {r : List T × List Hash}
      → gather as_txn pool hs found deps ≡ ok r
      → (more : List Hash) × (r.1 ≡ deps ++ more) × All (λ d. get d pool ≡ none) more
  unfolding gather
  gather-missing pool [] found deps p = ([], rw append-nil (cc), tt)
  gather-missing pool (h ∷ hs) found deps p = elim (gather-cases pool h hs found deps) [
    | inl (absent, step) ↦
        let (more, split, all) = gather-missing pool hs found (deps ++ h ∷ []) (sym step ∙ p) in
        (h ∷ more, split ∙ append_assoc deps (h ∷ []) more, (absent, all))
    | inr (inl (e, t, held, is_t, step)) ↦
        gather-missing pool hs (found ++ t ∷ []) deps (sym step ∙ p)
    | inr (inr fault) ↦ absurd (cc (sym fault ∙ p))
  ]

  pub gather-Holds :
      (pool : TxnPool) (hs : List Hash) (found found' : List T) (deps : List Hash)
      → gather as_txn pool hs found deps ≡ ok (found', [])
      → (ts : List T) × (found' ≡ found ++ ts) × Holds pool hs ts
  unfolding gather
  gather-Holds pool [] found found' deps p = ([], rw append-nil (cc), tt)
  gather-Holds pool (h ∷ hs) found found' deps p = elim (gather-cases pool h hs found deps) [
    | inl (absent, step) ↦
        let (more, split, _) = gather-missing pool hs found (deps ++ h ∷ []) (sym step ∙ p) in
        absurd (
          omega (
            arith,
            ap length split,
            length-append (deps ++ h ∷ []) more,
            length-append deps (h ∷ []),
          ))
    | inr (inl (e, t, held, is_t, step)) ↦
        let (ts, split, holds) =
          gather-Holds pool hs (found ++ t ∷ []) found' deps (sym step ∙ p) in
        (t ∷ ts, split ∙ append_assoc found (t ∷ []) ts, ((e, held, is_t), holds))
    | inr (inr fault) ↦ absurd (cc (sym fault ∙ p))
  ]

  pub gather_of_Holds :
      (pool : TxnPool) (hs : List Hash) (found : List T) (deps : List Hash) (ts : List T)
      → Holds pool hs ts
      → gather as_txn pool hs found deps ≡ ok (found ++ ts, deps)
  unfolding gather
  gather_of_Holds pool [] found deps [] h = rw append-nil
  gather_of_Holds pool [] found deps (t ∷ ts) h = absurd h
  gather_of_Holds pool (h ∷ hs) found deps [] p = absurd p
  gather_of_Holds pool (h ∷ hs) found deps (t ∷ ts) ((e, held, is_t), p) =
      gather_held pool h hs found deps e t held is_t
      ∙ gather_of_Holds pool hs (found ++ t ∷ []) deps ts p
      ∙ ap (λ (l : List T). ok (l, deps)) (append_assoc found (t ∷ []) ts)

module _ {T : Type 0} (value_for : PubKey → T → Outcome (Option ℕ)) where
  -- All of these are the sender's to spend, and their values to the sender add up to the total.
  abbrev pub Worth : PubKey → List T → ℕ → Type 0
  Worth sender [] total = total ≡ 0
  Worth sender (t ∷ ts) total =
      (value : ℕ) × (rest : ℕ) × (value_for sender t ≡ ok (some value))
      × Worth sender ts rest
      × (total ≡ value + rest)

  pub sum_inputs-Worth :
      (sender : PubKey) (ts : List T) (start sum : ℕ)
      → start < u64
      → sum_inputs value_for sender ts start ≡ ok (some sum)
      → (total : ℕ) × Worth sender ts total × (sum ≡ (start + total) % u64)
  unfolding sum_inputs
  sum_inputs-Worth sender [] start sum small h = (0, refl, ground arith)
  sum_inputs-Worth sender (t ∷ ts) start sum small h =
      let (found, says, h₁) = >>=-eq-ok (value_for sender t) _ h in
      elim (Option-cases found) [
        | inl nothing ↦ absurd (cc (rw nothing at h₁))
        | inr (value, is_value) ↦
            let (rest, worth, sums) =
              sum_inputs-Worth sender ts ((start + value) % u64) sum (omega arith)
                (rw is_value at h₁) in
            (value + rest, (value, rest, says ∙ ap ok is_value, worth, refl), omega arith)
      ]

  pub sum_inputs_of_Worth :
      (sender : PubKey) (ts : List T) (start total : ℕ)
      → start < u64
      → Worth sender ts total
      → sum_inputs value_for sender ts start ≡ ok (some ((start + total) % u64))
  unfolding sum_inputs
  sum_inputs_of_Worth sender [] start total small h = ground arith
  sum_inputs_of_Worth sender (t ∷ ts) start total small (value, rest, says, worth, adds) = rw says (
      sum_inputs_of_Worth sender ts ((start + value) % u64) rest (omega arith) worth
      ∙ ap (λ (n : ℕ). ok (some n)) (omega arith))
