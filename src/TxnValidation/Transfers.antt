-- ===== src/TxnValidation/Transfers.antt =====
-- Which transfers the check lets through, against a description that does not follow the code.
use cbox.Base.{
  ◌≢◌, ℕ, ◌+◌, ◌%◌, List, [], ◌∷◌, Option, none, true, ◌≡◌, refl, sym, ap, ◌∙◌, ◌↔◌, inl, inr,
  Outcome, ok, All, >>=-eq-ok, arith, nat_eq, Option-cases, ◌==◌, subst,
}
use cbox.Base.HashMap.{get, insert}
use cbox.Protocol.{Hash, PubKey, Txn, TxnCtx}
use cbox.TxnValidation.Pool.{TxnPool, verdict, missing}
use cbox.TxnValidation.Ledger.{u64, gather, sum_inputs, compare_values, settle, validate_send}
use cbox.TxnValidation.Growth.{get-insert_new}
use cbox.TxnValidation.Balance.{
  Holds, Worth, gather-missing, gather-Holds, gather_of_Holds, sum_inputs-Worth,
  sum_inputs_of_Worth,
}

module _ {T : Type 0} (as_txn : Txn → Option T) (value_for : PubKey → T → Outcome (Option ℕ)) where
  -- Every input is in the pool and the sender's to spend, and the inputs are worth the outputs, as
  -- u64 numbers.
  pub record IsFunded (pool : TxnPool) (sender : PubKey) (in_utxo : List Hash)
      (out_utxo remainder : ℕ) : Type 0 where
    pub parents : List T
    pub total : ℕ
    pub held : Holds as_txn pool in_utxo parents
    pub worth : Worth value_for sender parents total
    pub balanced : total % u64 ≡ (out_utxo + remainder) % u64

  module _ (sender : PubKey) (out_utxo remainder : ℕ) where
    settle-true :
        (parents : List T) (deps : List Hash)
        → settle value_for sender out_utxo remainder parents deps ≡ ok (verdict true)
        → (deps ≡ [])
          × ((total : ℕ) × Worth value_for sender parents total
              × (total % u64 ≡ (out_utxo + remainder) % u64))
    unfolding settle compare_values
    settle-true parents (d ∷ ds) h = absurd (cc h)
    settle-true parents [] h =
        let (found, sums, h₁) = >>=-eq-ok (sum_inputs value_for sender parents 0) _ h in
        elim (Option-cases found) [
          | inl nothing ↦ absurd (cc (rw nothing at h₁))
          | inr (sum, is_sum) ↦
              let (total, worth, adds) =
                sum_inputs-Worth value_for sender parents 0 sum (omega arith)
                  (sums ∙ ap ok is_sum) in
              let same : (sum == (out_utxo + remainder) % u64) ≡ true = cc (rw is_sum at h₁) in
              (refl, (total, worth, ground arith))
        ]

    settle-missing :
        (parents : List T) (deps deps' : List Hash)
        → settle value_for sender out_utxo remainder parents deps ≡ ok (missing deps')
        → (deps ≡ deps') × (deps' ≢ [])
    unfolding settle compare_values
    settle-missing parents (d ∷ ds) deps' h =
        let same : (d ∷ ds) ≡ deps' = cc in (same, λ e. absurd (cc (same ∙ e)))
    settle-missing parents [] deps' h =
        let (found, sums, h₁) = >>=-eq-ok (sum_inputs value_for sender parents 0) _ h in
        elim (Option-cases found) [
          | inl nothing ↦ absurd (cc (rw nothing at h₁))
          | inr (sum, is_sum) ↦ absurd (cc (rw is_sum at h₁))
        ]

    module _ (pool : TxnPool) (in_utxo : List Hash) where
      -- A transfer passes exactly when it is funded: every input is in the pool, each is the
      -- sender's to spend, and their values add up, as u64 numbers, to the outputs.
      pub validate_send_iff :
          (validate_send as_txn value_for pool sender in_utxo out_utxo remainder
            ≡ ok (verdict true))
          ↔ IsFunded pool sender in_utxo out_utxo remainder
      unfolding validate_send settle compare_values
      validate_send_iff = (
        λ h.
            let (found, gathers, h₁) = >>=-eq-ok (gather as_txn pool in_utxo [] []) _ h in
            let (none_missing, (total, worth, balanced)) = settle-true found.0 found.1 h₁ in
            let (ts, same, held) =
              gather-Holds as_txn pool in_utxo [] found.0 []
                (gathers ∙ ap (λ (l : List Hash). ok (found.0, l)) none_missing) in
            record {
              parents = found.0;
              total = total;
              held = subst (Holds as_txn pool in_utxo) (sym same) held;
              worth = worth;
              balanced = balanced;
            },
        λ f. rw (gather_of_Holds as_txn pool in_utxo [] [] f.parents f.held) (
            rw (sum_inputs_of_Worth value_for sender f.parents 0 f.total (omega arith) f.worth)
              (ground (arith, f.balanced))),
      )

      pub validate_send-missing :
          (deps : List Hash)
          → validate_send as_txn value_for pool sender in_utxo out_utxo remainder
            ≡ ok (missing deps)
          → (deps ≢ []) × All (λ d. get d pool ≡ none) deps
      unfolding validate_send
      validate_send-missing deps h =
          let (found, gathers, h₁) = >>=-eq-ok (gather as_txn pool in_utxo [] []) _ h in
          let (more, split, absent) = gather-missing as_txn pool in_utxo [] [] gathers in
          let (same, named) = settle-missing found.0 found.1 deps h₁ in
          (named, subst (All (λ d. get d pool ≡ none)) (sym split ∙ same) absent)

    Holds-insert :
        (pool : TxnPool) (k : Hash) (v : Txn × TxnCtx) (hs : List Hash) (ts : List T)
        → get k pool ≡ none
        → Holds as_txn pool hs ts
        → Holds as_txn (insert k v pool) hs ts
    Holds-insert pool k v [] [] new p = p
    Holds-insert pool k v [] (t ∷ ts) new p = p
    Holds-insert pool k v (h ∷ hs) [] new p = p
    Holds-insert pool k v (h ∷ hs) (t ∷ ts) new ((e, held, is_t), p) =
        ((e, get-insert_new k h v e pool new held, is_t), Holds-insert pool k v hs ts new p)

    -- A funded transfer stays funded while the pool grows.
    pub IsFunded-insert :
        (pool : TxnPool) (in_utxo : List Hash) (k : Hash) (v : Txn × TxnCtx)
        → get k pool ≡ none
        → IsFunded pool sender in_utxo out_utxo remainder
        → IsFunded (insert k v pool) sender in_utxo out_utxo remainder
    IsFunded-insert pool in_utxo k v new f = record {
      parents = f.parents;
      total = f.total;
      held = Holds-insert pool k v in_utxo f.parents new f.held;
      worth = f.worth;
      balanced = f.balanced;
    }
