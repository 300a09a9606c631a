-- ===== src/Decide/Avalanche/Handing.antt =====
-- `next_to_commit` finds what it hands out.
use cbox.Base.{
  ℕ, suc, List, [], ◌∷◌, ◌++◌, none, Bool, true, false, Outcome, ok, unwrap, ◌>>=◌, >>=-runs,
  nat_eq, length, eq_refl, ◌≡◌, refl, sym, ap, ◌∙◌, subst, Option-cases, inl, inr, arith,
}
use cbox.Base.HashMap.{get}
use cbox.Base.HashSet.{contains, contains-append}
use cbox.Protocol.{Hash, NodeId, Signature, Txn}
use cbox.Decide.Avalanche.{State, TxnPool, Rule, new}
use cbox.Decide.Avalanche.Votes.{lookup_all, commit_ready, next_to_commit}
use cbox.Decide.Avalanche.Once.{Holds, queued}
use cbox.Decide.Avalanche.History.{Run, Run-Holds, new-Holds}

lookup_all-ok :
    (pool : TxnPool) (hashes : List Hash)
    → ((h : Hash) → contains h hashes ≡ true → ¬ (get h pool ≡ none))
    → (txns : List Txn) × (lookup_all pool hashes ≡ ok txns) × (length txns ≡ length hashes)
unfolding lookup_all contains
lookup_all-ok pool [] known = ([], refl, refl)
lookup_all-ok pool (h ∷ hs) known = elim (Option-cases (get h pool)) [
  | inl missing ↦ absurd (known h (ground (arith, eq_refl h)) missing)
  | inr (entry, found) ↦
      let (txns, rest, same) = lookup_all-ok pool hs (λ j mem. known j (ground (arith, mem))) in
      (entry.0 ∷ txns, >>=-runs _ entry (ap unwrap found) (>>=-runs _ txns rest refl), ap suc same)
]

module _ {C : Type 0} (rule : Rule C) (sign : ℕ → List Bool → Outcome Signature)
    (deserialize : List ℕ → Outcome (ℕ × (List Bool × Signature)))
    (verify : NodeId → ℕ → List Bool → Signature → Outcome Bool) where
  -- After any run of a node that starts afresh, if `commit_ready` returns then `next_to_commit` does not
  -- fail: it hands out the front of the queue with a transaction for each of its ids, and takes it off.
  pub next_to_commit-returns :
      (id : NodeId) (k vote_thresh beta1 beta2 vote_timeout : ℕ) (s : State C) (history : List Hash)
      → Run rule sign deserialize verify (new id k vote_thresh beta1 beta2 vote_timeout) history s
      → commit_ready rule s ≡ true
      → (blk_id : ℕ) × (hashes : List Hash) × (rest : List (ℕ × List Hash)) × (txns : List Txn)
        × (s.commit_queue ≡ (blk_id, hashes) ∷ rest)
        × (next_to_commit rule s ≡ ok (record s { commit_queue = rest }, (blk_id, txns)))
        × (length txns ≡ length hashes)
  unfolding next_to_commit commit_ready queued
  next_to_commit-returns id k vote_thresh beta1 beta2 vote_timeout s history run ready =
      go s.commit_queue refl ready
    where
      holds : Holds history s
      holds =
          Run-Holds rule sign deserialize verify run
            (new-Holds rule sign deserialize verify id k vote_thresh beta1 beta2 vote_timeout)

      handed :
          (blk_id : ℕ) (hashes : List Hash) (rest : List (ℕ × List Hash)) (txns : List Txn)
          → s.commit_queue ≡ (blk_id, hashes) ∷ rest
          → lookup_all s.txn_pool hashes ≡ ok txns
          → next_to_commit rule s ≡ ok (record s { commit_queue = rest }, (blk_id, txns))
      handed blk_id hashes rest txns front looks =
          ap
            (λ q. elim q [
              | [] ↦ Outcome.panic
              | (b, hs) ∷ r ↦
                  lookup_all s.txn_pool hs >>= (λ ts. ok (record s { commit_queue = r }, (b, ts)))
            ])
            front
          ∙ >>=-runs _ txns looks refl

      go :
          (queue : List (ℕ × List Hash))
          → s.commit_queue ≡ queue
          → elim queue [ [] ↦ false | _ ∷ _ ↦ true ] ≡ true
          → (blk_id : ℕ) × (hashes : List Hash) × (rest : List (ℕ × List Hash)) × (txns : List Txn)
            × (s.commit_queue ≡ (blk_id, hashes) ∷ rest)
            × (next_to_commit rule s ≡ ok (record s { commit_queue = rest }, (blk_id, txns)))
            × (length txns ≡ length hashes)
      go [] front full = cc
      go ((blk_id, hashes) ∷ rest) front full =
          let listed : (h : Hash)
              → contains h hashes ≡ true
              → contains h (history ++ queued s.commit_queue) ≡ true =
            λ h mem.
              subst (λ q. contains h (history ++ queued q) ≡ true) (sym front)
                (ground (
                  arith,
                  contains-append h history (hashes ++ queued rest),
                  contains-append h hashes (queued rest),
                  mem,
                )) in
          let (txns, looks, same) =
            lookup_all-ok s.txn_pool hashes (λ h mem. holds.known h (listed h mem)) in
          (blk_id, hashes, rest, txns, front, handed blk_id hashes rest txns front looks, same)
