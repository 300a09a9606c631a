-- ===== src/Decide/Avalanche/History.antt =====
-- The decision as a state machine: its steps are the calls that the stage makes, and its history what
-- `next_to_commit` has handed out.
use cbox.Base.{
  ℕ, List, [], ◌∷◌, ◌++◌, Option, none, Bool, true, Outcome, ok, assert, >>=-elim, ok-injective,
  ◌==◌, nat_eq, length, ◌≡◌, refl, sym, ap, ◌∙◌, subst, Bool-cases, inl, inr, append_assoc,
  append-nil,
}
use cbox.Base.Departures.{Departed}
use cbox.Base.HashMap.{get}
use cbox.Base.HashSet.{contains, IsDistinct}
use cbox.Protocol.{Hash, NodeId, Signature, Txn, Block, BlkCtx}
use cbox.Decide.Avalanche.{State, Rule, new}
use cbox.Decide.Avalanche.Votes.{Output, handle_timeout, lookup_all, next_to_commit}
use cbox.Decide.Avalanche.Tail.{vote_all, batch_of, answer, new_tail, handle_peer_msg}
use cbox.Decide.Avalanche.Once.{Holds, queued}
use cbox.Decide.Avalanche.Runs.{vote_all-Holds, record_votes-Holds, handle_timeout-Holds}

module _ {C : Type 0} (rule : Rule C) (sign : ℕ → List Bool → Outcome Signature)
    (deserialize : List ℕ → Outcome (ℕ × (List Bool × Signature)))
    (verify : NodeId → ℕ → List Bool → Signature → Outcome Bool) where
  pub data Step : State C → List Hash → State C → Type 0 where
    tail :
        (s : State C) (fuel bfs now : ℕ) (src : NodeId) (blks : List (Block × BlkCtx))
        (r : State C × List Output)
        → new_tail rule sign fuel bfs now s src blks ≡ ok r
        → Step s [] r.0
    message :
        (s : State C) (fuel bfs : ℕ) (src : NodeId) (content : List ℕ) (r : State C × List Output)
        → handle_peer_msg rule deserialize verify fuel bfs s src content ≡ ok r
        → Step s [] r.0
    timeout :
        (s : State C) (fuel bfs : ℕ) (r : State C × List Output)
        → handle_timeout rule fuel bfs s ≡ ok r
        → Step s [] r.0
    commit :
        (s : State C) (blk_id : ℕ) (hashes : List Hash) (rest : List (ℕ × List Hash))
        (r : State C × (ℕ × List Txn))
        → s.commit_queue ≡ (blk_id, hashes) ∷ rest
        → next_to_commit rule s ≡ ok r
        → Step s hashes r.0

  pub data Run : State C → List Hash → State C → Type 0 where
    start : {s : State C} → Run s [] s
    step :
        {s s' s'' : State C} {history hashes : List Hash}
        → Run s history s'
        → Step s' hashes s''
        → Run s (history ++ hashes) s''

  answer-Holds :
      (history : List Hash) (fuel bfs now : ℕ) (s : State C) (proposer : NodeId) (blk_id : ℕ)
      (votes : List Bool) (query_txns : List (Option Hash)) (r : State C × List Output)
      → Holds history s
      → answer rule sign fuel bfs now s proposer blk_id votes query_txns ≡ ok r
      → Holds history r.0
  unfolding answer
  answer-Holds history fuel bfs now s proposer blk_id votes query_txns r holds runs =
      elim (Bool-cases (proposer == s.id)) [
        | inl mine ↦
            record_votes-Holds rule history fuel bfs _ blk_id votes r holds
              (rw (mine, answer) at runs)
        | inr other ↦
            >>=-elim (sign blk_id votes) _ (rw (other, answer) at runs)
              (λ _ _ last. subst (λ q. Holds history q.0) (ok-injective last) holds)
      ]

  new_tail-Holds :
      (history : List Hash) (fuel bfs now : ℕ) (s : State C) (src : NodeId)
      (blks : List (Block × BlkCtx)) (r : State C × List Output)
      → Holds history s
      → new_tail rule sign fuel bfs now s src blks ≡ ok r
      → Holds history r.0
  unfolding new_tail
  new_tail-Holds history fuel bfs now s src [] r holds runs =
      subst (λ q. Holds history q.0) (ok-injective runs) holds
  new_tail-Holds history fuel bfs now s src ((blk, blk_ctx) ∷ []) r holds runs =
      >>=-elim (batch_of blk.header) _ runs (λ batch _ runs1.
        >>=-elim (assert (src == batch.0)) _ runs1 (λ _ _ runs2.
          >>=-elim (assert (length blk.txns == length blk_ctx.txn_ctx)) _ runs2 (λ _ _ runs3.
            >>=-elim (vote_all rule fuel s blk.txns blk_ctx.txn_ctx) _ runs3 (λ r1 votes runs4.
              answer-Holds history fuel bfs now r1.0 batch.0 batch.1 r1.1.0 r1.1.1 r
                (vote_all-Holds rule history fuel s blk.txns blk_ctx.txn_ctx r1 holds votes)
                runs4))))
  new_tail-Holds history fuel bfs now s src (first ∷ second ∷ rest) r holds runs = cc

  handle_peer_msg-Holds :
      (history : List Hash) (fuel bfs : ℕ) (s : State C) (src : NodeId) (content : List ℕ)
      (r : State C × List Output)
      → Holds history s
      → handle_peer_msg rule deserialize verify fuel bfs s src content ≡ ok r
      → Holds history r.0
  unfolding handle_peer_msg
  handle_peer_msg-Holds history fuel bfs s src content r holds runs =
      >>=-elim (deserialize content) _ runs (λ msg _ runs1.
        elim (Bool-cases (contains msg.0 s.finished_query)) [
          | inl finished ↦
              subst (λ q. Holds history q.0) (ok-injective (rw finished at runs1)) holds
          | inr open_query ↦
              >>=-elim (verify src msg.0 msg.1.0 msg.1.1) _ (rw open_query at runs1)
                (λ valid _ runs2. elim (Bool-cases valid) [
                  | inl is_valid ↦
                      record_votes-Holds rule history fuel bfs s msg.0 msg.1.0 r holds
                        (rw is_valid at runs2)
                  | inr forged ↦
                      subst (λ q. Holds history q.0) (ok-injective (rw forged at runs2)) holds
                ])
        ])

  next_to_commit-Holds :
      (history : List Hash) (s : State C) (blk_id : ℕ) (hashes : List Hash)
      (rest : List (ℕ × List Hash)) (r : State C × (ℕ × List Txn))
      → Holds history s
      → s.commit_queue ≡ (blk_id, hashes) ∷ rest
      → next_to_commit rule s ≡ ok r
      → Holds (history ++ hashes) r.0
  unfolding next_to_commit queued
  next_to_commit-Holds history s blk_id hashes rest r holds front runs =
      >>=-elim (lookup_all s.txn_pool hashes) _ (rw (front, next_to_commit) at runs) (λ txns _ last.
        subst (λ q. Holds (history ++ hashes) q.0) (ok-injective last)
          (subst (Departed s.txn_dag s.txn_pool)
            (ap (λ q. history ++ queued q) front ∙ sym (append_assoc history hashes (queued rest)))
            holds))

  Step-Holds :
      {s s' : State C} {hashes : List Hash} (history : List Hash)
      → Step s hashes s'
      → Holds history s
      → Holds (history ++ hashes) s'
  Step-Holds history (tail s fuel bfs now src blks r runs) holds =
      rw (append-nil history) (new_tail-Holds history fuel bfs now s src blks r holds runs)
  Step-Holds history (message s fuel bfs src content r runs) holds =
      rw (append-nil history) (handle_peer_msg-Holds history fuel bfs s src content r holds runs)
  Step-Holds history (timeout s fuel bfs r runs) holds =
      rw (append-nil history) (handle_timeout-Holds rule history fuel bfs s r holds runs)
  Step-Holds history (commit s blk_id hashes rest r front runs) holds =
      next_to_commit-Holds history s blk_id hashes rest r holds front runs

  pub Run-Holds :
      {s s' : State C} {history : List Hash} → Run s history s' → Holds [] s → Holds history s'
  Run-Holds start holds = holds
  Run-Holds (step {history = history} run last) holds =
      Step-Holds history last (Run-Holds run holds)

  pub new-Holds :
      (id : NodeId) (k vote_thresh beta1 beta2 vote_timeout : ℕ)
      → Holds {C = C} [] (new id k vote_thresh beta1 beta2 vote_timeout)
  unfolding new queued contains get
  new-Holds id k vote_thresh beta1 beta2 vote_timeout = record {
    distinct = tt;
    gone = λ h mem. refl;
    known = λ h mem. cc;
    pooled = λ h missing. refl;
  }

  -- Whatever batches, votes and timeouts a node that starts afresh takes, no transaction is twice in what
  -- it has handed out for commitment and what waits to be handed out, and none of these is in its dag
  -- any more.
  pub Run-commits_once :
      (id : NodeId) (k vote_thresh beta1 beta2 vote_timeout : ℕ) (s : State C) (history : List Hash)
      → Run (new id k vote_thresh beta1 beta2 vote_timeout) history s
      → IsDistinct (history ++ queued s.commit_queue)
        × ((h : Hash)
            → contains h (history ++ queued s.commit_queue) ≡ true
            → get h s.txn_dag ≡ none)
  Run-commits_once id k vote_thresh beta1 beta2 vote_timeout s history run =
      let holds = Run-Holds run (new-Holds id k vote_thresh beta1 beta2 vote_timeout) in
      (holds.distinct, holds.gone)
