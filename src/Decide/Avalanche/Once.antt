-- ===== src/Decide/Avalanche/Once.antt =====
-- No transaction is committed twice: the state machine of the decision, and what holds of what it has
-- handed out and of what waits to be.
use cbox.Base.{
  ℕ, List, [], ◌∷◌, ◌++◌, Option, none, some, ok, unwrap, assert, >>=-elim, ok-injective, ◌==◌,
  nat_eq, leb, length, ◌≡◌, refl, sym, ap, ◌∙◌, subst, Bool-cases, Option-cases, inl, inr,
  append-nil, append_assoc,
}
use cbox.Base.HashMap.{HashMap, get, get-insert, contains_key}
use cbox.Base.HashMap
use cbox.Base.Departures.{Departed, Departed-leave}
use cbox.Base.HashSet.{HashSet, contains, contains-append, IsDistinct, IsDistinct-append}
use cbox.Base.HashSet
use cbox.Protocol.{Hash}
use cbox.TimeQueue
use cbox.Decide.Avalanche.{State, Rule}
use cbox.Decide.Avalanche.Accept.{handle_votes_helper}
use cbox.Decide.Avalanche.Commits.{Commits, Commits-refl, Commits-trans}
use cbox.Decide.Avalanche.Visits.{Walk-Commits, handle_votes_helper-Walk}
use cbox.Decide.Avalanche.Frames.{vote_failed-ResetOnly}
use cbox.Decide.Avalanche.Votes.{Output, judge_txn, judge_txns, vote_failed, handle_votes}

-- All that waits in the commit queue.
unfoldable pub queued : List (ℕ × List Hash) → List Hash
queued [] = []
queued ((blk_id, hashes) ∷ rest) = hashes ++ queued rest

queued-append : (q r : List (ℕ × List Hash)) → queued (q ++ r) ≡ queued q ++ queued r
unfolding queued
queued-append [] r = refl
queued-append ((blk_id, hashes) ∷ q) r =
    ap (λ l. hashes ++ l) (queued-append q r) ∙ sym (append_assoc hashes (queued q) (queued r))

module _ {C : Type 0} where
  -- That of a state, whose history is what it has handed out.
  abbrev pub Holds : List Hash → State C → Type 0
  Holds history s = Departed s.txn_dag s.txn_pool (history ++ queued s.commit_queue)

  Decided-Commits :
      (s s' : State C) (all list : List Hash)
      → Departed s.txn_dag s.txn_pool all
      → Commits s list s'
      → Departed s'.txn_dag s'.txn_pool (all ++ list)
  Decided-Commits s s' all list was step =
      subst (λ p. Departed s'.txn_dag p (all ++ list)) (sym step.same_pool)
        (Departed-leave s.txn_dag s'.txn_dag s.txn_pool all list was step.distinct step.were
          step.gone (λ h e. elim (step.sub h) [ inl f ↦ f | inr f ↦ f ∙ e ]))

  -- Where the dag, the pool and the queue are the same, so is what holds.
  Commits-same :
      (s s' : State C)
      → s'.txn_dag ≡ s.txn_dag
      → s'.txn_pool ≡ s.txn_pool
      → s'.commit_queue ≡ s.commit_queue
      → s'.votes ≡ s.votes
      → Commits s [] s'
  unfolding contains
  Commits-same s s' dag pool queue votes = record {
    sub = λ h. inr (ap (get h) dag);
    were = λ h mem. cc;
    gone = λ h mem. cc;
    distinct = tt;
    same_pool = pool;
    same_queue = queue;
    same_votes = votes;
  }

module _ {C : Type 0} (rule : Rule C) where
  judge_txn-Commits :
      (fuel bfs : ℕ) (s : State C) (h : Hash) (accepts : ℕ) (r : State C × List Hash)
      → judge_txn rule fuel bfs s h accepts ≡ ok r
      → Commits s r.1 r.0
  unfolding judge_txn
  judge_txn-Commits fuel bfs s h accepts r runs = elim (Bool-cases (leb s.vote_thresh accepts)) [
    | inl passed ↦
        >>=-elim (handle_votes_helper rule fuel bfs s h []) _ (rw (passed, judge_txn) at runs)
          (λ r1 helper last.
            subst (λ q. Commits s q.1 q.0) (ok-injective last)
              (Walk-Commits rule bfs (handle_votes_helper-Walk rule bfs fuel s h [] r1 helper)))
    | inr failed ↦
        >>=-elim (vote_failed rule bfs s h) _ (rw (failed, judge_txn) at runs) (λ s1 resets last.
          let (sets, e) = vote_failed-ResetOnly rule bfs s h s1 resets in
          subst (λ q. Commits s q.1 q.0) (ok-injective last)
            (Commits-same s s1 (ap (λ t. t.txn_dag) e) (ap (λ t. t.txn_pool) e)
              (ap (λ t. t.commit_queue) e) (ap (λ t. t.votes) e)))
  ]

  pub judge_txns-Commits :
      (fuel bfs : ℕ) (s : State C) (txns : List (Option Hash)) (accept_votes : List ℕ)
      (r : State C × List Hash)
      → judge_txns rule fuel bfs s txns accept_votes ≡ ok r
      → Commits s r.1 r.0
  unfolding judge_txns
  judge_txns-Commits fuel bfs s [] accept_votes r runs =
      subst (λ q. Commits s q.1 q.0) (ok-injective runs) (Commits-refl s)
  judge_txns-Commits fuel bfs s (txn ∷ txns) [] r runs = cc
  judge_txns-Commits fuel bfs s (none ∷ txns) (accepts ∷ accept_votes) r runs =
      judge_txns-Commits fuel bfs s txns accept_votes r runs
  judge_txns-Commits fuel bfs s (some h ∷ txns) (accepts ∷ accept_votes) r runs =
      >>=-elim (judge_txn rule fuel bfs s h accepts) _ runs (λ r1 first runs1.
        >>=-elim (judge_txns rule fuel bfs r1.0 txns accept_votes) _ runs1 (λ r2 rest last.
          subst (λ q. Commits s q.1 q.0) (ok-injective last)
            (Commits-trans s r1.1 r1.0 r2.1 r2.0 (judge_txn-Commits fuel bfs s h accepts r1 first)
              (judge_txns-Commits fuel bfs r1.0 txns accept_votes r2 rest))))

  pub handle_votes-Holds :
      (history : List Hash) (fuel bfs : ℕ) (s : State C) (blk_id : ℕ) (r : State C × List Output)
      → Holds history s
      → handle_votes rule fuel bfs s blk_id ≡ ok r
      → Holds history r.0
  unfolding handle_votes queued
  handle_votes-Holds history fuel bfs s blk_id r holds runs =
      elim (Option-cases (get blk_id s.query_pool)) [
        | inl unknown ↦
            subst (λ q. Holds history q.0) (ok-injective (rw (unknown, handle_votes) at runs)) holds
        | inr (txns, asked) ↦
            >>=-elim (unwrap (get blk_id s.votes)) _ (rw (asked, handle_votes) at runs)
              (λ counts _ runs1.
                >>=-elim (assert (length txns == length counts.1)) _ runs1 (λ _ _ runs2.
                  >>=-elim
                    (judge_txns rule fuel bfs
                      (record s {
                        query_pool = HashMap.remove blk_id s.query_pool;
                        votes = HashMap.remove blk_id s.votes;
                        finished_query = HashSet.insert blk_id s.finished_query;
                        vote_time_queue = (TimeQueue.remove blk_id s.vote_time_queue).0;
                      })
                      txns counts.1)
                    _ runs2
                    (λ r1 judges last.
                      subst (λ q. Holds history q.0) (ok-injective last)
                        (push r1 (judge_txns-Commits fuel bfs _ txns counts.1 r1 judges)))))
      ]
    where
      s1 : State C
      s1 = record s {
        query_pool = HashMap.remove blk_id s.query_pool;
        votes = HashMap.remove blk_id s.votes;
        finished_query = HashSet.insert blk_id s.finished_query;
        vote_time_queue = (TimeQueue.remove blk_id s.vote_time_queue).0;
      }

      push :
          (r1 : State C × List Hash)
          → Commits s1 r1.1 r1.0
          → Holds history (record r1.0 { commit_queue = r1.0.commit_queue ++ (blk_id, r1.1) ∷ [] })
      push (s2, list) step =
          subst (Departed s2.txn_dag s2.txn_pool)
            (append_assoc history (queued s.commit_queue) list
              ∙ ap (λ l. history ++ l)
                  (ap (λ l. queued s.commit_queue ++ l) (sym (append-nil list))
                    ∙ sym (queued-append s.commit_queue ((blk_id, list) ∷ []))
                    ∙ ap (λ q. queued (q ++ (blk_id, list) ∷ [])) (sym step.same_queue)))
            (Decided-Commits s1 s2 (history ++ queued s.commit_queue) list holds step)
