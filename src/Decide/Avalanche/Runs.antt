-- ===== src/Decide/Avalanche/Runs.antt =====
-- The decision as a state machine, whose steps are the calls of the stage, and its history.
use cbox.Base.{
  ℕ, suc, List, [], ◌∷◌, ◌++◌, Option, none, some, Bool, ok, unwrap, assert, >>=-elim, ok-injective,
  ◌==◌, nat_eq, eq→path, if◌then◌else◌, leb, length, ◌≡◌, sym, ◌∙◌, subst, Bool-cases, Option-cases,
  inl, inr,
}
use cbox.Base.Departures.{Departed, Departed-enter}
use cbox.Base.HashMap.{HashMap, get, get-insert, contains_key, is_some}
use cbox.Base.HashMap
use cbox.Base.HashSet.{contains}
use cbox.Protocol.{Hash, Txn, TxnCtx, AvalancheTxn, as_avalanche}
use cbox.TimeQueue
use cbox.Decide.Avalanche.{State, DagNode, TxnDag, TxnPool, Rule}
use cbox.Decide.Avalanche.Preference.{is_strongly_preferred}
use cbox.Decide.Avalanche.Frames.{is_strongly_preferred-CacheOnly}
use cbox.Decide.Avalanche.Votes.{Output, record_votes, votes_of, handle_timeout}
use cbox.Decide.Avalanche.Tail.{add_child, add_node, enter, record_txn, vote_on, vote_all}
use cbox.Decide.Avalanche.Once.{Holds, handle_votes-Holds}

add_child-none :
    (x : Hash) (ps : List Hash) (dag : TxnDag) (h : Hash)
    → get h dag ≡ none
    → get h (add_child x ps dag) ≡ none
unfolding add_child
add_child-none x [] dag h e = e
add_child-none x (p ∷ ps) dag h e = elim (Option-cases (get p dag)) [
  | inl gone ↦ rw (gone, add_child) (add_child-none x ps dag h e)
  | inr (node, found) ↦
      rw (found, add_child)
        (add_child-none x ps
          (HashMap.insert p (record node { children = node.children ++ x ∷ [] }) dag) h
          (get-insert p h (record node { children = node.children ++ x ∷ [] }) dag
            ∙ other p node found))
]
  where
    other :
        (p : Hash) (node : DagNode)
        → get p dag ≡ some node
        → (if p == h then some (record node { children = node.children ++ x ∷ [] }) else get h dag)
          ≡ none
    other p node found = elim (Bool-cases (p == h)) [
      | inl same ↦ cc (found, e, eq→path p h same)
      | inr differs ↦ rw differs e
    ]

-- A transaction that was not known is not among those decided, and enters.
Decided-enter :
    (dag : TxnDag) (pool : TxnPool) (all : List Hash) (x : Hash) (ps : List Hash) (node : DagNode)
    (entry : Txn × TxnCtx)
    → get x pool ≡ none
    → Departed dag pool all
    → Departed (add_child x ps (HashMap.insert x node dag)) (HashMap.insert x entry pool) all
Decided-enter dag pool all x ps node entry fresh =
    Departed-enter dag (add_child x ps (HashMap.insert x node dag)) pool all x entry fresh
      (λ h differs gone.
        add_child-none x ps (HashMap.insert x node dag) h
          (get-insert x h node dag ∙ (rw differs gone)))

module _ {C : Type 0} (rule : Rule C) (history : List Hash) where
  record_txn-Holds :
      (s : State C) (txn : Txn) (txn_ctx : TxnCtx) (avax_txn : AvalancheTxn)
      → Holds history s
      → Holds history (record_txn rule s txn txn_ctx avax_txn)
  unfolding record_txn contains_key enter add_node
  record_txn-Holds s txn txn_ctx avax_txn holds = elim (Option-cases (get txn_ctx.id s.txn_pool)) [
    | inl fresh ↦ rw (fresh, record_txn) (go avax_txn fresh)
    | inr (entry, found) ↦ rw (found, record_txn) holds
  ]
    where
      go :
          (avax : AvalancheTxn)
          → get txn_ctx.id s.txn_pool ≡ none
          → Holds history (enter rule s txn txn_ctx avax)
      go (AvalancheTxn.grant _ _ _) fresh =
          Decided-enter s.txn_dag s.txn_pool _ txn_ctx.id [] _ (txn, txn_ctx) fresh holds
      go (AvalancheTxn.noop parents) fresh =
          Decided-enter s.txn_dag s.txn_pool _ txn_ctx.id parents _ (txn, txn_ctx) fresh holds
      go (AvalancheTxn.send sender in_utxo _ _ _ _) fresh =
          Decided-enter s.txn_dag s.txn_pool _ txn_ctx.id in_utxo _ (txn, txn_ctx) fresh holds
      go AvalancheTxn.place_holder fresh = holds

  asked-Holds :
      (fuel : ℕ) (s : State C) (h : Hash) (r : State C × Bool)
      → Holds history s
      → is_strongly_preferred fuel s h ≡ ok r
      → Holds history r.0
  asked-Holds fuel s h r holds runs =
      let (cache, e) = is_strongly_preferred-CacheOnly fuel s h r runs in
      subst (Holds history) (sym e) holds

  vote_on-Holds :
      (fuel : ℕ) (s : State C) (txn : Txn) (txn_ctx : TxnCtx) (avax_txn : AvalancheTxn)
      (r : State C × (Bool × Option Hash))
      → Holds history s
      → vote_on rule fuel s txn txn_ctx avax_txn ≡ ok r
      → Holds history r.0
  unfolding vote_on
  vote_on-Holds fuel s txn txn_ctx (AvalancheTxn.grant out receiver nonce) r holds runs =
      subst (λ q. Holds history q.0) (ok-injective runs)
        (record_txn-Holds s txn txn_ctx (AvalancheTxn.grant out receiver nonce) holds)
  vote_on-Holds fuel s txn txn_ctx (AvalancheTxn.send sender in_utxo receiver out rest sig) r holds
        runs =
      >>=-elim
        (is_strongly_preferred fuel
          (record_txn rule s txn txn_ctx (AvalancheTxn.send sender in_utxo receiver out rest sig))
          txn_ctx.id)
        _ runs
        (λ r1 asks last.
          subst (λ q. Holds history q.0) (ok-injective last)
            (asked-Holds fuel _ txn_ctx.id r1
              (record_txn-Holds s txn txn_ctx
                (AvalancheTxn.send sender in_utxo receiver out rest sig) holds)
              asks))
  vote_on-Holds fuel s txn txn_ctx (AvalancheTxn.noop parents) r holds runs =
      >>=-elim
        (is_strongly_preferred fuel (record_txn rule s txn txn_ctx (AvalancheTxn.noop parents))
          txn_ctx.id)
        _ runs
        (λ r1 asks last.
          subst (λ q. Holds history q.0) (ok-injective last)
            (asked-Holds fuel _ txn_ctx.id r1
              (record_txn-Holds s txn txn_ctx (AvalancheTxn.noop parents) holds) asks))
  vote_on-Holds fuel s txn txn_ctx AvalancheTxn.place_holder r holds runs =
      subst (λ q. Holds history q.0) (ok-injective runs) holds

  pub vote_all-Holds :
      (fuel : ℕ) (s : State C) (txns : List Txn) (txn_ctxs : List TxnCtx)
      (r : State C × (List Bool × List (Option Hash)))
      → Holds history s
      → vote_all rule fuel s txns txn_ctxs ≡ ok r
      → Holds history r.0
  unfolding vote_all
  vote_all-Holds fuel s [] txn_ctxs r holds runs =
      subst (λ q. Holds history q.0) (ok-injective runs) holds
  vote_all-Holds fuel s (txn ∷ txns) [] r holds runs = cc
  vote_all-Holds fuel s (txn ∷ txns) (txn_ctx ∷ txn_ctxs) r holds runs =
      >>=-elim (unwrap (as_avalanche txn)) _ runs (λ avax_txn _ runs1.
        >>=-elim (vote_on rule fuel s txn txn_ctx avax_txn) _ runs1 (λ r1 votes runs2.
          >>=-elim (vote_all rule fuel r1.0 txns txn_ctxs) _ runs2 (λ r2 rest last.
            subst (λ q. Holds history q.0) (ok-injective last)
              (vote_all-Holds fuel r1.0 txns txn_ctxs r2
                (vote_on-Holds fuel s txn txn_ctx avax_txn r1 holds votes) rest))))

  pub record_votes-Holds :
      (fuel bfs : ℕ) (s : State C) (blk_id : ℕ) (votes : List Bool) (r : State C × List Output)
      → Holds history s
      → record_votes rule fuel bfs s blk_id votes ≡ ok r
      → Holds history r.0
  unfolding record_votes
  record_votes-Holds fuel bfs s blk_id votes r holds runs =
      elim (Bool-cases (contains blk_id s.finished_query)) [
        | inl finished ↦
            subst (λ q. Holds history q.0) (ok-injective (rw (finished, record_votes) at runs))
              holds
        | inr open_query ↦
            >>=-elim (assert (length (votes_of rule s blk_id votes).1 == length votes)) _
              (rw (open_query, record_votes) at runs)
              (λ _ _ runs1. elim (Bool-cases (leb s.k (suc (votes_of rule s blk_id votes).0))) [
                | inl enough ↦
                    handle_votes-Holds rule history fuel bfs _ blk_id r holds (rw enough at runs1)
                | inr waits ↦
                    subst (λ q. Holds history q.0) (ok-injective (rw waits at runs1)) holds
              ])
      ]

  pub handle_timeout-Holds :
      (fuel bfs : ℕ) (s : State C) (r : State C × List Output)
      → Holds history s
      → handle_timeout rule fuel bfs s ≡ ok r
      → Holds history r.0
  unfolding handle_timeout
  handle_timeout-Holds fuel bfs s r holds runs =
      >>=-elim (unwrap (TimeQueue.pop s.vote_time_queue).1) _ runs (λ blk_id _ runs1.
        elim (Bool-cases (contains blk_id s.finished_query)) [
          | inl finished ↦
              subst (λ q. Holds history q.0) (ok-injective (rw finished at runs1)) holds
          | inr open_query ↦
              handle_votes-Holds rule history fuel bfs _ blk_id r holds (rw open_query at runs1)
        ])
