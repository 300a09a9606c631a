-- ===== src/Decide/Avalanche/Walk.antt =====
-- `handle_votes_helper` as a relation: the walk over a transaction that was voted for and its
-- ancestors, the parents first, with what one transaction on the way may change.
use cbox.Base.{
  ℕ, ◌+◌, List, [], ◌∷◌, ◌++◌, Bool, false, ◌||◌, Outcome, ok, unwrap, >>=-eq-ok, >>=-elim,
  ok-injective, ◌==◌, nat_eq, list_eq, pair_eq, ltb, ◌≡◌, refl, sym, ap, ◌∙◌, subst, ◌⊎◌,
  Bool-cases, inl, inr, append-nil,
}
use cbox.Base.HashMap.{HashMap, get, get-remove}
use cbox.Base.HashMap
use cbox.Protocol.{Hash, AvalancheTxn, as_avalanche}
use cbox.Decide.Avalanche.{State, ConflictSet, DagNode, TxnDag, Utxo, Rule, utxos}
use cbox.Decide.Avalanche.Accept.{
  invalidate, adopt, visit_inputs, tally, is_accepted, is_committed, settle, gain,
}

module _ {C : Type 0} where
  -- Nothing but the sets and the cache differs.
  pub record SetsOnly (s s' : State C) : Type 0 where
    pub sets : HashMap Utxo (ConflictSet C)
    pub cache : HashMap Hash Bool
    pub same : s' ≡ record s { conflict_sets = sets; preference_cache = cache }

  -- What the visit of one transaction does: its confidence and the sets of its inputs change, and it may
  -- leave the dag, in which case it may be committed.
  pub record Gains (s : State C) (x : Hash) (s' : State C) (tail : List Hash) : Type 0 where
    pub scores : HashMap Hash ℕ
    pub sets : HashMap Utxo (ConflictSet C)
    pub cache : HashMap Hash Bool
    pub dag : TxnDag
    pub same : s' ≡ record s {
      confidence = scores;
      conflict_sets = sets;
      preference_cache = cache;
      txn_dag = dag;
    }
    pub outcome :
        ((dag ≡ s.txn_dag) × (tail ≡ []))
        ⊎ ((dag ≡ HashMap.remove x s.txn_dag) × ((tail ≡ []) ⊎ (tail ≡ x ∷ [])))

  -- A transaction other than the visited one keeps its place in the dag.
  pub Gains-other :
      {s s' : State C} {x : Hash} {tail : List Hash}
      → Gains s x s' tail
      → (h : Hash) → (x == h) ≡ false
      → get h s'.txn_dag ≡ get h s.txn_dag
  Gains-other {s} {s'} {x} step h other = ap (λ t. get h t.txn_dag) step.same ∙ elim step.outcome [
    | inl (same, _) ↦ ap (get h) same
    | inr (removed, _) ↦ ap (get h) removed ∙ (rw (get-remove x h s.txn_dag) (rw other refl))
  ]

module _ {C : Type 0} (rule : Rule C) where
  -- A set that is looked at keeps its preference or comes to prefer the visited transaction.
  pub adopt_lem :
      (bfs : ℕ) (s : State C) (ct : ConflictSet C) (x : Hash) (score : ℕ) {s' : State C}
      {ct' : ConflictSet C}
      → adopt rule bfs s ct x score ≡ ok (s', ct')
      → (cache : HashMap Hash Bool) × (s' ≡ record s { preference_cache = cache })
        × ((ct' ≡ ct) ⊎ (ct' ≡ record ct { pref = x }))
  unfolding adopt
  adopt_lem bfs s ct x score {s'} {ct'} runs = elim (Bool-cases (ct.pref == x)) [
    | inl same ↦ unchanged (rw (same, adopt) at runs)
    | inr other ↦
        let (pref_score, _, runs') =
          >>=-eq-ok (unwrap (get ct.pref s.confidence)) _ (rw (other, adopt) at runs) in
        elim (Bool-cases (ltb pref_score score)) [
          | inl less ↦
              let (cache, _, last) =
                >>=-eq-ok (invalidate bfs s.txn_dag (x ∷ x ∷ []) s.preference_cache) _
                  (rw less at runs') in
              let e = sym (ok-injective last) in (cache, ap (λ r. r.0) e, inr (ap (λ r. r.1) e))
          | inr not_less ↦ unchanged (rw not_less at runs')
        ]
  ]
    where
      unchanged :
          ◌≡◌ {A = Outcome (State C × ConflictSet C)} (ok (s, ct)) (ok (s', ct'))
          → (cache : HashMap Hash Bool) × (s' ≡ record s { preference_cache = cache })
            × ((ct' ≡ ct) ⊎ (ct' ≡ record ct { pref = x }))
      unchanged last =
          let e = sym (ok-injective last) in
          (s.preference_cache, ap (λ r. r.0) e, inl (ap (λ r. r.1) e))

  visit_inputs-SetsOnly :
      (bfs : ℕ) (s : State C) (x : Hash) (score : ℕ) (us : List Utxo) (b : Bool) (count : ℕ)
      {s' : State C} {r : Bool × ℕ}
      → visit_inputs rule bfs s x score us b count ≡ ok (s', r)
      → SetsOnly s s'
  unfolding visit_inputs
  visit_inputs-SetsOnly bfs s x score [] b count runs = record {
    sets = s.conflict_sets;
    cache = s.preference_cache;
    same = sym (ap (λ p. p.0) (ok-injective runs));
  }
  visit_inputs-SetsOnly bfs s x score (u ∷ us) b count {s'} {r} runs =
      >>=-elim (unwrap (get u s.conflict_sets)) _ runs (λ ct found runs1.
        >>=-elim (adopt rule bfs s ct x score) _ runs1 (λ p adopts runs2.
          SetsOnly-after u p.1 s p.0 s' (adopt_lem bfs s ct x score adopts) (
            visit_inputs-SetsOnly bfs
              (record p.0 {
                conflict_sets =
                    HashMap.insert u (record p.1 { rounds = rule.visit x p.1.rounds })
                      p.0.conflict_sets;
              })
              x score us (b || p.1.has_conflicts) (rule.weigh score (rule.visit x p.1.rounds) count)
              {s' = s'} {r = r} runs2)))
    where
      SetsOnly-after :
          (u : Utxo) (ct : ConflictSet C) (s s1 s' : State C) {P : Type 0}
          → (cache : HashMap Hash Bool) × (s1 ≡ record s { preference_cache = cache }) × P
          → SetsOnly
              (record s1 {
                conflict_sets =
                    HashMap.insert u
                      (record ct { rounds = rule.visit x ct.rounds })
                      s1.conflict_sets;
              })
              s'
          → SetsOnly s s'
      SetsOnly-after u ct s s1 s' (cache, same1, _) ih =
          let put : State C → State C =
            λ t. record t { conflict_sets = ih.sets; preference_cache = ih.cache } in
          record { sets = ih.sets; cache = ih.cache; same = ih.same ∙ ap put same1 }

  pub tally-SetsOnly :
      (bfs : ℕ) (s : State C) (x : Hash) (score : ℕ) (avax_txn : AvalancheTxn) {s' : State C}
      {r : Bool × ℕ}
      → tally rule bfs s x score avax_txn ≡ ok (s', r)
      → SetsOnly s s'
  unfolding tally
  tally-SetsOnly bfs s x score (AvalancheTxn.grant _ _ _) runs = record {
    sets = s.conflict_sets;
    cache = s.preference_cache;
    same = sym (ap (λ p. p.0) (ok-injective runs));
  }
  tally-SetsOnly bfs s x score (AvalancheTxn.noop _) runs = record {
    sets = s.conflict_sets;
    cache = s.preference_cache;
    same = sym (ap (λ p. p.0) (ok-injective runs));
  }
  tally-SetsOnly bfs s x score (AvalancheTxn.send sender in_utxo _ _ _ _) runs =
      visit_inputs-SetsOnly bfs s x score (utxos sender in_utxo) false _ runs
  tally-SetsOnly bfs s x score AvalancheTxn.place_holder runs = cc

  -- What `settle` leaves beside the lists it was given.
  pub settle_lem :
      (s : State C) (node : DagNode) (x : Hash) (avax_txn : AvalancheTxn) (score : ℕ) (b : Bool)
      (count : ℕ) (commit_list : List Hash)
      → (tail : List Hash) × (dag : TxnDag) × (cache : HashMap Hash Bool) × (settle rule s node x
            avax_txn score b count commit_list
          ≡ (record s { txn_dag = dag; preference_cache = cache }, commit_list ++ tail))
        × (((dag ≡ s.txn_dag) × (tail ≡ []))
            ⊎ ((dag ≡ HashMap.remove x s.txn_dag) × ((tail ≡ []) ⊎ (tail ≡ x ∷ []))))
  unfolding settle
  settle_lem s node x avax_txn score b count commit_list =
      elim (Bool-cases (is_accepted rule s node.parents score b count)) [
        | inl accepted ↦
            let dag = HashMap.remove x s.txn_dag in
            let cache = HashMap.remove x s.preference_cache in
            elim (Bool-cases (is_committed avax_txn)) [
              | inl committed ↦
                  (x ∷ [], dag, cache, rw accepted (rw committed refl), inr (refl, inr refl))
              | inr free ↦ (
                [],
                dag,
                cache,
                rw accepted (rw free (rw (append-nil commit_list) refl)),
                inr (refl, inl refl),
              )
            ]
        | inr waits ↦ (
          [],
          s.txn_dag,
          s.preference_cache,
          rw waits (rw (append-nil commit_list) refl),
          inl (refl, refl),
        )
      ]

  -- The parts of a visit put together.
  Gains-settle :
      (s : State C) (x : Hash) (score : ℕ) (s2 : State C)
      → SetsOnly (record s { confidence = HashMap.insert x score s.confidence }) s2
      → (node : DagNode) (avax_txn : AvalancheTxn) (b : Bool) (count : ℕ) (list : List Hash)
      → {s' : State C} {list' : List Hash}
      → ◌≡◌ {A = Outcome (State C × List Hash)}
          (ok (settle rule s2 node x avax_txn score b count list))
          (ok (s', list'))
      → (tail : List Hash) × (list' ≡ list ++ tail) × Gains s x s' tail
  Gains-settle s x score s2 only node avax_txn b count list runs =
      let (tail, dag, cache, settles, outcome) = settle_lem s2 node x avax_txn score b count list in
      let put : State C → State C = λ t. record t { txn_dag = dag; preference_cache = cache } in
      let e = sym (ok-injective runs) ∙ settles in
      (
        tail,
        ap (λ p. p.1) e,
        record {
          scores = HashMap.insert x score s.confidence;
          sets = only.sets;
          cache = cache;
          dag = dag;
          same = ap (λ p. p.0) e ∙ ap put only.same;
          outcome =
              subst
                (λ d.
                  ((dag ≡ d) × (tail ≡ []))
                  ⊎ ((dag ≡ HashMap.remove x d) × ((tail ≡ []) ⊎ (tail ≡ x ∷ []))))
                (ap (λ t. t.txn_dag) only.same) outcome;
        },
      )

  pub gain-Gains :
      (bfs : ℕ) (s : State C) (node : DagNode) (x : Hash) (list : List Hash) {s' : State C}
      {list' : List Hash}
      → gain rule bfs s node x list ≡ ok (s', list')
      → (tail : List Hash) × (list' ≡ list ++ tail) × Gains s x s' tail
  unfolding gain
  gain-Gains bfs s node x list runs =
      >>=-elim (unwrap (get x s.confidence)) _ runs (λ score known runs1.
        >>=-elim (unwrap (get x s.txn_pool)) _ runs1 (λ entry pooled runs2.
          >>=-elim (unwrap (as_avalanche entry.0)) _ runs2 (λ avax_txn is_avax runs3.
            >>=-elim
              (tally rule bfs (record s { confidence = HashMap.insert x (score + 1) s.confidence })
                x (score + 1) avax_txn)
              _ runs3
              (λ r tallies runs4.
                Gains-settle s x (score + 1) r.0
                  (tally-SetsOnly bfs
                    (record s { confidence = HashMap.insert x (score + 1) s.confidence }) x
                    (score + 1) avax_txn tallies)
                  node avax_txn r.1.0 r.1.1 list runs4))))
