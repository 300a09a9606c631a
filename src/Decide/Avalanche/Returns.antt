-- ===== src/Decide/Avalanche/Returns.antt =====
-- A walk comes to a value, and leaves a state of which the same is true.
use cbox.Base.{
  ℕ, zero, suc, ◌+◌, ◌<◌, List, [], ◌∷◌, ◌++◌, none, some, Bool, true, Outcome, ok, >>=-runs, ◌==◌,
  nat_eq, eq_refl, ◌≡◌, refl, sym, ap, ◌∙◌, ◌⊎◌, Bool-cases, Option-cases, inl, inr, arith,
}
use cbox.Base.HashMap.{HashMap, get, get-insert}
use cbox.Base.HashMap
use cbox.Base.HashSet.{HashSet, contains, contains-insert}
use cbox.Base.HashSet
use cbox.Protocol.{Hash}
use cbox.Decide.Avalanche.{State, ConflictSet, DagNode, TxnDag, Utxo, Rule}
use cbox.Decide.Avalanche.Accept.{children_of, settle, gain, visit_parents, handle_votes_helper}
use cbox.Decide.Avalanche.Walk.{Gains, gain-Gains, settle_lem}
use cbox.Decide.Avalanche.Commits.{Commits, Commits-gain}
use cbox.Decide.Avalanche.Visits.{
  WalkAll-Kept, visit_parents-WalkAll, handle_votes_helper-Walk, Walk-Commits,
}
use cbox.Decide.Avalanche.Ready.{
  total, Drains, Scored, Grows, IsRecorded, IsCovered-Grows, ArePrefsScored, tally-ok,
}

-- Of every transaction of the dag the confidence and the record are there, its parents rank below it,
-- and so on for the sets and the weights.
pub record IsReady {C : Type 0} (rank w : Hash → ℕ) (bfs : ℕ) (s : State C) : Type 0 where
  pub drains : Drains s.txn_dag w bfs
  pub below :
      (h : Hash) (node : DagNode)
      → get h s.txn_dag ≡ some node
      → (p : Hash) → contains p node.parents ≡ true
      → rank p < rank h
  pub scored : (h : Hash) (node : DagNode) → get h s.txn_dag ≡ some node → Scored s.confidence h
  pub recorded :
      (h : Hash) (node : DagNode)
      → get h s.txn_dag ≡ some node
      → IsRecorded s.txn_pool s.conflict_sets h
  pub prefs : ArePrefsScored s.conflict_sets s.confidence

-- Nothing enters the dag.
abbrev Shrinks : TxnDag → TxnDag → Type 0
Shrinks dag dag' = (h : Hash) → (get h dag' ≡ none) ⊎ (get h dag' ≡ get h dag)

Shrinks-some :
    (dag dag' : TxnDag) (h : Hash) (node : DagNode)
    → Shrinks dag dag'
    → get h dag' ≡ some node
    → get h dag ≡ some node
Shrinks-some dag dag' h node shrinks found = elim (shrinks h) [
  | inl gone ↦ cc (gone, found)
  | inr same ↦ sym same ∙ found
]

Drains-Shrinks :
    (w : Hash → ℕ) (bfs : ℕ) (dag dag' : TxnDag)
    → Shrinks dag dag'
    → Drains dag w bfs
    → Drains dag' w bfs
unfolding children_of total
Drains-Shrinks w bfs dag dag' shrinks drains = record {
  heavier = λ h. elim (shrinks h) [
    | inl gone ↦ rw (gone, children_of) (omega (arith, drains.heavier h))
    | inr same ↦ rw (same, children_of) (drains.heavier h)
  ];
  lighter = drains.lighter;
}

module _ {C : Type 0} (rule : Rule C) (rank w : Hash → ℕ) (bfs : ℕ) where
  Scored-insert :
      (confidence : HashMap Hash ℕ) (x score : ℕ) (h : Hash)
      → Scored confidence h
      → Scored (HashMap.insert x score confidence) h
  Scored-insert confidence x score h (old, known) = elim (Bool-cases (x == h)) [
    | inl same ↦ (score, get-insert x h score confidence ∙ (rw same refl))
    | inr other ↦ (old, get-insert x h score confidence ∙ (rw other known))
  ]

  IsReady-settled :
      (s : State C) (confidence : HashMap Hash ℕ) (sets : HashMap Utxo (ConflictSet C))
      (cache : HashMap Hash Bool) (dag : TxnDag)
      → IsReady rank w bfs s
      → ((h : Hash) → Scored s.confidence h → Scored confidence h)
      → Grows s.conflict_sets sets
      → ArePrefsScored sets confidence
      → Shrinks s.txn_dag dag
      → IsReady rank w bfs (record s {
        confidence = confidence;
        conflict_sets = sets;
        preference_cache = cache;
        txn_dag = dag;
      })
  IsReady-settled s confidence sets cache dag ready more grows prefs shrinks = record {
    drains = Drains-Shrinks w bfs s.txn_dag dag shrinks ready.drains;
    below = λ h node found. ready.below h node (Shrinks-some s.txn_dag dag h node shrinks found);
    scored = λ h node found.
        more h (ready.scored h node (Shrinks-some s.txn_dag dag h node shrinks found));
    recorded = λ h node found.
        let (entry, avax_txn, pooled, is_avax, covered) =
          ready.recorded h node (Shrinks-some s.txn_dag dag h node shrinks found) in
        (
          entry,
          avax_txn,
          pooled,
          is_avax,
          IsCovered-Grows s.conflict_sets sets avax_txn grows covered,
        );
    prefs = prefs;
  }

  gain-ok :
      (s : State C) (node : DagNode) (x : Hash) (list : List Hash)
      → IsReady rank w bfs s
      → get x s.txn_dag ≡ some node
      → (r : State C × List Hash) × (gain rule bfs s node x list ≡ ok r) × IsReady rank w bfs r.0
  unfolding gain
  gain-ok s node x list ready here =
      let (score, known) = ready.scored x node here in
      let (entry, avax_txn, pooled, is_avax, covered) = ready.recorded x node here in
      let confidence = HashMap.insert x (score + 1) s.confidence in
      let s1 : State C = record s { confidence = confidence } in
      let more = Scored-insert s.confidence x (score + 1) in
      let (sets, cache, r, tallies, grows, prefs) =
        tally-ok rule w bfs s1 ready.drains x avax_txn (score + 1) covered
          (λ u ct found. more ct.pref (ready.prefs u ct found)) (more x (score, known)) in
      let s2 : State C = record s1 { conflict_sets = sets; preference_cache = cache } in
      let runs : gain rule bfs s node x list
          ≡ ok (settle rule s2 node x avax_txn (score + 1) r.0 r.1 list) =
        rw known (rw pooled (rw is_avax (rw tallies refl))) in
      let (tail, dag, cache', settles, outcome) =
        settle_lem rule s2 node x avax_txn (score + 1) r.0 r.1 list in
      let (tail', is, step) = gain-Gains rule bfs s node x list (runs ∙ ap ok settles) in
      (
        (record s2 { txn_dag = dag; preference_cache = cache' }, list ++ tail),
        runs ∙ ap ok settles,
        IsReady-settled s confidence sets cache' dag ready more grows prefs
            (shrinks tail' s2 dag cache' step),
      )
    where
      shrinks :
          (tail : List Hash) (s2 : State C) (dag : TxnDag) (cache : HashMap Hash Bool)
          → Gains s x (record s2 { txn_dag = dag; preference_cache = cache }) tail
          → Shrinks s.txn_dag dag
      shrinks tail s2 dag cache step =
          (Commits-gain s x (record s2 { txn_dag = dag; preference_cache = cache }) tail node here
            step).sub

  abbrev Result : Type 0
  Result = State C × (HashSet Hash × List Hash)

  -- A call comes to a value, and leaves a state that is ready.
  abbrev Returns : Outcome Result → Type 0
  Returns run = (r : Result) × (run ≡ ok r) × IsReady rank w bfs r.0

  visit_parents-ok :
      (inner : State C → Hash → HashSet Hash → Outcome Result) (ps : List Hash)
      → ((s : State C) (p : Hash) (d : HashSet Hash)
          → contains p ps ≡ true
          → IsReady rank w bfs s
          → Returns (inner s p d))
      → (s : State C) (d : HashSet Hash) → IsReady rank w bfs s
      → Returns (visit_parents rule inner s ps d)
  unfolding visit_parents contains
  visit_parents-ok inner [] each s d ready = ((s, (d, [])), refl, ready)
  visit_parents-ok inner (p ∷ ps) each s d ready =
      let ((s1, (d1, found)), first, ready1) = each s p d (ground (arith, eq_refl p)) ready in
      let ((s2, (d2, more)), rest, ready2) =
        visit_parents-ok inner ps (λ t q e mem. each t q e (ground (arith, mem))) s1 d1 ready1 in
      ((s2, (d2, found ++ more)), >>=-runs _ _ first (>>=-runs _ _ rest refl), ready2)

  helper-ok :
      (fuel : ℕ) (s : State C) (x : Hash) (d : HashSet Hash)
      → rank x < fuel
      → IsReady rank w bfs s
      → Returns (handle_votes_helper rule fuel bfs s x d)
  unfolding handle_votes_helper
  helper-ok zero s x d bound ready = absurd (omega arith)
  helper-ok (suc fuel) s x d bound ready = elim (Bool-cases (contains x d)) [
    | inl seen ↦ ((s, (d, [])), rw (seen, handle_votes_helper) refl, ready)
    | inr fresh ↦ elim (Option-cases (get x s.txn_dag)) [
      | inl gone ↦ (
        (s, (HashSet.insert x d, [])),
        rw (fresh, handle_votes_helper) (rw (gone, handle_votes_helper) refl),
        ready,
      )
      | inr (node, here) ↦
          let (r1, up, ready1) =
            visit_parents-ok (handle_votes_helper rule fuel bfs) node.parents
              (λ t p e mem. helper-ok fuel t p e (omega (arith, ready.below x node here p mem))) s
              (HashSet.insert x d) ready in
          let climbs =
            visit_parents-WalkAll rule bfs (handle_votes_helper rule fuel bfs) s node.parents
              (HashSet.insert x d) r1 (handle_votes_helper-Walk rule bfs fuel) up in
          let (kept, _) =
            WalkAll-Kept rule bfs climbs x (rw (contains-insert x x d) (rw (eq_refl x) refl)) in
          let (r2, gains, ready2) = gain-ok r1.0 node x r1.1.1 ready1 (kept ∙ here) in
          (
            (r2.0, (r1.1.0, r2.1)),
            rw (fresh, handle_votes_helper)
                (rw (here, handle_votes_helper) (>>=-runs _ r1 up (>>=-runs _ r2 gains refl))),
            ready2,
          )
    ]
  ]

-- In a state that is ready, with fuel above the rank of the transaction and twice the weights, the walk
-- comes to a value; it leaves a state that is ready, and what it commits was in the dag before, is not
-- afterwards, and is listed once.
pub handle_votes_helper-returns :
    {C : Type 0} (rule : Rule C) (rank w : Hash → ℕ) (fuel bfs : ℕ) (s : State C) (x : Hash)
    (d : HashSet Hash)
    → IsReady rank w bfs s
    → rank x < fuel
    → (s' : State C) × (d' : HashSet Hash) × (list : List Hash) × (handle_votes_helper rule fuel bfs
          s x d
        ≡ ok (s', (d', list)))
      × IsReady rank w bfs s'
      × Commits s list s'
handle_votes_helper-returns rule rank w fuel bfs s x d ready bound =
    let ((s', (d', list)), runs, ready') = helper-ok rule rank w bfs fuel s x d bound ready in
    (
      s',
      d',
      list,
      runs,
      ready',
      Walk-Commits rule bfs (handle_votes_helper-Walk rule bfs fuel s x d _ runs),
    )
