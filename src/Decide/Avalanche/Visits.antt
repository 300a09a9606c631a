-- ===== src/Decide/Avalanche/Visits.antt =====
-- The walk of `handle_votes_helper` as a relation, which a run of it is in, and what such a walk commits.
use cbox.Base.{
  ℕ, zero, suc, List, [], ◌∷◌, ◌++◌, none, some, true, false, Outcome, ok, ◌>>=◌, >>=-elim,
  ok-injective, nat_eq, eq→path, eq_refl, ◌≡◌, refl, sym, ◌∙◌, subst, Bool-cases, Option-cases, inl,
  inr, arith,
}
use cbox.Base.HashMap.{get}
use cbox.Base.HashSet.{
  HashSet, contains, contains-insert, contains-append, IsDistinct, IsDistinct-append,
}
use cbox.Base.HashSet
use cbox.Protocol.{Hash}
use cbox.Decide.Avalanche.{State, DagNode, Rule}
use cbox.Decide.Avalanche.Accept.{gain, visit_parents, handle_votes_helper}
use cbox.Decide.Avalanche.Walk.{Gains-other, gain-Gains}
use cbox.Decide.Avalanche.Commits.{Commits, Commits-refl, Commits-trans, Commits-gain}

module _ {C : Type 0} (rule : Rule C) (bfs : ℕ) where
  mutual
    -- From a state and the visited set, to those that are left and what is to be committed.
    pub data Walk
        : State C → Hash → HashSet Hash → State C → HashSet Hash → List Hash → Type 0 where
      seen : {s : State C} {x : Hash} {d : HashSet Hash} → contains x d ≡ true → Walk s x d s d []
      decided :
          {s : State C} {x : Hash} {d : HashSet Hash}
          → contains x d ≡ false
          → get x s.txn_dag ≡ none
          → Walk s x d s (HashSet.insert x d) []
      climbed :
          {s s' s'' : State C} {x : Hash} {d d' : HashSet Hash} {node : DagNode}
          {found list : List Hash}
          → contains x d ≡ false
          → get x s.txn_dag ≡ some node
          → WalkAll s node.parents (HashSet.insert x d) s' d' found
          → gain rule bfs s' node x found ≡ ok (s'', list)
          → Walk s x d s'' d' list

    pub data WalkAll
        : State C → List Hash → HashSet Hash → State C → HashSet Hash → List Hash → Type 0 where
      done : {s : State C} {d : HashSet Hash} → WalkAll s [] d s d []
      next :
          {s s' s'' : State C} {p : Hash} {ps : List Hash} {d d' d'' : HashSet Hash}
          {found more : List Hash}
          → Walk s p d s' d' found
          → WalkAll s' ps d' s'' d'' more
          → WalkAll s (p ∷ ps) d s'' d'' (found ++ more)

  abbrev Result : Type 0
  Result = State C × (HashSet Hash × List Hash)

  pub visit_parents-WalkAll :
      (inner : State C → Hash → HashSet Hash → Outcome Result) (s : State C) (ps : List Hash)
      (d : HashSet Hash) (r : Result)
      → ((s1 : State C) (p : Hash) (d1 : HashSet Hash) (r1 : Result)
          → inner s1 p d1 ≡ ok r1
          → Walk s1 p d1 r1.0 r1.1.0 r1.1.1)
      → visit_parents rule inner s ps d ≡ ok r
      → WalkAll s ps d r.0 r.1.0 r.1.1
  unfolding visit_parents
  visit_parents-WalkAll inner s [] d r each runs =
      subst (λ q. WalkAll s [] d q.0 q.1.0 q.1.1) (ok-injective runs) done
  visit_parents-WalkAll inner s (p ∷ ps) d r each runs =
      >>=-elim (inner s p d) _ runs (λ r1 first runs1.
        >>=-elim (visit_parents rule inner r1.0 ps r1.1.0) _ runs1 (λ r2 rest last.
          subst (λ q. WalkAll s (p ∷ ps) d q.0 q.1.0 q.1.1) (ok-injective last)
            (next (each s p d r1 first) (visit_parents-WalkAll inner r1.0 ps r1.1.0 r2 each rest))))

  -- The last case: the parents are visited, then the transaction itself.
  climb :
      (fuel : ℕ) (s : State C) (x : Hash) (d : HashSet Hash) (r : Result) (node : DagNode)
      → ((s1 : State C) (p : Hash) (d1 : HashSet Hash) (r1 : Result)
          → handle_votes_helper rule fuel bfs s1 p d1 ≡ ok r1
          → Walk s1 p d1 r1.0 r1.1.0 r1.1.1)
      → contains x d ≡ false
      → get x s.txn_dag ≡ some node
      → (visit_parents rule (handle_votes_helper rule fuel bfs) s node.parents (HashSet.insert x d)
          >>= (λ r1. gain rule bfs r1.0 node x r1.1.1 >>= (λ r2. ok (r2.0, (r1.1.0, r2.1)))))
        ≡ ok r
      → Walk s x d r.0 r.1.0 r.1.1
  climb fuel s x d r node ih fresh found runs =
      >>=-elim
        (visit_parents rule (handle_votes_helper rule fuel bfs) s node.parents (HashSet.insert x d))
        _ runs
        (λ r1 up runs1. >>=-elim (gain rule bfs r1.0 node x r1.1.1) _ runs1 (λ r2 gains last.
          subst (λ q. Walk s x d q.0 q.1.0 q.1.1) (ok-injective last)
            (climbed fresh found
              (visit_parents-WalkAll (handle_votes_helper rule fuel bfs) s node.parents
                (HashSet.insert x d) r1 ih up)
              gains)))

  -- A run of the code is such a walk.
  pub handle_votes_helper-Walk :
      (fuel : ℕ) (s : State C) (x : Hash) (d : HashSet Hash) (r : Result)
      → handle_votes_helper rule fuel bfs s x d ≡ ok r
      → Walk s x d r.0 r.1.0 r.1.1
  unfolding handle_votes_helper
  handle_votes_helper-Walk zero s x d r runs = cc
  handle_votes_helper-Walk (suc fuel) s x d r runs = elim (Bool-cases (contains x d)) [
    | inl was_seen ↦
        subst (λ q. Walk s x d q.0 q.1.0 q.1.1)
          (ok-injective (rw (was_seen, handle_votes_helper) at runs)) (seen was_seen)
    | inr fresh ↦ elim (Option-cases (get x s.txn_dag)) [
      | inl gone ↦
          subst (λ q. Walk s x d q.0 q.1.0 q.1.1)
            (ok-injective
              (rw (gone, handle_votes_helper) at rw (fresh, handle_votes_helper) at runs))
            (decided fresh gone)
      | inr (node, found) ↦
          climb fuel s x d r node (handle_votes_helper-Walk fuel) fresh found
            (rw (found, handle_votes_helper) at rw (fresh, handle_votes_helper) at runs)
    ]
  ]

  -- What has been visited stays visited, and its place in the dag is not touched again.
  abbrev Kept : State C → HashSet Hash → State C → HashSet Hash → Type 0
  Kept s d s' d' =
      (h : Hash)
      → contains h d ≡ true
      → (get h s'.txn_dag ≡ get h s.txn_dag) × (contains h d' ≡ true)

  Kept-gain :
      (s s' s'' : State C) (x : Hash) (d d' : HashSet Hash) (node : DagNode)
      (found list : List Hash)
      → contains x d ≡ false
      → Kept s (HashSet.insert x d) s' d'
      → gain rule bfs s' node x found ≡ ok (s'', list)
      → Kept s d s'' d'
  Kept-gain s s' s'' x d d' node found list fresh kept gains h mem =
      let (tail, _, step) = gain-Gains rule bfs s' node x found gains in
      let (same, mem') = kept h (rw (contains-insert x h d) (ground (arith, mem))) in
      (Gains-other step h (ground (arith, eq→path x h, fresh, mem)) ∙ same, mem')

  mutual
    Walk-Kept :
        {s s' : State C} {x : Hash} {d d' : HashSet Hash} {list : List Hash}
        → Walk s x d s' d' list
        → Kept s d s' d'
    Walk-Kept (seen was_seen) h mem = (refl, mem)
    Walk-Kept (decided {x = x} {d = d} fresh gone) h mem =
        (refl, rw (contains-insert x h d) (ground (arith, mem)))
    Walk-Kept (climbed {s} {s'} {s''} {x} {d} {d'} {node} {found} {list} fresh here up gains) h
          mem =
        Kept-gain s s' s'' x d d' node found list fresh (WalkAll-Kept up) gains h mem

    pub WalkAll-Kept :
        {s s' : State C} {ps : List Hash} {d d' : HashSet Hash} {list : List Hash}
        → WalkAll s ps d s' d' list
        → Kept s d s' d'
    WalkAll-Kept done h mem = (refl, mem)
    WalkAll-Kept (next first rest) h mem =
        let (same1, mem1) = Walk-Kept first h mem in
        let (same2, mem2) = WalkAll-Kept rest h mem1 in (same2 ∙ same1, mem2)

  mutual
    pub Walk-Commits :
        {s s' : State C} {x : Hash} {d d' : HashSet Hash} {list : List Hash}
        → Walk s x d s' d' list
        → Commits s list s'
    Walk-Commits {s = s} (seen was_seen) = Commits-refl s
    Walk-Commits {s = s} (decided fresh gone) = Commits-refl s
    Walk-Commits (climbed {s} {s'} {s''} {x} {d} {d'} {node} {found} {list} fresh here up gains) =
        let (tail, is, step) = gain-Gains rule bfs s' node x found gains in
        let (kept, _) = WalkAll-Kept up x (rw (contains-insert x x d) (rw (eq_refl x) refl)) in
        subst (λ l. Commits s l s'') (sym is)
          (Commits-trans s found s' tail s'' (WalkAll-Commits up)
            (Commits-gain s' x s'' tail node (kept ∙ here) step))

    WalkAll-Commits :
        {s s' : State C} {ps : List Hash} {d d' : HashSet Hash} {list : List Hash}
        → WalkAll s ps d s' d' list
        → Commits s list s'
    WalkAll-Commits {s = s} done = Commits-refl s
    WalkAll-Commits (next {s} {s'} {s''} {p} {ps} {d} {d'} {d''} {found} {more} first rest) =
        Commits-trans s found s' more s'' (Walk-Commits first) (WalkAll-Commits rest)
