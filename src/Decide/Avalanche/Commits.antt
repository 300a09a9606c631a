-- ===== src/Decide/Avalanche/Commits.antt =====
-- What a walk, or several in turn, commit: transactions that leave the dag, once each.
use cbox.Base.{
  List, [], ◌∷◌, ◌++◌, none, some, true, ◌==◌, nat_eq, eq→path, ◌≡◌, refl, sym, ap, ◌∙◌, subst, ◌⊎◌,
  Bool-cases, inl, inr, arith, false-true,
}
use cbox.Base.HashMap.{HashMap, get, contains_key, get-remove}
use cbox.Base.HashMap
use cbox.Base.HashSet.{contains, contains-append, IsDistinct, IsDistinct-append}
use cbox.Protocol.{Hash}
use cbox.Decide.Avalanche.{State, DagNode}
use cbox.Decide.Avalanche.Walk.{Gains, Gains-other}

module _ {C : Type 0} where
  -- What a walk commits was in the dag, is not any more, and is listed once.
  pub record Commits (s : State C) (list : List Hash) (s' : State C) : Type 0 where
    pub sub : (h : Hash) → (get h s'.txn_dag ≡ none) ⊎ (get h s'.txn_dag ≡ get h s.txn_dag)
    pub were : (h : Hash) → contains h list ≡ true → ¬ (get h s.txn_dag ≡ none)
    pub gone : (h : Hash) → contains h list ≡ true → get h s'.txn_dag ≡ none
    pub distinct : IsDistinct list
    pub same_pool : s'.txn_pool ≡ s.txn_pool
    pub same_queue : s'.commit_queue ≡ s.commit_queue
    pub same_votes : s'.votes ≡ s.votes

  pub Commits-refl : (s : State C) → Commits s [] s
  unfolding contains
  Commits-refl s = record {
    sub = λ h. inr refl;
    were = λ h mem. cc;
    gone = λ h mem. cc;
    distinct = tt;
    same_pool = refl;
    same_queue = refl;
    same_votes = refl;
  }

  gone-after :
      (s s' : State C) (h : Hash)
      → (get h s'.txn_dag ≡ none) ⊎ (get h s'.txn_dag ≡ get h s.txn_dag)
      → get h s.txn_dag ≡ none
      → get h s'.txn_dag ≡ none
  gone-after s s' h (inl e) none_before = e
  gone-after s s' h (inr e) none_before = e ∙ none_before

  pub Commits-trans :
      (s : State C) (list : List Hash) (s' : State C) (more : List Hash) (s'' : State C)
      → Commits s list s'
      → Commits s' more s''
      → Commits s (list ++ more) s''
  Commits-trans s list s' more s'' first rest = record {
    sub = λ h. elim (rest.sub h) [
      | inl e ↦ inl e
      | inr e ↦ elim (first.sub h) [ inl f ↦ inl (e ∙ f) | inr f ↦ inr (e ∙ f) ]
    ];
    were = λ h mem none_before. elim (Bool-cases (contains h list)) [
      | inl in_list ↦ first.were h in_list none_before
      | inr other ↦
          rest.were h (ground (arith, contains-append h list more, mem, other))
            (gone-after s s' h (first.sub h) none_before)
    ];
    gone = λ h mem. elim (Bool-cases (contains h list)) [
      | inl in_list ↦ gone-after s' s'' h (rest.sub h) (first.gone h in_list)
      | inr other ↦ rest.gone h (ground (arith, contains-append h list more, mem, other))
    ];
    distinct = IsDistinct-append list more first.distinct rest.distinct (λ h mem.
        elim (Bool-cases (contains h more)) [
          | inl again ↦ absurd (rest.were h again (first.gone h mem))
          | inr new ↦ new
        ]);
    same_pool = rest.same_pool ∙ first.same_pool;
    same_queue = rest.same_queue ∙ first.same_queue;
    same_votes = rest.same_votes ∙ first.same_votes;
  }

  pub Commits-gain :
      (s : State C) (x : Hash) (s' : State C) (tail : List Hash) (node : DagNode)
      → get x s.txn_dag ≡ some node
      → Gains s x s' tail
      → Commits s tail s'
  unfolding contains
  Commits-gain s x s' tail node here step = elim step.outcome [
    | inl (same, empty) ↦
        subst (λ l. Commits s l s') (sym empty)
          (record {
            sub = λ h. inr (ap (λ t. get h t.txn_dag) step.same ∙ ap (get h) same);
            were = λ h mem. cc;
            gone = λ h mem. cc;
            distinct = tt;
            same_pool = ap (λ t. t.txn_pool) step.same;
            same_queue = ap (λ t. t.commit_queue) step.same;
            same_votes = ap (λ t. t.votes) step.same;
          })
    | inr (removed, left) ↦ record {
      sub = λ h. elim (Bool-cases (x == h)) [
        | inl same ↦ inl (removed_at removed h same)
        | inr other ↦ inr (Gains-other step h other)
      ];
      were = λ h mem none_before. absurd (was left h mem none_before);
      gone = λ h mem. removed_at removed h (at left h mem);
      distinct = elim left [
        | inl e ↦ subst IsDistinct (sym e) tt
        | inr e ↦ subst IsDistinct (sym e) (refl, tt)
      ];
      same_pool = ap (λ t. t.txn_pool) step.same;
      same_queue = ap (λ t. t.commit_queue) step.same;
      same_votes = ap (λ t. t.votes) step.same;
    }
  ]
    where
      removed_at :
          step.dag ≡ HashMap.remove x s.txn_dag
          → (h : Hash) → (x == h) ≡ true
          → get h s'.txn_dag ≡ none
      removed_at removed h same =
          ap (λ t. get h t.txn_dag) step.same
          ∙ ap (get h) removed
          ∙ (rw (get-remove x h s.txn_dag) (rw same refl))

      at : (tail ≡ []) ⊎ (tail ≡ x ∷ []) → (h : Hash) → contains h tail ≡ true → (x == h) ≡ true
      at (inl e) h mem = absurd (false-true (ap (contains h) e) mem)
      at (inr e) h mem = ground (arith, sym (ap (contains h) e) ∙ mem)

      was :
          (tail ≡ []) ⊎ (tail ≡ x ∷ [])
          → (h : Hash) → contains h tail ≡ true
          → ¬ (get h s.txn_dag ≡ none)
      was left h mem none_before = cc (
        here,
        subst (λ k. get k s.txn_dag ≡ none) (sym (eq→path x h (at left h mem))) none_before,
      )
