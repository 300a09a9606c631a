-- ===== src/TxnValidation/Rule.antt =====
-- The induction rule for a call of `validate` that returns: what holds of each thing that
-- `validate_inner` does, and composes, holds of the whole call.
use cbox.Base.{
  ℕ, zero, suc, List, [], ◌∷◌, ◌++◌, none, true, false, ◌≡◌, inl, inr, Outcome, ok, >>=-eq-ok,
  ok-injective, Option-cases, nat_eq, subst,
}
use cbox.Base.HashMap.{get, contains_key}
use cbox.Protocol.{Hash, Txn}
use cbox.TxnValidation.Pool.{
  TxnPool, Entry, Siblings, State, Verdict, verdict, missing, entry_id, add_pendings, admit,
  validate_children, conclude, validate_inner, validate,
}

-- A relation between the state before, the transactions returned and the state after.
pub record IsRule (check : TxnPool → Txn → Outcome Verdict)
    (R : State → List Entry → State → Type 0) : Type 0 where
  pub stay : (s : State) → R s [] s
  pub join :
      (s : State) (es : List Entry) (t : State) (fs : List Entry) (u : State)
      → R s es t
      → R t fs u
      → R s (es ++ fs) u
  pub hold :
      (s : State) (e : Entry) (deps : List Hash)
      → get (entry_id e) s.txn_pool ≡ none
      → check s.txn_pool e.1.0 ≡ ok (missing deps)
      → R s [] (record s { pending_txns = add_pendings e s.pending_txns deps })
  pub enter :
      (s : State) (e : Entry) (more : List Entry) (t : State)
      → get (entry_id e) s.txn_pool ≡ none
      → check s.txn_pool e.1.0 ≡ ok (verdict true)
      → R (admit s e) more t
      → R s (e ∷ more) t

module _ (check : TxnPool → Txn → Outcome Verdict) (R : State → List Entry → State → Type 0)
    (rule : IsRule check R) where
  abbrev Keeps : (State → Entry → Outcome (State × List Entry)) → Type 0
  Keeps inner = (s : State) (e : Entry) (p : State × List Entry) → inner s e ≡ ok p → R s p.1 p.0

  -- A value that is returned holds what the pair in hand holds.
  return_rule :
      (s t : State) (out : List Entry) {p : State × List Entry}
      → R s out t
      → ◌≡◌ {A = Outcome (State × List Entry)} (ok (t, out)) (ok p)
      → R s p.1 p.0
  return_rule s t out r h = subst (λ (q : State × List Entry). R s q.1 q.0) (ok-injective h) r

  children_rule :
      (inner : State → Entry → Outcome (State × List Entry))
      → Keeps inner
      → (s : State) (l : Siblings) {p : State × List Entry} → validate_children inner s l ≡ ok p
      → R s p.1 p.0
  unfolding validate_children
  children_rule inner keep s [] h = return_rule s s [] (rule.stay s) h
  children_rule inner keep s ((_, (child, src)) ∷ rest) h =
      let (q, first, h₁) = >>=-eq-ok (inner s (src, child)) _ h in
      let (r, others, h₂) = >>=-eq-ok (validate_children inner q.0 rest) _ h₁ in
      return_rule s r.0 (q.1 ++ r.1)
        (rule.join s q.1 q.0 r.1 r.0 (keep s (src, child) q first)
          (children_rule inner keep q.0 rest others))
        h₂

  conclude_rule :
      (inner : State → Entry → Outcome (State × List Entry))
      → Keeps inner
      → (s : State) (e : Entry) (v : Verdict) {p : State × List Entry}
      → get (entry_id e) s.txn_pool ≡ none
      → check s.txn_pool e.1.0 ≡ ok v
      → conclude check inner s e v ≡ ok p
      → R s p.1 p.0
  unfolding conclude
  conclude_rule inner keep s e (verdict false) new says h = return_rule s s [] (rule.stay s) h
  conclude_rule inner keep s e (missing deps) new says h =
      return_rule s _ [] (rule.hold s e deps new says) h
  conclude_rule inner keep s e (verdict true) new says h =
      let (q, offspring, h₁) = >>=-eq-ok (validate_children inner (admit s e) _) _ h in
      return_rule s q.0 (e ∷ q.1)
        (rule.enter s e q.1 q.0 new says (children_rule inner keep (admit s e) _ offspring)) h₁

  validate_inner_rule :
      (fuel : ℕ) (s : State) (e : Entry) {p : State × List Entry}
      → validate_inner check fuel s e ≡ ok p
      → R s p.1 p.0
  unfolding validate_inner contains_key
  validate_inner_rule zero s e h = cc
  validate_inner_rule (suc fuel) s e h = elim (Option-cases (get (entry_id e) s.txn_pool)) [
    | inl new ↦
        let (v, says, h₁) = >>=-eq-ok (check s.txn_pool e.1.0) _ (rw new at h) in
        conclude_rule (validate_inner check fuel) (λ s' e' p. validate_inner_rule fuel s' e') s e v
          new says h₁
    | inr (old, known) ↦ return_rule s s [] (rule.stay s) (rw known at h)
  ]

  pub validate_rule :
      (fuel : ℕ) (s : State) (es : List Entry) {p : State × List Entry}
      → validate check fuel s es ≡ ok p
      → R s p.1 p.0
  unfolding validate
  validate_rule fuel s [] h = return_rule s s [] (rule.stay s) h
  validate_rule fuel s (e ∷ es) h =
      let (q, first, h₁) = >>=-eq-ok (validate_inner check fuel s e) _ h in
      let (r, others, h₂) = >>=-eq-ok (validate check fuel q.0 es) _ h₁ in
      return_rule s r.0 (q.1 ++ r.1)
        (rule.join s q.1 q.0 r.1 r.0 (validate_inner_rule fuel s e first)
          (validate_rule fuel q.0 es others))
        h₂
