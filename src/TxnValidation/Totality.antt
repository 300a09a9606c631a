-- ===== src/TxnValidation/Totality.antt =====
-- `validate` ends: the depth of `validate_inner` is less than the number of transactions that the
-- node has heard of, so that with more fuel than that a batch of client transactions is validated.
use cbox.Base.{
  ℕ, zero, suc, ◌≤◌, ◌<◌, List, [], ◌∷◌, ◌++◌, none, true, false, ◌≡◌, refl, nat_eq, arith, All,
  length, Option-cases, inl, inr, Outcome, ok,
}
use cbox.Base.HashMap.{get, contains_key, get_or_empty}
use cbox.Protocol.{Hash, Txn}
use cbox.TxnValidation.Pool.{
  TxnPool, Entry, Siblings, State, Verdict, verdict, missing, entry_id, add_pendings, admit,
  validate_children, conclude, validate_inner, validate,
}
use cbox.TxnValidation.Known.{
  unknown, unknown-le-length, unknown-insert-lt, Heard, AllHeard, HoldsClients, IsKnown,
  add_pendings-IsKnown, admit-IsKnown, get_or_empty-AllHeard,
}

-- `check` gives a verdict on every client transaction, in a pool of such.
abbrev pub Decides {ℓ} : (TxnPool → Txn → Outcome Verdict) → (Txn → Type ℓ) → Type ℓ
Decides check IsClient =
    (pool : TxnPool) (txn : Txn)
    → HoldsClients IsClient pool
    → IsClient txn
    → (v : Verdict) × (check pool txn ≡ ok v)

module _ {ℓ} (check : TxnPool → Txn → Outcome Verdict) (IsClient : Txn → Type ℓ)
    (decides : Decides check IsClient) (hs : List Hash) where
  -- A result, the state of which is known and has no more unknown transactions than before.
  abbrev Returns : State → Outcome (State × List Entry) → Type ℓ
  Returns s r =
      (p : State × List Entry) × (r ≡ ok p)
      × IsKnown IsClient hs p.0
      × (unknown hs p.0.txn_pool ≤ unknown hs s.txn_pool)

  abbrev Serves : ℕ → (State → Entry → Outcome (State × List Entry)) → Type ℓ
  Serves bound inner =
      (s : State) (e : Entry)
      → IsKnown IsClient hs s
      → Heard IsClient hs e.1
      → unknown hs s.txn_pool < bound
      → Returns s (inner s e)

  children_Returns :
      (bound : ℕ) (inner : State → Entry → Outcome (State × List Entry))
      → Serves bound inner
      → (s : State) (l : Siblings) → IsKnown IsClient hs s
      → AllHeard IsClient hs l
      → unknown hs s.txn_pool < bound
      → Returns s (validate_children inner s l)
  unfolding validate_children
  children_Returns bound inner serves s [] known all small = ((s, []), refl, known, omega arith)
  children_Returns bound inner serves s ((_, (child, src)) ∷ rest) known all small =
      let (p, first, known', less) = serves s (src, child) known all.0 small in
      let (q, others, known'', less') =
        children_Returns bound inner serves p.0 rest known' all.1 (omega arith) in
      ((q.0, p.1 ++ q.1), rw first (rw others), known'', omega arith)

  conclude-Returns :
      (bound : ℕ) (inner : State → Entry → Outcome (State × List Entry))
      → Serves bound inner
      → (s : State) (e : Entry) (v : Verdict) → IsKnown IsClient hs s
      → Heard IsClient hs e.1
      → get (entry_id e) s.txn_pool ≡ none
      → unknown hs s.txn_pool < suc bound
      → Returns s (conclude check inner s e v)
  unfolding conclude admit
  conclude-Returns bound inner serves s e (verdict false) known heard new small =
      ((s, []), refl, known, omega arith)
  conclude-Returns bound inner serves s e (missing deps) known heard new small = (
    (record s { pending_txns = add_pendings e s.pending_txns deps }, []),
    refl,
    add_pendings-IsKnown IsClient hs e heard s deps known,
    omega arith,
  )
  conclude-Returns bound inner serves s e (verdict true) known heard new small =
      let less = unknown-insert-lt (entry_id e) e.1 s.txn_pool hs heard.1 new in
      let (p, offspring, known', less') =
        children_Returns bound inner serves (admit s e)
          (get_or_empty (get (entry_id e) s.pending_txns))
          (admit-IsKnown IsClient hs e heard s known)
          (get_or_empty-AllHeard IsClient hs s (entry_id e) known) (omega arith) in
      ((p.0, e ∷ p.1), rw offspring, known', omega arith)

  validate_inner_Returns : (fuel : ℕ) → Serves fuel (validate_inner check fuel)
  unfolding validate_inner contains_key
  validate_inner_Returns zero s e known heard small = absurd (omega arith)
  validate_inner_Returns (suc fuel) s e known heard small =
      elim (Option-cases (get (entry_id e) s.txn_pool)) [
        | inl new ↦
            let (v, says) = decides s.txn_pool e.1.0 known.clients heard.0 in
            rw new (
              rw says (
                conclude-Returns fuel (validate_inner check fuel) (validate_inner_Returns fuel) s e
                  v known heard new small))
        | inr (old, held) ↦ rw held ((s, []), refl, known, omega arith)
      ]

  -- With more fuel than there are hashes heard of, `validate` returns on every batch of client
  -- transactions: it neither panics nor runs out of fuel, and what it leaves is such a state again.
  pub validate_total :
      (fuel : ℕ) (s : State) (batch : List Entry)
      → length hs < fuel
      → IsKnown IsClient hs s
      → All (λ e. Heard IsClient hs e.1) batch
      → (p : State × List Entry) × (validate check fuel s batch ≡ ok p) × IsKnown IsClient hs p.0
  unfolding validate
  validate_total fuel s [] enough known all = ((s, []), refl, known)
  validate_total fuel s (e ∷ es) enough known all =
      let (p, first, known', _) =
        validate_inner_Returns fuel s e known all.0
          (omega (arith, unknown-le-length hs s.txn_pool)) in
      let (q, others, known'') = validate_total fuel p.0 es enough known' all.1 in
      ((q.0, p.1 ++ q.1), rw first (rw others), known'')
