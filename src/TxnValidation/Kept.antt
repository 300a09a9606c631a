-- ===== src/TxnValidation/Kept.antt =====
-- No transaction is lost: what `validate` has heard of is in the pool, waits, or was refused.
use cbox.Base.{
  List, [], ◌∷◌, ◌++◌, true, false, ◌≡◌, refl, sym, ◌∙◌, ◌⊎◌, inl, inr, ◌==◌, nat_eq, eq→path,
  Outcome, ok, >>=-eq-ok, ok-injective, Bool-cases, subst,
}
use cbox.Base.HashMap.{get, contains_key}
use cbox.Protocol.{Hash, Txn}
use cbox.TxnValidation.Pool.{
  TxnPool, Entry, Siblings, State, Verdict, verdict, entry_id, validate_children,
}
use cbox.TxnValidation.Growth.{Extends, Extends-append}
use cbox.TxnValidation.Keyed.{AreKeyed, IsKeyed, Waits}

-- The pool holds a transaction of this id, or one waits.
abbrev pub Heard : State → Hash → Type 0
Heard s h = (contains_key h s.txn_pool ≡ true) ⊎ Waits s.pending_txns h

-- One of these transactions has this id.
abbrev pub Lists : Siblings → Hash → Type 0
Lists l h = contains_key h l ≡ true

module _ (check : TxnPool → Txn → Outcome Verdict) where
  -- A transaction of this id was found invalid in a pool that `pool` has grown to.
  abbrev pub Refused : TxnPool → Hash → Type 0
  Refused pool h =
      (e : Entry) × (es : List Entry) × (then : TxnPool) × (entry_id e ≡ h)
      × Extends check pool es then
      × (check then e.1.0 ≡ ok (verdict false))

  -- After a call that began with `s`, a transaction of this id is in the pool, waits, or was refused
  -- since.
  abbrev pub Accounted : State → State → Hash → Type 0
  Accounted s t h = Heard t h ⊎ Refused s.txn_pool h

  -- A call that returned this has lost nothing.
  abbrev pub Goes : State → List Entry → State → Type 0
  Goes s es t =
      Extends check s.txn_pool es t.txn_pool
      × IsKeyed t.pending_txns
      × ((h : Hash) → Heard s h → Accounted s t h)

  pub Accounted-later :
      (s : State) (es : List Entry) (t u : State) (h : Hash)
      → Extends check s.txn_pool es t.txn_pool
      → Accounted t u h
      → Accounted s u h
  Accounted-later s es t u h grown (inl heard) = inl heard
  Accounted-later s es t u h grown (inr (e, fs, pool, is, more, says)) = inr (
    e,
    es ++ fs,
    pool,
    is,
    Extends-append check s.txn_pool es t.txn_pool fs pool grown more,
    says,
  )

  pub Accounted-then :
      (s : State) (es : List Entry) (t u : State) (h : Hash)
      → Extends check s.txn_pool es t.txn_pool
      → ((j : Hash) → Heard t j → Accounted t u j)
      → Accounted s t h
      → Accounted s u h
  Accounted-then s es t u h grown goes (inl heard) = Accounted-later s es t u h grown (goes h heard)
  Accounted-then s es t u h grown goes (inr refused) = inr refused

  pub Goes-join :
      (s : State) (es : List Entry) (t : State) (fs : List Entry) (u : State)
      → Goes s es t
      → Goes t fs u
      → Goes s (es ++ fs) u
  Goes-join s es t fs u (grown, keyed, goes) (grown', keyed', goes') = (
    Extends-append check s.txn_pool es t.txn_pool fs u.txn_pool grown grown',
    keyed',
    λ h heard. Accounted-then s es t u h grown goes' (goes h heard),
  )

  pub Goes-stay : (s : State) → IsKeyed s.pending_txns → Goes s [] s
  Goes-stay s keyed = (refl, keyed, λ h heard. inl heard)

  abbrev pub Serves : (State → Entry → Outcome (State × List Entry)) → Type 0
  Serves inner =
      (s : State) (e : Entry) (p : State × List Entry)
      → IsKeyed s.pending_txns
      → inner s e ≡ ok p
      → Goes s p.1 p.0 × Accounted s p.0 (entry_id e)

  pub children-Goes :
      (inner : State → Entry → Outcome (State × List Entry))
      → Serves inner
      → (s : State) (l : Siblings) (p : State × List Entry) → IsKeyed s.pending_txns
      → AreKeyed l
      → validate_children inner s l ≡ ok p
      → Goes s p.1 p.0 × ((h : Hash) → Lists l h → Accounted s p.0 h)
  unfolding validate_children contains_key get
  children-Goes inner serves s [] p keyed named runs =
      subst
        (λ (q : State × List Entry). Goes s q.1 q.0 × ((h : Hash) → Lists [] h → Accounted s q.0 h))
        (ok-injective runs) (Goes-stay s keyed, λ h (has : Lists [] h). absurd (cc has))
  children-Goes inner serves s ((k, (child, src)) ∷ rest) p keyed named runs =
      let (q, first, runs1) = >>=-eq-ok (inner s (src, child)) _ runs in
      let (r, others, last) = >>=-eq-ok (validate_children inner q.0 rest) _ runs1 in
      let (goes, found) = serves s (src, child) q keyed first in
      let (goes', all) = children-Goes inner serves q.0 rest r goes.1 named.1 others in
      subst
        (λ (x : State × List Entry).
          Goes s x.1 x.0 × ((h : Hash) → Lists ((k, (child, src)) ∷ rest) h → Accounted s x.0 h))
        (ok-injective last)
        (
          Goes-join s q.1 q.0 r.1 r.0 goes goes',
          λ h has. elim (Bool-cases (k == h)) [
            | inl same ↦
                Accounted-then s q.1 q.0 r.0 h goes.0 goes'.2
                  (subst (λ i. Accounted s q.0 i) (sym named.0 ∙ eq→path k h same) found)
            | inr other ↦ Accounted-later s q.1 q.0 r.0 h goes.0 (all h (rw other at has))
          ],
        )
