-- ===== src/TxnValidation/Growth.antt =====
-- What a call of `validate` does to the pool of transactions.
use cbox.Base.{
  ℕ, List, [], ◌∷◌, ◌++◌, none, some, true, ◌≡◌, refl, sym, Outcome, ok, nat_eq, arith, subst,
}
use cbox.Base.HashMap.{get, insert, get-insert}
use cbox.Protocol.{Hash, Txn, TxnCtx}
use cbox.TxnValidation.Pool.{TxnPool, Entry, State, Verdict, verdict, entry_id, admit, validate}
use cbox.TxnValidation.Rule.{IsRule, validate_rule}

module _ (check : TxnPool → Txn → Outcome Verdict) where
  -- The second pool is the first one with the transactions added in turn, each of them new, and
  -- valid against the pool that it meets.
  abbrev pub Extends : TxnPool → List Entry → TxnPool → Type 0
  Extends pool [] after = pool ≡ after
  Extends pool (e ∷ es) after =
      (get (entry_id e) pool ≡ none)
      × (check pool e.1.0 ≡ ok (verdict true))
      × Extends (insert (entry_id e) e.1 pool) es after

  pub Extends-append :
      (p : TxnPool) (es : List Entry) (q : TxnPool) (fs : List Entry) (r : TxnPool)
      → Extends p es q
      → Extends q fs r
      → Extends p (es ++ fs) r
  Extends-append p [] q fs r h k = subst (λ x. Extends x fs r) (sym h) k
  Extends-append p (e ∷ es) q fs r h k =
      (h.0, h.1, Extends-append (insert (entry_id e) e.1 p) es q fs r h.2 k)

  Extends-IsRule : IsRule check (λ s es t. Extends s.txn_pool es t.txn_pool)
  unfolding admit
  Extends-IsRule = record {
    stay = λ s. refl;
    join = λ s es t fs u. Extends-append s.txn_pool es t.txn_pool fs u.txn_pool;
    hold = λ s e deps new says. refl;
    enter = λ s e more t new says grown. (new, says, grown);
  }

  -- The transactions that `validate` returns are those that entered the pool, in their order.
  -- Each was not in the pool before it, and was valid against the pool as it then was.
  pub validate-Extends :
      (fuel : ℕ) (s : State) (batch : List Entry) {p : State × List Entry}
      → validate check fuel s batch ≡ ok p
      → Extends s.txn_pool p.1 p.0.txn_pool
  validate-Extends fuel s batch =
      validate_rule check (λ s es t. Extends s.txn_pool es t.txn_pool) Extends-IsRule fuel s batch

  -- What holds of the pool and is kept by the entry of a valid transaction holds ever after.
  pub Extends-induction {ℓ} :
      (P : TxnPool → Type ℓ)
      → ((pool : TxnPool) (e : Entry)
          → get (entry_id e) pool ≡ none
          → check pool e.1.0 ≡ ok (verdict true)
          → P pool
          → P (insert (entry_id e) e.1 pool))
      → (pool : TxnPool) (es : List Entry) (after : TxnPool) → Extends pool es after
      → P pool
      → P after
  Extends-induction P keep pool [] after h base = subst P h base
  Extends-induction P keep pool (e ∷ es) after h base =
      Extends-induction P keep (insert (entry_id e) e.1 pool) es after h.2
        (keep pool e h.0 h.1 base)

-- A transaction that is in the pool stays there, as it is.
pub get-insert_new :
    (k j : Hash) (v w : Txn × TxnCtx) (pool : TxnPool)
    → get k pool ≡ none
    → get j pool ≡ some w
    → get j (insert k v pool) ≡ some w
get-insert_new k j v w pool new h = ground (arith, get-insert k j v pool)
