-- ===== src/TxnValidation/Waiting.antt =====
-- Nothing waits for a transaction that is in the pool.
use cbox.Base.{◌≢◌, ℕ, List, [], ◌∷◌, none, some, ◌≡◌, Outcome, ok, nat_eq, arith, All}
use cbox.Base.HashMap.{HashMap, get, get-insert, get-remove}
use cbox.Protocol.{Hash, Txn}
use cbox.TxnValidation.Pool.{
  TxnPool, Entry, Siblings, State, Verdict, missing, entry_id, joined, add_pending, add_pendings,
  admit, validate,
}
use cbox.TxnValidation.Rule.{IsRule, validate_rule}

-- Where `check` reports something as missing, it names it, and the pool does not hold it.
abbrev pub ReportsMissing : (TxnPool → Txn → Outcome Verdict) → Type 0
ReportsMissing check =
    (pool : TxnPool) (txn : Txn) (deps : List Hash)
    → check pool txn ≡ ok (missing deps)
    → (deps ≢ []) × All (λ dep. get dep pool ≡ none) deps

abbrev Absent : TxnPool → HashMap Hash Siblings → Type 0
Absent pool pending =
    (dep : Hash) (waiting : Siblings) → get dep pending ≡ some waiting → get dep pool ≡ none

abbrev pub NoStale : State → Type 0
NoStale s = Absent s.txn_pool s.pending_txns

add_pending-Absent :
    (pool : TxnPool) (e : Entry) (pending : HashMap Hash Siblings) (dep : Hash)
    → get dep pool ≡ none
    → Absent pool pending
    → Absent pool (add_pending e pending dep)
unfolding add_pending
add_pending-Absent pool e pending dep absent h d w found =
    ground (arith, get-insert dep d (joined e pending dep) pending, h d w)

add_pendings-Absent :
    (pool : TxnPool) (e : Entry) (pending : HashMap Hash Siblings) (deps : List Hash)
    → All (λ dep. get dep pool ≡ none) deps
    → Absent pool pending
    → Absent pool (add_pendings e pending deps)
unfolding add_pendings
add_pendings-Absent pool e pending [] absent h = h
add_pendings-Absent pool e pending (dep ∷ deps) absent h =
    add_pendings-Absent pool e (add_pending e pending dep) deps absent.1
      (add_pending-Absent pool e pending dep absent.0 h)

admit-NoStale : (s : State) (e : Entry) → NoStale s → NoStale (admit s e)
unfolding admit
admit-NoStale s e h d w found = ground (
  arith,
  get-insert (entry_id e) d e.1 s.txn_pool,
  get-remove (entry_id e) d s.pending_txns,
  h d w,
)

module _ (check : TxnPool → Txn → Outcome Verdict) (reports : ReportsMissing check) where
  NoStale-IsRule : IsRule check (λ s es t. NoStale s → NoStale t)
  NoStale-IsRule = record {
    stay = λ s h. h;
    join = λ s es t fs u f g h. g (f h);
    hold = λ s e deps new says.
        add_pendings-Absent s.txn_pool e s.pending_txns deps (reports s.txn_pool e.1.0 deps says).1;
    enter = λ s e more t new says f h. f (admit-NoStale s e h);
  }

  -- If at first nothing waits for a transaction that the pool holds, then neither does anything
  -- after a call of `validate`.
  pub validate-NoStale :
      (fuel : ℕ) (s : State) (batch : List Entry) {p : State × List Entry}
      → validate check fuel s batch ≡ ok p
      → NoStale s
      → NoStale p.0
  validate-NoStale fuel s batch =
      validate_rule check (λ s es t. NoStale s → NoStale t) NoStale-IsRule fuel s batch
