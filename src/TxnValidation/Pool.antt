-- ===== src/TxnValidation/Pool.antt =====
-- The pool of BitcoinTxnValidation and AvalancheTxnValidation
-- (src/stage/txn_validation/{bitcoin,avalanche}/basic.rs), which differ in `validate_txn` only: it
-- is the parameter `check`, with the unwrapping of the chain's own transaction in front.
use cbox.Base.{
  ℕ, zero, suc, List, [], ◌∷◌, ◌++◌, Bool, true, false, Outcome, ok, stuck, ◌>>=◌, if◌then◌else◌,
  nat_eq,
}
use cbox.Base.HashMap.{HashMap, get, insert, remove, contains_key, or_insert}
use cbox.Base.HashMap
use cbox.Protocol.{Hash, NodeId, Txn, TxnCtx}

abbrev pub TxnPool : Type 0
TxnPool = HashMap Hash (Txn × TxnCtx)

-- A transaction with the node that it came from, as `validate` takes and returns it.
abbrev pub Entry : Type 0
Entry = NodeId × (Txn × TxnCtx)

-- The transactions that wait for one missing input, by their own hash.
abbrev pub Siblings : Type 0
Siblings = HashMap Hash ((Txn × TxnCtx) × NodeId)

pub record State : Type 0 where
  pub txn_pool : TxnPool
  pub pending_txns : HashMap Hash Siblings

unfoldable pub new : State
new = record { txn_pool = []; pending_txns = [] }

-- `Result<bool, Vec<Hash>>`: what `validate_txn` says of a transaction.
pub data Verdict : Type 0 where
  verdict : Bool → Verdict
  missing : List Hash → Verdict

abbrev pub entry_id : Entry → Hash
entry_id e = e.1.1.id

-- The transactions that wait for `dep`, with this one among them.
unfoldable pub joined : Entry → HashMap Hash Siblings → Hash → Siblings
joined e pending dep = or_insert (entry_id e) (e.1, e.0) (HashMap.get_or_empty (get dep pending))

-- One round of `for missing_dep in missing_deps`.
unfoldable pub add_pending : Entry → HashMap Hash Siblings → Hash → HashMap Hash Siblings
add_pending e pending dep = insert dep (joined e pending dep) pending

unfoldable pub add_pendings : Entry → HashMap Hash Siblings → List Hash → HashMap Hash Siblings
add_pendings e pending [] = pending
add_pendings e pending (dep ∷ deps) = add_pendings e (add_pending e pending dep) deps

-- The transaction is valid: it enters the pool, and nothing waits for it any more.
unfoldable pub admit : State → Entry → State
admit s e = record {
  txn_pool = insert (entry_id e) e.1 s.txn_pool;
  pending_txns = remove (entry_id e) s.pending_txns;
}

-- `for (_, ((child_txn, child_ctx), child_srcs)) in children`, with the recursive call as `inner`.
unfoldable pub validate_children :
    (State → Entry → Outcome (State × List Entry)) → State → Siblings → Outcome (State × List Entry)
validate_children inner s [] = ok (s, [])
validate_children inner s ((_, (child, src)) ∷ rest) = do
  (s', found) ← inner s (src, child)
  (s'', more) ← validate_children inner s' rest
  ok (s'', found ++ more)

module _ (check : TxnPool → Txn → Outcome Verdict) where
  -- What `validate_inner` does once the verdict is there.
  unfoldable pub conclude :
      (State → Entry → Outcome (State × List Entry))
      → State
      → Entry
      → Verdict
      → Outcome (State × List Entry)
  conclude inner s e (verdict false) = ok (s, [])
  conclude inner s e (missing deps) =
      ok (record s { pending_txns = add_pendings e s.pending_txns deps }, [])
  conclude inner s e (verdict true) = do
    (s', more) ←
        validate_children inner (admit s e) (HashMap.get_or_empty (get (entry_id e) s.pending_txns))
    ok (s', e ∷ more)

  unfoldable pub validate_inner : ℕ → State → Entry → Outcome (State × List Entry)
  validate_inner zero s e = stuck
  validate_inner (suc fuel) s e =
      if contains_key (entry_id e) s.txn_pool
      then ok (s, [])
      else (check s.txn_pool e.1.0 >>= conclude (validate_inner fuel) s e)

  unfoldable pub validate : ℕ → State → List Entry → Outcome (State × List Entry)
  validate fuel s [] = ok (s, [])
  validate fuel s (e ∷ es) = do
    (s', found) ← validate_inner fuel s e
    (s'', more) ← validate fuel s' es
    ok (s'', found ++ more)
