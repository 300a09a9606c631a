-- ===== src/TxnValidation/Lossless.antt =====
-- A call of `validate` to its end: what was heard of is in the pool, waits, or was refused.
use cbox.Base.{List, nat_eq, Outcome}
use cbox.Protocol.{Txn}
use cbox.TxnValidation.Pool.{TxnPool, Entry, State, Verdict, entry_id}
use cbox.TxnValidation.Kept.{Accounted, Goes}

module _ (check : TxnPool → Txn → Outcome Verdict) where
  abbrev Result : State → Entry → State × List Entry → Type 0
  Result s e p = Goes check s p.1 p.0 × Accounted check s p.0 (entry_id e)
