-- ===== src/Decide/Avalanche/Preference.antt =====
-- `is_preferred` and `is_strongly_preferred` of both decisions. The recursion over the parents runs on
-- fuel.
use cbox.Base.{
  ℕ, zero, suc, List, [], ◌∷◌, none, some, Bool, true, false, ◌&&◌, Outcome, ok, panic, stuck,
  unwrap, ◌>>=◌, ◌==◌, nat_eq, list_eq, pair_eq,
}
use cbox.Base.HashMap.{HashMap, get}
use cbox.Base.HashMap
use cbox.Protocol.{Hash, AvalancheTxn, as_avalanche}
use cbox.Decide.Avalanche.{State, ConflictSet, DagNode, Utxo, utxos}

module _ {C : Type 0} where
  -- The loop over the inputs: each set must be there, and prefer this transaction.
  unfoldable pub all_preferred : HashMap Utxo (ConflictSet C) → Hash → List Utxo → Outcome Bool
  all_preferred sets txn_hash [] = ok true
  all_preferred sets txn_hash (u ∷ us) = do
    ct ← unwrap (get u sets)
    rest ← all_preferred sets txn_hash us
    ok ((ct.pref == txn_hash) && rest)

  unfoldable pub prefers : State C → Hash → AvalancheTxn → Outcome Bool
  prefers s txn_hash (AvalancheTxn.grant _ _ _) = ok true
  prefers s txn_hash (AvalancheTxn.noop _) = ok true
  prefers s txn_hash (AvalancheTxn.send sender in_utxo _ _ _ _) =
      all_preferred s.conflict_sets txn_hash (utxos sender in_utxo)
  prefers s txn_hash AvalancheTxn.place_holder = panic

  unfoldable pub is_preferred : State C → Hash → Outcome Bool
  is_preferred s txn_hash = do
    (txn, _) ← unwrap (get txn_hash s.txn_pool)
    avax_txn ← unwrap (as_avalanche txn)
    prefers s txn_hash avax_txn

  -- The loop over the parents, with the recursive call as `inner`: it stops at the first that is not
  -- strongly preferred.
  unfoldable pub check_parents :
      (State C → Hash → Outcome (State C × Bool)) → State C → List Hash → Outcome (State C × Bool)
  check_parents inner s [] = ok (s, true)
  check_parents inner s (parent ∷ parents) = do
    (s', strongly) ← inner s parent
    elim strongly [ true ↦ check_parents inner s' parents | false ↦ ok (s', false) ]

  -- The part that a hit in the cache spares.
  unfoldable pub compute :
      (State C → Hash → Outcome (State C × Bool))
      → State C
      → Hash
      → DagNode
      → Outcome (State C × Bool)
  compute inner s txn_hash node = do
    preferred ← is_preferred s txn_hash
    (s', result) ← elim preferred [
      | true ↦ check_parents inner s node.parents
      | false ↦ ok (s, false)
    ]
    ok (record s' { preference_cache = HashMap.insert txn_hash result s'.preference_cache }, result)

  unfoldable pub is_strongly_preferred : ℕ → State C → Hash → Outcome (State C × Bool)
  is_strongly_preferred zero s txn_hash = stuck
  is_strongly_preferred (suc fuel) s txn_hash = elim (get txn_hash s.txn_dag) [
    | none ↦ ok (s, true)
    | some node ↦ elim (get txn_hash s.preference_cache) [
      | some strongly_preferred ↦ ok (s, strongly_preferred)
      | none ↦ compute (is_strongly_preferred fuel) s txn_hash node
    ]
  ]
