-- ===== src/Decide/Avalanche/Accept.antt =====
-- `handle_votes_helper` of both decisions: a transaction that was voted for gains confidence, and so do
-- its ancestors, and each may be accepted. The recursion runs on fuel, and so does the loop that
-- follows the children.
use cbox.Base.{
  ℕ, zero, suc, ◌+◌, List, [], ◌∷◌, ◌++◌, none, some, Bool, true, false, not, ◌&&◌, ◌||◌, Outcome,
  ok, panic, stuck, unwrap, ◌>>=◌, ◌==◌, nat_eq, list_eq, pair_eq, if◌then◌else◌, ltb,
}
use cbox.Base.HashMap.{HashMap, get, contains_key}
use cbox.Base.HashMap
use cbox.Base.HashSet.{HashSet, contains}
use cbox.Base.HashSet
use cbox.Protocol.{Hash, AvalancheTxn, as_avalanche}
use cbox.Decide.Avalanche.{State, ConflictSet, DagNode, TxnDag, Utxo, Rule, utxos}

unfoldable pub children_of : TxnDag → Hash → List Hash
children_of dag h = elim (get h dag) [ none ↦ [] | some node ↦ node.children ]

-- `while let Some(txn) = frontier.pop_front()`: the cached preferences of these and of all their
-- descendants are dropped.
unfoldable pub invalidate : ℕ → TxnDag → List Hash → HashMap Hash Bool → Outcome (HashMap Hash Bool)
invalidate zero dag frontier cache = stuck
invalidate (suc fuel) dag [] cache = ok cache
invalidate (suc fuel) dag (h ∷ rest) cache =
    invalidate fuel dag (rest ++ children_of dag h) (HashMap.remove h cache)

-- No parent is waiting for a decision.
unfoldable pub are_decided : TxnDag → List Hash → Bool
are_decided dag [] = true
are_decided dag (h ∷ hs) = if contains_key h dag then false else are_decided dag hs

unfoldable pub is_committed : AvalancheTxn → Bool
is_committed (AvalancheTxn.grant _ _ _) = true
is_committed (AvalancheTxn.send _ _ _ _ _ _) = true
is_committed (AvalancheTxn.noop _) = false
is_committed AvalancheTxn.place_holder = false

module _ {C : Type 0} (rule : Rule C) where
  -- The preference of a set goes to a transaction of more confidence. The frontier has it twice, since
  -- the code reads `ct.pref` when it has been set.
  unfoldable pub adopt : ℕ → State C → ConflictSet C → Hash → ℕ → Outcome (State C × ConflictSet C)
  adopt fuel s ct txn_id confidence_score = elim (ct.pref == txn_id) [
    | true ↦ ok (s, ct)
    | false ↦ do
      pref_confidence_score ← unwrap (get ct.pref s.confidence)
      elim (ltb pref_confidence_score confidence_score) [
        | true ↦ do
          cache ← invalidate fuel s.txn_dag (txn_id ∷ txn_id ∷ []) s.preference_cache
          ok (record s { preference_cache = cache }, record ct { pref = txn_id })
        | false ↦ ok (s, ct)
      ]
  ]

  -- The loop over the inputs, with `has_conflicts` and what was gathered.
  unfoldable pub visit_inputs :
      ℕ → State C → Hash → ℕ → List Utxo → Bool → ℕ → Outcome (State C × (Bool × ℕ))
  visit_inputs fuel s txn_id score [] has_conflicts count = ok (s, (has_conflicts, count))
  visit_inputs fuel s txn_id score (u ∷ us) has_conflicts count = do
    ct ← unwrap (get u s.conflict_sets)
    (s', ct') ← adopt fuel s ct txn_id score
    let rounds = rule.visit txn_id ct'.rounds
    visit_inputs fuel
        (record s' {
          conflict_sets = HashMap.insert u (record ct' { rounds = rounds }) s'.conflict_sets;
        })
        txn_id score us (has_conflicts || ct'.has_conflicts) (rule.weigh score rounds count)

  unfoldable pub tally : ℕ → State C → Hash → ℕ → AvalancheTxn → Outcome (State C × (Bool × ℕ))
  tally fuel s txn_id score (AvalancheTxn.grant _ _ _) = ok (s, (false, rule.begin score))
  tally fuel s txn_id score (AvalancheTxn.noop _) = ok (s, (false, rule.begin score))
  tally fuel s txn_id score (AvalancheTxn.send sender in_utxo _ _ _ _) =
      visit_inputs fuel s txn_id score (utxos sender in_utxo) false (rule.begin score)
  tally fuel s txn_id score AvalancheTxn.place_holder = panic

  unfoldable pub is_accepted : State C → List Hash → ℕ → Bool → ℕ → Bool
  is_accepted s parents score has_conflicts count =
      rule.reaches score count
        (if are_decided s.txn_dag parents && not has_conflicts then s.beta1 else s.beta2)

  -- The last part: the state, and the list of transactions to commit.
  unfoldable pub settle :
      State C → DagNode → Hash → AvalancheTxn → ℕ → Bool → ℕ → List Hash → State C × List Hash
  settle s node txn_id avax_txn score has_conflicts count commit_list =
      if is_accepted s node.parents score has_conflicts count
      then (
        record s {
          txn_dag = HashMap.remove txn_id s.txn_dag;
          preference_cache = HashMap.remove txn_id s.preference_cache;
        },
        (if is_committed avax_txn then commit_list ++ txn_id ∷ [] else commit_list),
      )
      else (s, commit_list)

  -- What is done for a transaction after its parents.
  unfoldable pub gain : ℕ → State C → DagNode → Hash → List Hash → Outcome (State C × List Hash)
  gain fuel s node txn_id commit_list = do
    confidence ← unwrap (get txn_id s.confidence)
    let s' = record s { confidence = HashMap.insert txn_id (confidence + 1) s.confidence }
    (txn, _) ← unwrap (get txn_id s.txn_pool)
    avax_txn ← unwrap (as_avalanche txn)
    (s'', (has_conflicts, count)) ← tally fuel s' txn_id (confidence + 1) avax_txn
    ok (settle s'' node txn_id avax_txn (confidence + 1) has_conflicts count commit_list)

  -- The loop over the parents, with the recursive call as `inner`.
  unfoldable pub visit_parents :
      (State C → Hash → HashSet Hash → Outcome (State C × (HashSet Hash × List Hash)))
      → State C
      → List Hash
      → HashSet Hash
      → Outcome (State C × (HashSet Hash × List Hash))
  visit_parents inner s [] dedup = ok (s, (dedup, []))
  visit_parents inner s (parent ∷ parents) dedup = do
    (s', (dedup', found)) ← inner s parent dedup
    (s'', (dedup'', more)) ← visit_parents inner s' parents dedup'
    ok (s'', (dedup'', found ++ more))

  unfoldable pub handle_votes_helper :
      ℕ → ℕ → State C → Hash → HashSet Hash → Outcome (State C × (HashSet Hash × List Hash))
  handle_votes_helper zero bfs s txn_id dedup = stuck
  handle_votes_helper (suc fuel) bfs s txn_id dedup = elim (contains txn_id dedup) [
    | true ↦ ok (s, (dedup, []))
    | false ↦ elim (get txn_id s.txn_dag) [
      | none ↦ ok (s, (HashSet.insert txn_id dedup, []))
      | some node ↦ do
        (s', (dedup', commit_list)) ←
            visit_parents (handle_votes_helper fuel bfs) s node.parents
              (HashSet.insert txn_id dedup)
        (s'', commit_list') ← gain bfs s' node txn_id commit_list
        ok (s'', (dedup', commit_list'))
    ]
  ]
