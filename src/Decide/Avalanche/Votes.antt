-- ===== src/Decide/Avalanche/Votes.antt =====
-- `record_votes` and `handle_votes` of both decisions: the votes for a block are counted, and once they
-- are in each of its transactions gains confidence, or loses what it had gathered. What the code sends
-- stands in the result.
use cbox.Base.{
  ℕ, zero, suc, List, [], ◌∷◌, ◌++◌, Option, none, some, Bool, true, false, Outcome, ok, panic,
  stuck, unwrap, assert, ◌>>=◌, ◌==◌, nat_eq, pair_eq, list_eq, if◌then◌else◌, leb, length,
}
use cbox.Base.HashMap.{HashMap, get}
use cbox.Base.HashMap
use cbox.Base.HashSet.{HashSet, contains}
use cbox.Base.HashSet
use cbox.Protocol.{Hash, NodeId, Signature, Txn, AvalancheTxn, as_avalanche}
use cbox.TimeQueue.{TimeEvent}
use cbox.TimeQueue
use cbox.Decide.Avalanche.{State, ConflictSet, TxnPool, Utxo, Rule, utxos}
use cbox.Decide.Avalanche.Accept.{handle_votes_helper}

-- What a node sends: that a batch was voted on, to its pacemaker, and votes, to the proposer.
pub data Output : Type 0 where
  feedback : Output
  vote_msg : (to : NodeId) (round : ℕ) (votes : List Bool) (signature : Signature) → Output

unfoldable pub zeros : List Bool → List ℕ
zeros [] = []
zeros (v ∷ vs) = 0 ∷ zeros vs

-- One more accepting vote wherever this node votes for the transaction.
unfoldable pub add_votes : List Bool → List ℕ → List ℕ
add_votes [] counts = counts
add_votes (v ∷ vs) [] = []
add_votes (v ∷ vs) (n ∷ ns) = (if v then suc n else n) ∷ add_votes vs ns

-- The transactions of these ids, each of which must be known.
unfoldable pub lookup_all : TxnPool → List Hash → Outcome (List Txn)
lookup_all pool [] = ok []
lookup_all pool (h ∷ hs) = do
  (txn, _) ← unwrap (get h pool)
  txns ← lookup_all pool hs
  ok (txn ∷ txns)

module _ {C : Type 0} where
  -- `ct.count = 0` for every input, each of which must have its set.
  unfoldable pub reset_inputs :
      (C → C) → HashMap Utxo (ConflictSet C) → List Utxo → Outcome (HashMap Utxo (ConflictSet C))
  reset_inputs reset sets [] = ok sets
  reset_inputs reset sets (u ∷ us) = do
    ct ← unwrap (get u sets)
    reset_inputs reset (HashMap.insert u (record ct { rounds = reset ct.rounds }) sets) us

  -- A transaction in the frontier of a failed vote. Only transfers have conflicts.
  unfoldable pub reset_txn : (C → C) → State C → Hash → Outcome (State C)
  reset_txn reset s txn_hash = do
    (txn, _) ← unwrap (get txn_hash s.txn_pool)
    avax_txn ← unwrap (as_avalanche txn)
    elim avax_txn [
      | AvalancheTxn.send sender in_utxo _ _ _ _ ↦ do
        sets ← reset_inputs reset s.conflict_sets (utxos sender in_utxo)
        ok (record s { conflict_sets = sets })
      | AvalancheTxn.grant _ _ _ ↦ ok s
      | AvalancheTxn.noop _ ↦ ok s
      | AvalancheTxn.place_holder ↦ ok s
    ]

  -- `while let Some(next_txn_hash) = dag_frontier.pop_front()`.
  unfoldable pub reset_ancestors :
      ℕ → (C → C) → State C → List Hash → HashSet Hash → Outcome (State C)
  reset_ancestors zero reset s frontier dedup = stuck
  reset_ancestors (suc fuel) reset s [] dedup = ok s
  reset_ancestors (suc fuel) reset s (h ∷ rest) dedup = elim (contains h dedup) [
    | true ↦ reset_ancestors fuel reset s rest dedup
    | false ↦ elim (get h s.txn_dag) [
      | none ↦ reset_ancestors fuel reset s rest (HashSet.insert h dedup)
      | some node ↦ do
        s' ← reset_txn reset s h
        reset_ancestors fuel reset s' (rest ++ node.parents) (HashSet.insert h dedup)
    ]
  ]

module _ {C : Type 0} (rule : Rule C) where
  unfoldable pub vote_failed : ℕ → State C → Hash → Outcome (State C)
  vote_failed bfs s txn_hash = elim rule.reset [
    | none ↦ ok s
    | some reset ↦ reset_ancestors bfs reset s (txn_hash ∷ []) []
  ]

  unfoldable pub judge_txn : ℕ → ℕ → State C → Hash → ℕ → Outcome (State C × List Hash)
  judge_txn fuel bfs s txn_hash accepts = elim (leb s.vote_thresh accepts) [
    | true ↦ do
      (s', (_, commit_list)) ← handle_votes_helper rule fuel bfs s txn_hash []
      ok (s', commit_list)
    | false ↦ do s' ← vote_failed bfs s txn_hash; ok (s', [])
  ]

  -- The loop over the transactions of the block, which have the votes beside them.
  unfoldable pub judge_txns :
      ℕ → ℕ → State C → List (Option Hash) → List ℕ → Outcome (State C × List Hash)
  judge_txns fuel bfs s [] accept_votes = ok (s, [])
  judge_txns fuel bfs s (txn ∷ txns) [] = panic
  judge_txns fuel bfs s (none ∷ txns) (accepts ∷ accept_votes) =
      judge_txns fuel bfs s txns accept_votes
  judge_txns fuel bfs s (some txn_hash ∷ txns) (accepts ∷ accept_votes) = do
    (s', commit_list) ← judge_txn fuel bfs s txn_hash accepts
    (s'', more) ← judge_txns fuel bfs s' txns accept_votes
    ok (s'', commit_list ++ more)

  unfoldable pub handle_votes : ℕ → ℕ → State C → ℕ → Outcome (State C × List Output)
  handle_votes fuel bfs s blk_id = elim (get blk_id s.query_pool) [
    | none ↦ ok (s, [])
    | some txns ↦ do
      (_, accept_votes) ← unwrap (get blk_id s.votes)
      _ ← assert (length txns == length accept_votes)
      let s1 = record s {
        query_pool = HashMap.remove blk_id s.query_pool;
        votes = HashMap.remove blk_id s.votes;
        finished_query = HashSet.insert blk_id s.finished_query;
        vote_time_queue = (TimeQueue.remove blk_id s.vote_time_queue).0;
      }
      (s2, txns_to_be_committed) ← judge_txns fuel bfs s1 txns accept_votes
      ok (
        record s2 { commit_queue = s2.commit_queue ++ (blk_id, txns_to_be_committed) ∷ [] },
        Output.feedback ∷ [],
      )
  ]

  -- What `votes.entry(blk_id).or_insert(..)` gives.
  unfoldable pub votes_of : State C → ℕ → List Bool → ℕ × List ℕ
  votes_of s blk_id votes = elim (get blk_id s.votes) [
    | none ↦ (0, zeros votes)
    | some entry ↦ entry
  ]

  unfoldable pub record_votes : ℕ → ℕ → State C → ℕ → List Bool → Outcome (State C × List Output)
  record_votes fuel bfs s blk_id votes = elim (contains blk_id s.finished_query) [
    | true ↦ ok (s, [])
    | false ↦ do
      let (votes_received, accept_votes) = votes_of s blk_id votes
      _ ← assert (length accept_votes == length votes)
      let s' = record s {
        votes = HashMap.insert blk_id (suc votes_received, add_votes votes accept_votes) s.votes;
      }
      elim (leb s.k (suc votes_received)) [
        | true ↦ handle_votes fuel bfs s' blk_id
        | false ↦ ok (s', [])
      ]
  ]

  -- Whether `commit_ready` returns.
  unfoldable pub commit_ready : State C → Bool
  commit_ready s = elim s.commit_queue [ [] ↦ false | _ ∷ _ ↦ true ]

  unfoldable pub handle_timeout : ℕ → ℕ → State C → Outcome (State C × List Output)
  handle_timeout fuel bfs s = do
    let (queue, popped) = TimeQueue.pop s.vote_time_queue
    let s' = record s { vote_time_queue = queue }
    blk_id ← unwrap popped
    elim (contains blk_id s.finished_query) [
      | true ↦ ok (s', [])
      | false ↦ handle_votes fuel bfs s' blk_id
    ]

  unfoldable pub next_to_commit : State C → Outcome (State C × (ℕ × List Txn))
  next_to_commit s = elim s.commit_queue [
    | [] ↦ panic
    | (blk_id, txn_hashes) ∷ rest ↦ do
      txns ← lookup_all s.txn_pool txn_hashes
      ok (record s { commit_queue = rest }, (blk_id, txns))
  ]
