-- ===== src/Decide/Avalanche/Tail.antt =====
-- `new_tail` and `handle_peer_msg` of both decisions: a batch of transactions is recorded and voted on,
-- and the votes are counted here when the batch is this node's own, else sent to its proposer.
use cbox.Base.{
  ℕ, ◌+◌, List, [], ◌∷◌, ◌++◌, Option, none, some, Bool, true, false, Outcome, ok, panic, unwrap,
  assert, ◌>>=◌, ◌>>◌, ◌==◌, nat_eq, pair_eq, list_eq, if◌then◌else◌, length,
}
use cbox.Base.HashMap.{HashMap, get, contains_key}
use cbox.Base.HashMap
use cbox.Base.HashSet.{contains}
use cbox.Protocol.{
  Hash, NodeId, Signature, Txn, TxnCtx, AvalancheTxn, as_avalanche, Block, BlkCtx, BlockHeader,
}
use cbox.TimeQueue
use cbox.Decide.Avalanche.{State, ConflictSet, TxnDag, Utxo, Rule, utxos}
use cbox.Decide.Avalanche.Preference.{is_strongly_preferred}
use cbox.Decide.Avalanche.Votes.{Output, record_votes}

-- The transaction becomes a child of those that it spends and that are in the dag.
unfoldable pub add_child : Hash → List Hash → TxnDag → TxnDag
add_child txn_hash [] dag = dag
add_child txn_hash (p ∷ ps) dag = elim (get p dag) [
  | none ↦ add_child txn_hash ps dag
  | some node ↦
      add_child txn_hash ps
        (HashMap.insert p (record node { children = node.children ++ txn_hash ∷ [] }) dag)
]

-- The proposer and the id of a batch; a batch of a depth is not for this stage.
unfoldable pub batch_of : BlockHeader → Outcome (NodeId × ℕ)
batch_of (BlockHeader.avalanche proposer id depth) = assert (depth == 0) >> ok (proposer, id)
batch_of BlockHeader.dummy = panic
batch_of (BlockHeader.bitcoin _ _ _ _) = panic
batch_of (BlockHeader.chain_replication _) = panic

module _ {C : Type 0} where
  -- The set of each input is made for this transaction, or has a conflict from now on.
  unfoldable pub add_conflicts :
      C → Hash → List Utxo → HashMap Utxo (ConflictSet C) → HashMap Utxo (ConflictSet C)
  add_conflicts start txn_hash [] sets = sets
  add_conflicts start txn_hash (u ∷ us) sets = elim (get u sets) [
    | none ↦
        add_conflicts start txn_hash us (
          HashMap.insert u (record { has_conflicts = false; pref = txn_hash; rounds = start }) sets)
    | some ct ↦
        add_conflicts start txn_hash us (HashMap.insert u (record ct { has_conflicts = true }) sets)
  ]

  -- The transaction enters the pool and the dag, with no confidence yet.
  unfoldable pub add_node : State C → Txn → TxnCtx → List Hash → State C
  add_node s txn txn_ctx parents = record s {
    txn_pool = HashMap.insert txn_ctx.id (txn, txn_ctx) s.txn_pool;
    txn_dag =
        add_child txn_ctx.id parents
          (HashMap.insert txn_ctx.id (record { parents = parents; children = [] }) s.txn_dag);
    confidence = HashMap.insert txn_ctx.id 0 s.confidence;
  }

module _ {C : Type 0} (rule : Rule C) where
  unfoldable pub enter : State C → Txn → TxnCtx → AvalancheTxn → State C
  enter s txn txn_ctx (AvalancheTxn.grant _ _ _) = add_node s txn txn_ctx []
  enter s txn txn_ctx (AvalancheTxn.noop parents) = add_node s txn txn_ctx parents
  enter s txn txn_ctx (AvalancheTxn.send sender in_utxo _ _ _ _) =
      record (add_node s txn txn_ctx in_utxo) {
        conflict_sets = add_conflicts rule.start txn_ctx.id (utxos sender in_utxo) s.conflict_sets;
      }
  enter s txn txn_ctx AvalancheTxn.place_holder = s

  -- "record the txn if never seen it before"
  unfoldable pub record_txn : State C → Txn → TxnCtx → AvalancheTxn → State C
  record_txn s txn txn_ctx avax_txn =
      if contains_key txn_ctx.id s.txn_pool then s else enter s txn txn_ctx avax_txn

  -- The vote of this node on a transaction of the batch, and its entry in the query.
  unfoldable pub vote_on :
      ℕ → State C → Txn → TxnCtx → AvalancheTxn → Outcome (State C × (Bool × Option Hash))
  vote_on fuel s txn txn_ctx (AvalancheTxn.grant out_utxo receiver nonce) = ok (
    record_txn s txn txn_ctx (AvalancheTxn.grant out_utxo receiver nonce),
    (true, some txn_ctx.id),
  )
  vote_on fuel s txn txn_ctx
        (AvalancheTxn.send sender in_utxo receiver out_utxo remainder signature) =
      do
        (s', vote) ←
            is_strongly_preferred fuel
              (record_txn s txn txn_ctx
                (AvalancheTxn.send sender in_utxo receiver out_utxo remainder signature))
              txn_ctx.id
        ok (s', (vote, some txn_ctx.id))
  vote_on fuel s txn txn_ctx (AvalancheTxn.noop parents) = do
    (s', vote) ←
        is_strongly_preferred fuel (record_txn s txn txn_ctx (AvalancheTxn.noop parents)) txn_ctx.id
    ok (s', (vote, some txn_ctx.id))
  vote_on fuel s txn txn_ctx AvalancheTxn.place_holder = ok (s, (false, none))

  -- The loop over the batch, whose lists have been found to be of one length.
  unfoldable pub vote_all :
      ℕ → State C → List Txn → List TxnCtx → Outcome (State C × (List Bool × List (Option Hash)))
  vote_all fuel s [] txn_ctxs = ok (s, ([], []))
  vote_all fuel s (txn ∷ txns) [] = panic
  vote_all fuel s (txn ∷ txns) (txn_ctx ∷ txn_ctxs) = do
    avax_txn ← unwrap (as_avalanche txn)
    (s', (vote, query_txn)) ← vote_on fuel s txn txn_ctx avax_txn
    (s'', (votes, query_txns)) ← vote_all fuel s' txns txn_ctxs
    ok (s'', (vote ∷ votes, query_txn ∷ query_txns))

  -- `sign` is the signature with this node's key of a round and votes, as they are serialized.
  module _ (sign : ℕ → List Bool → Outcome Signature) where
    -- The last part of `new_tail`.
    unfoldable pub answer :
        ℕ
        → ℕ
        → ℕ
        → State C
        → NodeId
        → ℕ
        → List Bool
        → List (Option Hash)
        → Outcome (State C × List Output)
    answer fuel bfs now s proposer blk_id votes query_txns = elim (proposer == s.id) [
      | true ↦
          record_votes rule fuel bfs
            (record s {
              query_pool = HashMap.insert blk_id query_txns s.query_pool;
              vote_time_queue = TimeQueue.push s.vote_time_queue blk_id (now + s.vote_timeout);
            })
            blk_id votes
      | false ↦ do
        signature ← sign blk_id votes
        ok (s, Output.vote_msg proposer blk_id votes signature ∷ [])
    ]

    unfoldable pub new_tail :
        ℕ → ℕ → ℕ → State C → NodeId → List (Block × BlkCtx) → Outcome (State C × List Output)
    new_tail fuel bfs now s src [] = ok (s, [])
    new_tail fuel bfs now s src ((new_blk, new_blk_ctx) ∷ []) = do
      (proposer, blk_id) ← batch_of new_blk.header
      _ ← assert (src == proposer)
      _ ← assert (length new_blk.txns == length new_blk_ctx.txn_ctx)
      (s', (votes, query_txns)) ← vote_all fuel s new_blk.txns new_blk_ctx.txn_ctx
      answer fuel bfs now s' proposer blk_id votes query_txns
    new_tail fuel bfs now s src (first ∷ second ∷ rest) = panic

  -- `deserialize` and `verify` are those of a message and of its signature with the key of its sender.
  module _ (deserialize : List ℕ → Outcome (ℕ × (List Bool × Signature)))
      (verify : NodeId → ℕ → List Bool → Signature → Outcome Bool) where
    unfoldable pub handle_peer_msg :
        ℕ → ℕ → State C → NodeId → List ℕ → Outcome (State C × List Output)
    handle_peer_msg fuel bfs s src content = do
      (round, (votes, signature)) ← deserialize content
      elim (contains round s.finished_query) [
        | true ↦ ok (s, [])
        | false ↦ do
          valid ← verify src round votes signature
          elim valid [ true ↦ record_votes rule fuel bfs s round votes | false ↦ ok (s, []) ]
      ]
