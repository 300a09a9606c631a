-- ===== src/BlockManagement/Avalanche/Once.antt =====
-- The block management as a state machine, and that it proposes no transaction twice.
use cbox.Base.{
  ℕ, ◌+◌, ◌<◌, List, [], ◌∷◌, ◌++◌, none, some, Bool, true, false, Outcome, ok, unwrap, assert,
  >>=-elim, ok-injective, ◌==◌, nat_eq, eq→path, if◌then◌else◌, length, ltb, ◌≡◌, refl, sym, ◌∙◌,
  subst, Bool-cases, Option-cases, inl, inr, append-nil, append_assoc,
}
use cbox.Base.Departures.{Departed, Departed-leave, Departed-enter}
use cbox.Base.HashMap.{get, get-insert, contains_key}
use cbox.Base.HashMap
use cbox.Base.HashSet.{contains, IsDistinct}
use cbox.Base.HashSet
use cbox.Protocol.{Hash, NodeId, Txn, TxnCtx, as_avalanche, Block, BlkCtx}
use cbox.BlockManagement.Avalanche.{State, DagNode, TxnDag, CurBlockState, new}
use cbox.BlockManagement.Avalanche.Propose.{
  link, parents_of, record_new_txn, prepare_new_block, collect, get_new_block, handle_pmaker_msg,
}
use cbox.BlockManagement.Avalanche.Validate.{admit, header_of, validate_block}
use cbox.BlockManagement.Avalanche.Emits.{ArePaired, IsKeptByAdmit}
use cbox.BlockManagement.Avalanche.Filling.{listed, Batched, prepare_new_block-Batched}
use cbox.BlockManagement.Avalanche.Fits.{Answer, validate_block-Keeps}

-- What has been proposed, and what is in the batch, has left the dag.
abbrev pub Holds : List Hash → State → Type 0
Holds history s = Departed s.txn_dag s.txn_pool (history ++ s.curr_batch)

link-none :
    (x : Hash) (ps : List Hash) (dag : TxnDag) (h : Hash)
    → get h dag ≡ none
    → get h (link x ps dag).0 ≡ none
unfolding link
link-none x [] dag h gone = gone
link-none x (p ∷ ps) dag h gone = elim (Option-cases (get p dag)) [
  | inl missing ↦ rw (missing, link) (link-none x ps dag h gone)
  | inr (node, found) ↦
      let node' : DagNode = record node { children = HashSet.insert x node.children } in
      rw (found, link)
        (link-none x ps (HashMap.insert p node' dag) h
          (get-insert p h node' dag ∙ other node' node found))
]
  where
    other :
        (node' node : DagNode)
        → get p dag ≡ some node
        → (if p == h then some node' else get h dag) ≡ none
    other node' node found = elim (Bool-cases (p == h)) [
      | inl same ↦ cc (found, gone, eq→path p h same)
      | inr differs ↦ rw differs gone
    ]

-- A new transaction, linked to its parents.
linked-none :
    (x : Hash) (ps : List Hash) (node : DagNode) (dag : TxnDag) (h : Hash)
    → (x == h) ≡ false
    → get h dag ≡ none
    → get h (HashMap.insert x node (link x ps dag).0) ≡ none
linked-none x ps node dag h differs gone =
    get-insert x h node (link x ps dag).0 ∙ (rw differs (link-none x ps dag h gone))

admit-Holds : (history : List Hash) → IsKeptByAdmit (Holds history)
unfolding admit
admit-Holds history p txn txn_ctx in_utxo fresh holds =
    Departed-enter p.state.txn_dag
      (HashMap.insert txn_ctx.id
        (record { num_parents = (link txn_ctx.id in_utxo p.state.txn_dag).1; children = [] })
        (link txn_ctx.id in_utxo p.state.txn_dag).0)
      p.state.txn_pool (history ++ p.state.curr_batch) txn_ctx.id (txn, txn_ctx) fresh
      (linked-none txn_ctx.id in_utxo _ p.state.txn_dag) holds

module _ (place_holder_ctx : Outcome TxnCtx) where
  pub data Step : State → List Hash → State → Type 0 where
    record_txn :
        (s : State) (txn : Txn) (ctx : TxnCtx) (r : State × Bool)
        → record_new_txn s txn ctx ≡ ok r
        → Step s [] r.0
    prepare :
        (s : State) (fuel : ℕ)
        → length s.dag_frontier + listed s.txn_dag < fuel
        → (r : State × CurBlockState) → prepare_new_block fuel s ≡ ok r
        → Step s [] r.0
    propose :
        (s : State) (now : ℕ) (r : State × (Block × BlkCtx))
        → get_new_block now s ≡ ok r
        → Step s s.curr_batch r.0
    validate :
        (s : State) (block : Block) (blk_ctx : BlkCtx) (proposer : NodeId) (blk_id depth : ℕ)
        (r : Answer)
        → header_of block.header ≡ ok (proposer, (blk_id, depth))
        → validate_block place_holder_ctx s block blk_ctx ≡ ok r
        → Step s [] r.0
    feedback : (s : State) → Step s [] (handle_pmaker_msg s)

  -- A run, with the ids of all the transactions that it has proposed.
  pub data Run : State → List Hash → State → Type 0 where
    start : {s : State} → Run s [] s
    step :
        {s s' s'' : State} {history hashes : List Hash}
        → Run s history s'
        → Step s' hashes s''
        → Run s (history ++ hashes) s''

  -- What every state of a run is like.
  abbrev Sound : List Hash → State → Type 0
  Sound history s = ArePaired s.pending_blks × Holds history s

  record_new_txn-Sound :
      (history : List Hash) (s : State) (txn : Txn) (ctx : TxnCtx) (r : State × Bool)
      → Sound history s
      → record_new_txn s txn ctx ≡ ok r
      → Sound history r.0
  unfolding record_new_txn contains_key
  record_new_txn-Sound history s txn ctx r (paired, holds) runs =
      elim (Option-cases (get ctx.id s.txn_pool)) [
        | inr (entry, known) ↦
            subst (λ q. Sound history q.0) (ok-injective (rw (known, record_new_txn) at runs))
              (paired, holds)
        | inl fresh ↦
            >>=-elim (unwrap (as_avalanche txn)) _ (rw (fresh, record_new_txn) at runs)
              (λ avax_txn _ runs1. >>=-elim (parents_of avax_txn) _ runs1 (λ parents _ last.
                subst (λ q. Sound history q.0) (ok-injective last)
                  (
                    paired,
                    Departed-enter s.txn_dag
                        (HashMap.insert ctx.id
                          (record { num_parents = length parents; children = [] })
                          (link ctx.id parents s.txn_dag).0)
                        s.txn_pool (history ++ s.curr_batch) ctx.id (txn, ctx) fresh
                        (linked-none ctx.id parents _ s.txn_dag) holds,
                  )))
      ]

  Batched-Holds :
      (history : List Hash) (s s' : State) (st : CurBlockState)
      → Holds history s
      → Batched s s' st
      → Holds history s'
  Batched-Holds history s s' st holds filled =
      subst (λ l. Departed s'.txn_dag s'.txn_pool (history ++ l)) (sym filled.appended)
        (subst (λ p. Departed s'.txn_dag p (history ++ (s.curr_batch ++ filled.added)))
          (sym filled.same_pool)
          (subst (Departed s'.txn_dag s.txn_pool) (append_assoc history s.curr_batch filled.added) (
            Departed-leave s.txn_dag s'.txn_dag s.txn_pool (history ++ s.curr_batch) filled.added
              holds filled.distinct filled.were filled.gone filled.kept)))

  prepare_new_block-Sound :
      (history : List Hash) (s : State) (fuel : ℕ) (r : State × CurBlockState)
      → Sound history s
      → length s.dag_frontier + listed s.txn_dag < fuel
      → prepare_new_block fuel s ≡ ok r
      → Sound history r.0
  prepare_new_block-Sound history s fuel r (paired, holds) enough runs =
      let (s', st, ends, filled) = prepare_new_block-Batched fuel s enough in
      subst (λ q. Sound history q.0) (ok-injective (sym ends ∙ runs))
        (
          subst ArePaired (sym filled.same_pending) paired,
          Batched-Holds history s s' st holds filled,
        )

  get_new_block-Sound :
      (history : List Hash) (s : State) (now : ℕ) (r : State × (Block × BlkCtx))
      → Sound history s
      → get_new_block now s ≡ ok r
      → Sound (history ++ s.curr_batch) r.0
  unfolding get_new_block
  get_new_block-Sound history s now r (paired, holds) runs =
      >>=-elim (assert (ltb 0 s.blk_quota)) _ runs (λ _ _ runs1.
        >>=-elim (collect s.txn_pool s.curr_batch) _ runs1 (λ txns _ last.
          subst (λ q. Sound (history ++ s.curr_batch) q.0) (ok-injective last)
            (
              paired,
              subst (Departed s.txn_dag s.txn_pool) (sym (append-nil (history ++ s.curr_batch)))
                  holds,
            )))

  Step-Sound :
      {s s' : State} {hashes : List Hash} (history : List Hash)
      → Step s hashes s'
      → Sound history s
      → Sound (history ++ hashes) s'
  unfolding handle_pmaker_msg
  Step-Sound history (record_txn s txn ctx r runs) sound =
      rw (append-nil history) (record_new_txn-Sound history s txn ctx r sound runs)
  Step-Sound history (prepare s fuel enough r runs) sound =
      rw (append-nil history) (prepare_new_block-Sound history s fuel r sound enough runs)
  Step-Sound history (propose s now r runs) sound = get_new_block-Sound history s now r sound runs
  Step-Sound history (validate s block blk_ctx proposer blk_id depth r header runs) sound =
      let (paired, holds, _) =
        validate_block-Keeps (Holds history) (admit-Holds history) (λ t frontier pending h. h)
          place_holder_ctx s block blk_ctx proposer blk_id depth r sound.0 sound.1 header runs in
      rw (append-nil history) (paired, holds)
  Step-Sound history (feedback s) sound = rw (append-nil history) sound

  Run-Sound :
      {s s' : State} {history : List Hash} → Run s history s' → Sound [] s → Sound history s'
  Run-Sound start sound = sound
  Run-Sound (step {history = history} run last) sound =
      Step-Sound history last (Run-Sound run sound)

  new-Sound : (id : NodeId) (blk_len timeout now : ℕ) → Sound [] (new id blk_len timeout now)
  unfolding new contains get
  new-Sound id blk_len timeout now = (
    λ k blk found. cc,
    record { distinct = tt; gone = λ h mem. refl; known = λ h mem. cc; pooled = λ h missing. refl },
  )

  -- Whatever a node that starts afresh records, batches, proposes and checks, where each batching has
  -- fuel enough and each checked block an Avalanche header, no transaction is twice in what it has
  -- proposed and its batch, and none of these is in its dag any more.
  pub Run-proposes_once :
      (id : NodeId) (blk_len timeout now : ℕ) (s : State) (history : List Hash)
      → Run (new id blk_len timeout now) history s
      → IsDistinct (history ++ s.curr_batch)
        × ((h : Hash) → contains h (history ++ s.curr_batch) ≡ true → get h s.txn_dag ≡ none)
  Run-proposes_once id blk_len timeout now s history run =
      let (_, holds) = Run-Sound run (new-Sound id blk_len timeout now) in
      (holds.distinct, holds.gone)
