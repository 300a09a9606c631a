-- ===== src/BlockManagement/Avalanche/Filling.antt =====
-- `prepare_new_block` ends, and what it adds to the batch.
use cbox.Base.{
  ℕ, zero, suc, ◌+◌, ◌-◌, ◌%◌, ◌^◌, ◌≤◌, ◌<◌, List, [], ◌∷◌, ◌++◌, Option, none, some, Bool, true,
  false, ok, ◌==◌, nat_eq, eq→path, eq_refl, if◌then◌else◌, leb, length, length-append, ◌≡◌, refl,
  sym, ap, ◌∙◌, subst, ◌⊎◌, Bool-cases, Option-cases, inl, inr, arith, append-nil, append_assoc,
  leb→le, Outcome,
}
use cbox.Base.HashMap.{HashMap, get, get-insert, get-remove}
use cbox.Base.HashMap
use cbox.Base.HashSet.{contains, IsDistinct}
use cbox.Protocol.{Hash}
use cbox.BlockManagement.Avalanche.{DagNode, TxnDag, State, CurBlockState, full, empty_mempool}
use cbox.BlockManagement.Avalanche.Propose.{release, prepare_new_block}

-- The children that the dag has listed, in all.
unfoldable pub listed : TxnDag → ℕ
listed [] = 0
listed ((h, node) ∷ dag) = length node.children + listed dag

listed-insert :
    (k : Hash) (node node' : DagNode) (dag : TxnDag)
    → get k dag ≡ some node
    → node'.children ≡ node.children
    → listed (HashMap.insert k node' dag) ≡ listed dag
unfolding listed get HashMap.insert
listed-insert k node node' [] found same = cc
listed-insert k node node' ((j, n) ∷ dag) found same = elim (Bool-cases (j == k)) [
  | inl here ↦
      let first : ◌≡◌ {A = Option DagNode} (some n) (some node) = rw here at found in
      rw here (omega (arith, ap length same, ap (λ o. length (children_or o)) first))
  | inr other ↦ rw other (omega (arith, listed-insert k node node' dag (rw other at found) same))
]
  where
    children_or : Option DagNode → List Hash
    children_or none = []
    children_or (some m) = m.children

listed-remove : (k : Hash) (dag : TxnDag) → listed (HashMap.remove k dag) ≤ listed dag
unfolding listed HashMap.remove
listed-remove k [] = omega arith
listed-remove k ((j, n) ∷ dag) = elim (Bool-cases (j == k)) [
  | inl here ↦ rw here (omega (arith, listed-remove k dag))
  | inr other ↦ rw other (omega (arith, listed-remove k dag))
]

listed-remove_found :
    (k : Hash) (node : DagNode) (dag : TxnDag)
    → get k dag ≡ some node
    → length node.children + listed (HashMap.remove k dag) ≤ listed dag
unfolding listed get HashMap.remove
listed-remove_found k node [] found = cc
listed-remove_found k node ((j, n) ∷ dag) found = elim (Bool-cases (j == k)) [
  | inl here ↦
      let first : ◌≡◌ {A = Option DagNode} (some n) (some node) = rw here at found in
      rw here (omega (arith, listed-remove k dag, ap (λ o. length (children_or o)) first))
  | inr other ↦ rw other (omega (arith, listed-remove_found k node dag (rw other at found)))
]
  where
    children_or : Option DagNode → List Hash
    children_or none = []
    children_or (some m) = m.children

-- Releasing children keeps what is listed, and puts each of them on the frontier once at most.
release-listed :
    (children : List Hash) (dag : TxnDag) (frontier : List Hash)
    → (listed (release children dag frontier).0 ≡ listed dag)
      × (length (release children dag frontier).1 ≤ length frontier + length children)
unfolding release
release-listed [] dag frontier = (refl, omega arith)
release-listed (c ∷ cs) dag frontier = elim (Option-cases (get c dag)) [
  | inl gone ↦
      let (same, short) = release-listed cs dag frontier in
      (rw (gone, release) same, rw (gone, release) (omega (arith, short)))
  | inr (node, found) ↦
      let n = (node.num_parents + 2 ^ 64 - 1) % 2 ^ 64 in
      let dag' = HashMap.insert c (record node { num_parents = n }) dag in
      let frontier' = if n == 0 then frontier ++ c ∷ [] else frontier in
      let (same, short) = release-listed cs dag' frontier' in
      let kept = listed-insert c node (record node { num_parents = n }) dag found refl in
      (
        rw (found, release) (same ∙ kept),
        rw (found, release) (omega (arith, short, pushed (n == 0))),
      )
]
  where
    pushed : (b : Bool) → length (if b then frontier ++ c ∷ [] else frontier) ≤ length frontier + 1
    pushed true = omega (arith, length-append frontier (c ∷ []))
    pushed false = omega arith

release-none :
    (children : List Hash) (dag : TxnDag) (frontier : List Hash) (h : Hash)
    → get h dag ≡ none
    → get h (release children dag frontier).0 ≡ none
unfolding release
release-none [] dag frontier h gone = gone
release-none (c ∷ cs) dag frontier h gone = elim (Option-cases (get c dag)) [
  | inl missing ↦ rw (missing, release) (release-none cs dag frontier h gone)
  | inr (node, found) ↦
      let n = (node.num_parents + 2 ^ 64 - 1) % 2 ^ 64 in
      let node' : DagNode = record node { num_parents = n } in
      rw (found, release)
        (release-none cs (HashMap.insert c node' dag)
          (if n == 0 then frontier ++ c ∷ [] else frontier) h
          (get-insert c h node' dag ∙ other node' node found))
]
  where
    other :
        (node' node : DagNode)
        → get c dag ≡ some node
        → (if c == h then some node' else get h dag) ≡ none
    other node' node found = elim (Bool-cases (c == h)) [
      | inl same ↦ cc (found, gone, eq→path c h same)
      | inr differs ↦ rw differs gone
    ]

-- What was added to the batch was in the dag, is not any more, and is there once; the loop has stopped
-- since the batch is full, or since nothing is ready.
pub record Batched (s s' : State) (st : CurBlockState) : Type 0 where
  pub added : List Hash
  pub appended : s'.curr_batch ≡ s.curr_batch ++ added
  pub distinct : IsDistinct added
  pub were : (h : Hash) → contains h added ≡ true → ¬ (get h s.txn_dag ≡ none)
  pub gone : (h : Hash) → contains h added ≡ true → get h s'.txn_dag ≡ none
  pub same_pool : s'.txn_pool ≡ s.txn_pool
  pub same_pending : s'.pending_blks ≡ s.pending_blks
  pub kept : (h : Hash) → get h s.txn_dag ≡ none → get h s'.txn_dag ≡ none
  pub bounded : length s.curr_batch ≤ s.blk_len → length s'.curr_batch ≤ s.blk_len
  pub stops :
      ((st ≡ full) × (s.blk_len ≤ length s'.curr_batch))
      ⊎ ((st ≡ empty_mempool) × (s'.dag_frontier ≡ []))

Batched-stop :
    (s : State) (st : CurBlockState)
    → ((st ≡ full) × (s.blk_len ≤ length s.curr_batch))
      ⊎ ((st ≡ empty_mempool) × (s.dag_frontier ≡ []))
    → Batched s s st
unfolding contains
Batched-stop s st stops = record {
  added = [];
  appended = sym (append-nil s.curr_batch);
  distinct = tt;
  were = λ h mem. cc;
  gone = λ h mem. cc;
  same_pool = refl;
  same_pending = refl;
  kept = λ h e. e;
  bounded = λ b. b;
  stops = stops;
}

-- The state after a transaction of the frontier is put into the batch.
abbrev taken : State → Hash → List Hash → DagNode → State
taken s next_txn frontier node = record s {
  txn_dag = (release node.children (HashMap.remove next_txn s.txn_dag) frontier).0;
  dag_frontier = (release node.children (HashMap.remove next_txn s.txn_dag) frontier).1;
  curr_batch = s.curr_batch ++ next_txn ∷ [];
}

Batched-taken :
    (s : State) (next_txn : Hash) (frontier : List Hash) (node : DagNode) (s' : State)
    (st : CurBlockState)
    → get next_txn s.txn_dag ≡ some node
    → leb s.blk_len (length s.curr_batch) ≡ false
    → Batched (taken s next_txn frontier node) s' st
    → Batched s s' st
unfolding contains
Batched-taken s next_txn frontier node s' st found room step = record {
  added = next_txn ∷ step.added;
  appended = step.appended ∙ append_assoc s.curr_batch (next_txn ∷ []) step.added;
  distinct = (once, step.distinct);
  were = λ h mem e. elim (Bool-cases (next_txn == h)) [
    | inl same ↦ cc (found, e, eq→path next_txn h same)
    | inr other ↦ step.were h (ground (arith, mem, other)) (after h e)
  ];
  gone = λ h mem. elim (Bool-cases (next_txn == h)) [
    | inl same ↦
        subst (λ k. get k s'.txn_dag ≡ none) (eq→path next_txn h same)
          (step.kept next_txn (left next_txn (eq_refl next_txn)))
    | inr other ↦ step.gone h (ground (arith, mem, other))
  ];
  same_pool = step.same_pool;
  same_pending = step.same_pending;
  kept = λ h e. step.kept h (after h e);
  bounded = λ _. step.bounded (
      omega (
        arith,
        length-append s.curr_batch (next_txn ∷ []),
        leb-false s.blk_len (length s.curr_batch) room,
      ));
  stops = step.stops;
}
  where
    leb-false : (a b : ℕ) → leb a b ≡ false → b < a
    leb-false a b h = ground arith

    -- what was not in the dag, and the transaction itself, are not in it afterwards
    after :
        (h : Hash) → get h s.txn_dag ≡ none → get h (taken s next_txn frontier node).txn_dag ≡ none
    after h e =
        release-none node.children (HashMap.remove next_txn s.txn_dag) frontier h
          (get-remove next_txn h s.txn_dag ∙ kept_none (next_txn == h) e)
      where
        kept_none :
            (b : Bool) → get h s.txn_dag ≡ none → (if b then none else get h s.txn_dag) ≡ none
        kept_none true f = refl
        kept_none false f = f

    left :
        (h : Hash) → (next_txn == h) ≡ true → get h (taken s next_txn frontier node).txn_dag ≡ none
    left h same =
        release-none node.children (HashMap.remove next_txn s.txn_dag) frontier h
          (get-remove next_txn h s.txn_dag ∙ (rw same refl))

    once : contains next_txn step.added ≡ false
    once = elim (Bool-cases (contains next_txn step.added)) [
      | inl again ↦ absurd (step.were next_txn again (left next_txn (eq_refl next_txn)))
      | inr new ↦ new
    ]

Batched-skipped :
    (s : State) (frontier : List Hash) (s' : State) (st : CurBlockState)
    → Batched (record s { dag_frontier = frontier }) s' st
    → Batched s s' st
Batched-skipped s frontier s' st step = record {
  added = step.added;
  appended = step.appended;
  distinct = step.distinct;
  were = step.were;
  gone = step.gone;
  same_pool = step.same_pool;
  same_pending = step.same_pending;
  kept = step.kept;
  bounded = step.bounded;
  stops = step.stops;
}

abbrev Ends : State → Outcome (State × CurBlockState) → Type 0
Ends s run = (s' : State) × (st : CurBlockState) × (run ≡ ok (s', st)) × Batched s s' st

-- A round that does not find the batch full.
round :
    (fuel : ℕ) (s : State) (frontier : List Hash)
    → ((t : State)
        → length t.dag_frontier + listed t.txn_dag < fuel
        → Ends t (prepare_new_block fuel t))
    → s.dag_frontier ≡ frontier
    → length frontier + listed s.txn_dag < suc fuel
    → leb s.blk_len (length s.curr_batch) ≡ false
    → Ends s (elim frontier [
      | [] ↦ ok (s, empty_mempool)
      | next_txn ∷ rest ↦ elim (get next_txn s.txn_dag) [
        | none ↦ prepare_new_block fuel (record s { dag_frontier = rest })
        | some node ↦ prepare_new_block fuel (taken s next_txn rest node)
      ]
    ])
round fuel s [] ih e enough room =
    (s, empty_mempool, refl, Batched-stop s empty_mempool (inr (refl, e)))
round fuel s (next_txn ∷ rest) ih e enough room = elim (Option-cases (get next_txn s.txn_dag)) [
  | inl missing ↦
      let (s', st, runs, step) = ih (record s { dag_frontier = rest }) (omega (arith, enough)) in
      (s', st, rw missing runs, Batched-skipped s rest s' st step)
  | inr (node, found) ↦
      let (same, short) = release-listed node.children (HashMap.remove next_txn s.txn_dag) rest in
      let (s', st, runs, step) =
        ih (taken s next_txn rest node)
          (omega (arith, enough, same, short, listed-remove_found next_txn node s.txn_dag found)) in
      (s', st, rw found runs, Batched-taken s next_txn rest node s' st found room step)
]

-- With more fuel than the frontier and the listed children are together, the loop ends, having added
-- transactions of the dag to the batch, each once, which have left the dag and do not come back; the
-- batch does not grow beyond the block length, and is that long, or nothing is ready.
pub prepare_new_block-Batched :
    (fuel : ℕ) (s : State)
    → length s.dag_frontier + listed s.txn_dag < fuel
    → (s' : State) × (st : CurBlockState) × (prepare_new_block fuel s ≡ ok (s', st))
      × Batched s s' st
unfolding prepare_new_block
prepare_new_block-Batched zero s enough = absurd (omega arith)
prepare_new_block-Batched (suc fuel) s enough =
    elim (Bool-cases (leb s.blk_len (length s.curr_batch))) [
      | inl is_full ↦ (
        s,
        full,
        rw (is_full, prepare_new_block) refl,
        Batched-stop s full (inl (refl, leb→le s.blk_len (length s.curr_batch) is_full)),
      )
      | inr room ↦
          let (s', st, runs, step) =
            round fuel s s.dag_frontier (prepare_new_block-Batched fuel) refl enough room in
          (s', st, rw (room, prepare_new_block) runs, step)
    ]
