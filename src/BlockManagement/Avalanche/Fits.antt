-- ===== src/BlockManagement/Avalanche/Fits.antt =====
-- `validate_block` to its end: the batches that waited are checked again, and what is handed on passes
-- two assertions of the decision.
use cbox.Base.{
  ◌⊎◌, ◌++◌, ℕ, zero, suc, List, [], ◌∷◌, Option, none, some, false, Outcome, ok, unwrap, assert,
  ◌>>=◌, >>=-elim, ok-injective, ◌==◌, nat_eq, pair_eq, length, get_elem?, ◌≡◌, refl, sym, ◌∙◌,
  subst, Bool-cases, Option-cases, inl, inr, some_unique,
}
use cbox.Base.HashMap.{HashMap, get, get-insert, get-remove, contains_key}
use cbox.Base.HashMap
use cbox.Protocol.{Hash, NodeId, Txn, TxnCtx, AvalancheTxn, as_avalanche, Block, BlkCtx}
use cbox.BlockManagement.Avalanche.{PeerReq, PendingBlk, PendingBlks, State}
use cbox.BlockManagement.Avalanche.Funds.{validate_txn}
use cbox.BlockManagement.Avalanche.Validate.{
  header_of, Progress, is_valid, check_txns, recheck_send, recheck_new, recheck_txn, recheck_txns,
  recheck_blks, request, emit, validate_block,
}
use cbox.Decide.Avalanche.Tail.{batch_of}
use cbox.BlockManagement.Avalanche.Shown.{Shows, validate_block-Shows}
use cbox.BlockManagement.Avalanche.{TxnPool}
use cbox.BlockManagement.Avalanche.Emits.{
  IsKeptByAdmit, ArePaired, IsPaired, length-set_elem, admit-IsPaired, Keeps, check_txns-Keeps,
}

insert-ArePaired :
    (pending : PendingBlks) (k : NodeId × (ℕ × ℕ)) (blk : PendingBlk)
    → ArePaired pending
    → length blk.0 ≡ length blk.1.0
    → ArePaired (HashMap.insert k blk pending)
insert-ArePaired pending k blk paired same j found_blk found = elim (Bool-cases (k == j)) [
  | inl is_k ↦
      let here : get j (HashMap.insert k blk pending) ≡ some blk =
        get-insert k j blk pending ∙ (rw is_k refl) in
      subst (λ b. length b.0 ≡ length b.1.0) (some_unique here found) same
  | inr other ↦ paired j found_blk (rw other at (sym (get-insert k j blk pending) ∙ found))
]

remove-ArePaired :
    (pending : PendingBlks) (k : NodeId × (ℕ × ℕ))
    → ArePaired pending
    → ArePaired (HashMap.remove k pending)
remove-ArePaired pending k paired j blk found = elim (Bool-cases (k == j)) [
  | inl is_k ↦ cc (rw is_k at (sym (get-remove k j pending) ∙ found))
  | inr other ↦ paired j blk (rw other at (sym (get-remove k j pending) ∙ found))
]

contains_key-none : (h : Hash) (pool : TxnPool) → contains_key h pool ≡ false → get h pool ≡ none
unfolding contains_key
contains_key-none h pool new = elim (Option-cases (get h pool)) [
  | inl missing ↦ missing
  | inr (entry, found) ↦ cc (rw found at new)
]

-- A predicate of states that is about nothing that `validate_block` changes beside.
abbrev pub IsKeptAside : (State → Type 0) → Type 0
IsKeptAside P =
    (s : State) (frontier : List Hash) (pending : PendingBlks)
    → P s
    → P (record s { dag_frontier = frontier; pending_blks = pending })

-- One batch at most, of this proposer and id, of depth 0, and with as many ids as transactions.
abbrev pub Fits : NodeId → ℕ → List (Block × BlkCtx) → Type 0
Fits proposer blk_id [] = Unit
Fits proposer blk_id ((blk, blk_ctx) ∷ []) =
    (batch_of blk.header ≡ ok (proposer, blk_id)) × (length blk.txns ≡ length blk_ctx.txn_ctx)
Fits proposer blk_id (first ∷ second ∷ rest) = ⊥

abbrev pub Answer : Type 0
Answer = State × (List (Block × BlkCtx) × Option PeerReq)

module _ (P : State → Type 0) (admits : IsKeptByAdmit P) (aside : IsKeptAside P)
    (place_holder_ctx : Outcome TxnCtx) where
  recheck_send-Keeps :
      (p : Progress) (idx : ℕ) (txn : Txn) (txn_ctx : TxnCtx) (avax_txn : AvalancheTxn)
      (in_utxo : List Hash)
      → get txn_ctx.id p.state.txn_pool ≡ none
      → Keeps P admits place_holder_ctx p
          (recheck_send place_holder_ctx p idx txn txn_ctx avax_txn in_utxo)
  unfolding recheck_send
  recheck_send-Keeps p idx txn txn_ctx avax_txn in_utxo fresh paired r runs =
      >>=-elim (validate_txn p.state.txn_pool avax_txn) _ runs (λ checked _ runs1.
        elim (Bool-cases (is_valid checked)) [
          | inl passed ↦
              subst (IsPaired P) (ok-injective (rw passed at runs1))
                (admit-IsPaired P admits p txn txn_ctx in_utxo fresh paired)
          | inr failed ↦ >>=-elim place_holder_ctx _ (rw failed at runs1) (λ ctx _ last.
              subst (IsPaired P) (ok-injective last) (
                length-set_elem p.txns idx (Txn.avalanche AvalancheTxn.place_holder)
                    ∙ paired.0
                    ∙ sym (length-set_elem p.txn_ctxs idx ctx),
                paired.1,
                paired.2,
              ))
        ])

  recheck_new-Keeps :
      (p : Progress) (idx : ℕ) (txn : Txn) (txn_ctx : TxnCtx) (avax_txn : AvalancheTxn)
      → get txn_ctx.id p.state.txn_pool ≡ none
      → Keeps P admits place_holder_ctx p (recheck_new place_holder_ctx p idx txn txn_ctx avax_txn)
  unfolding recheck_new
  recheck_new-Keeps p idx txn txn_ctx (AvalancheTxn.noop _) fresh paired r runs =
      subst (IsPaired P) (ok-injective runs) paired
  recheck_new-Keeps p idx txn txn_ctx AvalancheTxn.place_holder fresh paired r runs =
      subst (IsPaired P) (ok-injective runs) paired
  recheck_new-Keeps p idx txn txn_ctx (AvalancheTxn.grant _ _ _) fresh paired r runs =
      subst (IsPaired P) (ok-injective runs) paired
  recheck_new-Keeps p idx txn txn_ctx (AvalancheTxn.send sender in_utxo receiver out rest sig) fresh
        paired r runs =
      recheck_send-Keeps p idx txn txn_ctx (AvalancheTxn.send sender in_utxo receiver out rest sig)
        in_utxo fresh paired r runs

  recheck_txns-Keeps :
      (p : Progress) (idxs : List ℕ)
      → Keeps P admits place_holder_ctx p (recheck_txns place_holder_ctx p idxs)
  unfolding recheck_txns recheck_txn
  recheck_txns-Keeps p [] paired r runs = subst (IsPaired P) (ok-injective runs) paired
  recheck_txns-Keeps p (idx ∷ idxs) paired r runs =
      >>=-elim (recheck_txn place_holder_ctx p idx) _ runs
        (λ p1 first rest. recheck_txns-Keeps p1 idxs (one p1 first) r rest)
    where
      one : (p1 : Progress) → recheck_txn place_holder_ctx p idx ≡ ok p1 → IsPaired P p1
      one p1 first = >>=-elim (unwrap (get_elem? p.txns idx)) _ first (λ txn _ runs1.
          >>=-elim (unwrap (get_elem? p.txn_ctxs idx)) _ runs1 (λ txn_ctx _ runs2.
            elim (Bool-cases (contains_key txn_ctx.id p.state.txn_pool)) [
              | inl known ↦ subst (IsPaired P) (ok-injective (rw known at runs2)) paired
              | inr new ↦
                  >>=-elim (unwrap (as_avalanche txn)) _ (rw new at runs2) (λ avax_txn _ last.
                    recheck_new-Keeps p idx txn txn_ctx avax_txn
                      (contains_key-none txn_ctx.id p.state.txn_pool new) paired p1 last)
            ]))

  -- The loop keeps it, and ends for lack of a batch, or at depth 0.
  recheck_blks-IsPaired :
      (depth : ℕ) (proposer : NodeId) (blk_id : ℕ) (p : Progress) (r : Progress × Option ℕ)
      → IsPaired P p
      → recheck_blks place_holder_ctx depth proposer blk_id p ≡ ok r
      → IsPaired P r.0 × ((r.1 ≡ none) ⊎ (r.1 ≡ some 0))
  unfolding recheck_blks
  recheck_blks-IsPaired zero proposer blk_id p r paired runs =
      subst (λ q. IsPaired P q.0 × ((q.1 ≡ none) ⊎ (q.1 ≡ some 0))) (ok-injective runs)
        (paired, inr refl)
  recheck_blks-IsPaired (suc depth) proposer blk_id p r paired runs =
      elim (Option-cases (get (proposer, (blk_id, depth)) p.state.pending_blks)) [
        | inl unexpected ↦
            subst (λ q. IsPaired P q.0 × ((q.1 ≡ none) ⊎ (q.1 ≡ some 0)))
              (ok-injective (rw (unexpected, recheck_blks) at runs)) (paired, inl refl)
        | inr (blk, waited) ↦
            >>=-elim
              (recheck_txns place_holder_ctx
                (record p {
                  state = record p.state {
                    pending_blks = HashMap.remove (proposer, (blk_id, depth)) p.state.pending_blks;
                  };
                  txns = blk.0;
                  txn_ctxs = blk.1.0;
                })
                blk.1.1)
              _ (rw (waited, recheck_blks) at runs)
              (λ p1 first rest.
                recheck_blks-IsPaired depth proposer blk_id p1 r
                  (recheck_txns-Keeps _ blk.1.1
                    (
                      paired.1 (proposer, (blk_id, depth)) blk waited,
                      remove-ArePaired p.state.pending_blks (proposer, (blk_id, depth)) paired.1,
                      aside p.state p.state.dag_frontier
                          (HashMap.remove (proposer, (blk_id, depth)) p.state.pending_blks)
                          paired.2,
                    )
                    p1 first)
                  rest)
      ]

  pub validate_block-Keeps :
      (s : State) (block : Block) (blk_ctx : BlkCtx) (proposer : NodeId) (blk_id depth : ℕ)
      (r : Answer)
      → ArePaired s.pending_blks
      → P s
      → header_of block.header ≡ ok (proposer, (blk_id, depth))
      → validate_block place_holder_ctx s block blk_ctx ≡ ok r
      → ArePaired r.0.pending_blks × P r.0 × Fits proposer blk_id r.1.0
  unfolding validate_block request emit batch_of
  validate_block-Keeps s block blk_ctx proposer blk_id depth r paired holds header runs =
      >>=-elim (assert (length block.txns == length blk_ctx.txn_ctx)) _ runs (λ _ _ runs1.
        >>=-elim
          (check_txns place_holder_ctx
            (record {
              state = s;
              txns = [];
              txn_ctxs = [];
              missing_deps = [];
              recheck_txn_idx = [];
              pending_frontier = [];
            })
            0 block.txns blk_ctx.txn_ctx)
          _ (rw header at runs1)
          (λ p checks runs2.
            go p p.missing_deps
              (check_txns-Keeps P admits place_holder_ctx _ 0 block.txns blk_ctx.txn_ctx
                (refl, paired, holds) p checks)
              runs2))
    where
      go :
          (p : Progress) (missing : List Hash)
          → IsPaired P p
          → elim missing [
            | h ∷ hs ↦
                let (s', peer_req) = request place_holder_ctx p proposer blk_id depth in
                ok (s', ([], some peer_req))
            | [] ↦ recheck_blks place_holder_ctx depth proposer blk_id p >>= (λ q. elim q.1 [
              | none ↦ ok (q.0.state, ([], none))
              | some curr_depth ↦
                  let (s', emitted) = emit place_holder_ctx q.0 proposer blk_id depth curr_depth in
                  ok (s', (emitted ∷ [], none))
            ])
          ]
            ≡ ok r
          → ArePaired r.0.pending_blks × P r.0 × Fits proposer blk_id r.1.0
      go p (h ∷ hs) is_paired e =
          subst (λ q. ArePaired q.0.pending_blks × P q.0 × Fits proposer blk_id q.1.0)
            (ok-injective e)
            (
              insert-ArePaired p.state.pending_blks (proposer, (blk_id, depth))
                  (p.txns, (p.txn_ctxs, p.recheck_txn_idx)) is_paired.1 is_paired.0,
              aside p.state (p.pending_frontier ++ p.state.dag_frontier)
                  (HashMap.insert (proposer, (blk_id, depth))
                    (p.txns, (p.txn_ctxs, p.recheck_txn_idx)) p.state.pending_blks)
                  is_paired.2,
              tt,
            )
      go p [] is_paired e =
          >>=-elim (recheck_blks place_holder_ctx depth proposer blk_id p) _ e (λ q rechecks last.
            let (q_paired, ends) =
              recheck_blks-IsPaired depth proposer blk_id p q is_paired rechecks in
            elim ends [
              | inr there ↦
                  subst (λ a. ArePaired a.0.pending_blks × P a.0 × Fits proposer blk_id a.1.0)
                    (ok-injective (rw there at last))
                    (
                      q_paired.1,
                      aside q.0.state (q.0.pending_frontier ++ q.0.state.dag_frontier)
                          q.0.state.pending_blks q_paired.2,
                      (refl, q_paired.0),
                    )
              | inl unexpected ↦
                  subst (λ a. ArePaired a.0.pending_blks × P a.0 × Fits proposer blk_id a.1.0)
                    (ok-injective (rw unexpected at last)) (q_paired.1, q_paired.2, tt)
            ])

-- When the batches that wait have as many ids as transactions, so they have after a further one is
-- checked, and what is handed on then is nothing, or one batch of the same proposer and id that passes
-- two assertions of the decision: its depth is 0, and it has as many ids as transactions. At each place
-- it has the transaction that was voted on, or a placeholder: that of the batch that was checked where
-- its depth is 0, and otherwise that of the batch of depth 0 which waited.
pub validate_block-Fits :
    (place_holder_ctx : Outcome TxnCtx) (s : State) (block : Block) (blk_ctx : BlkCtx)
    (proposer : NodeId) (blk_id depth : ℕ) (r : Answer)
    → ArePaired s.pending_blks
    → header_of block.header ≡ ok (proposer, (blk_id, depth))
    → validate_block place_holder_ctx s block blk_ctx ≡ ok r
    → ArePaired r.0.pending_blks
      × Fits proposer blk_id r.1.0
      × Shows s.pending_blks block.txns proposer blk_id depth r.1.0
validate_block-Fits place_holder_ctx s block blk_ctx proposer blk_id depth r paired header runs =
    let (waiting, _, fits) =
      validate_block-Keeps (λ t. Unit) (λ p txn txn_ctx in_utxo fresh h. tt)
        (λ t frontier pending h. tt) place_holder_ctx s block blk_ctx proposer blk_id depth r paired
        tt header runs in
    (
      waiting,
      fits,
      validate_block-Shows place_holder_ctx s block blk_ctx proposer blk_id depth r header runs,
    )
