-- ===== src/BlockManagement/Avalanche/Shown.antt =====
-- Which batch `validate_block` hands on: the one that was voted on, with placeholders in it.
use cbox.Base.{
  ℕ, zero, suc, List, [], ◌∷◌, Option, none, some, Outcome, ok, assert, ◌>>=◌, >>=-elim,
  ok-injective, nat_eq, pair_eq, ◌==◌, length, ◌≡◌, refl, sym, ◌∙◌, subst, Bool-cases, Option-cases,
  inl, inr,
}
use cbox.Base.HashMap.{get, get-remove}
use cbox.Base.HashMap
use cbox.Protocol.{Hash, NodeId, Txn, TxnCtx, Block, BlkCtx}
use cbox.BlockManagement.Avalanche.{PeerReq, PendingBlk, PendingBlks, State}
use cbox.BlockManagement.Avalanche.Validate.{
  header_of, Progress, check_txns, recheck_txns, recheck_blks, request, emit, validate_block,
}
use cbox.BlockManagement.Avalanche.Masks.{
  AreMasked, AreMasked-same, AreMasked-trans, check_txns-AreMasked, recheck_txns-Masks,
}

-- The transactions that were voted on: those of the batch itself, or, where the batch is an answer,
-- those of the one that waits at depth 0.
abbrev pub AreVoted : PendingBlks → List Txn → NodeId → ℕ → ℕ → List Txn → Type 0
AreVoted pending txns proposer blk_id zero voted = voted ≡ txns
AreVoted pending txns proposer blk_id (suc depth) voted =
    (blk : PendingBlk) × (get (proposer, (blk_id, 0)) pending ≡ some blk) × (voted ≡ blk.0)

-- A batch that is handed on has at each place the transaction that was voted on, or a placeholder.
abbrev pub Shows : PendingBlks → List Txn → NodeId → ℕ → ℕ → List (Block × BlkCtx) → Type 0
Shows pending txns proposer blk_id depth [] = Unit
Shows pending txns proposer blk_id depth ((blk, blk_ctx) ∷ rest) =
    (voted : List Txn) × AreVoted pending txns proposer blk_id depth voted
    × AreMasked voted blk.txns

get_of_remove :
    (k j : NodeId × (ℕ × ℕ)) (pending : PendingBlks) (blk : PendingBlk)
    → get j (HashMap.remove k pending) ≡ some blk
    → get j pending ≡ some blk
get_of_remove k j pending blk found = elim (Bool-cases (k == j)) [
  | inl same ↦ absurd (cc (rw same at (sym (get-remove k j pending) ∙ found)))
  | inr other ↦ rw other at (sym (get-remove k j pending) ∙ found)
]

module _ (place_holder_ctx : Outcome TxnCtx) where
  recheck_blks-AreMasked :
      (depth : ℕ) (proposer : NodeId) (blk_id : ℕ) (p : Progress) (r : Progress × Option ℕ) (d : ℕ)
      → recheck_blks place_holder_ctx depth proposer blk_id p ≡ ok r
      → r.1 ≡ some d
      → (voted : List Txn) × AreVoted p.state.pending_blks p.txns proposer blk_id depth voted
        × AreMasked voted r.0.txns
  unfolding recheck_blks
  recheck_blks-AreMasked zero proposer blk_id p r d runs ends =
      subst
        (λ (q : Progress × Option ℕ).
          (voted : List Txn) × (voted ≡ p.txns) × AreMasked voted q.0.txns)
        (ok-injective runs) (p.txns, refl, AreMasked-same p.txns)
  recheck_blks-AreMasked (suc depth) proposer blk_id p r d runs ends =
      elim (Option-cases (get (proposer, (blk_id, depth)) p.state.pending_blks)) [
        | inl unexpected ↦
            let stops : none ≡ r.1 =
              subst (λ (q : Progress × Option ℕ). none ≡ q.1)
                (ok-injective (rw (unexpected, recheck_blks) at runs)) refl in
            absurd (cc (stops ∙ ends))
        | inr (blk, waited) ↦
            >>=-elim
              (recheck_txns place_holder_ctx
                (record p {
                  state = record p.state {
                    pending_blks = HashMap.remove (proposer, (blk_id, depth)) p.state.pending_blks;
                  };
                  txns = blk.0;
                  txn_ctxs = blk.1.0;
                })
                blk.1.1)
              _ (rw (waited, recheck_blks) at runs)
              (λ p1 first rest.
                let (masked, same) = recheck_txns-Masks place_holder_ctx _ blk.1.1 p1 first in
                let (voted, is_voted, shown) =
                  recheck_blks-AreMasked depth proposer blk_id p1 r d rest ends in
                go depth blk waited p1 masked same rest voted is_voted shown)
      ]
    where
      go :
          (depth : ℕ) (blk : PendingBlk)
          → get (proposer, (blk_id, depth)) p.state.pending_blks ≡ some blk
          → (p1 : Progress) → AreMasked blk.0 p1.txns
          → p1.state.pending_blks ≡ HashMap.remove (proposer, (blk_id, depth)) p.state.pending_blks
          → recheck_blks place_holder_ctx depth proposer blk_id p1 ≡ ok r
          → (voted : List Txn) → AreVoted p1.state.pending_blks p1.txns proposer blk_id depth voted
          → AreMasked voted r.0.txns
          → (voted' : List Txn) × ((blk' : PendingBlk) × (get
                  (proposer, (blk_id, 0))
                  p.state.pending_blks
                ≡ some blk')
              × (voted' ≡ blk'.0))
            × AreMasked voted' r.0.txns
      go zero blk waited p1 masked same rest voted is_voted shown = (
        blk.0,
        (blk, waited, refl),
        subst (λ (q : Progress × Option ℕ). AreMasked blk.0 q.0.txns) (ok-injective rest) masked,
      )
      go (suc e) blk waited p1 masked same rest voted (blk', found, is) shown = (
        voted,
        (
          blk',
          get_of_remove (proposer, (blk_id, suc e)) (proposer, (blk_id, 0)) p.state.pending_blks
              blk'
              (subst (λ (m : PendingBlks). get (proposer, (blk_id, 0)) m ≡ some blk') same found),
          is,
        ),
        shown,
      )

  pub validate_block-Shows :
      (s : State) (block : Block) (blk_ctx : BlkCtx) (proposer : NodeId) (blk_id depth : ℕ)
      (r : State × (List (Block × BlkCtx) × Option PeerReq))
      → header_of block.header ≡ ok (proposer, (blk_id, depth))
      → validate_block place_holder_ctx s block blk_ctx ≡ ok r
      → Shows s.pending_blks block.txns proposer blk_id depth r.1.0
  unfolding validate_block request emit
  validate_block-Shows s block blk_ctx proposer blk_id depth r header runs =
      >>=-elim (assert (length block.txns == length blk_ctx.txn_ctx)) _ runs (λ _ _ runs1.
        >>=-elim
          (check_txns place_holder_ctx
            (record {
              state = s;
              txns = [];
              txn_ctxs = [];
              missing_deps = [];
              recheck_txn_idx = [];
              pending_frontier = [];
            })
            0 block.txns blk_ctx.txn_ctx)
          _ (rw header at runs1)
          (λ p checks runs2.
            let (out, grown, masked, same) =
              check_txns-AreMasked place_holder_ctx _ 0 block.txns blk_ctx.txn_ctx p checks in
            go p p.missing_deps (subst (AreMasked block.txns) (sym grown) masked) same runs2))
    where
      shown :
          (p : Progress) (q : Progress)
          → AreMasked block.txns p.txns
          → p.state.pending_blks ≡ s.pending_blks
          → (k : ℕ) → (voted : List Txn)
          → AreVoted p.state.pending_blks p.txns proposer blk_id k voted
          → AreMasked voted q.txns
          → (voted' : List Txn) × AreVoted s.pending_blks block.txns proposer blk_id k voted'
            × AreMasked voted' q.txns
      shown p q masked same zero voted is further = (
        block.txns,
        refl,
        AreMasked-trans block.txns voted q.txns (subst (AreMasked block.txns) (sym is) masked)
            further,
      )
      shown p q masked same (suc k) voted (blk, found, is) further = (
        voted,
        (blk, subst (λ (m : PendingBlks). get (proposer, (blk_id, 0)) m ≡ some blk) same found, is),
        further,
      )

      go :
          (p : Progress) (missing : List Hash)
          → AreMasked block.txns p.txns
          → p.state.pending_blks ≡ s.pending_blks
          → elim missing [
            | h ∷ hs ↦
                let (s', peer_req) = request place_holder_ctx p proposer blk_id depth in
                ok (s', ([], some peer_req))
            | [] ↦ recheck_blks place_holder_ctx depth proposer blk_id p >>= (λ q. elim q.1 [
              | none ↦ ok (q.0.state, ([], none))
              | some curr_depth ↦
                  let (s', emitted) = emit place_holder_ctx q.0 proposer blk_id depth curr_depth in
                  ok (s', (emitted ∷ [], none))
            ])
          ]
            ≡ ok r
          → Shows s.pending_blks block.txns proposer blk_id depth r.1.0
      go p (h ∷ hs) masked same e =
          subst
            (λ (a : State × (List (Block × BlkCtx) × Option PeerReq)).
              Shows s.pending_blks block.txns proposer blk_id depth a.1.0)
            (ok-injective e) tt
      go p [] masked same e =
          >>=-elim (recheck_blks place_holder_ctx depth proposer blk_id p) _ e (λ q rechecks last.
            elim (Option-cases q.1) [
              | inl unexpected ↦
                  subst
                    (λ (a : State × (List (Block × BlkCtx) × Option PeerReq)).
                      Shows s.pending_blks block.txns proposer blk_id depth a.1.0)
                    (ok-injective (rw unexpected at last)) tt
              | inr (d, ends) ↦
                  let (voted, is_voted, further) =
                    recheck_blks-AreMasked depth proposer blk_id p q d rechecks ends in
                  subst
                    (λ (a : State × (List (Block × BlkCtx) × Option PeerReq)).
                      Shows s.pending_blks block.txns proposer blk_id depth a.1.0)
                    (ok-injective (rw ends at last))
                    (shown p q.0 masked same depth voted is_voted further)
            ])
