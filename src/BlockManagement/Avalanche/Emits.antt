-- ===== src/BlockManagement/Avalanche/Emits.antt =====
-- What `validate_block` hands on is what the decision expects of a batch.
use cbox.Base.{
  none, ℕ, zero, suc, List, [], ◌∷◌, ◌++◌, some, true, false, Outcome, ok, unwrap, ◌>>=◌, >>=-elim,
  ok-injective, nat_eq, pair_eq, length, length-append, ◌≡◌, refl, ap, subst, Option-cases, inl,
  inr, arith,
}
use cbox.Base.HashMap.{get}
use cbox.Protocol.{Hash, NodeId, Txn, TxnCtx, AvalancheTxn, as_avalanche}
use cbox.BlockManagement.Avalanche.{State, PendingBlk, PendingBlks}
use cbox.BlockManagement.Avalanche.Funds.{Checked, validate_txn}
use cbox.BlockManagement.Avalanche.Validate.{
  Progress, push_txn, admit, set_elem, check_send, check_new, check_txn, check_txns,
}

-- Every batch that waits has as many ids as transactions.
abbrev pub ArePaired : PendingBlks → Type 0
ArePaired pending =
    (k : NodeId × (ℕ × ℕ)) (blk : PendingBlk)
    → get k pending ≡ some blk
    → length blk.0 ≡ length blk.1.0

-- So has the batch that is looked at.
abbrev pub IsPaired : (State → Type 0) → Progress → Type 0
IsPaired P p = (length p.txns ≡ length p.txn_ctxs) × ArePaired p.state.pending_blks × P p.state

-- A predicate of states that holds when a new transaction is admitted.
abbrev pub IsKeptByAdmit : (State → Type 0) → Type 0
IsKeptByAdmit P =
    (p : Progress) (txn : Txn) (txn_ctx : TxnCtx) (in_utxo : List Hash)
    → get txn_ctx.id p.state.txn_pool ≡ none
    → P p.state
    → P (admit p txn txn_ctx in_utxo).state

push_txn-IsPaired :
    (P : State → Type 0) (p : Progress) (txn : Txn) (txn_ctx : TxnCtx)
    → IsPaired P p
    → IsPaired P (push_txn p txn txn_ctx)
unfolding push_txn
push_txn-IsPaired P p txn txn_ctx paired = (
  omega (arith, length-append p.txns (txn ∷ []), length-append p.txn_ctxs (txn_ctx ∷ []), paired.0),
  paired.1,
  paired.2,
)

pub length-set_elem :
    {A : Type 0} (xs : List A) (idx : ℕ) (x : A) → length (set_elem xs idx x) ≡ length xs
unfolding set_elem
length-set_elem [] idx x = refl
length-set_elem (y ∷ ys) zero x = refl
length-set_elem (y ∷ ys) (suc idx) x = ap suc (length-set_elem ys idx x)

pub admit-IsPaired :
    (P : State → Type 0)
    → IsKeptByAdmit P
    → (p : Progress) (txn : Txn) (txn_ctx : TxnCtx) (in_utxo : List Hash)
    → get txn_ctx.id p.state.txn_pool ≡ none
    → IsPaired P p
    → IsPaired P (admit p txn txn_ctx in_utxo)
unfolding admit
admit-IsPaired P admits p txn txn_ctx in_utxo fresh (same, waiting, holds) =
    (same, waiting, admits p txn txn_ctx in_utxo fresh holds)

module _ (P : State → Type 0) (admits : IsKeptByAdmit P) (place_holder_ctx : Outcome TxnCtx) where
  -- A step that comes to a value keeps it.
  abbrev pub Keeps : Progress → Outcome Progress → Type 0
  Keeps p run = IsPaired P p → (r : Progress) → run ≡ ok r → IsPaired P r

  check_send-Keeps :
      (p : Progress) (idx : ℕ) (txn : Txn) (txn_ctx : TxnCtx) (avax_txn : AvalancheTxn)
      (in_utxo : List Hash)
      → get txn_ctx.id p.state.txn_pool ≡ none
      → Keeps p (check_send place_holder_ctx p idx txn txn_ctx avax_txn in_utxo)
  unfolding check_send
  check_send-Keeps p idx txn txn_ctx avax_txn in_utxo fresh paired r runs =
      >>=-elim (validate_txn p.state.txn_pool avax_txn) _ runs (λ checked _ runs1. go checked runs1)
    where
      go :
          (checked : Checked)
          → elim checked [
            | Checked.valid b ↦ elim b [
              | true ↦ ok (push_txn (admit p txn txn_ctx in_utxo) txn txn_ctx)
              | false ↦
                  place_holder_ctx
                  >>= (λ ctx. ok (push_txn p (Txn.avalanche AvalancheTxn.place_holder) ctx))
            ]
            | Checked.missing txn_missing_deps ↦ ok (
                push_txn
                  (record p {
                    missing_deps = p.missing_deps ++ txn_missing_deps;
                    recheck_txn_idx = p.recheck_txn_idx ++ idx ∷ [];
                  })
                  txn
                  txn_ctx)
          ]
            ≡ ok r
          → IsPaired P r
      go (Checked.valid true) e = subst (IsPaired P) (ok-injective e) (
          push_txn-IsPaired P (admit p txn txn_ctx in_utxo) txn txn_ctx
            (admit-IsPaired P admits p txn txn_ctx in_utxo fresh paired))
      go (Checked.valid false) e = >>=-elim place_holder_ctx _ e (λ ctx _ last.
          subst (IsPaired P) (ok-injective last)
            (push_txn-IsPaired P p (Txn.avalanche AvalancheTxn.place_holder) ctx paired))
      go (Checked.missing deps) e =
          subst (IsPaired P) (ok-injective e) (push_txn-IsPaired P _ txn txn_ctx paired)

  check_new-Keeps :
      (p : Progress) (idx : ℕ) (txn : Txn) (txn_ctx : TxnCtx) (avax_txn : AvalancheTxn)
      → get txn_ctx.id p.state.txn_pool ≡ none
      → Keeps p (check_new place_holder_ctx p idx txn txn_ctx avax_txn)
  unfolding check_new
  check_new-Keeps p idx txn txn_ctx (AvalancheTxn.noop _) fresh paired r runs =
      subst (IsPaired P) (ok-injective runs) (push_txn-IsPaired P p txn txn_ctx paired)
  check_new-Keeps p idx txn txn_ctx AvalancheTxn.place_holder fresh paired r runs =
      subst (IsPaired P) (ok-injective runs) (push_txn-IsPaired P p txn txn_ctx paired)
  check_new-Keeps p idx txn txn_ctx (AvalancheTxn.grant _ _ _) fresh paired r runs =
      subst (IsPaired P) (ok-injective runs) (
        push_txn-IsPaired P (admit p txn txn_ctx []) txn txn_ctx
          (admit-IsPaired P admits p txn txn_ctx [] fresh paired))
  check_new-Keeps p idx txn txn_ctx (AvalancheTxn.send sender in_utxo receiver out rest sig) fresh
        paired r runs =
      check_send-Keeps p idx txn txn_ctx (AvalancheTxn.send sender in_utxo receiver out rest sig)
        in_utxo fresh paired r runs

  check_txn-Keeps :
      (p : Progress) (idx : ℕ) (txn : Txn) (txn_ctx : TxnCtx)
      → Keeps p (check_txn place_holder_ctx p idx txn txn_ctx)
  unfolding check_txn
  check_txn-Keeps p idx txn txn_ctx paired r runs =
      elim (Option-cases (get txn_ctx.id p.state.txn_pool)) [
        | inl new ↦
            >>=-elim (unwrap (as_avalanche txn)) _ (rw (new, check_txn) at runs)
              (λ avax_txn _ last. check_new-Keeps p idx txn txn_ctx avax_txn new paired r last)
        | inr (entry, known) ↦
            subst (IsPaired P) (ok-injective (rw (known, check_txn) at runs))
              (push_txn-IsPaired P _ txn entry.1 paired)
      ]

  pub check_txns-Keeps :
      (p : Progress) (idx : ℕ) (txns : List Txn) (txn_ctxs : List TxnCtx)
      → Keeps p (check_txns place_holder_ctx p idx txns txn_ctxs)
  unfolding check_txns
  check_txns-Keeps p idx [] txn_ctxs paired r runs = subst (IsPaired P) (ok-injective runs) paired
  check_txns-Keeps p idx (txn ∷ txns) [] paired r runs = cc
  check_txns-Keeps p idx (txn ∷ txns) (txn_ctx ∷ txn_ctxs) paired r runs =
      >>=-elim (check_txn place_holder_ctx p idx txn txn_ctx) _ runs (λ p1 first rest.
        check_txns-Keeps p1 (suc idx) txns txn_ctxs
          (check_txn-Keeps p idx txn txn_ctx paired p1 first) r rest)
