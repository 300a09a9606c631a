-- ===== src/BlockManagement/Avalanche/Masks.antt =====
-- What `validate_block` does to the transactions of a batch: each stays where it is, or a placeholder
-- takes its place.
use cbox.Base.{
  ℕ, zero, suc, List, [], ◌∷◌, ◌++◌, true, false, Outcome, ok, unwrap, ◌>>=◌, >>=-elim,
  ok-injective, nat_eq, pair_eq, get_elem?, ◌≡◌, refl, sym, ap, ◌∙◌, subst, Bool-cases,
  Option-cases, ◌⊎◌, inl, inr, append_assoc, append-nil,
}
use cbox.Base.HashMap.{get, contains_key}
use cbox.Protocol.{Hash, Txn, TxnCtx, AvalancheTxn, as_avalanche}
use cbox.BlockManagement.Avalanche.Funds.{Checked, validate_txn}
use cbox.BlockManagement.Avalanche.Validate.{
  Progress, push_txn, admit, is_valid, set_elem, check_send, check_new, check_txn, check_txns,
  recheck_send, recheck_new, recheck_txn, recheck_txns,
}

abbrev place_holder : Txn
place_holder = Txn.avalanche AvalancheTxn.place_holder

-- The transaction itself, or a placeholder.
abbrev pub IsMask : Txn → Txn → Type 0
IsMask txn txn' = (txn' ≡ txn) ⊎ (txn' ≡ place_holder)

-- The second batch has at each place the transaction of the first one, or a placeholder.
abbrev pub AreMasked : List Txn → List Txn → Type 0
AreMasked [] [] = Unit
AreMasked [] (txn' ∷ txns') = ⊥
AreMasked (txn ∷ txns) [] = ⊥
AreMasked (txn ∷ txns) (txn' ∷ txns') = IsMask txn txn' × AreMasked txns txns'

pub AreMasked-same : (txns : List Txn) → AreMasked txns txns
AreMasked-same [] = tt
AreMasked-same (txn ∷ txns) = (inl refl, AreMasked-same txns)

pub AreMasked-trans : (xs ys zs : List Txn) → AreMasked xs ys → AreMasked ys zs → AreMasked xs zs
AreMasked-trans [] [] [] f g = tt
AreMasked-trans [] [] (z ∷ zs) f g = g
AreMasked-trans [] (y ∷ ys) zs f g = absurd f
AreMasked-trans (x ∷ xs) [] zs f g = absurd f
AreMasked-trans (x ∷ xs) (y ∷ ys) [] f g = g
AreMasked-trans (x ∷ xs) (y ∷ ys) (z ∷ zs) f g = (
  elim g.0 [
    | inl same ↦ elim f.0 [ inl too ↦ inl (same ∙ too) | inr masked ↦ inr (same ∙ masked) ]
    | inr masked ↦ inr masked
  ],
  AreMasked-trans xs ys zs f.1 g.1,
)

set_elem-AreMasked : (xs : List Txn) (idx : ℕ) → AreMasked xs (set_elem xs idx place_holder)
unfolding set_elem
set_elem-AreMasked [] idx = tt
set_elem-AreMasked (x ∷ xs) zero = (inr refl, AreMasked-same xs)
set_elem-AreMasked (x ∷ xs) (suc idx) = (inl refl, set_elem-AreMasked xs idx)

-- A step has put this transaction, or a placeholder, at the end of the batch.
abbrev Pushes : Progress → Txn → Progress → Type 0
Pushes p txn r =
    (txn' : Txn) × (r.txns ≡ p.txns ++ txn' ∷ [])
    × IsMask txn txn'
    × (r.state.pending_blks ≡ p.state.pending_blks)

-- A step has put nothing but placeholders into the batch.
abbrev Masks : Progress → Progress → Type 0
Masks p r = AreMasked p.txns r.txns × (r.state.pending_blks ≡ p.state.pending_blks)

module _ (place_holder_ctx : Outcome TxnCtx) where
  check_send-Pushes :
      (p : Progress) (idx : ℕ) (txn : Txn) (txn_ctx : TxnCtx) (avax_txn : AvalancheTxn)
      (in_utxo : List Hash) (r : Progress)
      → check_send place_holder_ctx p idx txn txn_ctx avax_txn in_utxo ≡ ok r
      → Pushes p txn r
  unfolding check_send push_txn admit
  check_send-Pushes p idx txn txn_ctx avax_txn in_utxo r runs =
      >>=-elim (validate_txn p.state.txn_pool avax_txn) _ runs (λ checked _ runs1. go checked runs1)
    where
      go :
          (checked : Checked)
          → elim checked [
            | Checked.valid b ↦ elim b [
              | true ↦ ok (push_txn (admit p txn txn_ctx in_utxo) txn txn_ctx)
              | false ↦
                  place_holder_ctx
                  >>= (λ ctx. ok (push_txn p (Txn.avalanche AvalancheTxn.place_holder) ctx))
            ]
            | Checked.missing txn_missing_deps ↦ ok (
                push_txn
                  (record p {
                    missing_deps = p.missing_deps ++ txn_missing_deps;
                    recheck_txn_idx = p.recheck_txn_idx ++ idx ∷ [];
                  })
                  txn
                  txn_ctx)
          ]
            ≡ ok r
          → Pushes p txn r
      go (Checked.valid true) e = subst (Pushes p txn) (ok-injective e) (txn, refl, inl refl, refl)
      go (Checked.valid false) e = >>=-elim place_holder_ctx _ e (λ ctx _ last.
          subst (Pushes p txn) (ok-injective last) (place_holder, refl, inr refl, refl))
      go (Checked.missing deps) e =
          subst (Pushes p txn) (ok-injective e) (txn, refl, inl refl, refl)

  check_new-Pushes :
      (p : Progress) (idx : ℕ) (txn : Txn) (txn_ctx : TxnCtx) (avax_txn : AvalancheTxn)
      (r : Progress)
      → check_new place_holder_ctx p idx txn txn_ctx avax_txn ≡ ok r
      → Pushes p txn r
  unfolding check_new push_txn admit
  check_new-Pushes p idx txn txn_ctx (AvalancheTxn.noop _) r runs =
      subst (Pushes p txn) (ok-injective runs) (txn, refl, inl refl, refl)
  check_new-Pushes p idx txn txn_ctx AvalancheTxn.place_holder r runs =
      subst (Pushes p txn) (ok-injective runs) (txn, refl, inl refl, refl)
  check_new-Pushes p idx txn txn_ctx (AvalancheTxn.grant _ _ _) r runs =
      subst (Pushes p txn) (ok-injective runs) (txn, refl, inl refl, refl)
  check_new-Pushes p idx txn txn_ctx (AvalancheTxn.send sender in_utxo receiver out rest sig) r
        runs =
      check_send-Pushes p idx txn txn_ctx (AvalancheTxn.send sender in_utxo receiver out rest sig)
        in_utxo r runs

  check_txn-Pushes :
      (p : Progress) (idx : ℕ) (txn : Txn) (txn_ctx : TxnCtx) (r : Progress)
      → check_txn place_holder_ctx p idx txn txn_ctx ≡ ok r
      → Pushes p txn r
  unfolding check_txn push_txn
  check_txn-Pushes p idx txn txn_ctx r runs =
      elim (Option-cases (get txn_ctx.id p.state.txn_pool)) [
        | inl new ↦
            >>=-elim (unwrap (as_avalanche txn)) _ (rw (new, check_txn) at runs)
              (λ avax_txn _ last. check_new-Pushes p idx txn txn_ctx avax_txn r last)
        | inr (entry, known) ↦
            subst (Pushes p txn) (ok-injective (rw (known, check_txn) at runs))
              (txn, refl, inl refl, refl)
      ]

  pub check_txns-AreMasked :
      (p : Progress) (idx : ℕ) (txns : List Txn) (txn_ctxs : List TxnCtx) (r : Progress)
      → check_txns place_holder_ctx p idx txns txn_ctxs ≡ ok r
      → (out : List Txn) × (r.txns ≡ p.txns ++ out)
        × AreMasked txns out
        × (r.state.pending_blks ≡ p.state.pending_blks)
  unfolding check_txns
  check_txns-AreMasked p idx [] txn_ctxs r runs =
      subst
        (λ (q : Progress).
          (out : List Txn) × (q.txns ≡ p.txns ++ out)
          × AreMasked [] out
          × (q.state.pending_blks ≡ p.state.pending_blks))
        (ok-injective runs) ([], sym (append-nil p.txns), tt, refl)
  check_txns-AreMasked p idx (txn ∷ txns) [] r runs = cc
  check_txns-AreMasked p idx (txn ∷ txns) (txn_ctx ∷ txn_ctxs) r runs =
      >>=-elim (check_txn place_holder_ctx p idx txn txn_ctx) _ runs (λ p1 first rest.
        let (txn', pushed, mask, same) = check_txn-Pushes p idx txn txn_ctx p1 first in
        let (out, grown, masked, same') = check_txns-AreMasked p1 (suc idx) txns txn_ctxs r rest in
        (
          txn' ∷ out,
          grown ∙ ap (λ l. l ++ out) pushed ∙ append_assoc p.txns (txn' ∷ []) out,
          (mask, masked),
          same' ∙ same,
        ))

  recheck_send-Masks :
      (p : Progress) (idx : ℕ) (txn : Txn) (txn_ctx : TxnCtx) (avax_txn : AvalancheTxn)
      (in_utxo : List Hash) (r : Progress)
      → recheck_send place_holder_ctx p idx txn txn_ctx avax_txn in_utxo ≡ ok r
      → Masks p r
  unfolding recheck_send admit
  recheck_send-Masks p idx txn txn_ctx avax_txn in_utxo r runs =
      >>=-elim (validate_txn p.state.txn_pool avax_txn) _ runs (λ checked _ runs1.
        elim (Bool-cases (is_valid checked)) [
          | inl passed ↦
              subst (Masks p) (ok-injective (rw passed at runs1)) (AreMasked-same p.txns, refl)
          | inr failed ↦ >>=-elim place_holder_ctx _ (rw failed at runs1) (λ ctx _ last.
              subst (Masks p) (ok-injective last) (set_elem-AreMasked p.txns idx, refl))
        ])

  recheck_new-Masks :
      (p : Progress) (idx : ℕ) (txn : Txn) (txn_ctx : TxnCtx) (avax_txn : AvalancheTxn)
      (r : Progress)
      → recheck_new place_holder_ctx p idx txn txn_ctx avax_txn ≡ ok r
      → Masks p r
  unfolding recheck_new
  recheck_new-Masks p idx txn txn_ctx (AvalancheTxn.noop _) r runs =
      subst (Masks p) (ok-injective runs) (AreMasked-same p.txns, refl)
  recheck_new-Masks p idx txn txn_ctx AvalancheTxn.place_holder r runs =
      subst (Masks p) (ok-injective runs) (AreMasked-same p.txns, refl)
  recheck_new-Masks p idx txn txn_ctx (AvalancheTxn.grant _ _ _) r runs =
      subst (Masks p) (ok-injective runs) (AreMasked-same p.txns, refl)
  recheck_new-Masks p idx txn txn_ctx (AvalancheTxn.send sender in_utxo receiver out rest sig) r
        runs =
      recheck_send-Masks p idx txn txn_ctx (AvalancheTxn.send sender in_utxo receiver out rest sig)
        in_utxo r runs

  pub recheck_txns-Masks :
      (p : Progress) (idxs : List ℕ) (r : Progress)
      → recheck_txns place_holder_ctx p idxs ≡ ok r
      → Masks p r
  unfolding recheck_txns recheck_txn
  recheck_txns-Masks p [] r runs = subst (Masks p) (ok-injective runs) (AreMasked-same p.txns, refl)
  recheck_txns-Masks p (idx ∷ idxs) r runs =
      >>=-elim (recheck_txn place_holder_ctx p idx) _ runs (λ p1 first rest.
        let (masked, same) = one p1 first in
        let (masked', same') = recheck_txns-Masks p1 idxs r rest in
        (AreMasked-trans p.txns p1.txns r.txns masked masked', same' ∙ same))
    where
      one : (p1 : Progress) → recheck_txn place_holder_ctx p idx ≡ ok p1 → Masks p p1
      one p1 first = >>=-elim (unwrap (get_elem? p.txns idx)) _ first (λ txn _ runs1.
          >>=-elim (unwrap (get_elem? p.txn_ctxs idx)) _ runs1 (λ txn_ctx _ runs2.
            elim (Bool-cases (contains_key txn_ctx.id p.state.txn_pool)) [
              | inl known ↦
                  subst (Masks p) (ok-injective (rw known at runs2)) (AreMasked-same p.txns, refl)
              | inr new ↦
                  >>=-elim (unwrap (as_avalanche txn)) _ (rw new at runs2)
                    (λ avax_txn _ last. recheck_new-Masks p idx txn txn_ctx avax_txn p1 last)
            ]))
