-- ===== src/Decide/Avalanche/Exclusive.antt =====
-- What the conflict sets are for: of the transactions that spend an output one at most is preferred.
use cbox.Base.{
  List, [], ◌∷◌, some, Bool, true, false, ◌&&◌, ok, unwrap, >>=-eq-ok, ok-injective, ◌==◌, nat_eq,
  list_eq, pair_eq, eq→path, ◌≡◌, sym, ap, ◌∙◌, subst, Bool-cases, inl, inr, arith, some_unique,
  unwrap-eq-ok,
}
use cbox.Base.HashMap.{HashMap, get}
use cbox.Base.HashSet.{contains}
use cbox.Protocol.{Hash, Txn, TxnCtx, AvalancheTxn, as_avalanche}
use cbox.Decide.Avalanche.{State, ConflictSet, Utxo, utxos}
use cbox.Decide.Avalanche.Preference.{all_preferred, prefers, is_preferred}

unfoldable pub spends_utxo : AvalancheTxn → Utxo → Bool
spends_utxo (AvalancheTxn.send sender in_utxo _ _ _ _) u = contains u (utxos sender in_utxo)
spends_utxo (AvalancheTxn.grant _ _ _) u = false
spends_utxo (AvalancheTxn.noop _) u = false
spends_utxo AvalancheTxn.place_holder u = false

module _ {C : Type 0} where
  -- A recorded transaction spends this output.
  pub data Spends (s : State C) (h : Hash) (u : Utxo) : Type 0 where
    spends :
        {txn : Txn} {ctx : TxnCtx} {avax_txn : AvalancheTxn}
        → get h s.txn_pool ≡ some (txn, ctx)
        → as_avalanche txn ≡ some avax_txn
        → spends_utxo avax_txn u ≡ true
        → Spends s h u

  all_preferred-pref :
      (sets : HashMap Utxo (ConflictSet C)) (h : Hash) (us : List Utxo) (u : Utxo)
      → all_preferred sets h us ≡ ok true
      → contains u us ≡ true
      → (ct : ConflictSet C) × (get u sets ≡ some ct) × (ct.pref ≡ h)
  unfolding all_preferred contains
  all_preferred-pref sets h [] u runs mem = cc
  all_preferred-pref sets h (v ∷ us) u runs mem =
      let (ct, found, runs') = >>=-eq-ok (unwrap (get v sets)) _ runs in
      let (rest, rest_eq, last) = >>=-eq-ok (all_preferred sets h us) _ runs' in
      let both : ((ct.pref == h) && rest) ≡ true = ok-injective last in
      elim (Bool-cases (v == u)) [
        | inl same ↦ (
          ct,
          subst (λ w. get w sets ≡ some ct) (eq→path v u same) (unwrap-eq-ok (get v sets) found),
          ground (arith, eq→path ct.pref h, both),
        )
        | inr other ↦
            all_preferred-pref sets h us u (rest_eq ∙ ap ok (ground (arith, both)))
              (ground (arith, mem, other))
      ]

  is_preferred-pref :
      (s : State C) (h : Hash) (u : Utxo)
      → Spends s h u
      → is_preferred s h ≡ ok true
      → (ct : ConflictSet C) × (get u s.conflict_sets ≡ some ct) × (ct.pref ≡ h)
  unfolding is_preferred prefers spends_utxo
  is_preferred-pref s h u (spends {txn} {ctx} {avax_txn} known is_avax mem) runs =
      go avax_txn mem (rw (known, is_avax) at runs)
    where
      go :
          (avax : AvalancheTxn)
          → spends_utxo avax u ≡ true
          → prefers s h avax ≡ ok true
          → (ct : ConflictSet C) × (get u s.conflict_sets ≡ some ct) × (ct.pref ≡ h)
      go (AvalancheTxn.send sender in_utxo _ _ _ _) m r =
          all_preferred-pref s.conflict_sets h (utxos sender in_utxo) u r m
      go (AvalancheTxn.grant _ _ _) m r = cc
      go (AvalancheTxn.noop _) m r = cc
      go AvalancheTxn.place_holder m r = cc

  -- Two recorded transactions that spend one output and are both preferred are the same transaction.
  pub is_preferred_unique :
      (s : State C) (h j : Hash) (u : Utxo)
      → Spends s h u
      → Spends s j u
      → is_preferred s h ≡ ok true
      → is_preferred s j ≡ ok true
      → h ≡ j
  is_preferred_unique s h j u spends_h spends_j h_preferred j_preferred =
      let (ct, found, pref) = is_preferred-pref s h u spends_h h_preferred in
      let (ct', found', pref') = is_preferred-pref s j u spends_j j_preferred in
      sym pref ∙ ap (λ c. c.pref) (some_unique found found') ∙ pref'
