-- ===== src/Decide/Avalanche/Frames.antt =====
-- What the operations beside the walk leave alone: a failed vote changes conflict sets only, and the
-- question whether a transaction is strongly preferred the cache only.
use cbox.Base.{
  ℕ, zero, suc, List, [], ◌∷◌, ◌++◌, Bool, false, Outcome, ok, unwrap, ◌>>=◌, >>=-elim,
  ok-injective, ◌≡◌, sym, ap, ◌∙◌, Bool-cases, Option-cases, inl, inr, nat_eq,
}
use cbox.Base.HashMap.{HashMap, get}
use cbox.Base.HashMap
use cbox.Base.HashSet.{HashSet, contains}
use cbox.Base.HashSet
use cbox.Protocol.{Hash, AvalancheTxn, as_avalanche}
use cbox.Decide.Avalanche.{State, ConflictSet, DagNode, Utxo, Rule, utxos}
use cbox.Decide.Avalanche.Preference.{is_preferred, check_parents, compute, is_strongly_preferred}
use cbox.Decide.Avalanche.Votes.{reset_inputs, reset_txn, reset_ancestors, vote_failed}

module _ {C : Type 0} where
  abbrev pub ResetOnly : State C → State C → Type 0
  ResetOnly s s' = (sets : HashMap Utxo (ConflictSet C)) × (s' ≡ record s { conflict_sets = sets })

  abbrev pub CacheOnly : State C → State C → Type 0
  CacheOnly s s' = (cache : HashMap Hash Bool) × (s' ≡ record s { preference_cache = cache })

  ResetOnly-trans : (s s' s'' : State C) → ResetOnly s s' → ResetOnly s' s'' → ResetOnly s s''
  ResetOnly-trans s s' s'' (_, e) (sets, f) =
      let put : State C → State C = λ t. record t { conflict_sets = sets } in (sets, f ∙ ap put e)

  CacheOnly-trans : (s s' s'' : State C) → CacheOnly s s' → CacheOnly s' s'' → CacheOnly s s''
  CacheOnly-trans s s' s'' (_, e) (cache, f) =
      let put : State C → State C = λ t. record t { preference_cache = cache } in
      (cache, f ∙ ap put e)

  reset_txn-ResetOnly :
      (reset : C → C) (s : State C) (h : Hash) (s' : State C)
      → reset_txn reset s h ≡ ok s'
      → ResetOnly s s'
  unfolding reset_txn
  reset_txn-ResetOnly reset s h s' runs =
      >>=-elim (unwrap (get h s.txn_pool)) _ runs (λ entry _ runs1.
        >>=-elim (unwrap (as_avalanche entry.0)) _ runs1 (λ avax_txn _ last. go avax_txn last))
    where
      go :
          (avax_txn : AvalancheTxn)
          → elim avax_txn [
            | AvalancheTxn.send sender in_utxo _ _ _ _ ↦
                reset_inputs reset s.conflict_sets (utxos sender in_utxo)
                >>= (λ sets. ok (record s { conflict_sets = sets }))
            | AvalancheTxn.grant _ _ _ ↦ ok s
            | AvalancheTxn.noop _ ↦ ok s
            | AvalancheTxn.place_holder ↦ ok s
          ]
            ≡ ok s'
          → ResetOnly s s'
      go (AvalancheTxn.send sender in_utxo _ _ _ _) last =
          >>=-elim (reset_inputs reset s.conflict_sets (utxos sender in_utxo)) _ last
            (λ sets _ e. (sets, sym (ok-injective e)))
      go (AvalancheTxn.grant _ _ _) last = (s.conflict_sets, sym (ok-injective last))
      go (AvalancheTxn.noop _) last = (s.conflict_sets, sym (ok-injective last))
      go AvalancheTxn.place_holder last = (s.conflict_sets, sym (ok-injective last))

  reset_ancestors-ResetOnly :
      (fuel : ℕ) (reset : C → C) (s : State C) (frontier : List Hash) (dedup : HashSet Hash)
      (s' : State C)
      → reset_ancestors fuel reset s frontier dedup ≡ ok s'
      → ResetOnly s s'
  unfolding reset_ancestors
  reset_ancestors-ResetOnly zero reset s frontier dedup s' runs = cc
  reset_ancestors-ResetOnly (suc fuel) reset s [] dedup s' runs =
      (s.conflict_sets, sym (ok-injective runs))
  reset_ancestors-ResetOnly (suc fuel) reset s (h ∷ rest) dedup s' runs =
      elim (Bool-cases (contains h dedup)) [
        | inl seen ↦
            reset_ancestors-ResetOnly fuel reset s rest dedup s'
              (rw (seen, reset_ancestors) at runs)
        | inr fresh ↦
            let runs1 = rw (fresh, reset_ancestors) at runs in
            elim (Option-cases (get h s.txn_dag)) [
              | inl gone ↦
                  reset_ancestors-ResetOnly fuel reset s rest (HashSet.insert h dedup) s'
                    (rw (gone, reset_ancestors) at runs1)
              | inr (node, found) ↦
                  >>=-elim (reset_txn reset s h) _ (rw (found, reset_ancestors) at runs1)
                    (λ s1 resets runs2.
                      ResetOnly-trans s s1 s' (reset_txn-ResetOnly reset s h s1 resets) (
                        reset_ancestors-ResetOnly fuel reset s1 (rest ++ node.parents)
                          (HashSet.insert h dedup) s' runs2))
            ]
      ]

  pub vote_failed-ResetOnly :
      (rule : Rule C) (bfs : ℕ) (s : State C) (h : Hash) (s' : State C)
      → vote_failed rule bfs s h ≡ ok s'
      → ResetOnly s s'
  unfolding vote_failed
  vote_failed-ResetOnly rule bfs s h s' runs = elim (Option-cases rule.reset) [
    | inl never ↦ (s.conflict_sets, sym (ok-injective (rw (never, vote_failed) at runs)))
    | inr (reset, resets) ↦
        reset_ancestors-ResetOnly bfs reset s (h ∷ []) [] s' (rw (resets, vote_failed) at runs)
  ]

  check_parents-CacheOnly :
      (inner : State C → Hash → Outcome (State C × Bool))
      → ((s : State C) (h : Hash) (r : State C × Bool) → inner s h ≡ ok r → CacheOnly s r.0)
      → (s : State C) (ps : List Hash) (r : State C × Bool) → check_parents inner s ps ≡ ok r
      → CacheOnly s r.0
  unfolding check_parents
  check_parents-CacheOnly inner each s [] r runs =
      (s.preference_cache, ap (λ p. p.0) (sym (ok-injective runs)))
  check_parents-CacheOnly inner each s (p ∷ ps) r runs =
      >>=-elim (inner s p) _ runs (λ r1 first runs1. elim (Bool-cases r1.1) [
        | inl strongly ↦
            CacheOnly-trans s r1.0 r.0 (each s p r1 first)
              (check_parents-CacheOnly inner each r1.0 ps r (rw strongly at runs1))
        | inr not_strongly ↦
            CacheOnly-trans s r1.0 r.0 (each s p r1 first)
              (r1.0.preference_cache, ap (λ q. q.0) (sym (ok-injective (rw not_strongly at runs1))))
      ])

  compute-CacheOnly :
      (inner : State C → Hash → Outcome (State C × Bool))
      → ((s : State C) (h : Hash) (r : State C × Bool) → inner s h ≡ ok r → CacheOnly s r.0)
      → (s : State C) (h : Hash) (node : DagNode) (r : State C × Bool)
      → compute inner s h node ≡ ok r
      → CacheOnly s r.0
  unfolding compute
  compute-CacheOnly inner each s h node r runs =
      >>=-elim (is_preferred s h) _ runs (λ preferred _ runs1. elim (Bool-cases preferred) [
        | inl is_yes ↦
            >>=-elim (check_parents inner s node.parents) _ (rw is_yes at runs1) (λ r1 checks last.
              CacheOnly-trans s r1.0 r.0
                (check_parents-CacheOnly inner each s node.parents r1 checks)
                (
                  HashMap.insert h r1.1 r1.0.preference_cache,
                  ap (λ q. q.0) (sym (ok-injective last)),
                ))
        | inr is_no ↦ (
          HashMap.insert h false s.preference_cache,
          ap (λ q. q.0) (sym (ok-injective (rw is_no at runs1))),
        )
      ])

  pub is_strongly_preferred-CacheOnly :
      (fuel : ℕ) (s : State C) (h : Hash) (r : State C × Bool)
      → is_strongly_preferred fuel s h ≡ ok r
      → CacheOnly s r.0
  unfolding is_strongly_preferred
  is_strongly_preferred-CacheOnly zero s h r runs = cc
  is_strongly_preferred-CacheOnly (suc fuel) s h r runs = elim (Option-cases (get h s.txn_dag)) [
    | inl gone ↦ unchanged (rw (gone, is_strongly_preferred) at runs)
    | inr (node, found) ↦
        let runs1 = rw (found, is_strongly_preferred) at runs in
        elim (Option-cases (get h s.preference_cache)) [
          | inl miss ↦
              compute-CacheOnly (is_strongly_preferred fuel) (is_strongly_preferred-CacheOnly fuel)
                s h node r (rw (miss, is_strongly_preferred) at runs1)
          | inr (b, hit) ↦ unchanged (rw (hit, is_strongly_preferred) at runs1)
        ]
  ]
    where
      unchanged :
          {b : Bool} → ◌≡◌ {A = Outcome (State C × Bool)} (ok (s, b)) (ok r) → CacheOnly s r.0
      unchanged e = (s.preference_cache, ap (λ q. q.0) (sym (ok-injective e)))
