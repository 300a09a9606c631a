-- ===== src/Decide/Avalanche/Ready.antt =====
-- What a walk needs to come to a value: what it unwraps is there, and its loops have the fuel.
use cbox.Base.{
  ℕ, zero, suc, ◌+◌, ◌<◌, List, [], ◌∷◌, ◌++◌, some, Bool, false, ◌||◌, ok, unwrap, >>=-runs, ◌==◌,
  nat_eq, pair_eq, list_eq, ltb, ◌≡◌, refl, sym, ap, ◌∙◌, subst, Bool-cases, inl, inr, arith, All,
  All-map, some_unique,
}
use cbox.Base.HashMap.{HashMap, get, get-insert, get-remove}
use cbox.Base.HashMap
use cbox.Protocol.{Hash, Txn, TxnCtx, AvalancheTxn, as_avalanche}
use cbox.Decide.Avalanche.{State, ConflictSet, TxnDag, TxnPool, Utxo, Rule, utxos}
use cbox.Decide.Avalanche.Accept.{children_of, invalidate, adopt, visit_inputs, tally}

unfoldable pub total : (Hash → ℕ) → List Hash → ℕ
total w [] = 0
total w (h ∷ hs) = w h + total w hs

total-append : (w : Hash → ℕ) (xs ys : List Hash) → total w (xs ++ ys) ≡ total w xs + total w ys
unfolding total
total-append w [] ys = omega arith
total-append w (x ∷ xs) ys = omega (arith, total-append w xs ys)

-- A transaction weighs more than its children together, and twice its weight is below the fuel.
pub record Drains (dag : TxnDag) (w : Hash → ℕ) (bfs : ℕ) : Type 0 where
  pub heavier : (h : Hash) → total w (children_of dag h) < w h
  pub lighter : (h : Hash) → w h + w h < bfs

invalidate-ok :
    (w : Hash → ℕ) (bfs : ℕ) (dag : TxnDag)
    → Drains dag w bfs
    → (fuel : ℕ) (frontier : List Hash) (cache : HashMap Hash Bool) → total w frontier < fuel
    → (cache' : HashMap Hash Bool) × (invalidate fuel dag frontier cache ≡ ok cache')
unfolding invalidate total
invalidate-ok w bfs dag drains zero frontier cache enough = absurd (omega arith)
invalidate-ok w bfs dag drains (suc fuel) [] cache enough = (cache, refl)
invalidate-ok w bfs dag drains (suc fuel) (h ∷ rest) cache enough =
    invalidate-ok w bfs dag drains fuel (rest ++ children_of dag h) (HashMap.remove h cache)
      (omega (arith, total-append w rest (children_of dag h), drains.heavier h))

abbrev pub Scored : HashMap Hash ℕ → Hash → Type 0
Scored confidence h = (score : ℕ) × (get h confidence ≡ some score)

module _ {C : Type 0} where
  abbrev HasSet : HashMap Utxo (ConflictSet C) → Utxo → Type 0
  HasSet sets u = (ct : ConflictSet C) × (get u sets ≡ some ct)

  -- A transaction of the dag is no placeholder, and each of its inputs has its set.
  abbrev pub IsCovered : HashMap Utxo (ConflictSet C) → AvalancheTxn → Type 0
  IsCovered sets (AvalancheTxn.send sender in_utxo _ _ _ _) =
      All (HasSet sets) (utxos sender in_utxo)
  IsCovered sets (AvalancheTxn.grant _ _ _) = Unit
  IsCovered sets (AvalancheTxn.noop _) = Unit
  IsCovered sets AvalancheTxn.place_holder = ⊥

  abbrev pub IsRecorded : TxnPool → HashMap Utxo (ConflictSet C) → Hash → Type 0
  IsRecorded pool sets h =
      (entry : Txn × TxnCtx) × (avax_txn : AvalancheTxn) × (get h pool ≡ some entry)
      × (as_avalanche entry.0 ≡ some avax_txn)
      × IsCovered sets avax_txn

  abbrev pub ArePrefsScored : HashMap Utxo (ConflictSet C) → HashMap Hash ℕ → Type 0
  ArePrefsScored sets confidence =
      (u : Utxo) (ct : ConflictSet C) → get u sets ≡ some ct → Scored confidence ct.pref

  abbrev pub Grows : HashMap Utxo (ConflictSet C) → HashMap Utxo (ConflictSet C) → Type 0
  Grows sets sets' = (u : Utxo) → HasSet sets u → HasSet sets' u

  pub IsCovered-Grows :
      (sets sets' : HashMap Utxo (ConflictSet C)) (avax_txn : AvalancheTxn)
      → Grows sets sets'
      → IsCovered sets avax_txn
      → IsCovered sets' avax_txn
  IsCovered-Grows sets sets' (AvalancheTxn.send sender in_utxo _ _ _ _) grows covered =
      All-map (HasSet sets) (HasSet sets') (utxos sender in_utxo) grows covered
  IsCovered-Grows sets sets' (AvalancheTxn.grant _ _ _) grows covered = tt
  IsCovered-Grows sets sets' (AvalancheTxn.noop _) grows covered = tt
  IsCovered-Grows sets sets' AvalancheTxn.place_holder grows covered = covered

  Grows-insert :
      (sets : HashMap Utxo (ConflictSet C)) (u : Utxo) (ct : ConflictSet C)
      → Grows sets (HashMap.insert u ct sets)
  Grows-insert sets u ct v (cv, found) = elim (Bool-cases (u == v)) [
    | inl same ↦ (ct, get-insert u v ct sets ∙ (rw same refl))
    | inr other ↦ (cv, get-insert u v ct sets ∙ (rw other found))
  ]

  ArePrefsScored-insert :
      (sets : HashMap Utxo (ConflictSet C)) (confidence : HashMap Hash ℕ) (u : Utxo)
      (ct : ConflictSet C)
      → ArePrefsScored sets confidence
      → Scored confidence ct.pref
      → ArePrefsScored (HashMap.insert u ct sets) confidence
  ArePrefsScored-insert sets confidence u ct prefs scored v cv found = elim (Bool-cases (u == v)) [
    | inl same ↦
        let here : get v (HashMap.insert u ct sets) ≡ some ct =
          get-insert u v ct sets ∙ (rw same refl) in
        subst (λ c. Scored confidence c.pref) {x = ct} (some_unique here found) scored
    | inr other ↦ prefs v cv (rw other at (sym (get-insert u v ct sets) ∙ found))
  ]

module _ {C : Type 0} (rule : Rule C) (w : Hash → ℕ) (bfs : ℕ) (s : State C)
    (drains : Drains s.txn_dag w bfs) (x : Hash) where
  -- The state with other sets and another cache.
  abbrev put : HashMap Utxo (ConflictSet C) → HashMap Hash Bool → State C
  put sets cache = record s { conflict_sets = sets; preference_cache = cache }

  adopt-ok :
      (sets : HashMap Utxo (ConflictSet C)) (cache : HashMap Hash Bool) (ct : ConflictSet C)
      (score : ℕ)
      → Scored s.confidence ct.pref
      → Scored s.confidence x
      → (cache' : HashMap Hash Bool) × (ct' : ConflictSet C) × (adopt rule bfs
            (put sets cache)
            ct
            x
            score
          ≡ ok (put sets cache', ct'))
        × Scored s.confidence ct'.pref
  unfolding adopt total
  adopt-ok sets cache ct score (pref_score, pref_known) known = elim (Bool-cases (ct.pref == x)) [
    | inl same ↦ (cache, ct, rw (same, adopt) refl, (pref_score, pref_known))
    | inr other ↦ elim (Bool-cases (ltb pref_score score)) [
      | inl less ↦
          let (cache', runs) =
            invalidate-ok w bfs s.txn_dag drains bfs (x ∷ x ∷ []) cache
              (omega (arith, drains.lighter x)) in
          (
            cache',
            record ct { pref = x },
            rw (other, adopt)
                (>>=-runs _ pref_score (ap unwrap pref_known)
                  (rw less (>>=-runs _ cache' runs refl))),
            known,
          )
      | inr not_less ↦ (
        cache,
        ct,
        rw (other, adopt) (>>=-runs _ pref_score (ap unwrap pref_known) (rw not_less refl)),
        (pref_score, pref_known),
      )
    ]
  ]

  visit_inputs-ok :
      (us : List Utxo) (sets : HashMap Utxo (ConflictSet C)) (cache : HashMap Hash Bool) (score : ℕ)
      (b : Bool) (count : ℕ)
      → All (HasSet sets) us
      → ArePrefsScored sets s.confidence
      → Scored s.confidence x
      → (sets' : HashMap Utxo (ConflictSet C)) × (cache' : HashMap Hash Bool) × (r : Bool × ℕ)
        × (visit_inputs rule bfs (put sets cache) x score us b count ≡ ok (put sets' cache', r))
        × Grows sets sets'
        × ArePrefsScored sets' s.confidence
  unfolding visit_inputs
  visit_inputs-ok [] sets cache score b count all prefs known =
      (sets, cache, (b, count), refl, (λ u has. has), prefs)
  visit_inputs-ok (u ∷ us) sets cache score b count all prefs known =
      let (ct, found) = all.0 in
      let (cache1, ct1, adopts, scored) = adopt-ok sets cache ct score (prefs u ct found) known in
      let ct2 = record ct1 { rounds = rule.visit x ct1.rounds } in
      let grows1 = Grows-insert sets u ct2 in
      let (sets', cache', r, runs, grows, prefs') =
        visit_inputs-ok us (HashMap.insert u ct2 sets) cache1 score (b || ct1.has_conflicts)
          (rule.weigh score ct2.rounds count)
          (All-map (HasSet sets) (HasSet (HashMap.insert u ct2 sets)) us grows1 all.1)
          (ArePrefsScored-insert sets s.confidence u ct2 prefs scored) known in
      (sets', cache', r, rw found (rw adopts runs), (λ v has. grows v (grows1 v has)), prefs')

  pub tally-ok :
      (avax_txn : AvalancheTxn) (score : ℕ)
      → IsCovered s.conflict_sets avax_txn
      → ArePrefsScored s.conflict_sets s.confidence
      → Scored s.confidence x
      → (sets : HashMap Utxo (ConflictSet C)) × (cache : HashMap Hash Bool) × (r : Bool × ℕ)
        × (tally rule bfs s x score avax_txn ≡ ok (put sets cache, r))
        × Grows s.conflict_sets sets
        × ArePrefsScored sets s.confidence
  unfolding tally
  tally-ok (AvalancheTxn.grant _ _ _) score covered prefs known =
      (s.conflict_sets, s.preference_cache, (false, rule.begin score), refl, (λ u has. has), prefs)
  tally-ok (AvalancheTxn.noop _) score covered prefs known =
      (s.conflict_sets, s.preference_cache, (false, rule.begin score), refl, (λ u has. has), prefs)
  tally-ok (AvalancheTxn.send sender in_utxo _ _ _ _) score covered prefs known =
      visit_inputs-ok (utxos sender in_utxo) s.conflict_sets s.preference_cache score false
        (rule.begin score) covered prefs known
  tally-ok AvalancheTxn.place_holder score covered prefs known = absurd covered
