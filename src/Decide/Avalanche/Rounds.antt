-- ===== src/Decide/Avalanche/Rounds.antt =====
-- blizzard.rs: "total_rounds: equal to the sum of the confidence of all txns in the set", which is what
-- `ct.total_rounds - confidence_score` relies on.
use cbox.Base.{
  ℕ, ◌+◌, ◌≤◌, ◌<◌, List, [], ◌∷◌, some, Bool, true, false, ◌||◌, ok, unwrap, >>=-elim,
  ok-injective, ◌==◌, nat_eq, pair_eq, list_eq, eq→path, ◌≡◌, refl, sym, ap, ◌∙◌, subst, ◌⊎◌,
  Bool-cases, inl, inr, arith, some_unique, unwrap-eq-ok,
}
use cbox.Base.HashMap.{HashMap, get, get-insert}
use cbox.Base.HashMap
use cbox.Base.HashSet.{HashSet, contains}
use cbox.Protocol.{Hash, Txn, TxnCtx, AvalancheTxn, as_avalanche}
use cbox.Decide.Avalanche.{State, ConflictSet, DagNode, TxnPool, Utxo, utxos}
use cbox.Decide.Avalanche.Rules.{blizzard}
use cbox.Decide.Avalanche.Exclusive.{spends_utxo}
use cbox.Decide.Avalanche.Accept.{adopt, visit_inputs, tally, gain, handle_votes_helper}
use cbox.Decide.Avalanche.Walk.{adopt_lem, tally-SetsOnly, settle_lem}
use cbox.Decide.Avalanche.Visits.{
  Walk, WalkAll, seen, decided, climbed, done, next, handle_votes_helper-Walk,
}

abbrev Sets : Type 0
Sets = HashMap Utxo (ConflictSet ℕ)

-- The confidence of no transaction is above the rounds of the sets of its inputs.
abbrev pub IsCounted : TxnPool → HashMap Hash ℕ → Sets → Type 0
IsCounted pool confidence sets =
    (h : Hash) (entry : Txn × TxnCtx) (avax_txn : AvalancheTxn) (u : Utxo) (ct : ConflictSet ℕ)
    (score : ℕ)
    → get h pool ≡ some entry
    → as_avalanche entry.0 ≡ some avax_txn
    → spends_utxo avax_txn u ≡ true
    → get u sets ≡ some ct
    → get h confidence ≡ some score
    → score ≤ ct.rounds

-- A set was there, with fewer rounds if it is of one of these inputs, and else with no more.
abbrev Adds : Sets → List Utxo → Sets → Type 0
Adds sets us sets' =
    (u : Utxo) (ct' : ConflictSet ℕ)
    → get u sets' ≡ some ct'
    → (ct : ConflictSet ℕ) × (get u sets ≡ some ct)
      × (ct.rounds ≤ ct'.rounds)
      × (contains u us ≡ true → ct.rounds < ct'.rounds)

Adds-insert :
    (sets : Sets) (u : Utxo) (us : List Utxo) (ct ct1 : ConflictSet ℕ) (sets' : Sets)
    → get u sets ≡ some ct
    → ct1.rounds ≡ ct.rounds + 1
    → Adds (HashMap.insert u ct1 sets) us sets'
    → Adds sets (u ∷ us) sets'
unfolding contains
Adds-insert sets u us ct ct1 sets' found more adds v ct' found' =
    let (cv, there, le, lt) = adds v ct' found' in
    elim (Bool-cases (u == v)) [
      | inl same ↦
          let here : get v (HashMap.insert u ct1 sets) ≡ some ct1 =
            get-insert u v ct1 sets ∙ (rw same refl) in
          let e : ct1.rounds ≡ cv.rounds = ap (λ c. c.rounds) (some_unique here there) in
          (
            ct,
            subst (λ k. get k sets ≡ some ct) (eq→path u v same) found,
            omega (arith, le, e, more),
            λ _. omega (arith, le, e, more),
          )
      | inr other ↦ (
        cv,
        rw other at (sym (get-insert u v ct1 sets) ∙ there),
        le,
        λ mem. lt (ground (arith, mem, other)),
      )
    ]

visit_inputs-Adds :
    (bfs : ℕ) (s : State ℕ) (x : Hash) (score : ℕ) (us : List Utxo) (b : Bool) (count : ℕ)
    (r : State ℕ × (Bool × ℕ))
    → visit_inputs blizzard bfs s x score us b count ≡ ok r
    → Adds s.conflict_sets us r.0.conflict_sets
unfolding visit_inputs contains
visit_inputs-Adds bfs s x score [] b count r runs =
    subst (λ q. Adds s.conflict_sets [] q.0.conflict_sets) (ok-injective runs)
      (λ u ct found. (ct, found, omega arith, λ mem. cc))
visit_inputs-Adds bfs s x score (u ∷ us) b count r runs =
    >>=-elim (unwrap (get u s.conflict_sets)) _ runs (λ ct found runs1.
      >>=-elim (adopt blizzard bfs s ct x score) _ runs1 (λ p adopts runs2.
        let (cache, same, kept) = adopt_lem blizzard bfs s ct x score adopts in
        Adds-insert s.conflict_sets u us ct (record p.1 { rounds = p.1.rounds + 1 })
          r.0.conflict_sets (unwrap-eq-ok (get u s.conflict_sets) found) (rounds_kept p.1 ct kept)
          (subst
            (λ t.
              Adds (HashMap.insert u (record p.1 { rounds = p.1.rounds + 1 }) t) us
                r.0.conflict_sets)
            (ap (λ t. t.conflict_sets) same)
            (visit_inputs-Adds bfs
              (record p.0 {
                conflict_sets =
                    HashMap.insert u (record p.1 { rounds = p.1.rounds + 1 }) p.0.conflict_sets;
              })
              x score us (b || p.1.has_conflicts) (blizzard.weigh score (p.1.rounds + 1) count) r
              runs2))))
  where
    rounds_kept :
        (ct' ct : ConflictSet ℕ)
        → (ct' ≡ ct) ⊎ (ct' ≡ record ct { pref = x })
        → ct'.rounds + 1 ≡ ct.rounds + 1
    rounds_kept ct' ct (inl e) = ap (λ c. c.rounds + 1) e
    rounds_kept ct' ct (inr e) = ap (λ c. c.rounds + 1) e

-- The same for the inputs of a transaction, whatever it is.
tally-Adds :
    (bfs : ℕ) (s : State ℕ) (x : Hash) (score : ℕ) (avax_txn : AvalancheTxn)
    (r : State ℕ × (Bool × ℕ))
    → tally blizzard bfs s x score avax_txn ≡ ok r
    → (u : Utxo) (ct' : ConflictSet ℕ) → get u r.0.conflict_sets ≡ some ct'
    → (ct : ConflictSet ℕ) × (get u s.conflict_sets ≡ some ct)
      × (ct.rounds ≤ ct'.rounds)
      × (spends_utxo avax_txn u ≡ true → ct.rounds < ct'.rounds)
unfolding tally spends_utxo
tally-Adds bfs s x score (AvalancheTxn.grant _ _ _) r runs u ct' found =
    (ct', ap (λ q. get u q.0.conflict_sets) (ok-injective runs) ∙ found, omega arith, λ spent. cc)
tally-Adds bfs s x score (AvalancheTxn.noop _) r runs u ct' found =
    (ct', ap (λ q. get u q.0.conflict_sets) (ok-injective runs) ∙ found, omega arith, λ spent. cc)
tally-Adds bfs s x score (AvalancheTxn.send sender in_utxo _ _ _ _) r runs u ct' found =
    visit_inputs-Adds bfs s x score (utxos sender in_utxo) false 0 r runs u ct' found
tally-Adds bfs s x score AvalancheTxn.place_holder r runs u ct' found = cc

settle-IsCounted :
    (pool : TxnPool) (confidence : HashMap Hash ℕ) (sets sets' : Sets) (x score : ℕ)
    (entry : Txn × TxnCtx) (avax_txn : AvalancheTxn)
    → get x pool ≡ some entry
    → as_avalanche entry.0 ≡ some avax_txn
    → get x confidence ≡ some score
    → ((u : Utxo) (ct' : ConflictSet ℕ)
        → get u sets' ≡ some ct'
        → (ct : ConflictSet ℕ) × (get u sets ≡ some ct)
          × (ct.rounds ≤ ct'.rounds)
          × (spends_utxo avax_txn u ≡ true → ct.rounds < ct'.rounds))
    → IsCounted pool confidence sets
    → IsCounted pool (HashMap.insert x (score + 1) confidence) sets'
settle-IsCounted pool confidence sets sets' x score entry avax_txn pooled is_avax known adds counted
      h entry' avax' u ct' n pooled' is_avax' spent found scored =
    let (ct, there, le, lt) = adds u ct' found in
    elim (Bool-cases (x == h)) [
      | inl same ↦
          let e = eq→path x h same in
          let entries : entry ≡ entry' =
            some_unique (subst (λ k. get k pool ≡ some entry) e pooled) pooled' in
          let txns : avax_txn ≡ avax' =
            some_unique (subst (λ t. as_avalanche t.0 ≡ some avax_txn) entries is_avax) is_avax' in
          let here : get h (HashMap.insert x (score + 1) confidence) ≡ some (score + 1) =
            get-insert x h (score + 1) confidence ∙ (rw same refl) in
          let n_is : score + 1 ≡ n = some_unique here scored in
          let old =
            counted h entry' avax' u ct score pooled' is_avax' spent there
              (subst (λ k. get k confidence ≡ some score) e known) in
          omega (arith, n_is, old, lt (subst (λ t. spends_utxo t u ≡ true) (sym txns) spent))
      | inr other ↦
          let old =
            counted h entry' avax' u ct n pooled' is_avax' spent there
              (rw other at (sym (get-insert x h (score + 1) confidence) ∙ scored)) in
          omega (arith, old, le)
    ]

-- That of a state.
abbrev pub IsCountedState : State ℕ → Type 0
IsCountedState s = IsCounted s.txn_pool s.confidence s.conflict_sets

gain-IsCounted :
    (bfs : ℕ) (s : State ℕ) (node : DagNode) (x : Hash) (list : List Hash) (r : State ℕ × List Hash)
    → IsCountedState s
    → gain blizzard bfs s node x list ≡ ok r
    → IsCountedState r.0
unfolding gain
gain-IsCounted bfs s node x list r counted runs =
    >>=-elim (unwrap (get x s.confidence)) _ runs (λ score known runs1.
      >>=-elim (unwrap (get x s.txn_pool)) _ runs1 (λ entry pooled runs2.
        >>=-elim (unwrap (as_avalanche entry.0)) _ runs2 (λ avax_txn is_avax runs3.
          let s1 : State ℕ = record s { confidence = HashMap.insert x (score + 1) s.confidence } in
          >>=-elim (tally blizzard bfs s1 x (score + 1) avax_txn) _ runs3 (λ q tallies last.
            let only = tally-SetsOnly blizzard bfs s1 x (score + 1) avax_txn tallies in
            let (tail, dag, cache, settles, _) =
              settle_lem blizzard q.0 node x avax_txn (score + 1) q.1.0 q.1.1 list in
            let e = ap (λ p. p.0) (sym (ok-injective last) ∙ settles) in
            subst IsCountedState (sym e) (
              subst (λ t. IsCounted t.txn_pool t.confidence q.0.conflict_sets) (sym only.same)
                (settle-IsCounted s.txn_pool s.confidence s.conflict_sets q.0.conflict_sets x score
                  entry avax_txn (unwrap-eq-ok (get x s.txn_pool) pooled)
                  (unwrap-eq-ok (as_avalanche entry.0) is_avax)
                  (unwrap-eq-ok (get x s.confidence) known)
                  (tally-Adds bfs s1 x (score + 1) avax_txn q tallies) counted))))))

module _ (bfs : ℕ) where
  mutual
    Walk-IsCounted :
        {s s' : State ℕ} {x : Hash} {d d' : HashSet Hash} {list : List Hash}
        → Walk blizzard bfs s x d s' d' list
        → IsCountedState s
        → IsCountedState s'
    Walk-IsCounted (seen was_seen) counted = counted
    Walk-IsCounted (decided fresh gone) counted = counted
    Walk-IsCounted (climbed {s} {s'} {s''} {x} {d} {d'} {node} {found} {list} fresh here up gains)
          counted =
        gain-IsCounted bfs s' node x found (s'', list) (WalkAll-IsCounted up counted) gains

    WalkAll-IsCounted :
        {s s' : State ℕ} {ps : List Hash} {d d' : HashSet Hash} {list : List Hash}
        → WalkAll blizzard bfs s ps d s' d' list
        → IsCountedState s
        → IsCountedState s'
    WalkAll-IsCounted done counted = counted
    WalkAll-IsCounted (next first rest) counted =
        WalkAll-IsCounted rest (Walk-IsCounted first counted)

-- Under the rule of blizzard.rs, when no transaction has more confidence than any set of its inputs has
-- rounds, the same is true after the walk from a transaction that was voted for.
pub blizzard-IsCounted :
    (fuel bfs : ℕ) (s : State ℕ) (x : Hash) (d : HashSet Hash)
    (r : State ℕ × (HashSet Hash × List Hash))
    → IsCountedState s
    → handle_votes_helper blizzard fuel bfs s x d ≡ ok r
    → IsCountedState r.0
blizzard-IsCounted fuel bfs s x d r counted runs =
    Walk-IsCounted bfs (handle_votes_helper-Walk blizzard bfs fuel s x d r runs) counted
