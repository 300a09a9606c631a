-- ===== src/Decide/Avalanche/Strong.antt =====
-- What `is_strongly_preferred` decides: the least relation that holds of what has been decided, and of
-- what is preferred and whose parents are in the relation. The cache does not change the answer.
use cbox.Base.{
  ℕ, zero, suc, ◌<◌, List, [], ◌∷◌, none, some, Bool, true, false, Outcome, ok, ◌==◌, nat_eq,
  list_eq, pair_eq, eq→path, eq_refl, ◌≡◌, refl, sym, ap, ◌∙◌, subst, Bool-cases, Option-cases, inl,
  inr, arith, some_unique, false-true, ◌↔◌,
}
use cbox.Base.HashMap.{HashMap, get, get-insert}
use cbox.Base.HashMap
use cbox.Base.HashSet.{contains}
use cbox.Protocol.{Hash, as_avalanche}
use cbox.Decide.Avalanche.{State, DagNode}
use cbox.Decide.Avalanche.Preference.{
  is_preferred, prefers, check_parents, compute, is_strongly_preferred,
}

module _ {C : Type 0} where
  pub data Strong (s : State C) : Hash → Type 0 where
    decided : {h : Hash} → get h s.txn_dag ≡ none → Strong s h
    backed :
        {h : Hash} {node : DagNode}
        → get h s.txn_dag ≡ some node
        → is_preferred s h ≡ ok true
        → ((p : Hash) → contains p node.parents ≡ true → Strong s p)
        → Strong s h

  -- Every answer in the cache is right.
  abbrev pub IsSound : State C → HashMap Hash Bool → Type 0
  IsSound s cache = (h : Hash) (b : Bool) → get h cache ≡ some b → (b ≡ true) ↔ Strong s h

  -- Parents rank below their children, and of all that waits `is_preferred` finds what it reads.
  pub record IsRanked (s : State C) (rank : Hash → ℕ) : Type 0 where
    pub below :
        (h : Hash) (node : DagNode)
        → get h s.txn_dag ≡ some node
        → (p : Hash) → contains p node.parents ≡ true
        → rank p < rank h
    pub readable :
        (h : Hash) (node : DagNode)
        → get h s.txn_dag ≡ some node
        → (b : Bool) × (is_preferred s h ≡ ok b)

module _ {C : Type 0} (s : State C) where
  abbrev with_cache : HashMap Hash Bool → State C
  with_cache cache = record s { preference_cache = cache }

  -- The answer that is asked for, and the cache that is left.
  abbrev Answers : (HashMap Hash Bool → Outcome (State C × Bool)) → Type 0 → Type 0
  Answers run P =
      (cache : HashMap Hash Bool)
      → IsSound s cache
      → (cache' : HashMap Hash Bool) × (b : Bool) × (run cache ≡ ok (with_cache cache', b))
        × ((b ≡ true) ↔ P)
        × IsSound s cache'

  check_parents-Answers :
      (inner : State C → Hash → Outcome (State C × Bool)) (ps : List Hash)
      → ((p : Hash) → contains p ps ≡ true → Answers (λ c. inner (with_cache c) p) (Strong s p))
      → Answers
          (λ c. check_parents inner (with_cache c) ps)
          ((p : Hash) → contains p ps ≡ true → Strong s p)
  unfolding check_parents contains
  check_parents-Answers inner [] each cache sound =
      (cache, true, refl, (λ _ p mem. cc, λ _. refl), sound)
  check_parents-Answers inner (q ∷ ps) each cache sound =
      let (cache1, b, runs, iff, sound1) = each q (ground (arith, eq_refl q)) cache sound in
      elim (Bool-cases b) [
        | inl is_yes ↦
            let (cache2, b2, runs2, iff2, sound2) =
              check_parents-Answers inner ps (λ p mem. each p (ground (arith, mem))) cache1
                sound1 in
            (
              cache2,
              b2,
              rw runs (rw is_yes runs2),
              (
                λ all p mem. elim (Bool-cases (q == p)) [
                  | inl same ↦ subst (Strong s) (eq→path q p same) (iff.0 is_yes)
                  | inr other ↦ iff2.0 all p (ground (arith, mem, other))
                ],
                λ strong. iff2.1 (λ p mem. strong p (ground (arith, mem))),
              ),
              sound2,
            )
        | inr is_no ↦ (
          cache1,
          false,
          rw runs (rw is_no refl),
          (
            λ h. cc,
            λ strong. absurd (false-true is_no (iff.1 (strong q (ground (arith, eq_refl q))))),
          ),
          sound1,
        )
      ]

  -- The new entry is right, and the others were.
  IsSound-insert :
      (cache : HashMap Hash Bool) (h : Hash) (b : Bool)
      → IsSound s cache
      → (b ≡ true) ↔ Strong s h
      → IsSound s (HashMap.insert h b cache)
  IsSound-insert cache h b sound right j c found = elim (Bool-cases (h == j)) [
    | inl same ↦
        let b_eq : b ≡ c = some_unique (go same) found in
        subst (λ k. (c ≡ true) ↔ Strong s k) (eq→path h j same)
          (subst (λ d. (d ≡ true) ↔ Strong s h) b_eq right)
    | inr other ↦ sound j c (sym (skip other) ∙ found)
  ]
    where
      go : (h == j) ≡ true → get j (HashMap.insert h b cache) ≡ some b
      go same = rw (get-insert h j b cache) (rw same refl)

      skip : (h == j) ≡ false → get j (HashMap.insert h b cache) ≡ get j cache
      skip other = rw (get-insert h j b cache) (rw other refl)

  module _ (rank : Hash → ℕ) (ranked : IsRanked s rank) where
    compute-Answers :
        (inner : State C → Hash → Outcome (State C × Bool)) (h : Hash) (node : DagNode)
        → get h s.txn_dag ≡ some node
        → ((p : Hash)
            → contains p node.parents ≡ true
            → Answers (λ c. inner (with_cache c) p) (Strong s p))
        → Answers (λ c. compute inner (with_cache c) h node) (Strong s h)
    unfolding compute is_preferred prefers get as_avalanche
    compute-Answers inner h node found each cache sound =
        let (b, reads) = ranked.readable h node found in
        elim (Bool-cases b) [
          | inl is_yes ↦
              let reads' = reads ∙ ap ok is_yes in
              let (cache1, b1, runs, iff, sound1) =
                check_parents-Answers inner node.parents each cache sound in
              let right : (b1 ≡ true) ↔ Strong s h =
                (λ t. backed found reads' (iff.0 t), λ strong. iff.1 (parents_of reads' strong)) in
              (
                HashMap.insert h b1 cache1,
                b1,
                rw reads' (rw runs refl),
                right,
                IsSound-insert cache1 h b1 sound1 right,
              )
          | inr is_no ↦
              let reads' = reads ∙ ap ok is_no in
              let right : (false ≡ true) ↔ Strong s h =
                (λ t. cc, λ strong. absurd (refuse reads' strong)) in
              (
                HashMap.insert h false cache,
                false,
                rw reads' refl,
                right,
                IsSound-insert cache h false sound right,
              )
        ]
      where
        parents_of :
            is_preferred s h ≡ ok true
            → Strong s h
            → (p : Hash) → contains p node.parents ≡ true
            → Strong s p
        parents_of reads (decided gone) = cc
        parents_of reads (backed {node = other} found' _ strong) =
            subst (λ n. (p : Hash) → contains p n.parents ≡ true → Strong s p)
              (some_unique found' found) strong

        refuse : is_preferred s h ≡ ok false → Strong s h → ⊥
        refuse reads (decided gone) = cc
        refuse reads (backed _ preferred _) = cc

    strongly-Answers :
        (fuel : ℕ) (h : Hash)
        → rank h < fuel
        → Answers (λ c. is_strongly_preferred fuel (with_cache c) h) (Strong s h)
    unfolding is_strongly_preferred
    strongly-Answers zero h bound cache sound = absurd (omega arith)
    strongly-Answers (suc fuel) h bound cache sound = elim (Option-cases (get h s.txn_dag)) [
      | inl gone ↦ (
        cache,
        true,
        rw (gone, is_strongly_preferred) refl,
        (λ _. decided gone, λ _. refl),
        sound,
      )
      | inr (node, found) ↦ elim (Option-cases (get h cache)) [
        | inl miss ↦
            let (cache', b, runs, right, sound') =
              compute-Answers (is_strongly_preferred fuel) h node found
                (λ p mem. strongly-Answers fuel p (omega (arith, ranked.below h node found p mem)))
                cache sound in
            (
              cache',
              b,
              rw (found, is_strongly_preferred) (rw (miss, is_strongly_preferred) runs),
              right,
              sound',
            )
        | inr (b, hit) ↦ (
          cache,
          b,
          rw (found, is_strongly_preferred) (rw (hit, is_strongly_preferred) refl),
          sound h b hit,
          sound,
        )
      ]
    ]

-- With a right cache, parents ranked below their children, and fuel above the rank, the code gives an
-- answer, which is yes exactly for what is strongly preferred, and changes nothing but the cache, which
-- stays right.
pub is_strongly_preferred-Strong :
    {C : Type 0} (s : State C) (rank : Hash → ℕ) (fuel : ℕ) (h : Hash)
    → IsRanked s rank
    → IsSound s s.preference_cache
    → rank h < fuel
    → (cache : HashMap Hash Bool) × (b : Bool) × (is_strongly_preferred fuel s h
        ≡ ok (record s { preference_cache = cache }, b))
      × ((b ≡ true) ↔ Strong s h)
      × IsSound s cache
is_strongly_preferred-Strong s rank fuel h ranked sound bound =
    strongly-Answers s rank ranked fuel h bound s.preference_cache sound
