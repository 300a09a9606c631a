-- ===== src/Decide/Avalanche/Counts.antt =====
-- The votes that are counted: of no transaction more are for it than there are in all.
use cbox.Base.{
  ℕ, suc, ◌≤◌, List, [], ◌∷◌, Option, none, some, Bool, true, false, ok, unwrap, assert, >>=-elim,
  ok-injective, ◌==◌, nat_eq, eq→path, if◌then◌else◌, leb, length, ◌≡◌, refl, sym, ◌∙◌, subst,
  Bool-cases, Option-cases, inl, inr, arith, All, some_unique,
}
use cbox.Base.HashMap.{HashMap, get, get-insert, get-remove}
use cbox.Base.HashMap
use cbox.Base.HashSet.{contains}
use cbox.Base.HashSet
use cbox.TimeQueue
use cbox.Decide.Avalanche.{State, Rule}
use cbox.Decide.Avalanche.Votes.{
  Output, zeros, add_votes, votes_of, judge_txns, handle_votes, record_votes,
}
use cbox.Decide.Avalanche.Once.{judge_txns-Commits}

abbrev AreBelow : ℕ × List ℕ → Type 0
AreBelow (received, accepts) = All (λ n. n ≤ received) accepts

-- For every block that is being voted on.
abbrev pub AreCounted : HashMap ℕ (ℕ × List ℕ) → Type 0
AreCounted votes =
    (blk_id : ℕ) (entry : ℕ × List ℕ) → get blk_id votes ≡ some entry → AreBelow entry

zeros-AreBelow : (vs : List Bool) → AreBelow (0, zeros vs)
unfolding zeros
zeros-AreBelow [] = tt
zeros-AreBelow (v ∷ vs) = (omega arith, zeros-AreBelow vs)

add_votes-AreBelow :
    (vs : List Bool) (received : ℕ) (accepts : List ℕ)
    → AreBelow (received, accepts)
    → length accepts ≡ length vs
    → AreBelow (suc received, add_votes vs accepts)
unfolding add_votes
add_votes-AreBelow [] received [] below same = tt
add_votes-AreBelow [] received (n ∷ ns) below same = absurd (omega (arith, same))
add_votes-AreBelow (v ∷ vs) received [] below same = tt
add_votes-AreBelow (v ∷ vs) received (n ∷ ns) below same =
    (vote v, add_votes-AreBelow vs received ns below.1 (omega (arith, same)))
  where
    vote : (b : Bool) → (if b then suc n else n) ≤ suc received
    vote true = omega (arith, below.0)
    vote false = omega (arith, below.0)

insert-AreCounted :
    (votes : HashMap ℕ (ℕ × List ℕ)) (blk_id : ℕ) (entry : ℕ × List ℕ)
    → AreCounted votes
    → AreBelow entry
    → AreCounted (HashMap.insert blk_id entry votes)
insert-AreCounted votes blk_id entry counted below j found_entry found =
    elim (Bool-cases (blk_id == j)) [
      | inl same ↦
          let here : get j (HashMap.insert blk_id entry votes) ≡ some entry =
            get-insert blk_id j entry votes ∙ (rw same refl) in
          subst AreBelow (some_unique here found) below
      | inr other ↦
          counted j found_entry (rw other at (sym (get-insert blk_id j entry votes) ∙ found))
    ]

remove-AreCounted :
    (votes : HashMap ℕ (ℕ × List ℕ)) (blk_id : ℕ)
    → AreCounted votes
    → AreCounted (HashMap.remove blk_id votes)
remove-AreCounted votes blk_id counted j entry found = elim (Bool-cases (blk_id == j)) [
  | inl same ↦ cc (rw same at (sym (get-remove blk_id j votes) ∙ found))
  | inr other ↦ counted j entry (rw other at (sym (get-remove blk_id j votes) ∙ found))
]

module _ {C : Type 0} (rule : Rule C) where
  handle_votes-AreCounted :
      (fuel bfs : ℕ) (s : State C) (blk_id : ℕ) (r : State C × List Output)
      → AreCounted s.votes
      → handle_votes rule fuel bfs s blk_id ≡ ok r
      → AreCounted r.0.votes
  unfolding handle_votes
  handle_votes-AreCounted fuel bfs s blk_id r counted runs =
      elim (Option-cases (get blk_id s.query_pool)) [
        | inl unknown ↦
            subst (λ q. AreCounted q.0.votes) (ok-injective (rw (unknown, handle_votes) at runs))
              counted
        | inr (txns, asked) ↦
            >>=-elim (unwrap (get blk_id s.votes)) _ (rw (asked, handle_votes) at runs)
              (λ counts _ runs1.
                >>=-elim (assert (length txns == length counts.1)) _ runs1 (λ _ _ runs2.
                  >>=-elim (judge_txns rule fuel bfs s1 txns counts.1) _ runs2 (λ r1 judges last.
                    subst (λ q. AreCounted q.0.votes) (ok-injective last)
                      (subst AreCounted
                        (sym
                          (judge_txns-Commits rule fuel bfs s1 txns counts.1 r1 judges).same_votes)
                        (remove-AreCounted s.votes blk_id counted)))))
      ]
    where
      s1 : State C
      s1 = record s {
        query_pool = HashMap.remove blk_id s.query_pool;
        votes = HashMap.remove blk_id s.votes;
        finished_query = HashSet.insert blk_id s.finished_query;
        vote_time_queue = (TimeQueue.remove blk_id s.vote_time_queue).0;
      }

  -- When no transaction had more accepting votes than its block had votes, the same is true after
  -- further votes are recorded, and after they are acted on.
  pub record_votes-AreCounted :
      (fuel bfs : ℕ) (s : State C) (blk_id : ℕ) (votes : List Bool) (r : State C × List Output)
      → AreCounted s.votes
      → record_votes rule fuel bfs s blk_id votes ≡ ok r
      → AreCounted r.0.votes
  unfolding record_votes votes_of
  record_votes-AreCounted fuel bfs s blk_id votes r counted runs =
      elim (Bool-cases (contains blk_id s.finished_query)) [
        | inl finished ↦
            subst (λ q. AreCounted q.0.votes) (ok-injective (rw (finished, record_votes) at runs))
              counted
        | inr open_query ↦
            >>=-elim (assert (length (votes_of rule s blk_id votes).1 == length votes)) _
              (rw (open_query, record_votes) at runs)
              (λ _ same runs1.
                go (votes_of rule s blk_id votes) (entry_below (get blk_id s.votes) refl)
                  (assert-path _ same) runs1)
      ]
    where
      assert-path : (b : Bool) {u : Unit {0}} → assert b ≡ ok u → b ≡ true
      assert-path true e = refl
      assert-path false e = cc

      entry_below :
          (o : Option (ℕ × List ℕ))
          → get blk_id s.votes ≡ o
          → AreBelow (elim o [ none ↦ (0, zeros votes) | some entry ↦ entry ])
      entry_below none e = zeros-AreBelow votes
      entry_below (some entry) e = counted blk_id entry e

      go :
          (entry : ℕ × List ℕ)
          → AreBelow entry
          → (length entry.1 == length votes) ≡ true
          → elim (leb s.k (suc entry.0)) [
            | true ↦
                handle_votes rule fuel bfs
                  (record s {
                    votes = HashMap.insert blk_id (suc entry.0, add_votes votes entry.1) s.votes;
                  })
                  blk_id
            | false ↦ ok (
              record s {
                votes = HashMap.insert blk_id (suc entry.0, add_votes votes entry.1) s.votes;
              },
              [],
            )
          ]
            ≡ ok r
          → AreCounted r.0.votes
      go entry below same last =
          let counted' =
            insert-AreCounted s.votes blk_id (suc entry.0, add_votes votes entry.1) counted
              (add_votes-AreBelow votes entry.0 entry.1 below
                (eq→path (length entry.1) (length votes) same)) in
          elim (Bool-cases (leb s.k (suc entry.0))) [
            | inl enough ↦ handle_votes-AreCounted fuel bfs _ blk_id r counted' (rw enough at last)
            | inr waits ↦
                subst (λ q. AreCounted q.0.votes) (ok-injective (rw waits at last)) counted'
          ]
