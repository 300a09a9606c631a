-- ===== src/Examples/Conflicts.antt =====
-- The theorems on the Avalanche decision at concrete inputs.
use cbox.Base.{
  ℕ, ◌<◌, List, [], ◌∷◌, ◌++◌, Option, none, some, Bool, true, false, Outcome, ok, ◌≡◌, refl, sym,
  ◌↔◌, subst, arith, Bool-cases, inl, inr, ◌==◌, nat_eq, list_eq, pair_eq, eq→path, length,
  some_unique,
}
use cbox.Base.HashMap.{HashMap, get, contains_key}
use cbox.Base.HashMap
use cbox.Base.HashSet.{contains, IsDistinct}
use cbox.Base.HashSet
use cbox.Protocol.{Txn, Hash, Signature, AvalancheTxn, Block, BlockHeader, as_avalanche}
use cbox.Decide.Avalanche.{State, DagNode, Utxo, ConflictSet, new, utxos}
use cbox.Decide.Avalanche.Rules.{Streak, basic, blizzard, add_others}
use cbox.Decide.Avalanche.Preference.{is_preferred, prefers, all_preferred, is_strongly_preferred}
use cbox.Decide.Avalanche.Accept.{
  children_of, handle_votes_helper, are_decided, is_committed, adopt, visit_inputs, tally,
  is_accepted, settle, gain, visit_parents,
}
use cbox.Decide.Avalanche.Votes.{
  handle_votes, Output, record_votes, votes_of, zeros, add_votes, next_to_commit, lookup_all,
  commit_ready,
}
use cbox.Decide.Avalanche.VoteNo
use cbox.Decide.Avalanche.VoteNo.{query_of, new_tail-adds_nothing}
use cbox.Decide.Avalanche.Exclusive.{Spends, spends, spends_utxo, is_preferred_unique}
use cbox.Decide.Avalanche.Strong.{Strong, IsSound, IsRanked, is_strongly_preferred-Strong}
use cbox.Decide.Avalanche.Commits.{Commits}
use cbox.Decide.Avalanche.Ready.{total, Drains, IsRecorded}
use cbox.Decide.Avalanche.Returns.{IsReady, handle_votes_helper-returns}
use cbox.Decide.Avalanche.Once.{queued}
use cbox.Decide.Avalanche.History.{tail, commit, Run, start, step, Run-commits_once}
use cbox.Decide.Avalanche.Handing.{next_to_commit-returns}
use cbox.Decide.Avalanche.Counts.{AreCounted, record_votes-AreCounted}
use cbox.Decide.Avalanche.Rounds.{IsCountedState, blizzard-IsCounted}
use cbox.Examples.Votes.{sign, key, grant, first, ctx, batch, fresh, voted, batch_run, one}

-- The first transfer spends the output, and is the preferred one.
voted-Spends : Spends voted 2 (1, key)
unfolding get as_avalanche spends_utxo utxos contains
voted-Spends = spends refl refl refl

voted_preferred : is_preferred voted 2 ≡ ok true
unfolding is_preferred prefers all_preferred get as_avalanche utxos
voted_preferred = refl

is_preferred_unique_example : ◌≡◌ {A = Hash} 2 2
is_preferred_unique_example =
    is_preferred_unique voted 2 2 (1, key) voted-Spends voted-Spends voted_preferred voted_preferred

abbrev node : DagNode
node = record { parents = 1 ∷ []; children = [] }

abbrev no_rounds : Streak
no_rounds = record { last = none; count = 0 }

-- What a look into the dag of one transfer finds.
one_dag : (h : Hash) (n : DagNode) → get h (one no_rounds).txn_dag ≡ some n → (2 ≡ h) × (node ≡ n)
unfolding get
one_dag h n found = elim (Bool-cases (2 == h)) [
  | inl same ↦ (eq→path 2 h same, cc (rw same at found))
  | inr other ↦ cc (rw other at found)
]

abbrev rank : Hash → ℕ
rank h = h

one_below :
    (h : Hash) (n : DagNode)
    → get h (one no_rounds).txn_dag ≡ some n
    → (p : Hash) → contains p n.parents ≡ true
    → rank p < rank h
unfolding contains
one_below h n found p mem =
    let (two, is) = one_dag h n found in
    let in_parents : contains p (1 ∷ []) ≡ true =
      subst (λ m. contains p m.parents ≡ true) (sym is) mem in
    omega (arith, two, sym (eq→path 1 p (ground (arith, in_parents))))

one-IsRanked : IsRanked (one no_rounds) rank
unfolding is_preferred prefers all_preferred get as_avalanche utxos
one-IsRanked = record {
  below = one_below;
  readable = λ h n found.
      subst (λ k. (b : Bool) × (is_preferred (one no_rounds) k ≡ ok b)) (one_dag h n found).0
        (true, refl);
}

empty-IsSound : IsSound (one no_rounds) []
unfolding get
empty-IsSound h b found = cc

is_strongly_preferred-Strong_example :
    (cache : HashMap Hash Bool) × (b : Bool) × (is_strongly_preferred 3 (one no_rounds) 2
      ≡ ok (record (one no_rounds) { preference_cache = cache }, b))
    × ((b ≡ true) ↔ Strong (one no_rounds) 2)
    × IsSound (one no_rounds) cache
is_strongly_preferred-Strong_example =
    is_strongly_preferred-Strong (one no_rounds) rank 3 2 one-IsRanked empty-IsSound (omega arith)

one-children : (h : Hash) → children_of (one no_rounds).txn_dag h ≡ []
unfolding children_of get
one-children h = elim (Bool-cases (2 == h)) [
  | inl same ↦ rw (same, children_of, get) refl
  | inr other ↦ rw (other, children_of, get) refl
]

one-Drains : Drains (one no_rounds).txn_dag (λ h. 1) 3
unfolding total
one-Drains = record { heavier = λ h. rw (one-children h) (omega arith); lighter = λ h. omega arith }

abbrev one_set : {C : Type 0} → C → ConflictSet C
one_set rounds = record { has_conflicts = true; pref = 2; rounds = rounds }

one_sets :
    (u : Utxo) (ct : ConflictSet Streak)
    → get u (one no_rounds).conflict_sets ≡ some ct
    → one_set no_rounds ≡ ct
unfolding get
one_sets u ct found = elim (Bool-cases ((1, key) == u)) [
  | inl same ↦ cc (rw same at found)
  | inr other ↦ cc (rw other at found)
]

one-IsReady : IsReady rank (λ h. 1) 3 (one no_rounds)
unfolding get as_avalanche utxos
one-IsReady = record {
  drains = one-Drains;
  below = one_below;
  scored = λ h n found.
      subst (λ k. (score : ℕ) × (get k (one no_rounds).confidence ≡ some score))
        (one_dag h n found).0 (0, refl);
  recorded = λ h n found.
      subst (IsRecorded (one no_rounds).txn_pool (one no_rounds).conflict_sets)
        (one_dag h n found).0
        (
          (first, ctx 2),
          AvalancheTxn.send key (1 ∷ []) (8 ∷ []) 5 0 [],
          refl,
          refl,
          ((one_set no_rounds, refl), tt),
        );
  prefs = λ u ct found.
      subst (λ c. (score : ℕ) × (get c.pref (one no_rounds).confidence ≡ some score))
        {x = one_set no_rounds} (one_sets u ct found) (0, refl);
}

handle_votes_helper-returns_example :
    (s' : State Streak) × (d' : HashSet.HashSet Hash) × (list : List Hash) × (handle_votes_helper
        basic 3 3
        (one no_rounds)
        2
        []
      ≡ ok (s', (d', list)))
    × IsReady rank (λ h. 1) 3 s'
    × Commits (one no_rounds) list s'
handle_votes_helper-returns_example =
    handle_votes_helper-returns basic rank (λ h. 1) 3 3 (one no_rounds) 2 [] one-IsReady
      (omega arith)

abbrev decode : List ℕ → Outcome (ℕ × (List Bool × Signature))
decode bytes = ok (1, (false ∷ [], []))

abbrev accept : ℕ → ℕ → List Bool → Signature → Outcome Bool
accept src round votes signature = ok true

-- The batch is voted on, and what it decided is handed out.
history :
    Run basic sign decode accept (new 0 1 1 1 2 10) (1 ∷ []) (record voted { commit_queue = [] })
unfolding new next_to_commit lookup_all get
history =
    step (step start (tail fresh 5 9 0 0 batch (voted, Output.feedback ∷ []) batch_run))
      (commit voted 1 (1 ∷ []) [] (record voted { commit_queue = [] }, (1, grant ∷ [])) refl refl)

Run-commits_once_example :
    IsDistinct (1 ∷ [] ++ queued [])
    × ((h : Hash) → contains h (1 ∷ [] ++ queued []) ≡ true → get h voted.txn_dag ≡ none)
Run-commits_once_example =
    Run-commits_once basic sign decode accept 0 1 1 1 2 10 (record voted { commit_queue = [] })
      (1 ∷ []) history

-- The first of two votes on the batch.
none-AreCounted : AreCounted []
unfolding get
none-AreCounted blk_id entry found = cc

abbrev counted : State Streak
counted = record (one no_rounds) { votes = (4, (1, 1 ∷ 0 ∷ [])) ∷ [] }

first_vote : record_votes basic 3 3 (one no_rounds) 4 (true ∷ false ∷ []) ≡ ok (counted, [])
unfolding record_votes votes_of zeros add_votes get HashMap.insert contains
first_vote = refl

record_votes-AreCounted_example : AreCounted counted.votes
record_votes-AreCounted_example =
    record_votes-AreCounted basic 3 3 (one no_rounds) 4 (true ∷ false ∷ []) (counted, [])
      none-AreCounted first_vote

abbrev no_batch : Block
no_batch = record { header = BlockHeader.avalanche 3 4 0; txns = grant ∷ first ∷ [] }

new_tail-adds_nothing_example :
    (votes : List Bool) × (VoteNo.new_tail sign ((no_batch, record { id = 0; txn_ctx = [] }) ∷ [])
      ≡ ok (Output.vote_msg 3 4 votes [] ∷ []))
    × (length votes ≡ 2)
    × (record_votes basic 3 3 counted 4 votes
        ≡ handle_votes basic 3 3 (VoteNo.counted counted 4 1 (1 ∷ 0 ∷ [])) 4)
unfolding query_of contains get
new_tail-adds_nothing_example =
    new_tail-adds_nothing basic 3 3 counted sign no_batch (record { id = 0; txn_ctx = [] }) 3 4 [] 1
      (1 ∷ 0 ∷ []) refl refl refl refl refl

-- After a vote for the transfer under the rule of blizzard.rs.
abbrev gained : State ℕ
gained = record (one 0) {
  confidence = (2, 1) ∷ [];
  conflict_sets = ((1, key), record { has_conflicts = true; pref = 2; rounds = 1 }) ∷ [];
}

gained_run : handle_votes_helper blizzard 3 3 (one 0) 2 [] ≡ ok (gained, (2 ∷ 1 ∷ [], []))
unfolding handle_votes_helper visit_parents gain settle is_accepted is_committed are_decided tally
    visit_inputs adopt get HashMap.insert contains HashSet.insert as_avalanche utxos contains_key
    add_others
gained_run = refl

one-IsCounted : IsCountedState (one 0)
unfolding get
one-IsCounted h entry avax_txn u ct score pooled is_avax spent found scored =
    elim (Bool-cases (2 == h)) [
      | inl same ↦
          let none_yet : ◌≡◌ {A = Option ℕ} (some 0) (some score) = rw same at scored in
          omega (arith, some_unique refl none_yet)
      | inr other ↦ cc (rw other at scored)
    ]

blizzard-IsCounted_example : IsCountedState gained
blizzard-IsCounted_example =
    blizzard-IsCounted 3 3 (one 0) 2 [] (gained, (2 ∷ 1 ∷ [], [])) one-IsCounted gained_run

-- The batch is voted on, and nothing is handed out yet.
waiting : Run basic sign decode accept (new 0 1 1 1 2 10) [] voted
unfolding new
waiting = step start (tail fresh 5 9 0 0 batch (voted, Output.feedback ∷ []) batch_run)

next_to_commit-returns_example :
    (blk_id : ℕ) × (hashes : List Hash) × (rest : List (ℕ × List Hash)) × (txns : List Txn)
    × (voted.commit_queue ≡ (blk_id, hashes) ∷ rest)
    × (next_to_commit basic voted ≡ ok (record voted { commit_queue = rest }, (blk_id, txns)))
    × (length txns ≡ length hashes)
unfolding commit_ready
next_to_commit-returns_example =
    next_to_commit-returns basic sign decode accept 0 1 1 1 2 10 voted [] waiting refl
