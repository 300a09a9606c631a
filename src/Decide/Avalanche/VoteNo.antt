-- ===== src/Decide/Avalanche/VoteNo.antt =====
-- src/stage/consensus/decide/avalanche/vote_no.rs: AvalancheVoteNoDecision, a node that votes against
-- every transaction. It keeps no state that changes.
use cbox.Base.{
  ℕ, suc, List, [], ◌∷◌, Bool, false, Outcome, ok, panic, ◌>>=◌, >>=-runs, length, ◌≡◌, refl, ap,
  arith,
}
use cbox.Protocol.{NodeId, Signature, Txn, Block, BlkCtx, BlockHeader}
use cbox.Base.{◌∙◌, assert, true, some, leb, ◌==◌, nat_eq, eq_refl}
use cbox.Base.HashMap.{get}
use cbox.Base.HashMap
use cbox.Base.HashSet.{contains}
use cbox.Decide.Avalanche.{State, Rule}
use cbox.Decide.Avalanche.Votes.{Output, add_votes, votes_of, record_votes, handle_votes}

unfoldable pub query_of : BlockHeader → Outcome (NodeId × ℕ)
query_of (BlockHeader.avalanche proposer id depth) = ok (proposer, id)
query_of BlockHeader.dummy = panic
query_of (BlockHeader.bitcoin _ _ _ _) = panic
query_of (BlockHeader.chain_replication _) = panic

-- `vec![false; new_blk.txns.len()]`.
unfoldable pub no_votes : List Txn → List Bool
no_votes [] = []
no_votes (txn ∷ txns) = false ∷ no_votes txns

unfoldable pub new_tail :
    (ℕ → List Bool → Outcome Signature) → List (Block × BlkCtx) → Outcome (List Output)
new_tail sign [] = panic
new_tail sign ((new_blk, _) ∷ []) = do
  (proposer, id) ← query_of new_blk.header
  signature ← sign id (no_votes new_blk.txns)
  ok (Output.vote_msg proposer id (no_votes new_blk.txns) signature ∷ [])
new_tail sign (first ∷ second ∷ rest) = panic

unfoldable pub next_to_commit : Outcome (ℕ × List Txn)
next_to_commit = panic

unfoldable pub handle_peer_msg : NodeId → List ℕ → Outcome (Unit {0})
handle_peer_msg src content = ok tt

unfoldable pub handle_timeout : Outcome (Unit {0})
handle_timeout = panic

length-no_votes : (txns : List Txn) → length (no_votes txns) ≡ length txns
unfolding no_votes
length-no_votes [] = refl
length-no_votes (txn ∷ txns) = ap suc (length-no_votes txns)

-- One more node has voted on this batch, and these are the counts of its accepting votes.
abbrev pub counted : {C : Type 0} → State C → ℕ → ℕ → List ℕ → State C
counted s id votes_received accept_votes = record s {
  votes = HashMap.insert id (suc votes_received, accept_votes) s.votes;
}

add_votes-no_votes :
    (txns : List Txn) (counts : List ℕ)
    → length counts ≡ length txns
    → add_votes (no_votes txns) counts ≡ counts
unfolding add_votes no_votes
add_votes-no_votes [] counts same = refl
add_votes-no_votes (txn ∷ txns) [] same = refl
add_votes-no_votes (txn ∷ txns) (n ∷ ns) same =
    ap (λ r. n ∷ r) (add_votes-no_votes txns ns (omega (arith, same)))

record_votes-counted :
    {C : Type 0} (rule : Rule C) (fuel bfs : ℕ) (s : State C) (id : ℕ) (votes : List Bool)
    (received : ℕ) (counts : List ℕ)
    → contains id s.finished_query ≡ false
    → votes_of rule s id votes ≡ (received, counts)
    → (length counts == length votes) ≡ true
    → add_votes votes counts ≡ counts
    → record_votes rule fuel bfs s id votes ≡ elim (leb s.k (suc received)) [
      | true ↦ handle_votes rule fuel bfs (counted s id received counts) id
      | false ↦ ok (counted s id received counts, [])
    ]
unfolding record_votes
record_votes-counted rule fuel bfs s id votes received counts open_query entry same adds =
    let recorded : ◌≡◌ {A = ℕ × List ℕ}
        ((votes_of rule s id votes).0, add_votes votes (votes_of rule s id votes).1)
        (received, counts) =
      ap (λ (q : ℕ × List ℕ). (q.0, add_votes votes q.1)) entry ∙ ap (λ c. (received, c)) adds in
    let counts_fit : assert (length (votes_of rule s id votes).1 == length votes) ≡ ok tt =
      rw entry (rw same refl) in
    rw (open_query, record_votes)
      (>>=-runs _ tt counts_fit (
        ap
          (λ (q : ℕ × List ℕ). elim (leb s.k (suc q.0)) [
            | true ↦ handle_votes rule fuel bfs (counted s id q.0 q.1) id
            | false ↦ ok (counted s id q.0 q.1, [])
          ])
          recorded))

-- On a batch with an Avalanche header, where the node can sign its votes against all of the batch's
-- transactions, it sends its proposer those votes, one for each transaction. When the decision of the
-- proposer, which has not finished the query on the batch and has a count for each of its transactions,
-- records them, then one more node has voted and all counts of accepting votes are as they were; it
-- goes on to judge the transactions by these counts where that was the last vote that it needed.
pub new_tail-adds_nothing :
    {C : Type 0} (rule : Rule C) (fuel bfs : ℕ) (s : State C)
    (sign : ℕ → List Bool → Outcome Signature) (blk : Block) (blk_ctx : BlkCtx) (proposer : NodeId)
    (id : ℕ) (signature : Signature) (votes_received : ℕ) (accept_votes : List ℕ)
    → query_of blk.header ≡ ok (proposer, id)
    → sign id (no_votes blk.txns) ≡ ok signature
    → contains id s.finished_query ≡ false
    → get id s.votes ≡ some (votes_received, accept_votes)
    → length accept_votes ≡ length blk.txns
    → (votes : List Bool) × (new_tail sign ((blk, blk_ctx) ∷ [])
        ≡ ok (Output.vote_msg proposer id votes signature ∷ []))
      × (length votes ≡ length blk.txns)
      × (record_votes rule fuel bfs s id votes ≡ elim (leb s.k (suc votes_received)) [
        | true ↦ handle_votes rule fuel bfs (counted s id votes_received accept_votes) id
        | false ↦ ok (counted s id votes_received accept_votes, [])
      ])
unfolding new_tail votes_of
new_tail-adds_nothing rule fuel bfs s sign blk blk_ctx proposer id signature received counts header
      signs open_query found same =
    let same_length : (length counts == length (no_votes blk.txns)) ≡ true =
      rw (length-no_votes blk.txns) (rw same (eq_refl (length blk.txns))) in
    (
      no_votes blk.txns,
      >>=-runs _ (proposer, id) header (>>=-runs _ signature signs refl),
      length-no_votes blk.txns,
      record_votes-counted rule fuel bfs s id (no_votes blk.txns) received counts open_query
          (rw (found, votes_of) refl) same_length (add_votes-no_votes blk.txns counts same),
    )
