-- ===== src/Examples/Votes.antt =====
-- The Avalanche decision at concrete inputs.
use cbox.Base.{ℕ, List, [], ◌∷◌, some, Bool, true, false, Outcome, ok, ◌≡◌, refl}
use cbox.Base.HashMap.{get, contains_key}
use cbox.Base.HashMap
use cbox.Base.HashSet.{contains}
use cbox.Base.HashSet
use cbox.Protocol.{
  Hash, Signature, Txn, TxnCtx, AvalancheTxn, Block, BlkCtx, BlockHeader, as_avalanche,
}
use cbox.TimeQueue
use cbox.Decide.Avalanche.{State, utxos}
use cbox.Decide.Avalanche.Rules.{Streak, basic, extend_streak}
use cbox.Decide.Avalanche.Preference.{
  all_preferred, prefers, is_preferred, check_parents, compute, is_strongly_preferred,
}
use cbox.Decide.Avalanche.Accept.{
  are_decided, is_committed, adopt, visit_inputs, tally, is_accepted, settle, gain, visit_parents,
  handle_votes_helper,
}
use cbox.Decide.Avalanche.Tail.{new_tail}
use cbox.Decide.Avalanche.Tail
use cbox.Decide.Avalanche.Votes

abbrev pub sign : ℕ → List Bool → Outcome Signature
sign round votes = ok []

abbrev pub key : List ℕ
key = 7 ∷ []

abbrev pub grant : Txn
grant = Txn.avalanche (AvalancheTxn.grant 5 key 0)

-- Two transfers of the one output.
abbrev pub first : Txn
first = Txn.avalanche (AvalancheTxn.send key (1 ∷ []) (8 ∷ []) 5 0 [])

abbrev pub second : Txn
second = Txn.avalanche (AvalancheTxn.send key (1 ∷ []) (9 ∷ []) 5 0 [])

abbrev pub ctx : Hash → TxnCtx
ctx h = record { id = h }

abbrev pub batch : List (Block × BlkCtx)
batch =
    (
      record { header = BlockHeader.avalanche 0 1 0; txns = grant ∷ first ∷ second ∷ [] },
      record { id = 0; txn_ctx = ctx 1 ∷ ctx 2 ∷ ctx 3 ∷ [] },
    )
    ∷ []

abbrev pub fresh : State Streak
fresh = record {
  id = 0;
  k = 1;
  vote_thresh = 1;
  beta1 = 1;
  beta2 = 2;
  txn_pool = [];
  txn_dag = [];
  conflict_sets = [];
  confidence = [];
  vote_timeout = 10;
  query_pool = [];
  finished_query = [];
  votes = [];
  vote_time_queue = [];
  preference_cache = [];
  commit_queue = [];
}

-- After the batch: the grant is accepted, the first transfer gained confidence, the vote on the second
-- one failed.
abbrev pub voted : State Streak
voted = record fresh {
  txn_pool = (1, (grant, ctx 1)) ∷ (2, (first, ctx 2)) ∷ (3, (second, ctx 3)) ∷ [];
  txn_dag =
      (2, record { parents = 1 ∷ []; children = [] })
      ∷ (3, record { parents = 1 ∷ []; children = [] })
      ∷ [];
  conflict_sets =
      (
        (1, key),
        record { has_conflicts = true; pref = 2; rounds = record { last = some 2; count = 0 } },
      )
      ∷ [];
  confidence = (1, 1) ∷ (2, 1) ∷ (3, 0) ∷ [];
  finished_query = 1 ∷ [];
  preference_cache = (2, true) ∷ (3, false) ∷ [];
  commit_queue = (1, 1 ∷ []) ∷ [];
}

abbrev VotedRun : Outcome (State Streak × List Votes.Output) → Type 0
VotedRun r = r ≡ ok (voted, Votes.Output.feedback ∷ [])

pub batch_run : VotedRun (new_tail basic sign 5 9 0 fresh 0 batch)
unfolding new_tail Tail.batch_of Tail.vote_all Tail.vote_on Tail.record_txn Tail.enter Tail.add_node
    Tail.add_child Tail.add_conflicts Tail.answer Votes.record_votes Votes.handle_votes
    Votes.judge_txns Votes.judge_txn Votes.vote_failed Votes.reset_ancestors Votes.reset_txn
    Votes.reset_inputs Votes.zeros Votes.add_votes Votes.votes_of handle_votes_helper visit_parents
    gain settle is_accepted is_committed are_decided tally visit_inputs adopt is_strongly_preferred
    compute check_parents is_preferred prefers all_preferred extend_streak get contains_key
    HashMap.insert HashMap.remove contains HashSet.insert as_avalanche TimeQueue.push
    TimeQueue.push_back TimeQueue.remove utxos
batch_run = refl

-- One transfer is in the dag, its input decided.
abbrev pub one : {C : Type 0} → C → State C
one start = record {
  id = 0;
  k = 2;
  vote_thresh = 1;
  beta1 = 1;
  beta2 = 2;
  txn_pool = (2, (first, ctx 2)) ∷ [];
  txn_dag = (2, record { parents = 1 ∷ []; children = [] }) ∷ [];
  conflict_sets = ((1, key), record { has_conflicts = true; pref = 2; rounds = start }) ∷ [];
  confidence = (2, 0) ∷ [];
  vote_timeout = 10;
  query_pool = [];
  finished_query = [];
  votes = [];
  vote_time_queue = [];
  preference_cache = [];
  commit_queue = [];
}
