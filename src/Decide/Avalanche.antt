-- ===== src/Decide/Avalanche.antt =====
-- src/stage/consensus/decide/avalanche: AvalancheDecision (basic.rs) and BlizzardDecision
-- (blizzard.rs), which differ in how they count the rounds of a conflict set only: what a set counts is
-- the parameter `C`, and how it is used a `Rule`. The counters for reports, the logs and the signing
-- key are left out.
pub mod Preference
pub mod Accept
pub mod Votes
pub mod Tail
pub mod Strong
pub mod Exclusive
pub mod Walk
pub mod Commits
pub mod Visits
pub mod Frames
pub mod Once
pub mod Runs
pub mod History
pub mod Handing
pub mod Ready
pub mod Returns
pub mod Rounds
pub mod Counts
pub mod Blizzard
pub mod VoteNo
pub mod Rules
use cbox.Base.{ℕ, List, [], ◌∷◌, Option, none, some, Bool}
use cbox.Base.HashMap.{HashMap}
use cbox.Base.HashSet.{HashSet}
use cbox.Protocol.{Hash, NodeId, PubKey, Txn, TxnCtx, AvalancheTxn}
use cbox.TimeQueue.{TimeEvent}

-- An output of a transaction with the key that may spend it.
abbrev pub Utxo : Type 0
Utxo = Hash × PubKey

-- The transactions that spend one output: the preferred one, and whether there is another.
pub record ConflictSet (C : Type 0) : Type 0 where
  pub has_conflicts : Bool
  pub pref : Hash
  pub rounds : C

pub record DagNode : Type 0 where
  pub parents : List Hash
  pub children : List Hash

abbrev pub TxnDag : Type 0
TxnDag = HashMap Hash DagNode

abbrev pub TxnPool : Type 0
TxnPool = HashMap Hash (Txn × TxnCtx)

pub record State (C : Type 0) : Type 0 where
  pub id : NodeId
  pub k : ℕ
  pub vote_thresh : ℕ
  pub beta1 : ℕ
  pub beta2 : ℕ
  pub txn_pool : TxnPool
  pub txn_dag : TxnDag
  pub conflict_sets : HashMap Utxo (ConflictSet C)
  pub confidence : HashMap Hash ℕ
  pub vote_timeout : ℕ
  pub query_pool : HashMap ℕ (List (Option Hash))
  pub finished_query : HashSet ℕ
  pub votes : HashMap ℕ (ℕ × List ℕ)
  pub vote_time_queue : List (TimeEvent ℕ)
  pub preference_cache : HashMap Hash Bool
  pub commit_queue : List (ℕ × List Hash)

-- How the rounds of a conflict set are counted.
pub record Rule (C : Type 0) : Type 0 where
  -- of a new set
  pub start : C
  -- after a round in which this transaction was voted for
  pub visit : Hash → C → C
  -- what a transaction of this confidence has gathered before its inputs are looked at
  pub begin : ℕ → ℕ
  -- and after one input, whose set is given
  pub weigh : ℕ → C → ℕ → ℕ
  -- whether confidence and what was gathered reach this bound
  pub reaches : ℕ → ℕ → ℕ → Bool
  -- what a failed vote does to the sets of the transaction and of its ancestors, if anything
  pub reset : Option (C → C)

-- The outputs that a transfer spends.
unfoldable pub utxos : PubKey → List Hash → List Utxo
utxos sender [] = []
utxos sender (h ∷ hs) = (h, sender) ∷ utxos sender hs

unfoldable pub new : {C : Type 0} → NodeId → ℕ → ℕ → ℕ → ℕ → ℕ → State C
new id k vote_thresh beta1 beta2 vote_timeout = record {
  id = id;
  k = k;
  vote_thresh = vote_thresh;
  beta1 = beta1;
  beta2 = beta2;
  txn_pool = [];
  txn_dag = [];
  conflict_sets = [];
  confidence = [];
  vote_timeout = vote_timeout;
  query_pool = [];
  finished_query = [];
  votes = [];
  vote_time_queue = [];
  preference_cache = [];
  commit_queue = [];
}
