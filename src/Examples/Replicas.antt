-- ===== src/Examples/Replicas.antt =====
-- Chain replication and the time queue at concrete inputs.
use cbox.Base.{ℕ, List, [], ◌∷◌, ◌++◌, none, true, ◌≡◌, ◌≤◌, ◌<◌, refl, ok, Outcome, arith, All}
use cbox.Base.HashMap
use cbox.Base.HashSet
use cbox.Protocol.{Hash, Txn, TxnCtx, Block, BlkCtx, BlockHeader, BitcoinTxn}
use cbox.ChainReplication.Decide.{
  State, Role, new_tail, next_to_commit, handle_peer_msg, is_commit_ready,
}
use cbox.ChainReplication.Decide
use cbox.ChainReplication.Batches
use cbox.ChainReplication.Batches.{prepare_new_block, get_new_block}
use cbox.ChainReplication.Order.{
  Event, run, on_event, Advances, committed_consecutive, acknowledged_commits,
}
use cbox.ChainReplication.Replication.{IsBatched, IsNextBatch, get_new_block-IsNextBatch}
use cbox.TimeQueue
use cbox.TimeQueue.{TimeEvent, push, IsSorted, push_lem}

-- A message is the id itself.
abbrev encode : Hash → Outcome (List ℕ)
encode h = ok (h ∷ [])

abbrev decode : List ℕ → Outcome Hash
decode [] = Outcome.panic
decode (h ∷ hs) = ok h

abbrev head_node : State
head_node = record {
  me = 0;
  role = Role.head;
  head = 0;
  tail = 2;
  inflight_blks = [];
  commit_ready = [];
  next_to_commit = 1;
}

new_run : Decide.new 0 (0 ∷ 1 ∷ 2 ∷ []) ≡ ok head_node
unfolding Decide.new
new_run = refl

abbrev block : Hash → Block
block id = record { header = BlockHeader.chain_replication id; txns = [] }

abbrev blk_ctx : Hash → BlkCtx
blk_ctx id = record { id = id; txn_ctx = [] }

-- The tail's messages come in the other order than the blocks.
abbrev events : List Event
events =
    Event.blocks ((block 1, blk_ctx 1) ∷ [])
    ∷ Event.blocks ((block 2, blk_ctx 2) ∷ [])
    ∷ Event.message 2 (2 ∷ [])
    ∷ Event.commit
    ∷ Event.message 2 (1 ∷ [])
    ∷ Event.commit
    ∷ Event.commit
    ∷ []

abbrev done : State
done = record head_node { next_to_commit = 3 }

run-events : run encode decode head_node events ≡ ok (done, 1 ∷ 2 ∷ [])
unfolding run on_event new_tail Decide.take_block handle_peer_msg is_commit_ready next_to_commit
    Decide.committed HashMap.get HashMap.insert HashMap.remove HashMap.contains_key HashSet.contains
    HashSet.insert HashSet.remove
run-events = refl

committed_consecutive_example : Advances head_node done (1 ∷ 2 ∷ [])
committed_consecutive_example =
    committed_consecutive encode decode events head_node done (1 ∷ 2 ∷ []) run-events

acknowledged_commits_example :
    (s₁ : State) × (s₂ : State) × (s₃ : State) × (new_tail encode head_node
        ((block 1, blk_ctx 1) ∷ [])
      ≡ ok (s₁, none))
    × (handle_peer_msg decode s₁ 2 (1 ∷ []) ≡ ok s₂)
    × (is_commit_ready s₂ ≡ true)
    × (next_to_commit s₂ ≡ ok (s₃, (1, [])))
acknowledged_commits_example =
    acknowledged_commits encode decode head_node (block 1) (blk_ctx 1) (1 ∷ []) refl refl refl refl

-- Every transaction has the size 4, and a block the size 7.
abbrev four : Txn → ℕ
four txn = 4

abbrev entry : Hash → Txn × TxnCtx
entry h = (Txn.bitcoin (BitcoinTxn.grant h []), record { id = h })

abbrev proposer : Batches.State
proposer = record {
  id = 0;
  mem_pool = entry 1 ∷ entry 2 ∷ entry 3 ∷ [];
  is_head = true;
  block_size = 7;
  next_blk_id = 1;
  curr_batch_len = 1;
  curr_batch_size = 4;
}

proposer-IsBatched : IsBatched four proposer
proposer-IsBatched = record { fits = omega arith; size = refl }

get_new_block-IsNextBatch_example :
    (s' : Batches.State) × (blk : Block) × (ctx : BlkCtx) × (get_new_block
        (prepare_new_block four proposer).0
      ≡ ok (s', (blk, ctx)))
    × IsNextBatch four proposer s' blk
    × (ctx.id ≡ 1)
    × IsBatched four s'
get_new_block-IsNextBatch_example =
    get_new_block-IsNextBatch four proposer refl proposer-IsBatched (omega arith) refl

abbrev event : ℕ → ℕ → TimeEvent ℕ
event item time = record { item = item; time = time }

abbrev queue : List (TimeEvent ℕ)
queue = event 7 10 ∷ event 8 20 ∷ event 9 30 ∷ []

push_run : push queue 5 20 ≡ event 7 10 ∷ event 8 20 ∷ event 5 20 ∷ event 9 30 ∷ []
unfolding push TimeQueue.push_back
push_run = refl

queue-IsSorted : IsSorted queue
queue-IsSorted = ((omega arith, (omega arith, tt)), ((omega arith, tt), (tt, tt)))

push_lem_example :
    (earlier : List (TimeEvent ℕ)) × (later : List (TimeEvent ℕ)) × (queue ≡ earlier ++ later)
    × (push queue 5 20 ≡ earlier ++ event 5 20 ∷ later)
    × All (λ (e : TimeEvent ℕ). e.time ≤ 20) earlier
    × All (λ (e : TimeEvent ℕ). 20 < e.time) later
    × IsSorted (push queue 5 20)
push_lem_example = push_lem queue 5 20 queue-IsSorted
