-- ===== src/ChainReplication/Decide.antt =====
-- src/stage/consensus/decide/chain_replication.rs: ChainReplicationDecision. A message that is sent
-- is part of the result. The encoding of a message (crate bincode) is a parameter. Logs and the
-- waiting on `_notify` are left out.
use cbox.Base.{
  ℕ, ◌+◌, ◌^◌, List, [], ◌∷◌, Option, none, some, Bool, true, false, Outcome, ok, panic, unwrap,
  assert, ◌>>=◌, ◌>>◌, ◌==◌, nat_eq, if◌then◌else◌, ltb, last?,
}
use cbox.Base.HashMap.{HashMap, get, insert, contains_key}
use cbox.Base.HashMap
use cbox.Base.HashSet.{HashSet, contains}
use cbox.Base.HashSet
use cbox.Protocol.{Hash, NodeId, Txn, Block, BlkCtx}

pub data Role : Type 0 where
  head : Role
  intermediate : Role
  tail : Role

pub record State : Type 0 where
  pub me : NodeId
  pub role : Role
  pub head : NodeId
  pub tail : NodeId
  pub inflight_blks : HashMap Hash Block
  pub commit_ready : HashSet Hash
  pub next_to_commit : Hash

abbrev pub first? : List NodeId → Option NodeId
first? [] = none
first? (n ∷ ns) = some n

unfoldable pub new : NodeId → List NodeId → Outcome State
new me order = do
  first ← unwrap (first? order)
  last ← unwrap (last? order)
  ok (record {
    me = me;
    role = if first == me then Role.head else (if last == me then Role.tail else Role.intermediate);
    head = first;
    tail = last;
    inflight_blks = [];
    commit_ready = [];
    next_to_commit = 1;
  })

-- Adding to a U256 panics when it does not fit, and so does reading one as a u64.
abbrev pub succ_u256 : Hash → Outcome Hash
succ_u256 h = if ltb (h + 1) (2 ^ 256) then ok (h + 1) else panic

abbrev pub as_u64 : Hash → Outcome ℕ
as_u64 h = if ltb h (2 ^ 64) then ok h else panic

-- What the role does with a block, and the message that it sends, with where to.
unfoldable pub take_block :
    (Hash → Outcome (List ℕ))
    → State
    → Role
    → Block
    → BlkCtx
    → Outcome (State × Option (NodeId × List ℕ))
take_block serialize s Role.head blk ctx =
    ok (record s { inflight_blks = insert ctx.id blk s.inflight_blks }, none)
take_block serialize s Role.tail blk ctx = do msg ← serialize ctx.id; ok (s, some (s.head, msg))
take_block serialize s Role.intermediate blk ctx = ok (s, none)

module _ (serialize : Hash → Outcome (List ℕ)) where
  unfoldable pub new_tail :
      State → List (Block × BlkCtx) → Outcome (State × Option (NodeId × List ℕ))
  new_tail s [] = ok (s, none)
  new_tail s ((blk, ctx) ∷ []) = take_block serialize s s.role blk ctx
  new_tail s (b ∷ c ∷ rest) = panic

-- The test that `commit_ready` waits for.
unfoldable pub is_commit_ready : State → Bool
is_commit_ready s = contains s.next_to_commit s.commit_ready

-- The state after the block is committed.
unfoldable pub committed : State → Hash → State
committed s next = record s {
  commit_ready = HashSet.remove s.next_to_commit s.commit_ready;
  inflight_blks = HashMap.remove s.next_to_commit s.inflight_blks;
  next_to_commit = next;
}

unfoldable pub next_to_commit : State → Outcome (State × (ℕ × List Txn))
next_to_commit s = do
  assert (contains s.next_to_commit s.commit_ready)
  blk ← unwrap (get s.next_to_commit s.inflight_blks)
  next ← succ_u256 s.next_to_commit
  id ← as_u64 s.next_to_commit
  ok (committed s next, (id, blk.txns))

abbrev pub is_head : Role → Bool
is_head Role.head = true
is_head Role.intermediate = false
is_head Role.tail = false

module _ (deserialize : List ℕ → Outcome Hash) where
  unfoldable pub handle_peer_msg : State → NodeId → List ℕ → Outcome State
  handle_peer_msg s src content = do
    assert (is_head s.role)
    assert (src == s.tail)
    recved ← deserialize content
    ok (
        if contains_key recved s.inflight_blks
        then record s { commit_ready = HashSet.insert recved s.commit_ready }
        else s)
