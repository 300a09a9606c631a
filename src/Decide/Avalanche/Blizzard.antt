-- ===== src/Decide/Avalanche/Blizzard.antt =====
-- src/stage/consensus/decide/avalanche/blizzard.rs: the operations of BlizzardDecision, which are those
-- that it shares with AvalancheDecision under its own rule.
use cbox.Base.{ℕ, List, Bool, Outcome}
use cbox.Base.HashSet.{HashSet}
use cbox.Protocol.{Hash, NodeId, Signature, Txn, Block, BlkCtx}
use cbox.Decide.Avalanche.{State, DagNode, ConflictSet}
use cbox.Decide.Avalanche
use cbox.Decide.Avalanche.Rules.{blizzard}
use cbox.Decide.Avalanche.Preference
use cbox.Decide.Avalanche.Accept
use cbox.Decide.Avalanche.Votes.{Output}
use cbox.Decide.Avalanche.Votes
use cbox.Decide.Avalanche.Tail

abbrev pub BlizzardSet : Type 0
BlizzardSet = ConflictSet ℕ

abbrev pub BlizzardDecision : Type 0
BlizzardDecision = State ℕ

unfoldable pub new : NodeId → ℕ → ℕ → ℕ → ℕ → ℕ → BlizzardDecision
new = Avalanche.new

unfoldable pub is_preferred : BlizzardDecision → Hash → Outcome Bool
is_preferred = Preference.is_preferred

unfoldable pub is_strongly_preferred :
    ℕ → BlizzardDecision → Hash → Outcome (BlizzardDecision × Bool)
is_strongly_preferred = Preference.is_strongly_preferred

unfoldable pub handle_votes_helper :
    ℕ
    → ℕ
    → BlizzardDecision
    → Hash
    → HashSet Hash
    → Outcome (BlizzardDecision × (HashSet Hash × List Hash))
handle_votes_helper = Accept.handle_votes_helper blizzard

unfoldable pub handle_votes :
    ℕ → ℕ → BlizzardDecision → ℕ → Outcome (BlizzardDecision × List Output)
handle_votes = Votes.handle_votes blizzard

unfoldable pub record_votes :
    ℕ → ℕ → BlizzardDecision → ℕ → List Bool → Outcome (BlizzardDecision × List Output)
record_votes = Votes.record_votes blizzard

unfoldable pub new_tail :
    (ℕ → List Bool → Outcome Signature)
    → ℕ
    → ℕ
    → ℕ
    → BlizzardDecision
    → NodeId
    → List (Block × BlkCtx)
    → Outcome (BlizzardDecision × List Output)
new_tail = Tail.new_tail blizzard

unfoldable pub commit_ready : BlizzardDecision → Bool
commit_ready = Votes.commit_ready blizzard

unfoldable pub next_to_commit : BlizzardDecision → Outcome (BlizzardDecision × (ℕ × List Txn))
next_to_commit = Votes.next_to_commit blizzard

unfoldable pub handle_timeout : ℕ → ℕ → BlizzardDecision → Outcome (BlizzardDecision × List Output)
handle_timeout = Votes.handle_timeout blizzard

unfoldable pub handle_peer_msg :
    (List ℕ → Outcome (ℕ × (List Bool × Signature)))
    → (NodeId → ℕ → List Bool → Signature → Outcome Bool)
    → ℕ
    → ℕ
    → BlizzardDecision
    → NodeId
    → List ℕ
    → Outcome (BlizzardDecision × List Output)
handle_peer_msg = Tail.handle_peer_msg blizzard
