-- ===== src/DummyDecision.antt =====
-- src/stage/consensus/decide/dummy.rs: DummyDecision, which commits every block as it comes. The
-- waiting on `_notify` is left out: nothing ever notifies it, so `timeout` does not return.
use cbox.Base.{
  subst, ℕ, ◌+◌, List, [], ◌∷◌, ◌++◌, Bool, true, false, ◌≡◌, refl, sym, ap, ap₂, ◌∙◌, Outcome, ok,
  err, panic, ◌>>=◌, map, length, arith, length-append, CopycatError, append-nil, append_assoc,
  if◌then◌else◌,
}
use cbox.Protocol.{NodeId, Txn, Block, BlkCtx}

pub record State : Type 0 where
  pub blocks_to_commit : List Block
  pub blocks_committed : ℕ

unfoldable pub new : State
new = record { blocks_to_commit = []; blocks_committed = 0 }

abbrev pub blocks_of : List (Block × BlkCtx) → List Block
blocks_of = map (λ b. b.0)

unfoldable pub new_tail : State → List (Block × BlkCtx) → State
new_tail s tail = record s { blocks_to_commit = s.blocks_to_commit ++ blocks_of tail }

-- The test that `commit_ready` waits for.
unfoldable pub is_commit_ready : List Block → Bool
is_commit_ready [] = false
is_commit_ready (b ∷ bs) = true

-- `next_to_commit`, on a queue of the form `blocks`.
unfoldable pub commit_front : State → List Block → Outcome (State × (ℕ × List Txn))
commit_front s [] = err (CopycatError.copycat_error "no blocks to commit")
commit_front s (blk ∷ rest) = ok (
  record { blocks_to_commit = rest; blocks_committed = s.blocks_committed + 1 },
  (s.blocks_committed + 1, blk.txns),
)

unfoldable pub next_to_commit : State → Outcome (State × (ℕ × List Txn))
next_to_commit s = commit_front s s.blocks_to_commit

-- `unreachable!`.
unfoldable pub handle_timeout : State → Outcome State
handle_timeout s = panic

unfoldable pub handle_peer_msg : State → NodeId → List ℕ → Outcome State
handle_peer_msg s src content = panic

-- What reaches the stage: blocks, the turn of its loop to commit, which it takes when it is ready, or
-- a message of another node's decision.
pub data Event : Type 0 where
  blocks : List (Block × BlkCtx) → Event
  commit : Event
  peer_msg : NodeId → List ℕ → Event

unfoldable pub on_event : State → Event → Outcome (State × List (ℕ × List Txn))
on_event s (Event.blocks tail) = ok (new_tail s tail, [])
on_event s Event.commit =
    if is_commit_ready s.blocks_to_commit
    then (next_to_commit s >>= λ r. ok (r.0, r.1 ∷ []))
    else ok (s, [])
on_event s (Event.peer_msg src content) = (handle_peer_msg s src content >>= λ s'. ok (s', []))

unfoldable pub run : State → List Event → Outcome (State × List (ℕ × List Txn))
run s [] = ok (s, [])
run s (e ∷ es) = do (s', out) ← on_event s e; (s'', more) ← run s' es; ok (s'', out ++ more)

abbrev pub received : List Event → List Block
received [] = []
received (Event.blocks tail ∷ es) = blocks_of tail ++ received es
received (Event.commit ∷ es) = received es
received (Event.peer_msg src content ∷ es) = received es

abbrev pub has_peer_msg : List Event → Bool
has_peer_msg [] = false
has_peer_msg (Event.blocks tail ∷ es) = has_peer_msg es
has_peer_msg (Event.commit ∷ es) = has_peer_msg es
has_peer_msg (Event.peer_msg src content ∷ es) = true

-- Commits with these transactions, numbered from the one after `n` on.
abbrev pub numbered : ℕ → List Block → List (ℕ × List Txn)
numbered n [] = []
numbered n (b ∷ bs) = (n + 1, b.txns) ∷ numbered (n + 1) bs

numbered-append :
    (n : ℕ) (bs cs : List Block)
    → numbered n (bs ++ cs) ≡ numbered n bs ++ numbered (n + length bs) cs
numbered-append n [] cs = ap (λ k. numbered k cs) (omega arith)
numbered-append n (b ∷ bs) cs =
    ap (λ r. (n + 1, b.txns) ∷ r)
      (numbered-append (n + 1) bs cs ∙ ap (λ k. numbered (n + 1) bs ++ numbered k cs) (omega arith))

-- Where the run from `s` ends, having committed these blocks.
abbrev pub Commits : State → State → List Block → List (ℕ × List Txn) → List Block → Type 0
Commits s s' new out committed =
    (out ≡ numbered s.blocks_committed committed)
    × (s.blocks_to_commit ++ new ≡ committed ++ s'.blocks_to_commit)
    × (s'.blocks_committed ≡ s.blocks_committed + length committed)

-- How the run of these events ends, by whether there is a message of another node among them.
abbrev pub Ends : State → List Event → Bool → Type 0
Ends s es true = run s es ≡ panic
Ends s es false =
    (s' : State) × (out : List (ℕ × List Txn)) × (committed : List Block) × (run s es
      ≡ ok (s', out))
    × Commits s s' (received es) out committed

-- A run whose first event goes well, with the blocks that it brings and those that it commits.
run-cons :
    (s s₁ : State) (e : Event) (es : List Event) (out : List (ℕ × List Txn))
    (brought committed : List Block)
    → on_event s e ≡ ok (s₁, out)
    → Commits s s₁ brought out committed
    → received (e ∷ es) ≡ brought ++ received es
    → has_peer_msg (e ∷ es) ≡ has_peer_msg es
    → Ends s₁ es (has_peer_msg es)
    → Ends s (e ∷ es) (has_peer_msg (e ∷ es))
unfolding run
run-cons s s₁ e es out brought bs first (is₁, queue₁, count₁) news same ends =
    subst (Ends s (e ∷ es)) (sym same) (go (has_peer_msg es) ends)
  where
    go : (b : Bool) → Ends s₁ es b → Ends s (e ∷ es) b
    go true panics = rw first (rw panics refl)
    go false (s₂, out₂, cs, others, (is₂, queue₂, count₂)) = (
      s₂,
      out ++ out₂,
      bs ++ cs,
      rw first (rw others refl),
      (
        ap₂ ◌++◌ is₁ (is₂ ∙ ap (λ n. numbered n cs) count₁)
            ∙ sym (numbered-append s.blocks_committed bs cs),
        ap (λ r. s.blocks_to_commit ++ r) news
            ∙ sym (append_assoc s.blocks_to_commit brought (received es))
            ∙ ap (λ r. r ++ received es) queue₁
            ∙ append_assoc bs s₁.blocks_to_commit (received es)
            ∙ ap (λ r. bs ++ r) queue₂
            ∙ sym (append_assoc bs cs s₂.blocks_to_commit),
        count₂ ∙ omega (arith, count₁, length-append bs cs),
      ),
    )

commit_lem :
    (q : List Block) (n : ℕ)
    → (s' : State) × (out : List (ℕ × List Txn)) × (committed : List Block) × (on_event
          (record { blocks_to_commit = q; blocks_committed = n })
          Event.commit
        ≡ ok (s', out))
      × Commits (record { blocks_to_commit = q; blocks_committed = n }) s' [] out committed
unfolding on_event next_to_commit commit_front is_commit_ready
commit_lem [] n = (
  record { blocks_to_commit = []; blocks_committed = n },
  [],
  [],
  refl,
  (refl, refl, omega arith),
)
commit_lem (b ∷ q) n = (
  record { blocks_to_commit = q; blocks_committed = n + 1 },
  (n + 1, b.txns) ∷ [],
  b ∷ [],
  refl,
  (refl, append-nil (b ∷ q), omega arith),
)

-- Where a message of another node's decision is among what reaches the stage, the run panics.
-- Otherwise it neither fails nor panics, and the blocks that it commits are the first ones of those
-- that waited and those that it received, in their order, with the numbers that follow
-- `blocks_committed`; the others wait.
pub run_lem : (es : List Event) (s : State) → Ends s es (has_peer_msg es)
unfolding run on_event new_tail handle_peer_msg
run_lem [] s = (s, [], [], refl, (refl, append-nil s.blocks_to_commit, omega arith))
run_lem (Event.blocks tail ∷ es) s =
    run-cons s (new_tail s tail) (Event.blocks tail) es [] (blocks_of tail) [] refl
      (refl, refl, omega arith) refl refl (run_lem es (new_tail s tail))
run_lem (Event.commit ∷ es) s =
    let (s₁, out, bs, first, commits) = commit_lem s.blocks_to_commit s.blocks_committed in
    run-cons s s₁ Event.commit es out [] bs first commits refl refl (run_lem es s₁)
run_lem (Event.peer_msg src content ∷ es) s = refl
