-- ===== src/ChainReplication/Order.antt =====
-- The head commits the blocks in the order of their ids.
use cbox.Base.{
  ℕ, zero, suc, ◌++◌, ◌+◌, ◌^◌, List, [], ◌∷◌, Option, none, some, true, ◌≡◌, refl, sym, ap, ap₂,
  ◌∙◌, Outcome, ok, unwrap, assert, ◌>>=◌, ◌==◌, nat_eq, if◌then◌else◌, ltb, >>=-eq-ok,
  ok-injective, arith, Bool-cases, inl, inr, eq_refl, subst,
}
use cbox.Base.HashMap.{get, insert, get-insert, contains_key}
use cbox.Base.HashSet
use cbox.Base.HashSet.{contains, contains-insert}
use cbox.Protocol.{Hash, NodeId, Txn, Block, BlkCtx}
use cbox.ChainReplication.Decide.{
  State, Role, committed, succ_u256, as_u64, new_tail, is_commit_ready, next_to_commit, is_head,
  handle_peer_msg, take_block,
}

-- What reaches the stage: blocks, a message of a peer, or the turn of the loop to commit.
pub data Event : Type 0 where
  blocks : List (Block × BlkCtx) → Event
  message : NodeId → List ℕ → Event
  commit : Event

module _ (serialize : Hash → Outcome (List ℕ)) (deserialize : List ℕ → Outcome Hash) where
  -- One event, with the id that it commits.
  unfoldable pub on_event : State → Event → Outcome (State × List ℕ)
  on_event s (Event.blocks bs) = do (s', _) ← new_tail serialize s bs; ok (s', [])
  on_event s (Event.message src content) = do
    s' ← handle_peer_msg deserialize s src content
    ok (s', [])
  on_event s Event.commit =
      if is_commit_ready s
      then (do (s', (id, _)) ← next_to_commit s; ok (s', id ∷ []))
      else ok (s, [])

  unfoldable pub run : State → List Event → Outcome (State × List ℕ)
  run s [] = ok (s, [])
  run s (e ∷ es) = do (s', ids) ← on_event s e; (s'', more) ← run s' es; ok (s'', ids ++ more)

-- The ids from this one on.
abbrev pub from : ℕ → ℕ → List ℕ
from zero i = []
from (suc n) i = i ∷ from n (i + 1)

from-append : (m n i : ℕ) → from m i ++ from n (i + m) ≡ from (m + n) i
from-append zero n i = ap₂ from (omega arith) (omega arith)
from-append (suc m) n i =
    let shift : i + suc m ≡ (i + 1) + m = omega arith in
    let total : suc (m + n) ≡ suc m + n = omega arith in
    ap (λ r. i ∷ r) (ap (λ j. from m (i + 1) ++ from n j) shift ∙ from-append m n (i + 1))
    ∙ ap (λ k. from k i) total

-- What one event commits: nothing, or the next id.
abbrev pub Advances : State → State → List ℕ → Type 0
Advances s s' ids =
    (n : ℕ) × (ids ≡ from n s.next_to_commit) × (s'.next_to_commit ≡ s.next_to_commit + n)

take_block-same :
    (serialize : Hash → Outcome (List ℕ)) (s : State) (role : Role) (blk : Block) (ctx : BlkCtx)
    (r : State × Option (NodeId × List ℕ))
    → take_block serialize s role blk ctx ≡ ok r
    → r.0.next_to_commit ≡ s.next_to_commit
unfolding take_block
take_block-same serialize s Role.head blk ctx r h =
    ap (λ x. x.0.next_to_commit) (sym (ok-injective h))
take_block-same serialize s Role.intermediate blk ctx r h =
    ap (λ x. x.0.next_to_commit) (sym (ok-injective h))
take_block-same serialize s Role.tail blk ctx r h =
    let (msg, eq, rest) = >>=-eq-ok (serialize ctx.id) _ h in
    ap (λ x. x.0.next_to_commit) (sym (ok-injective rest))

new_tail-same :
    (serialize : Hash → Outcome (List ℕ)) (s : State) (bs : List (Block × BlkCtx))
    (r : State × Option (NodeId × List ℕ))
    → new_tail serialize s bs ≡ ok r
    → r.0.next_to_commit ≡ s.next_to_commit
unfolding new_tail
new_tail-same serialize s [] r h = ap (λ x. x.0.next_to_commit) (sym (ok-injective h))
new_tail-same serialize s ((blk, ctx) ∷ []) r h = take_block-same serialize s s.role blk ctx r h
new_tail-same serialize s (b ∷ c ∷ rest) r h = absurd (cc h)

next_to_commit-next :
    (s s' : State) (id : ℕ) (txns : List Txn)
    → next_to_commit s ≡ ok (s', (id, txns))
    → (id ≡ s.next_to_commit) × (s'.next_to_commit ≡ s.next_to_commit + 1)
unfolding next_to_commit committed
next_to_commit-next s s' id txns h =
    let (_, _, h₁) = >>=-eq-ok (assert (contains s.next_to_commit s.commit_ready)) _ h in
    let (blk, _, h₂) = >>=-eq-ok (unwrap (get s.next_to_commit s.inflight_blks)) _ h₁ in
    let (next, is_next, h₃) = >>=-eq-ok (succ_u256 s.next_to_commit) _ h₂ in
    let (id', is_id, h₄) = >>=-eq-ok (as_u64 s.next_to_commit) _ h₃ in
    let e = ok-injective h₄ in
    (
      sym (ap (λ x. x.1.0) e) ∙ as_u64-same s.next_to_commit id' is_id,
      sym (ap (λ x. x.0.next_to_commit) e) ∙ succ-same s.next_to_commit next is_next,
    )
  where
    as_u64-same : (h n : ℕ) → as_u64 h ≡ ok n → n ≡ h
    as_u64-same h n e = elim (Bool-cases (ltb h (2 ^ 64))) [
      | inl fits ↦ sym (ok-injective (rw (fits, as_u64) at e))
      | inr large ↦ absurd (cc (rw (large, as_u64) at e))
    ]

    succ-same : (h n : ℕ) → succ_u256 h ≡ ok n → n ≡ h + 1
    succ-same h n e = elim (Bool-cases (ltb (h + 1) (2 ^ 256))) [
      | inl fits ↦ sym (ok-injective (rw (fits, succ_u256) at e))
      | inr large ↦ absurd (cc (rw (large, succ_u256) at e))
    ]

module _ (serialize : Hash → Outcome (List ℕ)) (deserialize : List ℕ → Outcome Hash) where
  handle_peer_msg-same :
      (s s' : State) (src : NodeId) (content : List ℕ)
      → handle_peer_msg deserialize s src content ≡ ok s'
      → s'.next_to_commit ≡ s.next_to_commit
  unfolding handle_peer_msg
  handle_peer_msg-same s s' src content h =
      let (_, _, h₁) = >>=-eq-ok (assert (is_head s.role)) _ h in
      let (_, _, h₂) = >>=-eq-ok (assert (src == s.tail)) _ h₁ in
      let (recved, _, h₃) = >>=-eq-ok (deserialize content) _ h₂ in
      elim (Bool-cases (contains_key recved s.inflight_blks)) [
        | inl known ↦ ap (λ x. x.next_to_commit) (sym (ok-injective (rw known at h₃)))
        | inr unknown ↦ ap (λ x. x.next_to_commit) (sym (ok-injective (rw unknown at h₃)))
      ]

  on_event-Advances :
      (s s' : State) (e : Event) (ids : List ℕ)
      → on_event serialize deserialize s e ≡ ok (s', ids)
      → Advances s s' ids
  unfolding on_event
  on_event-Advances s s' (Event.blocks bs) ids h =
      let (r, runs, rest) = >>=-eq-ok (new_tail serialize s bs) _ h in
      let e = ok-injective rest in
      (
        0,
        sym (ap (λ x. x.1) e),
        sym (ap (λ x. x.0.next_to_commit) e) ∙ new_tail-same serialize s bs r runs ∙ omega arith,
      )
  on_event-Advances s s' (Event.message src content) ids h =
      let (r, runs, rest) = >>=-eq-ok (handle_peer_msg deserialize s src content) _ h in
      let e = ok-injective rest in
      (
        0,
        sym (ap (λ x. x.1) e),
        sym (ap (λ x. x.0.next_to_commit) e)
            ∙ handle_peer_msg-same s r src content runs
            ∙ omega arith,
      )
  on_event-Advances s s' Event.commit ids h = elim (Bool-cases (is_commit_ready s)) [
    | inl ready ↦
        let (r, runs, rest) = >>=-eq-ok (next_to_commit s) _ (rw ready at h) in
        let e = ok-injective rest in
        let (is, next) = next_to_commit-next s r.0 r.1.0 r.1.1 runs in
        (
          1,
          sym (ap (λ x. x.1) e) ∙ ap (λ i. i ∷ []) is,
          sym (ap (λ x. x.0.next_to_commit) e) ∙ next,
        )
    | inr waits ↦
        let e = ok-injective (rw waits at h) in
        (0, sym (ap (λ x. x.1) e), sym (ap (λ x. x.0.next_to_commit) e) ∙ omega arith)
  ]

  -- Whatever blocks and messages reach the stage, in whatever order, the ids that it commits are
  -- consecutive from `next_to_commit` on, with none left out and none twice.
  pub committed_consecutive :
      (es : List Event) (s s' : State) (ids : List ℕ)
      → run serialize deserialize s es ≡ ok (s', ids)
      → Advances s s' ids
  unfolding run
  committed_consecutive [] s s' ids h =
      let e = ok-injective h in
      (0, sym (ap (λ x. x.1) e), sym (ap (λ x. x.0.next_to_commit) e) ∙ omega arith)
  committed_consecutive (e ∷ es) s s' ids h =
      let (r, runs, rest) = >>=-eq-ok (on_event serialize deserialize s e) _ h in
      let (r', others, last) = >>=-eq-ok (run serialize deserialize r.0 es) _ rest in
      let (m, ids₁, next₁) = on_event-Advances s r.0 e r.1 runs in
      let (n, ids₂, next₂) = committed_consecutive es r.0 r'.0 r'.1 others in
      let is = ok-injective last in
      (
        m + n,
        sym (ap (λ x. x.1) is)
            ∙ ap₂ ◌++◌ ids₁ (ids₂ ∙ ap (from n) next₁)
            ∙ from-append m n s.next_to_commit,
        sym (ap (λ x. x.0.next_to_commit) is) ∙ next₂ ∙ omega (arith, next₁),
      )

  -- The head, whose turn the block of id `next_to_commit` is, gets this block and then the tail's
  -- message for it, where the message decodes to the id and the id fits a u64: both calls succeed, the
  -- block is ready to commit, and committing it returns its id and its transactions.
  pub acknowledged_commits :
      (s : State) (blk : Block) (ctx : BlkCtx) (content : List ℕ)
      → s.role ≡ Role.head
      → ctx.id ≡ s.next_to_commit
      → ltb s.next_to_commit (2 ^ 64) ≡ true
      → deserialize content ≡ ok ctx.id
      → (s₁ : State) × (s₂ : State) × (s₃ : State) × (new_tail serialize s ((blk, ctx) ∷ [])
          ≡ ok (s₁, none))
        × (handle_peer_msg deserialize s₁ s.tail content ≡ ok s₂)
        × (is_commit_ready s₂ ≡ true)
        × (next_to_commit s₂ ≡ ok (s₃, (ctx.id, blk.txns)))
  unfolding new_tail take_block handle_peer_msg is_commit_ready next_to_commit contains_key
  acknowledged_commits s blk ctx content is_head is_next fits decodes =
      let blks = insert ctx.id blk s.inflight_blks in
      let ready = HashSet.insert ctx.id s.commit_ready in
      let s₁ = record s { inflight_blks = blks } in
      let s₂ = record s₁ { commit_ready = ready } in
      let found : get ctx.id blks ≡ some blk =
        ground (arith, get-insert ctx.id ctx.id blk s.inflight_blks, eq_refl ctx.id) in
      let there : contains s.next_to_commit ready ≡ true =
        ground (
          arith,
          contains-insert ctx.id s.next_to_commit s.commit_ready,
          eq_refl ctx.id,
          is_next,
        ) in
      let found' : get s.next_to_commit blks ≡ some blk =
        subst (λ i. get i blks ≡ some blk) is_next found in
      let wide : ltb (s.next_to_commit + 1) (2 ^ 256) ≡ true = ground arith in
      (
        s₁,
        s₂,
        committed s₂ (s.next_to_commit + 1),
        rw is_head refl,
        rw is_head (rw (eq_refl s.tail) (rw decodes (rw found refl))),
        there,
        rw there (rw found' (rw wide (rw fits (rw is_next refl)))),
      )
