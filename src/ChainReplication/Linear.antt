-- ===== src/ChainReplication/Linear.antt =====
-- src/stage/consensus/block_dissemination/linear.rs: LinearBlockDissemination.
use cbox.Base.{
  ℕ, zero, suc, List, [], ◌∷◌, ◌++◌, Option, none, some, true, false, ◌≡◌, refl, sym, Outcome, ok,
  panic, stuck, assert, ◌>>=◌, ◌>>◌, ◌==◌, nat_eq, if◌then◌else◌, length, arith, eq→path, eq_refl,
  append_assoc, subst,
}
use cbox.Base.HashSet.{contains, IsDistinct}
use cbox.Protocol.{NodeId, Block}
use cbox.ChainReplication.Decide.{first?}

pub record State : Type 0 where
  pub prev : NodeId
  pub next : Option NodeId

-- The loop of the constructor, where `before` is the node before the rest of the order.
unfoldable pub locate : NodeId → NodeId → List NodeId → Outcome State
locate me before [] = panic
locate me before (n ∷ rest) =
    let located = locate me n rest in
    if n == me then ok (record { prev = before; next = first? rest }) else located

-- The first node counts as its own predecessor.
unfoldable pub new : NodeId → List NodeId → Outcome State
new me [] = panic
new me (n ∷ rest) = locate me n (n ∷ rest)

-- What is sent, with where to.
unfoldable pub disseminate : State → NodeId → Block → Outcome (Option (NodeId × Block))
disseminate s src blk = do
  assert (src == s.prev)
  ok (elim s.next [ none ↦ none | some next ↦ some (next, blk) ])

-- A block on its way: the node `me` has it from `src`. The nodes that it comes to, in turn.
unfoldable pub relay : ℕ → List NodeId → NodeId → NodeId → Block → Outcome (List NodeId)
relay zero order src me blk = stuck
relay (suc fuel) order src me blk = do
  s ← new me order
  sent ← disseminate s src blk
  elim sent [
    | none ↦ ok (me ∷ [])
    | some (next, blk') ↦ do rest ← relay fuel order me next blk'; ok (me ∷ rest)
  ]

abbrev last_or : NodeId → List NodeId → NodeId
last_or before [] = before
last_or before (n ∷ ns) = last_or n ns

-- The node before this one, in an order that begins with `front` and goes on with this one.
abbrev before_in : List NodeId → NodeId → NodeId
before_in [] me = me
before_in (n ∷ ns) me = last_or n ns

last_or-append : (n : NodeId) (ns : List NodeId) (m : NodeId) → last_or n (ns ++ m ∷ []) ≡ m
last_or-append n [] m = refl
last_or-append n (k ∷ ns) m = last_or-append k ns m

before_in-append : (front : List NodeId) (m k : NodeId) → before_in (front ++ m ∷ []) k ≡ m
before_in-append [] m k = refl
before_in-append (n ∷ ns) m k = last_or-append n ns m

contains-middle :
    (front : List NodeId) (m : NodeId) (rest : List NodeId) → contains m (front ++ m ∷ rest) ≡ true
unfolding contains
contains-middle [] m rest = ground (arith, eq_refl m)
contains-middle (n ∷ ns) m rest = ground (arith, contains-middle ns m rest)

IsDistinct-front :
    (front : List NodeId) (m : NodeId) (rest : List NodeId)
    → IsDistinct (front ++ m ∷ rest)
    → contains m front ≡ false
unfolding contains
IsDistinct-front [] m rest distinct = refl
IsDistinct-front (n ∷ ns) m rest distinct = ground (
  arith,
  IsDistinct-front ns m rest distinct.1,
  distinct.0,
  contains-middle ns m rest,
  eq→path n m,
)

locate_lem :
    (front : List NodeId) (me before : NodeId) (rest : List NodeId)
    → contains me front ≡ false
    → locate me before (front ++ me ∷ rest)
      ≡ ok (record { prev = last_or before front; next = first? rest })
unfolding locate contains
locate_lem [] me before rest absent = rw (eq_refl me) refl
locate_lem (n ∷ ns) me before rest absent =
    let other : (n == me) ≡ false = ground arith in
    let later : contains me ns ≡ false = ground arith in rw other (locate_lem ns me n rest later)

new_lem :
    (front : List NodeId) (me : NodeId) (rest : List NodeId)
    → contains me front ≡ false
    → new me (front ++ me ∷ rest) ≡ ok (record { prev = before_in front me; next = first? rest })
unfolding new
new_lem [] me rest absent = locate_lem [] me me rest absent
new_lem (n ∷ ns) me rest absent = locate_lem (n ∷ ns) me n rest absent

relay_from :
    (front : List NodeId) (me : NodeId) (rest : List NodeId) (blk : Block)
    → IsDistinct (front ++ me ∷ rest)
    → relay (length (me ∷ rest)) (front ++ me ∷ rest) (before_in front me) me blk ≡ ok (me ∷ rest)
unfolding relay disseminate
relay_from front me [] blk distinct =
    rw (new_lem front me [] (IsDistinct-front front me [] distinct))
      (rw (eq_refl (before_in front me)) refl)
relay_from front me (k ∷ rest) blk distinct =
    let assoc : (front ++ me ∷ []) ++ k ∷ rest ≡ front ++ me ∷ k ∷ rest =
      append_assoc front (me ∷ []) (k ∷ rest) in
    let onward : relay (length (k ∷ rest)) (front ++ me ∷ k ∷ rest) me k blk ≡ ok (k ∷ rest) =
      subst (λ order. relay (length (k ∷ rest)) order me k blk ≡ ok (k ∷ rest)) assoc
        (subst
          (λ src.
            relay (length (k ∷ rest)) ((front ++ me ∷ []) ++ k ∷ rest) src k blk ≡ ok (k ∷ rest))
          (before_in-append front me k)
          (relay_from (front ++ me ∷ []) k rest blk (subst IsDistinct (sym assoc) distinct))) in
    rw (new_lem front me (k ∷ rest) (IsDistinct-front front me (k ∷ rest) distinct))
      (rw (eq_refl (before_in front me)) (rw (onward, relay) refl))

-- In an order of distinct nodes, a block of the first one, which it has from itself, comes to all
-- nodes, to each once, and in the order; no node panics, and each takes it from the one before.
pub relay_lem :
    (first : NodeId) (rest : List NodeId) (blk : Block)
    → IsDistinct (first ∷ rest)
    → relay (length (first ∷ rest)) (first ∷ rest) first first blk ≡ ok (first ∷ rest)
relay_lem first rest blk distinct = relay_from [] first rest blk distinct
