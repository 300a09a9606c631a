-- ===== src/TxnValidation/Known.antt =====
-- How many of the transactions that a node has heard of are not in its pool yet: the measure by
-- which the recursion of `validate_inner` ends.
use cbox.Base.{
  ℕ, ◌+◌, ◌≤◌, ◌<◌, List, [], ◌∷◌, none, some, true, false, Bool, ◌≡◌, nat_eq, ◌==◌, arith, All,
  length, Option-cases, Bool-cases, inl, inr,
}
use cbox.Base.HashMap.{get, insert, contains_key, or_insert, get_or_empty, get-insert, get-remove}
use cbox.Base.HashSet.{contains}
use cbox.Protocol.{Hash, Txn, TxnCtx, NodeId}
use cbox.TxnValidation.Pool.{
  TxnPool, Entry, Siblings, State, entry_id, joined, add_pending, add_pendings, admit,
}

abbrev count_absent : Bool → ℕ
count_absent true = 0
count_absent false = 1

unfoldable pub unknown : List Hash → TxnPool → ℕ
unknown [] pool = 0
unknown (h ∷ hs) pool = count_absent (contains_key h pool) + unknown hs pool

pub unknown-le-length : (hs : List Hash) (pool : TxnPool) → unknown hs pool ≤ length hs
unfolding unknown
unknown-le-length [] pool = omega arith
unknown-le-length (h ∷ hs) pool = ground (arith, unknown-le-length hs pool)

module _ (k : Hash) (v : Txn × TxnCtx) (pool : TxnPool) where
  unknown-insert-le : (hs : List Hash) → unknown hs (insert k v pool) ≤ unknown hs pool
  unfolding unknown contains_key
  unknown-insert-le [] = omega arith
  unknown-insert-le (h ∷ hs) = ground (arith, get-insert k h v pool, unknown-insert-le hs)

  pub unknown-insert-lt :
      (hs : List Hash)
      → contains k hs ≡ true
      → get k pool ≡ none
      → unknown hs (insert k v pool) < unknown hs pool
  unfolding unknown contains_key contains
  unknown-insert-lt [] heard new = absurd (cc heard)
  unknown-insert-lt (h ∷ hs) heard new =
      ground (arith, get-insert k h v pool, unknown-insert-le hs, unknown-insert-lt hs)

-- A transaction that waits is a client's and its hash is among those heard of.
abbrev pub Heard {ℓ} : (Txn → Type ℓ) → List Hash → Txn × TxnCtx → Type ℓ
Heard IsClient hs t = IsClient t.0 × (contains t.1.id hs ≡ true)

abbrev pub AllHeard {ℓ} : (Txn → Type ℓ) → List Hash → Siblings → Type ℓ
AllHeard IsClient hs = All (λ (w : Hash × ((Txn × TxnCtx) × NodeId)). Heard IsClient hs w.1.0)

module _ {ℓ} (IsClient : Txn → Type ℓ) where
  abbrev pub HoldsClients : TxnPool → Type ℓ
  HoldsClients pool = (h : Hash) (e : Txn × TxnCtx) → get h pool ≡ some e → IsClient e.0

  module _ (hs : List Hash) where
    pub record IsKnown (s : State) : Type ℓ where
      pub clients : HoldsClients s.txn_pool
      pub waiting :
          (dep : Hash) (w : Siblings) → get dep s.pending_txns ≡ some w → AllHeard IsClient hs w

    insert-AllHeard :
        (k : Hash) (c : (Txn × TxnCtx) × NodeId) (w : Siblings)
        → Heard IsClient hs c.0
        → AllHeard IsClient hs w
        → AllHeard IsClient hs (insert k c w)
    unfolding insert
    insert-AllHeard k c [] heard all = (heard, tt)
    insert-AllHeard k c ((j, d) ∷ w) heard all = elim (Bool-cases (j == k)) [
      | inl same ↦ rw same (heard, all.1)
      | inr other ↦ rw other (all.0, insert-AllHeard k c w heard all.1)
    ]

    pub get_or_empty-AllHeard :
        (s : State) (dep : Hash)
        → IsKnown s
        → AllHeard IsClient hs (get_or_empty (get dep s.pending_txns))
    get_or_empty-AllHeard s dep known = elim (Option-cases (get dep s.pending_txns)) [
      | inl nothing ↦ rw nothing tt
      | inr (w, found) ↦ rw found (known.waiting dep w found)
    ]

    module _ (e : Entry) (heard : Heard IsClient hs e.1) where
      joined-AllHeard :
          (s : State) (dep : Hash) → IsKnown s → AllHeard IsClient hs (joined e s.pending_txns dep)
      unfolding joined or_insert
      joined-AllHeard s dep known =
          let old = get_or_empty (get dep s.pending_txns) in
          let all : AllHeard IsClient hs old = get_or_empty-AllHeard s dep known in
          elim (Bool-cases (contains_key (entry_id e) old)) [
            | inl there ↦ rw there all
            | inr new ↦ rw new (insert-AllHeard (entry_id e) (e.1, e.0) old heard all)
          ]

      add_pending-IsKnown :
          (s : State) (dep : Hash)
          → IsKnown s
          → IsKnown (record s { pending_txns = add_pending e s.pending_txns dep })
      unfolding add_pending
      add_pending-IsKnown s dep known = record {
        clients = known.clients;
        waiting = λ d w found.
            let law = get-insert dep d (joined e s.pending_txns dep) s.pending_txns in
            elim (Bool-cases (dep == d)) [
              | inl same ↦
                  let is : joined e s.pending_txns dep ≡ w = ground (arith, law) in
                  rw is at (joined-AllHeard s dep known)
              | inr other ↦ known.waiting d w (ground (arith, law))
            ];
      }

      pub add_pendings-IsKnown :
          (s : State) (deps : List Hash)
          → IsKnown s
          → IsKnown (record s { pending_txns = add_pendings e s.pending_txns deps })
      unfolding add_pendings
      add_pendings-IsKnown s [] known = known
      add_pendings-IsKnown s (dep ∷ deps) known =
          add_pendings-IsKnown (record s { pending_txns = add_pending e s.pending_txns dep }) deps
            (add_pending-IsKnown s dep known)

      pub admit-IsKnown : (s : State) → IsKnown s → IsKnown (admit s e)
      unfolding admit
      admit-IsKnown s known = record {
        clients = λ h t found.
            let law = get-insert (entry_id e) h e.1 s.txn_pool in
            elim (Bool-cases (entry_id e == h)) [
              | inl same ↦ let is : e.1 ≡ t = ground (arith, law) in rw is at heard.0
              | inr other ↦ known.clients h t (ground (arith, law))
            ];
        waiting = λ d w found.
            known.waiting d w (ground (arith, get-remove (entry_id e) d s.pending_txns));
      }
