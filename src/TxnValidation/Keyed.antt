-- ===== src/TxnValidation/Keyed.antt =====
-- The transactions that wait, each under its own id for every input that it lacks.
use cbox.Base.{
  List, [], ◌∷◌, some, true, ◌≡◌, ◌≢◌, refl, sym, inl, inr, ◌==◌, nat_eq, eq→path, Bool-cases,
  Option-cases, subst, arith, All,
}
use cbox.Base.HashMap.{HashMap, get, insert, contains_key, or_insert, get_or_empty, get-insert}
use cbox.Protocol.{Hash, NodeId, Txn, TxnCtx}
use cbox.TxnValidation.Pool.{Entry, Siblings, entry_id, joined, add_pending, add_pendings}

-- Each transaction stands under its own id.
abbrev pub AreKeyed : Siblings → Type 0
AreKeyed = All (λ (w : Hash × ((Txn × TxnCtx) × NodeId)). w.0 ≡ w.1.0.1.id)

abbrev pub IsKeyed : HashMap Hash Siblings → Type 0
IsKeyed pending = (dep : Hash) (w : Siblings) → get dep pending ≡ some w → AreKeyed w

-- A transaction of this id waits for an input.
abbrev pub Waits : HashMap Hash Siblings → Hash → Type 0
Waits pending h =
    (dep : Hash) × (w : Siblings) × (get dep pending ≡ some w) × (contains_key h w ≡ true)

insert-AreKeyed :
    (e : Entry) (w : Siblings) → AreKeyed w → AreKeyed (insert (entry_id e) (e.1, e.0) w)
unfolding insert
insert-AreKeyed e [] keyed = (refl, tt)
insert-AreKeyed e ((j, d) ∷ w) keyed = elim (Bool-cases (j == entry_id e)) [
  | inl same ↦ rw same (refl, keyed.1)
  | inr other ↦ rw other (keyed.0, insert-AreKeyed e w keyed.1)
]

joined-AreKeyed :
    (e : Entry) (pending : HashMap Hash Siblings) (dep : Hash)
    → IsKeyed pending
    → AreKeyed (joined e pending dep)
unfolding joined or_insert
joined-AreKeyed e pending dep keyed =
    elim (Bool-cases (contains_key (entry_id e) (get_or_empty (get dep pending)))) [
      | inl there ↦ rw there old
      | inr new ↦ rw new (insert-AreKeyed e (get_or_empty (get dep pending)) old)
    ]
  where
    old : AreKeyed (get_or_empty (get dep pending))
    old = elim (Option-cases (get dep pending)) [
      | inl nothing ↦ rw nothing tt
      | inr (w, found) ↦ rw found (keyed dep w found)
    ]

contains_key-or_insert :
    (k h : Hash) (v : (Txn × TxnCtx) × NodeId) (m : Siblings)
    → contains_key h m ≡ true
    → contains_key h (or_insert k v m) ≡ true
unfolding or_insert contains_key
contains_key-or_insert k h v m has = ground (arith, get-insert k h v m)

contains_key-or_insert_same :
    (k : Hash) (v : (Txn × TxnCtx) × NodeId) (m : Siblings)
    → contains_key k (or_insert k v m) ≡ true
unfolding or_insert contains_key
contains_key-or_insert_same k v m = ground (arith, get-insert k k v m)

module _ (e : Entry) where
  add_pending-IsKeyed :
      (pending : HashMap Hash Siblings) (dep : Hash)
      → IsKeyed pending
      → IsKeyed (add_pending e pending dep)
  unfolding add_pending
  add_pending-IsKeyed pending dep keyed d w found =
      let law = get-insert dep d (joined e pending dep) pending in
      elim (Bool-cases (dep == d)) [
        | inl same ↦
            let is : joined e pending dep ≡ w = ground (arith, law) in
            subst AreKeyed is (joined-AreKeyed e pending dep keyed)
        | inr other ↦ keyed d w (ground (arith, law))
      ]

  add_pending-Waits :
      (pending : HashMap Hash Siblings) (dep h : Hash)
      → Waits pending h
      → Waits (add_pending e pending dep) h
  unfolding add_pending joined
  add_pending-Waits pending dep h (d, w, found, has) =
      let law = get-insert dep d (joined e pending dep) pending in
      elim (Bool-cases (dep == d)) [
        | inl same ↦
            let is : get dep pending ≡ some w =
              subst (λ i. get i pending ≡ some w) (sym (eq→path dep d same)) found in
            (
              dep,
              joined e pending dep,
              ground (arith, get-insert dep dep (joined e pending dep) pending),
              contains_key-or_insert (entry_id e) h (e.1, e.0) (get_or_empty (get dep pending))
                  (rw is has),
            )
        | inr other ↦ (d, w, ground (arith, law), has)
      ]

  add_pending-joins :
      (pending : HashMap Hash Siblings) (dep : Hash)
      → Waits (add_pending e pending dep) (entry_id e)
  unfolding add_pending joined
  add_pending-joins pending dep = (
    dep,
    joined e pending dep,
    ground (arith, get-insert dep dep (joined e pending dep) pending),
    contains_key-or_insert_same (entry_id e) (e.1, e.0) (get_or_empty (get dep pending)),
  )

  pub add_pendings-IsKeyed :
      (pending : HashMap Hash Siblings) (deps : List Hash)
      → IsKeyed pending
      → IsKeyed (add_pendings e pending deps)
  unfolding add_pendings
  add_pendings-IsKeyed pending [] keyed = keyed
  add_pendings-IsKeyed pending (dep ∷ deps) keyed =
      add_pendings-IsKeyed (add_pending e pending dep) deps (add_pending-IsKeyed pending dep keyed)

  pub add_pendings-Waits :
      (pending : HashMap Hash Siblings) (deps : List Hash) (h : Hash)
      → Waits pending h
      → Waits (add_pendings e pending deps) h
  unfolding add_pendings
  add_pendings-Waits pending [] h waits = waits
  add_pendings-Waits pending (dep ∷ deps) h waits =
      add_pendings-Waits (add_pending e pending dep) deps h (add_pending-Waits pending dep h waits)

  pub add_pendings-joins :
      (pending : HashMap Hash Siblings) (deps : List Hash)
      → deps ≢ []
      → Waits (add_pendings e pending deps) (entry_id e)
  unfolding add_pendings
  add_pendings-joins pending [] some_dep = absurd (some_dep refl)
  add_pendings-joins pending (dep ∷ deps) some_dep =
      add_pendings-Waits (add_pending e pending dep) deps (entry_id e)
        (add_pending-joins pending dep)
