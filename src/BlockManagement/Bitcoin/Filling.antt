-- ===== src/BlockManagement/Bitcoin/Filling.antt =====
-- `prepare_new_block` when the queue can be paid for in its order.
use cbox.Base.{
  ℕ, suc, List, [], ◌∷◌, ◌++◌, some, Bool, true, false, not, ◌≡◌, refl, sym, ap, ◌∙◌, ◌&&◌, ◌||◌,
  ◌⊎◌, inl, inr, Outcome, ok, ◌==◌, nat_eq, list_eq, pair_eq, arith, eq→path, eq_refl, subst,
  Bool-cases, Option-cases, length, All, append-nil, append_assoc, ltb, ◌+◌, ◌%◌, some_unique,
}
use cbox.Base.HashMap.{is_some}
use cbox.Base.HashSet.{contains, IsDistinct}
use cbox.Protocol.{Hash, Txn, BitcoinTxn, as_bitcoin}
use cbox.BlockManagement.Bitcoin.{State, u64}
use cbox.BlockManagement.Bitcoin.Utxo.{inputs_of, script_succeeds, is_incentive}
use cbox.BlockManagement.Bitcoin.Ledger.{Ledger, pay, pay_all}
use cbox.BlockManagement.Bitcoin.Propose.{
  CurBlockState, is_available, all_available, include, fill, max_block_size, prepare_new_block,
}
use cbox.BlockManagement.Bitcoin.Building.{
  Pooled, Builds, IsUnmade, include-Builds, try_txn-include,
}
use cbox.BlockManagement.Bitcoin.Accepting.{accepted_of_pay, IsUnmade-include}

module _ (size_of : Txn → ℕ) where
  IsUnmade-rest :
      (s : State) (h : Hash) (txn : Txn) (btc : BitcoinTxn) (hs : List Hash)
      → all_available s (inputs_of btc) ≡ true
      → contains h hs ≡ false
      → All (IsUnmade s) hs
      → All (IsUnmade (include size_of s h txn btc)) hs
  unfolding contains
  IsUnmade-rest s h txn btc [] all absent each = tt
  IsUnmade-rest s h txn btc (j ∷ hs) all absent each =
      let other : (h == j) ≡ false = ground (arith, eq→path j h, eq→path h j, eq_refl j) in
      (
        IsUnmade-include size_of s h j txn btc other all each.0,
        IsUnmade-rest s h txn btc hs all (ground arith) each.1,
      )

  -- The size of a block that has this size and takes these transactions.
  abbrev pub sized : ℕ → List (Hash × BitcoinTxn) → ℕ
  sized size [] = size
  sized size ((id, btc) ∷ ts) = sized ((size + size_of (Txn.bitcoin btc)) % u64) ts

  -- Each of these transactions is taken while the block is not yet over its size.
  abbrev pub HasRoom : ℕ → List (Hash × BitcoinTxn) → Type 0
  HasRoom size [] = Unit
  HasRoom size ((id, btc) ∷ ts) =
      (ltb max_block_size size ≡ false) × HasRoom ((size + size_of (Txn.bitcoin btc)) % u64) ts

  txn_of_as_bitcoin :
      (txn : Txn) (btc : BitcoinTxn) → as_bitcoin txn ≡ some btc → txn ≡ Txn.bitcoin btc
  unfolding as_bitcoin
  txn_of_as_bitcoin (Txn.bitcoin b) btc h = ap Txn.bitcoin (some_unique refl h)
  txn_of_as_bitcoin (Txn.avalanche a) btc h = cc
  txn_of_as_bitcoin (Txn.dummy d) btc h = cc

  -- The call takes transactions off the front of the queue into the block, as many as there are, or
  -- until the block is over its size.
  abbrev pub Filled :
      ℕ
      → Ledger
      → List (Hash × BitcoinTxn)
      → List (Hash × BitcoinTxn)
      → Outcome (State × (CurBlockState × Bool))
      → Type 0
  Filled size V ts queue result =
      (s' : State) × (blk_full : CurBlockState) × (modified : Bool) × (taken : List
        (Hash × BitcoinTxn))
      × (left : List (Hash × BitcoinTxn)) × (W : Ledger) × (result ≡ ok (s', (blk_full, modified)))
      × (queue ≡ taken ++ left)
      × Builds V W (ts ++ taken) s'
      × Pooled s'.txn_pool s'.pending_txns left
      × (s'.block_size ≡ sized size taken)
      × HasRoom size taken
      × (((blk_full ≡ CurBlockState.full) × (ltb max_block_size s'.block_size ≡ true))
          ⊎ ((blk_full ≡ CurBlockState.empty_mempool)
              × (left ≡ [])
              × (ltb max_block_size s'.block_size ≡ false)))

  fill_queue :
      (hs : List Hash) (queue : List (Hash × BitcoinTxn)) (s : State) (V W : Ledger)
      (ts : List (Hash × BitcoinTxn)) (W' : Ledger) (modified : Bool)
      → Builds V W ts s
      → Pooled s.txn_pool hs queue
      → All (λ (t : Hash × BitcoinTxn). is_incentive t.1 ≡ false) queue
      → All (IsUnmade s) hs
      → IsDistinct hs
      → pay_all W queue ≡ some W'
      → Filled s.block_size V ts queue
          (fill size_of (suc (length queue)) (record s { pending_txns = hs }) modified)
  unfolding fill is_available include
  fill_queue [] (t ∷ queue) s V W ts W' modified builds pooled clients unmade distinct pays =
      absurd pooled
  fill_queue (h ∷ hs) [] s V W ts W' modified builds pooled clients unmade distinct pays =
      absurd pooled
  fill_queue [] [] s V W ts W' modified builds pooled clients unmade distinct pays =
      elim (Bool-cases (ltb max_block_size s.block_size)) [
        | inl over ↦ (
          record s { pending_txns = [] },
          CurBlockState.full,
          modified,
          [],
          [],
          W,
          rw over refl,
          refl,
          stay,
          tt,
          refl,
          tt,
          inl (refl, over),
        )
        | inr room ↦ (
          record s { pending_txns = [] },
          CurBlockState.empty_mempool,
          modified,
          [],
          [],
          W,
          rw room refl,
          refl,
          stay,
          tt,
          refl,
          tt,
          inr (refl, refl, room),
        )
      ]
    where
      stay : Builds V W (ts ++ []) (record s { pending_txns = [] })
      stay =
          subst (λ l. Builds V W l (record s { pending_txns = [] })) (sym (append-nil ts))
            (record { pooled = builds.pooled; pays = builds.pays; same = builds.same })
  fill_queue (h ∷ hs) ((id, btc) ∷ queue) s V W ts W' modified builds pooled clients unmade distinct
        pays =
      elim (Bool-cases (ltb max_block_size s.block_size)) [
        | inl over ↦ (
          record s { pending_txns = h ∷ hs },
          CurBlockState.full,
          modified,
          [],
          (id, btc) ∷ queue,
          W,
          rw over refl,
          refl,
          subst (λ l. Builds V W l (record s { pending_txns = h ∷ hs })) (sym (append-nil ts))
              (record { pooled = builds.pooled; pays = builds.pays; same = builds.same }),
          pooled,
          refl,
          tt,
          inl (refl, over),
        )
        | inr room ↦ elim (Option-cases (pay W (id, btc))) [
          | inl short ↦ absurd (cc (rw (short, pay_all) at pays))
          | inr (W₀, first) ↦
              let ((txn, ctx, found, is_btc, is_id, is_key), others) = pooled in
              let s₀ : State = record s { pending_txns = hs } in
              let builds₀ : Builds V W ts s₀ = record {
                pooled = builds.pooled;
                pays = builds.pays;
                same = builds.same;
              } in
              let (all, runs, once) = accepted_of_pay s₀ W id btc W₀ builds₀.same first in
              let accepted : (all_available s₀ (inputs_of btc) && script_succeeds btc) ≡ true =
                ground arith in
              let (W₁, pays₁, builds₁) =
                include-Builds size_of s₀ V W ts h txn ctx btc builds₀ found is_btc
                  (is_id ∙ sym is_key) once unmade.0 accepted in
              let s₁ = include size_of s₀ h txn btc in
              let grown : s₁.block_size ≡ (s.block_size + size_of (Txn.bitcoin btc)) % u64 =
                ap (λ x. (s.block_size + size_of x) % u64) (txn_of_as_bitcoin txn btc is_btc) in
              let first₁ : pay W (id, btc) ≡ some W₁ =
                subst (λ i. pay W (i, btc) ≡ some W₁) is_key pays₁ in
              let (
                s', blk_full, m, taken, left, Wn, runs', split, builds', pooled', is_size, has_room,
                last,
              ) =
                fill_queue hs queue s₁ V W₁ (ts ++ (id, btc) ∷ []) W' (modified || true)
                  (subst (λ i. Builds V W₁ (ts ++ (i, btc) ∷ []) s₁) is_key builds₁) others
                  clients.1 (IsUnmade-rest s₀ h txn btc hs all distinct.0 unmade.1) distinct.1
                  (rw (first₁, pay_all) at pays) in
              (
                s',
                blk_full,
                m,
                (id, btc) ∷ taken,
                left,
                Wn,
                rw room (
                    rw (try_txn-include size_of s₀ h txn ctx btc found is_btc clients.0 accepted)
                      runs'),
                ap (λ r. (id, btc) ∷ r) split,
                subst (λ l. Builds V Wn l s') (append_assoc ts ((id, btc) ∷ []) taken) builds',
                pooled',
                subst (λ n. s'.block_size ≡ sized n taken) grown is_size,
                (room, subst (λ n. HasRoom n taken) grown has_room),
                last,
              )
        ]
      ]

  -- What `prepare_new_block` comes to: it has put `taken` into the block, and `left` is still queued.
  abbrev pub Prepared :
      ℕ
      → Ledger
      → List (Hash × BitcoinTxn)
      → List (Hash × BitcoinTxn)
      → Outcome (State × CurBlockState)
      → Type 0
  Prepared size V ts queue result =
      (s' : State) × (blk_full : CurBlockState) × (taken : List (Hash × BitcoinTxn)) × (left : List
        (Hash × BitcoinTxn))
      × (W : Ledger) × (result ≡ ok (s', blk_full))
      × (queue ≡ taken ++ left)
      × Builds V W (ts ++ taken) s'
      × Pooled s'.txn_pool s'.pending_txns left
      × (s'.block_size ≡ sized size taken)
      × HasRoom size taken
      × (((blk_full ≡ CurBlockState.full) × (ltb max_block_size s'.block_size ≡ true))
          ⊎ ((blk_full ≡ CurBlockState.empty_mempool)
              × (left ≡ [])
              × (ltb max_block_size s'.block_size ≡ false)))

  -- Where the block under construction has transactions `ts` that lead from the ledger `V` to `W`, the
  -- queued transactions are distinct clients' ones of the pool, none of whose outputs was made yet, and
  -- they can be paid for from `W` in their order: with one more round than there are of them,
  -- `prepare_new_block` returns, having put them into the block in that order, either all of them, and it
  -- reports an empty queue and the block is not over the size of a block, or as many as it took to go
  -- over that size, and it reports a full block. None is put into a block that is already over it; the
  -- others are still queued, and the block leads from `V` to what can be spent.
  pub prepare_new_block-Prepared :
      (s : State) (V W : Ledger) (ts queue : List (Hash × BitcoinTxn)) (W' : Ledger)
      (merkle_root : Hash) (pow_time : ℕ × ℕ)
      → Builds V W ts s
      → Pooled s.txn_pool s.pending_txns queue
      → All (λ (t : Hash × BitcoinTxn). is_incentive t.1 ≡ false) queue
      → All (IsUnmade s) s.pending_txns
      → IsDistinct s.pending_txns
      → pay_all W queue ≡ some W'
      → Prepared s.block_size V ts queue
          (prepare_new_block size_of (suc (length queue)) s merkle_root pow_time)
  unfolding prepare_new_block is_available
  prepare_new_block-Prepared s V W ts queue W' root pow builds pooled clients unmade distinct pays =
      let (
        s', blk_full, m, taken, left, Wn, runs, split, builds', pooled', is_size, has_room, last,
      ) =
        fill_queue s.pending_txns queue s V W ts W' false builds pooled clients unmade distinct
          pays in
      elim (Bool-cases (m || not (is_some s'.pow_time))) [
        | inl fresh ↦ (
          record s' { merkle_root = some root; pow_time = some pow },
          blk_full,
          taken,
          left,
          Wn,
          rw runs (rw fresh refl),
          split,
          record { pooled = builds'.pooled; pays = builds'.pays; same = builds'.same },
          pooled',
          is_size,
          has_room,
          last,
        )
        | inr same ↦ (
          s',
          blk_full,
          taken,
          left,
          Wn,
          rw runs (rw same refl),
          split,
          builds',
          pooled',
          is_size,
          has_room,
          last,
        )
      ]
