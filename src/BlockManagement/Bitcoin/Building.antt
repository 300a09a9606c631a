-- ===== src/BlockManagement/Bitcoin/Building.antt =====
-- The block under construction, against the ledger.
use cbox.Base.{
  ℕ, List, [], ◌∷◌, ◌++◌, some, true, false, not, ◌≡◌, refl, sym, ap, ◌∙◌, ◌&&◌, ◌||◌, ok, ◌⊎◌,
  nat_eq, list_eq, pair_eq, arith, eq→path, subst, Bool-cases, Option-cases, inl, inr,
  some-injective,
}
use cbox.Base.HashMap.{get}
use cbox.Base.HashSet.{contains, contains-extend, IsDistinct}
use cbox.Protocol.{Hash, PubKey, Txn, TxnCtx, BitcoinTxn, as_bitcoin}
use cbox.BlockManagement.Bitcoin.{Utxo, State, TxnPool}
use cbox.BlockManagement.Bitcoin.Utxo.{inputs_of, outputs_of, script_succeeds, is_incentive}
use cbox.BlockManagement.Bitcoin.Ledger.{Ledger, take, take_all, put_all, pay, pay_all}
use cbox.BlockManagement.Bitcoin.Payments.{put_all_lem, take_all_lem}
use cbox.BlockManagement.Bitcoin.Undoing.{AreLive, IsDistinct-AreLive}
use cbox.BlockManagement.Bitcoin.Propose.{is_available, all_available, include, defer, try_txn}

-- These hashes are in the pool with these Bitcoin transactions.
abbrev pub Pooled : TxnPool → List Hash → List (Hash × BitcoinTxn) → Type 0
Pooled pool [] [] = Unit
Pooled pool [] (t ∷ ts) = ⊥
Pooled pool (h ∷ hs) [] = ⊥
Pooled pool (h ∷ hs) (t ∷ ts) =
    ((txn : Txn) × (ctx : TxnCtx) × (get h pool ≡ some (txn, ctx))
      × (as_bitcoin txn ≡ some t.1)
      × (ctx.id ≡ t.0)
      × (h ≡ t.0))
    × Pooled pool hs ts

-- The block under construction has these transactions, which can be paid for from the ledger `V` of
-- the node's chain, and the outputs that can still be spent are those on the ledger `W` after them.
pub record Builds (V W : Ledger) (ts : List (Hash × BitcoinTxn)) (s : State) : Type 0 where
  pub pooled : Pooled s.txn_pool s.block_under_construction ts
  pub pays : pay_all V ts ≡ some W
  pub same : (x : Utxo) → is_available s x ≡ W x

-- No output of the transaction of this hash was made yet.
abbrev pub IsUnmade : State → Hash → Type 0
IsUnmade s h =
    (k : PubKey)
    → (contains (h, k) s.utxo ≡ false)
      × (contains (h, k) s.new_utxo ≡ false)
      × (contains (h, k) s.utxo_spent ≡ false)

Pooled-append :
    (pool : TxnPool) (hs : List Hash) (ts : List (Hash × BitcoinTxn)) (h : Hash)
    (t : Hash × BitcoinTxn)
    → Pooled pool hs ts
    → Pooled pool (h ∷ []) (t ∷ [])
    → Pooled pool (hs ++ h ∷ []) (ts ++ t ∷ [])
Pooled-append pool [] [] h t each last = last
Pooled-append pool [] (u ∷ ts) h t each last = absurd each
Pooled-append pool (j ∷ hs) [] h t each last = absurd each
Pooled-append pool (j ∷ hs) (u ∷ ts) h t each last =
    (each.0, Pooled-append pool hs ts h t each.1 last)

pay_all-append :
    (V W : Ledger) (ts : List (Hash × BitcoinTxn)) (t : Hash × BitcoinTxn)
    → pay_all V ts ≡ some W
    → pay_all V (ts ++ t ∷ []) ≡ pay_all W (t ∷ [])
pay_all-append V W [] t h = ap (λ X. pay_all X (t ∷ [])) (some-injective V W h)
pay_all-append V W (u ∷ ts) t h = elim (Option-cases (pay V u)) [
  | inl short ↦ absurd (cc (rw (short, pay_all) at h))
  | inr (V', first) ↦ rw (first, pay_all) (pay_all-append V' W ts t (rw (first, pay_all) at h))
]

-- An output of a transaction carries its hash.
pub outputs_of-id :
    (h i : Hash) (k : PubKey) (btc : BitcoinTxn) → contains (i, k) (outputs_of h btc) ≡ true → h ≡ i
unfolding outputs_of contains
outputs_of-id h i k (BitcoinTxn.send s ins r out rem sig n t ok?) c = ground (arith, eq→path h i)
outputs_of-id h i k (BitcoinTxn.grant out r) c = ground (arith, eq→path h i)
outputs_of-id h i k (BitcoinTxn.incentive out r) c = ground (arith, eq→path h i)

pub all_available-each :
    (s : State) (us : List Utxo) (x : Utxo)
    → all_available s us ≡ true
    → contains x us ≡ true
    → is_available s x ≡ true
unfolding all_available contains
all_available-each s [] x all c = absurd (cc c)
all_available-each s (u ∷ us) x all c = ground (arith, all_available-each s us x, eq→path u x)

-- Outputs that are each there can be taken.
take_all-AreLive :
    (V : Ledger) (us : List Utxo) → AreLive V us → (W : Ledger) × (take_all V us ≡ some W)
take_all-AreLive V [] on = (V, refl)
take_all-AreLive V (u ∷ us) on =
    let (W, takes) = take_all-AreLive (take V u) us on.1 in (W, rw (on.0, take_all) takes)

-- The payment goes through when the inputs are there, each once, and the script succeeds.
pay_of_available :
    (s : State) (W : Ledger) (h : Hash) (btc : BitcoinTxn)
    → ((x : Utxo) → is_available s x ≡ W x)
    → IsDistinct (inputs_of btc)
    → (all_available s (inputs_of btc) && script_succeeds btc) ≡ true
    → (W' : Ledger) × (pay W (h, btc) ≡ some W')
      × ((x : Utxo)
          → W' x ≡ contains x (outputs_of h btc) || (not (contains x (inputs_of btc)) && W x))
pay_of_available s W h btc same distinct accepted =
    let ins = inputs_of btc in
    let on =
      IsDistinct-AreLive W ins distinct
        (λ x c. sym (same x) ∙ all_available-each s ins x (ground arith) c) in
    let (left, takes) = take_all-AreLive W ins on in
    let runs : script_succeeds btc ≡ true = ground arith in
    (
      put_all left (outputs_of h btc),
      rw (takes, pay) (rw runs refl),
      λ x. ground (arith, put_all_lem left (outputs_of h btc) x, take_all_lem W ins left x takes),
    )

-- What can still be spent after a transaction has entered the block.
is_available-include :
    (size_of : Txn → ℕ) (s : State) (h : Hash) (txn : Txn) (btc : BitcoinTxn) (x : Utxo)
    → IsUnmade s h
    → all_available s (inputs_of btc) ≡ true
    → is_available (include size_of s h txn btc) x
      ≡ contains x (outputs_of h btc) || (not (contains x (inputs_of btc)) && is_available s x)
unfolding is_available include
is_available-include size_of s h txn btc (i, k) unmade all =
    elim (Bool-cases (contains (i, k) (outputs_of h btc))) [
      | inl made ↦
          let is = outputs_of-id h i k btc made in
          let (held, new, spent) = subst (IsUnmade s) is unmade k in
          ground (
            arith,
            contains-extend (i, k) s.new_utxo (outputs_of h btc),
            contains-extend (i, k) s.utxo_spent (inputs_of btc),
            all_available-each s (inputs_of btc) (i, k) all,
          )
      | inr old ↦ ground (
        arith,
        contains-extend (i, k) s.new_utxo (outputs_of h btc),
        contains-extend (i, k) s.utxo_spent (inputs_of btc),
      )
    ]

module _ (size_of : Txn → ℕ) where
  -- The step where the transaction enters the block.
  pub include-Builds :
      (s : State) (V W : Ledger) (ts : List (Hash × BitcoinTxn)) (h : Hash) (txn : Txn)
      (ctx : TxnCtx) (btc : BitcoinTxn)
      → Builds V W ts s
      → get h s.txn_pool ≡ some (txn, ctx)
      → as_bitcoin txn ≡ some btc
      → ctx.id ≡ h
      → IsDistinct (inputs_of btc)
      → IsUnmade s h
      → (all_available s (inputs_of btc) && script_succeeds btc) ≡ true
      → (W' : Ledger) × (pay W (h, btc) ≡ some W')
        × Builds V W' (ts ++ (h, btc) ∷ []) (include size_of s h txn btc)
  unfolding include is_available
  include-Builds s V W ts h txn ctx btc builds found is_btc is_id distinct unmade accepted =
      let (W', pays, after) = pay_of_available s W h btc builds.same distinct accepted in
      let all : all_available s (inputs_of btc) ≡ true = ground arith in
      (
        W',
        pays,
        record {
          pooled =
              Pooled-append s.txn_pool s.block_under_construction ts h (h, btc) builds.pooled
                ((txn, ctx, found, is_btc, is_id, refl), tt);
          pays = pay_all-append V W ts (h, btc) builds.pays ∙ rw (pays, pay_all) refl;
          same = λ x.
              is_available-include size_of s h txn btc x unmade all
              ∙ ground (arith, after x, builds.same x);
        },
      )

  pub try_txn-include :
      (s : State) (h : Hash) (txn : Txn) (ctx : TxnCtx) (btc : BitcoinTxn)
      → get h s.txn_pool ≡ some (txn, ctx)
      → as_bitcoin txn ≡ some btc
      → is_incentive btc ≡ false
      → (all_available s (inputs_of btc) && script_succeeds btc) ≡ true
      → try_txn size_of s h ≡ ok (include size_of s h txn btc, true)
  unfolding try_txn
  try_txn-include s h txn ctx btc found is_btc client accepted =
      rw found (rw is_btc (rw client (rw accepted refl)))

  -- `prepare_new_block` takes a client's transaction off the queue, whose hash is its key in the pool,
  -- whose inputs are distinct, and no output of which was made yet, where the block under construction
  -- has transactions `ts` that lead from the ledger `V` to `W`: the call succeeds, and afterwards the
  -- block has either the same transactions, or this one after them, and still leads from `V` to what
  -- can be spent.
  pub try_txn-Builds :
      (s : State) (V W : Ledger) (ts : List (Hash × BitcoinTxn)) (h : Hash) (txn : Txn)
      (ctx : TxnCtx) (btc : BitcoinTxn)
      → Builds V W ts s
      → get h s.txn_pool ≡ some (txn, ctx)
      → as_bitcoin txn ≡ some btc
      → ctx.id ≡ h
      → is_incentive btc ≡ false
      → IsDistinct (inputs_of btc)
      → IsUnmade s h
      → (s' : State) × (((try_txn size_of s h ≡ ok (s', false)) × Builds V W ts s')
          ⊎ ((try_txn size_of s h ≡ ok (s', true))
              × ((W' : Ledger) × (pay W (h, btc) ≡ some W')
                  × Builds V W' (ts ++ (h, btc) ∷ []) s')))
  unfolding try_txn include defer is_available
  try_txn-Builds s V W ts h txn ctx btc builds found is_btc is_id client distinct unmade =
      elim (Bool-cases (all_available s (inputs_of btc) && script_succeeds btc)) [
        | inl accepted ↦ (
          include size_of s h txn btc,
          inr (
            try_txn-include s h txn ctx btc found is_btc client accepted,
            include-Builds s V W ts h txn ctx btc builds found is_btc is_id distinct unmade
                accepted,
          ),
        )
        | inr refused ↦ (
          defer s h,
          inl (
            rw found (rw is_btc (rw client (rw refused refl))),
            record { pooled = builds.pooled; pays = builds.pays; same = λ x. builds.same x },
          ),
        )
      ]
