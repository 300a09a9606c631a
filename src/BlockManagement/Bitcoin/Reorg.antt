-- ===== src/BlockManagement/Bitcoin/Reorg.antt =====
-- The change from one chain to another keeps `self.utxo` equal to the ledger of the node's chain.
use mathlib.Core.List.{reverse, reverse-cons, reverse-reverse, reverse-append}
use mathlib.Core.Bool.{false≢true}
use cbox.Base.{
  List, [], ◌∷◌, ◌++◌, Option, none, some, ◌≡◌, refl, sym, ap, ◌∙◌, Outcome, ok, nat_eq, list_eq,
  pair_eq, arith, ok-injective, >>=-eq-ok, Option-cases, inl, inr,
}
use cbox.Base.HashSet.{HashSet, contains}
use cbox.Protocol.{Hash, Txn, TxnCtx, BitcoinTxn, Block, BlkCtx, as_bitcoin}
use cbox.BlockManagement.Bitcoin.{Utxo, State}
use cbox.BlockManagement.Bitcoin.Utxo.{
  Replay, zip_txns, undo_txn, undo_txns, undo_chain, apply_txn, apply_txns, apply_chain,
}
use cbox.BlockManagement.Bitcoin.Validate.{Answer, nothing, empty_replay, move_over, switch_chain}
use cbox.BlockManagement.Bitcoin.Ledger.{Ledger, pay_all, MakeNew, Below, Represents}
use cbox.BlockManagement.Bitcoin.Replays.{
  rewind, replay, rewind-append, ReplayAgree, rewind-Represents, replay-Agree, contains-moved,
}

-- These are the transactions, each a Bitcoin one, with their hashes.
abbrev pub ReadsTxns : List (Txn × TxnCtx) → List (Hash × BitcoinTxn) → Type 0
ReadsTxns [] [] = Unit
ReadsTxns [] (t ∷ ts) = ⊥
ReadsTxns (z ∷ zs) [] = ⊥
ReadsTxns (z ∷ zs) (t ∷ ts) = (as_bitcoin z.0 ≡ some t.1) × (z.1.id ≡ t.0) × ReadsTxns zs ts

-- The same of the blocks of a chain, the oldest first: each has as many contexts as transactions.
abbrev pub ReadsChain : List (Block × BlkCtx) → List (Hash × BitcoinTxn) → Type 0
ReadsChain [] ts = ts ≡ []
ReadsChain (b ∷ bs) ts =
    (zs : List (Txn × TxnCtx)) × (front : List (Hash × BitcoinTxn)) × (back : List
      (Hash × BitcoinTxn))
    × (zip_txns b.0 b.1 ≡ ok zs)
    × ReadsTxns zs front
    × ReadsChain bs back
    × (ts ≡ front ++ back)

undo_txns-rewind :
    (zs : List (Txn × TxnCtx)) (ts : List (Hash × BitcoinTxn)) (r : Replay)
    → ReadsTxns zs ts
    → undo_txns r zs ≡ ok (rewind r ts)
unfolding undo_txns rewind
undo_txns-rewind [] [] r reads = refl
undo_txns-rewind [] (t ∷ ts) r reads = absurd reads
undo_txns-rewind (z ∷ zs) [] r reads = absurd reads
undo_txns-rewind ((txn, ctx) ∷ zs) ((id, t) ∷ ts) r (is_t, is_id, reads) =
    rw is_t (rw is_id (undo_txns-rewind zs ts (undo_txn r id t) reads))

ReadsTxns-append :
    (zs ws : List (Txn × TxnCtx)) (ts us : List (Hash × BitcoinTxn))
    → ReadsTxns zs ts
    → ReadsTxns ws us
    → ReadsTxns (zs ++ ws) (ts ++ us)
ReadsTxns-append [] ws [] us reads more = more
ReadsTxns-append [] ws (t ∷ ts) us reads more = absurd reads
ReadsTxns-append (z ∷ zs) ws [] us reads more = absurd reads
ReadsTxns-append (z ∷ zs) ws (t ∷ ts) us reads more =
    (reads.0, reads.1, ReadsTxns-append zs ws ts us reads.2 more)

ReadsTxns-reverse :
    (zs : List (Txn × TxnCtx)) (ts : List (Hash × BitcoinTxn))
    → ReadsTxns zs ts
    → ReadsTxns (reverse zs) (reverse ts)
ReadsTxns-reverse [] [] reads = tt
ReadsTxns-reverse [] (t ∷ ts) reads = absurd reads
ReadsTxns-reverse (z ∷ zs) [] reads = absurd reads
ReadsTxns-reverse (z ∷ zs) (t ∷ ts) reads = rw (reverse-cons z zs) (
    rw (reverse-cons t ts) (
      ReadsTxns-append (reverse zs) (z ∷ []) (reverse ts) (t ∷ []) (ReadsTxns-reverse zs ts reads.2)
        (reads.0, reads.1, tt)))

undo_chain-append :
    (bs cs : List (Block × BlkCtx)) (r r' : Replay)
    → undo_chain r bs ≡ ok r'
    → undo_chain r (bs ++ cs) ≡ undo_chain r' cs
unfolding undo_chain
undo_chain-append [] cs r r' h = ap (λ x. undo_chain x cs) (ok-injective h)
undo_chain-append (b ∷ bs) cs r r' h =
    let (txns, zips, h₁) = >>=-eq-ok (zip_txns b.0 b.1) _ h in
    let (r'', undoes, h₂) = >>=-eq-ok (undo_txns r (reverse txns)) _ h₁ in
    rw zips (rw undoes (undo_chain-append bs cs r'' r' h₂))

undo_chain-rewind :
    (bs : List (Block × BlkCtx)) (ts : List (Hash × BitcoinTxn)) (r : Replay)
    → ReadsChain bs ts
    → undo_chain r (reverse bs) ≡ ok (rewind r (reverse ts))
undo_chain-rewind [] ts r reads = rw reads (unfold undo_chain rewind in refl)
undo_chain-rewind (b ∷ bs) ts r (zs, front, back, zips, first, others, split) =
    let older = rewind r (reverse back) in
    let step : undo_chain older (b ∷ []) ≡ ok (rewind older (reverse front)) =
      unfold undo_chain in
      rw zips (
        rw (
          undo_txns-rewind (reverse zs) (reverse front) older
            (ReadsTxns-reverse zs front first))) in
    rw (reverse-cons b bs) (
      undo_chain-append (reverse bs) (b ∷ []) r older (undo_chain-rewind bs back r others)
      ∙ step
      ∙ ap ok (
          sym (rewind-append r (reverse back) (reverse front))
          ∙ ap (rewind r) (sym (ap reverse split ∙ reverse-append front back))))

apply_txns-replay :
    (utxo : HashSet Utxo) (zs : List (Txn × TxnCtx)) (ts : List (Hash × BitcoinTxn)) (r : Replay)
    → ReadsTxns zs ts
    → apply_txns utxo r zs ≡ ok (replay utxo r ts)
unfolding apply_txns replay
apply_txns-replay utxo [] [] r reads = refl
apply_txns-replay utxo [] (t ∷ ts) r reads = absurd reads
apply_txns-replay utxo (z ∷ zs) [] r reads = absurd reads
apply_txns-replay utxo ((txn, ctx) ∷ zs) ((id, t) ∷ ts) r (is_t, is_id, reads) =
    rw is_t (rw is_id (go (apply_txn utxo r id t) (λ r'. apply_txns-replay utxo zs ts r' reads)))
  where
    go :
        (a : Option Replay)
        → ((r' : Replay) → apply_txns utxo r' zs ≡ ok (replay utxo r' ts))
        → (elim a [ none ↦ ok none | some r' ↦ apply_txns utxo r' zs ])
          ≡ ok (elim a [ none ↦ none | some r' ↦ replay utxo r' ts ])
    go none rest = refl
    go (some r') rest = rest r'

replay-append :
    (utxo : HashSet Utxo) (ts us : List (Hash × BitcoinTxn)) (r : Replay)
    → replay utxo r (ts ++ us)
      ≡ (elim (replay utxo r ts) [ none ↦ none | some r' ↦ replay utxo r' us ])
unfolding replay
replay-append utxo [] us r = refl
replay-append utxo ((id, t) ∷ ts) us r = elim (Option-cases (apply_txn utxo r id t)) [
  | inl fails ↦ rw (fails, replay)
  | inr (r', runs) ↦ rw (runs, replay) (replay-append utxo ts us r')
]

apply_chain-replay :
    (utxo : HashSet Utxo) (bs : List (Block × BlkCtx)) (ts : List (Hash × BitcoinTxn)) (r : Replay)
    → ReadsChain bs ts
    → apply_chain utxo r bs ≡ ok (replay utxo r ts)
unfolding apply_chain
apply_chain-replay utxo [] ts r reads = rw reads (unfold replay in refl)
apply_chain-replay utxo (b ∷ bs) ts r (zs, front, back, zips, first, others, split) = rw zips (
    rw (apply_txns-replay utxo zs front r first) (
      rw split (
        rw (replay-append utxo front back r) (elim (Option-cases (replay utxo r front)) [
          | inl fails ↦ rw fails
          | inr (r', runs) ↦ rw runs (apply_chain-replay utxo bs back r' others)
        ]))))

-- The ledger of the node's chain: what `self.utxo` holds.
abbrev pub Holds : State → Ledger → Type 0
Holds s V = (x : Utxo) → contains x s.utxo ≡ V x

-- What the code makes of the ledger that the new chain leads to, if it leads to one.
abbrev pub Switched :
    State → Hash → List (Block × BlkCtx) → Outcome (State × Answer) → Option Ledger → Type 0
Switched s new_tail new result none = result ≡ ok (s, nothing)
Switched s new_tail new result (some V) =
    (s' : State) × (result ≡ ok (s', record { new_chain = new; requests = [] }))
    × (s'.chain_tail ≡ new_tail)
    × Holds s' V

-- The change from the chain `old` to the chain `new`, both from the fork on and with the oldest block
-- first, where `V` is the ledger at the fork, `E` has every output ever made up to it, no chain makes an
-- output a second time, and `self.utxo` holds the ledger of the old chain: if the new chain's
-- transactions can be paid for from `V`, the node moves to the new tail, hands on exactly the new
-- chain's blocks, and holds the ledger of the new chain; else its state stays as it is.
pub switch_chain_ledger :
    (s : State) (new_tail : Hash) (old new : List (Block × BlkCtx))
    (olds news : List (Hash × BitcoinTxn)) (V E Vold : Ledger)
    → ReadsChain old olds
    → ReadsChain new news
    → Below V E
    → MakeNew E olds
    → MakeNew E news
    → pay_all V olds ≡ some Vold
    → Holds s Vold
    → Switched s new_tail new (switch_chain s new_tail (reverse new) (reverse old)) (pay_all V news)
unfolding switch_chain move_over contains empty_replay
switch_chain_ledger s new_tail old new olds news V E Vold reads_old reads_new below made_old
      made_new pays holds =
    let back = rewind empty_replay (reverse olds) in
    let at_fork : Represents s.utxo back.diff V =
      rewind-Represents s.utxo olds V E Vold empty_replay below made_old pays holds (record {
        is_diff = record {
          apart = λ u h. absurd (false≢true h);
          within = λ u h. absurd (false≢true h);
        };
        same = λ u. ground (arith, holds u);
      }) in
    rw (undo_chain-rewind old olds empty_replay reads_old) (
      rw (reverse-reverse new) (
        rw (apply_chain-replay s.utxo new news back reads_new) (
          go (replay s.utxo back news) (pay_all V news)
            (replay-Agree s.utxo news back V E below made_new at_fork))))
  where
    go :
        (a : Option Replay) (b : Option Ledger)
        → ReplayAgree s.utxo a b
        → Switched s new_tail new
            (elim a [
              | none ↦ ok (s, nothing)
              | some r ↦ ok (
                move_over s new_tail r,
                record { new_chain = reverse (reverse new); requests = [] },
              )
            ])
            b
    go none none agree = refl
    go none (some W) agree = absurd agree
    go (some r) none agree = absurd agree
    go (some r) (some W) agree = (
      move_over s new_tail r,
      ap (λ c. ok (move_over s new_tail r, record { new_chain = c; requests = [] }))
          (reverse-reverse new),
      refl,
      λ x. contains-moved s.utxo r.diff W x agree,
    )
