-- ===== src/Examples/Ledgers.antt =====
-- src/stage/consensus/block_management/bitcoin: a node leaves a chain of one block for another of one
-- block, builds a block, and fails to finish one.
use cbox.Base.{
  ℕ, List, [], ◌∷◌, none, some, true, false, ◌≡◌, ◌⊎◌, refl, ok, stuck, Outcome, ◌==◌, nat_eq,
  list_eq, pair_eq, eq→path, arith,
}
use cbox.Base.HashMap.{get}
use cbox.Base.HashSet.{contains}
use cbox.Protocol.{Hash, PubKey, Txn, TxnCtx, BitcoinTxn, Block, BlkCtx, BlockHeader, as_bitcoin}
use cbox.BlockManagement.Bitcoin.{State, get_chain_length}
use cbox.BlockManagement.Bitcoin.Utxo
use cbox.BlockManagement.Bitcoin.Utxo.{zip_txns}
use cbox.BlockManagement.Bitcoin.Validate.{switch_chain}
use cbox.BlockManagement.Bitcoin.Ledger.{Ledger, pay, pay_all, Below, MakeNew}
use cbox.BlockManagement.Bitcoin.Ledger
use cbox.BlockManagement.Bitcoin.Reorg.{ReadsTxns, ReadsChain, Holds, Switched, switch_chain_ledger}
use cbox.BlockManagement.Bitcoin.Propose
use cbox.BlockManagement.Bitcoin.Propose.{try_txn, prepare_new_block, get_new_block}
use cbox.BlockManagement.Bitcoin.Filling.{Prepared, prepare_new_block-Prepared}
use cbox.BlockManagement.Bitcoin.Building.{Pooled, Builds, IsUnmade, try_txn-Builds}
use cbox.BlockManagement.Bitcoin.Sealing.{get_new_block-Builds}
use cbox.BlockManagement.Bitcoin.Livelock.{IsRefused, prepare_new_block-livelock}

abbrev alice : PubKey
alice = 1 ∷ []

abbrev bob : PubKey
bob = 2 ∷ []

abbrev payment : BitcoinTxn
payment = BitcoinTxn.send alice (5 ∷ []) bob 10 0 [] 0 0 true

abbrev other_payment : BitcoinTxn
other_payment = BitcoinTxn.send alice (5 ∷ []) bob 4 6 [] 0 0 true

abbrev block_of : Hash → BitcoinTxn → Block
block_of prev t = record { header = BlockHeader.bitcoin 0 prev 0 1; txns = Txn.bitcoin t ∷ [] }

abbrev ctx_of : Hash → Hash → BlkCtx
ctx_of id txn = record { id = id; txn_ctx = record { id = txn } ∷ [] }

abbrev old : List (Block × BlkCtx)
old = (block_of 0 payment, ctx_of 11 6) ∷ []

abbrev new_chain : List (Block × BlkCtx)
new_chain = (block_of 0 other_payment, ctx_of 12 7) ∷ []

-- At the fork, alice has the output of transaction 5.
abbrev at_fork : Ledger
at_fork u = (5, alice) == u

abbrev held : Ledger
held = Ledger.put_all (Ledger.take at_fork (5, alice)) ((6, bob) ∷ [])

abbrev node : State
node = record {
  id = 0;
  txn_pool = [];
  block_pool = [];
  utxo = (6, bob) ∷ [];
  chain_tail = 11;
  difficulty = 3;
  pending_txns = [];
  block_under_construction = [];
  merkle_root = none;
  block_size = 0;
  new_utxo = [];
  utxo_spent = [];
  pow_time = none;
  orphan_blocks = [];
}

reads_old : ReadsChain old ((6, payment) ∷ [])
unfolding zip_txns as_bitcoin
reads_old = (
  (Txn.bitcoin payment, record { id = 6 }) ∷ [],
  (6, payment) ∷ [],
  [],
  refl,
  (refl, refl, tt),
  refl,
  refl,
)

reads_new : ReadsChain new_chain ((7, other_payment) ∷ [])
unfolding zip_txns as_bitcoin
reads_new = (
  (Txn.bitcoin other_payment, record { id = 7 }) ∷ [],
  (7, other_payment) ∷ [],
  [],
  refl,
  (refl, refl, tt),
  refl,
  refl,
)

made_old : MakeNew at_fork ((6, payment) ∷ [])
unfolding Utxo.outputs_of
made_old = ((refl, tt), tt)

made_new : MakeNew at_fork ((7, other_payment) ∷ [])
unfolding Utxo.outputs_of
made_new = ((refl, (refl, tt)), tt)

old_pays : pay_all at_fork ((6, payment) ∷ []) ≡ some held
unfolding Utxo.inputs_of Utxo.outputs_of Utxo.with_key Utxo.script_succeeds
old_pays = refl

node-Holds : Holds node held
unfolding contains
node-Holds x = ground (arith, eq→path (5, alice) x)

switch_chain_ledger_example :
    Switched node 12 new_chain
      (switch_chain node 12 new_chain old)
      (pay_all at_fork ((7, other_payment) ∷ []))
switch_chain_ledger_example =
    switch_chain_ledger node 12 old new_chain ((6, payment) ∷ []) ((7, other_payment) ∷ []) at_fork
      at_fork held reads_old reads_new (λ u h. h) made_old made_new old_pays node-Holds

-- A node at the fork, with the payment in its queue taken off.
abbrev builder : State
builder = record node {
  txn_pool = (6, (Txn.bitcoin payment, record { id = 6 })) ∷ [];
  utxo = (5, alice) ∷ [];
  chain_tail = 0;
}

builder-Builds : Builds at_fork at_fork [] builder
unfolding Propose.is_available contains
builder-Builds = record { pooled = tt; pays = refl; same = λ x. ground arith }

builder-IsUnmade : IsUnmade builder 6
unfolding contains
builder-IsUnmade k = (refl, refl, refl)

abbrev four : Txn → ℕ
four txn = 4

try_txn-Builds_example :
    (s' : State) × (((try_txn four builder 6 ≡ ok (s', false)) × Builds at_fork at_fork [] s')
      ⊎ ((try_txn four builder 6 ≡ ok (s', true))
          × ((W' : Ledger) × (pay at_fork (6, payment) ≡ some W')
              × Builds at_fork W' ((6, payment) ∷ []) s')))
unfolding get as_bitcoin Utxo.is_incentive Utxo.inputs_of Utxo.with_key contains
try_txn-Builds_example =
    try_txn-Builds four builder at_fork at_fork [] 6 (Txn.bitcoin payment) (record { id = 6 })
      payment builder-Builds refl refl refl refl (refl, tt) builder-IsUnmade

-- The same node with the payment in its queue.
abbrev queued : State
queued = record builder { pending_txns = 6 ∷ [] }

queued-Builds : Builds at_fork at_fork [] queued
unfolding Propose.is_available contains
queued-Builds = record { pooled = tt; pays = refl; same = λ x. ground arith }

queued-Pooled : Pooled queued.txn_pool (6 ∷ []) ((6, payment) ∷ [])
unfolding get as_bitcoin
queued-Pooled = ((Txn.bitcoin payment, record { id = 6 }, refl, refl, refl, refl), tt)

queued-IsUnmade : IsUnmade queued 6
unfolding contains
queued-IsUnmade k = (refl, refl, refl)

prepare_new_block-Prepared_example :
    Prepared four queued.block_size at_fork []
      ((6, payment) ∷ [])
      (prepare_new_block four 2 queued 99 (0, 0))
unfolding Utxo.is_incentive contains
prepare_new_block-Prepared_example =
    prepare_new_block-Prepared four queued at_fork at_fork [] ((6, payment) ∷ []) held 99 (0, 0)
      queued-Builds queued-Pooled (refl, tt) (queued-IsUnmade, tt) (refl, tt) old_pays

-- The same node with the payment in the block.
abbrev ready : State
ready = record builder {
  block_under_construction = 6 ∷ [];
  merkle_root = some 99;
  block_size = 4;
  new_utxo = (6, bob) ∷ [];
  utxo_spent = (5, alice) ∷ [];
  pow_time = some (0, 0);
}

ready-Builds : Builds at_fork held ((6, payment) ∷ []) ready
unfolding Propose.is_available contains get as_bitcoin Utxo.inputs_of Utxo.outputs_of Utxo.with_key
    Utxo.script_succeeds
ready-Builds = record {
  pooled = ((Txn.bitcoin payment, record { id = 6 }, refl, refl, refl, refl), tt);
  pays = refl;
  same = λ x. ground (arith, eq→path (5, alice) x, eq→path (6, bob) x);
}

abbrev header_id : BlockHeader → Outcome Hash
header_id header = ok 21

get_new_block-Builds_example :
    (s' : State) × (block : Block) × (ctx : BlkCtx) × (zs : List (Txn × TxnCtx)) × (get_new_block
        header_id ready
      ≡ ok (s', (block, ctx)))
    × (block.header ≡ BlockHeader.bitcoin 0 0 99 1)
    × (zip_txns block ctx ≡ ok zs)
    × ReadsTxns zs ((6, payment) ∷ [])
    × (s'.chain_tail ≡ 21)
    × (get 21 s'.block_pool ≡ some (block, ctx, 1))
    × Holds s' held
    × Builds held held [] s'
unfolding get_chain_length
get_new_block-Builds_example =
    get_new_block-Builds header_id ready at_fork held ((6, payment) ∷ []) 99 21 (0, 0) 0
      ready-Builds refl refl refl refl

-- A node that has nothing to spend, with the payment in its queue.
abbrev waiting : State
waiting = record builder { utxo = []; pending_txns = 6 ∷ [] }

waiting-IsRefused : IsRefused waiting 6
unfolding get as_bitcoin Utxo.is_incentive Utxo.inputs_of Utxo.with_key contains
    Propose.all_available Propose.is_available
waiting-IsRefused = (Txn.bitcoin payment, record { id = 6 }, payment, refl, refl, refl, refl)

prepare_new_block-livelock_example : prepare_new_block four 50 waiting 99 (0, 0) ≡ stuck
prepare_new_block-livelock_example =
    prepare_new_block-livelock four waiting 99 (0, 0) refl (λ e. absurd (cc e))
      (waiting-IsRefused, tt) 50
