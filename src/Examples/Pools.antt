-- ===== src/Examples/Pools.antt =====
-- The stages without a protocol at a concrete input.
use cbox.Base.{List, [], ◌∷◌, ◌++◌, Outcome, ok, ◌≡◌, refl}
use cbox.Protocol.{Txn, TxnCtx}
use cbox.DummyStages.{State, Event, new_txn, propose, brought, run, run-fifo}
use cbox.Examples.Votes.{grant, first, ctx}

-- Every transaction has the same id.
abbrev one_id : Txn → Outcome TxnCtx
one_id txn = ok (ctx 5)

abbrev pool : State
pool = record { mem_pool = grant ∷ []; last_block = 0 }

abbrev events : List (Event one_id)
events = new_txn first (ctx 2) ∷ propose 7 ∷ new_txn grant (ctx 1) ∷ []

run-fifo_example :
    (s' : State) × (proposed : List Txn) × (run one_id pool events ≡ ok (s', proposed))
    × (proposed ++ s'.mem_pool ≡ grant ∷ first ∷ grant ∷ [])
unfolding brought
run-fifo_example = run-fifo one_id (λ txn. (ctx 5, refl)) pool events
