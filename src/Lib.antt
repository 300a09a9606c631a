-- ===== src/Lib.antt =====
-- CBox, a testbed for consensus protocols: a node is a pipeline of stages (validation and
-- dissemination of transactions, a pacemaker, block management, block dissemination, decision, commit),
-- each with one implementation per protocol. This library models the stages that carry the protocols'
-- own logic, and proves what makes them correct.
--
-- The parts, and the code they model:
--
--   Base               the language and its standard library: tests on numbers, lists, equality, hash maps
--                      (HashMap) and hash sets (HashSet), and what a call comes to (Fallible): a value, an
--                      error, or a panic; src/utils/error.rs.
--   Protocol           src/protocol and src/context.rs: transactions, headers, blocks and their ids.
--   TxnValidation      src/stage/txn_validation. Pool is the pool that BitcoinTxnValidation and
--                      AvalancheTxnValidation (bitcoin/basic.rs, avalanche/basic.rs) both have, with the
--                      check of a transaction as a parameter, Ledger the balance check that both make,
--                      Bitcoin and Avalanche are the two stages. Rule is the induction over a call,
--                      Keyed, Kept and Lossless follow the transactions that wait.
--   Decide.Bitcoin     src/stage/consensus/decide/bitcoin/basic.rs, BitcoinDecision.
--   Decide.Avalanche   src/stage/consensus/decide/avalanche: AvalancheDecision (basic.rs), BlizzardDecision
--                      (blizzard.rs) and AvalancheVoteNoDecision (vote_no.rs). The first two are one program
--                      but for how a conflict set counts its rounds, which is a Rule; Rules has the two
--                      rules, and Blizzard the second program. Preference has the two questions on
--                      preference, Accept handle_votes_helper, Votes the handling of votes, Tail new_tail and
--                      handle_peer_msg. Walk, Commits and Visits are the walk of handle_votes_helper as a
--                      relation, Frames what the other operations leave alone, Once, Runs, History and Handing
--                      the decision as a state machine, Ready and Returns what a walk needs to return, Strong and
--                      Exclusive what preference means, Rounds and Counts the bounds.
--   BlockManagement.Bitcoin
--                      src/stage/consensus/block_management/bitcoin/basic.rs, BitcoinBlockManagement. Validate
--                      has validate_block, Utxo the loops in it that undo one chain and apply another,
--                      Propose the building of a block, Building, Filling, Sealing and Livelock what it
--                      comes to. Ledger is the specification: a ledger is a predicate
--                      on unspent outputs, and a transaction takes its inputs off it and puts its outputs on
--                      it. Refines, Payments, Undoing and Replays relate the three hash sets of the code to it.
--   BlockManagement.Avalanche
--                      src/stage/consensus/block_management/avalanche: AvalancheBlockManagement (basic.rs) and
--                      AvalancheVoteNoBlockManagement (vote_no.rs, VoteNo). Funds has validate_txn, Propose
--                      the handlers on a node's own batches, Validate validate_block; Filling is about
--                      prepare_new_block, Emits, Masks, Shown and Fits about validate_block, Once about all
--                      of them as a state machine.
--   ChainReplication   src/stage/consensus/decide/chain_replication.rs (Decide) and
--                      src/stage/consensus/block_management/chain_replication.rs (Batches), and
--                      src/stage/consensus/block_dissemination/linear.rs (Linear).
--   DummyDecision      src/stage/consensus/decide/dummy.rs.
--   DummyStages        the other stages without a protocol: src/stage/consensus/block_management/dummy.rs,
--                      src/stage/txn_validation/dummy.rs, src/stage/txn_validation/avalanche/vote_no.rs,
--                      src/stage/commit/dummy.rs and src/stage/pacemaker/dummy.rs.
--   Pacemaker          src/stage/pacemaker/fixed_inflight_blk.rs.
--   TimeQueue          src/utils/time_queue.rs.
--   Examples           the theorems at concrete inputs, and runs of the code.
--
-- How the code is translated. The state of a stage is a record with the fields of the struct; a method
-- that changes it returns the new state, and what it sends or hands on. `unreachable!`,
-- `unimplemented!`, a failed `assert!` and an `unwrap` of nothing are `panic`. A hash is a number (U256), a
-- key its bytes. Sums of amounts wrap at 2^64, as in a release build; heights and counts are taken not to
-- reach 2^64. Adding 1 to a U256 and reading one as a u64 panic where they do not fit, as the crate
-- documents. A hash map is an association list and a hash set a list, each in some order: no theorem
-- depends on the order in which they are walked but for the runs at concrete inputs. An `Instant` is a
-- number, and an `f64` its bits.
--
-- Fuel. `validate` has fuel for the depth of its recursion: each level adds to the pool a transaction
-- that was not there, so one more than the number of hashes heard of is enough. `fill`, the loop of
-- `prepare_new_block`, has fuel for its rounds, of which each takes a transaction off the queue: one more
-- than the queue is long is enough where none goes back, and no fuel is where each does. The loops of
-- `validate_block` that follow hashes (missing_ancestor, update_orphans_and_return_tail, find_fork) have fuel
-- for their steps, which the loops inside switch_chain need not. `relay` has fuel for the nodes that a block
-- comes to, the length of the order. is_strongly_preferred and handle_votes_helper of the Avalanche
-- decision have fuel for the depth of the dag, for which a rank that falls from a transaction to its
-- parents is enough, and `bfs` is that of the loops over children and parents, for which weights that
-- exceed those of the children are; prepare_new_block of the Avalanche block management has fuel for its
-- rounds, for which the length of the frontier and the children listed in the dag are enough. All other
-- loops are structural.
--
-- Parameters of the model, for code outside of the repository: the size of a transaction and of a pool
-- (crate get-size), the id of a header (sha256 of its bincode), the encoding of messages (bincode), and
-- signatures and their verification with a node's key (ring, k256). The random Merkle root and the time
-- of the proof of work are arguments of prepare_new_block.
--
-- Not modelled: the stage loops, timers, channels and the mailbox (I/O); waiting that stands for work
-- (`process_illusion`, `sleep`) and logs; the virtual cores; the eager Bitcoin block management, the
-- dissemination that only calls the mailbox, the load generators and the executables.
pub mod Base
pub mod Protocol
pub mod TxnValidation
pub mod Decide
pub mod BlockManagement
pub mod ChainReplication
pub mod DummyDecision
pub mod DummyStages
pub mod Pacemaker
pub mod TimeQueue
pub mod Examples
