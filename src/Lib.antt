-- ===== src/Lib.antt =====
-- A verification library of the Zeno chain (ZenoQPL1), a proof-of-stake chain written in Rust.
--
-- The program's parts, and the files that model them. All paths are those of the repository.
-- - Types: the records that the crates share (ZenoQPL1/crates/zeno-types/src/lib.rs).
-- - Hash: `merkle_root` (ZenoQPL1/crates/zeno-hash/src/lib.rs). Hash/Loop is about its loop,
--   Hash/Merkle about what the root binds, Hash/Collision about inputs with one digest.
-- - Smt: the commitment to the accounts, `SparseMerkleState` and `AccountProof`
--   (ZenoQPL1/crates/zeno-state/src/lib.rs). Smt/Paths reads a proof as the climb along a path,
--   Smt/Completeness, Smt/Binding and Smt/Soundness are about the proofs, Smt/Shadow about
--   addresses that share a path.
-- - Staking: `StakingSnapshot` (the same file). Staking/Epoch has the settlement, the validator set,
--   evidence and liveness; Staking/Solvency the invariant that a validator's stake covers its
--   delegations; Staking/Delegating, Staking/Unbonding, Staking/Slashing, Staking/Rewards,
--   Staking/ValidatorSet and Staking/Downtime the theorems on the methods.
-- - Governance: `GovernanceSnapshot` (the same file).
-- - Mempool: `Mempool` (ZenoQPL1/crates/zeno-mempool/src/lib.rs). Mempool/Index and Mempool/Counts
--   are about its indices and its counts, Mempool/Insertion and Mempool/Removal about its methods.
-- - Primitives: validation and signing (ZenoQPL1/crates/zeno-primitives/src/lib.rs);
--   Primitives/Signing is about what is signed and then checked.
-- - Execution: `ExecutionEngine` (ZenoQPL1/crates/zeno-execution/src/lib.rs), which validates a
--   transaction with Primitives and writes the accounts of the state. Execution/Balances is about
--   sums of balances, Execution/Transactions about `apply_transaction`, Execution/Fees about the
--   transactions of a block and their fees, Execution/Pricing about the base fee. Execution/Blocks
--   prepares, executes, builds and imports blocks, over Storage, Staking, Governance and Smt;
--   Execution/Growth is about what an import adds to the store, Execution/Frame about what the
--   transactions leave untouched, Execution/Commit about a block from its proposal to the store.
-- - Storage: `MemoryStore` whole, and the write-ahead log of `RocksStore`
--   (ZenoQPL1/crates/zeno-storage/src/lib.rs). Storage/Blocks is about committing and pruning
--   blocks, Storage/Wal about the two logs.
-- - Consensus: the round state, votes, rounds, heights and the write-ahead log
--   (ZenoQPL1/crates/zeno-consensus/src/lib.rs), over the staking state of Staking and the votes of
--   Primitives. Consensus/Votes is `record_vote`; Consensus/Recovery, Consensus/Durability,
--   Consensus/Voting and Consensus/Runs are about what a restart finds; Consensus/Compaction is the
--   compaction of the log (ZenoQPL1/crates/zeno-storage/src/lib.rs); Consensus/Certificates is
--   `validate_commit_certificate`; Consensus/Timeouts is about the rounds' timeouts. The handlers of
--   messages and timeouts are steps on a `Replica`: Consensus/Engine casts votes,
--   Consensus/Finalizing handles votes, finalises and imports blocks, Consensus/Proposing checks,
--   accepts and makes proposals. They call Execution/Blocks, Storage and Mempool. Consensus/Keeping
--   and Consensus/Messages are about the handlers that send no proposal, Consensus/Protection about
--   the one that does, Consensus/Restarts about all events together, a restart among them;
--   Consensus/Imports about an import that the replay refuses.
-- - Rlp: the codec of ZenoQPL1/crates/zeno-evm/src/eth_tx.rs. Rlp/Words is about its numbers,
--   Rlp/RoundTrip about what it encodes and then decodes, Rlp/Looping about the decoder's loop.
-- - EthTx: raw Ethereum transactions (the same file), over Rlp. EthTx/Legacy and EthTx/AccessList are
--   about the two kinds of transaction.
-- - Zk: notes and the commitment tree (ZenoQPL1/crates/zeno-zk/src/lib.rs); Zk/Pool is the shielded
--   pool and Zk/Precompile the precompile that checks a proof. Zk/Tree is about the tree's nodes,
--   Zk/Completeness and Zk/Binding about its proofs, Zk/DoubleSpend about runs of the pool.
-- - Common and TreeMap: shared helpers, and Rust's `BTreeMap` as a list in the order of its keys.
--   The modules named Tests run the definitions on small inputs.
--
-- How the code is read. A method that mutates its object returns the state that it leaves beside its
-- result, on an error too. Unsigned integers are natural numbers: an addition that saturates, is
-- checked or wraps in a release build is written out as such at the width of its type. An address
-- and, outside Hash and Smt, a digest is the number that its bytes spell; the derived order of byte
-- arrays is then the order of numbers. A `HashMap` is the list that stands for a `BTreeMap`. A lock
-- is held for a whole method, so that a method is one step.
--
-- Parameters, for code that is not in the repository or that only wraps it: the digests (`Digests`),
-- the signature scheme and the bincode of signed values (`Externals`), the bincode of leaves, receipts,
-- blocks and validators (`ChainCode`, whose `encode_leaf` Smt takes by itself), a transaction's id, the
-- EVM (`EvmExecutor::execute`, as a function of its accounts in the store that makes its result and the
-- accounts that it leaves there), Keccak, secp256k1 and hex (`Ethereum`), the derived equality of
-- receipts and epoch transitions, and the clock.
--
-- Fuel. The loop of `merkle_root` runs on as much fuel as there are leaves; a round halves the
-- layer. `subtree_root` and `collect_proof` recur on the levels that are left below them, 64 at the
-- root, and so do the loops of Zk on 32 levels. `decode_items` runs on the length of the payload, since
-- an item that it takes off has at least one byte, or, where a length wraps, none at all: then the
-- program does not end either (Rlp/Looping). Every other loop is a recursion over a list.
--
-- Not modelled: the EVM's logs; of RocksStore, all but its log, which reads and writes single keys of RocksDB; random notes; network,
-- RPC, node, CLI, wallet, configuration and the EVM's wrapper, which are mostly calls of tokio, axum,
-- sockets and revm; the construction of genesis.
pub mod Common
pub mod TreeMap
pub mod Hash
pub mod Types
pub mod Mempool
pub mod Governance
pub mod Primitives
pub mod Execution
pub mod Staking
pub mod Smt
pub mod Consensus
pub mod Zk
pub mod Rlp
pub mod EthTx
pub mod Storage
