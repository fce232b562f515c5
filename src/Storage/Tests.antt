-- ===== src/Storage/Tests.antt =====
-- Two blocks in the store, and small logs.
use zeno_final_code.Common.{ℕ, ◌≡◌, none, List, [], ◌∷◌, ◌++◌, arith, if◌then◌else◌, ltb}
use zeno_final_code.TreeMap
use zeno_final_code.TreeMap.{nat_key}
use zeno_final_code.Types.{Block}
use zeno_final_code.Consensus.{ConsensusWalEntry}
use zeno_final_code.Storage.{
  FinalizedBlock, Store, empty_store, atomic_commit_block, prune_blocks_below, get_block_by_height,
  RocksWal, empty_wal, append_rocks, load_rocks, compact_rocks,
}
use zeno_final_code.Storage.Blocks.{IsIndexed, atomic_commit_block_lem, prune_blocks_below_lem}
use zeno_final_code.Storage.Wal.{IsWal, numbered, load_rocks-append_rocks, compact_rocks-late}

abbrev block : ℕ → Block
block height = record {
  header = record {
    height = height;
    round = 0;
    chain_id = "zeno";
    parent_hash = 0;
    tx_root = 0;
    state_root = 0;
    receipt_root = 0;
    proposer = 1;
    timestamp_ms = 5;
  };
  transactions = [];
  proposer_public_key = [];
  proposer_signature = [];
}

abbrev finalized : ℕ → FinalizedBlock
finalized height = record {
  block = block height;
  certificate = record { block_hash = height; height = height; round = 0; votes = [] };
  receipts = [];
  epoch_transition = none;
}

abbrev height_hash : Block → ℕ
height_hash b = b.header.height

empty-IsIndexed : IsIndexed height_hash empty_store
unfolding TreeMap.get
empty-IsIndexed = λ h b e. ground arith

abbrev two_blocks : Store
two_blocks =
    atomic_commit_block height_hash (finalized 2) []
      (atomic_commit_block height_hash (finalized 1) [] empty_store)

two_blocks-IsIndexed : IsIndexed height_hash two_blocks
two_blocks-IsIndexed =
    (atomic_commit_block_lem height_hash (λ x y e. e) (finalized 2) []
      (atomic_commit_block height_hash (finalized 1) [] empty_store)
      (atomic_commit_block_lem height_hash (λ x y e. e) (finalized 1) [] empty_store
        empty-IsIndexed).0).0

prune_blocks_below_lem_example :
    let after = (prune_blocks_below height_hash 2 two_blocks).1 in
    IsIndexed height_hash after
    × ((h : ℕ)
        → get_block_by_height h after
          ≡ (if ltb h 2 then none else get_block_by_height h two_blocks))
prune_blocks_below_lem_example =
    prune_blocks_below_lem height_hash (λ x y e. e) 2 two_blocks two_blocks-IsIndexed

abbrev log : List ConsensusWalEntry
log =
    ConsensusWalEntry.round_advanced 1 1
    ∷ ConsensusWalEntry.height_advanced 2
    ∷ ConsensusWalEntry.round_advanced 2 1
    ∷ []

load_rocks-append_rocks_example :
    (load_rocks (append_rocks (ConsensusWalEntry.height_advanced 2) empty_wal)
      ≡ load_rocks empty_wal ++ ConsensusWalEntry.height_advanced 2 ∷ [])
    × IsWal (append_rocks (ConsensusWalEntry.height_advanced 2) empty_wal)
load_rocks-append_rocks_example =
    load_rocks-append_rocks (ConsensusWalEntry.height_advanced 2) empty_wal tt (omega arith)

-- Three entries are left after ten are gone: none of them goes, and all three are reported.
compact_rocks-late_example :
    let wal : RocksWal = record { entries = numbered 10 log; next_index = 13 } in
    (compact_rocks 9 wal).1 ≡ wal
compact_rocks-late_example = compact_rocks-late 9 10 log (omega arith)
