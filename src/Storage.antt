-- ===== src/Storage.antt =====
-- The store (crates/zeno-storage/src/lib.rs): `MemoryStore`, whose operations do not fail, and of
-- `RocksStore` the write-ahead log. A read returns a clone, and is the field or a lookup in it; a
-- write returns the store. `Block::hash` is the parameter `hash_of`.
pub mod Blocks
pub mod Wal
mod Tests
use zeno_final_code.Common.{
  ◌%◌, ◌^◌, if◌then◌else◌, ℕ, ◌+◌, ◌-◌, Option, none, some, List, [], ◌∷◌, ◌++◌, map, filter,
  length, ltb, leb, ◌&&◌, unwrap_or, Bool, true, false,
}
use zeno_final_code.TreeMap
use zeno_final_code.TreeMap.{TreeMap, nat_key}
use zeno_final_code.Types.{
  Account, Block, StakingState, GovernanceState, EpochTransition, Genesis, SlashingProtection,
  EvmLog, EvmAccountState,
}
use zeno_final_code.Execution.{Accounts, Receipt, GasPricingState}
use zeno_final_code.Consensus.{ConsensusSnapshot, ConsensusWalEntry}
use zeno_final_code.Consensus.Certificates.{CommitCertificate}
use zeno_final_code.Consensus.Compaction.{compact_consensus_wal, height_of}

pub record FinalizedBlock : Type 0 where
  pub block : Block
  pub certificate : CommitCertificate
  pub receipts : List Receipt
  pub epoch_transition : Option EpochTransition

-- `MemoryInner`.
pub record Store : Type 0 where
  pub genesis : Option Genesis
  pub accounts : Accounts
  pub evm_accounts : TreeMap ℕ EvmAccountState
  pub blocks_by_height : TreeMap ℕ FinalizedBlock
  pub blocks_by_hash : TreeMap ℕ FinalizedBlock
  pub receipts : TreeMap ℕ Receipt
  pub snapshot : Option ConsensusSnapshot
  pub consensus_wal : List ConsensusWalEntry
  pub staking_state : Option StakingState
  pub governance_state : Option GovernanceState
  pub epoch_transitions : TreeMap ℕ EpochTransition
  pub evm_logs : TreeMap ℕ (List EvmLog)
  pub slashing_protection : TreeMap ℕ SlashingProtection
  pub gas_pricing : Option GasPricingState

-- `MemoryInner::default()`.
abbrev pub empty_store : Store
empty_store = record {
  genesis = none;
  accounts = [];
  evm_accounts = [];
  blocks_by_height = [];
  blocks_by_hash = [];
  receipts = [];
  snapshot = none;
  consensus_wal = [];
  staking_state = none;
  governance_state = none;
  epoch_transitions = [];
  evm_logs = [];
  slashing_protection = [];
  gas_pricing = none;
}

abbrev pub put_genesis : Genesis → Store → Store
put_genesis genesis store = record store { genesis = some genesis }

abbrev pub get_account : ℕ → Store → Option Account
get_account address store = TreeMap.get address store.accounts

abbrev pub put_account : ℕ → Account → Store → Store
put_account address a store = record store { accounts = TreeMap.insert address a store.accounts }

abbrev pub get_evm_account : ℕ → Store → Option EvmAccountState
get_evm_account address store = TreeMap.get address store.evm_accounts

abbrev pub put_evm_account : ℕ → EvmAccountState → Store → Store
put_evm_account address a store = record store {
  evm_accounts = TreeMap.insert address a store.evm_accounts;
}

abbrev pub get_block_by_height : ℕ → Store → Option FinalizedBlock
get_block_by_height height store = TreeMap.get height store.blocks_by_height

abbrev pub get_block_by_hash : ℕ → Store → Option FinalizedBlock
get_block_by_hash hash store = TreeMap.get hash store.blocks_by_hash

-- `last_key_value`.
unfoldable pub last_value : {V : Type 0} → TreeMap ℕ V → Option V
last_value [] = none
last_value ((k, v) ∷ []) = some v
last_value ((k, v) ∷ e ∷ m) = last_value (e ∷ m)

abbrev pub latest_block : Store → Option FinalizedBlock
latest_block store = last_value store.blocks_by_height

abbrev pub put_receipt : Receipt → Store → Store
put_receipt r store = record store { receipts = TreeMap.insert r.tx_hash r store.receipts }

abbrev pub get_receipt : ℕ → Store → Option Receipt
get_receipt tx_hash store = TreeMap.get tx_hash store.receipts

abbrev pub put_consensus_snapshot : ConsensusSnapshot → Store → Store
put_consensus_snapshot s store = record store { snapshot = some s }

abbrev pub append_consensus_wal : ConsensusWalEntry → Store → Store
append_consensus_wal e store = record store { consensus_wal = store.consensus_wal ++ e ∷ [] }

abbrev pub put_staking_state : StakingState → Store → Store
put_staking_state s store = record store { staking_state = some s }

abbrev pub put_governance_state : GovernanceState → Store → Store
put_governance_state g store = record store { governance_state = some g }

abbrev pub latest_epoch_transition : Store → Option EpochTransition
latest_epoch_transition store = last_value store.epoch_transitions

abbrev pub put_epoch_transition : EpochTransition → Store → Store
put_epoch_transition t store = record store {
  epoch_transitions = TreeMap.insert t.epoch t store.epoch_transitions;
}

abbrev pub put_slashing_protection : ℕ → SlashingProtection → Store → Store
put_slashing_protection address p store = record store {
  slashing_protection = TreeMap.insert address p store.slashing_protection;
}

abbrev pub get_slashing_protection : ℕ → Store → Option SlashingProtection
get_slashing_protection address store = TreeMap.get address store.slashing_protection

abbrev pub put_gas_pricing : GasPricingState → Store → Store
put_gas_pricing g store = record store { gas_pricing = some g }

abbrev pub put_evm_logs : ℕ → List EvmLog → Store → Store
put_evm_logs height logs store = record store {
  evm_logs = TreeMap.insert height logs store.evm_logs;
}

abbrev pub get_evm_logs_by_height : ℕ → Store → List EvmLog
get_evm_logs_by_height height store = unwrap_or (TreeMap.get height store.evm_logs) []

-- `range(from..=to)` of a `BTreeMap`; a range that ends before it begins panics in Rust.
abbrev pub in_range : {V : Type 0} → ℕ → ℕ → ℕ × V → Bool
in_range from_height to_height (height, v) = leb from_height height && leb height to_height

unfoldable pub concat_logs : TreeMap ℕ (List EvmLog) → List (ℕ × EvmLog)
concat_logs [] = []
concat_logs ((height, logs) ∷ m) = map (λ log. (height, log)) logs ++ concat_logs m

unfoldable pub get_evm_logs_range : ℕ → ℕ → Store → List (ℕ × EvmLog)
get_evm_logs_range from_height to_height store =
    concat_logs (filter (in_range from_height to_height) store.evm_logs)

-- The two loops of `atomic_commit_block`.
unfoldable pub put_accounts : Accounts → Accounts → Accounts
put_accounts [] stored = stored
put_accounts ((address, a) ∷ accounts) stored =
    put_accounts accounts (TreeMap.insert address a stored)

unfoldable pub put_receipts : List Receipt → TreeMap ℕ Receipt → TreeMap ℕ Receipt
put_receipts [] stored = stored
put_receipts (r ∷ receipts) stored = put_receipts receipts (TreeMap.insert r.tx_hash r stored)

abbrev pub compact_wal : ℕ → Store → ℕ × Store
compact_wal below_height store =
    let (removed, kept) = compact_consensus_wal below_height store.consensus_wal in
    (removed, record store { consensus_wal = kept })

-- `range(..height)`.
abbrev pub keys_below : {V : Type 0} → ℕ → TreeMap ℕ V → List ℕ
keys_below height m = map (λ e. e.0) (filter (λ e. ltb e.0 height) m)

module _ (hash_of : Block → ℕ) where
  unfoldable pub put_finalized_block : FinalizedBlock → Store → Store
  put_finalized_block b store = record store {
    blocks_by_hash = TreeMap.insert (hash_of b.block) b store.blocks_by_hash;
    blocks_by_height = TreeMap.insert b.block.header.height b store.blocks_by_height;
  }

  unfoldable pub atomic_commit_block : FinalizedBlock → Accounts → Store → Store
  atomic_commit_block b accounts store = record store {
    accounts = put_accounts accounts store.accounts;
    receipts = put_receipts b.receipts store.receipts;
    blocks_by_hash = TreeMap.insert (hash_of b.block) b store.blocks_by_hash;
    blocks_by_height = TreeMap.insert b.block.header.height b store.blocks_by_height;
  }

  -- The body of the loop of `prune_blocks_below`, and the loop over the keys that were collected.
  unfoldable pub prune_key : ℕ → Store → Store
  prune_key k store = elim (TreeMap.get k store.blocks_by_height) [
    | none ↦ store
    | some b ↦ record store {
      blocks_by_height = TreeMap.remove k store.blocks_by_height;
      blocks_by_hash = TreeMap.remove (hash_of b.block) store.blocks_by_hash;
    }
  ]

  unfoldable pub prune_keys : List ℕ → Store → Store
  prune_keys [] store = store
  prune_keys (k ∷ keys) store = prune_keys keys (prune_key k store)

  unfoldable pub prune_blocks_below : ℕ → Store → ℕ × Store
  prune_blocks_below height store =
      let keys = keys_below height store.blocks_by_height in (length keys, prune_keys keys store)

-- The log of `RocksStore`: the keys under "consensus-wal:", read as numbers, and
-- "meta:consensus-wal-next". A batch of RocksDB is written at once.
pub record RocksWal : Type 0 where
  pub entries : TreeMap ℕ ConsensusWalEntry
  pub next_index : ℕ

abbrev pub empty_wal : RocksWal
empty_wal = record { entries = []; next_index = 0 }

-- `append_consensus_wal` of `RocksStore`; the next index wraps in a release build.
unfoldable pub append_rocks : ConsensusWalEntry → RocksWal → RocksWal
append_rocks e wal = record {
  entries = TreeMap.insert wal.next_index e wal.entries;
  next_index = (wal.next_index + 1) % 2 ^ 64;
}

-- `load_consensus_wal` of `RocksStore`.
abbrev pub load_rocks : RocksWal → List ConsensusWalEntry
load_rocks wal = map (λ e. e.1) wal.entries

-- The loop of `compact_consensus_wal` of `RocksStore`: it deletes the key that an entry's place in
-- the loaded list spells.
unfoldable pub compact_loop :
    ℕ
    → ℕ
    → List ConsensusWalEntry
    → ℕ × TreeMap ℕ ConsensusWalEntry
    → ℕ × TreeMap ℕ ConsensusWalEntry
compact_loop below_height index [] acc = acc
compact_loop below_height index (e ∷ entries) (removed, stored) =
    compact_loop below_height (index + 1) entries (
      if ltb (height_of e) below_height
      then (removed + 1, TreeMap.remove index stored)
      else (removed, stored))

unfoldable pub compact_rocks : ℕ → RocksWal → ℕ × RocksWal
compact_rocks below_height wal =
    let (removed, stored) = compact_loop below_height 0 (load_rocks wal) (0, wal.entries) in
    (removed, record wal { entries = stored })
