-- ===== src/Execution/Blocks.antt =====
-- The assembly, the check and the commit of a block (crates/zeno-execution/src/lib.rs, with the roots
-- of crates/zeno-primitives/src/lib.rs and the epoch transition of crates/zeno-state/src/lib.rs).
-- A method returns the store that it leaves beside its result, on an error too: the EVM's accounts are
-- written while transactions run. The store does not fail.
use zeno_final_code.Execution.{
  Evm, Accounts, Engine, ExecutionError, Receipt, apply_transactions, credit_fees, fee_cut,
}
use zeno_final_code.Common.{
  ℕ, ◌+◌, ◌*◌, ◌%◌, Bool, not, ◌&&◌, Option, none, some, List, [], ◌∷◌, map, ◌==◌, if◌then◌else◌,
  unwrap_or, u128_max, saturating_add,
}
use zeno_final_code.Common.Results.{Result, ok, err}
use zeno_final_code.Hash.{Bytes, Hash32, Digests, merkle_root}
use zeno_final_code.Types.{
  Account, Transaction, Block, BlockHeader, EconomicsParams, StakingState, GovernanceState,
  EpochTransition, default_staking,
}
use zeno_final_code.Primitives.{Externals, verify_block}
use zeno_final_code.Smt
use zeno_final_code.Governance.{new_governance, activate_ready_updates}
use zeno_final_code.Staking
use zeno_final_code.Staking.{ensure_validators}
use zeno_final_code.Staking.Epoch.{
  effective_validator_set, apply_downtime_slashing, settle_epoch_rewards,
}
use zeno_final_code.Storage.{
  FinalizedBlock, Store, latest_block, put_accounts, atomic_commit_block, put_staking_state,
  put_governance_state, put_epoch_transition,
}

-- The code that is not in the repository: digests, signatures and encodings, and the EVM.
pub record ChainCode : Type 0 where
  pub externals : Externals
  pub digests : Digests
  pub encode_leaf : ℕ → Account → Bytes
  pub encode_receipt : Receipt → Bytes
  pub encode_block : Block → Bytes
  pub encode_validator : ℕ → Bytes
  pub evm_execute : Evm

pub data BlockError : Type 0 where
  execution : ExecutionError → BlockError
  state : Staking.StateError → BlockError
  invalid_proposal parent_hash_mismatch tx_root_mismatch receipt_root_mismatch : BlockError
  state_root_mismatch receipt_bundle_mismatch epoch_transition_mismatch : BlockError

pub record AccountingArtifacts : Type 0 where
  pub staking : Option StakingState
  pub governance : Option GovernanceState
  pub epoch_transition : Option EpochTransition

pub record PreparedBlock : Type 0 where
  pub state : Accounts
  pub receipts : List Receipt
  pub proposer_fees : ℕ
  pub accounting : AccountingArtifacts

-- A digest as the number that its bytes spell.
unfoldable pub digest_number : ℕ → Bytes → ℕ
digest_number value [] = value
digest_number value (b ∷ bytes) = digest_number (value * 256 + b) bytes

module _ (c : ChainCode) where
  -- `Transaction::id` and `Block::hash`.
  abbrev pub transaction_digest : Transaction → Hash32
  transaction_digest tx = c.digests.blake3 (c.externals.encode_transaction tx)

  abbrev pub id : Transaction → ℕ
  id tx = digest_number 0 (transaction_digest tx)

  abbrev pub hash_of : Block → ℕ
  hash_of b = digest_number 0 (c.digests.blake3 (c.encode_block b))

  unfoldable pub transaction_root : List Transaction → ℕ
  transaction_root txs = digest_number 0 (merkle_root c.digests (map transaction_digest txs))

  unfoldable pub receipt_root : List Receipt → ℕ
  receipt_root receipts =
      digest_number 0
        (merkle_root c.digests (map (λ r. c.digests.blake3 (c.encode_receipt r)) receipts))

  unfoldable pub state_root : Accounts → ℕ
  state_root accounts = digest_number 0 (Smt.root c.digests c.encode_leaf accounts)

  unfoldable pub validator_set_root : List ℕ → ℕ
  validator_set_root validators =
      digest_number 0
        (merkle_root c.digests (map (λ v. c.digests.blake3 (c.encode_validator v)) validators))

  unfoldable pub build_epoch_transition : ℕ → EconomicsParams → StakingState → EpochTransition
  build_epoch_transition height economics staking =
      let validator_set = effective_validator_set economics staking in
      record {
        epoch = staking.epoch;
        height = height;
        validator_set = validator_set;
        validator_set_root = validator_set_root validator_set;
        economics = economics;
      }

  -- The branch of `apply_block_accounting` at the end of an epoch.
  unfoldable pub end_epoch :
      ℕ → StakingState → GovernanceState → Result BlockError AccountingArtifacts
  end_epoch height staking governance =
      let slashed = apply_downtime_slashing governance.economics staking in
      let settled = (settle_epoch_rewards 0 0 governance.economics slashed.1).1 in
      let updated = (activate_ready_updates settled.epoch governance).1 in
      elim slashed.0 [
        | Staking.err e ↦ err (state e)
        | Staking.ok _ ↦ ok (record {
          staking = some settled;
          governance = some updated;
          epoch_transition = some (build_epoch_transition height updated.economics settled);
        })
      ]

  unfoldable pub apply_block_accounting :
      Engine → Store → ℕ → ℕ → ℕ → Accounts → Result BlockError AccountingArtifacts × Accounts
  apply_block_accounting engine store proposer fees height accounts = elim engine.economics [
    | none ↦ (
      ok (record { staking = none; governance = none; epoch_transition = none }),
      credit_fees none proposer fees accounts,
    )
    | some params ↦
        let seeded =
          ensure_validators engine.validators (unwrap_or store.staking_state default_staking) in
        let governance = unwrap_or store.governance_state (new_governance params) in
        let staking = record seeded {
          treasury_balance = saturating_add u128_max seeded.treasury_balance (fee_cut params fees);
        } in
        (
          (if not (params.epoch_length == 0) && height % params.epoch_length == 0
              then end_epoch height staking governance
              else ok (record {
                staking = some staking;
                governance = some governance;
                epoch_transition = none;
              })),
          credit_fees (some params) proposer fees accounts,
        )
  ]

  -- The hash of the latest block, or zero.
  abbrev pub parent_hash : Store → ℕ
  parent_hash store = elim (latest_block store) [ none ↦ 0 | some b ↦ hash_of b.block ]

  -- The roots that `prepare_block` compares at its end.
  unfoldable pub check_roots : Block → PreparedBlock → Result BlockError PreparedBlock
  check_roots b prepared =
      if not (b.header.tx_root == transaction_root b.transactions)
      then err tx_root_mismatch
      else if not (b.header.receipt_root == receipt_root prepared.receipts)
      then err receipt_root_mismatch
      else if not (b.header.state_root == state_root prepared.state)
      then err state_root_mismatch
      else ok prepared

  -- The transactions and the accounting of a block: the state after it, and what it leaves to store;
  -- and the store with what the EVM has written.
  unfoldable pub run_block :
      Engine → Store → ℕ → ℕ → List Transaction → Result BlockError PreparedBlock × Store
  run_block engine store height proposer txs =
      let run =
        apply_transactions c.externals id c.evm_execute engine height txs 0
          (record { accounts = store.accounts; evm_accounts = store.evm_accounts }) in
      let left : Store = record store { evm_accounts = run.1.evm_accounts } in
      (
        (elim run.0 [
          | err e ↦ err (execution e)
          | ok (receipts, fees) ↦
              let accounting =
                apply_block_accounting engine left proposer fees height run.1.accounts in
              elim accounting.0 [
                | err e ↦ err e
                | ok artifacts ↦ ok (record {
                  state = accounting.1;
                  receipts = receipts;
                  proposer_fees = fees;
                  accounting = artifacts;
                })
              ]
        ]),
        left,
      )

  unfoldable pub prepare_block : Engine → Store → Block → Result BlockError PreparedBlock × Store
  prepare_block engine store b =
      if not (verify_block c.externals b)
      then (err invalid_proposal, store)
      else if not (b.header.parent_hash == parent_hash store)
      then (err parent_hash_mismatch, store)
      else let run = run_block engine store b.header.height b.header.proposer b.transactions in
        ((elim run.0 [ err e ↦ err e | ok prepared ↦ check_roots b prepared ]), run.1)

  abbrev pub persist_option : {A : Type 0} → (A → Store → Store) → Option A → Store → Store
  persist_option put none store = store
  persist_option put (some a) store = put a store

  unfoldable pub persist_accounting : PreparedBlock → Store → Store
  persist_accounting prepared store =
      persist_option put_epoch_transition prepared.accounting.epoch_transition (
        persist_option put_governance_state prepared.accounting.governance (
          persist_option put_staking_state prepared.accounting.staking
            (record store { accounts = put_accounts prepared.state store.accounts })))

  -- Its result is the block with what was prepared.
  unfoldable pub execute_block : Engine → Block → Store → Result BlockError PreparedBlock × Store
  execute_block engine b store =
      let prepared = prepare_block engine store b in
      elim prepared.0 [
        | err e ↦ (err e, prepared.1)
        | ok p ↦ (ok p, persist_accounting p prepared.1)
      ]

  unfoldable pub build_header :
      Engine → Store → ℕ → ℕ → ℕ → ℕ → List Transaction → Accounts → List Receipt → BlockHeader
  build_header engine store proposer height round timestamp_ms txs state_after receipts = record {
    height = height;
    round = round;
    chain_id = engine.chain_id;
    parent_hash = parent_hash store;
    tx_root = transaction_root txs;
    state_root = state_root state_after;
    receipt_root = receipt_root receipts;
    proposer = proposer;
    timestamp_ms = timestamp_ms;
  }

  unfoldable pub dry_run_transactions :
      Engine
      → Store
      → ℕ
      → List Transaction
      → ℕ
      → Result BlockError (Accounts × List Receipt) × Store
  dry_run_transactions engine store height txs proposer =
      let run = run_block engine store height proposer txs in
      ((elim run.0 [ err e ↦ err e | ok prepared ↦ ok (prepared.state, prepared.receipts) ]), run.1)

  -- `==` on receipts and on epoch transitions is the derived one, which is equality.
  module _ (receipts_eq : List Receipt → List Receipt → Bool)
      (transition_eq : Option EpochTransition → Option EpochTransition → Bool) where
    unfoldable pub validate_and_commit_finalized_block :
        Engine → FinalizedBlock → Store → Result BlockError (Unit {0}) × Store
    validate_and_commit_finalized_block engine f store =
        let prepared = prepare_block engine store f.block in
        elim prepared.0 [
          | err e ↦ (err e, prepared.1)
          | ok p ↦
              if not (receipts_eq p.receipts f.receipts)
              then (err receipt_bundle_mismatch, prepared.1)
              else if not (transition_eq p.accounting.epoch_transition f.epoch_transition)
              then (err epoch_transition_mismatch, prepared.1)
              else (ok tt, persist_accounting p (atomic_commit_block hash_of f p.state prepared.1))
        ]
