-- ===== src/Execution/Tests.antt =====
-- A transfer and a call of the EVM, with stand-ins for the signature scheme, the encodings and the
-- EVM.
use zeno_final_code.Common.{
  if◌then◌else◌, ◌==◌, ◌⊎◌, List, Bool, sum_by, none, ℕ, ◌+◌, ◌≡◌, refl, ap, true, some, [], ◌∷◌,
  length, arith,
}
use zeno_final_code.Execution.Frame.{uses_evm}
use zeno_final_code.Types.{call, Block, Transaction, EvmTransaction}
use zeno_final_code.Execution.Blocks.{
  receipt_bundle_mismatch, ChainCode, PreparedBlock, invalid_proposal, build_header,
  dry_run_transactions, run_block, apply_block_accounting, prepare_block, execute_block,
  validate_and_commit_finalized_block, transaction_root, receipt_root, state_root, parent_hash,
}
use zeno_final_code.Common.Results.{err, ok}
use zeno_final_code.Primitives.{verify_block, Externals, verify_transaction, check_body}
use zeno_final_code.Hash.Tests.{toy_digests}
use zeno_final_code.Storage.{
  FinalizedBlock, Store, empty_store, get_block_by_height, get_block_by_hash,
}
use zeno_final_code.Execution.Blocks
use zeno_final_code.Execution.Commit.{
  prepare_block-build_header, validate_and_commit_finalized_block_lem,
  validate_and_commit_finalized_block-error,
}
use zeno_final_code.Execution.{
  GasPricingState, update_base_fee, apply_transactions, credit_fees, Accounts, account, Engine, Evm,
  ExecutionState, Receipt, EvmCallResult, apply_transaction, validate_transaction, debit, settle,
  receipt,
}
use zeno_final_code.Execution.Fees.{apply_transactions_lem, total_balance-credit_fees}
use zeno_final_code.TreeMap
use zeno_final_code.TreeMap.{TreeMap, nat_key}
use zeno_final_code.TreeMap.Sorted.{IsSorted}
use zeno_final_code.Execution.Balances.{total_balance}
use zeno_final_code.Execution.Transactions.{uncredited, apply_transaction_lem}

-- A scheme whose signature is the secret key, which is the public one, which spells the address.
abbrev pub toy_externals : Externals
toy_externals = record {
  sign = λ domain bytes key. some key;
  verify = λ domain bytes key signature. true;
  derive_address = λ key. some (length key);
  encode_transaction = λ tx. [];
  encode_body = λ body. [];
  encode_header = λ header. [];
  encode_vote = λ h r s b a. [];
}

abbrev toy_id : Transaction → ℕ
toy_id tx = tx.body.nonce

-- An EVM that counts its calls in its first account, and refuses those without gas.
abbrev pub toy_evm : Evm
toy_evm chain caller evm accounts = (
  (if evm.gas_limit == 0
      then none
      else some (record { contract_address = none; output = []; gas_used = evm.gas_limit })),
  TreeMap.insert 0 (record { nonce = length accounts + 1; balance = 0; code = []; storage = [] })
      accounts,
)

abbrev transfer : Transaction
transfer = record {
  body = record {
    chain_id = "zeno";
    sender = 1;
    recipient = 2;
    amount = 5;
    nonce = 0;
    fee = 10;
    evm = none;
    memo = none;
    valid_until = some 20;
  };
  public_key = 7 ∷ [];
  signature = 7 ∷ [];
}

abbrev pub engine : Engine
engine = record {
  chain_id = "zeno";
  evm_chain_id = none;
  economics = none;
  validators = [];
  target_gas_per_block = 15000000;
}

abbrev pub accounts : Accounts
accounts = (1, record { nonce = 0; balance = 100 }) ∷ []

abbrev state : ExecutionState
state = record { accounts = accounts; evm_accounts = [] }

abbrev transfer_receipt : Receipt
transfer_receipt = receipt toy_externals toy_id toy_evm 3 transfer none

applied : apply_transaction toy_externals toy_id toy_evm engine 3 transfer state ≡ (
  ok transfer_receipt,
  record state {
    accounts =
        (1, record { nonce = 1; balance = 85 }) ∷ (2, record { nonce = 0; balance = 5 }) ∷ [];
  },
)
unfolding apply_transaction validate_transaction debit settle TreeMap.get TreeMap.insert
    verify_transaction check_body
applied = refl

apply_transaction_lem_example :
    let after =
      (apply_transaction toy_externals toy_id toy_evm engine 3 transfer state).1.accounts in
    (total_balance after + 10 + uncredited transfer ≡ total_balance accounts)
    × IsSorted after
    × (transfer_receipt.fee_charged ≡ 10)
    × ((account 1 accounts).nonce ≡ 0)
    × ((account 1 after).nonce ≡ 0 + 1)
apply_transaction_lem_example =
    apply_transaction_lem toy_externals toy_id toy_evm engine 3 transfer state transfer_receipt
      (tt, tt) (omega arith) (ap (λ p. p.0) applied)

apply_transactions_lem_example :
    let after =
      (apply_transactions toy_externals toy_id toy_evm engine 3
        (transfer ∷ [])
        0
        state).1.accounts in
    (total_balance after + 10 + sum_by uncredited (transfer ∷ []) ≡ total_balance accounts + 0)
    × IsSorted after
unfolding apply_transactions apply_transaction validate_transaction debit settle TreeMap.get
    TreeMap.insert verify_transaction check_body
apply_transactions_lem_example =
    apply_transactions_lem toy_externals toy_id toy_evm engine 3 (transfer ∷ []) 0 state
      (transfer_receipt ∷ []) 10 (tt, tt) (omega arith) refl

total_balance-credit_fees_example :
    total_balance (credit_fees none 9 10 accounts) ≡ total_balance accounts + 10
total_balance-credit_fees_example =
    total_balance-credit_fees none 9 10 accounts tt (tt, tt) (omega arith)

abbrev busy : GasPricingState
busy = record { base_fee = 800; last_block_gas_used = 200 }

raised : (update_base_fee busy 100).base_fee ≡ 900
unfolding update_base_fee
raised = refl

abbrev pub code : ChainCode
code = record {
  externals = toy_externals;
  digests = toy_digests;
  encode_leaf = λ address a. address ∷ a.nonce ∷ a.balance ∷ [];
  encode_receipt = λ r. r.tx_hash ∷ r.height ∷ r.fee_charged ∷ [];
  encode_block = λ b. b.header.height ∷ b.header.timestamp_ms ∷ [];
  encode_validator = λ address. address ∷ [];
  evm_execute = toy_evm;
}

abbrev pub store : Store
store = record empty_store { accounts = accounts }

abbrev accounts_after : Accounts
accounts_after =
    (1, record { nonce = 1; balance = 95 }) ∷ (2, record { nonce = 0; balance = 5 }) ∷ []

-- A block with the transfer.
abbrev block_receipt : Receipt
block_receipt = receipt toy_externals (Blocks.id code) toy_evm 3 transfer none

abbrev block : Block
block = record {
  header =
      build_header code engine store 1 3 0 99 (transfer ∷ []) accounts_after (block_receipt ∷ []);
  transactions = transfer ∷ [];
  proposer_public_key = 7 ∷ [];
  proposer_signature = 7 ∷ [];
}

dry_run :
    dry_run_transactions code engine store 3 (transfer ∷ []) 1
    ≡ (ok (accounts_after, block_receipt ∷ []), store)
unfolding dry_run_transactions run_block apply_block_accounting credit_fees apply_transactions
    apply_transaction validate_transaction debit settle TreeMap.get TreeMap.insert
    verify_transaction check_body
dry_run = refl

block_signed : verify_block toy_externals block ≡ true
unfolding verify_block build_header
block_signed = refl

-- A block with a call of the EVM, which writes the EVM's accounts.
abbrev evm_call : EvmTransaction
evm_call = record { kind = call 2 []; value = 0; gas_limit = 50; gas_price = 1 }

abbrev evm_transaction : Transaction
evm_transaction = record transfer { body = record transfer.body { evm = some evm_call } }

abbrev evm_engine : Engine
evm_engine = record engine { evm_chain_id = some 1 }

abbrev called : EvmCallResult
called = record { contract_address = none; output = []; gas_used = 50 }

abbrev evm_receipt : Receipt
evm_receipt = receipt toy_externals (Blocks.id code) toy_evm 3 evm_transaction (some called)

abbrev evm_after : Accounts
evm_after = (1, record { nonce = 1; balance = 95 }) ∷ []

abbrev evm_store : Store
evm_store = record store {
  evm_accounts = (0, record { nonce = 1; balance = 0; code = []; storage = [] }) ∷ [];
}

abbrev evm_block : Block
evm_block = record {
  header =
      build_header code evm_engine evm_store 1 3 0 99 (evm_transaction ∷ []) evm_after
        (evm_receipt ∷ []);
  transactions = evm_transaction ∷ [];
  proposer_public_key = 7 ∷ [];
  proposer_signature = 7 ∷ [];
}

evm_dry_run :
    dry_run_transactions code evm_engine store 3 (evm_transaction ∷ []) 1
    ≡ (ok (evm_after, evm_receipt ∷ []), evm_store)
unfolding dry_run_transactions run_block apply_block_accounting credit_fees apply_transactions
    apply_transaction validate_transaction debit settle TreeMap.get TreeMap.insert
    verify_transaction check_body
evm_dry_run = refl

evm_block_signed : verify_block toy_externals evm_block ≡ true
unfolding verify_block build_header
evm_block_signed = refl

prepare_block-build_header_example :
    ((p : PreparedBlock) × (prepare_block code evm_engine store evm_block ≡ (ok p, evm_store))
      × (p.state ≡ evm_after)
      × (p.receipts ≡ evm_receipt ∷ []))
    × ((uses_evm (evm_transaction ∷ []) ≡ true) ⊎ (evm_store ≡ store))
prepare_block-build_header_example =
    prepare_block-build_header code evm_engine store evm_store evm_block evm_after
      (evm_receipt ∷ []) 1 3 0 99 evm_dry_run refl evm_block_signed

abbrev finalized : FinalizedBlock
finalized = record {
  block = block;
  certificate = record { block_hash = 0; height = 3; round = 0; votes = [] };
  receipts = block_receipt ∷ [];
  epoch_transition = none;
}

abbrev always : {A : Type 0} → A → A → Bool
always x y = true

prepared :
    (p : PreparedBlock) × (prepare_block code engine store block ≡ (ok p, store))
    × (p.state ≡ accounts_after)
    × (p.receipts ≡ block_receipt ∷ [])
prepared =
    (prepare_block-build_header code engine store store block accounts_after (block_receipt ∷ []) 1
      3 0 99 dry_run refl block_signed).0

committed :
    (validate_and_commit_finalized_block code always always engine finalized store).0 ≡ ok tt
unfolding validate_and_commit_finalized_block
committed = rw (prepared.1, validate_and_commit_finalized_block) refl

validate_and_commit_finalized_block_lem_example :
    let after = (validate_and_commit_finalized_block code always always engine finalized store).1 in
    (block.header.state_root ≡ state_root code after.accounts)
    × (block.header.parent_hash ≡ parent_hash code store)
    × (block.header.tx_root ≡ transaction_root code (transfer ∷ []))
    × ((p : PreparedBlock) × ((run_block code engine store block.header.height block.header.proposer
            (transfer ∷ [])).0
          ≡ ok p)
        × (block.header.receipt_root ≡ receipt_root code p.receipts)
        × (always p.receipts (block_receipt ∷ []) ≡ true))
    × (get_block_by_height block.header.height after ≡ some finalized)
    × (get_block_by_hash (Blocks.hash_of code block) after ≡ some finalized)
validate_and_commit_finalized_block_lem_example =
    validate_and_commit_finalized_block_lem code always always engine finalized store (tt, tt)
      committed

-- The block with the call, received with a bundle of receipts that is not the node's.
abbrev mismatched : FinalizedBlock
mismatched = record finalized { block = evm_block; receipts = [] }

abbrev same_count : List Receipt → List Receipt → Bool
same_count a b = length a == length b

refused :
    validate_and_commit_finalized_block code same_count always evm_engine mismatched store
    ≡ (err receipt_bundle_mismatch, evm_store)
unfolding validate_and_commit_finalized_block
refused =
    let (p, accepted, _, receipts) = (prepare_block-build_header_example).0 in
    let result = ap (λ r. r.0) accepted in
    let left = ap (λ r. r.1) accepted in
    rw (result, validate_and_commit_finalized_block, receipts, left) refl

validate_and_commit_finalized_block-error_example :
    let after =
      (validate_and_commit_finalized_block code same_count always evm_engine mismatched store).1 in
    (after ≡ record store { evm_accounts = after.evm_accounts })
    × ((uses_evm (evm_transaction ∷ []) ≡ true) ⊎ (after ≡ store))
validate_and_commit_finalized_block-error_example =
    validate_and_commit_finalized_block-error code same_count always evm_engine mismatched store
      receipt_bundle_mismatch (ap (λ r. r.0) refused)
