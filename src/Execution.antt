-- ===== src/Execution.antt =====
-- Execution of transactions (crates/zeno-execution/src/lib.rs): validation, application and the gas
-- price. A method that mutates the state returns the state it leaves beside its result, on an error
-- too. The EVM is the parameter `evm_execute`: from the EVM's accounts in the store it makes the result
-- of a transaction and the accounts that it leaves in the store, on an error too. `Transaction::id` is
-- the parameter `id`.
pub mod Balances
pub mod Transactions
pub mod Fees
pub mod Pricing
pub mod Blocks
pub mod Growth
pub mod Frame
pub mod Commit
pub mod Tests
use Prim.Native.String.{String, len}
use zeno_final_code.Types.{
  EvmAccountState, Account, default_account, EvmTransaction, Transaction, EconomicsParams,
  Validator,
}
use zeno_final_code.Common.{
  ◌%◌, ◌^◌, ℕ, ◌+◌, ◌-◌, ◌*◌, ◌/◌, max, Bool, true, false, not, Option, none, some, List, [], ◌∷◌,
  length, ltb, leb, ◌==◌, if◌then◌else◌, unwrap_or, u64_max, u128_max, saturating_add,
  saturating_mul, saturating_sub, checked_add, checked_sub, wrapping_add128,
}
use zeno_final_code.Common.Results.{Result, ok, err, ◌>>=◌, ◌>>◌, fail_if}
use zeno_final_code.TreeMap
use zeno_final_code.TreeMap.{TreeMap, nat_key}
use zeno_final_code.Primitives.{
  Externals, TransactionError, verify_transaction, invalid_nonce, insufficient_balance,
}

abbrev pub Accounts : Type 0
Accounts = TreeMap ℕ Account

-- `StateSnapshot::account`.
abbrev pub account : ℕ → Accounts → Account
account address accounts = unwrap_or (TreeMap.get address accounts) default_account

-- `StateSnapshot::put_account`.
abbrev pub put_account : ℕ → Account → Accounts → Accounts
put_account address a accounts = TreeMap.insert address a accounts

-- The EVM's accounts, which stand in the store.
abbrev pub EvmAccounts : Type 0
EvmAccounts = TreeMap ℕ EvmAccountState

-- What the execution of a transaction reads and writes: the snapshot of the accounts, which is stored
-- later, and the EVM's accounts, which are written to the store at once.
pub record ExecutionState : Type 0 where
  pub accounts : Accounts
  pub evm_accounts : EvmAccounts

pub data ExecutionError : Type 0 where
  invalid : TransactionError → ExecutionError
  amount_fee_overflow insufficient_balance_checked nonce_overflow : ExecutionError
  evm_not_enabled evm_failed : ExecutionError

-- `EvmCallResult`, less its logs.
pub record EvmCallResult : Type 0 where
  pub contract_address : Option ℕ
  pub output : List ℕ
  pub gas_used : ℕ

-- `EvmExecutor::execute`, on the chain's id, the caller, the transaction and the EVM's accounts.
abbrev pub Evm : Type 0
Evm = ℕ → ℕ → EvmTransaction → EvmAccounts → Option EvmCallResult × EvmAccounts

-- A receipt; its outcome is always `Success`.
pub record Receipt : Type 0 where
  pub tx_hash : ℕ
  pub height : ℕ
  pub fee_charged : ℕ
  pub evm : Option EvmCallResult

pub record GasPricingState : Type 0 where
  pub base_fee : ℕ
  pub last_block_gas_used : ℕ

abbrev pub native_transfer_gas : ℕ
native_transfer_gas = 21000

abbrev pub gas_per_byte : ℕ
gas_per_byte = 16

abbrev pub base_fee_change_denominator : ℕ
base_fee_change_denominator = 8

abbrev pub min_base_fee : ℕ
min_base_fee = 1

-- The sums stay far below 2^64, since a memo and a signature fit in memory.
unfoldable pub compute_native_gas : Transaction → ℕ
compute_native_gas tx =
    native_transfer_gas
    + elim tx.body.memo [ none ↦ 0 | some memo ↦ len memo * gas_per_byte ]
    + length tx.signature / 32 * 10

-- A division by a target of zero panics in Rust; here the target is positive.
unfoldable pub update_base_fee : GasPricingState → ℕ → GasPricingState
update_base_fee current target =
    let base = if current.base_fee == 0 then min_base_fee else current.base_fee in
    let used = current.last_block_gas_used in
    let up =
      saturating_mul u128_max base (saturating_sub used target)
      / target
      / base_fee_change_denominator in
    let down =
      saturating_mul u128_max base (saturating_sub target used)
      / target
      / base_fee_change_denominator in
    record {
      base_fee =
          if ltb target used
          then saturating_add u128_max base (max up 1)
          else max (saturating_sub base down) min_base_fee;
      last_block_gas_used = 0;
    }

pub record Engine : Type 0 where
  pub chain_id : String
  pub evm_chain_id : Option ℕ
  pub economics : Option EconomicsParams
  pub validators : List Validator
  pub target_gas_per_block : ℕ

module _ (x : Externals) (id : Transaction → ℕ) (evm_execute : Evm) where
  unfoldable pub validate_transaction :
      Engine → Accounts → ℕ → Transaction → Result TransactionError (Unit {0})
  validate_transaction engine accounts height tx = do
    bytes ← verify_transaction x engine.chain_id tx height
    let sender = account tx.body.sender accounts
    fail_if (not (sender.nonce == tx.body.nonce)) (invalid_nonce sender.nonce tx.body.nonce)
    fail_if (ltb sender.balance (saturating_add u128_max tx.body.amount tx.body.fee))
        insufficient_balance

  abbrev pub receipt : ℕ → Transaction → Option EvmCallResult → Receipt
  receipt height tx evm = record {
    tx_hash = id tx;
    height = height;
    fee_charged = tx.body.fee;
    evm = evm;
  }

  -- The last part of `apply_transaction`: the EVM's call, or the recipient's credit. The caller is the
  -- last 20 bytes of the sender's address.
  unfoldable pub settle :
      Engine → ℕ → Transaction → ExecutionState → Result ExecutionError Receipt × ExecutionState
  settle engine height tx s = elim tx.body.evm [
    | some evm_tx ↦ elim engine.evm_chain_id [
      | none ↦ (err evm_not_enabled, s)
      | some chain ↦
          let run = evm_execute chain (tx.body.sender % 2 ^ 160) evm_tx s.evm_accounts in
          elim run.0 [
            | none ↦ (err evm_failed, record s { evm_accounts = run.1 })
            | some result ↦
                (ok (receipt height tx (some result)), record s { evm_accounts = run.1 })
          ]
    ]
    | none ↦
        let recipient = account tx.body.recipient s.accounts in
        (
          ok (receipt height tx none),
          record s {
            accounts =
                put_account tx.body.recipient
                  (record recipient {
                    balance = saturating_add u128_max recipient.balance tx.body.amount;
                  })
                  s.accounts;
          },
        )
  ]

  -- The sender's account after its checked debit.
  unfoldable pub debit : Transaction → Account → Result ExecutionError Account
  debit tx sender = elim (checked_add u128_max tx.body.amount tx.body.fee) [
    | none ↦ err amount_fee_overflow
    | some cost ↦ elim (checked_sub sender.balance cost) [
      | none ↦ err insufficient_balance_checked
      | some balance ↦ elim (checked_add u64_max sender.nonce 1) [
        | none ↦ err nonce_overflow
        | some nonce ↦ ok (record { nonce = nonce; balance = balance })
      ]
    ]
  ]

  unfoldable pub apply_transaction :
      Engine → ℕ → Transaction → ExecutionState → Result ExecutionError Receipt × ExecutionState
  apply_transaction engine height tx s = elim (validate_transaction engine s.accounts height tx) [
    | err e ↦ (err (invalid e), s)
    | ok _ ↦ elim (debit tx (account tx.body.sender s.accounts)) [
      | err e ↦ (err e, s)
      | ok sender ↦
          settle engine height tx
            (record s { accounts = put_account tx.body.sender sender s.accounts })
    ]
  ]

  -- The loop over a block's transactions: `?` leaves it, `proposer_fees +=` wraps.
  unfoldable pub apply_transactions :
      Engine
      → ℕ
      → List Transaction
      → ℕ
      → ExecutionState
      → Result ExecutionError (List Receipt × ℕ) × ExecutionState
  apply_transactions engine height [] fees s = (ok ([], fees), s)
  apply_transactions engine height (tx ∷ txs) fees s =
      let step = apply_transaction engine height tx s in
      elim step.0 [
        | err e ↦ (err e, step.1)
        | ok r ↦
            let rest =
              apply_transactions engine height txs (wrapping_add128 fees r.fee_charged) step.1 in
            elim rest.0 [
              | err e ↦ (err e, rest.1)
              | ok (receipts, total) ↦ (ok (r ∷ receipts, total), rest.1)
            ]
      ]

-- `treasury_address()`.
abbrev pub treasury_address : ℕ
treasury_address = 0

abbrev pub credit : ℕ → ℕ → Accounts → Accounts
credit address amount accounts =
    let a = account address accounts in
    put_account address (record a { balance = saturating_add u128_max a.balance amount }) accounts

abbrev pub fee_cut : EconomicsParams → ℕ → ℕ
fee_cut params fees = saturating_mul u128_max fees params.treasury_bps / 10000

-- What `apply_block_accounting` does to the accounts: with economics, the fees go to the proposer
-- and the treasury; without, to the proposer, by an addition that wraps.
unfoldable pub credit_fees : Option EconomicsParams → ℕ → ℕ → Accounts → Accounts
credit_fees (some params) proposer fees accounts =
    credit treasury_address (fee_cut params fees)
      (credit proposer (saturating_sub fees (fee_cut params fees)) accounts)
credit_fees none proposer fees accounts =
    let a = account proposer accounts in
    put_account proposer (record a { balance = wrapping_add128 a.balance fees }) accounts
