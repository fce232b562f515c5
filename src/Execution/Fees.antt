-- ===== src/Execution/Fees.antt =====
-- The fees of a block: what its transactions pay goes to the proposer and the treasury.
use native.Mathlib.Nat.{mul-le-mul_left}
use zeno_final_code.Execution.{
  Evm, ExecutionState, Accounts, account, credit, fee_cut, credit_fees, treasury_address, Engine,
  Receipt, apply_transaction, apply_transactions,
}
use zeno_final_code.Common.{
  wrapping_add128, ◌%◌, ℕ, ◌+◌, ◌≤◌, ◌≡◌, inl, inr, Option, none, some, List, [], ◌∷◌, arith,
  sum_by, u128_max, saturating_sub,
}
use zeno_final_code.Common.Results.{Result-cases, ok}
use zeno_final_code.TreeMap.{nat_key}
use zeno_final_code.TreeMap.Sorted.{IsSorted}
use zeno_final_code.Types.{Transaction, EconomicsParams}
use zeno_final_code.Primitives.{Externals}
use zeno_final_code.Execution.Balances.{
  total_balance, total_balance-put_account, total_balance-credit, balance-le-total, credit-IsSorted,
}
use zeno_final_code.Execution.Transactions.{uncredited, apply_transaction_lem}

abbrev IsFair : Option EconomicsParams → Type 0
IsFair none = Unit
IsFair (some params) = params.treasury_bps ≤ 10000

fee_cut-le :
    (params : EconomicsParams) (fees : ℕ) → params.treasury_bps ≤ 10000 → fee_cut params fees ≤ fees
fee_cut-le params fees h = omega (arith, mul-le-mul_left fees h)

-- Where the treasury's share is at most the whole and the sum of all balances and the fees fits in a
-- u128, crediting the fees raises that sum by the fees, to the unit, with economics and without.
pub total_balance-credit_fees :
    (params : Option EconomicsParams) (proposer fees : ℕ) (accounts : Accounts)
    → IsFair params
    → IsSorted accounts
    → total_balance accounts + fees ≤ u128_max
    → total_balance (credit_fees params proposer fees accounts) ≡ total_balance accounts + fees
unfolding credit_fees
total_balance-credit_fees none proposer fees accounts h s room =
    let a = account proposer accounts in
    omega (
      arith,
      total_balance-put_account proposer
          (record a { balance = (a.balance + fees) % (u128_max + 1) }) accounts s,
      balance-le-total proposer accounts s,
    )
total_balance-credit_fees (some params) proposer fees accounts h s room =
    let cut = fee_cut params fees in
    let share = saturating_sub fees cut in
    let paid =
      total_balance-credit proposer share accounts s (omega (arith, fee_cut-le params fees h)) in
    omega (
      arith,
      paid,
      fee_cut-le params fees h,
      total_balance-credit treasury_address cut (credit proposer share accounts)
          (credit-IsSorted proposer share accounts s)
          (omega (arith, paid, fee_cut-le params fees h)),
    )

module _ (x : Externals) (id : Transaction → ℕ) (evm_execute : Evm) where
  -- Where the accounts stand in order and their sum and the fees so far fit in a u128, the loop over
  -- a block's transactions, if none of them fails, takes from that sum what it adds to the fees, and
  -- besides only the amounts of EVM transactions.
  pub apply_transactions_lem :
      (engine : Engine) (height : ℕ) (txs : List Transaction) (fees : ℕ) (st : ExecutionState)
      (receipts : List Receipt) (total : ℕ)
      → IsSorted st.accounts
      → total_balance st.accounts + fees ≤ u128_max
      → (apply_transactions x id evm_execute engine height txs fees st).0 ≡ ok (receipts, total)
      → let after = (apply_transactions x id evm_execute engine height txs fees st).1.accounts in
        (total_balance after + total + sum_by uncredited txs ≡ total_balance st.accounts + fees)
        × IsSorted after
  unfolding apply_transactions
  apply_transactions_lem engine height [] fees st receipts total s room h = (ground arith, s)
  apply_transactions_lem engine height (tx ∷ txs) fees st receipts total s room h =
      let step = apply_transaction x id evm_execute engine height tx st in
      elim (Result-cases step.0) [
        | inl (e, bad) ↦ absurd (ground (arith, bad))
        | inr (r, fine) ↦
            let (sum, sorted, fee, before, bumped) =
              apply_transaction_lem x id evm_execute engine height tx st r s (omega arith) fine in
            let grown = wrapping_add128 fees r.fee_charged in
            let exact : grown ≡ fees + tx.body.fee = rw fee (omega (arith, sum, room)) in
            let next = apply_transactions x id evm_execute engine height txs grown step.1 in
            elim (Result-cases next.0) [
              | inl (e, bad) ↦ absurd (ground (arith, fine, bad))
              | inr ((rs, t), good) ↦
                  let same : t ≡ total = ground (arith, fine, good) in
                  let (ih, after) =
                    apply_transactions_lem engine height txs grown step.1 rs t sorted
                      (omega (arith, sum, exact, room)) good in
                  rw (fine, apply_transactions, good) (omega (arith, ih, sum, exact, same), after)
            ]
      ]
