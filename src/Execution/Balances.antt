-- ===== src/Execution/Balances.antt =====
-- The sum of all balances, as accounts are written.
use zeno_final_code.Common.{
  ℕ, ◌+◌, ◌≤◌, ◌≡◌, inl, inr, ◌==◌, if◌then◌else◌, arith, Option-cases, sum_by, u128_max,
  saturating_add,
}
use zeno_final_code.TreeMap
use zeno_final_code.TreeMap.{TreeMap, nat_key, get-insert}
use zeno_final_code.TreeMap.Sorted.{IsSorted, insert-IsSorted, sum_by-insert, sum_by-insert_new}
use zeno_final_code.Types.{Account, default_account}
use zeno_final_code.Execution.{Accounts, account, put_account, credit}

abbrev pub balance_of : ℕ × Account → ℕ
balance_of (address, a) = a.balance

abbrev pub total_balance : Accounts → ℕ
total_balance = sum_by balance_of

-- One account is written: the sum changes by the change of its balance.
pub total_balance-put_account :
    (address : ℕ) (a : Account) (accounts : Accounts)
    → IsSorted accounts
    → total_balance (put_account address a accounts) + (account address accounts).balance
      ≡ total_balance accounts + a.balance
total_balance-put_account address a accounts s =
    elim (Option-cases (TreeMap.get address accounts)) [
      | inl e ↦ rw e (omega (arith, sum_by-insert_new balance_of address a accounts e))
      | inr (old, e) ↦ rw e (sum_by-insert balance_of address a old accounts s e)
    ]

pub balance-le-total :
    (address : ℕ) (accounts : Accounts)
    → IsSorted accounts
    → (account address accounts).balance ≤ total_balance accounts
balance-le-total address accounts s =
    omega (arith, total_balance-put_account address default_account accounts s)

pub account-put_account :
    (a b : ℕ) (v : Account) (accounts : Accounts)
    → account b (put_account a v accounts) ≡ (if b == a then v else account b accounts)
account-put_account a b v accounts = ground (arith, get-insert a b v accounts)

-- A credit that does not saturate raises the sum by its amount.
pub total_balance-credit :
    (address amount : ℕ) (accounts : Accounts)
    → IsSorted accounts
    → total_balance accounts + amount ≤ u128_max
    → total_balance (credit address amount accounts) ≡ total_balance accounts + amount
total_balance-credit address amount accounts s room =
    let a = account address accounts in
    omega (
      arith,
      total_balance-put_account address
          (record a { balance = saturating_add u128_max a.balance amount }) accounts s,
      balance-le-total address accounts s,
    )

pub credit-IsSorted :
    (address amount : ℕ) (accounts : Accounts)
    → IsSorted accounts
    → IsSorted (credit address amount accounts)
credit-IsSorted address amount accounts s = insert-IsSorted address _ accounts s
