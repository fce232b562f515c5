-- ===== src/Execution/Growth.antt =====
-- Execution keeps the accounts in order and forgets none, so that storing the accounts after a block
-- over the earlier ones stores just the accounts after the block.
use zeno_final_code.Execution.{
  Evm, ExecutionState, Accounts, Engine, put_account, account, settle, debit, validate_transaction,
  apply_transaction, apply_transactions, credit_fees,
}
use zeno_final_code.Common.{
  ◌%◌, ◌^◌, wrapping_add128, ℕ, ◌≡◌, refl, inl, inr, true, Option, none, some, List, [], ◌∷◌, arith,
  is_some, Option-cases,
}
use zeno_final_code.Common.Results.{Result-cases}
use zeno_final_code.TreeMap
use zeno_final_code.TreeMap.{nat_key, get-insert, get-insert_self}
use zeno_final_code.TreeMap.Sorted.{IsSorted, insert-IsSorted, get-Above}
use zeno_final_code.TreeMap.Extensional.{ext-IsSorted}
use zeno_final_code.Types.{Account, Transaction, EconomicsParams}
use zeno_final_code.Primitives.{Externals}
use zeno_final_code.Storage.{put_accounts}

-- The later accounts are in order if the earlier ones are, and still have all of them.
abbrev pub Extends : Accounts → Accounts → Type 0
Extends before after =
    IsSorted before
    → IsSorted after
      × ((k : ℕ) → is_some (TreeMap.get k before) ≡ true → is_some (TreeMap.get k after) ≡ true)

pub Extends-refl : (m : Accounts) → Extends m m
Extends-refl m = λ s. (s, λ k h. h)

pub Extends-trans : (a b c : Accounts) → Extends a b → Extends b c → Extends a c
Extends-trans a b c f g = λ s. ((g (f s).0).0, λ k h. (g (f s).0).1 k ((f s).1 k h))

pub Extends-put_account :
    (address : ℕ) (a : Account) (m : Accounts) → Extends m (put_account address a m)
Extends-put_account address a m =
    λ s. (insert-IsSorted address a m s, λ k h. ground (arith, get-insert address k a m))

module _ (x : Externals) (id : Transaction → ℕ) (evm_execute : Evm) where
  Extends-settle :
      (engine : Engine) (height : ℕ) (tx : Transaction) (st : ExecutionState)
      → Extends st.accounts (settle x id evm_execute engine height tx st).1.accounts
  unfolding settle
  Extends-settle engine height tx st = elim (Option-cases tx.body.evm) [
    | inl e ↦ rw (e, settle) (Extends-put_account tx.body.recipient _ st.accounts)
    | inr (evm, e) ↦ elim (Option-cases engine.evm_chain_id) [
      | inl q ↦ rw (e, settle, q) (Extends-refl st.accounts)
      | inr (chain, q) ↦
          elim (Option-cases (evm_execute chain (tx.body.sender % 2 ^ 160) evm st.evm_accounts).0) [
            | inl r ↦ rw (e, settle, q, r) (Extends-refl st.accounts)
            | inr (result, r) ↦ rw (e, settle, q, r) (Extends-refl st.accounts)
          ]
    ]
  ]

  Extends-apply_transaction :
      (engine : Engine) (height : ℕ) (tx : Transaction) (st : ExecutionState)
      → Extends st.accounts (apply_transaction x id evm_execute engine height tx st).1.accounts
  unfolding apply_transaction
  Extends-apply_transaction engine height tx st =
      elim (Result-cases (validate_transaction x id evm_execute engine st.accounts height tx)) [
        | inl (e, q) ↦ rw (q, apply_transaction) (Extends-refl st.accounts)
        | inr (u, q) ↦
            elim (Result-cases (debit x id evm_execute tx (account tx.body.sender st.accounts))) [
              | inl (e, r) ↦ rw (q, apply_transaction, r) (Extends-refl st.accounts)
              | inr (sender, r) ↦
                  let mid = put_account tx.body.sender sender st.accounts in
                  rw (q, apply_transaction, r)
                    (Extends-trans st.accounts mid _
                      (Extends-put_account tx.body.sender sender st.accounts)
                      (Extends-settle engine height tx (record st { accounts = mid })))
            ]
      ]

  pub Extends-apply_transactions :
      (engine : Engine) (height : ℕ) (txs : List Transaction) (fees : ℕ) (st : ExecutionState)
      → Extends st.accounts
          (apply_transactions x id evm_execute engine height txs fees st).1.accounts
  unfolding apply_transactions
  Extends-apply_transactions engine height [] fees st = Extends-refl st.accounts
  Extends-apply_transactions engine height (tx ∷ txs) fees st =
      let step = apply_transaction x id evm_execute engine height tx st in
      let first = Extends-apply_transaction engine height tx st in
      elim (Result-cases step.0) [
        | inl (e, q) ↦ rw (q, apply_transactions) first
        | inr (r, q) ↦
            let grown = wrapping_add128 fees r.fee_charged in
            let rest = apply_transactions x id evm_execute engine height txs grown step.1 in
            let later = Extends-apply_transactions engine height txs grown step.1 in
            let both = Extends-trans st.accounts step.1.accounts rest.1.accounts first later in
            elim (Result-cases rest.0) [
              | inl (e, h) ↦ rw (q, apply_transactions, h) both
              | inr (out, h) ↦ rw (q, apply_transactions, h) both
            ]
      ]

pub Extends-credit_fees :
    (params : Option EconomicsParams) (proposer fees : ℕ) (m : Accounts)
    → Extends m (credit_fees params proposer fees m)
unfolding credit_fees
Extends-credit_fees none proposer fees m = Extends-put_account proposer _ m
Extends-credit_fees (some params) proposer fees m =
    Extends-trans m _ _ (Extends-put_account proposer _ m) (Extends-put_account 0 _ _)

get-put_accounts :
    (m stored : Accounts) (k : ℕ)
    → IsSorted m
    → TreeMap.get k (put_accounts m stored)
      ≡ elim (TreeMap.get k m) [ some a ↦ some a | none ↦ TreeMap.get k stored ]
unfolding put_accounts TreeMap.get
get-put_accounts [] stored k s = refl
get-put_accounts ((j, a) ∷ m) stored k s = ground (
  arith,
  get-put_accounts m (TreeMap.insert j a stored) k s.1,
  get-insert j k a stored,
  get-Above j m s.0,
)

put_accounts-IsSorted : (m stored : Accounts) → IsSorted stored → IsSorted (put_accounts m stored)
unfolding put_accounts
put_accounts-IsSorted [] stored s = s
put_accounts-IsSorted ((j, a) ∷ m) stored s =
    put_accounts-IsSorted m (TreeMap.insert j a stored) (insert-IsSorted j a stored s)

-- Accounts that were changed and added to are stored over the earlier ones as they are.
pub put_accounts-Extends :
    (m stored : Accounts) → IsSorted stored → Extends stored m → put_accounts m stored ≡ m
put_accounts-Extends m stored s f =
    let (sorted, keeps) = f s in
    ext-IsSorted (put_accounts m stored) m (put_accounts-IsSorted m stored s) sorted
      λ k. ground (arith, get-put_accounts m stored k sorted, keeps k)
