-- ===== src/Execution/Transactions.antt =====
-- `apply_transaction`: what a success takes and gives, whom it leaves alone, and that it is not
-- repeated.
use zeno_final_code.Execution.{
  Evm, ExecutionState, Accounts, account, put_account, credit, Engine, Receipt,
  validate_transaction, settle, debit, apply_transaction, receipt,
}
use zeno_final_code.Common.Results.{Result-cases, Result, ok}
use zeno_final_code.Common.{
  ℕ, ◌+◌, ◌≤◌, ◌≡◌, refl, ap, sym, ◌∙◌, inl, inr, none, some, if◌then◌else◌, arith, Option-cases,
  u128_max, saturating_add, is_some,
}
use zeno_final_code.TreeMap.{nat_key}
use zeno_final_code.TreeMap.Sorted.{IsSorted, insert-IsSorted}
use zeno_final_code.Types.{Account, Transaction, EvmTransaction}
use zeno_final_code.Primitives.{Externals}
use zeno_final_code.Execution.Balances.{
  total_balance, total_balance-put_account, total_balance-credit, account-put_account,
  credit-IsSorted,
}

ok-injective : {E A : Type 0} {a b : A} → ◌≡◌ {A = Result E A} (ok a) (ok b) → a ≡ b
ok-injective h = cc

-- What a transaction takes out of the accounts besides its fee: an EVM transaction's amount is
-- credited to no account.
abbrev pub uncredited : Transaction → ℕ
uncredited tx = if is_some tx.body.evm then tx.body.amount else 0

none-uncredited : (tx : Transaction) → tx.body.evm ≡ none → uncredited tx ≡ 0
none-uncredited tx e = ground arith

some-uncredited :
    (tx : Transaction) (evm : EvmTransaction)
    → tx.body.evm ≡ some evm
    → uncredited tx ≡ tx.body.amount
some-uncredited tx evm e = ground arith

module _ (x : Externals) (id : Transaction → ℕ) (evm_execute : Evm) where
  debit-inv :
      (tx : Transaction) (s s' : Account)
      → debit x id evm_execute tx s ≡ ok s'
      → (s'.balance + tx.body.amount + tx.body.fee ≡ s.balance) × (s'.nonce ≡ s.nonce + 1)
  unfolding debit
  debit-inv tx s s' h = ground arith

  -- The state with the sender debited.
  abbrev debited : Transaction → Account → ExecutionState → ExecutionState
  debited tx sender st = record st { accounts = put_account tx.body.sender sender st.accounts }

  -- A successful application, taken apart.
  apply-inv :
      (engine : Engine) (height : ℕ) (tx : Transaction) (st : ExecutionState) (r : Receipt)
      → (apply_transaction x id evm_execute engine height tx st).0 ≡ ok r
      → (s : Account) × (validate_transaction x id evm_execute engine st.accounts height tx ≡ ok tt)
        × (debit x id evm_execute tx (account tx.body.sender st.accounts) ≡ ok s)
        × (apply_transaction x id evm_execute engine height tx st
            ≡ settle x id evm_execute engine height tx (debited tx s st))
  unfolding apply_transaction
  apply-inv engine height tx st r h =
      elim (Result-cases (validate_transaction x id evm_execute engine st.accounts height tx)) [
        | inl (e, ev) ↦ absurd (ground (arith, ev))
        | inr (u, ev) ↦
            elim (Result-cases (debit x id evm_execute tx (account tx.body.sender st.accounts))) [
              | inl (e, ed) ↦ absurd (ground (arith, ev, ed))
              | inr (s, ed) ↦ (s, ev, ed, rw (ev, ed, apply_transaction) refl)
            ]
      ]

  -- A valid transaction carries its sender's nonce, and its check of the signature has passed.
  validate-nonce :
      (engine : Engine) (accounts : Accounts) (height : ℕ) (tx : Transaction)
      → validate_transaction x id evm_execute engine accounts height tx ≡ ok tt
      → (account tx.body.sender accounts).nonce ≡ tx.body.nonce
  unfolding validate_transaction
  validate-nonce engine accounts height tx h = ground arith

  settle-native :
      (engine : Engine) (height : ℕ) (tx : Transaction) (st : ExecutionState)
      → tx.body.evm ≡ none
      → settle x id evm_execute engine height tx st ≡ (
        ok (receipt x id evm_execute height tx none),
        record st { accounts = credit tx.body.recipient tx.body.amount st.accounts },
      )
  unfolding settle
  settle-native engine height tx st e = ground arith

  settle-evm :
      (engine : Engine) (height : ℕ) (tx : Transaction) (st : ExecutionState) (evm : EvmTransaction)
      (r : Receipt)
      → tx.body.evm ≡ some evm
      → (settle x id evm_execute engine height tx st).0 ≡ ok r
      → ((settle x id evm_execute engine height tx st).1.accounts ≡ st.accounts)
        × (r.fee_charged ≡ tx.body.fee)
  unfolding settle
  settle-evm engine height tx st evm r e h = ground arith

  -- What `settle` leaves: the balances and every nonce.
  settle_lem :
      (engine : Engine) (height : ℕ) (tx : Transaction) (st : ExecutionState) (r : Receipt)
      → IsSorted st.accounts
      → total_balance st.accounts + tx.body.amount ≤ u128_max
      → (settle x id evm_execute engine height tx st).0 ≡ ok r
      → let after = (settle x id evm_execute engine height tx st).1.accounts in
        (total_balance after + uncredited tx ≡ total_balance st.accounts + tx.body.amount)
        × IsSorted after
        × (r.fee_charged ≡ tx.body.fee)
        × ((a : ℕ) → (account a after).nonce ≡ (account a st.accounts).nonce)
  settle_lem engine height tx st r s room h = elim (Option-cases tx.body.evm) [
    | inl e ↦
        let shape = settle-native engine height tx st e in
        let paid = ok-injective (sym (ap (λ p. p.0) shape) ∙ h) in
        let recipient = account tx.body.recipient st.accounts in
        let credited : Account = record recipient {
          balance = saturating_add u128_max recipient.balance tx.body.amount;
        } in
        rw (shape, e)
          (
            omega (
              arith,
              total_balance-credit tx.body.recipient tx.body.amount st.accounts s room,
              none-uncredited tx e,
            ),
            credit-IsSorted tx.body.recipient tx.body.amount st.accounts s,
            ap (λ (q : Receipt). q.fee_charged) (sym paid),
            λ a. ground (arith, account-put_account tx.body.recipient a credited st.accounts),
          )
    | inr (evm, e) ↦
        let (same, fee) = settle-evm engine height tx st evm r e h in
        rw same (omega (arith, some-uncredited tx evm e), s, fee, λ a. refl)
  ]

  -- Where the accounts stand in order and their sum fits in a u128, a transaction that applies takes
  -- from that sum its fee, and besides only the amount of an EVM transaction; its receipt charges
  -- the fee, and the sender's nonce, which was the transaction's, goes up by one.
  pub apply_transaction_lem :
      (engine : Engine) (height : ℕ) (tx : Transaction) (st : ExecutionState) (r : Receipt)
      → IsSorted st.accounts
      → total_balance st.accounts ≤ u128_max
      → (apply_transaction x id evm_execute engine height tx st).0 ≡ ok r
      → let after = (apply_transaction x id evm_execute engine height tx st).1.accounts in
        (total_balance after + tx.body.fee + uncredited tx ≡ total_balance st.accounts)
        × IsSorted after
        × (r.fee_charged ≡ tx.body.fee)
        × ((account tx.body.sender st.accounts).nonce ≡ tx.body.nonce)
        × ((account tx.body.sender after).nonce ≡ tx.body.nonce + 1)
  apply_transaction_lem engine height tx st r s fits h =
      let (sender, valid, debit', shape) = apply-inv engine height tx st r h in
      let (paid, bumped) = debit-inv tx (account tx.body.sender st.accounts) sender debit' in
      let start = validate-nonce engine st.accounts height tx valid in
      let written = total_balance-put_account tx.body.sender sender st.accounts s in
      let (sum, sorted, fee, nonces) =
        settle_lem engine height tx (debited tx sender st) r
          (insert-IsSorted tx.body.sender sender st.accounts s) (omega (arith, written, paid))
          (sym (ap (λ p. p.0) shape) ∙ h) in
      rw shape (
        omega (arith, sum, written, paid),
        sorted,
        fee,
        start,
        ground (
          arith,
          nonces tx.body.sender,
          account-put_account tx.body.sender tx.body.sender sender st.accounts,
        ),
      )
