-- ===== src/Execution/Frame.antt =====
-- What the execution of transactions leaves of the store: all but the EVM's accounts, and these too
-- where no transaction is the EVM's.
use zeno_final_code.Common.{
  Bool, false, is_some, ◌||◌, ℕ, ◌≡◌, refl, ◌∙◌, inl, inr, not, none, List, [], ◌∷◌, ◌==◌, arith,
  All, Bool-cases, wrapping_add128,
}
use zeno_final_code.Common.Results.{Result-cases}
use zeno_final_code.Types.{Transaction, Block}
use zeno_final_code.Primitives.{Externals, verify_block}
use zeno_final_code.Storage.{Store}
use zeno_final_code.Execution.{
  Engine, Evm, ExecutionState, settle, apply_transaction, apply_transactions,
}
use zeno_final_code.Execution.Blocks.{ChainCode, id, parent_hash, run_block, prepare_block}

-- No transaction is for the EVM.
abbrev pub AreNative : List Transaction → Type 0
AreNative txs = All (λ (tx : Transaction). tx.body.evm ≡ none) txs

-- Whether a transaction is for the EVM.
unfoldable pub uses_evm : List Transaction → Bool
uses_evm [] = false
uses_evm (tx ∷ txs) = is_some tx.body.evm || uses_evm txs

pub uses_evm-AreNative : (txs : List Transaction) → uses_evm txs ≡ false → AreNative txs
unfolding uses_evm
uses_evm-AreNative [] h = tt
uses_evm-AreNative (tx ∷ txs) h = (ground arith, uses_evm-AreNative txs (ground arith))

module _ (x : Externals) (id : Transaction → ℕ) (evm_execute : Evm) where
  evm_accounts-apply_transaction :
      (engine : Engine) (height : ℕ) (tx : Transaction) (st : ExecutionState)
      → tx.body.evm ≡ none
      → (apply_transaction x id evm_execute engine height tx st).1.evm_accounts ≡ st.evm_accounts
  unfolding apply_transaction settle
  evm_accounts-apply_transaction engine height tx st native = ground arith

  evm_accounts-apply_transactions :
      (engine : Engine) (height : ℕ) (txs : List Transaction) (fees : ℕ) (st : ExecutionState)
      → AreNative txs
      → (apply_transactions x id evm_execute engine height txs fees st).1.evm_accounts
        ≡ st.evm_accounts
  unfolding apply_transactions
  evm_accounts-apply_transactions engine height [] fees st native = refl
  evm_accounts-apply_transactions engine height (tx ∷ txs) fees st native =
      let step = apply_transaction x id evm_execute engine height tx st in
      let first = evm_accounts-apply_transaction engine height tx st native.0 in
      elim (Result-cases step.0) [
        | inl (e, q) ↦ rw (q, apply_transactions) first
        | inr (r, q) ↦
            let grown = wrapping_add128 fees r.fee_charged in
            let rest = apply_transactions x id evm_execute engine height txs grown step.1 in
            let later = evm_accounts-apply_transactions engine height txs grown step.1 native.1 in
            elim (Result-cases rest.0) [
              | inl (e, h) ↦ rw (q, apply_transactions, h) (later ∙ first)
              | inr (out, h) ↦ rw (q, apply_transactions, h) (later ∙ first)
            ]
      ]

module _ (c : ChainCode) where
  pub run_block-native :
      (engine : Engine) (store : Store) (height proposer : ℕ) (txs : List Transaction)
      → AreNative txs
      → (run_block c engine store height proposer txs).1 ≡ store
  unfolding run_block
  run_block-native engine store height proposer txs native =
      let st : ExecutionState = record {
        accounts = store.accounts;
        evm_accounts = store.evm_accounts;
      } in
      rw
        (evm_accounts-apply_transactions c.externals (id c) c.evm_execute engine height txs 0 st
          native)
        refl

  pub run_block-frame :
      (engine : Engine) (store : Store) (height proposer : ℕ) (txs : List Transaction)
      → let after = (run_block c engine store height proposer txs).1 in
        after ≡ record store { evm_accounts = after.evm_accounts }
  unfolding run_block
  run_block-frame engine store height proposer txs = refl

  pub prepare_block-frame :
      (engine : Engine) (store : Store) (b : Block)
      → let after = (prepare_block c engine store b).1 in
        after ≡ record store { evm_accounts = after.evm_accounts }
  unfolding prepare_block
  prepare_block-frame engine store b = elim (Bool-cases (not (verify_block c.externals b))) [
    | inl h ↦ rw (h, prepare_block) refl
    | inr h ↦ elim (Bool-cases (not (b.header.parent_hash == parent_hash c store))) [
      | inl k ↦ rw (h, prepare_block, k) refl
      | inr k ↦
          rw (h, prepare_block, k)
            (run_block-frame engine store b.header.height b.header.proposer b.transactions)
    ]
  ]

  pub prepare_block-native :
      (engine : Engine) (store : Store) (b : Block)
      → AreNative b.transactions
      → (prepare_block c engine store b).1 ≡ store
  unfolding prepare_block
  prepare_block-native engine store b native =
      ground (
        arith,
        run_block-native engine store b.header.height b.header.proposer b.transactions native,
      )
