-- ===== src/Execution/Commit.antt =====
-- A block that is built is accepted; the store that a block is committed to has the state that the
-- block's header commits to; and an error leaves it as it was, but for the EVM's accounts.
use zeno_final_code.Execution.{
  ExecutionState, Accounts, Engine, Receipt, apply_transactions, credit_fees,
}
use zeno_final_code.Execution.Frame.{
  run_block-frame, run_block-native, prepare_block-frame, prepare_block-native, uses_evm,
  uses_evm-AreNative,
}
use zeno_final_code.Common.{
  ◌⊎◌, ◌==◌, Bool-cases, subst, ℕ, ◌≡◌, refl, sym, ap, ◌∙◌, inl, inr, Bool, true, Option, some,
  List, arith, Option-cases,
}
use zeno_final_code.Common.Results.{ok, err, Result-cases}
use zeno_final_code.TreeMap
use zeno_final_code.TreeMap.{nat_key, get-insert, get-insert_self}
use zeno_final_code.TreeMap.Sorted.{IsSorted}
use zeno_final_code.Types.{Transaction, Block, EpochTransition}
use zeno_final_code.Primitives.{verify_block}
use zeno_final_code.Execution.Blocks.{
  ChainCode, BlockError, PreparedBlock, transaction_root, receipt_root, state_root,
  apply_block_accounting, check_roots, run_block, prepare_block, build_header, id,
  dry_run_transactions, persist_accounting, validate_and_commit_finalized_block, hash_of,
  parent_hash,
}
use zeno_final_code.Storage.{
  FinalizedBlock, Store, put_accounts, atomic_commit_block, get_block_by_height, get_block_by_hash,
}
use zeno_final_code.Execution.Growth.{
  Extends, Extends-refl, Extends-trans, Extends-apply_transactions, Extends-credit_fees,
  put_accounts-Extends,
}

module _ (c : ChainCode) where
  accounts-apply_block_accounting :
      (engine : Engine) (store : Store) (proposer fees height : ℕ) (m : Accounts)
      → (apply_block_accounting c engine store proposer fees height m).1
        ≡ credit_fees engine.economics proposer fees m
  unfolding apply_block_accounting
  accounts-apply_block_accounting engine store proposer fees height m =
      elim (Option-cases engine.economics) [
        | inl e ↦ rw (e, apply_block_accounting) refl
        | inr (params, e) ↦ rw (e, apply_block_accounting) refl
      ]

  Extends-run_block :
      (engine : Engine) (store : Store) (height proposer : ℕ) (txs : List Transaction)
      (p : PreparedBlock)
      → (run_block c engine store height proposer txs).0 ≡ ok p
      → Extends store.accounts p.state
  unfolding run_block
  Extends-run_block engine store height proposer txs p h =
      let st : ExecutionState = record {
        accounts = store.accounts;
        evm_accounts = store.evm_accounts;
      } in
      let run = apply_transactions c.externals (id c) c.evm_execute engine height txs 0 st in
      let left : Store = record store { evm_accounts = run.1.evm_accounts } in
      let first =
        Extends-apply_transactions c.externals (id c) c.evm_execute engine height txs 0 st in
      elim (Result-cases run.0) [
        | inl (e, q) ↦ absurd (ground (arith, q))
        | inr ((receipts, fees), q) ↦
            let accounting =
              apply_block_accounting c engine left proposer fees height run.1.accounts in
            elim (Result-cases accounting.0) [
              | inl (e, r) ↦ absurd (ground (arith, q, r))
              | inr (artifacts, r) ↦
                  let credited =
                    accounts-apply_block_accounting engine left proposer fees height
                      run.1.accounts in
                  let same : credit_fees engine.economics proposer fees run.1.accounts ≡ p.state =
                    sym credited ∙ ground (arith, q, r) in
                  subst (Extends store.accounts) same (
                    Extends-trans store.accounts run.1.accounts _ first
                      (Extends-credit_fees engine.economics proposer fees run.1.accounts))
            ]
      ]

  -- A block whose header `build_header` made after a dry run of its transactions, on the store that
  -- the dry run leaves, and whose proposer's signature verifies, is accepted on a store as it was
  -- before the dry run, with the state and the receipts of the dry run, and leaves what that left.
  -- Where no transaction is for the EVM, the dry run leaves the proposer's own store as it was, so
  -- that the block is accepted there too.
  pub prepare_block-build_header :
      (engine : Engine) (store after : Store) (b : Block) (accounts : Accounts)
      (receipts : List Receipt) (proposer height round timestamp_ms : ℕ)
      → dry_run_transactions c engine store height b.transactions proposer
        ≡ (ok (accounts, receipts), after)
      → b.header
        ≡ build_header c engine after proposer height round timestamp_ms b.transactions accounts
            receipts
      → verify_block c.externals b ≡ true
      → ((p : PreparedBlock) × (prepare_block c engine store b ≡ (ok p, after))
          × (p.state ≡ accounts)
          × (p.receipts ≡ receipts))
        × ((uses_evm b.transactions ≡ true) ⊎ (after ≡ store))
  unfolding dry_run_transactions prepare_block check_roots build_header
  prepare_block-build_header engine store after b accounts receipts proposer height round
        timestamp_ms dry built signed =
      let ran = run_block c engine store height proposer b.transactions in
      let left : ran.1 ≡ after = ap (λ d. d.1) dry in
      let result = ap (λ d. d.0) dry in
      let frame = run_block-frame c engine store height proposer b.transactions in
      let parent : parent_hash c after ≡ parent_hash c store =
        ap (parent_hash c) (sym left ∙ frame) in
      (
        elim (Result-cases ran.0) [
          | inl (e, q) ↦ absurd (ground (arith, q, result))
          | inr (p, q) ↦
              let states : p.state ≡ accounts = ground (arith, q, result) in
              let receipts' : p.receipts ≡ receipts = ground (arith, q, result) in
              let run : (run_block c engine store b.header.height b.header.proposer
                    b.transactions).0
                  ≡ ok p =
                rw built q in
              let stored : (run_block c engine store b.header.height b.header.proposer
                    b.transactions).1
                  ≡ after =
                rw built left in
              let parent_ok : (b.header.parent_hash == parent_hash c store) ≡ true =
                rw (built, parent) (ground arith) in
              let checked : check_roots c b p ≡ ok p =
                rw (built, states, receipts') (ground arith) in
              (
                p,
                rw (signed, prepare_block, parent_ok, run, stored, checked) refl,
                states,
                receipts',
              )
        ],
        elim (Bool-cases (uses_evm b.transactions)) [
          | inl used ↦ inl used
          | inr native ↦ inr (
              sym left
              ∙ run_block-native c engine store height proposer b.transactions
                  (uses_evm-AreNative b.transactions native))
        ],
      )

  persist_accounting-fields :
      (p : PreparedBlock) (store : Store)
      → ((persist_accounting c p store).accounts ≡ put_accounts p.state store.accounts)
        × ((persist_accounting c p store).blocks_by_height ≡ store.blocks_by_height)
        × ((persist_accounting c p store).blocks_by_hash ≡ store.blocks_by_hash)
  unfolding persist_accounting
  persist_accounting-fields p store = ground arith

  stored_height :
      (f : FinalizedBlock) (m : Accounts) (store : Store)
      → get_block_by_height f.block.header.height (atomic_commit_block (hash_of c) f m store)
        ≡ some f
  unfolding atomic_commit_block
  stored_height f m store = get-insert_self f.block.header.height f store.blocks_by_height

  stored_hash :
      (f : FinalizedBlock) (m : Accounts) (store : Store)
      → get_block_by_hash (hash_of c f.block) (atomic_commit_block (hash_of c) f m store) ≡ some f
  unfolding atomic_commit_block
  stored_hash f m store = get-insert_self (hash_of c f.block) f store.blocks_by_hash

  -- What is stored twice over the accounts that it extends is stored as it is.
  committed_accounts :
      (f : FinalizedBlock) (store : Store) (p : PreparedBlock)
      → IsSorted store.accounts
      → Extends store.accounts p.state
      → (persist_accounting c p (atomic_commit_block (hash_of c) f p.state store)).accounts
        ≡ p.state
  unfolding atomic_commit_block
  committed_accounts f store p s grown =
      let written = atomic_commit_block (hash_of c) f p.state store in
      let once : written.accounts ≡ p.state = put_accounts-Extends p.state store.accounts s grown in
      (persist_accounting-fields p written).0
      ∙ ap (put_accounts p.state) once
      ∙ put_accounts-Extends p.state p.state (grown s).0 (Extends-refl p.state)

  -- What an accepted block fulfils.
  pub prepare_block-parts :
      (engine : Engine) (store : Store) (b : Block) (p : PreparedBlock)
      → (prepare_block c engine store b).0 ≡ ok p
      → (verify_block c.externals b ≡ true)
        × (b.header.parent_hash ≡ parent_hash c store)
        × ((run_block c engine store b.header.height b.header.proposer b.transactions).0 ≡ ok p)
        × (b.header.tx_root ≡ transaction_root c b.transactions)
        × (b.header.receipt_root ≡ receipt_root c p.receipts)
        × (b.header.state_root ≡ state_root c p.state)
  unfolding prepare_block check_roots
  prepare_block-parts engine store b p h =
      elim (Result-cases
        (run_block c engine store b.header.height b.header.proposer b.transactions).0) [
          | inl (e, q) ↦ absurd (ground (arith, q))
          | inr (r, q) ↦
              let same : r ≡ p = ground (arith, q) in rw (q, same) (ground (arith, q, same))
        ]

  module _ (receipts_eq : List Receipt → List Receipt → Bool)
      (transition_eq : Option EpochTransition → Option EpochTransition → Bool) where
    -- A finalized block that is refused, whatever the error, leaves the store as it was but for the
    -- EVM's accounts, which its transactions may have written before the error; where none of them is
    -- for the EVM, it leaves the whole store as it was.
    pub validate_and_commit_finalized_block-error :
        (engine : Engine) (f : FinalizedBlock) (store : Store) (e : BlockError)
        → (validate_and_commit_finalized_block c receipts_eq transition_eq engine f store).0 ≡ err e
        → let after =
            (validate_and_commit_finalized_block c receipts_eq transition_eq engine f store).1 in
          (after ≡ record store { evm_accounts = after.evm_accounts })
          × ((uses_evm f.block.transactions ≡ true) ⊎ (after ≡ store))
    unfolding validate_and_commit_finalized_block
    validate_and_commit_finalized_block-error engine f store e h =
        let prepared = prepare_block c engine store f.block in
        let left : (validate_and_commit_finalized_block c receipts_eq transition_eq engine f
              store).1
            ≡ prepared.1 =
          ground arith in
        let frame = prepare_block-frame c engine store f.block in
        rw left (
          frame,
          elim (Bool-cases (uses_evm f.block.transactions)) [
            | inl used ↦ inl used
            | inr native ↦ inr (
                prepare_block-native c engine store f.block
                  (uses_evm-AreNative f.block.transactions native))
          ],
        )

    -- A finalized block that is accepted is stored at its height and by its hash, names the block that
    -- was the latest as its parent, and its header commits to its transactions, to the receipts of
    -- their execution and to the accounts that the store then has, where the store's accounts are in
    -- order.
    pub validate_and_commit_finalized_block_lem :
        (engine : Engine) (f : FinalizedBlock) (store : Store)
        → IsSorted store.accounts
        → (validate_and_commit_finalized_block c receipts_eq transition_eq engine f store).0 ≡ ok tt
        → let after =
            (validate_and_commit_finalized_block c receipts_eq transition_eq engine f store).1 in
          (f.block.header.state_root ≡ state_root c after.accounts)
          × (f.block.header.parent_hash ≡ parent_hash c store)
          × (f.block.header.tx_root ≡ transaction_root c f.block.transactions)
          × ((p : PreparedBlock) × ((run_block c engine store f.block.header.height
                  f.block.header.proposer f.block.transactions).0
                ≡ ok p)
              × (f.block.header.receipt_root ≡ receipt_root c p.receipts)
              × (receipts_eq p.receipts f.receipts ≡ true))
          × (get_block_by_height f.block.header.height after ≡ some f)
          × (get_block_by_hash (hash_of c f.block) after ≡ some f)
    unfolding validate_and_commit_finalized_block
    validate_and_commit_finalized_block_lem engine f store s h =
        elim (Result-cases (prepare_block c engine store f.block).0) [
          | inl (e, q) ↦ absurd (ground (arith, q))
          | inr (p, q) ↦
              let (_, parent, run, txs, receipts, state) =
                prepare_block-parts engine store f.block p q in
              let same_receipts : receipts_eq p.receipts f.receipts ≡ true = ground (arith, q) in
              let same_transition : transition_eq p.accounting.epoch_transition f.epoch_transition
                  ≡ true =
                ground (arith, q) in
              let left = (prepare_block c engine store f.block).1 in
              let kept =
                ap (λ (st : Store). st.accounts) (prepare_block-frame c engine store f.block) in
              let written = atomic_commit_block (hash_of c) f p.state left in
              let (_, by_height, by_hash) = persist_accounting-fields p written in
              let grown =
                Extends-run_block engine store f.block.header.height f.block.header.proposer
                  f.block.transactions p run in
              rw (q, validate_and_commit_finalized_block, same_receipts, same_transition)
                (
                  state
                      ∙ ap (state_root c)
                          (sym (committed_accounts f left p (rw kept s) (rw kept grown))),
                  parent,
                  txs,
                  (p, run, receipts, same_receipts),
                  ap (TreeMap.get f.block.header.height) by_height ∙ stored_height f p.state left,
                  ap (TreeMap.get (hash_of c f.block)) by_hash ∙ stored_hash f p.state left,
                )
        ]
