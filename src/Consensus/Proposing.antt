-- ===== src/Consensus/Proposing.antt =====
-- Proposals (crates/zeno-consensus/src/lib.rs): the check of one that comes in, what it sets off, the
-- own proposal with its slashing protection, and a round's timeout. The clock is an argument.
use Prim.Native.String.{String}
use text.Mathlib.Text.{◌==◌ as str_eq}
use zeno_final_code.Consensus.{adopt_proposal, ConsensusWalEntry, RoundState}
use zeno_final_code.Consensus.Engine.{
  modify, Config, Replica, LocalValidator, Proposal, ProposalError, unexpected_proposer,
  proposer_mismatch, public_key_mismatch, chain_id_mismatch, height_mismatch, round_mismatch,
  too_many_transactions, parent_mismatch, invalid_signature, invalid_transaction, sender_underflow,
  sender_mismatch, empty_body, proposal_error, block_error, sign_failed, no_validators, proposal,
  Step, pure, ◌>>=◌, ◌>>◌, log, change, broadcast, hash, local_validator_active, note_liveness,
  emit_prevote,
}
use zeno_final_code.Consensus.Finalizing.{with_store, whole_store, handle_vote_actions}
use zeno_final_code.Common.{
  ℕ, ◌+◌, ◌%◌, ◌^◌, Bool, not, ◌&&◌, ◌||◌, Option, none, some, List, [], ◌∷◌, ◌++◌, length, any,
  ltb, leb, ◌==◌, if◌then◌else◌, unwrap_or, is_some, saturating_add, checked_sub, u128_max,
}
use zeno_final_code.Common.Results.{Result, ok, err, fail_if}
use zeno_final_code.Hash.{Bytes, bytes_eq}
use zeno_final_code.Types.{
  Block, BlockHeader, Vote, Validator, Evidence, Transaction, default_protection,
}
use zeno_final_code.Primitives
use zeno_final_code.Primitives.{verify_block, verify_transaction, sender_from_public_key}
use zeno_final_code.Mempool.{evict_expired, select_for_block_prioritized}
use zeno_final_code.Execution.{Accounts, account, put_account, validate_transaction}
use zeno_final_code.Execution.Blocks.{id, parent_hash, build_header, dry_run_transactions}
use zeno_final_code.Storage.{Store, get_slashing_protection, put_slashing_protection}
use zeno_final_code.Consensus
use zeno_final_code.Consensus.Votes.{proposer_for}

module _ (c : Config) where
  -- What the loop of `validate_incoming_proposal` leaves of the accounts after a transaction.
  unfoldable pub moved : Transaction → ℕ → Accounts → Accounts
  moved tx balance accounts =
      let sender = account tx.body.sender accounts in
      let debited =
        put_account tx.body.sender
          (record { nonce = (sender.nonce + 1) % 2 ^ 64; balance = balance }) accounts in
      let recipient = account tx.body.recipient debited in
      if is_some tx.body.evm
      then debited
      else put_account tx.body.recipient
          (record recipient { balance = saturating_add u128_max recipient.balance tx.body.amount })
          debited

  -- The checks of the loop after the accounts are changed.
  unfoldable pub check_sender : ℕ → Transaction → Result ProposalError (Unit {0})
  check_sender height tx = elim (sender_from_public_key c.code.externals tx.public_key) [
    | err e ↦ err sender_mismatch
    | ok derived ↦
        if not (derived == tx.body.sender)
        then err sender_mismatch
        else elim (verify_transaction c.code.externals c.engine.chain_id tx height) [
          | err e ↦ err invalid_transaction
          | ok bytes ↦ fail_if (length (c.code.externals.encode_body tx.body) == 0) empty_body
        ]
  ]

  unfoldable pub check_transaction : ℕ → Transaction → Accounts → Result ProposalError Accounts
  check_transaction height tx accounts =
      let total = saturating_add u128_max tx.body.amount tx.body.fee in
      elim (validate_transaction c.code.externals (id c.code) c.code.evm_execute c.engine accounts
        height tx) [
          | err e ↦ err invalid_transaction
          | ok _ ↦ elim (checked_sub (account tx.body.sender accounts).balance total) [
            | none ↦ err sender_underflow
            | some balance ↦ elim (check_sender height tx) [
              | err e ↦ err e
              | ok _ ↦ ok (moved tx balance accounts)
            ]
          ]
        ]

  unfoldable pub check_transactions :
      ℕ → List Transaction → Accounts → Result ProposalError Accounts
  check_transactions height [] accounts = ok accounts
  check_transactions height (tx ∷ txs) accounts = elim (check_transaction height tx accounts) [
    | err e ↦ err e
    | ok after ↦ check_transactions height txs after
  ]

  -- The free function `validate_incoming_proposal`.
  unfoldable pub check_proposal : Validator → Proposal → Store → Result ProposalError Accounts
  check_proposal expected p store =
      let header = p.block.header in
      if not (expected.address == p.validator_address)
      then err unexpected_proposer
      else if not (header.proposer == expected.address)
      then err proposer_mismatch
      else if not (bytes_eq p.block.proposer_public_key expected.public_key)
      then err public_key_mismatch
      else if not (str_eq header.chain_id c.engine.chain_id)
      then err chain_id_mismatch
      else if not (header.height == p.height)
      then err height_mismatch
      else if not (header.round == p.round)
      then err round_mismatch
      else if ltb c.params.max_transactions_per_block (length p.block.transactions)
      then err too_many_transactions
      else if not (header.parent_hash == parent_hash c.code store)
      then err parent_mismatch
      else if not (verify_block c.code.externals p.block)
      then err invalid_signature
      else check_transactions p.height p.block.transactions store.accounts

  -- `proposer_for`.
  abbrev pub proposer_at : ℕ → ℕ → Replica → Option Validator
  proposer_at height round r =
      proposer_for c.code.externals (hash c) c.validators c.economics height round r.node.staking

  -- The method `validate_incoming_proposal`.
  unfoldable pub validate_incoming_proposal : Proposal → Step (Unit {0})
  validate_incoming_proposal p r = elim (proposer_at p.height p.round r) [
    | none ↦ (err no_validators, r)
    | some expected ↦ elim (check_proposal expected p (whole_store r)) [
      | err e ↦ (err (proposal_error e), r)
      | ok _ ↦ (ok tt, r)
    ]
  ]

  abbrev pub is_same_key : Proposal → ℕ × ℕ × ℕ → Bool
  is_same_key p (address, height, round) =
      address == p.validator_address && height == p.height && round == p.round

  -- The branch of `on_proposal` for a second proposal of the round.
  unfoldable pub note_second : Proposal → Block → Step (Unit {0})
  note_second p existing r =
      let reason : String = "conflicting proposal" in
      let found : Evidence = record {
        validator_address = p.validator_address;
        height = p.height;
        round = p.round;
        reason = reason;
      } in
      if hash c existing == hash c p.block || any (is_same_key p) r.node.state.processed_evidence
      then (ok tt, r)
      else (do
        log (ConsensusWalEntry.evidence_recorded p.height p.round p.validator_address reason)
        change (λ s. record s {
          processed_evidence = (p.validator_address, p.height, p.round) ∷ s.processed_evidence;
          evidence = s.evidence ++ found ∷ [];
        }))
          r

  abbrev pub handle_option : Option Vote → Step (Unit {0})
  handle_option none = pure tt
  handle_option (some v) = handle_vote_actions c v

  -- The own prevote, and what it sets off.
  abbrev pub prevote_and_handle : Step (Unit {0})
  prevote_and_handle = emit_prevote c >>= handle_option

  -- `on_proposal`, once the proposal is valid.
  unfoldable pub accept_proposal : Proposal → Step (Unit {0})
  accept_proposal p r =
      if not (p.height == r.node.state.height) || not (p.round == r.node.state.round)
      then (ok tt, r)
      else elim r.node.state.proposal [
        | some existing ↦ note_second p existing r
        | none ↦
            (do
              modify
                  (λ r. record r { node = adopt_proposal (hash c) p.height p.round p.block r.node })
              prevote_and_handle)
              r
      ]

  unfoldable pub on_proposal : Proposal → Step (Unit {0})
  on_proposal p = validate_incoming_proposal p >> accept_proposal p

  -- `sign_block` of crates/zeno-primitives/src/lib.rs.
  unfoldable pub sign_block : BlockHeader → List Transaction → Bytes → Bytes → Option Block
  sign_block header txs public_key secret_key =
      elim (c.code.externals.sign Primitives.block_proposal (c.code.externals.encode_header header)
        secret_key) [
          | none ↦ none
          | some signature ↦ some (record {
            header = header;
            transactions = txs;
            proposer_public_key = public_key;
            proposer_signature = signature;
          })
        ]

  -- The end of `maybe_propose`: a block that is not too large is proposed, and voted for.
  unfoldable pub propose_block : LocalValidator → Block → Step (Unit {0})
  propose_block local b =
      let height = b.header.height in
      let round = b.header.round in
      if ltb c.params.max_block_bytes (length (c.code.encode_block b)) then pure tt else (do
        note_liveness c local.validator.address
        log (ConsensusWalEntry.proposal_accepted height round (hash c b))
        change (λ s. record s { proposal = some b })
        log (ConsensusWalEntry.proposal_broadcast height round (hash c b))
        broadcast (
            proposal (record {
              height = height;
              round = round;
              block = b;
              validator_address = b.header.proposer;
            }))
        prevote_and_handle)

  -- The middle of `maybe_propose`: the block of the transactions that the mempool selects. The dry run
  -- leaves the store with what the EVM has written.
  unfoldable pub build_and_propose : LocalValidator → ℕ → Step (Unit {0})
  build_and_propose local timestamp_ms r =
      let s = r.node.state in
      let pool = evict_expired s.height r.mempool in
      let txs = select_for_block_prioritized c.params.max_transactions_per_block s.height pool in
      let proposer = local.validator.address in
      let dry = dry_run_transactions c.code c.engine (whole_store r) s.height txs proposer in
      let evicted : Replica = record (with_store dry.1 r) { mempool = pool } in
      elim dry.0 [
        | err e ↦ (err (block_error e), evicted)
        | ok (after, receipts) ↦
            let header =
              build_header c.code c.engine dry.1 proposer s.height s.round timestamp_ms txs after
                receipts in
            elim (sign_block header txs local.validator.public_key local.secret_key) [
              | none ↦ (err sign_failed, evicted)
              | some b ↦ propose_block local b evicted
            ]
      ]

  -- The record that `maybe_propose` writes before it signs.
  abbrev pub protected : LocalValidator → Replica → Replica
  protected local r =
      let before =
        unwrap_or (get_slashing_protection local.validator.address r.store) default_protection in
      record r {
        store =
            put_slashing_protection local.validator.address
              (record before { last_signed_proposal_height = r.node.state.height }) r.store;
      }

  abbrev pub last_signed : LocalValidator → Replica → ℕ
  last_signed local r =
      let stored = get_slashing_protection local.validator.address r.store in
      (unwrap_or stored default_protection).last_signed_proposal_height

  unfoldable pub maybe_propose : ℕ → Step (Unit {0})
  maybe_propose timestamp_ms r = elim c.local_validator [
    | none ↦ (ok tt, r)
    | some local ↦
        if not (local_validator_active c local r)
        then (ok tt, r)
        else elim (proposer_at r.node.state.height r.node.state.round r) [
          | none ↦ (err no_validators, r)
          | some proposer ↦
              if not (proposer.address == local.validator.address)
                || is_some r.node.state.proposal
                || leb r.node.state.height (last_signed local r)
              then (ok tt, r)
              else build_and_propose local timestamp_ms (protected local r)
        ]
  ]

  -- The branch of `run` for a round's deadline.
  unfoldable pub on_deadline : ℕ → Step (Unit {0})
  on_deadline timestamp_ms = do
    prevote_and_handle
    modify (λ r. record r { node = Consensus.advance_round r.node })
    maybe_propose timestamp_ms
