-- ===== src/Consensus/Finalizing.antt =====
-- From votes to finalized blocks (crates/zeno-consensus/src/lib.rs): what a vote sets off, the
-- execution and the commit of a block, and the import of one that others finalized.
use zeno_final_code.Common.{
  ℕ, ◌+◌, ◌-◌, ◌%◌, ◌^◌, Bool, not, ◌&&◌, Option, none, some, List, [], ◌∷◌, filter, ltb, ◌==◌,
  if◌then◌else◌, unwrap_or,
}
use zeno_final_code.Common.Results.{ok, err}
use zeno_final_code.Types.{Block, Vote, EpochTransition}
use zeno_final_code.Mempool.{remove_committed}
use zeno_final_code.Execution.{Receipt}
use zeno_final_code.Execution.Blocks.{
  PreparedBlock, id, execute_block, validate_and_commit_finalized_block,
}
use zeno_final_code.Storage.{Store, FinalizedBlock, atomic_commit_block, prune_blocks_below}
use zeno_final_code.Staking
use zeno_final_code.Staking.{ensure_validators}
use zeno_final_code.Staking.Epoch.{apply_evidence}
use zeno_final_code.Consensus.{ConsensusWalEntry, Node}
use zeno_final_code.Consensus
use zeno_final_code.Consensus.Compaction.{compact_consensus_wal}
use zeno_final_code.Consensus.Certificates.{
  CommitCertificate, is_precommit, validate_commit_certificate,
}
use zeno_final_code.Consensus.Engine.{
  Config, Replica, certificate_error, block_error, staking_error, missing_proposal, commit, Step,
  pure, ◌>>=◌, ◌>>◌, modify, log, broadcast, hash, record_step, emit_precommit,
}

-- The store, with the node's staking state, and its staking state put back.
abbrev pub whole_store : Replica → Store
whole_store r = record r.store { staking_state = some r.node.staking }

abbrev pub with_store : Store → Replica → Replica
with_store store r = record r {
  store = store;
  node = record r.node { staking = unwrap_or store.staking_state r.node.staking };
}

module _ (c : Config) where
  -- `self.validate_commit_certificate`.
  unfoldable pub check_certificate : Block → CommitCertificate → Step (Unit {0})
  check_certificate b certificate r =
      elim (validate_commit_certificate c.code.externals (hash c) c.validators c.economics b
        certificate r.node.staking) [ ok _ ↦ (ok tt, r) | err e ↦ (err (certificate_error e), r) ]

  -- `execution.execute_block`.
  unfoldable pub execute : Block → Step PreparedBlock
  execute b r =
      let executed = execute_block c.code c.engine b (whole_store r) in
      elim executed.0 [
        | ok prepared ↦ (ok prepared, with_store executed.1 r)
        | err e ↦ (err (block_error e), with_store executed.1 r)
      ]

  unfoldable pub apply_pending_evidence : Step (Unit {0})
  apply_pending_evidence r =
      let cleared : Replica = record r {
        node = record r.node { state = record r.node.state { evidence = [] } };
      } in
      let applied =
        apply_evidence r.node.state.evidence c.economics
          (ensure_validators c.validators r.node.staking) in
      elim r.node.state.evidence [
        | [] ↦ (ok tt, cleared)
        | e ∷ es ↦ elim applied.0 [
          | Staking.err x ↦ (err (staking_error x), cleared)
          | Staking.ok _ ↦
              (ok tt, record cleared { node = record cleared.node { staking = applied.1 } })
        ]
      ]

  -- The two clean-ups at the end of `finalize`.
  unfoldable pub clean_up : ℕ → Replica → Replica
  clean_up height r = record r {
    node = record r.node {
      wal =
          if ltb 10 height then (compact_consensus_wal (height - 10) r.node.wal).1 else r.node.wal;
    };
    store =
        if ltb 1000 height
        then (prune_blocks_below (hash c) (height - 1000) r.store).1
        else r.store;
  }

  -- `advance_height`; `height + 1` wraps in a release build.
  abbrev pub to_next_height : ℕ → Step (Unit {0})
  to_next_height height =
      modify λ r. record r { node = Consensus.advance_height ((height + 1) % 2 ^ 64) r.node }

  abbrev pub supports : ℕ → Vote → Bool
  supports block_hash v = is_precommit v.step && v.block_hash == block_hash

  -- The end of `finalize`: the executed block is logged, stored and sent, and the next height begins.
  unfoldable pub commit_executed : Block → CommitCertificate → PreparedBlock → Step (Unit {0})
  commit_executed b certificate executed = do
    let finalized : FinalizedBlock = record {
      block = b;
      certificate = certificate;
      receipts = executed.receipts;
      epoch_transition = executed.accounting.epoch_transition;
    }
    log (
        ConsensusWalEntry.commit_finalized certificate.height certificate.round
          certificate.block_hash)
    modify (λ r. record r { store = atomic_commit_block (hash c) finalized executed.state r.store })
    apply_pending_evidence
    modify (λ r. record r { mempool = remove_committed (id c.code) b.transactions r.mempool })
    broadcast (commit finalized)
    modify (clean_up certificate.height)
    to_next_height certificate.height

  -- `finalize`, once the proposal is known to be the block that was voted for.
  unfoldable pub finalize_block : Block → CommitCertificate → Step (Unit {0})
  finalize_block b certificate =
      check_certificate b certificate >> (execute b >>= commit_executed b certificate)

  unfoldable pub finalize : ℕ → Step (Unit {0})
  finalize block_hash r = elim r.node.state.proposal [
    | none ↦ (err missing_proposal, r)
    | some b ↦
        if not (hash c b == block_hash)
        then (ok tt, r)
        else finalize_block b
            (record {
              block_hash = block_hash;
              height = r.node.state.height;
              round = r.node.state.round;
              votes = filter (supports block_hash) r.node.state.votes;
            })
            r
  ]

  abbrev pub finalize_option : Option ℕ → Step (Unit {0})
  finalize_option none = pure tt
  finalize_option (some block_hash) = finalize block_hash

  -- `Option::or`.
  abbrev pub or_else : Option ℕ → Option ℕ → Option ℕ
  or_else (some a) b = some a
  or_else none b = b

  -- Count the own precommit: what `handle_vote_actions` may then finalize.
  abbrev pub record_own : Option ℕ → Option Vote → Step (Option ℕ)
  record_own should_finalize none = pure should_finalize
  record_own should_finalize (some v) =
      record_step c v >>= λ out. pure (or_else should_finalize out.1)

  -- The own precommit that a quorum of prevotes sets off, and what it then finalizes.
  unfoldable pub precommit_option : Option ℕ → Option ℕ → Step (Option ℕ)
  precommit_option none should_finalize = pure should_finalize
  precommit_option (some block_hash) should_finalize =
      emit_precommit c block_hash >>= record_own should_finalize

  unfoldable pub handle_vote_actions : Vote → Step (Unit {0})
  handle_vote_actions v = do
    out ← record_step c v
    block_hash ← precommit_option out.0 out.1
    finalize_option block_hash

  -- `on_vote`.
  abbrev pub on_vote : Vote → Step (Unit {0})
  on_vote = handle_vote_actions

  module _ (receipts_eq : List Receipt → List Receipt → Bool)
      (transition_eq : Option EpochTransition → Option EpochTransition → Bool) where
    -- `execution.validate_and_commit_finalized_block`.
    unfoldable pub validate_and_commit : FinalizedBlock → Step (Unit {0})
    validate_and_commit f r =
        let committed =
          validate_and_commit_finalized_block c.code receipts_eq transition_eq c.engine f
            (whole_store r) in
        elim committed.0 [
          | ok _ ↦ (ok tt, with_store committed.1 r)
          | err e ↦ (err (block_error e), with_store committed.1 r)
        ]

    -- The end of `import_external_finalized_block`, after the check of the certificate.
    unfoldable pub commit_import : FinalizedBlock → Step (Unit {0})
    commit_import f = do
      log (
          ConsensusWalEntry.commit_finalized f.certificate.height f.certificate.round
            f.certificate.block_hash)
      validate_and_commit f
      modify
          (λ r. record r { mempool = remove_committed (id c.code) f.block.transactions r.mempool })
      to_next_height f.block.header.height

    -- `import_external_finalized_block`, once the certificate is not of an earlier height.
    unfoldable pub import_block : FinalizedBlock → Step (Unit {0})
    import_block f = check_certificate f.block f.certificate >> commit_import f

    unfoldable pub import_external_finalized_block : FinalizedBlock → Step (Unit {0})
    import_external_finalized_block f r =
        if ltb f.certificate.height r.node.state.height then (ok tt, r) else import_block f r
