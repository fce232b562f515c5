-- ===== src/Consensus/Imports.antt =====
-- An import of a finalised block that its execution refuses (`import_external_finalized_block` of
-- crates/zeno-consensus/src/lib.rs), and what a restart then finds.
use zeno_final_code.Storage.{Store, FinalizedBlock}
use zeno_final_code.Execution.Frame.{prepare_block-frame}
use zeno_final_code.Common.{
  ◌+◌, ◌++◌, ◌≡◌, ◌<◌, refl, ap, ◌∙◌, Bool, Option, List, [], ◌∷◌, u64_max, ltb, arith,
}
use zeno_final_code.Common.Results.{ok, err}
use zeno_final_code.Types.{EpochTransition}
use zeno_final_code.Execution.{Receipt}
use zeno_final_code.Execution.Blocks.{
  BlockError, prepare_block, validate_and_commit_finalized_block,
}
use zeno_final_code.Consensus.{ConsensusWalEntry, append_wal, recover_snapshot, replay_all, replay}
use zeno_final_code.Consensus.Recovery.{IsDurable, replay_all-append}
use zeno_final_code.Consensus.Engine.{Config, Replica, block_error}
use zeno_final_code.Consensus.Finalizing.{
  whole_store, with_store, check_certificate, validate_and_commit, commit_import, import_block,
  import_external_finalized_block,
}

module _ (receipts_eq : List Receipt → List Receipt → Bool)
    (transition_eq : Option EpochTransition → Option EpochTransition → Bool) (c : Config) where
  recovered-committed :
      (f : FinalizedBlock) (r : Replica)
      → IsDurable r.node
      → ltb f.certificate.height r.node.state.height ≡ Bool.false
      → f.certificate.height < u64_max
      → let entry =
          ConsensusWalEntry.commit_finalized f.certificate.height f.certificate.round
            f.certificate.block_hash in
        (recover_snapshot r.node.snapshot (r.node.wal ++ entry ∷ [])).snapshot.height
        ≡ f.certificate.height + 1
  unfolding recover_snapshot replay_all replay
  recovered-committed f r w late fits =
      let entry =
        ConsensusWalEntry.commit_finalized f.certificate.height f.certificate.round
          f.certificate.block_hash in
      ap (λ s. s.snapshot.height) (replay_all-append _ r.node.wal (entry ∷ []))
      ∙ ap (λ s. (replay s entry).snapshot.height) w.recovered
      ∙ ground arith

  commit_import-refused :
      (f : FinalizedBlock) (r : Replica) (e : BlockError)
      → (prepare_block c.code c.engine (whole_store r) f.block).0 ≡ err e
      → let entry =
          ConsensusWalEntry.commit_finalized f.certificate.height f.certificate.round
            f.certificate.block_hash in
        commit_import c receipts_eq transition_eq f r ≡ (
          err (block_error e),
          with_store
              (prepare_block c.code c.engine (whole_store r) f.block).1
              (record r { node = append_wal entry r.node }),
        )
  unfolding commit_import validate_and_commit validate_and_commit_finalized_block
  commit_import-refused f r e refused = ground (arith, refused)

  -- A finalised block of the node's height or a later one, with a certificate that is accepted, that
  -- its replay refuses, is not stored: the call fails and leaves the blocks and the round state. But
  -- the log already says that it was committed, so a restart, where the node was durable and the
  -- block's height is below the largest u64, goes on at the height after it, without the block.
  pub import_external_finalized_block-refused :
      (f : FinalizedBlock) (r : Replica) (e : BlockError)
      → IsDurable r.node
      → ltb f.certificate.height r.node.state.height ≡ Bool.false
      → f.certificate.height < u64_max
      → check_certificate c f.block f.certificate r ≡ (ok tt, r)
      → (prepare_block c.code c.engine (whole_store r) f.block).0 ≡ err e
      → let (result, after) = import_external_finalized_block c receipts_eq transition_eq f r in
        (result ≡ err (block_error e))
        × (after.store.blocks_by_height ≡ r.store.blocks_by_height)
        × (after.node.state ≡ r.node.state)
        × ((recover_snapshot after.node.snapshot after.node.wal).snapshot.height
            ≡ f.certificate.height + 1)
  unfolding import_external_finalized_block import_block commit_import validate_and_commit
      validate_and_commit_finalized_block recover_snapshot
  import_external_finalized_block-refused f r e w late fits checked refused =
      rw (import_external_finalized_block, late, checked, commit_import-refused f r e refused)
        (
          refl,
          ap (λ (t : Store). t.blocks_by_height)
              (prepare_block-frame c.code c.engine (whole_store r) f.block),
          refl,
          recovered-committed f r w late fits,
        )
