-- ===== src/Consensus/Messages.antt =====
-- What a message from another node leaves: no proposal is sent, and the slashing protection is kept.
use zeno_final_code.Consensus.{append_wal, ConsensusWalEntry}
use zeno_final_code.Consensus.Finalizing.{
  commit_import, check_certificate, validate_and_commit, import_block,
  import_external_finalized_block, whole_store,
}
use zeno_final_code.Storage.{FinalizedBlock, atomic_commit_block}
use zeno_final_code.Execution.Blocks.{persist_accounting, validate_and_commit_finalized_block}
use zeno_final_code.Consensus.Keeping.{
  prepare_block-protection, Keeps, Keeps-then, Keeps-prevote_and_handle, Keeps-check_certificate,
}
use zeno_final_code.Common.{
  refl, inl, inr, Bool, not, ◌||◌, Option, List, ltb, ◌==◌, arith, Bool-cases, Option-cases,
}
use zeno_final_code.TreeMap.{nat_key}
use zeno_final_code.Types.{Block, EpochTransition}
use zeno_final_code.Execution.{Receipt}
use zeno_final_code.Consensus.Engine.{Config, Proposal}
use zeno_final_code.Consensus.Proposing.{
  validate_incoming_proposal, note_second, accept_proposal, on_proposal,
}

module _ (c : Config) where
  Keeps-validate_incoming_proposal : (p : Proposal) → Keeps (validate_incoming_proposal c p)
  unfolding validate_incoming_proposal
  Keeps-validate_incoming_proposal p r = ground arith

  Keeps-note_second : (p : Proposal) (b : Block) → Keeps (note_second c p b)
  unfolding note_second
  Keeps-note_second p b r = ground arith

  Keeps-accept_proposal : (p : Proposal) → Keeps (accept_proposal c p)
  unfolding accept_proposal
  Keeps-accept_proposal p r =
      elim (Bool-cases
        (not (p.height == r.node.state.height) || not (p.round == r.node.state.round))) [
          | inl h ↦ rw (accept_proposal, h) (refl, refl)
          | inr h ↦ elim (Option-cases r.node.state.proposal) [
            | inl q ↦ rw (accept_proposal, h, q) (Keeps-prevote_and_handle c _)
            | inr (b, q) ↦ rw (accept_proposal, h, q) (Keeps-note_second p b r)
          ]
        ]

  pub Keeps-on_proposal : (p : Proposal) → Keeps (on_proposal c p)
  unfolding on_proposal
  Keeps-on_proposal p =
      Keeps-then (validate_incoming_proposal c p) (accept_proposal c p)
        (Keeps-validate_incoming_proposal p) (Keeps-accept_proposal p)

  module _ (receipts_eq : List Receipt → List Receipt → Bool)
      (transition_eq : Option EpochTransition → Option EpochTransition → Bool) where
    Keeps-validate_and_commit :
        (f : FinalizedBlock) → Keeps (validate_and_commit c receipts_eq transition_eq f)
    unfolding validate_and_commit validate_and_commit_finalized_block persist_accounting
        atomic_commit_block
    Keeps-validate_and_commit f r =
        ground (arith, prepare_block-protection c f.block (whole_store r))

    Keeps-commit_import : (f : FinalizedBlock) → Keeps (commit_import c receipts_eq transition_eq f)
    unfolding commit_import
    Keeps-commit_import f r =
        let entry =
          ConsensusWalEntry.commit_finalized f.certificate.height f.certificate.round
            f.certificate.block_hash in
        ground (arith, Keeps-validate_and_commit f (record r { node = append_wal entry r.node }))

    Keeps-import_block : (f : FinalizedBlock) → Keeps (import_block c receipts_eq transition_eq f)
    unfolding import_block
    Keeps-import_block f =
        Keeps-then (check_certificate c f.block f.certificate)
          (commit_import c receipts_eq transition_eq f)
          (Keeps-check_certificate c f.block f.certificate) (Keeps-commit_import f)

    pub Keeps-import_external_finalized_block :
        (f : FinalizedBlock) → Keeps (import_external_finalized_block c receipts_eq transition_eq f)
    unfolding import_external_finalized_block
    Keeps-import_external_finalized_block f r =
        elim (Bool-cases (ltb f.certificate.height r.node.state.height)) [
          | inl h ↦ rw (import_external_finalized_block, h) (refl, refl)
          | inr h ↦ rw (import_external_finalized_block, h) (Keeps-import_block f r)
        ]
