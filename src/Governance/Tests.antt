-- ===== src/Governance/Tests.antt =====
-- A queue of two updates, of which one is due.
use zeno_final_code.Common.{ltb, ◌≡◌, refl, [], ◌∷◌, filter}
use zeno_final_code.Types.{EconomicsParams, ParameterUpdate, GovernanceProposal, GovernanceState}
use zeno_final_code.Governance.{
  new_governance, queue_parameter_update, activate_ready_updates, activate_ready_updates_lem,
  apply_updates, is_ready,
}

abbrev cheap : EconomicsParams
cheap = record {
  minimum_self_bond = 10;
  epoch_length = 100;
  unbonding_epochs = 7;
  treasury_bps = 1000;
  downtime_slash_bps = 100;
  double_sign_slash_bps = 500;
}

abbrev dear : EconomicsParams
dear = record cheap { minimum_self_bond = 1000 }

abbrev queued : GovernanceState
queued = record (new_governance cheap) {
  pending =
      record {
        proposal_id = 1;
        activation_epoch = 9;
        update = ParameterUpdate.economics cheap;
        description = "later";
      }
      ∷ record {
        proposal_id = 2;
        activation_epoch = 4;
        update = ParameterUpdate.economics dear;
        description = "due";
      }
      ∷ [];
}

activate_ready_updates_lem_example : activate_ready_updates 5 queued ≡ (
  filter (is_ready 5) queued.pending,
  record queued {
    economics = apply_updates (filter (is_ready 5) queued.pending) queued.economics;
    pending = filter (λ (p : GovernanceProposal). ltb 5 p.activation_epoch) queued.pending;
  },
)
activate_ready_updates_lem_example = activate_ready_updates_lem 5 queued

activated : (activate_ready_updates 5 queued).1.economics.minimum_self_bond ≡ 1000
unfolding activate_ready_updates zeno_final_code.Governance.activate_loop
activated = refl
