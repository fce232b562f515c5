-- ===== src/Governance.antt =====
-- `GovernanceSnapshot`: queued updates of the economics and their activation
-- (crates/zeno-state/src/lib.rs).
mod Tests
use Prim.Native.String.{String}
use zeno_final_code.Common.{
  ℕ, ◌+◌, ◌%◌, ◌^◌, Bool, true, false, List, [], ◌∷◌, ◌++◌, ltb, leb, filter, ◌≡◌, refl, arith,
  Bool-cases, inl, inr, if◌then◌else◌,
}
use zeno_final_code.Types.{EconomicsParams, ParameterUpdate, GovernanceProposal, GovernanceState}

-- `GovernanceState::new`.
abbrev pub new_governance : EconomicsParams → GovernanceState
new_governance e = record { economics = e; pending = []; next_proposal_id = 1 }

-- `next_proposal_id += 1` wraps in a release build.
unfoldable pub queue_parameter_update :
    ℕ → ParameterUpdate → String → GovernanceState → ℕ × GovernanceState
queue_parameter_update activation_epoch update description g = (
  g.next_proposal_id,
  record g {
    next_proposal_id = (g.next_proposal_id + 1) % 2 ^ 64;
    pending =
        g.pending
        ++ record {
          proposal_id = g.next_proposal_id;
          activation_epoch = activation_epoch;
          update = update;
          description = description;
        }
          ∷ [];
  },
)

abbrev pub is_ready : ℕ → GovernanceProposal → Bool
is_ready epoch p = leb p.activation_epoch epoch

abbrev pub apply_update : ParameterUpdate → EconomicsParams → EconomicsParams
apply_update (ParameterUpdate.economics e) old = e

-- The loop of `retain`: on the economics, what is kept and what was applied.
unfoldable pub activate_loop :
    ℕ
    → List GovernanceProposal
    → EconomicsParams
    → EconomicsParams × List GovernanceProposal × List GovernanceProposal
activate_loop epoch [] e = (e, [], [])
activate_loop epoch (p ∷ ps) e =
    let later = ltb epoch p.activation_epoch in
    let (e', kept, applied) =
      activate_loop epoch ps (if later then e else apply_update p.update e) in
    if later then (e', p ∷ kept, applied) else (e', kept, p ∷ applied)

unfoldable pub activate_ready_updates :
    ℕ → GovernanceState → List GovernanceProposal × GovernanceState
activate_ready_updates epoch g =
    let (e, kept, applied) = activate_loop epoch g.pending g.economics in
    (applied, record g { economics = e; pending = kept })

-- The economics after a list of updates, in their order.
abbrev pub apply_updates : List GovernanceProposal → EconomicsParams → EconomicsParams
apply_updates [] e = e
apply_updates (p ∷ ps) e = apply_updates ps (apply_update p.update e)

activate_loop_lem :
    (epoch : ℕ) (ps : List GovernanceProposal) (e : EconomicsParams)
    → activate_loop epoch ps e ≡ (
      apply_updates (filter (is_ready epoch) ps) e,
      filter (λ (p : GovernanceProposal). ltb epoch p.activation_epoch) ps,
      filter (is_ready epoch) ps,
    )
unfolding activate_loop
activate_loop_lem epoch [] e = refl
activate_loop_lem epoch (p ∷ ps) e = elim (Bool-cases (ltb epoch p.activation_epoch)) [
  | inl later ↦
      let waits : is_ready epoch p ≡ false = ground arith in
      rw (later, waits, activate_loop_lem epoch ps e)
  | inr due ↦
      let ready : is_ready epoch p ≡ true = ground arith in
      rw (due, ready, activate_loop_lem epoch ps (apply_update p.update e))
]

-- Activation applies exactly the proposals whose epoch has come, in the order of the queue, returns
-- them, and keeps the others in their order.
pub activate_ready_updates_lem :
    (epoch : ℕ) (g : GovernanceState)
    → activate_ready_updates epoch g ≡ (
      filter (is_ready epoch) g.pending,
      record g {
        economics = apply_updates (filter (is_ready epoch) g.pending) g.economics;
        pending = filter (λ (p : GovernanceProposal). ltb epoch p.activation_epoch) g.pending;
      },
    )
unfolding activate_ready_updates
activate_ready_updates_lem epoch g = rw (activate_loop_lem epoch g.pending g.economics)
