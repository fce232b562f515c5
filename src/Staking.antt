-- ===== src/Staking.antt =====
-- `StakingSnapshot`: delegation, unbonding, slashing and the epoch's settlement
-- (crates/zeno-state/src/lib.rs). A method returns what it returns in Rust beside the state that it
-- leaves, on an error too. `total_stake -= amount` is the wrapping subtraction of a release build.
pub mod Epoch
pub mod Downtime
pub mod ValidatorSet
pub mod Rewards
pub mod Slashing
pub mod Unbonding
pub mod Delegating
pub mod Solvency
mod Tests
use Prim.Native.String.{String}
use zeno_final_code.Common.{
  ℕ, ◌-◌, ◌/◌, min, Bool, none, some, List, [], ◌∷◌, ◌++◌, ltb, ◌==◌, if◌then◌else◌, unwrap_or,
  u64_max, u128_max, saturating_add, saturating_mul, saturating_sub, wrapping_sub128,
}
use zeno_final_code.TreeMap
use zeno_final_code.TreeMap.{TreeMap, nat_key, pair_key, contains_key}
use zeno_final_code.Types.{
  ValidatorStatus, ValidatorStake, Delegation, UnbondingDelegation, SlashingEvent, EconomicsParams,
  StakingState, Validator,
}

-- The texts of `StateError::State`.
pub data StateError : Type 0 where
  unknown_validator delegation_not_found insufficient_delegated_amount : StateError

pub data Result (A : Type 0) : Type 0 where
  ok : A → Result A
  err : StateError → Result A

abbrev pub bps_scale : ℕ
bps_scale = 10000

abbrev new_stake : ℕ → Validator → ValidatorStake
new_stake epoch v = record {
  validator_address = v.address;
  self_bond = 0;
  total_stake = 0;
  commission_bps = 0;
  status = ValidatorStatus.active;
  last_liveness_epoch = epoch;
}

abbrev seed : ℕ → TreeMap ℕ ValidatorStake → Validator → TreeMap ℕ ValidatorStake
seed epoch m v = elim (TreeMap.get v.address m) [
  | none ↦ TreeMap.insert v.address (new_stake epoch v) m
  | some old ↦ m
]

seed_all : ℕ → TreeMap ℕ ValidatorStake → List Validator → TreeMap ℕ ValidatorStake
seed_all epoch m [] = m
seed_all epoch m (v ∷ vs) = seed_all epoch (seed epoch m v) vs

unfoldable pub ensure_validators : List Validator → StakingState → StakingState
unfolding seed_all
ensure_validators vs s = record s { validators = seed_all s.epoch s.validators vs }

-- The validator after `delegate`.
abbrev add_stake : ℕ → Bool → ValidatorStake → ValidatorStake
add_stake amount is_self_bond v = record v {
  total_stake = saturating_add u128_max v.total_stake amount;
  self_bond = if is_self_bond then saturating_add u128_max v.self_bond amount else v.self_bond;
}

abbrev add_delegation : ℕ → Delegation → Delegation
add_delegation amount e = record e { amount = saturating_add u128_max e.amount amount }

unfoldable pub delegate : ℕ → ℕ → ℕ → Bool → StakingState → Result (Unit {0}) × StakingState
delegate delegator validator_address amount is_self_bond s =
    elim (TreeMap.get validator_address s.validators) [
      | none ↦ (err unknown_validator, s)
      | some v ↦
          let key : ℕ × ℕ = (delegator, validator_address) in
          let fresh : Delegation = record {
            delegator = delegator;
            validator_address = validator_address;
            amount = 0;
          } in
          let e = unwrap_or (TreeMap.get key s.delegations) fresh in
          (
            ok tt,
            record s {
              delegations = TreeMap.insert key (add_delegation amount e) s.delegations;
              validators =
                  TreeMap.insert validator_address (add_stake amount is_self_bond v) s.validators;
            },
          )
    ]

-- The validator after `begin_unbonding`.
abbrev remove_stake : ℕ → Bool → ValidatorStake → ValidatorStake
remove_stake amount is_self v = record v {
  total_stake = wrapping_sub128 v.total_stake amount;
  self_bond = if is_self then saturating_sub v.self_bond amount else v.self_bond;
}

-- The second half of `begin_unbonding`, once the delegation is reduced.
unbond_validator : ℕ → ℕ → ℕ → EconomicsParams → StakingState → Result (Unit {0}) × StakingState
unbond_validator delegator validator_address amount params s =
    elim (TreeMap.get validator_address s.validators) [
      | none ↦ (err unknown_validator, s)
      | some v ↦ (
        ok tt,
        record s {
          validators =
              TreeMap.insert validator_address
                (remove_stake amount (delegator == validator_address) v) s.validators;
          unbonding =
              s.unbonding
              ++ record {
                delegator = delegator;
                validator_address = validator_address;
                amount = amount;
                release_epoch = saturating_add u64_max s.epoch params.unbonding_epochs;
              }
                ∷ [];
        },
      )
    ]

unfoldable pub begin_unbonding :
    ℕ → ℕ → ℕ → EconomicsParams → StakingState → Result (Unit {0}) × StakingState
unfolding unbond_validator
begin_unbonding delegator validator_address amount params s =
    let key : ℕ × ℕ = (delegator, validator_address) in
    elim (TreeMap.get key s.delegations) [
      | none ↦ (err delegation_not_found, s)
      | some e ↦
          if ltb e.amount amount
          then (err insufficient_delegated_amount, s)
          else unbond_validator delegator validator_address amount params (record s {
            delegations =
                TreeMap.insert key (record e { amount = e.amount - amount }) s.delegations;
          })
    ]

-- The validator after `slash`, before its status is set.
abbrev cut_stake : ℕ → ValidatorStake → ValidatorStake
cut_stake slash_bps v =
    let slash_amount = saturating_mul u128_max v.total_stake slash_bps / bps_scale in
    let total = saturating_sub v.total_stake slash_amount in
    record v { total_stake = total; self_bond = min v.self_bond total }

-- The loop over `delegations.values_mut()`: the delegations to the validator are emptied, and
-- what they held goes to the unbonding queue.
unfoldable pub emptied : ℕ → TreeMap (ℕ × ℕ) Delegation → TreeMap (ℕ × ℕ) Delegation
emptied validator_address [] = []
emptied validator_address ((key, e) ∷ m) =
    (key, if e.validator_address == validator_address then record e { amount = 0 } else e)
    ∷ emptied validator_address m

abbrev release : ℕ → ℕ → Delegation → UnbondingDelegation
release validator_address epoch e = record {
  delegator = e.delegator;
  validator_address = validator_address;
  amount = e.amount;
  release_epoch = saturating_add u64_max epoch 1;
}

unfoldable pub released : ℕ → ℕ → TreeMap (ℕ × ℕ) Delegation → List UnbondingDelegation
released validator_address epoch [] = []
released validator_address epoch ((key, e) ∷ m) =
    let rest = released validator_address epoch m in
    if e.validator_address == validator_address
    then release validator_address epoch e ∷ rest
    else rest

unfoldable pub freeze : ℕ → StakingState → StakingState
freeze validator_address s = record s {
  delegations = emptied validator_address s.delegations;
  unbonding = s.unbonding ++ released validator_address s.epoch s.delegations;
}

unfoldable pub slash : ℕ → ℕ → String → Bool → StakingState → Result (Unit {0}) × StakingState
unfolding freeze
slash validator_address slash_bps reason jail s =
    elim (TreeMap.get validator_address s.validators) [
      | none ↦ (err unknown_validator, s)
      | some v ↦
          let cut = cut_stake slash_bps v in
          let status = if jail then ValidatorStatus.jailed else v.status in
          let s₁ : StakingState = record s {
            validators =
                TreeMap.insert validator_address (record cut { status = status }) s.validators;
          } in
          let s₂ : StakingState = if jail then freeze validator_address s₁ else s₁ in
          let event : SlashingEvent = record {
            validator_address = validator_address;
            epoch = s.epoch;
            slash_bps = slash_bps;
            reason = reason;
          } in
          (ok tt, record s₂ { slashing_events = s₂.slashing_events ++ event ∷ [] })
    ]
