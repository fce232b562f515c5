-- ===== src/Staking/Tests.antt =====
-- A small staking state, and what the operations make of it.
use zeno_final_code.Staking.Delegating.{Delegates, delegate-IsValid}
use zeno_final_code.Common.{
  some, ◌*◌, ◌/◌, min, sum_by, ℕ, ◌+◌, ◌≤◌, ◌≡◌, refl, true, false, [], ◌∷◌, map, filter, arith,
}
use mathlib.Core.List.{Perm}
use zeno_final_code.TreeMap
use zeno_final_code.TreeMap.{TreeMap, nat_key, pair_key}
use zeno_final_code.Types.{
  ValidatorStake, ValidatorStatus, Delegation, StakingState, EconomicsParams,
}
use zeno_final_code.Staking.{ok, err, delegate, begin_unbonding, slash}
use zeno_final_code.Staking.Epoch.{
  settle_epoch_rewards, effective_validator_set, ordered_stakes, is_eligible, values,
  apply_downtime_slashing, total_active_stake, active_stake,
}
use zeno_final_code.Staking.Solvency.{IsValid}
use zeno_final_code.Staking.Unbonding.{begin_unbonding-IsValid}
use zeno_final_code.Staking.Slashing.{claims, claims-slash, slash-IsValid}
use zeno_final_code.Staking.Rewards.{
  reward_of, validator_pool, settle_epoch_rewards_bounded, settle_epoch_rewards_treasury, paid,
  treasury_cut, commissions,
}
use zeno_final_code.Staking.ValidatorSet.{effective_validator_set_lem, IsOrdered}
use zeno_final_code.Staking.Downtime.{apply_downtime_slashing_lem, slashed_if, stale_in}

abbrev params : EconomicsParams
params = record {
  minimum_self_bond = 10;
  epoch_length = 100;
  unbonding_epochs = 7;
  treasury_bps = 1000;
  downtime_slash_bps = 100;
  double_sign_slash_bps = 500;
}

abbrev one : ValidatorStake
one = record {
  validator_address = 1;
  self_bond = 100;
  total_stake = 150;
  commission_bps = 500;
  status = ValidatorStatus.active;
  last_liveness_epoch = 4;
}

abbrev delegated : Delegation
delegated = record { delegator = 9; validator_address = 1; amount = 50 }

abbrev state : StakingState
state = record {
  epoch = 5;
  validators = (1, one) ∷ [];
  delegations = ((9, 1), delegated) ∷ [];
  unbonding = [];
  treasury_balance = 0;
  slashing_events = [];
}

state-IsValid : IsValid state
unfolding TreeMap.get
state-IsValid = record {
  sorted = (tt, tt);
  delegation_keyed = λ d a e h. ground arith;
  delegation_known = λ d a e h. ground arith;
  backed = λ a v h. ground arith;
}

delegate-IsValid_example :
    let (result, after) = delegate 9 1 25 false state in
    IsValid after × Delegates 9 1 25 false state result after
unfolding TreeMap.get
delegate-IsValid_example =
    delegate-IsValid 9 1 25 false state state-IsValid (λ h. absurd (cc)) (λ v h. ground arith)

begin_unbonding-IsValid_example : IsValid (begin_unbonding 9 1 20 params state).1
begin_unbonding-IsValid_example = begin_unbonding-IsValid 9 1 20 params state state-IsValid

claims-slash_example :
    let (result, after) = slash 1 500 "double sign" true state in
    (result ≡ ok tt)
    × (claims 9 after ≡ claims 9 state)
    × ((u : ValidatorStake) × (TreeMap.get 1 after.validators ≡ some u)
        × (u.total_stake + one.total_stake * 500 / 10000 ≡ one.total_stake)
        × (u.self_bond ≡ min one.self_bond u.total_stake))
    × (TreeMap.get 2 after.validators ≡ TreeMap.get 2 state.validators)
    × (after.treasury_balance ≡ state.treasury_balance)
unfolding TreeMap.get
claims-slash_example =
    claims-slash 9 1 2 500 "double sign" true state one refl (omega arith) (omega arith)
      (omega arith)

slash-IsValid_example : IsValid (slash 1 500 "double sign" true state).1
slash-IsValid_example = slash-IsValid 1 500 "double sign" state state-IsValid

settle_epoch_rewards_bounded_example :
    let (rewards, after) = settle_epoch_rewards 30 70 params state in
    sum_by paid rewards + after.treasury_balance ≤ 0 + 30 + 70 + commissions 30 70 params state
settle_epoch_rewards_bounded_example =
    settle_epoch_rewards_bounded 30 70 params state (omega arith) (omega arith)

settle_epoch_rewards_treasury_example :
    let (rewards, after) = settle_epoch_rewards 30 70 params state in
    (TreeMap.get 1 rewards
      ≡ reward_of
          (validator_pool 30 70 params)
          (sum_by active_stake state.validators)
          (TreeMap.get 1 state.validators))
    × (after.treasury_balance ≡ 0 + treasury_cut 30 70 params + commissions 30 70 params state)
settle_epoch_rewards_treasury_example =
    settle_epoch_rewards_treasury 30 70 1 params state (tt, tt) (omega arith) (omega arith)
      (omega arith)

-- The rewards of 90 go to the one validator in full, and 10 and its commission of 4 to the treasury.
settled : (settle_epoch_rewards 30 70 params state).1.treasury_balance ≡ 14
unfolding settle_epoch_rewards total_active_stake zeno_final_code.Staking.Epoch.pay_all
settled = refl

effective_validator_set_lem_example :
    (effective_validator_set params state
      ≡ map (λ v. v.validator_address) (ordered_stakes params state))
    × IsOrdered (ordered_stakes params state)
    × Perm (ordered_stakes params state) (filter (is_eligible params) (values state.validators))
effective_validator_set_lem_example = effective_validator_set_lem params state

apply_downtime_slashing_lem_example :
    ((apply_downtime_slashing params state).0 ≡ ok tt)
    × ((a : ℕ)
        → TreeMap.get a (apply_downtime_slashing params state).1.validators
          ≡ slashed_if
              (stale_in state.epoch (TreeMap.get a state.validators))
              params.downtime_slash_bps
              (TreeMap.get a state.validators))
apply_downtime_slashing_lem_example = apply_downtime_slashing_lem params state (tt, tt) (refl, tt)
