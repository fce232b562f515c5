-- ===== src/Staking/Epoch.antt =====
-- The settlement of an epoch, the validator set, evidence and liveness: the other methods of
-- `StakingSnapshot` (crates/zeno-state/src/lib.rs).
use zeno_final_code.Common.Sorting.{sort_by}
use Prim.Native.String.{String}
use text.Mathlib.Text.{starts_with}
use zeno_final_code.Common.{
  ℕ, ◌/◌, ◌%◌, Bool, true, false, not, ◌&&◌, ◌||◌, none, some, List, [], ◌∷◌, ltb, leb, ◌==◌,
  if◌then◌else◌, map, filter, sum_by, any, u64_max, u128_max, u128_mod, compare, Ordering,
  saturating_add, saturating_mul, saturating_sub,
}
use zeno_final_code.TreeMap
use zeno_final_code.TreeMap.{TreeMap, nat_key, then_with}
use zeno_final_code.Types.{
  is_active, ValidatorStake, UnbondingDelegation, EconomicsParams, StakingState, Evidence,
}
use zeno_final_code.Staking.{Result, ok, err, unknown_validator, bps_scale, slash}

-- The stake that `settle_epoch_rewards` sums; a release build's `sum` wraps.
abbrev pub active_stake : ℕ × ValidatorStake → ℕ
active_stake (address, v) = if is_active v.status then v.total_stake else 0

unfoldable pub total_active_stake : TreeMap ℕ ValidatorStake → ℕ
total_active_stake m = sum_by active_stake m % u128_mod

abbrev pub gross_reward : ℕ → ℕ → ValidatorStake → ℕ
gross_reward pool total v = saturating_mul u128_max pool v.total_stake / total

abbrev pub commission_of : ℕ → ValidatorStake → ℕ
commission_of gross v = saturating_mul u128_max gross v.commission_bps / bps_scale

abbrev pub is_paid : ValidatorStake → Bool
is_paid v = not (not (is_active v.status) || v.total_stake == 0)

-- The body of the loop over the validators, on the rewards and the treasury's balance.
abbrev pub pay : ℕ → ℕ → ℕ × ValidatorStake → TreeMap ℕ ℕ × ℕ → TreeMap ℕ ℕ × ℕ
pay pool total (address, v) (rewards, treasury) =
    if is_paid v
    then (
      TreeMap.insert address (gross_reward pool total v) rewards,
      saturating_add u128_max treasury (commission_of (gross_reward pool total v) v),
    )
    else (rewards, treasury)

unfoldable pub pay_all : ℕ → ℕ → TreeMap ℕ ValidatorStake → TreeMap ℕ ℕ × ℕ → TreeMap ℕ ℕ × ℕ
pay_all pool total [] acc = acc
pay_all pool total (e ∷ m) acc = pay_all pool total m (pay pool total e acc)

unfoldable pub settle_epoch_rewards :
    ℕ → ℕ → EconomicsParams → StakingState → TreeMap ℕ ℕ × StakingState
settle_epoch_rewards total_fees reward_budget params s =
    let total = total_active_stake s.validators in
    let next = saturating_add u64_max s.epoch 1 in
    let distributable = saturating_add u128_max total_fees reward_budget in
    let treasury_cut = saturating_mul u128_max distributable params.treasury_bps / bps_scale in
    let pool = saturating_sub distributable treasury_cut in
    let (rewards, treasury) =
      pay_all pool total s.validators
        ([], saturating_add u128_max s.treasury_balance treasury_cut) in
    if total == 0
    then (
      [],
      record s {
        treasury_balance =
            saturating_add u128_max (saturating_add u128_max s.treasury_balance total_fees)
              reward_budget;
        epoch = next;
      },
    )
    else (
      rewards,
      record s {
        treasury_balance = treasury;
        epoch = next;
        unbonding = filter (λ (u : UnbondingDelegation). ltb next u.release_epoch) s.unbonding;
      },
    )

-- The closure that `effective_validator_set` sorts by: more stake first, then the lower address.
unfoldable pub compare_stake : ValidatorStake → ValidatorStake → Ordering
compare_stake l r =
    then_with (compare r.total_stake l.total_stake)
      (compare l.validator_address r.validator_address)

unfoldable pub values : TreeMap ℕ ValidatorStake → List ValidatorStake
values m = map (λ e. e.1) m

abbrev pub is_eligible : EconomicsParams → ValidatorStake → Bool
is_eligible params v = is_active v.status && leb params.minimum_self_bond v.self_bond

unfoldable pub ordered_stakes : EconomicsParams → StakingState → List ValidatorStake
ordered_stakes params s = sort_by compare_stake (filter (is_eligible params) (values s.validators))

unfoldable pub effective_validator_set : EconomicsParams → StakingState → List ℕ
effective_validator_set params s = map (λ v. v.validator_address) (ordered_stakes params s)

unfoldable pub is_validator_active : ℕ → EconomicsParams → StakingState → Bool
is_validator_active address params s = elim (TreeMap.get address s.validators) [
  | none ↦ false
  | some v ↦ is_eligible params v
]

unfoldable pub note_liveness : ℕ → StakingState → Result (Unit {0}) × StakingState
note_liveness address s = elim (TreeMap.get address s.validators) [
  | none ↦ (err unknown_validator, s)
  | some v ↦ (
    ok tt,
    record s {
      validators = TreeMap.insert address (record v { last_liveness_epoch = s.epoch }) s.validators;
    },
  )
]

-- `str::contains`.
unfoldable pub contains : String → String → Bool
contains needle String.[] = starts_with String.[] needle
contains needle (String.◌∷◌ c rest) = starts_with (String.◌∷◌ c rest) needle || contains needle rest

unfoldable pub is_equivocation : Evidence → Bool
is_equivocation e = contains "duplicate vote" e.reason || contains "conflicting proposal" e.reason

-- The loop of `apply_evidence`, on the addresses slashed so far; `?` leaves it at an error.
unfoldable pub apply_evidence_loop :
    List Evidence → EconomicsParams → List ℕ → StakingState → Result (Unit {0}) × StakingState
apply_evidence_loop [] params slashed s = (ok tt, s)
apply_evidence_loop (e ∷ items) params slashed s =
    let skip = apply_evidence_loop items params slashed s in
    let step = slash e.validator_address params.double_sign_slash_bps e.reason true s in
    let next = apply_evidence_loop items params (e.validator_address ∷ slashed) step.1 in
    if any (λ a. a == e.validator_address) slashed
    then skip
    else if is_equivocation e
    then elim step.0 [ ok _ ↦ next | err x ↦ (err x, step.1) ]
    else skip

unfoldable pub apply_evidence :
    List Evidence → EconomicsParams → StakingState → Result (Unit {0}) × StakingState
apply_evidence evidence params s = apply_evidence_loop evidence params [] s

abbrev pub is_stale : ℕ → ValidatorStake → Bool
is_stale epoch v =
    is_active v.status
    && ltb (saturating_add u64_max v.last_liveness_epoch 1) (saturating_add u64_max epoch 1)

-- The loop of `apply_downtime_slashing`.
unfoldable pub slash_all : List ℕ → ℕ → StakingState → Result (Unit {0}) × StakingState
slash_all [] bps s = (ok tt, s)
slash_all (a ∷ rest) bps s =
    let step = slash a bps "downtime" true s in
    let next = slash_all rest bps step.1 in elim step.0 [ ok _ ↦ next | err x ↦ (err x, step.1) ]

unfoldable pub stale_validators : StakingState → List ℕ
stale_validators s =
    map (λ v. v.validator_address) (filter (is_stale s.epoch) (values s.validators))

unfoldable pub apply_downtime_slashing :
    EconomicsParams → StakingState → Result (Unit {0}) × StakingState
apply_downtime_slashing params s = slash_all (stale_validators s) params.downtime_slash_bps s
