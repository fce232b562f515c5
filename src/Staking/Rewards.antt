-- ===== src/Staking/Rewards.antt =====
-- `settle_epoch_rewards`: what is paid out, what the treasury gains, and which queue entries go.
use zeno_final_code.TreeMap.{get-insert, TreeMap, Key, nat_key, pair_key}
use zeno_final_code.TreeMap.Sorted.{IsSorted, get-Above}
use zeno_final_code.Types.{
  is_active, ValidatorStake, StakingState, UnbondingDelegation, EconomicsParams,
}
use zeno_final_code.Common.{
  Bool, true, ◌&&◌, min, Option, none, some, ℕ, ◌+◌, ◌*◌, ◌≤◌, ◌<◌, ◌≡◌, refl, ◌∙◌, inl, inr, false,
  [], ◌∷◌, filter, ◌==◌, if◌then◌else◌, arith, Bool-cases, sum_by, u128_max, u64_max,
  saturating_add, saturating_mul, saturating_sub, ltb, ◌/◌,
}
use native.Mathlib.Nat.{div-mul-le_self, mul-le-mul_right, mul-le-mul_left, le_of_mul-le-mul_right}
use zeno_final_code.TreeMap
use zeno_final_code.Staking.{bps_scale}
use zeno_final_code.Staking.Epoch.{
  active_stake, total_active_stake, gross_reward, is_paid, pay, pay_all, settle_epoch_rewards,
}

abbrev pub paid : ℕ × ℕ → ℕ
paid (address, reward) = reward

sum_by-insert-le :
    (k v : ℕ) (m : TreeMap ℕ ℕ) → sum_by paid (TreeMap.insert k v m) ≤ sum_by paid m + v
unfolding TreeMap.insert
sum_by-insert-le k v [] = omega arith
sum_by-insert-le k v ((j, w) ∷ m) = ground (arith, sum_by-insert-le k v m)

gross-mul-le :
    (pool total : ℕ) (v : ValidatorStake) → gross_reward pool total v * total ≤ pool * v.total_stake
gross-mul-le pool total v =
    omega (arith, div-mul-le_self (saturating_mul u128_max pool v.total_stake) total)

pay-bounded :
    (pool total : ℕ) (e : ℕ × ValidatorStake) (acc : TreeMap ℕ ℕ × ℕ)
    → sum_by paid (pay pool total e acc).0 * total
      ≤ sum_by paid acc.0 * total + pool * active_stake e
pay-bounded pool total (a, v) (r, t) = elim (Bool-cases (is_paid v)) [
  | inl p ↦
      let g = gross_reward pool total v in
      let grown = mul-le-mul_right total (sum_by-insert-le a g r) in
      let share = gross-mul-le pool total v in
      let active : active_stake (a, v) ≡ v.total_stake = ground arith in
      rw (p, active) (omega (arith, grown, share))
  | inr p ↦ rw p (omega arith)
]

-- The shares of the validators, by their stakes.
pay_all-bounded :
    (pool total : ℕ) (m : TreeMap ℕ ValidatorStake) (acc : TreeMap ℕ ℕ × ℕ)
    → sum_by paid (pay_all pool total m acc).0 * total
      ≤ sum_by paid acc.0 * total + pool * sum_by active_stake m
unfolding pay_all
pay_all-bounded pool total [] acc = omega arith
pay_all-bounded pool total (e ∷ m) acc =
    omega (arith, pay-bounded pool total e acc, pay_all-bounded pool total m (pay pool total e acc))

-- What the epoch's fees and budget come to, and the treasury's part of it.
abbrev pub distributable : ℕ → ℕ → ℕ
distributable fees budget = min (fees + budget) u128_max

abbrev pub treasury_cut : ℕ → ℕ → EconomicsParams → ℕ
treasury_cut fees budget params =
    min (distributable fees budget * params.treasury_bps) u128_max / 10000

treasury_cut-le :
    (fees budget : ℕ) (params : EconomicsParams)
    → params.treasury_bps ≤ bps_scale
    → treasury_cut fees budget params ≤ distributable fees budget
treasury_cut-le fees budget params h = omega (arith, mul-le-mul_left (distributable fees budget) h)

rewards-le-pool :
    (pool treasury : ℕ) (m : TreeMap ℕ ValidatorStake)
    → 0 < sum_by active_stake m
    → sum_by paid (pay_all pool (sum_by active_stake m) m ([], treasury)).0 ≤ pool
rewards-le-pool pool treasury m h =
    le_of_mul-le-mul_right {k = sum_by active_stake m}
      (omega (arith, pay_all-bounded pool (sum_by active_stake m) m ([], treasury))) h

total_active_stake-eq :
    (m : TreeMap ℕ ValidatorStake)
    → sum_by active_stake m ≤ u128_max
    → total_active_stake m ≡ sum_by active_stake m
unfolding total_active_stake
total_active_stake-eq m h = omega arith

-- A validator's share of a pool, by its part of the total stake, and the commission on a reward, at
-- the width of the program's words.
abbrev pub share : ℕ → ℕ → ValidatorStake → ℕ
share pool total v = min (pool * v.total_stake) u128_max / total

abbrev pub earns : ValidatorStake → Bool
earns v = is_active v.status && ltb 0 v.total_stake

abbrev pub commission : ℕ → ℕ → ℕ × ValidatorStake → ℕ
commission pool total (a, v) =
    if earns v then min (share pool total v * v.commission_bps) u128_max / 10000 else 0

pay-treasury-le :
    (pool total : ℕ) (e : ℕ × ValidatorStake) (acc : TreeMap ℕ ℕ × ℕ)
    → (pay pool total e acc).1 ≤ acc.1 + commission pool total e
pay-treasury-le pool total (a, v) (r, t) = elim (Bool-cases (is_paid v)) [
  | inl p ↦ let active : earns v ≡ true = ground arith in rw (p, active) (omega arith)
  | inr p ↦ rw p (omega arith)
]

pay_all-treasury-le :
    (pool total : ℕ) (m : TreeMap ℕ ValidatorStake) (acc : TreeMap ℕ ℕ × ℕ)
    → (pay_all pool total m acc).1 ≤ acc.1 + sum_by (commission pool total) m
unfolding pay_all
pay_all-treasury-le pool total [] acc = omega arith
pay_all-treasury-le pool total (e ∷ m) acc = omega (
  arith,
  pay-treasury-le pool total e acc,
  pay_all-treasury-le pool total m (pay pool total e acc),
)

pay-treasury :
    (pool total : ℕ) (e : ℕ × ValidatorStake) (acc : TreeMap ℕ ℕ × ℕ)
    → acc.1 + commission pool total e ≤ u128_max
    → (pay pool total e acc).1 ≡ acc.1 + commission pool total e
pay-treasury pool total (a, v) (r, t) h = elim (Bool-cases (is_paid v)) [
  | inl p ↦
      let active : earns v ≡ true = ground arith in rw (p, active) (omega (arith, rw active at h))
  | inr p ↦ let idle : earns v ≡ false = ground arith in rw (p, idle) (omega arith)
]

pay_all-treasury :
    (pool total : ℕ) (m : TreeMap ℕ ValidatorStake) (acc : TreeMap ℕ ℕ × ℕ)
    → acc.1 + sum_by (commission pool total) m ≤ u128_max
    → (pay_all pool total m acc).1 ≡ acc.1 + sum_by (commission pool total) m
unfolding pay_all
pay_all-treasury pool total [] acc h = omega arith
pay_all-treasury pool total (e ∷ m) acc h =
    let step = pay-treasury pool total e acc (omega arith) in
    pay_all-treasury pool total m (pay pool total e acc) (omega (arith, step)) ∙ omega (arith, step)

-- What the settlement owes a validator, if it is there and earns.
abbrev pub reward_of : ℕ → ℕ → Option ValidatorStake → Option ℕ
reward_of pool total none = none
reward_of pool total (some v) = if earns v then some (share pool total v) else none

get-pay :
    (pool total a b : ℕ) (v : ValidatorStake) (acc : TreeMap ℕ ℕ × ℕ)
    → TreeMap.get b (pay pool total (a, v) acc).0
      ≡ (if earns v && b == a then some (share pool total v) else TreeMap.get b acc.0)
get-pay pool total a b v (r, t) = ground (arith, get-insert a b (gross_reward pool total v) r)

get-pay_all :
    (pool total b : ℕ) (m : TreeMap ℕ ValidatorStake) (acc : TreeMap ℕ ℕ × ℕ)
    → IsSorted m
    → TreeMap.get b (pay_all pool total m acc).0 ≡ elim (reward_of pool total (TreeMap.get b m)) [
      | none ↦ TreeMap.get b acc.0
      | some r ↦ some r
    ]
unfolding pay_all TreeMap.get
get-pay_all pool total b [] acc s = refl
get-pay_all pool total b ((a, v) ∷ m) acc s = ground (
  arith,
  get-pay_all pool total b m (pay pool total (a, v) acc) s.1,
  get-pay pool total a b v acc,
  get-Above a m s.0,
)

-- The pool that the validators share, and all commissions on it.
abbrev pub validator_pool : ℕ → ℕ → EconomicsParams → ℕ
validator_pool fees budget params =
    saturating_sub (distributable fees budget) (treasury_cut fees budget params)

abbrev pub commissions : ℕ → ℕ → EconomicsParams → StakingState → ℕ
commissions fees budget params s =
    sum_by (commission (validator_pool fees budget params) (sum_by active_stake s.validators))
      s.validators

-- Where the active stakes fit in a u128 and the treasury's share is at most the whole, the rewards
-- and the treasury's balance after a settlement are together at most its balance before, the fees,
-- the budget, and the commissions on the rewards, which are created on top.
pub settle_epoch_rewards_bounded :
    (fees budget : ℕ) (params : EconomicsParams) (s : StakingState)
    → sum_by active_stake s.validators ≤ u128_max
    → params.treasury_bps ≤ bps_scale
    → let (rewards, after) = settle_epoch_rewards fees budget params s in
      sum_by paid rewards + after.treasury_balance
      ≤ s.treasury_balance + fees + budget + commissions fees budget params s
unfolding settle_epoch_rewards
settle_epoch_rewards_bounded fees budget params s fits part =
    let cut = treasury_cut fees budget params in
    let small = treasury_cut-le fees budget params part in
    let pool = validator_pool fees budget params in
    let start = saturating_add u128_max s.treasury_balance cut in
    elim (Bool-cases (sum_by active_stake s.validators == 0)) [
      | inl z ↦ rw (total_active_stake-eq s.validators fits, z) (omega arith)
      | inr p ↦
          let paid_out = rewards-le-pool pool start s.validators (ground arith) in
          let kept =
            pay_all-treasury-le pool (sum_by active_stake s.validators) s.validators ([], start) in
          rw (total_active_stake-eq s.validators fits, p) (omega (arith, small, paid_out, kept))
    ]

-- Where some stake is active, the validators stand in order and nothing saturates in the treasury, a
-- settlement pays exactly the active validators with stake, each its share of the pool in full, and
-- the treasury gains its cut and, on top of it, a commission on each of these rewards.
pub settle_epoch_rewards_treasury :
    (fees budget a : ℕ) (params : EconomicsParams) (s : StakingState)
    → IsSorted s.validators
    → sum_by active_stake s.validators ≤ u128_max
    → 0 < sum_by active_stake s.validators
    → s.treasury_balance + treasury_cut fees budget params + commissions fees budget params s
      ≤ u128_max
    → let (rewards, after) = settle_epoch_rewards fees budget params s in
      (TreeMap.get a rewards
        ≡ reward_of
            (validator_pool fees budget params)
            (sum_by active_stake s.validators)
            (TreeMap.get a s.validators))
      × (after.treasury_balance
          ≡ s.treasury_balance + treasury_cut fees budget params + commissions fees budget params s)
unfolding settle_epoch_rewards TreeMap.get
settle_epoch_rewards_treasury fees budget a params s sorted fits some_stake h =
    let cut = treasury_cut fees budget params in
    let pool = validator_pool fees budget params in
    let total = sum_by active_stake s.validators in
    let positive : (total == 0) ≡ false = ground arith in
    let start : saturating_add u128_max s.treasury_balance cut ≡ s.treasury_balance + cut =
      omega arith in
    rw (total_active_stake-eq s.validators fits, positive, start)
      (
        get-pay_all pool total a s.validators ([], s.treasury_balance + cut) sorted ∙ ground arith,
        pay_all-treasury pool total s.validators ([], s.treasury_balance + cut) h,
      )

-- A settlement ends the epoch on every branch, and leaves validators, delegations and the record of
-- slashings as they were; where some stake is active it drops from the queue exactly the entries
-- that are due in the new epoch, and otherwise it leaves the queue alone.
pub settle_epoch_rewards_frame :
    (fees budget : ℕ) (params : EconomicsParams) (s : StakingState)
    → let t = (settle_epoch_rewards fees budget params s).1 in
      (t.epoch ≡ saturating_add u64_max s.epoch 1)
      × (t.validators ≡ s.validators)
      × (t.delegations ≡ s.delegations)
      × (t.slashing_events ≡ s.slashing_events)
      × (t.unbonding ≡ (
          if total_active_stake s.validators == 0
          then s.unbonding
          else filter (λ (u : UnbondingDelegation). ltb t.epoch u.release_epoch) s.unbonding))
unfolding settle_epoch_rewards
settle_epoch_rewards_frame fees budget params s =
    elim (Bool-cases (total_active_stake s.validators == 0)) [
      | inl z ↦ rw z (refl, refl, refl, refl, refl)
      | inr p ↦ rw p (refl, refl, refl, refl, refl)
    ]
