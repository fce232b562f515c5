-- ===== src/Staking/Unbonding.antt =====
-- `begin_unbonding`: in a solvent state its subtraction is exact, and it keeps the state solvent.
use zeno_final_code.Common.{
  u64_max, saturating_add, wrapping_sub128, sum_by, [], ◌∷◌, Option-cases, Bool-cases, inl, inr,
  some, ◌++◌, ℕ, ◌-◌, ◌≤◌, ◌≡◌, ◌==◌, arith, wrapping_sub128_lem, if◌then◌else◌, ltb,
}
use zeno_final_code.Staking.{unbond_validator, ok, begin_unbonding, EconomicsParams, remove_stake}
use zeno_final_code.TreeMap
use zeno_final_code.TreeMap.{TreeMap, nat_key, pair_key}
use zeno_final_code.TreeMap.Sorted.{IsSorted}
use zeno_final_code.Types.{ValidatorStake, Delegation, StakingState}
use zeno_final_code.Staking.Delegating.{store-IsValid}
use zeno_final_code.Staking.Solvency.{
  Delegations, weight, others_weight, IsBacked, IsValid, sum_by-Replaced,
}

-- What a validator has at least, if an entry of its delegations has that.
amount-le-stake :
    (d a : ℕ) (e : Delegation) (s : StakingState) (v : ValidatorStake)
    → IsValid s
    → TreeMap.get (d, a) s.delegations ≡ some e
    → TreeMap.get a s.validators ≡ some v
    → e.amount ≤ v.total_stake
amount-le-stake d a e s v w h k =
    let zeroed : Delegation = record e { amount = 0 } in
    ground (
      arith,
      w.delegation_keyed d a e h,
      (w.backed a v k).covers,
      sum_by-Replaced (weight a) d a zeroed (some e) s.delegations w.sorted h,
    )

others-le-all : (a : ℕ) (ds : Delegations) → sum_by (others_weight a) ds ≤ sum_by (weight a) ds
others-le-all a [] = omega arith
others-le-all a ((k, e) ∷ ds) = ground (arith, others-le-all a ds)

IsBacked-unbond :
    (d a amount : ℕ) (e : Delegation) (ds : Delegations) (v : ValidatorStake)
    → IsSorted ds
    → TreeMap.get (d, a) ds ≡ some e
    → (e.delegator ≡ d) × (e.validator_address ≡ a)
    → amount ≤ e.amount
    → e.amount ≤ v.total_stake
    → IsBacked ds a v
    → IsBacked
        (TreeMap.insert (d, a) (record e { amount = e.amount - amount }) ds)
        a
        (remove_stake amount (d == a) v)
IsBacked-unbond d a amount e ds v s h k le room w =
    let new : Delegation = record e { amount = e.amount - amount } in
    ground (
      arith,
      wrapping_sub128_lem v.total_stake amount,
      others-le-all a (TreeMap.insert (d, a) new ds),
      sum_by-Replaced (weight a) d a new (some e) ds s h,
      sum_by-Replaced (others_weight a) d a new (some e) ds s h,
    )

-- The state after `begin_unbonding` where nothing wraps.
abbrev pub unbonded :
    ℕ → ℕ → ℕ → EconomicsParams → Delegation → ValidatorStake → StakingState → StakingState
unbonded d a amount params e v s = record s {
  delegations = TreeMap.insert (d, a) (record e { amount = e.amount - amount }) s.delegations;
  validators =
      TreeMap.insert a
        (record v {
          total_stake = v.total_stake - amount;
          self_bond = if d == a then v.self_bond - amount else v.self_bond;
        })
        s.validators;
  unbonding =
      s.unbonding
      ++ record {
        delegator = d;
        validator_address = a;
        amount = amount;
        release_epoch = saturating_add u64_max s.epoch params.unbonding_epochs;
      }
        ∷ [];
}

-- In a valid state, unbonding no more than a delegation holds succeeds: the validator is known, its
-- stake holds the amount, so that the subtraction does not wrap, and exactly the amount goes from
-- the delegation and the stake (and the self bond, where the validator unbonds its own) to the queue.
pub begin_unbonding_lem :
    (d a amount : ℕ) (params : EconomicsParams) (s : StakingState) (e : Delegation)
    → IsValid s
    → TreeMap.get (d, a) s.delegations ≡ some e
    → amount ≤ e.amount
    → (v : ValidatorStake) × (TreeMap.get a s.validators ≡ some v)
      × (amount ≤ v.total_stake)
      × (begin_unbonding d a amount params s ≡ (ok tt, unbonded d a amount params e v s))
unfolding begin_unbonding
begin_unbonding_lem d a amount params s e w h le =
    elim (Option-cases (TreeMap.get a s.validators)) [
      | inl k ↦ absurd (w.delegation_known d a e h k)
      | inr (v, k) ↦
          let room : e.amount ≤ v.total_stake = amount-le-stake d a e s v w h k in
          let exact : wrapping_sub128 v.total_stake amount ≡ v.total_stake - amount =
            wrapping_sub128_lem v.total_stake amount (omega arith) (w.backed a v k).bounded in
          (v, k, omega arith, rw (h, k, exact, begin_unbonding, unbond_validator) (ground arith))
    ]

-- `begin_unbonding` keeps a valid state valid, on every branch.
pub begin_unbonding-IsValid :
    (d a amount : ℕ) (params : EconomicsParams) (s : StakingState)
    → IsValid s
    → IsValid (begin_unbonding d a amount params s).1
unfolding begin_unbonding
begin_unbonding-IsValid d a amount params s w =
    elim (Option-cases (TreeMap.get (d, a) s.delegations)) [
      | inl h ↦ rw (h, begin_unbonding) w
      | inr (e, h) ↦ elim (Bool-cases (ltb e.amount amount)) [
        | inl less ↦ rw (h, begin_unbonding, less) w
        | inr enough ↦ elim (Option-cases (TreeMap.get a s.validators)) [
          | inl k ↦ absurd (w.delegation_known d a e h k)
          | inr (v, k) ↦
              let le : amount ≤ e.amount = ground arith in
              rw (h, begin_unbonding, enough, k, unbond_validator)
                (store-IsValid d a (record e { amount = e.amount - amount })
                  (remove_stake amount (d == a) v) s w (w.delegation_known d a e h)
                  (w.delegation_keyed d a e h)
                  (IsBacked-unbond d a amount e s.delegations v w.sorted h
                    (w.delegation_keyed d a e h) le (amount-le-stake d a e s v w h k)
                    (w.backed a v k)))
        ]
      ]
    ]
