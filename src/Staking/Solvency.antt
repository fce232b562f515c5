-- ===== src/Staking/Solvency.antt =====
-- The invariant of the staking state: each validator's stake covers what is delegated to it. With
-- it the subtraction in `begin_unbonding` does not wrap.
use zeno_final_code.Common.{
  ℕ, ◌+◌, ◌≤◌, ◌≡◌, ◌≢◌, refl, Bool, true, Option, none, some, ◌==◌, if◌then◌else◌, arith, sum_by,
  u128_max, unwrap_or,
}
use zeno_final_code.TreeMap
use zeno_final_code.TreeMap.{TreeMap, nat_key, pair_key}
use zeno_final_code.TreeMap.Sorted.{IsSorted, sum_by-insert, sum_by-insert_new}
use zeno_final_code.Types.{ValidatorStake, Delegation, StakingState}
use zeno_final_code.Staking.{add_stake, add_delegation}

abbrev pub Delegations : Type 0
Delegations = TreeMap (ℕ × ℕ) Delegation

-- What an entry holds of validator `a`'s stake, and what of it is not the validator's own.
abbrev pub weight : ℕ → (ℕ × ℕ) × Delegation → ℕ
weight a (key, e) = if e.validator_address == a then e.amount else 0

abbrev pub others_weight : ℕ → (ℕ × ℕ) × Delegation → ℕ
others_weight a (key, e) = if e.delegator == a then 0 else weight a (key, e)

pub record IsBacked (ds : Delegations) (a : ℕ) (v : ValidatorStake) : Type 0 where
  pub keyed : v.validator_address ≡ a
  pub bounded : v.total_stake ≤ u128_max
  pub covers : sum_by (weight a) ds ≤ v.total_stake
  pub bonded : v.self_bond + sum_by (others_weight a) ds ≤ v.total_stake

pub record AreSolvent (ds : Delegations) (vs : TreeMap ℕ ValidatorStake) : Type 0 where
  pub sorted : IsSorted ds
  pub delegation_keyed :
      (d a : ℕ) (e : Delegation)
      → TreeMap.get (d, a) ds ≡ some e
      → (e.delegator ≡ d) × (e.validator_address ≡ a)
  pub delegation_known :
      (d a : ℕ) (e : Delegation) → TreeMap.get (d, a) ds ≡ some e → TreeMap.get a vs ≢ none
  pub backed : (a : ℕ) (v : ValidatorStake) → TreeMap.get a vs ≡ some v → IsBacked ds a v

abbrev pub IsValid : StakingState → Type 0
IsValid s = AreSolvent s.delegations s.validators

-- The sums after the entry at `(d, a)` becomes `e`: `old` is what stood there.
abbrev pub Replaced :
    ((ℕ × ℕ) × Delegation → ℕ) → ℕ → ℕ → Delegation → Option Delegation → Delegations → Type 0
Replaced f d a e none ds = sum_by f (TreeMap.insert (d, a) e ds) ≡ sum_by f ds + f ((d, a), e)
Replaced f d a e (some old) ds =
    sum_by f (TreeMap.insert (d, a) e ds) + f ((d, a), old) ≡ sum_by f ds + f ((d, a), e)

pub sum_by-Replaced :
    (f : (ℕ × ℕ) × Delegation → ℕ) (d a : ℕ) (e : Delegation) (old : Option Delegation)
    (ds : Delegations)
    → IsSorted ds
    → TreeMap.get (d, a) ds ≡ old
    → Replaced f d a e old ds
sum_by-Replaced f d a e none ds s h = sum_by-insert_new f (d, a) e ds h
sum_by-Replaced f d a e (some old) ds s h = sum_by-insert f (d, a) e old ds s h

-- Another validator's sums do not see the change.
pub IsBacked-other :
    (d a b : ℕ) (e : Delegation) (old : Option Delegation) (ds : Delegations) (v : ValidatorStake)
    → IsSorted ds
    → TreeMap.get (d, a) ds ≡ old
    → ((o : Delegation) → old ≡ some o → o.validator_address ≡ a)
    → e.validator_address ≡ a
    → b ≢ a
    → IsBacked ds b v
    → IsBacked (TreeMap.insert (d, a) e ds) b v
IsBacked-other d a b e none ds v s h k ke n w = ground (
  arith,
  sum_by-Replaced (weight b) d a e none ds s h,
  sum_by-Replaced (others_weight b) d a e none ds s h,
)
IsBacked-other d a b e (some o) ds v s h k ke n w = ground (
  arith,
  k o refl,
  sum_by-Replaced (weight b) d a e (some o) ds s h,
  sum_by-Replaced (others_weight b) d a e (some o) ds s h,
)

-- The validator that a delegation goes to.
pub IsBacked-delegate :
    (d a amount : ℕ) (self : Bool) (e : Delegation) (old : Option Delegation) (ds : Delegations)
    (v : ValidatorStake)
    → IsSorted ds
    → TreeMap.get (d, a) ds ≡ old
    → ((o : Delegation) → old ≡ some o → (o.delegator ≡ d) × (o.validator_address ≡ a))
    → e
      ≡ add_delegation amount
          (unwrap_or old (record { delegator = d; validator_address = a; amount = 0 }))
    → (self ≡ true → d ≡ a)
    → v.total_stake + amount ≤ u128_max
    → IsBacked ds a v
    → IsBacked (TreeMap.insert (d, a) e ds) a (add_stake amount self v)
IsBacked-delegate d a amount self e none ds v s h k ke hs bound w = ground (
  arith,
  sum_by-Replaced (weight a) d a e none ds s h,
  sum_by-Replaced (others_weight a) d a e none ds s h,
)
IsBacked-delegate d a amount self e (some o) ds v s h k ke hs bound w = ground (
  arith,
  k o refl,
  sum_by-Replaced (weight a) d a e (some o) ds s h,
  sum_by-Replaced (others_weight a) d a e (some o) ds s h,
)
