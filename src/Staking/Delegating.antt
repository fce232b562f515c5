-- ===== src/Staking/Delegating.antt =====
-- `delegate` and `begin_unbonding` keep the staking state solvent, and what they change.
use zeno_final_code.Staking
use zeno_final_code.Staking.{unknown_validator, delegate, add_stake, add_delegation}
use zeno_final_code.TreeMap.{get-insert_self, TreeMap, nat_key, pair_key, compare_pair, get-insert}
use zeno_final_code.Staking.Solvency.{
  weight, sum_by-Replaced, IsBacked, IsValid, IsBacked-other, IsBacked-delegate,
}
use zeno_final_code.Common.{
  if◌then◌else◌, ℕ, ◌+◌, ◌≤◌, ◌≡◌, ◌≢◌, refl, inl, inr, Bool, true, none, some, ◌==◌, arith,
  Bool-cases, Option-cases, ==_iff, u128_max, unwrap_or,
}
use mathlib.Core.Path.{subst₂}
use zeno_final_code.TreeMap
use zeno_final_code.TreeMap.Sorted.{insert-IsSorted}
use zeno_final_code.Types.{ValidatorStake, Delegation, StakingState}

-- The delegations with `e` at `(d, a)` and the validators with `v` at `a`.
abbrev pub store : ℕ → ℕ → Delegation → ValidatorStake → StakingState → StakingState
store d a e v s = record s {
  delegations = TreeMap.insert (d, a) e s.delegations;
  validators = TreeMap.insert a v s.validators;
}

store-IsBacked :
    (d a : ℕ) (e : Delegation) (v : ValidatorStake) (s : StakingState) (b : ℕ) (u : ValidatorStake)
    → IsValid s
    → e.validator_address ≡ a
    → IsBacked (TreeMap.insert (d, a) e s.delegations) a v
    → TreeMap.get b (TreeMap.insert a v s.validators) ≡ some u
    → IsBacked (TreeMap.insert (d, a) e s.delegations) b u
store-IsBacked d a e v s b u w ke k h = elim (Bool-cases (b == a)) [
  | inl q ↦
      let same : v ≡ u = ground (arith, get-insert a b v s.validators) in
      let place : a ≡ b = omega (arith, (==_iff b a).0 q) in
      subst₂ (IsBacked (TreeMap.insert (d, a) e s.delegations)) place same k
  | inr q ↦
      let other : b ≢ a = ground arith in
      IsBacked-other d a b e (TreeMap.get (d, a) s.delegations) s.delegations u w.sorted refl
        (λ o g. (w.delegation_keyed d a o g).1) ke other
        (w.backed b u (ground (arith, get-insert a b v s.validators)))
]

-- What both methods do to the maps keeps the state valid, if it keeps the one validator backed.
pub store-IsValid :
    (d a : ℕ) (e : Delegation) (v : ValidatorStake) (s : StakingState)
    → IsValid s
    → TreeMap.get a s.validators ≢ none
    → (e.delegator ≡ d) × (e.validator_address ≡ a)
    → IsBacked (TreeMap.insert (d, a) e s.delegations) a v
    → IsValid (store d a e v s)
store-IsValid d a e v s w known ke b₀ = record {
  sorted = insert-IsSorted (d, a) e s.delegations w.sorted;
  delegation_keyed = λ d' a' e' h.
      ground (arith, get-insert (d, a) (d', a') e s.delegations, w.delegation_keyed d' a' e');
  delegation_known = λ d' a' e' h. ground (
    arith,
    get-insert (d, a) (d', a') e s.delegations,
    w.delegation_known d' a' e',
    get-insert a a' v s.validators,
  );
  backed = λ b u h. store-IsBacked d a e v s b u w ke.1 b₀ h;
}

delegate-keyed :
    (d a amount : ℕ) (s : StakingState)
    → IsValid s
    → let fresh : Delegation = record { delegator = d; validator_address = a; amount = 0 } in
      let new = add_delegation amount (unwrap_or (TreeMap.get (d, a) s.delegations) fresh) in
      (new.delegator ≡ d) × (new.validator_address ≡ a)
delegate-keyed d a amount s w = elim (Option-cases (TreeMap.get (d, a) s.delegations)) [
  | inl e ↦ rw e (refl, refl)
  | inr (o, e) ↦ rw e (w.delegation_keyed d a o e)
]

delegate-keeps :
    (d a amount : ℕ) (self : Bool) (s : StakingState)
    → IsValid s
    → (self ≡ true → d ≡ a)
    → ((v : ValidatorStake)
        → TreeMap.get a s.validators ≡ some v
        → v.total_stake + amount ≤ u128_max)
    → IsValid (delegate d a amount self s).1
unfolding delegate
delegate-keeps d a amount self s w hs room = elim (Option-cases (TreeMap.get a s.validators)) [
  | inl e ↦ rw (e, delegate) w
  | inr (v, e) ↦
      let old = TreeMap.get (d, a) s.delegations in
      let fresh : Delegation = record { delegator = d; validator_address = a; amount = 0 } in
      let new = add_delegation amount (unwrap_or old fresh) in
      rw (e, delegate)
        (store-IsValid d a new (add_stake amount self v) s w (λ q. ground arith)
          (delegate-keyed d a amount s w)
          (IsBacked-delegate d a amount self new old s.delegations v w.sorted refl
            (w.delegation_keyed d a) refl hs (room v e) (w.backed a v e)))
]

-- What a delegator has at a validator.
abbrev pub delegated_to : ℕ → ℕ → StakingState → ℕ
delegated_to d a s = elim (TreeMap.get (d, a) s.delegations) [ none ↦ 0 | some e ↦ e.amount ]

-- An unknown validator is refused and nothing changes; a known one has the amount more, in its stake
-- and, for a self bond, in its bond, and so has the delegator at it.
abbrev pub Delegates :
    ℕ → ℕ → ℕ → Bool → StakingState → Staking.Result (Unit {0}) → StakingState → Type 0
Delegates d a amount self s result after = elim (TreeMap.get a s.validators) [
  | none ↦ (result ≡ Staking.err unknown_validator) × (after ≡ s)
  | some v ↦
      (result ≡ Staking.ok tt)
      × (TreeMap.get a after.validators
          ≡ some (record v {
            total_stake = v.total_stake + amount;
            self_bond = v.self_bond + (if self then amount else 0);
          }))
      × (delegated_to d a after ≡ delegated_to d a s + amount)
]

-- A delegation is part of what its validator's stake covers.
delegated_to-le :
    (d a : ℕ) (s : StakingState) (v : ValidatorStake)
    → IsValid s
    → TreeMap.get a s.validators ≡ some v
    → delegated_to d a s ≤ v.total_stake
delegated_to-le d a s v w h = elim (Option-cases (TreeMap.get (d, a) s.delegations)) [
  | inl q ↦ ground arith
  | inr (e, q) ↦
      let none_left : Delegation = record e { amount = 0 } in
      ground (
        arith,
        (w.delegation_keyed d a e q).1,
        sum_by-Replaced (weight a) d a none_left (some e) s.delegations w.sorted q,
        (w.backed a v h).covers,
      )
]

delegate-Delegates :
    (d a amount : ℕ) (self : Bool) (s : StakingState)
    → IsValid s
    → ((v : ValidatorStake)
        → TreeMap.get a s.validators ≡ some v
        → v.total_stake + amount ≤ u128_max)
    → Delegates d a amount self s (delegate d a amount self s).0 (delegate d a amount self s).1
unfolding delegate
delegate-Delegates d a amount self s w room = elim (Option-cases (TreeMap.get a s.validators)) [
  | inl q ↦ rw (Delegates, q) (ground arith, ground arith)
  | inr (v, q) ↦
      let fresh : Delegation = record { delegator = d; validator_address = a; amount = 0 } in
      let new = add_delegation amount (unwrap_or (TreeMap.get (d, a) s.delegations) fresh) in
      rw (Delegates, q)
        (
          ground arith,
          ground (
            arith,
            get-insert_self a (add_stake amount self v) s.validators,
            room v q,
            (w.backed a v q).bonded,
          ),
          ground (
            arith,
            get-insert_self (d, a) new s.delegations,
            room v q,
            delegated_to-le d a s v w q,
          ),
        )
]

-- Where the stake of the validator, if it is known, has room for the amount, and a self bond is the
-- validator's own, `delegate` keeps a valid state valid; to a known validator it succeeds, and adds
-- the amount to its stake, to its bond if it is a self bond, and to the delegator's delegation, to
-- the unit; to an unknown one it is an error and changes nothing.
pub delegate-IsValid :
    (d a amount : ℕ) (self : Bool) (s : StakingState)
    → IsValid s
    → (self ≡ true → d ≡ a)
    → ((v : ValidatorStake)
        → TreeMap.get a s.validators ≡ some v
        → v.total_stake + amount ≤ u128_max)
    → let (result, after) = delegate d a amount self s in
      IsValid after × Delegates d a amount self s result after
delegate-IsValid d a amount self s w hs room =
    (delegate-keeps d a amount self s w hs room, delegate-Delegates d a amount self s w room)
