-- ===== src/Staking/Slashing.antt =====
-- `slash`: what it cuts, what a jailing does to the delegations, and who bears it.
use native.Mathlib.Nat.{mul-le-mul_left}
use zeno_final_code.Staking
use zeno_final_code.TreeMap.{
  get-insert_self, get-insert_ne, TreeMap, Key, nat_key, pair_key, get-insert, compare_pair,
}
use zeno_final_code.Common.{
  ◌*◌, ◌/◌, ◌≤◌, min, u128_max, ℕ, ◌+◌, ◌≡◌, ◌≢◌, refl, inl, inr, Bool, true, none, some, [], ◌∷◌,
  ◌==◌, if◌then◌else◌, arith, Bool-cases, Option-cases, sum_by, sum_by-append, Ordering, compare,
}
use Prim.Native.String.{String}
use zeno_final_code.TreeMap
use zeno_final_code.TreeMap.Sorted.{IsSorted, Above}
use zeno_final_code.Types.{
  ValidatorStake, Delegation, StakingState, UnbondingDelegation, ValidatorStatus,
}
use zeno_final_code.Staking.{slash, cut_stake, emptied, released}
use zeno_final_code.Staking.Solvency.{Delegations, weight, others_weight, IsBacked, IsValid}

abbrev empty_entry : ℕ → Delegation → Delegation
empty_entry a e = if e.validator_address == a then record e { amount = 0 } else e

get-emptied :
    (a : ℕ) (k : ℕ × ℕ) (ds : Delegations)
    → TreeMap.get k (emptied a ds)
      ≡ elim (TreeMap.get k ds) [ none ↦ none | some e ↦ some (empty_entry a e) ]
unfolding emptied TreeMap.get
get-emptied a (c, d) [] = refl
get-emptied a (c, d) (((x, y), e) ∷ ds) = ground (arith, get-emptied a (c, d) ds)

emptied-entry :
    (a : ℕ) (k : ℕ × ℕ) (x : Delegation) (ds : Delegations)
    → TreeMap.get k (emptied a ds) ≡ some x
    → (e : Delegation) × (TreeMap.get k ds ≡ some e) × (x ≡ empty_entry a e)
emptied-entry a k x ds h = elim (Option-cases (TreeMap.get k ds)) [
  | inl q ↦ absurd (ground (arith, get-emptied a k ds))
  | inr (e, q) ↦ (e, q, ground (arith, get-emptied a k ds))
]

Above-emptied : (a : ℕ) (k : ℕ × ℕ) (ds : Delegations) → Above k ds → Above k (emptied a ds)
unfolding emptied
Above-emptied a k [] h = tt
Above-emptied a k ((j, e) ∷ ds) h = (h.0, Above-emptied a k ds h.1)

emptied-IsSorted : (a : ℕ) (ds : Delegations) → IsSorted ds → IsSorted (emptied a ds)
unfolding emptied
emptied-IsSorted a [] s = tt
emptied-IsSorted a ((k, e) ∷ ds) s = (Above-emptied a k ds s.0, emptied-IsSorted a ds s.1)

-- The emptied validator is owed nothing.
sum_by-emptied_self : (a : ℕ) (ds : Delegations) → sum_by (weight a) (emptied a ds) ≡ 0
unfolding emptied
sum_by-emptied_self a [] = refl
sum_by-emptied_self a ((k, e) ∷ ds) = ground (arith, sum_by-emptied_self a ds)

sum_by-emptied_others : (a : ℕ) (ds : Delegations) → sum_by (others_weight a) (emptied a ds) ≡ 0
unfolding emptied
sum_by-emptied_others a [] = refl
sum_by-emptied_others a ((k, e) ∷ ds) = ground (arith, sum_by-emptied_others a ds)

-- The others' delegations are as they were.
sum_by-emptied_ne :
    (a b : ℕ) (ds : Delegations)
    → b ≢ a
    → (sum_by (weight b) (emptied a ds) ≡ sum_by (weight b) ds)
      × (sum_by (others_weight b) (emptied a ds) ≡ sum_by (others_weight b) ds)
unfolding emptied
sum_by-emptied_ne a b [] n = (refl, refl)
sum_by-emptied_ne a b ((k, e) ∷ ds) n = ground (arith, sum_by-emptied_ne a b ds n)

-- What one delegator has at all validators, and what the queue holds for them.
abbrev amount_of : ℕ → (ℕ × ℕ) × Delegation → ℕ
amount_of d (k, e) = if e.delegator == d then e.amount else 0

abbrev queued : ℕ → UnbondingDelegation → ℕ
queued d u = if u.delegator == d then u.amount else 0

-- All that a delegator can still claim, from delegations and from the queue.
abbrev pub claims : ℕ → StakingState → ℕ
claims d s = sum_by (amount_of d) s.delegations + sum_by (queued d) s.unbonding

-- Jailing moves claims: what the delegations lose the queue gains.
emptied-released :
    (d a epoch : ℕ) (ds : Delegations)
    → sum_by (amount_of d) (emptied a ds) + sum_by (queued d) (released a epoch ds)
      ≡ sum_by (amount_of d) ds
unfolding emptied released
emptied-released d a epoch [] = refl
emptied-released d a epoch ((k, e) ∷ ds) = ground (arith, emptied-released d a epoch ds)

slash-claims :
    (d a bps : ℕ) (reason : String) (jail : Bool) (s : StakingState)
    → claims d (slash a bps reason jail s).1 ≡ claims d s
unfolding slash
slash-claims d a bps reason jail s = ground (
  arith,
  emptied-released d a s.epoch s.delegations,
  sum_by-append (queued d) s.unbonding (released a s.epoch s.delegations),
)

cut_stake-exact :
    (bps : ℕ) (v : ValidatorStake)
    → bps ≤ 10000
    → v.total_stake * bps ≤ u128_max
    → ((cut_stake bps v).total_stake + v.total_stake * bps / 10000 ≡ v.total_stake)
      × ((cut_stake bps v).self_bond ≡ min v.self_bond (cut_stake bps v).total_stake)
cut_stake-exact bps v le fits = (omega (arith, mul-le-mul_left v.total_stake le), refl)

-- Slashing a known validator, jailed or not, by at most the whole, where the product fits in a u128,
-- cuts exactly its part of that validator's stake, and the bond to what is left, and no other
-- validator's, nor the treasury; and no delegator's claims, on delegations and the queue together,
-- become less: the delegators bear nothing.
pub claims-slash :
    (d a b bps : ℕ) (reason : String) (jail : Bool) (s : StakingState) (v : ValidatorStake)
    → TreeMap.get a s.validators ≡ some v
    → b ≢ a
    → bps ≤ 10000
    → v.total_stake * bps ≤ u128_max
    → let (result, after) = slash a bps reason jail s in
      (result ≡ Staking.ok tt)
      × (claims d after ≡ claims d s)
      × ((u : ValidatorStake) × (TreeMap.get a after.validators ≡ some u)
          × (u.total_stake + v.total_stake * bps / 10000 ≡ v.total_stake)
          × (u.self_bond ≡ min v.self_bond u.total_stake))
      × (TreeMap.get b after.validators ≡ TreeMap.get b s.validators)
      × (after.treasury_balance ≡ s.treasury_balance)
unfolding slash
claims-slash d a b bps reason jail s v h other le fits =
    let status = if jail then ValidatorStatus.jailed else v.status in
    let u : ValidatorStake = record (cut_stake bps v) { status = status } in
    let (total, bond) = cut_stake-exact bps v le fits in
    (
      ground arith,
      slash-claims d a bps reason jail s,
      (u, ground (arith, get-insert_self a u s.validators), total, bond),
      ground (arith, get-insert_ne a b u s.validators other),
      ground arith,
    )

jailed-IsBacked :
    (a bps : ℕ) (s : StakingState) (v : ValidatorStake) (b : ℕ) (u : ValidatorStake)
    → IsValid s
    → TreeMap.get a s.validators ≡ some v
    → elim (compare b a) [
      | Ordering.eq ↦ some (record (cut_stake bps v) { status = ValidatorStatus.jailed })
      | _ ↦ TreeMap.get b s.validators
    ]
      ≡ some u
    → IsBacked (emptied a s.delegations) b u
jailed-IsBacked a bps s v b u w e h = elim (Bool-cases (b == a)) [
  | inl q ↦ ground (
    arith,
    w.backed a v e,
    sum_by-emptied_self a s.delegations,
    sum_by-emptied_others a s.delegations,
  )
  | inr q ↦ ground (arith, w.backed b u, sum_by-emptied_ne a b s.delegations)
]

-- Jailing keeps a valid state valid, on every branch.
pub slash-IsValid :
    (a bps : ℕ) (reason : String) (s : StakingState)
    → IsValid s
    → IsValid (slash a bps reason true s).1
unfolding slash
slash-IsValid a bps reason s w = elim (Option-cases (TreeMap.get a s.validators)) [
  | inl e ↦ rw (e, slash) w
  | inr (v, e) ↦
      let jailed : ValidatorStake = record (cut_stake bps v) { status = ValidatorStatus.jailed } in
      rw (e, slash)
        (record {
          sorted = emptied-IsSorted a s.delegations w.sorted;
          delegation_keyed = λ d b x h.
              let (o, q, r) = emptied-entry a (d, b) x s.delegations h in
              ground (arith, r, w.delegation_keyed d b o q);
          delegation_known = λ d b x h.
              let (o, q, r) = emptied-entry a (d, b) x s.delegations h in
              ground (arith, w.delegation_known d b o q, get-insert a b jailed s.validators);
          backed = λ b u h. jailed-IsBacked a bps s v b u w e (rw get-insert at h);
        })
]
