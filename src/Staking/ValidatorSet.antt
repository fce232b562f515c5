-- ===== src/Staking/ValidatorSet.antt =====
-- `effective_validator_set`: who is in it, in which order; and its agreement with
-- `is_validator_active`.
use zeno_final_code.Common.Sorting.{sort_by, insert_by}
use zeno_final_code.Common.{
  ◌≤◌, ◌<◌, ◌≡◌, ◌≢◌, refl, ◌⊎◌, inl, inr, List, [], ◌∷◌, map, filter, arith, All, All-imp,
  Ordering,
}
use mathlib.Core.List.{Perm}
use mathlib.Core.List.Perm
use zeno_final_code.TreeMap.{nat_key}
use zeno_final_code.Types.{ValidatorStake, StakingState, EconomicsParams}
use zeno_final_code.Staking.Epoch.{
  compare_stake, values, is_eligible, ordered_stakes, effective_validator_set,
}

-- `l` may stand before `r`: it has more stake, or as much and an address that is not higher.
abbrev pub Precedes : ValidatorStake → ValidatorStake → Type 0
Precedes l r =
    (r.total_stake < l.total_stake)
    ⊎ ((l.total_stake ≡ r.total_stake) × (l.validator_address ≤ r.validator_address))

abbrev pub IsOrdered : List ValidatorStake → Type 0
IsOrdered [] = Unit
IsOrdered (v ∷ vs) = All (Precedes v) vs × IsOrdered vs

Precedes-trans : (a b c : ValidatorStake) → Precedes a b → Precedes b c → Precedes a c
Precedes-trans a b c h k = ground arith

Precedes-of_not_gt : (a b : ValidatorStake) → compare_stake a b ≢ Ordering.gt → Precedes a b
unfolding compare_stake
Precedes-of_not_gt a b h = ground arith

Precedes-of_gt : (a b : ValidatorStake) → compare_stake a b ≡ Ordering.gt → Precedes b a
unfolding compare_stake
Precedes-of_gt a b h = ground arith

All-insert_by :
    (P : ValidatorStake → Type 0) (v : ValidatorStake) (vs : List ValidatorStake)
    → P v
    → All P vs
    → All P (insert_by compare_stake v vs)
unfolding insert_by
All-insert_by P v [] p h = (p, tt)
All-insert_by P v (w ∷ vs) p h = ground (arith, All-insert_by P v vs p)

gt-cases : (o : Ordering) → (o ≡ Ordering.gt) ⊎ (o ≢ Ordering.gt)
gt-cases Ordering.gt = inl refl
gt-cases Ordering.lt = inr (λ e. cc)
gt-cases Ordering.eq = inr (λ e. cc)

-- Where `insert_by` puts an element.
insert_by-cons :
    (v w : ValidatorStake) (vs : List ValidatorStake)
    → ((compare_stake v w ≡ Ordering.gt)
        × (insert_by compare_stake v (w ∷ vs) ≡ w ∷ insert_by compare_stake v vs))
      ⊎ ((compare_stake v w ≢ Ordering.gt) × (insert_by compare_stake v (w ∷ vs) ≡ v ∷ w ∷ vs))
unfolding insert_by
insert_by-cons v w vs = elim (gt-cases (compare_stake v w)) [
  | inl e ↦ inl (e, ground arith)
  | inr e ↦ inr (e, ground arith)
]

insert_by-IsOrdered :
    (v : ValidatorStake) (vs : List ValidatorStake)
    → IsOrdered vs
    → IsOrdered (insert_by compare_stake v vs)
insert_by-IsOrdered v [] h = unfold insert_by in (tt, tt)
insert_by-IsOrdered v (w ∷ vs) h = elim (insert_by-cons v w vs) [
  | inl (e, q) ↦
      rw q
        (All-insert_by (Precedes w) v vs (Precedes-of_gt v w e) h.0, insert_by-IsOrdered v vs h.1)
  | inr (e, q) ↦
      let first = Precedes-of_not_gt v w e in
      rw q ((first, All-imp (λ x k. Precedes-trans v w x first k) vs h.0), h)
]

sort_by-IsOrdered : (vs : List ValidatorStake) → IsOrdered (sort_by compare_stake vs)
unfolding sort_by
sort_by-IsOrdered [] = tt
sort_by-IsOrdered (v ∷ vs) = insert_by-IsOrdered v (sort_by compare_stake vs) (sort_by-IsOrdered vs)

insert_by-perm :
    (v : ValidatorStake) (vs : List ValidatorStake) → Perm (insert_by compare_stake v vs) (v ∷ vs)
insert_by-perm v [] = unfold insert_by in Perm.refl (v ∷ [])
insert_by-perm v (w ∷ vs) = elim (insert_by-cons v w vs) [
  | inl (e, q) ↦ rw q (Perm.trans (Perm.cons w (insert_by-perm v vs)) (Perm.swap v w vs))
  | inr (e, q) ↦ rw q (Perm.refl (v ∷ w ∷ vs))
]

sort_by-perm : (vs : List ValidatorStake) → Perm (sort_by compare_stake vs) vs
unfolding sort_by
sort_by-perm [] = Perm.refl []
sort_by-perm (v ∷ vs) =
    Perm.trans (insert_by-perm v (sort_by compare_stake vs)) (Perm.cons v (sort_by-perm vs))

-- The validator set lists the addresses of exactly the eligible validators, each as often as the
-- state has it, in the order of falling stake and, at one stake, of rising addresses.
pub effective_validator_set_lem :
    (params : EconomicsParams) (s : StakingState)
    → (effective_validator_set params s ≡ map (λ v. v.validator_address) (ordered_stakes params s))
      × IsOrdered (ordered_stakes params s)
      × Perm (ordered_stakes params s) (filter (is_eligible params) (values s.validators))
unfolding effective_validator_set ordered_stakes
effective_validator_set_lem params s =
    let eligible = filter (is_eligible params) (values s.validators) in
    (refl, sort_by-IsOrdered eligible, sort_by-perm eligible)
