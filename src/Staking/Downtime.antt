-- ===== src/Staking/Downtime.antt =====
-- `apply_downtime_slashing`: exactly the stale validators are cut and jailed, each once.
use zeno_final_code.Staking.{EconomicsParams, ok, slash, cut_stake}
use zeno_final_code.Staking.Epoch.{
  stale_validators, apply_downtime_slashing, is_stale, slash_all, values,
}
use zeno_final_code.Common.{
  ℕ, ◌≡◌, ◌≢◌, refl, ◌∙◌, inl, inr, Bool, true, false, Option, none, some, List, [], ◌∷◌, map,
  filter, ◌==◌, if◌then◌else◌, arith, Bool-cases, Option-cases, All, All-imp, ==_iff, any,
}
use Prim.Native.String.{String}
use zeno_final_code.TreeMap
use zeno_final_code.TreeMap.{TreeMap, Key, nat_key, get-insert}
use zeno_final_code.TreeMap.Sorted.{IsSorted, Above}
use zeno_final_code.Types.{ValidatorStake, StakingState, ValidatorStatus}

-- A validator after a slash that jails it.
abbrev pub jailed_stake : ℕ → ValidatorStake → ValidatorStake
jailed_stake bps v = record (cut_stake bps v) { status = ValidatorStatus.jailed }

abbrev pub listed : ℕ → List ℕ → Bool
listed a l = any (λ x. x == a) l

-- Every entry stands under its validator's address.
abbrev pub AreKeyed : TreeMap ℕ ValidatorStake → Type 0
AreKeyed = All (λ (e : ℕ × ValidatorStake). e.1.validator_address ≡ e.0)

-- `slash` with jailing, as a change of the validators.
pub slash_jail :
    (a bps : ℕ) (reason : String) (s : StakingState) (v : ValidatorStake)
    → TreeMap.get a s.validators ≡ some v
    → ((slash a bps reason true s).0 ≡ ok tt)
      × ((slash a bps reason true s).1.validators
          ≡ TreeMap.insert a (jailed_stake bps v) s.validators)
      × ((slash a bps reason true s).1.epoch ≡ s.epoch)
unfolding slash
slash_jail a bps reason s v h = rw (h, slash) (refl, refl, refl)

abbrev pub slashed_if : Bool → ℕ → Option ValidatorStake → Option ValidatorStake
slashed_if b bps none = none
slashed_if b bps (some v) = some (if b then jailed_stake bps v else v)

abbrev Distinct : List ℕ → Type 0
Distinct [] = Unit
Distinct (a ∷ l) = (listed a l ≡ false) × Distinct l

abbrev AreKnown : StakingState → List ℕ → Type 0
AreKnown s = All (λ a. TreeMap.get a s.validators ≢ none)

slash-AreKnown :
    (a bps : ℕ) (v : ValidatorStake) (s t : StakingState) (l : List ℕ)
    → t.validators ≡ TreeMap.insert a (jailed_stake bps v) s.validators
    → AreKnown s l
    → AreKnown t l
slash-AreKnown a bps v s t l e =
    All-imp (λ b n. rw e (ground (arith, get-insert a b (jailed_stake bps v) s.validators))) l

slash_all-cons :
    (a bps : ℕ) (l : List ℕ) (s : StakingState)
    → (slash a bps "downtime" true s).0 ≡ ok tt
    → slash_all (a ∷ l) bps s ≡ slash_all l bps (slash a bps "downtime" true s).1
unfolding slash_all
slash_all-cons a bps l s h = rw (h, slash_all)

slashed_if-step :
    (a b bps : ℕ) (v : ValidatorStake) (l : List ℕ) (vs : TreeMap ℕ ValidatorStake)
    → listed a l ≡ false
    → TreeMap.get a vs ≡ some v
    → slashed_if (listed b l) bps (TreeMap.get b (TreeMap.insert a (jailed_stake bps v) vs))
      ≡ slashed_if (listed b (a ∷ l)) bps (TreeMap.get b vs)
slashed_if-step a b bps v l vs new h = elim (Bool-cases (b == a)) [
  | inl e ↦ let place : b ≡ a = (==_iff b a).0 e in rw (get-insert, place, new, h) (ground arith)
  | inr e ↦
      let apart : (a == b) ≡ false = ground arith in
      let same : TreeMap.get b (TreeMap.insert a (jailed_stake bps v) vs) ≡ TreeMap.get b vs =
        ground (arith, get-insert a b (jailed_stake bps v) vs) in
      rw (same, apart) refl
]

-- The loop succeeds, and cuts and jails exactly the validators of the list.
slash_all_lem :
    (l : List ℕ) (bps : ℕ) (s : StakingState)
    → Distinct l
    → AreKnown s l
    → ((slash_all l bps s).0 ≡ ok tt)
      × ((b : ℕ)
          → TreeMap.get b (slash_all l bps s).1.validators
            ≡ slashed_if (listed b l) bps (TreeMap.get b s.validators))
slash_all_lem [] bps s u k =
    unfold slash_all in (refl, λ b. none-slashed (TreeMap.get b s.validators))
  where
    none-slashed : (o : Option ValidatorStake) → o ≡ slashed_if false bps o
    none-slashed none = refl
    none-slashed (some v) = refl
slash_all_lem (a ∷ l) bps s u k = elim (Option-cases (TreeMap.get a s.validators)) [
  | inl e ↦ absurd (k.0 e)
  | inr (v, e) ↦
      let t = (slash a bps "downtime" true s).1 in
      let (done, vs, ep) = slash_jail a bps "downtime" s v e in
      let (rest, ih) = slash_all_lem l bps t u.1 (slash-AreKnown a bps v s t l vs k.1) in
      rw (slash_all-cons a bps l s done)
        (rest, λ b. ih b ∙ rw vs (slashed_if-step a b bps v l s.validators u.0 e))
]

abbrev stale_of : ℕ → TreeMap ℕ ValidatorStake → List ℕ
stale_of epoch m = map (λ v. v.validator_address) (filter (is_stale epoch) (values m))

abbrev pub stale_in : ℕ → Option ValidatorStake → Bool
stale_in epoch none = false
stale_in epoch (some v) = is_stale epoch v

listed-Above :
    (epoch a : ℕ) (m : TreeMap ℕ ValidatorStake)
    → AreKeyed m
    → Above a m
    → listed a (stale_of epoch m) ≡ false
unfolding values
listed-Above epoch a [] k h = refl
listed-Above epoch a ((b, v) ∷ m) k h = ground (arith, listed-Above epoch a m k.1 h.1)

-- The list of stale validators, read by address.
listed-stale_of :
    (epoch a : ℕ) (m : TreeMap ℕ ValidatorStake)
    → AreKeyed m
    → IsSorted m
    → listed a (stale_of epoch m) ≡ stale_in epoch (TreeMap.get a m)
unfolding values TreeMap.get
listed-stale_of epoch a [] k s = refl
listed-stale_of epoch a ((b, v) ∷ m) k s =
    ground (arith, listed-stale_of epoch a m k.1 s.1, listed-Above epoch b m k.1 s.0, k.0)

stale_of-Distinct :
    (epoch : ℕ) (m : TreeMap ℕ ValidatorStake)
    → AreKeyed m
    → IsSorted m
    → Distinct (stale_of epoch m)
unfolding values
stale_of-Distinct epoch [] k s = tt
stale_of-Distinct epoch ((b, v) ∷ m) k s =
    ground (arith, stale_of-Distinct epoch m k.1 s.1, listed-Above epoch b m k.1 s.0, k.0)

All-of_listed : (P : ℕ → Type 0) (l : List ℕ) → ((a : ℕ) → listed a l ≡ true → P a) → All P l
All-of_listed P [] f = tt
All-of_listed P (a ∷ l) f = (f a (ground arith), All-of_listed P l (λ b h. f b (ground arith)))

-- Where the validators stand under their addresses in order, `apply_downtime_slashing` succeeds;
-- every active validator that was last live in an epoch before the current one is cut and jailed
-- once, and every other validator is left as it was.
pub apply_downtime_slashing_lem :
    (params : EconomicsParams) (s : StakingState)
    → IsSorted s.validators
    → AreKeyed s.validators
    → ((apply_downtime_slashing params s).0 ≡ ok tt)
      × ((a : ℕ)
          → TreeMap.get a (apply_downtime_slashing params s).1.validators
            ≡ slashed_if
                (stale_in s.epoch (TreeMap.get a s.validators))
                params.downtime_slash_bps
                (TreeMap.get a s.validators))
unfolding apply_downtime_slashing stale_validators
apply_downtime_slashing_lem params s sorted keyed =
    let l = stale_of s.epoch s.validators in
    let (done, effect) =
      slash_all_lem l params.downtime_slash_bps s
        (stale_of-Distinct s.epoch s.validators keyed sorted)
        (All-of_listed (λ a. TreeMap.get a s.validators ≢ none) l
          (λ a h. ground (arith, listed-stale_of s.epoch a s.validators keyed sorted))) in
    (done, λ a. effect a ∙ rw (listed-stale_of s.epoch a s.validators keyed sorted))
