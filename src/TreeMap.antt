-- ===== src/TreeMap.antt =====
-- Rust's `BTreeMap`: an association list in the order of its keys, which is the order of
-- `iter()`, `keys()` and `values()`. A `HashMap` is read as the same list: none of the code's
-- results may then rest on a particular order, and the theorems about one hold for every list.
pub mod Sorted
pub mod Extensional
use zeno_final_code.Common.{
  ℕ, ◌≡◌, ◌≢◌, refl, Ordering, compare, Option, none, some, List, [], ◌∷◌, arith, Bool, is_some,
}

-- The bound `K: Ord`: a comparison whose `Equal` is equality.
pub record Key (K : Type 0) : Type 0 where
  pub cmp : K → K → Ordering
  pub cmp_refl : (a : K) → cmp a a ≡ Ordering.eq
  pub eq_of_cmp : (a b : K) → cmp a b ≡ Ordering.eq → a ≡ b
  pub lt_of_gt : (a b : K) → cmp a b ≡ Ordering.gt → cmp b a ≡ Ordering.lt
  pub gt_of_lt : (a b : K) → cmp a b ≡ Ordering.lt → cmp b a ≡ Ordering.gt
  pub lt_trans : (a b c : K) → cmp a b ≡ Ordering.lt → cmp b c ≡ Ordering.lt → cmp a c ≡ Ordering.lt

pub compare_refl : (a : ℕ) → compare a a ≡ Ordering.eq
compare_refl a = ground arith

pub eq_of_compare : (a b : ℕ) → compare a b ≡ Ordering.eq → a ≡ b
eq_of_compare a b h = ground arith

pub compare_lt_of_gt : (a b : ℕ) → compare a b ≡ Ordering.gt → compare b a ≡ Ordering.lt
compare_lt_of_gt a b h = ground arith

pub compare_gt_of_lt : (a b : ℕ) → compare a b ≡ Ordering.lt → compare b a ≡ Ordering.gt
compare_gt_of_lt a b h = ground arith

pub compare_trans :
    (a b c : ℕ) → compare a b ≡ Ordering.lt → compare b c ≡ Ordering.lt → compare a c ≡ Ordering.lt
compare_trans a b c h k = ground arith

instance abbrev pub nat_key : Key ℕ
nat_key = record {
  cmp = compare;
  cmp_refl = compare_refl;
  eq_of_cmp = eq_of_compare;
  lt_of_gt = compare_lt_of_gt;
  gt_of_lt = compare_gt_of_lt;
  lt_trans = compare_trans;
}

abbrev pub then_with : Ordering → Ordering → Ordering
then_with Ordering.eq o = o
then_with Ordering.lt o = Ordering.lt
then_with Ordering.gt o = Ordering.gt

-- Pairs of numbers in the lexicographic order.
abbrev pub compare_pair : ℕ × ℕ → ℕ × ℕ → Ordering
compare_pair (a, b) (c, d) = then_with (compare a c) (compare b d)

pub compare_pair_refl : (a : ℕ × ℕ) → compare_pair a a ≡ Ordering.eq
compare_pair_refl (a, b) = ground arith

pub eq_of_compare_pair : (a b : ℕ × ℕ) → compare_pair a b ≡ Ordering.eq → a ≡ b
eq_of_compare_pair (a, b) (c, d) h = ground arith

pub compare_pair_lt_of_gt :
    (a b : ℕ × ℕ) → compare_pair a b ≡ Ordering.gt → compare_pair b a ≡ Ordering.lt
compare_pair_lt_of_gt (a, b) (c, d) h = ground arith

pub compare_pair_gt_of_lt :
    (a b : ℕ × ℕ) → compare_pair a b ≡ Ordering.lt → compare_pair b a ≡ Ordering.gt
compare_pair_gt_of_lt (a, b) (c, d) h = ground arith

pub compare_pair_trans :
    (a b c : ℕ × ℕ)
    → compare_pair a b ≡ Ordering.lt
    → compare_pair b c ≡ Ordering.lt
    → compare_pair a c ≡ Ordering.lt
compare_pair_trans (a, b) (c, d) (e, f) h k = ground arith

instance abbrev pub pair_key : Key (ℕ × ℕ)
pair_key = record {
  cmp = compare_pair;
  cmp_refl = compare_pair_refl;
  eq_of_cmp = eq_of_compare_pair;
  lt_of_gt = compare_pair_lt_of_gt;
  gt_of_lt = compare_pair_gt_of_lt;
  lt_trans = compare_pair_trans;
}

abbrev pub TreeMap : Type 0 → Type 0 → Type 0
TreeMap K V = List (K × V)

module _ {K V : Type 0} ⦃o : Key K⦄ where
  unfoldable pub get : K → TreeMap K V → Option V
  get k [] = none
  get k ((j, v) ∷ m) = elim (o.cmp k j) [ Ordering.eq ↦ some v | _ ↦ get k m ]

  abbrev pub contains_key : K → TreeMap K V → Bool
  contains_key k m = is_some (get k m)

  unfoldable pub insert : K → V → TreeMap K V → TreeMap K V
  insert k v [] = (k, v) ∷ []
  insert k v ((j, w) ∷ m) = elim (o.cmp k j) [
    | Ordering.lt ↦ (k, v) ∷ (j, w) ∷ m
    | Ordering.eq ↦ (k, v) ∷ m
    | Ordering.gt ↦ (j, w) ∷ insert k v m
  ]

  unfoldable pub remove : K → TreeMap K V → TreeMap K V
  remove k [] = []
  remove k ((j, v) ∷ m) = elim (o.cmp k j) [ Ordering.eq ↦ remove k m | _ ↦ (j, v) ∷ remove k m ]

  pub get-insert_self : (k : K) (v : V) (m : TreeMap K V) → get k (insert k v m) ≡ some v
  unfolding get insert
  get-insert_self k v [] = ground (arith, o.cmp_refl k)
  get-insert_self k v ((j, w) ∷ m) = ground (arith, o.cmp_refl k, get-insert_self k v m)

  pub get-insert :
      (k j : K) (v : V) (m : TreeMap K V)
      → get j (insert k v m) ≡ elim (o.cmp j k) [ Ordering.eq ↦ some v | _ ↦ get j m ]
  unfolding get insert
  get-insert k j v [] = refl
  get-insert k j v ((i, w) ∷ m) =
      ground (arith, o.eq_of_cmp k i, o.eq_of_cmp j k, o.cmp_refl k, get-insert k j v m)

  pub get-insert_ne : (k j : K) (v : V) (m : TreeMap K V) → j ≢ k → get j (insert k v m) ≡ get j m
  get-insert_ne k j v m n = rw (get-insert k j v m) (ground (arith, o.eq_of_cmp j k))

  pub get-remove_self : (k : K) (m : TreeMap K V) → get k (remove k m) ≡ none
  unfolding get remove
  get-remove_self k [] = refl
  get-remove_self k ((i, w) ∷ m) = ground (arith, get-remove_self k m)

  pub get-remove_ne : (k j : K) (m : TreeMap K V) → j ≢ k → get j (remove k m) ≡ get j m
  unfolding get remove
  get-remove_ne k j [] n = refl
  get-remove_ne k j ((i, w) ∷ m) n =
      ground (arith, o.eq_of_cmp k i, o.eq_of_cmp j i, get-remove_ne k j m n)

  pub get-remove :
      (k j : K) (m : TreeMap K V)
      → get j (remove k m) ≡ elim (o.cmp j k) [ Ordering.eq ↦ none | _ ↦ get j m ]
  unfolding get remove
  get-remove k j [] = ground arith
  get-remove k j ((i, w) ∷ m) =
      ground
        (arith, o.eq_of_cmp k i, o.eq_of_cmp j i, o.eq_of_cmp j k, o.cmp_refl k, get-remove k j m)
