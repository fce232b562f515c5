-- ===== src/Smt/Shadow.antt =====
-- What the root does not commit to: of two accounts on one path, the later one.
use zeno_final_code.Common.{
  ℕ, zero, suc, ◌≡◌, refl, ap, sym, inl, inr, Bool, true, false, not, List, [], ◌∷◌, ◌++◌, map,
  filter, arith, Bool-cases, keep_if,
}
use mathlib.Core.Path.{ap₂}
use zeno_final_code.Common.{and_inv}
use zeno_final_code.TreeMap.{TreeMap}
use zeno_final_code.Hash.{Bytes, Hash32, Digests}
use zeno_final_code.Types.{Account}
use zeno_final_code.Smt.{
  sparse_depth, Entry, level_bit, side, path_key, node_hash, subtree_root, leaf_hash, entry, root,
}
use zeno_final_code.Smt.Paths.{same_path, bool_eq, subtree_root-suc}

filter-append {ℓ} :
    {A : Type ℓ} (p : A → Bool) (xs ys : List A) → filter p (xs ++ ys) ≡ filter p xs ++ filter p ys
filter-append p [] ys = refl
filter-append p (x ∷ xs) ys = ground (arith, filter-append p xs ys)

map-with_two :
    {A B : Type 0} (f : A → B) (xs ys zs : List A) (a b : A)
    → map f (xs ++ a ∷ (ys ++ b ∷ zs)) ≡ map f xs ++ f a ∷ (map f ys ++ f b ∷ map f zs)
map-with_two f [] [] zs a b = refl
map-with_two f [] (y ∷ ys) zs a b = ground (arith, map-with_two f [] ys zs a b)
map-with_two f (x ∷ xs) ys zs a b = ap (λ l. f x ∷ l) (map-with_two f xs ys zs a b)

-- A list with the entry `e` before `f`.
abbrev with_two : List Entry → Entry → List Entry → Entry → List Entry → List Entry
with_two xs e ys f zs = xs ++ e ∷ (ys ++ f ∷ zs)

filter-with_two :
    (p : Entry → Bool) (xs ys zs : List Entry) (e f : Entry)
    → filter p (with_two xs e ys f zs)
      ≡ filter p xs ++ keep_if (p e) e (filter p ys ++ keep_if (p f) f (filter p zs))
filter-with_two p xs ys zs e f =
    rw (filter-append p xs (e ∷ (ys ++ f ∷ zs)), filter-append p ys (f ∷ zs))

bool_eq→eq : (b c : Bool) → bool_eq b c ≡ true → b ≡ c
bool_eq→eq true c h = sym h
bool_eq→eq false true h = cc
bool_eq→eq false false h = refl

module _ (d : Digests) where
  -- A filter by keys keeps both of two entries that it does not tell apart, or neither.
  filter-shadowed :
      (n : ℕ) (p : Bytes → Bool) (xs ys zs : List Entry) (j k : Bytes) (u v w : Hash32)
      → p j ≡ p k
      → ((xs ys zs : List Entry)
          → subtree_root d n (with_two xs (j, u) ys (k, v) zs)
            ≡ subtree_root d n (with_two xs (j, u) ys (k, w) zs))
      → subtree_root d n (filter (λ e. p e.0) (with_two xs (j, u) ys (k, v) zs))
        ≡ subtree_root d n (filter (λ e. p e.0) (with_two xs (j, u) ys (k, w) zs))
  filter-shadowed n p xs ys zs j k u v w e ih =
      let q : Entry → Bool = λ x. p x.0 in
      rw (filter-with_two q xs ys zs (j, u) (k, v), filter-with_two q xs ys zs (j, u) (k, w))
        (elim (Bool-cases (p k)) [
          | inl t ↦ rw (e, t) (ih (filter q xs) (filter q ys) (filter q zs))
          | inr t ↦ rw (e, t)
        ])

  side-shadowed :
      (b : Bool) (n : ℕ) (xs ys zs : List Entry) (j k : Bytes) (u v w : Hash32)
      → level_bit n j ≡ level_bit n k
      → ((xs ys zs : List Entry)
          → subtree_root d n (with_two xs (j, u) ys (k, v) zs)
            ≡ subtree_root d n (with_two xs (j, u) ys (k, w) zs))
      → subtree_root d n (side b n (with_two xs (j, u) ys (k, v) zs))
        ≡ subtree_root d n (side b n (with_two xs (j, u) ys (k, w) zs))
  unfolding side
  side-shadowed true n xs ys zs j k u v w e ih =
      filter-shadowed n (level_bit n) xs ys zs j k u v w e ih
  side-shadowed false n xs ys zs j k u v w e ih =
      filter-shadowed n (λ x. not (level_bit n x)) xs ys zs j k u v w (ap not e) ih

  -- The root of a subtree forgets the later of two entries on one path.
  subtree_root-shadowed :
      (n : ℕ) (j k : Bytes) (u v w : Hash32)
      → same_path n j k ≡ true
      → (xs ys zs : List Entry)
      → subtree_root d n (with_two xs (j, u) ys (k, v) zs)
        ≡ subtree_root d n (with_two xs (j, u) ys (k, w) zs)
  unfolding subtree_root same_path
  subtree_root-shadowed zero j k u v w h [] ys zs = refl
  subtree_root-shadowed zero j k u v w h (a ∷ xs) ys zs = refl
  subtree_root-shadowed (suc n) j k u v w h xs ys zs =
      let (e, rest) = and_inv (bool_eq (level_bit n j) (level_bit n k)) (same_path n j k) h in
      let bits = bool_eq→eq (level_bit n j) (level_bit n k) e in
      let ih = subtree_root-shadowed n j k u v w rest in
      rw (subtree_root-suc, subtree_root-suc)
        (ap₂ (node_hash d) (side-shadowed false n xs ys zs j k u v w bits ih)
          (side-shadowed true n xs ys zs j k u v w bits ih))

module _ (d : Digests) (encode_leaf : ℕ → Account → Bytes) where
  -- Where two addresses share the `SPARSE_DEPTH` bits of their paths, the state root is the same
  -- whatever the account of the later one is.
  pub root-shadowed :
      (xs ys zs : TreeMap ℕ Account) (a b : ℕ) (x y z : Account)
      → same_path sparse_depth (path_key d a) (path_key d b) ≡ true
      → root d encode_leaf (xs ++ (a, x) ∷ (ys ++ (b, y) ∷ zs))
        ≡ root d encode_leaf (xs ++ (a, x) ∷ (ys ++ (b, z) ∷ zs))
  unfolding root
  root-shadowed xs ys zs a b x y z h =
      let f = entry d encode_leaf in
      rw (map-with_two f xs ys zs (a, x) (b, y), map-with_two f xs ys zs (a, x) (b, z))
        (subtree_root-shadowed d sparse_depth (path_key d a) (path_key d b)
          (leaf_hash d encode_leaf a x) (leaf_hash d encode_leaf b y) (leaf_hash d encode_leaf b z)
          h (map f xs) (map f ys) (map f zs))
