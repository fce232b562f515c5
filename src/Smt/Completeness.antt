-- ===== src/Smt/Completeness.antt =====
-- Every proof that `prove` builds is accepted against the root of the same accounts.
use zeno_final_code.Common.{
  ℕ, zero, suc, ◌≡◌, refl, ap, Bool, true, false, ◌&&◌, List, [], ◌∷◌, map, filter, arith, All,
}
use zeno_final_code.TreeMap
use zeno_final_code.TreeMap.{TreeMap, nat_key}
use zeno_final_code.Hash.{Bytes, Digests}
use zeno_final_code.Types.{Account}
use zeno_final_code.Smt.{
  sparse_depth, Entry, level_bit, side, path_key, subtree_root, collect_proof, entry, root, prove,
  proved_leaf, verify,
}
use zeno_final_code.Smt.Paths.{
  climb, same_path, bool_eq, same_path_refl, length-collect_proof, subtree_root-fold, verify_iff,
}

filter-filter {ℓ} :
    {A : Type ℓ} (p q r : A → Bool) (xs : List A)
    → ((x : A) → (q x && p x) ≡ r x)
    → filter p (filter q xs) ≡ filter r xs
filter-filter p q r [] h = refl
filter-filter p q r (x ∷ xs) h = ground (arith, h x, filter-filter p q r xs h)

-- The entries that share the target's path from `n` levels above the leaves.
bucket : ℕ → Bytes → List Entry → List Entry
bucket n target entries = filter (λ e. same_path n target e.0) entries

bucket-zero : (target : Bytes) (entries : List Entry) → bucket 0 target entries ≡ entries
unfolding bucket same_path
bucket-zero target [] = refl
bucket-zero target (e ∷ entries) = ap (λ es. e ∷ es) (bucket-zero target entries)

side-filter :
    (b : Bool) (n : ℕ) (entries : List Entry)
    → side b n entries ≡ filter (λ e. bool_eq b (level_bit n e.0)) entries
unfolding side
side-filter true n entries = refl
side-filter false n entries = refl

bucket-side :
    (n : ℕ) (target : Bytes) (entries : List Entry)
    → bucket n target (side (level_bit n target) n entries) ≡ bucket (suc n) target entries
unfolding bucket same_path
bucket-side n target entries = rw (side-filter (level_bit n target) n entries) (
    filter-filter (λ x. same_path n target x.0)
      (λ x. bool_eq (level_bit n target) (level_bit n x.0))
      (λ x. bool_eq (level_bit n target) (level_bit n x.0) && same_path n target x.0) entries
      (λ x. refl))

module _ (d : Digests) where
  -- The siblings lead from what stands at the target's leaf to the root.
  climb-collect_proof :
      (n : ℕ) (entries : List Entry) (target : Bytes)
      → climb d target
          (collect_proof d n entries target)
          (subtree_root d 0 (bucket n target entries))
        ≡ subtree_root d n entries
  unfolding collect_proof
  climb-collect_proof zero entries target = rw (bucket-zero target entries)
  climb-collect_proof (suc n) entries target =
      rw
        (
          length-collect_proof d n (side (level_bit n target) n entries) target,
          ← bucket-side n target entries,
          climb-collect_proof n (side (level_bit n target) n entries) target,
        )
        (subtree_root-fold d (level_bit n target) n entries)

module _ (d : Digests) (encode_leaf : ℕ → Account → Bytes) where
  -- No other account of the map shares the address's path.
  abbrev pub NoClash : ℕ → TreeMap ℕ Account → Type 0
  NoClash address accounts =
      All
        (λ (e : ℕ × Account).
          same_path sparse_depth (path_key d address) (path_key d e.0) ≡ true → e.0 ≡ address)
        accounts

  -- The target's leaf is its account, or the empty leaf.
  leaf-bucket :
      (address : ℕ) (accounts : TreeMap ℕ Account)
      → NoClash address accounts
      → subtree_root d 0
          (bucket sparse_depth (path_key d address) (map (entry d encode_leaf) accounts))
        ≡ proved_leaf d encode_leaf address (TreeMap.get address accounts)
  unfolding bucket subtree_root TreeMap.get
  leaf-bucket address [] h = refl
  leaf-bucket address ((a, x) ∷ accounts) h =
      ground
        (arith, same_path_refl sparse_depth (path_key d address), leaf-bucket address accounts h.1)

  -- For every map of accounts and every address whose path no other account of the map shares,
  -- the proof that `prove` builds, of inclusion or of absence, is accepted against `root`.
  pub prove-verify :
      (accounts : TreeMap ℕ Account) (address : ℕ)
      → NoClash address accounts
      → verify d encode_leaf (prove d encode_leaf accounts address) (root d encode_leaf accounts)
        ≡ true
  unfolding prove root
  prove-verify accounts address h =
      let entries = map (entry d encode_leaf) accounts in
      let p = prove d encode_leaf accounts address in
      (verify_iff d encode_leaf p (root d encode_leaf accounts)).1 (
        length-collect_proof d sparse_depth entries (path_key d address),
        rw (← leaf-bucket address accounts h)
            (climb-collect_proof d sparse_depth entries (path_key d address)),
      )
