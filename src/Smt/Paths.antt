-- ===== src/Smt/Paths.antt =====
-- `verify`'s loop over the reversed siblings, read from the root downwards; the shape of a proof;
-- keys that share a path.
use mathlib.Core.List.{reverse-append}
use zeno_final_code.Common.{
  ℕ, zero, suc, ◌+◌, ◌-◌, ◌≡◌, ◌↔◌, refl, ap, sym, ◌∙◌, inl, inr, Bool, true, false, not, ◌&&◌,
  List, [], ◌∷◌, ◌++◌, reverse, length, ◌==◌, arith, Bool-cases, length-reverse, ==_iff,
}
use zeno_final_code.Hash.{Bytes, Hash32, Digests, bytes_eq_refl, eq_of_bytes_eq}
use zeno_final_code.Types.{Account}
use zeno_final_code.Smt.{
  sparse_depth, Entry, AccountProof, bit_at, level_bit, side, path_key, node_hash, empty_hash,
  subtree_root, collect_proof, fold_sibling, verify_loop, proved_leaf, verify,
}

module _ (d : Digests) where
  -- The root above a node, by its siblings from the root downwards.
  abbrev pub climb : Bytes → List Hash32 → Hash32 → Hash32
  climb path [] current = current
  climb path (s ∷ siblings) current =
      fold_sibling d (level_bit (length siblings) path) s (climb path siblings current)

  verify_loop-snoc :
      (path : Bytes) (depth : ℕ) (xs : List Hash32) (s current : Hash32)
      → verify_loop d path depth (xs ++ s ∷ []) current
        ≡ fold_sibling d
            (bit_at path (sparse_depth - 1 - (depth + length xs)))
            s
            (verify_loop d path depth xs current)
  unfolding verify_loop
  verify_loop-snoc path depth [] s current =
      ap (λ k. fold_sibling d (bit_at path (sparse_depth - 1 - k)) s current) (omega arith)
  verify_loop-snoc path depth (x ∷ xs) s current =
      verify_loop-snoc path (depth + 1) xs s
        (fold_sibling d (bit_at path (sparse_depth - 1 - depth)) x current)
      ∙ ap
          (λ k. fold_sibling d (bit_at path (sparse_depth - 1 - k)) s (
            verify_loop d path (depth + 1) xs
              (fold_sibling d (bit_at path (sparse_depth - 1 - depth)) x current)))
          (omega arith)

  pub verify_loop-eq-climb :
      (path : Bytes) (siblings : List Hash32) (current : Hash32)
      → verify_loop d path 0 (reverse siblings) current ≡ climb path siblings current
  unfolding verify_loop
  verify_loop-eq-climb path [] current = refl
  verify_loop-eq-climb path (s ∷ siblings) current =
      rw
        (
          reverse-append (s ∷ []) siblings,
          verify_loop-snoc,
          verify_loop-eq-climb path siblings current,
        )
        (ap (λ k. fold_sibling d (bit_at path k) s (climb path siblings current))
          (omega (arith, length-reverse siblings)))

  pub length-collect_proof :
      (n : ℕ) (entries : List Entry) (target : Bytes)
      → length (collect_proof d n entries target) ≡ n
  unfolding collect_proof
  length-collect_proof zero entries target = refl
  length-collect_proof (suc n) entries target =
      ap suc (length-collect_proof n (side (level_bit n target) n entries) target)

  pub subtree_root-suc :
      (n : ℕ) (entries : List Entry)
      → subtree_root d (suc n) entries
        ≡ node_hash d
            (subtree_root d n (side false n entries))
            (subtree_root d n (side true n entries))
  unfolding subtree_root side empty_hash
  subtree_root-suc n [] = refl
  subtree_root-suc n (e ∷ entries) = refl

  -- The root of a subtree, from the half that a key lies in and the other one.
  pub subtree_root-fold :
      (bit : Bool) (n : ℕ) (entries : List Entry)
      → fold_sibling d bit
          (subtree_root d n (side (not bit) n entries))
          (subtree_root d n (side bit n entries))
        ≡ subtree_root d (suc n) entries
  subtree_root-fold true n entries = rw (subtree_root-suc n entries)
  subtree_root-fold false n entries = rw (subtree_root-suc n entries)

module _ (d : Digests) (encode_leaf : ℕ → Account → Bytes) where
  verify-intro :
      (p : AccountProof) (r : Hash32)
      → length p.siblings ≡ sparse_depth
      → climb d (path_key d p.address) p.siblings (proved_leaf d encode_leaf p.address p.account)
        ≡ r
      → verify d encode_leaf p r ≡ true
  unfolding verify
  verify-intro p r l e =
      rw
        (
          (==_iff (length p.siblings) sparse_depth).1 l,
          verify_loop-eq-climb d (path_key d p.address) p.siblings
              (proved_leaf d encode_leaf p.address p.account),
          e,
        )
        (bytes_eq_refl r)

  verify-inv :
      (p : AccountProof) (r : Hash32)
      → verify d encode_leaf p r ≡ true
      → (length p.siblings ≡ sparse_depth)
        × (climb d (path_key d p.address) p.siblings (proved_leaf d encode_leaf p.address p.account)
            ≡ r)
  unfolding verify
  verify-inv p r h = elim (Bool-cases (length p.siblings == sparse_depth)) [
    | inl e ↦ (
      (==_iff _ _).0 e,
      sym (
            verify_loop-eq-climb d (path_key d p.address) p.siblings
              (proved_leaf d encode_leaf p.address p.account))
          ∙ eq_of_bytes_eq _ r (rw e at h),
    )
    | inr e ↦ absurd (ground arith)
  ]

  -- A proof is accepted exactly when it has one sibling a level and they lead to the root.
  pub verify_iff :
      (p : AccountProof) (r : Hash32)
      → (verify d encode_leaf p r ≡ true) ↔ (
          (length p.siblings ≡ sparse_depth)
          × (climb d
                (path_key d p.address)
                p.siblings
                (proved_leaf d encode_leaf p.address p.account)
              ≡ r))
  verify_iff p r = (verify-inv p r, λ h. verify-intro p r h.0 h.1)

abbrev pub bool_eq : Bool → Bool → Bool
bool_eq true b = b
bool_eq false b = not b

-- Two keys turn the same way at each of the `n` lowest levels.
unfoldable pub same_path : ℕ → Bytes → Bytes → Bool
same_path zero j k = true
same_path (suc n) j k = bool_eq (level_bit n j) (level_bit n k) && same_path n j k

pub same_path_refl : (n : ℕ) (k : Bytes) → same_path n k k ≡ true
unfolding same_path
same_path_refl zero k = refl
same_path_refl (suc n) k = ground (arith, same_path_refl n k)
