-- ===== src/Smt/Soundness.antt =====
-- The proofs of the state are made of digests, and an accepted proof names what the map holds.
use zeno_final_code.Common.{
  ℕ, zero, suc, not, map, All-filter, ◌≡◌, refl, ◌⊎◌, Bool, true, false, List, [], ◌∷◌, length, All,
}
use zeno_final_code.TreeMap
use zeno_final_code.TreeMap.{TreeMap, nat_key}
use zeno_final_code.Hash.{Bytes, Digests}
use zeno_final_code.Hash.Merkle.{AreDigests}
use zeno_final_code.Hash.Collision.{CollisionOf}
use zeno_final_code.Types.{Account}
use zeno_final_code.Smt.{
  sparse_depth, Entry, AccountProof, level_bit, side, subtree_root, collect_proof, entry, root,
  prove, path_key, node_hash, empty_hash, leaf_hash, verify,
}
use zeno_final_code.Smt.Completeness.{NoClash, prove-verify}
use zeno_final_code.Smt.Binding.{IsLeafCodec, verify_inputs, verify-binding}

All-side :
    (b : Bool) (n : ℕ) (entries : List Entry)
    → All (λ (e : Entry). length e.1 ≡ 32) entries
    → All (λ (e : Entry). length e.1 ≡ 32) (side b n entries)
unfolding side
All-side true n entries h = All-filter _ _ entries h
All-side false n entries h = All-filter _ _ entries h

module _ (d : Digests) (encode_leaf : ℕ → Account → Bytes) where
  subtree_root-AreDigests :
      (n : ℕ) (entries : List Entry)
      → All (λ (e : Entry). length e.1 ≡ 32) entries
      → length (subtree_root d n entries) ≡ 32
  unfolding subtree_root empty_hash node_hash
  subtree_root-AreDigests zero [] h = d.length_blake3 _
  subtree_root-AreDigests (suc n) [] h = d.length_blake3 _
  subtree_root-AreDigests zero (e ∷ entries) h = h.0
  subtree_root-AreDigests (suc n) (e ∷ entries) h = d.length_blake3 _

  pub collect_proof-AreDigests :
      (n : ℕ) (entries : List Entry) (target : Bytes)
      → All (λ (e : Entry). length e.1 ≡ 32) entries
      → AreDigests (collect_proof d n entries target)
  unfolding collect_proof
  collect_proof-AreDigests zero entries target h = tt
  collect_proof-AreDigests (suc n) entries target h =
      let bit = level_bit n target in
      (
        subtree_root-AreDigests n (side (not bit) n entries) (All-side (not bit) n entries h),
        collect_proof-AreDigests n (side bit n entries) target (All-side bit n entries h),
      )

  pub entries-AreDigests :
      (accounts : TreeMap ℕ Account)
      → All (λ (e : Entry). length e.1 ≡ 32) (map (entry d encode_leaf) accounts)
  unfolding leaf_hash
  entries-AreDigests [] = tt
  entries-AreDigests (x ∷ accounts) = (d.length_blake3 _, entries-AreDigests accounts)

module _ (d : Digests) (encode_leaf : ℕ → Account → Bytes) (codec : IsLeafCodec encode_leaf) where
  -- A proof for an address whose path no other account shares, accepted against the root of the
  -- accounts, names what the map holds at the address, or an input hashed for it and one hashed for
  -- the proof that `prove` builds are different and have one BLAKE3 digest.
  pub verify_sound :
      (accounts : TreeMap ℕ Account) (p : AccountProof)
      → NoClash d encode_leaf p.address accounts
      → AreDigests p.siblings
      → verify d encode_leaf p (root d encode_leaf accounts) ≡ true
      → (p.account ≡ TreeMap.get p.address accounts)
        ⊎ CollisionOf d
            (verify_inputs d encode_leaf p)
            (verify_inputs d encode_leaf (prove d encode_leaf accounts p.address))
  unfolding prove
  verify_sound accounts p clear hp h =
      verify-binding d encode_leaf codec p (prove d encode_leaf accounts p.address)
        (root d encode_leaf accounts) refl hp
        (collect_proof-AreDigests d encode_leaf sparse_depth (map (entry d encode_leaf) accounts)
          (path_key d p.address) (entries-AreDigests d encode_leaf accounts))
        h (prove-verify d encode_leaf accounts p.address clear)
