-- ===== src/Hash/Tests.antt =====
-- Digests to run the definitions on, and the Merkle root of small lists.
use zeno_final_code.Common.{ℕ, ◌+◌, ◌*◌, ◌%◌, ◌≡◌, refl, [], ◌∷◌, replicate, ◌⊎◌}
use zeno_final_code.Hash.{Bytes, Hash32, Digests, merkle_root, merkle_loop, next_layer}
use zeno_final_code.Hash.Merkle.{merkle_root-duplicate, merkle_root-binding, loop_inputs}
use zeno_final_code.Hash.Collision.{CollisionOf}

-- A checksum that depends on the order of the bytes.
abbrev pub checksum : Bytes → ℕ
checksum [] = 7
checksum (b ∷ bytes) = (b + 31 * checksum bytes) % 256

abbrev pub toy_digests : Digests
toy_digests = record {
  blake3 = λ b. replicate 32 (checksum b);
  sha3_256 = λ b. replicate 32 (checksum b);
  length_blake3 = λ b. refl;
  length_sha3_256 = λ b. refl;
}

abbrev leaf : ℕ → Hash32
leaf a = replicate 32 a

three_leaves :
    merkle_root toy_digests (leaf 1 ∷ leaf 2 ∷ leaf 3 ∷ [])
    ≡ merkle_root toy_digests (leaf 1 ∷ leaf 2 ∷ leaf 3 ∷ leaf 3 ∷ [])
unfolding merkle_root merkle_loop next_layer
three_leaves = refl

merkle_root-duplicate_example :
    merkle_root toy_digests (leaf 1 ∷ leaf 2 ∷ leaf 3 ∷ [])
    ≡ merkle_root toy_digests (leaf 1 ∷ leaf 2 ∷ leaf 3 ∷ leaf 3 ∷ [])
merkle_root-duplicate_example = merkle_root-duplicate toy_digests (leaf 1) (leaf 2) [] (leaf 3) tt

merkle_root-binding_example :
    ((leaf 1 ∷ leaf 2 ∷ leaf 3 ∷ []) ≡ (leaf 1 ∷ leaf 2 ∷ leaf 3 ∷ []))
    ⊎ CollisionOf toy_digests
        (loop_inputs toy_digests 3 (leaf 1 ∷ leaf 2 ∷ leaf 3 ∷ []))
        (loop_inputs toy_digests 3 (leaf 1 ∷ leaf 2 ∷ leaf 3 ∷ []))
merkle_root-binding_example =
    merkle_root-binding toy_digests (leaf 1 ∷ leaf 2 ∷ leaf 3 ∷ []) (leaf 1 ∷ leaf 2 ∷ leaf 3 ∷ [])
      refl (refl, (refl, (refl, tt))) (refl, (refl, (refl, tt))) refl
