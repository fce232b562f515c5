-- ===== src/Hash/Loop.antt =====
-- The loop of the Merkle root: it ends, and its fuel decides nothing.
use zeno_final_code.Common.{ℕ, zero, suc, ◌+◌, ◌≤◌, ◌≡◌, refl, List, [], ◌∷◌, length, arith}
use zeno_final_code.Hash.{Hash32, Digests, next_layer, merkle_loop}

module _ (d : Digests) where
  pub length-next_layer :
      (l : List Hash32) → length (next_layer d l) + length (next_layer d l) ≤ length l + 1
  unfolding next_layer
  length-next_layer [] = omega arith
  length-next_layer (x ∷ []) = omega arith
  length-next_layer (x ∷ y ∷ rest) = omega (arith, length-next_layer rest)

  -- The length of the list is fuel enough: the loop stops at one node at most.
  pub length-merkle_loop :
      (fuel : ℕ) (l : List Hash32) → length l ≤ fuel → length (merkle_loop d fuel l) ≤ 1
  unfolding merkle_loop
  length-merkle_loop fuel [] h = omega arith
  length-merkle_loop fuel (x ∷ []) h = omega arith
  length-merkle_loop zero (x ∷ y ∷ rest) h = absurd (omega arith)
  length-merkle_loop (suc fuel) (x ∷ y ∷ rest) h =
      length-merkle_loop fuel (next_layer d (x ∷ y ∷ rest))
        (omega (arith, length-next_layer (x ∷ y ∷ rest)))

  pub merkle_loop-fuel :
      (f g : ℕ) (l : List Hash32)
      → length l ≤ f
      → length l ≤ g
      → merkle_loop d f l ≡ merkle_loop d g l
  unfolding merkle_loop
  merkle_loop-fuel f g [] hf hg = refl
  merkle_loop-fuel f g (x ∷ []) hf hg = refl
  merkle_loop-fuel zero g (x ∷ y ∷ rest) hf hg = absurd (omega arith)
  merkle_loop-fuel (suc f) zero (x ∷ y ∷ rest) hf hg = absurd (omega arith)
  merkle_loop-fuel (suc f) (suc g) (x ∷ y ∷ rest) hf hg =
      merkle_loop-fuel f g (next_layer d (x ∷ y ∷ rest))
        (omega (arith, length-next_layer (x ∷ y ∷ rest)))
        (omega (arith, length-next_layer (x ∷ y ∷ rest)))
