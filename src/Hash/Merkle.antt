-- ===== src/Hash/Merkle.antt =====
-- The Merkle root of a list of leaves: its loop ends, lists of one length with one root are equal
-- up to a collision, and lists of two lengths may share a root.
use zeno_final_code.Common.{
  subst, ℕ, zero, suc, ◌≤◌, ◌≡◌, refl, ap, ◌∙◌, ◌⊎◌, inl, inr, List, [], ◌∷◌, ◌++◌, length, arith,
  All, length-append,
}
use zeno_final_code.Hash.{Bytes, Hash32, Digests, next_layer, merkle_loop, head_or, merkle_root}
use zeno_final_code.Hash.Collision.{
  CollisionOf, blake3-injective, collision_left, collision_right, append_inj,
}
use zeno_final_code.Hash.Loop.{length-next_layer, length-merkle_loop, merkle_loop-fuel}

-- Every member has 32 bytes, as the type `[u8; 32]` has it.
abbrev pub AreDigests : List Hash32 → Type 0
AreDigests = All (λ s. length s ≡ 32)

abbrev Even : List Hash32 → Type 0
Even [] = Unit
Even (x ∷ []) = ⊥
Even (x ∷ y ∷ rest) = Even rest

-- What a round of the loop hashes.
abbrev layer_inputs : List Hash32 → List Bytes
layer_inputs [] = []
layer_inputs (x ∷ []) = (x ++ x) ∷ []
layer_inputs (x ∷ y ∷ rest) = (x ++ y) ∷ layer_inputs rest

module _ (d : Digests) where
  -- What the loop hashes.
  abbrev pub loop_inputs : ℕ → List Hash32 → List Bytes
  loop_inputs fuel [] = []
  loop_inputs fuel (x ∷ []) = []
  loop_inputs zero (x ∷ y ∷ rest) = []
  loop_inputs (suc fuel) (x ∷ y ∷ rest) =
      layer_inputs (x ∷ y ∷ rest) ++ loop_inputs fuel (next_layer d (x ∷ y ∷ rest))

  pair-injective :
      (x y u v : Hash32)
      → length x ≡ 32
      → length u ≡ 32
      → d.blake3 (x ++ y) ≡ d.blake3 (u ++ v)
      → ((x ≡ u) × (y ≡ v)) ⊎ CollisionOf d ((x ++ y) ∷ []) ((u ++ v) ∷ [])
  pair-injective x y u v hx hu h = elim (blake3-injective d (x ++ y) (u ++ v) h) [
    | inl e ↦ inl (append_inj x u y v (omega arith) e)
    | inr c ↦ inr c
  ]

  next_layer-injective :
      (xs ys : List Hash32)
      → length xs ≡ length ys
      → AreDigests xs
      → AreDigests ys
      → next_layer d xs ≡ next_layer d ys
      → (xs ≡ ys) ⊎ CollisionOf d (layer_inputs xs) (layer_inputs ys)
  unfolding next_layer
  next_layer-injective [] [] l hx hy h = inl refl
  next_layer-injective [] (y ∷ ys) l hx hy h = absurd (omega arith)
  next_layer-injective (x ∷ xs) [] l hx hy h = absurd (omega arith)
  next_layer-injective (x ∷ []) (y ∷ []) l hx hy h = elim (pair-injective x x y y hx.0 hy.0 (cc)) [
    | inl e ↦ inl (ap (λ t. t ∷ []) e.0)
    | inr c ↦ inr c
  ]
  next_layer-injective (x ∷ []) (y ∷ y' ∷ ys) l hx hy h = absurd (omega arith)
  next_layer-injective (x ∷ x' ∷ xs) (y ∷ []) l hx hy h = absurd (omega arith)
  next_layer-injective (x ∷ x' ∷ xs) (y ∷ y' ∷ ys) l hx hy h =
      let ih = next_layer-injective xs ys (omega arith) hx.1.1 hy.1.1 (cc) in
      elim (pair-injective x x' y y' hx.0 hy.0 (cc)) [
        | inl e ↦ elim ih [
          | inl r ↦ inl (cc)
          | inr c ↦ inr (
              collision_right d ((x ++ x') ∷ []) (layer_inputs xs) ((y ++ y') ∷ [])
                (layer_inputs ys) c)
        ]
        | inr c ↦ inr (
            collision_left d ((x ++ x') ∷ []) (layer_inputs xs) ((y ++ y') ∷ []) (layer_inputs ys)
              c)
      ]

  next_layer-AreDigests : (l : List Hash32) → AreDigests (next_layer d l)
  unfolding next_layer
  next_layer-AreDigests [] = tt
  next_layer-AreDigests (x ∷ []) = (d.length_blake3 _, tt)
  next_layer-AreDigests (x ∷ y ∷ rest) = (d.length_blake3 _, next_layer-AreDigests rest)

  length-next_layer_eq :
      (xs ys : List Hash32)
      → length xs ≡ length ys
      → length (next_layer d xs) ≡ length (next_layer d ys)
  unfolding next_layer
  length-next_layer_eq [] [] l = refl
  length-next_layer_eq [] (y ∷ ys) l = absurd (omega arith)
  length-next_layer_eq (x ∷ xs) [] l = absurd (omega arith)
  length-next_layer_eq (x ∷ []) (y ∷ []) l = refl
  length-next_layer_eq (x ∷ []) (y ∷ y' ∷ ys) l = absurd (omega arith)
  length-next_layer_eq (x ∷ x' ∷ xs) (y ∷ []) l = absurd (omega arith)
  length-next_layer_eq (x ∷ x' ∷ xs) (y ∷ y' ∷ ys) l =
      ap suc (length-next_layer_eq xs ys (omega arith))

  merkle_loop-injective :
      (fuel : ℕ) (xs ys : List Hash32)
      → length xs ≡ length ys
      → AreDigests xs
      → AreDigests ys
      → merkle_loop d fuel xs ≡ merkle_loop d fuel ys
      → (xs ≡ ys) ⊎ CollisionOf d (loop_inputs fuel xs) (loop_inputs fuel ys)
  unfolding merkle_loop
  merkle_loop-injective fuel [] [] l hx hy h = inl refl
  merkle_loop-injective fuel [] (y ∷ ys) l hx hy h = absurd (omega arith)
  merkle_loop-injective fuel (x ∷ xs) [] l hx hy h = absurd (omega arith)
  merkle_loop-injective fuel (x ∷ []) (y ∷ []) l hx hy h = inl h
  merkle_loop-injective fuel (x ∷ []) (y ∷ y' ∷ ys) l hx hy h = absurd (omega arith)
  merkle_loop-injective fuel (x ∷ x' ∷ xs) (y ∷ []) l hx hy h = absurd (omega arith)
  merkle_loop-injective zero (x ∷ x' ∷ xs) (y ∷ y' ∷ ys) l hx hy h = inl h
  merkle_loop-injective (suc fuel) (x ∷ x' ∷ xs) (y ∷ y' ∷ ys) l hx hy h =
      let a = x ∷ x' ∷ xs in
      let b = y ∷ y' ∷ ys in
      elim (merkle_loop-injective fuel (next_layer d a) (next_layer d b)
        (length-next_layer_eq a b l) (next_layer-AreDigests a) (next_layer-AreDigests b) h) [
          | inl e ↦ elim (next_layer-injective a b l hx hy e) [
            | inl q ↦ inl q
            | inr c ↦ inr (
                collision_left d (layer_inputs a) (loop_inputs fuel (next_layer d a))
                  (layer_inputs b) (loop_inputs fuel (next_layer d b)) c)
          ]
          | inr c ↦ inr (
              collision_right d (layer_inputs a) (loop_inputs fuel (next_layer d a))
                (layer_inputs b) (loop_inputs fuel (next_layer d b)) c)
        ]

  merkle_loop-nonempty :
      (fuel : ℕ) (x : Hash32) (xs : List Hash32) → 1 ≤ length (merkle_loop d fuel (x ∷ xs))
  unfolding merkle_loop next_layer
  merkle_loop-nonempty fuel x [] = omega arith
  merkle_loop-nonempty zero x (y ∷ xs) = omega arith
  merkle_loop-nonempty (suc fuel) x (y ∷ xs) =
      merkle_loop-nonempty fuel (d.blake3 (x ++ y)) (next_layer d xs)

  eq_of_head_or :
      (e : Hash32) (xs ys : List Hash32)
      → length xs ≡ 1
      → length ys ≡ 1
      → head_or d e xs ≡ head_or d e ys
      → xs ≡ ys
  eq_of_head_or e [] ys hx hy h = absurd (omega arith)
  eq_of_head_or e (x ∷ xs) [] hx hy h = absurd (omega arith)
  eq_of_head_or e (x ∷ []) (y ∷ []) hx hy h = ap (λ t. t ∷ []) h
  eq_of_head_or e (x ∷ x' ∷ xs) (y ∷ ys) hx hy h = absurd (omega arith)
  eq_of_head_or e (x ∷ []) (y ∷ y' ∷ ys) hx hy h = absurd (omega arith)

  -- Two lists of leaves of one length with the same Merkle root are equal, or an input hashed on the
  -- way to the one root and one on the way to the other are different and have one BLAKE3 digest.
  pub merkle_root-binding :
      (xs ys : List Hash32)
      → length xs ≡ length ys
      → AreDigests xs
      → AreDigests ys
      → merkle_root d xs ≡ merkle_root d ys
      → (xs ≡ ys) ⊎ CollisionOf d (loop_inputs (length xs) xs) (loop_inputs (length ys) ys)
  unfolding merkle_root
  merkle_root-binding [] [] l hx hy h = inl refl
  merkle_root-binding [] (y ∷ ys) l hx hy h = absurd (omega arith)
  merkle_root-binding (x ∷ xs) [] l hx hy h = absurd (omega arith)
  merkle_root-binding (x ∷ xs) (y ∷ ys) l hx hy h =
      let f : ℕ = length (x ∷ xs) in
      let g : ℕ = length (y ∷ ys) in
      let same = merkle_loop-fuel d g f (y ∷ ys) (omega arith) (omega arith) in
      subst
        (λ n. (x ∷ xs ≡ y ∷ ys) ⊎ CollisionOf d (loop_inputs f (x ∷ xs)) (loop_inputs n (y ∷ ys))) l
        (merkle_loop-injective f (x ∷ xs) (y ∷ ys) l hx hy (
          eq_of_head_or (d.blake3 []) (merkle_loop d f (x ∷ xs)) (merkle_loop d g (y ∷ ys))
            (omega (arith, length-merkle_loop d f (x ∷ xs), merkle_loop-nonempty f x xs))
            (omega (arith, length-merkle_loop d g (y ∷ ys), merkle_loop-nonempty g y ys)) h
          ∙ same))

  next_layer-duplicate :
      (xs : List Hash32) (c : Hash32)
      → Even xs
      → next_layer d (xs ++ c ∷ []) ≡ next_layer d (xs ++ c ∷ c ∷ [])
  unfolding next_layer
  next_layer-duplicate [] c h = refl
  next_layer-duplicate (x ∷ []) c h = absurd h
  next_layer-duplicate (x ∷ y ∷ rest) c h =
      ap (λ t. d.blake3 (x ++ y) ∷ t) (next_layer-duplicate rest c h)

  -- A list of two or more leaves, their number even, followed by one more leaf, has the root of the
  -- longer list in which that last leaf stands twice: the root does not bind the number of leaves.
  pub merkle_root-duplicate :
      (x y : Hash32) (rest : List Hash32) (c : Hash32)
      → Even rest
      → merkle_root d ((x ∷ y ∷ rest) ++ c ∷ []) ≡ merkle_root d ((x ∷ y ∷ rest) ++ c ∷ c ∷ [])
  unfolding merkle_root merkle_loop
  merkle_root-duplicate x y rest c h =
      let one = x ∷ y ∷ (rest ++ c ∷ []) in
      let two = x ∷ y ∷ (rest ++ c ∷ c ∷ []) in
      let same = next_layer-duplicate (x ∷ y ∷ rest) c h in
      ap (head_or d (d.blake3 [])) (
        merkle_loop-fuel d (suc (length (rest ++ c ∷ []))) (suc (length (rest ++ c ∷ c ∷ [])))
          (next_layer d one) (omega (arith, length-next_layer d one))
          (omega (
            arith,
            length-next_layer d one,
            length-append rest (c ∷ []),
            length-append rest (c ∷ c ∷ []),
          ))
        ∙ ap (merkle_loop d (suc (length (rest ++ c ∷ c ∷ [])))) same)
