-- ===== src/Zk/Binding.antt =====
-- A root binds the commitment at an index, and a commitment its value: two proofs for one index,
-- and two openings of one commitment, agree unless they show a collision of BLAKE3.
use zeno_final_code.Common.{
  ℕ, zero, suc, ◌/◌, ◌%◌, ◌^◌, ◌<◌, ◌≡◌, refl, sym, ◌∙◌, ◌⊎◌, inl, inr, true, List, [], ◌∷◌, ◌++◌,
  length, arith, if◌then◌else◌, ◌==◌, Bool-cases,
}
use zeno_final_code.Hash.{Bytes, Hash32, Digests, eq_of_bytes_eq}
use zeno_final_code.Hash.Merkle.{AreDigests}
use zeno_final_code.Hash.Collision.{
  CollisionOf, blake3-injective, collision_left, collision_right, append_cancel_left, append_inj,
}
use zeno_final_code.Zk.{
  commitment_tree_depth, commitment_domain, tree_node_domain, tree_node_hash, climb,
  compute_commitment, to_le_bytes, verify_commitment_proof, CommitmentMerkleProof,
}

-- What an inner node hashes, and one on the way of a proof.
abbrev node_input : Hash32 → Hash32 → Bytes
node_input left right = tree_node_domain ++ (left ++ right)

abbrev step_input : ℕ → Hash32 → Hash32 → Bytes
step_input index sibling current =
    if index % 2 == 0 then node_input current sibling else node_input sibling current

abbrev pub commitment_input : ℕ → Bytes → Bytes
commitment_input value blinding = commitment_domain ++ (to_le_bytes 16 value ++ blinding)

pub length-to_le_bytes : (n a : ℕ) → length (to_le_bytes n a) ≡ n
unfolding to_le_bytes
length-to_le_bytes zero a = refl
length-to_le_bytes (suc n) a = omega (arith, length-to_le_bytes n (a / 256))

to_le_bytes-injective :
    (n a b : ℕ) → a < 256 ^ n → b < 256 ^ n → to_le_bytes n a ≡ to_le_bytes n b → a ≡ b
unfolding to_le_bytes
to_le_bytes-injective zero a b ha hb h = omega arith
to_le_bytes-injective (suc n) a b ha hb h =
    let low : a % 256 ≡ b % 256 = cc in
    let high = to_le_bytes-injective n (a / 256) (b / 256) (omega arith) (omega arith) (cc) in
    omega arith

module _ (d : Digests) where
  abbrev step : ℕ → Hash32 → Hash32 → Hash32
  step index sibling current =
      if index % 2 == 0 then tree_node_hash d current sibling else tree_node_hash d sibling current

  -- What the verification of a proof hashes on its way up.
  abbrev pub climb_inputs : ℕ → List Hash32 → Hash32 → List Bytes
  climb_inputs index [] x = []
  climb_inputs index (s ∷ siblings) x =
      (step_input index s x ∷ []) ++ climb_inputs (index / 2) siblings (step index s x)

  tree_node_hash-injective :
      (l r l' r' : Hash32)
      → length l ≡ length l'
      → tree_node_hash d l r ≡ tree_node_hash d l' r'
      → ((l ≡ l') × (r ≡ r')) ⊎ CollisionOf d (node_input l r ∷ []) (node_input l' r' ∷ [])
  unfolding tree_node_hash
  tree_node_hash-injective l r l' r' same h =
      elim (blake3-injective d (node_input l r) (node_input l' r') h) [
        | inl e ↦ inl (append_inj l l' r r' same (append_cancel_left tree_node_domain _ _ e))
        | inr c ↦ inr c
      ]

  length-step : (index : ℕ) (s x : Hash32) → length (step index s x) ≡ 32
  unfolding tree_node_hash
  length-step index s x = elim (Bool-cases (index % 2 == 0)) [
    | inl even ↦ rw even (d.length_blake3 _)
    | inr odd ↦ rw odd (d.length_blake3 _)
  ]

  step-injective :
      (index : ℕ) (s x t y : Hash32)
      → length s ≡ length t
      → length x ≡ length y
      → step index s x ≡ step index t y
      → (x ≡ y) ⊎ CollisionOf d (step_input index s x ∷ []) (step_input index t y ∷ [])
  step-injective index s x t y hs hx h = elim (Bool-cases (index % 2 == 0)) [
    | inl even ↦ elim (tree_node_hash-injective x s y t hx (rw even at h)) [
      | inl e ↦ inl e.0
      | inr c ↦ inr (rw even c)
    ]
    | inr odd ↦ elim (tree_node_hash-injective s x t y hs (rw odd at h)) [
      | inl e ↦ inl e.1
      | inr c ↦ inr (rw odd c)
    ]
  ]

  climb-injective :
      (index : ℕ) (ss ts : List Hash32) (x y : Hash32)
      → length ss ≡ length ts
      → AreDigests ss
      → AreDigests ts
      → length x ≡ length y
      → climb d index ss x ≡ climb d index ts y
      → (x ≡ y) ⊎ CollisionOf d (climb_inputs index ss x) (climb_inputs index ts y)
  unfolding climb
  climb-injective index [] [] x y l hs ht hx h = inl h
  climb-injective index [] (t ∷ ts) x y l hs ht hx h = absurd (omega arith)
  climb-injective index (s ∷ ss) [] x y l hs ht hx h = absurd (omega arith)
  climb-injective index (s ∷ ss) (t ∷ ts) x y l hs ht hx h =
      elim (climb-injective (index / 2) ss ts (step index s x) (step index t y) (omega arith) hs.1
        ht.1 (length-step index s x ∙ sym (length-step index t y)) h) [
          | inr c ↦
              inr (collision_right d (step_input index s x ∷ []) _ (step_input index t y ∷ []) _ c)
          | inl e ↦ elim (step-injective index s x t y (hs.0 ∙ sym ht.0) hx e) [
            | inl q ↦ inl q
            | inr c ↦
                inr (collision_left d (step_input index s x ∷ []) _ (step_input index t y ∷ []) _ c)
          ]
        ]

  verify_commitment_proof-parts :
      (p : CommitmentMerkleProof) (r : Hash32)
      → verify_commitment_proof d p r ≡ true
      → (length p.siblings ≡ commitment_tree_depth) × (climb d p.index p.siblings p.commitment ≡ r)
  unfolding verify_commitment_proof
  verify_commitment_proof-parts p r h =
      ground (arith, eq_of_bytes_eq (climb d p.index p.siblings p.commitment) r)

  -- Two proofs for one index that are both accepted against one root, whoever made them, have the
  -- same commitment, or an input hashed for the one and an input hashed for the other are different
  -- and have one BLAKE3 digest.
  pub verify_commitment_proof-binding :
      (p q : CommitmentMerkleProof) (r : Hash32)
      → p.index ≡ q.index
      → AreDigests (p.commitment ∷ p.siblings)
      → AreDigests (q.commitment ∷ q.siblings)
      → verify_commitment_proof d p r ≡ true
      → verify_commitment_proof d q r ≡ true
      → (p.commitment ≡ q.commitment)
        ⊎ CollisionOf d
            (climb_inputs p.index p.siblings p.commitment)
            (climb_inputs q.index q.siblings q.commitment)
  verify_commitment_proof-binding p q r same hp hq vp vq =
      let (lp, cp) = verify_commitment_proof-parts p r vp in
      let (lq, cq) = verify_commitment_proof-parts q r vq in
      rw same (
        climb-injective q.index p.siblings q.siblings p.commitment q.commitment (lp ∙ sym lq) hp.1
          hq.1 (hp.0 ∙ sym hq.0) (rw same at cp ∙ sym cq))

  -- A commitment binds its value and its blinding factor: two openings with values of a u128 are
  -- the same, or the two inputs that are hashed are different and have one BLAKE3 digest.
  pub compute_commitment-binding :
      (v w : ℕ) (b c : Bytes)
      → v < 256 ^ 16
      → w < 256 ^ 16
      → compute_commitment d v b ≡ compute_commitment d w c
      → ((v ≡ w) × (b ≡ c)) ⊎ CollisionOf d (commitment_input v b ∷ []) (commitment_input w c ∷ [])
  unfolding compute_commitment
  compute_commitment-binding v w b c hv hw h = elim (blake3-injective d _ _ h) [
    | inr k ↦ inr k
    | inl e ↦
        let parts =
          append_inj (to_le_bytes 16 v) (to_le_bytes 16 w) b c
            (length-to_le_bytes 16 v ∙ sym (length-to_le_bytes 16 w))
            (append_cancel_left commitment_domain _ _ e) in
        inl (to_le_bytes-injective 16 v w hv hw parts.0, parts.1)
  ]
