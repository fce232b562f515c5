-- ===== src/Zk/Precompile.antt =====
-- The precompile that checks a shielded transfer from calldata (crates/zeno-zk/src/lib.rs), on the
-- bytes of the call.
use mathlib.Core.List.{append_assoc}
use zeno_final_code.Common.{
  ℕ, zero, suc, ◌+◌, ◌*◌, ◌/◌, ◌^◌, ◌<◌, ◌≡◌, refl, ap, ◌∙◌, Bool, true, false, not, ◌&&◌, List, [],
  ◌∷◌, ◌++◌, length, ltb, leb, if◌then◌else◌, arith, take, drop, replicate, take-append,
  drop-append, drop-part, subst, length-append, length-drop,
}
use zeno_final_code.Hash.{Bytes, Hash32, Digests, bytes_eq, zero_hash}
use zeno_final_code.Hash.Merkle.{AreDigests}
use zeno_final_code.Zk.Binding.{length-to_le_bytes}
use zeno_final_code.Zk.{
  commitment_tree_depth, CommitmentMerkleProof, verify_commitment_proof, to_le_bytes,
}

unfoldable pub from_le_bytes : Bytes → ℕ
from_le_bytes [] = 0
from_le_bytes (b ∷ bytes) = b + 256 * from_le_bytes bytes

unfoldable pub read_hash32 : Bytes → ℕ → Hash32
read_hash32 bytes offset =
    if leb (offset + 32) (length bytes) then take 32 (drop offset bytes) else zero_hash

-- The loop over the siblings.
unfoldable pub read_siblings : ℕ → Bytes → ℕ → List Hash32
read_siblings zero bytes offset = []
read_siblings (suc n) bytes offset = read_hash32 bytes offset ∷ read_siblings n bytes (offset + 32)

module _ (d : Digests) where
  unfoldable pub verify_precompile_inner : Bytes → Bool
  verify_precompile_inner input =
      let proof : CommitmentMerkleProof = record {
        commitment = read_hash32 input 120;
        index = from_le_bytes (take 8 (drop 112 input));
        siblings = read_siblings commitment_tree_depth input 152;
      } in
      if ltb (length input) (152 + 32 * commitment_tree_depth)
      then false
      else if not (verify_commitment_proof d proof (read_hash32 input 32))
      then false
      else if bytes_eq (read_hash32 input 64) zero_hash
      then false
      else not (bytes_eq (read_hash32 input 0) zero_hash)

  unfoldable pub zk_verify_precompile : Bytes → Bytes
  zk_verify_precompile input =
      replicate 31 0 ++ ((if verify_precompile_inner input then 1 else 0) ∷ [])

from_le_bytes-to_le_bytes : (n a : ℕ) → a < 256 ^ n → from_le_bytes (to_le_bytes n a) ≡ a
unfolding from_le_bytes to_le_bytes
from_le_bytes-to_le_bytes zero a h = omega arith
from_le_bytes-to_le_bytes (suc n) a h =
    omega (arith, from_le_bytes-to_le_bytes n (a / 256) (omega arith))

-- A digest is read where it stands.
read_hash32-drop :
    (input : Bytes) (offset : ℕ) (h post : Bytes)
    → drop offset input ≡ h ++ post
    → length h ≡ 32
    → read_hash32 input offset ≡ h
unfolding read_hash32
read_hash32-drop input offset h post e l =
    let size : leb (offset + 32) (length input) ≡ true =
      ground (arith, length-drop offset input, length-append h post) in
    rw (size, e) (take-append 32 h post l)

abbrev pub concat : List Bytes → Bytes
concat [] = []
concat (b ∷ bs) = b ++ concat bs

read_siblings-drop :
    (input : Bytes) (offset : ℕ) (siblings : List Hash32) (post : Bytes)
    → drop offset input ≡ concat siblings ++ post
    → AreDigests siblings
    → read_siblings (length siblings) input offset ≡ siblings
unfolding read_siblings
read_siblings-drop input offset [] post e h = refl
read_siblings-drop input offset (s ∷ siblings) post e h =
    let here = e ∙ append_assoc s (concat siblings) post in
    let next = drop-part offset 32 input s (concat siblings ++ post) here h.0 in
    rw
      (
        read_hash32-drop input offset s (concat siblings ++ post) here h.0,
        read_siblings-drop input (offset + 32) siblings post next h.1,
      )
      refl

length-concat : (bs : List Bytes) → AreDigests bs → length (concat bs) ≡ 32 * length bs
length-concat [] h = refl
length-concat (b ∷ bs) h = omega (arith, length-append b (concat bs), length-concat bs h.1, h.0)

long_enough :
    (input bs post : Bytes) (k n : ℕ)
    → drop k input ≡ bs ++ post
    → length bs ≡ suc n
    → ltb (length input) (k + suc n) ≡ false
long_enough input bs post k n e h =
    ground (arith, length-drop k input, ap length e, length-append bs post)

guards :
    (a b c : Bool) → (if not a then false else if b then false else not c) ≡ (a && (not b && not c))
guards true true c = refl
guards true false c = refl
guards false b c = refl

-- The calldata that the precompile reads: nullifier, root, output commitment, value, index,
-- commitment and siblings, in this order.
abbrev pub calldata : Hash32 → Hash32 → Hash32 → ℕ → CommitmentMerkleProof → Bytes → Bytes
calldata nullifier merkle_root output_commitment value proof rest =
    nullifier
    ++ (merkle_root
        ++ (output_commitment
            ++ (to_le_bytes 16 value
                ++ (to_le_bytes 8 proof.index
                    ++ (proof.commitment ++ (concat proof.siblings ++ rest))))))

module _ (d : Digests) (nullifier merkle_root output_commitment : Hash32) (value : ℕ)
    (proof : CommitmentMerkleProof) (rest : Bytes) where
  abbrev pub call : Bytes
  call = calldata nullifier merkle_root output_commitment value proof rest

  -- On the calldata of a Merkle proof of the full depth, with digests of 32 bytes and an index of
  -- a u64, the precompile answers one just if the proof is accepted against the root and neither the
  -- output commitment nor the nullifier is zero, and else it answers zero.
  pub zk_verify_precompile_lem :
      AreDigests (nullifier ∷ merkle_root ∷ output_commitment ∷ proof.commitment ∷ proof.siblings)
      → length proof.siblings ≡ commitment_tree_depth
      → proof.index < 2 ^ 64
      → zk_verify_precompile d call
        ≡ replicate 31 0
          ++ ((if verify_commitment_proof d proof merkle_root
                  && (not (bytes_eq output_commitment zero_hash)
                      && not (bytes_eq nullifier zero_hash))
                then 1
                else 0)
              ∷ [])
  unfolding zk_verify_precompile verify_precompile_inner
  zk_verify_precompile_lem (hn, (hr, (ho, (hc, hs)))) depth small =
      let x7 = concat proof.siblings ++ rest in
      let x6 = proof.commitment ++ x7 in
      let x5 = to_le_bytes 8 proof.index ++ x6 in
      let x4 = to_le_bytes 16 value ++ x5 in
      let x3 = output_commitment ++ x4 in
      let x2 = merkle_root ++ x3 in
      let at32 : drop 32 call ≡ x2 = drop-append 32 nullifier x2 hn in
      let at64 : drop 64 call ≡ x3 = drop-part 32 32 call merkle_root x3 at32 hr in
      let at96 : drop 96 call ≡ x4 = drop-part 64 32 call output_commitment x4 at64 ho in
      let at112 : drop 112 call ≡ x5 =
        drop-part 96 16 call (to_le_bytes 16 value) x5 at96 (length-to_le_bytes 16 value) in
      let at120 : drop 120 call ≡ x6 =
        drop-part 112 8 call (to_le_bytes 8 proof.index) x6 at112
          (length-to_le_bytes 8 proof.index) in
      let at152 : drop 152 call ≡ x7 = drop-part 120 32 call proof.commitment x7 at120 hc in
      let index : from_le_bytes (take 8 (drop 112 call)) ≡ proof.index =
        ap (λ b. from_le_bytes (take 8 b)) at112
        ∙ ap from_le_bytes
            (take-append 8 (to_le_bytes 8 proof.index) x6 (length-to_le_bytes 8 proof.index))
        ∙ from_le_bytes-to_le_bytes 8 proof.index small in
      let siblings : read_siblings commitment_tree_depth call 152 ≡ proof.siblings =
        subst (λ n. read_siblings n call 152 ≡ proof.siblings) depth
          (read_siblings-drop call 152 proof.siblings rest at152 hs) in
      let long : ltb (length call) (152 + 32 * commitment_tree_depth) ≡ false =
        long_enough call (concat proof.siblings) rest 152 1023 at152
          (length-concat proof.siblings hs ∙ ap (λ n. 32 * n) depth) in
      rw
        (
          long,
          index,
          siblings,
          read_hash32-drop call 120 proof.commitment x7 at120 hc,
          read_hash32-drop call 64 output_commitment x4 at64 ho,
          read_hash32-drop call 32 merkle_root x3 at32 hr,
          read_hash32-drop call 0 nullifier x2 refl hn,
        )
        (ap (λ b. replicate 31 0 ++ ((if b then 1 else 0) ∷ [])) (guards _ _ _))
