-- ===== src/Smt/Binding.antt =====
-- A root binds the account of an address: two accepted proofs agree, unless they show a collision
-- of BLAKE3.
use zeno_final_code.Common.{
  ℕ, ◌≡◌, ◌≢◌, refl, ap, sym, ◌∙◌, ◌⊎◌, inl, inr, Bool, true, false, Option, none, some, List, [],
  ◌∷◌, ◌++◌, length, arith, if◌then◌else◌,
}
use zeno_final_code.TreeMap.{nat_key}
use zeno_final_code.Hash.{Bytes, Hash32, Digests}
use zeno_final_code.Hash.Merkle.{AreDigests}
use zeno_final_code.Hash.Collision.{
  CollisionOf, blake3-injective, collision_left, collision_right, append_cancel_left, append_inj,
}
use zeno_final_code.Types.{Account}
use zeno_final_code.Smt.{
  AccountProof, level_bit, path_key, node_hash, empty_hash, empty_leaf_bytes, fold_sibling,
  leaf_hash, proved_leaf, verify, node_tag,
}
use zeno_final_code.Smt.Paths.{climb, verify_iff}

-- What an inner node hashes, and one on the way of a proof.
abbrev node_input : Hash32 → Hash32 → Bytes
node_input left right = node_tag ++ left ++ right

abbrev fold_input : Bool → Hash32 → Hash32 → Bytes
fold_input bit sibling current =
    if bit then node_input sibling current else node_input current sibling

module _ (d : Digests) where
  -- What the verification of a proof hashes on its way up.
  abbrev pub climb_inputs : Bytes → List Hash32 → Hash32 → List Bytes
  climb_inputs path [] x = []
  climb_inputs path (s ∷ siblings) x =
      (fold_input (level_bit (length siblings) path) s (climb d path siblings x) ∷ [])
      ++ climb_inputs path siblings x

  node_hash-injective :
      (l r l' r' : Hash32)
      → length l ≡ 32
      → length l' ≡ 32
      → node_hash d l r ≡ node_hash d l' r'
      → ((l ≡ l') × (r ≡ r')) ⊎ CollisionOf d (node_input l r ∷ []) (node_input l' r' ∷ [])
  unfolding node_hash
  node_hash-injective l r l' r' hl hl' h =
      elim (blake3-injective d (node_tag ++ l ++ r) (node_tag ++ l' ++ r') h) [
        | inl e ↦ inl (append_inj l l' r r' (omega arith) (append_cancel_left node_tag _ _ e))
        | inr c ↦ inr c
      ]

  length-fold_sibling : (b : Bool) (s x : Hash32) → length (fold_sibling d b s x) ≡ 32
  unfolding node_hash
  length-fold_sibling true s x = d.length_blake3 _
  length-fold_sibling false s x = d.length_blake3 _

  length-climb :
      (path : Bytes) (siblings : List Hash32) (x : Hash32)
      → length x ≡ 32
      → length (climb d path siblings x) ≡ 32
  length-climb path [] x h = h
  length-climb path (s ∷ siblings) x h =
      length-fold_sibling (level_bit (length siblings) path) s (climb d path siblings x)

  fold_sibling-injective :
      (b : Bool) (s x t y : Hash32)
      → length s ≡ 32
      → length x ≡ 32
      → length t ≡ 32
      → length y ≡ 32
      → fold_sibling d b s x ≡ fold_sibling d b t y
      → (x ≡ y) ⊎ CollisionOf d (fold_input b s x ∷ []) (fold_input b t y ∷ [])
  fold_sibling-injective true s x t y hs hx ht hy h = elim (node_hash-injective s x t y hs ht h) [
    | inl e ↦ inl e.1
    | inr c ↦ inr c
  ]
  fold_sibling-injective false s x t y hs hx ht hy h = elim (node_hash-injective x s y t hx hy h) [
    | inl e ↦ inl e.0
    | inr c ↦ inr c
  ]

  climb-injective :
      (path : Bytes) (ss ts : List Hash32) (x y : Hash32)
      → length ss ≡ length ts
      → AreDigests ss
      → AreDigests ts
      → length x ≡ 32
      → length y ≡ 32
      → climb d path ss x ≡ climb d path ts y
      → (x ≡ y) ⊎ CollisionOf d (climb_inputs path ss x) (climb_inputs path ts y)
  climb-injective path [] [] x y l hs ht hx hy h = inl h
  climb-injective path [] (t ∷ ts) x y l hs ht hx hy h = absurd (omega arith)
  climb-injective path (s ∷ ss) [] x y l hs ht hx hy h = absurd (omega arith)
  climb-injective path (s ∷ ss) (t ∷ ts) x y l hs ht hx hy h =
      let l' : length ss ≡ length ts = omega arith in
      elim (fold_sibling-injective (level_bit (length ts) path) s (climb d path ss x) t
        (climb d path ts y) hs.0 (length-climb path ss x hx) ht.0 (length-climb path ts y hy)
        (rw l' at h)) [
          | inl e ↦ elim (climb-injective path ss ts x y l' hs.1 ht.1 hx hy e) [
            | inl q ↦ inl q
            | inr c ↦ inr (
                collision_right d
                  (fold_input (level_bit (length ss) path) s (climb d path ss x) ∷ [])
                  (climb_inputs path ss x)
                  (fold_input (level_bit (length ts) path) t (climb d path ts y) ∷ [])
                  (climb_inputs path ts y) c)
          ]
          | inr c ↦ inr (
              collision_left d (fold_input (level_bit (length ss) path) s (climb d path ss x) ∷ [])
                (climb_inputs path ss x)
                (fold_input (level_bit (length ts) path) t (climb d path ts y) ∷ [])
                (climb_inputs path ts y) (rw l' c))
        ]

-- What the protocol relies on of the encoding of a leaf: an address's accounts have different
-- encodings, and none is the text that stands for an empty leaf.
pub record IsLeafCodec (encode_leaf : ℕ → Account → Bytes) : Type 0 where
  pub injective :
      (address : ℕ) (x y : Account) → encode_leaf address x ≡ encode_leaf address y → x ≡ y
  pub not_empty_leaf : (address : ℕ) (x : Account) → encode_leaf address x ≢ empty_leaf_bytes

module _ (d : Digests) (encode_leaf : ℕ → Account → Bytes) where
  abbrev leaf_input : ℕ → Option Account → Bytes
  leaf_input address none = empty_leaf_bytes
  leaf_input address (some x) = encode_leaf address x

  -- All that `verify` hashes with BLAKE3 for a proof.
  abbrev pub verify_inputs : AccountProof → List Bytes
  verify_inputs p =
      climb_inputs d (path_key d p.address) p.siblings
        (proved_leaf d encode_leaf p.address p.account)
      ++ leaf_input p.address p.account ∷ []

module _ (d : Digests) (encode_leaf : ℕ → Account → Bytes) (codec : IsLeafCodec encode_leaf) where
  proved_leaf-injective :
      (address : ℕ) (x y : Option Account)
      → proved_leaf d encode_leaf address x ≡ proved_leaf d encode_leaf address y
      → (x ≡ y)
        ⊎ CollisionOf d
            (leaf_input d encode_leaf address x ∷ [])
            (leaf_input d encode_leaf address y ∷ [])
  unfolding leaf_hash empty_hash
  proved_leaf-injective address none none h = inl refl
  proved_leaf-injective address none (some y) h = elim (blake3-injective d _ _ h) [
    | inl e ↦ absurd (codec.not_empty_leaf address y (sym e))
    | inr c ↦ inr c
  ]
  proved_leaf-injective address (some x) none h = elim (blake3-injective d _ _ h) [
    | inl e ↦ absurd (codec.not_empty_leaf address x e)
    | inr c ↦ inr c
  ]
  proved_leaf-injective address (some x) (some y) h = elim (blake3-injective d _ _ h) [
    | inl e ↦ inl (ap some (codec.injective address x y e))
    | inr c ↦ inr c
  ]

  length-proved_leaf :
      (address : ℕ) (x : Option Account) → length (proved_leaf d encode_leaf address x) ≡ 32
  unfolding leaf_hash empty_hash
  length-proved_leaf address none = d.length_blake3 _
  length-proved_leaf address (some x) = d.length_blake3 _

  -- Two proofs for one address that are both accepted against one root, whoever made them, name
  -- the same account (or both absence), or an input hashed for the one and an input hashed for the
  -- other are different and have one BLAKE3 digest.
  pub verify-binding :
      (p q : AccountProof) (r : Hash32)
      → p.address ≡ q.address
      → AreDigests p.siblings
      → AreDigests q.siblings
      → verify d encode_leaf p r ≡ true
      → verify d encode_leaf q r ≡ true
      → (p.account ≡ q.account)
        ⊎ CollisionOf d (verify_inputs d encode_leaf p) (verify_inputs d encode_leaf q)
  verify-binding p q r same hp hq vp vq =
      let (lp, cp) = (verify_iff d encode_leaf p r).0 vp in
      let (lq, cq) = (verify_iff d encode_leaf q r).0 vq in
      elim (climb-injective d (path_key d q.address) p.siblings q.siblings
        (proved_leaf d encode_leaf q.address p.account)
        (proved_leaf d encode_leaf q.address q.account) (lp ∙ sym lq) hp hq
        (length-proved_leaf q.address p.account) (length-proved_leaf q.address q.account)
        (rw same at cp ∙ sym cq)) [
          | inl e ↦ elim (proved_leaf-injective q.address p.account q.account e) [
            | inl r ↦ inl r
            | inr c ↦ inr (
                rw same (
                  collision_right d
                    (climb_inputs d (path_key d q.address) p.siblings
                      (proved_leaf d encode_leaf q.address p.account))
                    (leaf_input d encode_leaf q.address p.account ∷ [])
                    (climb_inputs d (path_key d q.address) q.siblings
                      (proved_leaf d encode_leaf q.address q.account))
                    (leaf_input d encode_leaf q.address q.account ∷ []) c))
          ]
          | inr c ↦ inr (
              rw same (
                collision_left d
                  (climb_inputs d (path_key d q.address) p.siblings
                    (proved_leaf d encode_leaf q.address p.account))
                  (leaf_input d encode_leaf q.address p.account ∷ [])
                  (climb_inputs d (path_key d q.address) q.siblings
                    (proved_leaf d encode_leaf q.address q.account))
                  (leaf_input d encode_leaf q.address q.account ∷ []) c))
        ]
