-- ===== src/Hash/Collision.antt =====
-- Collisions of BLAKE3 among inputs that the code hashes, and the injectivity of hashing up to one.
-- A theorem that ends in `⊎ CollisionOf d us vs` says what holds unless an input of the first run and
-- one of the second, which `us` and `vs` list, are different and have one digest.
use zeno_final_code.Common.{
  ◌≡◌, ◌≢◌, refl, ◌⊎◌, inl, inr, List, [], ◌∷◌, ◌++◌, length, arith, Bool-cases, Member,
}
use zeno_final_code.Hash.{Bytes, Digests, bytes_eq, bytes_eq_refl, eq_of_bytes_eq}

abbrev pub CollisionOf : Digests → List Bytes → List Bytes → Type 0
CollisionOf d us vs =
    (x : Bytes) × (y : Bytes) × Member x us × Member y vs × (x ≢ y) × (d.blake3 x ≡ d.blake3 y)

bytes-cases : (x y : Bytes) → (x ≡ y) ⊎ (x ≢ y)
bytes-cases x y = elim (Bool-cases (bytes_eq x y)) [
  | inl e ↦ inl (eq_of_bytes_eq x y e)
  | inr e ↦ inr (λ q. ground (arith, bytes_eq_refl x))
]

pub blake3-injective :
    (d : Digests) (x y : Bytes)
    → d.blake3 x ≡ d.blake3 y
    → (x ≡ y) ⊎ CollisionOf d (x ∷ []) (y ∷ [])
blake3-injective d x y h = elim (bytes-cases x y) [
  | inl e ↦ inl e
  | inr n ↦ inr (x, y, inl refl, inl refl, n, h)
]

Member-append_left : (a : Bytes) (us vs : List Bytes) → Member a us → Member a (us ++ vs)
Member-append_left a [] vs m = elim m [ ]
Member-append_left a (u ∷ us) vs (inl e) = inl e
Member-append_left a (u ∷ us) vs (inr m) = inr (Member-append_left a us vs m)

Member-append_right : (a : Bytes) (us vs : List Bytes) → Member a vs → Member a (us ++ vs)
Member-append_right a [] vs m = m
Member-append_right a (u ∷ us) vs m = inr (Member-append_right a us vs m)

-- A collision among some of the inputs is one among all of them.
module _ (d : Digests) where
  pub collision_left :
      (us us' vs vs' : List Bytes) → CollisionOf d us vs → CollisionOf d (us ++ us') (vs ++ vs')
  collision_left us us' vs vs' (x, y, m, n, apart, same) =
      (x, y, Member-append_left x us us' m, Member-append_left y vs vs' n, apart, same)

  pub collision_right :
      (us us' vs vs' : List Bytes) → CollisionOf d us' vs' → CollisionOf d (us ++ us') (vs ++ vs')
  collision_right us us' vs vs' (x, y, m, n, apart, same) =
      (x, y, Member-append_right x us us' m, Member-append_right y vs vs' n, apart, same)

pub append_cancel_left : (p x y : Bytes) → p ++ x ≡ p ++ y → x ≡ y
append_cancel_left [] x y h = h
append_cancel_left (a ∷ p) x y h = append_cancel_left p x y (cc)

-- Two texts of one length are found again in what they begin.
pub append_inj : (x y u v : Bytes) → length x ≡ length y → x ++ u ≡ y ++ v → (x ≡ y) × (u ≡ v)
append_inj [] [] u v l h = (refl, h)
append_inj [] (b ∷ y) u v l h = absurd (omega arith)
append_inj (a ∷ x) [] u v l h = absurd (omega arith)
append_inj (a ∷ x) (b ∷ y) u v l h = let r = append_inj x y u v (omega arith) (cc) in (cc, r.1)
