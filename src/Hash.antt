-- ===== src/Hash.antt =====
-- Digests and the Merkle root of a list of leaves (crates/zeno-hash/src/lib.rs). BLAKE3 and
-- SHA3-256 are other people's code: they are fields of `Digests`, with the width of their results.
pub mod Collision
pub mod Loop
pub mod Merkle
pub mod Tests
use zeno_final_code.Common.{
  ℕ, zero, suc, ◌+◌, ◌/◌, ◌%◌, ◌^◌, ◌≡◌, refl, Bool, true, false, ◌&&◌, List, [], ◌∷◌, ◌++◌, length,
  ◌==◌, arith, replicate,
}

abbrev pub Bytes : Type 0
Bytes = List ℕ

-- `[u8; 32]`, as a list; that it has 32 members is stated where it matters.
abbrev pub Hash32 : Type 0
Hash32 = Bytes

pub record Digests : Type 0 where
  pub blake3 : Bytes → Hash32
  pub sha3_256 : Bytes → Hash32
  pub length_blake3 : (b : Bytes) → length (blake3 b) ≡ 32
  pub length_sha3_256 : (b : Bytes) → length (sha3_256 b) ≡ 32

-- `Hash32::zero()`.
abbrev pub zero_hash : Hash32
zero_hash = replicate 32 0

-- The bytes of a fixed-size number, most significant first.
unfoldable pub to_be_bytes : ℕ → ℕ → Bytes
to_be_bytes zero a = []
to_be_bytes (suc n) a = (a / 256 ^ n % 256) ∷ to_be_bytes n a

-- `==` on digests.
abbrev pub bytes_eq : Bytes → Bytes → Bool
bytes_eq [] [] = true
bytes_eq [] (y ∷ ys) = false
bytes_eq (x ∷ xs) [] = false
bytes_eq (x ∷ xs) (y ∷ ys) = x == y && bytes_eq xs ys

pub bytes_eq_refl : (xs : Bytes) → bytes_eq xs xs ≡ true
bytes_eq_refl [] = refl
bytes_eq_refl (x ∷ xs) = ground (arith, bytes_eq_refl xs)

pub eq_of_bytes_eq : (xs ys : Bytes) → bytes_eq xs ys ≡ true → xs ≡ ys
eq_of_bytes_eq [] [] h = refl
eq_of_bytes_eq [] (y ∷ ys) h = ground arith
eq_of_bytes_eq (x ∷ xs) [] h = ground arith
eq_of_bytes_eq (x ∷ xs) (y ∷ ys) h = ground (arith, eq_of_bytes_eq xs ys)

module _ (d : Digests) where
  -- One round of the `while` loop: the last of an odd number of nodes is its own sibling.
  unfoldable pub next_layer : List Hash32 → List Hash32
  next_layer [] = []
  next_layer (x ∷ []) = d.blake3 (x ++ x) ∷ []
  next_layer (x ∷ y ∷ rest) = d.blake3 (x ++ y) ∷ next_layer rest

  -- The `while layer.len() > 1` loop, on fuel; what is left has one node when the fuel is enough.
  unfoldable pub merkle_loop : ℕ → List Hash32 → List Hash32
  merkle_loop fuel [] = []
  merkle_loop fuel (x ∷ []) = x ∷ []
  merkle_loop zero (x ∷ y ∷ rest) = x ∷ y ∷ rest
  merkle_loop (suc fuel) (x ∷ y ∷ rest) = merkle_loop fuel (next_layer (x ∷ y ∷ rest))

  abbrev pub head_or : Hash32 → List Hash32 → Hash32
  head_or e [] = e
  head_or e (x ∷ xs) = x

  unfoldable pub merkle_root : List Hash32 → Hash32
  merkle_root leaves = head_or (d.blake3 []) (merkle_loop (length leaves) leaves)
