-- ===== src/Rlp/Words.antt =====
-- Numbers and their big-endian bytes: what is written is read again.
use zeno_final_code.Common.{
  ℕ, zero, suc, ◌+◌, ◌*◌, ◌/◌, ◌%◌, ◌^◌, ◌≤◌, ◌<◌, ◌≡◌, refl, ◌∙◌, [], ◌∷◌, ◌++◌, length, reverse,
  length-reverse, arith, if◌then◌else◌, ◌==◌, Bool-cases, inl, inr,
}
use zeno_final_code.Hash.{Bytes}
use zeno_final_code.Rlp.{
  be_to_word, be_to_usize, rlp_to_u64, to_le_digits, usize_to_be, rlp_from_u64, u64_mod,
}
use mathlib.Core.List.{reverse-append}

be_to_word-append :
    (modulus value : ℕ) (bytes : Bytes) (b : ℕ)
    → be_to_word modulus value (bytes ++ b ∷ [])
      ≡ be_to_word modulus value bytes * 256 % modulus + b
unfolding be_to_word
be_to_word-append modulus value [] b = refl
be_to_word-append modulus value (c ∷ bytes) b =
    be_to_word-append modulus (value * 256 % modulus + c) bytes b

-- For every word that holds the value.
pub be_to_word-to_le_digits :
    (modulus n value : ℕ)
    → value < modulus
    → value < 256 ^ n
    → be_to_word modulus 0 (reverse (to_le_digits n value)) ≡ value
unfolding to_le_digits be_to_word
be_to_word-to_le_digits modulus zero value small h = ground arith
be_to_word-to_le_digits modulus (suc n) value small h = elim (Bool-cases (value == 0)) [
  | inl none_left ↦ rw (none_left, if◌then◌else◌) (ground arith)
  | inr some_left ↦
      let whole : value / 256 * 256 % modulus ≡ value / 256 * 256 = grind arith in
      let rest = be_to_word-to_le_digits modulus n (value / 256) (omega arith) (omega arith) in
      rw
        (
          some_left,
          if◌then◌else◌,
          reverse-append ((value % 256) ∷ []) (to_le_digits n (value / 256)),
          be_to_word-append,
          rest,
          whole,
        )
        (omega arith)
]

pub length-to_le_digits : (n value : ℕ) → length (to_le_digits n value) ≤ n
unfolding to_le_digits
length-to_le_digits zero value = omega arith
length-to_le_digits (suc n) value = ground (arith, length-to_le_digits n (value / 256))

pub length-usize_to_be : (value : ℕ) → length (usize_to_be value) ≤ 8
unfolding usize_to_be
length-usize_to_be value =
    ground (arith, length-reverse (to_le_digits 8 value), length-to_le_digits 8 value)

-- A positive length has at least one byte.
pub usize_to_be-positive : (value : ℕ) → 0 < length (usize_to_be value)
unfolding usize_to_be to_le_digits
usize_to_be-positive value = elim (Bool-cases (value == 0)) [
  | inl e ↦ rw e (omega arith)
  | inr e ↦ rw (e, length-reverse) (omega arith)
]

zero_byte : be_to_usize (0 ∷ []) ≡ 0
unfolding be_to_word
zero_byte = refl

-- What `usize_to_be` writes, `be_to_usize` reads.
pub be_to_usize-usize_to_be :
    (value : ℕ) → value < u64_mod → be_to_usize (usize_to_be value) ≡ value
unfolding usize_to_be
be_to_usize-usize_to_be value h = elim (Bool-cases (value == 0)) [
  | inl e ↦ rw e (zero_byte ∙ ground arith)
  | inr e ↦ rw e (be_to_word-to_le_digits u64_mod 8 value h h)
]

-- What `rlp_from_u64` writes, `rlp_to_u64` reads.
pub rlp_to_u64-rlp_from_u64 :
    (value : ℕ) → value < u64_mod → rlp_to_u64 (rlp_from_u64 value) ≡ value
unfolding rlp_from_u64
rlp_to_u64-rlp_from_u64 value h = be_to_word-to_le_digits u64_mod 8 value h h
