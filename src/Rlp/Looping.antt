-- ===== src/Rlp/Looping.antt =====
-- Whether the loop of `rlp_decode_list` comes to an end: every item moves it on, but a list whose
-- length wraps at 2^64.
use native.Mathlib.Nat.{mul-le-mul_right, pow-le-pow_right}
use zeno_final_code.Common.{
  ℕ, zero, suc, ◌+◌, ◌-◌, ◌*◌, ◌%◌, ◌^◌, ◌≤◌, ◌<◌, ◌≡◌, ◌≢◌, refl, [], ◌∷◌, ◌++◌, length, arith,
  inl, inr, take, drop, All, length-drop, length-take-le,
}
use zeno_final_code.Common.Results.{ok, err, Result-cases}
use zeno_final_code.Hash.{Bytes}
use zeno_final_code.Rlp.{
  RlpError, truncated_string, truncated_string_payload, truncated_list, out_of_fuel, u64_mod,
  be_to_usize, be_to_word, slice_at, slice_to, long_length, rlp_next_item, decode_items,
}

-- A list prefix whose length, with its header, is 2^64.
abbrev pub looping_item : Bytes
looping_item = 0xff ∷ 0xff ∷ 0xff ∷ 0xff ∷ 0xff ∷ 0xff ∷ 0xff ∷ 0xff ∷ 0xf7 ∷ []

next_item-looping_item : (rest : Bytes) → rlp_next_item (looping_item ++ rest) ≡ ok ([], 0)
unfolding rlp_next_item slice_to long_length be_to_word
next_item-looping_item rest = ground arith

-- At the eight bytes ff and the byte f7, a list prefix whose length with its header wraps to 0, the
-- loop consumes nothing: no fuel brings it to an end, whatever follows.
pub decode_items-looping_item :
    (fuel : ℕ) (rest : Bytes) → decode_items fuel (looping_item ++ rest) ≡ err out_of_fuel
unfolding decode_items
decode_items-looping_item zero rest = refl
decode_items-looping_item (suc fuel) rest =
    rw (next_item-looping_item rest, decode_items, decode_items-looping_item fuel rest) refl

be_to_word-bound :
    (modulus value : ℕ) (bytes : Bytes)
    → All (λ b. b < 256) bytes
    → be_to_word modulus value bytes < (value + 1) * 256 ^ length bytes
unfolding be_to_word
be_to_word-bound modulus value [] h = omega arith
be_to_word-bound modulus value (b ∷ bytes) h =
    let step = be_to_word-bound modulus (value * 256 % modulus + b) bytes h.1 in
    let low : value * 256 % modulus + b + 1 ≤ (value + 1) * 256 = grind arith in
    let wide = mul-le-mul_right (256 ^ length bytes) low in
    let power : 256 ^ suc (length bytes) ≡ 256 * 256 ^ length bytes = grind arith in
    rw power (grind arith)

slice_at-consumes :
    (short : RlpError) (bytes part : Bytes) (start len k : ℕ)
    → 0 < start
    → slice_at short bytes start len ≡ ok (part, k)
    → 0 < k
unfolding slice_at
slice_at-consumes short bytes part start len k h e = ground arith

slice_to-consumes :
    (short : RlpError) (bytes part : Bytes) (start len k : ℕ)
    → 0 < start
    → start + len < u64_mod
    → slice_to short bytes start len ≡ ok (part, k)
    → 0 < k
unfolding slice_to
slice_to-consumes short bytes part start len k h small e = ground arith

All-take : (n : ℕ) (xs : Bytes) → All (λ b. b < 255) xs → All (λ b. b < 256) (take n xs)
All-take zero xs h = tt
All-take (suc n) [] h = tt
All-take (suc n) (x ∷ xs) h = (omega arith, All-take n xs h.1)

be_to_usize-small :
    (n : ℕ) (xs : Bytes) → n ≤ 7 → All (λ b. b < 255) xs → be_to_usize (take n xs) < 256 ^ 7
be_to_usize-small n xs h small =
    let bound = be_to_word-bound u64_mod 0 (take n xs) (All-take n xs small) in
    let short = length-take-le n xs in
    let most =
      pow-le-pow_right {n = 256} (omega arith) {i = length (take n xs)} {j = 7} (omega arith) in
    omega arith

-- Where no byte is 0xff, each item moves the loop on.
next_item-consumes :
    (bytes item : Bytes) (k : ℕ)
    → All (λ b. b < 255) bytes
    → rlp_next_item bytes ≡ ok (item, k)
    → 0 < k
unfolding rlp_next_item long_length
next_item-consumes [] item k h e = ground arith
next_item-consumes (b ∷ bytes) item k h e =
    let bytes' = b ∷ bytes in
    let n = be_to_usize (take (b - 0xb7) bytes) in
    let m = be_to_usize (take (b - 0xf7) bytes) in
    let small : b ≤ 0xfe → m < 256 ^ 7 =
      λ lt. be_to_usize-small (b - 0xf7) bytes (omega arith) h.1 in
    ground (
      arith,
      slice_at-consumes truncated_string bytes' item 1 (b - 0x80) k (omega arith),
      slice_at-consumes truncated_string_payload bytes' item (1 + (b - 0xb7)) n k (omega arith),
      slice_to-consumes truncated_list bytes' item 1 (b - 0xc0) k (omega arith),
      slice_to-consumes truncated_list bytes' item (1 + (b - 0xf7)) m k (omega arith),
    )

next_item-ends : (bytes : Bytes) → rlp_next_item bytes ≢ err out_of_fuel
unfolding rlp_next_item long_length slice_at slice_to
next_item-ends [] = λ e. ground arith
next_item-ends (b ∷ bytes) = λ e. ground arith

All-drop : (n : ℕ) (xs : Bytes) → All (λ b. b < 255) xs → All (λ b. b < 255) (drop n xs)
All-drop zero xs h = h
All-drop (suc n) [] h = tt
All-drop (suc n) (x ∷ xs) h = All-drop n xs h.1

-- Where no byte is 0xff, the loop comes to an end within a round for each byte.
pub decode_items-ends :
    (fuel : ℕ) (bytes : Bytes)
    → length bytes ≤ fuel
    → All (λ b. b < 255) bytes
    → decode_items fuel bytes ≢ err out_of_fuel
unfolding decode_items
decode_items-ends zero [] h small = λ e. ground arith
decode_items-ends (suc fuel) [] h small = λ e. ground arith
decode_items-ends zero (b ∷ bytes) h small = absurd (omega arith)
decode_items-ends (suc fuel) (b ∷ bytes) h small = λ e.
    elim (Result-cases (rlp_next_item (b ∷ bytes))) [
      | inl (x, q) ↦ next_item-ends (b ∷ bytes) (ground arith)
      | inr ((item, k), q) ↦
          let moves = next_item-consumes (b ∷ bytes) item k small q in
          let left : length (drop k (b ∷ bytes)) ≤ fuel =
            omega (arith, length-drop k (b ∷ bytes)) in
          let rest =
            decode_items-ends fuel (drop k (b ∷ bytes)) left (All-drop k (b ∷ bytes) small) in
          rest (ground arith)
    ]
