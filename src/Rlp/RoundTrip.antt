-- ===== src/Rlp/RoundTrip.antt =====
-- `rlp_decode_list` reads back what `rlp_encode_list` writes.
use mathlib.Core.List.{append_assoc, append-nil}
use zeno_final_code.Common.{
  ℕ, zero, suc, ◌+◌, ◌-◌, ◌%◌, ◌^◌, ◌≤◌, ◌<◌, ◌≡◌, refl, subst, ◌∙◌, ◌⊎◌, ap, List, [], ◌∷◌, ◌++◌,
  length, arith, if◌then◌else◌, ◌==◌, ltb, leb, Bool-cases, inl, inr, true, false, take-append,
  drop-append, length-append,
}
use zeno_final_code.Common.Results.{ok}
use zeno_final_code.Hash.{Bytes}
use zeno_final_code.Rlp.{
  RlpError, truncated_string, truncated_string_length, truncated_string_payload,
  truncated_list_length, truncated_list_payload, u64_mod, usize_to_be, be_to_usize, slice_at,
  long_length, rlp_list_payload, rlp_next_item, decode_items, rlp_decode_list, rlp_encode_bytes,
  rlp_encode_list_header, encode_items, rlp_encode_list,
}
use zeno_final_code.Rlp.Words.{length-usize_to_be, usize_to_be-positive, be_to_usize-usize_to_be}

slice_at_lem :
    (short : RlpError) (start len : ℕ) (pre part post : Bytes)
    → length pre ≡ start
    → length part ≡ len
    → start + len < u64_mod
    → slice_at short (pre ++ (part ++ post)) start len ≡ ok (part, start + len)
unfolding slice_at
slice_at_lem short start len pre part post hp hl small =
    let whole : (start + len) % u64_mod ≡ start + len = omega arith in
    let enough : ltb (length (pre ++ (part ++ post))) (start + len) ≡ false =
      ground (arith, length-append pre (part ++ post), length-append part post) in
    let ordered : ltb (start + len) start ≡ false = ground arith in
    let size : start + len - start ≡ len = omega arith in
    rw
      (
        whole,
        enough,
        ordered,
        size,
        drop-append start pre (part ++ post) hp,
        take-append len part post hl,
      )
      refl

slice_at_end :
    (short : RlpError) (start len : ℕ) (pre part : Bytes)
    → length pre ≡ start
    → length part ≡ len
    → start + len < u64_mod
    → slice_at short (pre ++ part) start len ≡ ok (part, start + len)
slice_at_end short start len pre part hp hl small =
    subst (λ l. slice_at short (pre ++ l) start len ≡ ok (part, start + len)) (append-nil part)
      (slice_at_lem short start len pre part [] hp hl small)

long_length_lem :
    (short : RlpError) (p len_len : ℕ) (lens rest : Bytes)
    → length lens ≡ len_len
    → long_length short (p ∷ (lens ++ rest)) len_len ≡ ok (be_to_usize lens)
unfolding long_length
long_length_lem short p len_len lens rest h =
    let enough : ltb (suc (length (lens ++ rest))) (1 + len_len) ≡ false =
      ground (arith, length-append lens rest) in
    rw (enough, take-append len_len lens rest h) refl

next_item-byte :
    (b : ℕ) (rest : Bytes) → ltb b 0x80 ≡ true → rlp_next_item (b ∷ rest) ≡ ok (b ∷ [], 1)
unfolding rlp_next_item
next_item-byte b rest h = rw (h, if◌then◌else◌) refl

next_item-short :
    (item rest : Bytes)
    → length item ≤ 55
    → rlp_next_item ((0x80 + length item) ∷ (item ++ rest)) ≡ ok (item, 1 + length item)
unfolding rlp_next_item
next_item-short item rest small =
    let p = 0x80 + length item in
    let no_byte : ltb p 0x80 ≡ false = ground arith in
    let short : leb p 0xb7 ≡ true = ground arith in
    let size : p - 0x80 ≡ length item = omega arith in
    rw (no_byte, short, size)
      (slice_at_lem truncated_string 1 (length item) (p ∷ []) item rest refl refl (omega arith))

next_item-long :
    (item rest : Bytes)
    → length item < 2 ^ 63
    → let lens = usize_to_be (length item) in
      rlp_next_item ((0xb7 + length lens) ∷ (lens ++ (item ++ rest)))
      ≡ ok (item, 1 + length lens + length item)
unfolding rlp_next_item
next_item-long item rest small =
    let lens = usize_to_be (length item) in
    let most = length-usize_to_be (length item) in
    let least = usize_to_be-positive (length item) in
    let p = 0xb7 + length lens in
    let no_byte : ltb p 0x80 ≡ false = ground arith in
    let no_short : leb p 0xb7 ≡ false = ground arith in
    let long : leb p 0xbf ≡ true = ground arith in
    let size : p - 0xb7 ≡ length lens = omega arith in
    rw
      (
        no_byte,
        no_short,
        long,
        size,
        long_length_lem truncated_string_length p (length lens) lens (item ++ rest) refl,
        be_to_usize-usize_to_be (length item) (omega arith),
      )
      (slice_at_lem truncated_string_payload (1 + length lens) (length item) (p ∷ lens) item rest
        (omega arith) refl (omega arith))

-- The three shapes of an encoded byte string.
pub encode-cases :
    (item : Bytes)
    → ((b : ℕ) × (item ≡ b ∷ []) × (ltb b 0x80 ≡ true) × (rlp_encode_bytes item ≡ b ∷ []))
      ⊎ (((length item ≤ 55) × (rlp_encode_bytes item ≡ (0x80 + length item) ∷ item))
          ⊎ (rlp_encode_bytes item
              ≡ (0xb7 + length (usize_to_be (length item))) ∷ (usize_to_be (length item) ++ item)))
unfolding rlp_encode_bytes
encode-cases [] = inr (inl (omega arith, refl))
encode-cases (b ∷ []) = elim (Bool-cases (ltb b 0x80)) [
  | inl e ↦ inl (b, refl, e, rw e refl)
  | inr e ↦ inr (inl (omega arith, rw e refl))
]
encode-cases (b ∷ c ∷ item) =
    let more : suc (suc (length item)) == 1 ≡ false = ground arith in
    elim (Bool-cases (leb (suc (suc (length item))) 55)) [
      | inl e ↦ inr (inl (ground arith, rw (more, e) refl))
      | inr e ↦ inr (inr (rw (more, e) refl))
    ]

length_positive : (item : Bytes) → 1 + length item ≡ suc (length item)
length_positive item = omega arith

-- A byte string, and whatever follows it.
pub rlp_next_item-rlp_encode_bytes :
    (item rest : Bytes)
    → length item < 2 ^ 63
    → rlp_next_item (rlp_encode_bytes item ++ rest) ≡ ok (item, length (rlp_encode_bytes item))
rlp_next_item-rlp_encode_bytes item rest small = elim (encode-cases item) [
  | inl (b, e, h, q) ↦ rw (q, e) (next_item-byte b rest h)
  | inr (inl (h, q)) ↦
      rw q (next_item-short item rest h ∙ ap (λ n. ok (item, n)) (length_positive item))
  | inr (inr q) ↦
      let lens = usize_to_be (length item) in
      let size : 1 + length lens + length item ≡ suc (length (lens ++ item)) =
        omega (arith, length-append lens item) in
      rw (q, append_assoc lens item rest)
        (next_item-long item rest small ∙ ap (λ n. ok (item, n)) size)
]

pub length-rlp_encode_bytes : (item : Bytes) → length item ≤ length (rlp_encode_bytes item)
unfolding rlp_encode_bytes
length-rlp_encode_bytes item = ground (arith, length-append (usize_to_be (length item)) item)

pub rlp_encode_bytes-positive : (item : Bytes) → 0 < length (rlp_encode_bytes item)
unfolding rlp_encode_bytes
rlp_encode_bytes-positive item = ground arith

pub decode_items-nil : (fuel : ℕ) → decode_items fuel [] ≡ ok []
unfolding decode_items
decode_items-nil zero = refl
decode_items-nil (suc fuel) = refl

pub decode_items-step :
    (fuel : ℕ) (enc rest item : Bytes) (items : List Bytes)
    → 0 < length enc
    → rlp_next_item (enc ++ rest) ≡ ok (item, length enc)
    → decode_items fuel rest ≡ ok items
    → decode_items (suc fuel) (enc ++ rest) ≡ ok (item ∷ items)
unfolding decode_items
decode_items-step fuel [] rest item items h e q = absurd (omega arith)
decode_items-step fuel (b ∷ enc) rest item items h e q =
    rw (e, decode_items, drop-append (length enc) enc rest refl, q) refl

pub decode_items-encode_items :
    (items : List Bytes) (fuel : ℕ)
    → length (encode_items items) < 2 ^ 63
    → length (encode_items items) ≤ fuel
    → decode_items fuel (encode_items items) ≡ ok items
unfolding encode_items
decode_items-encode_items [] fuel small h = decode_items-nil fuel
decode_items-encode_items (item ∷ items) zero small h = absurd (
    omega (
      arith,
      rlp_encode_bytes-positive item,
      length-append (rlp_encode_bytes item) (encode_items items),
    ))
decode_items-encode_items (item ∷ items) (suc fuel) small h =
    let whole = length-append (rlp_encode_bytes item) (encode_items items) in
    let some_byte = rlp_encode_bytes-positive item in
    let bound = length-rlp_encode_bytes item in
    decode_items-step fuel (rlp_encode_bytes item) (encode_items items) item items some_byte
      (rlp_next_item-rlp_encode_bytes item (encode_items items) (omega arith))
      (decode_items-encode_items items fuel (omega arith) (omega arith))

list_payload-short :
    (payload : Bytes)
    → length payload ≤ 55
    → rlp_list_payload ((0xc0 + length payload) ∷ payload) ≡ ok (payload, 1 + length payload)
unfolding rlp_list_payload
list_payload-short payload small =
    let p = 0xc0 + length payload in
    let not_long : leb 0xf8 p ≡ false = ground arith in
    let is_list : leb 0xc0 p ≡ true = ground arith in
    let size : p - 0xc0 ≡ length payload = omega arith in
    rw (not_long, is_list, size)
      (slice_at_end truncated_list_payload 1 (length payload) (p ∷ []) payload refl refl
        (omega arith))

list_payload-long :
    (payload : Bytes)
    → length payload < 2 ^ 63
    → let lens = usize_to_be (length payload) in
      rlp_list_payload ((0xf7 + length lens) ∷ (lens ++ payload))
      ≡ ok (payload, 1 + length lens + length payload)
unfolding rlp_list_payload
list_payload-long payload small =
    let lens = usize_to_be (length payload) in
    let most = length-usize_to_be (length payload) in
    let least = usize_to_be-positive (length payload) in
    let p = 0xf7 + length lens in
    let long : leb 0xf8 p ≡ true = ground arith in
    let size : p - 0xf7 ≡ length lens = omega arith in
    rw
      (
        long,
        size,
        long_length_lem truncated_list_length p (length lens) lens payload refl,
        be_to_usize-usize_to_be (length payload) (omega arith),
      )
      (slice_at_end truncated_list_payload (1 + length lens) (length payload) (p ∷ lens) payload
        (omega arith) refl (omega arith))

pub rlp_list_payload-rlp_encode_list_header :
    (payload : Bytes)
    → length payload < 2 ^ 63
    → (n : ℕ) × (rlp_list_payload (rlp_encode_list_header (length payload) ++ payload)
        ≡ ok (payload, n))
unfolding rlp_encode_list_header
rlp_list_payload-rlp_encode_list_header payload small =
    elim (Bool-cases (leb (length payload) 55)) [
      | inl e ↦ (1 + length payload, rw e (list_payload-short payload (ground arith)))
      | inr e ↦ (
        1 + length (usize_to_be (length payload)) + length payload,
        rw e (list_payload-long payload small),
      )
    ]

pub rlp_decode_list-payload :
    (bytes payload : Bytes) (n : ℕ)
    → rlp_list_payload bytes ≡ ok (payload, n)
    → rlp_decode_list bytes ≡ decode_items (length payload) payload
unfolding rlp_decode_list rlp_list_payload
rlp_decode_list-payload [] payload n e = absurd (ground arith)
rlp_decode_list-payload (b ∷ bytes) payload n e = rw e refl

-- A list of byte strings whose encoding is shorter than 2^63 bytes, as every vector is, is decoded
-- from its encoding, whole and within the fuel.
pub rlp_decode_list-rlp_encode_list :
    (items : List Bytes)
    → length (encode_items items) < 2 ^ 63
    → rlp_decode_list (rlp_encode_list items) ≡ ok items
unfolding rlp_encode_list
rlp_decode_list-rlp_encode_list items small =
    let (n, e) = rlp_list_payload-rlp_encode_list_header (encode_items items) small in
    rlp_decode_list-payload (rlp_encode_list items) (encode_items items) n e
    ∙ decode_items-encode_items items (length (encode_items items)) small (omega arith)
