-- ===== src/Rlp.antt =====
-- The RLP codec of raw Ethereum transactions (crates/zeno-evm/src/eth_tx.rs). A slice is the list of
-- its bytes, and `payload[pos..]` what is left of it. A sum of lengths wraps at 2^64, as in a release
-- build; `slice_panic` is not an error value but the panic of a slice whose end is before its start.
pub mod Words
pub mod RoundTrip
pub mod Looping
mod Tests
use zeno_final_code.Common.{
  ℕ, zero, suc, ◌+◌, ◌-◌, ◌*◌, ◌/◌, ◌%◌, ◌^◌, Bool, true, false, ◌&&◌, Option, none, some, List, [],
  ◌∷◌, ◌++◌, length, ltb, leb, ◌==◌, if◌then◌else◌, reverse, take, drop,
}
use zeno_final_code.Common.Results.{Result, ok, err, ◌>>=◌}
use zeno_final_code.Hash.{Bytes}

pub data RlpError : Type 0 where
  empty_rlp unexpected_end truncated_list_length truncated_list_payload not_a_list : RlpError
  truncated_string truncated_string_length truncated_string_payload truncated_list : RlpError
  slice_panic out_of_fuel : RlpError

abbrev pub u64_mod : ℕ
u64_mod = 2 ^ 64

-- `value = (value << 8) | b` over the bytes, at the word whose values are below `modulus`.
unfoldable pub be_to_word : ℕ → ℕ → Bytes → ℕ
be_to_word modulus value [] = value
be_to_word modulus value (b ∷ bytes) = be_to_word modulus (value * 256 % modulus + b) bytes

-- `be_to_usize`.
abbrev pub be_to_usize : Bytes → ℕ
be_to_usize bytes = be_to_word u64_mod 0 bytes

-- The loop of `usize_to_be`, least significant byte first.
unfoldable pub to_le_digits : ℕ → ℕ → Bytes
to_le_digits zero value = []
to_le_digits (suc fuel) value =
    let rest = to_le_digits fuel (value / 256) in if value == 0 then [] else (value % 256) ∷ rest

-- `usize_to_be`: eight rounds are enough for a word of 64 bits.
unfoldable pub usize_to_be : ℕ → Bytes
usize_to_be value = if value == 0 then 0 ∷ [] else reverse (to_le_digits 8 value)

abbrev pub rlp_to_u64 : Bytes → ℕ
rlp_to_u64 bytes = be_to_word u64_mod 0 bytes

abbrev pub rlp_to_u128 : Bytes → ℕ
rlp_to_u128 bytes = be_to_word (2 ^ 128) 0 bytes

-- `rlp_from_u64`: the bytes from the first that is not zero.
unfoldable pub rlp_from_u64 : ℕ → Bytes
rlp_from_u64 value = reverse (to_le_digits 8 value)

-- `data[start..start + len]` and the bytes consumed, behind the check that `data` is long enough.
unfoldable pub slice_at : RlpError → Bytes → ℕ → ℕ → Result RlpError (Bytes × ℕ)
slice_at short bytes start len =
    let end = (start + len) % u64_mod in
    if ltb (length bytes) end
    then err short
    else if ltb end start
    then err slice_panic
    else ok (take (end - start) (drop start bytes), end)

-- `data[..start + len]` and the bytes consumed, behind the same check.
unfoldable pub slice_to : RlpError → Bytes → ℕ → ℕ → Result RlpError (Bytes × ℕ)
slice_to short bytes start len =
    let end = (start + len) % u64_mod in
    if ltb (length bytes) end then err short else ok (take end bytes, end)

-- The length that `len_len` bytes after the prefix spell.
unfoldable pub long_length : RlpError → Bytes → ℕ → Result RlpError ℕ
long_length short bytes len_len =
    if ltb (length bytes) (1 + len_len)
    then err short
    else ok (be_to_usize (take len_len (drop 1 bytes)))

unfoldable pub rlp_list_payload : Bytes → Result RlpError (Bytes × ℕ)
rlp_list_payload [] = err slice_panic
rlp_list_payload (prefix ∷ rest) =
    let bytes = prefix ∷ rest in
    if leb 0xf8 prefix
    then (do
      len ← long_length truncated_list_length bytes (prefix - 0xf7)
      slice_at truncated_list_payload bytes (1 + (prefix - 0xf7)) len)
    else if leb 0xc0 prefix
    then slice_at truncated_list_payload bytes 1 (prefix - 0xc0)
    else err not_a_list

unfoldable pub rlp_next_item : Bytes → Result RlpError (Bytes × ℕ)
rlp_next_item [] = err unexpected_end
rlp_next_item (prefix ∷ rest) =
    let bytes = prefix ∷ rest in
    if ltb prefix 0x80
    then ok (prefix ∷ [], 1)
    else if leb prefix 0xb7
    then slice_at truncated_string bytes 1 (prefix - 0x80)
    else if leb prefix 0xbf
    then (do
      len ← long_length truncated_string_length bytes (prefix - 0xb7)
      slice_at truncated_string_payload bytes (1 + (prefix - 0xb7)) len)
    else if leb prefix 0xf7
    then slice_to truncated_list bytes 1 (prefix - 0xc0)
    else (do
      len ← long_length truncated_list_length bytes (prefix - 0xf7)
      slice_to truncated_list bytes (1 + (prefix - 0xf7)) len)

-- The loop of `rlp_decode_list`, on what is left of the payload.
unfoldable pub decode_items : ℕ → Bytes → Result RlpError (List Bytes)
decode_items fuel [] = ok []
decode_items zero (b ∷ bytes) = err out_of_fuel
decode_items (suc fuel) (b ∷ bytes) = elim (rlp_next_item (b ∷ bytes)) [
  | err e ↦ err e
  | ok next ↦ elim (decode_items fuel (drop next.1 (b ∷ bytes))) [
    | err e ↦ err e
    | ok items ↦ ok (next.0 ∷ items)
  ]
]

-- `rlp_decode_list`, with a round for each byte of the payload.
unfoldable pub rlp_decode_list : Bytes → Result RlpError (List Bytes)
rlp_decode_list [] = err empty_rlp
rlp_decode_list (b ∷ bytes) = do
  payload ← rlp_list_payload (b ∷ bytes)
  decode_items (length payload.0) payload.0

-- `bytes[0]`, where there is one.
abbrev pub first_or_zero : Bytes → ℕ
first_or_zero [] = 0
first_or_zero (b ∷ bytes) = b

-- The bytes that `rlp_encode_bytes` appends.
unfoldable pub rlp_encode_bytes : Bytes → Bytes
rlp_encode_bytes bytes =
    let len_bytes = usize_to_be (length bytes) in
    if length bytes == 1 && ltb (first_or_zero bytes) 0x80
    then bytes
    else if leb (length bytes) 55
    then (0x80 + length bytes) ∷ bytes
    else (0xb7 + length len_bytes) ∷ (len_bytes ++ bytes)

-- The bytes that `rlp_encode_list_header` appends.
unfoldable pub rlp_encode_list_header : ℕ → Bytes
rlp_encode_list_header payload_len =
    let len_bytes = usize_to_be payload_len in
    if leb payload_len 55 then (0xc0 + payload_len) ∷ [] else (0xf7 + length len_bytes) ∷ len_bytes

unfoldable pub encode_items : List Bytes → Bytes
encode_items [] = []
encode_items (item ∷ items) = rlp_encode_bytes item ++ encode_items items

unfoldable pub rlp_encode_list : List Bytes → Bytes
rlp_encode_list items =
    let payload = encode_items items in rlp_encode_list_header (length payload) ++ payload
