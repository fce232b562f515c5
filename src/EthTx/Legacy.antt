-- ===== src/EthTx/Legacy.antt =====
-- A legacy transaction, signed for a chain as EIP-155 says, is decoded to what was signed.
use zeno_final_code.Common.{
  ℕ, ◌+◌, ◌-◌, ◌*◌, ◌/◌, ◌%◌, ◌^◌, ◌≤◌, ◌<◌, ◌≡◌, refl, true, false, Option, none, some, List, [],
  ◌∷◌, ◌++◌, length, leb, ◌==◌, if◌then◌else◌, reverse, arith, Bool-cases, inl, inr,
}
use zeno_final_code.Common.Results.{ok}
use zeno_final_code.Hash.{Bytes}
use zeno_final_code.Rlp.{
  rlp_encode_list, rlp_to_u64, rlp_to_u128, rlp_from_u64, encode_items, to_le_digits,
  rlp_encode_list_header, usize_to_be,
}
use zeno_final_code.Rlp.Words.{be_to_word-to_le_digits}
use zeno_final_code.Rlp.RoundTrip.{rlp_decode_list-rlp_encode_list}
use zeno_final_code.EthTx.{
  Ethereum, rlp_to_address, recover_sender, legacy_of_items, decode_legacy, decode_bytes,
  decode_raw_tx, strip_0x,
}

-- What a wallet signs.
pub record LegacyTx : Type 0 where
  pub nonce : ℕ
  pub gas_price : ℕ
  pub gas_limit : ℕ
  pub to : Option Bytes
  pub value : ℕ
  pub input : Bytes
  pub chain_id : ℕ

-- The fields fit in their words.
pub record FitsWords (t : LegacyTx) : Type 0 where
  pub nonce : t.nonce < 2 ^ 64
  pub gas_price : t.gas_price < 2 ^ 128
  pub gas_limit : t.gas_limit < 2 ^ 64
  pub value : t.value < 2 ^ 128
  pub chain_id : 2 * t.chain_id + 37 < 2 ^ 64

-- A number without leading zeros.
abbrev pub minimal : ℕ → Bytes
minimal value = reverse (to_le_digits 16 value)

abbrev pub recipient : Option Bytes → Bytes
recipient none = []
recipient (some address) = address

abbrev pub HasLength20 : Option Bytes → Type 0
HasLength20 none = Unit
HasLength20 (some address) = length address ≡ 20

abbrev pub fields : LegacyTx → List Bytes → List Bytes
fields t rest =
    minimal t.nonce
    ∷ minimal t.gas_price
    ∷ minimal t.gas_limit
    ∷ recipient t.to
    ∷ minimal t.value
    ∷ t.input
    ∷ rest

-- EIP-155: the text that is hashed to be signed, and the transaction with its signature.
abbrev pub signing_payload : LegacyTx → Bytes
signing_payload t = rlp_encode_list (fields t (rlp_from_u64 t.chain_id ∷ [] ∷ [] ∷ []))

abbrev pub signed_items : LegacyTx → ℕ → Bytes → Bytes → List Bytes
signed_items t y_parity r s = fields t (minimal (35 + 2 * t.chain_id + y_parity) ∷ r ∷ s ∷ [])

rlp_to_u64-minimal : (value : ℕ) → value < 2 ^ 64 → rlp_to_u64 (minimal value) ≡ value
rlp_to_u64-minimal value h = be_to_word-to_le_digits (2 ^ 64) 16 value h (omega arith)

rlp_to_u128-minimal : (value : ℕ) → value < 2 ^ 128 → rlp_to_u128 (minimal value) ≡ value
rlp_to_u128-minimal value h = be_to_word-to_le_digits (2 ^ 128) 16 value h h

rlp_to_address-recipient : (to : Option Bytes) → HasLength20 to → rlp_to_address (recipient to) ≡ to
unfolding rlp_to_address
rlp_to_address-recipient none h = refl
rlp_to_address-recipient (some address) h = ground arith

list_head :
    (items : List Bytes)
    → (b : ℕ) × (rest : Bytes) × (rlp_encode_list items ≡ b ∷ rest) × (0xc0 ≤ b)
unfolding rlp_encode_list rlp_encode_list_header
list_head items =
    let payload = encode_items items in
    let lens = usize_to_be (length payload) in
    elim (Bool-cases (leb (length payload) 55)) [
      | inl e ↦ (0xc0 + length payload, payload, rw e refl, omega arith)
      | inr e ↦ (0xf7 + length lens, lens ++ payload, rw e refl, omega arith)
    ]

-- A transaction that is a list is a legacy one.
decode_bytes-list :
    (x : Ethereum) (items : List Bytes)
    → decode_bytes x (rlp_encode_list items)
      ≡ decode_legacy x (rlp_encode_list items) (x.keccak256 (rlp_encode_list items))
unfolding decode_bytes
decode_bytes-list x items =
    let (b, rest, e, h) = list_head items in
    let untyped : (b == 2) ≡ false = ground arith in rw (e, decode_bytes, untyped) refl

module _ (x : Ethereum) (t : LegacyTx) (v : FitsWords t) (has_length : HasLength20 t.to)
    (y_parity : ℕ) (is_bit : y_parity < 2) (r s : Bytes) where
  legacy_of_items-signed :
      (tx_hash sender : Bytes)
      → recover_sender x (x.keccak256 (signing_payload t)) r s y_parity ≡ ok sender
      → legacy_of_items x tx_hash (signed_items t y_parity r s)
        ≡ ok (record {
          sender = sender;
          nonce = t.nonce;
          gas_price = t.gas_price;
          gas_limit = t.gas_limit;
          to = t.to;
          value = t.value;
          input = t.input;
          chain_id = t.chain_id;
          tx_hash = tx_hash;
        })
  unfolding legacy_of_items
  legacy_of_items-signed tx_hash sender signed =
      let sent : ℕ = 35 + 2 * t.chain_id + y_parity in
      let bound = v.chain_id in
      let word : rlp_to_u64 (minimal sent) ≡ sent = rlp_to_u64-minimal sent (omega arith) in
      let protected : leb 35 sent ≡ true = ground arith in
      let chain : (sent - 35) / 2 ≡ t.chain_id = omega arith in
      let parity : (sent - 35 - 2 * t.chain_id) % 256 ≡ y_parity = omega arith in
      rw
        (
          word,
          protected,
          if◌then◌else◌,
          chain,
          parity,
          signed,
          rlp_to_u64-minimal t.nonce v.nonce,
          rlp_to_u128-minimal t.gas_price v.gas_price,
          rlp_to_u64-minimal t.gas_limit v.gas_limit,
          rlp_to_address-recipient t.to has_length,
          rlp_to_u128-minimal t.value v.value,
        )
        refl

  -- A legacy transaction whose fields fit in their words and whose encoding is shorter than 2^63
  -- bytes, signed with either parity for its chain as EIP-155 says and sent as hexadecimal digits,
  -- with the prefix 0x or without, is decoded to its fields and its chain; its sender is the one that
  -- the signature names for the Keccak digest of the text that EIP-155 signs.
  pub decode_raw_tx-signed :
      (raw_hex sender : Bytes)
      → let raw = rlp_encode_list (signed_items t y_parity r s) in
        length (encode_items (signed_items t y_parity r s)) < 2 ^ 63
        → x.hex_decode (strip_0x raw_hex) ≡ some raw
        → recover_sender x (x.keccak256 (signing_payload t)) r s y_parity ≡ ok sender
        → decode_raw_tx x raw_hex
          ≡ ok (record {
            sender = sender;
            nonce = t.nonce;
            gas_price = t.gas_price;
            gas_limit = t.gas_limit;
            to = t.to;
            value = t.value;
            input = t.input;
            chain_id = t.chain_id;
            tx_hash = x.keccak256 raw;
          })
  unfolding decode_raw_tx decode_legacy
  decode_raw_tx-signed raw_hex sender small hex signed =
      let items = signed_items t y_parity r s in
      rw
        (
          hex,
          decode_raw_tx,
          decode_bytes-list x items,
          decode_legacy,
          rlp_decode_list-rlp_encode_list items small,
        )
        (legacy_of_items-signed (x.keccak256 (rlp_encode_list items)) sender signed)
