-- ===== src/EthTx/Tests.antt =====
-- A signed transaction, with stand-ins for the digest and the signature scheme.
use zeno_final_code.Common.{
  ◌≡◌, ◌≢◌, refl, true, some, [], ◌∷◌, ◌++◌, length, ltb, replicate, arith,
}
use zeno_final_code.Common.Results.{ok}
use zeno_final_code.Hash.{Bytes}
use zeno_final_code.Hash.Tests.{checksum}
use zeno_final_code.Rlp.{
  rlp_encode_list, rlp_encode_list_header, rlp_encode_bytes, encode_items, rlp_from_u64,
  to_le_digits, usize_to_be, rlp_next_item, slice_to,
}
use zeno_final_code.EthTx.{Ethereum, decode_raw_tx, recover_sender, left_pad_32, decode_bytes}
use zeno_final_code.EthTx.Legacy.{LegacyTx, FitsWords, signed_items, decode_raw_tx-signed}
use zeno_final_code.EthTx.AccessList.{
  decode_bytes-access_list, payload, fields, raw_transaction, recovered_from, signed_text,
}

abbrev toy_ethereum : Ethereum
toy_ethereum = record {
  keccak256 = λ b. replicate 32 (checksum b);
  hex_decode = some;
  is_signature = λ b. true;
  is_recovery_id = λ v. ltb v 4;
  recover = λ hash sig v. some (0x04 ∷ (hash ++ sig));
}

abbrev payment : LegacyTx
payment = record {
  nonce = 3;
  gas_price = 1000000000;
  gas_limit = 21000;
  to = some (replicate 20 0x35);
  value = 1000000000000000000;
  input = [];
  chain_id = 424242;
}

payment-FitsWords : FitsWords payment
payment-FitsWords = record {
  nonce = omega arith;
  gas_price = omega arith;
  gas_limit = omega arith;
  value = omega arith;
  chain_id = omega arith;
}

abbrev r_bytes : Bytes
r_bytes = replicate 32 0x77

abbrev s_bytes : Bytes
s_bytes = replicate 31 0x11

abbrev raw : Bytes
raw = rlp_encode_list (signed_items payment 1 r_bytes s_bytes)

decode_raw_tx-signed_example :
    decode_raw_tx toy_ethereum raw
    ≡ ok (record {
      sender = replicate 20 246;
      nonce = 3;
      gas_price = 1000000000;
      gas_limit = 21000;
      to = some (replicate 20 0x35);
      value = 1000000000000000000;
      input = [];
      chain_id = 424242;
      tx_hash = toy_ethereum.keccak256 raw;
    })
unfolding rlp_encode_list rlp_encode_list_header encode_items rlp_encode_bytes to_le_digits
    usize_to_be rlp_from_u64 recover_sender left_pad_32
decode_raw_tx-signed_example =
    decode_raw_tx-signed toy_ethereum payment payment-FitsWords refl 1 (omega arith) r_bytes s_bytes
      raw (replicate 20 246) (omega arith) refl refl

-- An EIP-1559 transaction with an empty access list.
empty_list : (after : Bytes) → rlp_next_item ((0xc0 ∷ []) ++ after) ≡ ok (0xc0 ∷ [], 1)
unfolding rlp_next_item slice_to
empty_list after = ground arith

short_payload :
    length (payload toy_ethereum (1 ∷ []) [] [] [] [] [] [] [] 0xc0 [] (1 ∷ []) (2 ∷ []) (3 ∷ []))
    ≡ 12
unfolding encode_items rlp_encode_bytes
short_payload = refl

short_text :
    length (
      encode_items
        (fields toy_ethereum (1 ∷ []) [] [] [] [] [] [] [] 0xc0 [] (1 ∷ []) (2 ∷ []) (3 ∷ []))
      ++ rlp_encode_bytes (0xc0 ∷ []))
    ≡ 10
unfolding encode_items rlp_encode_bytes
short_text = refl

decode_bytes-access_list_example :
    (text : Bytes) × (decode_bytes toy_ethereum (
        raw_transaction toy_ethereum
          (1 ∷ [])
          []
          []
          []
          []
          []
          []
          []
          0xc0
          []
          (1 ∷ [])
          (2 ∷ [])
          (3 ∷ []))
      ≡ recovered_from toy_ethereum
          (1 ∷ [])
          []
          []
          []
          []
          []
          []
          []
          0xc0
          []
          (1 ∷ [])
          (2 ∷ [])
          (3 ∷ [])
          text)
    × (text
        ≢ signed_text toy_ethereum (1 ∷ []) [] [] [] [] [] [] [] 0xc0 [] (1 ∷ []) (2 ∷ []) (3 ∷ []))
decode_bytes-access_list_example =
    decode_bytes-access_list toy_ethereum (1 ∷ []) [] [] [] [] [] [] [] 0xc0 [] (1 ∷ []) (2 ∷ [])
      (3 ∷ []) (omega arith) empty_list (omega (arith, short_payload)) (omega (arith, short_text))
