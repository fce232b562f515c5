-- ===== src/Rlp/Tests.antt =====
-- The codec on small inputs; the first is that of the source's own test.
use zeno_final_code.Common.{◌≡◌, ◌≢◌, refl, List, [], ◌∷◌, length, arith}
use zeno_final_code.Common.Results.{ok, err}
use zeno_final_code.Hash.{Bytes}
use zeno_final_code.Rlp.{
  out_of_fuel, rlp_decode_list, rlp_encode_list, rlp_encode_list_header, rlp_encode_bytes,
  encode_items, decode_items, rlp_list_payload, slice_at,
}
use zeno_final_code.Rlp.RoundTrip.{rlp_decode_list-rlp_encode_list}
use zeno_final_code.Rlp.Looping.{looping_item, decode_items-looping_item, decode_items-ends}

abbrev three_items : List Bytes
three_items = (1 ∷ []) ∷ (2 ∷ []) ∷ (b'h' ∷ b'e' ∷ b'l' ∷ b'l' ∷ b'o' ∷ []) ∷ []

three_items_encoded :
    rlp_encode_list three_items ≡ 0xc8 ∷ 1 ∷ 2 ∷ 0x85 ∷ b'h' ∷ b'e' ∷ b'l' ∷ b'l' ∷ b'o' ∷ []
unfolding rlp_encode_list rlp_encode_list_header encode_items rlp_encode_bytes
three_items_encoded = refl

length_of_three : length (encode_items three_items) ≡ 8
unfolding encode_items rlp_encode_bytes
length_of_three = refl

rlp_decode_list-rlp_encode_list_example :
    rlp_decode_list (rlp_encode_list three_items) ≡ ok three_items
rlp_decode_list-rlp_encode_list_example =
    rlp_decode_list-rlp_encode_list three_items (omega (arith, length_of_three))

-- Ten bytes of a transaction that bring the loop to its item.
looping_payload : rlp_list_payload (0xc9 ∷ looping_item) ≡ ok (looping_item, 10)
unfolding rlp_list_payload slice_at
looping_payload = refl

decode_items-looping_item_example : decode_items 1000 looping_item ≡ err out_of_fuel
decode_items-looping_item_example = decode_items-looping_item 1000 []

decode_items-ends_example : decode_items 3 (0x81 ∷ 0xfe ∷ 0x05 ∷ []) ≢ err out_of_fuel
decode_items-ends_example =
    decode_items-ends 3 (0x81 ∷ 0xfe ∷ 0x05 ∷ []) (omega arith)
      (omega arith, (omega arith, (omega arith, tt)))
