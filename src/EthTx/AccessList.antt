-- ===== src/EthTx/AccessList.antt =====
-- The access list of an EIP-1559 transaction, which is itself a list, in the text that is hashed to
-- recover the sender.
use zeno_final_code.Rlp.RoundTrip.{
  length-rlp_encode_bytes, rlp_encode_bytes-positive, decode_items-step, encode-cases,
  rlp_list_payload-rlp_encode_list_header, rlp_next_item-rlp_encode_bytes,
  decode_items-encode_items, rlp_decode_list-payload,
}
use zeno_final_code.Rlp.{
  decode_items, RlpError, u64_mod, be_to_usize, truncated_list, rlp_next_item, slice_to,
  long_length, rlp_encode_bytes, rlp_encode_list, rlp_encode_list_header, encode_items, usize_to_be,
  rlp_decode_list, rlp_to_u64, rlp_to_u128,
}
use mathlib.Core.List.{append-nil, append_assoc}
use zeno_final_code.EthTx.{
  Ethereum, EthTxError, DecodedEthTx, recover_sender, rlp_to_address, decode_bytes, decode_eip1559,
  eip1559_of_items,
}
use zeno_final_code.Common.Results.{Result, ◌>>=◌, ok}
use zeno_final_code.Common.{
  refl, drop, ℕ, zero, suc, ◌+◌, ◌-◌, ◌%◌, ◌^◌, ◌≤◌, ◌<◌, ◌≡◌, ◌≢◌, ap, sym, ◌∙◌, inl, inr, List,
  [], ◌∷◌, ◌++◌, length, take, arith, length-append,
}
use zeno_final_code.Hash.{Bytes}

take-head : (n b c : ℕ) (bytes rest : Bytes) → take n (b ∷ bytes) ≡ c ∷ rest → c ≡ b
take-head zero b c bytes rest h = absurd (ground arith)
take-head (suc n) b c bytes rest h = cc

slice_to-head :
    (short : RlpError) (b c start len k : ℕ) (bytes rest : Bytes)
    → slice_to short (b ∷ bytes) start len ≡ ok (c ∷ rest, k)
    → c ≡ b
unfolding slice_to
slice_to-head short b c start len k bytes rest h =
    ground (arith, take-head ((start + len) % u64_mod) b c bytes rest)

-- An item that is a list comes with its prefix, if it is not empty.
list_item-prefix :
    (b c : ℕ) (bytes item rest : Bytes) (k : ℕ)
    → 0xc0 ≤ b
    → rlp_next_item (b ∷ bytes) ≡ ok (item, k)
    → item ≡ c ∷ rest
    → c ≡ b
unfolding rlp_next_item long_length
list_item-prefix b c bytes item rest k h e q =
    let m = be_to_usize (take (b - 0xf7) bytes) in
    ground (
      arith,
      slice_to-head truncated_list b c 1 (b - 0xc0) k bytes rest,
      slice_to-head truncated_list b c (1 + (b - 0xf7)) m k bytes rest,
    )

-- An item that is decoded from a list and encoded again becomes longer: it is encoded as a byte
-- string.
pub length-rlp_encode_bytes_list :
    (b : ℕ) (bytes item : Bytes) (k : ℕ)
    → 0xc0 ≤ b
    → rlp_next_item (b ∷ bytes) ≡ ok (item, k)
    → length item < length (rlp_encode_bytes item)
length-rlp_encode_bytes_list b bytes item k h e = elim (encode-cases item) [
  | inl (c, q, small, enc) ↦
      let same = list_item-prefix b c bytes item [] k h e q in absurd (ground arith)
  | inr (inl (short, enc)) ↦ rw enc (omega arith)
  | inr (inr enc) ↦ rw enc (omega (arith, length-append (usize_to_be (length item)) item))
]

encode_items-append :
    (xs : List Bytes) (item : Bytes)
    → encode_items (xs ++ item ∷ []) ≡ encode_items xs ++ rlp_encode_bytes item
unfolding encode_items
encode_items-append [] item = append-nil (rlp_encode_bytes item)
encode_items-append (x ∷ xs) item =
    ap (λ l. rlp_encode_bytes x ++ l) (encode_items-append xs item)
    ∙ sym (append_assoc (rlp_encode_bytes x) (encode_items xs) (rlp_encode_bytes item))

-- The list over fields and an access list that is a list, and the list over the same with the access
-- list as a byte string, are different texts.
rlp_encode_list-access_list :
    (fields : List Bytes) (b : ℕ) (bytes access_list : Bytes) (k : ℕ)
    → 0xc0 ≤ b
    → rlp_next_item (b ∷ bytes) ≡ ok (access_list, k)
    → length (encode_items fields ++ rlp_encode_bytes access_list) < 2 ^ 63
    → let signed = encode_items fields ++ access_list in
      rlp_encode_list (fields ++ access_list ∷ [])
      ≢ rlp_encode_list_header (length signed) ++ signed
unfolding rlp_encode_list
rlp_encode_list-access_list fields b bytes access_list k h e small = λ q.
    let longer = length-rlp_encode_bytes_list b bytes access_list k h e in
    let signed = encode_items fields ++ access_list in
    let hashed = encode_items fields ++ rlp_encode_bytes access_list in
    let size = length-append (encode_items fields) access_list in
    let size' = length-append (encode_items fields) (rlp_encode_bytes access_list) in
    let (n, p) = rlp_list_payload-rlp_encode_list_header signed (omega arith) in
    let (m, p') = rlp_list_payload-rlp_encode_list_header hashed small in
    let same : rlp_encode_list_header (length hashed) ++ hashed
        ≡ rlp_encode_list_header (length signed) ++ signed =
      rw (encode_items-append fields access_list) at q in
    let payloads : hashed ≡ signed = cc in absurd (omega (arith, ap length payloads))

-- An item and what follows it.
decode_items-first :
    (fuel : ℕ) (enc tail item : Bytes) (items : List Bytes)
    → 0 < length enc
    → rlp_next_item (enc ++ tail) ≡ ok (item, length enc)
    → ((left : ℕ) → length tail ≤ left → decode_items left tail ≡ ok items)
    → length (enc ++ tail) ≤ fuel
    → decode_items fuel (enc ++ tail) ≡ ok (item ∷ items)
decode_items-first zero enc tail item items p e g le =
    absurd (omega (arith, length-append enc tail))
decode_items-first (suc fuel) enc tail item items p e g le =
    decode_items-step fuel enc tail item items p e (g fuel (omega (arith, length-append enc tail)))

-- Encoded items before others are decoded before them.
decode_items-encode_items_before :
    (xs ys : List Bytes) (rest : Bytes)
    → ((fuel : ℕ) → length rest ≤ fuel → decode_items fuel rest ≡ ok ys)
    → length (encode_items xs ++ rest) < 2 ^ 63
    → (fuel : ℕ) → length (encode_items xs ++ rest) ≤ fuel
    → decode_items fuel (encode_items xs ++ rest) ≡ ok (xs ++ ys)
unfolding encode_items
decode_items-encode_items_before [] ys rest f small fuel h = f fuel h
decode_items-encode_items_before (x ∷ xs) ys rest f small fuel h =
    let tail = encode_items xs ++ rest in
    let enc = rlp_encode_bytes x in
    let shape : (enc ++ encode_items xs) ++ rest ≡ enc ++ tail =
      append_assoc enc (encode_items xs) rest in
    let whole = length-append enc tail in
    let same = ap length shape in
    let positive = rlp_encode_bytes-positive x in
    let bound = length-rlp_encode_bytes x in
    ap (decode_items fuel) shape
    ∙ decode_items-first fuel enc tail x (xs ++ ys) positive
        (rlp_next_item-rlp_encode_bytes x tail (omega arith))
        (decode_items-encode_items_before xs ys rest f (omega arith)) (omega arith)

module _ (x : Ethereum) (i0 i1 i2 i3 i4 i5 i6 i7 : Bytes) (b : ℕ) (bytes v r s : Bytes) where
  abbrev pub fields : List Bytes
  fields = i0 ∷ i1 ∷ i2 ∷ i3 ∷ i4 ∷ i5 ∷ i6 ∷ i7 ∷ []

  abbrev pub signature : List Bytes
  signature = v ∷ r ∷ s ∷ []

  abbrev access_list : Bytes
  access_list = b ∷ bytes

  -- What EIP-1559 signs, and the transaction: the access list stands in both as the list that it is.
  abbrev pub signed_text : Bytes
  signed_text =
      let payload = encode_items fields ++ access_list in
      0x02 ∷ (rlp_encode_list_header (length payload) ++ payload)

  abbrev pub payload : Bytes
  payload = encode_items fields ++ (access_list ++ encode_items signature)

  abbrev pub raw_transaction : Bytes
  raw_transaction = 0x02 ∷ (rlp_encode_list_header (length payload) ++ payload)

  -- What the decoder makes of the sender that is recovered from a text.
  abbrev pub recovered_from : Bytes → Result EthTxError DecodedEthTx
  recovered_from text = recover_sender x (x.keccak256 text) r s (rlp_to_u64 v % 256) >>= λ sender.
      ok (record {
        sender = sender;
        nonce = rlp_to_u64 i1;
        gas_price = rlp_to_u128 i3;
        gas_limit = rlp_to_u64 i4;
        to = rlp_to_address i5;
        value = rlp_to_u128 i6;
        input = i7;
        chain_id = rlp_to_u64 i0;
        tx_hash = x.keccak256 raw_transaction;
      })

  rlp_decode_list-raw_transaction :
      ((after : Bytes)
        → rlp_next_item (access_list ++ after) ≡ ok (access_list, length access_list))
      → length payload < 2 ^ 63
      → rlp_decode_list (rlp_encode_list_header (length payload) ++ payload)
        ≡ ok (fields ++ access_list ∷ signature)
  rlp_decode_list-raw_transaction is_item small =
      let (n, e) = rlp_list_payload-rlp_encode_list_header payload small in
      let rest = access_list ++ encode_items signature in
      let outer = length-append (encode_items fields) rest in
      let inner = length-append access_list (encode_items signature) in
      rlp_decode_list-payload (rlp_encode_list_header (length payload) ++ payload) payload n e
      ∙ decode_items-encode_items_before fields (access_list ∷ signature) rest
          (λ fuel le.
            decode_items-first fuel access_list (encode_items signature) access_list signature
              (omega arith) (is_item (encode_items signature))
              (λ left h. decode_items-encode_items signature left (omega arith) h) le)
          small (length payload) (omega arith)

  -- The sender of an EIP-1559 transaction is recovered from the digest of a text that is not the one
  -- that EIP-1559 signs, whatever the fields, the signature and the access list, an item that is a
  -- list, are, as long as the transaction and the text are shorter than 2^63 bytes.
  pub decode_bytes-access_list :
      0xc0 ≤ b
      → ((after : Bytes)
          → rlp_next_item (access_list ++ after) ≡ ok (access_list, length access_list))
      → length payload < 2 ^ 63
      → length (encode_items fields ++ rlp_encode_bytes access_list) < 2 ^ 63
      → (text : Bytes) × (decode_bytes x raw_transaction ≡ recovered_from text)
        × (text ≢ signed_text)
  unfolding decode_bytes decode_eip1559 eip1559_of_items
  decode_bytes-access_list is_list is_item small small' =
      let text = 0x02 ∷ rlp_encode_list (fields ++ access_list ∷ []) in
      let decoded = rlp_decode_list-raw_transaction is_item small in
      (
        text,
        rw (decoded, decode_bytes, decode_eip1559) refl,
        λ q.
            rlp_encode_list-access_list fields b bytes access_list (length access_list) is_list
              (ap rlp_next_item (sym (append-nil (b ∷ bytes))) ∙ is_item []) small' (ap (drop 1) q),
      )
