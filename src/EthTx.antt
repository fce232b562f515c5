-- ===== src/EthTx.antt =====
-- Raw Ethereum transactions and the recovery of their sender (crates/zeno-evm/src/eth_tx.rs), over
-- the codec of Rlp. Keccak, the ECDSA of the k256 crate and the hex crate are fields of `Ethereum`.
pub mod Legacy
pub mod AccessList
mod Tests
use zeno_final_code.Common.{
  ℕ, ◌+◌, ◌-◌, ◌*◌, ◌/◌, ◌%◌, ◌^◌, min, ◌≡◌, Bool, true, false, not, ◌&&◌, Option, none, some, List,
  [], ◌∷◌, ◌++◌, length, leb, ◌==◌, if◌then◌else◌, take, drop, replicate,
}
use zeno_final_code.Common.Results.{Result, ok, err, ◌>>=◌, ◌>>◌, fail_if, ok_or}
use zeno_final_code.Hash.{Bytes}
use zeno_final_code.Rlp.{
  RlpError, rlp_decode_list, rlp_encode_list, rlp_to_u64, rlp_to_u128, rlp_from_u64,
}

pub record Ethereum : Type 0 where
  pub keccak256 : Bytes → Bytes
  pub hex_decode : Bytes → Option Bytes
  -- `Signature::from_bytes`, `RecoveryId::from_byte`, and the key that `recover_from_prehash` finds,
  -- uncompressed.
  pub is_signature : Bytes → Bool
  pub is_recovery_id : ℕ → Bool
  pub recover : Bytes → Bytes → ℕ → Option Bytes

pub data EthTxError : Type 0 where
  invalid_hex empty_transaction invalid_signature recovery_failed : EthTxError
  invalid_recovery_id : ℕ → EthTxError
  wrong_field_count : ℕ → EthTxError
  invalid_rlp : RlpError → EthTxError

pub record DecodedEthTx : Type 0 where
  pub sender : Bytes
  pub nonce : ℕ
  pub gas_price : ℕ
  pub gas_limit : ℕ
  pub to : Option Bytes
  pub value : ℕ
  pub input : Bytes
  pub chain_id : ℕ
  pub tx_hash : Bytes

unfoldable pub rlp_to_address : Bytes → Option Bytes
rlp_to_address bytes = if length bytes == 20 then some bytes else none

unfoldable pub left_pad_32 : Bytes → Bytes
left_pad_32 bytes = replicate (32 - length bytes) 0 ++ take (min (length bytes) 32) bytes

-- An RLP error, as an error of the transaction.
abbrev pub as_items : Result RlpError (List Bytes) → Result EthTxError (List Bytes)
as_items (ok items) = ok items
as_items (err e) = err (invalid_rlp e)

-- `strip_prefix("0x").unwrap_or(raw_hex)`.
abbrev pub strip_0x : Bytes → Bytes
strip_0x (a ∷ b ∷ rest) = if a == b'0' && b == b'x' then rest else a ∷ b ∷ rest
strip_0x text = text

module _ (x : Ethereum) where
  unfoldable pub recover_sender : Bytes → Bytes → Bytes → ℕ → Result EthTxError Bytes
  recover_sender signing_hash r_bytes s_bytes v = do
    let sig_bytes = left_pad_32 r_bytes ++ left_pad_32 s_bytes
    fail_if (not (x.is_signature sig_bytes)) invalid_signature
    fail_if (not (x.is_recovery_id v)) (invalid_recovery_id v)
    key ← ok_or (x.recover signing_hash sig_bytes v) recovery_failed
    ok (take 20 (drop 12 (x.keccak256 (drop 1 key))))

  -- `decode_legacy`, on the items of the list.
  unfoldable pub legacy_of_items : Bytes → List Bytes → Result EthTxError DecodedEthTx
  legacy_of_items tx_hash (i0 ∷ i1 ∷ i2 ∷ i3 ∷ i4 ∷ i5 ∷ i6 ∷ r ∷ s ∷ []) =
      let v = rlp_to_u64 i6 in
      let chain_id = if leb 35 v then (v - 35) / 2 else 0 in
      let signing_payload =
        rlp_encode_list (i0 ∷ i1 ∷ i2 ∷ i3 ∷ i4 ∷ i5 ∷ rlp_from_u64 chain_id ∷ [] ∷ [] ∷ []) in
      let recovery_v = if leb 35 v then (v - 35 - 2 * chain_id) % 256 else (v - 27) % 256 in
      recover_sender (x.keccak256 signing_payload) r s recovery_v >>= λ sender. ok (record {
        sender = sender;
        nonce = rlp_to_u64 i0;
        gas_price = rlp_to_u128 i1;
        gas_limit = rlp_to_u64 i2;
        to = rlp_to_address i3;
        value = rlp_to_u128 i4;
        input = i5;
        chain_id = chain_id;
        tx_hash = tx_hash;
      })
  legacy_of_items tx_hash items = err (wrong_field_count (length items))

  unfoldable pub decode_legacy : Bytes → Bytes → Result EthTxError DecodedEthTx
  decode_legacy raw tx_hash = do
    items ← as_items (rlp_decode_list raw)
    legacy_of_items tx_hash items

  -- `decode_eip1559`, on the items of the list; the priority fee is read and not used.
  unfoldable pub eip1559_of_items : Bytes → List Bytes → Result EthTxError DecodedEthTx
  eip1559_of_items tx_hash (i0 ∷ i1 ∷ i2 ∷ i3 ∷ i4 ∷ i5 ∷ i6 ∷ i7 ∷ i8 ∷ i9 ∷ r ∷ s ∷ []) =
      let signing_list = rlp_encode_list (i0 ∷ i1 ∷ i2 ∷ i3 ∷ i4 ∷ i5 ∷ i6 ∷ i7 ∷ i8 ∷ []) in
      recover_sender (x.keccak256 (0x02 ∷ signing_list)) r s (rlp_to_u64 i9 % 256) >>= λ sender.
      ok (record {
        sender = sender;
        nonce = rlp_to_u64 i1;
        gas_price = rlp_to_u128 i3;
        gas_limit = rlp_to_u64 i4;
        to = rlp_to_address i5;
        value = rlp_to_u128 i6;
        input = i7;
        chain_id = rlp_to_u64 i0;
        tx_hash = tx_hash;
      })
  eip1559_of_items tx_hash items = err (wrong_field_count (length items))

  unfoldable pub decode_eip1559 : Bytes → Bytes → Result EthTxError DecodedEthTx
  decode_eip1559 raw tx_hash = do
    items ← as_items (rlp_decode_list (drop 1 raw))
    eip1559_of_items tx_hash items

  -- `decode_raw_tx`, on the bytes of the transaction.
  unfoldable pub decode_bytes : Bytes → Result EthTxError DecodedEthTx
  decode_bytes [] = err empty_transaction
  decode_bytes (b ∷ raw) =
      if b == 0x02
      then decode_eip1559 (b ∷ raw) (x.keccak256 (b ∷ raw))
      else decode_legacy (b ∷ raw) (x.keccak256 (b ∷ raw))

  unfoldable pub decode_raw_tx : Bytes → Result EthTxError DecodedEthTx
  decode_raw_tx raw_hex = elim (x.hex_decode (strip_0x raw_hex)) [
    | none ↦ err invalid_hex
    | some raw ↦ decode_bytes raw
  ]
