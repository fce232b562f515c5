-- ===== src/Primitives.antt =====
-- Validation of transactions, blocks and votes (crates/zeno-primitives/src/lib.rs). The signature
-- scheme, ML-DSA of liboqs behind `SignatureScheme` (crates/zeno-crypto/src/lib.rs), and the bincode
-- of a value, `zeno_codec::encode`, are fields of `Externals`; encoding these values does not fail.
pub mod Signing
mod Tests
use Prim.Native.String.{String, len}
use text.Mathlib.Text.{◌==◌ as str_eq}
use zeno_final_code.Common.{
  ℕ, Bool, false, not, ◌&&◌, ◌||◌, Option, none, some, length, ltb, ◌==◌, is_some,
}
use zeno_final_code.Common.Results.{Result, ok, ◌>>=◌, ◌>>◌, fail_if, ok_or}
use zeno_final_code.Hash.{Bytes}
use zeno_final_code.Types.{
  EvmTransaction, TransactionBody, Transaction, Vote, VoteStep, BlockHeader, Block,
}

pub data SigningDomain : Type 0 where
  transaction block_proposal consensus_vote : SigningDomain

pub record Externals : Type 0 where
  pub sign : SigningDomain → Bytes → Bytes → Option Bytes
  pub verify : SigningDomain → Bytes → Bytes → Bytes → Bool
  pub derive_address : Bytes → Option ℕ
  pub encode_transaction : Transaction → Bytes
  pub encode_body : TransactionBody → Bytes
  pub encode_header : BlockHeader → Bytes
  pub encode_vote : ℕ → ℕ → VoteStep → ℕ → ℕ → Bytes

abbrev pub max_memo_bytes : ℕ
max_memo_bytes = 256

abbrev pub max_transaction_size : ℕ
max_transaction_size = 1048576

abbrev pub max_gas_limit : ℕ
max_gas_limit = 30000000

pub data TransactionError : Type 0 where
  zero_amount zero_fee memo_too_large wrong_chain_id insufficient_balance : TransactionError
  sender_mismatch invalid_signature : TransactionError
  expired : ℕ → TransactionError
  invalid_nonce : ℕ → ℕ → TransactionError
  transaction_too_large : ℕ → TransactionError
  gas_limit_exceeded : ℕ → ℕ → TransactionError

abbrev pub has_memo_too_large : Option String → Bool
has_memo_too_large none = false
has_memo_too_large (some memo) = ltb max_memo_bytes (len memo)

abbrev pub check_expiry : Option ℕ → ℕ → Result TransactionError (Unit {0})
check_expiry none height = ok tt
check_expiry (some until) height = fail_if (ltb until height) (expired until)

abbrev pub check_gas : Option EvmTransaction → Result TransactionError (Unit {0})
check_gas none = ok tt
check_gas (some evm) =
    fail_if (evm.gas_limit == 0 || ltb max_gas_limit evm.gas_limit)
      (gas_limit_exceeded max_gas_limit evm.gas_limit)

-- The checks of `verify_transaction` that read the body alone.
unfoldable pub check_body : String → TransactionBody → ℕ → Result TransactionError (Unit {0})
check_body chain_id body height = do
  fail_if (body.amount == 0 && not (is_some body.evm)) zero_amount
  fail_if (is_some body.evm && ltb body.fee 10) zero_fee
  fail_if (body.fee == 0) zero_fee
  fail_if (not (str_eq body.chain_id chain_id)) wrong_chain_id
  fail_if (has_memo_too_large body.memo) memo_too_large
  check_expiry body.valid_until height
  check_gas body.evm

module _ (x : Externals) where
  -- `sender_from_public_key`.
  abbrev pub sender_from_public_key : Bytes → Result TransactionError ℕ
  sender_from_public_key key = ok_or (x.derive_address key) sender_mismatch

  unfoldable pub verify_transaction : String → Transaction → ℕ → Result TransactionError Bytes
  verify_transaction chain_id tx height = do
    let size = length (x.encode_transaction tx)
    fail_if (ltb max_transaction_size size) (transaction_too_large size)
    check_body chain_id tx.body height
    derived ← sender_from_public_key tx.public_key
    fail_if (not (derived == tx.body.sender)) sender_mismatch
    let bytes = x.encode_body tx.body
    fail_if (not (x.verify transaction bytes tx.public_key tx.signature)) invalid_signature
    ok bytes

  unfoldable pub sign_transaction : TransactionBody → Bytes → Bytes → Option Transaction
  sign_transaction body public_key secret_key =
      elim (x.sign transaction (x.encode_body body) secret_key) [
        | none ↦ none
        | some signature ↦
            some (record { body = body; public_key = public_key; signature = signature })
      ]

  -- `verify_block`: the proposer's key and its signature of the header.
  unfoldable pub verify_block : Block → Bool
  verify_block b = elim (x.derive_address b.proposer_public_key) [
    | none ↦ false
    | some derived ↦
        derived == b.header.proposer
        && x.verify block_proposal (x.encode_header b.header) b.proposer_public_key
            b.proposer_signature
  ]

  abbrev pub vote_bytes : Vote → Bytes
  vote_bytes v = x.encode_vote v.height v.round v.step v.block_hash v.validator_address

  unfoldable pub sign_vote : Vote → Bytes → Option Vote
  sign_vote v secret_key = elim (x.sign consensus_vote (vote_bytes v) secret_key) [
    | none ↦ none
    | some signature ↦ some (record v { signature = signature })
  ]

  unfoldable pub verify_vote : Vote → Bool
  verify_vote v = elim (x.derive_address v.public_key) [
    | none ↦ false
    | some address ↦
        address == v.validator_address
        && x.verify consensus_vote (vote_bytes v) v.public_key v.signature
  ]
