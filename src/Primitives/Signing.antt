-- ===== src/Primitives/Signing.antt =====
-- What is signed is accepted: transactions and votes.
use Prim.Native.String.{String}
use zeno_final_code.Common.{ℕ, ◌≤◌, ◌≡◌, inl, inr, true, some, length, arith, Option-cases}
use zeno_final_code.Common.Results.{ok}
use zeno_final_code.Hash.{Bytes}
use zeno_final_code.Types.{Transaction, TransactionBody, Vote}
use zeno_final_code.Primitives.{
  Externals, SigningDomain, max_transaction_size, verify_transaction, sign_transaction, check_body,
  sign_vote, verify_vote, transaction, consensus_vote,
}

-- The signature scheme is correct for a pair of keys: what the one signs, the other verifies.
abbrev pub IsKeyPair : Externals → Bytes → Bytes → Type 0
IsKeyPair x public_key secret_key =
    (domain : SigningDomain) (bytes signature : Bytes)
    → x.sign domain bytes secret_key ≡ some signature
    → x.verify domain bytes public_key signature ≡ true

-- A body that passes the checks of the body, signed with a key pair whose public key derives the
-- sender, makes a transaction that is accepted, where its encoding is not too large.
pub sign_transaction-verify_transaction :
    (x : Externals) (chain_id : String) (height : ℕ) (body : TransactionBody)
    (public_key secret_key : Bytes) (tx : Transaction)
    → IsKeyPair x public_key secret_key
    → x.derive_address public_key ≡ some body.sender
    → check_body chain_id body height ≡ ok tt
    → sign_transaction x body public_key secret_key ≡ some tx
    → length (x.encode_transaction tx) ≤ max_transaction_size
    → verify_transaction x chain_id tx height ≡ ok (x.encode_body body)
unfolding sign_transaction verify_transaction
sign_transaction-verify_transaction x chain_id height body pk sk tx pair derived checked signed
      small =
    elim (Option-cases (x.sign transaction (x.encode_body body) sk)) [
      | inl e ↦ absurd (ground (arith, e))
      | inr (s, e) ↦ ground (arith, e, pair transaction (x.encode_body body) s e)
    ]

-- A vote signed with a key pair whose public key derives the voter's address is accepted.
pub sign_vote-verify_vote :
    (x : Externals) (vote signed : Vote) (secret_key : Bytes)
    → IsKeyPair x vote.public_key secret_key
    → x.derive_address vote.public_key ≡ some vote.validator_address
    → sign_vote x vote secret_key ≡ some signed
    → verify_vote x signed ≡ true
unfolding sign_vote verify_vote
sign_vote-verify_vote x vote signed sk pair derived h =
    elim (Option-cases (
      x.sign consensus_vote
        (x.encode_vote vote.height vote.round vote.step vote.block_hash vote.validator_address)
        sk)) [
          | inl e ↦ absurd (ground (arith, e))
          | inr (s, e) ↦ ground (arith, e, derived, pair consensus_vote _ s e)
        ]
