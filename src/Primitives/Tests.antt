-- ===== src/Primitives/Tests.antt =====
-- A transaction and a vote, signed with stand-ins for the scheme and the encodings.
use zeno_final_code.Common.{◌≡◌, refl, none, some, true, [], ◌∷◌, arith, length}
use zeno_final_code.Common.Results.{ok}
use zeno_final_code.Hash.{Bytes}
use zeno_final_code.Types.{TransactionBody, Transaction, Vote, VoteStep}
use zeno_final_code.Primitives.{
  Externals, verify_transaction, sign_transaction, check_body, sign_vote, verify_vote,
}
use zeno_final_code.Primitives.Signing.{
  IsKeyPair, sign_transaction-verify_transaction, sign_vote-verify_vote,
}

-- The signature is the secret key, and the length of a public key is its address.
abbrev toy : Externals
toy = record {
  sign = λ domain bytes key. some key;
  verify = λ domain bytes key signature. true;
  derive_address = λ key. some (length key);
  encode_transaction = λ tx. tx.signature;
  encode_body = λ body. body.amount ∷ [];
  encode_header = λ header. [];
  encode_vote = λ h r s b a. h ∷ r ∷ [];
}

abbrev key : Bytes
key = 7 ∷ []

toy-IsKeyPair : IsKeyPair toy key key
toy-IsKeyPair domain bytes signature h = refl

abbrev body : TransactionBody
body = record {
  chain_id = "zeno";
  sender = 1;
  recipient = 2;
  amount = 5;
  nonce = 0;
  fee = 10;
  evm = none;
  memo = none;
  valid_until = some 20;
}

abbrev signed : Transaction
signed = record { body = body; public_key = key; signature = key }

sign_transaction-verify_transaction_example : verify_transaction toy "zeno" signed 3 ≡ ok (5 ∷ [])
unfolding sign_transaction check_body
sign_transaction-verify_transaction_example =
    sign_transaction-verify_transaction toy "zeno" 3 body key key signed toy-IsKeyPair refl refl
      refl (omega arith)

abbrev vote : Vote
vote = record {
  height = 1;
  round = 0;
  step = VoteStep.prevote;
  block_hash = 5;
  validator_address = 1;
  public_key = key;
  signature = [];
}

sign_vote-verify_vote_example : verify_vote toy (record vote { signature = key }) ≡ true
unfolding sign_vote
sign_vote-verify_vote_example =
    sign_vote-verify_vote toy vote (record vote { signature = key }) key toy-IsKeyPair refl refl
