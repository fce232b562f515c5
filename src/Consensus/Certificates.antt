-- ===== src/Consensus/Certificates.antt =====
-- `validate_commit_certificate` (crates/zeno-consensus/src/lib.rs).
use zeno_final_code.Common.{
  subst, ℕ, ◌≤◌, ◌≡◌, refl, ◌↔◌, inl, inr, Bool, true, false, not, ◌||◌, List, [], ◌∷◌, length, ltb,
  ◌==◌, if◌then◌else◌, arith, All,
}
use zeno_final_code.Common.Results.{Result-cases, Result, ok, err}
use zeno_final_code.TreeMap
use zeno_final_code.TreeMap.{TreeMap, nat_key}
use zeno_final_code.Types.{Block, Vote, VoteStep, Validator, EconomicsParams, StakingState}
use zeno_final_code.Primitives.{Externals, verify_vote}
use zeno_final_code.Consensus.Votes.{quorum}

pub record CommitCertificate : Type 0 where
  pub block_hash : ℕ
  pub height : ℕ
  pub round : ℕ
  pub votes : List Vote

pub data CertificateError : Type 0 where
  block_hash_mismatch height_mismatch round_mismatch invalid_vote : CertificateError
  vote_round_mismatch not_precommit vote_hash_mismatch no_quorum : CertificateError

abbrev pub is_precommit : VoteStep → Bool
is_precommit VoteStep.prevote = false
is_precommit VoteStep.precommit = true

-- The addresses that sign the votes, added to a set.
unfoldable pub add_signers : List Vote → TreeMap ℕ (Unit {0}) → TreeMap ℕ (Unit {0})
add_signers [] set = set
add_signers (v ∷ votes) set = add_signers votes (TreeMap.insert v.validator_address tt set)

module _ (x : Externals) (hash_of : Block → ℕ) (validators : List Validator)
    (economics : EconomicsParams) where
  -- The loop over the certificate's votes, on the set of their signers.
  unfoldable pub check_votes :
      CommitCertificate
      → List Vote
      → TreeMap ℕ (Unit {0})
      → Result CertificateError (TreeMap ℕ (Unit {0}))
  check_votes c [] unique = ok unique
  check_votes c (v ∷ votes) unique =
      let rest = check_votes c votes (TreeMap.insert v.validator_address tt unique) in
      if not (verify_vote x v)
      then err invalid_vote
      else if not (v.height == c.height) || not (v.round == c.round)
      then err vote_round_mismatch
      else if not (is_precommit v.step)
      then err not_precommit
      else if not (v.block_hash == c.block_hash)
      then err vote_hash_mismatch
      else rest

  unfoldable pub validate_commit_certificate :
      Block → CommitCertificate → StakingState → Result CertificateError (Unit {0})
  validate_commit_certificate block c staking =
      if not (c.block_hash == hash_of block)
      then err block_hash_mismatch
      else if not (c.height == block.header.height)
      then err height_mismatch
      else if not (c.round == block.header.round)
      then err round_mismatch
      else elim (check_votes c c.votes []) [
        | err e ↦ err e
        | ok unique ↦
            if ltb (length unique) (quorum x hash_of validators economics staking)
            then err no_quorum
            else ok tt
      ]

  -- A vote that verifies, for the certificate's block, at its height and round.
  abbrev pub Supports : CommitCertificate → Vote → Type 0
  Supports c v =
      (verify_vote x v ≡ true)
      × (v.height ≡ c.height)
      × (v.round ≡ c.round)
      × (v.step ≡ VoteStep.precommit)
      × (v.block_hash ≡ c.block_hash)

  pub record IsCertificate (block : Block) (c : CommitCertificate) (staking : StakingState)
      : Type 0 where
    pub hash : c.block_hash ≡ hash_of block
    pub height : c.height ≡ block.header.height
    pub round : c.round ≡ block.header.round
    pub votes : All (Supports c) c.votes
    pub signed : quorum x hash_of validators economics staking ≤ length (add_signers c.votes [])

  precommit-cases : (s : VoteStep) → is_precommit s ≡ true → s ≡ VoteStep.precommit
  precommit-cases VoteStep.prevote h = cc
  precommit-cases VoteStep.precommit h = refl

  check_votes-ok :
      (c : CommitCertificate) (votes : List Vote) (set : TreeMap ℕ (Unit {0}))
      → All (Supports c) votes
      → check_votes c votes set ≡ ok (add_signers votes set)
  unfolding check_votes add_signers
  check_votes-ok c [] set h = refl
  check_votes-ok c (v ∷ votes) set ((a, b, r, s, q), h) =
      ground (arith, check_votes-ok c votes (TreeMap.insert v.validator_address tt set) h)

  check_votes-inv :
      (c : CommitCertificate) (votes : List Vote) (set out : TreeMap ℕ (Unit {0}))
      → check_votes c votes set ≡ ok out
      → All (Supports c) votes × (out ≡ add_signers votes set)
  unfolding check_votes add_signers
  check_votes-inv c [] set out h = (tt, ground arith)
  check_votes-inv c (v ∷ votes) set out h =
      let more = TreeMap.insert v.validator_address tt set in
      let (a, b, r, s, q, rest) : (verify_vote x v ≡ true)
          × (v.height ≡ c.height)
          × (v.round ≡ c.round)
          × (is_precommit v.step ≡ true)
          × (v.block_hash ≡ c.block_hash)
          × (check_votes c votes more ≡ ok out) =
        ground arith in
      let (supported, same) = check_votes-inv c votes more out rest in
      (((a, b, r, precommit-cases v.step s, q), supported), same)

  -- A certificate is accepted just if it names the block's hash, height and round, each of its votes
  -- verifies under the vote's own key and is a precommit for that block, height and round, and the
  -- number of their distinct signers reaches the quorum; whether the signers are validators plays no
  -- part.
  pub validate_commit_certificate_iff :
      (block : Block) (c : CommitCertificate) (staking : StakingState)
      → (validate_commit_certificate block c staking ≡ ok tt) ↔ IsCertificate block c staking
  unfolding validate_commit_certificate
  validate_commit_certificate_iff block c staking = (
    λ h. elim (Result-cases (check_votes c c.votes [])) [
      | inl (e, bad) ↦ absurd (ground (arith, bad))
      | inr (set, fine) ↦
          let (supported, same) = check_votes-inv c c.votes [] set fine in
          let (hash, height, round, signed) : (c.block_hash ≡ hash_of block)
              × (c.height ≡ block.header.height)
              × (c.round ≡ block.header.round)
              × (quorum x hash_of validators economics staking ≤ length set) =
            ground (arith, fine) in
          record {
            hash = hash;
            height = height;
            round = round;
            votes = supported;
            signed =
                subst (λ t. quorum x hash_of validators economics staking ≤ length t) same signed;
          }
    ],
    λ w.
        let fine = check_votes-ok c c.votes [] w.votes in
        ground (arith, fine, w.hash, w.height, w.round, w.signed),
  )
