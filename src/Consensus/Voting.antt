-- ===== src/Consensus/Voting.antt =====
-- Votes keep a node durable, on every branch of `record_vote`.
use zeno_final_code.Common.{
  ◌⊎◌, ℕ, ◌≡◌, refl, inl, inr, not, ◌||◌, some, List, [], ◌∷◌, ◌++◌, ◌==◌, arith, Bool-cases,
  Option-cases, leb, any,
}
use zeno_final_code.Types.{Block, Vote, VoteStep, Validator, EconomicsParams, StakingState}
use zeno_final_code.Primitives.{Externals, verify_vote}
use zeno_final_code.Staking
use zeno_final_code.Staking.{ensure_validators}
use zeno_final_code.Staking.Epoch.{note_liveness}
use zeno_final_code.Consensus.{ConsensusWalEntry, RoundState, Node, replay, append_wal}
use zeno_final_code.Consensus.Votes.{
  add_voter, quorum, voters, conflicts, note_conflict, observe_polka, count_vote,
  note_validator_liveness, record_vote,
}
use zeno_final_code.Consensus.Recovery.{IsDurable}
use zeno_final_code.Consensus.Durability.{append_wal-IsDurable, restake-IsDurable}

VoteStep-cases : (s : VoteStep) → (s ≡ VoteStep.prevote) ⊎ (s ≡ VoteStep.precommit)
VoteStep-cases VoteStep.prevote = inl refl
VoteStep-cases VoteStep.precommit = inr refl

Result-cases :
    (r : Staking.Result (Unit {0}))
    → ((e : Staking.StateError) × (r ≡ Staking.err e)) ⊎ (r ≡ Staking.ok tt)
Result-cases (Staking.err e) = inl (e, refl)
Result-cases (Staking.ok u) = inr refl

module _ (x : Externals) (hash_of : Block → ℕ) (validators : List Validator)
    (economics : EconomicsParams) where
  observe_polka-IsDurable :
      (vote : Vote) (n : Node)
      → vote.height ≡ n.state.height
      → IsDurable n
      → IsDurable (observe_polka x hash_of validators economics vote n)
  unfolding observe_polka replay
  observe_polka-IsDurable vote n h w = elim (Option-cases n.state.proposal) [
    | inl e ↦ rw (e, observe_polka) w
    | inr (block, e) ↦ elim (Bool-cases (hash_of block == vote.block_hash)) [
      | inr f ↦ rw (e, observe_polka, f) w
      | inl f ↦
          let polka : RoundState = record n.state {
            valid_round = some vote.round;
            valid_block = some block;
          } in
          let m =
            append_wal
              (ConsensusWalEntry.polka_observed vote.height vote.round vote.block_hash block)
              (record n { state = polka }) in
          rw (e, observe_polka, f)
            (append_wal-IsDurable m
              (ConsensusWalEntry.locked vote.height vote.round vote.block_hash block)
              (record polka { locked_round = some vote.round; locked_block = some block })
              (append_wal-IsDurable n
                (ConsensusWalEntry.polka_observed vote.height vote.round vote.block_hash block)
                polka w refl refl (omega (arith, h)) (ground (arith, h)))
              refl refl (omega (arith, h)) (ground (arith, h)))
    ]
  ]

  count_vote-IsDurable :
      (vote : Vote) (n : Node)
      → vote.height ≡ n.state.height
      → IsDurable n
      → IsDurable (count_vote x hash_of validators economics vote n).1
  unfolding count_vote replay
  count_vote-IsDurable vote n h w = elim (VoteStep-cases vote.step) [
    | inl e ↦
        let votes =
          add_voter x hash_of validators economics vote.block_hash vote.validator_address
            n.state.prevotes in
        let t : RoundState = record n.state {
          votes = n.state.votes ++ vote ∷ [];
          prevotes = votes;
        } in
        let logged =
          ConsensusWalEntry.vote_recorded vote.height vote.round vote.step vote.block_hash
            vote.validator_address in
        let counted = append_wal-IsDurable n logged t w refl refl tt refl in
        elim (Bool-cases (
          leb (quorum x hash_of validators economics n.staking)
            (voters x hash_of validators economics vote.block_hash votes))) [
              | inr few ↦ rw (e, count_vote, few) counted
              | inl reached ↦ elim (Bool-cases (vote.block_hash == 0)) [
                | inl nil ↦ rw (e, count_vote, reached, nil) counted
                | inr block ↦
                    rw (e, count_vote, reached, block)
                      (observe_polka-IsDurable vote (append_wal logged (record n { state = t })) h
                        counted)
              ]
            ]
    | inr e ↦
        let votes =
          add_voter x hash_of validators economics vote.block_hash vote.validator_address
            n.state.precommits in
        let t : RoundState = record n.state {
          votes = n.state.votes ++ vote ∷ [];
          precommits = votes;
        } in
        rw (e, count_vote)
          (append_wal-IsDurable n
            (ConsensusWalEntry.vote_recorded vote.height vote.round vote.step vote.block_hash
              vote.validator_address)
            t w refl refl tt refl)
  ]

  note_validator_liveness-cases :
      (address : ℕ) (n : Node)
      → ((e : Staking.StateError) × (note_validator_liveness x hash_of validators economics address
              n
            ≡ (Staking.err e, n)))
        ⊎ ((s : StakingState) × (note_validator_liveness x hash_of validators economics address n
              ≡ (Staking.ok tt, record n { staking = s })))
  unfolding note_validator_liveness
  note_validator_liveness-cases address n =
      let noted = note_liveness address (ensure_validators validators n.staking) in
      elim (Result-cases noted.0) [
        | inl (e, unknown) ↦ inl (e, rw (unknown, note_validator_liveness) refl)
        | inr fine ↦ inr (noted.1, rw (fine, note_validator_liveness) refl)
      ]

  -- Whatever vote arrives, on every branch and on an error, `record_vote` keeps a durable node
  -- durable.
  pub record_vote-IsDurable :
      (vote : Vote) (n : Node)
      → IsDurable n
      → IsDurable (record_vote x hash_of validators economics vote n).1
  unfolding record_vote note_conflict replay
  record_vote-IsDurable vote n w =
      let late = not (vote.height == n.state.height) || not (vote.round == n.state.round) in
      elim (Bool-cases (verify_vote x vote)) [
        | inr bad ↦ rw (bad, record_vote) w
        | inl good ↦ elim (note_validator_liveness-cases vote.validator_address n) [
          | inl (e, unknown) ↦ rw (good, record_vote, unknown) w
          | inr (s, fine) ↦
              let v = restake-IsDurable n s w in
              elim (Bool-cases late) [
                | inl other ↦ rw (good, record_vote, fine, other, fine) v
                | inr now ↦
                    elim (Bool-cases
                      (any (conflicts x hash_of validators economics vote) n.state.votes)) [
                        | inl conflict ↦
                            rw (good, record_vote, fine, now, conflict, fine)
                              (append_wal-IsDurable (record n { staking = s }) _ _ v refl refl tt
                                refl)
                        | inr fresh ↦
                            rw (good, record_vote, fine, now, fresh, fine)
                              (count_vote-IsDurable vote (record n { staking = s }) (ground arith)
                                v)
                      ]
              ]
        ]
      ]
