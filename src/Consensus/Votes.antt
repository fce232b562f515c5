-- ===== src/Consensus/Votes.antt =====
-- `record_vote` and what it reads: the active validators, the quorum, the proposer
-- (crates/zeno-consensus/src/lib.rs).
use zeno_final_code.Common.{
  ℕ, ◌+◌, ◌*◌, ◌/◌, ◌%◌, ◌^◌, Bool, true, false, not, ◌&&◌, ◌||◌, Option, none, some, List, [], ◌∷◌,
  ◌++◌, length, leb, ◌==◌, if◌then◌else◌, any, unwrap_or, get_elem?,
}
use zeno_final_code.Common.Results.{Result, ok, err}
use zeno_final_code.TreeMap
use zeno_final_code.TreeMap.{TreeMap, nat_key}
use zeno_final_code.Types.{
  Block, Vote, VoteStep, Evidence, Validator, StakingState, EconomicsParams,
}
use zeno_final_code.Primitives.{Externals, verify_vote}
use zeno_final_code.Staking.{ensure_validators}
use zeno_final_code.Staking
use zeno_final_code.Staking.Epoch.{effective_validator_set, note_liveness}
use zeno_final_code.Consensus.{ConsensusWalEntry, Node, append_wal}

pub data VoteError : Type 0 where
  invalid_vote unknown_validator : VoteError

module _ (x : Externals) (hash_of : Block → ℕ) (validators : List Validator)
    (economics : EconomicsParams) where
  -- `validators_by_address`.
  unfoldable pub by_address : List Validator → TreeMap ℕ Validator → TreeMap ℕ Validator
  by_address [] m = m
  by_address (v ∷ vs) m = by_address vs (TreeMap.insert v.address v m)

  unfoldable pub known : TreeMap ℕ Validator → List ℕ → List Validator
  known m [] = []
  known m (a ∷ addresses) =
      let rest = known m addresses in elim (TreeMap.get a m) [ none ↦ rest | some v ↦ v ∷ rest ]

  -- `active_validators`, on the staking state in the store.
  unfoldable pub active_validators : StakingState → List Validator
  active_validators staking =
      elim (effective_validator_set economics (ensure_validators validators staking)) [
        | [] ↦ validators
        | a ∷ addresses ↦ known (by_address validators []) (a ∷ addresses)
      ]

  unfoldable pub quorum : StakingState → ℕ
  quorum staking = length (active_validators staking) * 2 / 3 + 1

  -- `proposer_for`; none is the panic of a remainder by zero.
  unfoldable pub proposer_for : ℕ → ℕ → StakingState → Option Validator
  proposer_for height round staking = elim (active_validators staking) [
    | [] ↦ none
    | v ∷ vs ↦ get_elem? (v ∷ vs) ((height + round) % 2 ^ 64 % length (v ∷ vs))
  ]

  abbrev pub same_step : VoteStep → VoteStep → Bool
  same_step VoteStep.prevote VoteStep.prevote = true
  same_step VoteStep.prevote VoteStep.precommit = false
  same_step VoteStep.precommit VoteStep.prevote = false
  same_step VoteStep.precommit VoteStep.precommit = true

  -- The votes that conflict with `vote`: the same validator's, of the same step, for another block.
  abbrev pub conflicts : Vote → Vote → Bool
  conflicts vote existing =
      existing.height == vote.height
      && existing.round == vote.round
      && same_step existing.step vote.step
      && existing.validator_address == vote.validator_address
      && not (existing.block_hash == vote.block_hash)

  abbrev pub is_processed : Vote → ℕ × ℕ × ℕ → Bool
  is_processed vote (address, height, round) =
      address == vote.validator_address && height == vote.height && round == vote.round

  -- The branch of `record_vote` for a conflicting vote.
  unfoldable pub note_conflict : Vote → Node → Node
  note_conflict vote n =
      let seen = any (is_processed vote) n.state.processed_evidence in
      let found : Evidence = record {
        validator_address = vote.validator_address;
        height = vote.height;
        round = vote.round;
        reason = "duplicate vote";
      } in
      append_wal
        (ConsensusWalEntry.evidence_recorded vote.height vote.round vote.validator_address
          "duplicate vote")
        (record n {
          state = record n.state {
            processed_evidence =
                if seen
                then n.state.processed_evidence
                else (vote.validator_address, vote.height, vote.round) ∷ n.state.processed_evidence;
            evidence = if seen then n.state.evidence else n.state.evidence ++ found ∷ [];
          };
        })

  -- `entry(hash).or_default().insert(address)`.
  abbrev pub add_voter : ℕ → ℕ → TreeMap ℕ (TreeMap ℕ (Unit {0})) → TreeMap ℕ (TreeMap ℕ (Unit {0}))
  add_voter hash address m =
      TreeMap.insert hash (TreeMap.insert address tt (unwrap_or (TreeMap.get hash m) [])) m

  abbrev pub voters : ℕ → TreeMap ℕ (TreeMap ℕ (Unit {0})) → ℕ
  voters hash m = length (unwrap_or (TreeMap.get hash m) [])

  -- The lock that a polka for the node's own proposal sets, and its two entries.
  unfoldable pub observe_polka : Vote → Node → Node
  observe_polka vote n = elim n.state.proposal [
    | none ↦ n
    | some block ↦
        if hash_of block == vote.block_hash
        then append_wal (ConsensusWalEntry.locked vote.height vote.round vote.block_hash block) (
            append_wal
              (ConsensusWalEntry.polka_observed vote.height vote.round vote.block_hash block)
              (record n {
                state = record n.state {
                  valid_round = some vote.round;
                  valid_block = some block;
                  locked_round = some vote.round;
                  locked_block = some block;
                };
              }))
        else n
  ]

  -- The part of `record_vote` after the vote is found to be new: its result is what to precommit
  -- and what to finalize.
  unfoldable pub count_vote : Vote → Node → (Option ℕ × Option ℕ) × Node
  count_vote vote n =
      let logged =
        append_wal
          (ConsensusWalEntry.vote_recorded vote.height vote.round vote.step vote.block_hash
            vote.validator_address)
          n in
      elim vote.step [
        | VoteStep.prevote ↦
            let votes = add_voter vote.block_hash vote.validator_address n.state.prevotes in
            let counted : Node = record logged {
              state = record n.state { votes = n.state.votes ++ vote ∷ []; prevotes = votes };
            } in
            let reached = leb (quorum n.staking) (voters vote.block_hash votes) in
            if reached
            then (
              (some vote.block_hash, none),
              if vote.block_hash == 0 then counted else observe_polka vote counted,
            )
            else ((none, none), counted)
        | VoteStep.precommit ↦
            let votes = add_voter vote.block_hash vote.validator_address n.state.precommits in
            let counted : Node = record logged {
              state = record n.state { votes = n.state.votes ++ vote ∷ []; precommits = votes };
            } in
            let reached = leb (quorum n.staking) (voters vote.block_hash votes) in
            (
              (none, if reached && not (vote.block_hash == 0) then some vote.block_hash else none),
              counted,
            )
      ]

  -- `note_validator_liveness`.
  unfoldable pub note_validator_liveness : ℕ → Node → Staking.Result (Unit {0}) × Node
  note_validator_liveness address n =
      let noted = note_liveness address (ensure_validators validators n.staking) in
      elim noted.0 [
        | Staking.err e ↦ (Staking.err e, n)
        | Staking.ok u ↦ (Staking.ok tt, record n { staking = noted.1 })
      ]

  unfoldable pub record_vote : Vote → Node → Result VoteError (Option ℕ × Option ℕ) × Node
  record_vote vote n =
      let noted = note_validator_liveness vote.validator_address n in
      if not (verify_vote x vote) then (err invalid_vote, n) else elim noted.0 [
        | Staking.err e ↦ (err unknown_validator, n)
        | Staking.ok u ↦
            if not (vote.height == n.state.height) || not (vote.round == n.state.round)
            then (ok (none, none), noted.1)
            else if any (conflicts vote) n.state.votes
            then (ok (none, none), note_conflict vote noted.1)
            else let counted = count_vote vote noted.1 in (ok counted.0, counted.1)
      ]
