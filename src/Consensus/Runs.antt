-- ===== src/Consensus/Runs.antt =====
-- The runs of a node: proposals that are accepted, votes that arrive, rounds that time out, blocks
-- that are committed and the log that is compacted, in any order.
use zeno_final_code.Consensus.{
  adopt_proposal, replay, ConsensusSnapshot, ConsensusWalEntry, RoundState, Node, replay_all,
  recover_snapshot, append_wal, advance_height, advance_round,
}
use zeno_final_code.Consensus.Durability.{
  append_wal-IsDurable, advance_round-IsDurable, advance_height-IsDurable,
}
use zeno_final_code.Common.{
  some, inl, inr, Option-cases, ℕ, ◌+◌, ◌≤◌, ◌<◌, ◌≡◌, refl, none, false, List, [], ◌∷◌, u64_max,
  u32_max,
}
use zeno_final_code.Types.{Block, Vote, Validator, EconomicsParams, StakingState}
use zeno_final_code.Primitives.{Externals}
use zeno_final_code.Consensus.Compaction.{compact_consensus_wal, compact_consensus_wal-IsDurable}
use zeno_final_code.Consensus.Votes.{record_vote}
use zeno_final_code.Consensus.Recovery.{view, IsDurable}
use zeno_final_code.Consensus.Voting.{record_vote-IsDurable}

-- `RoundState::default()` at the height and the round of a snapshot.
abbrev pub fresh_round : ConsensusSnapshot → RoundState
fresh_round s = record {
  height = s.height;
  round = s.round;
  proposal = none;
  prevotes = [];
  precommits = [];
  votes = [];
  evidence = [];
  processed_evidence = [];
  prevoted = false;
  precommitted = false;
  locked_round = none;
  locked_block = none;
  valid_round = none;
  valid_block = none;
}

-- A node that starts with an empty log.
abbrev pub fresh_node : ConsensusSnapshot → StakingState → Node
fresh_node s staking = record { state = fresh_round s; snapshot = s; wal = []; staking = staking }

pub data Action : Type 0 where
  adopt : Block → Action
  receive : Vote → Action
  time_out : Action
  commit : ℕ → ℕ → ℕ → Action
  compact : ℕ → Action

module _ (x : Externals) (hash_of : Block → ℕ) (validators : List Validator)
    (economics : EconomicsParams) where
  abbrev pub act : Action → Node → Node
  act (adopt b) n = elim n.state.proposal [
    | none ↦ adopt_proposal hash_of n.state.height n.state.round b n
    | some existing ↦ n
  ]
  act (receive vote) n = (record_vote x hash_of validators economics vote n).1
  act time_out n = advance_round n
  act (commit height round hash) n =
      advance_height (height + 1)
        (append_wal (ConsensusWalEntry.commit_finalized height round hash) n)
  act (compact below) n = record n { wal = (compact_consensus_wal below n.wal).1 }

  abbrev pub run : List Action → Node → Node
  run [] n = n
  run (a ∷ actions) n = run actions (act a n)

  -- No round and no height is the last one of its word, no committed block is below the height of
  -- the node, and no compaction reaches above it.
  abbrev pub Fits : List Action → Node → Type 0
  Fits [] n = Unit
  Fits (adopt b ∷ actions) n = Fits actions (act (adopt b) n)
  Fits (receive vote ∷ actions) n = Fits actions (act (receive vote) n)
  Fits (time_out ∷ actions) n = (n.state.round < u32_max) × Fits actions (act time_out n)
  Fits (commit height round hash ∷ actions) n =
      (n.state.height ≤ height)
      × (height < u64_max)
      × Fits actions (act (commit height round hash) n)
  Fits (compact below ∷ actions) n = (below ≤ n.state.height) × Fits actions (act (compact below) n)

  adopt-IsDurable : (b : Block) (n : Node) → IsDurable n → IsDurable (act (adopt b) n)
  unfolding replay
  adopt-IsDurable b n w = elim (Option-cases n.state.proposal) [
    | inl q ↦
        rw (act, q)
          (append_wal-IsDurable n
            (ConsensusWalEntry.proposal_accepted n.state.height n.state.round (hash_of b))
            (record n.state { proposal = some b }) w refl refl tt refl)
    | inr (existing, q) ↦ rw (act, q) w
  ]

  run-IsDurable :
      (actions : List Action) (n : Node) → IsDurable n → Fits actions n → IsDurable (run actions n)
  run-IsDurable [] n w f = w
  run-IsDurable (adopt b ∷ actions) n w f =
      run-IsDurable actions (act (adopt b) n) (adopt-IsDurable b n w) f
  run-IsDurable (receive vote ∷ actions) n w f =
      run-IsDurable actions (act (receive vote) n)
        (record_vote-IsDurable x hash_of validators economics vote n w) f
  run-IsDurable (time_out ∷ actions) n w f =
      run-IsDurable actions (act time_out n) (advance_round-IsDurable n w f.0) f.1
  run-IsDurable (commit height round hash ∷ actions) n w f =
      run-IsDurable actions (act (commit height round hash) n)
        (advance_height-IsDurable n height round hash w f.0 f.1) f.2
  run-IsDurable (compact below ∷ actions) n w f =
      run-IsDurable actions (act (compact below) n) (compact_consensus_wal-IsDurable below n w f.0)
        f.1

  fresh_node-IsDurable :
      (s : ConsensusSnapshot) (staking : StakingState) → IsDurable (fresh_node s staking)
  unfolding recover_snapshot replay_all
  fresh_node-IsDurable s staking = record { persisted = refl; bounded = tt; recovered = refl }

  -- After any sequence of accepted proposals, votes, timeouts, commits and compactions from an
  -- empty log, where no round and no height is the last of its word, no committed block is below
  -- the node's height and no compaction reaches above it, recovery from the stored snapshot and
  -- the log finds the node's height, its round, and the rounds and blocks on which it is locked
  -- and which it holds valid.
  pub recover_snapshot-run :
      (actions : List Action) (s : ConsensusSnapshot) (staking : StakingState)
      → Fits actions (fresh_node s staking)
      → let n = run actions (fresh_node s staking) in
        recover_snapshot n.snapshot n.wal ≡ view n.state
  recover_snapshot-run actions s staking f =
      (run-IsDurable actions (fresh_node s staking) (fresh_node-IsDurable s staking) f).recovered
