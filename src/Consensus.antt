-- ===== src/Consensus.antt =====
-- The consensus engine's state and log (crates/zeno-consensus/src/lib.rs): votes, rounds, heights
-- and the recovery from the write-ahead log. `Node` is what a method reads and writes: `RoundState`
-- under its lock, and the parts of the store. The store does not fail. `Block::hash`, a digest of an
-- encoding, is the parameter `hash_of`; digests are numbers, and the nil hash is 0.
pub mod Votes
pub mod Recovery
pub mod Durability
pub mod Voting
pub mod Runs
pub mod Timeouts
pub mod Compaction
pub mod Certificates
pub mod Engine
pub mod Finalizing
pub mod Proposing
pub mod Keeping
pub mod Messages
pub mod Protection
pub mod Restarts
pub mod Imports
mod Tests
use Prim.Native.String.{String}
use zeno_final_code.Common.{
  ℕ, ◌+◌, ◌*◌, ◌/◌, ◌%◌, ◌^◌, min, Bool, true, false, not, ◌&&◌, ◌||◌, Option, none, some, List, [],
  ◌∷◌, ◌++◌, length, ltb, leb, ◌==◌, if◌then◌else◌, any, unwrap_or, u64_max, saturating_add,
  saturating_mul, get_elem?,
}
use zeno_final_code.Common.Results.{Result, ok, err}
use zeno_final_code.TreeMap
use zeno_final_code.TreeMap.{TreeMap, nat_key}
use zeno_final_code.Types.{
  Block, Vote, VoteStep, Evidence, Validator, StakingState, EconomicsParams,
}
use zeno_final_code.Primitives.{Externals, verify_vote}
use zeno_final_code.Staking.{ensure_validators}
use zeno_final_code.Staking
use zeno_final_code.Staking.Epoch.{effective_validator_set, note_liveness}

pub record ConsensusSnapshot : Type 0 where
  pub height : ℕ
  pub round : ℕ

pub data ConsensusWalEntry : Type 0 where
  snapshot_persisted : ℕ → ℕ → ConsensusWalEntry
  proposal_accepted proposal_broadcast : ℕ → ℕ → ℕ → ConsensusWalEntry
  vote_recorded vote_broadcast : ℕ → ℕ → VoteStep → ℕ → ℕ → ConsensusWalEntry
  commit_finalized : ℕ → ℕ → ℕ → ConsensusWalEntry
  height_advanced : ℕ → ConsensusWalEntry
  round_advanced : ℕ → ℕ → ConsensusWalEntry
  evidence_recorded : ℕ → ℕ → ℕ → String → ConsensusWalEntry
  locked polka_observed : ℕ → ℕ → ℕ → Block → ConsensusWalEntry

-- A set of evidence keys is a list; nothing reads its order.
pub record RoundState : Type 0 where
  pub height : ℕ
  pub round : ℕ
  pub proposal : Option Block
  pub prevotes : TreeMap ℕ (TreeMap ℕ (Unit {0}))
  pub precommits : TreeMap ℕ (TreeMap ℕ (Unit {0}))
  pub votes : List Vote
  pub evidence : List Evidence
  pub processed_evidence : List (ℕ × ℕ × ℕ)
  pub prevoted : Bool
  pub precommitted : Bool
  pub locked_round : Option ℕ
  pub locked_block : Option Block
  pub valid_round : Option ℕ
  pub valid_block : Option Block

pub record RecoveredState : Type 0 where
  pub snapshot : ConsensusSnapshot
  pub locked_round : Option ℕ
  pub locked_block : Option Block
  pub valid_round : Option ℕ
  pub valid_block : Option Block

-- A new height: the round is 0, and no block is locked or valid.
abbrev pub at_height : ℕ → RecoveredState
at_height height = record {
  snapshot = record { height = height; round = 0 };
  locked_round = none;
  locked_block = none;
  valid_round = none;
  valid_block = none;
}

-- The body of the loop in `recover_snapshot`.
unfoldable pub replay : RecoveredState → ConsensusWalEntry → RecoveredState
replay s (ConsensusWalEntry.snapshot_persisted height round) =
    if ltb s.snapshot.height height || height == s.snapshot.height && leb s.snapshot.round round
    then record s { snapshot = record { height = height; round = round } }
    else s
replay s (ConsensusWalEntry.height_advanced next_height) =
    if ltb s.snapshot.height next_height then at_height next_height else s
replay s (ConsensusWalEntry.round_advanced height next_round) =
    if height == s.snapshot.height && ltb s.snapshot.round next_round
    then record s { snapshot = record { height = s.snapshot.height; round = next_round } }
    else s
replay s (ConsensusWalEntry.commit_finalized height round hash) =
    let next_height = saturating_add u64_max height 1 in
    if ltb s.snapshot.height next_height then at_height next_height else s
replay s (ConsensusWalEntry.locked height locked_round hash block) =
    if height == s.snapshot.height
    then record s { locked_round = some locked_round; locked_block = some block }
    else s
replay s (ConsensusWalEntry.polka_observed height valid_round hash block) =
    if height == s.snapshot.height
    then record s { valid_round = some valid_round; valid_block = some block }
    else s
replay s (ConsensusWalEntry.proposal_accepted height round hash) = s
replay s (ConsensusWalEntry.proposal_broadcast height round hash) = s
replay s (ConsensusWalEntry.vote_recorded height round step hash address) = s
replay s (ConsensusWalEntry.vote_broadcast height round step hash address) = s
replay s (ConsensusWalEntry.evidence_recorded height round address reason) = s

unfoldable pub replay_all : RecoveredState → List ConsensusWalEntry → RecoveredState
replay_all s [] = s
replay_all s (e ∷ wal) = replay_all (replay s e) wal

unfoldable pub recover_snapshot : ConsensusSnapshot → List ConsensusWalEntry → RecoveredState
recover_snapshot snapshot wal =
    replay_all
      (record {
        snapshot = snapshot;
        locked_round = none;
        locked_block = none;
        valid_round = none;
        valid_block = none;
      })
      wal

pub record Node : Type 0 where
  pub state : RoundState
  pub snapshot : ConsensusSnapshot
  pub wal : List ConsensusWalEntry
  pub staking : StakingState

-- `append_wal`.
abbrev pub append_wal : ConsensusWalEntry → Node → Node
append_wal e n = record n { wal = n.wal ++ e ∷ [] }

-- `persist_snapshot`, with `current_snapshot`.
abbrev pub persist_snapshot : Node → Node
persist_snapshot n =
    append_wal (ConsensusWalEntry.snapshot_persisted n.state.height n.state.round)
      (record n { snapshot = record { height = n.state.height; round = n.state.round } })

-- What a proposal that is accepted changes: the log and the round's proposal.
abbrev pub adopt_proposal : (Block → ℕ) → ℕ → ℕ → Block → Node → Node
adopt_proposal hash_of height round b n =
    append_wal (ConsensusWalEntry.proposal_accepted height round (hash_of b))
      (record n { state = record n.state { proposal = some b } })

unfoldable pub advance_height : ℕ → Node → Node
advance_height next_height n = append_wal (ConsensusWalEntry.height_advanced next_height) (
    persist_snapshot (record n {
      state = record n.state {
        height = next_height;
        round = 0;
        proposal = none;
        prevotes = [];
        precommits = [];
        votes = [];
        prevoted = false;
        precommitted = false;
        locked_round = none;
        locked_block = none;
        valid_round = none;
        valid_block = none;
      };
    }))

-- `round += 1` wraps in a release build.
unfoldable pub advance_round : Node → Node
advance_round n =
    let next_round = (n.state.round + 1) % 2 ^ 32 in
    append_wal (ConsensusWalEntry.round_advanced n.state.height next_round) (
      persist_snapshot (record n {
        state = record n.state {
          round = next_round;
          proposal = none;
          prevotes = [];
          precommits = [];
          votes = [];
          prevoted = false;
          precommitted = false;
        };
      }))

-- `round_timeout`, in milliseconds: the sum of the two parameters wraps, and a shift by at most 5
-- is never out of range.
unfoldable pub round_timeout : ℕ → ℕ → ℕ → ℕ
round_timeout proposal_timeout_ms vote_timeout_ms round =
    min
      (saturating_mul u64_max ((proposal_timeout_ms + vote_timeout_ms) % 2 ^ 64) (2 ^ min round 5))
      60000
