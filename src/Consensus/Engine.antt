-- ===== src/Consensus/Engine.antt =====
-- The consensus engine's messages, and the votes that it casts (crates/zeno-consensus/src/lib.rs).
-- `Replica` is all that a handler reads and writes: the node, the rest of the store, the mempool and
-- the messages that were broadcast, the last one first. The store's log, snapshot and staking state
-- are the node's. A handler is a `Step`: what it changed before an error stays changed.
use zeno_final_code.Common.{
  ℕ, Bool, true, false, not, ◌&&◌, ◌||◌, Option, none, some, List, [], ◌∷◌, leb, ◌==◌,
  if◌then◌else◌,
}
use zeno_final_code.Common.Results.{Result, ok, err}
use zeno_final_code.Hash.{Bytes}
use zeno_final_code.Types.{Block, Vote, VoteStep, Validator, EconomicsParams, ConsensusParams}
use zeno_final_code.Primitives.{sign_vote}
use zeno_final_code.Mempool.{Inner}
use zeno_final_code.Execution.{Engine}
use zeno_final_code.Execution.Blocks.{ChainCode, BlockError, hash_of}
use zeno_final_code.Storage.{Store, FinalizedBlock}
use zeno_final_code.Staking
use zeno_final_code.Staking.{ensure_validators}
use zeno_final_code.Staking.Epoch.{is_validator_active}
use zeno_final_code.Consensus.{ConsensusWalEntry, RoundState, Node, append_wal}
use zeno_final_code.Consensus.Votes.{VoteError, note_validator_liveness, record_vote}
use zeno_final_code.Consensus.Certificates.{CertificateError}

pub record Proposal : Type 0 where
  pub height : ℕ
  pub round : ℕ
  pub block : Block
  pub validator_address : ℕ

-- The messages that consensus sends.
pub data NetworkMessage : Type 0 where
  proposal : Proposal → NetworkMessage
  vote : Vote → NetworkMessage
  commit : FinalizedBlock → NetworkMessage

pub record LocalValidator : Type 0 where
  pub validator : Validator
  pub secret_key : Bytes

-- What the engine holds and does not change; the chain's id is the execution engine's.
pub record Config : Type 0 where
  pub code : ChainCode
  pub engine : Engine
  pub validators : List Validator
  pub params : ConsensusParams
  pub economics : EconomicsParams
  pub local_validator : Option LocalValidator

pub record Replica : Type 0 where
  pub node : Node
  pub store : Store
  pub mempool : Inner
  pub sent : List NetworkMessage

pub data ProposalError : Type 0 where
  unexpected_proposer proposer_mismatch public_key_mismatch chain_id_mismatch : ProposalError
  height_mismatch round_mismatch too_many_transactions parent_mismatch : ProposalError
  invalid_signature invalid_transaction sender_underflow sender_mismatch : ProposalError
  empty_body : ProposalError

-- `no_validators` is the panic of `proposer_for` where no validator is active.
pub data EngineError : Type 0 where
  vote_error : VoteError → EngineError
  staking_error : Staking.StateError → EngineError
  certificate_error : CertificateError → EngineError
  block_error : BlockError → EngineError
  proposal_error : ProposalError → EngineError
  sign_failed missing_proposal no_validators : EngineError

abbrev pub Step : Type 0 → Type 0
Step A = Replica → Result EngineError A × Replica

abbrev pub pure : {A : Type 0} → A → Step A
pure a r = (ok a, r)

abbrev pub fail : {A : Type 0} → EngineError → Step A
fail e r = (err e, r)

-- What follows a step that ended as it did.
abbrev pub continue : {A B : Type 0} → Result EngineError A → (A → Step B) → Step B
continue (ok a) next r = next a r
continue (err e) next r = (err e, r)

infixl 5 ◌>>=◌ ◌>>◌
abbrev pub ◌>>=◌ : {A B : Type 0} → Step A → (A → Step B) → Step B
(m >>= next) r = continue (m r).0 next (m r).1

abbrev pub ◌>>◌ : {B : Type 0} → Step (Unit {0}) → Step B → Step B
m >> next = m >>= λ _. next

abbrev pub modify : (Replica → Replica) → Step (Unit {0})
modify f r = (ok tt, f r)

-- `append_wal`, a change of the round's state, and `network.broadcast`.
abbrev pub log : ConsensusWalEntry → Step (Unit {0})
log e = modify λ r. record r { node = append_wal e r.node }

abbrev pub change : (RoundState → RoundState) → Step (Unit {0})
change f = modify λ r. record r { node = record r.node { state = f r.node.state } }

abbrev pub broadcast : NetworkMessage → Step (Unit {0})
broadcast m = modify λ r. record r { sent = m ∷ r.sent }

module _ (c : Config) where
  abbrev pub hash : Block → ℕ
  hash b = hash_of c.code b

  -- `local_validator_active`, of the local validator.
  unfoldable pub local_validator_active : LocalValidator → Replica → Bool
  local_validator_active local r =
      is_validator_active local.validator.address c.economics
        (ensure_validators c.validators r.node.staking)

  -- `note_validator_liveness`.
  unfoldable pub note_liveness : ℕ → Step (Unit {0})
  note_liveness address r =
      let noted =
        note_validator_liveness c.code.externals hash c.validators c.economics address r.node in
      elim noted.0 [
        | Staking.ok _ ↦ (ok tt, record r { node = noted.1 })
        | Staking.err e ↦ (err (staking_error e), record r { node = noted.1 })
      ]

  -- `record_vote`.
  unfoldable pub record_step : Vote → Step (Option ℕ × Option ℕ)
  record_step v r =
      let recorded = record_vote c.code.externals hash c.validators c.economics v r.node in
      elim recorded.0 [
        | ok out ↦ (ok out, record r { node = recorded.1 })
        | err e ↦ (err (vote_error e), record r { node = recorded.1 })
      ]

  -- The hash of a block that is there.
  abbrev pub is_hash : Option Block → ℕ → Bool
  is_hash none h = false
  is_hash (some b) h = hash b == h

  -- `>=` on optional rounds: none is the least.
  abbrev pub round_leb : Option ℕ → Option ℕ → Bool
  round_leb none r = true
  round_leb (some a) none = false
  round_leb (some a) (some b) = leb a b

  -- The locking rule of `emit_prevote`: what to vote for, or the nil hash.
  unfoldable pub prevote_hash : RoundState → ℕ
  prevote_hash s = elim s.proposal [
    | none ↦ 0
    | some p ↦ elim s.locked_block [
      | none ↦ hash p
      | some l ↦
          if hash l == hash p
          then hash p
          else if is_hash s.valid_block (hash p) && round_leb s.locked_round s.valid_round
          then hash p
          else 0
    ]
  ]

  abbrev pub own_vote : LocalValidator → VoteStep → ℕ → RoundState → Vote
  own_vote local step block_hash s = record {
    height = s.height;
    round = s.round;
    step = step;
    block_hash = block_hash;
    validator_address = local.validator.address;
    public_key = local.validator.public_key;
    signature = [];
  }

  -- The common end of `emit_prevote` and `emit_precommit`: sign the vote, log it and send it.
  unfoldable pub cast : LocalValidator → Vote → (RoundState → RoundState) → Step (Option Vote)
  cast local v mark = elim (sign_vote c.code.externals v local.secret_key) [
    | none ↦ fail sign_failed
    | some signed ↦ do
      note_liveness local.validator.address
      log (
          ConsensusWalEntry.vote_broadcast v.height v.round v.step v.block_hash v.validator_address)
      change mark
      broadcast (vote signed)
      pure (some signed)
  ]

  unfoldable pub emit_prevote : Step (Option Vote)
  emit_prevote r = elim c.local_validator [
    | none ↦ (ok none, r)
    | some local ↦
        if not (local_validator_active local r) || r.node.state.prevoted
        then (ok none, r)
        else cast local (own_vote local VoteStep.prevote (prevote_hash r.node.state) r.node.state)
            (λ s. record s { prevoted = true }) r
  ]

  unfoldable pub emit_precommit : ℕ → Step (Option Vote)
  emit_precommit block_hash r = elim c.local_validator [
    | none ↦ (ok none, r)
    | some local ↦
        if not (local_validator_active local r) || r.node.state.precommitted
        then (ok none, r)
        else cast local (own_vote local VoteStep.precommit block_hash r.node.state)
            (λ s. record s { precommitted = true }) r
  ]
