-- ===== src/Types.antt =====
-- The chain's shared records (crates/zeno-types/src/lib.rs). An `Address` is the number that its
-- 32 bytes spell with the most significant byte first, so that Rust's derived order is `<`. The
-- unsigned integers are natural numbers; each operation writes out what it does at the word's end.
-- Texts are native strings.
use zeno_final_code.Common.{Option, ℕ, Bool, true, false, List, []}
use Prim.Native.String.{String}
use zeno_final_code.TreeMap.{TreeMap}

pub record Account : Type 0 where
  pub nonce : ℕ
  pub balance : ℕ

-- `Account::default()`.
abbrev pub default_account : Account
default_account = record { nonce = 0; balance = 0 }

pub data ValidatorStatus : Type 0 where
  active jailed inactive : ValidatorStatus

-- `status == ValidatorStatus::Active`.
abbrev pub is_active : ValidatorStatus → Bool
is_active ValidatorStatus.active = true
is_active ValidatorStatus.jailed = false
is_active ValidatorStatus.inactive = false

pub record ValidatorStake : Type 0 where
  pub validator_address : ℕ
  pub self_bond : ℕ
  pub total_stake : ℕ
  pub commission_bps : ℕ
  pub status : ValidatorStatus
  pub last_liveness_epoch : ℕ

pub record Delegation : Type 0 where
  pub delegator : ℕ
  pub validator_address : ℕ
  pub amount : ℕ

pub record UnbondingDelegation : Type 0 where
  pub delegator : ℕ
  pub validator_address : ℕ
  pub amount : ℕ
  pub release_epoch : ℕ

pub record SlashingEvent : Type 0 where
  pub validator_address : ℕ
  pub epoch : ℕ
  pub slash_bps : ℕ
  pub reason : String

pub record EconomicsParams : Type 0 where
  pub minimum_self_bond : ℕ
  pub epoch_length : ℕ
  pub unbonding_epochs : ℕ
  pub treasury_bps : ℕ
  pub downtime_slash_bps : ℕ
  pub double_sign_slash_bps : ℕ

pub data ParameterUpdate : Type 0 where
  economics : EconomicsParams → ParameterUpdate

pub record GovernanceProposal : Type 0 where
  pub proposal_id : ℕ
  pub activation_epoch : ℕ
  pub update : ParameterUpdate
  pub description : String

pub record GovernanceState : Type 0 where
  pub economics : EconomicsParams
  pub pending : List GovernanceProposal
  pub next_proposal_id : ℕ

pub record StakingState : Type 0 where
  pub epoch : ℕ
  pub validators : TreeMap ℕ ValidatorStake
  pub delegations : TreeMap (ℕ × ℕ) Delegation
  pub unbonding : List UnbondingDelegation
  pub treasury_balance : ℕ
  pub slashing_events : List SlashingEvent

-- `StakingState::default()`.
abbrev pub default_staking : StakingState
default_staking = record {
  epoch = 0;
  validators = [];
  delegations = [];
  unbonding = [];
  treasury_balance = 0;
  slashing_events = [];
}

-- The identity and the weight of a validator; its network addresses decide nothing in this model.
pub record Validator : Type 0 where
  pub validator_id : String
  pub voting_power : ℕ
  pub public_key : List ℕ
  pub address : ℕ

pub record Evidence : Type 0 where
  pub validator_address : ℕ
  pub height : ℕ
  pub round : ℕ
  pub reason : String

pub data EvmTransactionKind : Type 0 where
  create : List ℕ → EvmTransactionKind
  call : ℕ → List ℕ → EvmTransactionKind

pub record EvmTransaction : Type 0 where
  pub kind : EvmTransactionKind
  pub value : ℕ
  pub gas_limit : ℕ
  pub gas_price : ℕ

pub record TransactionBody : Type 0 where
  pub chain_id : String
  pub sender : ℕ
  pub recipient : ℕ
  pub amount : ℕ
  pub nonce : ℕ
  pub fee : ℕ
  pub evm : Option EvmTransaction
  pub memo : Option String
  pub valid_until : Option ℕ

pub record Transaction : Type 0 where
  pub body : TransactionBody
  pub public_key : List ℕ
  pub signature : List ℕ

-- A digest in a header or a vote is the number that its bytes spell.
pub record BlockHeader : Type 0 where
  pub height : ℕ
  pub round : ℕ
  pub chain_id : String
  pub parent_hash : ℕ
  pub tx_root : ℕ
  pub state_root : ℕ
  pub receipt_root : ℕ
  pub proposer : ℕ
  pub timestamp_ms : ℕ

pub record Block : Type 0 where
  pub header : BlockHeader
  pub transactions : List Transaction
  pub proposer_public_key : List ℕ
  pub proposer_signature : List ℕ

pub data VoteStep : Type 0 where
  prevote precommit : VoteStep

pub record Vote : Type 0 where
  pub height : ℕ
  pub round : ℕ
  pub step : VoteStep
  pub block_hash : ℕ
  pub validator_address : ℕ
  pub public_key : List ℕ
  pub signature : List ℕ

pub record EpochTransition : Type 0 where
  pub epoch : ℕ
  pub height : ℕ
  pub validator_set : List ℕ
  pub validator_set_root : ℕ
  pub economics : EconomicsParams

pub record ConsensusParams : Type 0 where
  pub proposal_timeout_ms : ℕ
  pub vote_timeout_ms : ℕ
  pub max_transactions_per_block : ℕ
  pub max_block_bytes : ℕ
  pub target_gas_per_block : ℕ
  pub max_gas_per_block : ℕ

-- Less the network's metadata and the name of the signature's parameters.
pub record Genesis : Type 0 where
  pub chain_id : String
  pub accounts : TreeMap ℕ Account
  pub validators : List Validator
  pub consensus : ConsensusParams
  pub economics : EconomicsParams

pub record SlashingProtection : Type 0 where
  pub last_signed_proposal_height : ℕ
  pub last_signed_prevote_height : ℕ
  pub last_signed_precommit_height : ℕ

-- `SlashingProtection::default()`.
abbrev pub default_protection : SlashingProtection
default_protection = record {
  last_signed_proposal_height = 0;
  last_signed_prevote_height = 0;
  last_signed_precommit_height = 0;
}

pub record EvmLog : Type 0 where
  pub address : ℕ
  pub topics : List ℕ
  pub bytes : List ℕ

pub record EvmAccountState : Type 0 where
  pub nonce : ℕ
  pub balance : ℕ
  pub code : List ℕ
  pub storage : TreeMap ℕ ℕ
