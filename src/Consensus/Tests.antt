-- ===== src/Consensus/Tests.antt =====
-- A node with one validator: a vote, a timeout, a commit, and what a restart finds.
use zeno_final_code.Common.Sorting.{sort_by, insert_by}
use zeno_final_code.Consensus.Runs.{
  adopt, fresh_node, Action, receive, time_out, compact, run, Fits, recover_snapshot-run,
}
use zeno_final_code.Consensus.Votes.{
  note_validator_liveness, record_vote, count_vote, observe_polka, quorum, active_validators,
  by_address, known,
}
use zeno_final_code.Staking.Epoch
use zeno_final_code.Common.{◌↔◌, ℕ, ◌≡◌, refl, some, List, [], ◌∷◌, arith, Bool, true, none, ◌+◌}
use zeno_final_code.Common.Results.{ok, err}
use zeno_final_code.TreeMap
use zeno_final_code.Primitives.{verify_vote, verify_block}
use zeno_final_code.Staking.{ensure_validators}
use zeno_final_code.Staking.Epoch.{effective_validator_set, ordered_stakes, values}
use zeno_final_code.Consensus.Certificates.{
  CommitCertificate, validate_commit_certificate, check_votes, IsCertificate,
  validate_commit_certificate_iff,
}
use zeno_final_code.Types.{Block, Vote, VoteStep, Validator, EconomicsParams, default_staking}
use zeno_final_code.Execution.Tests.{toy_externals, code, engine, store}
use zeno_final_code.Consensus.{
  ConsensusSnapshot, Node, recover_snapshot, replay_all, advance_round, round_timeout,
}
use zeno_final_code.Consensus.Recovery.{view, IsDurable}
use zeno_final_code.Mempool.{empty}
use zeno_final_code.Consensus.Keeping
use zeno_final_code.Consensus.Engine.{Config, Replica, LocalValidator, hash, block_error}
use zeno_final_code.Consensus.Protection.{FallFrom, IsProtected}
use zeno_final_code.Consensus.Restarts.{Event, begin, restart, answer_all, answer_all-IsProtected}
use zeno_final_code.Storage.{FinalizedBlock}
use zeno_final_code.Consensus.Finalizing.{
  check_certificate, whole_store, import_external_finalized_block,
}
use zeno_final_code.Execution.Blocks.{digest_number, prepare_block, invalid_proposal}
use zeno_final_code.Consensus.Imports.{import_external_finalized_block-refused}

abbrev economics : EconomicsParams
economics = record {
  minimum_self_bond = 0;
  epoch_length = 100;
  unbonding_epochs = 7;
  treasury_bps = 1000;
  downtime_slash_bps = 100;
  double_sign_slash_bps = 500;
}

abbrev validators : List Validator
validators =
    record { validator_id = "one"; voting_power = 1; public_key = 7 ∷ []; address = 1 } ∷ []

abbrev hash_of : Block → ℕ
hash_of b = b.header.tx_root

abbrev start : ConsensusSnapshot
start = record { height = 1; round = 0 }

abbrev block : Block
block = record {
  header = record {
    height = 1;
    round = 0;
    chain_id = "zeno";
    parent_hash = 0;
    tx_root = 5;
    state_root = 0;
    receipt_root = 0;
    proposer = 1;
    timestamp_ms = 0;
  };
  transactions = [];
  proposer_public_key = 7 ∷ [];
  proposer_signature = [];
}

abbrev prevote : Vote
prevote = record {
  height = 1;
  round = 0;
  step = VoteStep.prevote;
  block_hash = 5;
  validator_address = 1;
  public_key = 7 ∷ [];
  signature = [];
}

abbrev node : Node
node = fresh_node start default_staking

abbrev proposed : Node
proposed = record node { state = record node.state { proposal = some block } }

proposed-IsDurable : IsDurable proposed
unfolding recover_snapshot replay_all
proposed-IsDurable = record { persisted = refl; bounded = tt; recovered = refl }

-- The block is proposed and voted for, and the node is locked on it over a timeout and a compaction.
abbrev actions : List Action
actions = adopt block ∷ receive prevote ∷ time_out ∷ compact 1 ∷ []

locked :
    (run toy_externals hash_of validators economics actions node).state.locked_block ≡ some block
unfolding advance_round record_vote verify_vote note_validator_liveness ensure_validators
    Epoch.note_liveness count_vote observe_polka quorum active_validators by_address known
    effective_validator_set ordered_stakes values sort_by insert_by TreeMap.get TreeMap.insert
locked = refl

actions-Fits : Fits toy_externals hash_of validators economics actions node
unfolding advance_round record_vote verify_vote note_validator_liveness ensure_validators
    Epoch.note_liveness count_vote observe_polka quorum active_validators by_address known
    effective_validator_set ordered_stakes values sort_by insert_by TreeMap.get TreeMap.insert
actions-Fits = (omega arith, (omega arith, tt))

recover_snapshot-run_example :
    let n = run toy_externals hash_of validators economics actions node in
    recover_snapshot n.snapshot n.wal ≡ view n.state
recover_snapshot-run_example =
    recover_snapshot-run toy_externals hash_of validators economics actions start default_staking
      actions-Fits

backoff : round_timeout 3000 2000 3 ≡ 40000
unfolding round_timeout
backoff = refl

-- A precommit by the key of address 2, which is no validator.
abbrev stranger : Vote
stranger = record {
  height = 1;
  round = 0;
  step = VoteStep.precommit;
  block_hash = 5;
  validator_address = 2;
  public_key = 7 ∷ 7 ∷ [];
  signature = [];
}

abbrev forged : CommitCertificate
forged = record { block_hash = 5; height = 1; round = 0; votes = stranger ∷ [] }

forged_accepted :
    validate_commit_certificate toy_externals hash_of validators economics block forged
      default_staking
    ≡ ok tt
unfolding validate_commit_certificate check_votes verify_vote quorum active_validators by_address
    known effective_validator_set ordered_stakes sort_by insert_by values ensure_validators
    TreeMap.insert TreeMap.get
forged_accepted = refl

validate_commit_certificate_iff_example :
    (validate_commit_certificate toy_externals hash_of validators economics block forged
        default_staking
      ≡ ok tt)
    ↔ IsCertificate toy_externals hash_of validators economics block forged default_staking
validate_commit_certificate_iff_example =
    validate_commit_certificate_iff toy_externals hash_of validators economics block forged
      default_staking

-- The validator 1 proposes at height 1, crashes, and starts again where it was.
abbrev local : LocalValidator
local = record {
  validator = record { validator_id = "one"; voting_power = 1; public_key = 7 ∷ []; address = 1 };
  secret_key = 7 ∷ [];
}

abbrev config : Config
config = record {
  code = code;
  engine = engine;
  validators = validators;
  params = record {
    proposal_timeout_ms = 3000;
    vote_timeout_ms = 2000;
    max_transactions_per_block = 10;
    max_block_bytes = 1000;
    target_gas_per_block = 15000000;
    max_gas_per_block = 30000000;
  };
  economics = economics;
  local_validator = some local;
}

abbrev replica : Replica
replica = record { node = node; store = store; mempool = empty; sent = [] }

abbrev events : List Event
events = begin 7 ∷ restart node empty ∷ begin 8 ∷ []

abbrev anything : {A : Type 0} → A → A → Bool
anything a b = true

answer_all-IsProtected_example :
    IsProtected config local (answer_all anything anything config events replica)
unfolding Keeping.proposed FallFrom
answer_all-IsProtected_example =
    answer_all-IsProtected anything anything config local events replica refl tt

-- The block of another proposer, with a certificate for it.
abbrev foreign : Block
foreign = record block { header = record block.header { proposer = 2 } }

abbrev foreign_vote : Vote
foreign_vote = record stranger { block_hash = hash config foreign }

abbrev refused : FinalizedBlock
refused = record {
  block = foreign;
  certificate = record {
    block_hash = hash config foreign;
    height = 1;
    round = 0;
    votes = foreign_vote ∷ [];
  };
  receipts = [];
  epoch_transition = none;
}

refused_checked : check_certificate config foreign refused.certificate replica ≡ (ok tt, replica)
unfolding check_certificate validate_commit_certificate check_votes verify_vote quorum
    active_validators by_address known effective_validator_set ordered_stakes sort_by insert_by
    values ensure_validators digest_number TreeMap.insert TreeMap.get
refused_checked = refl

refused_prepared :
    (prepare_block config.code config.engine (whole_store replica) foreign).0 ≡ err invalid_proposal
unfolding prepare_block verify_block
refused_prepared = refl

node-IsDurable : IsDurable node
unfolding recover_snapshot replay_all
node-IsDurable = record { persisted = refl; bounded = tt; recovered = refl }

import_external_finalized_block-refused_example :
    let (result, after) =
      import_external_finalized_block config anything anything refused replica in
    (result ≡ err (block_error invalid_proposal))
    × (after.store.blocks_by_height ≡ replica.store.blocks_by_height)
    × (after.node.state ≡ replica.node.state)
    × ((recover_snapshot after.node.snapshot after.node.wal).snapshot.height ≡ 1 + 1)
import_external_finalized_block-refused_example =
    import_external_finalized_block-refused anything anything config refused replica
      invalid_proposal node-IsDurable refl (omega arith) refused_checked refused_prepared
