-- ===== src/Consensus/Restarts.antt =====
-- What a node proposes over all that may happen to it: messages, timeouts and restarts, in any order
-- (`run` of crates/zeno-consensus/src/lib.rs). A restart keeps the store; the round state is what was
-- recovered, or anything else, and so is the mempool.
use zeno_final_code.Common.{ℕ, ◌≡◌, List, [], ◌∷◌, Bool, Option, some}
use zeno_final_code.Types.{Vote, EpochTransition}
use zeno_final_code.Execution.{Receipt}
use zeno_final_code.Mempool.{Inner}
use zeno_final_code.Storage.{FinalizedBlock}
use zeno_final_code.Consensus.{Node, persist_snapshot}
use zeno_final_code.Consensus.Engine.{Config, Replica, LocalValidator, Proposal}
use zeno_final_code.Consensus.Finalizing.{on_vote, import_external_finalized_block}
use zeno_final_code.Consensus.Proposing.{on_proposal, maybe_propose, on_deadline}
use zeno_final_code.Consensus.Keeping.{Keeps-handle_vote_actions}
use zeno_final_code.Consensus.Messages.{Keeps-on_proposal, Keeps-import_external_finalized_block}
use zeno_final_code.Consensus.Protection.{
  IsProtected, Keeps-IsProtected, maybe_propose-IsProtected, on_deadline-IsProtected,
}

-- The events of `run`; `begin` is what comes before its loop, and the times are the clock's.
pub data Event : Type 0 where
  proposal_arrives : Proposal → Event
  vote_arrives : Vote → Event
  commit_arrives : FinalizedBlock → Event
  deadline : ℕ → Event
  begin : ℕ → Event
  restart : Node → Inner → Event

module _ (receipts_eq : List Receipt → List Receipt → Bool)
    (transition_eq : Option EpochTransition → Option EpochTransition → Bool) (c : Config) where
  unfoldable pub answer : Event → Replica → Replica
  answer (proposal_arrives p) r = (on_proposal c p r).1
  answer (vote_arrives v) r = (on_vote c v r).1
  answer (commit_arrives f) r = (import_external_finalized_block c receipts_eq transition_eq f r).1
  answer (deadline t) r = (on_deadline c t r).1
  answer (begin t) r = (maybe_propose c t (record r { node = persist_snapshot r.node })).1
  answer (restart node mempool) r = record r { node = node; mempool = mempool }

  unfoldable pub answer_all : List Event → Replica → Replica
  answer_all [] r = r
  answer_all (e ∷ events) r = answer_all events (answer e r)

  answer-IsProtected :
      (local : LocalValidator) (e : Event) (r : Replica)
      → c.local_validator ≡ some local
      → IsProtected c local r
      → IsProtected c local (answer e r)
  unfolding answer
  answer-IsProtected local (proposal_arrives p) r q w =
      Keeps-IsProtected c local (on_proposal c p) r (Keeps-on_proposal c p) w
  answer-IsProtected local (vote_arrives v) r q w =
      Keeps-IsProtected c local (on_vote c v) r (Keeps-handle_vote_actions c v) w
  answer-IsProtected local (commit_arrives f) r q w =
      Keeps-IsProtected c local (import_external_finalized_block c receipts_eq transition_eq f) r
        (Keeps-import_external_finalized_block c receipts_eq transition_eq f) w
  answer-IsProtected local (deadline t) r q w = on_deadline-IsProtected c local t r q w
  answer-IsProtected local (begin t) r q w =
      maybe_propose-IsProtected c local t (record r { node = persist_snapshot r.node }) q w
  answer-IsProtected local (restart node mempool) r q w = w

  -- A validator's proposals are at strictly falling heights, the last one first, and none is above
  -- the height that its slashing protection holds, after any messages, timeouts and restarts, where
  -- this holds before them (as where it has sent none yet). It never proposes twice at a height.
  pub answer_all-IsProtected :
      (local : LocalValidator) (events : List Event) (r : Replica)
      → c.local_validator ≡ some local
      → IsProtected c local r
      → IsProtected c local (answer_all events r)
  unfolding answer_all
  answer_all-IsProtected local [] r q w = w
  answer_all-IsProtected local (e ∷ events) r q w =
      answer_all-IsProtected local events (answer e r) q (answer-IsProtected local e r q w)
