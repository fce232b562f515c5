-- ===== src/Consensus/Recovery.antt =====
-- What the log and the snapshot keep: a node that restarts is at the height, the round and the locks
-- at which it stopped.
use zeno_final_code.Common.{
  subst, ◌⊎◌, ℕ, ◌≤◌, ◌<◌, ◌≡◌, refl, sym, List, [], ◌∷◌, ◌++◌, arith, All, u64_max, saturating_add,
}
use zeno_final_code.Consensus.{
  ConsensusWalEntry, RoundState, RecoveredState, Node, at_height, replay, replay_all,
  recover_snapshot,
}

-- An entry says nothing beyond a height and a round.
abbrev pub Bounded : ℕ → ℕ → ConsensusWalEntry → Type 0
Bounded h r (ConsensusWalEntry.snapshot_persisted height round) =
    (height ≤ h) × (height ≡ h → round ≤ r)
Bounded h r (ConsensusWalEntry.height_advanced next_height) = next_height ≤ h
Bounded h r (ConsensusWalEntry.round_advanced height next_round) =
    (height ≤ h) × (height ≡ h → next_round ≤ r)
Bounded h r (ConsensusWalEntry.commit_finalized height round hash) =
    saturating_add u64_max height 1 ≤ h
Bounded h r (ConsensusWalEntry.locked height locked_round hash block) = height ≤ h
Bounded h r (ConsensusWalEntry.polka_observed height valid_round hash block) = height ≤ h
Bounded h r (ConsensusWalEntry.proposal_accepted height round hash) = Unit
Bounded h r (ConsensusWalEntry.proposal_broadcast height round hash) = Unit
Bounded h r (ConsensusWalEntry.vote_recorded height round step hash address) = Unit
Bounded h r (ConsensusWalEntry.vote_broadcast height round step hash address) = Unit
Bounded h r (ConsensusWalEntry.evidence_recorded height round address reason) = Unit

-- Where a node stands: the part of `RoundState` that a restart finds again.
abbrev pub view : RoundState → RecoveredState
view s = record {
  snapshot = record { height = s.height; round = s.round };
  locked_round = s.locked_round;
  locked_block = s.locked_block;
  valid_round = s.valid_round;
  valid_block = s.valid_block;
}

-- The snapshot in the store is the node's, no entry of the log is ahead of it, and the recovery from
-- the two is where the node stands.
pub record IsDurable (n : Node) : Type 0 where
  pub persisted : n.snapshot ≡ record { height = n.state.height; round = n.state.round }
  pub bounded : All (Bounded n.state.height n.state.round) n.wal
  pub recovered : recover_snapshot n.snapshot n.wal ≡ view n.state

pub replay_all-append :
    (s : RecoveredState) (wal es : List ConsensusWalEntry)
    → replay_all s (wal ++ es) ≡ replay_all (replay_all s wal) es
unfolding replay_all
replay_all-append s [] es = refl
replay_all-append s (e ∷ wal) es = replay_all-append (replay s e) wal es

abbrev pub at_round : ℕ → RecoveredState → RecoveredState
at_round r s = record s { snapshot = record { height = s.snapshot.height; round = r } }

-- An entry that is not ahead of the state does not move it.
pub replay-Bounded :
    (e : ConsensusWalEntry) (s : RecoveredState)
    → Bounded s.snapshot.height s.snapshot.round e
    → (replay s e).snapshot ≡ s.snapshot
unfolding replay
replay-Bounded (ConsensusWalEntry.snapshot_persisted height round) s b = ground arith
replay-Bounded (ConsensusWalEntry.height_advanced next_height) s b = ground arith
replay-Bounded (ConsensusWalEntry.round_advanced height next_round) s b = ground arith
replay-Bounded (ConsensusWalEntry.commit_finalized height round hash) s b = ground arith
replay-Bounded (ConsensusWalEntry.locked height locked_round hash block) s b = ground arith
replay-Bounded (ConsensusWalEntry.polka_observed height valid_round hash block) s b = ground arith
replay-Bounded (ConsensusWalEntry.proposal_accepted height round hash) s b = refl
replay-Bounded (ConsensusWalEntry.proposal_broadcast height round hash) s b = refl
replay-Bounded (ConsensusWalEntry.vote_recorded height round step hash address) s b = refl
replay-Bounded (ConsensusWalEntry.vote_broadcast height round step hash address) s b = refl
replay-Bounded (ConsensusWalEntry.evidence_recorded height round address reason) s b = refl

-- The locks that such an entry sets do not depend on the round.
replay-at_round :
    (e : ConsensusWalEntry) (s : RecoveredState) (r : ℕ)
    → Bounded s.snapshot.height s.snapshot.round e
    → s.snapshot.round ≤ r
    → replay (at_round r s) e ≡ at_round r (replay s e)
unfolding replay
replay-at_round (ConsensusWalEntry.snapshot_persisted height round) s r b le = ground arith
replay-at_round (ConsensusWalEntry.height_advanced next_height) s r b le = ground arith
replay-at_round (ConsensusWalEntry.round_advanced height next_round) s r b le = ground arith
replay-at_round (ConsensusWalEntry.commit_finalized height round hash) s r b le = ground arith
replay-at_round (ConsensusWalEntry.locked height locked_round hash block) s r b le = ground arith
replay-at_round (ConsensusWalEntry.polka_observed height valid_round hash block) s r b le =
    ground arith
replay-at_round (ConsensusWalEntry.proposal_accepted height round hash) s r b le = refl
replay-at_round (ConsensusWalEntry.proposal_broadcast height round hash) s r b le = refl
replay-at_round (ConsensusWalEntry.vote_recorded height round step hash address) s r b le = refl
replay-at_round (ConsensusWalEntry.vote_broadcast height round step hash address) s r b le = refl
replay-at_round (ConsensusWalEntry.evidence_recorded height round address reason) s r b le = refl

pub replay_all-at_round :
    (wal : List ConsensusWalEntry) (s : RecoveredState) (r : ℕ)
    → All (Bounded s.snapshot.height s.snapshot.round) wal
    → s.snapshot.round ≤ r
    → replay_all (at_round r s) wal ≡ at_round r (replay_all s wal)
unfolding replay_all
replay_all-at_round [] s r b le = refl
replay_all-at_round (e ∷ wal) s r b le =
    let still = replay-Bounded e s b.0 in
    rw (replay-at_round e s r b.0 le) (
      replay_all-at_round wal (replay s e) r
        (subst (λ q. All (Bounded q.height q.round) wal) (sym still) b.1)
        (subst (λ q. q.round ≤ r) (sym still) le))

-- What is bounded by a height changes nothing at a greater one.
replay-above :
    (e : ConsensusWalEntry) (h r k : ℕ)
    → Bounded h r e
    → h < k
    → replay (at_height k) e ≡ at_height k
unfolding replay
replay-above (ConsensusWalEntry.snapshot_persisted height round) h r k b lt = ground arith
replay-above (ConsensusWalEntry.height_advanced next_height) h r k b lt = ground arith
replay-above (ConsensusWalEntry.round_advanced height next_round) h r k b lt = ground arith
replay-above (ConsensusWalEntry.commit_finalized height round hash) h r k b lt = ground arith
replay-above (ConsensusWalEntry.locked height locked_round hash block) h r k b lt = ground arith
replay-above (ConsensusWalEntry.polka_observed height valid_round hash block) h r k b lt =
    ground arith
replay-above (ConsensusWalEntry.proposal_accepted height round hash) h r k b lt = refl
replay-above (ConsensusWalEntry.proposal_broadcast height round hash) h r k b lt = refl
replay-above (ConsensusWalEntry.vote_recorded height round step hash address) h r k b lt = refl
replay-above (ConsensusWalEntry.vote_broadcast height round step hash address) h r k b lt = refl
replay-above (ConsensusWalEntry.evidence_recorded height round address reason) h r k b lt = refl

pub replay_all-above :
    (wal : List ConsensusWalEntry) (h r k : ℕ)
    → All (Bounded h r) wal
    → h < k
    → replay_all (at_height k) wal ≡ at_height k
unfolding replay_all
replay_all-above [] h r k b lt = refl
replay_all-above (e ∷ wal) h r k b lt =
    rw (replay-above e h r k b.0 lt) (replay_all-above wal h r k b.1 lt)

pub Bounded-le :
    (e : ConsensusWalEntry) (h r k q : ℕ)
    → (h < k) ⊎ ((h ≡ k) × (r ≤ q))
    → Bounded h r e
    → Bounded k q e
Bounded-le (ConsensusWalEntry.snapshot_persisted height round) h r k q le b = ground arith
Bounded-le (ConsensusWalEntry.height_advanced next_height) h r k q le b = ground arith
Bounded-le (ConsensusWalEntry.round_advanced height next_round) h r k q le b = ground arith
Bounded-le (ConsensusWalEntry.commit_finalized height round hash) h r k q le b = ground arith
Bounded-le (ConsensusWalEntry.locked height locked_round hash block) h r k q le b = ground arith
Bounded-le (ConsensusWalEntry.polka_observed height valid_round hash block) h r k q le b =
    ground arith
Bounded-le (ConsensusWalEntry.proposal_accepted height round hash) h r k q le b = tt
Bounded-le (ConsensusWalEntry.proposal_broadcast height round hash) h r k q le b = tt
Bounded-le (ConsensusWalEntry.vote_recorded height round step hash address) h r k q le b = tt
Bounded-le (ConsensusWalEntry.vote_broadcast height round step hash address) h r k q le b = tt
Bounded-le (ConsensusWalEntry.evidence_recorded height round address reason) h r k q le b = tt
