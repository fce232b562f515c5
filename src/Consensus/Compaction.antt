-- ===== src/Consensus/Compaction.antt =====
-- The compaction of the write-ahead log (`compact_consensus_wal` of crates/zeno-storage/src/lib.rs),
-- and that it loses nothing.
use zeno_final_code.Common.{
  ℕ, ◌-◌, ◌≤◌, ◌<◌, ◌≡◌, refl, sym, ◌∙◌, inl, inr, List, [], ◌∷◌, arith, Bool-cases, All,
  All-filter, filter, length, leb, subst,
}
use zeno_final_code.Consensus.{
  ConsensusWalEntry, RecoveredState, Node, at_height, replay, replay_all, recover_snapshot,
}
use zeno_final_code.Consensus.Recovery.{Bounded, view, IsDurable, replay-Bounded}

abbrev pub height_of : ConsensusWalEntry → ℕ
height_of (ConsensusWalEntry.snapshot_persisted height round) = height
height_of (ConsensusWalEntry.proposal_accepted height round hash) = height
height_of (ConsensusWalEntry.proposal_broadcast height round hash) = height
height_of (ConsensusWalEntry.vote_recorded height round step hash address) = height
height_of (ConsensusWalEntry.vote_broadcast height round step hash address) = height
height_of (ConsensusWalEntry.commit_finalized height round hash) = height
height_of (ConsensusWalEntry.evidence_recorded height round address reason) = height
height_of (ConsensusWalEntry.locked height locked_round hash block) = height
height_of (ConsensusWalEntry.polka_observed height valid_round hash block) = height
height_of (ConsensusWalEntry.height_advanced next_height) = next_height
height_of (ConsensusWalEntry.round_advanced height next_round) = height

-- The number of entries removed, and the log that is kept.
unfoldable pub compact_consensus_wal : ℕ → List ConsensusWalEntry → ℕ × List ConsensusWalEntry
compact_consensus_wal below_height wal =
    let kept = filter (λ e. leb below_height (height_of e)) wal in (length wal - length kept, kept)

-- An entry of a lower height changes nothing.
replay-below :
    (e : ConsensusWalEntry) (s : RecoveredState) → height_of e < s.snapshot.height → replay s e ≡ s
unfolding replay
replay-below (ConsensusWalEntry.snapshot_persisted height round) s lt = ground arith
replay-below (ConsensusWalEntry.proposal_accepted height round hash) s lt = refl
replay-below (ConsensusWalEntry.proposal_broadcast height round hash) s lt = refl
replay-below (ConsensusWalEntry.vote_recorded height round step hash address) s lt = refl
replay-below (ConsensusWalEntry.vote_broadcast height round step hash address) s lt = refl
replay-below (ConsensusWalEntry.commit_finalized height round hash) s lt = ground arith
replay-below (ConsensusWalEntry.evidence_recorded height round address reason) s lt = refl
replay-below (ConsensusWalEntry.locked height locked_round hash block) s lt = ground arith
replay-below (ConsensusWalEntry.polka_observed height valid_round hash block) s lt = ground arith
replay-below (ConsensusWalEntry.height_advanced next_height) s lt = ground arith
replay-below (ConsensusWalEntry.round_advanced height next_round) s lt = ground arith

replay_all-filter :
    (below : ℕ) (wal : List ConsensusWalEntry) (s : RecoveredState)
    → All (Bounded s.snapshot.height s.snapshot.round) wal
    → below ≤ s.snapshot.height
    → replay_all s (filter (λ e. leb below (height_of e)) wal) ≡ replay_all s wal
unfolding replay_all
replay_all-filter below [] s b le = refl
replay_all-filter below (e ∷ wal) s b le =
    let still = replay-Bounded e s b.0 in
    let rest =
      replay_all-filter below wal (replay s e)
        (subst (λ q. All (Bounded q.height q.round) wal) (sym still) b.1)
        (subst (λ q. below ≤ q.height) (sym still) le) in
    elim (Bool-cases (leb below (height_of e))) [
      | inl keep ↦ rw keep rest
      | inr drop ↦
          let same = replay-below e s (ground arith) in
          rw (drop, same) (replay_all-filter below wal s b.1 le)
    ]

-- Compaction below a height that is not above the node's keeps a durable node durable: the recovery
-- from the shorter log finds what the recovery from the whole log did.
pub compact_consensus_wal-IsDurable :
    (below_height : ℕ) (n : Node)
    → IsDurable n
    → below_height ≤ n.state.height
    → IsDurable (record n { wal = (compact_consensus_wal below_height n.wal).1 })
unfolding compact_consensus_wal recover_snapshot
compact_consensus_wal-IsDurable below n w le = record {
  persisted = w.persisted;
  bounded = All-filter _ _ n.wal w.bounded;
  recovered = rw w.persisted (
      replay_all-filter below n.wal
        (record (at_height n.state.height) {
          snapshot = record { height = n.state.height; round = n.state.round };
        })
        w.bounded le
      ∙ subst (λ p. recover_snapshot p n.wal ≡ view n.state) w.persisted w.recovered);
}
