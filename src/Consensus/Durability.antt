-- ===== src/Consensus/Durability.antt =====
-- Rounds and heights keep a node durable: a restart finds the node where it stopped.
use zeno_final_code.Common.{
  ◌%◌, ◌^◌, subst, ℕ, ◌+◌, ◌≤◌, ◌<◌, ◌≡◌, refl, ap, ◌∙◌, inl, inr, false, none, [], ◌∷◌, arith,
  All-append, All-imp, u64_max, u32_max,
}
use zeno_final_code.Types.{StakingState}
use zeno_final_code.Consensus.{
  ConsensusWalEntry, RoundState, Node, at_height, replay, replay_all, recover_snapshot, append_wal,
  persist_snapshot, advance_height, advance_round,
}
use zeno_final_code.Consensus.Recovery.{
  Bounded, view, IsDurable, replay_all-append, at_round, replay_all-at_round, replay_all-above,
  Bounded-le,
}

-- An entry is logged, and the state moves as its replay does.
pub append_wal-IsDurable :
    (n : Node) (e : ConsensusWalEntry) (t : RoundState)
    → IsDurable n
    → t.height ≡ n.state.height
    → t.round ≡ n.state.round
    → Bounded n.state.height n.state.round e
    → replay (view n.state) e ≡ view t
    → IsDurable (append_wal e (record n { state = t }))
unfolding recover_snapshot replay_all
append_wal-IsDurable n e t w h r b same = record {
  persisted = rw (h, r) w.persisted;
  bounded =
      rw (h, r)
        (All-append (Bounded n.state.height n.state.round) n.wal (e ∷ []) w.bounded (b, tt));
  recovered = replay_all-append _ n.wal (e ∷ []) ∙ ap (λ s. replay s e) w.recovered ∙ same;
}

pub restake-IsDurable :
    (n : Node) (s : StakingState) → IsDurable n → IsDurable (record n { staking = s })
restake-IsDurable n s w = record {
  persisted = w.persisted;
  bounded = w.bounded;
  recovered = w.recovered;
}

-- From a snapshot with a later round, the recovery finds that round and the same locks.
recover_snapshot-later :
    (n : Node) (q : ℕ)
    → IsDurable n
    → n.state.round ≤ q
    → recover_snapshot (record { height = n.state.height; round = q }) n.wal
      ≡ at_round q (view n.state)
unfolding recover_snapshot
recover_snapshot-later n q w le =
    replay_all-at_round n.wal
      (record (at_height n.state.height) {
        snapshot = record { height = n.state.height; round = n.state.round };
      })
      q w.bounded le
    ∙ ap (at_round q) (subst (λ p. recover_snapshot p n.wal ≡ view n.state) w.persisted w.recovered)

-- The two entries that follow the store's snapshot move nothing.
persist_snapshot-IsDurable :
    (n : Node)
    → IsDurable (record n { snapshot = record { height = n.state.height; round = n.state.round } })
    → IsDurable (persist_snapshot n)
unfolding replay
persist_snapshot-IsDurable n w =
    append_wal-IsDurable
      (record n { snapshot = record { height = n.state.height; round = n.state.round } })
      (ConsensusWalEntry.snapshot_persisted n.state.height n.state.round) n.state w refl refl
      (omega arith, λ q. omega arith) (ground arith)

-- A new round, short of the last one that a u32 can hold, keeps a durable node durable.
pub advance_round-IsDurable :
    (n : Node) → IsDurable n → n.state.round < u32_max → IsDurable (advance_round n)
unfolding advance_round recover_snapshot replay_all replay
advance_round-IsDurable n w lt =
    let q = (n.state.round + 1) % 2 ^ 32 in
    let le : n.state.round ≤ q = omega arith in
    let t : RoundState = record n.state {
      round = q;
      proposal = none;
      prevotes = [];
      precommits = [];
      votes = [];
      prevoted = false;
      precommitted = false;
    } in
    let m : Node = record n { state = t } in
    append_wal-IsDurable (persist_snapshot m) (ConsensusWalEntry.round_advanced n.state.height q) t
      (persist_snapshot-IsDurable m (record {
        persisted = refl;
        bounded =
            All-imp
              (λ e. Bounded-le e n.state.height n.state.round n.state.height q (inr (refl, le)))
              n.wal w.bounded;
        recovered = recover_snapshot-later n q w le;
      }))
      refl refl (omega arith, λ e. omega arith) (ground arith)

-- The commit of a block that is not below the node's height, and the advance to the height after
-- it, keep a durable node durable.
pub advance_height-IsDurable :
    (n : Node) (height round hash : ℕ)
    → IsDurable n
    → n.state.height ≤ height
    → height < u64_max
    → IsDurable (
        advance_height
          (height + 1)
          (append_wal (ConsensusWalEntry.commit_finalized height round hash) n))
unfolding advance_height recover_snapshot replay_all replay
advance_height-IsDurable n height round hash w le lt =
    let k = height + 1 in
    let t : RoundState = record n.state {
      height = k;
      round = 0;
      proposal = none;
      prevotes = [];
      precommits = [];
      votes = [];
      prevoted = false;
      precommitted = false;
      locked_round = none;
      locked_block = none;
      valid_round = none;
      valid_block = none;
    } in
    let c = ConsensusWalEntry.commit_finalized height round hash in
    let m : Node = record (append_wal c n) { state = t } in
    let kept =
      All-append (Bounded k 0) n.wal (c ∷ [])
        (All-imp (λ e. Bounded-le e n.state.height n.state.round k 0 (inl (omega arith))) n.wal
          w.bounded)
        (omega arith, tt) in
    append_wal-IsDurable (persist_snapshot m) (ConsensusWalEntry.height_advanced k) t
      (persist_snapshot-IsDurable m (record {
        persisted = refl;
        bounded = kept;
        recovered =
            replay_all-append (at_height k) n.wal (c ∷ [])
            ∙ ap (λ s. replay s c)
                (replay_all-above n.wal n.state.height n.state.round k w.bounded (omega arith))
            ∙ ground arith;
      }))
      refl refl (omega arith) (ground arith)
