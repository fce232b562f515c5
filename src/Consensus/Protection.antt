-- ===== src/Consensus/Protection.antt =====
-- The proposals that a node sends, against the slashing protection that it keeps in its store.
use zeno_final_code.Consensus.Proposing.{
  on_deadline, protected, last_signed, maybe_propose, sign_block, propose_block, build_and_propose,
  prevote_and_handle, proposer_at,
}
use zeno_final_code.Storage.{Store, get_slashing_protection}
use zeno_final_code.Execution.Frame.{run_block-frame}
use zeno_final_code.Consensus.Finalizing.{with_store, whole_store}
use zeno_final_code.Common.{
  ◌<◌, ◌⊎◌, ap, ◌∙◌, length, ltb, leb, some, is_some, unwrap_or, Bool-cases, Option-cases, inl, inr,
  ◌≤◌, suc, sym, subst, ℕ, ◌≡◌, refl, not, ◌||◌, List, [], ◌∷◌, ◌==◌, arith,
}
use zeno_final_code.Consensus.Engine.{
  proposal, Config, Replica, LocalValidator, Step, hash, local_validator_active, note_liveness,
}
use zeno_final_code.Execution.Blocks.{build_header, dry_run_transactions}
use zeno_final_code.Consensus.{append_wal, ConsensusWalEntry, advance_round}
use zeno_final_code.TreeMap.{nat_key, get-insert_self}
use zeno_final_code.Types.{Block, BlockHeader, Transaction, default_protection}
use zeno_final_code.Consensus.Keeping.{
  proposed, Keeps, Keeps-note_liveness, Keeps-prevote_and_handle,
}
use zeno_final_code.Common.Results.{Result-cases}
use zeno_final_code.Mempool.{evict_expired, select_for_block_prioritized}
use zeno_final_code.Hash.{Bytes}

-- Heights that fall strictly, from below a bound.
unfoldable pub FallFrom : ℕ → List ℕ → Type 0
FallFrom n [] = Unit
FallFrom n (h ∷ hs) = (h < n) × FallFrom h hs

-- A step that sends a proposal of the height, or none, and leaves the slashing protection as it is.
abbrev Proposes : ℕ → Step (Unit {0}) → Type 0
Proposes height m =
    (r : Replica)
    → ((proposed (m r).1.sent ≡ proposed r.sent)
        ⊎ (proposed (m r).1.sent ≡ height ∷ proposed r.sent))
      × ((m r).1.store.slashing_protection ≡ r.store.slashing_protection)

module _ (c : Config) where
  -- The replica that the proposal of the block is broadcast in.
  abbrev announced : Block → Replica → Replica
  announced b r =
      let height = b.header.height in
      let round = b.header.round in
      let accepted =
        append_wal (ConsensusWalEntry.proposal_accepted height round (hash c b)) r.node in
      record r {
        node =
            append_wal (ConsensusWalEntry.proposal_broadcast height round (hash c b))
              (record accepted { state = record accepted.state { proposal = some b } });
        sent =
            proposal (record {
              height = height;
              round = round;
              block = b;
              validator_address = b.header.proposer;
            })
            ∷ r.sent;
      }

  propose_block-Proposes :
      (local : LocalValidator) (b : Block) → Proposes b.header.height (propose_block c local b)
  unfolding propose_block proposed
  propose_block-Proposes local b r =
      let noted = note_liveness c local.validator.address r in
      let sent = announced b noted.1 in
      elim (Bool-cases (ltb c.params.max_block_bytes (length (c.code.encode_block b)))) [
        | inl h ↦ rw (propose_block, h) (inl refl, refl)
        | inr h ↦ elim (Result-cases noted.0) [
          | inl (e, q) ↦
              rw (propose_block, h, q)
                (
                  inl (Keeps-note_liveness c local.validator.address r).0,
                  (Keeps-note_liveness c local.validator.address r).1,
                )
          | inr (u, q) ↦
              rw (propose_block, h, q)
                (
                  inr (
                      (Keeps-prevote_and_handle c sent).0
                      ∙ ap (λ hs. b.header.height ∷ hs)
                          (Keeps-note_liveness c local.validator.address r).0),
                  (Keeps-prevote_and_handle c sent).1
                      ∙ (Keeps-note_liveness c local.validator.address r).1,
                )
        ]
      ]

  sign_block-height :
      (header : BlockHeader) (txs : List Transaction) (public_key secret_key : Bytes) (b : Block)
      → sign_block c header txs public_key secret_key ≡ some b
      → header.height ≡ b.header.height
  unfolding sign_block
  sign_block-height header txs public_key secret_key b q = ground arith

  dry_run-protection :
      (store : Store) (height : ℕ) (txs : List Transaction) (proposer : ℕ)
      → (dry_run_transactions c.code c.engine store height txs proposer).1.slashing_protection
        ≡ store.slashing_protection
  unfolding dry_run_transactions
  dry_run-protection store height txs proposer =
      ap (λ (t : Store). t.slashing_protection)
        (run_block-frame c.code c.engine store height proposer txs)

  build_and_propose-Proposes :
      (local : LocalValidator) (timestamp_ms : ℕ) (r : Replica)
      → let after = (build_and_propose c local timestamp_ms r).1 in
        ((proposed after.sent ≡ proposed r.sent)
          ⊎ (proposed after.sent ≡ r.node.state.height ∷ proposed r.sent))
        × (after.store.slashing_protection ≡ r.store.slashing_protection)
  unfolding build_and_propose build_header
  build_and_propose-Proposes local timestamp_ms r =
      let s = r.node.state in
      let pool = evict_expired s.height r.mempool in
      let txs = select_for_block_prioritized c.params.max_transactions_per_block s.height pool in
      let proposer = local.validator.address in
      let dry = dry_run_transactions c.code c.engine (whole_store r) s.height txs proposer in
      let evicted : Replica = record (with_store dry.1 r) { mempool = pool } in
      let kept = dry_run-protection (whole_store r) s.height txs proposer in
      elim (Result-cases dry.0) [
        | inl (e, q) ↦ rw (build_and_propose, q) (inl refl, kept)
        | inr ((after, receipts), q) ↦
            let header =
              build_header c.code c.engine dry.1 proposer s.height s.round timestamp_ms txs after
                receipts in
            elim (Option-cases
              (sign_block c header txs local.validator.public_key local.secret_key)) [
                | inl n ↦ rw (build_and_propose, q, n) (inl refl, kept)
                | inr (b, n) ↦
                    let (sent, same) = propose_block-Proposes local b evicted in
                    rw (build_and_propose, q, n)
                      (
                        subst
                            (λ h.
                              (proposed (propose_block c local b evicted).1.sent ≡ proposed r.sent)
                              ⊎ (proposed (propose_block c local b evicted).1.sent
                                  ≡ h ∷ proposed r.sent))
                            (sym (
                              sign_block-height header txs local.validator.public_key
                                local.secret_key b n))
                            sent,
                        same ∙ kept,
                      )
              ]
      ]

  -- A replica whose proposals are at falling heights, none above the last that it protects.
  abbrev pub IsProtected : LocalValidator → Replica → Type 0
  IsProtected local r = FallFrom (suc (last_signed c local r)) (proposed r.sent)

  protection-IsProtected :
      (local : LocalValidator) (r after : Replica)
      → after.store.slashing_protection ≡ r.store.slashing_protection
      → FallFrom (suc (last_signed c local r)) (proposed after.sent)
      → IsProtected local after
  protection-IsProtected local r after q w = rw q w

  pub Keeps-IsProtected :
      {A : Type 0} (local : LocalValidator) (m : Step A) (r : Replica)
      → Keeps m
      → IsProtected local r
      → IsProtected local (m r).1
  Keeps-IsProtected local m r k w =
      protection-IsProtected local r (m r).1 (k r).1
        (subst (FallFrom (suc (last_signed c local r))) (sym (k r).0) w)

  raise_bound : (n m : ℕ) (hs : List ℕ) → n ≤ m → FallFrom n hs → FallFrom m hs
  unfolding FallFrom
  raise_bound n m [] le w = tt
  raise_bound n m (h ∷ hs) le (lt, w) = (omega arith, w)

  last_signed-protected :
      (local : LocalValidator) (r : Replica)
      → last_signed c local (protected c local r) ≡ r.node.state.height
  last_signed-protected local r =
      let stored = get_slashing_protection local.validator.address r.store in
      let before = unwrap_or stored default_protection in
      ap (λ o. (unwrap_or o default_protection).last_signed_proposal_height)
        (get-insert_self local.validator.address
          (record before { last_signed_proposal_height = r.node.state.height })
          r.store.slashing_protection)

  build_and_propose-IsProtected :
      (local : LocalValidator) (timestamp_ms : ℕ) (r : Replica)
      → last_signed c local r < r.node.state.height
      → IsProtected local r
      → IsProtected local (build_and_propose c local timestamp_ms (protected c local r)).1
  unfolding FallFrom
  build_and_propose-IsProtected local timestamp_ms r lt w =
      let (sent, kept) = build_and_propose-Proposes local timestamp_ms (protected c local r) in
      let falls =
        raise_bound (suc (last_signed c local r)) r.node.state.height (proposed r.sent)
          (omega arith) w in
      protection-IsProtected local (protected c local r)
        (build_and_propose c local timestamp_ms (protected c local r)).1 kept
        (subst
          (λ n.
            FallFrom (suc n)
              (proposed (build_and_propose c local timestamp_ms (protected c local r)).1.sent))
          (sym (last_signed-protected local r))
          (elim sent [
            | inl q ↦ rw q (
                raise_bound r.node.state.height (suc r.node.state.height) (proposed r.sent)
                  (omega arith) falls)
            | inr q ↦ rw q (omega arith, falls)
          ]))

  pub maybe_propose-IsProtected :
      (local : LocalValidator) (timestamp_ms : ℕ) (r : Replica)
      → c.local_validator ≡ some local
      → IsProtected local r
      → IsProtected local (maybe_propose c timestamp_ms r).1
  unfolding maybe_propose
  maybe_propose-IsProtected local timestamp_ms r q w =
      elim (Bool-cases (not (local_validator_active c local r))) [
        | inl h ↦ rw (maybe_propose, q, h) w
        | inr h ↦ elim (Option-cases (proposer_at c r.node.state.height r.node.state.round r)) [
          | inl n ↦ rw (maybe_propose, q, h, n) w
          | inr (p, n) ↦
              elim (Bool-cases (
                not (p.address == local.validator.address)
                || is_some r.node.state.proposal
                || leb r.node.state.height (last_signed c local r))) [
                  | inl k ↦ rw (maybe_propose, q, h, n, k) w
                  | inr k ↦
                      rw (maybe_propose, q, h, n, k)
                        (build_and_propose-IsProtected local timestamp_ms r (ground arith) w)
                ]
        ]
      ]

  pub on_deadline-IsProtected :
      (local : LocalValidator) (timestamp_ms : ℕ) (r : Replica)
      → c.local_validator ≡ some local
      → IsProtected local r
      → IsProtected local (on_deadline c timestamp_ms r).1
  unfolding on_deadline
  on_deadline-IsProtected local timestamp_ms r q w =
      let voted = prevote_and_handle c r in
      let kept = Keeps-IsProtected local (prevote_and_handle c) r (Keeps-prevote_and_handle c) w in
      elim (Result-cases voted.0) [
        | inl (e, n) ↦ rw n kept
        | inr (u, n) ↦ rw n (
            maybe_propose-IsProtected local timestamp_ms
              (record voted.1 { node = advance_round voted.1.node }) q kept)
      ]
