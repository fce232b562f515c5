-- ===== src/Consensus/Keeping.antt =====
-- The handlers that send no proposal and leave the slashing protection as it is: votes, finalisation.
use zeno_final_code.Consensus.{RoundState, ConsensusWalEntry}
use zeno_final_code.Consensus.Finalizing.{
  record_own, or_else, commit_executed, whole_store, check_certificate, execute,
  apply_pending_evidence, clean_up, finalize_block, finalize, finalize_option, precommit_option,
  handle_vote_actions,
}
use zeno_final_code.Storage.{
  keys_below, Store, FinalizedBlock, atomic_commit_block, prune_blocks_below, prune_keys, prune_key,
}
use zeno_final_code.Execution.Blocks.{
  PreparedBlock, execute_block, persist_accounting, prepare_block,
}
use zeno_final_code.Execution.Frame.{prepare_block-frame}
use zeno_final_code.Common.{
  ap, ℕ, ◌-◌, ◌≡◌, refl, ◌∙◌, inl, inr, not, ◌||◌, Option, none, some, List, [], ◌∷◌, ◌==◌, arith,
  Bool-cases, Option-cases,
}
use zeno_final_code.Common.Results.{Result-cases}
use zeno_final_code.TreeMap.{nat_key}
use zeno_final_code.Types.{Block, Vote}
use zeno_final_code.Consensus.Certificates.{CommitCertificate}
use zeno_final_code.Consensus.Engine.{
  Config, Replica, LocalValidator, NetworkMessage, Step, pure, ◌>>=◌, ◌>>◌, modify, log, change,
  broadcast, hash, local_validator_active, note_liveness, record_step, cast, emit_prevote,
  emit_precommit,
}
use zeno_final_code.Consensus.Proposing.{handle_option, prevote_and_handle}

-- The heights of the proposals among the messages, the last one first.
unfoldable pub proposed : List NetworkMessage → List ℕ
proposed [] = []
proposed (NetworkMessage.proposal p ∷ sent) = p.height ∷ proposed sent
proposed (NetworkMessage.vote v ∷ sent) = proposed sent
proposed (NetworkMessage.commit f ∷ sent) = proposed sent

-- A step that sends no proposal and does not write the protection.
abbrev pub Keeps : {A : Type 0} → Step A → Type 0
Keeps m =
    (r : Replica)
    → (proposed (m r).1.sent ≡ proposed r.sent)
      × ((m r).1.store.slashing_protection ≡ r.store.slashing_protection)

pub Keeps-bind :
    {A B : Type 0} (m : Step A) (next : A → Step B)
    → Keeps m
    → ((a : A) → Keeps (next a))
    → Keeps (m >>= next)
Keeps-bind m next k l r = elim (Result-cases (m r).0) [
  | inl (e, q) ↦ rw q (k r)
  | inr (a, q) ↦ rw q ((l a (m r).1).0 ∙ (k r).0, (l a (m r).1).1 ∙ (k r).1)
]

pub Keeps-then :
    {B : Type 0} (m : Step (Unit {0})) (next : Step B) → Keeps m → Keeps next → Keeps (m >> next)
Keeps-then m next k l = Keeps-bind m (λ _. next) k (λ _. l)

pub Keeps-refl : {A : Type 0} (a : A) → Keeps (pure a)
Keeps-refl a r = (refl, refl)

module _ (c : Config) where
  pub Keeps-note_liveness : (address : ℕ) → Keeps (note_liveness c address)
  unfolding note_liveness
  Keeps-note_liveness address r = ground arith

  Keeps-record_step : (v : Vote) → Keeps (record_step c v)
  unfolding record_step
  Keeps-record_step v r = ground arith

  Keeps-log : (e : ConsensusWalEntry) → Keeps (log e)
  Keeps-log e r = (refl, refl)

  Keeps-change : (f : RoundState → RoundState) → Keeps (change f)
  Keeps-change f r = (refl, refl)

  Keeps-vote : (v : Vote) → Keeps (broadcast (NetworkMessage.vote v))
  unfolding proposed
  Keeps-vote v r = (refl, refl)

  Keeps-cast :
      (local : LocalValidator) (v : Vote) (mark : RoundState → RoundState)
      → Keeps (cast c local v mark)
  unfolding cast note_liveness proposed
  Keeps-cast local v mark r = ground arith

  Keeps-emit_prevote : Keeps (emit_prevote c)
  unfolding emit_prevote
  Keeps-emit_prevote r = elim (Option-cases c.local_validator) [
    | inl q ↦ rw (emit_prevote, q) (refl, refl)
    | inr (local, q) ↦
        elim (Bool-cases (not (local_validator_active c local r) || r.node.state.prevoted)) [
          | inl h ↦ rw (emit_prevote, q, h) (refl, refl)
          | inr h ↦ rw (emit_prevote, q, h) (Keeps-cast local _ _ r)
        ]
  ]

  Keeps-emit_precommit : (block_hash : ℕ) → Keeps (emit_precommit c block_hash)
  unfolding emit_precommit
  Keeps-emit_precommit block_hash r = elim (Option-cases c.local_validator) [
    | inl q ↦ rw (emit_precommit, q) (refl, refl)
    | inr (local, q) ↦
        elim (Bool-cases (not (local_validator_active c local r) || r.node.state.precommitted)) [
          | inl h ↦ rw (emit_precommit, q, h) (refl, refl)
          | inr h ↦ rw (emit_precommit, q, h) (Keeps-cast local _ _ r)
        ]
  ]

  pub prepare_block-protection :
      (b : Block) (s : Store)
      → (prepare_block c.code c.engine s b).1.slashing_protection ≡ s.slashing_protection
  prepare_block-protection b s =
      ap (λ (t : Store). t.slashing_protection) (prepare_block-frame c.code c.engine s b)

  execute_block-protection :
      (b : Block) (s : Store)
      → (execute_block c.code c.engine b s).1.slashing_protection ≡ s.slashing_protection
  unfolding execute_block persist_accounting
  execute_block-protection b s = ground (arith, prepare_block-protection b s)

  Keeps-execute : (b : Block) → Keeps (execute c b)
  unfolding execute
  Keeps-execute b r = ground (arith, execute_block-protection b (whole_store r))

  pub Keeps-check_certificate :
      (b : Block) (f : CommitCertificate) → Keeps (check_certificate c b f)
  unfolding check_certificate
  Keeps-check_certificate b f r = ground arith

  Keeps-apply_pending_evidence : Keeps (apply_pending_evidence c)
  unfolding apply_pending_evidence
  Keeps-apply_pending_evidence r = ground arith

  prune_key-protection :
      (k : ℕ) (s : Store) → (prune_key (hash c) k s).slashing_protection ≡ s.slashing_protection
  unfolding prune_key
  prune_key-protection k s = ground arith

  prune_keys-protection :
      (ks : List ℕ) (s : Store)
      → (prune_keys (hash c) ks s).slashing_protection ≡ s.slashing_protection
  unfolding prune_keys
  prune_keys-protection [] s = refl
  prune_keys-protection (k ∷ ks) s =
      prune_keys-protection ks (prune_key (hash c) k s) ∙ prune_key-protection k s

  Keeps-clean_up : (height : ℕ) → Keeps (modify (clean_up c height))
  unfolding clean_up prune_blocks_below
  Keeps-clean_up height r =
      ground
        (arith, prune_keys-protection (keys_below (height - 1000) r.store.blocks_by_height) r.store)

  Keeps-commit_executed :
      (b : Block) (f : CommitCertificate) (p : PreparedBlock) → Keeps (commit_executed c b f p)
  unfolding commit_executed apply_pending_evidence clean_up prune_blocks_below atomic_commit_block
      proposed
  Keeps-commit_executed b f p r =
      let finalized : FinalizedBlock = record {
        block = b;
        certificate = f;
        receipts = p.receipts;
        epoch_transition = p.accounting.epoch_transition;
      } in
      let stored = atomic_commit_block (hash c) finalized p.state r.store in
      ground
        (arith, prune_keys-protection (keys_below (f.height - 1000) stored.blocks_by_height) stored)

  Keeps-finalize_block : (b : Block) (f : CommitCertificate) → Keeps (finalize_block c b f)
  unfolding finalize_block
  Keeps-finalize_block b f =
      Keeps-then (check_certificate c b f) (execute c b >>= commit_executed c b f)
        (Keeps-check_certificate b f)
        (Keeps-bind (execute c b) (commit_executed c b f) (Keeps-execute b)
          (Keeps-commit_executed b f))

  Keeps-finalize : (block_hash : ℕ) → Keeps (finalize c block_hash)
  unfolding finalize
  Keeps-finalize block_hash r = elim (Option-cases r.node.state.proposal) [
    | inl q ↦ rw (finalize, q) (refl, refl)
    | inr (b, q) ↦ elim (Bool-cases (not (hash c b == block_hash))) [
      | inl h ↦ rw (finalize, q, h) (refl, refl)
      | inr h ↦ rw (finalize, q, h) (Keeps-finalize_block b _ r)
    ]
  ]

  Keeps-finalize_option : (block_hash : Option ℕ) → Keeps (finalize_option c block_hash)
  Keeps-finalize_option none r = (refl, refl)
  Keeps-finalize_option (some block_hash) r = Keeps-finalize block_hash r

  Keeps-record_own : (b : Option ℕ) (v : Option Vote) → Keeps (record_own c b v)
  Keeps-record_own b none = Keeps-refl b
  Keeps-record_own b (some v) =
      Keeps-bind (record_step c v) (λ out. pure (or_else c b out.1)) (Keeps-record_step v)
        (λ out. Keeps-refl (or_else c b out.1))

  Keeps-precommit_option : (a b : Option ℕ) → Keeps (precommit_option c a b)
  unfolding precommit_option
  Keeps-precommit_option none b = Keeps-refl b
  Keeps-precommit_option (some h) b =
      Keeps-bind (emit_precommit c h) (record_own c b) (Keeps-emit_precommit h) (Keeps-record_own b)

  pub Keeps-handle_vote_actions : (v : Vote) → Keeps (handle_vote_actions c v)
  unfolding handle_vote_actions
  Keeps-handle_vote_actions v =
      Keeps-bind (record_step c v) (λ out. precommit_option c out.0 out.1 >>= finalize_option c)
        (Keeps-record_step v)
        λ out.
          Keeps-bind (precommit_option c out.0 out.1) (finalize_option c)
            (Keeps-precommit_option out.0 out.1) Keeps-finalize_option

  Keeps-handle_option : (v : Option Vote) → Keeps (handle_option c v)
  Keeps-handle_option none = Keeps-refl tt
  Keeps-handle_option (some v) = Keeps-handle_vote_actions v

  pub Keeps-prevote_and_handle : Keeps (prevote_and_handle c)
  Keeps-prevote_and_handle =
      Keeps-bind (emit_prevote c) (handle_option c) Keeps-emit_prevote Keeps-handle_option
