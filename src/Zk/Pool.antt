-- ===== src/Zk/Pool.antt =====
-- `ShieldedPool` (crates/zeno-zk/src/lib.rs). A set of nullifiers is a list; nothing reads its order
-- but its size.
use zeno_final_code.Common.{
  ℕ, Bool, not, List, [], ◌∷◌, any, if◌then◌else◌, saturating_add, saturating_sub, u128_max,
}
use zeno_final_code.Common.Results.{Result, ok, err}
use zeno_final_code.Hash.{Hash32, Digests, bytes_eq}
use zeno_final_code.Zk.{
  ZkError, nullifier_already_spent, invalid_merkle_proof, verification_failed,
  CommitmentMerkleProof, CommitmentTree, new_tree, root, insert, verify_commitment_proof,
}

pub record ShieldRequest : Type 0 where
  pub value : ℕ
  pub commitment : Hash32

pub record ShieldedTransferProof : Type 0 where
  pub nullifier : Hash32
  pub merkle_root : Hash32
  pub merkle_proof : CommitmentMerkleProof
  pub output_commitment : Hash32
  pub value : ℕ

pub record UnshieldRequest : Type 0 where
  pub nullifier : Hash32
  pub merkle_proof : CommitmentMerkleProof
  pub merkle_root : Hash32
  pub value : ℕ
  pub recipient : ℕ

pub record ShieldedPool : Type 0 where
  pub tree : CommitmentTree
  pub nullifiers : List Hash32
  pub total_shielded_value : ℕ

-- `ShieldedPool::new`.
abbrev pub new_pool : ShieldedPool
new_pool = record { tree = new_tree; nullifiers = []; total_shielded_value = 0 }

-- `self.nullifiers.contains`.
abbrev pub is_spent : Hash32 → ShieldedPool → Bool
is_spent nullifier pool = any (bytes_eq nullifier) pool.nullifiers

module _ (d : Digests) where
  unfoldable pub shield : ShieldRequest → ShieldedPool → Result ZkError ℕ × ShieldedPool
  shield request pool =
      let inserted = insert d request.commitment pool.tree in
      elim inserted.0 [
        | err e ↦ (err e, record pool { tree = inserted.1 })
        | ok index ↦ (
          ok index,
          record pool {
            tree = inserted.1;
            total_shielded_value = saturating_add u128_max pool.total_shielded_value request.value;
          },
        )
      ]

  unfoldable pub transfer : ShieldedTransferProof → ShieldedPool → Result ZkError ℕ × ShieldedPool
  transfer proof pool =
      let here = root d pool.tree in
      let inserted = insert d proof.output_commitment pool.tree in
      if is_spent proof.nullifier pool
      then (err nullifier_already_spent, pool)
      else if not (bytes_eq proof.merkle_root here)
      then (err (verification_failed "merkle root mismatch"), pool)
      else if not (verify_commitment_proof d proof.merkle_proof here)
      then (err invalid_merkle_proof, pool)
      else (
        inserted.0,
        record pool { nullifiers = proof.nullifier ∷ pool.nullifiers; tree = inserted.1 },
      )

  unfoldable pub unshield :
      UnshieldRequest → ShieldedPool → Result ZkError (Unit {0}) × ShieldedPool
  unshield request pool =
      let here = root d pool.tree in
      if is_spent request.nullifier pool
      then (err nullifier_already_spent, pool)
      else if not (bytes_eq request.merkle_root here)
      then (err (verification_failed "merkle root mismatch"), pool)
      else if not (verify_commitment_proof d request.merkle_proof here)
      then (err invalid_merkle_proof, pool)
      else (
        ok tt,
        record pool {
          nullifiers = request.nullifier ∷ pool.nullifiers;
          total_shielded_value = saturating_sub pool.total_shielded_value request.value;
        },
      )
