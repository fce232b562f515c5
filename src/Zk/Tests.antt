-- ===== src/Zk/Tests.antt =====
-- The shielded pool on small inputs.
use zeno_final_code.Common.{
  ℕ, ◌≡◌, refl, true, false, not, ◌&&◌, List, [], ◌∷◌, ◌++◌, length, arith, if◌then◌else◌,
  replicate, any, ◌==◌,
}
use zeno_final_code.Common.Results.{ok, err}
use zeno_final_code.TreeMap
use zeno_final_code.TreeMap.{compare_pair}
use zeno_final_code.Hash.{Hash32, bytes_eq, zero_hash}
use zeno_final_code.Hash.Tests.{toy_digests}
use zeno_final_code.Hash.Merkle.{AreDigests}
use zeno_final_code.Zk.Tree.{length-collect_siblings}
use zeno_final_code.Zk.{
  nullifier_already_spent, CommitmentMerkleProof, CommitmentTree, new_tree, root, insert, prove,
  verify_commitment_proof, node_at, update_path, collect_siblings, climb, empty_hash,
  tree_node_hash,
}
use zeno_final_code.Zk.Pool.{UnshieldRequest, ShieldedPool, new_pool, is_spent, shield, unshield}
use zeno_final_code.Zk.Completeness.{insert_all, prove-verify_commitment_proof}
use zeno_final_code.Zk.DoubleSpend.{unshielding, serve-IsRefused, unshield-unshield}
use zeno_final_code.Zk.Precompile.{calldata, zk_verify_precompile, zk_verify_precompile_lem}

abbrev leaf : ℕ → Hash32
leaf a = replicate 32 a

abbrev two_leaves : CommitmentTree
two_leaves = insert_all toy_digests (leaf 1 ∷ leaf 2 ∷ []) new_tree

prove-verify_commitment_proof_example :
    (p : CommitmentMerkleProof) × (prove toy_digests 1 two_leaves ≡ ok p)
    × (p.commitment ≡ leaf 2)
    × (p.index ≡ 1)
    × (verify_commitment_proof toy_digests p (root toy_digests two_leaves) ≡ true)
prove-verify_commitment_proof_example =
    prove-verify_commitment_proof toy_digests (leaf 1 ∷ leaf 2 ∷ []) 1 (leaf 2) (omega arith) refl

abbrev one_note : ShieldedPool
one_note = (shield toy_digests (record { value = 5; commitment = leaf 1 }) new_pool).1

-- The proof of the first leaf: its siblings are the roots of empty trees.
abbrev first_proof : CommitmentMerkleProof
first_proof = record {
  commitment = leaf 1;
  index = 0;
  siblings = collect_siblings toy_digests 32 0 one_note.tree.nodes;
}

abbrev withdrawal : ℕ → ℕ → UnshieldRequest
withdrawal n value = record {
  nullifier = leaf n;
  merkle_proof = first_proof;
  merkle_root = root toy_digests one_note.tree;
  value = value;
  recipient = 7;
}

first_withdrawal : (unshield toy_digests (withdrawal 9 5) one_note).0 ≡ ok tt
unfolding unshield shield insert root node_at update_path collect_siblings verify_commitment_proof
    climb empty_hash tree_node_hash TreeMap.get TreeMap.insert
first_withdrawal = refl

root_digest : length (root toy_digests one_note.tree) ≡ 32
unfolding shield insert root node_at update_path collect_siblings verify_commitment_proof climb
    empty_hash tree_node_hash TreeMap.get TreeMap.insert
root_digest = refl

serve-IsRefused_example :
    unshield toy_digests (withdrawal 9 5) (unshield toy_digests (withdrawal 9 5) one_note).1
    ≡ (err nullifier_already_spent, (unshield toy_digests (withdrawal 9 5) one_note).1)
serve-IsRefused_example =
    serve-IsRefused toy_digests (leaf 9) (unshielding (withdrawal 9 5)) []
      (unshielding (withdrawal 9 5)) one_note (refl, first_withdrawal) refl

fresh : is_spent (leaf 10) (unshield toy_digests (withdrawal 9 5) one_note).1 ≡ false
unfolding unshield shield insert root node_at update_path collect_siblings verify_commitment_proof
    climb empty_hash tree_node_hash TreeMap.get TreeMap.insert
fresh = refl

-- One note of five, withdrawn a second time as a thousand.
unshield-unshield_example :
    (unshield toy_digests (withdrawal 10 1000) (unshield toy_digests (withdrawal 9 5) one_note).1).0
    ≡ ok tt
unshield-unshield_example =
    unshield-unshield toy_digests (withdrawal 9 5) (withdrawal 10 1000) one_note first_withdrawal
      refl refl fresh

first_accepted :
    verify_commitment_proof toy_digests first_proof (root toy_digests one_note.tree) ≡ true
unfolding shield insert root node_at update_path collect_siblings verify_commitment_proof climb
    empty_hash tree_node_hash TreeMap.get TreeMap.insert
first_accepted = refl

AreDigests-test : (xs : List Hash32) → any (λ x. not (length x == 32)) xs ≡ false → AreDigests xs
AreDigests-test [] h = tt
AreDigests-test (x ∷ xs) h = (ground arith, AreDigests-test xs (ground arith))

first_digests : AreDigests (first_proof.commitment ∷ first_proof.siblings)
unfolding shield insert root node_at update_path collect_siblings verify_commitment_proof climb
    empty_hash tree_node_hash TreeMap.get TreeMap.insert
first_digests = AreDigests-test (first_proof.commitment ∷ first_proof.siblings) refl

zk_verify_precompile_lem_example :
    zk_verify_precompile toy_digests
      (calldata (leaf 9) (root toy_digests one_note.tree) (leaf 4) 5 first_proof [])
    ≡ replicate 31 0
      ++ ((if verify_commitment_proof toy_digests first_proof (root toy_digests one_note.tree)
              && (not (bytes_eq (leaf 4) zero_hash) && not (bytes_eq (leaf 9) zero_hash))
            then 1
            else 0)
          ∷ [])
zk_verify_precompile_lem_example =
    zk_verify_precompile_lem toy_digests (leaf 9) (root toy_digests one_note.tree) (leaf 4) 5
      first_proof [] (refl, (root_digest, (refl, first_digests)))
      (length-collect_siblings toy_digests 32 0 one_note.tree.nodes) (omega arith)
