-- ===== src/Zk/Completeness.antt =====
-- A tree holds the commitments that were inserted, each at its place, and proves each of them.
use mathlib.Core.List.{append-nil, append_assoc}
use zeno_final_code.Common.{
  sym, subst, ℕ, zero, suc, ◌+◌, ◌*◌, ◌^◌, ◌≤◌, ◌<◌, ◌≡◌, refl, ◌∙◌, true, false, some, List, [],
  ◌∷◌, length, ◌==◌, if◌then◌else◌, get_elem?, arith, length-append, ◌++◌, leb,
}
use zeno_final_code.TreeMap
use zeno_final_code.TreeMap.{TreeMap, pair_key, get-insert, compare_pair}
use zeno_final_code.Hash.{Hash32, Digests, bytes_eq_refl}
use zeno_final_code.Zk.{
  CommitmentTree, new_tree, commitment_tree_depth, node_at, insert, collect_siblings, climb,
  CommitmentMerkleProof, root, prove, verify_commitment_proof,
}
use zeno_final_code.Common.Results.{ok}
use zeno_final_code.Zk.Tree.{
  AreHashed, AreHashedBut, node_at-insert, update_path-AreHashed, update_path-leaf,
  new_tree-AreHashed, climb-collect_siblings, length-collect_siblings, halve-lt,
}

get_elem?-append :
    (cs : List Hash32) (c : Hash32) (i : ℕ)
    → get_elem? (cs ++ c ∷ []) i ≡ (if i == length cs then some c else get_elem? cs i)
get_elem?-append [] c zero = refl
get_elem?-append [] c (suc i) = ground arith
get_elem?-append (x ∷ cs) c zero = ground arith
get_elem?-append (x ∷ cs) c (suc i) = ground (arith, get_elem?-append cs c i)

get_elem?-lt : (cs : List Hash32) (i : ℕ) (c : Hash32) → get_elem? cs i ≡ some c → i < length cs
get_elem?-lt [] i c h = ground arith
get_elem?-lt (x ∷ cs) zero c h = omega arith
get_elem?-lt (x ∷ cs) (suc i) c h = omega (arith, get_elem?-lt cs i c h)

module _ (d : Digests) where
  -- The commitments, in the order in which they were inserted; an insertion into a full tree is
  -- refused.
  abbrev pub insert_all : List Hash32 → CommitmentTree → CommitmentTree
  insert_all [] tree = tree
  insert_all (c ∷ cs) tree = insert_all cs (insert d c tree).1

  -- What a tree that holds `cs` is.
  pub record Holds (cs : List Hash32) (tree : CommitmentTree) : Type 0 where
    pub hashed : AreHashed d tree.nodes
    pub counted : tree.leaf_count ≡ length cs
    pub leaves :
        (i : ℕ) (c : Hash32)
        → get_elem? cs i ≡ some c
        → node_at d tree.nodes commitment_tree_depth i ≡ c

  new_tree-Holds : Holds [] new_tree
  new_tree-Holds = record {
    hashed = new_tree-AreHashed d;
    counted = refl;
    leaves = λ i c h. ground arith;
  }

  insert-Holds :
      (cs : List Hash32) (c : Hash32) (tree : CommitmentTree)
      → Holds cs tree
      → length cs < 2 ^ commitment_tree_depth
      → Holds (cs ++ c ∷ []) (insert d c tree).1
  unfolding insert
  insert-Holds cs c tree w room =
      let n = tree.leaf_count in
      let nodes = TreeMap.insert (commitment_tree_depth, n) c tree.nodes in
      let free : leb (2 ^ commitment_tree_depth) n ≡ false = ground (arith, w.counted) in
      let but : AreHashedBut d commitment_tree_depth n nodes = λ e j lt out. ground (
        arith,
        w.hashed e j lt,
        node_at-insert d tree.nodes commitment_tree_depth n e j c,
        node_at-insert d tree.nodes commitment_tree_depth n (suc e) (j * 2) c,
        node_at-insert d tree.nodes commitment_tree_depth n (suc e) (j * 2 + 1) c,
      ) in
      rw (free, if◌then◌else◌)
        record {
          hashed = update_path-AreHashed d commitment_tree_depth n nodes but;
          counted = omega (arith, w.counted, length-append cs (c ∷ []));
          leaves = λ i v h.
              update_path-leaf d commitment_tree_depth n nodes i (omega arith)
              ∙ ground (
                arith,
                node_at-insert d tree.nodes commitment_tree_depth n commitment_tree_depth i c,
                get_elem?-append cs c i,
                w.counted,
                w.leaves i v,
              );
        }

  insert_all-Holds :
      (more cs : List Hash32) (tree : CommitmentTree)
      → Holds cs tree
      → length cs + length more ≤ 2 ^ commitment_tree_depth
      → Holds (cs ++ more) (insert_all more tree)
  insert_all-Holds [] cs tree w room = subst (λ l. Holds l tree) (sym (append-nil cs)) w
  insert_all-Holds (c ∷ more) cs tree w room =
      subst (λ l. Holds l (insert_all more (insert d c tree).1)) (append_assoc cs (c ∷ []) more)
        (insert_all-Holds more (cs ++ c ∷ []) (insert d c tree).1
          (insert-Holds cs c tree w (omega arith)) (omega (arith, length-append cs (c ∷ []))))

  -- For up to 2^32 commitments, inserted into an empty tree, the tree proves each of them at its
  -- place, and the proof is accepted against the root of the tree.
  pub prove-verify_commitment_proof :
      (cs : List Hash32) (i : ℕ) (c : Hash32)
      → length cs ≤ 2 ^ commitment_tree_depth
      → get_elem? cs i ≡ some c
      → let tree = insert_all cs new_tree in
        (p : CommitmentMerkleProof) × (prove d i tree ≡ ok p)
        × (p.commitment ≡ c)
        × (p.index ≡ i)
        × (verify_commitment_proof d p (root d tree) ≡ true)
  unfolding prove verify_commitment_proof root
  prove-verify_commitment_proof cs i c room found =
      let tree = insert_all cs new_tree in
      let w : Holds cs tree = insert_all-Holds cs [] new_tree new_tree-Holds (omega arith) in
      let small = get_elem?-lt cs i c found in
      let known : leb tree.leaf_count i ≡ false = ground (arith, w.counted) in
      let p : CommitmentMerkleProof = record {
        commitment = node_at d tree.nodes commitment_tree_depth i;
        index = i;
        siblings = collect_siblings d commitment_tree_depth i tree.nodes;
      } in
      let climbed : climb d i p.siblings p.commitment ≡ root d tree =
        climb-collect_siblings d commitment_tree_depth i tree.nodes w.hashed (omega arith)
        ∙ rw (halve-lt commitment_tree_depth i (omega arith)) refl in
      (
        p,
        rw (known) refl,
        w.leaves i c found,
        refl,
        rw (length-collect_siblings d commitment_tree_depth i tree.nodes, climbed)
            (bytes_eq_refl (root d tree)),
      )
