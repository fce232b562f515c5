-- ===== src/Zk/Tree.antt =====
-- The commitment tree: every inner node is the hash of its children, before and after an insertion,
-- and the proofs that the tree gives are accepted.
use zeno_final_code.Common.{
  ℕ, zero, suc, ◌+◌, ◌-◌, ◌*◌, ◌/◌, ◌%◌, ◌^◌, ◌≤◌, ◌<◌, ◌≡◌, refl, ◌∙◌, inl, inr, true, false, ◌&&◌,
  length, ltb, ◌==◌, if◌then◌else◌, arith, Bool-cases,
}
use zeno_final_code.TreeMap
use zeno_final_code.TreeMap.{TreeMap, pair_key, get-insert, compare_pair}
use zeno_final_code.Hash.{Hash32, Digests}
use zeno_final_code.Zk.{
  new_tree, commitment_tree_depth, tree_node_hash, empty_hash, node_at, update_path,
  collect_siblings, climb,
}

-- Walking up from a node of a tree ends at the ancestor at the root's level.
abbrev pub halve : ℕ → ℕ → ℕ
halve zero index = index
halve (suc n) index = halve n (index / 2)

pub halve-lt : (n index : ℕ) → index < 2 ^ n → halve n index ≡ 0
halve-lt zero index h = omega arith
halve-lt (suc n) index h = halve-lt n (index / 2) (omega arith)

module _ (d : Digests) where
  pub node_at-insert :
      (nodes : TreeMap (ℕ × ℕ) Hash32) (depth index e j : ℕ) (v : Hash32)
      → node_at d (TreeMap.insert (depth, index) v nodes) e j
        ≡ (if e == depth && j == index then v else node_at d nodes e j)
  unfolding node_at
  node_at-insert nodes depth index e j v =
      rw (get-insert (depth, index) (e, j) v nodes) (ground arith)

  -- A node is the hash of the two below it.
  abbrev pub IsHashed : TreeMap (ℕ × ℕ) Hash32 → ℕ → ℕ → Type 0
  IsHashed nodes depth index =
      node_at d nodes depth index
      ≡ tree_node_hash d (node_at d nodes (suc depth) (index * 2))
          (node_at d nodes (suc depth) (index * 2 + 1))

  abbrev pub AreHashed : TreeMap (ℕ × ℕ) Hash32 → Type 0
  AreHashed nodes = (depth index : ℕ) → depth < commitment_tree_depth → IsHashed nodes depth index

  -- All nodes are hashes, but perhaps the parent of one at `depth`.
  abbrev pub AreHashedBut : ℕ → ℕ → TreeMap (ℕ × ℕ) Hash32 → Type 0
  AreHashedBut depth current nodes =
      (e j : ℕ)
      → e < commitment_tree_depth
      → (suc e == depth && j == current / 2) ≡ false
      → IsHashed nodes e j

  update_path-step :
      (depth current : ℕ) (nodes : TreeMap (ℕ × ℕ) Hash32)
      → AreHashedBut (suc depth) current nodes
      → AreHashedBut depth (current / 2) (
          TreeMap.insert
            (depth, current / 2)
            (tree_node_hash d
              (node_at d nodes (suc depth) (current / 2 * 2))
              (node_at d nodes (suc depth) (current / 2 * 2 + 1)))
            nodes)
  update_path-step depth current nodes h e j lt out =
      let p = current / 2 in
      let v =
        tree_node_hash d (node_at d nodes (suc depth) (p * 2))
          (node_at d nodes (suc depth) (p * 2 + 1)) in
      ground (
        arith,
        h e j lt,
        node_at-insert nodes depth p e j v,
        node_at-insert nodes depth p (suc e) (j * 2) v,
        node_at-insert nodes depth p (suc e) (j * 2 + 1) v,
      )

  pub update_path-AreHashed :
      (depth current : ℕ) (nodes : TreeMap (ℕ × ℕ) Hash32)
      → AreHashedBut depth current nodes
      → AreHashed (update_path d depth current nodes)
  unfolding update_path
  update_path-AreHashed zero current nodes h = λ e j lt. h e j lt (ground arith)
  update_path-AreHashed (suc depth) current nodes h =
      update_path-AreHashed depth (current / 2) _ (update_path-step depth current nodes h)

  pub new_tree-AreHashed : AreHashed new_tree.nodes
  unfolding node_at empty_hash TreeMap.get
  new_tree-AreHashed e j lt =
      let deeper : commitment_tree_depth - e ≡ suc (commitment_tree_depth - suc e) = omega arith in
      let here : ltb e (commitment_tree_depth + 1) ≡ true = ground arith in
      let below : ltb (suc e) (commitment_tree_depth + 1) ≡ true = ground arith in
      rw (here, below, deeper) refl

  -- The leaves stay where they are while the path above is rewritten.
  pub update_path-leaf :
      (depth current : ℕ) (nodes : TreeMap (ℕ × ℕ) Hash32) (j : ℕ)
      → depth ≤ commitment_tree_depth
      → node_at d (update_path d depth current nodes) commitment_tree_depth j
        ≡ node_at d nodes commitment_tree_depth j
  unfolding update_path
  update_path-leaf zero current nodes j le = refl
  update_path-leaf (suc depth) current nodes j le =
      let p = current / 2 in
      let v =
        tree_node_hash d (node_at d nodes (suc depth) (p * 2))
          (node_at d nodes (suc depth) (p * 2 + 1)) in
      update_path-leaf depth p (TreeMap.insert (depth, p) v nodes) j (omega arith)
      ∙ ground (arith, node_at-insert nodes depth p commitment_tree_depth j v)

  parent :
      (depth current : ℕ) (nodes : TreeMap (ℕ × ℕ) Hash32)
      → AreHashed nodes
      → depth < commitment_tree_depth
      → node_at d nodes depth (current / 2) ≡ (
          if current % 2 == 0
          then tree_node_hash d
              (node_at d nodes (suc depth) current)
              (node_at d nodes (suc depth) (current + 1))
          else tree_node_hash d
              (node_at d nodes (suc depth) (current - 1))
              (node_at d nodes (suc depth) current))
  parent depth current nodes h lt = elim (Bool-cases (current % 2 == 0)) [
    | inl even ↦
        let left : current / 2 * 2 ≡ current = ground arith in
        h depth (current / 2) lt ∙ rw (left, even) refl
    | inr odd ↦
        let left : current / 2 * 2 ≡ current - 1 = ground arith in
        let right : current / 2 * 2 + 1 ≡ current = ground arith in
        h depth (current / 2) lt ∙ rw (right, left, odd) refl
  ]

  pub climb-collect_siblings :
      (depth current : ℕ) (nodes : TreeMap (ℕ × ℕ) Hash32)
      → AreHashed nodes
      → depth ≤ commitment_tree_depth
      → climb d current (collect_siblings d depth current nodes) (node_at d nodes depth current)
        ≡ node_at d nodes 0 (halve depth current)
  unfolding climb collect_siblings
  climb-collect_siblings zero current nodes h le = refl
  climb-collect_siblings (suc depth) current nodes h le =
      let up = parent depth current nodes h (omega arith) in
      let rest = climb-collect_siblings depth (current / 2) nodes h (omega arith) in
      elim (Bool-cases (current % 2 == 0)) [
        | inl even ↦ rw (even, climb) (rw (up, even) at rest)
        | inr odd ↦ rw (odd, climb) (rw (up, odd) at rest)
      ]

  pub length-collect_siblings :
      (depth current : ℕ) (nodes : TreeMap (ℕ × ℕ) Hash32)
      → length (collect_siblings d depth current nodes) ≡ depth
  unfolding collect_siblings
  length-collect_siblings zero current nodes = refl
  length-collect_siblings (suc depth) current nodes =
      omega (arith, length-collect_siblings depth (current / 2) nodes)
