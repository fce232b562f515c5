-- ===== src/Zk.antt =====
-- The shielded pool (crates/zeno-zk/src/lib.rs): commitments, their Merkle tree, and the pool. The
-- empty hashes are a table that every public method fills before it reads it; here they are a
-- function of the number of levels below. Random bytes are arguments.
pub mod Pool
pub mod Tree
pub mod Completeness
pub mod DoubleSpend
pub mod Binding
pub mod Precompile
mod Tests
use Prim.Native.String.{String}
use zeno_final_code.Common.{
  ℕ, zero, suc, ◌+◌, ◌-◌, ◌*◌, ◌/◌, ◌%◌, ◌^◌, Bool, true, false, Option, none, some, List, [], ◌∷◌,
  ◌++◌, length, ltb, leb, ◌==◌, if◌then◌else◌, unwrap_or,
}
use zeno_final_code.Common.Results.{Result, ok, err}
use zeno_final_code.TreeMap
use zeno_final_code.TreeMap.{TreeMap, pair_key}
use zeno_final_code.Hash.{Bytes, Hash32, Digests, bytes_eq, zero_hash}

abbrev pub commitment_tree_depth : ℕ
commitment_tree_depth = 32

-- b"zeno.zk.commitment.v1"
abbrev pub commitment_domain : Bytes
commitment_domain =
    b'z' ∷ b'e' ∷ b'n' ∷ b'o' ∷ b'.' ∷ b'z' ∷ b'k' ∷ b'.' ∷ b'c' ∷ b'o' ∷ b'm' ∷ b'm' ∷ b'i' ∷ b't'
    ∷ b'm' ∷ b'e' ∷ b'n' ∷ b't' ∷ b'.' ∷ b'v' ∷ b'1' ∷ []

-- b"zeno.zk.nullifier.v1"
abbrev pub nullifier_domain : Bytes
nullifier_domain =
    b'z' ∷ b'e' ∷ b'n' ∷ b'o' ∷ b'.' ∷ b'z' ∷ b'k' ∷ b'.' ∷ b'n' ∷ b'u' ∷ b'l' ∷ b'l' ∷ b'i' ∷ b'f'
    ∷ b'i' ∷ b'e' ∷ b'r' ∷ b'.' ∷ b'v' ∷ b'1' ∷ []

-- b"zeno.zk.tree_node.v1"
abbrev pub tree_node_domain : Bytes
tree_node_domain =
    b'z' ∷ b'e' ∷ b'n' ∷ b'o' ∷ b'.' ∷ b'z' ∷ b'k' ∷ b'.' ∷ b't' ∷ b'r' ∷ b'e' ∷ b'e' ∷ b'_' ∷ b'n'
    ∷ b'o' ∷ b'd' ∷ b'e' ∷ b'.' ∷ b'v' ∷ b'1' ∷ []

-- b"zeno.zk.empty_leaf.v1"
abbrev pub tree_empty_domain : Bytes
tree_empty_domain =
    b'z' ∷ b'e' ∷ b'n' ∷ b'o' ∷ b'.' ∷ b'z' ∷ b'k' ∷ b'.' ∷ b'e' ∷ b'm' ∷ b'p' ∷ b't' ∷ b'y' ∷ b'_'
    ∷ b'l' ∷ b'e' ∷ b'a' ∷ b'f' ∷ b'.' ∷ b'v' ∷ b'1' ∷ []

pub data ZkError : Type 0 where
  duplicate_commitment nullifier_already_spent invalid_merkle_proof : ZkError
  commitment_not_found insufficient_balance : ZkError
  verification_failed : String → ZkError

pub record ShieldedNote : Type 0 where
  pub value : ℕ
  pub blinding : Bytes
  pub spending_key : Bytes
  pub commitment : Hash32
  pub nullifier : Hash32
  pub tree_index : Option ℕ

pub record CommitmentMerkleProof : Type 0 where
  pub commitment : Hash32
  pub index : ℕ
  pub siblings : List Hash32

pub record CommitmentTree : Type 0 where
  pub leaf_count : ℕ
  pub nodes : TreeMap (ℕ × ℕ) Hash32

-- `CommitmentTree::new`.
abbrev pub new_tree : CommitmentTree
new_tree = record { leaf_count = 0; nodes = [] }

-- The bytes of a fixed-size number, least significant first.
unfoldable pub to_le_bytes : ℕ → ℕ → Bytes
to_le_bytes zero a = []
to_le_bytes (suc n) a = (a % 256) ∷ to_le_bytes n (a / 256)

module _ (d : Digests) where
  unfoldable pub compute_commitment : ℕ → Bytes → Hash32
  compute_commitment value blinding =
      d.blake3 (commitment_domain ++ (to_le_bytes 16 value ++ blinding))

  unfoldable pub compute_nullifier : Hash32 → Bytes → Hash32
  compute_nullifier commitment spending_key =
      d.blake3 (nullifier_domain ++ (commitment ++ spending_key))

  -- `create_note_with_key`, on the bytes that it draws; `create_note` draws the key, too.
  unfoldable pub create_note_with_key : ℕ → Bytes → Bytes → ShieldedNote
  create_note_with_key value blinding spending_key = record {
    value = value;
    blinding = blinding;
    spending_key = spending_key;
    commitment = compute_commitment value blinding;
    nullifier = compute_nullifier (compute_commitment value blinding) spending_key;
    tree_index = none;
  }

  unfoldable pub tree_node_hash : Hash32 → Hash32 → Hash32
  tree_node_hash left right = d.blake3 (tree_node_domain ++ (left ++ right))

  -- `compute_empty_hashes()[COMMITMENT_TREE_DEPTH - n]`.
  unfoldable pub empty_hash : ℕ → Hash32
  empty_hash zero = d.blake3 tree_empty_domain
  empty_hash (suc n) = let below = empty_hash n in tree_node_hash below below

  -- `node_hash`, on the map of the nodes.
  unfoldable pub node_at : TreeMap (ℕ × ℕ) Hash32 → ℕ → ℕ → Hash32
  node_at nodes depth index = unwrap_or (TreeMap.get (depth, index) nodes) (
      if ltb depth (commitment_tree_depth + 1)
      then empty_hash (commitment_tree_depth - depth)
      else zero_hash)

  unfoldable pub root : CommitmentTree → Hash32
  root tree = node_at tree.nodes 0 0

  -- The loop of `insert`, from `depth` levels below the root upwards.
  unfoldable pub update_path : ℕ → ℕ → TreeMap (ℕ × ℕ) Hash32 → TreeMap (ℕ × ℕ) Hash32
  update_path zero current nodes = nodes
  update_path (suc depth) current nodes =
      let parent = current / 2 in
      let left = node_at nodes (suc depth) (parent * 2) in
      let right = node_at nodes (suc depth) (parent * 2 + 1) in
      update_path depth parent (TreeMap.insert (depth, parent) (tree_node_hash left right) nodes)

  unfoldable pub insert : Hash32 → CommitmentTree → Result ZkError ℕ × CommitmentTree
  insert commitment tree =
      let index = tree.leaf_count in
      if leb (2 ^ commitment_tree_depth) index
      then (err (verification_failed "tree is full"), tree)
      else (
        ok index,
        record {
          leaf_count = index + 1;
          nodes =
              update_path commitment_tree_depth index
                (TreeMap.insert (commitment_tree_depth, index) commitment tree.nodes);
        },
      )

  -- The loop of `prove`.
  unfoldable pub collect_siblings : ℕ → ℕ → TreeMap (ℕ × ℕ) Hash32 → List Hash32
  collect_siblings zero current nodes = []
  collect_siblings (suc depth) current nodes =
      node_at nodes (suc depth) (if current % 2 == 0 then current + 1 else current - 1)
      ∷ collect_siblings depth (current / 2) nodes

  unfoldable pub prove : ℕ → CommitmentTree → Result ZkError CommitmentMerkleProof
  prove index tree =
      if leb tree.leaf_count index
      then err commitment_not_found
      else ok (record {
        commitment = node_at tree.nodes commitment_tree_depth index;
        index = index;
        siblings = collect_siblings commitment_tree_depth index tree.nodes;
      })

  -- The loop of `verify_commitment_proof`.
  unfoldable pub climb : ℕ → List Hash32 → Hash32 → Hash32
  climb index [] current = current
  climb index (s ∷ siblings) current =
      climb (index / 2) siblings
        (if index % 2 == 0 then tree_node_hash current s else tree_node_hash s current)

  unfoldable pub verify_commitment_proof : CommitmentMerkleProof → Hash32 → Bool
  verify_commitment_proof p expected_root =
      if length p.siblings == commitment_tree_depth
      then bytes_eq (climb p.index p.siblings p.commitment) expected_root
      else false
