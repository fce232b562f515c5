-- ===== src/Smt.antt =====
-- The sparse Merkle commitment to the accounts: `SparseMerkleState`, `AccountProof` and their
-- helpers (crates/zeno-state/src/lib.rs). A depth is counted from the leaves here: `n` levels are
-- left below depth `SPARSE_DEPTH - n`. The bincode of a leaf, `zeno_codec::encode` of its tag,
-- address and account, is the parameter `encode_leaf`.
pub mod Paths
pub mod Completeness
pub mod Binding
pub mod Soundness
pub mod Shadow
mod Tests
use zeno_final_code.Common.{
  ℕ, zero, suc, ◌+◌, ◌-◌, ◌/◌, ◌%◌, ◌^◌, Bool, true, false, not, Option, none, some, List, [], ◌∷◌,
  ◌++◌, map, reverse, length, get_or, filter, ◌==◌, if◌then◌else◌,
}
use zeno_final_code.TreeMap
use zeno_final_code.TreeMap.{TreeMap, nat_key}
use zeno_final_code.Hash.{Bytes, Hash32, Digests, bytes_eq, to_be_bytes}
use zeno_final_code.Types.{Account}

abbrev pub sparse_depth : ℕ
sparse_depth = 64

-- b"zeno.smt.node.v1"
abbrev pub node_tag : Bytes
node_tag =
    b'z' ∷ b'e' ∷ b'n' ∷ b'o' ∷ b'.' ∷ b's' ∷ b'm' ∷ b't' ∷ b'.' ∷ b'n' ∷ b'o' ∷ b'd' ∷ b'e' ∷ b'.'
    ∷ b'v' ∷ b'1' ∷ []

-- b"zeno.smt.empty.leaf.v1"
abbrev pub empty_leaf_bytes : Bytes
empty_leaf_bytes =
    b'z' ∷ b'e' ∷ b'n' ∷ b'o' ∷ b'.' ∷ b's' ∷ b'm' ∷ b't' ∷ b'.' ∷ b'e' ∷ b'm' ∷ b'p' ∷ b't' ∷ b'y'
    ∷ b'.' ∷ b'l' ∷ b'e' ∷ b'a' ∷ b'f' ∷ b'.' ∷ b'v' ∷ b'1' ∷ []

-- A path key with the hash of its leaf.
abbrev pub Entry : Type 0
Entry = Bytes × Hash32

pub record AccountProof : Type 0 where
  pub address : ℕ
  pub account : Option Account
  pub siblings : List Hash32

-- Every key has 32 bytes, so no depth below `SPARSE_DEPTH` is out of range.
unfoldable pub bit_at : Bytes → ℕ → Bool
bit_at key depth = get_or key (depth / 8) 0 / 2 ^ (7 - depth % 8) % 2 == 1

-- The bit that the level with `n` levels below it branches on.
abbrev pub level_bit : ℕ → Bytes → Bool
level_bit n key = bit_at key (sparse_depth - suc n)

-- The entries that the loops of `subtree_root` and `collect_proof` push to one side.
unfoldable pub side : Bool → ℕ → List Entry → List Entry
side true n entries = filter (λ e. level_bit n e.0) entries
side false n entries = filter (λ e. not (level_bit n e.0)) entries

module _ (d : Digests) where
  unfoldable pub path_key : ℕ → Bytes
  path_key address = d.sha3_256 (to_be_bytes 32 address)

  unfoldable pub node_hash : Hash32 → Hash32 → Hash32
  node_hash left right = d.blake3 (node_tag ++ left ++ right)

  -- `empty_hashes()[SPARSE_DEPTH - n]`.
  unfoldable pub empty_hash : ℕ → Hash32
  empty_hash zero = d.blake3 empty_leaf_bytes
  empty_hash (suc n) = let below = empty_hash n in node_hash below below

  -- `subtree_root(entries, SPARSE_DEPTH - n)`.
  unfoldable pub subtree_root : ℕ → List Entry → Hash32
  subtree_root n [] = empty_hash n
  subtree_root zero (e ∷ entries) = e.1
  subtree_root (suc n) (e ∷ entries) =
      node_hash (subtree_root n (side false n (e ∷ entries)))
        (subtree_root n (side true n (e ∷ entries)))

  -- `collect_proof`: the sibling of each level on the target's way, from the root downwards.
  unfoldable pub collect_proof : ℕ → List Entry → Bytes → List Hash32
  collect_proof zero entries target = []
  collect_proof (suc n) entries target =
      let bit = level_bit n target in
      subtree_root n (side (not bit) n entries) ∷ collect_proof n (side bit n entries) target

  -- One round of the loop in `verify`.
  abbrev pub fold_sibling : Bool → Hash32 → Hash32 → Hash32
  fold_sibling bit sibling current =
      if bit then node_hash sibling current else node_hash current sibling

  -- The loop in `verify`, over the siblings from the leaf upwards, with its counter.
  unfoldable pub verify_loop : Bytes → ℕ → List Hash32 → Hash32 → Hash32
  verify_loop path depth [] current = current
  verify_loop path depth (s ∷ siblings) current =
      verify_loop path (depth + 1) siblings
        (fold_sibling (bit_at path (sparse_depth - 1 - depth)) s current)

module _ (d : Digests) (encode_leaf : ℕ → Account → Bytes) where
  unfoldable pub leaf_hash : ℕ → Account → Hash32
  leaf_hash address account = d.blake3 (encode_leaf address account)

  abbrev pub entry : ℕ × Account → Entry
  entry (address, account) = (path_key d address, leaf_hash address account)

  -- `SparseMerkleState::root`.
  unfoldable pub root : TreeMap ℕ Account → Hash32
  root accounts = subtree_root d sparse_depth (map entry accounts)

  -- `SparseMerkleState::prove`.
  unfoldable pub prove : TreeMap ℕ Account → ℕ → AccountProof
  prove accounts address = record {
    address = address;
    account = TreeMap.get address accounts;
    siblings = collect_proof d sparse_depth (map entry accounts) (path_key d address);
  }

  abbrev pub proved_leaf : ℕ → Option Account → Hash32
  proved_leaf address (some account) = leaf_hash address account
  proved_leaf address none = empty_hash d 0

  -- `AccountProof::verify`.
  unfoldable pub verify : AccountProof → Hash32 → Bool
  verify p expected_root =
      if length p.siblings == sparse_depth
      then bytes_eq
          (verify_loop d (path_key d p.address) 0 (reverse p.siblings)
            (proved_leaf p.address p.account))
          expected_root
      else false
