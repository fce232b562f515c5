-- ===== src/Mempool.antt =====
-- The mempool (crates/zeno-mempool/src/lib.rs): `Inner` and the methods of `Mempool`, which hold
-- its lock from their first line to their last. A digest is the number that its bytes spell, as an
-- address is. `Transaction::id`, a digest of an encoding, is the parameter `id`. The two `expect`s
-- are the outcome `panicked`.
pub mod Index
pub mod Counts
pub mod Insertion
pub mod Removal
mod Tests
use zeno_final_code.Common.{
  not, Ordering, compare, ℕ, ◌+◌, Bool, true, false, none, some, List, [], ◌∷◌, length, take,
  reverse, ltb, leb, ◌==◌, if◌then◌else◌, map, filter, unwrap_or, u64_max, saturating_add,
  saturating_sub,
}
use zeno_final_code.Common.Sorting.{sort_by}
use zeno_final_code.TreeMap.{then_with, TreeMap, nat_key, pair_key, contains_key}
use zeno_final_code.TreeMap
use zeno_final_code.Types.{Transaction}

abbrev pub max_mempool_size : ℕ
max_mempool_size = 10000

abbrev pub max_per_sender : ℕ
max_per_sender = 64

pub data MempoolError : Type 0 where
  duplicate replacement_fee_too_low full sender_limit_exceeded : MempoolError
  nonce_gap : ℕ → ℕ → MempoolError

pub record Inner : Type 0 where
  pub by_hash : TreeMap ℕ Transaction
  pub by_sender_nonce : TreeMap (ℕ × ℕ) ℕ
  pub order : TreeMap (ℕ × ℕ) (Unit {0})
  pub by_sender_count : TreeMap ℕ ℕ
  pub highest_nonce : TreeMap ℕ ℕ

-- `Inner::default()`.
abbrev pub empty : Inner
empty = record {
  by_hash = [];
  by_sender_nonce = [];
  order = [];
  by_sender_count = [];
  highest_nonce = [];
}

pub data Outcome : Type 0 where
  inserted : Inner → Outcome
  rejected : MempoolError → Inner → Outcome
  panicked : Outcome

abbrev pub key_of : Transaction → ℕ × ℕ
key_of tx = (tx.body.sender, tx.body.nonce)

abbrev pub sender_count : ℕ → TreeMap ℕ ℕ → ℕ
sender_count sender m = unwrap_or (TreeMap.get sender m) 0

-- The transaction leaves three of the indices.
unfoldable pub unlink : ℕ → Transaction → Inner → Inner
unlink hash tx m = record m {
  by_hash = TreeMap.remove hash m.by_hash;
  by_sender_nonce = TreeMap.remove (key_of tx) m.by_sender_nonce;
  order = TreeMap.remove (tx.body.fee, hash) m.order;
}

-- The count goes down by one and, in the removals, out of the map at zero.
unfoldable pub release_count : ℕ → Inner → Inner
release_count sender m = elim (TreeMap.get sender m.by_sender_count) [
  | none ↦ m
  | some c ↦ record m {
    by_sender_count =
        if saturating_sub c 1 == 0
        then TreeMap.remove sender m.by_sender_count
        else TreeMap.insert sender (saturating_sub c 1) m.by_sender_count;
  }
]

module _ (id : Transaction → ℕ) where
  -- The end of `insert`, from `guard.order.insert`.
  unfoldable pub enter : Bool → Transaction → Inner → Inner
  enter is_replacement tx m = record {
    by_hash = TreeMap.insert (id tx) tx m.by_hash;
    by_sender_nonce = TreeMap.insert (key_of tx) (id tx) m.by_sender_nonce;
    order = TreeMap.insert (tx.body.fee, id tx) tt m.order;
    by_sender_count =
        if is_replacement
        then m.by_sender_count
        else TreeMap.insert tx.body.sender (sender_count tx.body.sender m.by_sender_count + 1)
            m.by_sender_count;
    highest_nonce =
        let highest = unwrap_or (TreeMap.get tx.body.sender m.highest_nonce) 0 in
        TreeMap.insert tx.body.sender (if ltb highest tx.body.nonce then tx.body.nonce else highest)
          m.highest_nonce;
  }

  -- The transaction under the same sender and nonce gives way to one with a higher fee.
  unfoldable pub replace : ℕ → Transaction → Inner → Outcome
  replace existing_hash tx m = elim (TreeMap.get existing_hash m.by_hash) [
    | none ↦ panicked
    | some existing ↦
        if leb tx.body.fee existing.body.fee
        then rejected replacement_fee_too_low m
        else inserted (
            enter true tx (record m {
              order = TreeMap.remove (existing.body.fee, existing_hash) m.order;
              by_hash = TreeMap.remove existing_hash m.by_hash;
            }))
  ]

  -- At capacity, the transaction with the lowest fee gives way to one with a higher fee.
  unfoldable pub evict_lowest : Transaction → Inner → TreeMap (ℕ × ℕ) (Unit {0}) → Outcome
  evict_lowest tx m [] = rejected full m
  evict_lowest tx m (((lowest_fee, lowest_hash), u) ∷ rest) =
      if leb tx.body.fee lowest_fee
      then rejected full m
      else elim (TreeMap.get lowest_hash m.by_hash) [
        | none ↦ inserted (enter false tx m)
        | some evicted ↦ elim (TreeMap.get evicted.body.sender m.by_sender_count) [
          | none ↦ panicked
          | some c ↦ inserted (
              enter false tx (record m {
                by_hash = TreeMap.remove lowest_hash m.by_hash;
                by_sender_nonce = TreeMap.remove (key_of evicted) m.by_sender_nonce;
                order = TreeMap.remove (lowest_fee, lowest_hash) m.order;
                by_sender_count =
                    TreeMap.insert evicted.body.sender (saturating_sub c 1) m.by_sender_count;
              }))
        ]
      ]

  unfoldable pub admit : Transaction → Inner → Outcome
  admit tx m =
      let limit =
        saturating_add u64_max (unwrap_or (TreeMap.get tx.body.sender m.highest_nonce) 0)
          max_per_sender in
      if leb max_per_sender (sender_count tx.body.sender m.by_sender_count)
      then rejected sender_limit_exceeded m
      else if ltb limit tx.body.nonce
      then rejected (nonce_gap limit tx.body.nonce) m
      else if leb max_mempool_size (length m.by_hash)
      then evict_lowest tx m m.order
      else inserted (enter false tx m)

  -- `Mempool::insert`.
  unfoldable pub insert : Transaction → Inner → Outcome
  insert tx m =
      if contains_key (id tx) m.by_hash
      then rejected duplicate m
      else elim (TreeMap.get (key_of tx) m.by_sender_nonce) [
        | some existing_hash ↦ replace existing_hash tx m
        | none ↦ admit tx m
      ]

  -- The body of the loop in `remove_committed`, which reads the committed transaction's fields.
  unfoldable pub remove_one : Transaction → Inner → Inner
  remove_one tx m = elim (TreeMap.get (id tx) m.by_hash) [
    | none ↦ m
    | some stored ↦ release_count tx.body.sender (unlink (id tx) tx m)
  ]

  unfoldable pub remove_committed : List Transaction → Inner → Inner
  remove_committed [] m = m
  remove_committed (tx ∷ txs) m = remove_committed txs (remove_one tx m)

abbrev pub is_expired : ℕ → Transaction → Bool
is_expired height tx = elim tx.body.valid_until [ none ↦ false | some until ↦ ltb until height ]

-- The body of the loop in `evict_expired`, which reads the stored transaction's fields.
unfoldable pub evict_one : ℕ → Inner → Inner
evict_one hash m = elim (TreeMap.get hash m.by_hash) [
  | none ↦ m
  | some tx ↦ release_count tx.body.sender (unlink hash tx m)
]

unfoldable pub evict_each : List ℕ → Inner → Inner
evict_each [] m = m
evict_each (hash ∷ hashes) m = evict_each hashes (evict_one hash m)

unfoldable pub evict_expired : ℕ → Inner → Inner
evict_expired height m =
    evict_each (map (λ e. e.0) (filter (λ (e : ℕ × Transaction). is_expired height e.1) m.by_hash))
      m

-- The transactions that the hashes name, where there are any.
unfoldable pub look_up : TreeMap ℕ Transaction → List ℕ → List Transaction
look_up by_hash [] = []
look_up by_hash (h ∷ hs) =
    let rest = look_up by_hash hs in
    elim (TreeMap.get h by_hash) [ none ↦ rest | some tx ↦ tx ∷ rest ]

unfoldable pub select_for_block : ℕ → Inner → List Transaction
select_for_block limit m = look_up m.by_hash (take limit (reverse (map (λ e. e.0.1) m.order)))

-- The closure that `select_for_block_prioritized` sorts by: first the fees from a thousand on, then
-- the higher fee.
unfoldable pub compare_lane : Transaction → Transaction → Ordering
compare_lane a b =
    let lane = λ (tx : Transaction). if leb 1000 tx.body.fee then 1 else 0 in
    then_with (compare (lane b) (lane a)) (compare b.body.fee a.body.fee)

unfoldable pub select_for_block_prioritized : ℕ → ℕ → Inner → List Transaction
select_for_block_prioritized limit height m =
    take limit
      (sort_by compare_lane (filter (λ tx. not (is_expired height tx)) (map (λ e. e.1) m.by_hash)))
