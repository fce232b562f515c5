-- ===== src/Mempool/Counts.antt =====
-- The number of transactions of each sender, and of the pool, as the maps change.
use zeno_final_code.Common.{
  ℕ, ◌+◌, ◌-◌, ◌≤◌, ◌<◌, ◌≡◌, refl, inl, inr, none, some, [], ◌∷◌, length, ◌==◌, if◌then◌else◌,
  arith, Option-cases, sum_by,
}
use zeno_final_code.TreeMap
use zeno_final_code.TreeMap.{TreeMap, nat_key, get-insert, get-remove}
use zeno_final_code.TreeMap.Sorted.{
  IsSorted, insert-IsSorted, remove-IsSorted, sum_by-insert_new, sum_by-remove,
}
use zeno_final_code.Types.{Transaction}
use zeno_final_code.Mempool.{sender_count, max_per_sender, max_mempool_size}

abbrev pub of_sender : ℕ → ℕ × Transaction → ℕ
of_sender s (h, tx) = if tx.body.sender == s then 1 else 0

abbrev pub one_each : ℕ × Transaction → ℕ
one_each e = 1

pub length-eq-sum_by : (m : TreeMap ℕ Transaction) → length m ≡ sum_by one_each m
length-eq-sum_by [] = refl
length-eq-sum_by (e ∷ m) = omega (arith, length-eq-sum_by m)

-- The counts are those of the pool, none is over the limit, and the pool is within its capacity.
pub record AreCounted (by_hash : TreeMap ℕ Transaction) (counts : TreeMap ℕ ℕ) : Type 0 where
  pub sorted : IsSorted by_hash
  pub counted : (s : ℕ) → sender_count s counts ≡ sum_by (of_sender s) by_hash
  pub limited : (s : ℕ) → sum_by (of_sender s) by_hash ≤ max_per_sender
  pub capped : sum_by one_each by_hash ≤ max_mempool_size

pub enter-AreCounted :
    (h : ℕ) (tx : Transaction) (by_hash : TreeMap ℕ Transaction) (counts : TreeMap ℕ ℕ)
    → AreCounted by_hash counts
    → TreeMap.get h by_hash ≡ none
    → sender_count tx.body.sender counts < max_per_sender
    → sum_by one_each by_hash < max_mempool_size
    → AreCounted
        (TreeMap.insert h tx by_hash)
        (TreeMap.insert tx.body.sender (sender_count tx.body.sender counts + 1) counts)
enter-AreCounted h tx bh counts w fresh room space = record {
  sorted = insert-IsSorted h tx bh w.sorted;
  counted = λ s. ground (
    arith,
    get-insert tx.body.sender s (sender_count tx.body.sender counts + 1) counts,
    sum_by-insert_new (of_sender s) h tx bh fresh,
    w.counted s,
  );
  limited =
      λ s. ground (arith, sum_by-insert_new (of_sender s) h tx bh fresh, w.counted s, w.limited s);
  capped = omega (arith, sum_by-insert_new one_each h tx bh fresh);
}

-- The count of a sender that has a transaction in the pool.
pub count_of_member :
    (h : ℕ) (tx : Transaction) (by_hash : TreeMap ℕ Transaction) (counts : TreeMap ℕ ℕ)
    → AreCounted by_hash counts
    → TreeMap.get h by_hash ≡ some tx
    → (c : ℕ) × (TreeMap.get tx.body.sender counts ≡ some c)
      × (c ≡ sum_by (of_sender tx.body.sender) by_hash)
      × (1 ≤ c)
count_of_member h tx bh counts w here = elim (Option-cases (TreeMap.get tx.body.sender counts)) [
  | inl e ↦ absurd (
      ground (
        arith,
        sum_by-remove (of_sender tx.body.sender) h tx bh w.sorted here,
        w.counted tx.body.sender,
      ))
  | inr (c, e) ↦ (
    c,
    e,
    ground (arith, w.counted tx.body.sender),
    ground (
      arith,
      sum_by-remove (of_sender tx.body.sender) h tx bh w.sorted here,
      w.counted tx.body.sender,
    ),
  )
]

-- The counts after a transaction of the pool is removed, however the new count is stored.
pub remove-AreCounted :
    (h : ℕ) (tx : Transaction) (by_hash : TreeMap ℕ Transaction) (counts new : TreeMap ℕ ℕ)
    → AreCounted by_hash counts
    → TreeMap.get h by_hash ≡ some tx
    → ((s : ℕ)
        → sender_count s new
          ≡ (if s == tx.body.sender then sender_count s counts - 1 else sender_count s counts))
    → AreCounted (TreeMap.remove h by_hash) new
remove-AreCounted h tx bh counts new w here step = record {
  sorted = remove-IsSorted h bh w.sorted;
  counted =
      λ s. ground (arith, step s, sum_by-remove (of_sender s) h tx bh w.sorted here, w.counted s);
  limited = λ s. omega (arith, sum_by-remove (of_sender s) h tx bh w.sorted here, w.limited s);
  capped = omega (arith, sum_by-remove one_each h tx bh w.sorted here, w.capped);
}

-- One of a sender's transactions takes the place of another.
pub replace-AreCounted :
    (h h' : ℕ) (old tx : Transaction) (by_hash : TreeMap ℕ Transaction) (counts : TreeMap ℕ ℕ)
    → AreCounted by_hash counts
    → TreeMap.get h by_hash ≡ some old
    → TreeMap.get h' by_hash ≡ none
    → old.body.sender ≡ tx.body.sender
    → AreCounted (TreeMap.insert h' tx (TreeMap.remove h by_hash)) counts
replace-AreCounted h h' old tx bh counts w here fresh same =
    let gone : TreeMap.get h' (TreeMap.remove h bh) ≡ none = ground (arith, get-remove h h' bh) in
    let sum : (f : ℕ × Transaction → ℕ)
        → sum_by f (TreeMap.insert h' tx (TreeMap.remove h bh)) + f (h, old)
          ≡ sum_by f bh + f (h', tx) =
      λ f. omega (
        arith,
        sum_by-insert_new f h' tx (TreeMap.remove h bh) gone,
        sum_by-remove f h old bh w.sorted here,
      ) in
    record {
      sorted = insert-IsSorted h' tx (TreeMap.remove h bh) (remove-IsSorted h bh w.sorted);
      counted = λ s. ground (arith, sum (of_sender s), w.counted s);
      limited = λ s. ground (arith, sum (of_sender s), w.limited s);
      capped = omega (arith, sum one_each, w.capped);
    }
