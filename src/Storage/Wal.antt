-- ===== src/Storage/Wal.antt =====
-- The write-ahead log of `RocksStore`, against the list that `MemoryStore` keeps: appending, the
-- first compaction, and the later ones.
use mathlib.Core.List.{append-nil, append_assoc}
use zeno_final_code.Common.{
  ◌%◌, ◌^◌, ◌<◌, u64_max, ◌+◌, All-imp, Bool, ℕ, ◌+◌, ◌-◌, ◌≤◌, ◌<◌, ◌≡◌, refl, sym, ap, ◌∙◌, inl,
  inr, true, false, List, [], ◌∷◌, ◌++◌, map, filter, length, ltb, leb, arith, All, Bool-cases,
  compare, Ordering,
}
use zeno_final_code.TreeMap
use zeno_final_code.TreeMap.{TreeMap, nat_key}
use zeno_final_code.Consensus.{ConsensusWalEntry}
use zeno_final_code.Consensus.Compaction.{compact_consensus_wal, height_of}
use zeno_final_code.Storage.{RocksWal, append_rocks, load_rocks, compact_loop, compact_rocks}

-- Every key is below the next one.
abbrev pub IsWal : RocksWal → Type 0
IsWal wal = All (λ e. e.0 < wal.next_index) wal.entries

insert-end :
    (k : ℕ) (e : ConsensusWalEntry) (m : TreeMap ℕ ConsensusWalEntry)
    → All (λ x. x.0 < k) m
    → TreeMap.insert k e m ≡ m ++ (k, e) ∷ []
unfolding TreeMap.insert
insert-end k e [] h = refl
insert-end k e ((j, x) ∷ m) h =
    let above : compare k j ≡ Ordering.gt = ground arith in
    rw (above, TreeMap.insert) (ap (λ l. (j, x) ∷ l) (insert-end k e m h.1))

values-append :
    (m : TreeMap ℕ ConsensusWalEntry) (k : ℕ) (e : ConsensusWalEntry)
    → map (λ x. x.1) (m ++ (k, e) ∷ []) ≡ map (λ x. x.1) m ++ e ∷ []
values-append [] k e = refl
values-append (x ∷ m) k e = ap (λ l. x.1 ∷ l) (values-append m k e)

All-append_key :
    (n k : ℕ) (e : ConsensusWalEntry) (m : TreeMap ℕ ConsensusWalEntry)
    → All (λ x. x.0 < n) m
    → n ≤ k
    → All (λ x. x.0 < k + 1) (m ++ (k, e) ∷ [])
All-append_key n k e [] h le = (omega arith, tt)
All-append_key n k e (x ∷ m) h le = (omega arith, All-append_key n k e m h.1 le)

-- Where every key of the log of `RocksStore` is below the next one, which is not the last u64,
-- appending to the log appends to the list that is loaded, as in `MemoryStore`, and keeps every key
-- below the next one.
pub load_rocks-append_rocks :
    (e : ConsensusWalEntry) (wal : RocksWal)
    → IsWal wal
    → wal.next_index < u64_max
    → (load_rocks (append_rocks e wal) ≡ load_rocks wal ++ e ∷ []) × IsWal (append_rocks e wal)
unfolding append_rocks
load_rocks-append_rocks e wal h lt =
    let at_end = insert-end wal.next_index e wal.entries h in
    let exact : (wal.next_index + 1) % 2 ^ 64 ≡ wal.next_index + 1 = omega arith in
    (
      ap (map (λ x. x.1)) at_end ∙ values-append wal.entries wal.next_index e,
      rw (at_end, exact)
          (All-append_key wal.next_index wal.next_index e wal.entries h (omega arith)),
    )

-- A log under the keys from `first` on.
abbrev pub numbered : ℕ → List ConsensusWalEntry → TreeMap ℕ ConsensusWalEntry
numbered first [] = []
numbered first (e ∷ log) = (first, e) ∷ numbered (first + 1) log

values-numbered :
    (first : ℕ) (log : List ConsensusWalEntry) → map (λ x. x.1) (numbered first log) ≡ log
values-numbered first [] = refl
values-numbered first (e ∷ log) = ap (λ l. e ∷ l) (values-numbered (first + 1) log)

remove-below :
    (k first : ℕ) (log : List ConsensusWalEntry)
    → k < first
    → TreeMap.remove k (numbered first log) ≡ numbered first log
unfolding TreeMap.remove
remove-below k first [] h = refl
remove-below k first (e ∷ log) h =
    let lower : compare k first ≡ Ordering.lt = ground arith in
    rw (lower, TreeMap.remove)
      (ap (λ l. (first, e) ∷ l) (remove-below k (first + 1) log (omega arith)))

-- On a log under keys that are at least as many as its entries, the loop deletes nothing.
compact_loop-numbered :
    (below index first removed : ℕ) (entries log : List ConsensusWalEntry)
    → index + length entries ≤ first
    → (compact_loop below index entries (removed, numbered first log)).1 ≡ numbered first log
unfolding compact_loop
compact_loop-numbered below index first removed [] log h = refl
compact_loop-numbered below index first removed (e ∷ entries) log h =
    elim (Bool-cases (ltb (height_of e) below)) [
      | inl old ↦
          rw (old, compact_loop, remove-below index first log (omega arith))
            (compact_loop-numbered below (index + 1) first (removed + 1) entries log (omega arith))
      | inr new ↦
          rw (new, compact_loop)
            (compact_loop-numbered below (index + 1) first removed entries log (omega arith))
    ]

-- Once at least as many entries have gone from the front of the log of `RocksStore` as are left, a
-- compaction deletes nothing, whatever its height.
pub compact_rocks-late :
    (below first : ℕ) (log : List ConsensusWalEntry)
    → length log ≤ first
    → let wal : RocksWal = record {
      entries = numbered first log;
      next_index = first + length log;
    } in
      (compact_rocks below wal).1 ≡ wal
unfolding compact_rocks
compact_rocks-late below first log h =
    ap (λ m. record { entries = m; next_index = first + length log })
      (compact_loop-numbered below 0 first 0 (map (λ e. e.1) (numbered first log)) log
        (rw (values-numbered first log) (omega arith)))

remove-append :
    (k : ℕ) (e : ConsensusWalEntry) (pre : TreeMap ℕ ConsensusWalEntry)
    (log : List ConsensusWalEntry)
    → All (λ x. x.0 < k) pre
    → TreeMap.remove k (pre ++ (k, e) ∷ numbered (k + 1) log) ≡ pre ++ numbered (k + 1) log
unfolding TreeMap.remove
remove-append k e [] log h =
    let here : compare k k ≡ Ordering.eq = ground arith in
    rw (here, TreeMap.remove) (remove-below k (k + 1) log (omega arith))
remove-append k e ((j, x) ∷ pre) log h =
    let above : compare k j ≡ Ordering.gt = ground arith in
    rw (above, TreeMap.remove) (ap (λ l. (j, x) ∷ l) (remove-append k e pre log h.1))

abbrev is_kept : ℕ → ConsensusWalEntry → Bool
is_kept below e = leb below (height_of e)

All-later :
    (pre : TreeMap ℕ ConsensusWalEntry) (k : ℕ)
    → All (λ x. x.0 < k) pre
    → All (λ x. x.0 < k + 1) pre
All-later pre k h = All-imp (λ x lt. omega arith) pre h

compact_loop-first :
    (below index removed : ℕ) (pre : TreeMap ℕ ConsensusWalEntry) (log : List ConsensusWalEntry)
    → All (λ x. x.0 < index) pre
    → let out = compact_loop below index log (removed, pre ++ numbered index log) in
      (out.0 + length (filter (is_kept below) log) ≡ removed + length log)
      × (map (λ x. x.1) out.1 ≡ map (λ x. x.1) pre ++ filter (is_kept below) log)
unfolding compact_loop
compact_loop-first below index removed pre [] h =
    (omega arith, rw (append-nil pre) (sym (append-nil (map (λ x. x.1) pre))))
compact_loop-first below index removed pre (e ∷ log) h =
    elim (Bool-cases (ltb (height_of e) below)) [
      | inl old ↦
          let gone : leb below (height_of e) ≡ false = ground arith in
          let rest =
            compact_loop-first below (index + 1) (removed + 1) pre log (All-later pre index h) in
          rw (old, gone, compact_loop, remove-append index e pre log h)
            (omega (arith, rest.0), rest.1)
      | inr new ↦
          let stays : leb below (height_of e) ≡ true = ground arith in
          let rest =
            compact_loop-first below (index + 1) removed (pre ++ (index, e) ∷ []) log
              (All-append_key index index e pre h (omega arith)) in
          let same = append_assoc pre ((index, e) ∷ []) (numbered (index + 1) log) in
          let values = append_assoc (map (λ x. x.1) pre) (e ∷ []) (filter (is_kept below) log) in
          let rest' = rw (same, values-append pre index e, values) at rest in
          rw (new, stays, compact_loop) (omega (arith, rest'.0), rest'.1)
    ]

-- The first compaction of a log of `RocksStore` removes what `MemoryStore` removes and leaves what it
-- leaves.
pub compact_rocks-first :
    (below : ℕ) (log : List ConsensusWalEntry)
    → let out =
        compact_rocks below (record { entries = numbered 0 log; next_index = length log }) in
      (out.0, load_rocks out.1) ≡ compact_consensus_wal below log
unfolding compact_rocks compact_consensus_wal
compact_rocks-first below log =
    let out = compact_loop below 0 log (0, numbered 0 log) in
    let loop = compact_loop-first below 0 0 [] log tt in
    let count : out.0 ≡ length log - length (filter (is_kept below) log) = omega (arith, loop.0) in
    rw (values-numbered 0 log, count, loop.1, compact_consensus_wal) refl
