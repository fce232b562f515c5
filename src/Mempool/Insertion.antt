-- ===== src/Mempool/Insertion.antt =====
-- `Mempool::insert`: it never panics, an error changes nothing, and a success keeps the indices,
-- the counts and the limits.
use zeno_final_code.Common.{
  ℕ, ◌<◌, ◌≡◌, refl, inl, inr, false, none, some, [], ◌∷◌, length, arith, Bool-cases, Option-cases,
  sum_by, leb, ltb, unwrap_or, saturating_add, saturating_sub, u64_max,
}
use zeno_final_code.TreeMap
use zeno_final_code.TreeMap.Sorted.{sum_by-remove}
use zeno_final_code.TreeMap.{
  TreeMap, Key, nat_key, pair_key, get-insert, get-insert_self, get-remove, compare_pair,
  contains_key,
}
use zeno_final_code.Types.{Transaction}
use zeno_final_code.Mempool.{
  Inner, Outcome, inserted, rejected, panicked, key_of, sender_count, enter, replace, evict_lowest,
  admit, insert, max_per_sender, max_mempool_size,
}
use zeno_final_code.Mempool.Index.{
  Pays, AreIndexed, enter-AreIndexed, unlink-AreIndexed, replace-AreIndexed,
}
use zeno_final_code.Mempool.Counts.{
  AreCounted, enter-AreCounted, count_of_member, remove-AreCounted, replace-AreCounted, one_each,
  length-eq-sum_by,
}

module _ (id : Transaction → ℕ) where
  pub record IsConsistent (m : Inner) : Type 0 where
    pub indexed : AreIndexed id m.by_hash m.by_sender_nonce m.order
    pub counts : AreCounted m.by_hash m.by_sender_count

  -- How an insertion into `m` may end.
  abbrev pub Ends : Transaction → Inner → Outcome → Type 0
  Ends tx m (inserted m') = IsConsistent m' × (TreeMap.get (id tx) m'.by_hash ≡ some tx)
  Ends tx m (rejected e m') = m' ≡ m
  Ends tx m panicked = ⊥

  replace-Ends :
      (hash : ℕ) (tx : Transaction) (m : Inner)
      → IsConsistent m
      → TreeMap.get (id tx) m.by_hash ≡ none
      → TreeMap.get (key_of tx) m.by_sender_nonce ≡ some hash
      → Ends tx m (replace id hash tx m)
  unfolding replace enter
  replace-Ends hash tx m w fresh taken = elim (Option-cases (TreeMap.get hash m.by_hash)) [
    | inl e ↦ absurd (ground (arith, w.indexed.points tx.body.sender tx.body.nonce hash taken))
    | inr (old, e) ↦
        let same : key_of old ≡ key_of tx =
          ground (arith, w.indexed.points tx.body.sender tx.body.nonce hash taken) in
        elim (Bool-cases (leb tx.body.fee old.body.fee)) [
          | inl low ↦ rw (e, replace, low) refl
          | inr high ↦
              rw (e, replace, high)
                (
                  record {
                    indexed =
                        replace-AreIndexed id hash old tx m.by_hash m.by_sender_nonce m.order
                          w.indexed fresh e same;
                    counts =
                        replace-AreCounted hash (id tx) old tx m.by_hash m.by_sender_count w.counts
                          e fresh (cc);
                  },
                  get-insert_self (id tx) tx (TreeMap.remove hash m.by_hash),
                )
        ]
  ]

  -- A transaction that is new to a consistent pool enters it, where there is room.
  enter-IsConsistent :
      (tx : Transaction) (m : Inner)
      → IsConsistent m
      → TreeMap.get (id tx) m.by_hash ≡ none
      → TreeMap.get (key_of tx) m.by_sender_nonce ≡ none
      → sender_count tx.body.sender m.by_sender_count < max_per_sender
      → sum_by one_each m.by_hash < max_mempool_size
      → Ends tx m (inserted (enter id false tx m))
  unfolding enter
  enter-IsConsistent tx m w fresh free room space = (
    record {
      indexed = enter-AreIndexed id tx m.by_hash m.by_sender_nonce m.order w.indexed fresh free;
      counts = enter-AreCounted (id tx) tx m.by_hash m.by_sender_count w.counts fresh room space;
    },
    get-insert_self (id tx) tx m.by_hash,
  )

  -- What `evict_lowest` leaves before the new transaction enters.
  evicted-IsConsistent :
      (f h c : ℕ) (old : Transaction) (m : Inner)
      → IsConsistent m
      → TreeMap.get h m.by_hash ≡ some old
      → old.body.fee ≡ f
      → TreeMap.get old.body.sender m.by_sender_count ≡ some c
      → IsConsistent (record m {
        by_hash = TreeMap.remove h m.by_hash;
        by_sender_nonce = TreeMap.remove (key_of old) m.by_sender_nonce;
        order = TreeMap.remove (f, h) m.order;
        by_sender_count = TreeMap.insert old.body.sender (saturating_sub c 1) m.by_sender_count;
      })
  evicted-IsConsistent f h c old m w here fee count = record {
    indexed =
        rw (← fee) (unlink-AreIndexed id h old m.by_hash m.by_sender_nonce m.order w.indexed here);
    counts =
        remove-AreCounted h old m.by_hash m.by_sender_count
          (TreeMap.insert old.body.sender (saturating_sub c 1) m.by_sender_count) w.counts here
          (λ s.
            ground
              (arith, get-insert old.body.sender s (saturating_sub c 1) m.by_sender_count, count));
  }

  -- The first entry of the order is a transaction of the pool.
  first-paid :
      (f h : ℕ) (u : Unit {0}) (rest : TreeMap (ℕ × ℕ) (Unit {0})) (m : Inner)
      → m.order ≡ ((f, h), u) ∷ rest
      → IsConsistent m
      → Pays f (TreeMap.get h m.by_hash)
  first-paid f h u rest m same w = w.indexed.pays f h (rw same (unfold TreeMap.get in ground arith))

  evict_lowest-Ends :
      (tx : Transaction) (m : Inner) (order : TreeMap (ℕ × ℕ) (Unit {0}))
      → m.order ≡ order
      → IsConsistent m
      → TreeMap.get (id tx) m.by_hash ≡ none
      → TreeMap.get (key_of tx) m.by_sender_nonce ≡ none
      → sender_count tx.body.sender m.by_sender_count < max_per_sender
      → Ends tx m (evict_lowest id tx m order)
  unfolding evict_lowest
  evict_lowest-Ends tx m [] same w fresh free room = refl
  evict_lowest-Ends tx m (((f, h), u) ∷ rest) same w fresh free room =
      elim (Bool-cases (leb tx.body.fee f)) [
        | inl low ↦ rw low refl
        | inr high ↦ elim (Option-cases (TreeMap.get h m.by_hash)) [
          | inl e ↦ absurd (ground (arith, first-paid f h u rest m same w))
          | inr (old, e) ↦
              let (c, count, sum, pos) =
                count_of_member h old m.by_hash m.by_sender_count w.counts e in
              let fee : old.body.fee ≡ f = ground (arith, first-paid f h u rest m same w) in
              let left = evicted-IsConsistent f h c old m w e fee count in
              let m' : Inner = record m {
                by_hash = TreeMap.remove h m.by_hash;
                by_sender_nonce = TreeMap.remove (key_of old) m.by_sender_nonce;
                order = TreeMap.remove (f, h) m.order;
                by_sender_count =
                    TreeMap.insert old.body.sender (saturating_sub c 1) m.by_sender_count;
              } in
              let shrunk = sum_by-remove one_each h old m.by_hash w.counts.sorted e in
              rw (high, e, count)
                (enter-IsConsistent tx m' left (ground (arith, get-remove h (id tx) m.by_hash))
                  (ground (arith, get-remove (key_of old) (key_of tx) m.by_sender_nonce))
                  (ground (
                    arith,
                    count,
                    get-insert old.body.sender tx.body.sender (saturating_sub c 1)
                        m.by_sender_count,
                  ))
                  (omega (arith, shrunk, w.counts.capped)))
        ]
      ]

  admit-Ends :
      (tx : Transaction) (m : Inner)
      → IsConsistent m
      → TreeMap.get (id tx) m.by_hash ≡ none
      → TreeMap.get (key_of tx) m.by_sender_nonce ≡ none
      → Ends tx m (admit id tx m)
  unfolding admit
  admit-Ends tx m w fresh free =
      let count = sender_count tx.body.sender m.by_sender_count in
      let limit =
        saturating_add u64_max (unwrap_or (TreeMap.get tx.body.sender m.highest_nonce) 0)
          max_per_sender in
      elim (Bool-cases (leb max_per_sender count)) [
        | inl over ↦ rw over refl
        | inr room ↦ elim (Bool-cases (ltb limit tx.body.nonce)) [
          | inl gap ↦ rw (room, gap) refl
          | inr near ↦ elim (Bool-cases (leb max_mempool_size (length m.by_hash))) [
            | inl at_capacity ↦
                rw (room, near, at_capacity)
                  (evict_lowest-Ends tx m m.order refl w fresh free (ground arith))
            | inr space ↦
                rw (room, near, space)
                  (enter-IsConsistent tx m w fresh free (ground arith)
                    (ground (arith, length-eq-sum_by m.by_hash)))
          ]
        ]
      ]

  -- On a consistent pool `insert` never reaches one of its `expect`s; when it reports an error the
  -- pool is as it was; and when it succeeds the pool is consistent again, within its limits, and
  -- holds the transaction.
  pub insert-Ends : (tx : Transaction) (m : Inner) → IsConsistent m → Ends tx m (insert id tx m)
  unfolding insert
  insert-Ends tx m w = elim (Option-cases (TreeMap.get (id tx) m.by_hash)) [
    | inr (old, e) ↦ rw (e, insert) refl
    | inl fresh ↦ elim (Option-cases (TreeMap.get (key_of tx) m.by_sender_nonce)) [
      | inl free ↦ rw (fresh, insert, free) (admit-Ends tx m w fresh free)
      | inr (hash, taken) ↦ rw (fresh, insert, taken) (replace-Ends hash tx m w fresh taken)
    ]
  ]
