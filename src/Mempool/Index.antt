-- ===== src/Mempool/Index.antt =====
-- The indices of the mempool agree, and every insertion keeps it so; `expect` never fails.
use zeno_final_code.Common.{ℕ, ◌≡◌, Option, none, some, arith}
use zeno_final_code.TreeMap
use zeno_final_code.TreeMap.{
  TreeMap, Key, nat_key, pair_key, get-insert, get-remove, compare_pair, contains_key,
}
use zeno_final_code.Types.{Transaction}
use zeno_final_code.Mempool.{key_of}

-- What an index entry says of the transaction that it points to.
abbrev pub Points : ℕ × ℕ → Option Transaction → Type 0
Points k none = ⊥
Points k (some tx) = key_of tx ≡ k

abbrev pub Pays : ℕ → Option Transaction → Type 0
Pays f none = ⊥
Pays f (some tx) = tx.body.fee ≡ f

module _ (id : Transaction → ℕ) where
  pub record AreIndexed (by_hash : TreeMap ℕ Transaction) (by_sender_nonce : TreeMap (ℕ × ℕ) ℕ)
      (order : TreeMap (ℕ × ℕ) (Unit {0})) : Type 0 where
    pub hashed : (h : ℕ) (tx : Transaction) → TreeMap.get h by_hash ≡ some tx → id tx ≡ h
    pub keyed :
        (h : ℕ) (tx : Transaction)
        → TreeMap.get h by_hash ≡ some tx
        → TreeMap.get (key_of tx) by_sender_nonce ≡ some h
    pub ranked :
        (h : ℕ) (tx : Transaction)
        → TreeMap.get h by_hash ≡ some tx
        → TreeMap.get (tx.body.fee, h) order ≡ some tt
    pub points :
        (s n h : ℕ)
        → TreeMap.get (s, n) by_sender_nonce ≡ some h
        → Points (s, n) (TreeMap.get h by_hash)
    pub pays : (f h : ℕ) → TreeMap.get (f, h) order ≡ some tt → Pays f (TreeMap.get h by_hash)

  -- A transaction that is new to the indices enters them.
  pub enter-AreIndexed :
      (tx : Transaction) (by_hash : TreeMap ℕ Transaction) (by_sender_nonce : TreeMap (ℕ × ℕ) ℕ)
      (order : TreeMap (ℕ × ℕ) (Unit {0}))
      → AreIndexed by_hash by_sender_nonce order
      → TreeMap.get (id tx) by_hash ≡ none
      → TreeMap.get (key_of tx) by_sender_nonce ≡ none
      → AreIndexed
          (TreeMap.insert (id tx) tx by_hash)
          (TreeMap.insert (key_of tx) (id tx) by_sender_nonce)
          (TreeMap.insert (tx.body.fee, id tx) tt order)
  enter-AreIndexed tx bh bsn ord w fresh free = record {
    hashed = λ h t g. ground (arith, get-insert (id tx) h tx bh, w.hashed h t);
    keyed = λ h t g. ground (
      arith,
      get-insert (id tx) h tx bh,
      w.keyed h t,
      get-insert (key_of tx) (key_of t) (id tx) bsn,
    );
    ranked = λ h t g. ground (
      arith,
      get-insert (id tx) h tx bh,
      w.ranked h t,
      get-insert (tx.body.fee, id tx) (t.body.fee, h) tt ord,
    );
    points = λ s n h g. ground (
      arith,
      get-insert (key_of tx) (s, n) (id tx) bsn,
      get-insert (id tx) h tx bh,
      w.points s n h,
    );
    pays = λ f h g. ground (
      arith,
      get-insert (tx.body.fee, id tx) (f, h) tt ord,
      get-insert (id tx) h tx bh,
      w.pays f h,
    );
  }

  -- A transaction of the pool leaves the indices.
  pub unlink-AreIndexed :
      (hash : ℕ) (tx : Transaction) (by_hash : TreeMap ℕ Transaction)
      (by_sender_nonce : TreeMap (ℕ × ℕ) ℕ) (order : TreeMap (ℕ × ℕ) (Unit {0}))
      → AreIndexed by_hash by_sender_nonce order
      → TreeMap.get hash by_hash ≡ some tx
      → AreIndexed
          (TreeMap.remove hash by_hash)
          (TreeMap.remove (key_of tx) by_sender_nonce)
          (TreeMap.remove (tx.body.fee, hash) order)
  unlink-AreIndexed hash tx bh bsn ord w here = record {
    hashed = λ h t g. ground (arith, get-remove hash h bh, w.hashed h t);
    keyed = λ h t g. ground (
      arith,
      get-remove hash h bh,
      w.keyed h t,
      w.keyed hash tx here,
      get-remove (key_of tx) (key_of t) bsn,
    );
    ranked = λ h t g. ground (
      arith,
      get-remove hash h bh,
      w.ranked h t,
      get-remove (tx.body.fee, hash) (t.body.fee, h) ord,
    );
    points = λ s n h g.
        ground (arith, get-remove (key_of tx) (s, n) bsn, get-remove hash h bh, w.points s n h);
    pays = λ f h g.
        ground (arith, get-remove (tx.body.fee, hash) (f, h) ord, get-remove hash h bh, w.pays f h);
  }

  -- A transaction takes the place of another with its sender and nonce.
  pub replace-AreIndexed :
      (hash : ℕ) (old tx : Transaction) (by_hash : TreeMap ℕ Transaction)
      (by_sender_nonce : TreeMap (ℕ × ℕ) ℕ) (order : TreeMap (ℕ × ℕ) (Unit {0}))
      → AreIndexed by_hash by_sender_nonce order
      → TreeMap.get (id tx) by_hash ≡ none
      → TreeMap.get hash by_hash ≡ some old
      → key_of old ≡ key_of tx
      → AreIndexed
          (TreeMap.insert (id tx) tx (TreeMap.remove hash by_hash))
          (TreeMap.insert (key_of tx) (id tx) by_sender_nonce)
          (TreeMap.insert (tx.body.fee, id tx) tt (TreeMap.remove (old.body.fee, hash) order))
  replace-AreIndexed hash old tx bh bsn ord w fresh here same =
      let bh' = TreeMap.remove hash bh in
      let ord' = TreeMap.remove (old.body.fee, hash) ord in
      record {
        hashed = λ h t g.
            ground (arith, get-insert (id tx) h tx bh', get-remove hash h bh, w.hashed h t);
        keyed = λ h t g. ground (
          arith,
          get-insert (id tx) h tx bh',
          get-remove hash h bh,
          w.keyed h t,
          w.keyed hash old here,
          get-insert (key_of tx) (key_of t) (id tx) bsn,
        );
        ranked = λ h t g. ground (
          arith,
          get-insert (id tx) h tx bh',
          get-remove hash h bh,
          w.ranked h t,
          get-insert (tx.body.fee, id tx) (t.body.fee, h) tt ord',
          get-remove (old.body.fee, hash) (t.body.fee, h) ord,
        );
        points = λ s n h g. ground (
          arith,
          get-insert (key_of tx) (s, n) (id tx) bsn,
          get-insert (id tx) h tx bh',
          get-remove hash h bh,
          w.points s n h,
          w.keyed hash old here,
        );
        pays = λ f h g. ground (
          arith,
          get-insert (tx.body.fee, id tx) (f, h) tt ord',
          get-remove (old.body.fee, hash) (f, h) ord,
          get-insert (id tx) h tx bh',
          get-remove hash h bh,
          w.pays f h,
        );
      }
