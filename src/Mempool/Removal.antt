-- ===== src/Mempool/Removal.antt =====
-- `evict_expired` and `remove_committed`: what leaves the pool, and that the rest stays consistent.
use zeno_final_code.Common.{
  ℕ, ◌-◌, ◌≡◌, refl, ap, ◌∙◌, inl, inr, Bool, false, Option, none, some, List, [], ◌∷◌, map, filter,
  ◌==◌, if◌then◌else◌, arith, Bool-cases, Option-cases, All, any, saturating_sub, All-imp,
}
use zeno_final_code.TreeMap
use zeno_final_code.TreeMap.{TreeMap, Key, nat_key, pair_key, get-insert, get-remove}
use zeno_final_code.TreeMap.Sorted.{IsSorted, Above}
use zeno_final_code.Types.{Transaction}
use zeno_final_code.Mempool.{
  Inner, sender_count, unlink, release_count, remove_one, remove_committed, evict_one, evict_each,
  evict_expired, is_expired,
}
use zeno_final_code.Mempool.Index.{unlink-AreIndexed}
use zeno_final_code.Mempool.Counts.{remove-AreCounted}
use zeno_final_code.Mempool.Insertion.{IsConsistent}

release_count-maps :
    (sender : ℕ) (m : Inner)
    → ((release_count sender m).by_hash ≡ m.by_hash)
      × ((release_count sender m).by_sender_nonce ≡ m.by_sender_nonce)
      × ((release_count sender m).order ≡ m.order)
unfolding release_count
release_count-maps sender m = elim (Option-cases (TreeMap.get sender m.by_sender_count)) [
  | inl e ↦ rw (e, release_count) (refl, refl, refl)
  | inr (c, e) ↦ rw (e, release_count) (refl, refl, refl)
]

-- The count goes down by one, whether it is stored or, at zero, dropped.
release_count-count :
    (sender s : ℕ) (m : Inner)
    → sender_count s (release_count sender m).by_sender_count ≡ (
        if s == sender
        then sender_count s m.by_sender_count - 1
        else sender_count s m.by_sender_count)
unfolding release_count
release_count-count sender s m = elim (Option-cases (TreeMap.get sender m.by_sender_count)) [
  | inl e ↦ rw (e, release_count) (ground arith)
  | inr (c, e) ↦ elim (Bool-cases (saturating_sub c 1 == 0)) [
    | inl z ↦ rw (e, release_count, z) (ground (arith, get-remove sender s m.by_sender_count))
    | inr p ↦
        rw (e, release_count, p)
          (ground (arith, get-insert sender s (saturating_sub c 1) m.by_sender_count))
  ]
]

module _ (id : Transaction → ℕ) where
  -- A transaction of the pool is taken out of every index.
  take_out-IsConsistent :
      (hash : ℕ) (tx : Transaction) (m : Inner)
      → IsConsistent id m
      → TreeMap.get hash m.by_hash ≡ some tx
      → IsConsistent id (release_count tx.body.sender (unlink hash tx m))
  unfolding unlink
  take_out-IsConsistent hash tx m w here =
      let (bh, bsn, ord) = release_count-maps tx.body.sender (unlink hash tx m) in
      let indexed =
        unlink-AreIndexed id hash tx m.by_hash m.by_sender_nonce m.order w.indexed here in
      let counts =
        remove-AreCounted hash tx m.by_hash m.by_sender_count
          (release_count tx.body.sender (unlink hash tx m)).by_sender_count w.counts here
          (λ s. release_count-count tx.body.sender s (unlink hash tx m)) in
      record { indexed = rw (bh, bsn, ord) indexed; counts = rw bh counts }

  evict_one-IsConsistent :
      (hash : ℕ) (m : Inner) → IsConsistent id m → IsConsistent id (evict_one hash m)
  unfolding evict_one
  evict_one-IsConsistent hash m w = elim (Option-cases (TreeMap.get hash m.by_hash)) [
    | inl e ↦ rw (e, evict_one) w
    | inr (tx, e) ↦ rw (e, evict_one) (take_out-IsConsistent hash tx m w e)
  ]

  evict_each-IsConsistent :
      (l : List ℕ) (m : Inner) → IsConsistent id m → IsConsistent id (evict_each l m)
  unfolding evict_each
  evict_each-IsConsistent [] m w = w
  evict_each-IsConsistent (h ∷ l) m w =
      evict_each-IsConsistent l (evict_one h m) (evict_one-IsConsistent h m w)

  remove_one-IsConsistent :
      (tx : Transaction) (m : Inner)
      → ((t : Transaction) → TreeMap.get (id tx) m.by_hash ≡ some t → t ≡ tx)
      → IsConsistent id m
      → IsConsistent id (remove_one id tx m)
  unfolding remove_one
  remove_one-IsConsistent tx m inj w = elim (Option-cases (TreeMap.get (id tx) m.by_hash)) [
    | inl e ↦ rw (e, remove_one) w
    | inr (t, e) ↦
        let same : t ≡ tx = inj t e in
        rw (e, remove_one) (take_out-IsConsistent (id tx) tx m w (e ∙ ap some same))
  ]

-- The pool by digest after one eviction.
evict_one-by_hash :
    (hash : ℕ) (m : Inner) (h : ℕ)
    → TreeMap.get h (evict_one hash m).by_hash
      ≡ (if h == hash then none else TreeMap.get h m.by_hash)
unfolding evict_one unlink
evict_one-by_hash hash m h = elim (Option-cases (TreeMap.get hash m.by_hash)) [
  | inl e ↦ rw (e, evict_one) (ground arith)
  | inr (tx, e) ↦
      rw (e, evict_one)
        (rw ((release_count-maps tx.body.sender (unlink hash tx m)).0)
          (ground (arith, get-remove hash h m.by_hash)))
]

abbrev pub listed : ℕ → List ℕ → Bool
listed h l = any (λ x. h == x) l

evict_each-by_hash :
    (l : List ℕ) (m : Inner) (h : ℕ)
    → TreeMap.get h (evict_each l m).by_hash
      ≡ (if listed h l then none else TreeMap.get h m.by_hash)
unfolding evict_each
evict_each-by_hash [] m h = refl
evict_each-by_hash (x ∷ l) m h =
    evict_each-by_hash l (evict_one x m) h ∙ rw (evict_one-by_hash x m h) (ground arith)

abbrev expired_in : ℕ → TreeMap ℕ Transaction → List ℕ
expired_in height m = map (λ e. e.0) (filter (λ (e : ℕ × Transaction). is_expired height e.1) m)

abbrev pub keep_live : ℕ → Option Transaction → Option Transaction
keep_live height none = none
keep_live height (some tx) = if is_expired height tx then none else some tx

listed-Above :
    (height h : ℕ) (m : TreeMap ℕ Transaction) → Above h m → listed h (expired_in height m) ≡ false
listed-Above height h [] a = refl
listed-Above height h ((j, t) ∷ m) a = ground (arith, listed-Above height h m a.1)

expired_in_lem :
    (height h : ℕ) (m : TreeMap ℕ Transaction)
    → IsSorted m
    → (if listed h (expired_in height m) then none else TreeMap.get h m)
      ≡ keep_live height (TreeMap.get h m)
unfolding TreeMap.get
expired_in_lem height h [] s = refl
expired_in_lem height h ((j, t) ∷ m) s =
    ground (arith, expired_in_lem height h m s.1, listed-Above height j m s.0)

-- `evict_expired` keeps a consistent pool consistent, and drops exactly the transactions whose last
-- valid height is below the current one.
pub evict_expired_lem :
    (id : Transaction → ℕ) (height : ℕ) (m : Inner)
    → IsConsistent id m
    → IsConsistent id (evict_expired height m)
      × ((h : ℕ)
          → TreeMap.get h (evict_expired height m).by_hash
            ≡ keep_live height (TreeMap.get h m.by_hash))
unfolding evict_expired
evict_expired_lem id height m w = (
  evict_each-IsConsistent id (expired_in height m.by_hash) m w,
  λ h.
      evict_each-by_hash (expired_in height m.by_hash) m h
      ∙ expired_in_lem height h m.by_hash w.counts.sorted,
)

module _ (id : Transaction → ℕ) where
  remove_one-by_hash :
      (tx : Transaction) (m : Inner) (h : ℕ)
      → TreeMap.get h (remove_one id tx m).by_hash
        ≡ (if h == id tx then none else TreeMap.get h m.by_hash)
  unfolding remove_one unlink
  remove_one-by_hash tx m h = elim (Option-cases (TreeMap.get (id tx) m.by_hash)) [
    | inl e ↦ rw (e, remove_one) (ground arith)
    | inr (t, e) ↦
        rw (e, remove_one)
          (rw ((release_count-maps tx.body.sender (unlink (id tx) tx m)).0)
            (ground (arith, get-remove (id tx) h m.by_hash)))
  ]

  -- What the pool holds under the id of a committed transaction is that transaction.
  abbrev pub HasNoClash : List Transaction → TreeMap ℕ Transaction → Type 0
  HasNoClash txs by_hash =
      All (λ (tx : Transaction). (t : Transaction) → TreeMap.get (id tx) by_hash ≡ some t → t ≡ tx)
        txs

  remove_one-HasNoClash :
      (tx : Transaction) (txs : List Transaction) (m : Inner)
      → HasNoClash txs m.by_hash
      → HasNoClash txs (remove_one id tx m).by_hash
  remove_one-HasNoClash tx txs m =
      All-imp (λ x f t g. f t (ground (arith, remove_one-by_hash tx m (id x)))) txs

  -- Where the pool holds nothing else under the id of a committed transaction, `remove_committed`
  -- keeps a consistent pool consistent, and drops exactly the committed transactions.
  pub remove_committed_lem :
      (txs : List Transaction) (m : Inner)
      → HasNoClash txs m.by_hash
      → IsConsistent id m
      → IsConsistent id (remove_committed id txs m)
        × ((h : ℕ)
            → TreeMap.get h (remove_committed id txs m).by_hash
              ≡ (if listed h (map id txs) then none else TreeMap.get h m.by_hash))
  unfolding remove_committed
  remove_committed_lem [] m clear w = (w, λ h. refl)
  remove_committed_lem (tx ∷ txs) m clear w =
      let (kept, gone) =
        remove_committed_lem txs (remove_one id tx m) (remove_one-HasNoClash tx txs m clear.1)
          (remove_one-IsConsistent id tx m clear.0 w) in
      (kept, λ h. gone h ∙ rw (remove_one-by_hash tx m h) (ground arith))
