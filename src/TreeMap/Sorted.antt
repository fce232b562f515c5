-- ===== src/TreeMap/Sorted.antt =====
-- Maps in the order of their keys: insertion keeps the order, and sums over the values.
use zeno_final_code.TreeMap.{remove, Key, TreeMap, get, insert}
use zeno_final_code.Common.{ℕ, ◌+◌, ◌≡◌, refl, none, some, [], ◌∷◌, arith, All, Ordering, sum_by}

module _ {K V : Type 0} ⦃o : Key K⦄ where
  -- Every key of the map is greater than `k`.
  abbrev pub Above : K → TreeMap K V → Type 0
  Above k [] = Unit
  Above k ((j, v) ∷ m) = (o.cmp k j ≡ Ordering.lt) × Above k m

  abbrev pub IsSorted : TreeMap K V → Type 0
  IsSorted [] = Unit
  IsSorted ((k, v) ∷ m) = Above k m × IsSorted m

  Above-trans : (j k : K) (m : TreeMap K V) → o.cmp j k ≡ Ordering.lt → Above k m → Above j m
  Above-trans j k [] h a = tt
  Above-trans j k ((i, v) ∷ m) h a = (o.lt_trans j k i h a.0, Above-trans j k m h a.1)

  Above-insert :
      (i k : K) (v : V) (m : TreeMap K V)
      → o.cmp i k ≡ Ordering.lt
      → Above i m
      → Above i (insert k v m)
  unfolding insert
  Above-insert i k v [] h a = (h, tt)
  Above-insert i k v ((j, w) ∷ m) h a = ground (arith, Above-insert i k v m h)

  pub insert-IsSorted : (k : K) (v : V) (m : TreeMap K V) → IsSorted m → IsSorted (insert k v m)
  unfolding insert
  insert-IsSorted k v [] s = (tt, tt)
  insert-IsSorted k v ((j, w) ∷ m) s = ground (
    arith,
    insert-IsSorted k v m s.1,
    Above-trans k j m,
    Above-insert j k v m,
    o.lt_of_gt k j,
    o.eq_of_cmp k j,
  )

  pub get-Above : (k : K) (m : TreeMap K V) → Above k m → get k m ≡ none
  unfolding get
  get-Above k [] a = refl
  get-Above k ((j, v) ∷ m) a = ground (arith, get-Above k m a.1)

  pub get-Above_lt :
      (j k : K) (m : TreeMap K V) → o.cmp j k ≡ Ordering.lt → Above k m → get j m ≡ none
  get-Above_lt j k m h a = get-Above j m (Above-trans j k m h a)

  -- A sum over the entries, after a new entry.
  pub sum_by-insert_new :
      (f : K × V → ℕ) (k : K) (v : V) (m : TreeMap K V)
      → get k m ≡ none
      → sum_by f (insert k v m) ≡ sum_by f m + f (k, v)
  unfolding get insert
  sum_by-insert_new f k v [] h = omega arith
  sum_by-insert_new f k v ((j, w) ∷ m) h = ground (arith, sum_by-insert_new f k v m)

  -- A sum over the entries of a sorted map, after an entry is replaced.
  pub sum_by-insert :
      (f : K × V → ℕ) (k : K) (v u : V) (m : TreeMap K V)
      → IsSorted m
      → get k m ≡ some u
      → sum_by f (insert k v m) + f (k, u) ≡ sum_by f m + f (k, v)
  unfolding get insert
  sum_by-insert f k v u [] s h = cc
  sum_by-insert f k v u ((j, w) ∷ m) s h =
      ground (arith, sum_by-insert f k v u m s.1, get-Above_lt k j m, o.eq_of_cmp k j)

  -- What holds of every entry, and of the entry inserted, holds after the insertion.
  pub All-insert {κ} :
      (P : K × V → Type κ) (k : K) (v : V) (m : TreeMap K V)
      → P (k, v)
      → All P m
      → All P (insert k v m)
  unfolding insert
  All-insert P k v [] p a = (p, tt)
  All-insert P k v ((j, w) ∷ m) p a = ground (arith, All-insert P k v m p a.1)

  pub All-get {κ} :
      (P : K × V → Type κ) (k : K) (v : V) (m : TreeMap K V) → All P m → get k m ≡ some v → P (k, v)
  unfolding get
  All-get P k v [] a h = cc
  All-get P k v ((j, w) ∷ m) a h = ground (arith, o.eq_of_cmp k j, All-get P k v m a.1)

  -- Of a sorted map, what every entry that a lookup finds has, every entry has.
  pub All-of_get {κ} :
      (P : K × V → Type κ) (m : TreeMap K V)
      → IsSorted m
      → ((k : K) (v : V) → get k m ≡ some v → P (k, v))
      → All P m
  unfolding get
  All-of_get P [] s f = tt
  All-of_get P ((j, w) ∷ m) s f = (
    f j w (ground (arith, o.cmp_refl j)),
    All-of_get P m s.1 (λ k v h. f k v (ground (arith, o.eq_of_cmp k j, get-Above j m s.0))),
  )

  Above-remove : (i k : K) (m : TreeMap K V) → Above i m → Above i (remove k m)
  unfolding remove
  Above-remove i k [] a = tt
  Above-remove i k ((j, w) ∷ m) a = ground (arith, Above-remove i k m a.1)

  pub remove-IsSorted : (k : K) (m : TreeMap K V) → IsSorted m → IsSorted (remove k m)
  unfolding remove
  remove-IsSorted k [] s = tt
  remove-IsSorted k ((j, w) ∷ m) s = ground (arith, remove-IsSorted k m s.1, Above-remove j k m s.0)

  remove-Above : (k : K) (m : TreeMap K V) → Above k m → remove k m ≡ m
  unfolding remove
  remove-Above k [] a = refl
  remove-Above k ((j, w) ∷ m) a = ground (arith, remove-Above k m a.1)

  -- A sum over the entries of a sorted map, after an entry is removed.
  pub sum_by-remove :
      (f : K × V → ℕ) (k : K) (v : V) (m : TreeMap K V)
      → IsSorted m
      → get k m ≡ some v
      → sum_by f (remove k m) + f (k, v) ≡ sum_by f m
  unfolding get remove
  sum_by-remove f k v [] s h = cc
  sum_by-remove f k v ((j, w) ∷ m) s h =
      ground (arith, sum_by-remove f k v m s.1, remove-Above j m s.0, o.eq_of_cmp k j)
