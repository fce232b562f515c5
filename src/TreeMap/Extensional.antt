-- ===== src/TreeMap/Extensional.antt =====
-- Maps in the order of their keys that find the same are the same; writing all entries of one map
-- into another.
use zeno_final_code.TreeMap.{Key, TreeMap, get}
use zeno_final_code.TreeMap.Sorted.{Above, IsSorted, get-Above, get-Above_lt}
use zeno_final_code.Common.{
  subst, ◌⊎◌, ◌≡◌, refl, sym, ap, ◌∙◌, inl, inr, none, some, [], ◌∷◌, arith, Ordering,
}

Ordering-cases : (x : Ordering) → (x ≡ Ordering.lt) ⊎ ((x ≡ Ordering.eq) ⊎ (x ≡ Ordering.gt))
Ordering-cases Ordering.lt = inl refl
Ordering-cases Ordering.eq = inr (inl refl)
Ordering-cases Ordering.gt = inr (inr refl)

module _ {K V : Type 0} ⦃o : Key K⦄ where
  get-head : (k : K) (v : V) (m : TreeMap K V) → get k ((k, v) ∷ m) ≡ some v
  unfolding get
  get-head k v m = ground (arith, o.cmp_refl k)

  get-nil : (k : K) → get {V = V} k [] ≡ none
  unfolding get
  get-nil k = refl

  -- A key that a sorted map has and another one finds is not below the other's first.
  get-below :
      (j k : K) (w v : V) (m : TreeMap K V)
      → Above k m
      → get j ((k, v) ∷ m) ≡ some w
      → (o.cmp j k ≡ Ordering.lt → ⊥)
  unfolding get
  get-below j k w v m a h = λ lt. ground (arith, get-Above_lt j k m lt a)

  same_heads :
      (j k : K) (v w : V) (m n : TreeMap K V)
      → Above j m
      → Above k n
      → ((x : K) → get x ((j, v) ∷ m) ≡ get x ((k, w) ∷ n))
      → j ≡ k
  same_heads j k v w m n a b h = elim (Ordering-cases (o.cmp j k)) [
    | inl lt ↦ absurd (get-below j k v w n b (sym (h j) ∙ get-head j v m) lt)
    | inr (inl eq) ↦ o.eq_of_cmp j k eq
    | inr (inr gt) ↦ absurd (get-below k j w v m a (h k ∙ get-head k w n) (o.lt_of_gt j k gt))
  ]

  same_tails :
      (j : K) (v w : V) (m n : TreeMap K V)
      → Above j m
      → Above j n
      → ((x : K) → get x ((j, v) ∷ m) ≡ get x ((j, w) ∷ n))
      → (x : K) → get x m ≡ get x n
  unfolding get
  same_tails j v w m n a b h x = elim (Ordering-cases (o.cmp x j)) [
    | inl lt ↦ ground (arith, h x)
    | inr (inl eq) ↦
        get-Above x m (subst (λ k. Above k m) (sym (o.eq_of_cmp x j eq)) a)
        ∙ sym (get-Above x n (subst (λ k. Above k n) (sym (o.eq_of_cmp x j eq)) b))
    | inr (inr gt) ↦ ground (arith, h x)
  ]

  pub ext-IsSorted :
      (m n : TreeMap K V) → IsSorted m → IsSorted n → ((k : K) → get k m ≡ get k n) → m ≡ n
  ext-IsSorted [] [] s t h = refl
  ext-IsSorted [] ((k, v) ∷ n) s t h = absurd (ground (arith, h k, get-head k v n, get-nil k))
  ext-IsSorted ((k, v) ∷ m) [] s t h = absurd (ground (arith, h k, get-head k v m, get-nil k))
  ext-IsSorted ((j, v) ∷ m) ((k, w) ∷ n) s t h =
      let same = same_heads j k v w m n s.0 t.0 h in
      let t' = subst (λ i. Above i n) (sym same) t.0 in
      let h' : (x : K) → get x ((j, v) ∷ m) ≡ get x ((j, w) ∷ n) =
        λ x. subst (λ i. get x ((j, v) ∷ m) ≡ get x ((i, w) ∷ n)) (sym same) (h x) in
      let values : v ≡ w = ground (arith, h' j, get-head j v m, get-head j w n) in
      rw (same, values)
        (ap (λ l. (k, w) ∷ l) (ext-IsSorted m n s.1 t.1 (same_tails j v w m n s.0 t' h')))
