-- ===== src/Common/Lists.antt =====
-- Sequences: measures by native numbers, Boolean filters and searches, sums, predicates on all
-- members.
use Prim.Native.Nat.{ℕ, zero, suc, ◌+◌, ◌-◌, ◌≤◌}
use mathlib.Core.Path.{◌≡◌, refl, sym, subst, ap, ◌∙◌}
use mathlib.Core.Logic.{◌⊎◌, inl, inr}
use mathlib.Core.Bool.{Bool, true, false, ◌||◌}
use mathlib.Core.Option.{Option, none, some}
use mathlib.Core.List.{List, [], ◌∷◌, ◌++◌, reverse, reverse-append}
use native.Mathlib.Omega.{arith}

module _ {ℓ} {A : Type ℓ} where
  abbrev pub length : List A → ℕ
  length [] = 0
  length (x ∷ xs) = suc (length xs)

  abbrev pub get_elem? : List A → ℕ → Option A
  get_elem? [] i = none
  get_elem? (x ∷ xs) zero = some x
  get_elem? (x ∷ xs) (suc i) = get_elem? xs i

  abbrev pub get_or : List A → ℕ → A → A
  get_or [] i d = d
  get_or (x ∷ xs) zero d = x
  get_or (x ∷ xs) (suc i) d = get_or xs i d

  abbrev pub take : ℕ → List A → List A
  take zero xs = []
  take (suc n) [] = []
  take (suc n) (x ∷ xs) = x ∷ take n xs

  abbrev pub drop : ℕ → List A → List A
  drop zero xs = xs
  drop (suc n) [] = []
  drop (suc n) (x ∷ xs) = drop n xs

  abbrev pub replicate : ℕ → A → List A
  replicate zero a = []
  replicate (suc n) a = a ∷ replicate n a

  abbrev pub keep_if : Bool → A → List A → List A
  keep_if true x xs = x ∷ xs
  keep_if false x xs = xs

  -- `iter().filter(p)`, and `retain(p)`.
  abbrev pub filter : (A → Bool) → List A → List A
  filter p [] = []
  filter p (x ∷ xs) = keep_if (p x) x (filter p xs)

  -- `iter().any(p)`.
  abbrev pub any : (A → Bool) → List A → Bool
  any p [] = false
  any p (x ∷ xs) = p x || any p xs

  abbrev pub sum_by : (A → ℕ) → List A → ℕ
  sum_by f [] = 0
  sum_by f (x ∷ xs) = f x + sum_by f xs

  abbrev pub All {κ} : (A → Type κ) → List A → Type κ
  All P [] = Unit
  All P (x ∷ xs) = P x × All P xs

  pub All-keep_if {κ} :
      (P : A → Type κ) (b : Bool) (x : A) (xs : List A) → P x → All P xs → All P (keep_if b x xs)
  All-keep_if P true x xs p h = (p, h)
  All-keep_if P false x xs p h = h

  pub All-filter {κ} :
      (P : A → Type κ) (p : A → Bool) (xs : List A) → All P xs → All P (filter p xs)
  All-filter P p [] h = tt
  All-filter P p (x ∷ xs) h = All-keep_if P (p x) x (filter p xs) h.0 (All-filter P p xs h.1)

  pub All-imp {κ μ} :
      {P : A → Type κ} {Q : A → Type μ}
      → ((x : A) → P x → Q x)
      → (xs : List A) → All P xs
      → All Q xs
  All-imp f [] h = tt
  All-imp f (x ∷ xs) h = (f x h.0, All-imp f xs h.1)

  pub All-append {κ} : (P : A → Type κ) (xs ys : List A) → All P xs → All P ys → All P (xs ++ ys)
  All-append P [] ys hx hy = hy
  All-append P (x ∷ xs) ys hx hy = (hx.0, All-append P xs ys hx.1 hy)

  pub length-append : (xs ys : List A) → length (xs ++ ys) ≡ length xs + length ys
  length-append [] ys = omega arith
  length-append (x ∷ xs) ys = omega (arith, length-append xs ys)

  pub length-reverse : (xs : List A) → length (reverse xs) ≡ length xs
  length-reverse [] = refl
  length-reverse (x ∷ xs) =
      rw (reverse-append (x ∷ []) xs, length-append (reverse xs) (x ∷ []))
        (omega (arith, length-reverse xs))

  pub length-filter-le : (p : A → Bool) (xs : List A) → length (filter p xs) ≤ length xs
  length-filter-le p [] = omega arith
  length-filter-le p (x ∷ xs) = ground (arith, length-filter-le p xs)

  pub length-take-le : (n : ℕ) (xs : List A) → length (take n xs) ≤ n
  length-take-le zero xs = omega arith
  length-take-le (suc n) [] = omega arith
  length-take-le (suc n) (x ∷ xs) = omega (arith, length-take-le n xs)

  -- A prefix is found again in what begins with it, and so is what follows it.
  pub take-append : (n : ℕ) (xs ys : List A) → length xs ≡ n → take n (xs ++ ys) ≡ xs
  take-append zero [] ys h = refl
  take-append zero (x ∷ xs) ys h = absurd (omega arith)
  take-append (suc n) [] ys h = absurd (omega arith)
  take-append (suc n) (x ∷ xs) ys h = ap (λ l. x ∷ l) (take-append n xs ys (omega arith))

  pub drop-append : (n : ℕ) (xs ys : List A) → length xs ≡ n → drop n (xs ++ ys) ≡ ys
  drop-append zero [] ys h = refl
  drop-append zero (x ∷ xs) ys h = absurd (omega arith)
  drop-append (suc n) [] ys h = absurd (omega arith)
  drop-append (suc n) (x ∷ xs) ys h = drop-append n xs ys (omega arith)

  drop-nil : (m : ℕ) → drop m [] ≡ []
  drop-nil zero = refl
  drop-nil (suc m) = refl

  pub drop-drop : (m n : ℕ) (xs : List A) → drop m (drop n xs) ≡ drop (n + m) xs
  drop-drop m zero xs = ap (λ k. drop k xs) (omega arith)
  drop-drop m (suc n) [] = drop-nil m ∙ sym (drop-nil (suc n + m))
  drop-drop m (suc n) (x ∷ xs) =
      let same : suc (n + m) ≡ suc n + m = omega arith in
      drop-drop m n xs ∙ ap (λ k. drop k (x ∷ xs)) same

  -- What follows a part that stands at a place.
  pub drop-part :
      (k n : ℕ) (xs ys zs : List A) → drop k xs ≡ ys ++ zs → length ys ≡ n → drop (k + n) xs ≡ zs
  drop-part k n xs ys zs e h = sym (drop-drop n k xs) ∙ ap (drop n) e ∙ drop-append n ys zs h

  pub length-drop : (n : ℕ) (xs : List A) → length (drop n xs) ≡ length xs - n
  length-drop zero xs = omega arith
  length-drop (suc n) [] = omega arith
  length-drop (suc n) (x ∷ xs) = omega (arith, length-drop n xs)

  pub length-take : (n : ℕ) (xs : List A) → n ≤ length xs → length (take n xs) ≡ n
  length-take zero xs h = refl
  length-take (suc n) [] h = absurd (omega arith)
  length-take (suc n) (x ∷ xs) h = omega (arith, length-take n xs)

  pub sum_by-append : (f : A → ℕ) (xs ys : List A) → sum_by f (xs ++ ys) ≡ sum_by f xs + sum_by f ys
  sum_by-append f [] ys = omega arith
  sum_by-append f (x ∷ xs) ys = omega (arith, sum_by-append f xs ys)

-- Membership as a place in the list.
abbrev pub Member : {A : Type 0} → A → List A → Type 0
Member a [] = ⊥
Member a (x ∷ xs) = (a ≡ x) ⊎ Member a xs

module _ {A : Type 0} where
  pub All-member {κ} : (P : A → Type κ) {a : A} (xs : List A) → All P xs → Member a xs → P a
  All-member P [] h m = absurd m
  All-member P (x ∷ xs) h (inl e) = subst P (sym e) h.0
  All-member P (x ∷ xs) h (inr m) = All-member P xs h.1 m

  pub All-of_Member {κ} : (P : A → Type κ) (xs : List A) → ((a : A) → Member a xs → P a) → All P xs
  All-of_Member P [] f = tt
  All-of_Member P (x ∷ xs) f = (f x (inl refl), All-of_Member P xs (λ a m. f a (inr m)))

  Member-keep_if : (a y : A) (b : Bool) (ys : List A) → Member a ys → Member a (keep_if b y ys)
  Member-keep_if a y true ys m = inr m
  Member-keep_if a y false ys m = m

  keep_if-Member :
      (a y : A) (b : Bool) (ys : List A)
      → Member a (keep_if b y ys)
      → ((a ≡ y) × (b ≡ true)) ⊎ Member a ys
  keep_if-Member a y true ys (inl e) = inl (e, refl)
  keep_if-Member a y true ys (inr m) = inr m
  keep_if-Member a y false ys m = inr m

  pub Member-filter :
      (p : A → Bool) (a : A) (xs : List A) → Member a xs → p a ≡ true → Member a (filter p xs)
  Member-filter p a [] m e = absurd m
  Member-filter p a (x ∷ xs) (inl q) e = rw (subst (λ y. p y ≡ true) q e) (inl q)
  Member-filter p a (x ∷ xs) (inr m) e =
      Member-keep_if a x (p x) (filter p xs) (Member-filter p a xs m e)

  pub filter-Member :
      (p : A → Bool) (a : A) (xs : List A) → Member a (filter p xs) → Member a xs × (p a ≡ true)
  filter-Member p a [] m = absurd m
  filter-Member p a (x ∷ xs) m = elim (keep_if-Member a x (p x) (filter p xs) m) [
    | inl (e, k) ↦ (inl e, subst (λ y. p y ≡ true) (sym e) k)
    | inr n ↦ (inr (filter-Member p a xs n).0, (filter-Member p a xs n).1)
  ]
