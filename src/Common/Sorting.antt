-- ===== src/Common/Sorting.antt =====
-- `sort_by` of a slice.
use Prim.Native.Nat.{Ordering}
use mathlib.Core.List.{List, [], ◌∷◌}

-- `sort_by`, which is stable: an element goes before the first one that is not less.
unfoldable pub insert_by : {A : Type 0} → (A → A → Ordering) → A → List A → List A
insert_by cmp x [] = x ∷ []
insert_by cmp x (y ∷ ys) = elim (cmp x y) [ Ordering.gt ↦ y ∷ insert_by cmp x ys | _ ↦ x ∷ y ∷ ys ]

unfoldable pub sort_by : {A : Type 0} → (A → A → Ordering) → List A → List A
sort_by cmp [] = []
sort_by cmp (x ∷ xs) = insert_by cmp x (sort_by cmp xs)
