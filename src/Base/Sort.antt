-- ===== src/Base/Sort.antt =====
-- The stable sort of the standard library, as insertion sort: an element stays in front of those
-- that it is not above.
use mathlib.Core.Logic.{◌↔◌}
use mathlib.Core.Bool.{Bool}
use mathlib.Core.List.{List, [], ◌∷◌}
use native.Mathlib.Omega.{arith}
use incrededup.Base.Tests.{if◌then◌else◌}
use incrededup.Base.Lists.{Elem}

module _ {A : Type 0} (le : A → A → Bool) where
  unfoldable pub insert_sorted : A → List A → List A
  insert_sorted x [] = x ∷ []
  insert_sorted x (y ∷ ys) = if le x y then x ∷ y ∷ ys else y ∷ insert_sorted x ys

  unfoldable pub sort_by : List A → List A
  unfolding insert_sorted
  sort_by [] = []
  sort_by (x ∷ xs) = insert_sorted x (sort_by xs)

  pub Elem-insert_sorted : (a x : A) (ys : List A) → Elem a (insert_sorted x ys) ↔ Elem a (x ∷ ys)
  unfolding insert_sorted
  Elem-insert_sorted a x [] = (λ m. m, λ m. m)
  Elem-insert_sorted a x (y ∷ ys) = ground (arith, Elem-insert_sorted a x ys)

  -- A sorted list has the elements of the list.
  pub Elem-sort_by : (a : A) (xs : List A) → Elem a (sort_by xs) ↔ Elem a xs
  unfolding sort_by
  Elem-sort_by a [] = (λ m. m, λ m. m)
  Elem-sort_by a (x ∷ xs) = ground (arith, Elem-insert_sorted a x (sort_by xs), Elem-sort_by a xs)
