-- ===== src/Base/Repeats.antt =====
-- Lists without repetitions.
use mathlib.Core.Path.{◌≡◌, refl, sym, ap, ◌∙◌}
use mathlib.Core.Logic.{◌≢◌, inl, inr}
use mathlib.Core.Bool.{Bool}
use mathlib.Core.List.{List, [], ◌∷◌, ◌++◌, map}
use incrededup.Base.Tests.{Bool-cases}
use incrededup.Base.Lists.{Elem, Elem-append, filter, Elem-filter}
use incrededup.Base.Sort.{insert_sorted, sort_by, Elem-insert_sorted, Elem-sort_by}

module _ {A B : Type 0} (f : A → B) where
  -- No two elements have the same image.
  abbrev pub Distinct : List A → Type 0
  Distinct [] = Unit
  Distinct (x ∷ xs) = ((y : A) → Elem y xs → f x ≢ f y) × Distinct xs

  -- No repetition among the images themselves.
  abbrev pub DistinctImages : List B → Type 0
  DistinctImages [] = Unit
  DistinctImages (x ∷ xs) = ((y : B) → Elem y xs → x ≢ y) × DistinctImages xs

  pub Elem-map_out : (xs : List A) (y : B) → Elem y (map f xs) → (x : A) × Elem x xs × (y ≡ f x)
  Elem-map_out [] y m = absurd m
  Elem-map_out (x ∷ xs) y (inl e) = (x, inl refl, e)
  Elem-map_out (x ∷ xs) y (inr m) = let (z, k, e) = Elem-map_out xs y m in (z, inr k, e)

  pub Elem-map_in : (xs : List A) (x : A) → Elem x xs → Elem (f x) (map f xs)
  Elem-map_in [] x m = absurd m
  Elem-map_in (z ∷ zs) x (inl e) = inl (ap f e)
  Elem-map_in (z ∷ zs) x (inr m) = inr (Elem-map_in zs x m)

  pub Distinct-map : (xs : List A) → Distinct xs → DistinctImages (map f xs)
  Distinct-map [] h = tt
  Distinct-map (x ∷ xs) h =
      (λ y m. let (z, k, e) = Elem-map_out xs y m in λ p. h.0 z k (p ∙ e), Distinct-map xs h.1)

  pub Distinct-of_map : (xs : List A) → DistinctImages (map f xs) → Distinct xs
  Distinct-of_map [] h = tt
  Distinct-of_map (x ∷ xs) h = (λ y m p. h.0 (f y) (Elem-map_in xs y m) p, Distinct-of_map xs h.1)

  pub map-append : (xs ys : List A) → map f (xs ++ ys) ≡ map f xs ++ map f ys
  map-append [] ys = refl
  map-append (x ∷ xs) ys = ap (λ t. f x ∷ t) (map-append xs ys)

  -- The parts of a list without repetitions have none, and share no image.
  pub Distinct-append :
      (xs ys : List A)
      → Distinct (xs ++ ys)
      → Distinct xs × Distinct ys × ((x y : A) → Elem x xs → Elem y ys → f x ≢ f y)
  Distinct-append [] ys h = (tt, h, λ x y m k. absurd m)
  Distinct-append (x ∷ xs) ys h =
      let (a, b, apart) = Distinct-append xs ys h.1 in
      (
        (λ y m. h.0 y ((Elem-append y xs ys).1 (inl m)), a),
        b,
        λ z y m k. elim m [
          | inl e ↦ λ p. h.0 y ((Elem-append y xs ys).1 (inr k)) (sym (ap f e) ∙ p)
          | inr i ↦ apart z y i k
        ],
      )

  pub Distinct-join :
      (xs ys : List A)
      → Distinct xs
      → Distinct ys
      → ((x y : A) → Elem x xs → Elem y ys → f x ≢ f y)
      → Distinct (xs ++ ys)
  Distinct-join [] ys a b apart = b
  Distinct-join (x ∷ xs) ys a b apart = (
    λ y m. elim ((Elem-append y xs ys).0 m) [ inl k ↦ a.0 y k | inr k ↦ apart x y (inl refl) k ],
    Distinct-join xs ys a.1 b (λ z y k. apart z y (inr k)),
  )

  -- Two members with one image are the same.
  pub Distinct-unique :
      (xs : List A) (x y : A) → Distinct xs → Elem x xs → Elem y xs → f x ≡ f y → x ≡ y
  Distinct-unique [] x y d i j e = absurd i
  Distinct-unique (z ∷ xs) x y d (inl p) (inl q) e = p ∙ sym q
  Distinct-unique (z ∷ xs) x y d (inl p) (inr j) e = absurd (d.0 y j (ap f (sym p) ∙ e))
  Distinct-unique (z ∷ xs) x y d (inr i) (inl q) e = absurd (d.0 x i (ap f (sym q) ∙ sym e))
  Distinct-unique (z ∷ xs) x y d (inr i) (inr j) e = Distinct-unique xs x y d.1 i j e

  pub Distinct-filter : (p : A → Bool) (xs : List A) → Distinct xs → Distinct (filter p xs)
  unfolding filter
  Distinct-filter p [] h = tt
  Distinct-filter p (x ∷ xs) h = elim (Bool-cases (p x)) [
    | inl t ↦ rw t (λ y m. h.0 y ((Elem-filter p y xs).0 m).0, Distinct-filter p xs h.1)
    | inr no_match ↦ rw no_match (Distinct-filter p xs h.1)
  ]

  pub Distinct-snoc :
      (xs : List A) (x : A)
      → Distinct xs
      → ((y : A) → Elem y xs → f x ≢ f y)
      → Distinct (xs ++ x ∷ [])
  Distinct-snoc [] x h n = (λ y m. absurd m, tt)
  Distinct-snoc (z ∷ zs) x h n = (
    λ y m. elim ((Elem-append y zs (x ∷ [])).0 m) [
      | inl k ↦ h.0 y k
      | inr (inl e) ↦ λ p. n z (inl refl) (sym (p ∙ ap f e))
      | inr (inr k) ↦ absurd k
    ],
    Distinct-snoc zs x h.1 (λ y m. n y (inr m)),
  )

  module _ (le : A → A → Bool) where
    Distinct-insert_sorted :
        (x : A) (xs : List A)
        → Distinct xs
        → ((y : A) → Elem y xs → f x ≢ f y)
        → Distinct (insert_sorted le x xs)
    unfolding insert_sorted
    Distinct-insert_sorted x [] h n = (λ y m. absurd m, tt)
    Distinct-insert_sorted x (z ∷ zs) h n = elim (Bool-cases (le x z)) [
      | inl t ↦ rw t (n, h)
      | inr t ↦ rw t (
        λ y m. elim ((Elem-insert_sorted le y x zs).0 m) [
          | inl e ↦ λ p. n z (inl refl) (sym (p ∙ ap f e))
          | inr k ↦ h.0 y k
        ],
        Distinct-insert_sorted x zs h.1 (λ y m. n y (inr m)),
      )
    ]

    pub Distinct-sort_by : (xs : List A) → Distinct xs → Distinct (sort_by le xs)
    unfolding sort_by
    Distinct-sort_by [] h = tt
    Distinct-sort_by (x ∷ xs) h =
        Distinct-insert_sorted x (sort_by le xs) (Distinct-sort_by xs h.1)
          (λ y m. h.0 y ((Elem-sort_by le y xs).0 m))
