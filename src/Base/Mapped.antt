-- ===== src/Base/Mapped.antt =====
-- The chunks of a mapped list.
use Prim.Native.Nat.{ℕ, zero, suc}
use mathlib.Core.Path.{◌≡◌, refl, sym, ap, ◌∙◌}
use mathlib.Core.Logic.{inl, inr}
use mathlib.Core.List.{List, [], ◌∷◌, ◌++◌, map}
use incrededup.Base.Tests.{ltb, Bool-cases}
use incrededup.Base.Lists.{length, take, drop}
use incrededup.Base.Repeats.{map-append}
use incrededup.Base.Chunks.{split, chunks, chunks_exact, remainder}

module _ {A B : Type 0} (f : A → B) where
  length-map : (xs : List A) → length (map f xs) ≡ length xs
  length-map [] = refl
  length-map (x ∷ xs) = ap (λ n. suc n) (length-map xs)

  take-map : (n : ℕ) (xs : List A) → take n (map f xs) ≡ map f (take n xs)
  take-map zero xs = refl
  take-map (suc n) [] = refl
  take-map (suc n) (x ∷ xs) = ap (λ t. f x ∷ t) (take-map n xs)

  drop-map : (n : ℕ) (xs : List A) → drop n (map f xs) ≡ map f (drop n xs)
  drop-map zero xs = refl
  drop-map (suc n) [] = refl
  drop-map (suc n) (x ∷ xs) = drop-map n xs

  abbrev map_split : List (List A) × List A → List (List B) × List B
  map_split (cs, r) = (map (map f) cs, map f r)

  split-map : (fuel n : ℕ) (xs : List A) → split fuel n (map f xs) ≡ map_split (split fuel n xs)
  unfolding split
  split-map zero n xs = refl
  split-map (suc fuel) n xs = elim (Bool-cases (ltb (length xs) n)) [
    | inl t ↦ rw (length-map xs) (rw t refl)
    | inr g ↦
        rw (length-map xs)
          (rw g (rw (take-map n xs, drop-map n xs, split-map fuel n (drop n xs)) refl))
  ]

  abbrev join : {C : Type 0} → List (List C) × List C → List (List C)
  join (cs, []) = cs
  join (cs, r ∷ rs) = cs ++ (r ∷ rs) ∷ []

  join-map :
      (cs : List (List A)) (r : List A) → join (map_split (cs, r)) ≡ map (map f) (join (cs, r))
  join-map cs [] = refl
  join-map cs (r ∷ rs) = sym (map-append (map f) cs ((r ∷ rs) ∷ []))

  -- The chunks of a mapped list are the mapped chunks.
  pub chunks-map : (n : ℕ) (xs : List A) → chunks n (map f xs) ≡ map (map f) (chunks n xs)
  unfolding chunks chunks_exact remainder
  chunks-map n xs =
      let s = split (length xs) n xs in
      ap join (ap (λ k. split k n (map f xs)) (length-map xs) ∙ split-map (length xs) n xs)
      ∙ join-map s.0 s.1
