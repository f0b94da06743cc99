-- ===== src/Base/Lists.antt =====
-- Lists measured and indexed by native numbers, and membership by recursion.
use Prim.Native.Nat.{ℕ, zero, suc, ◌+◌}
use mathlib.Core.Path.{◌≡◌, subst, sym}
use mathlib.Core.Logic.{◌↔◌, ◌⊎◌, inl, inr, ⊎_elim}
use mathlib.Core.Bool.{Bool, true, false, ◌||◌}
use mathlib.Core.List.{List, [], ◌∷◌, ◌++◌}
use native.Mathlib.Omega.{arith}
use incrededup.Base.Tests.{if◌then◌else◌, ◌==◌, Bool-cases, clash}

module _ {ℓ} {A : Type ℓ} where
  abbrev pub length : List A → ℕ
  length [] = 0
  length (x ∷ xs) = suc (length xs)

  abbrev pub take : ℕ → List A → List A
  take zero xs = []
  take (suc n) [] = []
  take (suc n) (x ∷ xs) = x ∷ take n xs

  abbrev pub drop : ℕ → List A → List A
  drop zero xs = xs
  drop (suc n) [] = []
  drop (suc n) (x ∷ xs) = drop n xs

  pub length-append : (xs ys : List A) → length (xs ++ ys) ≡ length xs + length ys
  length-append [] ys = omega arith
  length-append (x ∷ xs) ys = omega (arith, length-append xs ys)

-- Membership by recursion, a sum which the tactics take apart.
abbrev pub Elem : {A : Type 0} → A → List A → Type 0
Elem x [] = ⊥
Elem x (y ∷ ys) = (x ≡ y) ⊎ Elem x ys

abbrev pub All {ℓ κ} : {A : Type ℓ} → (A → Type κ) → List A → Type κ
All P [] = Unit
All P (x ∷ xs) = P x × All P xs

module _ {A : Type 0} where
  pub Elem-append : (x : A) (xs ys : List A) → Elem x (xs ++ ys) ↔ (Elem x xs ⊎ Elem x ys)
  Elem-append x [] ys = (inr, ⊎_elim absurd (λ h. h))
  Elem-append x (z ∷ xs) ys = ground (arith, Elem-append x xs ys)

  pub All-elem : (P : A → Type 0) (xs : List A) → All P xs → (x : A) → Elem x xs → P x
  All-elem P [] h x m = absurd m
  All-elem P (y ∷ ys) h x (inl e) = subst P (sym e) h.0
  All-elem P (y ∷ ys) h x (inr m) = All-elem P ys h.1 x m

  pub All-map {κ μ} :
      {P : A → Type κ} {Q : A → Type μ} (xs : List A) → ((x : A) → P x → Q x) → All P xs → All Q xs
  All-map [] f h = tt
  All-map (x ∷ xs) f h = (f x h.0, All-map xs f h.1)

  pub All-append {κ} : (P : A → Type κ) (xs ys : List A) → All P xs → All P ys → All P (xs ++ ys)
  All-append P [] ys h k = k
  All-append P (x ∷ xs) ys h k = (h.0, All-append P xs ys h.1 k)

-- `filter` of an iterator.
unfoldable pub filter {ℓ} : {A : Type ℓ} → (A → Bool) → List A → List A
filter p [] = []
filter p (x ∷ xs) = let rest = filter p xs in if p x then x ∷ rest else rest

pub Elem-filter :
    {A : Type 0} (p : A → Bool) (x : A) (xs : List A)
    → Elem x (filter p xs) ↔ (Elem x xs × (p x ≡ true))
unfolding filter
Elem-filter p x [] = (λ m. absurd m, λ m. absurd m.0)
Elem-filter p x (y ∷ xs) = elim (Bool-cases (p y)) [
  | inl t ↦ rw t (
    λ m. elim m [
      | inl e ↦ (inl e, subst (λ z. p z ≡ true) (sym e) t)
      | inr k ↦ let (a, b) = (Elem-filter p x xs).0 k in (inr a, b)
    ],
    λ k. elim k.0 [ inl e ↦ inl e | inr m ↦ inr ((Elem-filter p x xs).1 (m, k.1)) ],
  )
  | inr f ↦ rw f (
    λ m. let (a, b) = (Elem-filter p x xs).0 m in (inr a, b),
    λ k. elim k.0 [
      | inl e ↦ absurd (clash (subst (λ z. p z ≡ true) e k.1) f)
      | inr m ↦ (Elem-filter p x xs).1 (m, k.1)
    ],
  )
]

-- `contains` of a list or a set of ids.
unfoldable pub contains : List ℕ → ℕ → Bool
contains [] a = false
contains (x ∷ xs) a = x == a || contains xs a

pub contains_iff : (xs : List ℕ) (a : ℕ) → (contains xs a ≡ true) ↔ Elem a xs
unfolding contains
contains_iff [] a = (λ h. cc, λ m. absurd m)
contains_iff (x ∷ xs) a = ground (arith, contains_iff xs a)

-- A set of ids gains a member.
unfoldable pub include : ℕ → List ℕ → List ℕ
include a xs = if contains xs a then xs else a ∷ xs

pub Elem-include : (a b : ℕ) (xs : List ℕ) → Elem b (include a xs) ↔ ((b ≡ a) ⊎ Elem b xs)
unfolding include
Elem-include a b xs = elim (Bool-cases (contains xs a)) [
  | inl old ↦ rw old (inr, ⊎_elim (λ e. rw e ((contains_iff xs a).0 old)) (λ m. m))
  | inr new ↦ rw new (λ m. m, λ m. m)
]
