-- ===== src/Base/Chunks.antt =====
-- The standard library's `chunks_exact`, its `remainder`, and `chunks` of a slice.
use Prim.Native.Nat.{ℕ, zero, suc, ◌+◌, ◌*◌, ◌<◌, ◌≤◌}
use mathlib.Core.Path.{◌≡◌, refl, ap, sym, ◌∙◌}
use mathlib.Core.Logic.{inl, inr}
use mathlib.Core.List.{List, [], ◌∷◌, ◌++◌}
use native.Mathlib.Omega.{arith}
use incrededup.Base.Tests.{ltb, if◌then◌else◌, Bool-cases}
use incrededup.Base.Lists.{length, take, drop, All, length-append}

module _ {A : Type 0} where
  -- The chunks of `n` elements, and what is left when fewer than `n` are.
  unfoldable pub split : ℕ → ℕ → List A → List (List A) × List A
  split zero n xs = ([], xs)
  split (suc fuel) n xs =
      let rest = split fuel n (drop n xs) in
      if ltb (length xs) n then ([], xs) else (take n xs ∷ rest.0, rest.1)

  unfoldable pub chunks_exact : ℕ → List A → List (List A)
  unfolding split
  chunks_exact n xs = (split (length xs) n xs).0

  unfoldable pub remainder : ℕ → List A → List A
  unfolding split
  remainder n xs = (split (length xs) n xs).1

  unfoldable pub chunks : ℕ → List A → List (List A)
  chunks n xs = elim (remainder n xs) [
    | [] ↦ chunks_exact n xs
    | r ∷ rs ↦ chunks_exact n xs ++ (r ∷ rs) ∷ []
  ]

  unfoldable pub concat : List (List A) → List A
  concat [] = []
  concat (xs ∷ xss) = xs ++ concat xss

  pub length-drop : (n : ℕ) (xs : List A) → n ≤ length xs → length (drop n xs) + n ≡ length xs
  length-drop zero xs h = omega arith
  length-drop (suc n) [] h = absurd (omega arith)
  length-drop (suc n) (x ∷ xs) h = omega (arith, length-drop n xs)

  pub length-take : (n : ℕ) (xs : List A) → n ≤ length xs → length (take n xs) ≡ n
  length-take zero xs h = refl
  length-take (suc n) [] h = absurd (omega arith)
  length-take (suc n) (x ∷ xs) h = omega (arith, length-take n xs)

  pub take-drop : (n : ℕ) (xs : List A) → take n xs ++ drop n xs ≡ xs
  take-drop zero xs = refl
  take-drop (suc n) [] = refl
  take-drop (suc n) (x ∷ xs) = ap (λ t. x ∷ t) (take-drop n xs)

  take-append : (xs ys : List A) → take (length xs) (xs ++ ys) ≡ xs
  take-append [] ys = refl
  take-append (x ∷ xs) ys = ap (λ t. x ∷ t) (take-append xs ys)

  drop-append : (xs ys : List A) → drop (length xs) (xs ++ ys) ≡ ys
  drop-append [] ys = refl
  drop-append (x ∷ xs) ys = drop-append xs ys

  pub take-append_at : (n : ℕ) (xs ys : List A) → length xs ≡ n → take n (xs ++ ys) ≡ xs
  take-append_at n xs ys e = ap (λ k. take k (xs ++ ys)) (sym e) ∙ take-append xs ys

  pub drop-append_at : (n : ℕ) (xs ys : List A) → length xs ≡ n → drop n (xs ++ ys) ≡ ys
  drop-append_at n xs ys e = ap (λ k. drop k (xs ++ ys)) (sym e) ∙ drop-append xs ys

  pub append_assoc : (xs ys zs : List A) → (xs ++ ys) ++ zs ≡ xs ++ (ys ++ zs)
  append_assoc [] ys zs = refl
  append_assoc (x ∷ xs) ys zs = ap (λ t. x ∷ t) (append_assoc xs ys zs)

  drop-nil : (n : ℕ) → drop {A = A} n [] ≡ []
  drop-nil zero = refl
  drop-nil (suc n) = refl

  pub drop-drop : (m n : ℕ) (xs : List A) → drop n (drop m xs) ≡ drop (m + n) xs
  drop-drop zero n xs = ap (λ k. drop k xs) (omega arith)
  drop-drop (suc m) n [] = drop-nil n ∙ sym (drop-nil (suc m + n))
  drop-drop (suc m) n (x ∷ xs) =
      let next : suc (m + n) ≡ suc m + n = omega arith in
      drop-drop m n xs ∙ ap (λ k. drop k (x ∷ xs)) next

  -- The chunks have `n` elements each, fewer are left, and together they are the list.
  pub record IsSplit (n : ℕ) (xs : List A) (s : List (List A) × List A) : Type 0 where
    pub whole : concat s.0 ++ s.1 ≡ xs
    pub full : All (λ c. length c ≡ n) s.0
    pub few : length s.1 < n

  split-IsSplit :
      (fuel n : ℕ) (xs : List A) → 0 < n → length xs ≤ fuel → IsSplit n xs (split fuel n xs)
  unfolding split concat
  split-IsSplit zero n [] h le = record { whole = refl; full = tt; few = h }
  split-IsSplit zero n (x ∷ xs) h le = absurd (omega arith)
  split-IsSplit (suc fuel) n xs h le = elim (Bool-cases (ltb (length xs) n)) [
    | inl t ↦ rw t (record { whole = refl; full = tt; few = ground arith })
    | inr f ↦
        let more : n ≤ length xs = ground arith in
        let rest = split-IsSplit fuel n (drop n xs) h (omega (arith, length-drop n xs more)) in
        rw f (record {
          whole =
              append_assoc (take n xs) _ _ ∙ ap (λ t. take n xs ++ t) rest.whole ∙ take-drop n xs;
          full = (length-take n xs more, rest.full);
          few = rest.few;
        })
  ]

  pub chunks_exact-IsSplit :
      (n : ℕ) (xs : List A) → 0 < n → IsSplit n xs (chunks_exact n xs, remainder n xs)
  unfolding chunks_exact remainder
  chunks_exact-IsSplit n xs h = split-IsSplit (length xs) n xs h (omega arith)

  length-concat :
      (n : ℕ) (xss : List (List A))
      → All (λ c. length c ≡ n) xss
      → length (concat xss) ≡ length xss * n
  unfolding concat
  length-concat n [] h = omega arith
  length-concat n (xs ∷ xss) h =
      omega (arith, length-append xs (concat xss), length-concat n xss h.1)

  -- The lengths of the two parts.
  pub sizes :
      (n : ℕ) (xs : List A)
      → 0 < n
      → (length xs ≡ length (chunks_exact n xs) * n + length (remainder n xs))
        × (length (concat (chunks_exact n xs)) ≡ length (chunks_exact n xs) * n)
        × (length (remainder n xs) < n)
  sizes n xs h =
      let s = chunks_exact-IsSplit n xs h in
      let c = length-concat n (chunks_exact n xs) s.full in
      (
        sym (ap length s.whole)
            ∙ length-append (concat (chunks_exact n xs)) (remainder n xs)
            ∙ ap (λ t. t + length (remainder n xs)) c,
        c,
        s.few,
      )

  pub append_nil : (zs : List A) → zs ++ [] ≡ zs
  append_nil [] = refl
  append_nil (z ∷ zs) = ap (λ t. z ∷ t) (append_nil zs)

  concat-append : (xss : List (List A)) (ys : List A) → concat (xss ++ ys ∷ []) ≡ concat xss ++ ys
  unfolding concat
  concat-append [] ys = append_nil ys
  concat-append (xs ∷ xss) ys =
      ap (λ t. xs ++ t) (concat-append xss ys) ∙ sym (append_assoc xs (concat xss) ys)

  -- The chunks are the list.
  pub concat-chunks : (n : ℕ) (xs : List A) → 0 < n → concat (chunks n xs) ≡ xs
  unfolding chunks
  concat-chunks n xs h = go (remainder n xs) (chunks_exact-IsSplit n xs h)
    where
      go :
          (r : List A)
          → IsSplit n xs (chunks_exact n xs, r)
          → concat (elim r [ [] ↦ chunks_exact n xs | x ∷ rs ↦ chunks_exact n xs ++ (x ∷ rs) ∷ [] ])
            ≡ xs
      go [] s = sym (append_nil _) ∙ s.whole
      go (x ∷ rs) s = concat-append (chunks_exact n xs) (x ∷ rs) ∙ s.whole
