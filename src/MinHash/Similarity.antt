-- ===== src/MinHash/Similarity.antt =====
-- `try_jaccard_from_signatures` of src/minhash/mod.rs: its chunks count every position once.
use incrededup.Base.{
  ok, ℕ, ◌+◌, ◌*◌, ◌/◌, ◌<◌, ◌≤◌, ◌≡◌, refl, sym, ap, ◌∙◌, List, [], ◌∷◌, ◌++◌, All, arith, length,
  drop, drop-append_at, chunks_exact, remainder, concat, sizes, chunks_exact-IsSplit, ltb, true,
  false, ◌==◌, Bool-cases, inl, inr,
}
use incrededup.Match.{Float}
use incrededup.MinHash.{
  to_count, count_equal, count_chunks, equal_count, try_jaccard_from_signatures,
}

count_equal-append :
    (xs ys us vs : List ℕ)
    → length xs ≡ length us
    → count_equal (xs ++ ys) (us ++ vs) ≡ count_equal xs us + count_equal ys vs
unfolding count_equal
count_equal-append [] ys [] vs e = omega arith
count_equal-append [] ys (u ∷ us) vs e = absurd (omega arith)
count_equal-append (x ∷ xs) ys [] vs e = absurd (omega arith)
count_equal-append (x ∷ xs) ys (u ∷ us) vs e =
    omega (arith, count_equal-append xs ys us vs (omega arith))

count_chunks_lem :
    (xss yss : List (List ℕ))
    → length xss ≡ length yss
    → All (λ c. length c ≡ 8) xss
    → All (λ c. length c ≡ 8) yss
    → count_chunks xss yss ≡ count_equal (concat xss) (concat yss)
unfolding count_chunks count_equal concat
count_chunks_lem [] yss e h k = refl
count_chunks_lem (xs ∷ xss) [] e h k = absurd (omega arith)
count_chunks_lem (xs ∷ xss) (ys ∷ yss) e h k = omega (
  arith,
  count_chunks_lem xss yss (omega arith) h.1 k.1,
  count_equal-append xs (concat xss) ys (concat yss) (h.0 ∙ sym k.0),
)

count_equal-none : (xs ys : List ℕ) → length xs ≡ 0 → count_equal xs ys ≡ 0
unfolding count_equal
count_equal-none [] ys e = refl
count_equal-none (x ∷ xs) ys e = absurd (omega arith)

-- The chunked count is the number of equal positions.
pub equal_count_lem :
    (xs ys : List ℕ) → length xs ≡ length ys → equal_count xs ys ≡ count_equal xs ys
unfolding equal_count
equal_count_lem xs ys e =
    let start : ℕ = length xs / 8 * 8 in
    let s = chunks_exact-IsSplit 8 xs (omega arith) in
    let t = chunks_exact-IsSplit 8 ys (omega arith) in
    let cx = concat (chunks_exact 8 xs) in
    let cy = concat (chunks_exact 8 ys) in
    let sx = sizes 8 xs (omega arith) in
    let sy = sizes 8 ys (omega arith) in
    let at_x : length cx ≡ start = omega arith in
    let at_y : length cy ≡ start = omega arith in
    let drop_x : drop start xs ≡ remainder 8 xs =
      ap (drop start) (sym s.whole) ∙ drop-append_at start cx (remainder 8 xs) at_x in
    let drop_y : drop start ys ≡ remainder 8 ys =
      ap (drop start) (sym t.whole) ∙ drop-append_at start cy (remainder 8 ys) at_y in
    let whole : count_equal cx cy + count_equal (remainder 8 xs) (remainder 8 ys)
        ≡ count_equal xs ys =
      sym (count_equal-append cx (remainder 8 xs) cy (remainder 8 ys) (omega arith))
      ∙ ap (λ zs. count_equal zs (cy ++ remainder 8 ys)) s.whole
      ∙ ap (count_equal xs) t.whole in
    let complete =
      count_chunks_lem (chunks_exact 8 xs) (chunks_exact 8 ys) (omega arith) s.full t.full in
    elim (Bool-cases (ltb start (length xs))) [
      | inl more ↦ rw (more, drop_x, drop_y, complete) whole
      | inr none_left ↦
          let no_rest =
            count_equal-none (remainder 8 xs) (remainder 8 ys) (ground (arith, sx.0, sx.2)) in
          rw (none_left, complete) (omega (arith, whole, no_rest))
    ]

count_equal-le : (xs ys : List ℕ) → count_equal xs ys ≤ length xs
unfolding count_equal to_count
count_equal-le [] ys = omega arith
count_equal-le (x ∷ xs) [] = omega arith
count_equal-le (x ∷ xs) (y ∷ ys) = ground (arith, count_equal-le xs ys)

-- For two signatures of one length that are not empty, the similarity is the number of equal
-- positions over the length, and that number is at most the length.
pub try_jaccard_from_signatures-ratio :
    (F : Float) (xs ys : List ℕ)
    → length xs ≡ length ys
    → 0 < length xs
    → (try_jaccard_from_signatures F xs ys ≡ ok (F.ratio (count_equal xs ys) (length xs)))
      × (count_equal xs ys ≤ length xs)
unfolding try_jaccard_from_signatures
try_jaccard_from_signatures-ratio F xs ys e h =
    let same : (length xs == length ys) ≡ true = ground arith in
    let some_left : (length xs == 0) ≡ false = ground arith in
    (rw (same, some_left, equal_count_lem xs ys e) refl, count_equal-le xs ys)
