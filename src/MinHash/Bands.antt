-- ===== src/MinHash/Bands.antt =====
-- `try_compute_band_hashes` of src/minhash/mod.rs: the bands tile the signature.
use incrededup.Base.{
  drop-drop, ok, ℕ, zero, suc, ◌+◌, ◌*◌, ◌/◌, ◌%◌, ◌<◌, ◌≡◌, refl, sym, ap, ◌∙◌, List, [], ◌∷◌,
  ◌++◌, map, All, arith, length, take, drop, concat, true, false, ◌==◌, length-take, length-drop,
  take-drop,
}
use incrededup.MinHash.{
  num_bands, Hasher, calculate_band_hash, band_hashes, try_compute_band_hashes,
}

-- The slices that the bands hash.
abbrev pub bands : List ℕ → ℕ → ℕ → ℕ → List (List ℕ)
bands signature rows zero band = []
bands signature rows (suc count) band =
    take rows (drop (band * rows) signature) ∷ bands signature rows count (band + 1)

drop-all : {A : Type 0} (n : ℕ) (xs : List A) → length xs ≡ n → drop n xs ≡ []
drop-all zero [] e = refl
drop-all zero (x ∷ xs) e = absurd (omega arith)
drop-all (suc n) [] e = refl
drop-all (suc n) (x ∷ xs) e = drop-all n xs (omega arith)

concat-bands :
    (signature : List ℕ) (rows count band : ℕ)
    → length signature ≡ (band + count) * rows
    → concat (bands signature rows count band) ≡ drop (band * rows) signature
unfolding concat
concat-bands signature rows zero band e =
    sym (drop-all (band * rows) signature (e ∙ ap (λ k. k * rows) (omega arith)))
concat-bands signature rows (suc count) band e =
    let at : (band + suc count) * rows ≡ (band + 1 + count) * rows =
      ap (λ k. k * rows) (omega arith) in
    let next : band * rows + rows ≡ (band + 1) * rows = omega arith in
    let rest =
      concat-bands signature rows count (band + 1) (e ∙ at)
      ∙ ap (λ k. drop k signature) (sym next)
      ∙ sym (drop-drop (band * rows) rows signature) in
    ap (λ t. take rows (drop (band * rows) signature) ++ t) rest
    ∙ take-drop rows (drop (band * rows) signature)

length-bands :
    (signature : List ℕ) (rows count band : ℕ) → length (bands signature rows count band) ≡ count
length-bands signature rows zero band = refl
length-bands signature rows (suc count) band = ap suc (length-bands signature rows count (band + 1))

bands-All :
    (signature : List ℕ) (rows count band : ℕ)
    → length signature ≡ (band + count) * rows
    → All (λ b. length b ≡ rows) (bands signature rows count band)
bands-All signature rows zero band e = tt
bands-All signature rows (suc count) band e =
    let at : (band + suc count) * rows ≡ (band + 1 + count) * rows =
      ap (λ k. k * rows) (omega arith) in
    let size : (band + suc count) * rows ≡ band * rows + rows + count * rows = grind arith in
    (
      length-take rows (drop (band * rows) signature)
          (omega (arith, length-drop (band * rows) signature (omega arith))),
      bands-All signature rows count (band + 1) (e ∙ at),
    )

module _ (H : Hasher) where
  band_hashes-map :
      (signature : List ℕ) (rows count band : ℕ)
      → band_hashes H signature rows count band
        ≡ map (calculate_band_hash H) (bands signature rows count band)
  unfolding band_hashes
  band_hashes-map signature rows zero band = refl
  band_hashes-map signature rows (suc count) band =
      ap (λ t. calculate_band_hash H (take rows (drop (band * rows) signature)) ∷ t)
        (band_hashes-map signature rows count (band + 1))

  -- For a signature whose length is a positive multiple of the number of bands, the result is the
  -- hashes of the parts of a partition of the signature into that number of equal parts.
  pub try_compute_band_hashes-tiles :
      (signature : List ℕ)
      → 0 < length signature
      → length signature % num_bands ≡ 0
      → (parts : List (List ℕ)) × (try_compute_band_hashes H signature
          ≡ ok (map (calculate_band_hash H) parts))
        × (concat parts ≡ signature)
        × (length parts ≡ num_bands)
        × All (λ b. length b ≡ length signature / num_bands) parts
  unfolding try_compute_band_hashes
  try_compute_band_hashes-tiles signature h e =
      let rows : ℕ = length signature / num_bands in
      let whole : length signature ≡ (0 + num_bands) * rows = omega arith in
      let start : 0 * rows ≡ 0 = omega arith in
      let some_left : (length signature == 0) ≡ false = ground arith in
      let fits : (length signature % num_bands == 0) ≡ true = ground arith in
      (
        bands signature rows num_bands 0,
        rw (some_left, fits) (ap ok (band_hashes-map signature rows num_bands 0)),
        concat-bands signature rows num_bands 0 whole ∙ ap (λ k. drop k signature) start,
        length-bands signature rows num_bands 0,
        bands-All signature rows num_bands 0 whole,
      )
