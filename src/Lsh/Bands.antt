-- ===== src/Lsh/Bands.antt =====
-- The loops over the bands in `InMemoryLSH` of src/lsh/mod.rs.
use incrededup.Base.{
  ℕ, zero, suc, ◌+◌, ◌*◌, ◌≡◌, ◌↔◌, ◌⊎◌, inl, inr, refl, sym, ap, ◌∙◌, true, List, [], ◌∷◌, ◌++◌,
  Elem, Elem-append, arith, length, leb, ==-cases, ok, ⊎_elim, if◌then◌else◌, ◌==◌,
}
use incrededup.Table.{Table}
use incrededup.UnionFind.{Uuid}
use incrededup.MinHash.{Hasher, calculate_band_hash, slice}
use incrededup.Lsh.{dedup, hash_of_band, bucket, push_bands, collect}

pub Elem-dedup : (x : ℕ) (xs : List ℕ) → Elem x (dedup xs) ↔ Elem x xs
unfolding dedup
Elem-dedup x [] = (λ m. m, λ m. m)
Elem-dedup x (y ∷ ys) = go (dedup ys) (Elem-dedup x ys)
  where
    go :
        (zs : List ℕ)
        → Elem x zs ↔ Elem x ys
        → Elem x (elim zs [ [] ↦ y ∷ [] | z ∷ zs' ↦ if y == z then z ∷ zs' else y ∷ z ∷ zs' ])
          ↔ Elem x (y ∷ ys)
    go [] h = ground (arith, h)
    go (z ∷ zs) h = ground (arith, h)

module _ (H : Hasher) where
  -- The hash of a band of a signature.
  abbrev pub band_hash : List ℕ → ℕ → ℕ → ℕ
  band_hash signature rows band = calculate_band_hash H (slice H (band * rows) rows signature)

  pub hash_of_band_lem :
      (signature : List ℕ) (rows count band : ℕ)
      → length signature ≡ (band + suc count) * rows
      → (hash_of_band H signature rows band ≡ ok (band_hash signature rows band))
        × (length signature ≡ (band + 1 + count) * rows)
  unfolding hash_of_band
  hash_of_band_lem signature rows count band e =
      let at : (band + suc count) * rows ≡ band * rows + rows + count * rows = grind arith in
      let fits : leb (band * rows + rows) (length signature) ≡ true = ground arith in
      (rw fits refl, e ∙ ap (λ k. k * rows) (omega arith))

module _ (H : Hasher) (B : Table ℕ (List Uuid)) where
  -- One of the bands has the same hash in both signatures.
  abbrev pub Shares : List ℕ → List ℕ → ℕ → ℕ → ℕ → Type 0
  Shares s t rows zero band = ⊥
  Shares s t rows (suc count) band =
      (band_hash H s rows band ≡ band_hash H t rows band) ⊎ Shares s t rows count (band + 1)

  pub pushed : Uuid → List ℕ → ℕ → List B.T → ℕ → List B.T
  pushed doc_id signature rows [] band = []
  pushed doc_id signature rows (table ∷ tables) band =
      B.insert table (band_hash H signature rows band)
        (bucket H B table (band_hash H signature rows band) ++ doc_id ∷ [])
      ∷ pushed doc_id signature rows tables (band + 1)

  unfoldable pub collected : List ℕ → ℕ → List B.T → ℕ → List Uuid
  collected signature rows [] band = []
  collected signature rows (table ∷ tables) band =
      bucket H B table (band_hash H signature rows band)
      ++ collected signature rows tables (band + 1)

  pub push_bands_lem :
      (doc_id : Uuid) (signature : List ℕ) (rows : ℕ) (tables : List B.T) (band : ℕ)
      → length signature ≡ (band + length tables) * rows
      → push_bands H B doc_id signature rows tables band
        ≡ ok (pushed doc_id signature rows tables band)
  unfolding push_bands pushed
  push_bands_lem doc_id signature rows [] band e = refl
  push_bands_lem doc_id signature rows (table ∷ tables) band e =
      let (run, next) = hash_of_band_lem H signature rows (length tables) band e in
      rw (run, push_bands_lem doc_id signature rows tables (band + 1) next) refl

  pub collect_lem :
      (signature : List ℕ) (rows : ℕ) (tables : List B.T) (band : ℕ)
      → length signature ≡ (band + length tables) * rows
      → collect H B signature rows tables band ≡ ok (collected signature rows tables band)
  unfolding collect collected
  collect_lem signature rows [] band e = refl
  collect_lem signature rows (table ∷ tables) band e =
      let (run, next) = hash_of_band_lem H signature rows (length tables) band e in
      rw (run, collect_lem signature rows tables (band + 1) next) refl

  pub length-pushed :
      (doc_id : Uuid) (signature : List ℕ) (rows : ℕ) (tables : List B.T) (band : ℕ)
      → length (pushed doc_id signature rows tables band) ≡ length tables
  unfolding pushed
  length-pushed doc_id signature rows [] band = refl
  length-pushed doc_id signature rows (table ∷ tables) band =
      ap suc (length-pushed doc_id signature rows tables (band + 1))

  bucket-insert :
      (table : B.T) (h : ℕ) (ids : List Uuid) → bucket H B (B.insert table h ids) h ≡ ids
  bucket-insert table h ids = rw (B.get-insert_self table h ids, bucket) refl

  Elem-bucket :
      (table : B.T) (h k : ℕ) (d x : Uuid)
      → Elem x (bucket H B (B.insert table h (bucket H B table h ++ d ∷ [])) k)
        ↔ (Elem x (bucket H B table k) ⊎ (x ≡ d) × (h ≡ k))
  Elem-bucket table h k d x =
      let ids' = bucket H B table h ++ d ∷ [] in
      elim (==-cases k h) [
        | inl (t, e) ↦
            let self : bucket H B (B.insert table h ids') k ≡ ids' =
              ap (bucket H B (B.insert table h ids')) e ∙ bucket-insert table h ids' in
            let old : bucket H B table k ≡ bucket H B table h = ap (bucket H B table) e in
            rw (self, old) (both (bucket H B table h) (sym e))
        | inr (t, n) ↦
            rw (B.get-insert_ne table h k ids' n, bucket)
              (inl, ⊎_elim (λ m. m) (λ p. absurd (n (sym p.1))))
      ]
    where
      both : (ids : List Uuid) → h ≡ k → Elem x (ids ++ d ∷ []) ↔ (Elem x ids ⊎ (x ≡ d) × (h ≡ k))
      both ids e = ground (arith, Elem-append x ids (d ∷ []))

  joined :
      {P Q : Type 0} (d x : Uuid) (xs' xs ys' ys : List Uuid)
      → Elem x xs' ↔ (Elem x xs ⊎ (x ≡ d) × P)
      → Elem x ys' ↔ (Elem x ys ⊎ (x ≡ d) × Q)
      → Elem x (xs' ++ ys') ↔ (Elem x (xs ++ ys) ⊎ (x ≡ d) × (P ⊎ Q))
  joined d x xs' xs ys' ys h k = ground (arith, h, k, Elem-append x xs' ys', Elem-append x xs ys)

  -- What an insertion adds to the candidates of a signature.
  pub Elem-collected :
      (d x : Uuid) (s t : List ℕ) (rows : ℕ) (tables : List B.T) (band : ℕ)
      → Elem x (collected t rows (pushed d s rows tables band) band)
        ↔ (Elem x (collected t rows tables band) ⊎ (x ≡ d) × Shares s t rows (length tables) band)
  unfolding collected pushed
  Elem-collected d x s t rows [] band = (inl, ⊎_elim (λ m. m) (λ k. k.1))
  Elem-collected d x s t rows (table ∷ tables) band =
      joined d x _ _ _ _ (Elem-bucket table (band_hash H s rows band) (band_hash H t rows band) d x)
        (Elem-collected d x s t rows tables (band + 1))
