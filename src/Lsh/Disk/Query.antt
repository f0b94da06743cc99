-- ===== src/Lsh/Disk/Query.antt =====
-- `DiskLSH` of src/lsh/mod.rs: what a query finds.
use incrededup.Base.{
  ℕ, zero, suc, ◌+◌, ◌*◌, ◌≡◌, ◌↔◌, ◌⊎◌, inl, inr, refl, subst, List, [], ◌++◌, Elem, All,
  Elem-append, Elem-sort_by, leb, length, sort_by, ok, ⊎_elim,
}
use incrededup.Table.{Table}
use incrededup.UnionFind.{Uuid}
use incrededup.MinHash.{Hasher}
use incrededup.Lsh.{dedup}
use incrededup.Lsh.Bands.{band_hash, Elem-dedup, hash_of_band_lem}
use incrededup.Lsh.Query.{validate_signature_len_lem}
use incrededup.Lsh.Disk.{
  DocumentEntry, Doc, BandKey, DiskLsh, under, insert_batch, collect_bands, query,
}
use incrededup.Lsh.Disk.Buckets.{Under, keys_of}
use incrededup.Lsh.Disk.Batch.{
  from_start, IsDisk, Suits, filed, Brings, with_bands, insert_batch_lem,
}

module _ (H : Hasher) (B : Table BandKey (List Uuid)) (S : Table Uuid DocumentEntry) where
  collect_bands_lem :
      (table : B.T) (signature : List ℕ) (rows n band : ℕ)
      → length signature ≡ (band + n) * rows
      → (ids : List Uuid) × (collect_bands H B S table signature rows n band ≡ ok ids)
        × ((d : Uuid)
            → Elem d ids ↔ (
                (key : BandKey) × Elem key (keys_of H B S signature rows n band)
                × Under H B S table key d))
  unfolding collect_bands
  collect_bands_lem table signature rows zero band e =
      ([], refl, λ d. (λ m. absurd m, λ m. absurd m.1))
  collect_bands_lem table signature rows (suc n) band e =
      let (run, next) = hash_of_band_lem H signature rows n band e in
      let (rest, later, at) = collect_bands_lem table signature rows n (band + 1) next in
      let here = under H B S table (band, band_hash H signature rows band) in
      (
        here ++ rest,
        rw (run, later) refl,
        λ d. (
          λ m. elim ((Elem-append d here rest).0 m) [
            | inl f ↦ ((band, band_hash H signature rows band), inl refl, f)
            | inr f ↦ let (key, k, g) = (at d).0 f in (key, inr k, g)
          ],
          λ m. (Elem-append d here rest).1 (elim m.1 [
            | inl same ↦ inl (subst (λ key. Under H B S table key d) same m.2)
            | inr k ↦ inr ((at d).1 (m.0, k, m.2))
          ]),
        ),
      )

  -- In an index whose signature length is positive and fits a `usize`, and for a signature of that
  -- length, a query succeeds and finds exactly the documents under the keys of the bands of the
  -- signature.
  pub query-Under :
      (m : DiskLsh H B S) (signature : List ℕ)
      → IsDisk H B S m
      → length signature ≡ m.num_bands * m.rows_per_band
      → (ids : List Uuid) × (query H B S m signature ≡ ok ids)
        × ((d : Uuid)
            → Elem d ids
              ↔ ((key : BandKey) × Elem key (filed H B S m signature) × Under H B S m.bands key d))
  unfolding query
  query-Under m signature h e =
      let (ids, run, at) =
        collect_bands_lem m.bands signature m.rows_per_band m.num_bands 0
          (from_start _ m.num_bands m.rows_per_band e) in
      (
        dedup (sort_by leb ids),
        rw
            (
              validate_signature_len_lem signature m.num_bands m.rows_per_band h.positive h.fits e,
              run,
            )
            refl,
        λ d.
            let clean = Elem-dedup d (sort_by leb ids) in
            let sorted = Elem-sort_by leb d ids in
            (λ k. (at d).0 (sorted.0 (clean.0 k)), λ k. clean.1 (sorted.1 ((at d).1 k))),
      )

  -- In an index whose signature length is positive and fits a `usize`, and for signatures of that
  -- length: a batch succeeds, and a query after it finds exactly the documents that share a band with
  -- the queried signature in the index before, or that are in the batch and do so there.
  pub query-insert_batch :
      (m : DiskLsh H B S) (docs : List Doc) (signature : List ℕ)
      → IsDisk H B S m
      → All (Suits H B S m) docs
      → length signature ≡ m.num_bands * m.rows_per_band
      → (m' : DiskLsh H B S) × (before : List Uuid) × (after : List Uuid) × (insert_batch H B S m
            docs
          ≡ ok m')
        × (query H B S m signature ≡ ok before)
        × (query H B S m' signature ≡ ok after)
        × ((d : Uuid)
            → Elem d after ↔ (
                Elem d before
                ⊎ ((key : BandKey) × Elem key (filed H B S m signature)
                    × Brings H B S m.num_bands m.rows_per_band docs key d)))
  query-insert_batch m docs signature h all e =
      let (bands, run, at) = insert_batch_lem H B S m docs h all in
      let (before, run₁, at₁) = query-Under m signature h e in
      let (after, run₂, at₂) =
        query-Under (with_bands H B S m docs bands) signature
          (record { positive = h.positive; fits = h.fits }) e in
      (
        with_bands H B S m docs bands,
        before,
        after,
        run,
        run₁,
        run₂,
        λ d. (
          λ k.
              let (key, f, g) = (at₂ d).0 k in
              ⊎_elim (λ old. inl ((at₁ d).1 (key, f, old))) (λ new. inr (key, f, new))
                ((at key d).0 g),
          λ k. (at₂ d).1 (elim k [
            | inl old ↦ let (key, f, g) = (at₁ d).0 old in (key, f, (at key d).1 (inl g))
            | inr (key, f, g) ↦ (key, f, (at key d).1 (inr g))
          ]),
        ),
      )
