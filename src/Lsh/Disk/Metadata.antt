-- ===== src/Lsh/Disk/Metadata.antt =====
-- `validate_or_initialize_metadata` of src/lsh/mod.rs: an index serves one seed.
use incrededup.Base.{
  ℕ, ◌≡◌, ◌≢◌, inl, inr, refl, sym, ap, ◌∙◌, subst, true, false, Option, none, some, List, ltb,
  if◌then◌else◌, Bool-cases, arith, Result, err, ok,
}
use incrededup.Table.{Table}
use incrededup.UnionFind.{Uuid}
use incrededup.MinHash.{Hasher}
use incrededup.Lsh.Disk.{
  DocumentEntry, BandKey, LshMetadata, same_metadata, MetadataError, incompatible, unverified,
  DiskLsh, count, current, validate_or_initialize_metadata,
}

same_metadata_refl : (a : LshMetadata) → same_metadata a a ≡ true
same_metadata_refl a = ground arith

same_metadata-seed : (a b : LshMetadata) → same_metadata a b ≡ true → a.seed ≡ b.seed
same_metadata-seed a b h = ground (arith, h)

other-same_metadata : (a b : LshMetadata) → a.seed ≢ b.seed → same_metadata a b ≡ false
other-same_metadata a b n = ground (arith, n)

module _ (H : Hasher) (B : Table BandKey (List Uuid)) (S : Table Uuid DocumentEntry) where
  abbrev Index : Type 0
  Index = DiskLsh H B S

  ok_inj : (a b : Index) → ◌≡◌ {A = Result MetadataError Index} (ok a) (ok b) → a ≡ b
  ok_inj a b e = ap index e
    where
      index : Result MetadataError Index → Index
      index (ok x) = x
      index (err x) = a

  not_ok : (a : Index) (e : MetadataError) → ◌≡◌ {A = Result MetadataError Index} (err e) (ok a) → ⊥
  not_ok a e h = cc

  -- An index whose metadata is known accepts it, and refuses another seed.
  known :
      (versions a : LshMetadata) (seed : ℕ) (m : Index)
      → m.metadata ≡ some a
      → same_metadata a (current H B S versions seed m.num_bands m.rows_per_band) ≡ true
      → (validate_or_initialize_metadata H B S versions seed m ≡ ok m)
        × ((other : ℕ)
            → other ≢ seed
            → validate_or_initialize_metadata H B S versions other m
              ≡ err (incompatible a (current H B S versions other m.num_bands m.rows_per_band)))
  unfolding validate_or_initialize_metadata
  known versions a seed m e t = (
    simp (e, t, validate_or_initialize_metadata),
    λ other n.
        let at = same_metadata-seed a (current H B S versions seed m.num_bands m.rows_per_band) t in
        let no =
          other-same_metadata a (current H B S versions other m.num_bands m.rows_per_band)
            (λ k. n (sym k ∙ at)) in
        simp (e, no, validate_or_initialize_metadata),
  )

  -- Once the check for a seed has passed, the index has the bands and the signatures that it had, the
  -- check for that seed passes again and changes nothing, and the check for any other seed fails.
  pub validate_or_initialize_metadata_lem :
      (versions : LshMetadata) (seed : ℕ) (m m' : DiskLsh H B S)
      → validate_or_initialize_metadata H B S versions seed m ≡ ok m'
      → (m'.bands ≡ m.bands)
        × (m'.signatures ≡ m.signatures)
        × (validate_or_initialize_metadata H B S versions seed m' ≡ ok m')
        × ((other : ℕ)
            → other ≢ seed
            → (a : LshMetadata) × (b : LshMetadata) × (validate_or_initialize_metadata H B S
                  versions other m'
                ≡ err (incompatible a b)))
  unfolding validate_or_initialize_metadata
  validate_or_initialize_metadata_lem versions seed m m' run = go m.metadata refl run
    where
      expected : LshMetadata
      expected = current H B S versions seed m.num_bands m.rows_per_band

      Passed : Index → Type 0
      Passed x =
          (x.bands ≡ m.bands)
          × (x.signatures ≡ m.signatures)
          × (validate_or_initialize_metadata H B S versions seed x ≡ ok x)
          × ((other : ℕ)
              → other ≢ seed
              → (a : LshMetadata) × (b : LshMetadata) × (validate_or_initialize_metadata H B S
                    versions other x
                  ≡ err (incompatible a b)))

      go :
          (o : Option LshMetadata)
          → m.metadata ≡ o
          → ◌≡◌ {A = Result MetadataError Index}
              (elim o [
                | some existing ↦
                    if same_metadata existing expected
                    then ok m
                    else err (incompatible existing expected)
                | none ↦
                    if ltb 0 (count H B S m)
                    then err unverified
                    else ok (record m { metadata = some expected })
              ])
              (ok m')
          → Passed m'
      go (some a) e h = elim (Bool-cases (same_metadata a expected)) [
        | inl t ↦
            let same : ◌≡◌ {A = Result MetadataError Index} (ok m) (ok m') = rw t at h in
            let (again, refused) = known versions a seed m e t in
            subst Passed (ok_inj m m' same) (refl, refl, again, λ other n. (a, _, refused other n))
        | inr f ↦
            let bad : ◌≡◌ {A = Result MetadataError Index} (err (incompatible a expected)) (ok m') =
              rw f at h in
            absurd (not_ok m' (incompatible a expected) bad)
      ]
      go none e h = elim (Bool-cases (ltb 0 (count H B S m))) [
        | inl t ↦
            let bad : ◌≡◌ {A = Result MetadataError Index} (err unverified) (ok m') = rw t at h in
            absurd (not_ok m' unverified bad)
        | inr f ↦
            let next : Index = record m { metadata = some expected } in
            let same : ◌≡◌ {A = Result MetadataError Index} (ok next) (ok m') = rw f at h in
            let (again, refused) =
              known versions expected seed next refl (same_metadata_refl expected) in
            subst Passed (ok_inj next m' same)
              (refl, refl, again, λ other n. (expected, _, refused other n))
      ]
