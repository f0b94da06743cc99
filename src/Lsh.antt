-- ===== src/Lsh.antt =====
-- src/lsh/mod.rs: `validate_signature_len` and `InMemoryLSH`. The tables of the bands and the table
-- of the signatures are instances of the interface of a map. An index out of range, a panic of the
-- source, is an error here.
pub mod Bands
pub mod Query
pub mod Disk
use incrededup.Base.{
  ℕ, zero, suc, ◌+◌, ◌*◌, ◌^◌, Bool, true, false, ◌||◌, not, Option, none, some, List, [], ◌∷◌,
  ◌++◌, if◌then◌else◌, ◌==◌, ltb, leb, length, sort_by, Result, err, ok,
}
use incrededup.Base.Results.{◌>>=◌}
use incrededup.Table.{Table}
use incrededup.UnionFind.{Uuid}
use incrededup.MinHash.{Hasher, calculate_band_hash, slice, num_bands, rows_per_band}

pub data LshError : Type 0 where
  invalid_configuration : LshError
  invalid_length : ℕ → ℕ → LshError
  out_of_range : LshError

-- `checked_mul` of two `usize`.
pub validate_signature_len : List ℕ → ℕ → ℕ → Result LshError Unit
validate_signature_len signature bands rows =
    if not (ltb (bands * rows) (2 ^ 64))
    then err invalid_configuration
    else if bands * rows == 0 || not (length signature == bands * rows)
    then err (invalid_length (length signature) (bands * rows))
    else ok tt

-- `dedup` of a sorted list.
pub dedup : List ℕ → List ℕ
dedup [] = []
dedup (x ∷ xs) = elim (dedup xs) [ [] ↦ x ∷ [] | y ∷ ys ↦ if x == y then y ∷ ys else x ∷ y ∷ ys ]

module _ (H : Hasher) where
  -- `calculate_band_hash(&signature[start..end])`
  unfoldable pub hash_of_band : List ℕ → ℕ → ℕ → Result LshError ℕ
  hash_of_band signature rows band =
      if leb (band * rows + rows) (length signature)
      then ok (calculate_band_hash H (slice H (band * rows) rows signature))
      else err out_of_range

  module _ (B : Table ℕ (List Uuid)) where
    -- The documents under a hash, none if there is no entry.
    abbrev pub bucket : B.T → ℕ → List Uuid
    bucket table h = elim (B.get table h) [ none ↦ [] | some doc_ids ↦ doc_ids ]

    -- The loop of `try_insert` over the tables, from a band on.
    pub push_bands : Uuid → List ℕ → ℕ → List B.T → ℕ → Result LshError (List B.T)
    push_bands doc_id signature rows [] band = ok []
    push_bands doc_id signature rows (table ∷ tables) band = do
      band_hash ← hash_of_band signature rows band
      rest ← push_bands doc_id signature rows tables (band + 1)
      ok (B.insert table band_hash (bucket table band_hash ++ doc_id ∷ []) ∷ rest)

    -- The loop of `try_query` over the tables.
    pub collect : List ℕ → ℕ → List B.T → ℕ → Result LshError (List Uuid)
    collect signature rows [] band = ok []
    collect signature rows (table ∷ tables) band = do
      band_hash ← hash_of_band signature rows band
      rest ← collect signature rows tables (band + 1)
      ok (bucket table band_hash ++ rest)

    module _ (S : Table Uuid (List ℕ)) where
      pub record InMemoryLsh : Type 0 where
        pub hash_tables : List B.T
        pub signatures : S.T
        pub num_bands : ℕ
        pub rows_per_band : ℕ

      pub empty_tables : ℕ → List B.T
      empty_tables zero = []
      empty_tables (suc n) = B.empty ∷ empty_tables n

      pub with_params : ℕ → ℕ → InMemoryLsh
      with_params bands rows = record {
        hash_tables = empty_tables bands;
        signatures = S.empty;
        num_bands = bands;
        rows_per_band = rows;
      }

      pub new : InMemoryLsh
      new = with_params num_bands rows_per_band

      pub try_insert : InMemoryLsh → Uuid → List ℕ → Result LshError InMemoryLsh
      try_insert m doc_id signature = do
        checked ← validate_signature_len signature m.num_bands m.rows_per_band
        tables ← push_bands doc_id signature m.rows_per_band m.hash_tables 0
        ok (record m { hash_tables = tables; signatures = S.insert m.signatures doc_id signature })

      pub try_query : InMemoryLsh → List ℕ → Result LshError (List Uuid)
      try_query m signature = do
        checked ← validate_signature_len signature m.num_bands m.rows_per_band
        candidates ← collect signature m.rows_per_band m.hash_tables 0
        ok (dedup (sort_by leb candidates))

      pub get_signature : InMemoryLsh → Uuid → Option (List ℕ)
      get_signature m doc_id = S.get m.signatures doc_id

      -- An error leaves the index as it is.
      pub insert : InMemoryLsh → Uuid → List ℕ → InMemoryLsh
      insert m doc_id signature = elim (try_insert m doc_id signature) [ err e ↦ m | ok m' ↦ m' ]

      pub query : InMemoryLsh → List ℕ → List Uuid
      query m signature = elim (try_query m signature) [ err e ↦ [] | ok ids ↦ ids ]
