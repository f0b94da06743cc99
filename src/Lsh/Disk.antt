-- ===== src/Lsh/Disk.antt =====
-- src/lsh/mod.rs: `DiskLSH`, whose tables are instances of the interface of a map. A key of the bands,
-- in the source the text of an index and a hash with a colon between, is the pair of both. The tables
-- hold the values that `bincode` encodes; an entry that cannot be decoded and errors of the disk are
-- not modelled. A transaction that fails leaves the index as it is.
pub mod Buckets
pub mod Batch
pub mod Query
pub mod Build
pub mod Metadata
use incrededup.Base.{
  ℕ, zero, suc, ◌+◌, ◌*◌, Bool, true, false, ◌&&◌, ◌||◌, not, Option, none, some, List, [], ◌∷◌,
  ◌++◌, map, if◌then◌else◌, ◌==◌, ltb, leb, length, contains, filter, take, sort_by, Result, err,
  ok,
}
use incrededup.Base.Results.{◌>>=◌}
use incrededup.Table.{Table}
use incrededup.UnionFind.{Uuid}
use incrededup.MinHash.{Hasher, num_perm}
use incrededup.Lsh.{
  LshError, validate_signature_len, dedup, hash_of_band, bucket, InMemoryLsh, empty_tables,
}

pub record DocumentEntry : Type 0 where
  pub signature : List ℕ
  pub content_len : ℕ

abbrev pub Doc : Type 0
Doc = Uuid × DocumentEntry

abbrev pub BandKey : Type 0
BandKey = ℕ × ℕ

-- The versions of the tokenizer and of the hashes are texts of the program, here numbers.
pub record LshMetadata : Type 0 where
  pub version : ℕ
  pub seed : ℕ
  pub num_perm : ℕ
  pub num_bands : ℕ
  pub rows_per_band : ℕ
  pub tokenizer_version : ℕ
  pub hash_version : ℕ

-- The derived equality.
abbrev pub same_metadata : LshMetadata → LshMetadata → Bool
same_metadata a b =
    a.version == b.version
    && (a.seed == b.seed
        && (a.num_perm == b.num_perm
            && (a.num_bands == b.num_bands
                && (a.rows_per_band == b.rows_per_band
                    && (a.tokenizer_version == b.tokenizer_version
                        && a.hash_version == b.hash_version)))))

pub data MetadataError : Type 0 where
  incompatible : LshMetadata → LshMetadata → MetadataError
  unverified : MetadataError

module _ (H : Hasher) (B : Table BandKey (List Uuid)) (S : Table Uuid DocumentEntry) where
  pub record DiskLsh : Type 0 where
    pub bands : B.T
    pub signatures : S.T
    pub metadata : Option LshMetadata
    pub num_bands : ℕ
    pub rows_per_band : ℕ

  unfoldable pub open_with_params : ℕ → ℕ → DiskLsh
  open_with_params num_bands rows_per_band = record {
    bands = B.empty;
    signatures = S.empty;
    metadata = none;
    num_bands = num_bands;
    rows_per_band = rows_per_band;
  }

  unfoldable pub count : DiskLsh → ℕ
  count m = length (S.entries m.signatures)

  -- `LshMetadata::current`, for the versions of the program.
  abbrev pub current : LshMetadata → ℕ → ℕ → ℕ → LshMetadata
  current versions seed num_bands rows_per_band = record {
    version = 1;
    seed = seed;
    num_perm = num_perm;
    num_bands = num_bands;
    rows_per_band = rows_per_band;
    tokenizer_version = versions.tokenizer_version;
    hash_version = versions.hash_version;
  }

  unfoldable pub validate_or_initialize_metadata :
      LshMetadata → ℕ → DiskLsh → Result MetadataError DiskLsh
  unfolding count
  validate_or_initialize_metadata versions seed m =
      let expected = current versions seed m.num_bands m.rows_per_band in
      elim m.metadata [
        | some existing ↦
            if same_metadata existing expected then ok m else err (incompatible existing expected)
        | none ↦
            if ltb 0 (count m) then err unverified else ok (record m { metadata = some expected })
      ]

  -- The documents under a key, none if there is no entry.
  abbrev pub under : B.T → BandKey → List Uuid
  under table key = elim (B.get table key) [ none ↦ [] | some doc_ids ↦ doc_ids ]

  -- The loop `for band_idx in 0..num_bands`, from an index on, that changes the entry of each band of a
  -- signature.
  unfoldable pub for_bands :
      (List Uuid → List Uuid) → List ℕ → ℕ → ℕ → ℕ → B.T → Result LshError B.T
  unfolding hash_of_band
  for_bands change signature rows zero band table = ok table
  for_bands change signature rows (suc n) band table = do
    band_hash ← hash_of_band H signature rows band
    for_bands change signature rows n (band + 1)
        (B.insert table (band, band_hash) (change (under table (band, band_hash))))

  -- What `insert` does to an entry, and what the batches do.
  abbrev pub add_once : Uuid → List Uuid → List Uuid
  add_once doc_id doc_ids = if contains doc_ids doc_id then doc_ids else doc_ids ++ doc_id ∷ []

  abbrev pub add_last : Uuid → List Uuid → List Uuid
  add_last doc_id doc_ids = doc_ids ++ doc_id ∷ []

  unfoldable pub insert : DiskLsh → Uuid → List ℕ → ℕ → Result LshError DiskLsh
  unfolding for_bands
  insert m doc_id signature content_len = do
    checked ← validate_signature_len signature m.num_bands m.rows_per_band
    let signatures =
        S.insert m.signatures doc_id (record { signature = signature; content_len = content_len })
    bands ← for_bands (add_once doc_id) signature m.rows_per_band m.num_bands 0 m.bands
    ok (record m { bands = bands; signatures = signatures })

  unfoldable pub validate_all : DiskLsh → List Doc → Result LshError Unit
  validate_all m [] = ok tt
  validate_all m (doc ∷ docs) = do
    checked ← validate_signature_len doc.1.signature m.num_bands m.rows_per_band
    validate_all m docs

  -- The loop of a batch over the documents: the signatures and the updates of the bands.
  unfoldable pub collect_updates : ℕ → ℕ → List Doc → S.T × B.T → Result LshError (S.T × B.T)
  unfolding for_bands
  collect_updates num_bands rows [] w = ok w
  collect_updates num_bands rows ((doc_id, entry) ∷ docs) (signatures, updates) = do
    updates' ← for_bands (add_last doc_id) entry.signature rows num_bands 0 updates
    collect_updates num_bands rows docs (S.insert signatures doc_id entry, updates')

  unfoldable pub apply_updates : List (BandKey × List Uuid) → B.T → B.T
  apply_updates [] table = table
  apply_updates ((key, new_ids) ∷ updates) table =
      apply_updates updates (B.insert table key (dedup (sort_by leb (under table key ++ new_ids))))

  unfoldable pub insert_batch : DiskLsh → List Doc → Result LshError DiskLsh
  unfolding validate_all collect_updates apply_updates
  insert_batch m documents = do
    checked ← validate_all m documents
    w ← collect_updates m.num_bands m.rows_per_band documents (m.signatures, B.empty)
    ok (record m { signatures = w.0; bands = apply_updates (B.entries w.1) m.bands })

  -- The loop of `query` over the bands.
  unfoldable pub collect_bands : B.T → List ℕ → ℕ → ℕ → ℕ → Result LshError (List Uuid)
  unfolding hash_of_band
  collect_bands table signature rows zero band = ok []
  collect_bands table signature rows (suc n) band = do
    band_hash ← hash_of_band H signature rows band
    rest ← collect_bands table signature rows n (band + 1)
    ok (under table (band, band_hash) ++ rest)

  unfoldable pub query : DiskLsh → List ℕ → Result LshError (List Uuid)
  unfolding collect_bands
  query m signature = do
    checked ← validate_signature_len signature m.num_bands m.rows_per_band
    candidates ← collect_bands m.bands signature m.rows_per_band m.num_bands 0
    ok (dedup (sort_by leb candidates))

  unfoldable pub get_document : DiskLsh → Uuid → Option DocumentEntry
  get_document m doc_id = S.get m.signatures doc_id

  unfoldable pub all_doc_ids : DiskLsh → List Uuid
  all_doc_ids m = map (λ e. e.0) (S.entries m.signatures)

  unfoldable pub store_signatures : List Doc → S.T → S.T
  store_signatures [] signatures = signatures
  store_signatures ((doc_id, entry) ∷ docs) signatures =
      store_signatures docs (S.insert signatures doc_id entry)

  -- No length is checked here.
  unfoldable pub insert_signatures_only : DiskLsh → List Doc → DiskLsh
  unfolding store_signatures
  insert_signatures_only m documents = record m {
    signatures = store_signatures documents m.signatures;
  }

  -- The loop over the signatures in memory.
  unfoldable pub fill_buckets : ℕ → ℕ → List Doc → B.T → Result LshError B.T
  unfolding for_bands
  fill_buckets num_bands rows [] buckets = ok buckets
  fill_buckets num_bands rows ((doc_id, entry) ∷ docs) buckets = do
    checked ← validate_signature_len entry.signature num_bands rows
    buckets' ← for_bands (add_last doc_id) entry.signature rows num_bands 0 buckets
    fill_buckets num_bands rows docs buckets'

  -- A band that is there already is replaced.
  unfoldable pub write_buckets : List (BandKey × List Uuid) → B.T → B.T
  write_buckets [] table = table
  write_buckets ((key, doc_ids) ∷ buckets) table =
      write_buckets buckets (B.insert table key doc_ids)

  unfoldable pub build_bands_from_signatures : DiskLsh → Result LshError (DiskLsh × ℕ)
  unfolding fill_buckets write_buckets
  build_bands_from_signatures m = elim (S.entries m.signatures) [
    | [] ↦ ok (m, 0)
    | doc ∷ docs ↦ do
      buckets ← fill_buckets m.num_bands m.rows_per_band (doc ∷ docs) B.empty
      ok (record m { bands = write_buckets (B.entries buckets) m.bands }, length (doc ∷ docs))
  ]

  unfoldable pub has_bands : DiskLsh → Bool
  has_bands m = ltb 0 (length (B.entries m.bands))

  unfoldable pub has_document : DiskLsh → Uuid → Bool
  has_document m doc_id = elim (S.get m.signatures doc_id) [ none ↦ false | some entry ↦ true ]

  unfoldable pub large_buckets : ℕ → List (BandKey × List Uuid) → List (BandKey × ℕ × List Uuid)
  large_buckets min_size [] = []
  large_buckets min_size ((key, doc_ids) ∷ es) =
      if leb min_size (length doc_ids)
      then (key, length doc_ids, take 5 doc_ids) ∷ large_buckets min_size es
      else large_buckets min_size es

  -- The largest first; a stable sort.
  unfoldable pub find_large_buckets : DiskLsh → ℕ → ℕ → List (BandKey × ℕ × List Uuid)
  unfolding large_buckets
  find_large_buckets m min_size limit =
      take limit (sort_by (λ a b. leb b.1 a.1) (large_buckets min_size (B.entries m.bands)))

  unfoldable pub get_bucket_docs : DiskLsh → BandKey → List Uuid
  get_bucket_docs m key = under m.bands key
