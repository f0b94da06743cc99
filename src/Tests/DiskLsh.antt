-- ===== src/Tests/DiskLsh.antt =====
-- The disk index at concrete inputs.
use incrededup.Base.{
  ℕ, ◌≡◌, ◌≢◌, ◌↔◌, ◌⊎◌, ◌∙◌, sym, ap, subst, List, [], ◌∷◌, Elem, All, Option, none, some, arith,
  refl, ok, err, ℕ_discrete, length,
}
use incrededup.Table.{Table}
use incrededup.Table.Assoc.{assoc}
use incrededup.UnionFind.{Uuid}
use incrededup.Tests.Values.{adder}
use incrededup.Lsh.Disk.{
  DocumentEntry, Doc, BandKey, LshMetadata, incompatible, DiskLsh, insert_batch, query,
  build_bands_from_signatures, count, validate_or_initialize_metadata, current,
}
use incrededup.Lsh.Disk.Buckets.{Under}
use incrededup.Lsh.Disk.Batch.{
  IsDisk, Suits, filed, Brings, insert_each, nothing-Under, insert_batch-insert_each,
}
use incrededup.Lsh.Disk.Query.{query-insert_batch}
use incrededup.Lsh.Disk.Build.{query-build_bands_from_signatures}
use incrededup.Lsh.Disk.Metadata.{validate_or_initialize_metadata_lem}

abbrev bands : Table BandKey (List Uuid)
bands = assoc (hlevel ℕ_discrete)

abbrev entries : Table Uuid DocumentEntry
entries = assoc ℕ_discrete

-- Two bands of two rows.
abbrev opened : DiskLsh adder bands entries
opened = record {
  bands = bands.empty;
  signatures = entries.empty;
  metadata = none;
  num_bands = 2;
  rows_per_band = 2;
}

opened-IsDisk : IsDisk adder bands entries opened
opened-IsDisk = record { positive = omega arith; fits = omega arith }

abbrev entry : DocumentEntry
entry = record { signature = 1 ∷ 2 ∷ 3 ∷ 4 ∷ []; content_len = 120 }

-- 7 and 9 share a band with the asked signature.
abbrev documents : List Doc
documents =
    (7, entry) ∷ (8, record { signature = 5 ∷ 6 ∷ 7 ∷ 8 ∷ []; content_len = 80 }) ∷ (9, entry) ∷ []

documents-Suits : All (Suits adder bands entries opened) documents
documents-Suits = (refl, (refl, (refl, tt)))

abbrev asked : List ℕ
asked = 9 ∷ 9 ∷ 3 ∷ 4 ∷ []

insert_batch-insert_each_example :
    (batch : DiskLsh adder bands entries) × (single : DiskLsh adder bands entries) × (insert_batch
        adder bands entries opened documents
      ≡ ok batch)
    × (insert_each adder bands entries documents opened ≡ ok single)
    × (batch.signatures ≡ single.signatures)
    × ((key : BandKey) (d : Uuid)
        → Under adder bands entries batch.bands key d
          ↔ Under adder bands entries single.bands key d)
insert_batch-insert_each_example =
    insert_batch-insert_each adder bands entries opened documents opened-IsDisk documents-Suits

query-insert_batch_example :
    (m' : DiskLsh adder bands entries) × (before : List Uuid) × (after : List Uuid) × (insert_batch
        adder bands entries opened documents
      ≡ ok m')
    × (query adder bands entries opened asked ≡ ok before)
    × (query adder bands entries m' asked ≡ ok after)
    × ((d : Uuid)
        → Elem d after ↔ (
            Elem d before
            ⊎ ((key : BandKey) × Elem key (filed adder bands entries opened asked)
                × Brings adder bands entries 2 2 documents key d)))
query-insert_batch_example =
    query-insert_batch adder bands entries opened documents asked opened-IsDisk documents-Suits refl

-- A signature and no bands.
abbrev unbanded : DiskLsh adder bands entries
unbanded = record opened { signatures = entries.insert entries.empty 7 entry }

unbanded-Suits :
    (id : Uuid) (e : DocumentEntry)
    → entries.get unbanded.signatures id ≡ some e
    → Suits adder bands entries unbanded (id, e)
unbanded-Suits id e got = elim (ℕ_discrete id 7) [
  | yes same ↦
      let here : some entry ≡ some e =
        sym (
          ap (entries.get unbanded.signatures) same ∙ entries.get-insert_self entries.empty 7 entry)
        ∙ got in
      subst (λ (x : DocumentEntry). length x.signature ≡ 4) (inj here) refl
  | no n ↦
      absurd (
        clash (sym (entries.get-insert_ne entries.empty 7 id entry n ∙ entries.get-empty id) ∙ got))
]
  where
    inj : ◌≡◌ {A = Option DocumentEntry} (some entry) (some e) → entry ≡ e
    inj h = cc

    clash : ◌≡◌ {A = Option DocumentEntry} none (some e) → ⊥
    clash h = cc

query-build_bands_from_signatures_example :
    (m' : DiskLsh adder bands entries) × (ids : List Uuid) × (build_bands_from_signatures adder
        bands entries unbanded
      ≡ ok (m', count adder bands entries unbanded))
    × (query adder bands entries m' asked ≡ ok ids)
    × ((d : Uuid)
        → Elem d ids ↔ (
            (e : DocumentEntry) × (entries.get unbanded.signatures d ≡ some e)
            × ((key : BandKey) × Elem key (filed adder bands entries unbanded asked)
                × Elem key (filed adder bands entries unbanded e.signature))))
query-build_bands_from_signatures_example =
    query-build_bands_from_signatures adder bands entries unbanded asked
      (record { positive = omega arith; fits = omega arith }) unbanded-Suits
      (nothing-Under adder bands entries) refl

abbrev versions : LshMetadata
versions = record {
  version = 1;
  seed = 0;
  num_perm = 0;
  num_bands = 0;
  rows_per_band = 0;
  tokenizer_version = 3;
  hash_version = 1;
}

abbrev marked : DiskLsh adder bands entries
marked = record opened { metadata = some (current adder bands entries versions 42 2 2) }

first_check : validate_or_initialize_metadata adder bands entries versions 42 opened ≡ ok marked
unfolding validate_or_initialize_metadata count incrededup.Table.Assoc.assoc_entries
first_check = refl

validate_or_initialize_metadata_lem_example :
    (marked.bands ≡ opened.bands)
    × (marked.signatures ≡ opened.signatures)
    × (validate_or_initialize_metadata adder bands entries versions 42 marked ≡ ok marked)
    × ((other : ℕ)
        → other ≢ 42
        → (a : LshMetadata) × (b : LshMetadata) × (validate_or_initialize_metadata adder bands
              entries versions other marked
            ≡ err (incompatible a b)))
validate_or_initialize_metadata_lem_example =
    validate_or_initialize_metadata_lem adder bands entries versions 42 opened marked first_check
