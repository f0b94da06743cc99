-- ===== src/Phase2.antt =====
-- src/disk_dedupe.rs: what the parallel workers of `DiskDeduplicator` write. A flush is three
-- transactions, the matches, the processed documents and the counters, and the program can stop after
-- each. `matches.redb` is the store of src/storage/mod.rs, which this file writes with its own copies
-- of the keys and of the layouts; `state.redb` has the processed documents.
pub mod Flush
use incrededup.Base.{
  le_bytes, ◌++◌, ℕ, suc, ◌+◌, Bool, true, false, Option, none, some, List, [], ◌∷◌, if◌then◌else◌,
  leb, length,
}
use incrededup.Match.{Float, MatchRecord, is_self}
use incrededup.Table.{Table}
use incrededup.UnionFind.{Uuid}
use incrededup.Storage.{Bytes, as_bytes, part, f64_bytes, f64_from}
use incrededup.Storage.Matches.{MatchStore, Writes}

-- The time of the last save is left out.
pub record Phase2Metadata : Type 0 where
  pub duplicates_found : ℕ
  pub candidates_checked : ℕ

module _ (P : Table Bytes Bytes) where
  pub record Phase2State : Type 0 where
    pub processed : P.T
    pub metadata : Option Phase2Metadata

  unfoldable pub is_processed : Phase2State → Uuid → Bool
  is_processed s doc_id = elim (P.get s.processed (as_bytes doc_id)) [
    | none ↦ false
    | some v ↦ true
  ]

  unfoldable pub processed_count : Phase2State → ℕ
  processed_count s = length (P.entries s.processed)

  unfoldable pub mark_all : List Uuid → P.T → P.T
  mark_all [] table = table
  mark_all (id ∷ ids) table = mark_all ids (P.insert table (as_bytes id) (1 ∷ []))

  unfoldable pub mark_processed_batch : Phase2State → List Uuid → Phase2State
  unfolding mark_all
  mark_processed_batch s [] = s
  mark_processed_batch s (id ∷ ids) = record s { processed = mark_all (id ∷ ids) s.processed }

  unfoldable pub save_metadata : Phase2State → ℕ → ℕ → Phase2State
  save_metadata s duplicates_found candidates_checked = record s {
    metadata =
        some
          (record { duplicates_found = duplicates_found; candidates_checked = candidates_checked });
  }

  -- The table after, and the number of documents that were there.
  unfoldable pub remove_all : List Uuid → P.T × ℕ → P.T × ℕ
  remove_all [] w = w
  remove_all (id ∷ ids) (table, removed) = remove_all ids (
    P.remove table (as_bytes id),
    elim (P.get table (as_bytes id)) [ none ↦ removed | some v ↦ suc removed ],
  )

  unfoldable pub remove_from_processed : Phase2State → List Uuid → Phase2State × ℕ
  unfolding remove_all
  remove_from_processed s [] = (s, 0)
  remove_from_processed s (id ∷ ids) =
      let w = remove_all (id ∷ ids) (s.processed, 0) in (record s { processed = w.0 }, w.1)

unfoldable pub match_key : Uuid → Uuid → Bytes
match_key child_id parent_id = as_bytes child_id ++ as_bytes parent_id

unfoldable pub adjacency_key : Uuid → Uuid → Uuid → Bytes
adjacency_key node child parent = as_bytes node ++ (as_bytes child ++ as_bytes parent)

module _ (F : Float) where
  unfoldable pub serialize : MatchRecord F → Bytes
  serialize r =
      as_bytes r.parent_id
      ++ (f64_bytes F r.jaccard_similarity
          ++ (le_bytes 4 r.size_difference ++ f64_bytes F r.size_difference_pct))

  unfoldable pub adjacency_value : MatchRecord F → Bytes
  adjacency_value r =
      f64_bytes F r.jaccard_similarity
      ++ (le_bytes 4 r.size_difference ++ f64_bytes F r.size_difference_pct)

  -- The keys of the two entries of an edge, and their value.
  unfoldable pub adjacency_entries : MatchRecord F → Option (Bytes × Bytes × Bytes)
  unfolding adjacency_key adjacency_value
  adjacency_entries r =
      if is_self F r
      then none
      else some (
        adjacency_key r.child_id r.child_id r.parent_id,
        adjacency_key r.parent_id r.child_id r.parent_id,
        adjacency_value r,
      )

  unfoldable pub deserialize_jaccard : Bytes → Option F.F64
  deserialize_jaccard bytes =
      if leb 24 (length bytes) then some (f64_from F (part 16 8 bytes)) else none

  pub record PendingWrites : Type 0 where
    pub matches : List (MatchRecord F)
    pub processed_ids : List Uuid

  module _ (M : Table Bytes Bytes) where
    -- `unwrap_or(0.0)`: the bits of 0.0 are 0.
    unfoldable pub should_write : M.T → MatchRecord F → Bool
    unfolding deserialize_jaccard
    should_write table r = elim (M.get table (match_key r.child_id r.parent_id)) [
      | none ↦ true
      | some existing ↦
          F.gt r.jaccard_similarity
            (elim (deserialize_jaccard existing) [ none ↦ F.from_bits 0 | some jaccard ↦ jaccard ])
    ]

    unfoldable pub write_entries : M.T → MatchRecord F → M.T
    write_entries adjacency r = elim (adjacency_entries r) [
      | none ↦ adjacency
      | some (from_child, from_parent, av) ↦
          M.insert (M.insert adjacency from_child av) from_parent av
    ]

    unfoldable pub write_record : MatchRecord F → Writes F M → Writes F M
    unfolding should_write write_entries
    write_record r (table, adjacency, written) =
        if should_write table r
        then (
          M.insert table (match_key r.child_id r.parent_id) (serialize r),
          write_entries adjacency r,
          suc written,
        )
        else (table, adjacency, written)

    unfoldable pub write_records : List (MatchRecord F) → Writes F M → Writes F M
    unfolding write_record
    write_records [] w = w
    write_records (r ∷ rs) w = write_records rs (write_record r w)

    unfoldable pub write_matches_batch : MatchStore F M → List (MatchRecord F) → MatchStore F M × ℕ
    unfolding write_records
    write_matches_batch s [] = (s, 0)
    write_matches_batch s (r ∷ rs) =
        let w = write_records (r ∷ rs) (s.matches, s.adjacency, 0) in
        (record s { matches = w.0; adjacency = w.1 }, w.2)

    module _ (P : Table Bytes Bytes) where
      -- The two sidecars.
      abbrev pub Disk : Type 0
      Disk = MatchStore F M × Phase2State P

      -- The transactions of a flush, in their order.
      abbrev pub transactions : PendingWrites → Phase2Metadata → List (Disk → Disk)
      transactions pending snapshot =
          (λ d. ((write_matches_batch d.0 pending.matches).0, d.1))
          ∷ (λ d. (d.0, mark_processed_batch P d.1 pending.processed_ids))
          ∷ (λ d. (d.0, save_metadata P d.1 snapshot.duplicates_found snapshot.candidates_checked))
          ∷ []

      unfoldable pub run_all : List (Disk → Disk) → Disk → Disk
      run_all [] d = d
      run_all (t ∷ ts) d = run_all ts (t d)

      -- Nothing is written when nothing is pending; else all is taken from the pending writes.
      unfoldable pub flush_pending_writes : PendingWrites → Phase2Metadata → Disk → Disk × Bool
      unfolding run_all
      flush_pending_writes pending snapshot d = elim pending.matches [
        | [] ↦ elim pending.processed_ids [
          | [] ↦ (d, false)
          | id ∷ ids ↦ (run_all (transactions pending snapshot) d, true)
        ]
        | r ∷ rs ↦ (run_all (transactions pending snapshot) d, true)
      ]
