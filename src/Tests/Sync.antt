-- ===== src/Tests/Sync.antt =====
-- The sync of src/dedupe/mod.rs and the writes of src/db/mod.rs at concrete inputs.
use incrededup.Base.{
  map, concat, ℕ, suc, ◌+◌, ◌*◌, ◌^◌, ◌≡◌, ◌↔◌, sym, ◌∙◌, inl, inr, true, false, some, none, ok,
  List, [], ◌∷◌, Elem, All, arith, ℕ_discrete,
}
use incrededup.Match.{MatchRecord}
use incrededup.Table.{Table}
use incrededup.Table.Assoc.{assoc}
use incrededup.UnionFind.Components.{Endpoint}
use incrededup.Storage.Matches.Read.{IsUnrepeated}
use incrededup.Storage.Scan.{ConnectedEdgeStats, to_set, counted}
use incrededup.Db.{Held}
use incrededup.Db.Bounds.{Statement, columns, IsBound, insert_statements, insert_statements-IsBound}
use incrededup.Db.Names.{validate_table_name, IsTableName}
use incrededup.Db.Names.Laws.{validate_table_name-IsTableName}
use incrededup.Sources.{postgres_source}
use incrededup.Db.Rows.{OneParent, Written, write_dupes-Written}
use incrededup.Dedupe.Stream.{shadow, auto, stream_connected_matches}
use incrededup.Dedupe.Stream.Fold.{foldl}
use incrededup.Dedupe.Stream.Reach.{IsReached, stream_connected_matches-IsReached}
use incrededup.Dedupe.Transitivity.{Best, root_key}
use incrededup.Dedupe.Transitivity.Edges.{ends}
use incrededup.Dedupe.Sync.{pos, negsuc, Phase3SyncOutcome, perform_incremental_sync_streaming}
use incrededup.Dedupe.Sync.Laws.{IsSynced}
use incrededup.Dedupe.Sync.Generic.{perform_incremental_sync_generic_streaming, generic-streaming}
use incrededup.Dedupe.Sync.Correct.{perform_incremental_sync_streaming-IsSynced}
use incrededup.Tests.Values.{bits, ids}
use incrededup.Tests.Database.{Row, Rows, database}
use incrededup.Tests.Storage.{store_table, filled, held, filled-Represents, scan_fuel}

abbrev bests : Table ℕ (Best bits)
bests = assoc ℕ_discrete

abbrev helds : Table ℕ (Held bits)
helds = assoc ℕ_discrete

-- 5 had 7 as its parent.
abbrev old_row : Row
old_row = record {
  child_id = 5;
  parent_id = 7;
  jaccard_similarity = true;
  size_difference = 1;
  size_difference_pct = false;
}

abbrev before : Rows
before = (old_row ∷ [], (5, some false) ∷ (7, some true) ∷ (9, none) ∷ [])

abbrev fuel : ℕ
fuel = 3 * 2 ^ 128 + scan_fuel

before-OneParent : OneParent bits database before
before-OneParent m n (inl a) (inl b) e = a ∙ sym b
before-OneParent m n (inl a) (inr b) e = absurd b
before-OneParent m n (inr a) b e = absurd a

perform_incremental_sync_streaming-IsSynced_example :
    (scans : ℕ) × (after : Rows) × (outcome : Phase3SyncOutcome) × (records : List
      (MatchRecord bits))
    × (preferred : List ℕ) × (perform_incremental_sync_streaming bits store_table database helds ids
          ids bests true false fuel
          (9 ∷ [])
          (9 ∷ [])
          shadow
          (pos 2)
          (filled, before)
        ≡ some ((counted bits store_table filled scans, after), ok outcome))
    × IsReached bits store_table held (9 ∷ []) records
    × ((x : ℕ)
        → Elem x preferred
          ↔ (Endpoint (ends bits records) x × (database.flag before x ≡ some (some true))))
    × IsSynced bits database
        (root_key preferred (to_set (9 ∷ []) []))
        (ends bits records)
        (9 ∷ [])
        before
        after
perform_incremental_sync_streaming-IsSynced_example =
    perform_incremental_sync_streaming-IsSynced bits store_table database helds ids ids bests true
      false fuel filled before held (9 ∷ []) (9 ∷ []) shadow 2 filled-Represents before-OneParent
      (omega arith, tt) (omega arith) (omega arith) (omega arith) (omega arith)

write_dupes-Written_example :
    (after : Rows) × Written bits database before (old_row ∷ old_row ∷ []) after
write_dupes-Written_example = write_dupes-Written bits database before (old_row ∷ old_row ∷ [])

stream_connected_matches-IsReached_example :
    (k : ℕ) × (records : List (MatchRecord bits)) × (stats : ConnectedEdgeStats)
    × (stream_connected_matches bits store_table fuel filled (9 ∷ []) shadow (λ n r. ok (suc n)) 0
        ≡ some (counted bits store_table filled k, ok (foldl (λ n r. suc n) 0 records, stats)))
    × IsReached bits store_table held (9 ∷ []) records
    × IsUnrepeated bits records
stream_connected_matches-IsReached_example =
    stream_connected_matches-IsReached bits store_table held (9 ∷ []) (λ n r. suc n) 0 fuel filled
      shadow filled-Represents (omega arith, tt) (omega arith) (omega arith)

insert_statements-IsBound_example :
    All (IsBound bits) (insert_statements bits (old_row ∷ old_row ∷ []))
    × (concat
          (map (λ (st : Statement bits). st.1) (insert_statements bits (old_row ∷ old_row ∷ [])))
        ≡ concat (map (columns bits) (old_row ∷ old_row ∷ [])))
insert_statements-IsBound_example = insert_statements-IsBound bits (old_row ∷ old_row ∷ [])

generic-streaming_example :
    perform_incremental_sync_generic_streaming bits store_table ids
      (postgres_source bits ids database helds)
      ids
      bests
      true
      false
      fuel
      (9 ∷ [])
      (9 ∷ [])
      auto
      (negsuc 0)
      (filled, before)
    ≡ perform_incremental_sync_streaming bits store_table database helds ids ids bests true false
        fuel
        (9 ∷ [])
        (9 ∷ [])
        auto
        (negsuc 0)
        (filled, before)
generic-streaming_example =
    generic-streaming bits store_table database helds ids ids bests true false fuel (9 ∷ [])
      (9 ∷ []) auto (negsuc 0) (filled, before)

-- `a.b`
validate_table_name-IsTableName_example :
    (validate_table_name (97 ∷ 46 ∷ 98 ∷ []) ≡ ok tt) ↔ IsTableName (97 ∷ 46 ∷ 98 ∷ [])
validate_table_name-IsTableName_example = validate_table_name-IsTableName (97 ∷ 46 ∷ 98 ∷ [])
