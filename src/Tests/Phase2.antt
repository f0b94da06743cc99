-- ===== src/Tests/Phase2.antt =====
-- The writes of phase 2 at concrete inputs.
use incrededup.Base.{true, refl, inr, ◌≡◌, ◌⊎◌, [], ◌∷◌, none, take}
use incrededup.UnionFind.{Uuid}
use incrededup.Storage.Matches.{MatchStore, insert_batch}
use incrededup.Storage.Matches.Edges.{no_edges, put_all}
use incrededup.Storage.Matches.Insert.{Represents, open_store-Represents}
use incrededup.Phase2.{
  Phase2Metadata, is_processed, PendingWrites, match_key, write_matches_batch, Disk, transactions,
  run_all,
}
use incrededup.Phase2.Flush.{write_matches_batch-insert_batch, run_all-Represents}
use incrededup.Tests.Values.{bits, edge}
use incrededup.Tests.Storage.{store_table, opened, batch, batch-Fits}

-- The entry of one of the records has lost its bytes.
abbrev damaged : MatchStore bits store_table
damaged = record opened { matches = store_table.insert opened.matches (match_key 9 1) (1 ∷ []) }

write_matches_batch-insert_batch_example :
    write_matches_batch bits store_table damaged (edge 9 1 true ∷ [])
    ≡ insert_batch bits store_table damaged (edge 9 1 true ∷ [])
write_matches_batch-insert_batch_example =
    write_matches_batch-insert_batch bits store_table damaged (edge 9 1 true ∷ []) (inr (refl, tt))

abbrev pending : PendingWrites bits
pending = record { matches = batch; processed_ids = 5 ∷ 9 ∷ [] }

abbrev snapshot : Phase2Metadata
snapshot = record { duplicates_found = 3; candidates_checked = 40 }

abbrev disk : Disk bits store_table store_table
disk = (opened, record { processed = store_table.empty; metadata = none })

-- The program stops between the second transaction and the third.
run_all-Represents_example :
    let after =
      run_all bits store_table store_table
        (take 2 (transactions bits store_table store_table pending snapshot))
        disk in
    ((id : Uuid) → is_processed store_table after.1 id ≡ is_processed store_table disk.1 id)
    ⊎ Represents bits store_table after.0 (put_all bits batch (no_edges bits))
run_all-Represents_example =
    run_all-Represents bits store_table store_table 2 disk pending snapshot (no_edges bits)
      (open_store-Represents bits store_table) batch-Fits
