-- ===== src/Tests/Storage.antt =====
-- `MatchStore` of src/storage/mod.rs at concrete inputs.
use incrededup.Base.{
  ◌≡◌, ◌≢◌, ◌↔◌, ◌⊎◌, ◌<◌, ◌+◌, ◌*◌, suc, ℕ, ℕ_discrete, List, [], ◌∷◌, Elem, All, some, none,
  arith, true, false, length, ok,
}
use incrededup.Match.{MatchRecord}
use incrededup.Table.{Table}
use incrededup.Table.Assoc.{assoc}
use incrededup.Storage.{Bytes, serialize_record, deserialize_record}
use incrededup.Storage.Codec.{Fits, deserialize_record-serialize_record}
use incrededup.Storage.Matches.{
  MatchStore, open_store, insert_batch, iter, scanned, is_adjacency_built,
}
use incrededup.Storage.Matches.Edges.{Edges, no_edges, put_all, Joins}
use incrededup.Storage.Matches.Insert.{Represents, open_store-Represents, insert_batch-Represents}
use incrededup.Storage.Matches.Best.{iter-insert_batch_best}
use incrededup.Storage.Scan.{get_real_edges_connected_to}
use incrededup.Storage.Matches.Read.{IsUnrepeated}
use incrededup.Storage.Scan.Reach.{Reached, get_real_edges_connected_to-Reached}
use incrededup.Storage.Walk.{get_real_edges_connected_to_indexed}
use incrededup.Storage.Walk.Loop.{get_real_edges_connected_to-indexed}
use incrededup.Storage.Backfill.{AdjacencyBuildStats, build_adjacency_index}
use incrededup.Storage.Backfill.Flush.{IsPart}
use incrededup.Storage.Backfill.Laws.{build_adjacency_index-Represents}
use incrededup.Tests.Values.{bits, edge}

abbrev pub store_table : Table Bytes Bytes
store_table = assoc (hlevel ℕ_discrete)

abbrev pub Store : Type 0
Store = MatchStore bits store_table

edge-Fits : (c p : ℕ) (j : _) → c < 1000 → p < 1000 → Fits bits (edge c p j)
edge-Fits c p j hc hp = record {
  child = omega arith;
  parent = omega arith;
  difference = omega arith;
}

deserialize_record-serialize_record_example :
    deserialize_record bits 5 (serialize_record bits (edge 5 7 true)) ≡ ok (edge 5 7 true)
deserialize_record-serialize_record_example =
    deserialize_record-serialize_record bits (edge 5 7 true)
      (edge-Fits 5 7 true (omega arith) (omega arith))

-- Two records of one edge, an edge that meets it, and a self-edge.
abbrev pub batch : List (MatchRecord bits)
batch = edge 5 7 false ∷ edge 5 7 true ∷ edge 9 5 false ∷ edge 8 8 true ∷ []

pub batch-Fits : All (Fits bits) batch
batch-Fits = (
  edge-Fits 5 7 false (omega arith) (omega arith),
  (
    edge-Fits 5 7 true (omega arith) (omega arith),
    (
      edge-Fits 9 5 false (omega arith) (omega arith),
      (edge-Fits 8 8 true (omega arith) (omega arith), tt),
    ),
  ),
)

abbrev pub opened : Store
opened = open_store bits store_table

abbrev pub filled : Store
filled = (insert_batch bits store_table opened batch).0

abbrev pub held : Edges bits
held = put_all bits batch (no_edges bits)

insert_batch-Represents_example : Represents bits store_table filled held
insert_batch-Represents_example =
    insert_batch-Represents bits store_table opened batch (no_edges bits)
      (open_store-Represents bits store_table) batch-Fits

pub filled-Represents : Represents bits store_table filled held
filled-Represents =
    insert_batch-Represents bits store_table opened batch (no_edges bits)
      (open_store-Represents bits store_table) batch-Fits

iter-insert_batch_best_example :
    (kept : List (MatchRecord bits)) × (iter bits store_table filled
      ≡ (scanned bits store_table filled, ok kept))
    × ((b : MatchRecord bits)
        → Elem b kept
        → Elem b batch ⊎ (no_edges bits b.child_id b.parent_id ≡ some b))
    × ((r : MatchRecord bits)
        → Elem r batch ⊎ (no_edges bits r.child_id r.parent_id ≡ some r)
        → (b : MatchRecord bits) × Elem b kept
          × Joins bits b r.child_id r.parent_id
          × (bits.gt r.jaccard_similarity b.jaccard_similarity ≡ false))
iter-insert_batch_best_example =
    iter-insert_batch_best bits store_table opened batch (no_edges bits)
      (open_store-Represents bits store_table) batch-Fits

abbrev pub scan_fuel : ℕ
scan_fuel = suc (
    1
    + 2 * length (store_table.entries filled.adjacency)
    + 2 * length (store_table.entries filled.matches))

get_real_edges_connected_to-Reached_example :
    (s' : Store) × (records : List (MatchRecord bits)) × (get_real_edges_connected_to bits
        store_table scan_fuel filled
        (9 ∷ [])
      ≡ some (s', ok records))
    × ((r : MatchRecord bits)
        → Elem r records ↔ (
            (held r.child_id r.parent_id ≡ some r)
            × (r.child_id ≢ r.parent_id)
            × Reached bits held (9 ∷ []) r.child_id))
    × IsUnrepeated bits records
get_real_edges_connected_to-Reached_example =
    get_real_edges_connected_to-Reached bits store_table scan_fuel filled held (9 ∷ [])
      filled-Represents (omega arith)

get_real_edges_connected_to-indexed_example :
    (s' : Store) × (scanned : List (MatchRecord bits)) × (walked : List (MatchRecord bits))
    × (get_real_edges_connected_to bits store_table scan_fuel filled (9 ∷ [])
        ≡ some (s', ok scanned))
    × (get_real_edges_connected_to_indexed bits store_table scan_fuel filled (9 ∷ [])
        ≡ some (ok walked))
    × ((r : MatchRecord bits) → Elem r scanned ↔ Elem r walked)
    × IsUnrepeated bits scanned
    × IsUnrepeated bits walked
get_real_edges_connected_to-indexed_example =
    get_real_edges_connected_to-indexed bits store_table scan_fuel filled held (9 ∷ [])
      filled-Represents (omega arith, tt) (omega arith) (omega arith)

-- A store that an older version filled: no index.
abbrev unindexed : Store
unindexed = record filled { adjacency = store_table.empty }

empty-IsPart : IsPart bits store_table held store_table.empty
empty-IsPart k v g = absurd (nothing (store_table.get-empty k) g)
  where
    nothing :
        store_table.get store_table.empty k ≡ none
        → store_table.get store_table.empty k ≡ some v
        → ⊥
    nothing a b = cc

build_adjacency_index-Represents_example :
    (s' : Store) × (stats : AdjacencyBuildStats) × (build_adjacency_index store_table bits unindexed
      ≡ (s', ok stats))
    × Represents bits store_table s' held
    × (is_adjacency_built bits store_table s' ≡ true)
build_adjacency_index-Represents_example =
    build_adjacency_index-Represents bits store_table held unindexed filled-Represents.matches
      empty-IsPart
