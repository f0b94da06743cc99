-- ===== src/Dedupe/Stream.antt =====
-- src/dedupe/mod.rs: `EdgeLookupMode` and `stream_connected_matches`, through which phase 3 reads the
-- edges connected to its seeds. Counters and times that are only logged are left out; `none` is a
-- loop of the storage that its fuel did not end.
pub mod Fold
pub mod Reach
use incrededup.Base.{
  ℕ, Bool, true, false, Option, none, some, List, [], ◌∷◌, leb, include, sort_by, if◌then◌else◌,
  Result, err, ok,
}
use incrededup.Match.{Float, MatchRecord}
use incrededup.Table.{Table}
use incrededup.UnionFind.{Uuid}
use incrededup.Storage.{Bytes, StoreError}
use incrededup.Storage.Matches.{MatchStore, is_adjacency_built}
use incrededup.Storage.Scan.{ConnectedEdgeStats, visit_real_edges_connected_to}
use incrededup.Storage.Walk.{
  visit_real_edges_connected_to_indexed, visit_real_edges_connected_to_auto,
}

pub data EdgeLookupMode : Type 0 where
  scan : EdgeLookupMode
  auto : EdgeLookupMode
  shadow : EdgeLookupMode

module _ (F : Float) (M : Table Bytes Bytes) where
  -- What a pass over the edges leaves and returns.
  abbrev pub Streamed : Type 0 → Type 0
  Streamed A = Option (MatchStore F M × Result StoreError (A × ConnectedEdgeStats))

  -- The second read of the shadow mode, whose visitor ignores the edges.
  unfoldable pub compare_index :
      {A : Type 0} → ℕ → MatchStore F M → List Uuid → A × ConnectedEdgeStats → Streamed A
  unfolding visit_real_edges_connected_to_indexed
  compare_index fuel s seeds scan_result =
      let indexed =
        visit_real_edges_connected_to_indexed F M {A = Unit} fuel s seeds (λ u r. ok tt) tt in
      if is_adjacency_built F M s
      then elim indexed [
        | none ↦ none
        | some (err e) ↦ some (s, err e)
        | some (ok indexed_stats) ↦ some (s, ok scan_result)
      ]
      else some (s, ok scan_result)

  unfoldable pub stream_connected_matches :
      {A : Type 0}
      → ℕ
      → MatchStore F M
      → List Uuid
      → EdgeLookupMode
      → (A → MatchRecord F → Result StoreError A)
      → A
      → Streamed A
  unfolding visit_real_edges_connected_to visit_real_edges_connected_to_auto compare_index
  stream_connected_matches fuel s seeds scan visitor acc =
      visit_real_edges_connected_to F M fuel s seeds visitor acc
  stream_connected_matches fuel s seeds auto visitor acc =
      visit_real_edges_connected_to_auto F M fuel s seeds visitor acc
  stream_connected_matches fuel s seeds shadow visitor acc =
      elim (visit_real_edges_connected_to F M fuel s seeds visitor acc) [
        | none ↦ none
        | some (s', err e) ↦ some (s', err e)
        | some (s', ok scan_result) ↦ compare_index fuel s' seeds scan_result
      ]

  -- The visitor of the discovery.
  abbrev pub discover : List Uuid → MatchRecord F → Result StoreError (List Uuid)
  discover component_doc_ids record_ =
      ok (include record_.parent_id (include record_.child_id component_doc_ids))

  unfoldable pub discover_streamed_component_doc_ids :
      ℕ → MatchStore F M → List Uuid → EdgeLookupMode → Streamed (List Uuid)
  unfolding stream_connected_matches
  discover_streamed_component_doc_ids fuel s seeds mode =
      elim (stream_connected_matches fuel s seeds mode discover []) [
        | none ↦ none
        | some (s', err e) ↦ some (s', err e)
        | some (s', ok (ids, stats)) ↦ some (s', ok (sort_by leb ids, stats))
      ]
