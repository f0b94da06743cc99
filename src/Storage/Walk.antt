-- ===== src/Storage/Walk.antt =====
-- src/storage/mod.rs: `visit_real_edges_connected_to_indexed`, which walks the adjacency index, and
-- the choice between it and the scan. `range` is the one of `redb`: the entries whose keys lie between
-- two keys, in the order of bytes. The `while` loop takes fuel, and `none` is a loop that the fuel did
-- not end.
pub mod Ranges
pub mod Rows
pub mod Steps
pub mod Reach
pub mod Once
pub mod Loop
use incrededup.Base.{
  filter, ℕ, zero, suc, ◌+◌, min, Bool, true, false, ◌&&◌, ◌||◌, not, Option, none, some, List, [],
  ◌∷◌, ◌++◌, if◌then◌else◌, ◌==◌, ltb, leb, length, contains, Result, err, ok, le_value,
}
use incrededup.Base.Results.{◌>>=◌}
use incrededup.Match.{Float, MatchRecord}
use incrededup.Table.{Table}
use incrededup.UnionFind.{Uuid}
use incrededup.Storage.{Bytes, StoreError, as_bytes, from_slice, part, f64_from}
use incrededup.Storage.Matches.{MatchStore, is_adjacency_built}
use incrededup.Storage.Scan.{
  to_set, ConnectedEdgeStats, default_stats, visit_real_edges_connected_to, collect,
}

-- The order of byte slices.
unfoldable pub bytes_leb : Bytes → Bytes → Bool
bytes_leb [] ys = true
bytes_leb (x ∷ xs) [] = false
bytes_leb (x ∷ xs) (y ∷ ys) = ltb x y || x == y && bytes_leb xs ys

-- `[byte; count]`
unfoldable pub repeat : ℕ → ℕ → Bytes
repeat zero byte = []
repeat (suc count) byte = byte ∷ repeat count byte

abbrev pub range : Bytes → Bytes → List (Bytes × Bytes) → List (Bytes × Bytes)
range lo hi es = filter (λ e. bytes_leb lo e.0 && bytes_leb e.0 hi) es

-- The entries of a node.
unfoldable pub node_range : Uuid → List (Bytes × Bytes) → List (Bytes × Bytes)
unfolding repeat
node_range node es = range (as_bytes node ++ repeat 32 0) (as_bytes node ++ repeat 32 255) es

-- The state of the walk; the head of the stack is popped first.
pub record Walk (A : Type 0) : Type 0 where
  pub visited_nodes : List Uuid
  pub stack : List Uuid
  pub acc : A
  pub edges_streamed : ℕ

unfoldable pub push_other : {A : Type 0} → Uuid → Bytes → Walk A → Walk A
push_other node key w =
    let child_id = from_slice (part 16 16 key) in
    let other = if child_id == node then from_slice (part 32 16 key) else child_id in
    if contains w.visited_nodes other
    then w
    else record w { visited_nodes = other ∷ w.visited_nodes; stack = other ∷ w.stack }

module _ (F : Float) where
  -- The record that a row holds.
  abbrev pub row_record : Bytes → Bytes → MatchRecord F
  row_record key value = record {
    child_id = from_slice (part 16 16 key);
    parent_id = from_slice (part 32 16 key);
    jaccard_similarity = f64_from F (part 0 8 value);
    size_difference = le_value (part 8 4 value);
    size_difference_pct = f64_from F (part 12 8 value);
  }

  -- The edge is emitted at its lower end.
  unfoldable pub emit :
      {A : Type 0}
      → (A → MatchRecord F → Result StoreError A)
      → Uuid
      → Bytes × Bytes
      → Walk A
      → Result StoreError (Walk A)
  emit visitor node (key, value) w =
      let r = row_record key value in
      if node == min r.child_id r.parent_id && leb 20 (length value)
      then (do
        acc ← visitor w.acc r
        ok (record w { acc = acc; edges_streamed = suc w.edges_streamed }))
      else ok w

module _ (F : Float) {A : Type 0} where
  unfoldable pub walk_row :
      (A → MatchRecord F → Result StoreError A)
      → Uuid
      → Bytes × Bytes
      → Walk A
      → Result StoreError (Walk A)
  unfolding emit push_other
  walk_row visitor node row w =
      if length row.0 == 48
      then (do w' ← emit F visitor node row w; ok (push_other node row.0 w'))
      else ok w

  unfoldable pub walk_rows :
      (A → MatchRecord F → Result StoreError A)
      → Uuid
      → List (Bytes × Bytes)
      → Walk A
      → Result StoreError (Walk A)
  unfolding walk_row
  walk_rows visitor node [] w = ok w
  walk_rows visitor node (row ∷ rows) w = do
    w' ← walk_row visitor node row w
    walk_rows visitor node rows w'

  unfoldable pub walk_loop :
      ℕ
      → (A → MatchRecord F → Result StoreError A)
      → List (Bytes × Bytes)
      → Walk A
      → Option (Result StoreError (Walk A))
  unfolding walk_rows node_range
  walk_loop zero visitor es w = none
  walk_loop (suc fuel) visitor es w = elim w.stack [
    | [] ↦ some (ok w)
    | node ∷ stack ↦
        elim (walk_rows visitor node (node_range node es) (record w { stack = stack })) [
          | err e ↦ some (err e)
          | ok w' ↦ walk_loop fuel visitor es w'
        ]
  ]

module _ (F : Float) (M : Table Bytes Bytes) where
  unfoldable pub visit_real_edges_connected_to_indexed :
      {A : Type 0}
      → ℕ
      → MatchStore F M
      → List Uuid
      → (A → MatchRecord F → Result StoreError A)
      → A
      → Option (Result StoreError (A × ConnectedEdgeStats))
  unfolding walk_loop to_set
  visit_real_edges_connected_to_indexed {A} fuel s [] visitor acc =
      some (ok (acc, record default_stats { used_adjacency_index = true }))
  visit_real_edges_connected_to_indexed {A} fuel s (id ∷ ids) visitor acc =
      let seeds = to_set (id ∷ ids) [] in
      let start : Walk A = record {
        visited_nodes = seeds;
        stack = seeds;
        acc = acc;
        edges_streamed = 0;
      } in
      elim (walk_loop F fuel visitor (M.entries s.adjacency) start) [
        | none ↦ none
        | some (err e) ↦ some (err e)
        | some (ok w) ↦ some (
            ok (
              w.acc,
              record {
                edges_streamed = w.edges_streamed;
                nodes_seen = length w.visited_nodes;
                used_adjacency_index = true;
              },
            ))
      ]

  unfoldable pub get_real_edges_connected_to_indexed :
      ℕ → MatchStore F M → List Uuid → Option (Result StoreError (List (MatchRecord F)))
  unfolding visit_real_edges_connected_to_indexed
  get_real_edges_connected_to_indexed fuel s seeds =
      elim (visit_real_edges_connected_to_indexed fuel s seeds (collect F M) []) [
        | none ↦ none
        | some r ↦ some (do (records, stats) ← r; ok records)
      ]

  unfoldable pub visit_real_edges_connected_to_auto :
      {A : Type 0}
      → ℕ
      → MatchStore F M
      → List Uuid
      → (A → MatchRecord F → Result StoreError A)
      → A
      → Option (MatchStore F M × Result StoreError (A × ConnectedEdgeStats))
  unfolding visit_real_edges_connected_to_indexed visit_real_edges_connected_to
  visit_real_edges_connected_to_auto fuel s seeds visitor acc =
      if is_adjacency_built F M s
      then elim (visit_real_edges_connected_to_indexed fuel s seeds visitor acc) [
        | none ↦ none
        | some r ↦ some (s, r)
      ]
      else visit_real_edges_connected_to F M fuel s seeds visitor acc

  unfoldable pub get_real_edges_connected_to_auto :
      ℕ
      → MatchStore F M
      → List Uuid
      → Option (MatchStore F M × Result StoreError (List (MatchRecord F) × Bool))
  unfolding visit_real_edges_connected_to_auto
  get_real_edges_connected_to_auto fuel s seeds =
      elim (visit_real_edges_connected_to_auto fuel s seeds (collect F M) []) [
        | none ↦ none
        | some (s', r) ↦
            some (s', do (records, stats) ← r; ok (records, stats.used_adjacency_index))
      ]
