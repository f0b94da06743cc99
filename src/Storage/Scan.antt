-- ===== src/Storage/Scan.antt =====
-- src/storage/mod.rs: `visit_real_edges_connected_to`, which scans the matches until no new document
-- is found. The visitor updates an accumulator or fails. The `loop` takes fuel, and `none` is a loop
-- that the fuel did not end. All passes read one state of the table.
pub mod Passes
pub mod Reach
use incrededup.Base.{
  filter, ◌&&◌, ℕ, zero, suc, ◌+◌, Bool, true, false, ◌||◌, not, Option, none, some, List, [], ◌∷◌,
  ◌++◌, if◌then◌else◌, ◌==◌, length, contains, include, Result, err, ok,
}
use incrededup.Base.Results.{◌>>=◌}
use incrededup.Match.{Float, MatchRecord, is_self}
use incrededup.Table.{Table}
use incrededup.UnionFind.{Uuid}
use incrededup.Storage.{Bytes, StoreError}
use incrededup.Storage.Matches.{MatchStore, read_entries}

-- `iter().copied().collect::<HashSet<_>>()`
unfoldable pub to_set : List Uuid → List Uuid → List Uuid
to_set [] set = set
to_set (id ∷ ids) set = to_set ids (include id set)

pub record ConnectedEdgeStats : Type 0 where
  pub edges_streamed : ℕ
  pub nodes_seen : ℕ
  pub used_adjacency_index : Bool

abbrev pub default_stats : ConnectedEdgeStats
default_stats = record { edges_streamed = 0; nodes_seen = 0; used_adjacency_index = false }

module _ (F : Float) where
  unfoldable pub touches : List Uuid → MatchRecord F → Bool
  touches known r = not (is_self F r) && (contains known r.child_id || contains known r.parent_id)

  -- One pass over the records.
  unfoldable pub grow : List (MatchRecord F) → List Uuid → List Uuid
  unfolding touches
  grow [] known = known
  grow (r ∷ rs) known =
      grow rs (if touches known r then include r.parent_id (include r.child_id known) else known)

  -- The loop, with the number of its passes.
  unfoldable pub grow_loop : ℕ → List (MatchRecord F) → List Uuid → ℕ → Option (List Uuid × ℕ)
  unfolding grow
  grow_loop zero rs known passes = none
  grow_loop (suc fuel) rs known passes =
      let next = grow rs known in
      let rest = grow_loop fuel rs next (suc passes) in
      if length next == length known then some (next, suc passes) else rest

  abbrev pub connected : List Uuid → List (MatchRecord F) → List (MatchRecord F)
  connected known rs = filter (touches known) rs

  unfoldable pub visit :
      {A : Type 0}
      → (A → MatchRecord F → Result StoreError A)
      → A
      → List (MatchRecord F)
      → Result StoreError A
  visit visitor acc [] = ok acc
  visit visitor acc (r ∷ rs) = do acc' ← visitor acc r; visit visitor acc' rs

  module _ (M : Table Bytes Bytes) where
    abbrev pub counted : MatchStore F M → ℕ → MatchStore F M
    counted s scans = record s { full_scans = s.full_scans + scans }

    -- The second part: the records that touch the known documents go to the visitor.
    unfoldable pub visit_connected :
        {A : Type 0}
        → (A → MatchRecord F → Result StoreError A)
        → A
        → List Uuid
        → List (MatchRecord F)
        → Result StoreError (A × ConnectedEdgeStats)
    unfolding visit
    visit_connected visitor acc known rs = do
      acc' ← visit visitor acc (connected known rs)
      ok (
        acc',
        record {
          edges_streamed = length (connected known rs);
          nodes_seen = length known;
          used_adjacency_index = false;
        },
      )

    unfoldable pub visit_real_edges_connected_to :
        {A : Type 0}
        → ℕ
        → MatchStore F M
        → List Uuid
        → (A → MatchRecord F → Result StoreError A)
        → A
        → Option (MatchStore F M × Result StoreError (A × ConnectedEdgeStats))
    unfolding visit_connected grow_loop read_entries to_set
    visit_real_edges_connected_to fuel s [] visitor acc = some (s, ok (acc, default_stats))
    visit_real_edges_connected_to fuel s (id ∷ ids) visitor acc =
        elim (read_entries F M (M.entries s.matches)) [
          | err e ↦ some (counted s 1, err e)
          | ok rs ↦ elim (grow_loop fuel rs (to_set (id ∷ ids) []) 0) [
            | none ↦ none
            | some (known, passes) ↦
                some (counted s (suc passes), visit_connected visitor acc known rs)
          ]
        ]

    abbrev pub collect :
        List (MatchRecord F) → MatchRecord F → Result StoreError (List (MatchRecord F))
    collect records r = ok (records ++ r ∷ [])

    unfoldable pub get_real_edges_connected_to :
        ℕ
        → MatchStore F M
        → List Uuid
        → Option (MatchStore F M × Result StoreError (List (MatchRecord F)))
    unfolding visit_real_edges_connected_to
    get_real_edges_connected_to fuel s seeds =
        elim (visit_real_edges_connected_to fuel s seeds collect []) [
          | none ↦ none
          | some (s', r) ↦ some (s', do (records, stats) ← r; ok records)
        ]
