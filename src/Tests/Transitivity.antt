-- ===== src/Tests/Transitivity.antt =====
-- The resolution of edges at concrete inputs.
use incrededup.Base.{
  refl, inl, inr, Elem, include, contains, sort_by, insert_sorted, arith, some, ◌≡◌, ◌^◌, [],
  ℕ_discrete, ◌*◌, ◌∷◌, List, false, true, ℕ,
}
use incrededup.Tests.Values.{bits, edge, ids}
use incrededup.Match.{MatchRecord, DupeMatch}
use incrededup.Table.{Table}
use incrededup.Table.Assoc.{assoc, assoc_get, assoc_remove, assoc_entries}
use incrededup.UnionFind.{for_nodes, nodes, make_set, union_by_key, find, walk, compress}
use incrededup.UnionFind.Components.{Conn, here, back}
use incrededup.Dedupe.Transitivity.{
  update_entry, beats, resolve_node, assignment, join_edge, join_edges, Best, Resolved, root_key,
  extend_ids, explicit_parents, resolve_transitivity_streamed,
  resolve_transitivity_with_preferred_roots,
}
use incrededup.Dedupe.Transitivity.Edges.{ends, real}
use incrededup.Dedupe.Transitivity.Metrics.{AllBest, HasMetrics}
use incrededup.Dedupe.Transitivity.Results.{
  IsResolution, resolve_transitivity_streamed-IsResolution,
  resolve_transitivity_with_preferred_roots-IsResolution,
}
use incrededup.Dedupe.Transitivity.Stability.{
  resolve_transitivity_streamed-metrics, resolve_transitivity_streamed-preferred, batch-eq-streamed,
}

abbrev bests : Table ℕ (Best bits)
bests = assoc ℕ_discrete

abbrev fuel : ℕ
fuel = 3 * 2 ^ 128

-- 9 is preferred, 1 is not.
abbrev edges : List (MatchRecord bits)
edges = edge 9 1 true ∷ edge 1 4 false ∷ []

resolve_transitivity_streamed-IsResolution_example :
    (r : Resolved bits) × (best : List (ℕ × Best bits)) × (resolve_transitivity_streamed bits ids
        bests true false fuel edges
        (9 ∷ [])
        []
      ≡ some r)
    × AllBest bits ids bests edges best
    × IsResolution bits ids bests true false best (root_key (9 ∷ []) []) (ends bits edges) [] r
resolve_transitivity_streamed-IsResolution_example =
    resolve_transitivity_streamed-IsResolution bits ids bests true false fuel edges (9 ∷ []) []
      (omega arith) (omega arith)

resolve_transitivity_with_preferred_roots-IsResolution_example :
    (r : Resolved bits) × (best : List (ℕ × Best bits)) × (resolve_transitivity_with_preferred_roots
        bits ids bests true false fuel edges
        (9 ∷ [])
        []
      ≡ some r)
    × AllBest bits ids bests (real bits edges) best
    × IsResolution bits ids bests true false best
        (root_key (extend_ids (9 ∷ []) (explicit_parents bits edges [])) [])
        (ends bits (real bits edges))
        (explicit_parents bits edges [])
        r
resolve_transitivity_with_preferred_roots-IsResolution_example =
    resolve_transitivity_with_preferred_roots-IsResolution bits ids bests true false fuel edges
      (9 ∷ []) [] (omega arith) (omega arith)

batch-eq-streamed_example :
    resolve_transitivity_with_preferred_roots bits ids bests true false fuel edges (9 ∷ []) []
    ≡ resolve_transitivity_streamed bits ids bests true false fuel edges (9 ∷ []) []
batch-eq-streamed_example =
    batch-eq-streamed bits ids bests true false fuel (edge 9 1 true) (edge 1 4 false ∷ []) (9 ∷ [])
      [] (refl, (refl, tt))

-- What the run returns: 9 takes its place as the root, also for 4 behind 1.
abbrev first : DupeMatch bits
first = record {
  child_id = 1;
  parent_id = 9;
  jaccard_similarity = true;
  size_difference = 9;
  size_difference_pct = false;
}

abbrev second : DupeMatch bits
second = record {
  child_id = 4;
  parent_id = 9;
  jaccard_similarity = false;
  size_difference = 1;
  size_difference_pct = false;
}

abbrev resolved : Resolved bits
resolved = record { assignments = first ∷ second ∷ []; parent_ids = 9 ∷ []; child_ids = 1 ∷ 4 ∷ [] }

run_edges :
    resolve_transitivity_streamed bits ids bests true false fuel edges (9 ∷ []) [] ≡ some resolved
unfolding resolve_transitivity_streamed join_edges join_edge for_nodes nodes make_set union_by_key
    find walk compress root_key update_entry beats resolve_node assignment include contains sort_by
    insert_sorted assoc_get assoc_remove assoc_entries ℕ_discrete
run_edges = refl

resolve_transitivity_streamed-metrics_example : HasMetrics bits ids bests edges second
resolve_transitivity_streamed-metrics_example =
    resolve_transitivity_streamed-metrics bits ids bests true false fuel edges (9 ∷ []) [] resolved
      second (omega arith) (omega arith) run_edges (inr (inl refl))

-- 4 lies behind 1.
linked : Conn (ends bits edges) 4 9
linked = back 1 9 (back 4 1 (here 4 refl) (inr (inl refl))) (inl refl)

resolve_transitivity_streamed-preferred_example : Elem second.parent_id (9 ∷ [])
resolve_transitivity_streamed-preferred_example =
    resolve_transitivity_streamed-preferred bits ids bests true false fuel edges (9 ∷ []) []
      resolved second 9 (omega arith) (omega arith) run_edges (inr (inl refl)) linked (omega arith)
      (inl refl)
