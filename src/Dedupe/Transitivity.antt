-- ===== src/Dedupe/Transitivity.antt =====
-- The resolution of raw edges into canonical assignments, in src/dedupe/mod.rs:
-- `resolve_transitivity`, `resolve_transitivity_with_preferred_roots` and
-- `resolve_transitivity_streamed`. A set of ids is a list without repetitions. `fuel` bounds the
-- loop of `UnionFind::find`. The streamed resolution and the one of a list each have their own copy
-- of the root key, the loop over the edges and the loop over the nodes, in the source and here.
pub mod Keys
pub mod Edges
pub mod Nodes
pub mod Metrics
pub mod Results
pub mod Stability
use incrededup.Base.{
  ℕ, ◌+◌, ◌*◌, ◌^◌, Bool, true, false, ◌&&◌, ◌||◌, Option, none, some, List, [], ◌∷◌, ◌++◌,
  if◌then◌else◌, ◌==◌, leb, ltb, contains, include, sort_by,
}
use incrededup.Match.{Float, MatchRecord, DupeMatch, is_self}
use incrededup.Table.{Table}
use incrededup.UnionFind.{Uuid, UnionFind, ◌>>=◌, make_set, union_by_key, nodes, for_nodes}

-- `(a, b) < (c, d)` of pairs of ids.
abbrev pub pair_lt : Uuid → Uuid → Uuid → Uuid → Bool
pair_lt a b c d = ltb a c || (a == c && ltb b d)

-- The root key `(priority, id)` of the streamed resolution, in the order of such pairs of ids of 128
-- bits.
unfoldable pub root_key : List Uuid → List Uuid → Uuid → ℕ
root_key preferred new_docs id =
    let priority : ℕ = if contains preferred id then 0 else if contains new_docs id then 2 else 1 in
    priority * 2 ^ 128 + id

-- The same of the resolution of a list.
pub match_root_key : List Uuid → List Uuid → Uuid → ℕ
match_root_key root_preferences new_doc_ids id =
    let priority : ℕ =
      if contains root_preferences id then 0 else if contains new_doc_ids id then 2 else 1 in
    priority * 2 ^ 128 + id

pub extend_ids : List Uuid → List Uuid → List Uuid
extend_ids ids [] = ids
extend_ids ids (x ∷ xs) = extend_ids (include x ids) xs

module _ (F : Float) where
  -- The tuple `(child_id, parent_id, jaccard, size_difference, size_difference_pct)`.
  abbrev pub Best : Type 0
  Best = Uuid × Uuid × F.F64 × ℕ × F.F64

  abbrev pub best_of : MatchRecord F → Best
  best_of m =
      (m.child_id, m.parent_id, m.jaccard_similarity, m.size_difference, m.size_difference_pct)

  -- The test in `and_modify` of the streamed resolution: a higher score, or an equal one on a lower
  -- edge.
  unfoldable pub beats : MatchRecord F → Best → Bool
  beats m e =
      F.gt m.jaccard_similarity e.2
      || (F.eq m.jaccard_similarity e.2 && pair_lt m.child_id m.parent_id e.0 e.1)

  -- The test in `update_best` of the resolution of a list.
  pub match_beats : MatchRecord F → Best → Bool
  match_beats m e =
      F.gt m.jaccard_similarity e.2
      || (F.eq m.jaccard_similarity e.2 && pair_lt m.child_id m.parent_id e.0 e.1)

  pub record Resolved : Type 0 where
    pub assignments : List (DupeMatch F)
    pub parent_ids : List Uuid
    pub child_ids : List Uuid

  abbrev pub assignment_le : DupeMatch F → DupeMatch F → Bool
  assignment_le a b =
      ltb a.child_id b.child_id || (a.child_id == b.child_id && leb a.parent_id b.parent_id)

  -- The ids of the self-parent records.
  pub explicit_parents : List (MatchRecord F) → List Uuid → List Uuid
  explicit_parents [] ids = ids
  explicit_parents (m ∷ ms) ids =
      explicit_parents ms (if is_self F m then include m.child_id ids else ids)

  abbrev pub sorted : Resolved → Resolved
  sorted r = record r { assignments = sort_by assignment_le r.assignments }

  -- What `unwrap_or` stands in with, the float being `0.8` and `0.0` of the source.
  abbrev pub no_best : F.F64 → F.F64 → Best
  no_best similarity zero_pct = (0, 0, similarity, 0, zero_pct)

  module _ (M : Table Uuid Uuid) (B : Table Uuid Best) where
    unfoldable pub update_entry : B.T → Uuid → MatchRecord F → B.T
    update_entry best doc_id m = elim (B.get best doc_id) [
      | none ↦ B.insert best doc_id (best_of m)
      | some e ↦ B.insert best doc_id (if beats m e then best_of m else e)
    ]

    -- The body of the loop over the edges.
    unfoldable pub join_edge : ℕ → (Uuid → ℕ) → MatchRecord F → M.T × B.T → Option (M.T × B.T)
    join_edge fuel key m (uf, best) = do
      let uf₁ = make_set M (make_set M uf m.child_id) m.parent_id
      uf₂ ← union_by_key M fuel key uf₁ m.child_id m.parent_id
      some (uf₂, update_entry (update_entry best m.child_id m) m.parent_id m)

    unfoldable pub join_edges :
        ℕ → (Uuid → ℕ) → List (MatchRecord F) → M.T × B.T → Option (M.T × B.T)
    join_edges fuel key [] s = some s
    join_edges fuel key (m ∷ ms) s = do s' ← join_edge fuel key m s; join_edges fuel key ms s'

    pub update_best : B.T → Uuid → MatchRecord F → B.T
    update_best best doc_id m = elim (B.get best doc_id) [
      | none ↦ B.insert best doc_id (best_of m)
      | some e ↦ B.insert best doc_id (if match_beats m e then best_of m else e)
    ]

    -- The body of the loop over the records of a list.
    pub join_match : ℕ → (Uuid → ℕ) → MatchRecord F → M.T × B.T → Option (M.T × B.T)
    join_match fuel key m (uf, best) = do
      let uf₁ = make_set M (make_set M uf m.child_id) m.parent_id
      uf₂ ← union_by_key M fuel key uf₁ m.child_id m.parent_id
      some (uf₂, update_best (update_best best m.child_id m) m.parent_id m)

    -- A self-parent record is passed over by `continue`.
    pub join_matches : ℕ → (Uuid → ℕ) → List (MatchRecord F) → M.T × B.T → Option (M.T × B.T)
    join_matches fuel key [] s = some s
    join_matches fuel key (m ∷ ms) s = do
      s' ← if is_self F m then some s else join_match fuel key m s
      join_matches fuel key ms s'

  module _ (M : Table Uuid Uuid) (B : Table Uuid Best) (similarity zero_pct : F.F64) where
    unfoldable pub assignment : B.T → Uuid → Uuid → DupeMatch F
    assignment best node root =
        let e : Best = elim (B.get best node) [ none ↦ no_best similarity zero_pct | some e ↦ e ] in
        record {
          child_id = node;
          parent_id = root;
          jaccard_similarity = e.2;
          size_difference = e.3;
          size_difference_pct = e.4;
        }

    -- The body of the loop over the nodes of the streamed resolution.
    unfoldable pub resolve_node : B.T → Uuid → Uuid → Resolved → Resolved
    resolve_node best node root acc =
        if root == node then record acc { parent_ids = include node acc.parent_ids } else record {
          assignments = acc.assignments ++ assignment best node root ∷ [];
          parent_ids = include root acc.parent_ids;
          child_ids = include node acc.child_ids;
        }

    pub match_assignment : B.T → Uuid → Uuid → DupeMatch F
    match_assignment best node root =
        let e : Best = elim (B.get best node) [ none ↦ no_best similarity zero_pct | some e ↦ e ] in
        record {
          child_id = node;
          parent_id = root;
          jaccard_similarity = e.2;
          size_difference = e.3;
          size_difference_pct = e.4;
        }

    -- The body of the loop over the nodes of the resolution of a list.
    pub resolve_match_node : B.T → Uuid → Uuid → Resolved → Resolved
    resolve_match_node best node root acc =
        if root == node then record acc { parent_ids = include node acc.parent_ids } else record {
          assignments = acc.assignments ++ match_assignment best node root ∷ [];
          parent_ids = include root acc.parent_ids;
          child_ids = include node acc.child_ids;
        }

    -- `new_doc_ids` is `None` or a set; the empty list stands for `None`, which contains nothing.
    pub resolve_transitivity_with_preferred_roots :
        ℕ → List (MatchRecord F) → List Uuid → List Uuid → Option Resolved
    resolve_transitivity_with_preferred_roots fuel [] preferred new_docs =
        some (record { assignments = []; parent_ids = []; child_ids = [] })
    resolve_transitivity_with_preferred_roots fuel (m ∷ ms) preferred new_docs = do
      let explicit_parent_ids = explicit_parents (m ∷ ms) []
      let root_preferences = extend_ids preferred explicit_parent_ids
      (uf, best) ←
          join_matches M B fuel (match_root_key root_preferences new_docs) (m ∷ ms)
            (M.empty, B.empty)
      let start : Resolved = record {
        assignments = [];
        parent_ids = explicit_parent_ids;
        child_ids = [];
      }
      r ← for_nodes M fuel (resolve_match_node best) uf (nodes M uf) start
      some (sorted r)

    pub resolve_transitivity : ℕ → List (MatchRecord F) → Option Resolved
    resolve_transitivity fuel matches = resolve_transitivity_with_preferred_roots fuel matches [] []

    -- `edges` is what `stream_connected_matches` visits.
    unfoldable pub resolve_transitivity_streamed :
        ℕ → List (MatchRecord F) → List Uuid → List Uuid → Option Resolved
    resolve_transitivity_streamed fuel edges preferred_parent_ids new_doc_set = do
      (uf, best) ←
          join_edges M B fuel (root_key preferred_parent_ids new_doc_set) edges (M.empty, B.empty)
      let start : Resolved = record { assignments = []; parent_ids = []; child_ids = [] }
      r ← for_nodes M fuel (resolve_node best) uf (nodes M uf) start
      some (sorted r)
