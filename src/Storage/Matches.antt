-- ===== src/Storage/Matches.antt =====
-- src/storage/mod.rs: `MatchStore`, with the tables `matches` and `adjacency`, the mark of a complete
-- index and the count of full scans for its state.
pub mod Edges
pub mod Insert
pub mod Read
pub mod Best
use incrededup.Base.{
  filter, ℕ, suc, ◌+◌, Bool, true, false, ◌&&◌, ◌||◌, not, Option, none, some, List, [], ◌∷◌,
  if◌then◌else◌, ◌==◌, leb, ltb, length, Result, err, ok,
}
use incrededup.Base.Results.{◌>>=◌}
use incrededup.Match.{Float, MatchRecord, is_self}
use incrededup.Table.{Table}
use incrededup.UnionFind.{Uuid}
use incrededup.Storage.{
  Bytes, StoreError, match_key, child_id_from_match_key, adjacency_entries, serialize_record,
  deserialize_record, part, f64_from,
}

module _ (F : Float) (M : Table Bytes Bytes) where
  pub record MatchStore : Type 0 where
    pub matches : M.T
    pub adjacency : M.T
    -- The value of the key `adjacency_built`.
    pub adjacency_built : Option Bytes
    pub full_scans : ℕ

  unfoldable pub open_store : MatchStore
  open_store = record {
    matches = M.empty;
    adjacency = M.empty;
    adjacency_built = none;
    full_scans = 0;
  }

  unfoldable pub should_insert : M.T → MatchRecord F → Bool
  should_insert table r = elim (M.get table (match_key r.child_id r.parent_id)) [
    | none ↦ true
    | some existing ↦
        if leb 24 (length existing)
        then F.gt r.jaccard_similarity (f64_from F (part 16 8 existing))
        else true
  ]

  unfoldable pub index_record : M.T → MatchRecord F → M.T
  index_record adjacency r = elim (adjacency_entries F r) [
    | none ↦ adjacency
    | some (from_child, from_parent, av) ↦
        M.insert (M.insert adjacency from_child av) from_parent av
  ]

  -- The tables and the number of insertions.
  abbrev pub Writes : Type 0
  Writes = M.T × M.T × ℕ

  unfoldable pub insert_record : MatchRecord F → Writes → Writes
  unfolding should_insert index_record
  insert_record r (table, adjacency, inserted) =
      if should_insert table r
      then (
        M.insert table (match_key r.child_id r.parent_id) (serialize_record F r),
        index_record adjacency r,
        suc inserted,
      )
      else (table, adjacency, inserted)

  unfoldable pub insert_records : List (MatchRecord F) → Writes → Writes
  unfolding insert_record
  insert_records [] w = w
  insert_records (r ∷ rs) w = insert_records rs (insert_record r w)

  unfoldable pub insert_batch : MatchStore → List (MatchRecord F) → MatchStore × ℕ
  unfolding insert_records
  insert_batch s [] = (s, 0)
  insert_batch s (r ∷ rs) =
      let w = insert_records (r ∷ rs) (s.matches, s.adjacency, 0) in
      (record s { matches = w.0; adjacency = w.1 }, w.2)

  unfoldable pub insert : MatchStore → MatchRecord F → MatchStore × Bool
  unfolding insert_batch
  insert s r = let w = insert_batch s (r ∷ []) in (w.0, ltb 0 w.1)

  unfoldable pub read_entry : Bytes × Bytes → Result StoreError (MatchRecord F)
  read_entry (key, value) = do
    child_id ← child_id_from_match_key key
    deserialize_record F child_id value

  unfoldable pub read_entries : List (Bytes × Bytes) → Result StoreError (List (MatchRecord F))
  unfolding read_entry
  read_entries [] = ok []
  read_entries (e ∷ es) = do r ← read_entry e; rs ← read_entries es; ok (r ∷ rs)

  abbrev pub scanned : MatchStore → MatchStore
  scanned s = record s { full_scans = suc s.full_scans }

  unfoldable pub iter : MatchStore → MatchStore × Result StoreError (List (MatchRecord F))
  unfolding read_entries
  iter s = (scanned s, read_entries (M.entries s.matches))

  abbrev pub real_matches : List (MatchRecord F) → List (MatchRecord F)
  real_matches rs = filter (λ r. not (is_self F r)) rs

  unfoldable pub iter_real_matches :
      MatchStore → MatchStore × Result StoreError (List (MatchRecord F))
  unfolding read_entries
  iter_real_matches s =
      (scanned s, do rs ← read_entries (M.entries s.matches); ok (real_matches rs))

  unfoldable pub replaces : MatchRecord F → Option (MatchRecord F) → Bool
  replaces r none = true
  replaces r (some existing) =
      (is_self F existing || F.gt r.jaccard_similarity existing.jaccard_similarity)
      && not (is_self F r)

  unfoldable pub best_match :
      Uuid → List (MatchRecord F) → Option (MatchRecord F) → Option (MatchRecord F)
  unfolding replaces
  best_match child_id [] best = best
  best_match child_id (r ∷ rs) best =
      best_match child_id rs (if r.child_id == child_id && replaces r best then some r else best)

  unfoldable pub get : MatchStore → Uuid → MatchStore × Result StoreError (Option (MatchRecord F))
  unfolding iter best_match
  get s child_id = ((iter s).0, do rs ← (iter s).1; ok (best_match child_id rs none))

  unfoldable pub contains : MatchStore → Uuid → MatchStore × Result StoreError Bool
  unfolding get
  contains s child_id = (
    (get s child_id).0,
    do found ← (get s child_id).1; ok (elim found [ none ↦ false | some r ↦ true ]),
  )

  unfoldable pub count : MatchStore → ℕ
  count s = length (M.entries s.matches)

  unfoldable pub is_adjacency_built : MatchStore → Bool
  is_adjacency_built s = elim s.adjacency_built [
    | none ↦ false
    | some [] ↦ false
    | some (b ∷ bs) ↦ b == 1
  ]

  unfoldable pub set_adjacency_built : MatchStore → MatchStore
  set_adjacency_built s = record s { adjacency_built = some (1 ∷ []) }

  unfoldable pub adjacency_entry_count : MatchStore → ℕ
  adjacency_entry_count s = length (M.entries s.adjacency)
