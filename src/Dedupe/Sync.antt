-- ===== src/Dedupe/Sync.antt =====
-- src/dedupe/mod.rs: `perform_incremental_sync_streaming`, which resolves the components of a batch and
-- brings the database up to them. Messages that are only logged are left out. One fuel serves the
-- loops of the storage and of `UnionFind::find`.
pub mod Plan
pub mod Steps
pub mod Resolve
pub mod Laws
pub mod Correct
pub mod Generic
use incrededup.Base.{
  filter, ℕ, zero, suc, Bool, true, false, ◌&&◌, ◌||◌, not, Option, none, some, List, [], ◌∷◌,
  if◌then◌else◌, ◌==◌, leb, length, contains, chunks, sort_by, Result, err, ok,
}
use incrededup.Match.{Float, MatchRecord, DupeMatch}
use incrededup.Table.{Table}
use incrededup.UnionFind.{Uuid, nodes, for_nodes}
use incrededup.Storage.{Bytes, StoreError}
use incrededup.Storage.Matches.{MatchStore}
use incrededup.Storage.Scan.{ConnectedEdgeStats, to_set}
use incrededup.Db.{
  Database, DbError, Held, write_dupes, mark_as_parents, mark_as_children,
  fetch_parent_ids_by_doc_ids, fetch_dupe_parents_by_child_ids,
}
use incrededup.Dedupe.Run.{Run, for_each, ◌>>=◌}
use incrededup.Dedupe.Stream.{
  EdgeLookupMode, stream_connected_matches, discover_streamed_component_doc_ids,
}
use incrededup.Dedupe.Transitivity.{Best, Resolved, root_key, join_edge, resolve_node, sorted}

-- Signed numbers, for the `i64` of a configuration.
pub data ℤ : Type 0 where
  pos : ℕ → ℤ
  negsuc : ℕ → ℤ

pub data SyncError : Type 0 where
  batch_size_not_positive : SyncError
  store_failed : StoreError → SyncError
  db_failed : DbError → SyncError

-- A positive `i64` fits in `usize`.
unfoldable pub batch_size_usize : ℤ → Result SyncError ℕ
batch_size_usize (pos n) = if n == 0 then err batch_size_not_positive else ok n
batch_size_usize (negsuc n) = err batch_size_not_positive

-- `existing.get(child) == Some(&parent)`
abbrev pub is_some_of : Option Uuid → Uuid → Bool
is_some_of none parent = false
is_some_of (some p) parent = p == parent

abbrev pub is_some {ℓ} : {A : Type ℓ} → Option A → Bool
is_some none = false
is_some (some a) = true

unfoldable pub child_marks_to_apply : List Uuid → List Uuid → List Uuid → List Uuid
child_marks_to_apply child_ids new_doc_set existing_parent_ids =
    filter (λ id. contains new_doc_set id || contains existing_parent_ids id) child_ids

module _ (P : Table Uuid Uuid) where
  unfoldable pub assignments_requiring_write :
      (F : Float) → List (DupeMatch F) → List Uuid → P.T → List (DupeMatch F)
  assignments_requiring_write F resolved_matches new_doc_set existing_dupe_parents =
      filter
        (λ (m : DupeMatch F).
          contains new_doc_set m.child_id
          || not (is_some_of (P.get existing_dupe_parents m.child_id) m.parent_id))
        resolved_matches

  unfoldable pub parent_marks_to_apply : List Uuid → List Uuid → List Uuid → P.T → List Uuid
  parent_marks_to_apply parent_ids new_doc_ids child_ids existing_dupe_parents =
      let ids = to_set (filter (λ id. not (contains child_ids id)) new_doc_ids) [] in
      sort_by leb (to_set (filter (λ id. is_some (P.get existing_dupe_parents id)) parent_ids) ids)

pub record Phase3SyncOutcome : Type 0 where
  pub connected_edges : ℕ
  pub new_children : ℕ

module _ (F : Float) (U : Table Uuid Uuid) (B : Table Uuid (Best F)) where
  -- What the visitor of `resolve_transitivity_streamed` makes of the union-find and the metrics.
  abbrev pub join_step : ℕ → (Uuid → ℕ) → Option (U.T × B.T) → MatchRecord F → Option (U.T × B.T)
  join_step fuel key none r = none
  join_step fuel key (some state) r = join_edge F U B fuel key r state

  module _ (sim pct : F.F64) where
    -- The loop over the nodes.
    unfoldable pub resolve_nodes : ℕ → Option (U.T × B.T) → Option (Resolved F)
    resolve_nodes fuel none = none
    resolve_nodes fuel (some (uf, best)) =
        let start : Resolved F = record { assignments = []; parent_ids = []; child_ids = [] } in
        elim (for_nodes U fuel (resolve_node F U B sim pct best) uf (nodes U uf) start) [
          | none ↦ none
          | some r ↦ some (sorted F r)
        ]

    module _ (S : Table Bytes Bytes) where
      unfoldable pub resolve_connected :
          ℕ
          → MatchStore F S
          → List Uuid
          → EdgeLookupMode
          → List Uuid
          → List Uuid
          → Option (MatchStore F S × Result StoreError (Resolved F))
      unfolding resolve_nodes stream_connected_matches
      resolve_connected fuel s seeds mode preferred_parent_ids new_doc_set =
          let key = root_key preferred_parent_ids new_doc_set in
          elim (stream_connected_matches F S fuel s seeds mode
            (λ state r. ok (join_step fuel key state r)) (some (U.empty, B.empty))) [
              | none ↦ none
              | some (s', err e) ↦ some (s', err e)
              | some (s', ok (state, stats)) ↦ elim (resolve_nodes fuel state) [
                | none ↦ none
                | some r ↦ some (s', ok r)
              ]
            ]

-- `Db` is what the writes change.
module _ (F : Float) (S : Table Bytes Bytes) (Db : Type 0) where
  abbrev pub SyncState : Type 0
  SyncState = MatchStore F S × Db

  abbrev pub Sync : Type 0 → Type 0
  Sync A = Run SyncState SyncError A

  abbrev pub returned : {A : Type 0} → Result SyncError A → Sync A
  returned r st = some (st, r)

  abbrev pub with_db :
      {A : Type 0}
      → Db
      → Option (MatchStore F S × Result StoreError A)
      → Option (SyncState × Result SyncError A)
  with_db db none = none
  with_db db (some (s, err e)) = some ((s, db), err (store_failed e))
  with_db db (some (s, ok a)) = some ((s, db), ok a)

  abbrev pub on_store :
      {A : Type 0} → (MatchStore F S → Option (MatchStore F S × Result StoreError A)) → Sync A
  on_store read (s, db) = with_db db (read s)

  abbrev pub query : {A : Type 0} → (Db → A) → Sync A
  query read (s, db) = some ((s, db), ok (read db))

  abbrev pub written :
      {A : Type 0}
      → MatchStore F S
      → Db × Result DbError A
      → Option (SyncState × Result SyncError Unit)
  written s (db, err e) = some ((s, db), err (db_failed e))
  written s (db, ok a) = some ((s, db), ok tt)

  abbrev pub on_db : {A : Type 0} → (Db → Db × Result DbError A) → Sync Unit
  on_db write (s, db) = written s (write db)

  abbrev pub on_flags : (Db → Db × ℕ) → Sync Unit
  on_flags write (s, db) = some ((s, (write db).0), ok tt)

module _ (F : Float) (S : Table Bytes Bytes) (D : Database F) (H : Table Uuid (Held F))
    (P U : Table Uuid Uuid) (B : Table Uuid (Best F)) (sim pct : F.F64) where
  -- The writes. An empty list has no chunks.
  unfoldable pub apply_resolution :
      ℕ → Resolved F → List Uuid → List Uuid → List Uuid → P.T → Sync F S D.Db Unit
  unfolding for_each write_dupes mark_as_children mark_as_parents
  apply_resolution size r new_doc_ids new_doc_set existing_parent_ids existing_dupe_parents = do
    u₁ ←
        for_each
          (chunks size
            (assignments_requiring_write P F r.assignments new_doc_set existing_dupe_parents))
          (λ chunk. on_db F S D.Db (λ db. write_dupes F D db chunk))
    u₂ ←
        for_each (chunks size (child_marks_to_apply r.child_ids new_doc_set existing_parent_ids))
          (λ chunk. on_flags F S D.Db (λ db. mark_as_children F D db chunk))
    for_each
        (chunks size
          (parent_marks_to_apply P r.parent_ids new_doc_ids r.child_ids existing_dupe_parents))
        (λ chunk. on_flags F S D.Db (λ db. mark_as_parents F D db chunk))

  unfoldable pub perform_incremental_sync_streaming :
      ℕ → List Uuid → List Uuid → EdgeLookupMode → ℤ → Sync F S D.Db Phase3SyncOutcome
  unfolding apply_resolution resolve_connected discover_streamed_component_doc_ids
  perform_incremental_sync_streaming fuel phase3_seed_doc_ids new_doc_ids mode batch_size = do
    size ← returned F S D.Db (batch_size_usize batch_size)
    let new_doc_set = to_set new_doc_ids []
    (component_doc_ids, discovery_stats) ←
        on_store F S D.Db
          (λ s. discover_streamed_component_doc_ids F S fuel s phase3_seed_doc_ids mode)
    existing_parent_ids ←
        query F S D.Db (λ db. fetch_parent_ids_by_doc_ids F D db component_doc_ids)
    existing_dupe_parents ←
        query F S D.Db (λ db. fetch_dupe_parents_by_child_ids F D H P db component_doc_ids)
    r ← on_store F S D.Db (λ s.
        resolve_connected F U B sim pct S fuel s phase3_seed_doc_ids mode existing_parent_ids
          new_doc_set)
    u ← apply_resolution size r new_doc_ids new_doc_set existing_parent_ids existing_dupe_parents
    returned F S D.Db (
        ok (record {
          connected_edges = discovery_stats.edges_streamed;
          new_children = length (filter (contains new_doc_set) r.child_ids);
        }))
