-- ===== src/Dedupe/Sync/Generic.antt =====
-- `perform_incremental_sync_generic_streaming` of src/dedupe/mod.rs, the sync of any document source.
use incrededup.Base.{
  ℕ, ◌≡◌, refl, ap, ◌∙◌, List, [], ◌∷◌, if◌then◌else◌, contains, filter, length, map, chunks,
  chunks-map, Option, Result, err, none, ok, some,
}
use mathlib.Core.Path.{fun_ext}
use incrededup.Match.{Float, DupeMatch}
use incrededup.Table.{Table}
use incrededup.UnionFind.{Uuid}
use incrededup.Storage.{Bytes}
use incrededup.Storage.Scan.{to_set}
use incrededup.Db.{
  Database, Held, write_dupes, fetch_parent_ids_by_doc_ids, fetch_dupe_parents_by_child_ids,
}
use incrededup.Sources.{DocumentSource, to_source_match, to_dupe_match, postgres_source}
use incrededup.Dedupe.Run.{for_each, and_then, ◌>>=◌}
use incrededup.Dedupe.Stream.{EdgeLookupMode, discover_streamed_component_doc_ids}
use incrededup.Dedupe.Transitivity.{Best, Resolved}
use incrededup.Dedupe.Sync.{
  ℤ, SyncError, Sync, SyncState, returned, on_store, query, on_db, on_flags, batch_size_usize,
  Phase3SyncOutcome, assignments_requiring_write, child_marks_to_apply, parent_marks_to_apply,
  resolve_connected, apply_resolution, perform_incremental_sync_streaming,
}

module _ (F : Float) (S : Table Bytes Bytes) (P : Table Uuid Uuid) (C : DocumentSource F P) where
  -- The marks, for a source that tracks the state.
  unfoldable pub mark_source :
      ℕ → Resolved F → List Uuid → List Uuid → List Uuid → P.T → Sync F S C.St Unit
  unfolding for_each
  mark_source size r new_doc_ids new_doc_set existing_parent_ids existing_dupe_parents =
      let marks : Sync F S C.St Unit = (do
        u ←
            for_each
              (chunks size (child_marks_to_apply r.child_ids new_doc_set existing_parent_ids))
              (λ chunk. on_flags F S C.St (λ st. C.mark_as_children st chunk))
        for_each
            (chunks size
              (parent_marks_to_apply P r.parent_ids new_doc_ids r.child_ids existing_dupe_parents))
            (λ chunk. on_flags F S C.St (λ st. C.mark_as_parents st chunk))) in
      if C.tracks_state then marks else returned F S C.St (ok tt)

  unfoldable pub apply_to_source :
      ℕ → Resolved F → List Uuid → List Uuid → List Uuid → P.T → Sync F S C.St Unit
  unfolding for_each mark_source
  apply_to_source size r new_doc_ids new_doc_set existing_parent_ids existing_dupe_parents = do
    let source_matches =
        map (to_source_match F)
          (assignments_requiring_write P F r.assignments new_doc_set existing_dupe_parents)
    u ←
        for_each (chunks size source_matches)
          (λ chunk. on_db F S C.St (λ st. C.write_dupes st chunk))
    mark_source size r new_doc_ids new_doc_set existing_parent_ids existing_dupe_parents

  module _ (U : Table Uuid Uuid) (B : Table Uuid (Best F)) (sim pct : F.F64) where
    unfoldable pub perform_incremental_sync_generic_streaming :
        ℕ → List Uuid → List Uuid → EdgeLookupMode → ℤ → Sync F S C.St Phase3SyncOutcome
    unfolding apply_to_source resolve_connected discover_streamed_component_doc_ids
    perform_incremental_sync_generic_streaming fuel phase3_seed_doc_ids new_doc_ids mode
          batch_size =
        do
          size ← returned F S C.St (batch_size_usize batch_size)
          let new_doc_set = to_set new_doc_ids []
          (component_doc_ids, discovery_stats) ←
              on_store F S C.St
                (λ s. discover_streamed_component_doc_ids F S fuel s phase3_seed_doc_ids mode)
          existing_parent_ids ←
              query F S C.St (λ st. C.fetch_existing_parent_ids st component_doc_ids)
          existing_dupe_parents ←
              query F S C.St (λ st. C.fetch_existing_dupe_parents st component_doc_ids)
          r ← on_store F S C.St (λ s.
              resolve_connected F U B sim pct S fuel s phase3_seed_doc_ids mode existing_parent_ids
                new_doc_set)
          u ←
              apply_to_source size r new_doc_ids new_doc_set existing_parent_ids
                existing_dupe_parents
          returned F S C.St (
              ok (record {
                connected_edges = discovery_stats.edges_streamed;
                new_children = length (filter (contains new_doc_set) r.child_ids);
              }))

module _ (F : Float) (S : Table Bytes Bytes) (D : Database F) (H : Table Uuid (Held F))
    (P U : Table Uuid Uuid) (B : Table Uuid (Best F)) (sim pct : F.F64) where
  abbrev pool : DocumentSource F P
  pool = postgres_source F P D H

  abbrev St : Type 0
  St = SyncState F S D.Db

  and_then_cong :
      {A B : Type 0} (f g : A → Sync F S D.Db B) (o : Option (St × Result SyncError A))
      → ((a : A) (st : St) → f a st ≡ g a st)
      → and_then f o ≡ and_then g o
  and_then_cong f g none h = refl
  and_then_cong f g (some (st, err e)) h = refl
  and_then_cong f g (some (st, ok a)) h = h a st

  converted : (c : List (DupeMatch F)) → map (to_dupe_match F) (map (to_source_match F) c) ≡ c
  converted [] = refl
  converted (m ∷ c) = ap (λ t. m ∷ t) (converted c)

  -- The loop over the converted chunks writes the rows themselves.
  writes_lem :
      (cs : List (List (DupeMatch F))) (st : St)
      → for_each
          (map (map (to_source_match F)) cs)
          (λ chunk. on_db F S D.Db (λ db. write_dupes F D db (map (to_dupe_match F) chunk)))
          st
        ≡ for_each cs (λ chunk. on_db F S D.Db (λ db. write_dupes F D db chunk)) st
  unfolding for_each
  writes_lem [] st = refl
  writes_lem (c ∷ cs) st =
      ap
        (λ l.
          and_then
            (λ u.
              for_each (map (map (to_source_match F)) cs)
                (λ chunk. on_db F S D.Db (λ db. write_dupes F D db (map (to_dupe_match F) chunk))))
            (on_db F S D.Db (λ db. write_dupes F D db l) st))
        (converted c)
      ∙ and_then_cong _ _ (on_db F S D.Db (λ db. write_dupes F D db c) st)
          (λ u st'. writes_lem cs st')

  apply_lem :
      (size : ℕ) (r : Resolved F) (new_doc_ids new_doc_set existing : List Uuid) (parents : P.T)
      (st : St)
      → apply_to_source F S P pool size r new_doc_ids new_doc_set existing parents st
        ≡ apply_resolution F S D H P U B sim pct size r new_doc_ids new_doc_set existing parents st
  unfolding apply_to_source apply_resolution mark_source
  apply_lem size r new_doc_ids new_doc_set existing parents st =
      let rows = assignments_requiring_write P F r.assignments new_doc_set parents in
      rw (chunks-map (to_source_match F) size rows) (rw (writes_lem (chunks size rows) st) refl)

  -- The sync with another way to apply the resolution.
  abbrev skeleton :
      (ℕ → Resolved F → List Uuid → List Uuid → List Uuid → P.T → Sync F S D.Db Unit)
      → ℕ
      → List Uuid
      → List Uuid
      → EdgeLookupMode
      → ℤ
      → Sync F S D.Db Phase3SyncOutcome
  skeleton apply fuel seeds new_doc_ids mode batch_size = do
    size ← returned F S D.Db (batch_size_usize batch_size)
    let new_doc_set = to_set new_doc_ids []
    (ids, stats) ←
        on_store F S D.Db (λ s. discover_streamed_component_doc_ids F S fuel s seeds mode)
    existing ← query F S D.Db (λ db. fetch_parent_ids_by_doc_ids F D db ids)
    parents ← query F S D.Db (λ db. fetch_dupe_parents_by_child_ids F D H P db ids)
    r ←
        on_store F S D.Db
          (λ s. resolve_connected F U B sim pct S fuel s seeds mode existing new_doc_set)
    u ← apply size r new_doc_ids new_doc_set existing parents
    returned F S D.Db (
        ok (record {
          connected_edges = stats.edges_streamed;
          new_children = length (filter (contains new_doc_set) r.child_ids);
        }))

  applies :
      (λ size r new_doc_ids new_doc_set existing parents.
        apply_to_source F S P pool size r new_doc_ids new_doc_set existing parents)
      ≡ apply_resolution F S D H P U B sim pct
  applies = fun_ext λ size. fun_ext λ r.
      fun_ext λ n. fun_ext λ s. fun_ext λ e. fun_ext λ p. fun_ext λ st. apply_lem size r n s e p st

  -- The generic sync over a `PostgresSource` is the sync of its pool: the same database, the same
  -- store and the same result, errors included, in every mode and for every batch size.
  pub generic-streaming :
      (fuel : ℕ) (seeds new_docs : List Uuid) (mode : EdgeLookupMode) (batch_size : ℤ) (st : St)
      → perform_incremental_sync_generic_streaming F S P pool U B sim pct fuel seeds new_docs mode
          batch_size st
        ≡ perform_incremental_sync_streaming F S D H P U B sim pct fuel seeds new_docs mode
            batch_size st
  unfolding perform_incremental_sync_generic_streaming perform_incremental_sync_streaming
  generic-streaming fuel seeds new_docs mode batch_size st =
      ap (λ apply. skeleton apply fuel seeds new_docs mode batch_size st) applies
