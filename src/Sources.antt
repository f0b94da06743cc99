-- ===== src/Sources.antt =====
-- The trait `DocumentSource` of src/sources/mod.rs, as far as phase 3 calls it, with its default methods,
-- and `PostgresSource` of src/sources/postgres.rs, which wraps the pool. `St` is what the calls change.
use incrededup.Base.{ℕ, Bool, true, false, List, [], map, Result, ok}
use incrededup.Match.{Float, DupeMatch}
use incrededup.Table.{Table}
use incrededup.UnionFind.{Uuid}
use incrededup.Db
use incrededup.Db.{
  Database, DbError, Held, fetch_parent_ids_by_doc_ids, fetch_dupe_parents_by_child_ids,
}

pub record SourceDupeMatch (F : Float) : Type 0 where
  pub child_id : Uuid
  pub parent_id : Uuid
  pub jaccard_similarity : F.F64
  pub size_difference : ℕ
  pub size_difference_pct : F.F64

pub record DocumentSource (F : Float) (P : Table Uuid Uuid) : Type 1 where
  pub St : Type 0
  pub fetch_existing_parent_ids : St → List Uuid → List Uuid
  pub fetch_existing_dupe_parents : St → List Uuid → P.T
  pub mark_as_parents : St → List Uuid → St × ℕ
  pub mark_as_children : St → List Uuid → St × ℕ
  pub write_dupes : St → List (SourceDupeMatch F) → St × Result DbError ℕ
  pub supports_write : Bool
  pub tracks_state : Bool

-- The conversions between the two types of a match.
abbrev pub to_source_match : (F : Float) → DupeMatch F → SourceDupeMatch F
to_source_match F m = record {
  child_id = m.child_id;
  parent_id = m.parent_id;
  jaccard_similarity = m.jaccard_similarity;
  size_difference = m.size_difference;
  size_difference_pct = m.size_difference_pct;
}

abbrev pub to_dupe_match : (F : Float) → SourceDupeMatch F → DupeMatch F
to_dupe_match F m = record {
  child_id = m.child_id;
  parent_id = m.parent_id;
  jaccard_similarity = m.jaccard_similarity;
  size_difference = m.size_difference;
  size_difference_pct = m.size_difference_pct;
}

module _ (F : Float) (P : Table Uuid Uuid) where
  -- The default methods: nothing is read or written.
  abbrev pub default_source : Type 0 → DocumentSource F P
  default_source St = record {
    St = St;
    fetch_existing_parent_ids = λ st ids. [];
    fetch_existing_dupe_parents = λ st child_ids. P.empty;
    mark_as_parents = λ st ids. (st, 0);
    mark_as_children = λ st ids. (st, 0);
    write_dupes = λ st matches. (st, ok 0);
    supports_write = false;
    tracks_state = false;
  }

  module _ (D : Database F) (H : Table Uuid (Held F)) where
    abbrev pub postgres_source : DocumentSource F P
    postgres_source = record {
      St = D.Db;
      fetch_existing_parent_ids = λ db ids. fetch_parent_ids_by_doc_ids F D db ids;
      fetch_existing_dupe_parents = λ db ids. fetch_dupe_parents_by_child_ids F D H P db ids;
      mark_as_parents = λ db ids. Db.mark_as_parents F D db ids;
      mark_as_children = λ db ids. Db.mark_as_children F D db ids;
      write_dupes = λ db matches. Db.write_dupes F D db (map (to_dupe_match F) matches);
      supports_write = true;
      tracks_state = true;
    }
