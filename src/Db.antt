-- ===== src/Db.antt =====
-- `DbPool` of src/db/mod.rs: the writes and reads of the `dupes` table and of the flag `is_parent`.
-- The server and `tokio_postgres` are not code of the repository, so their statements are an
-- interface; a failure of the connection is not modelled.
pub mod Children
pub mod Rows
pub mod Marks
pub mod Fetch
pub mod Bounds
pub mod Names
use incrededup.Base.{
  ℕ, ◌+◌, Bool, true, false, Option, none, some, List, [], ◌∷◌, ◌≡◌, ◌↔◌, ◌⊎◌, ◌≢◌, map, Elem,
  Distinct, contains, include, chunks, length, if◌then◌else◌, Result, err, ok,
}
use incrededup.Base.Results.{◌>>=◌}
use incrededup.Match.{Float, DupeMatch}
use incrededup.Table.{Table}
use incrededup.UnionFind.{Uuid}
use incrededup.Storage.Scan.{to_set}

-- The value of a row after `SET is_parent = b`; `none` is a document without a row.
abbrev pub set_flag : Bool → Option (Option Bool) → Option (Option Bool)
set_flag b none = none
set_flag b (some old) = some (some b)

-- The statements, with the rows of `dupes` and the flag of a document for what they are about.
-- `insert_dupes` is `none` when a constraint of the table refuses it.
pub record Database (F : Float) : Type 1 where
  pub Db : Type 0
  pub dupes : Db → List (DupeMatch F)
  pub flag : Db → Uuid → Option (Option Bool)
  pub delete_dupes : Db → List Uuid → Db
  pub insert_dupes : Db → List (DupeMatch F) → Option Db
  pub update_flags : Db → Bool → List Uuid → Db × ℕ
  pub select_parents : Db → List Uuid → List Uuid
  pub select_dupes : Db → List Uuid → List (DupeMatch F)
  pub dupes-delete :
      (db : Db) (ids : List Uuid) (m : DupeMatch F)
      → Elem m (dupes (delete_dupes db ids)) ↔ (Elem m (dupes db) × (Elem m.child_id ids → ⊥))
  pub flag-delete :
      (db : Db) (ids : List Uuid) (x : Uuid) → flag (delete_dupes db ids) x ≡ flag db x
  pub insert_fresh :
      (db : Db) (ms : List (DupeMatch F))
      → Distinct (λ (m : DupeMatch F). m.child_id) ms
      → ((m n : DupeMatch F) → Elem m ms → Elem n (dupes db) → m.child_id ≢ n.child_id)
      → (db' : Db) × (insert_dupes db ms ≡ some db')
        × ((m : DupeMatch F) → Elem m (dupes db') ↔ (Elem m ms ⊎ Elem m (dupes db)))
        × ((x : Uuid) → flag db' x ≡ flag db x)
  pub dupes-update :
      (db : Db) (b : Bool) (ids : List Uuid) (m : DupeMatch F)
      → Elem m (dupes (update_flags db b ids).0) ↔ Elem m (dupes db)
  pub flag-update_in :
      (db : Db) (b : Bool) (ids : List Uuid) (x : Uuid)
      → Elem x ids
      → flag (update_flags db b ids).0 x ≡ set_flag b (flag db x)
  pub flag-update_out :
      (db : Db) (b : Bool) (ids : List Uuid) (x : Uuid)
      → (Elem x ids → ⊥)
      → flag (update_flags db b ids).0 x ≡ flag db x
  pub Elem-select_parents :
      (db : Db) (ids : List Uuid) (x : Uuid)
      → Elem x (select_parents db ids) ↔ (Elem x ids × (flag db x ≡ some (some true)))
  pub Elem-select_dupes :
      (db : Db) (ids : List Uuid) (m : DupeMatch F)
      → Elem m (select_dupes db ids) ↔ (Elem m (dupes db) × Elem m.child_id ids)

pub data DbError : Type 0 where
  multiple_parents : Uuid → DbError
  refused : DbError

-- `DUPE_WRITE_CHUNK_SIZE`
abbrev pub dupe_write_chunk_size : ℕ
dupe_write_chunk_size = 5000

-- `CHUNK_SIZE`
abbrev pub chunk_size : ℕ
chunk_size = 50000

module _ (F : Float) where
  -- The loop over `seen_children`.
  unfoldable pub check_children : List (DupeMatch F) → List Uuid → Result DbError Unit
  check_children [] seen_children = ok tt
  check_children (m ∷ ms) seen_children =
      let rest = check_children ms (include m.child_id seen_children) in
      if contains seen_children m.child_id then err (multiple_parents m.child_id) else rest

  -- A row of `SELECT child_id, parent_id, jaccard_similarity`.
  abbrev pub Held : Type 0
  Held = Uuid × F.F64

  module _ (B : Table Uuid Held) where
    -- The loop over the rows, with the row of the highest score for each child.
    unfoldable pub keep_row : B.T → DupeMatch F → B.T
    keep_row best row = elim (B.get best row.child_id) [
      | none ↦ B.insert best row.child_id (row.parent_id, row.jaccard_similarity)
      | some existing ↦ B.insert best row.child_id (
          if F.gt row.jaccard_similarity existing.1
          then (row.parent_id, row.jaccard_similarity)
          else existing)
    ]

    unfoldable pub keep_rows : B.T → List (DupeMatch F) → B.T
    unfolding keep_row
    keep_rows best [] = best
    keep_rows best (row ∷ rows) = keep_rows (keep_row best row) rows

  module _ (M : Table Uuid Uuid) where
    -- The map from children to parents, the score dropped.
    unfoldable pub drop_scores : List (Uuid × Held) → M.T → M.T
    drop_scores [] parents = parents
    drop_scores ((child_id, held) ∷ rest) parents =
        drop_scores rest (M.insert parents child_id held.0)

module _ (F : Float) (D : Database F) where
  -- The transactions, one for each chunk; the one that fails is rolled back.
  unfoldable pub write_chunks : List (List (DupeMatch F)) → D.Db → ℕ → D.Db × Result DbError ℕ
  write_chunks [] db total_written = (db, ok total_written)
  write_chunks (chunk ∷ rest) db total_written =
      let child_ids = map (λ (m : DupeMatch F). m.child_id) chunk in
      elim (D.insert_dupes (D.delete_dupes db child_ids) chunk) [
        | none ↦ (db, err refused)
        | some db' ↦ write_chunks rest db' (total_written + length chunk)
      ]

  unfoldable pub write_dupes : D.Db → List (DupeMatch F) → D.Db × Result DbError ℕ
  unfolding check_children write_chunks
  write_dupes db [] = (db, ok 0)
  write_dupes db (m ∷ ms) = elim (check_children F (m ∷ ms) []) [
    | err e ↦ (db, err e)
    | ok u ↦ write_chunks (chunks dupe_write_chunk_size (m ∷ ms)) db 0
  ]

  unfoldable pub mark_chunks : Bool → List (List Uuid) → D.Db → ℕ → D.Db × ℕ
  mark_chunks b [] db total_updated = (db, total_updated)
  mark_chunks b (chunk ∷ rest) db total_updated =
      let (db', result) = D.update_flags db b chunk in
      mark_chunks b rest db' (total_updated + result)

  unfoldable pub mark_as_parents : D.Db → List Uuid → D.Db × ℕ
  unfolding mark_chunks
  mark_as_parents db [] = (db, 0)
  mark_as_parents db (id ∷ ids) = mark_chunks true (chunks chunk_size (id ∷ ids)) db 0

  unfoldable pub mark_as_children : D.Db → List Uuid → D.Db × ℕ
  unfolding mark_chunks
  mark_as_children db [] = (db, 0)
  mark_as_children db (id ∷ ids) = mark_chunks false (chunks chunk_size (id ∷ ids)) db 0

  unfoldable pub parent_chunks : D.Db → List (List Uuid) → List Uuid → List Uuid
  parent_chunks db [] parent_ids = parent_ids
  parent_chunks db (chunk ∷ rest) parent_ids =
      parent_chunks db rest (to_set (D.select_parents db chunk) parent_ids)

  unfoldable pub fetch_parent_ids_by_doc_ids : D.Db → List Uuid → List Uuid
  unfolding parent_chunks
  fetch_parent_ids_by_doc_ids db [] = []
  fetch_parent_ids_by_doc_ids db (id ∷ ids) = parent_chunks db (chunks chunk_size (id ∷ ids)) []

  module _ (B : Table Uuid (Held F)) where
    unfoldable pub dupe_chunks : D.Db → List (List Uuid) → B.T → B.T
    unfolding keep_rows
    dupe_chunks db [] best = best
    dupe_chunks db (chunk ∷ rest) best =
        dupe_chunks db rest (keep_rows F B best (D.select_dupes db chunk))

    module _ (M : Table Uuid Uuid) where
      unfoldable pub fetch_dupe_parents_by_child_ids : D.Db → List Uuid → M.T
      unfolding dupe_chunks drop_scores
      fetch_dupe_parents_by_child_ids db [] = M.empty
      fetch_dupe_parents_by_child_ids db (id ∷ ids) =
          drop_scores F M (B.entries (dupe_chunks db (chunks chunk_size (id ∷ ids)) B.empty))
            M.empty
