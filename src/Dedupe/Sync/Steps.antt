-- ===== src/Dedupe/Sync/Steps.antt =====
-- The writes of the sync of src/dedupe/mod.rs: what the loops over the chunks leave in the database.
use incrededup.Base.{
  ℕ, ◌<◌, ◌≡◌, refl, sym, ap, ◌∙◌, subst, Bool, true, false, some, List, [], ◌∷◌, Distinct,
  Distinct-append, Distinct-filter, chunks, concat, concat-chunks, ok,
}
use incrededup.Match.{Float, DupeMatch}
use incrededup.Table.{Table}
use incrededup.UnionFind.{Uuid}
use incrededup.Storage.{Bytes}
use incrededup.Storage.Matches.{MatchStore}
use incrededup.Db.{Database, Held, write_dupes, mark_as_parents, mark_as_children}
use incrededup.Db.Children.{child_of}
use incrededup.Db.Rows.{Replaced, Replaced-nil, Replaced-trans, write_dupes-Replaced}
use incrededup.Db.Marks.{
  Marked, Marked-nil, Marked-trans, mark_as_parents-Marked, mark_as_children-Marked,
}
use incrededup.Dedupe.Run.{for_each, and_then}
use incrededup.Dedupe.Transitivity.{Best, Resolved}
use incrededup.Dedupe.Sync.{
  written, on_db, on_flags, apply_resolution, assignments_requiring_write, child_marks_to_apply,
  parent_marks_to_apply,
}

module _ (F : Float) (S : Table Bytes Bytes) (D : Database F) where
  writes-Replaced :
      (cs : List (List (DupeMatch F))) (s : MatchStore F S) (db : D.Db)
      → Distinct (child_of F) (concat cs)
      → (db' : D.Db) × (for_each cs (λ chunk. on_db F S D.Db (λ t. write_dupes F D t chunk)) (s, db)
          ≡ some ((s, db'), ok tt))
        × Replaced F D (concat cs) db db'
  unfolding for_each concat
  writes-Replaced [] s db d = (db, refl, Replaced-nil F D db)
  writes-Replaced (c ∷ cs) s db d =
      let (first, rest, apart) = Distinct-append (child_of F) c (concat cs) d in
      let (db₁, run₁, h₁) = write_dupes-Replaced F D db c first in
      let (db₂, run₂, h₂) = writes-Replaced cs s db₁ rest in
      (
        db₂,
        ap (and_then (λ u. for_each cs (λ chunk. on_db F S D.Db (λ t. write_dupes F D t chunk))))
              (ap (written F S D.Db s) run₁)
            ∙ run₂,
        Replaced-trans F D c (concat cs) db db₁ db₂ d h₁ h₂,
      )

  marks-Marked :
      (b : Bool) (mark : D.Db → List Uuid → D.Db × ℕ)
      → ((db : D.Db) (ids : List Uuid) → Marked F D b ids db (mark db ids).0)
      → (cs : List (List Uuid)) (s : MatchStore F S) (db : D.Db)
      → (db' : D.Db) × (for_each cs (λ chunk. on_flags F S D.Db (λ t. mark t chunk)) (s, db)
          ≡ some ((s, db'), ok tt))
        × Marked F D b (concat cs) db db'
  unfolding for_each concat
  marks-Marked b mark law [] s db = (db, refl, Marked-nil F D b db)
  marks-Marked b mark law (c ∷ cs) s db =
      let db₁ = (mark db c).0 in
      let (db₂, run, h) = marks-Marked b mark law cs s db₁ in
      (db₂, run, Marked-trans F D b c (concat cs) db db₁ db₂ (law db c) h)

  module _ (H : Table Uuid (Held F)) (P U : Table Uuid Uuid) (B : Table Uuid (Best F))
      (sim pct : F.F64) where
    -- The assignments are written, the children are marked, then the parents.
    pub apply_resolution-Marked :
        (size : ℕ) (r : Resolved F) (new_doc_ids new_doc_set existing : List Uuid) (parents : P.T)
        (s : MatchStore F S) (db : D.Db)
        → 0 < size
        → Distinct (child_of F) r.assignments
        → (db₁ : D.Db) × (db₂ : D.Db) × (db₃ : D.Db) × (apply_resolution F S D H P U B sim pct size
              r new_doc_ids new_doc_set existing parents
              (s, db)
            ≡ some ((s, db₃), ok tt))
          × Replaced F D (assignments_requiring_write P F r.assignments new_doc_set parents) db db₁
          × Marked F D false (child_marks_to_apply r.child_ids new_doc_set existing) db₁ db₂
          × Marked F D true
              (parent_marks_to_apply P r.parent_ids new_doc_ids r.child_ids parents)
              db₂
              db₃
    unfolding apply_resolution
    apply_resolution-Marked size r new_doc_ids new_doc_set existing parents s db lt d =
        let rows = assignments_requiring_write P F r.assignments new_doc_set parents in
        let kids = child_marks_to_apply r.child_ids new_doc_set existing in
        let tops = parent_marks_to_apply P r.parent_ids new_doc_ids r.child_ids parents in
        let e₁ = concat-chunks size rows lt in
        let e₂ = concat-chunks size kids lt in
        let e₃ = concat-chunks size tops lt in
        let once : Distinct (child_of F) rows =
          unfold assignments_requiring_write in Distinct-filter (child_of F) _ r.assignments d in
        let (db₁, run₁, h₁) =
          writes-Replaced (chunks size rows) s db (subst (Distinct (child_of F)) (sym e₁) once) in
        let (db₂, run₂, h₂) =
          marks-Marked false (mark_as_children F D) (mark_as_children-Marked F D) (chunks size kids)
            s db₁ in
        let (db₃, run₃, h₃) =
          marks-Marked true (mark_as_parents F D) (mark_as_parents-Marked F D) (chunks size tops) s
            db₂ in
        (
          db₁,
          db₂,
          db₃,
          rw run₁ (rw run₂ run₃),
          subst (λ l. Replaced F D l db db₁) e₁ h₁,
          subst (λ l. Marked F D false l db₁ db₂) e₂ h₂,
          subst (λ l. Marked F D true l db₂ db₃) e₃ h₃,
        )
