-- ===== src/Dedupe/Sync/Laws.antt =====
-- What the writes of the sync of src/dedupe/mod.rs make of the database, for a resolution of some edges.
use incrededup.Base.{
  ℕ, ◌≡◌, ◌≢◌, ◌↔◌, ◌⊎◌, inl, inr, sym, ap, ◌∙◌, subst, Bool, true, false, Bool-cases, clash, ◌^◌,
  Option, none, some, List, [], Elem, All, All-elem, contains, contains_iff, Elem-map_in,
  Elem-map_out, Distinct, ⊎_elim,
}
use incrededup.Match.{Float, DupeMatch}
use incrededup.Table.{Table}
use incrededup.UnionFind.{Uuid}
use incrededup.UnionFind.Components.{
  Canonical, Canonical-unique, Conn-start, Endpoint, Endpoint-bounded, IsBounded, Keyed,
}
use incrededup.Storage.Scan.{to_set}
use incrededup.Db.{
  Database, Held, set_flag, fetch_parent_ids_by_doc_ids, fetch_dupe_parents_by_child_ids,
}
use incrededup.Db.Children.{child_of, children}
use incrededup.Db.Rows.{Replaced, OneParent, OneParent-Replaced}
use incrededup.Db.Marks.{Marked}
use incrededup.Db.Fetch.{
  Elem-fetch_parent_ids, fetch_dupe_parents-IsRow, fetch_dupe_parents-HasParent,
}
use incrededup.Dedupe.Transitivity.{Best, Resolved, assignment}
use incrededup.Dedupe.Transitivity.Results.{IsResolution}
use incrededup.Dedupe.Sync.{
  assignments_requiring_write, child_marks_to_apply, parent_marks_to_apply,
}
use incrededup.Dedupe.Sync.Plan.{
  Elem-child_marks, Elem-parent_marks, assignments-cases, assignments_requiring_write-Elem,
}

module _ (F : Float) (D : Database F) where
  -- The database agrees with the components of `es`.
  pub record IsSynced (key : ℕ → ℕ) (es : List (ℕ × ℕ)) (new_docs : List Uuid) (db db' : D.Db)
      : Type 0 where
    pub one_parent : OneParent F D db'
    -- A document that is not canonical has a row to the canonical one, and is no flagged parent.
    pub assigned :
        (x p : Uuid)
        → Canonical key es x p
        → p ≢ x
        → (a : DupeMatch F) × Elem a (D.dupes db') × (a.child_id ≡ x) × (a.parent_id ≡ p)
    pub unflagged : (x p : Uuid) → Canonical key es x p → p ≢ x → D.flag db' x ≢ some (some true)
    -- A new document that is canonical is flagged, and so is one that had a row.
    pub flagged :
        (x : Uuid)
        → Elem x new_docs
        → ((p : Uuid) → Canonical key es x p → p ≡ x)
        → D.flag db' x ≡ set_flag true (D.flag db x)
    pub promoted :
        (a : DupeMatch F)
        → Elem a (D.dupes db)
        → Endpoint es a.child_id
        → Canonical key es a.child_id a.child_id
        → D.flag db' a.child_id ≡ set_flag true (D.flag db a.child_id)
    -- All other rows and flags stay.
    pub rows_kept :
        (a : DupeMatch F)
        → ((p : Uuid) → Canonical key es a.child_id p → p ≡ a.child_id)
        → Elem a (D.dupes db') ↔ Elem a (D.dupes db)
    pub flags_kept :
        (x : Uuid) → (Elem x new_docs → ⊥) → (Endpoint es x → ⊥) → D.flag db' x ≡ D.flag db x

set_flag-unset : (o : Option (Option Bool)) → set_flag false o ≢ some (some true)
set_flag-unset none e = off e
  where
    off : none ≡ some (some true) → ⊥
    off e = cc
set_flag-unset (some o) e = off e
  where
    off : some (some false) ≡ some (some true) → ⊥
    off e = cc

module _ (F : Float) (D : Database F) (H : Table Uuid (Held F)) (P U : Table Uuid Uuid)
    (B : Table Uuid (Best F)) (sim pct : F.F64) (best : B.T) (key : ℕ → ℕ) (fuel : ℕ)
    (es : List (ℕ × ℕ)) (r : Resolved F) (ids new_docs : List Uuid) (db db₁ db₂ db₃ : D.Db) where
  abbrev existing : List Uuid
  existing = fetch_parent_ids_by_doc_ids F D db ids

  abbrev parents : P.T
  parents = fetch_dupe_parents_by_child_ids F D H P db ids

  abbrev rows : List (DupeMatch F)
  rows = assignments_requiring_write P F r.assignments (to_set new_docs []) parents

  abbrev kids : List Uuid
  kids = child_marks_to_apply r.child_ids (to_set new_docs []) existing

  abbrev tops : List Uuid
  tops = parent_marks_to_apply P r.parent_ids new_docs r.child_ids parents

  module _ (k : Keyed key (2 ^ 128) fuel) (low : All (IsBounded (2 ^ 128)) es)
      (h : IsResolution F U B sim pct best key es [] r) (one : OneParent F D db)
      (within : (x : Uuid) → Elem x ids ↔ Endpoint es x) (h₁ : Replaced F D rows db db₁)
      (h₂ : Marked F D false kids db₁ db₂) (h₃ : Marked F D true tops db₂ db₃) where
    Moved-Endpoint : (x p : Uuid) → Canonical key es x p → p ≢ x → Endpoint es x
    Moved-Endpoint x p c ne = ⊎_elim (λ e. absurd (ne (sym e))) (λ e. e) (Conn-start c.connected)

    unique : (x p q : Uuid) → Endpoint es x → Canonical key es x p → Canonical key es x q → p ≡ q
    unique x p q e c d =
        Canonical-unique k (All-elem (IsBounded (2 ^ 128)) es low) (Endpoint-bounded es x low e) c d

    -- A row of a written child is the assignment of that child.
    row_moved :
        (x : Uuid)
        → Elem x (children F rows)
        → (a : DupeMatch F) × Elem a rows
          × (a.child_id ≡ x)
          × Canonical key es x a.parent_id
          × (a.parent_id ≢ x)
    row_moved x i =
        let (a, m, e) = Elem-map_out (child_of F) rows x i in
        let (c, ne, same) =
          h.assigned_in a
            (assignments_requiring_write-Elem P F r.assignments (to_set new_docs []) parents a m) in
        (a, m, sym e, subst (λ y. Canonical key es y a.parent_id) (sym e) c, λ f. ne (f ∙ e))

    dupes_lem : (a : DupeMatch F) → Elem a (D.dupes db₃) ↔ Elem a (D.dupes db₁)
    dupes_lem a = (λ i. (h₂.rows a).0 ((h₃.rows a).0 i), λ i. (h₃.rows a).1 ((h₂.rows a).1 i))

    assigned_lem :
        (x p : Uuid)
        → Canonical key es x p
        → p ≢ x
        → (a : DupeMatch F) × Elem a (D.dupes db₃) × (a.child_id ≡ x) × (a.parent_id ≡ p)
    unfolding assignment
    assigned_lem x p c ne = elim (Bool-cases (contains (children F rows) x)) [
      | inl t ↦
          let (a, m, e, c', ne') = row_moved x ((contains_iff (children F rows) x).0 t) in
          (
            a,
            (dupes_lem a).1 ((h₁.rows a).1 (inl m)),
            e,
            unique x a.parent_id p (Moved-Endpoint x p c ne) c' c,
          )
      | inr f ↦
          let new =
            λ (i : Elem x (children F rows)). clash ((contains_iff (children F rows) x).1 i) f in
          let a = assignment F U B sim pct best x p in
          elim (assignments-cases P F r.assignments (to_set new_docs []) parents a
            (h.assigned_out x p c ne)) [
              | inl m ↦ absurd (new (Elem-map_in (child_of F) rows a m))
              | inr held ↦
                  let (b, i, e, e') = fetch_dupe_parents-IsRow F D db H P ids x p held in
                  (
                    b,
                    (dupes_lem b).1 (
                        (h₁.rows b).1
                          (inr (i, λ j. new (subst (λ y. Elem y (children F rows)) e j)))),
                    e,
                    e',
                  )
            ]
    ]

    rows_kept_lem :
        (a : DupeMatch F)
        → ((p : Uuid) → Canonical key es a.child_id p → p ≡ a.child_id)
        → Elem a (D.dupes db₃) ↔ Elem a (D.dupes db)
    rows_kept_lem a top =
        let new = λ (i : Elem a.child_id (children F rows)).
          let (b, m, e, c, ne) = row_moved a.child_id i in ne (top b.parent_id c) in
        (
          λ i. elim ((h₁.rows a).0 ((dupes_lem a).0 i)) [
            | inl m ↦ absurd (new (Elem-map_in (child_of F) rows a m))
            | inr (j, n) ↦ j
          ],
          λ i. (dupes_lem a).1 ((h₁.rows a).1 (inr (i, new))),
        )

    not_child : (x : Uuid) → ((p : Uuid) → Canonical key es x p → p ≡ x) → Elem x r.child_ids → ⊥
    not_child x top i = let (p, c, ne) = (h.children x).0 i in ne (top p c)

    not_kid : (x : Uuid) → (Elem x r.child_ids → ⊥) → D.flag db₂ x ≡ D.flag db x
    not_kid x n =
        h₂.outside x (λ i. n ((Elem-child_marks r.child_ids (to_set new_docs []) existing x).0 i).0)
        ∙ h₁.flags x

    -- A parent mark is one of a canonical document.
    top_cases :
        (x : Uuid)
        → Elem x tops
        → (Endpoint es x × Canonical key es x x) ⊎ Elem x new_docs × (Elem x r.child_ids → ⊥)
    top_cases x i = elim ((Elem-parent_marks P r.parent_ids new_docs r.child_ids parents x).0 i) [
      | inl (m, p) ↦ elim ((h.parents x).0 m) [ inl nothing ↦ absurd nothing | inr c ↦ inl c ]
      | inr m ↦ inr m
    ]

    unflagged_lem : (x p : Uuid) → Canonical key es x p → p ≢ x → D.flag db₃ x ≢ some (some true)
    unflagged_lem x p c ne =
        let child = (h.children x).1 (p, c, ne) in
        let e = Moved-Endpoint x p c ne in
        let below =
          h₃.outside x
            (λ i. ⊎_elim (λ t. ne (unique x p x e c t.1)) (λ t. t.1 child) (top_cases x i)) in
        elim (Bool-cases (contains kids x)) [
          | inl t ↦ λ f.
              set_flag-unset (D.flag db₁ x)
                (sym (h₂.inside x ((contains_iff kids x).0 t)) ∙ sym below ∙ f)
          | inr g ↦ λ f.
              let out = λ (i : Elem x kids). clash ((contains_iff kids x).1 i) g in
              let old = sym (h₂.outside x out ∙ h₁.flags x) ∙ sym below ∙ f in
              out (
                (Elem-child_marks r.child_ids (to_set new_docs []) existing x).1
                  (child, inr ((Elem-fetch_parent_ids F D db ids x).1 ((within x).1 e, old))))
        ]

    -- The writes bring the database up to the components.
    pub applied-IsSynced : Distinct (child_of F) rows → IsSynced F D key es new_docs db db₃
    applied-IsSynced d = record {
      one_parent = λ a b i j e.
          OneParent-Replaced F D rows db db₁ d one h₁ a b ((dupes_lem a).0 i) ((dupes_lem b).0 j) e;
      assigned = assigned_lem;
      unflagged = unflagged_lem;
      flagged = λ x m top.
          h₃.inside x (
            (Elem-parent_marks P r.parent_ids new_docs r.child_ids parents x).1
              (inr (m, not_child x top)))
          ∙ ap (set_flag true) (not_kid x (not_child x top));
      promoted = λ a i e c.
          h₃.inside a.child_id (
            (Elem-parent_marks P r.parent_ids new_docs r.child_ids parents a.child_id).1 (
              inl (
                (h.parents a.child_id).1 (inr (e, c)),
                fetch_dupe_parents-HasParent F D db H P ids a i ((within a.child_id).1 e),
              )))
          ∙ ap (set_flag true) (
              not_kid a.child_id
                (not_child a.child_id (λ p q. unique a.child_id p a.child_id e q c)));
      rows_kept = rows_kept_lem;
      flags_kept = λ x n m.
          h₃.outside x (λ i. ⊎_elim (λ t. m t.0) (λ t. n t.0) (top_cases x i))
          ∙ not_kid x (λ i. let (p, c, ne) = (h.children x).0 i in m (Moved-Endpoint x p c ne));
    }
