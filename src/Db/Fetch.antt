-- ===== src/Db/Fetch.antt =====
-- What the reads of src/db/mod.rs return.
use incrededup.Base.{
  ◌≡◌, ◌↔◌, ◌⊎◌, inl, inr, refl, sym, ap, ◌∙◌, subst, true, Bool-cases, ==-cases, Option-cases,
  arith, Option, none, some, List, [], ◌∷◌, Elem, Elem-append, Distinct, chunks, concat,
  concat-chunks, ⊎_elim,
}
use incrededup.Match.{Float, DupeMatch}
use incrededup.Table.{Table}
use incrededup.UnionFind.{Uuid}
use incrededup.Storage.Scan.{to_set}
use incrededup.Storage.Scan.Reach.{Elem-to_set}
use incrededup.Db.{
  Database, Held, chunk_size, parent_chunks, fetch_parent_ids_by_doc_ids, keep_row, keep_rows,
  dupe_chunks, drop_scores, fetch_dupe_parents_by_child_ids,
}

module _ (F : Float) (D : Database F) (db : D.Db) where
  Elem-parent_chunks :
      (cs : List (List Uuid)) (set : List Uuid) (x : Uuid)
      → Elem x (parent_chunks F D db cs set)
        ↔ (Elem x set ⊎ Elem x (concat cs) × (D.flag db x ≡ some (some true)))
  unfolding parent_chunks concat
  Elem-parent_chunks [] set x = (inl, λ h. ⊎_elim (λ k. k) (λ k. absurd k.0) h)
  Elem-parent_chunks (c ∷ cs) set x = ground (
    arith,
    Elem-parent_chunks cs (to_set (D.select_parents db c) set) x,
    Elem-to_set (D.select_parents db c) set x,
    D.Elem-select_parents db c x,
    Elem-append x c (concat cs),
  )

  -- The documents asked for that are flagged as parents.
  pub Elem-fetch_parent_ids :
      (ids : List Uuid) (x : Uuid)
      → Elem x (fetch_parent_ids_by_doc_ids F D db ids)
        ↔ (Elem x ids × (D.flag db x ≡ some (some true)))
  unfolding fetch_parent_ids_by_doc_ids
  Elem-fetch_parent_ids [] x = (λ m. absurd m, λ m. absurd m.0)
  Elem-fetch_parent_ids (id ∷ ids) x =
      let h = Elem-parent_chunks (chunks chunk_size (id ∷ ids)) [] x in
      let whole = concat-chunks chunk_size (id ∷ ids) (omega arith) in
      let e : Elem x (concat (chunks chunk_size (id ∷ ids))) ↔ Elem x (id ∷ ids) =
        (subst (Elem x) whole, subst (Elem x) (sym whole)) in
      (
        λ m. elim (h.0 m) [ inl k ↦ absurd k | inr k ↦ (e.0 k.0, k.1) ],
        λ m. h.1 (inr (e.1 m.0, m.1)),
      )

module _ (F : Float) (B : Table Uuid (Held F)) where
  abbrev pub HasRow : Uuid → B.T → Type 0
  HasRow x best = (h : Held F) × (B.get best x ≡ some h)

  -- A row only sets the entry of its child, to its own parent or to what was there.
  data Kept (best : B.T) (row : DupeMatch F) : B.T → Type 0 where
    set :
        (h : Held F)
        → (h.0 ≡ row.parent_id) ⊎ (B.get best row.child_id ≡ some h)
        → Kept best row (B.insert best row.child_id h)

  keep_row-Kept : (best : B.T) (row : DupeMatch F) → Kept best row (keep_row F B best row)
  unfolding keep_row
  keep_row-Kept best row = elim (Option-cases (B.get best row.child_id)) [
    | inl e ↦ rw (e, keep_row) (set (row.parent_id, row.jaccard_similarity) (inl refl))
    | inr (h, e) ↦ elim (Bool-cases (F.gt row.jaccard_similarity h.1)) [
      | inl t ↦ rw (e, keep_row) (rw t (set (row.parent_id, row.jaccard_similarity) (inl refl)))
      | inr f ↦ rw (e, keep_row) (rw f (set h (inr e)))
    ]
  ]

  module _ (P : DupeMatch F → Type 0) where
    -- Each parent in the table comes from a row.
    abbrev pub FromRows : B.T → Type 0
    FromRows best =
        (x : Uuid) (h : Held F)
        → B.get best x ≡ some h
        → (m : DupeMatch F) × P m × (m.child_id ≡ x) × (m.parent_id ≡ h.0)

    Kept-FromRows :
        (best : B.T) (row : DupeMatch F) (best' : B.T)
        → P row
        → FromRows best
        → Kept best row best'
        → FromRows best'
    Kept-FromRows best row best' p from (set h source) x h' e = elim (==-cases x row.child_id) [
      | inl (t, same) ↦
          let here : some h ≡ some h' =
            sym (B.get-insert_self best row.child_id h) ∙ ap (B.get _) (sym same) ∙ e in
          let value : h ≡ h' = cc in
          elim source [
            | inl own ↦ (row, p, sym same, sym own ∙ ap (λ (k : Held F). k.0) value)
            | inr old ↦
                let (m, q, c, d) = from row.child_id h old in
                (m, q, c ∙ sym same, d ∙ ap (λ (k : Held F). k.0) value)
          ]
      | inr (f, other) ↦ from x h' (sym (B.get-insert_ne best row.child_id x h other) ∙ e)
    ]

    pub keep_rows-FromRows :
        (rows : List (DupeMatch F)) (best : B.T)
        → ((m : DupeMatch F) → Elem m rows → P m)
        → FromRows best
        → FromRows (keep_rows F B best rows)
    unfolding keep_rows
    keep_rows-FromRows [] best all from = from
    keep_rows-FromRows (row ∷ rows) best all from =
        keep_rows-FromRows rows (keep_row F B best row) (λ m i. all m (inr i))
          (Kept-FromRows best row _ (all row (inl refl)) from (keep_row-Kept best row))

  Kept-HasRow :
      (best : B.T) (row : DupeMatch F) (best' : B.T) (x : Uuid)
      → (x ≡ row.child_id) ⊎ HasRow x best
      → Kept best row best'
      → HasRow x best'
  Kept-HasRow best row best' x had (set h source) = elim (==-cases x row.child_id) [
    | inl (t, same) ↦ (h, ap (B.get _) same ∙ B.get-insert_self best row.child_id h)
    | inr (f, other) ↦ elim had [
      | inl same ↦ absurd (other same)
      | inr (k, e) ↦ (k, B.get-insert_ne best row.child_id x h other ∙ e)
    ]
  ]

  pub keep_rows-HasRow :
      (rows : List (DupeMatch F)) (best : B.T) (x : Uuid)
      → HasRow x best ⊎ ((m : DupeMatch F) × Elem m rows × (x ≡ m.child_id))
      → HasRow x (keep_rows F B best rows)
  unfolding keep_rows
  keep_rows-HasRow [] best x (inl had) = had
  keep_rows-HasRow [] best x (inr (m, i, e)) = absurd i
  keep_rows-HasRow (row ∷ rows) best x had =
      keep_rows-HasRow rows (keep_row F B best row) x (elim had [
        | inl old ↦ inl (Kept-HasRow best row _ x (inr old) (keep_row-Kept best row))
        | inr (m, inl same, e) ↦ inl (
            Kept-HasRow best row _ x (inl (e ∙ ap (λ (r : DupeMatch F). r.child_id) same))
              (keep_row-Kept best row))
        | inr (m, inr i, e) ↦ inr (m, i, e)
      ])

module _ (F : Float) (M : Table Uuid Uuid) where
  -- An entry that is written last decides.
  drop_scores-out :
      (es : List (Uuid × Held F)) (t : M.T) (x : Uuid)
      → ((h : Held F) → Elem (x, h) es → ⊥)
      → M.get (drop_scores F M es t) x ≡ M.get t x
  unfolding drop_scores
  drop_scores-out [] t x none_there = refl
  drop_scores-out ((c, h) ∷ es) t x none_there =
      drop_scores-out es (M.insert t c h.0) x (λ k i. none_there k (inr i))
      ∙ M.get-insert_ne t c x h.0 (λ e. none_there h (inl (ap (λ y. (y, h)) e)))

  pub drop_scores_lem :
      (es : List (Uuid × Held F)) (t : M.T) (x : Uuid) (h : Held F)
      → Distinct (λ (e : Uuid × Held F). e.0) es
      → Elem (x, h) es
      → M.get (drop_scores F M es t) x ≡ some h.0
  unfolding drop_scores
  drop_scores_lem [] t x h d m = absurd m
  drop_scores_lem ((c, k) ∷ es) t x h d (inl e) =
      let same : x ≡ c = ap (λ (p : Uuid × Held F). p.0) e in
      drop_scores-out es (M.insert t c k.0) x (λ j i. d.0 (x, j) i (sym same))
      ∙ ap (M.get (M.insert t c k.0)) same
      ∙ M.get-insert_self t c k.0
      ∙ ap (λ (p : Uuid × Held F). some p.1.0) (sym e)
  drop_scores_lem ((c, k) ∷ es) t x h d (inr m) = drop_scores_lem es (M.insert t c k.0) x h d.1 m

  pub drop_scores-none :
      (es : List (Uuid × Held F)) (x : Uuid)
      → ((h : Held F) → Elem (x, h) es → ⊥)
      → M.get (drop_scores F M es M.empty) x ≡ none
  drop_scores-none es x none_there = drop_scores-out es M.empty x none_there ∙ M.get-empty x

module _ (F : Float) (D : Database F) (db : D.Db) (B : Table Uuid (Held F))
    (M : Table Uuid Uuid) where
  abbrev IsRow : DupeMatch F → Type 0
  IsRow m = Elem m (D.dupes db)

  dupe_chunks-FromRows :
      (cs : List (List Uuid)) (best : B.T)
      → FromRows F B IsRow best
      → FromRows F B IsRow (dupe_chunks F D B db cs best)
  unfolding dupe_chunks
  dupe_chunks-FromRows [] best from = from
  dupe_chunks-FromRows (c ∷ cs) best from =
      dupe_chunks-FromRows cs (keep_rows F B best (D.select_dupes db c)) (
        keep_rows-FromRows F B IsRow (D.select_dupes db c) best
          (λ m i. ((D.Elem-select_dupes db c m).0 i).0) from)

  dupe_chunks-HasRow :
      (cs : List (List Uuid)) (best : B.T) (m : DupeMatch F)
      → IsRow m
      → HasRow F B m.child_id best ⊎ Elem m.child_id (concat cs)
      → HasRow F B m.child_id (dupe_chunks F D B db cs best)
  unfolding dupe_chunks concat
  dupe_chunks-HasRow [] best m r (inl had) = had
  dupe_chunks-HasRow [] best m r (inr i) = absurd i
  dupe_chunks-HasRow (c ∷ cs) best m r h =
      dupe_chunks-HasRow cs (keep_rows F B best (D.select_dupes db c)) m r (elim h [
        | inl had ↦ inl (keep_rows-HasRow F B (D.select_dupes db c) best m.child_id (inl had))
        | inr i ↦ elim ((Elem-append m.child_id c (concat cs)).0 i) [
          | inl k ↦ inl (
              keep_rows-HasRow F B (D.select_dupes db c) best m.child_id
                (inr (m, (D.Elem-select_dupes db c m).1 (r, k), refl)))
          | inr k ↦ inr k
        ]
      ])

  get-drop_scores :
      (best : B.T) (x : Uuid) (h : Held F)
      → B.get best x ≡ some h
      → M.get (drop_scores F M (B.entries best) M.empty) x ≡ some h.0
  get-drop_scores best x h e =
      drop_scores_lem F M (B.entries best) M.empty x h (B.distinct-entries best)
        ((B.Elem-entries best x h).1 e)

  -- A parent that is returned stands in a row of its child.
  pub fetch_dupe_parents-IsRow :
      (ids : List Uuid) (x p : Uuid)
      → M.get (fetch_dupe_parents_by_child_ids F D B M db ids) x ≡ some p
      → (m : DupeMatch F) × Elem m (D.dupes db) × (m.child_id ≡ x) × (m.parent_id ≡ p)
  unfolding fetch_dupe_parents_by_child_ids
  fetch_dupe_parents-IsRow [] x p e = absurd (clash (M.get-empty x) e)
    where
      clash : M.get M.empty x ≡ none → M.get M.empty x ≡ some p → ⊥
      clash a b = cc
  fetch_dupe_parents-IsRow (id ∷ ids) x p e = elim (Option-cases (B.get best x)) [
    | inl f ↦
        let gone =
          drop_scores-none F M (B.entries best) x
            (λ h i. clash (B.get best x) h f ((B.Elem-entries best x h).0 i)) in
        absurd (clash _ p gone e)
    | inr (h, f) ↦
        let (m, r, c, d) = from x h f in
        (m, r, c, d ∙ value h.0 (sym (get-drop_scores best x h f) ∙ e))
  ]
    where
      best : B.T
      best = dupe_chunks F D B db (chunks chunk_size (id ∷ ids)) B.empty

      clash : {A : Type 0} (o : Option A) (a : A) → o ≡ none → o ≡ some a → ⊥
      clash o a f g = cc

      value : (a : Uuid) → some a ≡ some p → a ≡ p
      value a f = cc

      from : FromRows F B IsRow best
      from =
          dupe_chunks-FromRows (chunks chunk_size (id ∷ ids)) B.empty
            (λ y h f. absurd (clash _ h (B.get-empty y) f))

  -- A child that is asked for and has a row gets a parent.
  pub fetch_dupe_parents-HasParent :
      (ids : List Uuid) (m : DupeMatch F)
      → Elem m (D.dupes db)
      → Elem m.child_id ids
      → (p : Uuid) × (M.get (fetch_dupe_parents_by_child_ids F D B M db ids) m.child_id ≡ some p)
  unfolding fetch_dupe_parents_by_child_ids
  fetch_dupe_parents-HasParent [] m r i = absurd i
  fetch_dupe_parents-HasParent (id ∷ ids) m r i =
      let whole = concat-chunks chunk_size (id ∷ ids) (omega arith) in
      let best = dupe_chunks F D B db (chunks chunk_size (id ∷ ids)) B.empty in
      let (h, e) =
        dupe_chunks-HasRow (chunks chunk_size (id ∷ ids)) B.empty m r
          (inr (subst (Elem m.child_id) (sym whole) i)) in
      (h.0, get-drop_scores best m.child_id h e)
