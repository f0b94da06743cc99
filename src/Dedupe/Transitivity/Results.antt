-- ===== src/Dedupe/Transitivity/Results.antt =====
-- What `resolve_transitivity` and its variants in src/dedupe/mod.rs return.
use incrededup.Base.{
  Distinct, Distinct-sort_by, some, ◌≤◌, ◌^◌, ◌*◌, ℕ, ◌≡◌, ◌≢◌, ◌↔◌, ◌⊎◌, refl, sym, ◌∙◌, subst,
  All, inl, inr, List, [], ◌∷◌, Elem, ⊎_elim, Elem-sort_by,
}
use incrededup.Match.{MatchRecord, Float, DupeMatch}
use incrededup.Table.{Table}
use incrededup.UnionFind.{Uuid, for_nodes, nodes}
use incrededup.UnionFind.Components.{
  Conn-start, Conn_trans, Conn-Endpoint, Endpoint-bounded, here, Canonical, Endpoint, Keyed,
  IsBounded,
}
use incrededup.UnionFind.Nodes.{Covers, for_nodes-Listed, Listed, Listed_moved, Listed_canonical}
use incrededup.Dedupe.Transitivity.{assignment_le, Best, Resolved, assignment, resolve_node, sorted}
use incrededup.UnionFind.Pairs.{Joins-nil, parent_of-empty}
use incrededup.Dedupe.Transitivity.Nodes.{
  resolve_match_node-resolve_node, Distinct-run, run, HasRoot-iff, HasMoved-iff, run-assignments_in,
  run-assignments_out, run-parents, run-children,
}
use incrededup.Dedupe.Transitivity.Metrics.{AllBest, AllBest-empty, join_edges-AllBest}
use incrededup.Dedupe.Transitivity.Keys.{match_root_key-root_key, root_key-Keyed}
use incrededup.Dedupe.Transitivity.Edges.{ends, real, join_edges-Joins, join_matches-real}
use incrededup.Dedupe.Transitivity.{
  root_key, extend_ids, explicit_parents, join_edges, resolve_transitivity_with_preferred_roots,
  resolve_transitivity_streamed,
}

module _ (F : Float) (M : Table Uuid Uuid) (B : Table Uuid (Best F)) (sim pct : F.F64) where
  -- What a resolution says of the components of `es`: the duplicates with their canonical
  -- documents and the metrics in `best`, the parents (and those in `extra`), and the children.
  pub record IsResolution (best : B.T) (key : ℕ → ℕ) (es : List (ℕ × ℕ)) (extra : List ℕ)
      (r : Resolved F) : Type 0 where
    pub assigned_in :
        (a : DupeMatch F)
        → Elem a r.assignments
        → Canonical key es a.child_id a.parent_id
          × (a.parent_id ≢ a.child_id)
          × (a ≡ assignment F M B sim pct best a.child_id a.parent_id)
    pub assigned_out :
        (x p : ℕ)
        → Canonical key es x p
        → p ≢ x
        → Elem (assignment F M B sim pct best x p) r.assignments
    pub distinct : Distinct (λ (a : DupeMatch F). a.child_id) r.assignments
    pub parents :
        (p : ℕ) → Elem p r.parent_ids ↔ (Elem p extra ⊎ Endpoint es p × Canonical key es p p)
    pub children : (c : ℕ) → Elem c r.child_ids ↔ ((p : ℕ) × Canonical key es c p × (p ≢ c))

  abbrev pub start : List ℕ → Resolved F
  start extra = record { assignments = []; parent_ids = extra; child_ids = [] }

  Canonical-top :
      {key : ℕ → ℕ} {es : List (ℕ × ℕ)} {x p : ℕ} → Canonical key es x p → Canonical key es p p
  Canonical-top {p} h = record {
    connected = here p refl;
    lowest = λ y c. h.lowest y (Conn_trans h.connected c);
  }

  module _ {key : ℕ → ℕ} {bound fuel : ℕ} (best : B.T) (es rs : List (ℕ × ℕ)) (extra : List ℕ)
      (l : Listed key es rs) (k : Keyed key bound fuel) (low : All (IsBounded bound) es) where
    parents_lem :
        (p : ℕ)
        → Elem p (run F M B sim pct best rs (start extra)).parent_ids
          ↔ (Elem p extra ⊎ Endpoint es p × Canonical key es p p)
    parents_lem p = (
      λ m. elim ((run-parents F M B sim pct best rs (start extra) p).0 m) [
        | inl old ↦ inl old
        | inr h ↦
            let (x, e) = (HasRoot-iff rs p).0 h in
            let c = l.canonical x p e in
            inr (Conn-Endpoint (l.endpoint x p e) c.connected, Canonical-top c)
      ],
      λ h. (run-parents F M B sim pct best rs (start extra) p).1 (elim h [
        | inl old ↦ inl old
        | inr (e, c) ↦ inr ((HasRoot-iff rs p).1 (p, Listed_canonical l k low e c))
      ]),
    )

    children_lem :
        (c : ℕ)
        → Elem c (run F M B sim pct best rs (start extra)).child_ids
          ↔ ((p : ℕ) × Canonical key es c p × (p ≢ c))
    children_lem c = (
      λ m. elim ((run-children F M B sim pct best rs (start extra) c).0 m) [
        | inl nothing ↦ absurd nothing
        | inr h ↦ let (p, e, ne) = (HasMoved-iff rs c).0 h in (p, l.canonical c p e, ne)
      ],
      λ h.
          (run-children F M B sim pct best rs (start extra) c).1
            (inr ((HasMoved-iff rs c).1 (h.0, Listed_moved l k low h.1 h.2, h.2))),
    )

    assigned_lem :
        (a : DupeMatch F)
        → Elem a (run F M B sim pct best rs (start extra)).assignments
        → Canonical key es a.child_id a.parent_id
          × (a.parent_id ≢ a.child_id)
          × (a ≡ assignment F M B sim pct best a.child_id a.parent_id)
    unfolding assignment
    assigned_lem a m = elim (run-assignments_in F M B sim pct best rs (start extra) a m) [
      | inl nothing ↦ absurd nothing
      | inr (x, r, e, ne, f) ↦
          subst
            (λ b.
              Canonical key es b.child_id b.parent_id
              × (b.parent_id ≢ b.child_id)
              × (b ≡ assignment F M B sim pct best b.child_id b.parent_id))
            (sym f) (l.canonical x r e, ne, refl)
    ]

    -- What the loop over the nodes makes of the listed roots.
    Listed-IsResolution :
        IsResolution best key es extra (sorted F (run F M B sim pct best rs (start extra)))
    Listed-IsResolution = record {
      assigned_in = λ a m. assigned_lem a ((Elem-sort_by _ a _).0 m);
      assigned_out = λ x p c ne. (Elem-sort_by _ _ _).1 (
          run-assignments_out F M B sim pct best rs (start extra) x p (Listed_moved l k low c ne)
            ne);
      distinct =
          Distinct-sort_by (λ (a : DupeMatch F). a.child_id) (assignment_le F) _
            (Distinct-run F M B sim pct best rs (start extra) tt l.distinct (λ a m e k. absurd m));
      parents = parents_lem;
      children = children_lem;
    }

  -- Nothing is joined at the start.
  Covers-empty : Covers M [] M.empty
  Covers-empty x = (λ n. absurd (n (M.get-empty x)), λ e. absurd e)

  -- The two loops, over the edges and over the nodes.
  pub core :
      (fuel : ℕ) (edges : List (MatchRecord F)) (preferred new_docs extra : List Uuid)
      → 3 * 2 ^ 128 ≤ fuel
      → All (IsBounded (2 ^ 128)) (ends F edges)
      → (uf : M.T) × (best : B.T) × (r : Resolved F) × (join_edges F M B fuel
            (root_key preferred new_docs)
            edges
            (M.empty, B.empty)
          ≡ some (uf, best))
        × (for_nodes M fuel (resolve_node F M B sim pct best) uf (nodes M uf) (start extra)
            ≡ some r)
        × AllBest F M B edges best
        × IsResolution best (root_key preferred new_docs) (ends F edges) extra (sorted F r)
  core fuel edges preferred new_docs extra le low =
      let key = root_key preferred new_docs in
      let k = root_key-Keyed preferred new_docs fuel le in
      let (uf, best, run₁, j, covers) =
        join_edges-Joins F M B key (2 ^ 128) fuel [] edges M.empty B.empty k tt low
          (Joins-nil M key M.empty (parent_of-empty M)) Covers-empty in
      let (rs, l, run₂) =
        for_nodes-Listed M key fuel (resolve_node F M B sim pct best) (ends F edges) uf
          (start extra) j covers (λ x e. k.fueled x (Endpoint-bounded (ends F edges) x low e)) in
      (
        uf,
        best,
        run F M B sim pct best rs (start extra),
        run₁,
        run₂,
        join_edges-AllBest F M B fuel key [] edges M.empty uf B.empty best (AllBest-empty F M B)
            run₁,
        Listed-IsResolution best (ends F edges) rs extra l k low,
      )

  -- With fuel above every root key, the streamed resolution of edges between ids of 128 bits
  -- returns. Its assignments give each document that is not the canonical one of its component,
  -- and no other, that canonical document, the one of lowest root key, with the metrics kept for
  -- it, which for each document are those of a best edge at it; no document is assigned twice; its
  -- parents are the canonical documents of the components, and its children are the documents with
  -- an assignment.
  pub resolve_transitivity_streamed-IsResolution :
      (fuel : ℕ) (edges : List (MatchRecord F)) (preferred new_docs : List Uuid)
      → 3 * 2 ^ 128 ≤ fuel
      → All (IsBounded (2 ^ 128)) (ends F edges)
      → (r : Resolved F) × (best : B.T) × (resolve_transitivity_streamed F M B sim pct fuel edges
            preferred new_docs
          ≡ some r)
        × AllBest F M B edges best
        × IsResolution best (root_key preferred new_docs) (ends F edges) [] r
  unfolding resolve_transitivity_streamed
  resolve_transitivity_streamed-IsResolution fuel edges preferred new_docs le low =
      let (uf, best, r, run₁, run₂, kept, h) = core fuel edges preferred new_docs [] le low in
      (sorted F r, best, rw (run₁, run₂), kept, h)

  nothing-IsResolution : (best : B.T) (key : ℕ → ℕ) → IsResolution best key [] [] (start [])
  nothing-IsResolution best key = record {
    assigned_in = λ a m. absurd m;
    assigned_out = λ x p c ne. absurd (alone c ne);
    distinct = tt;
    parents = λ p. (λ m. absurd m, λ h. ⊎_elim absurd (λ k. absurd k.0) h);
    children = λ c. (λ m. absurd m, λ h. absurd (alone h.1 h.2));
  }
    where
      alone : {x p : ℕ} → Canonical key [] x p → p ≢ x → ⊥
      alone c ne = ⊎_elim (λ e. ne (sym e)) (λ h. h) (Conn-start c.connected)

  -- With fuel above every root key, `resolve_transitivity_with_preferred_roots` on records between
  -- ids of 128 bits returns. It resolves the components of the records that are no self-parent
  -- records, with the documents of those records among the preferred ones and among the parents:
  -- the assignments give each document that is not the canonical one of its component, and no
  -- other, that canonical document, once, with the metrics of a best one of those records at each
  -- document that has some, and the children are the documents with an assignment.
  pub resolve_transitivity_with_preferred_roots-IsResolution :
      (fuel : ℕ) (ms : List (MatchRecord F)) (preferred new_docs : List Uuid)
      → 3 * 2 ^ 128 ≤ fuel
      → All (IsBounded (2 ^ 128)) (ends F (real F ms))
      → (r : Resolved F) × (best : B.T) × (resolve_transitivity_with_preferred_roots F M B sim pct
            fuel ms preferred new_docs
          ≡ some r)
        × AllBest F M B (real F ms) best
        × IsResolution best
            (root_key (extend_ids preferred (explicit_parents F ms [])) new_docs)
            (ends F (real F ms))
            (explicit_parents F ms [])
            r
  unfolding resolve_transitivity_with_preferred_roots
  resolve_transitivity_with_preferred_roots-IsResolution fuel [] preferred new_docs le low = (
    start [],
    B.empty,
    refl,
    AllBest-empty F M B,
    subst
        (λ ids.
          IsResolution B.empty (root_key (extend_ids preferred (explicit_parents F [] [])) new_docs)
            [] ids (start []))
        none_explicit
        (nothing-IsResolution B.empty
          (root_key (extend_ids preferred (explicit_parents F [] [])) new_docs)),
  )
    where
      none_explicit : [] ≡ explicit_parents F [] []
      none_explicit = unfold explicit_parents in refl
  resolve_transitivity_with_preferred_roots-IsResolution fuel (m ∷ ms) preferred new_docs le low =
      let explicit = explicit_parents F (m ∷ ms) [] in
      let prefs = extend_ids preferred explicit in
      let (uf, best, r, run₁, run₂, kept, h) =
        core fuel (real F (m ∷ ms)) prefs new_docs explicit le low in
      let skipped =
        join_matches-real F M B (root_key prefs new_docs) fuel (m ∷ ms) (M.empty, B.empty) in
      (
        sorted F r,
        best,
        rw (match_root_key-root_key, skipped ∙ run₁, resolve_match_node-resolve_node F M B sim pct)
            (rw run₂ refl),
        kept,
        h,
      )
