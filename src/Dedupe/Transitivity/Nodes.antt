-- ===== src/Dedupe/Transitivity/Nodes.antt =====
-- The loop of src/dedupe/mod.rs over the nodes: what it makes of the nodes and their roots.
use incrededup.Base.{
  Distinct, Distinct-snoc, ℕ, ◌≡◌, ◌≢◌, ◌↔◌, ◌⊎◌, refl, sym, ap, ◌∙◌, inl, inr, List, [], ◌∷◌, Elem,
  Elem-append, Elem-include, arith, ==-cases, ⊎_elim,
}
use incrededup.Match.{Float, DupeMatch}
use incrededup.Table.{Table}
use incrededup.UnionFind.{Uuid}
use incrededup.UnionFind.Nodes.{fold_roots}
use incrededup.Dedupe.Transitivity.{
  match_assignment, resolve_match_node, Best, Resolved, assignment, resolve_node,
}

-- `Moved rs P` is a listed node with another root at which `P` holds.
abbrev pub Moved : List (ℕ × ℕ) → (ℕ → ℕ → Type 0) → Type 0
Moved rs P = (x : ℕ) × (r : ℕ) × Elem (x, r) rs × (r ≢ x) × P x r

-- `p` is the root of a listed node.
abbrev pub HasRoot : List (ℕ × ℕ) → ℕ → Type 0
HasRoot [] p = ⊥
HasRoot ((n, s) ∷ rs) p = (p ≡ s) ⊎ HasRoot rs p

-- `c` is listed with another root.
abbrev pub HasMoved : List (ℕ × ℕ) → ℕ → Type 0
HasMoved [] c = ⊥
HasMoved ((n, s) ∷ rs) c = (c ≡ n) × (s ≢ n) ⊎ HasMoved rs c

pub HasRoot-iff : (rs : List (ℕ × ℕ)) (p : ℕ) → HasRoot rs p ↔ ((x : ℕ) × Elem (x, p) rs)
HasRoot-iff [] p = (λ h. absurd h, λ m. absurd m.1)
HasRoot-iff ((n, s) ∷ rs) p = (
  λ h. elim h [
    | inl e ↦ (n, inl (ap (λ (t : ℕ). (n, t)) e))
    | inr k ↦ let (x, m) = (HasRoot-iff rs p).0 k in (x, inr m)
  ],
  λ h. elim h.1 [
    | inl e ↦ inl (ap (λ (t : ℕ × ℕ). t.1) e)
    | inr m ↦ inr ((HasRoot-iff rs p).1 (h.0, m))
  ],
)

pub HasMoved-iff :
    (rs : List (ℕ × ℕ)) (c : ℕ) → HasMoved rs c ↔ ((r : ℕ) × Elem (c, r) rs × (r ≢ c))
HasMoved-iff [] c = (λ h. absurd h, λ m. absurd m.1)
HasMoved-iff ((n, s) ∷ rs) c = (
  λ h. elim h [
    | inl (e, ne) ↦ (s, inl (ap (λ (t : ℕ). (t, s)) e), λ f. ne (f ∙ e))
    | inr k ↦ let (r, m, ne) = (HasMoved-iff rs c).0 k in (r, inr m, ne)
  ],
  λ h. elim h.1 [
    | inl e ↦ inl (
      ap (λ (t : ℕ × ℕ). t.0) e,
      λ f. h.2 (ap (λ (t : ℕ × ℕ). t.1) e ∙ f ∙ sym (ap (λ (t : ℕ × ℕ). t.0) e)),
    )
    | inr m ↦ inr ((HasMoved-iff rs c).1 (h.0, m, h.2))
  ],
)

module _ (F : Float) (M : Table Uuid Uuid) (B : Table Uuid (Best F)) (sim pct : F.F64)
    (best : B.T) where
  abbrev pub run : List (ℕ × ℕ) → Resolved F → Resolved F
  run rs acc = fold_roots (resolve_node F M B sim pct best) rs acc

  pub run-assignments_in :
      (rs : List (ℕ × ℕ)) (acc : Resolved F) (a : DupeMatch F)
      → Elem a (run rs acc).assignments
      → Elem a acc.assignments ⊎ Moved rs (λ x r. a ≡ assignment F M B sim pct best x r)
  unfolding resolve_node
  run-assignments_in [] acc a m = inl m
  run-assignments_in ((n, s) ∷ rs) acc a m =
      elim (run-assignments_in rs (resolve_node F M B sim pct best n s acc) a m) [
        | inr (x, r, l, ne, e) ↦ inr (x, r, inr l, ne, e)
        | inl k ↦ elim (==-cases s n) [
          | inl (t, _) ↦ inl (rw (t, resolve_node) at k)
          | inr (t, ne) ↦ elim ((Elem-append a acc.assignments _).0 (rw (t, resolve_node) at k)) [
            | inl old ↦ inl old
            | inr (inl e) ↦ inr (n, s, inl refl, ne, e)
            | inr (inr nothing) ↦ absurd nothing
          ]
        ]
      ]

  -- Nodes that are listed once are assigned once.
  pub Distinct-run :
      (rs : List (ℕ × ℕ)) (acc : Resolved F)
      → Distinct (λ (a : DupeMatch F). a.child_id) acc.assignments
      → Distinct (λ (e : ℕ × ℕ). e.0) rs
      → ((a : DupeMatch F) → Elem a acc.assignments → (e : ℕ × ℕ) → Elem e rs → a.child_id ≢ e.0)
      → Distinct (λ (a : DupeMatch F). a.child_id) (run rs acc).assignments
  unfolding resolve_node assignment
  Distinct-run [] acc h d apart = h
  Distinct-run ((n, s) ∷ rs) acc h d apart = elim (==-cases s n) [
    | inl (t, _) ↦
        Distinct-run rs (resolve_node F M B sim pct best n s acc) (rw (t, resolve_node) h) d.1
          (rw (t, resolve_node) (λ a m e k. apart a m e (inr k)))
    | inr (t, ne) ↦
        Distinct-run rs (resolve_node F M B sim pct best n s acc)
          (rw (t, resolve_node)
            (Distinct-snoc (λ (a : DupeMatch F). a.child_id) acc.assignments
              (assignment F M B sim pct best n s) h (λ a m e. apart a m (n, s) (inl refl) (sym e))))
          d.1
          (rw (t, resolve_node)
            (λ a m e k. elim ((Elem-append a acc.assignments _).0 m) [
              | inl old ↦ apart a old e (inr k)
              | inr (inl same) ↦ λ p. d.0 e k (ap (λ (b : DupeMatch F). b.child_id) (sym same) ∙ p)
              | inr (inr nothing) ↦ absurd nothing
            ]))
  ]

  run-assignments_kept :
      (rs : List (ℕ × ℕ)) (acc : Resolved F) (a : DupeMatch F)
      → Elem a acc.assignments
      → Elem a (run rs acc).assignments
  unfolding resolve_node
  run-assignments_kept [] acc a m = m
  run-assignments_kept ((n, s) ∷ rs) acc a m =
      run-assignments_kept rs (resolve_node F M B sim pct best n s acc) a (elim (==-cases s n) [
        | inl (t, _) ↦ rw (t, resolve_node) m
        | inr (t, _) ↦ rw (t, resolve_node) ((Elem-append a acc.assignments _).1 (inl m))
      ])

  pub run-assignments_out :
      (rs : List (ℕ × ℕ)) (acc : Resolved F) (x r : ℕ)
      → Elem (x, r) rs
      → r ≢ x
      → Elem (assignment F M B sim pct best x r) (run rs acc).assignments
  unfolding resolve_node
  run-assignments_out [] acc x r m ne = absurd m
  run-assignments_out ((n, s) ∷ rs) acc x r (inr m) ne =
      run-assignments_out rs (resolve_node F M B sim pct best n s acc) x r m ne
  run-assignments_out ((n, s) ∷ rs) acc x r (inl e) ne =
      let s≢n : s ≢ n = λ f. ne (ap (λ (t : ℕ × ℕ). t.1) e ∙ f ∙ sym (ap (λ (t : ℕ × ℕ). t.0) e)) in
      run-assignments_kept rs (resolve_node F M B sim pct best n s acc) _ (elim (==-cases s n) [
        | inl (_, f) ↦ absurd (s≢n f)
        | inr (t, _) ↦
            rw (t, resolve_node)
              ((Elem-append _ acc.assignments _).1
                (inr (inl (ap (λ (k : ℕ × ℕ). assignment F M B sim pct best k.0 k.1) e))))
      ])

  pub run-parents :
      (rs : List (ℕ × ℕ)) (acc : Resolved F) (p : ℕ)
      → Elem p (run rs acc).parent_ids ↔ (Elem p acc.parent_ids ⊎ HasRoot rs p)
  unfolding resolve_node
  run-parents [] acc p = (inl, ⊎_elim (λ m. m) absurd)
  run-parents ((n, s) ∷ rs) acc p = ground (
    arith,
    run-parents rs (resolve_node F M B sim pct best n s acc) p,
    Elem-include n p acc.parent_ids,
    Elem-include s p acc.parent_ids,
  )

  pub run-children :
      (rs : List (ℕ × ℕ)) (acc : Resolved F) (c : ℕ)
      → Elem c (run rs acc).child_ids ↔ (Elem c acc.child_ids ⊎ HasMoved rs c)
  unfolding resolve_node
  run-children [] acc c = (inl, ⊎_elim (λ m. m) absurd)
  run-children ((n, s) ∷ rs) acc c = ground (
    arith,
    run-children rs (resolve_node F M B sim pct best n s acc) c,
    Elem-include n c acc.child_ids,
  )

module _ (F : Float) (M : Table Uuid Uuid) (B : Table Uuid (Best F)) (sim pct : F.F64) where
  -- The two copies of the body resolve a node alike.
  pub resolve_match_node-resolve_node :
      resolve_match_node F M B sim pct ≡ resolve_node F M B sim pct
  unfolding resolve_match_node resolve_node match_assignment assignment
  resolve_match_node-resolve_node = refl
