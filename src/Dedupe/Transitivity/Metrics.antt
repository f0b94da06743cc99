-- ===== src/Dedupe/Transitivity/Metrics.antt =====
-- The metrics that the resolution of src/dedupe/mod.rs keeps for a document: those of an edge at
-- the document that no other edge there beats.
use mathlib.Core.List.{append-nil, append_assoc}
use incrededup.Table.Keys.{get-insert}
use incrededup.Base.{
  ⊎_elim, ◌∙◌, ap, subst, Option-cases, Elem-append, Bool-cases, ℕ, ◌≡◌, ◌⊎◌, refl, sym, inl, inr,
  true, false, Option, some, none, List, [], ◌∷◌, ◌++◌, Elem, arith, if◌then◌else◌, ◌==◌, ==-cases,
}
use incrededup.Match.{Float, MatchRecord, DupeMatch}
use incrededup.Table.{Table}
use incrededup.UnionFind.Components.{Endpoint}
use incrededup.Dedupe.Transitivity.Edges.{ends}
use incrededup.UnionFind.{Uuid, ◌>>=◌, make_set, union_by_key}
use incrededup.Dedupe.Transitivity.{
  assignment, Best, best_of, beats, update_entry, join_edge, join_edges,
}

module _ (F : Float) where
  abbrev pub Incident : MatchRecord F → Uuid → Type 0
  Incident m x = (x ≡ m.child_id) ⊎ (x ≡ m.parent_id)

  beats_irrefl : (m : MatchRecord F) → beats F m (best_of F m) ≡ false
  unfolding beats
  beats_irrefl m = ground (arith, F.gt_irrefl m.jaccard_similarity)

  -- An edge that beats one that beats a third beats the third.
  beats_trans :
      (m n : MatchRecord F) (e : Best F)
      → beats F m (best_of F n) ≡ true
      → beats F n e ≡ true
      → beats F m e ≡ true
  unfolding beats
  beats_trans m n e h k =
      let a = m.jaccard_similarity in
      let b = n.jaccard_similarity in
      ground (arith, F.gt_trans a b e.2, F.gt-eq a b e.2, F.eq-gt a b e.2, F.eq_trans a b e.2)

  -- `e` is the best edge at `x` among `ms`.
  abbrev pub IsBest : List (MatchRecord F) → Uuid → Option (Best F) → Type 0
  IsBest ms x none = (m : MatchRecord F) → Elem m ms → Incident m x → ⊥
  IsBest ms x (some e) =
      ((m : MatchRecord F) × Elem m ms × Incident m x × (e ≡ best_of F m))
      × ((m : MatchRecord F) → Elem m ms → Incident m x → beats F m e ≡ false)

  -- The entry of a document after one of its edges has been seen.
  abbrev upd : MatchRecord F → Option (Best F) → Best F
  upd m none = best_of F m
  upd m (some e) = if beats F m e then best_of F m else e

  upd_again : (m : MatchRecord F) (g : Option (Best F)) → upd m (some (upd m g)) ≡ upd m g
  upd_again m none = rw (beats_irrefl m)
  upd_again m (some e) = elim (Bool-cases (beats F m e)) [
    | inl t ↦ rw t (rw (beats_irrefl m))
    | inr t ↦ rw t (rw t)
  ]

  not_beaten :
      (m n : MatchRecord F) (e : Best F)
      → beats F n e ≡ true
      → beats F m e ≡ false
      → beats F m (best_of F n) ≡ false
  not_beaten m n e h k = ground (arith, beats_trans m n e)

  IsBest-other :
      (ms : List (MatchRecord F)) (m : MatchRecord F) (x : Uuid) (g : Option (Best F))
      → ¬ Incident m x
      → IsBest ms x g
      → IsBest (ms ++ m ∷ []) x g
  IsBest-other ms m x none n h = λ m' l i. elim ((Elem-append m' ms (m ∷ [])).0 l) [
    | inl old ↦ h m' old i
    | inr (inl e) ↦ n (subst (λ t. Incident t x) e i)
    | inr (inr nothing) ↦ nothing
  ]
  IsBest-other ms m x (some e) n h = (
    (h.0.0, (Elem-append h.0.0 ms (m ∷ [])).1 (inl h.0.1), h.0.2, h.0.3),
    λ m' l i. elim ((Elem-append m' ms (m ∷ [])).0 l) [
      | inl old ↦ h.1 m' old i
      | inr (inl e) ↦ absurd (n (subst (λ t. Incident t x) e i))
      | inr (inr nothing) ↦ absurd nothing
    ],
  )

  -- The newest edge takes the place of the entry.
  IsBest-newest :
      (ms : List (MatchRecord F)) (m : MatchRecord F) (x : Uuid)
      → Incident m x
      → ((m' : MatchRecord F) → Elem m' ms → Incident m' x → beats F m' (best_of F m) ≡ false)
      → IsBest (ms ++ m ∷ []) x (some (best_of F m))
  IsBest-newest ms m x i h = (
    (m, (Elem-append m ms (m ∷ [])).1 (inr (inl refl)), i, refl),
    λ m' l j. elim ((Elem-append m' ms (m ∷ [])).0 l) [
      | inl old ↦ h m' old j
      | inr (inl e) ↦ subst (λ t. beats F t (best_of F m) ≡ false) (sym e) (beats_irrefl m)
      | inr (inr nothing) ↦ absurd nothing
    ],
  )

  IsBest-upd :
      (ms : List (MatchRecord F)) (m : MatchRecord F) (x : Uuid) (g : Option (Best F))
      → Incident m x
      → IsBest ms x g
      → IsBest (ms ++ m ∷ []) x (some (upd m g))
  IsBest-upd ms m x none i h = IsBest-newest ms m x i (λ m' l j. absurd (h m' l j))
  IsBest-upd ms m x (some e) i h = elim (Bool-cases (beats F m e)) [
    | inl t ↦ rw t (IsBest-newest ms m x i (λ m' l j. not_beaten m' m e t (h.1 m' l j)))
    | inr t ↦ rw t (
      (h.0.0, (Elem-append h.0.0 ms (m ∷ [])).1 (inl h.0.1), h.0.2, h.0.3),
      λ m' l j. elim ((Elem-append m' ms (m ∷ [])).0 l) [
        | inl old ↦ h.1 m' old j
        | inr (inl e') ↦ subst (λ t'. beats F t' e ≡ false) (sym e') t
        | inr (inr nothing) ↦ absurd nothing
      ],
    )
  ]

module _ (F : Float) (M : Table Uuid Uuid) (B : Table Uuid (Best F)) where
  get-update_entry :
      (best : B.T) (d : Uuid) (m : MatchRecord F) (x : Uuid)
      → B.get (update_entry F M B best d m) x
        ≡ (if x == d then some (upd F m (B.get best d)) else B.get best x)
  unfolding update_entry
  get-update_entry best d m x = elim (Option-cases (B.get best d)) [
    | inl e ↦ rw (e, update_entry) (get-insert B best d x (best_of F m))
    | inr (g, e) ↦ rw (e, update_entry) (get-insert B best d x (upd F m (some g)))
  ]

  -- The entries of all documents are the best edges among those seen.
  abbrev pub AllBest : List (MatchRecord F) → B.T → Type 0
  AllBest ms best = (x : Uuid) → IsBest F ms x (B.get best x)

  update_entry-AllBest :
      (ms : List (MatchRecord F)) (m : MatchRecord F) (best : B.T)
      → AllBest ms best
      → AllBest
          (ms ++ m ∷ [])
          (update_entry F M B (update_entry F M B best m.child_id m) m.parent_id m)
  update_entry-AllBest ms m best h x =
      let c = m.child_id in
      let p = m.parent_id in
      let g₁ = get-update_entry best c m in
      let g₂ = get-update_entry (update_entry F M B best c m) p m x in
      let best₂ = update_entry F M B (update_entry F M B best c m) p m in
      let moved = λ (o : Option (Best F)) (e : B.get best₂ x ≡ o) (k : IsBest F (ms ++ m ∷ []) x o).
        subst (IsBest F (ms ++ m ∷ []) x) (sym e) k in
      elim (==-cases x p) [
        | inl (t, e) ↦ elim (==-cases p c) [
          | inl (t', e') ↦
              moved (some (upd F m (B.get best c)))
                (rw (g₂, t, g₁ p, t') (ap some (upd_again F m (B.get best c))))
                (IsBest-upd F ms m x (B.get best c) (inr e)
                  (subst (λ z. IsBest F ms x (B.get best z)) (e ∙ e') (h x)))
          | inr (t', _) ↦ moved (some (upd F m (B.get best p))) (rw (g₂, t, g₁ p, t')) (
              IsBest-upd F ms m x (B.get best p) (inr e)
                (subst (λ z. IsBest F ms x (B.get best z)) e (h x)))
        ]
        | inr (t, n) ↦ elim (==-cases x c) [
          | inl (t', e') ↦ moved (some (upd F m (B.get best c))) (rw (g₂, t, g₁ x, t')) (
              IsBest-upd F ms m x (B.get best c) (inl e')
                (subst (λ z. IsBest F ms x (B.get best z)) e' (h x)))
          | inr (t', n') ↦
              moved (B.get best x) (rw (g₂, t, g₁ x, t'))
                (IsBest-other F ms m x (B.get best x) (⊎_elim n' n) (h x))
        ]
      ]

  -- What joining the edges leaves in the table of metrics.
  pub join_edges-AllBest :
      (fuel : ℕ) (key : ℕ → ℕ) (done ms : List (MatchRecord F)) (uf uf' : M.T) (best best' : B.T)
      → AllBest done best
      → join_edges F M B fuel key ms (uf, best) ≡ some (uf', best')
      → AllBest (done ++ ms) best'
  unfolding join_edges join_edge
  join_edges-AllBest fuel key done [] uf uf' best best' h ran =
      let e : best ≡ best' = cc in rw append-nil (subst (AllBest done) e h)
  join_edges-AllBest fuel key done (m ∷ ms) uf uf' best best' h ran =
      elim (Option-cases (
        union_by_key M fuel key (make_set M (make_set M uf m.child_id) m.parent_id) m.child_id
          m.parent_id)) [
            | inl e ↦ absurd (none_left (rw (e, join_edge, ◌>>=◌) at ran))
            | inr (uf₁, e) ↦
                let best₁ =
                  update_entry F M B (update_entry F M B best m.child_id m) m.parent_id m in
                let rest =
                  join_edges-AllBest fuel key (done ++ m ∷ []) ms uf₁ uf' best₁ best'
                    (update_entry-AllBest done m best h) (rw (e, join_edge, ◌>>=◌) at ran) in
                rw append_assoc at rest
          ]
    where
      none_left : ◌≡◌ {A = Option (M.T × B.T)} none (some (uf', best')) → ⊥
      none_left e = cc

  -- No table entry, no edge.
  pub AllBest-empty : AllBest [] B.empty
  AllBest-empty x = subst (IsBest F [] x) (sym (B.get-empty x)) (λ m l i. l)

  -- The metrics of a document that has an edge.
  pub record HasMetrics (ms : List (MatchRecord F)) (a : DupeMatch F) : Type 0 where
    pub edge : MatchRecord F
    pub member : Elem edge ms
    pub incident : Incident F edge a.child_id
    pub similarity : a.jaccard_similarity ≡ edge.jaccard_similarity
    pub difference : a.size_difference ≡ edge.size_difference
    pub difference_pct : a.size_difference_pct ≡ edge.size_difference_pct
    pub highest :
        (m : MatchRecord F)
        → Elem m ms
        → Incident F m a.child_id
        → F.gt m.jaccard_similarity a.jaccard_similarity ≡ false

  Endpoint-ends :
      (ms : List (MatchRecord F)) (x : Uuid)
      → Endpoint (ends F ms) x
      → (m : MatchRecord F) × Elem m ms × Incident F m x
  Endpoint-ends [] x h = absurd h
  Endpoint-ends (m ∷ ms) x (inl e) = (m, inl refl, inl e)
  Endpoint-ends (m ∷ ms) x (inr (inl e)) = (m, inl refl, inr e)
  Endpoint-ends (m ∷ ms) x (inr (inr h)) = let (n, l, i) = Endpoint-ends ms x h in (n, inr l, i)

  not-gt :
      (m : MatchRecord F) (e : Best F) → beats F m e ≡ false → F.gt m.jaccard_similarity e.2 ≡ false
  unfolding beats
  not-gt m e h = ground arith

  pub assignment-HasMetrics :
      (ms : List (MatchRecord F)) (best : B.T) (sim pct : F.F64) (x p : Uuid)
      → AllBest ms best
      → Endpoint (ends F ms) x
      → HasMetrics ms (assignment F M B sim pct best x p)
  unfolding assignment
  assignment-HasMetrics ms best sim pct x p all h = go (B.get best x) refl (all x)
    where
      go :
          (o : Option (Best F))
          → B.get best x ≡ o
          → IsBest F ms x o
          → HasMetrics ms (assignment F M B sim pct best x p)
      go none e k = let (m, l, i) = Endpoint-ends ms x h in absurd (k m l i)
      go (some b) e k =
          let (m, l, i, f) = k.0 in
          let chosen : b ≡ best_of F m = f in
          rw (e, assignment)
            (record {
              edge = m;
              member = l;
              incident = i;
              similarity = ap (λ (t : Best F). t.2) chosen;
              difference = ap (λ (t : Best F). t.3) chosen;
              difference_pct = ap (λ (t : Best F). t.4) chosen;
              highest = λ m' l' i'. not-gt m' b (k.1 m' l' i');
            })
