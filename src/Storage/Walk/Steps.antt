-- ===== src/Storage/Walk/Steps.antt =====
-- One step of the walk over the adjacency index of src/storage/mod.rs: what the rows of a node do to
-- the visited nodes, the stack and the records.
use incrededup.Base.{
  ◌+◌, min, ◌≤◌, ◌≡◌, ◌↔◌, ◌⊎◌, inl, inr, refl, sym, ap, ◌∙◌, subst, true, false, List, [], ◌∷◌,
  ◌++◌, ==-cases, Bool-cases, arith, Elem, Elem-append, length, contains, contains_iff, ⊎_elim,
}
use incrededup.Match.{Float, MatchRecord}
use incrededup.UnionFind.{Uuid}
use incrededup.Storage.Matches.Edges.{Edges}
use incrededup.Storage.Scan.Passes.{missing, missing-new}
use incrededup.Storage.Walk.{Walk}
use incrededup.Storage.Walk.Rows.{other_end, emitted, pushed, after_row, after_rows}

module _ (F : Float) (m : Edges F) (node : Uuid) where
  abbrev State : Type 0
  State = Walk (List (MatchRecord F))

  -- What the rows of the records do.
  pub record Effect (rs : List (MatchRecord F)) (w w' : State) : Type 0 where
    pub visited : (x : Uuid) → Elem x w.visited_nodes → Elem x w'.visited_nodes
    pub stacked : (x : Uuid) → Elem x w.stack → Elem x w'.stack
    pub new :
        (x : Uuid)
        → Elem x w'.visited_nodes
        → Elem x w.visited_nodes
          ⊎ Elem x w'.stack × ((r : MatchRecord F) × Elem r rs × (x ≡ other_end F m node r))
    pub on_stack : (x : Uuid) → Elem x w'.stack → Elem x w.stack ⊎ Elem x w'.visited_nodes
    pub records :
        (r : MatchRecord F)
        → Elem r w'.acc ↔ (Elem r w.acc ⊎ Elem r rs × (node ≡ min r.child_id r.parent_id))
    pub ends : (r : MatchRecord F) → Elem r rs → Elem (other_end F m node r) w'.visited_nodes
    pub measure :
        (us : List Uuid)
        → ((r : MatchRecord F) → Elem r rs → Elem (other_end F m node r) us)
        → length w'.stack + missing us w'.visited_nodes
          ≤ length w.stack + missing us w.visited_nodes

  emitted_lem :
      (r x : MatchRecord F) (w : State)
      → ((emitted F m node r w).visited_nodes ≡ w.visited_nodes)
        × ((emitted F m node r w).stack ≡ w.stack)
        × (Elem x (emitted F m node r w).acc
            ↔ (Elem x w.acc ⊎ (x ≡ r) × (node ≡ min r.child_id r.parent_id)))
  emitted_lem r x w = elim (==-cases node (min r.child_id r.parent_id)) [
    | inl (t, e) ↦ rw t (refl, refl, both e)
    | inr (t, n) ↦ rw t (refl, refl, (inl, ⊎_elim (λ k. k) (λ k. absurd (n k.1))))
  ]
    where
      both :
          node ≡ min r.child_id r.parent_id
          → Elem x (w.acc ++ r ∷ [])
            ↔ (Elem x w.acc ⊎ (x ≡ r) × (node ≡ min r.child_id r.parent_id))
      both e = ground (arith, e, Elem-append x w.acc (r ∷ []))

  -- The effect of a push, by the test.
  pushed_lem :
      (x : Uuid) (w : State)
      → (contains w.visited_nodes x ≡ true) × (pushed F m x w ≡ w)
        ⊎ (contains w.visited_nodes x ≡ false)
          × (pushed F m x w ≡ record w { visited_nodes = x ∷ w.visited_nodes; stack = x ∷ w.stack })
  pushed_lem x w = elim (Bool-cases (contains w.visited_nodes x)) [
    | inl t ↦ inl (t, rw t refl)
    | inr f ↦ inr (f, rw f refl)
  ]

  push-Effect :
      (r : MatchRecord F) (w v : State)
      → v.visited_nodes ≡ w.visited_nodes
      → v.stack ≡ w.stack
      → ((x : MatchRecord F)
          → Elem x v.acc ↔ (Elem x w.acc ⊎ (x ≡ r) × (node ≡ min r.child_id r.parent_id)))
      → Effect (r ∷ []) w (pushed F m (other_end F m node r) v)
  push-Effect r w v ev es acc = elim (pushed_lem (other_end F m node r) v) [
    | inl (t, e) ↦ subst (Effect (r ∷ []) w) (sym e) (record {
      visited = λ x k. subst (Elem x) (sym ev) k;
      stacked = λ x k. subst (Elem x) (sym es) k;
      new = λ x k. inl (subst (Elem x) ev k);
      on_stack = λ x k. inl (subst (Elem x) es k);
      records = λ x. recorded x;
      ends = λ x k.
          subst (λ y. Elem (other_end F m node y) v.visited_nodes) (sym (only x k))
            ((contains_iff v.visited_nodes (other_end F m node r)).0 t);
      measure = λ us h. rw (ev, es) (omega arith);
    })
    | inr (f, e) ↦ subst (Effect (r ∷ []) w) (sym e) (record {
      visited = λ x k. inr (subst (Elem x) (sym ev) k);
      stacked = λ x k. inr (subst (Elem x) (sym es) k);
      new = λ x k. elim k [
        | inl same ↦ inr (inl same, (r, inl refl, same))
        | inr old ↦ inl (subst (Elem x) ev old)
      ];
      on_stack =
          λ x k. elim k [ inl same ↦ inr (inl same) | inr old ↦ inl (subst (Elem x) es old) ];
      records = λ x. recorded x;
      ends = λ x k. inl (ap (other_end F m node) (only x k));
      measure = λ us h.
          let fresh = missing-new us v.visited_nodes (other_end F m node r) (h r (inl refl)) f in
          let a = ap (missing us) ev in let b = ap length es in omega arith;
    })
  ]
    where
      only : (x : MatchRecord F) → Elem x (r ∷ []) → x ≡ r
      only x k = ⊎_elim (λ e. e) absurd k

      recorded :
          (x : MatchRecord F)
          → Elem x v.acc ↔ (Elem x w.acc ⊎ Elem x (r ∷ []) × (node ≡ min x.child_id x.parent_id))
      recorded x = (
        λ k. elim ((acc x).0 k) [
          | inl old ↦ inl old
          | inr (same, low) ↦
              inr
                (inl same, low ∙ ap (λ (y : MatchRecord F). min y.child_id y.parent_id) (sym same))
        ],
        λ k. (acc x).1 (elim k [
          | inl old ↦ inl old
          | inr (e, low) ↦
              inr
                (only x e, low ∙ ap (λ (y : MatchRecord F). min y.child_id y.parent_id) (only x e))
        ]),
      )

  after_row-Effect : (r : MatchRecord F) (w : State) → Effect (r ∷ []) w (after_row F m node r w)
  after_row-Effect r w =
      let (ev, es, acc) = emitted_lem r r w in
      push-Effect r w (emitted F m node r w) ev es (λ x. (emitted_lem r x w).2)

  nil-Effect : (w : State) → Effect [] w w
  nil-Effect w = record {
    visited = λ x k. k;
    stacked = λ x k. k;
    new = λ x k. inl k;
    on_stack = λ x k. inl k;
    records = λ r. (inl, ⊎_elim (λ k. k) (λ k. absurd k.0));
    ends = λ r k. absurd k;
    measure = λ us h. omega arith;
  }

  cons-Effect :
      (r : MatchRecord F) (rs : List (MatchRecord F)) (u v w : State)
      → Effect (r ∷ []) u v
      → Effect rs v w
      → Effect (r ∷ rs) u w
  cons-Effect r rs u v w a b = record {
    visited = λ x k. b.visited x (a.visited x k);
    stacked = λ x k. b.stacked x (a.stacked x k);
    new = λ x k. elim (b.new x k) [
      | inl mid ↦ elim (a.new x mid) [
        | inl old ↦ inl old
        | inr (s, (y, e, at)) ↦ inr (b.stacked x s, (y, ⊎_elim inl absurd e, at))
      ]
      | inr (s, (y, e, at)) ↦ inr (s, (y, inr e, at))
    ];
    on_stack = λ x k. elim (b.on_stack x k) [
      | inl mid ↦ ⊎_elim inl (λ v. inr (b.visited x v)) (a.on_stack x mid)
      | inr v ↦ inr v
    ];
    records = λ x. ground (arith, a.records x, b.records x);
    ends =
        λ x k. elim k [ inl same ↦ b.visited _ (a.ends x (inl same)) | inr later ↦ b.ends x later ];
    measure = λ us h.
        let first = a.measure us (λ x k. h x (⊎_elim inl absurd k)) in
        let rest = b.measure us (λ x k. h x (inr k)) in omega arith;
  }

  pub after_rows-Effect :
      (rs : List (MatchRecord F)) (w : State) → Effect rs w (after_rows F m node rs w)
  unfolding after_rows
  after_rows-Effect [] w = nil-Effect w
  after_rows-Effect (r ∷ rs) w =
      cons-Effect r rs w (after_row F m node r w) (after_rows F m node rs (after_row F m node r w))
        (after_row-Effect r w) (after_rows-Effect rs (after_row F m node r w))
