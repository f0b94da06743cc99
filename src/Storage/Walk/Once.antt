-- ===== src/Storage/Walk/Once.antt =====
-- The walk over the adjacency index of src/storage/mod.rs emits no edge twice: a node is on the stack
-- once, and an edge is emitted when its lower end is popped.
use incrededup.Base.{
  append_assoc, Distinct-filter, Distinct-join, append_nil, filter, Elem-filter, min, ◌≡◌, inl, inr,
  refl, sym, ap, ◌∙◌, subst, false, List, [], ◌∷◌, ◌++◌, ◌==◌, Bool-cases, arith, Elem, Elem-append,
  contains, contains_iff, include, Distinct,
}
use incrededup.Match.{Float, MatchRecord}
use incrededup.UnionFind.{Uuid}
use incrededup.Storage.Matches.Edges.{Edges}
use incrededup.Storage.Matches.Read.{IsUnrepeated}
use incrededup.Storage.Scan.{to_set}
use incrededup.Storage.Walk.{Walk}
use incrededup.Storage.Walk.Rows.{other_end, emitted, pushed, after_row, after_rows}

-- What a test does not find is not there.
absent : (x : Uuid) (xs : List Uuid) → contains xs x ≡ false → (y : Uuid) → Elem y xs → x ≡ y → ⊥
absent x xs f y k e = let t = (contains_iff xs x).1 (subst (λ z. Elem z xs) (sym e) k) in cc (t, f)

Distinct-include :
    (x : Uuid) (set : List Uuid) → Distinct (λ y. y) set → Distinct (λ y. y) (include x set)
unfolding include
Distinct-include x set h = elim (Bool-cases (contains set x)) [
  | inl t ↦ rw t h
  | inr f ↦ rw f (absent x set f, h)
]

pub Distinct-to_set :
    (ids set : List Uuid) → Distinct (λ y. y) set → Distinct (λ y. y) (to_set ids set)
unfolding to_set
Distinct-to_set [] set h = h
Distinct-to_set (id ∷ ids) set h = Distinct-to_set ids (include id set) (Distinct-include id set h)

module _ (F : Float) (m : Edges F) where
  abbrev State : Type 0
  State = Walk (List (MatchRecord F))

  -- The lower end of an edge.
  abbrev low_end : MatchRecord F → Uuid
  low_end r = min r.child_id r.parent_id

  -- What a push does to a stack of distinct visited nodes.
  record Pushes (w w' : State) : Type 0 where
    kept : (x : Uuid) → Elem x w.visited_nodes → Elem x w'.visited_nodes
    off : (x : Uuid) → Elem x w.visited_nodes → Elem x w'.stack → Elem x w.stack
    inside :
        ((x : Uuid) → Elem x w.stack → Elem x w.visited_nodes)
        → (x : Uuid) → Elem x w'.stack
        → Elem x w'.visited_nodes
    once :
        ((x : Uuid) → Elem x w.stack → Elem x w.visited_nodes)
        → Distinct (λ x. x) w.stack
        → Distinct (λ x. x) w'.stack

  Pushes-refl : (w : State) → Pushes w w
  Pushes-refl w = record { kept = λ x k. k; off = λ x v k. k; inside = λ h. h; once = λ h d. d }

  Pushes-trans : (u v w : State) → Pushes u v → Pushes v w → Pushes u w
  Pushes-trans u v w a b = record {
    kept = λ x k. b.kept x (a.kept x k);
    off = λ x k s. a.off x k (b.off x (a.kept x k) s);
    inside = λ h. b.inside (a.inside h);
    once = λ h d. b.once (a.inside h) (a.once h d);
  }

  pushed-Pushes : (x : Uuid) (w : State) → Pushes w (pushed F m x w)
  pushed-Pushes x w = elim (Bool-cases (contains w.visited_nodes x)) [
    | inl t ↦ rw t (Pushes-refl w)
    | inr f ↦ rw f (record {
      kept = λ y k. inr k;
      off = λ y k s. elim s [
        | inl e ↦ absurd (absent x w.visited_nodes f y k (sym e))
        | inr old ↦ old
      ];
      inside = λ h y s. elim s [ inl e ↦ inl e | inr old ↦ inr (h y old) ];
      once = λ h d. (λ y k e. absent x w.visited_nodes f y (h y k) e, d);
    })
  ]

  emitted-Pushes : (node : Uuid) (r : MatchRecord F) (w : State) → Pushes w (emitted F m node r w)
  emitted-Pushes node r w = elim (Bool-cases (node == low_end r)) [
    | inl t ↦ rw t (record { kept = λ x k. k; off = λ x v k. k; inside = λ h. h; once = λ h d. d })
    | inr f ↦ rw f (Pushes-refl w)
  ]

  after_rows-Pushes :
      (node : Uuid) (rs : List (MatchRecord F)) (w : State) → Pushes w (after_rows F m node rs w)
  unfolding after_rows
  after_rows-Pushes node [] w = Pushes-refl w
  after_rows-Pushes node (r ∷ rs) w =
      let v = emitted F m node r w in
      let w₁ = after_row F m node r w in
      Pushes-trans w w₁ (after_rows F m node rs w₁)
        (Pushes-trans w v w₁ (emitted-Pushes node r w) (pushed-Pushes (other_end F m node r) v))
        (after_rows-Pushes node rs w₁)

  -- The edges that the rows of a node emit.
  abbrev emitting : Uuid → List (MatchRecord F) → List (MatchRecord F)
  emitting node rs = filter (λ r. node == low_end r) rs

  after_row-acc :
      (node : Uuid) (r : MatchRecord F) (w : State)
      → (after_row F m node r w).acc ≡ w.acc ++ emitting node (r ∷ [])
  unfolding filter
  after_row-acc node r w = elim (Bool-cases (node == low_end r)) [
    | inl t ↦ elim (Bool-cases (contains w.visited_nodes (other_end F m node r))) [
      | inl v ↦ rw t (rw v refl)
      | inr v ↦ rw t (rw v refl)
    ]
    | inr f ↦ elim (Bool-cases (contains w.visited_nodes (other_end F m node r))) [
      | inl v ↦ rw f (rw v (sym (append_nil w.acc)))
      | inr v ↦ rw f (rw v (sym (append_nil w.acc)))
    ]
  ]

  emitting-cons :
      (node : Uuid) (r : MatchRecord F) (rs : List (MatchRecord F))
      → emitting node (r ∷ []) ++ emitting node rs ≡ emitting node (r ∷ rs)
  unfolding filter
  emitting-cons node r rs = elim (Bool-cases (node == low_end r)) [
    | inl t ↦ rw t refl
    | inr f ↦ rw f refl
  ]

  after_rows-acc :
      (node : Uuid) (rs : List (MatchRecord F)) (w : State)
      → (after_rows F m node rs w).acc ≡ w.acc ++ emitting node rs
  unfolding after_rows filter
  after_rows-acc node [] w = sym (append_nil w.acc)
  after_rows-acc node (r ∷ rs) w =
      after_rows-acc node rs (after_row F m node r w)
      ∙ ap (λ l. l ++ emitting node rs) (after_row-acc node r w)
      ∙ append_assoc w.acc (emitting node (r ∷ [])) (emitting node rs)
      ∙ ap (λ l. w.acc ++ l) (emitting-cons node r rs)

  -- What the walk keeps: an emitted edge has a lower end that is visited and popped.
  pub record IsOnce (w : State) : Type 0 where
    pub stack_once : Distinct (λ x. x) w.stack
    pub inside : (x : Uuid) → Elem x w.stack → Elem x w.visited_nodes
    pub once : IsUnrepeated F w.acc
    pub popped :
        (r : MatchRecord F)
        → Elem r w.acc
        → Elem (low_end r) w.visited_nodes × (Elem (low_end r) w.stack → ⊥)

  pub step-IsOnce :
      (node : Uuid) (stack : List Uuid) (rs : List (MatchRecord F)) (w : State)
      → w.stack ≡ node ∷ stack
      → IsUnrepeated F rs
      → IsOnce w
      → IsOnce (after_rows F m node rs (record w { stack = stack }))
  step-IsOnce node stack rs w top d h =
      let start : State = record w { stack = stack } in
      let p = after_rows-Pushes node rs start in
      let acc = after_rows-acc node rs start in
      let tail : Distinct (λ x. x) (node ∷ stack) = subst (Distinct (λ x. x)) top h.stack_once in
      let at : (x : Uuid) → Elem x stack → Elem x w.visited_nodes =
        λ x k. h.inside x (subst (Elem x) (sym top) (inr k)) in
      record {
        stack_once = p.once at tail.1;
        inside = p.inside at;
        once = subst (IsUnrepeated F) (sym acc) (
            Distinct-join (λ (r : MatchRecord F). r) w.acc (emitting node rs) h.once
              (Distinct-filter (λ (r : MatchRecord F). r) (λ r. node == low_end r) rs d)
              (λ r y k l e. not_yet r k (emitting_end y l ∙ ap low_end (sym e))));
        popped = λ r k. elim ((Elem-append r w.acc (emitting node rs)).0 (subst (Elem r) acc k)) [
          | inl old ↦
              let (v, o) = h.popped r old in
              (
                p.kept (low_end r) v,
                λ s. o (subst (Elem (low_end r)) (sym top) (inr (p.off (low_end r) v s))),
              )
          | inr l ↦
              let e = emitting_end r l in
              let v : Elem node w.visited_nodes =
                h.inside node (subst (Elem node) (sym top) (inl refl)) in
              subst
                (λ x.
                  Elem x (after_rows F m node rs start).visited_nodes
                  × (Elem x (after_rows F m node rs start).stack → ⊥))
                e (p.kept node v, λ s. tail.0 node (p.off node v s) refl)
        ];
      }
    where
      emitting_end : (y : MatchRecord F) → Elem y (emitting node rs) → node ≡ low_end y
      emitting_end y l = let t = ((Elem-filter (λ r. node == low_end r) y rs).0 l).1 in ground arith

      not_yet : (r : MatchRecord F) → Elem r w.acc → node ≡ low_end r → ⊥
      not_yet r k e = (h.popped r k).1 (subst (Elem (low_end r)) (sym top) (inl (sym e)))
