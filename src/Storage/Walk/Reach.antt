-- ===== src/Storage/Walk/Reach.antt =====
-- The invariant of the walk over the adjacency index of src/storage/mod.rs: a walk whose stack is
-- empty has visited what the seeds reach.
use incrededup.Base.{
  ◌*◌, min, ◌≡◌, ◌≢◌, ◌↔◌, ◌⊎◌, inl, inr, refl, sym, ap, ◌∙◌, subst, some, List, [], ◌∷◌, ==-cases,
  arith, Elem, length, ⊎_elim,
}
use incrededup.Match.{Float, MatchRecord}
use incrededup.UnionFind.{Uuid}
use incrededup.Storage.{Bytes, from_slice, part}
use incrededup.Storage.Matches.Edges.{Edges, Keyed, IsUuid}
use incrededup.Storage.Scan.Reach.{Linked, here, forth, back, Reached}
use incrededup.Storage.Walk.{Walk}
use incrededup.Storage.Walk.Rows.{other_end, At}
use incrededup.Storage.Walk.Steps.{Effect}

-- The ids of the edges in the keys.
abbrev pub ids_at : List (Bytes × Bytes) → List Uuid
ids_at [] = []
ids_at (e ∷ es) = from_slice (part 16 16 e.0) ∷ from_slice (part 32 16 e.0) ∷ ids_at es

pub length-ids_at : (es : List (Bytes × Bytes)) → length (ids_at es) ≡ 2 * length es
length-ids_at [] = omega arith
length-ids_at (e ∷ es) = omega (arith, length-ids_at es)

pub Elem-ids_at :
    (es : List (Bytes × Bytes)) (e : Bytes × Bytes)
    → Elem e es
    → Elem (from_slice (part 16 16 e.0)) (ids_at es)
      × Elem (from_slice (part 32 16 e.0)) (ids_at es)
Elem-ids_at [] e k = absurd k
Elem-ids_at (x ∷ es) e (inl same) = (
  inl (ap (λ (y : Bytes × Bytes). from_slice (part 16 16 y.0)) same),
  inr (inl (ap (λ (y : Bytes × Bytes). from_slice (part 32 16 y.0)) same)),
)
Elem-ids_at (x ∷ es) e (inr k) = let (a, b) = Elem-ids_at es e k in (inr (inr a), inr (inr b))

module _ (F : Float) (m : Edges F) (keyed : (c p : Uuid) → Keyed F c p (m c p)) where
  pub keyed_of :
      (c p : Uuid) (r : MatchRecord F)
      → m c p ≡ some r
      → (r.child_id ≡ c) × (r.parent_id ≡ p) × IsUuid F c × IsUuid F p
  keyed_of c p r e =
      let (fits, (a, b)) = subst (Keyed F c p) e (keyed c p) in
      (a, b, subst (IsUuid F) a fits.child, subst (IsUuid F) b fits.parent)

  pub Linked-IsUuid : (s x : Uuid) → IsUuid F s → Linked F m s x → IsUuid F x
  Linked-IsUuid s x h (here y e) = subst (IsUuid F) e h
  Linked-IsUuid s x h (forth y z r l e) = (keyed_of y z r e).3
  Linked-IsUuid s x h (back y z r l e) = (keyed_of z y r e).2

  -- The other end of an edge, by the end at which it is.
  pub other_end-cases :
      (x : Uuid) (r : MatchRecord F)
      → r.child_id ≢ r.parent_id
      → (x ≡ r.child_id) ⊎ (x ≡ r.parent_id)
      → (x ≡ r.child_id) × (other_end F m x r ≡ r.parent_id)
        ⊎ (x ≡ r.parent_id) × (other_end F m x r ≡ r.child_id)
  other_end-cases x r n (inl e) = inl (e, ground (arith, e))
  other_end-cases x r n (inr e) = inr (e, ground (arith, e, n))

  -- A document that an edge joins to a reached one is reached.
  Reached-ends :
      (seeds : List Uuid) (x : Uuid) (r : MatchRecord F)
      → Reached F m seeds x
      → At F m x r
      → Reached F m seeds r.child_id × Reached F m seeds r.parent_id
  Reached-ends seeds x r (s, k, l) (edge, n, inl e) =
      let link = subst (Linked F m s) e l in
      ((s, k, link), (s, k, forth r.child_id r.parent_id r link edge))
  Reached-ends seeds x r (s, k, l) (edge, n, inr e) =
      let link = subst (Linked F m s) e l in
      ((s, k, back r.parent_id r.child_id r link edge), (s, k, link))

  Reached-other_end :
      (seeds : List Uuid) (x : Uuid) (r : MatchRecord F)
      → Reached F m seeds x
      → At F m x r
      → Reached F m seeds (other_end F m x r)
  Reached-other_end seeds x r h at =
      let (a, b) = Reached-ends seeds x r h at in
      elim (other_end-cases x r at.1 at.2) [
        | inl k ↦ subst (Reached F m seeds) (sym k.1) b
        | inr k ↦ subst (Reached F m seeds) (sym k.1) a
      ]

  abbrev pub State : Type 0
  State = Walk (List (MatchRecord F))

  -- The edges at the document are followed and emitted.
  abbrev Done : State → Uuid → Type 0
  Done w x =
      (r : MatchRecord F)
      → At F m x r
      → Elem (other_end F m x r) w.visited_nodes × (x ≡ min r.child_id r.parent_id → Elem r w.acc)

  -- What the walk keeps.
  pub record IsWalk (seeds : List Uuid) (w : State) : Type 0 where
    pub reached : (x : Uuid) → Elem x w.visited_nodes → Reached F m seeds x
    pub base : (x : Uuid) → Elem x seeds → Elem x w.visited_nodes
    pub stacked : (x : Uuid) → Elem x w.stack → Elem x w.visited_nodes
    pub done : (x : Uuid) → Elem x w.visited_nodes → Elem x w.stack ⊎ Done w x
    pub sound :
        (r : MatchRecord F)
        → Elem r w.acc
        → (m r.child_id r.parent_id ≡ some r)
          × (r.child_id ≢ r.parent_id)
          × Reached F m seeds r.child_id

  pub step-IsWalk :
      (seeds : List Uuid) (node : Uuid) (stack : List Uuid) (rs : List (MatchRecord F))
      (w w' : State)
      → w.stack ≡ node ∷ stack
      → IsWalk seeds w
      → ((r : MatchRecord F) → Elem r rs ↔ At F m node r)
      → Effect F m node rs (record w { stack = stack }) w'
      → IsWalk seeds w'
  step-IsWalk seeds node stack rs w w' top h at e =
      let visited : Elem node w.visited_nodes =
        h.stacked node (subst (Elem node) (sym top) (inl refl)) in
      let node_reached = h.reached node visited in
      record {
        reached = λ x k. elim (e.new x k) [
          | inl old ↦ h.reached x old
          | inr (s, (r, k, same)) ↦
              subst (Reached F m seeds) (sym same)
                (Reached-other_end seeds node r node_reached ((at r).0 k))
        ];
        base = λ x k. e.visited x (h.base x k);
        stacked = λ x k. elim (e.on_stack x k) [
          | inl old ↦ e.visited x (h.stacked x (subst (Elem x) (sym top) (inr old)))
          | inr v ↦ v
        ];
        done = λ x k. elim (e.new x k) [
          | inl old ↦ elim (h.done x old) [
            | inl s ↦ elim (subst (Elem x) top s) [
              | inl same ↦ inr (subst (Done w') (sym same) node_done)
              | inr s ↦ inl (e.stacked x s)
            ]
            | inr d ↦
                inr (λ r k.
                  let (v, a) = d r k in (e.visited _ v, λ low. (e.records r).1 (inl (a low))))
          ]
          | inr (s, r) ↦ inl s
        ];
        sound = λ r k. elim ((e.records r).0 k) [
          | inl old ↦ h.sound r old
          | inr (new, low) ↦
              let (edge, n, end) = (at r).0 new in
              (edge, n, (Reached-ends seeds node r node_reached (edge, n, end)).0)
        ];
      }
    where
      node_done : Done w' node
      node_done r k =
          let new = (at r).1 k in (e.ends r new, λ low. (e.records r).1 (inr (new, low)))

  pub settled :
      (seeds : List Uuid) (w : State) (x : Uuid)
      → IsWalk seeds w
      → w.stack ≡ []
      → Elem x w.visited_nodes
      → Done w x
  settled seeds w x h e k = ⊎_elim (λ s. absurd (subst (Elem x) e s)) (λ d. d) (h.done x k)

  follow :
      (seeds : List Uuid) (w : State) (y z : Uuid) (r : MatchRecord F)
      → IsWalk seeds w
      → w.stack ≡ []
      → Elem y w.visited_nodes
      → (m y z ≡ some r) ⊎ (m z y ≡ some r)
      → Elem z w.visited_nodes
  follow seeds w y z r h e k edge = elim (==-cases y z) [
    | inl (t, same) ↦ subst (λ x. Elem x w.visited_nodes) same k
    | inr (t, n) ↦
        let d = settled seeds w y h e k in
        elim edge [
          | inl f ↦
              let (a, b, u, v) = keyed_of y z r f in
              let at : At F m y r = (
                ap (λ x. m x r.parent_id) a ∙ ap (m y) b ∙ f,
                λ s. n (sym a ∙ s ∙ b),
                inl (sym a),
              ) in
              let other : other_end F m y r ≡ z = ground (arith, a, b) in
              subst (λ x. Elem x w.visited_nodes) other (d r at).0
          | inr f ↦
              let (a, b, u, v) = keyed_of z y r f in
              let at : At F m y r = (
                ap (λ x. m x r.parent_id) a ∙ ap (m z) b ∙ f,
                λ s. n (sym b ∙ sym s ∙ a),
                inr (sym b),
              ) in
              let other : other_end F m y r ≡ z = ground (arith, a, b, n) in
              subst (λ x. Elem x w.visited_nodes) other (d r at).0
        ]
  ]

  -- A walk with an empty stack has visited everything that the seeds reach.
  pub Linked-visited :
      (seeds : List Uuid) (w : State) (s x : Uuid)
      → IsWalk seeds w
      → w.stack ≡ []
      → Elem s seeds
      → Linked F m s x
      → Elem x w.visited_nodes
  Linked-visited seeds w s x h e k (here y same) =
      subst (λ t. Elem t w.visited_nodes) same (h.base s k)
  Linked-visited seeds w s x h e k (forth y z r l edge) =
      follow seeds w y z r h e (Linked-visited seeds w s y h e k l) (inl edge)
  Linked-visited seeds w s x h e k (back y z r l edge) =
      follow seeds w y z r h e (Linked-visited seeds w s y h e k l) (inr edge)
