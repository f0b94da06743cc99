-- ===== src/Dedupe/Stream/Fold/Walks.antt =====
-- The walk over the adjacency index of src/storage/mod.rs with two visitors that do not fail, one the
-- image of the other.
use incrededup.Base.{
  ℕ, zero, suc, ◌≡◌, ◌⊎◌, inl, inr, refl, ap, ◌∙◌, Bool-cases, Option, none, some, List, [], ◌∷◌,
  ◌==◌, if◌then◌else◌, contains, ◌&&◌, min, leb, length, Result, err, ok,
}
use incrededup.Match.{Float, MatchRecord}
use incrededup.UnionFind.{Uuid}
use incrededup.Storage.{Bytes, StoreError, from_slice, part}
use incrededup.Storage.Scan.{visit}
use incrededup.Storage.Walk.{
  Walk, push_other, emit, row_record, walk_row, walk_rows, walk_loop, node_range,
}

pub Result-cases :
    {E A : Type 0} (r : Result E A) → ((e : E) × (r ≡ err e)) ⊎ ((a : A) × (r ≡ ok a))
Result-cases (err e) = inl (e, refl)
Result-cases (ok a) = inr (a, refl)

pub read-cases :
    {A : Type 0} (o : Option (Result StoreError A))
    → (o ≡ none) ⊎ ((e : StoreError) × (o ≡ some (err e))) ⊎ ((a : A) × (o ≡ some (ok a)))
read-cases none = inl refl
read-cases (some (err e)) = inr (inl (e, refl))
read-cases (some (ok a)) = inr (inr (a, refl))

pub pass-cases :
    {S A : Type 0} (o : Option (S × Result StoreError A))
    → (o ≡ none)
      ⊎ ((s : S) × (e : StoreError) × (o ≡ some (s, err e)))
      ⊎ ((s : S) × (a : A) × (o ≡ some (s, ok a)))
pass-cases none = inl refl
pass-cases (some (s, err e)) = inr (inl (s, e, refl))
pass-cases (some (s, ok a)) = inr (inr (s, a, refl))

module _ (F : Float) {A B : Type 0} (step_a : A → MatchRecord F → A)
    (step_b : B → MatchRecord F → B) (g : A → B)
    (natural : (a : A) (r : MatchRecord F) → step_b (g a) r ≡ g (step_a a r)) where
  abbrev pub on_a : A → MatchRecord F → Result StoreError A
  on_a a r = ok (step_a a r)

  abbrev pub on_b : B → MatchRecord F → Result StoreError B
  on_b b r = ok (step_b b r)

  pub visit_lem :
      (rs : List (MatchRecord F)) (a : A)
      → (a' : A) × (visit F on_a a rs ≡ ok a') × (visit F on_b (g a) rs ≡ ok (g a'))
  unfolding visit
  visit_lem [] a = (a, refl, refl)
  visit_lem (r ∷ rs) a =
      let (a', p, q) = visit_lem rs (step_a a r) in
      (a', p, ap (λ b. visit F on_b b rs) (natural a r) ∙ q)

  -- The same walk with the image of the accumulator.
  abbrev pub over : Walk A → Walk B
  over w = record {
    visited_nodes = w.visited_nodes;
    stack = w.stack;
    acc = g w.acc;
    edges_streamed = w.edges_streamed;
  }

  push_other-over :
      (node : Uuid) (key : Bytes) (w : Walk A)
      → push_other node key (over w) ≡ over (push_other node key w)
  unfolding push_other
  push_other-over node key w =
      let child_id = from_slice (part 16 16 key) in
      let other = if child_id == node then from_slice (part 32 16 key) else child_id in
      elim (Bool-cases (contains w.visited_nodes other)) [ inl t ↦ rw t refl | inr f ↦ rw f refl ]

  -- The step succeeds, with a visitor that does, and the image of its result.
  abbrev Both : Result StoreError (Walk A) → Result StoreError (Walk B) → Type 0
  Both x y = (w' : Walk A) × (x ≡ ok w') × (y ≡ ok (over w'))

  emit-over :
      (node : Uuid) (row : Bytes × Bytes) (w : Walk A)
      → Both (emit F on_a node row w) (emit F on_b node row (over w))
  unfolding emit
  emit-over node (key, value) w =
      let r = row_record F key value in
      elim (Bool-cases (node == min r.child_id r.parent_id && leb 20 (length value))) [
        | inl t ↦ (
          record w { acc = step_a w.acc r; edges_streamed = suc w.edges_streamed },
          rw t refl,
          rw t (
              ap (λ b. ok (record (over w) { acc = b; edges_streamed = suc w.edges_streamed }))
                (natural w.acc r)),
        )
        | inr f ↦ (w, rw f refl, rw f refl)
      ]

  walk_row-over :
      (node : Uuid) (row : Bytes × Bytes) (w : Walk A)
      → Both (walk_row F on_a node row w) (walk_row F on_b node row (over w))
  unfolding walk_row
  walk_row-over node row w = elim (Bool-cases (length row.0 == 48)) [
    | inl t ↦
        let (w', p, q) = emit-over node row w in
        (
          push_other node row.0 w',
          rw t (rw p refl),
          rw t (rw q (ap ok (push_other-over node row.0 w'))),
        )
    | inr f ↦ (w, rw f refl, rw f refl)
  ]

  walk_rows-over :
      (node : Uuid) (rows : List (Bytes × Bytes)) (w : Walk A)
      → Both (walk_rows F on_a node rows w) (walk_rows F on_b node rows (over w))
  unfolding walk_rows
  walk_rows-over node [] w = (w, refl, refl)
  walk_rows-over node (row ∷ rows) w =
      let (w₁, p, q) = walk_row-over node row w in
      let (w₂, p', q') = walk_rows-over node rows w₁ in (w₂, rw p p', rw q q')

  -- What a loop that ends, or does not, gives for both.
  abbrev pub image_walk : Option (Result StoreError (Walk A)) → Option (Result StoreError (Walk B))
  image_walk none = none
  image_walk (some (err e)) = some (err e)
  image_walk (some (ok w)) = some (ok (over w))

  pub walk_loop-over :
      (fuel : ℕ) (es : List (Bytes × Bytes)) (w : Walk A)
      → walk_loop F fuel on_b es (over w) ≡ image_walk (walk_loop F fuel on_a es w)
  unfolding walk_loop
  walk_loop-over zero es w = refl
  walk_loop-over (suc fuel) es w = go w.stack (walk_loop-over fuel es)
    where
      go :
          (stack : List Uuid)
          → ((w' : Walk A)
              → walk_loop F fuel on_b es (over w') ≡ image_walk (walk_loop F fuel on_a es w'))
          → (elim stack [
            | [] ↦ some (ok (over w))
            | node ∷ rest ↦
                elim (walk_rows F on_b node
                  (node_range node es)
                  (record (over w) { stack = rest })) [
                    | err e ↦ some (err e)
                    | ok w' ↦ walk_loop F fuel on_b es w'
                  ]
          ])
            ≡ image_walk (elim stack [
              | [] ↦ some (ok w)
              | node ∷ rest ↦
                  elim (walk_rows F on_a node (node_range node es) (record w { stack = rest })) [
                    | err e ↦ some (err e)
                    | ok w' ↦ walk_loop F fuel on_a es w'
                  ]
            ])
      go [] later = refl
      go (node ∷ rest) later =
          let (w', p, q) = walk_rows-over node (node_range node es) (record w { stack = rest }) in
          rw (p, q) (later w')
