-- ===== src/Storage/Walk/Rows.antt =====
-- The rows of a node in the adjacency index of src/storage/mod.rs: they are the edges at the node,
-- and the loop over them emits and pushes.
use incrededup.Base.{
  Distinct-filter, Distinct, suc, min, ◌^◌, ◌<◌, ◌≡◌, ◌≢◌, ◌↔◌, ◌⊎◌, inl, inr, refl, sym, ap, ◌∙◌,
  subst, true, ◌&&◌, ◌||◌, not, Option, none, some, List, [], ◌∷◌, ◌++◌, if◌then◌else◌, ◌==◌, leb,
  Bool-cases, arith, Elem, length, length-append, contains, ok, Result, le_bytes, length-le_bytes,
  length-be_bytes, le_value, le_value-le_bytes,
}
use incrededup.Base.Results.{◌>>=◌}
use incrededup.Match.{Float, MatchRecord}
use incrededup.Table.{Table}
use incrededup.UnionFind.{Uuid}
use incrededup.Storage.{
  Bytes, StoreError, as_bytes, from_slice, part, adjacency_key, adjacency_value, f64_bytes,
  f64_from,
}
use incrededup.Storage.Codec.{
  Fits, from_slice-as_bytes, part-append, part_first, part_whole, f64_from-f64_bytes,
  adjacency_key_inj,
}
use incrededup.Storage.Matches.Edges.{Edges, Keyed, IsUuid, indexed, IsIndex}
use incrededup.Storage.Matches.Insert.{indexed_end}
use incrededup.Storage.Matches.Read.{IsUnrepeated}
use incrededup.Storage.Walk.{Walk, push_other, row_record, emit, walk_row, walk_rows, node_range}
use incrededup.Storage.Walk.Ranges.{Elem-node_range, node_range-entry}

module _ (F : Float) (m : Edges F) where
  -- The row holds the record under the node, which is one of its ends.
  pub record Row (node : Uuid) (row : Bytes × Bytes) (r : MatchRecord F) : Type 0 where
    pub key : row.0 ≡ adjacency_key node r.child_id r.parent_id
    pub value : row.1 ≡ adjacency_value F r
    pub edge : m r.child_id r.parent_id ≡ some r
    pub differ : r.child_id ≢ r.parent_id
    pub end : (node ≡ r.child_id) ⊎ (node ≡ r.parent_id)
    pub fits : Fits F r

  pub key_parts :
      (n c p : Uuid)
      → c < 2 ^ 128
      → p < 2 ^ 128
      → (length (adjacency_key n c p) ≡ 48)
        × (from_slice (part 16 16 (adjacency_key n c p)) ≡ c)
        × (from_slice (part 32 16 (adjacency_key n c p)) ≡ p)
  unfolding adjacency_key
  key_parts n c p hc hp =
      let a = as_bytes n in
      let b = as_bytes c in
      let d = as_bytes p in
      let la = length-be_bytes 16 n in
      let lb = length-be_bytes 16 c in
      let ld = length-be_bytes 16 p in
      let l1 = length-append a (b ++ d) in
      let l2 = length-append b d in
      let pc : part 16 16 (a ++ (b ++ d)) ≡ b =
        part-append 0 16 16 a (b ++ d) la ∙ part_first 16 b d lb in
      let pp : part 32 16 (a ++ (b ++ d)) ≡ d =
        part-append 16 16 16 a (b ++ d) la ∙ part-append 0 16 16 b d lb ∙ part_whole 16 d ld in
      (
        omega arith,
        ap from_slice pc ∙ from_slice-as_bytes c hc,
        ap from_slice pp ∙ from_slice-as_bytes p hp,
      )

  value_parts :
      (r : MatchRecord F)
      → Fits F r
      → (length (adjacency_value F r) ≡ 20)
        × (f64_from F (part 0 8 (adjacency_value F r)) ≡ r.jaccard_similarity)
        × (le_value (part 8 4 (adjacency_value F r)) ≡ r.size_difference)
        × (f64_from F (part 12 8 (adjacency_value F r)) ≡ r.size_difference_pct)
  unfolding adjacency_value
  value_parts r h =
      let b = f64_bytes F r.jaccard_similarity in
      let c = le_bytes 4 r.size_difference in
      let d = f64_bytes F r.size_difference_pct in
      let lb = length-le_bytes 8 (F.to_bits r.jaccard_similarity) in
      let lc = length-le_bytes 4 r.size_difference in
      let ld = length-le_bytes 8 (F.to_bits r.size_difference_pct) in
      let l1 = length-append b (c ++ d) in
      let l2 = length-append c d in
      let pb = part_first 8 b (c ++ d) lb in
      let pc : part 8 4 (b ++ (c ++ d)) ≡ c =
        part-append 0 4 8 b (c ++ d) lb ∙ part_first 4 c d lc in
      let pd : part 12 8 (b ++ (c ++ d)) ≡ d =
        part-append 4 8 8 b (c ++ d) lb ∙ part-append 0 8 4 c d lc ∙ part_whole 8 d ld in
      (
        omega arith,
        ap (f64_from F) pb ∙ f64_from-f64_bytes F r.jaccard_similarity,
        ap le_value pc ∙ le_value-le_bytes 4 r.size_difference (omega (arith, h.difference)),
        ap (f64_from F) pd ∙ f64_from-f64_bytes F r.size_difference_pct,
      )

  -- A row is read as its record.
  row_record-Row :
      (node : Uuid) (row : Bytes × Bytes) (r : MatchRecord F)
      → Row node row r
      → (row_record F row.0 row.1 ≡ r) × (length row.0 ≡ 48) × (length row.1 ≡ 20)
  row_record-Row node row r h =
      let (lk, c, p) = key_parts node r.child_id r.parent_id h.fits.child h.fits.parent in
      let (lv, j, s, d) = value_parts r h.fits in
      (rw (h.key, h.value, c, p, j, s, d) refl, ap length h.key ∙ lk, ap length h.value ∙ lv)

  abbrev pub other_end : Uuid → MatchRecord F → Uuid
  other_end node r = if r.child_id == node then r.parent_id else r.child_id

  abbrev pub emitted :
      Uuid → MatchRecord F → Walk (List (MatchRecord F)) → Walk (List (MatchRecord F))
  emitted node r w =
      if node == min r.child_id r.parent_id
      then record w { acc = w.acc ++ r ∷ []; edges_streamed = suc w.edges_streamed }
      else w

  abbrev pub pushed : Uuid → Walk (List (MatchRecord F)) → Walk (List (MatchRecord F))
  pushed x w =
      if contains w.visited_nodes x
      then w
      else record w { visited_nodes = x ∷ w.visited_nodes; stack = x ∷ w.stack }

  -- What the loop does for the record of a row.
  abbrev pub after_row :
      Uuid → MatchRecord F → Walk (List (MatchRecord F)) → Walk (List (MatchRecord F))
  after_row node r w = pushed (other_end node r) (emitted node r w)

  unfoldable pub after_rows :
      Uuid → List (MatchRecord F) → Walk (List (MatchRecord F)) → Walk (List (MatchRecord F))
  after_rows node [] w = w
  after_rows node (r ∷ rs) w = after_rows node rs (after_row node r w)

  abbrev pub collector :
      List (MatchRecord F) → MatchRecord F → Result StoreError (List (MatchRecord F))
  collector records r = ok (records ++ r ∷ [])

  emit_lem :
      (node : Uuid) (row : Bytes × Bytes) (r : MatchRecord F) (w : Walk (List (MatchRecord F)))
      → row_record F row.0 row.1 ≡ r
      → length row.1 ≡ 20
      → emit F collector node row w ≡ ok (emitted node r w)
  unfolding emit
  emit_lem node (key, value) r w same size =
      let long : leb 20 (length value) ≡ true = ground arith in
      ap
        (λ (x : MatchRecord F).
          if node == min x.child_id x.parent_id && leb 20 (length value)
          then (do
            acc ← collector w.acc x
            ok (record w { acc = acc; edges_streamed = suc w.edges_streamed }))
          else ok w)
        same
      ∙ elim (Bool-cases (node == min r.child_id r.parent_id)) [
        | inl t ↦ rw (t, long) refl
        | inr f ↦ rw f refl
      ]

  push_lem :
      (node : Uuid) (key : Bytes) (r : MatchRecord F) (w : Walk (List (MatchRecord F)))
      → from_slice (part 16 16 key) ≡ r.child_id
      → from_slice (part 32 16 key) ≡ r.parent_id
      → push_other node key w ≡ pushed (other_end node r) w
  unfolding push_other
  push_lem node key r w c p = rw (c, p) refl

  walk_row_lem :
      (node : Uuid) (row : Bytes × Bytes) (r : MatchRecord F) (w : Walk (List (MatchRecord F)))
      → Row node row r
      → walk_row F collector node row w ≡ ok (after_row node r w)
  unfolding walk_row
  walk_row_lem node row r w h =
      let (same, lk, lv) = row_record-Row node row r h in
      let whole : (length row.0 == 48) ≡ true = ground arith in
      let c = ap (λ (x : MatchRecord F). x.child_id) same in
      let p = ap (λ (x : MatchRecord F). x.parent_id) same in
      rw (whole, emit_lem node row r w same lv)
        (ap ok (push_lem node row.0 r (emitted node r w) c p))

  -- The loop over rows that hold records is the loop over the records.
  rows_lem :
      (node : Uuid) (rows : List (Bytes × Bytes))
      → ((row : Bytes × Bytes) → Elem row rows → (r : MatchRecord F) × Row node row r)
      → (rs : List (MatchRecord F)) × ((w : Walk (List (MatchRecord F)))
          → walk_rows F collector node rows w ≡ ok (after_rows node rs w))
        × ((r : MatchRecord F) → Elem r rs → (row : Bytes × Bytes) × Elem row rows × Row node row r)
        × ((row : Bytes × Bytes) → Elem row rows → (r : MatchRecord F) × Elem r rs × Row node row r)
        × (Distinct (λ (row : Bytes × Bytes). row.0) rows → IsUnrepeated F rs)
  unfolding walk_rows after_rows
  rows_lem node [] h = ([], λ w. refl, λ r e. absurd e, λ row e. absurd e, λ d. tt)
  rows_lem node (row ∷ rows) h =
      let (r, first) = h row (inl refl) in
      let (rs, run, from, to, once) = rows_lem node rows (λ x e. h x (inr e)) in
      (
        r ∷ rs,
        λ w. rw (walk_row_lem node row r w first) (run (after_row node r w)),
        λ x e. elim e [
          | inl same ↦ (row, inl refl, subst (Row node row) (sym same) first)
          | inr k ↦ let (y, l, d) = from x k in (y, inr l, d)
        ],
        λ x e. elim e [
          | inl same ↦ (r, inl refl, subst (λ y. Row node y r) (sym same) first)
          | inr k ↦ let (y, l, d) = to x k in (y, inr l, d)
        ],
        λ d. (
          λ y k same.
              let (x, l, at) = from y k in
              d.0 x l (
                first.key
                ∙ ap (λ (z : MatchRecord F). adjacency_key node z.child_id z.parent_id) same
                ∙ sym at.key),
          once d.1,
        ),
      )

  -- The record is an edge at the node.
  abbrev pub At : Uuid → MatchRecord F → Type 0
  At node r =
      (m r.child_id r.parent_id ≡ some r)
      × (r.child_id ≢ r.parent_id)
      × ((node ≡ r.child_id) ⊎ (node ≡ r.parent_id))

  pub indexed-some :
      (n c p : Uuid) (o : Option (MatchRecord F)) (v : Bytes)
      → indexed F n c p o ≡ some v
      → (r : MatchRecord F) × (o ≡ some r)
        × (v ≡ adjacency_value F r)
        × (c ≢ p)
        × ((n ≡ c) ⊎ (n ≡ p))
  indexed-some n c p none v e = absurd (nothing e)
    where
      nothing : ◌≡◌ {A = Option Bytes} none (some v) → ⊥
      nothing e = cc
  indexed-some n c p (some r) v e = elim (Bool-cases ((n == c || n == p) && not (c == p))) [
    | inl t ↦
        let same : ◌≡◌ {A = Option Bytes} (some (adjacency_value F r)) (some v) = rw t at e in
        (r, refl, cc, ground arith, ground arith)
    | inr f ↦
        let nothing : ◌≡◌ {A = Option Bytes} none (some v) = rw f at e in absurd (no_value nothing)
  ]
    where
      no_value : ◌≡◌ {A = Option Bytes} none (some v) → ⊥
      no_value e = cc

  module _ (M : Table Bytes Bytes) (a : M.T) (h : IsIndex F M a m)
      (keyed : (c p : Uuid) → Keyed F c p (m c p)) where
    pub record_at :
        (node : Uuid) (row : Bytes × Bytes)
        → IsUuid F node
        → Elem row (node_range node (M.entries a))
        → (r : MatchRecord F) × Row node row r
    record_at node (k, v) hn e =
        let found = node_range-entry node (k, v) (M.entries a) e in
        let got = (M.Elem-entries a k v).0 found in
        let (n, c, p, in_n, in_c, in_p, at) = h.only k v got in
        let here : indexed F n c p (m c p) ≡ some v =
          sym (h.value n c p in_n in_c in_p) ∙ ap (M.get a) (sym at) ∙ got in
        let (r, edge, value, differ, end) = indexed-some n c p (m c p) v here in
        let (fits, (same_c, same_p)) = subst (Keyed F c p) edge (keyed c p) in
        let e' = subst (λ x. Elem (x, v) (node_range node (M.entries a))) at e in
        let same_n = ((Elem-node_range node n c p v (M.entries a) hn in_n).0 e').1 in
        (
          r,
          record {
            key =
                at
                ∙ ap (λ x. adjacency_key x c p) same_n
                ∙ ap (λ x. adjacency_key node x p) (sym same_c)
                ∙ ap (adjacency_key node r.child_id) (sym same_p);
            value = value;
            edge = ap (λ x. m x r.parent_id) same_c ∙ ap (m c) same_p ∙ edge;
            differ = λ t. differ (sym same_c ∙ t ∙ same_p);
            end = elim end [
              | inl t ↦ inl (sym same_n ∙ t ∙ sym same_c)
              | inr t ↦ inr (sym same_n ∙ t ∙ sym same_p)
            ];
            fits = fits;
          },
        )

    -- Every edge at a node has a row in the range of the node.
    pub row_at :
        (node : Uuid) (r : MatchRecord F)
        → IsUuid F node
        → At node r
        → Elem
            (adjacency_key node r.child_id r.parent_id, adjacency_value F r)
            (node_range node (M.entries a))
    row_at node r hn (edge, differ, end) =
        let (fits, j) =
          subst (Keyed F r.child_id r.parent_id) edge (keyed r.child_id r.parent_id) in
        let value : M.get a (adjacency_key node r.child_id r.parent_id)
            ≡ some (adjacency_value F r) =
          h.value node r.child_id r.parent_id hn fits.child fits.parent
          ∙ ap (indexed F node r.child_id r.parent_id) edge
          ∙ indexed_end F M node r.child_id r.parent_id r differ end in
        (Elem-node_range node node r.child_id r.parent_id (adjacency_value F r) (M.entries a) hn
            hn).1
          ((M.Elem-entries a _ _).1 value, refl)

    -- The loop over the rows of a node is the loop over the edges at the node.
    pub node_rows :
        (node : Uuid)
        → IsUuid F node
        → (rs : List (MatchRecord F)) × ((w : Walk (List (MatchRecord F)))
            → walk_rows F collector node (node_range node (M.entries a)) w
              ≡ ok (after_rows node rs w))
          × ((r : MatchRecord F) → Elem r rs ↔ At node r)
          × IsUnrepeated F rs
    unfolding node_range
    node_rows node hn =
        let (rs, run, from, to, once) =
          rows_lem node (node_range node (M.entries a)) (λ row e. record_at node row hn e) in
        (
          rs,
          run,
          λ r. (
            λ e. let (row, k, d) = from r e in (d.edge, d.differ, d.end),
            λ at.
                let (x, e, d) =
                  to (adjacency_key node r.child_id r.parent_id, adjacency_value F r)
                    (row_at node r hn at) in
                let (fits, j) =
                  subst (Keyed F r.child_id r.parent_id) at.0 (keyed r.child_id r.parent_id) in
                let (same_n, same_c, same_p) =
                  adjacency_key_inj node r.child_id r.parent_id node x.child_id x.parent_id hn
                    fits.child fits.parent hn d.fits.child d.fits.parent d.key in
                let both : some r ≡ some x =
                  sym at.0 ∙ ap (λ c. m c r.parent_id) same_c ∙ ap (m x.child_id) same_p ∙ d.edge in
                let same : r ≡ x = cc in subst (λ y. Elem y rs) (sym same) e,
          ),
          once (
              Distinct-filter (λ (row : Bytes × Bytes). row.0) _ (M.entries a)
                (M.distinct-entries a)),
        )
