-- ===== src/Dedupe/Stream/Fold.antt =====
-- `stream_connected_matches` of src/dedupe/mod.rs with a visitor that does not fail: it folds the
-- visitor over the edges that the same pass would collect.
pub mod Walks
use incrededup.Base.{
  ℕ, zero, suc, ◌≡◌, ◌⊎◌, inl, inr, refl, ap, ◌∙◌, Bool-cases, Option-cases, Option, none, some,
  List, [], ◌∷◌, ◌++◌, ◌==◌, if◌then◌else◌, contains, ◌&&◌, min, leb, length, Result, err, ok,
}
use incrededup.Match.{Float, MatchRecord}
use incrededup.Table.{Table}
use incrededup.UnionFind.{Uuid}
use incrededup.Storage.{Bytes, StoreError, from_slice, part}
use incrededup.Storage.Matches.{MatchStore, is_adjacency_built, read_entries}
use incrededup.Storage.Scan.{
  ConnectedEdgeStats, visit, visit_connected, connected, grow_loop, to_set,
  visit_real_edges_connected_to, collect,
}
use incrededup.Storage.Walk.{
  Walk, push_other, emit, row_record, walk_row, walk_rows, walk_loop, node_range,
  visit_real_edges_connected_to_indexed, visit_real_edges_connected_to_auto,
}
use incrededup.Dedupe.Stream.{
  Streamed, EdgeLookupMode, scan, auto, shadow, compare_index, stream_connected_matches,
}
use incrededup.Dedupe.Stream.Fold.Walks.{
  Result-cases, read-cases, pass-cases, visit_lem, walk_loop-over, image_walk,
}

module _ (F : Float) {A B : Type 0} (step_a : A → MatchRecord F → A)
    (step_b : B → MatchRecord F → B) (g : A → B)
    (natural : (a : A) (r : MatchRecord F) → step_b (g a) r ≡ g (step_a a r)) where
  abbrev on_a : A → MatchRecord F → Result StoreError A
  on_a a r = ok (step_a a r)

  abbrev on_b : B → MatchRecord F → Result StoreError B
  on_b b r = ok (step_b b r)

  abbrev Stats : Type 0
  Stats = ConnectedEdgeStats

  abbrev pub image_read :
      Option (Result StoreError (A × Stats)) → Option (Result StoreError (B × Stats))
  image_read none = none
  image_read (some (err e)) = some (err e)
  image_read (some (ok (a, st))) = some (ok (g a, st))

  module _ (M : Table Bytes Bytes) where
    abbrev pub image : Streamed F M A → Streamed F M B
    image none = none
    image (some (s, err e)) = some (s, err e)
    image (some (s, ok (a, st))) = some (s, ok (g a, st))

    pub indexed-image :
        (fuel : ℕ) (s : MatchStore F M) (seeds : List Uuid) (a : A)
        → visit_real_edges_connected_to_indexed F M fuel s seeds on_b (g a)
          ≡ image_read (visit_real_edges_connected_to_indexed F M fuel s seeds on_a a)
    unfolding visit_real_edges_connected_to_indexed
    indexed-image fuel s [] a = refl
    indexed-image fuel s (id ∷ ids) a =
        let seeds = to_set (id ∷ ids) [] in
        let start : Walk A = record {
          visited_nodes = seeds;
          stack = seeds;
          acc = a;
          edges_streamed = 0;
        } in
        let o = walk_loop F fuel on_a (M.entries s.adjacency) start in
        let same = walk_loop-over F step_a step_b g natural fuel (M.entries s.adjacency) start in
        elim (read-cases o) [
          | inl e ↦
              let e' = same ∙ ap (image_walk F step_a step_b g natural) e in
              rw (e, e', visit_real_edges_connected_to_indexed) refl
          | inr (inl (x, e)) ↦
              let e' = same ∙ ap (image_walk F step_a step_b g natural) e in
              rw (e, e', visit_real_edges_connected_to_indexed) refl
          | inr (inr (w, e)) ↦
              let e' = same ∙ ap (image_walk F step_a step_b g natural) e in
              rw (e, e', visit_real_edges_connected_to_indexed) refl
        ]

    visit_connected-image :
        (s : MatchStore F M) (a : A) (known : List Uuid) (rs : List (MatchRecord F))
        → some (s, visit_connected F M on_b (g a) known rs)
          ≡ image (some (s, visit_connected F M on_a a known rs))
    unfolding visit_connected
    visit_connected-image s a known rs =
        let (a', p, q) = visit_lem F step_a step_b g natural (connected F known rs) a in
        rw (p, q) refl

    scan-image :
        (fuel : ℕ) (s : MatchStore F M) (seeds : List Uuid) (a : A)
        → visit_real_edges_connected_to F M fuel s seeds on_b (g a)
          ≡ image (visit_real_edges_connected_to F M fuel s seeds on_a a)
    unfolding visit_real_edges_connected_to
    scan-image fuel s [] a = refl
    scan-image fuel s (id ∷ ids) a = elim (Result-cases (read_entries F M (M.entries s.matches))) [
      | inl (x, e) ↦ rw (e, visit_real_edges_connected_to) refl
      | inr (rs, e) ↦ elim (Option-cases (grow_loop F fuel rs (to_set (id ∷ ids) []) 0)) [
        | inl stuck ↦ rw (e, visit_real_edges_connected_to) (rw stuck refl)
        | inr ((known, passes), run) ↦
            rw (e, visit_real_edges_connected_to) (rw run (visit_connected-image _ a known rs))
      ]
    ]

    auto-image :
        (fuel : ℕ) (s : MatchStore F M) (seeds : List Uuid) (a : A)
        → visit_real_edges_connected_to_auto F M fuel s seeds on_b (g a)
          ≡ image (visit_real_edges_connected_to_auto F M fuel s seeds on_a a)
    unfolding visit_real_edges_connected_to_auto
    auto-image fuel s seeds a = elim (Bool-cases (is_adjacency_built F M s)) [
      | inl t ↦
          let same = indexed-image fuel s seeds a in
          elim (read-cases (visit_real_edges_connected_to_indexed F M fuel s seeds on_a a)) [
            | inl e ↦ let e' = same ∙ ap image_read e in rw t (rw (e, e') refl)
            | inr (inl (x, e)) ↦ let e' = same ∙ ap image_read e in rw t (rw (e, e') refl)
            | inr (inr (v, e)) ↦ let e' = same ∙ ap image_read e in rw t (rw (e, e') refl)
          ]
      | inr f ↦ rw f (scan-image fuel s seeds a)
    ]

    compare_index-image :
        (fuel : ℕ) (s : MatchStore F M) (seeds : List Uuid) (a : A) (st : Stats)
        → compare_index F M fuel s seeds (g a, st) ≡ image (compare_index F M fuel s seeds (a, st))
    unfolding compare_index
    compare_index-image fuel s seeds a st = elim (Bool-cases (is_adjacency_built F M s)) [
      | inl t ↦
          elim (read-cases
            (visit_real_edges_connected_to_indexed F M {A = Unit} fuel s seeds (λ u r. ok tt) tt)) [
              | inl e ↦ rw t (rw e refl)
              | inr (inl (x, e)) ↦ rw t (rw e refl)
              | inr (inr (v, e)) ↦ rw t (rw e refl)
            ]
      | inr f ↦ rw f refl
    ]

    -- In every mode, a pass whose visitor is the image of another's gives the image of its result.
    pub stream-image :
        (fuel : ℕ) (s : MatchStore F M) (seeds : List Uuid) (mode : EdgeLookupMode) (a : A)
        → stream_connected_matches F M fuel s seeds mode on_b (g a)
          ≡ image (stream_connected_matches F M fuel s seeds mode on_a a)
    unfolding stream_connected_matches
    stream-image fuel s seeds scan a = scan-image fuel s seeds a
    stream-image fuel s seeds auto a = auto-image fuel s seeds a
    stream-image fuel s seeds shadow a =
        let same = scan-image fuel s seeds a in
        elim (pass-cases (visit_real_edges_connected_to F M fuel s seeds on_a a)) [
          | inl e ↦ let e' = same ∙ ap image e in rw (e, e', stream_connected_matches) refl
          | inr (inl (s', x, e)) ↦
              let e' = same ∙ ap image e in rw (e, e', stream_connected_matches) refl
          | inr (inr (s', (b, st), e)) ↦
              let e' = same ∙ ap image e in
              rw (e, e', stream_connected_matches) (compare_index-image fuel s' seeds b st)
        ]

-- The elements, taken from the left.
unfoldable pub foldl : {A B : Type 0} → (A → B → A) → A → List B → A
foldl step a [] = a
foldl step a (x ∷ xs) = foldl step (step a x) xs

foldl-snoc :
    {A B : Type 0} (step : A → B → A) (a : A) (xs : List B) (x : B)
    → step (foldl step a xs) x ≡ foldl step a (xs ++ x ∷ [])
unfolding foldl
foldl-snoc step a [] x = refl
foldl-snoc step a (y ∷ xs) x = foldl-snoc step (step a y) xs x

-- In every mode, a pass with a visitor that does not fail returns exactly when the pass that
-- collects the edges does, and then with the fold of the visitor over those edges in their order.
pub stream_connected_matches-foldl :
    {A : Type 0} (F : Float) (M : Table Bytes Bytes) (step : A → MatchRecord F → A) (acc : A)
    (fuel : ℕ) (s : MatchStore F M) (seeds : List Uuid) (mode : EdgeLookupMode)
    → stream_connected_matches F M fuel s seeds mode (λ a r. ok (step a r)) acc
      ≡ elim (stream_connected_matches F M fuel s seeds mode (collect F M) []) [
        | none ↦ none
        | some (s', err e) ↦ some (s', err e)
        | some (s', ok (edges, stats)) ↦ some (s', ok (foldl step acc edges, stats))
      ]
unfolding foldl
stream_connected_matches-foldl F M step acc fuel s seeds mode =
    stream-image F (λ (records : List (MatchRecord F)) r. records ++ r ∷ []) step (foldl step acc)
      (foldl-snoc step acc) M fuel s seeds mode []
