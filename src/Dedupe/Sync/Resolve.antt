-- ===== src/Dedupe/Sync/Resolve.antt =====
-- The two reads of the sync of src/dedupe/mod.rs: the documents of the components, and their
-- resolution.
use incrededup.Base.{
  ℕ, ◌≡◌, ◌↔◌, ◌⊎◌, inl, inr, refl, ap, ◌∙◌, subst, ◌^◌, Option-cases, none, some, arith, List, [],
  ◌∷◌, leb, sort_by, include, Elem, Elem-include, Elem-sort_by, All, ok, ⊎_elim,
}
use incrededup.Match.{Float, MatchRecord}
use incrededup.Table.{Table}
use incrededup.UnionFind.{Uuid, nodes, for_nodes}
use incrededup.UnionFind.Components.{Endpoint, IsBounded}
use incrededup.Storage.{Bytes}
use incrededup.Storage.Matches.{MatchStore}
use incrededup.Storage.Matches.Edges.{Edges, Keyed}
use incrededup.Storage.Scan.{ConnectedEdgeStats, collect}
use incrededup.Dedupe.Stream.{
  EdgeLookupMode, stream_connected_matches, discover_streamed_component_doc_ids,
}
use incrededup.Dedupe.Stream.Fold.{foldl, stream_connected_matches-foldl}
use incrededup.Dedupe.Transitivity.{
  Best, Resolved, root_key, join_edge, join_edges, resolve_node, resolve_transitivity_streamed,
}
use incrededup.Dedupe.Transitivity.Edges.{ends}
use incrededup.Dedupe.Sync.{join_step, resolve_nodes, resolve_connected}

module _ (F : Float) where
  abbrev discover_step : List Uuid → MatchRecord F → List Uuid
  discover_step ids r = include r.parent_id (include r.child_id ids)

  Elem-discovered :
      (rs : List (MatchRecord F)) (ids : List Uuid) (x : Uuid)
      → Elem x (foldl discover_step ids rs) ↔ (Elem x ids ⊎ Endpoint (ends F rs) x)
  unfolding foldl
  Elem-discovered [] ids x = (inl, λ h. ⊎_elim (λ k. k) absurd h)
  Elem-discovered (r ∷ rs) ids x = ground (
    arith,
    Elem-discovered rs (discover_step ids r) x,
    Elem-include r.parent_id x (include r.child_id ids),
    Elem-include r.child_id x ids,
  )

  module _ (S : Table Bytes Bytes) where
    -- The discovery returns the ends of the edges that the pass collects.
    pub discover-Endpoint :
        (fuel : ℕ) (s s' : MatchStore F S) (seeds : List Uuid) (mode : EdgeLookupMode)
        (records : List (MatchRecord F)) (stats : ConnectedEdgeStats)
        → stream_connected_matches F S fuel s seeds mode (collect F S) []
          ≡ some (s', ok (records, stats))
        → (ids : List Uuid) × (discover_streamed_component_doc_ids F S fuel s seeds mode
            ≡ some (s', ok (ids, stats)))
          × ((x : Uuid) → Elem x ids ↔ Endpoint (ends F records) x)
    unfolding discover_streamed_component_doc_ids
    discover-Endpoint fuel s s' seeds mode records stats run =
        let found = foldl discover_step [] records in
        let pass = stream_connected_matches-foldl F S discover_step [] fuel s seeds mode in
        (
          sort_by leb found,
          rw (pass, discover_streamed_component_doc_ids) (rw run refl),
          λ x. (
            λ m. elim ((Elem-discovered records [] x).0 ((Elem-sort_by leb x found).0 m)) [
              | inl nothing ↦ absurd nothing
              | inr e ↦ e
            ],
            λ e. (Elem-sort_by leb x found).1 ((Elem-discovered records [] x).1 (inr e)),
          ),
        )

  module _ (U : Table Uuid Uuid) (B : Table Uuid (Best F)) where
    foldl-none :
        (fuel : ℕ) (key : Uuid → ℕ) (rs : List (MatchRecord F))
        → foldl (join_step F U B fuel key) none rs ≡ none
    unfolding foldl
    foldl-none fuel key [] = refl
    foldl-none fuel key (r ∷ rs) = foldl-none fuel key rs

    foldl-join_edges :
        (fuel : ℕ) (key : Uuid → ℕ) (rs : List (MatchRecord F)) (st : U.T × B.T)
        → foldl (join_step F U B fuel key) (some st) rs ≡ join_edges F U B fuel key rs st
    unfolding foldl join_edges
    foldl-join_edges fuel key [] st = refl
    foldl-join_edges fuel key (r ∷ rs) st = elim (Option-cases (join_edge F U B fuel key r st)) [
      | inl e ↦ rw (e, join_edges) (foldl-none fuel key rs)
      | inr (st', e) ↦ rw (e, join_edges) (foldl-join_edges fuel key rs st')
    ]

    module _ (sim pct : F.F64) where
      resolve_nodes-streamed :
          (fuel : ℕ) (rs : List (MatchRecord F)) (preferred new_docs : List Uuid)
          → resolve_nodes F U B sim pct fuel
              (join_edges F U B fuel (root_key preferred new_docs) rs (U.empty, B.empty))
            ≡ resolve_transitivity_streamed F U B sim pct fuel rs preferred new_docs
      unfolding resolve_nodes resolve_transitivity_streamed
      resolve_nodes-streamed fuel rs preferred new_docs =
          elim (Option-cases
            (join_edges F U B fuel (root_key preferred new_docs) rs (U.empty, B.empty))) [
              | inl e ↦ rw (e, resolve_nodes) refl
              | inr ((uf, best), e) ↦
                  let start : Resolved F = record {
                    assignments = [];
                    parent_ids = [];
                    child_ids = [];
                  } in
                  elim (Option-cases
                    (for_nodes U fuel (resolve_node F U B sim pct best) uf (nodes U uf) start)) [
                      | inl g ↦ rw (e, resolve_nodes, resolve_transitivity_streamed) (rw g refl)
                      | inr (r, g) ↦
                          rw (e, resolve_nodes, resolve_transitivity_streamed) (rw g refl)
                    ]
            ]

      -- The resolution over a pass is the one of the edges that the pass collects.
      pub resolve_connected-streamed :
          (S : Table Bytes Bytes) (fuel : ℕ) (s s' : MatchStore F S) (seeds : List Uuid)
          (mode : EdgeLookupMode) (preferred new_docs : List Uuid) (records : List (MatchRecord F))
          (stats : ConnectedEdgeStats) (r : Resolved F)
          → stream_connected_matches F S fuel s seeds mode (collect F S) []
            ≡ some (s', ok (records, stats))
          → resolve_transitivity_streamed F U B sim pct fuel records preferred new_docs ≡ some r
          → resolve_connected F U B sim pct S fuel s seeds mode preferred new_docs ≡ some (s', ok r)
      unfolding resolve_connected
      resolve_connected-streamed S fuel s s' seeds mode preferred new_docs records stats r run
            resolved =
          let key = root_key preferred new_docs in
          let pass =
            stream_connected_matches-foldl F S (join_step F U B fuel key) (some (U.empty, B.empty))
              fuel s seeds mode in
          let whole =
            ap (resolve_nodes F U B sim pct fuel)
              (foldl-join_edges fuel key records (U.empty, B.empty))
            ∙ resolve_nodes-streamed fuel records preferred new_docs
            ∙ resolved in
          rw (pass, resolve_connected) (rw run (rw whole refl))

  -- The ends of edges that a store holds are ids of 128 bits.
  pub ends-IsBounded :
      (m : Edges F) (rs : List (MatchRecord F))
      → ((c p : Uuid) → Keyed F c p (m c p))
      → ((r : MatchRecord F) → Elem r rs → m r.child_id r.parent_id ≡ some r)
      → All (IsBounded (2 ^ 128)) (ends F rs)
  ends-IsBounded m [] keyed held = tt
  ends-IsBounded m (r ∷ rs) keyed held =
      let (fits, joins) =
        subst (Keyed F r.child_id r.parent_id) (held r (inl refl)) (keyed r.child_id r.parent_id) in
      ((fits.child, fits.parent), ends-IsBounded m rs keyed (λ x i. held x (inr i)))
