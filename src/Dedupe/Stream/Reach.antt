-- ===== src/Dedupe/Stream/Reach.antt =====
-- What `stream_connected_matches` of src/dedupe/mod.rs collects from a store that holds some edges.
use incrededup.Base.{
  ℕ, suc, ◌+◌, ◌*◌, ◌<◌, ◌≡◌, ◌≢◌, ◌↔◌, ◌⊎◌, inl, inr, refl, sym, ap, ◌∙◌, subst, Bool-cases,
  Option-cases, Option, none, some, arith, List, [], ◌∷◌, ◌++◌, All, Elem, length, Result, err, ok,
}
use incrededup.Match.{Float, MatchRecord}
use incrededup.Table.{Table}
use incrededup.UnionFind.{Uuid}
use incrededup.Storage.{Bytes, StoreError}
use incrededup.Storage.Matches.{MatchStore, is_adjacency_built, read_entries}
use incrededup.Storage.Matches.Edges.{Edges, IsUuid}
use incrededup.Storage.Matches.Insert.{Represents}
use incrededup.Storage.Matches.Read.{IsUnrepeated}
use incrededup.Storage.Scan.{
  ConnectedEdgeStats, default_stats, visit_connected, counted, collect, grow_loop, to_set,
  visit_real_edges_connected_to, get_real_edges_connected_to,
}
use incrededup.Storage.Scan.Reach.{Reached, get_real_edges_connected_to-Reached}
use incrededup.Storage.Walk.{
  visit_real_edges_connected_to_indexed, visit_real_edges_connected_to_auto,
  get_real_edges_connected_to_indexed,
}
use incrededup.Storage.Walk.Loop.{get_real_edges_connected_to_indexed-Reached}
use incrededup.Dedupe.Stream.{
  Streamed, EdgeLookupMode, scan, auto, shadow, compare_index, stream_connected_matches,
}
use incrededup.Dedupe.Stream.Fold.{foldl, stream_connected_matches-foldl, image_read, indexed-image}
use incrededup.Dedupe.Stream.Fold.Walks.{Result-cases, read-cases}

-- Two results of one run agree.
none-some : {A : Type 0} (o : Option A) (a : A) → o ≡ none → o ≡ some a → ⊥
none-some o a e f = cc

err-ok :
    {E A : Type 0} (o : Option (Result E A)) (x : E) (a : A)
    → o ≡ some (err x)
    → o ≡ some (ok a)
    → ⊥
err-ok o x a e f = cc

ok-ok :
    {E A : Type 0} (o : Option (Result E A)) (a b : A) → o ≡ some (ok a) → o ≡ some (ok b) → a ≡ b
ok-ok o a b e f = cc

abbrev answer : {S E A : Type 0} → Option (S × Result E A) → Option (Result E A)
answer none = none
answer (some (s, r)) = some r

module _ (F : Float) (M : Table Bytes Bytes) where
  counted-zero : (s : MatchStore F M) → s ≡ counted F M s 0
  counted-zero s = ap (λ n. record s { full_scans = n }) (omega arith)

  -- The store after a scan differs in the count of full scans only.
  visit-counted :
      {A : Type 0} (fuel : ℕ) (s : MatchStore F M) (seeds : List Uuid)
      (visitor : A → MatchRecord F → Result StoreError A) (acc : A)
      → (visit_real_edges_connected_to F M fuel s seeds visitor acc ≡ none)
        ⊎ ((k : ℕ) × (r : Result StoreError (A × ConnectedEdgeStats))
            × (visit_real_edges_connected_to F M fuel s seeds visitor acc
                ≡ some (counted F M s k, r)))
  unfolding visit_real_edges_connected_to
  visit-counted fuel s [] visitor acc =
      inr (0, ok (acc, default_stats), ap (λ t. some (t, ok (acc, default_stats))) (counted-zero s))
  visit-counted fuel s (id ∷ ids) visitor acc =
      elim (Result-cases (read_entries F M (M.entries s.matches))) [
        | inl (x, e) ↦ inr (1, err x, rw (e, visit_real_edges_connected_to) refl)
        | inr (rs, e) ↦ elim (Option-cases (grow_loop F fuel rs (to_set (id ∷ ids) []) 0)) [
          | inl stuck ↦ inl (rw (e, visit_real_edges_connected_to) (rw stuck refl))
          | inr ((known, passes), run) ↦ inr (
            suc passes,
            visit_connected F M visitor acc known rs,
            rw (e, visit_real_edges_connected_to) (rw run refl),
          )
        ]
      ]

  module _ (m : Edges F) (seeds : List Uuid) where
    -- The edges that the seeds reach, and no others.
    abbrev pub IsReached : List (MatchRecord F) → Type 0
    IsReached records =
        (r : MatchRecord F)
        → Elem r records ↔ (
            (m r.child_id r.parent_id ≡ some r)
            × (r.child_id ≢ r.parent_id)
            × Reached F m seeds r.child_id)

    -- The same, each of them once.
    abbrev IsPass : List (MatchRecord F) → Type 0
    IsPass records = IsReached records × IsUnrepeated F records

    abbrev Collected : MatchStore F M → Streamed F M (List (MatchRecord F)) → Type 0
    Collected s out =
        (k : ℕ) × (records : List (MatchRecord F)) × (stats : ConnectedEdgeStats) × (out
          ≡ some (counted F M s k, ok (records, stats)))
        × IsPass records

    -- The pass of a scan, by what the store returns.
    scan-Collected :
        (fuel : ℕ) (s : MatchStore F M)
        → Represents F M s m
        → 2 * length (M.entries s.matches) < fuel
        → Collected s (visit_real_edges_connected_to F M fuel s seeds (collect F M) [])
    unfolding get_real_edges_connected_to
    scan-Collected fuel s h lt =
        let (s', records, run, reach, once) =
          get_real_edges_connected_to-Reached F M fuel s m seeds h lt in
        elim (visit-counted fuel s seeds (collect F M) []) [
          | inl stuck ↦ absurd (none-some _ _ (rw (stuck, get_real_edges_connected_to) refl) run)
          | inr (k, err x, e) ↦ absurd (
              err-ok (answer (get_real_edges_connected_to F M fuel s seeds)) x records
                (rw (e, get_real_edges_connected_to) refl) (ap answer run))
          | inr (k, ok (rs, stats), e) ↦
              let found =
                ok-ok (answer (get_real_edges_connected_to F M fuel s seeds)) rs records
                  (rw (e, get_real_edges_connected_to) refl) (ap answer run) in
              (k, rs, stats, e, subst IsPass (sym found) (reach, once))
        ]

    index-Collected :
        (fuel : ℕ) (s : MatchStore F M)
        → Represents F M s m
        → All (IsUuid F) seeds
        → length seeds + 2 * length (M.entries s.adjacency) < fuel
        → (records : List (MatchRecord F)) × (stats : ConnectedEdgeStats)
          × (visit_real_edges_connected_to_indexed F M fuel s seeds (collect F M) []
              ≡ some (ok (records, stats)))
          × IsPass records
    unfolding get_real_edges_connected_to_indexed
    index-Collected fuel s h small lt =
        let (records, run, reach, once) =
          get_real_edges_connected_to_indexed-Reached F M fuel s m seeds h small lt in
        elim (read-cases
          (visit_real_edges_connected_to_indexed F M fuel s seeds (collect F M) [])) [
            | inl stuck ↦
                absurd (none-some _ _ (rw (stuck, get_real_edges_connected_to_indexed) refl) run)
            | inr (inl (x, e)) ↦
                absurd (err-ok _ x records (rw (e, get_real_edges_connected_to_indexed) refl) run)
            | inr (inr ((rs, stats), e)) ↦
                let found =
                  ok-ok (get_real_edges_connected_to_indexed F M fuel s seeds) rs records
                    (rw (e, get_real_edges_connected_to_indexed) refl) run in
                (rs, stats, e, subst IsPass (sym found) (reach, once))
          ]

    compare-Collected :
        (fuel : ℕ) (s : MatchStore F M) (out : List (MatchRecord F) × ConnectedEdgeStats)
        → Represents F M s m
        → All (IsUuid F) seeds
        → length seeds + 2 * length (M.entries s.adjacency) < fuel
        → compare_index F M fuel s seeds out ≡ some (s, ok out)
    unfolding compare_index
    compare-Collected fuel s out h small lt = elim (Bool-cases (is_adjacency_built F M s)) [
      | inl t ↦
          let (records, stats, run, reach) = index-Collected fuel s h small lt in
          let silent =
            indexed-image F (λ (rs : List (MatchRecord F)) r. rs ++ r ∷ []) (λ u r. u) (λ rs. tt)
              (λ a r. refl) M fuel s seeds [] in
          let run' =
            silent
            ∙ ap
                (image_read F (λ (rs : List (MatchRecord F)) r. rs ++ r ∷ []) (λ (u : Unit) r. u)
                  (λ rs. tt) (λ a r. refl))
                run in
          rw t (rw run' refl)
      | inr f ↦ rw f refl
    ]

    -- In every mode, from seeds of 128 bits in a store that holds some edges, and with fuel for the
    -- scan and for the walk, the pass ends and collects exactly the edges that are no self-edges and
    -- that the seeds reach, each of them once; the store keeps its tables.
    pub stream-Reached :
        (fuel : ℕ) (s : MatchStore F M) (mode : EdgeLookupMode)
        → Represents F M s m
        → All (IsUuid F) seeds
        → length seeds + 2 * length (M.entries s.adjacency) < fuel
        → 2 * length (M.entries s.matches) < fuel
        → (k : ℕ) × (records : List (MatchRecord F)) × (stats : ConnectedEdgeStats)
          × (stream_connected_matches F M fuel s seeds mode (collect F M) []
              ≡ some (counted F M s k, ok (records, stats)))
          × IsPass records
    unfolding stream_connected_matches visit_real_edges_connected_to_auto
    stream-Reached fuel s scan h small lt₁ lt₂ = scan-Collected fuel s h lt₂
    stream-Reached fuel s auto h small lt₁ lt₂ = elim (Bool-cases (is_adjacency_built F M s)) [
      | inl t ↦
          let (records, stats, run, reach) = index-Collected fuel s h small lt₁ in
          (
            0,
            records,
            stats,
            rw t (rw run (ap (λ v. some (v, ok (records, stats))) (counted-zero s))),
            reach,
          )
      | inr f ↦ rw f (scan-Collected fuel s h lt₂)
    ]
    stream-Reached fuel s shadow h small lt₁ lt₂ =
        let (k, records, stats, run, reach) = scan-Collected fuel s h lt₂ in
        (
          k,
          records,
          stats,
          rw (run, stream_connected_matches)
              (compare-Collected fuel (counted F M s k) (records, stats) h small lt₁),
          reach,
        )

    -- In every mode, from seeds of 128 bits in a store that holds some edges, and with fuel for the
    -- scan and for the walk, a pass with a visitor that does not fail ends, keeps the tables of the
    -- store, and returns the fold of the visitor over a list that has every edge that is no self-edge
    -- and that the seeds reach, once, and no other record.
    pub stream_connected_matches-IsReached :
        {A : Type 0} (step : A → MatchRecord F → A) (acc : A) (fuel : ℕ) (s : MatchStore F M)
        (mode : EdgeLookupMode)
        → Represents F M s m
        → All (IsUuid F) seeds
        → length seeds + 2 * length (M.entries s.adjacency) < fuel
        → 2 * length (M.entries s.matches) < fuel
        → (k : ℕ) × (records : List (MatchRecord F)) × (stats : ConnectedEdgeStats)
          × (stream_connected_matches F M fuel s seeds mode (λ a r. ok (step a r)) acc
              ≡ some (counted F M s k, ok (foldl step acc records, stats)))
          × IsReached records
          × IsUnrepeated F records
    stream_connected_matches-IsReached step acc fuel s mode h small lt₁ lt₂ =
        let (k, records, stats, run, reach) = stream-Reached fuel s mode h small lt₁ lt₂ in
        let pass = stream_connected_matches-foldl F M step acc fuel s seeds mode in
        (k, records, stats, pass ∙ rw run refl, reach.0, reach.1)
