-- ===== src/Dedupe/Transitivity/Stability.antt =====
-- Further properties of the resolution of src/dedupe/mod.rs: the metrics, the roots that stay, and
-- the agreement of the two implementations.
use incrededup.Base.{
  ◌<◌, some, ◌≤◌, ◌^◌, ◌*◌, ℕ, ◌≡◌, refl, sym, ap, subst, All, false, List, [], ◌∷◌, Elem, ⊎_elim,
}
use incrededup.Dedupe.Transitivity.Metrics.{HasMetrics, assignment-HasMetrics}
use incrededup.Match.{MatchRecord, Float, DupeMatch}
use incrededup.Table.{Table}
use incrededup.UnionFind.{Uuid}
use incrededup.UnionFind.Components.{Conn, Conn-start, IsBounded}
use incrededup.Dedupe.Transitivity.{is_self, Best, Resolved, sorted}
use incrededup.Dedupe.Transitivity.Keys.{match_root_key-root_key, Canonical-preferred}
use incrededup.Dedupe.Transitivity.Edges.{ends, real, join_matches-real}
use incrededup.Dedupe.Transitivity.Nodes.{resolve_match_node-resolve_node}
use incrededup.Dedupe.Transitivity.{
  root_key, extend_ids, explicit_parents, resolve_transitivity_with_preferred_roots,
  resolve_transitivity_streamed,
}
use incrededup.Dedupe.Transitivity.Results.{core, resolve_transitivity_streamed-IsResolution}

module _ (F : Float) (M : Table Uuid Uuid) (B : Table Uuid (Best F)) (sim pct : F.F64) where
  -- With fuel above every root key and edges between ids of 128 bits, the metrics of an assignment
  -- in the result are those of an edge at its document, and no edge there has a greater similarity.
  pub resolve_transitivity_streamed-metrics :
      (fuel : ℕ) (edges : List (MatchRecord F)) (preferred new_docs : List Uuid) (r : Resolved F)
      (a : DupeMatch F)
      → 3 * 2 ^ 128 ≤ fuel
      → All (IsBounded (2 ^ 128)) (ends F edges)
      → resolve_transitivity_streamed F M B sim pct fuel edges preferred new_docs ≡ some r
      → Elem a r.assignments
      → HasMetrics F M B edges a
  unfolding resolve_transitivity_streamed
  resolve_transitivity_streamed-metrics fuel edges preferred new_docs r a le low ran m =
      let (uf, best, r', run₁, run₂, all, h) =
        core F M B sim pct fuel edges preferred new_docs [] le low in
      let ran' : resolve_transitivity_streamed F M B sim pct fuel edges preferred new_docs
          ≡ some (sorted F r') =
        rw (run₁, run₂) in
      let same : sorted F r' ≡ r = cc in
      let (can, ne, e) = h.assigned_in a (subst (λ t. Elem a t.assignments) (sym same) m) in
      let start_of = ⊎_elim (λ f. absurd (ne (sym f))) (λ k. k) (Conn-start can.connected) in
      subst (HasMetrics F M B edges) (sym e)
        (assignment-HasMetrics F M B edges best sim pct a.child_id a.parent_id all start_of)

  explicit_nothing :
      (ms : List (MatchRecord F)) (ids : List Uuid)
      → All (λ e. is_self F e ≡ false) ms
      → explicit_parents F ms ids ≡ ids
  unfolding explicit_parents
  explicit_nothing [] ids h = refl
  explicit_nothing (m ∷ ms) ids h = rw h.0 (explicit_nothing ms ids h.1)

  real-All : (ms : List (MatchRecord F)) → All (λ e. is_self F e ≡ false) ms → real F ms ≡ ms
  real-All [] h = refl
  real-All (m ∷ ms) h = rw h.0 (ap (λ t. m ∷ t) (real-All ms h.1))

  -- With fuel above every root key and edges between ids of 128 bits, a document with an assignment
  -- in the result, and whose component holds a preferred document of 128 bits, is assigned to a
  -- preferred document.
  pub resolve_transitivity_streamed-preferred :
      (fuel : ℕ) (edges : List (MatchRecord F)) (preferred new_docs : List Uuid) (r : Resolved F)
      (a : DupeMatch F) (p : Uuid)
      → 3 * 2 ^ 128 ≤ fuel
      → All (IsBounded (2 ^ 128)) (ends F edges)
      → resolve_transitivity_streamed F M B sim pct fuel edges preferred new_docs ≡ some r
      → Elem a r.assignments
      → Conn (ends F edges) a.child_id p
      → p < 2 ^ 128
      → Elem p preferred
      → Elem a.parent_id preferred
  resolve_transitivity_streamed-preferred fuel edges preferred new_docs r a p le low ran m c lt mp =
      let (r', best, run', all, h) =
        resolve_transitivity_streamed-IsResolution F M B sim pct fuel edges preferred new_docs le
          low in
      let same : r' ≡ r = cc in
      let (can, _, _) = h.assigned_in a (subst (λ t. Elem a t.assignments) (sym same) m) in
      Canonical-preferred preferred new_docs (ends F edges) a.child_id a.parent_id p lt can c mp

  -- On edges none of which is a self-parent record, and at least one, the two implementations of
  -- the resolution, from a list and from a stream of edges, give the same result.
  pub batch-eq-streamed :
      (fuel : ℕ) (m : MatchRecord F) (ms : List (MatchRecord F)) (preferred new_docs : List Uuid)
      → All (λ e. is_self F e ≡ false) (m ∷ ms)
      → resolve_transitivity_with_preferred_roots F M B sim pct fuel (m ∷ ms) preferred new_docs
        ≡ resolve_transitivity_streamed F M B sim pct fuel (m ∷ ms) preferred new_docs
  unfolding resolve_transitivity_with_preferred_roots resolve_transitivity_streamed extend_ids
  batch-eq-streamed fuel m ms preferred new_docs h =
      let key = root_key preferred new_docs in
      let skipped = join_matches-real F M B key fuel (m ∷ ms) (M.empty, B.empty) in
      rw (
        explicit_nothing (m ∷ ms) [] h,
        match_root_key-root_key,
        skipped,
        real-All (m ∷ ms) h,
        resolve_match_node-resolve_node F M B sim pct,
      )
