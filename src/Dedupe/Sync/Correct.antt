-- ===== src/Dedupe/Sync/Correct.antt =====
-- `perform_incremental_sync_streaming` of src/dedupe/mod.rs, from the store to the database.
use incrededup.Base.{
  ℕ, ◌+◌, ◌*◌, ◌^◌, ◌≤◌, ◌<◌, ◌≡◌, ◌↔◌, inl, inr, refl, sym, subst, true, some, List, [], ◌∷◌, Elem,
  All, Distinct, Distinct-filter, length, filter, contains, ok, ==-cases, arith, ap,
}
use incrededup.Match.{Float, MatchRecord, DupeMatch}
use incrededup.Table.{Table}
use incrededup.UnionFind.{Uuid}
use incrededup.UnionFind.Components.{Endpoint}
use incrededup.Storage.{Bytes}
use incrededup.Storage.Matches.{MatchStore}
use incrededup.Storage.Matches.Edges.{Edges, IsUuid}
use incrededup.Storage.Matches.Insert.{Represents}
use incrededup.Storage.Scan.{to_set, counted}
use incrededup.Db.{Database, Held, fetch_parent_ids_by_doc_ids, fetch_dupe_parents_by_child_ids}
use incrededup.Db.Children.{child_of}
use incrededup.Db.Rows.{OneParent}
use incrededup.Db.Fetch.{Elem-fetch_parent_ids}
use incrededup.Dedupe.Stream.{EdgeLookupMode}
use incrededup.Dedupe.Stream.Reach.{IsReached, stream-Reached}
use incrededup.Dedupe.Transitivity.{Best, root_key}
use incrededup.Dedupe.Transitivity.Edges.{ends}
use incrededup.Dedupe.Transitivity.Keys.{root_key-Keyed}
use incrededup.Dedupe.Transitivity.Results.{resolve_transitivity_streamed-IsResolution}
use incrededup.Dedupe.Sync.{
  pos, returned, on_store, batch_size_usize, Phase3SyncOutcome, assignments_requiring_write,
  perform_incremental_sync_streaming,
}
use incrededup.Dedupe.Sync.Resolve.{discover-Endpoint, resolve_connected-streamed, ends-IsBounded}
use incrededup.Dedupe.Sync.Steps.{apply_resolution-Marked}
use incrededup.Dedupe.Sync.Laws.{IsSynced, applied-IsSynced}

module _ (F : Float) where
  ends-Endpoint :
      (ts : List (MatchRecord F)) (r : MatchRecord F)
      → Elem r ts
      → Endpoint (ends F ts) r.child_id × Endpoint (ends F ts) r.parent_id
  ends-Endpoint [] r m = absurd m
  ends-Endpoint (t ∷ ts) r (inl e) = (
    inl (ap (λ (a : MatchRecord F). a.child_id) e),
    inr (inl (ap (λ (a : MatchRecord F). a.parent_id) e)),
  )
  ends-Endpoint (t ∷ ts) r (inr m) = let (a, b) = ends-Endpoint ts r m in (inr (inr a), inr (inr b))

  Endpoint_mono :
      (rs ts : List (MatchRecord F)) (x : Uuid)
      → ((r : MatchRecord F) → Elem r rs → Elem r ts)
      → Endpoint (ends F rs) x
      → Endpoint (ends F ts) x
  Endpoint_mono [] ts x sub e = absurd e
  Endpoint_mono (r ∷ rs) ts x sub (inl e) =
      subst (Endpoint (ends F ts)) (sym e) (ends-Endpoint ts r (sub r (inl refl))).0
  Endpoint_mono (r ∷ rs) ts x sub (inr (inl e)) =
      subst (Endpoint (ends F ts)) (sym e) (ends-Endpoint ts r (sub r (inl refl))).1
  Endpoint_mono (r ∷ rs) ts x sub (inr (inr e)) = Endpoint_mono rs ts x (λ t m. sub t (inr m)) e

batch_size_usize-pos : (n : ℕ) → 0 < n → batch_size_usize (pos n) ≡ ok n
unfolding batch_size_usize
batch_size_usize-pos n lt = elim (==-cases n 0) [
  | inl (t, e) ↦ absurd (omega arith)
  | inr (f, ne) ↦ rw f refl
]

once :
    (P : Table Uuid Uuid) (F : Float) (resolved : List (DupeMatch F)) (new_set : List Uuid)
    (parents : P.T)
    → Distinct (child_of F) resolved
    → Distinct (child_of F) (assignments_requiring_write P F resolved new_set parents)
unfolding assignments_requiring_write
once P F resolved new_set parents d = Distinct-filter (child_of F) _ resolved d

module _ (F : Float) (S : Table Bytes Bytes) (D : Database F) (H : Table Uuid (Held F))
    (P U : Table Uuid Uuid) (B : Table Uuid (Best F)) (sim pct : F.F64) where
  scans_sum :
      (s : MatchStore F S) (j k : ℕ) (db : D.Db) (out : Phase3SyncOutcome)
      → returned F S D.Db (ok out) (counted F S (counted F S s j) k, db)
        ≡ some ((counted F S s (j + k), db), ok out)
  scans_sum s j k db out =
      let sum : s.full_scans + j + k ≡ s.full_scans + (j + k) = omega arith in
      ap (λ n. returned F S D.Db (ok out) (record s { full_scans = n }, db)) sum

  -- A sync of a store that holds some edges returns, when the batch size is positive, the seeds are
  -- ids of 128 bits, no child has two rows in the database, and the fuel is above every root key
  -- and enough for the scan and the walk. In every mode, the database then agrees with the
  -- components of the edges that the seeds reach: preferred are their documents that were flagged
  -- as parents, and no child has two rows; the store keeps its tables.
  pub perform_incremental_sync_streaming-IsSynced :
      (fuel : ℕ) (s : MatchStore F S) (db : D.Db) (m : Edges F) (seeds new_docs : List Uuid)
      (mode : EdgeLookupMode) (size : ℕ)
      → Represents F S s m
      → OneParent F D db
      → All (IsUuid F) seeds
      → 0 < size
      → 3 * 2 ^ 128 ≤ fuel
      → length seeds + 2 * length (S.entries s.adjacency) < fuel
      → 2 * length (S.entries s.matches) < fuel
      → (scans : ℕ) × (db' : D.Db) × (outcome : Phase3SyncOutcome) × (records : List
          (MatchRecord F))
        × (preferred : List Uuid) × (perform_incremental_sync_streaming F S D H P U B sim pct fuel
              seeds new_docs mode
              (pos size)
              (s, db)
            ≡ some ((counted F S s scans, db'), ok outcome))
        × IsReached F S m seeds records
        × ((x : Uuid)
            → Elem x preferred ↔ (Endpoint (ends F records) x × (D.flag db x ≡ some (some true))))
        × IsSynced F D (root_key preferred (to_set new_docs [])) (ends F records) new_docs db db'
  unfolding perform_incremental_sync_streaming
  perform_incremental_sync_streaming-IsSynced fuel s db m seeds new_docs mode size h one small lt le
        lt₁ lt₂ =
      let (k₁, found, stats, run₁, whole₁) =
        stream-Reached F S m seeds fuel s mode h small lt₁ lt₂ in
      let s₁ = counted F S s k₁ in
      let (ids, run_ids, in_ids) = discover-Endpoint F S fuel s s₁ seeds mode found stats run₁ in
      let (k₂, records, stats₂, run₂, whole₂) =
        stream-Reached F S m seeds fuel s₁ mode h small lt₁ lt₂ in
      let s₂ = counted F S s₁ k₂ in
      let new_set = to_set new_docs [] in
      let preferred = fetch_parent_ids_by_doc_ids F D db ids in
      let parents = fetch_dupe_parents_by_child_ids F D H P db ids in
      let low = ends-IsBounded F m records h.matches.keyed (λ r i. ((whole₂.0 r).0 i).0) in
      let (r, best, run_r, kept, res) =
        resolve_transitivity_streamed-IsResolution F U B sim pct fuel records preferred new_set le
          low in
      let run_c =
        resolve_connected-streamed F U B sim pct S fuel s₁ s₂ seeds mode preferred new_set records
          stats₂ r run₂ run_r in
      let (db₁, db₂, db₃, run_w, h₁, h₂, h₃) =
        apply_resolution-Marked F S D H P U B sim pct size r new_docs new_set preferred parents s₂
          db lt res.distinct in
      let within : (x : Uuid) → Elem x ids ↔ Endpoint (ends F records) x = λ x. (
        λ i.
            Endpoint_mono F found records x (λ t j. (whole₂.0 t).1 ((whole₁.0 t).0 j))
              ((in_ids x).0 i),
        λ e.
            (in_ids x).1
              (Endpoint_mono F records found x (λ t j. (whole₁.0 t).1 ((whole₂.0 t).0 j)) e),
      ) in
      (
        k₁ + k₂,
        db₃,
        record {
          connected_edges = stats.edges_streamed;
          new_children = length (filter (contains new_set) r.child_ids);
        },
        records,
        preferred,
        rw (batch_size_usize-pos size lt, perform_incremental_sync_streaming)
            (rw (run_ids, on_store) (rw (run_c, on_store) (rw run_w (scans_sum s k₁ k₂ db₃ _)))),
        whole₂.0,
        λ x. (
          λ i. let (a, b) = (Elem-fetch_parent_ids F D db ids x).0 i in ((within x).0 a, b),
          λ t. (Elem-fetch_parent_ids F D db ids x).1 ((within x).1 t.0, t.1),
        ),
        applied-IsSynced F D H P U B sim pct best (root_key preferred new_set) fuel (ends F records)
            r ids new_docs db db₁ db₂ db₃ (root_key-Keyed preferred new_set fuel le) low res one
            within h₁ h₂ h₃ (once P F r.assignments new_set parents res.distinct),
      )
