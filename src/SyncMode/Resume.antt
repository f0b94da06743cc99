-- ===== src/SyncMode/Resume.antt =====
-- The run of `run_sync_mode` in src/main.rs that completes the first step after runs that were stopped.
use incrededup.Base.{
  ℕ, ◌+◌, ◌<◌, ◌≡◌, refl, sym, ap, ◌∙◌, subst, arith, List, [], ◌++◌, append_nil, Elem-append,
  Distinct, Distinct-append, length, length-append, concat, ok,
}
use incrededup.Match.{Float, DupeMatch}
use incrededup.Table.{Table}
use incrededup.Storage.{Bytes}
use incrededup.Storage.Progress.{
  writing_dupes, marking_parents, SyncField, SyncProgress, get_sync_progress, set_sync_progress,
}
use incrededup.Storage.Progress.Laws.{IsU64, get_sync_progress-set_sync_progress}
use incrededup.Db.{Database}
use incrededup.Db.Children.{child_of}
use incrededup.Db.Rows.{Replaced}
use incrededup.SyncMode.{pending, write_loop, write_step, finish_dupes}
use incrededup.SyncMode.Loop.{at_row, write_loop-Ran}
use incrededup.SyncMode.Stops.{Stopped, Stopped-Inv, resumed, begun, pending-concat, rows_again}

module _ (F : Float) (D : Database F) (T : Table SyncField Bytes) (batch : ℕ)
    (resolved : List (DupeMatch F)) (parents_total children_total : ℕ) where
  write_step-run :
      (p : SyncProgress) (st : D.Db × T.T)
      → p.step ≡ writing_dupes
      → write_step F D T batch resolved p st
        ≡ finish_dupes F D T
            (write_loop F D T batch (length resolved) (pending F D T batch resolved p) p st)
  unfolding write_step
  write_step-run p st e = simp (e, write_step)

  -- Where a sync of resolved assignments, no child twice, was stopped any number of times, each
  -- time after any number of its chunks, or when the rows of the next chunk were written and not
  -- counted, a run that is not stopped completes the step: the database has what one run without
  -- stops leaves, all rows in the place of those of their children, and the state store has the next
  -- step with all rows counted. The batch size is positive, and the counts and times are below
  -- 2 ^ 64.
  pub write_step-resumed :
      (db₀ : D.Db) (st : D.Db × T.T) (now : ℕ)
      → 0 < batch
      → Distinct (child_of F) resolved
      → IsU64 (length resolved)
      → IsU64 parents_total
      → IsU64 children_total
      → Stopped F D T batch resolved parents_total children_total db₀ st
      → IsU64 now
      → (db' : D.Db) × (table' : T.T) × (progress : SyncProgress) × (write_step F D T batch resolved
            (resumed F D T batch resolved parents_total children_total now st.1)
            st
          ≡ ((db', table'), ok progress))
        × Replaced F D resolved db₀ db'
        × (get_sync_progress T table' ≡ progress)
        × (progress.step ≡ marking_parents)
        × (progress.dupes_written ≡ length resolved)
  write_step-resumed db₀ st now lt d small small_parents small_children s h =
      let i =
        Stopped-Inv F D T batch resolved parents_total children_total db₀ lt d small small_parents
          small_children st s in
      let p = resumed F D T batch resolved parents_total children_total now st.1 in
      let (step, n, fits) =
        begun F D T batch resolved parents_total children_total db₀ lt d small small_parents
          small_children now (get_sync_progress T st.1) i.a h i.noted in
      let rest = i.b ++ i.c in
      let left =
        pending-concat F D T batch resolved parents_total children_total db₀ lt d small
          small_parents small_children i.a rest p i.whole n in
      let cs = pending F D T batch resolved p in
      let ends =
        (Distinct-append (child_of F) i.a rest (subst (Distinct (child_of F)) i.whole d)).1 in
      let count : p.dupes_written + length (concat cs) ≡ length resolved =
        omega (arith, n, ap length left, ap length i.whole, length-append i.a rest) in
      let (db', table', run, new, noted) =
        write_loop-Ran F D T batch (length resolved) cs p st.0 st.1
          (subst (Distinct (child_of F)) (sym left) ends) fits (subst IsU64 (sym count) small) in
      let next : SyncProgress = record (at_row (length resolved) p) { step = marking_parents } in
      (
        db',
        set_sync_progress T table' next,
        next,
        write_step-run p st step
            ∙ ap (finish_dupes F D T) (run ∙ ap (λ k. ((db', table'), ok (at_row k p))) count),
        subst (λ l. Replaced F D l db₀ db') (sym i.whole)
            (rows_again F D T batch resolved parents_total children_total db₀ lt d small
              small_parents small_children i.a i.b i.c rest [] rest st.0 db' i.whole
              (i.whole ∙ ap (λ l. i.a ++ l) (sym (append_nil rest)))
              (λ m. ground (arith, Elem-append m i.b i.c)) i.rows
              (subst (λ l. Replaced F D l st.0 db') left new)),
        get_sync_progress-set_sync_progress T table' next (record {
          dupes_written = small;
          dupes_total = fits.dupes_total;
          parents_marked = fits.parents_marked;
          parents_total = fits.parents_total;
          children_marked = fits.children_marked;
          children_total = fits.children_total;
          started_at = fits.started_at;
          completed_at = fits.completed_at;
        }),
        refl,
        refl,
      )
