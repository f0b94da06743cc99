-- ===== src/Tests/SyncMode.antt =====
-- The first step of the sync mode of src/main.rs at concrete inputs.
use incrededup.Base.{
  ℕ, ◌≡◌, ◌≢◌, refl, inl, inr, true, false, some, List, [], ◌∷◌, arith, ap, ◌∙◌, Distinct, length,
  take, ok,
}
use incrededup.Table.Assoc.{assoc_get}
use incrededup.Storage.Progress.{
  SyncProgress, marking_parents, not_started, get_u64, get_sync_progress,
}
use incrededup.Db.Children.{child_of}
use incrededup.Db.Rows.{Replaced}
use incrededup.SyncMode.{write_loop, write_step, pending}
use incrededup.SyncMode.Stops.{Stopped, started, stopped, resumed}
use incrededup.SyncMode.Resume.{write_step-resumed}
use incrededup.Tests.Values.{bits}
use incrededup.Tests.Database.{Row, Rows, database}
use incrededup.Tests.Progress.{fields}

abbrev row : ℕ → ℕ → Row
row child parent = record {
  child_id = child;
  parent_id = parent;
  jaccard_similarity = true;
  size_difference = 0;
  size_difference_pct = false;
}

abbrev resolved : List Row
resolved = row 5 2 ∷ row 7 2 ∷ row 9 2 ∷ []

abbrev untouched : Rows
untouched = (row 5 7 ∷ [], (2, some true) ∷ (5, some false) ∷ [])

abbrev no_progress : fields.T
no_progress = fields.empty

-- After one chunk of one row.
abbrev cut_off : Rows × fields.T
cut_off =
    (write_loop bits database fields 1 3
      (take 1 (
        pending bits database fields 1 resolved
          (resumed bits database fields 1 resolved 1 3 10 no_progress)))
      (resumed bits database fields 1 resolved 1 3 10 no_progress) (untouched, no_progress)).0

nothing_noted : (get_sync_progress fields no_progress).step ≡ not_started
unfolding get_sync_progress get_u64 assoc_get
nothing_noted = refl

cut_off-Stopped : Stopped bits database fields 1 resolved 1 3 untouched cut_off
cut_off-Stopped =
    stopped untouched no_progress 10 1 (started no_progress nothing_noted) (omega arith)

other_child : (y : Row) (n c p : ℕ) → n ≢ c → y ≡ row c p → n ≢ y.child_id
other_child y n c p ne e f = ne (f ∙ ap (λ (r : Row). r.child_id) e)

resolved-Distinct : Distinct (child_of bits) resolved
resolved-Distinct = (
  λ y m. elim m [
    | inl e ↦ other_child y 5 7 2 (omega arith) e
    | inr (inl e) ↦ other_child y 5 9 2 (omega arith) e
    | inr (inr k) ↦ absurd k
  ],
  (
    λ y m. elim m [ inl e ↦ other_child y 7 9 2 (omega arith) e | inr k ↦ absurd k ],
    (λ y k. absurd k, tt),
  ),
)

write_step-resumed_example :
    (after : Rows) × (table : fields.T) × (progress : SyncProgress) × (write_step bits database
        fields 1 resolved
        (resumed bits database fields 1 resolved 1 3 20 cut_off.1)
        cut_off
      ≡ ((after, table), ok progress))
    × Replaced bits database resolved untouched after
    × (get_sync_progress fields table ≡ progress)
    × (progress.step ≡ marking_parents)
    × (progress.dupes_written ≡ length resolved)
write_step-resumed_example =
    write_step-resumed bits database fields 1 resolved 1 3 untouched cut_off 20 (omega arith)
      resolved-Distinct (omega arith) (omega arith) (omega arith) cut_off-Stopped (omega arith)
