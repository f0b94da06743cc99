-- ===== src/SyncMode/Loop.antt =====
-- The loop of `run_sync_mode` in src/main.rs over the chunks: the rows, and what the state store has.
use incrededup.Base.{
  ℕ, ◌+◌, ◌%◌, ◌^◌, ◌≡◌, ◌⊎◌, inl, inr, refl, sym, ap, ◌∙◌, subst, Bool-cases, ◌||◌, ltb, ◌==◌,
  arith, List, [], ◌∷◌, ◌++◌, append_assoc, Distinct, Distinct-append, length, length-append,
  concat, ok,
}
use incrededup.Match.{Float, DupeMatch}
use incrededup.Table.{Table}
use incrededup.Storage.{Bytes}
use incrededup.Storage.Progress.{SyncField, SyncProgress, get_sync_progress}
use incrededup.Storage.Progress.Laws.{IsProgress, IsU64, get_sync_progress-set_sync_progress}
use incrededup.Db.{Database}
use incrededup.Db.Children.{child_of}
use incrededup.Db.Rows.{Replaced, Replaced-nil, Replaced-trans, write_dupes-Replaced}
use incrededup.SyncMode.{
  checkpoint, report_interval, and_next, after_write, write_chunk, write_loop,
}

-- A progress with another count of rows.
abbrev pub at_row : ℕ → SyncProgress → SyncProgress
at_row n p = record p { dupes_written = n }

pub IsProgress-at_row :
    (n : ℕ) (p : SyncProgress) → IsU64 n → IsProgress p → IsProgress (at_row n p)
IsProgress-at_row n p lt h = record {
  dupes_written = lt;
  dupes_total = h.dupes_total;
  parents_marked = h.parents_marked;
  parents_total = h.parents_total;
  children_marked = h.children_marked;
  children_total = h.children_total;
  started_at = h.started_at;
  completed_at = h.completed_at;
}

module _ (F : Float) (D : Database F) (T : Table SyncField Bytes) where
  -- The store has the progress from before, or the one after some beginning of the rows.
  abbrev pub Noted : List (DupeMatch F) → SyncProgress → T.T → T.T → Type 0
  Noted rows p table table' =
      (get_sync_progress T table' ≡ get_sync_progress T table)
      ⊎ ((x : List (DupeMatch F)) × (y : List (DupeMatch F)) × (rows ≡ x ++ y)
          × (get_sync_progress T table' ≡ at_row (p.dupes_written + length x) p))

  checkpoint-cases :
      (batch total : ℕ) (p : SyncProgress) (table : T.T)
      → IsProgress p
      → (get_sync_progress T (checkpoint F D T batch total p table) ≡ get_sync_progress T table)
        ⊎ (get_sync_progress T (checkpoint F D T batch total p table) ≡ p)
  unfolding checkpoint
  checkpoint-cases batch total p table h =
      elim (Bool-cases
        (ltb (p.dupes_written % report_interval total) batch || p.dupes_written == total)) [
          | inl t ↦ inr (rw t (get_sync_progress-set_sync_progress T table p h))
          | inr f ↦ inl (rw f refl)
        ]

  abbrev Ran : ℕ → ℕ → List (List (DupeMatch F)) → SyncProgress → D.Db → T.T → Type 0
  Ran batch total cs p db table =
      (db' : D.Db) × (table' : T.T) × (write_loop F D T batch total cs p (db, table)
        ≡ ((db', table'), ok (at_row (p.dupes_written + length (concat cs)) p)))
      × Replaced F D (concat cs) db db'
      × Noted (concat cs) p table table'

  pub write_loop-Ran :
      (batch total : ℕ) (cs : List (List (DupeMatch F))) (p : SyncProgress) (db : D.Db)
      (table : T.T)
      → Distinct (child_of F) (concat cs)
      → IsProgress p
      → IsU64 (p.dupes_written + length (concat cs))
      → Ran batch total cs p db table
  unfolding write_loop write_chunk concat
  write_loop-Ran batch total [] p db table d h lt = (
    db,
    table,
    ap (λ n. ((db, table), ok (at_row n p))) (omega arith),
    Replaced-nil F D db,
    inl refl,
  )
  write_loop-Ran batch total (c ∷ cs) p db table d h lt =
      let (first, rest, apart) = Distinct-append (child_of F) c (concat cs) d in
      let sizes = length-append c (concat cs) in
      let (db₁, run₁, r₁) = write_dupes-Replaced F D db c first in
      let small : IsU64 (p.dupes_written + length c) = omega arith in
      let count : (p.dupes_written + length c) % 2 ^ 64 ≡ p.dupes_written + length c =
        omega arith in
      let p₁ = at_row (p.dupes_written + length c) p in
      let table₁ = checkpoint F D T batch total p₁ table in
      let sum : p.dupes_written + length c + length (concat cs)
          ≡ p.dupes_written + length (c ++ concat cs) =
        omega arith in
      let (db₂, table₂, run₂, r₂, noted) =
        write_loop-Ran batch total cs p₁ db₁ table₁ rest (IsProgress-at_row _ p small h)
          (subst IsU64 (sym sum) lt) in
      (
        db₂,
        table₂,
        ap (and_next F D T (write_loop F D T batch total cs)) (
              ap (after_write F D T batch total p (length c) table) run₁
              ∙ ap (λ n. ((db₁, checkpoint F D T batch total (at_row n p) table), ok (at_row n p)))
                  count)
            ∙ run₂
            ∙ ap (λ n. ((db₂, table₂), ok (at_row n p))) sum,
        Replaced-trans F D c (concat cs) db db₁ db₂ d r₁ r₂,
        elim noted [
          | inl same ↦
              elim (checkpoint-cases batch total p₁ table (IsProgress-at_row _ p small h)) [
                | inl old ↦ inl (same ∙ old)
                | inr new ↦ inr (c, concat cs, refl, same ∙ new)
              ]
          | inr (x, y, e, g) ↦
              let rows : p.dupes_written + length c + length x ≡ p.dupes_written + length (c ++ x) =
                omega (arith, length-append c x) in
              inr (
                c ++ x,
                y,
                ap (λ l. c ++ l) e ∙ sym (append_assoc c x y),
                g ∙ ap (λ n. at_row n p) rows,
              )
        ],
      )
