-- ===== src/Storage/Progress/Laws.antt =====
-- `StateStore` of src/storage/mod.rs: what is read after a write of the progress, of one field, and
-- after a reset.
use incrededup.Base.{
  ℕ, ◌%◌, ◌^◌, ◌<◌, ◌≡◌, ◌≢◌, ◌⊎◌, inl, inr, refl, sym, ap, ◌∙◌, subst, true, false, Option, none,
  some, List, [], ◌∷◌, if◌then◌else◌, ◌==◌, ==-cases, arith, All, Elem, le_bytes, length-le_bytes,
  le_value-le_bytes,
}
use incrededup.Table.{Table}
use incrededup.Storage.{Bytes}
use incrededup.Storage.Progress.{
  SyncStep, not_started, writing_dupes, marking_parents, marking_children, completed, step_code,
  step_from, SyncField, step, dupes_written, dupes_total, parents_marked, parents_total,
  children_marked, children_total, started_at, completed_at, SyncProgress, get_u64, set_u64,
  get_sync_progress, set_all, fields_of, set_sync_progress, update_sync_field, remove_all,
  reset_sync_progress, is_sync_in_progress, is_sync_completed,
}

-- A number for each field.
abbrev code : SyncField → ℕ
code step = 0
code dupes_written = 1
code dupes_total = 2
code parents_marked = 3
code parents_total = 4
code children_marked = 5
code children_total = 6
code started_at = 7
code completed_at = 8

abbrev field_of : ℕ → SyncField
field_of n =
    if n == 0
    then step
    else if n == 1
    then dupes_written
    else if n == 2
    then dupes_total
    else if n == 3
    then parents_marked
    else if n == 4
    then parents_total
    else if n == 5
    then children_marked
    else if n == 6
    then children_total
    else if n == 7
    then started_at
    else completed_at

field_of-code : (f : SyncField) → field_of (code f) ≡ f
field_of-code step = refl
field_of-code dupes_written = refl
field_of-code dupes_total = refl
field_of-code parents_marked = refl
field_of-code parents_total = refl
field_of-code children_marked = refl
field_of-code children_total = refl
field_of-code started_at = refl
field_of-code completed_at = refl

pub field-cases :
    (f g : SyncField)
    → ((code f == code g) ≡ true) × (f ≡ g) ⊎ ((code f == code g) ≡ false) × (f ≢ g)
field-cases f g = elim (==-cases (code f) (code g)) [
  | inl (t, e) ↦ inl (t, sym (field_of-code f) ∙ ap field_of e ∙ field_of-code g)
  | inr (t, n) ↦ inr (t, λ e. n (ap code e))
]

-- What the last call for a field wrote, or the value before.
abbrev last : List (SyncField × ℕ) → SyncField → ℕ → ℕ
last [] f before = before
last (w ∷ ws) f before = last ws f (if code f == code w.0 then w.1 else before)

abbrev pub IsU64 : ℕ → Type 0
IsU64 n = n < 2 ^ 64

module _ (M : Table SyncField Bytes) where
  get-set_u64 :
      (table : M.T) (key f : SyncField) (val : ℕ)
      → IsU64 val
      → get_u64 M (set_u64 M table key val) f
        ≡ (if code f == code key then val else get_u64 M table f)
  unfolding get_u64
  get-set_u64 table key f val h = elim (field-cases f key) [
    | inl (t, same) ↦
        subst
          (λ x.
            get_u64 M (set_u64 M table key val) x
            ≡ (if code f == code key then val else get_u64 M table f))
          (sym same) (here ∙ rw t refl)
    | inr (t, n) ↦
        rw (M.get-insert_ne table key f (le_bytes 8 val) n, get_u64) (rw (t, get_u64) refl)
  ]
    where
      here : get_u64 M (set_u64 M table key val) key ≡ val
      here =
          rw (M.get-insert_self table key (le_bytes 8 val), get_u64)
            (rw (length-le_bytes 8 val, get_u64) (le_value-le_bytes 8 val (omega (arith, h))))

  get-set_all :
      (ws : List (SyncField × ℕ)) (table : M.T) (f : SyncField)
      → All (λ w. IsU64 w.1) ws
      → get_u64 M (set_all M ws table) f ≡ last ws f (get_u64 M table f)
  unfolding set_all
  get-set_all [] table f h = refl
  get-set_all ((key, val) ∷ ws) table f h =
      get-set_all ws (set_u64 M table key val) f h.1
      ∙ ap (last ws f) (get-set_u64 table key f val h.0)

-- The counts and times are 64-bit.
pub record IsProgress (p : SyncProgress) : Type 0 where
  pub dupes_written : IsU64 p.dupes_written
  pub dupes_total : IsU64 p.dupes_total
  pub parents_marked : IsU64 p.parents_marked
  pub parents_total : IsU64 p.parents_total
  pub children_marked : IsU64 p.children_marked
  pub children_total : IsU64 p.children_total
  pub started_at : IsU64 p.started_at
  pub completed_at : IsU64 p.completed_at

step_from-step_code : (s : SyncStep) → (step_from (step_code s % 2 ^ 8) ≡ s) × IsU64 (step_code s)
step_from-step_code not_started = (refl, omega arith)
step_from-step_code writing_dupes = (refl, omega arith)
step_from-step_code marking_parents = (refl, omega arith)
step_from-step_code marking_children = (refl, omega arith)
step_from-step_code completed = (refl, omega arith)

module _ (M : Table SyncField Bytes) where
  -- A progress whose counts and times are 64-bit is read back as it was written.
  pub get_sync_progress-set_sync_progress :
      (table : M.T) (p : SyncProgress)
      → IsProgress p
      → get_sync_progress M (set_sync_progress M table p) ≡ p
  unfolding get_sync_progress set_sync_progress
  get_sync_progress-set_sync_progress table p h =
      let (same, small) = step_from-step_code p.step in
      let at = λ (f : SyncField). get-set_all M (fields_of M p) table f (
        small,
        (
          h.dupes_written,
          (
            h.dupes_total,
            (
              h.parents_marked,
              (
                h.parents_total,
                (h.children_marked, (h.children_total, (h.started_at, (h.completed_at, tt)))),
              ),
            ),
          ),
        ),
      ) in
      rw
        (
          at step,
          at dupes_written,
          at dupes_total,
          at parents_marked,
          at parents_total,
          at children_marked,
          at children_total,
          at started_at,
          at completed_at,
          same,
        )
        refl

  remove_all-none :
      (es : List (SyncField × Bytes)) (table : M.T) (f : SyncField)
      → (M.get table f ≡ none) ⊎ ((v : Bytes) × Elem (f, v) es)
      → M.get (remove_all M es table) f ≡ none
  unfolding remove_all
  remove_all-none [] table f (inl e) = e
  remove_all-none [] table f (inr (v, k)) = absurd k
  remove_all-none ((key, v) ∷ es) table f h =
      remove_all-none es (M.remove table key) f (elim (field-cases f key) [
        | inl (t, same) ↦ inl (ap (M.get (M.remove table key)) same ∙ M.get-remove_self table key)
        | inr (t, n) ↦ elim h [
          | inl e ↦ inl (M.get-remove_ne table key f n ∙ e)
          | inr (w, inl k) ↦ absurd (n (ap (λ (x : SyncField × Bytes). x.0) k))
          | inr (w, inr k) ↦ inr (w, k)
        ]
      ])

  reset-get : (table : M.T) (f : SyncField) → get_u64 M (reset_sync_progress M table) f ≡ 0
  unfolding get_u64 reset_sync_progress
  reset-get table f =
      rw (remove_all-none (M.entries table) table f (held (M.get table f) refl), get_u64) refl
    where
      held :
          (o : Option Bytes)
          → M.get table f ≡ o
          → (M.get table f ≡ none) ⊎ ((v : Bytes) × Elem (f, v) (M.entries table))
      held none e = inl e
      held (some v) e = inr (v, (M.Elem-entries table f v).1 e)

  abbrev pub fresh_progress : SyncProgress
  fresh_progress = record {
    step = not_started;
    dupes_written = 0;
    dupes_total = 0;
    parents_marked = 0;
    parents_total = 0;
    children_marked = 0;
    children_total = 0;
    started_at = 0;
    completed_at = 0;
  }

  -- After a reset the progress is that of a sync that has not started, and the sync is neither in
  -- progress nor completed.
  pub reset_sync_progress_lem :
      (table : M.T)
      → (get_sync_progress M (reset_sync_progress M table) ≡ fresh_progress)
        × (is_sync_in_progress M (reset_sync_progress M table) ≡ false)
        × (is_sync_completed M (reset_sync_progress M table) ≡ false)
  unfolding get_sync_progress is_sync_in_progress is_sync_completed
  reset_sync_progress_lem table =
      let at = reset-get table in
      (
        rw
            (
              at step,
              at dupes_written,
              at dupes_total,
              at parents_marked,
              at parents_total,
              at children_marked,
              at children_total,
              at started_at,
              at completed_at,
            )
            refl,
        rw (at step, is_sync_in_progress) refl,
        rw (at step, is_sync_completed) refl,
      )

  abbrev pub with_field : SyncField → ℕ → SyncProgress → SyncProgress
  with_field step v p = record p { step = step_from (v % 2 ^ 8) }
  with_field dupes_written v p = record p { dupes_written = v }
  with_field dupes_total v p = record p { dupes_total = v }
  with_field parents_marked v p = record p { parents_marked = v }
  with_field parents_total v p = record p { parents_total = v }
  with_field children_marked v p = record p { children_marked = v }
  with_field children_total v p = record p { children_total = v }
  with_field started_at v p = record p { started_at = v }
  with_field completed_at v p = record p { completed_at = v }

  -- Every field after the update of one.
  abbrev updated : M.T → SyncField → ℕ → SyncProgress
  updated table g v =
      let at = λ (f : SyncField). if code f == code g then v else get_u64 M table f in
      record {
        step = step_from (at step % 2 ^ 8);
        dupes_written = at dupes_written;
        dupes_total = at dupes_total;
        parents_marked = at parents_marked;
        parents_total = at parents_total;
        children_marked = at children_marked;
        children_total = at children_total;
        started_at = at started_at;
        completed_at = at completed_at;
      }

  written :
      (table : M.T) (g : SyncField) (v : ℕ)
      → IsU64 v
      → get_sync_progress M (update_sync_field M table g v) ≡ updated table g v
  unfolding get_sync_progress update_sync_field
  written table g v h =
      let at = λ (f : SyncField). get-set_u64 M table g f v h in
      rw
        (
          at step,
          at dupes_written,
          at dupes_total,
          at parents_marked,
          at parents_total,
          at children_marked,
          at children_total,
          at started_at,
          at completed_at,
        )
        refl

  -- The update of one field to a 64-bit value changes that field of the progress and no other.
  pub update_sync_field_lem :
      (table : M.T) (f : SyncField) (v : ℕ)
      → IsU64 v
      → get_sync_progress M (update_sync_field M table f v)
        ≡ with_field f v (get_sync_progress M table)
  unfolding get_sync_progress update_sync_field
  update_sync_field_lem table step v h = written table step v h
  update_sync_field_lem table dupes_written v h = written table dupes_written v h
  update_sync_field_lem table dupes_total v h = written table dupes_total v h
  update_sync_field_lem table parents_marked v h = written table parents_marked v h
  update_sync_field_lem table parents_total v h = written table parents_total v h
  update_sync_field_lem table children_marked v h = written table children_marked v h
  update_sync_field_lem table children_total v h = written table children_total v h
  update_sync_field_lem table started_at v h = written table started_at v h
  update_sync_field_lem table completed_at v h = written table completed_at v h
