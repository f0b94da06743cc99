-- ===== src/Storage/Progress.antt =====
-- src/storage/mod.rs: `StateStore`, the progress of a sync that is stopped and resumed. The table
-- `sync_state` has the names of the fields for keys and eight bytes for values. A write is a
-- transaction that is committed.
pub mod Laws
use incrededup.Base.{
  ℕ, ◌%◌, ◌^◌, Bool, true, false, ◌&&◌, not, Option, none, some, List, [], ◌∷◌, if◌then◌else◌, ◌==◌,
  length, le_bytes, le_value,
}
use incrededup.Table.{Table}
use incrededup.Storage.{Bytes}

pub data SyncStep : Type 0 where
  not_started : SyncStep
  writing_dupes : SyncStep
  marking_parents : SyncStep
  marking_children : SyncStep
  completed : SyncStep

-- `progress.step as u64`
abbrev pub step_code : SyncStep → ℕ
step_code not_started = 0
step_code writing_dupes = 1
step_code marking_parents = 2
step_code marking_children = 3
step_code completed = 4

abbrev pub step_from : ℕ → SyncStep
step_from v =
    if v == 1
    then writing_dupes
    else if v == 2
    then marking_parents
    else if v == 3
    then marking_children
    else if v == 4
    then completed
    else not_started

-- The keys of the table.
pub data SyncField : Type 0 where
  step : SyncField
  dupes_written : SyncField
  dupes_total : SyncField
  parents_marked : SyncField
  parents_total : SyncField
  children_marked : SyncField
  children_total : SyncField
  started_at : SyncField
  completed_at : SyncField

pub record SyncProgress : Type 0 where
  pub step : SyncStep
  pub dupes_written : ℕ
  pub dupes_total : ℕ
  pub parents_marked : ℕ
  pub parents_total : ℕ
  pub children_marked : ℕ
  pub children_total : ℕ
  pub started_at : ℕ
  pub completed_at : ℕ

module _ (M : Table SyncField Bytes) where
  -- A value that is not of eight bytes counts as none, and none as 0.
  unfoldable pub get_u64 : M.T → SyncField → ℕ
  get_u64 table key = elim (M.get table key) [
    | none ↦ 0
    | some v ↦ if length v == 8 then le_value v else 0
  ]

  abbrev pub set_u64 : M.T → SyncField → ℕ → M.T
  set_u64 table key val = M.insert table key (le_bytes 8 val)

  unfoldable pub get_sync_progress : M.T → SyncProgress
  unfolding get_u64
  get_sync_progress table = record {
    step = step_from (get_u64 table step % 2 ^ 8);
    dupes_written = get_u64 table dupes_written;
    dupes_total = get_u64 table dupes_total;
    parents_marked = get_u64 table parents_marked;
    parents_total = get_u64 table parents_total;
    children_marked = get_u64 table children_marked;
    children_total = get_u64 table children_total;
    started_at = get_u64 table started_at;
    completed_at = get_u64 table completed_at;
  }

  -- The calls of `set_u64`, in order.
  unfoldable pub set_all : List (SyncField × ℕ) → M.T → M.T
  set_all [] table = table
  set_all ((key, val) ∷ rest) table = set_all rest (set_u64 table key val)

  abbrev pub fields_of : SyncProgress → List (SyncField × ℕ)
  fields_of p =
      (step, step_code p.step)
      ∷ (dupes_written, p.dupes_written)
      ∷ (dupes_total, p.dupes_total)
      ∷ (parents_marked, p.parents_marked)
      ∷ (parents_total, p.parents_total)
      ∷ (children_marked, p.children_marked)
      ∷ (children_total, p.children_total)
      ∷ (started_at, p.started_at)
      ∷ (completed_at, p.completed_at)
      ∷ []

  unfoldable pub set_sync_progress : M.T → SyncProgress → M.T
  unfolding set_all
  set_sync_progress table progress = set_all (fields_of progress) table

  unfoldable pub update_sync_field : M.T → SyncField → ℕ → M.T
  update_sync_field table field value = M.insert table field (le_bytes 8 value)

  unfoldable pub remove_all : List (SyncField × Bytes) → M.T → M.T
  remove_all [] table = table
  remove_all ((key, v) ∷ rest) table = remove_all rest (M.remove table key)

  unfoldable pub reset_sync_progress : M.T → M.T
  unfolding remove_all
  reset_sync_progress table = remove_all (M.entries table) table

  -- The two tests read the step of the progress.
  unfoldable pub is_sync_in_progress : M.T → Bool
  unfolding get_sync_progress
  is_sync_in_progress table = elim (get_sync_progress table).step [
    | not_started ↦ false
    | completed ↦ false
    | s ↦ true
  ]

  unfoldable pub is_sync_completed : M.T → Bool
  unfolding get_sync_progress
  is_sync_completed table = elim (get_sync_progress table).step [ completed ↦ true | s ↦ false ]
