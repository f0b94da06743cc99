-- ===== src/SyncMode.antt =====
-- The first step of `run_sync_mode` in src/main.rs, which writes all assignments to the database and
-- records how many in the state store, so that a run that was stopped is resumed. `now` is the time
-- in seconds, and messages are left out.
pub mod Rows
pub mod Loop
pub mod Stops
pub mod Resume
use incrededup.Base.{
  ℕ, ◌+◌, ◌/◌, ◌%◌, ◌^◌, max, Bool, true, false, ◌||◌, List, [], ◌∷◌, if◌then◌else◌, ◌==◌, ltb,
  length, drop, chunks, Result, err, ok,
}
use incrededup.Match.{Float, DupeMatch}
use incrededup.Table.{Table}
use incrededup.Storage.{Bytes}
use incrededup.Storage.Progress.{
  SyncStep, not_started, writing_dupes, marking_parents, marking_children, completed, SyncField,
  SyncProgress, set_sync_progress,
}
use incrededup.Db.{Database, DbError, write_dupes}

-- The progress of a run, from the one that the store has and the totals of the resolution.
unfoldable pub begin_progress : ℕ → ℕ → ℕ → ℕ → SyncProgress → SyncProgress
begin_progress now total_dupes total_parents total_children existing = elim existing.step [
  | not_started ↦ record {
    step = writing_dupes;
    dupes_written = 0;
    dupes_total = total_dupes;
    parents_marked = 0;
    parents_total = total_parents;
    children_marked = 0;
    children_total = total_children;
    started_at = now;
    completed_at = 0;
  }
  | s ↦ record existing {
    dupes_total = total_dupes;
    parents_total = total_parents;
    children_total = total_children;
  }
]

abbrev pub report_interval : ℕ → ℕ
report_interval total_dupes = max (total_dupes / 10) 100000

module _ (F : Float) (D : Database F) (T : Table SyncField Bytes) where
  -- The database and the table of the state store.
  abbrev pub ModeState : Type 0
  ModeState = D.Db × T.T

  -- The progress is written now and then, and at the end.
  unfoldable pub checkpoint : ℕ → ℕ → SyncProgress → T.T → T.T
  checkpoint batch_size total_dupes progress table =
      if ltb (progress.dupes_written % report_interval total_dupes) batch_size
        || progress.dupes_written == total_dupes
      then set_sync_progress T table progress
      else table

  abbrev pub wrote : ℕ → SyncProgress → SyncProgress
  wrote n progress = record progress { dupes_written = (progress.dupes_written + n) % 2 ^ 64 }

  abbrev pub after_write :
      ℕ
      → ℕ
      → SyncProgress
      → ℕ
      → T.T
      → D.Db × Result DbError ℕ
      → ModeState × Result DbError SyncProgress
  after_write batch_size total_dupes progress n table (db, err e) = ((db, table), err e)
  after_write batch_size total_dupes progress n table (db, ok count) =
      ((db, checkpoint batch_size total_dupes (wrote n progress) table), ok (wrote n progress))

  -- The body of the loop.
  unfoldable pub write_chunk :
      ℕ
      → ℕ
      → SyncProgress
      → List (DupeMatch F)
      → ModeState
      → ModeState × Result DbError SyncProgress
  unfolding checkpoint write_dupes
  write_chunk batch_size total_dupes progress chunk (db, table) =
      after_write batch_size total_dupes progress (length chunk) table (write_dupes F D db chunk)

  abbrev pub and_next :
      (SyncProgress → ModeState → ModeState × Result DbError SyncProgress)
      → ModeState × Result DbError SyncProgress
      → ModeState × Result DbError SyncProgress
  and_next f (st, err e) = (st, err e)
  and_next f (st, ok progress) = f progress st

  unfoldable pub write_loop :
      ℕ
      → ℕ
      → List (List (DupeMatch F))
      → SyncProgress
      → ModeState
      → ModeState × Result DbError SyncProgress
  unfolding write_chunk
  write_loop batch_size total_dupes [] progress st = (st, ok progress)
  write_loop batch_size total_dupes (chunk ∷ rest) progress st =
      and_next (write_loop batch_size total_dupes rest)
        (write_chunk batch_size total_dupes progress chunk st)

  -- The chunks that are left.
  abbrev pub pending : ℕ → List (DupeMatch F) → SyncProgress → List (List (DupeMatch F))
  pending batch_size resolved progress = chunks batch_size (drop progress.dupes_written resolved)

  abbrev pub finish_dupes :
      ModeState × Result DbError SyncProgress → ModeState × Result DbError SyncProgress
  finish_dupes (st, err e) = (st, err e)
  finish_dupes ((db, table), ok progress) =
      let next = record progress { step = marking_parents } in
      ((db, set_sync_progress T table next), ok next)

  -- The whole step.
  unfoldable pub write_step :
      ℕ → List (DupeMatch F) → SyncProgress → ModeState → ModeState × Result DbError SyncProgress
  unfolding write_loop
  write_step batch_size resolved progress st = elim progress.step [
    | writing_dupes ↦
        finish_dupes (
          write_loop batch_size (length resolved) (pending batch_size resolved progress) progress
            st)
    | s ↦ (st, ok progress)
  ]
