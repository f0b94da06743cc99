-- ===== src/Tests/Progress.antt =====
-- `StateStore` and `FilteredParentStore` of src/storage/mod.rs at concrete inputs.
use incrededup.Base.{
  ok, ◌≡◌, ◌↔◌, ◌⊎◌, ◌<◌, ◌^◌, inl, inr, ℕ_discrete, List, [], ◌∷◌, Elem, some, none, arith, false,
}
use incrededup.Table.{Table}
use incrededup.Table.Assoc.{assoc}
use incrededup.UnionFind.{Uuid}
use incrededup.Storage.{Bytes}
use incrededup.Storage.Progress.{
  SyncField, parents_marked, SyncProgress, marking_parents, set_sync_progress, get_sync_progress,
  update_sync_field, reset_sync_progress, is_sync_in_progress, is_sync_completed,
}
use incrededup.Storage.Progress.Laws.{
  field-cases, IsProgress, with_field, fresh_progress, get_sync_progress-set_sync_progress,
  update_sync_field_lem, reset_sync_progress_lem,
}
use incrededup.Storage.Filtered.{insert_batch, iter, IsIds, iter-insert_batch}

pub field_discrete : Discrete SyncField
field_discrete f g = elim (field-cases f g) [ inl (t, e) ↦ yes e | inr (t, n) ↦ no n ]

abbrev pub fields : Table SyncField Bytes
fields = assoc field_discrete

abbrev half_way : SyncProgress
half_way = record {
  step = marking_parents;
  dupes_written = 300;
  dupes_total = 300;
  parents_marked = 7;
  parents_total = 20;
  children_marked = 0;
  children_total = 280;
  started_at = 1700000000;
  completed_at = 0;
}

half_way-IsProgress : IsProgress half_way
half_way-IsProgress = record {
  dupes_written = omega arith;
  dupes_total = omega arith;
  parents_marked = omega arith;
  parents_total = omega arith;
  children_marked = omega arith;
  children_total = omega arith;
  started_at = omega arith;
  completed_at = omega arith;
}

get_sync_progress-set_sync_progress_example :
    get_sync_progress fields (set_sync_progress fields fields.empty half_way) ≡ half_way
get_sync_progress-set_sync_progress_example =
    get_sync_progress-set_sync_progress fields fields.empty half_way half_way-IsProgress

update_sync_field_lem_example :
    get_sync_progress fields
      (update_sync_field fields (set_sync_progress fields fields.empty half_way) parents_marked 8)
    ≡ with_field fields parents_marked 8
        (get_sync_progress fields (set_sync_progress fields fields.empty half_way))
update_sync_field_lem_example =
    update_sync_field_lem fields (set_sync_progress fields fields.empty half_way) parents_marked 8
      (omega arith)

abbrev stopped : fields.T
stopped = set_sync_progress fields fields.empty half_way

reset_sync_progress_lem_example :
    (get_sync_progress fields (reset_sync_progress fields stopped) ≡ fresh_progress fields)
    × (is_sync_in_progress fields (reset_sync_progress fields stopped) ≡ false)
    × (is_sync_completed fields (reset_sync_progress fields stopped) ≡ false)
reset_sync_progress_lem_example = reset_sync_progress_lem fields stopped

abbrev byte_table : Table Bytes Bytes
byte_table = assoc (hlevel ℕ_discrete)

empty-IsIds : IsIds byte_table byte_table.empty
empty-IsIds k v g = absurd (nothing (byte_table.get-empty k) g)
  where
    nothing :
        byte_table.get byte_table.empty k ≡ none → byte_table.get byte_table.empty k ≡ some v → ⊥
    nothing a b = cc

abbrev three : List Uuid
three = 5 ∷ 9 ∷ 5 ∷ []

iter-insert_batch_example :
    IsIds byte_table (insert_batch byte_table byte_table.empty three).0
    × (before : List Uuid) × (after : List Uuid) × (iter byte_table byte_table.empty ≡ ok before)
    × (iter byte_table (insert_batch byte_table byte_table.empty three).0 ≡ ok after)
    × ((x : Uuid) → x < 2 ^ 128 → Elem x after ↔ (Elem x three ⊎ Elem x before))
iter-insert_batch_example =
    iter-insert_batch byte_table byte_table.empty three empty-IsIds
      (omega arith, (omega arith, (omega arith, tt)))
