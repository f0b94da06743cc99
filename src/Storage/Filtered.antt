-- ===== src/Storage/Filtered.antt =====
-- src/storage/mod.rs: `FilteredParentStore`, the documents that a later sync marks as parents. The
-- table `filtered_parents` has ids for keys and empty values.
use incrededup.Base.{
  if◌then◌else◌, err, arith, true, length-be_bytes, ◌==◌, map, Result, ok, ℕ, suc, ◌^◌, ◌<◌, ◌≡◌,
  ◌↔◌, ◌⊎◌, inl, inr, refl, sym, ap, ◌∙◌, none, some, List, [], ◌∷◌, Elem, All, length, ℕ_discrete,
  ⊎_elim,
}
use incrededup.Table.{Table}
use incrededup.UnionFind.{Uuid}
use incrededup.Base.Results.{◌>>=◌}
use incrededup.Storage.{Bytes, StoreError, invalid_id_length, as_bytes, from_slice}
use incrededup.Storage.Codec.{from_slice-as_bytes}

module _ (M : Table Bytes Bytes) where
  unfoldable pub insert_ids : List Uuid → M.T × ℕ → M.T × ℕ
  insert_ids [] w = w
  insert_ids (id ∷ ids) (table, inserted) = insert_ids ids (
    M.insert table (as_bytes id) [],
    elim (M.get table (as_bytes id)) [ none ↦ suc inserted | some v ↦ inserted ],
  )

  -- The table after, and the number of ids that were not there.
  unfoldable pub insert_batch : M.T → List Uuid → M.T × ℕ
  unfolding insert_ids
  insert_batch table [] = (table, 0)
  insert_batch table (id ∷ ids) = insert_ids (id ∷ ids) (table, 0)

  unfoldable pub ids_of : List (Bytes × Bytes) → Result StoreError (List Uuid)
  ids_of [] = ok []
  ids_of (e ∷ es) = do
    id ← if length e.0 == 16 then ok (from_slice e.0) else err (invalid_id_length (length e.0))
    ids ← ids_of es
    ok (id ∷ ids)

  unfoldable pub iter : M.T → Result StoreError (List Uuid)
  unfolding ids_of
  iter table = ids_of (M.entries table)

  unfoldable pub count : M.T → ℕ
  count table = length (M.entries table)

  -- Every key is an id.
  abbrev pub IsIds : M.T → Type 0
  IsIds table =
      (k v : Bytes) → M.get table k ≡ some v → (id : Uuid) × (id < 2 ^ 128) × (k ≡ as_bytes id)

  -- The ids of keys of 16 bytes.
  abbrev keys_of : List (Bytes × Bytes) → List Uuid
  keys_of es = map (λ (e : Bytes × Bytes). from_slice e.0) es

  ids_of-keys_of :
      (es : List (Bytes × Bytes))
      → ((e : Bytes × Bytes) → Elem e es → length e.0 ≡ 16)
      → ids_of es ≡ ok (keys_of es)
  unfolding ids_of
  ids_of-keys_of [] h = refl
  ids_of-keys_of (e ∷ es) h =
      let long = h e (inl refl) in
      let whole : (length e.0 == 16) ≡ true = ground arith in
      rw whole (rw (ids_of-keys_of es (λ d k. h d (inr k))) refl)

  iter-keys_of : (table : M.T) → IsIds table → iter table ≡ ok (keys_of (M.entries table))
  unfolding iter
  iter-keys_of table h = ids_of-keys_of (M.entries table) (λ e k.
      let (id, fit, at) = h e.0 e.1 ((M.Elem-entries table e.0 e.1).0 k) in
      ap length at ∙ length-be_bytes 16 id)

  Elem-keys_of :
      (es : List (Bytes × Bytes)) (x : Uuid)
      → Elem x (keys_of es) ↔ ((k : Bytes) × (v : Bytes) × Elem (k, v) es × (x ≡ from_slice k))
  Elem-keys_of [] x = (λ m. absurd m, λ m. absurd m.2)
  Elem-keys_of ((k, v) ∷ es) x = (
    λ m. elim m [
      | inl e ↦ (k, v, inl refl, e)
      | inr m ↦ let (j, w, l, e) = (Elem-keys_of es x).0 m in (j, w, inr l, e)
    ],
    λ m. elim m.2 [
      | inl same ↦ inl (m.3 ∙ ap (λ (y : Bytes × Bytes). from_slice y.0) same)
      | inr l ↦ inr ((Elem-keys_of es x).1 (m.0, m.1, l, m.3))
    ],
  )

  -- The ids of the table are those whose key is there.
  Elem-table :
      (table : M.T) (x : Uuid)
      → IsIds table
      → x < 2 ^ 128
      → Elem x (keys_of (M.entries table)) ↔ ((v : Bytes) × (M.get table (as_bytes x) ≡ some v))
  Elem-table table x h small = (
    λ m.
        let (k, v, l, e) = (Elem-keys_of (M.entries table) x).0 m in
        let got = (M.Elem-entries table k v).0 l in
        let (id, fit, at) = h k v got in
        let same : x ≡ id = e ∙ ap from_slice at ∙ from_slice-as_bytes id fit in
        (v, ap (M.get table) (ap as_bytes same ∙ sym at) ∙ got),
    λ m. (Elem-keys_of (M.entries table) x).1 (
      as_bytes x,
      m.0,
      (M.Elem-entries table (as_bytes x) m.0).1 m.1,
      sym (from_slice-as_bytes x small),
    ),
  )

  bytes_discrete : Discrete Bytes
  bytes_discrete = hlevel ℕ_discrete

  insert-IsIds :
      (table : M.T) (id : Uuid)
      → IsIds table
      → id < 2 ^ 128
      → IsIds (M.insert table (as_bytes id) [])
  insert-IsIds table id h small k v g = elim (bytes_discrete k (as_bytes id)) [
    | yes same ↦ (id, small, same)
    | no n ↦ h k v (sym (M.get-insert_ne table (as_bytes id) k [] n) ∙ g)
  ]

  abbrev There : M.T → Uuid → Type 0
  There table x = (v : Bytes) × (M.get table (as_bytes x) ≡ some v)

  There-insert :
      (table : M.T) (id x : Uuid)
      → id < 2 ^ 128
      → x < 2 ^ 128
      → There (M.insert table (as_bytes id) []) x ↔ ((x ≡ id) ⊎ There table x)
  There-insert table id x hi hx = elim (bytes_discrete (as_bytes x) (as_bytes id)) [
    | yes same ↦ (
      λ m. inl (sym (from_slice-as_bytes x hx) ∙ ap from_slice same ∙ from_slice-as_bytes id hi),
      λ m. (
        [],
        ap (M.get (M.insert table (as_bytes id) [])) same
            ∙ M.get-insert_self table (as_bytes id) [],
      ),
    )
    | no n ↦
        let same = M.get-insert_ne table (as_bytes id) (as_bytes x) [] n in
        (
          λ m. inr (m.0, sym same ∙ m.1),
          ⊎_elim (λ e. absurd (n (ap as_bytes e))) (λ m. (m.0, same ∙ m.1)),
        )
  ]

  insert_ids-There :
      (ids : List Uuid) (w : M.T × ℕ)
      → IsIds w.0
      → All (λ id. id < 2 ^ 128) ids
      → IsIds (insert_ids ids w).0
        × ((x : Uuid) → x < 2 ^ 128 → There (insert_ids ids w).0 x ↔ (Elem x ids ⊎ There w.0 x))
  unfolding insert_ids
  insert_ids-There [] w h small = (h, λ x hx. (inr, ⊎_elim absurd (λ m. m)))
  insert_ids-There (id ∷ ids) (table, n) h small =
      let (keys, at) =
        insert_ids-There ids
          (
            M.insert table (as_bytes id) [],
            elim (M.get table (as_bytes id)) [ none ↦ suc n | some v ↦ n ],
          )
          (insert-IsIds table id h small.0) small.1 in
      (
        keys,
        λ x hx.
            let first = There-insert table id x small.0 hx in
            let rest = at x hx in
            (
              λ m. elim (rest.0 m) [
                | inl k ↦ inl (inr k)
                | inr k ↦ ⊎_elim (λ e. inl (inl e)) inr (first.0 k)
              ],
              λ m. rest.1 (elim m [
                | inl (inl e) ↦ inr (first.1 (inl e))
                | inl (inr k) ↦ inl k
                | inr k ↦ inr (first.1 (inr k))
              ]),
            ),
      )

  -- In a table whose keys are ids, a batch of ids of 128 bits leaves a table whose keys are ids, and
  -- iteration, which succeeds before and after, then returns exactly the ids that it returned before
  -- and those of the batch.
  pub iter-insert_batch :
      (table : M.T) (ids : List Uuid)
      → IsIds table
      → All (λ id. id < 2 ^ 128) ids
      → IsIds (insert_batch table ids).0
        × (before : List Uuid) × (after : List Uuid) × (iter table ≡ ok before)
        × (iter (insert_batch table ids).0 ≡ ok after)
        × ((x : Uuid) → x < 2 ^ 128 → Elem x after ↔ (Elem x ids ⊎ Elem x before))
  unfolding insert_batch
  iter-insert_batch table [] h small = (
    h,
    keys_of (M.entries table),
    keys_of (M.entries table),
    iter-keys_of table h,
    iter-keys_of table h,
    λ x hx. (inr, ⊎_elim absurd (λ m. m)),
  )
  iter-insert_batch table (id ∷ ids) h small =
      let (keys, at) = insert_ids-There (id ∷ ids) (table, 0) h small in
      (
        keys,
        keys_of (M.entries table),
        keys_of (M.entries (insert_ids (id ∷ ids) (table, 0)).0),
        iter-keys_of table h,
        iter-keys_of (insert_ids (id ∷ ids) (table, 0)).0 keys,
        λ x hx.
            let before = Elem-table table x h hx in
            let after = Elem-table (insert_ids (id ∷ ids) (table, 0)).0 x keys hx in
            (
              λ m. ⊎_elim inl (λ k. inr (before.1 k)) ((at x hx).0 (after.0 m)),
              λ m. after.1 ((at x hx).1 (⊎_elim inl (λ k. inr (before.0 k)) m)),
            ),
      )
