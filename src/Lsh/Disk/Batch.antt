-- ===== src/Lsh/Disk/Batch.antt =====
-- `DiskLSH` of src/lsh/mod.rs: a batch against single insertions.
use incrededup.Base.{
  ℕ, ◌+◌, ◌*◌, ◌^◌, ◌<◌, ◌≡◌, ◌↔◌, ◌⊎◌, inl, inr, refl, sym, ap, ◌∙◌, subst, Option, none, some,
  List, [], ◌∷◌, Elem, All, length, arith, ok, Result, ⊎_elim,
}
use incrededup.Base.Results.{◌>>=◌}
use incrededup.Table.{Table}
use incrededup.UnionFind.{Uuid}
use incrededup.MinHash.{Hasher}
use incrededup.Lsh.{LshError}
use incrededup.Lsh.Query.{validate_signature_len_lem}
use incrededup.Lsh.Disk.{
  DocumentEntry, Doc, BandKey, DiskLsh, add_once, add_last, insert, validate_all, collect_updates,
  apply_updates, insert_batch,
}
use incrededup.Lsh.Disk.Buckets.{
  Under, keys_of, add_once-Adds, add_last-Adds, for_bands_lem, apply_updates_lem, entries-Listed,
}

pub from_start : (l n rows : ℕ) → l ≡ n * rows → l ≡ (0 + n) * rows
from_start l n rows e = let same : n ≡ 0 + n = omega arith in e ∙ ap (λ k. k * rows) same

module _ (H : Hasher) (B : Table BandKey (List Uuid)) (S : Table Uuid DocumentEntry) where
  -- The signature length is positive and fits a `usize`.
  pub record IsDisk (m : DiskLsh H B S) : Type 0 where
    pub positive : 0 < m.num_bands * m.rows_per_band
    pub fits : m.num_bands * m.rows_per_band < 2 ^ 64

  abbrev pub Suits : DiskLsh H B S → Doc → Type 0
  Suits m doc = length doc.1.signature ≡ m.num_bands * m.rows_per_band

  -- The keys under which a signature is filed.
  abbrev pub filed : DiskLsh H B S → List ℕ → List BandKey
  filed m signature = keys_of H B S signature m.rows_per_band m.num_bands 0

  -- Some document of the list is this one and is filed under the key.
  abbrev pub Brings : ℕ → ℕ → List Doc → BandKey → Uuid → Type 0
  Brings num_bands rows docs key d =
      (doc : Doc) × Elem doc docs
      × (d ≡ doc.0)
      × Elem key (keys_of H B S doc.1.signature rows num_bands 0)

  abbrev inserted : DiskLsh H B S → Doc → B.T → DiskLsh H B S
  inserted m doc bands = record m { bands = bands; signatures = S.insert m.signatures doc.0 doc.1 }

  insert_lem :
      (m : DiskLsh H B S) (doc : Doc)
      → IsDisk m
      → Suits m doc
      → (bands : B.T) × (insert H B S m doc.0 doc.1.signature doc.1.content_len
          ≡ ok (inserted m doc bands))
        × ((key : BandKey) (d : Uuid)
            → Under H B S bands key d
              ↔ (Under H B S m.bands key d ⊎ (d ≡ doc.0) × Elem key (filed m doc.1.signature)))
  unfolding insert
  insert_lem m doc h e =
      let (bands, run, at) =
        for_bands_lem H B S (add_once H B S doc.0) doc.0 doc.1.signature m.rows_per_band m.num_bands
          0 m.bands (add_once-Adds H B S doc.0) (from_start _ m.num_bands m.rows_per_band e) in
      (
        bands,
        rw
            (
              validate_signature_len_lem doc.1.signature m.num_bands m.rows_per_band h.positive
                  h.fits e,
              run,
            )
            refl,
        at,
      )

  -- One insertion after the other.
  unfoldable pub insert_each : List Doc → DiskLsh H B S → Result LshError (DiskLsh H B S)
  unfolding insert
  insert_each [] m = ok m
  insert_each (doc ∷ docs) m = do
    m' ← insert H B S m doc.0 doc.1.signature doc.1.content_len
    insert_each docs m'

  abbrev pub stored : List Doc → S.T → S.T
  stored [] signatures = signatures
  stored (doc ∷ docs) signatures = stored docs (S.insert signatures doc.0 doc.1)

  abbrev pub with_bands : DiskLsh H B S → List Doc → B.T → DiskLsh H B S
  with_bands m docs bands = record m { bands = bands; signatures = stored docs m.signatures }

  pub cons-Brings :
      (n rows : ℕ) (doc : Doc) (docs : List Doc) (key : BandKey) (d : Uuid)
      → Brings n rows (doc ∷ docs) key d ↔ (
          (d ≡ doc.0) × Elem key (keys_of H B S doc.1.signature rows n 0)
          ⊎ Brings n rows docs key d)
  cons-Brings n rows doc docs key d = (
    λ m. elim m.1 [
      | inl same ↦ inl (
          subst (λ (x : Doc). (d ≡ x.0) × Elem key (keys_of H B S x.1.signature rows n 0)) same
            (m.2, m.3))
      | inr k ↦ inr (m.0, k, m.2, m.3)
    ],
    ⊎_elim (λ m. (doc, inl refl, m.0, m.1)) (λ m. (m.0, inr m.1, m.2, m.3)),
  )

  insert_each_lem :
      (docs : List Doc) (m : DiskLsh H B S)
      → IsDisk m
      → All (Suits m) docs
      → (bands : B.T) × (insert_each docs m ≡ ok (with_bands m docs bands))
        × ((key : BandKey) (d : Uuid)
            → Under H B S bands key d
              ↔ (Under H B S m.bands key d ⊎ Brings m.num_bands m.rows_per_band docs key d))
  unfolding insert_each
  insert_each_lem [] m h all = (m.bands, refl, λ key d. (inl, ⊎_elim (λ k. k) (λ k. absurd k.1)))
  insert_each_lem (doc ∷ docs) m h (e, all) =
      let (first, run, at) = insert_lem m doc h e in
      let (bands, rest, later) =
        insert_each_lem docs (inserted m doc first)
          (record { positive = h.positive; fits = h.fits }) all in
      (
        bands,
        rw run rest,
        λ key d.
            ground (
              arith,
              later key d,
              at key d,
              cons-Brings m.num_bands m.rows_per_band doc docs key d,
            ),
      )

  validate_all_lem :
      (m : DiskLsh H B S) (docs : List Doc)
      → IsDisk m
      → All (Suits m) docs
      → validate_all H B S m docs ≡ ok tt
  unfolding validate_all
  validate_all_lem m [] h all = refl
  validate_all_lem m (doc ∷ docs) h (e, all) =
      rw
        (validate_signature_len_lem doc.1.signature m.num_bands m.rows_per_band h.positive h.fits e)
        (validate_all_lem m docs h all)

  collect_updates_lem :
      (n rows : ℕ) (docs : List Doc) (signatures : S.T) (updates : B.T)
      → All (λ (doc : Doc). length doc.1.signature ≡ n * rows) docs
      → (updates' : B.T) × (collect_updates H B S n rows docs (signatures, updates)
          ≡ ok (stored docs signatures, updates'))
        × ((key : BandKey) (d : Uuid)
            → Under H B S updates' key d ↔ (Under H B S updates key d ⊎ Brings n rows docs key d))
  unfolding collect_updates
  collect_updates_lem n rows [] signatures updates all =
      (updates, refl, λ key d. (inl, ⊎_elim (λ k. k) (λ k. absurd k.1)))
  collect_updates_lem n rows ((id, entry) ∷ docs) signatures updates (e, all) =
      let (first, run, at) =
        for_bands_lem H B S (add_last H B S id) id entry.signature rows n 0 updates
          (add_last-Adds H B S id) (from_start _ n rows e) in
      let (updates', rest, later) =
        collect_updates_lem n rows docs (S.insert signatures id entry) first all in
      (
        updates',
        rw run rest,
        λ key d. ground (arith, later key d, at key d, cons-Brings n rows (id, entry) docs key d),
      )

  pub nothing-Under : (key : BandKey) (d : Uuid) → ¬ Under H B S B.empty key d
  nothing-Under key d m =
      let (ids, l, g) = (entries-Listed H B S B.empty key d).1 m in
      let got = (B.Elem-entries B.empty key ids).0 l in
      let none_there = B.get-empty key in absurd (clash ids (sym none_there ∙ got))
    where
      clash : (ids : List Uuid) → ◌≡◌ {A = Option (List Uuid)} none (some ids) → ⊥
      clash ids e = cc

  pub insert_batch_lem :
      (m : DiskLsh H B S) (docs : List Doc)
      → IsDisk m
      → All (Suits m) docs
      → (bands : B.T) × (insert_batch H B S m docs ≡ ok (with_bands m docs bands))
        × ((key : BandKey) (d : Uuid)
            → Under H B S bands key d
              ↔ (Under H B S m.bands key d ⊎ Brings m.num_bands m.rows_per_band docs key d))
  unfolding insert_batch
  insert_batch_lem m docs h all =
      let (updates, run, at) =
        collect_updates_lem m.num_bands m.rows_per_band docs m.signatures B.empty all in
      (
        apply_updates H B S (B.entries updates) m.bands,
        rw (validate_all_lem m docs h all, run) refl,
        λ key d.
            let applied = apply_updates_lem H B S (B.entries updates) m.bands key d in
            let list = entries-Listed H B S updates key d in
            let no = nothing-Under key d in
            (
              λ k. elim (applied.0 k) [
                | inl old ↦ inl old
                | inr l ↦ ⊎_elim (λ f. absurd (no f)) inr ((at key d).0 (list.0 l))
              ],
              λ k. applied.1 (⊎_elim inl (λ b. inr (list.1 ((at key d).1 (inr b)))) k),
            ),
      )

  -- In an index whose signature length is positive and fits a `usize`, and for signatures of that
  -- length, a batch and the single insertions of its documents in order both succeed, store the same
  -- signatures, and leave the same documents under every key of the bands.
  pub insert_batch-insert_each :
      (m : DiskLsh H B S) (docs : List Doc)
      → IsDisk m
      → All (Suits m) docs
      → (batch : DiskLsh H B S) × (single : DiskLsh H B S) × (insert_batch H B S m docs ≡ ok batch)
        × (insert_each docs m ≡ ok single)
        × (batch.signatures ≡ single.signatures)
        × ((key : BandKey) (d : Uuid)
            → Under H B S batch.bands key d ↔ Under H B S single.bands key d)
  insert_batch-insert_each m docs h all =
      let (bands₁, run₁, at₁) = insert_batch_lem m docs h all in
      let (bands₂, run₂, at₂) = insert_each_lem docs m h all in
      (
        with_bands m docs bands₁,
        with_bands m docs bands₂,
        run₁,
        run₂,
        refl,
        λ key d. (λ k. (at₂ key d).1 ((at₁ key d).0 k), λ k. (at₁ key d).1 ((at₂ key d).0 k)),
      )
