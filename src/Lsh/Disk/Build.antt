-- ===== src/Lsh/Disk/Build.antt =====
-- `build_bands_from_signatures` of src/lsh/mod.rs: the bands of all stored signatures.
use incrededup.Base.{
  ℕ, ◌*◌, ◌^◌, ◌<◌, ◌≡◌, ◌↔◌, ◌⊎◌, inl, inr, refl, sym, ap, ◌∙◌, subst, Option, some, List, [], ◌∷◌,
  Elem, length, arith, ok, Result, ⊎_elim, ℕ_discrete,
}
use incrededup.Base.Results.{◌>>=◌}
use incrededup.Table.{Table}
use incrededup.UnionFind.{Uuid}
use incrededup.MinHash.{Hasher}
use incrededup.Lsh.{LshError}
use incrededup.Lsh.Query.{validate_signature_len_lem}
use incrededup.Lsh.Disk.{
  DocumentEntry, Doc, BandKey, DiskLsh, add_last, fill_buckets, write_buckets,
  build_bands_from_signatures, query, count,
}
use incrededup.Lsh.Disk.Buckets.{Under, add_last-Adds, for_bands_lem, entries-Listed, held}
use incrededup.Lsh.Disk.Batch.{from_start, IsDisk, Suits, filed, Brings, cons-Brings, nothing-Under}
use incrededup.Lsh.Disk.Query.{query-Under}

module _ (H : Hasher) (B : Table BandKey (List Uuid)) (S : Table Uuid DocumentEntry) where
  keys_discrete : Discrete BandKey
  keys_discrete = hlevel ℕ_discrete

  fill_buckets_lem :
      (n rows : ℕ) (docs : List Doc) (buckets : B.T)
      → 0 < n * rows
      → n * rows < 2 ^ 64
      → ((doc : Doc) → Elem doc docs → length doc.1.signature ≡ n * rows)
      → (buckets' : B.T) × (fill_buckets H B S n rows docs buckets ≡ ok buckets')
        × ((key : BandKey) (d : Uuid)
            → Under H B S buckets' key d
              ↔ (Under H B S buckets key d ⊎ Brings H B S n rows docs key d))
  unfolding fill_buckets
  fill_buckets_lem n rows [] buckets pos fits all =
      (buckets, refl, λ key d. (inl, ⊎_elim (λ k. k) (λ k. absurd k.1)))
  fill_buckets_lem n rows ((id, entry) ∷ docs) buckets pos fits all =
      let e = all (id, entry) (inl refl) in
      let (first, run, at) =
        for_bands_lem H B S (add_last H B S id) id entry.signature rows n 0 buckets
          (add_last-Adds H B S id) (from_start _ n rows e) in
      let (buckets', rest, later) =
        fill_buckets_lem n rows docs first pos fits (λ doc k. all doc (inr k)) in
      (
        buckets',
        rw (validate_signature_len_lem entry.signature n rows pos fits e, run) rest,
        λ key d.
            ground (arith, later key d, at key d, cons-Brings H B S n rows (id, entry) docs key d),
      )

  -- An entry after the writes is the old one, or one of those written.
  write-cases :
      (es : List (BandKey × List Uuid)) (table : B.T) (key : BandKey)
      → (B.get (write_buckets H B S es table) key ≡ B.get table key)
        ⊎ ((ids : List Uuid) × Elem (key, ids) es
            × (B.get (write_buckets H B S es table) key ≡ some ids))
  unfolding write_buckets
  write-cases [] table key = inl refl
  write-cases ((k, ids) ∷ es) table key = elim (write-cases es (B.insert table k ids) key) [
    | inl old ↦ elim (keys_discrete key k) [
      | yes same ↦ inr (
        ids,
        inl (ap (λ x. (x, ids)) same),
        old ∙ ap (B.get (B.insert table k ids)) same ∙ B.get-insert_self table k ids,
      )
      | no n ↦ inl (old ∙ B.get-insert_ne table k key ids n)
    ]
    | inr (js, l, g) ↦ inr (js, inr l, g)
  ]

  -- A key that is written has one of its entries.
  write-Elem :
      (es : List (BandKey × List Uuid)) (table : B.T) (key : BandKey) (ids : List Uuid)
      → Elem (key, ids) es
      → (js : List Uuid) × Elem (key, js) es × (B.get (write_buckets H B S es table) key ≡ some js)
  unfolding write_buckets
  write-Elem [] table key ids m = absurd m
  write-Elem ((k, js) ∷ es) table key ids (inr m) =
      let (x, l, g) = write-Elem es (B.insert table k js) key ids m in (x, inr l, g)
  write-Elem ((k, js) ∷ es) table key ids (inl e) =
      let same : key ≡ k = ap (λ (x : BandKey × List Uuid). x.0) e in
      elim (write-cases es (B.insert table k js) key) [
        | inl old ↦ (
          js,
          inl (ap (λ x. (x, js)) same),
          old ∙ ap (B.get (B.insert table k js)) same ∙ B.get-insert_self table k js,
        )
        | inr (xs, l, g) ↦ (xs, inr l, g)
      ]

  some_inj : (a b : List Uuid) → ◌≡◌ {A = Option (List Uuid)} (some a) (some b) → a ≡ b
  some_inj a b e = cc

  -- The entries of a table, written over nothing, leave under each key what the table has there.
  write_buckets-Under :
      (buckets table : B.T) (key : BandKey) (d : Uuid)
      → ((k : BandKey) (x : Uuid) → ¬ Under H B S table k x)
      → Under H B S (write_buckets H B S (B.entries buckets) table) key d
        ↔ Under H B S buckets key d
  write_buckets-Under buckets table key d clear =
      let list = entries-Listed H B S buckets key d in
      let es = B.entries buckets in
      (
        λ m. elim (write-cases es table key) [
          | inl old ↦ absurd (clear key d (subst (Elem d) (ap (held H B S) old) m))
          | inr (ids, l, g) ↦ list.0 (ids, l, subst (Elem d) (ap (held H B S) g) m)
        ],
        λ m.
            let (ids, l, f) = list.1 m in
            let (js, k, g) = write-Elem es table key ids l in
            let one = (B.Elem-entries buckets key ids).0 l in
            let two = (B.Elem-entries buckets key js).0 k in
            let same : ids ≡ js = some_inj ids js (sym one ∙ two) in
            subst (Elem d) (sym (ap (held H B S) g)) (subst (Elem d) same f),
      )

  abbrev rebuilt : DiskLsh H B S → B.T → DiskLsh H B S
  rebuilt m bands = record m { bands = bands }

  -- What the build comes to, by the stored documents.
  build_bands_lem :
      (m : DiskLsh H B S)
      → IsDisk H B S m
      → ((doc : Doc) → Elem doc (S.entries m.signatures) → Suits H B S m doc)
      → ((key : BandKey) (d : Uuid) → ¬ Under H B S m.bands key d)
      → (bands : B.T) × (build_bands_from_signatures H B S m ≡ ok (rebuilt m bands, count H B S m))
        × ((key : BandKey) (d : Uuid)
            → Under H B S bands key d
              ↔ Brings H B S m.num_bands m.rows_per_band (S.entries m.signatures) key d)
  unfolding build_bands_from_signatures count
  build_bands_lem m h all clear = go (S.entries m.signatures) all
    where
      go :
          (docs : List Doc)
          → ((doc : Doc) → Elem doc docs → Suits H B S m doc)
          → (bands : B.T) × (◌≡◌ {A = Result LshError (DiskLsh H B S × ℕ)}
              (elim docs [
                | [] ↦ ok (m, 0)
                | doc ∷ docs ↦ do
                  buckets ← fill_buckets H B S m.num_bands m.rows_per_band (doc ∷ docs) B.empty
                  ok (
                    record m { bands = write_buckets H B S (B.entries buckets) m.bands },
                    length (doc ∷ docs),
                  )
              ])
              (ok (rebuilt m bands, length docs)))
            × ((key : BandKey) (d : Uuid)
                → Under H B S bands key d ↔ Brings H B S m.num_bands m.rows_per_band docs key d)
      go [] all = (m.bands, refl, λ key d. (λ k. absurd (clear key d k), λ k. absurd k.1))
      go (doc ∷ docs) all =
          let (buckets, run, at) =
            fill_buckets_lem m.num_bands m.rows_per_band (doc ∷ docs) B.empty h.positive h.fits
              all in
          (
            write_buckets H B S (B.entries buckets) m.bands,
            rw run refl,
            λ key d.
                let written = write_buckets-Under buckets m.bands key d clear in
                let no = nothing-Under H B S key d in
                (
                  λ k. ⊎_elim (λ f. absurd (no f)) (λ b. b) ((at key d).0 (written.0 k)),
                  λ k. written.1 ((at key d).1 (inr k)),
                ),
          )

  -- In an index without bands whose signature length is positive and fits a `usize`, and all of whose
  -- stored signatures have that length: the build succeeds and returns the number of documents, and a
  -- query with a signature of that length then finds exactly the documents whose stored signature
  -- shares a band with it.
  pub query-build_bands_from_signatures :
      (m : DiskLsh H B S) (signature : List ℕ)
      → IsDisk H B S m
      → ((id : Uuid) (entry : DocumentEntry)
          → S.get m.signatures id ≡ some entry
          → Suits H B S m (id, entry))
      → ((key : BandKey) (d : Uuid) → ¬ Under H B S m.bands key d)
      → length signature ≡ m.num_bands * m.rows_per_band
      → (m' : DiskLsh H B S) × (ids : List Uuid) × (build_bands_from_signatures H B S m
          ≡ ok (m', count H B S m))
        × (query H B S m' signature ≡ ok ids)
        × ((d : Uuid)
            → Elem d ids ↔ (
                (entry : DocumentEntry) × (S.get m.signatures d ≡ some entry)
                × ((key : BandKey) × Elem key (filed H B S m signature)
                    × Elem key (filed H B S m entry.signature))))
  query-build_bands_from_signatures m signature h all clear e =
      let (bands, run, at) =
        build_bands_lem m h
          (λ doc k. all doc.0 doc.1 ((S.Elem-entries m.signatures doc.0 doc.1).0 k)) clear in
      let (ids, asked, found) =
        query-Under H B S (rebuilt m bands) signature
          (record { positive = h.positive; fits = h.fits }) e in
      (
        rebuilt m bands,
        ids,
        run,
        asked,
        λ d. (
          λ k.
              let (key, f, g) = (found d).0 k in
              let (doc, l, same, i) = (at key d).0 g in
              (
                doc.1,
                ap (S.get m.signatures) same ∙ (S.Elem-entries m.signatures doc.0 doc.1).0 l,
                (key, f, i),
              ),
          λ k.
              let (entry, got, (key, f, i)) = k in
              (found d).1 (
                key,
                f,
                (at key d).1 ((d, entry), (S.Elem-entries m.signatures d entry).1 got, refl, i),
              ),
        ),
      )
