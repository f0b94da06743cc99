-- ===== src/Lsh/Disk/Buckets.antt =====
-- The entries of the band table of `DiskLSH` in src/lsh/mod.rs: what the loops over the bands and the
-- batches do to them.
use incrededup.Base.{
  ℕ, zero, suc, ◌+◌, ◌*◌, ◌≡◌, ◌≢◌, ◌↔◌, ◌⊎◌, inl, inr, refl, sym, ap, ◌∙◌, subst, Option, none,
  some, List, [], ◌∷◌, ◌++◌, Elem, Elem-append, Elem-sort_by, leb, length, contains, contains_iff,
  sort_by, Bool-cases, arith, ok, ⊎_elim, ℕ_discrete,
}
use incrededup.Table.{Table}
use incrededup.UnionFind.{Uuid}
use incrededup.MinHash.{Hasher}
use incrededup.Lsh.{dedup}
use incrededup.Lsh.Bands.{Elem-dedup, band_hash, hash_of_band_lem}
use incrededup.Lsh.Disk.{
  DocumentEntry, BandKey, under, for_bands, add_once, add_last, apply_updates,
}

module _ (H : Hasher) (B : Table BandKey (List Uuid)) (S : Table Uuid DocumentEntry) where
  key_discrete : Discrete BandKey
  key_discrete = hlevel ℕ_discrete

  abbrev pub hash_at : List ℕ → ℕ → ℕ → ℕ
  hash_at signature rows band = band_hash H signature rows band

  -- The document is under the key.
  abbrev pub Under : B.T → BandKey → Uuid → Type 0
  Under table key d = Elem d (under H B S table key)

  abbrev pub held : Option (List Uuid) → List Uuid
  held none = []
  held (some ids) = ids

  Under-insert :
      (table : B.T) (k key : BandKey) (ids : List Uuid) (d : Uuid)
      → Under (B.insert table k ids) key d
        ↔ ((key ≡ k) × Elem d ids ⊎ (key ≢ k) × Under table key d)
  Under-insert table k key ids d = elim (key_discrete key k) [
    | yes e ↦
        let got = ap (B.get (B.insert table k ids)) e ∙ B.get-insert_self table k ids in
        let same : under H B S (B.insert table k ids) key ≡ ids = ap held got in
        (
          λ m. inl (e, subst (Elem d) same m),
          ⊎_elim (λ m. subst (Elem d) (sym same) m.1) (λ m. absurd (m.0 e)),
        )
    | no n ↦
        let got = B.get-insert_ne table k key ids n in
        let same : under H B S (B.insert table k ids) key ≡ under H B S table key = ap held got in
        (
          λ m. inr (n, subst (Elem d) same m),
          ⊎_elim (λ m. absurd (n m.0)) (λ m. subst (Elem d) (sym same) m.1),
        )
  ]

  -- The keys of the bands of a signature, from an index on.
  abbrev pub keys_of : List ℕ → ℕ → ℕ → ℕ → List BandKey
  keys_of signature rows zero band = []
  keys_of signature rows (suc n) band =
      (band, hash_at signature rows band) ∷ keys_of signature rows n (band + 1)

  -- The change brings the document and keeps the others.
  abbrev pub Adds : Uuid → (List Uuid → List Uuid) → Type 0
  Adds doc_id change =
      (ids : List Uuid) (d : Uuid) → Elem d (change ids) ↔ ((d ≡ doc_id) ⊎ Elem d ids)

  pub add_once-Adds : (doc_id : Uuid) → Adds doc_id (add_once H B S doc_id)
  add_once-Adds doc_id ids d = elim (Bool-cases (contains ids doc_id)) [
    | inl t ↦
        let there = (contains_iff ids doc_id).0 t in
        rw t (inr, ⊎_elim (λ e. subst (λ x. Elem x ids) (sym e) there) (λ m. m))
    | inr f ↦ rw f (ground (arith, Elem-append d ids (doc_id ∷ [])))
  ]

  pub add_last-Adds : (doc_id : Uuid) → Adds doc_id (add_last H B S doc_id)
  add_last-Adds doc_id ids d = ground (arith, Elem-append d ids (doc_id ∷ []))

  pub for_bands_lem :
      (change : List Uuid → List Uuid) (doc_id : Uuid) (signature : List ℕ) (rows n band : ℕ)
      (table : B.T)
      → Adds doc_id change
      → length signature ≡ (band + n) * rows
      → (table' : B.T) × (for_bands H B S change signature rows n band table ≡ ok table')
        × ((key : BandKey) (d : Uuid)
            → Under table' key d
              ↔ (Under table key d ⊎ (d ≡ doc_id) × Elem key (keys_of signature rows n band)))
  unfolding for_bands
  for_bands_lem change doc_id signature rows zero band table adds e =
      (table, refl, λ key d. (inl, ⊎_elim (λ m. m) (λ m. absurd m.1)))
  for_bands_lem change doc_id signature rows (suc n) band table adds e =
      let (run, next) = hash_of_band_lem H signature rows n band e in
      let k : BandKey = (band, hash_at signature rows band) in
      let first = B.insert table k (change (under H B S table k)) in
      let (table', rest, at) =
        for_bands_lem change doc_id signature rows n (band + 1) first adds next in
      (
        table',
        rw run rest,
        λ key d.
            let here = Under-insert table k key (change (under H B S table k)) d in
            let added = adds (under H B S table k) d in
            (
              λ m. elim ((at key d).0 m) [
                | inl f ↦ elim (here.0 f) [
                  | inl (same, g) ↦ elim (added.0 g) [
                    | inl doc ↦ inr (doc, inl same)
                    | inr old ↦ inl (subst (λ x. Under table x d) (sym same) old)
                  ]
                  | inr (differ, old) ↦ inl old
                ]
                | inr (doc, later) ↦ inr (doc, inr later)
              ],
              λ m. (at key d).1 (elim m [
                | inl old ↦ inl (
                    here.1 (elim (key_discrete key k) [
                      | yes same ↦ inl (same, added.1 (inr (subst (λ x. Under table x d) same old)))
                      | no differ ↦ inr (differ, old)
                    ]))
                | inr (doc, inl same) ↦ inl (here.1 (inl (same, added.1 (inl doc))))
                | inr (doc, inr later) ↦ inr (doc, later)
              ]),
            ),
      )

  abbrev pub Listed : List (BandKey × List Uuid) → BandKey → Uuid → Type 0
  Listed es key d = (ids : List Uuid) × Elem (key, ids) es × Elem d ids

  -- The updates bring what they list, and keep the rest.
  pub apply_updates_lem :
      (es : List (BandKey × List Uuid)) (table : B.T) (key : BandKey) (d : Uuid)
      → Under (apply_updates H B S es table) key d ↔ (Under table key d ⊎ Listed es key d)
  unfolding apply_updates
  apply_updates_lem [] table key d = (inl, ⊎_elim (λ m. m) (λ m. absurd m.1))
  apply_updates_lem ((k, new_ids) ∷ es) table key d =
      let all = under H B S table k ++ new_ids in
      let rest = apply_updates_lem es (B.insert table k (dedup (sort_by leb all))) key d in
      let here = Under-insert table k key (dedup (sort_by leb all)) d in
      let clean = Elem-dedup d (sort_by leb all) in
      let sorted = Elem-sort_by leb d all in
      let both = Elem-append d (under H B S table k) new_ids in
      (
        λ m. elim (rest.0 m) [
          | inl f ↦ elim (here.0 f) [
            | inl (same, g) ↦ elim (both.0 (sorted.0 (clean.0 g))) [
              | inl old ↦ inl (subst (λ x. Under table x d) (sym same) old)
              | inr new ↦ inr (new_ids, inl (ap (λ x. (x, new_ids)) same), new)
            ]
            | inr (differ, old) ↦ inl old
          ]
          | inr (ids, l, g) ↦ inr (ids, inr l, g)
        ],
        λ m. rest.1 (elim m [
          | inl old ↦ inl (
              here.1 (elim (key_discrete key k) [
                | yes same ↦ inl (
                  same,
                  clean.1 (sorted.1 (both.1 (inl (subst (λ x. Under table x d) same old)))),
                )
                | no differ ↦ inr (differ, old)
              ]))
          | inr (ids, inl same, g) ↦
              let key_same : key ≡ k = ap (λ (x : BandKey × List Uuid). x.0) same in
              let ids_same : ids ≡ new_ids = ap (λ (x : BandKey × List Uuid). x.1) same in
              inl (
                here.1
                  (inl (key_same, clean.1 (sorted.1 (both.1 (inr (subst (Elem d) ids_same g)))))))
          | inr (ids, inr l, g) ↦ inr (ids, l, g)
        ]),
      )

  -- The entries of a table list what is under its keys.
  pub entries-Listed :
      (table : B.T) (key : BandKey) (d : Uuid) → Listed (B.entries table) key d ↔ Under table key d
  entries-Listed table key d = (
    λ m.
        let (ids, l, g) = m in
        let got = (B.Elem-entries table key ids).0 l in subst (Elem d) (sym (ap held got)) g,
    λ m. go (B.get table key) refl m,
  )
    where
      go :
          (o : Option (List Uuid))
          → B.get table key ≡ o
          → Elem d (elim o [ none ↦ [] | some doc_ids ↦ doc_ids ])
          → Listed (B.entries table) key d
      go none e m = absurd m
      go (some ids) e m = (ids, (B.Elem-entries table key ids).1 e, m)
