-- ===== src/Lsh/Query.antt =====
-- `InMemoryLSH` of src/lsh/mod.rs: what a query finds after insertions.
use incrededup.Base.{
  subst, ℕ, zero, suc, ◌+◌, ◌*◌, ◌^◌, ◌<◌, ◌≡◌, ◌↔◌, ◌⊎◌, inl, refl, sym, ap, ◌∙◌, true, false,
  ◌==◌, ltb, List, [], ◌∷◌, ◌++◌, Elem, All, arith, length, leb, sort_by, Elem-sort_by, Result, ok,
  ⊎_elim,
}
use incrededup.Base.Results.{◌>>=◌}
use incrededup.Table.{Table}
use incrededup.UnionFind.{Uuid}
use incrededup.MinHash.{Hasher}
use incrededup.Lsh.{
  LshError, InMemoryLsh, validate_signature_len, dedup, try_insert, try_query, with_params,
  empty_tables, bucket,
}
use incrededup.Lsh.Bands.{
  Elem-dedup, band_hash, Shares, pushed, collected, push_bands_lem, collect_lem, length-pushed,
  Elem-collected,
}

pub validate_signature_len_lem :
    (signature : List ℕ) (bands rows : ℕ)
    → 0 < bands * rows
    → bands * rows < 2 ^ 64
    → length signature ≡ bands * rows
    → validate_signature_len signature bands rows ≡ ok tt
unfolding validate_signature_len
validate_signature_len_lem signature bands rows pos fits e =
    let a : ltb (bands * rows) (2 ^ 64) ≡ true = ground arith in
    let b : (bands * rows == 0) ≡ false = ground arith in
    let c : (length signature == bands * rows) ≡ true = ground arith in rw (a, b, c) refl

module _ (H : Hasher) (B : Table ℕ (List Uuid)) (S : Table Uuid (List ℕ)) where
  -- A table for each band, and a signature length that is positive and fits a `usize`.
  pub record IsValid (m : InMemoryLsh H B S) : Type 0 where
    pub tabled : length m.hash_tables ≡ m.num_bands
    pub positive : 0 < m.num_bands * m.rows_per_band
    pub fits : m.num_bands * m.rows_per_band < 2 ^ 64

  -- The signatures that the index accepts.
  abbrev pub Fits : InMemoryLsh H B S → List ℕ → Type 0
  Fits m signature = length signature ≡ m.num_bands * m.rows_per_band

  abbrev pub candidates : InMemoryLsh H B S → List ℕ → List Uuid
  candidates m t = collected H B t m.rows_per_band m.hash_tables 0

  abbrev inserted : InMemoryLsh H B S → Uuid → List ℕ → InMemoryLsh H B S
  inserted m d s = record m {
    hash_tables = pushed H B d s m.rows_per_band m.hash_tables 0;
    signatures = S.insert m.signatures d s;
  }

  inserted-IsValid :
      (m : InMemoryLsh H B S) (d : Uuid) (s : List ℕ) → IsValid m → IsValid (inserted m d s)
  inserted-IsValid m d s h = record {
    tabled = length-pushed H B d s m.rows_per_band m.hash_tables 0 ∙ h.tabled;
    positive = h.positive;
    fits = h.fits;
  }

  banded :
      (m : InMemoryLsh H B S) (s : List ℕ)
      → IsValid m
      → Fits m s
      → length s ≡ (0 + length m.hash_tables) * m.rows_per_band
  banded m s h e =
      let at : m.num_bands ≡ 0 + length m.hash_tables = omega (arith, h.tabled) in
      e ∙ ap (λ k. k * m.rows_per_band) at

  try_insert_lem :
      (m : InMemoryLsh H B S) (d : Uuid) (s : List ℕ)
      → IsValid m
      → Fits m s
      → try_insert H B S m d s ≡ ok (inserted m d s)
  unfolding try_insert
  try_insert_lem m d s h e =
      rw
        (
          validate_signature_len_lem s m.num_bands m.rows_per_band h.positive h.fits e,
          push_bands_lem H B d s m.rows_per_band m.hash_tables 0 (banded m s h e),
        )
        refl

  try_query_lem :
      (m : InMemoryLsh H B S) (t : List ℕ)
      → IsValid m
      → Fits m t
      → try_query H B S m t ≡ ok (dedup (sort_by leb (candidates m t)))
  unfolding try_query
  try_query_lem m t h e =
      rw
        (
          validate_signature_len_lem t m.num_bands m.rows_per_band h.positive h.fits e,
          collect_lem H B t m.rows_per_band m.hash_tables 0 (banded m t h e),
        )
        refl

  -- Insertions one after the other, up to the first error.
  pub insert_all : InMemoryLsh H B S → List (Uuid × List ℕ) → Result LshError (InMemoryLsh H B S)
  insert_all m [] = ok m
  insert_all m ((d, s) ∷ docs) = do m' ← try_insert H B S m d s; insert_all m' docs

  -- Some inserted pair has the document, and a signature that shares a band with `t`.
  abbrev pub Stored : List (Uuid × List ℕ) → List ℕ → ℕ → ℕ → Uuid → Type 0
  Stored [] t bands rows x = ⊥
  Stored ((d, s) ∷ docs) t bands rows x =
      ((x ≡ d) × Shares H B s t rows bands 0) ⊎ Stored docs t bands rows x

  insert_all_lem :
      (m : InMemoryLsh H B S) (docs : List (Uuid × List ℕ)) (t : List ℕ)
      → IsValid m
      → All (λ e. Fits m e.1) docs
      → (m' : InMemoryLsh H B S) × (insert_all m docs ≡ ok m')
        × IsValid m'
        × (m'.num_bands ≡ m.num_bands)
        × (m'.rows_per_band ≡ m.rows_per_band)
        × ((x : Uuid)
            → Elem x (candidates m' t)
              ↔ (Elem x (candidates m t) ⊎ Stored docs t m.num_bands m.rows_per_band x))
  unfolding insert_all
  insert_all_lem m [] t h fit = (m, refl, h, refl, refl, λ x. (inl, ⊎_elim (λ k. k) absurd))
  insert_all_lem m ((d, s) ∷ docs) t h fit =
      let (m', run, valid, same_bands, same_rows, found) =
        insert_all_lem (inserted m d s) docs t (inserted-IsValid m d s h) fit.1 in
      (
        m',
        rw (try_insert_lem m d s h fit.0) run,
        valid,
        same_bands,
        same_rows,
        λ x. let here = added x in ground (arith, found x, here),
      )
    where
      added :
          (x : Uuid)
          → Elem x (candidates (inserted m d s) t)
            ↔ (Elem x (candidates m t) ⊎ (x ≡ d) × Shares H B s t m.rows_per_band m.num_bands 0)
      added x =
          subst
            (λ n.
              Elem x (candidates (inserted m d s) t)
              ↔ (Elem x (candidates m t) ⊎ (x ≡ d) × Shares H B s t m.rows_per_band n 0))
            h.tabled (Elem-collected H B d x s t m.rows_per_band m.hash_tables 0)

  length-empty_tables : (n : ℕ) → length (empty_tables H B S n) ≡ n
  unfolding empty_tables
  length-empty_tables zero = refl
  length-empty_tables (suc n) = ap suc (length-empty_tables n)

  no_bucket : (h : ℕ) → bucket H B B.empty h ≡ []
  no_bucket h = rw (B.get-empty h, bucket) refl

  nothing :
      (x : Uuid) (t : List ℕ) (rows n band : ℕ)
      → ¬ Elem x (collected H B t rows (empty_tables H B S n) band)
  unfolding empty_tables collected
  nothing x t rows zero band m = m
  nothing x t rows (suc n) band m = nothing x t rows n (band + 1) (
      subst (λ ids. Elem x (ids ++ collected H B t rows (empty_tables H B S n) (band + 1)))
        (no_bucket (band_hash H t rows band)) m)

  with_params-IsValid :
      (bands rows : ℕ)
      → 0 < bands * rows
      → bands * rows < 2 ^ 64
      → IsValid (with_params H B S bands rows)
  unfolding with_params
  with_params-IsValid bands rows pos fits = record {
    tabled = length-empty_tables bands;
    positive = pos;
    fits = fits;
  }

  -- For a configuration with a positive signature length that fits a `usize`, and signatures of
  -- that length: after insertions into a new index, which succeed, a query succeeds and finds
  -- exactly the documents of which an inserted signature has the hash of some band in common with
  -- the queried signature.
  pub try_query-Stored :
      (bands rows : ℕ) (docs : List (Uuid × List ℕ)) (t : List ℕ)
      → 0 < bands * rows
      → bands * rows < 2 ^ 64
      → All (λ e. length e.1 ≡ bands * rows) docs
      → length t ≡ bands * rows
      → (m : InMemoryLsh H B S) × (ids : List Uuid) × (insert_all
            (with_params H B S bands rows)
            docs
          ≡ ok m)
        × (try_query H B S m t ≡ ok ids)
        × ((x : Uuid) → Elem x ids ↔ Stored docs t bands rows x)
  unfolding with_params
  try_query-Stored bands rows docs t pos fits fit e =
      let start = with_params H B S bands rows in
      let valid : IsValid start = with_params-IsValid bands rows pos fits in
      let (m, run, after, same_bands, same_rows, found) = insert_all_lem start docs t valid fit in
      let product : m.num_bands * m.rows_per_band ≡ bands * rows =
        rw (same_bands, same_rows) refl in
      let ids = dedup (sort_by leb (candidates m t)) in
      (
        m,
        ids,
        run,
        try_query_lem m t after (e ∙ sym product),
        λ x.
            let sorted = Elem-sort_by leb x (candidates m t) in
            let unique = Elem-dedup x (sort_by leb (candidates m t)) in
            let none_before = nothing x t rows bands 0 in
            ground (arith, found x, sorted, unique, none_before),
      )
