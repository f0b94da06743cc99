-- ===== src/Db/Bounds.antt =====
-- The bind parameters of the INSERT statements of `write_dupes` in src/db/mod.rs.
use incrededup.Base.{
  sym, zero, suc, refl, concat-chunks, ◌∙◌, ap, concat, map, ◌≡◌, ℕ, ◌+◌, ◌*◌, ◌<◌, ◌≤◌, List, [],
  ◌∷◌, ◌++◌, All, All-append, All-map, arith, length, chunks, chunks_exact, remainder,
  chunks_exact-IsSplit, IsSplit,
}
use incrededup.Match.{Float, DupeMatch}
use incrededup.UnionFind.{Uuid}
use incrededup.Db.{dupe_write_chunk_size}

-- `i16::MAX`
abbrev pub postgres_bind_param_limit : ℕ
postgres_bind_param_limit = 32767

-- The numbers of the placeholders of a row.
abbrev pub Placeholders : Type 0
Placeholders = ℕ × ℕ × ℕ × ℕ × ℕ

module _ {A : Type 0} where
  few_chunks : (n : ℕ) (xs : List A) → 0 < n → All (λ c. length c ≤ n) (chunks n xs)
  unfolding chunks
  few_chunks n xs h = go (remainder n xs) (chunks_exact-IsSplit n xs h)
    where
      go :
          (r : List A)
          → IsSplit n xs (chunks_exact n xs, r)
          → All
              (λ c. length c ≤ n)
              (elim r [ [] ↦ chunks_exact n xs | x ∷ rs ↦ chunks_exact n xs ++ (x ∷ rs) ∷ [] ])
      go [] s = All-map (chunks_exact n xs) (λ c e. omega (arith, e)) s.full
      go (x ∷ rs) s =
          All-append (λ c. length c ≤ n) (chunks_exact n xs) ((x ∷ rs) ∷ [])
            (All-map (chunks_exact n xs) (λ c e. omega (arith, e)) s.full)
            (omega (arith, s.few), tt)

-- What is bound to a placeholder.
pub data Param (F : Float) : Type 0 where
  id : Uuid → Param F
  double : F.F64 → Param F
  integer : ℕ → Param F

module _ (F : Float) where
  -- The columns of a row, in the order of the statement.
  abbrev pub columns : DupeMatch F → List (Param F)
  columns m =
      id m.child_id
      ∷ id m.parent_id
      ∷ double m.jaccard_similarity
      ∷ integer m.size_difference
      ∷ double m.size_difference_pct
      ∷ []

  -- The rows of placeholders of a statement, and `params`.
  abbrev pub Statement : Type 0
  Statement = List Placeholders × List (Param F)

  -- The loop that appends the rows to the statement, `i` being the next number.
  unfoldable pub insert_rows : ℕ → List (DupeMatch F) → Statement
  insert_rows i [] = ([], [])
  insert_rows i (m ∷ chunk) =
      let rest = insert_rows (i + 5) chunk in
      ((i, i + 1, i + 2, i + 3, i + 4) ∷ rest.0, columns m ++ rest.1)

  unfoldable pub insert_statement : List (DupeMatch F) → Statement
  unfolding insert_rows
  insert_statement chunk = insert_rows 1 chunk

  -- The statements of the transactions of `write_dupes`, one for each chunk.
  unfoldable pub insert_statements : List (DupeMatch F) → List Statement
  insert_statements [] = []
  insert_statements (m ∷ ms) = map insert_statement (chunks dupe_write_chunk_size (m ∷ ms))

  -- The numbers of the placeholders in the order of the text of the statement.
  unfoldable pub numbers : List Placeholders → List ℕ
  numbers [] = []
  numbers ((a, b, c, d, e) ∷ rows) = a ∷ b ∷ c ∷ d ∷ e ∷ numbers rows

  -- `n` numbers from `i`.
  unfoldable pub count_from : ℕ → ℕ → List ℕ
  count_from i zero = []
  count_from i (suc n) = i ∷ count_from (i + 1) n

  -- The placeholders are the numbers of the parameters, from 1 and in their order, and there are
  -- fewer than the limit.
  abbrev pub IsBound : Statement → Type 0
  IsBound st =
      (numbers st.0 ≡ count_from 1 (length st.1)) × (length st.1 < postgres_bind_param_limit)

  count_from-five :
      (i n : ℕ)
      → count_from i (suc (suc (suc (suc (suc n)))))
        ≡ i ∷ (i + 1) ∷ (i + 2) ∷ (i + 3) ∷ (i + 4) ∷ count_from (i + 5) n
  unfolding count_from
  count_from-five i n =
      let e₂ : i + 1 + 1 ≡ i + 2 = omega arith in
      let e₃ : i + 2 + 1 ≡ i + 3 = omega arith in
      let e₄ : i + 3 + 1 ≡ i + 4 = omega arith in
      let e₅ : i + 4 + 1 ≡ i + 5 = omega arith in rw (e₂, e₃, e₄, e₅) refl

  insert_rows_lem :
      (i : ℕ) (chunk : List (DupeMatch F))
      → (numbers (insert_rows i chunk).0 ≡ count_from i (length (insert_rows i chunk).1))
        × (length (insert_rows i chunk).1 ≡ 5 * length chunk)
        × ((insert_rows i chunk).1 ≡ concat (map columns chunk))
  unfolding insert_rows numbers count_from concat
  insert_rows_lem i [] = (refl, refl, refl)
  insert_rows_lem i (m ∷ chunk) =
      let (e, n, p) = insert_rows_lem (i + 5) chunk in
      (
        ap (λ l. i ∷ (i + 1) ∷ (i + 2) ∷ (i + 3) ∷ (i + 4) ∷ l) e ∙ sym (count_from-five i _),
        omega (arith, n),
        ap (λ l. columns m ++ l) p,
      )

  statement_lem :
      (chunk : List (DupeMatch F))
      → length chunk ≤ dupe_write_chunk_size
      → IsBound (insert_statement chunk)
  unfolding insert_statement
  statement_lem chunk le = let (e, n, p) = insert_rows_lem 1 chunk in (e, omega (arith, n, le))

  columns-append :
      (a b : List (DupeMatch F))
      → concat (map columns a) ++ concat (map columns b) ≡ concat (map columns (a ++ b))
  unfolding concat
  columns-append [] b = refl
  columns-append (m ∷ a) b = ap (λ l. columns m ++ l) (columns-append a b)

  concat-columns :
      (cs : List (List (DupeMatch F)))
      → concat (map (λ (st : Statement). st.1) (map insert_statement cs))
        ≡ concat (map columns (concat cs))
  unfolding insert_statement concat
  concat-columns [] = refl
  concat-columns (c ∷ cs) =
      let (e, n, p) = insert_rows_lem 1 c in
      ap (λ l. l ++ concat (map (λ (st : Statement). st.1) (map insert_statement cs))) p
      ∙ ap (λ l. concat (map columns c) ++ l) (concat-columns cs)
      ∙ columns-append c (concat cs)

  All-image :
      (cs : List (List (DupeMatch F)))
      → All (λ c. length c ≤ dupe_write_chunk_size) cs
      → All IsBound (map insert_statement cs)
  All-image [] h = tt
  All-image (c ∷ cs) h = (statement_lem c h.0, All-image cs h.1)

  -- Every INSERT statement that `write_dupes` builds has the numbers 1, 2, 3 and so on of its
  -- parameters as its placeholders, in their order, and fewer than the limit on bind parameters; the
  -- parameters of its statements together are the columns of its rows, in their order.
  pub insert_statements-IsBound :
      (ms : List (DupeMatch F))
      → All IsBound (insert_statements ms)
        × (concat (map (λ (st : Statement). st.1) (insert_statements ms)) ≡ concat (map columns ms))
  unfolding insert_statements concat
  insert_statements-IsBound [] = (tt, refl)
  insert_statements-IsBound (m ∷ ms) = (
    All-image (chunks dupe_write_chunk_size (m ∷ ms))
        (few_chunks dupe_write_chunk_size (m ∷ ms) (omega arith)),
    concat-columns (chunks dupe_write_chunk_size (m ∷ ms))
        ∙ ap (λ l. concat (map columns l))
            (concat-chunks dupe_write_chunk_size (m ∷ ms) (omega arith)),
  )
