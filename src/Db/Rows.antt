-- ===== src/Db/Rows.antt =====
-- What the writes of src/db/mod.rs do to the `dupes` table.
use incrededup.Base.{
  ℕ, ◌+◌, ◌≡◌, ◌↔◌, ◌⊎◌, inl, inr, refl, sym, ap, ◌∙◌, subst, arith, List, [], ◌∷◌, ◌++◌, Elem,
  Elem-append, Distinct, map-append, Elem-map_in, Elem-map_out, Distinct-append, Distinct-unique,
  length, length-append, chunks, concat, concat-chunks, ok, err, some, ⊎_elim,
}
use incrededup.Match.{Float, DupeMatch}
use incrededup.UnionFind.{Uuid}
use incrededup.Db.{
  Database, multiple_parents, check_children, write_chunks, write_dupes, dupe_write_chunk_size,
}
use incrededup.Db.Children.{child_of, children, FirstRepeat, check_children-cases}

module _ (F : Float) (D : Database F) where
  -- The rows `ms` have taken the place of the rows of their children.
  pub record Replaced (ms : List (DupeMatch F)) (db db' : D.Db) : Type 0 where
    pub rows :
        (n : DupeMatch F)
        → Elem n (D.dupes db')
          ↔ (Elem n ms ⊎ Elem n (D.dupes db) × (Elem n.child_id (children F ms) → ⊥))
    pub flags : (x : Uuid) → D.flag db' x ≡ D.flag db x

  pub Replaced-nil : (db : D.Db) → Replaced [] db db
  Replaced-nil db = record {
    rows = λ n. (λ k. inr (k, λ m. m), λ h. ⊎_elim absurd (λ k. k.0) h);
    flags = λ x. refl;
  }

  -- The rows of the parts of a list of distinct children stay beside each other.
  pub Replaced-trans :
      (a b : List (DupeMatch F)) (db db₁ db₂ : D.Db)
      → Distinct (child_of F) (a ++ b)
      → Replaced a db db₁
      → Replaced b db₁ db₂
      → Replaced (a ++ b) db db₂
  Replaced-trans a b db db₁ db₂ d h k = record {
    rows = λ n. rows_lem n;
    flags = λ x. k.flags x ∙ h.flags x;
  }
    where
      split :
          (x : Uuid)
          → Elem x (children F (a ++ b)) ↔ (Elem x (children F a) ⊎ Elem x (children F b))
      split x = rw (map-append (child_of F) a b) (Elem-append x (children F a) (children F b))

      apart : (n : DupeMatch F) → Elem n a → Elem n.child_id (children F b) → ⊥
      apart n m i =
          let (z, e, p) = Elem-map_out (child_of F) b n.child_id i in
          (Distinct-append (child_of F) a b d).2 n z m e p

      rows_lem :
          (n : DupeMatch F)
          → Elem n (D.dupes db₂)
            ↔ (Elem n (a ++ b) ⊎ Elem n (D.dupes db) × (Elem n.child_id (children F (a ++ b)) → ⊥))
      rows_lem n = ground (arith, h.rows n, k.rows n, Elem-append n a b, split n.child_id, apart n)

  -- No child has two rows.
  abbrev pub OneParent : D.Db → Type 0
  OneParent db =
      (m n : DupeMatch F)
      → Elem m (D.dupes db)
      → Elem n (D.dupes db)
      → m.child_id ≡ n.child_id
      → m ≡ n

  pub OneParent-Replaced :
      (ms : List (DupeMatch F)) (db db' : D.Db)
      → Distinct (child_of F) ms
      → OneParent db
      → Replaced ms db db'
      → OneParent db'
  OneParent-Replaced ms db db' d one h m n i j e = elim ((h.rows m).0 i) [
    | inl a ↦ elim ((h.rows n).0 j) [
      | inl b ↦ Distinct-unique (child_of F) ms m n d a b e
      | inr (b, new) ↦
          absurd (new (subst (λ x. Elem x (children F ms)) e (Elem-map_in (child_of F) ms m a)))
    ]
    | inr (a, new) ↦ elim ((h.rows n).0 j) [
      | inl b ↦
          absurd
            (new (subst (λ x. Elem x (children F ms)) (sym e) (Elem-map_in (child_of F) ms n b)))
      | inr (b, new_too) ↦ one m n a b e
    ]
  ]

  chunk-Replaced :
      (chunk : List (DupeMatch F)) (db : D.Db)
      → Distinct (child_of F) chunk
      → (db' : D.Db) × (D.insert_dupes (D.delete_dupes db (children F chunk)) chunk ≡ some db')
        × Replaced chunk db db'
  chunk-Replaced chunk db d =
      let ids = children F chunk in
      let (db', run, rows, flags) = D.insert_fresh (D.delete_dupes db ids) chunk d (λ m n i j e.
        ((D.dupes-delete db ids n).0 j).1
          (subst (λ x. Elem x ids) e (Elem-map_in (child_of F) chunk m i))) in
      (
        db',
        run,
        record {
          rows = λ n. ground (arith, rows n, D.dupes-delete db ids n);
          flags = λ x. flags x ∙ D.flag-delete db ids x;
        },
      )

  write_chunks-Replaced :
      (cs : List (List (DupeMatch F))) (db : D.Db) (total : ℕ)
      → Distinct (child_of F) (concat cs)
      → (db' : D.Db) × (write_chunks F D cs db total ≡ (db', ok (total + length (concat cs))))
        × Replaced (concat cs) db db'
  unfolding write_chunks concat
  write_chunks-Replaced [] db total d = (db, ap (λ n. (db, ok n)) (omega arith), Replaced-nil db)
  write_chunks-Replaced (c ∷ cs) db total d =
      let (first, rest, apart) = Distinct-append (child_of F) c (concat cs) d in
      let (db₁, run₁, h₁) = chunk-Replaced c db first in
      let (db₂, run₂, h₂) = write_chunks-Replaced cs db₁ (total + length c) rest in
      let sum : total + length c + length (concat cs) ≡ total + length (c ++ concat cs) =
        omega (arith, length-append c (concat cs)) in
      (
        db₂,
        rw (run₁, write_chunks) (run₂ ∙ ap (λ n. (db₂, ok n)) sum),
        Replaced-trans c (concat cs) db db₁ db₂ d h₁ h₂,
      )

  -- What `write_dupes` answers and leaves.
  pub data Written (db : D.Db) (ms : List (DupeMatch F)) : D.Db → Type 0 where
    all_rows :
        (db' : D.Db)
        → Distinct (child_of F) ms
        → write_dupes F D db ms ≡ (db', ok (length ms))
        → Replaced ms db db'
        → Written db ms db'
    no_row :
        (c : Uuid)
        → (Distinct (child_of F) ms → ⊥)
        → FirstRepeat F ms [] c
        → write_dupes F D db ms ≡ (db, err (multiple_parents c))
        → Written db ms db

  run_chunks :
      (m : DupeMatch F) (ms : List (DupeMatch F)) (db db' : D.Db)
      → check_children F (m ∷ ms) [] ≡ ok tt
      → write_chunks F D (chunks dupe_write_chunk_size (m ∷ ms)) db 0 ≡ (db', ok (length (m ∷ ms)))
      → write_dupes F D db (m ∷ ms) ≡ (db', ok (length (m ∷ ms)))
  unfolding write_dupes
  run_chunks m ms db db' passed run = rw (passed, write_dupes) run

  run_error :
      (m : DupeMatch F) (ms : List (DupeMatch F)) (db : D.Db) (c : Uuid)
      → check_children F (m ∷ ms) [] ≡ err (multiple_parents c)
      → write_dupes F D db (m ∷ ms) ≡ (db, err (multiple_parents c))
  unfolding write_dupes
  run_error m ms db c failed = rw (failed, write_dupes) refl

  chunked :
      (m : DupeMatch F) (ms : List (DupeMatch F)) (db : D.Db)
      → Distinct (child_of F) (m ∷ ms)
      → (db' : D.Db) × (write_chunks F D (chunks dupe_write_chunk_size (m ∷ ms)) db 0
          ≡ (db', ok (length (m ∷ ms))))
        × Replaced (m ∷ ms) db db'
  chunked m ms db d =
      let whole = concat-chunks dupe_write_chunk_size (m ∷ ms) (omega arith) in
      let (db', run, h) =
        write_chunks-Replaced (chunks dupe_write_chunk_size (m ∷ ms)) db 0
          (subst (Distinct (child_of F)) (sym whole) d) in
      (
        db',
        run ∙ ap (λ l. (db', ok (0 + length l))) whole ∙ ap (λ n. (db', ok n)) (omega arith),
        subst (λ l. Replaced l db db') whole h,
      )

  -- `write_dupes` puts all its rows in the place of the rows of their children and returns their
  -- number when no child occurs twice; otherwise its error names the first child that a row before
  -- it has too, and nothing is changed.
  pub write_dupes-Written : (db : D.Db) (ms : List (DupeMatch F)) → (db' : D.Db) × Written db ms db'
  unfolding write_dupes
  write_dupes-Written db [] = (db, all_rows db tt refl (Replaced-nil db))
  write_dupes-Written db (m ∷ ms) = elim (check_children-cases F (m ∷ ms) []) [
    | inl (passed, d, fresh) ↦
        let (db', run, h) = chunked m ms db d in
        (db', all_rows db' d (run_chunks m ms db db' passed run) h)
    | inr (c, failed, stuck, first) ↦
        (db, no_row c (λ d. stuck d (λ n i j. j)) first (run_error m ms db c failed))
  ]

  pub write_dupes-Replaced :
      (db : D.Db) (ms : List (DupeMatch F))
      → Distinct (child_of F) ms
      → (db' : D.Db) × (write_dupes F D db ms ≡ (db', ok (length ms))) × Replaced ms db db'
  unfolding write_dupes
  write_dupes-Replaced db [] d = (db, refl, Replaced-nil db)
  write_dupes-Replaced db (m ∷ ms) d = elim (check_children-cases F (m ∷ ms) []) [
    | inl (passed, e, fresh) ↦
        let (db', run, h) = chunked m ms db d in (db', run_chunks m ms db db' passed run, h)
    | inr (c, failed, stuck, first) ↦ absurd (stuck d (λ n i j. j))
  ]
