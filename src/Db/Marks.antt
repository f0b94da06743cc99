-- ===== src/Db/Marks.antt =====
-- What the marks of src/db/mod.rs do to the flags of the documents.
use incrededup.Base.{
  ℕ, ◌+◌, ◌≡◌, ◌↔◌, inl, inr, refl, ap, ◌∙◌, subst, Bool, true, false, Bool-cases, clash, arith,
  Option, none, some, List, [], ◌∷◌, ◌++◌, Elem, Elem-append, contains, contains_iff, chunks,
  concat, concat-chunks,
}
use incrededup.Match.{Float}
use incrededup.UnionFind.{Uuid}
use incrededup.Db.{Database, set_flag, mark_chunks, mark_as_parents, mark_as_children, chunk_size}

module _ (F : Float) (D : Database F) where
  -- The documents in `ids` that have a row got the flag.
  pub record Marked (b : Bool) (ids : List Uuid) (db db' : D.Db) : Type 0 where
    pub rows : (n : _) → Elem n (D.dupes db') ↔ Elem n (D.dupes db)
    pub inside : (x : Uuid) → Elem x ids → D.flag db' x ≡ set_flag b (D.flag db x)
    pub outside : (x : Uuid) → (Elem x ids → ⊥) → D.flag db' x ≡ D.flag db x

  pub Marked-nil : (b : Bool) (db : D.Db) → Marked b [] db db
  Marked-nil b db = record {
    rows = λ n. (λ k. k, λ k. k);
    inside = λ x k. absurd k;
    outside = λ x k. refl;
  }

  set_flag-set_flag :
      (b : Bool) (o : Option (Option Bool)) → set_flag b (set_flag b o) ≡ set_flag b o
  set_flag-set_flag b none = refl
  set_flag-set_flag b (some o) = refl

  pub Marked-trans :
      (b : Bool) (xs ys : List Uuid) (db db₁ db₂ : D.Db)
      → Marked b xs db db₁
      → Marked b ys db₁ db₂
      → Marked b (xs ++ ys) db db₂
  Marked-trans b xs ys db db₁ db₂ h k = record {
    rows = λ n. (λ i. (h.rows n).0 ((k.rows n).0 i), λ i. (k.rows n).1 ((h.rows n).1 i));
    inside = λ x m. elim (Bool-cases (contains ys x)) [
      | inl t ↦ k.inside x ((contains_iff ys x).0 t) ∙ late x
      | inr f ↦
          let new = λ (i : Elem x ys). clash ((contains_iff ys x).1 i) f in
          k.outside x new ∙ h.inside x (early x m new)
    ];
    outside = λ x m.
        k.outside x (λ i. m ((Elem-append x xs ys).1 (inr i)))
        ∙ h.outside x (λ i. m ((Elem-append x xs ys).1 (inl i)));
  }
    where
      early : (x : Uuid) → Elem x (xs ++ ys) → (Elem x ys → ⊥) → Elem x xs
      early x m new = elim ((Elem-append x xs ys).0 m) [ inl i ↦ i | inr i ↦ absurd (new i) ]

      late : (x : Uuid) → set_flag b (D.flag db₁ x) ≡ set_flag b (D.flag db x)
      late x = elim (Bool-cases (contains xs x)) [
        | inl t ↦
            ap (set_flag b) (h.inside x ((contains_iff xs x).0 t))
            ∙ set_flag-set_flag b (D.flag db x)
        | inr f ↦ ap (set_flag b) (h.outside x (λ i. clash ((contains_iff xs x).1 i) f))
      ]

  mark_chunks-Marked :
      (b : Bool) (cs : List (List Uuid)) (db : D.Db) (n : ℕ)
      → Marked b (concat cs) db (mark_chunks F D b cs db n).0
  unfolding mark_chunks concat
  mark_chunks-Marked b [] db n = Marked-nil b db
  mark_chunks-Marked b (c ∷ cs) db n =
      let out = D.update_flags db b c in
      Marked-trans b c (concat cs) db out.0 _
        (record {
          rows = D.dupes-update db b c;
          inside = D.flag-update_in db b c;
          outside = D.flag-update_out db b c;
        })
        (mark_chunks-Marked b cs out.0 (n + out.1))

  all_chunks :
      (b : Bool) (ids : List Uuid) (db : D.Db)
      → Marked b ids db (mark_chunks F D b (chunks chunk_size ids) db 0).0
  all_chunks b ids db =
      subst (λ l. Marked b l db (mark_chunks F D b (chunks chunk_size ids) db 0).0)
        (concat-chunks chunk_size ids (omega arith))
        (mark_chunks-Marked b (chunks chunk_size ids) db 0)

  pub mark_as_parents-Marked :
      (db : D.Db) (ids : List Uuid) → Marked true ids db (mark_as_parents F D db ids).0
  unfolding mark_as_parents
  mark_as_parents-Marked db [] = Marked-nil true db
  mark_as_parents-Marked db (id ∷ ids) = all_chunks true (id ∷ ids) db

  pub mark_as_children-Marked :
      (db : D.Db) (ids : List Uuid) → Marked false ids db (mark_as_children F D db ids).0
  unfolding mark_as_children
  mark_as_children-Marked db [] = Marked-nil false db
  mark_as_children-Marked db (id ∷ ids) = all_chunks false (id ∷ ids) db
