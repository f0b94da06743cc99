-- ===== src/SyncMode/Rows.antt =====
-- Rows that are written again: the same rows, on a second run.
use incrededup.Base.{
  ℕ, suc, zero, take, drop, concat, append_nil, append_assoc, Elem-append, ◌≡◌, ◌↔◌, ◌⊎◌, inl, inr,
  refl, sym, ap, ◌∙◌, subst, List, [], ◌∷◌, ◌++◌, Elem, Elem-map_in, Elem-map_out, Distinct,
  Distinct-unique, clash, ⊎_elim, Bool-cases, contains, contains_iff,
}
use incrededup.Match.{Float, DupeMatch}
use incrededup.UnionFind.{Uuid}
use incrededup.Db.{Database}
use incrededup.Db.Children.{child_of, children}
use incrededup.Db.Rows.{Replaced}

-- Of two beginnings of a list, one begins the other.
pub compare-beginnings :
    {A : Type 0} (b c u v : List A)
    → b ++ c ≡ u ++ v
    → ((t : List A) × (u ≡ b ++ t) × (c ≡ t ++ v)) ⊎ ((t : List A) × (b ≡ u ++ t) × (v ≡ t ++ c))
compare-beginnings [] c u v e = inl (u, refl, e)
compare-beginnings (x ∷ b) c [] v e = inr (x ∷ b, refl, sym e)
compare-beginnings (x ∷ b) c (y ∷ u) v e =
    let (same, rest) = heads x y (b ++ c) (u ++ v) e in
    elim (compare-beginnings b c u v rest) [
      | inl (t, p, q) ↦ inl (t, ap (λ l. y ∷ l) p ∙ ap (λ z. z ∷ b ++ t) (sym same), q)
      | inr (t, p, q) ↦ inr (t, ap (λ l. x ∷ l) p ∙ ap (λ z. z ∷ u ++ t) same, q)
    ]
  where
    heads : {A : Type 0} (x y : A) (xs ys : List A) → x ∷ xs ≡ y ∷ ys → (x ≡ y) × (xs ≡ ys)
    heads x y xs ys e = (cc, cc)

pub concat-take :
    {A : Type 0} (k : ℕ) (cs : List (List A)) → concat cs ≡ concat (take k cs) ++ concat (drop k cs)
unfolding concat
concat-take zero cs = refl
concat-take (suc k) [] = refl
concat-take (suc k) (c ∷ cs) =
    ap (λ l. c ++ l) (concat-take k cs)
    ∙ sym (append_assoc c (concat (take k cs)) (concat (drop k cs)))

-- The longer of two beginnings has the elements of both.
pub longer :
    {A : Type 0} (b c u v : List A)
    → b ++ c ≡ u ++ v
    → (s : List A) × (rest : List A) × (b ++ c ≡ (u ++ s) ++ rest)
      × ((n : A) → Elem n (u ++ s) ↔ (Elem n b ⊎ Elem n u))
longer b c u v e = elim (compare-beginnings b c u v e) [
  | inl (t, p, q) ↦ (
    [],
    v,
    e ∙ ap (λ l. l ++ v) (sym (append_nil u)),
    λ n. (
      λ i. inr (subst (Elem n) (append_nil u) i),
      λ i.
          subst (Elem n) (sym (append_nil u))
            (elim i [ inl j ↦ subst (Elem n) (sym p) ((Elem-append n b t).1 (inl j)) | inr j ↦ j ]),
    ),
  )
  | inr (t, p, q) ↦ (
    t,
    c,
    ap (λ l. l ++ c) p,
    λ n. (
      λ i. inl (subst (Elem n) (sym p) i),
      λ i. elim i [ inl j ↦ subst (Elem n) p j | inr j ↦ (Elem-append n u t).1 (inl j) ],
    ),
  )
]

module _ {A : Type 0} where
  pub parts :
      (xs a b c : List A) (m : A)
      → xs ≡ a ++ (b ++ c)
      → (Elem m xs → Elem m a ⊎ (Elem m b ⊎ Elem m c)) × (Elem m a ⊎ Elem m b → Elem m xs)
  parts xs a b c m e = (
    λ i. elim ((Elem-append m a (b ++ c)).0 (subst (Elem m) e i)) [
      | inl j ↦ inl j
      | inr j ↦ inr ((Elem-append m b c).0 j)
    ],
    λ i. subst (Elem m) (sym e) (
        (Elem-append m a (b ++ c)).1
          (elim i [ inl j ↦ inl j | inr j ↦ inr ((Elem-append m b c).1 (inl j)) ])),
  )

  pub group : (a x y s : List A) → a ++ ((x ++ y) ++ s) ≡ (a ++ x) ++ (y ++ s)
  group a x y s = ap (λ t. a ++ t) (append_assoc x y s) ∙ sym (append_assoc a x (y ++ s))

  pub regroup : (a x y s c : List A) → a ++ (((x ++ y) ++ s) ++ c) ≡ (a ++ x) ++ ((y ++ s) ++ c)
  regroup a x y s c =
      sym (append_assoc a ((x ++ y) ++ s) c)
      ∙ ap (λ t. t ++ c) (group a x y s)
      ∙ append_assoc (a ++ x) (y ++ s) c

module _ (F : Float) (D : Database F) where
  abbrev pub Within : List (DupeMatch F) → List (DupeMatch F) → Type 0
  Within xs ys = (m : DupeMatch F) → Elem m xs → Elem m ys

  -- Rows of one list of distinct children may be written twice.
  pub Replaced-again :
      (resolved w u l : List (DupeMatch F)) (db₀ db db' : D.Db)
      → Distinct (child_of F) resolved
      → Within w resolved
      → Within u resolved
      → ((m : DupeMatch F) → Elem m l ↔ (Elem m w ⊎ Elem m u))
      → Replaced F D w db₀ db
      → Replaced F D u db db'
      → Replaced F D l db₀ db'
  Replaced-again resolved w u l db₀ db db' d inw inu whole h k = record {
    rows = λ n. (out n, back n);
    flags = λ x. k.flags x ∙ h.flags x;
  }
    where
      again : (n : DupeMatch F) → Elem n w → Elem n.child_id (children F u) → Elem n u
      again n i j =
          let (m, o, e) = Elem-map_out (child_of F) u n.child_id j in
          subst (λ t. Elem t u)
            (sym (Distinct-unique (child_of F) resolved n m d (inw n i) (inu m o) e)) o

      kids : (x : Uuid) → Elem x (children F l) ↔ (Elem x (children F w) ⊎ Elem x (children F u))
      kids x = (
        λ i.
            let (m, o, e) = Elem-map_out (child_of F) l x i in
            ⊎_elim
              (λ a.
                inl (subst (λ y. Elem y (children F w)) (sym e) (Elem-map_in (child_of F) w m a)))
              (λ b.
                inr (subst (λ y. Elem y (children F u)) (sym e) (Elem-map_in (child_of F) u m b)))
              ((whole m).0 o),
        λ i. elim i [
          | inl a ↦
              let (m, o, e) = Elem-map_out (child_of F) w x a in
              subst (λ y. Elem y (children F l)) (sym e)
                (Elem-map_in (child_of F) l m ((whole m).1 (inl o)))
          | inr b ↦
              let (m, o, e) = Elem-map_out (child_of F) u x b in
              subst (λ y. Elem y (children F l)) (sym e)
                (Elem-map_in (child_of F) l m ((whole m).1 (inr o)))
        ],
      )

      out :
          (n : DupeMatch F)
          → Elem n (D.dupes db')
          → Elem n l ⊎ Elem n (D.dupes db₀) × (Elem n.child_id (children F l) → ⊥)
      out n i = elim ((k.rows n).0 i) [
        | inl a ↦ inl ((whole n).1 (inr a))
        | inr (a, no_u) ↦ elim ((h.rows n).0 a) [
          | inl b ↦ inl ((whole n).1 (inl b))
          | inr (b, no_w) ↦ inr (b, λ x. ⊎_elim no_w no_u ((kids n.child_id).0 x))
        ]
      ]

      back :
          (n : DupeMatch F)
          → Elem n l ⊎ Elem n (D.dupes db₀) × (Elem n.child_id (children F l) → ⊥)
          → Elem n (D.dupes db')
      back n (inl i) = elim ((whole n).0 i) [
        | inl a ↦ elim (Bool-cases (contains (children F u) n.child_id)) [
          | inl t ↦ (k.rows n).1 (inl (again n a ((contains_iff (children F u) n.child_id).0 t)))
          | inr f ↦ (k.rows n).1 (
              inr
                ((h.rows n).1 (inl a), λ x. clash ((contains_iff (children F u) n.child_id).1 x) f))
        ]
        | inr b ↦ (k.rows n).1 (inl b)
      ]
      back n (inr (i, no_l)) = (k.rows n).1 (
          inr (
            (h.rows n).1 (inr (i, λ x. no_l ((kids n.child_id).1 (inl x)))),
            λ x. no_l ((kids n.child_id).1 (inr x)),
          ))
