-- ===== src/Db/Children.antt =====
-- The test of `write_dupes` of src/db/mod.rs that no child occurs twice.
use incrededup.Base.{
  false, true, Bool, ◌≡◌, ◌⊎◌, inl, inr, refl, sym, ap, subst, Bool-cases, List, [], ◌∷◌, ◌++◌, map,
  Elem, Distinct, contains, contains_iff, include, Elem-include, ok, err,
}
use incrededup.Match.{Float, DupeMatch}
use incrededup.UnionFind.{Uuid}
use incrededup.Db.{multiple_parents, check_children}

module _ (F : Float) where
  abbrev pub child_of : DupeMatch F → Uuid
  child_of m = m.child_id

  abbrev pub children : List (DupeMatch F) → List Uuid
  children ms = map child_of ms

  -- The child `c` is the first of `ms` that a row before it has or that was seen already.
  pub record FirstRepeat (ms : List (DupeMatch F)) (seen : List Uuid) (c : Uuid) : Type 0 where
    pub before : List (DupeMatch F)
    pub row : DupeMatch F
    pub after : List (DupeMatch F)
    pub whole : ms ≡ before ++ row ∷ after
    pub child : row.child_id ≡ c
    pub again : Elem c (children before) ⊎ Elem c seen
    pub distinct : Distinct child_of before
    pub fresh : (m : DupeMatch F) → Elem m before → Elem m.child_id seen → ⊥

  FirstRepeat-cons :
      (m : DupeMatch F) (ms : List (DupeMatch F)) (seen : List Uuid) (c : Uuid)
      → (Elem m.child_id seen → ⊥)
      → FirstRepeat ms (include m.child_id seen) c
      → FirstRepeat (m ∷ ms) seen c
  FirstRepeat-cons m ms seen c new h = record {
    before = m ∷ h.before;
    row = h.row;
    after = h.after;
    whole = ap (λ l. m ∷ l) h.whole;
    child = h.child;
    again = elim h.again [
      | inl e ↦ inl (inr e)
      | inr e ↦ elim ((Elem-include m.child_id c seen).0 e) [
        | inl k ↦ inl (inl k)
        | inr old ↦ inr old
      ]
    ];
    distinct = (
      λ n k e. h.fresh n k ((Elem-include m.child_id n.child_id seen).1 (inl (sym e))),
      h.distinct,
    );
    fresh = λ n k old. elim k [
      | inl e ↦ new (subst (λ (r : DupeMatch F). Elem r.child_id seen) e old)
      | inr i ↦ h.fresh n i ((Elem-include m.child_id n.child_id seen).1 (inr old))
    ];
  }

  -- The test either passes, with children that are distinct and not seen yet, or names the first
  -- child that makes these fail.
  pub check_children-cases :
      (ms : List (DupeMatch F)) (seen : List Uuid)
      → (check_children F ms seen ≡ ok tt)
          × Distinct child_of ms
          × ((m : DupeMatch F) → Elem m ms → Elem m.child_id seen → ⊥)
        ⊎ (c : Uuid) × (check_children F ms seen ≡ err (multiple_parents c))
          × (Distinct child_of ms → ((m : DupeMatch F) → Elem m ms → Elem m.child_id seen → ⊥) → ⊥)
          × FirstRepeat ms seen c
  unfolding check_children
  check_children-cases [] seen = inl (refl, tt, λ m k. absurd k)
  check_children-cases (m ∷ ms) seen = elim (Bool-cases (contains seen m.child_id)) [
    | inl t ↦ inr (
      m.child_id,
      rw t refl,
      λ d fresh. fresh m (inl refl) ((contains_iff seen m.child_id).0 t),
      record {
        before = [];
        row = m;
        after = ms;
        whole = refl;
        child = refl;
        again = inr ((contains_iff seen m.child_id).0 t);
        distinct = tt;
        fresh = λ n k. absurd k;
      },
    )
    | inr new ↦ elim (check_children-cases ms (include m.child_id seen)) [
      | inl (run, d, fresh) ↦ inl (
        rw new run,
        (λ n k e. fresh n k ((Elem-include m.child_id n.child_id seen).1 (inl (sym e))), d),
        λ n k old. elim k [
          | inl e ↦
              let here =
                (contains_iff seen m.child_id).1
                  (subst (λ (r : DupeMatch F). Elem r.child_id seen) e old) in
              cc (here, new)
          | inr i ↦ fresh n i ((Elem-include m.child_id n.child_id seen).1 (inr old))
        ],
      )
      | inr (c, run, stuck, first) ↦ inr (
        c,
        rw new run,
        λ d fresh. stuck d.1 (λ n k old. elim ((Elem-include m.child_id n.child_id seen).0 old) [
          | inl e ↦ d.0 n k (sym e)
          | inr i ↦ fresh n (inr k) i
        ]),
        FirstRepeat-cons m ms seen c
            (λ old. unseen (contains seen m.child_id) ((contains_iff seen m.child_id).1 old) new)
            first,
      )
    ]
  ]
    where
      unseen : (b : Bool) → b ≡ true → b ≡ false → ⊥
      unseen b t f = cc (t, f)
