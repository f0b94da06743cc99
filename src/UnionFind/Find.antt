-- ===== src/UnionFind/Find.antt =====
-- `UnionFind::find` of src/union_find.rs: it ends, returns the root, moves no root and flattens
-- the path.
use incrededup.Base.{
  ℕ, zero, suc, ◌<◌, ◌≡◌, ◌≢◌, ◌↔◌, ◌⊎◌, refl, sym, ◌∙◌, subst, inl, inr, none, some, List, [], ◌∷◌,
  ◌++◌, Elem, All, All-map, All-append, Elem-append, ⊎_elim, arith, ==-cases, Option-cases,
}
use incrededup.Table.{Table}
use incrededup.Table.Keys.{get-insert}
use incrededup.UnionFind.{Uuid, walk, compress, find}
use incrededup.UnionFind.Forest.{
  Root, stop, step, IsRanked, Updates, Root-fixed, rank-Root-lt, IsRanked-update, Root-shortcut,
}

module _ (M : Table Uuid Uuid) where
  open M use {T, get, insert}

  -- The parent of a node, a node with no entry being its own.
  abbrev pub parent_of : T → Uuid → Uuid
  parent_of uf x = elim (get uf x) [ none ↦ x | some p ↦ p ]

  pub parent_of-insert :
      (uf : T) (c r : Uuid) → Updates (parent_of uf) (parent_of (insert uf c r)) c r
  parent_of-insert uf c r z = ground (arith, get-insert M uf c z r)

  -- `uf'` has the nodes and the roots of `uf`.
  pub record Refines (rank : ℕ → ℕ) (uf uf' : T) : Type 0 where
    pub ranked : IsRanked rank (parent_of uf')
    pub roots : (r x : Uuid) → Root (parent_of uf) r x → Root (parent_of uf') r x
    pub members : (x : Uuid) → (get uf x ≡ none) ↔ (get uf' x ≡ none)

  pub Refines-refl : (rank : ℕ → ℕ) (uf : T) → IsRanked rank (parent_of uf) → Refines rank uf uf
  Refines-refl rank uf h = record {
    ranked = h;
    roots = λ r x d. d;
    members = λ x. (λ e. e, λ e. e);
  }

  pub Refines-trans :
      (rank : ℕ → ℕ) (s t u : T) → Refines rank s t → Refines rank t u → Refines rank s u
  Refines-trans rank s t u h k = record {
    ranked = k.ranked;
    roots = λ r x d. k.roots r x (h.roots r x d);
    members =
        λ x. (λ e. (k.members x).0 ((h.members x).0 e), λ e. (h.members x).1 ((k.members x).1 e));
  }

  -- A node that the walk to `r` passes.
  abbrev OnPath : T → Uuid → Uuid → Type 0
  OnPath uf r c = (parent_of uf c ≢ c) × Root (parent_of uf) r c

  OnPath-ne : (uf : T) (r c : Uuid) → OnPath uf r c → c ≢ r
  OnPath-ne uf r c h e = h.0 (subst (λ z. parent_of uf z ≡ z) (sym e) (Root-fixed h.1))

  insert-Refines :
      (rank : ℕ → ℕ) (uf : T) (r c : Uuid)
      → IsRanked rank (parent_of uf)
      → OnPath uf r c
      → rank r < rank c
      → Refines rank uf (insert uf c r)
  insert-Refines rank uf r c h on lt = record {
    ranked = IsRanked-update (parent_of-insert uf c r) rank h lt;
    roots = λ s x d. Root-shortcut (parent_of-insert uf c r) on.1 (OnPath-ne uf r c on) d;
    members = λ x. ground (arith, get-insert M uf c x r, on.0);
  }

  compress-Refines :
      (rank : ℕ → ℕ) (uf : T) (path : List Uuid) (r : Uuid)
      → IsRanked rank (parent_of uf)
      → All (OnPath uf r) path
      → Refines rank uf (compress M uf path r)
  unfolding compress
  compress-Refines rank uf [] r h on = Refines-refl rank uf h
  compress-Refines rank uf (c ∷ path) r h on =
      let first = insert-Refines rank uf r c h on.0 (rank-Root-lt rank h on.0.0 on.0.1) in
      Refines-trans rank uf (insert uf c r) _ first (
        compress-Refines rank (insert uf c r) path r first.ranked (
          All-map path
            (λ b k. (
              ground (arith, k.0, parent_of-insert uf c r b, OnPath-ne uf r b k),
              first.roots r b k.1,
            ))
            on.1))

  compress_flat :
      (uf : T) (path : List Uuid) (r c : Uuid)
      → Elem c path ⊎ (parent_of uf c ≡ r)
      → parent_of (compress M uf path r) c ≡ r
  unfolding compress
  compress_flat uf [] r c h = ⊎_elim absurd (λ e. e) h
  compress_flat uf (b ∷ path) r c h =
      compress_flat (insert uf b r) path r c (ground (arith, parent_of-insert uf b r c))

  -- What a walk from `x` that has passed `path` returns.
  pub record Walked (uf : T) (x : Uuid) (path : List Uuid) (r : Uuid) (path' : List Uuid)
      : Type 0 where
    pub root : Root (parent_of uf) r x
    pub on_path : All (OnPath uf r) path'
    pub start : (x ≡ r) ⊎ Elem x path'
    pub kept : (c : Uuid) → Elem c path → Elem c path'

  walk_lem :
      (rank : ℕ → ℕ) (fuel : ℕ) (uf : T) (x : Uuid) (path : List Uuid)
      → IsRanked rank (parent_of uf)
      → rank x < fuel
      → ((r : Uuid) → Root (parent_of uf) r x → All (OnPath uf r) path)
      → (r : Uuid) × (path' : List Uuid) × (walk M fuel uf x path ≡ some (r, path'))
        × Walked uf x path r path'
  unfolding walk
  walk_lem rank zero uf x path h lt on = absurd (omega arith)
  walk_lem rank (suc fuel) uf x path h lt on = elim (Option-cases (get uf x)) [
    | inl e ↦ (x, path, rw (e, walk), top (ground arith))
    | inr (p, e) ↦ elim (==-cases p x) [
      | inl (t, same) ↦ (x, path, rw (e, walk, t), top (ground arith))
      | inr (t, ne) ↦
          let here : parent_of uf x ≡ p = ground arith in
          let (r, path', run, w) =
            walk_lem rank fuel uf p (path ++ x ∷ []) h (omega (arith, h_at here ne)) (λ r d.
              All-append (OnPath uf r) path (x ∷ []) (on r (up here d))
                ((λ f. ne (sym here ∙ f), up here d), tt)) in
          (
            r,
            path',
            rw (e, walk, t) run,
            record {
              root = up here w.root;
              on_path = w.on_path;
              start = inr (w.kept x ((Elem-append x path (x ∷ [])).1 (inr (inl refl))));
              kept = λ c m. w.kept c ((Elem-append c path (x ∷ [])).1 (inl m));
            },
          )
    ]
  ]
    where
      top : parent_of uf x ≡ x → Walked uf x path x path
      top e = record {
        root = stop x refl e;
        on_path = on x (stop x refl e);
        start = inl refl;
        kept = λ c m. m;
      }

      up : {p r : Uuid} → parent_of uf x ≡ p → Root (parent_of uf) r p → Root (parent_of uf) r x
      up {p} {r} e d = step x (subst (Root (parent_of uf) r) (sym e) d)

      h_at : {p : Uuid} → parent_of uf x ≡ p → p ≢ x → rank p < rank x
      h_at {p} e n = subst (λ z. rank z < rank x) e (h x (λ f. n (sym e ∙ f)))

  -- What `find` returns: the root, in a forest with the same roots, where the node now points
  -- straight at it.
  pub record Found (rank : ℕ → ℕ) (uf : T) (x : Uuid) (uf' : T) (r : Uuid) : Type 0 where
    pub root : Root (parent_of uf) r x
    pub refines : Refines rank uf uf'
    pub flat : parent_of uf' x ≡ r

  -- On a forest in which every step lowers the rank, `find` ends with fuel above the rank of its
  -- argument. It returns the root that the parents lead to, keeps the nodes and the root of every
  -- node, and leaves the argument pointing straight at its root.
  pub find-Found :
      (rank : ℕ → ℕ) (fuel : ℕ) (uf : T) (x : Uuid)
      → IsRanked rank (parent_of uf)
      → rank x < fuel
      → (uf' : T) × (r : Uuid) × (find M fuel uf x ≡ some (uf', r)) × Found rank uf x uf' r
  unfolding find
  find-Found rank fuel uf x h lt =
      let (r, path, run, w) = walk_lem rank fuel uf x [] h lt (λ r d. tt) in
      (
        compress M uf path r,
        r,
        rw run,
        record {
          root = w.root;
          refines = compress-Refines rank uf path r h w.on_path;
          flat = compress_flat uf path r x (elim w.start [
            | inl e ↦ inr (subst (λ z. parent_of uf z ≡ r) (sym e) (Root-fixed w.root))
            | inr m ↦ inl m
          ]);
        },
      )
