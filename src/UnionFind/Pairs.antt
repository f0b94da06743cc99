-- ===== src/UnionFind/Pairs.antt =====
-- `UnionFind::from_pairs` of src/union_find.rs and its loops.
use mathlib.Core.List.{append-nil, append_assoc}
use incrededup.Base.{
  ℕ, ◌≤◌, ◌≡◌, ◌≢◌, ◌↔◌, ◌⊎◌, refl, sym, ◌∙◌, subst, inl, inr, List, [], ◌∷◌, ◌++◌, Elem, All,
  All-elem, All-append, arith, some, none, ⊎_elim,
}
use incrededup.Table.{Table}
use incrededup.Table.Keys.{get-insert}
use incrededup.UnionFind.{Uuid, make_set, union, make_sets, union_pairs, assign, from_pairs}
use incrededup.UnionFind.Forest.{Root_of_fixed}
use incrededup.UnionFind.Find.{parent_of}
use incrededup.UnionFind.Union.{parent_of-make_set, get-make_set, make_set-get}
use incrededup.UnionFind.Nodes.{fold_roots, Listed, Covers, for_nodes-Listed, Listed_moved}
use incrededup.UnionFind.Components.{
  Endpoint-bounded, here, Canonical, IsBounded, Endpoint, Endpoint-append, Conn-Endpoint,
  Conn-start, Joins, Keyed, union-Joined,
}

module _ (M : Table Uuid Uuid) where
  open M use {T, empty, get, insert}

  pub parent_of-empty : (x : Uuid) → parent_of M empty x ≡ x
  parent_of-empty x = ground (arith, M.get-empty x)

  -- A forest of roots joins nothing.
  pub Joins-nil : (key : ℕ → ℕ) (uf : T) → ((x : Uuid) → parent_of M uf x ≡ x) → Joins M key [] uf
  Joins-nil key uf h = record {
    ranked = λ x n. absurd (n (h x));
    sound = λ r x d. here r (sym (Root_of_fixed (h x) d));
    joined = λ a b m. absurd m;
  }

  parent_of-make_sets :
      (uf : T) (pairs : List (Uuid × Uuid)) → parent_of M (make_sets M uf pairs) ≡ parent_of M uf
  unfolding make_sets
  parent_of-make_sets uf [] = refl
  parent_of-make_sets uf ((a, b) ∷ pairs) =
      parent_of-make_sets (make_set M (make_set M uf a) b) pairs
      ∙ parent_of-make_set M (make_set M uf a) b
      ∙ parent_of-make_set M uf a

  make_sets-get :
      (uf : T) (pairs : List (Uuid × Uuid)) (z : Uuid)
      → get (make_sets M uf pairs) z ≢ none ↔ (Endpoint pairs z ⊎ (get uf z ≢ none))
  unfolding make_sets
  make_sets-get uf [] z = (inr, ⊎_elim absurd (λ n. n))
  make_sets-get uf ((a, b) ∷ pairs) z = ground (
    arith,
    make_sets-get (make_set M (make_set M uf a) b) pairs z,
    get-make_set M (make_set M uf a) b z,
    make_set-get M (make_set M uf a) b z,
    get-make_set M uf a z,
    make_set-get M uf a z,
  )

  assign_sound :
      (rs : List (ℕ × ℕ)) (acc : T) (z r : ℕ)
      → get (fold_roots (assign M) rs acc) z ≡ some r
      → Elem (z, r) rs × (r ≢ z) ⊎ (get acc z ≡ some r)
  unfolding assign
  assign_sound [] acc z r h = inr h
  assign_sound ((n, s) ∷ rs) acc z r h =
      ground (arith, assign_sound rs (assign M n s acc) z r, get-insert M acc n z s)

  assign_kept :
      (rs : List (ℕ × ℕ)) (acc : T) (z r : ℕ)
      → get acc z ≡ some r
      → ((s : ℕ) → Elem (z, s) rs → s ≡ r)
      → get (fold_roots (assign M) rs acc) z ≡ some r
  unfolding assign
  assign_kept [] acc z r h f = h
  assign_kept ((n, s) ∷ rs) acc z r h f =
      assign_kept rs (assign M n s acc) z r (ground (arith, get-insert M acc n z s, f s))
        (λ t m. f t (inr m))

  assign_complete :
      (rs : List (ℕ × ℕ)) (acc : T) (z r : ℕ)
      → Elem (z, r) rs
      → r ≢ z
      → ((s : ℕ) → Elem (z, s) rs → s ≡ r)
      → get (fold_roots (assign M) rs acc) z ≡ some r
  unfolding assign
  assign_complete [] acc z r m n f = absurd m
  assign_complete ((k, s) ∷ rs) acc z r (inl e) n f =
      assign_kept rs (assign M k s acc) z r (ground (arith, get-insert M acc k z s))
        (λ t m. f t (inr m))
  assign_complete ((k, s) ∷ rs) acc z r (inr m) n f =
      assign_complete rs (assign M k s acc) z r m n (λ t l. f t (inr l))

  union_pairs-Joins :
      (bound fuel : ℕ) (es todo : List (Uuid × Uuid)) (uf : T)
      → Keyed (λ id. id) bound fuel
      → All (IsBounded bound) es
      → All (IsBounded bound) todo
      → Joins M (λ id. id) es uf
      → (uf' : T) × (union_pairs M fuel uf todo ≡ some uf')
        × Joins M (λ id. id) (es ++ todo) uf'
        × ((z : ℕ) → get uf z ≢ none → get uf' z ≢ none)
        × ((z : ℕ) → get uf' z ≢ none → Endpoint (es ++ todo) z ⊎ (get uf z ≢ none))
  unfolding union_pairs union
  union_pairs-Joins bound fuel es [] uf k low lows h =
      (uf, refl, rw append-nil h, λ z n. n, λ z n. inr n)
  union_pairs-Joins bound fuel es ((a, b) ∷ todo) uf k low lows h =
      let (uf₁, run₁, j) =
        union-Joined M (λ id. id) bound fuel es uf a b k (All-elem (IsBounded bound) es low)
          lows.0.0 lows.0.1 h in
      let low₁ = All-append (IsBounded bound) es ((a, b) ∷ []) low (lows.0, tt) in
      let (uf₂, run₂, h₂, kept, fresh) =
        union_pairs-Joins bound fuel (es ++ (a, b) ∷ []) todo uf₁ k low₁ lows.1 j.joins in
      (
        uf₂,
        rw run₁ run₂,
        rw append_assoc at h₂,
        λ z n. kept z (j.kept z n),
        λ z n. elim (fresh z n) [
          | inl e ↦ inl (rw append_assoc at e)
          | inr n₁ ↦ elim (j.fresh z n₁) [
            | inl c ↦
                let at_a = (Endpoint-append es ((a, b) ∷ []) a).1 (inr (inl refl)) in
                inl (
                  rw append_assoc at
                    ((Endpoint-append (es ++ (a, b) ∷ []) todo z).1 (inl (Conn-Endpoint at_a c))))
            | inr n₂ ↦ inr n₂
          ]
        ],
      )

  empty-ne-some : (x r : Uuid) → get empty x ≡ some r → ⊥
  empty-ne-some x r e = ground (arith, M.get-empty x)

  -- The loop's assignments are the listed pairs of two different ids.
  fold-assign :
      (key : ℕ → ℕ) (es rs : List (ℕ × ℕ))
      → Listed key es rs
      → (x r : Uuid)
      → (get (fold_roots (assign M) rs empty) x ≡ some r) ↔ (Elem (x, r) rs × (r ≢ x))
  fold-assign key es rs l x r = (
    λ h. ⊎_elim (λ k. k) (λ e. absurd (empty-ne-some x r e)) (assign_sound rs empty x r h),
    λ h. assign_complete rs empty x r h.0 h.1 (λ s m. l.unique x s r m h.0),
  )

  Covers-pairs :
      (pairs : List (ℕ × ℕ)) (uf : T)
      → ((z : ℕ) → get (make_sets M empty pairs) z ≢ none → get uf z ≢ none)
      → ((z : ℕ) → get uf z ≢ none → Endpoint pairs z ⊎ (get (make_sets M empty pairs) z ≢ none))
      → Covers M pairs uf
  Covers-pairs pairs uf kept fresh x =
      ground (arith, kept x, fresh x, make_sets-get empty pairs x, M.get-empty x)

  -- With fuel above every id, `from_pairs` returns, and it maps an id `x` to `r` exactly when `r`
  -- is another id, is connected to `x` by the pairs, and is the smallest id that is.
  pub from_pairs-Canonical :
      (bound fuel : ℕ) (pairs : List (Uuid × Uuid))
      → bound ≤ fuel
      → All (IsBounded bound) pairs
      → (t : T) × (from_pairs M fuel pairs ≡ some t)
        × ((x r : Uuid) → (get t x ≡ some r) ↔ (Canonical (λ id. id) pairs x r × (r ≢ x)))
  unfolding from_pairs
  from_pairs-Canonical bound fuel [] le low = (
    empty,
    refl,
    λ x r. (
      λ h. absurd (empty-ne-some x r h),
      λ h. ⊎_elim (λ e. absurd (h.1 (sym e))) absurd (Conn-start h.0.connected),
    ),
  )
  from_pairs-Canonical bound fuel (p ∷ ps) le low =
      let pairs = p ∷ ps in
      let start = make_sets M empty pairs in
      let fixed =
        Joins-nil (λ id. id) start
          (λ x. subst (λ f. f x ≡ x) (sym (parent_of-make_sets empty pairs)) (parent_of-empty x)) in
      let keyed : Keyed (λ id. id) bound fuel = record {
        injective = λ x y _ _ e. e;
        fueled = λ x h. omega arith;
      } in
      let (uf, run, j, kept, fresh) =
        union_pairs-Joins bound fuel [] pairs start keyed tt low fixed in
      let (rs, l, run') =
        for_nodes-Listed M (λ id. id) fuel (assign M) pairs uf empty j
          (Covers-pairs pairs uf kept fresh)
          (λ x e. keyed.fueled x (Endpoint-bounded pairs x low e)) in
      (
        fold_roots (assign M) rs empty,
        rw run run',
        λ x r.
            let f = fold-assign (λ id. id) pairs rs l x r in
            (
              λ h. let (m, n) = f.0 h in (l.canonical x r m, n),
              λ h. f.1 (Listed_moved l keyed low h.0 h.1, h.1),
            ),
      )
