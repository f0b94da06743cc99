-- ===== src/UnionFind/Union.antt =====
-- `UnionFind::make_set` and `UnionFind::union_by_key` of src/union_find.rs.
use mathlib.Core.Path.{fun_ext}
use incrededup.Base.{
  ℕ, ◌≤◌, ◌<◌, ◌≡◌, ◌≢◌, ◌⊎◌, refl, sym, subst, inl, inr, none, some, arith, if◌then◌else◌, ◌==◌,
  leb, ==-cases, Bool-cases,
}
use incrededup.Table.{Table}
use incrededup.Table.Keys.{get-insert}
use incrededup.UnionFind.{Uuid, make_set, union_by_key}
use incrededup.UnionFind.Forest.{
  Root, stop, IsRanked, Root-fixed, Root_unique, Root_of_rank, IsRanked-update, Root-link,
}
use incrededup.UnionFind.Find.{parent_of, parent_of-insert, Refines, Refines-trans, find-Found}

module _ (M : Table Uuid Uuid) where
  open M use {T, get, insert}

  -- A new node is its own parent, which it was before by default.
  pub parent_of-make_set : (uf : T) (x : Uuid) → parent_of M (make_set M uf x) ≡ parent_of M uf
  unfolding make_set
  parent_of-make_set uf x = fun_ext λ z. ground (arith, parent_of-insert M uf x x z)

  pub get-make_set :
      (uf : T) (x z : Uuid) → (get (make_set M uf x) z ≢ none) → (z ≡ x) ⊎ (get uf z ≢ none)
  unfolding make_set
  get-make_set uf x z = ground (arith, get-insert M uf x z x)

  pub make_set-get :
      (uf : T) (x z : Uuid) → (z ≡ x) ⊎ (get uf z ≢ none) → get (make_set M uf x) z ≢ none
  unfolding make_set
  make_set-get uf x z = ground (arith, get-insert M uf x z x)

  -- What a union of `x` and `y` leaves: `loser`'s tree hangs under `winner`.
  pub record United (key : ℕ → ℕ) (uf : T) (x y : Uuid) (uf' : T) (winner loser : Uuid)
      : Type 0 where
    pub ranked : IsRanked key (parent_of M uf')
    pub below : key winner ≤ key loser
    pub ends :
        Root (parent_of M uf) winner x × Root (parent_of M uf) loser y
        ⊎ Root (parent_of M uf) loser x × Root (parent_of M uf) winner y
    pub roots :
        (r z : Uuid)
        → Root (parent_of M uf) r z
        → Root (parent_of M uf') (if r == loser then winner else r) z
    pub kept : (z : Uuid) → get uf z ≢ none → get uf' z ≢ none
    pub fresh : (z : Uuid) → get uf' z ≢ none → (z ≡ loser) ⊎ (get uf z ≢ none)

  -- The write that hangs the root `loser` under the root `winner`.
  link-United :
      (key : ℕ → ℕ) (uf uf' : T) (x y winner loser : Uuid)
      → Refines M key uf uf'
      → key winner < key loser
      → Root (parent_of M uf') winner winner
      → Root (parent_of M uf') loser loser
      → (Root (parent_of M uf) winner x × Root (parent_of M uf) loser y
          ⊎ Root (parent_of M uf) loser x × Root (parent_of M uf) winner y)
      → United key uf x y (insert uf' loser winner) winner loser
  link-United key uf uf' x y w l h lt hw hl ends = record {
    ranked = IsRanked-update (parent_of-insert M uf' l w) key h.ranked lt;
    below = omega arith;
    ends = ends;
    roots = λ r z d.
        Root-link (parent_of-insert M uf' l w) (Root-fixed hl) (Root-fixed hw)
          (λ e. lt_irrefl (subst (λ t. key w < key t) e lt)) (h.roots r z d);
    kept = λ z n. ground (arith, get-insert M uf' l z w, h.members z);
    fresh = λ z n. ground (arith, get-insert M uf' l z w, h.members z);
  }
    where
      lt_irrefl : key w < key w → ⊥
      lt_irrefl k = omega arith

  -- The case in which both nodes have one root, and nothing is written.
  same-United :
      (key : ℕ → ℕ) (uf uf' : T) (x y r : Uuid)
      → Refines M key uf uf'
      → Root (parent_of M uf) r x
      → Root (parent_of M uf) r y
      → United key uf x y uf' r r
  same-United key uf uf' x y r h hx hy = record {
    ranked = h.ranked;
    below = omega arith;
    ends = inl (hx, hy);
    roots = λ s z d. elim (==-cases s r) [
      | inl (t, e) ↦ rw t (subst (λ k. Root (parent_of M uf') k z) e (h.roots s z d))
      | inr (t, _) ↦ rw t (h.roots s z d)
    ];
    kept = λ z n e. n ((h.members z).1 e);
    fresh = λ z n. inr (λ e. n ((h.members z).0 e));
  }

  -- With fuel above the keys, and keys that tell the two roots apart, a union succeeds, and the
  -- tree of one root hangs under the other, the one with the lower key.
  pub union_by_key-United :
      (key : ℕ → ℕ) (fuel : ℕ) (uf : T) (x y : Uuid)
      → IsRanked key (parent_of M uf)
      → key x < fuel
      → key y < fuel
      → ((r s : Uuid)
          → Root (parent_of M uf) r x
          → Root (parent_of M uf) s y
          → key r ≡ key s
          → r ≡ s)
      → (uf' : T) × (winner : Uuid) × (loser : Uuid) × (union_by_key M fuel key uf x y ≡ some uf')
        × United key uf x y uf' winner loser
  unfolding union_by_key
  union_by_key-United key fuel uf x y h hx hy apart =
      let (uf₁, rx, run₁, f) = find-Found M key fuel uf x h hx in
      let (uf₂, ry, run₂, g) = find-Found M key fuel uf₁ y f.refines.ranked hy in
      let both = Refines-trans M key uf uf₁ uf₂ f.refines g.refines in
      let (r, d) = Root_of_rank key h y in
      let top : r ≡ ry = Root_unique (f.refines.roots r y d) g.root in
      let hy' : Root (parent_of M uf) ry y = subst (λ t. Root (parent_of M uf) t y) top d in
      let at_x = stop rx refl (Root-fixed (both.roots rx x f.root)) in
      let at_y = stop ry refl (Root-fixed (both.roots ry y hy')) in
      elim (==-cases rx ry) [
        | inl (t, e) ↦ (
          uf₂,
          rx,
          rx,
          rw (run₁, run₂, t),
          same-United key uf uf₂ x y rx both f.root
              (subst (λ k. Root (parent_of M uf) k y) (sym e) hy'),
        )
        | inr (t, n) ↦
            let differ = λ (e : key rx ≡ key ry). n (apart rx ry f.root hy' e) in
            elim (Bool-cases (leb (key rx) (key ry))) [
              | inl le ↦ (
                insert uf₂ ry rx,
                rx,
                ry,
                rw (run₁, run₂, t, le),
                link-United key uf uf₂ x y rx ry both (ground (arith, differ)) at_x at_y
                    (inl (f.root, hy')),
              )
              | inr gt ↦ (
                insert uf₂ rx ry,
                ry,
                rx,
                rw (run₁, run₂, t, gt),
                link-United key uf uf₂ x y ry rx both (ground arith) at_y at_x (inr (f.root, hy')),
              )
            ]
      ]
