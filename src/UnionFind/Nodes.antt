-- ===== src/UnionFind/Nodes.antt =====
-- The loop of src/union_find.rs and src/dedupe/mod.rs over the nodes of a union-find, and what it
-- sees when the unions are done.

use incrededup.Base.{
  Distinct, DistinctImages, Distinct-map, Distinct-of_map, ℕ, ◌<◌, ◌≡◌, ◌≢◌, ⊎_elim, ◌↔◌, refl, sym,
  subst, ap, inl, inr, List, [], ◌∷◌, map, Elem, All, All-elem, All-map, some, none,
}
use incrededup.Table.{Table}
use incrededup.Table.Keys.{Elem-keys}
use incrededup.UnionFind.{Uuid, nodes, for_nodes}
use incrededup.UnionFind.Forest.{Root, IsRanked, Root_unique, Root_of_rank}
use incrededup.UnionFind.Find.{parent_of, Refines, find-Found}
use incrededup.UnionFind.Components.{
  Canonical-unique, IsBounded, Endpoint-bounded, Keyed, Conn-start, Canonical, Endpoint, Joins,
  Joins-Canonical,
}

-- The effect of `body` at each node with its root.
abbrev pub fold_roots : {A : Type 0} → (ℕ → ℕ → A → A) → List (ℕ × ℕ) → A → A
fold_roots body [] acc = acc
fold_roots body ((node, root) ∷ rs) acc = fold_roots body rs (body node root acc)

-- A list of nodes with their roots: just the ends of the pairs, each with the member of lowest
-- key of its component.
pub record Listed (key : ℕ → ℕ) (es rs : List (ℕ × ℕ)) : Type 0 where
  pub endpoint : (x r : ℕ) → Elem (x, r) rs → Endpoint es x
  pub canonical : (x r : ℕ) → Elem (x, r) rs → Canonical key es x r
  pub complete : (x : ℕ) → Endpoint es x → (r : ℕ) × Elem (x, r) rs
  pub distinct : Distinct (λ (e : ℕ × ℕ). e.0) rs
  pub unique : (x r s : ℕ) → Elem (x, r) rs → Elem (x, s) rs → r ≡ s

-- A canonical member is the one listed.
pub Listed_canonical :
    {key : ℕ → ℕ} {bound fuel : ℕ} {es rs : List (ℕ × ℕ)} {x r : ℕ}
    → Listed key es rs
    → Keyed key bound fuel
    → All (IsBounded bound) es
    → Endpoint es x
    → Canonical key es x r
    → Elem (x, r) rs
Listed_canonical {bound} {es} {rs} {x} l k low p c =
    let (s, m) = l.complete x p in
    let same =
      Canonical-unique k (All-elem (IsBounded bound) es low) (Endpoint-bounded es x low p)
        (l.canonical x s m) c in
    subst (λ t. Elem (x, t) rs) same m

-- A node with another canonical member is an end of a pair.
pub Listed_moved :
    {key : ℕ → ℕ} {bound fuel : ℕ} {es rs : List (ℕ × ℕ)} {x r : ℕ}
    → Listed key es rs
    → Keyed key bound fuel
    → All (IsBounded bound) es
    → Canonical key es x r
    → r ≢ x
    → Elem (x, r) rs
Listed_moved l k low c n =
    Listed_canonical l k low (⊎_elim (λ e. absurd (n (sym e))) (λ p. p) (Conn-start c.connected)) c

Elem-map_in : (rs : List (ℕ × ℕ)) (x r : ℕ) → Elem (x, r) rs → Elem x (map (λ e. e.0) rs)
Elem-map_in [] x r m = m
Elem-map_in (e ∷ rs) x r (inl h) = inl (ap (λ (t : ℕ × ℕ). t.0) h)
Elem-map_in (e ∷ rs) x r (inr m) = inr (Elem-map_in rs x r m)

Elem-map_out : (rs : List (ℕ × ℕ)) (x : ℕ) → Elem x (map (λ e. e.0) rs) → (r : ℕ) × Elem (x, r) rs
Elem-map_out [] x m = absurd m
Elem-map_out ((y, s) ∷ rs) x (inl e) = (s, inl (ap (λ t. (t, s)) e))
Elem-map_out (e ∷ rs) x (inr m) = let (r, k) = Elem-map_out rs x m in (r, inr k)

All-of_elem : {A : Type 0} (P : A → Type 0) (xs : List A) → ((x : A) → Elem x xs → P x) → All P xs
All-of_elem P [] h = tt
All-of_elem P (x ∷ xs) h = (h x (inl refl), All-of_elem P xs (λ y m. h y (inr m)))

module _ (M : Table Uuid Uuid) where
  open M use {T, get}

  Refines-back :
      (rank : ℕ → ℕ) (uf uf' : T) {r x : ℕ}
      → IsRanked rank (parent_of M uf)
      → Refines M rank uf uf'
      → Root (parent_of M uf') r x
      → Root (parent_of M uf) r x
  Refines-back rank uf uf' {x} h f d =
      let (s, k) = Root_of_rank rank h x in
      subst (λ t. Root (parent_of M uf) t x) (Root_unique (f.roots s x k) d) k

  -- The loop that asks for the root of each node: it ends, and its body sees each node with the
  -- root that the node had at the start.
  pub for_nodes_lem :
      (key : ℕ → ℕ) {A : Type 0} (fuel : ℕ) (body : Uuid → Uuid → A → A) (uf : T) (ns : List Uuid)
      (acc : A)
      → IsRanked key (parent_of M uf)
      → All (λ n. key n < fuel) ns
      → (rs : List (ℕ × ℕ)) × (map (λ e. e.0) rs ≡ ns)
        × All (λ e. Root (parent_of M uf) e.1 e.0) rs
        × (for_nodes M fuel body uf ns acc ≡ some (fold_roots body rs acc))
  unfolding for_nodes
  for_nodes_lem key fuel body uf [] acc h lt = ([], refl, tt, refl)
  for_nodes_lem key fuel body uf (n ∷ ns) acc h lt =
      let (uf', r, run, f) = find-Found M key fuel uf n h lt.0 in
      let (rs, e, ds, run') =
        for_nodes_lem key fuel body uf' ns (body n r acc) f.refines.ranked lt.1 in
      (
        (n, r) ∷ rs,
        ap (λ t. n ∷ t) e,
        (f.root, All-map rs (λ k. Refines-back key uf uf' h f.refines) ds),
        rw run run',
      )

  nodes_lem : (uf : T) (x : ℕ) → Elem x (nodes M uf) ↔ (get uf x ≢ none)
  unfolding nodes
  nodes_lem uf x = Elem-keys M uf x

  Distinct-nodes : (uf : T) → DistinctImages (λ (e : Uuid × Uuid). e.0) (nodes M uf)
  unfolding nodes
  Distinct-nodes uf = Distinct-map (λ (e : Uuid × Uuid). e.0) (M.entries uf) (M.distinct-entries uf)

  -- The nodes of a forest are the ends of the pairs `es`.
  abbrev pub Covers : List (ℕ × ℕ) → T → Type 0
  Covers es uf = (x : ℕ) → get uf x ≢ none ↔ Endpoint es x

  -- Once the pairs are joined, the loop sees every end of a pair with the member of lowest key of
  -- its component.
  pub for_nodes-Listed :
      (key : ℕ → ℕ) {A : Type 0} (fuel : ℕ) (body : Uuid → Uuid → A → A) (es : List (ℕ × ℕ))
      (uf : T) (acc : A)
      → Joins M key es uf
      → Covers es uf
      → ((x : ℕ) → Endpoint es x → key x < fuel)
      → (rs : List (ℕ × ℕ)) × Listed key es rs
        × (for_nodes M fuel body uf (nodes M uf) acc ≡ some (fold_roots body rs acc))
  for_nodes-Listed key fuel body es uf acc j covers lt =
      let (rs, e, ds, run) =
        for_nodes_lem key fuel body uf (nodes M uf) acc j.ranked
          (All-of_elem _ (nodes M uf) (λ x m. lt x ((covers x).0 ((nodes_lem uf x).0 m)))) in
      let root = λ (x r : ℕ) (m : Elem (x, r) rs). All-elem _ rs ds (x, r) m in
      (
        rs,
        record {
          endpoint =
              λ x r m. (covers x).0 ((nodes_lem uf x).0 (subst (Elem x) e (Elem-map_in rs x r m)));
          canonical = λ x r m. Joins-Canonical M key j (root x r m);
          complete = λ x p.
              Elem-map_out rs x (subst (Elem x) (sym e) ((nodes_lem uf x).1 ((covers x).1 p)));
          distinct =
              Distinct-of_map (λ (e : ℕ × ℕ). e.0) rs
                (subst (DistinctImages (λ (e : ℕ × ℕ). e.0)) (sym e) (Distinct-nodes uf));
          unique = λ x r s m l. Root_unique (root x r m) (root x s l);
        },
        run,
      )
