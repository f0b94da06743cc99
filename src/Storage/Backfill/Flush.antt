-- ===== src/Storage/Backfill/Flush.antt =====
-- `flush_adjacency` of src/storage/mod.rs: what a flush keeps of the index, and what it brings.
use incrededup.Base.{
  ℕ, suc, ◌≡◌, ◌≢◌, ◌⊎◌, inl, inr, refl, sym, ap, ◌∙◌, subst, Option, none, some, List, [], ◌∷◌,
  Elem, ⊎_elim, ℕ_discrete,
}
use incrededup.Match.{Float, MatchRecord}
use incrededup.Table.{Table}
use incrededup.UnionFind.{Uuid}
use incrededup.Storage.{Bytes, adjacency_key}
use incrededup.Storage.Matches.Edges.{Edges, IsUuid, indexed}
use incrededup.Storage.Backfill.{Builder, flush_loop, flush_adjacency, flushed, flush_rest}

module _ (F : Float) (M : Table Bytes Bytes) (m : Edges F) where
  -- The entry is one of the index of these edges.
  abbrev pub Belongs : Bytes × Bytes → Type 0
  Belongs e =
      (n : Uuid) × (c : Uuid) × (p : Uuid) × IsUuid F n
      × IsUuid F c
      × IsUuid F p
      × (e.0 ≡ adjacency_key n c p)
      × (indexed F n c p (m c p) ≡ some e.1)

  -- The index has entries of these edges only.
  abbrev pub IsPart : M.T → Type 0
  IsPart a = (k v : Bytes) → M.get a k ≡ some v → Belongs (k, v)

  abbrev pub Present : M.T → Bytes → Type 0
  Present a k = (v : Bytes) × (M.get a k ≡ some v)

  bytes_discrete : Discrete Bytes
  bytes_discrete = hlevel ℕ_discrete

  insert-IsPart : (a : M.T) (k v : Bytes) → IsPart a → Belongs (k, v) → IsPart (M.insert a k v)
  insert-IsPart a k v h new j w g = elim (bytes_discrete j k) [
    | yes same ↦
        let here : some v ≡ some w =
          sym (ap (M.get (M.insert a k v)) same ∙ M.get-insert_self a k v) ∙ g in
        let value : v ≡ w = cc in
        subst (λ x. Belongs (x, w)) (sym same) (subst (λ x. Belongs (k, x)) value new)
    | no n ↦ h j w (sym (M.get-insert_ne a k j v n) ∙ g)
  ]

  insert-Present : (a : M.T) (k v j : Bytes) → Present a j → Present (M.insert a k v) j
  insert-Present a k v j (w, g) = elim (bytes_discrete j k) [
    | yes same ↦ (v, ap (M.get (M.insert a k v)) same ∙ M.get-insert_self a k v)
    | no n ↦ (w, M.get-insert_ne a k j v n ∙ g)
  ]

  -- What a flush keeps and what it brings.
  record Flush (es : List (Bytes × Bytes)) (a a' : M.T) : Type 0 where
    part : IsPart a'
    old : (k : Bytes) → Present a k → Present a' k
    new : (e : Bytes × Bytes) → Elem e es → Present a' e.0

  abbrev stepped : Bytes → Bytes → M.T × ℕ → Option Bytes → M.T × ℕ
  stepped k v (a, n) none = (M.insert a k v, suc n)
  stepped k v (a, n) (some old) = (a, n)

  stepped-Flush :
      (k v : Bytes) (w : M.T × ℕ) (o : Option Bytes)
      → M.get w.0 k ≡ o
      → IsPart w.0
      → Belongs (k, v)
      → Flush ((k, v) ∷ []) w.0 (stepped k v w o).0
  stepped-Flush k v (a, n) none e h new = record {
    part = insert-IsPart a k v h new;
    old = insert-Present a k v;
    new = λ x i.
        subst (λ (y : Bytes × Bytes). Present (M.insert a k v) y.0) (sym (⊎_elim (λ t. t) absurd i))
          (v, M.get-insert_self a k v);
  }
  stepped-Flush k v (a, n) (some old) e h new = record {
    part = h;
    old = λ j g. g;
    new = λ x i.
        subst (λ (y : Bytes × Bytes). Present a y.0) (sym (⊎_elim (λ t. t) absurd i)) (old, e);
  }

  cons-Flush :
      (e : Bytes × Bytes) (es : List (Bytes × Bytes)) (a b c : M.T)
      → Flush (e ∷ []) a b
      → Flush es b c
      → Flush (e ∷ es) a c
  cons-Flush e es a b c f g = record {
    part = g.part;
    old = λ k p. g.old k (f.old k p);
    new = λ x i. ⊎_elim (λ t. g.old x.0 (f.new x (inl t))) (λ t. g.new x t) i;
  }

  flush_loop-Flush :
      (es : List (Bytes × Bytes)) (w : M.T × ℕ)
      → IsPart w.0
      → ((e : Bytes × Bytes) → Elem e es → Belongs e)
      → Flush es w.0 (flush_loop M es w).0
  unfolding flush_loop
  flush_loop-Flush [] w h all = record { part = h; old = λ k g. g; new = λ e k. absurd k }
  flush_loop-Flush ((k, v) ∷ es) (a, n) h all =
      let w' = stepped k v (a, n) (M.get a k) in
      let first = stepped-Flush k v (a, n) (M.get a k) refl h (all (k, v) (inl refl)) in
      cons-Flush (k, v) es a w'.0 (flush_loop M es w').0 first
        (flush_loop-Flush es w' first.part (λ x i. all x (inr i)))

  -- A key is in the index or about to be.
  abbrev pub Pending : Builder M → Bytes → Type 0
  Pending b k = Present b.adjacency k ⊎ ((v : Bytes) × Elem (k, v) b.buffer)

  pub record IsBuilder (b : Builder M) : Type 0 where
    pub part : IsPart b.adjacency
    pub entries : (e : Bytes × Bytes) → Elem e b.buffer → Belongs e

  pub flushed-IsBuilder :
      (b : Builder M)
      → IsBuilder b
      → IsBuilder (flushed M b) × ((k : Bytes) → Pending b k → Present (flushed M b).adjacency k)
  unfolding flushed flush_adjacency
  flushed-IsBuilder b h =
      let f = flush_loop-Flush b.buffer (b.adjacency, 0) h.part h.entries in
      (
        record { part = f.part; entries = λ e k. absurd k },
        λ k p. ⊎_elim (λ g. f.old k g) (λ g. f.new (k, g.0) g.1) p,
      )

  pub flush_rest-IsBuilder :
      (b : Builder M)
      → IsBuilder b
      → IsPart (flush_rest M b).adjacency
        × ((k : Bytes) → Pending b k → Present (flush_rest M b).adjacency k)
  unfolding flush_rest
  flush_rest-IsBuilder b h = go b.buffer refl
    where
      go :
          (es : List (Bytes × Bytes))
          → b.buffer ≡ es
          → let b' : Builder M = elim es [ [] ↦ b | e ∷ es ↦ flushed M b ] in
            IsPart b'.adjacency × ((k : Bytes) → Pending b k → Present b'.adjacency k)
      go [] e = (h.part, λ k p. ⊎_elim (λ g. g) (λ g. absurd (subst (Elem (k, g.0)) e g.1)) p)
      go (x ∷ es) e = let (q, f) = flushed-IsBuilder b h in (q.part, f)

  -- The keys of a record.
  abbrev pub Covered : (Bytes → Type 0) → MatchRecord F → Type 0
  Covered P r =
      (r.child_id ≢ r.parent_id)
      → (n : Uuid) → (n ≡ r.child_id) ⊎ (n ≡ r.parent_id)
      → P (adjacency_key n r.child_id r.parent_id)
