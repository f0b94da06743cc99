-- ===== src/Storage/Matches/Insert.antt =====
-- `MatchStore::insert_batch` of src/storage/mod.rs keeps the best record of each edge, and the index
-- in step with the matches.
use incrededup.Base.{
  ℕ_discrete, ℕ, ◌≡◌, ◌≢◌, ◌⊎◌, inl, inr, refl, sym, ap, ◌∙◌, subst, true, false, Option, none,
  some, List, [], ◌∷◌, ==-cases, Bool-cases, arith, All, leb, length,
}
use mathlib.Core.Path.{fun_ext}
use incrededup.Match.{Float, MatchRecord, is_self}
use incrededup.Table.{Table}
use incrededup.UnionFind.{Uuid}
use incrededup.Storage.{
  Bytes, match_key, adjacency_key, adjacency_value, adjacency_entries, serialize_record,
}
use incrededup.Storage.Codec.{Fits, match_key_inj, adjacency_key_inj, similarity-serialize_record}
use incrededup.Storage.Matches.{
  MatchStore, open_store, Writes, should_insert, index_record, insert_record, insert_records,
  insert_batch,
}
use incrededup.Storage.Matches.Edges.{
  Edges, no_edges, better, put, put_all, Joins, stored, indexed, IsUuid, IsMatches, IsIndex,
  edge-cases, put_at, put_ne, put-Keyed,
}

module _ (F : Float) (M : Table Bytes Bytes) where
  bytes_discrete : Discrete Bytes
  bytes_discrete = hlevel ℕ_discrete

  -- The test of `insert_batch` is that of `better`.
  should_insert_lem :
      (table : M.T) (m : Edges F) (r : MatchRecord F)
      → IsMatches F M table m
      → Fits F r
      → (should_insert F M table r ≡ true) × (better F r (m r.child_id r.parent_id) ≡ some r)
        ⊎ (should_insert F M table r ≡ false)
          × (better F r (m r.child_id r.parent_id) ≡ m r.child_id r.parent_id)
  unfolding should_insert
  should_insert_lem table m r h fit =
      go (m r.child_id r.parent_id) (h.value r.child_id r.parent_id fit.child fit.parent)
    where
      go :
          (o : Option (MatchRecord F))
          → M.get table (match_key r.child_id r.parent_id) ≡ stored F o
          → (should_insert F M table r ≡ true) × (better F r o ≡ some r)
            ⊎ (should_insert F M table r ≡ false) × (better F r o ≡ o)
      go none e = inl (rw (e, should_insert) refl, refl)
      go (some b) e =
          let (same, size) = similarity-serialize_record F b in
          let long : leb 24 (length (serialize_record F b)) ≡ true = ground arith in
          elim (Bool-cases (F.gt r.jaccard_similarity b.jaccard_similarity)) [
            | inl t ↦ inl (rw (e, should_insert, long, same) t, rw t refl)
            | inr f ↦ inr (rw (e, should_insert, long, same) f, rw f refl)
          ]

  insert-IsMatches :
      (table : M.T) (m : Edges F) (r : MatchRecord F)
      → IsMatches F M table m
      → Fits F r
      → better F r (m r.child_id r.parent_id) ≡ some r
      → IsMatches F M
          (M.insert table (match_key r.child_id r.parent_id) (serialize_record F r))
          (put F r m)
  insert-IsMatches table m r h fit e = record {
    value = λ c p hc hp. elim (edge-cases F c p r) [
      | inl (t, j) ↦ at c p j
      | inr (t, n) ↦
          M.get-insert_ne table _ _ _ (apart c p hc hp n)
          ∙ h.value c p hc hp
          ∙ ap (stored F) (sym (put_ne F r m c p n))
    ];
    keyed = λ c p. put-Keyed F m r c p fit (h.keyed c p);
    only = λ k v g. elim (bytes_discrete k (match_key r.child_id r.parent_id)) [
      | yes same ↦ (r.child_id, r.parent_id, fit.child, fit.parent, same)
      | no n ↦ h.only k v (sym (M.get-insert_ne table _ k _ n) ∙ g)
    ];
  }
    where
      apart :
          (c p : Uuid)
          → IsUuid F c
          → IsUuid F p
          → ¬ Joins F r c p
          → match_key c p ≢ match_key r.child_id r.parent_id
      apart c p hc hp n k =
          let (a, b) = match_key_inj c p r.child_id r.parent_id hc hp fit.child fit.parent k in
          n (sym a, sym b)

      Here : Uuid → Uuid → Type 0
      Here c p =
          M.get (M.insert table (match_key r.child_id r.parent_id) (serialize_record F r))
            (match_key c p)
          ≡ stored F (put F r m c p)

      base : Here r.child_id r.parent_id
      base =
          M.get-insert_self table _ _
          ∙ ap (stored F) (sym (put_at F r m r.child_id r.parent_id (refl, refl) ∙ e))

      at : (c p : Uuid) → Joins F r c p → Here c p
      at c p j = subst (λ a. Here a p) j.0 (subst (λ b. Here r.child_id b) j.1 base)

  -- The first of two keys after both are written.
  get-insert_both :
      (a : M.T) (k₁ k₂ v : Bytes) → M.get (M.insert (M.insert a k₁ v) k₂ v) k₁ ≡ some v
  get-insert_both a k₁ k₂ v = elim (bytes_discrete k₁ k₂) [
    | yes e ↦
        subst (λ k. M.get (M.insert (M.insert a k₁ v) k₂ v) k ≡ some v) (sym e)
          (M.get-insert_self (M.insert a k₁ v) k₂ v)
    | no n ↦ M.get-insert_ne (M.insert a k₁ v) k₂ k₁ v n ∙ M.get-insert_self a k₁ v
  ]

  get-insert_neither :
      (a : M.T) (k₁ k₂ k v : Bytes)
      → k ≢ k₁
      → k ≢ k₂
      → M.get (M.insert (M.insert a k₁ v) k₂ v) k ≡ M.get a k
  get-insert_neither a k₁ k₂ k v n₁ n₂ =
      M.get-insert_ne (M.insert a k₁ v) k₂ k v n₂ ∙ M.get-insert_ne a k₁ k v n₁

  indexed_self : (n c p : Uuid) (o : Option (MatchRecord F)) → c ≡ p → indexed F n c p o ≡ none
  indexed_self n c p none e = refl
  indexed_self n c p (some r) e = ground arith

  indexed_other :
      (n c p : Uuid) (o : Option (MatchRecord F)) → n ≢ c → n ≢ p → indexed F n c p o ≡ none
  indexed_other n c p none hc hp = refl
  indexed_other n c p (some r) hc hp = ground arith

  pub indexed_end :
      (n c p : Uuid) (r : MatchRecord F)
      → c ≢ p
      → (n ≡ c) ⊎ (n ≡ p)
      → indexed F n c p (some r) ≡ some (adjacency_value F r)
  indexed_end n c p r h e = ground (arith, h, e)

  pub entries_self : (r : MatchRecord F) → r.child_id ≡ r.parent_id → adjacency_entries F r ≡ none
  unfolding adjacency_entries
  entries_self r e = let self : is_self F r ≡ true = ground arith in rw self refl

  pub entries_edge :
      (r : MatchRecord F)
      → r.child_id ≢ r.parent_id
      → adjacency_entries F r
        ≡ some (
          adjacency_key r.child_id r.child_id r.parent_id,
          adjacency_key r.parent_id r.child_id r.parent_id,
          adjacency_value F r,
        )
  unfolding adjacency_entries
  entries_edge r n = let edge : is_self F r ≡ false = ground arith in rw edge refl

  -- A self-edge leaves the index alone.
  loop_edge-IsIndex :
      (a : M.T) (m : Edges F) (r : MatchRecord F)
      → IsIndex F M a m
      → r.child_id ≡ r.parent_id
      → IsIndex F M a (put F r m)
  loop_edge-IsIndex a m r h e = record {
    value = λ n c p hn hc hp. elim (edge-cases F c p r) [
      | inl (t, j) ↦
          let loop : c ≡ p = sym j.0 ∙ e ∙ j.1 in
          h.value n c p hn hc hp
          ∙ indexed_self n c p (m c p) loop
          ∙ sym (indexed_self n c p (put F r m c p) loop)
      | inr (t, k) ↦ h.value n c p hn hc hp ∙ ap (indexed F n c p) (sym (put_ne F r m c p k))
    ];
    only = h.only;
  }

  module _ (a : M.T) (m : Edges F) (r : MatchRecord F) (h : IsIndex F M a m) (fit : Fits F r)
      (differ : r.child_id ≢ r.parent_id) (e : better F r (m r.child_id r.parent_id) ≡ some r) where
    abbrev k₁ : Bytes
    k₁ = adjacency_key r.child_id r.child_id r.parent_id

    abbrev k₂ : Bytes
    k₂ = adjacency_key r.parent_id r.child_id r.parent_id

    abbrev v : Bytes
    v = adjacency_value F r

    abbrev Entry : Uuid → Uuid → Uuid → Type 0
    Entry n c p =
        M.get (M.insert (M.insert a k₁ v) k₂ v) (adjacency_key n c p)
        ≡ indexed F n c p (put F r m c p)

    apart :
        (n c p b : Uuid)
        → IsUuid F n
        → IsUuid F c
        → IsUuid F p
        → IsUuid F b
        → ¬ ((n ≡ b) × Joins F r c p)
        → adjacency_key n c p ≢ adjacency_key b r.child_id r.parent_id
    apart n c p b hn hc hp hb no_way k =
        let (x, y, z) =
          adjacency_key_inj n c p b r.child_id r.parent_id hn hc hp hb fit.child fit.parent k in
        no_way (x, (sym y, sym z))

    old_key : (n c p : Uuid) → IsUuid F n → IsUuid F c → IsUuid F p → ¬ Joins F r c p → Entry n c p
    old_key n c p hn hc hp k =
        get-insert_neither a k₁ k₂ (adjacency_key n c p) v
          (apart n c p r.child_id hn hc hp fit.child (λ t. k t.1))
          (apart n c p r.parent_id hn hc hp fit.parent (λ t. k t.1))
        ∙ h.value n c p hn hc hp
        ∙ ap (indexed F n c p) (sym (put_ne F r m c p k))

    kept : put F r m r.child_id r.parent_id ≡ some r
    kept = put_at F r m r.child_id r.parent_id (refl, refl) ∙ e

    new_key : (n : Uuid) → IsUuid F n → Entry n r.child_id r.parent_id
    new_key n hn = elim (==-cases n r.child_id) [
      | inl (t, same) ↦
          subst (λ x. Entry x r.child_id r.parent_id) (sym same)
            (get-insert_both a k₁ k₂ v
              ∙ sym (
                  ap (indexed F r.child_id r.child_id r.parent_id) kept
                  ∙ indexed_end r.child_id r.child_id r.parent_id r differ (inl refl)))
      | inr (t, not_child) ↦ elim (==-cases n r.parent_id) [
        | inl (u, same) ↦
            subst (λ x. Entry x r.child_id r.parent_id) (sym same)
              (M.get-insert_self (M.insert a k₁ v) k₂ v
                ∙ sym (
                    ap (indexed F r.parent_id r.child_id r.parent_id) kept
                    ∙ indexed_end r.parent_id r.child_id r.parent_id r differ (inr refl)))
        | inr (u, not_parent) ↦
            get-insert_neither a k₁ k₂ (adjacency_key n r.child_id r.parent_id) v
              (apart n r.child_id r.parent_id r.child_id hn fit.child fit.parent fit.child
                (λ k. not_child k.0))
              (apart n r.child_id r.parent_id r.parent_id hn fit.child fit.parent fit.parent
                (λ k. not_parent k.0))
            ∙ h.value n r.child_id r.parent_id hn fit.child fit.parent
            ∙ indexed_other n r.child_id r.parent_id _ not_child not_parent
            ∙ sym (
                indexed_other n r.child_id r.parent_id (put F r m r.child_id r.parent_id) not_child
                  not_parent)
      ]
    ]

    real_edge-IsIndex : IsIndex F M (M.insert (M.insert a k₁ v) k₂ v) (put F r m)
    real_edge-IsIndex = record {
      value = λ n c p hn hc hp. elim (edge-cases F c p r) [
        | inl (t, j) ↦
            subst (λ x. Entry n x p) j.0 (subst (λ y. Entry n r.child_id y) j.1 (new_key n hn))
        | inr (t, k) ↦ old_key n c p hn hc hp k
      ];
      only = λ k w g. elim (bytes_discrete k k₂) [
        | yes same ↦ (r.parent_id, r.child_id, r.parent_id, fit.parent, fit.child, fit.parent, same)
        | no n₂ ↦ elim (bytes_discrete k k₁) [
          | yes same ↦ (r.child_id, r.child_id, r.parent_id, fit.child, fit.child, fit.parent, same)
          | no n₁ ↦ h.only k w (sym (get-insert_neither a k₁ k₂ k v n₁ n₂) ∙ g)
        ]
      ];
    }

  index_record-IsIndex :
      (a : M.T) (m : Edges F) (r : MatchRecord F)
      → IsIndex F M a m
      → Fits F r
      → better F r (m r.child_id r.parent_id) ≡ some r
      → IsIndex F M (index_record F M a r) (put F r m)
  unfolding index_record
  index_record-IsIndex a m r h fit e = elim (==-cases r.child_id r.parent_id) [
    | inl (t, same) ↦ rw (entries_self r same, index_record) (loop_edge-IsIndex a m r h same)
    | inr (t, differ) ↦
        rw (entries_edge r differ, index_record) (real_edge-IsIndex a m r h fit differ e)
  ]

  -- The tables hold these edges.
  pub record Holds (w : M.T × M.T) (m : Edges F) : Type 0 where
    pub matches : IsMatches F M w.0 m
    pub index : IsIndex F M w.1 m

  put_same :
      (r : MatchRecord F) (m : Edges F)
      → better F r (m r.child_id r.parent_id) ≡ m r.child_id r.parent_id
      → put F r m ≡ m
  put_same r m e = fun_ext λ c. fun_ext λ p. elim (edge-cases F c p r) [
    | inl (t, j) ↦
        subst (λ x. put F r m x p ≡ m x p) j.0
          (subst (λ y. put F r m r.child_id y ≡ m r.child_id y) j.1
            (put_at F r m r.child_id r.parent_id (refl, refl) ∙ e))
    | inr (t, k) ↦ put_ne F r m c p k
  ]

  pub insert_record-Holds :
      (r : MatchRecord F) (t a : M.T) (n : ℕ) (m : Edges F)
      → Holds (t, a) m
      → Fits F r
      → let w = insert_record F M r (t, a, n) in Holds (w.0, w.1) (put F r m)
  unfolding insert_record
  insert_record-Holds r t a n m h fit = elim (should_insert_lem t m r h.matches fit) [
    | inl (go, e) ↦ rw go (record {
      matches = insert-IsMatches t m r h.matches fit e;
      index = index_record-IsIndex a m r h.index fit e;
    })
    | inr (stay, e) ↦ rw stay (subst (Holds (t, a)) (sym (put_same r m e)) h)
  ]

  insert_records-Holds :
      (rs : List (MatchRecord F)) (w : Writes F M) (m : Edges F)
      → Holds (w.0, w.1) m
      → All (Fits F) rs
      → let w' = insert_records F M rs w in Holds (w'.0, w'.1) (put_all F rs m)
  unfolding insert_records put_all
  insert_records-Holds [] w m h fit = h
  insert_records-Holds (r ∷ rs) w m h fit =
      insert_records-Holds rs (insert_record F M r w) (put F r m)
        (insert_record-Holds r w.0 w.1 w.2 m h fit.0) fit.1

  -- A store holds edges: its tables do.
  abbrev pub Represents : MatchStore F M → Edges F → Type 0
  Represents s m = Holds (s.matches, s.adjacency) m

  pub open_store-Represents : Represents (open_store F M) (no_edges F)
  unfolding open_store
  open_store-Represents = record {
    matches = record {
      value = λ c p hc hp. M.get-empty (match_key c p);
      keyed = λ c p. tt;
      only = λ k v g. absurd (nothing k v g);
    };
    index = record {
      value = λ n c p hn hc hp. M.get-empty (adjacency_key n c p);
      only = λ k v g. absurd (nothing k v g);
    };
  }
    where
      nothing : (k v : Bytes) → M.get M.empty k ≡ some v → ⊥
      nothing k v g = let e = M.get-empty k in cc

  -- A batch of records with ids of 128 bits and sizes of 32 takes a store that holds some edges, in
  -- the matches and in the index, to one that holds, again in both, the edges in which each record
  -- in turn is put if its edge has none or one of lower similarity.
  pub insert_batch-Represents :
      (s : MatchStore F M) (rs : List (MatchRecord F)) (m : Edges F)
      → Represents s m
      → All (Fits F) rs
      → Represents (insert_batch F M s rs).0 (put_all F rs m)
  unfolding insert_batch
  insert_batch-Represents s [] m h fit = unfold put_all in h
  insert_batch-Represents s (r ∷ rs) m h fit =
      insert_records-Holds (r ∷ rs) (s.matches, s.adjacency, 0) m h fit
