-- ===== src/Storage/Matches/Best.antt =====
-- `MatchStore::insert_batch` of src/storage/mod.rs keeps, of the records of an edge, one that no other
-- beats.
use incrededup.Base.{
  ⊎_elim, subst, Bool-cases, ◌≡◌, ◌⊎◌, inl, inr, refl, sym, ap, ◌∙◌, true, false, Option, none,
  some, List, [], ◌∷◌, Elem, All,
}
use incrededup.Match.{Float, MatchRecord}
use incrededup.Table.{Table}
use incrededup.UnionFind.{Uuid}
use incrededup.Storage.{Bytes}
use incrededup.Storage.Codec.{Fits}
use incrededup.Base.{ok}
use incrededup.Storage.Matches.{MatchStore, insert_batch, iter, scanned}
use incrededup.Storage.Matches.Edges.{
  Edges, better, put, put_all, Joins, Keyed, edge-cases, put_at, put_ne,
}
use incrededup.Storage.Matches.Insert.{Represents, insert_batch-Represents}
use incrededup.Storage.Matches.Read.{iter-Represents}

module _ (F : Float) where
  abbrev Above : MatchRecord F → MatchRecord F → Type 0
  Above b x = (b ≡ x) ⊎ (F.gt b.jaccard_similarity x.jaccard_similarity ≡ true)

  Above-not :
      (x b : MatchRecord F) → Above b x → F.gt x.jaccard_similarity b.jaccard_similarity ≡ false
  Above-not x b (inl e) = rw e (F.gt_irrefl x.jaccard_similarity)
  Above-not x b (inr h) = elim (Bool-cases (F.gt x.jaccard_similarity b.jaccard_similarity)) [
    | inl t ↦
        let loop = F.gt_trans x.jaccard_similarity b.jaccard_similarity x.jaccard_similarity t h in
        let no = F.gt_irrefl x.jaccard_similarity in cc
    | inr f ↦ f
  ]

  Above-trans : (b r x : MatchRecord F) → Above b r → Above r x → Above b x
  Above-trans b r x (inl e) k = subst (λ t. Above t x) (sym e) k
  Above-trans b r x (inr h) (inl e) =
      inr (subst (λ t. F.gt b.jaccard_similarity t.jaccard_similarity ≡ true) e h)
  Above-trans b r x (inr h) (inr k) =
      inr (F.gt_trans b.jaccard_similarity r.jaccard_similarity x.jaccard_similarity h k)

  -- What `better F` keeps is one of the two, and the other does not beat it.
  better-cases :
      (r b : MatchRecord F)
      → (better F r (some b) ≡ some r) × Above r b
        ⊎ (better F r (some b) ≡ some b) × (F.gt r.jaccard_similarity b.jaccard_similarity ≡ false)
  better-cases r b = elim (Bool-cases (F.gt r.jaccard_similarity b.jaccard_similarity)) [
    | inl t ↦ inl (rw t refl, inr t)
    | inr f ↦ inr (rw f refl, f)
  ]

  put_all-Above :
      (rs : List (MatchRecord F)) (m : Edges F) (c p : Uuid) (y b : MatchRecord F)
      → m c p ≡ some y
      → put_all F rs m c p ≡ some b
      → Above b y
  unfolding put_all
  put_all-Above [] m c p y b e f = inl (cc)
  put_all-Above (r ∷ rs) m c p y b e f = elim (edge-cases F c p r) [
    | inl (t, j) ↦
        let here : put F r m c p ≡ better F r (some y) = put_at F r m c p j ∙ ap (better F r) e in
        elim (better-cases r y) [
          | inl (k, above) ↦
              Above-trans b r y (put_all-Above rs (put F r m) c p r b (here ∙ k) f) above
          | inr (k, lower) ↦ put_all-Above rs (put F r m) c p y b (here ∙ k) f
        ]
    | inr (t, n) ↦ put_all-Above rs (put F r m) c p y b (put_ne F r m c p n ∙ e) f
  ]

  -- A record that is put F is not above what is kept in the end.
  put-not :
      (rs : List (MatchRecord F)) (r : MatchRecord F) (m : Edges F) (c p : Uuid) (b : MatchRecord F)
      → Joins F r c p
      → put_all F rs (put F r m) c p ≡ some b
      → F.gt r.jaccard_similarity b.jaccard_similarity ≡ false
  put-not rs r m c p b j f = go (m c p) refl
    where
      go :
          (o : Option (MatchRecord F))
          → m c p ≡ o
          → F.gt r.jaccard_similarity b.jaccard_similarity ≡ false
      go none e =
          Above-not r b
            (put_all-Above rs (put F r m) c p r b (put_at F r m c p j ∙ ap (better F r) e) f)
      go (some y) e =
          let here = put_at F r m c p j ∙ ap (better F r) e in
          elim (better-cases r y) [
            | inl (k, above) ↦ Above-not r b (put_all-Above rs (put F r m) c p r b (here ∙ k) f)
            | inr (k, lower) ↦ elim (put_all-Above rs (put F r m) c p y b (here ∙ k) f) [
              | inl same ↦
                  subst (λ t. F.gt r.jaccard_similarity t.jaccard_similarity ≡ false) (sym same)
                    lower
              | inr above ↦ elim (Bool-cases (F.gt r.jaccard_similarity b.jaccard_similarity)) [
                | inl t ↦
                    let over =
                      F.gt_trans r.jaccard_similarity b.jaccard_similarity y.jaccard_similarity t
                        above in
                    cc
                | inr f ↦ f
              ]
            ]
          ]

  put-some :
      (r : MatchRecord F) (m : Edges F) (c p : Uuid) (b : MatchRecord F)
      → put F r m c p ≡ some b
      → (m c p ≡ some b) ⊎ (b ≡ r) × Joins F r c p
  put-some r m c p b e = elim (edge-cases F c p r) [
    | inl (t, j) ↦ go (m c p) refl j
    | inr (t, n) ↦ inl (sym (put_ne F r m c p n) ∙ e)
  ]
    where
      go :
          (o : Option (MatchRecord F))
          → m c p ≡ o
          → Joins F r c p
          → (m c p ≡ some b) ⊎ (b ≡ r) × Joins F r c p
      go none f j =
          let here : some r ≡ some b = sym (put_at F r m c p j ∙ ap (better F r) f) ∙ e in
          inr (cc, j)
      go (some y) f j = elim (better-cases r y) [
        | inl (k, above) ↦
            let here : some r ≡ some b = sym (put_at F r m c p j ∙ ap (better F r) f ∙ k) ∙ e in
            inr (cc, j)
        | inr (k, lower) ↦ inl (f ∙ sym (put_at F r m c p j ∙ ap (better F r) f ∙ k) ∙ e)
      ]

  put_all-some :
      (rs : List (MatchRecord F)) (m : Edges F) (c p : Uuid) (b : MatchRecord F)
      → put_all F rs m c p ≡ some b
      → (m c p ≡ some b) ⊎ Elem b rs × Joins F b c p
  unfolding put_all
  put_all-some [] m c p b e = inl e
  put_all-some (r ∷ rs) m c p b e = elim (put_all-some rs (put F r m) c p b e) [
    | inl before ↦ elim (put-some r m c p b before) [
      | inl old ↦ inl old
      | inr (same, j) ↦ inr (inl same, subst (λ t. Joins F t c p) (sym same) j)
    ]
    | inr (k, j) ↦ inr (inr k, j)
  ]

  put_all-not :
      (rs : List (MatchRecord F)) (m : Edges F) (c p : Uuid) (b r : MatchRecord F)
      → Elem r rs
      → Joins F r c p
      → put_all F rs m c p ≡ some b
      → F.gt r.jaccard_similarity b.jaccard_similarity ≡ false
  unfolding put_all
  put_all-not [] m c p b r k j e = absurd k
  put_all-not (x ∷ rs) m c p b r (inl same) j e =
      subst (λ t. F.gt t.jaccard_similarity b.jaccard_similarity ≡ false) (sym same)
        (put-not rs x m c p b (subst (λ t. Joins F t c p) same j) e)
  put_all-not (x ∷ rs) m c p b r (inr k) j e = put_all-not rs (put F x m) c p b r k j e

  -- No record of an edge beats the one that is kept, and that one is a record of the edge.
  pub put_all-best :
      (rs : List (MatchRecord F)) (m : Edges F) (c p : Uuid) (b : MatchRecord F)
      → put_all F rs m c p ≡ some b
      → ((m c p ≡ some b) ⊎ Elem b rs × Joins F b c p)
        × ((r : MatchRecord F)
            → Elem r rs × Joins F r c p
            → F.gt r.jaccard_similarity b.jaccard_similarity ≡ false)
        × ((r : MatchRecord F)
            → m c p ≡ some r
            → F.gt r.jaccard_similarity b.jaccard_similarity ≡ false)
  put_all-best rs m c p b e = (
    put_all-some rs m c p b e,
    λ r k. put_all-not rs m c p b r k.0 k.1 e,
    λ r k. Above-not r b (put_all-Above rs m c p r b k e),
  )

  abbrev Some : Option (MatchRecord F) → Type 0
  Some o = (b : MatchRecord F) × (o ≡ some b)

  better-Some : (r : MatchRecord F) (o : Option (MatchRecord F)) → Some (better F r o)
  better-Some r none = (r, refl)
  better-Some r (some y) = elim (better-cases r y) [ inl k ↦ (r, k.0) | inr k ↦ (y, k.0) ]

  put-Some :
      (r : MatchRecord F) (m : Edges F) (c p : Uuid)
      → Some (m c p) ⊎ Joins F r c p
      → Some (put F r m c p)
  put-Some r m c p h = elim (edge-cases F c p r) [
    | inl (t, j) ↦ subst Some (sym (put_at F r m c p j)) (better-Some r (m c p))
    | inr (t, n) ↦ subst Some (sym (put_ne F r m c p n)) (⊎_elim (λ k. k) (λ j. absurd (n j)) h)
  ]

  -- An edge that has a record, or gets one, has one in the end.
  put_all-Some :
      (rs : List (MatchRecord F)) (m : Edges F) (c p : Uuid)
      → Some (m c p) ⊎ ((r : MatchRecord F) × Elem r rs × Joins F r c p)
      → Some (put_all F rs m c p)
  unfolding put_all
  put_all-Some [] m c p (inl k) = k
  put_all-Some [] m c p (inr (r, k, j)) = absurd k
  put_all-Some (x ∷ rs) m c p (inl k) =
      put_all-Some rs (put F x m) c p (inl (put-Some x m c p (inl k)))
  put_all-Some (x ∷ rs) m c p (inr (r, inl same, j)) =
      put_all-Some rs (put F x m) c p
        (inl (put-Some x m c p (inr (subst (λ t. Joins F t c p) same j))))
  put_all-Some (x ∷ rs) m c p (inr (r, inr k, j)) = put_all-Some rs (put F x m) c p (inr (r, k, j))

  module _ (M : Table Bytes Bytes) where
    -- After a batch of records with ids of 128 bits and sizes of 32 in a store that holds some edges,
    -- `iter` lists records. Each is one of the batch or was held before, and each record of the batch
    -- or held before has one listed for its edge that it does not beat.
    pub iter-insert_batch_best :
        (s : MatchStore F M) (rs : List (MatchRecord F)) (m : Edges F)
        → Represents F M s m
        → All (Fits F) rs
        → (kept : List (MatchRecord F)) × (iter F M (insert_batch F M s rs).0
            ≡ (scanned F M (insert_batch F M s rs).0, ok kept))
          × ((b : MatchRecord F) → Elem b kept → Elem b rs ⊎ (m b.child_id b.parent_id ≡ some b))
          × ((r : MatchRecord F)
              → Elem r rs ⊎ (m r.child_id r.parent_id ≡ some r)
              → (b : MatchRecord F) × Elem b kept
                × Joins F b r.child_id r.parent_id
                × (F.gt r.jaccard_similarity b.jaccard_similarity ≡ false))
    iter-insert_batch_best s rs m h fit =
        let after = insert_batch-Represents F M s rs m h fit in
        let (kept, run, all) =
          iter-Represents F M (insert_batch F M s rs).0 (put_all F rs m) after in
        (
          kept,
          run,
          λ b k.
              let (from, of_batch, of_store) =
                put_all-best rs m b.child_id b.parent_id b ((all b).0 k) in
              ⊎_elim inr (λ t. inl t.0) from,
          λ r k.
              let (b, at) =
                put_all-Some rs m r.child_id r.parent_id
                  (⊎_elim (λ t. inr (r, t, (refl, refl))) (λ t. inl (r, t)) k) in
              let (from, of_batch, of_store) = put_all-best rs m r.child_id r.parent_id b at in
              let (fits, (c, p)) =
                subst (Keyed F r.child_id r.parent_id) at
                  (after.matches.keyed r.child_id r.parent_id) in
              (
                b,
                (all b).1 (
                    ap (λ x. put_all F rs m x b.parent_id) c
                    ∙ ap (put_all F rs m r.child_id) p
                    ∙ at),
                (c, p),
                ⊎_elim (λ t. of_batch r (t, (refl, refl))) (λ t. of_store r t) k,
              ),
        )
