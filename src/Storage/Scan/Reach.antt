-- ===== src/Storage/Scan/Reach.antt =====
-- What `get_real_edges_connected_to` of src/storage/mod.rs returns: the edges of the components of
-- the seeds.
use incrededup.Base.{
  Distinct-filter, Elem-filter, append_assoc, append_nil, ℕ, suc, ◌*◌, ◌<◌, ◌≡◌, ◌≢◌, ◌↔◌, ◌⊎◌, inl,
  inr, refl, sym, ap, ◌∙◌, subst, true, false, some, List, [], ◌∷◌, ◌++◌, ◌==◌, ==-cases,
  Bool-cases, arith, Elem, length, contains_iff, include, Elem-include, Result, ok, ⊎_elim,
}
use incrededup.Match.{Float, MatchRecord}
use incrededup.Table.{Table}
use incrededup.UnionFind.{Uuid}
use incrededup.Storage.{Bytes, StoreError}
use incrededup.Storage.Matches.{MatchStore, read_entries}
use incrededup.Storage.Matches.Edges.{Keyed, Edges}
use incrededup.Storage.Matches.Insert.{Represents}
use incrededup.Storage.Matches.Read.{IsUnrepeated, read-Represents}
use incrededup.Storage.Scan.{
  counted, visit_connected, to_set, touches, grow_loop, connected, visit,
  get_real_edges_connected_to, visit_real_edges_connected_to,
}
use incrededup.Storage.Scan.Passes.{missing-le, ids_of, step, Closed, grow_loop_lem}

pub Elem-to_set :
    (ids set : List Uuid) (x : Uuid) → Elem x (to_set ids set) ↔ (Elem x ids ⊎ Elem x set)
unfolding to_set
Elem-to_set [] set x = (inr, ⊎_elim absurd (λ m. m))
Elem-to_set (id ∷ ids) set x =
    ground (arith, Elem-to_set ids (include id set) x, Elem-include id x set)

module _ (F : Float) where
  -- A chain of edges, read in either direction, leads from `x` to the index.
  pub data Linked (m : Edges F) (x : Uuid) : Uuid → Type 0 where
    here : (y : Uuid) → x ≡ y → Linked m x y
    forth : (y z : Uuid) (r : MatchRecord F) → Linked m x y → m y z ≡ some r → Linked m x z
    back : (y z : Uuid) (r : MatchRecord F) → Linked m x y → m z y ≡ some r → Linked m x z

  -- Some seed leads to the document.
  abbrev pub Reached : Edges F → List Uuid → Uuid → Type 0
  Reached m seeds x = (s : Uuid) × Elem s seeds × Linked m s x

  touches_iff :
      (known : List Uuid) (r : MatchRecord F)
      → (touches F known r ≡ true)
        ↔ ((r.child_id ≢ r.parent_id) × (Elem r.child_id known ⊎ Elem r.parent_id known))
  unfolding touches
  touches_iff known r =
      ground (arith, contains_iff known r.child_id, contains_iff known r.parent_id)

  module _ (m : Edges F) (rs : List (MatchRecord F))
      (all : (r : MatchRecord F) → Elem r rs ↔ (m r.child_id r.parent_id ≡ some r))
      (keyed : (c p : Uuid) (r : MatchRecord F)
        → m c p ≡ some r
        → (r.child_id ≡ c) × (r.parent_id ≡ p))
      (seeds : List Uuid) where
    -- The known documents are reached, and the seeds are among them.
    abbrev Known : List Uuid → Type 0
    Known known =
        ((x : Uuid) → Elem x known → Reached m seeds x) × ((x : Uuid) → Elem x seeds → Elem x known)

    pub step-Known :
        (known : List Uuid) (r : MatchRecord F) → Elem r rs → Known known → Known (step F r known)
    step-Known known r e h = elim (Bool-cases (touches F known r)) [
      | inl t ↦
          let edge = (all r).0 e in
          let ends : Reached m seeds r.child_id × Reached m seeds r.parent_id =
            elim ((touches_iff known r).0 t).1 [
              | inl c ↦
                  let (s, k, l) = h.0 r.child_id c in
                  ((s, k, l), (s, k, forth r.child_id r.parent_id r l edge))
              | inr p ↦
                  let (s, k, l) = h.0 r.parent_id p in
                  ((s, k, back r.parent_id r.child_id r l edge), (s, k, l))
            ] in
          let into = λ (x : Uuid). Elem-include r.parent_id x (include r.child_id known) in
          let mid = λ (x : Uuid). Elem-include r.child_id x known in
          rw t (
            λ x k. elim ((into x).0 k) [
              | inl same ↦ subst (Reached m seeds) (sym same) ends.1
              | inr k' ↦ elim ((mid x).0 k') [
                | inl same ↦ subst (Reached m seeds) (sym same) ends.0
                | inr old ↦ h.0 x old
              ]
            ],
            λ x k. (into x).1 (inr ((mid x).1 (inr (h.1 x k)))),
          )
      | inr f ↦ rw f h
    ]

    -- An edge with one end in a closed set has both there.
    pub through :
        (known : List Uuid)
        → Closed F rs known
        → (r : MatchRecord F) (c p : Uuid) → r.child_id ≡ c
        → r.parent_id ≡ p
        → m c p ≡ some r
        → Elem c known ⊎ Elem p known
        → Elem c known × Elem p known
    through known closed r c p hc hp edge one =
        subst (λ x. Elem x known × Elem p known) hc
          (subst (λ y. Elem r.child_id known × Elem y known) hp
            (both (==-cases r.child_id r.parent_id)))
      where
        there : Elem r.child_id known ⊎ Elem r.parent_id known
        there = elim one [
          | inl k ↦ inl (subst (λ x. Elem x known) (sym hc) k)
          | inr k ↦ inr (subst (λ x. Elem x known) (sym hp) k)
        ]

        listed : Elem r rs
        listed = (all r).1 (ap (λ x. m x r.parent_id) hc ∙ ap (m c) hp ∙ edge)

        both :
            ((r.child_id == r.parent_id) ≡ true) × (r.child_id ≡ r.parent_id)
              ⊎ ((r.child_id == r.parent_id) ≡ false) × (r.child_id ≢ r.parent_id)
            → Elem r.child_id known × Elem r.parent_id known
        both (inl (t, e)) = elim there [
          | inl k ↦ (k, subst (λ x. Elem x known) e k)
          | inr k ↦ (subst (λ x. Elem x known) (sym e) k, k)
        ]
        both (inr (t, n)) =
            let (a, b) = closed r listed ((touches_iff known r).1 (n, there)) in
            ((contains_iff known r.child_id).0 a, (contains_iff known r.parent_id).0 b)

    -- A closed set with the seeds has everything that they reach.
    pub Closed-all :
        (known : List Uuid) (s x : Uuid)
        → Closed F rs known
        → ((y : Uuid) → Elem y seeds → Elem y known)
        → Elem s seeds
        → Linked m s x
        → Elem x known
    Closed-all known s x closed base k (here y e) = subst (λ t. Elem t known) e (base s k)
    Closed-all known s x closed base k (forth y z r l edge) =
        let (c, p) = keyed y z r edge in
        let old = Closed-all known s y closed base k l in
        (through known closed r y z c p edge (inl old)).1
    Closed-all known s x closed base k (back y z r l edge) =
        let (c, p) = keyed z y r edge in
        let old = Closed-all known s y closed base k l in
        (through known closed r z y c p edge (inr old)).0

    start_Known : Known (to_set seeds [])
    start_Known = (
      λ x k. elim ((Elem-to_set seeds [] x).0 k) [
        | inl e ↦ (x, e, here x refl)
        | inr none_yet ↦ absurd none_yet
      ],
      λ x e. (Elem-to_set seeds [] x).1 (inl e),
    )

    -- The loop ends in exactly the documents that the seeds reach.
    pub loop-Reached :
        (fuel : ℕ)
        → length (ids_of F rs) < fuel
        → (known : List Uuid) × (n : ℕ) × (grow_loop F fuel rs (to_set seeds []) 0
            ≡ some (known, n))
          × ((x : Uuid) → Elem x known ↔ Reached m seeds x)
    loop-Reached fuel lt =
        let low = missing-le (ids_of F rs) (to_set seeds []) in
        let (known, n, run, closed, (sound, base)) =
          grow_loop_lem F Known fuel rs (to_set seeds []) 0 step-Known (omega arith) start_Known in
        (known, n, run, λ x. (sound x, λ h. Closed-all known h.0 x closed base h.1 h.2))

    -- A record of the scan is real and reached.
    pub connected-Reached :
        (known : List Uuid) (r : MatchRecord F)
        → ((x : Uuid) → Elem x known ↔ Reached m seeds x)
        → Elem r (connected F known rs) ↔ (
            (m r.child_id r.parent_id ≡ some r)
            × (r.child_id ≢ r.parent_id)
            × Reached m seeds r.child_id)
    connected-Reached known r h = (
      λ k.
          let (e, t) = (Elem-filter (touches F known) r rs).0 k in
          let (n, ends) = (touches_iff known r).0 t in
          let edge = (all r).0 e in
          (
            edge,
            n,
            elim ends [
              | inl c ↦ (h r.child_id).0 c
              | inr p ↦
                  let (s, i, l) = (h r.parent_id).0 p in
                  (s, i, back r.parent_id r.child_id r l edge)
            ],
          ),
      λ k.
          (Elem-filter (touches F known) r rs).1
            ((all r).1 k.0, (touches_iff known r).1 (k.1, inl ((h r.child_id).1 k.2))),
    )

  length-ids_of : (rs : List (MatchRecord F)) → length (ids_of F rs) ≡ 2 * length rs
  length-ids_of [] = omega arith
  length-ids_of (r ∷ rs) = omega (arith, length-ids_of rs)

  visit-collect :
      (rs acc : List (MatchRecord F))
      → visit F (λ records r. ok (records ++ r ∷ [])) acc rs ≡ ok (acc ++ rs)
  unfolding visit
  visit-collect [] acc = ap ok (sym (append_nil acc))
  visit-collect (r ∷ rs) acc =
      visit-collect rs (acc ++ r ∷ []) ∙ ap ok (append_assoc acc (r ∷ []) rs)

  module _ (M : Table Bytes Bytes) where
    visit_run :
        {A : Type 0} (fuel : ℕ) (s : MatchStore F M) (id : Uuid) (ids : List Uuid)
        (visitor : A → MatchRecord F → Result StoreError A) (acc : A) (rs : List (MatchRecord F))
        (known : List Uuid) (n : ℕ)
        → read_entries F M (M.entries s.matches) ≡ ok rs
        → grow_loop F fuel rs (to_set (id ∷ ids) []) 0 ≡ some (known, n)
        → visit_real_edges_connected_to F M fuel s (id ∷ ids) visitor acc
          ≡ some (counted F M s (suc n), visit_connected F M visitor acc known rs)
    unfolding visit_real_edges_connected_to
    visit_run fuel s id ids visitor acc rs known n read run =
        rw (read, visit_real_edges_connected_to) (rw run refl)

    get_run :
        (fuel : ℕ) (s : MatchStore F M) (id : Uuid) (ids : List Uuid) (rs : List (MatchRecord F))
        (known : List Uuid) (n : ℕ)
        → read_entries F M (M.entries s.matches) ≡ ok rs
        → grow_loop F fuel rs (to_set (id ∷ ids) []) 0 ≡ some (known, n)
        → get_real_edges_connected_to F M fuel s (id ∷ ids)
          ≡ some (counted F M s (suc n), ok (connected F known rs))
    unfolding get_real_edges_connected_to visit_connected
    get_run fuel s id ids rs known n read run =
        rw
          (
            visit_run fuel s id ids (λ records r. ok (records ++ r ∷ [])) [] rs known n read run,
            get_real_edges_connected_to,
          )
          (rw (visit-collect (connected F known rs) []) refl)

    -- In a store that holds some edges, and with fuel above twice the number of its entries, the scan
    -- ends and returns exactly the edges that are no self-edges and that the seeds reach, each of them
    -- once.
    pub get_real_edges_connected_to-Reached :
        (fuel : ℕ) (s : MatchStore F M) (m : Edges F) (seeds : List Uuid)
        → Represents F M s m
        → 2 * length (M.entries s.matches) < fuel
        → (s' : MatchStore F M) × (records : List (MatchRecord F)) × (get_real_edges_connected_to F
              M fuel s seeds
            ≡ some (s', ok records))
          × ((r : MatchRecord F)
              → Elem r records ↔ (
                  (m r.child_id r.parent_id ≡ some r)
                  × (r.child_id ≢ r.parent_id)
                  × Reached m seeds r.child_id))
          × IsUnrepeated F records
    unfolding get_real_edges_connected_to visit_real_edges_connected_to
    get_real_edges_connected_to-Reached fuel s m [] h lt =
        (s, [], refl, λ r. (λ k. absurd k, λ k. absurd k.2.1), tt)
    get_real_edges_connected_to-Reached fuel s m (id ∷ ids) h lt =
        let (rs, read, all, size, once) = read-Represents F M s m h in
        let twice = length-ids_of rs in
        let keyed = λ (c p : Uuid) (r : MatchRecord F) (e : m c p ≡ some r).
          (subst (Keyed F c p) e (h.matches.keyed c p)).1 in
        let (known, n, run, reached) = loop-Reached m rs all keyed (id ∷ ids) fuel (omega arith) in
        (
          counted F M s (suc n),
          connected F known rs,
          get_run fuel s id ids rs known n read run,
          λ r. connected-Reached m rs all keyed (id ∷ ids) known r reached,
          Distinct-filter (λ (r : MatchRecord F). r) (touches F known) rs once,
        )
