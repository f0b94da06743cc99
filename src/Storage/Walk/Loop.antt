-- ===== src/Storage/Walk/Loop.antt =====
-- What `get_real_edges_connected_to_indexed` of src/storage/mod.rs returns: the edges of the
-- components of the seeds, as the scan does.
use incrededup.Base.{
  ◌++◌, ℕ, zero, suc, ◌+◌, ◌*◌, min, ◌<◌, ◌≤◌, ◌≡◌, ◌≢◌, ◌↔◌, ◌⊎◌, inl, inr, refl, sym, ap, ◌∙◌,
  subst, some, List, [], ◌∷◌, include, arith, Elem, All, All-elem, length, ok,
}
use incrededup.Match.{Float, MatchRecord}
use incrededup.Table.{Table}
use incrededup.UnionFind.{Uuid}
use incrededup.Storage.{Bytes}
use incrededup.Storage.Matches.{MatchStore}
use incrededup.Storage.Matches.Edges.{Edges, Keyed, IsUuid, IsIndex}
use incrededup.Storage.Matches.Insert.{Represents}
use incrededup.Storage.Scan.{to_set, get_real_edges_connected_to}
use incrededup.Storage.Scan.Passes.{missing, missing-le}
use incrededup.Storage.Scan.Reach.{
  here, forth, Reached, Elem-to_set, get_real_edges_connected_to-Reached,
}
use incrededup.Storage.Walk.{
  Walk, walk_rows, walk_loop, node_range, get_real_edges_connected_to_indexed,
  visit_real_edges_connected_to_indexed,
}
use incrededup.Storage.Walk.Ranges.{node_range-entry}
use incrededup.Storage.Walk.Rows.{
  other_end, after_rows, collector, At, node_rows, row_at, key_parts,
}
use incrededup.Storage.Matches.Read.{IsUnrepeated}
use incrededup.Storage.Walk.Steps.{after_rows-Effect}
use incrededup.Storage.Walk.Once.{Distinct-to_set, IsOnce, step-IsOnce}
use incrededup.Storage.Walk.Reach.{
  ids_at, length-ids_at, Elem-ids_at, keyed_of, Linked-IsUuid, other_end-cases, State, IsWalk,
  step-IsWalk, Linked-visited, settled,
}

length-to_set : (ids set : List Uuid) → length (to_set ids set) ≤ length ids + length set
unfolding to_set include
length-to_set [] set = omega arith
length-to_set (id ∷ ids) set = ground (arith, length-to_set ids (include id set))

module _ (F : Float) (m : Edges F) (keyed : (c p : Uuid) → Keyed F c p (m c p)) where
  -- A walk with an empty stack has the edges that the seeds reach.
  IsWalk-records :
      (seeds : List Uuid) (w : State F m keyed) (r : MatchRecord F)
      → IsWalk F m keyed seeds w
      → w.stack ≡ []
      → Elem r w.acc ↔ (
          (m r.child_id r.parent_id ≡ some r)
          × (r.child_id ≢ r.parent_id)
          × Reached F m seeds r.child_id)
  IsWalk-records seeds w r h e = (h.sound r, λ k. complete k)
    where
      complete :
          (m r.child_id r.parent_id ≡ some r)
            × (r.child_id ≢ r.parent_id)
            × Reached F m seeds r.child_id
          → Elem r w.acc
      complete (edge, n, (s, k, l)) =
          let c = Linked-visited F m keyed seeds w s r.child_id h e k l in
          let p =
            Linked-visited F m keyed seeds w s r.parent_id h e k
              (forth r.child_id r.parent_id r l edge) in
          let low : (min r.child_id r.parent_id ≡ r.child_id)
              ⊎ (min r.child_id r.parent_id ≡ r.parent_id) =
            ground arith in
          elim low [
            | inl t ↦ (settled F m keyed seeds w r.child_id h e c r (edge, n, inl refl)).1 (sym t)
            | inr t ↦ (settled F m keyed seeds w r.parent_id h e p r (edge, n, inr refl)).1 (sym t)
          ]

  module _ (M : Table Bytes Bytes) (a : M.T) (index : IsIndex F M a m) where
    abbrev ids : List Uuid
    ids = ids_at (M.entries a)

    -- The other end of an edge is among the ids of the index.
    Elem-ids :
        (x : Uuid) (r : MatchRecord F) → IsUuid F x → At F m x r → Elem (other_end F m x r) ids
    Elem-ids x r hx at =
        let row = node_range-entry x _ (M.entries a) (row_at F m M a index keyed x r hx at) in
        let (u, v) = Elem-ids_at (M.entries a) _ row in
        let (same_c, same_p, hc, hp) = keyed_of F m keyed r.child_id r.parent_id r at.0 in
        let (len, c, p) = key_parts F m x r.child_id r.parent_id hc hp in
        elim (other_end-cases F m keyed x r at.1 at.2) [
          | inl k ↦ subst (λ t. Elem t ids) (p ∙ sym k.1) v
          | inr k ↦ subst (λ t. Elem t ids) (c ∙ sym k.1) u
        ]

    loop_empty :
        (fuel : ℕ) (w : State F m keyed)
        → w.stack ≡ []
        → walk_loop F (suc fuel) (collector F m) (M.entries a) w ≡ some (ok w)
    unfolding walk_loop
    loop_empty fuel w e = simp (e, walk_loop)

    loop_node :
        (fuel : ℕ) (w w' : State F m keyed) (node : Uuid) (stack : List Uuid)
        → w.stack ≡ node ∷ stack
        → walk_rows F
            (collector F m)
            node
            (node_range node (M.entries a))
            (record w { stack = stack })
          ≡ ok w'
        → walk_loop F (suc fuel) (collector F m) (M.entries a) w
          ≡ walk_loop F fuel (collector F m) (M.entries a) w'
    unfolding walk_loop
    loop_node fuel w w' node stack e run = rw (e, walk_loop) (rw (run, walk_loop) refl)

    -- The walk ends with an empty stack.
    abbrev Ends : List Uuid → ℕ → State F m keyed → Type 0
    Ends seeds fuel w =
        (w' : State F m keyed) × (walk_loop F fuel (collector F m) (M.entries a) w ≡ some (ok w'))
        × IsWalk F m keyed seeds w'
        × IsOnce F m w'
        × (w'.stack ≡ [])

    loop-step :
        (seeds : List Uuid)
        → All (IsUuid F) seeds
        → (fuel : ℕ)
        → ((w : State F m keyed)
            → IsWalk F m keyed seeds w
            → IsOnce F m w
            → length w.stack + missing ids w.visited_nodes < fuel
            → Ends seeds fuel w)
        → (w : State F m keyed) (stack : List Uuid) → w.stack ≡ stack
        → IsWalk F m keyed seeds w
        → IsOnce F m w
        → length w.stack + missing ids w.visited_nodes < suc fuel
        → Ends seeds (suc fuel) w
    loop-step seeds small fuel later w [] e h o lt = (w, loop_empty fuel w e, h, o, e)
    loop-step seeds small fuel later w (node ∷ stack) e h o lt =
        let (s, k, l) = h.reached node (h.stacked node (subst (Elem node) (sym e) (inl refl))) in
        let node_uuid = Linked-IsUuid F m keyed s node (All-elem (IsUuid F) seeds small s k) l in
        let (rs, run, at, once) = node_rows F m M a index keyed node node_uuid in
        let start : State F m keyed = record w { stack = stack } in
        let w' = after_rows F m node rs start in
        let effect = after_rows-Effect F m node rs start in
        let fall = effect.measure ids (λ r i. Elem-ids node r node_uuid ((at r).0 i)) in
        let size : length w.stack ≡ suc (length stack) = ap length e in
        let (v, rest, inv, o_end, empty) =
          later w' (step-IsWalk F m keyed seeds node stack rs w w' e h at effect)
            (step-IsOnce F m node stack rs w e once o) (omega arith) in
        (v, loop_node fuel w w' node stack e (run start) ∙ rest, inv, o_end, empty)

    walk_loop-Ends :
        (seeds : List Uuid)
        → All (IsUuid F) seeds
        → (fuel : ℕ) (w : State F m keyed) → IsWalk F m keyed seeds w
        → IsOnce F m w
        → length w.stack + missing ids w.visited_nodes < fuel
        → Ends seeds fuel w
    walk_loop-Ends seeds small zero w h o lt = absurd (omega arith)
    walk_loop-Ends seeds small (suc fuel) w h o lt =
        loop-step seeds small fuel (walk_loop-Ends seeds small fuel) w w.stack refl h o lt

    abbrev start : List Uuid → State F m keyed
    start seeds = record {
      visited_nodes = to_set seeds [];
      stack = to_set seeds [];
      acc = [];
      edges_streamed = 0;
    }

    start-IsWalk : (seeds : List Uuid) → IsWalk F m keyed seeds (start seeds)
    start-IsWalk seeds = record {
      reached = λ x k. elim ((Elem-to_set seeds [] x).0 k) [
        | inl e ↦ (x, e, here x refl)
        | inr none_yet ↦ absurd none_yet
      ];
      base = λ x k. (Elem-to_set seeds [] x).1 (inl k);
      stacked = λ x k. k;
      done = λ x k. inl k;
      sound = λ r k. absurd k;
    }

    start-IsOnce : (seeds : List Uuid) → IsOnce F m (start seeds)
    start-IsOnce seeds = record {
      stack_once = Distinct-to_set seeds [] tt;
      inside = λ x k. k;
      once = tt;
      popped = λ r k. absurd k;
    }

module _ (F : Float) (M : Table Bytes Bytes) where
  abbrev walk_start : List Uuid → Walk (List (MatchRecord F))
  walk_start seeds = record {
    visited_nodes = to_set seeds [];
    stack = to_set seeds [];
    acc = [];
    edges_streamed = 0;
  }

  indexed_run :
      (fuel : ℕ) (s : MatchStore F M) (id : Uuid) (ids : List Uuid)
      (w : Walk (List (MatchRecord F)))
      → walk_loop F fuel
          (λ records r. ok (records ++ r ∷ []))
          (M.entries s.adjacency)
          (walk_start (id ∷ ids))
        ≡ some (ok w)
      → get_real_edges_connected_to_indexed F M fuel s (id ∷ ids) ≡ some (ok w.acc)
  unfolding get_real_edges_connected_to_indexed visit_real_edges_connected_to_indexed
  indexed_run fuel s id ids w run =
      rw (run, get_real_edges_connected_to_indexed, visit_real_edges_connected_to_indexed) refl

  -- In a store that holds some edges, from seeds of 128 bits, and with fuel above the number of
  -- seeds and twice the number of entries of the index, the walk ends and returns exactly the edges
  -- that are no self-edges and that the seeds reach, each of them once.
  pub get_real_edges_connected_to_indexed-Reached :
      (fuel : ℕ) (s : MatchStore F M) (m : Edges F) (seeds : List Uuid)
      → Represents F M s m
      → All (IsUuid F) seeds
      → length seeds + 2 * length (M.entries s.adjacency) < fuel
      → (records : List (MatchRecord F)) × (get_real_edges_connected_to_indexed F M fuel s seeds
          ≡ some (ok records))
        × ((r : MatchRecord F)
            → Elem r records ↔ (
                (m r.child_id r.parent_id ≡ some r)
                × (r.child_id ≢ r.parent_id)
                × Reached F m seeds r.child_id))
        × IsUnrepeated F records
  unfolding get_real_edges_connected_to_indexed visit_real_edges_connected_to_indexed
  get_real_edges_connected_to_indexed-Reached fuel s m [] h small lt =
      ([], refl, λ r. (λ k. absurd k, λ k. absurd k.2.1), tt)
  get_real_edges_connected_to_indexed-Reached fuel s m (id ∷ ids) h small lt =
      let keyed = h.matches.keyed in
      let seeds = id ∷ ids in
      let low = missing-le (ids_at (M.entries s.adjacency)) (to_set seeds []) in
      let twice = length-ids_at (M.entries s.adjacency) in
      let few = length-to_set seeds [] in
      let (w, run, inv, o, empty) =
        walk_loop-Ends F m keyed M s.adjacency h.index seeds small fuel (walk_start seeds)
          (start-IsWalk F m keyed M s.adjacency h.index seeds)
          (start-IsOnce F m keyed M s.adjacency h.index seeds) (omega arith) in
      (
        w.acc,
        indexed_run fuel s id ids w run,
        λ r. IsWalk-records F m keyed seeds w r inv empty,
        o.once,
      )

  -- In a store that holds some edges, from seeds of 128 bits and with enough fuel for both, the scan
  -- and the walk over the index return the same records, each of the two every record once.
  pub get_real_edges_connected_to-indexed :
      (fuel : ℕ) (s : MatchStore F M) (m : Edges F) (seeds : List Uuid)
      → Represents F M s m
      → All (IsUuid F) seeds
      → length seeds + 2 * length (M.entries s.adjacency) < fuel
      → 2 * length (M.entries s.matches) < fuel
      → (s' : MatchStore F M) × (scanned : List (MatchRecord F)) × (walked : List (MatchRecord F))
        × (get_real_edges_connected_to F M fuel s seeds ≡ some (s', ok scanned))
        × (get_real_edges_connected_to_indexed F M fuel s seeds ≡ some (ok walked))
        × ((r : MatchRecord F) → Elem r scanned ↔ Elem r walked)
        × IsUnrepeated F scanned
        × IsUnrepeated F walked
  get_real_edges_connected_to-indexed fuel s m seeds h small lt₁ lt₂ =
      let (s', scanned, run₁, e₁, once₁) =
        get_real_edges_connected_to-Reached F M fuel s m seeds h lt₂ in
      let (walked, run₂, e₂, once₂) =
        get_real_edges_connected_to_indexed-Reached fuel s m seeds h small lt₁ in
      (
        s',
        scanned,
        walked,
        run₁,
        run₂,
        λ r. (λ k. (e₂ r).1 ((e₁ r).0 k), λ k. (e₁ r).1 ((e₂ r).0 k)),
        once₁,
        once₂,
      )
