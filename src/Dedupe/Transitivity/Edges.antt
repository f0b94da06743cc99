-- ===== src/Dedupe/Transitivity/Edges.antt =====
-- The loops of src/dedupe/mod.rs that join the edges: what they leave in the union-find.
use mathlib.Core.List.{append-nil, append_assoc}
use mathlib.Core.Path.{fun_ext}
use incrededup.Base.{
  ◌∙◌, ℕ, ◌≡◌, refl, sym, ap, subst, inl, inr, some, List, [], ◌∷◌, ◌++◌, Elem, All, All-elem,
  All-append, arith, if◌then◌else◌, Bool-cases,
}
use incrededup.Match.{Float, MatchRecord, is_self}
use incrededup.Table.{Table}
use incrededup.UnionFind.{Uuid, ◌>>=◌, make_set}
use incrededup.UnionFind.Forest.{Root, IsRanked}
use incrededup.UnionFind.Union.{parent_of-make_set, get-make_set, make_set-get}
use incrededup.UnionFind.Components.{
  Conn, Conn-Endpoint, Endpoint, Endpoint-append, IsBounded, Keyed, Joins, union-Joined,
}
use incrededup.UnionFind.Nodes.{Covers}
use incrededup.Dedupe.Transitivity.{
  beats, match_beats, update_best, join_match, Best, update_entry, join_edge, join_edges,
  join_matches,
}

module _ (F : Float) where
  -- The two ends of each edge.
  abbrev pub ends : List (MatchRecord F) → List (ℕ × ℕ)
  ends [] = []
  ends (m ∷ ms) = (m.child_id, m.parent_id) ∷ ends ms

  -- The edges that are no self-parent records.
  abbrev pub real : List (MatchRecord F) → List (MatchRecord F)
  real [] = []
  real (m ∷ ms) = if is_self F m then real ms else m ∷ real ms

module _ (F : Float) (M : Table Uuid Uuid) (B : Table Uuid (Best F)) (key : ℕ → ℕ) where
  -- A new node changes nothing in what is joined.
  Joins-make_set :
      (es : List (ℕ × ℕ)) (uf : M.T) (x : Uuid)
      → Joins M key es uf
      → Joins M key es (make_set M uf x)
  Joins-make_set es uf x h =
      let e = sym (parent_of-make_set M uf x) in
      record {
        ranked = subst (IsRanked key) e h.ranked;
        sound = subst (λ p. (r z : ℕ) → Root p r z → Conn es z r) e h.sound;
        joined =
            subst (λ p. (a b : ℕ) → Elem (a, b) es → (r : ℕ) × Root p r a × Root p r b) e h.joined;
      }

  -- What joining an edge does to the union-find.
  pub join_edge-Joins :
      (bound fuel : ℕ) (es : List (ℕ × ℕ)) (m : MatchRecord F) (uf : M.T) (best : B.T)
      → Keyed key bound fuel
      → All (IsBounded bound) es
      → IsBounded bound (m.child_id, m.parent_id)
      → Joins M key es uf
      → Covers M es uf
      → (uf' : M.T) × (join_edge F M B fuel key m (uf, best)
          ≡ some (uf', update_entry F M B (update_entry F M B best m.child_id m) m.parent_id m))
        × Joins M key (es ++ (m.child_id, m.parent_id) ∷ []) uf'
        × Covers M (es ++ (m.child_id, m.parent_id) ∷ []) uf'
  unfolding join_edge
  join_edge-Joins bound fuel es m uf best k low lt h covers =
      let a = m.child_id in
      let b = m.parent_id in
      let uf₁ = make_set M (make_set M uf a) b in
      let (uf₂, run, j) =
        union-Joined M key bound fuel es uf₁ a b k (All-elem (IsBounded bound) es low) lt.0 lt.1
          (Joins-make_set es (make_set M uf a) b (Joins-make_set es uf a h)) in
      (
        uf₂,
        rw run,
        j.joins,
        λ z. ground (
          arith,
          covers z,
          j.kept z,
          j.fresh z,
          get-make_set M (make_set M uf a) b z,
          make_set-get M (make_set M uf a) b z,
          get-make_set M uf a z,
          make_set-get M uf a z,
          Endpoint-append es ((a, b) ∷ []) z,
          spread a b z,
        ),
      )
    where
      spread : (a b z : ℕ) → Conn (es ++ (a, b) ∷ []) a z → Endpoint (es ++ (a, b) ∷ []) z
      spread a b z c = Conn-Endpoint ((Endpoint-append es ((a, b) ∷ []) a).1 (inr (inl refl))) c

  pub join_edges-Joins :
      (bound fuel : ℕ) (es : List (ℕ × ℕ)) (ms : List (MatchRecord F)) (uf : M.T) (best : B.T)
      → Keyed key bound fuel
      → All (IsBounded bound) es
      → All (IsBounded bound) (ends F ms)
      → Joins M key es uf
      → Covers M es uf
      → (uf' : M.T) × (best' : B.T) × (join_edges F M B fuel key ms (uf, best) ≡ some (uf', best'))
        × Joins M key (es ++ ends F ms) uf'
        × Covers M (es ++ ends F ms) uf'
  unfolding join_edges
  join_edges-Joins bound fuel es [] uf best k low lows h covers =
      (uf, best, refl, rw append-nil h, rw append-nil covers)
  join_edges-Joins bound fuel es (m ∷ ms) uf best k low lows h covers =
      let (uf₁, run₁, h₁, c₁) = join_edge-Joins bound fuel es m uf best k low lows.0 h covers in
      let one : List (ℕ × ℕ) = (m.child_id, m.parent_id) ∷ [] in
      let best₁ = update_entry F M B (update_entry F M B best m.child_id m) m.parent_id m in
      let (uf₂, best₂, run₂, h₂, c₂) =
        join_edges-Joins bound fuel (es ++ one) ms uf₁ best₁ k
          (All-append (IsBounded bound) es one low (lows.0, tt)) lows.1 h₁ c₁ in
      (uf₂, best₂, rw run₁ run₂, rw append_assoc at h₂, rw append_assoc at c₂)

  -- The two copies of the body join a record alike.
  join_match-join_edge :
      (fuel : ℕ) (m : MatchRecord F) (s : M.T × B.T)
      → join_match F M B fuel key m s ≡ join_edge F M B fuel key m s
  unfolding join_match join_edge update_best update_entry match_beats beats
  join_match-join_edge fuel m s = refl

  -- Passing over the self-parent records is the loop over the others.
  pub join_matches-real :
      (fuel : ℕ) (ms : List (MatchRecord F)) (s : M.T × B.T)
      → join_matches F M B fuel key ms s ≡ join_edges F M B fuel key (real F ms) s
  unfolding join_matches join_edges
  join_matches-real fuel [] s = refl
  join_matches-real fuel (m ∷ ms) s = elim (Bool-cases (is_self F m)) [
    | inl self ↦ rw self (join_matches-real fuel ms s)
    | inr edge ↦ rw edge (
        ap (λ f. join_match F M B fuel key m s >>= f) (fun_ext (join_matches-real fuel ms))
        ∙ ap (λ o. o >>= join_edges F M B fuel key (real F ms)) (join_match-join_edge fuel m s))
  ]
