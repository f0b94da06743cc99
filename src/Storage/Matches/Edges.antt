-- ===== src/Storage/Matches/Edges.antt =====
-- What a match store stands for: the best record of each edge, as a function of the two ids.
use incrededup.Base.{
  ◌^◌, ◌<◌, ◌≡◌, ◌⊎◌, inl, inr, refl, true, false, ◌&&◌, ◌||◌, not, Option, none, some, List, [],
  ◌∷◌, if◌then◌else◌, ◌==◌, arith,
}
use incrededup.Match.{Float, MatchRecord}
use incrededup.Table.{Table}
use incrededup.UnionFind.{Uuid}
use incrededup.Storage.{Bytes, match_key, adjacency_key, adjacency_value, serialize_record}
use incrededup.Storage.Codec.{Fits}

module _ (F : Float) where
  abbrev pub Edges : Type 0
  Edges = Uuid → Uuid → Option (MatchRecord F)

  abbrev pub no_edges : Edges
  no_edges c p = none

  -- The record that is kept of an edge.
  abbrev pub better : MatchRecord F → Option (MatchRecord F) → Option (MatchRecord F)
  better r none = some r
  better r (some b) = if F.gt r.jaccard_similarity b.jaccard_similarity then some r else some b

  abbrev pub put : MatchRecord F → Edges → Edges
  put r m c p = if c == r.child_id && p == r.parent_id then better r (m c p) else m c p

  unfoldable pub put_all : List (MatchRecord F) → Edges → Edges
  put_all [] m = m
  put_all (r ∷ rs) m = put_all rs (put r m)

  abbrev pub Joins : MatchRecord F → Uuid → Uuid → Type 0
  Joins r c p = (r.child_id ≡ c) × (r.parent_id ≡ p)

  -- A record under an edge is one of that edge, and can be stored.
  abbrev pub Keyed : Uuid → Uuid → Option (MatchRecord F) → Type 0
  Keyed c p none = Unit
  Keyed c p (some r) = Fits F r × Joins r c p

  abbrev pub stored : Option (MatchRecord F) → Option Bytes
  stored none = none
  stored (some r) = some (serialize_record F r)

  -- What the index holds under a node for an edge.
  abbrev pub indexed : Uuid → Uuid → Uuid → Option (MatchRecord F) → Option Bytes
  indexed n c p none = none
  indexed n c p (some r) =
      if (n == c || n == p) && not (c == p) then some (adjacency_value F r) else none

  abbrev pub IsUuid : Uuid → Type 0
  IsUuid id = id < 2 ^ 128

  module _ (M : Table Bytes Bytes) where
    -- The table of the matches holds these edges and nothing else.
    pub record IsMatches (table : M.T) (m : Edges) : Type 0 where
      pub value : (c p : Uuid) → IsUuid c → IsUuid p → M.get table (match_key c p) ≡ stored (m c p)
      pub keyed : (c p : Uuid) → Keyed c p (m c p)
      pub only :
          (k v : Bytes)
          → M.get table k ≡ some v
          → (c p : Uuid) × IsUuid c × IsUuid p × (k ≡ match_key c p)

    -- The index holds each of these edges that is no self-edge under both its ends, with the
    -- metrics of its record, and nothing else.
    pub record IsIndex (adjacency : M.T) (m : Edges) : Type 0 where
      pub value :
          (n c p : Uuid)
          → IsUuid n
          → IsUuid c
          → IsUuid p
          → M.get adjacency (adjacency_key n c p) ≡ indexed n c p (m c p)
      pub only :
          (k v : Bytes)
          → M.get adjacency k ≡ some v
          → (n c p : Uuid) × IsUuid n × IsUuid c × IsUuid p × (k ≡ adjacency_key n c p)

  better-Keyed :
      (c p : Uuid) (r : MatchRecord F) (o : Option (MatchRecord F))
      → Fits F r
      → Joins r c p
      → Keyed c p o
      → Keyed c p (better r o)
  better-Keyed c p r none h j k = (h, j)
  better-Keyed c p r (some b) h j k = ground (arith, h, j, k)

  pub edge-cases :
      (c p : Uuid) (r : MatchRecord F)
      → ((c == r.child_id && p == r.parent_id) ≡ true) × Joins r c p
        ⊎ ((c == r.child_id && p == r.parent_id) ≡ false) × ¬ Joins r c p
  edge-cases c p r = ground arith

  pub put-Keyed :
      (m : Edges) (r : MatchRecord F) (c p : Uuid)
      → Fits F r
      → Keyed c p (m c p)
      → Keyed c p (put r m c p)
  put-Keyed m r c p h k = elim (edge-cases c p r) [
    | inl (t, j) ↦ rw t (better-Keyed c p r (m c p) h j k)
    | inr (t, n) ↦ rw t k
  ]

  -- `put` at the edge of the record, and at another.
  pub put_at :
      (r : MatchRecord F) (m : Edges) (c p : Uuid) → Joins r c p → put r m c p ≡ better r (m c p)
  put_at r m c p j = elim (edge-cases c p r) [ inl (t, k) ↦ rw t refl | inr (t, n) ↦ absurd (n j) ]

  pub put_ne : (r : MatchRecord F) (m : Edges) (c p : Uuid) → ¬ Joins r c p → put r m c p ≡ m c p
  put_ne r m c p n = elim (edge-cases c p r) [ inl (t, k) ↦ absurd (n k) | inr (t, k) ↦ rw t refl ]
