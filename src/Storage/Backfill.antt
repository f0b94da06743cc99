-- ===== src/Storage/Backfill.antt =====
-- src/storage/mod.rs: `build_adjacency_index`, which derives the adjacency index from the matches, and
-- `flush_adjacency`. A flush is a transaction of its own, so its entries stay when a later entry of the
-- matches is malformed.
pub mod Flush
pub mod Laws
use incrededup.Base.{
  ℕ, suc, ◌+◌, Bool, Option, none, some, List, [], ◌∷◌, ◌++◌, if◌then◌else◌, leb, length, Result,
  err, ok,
}
use incrededup.Base.Results.{◌>>=◌}
use incrededup.Match.{Float, MatchRecord}
use incrededup.Table.{Table}
use incrededup.Storage.{Bytes, StoreError, adjacency_entries}
use incrededup.Storage.Matches.{MatchStore, read_entry, set_adjacency_built}

-- `FLUSH_EVERY`
abbrev pub flush_every : ℕ
flush_every = 100000

pub record AdjacencyBuildStats : Type 0 where
  pub edges_indexed : ℕ
  pub entries_written : ℕ

module _ (M : Table Bytes Bytes) where
  -- The index after, and the number of entries that were not there.
  unfoldable pub flush_loop : List (Bytes × Bytes) → M.T × ℕ → M.T × ℕ
  flush_loop [] w = w
  flush_loop ((k, v) ∷ entries) (adjacency, inserted) =
      flush_loop entries (elim (M.get adjacency k) [
        | none ↦ (M.insert adjacency k v, suc inserted)
        | some old ↦ (adjacency, inserted)
      ])

  unfoldable pub flush_adjacency : M.T → List (Bytes × Bytes) → M.T × ℕ
  unfolding flush_loop
  flush_adjacency adjacency entries = flush_loop entries (adjacency, 0)

  pub record Builder : Type 0 where
    pub adjacency : M.T
    pub buffer : List (Bytes × Bytes)
    pub edges_indexed : ℕ
    pub entries_written : ℕ

  unfoldable pub flushed : Builder → Builder
  unfolding flush_adjacency
  flushed b =
      let w = flush_adjacency b.adjacency b.buffer in
      record b { adjacency = w.0; buffer = []; entries_written = b.entries_written + w.1 }

  -- The entries that are left at the end.
  unfoldable pub flush_rest : Builder → Builder
  unfolding flushed
  flush_rest b = elim b.buffer [ [] ↦ b | e ∷ es ↦ flushed b ]

  module _ (F : Float) where
    unfoldable pub build_record : MatchRecord F → Builder → Builder
    unfolding flushed
    build_record r b = elim (adjacency_entries F r) [
      | none ↦ b
      | some (from_child, from_parent, av) ↦
          let next = record b {
            buffer = b.buffer ++ (from_child, av) ∷ (from_parent, av) ∷ [];
            edges_indexed = suc b.edges_indexed;
          } in
          if leb flush_every (length next.buffer) then flushed next else next
    ]

    -- The loop over the entries, with what is done when an entry is malformed.
    unfoldable pub build_loop : List (Bytes × Bytes) → Builder → Builder × Result StoreError Unit
    unfolding build_record read_entry
    build_loop [] b = (b, ok tt)
    build_loop (e ∷ es) b = elim (read_entry F M e) [
      | err error ↦ (b, err error)
      | ok r ↦ build_loop es (build_record r b)
    ]

    -- What follows the loop.
    unfoldable pub finish_build :
        MatchStore F M
        → Builder × Result StoreError Unit
        → MatchStore F M × Result StoreError AdjacencyBuildStats
    unfolding flush_rest
    finish_build s (b, err error) = (record s { adjacency = b.adjacency }, err error)
    finish_build s (b, ok done) =
        let last = flush_rest b in
        (
          set_adjacency_built F M (record s { adjacency = last.adjacency }),
          ok (record {
            edges_indexed = last.edges_indexed;
            entries_written = last.entries_written;
          }),
        )

    unfoldable pub build_adjacency_index :
        MatchStore F M → MatchStore F M × Result StoreError AdjacencyBuildStats
    unfolding build_loop finish_build
    build_adjacency_index s = finish_build s (
        build_loop (M.entries s.matches)
          (record { adjacency = s.adjacency; buffer = []; edges_indexed = 0; entries_written = 0 }))
