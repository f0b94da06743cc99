-- ===== src/Phase2/Flush.antt =====
-- `write_matches_batch` and `flush_pending_writes` of src/disk_dedupe.rs: the batch is that of the
-- match store, and a document is marked as processed only when its matches are on disk.
use incrededup.Base.{
  Bool-cases, ℕ, zero, suc, ◌≡◌, ◌⊎◌, inl, inr, refl, sym, ap, ◌∙◌, subst, true, Option, none, some,
  List, [], ◌∷◌, arith, All, leb, length, take,
}
use incrededup.Match.{Float, MatchRecord}
use incrededup.Table.{Table}
use incrededup.UnionFind.{Uuid}
use incrededup.Storage
use incrededup.Storage.{Bytes, serialize_record}
use incrededup.Storage.Codec.{Fits, similarity-serialize_record}
use incrededup.Storage.Matches.{
  index_record, MatchStore, Writes, should_insert, insert_record, insert_records, insert_batch,
}
use incrededup.Storage.Matches.Edges.{Edges, put, put_all, stored, IsMatches}
use incrededup.Storage.Matches.Insert.{
  Holds, Represents, insert_record-Holds, insert_batch-Represents,
}
use incrededup.Phase2
use incrededup.Phase2.{
  serialize, write_entries, Phase2Metadata, is_processed, deserialize_jaccard, PendingWrites,
  should_write, write_record, write_records, write_matches_batch, Disk, transactions, run_all,
}

-- The copies of the keys and of the layouts are those of the match store.
match_key-match_key : Phase2.match_key ≡ Storage.match_key
unfolding Phase2.match_key Storage.match_key
match_key-match_key = refl

module _ (F : Float) (M : Table Bytes Bytes) where
  serialize-serialize_record : serialize F ≡ serialize_record F
  unfolding serialize serialize_record
  serialize-serialize_record = refl

  write_entries-index_record : write_entries F M ≡ index_record F M
  unfolding write_entries index_record Phase2.adjacency_entries Storage.adjacency_entries
      Phase2.adjacency_key Storage.adjacency_key Phase2.adjacency_value Storage.adjacency_value
  write_entries-index_record = refl

  -- A similarity that `unwrap_or(0.0)` does not stop.
  abbrev pub IsPositive : MatchRecord F → Type 0
  IsPositive r = F.gt r.jaccard_similarity (F.from_bits 0) ≡ true

  should_write-IsPositive :
      (table : M.T) (r : MatchRecord F)
      → IsPositive r
      → should_write F M table r ≡ should_insert F M table r
  unfolding should_write should_insert deserialize_jaccard
  should_write-IsPositive table r h =
      go (M.get table (Storage.match_key r.child_id r.parent_id)) refl
    where
      go :
          (o : Option Bytes)
          → M.get table (Storage.match_key r.child_id r.parent_id) ≡ o
          → should_write F M table r ≡ should_insert F M table r
      go none e = rw (match_key-match_key, e, should_write, should_insert) refl
      go (some b) e = elim (Bool-cases (leb 24 (length b))) [
        | inl t ↦
            rw (match_key-match_key, e, should_write, should_insert, deserialize_jaccard, t) refl
        | inr f ↦ rw (match_key-match_key, e, should_write, should_insert, deserialize_jaccard, f) h
      ]

  should_write_lem :
      (table : M.T) (m : Edges F) (r : MatchRecord F)
      → IsMatches F M table m
      → Fits F r
      → should_write F M table r ≡ should_insert F M table r
  unfolding should_write should_insert deserialize_jaccard
  should_write_lem table m r h fit =
      go (m r.child_id r.parent_id) (h.value r.child_id r.parent_id fit.child fit.parent)
    where
      go :
          (o : Option (MatchRecord F))
          → M.get table (Storage.match_key r.child_id r.parent_id) ≡ stored F o
          → should_write F M table r ≡ should_insert F M table r
      go none e = rw (match_key-match_key, e, should_write, should_insert) refl
      go (some b) e =
          let (same, size) = similarity-serialize_record F b in
          let long : leb 24 (length (serialize_record F b)) ≡ true = ground arith in
          rw (match_key-match_key, e, should_write, should_insert, deserialize_jaccard, long) refl

  write_record_lem :
      (r : MatchRecord F) (w : Writes F M)
      → should_write F M w.0 r ≡ should_insert F M w.0 r
      → write_record F M r w ≡ insert_record F M r w
  unfolding write_record insert_record
  write_record_lem r (t, a, n) e =
      rw (e, match_key-match_key, serialize-serialize_record, write_entries-index_record) refl

  write_records-IsPositive :
      (rs : List (MatchRecord F)) (w : Writes F M)
      → All IsPositive rs
      → write_records F M rs w ≡ insert_records F M rs w
  unfolding write_records insert_records
  write_records-IsPositive [] w h = refl
  write_records-IsPositive (r ∷ rs) w h =
      ap (write_records F M rs) (write_record_lem r w (should_write-IsPositive w.0 r h.0))
      ∙ write_records-IsPositive rs (insert_record F M r w) h.1

  write_records_lem :
      (rs : List (MatchRecord F)) (w : Writes F M) (m : Edges F)
      → Holds F M (w.0, w.1) m
      → All (Fits F) rs
      → write_records F M rs w ≡ insert_records F M rs w
  unfolding write_records insert_records
  write_records_lem [] w m h fit = refl
  write_records_lem (r ∷ rs) w m h fit =
      ap (write_records F M rs) (write_record_lem r w (should_write_lem w.0 m r h.matches fit.0))
      ∙ write_records_lem rs (insert_record F M r w) (put F r m)
          (insert_record-Holds F M r w.0 w.1 w.2 m h fit.0) fit.1

  -- The batch of phase 2 does what the batch of the match store does, on a store that holds some
  -- edges for records with ids of 128 bits and sizes of 32, and on every store, a damaged one too,
  -- for records with similarities above 0.0.
  pub write_matches_batch-insert_batch :
      (s : MatchStore F M) (rs : List (MatchRecord F))
      → ((m : Edges F) × Represents F M s m × All (Fits F) rs) ⊎ All IsPositive rs
      → write_matches_batch F M s rs ≡ insert_batch F M s rs
  unfolding write_matches_batch insert_batch
  write_matches_batch-insert_batch s [] h = refl
  write_matches_batch-insert_batch s (r ∷ rs) h =
      ap (λ (w : Writes F M). (record s { matches = w.0; adjacency = w.1 }, w.2))
        (elim h [
          | inl (m, k, fit) ↦ write_records_lem (r ∷ rs) (s.matches, s.adjacency, 0) m k fit
          | inr pos ↦ write_records-IsPositive (r ∷ rs) (s.matches, s.adjacency, 0) pos
        ])

  module _ (P : Table Bytes Bytes) where
    written :
        (d : Disk F M P) (pending : PendingWrites F) (m : Edges F)
        → Represents F M d.0 m
        → All (Fits F) pending.matches
        → Represents F M
            (write_matches_batch F M d.0 pending.matches).0
            (put_all F pending.matches m)
    written d pending m h fit =
        subst (λ (x : MatchStore F M × ℕ). Represents F M x.0 (put_all F pending.matches m))
          (sym (write_matches_batch-insert_batch d.0 pending.matches (inl (m, h, fit))))
          (insert_batch-Represents F M d.0 pending.matches m h fit)

    -- Where a flush is cut short after any number of its transactions, on a store that holds some
    -- edges and with matches that fit: either no document is marked that was not, or the store holds
    -- the edges with all pending matches put.
    pub run_all-Represents :
        (n : ℕ) (d : Disk F M P) (pending : PendingWrites F) (snapshot : Phase2Metadata)
        (m : Edges F)
        → Represents F M d.0 m
        → All (Fits F) pending.matches
        → let after = run_all F M P (take n (transactions F M P pending snapshot)) d in
          ((id : Uuid) → is_processed P after.1 id ≡ is_processed P d.1 id)
          ⊎ Represents F M after.0 (put_all F pending.matches m)
    unfolding run_all
    run_all-Represents zero d pending snapshot m h fit = inl (λ id. refl)
    run_all-Represents (suc zero) d pending snapshot m h fit = inl (λ id. refl)
    run_all-Represents (suc (suc zero)) d pending snapshot m h fit = inr (written d pending m h fit)
    run_all-Represents (suc (suc (suc zero))) d pending snapshot m h fit =
        inr (written d pending m h fit)
    run_all-Represents (suc (suc (suc (suc n)))) d pending snapshot m h fit =
        inr (written d pending m h fit)
