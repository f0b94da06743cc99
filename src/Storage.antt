-- ===== src/Storage.antt =====
-- src/storage/mod.rs: the sidecar `matches.redb`, its keys and values as bytes. A `redb` table is an
-- instance of the interface of a map from bytes to bytes. Errors of the disk are not modelled; a
-- malformed key or value is an error.
pub mod Codec
pub mod Matches
pub mod Scan
pub mod Walk
pub mod Progress
pub mod Backfill
pub mod Filtered
use incrededup.Base.{
  ℕ, zero, suc, ◌+◌, Bool, true, false, ◌&&◌, ◌||◌, not, Option, none, some, List, [], ◌∷◌, ◌++◌,
  if◌then◌else◌, ◌==◌, ltb, leb, length, take, drop, Result, err, ok, le_bytes, le_value, be_bytes,
  be_value,
}
use incrededup.Base.Results.{◌>>=◌}
use incrededup.Match.{Float, MatchRecord, is_self}
use incrededup.Table.{Table}
use incrededup.UnionFind.{Uuid}

abbrev pub Bytes : Type 0
Bytes = List ℕ

pub data StoreError : Type 0 where
  invalid_key_length : ℕ → StoreError
  invalid_data_length : ℕ → StoreError
  -- The error of `Uuid::from_slice` on bytes that are not 16.
  invalid_id_length : ℕ → StoreError

-- `Uuid::as_bytes` and `Uuid::from_slice` on 16 bytes.
abbrev pub as_bytes : Uuid → Bytes
as_bytes id = be_bytes 16 id

abbrev pub from_slice : Bytes → Uuid
from_slice bytes = be_value bytes

-- `&bytes[start..start + count]`
abbrev pub part : ℕ → ℕ → Bytes → Bytes
part start count bytes = take count (drop start bytes)

unfoldable pub match_key : Uuid → Uuid → Bytes
match_key child_id parent_id = as_bytes child_id ++ as_bytes parent_id

unfoldable pub child_id_from_match_key : Bytes → Result StoreError Uuid
child_id_from_match_key key =
    if length key == 16 || length key == 32
    then ok (from_slice (part 0 16 key))
    else err (invalid_key_length (length key))

unfoldable pub adjacency_key : Uuid → Uuid → Uuid → Bytes
adjacency_key node child parent = as_bytes node ++ (as_bytes child ++ as_bytes parent)

module _ (F : Float) where
  abbrev pub f64_bytes : F.F64 → Bytes
  f64_bytes x = le_bytes 8 (F.to_bits x)

  abbrev pub f64_from : Bytes → F.F64
  f64_from bytes = F.from_bits (le_value bytes)

  unfoldable pub adjacency_value : MatchRecord F → Bytes
  adjacency_value r =
      f64_bytes r.jaccard_similarity
      ++ (le_bytes 4 r.size_difference ++ f64_bytes r.size_difference_pct)

  -- The keys of the two entries of an edge, and their value.
  unfoldable pub adjacency_entries : MatchRecord F → Option (Bytes × Bytes × Bytes)
  unfolding adjacency_key adjacency_value
  adjacency_entries r =
      if is_self F r
      then none
      else some (
        adjacency_key r.child_id r.child_id r.parent_id,
        adjacency_key r.parent_id r.child_id r.parent_id,
        adjacency_value r,
      )

  unfoldable pub serialize_record : MatchRecord F → Bytes
  serialize_record r =
      as_bytes r.parent_id
      ++ (f64_bytes r.jaccard_similarity
          ++ (le_bytes 4 r.size_difference ++ f64_bytes r.size_difference_pct))

  unfoldable pub deserialize_record : Uuid → Bytes → Result StoreError (MatchRecord F)
  deserialize_record child_id bytes =
      if ltb (length bytes) 36
      then err (invalid_data_length (length bytes))
      else ok (record {
        child_id = child_id;
        parent_id = from_slice (part 0 16 bytes);
        jaccard_similarity = f64_from (part 16 8 bytes);
        size_difference = le_value (part 24 4 bytes);
        size_difference_pct = f64_from (part 28 8 bytes);
      })
