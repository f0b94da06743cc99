-- ===== src/MinHash.antt =====
-- src/minhash/mod.rs and src/minhash/hasher.rs. A `u64` or `u32` is its number, and what wraps
-- around is written out. An index out of range, a panic of the source, is `none`. The generator
-- Xoshiro256++, seeded, is a parameter: its n-th draw. `FxHasher` is an interface.
pub mod Update
pub mod Signature
pub mod Similarity
pub mod Bands
use incrededup.Base.{
  ok, err, Result, ℕ, zero, suc, ◌+◌, ◌-◌, ◌*◌, ◌/◌, ◌%◌, ◌^◌, min, Bool, true, false, Option, none,
  some, List, [], ◌∷◌, ◌++◌, map, if◌then◌else◌, ◌==◌, ltb, length, take, drop, chunks,
  chunks_exact, remainder, concat, ◌||◌, not,
}
use incrededup.Match.{Float}
use incrededup.UnionFind.{◌>>=◌}

abbrev pub perm_chunk_size : ℕ
perm_chunk_size = 16

abbrev pub num_perm : ℕ
num_perm = 128

abbrev pub num_bands : ℕ
num_bands = 16

abbrev pub rows_per_band : ℕ
rows_per_band = num_perm / num_bands

-- `u64::from_le_bytes`.
pub from_le_bytes : List ℕ → ℕ
from_le_bytes [] = 0
from_le_bytes (b ∷ bs) = b + 256 * from_le_bytes bs

-- One round: `hash.wrapping_mul(0x100000001b3).wrapping_add(value)`.
pub hash_round : ℕ → ℕ → ℕ
hash_round hash value = (hash * 1099511628211 % 2 ^ 64 + value) % 2 ^ 64

pub hash_rounds : ℕ → List ℕ → ℕ
hash_rounds hash [] = hash
hash_rounds hash (value ∷ values) = hash_rounds (hash_round hash value) values

pub calculate_hash_fast : List ℕ → ℕ
calculate_hash_fast bytes =
    hash_rounds (hash_rounds 14695981039346656037 (map from_le_bytes (chunks_exact 8 bytes)))
      (remainder 8 bytes)

-- The low 32 bits of the shift are all of it.
pub permute_hash : ℕ → ℕ → ℕ → ℕ
permute_hash hash a b = (a * hash % 2 ^ 64 + b) % 2 ^ 64 / 2 ^ 32 % 2 ^ 32

pub record RMinHash : Type 0 where
  pub num_perm : ℕ
  pub seed : ℕ
  pub hash_values : List ℕ
  pub permutations : List (ℕ × ℕ)

-- One hash for each position: `current[i] = current[i].min(permute_hash(item_hash, a, b))`.
pub min_row : List (ℕ × ℕ) → List ℕ → ℕ → Option (List ℕ)
min_row [] current item_hash = some current
min_row (p ∷ ps) [] item_hash = none
min_row ((a, b) ∷ ps) (c ∷ cs) item_hash = do
  cs' ← min_row ps cs item_hash
  some (min c (permute_hash item_hash a b) ∷ cs')

pub min_rows : List (ℕ × ℕ) → List ℕ → List ℕ → Option (List ℕ)
min_rows ps current [] = some current
min_rows ps current (item_hash ∷ batch) = do
  current' ← min_row ps current item_hash
  min_rows ps current' batch

-- The loop over the complete chunks, which are written back in place.
pub update_chunks : List (List (ℕ × ℕ)) → List (List ℕ) → List ℕ → Option (List ℕ)
update_chunks [] hash_chunks hash_batch = some (concat hash_chunks)
update_chunks (ps ∷ pss) [] hash_batch = some []
update_chunks (ps ∷ pss) (hs ∷ hss) hash_batch = do
  current ← min_rows ps hs hash_batch
  rest ← update_chunks pss hss hash_batch
  some (current ++ rest)

-- `&values[start..]`
pub slice_from : {A : Type 0} → ℕ → List A → Option (List A)
slice_from start xs = if ltb (length xs) start then none else some (drop start xs)

pub update_from_hashes : RMinHash → List ℕ → Option RMinHash
update_from_hashes m hash_batch = do
  let perm_chunks = chunks_exact perm_chunk_size m.permutations
  let hash_chunks = chunks_exact perm_chunk_size m.hash_values
  complete ← update_chunks perm_chunks hash_chunks hash_batch
  let hash_values : List ℕ = complete ++ remainder perm_chunk_size m.hash_values
  let remainder_start : ℕ = m.num_perm / perm_chunk_size * perm_chunk_size
  let rest : Option (List ℕ) = do
    perm_remainder ← slice_from remainder_start m.permutations
    hash_remainder ← slice_from remainder_start hash_values
    updated ← min_rows perm_remainder hash_remainder hash_batch
    some (take remainder_start hash_values ++ updated)
  hash_values' ← if ltb remainder_start m.num_perm then rest else some hash_values
  some (record m { hash_values = hash_values' })

pub update_batches : RMinHash → List (List (List ℕ)) → Option RMinHash
update_batches m [] = some m
update_batches m (chunk ∷ rest) = do
  m' ← update_from_hashes m (map calculate_hash_fast chunk)
  update_batches m' rest

-- An item is its bytes.
pub update_bytes : RMinHash → List (List ℕ) → Option RMinHash
update_bytes m items = update_batches m (chunks 32 items)

-- `update` and `update_internal`: an item is the bytes of a string.
pub update : RMinHash → List (List ℕ) → Option RMinHash
update m items = update_batches m (chunks 32 items)

-- `vec![u32::MAX; num_perm]`
pub new_values : ℕ → List ℕ
new_values zero = []
new_values (suc count) = (2 ^ 32 - 1) ∷ new_values count

module _ (draw : ℕ → ℕ → ℕ) where
  -- The pairs of draws from the n-th on; `| 1` makes the multiplier odd.
  pub draws : ℕ → ℕ → ℕ → List (ℕ × ℕ)
  draws seed zero n = []
  draws seed (suc count) n =
      let a : ℕ = draw seed n in
      (if a % 2 == 0 then a + 1 else a, draw seed (n + 1)) ∷ draws seed count (n + 2)

  pub new : ℕ → ℕ → RMinHash
  new count seed = record {
    num_perm = count;
    seed = seed;
    hash_values = new_values count;
    permutations = draws seed count 0;
  }

-- What the checked functions report.
pub data SignatureError : Type 0 where
  length_mismatch : ℕ → ℕ → SignatureError
  empty_signature : SignatureError
  incompatible_length : ℕ → ℕ → SignatureError

pub to_count : Bool → ℕ
to_count true = 1
to_count false = 0

-- The number of equal pairs of a zip.
pub count_equal : List ℕ → List ℕ → ℕ
count_equal [] ys = 0
count_equal (x ∷ xs) [] = 0
count_equal (x ∷ xs) (y ∷ ys) = to_count (x == y) + count_equal xs ys

pub count_chunks : List (List ℕ) → List (List ℕ) → ℕ
count_chunks [] ys = 0
count_chunks (x ∷ xs) [] = 0
count_chunks (x ∷ xs) (y ∷ ys) = count_equal x y + count_chunks xs ys

pub equal_count : List ℕ → List ℕ → ℕ
equal_count sig1 sig2 =
    let remainder_start : ℕ = length sig1 / 8 * 8 in
    let complete : ℕ = count_chunks (chunks_exact 8 sig1) (chunks_exact 8 sig2) in
    if ltb remainder_start (length sig1)
    then complete + count_equal (drop remainder_start sig1) (drop remainder_start sig2)
    else complete

module _ (F : Float) where
  pub try_jaccard_from_signatures : List ℕ → List ℕ → Result SignatureError F.F64
  try_jaccard_from_signatures sig1 sig2 =
      if not (length sig1 == length sig2)
      then err (length_mismatch (length sig1) (length sig2))
      else if length sig1 == 0
      then err empty_signature
      else ok (F.ratio (equal_count sig1 sig2) (length sig1))

  -- `unwrap_or(0.0)`
  pub jaccard_from_signatures : F.F64 → List ℕ → List ℕ → F.F64
  jaccard_from_signatures zero_similarity sig1 sig2 = elim (try_jaccard_from_signatures sig1 sig2) [
    | err e ↦ zero_similarity
    | ok similarity ↦ similarity
  ]

  pub jaccard : F.F64 → RMinHash → RMinHash → F.F64
  jaccard zero_similarity m other =
      jaccard_from_signatures zero_similarity m.hash_values other.hash_values

-- `FxHasher`: its state, and what writes to it.
pub record Hasher : Type 1 where
  pub State : Type 0
  pub initial : State
  pub write_u64 : State → ℕ → State
  pub write_u32 : State → ℕ → State
  pub finish : State → ℕ

module _ (H : Hasher) where
  -- `u64::from(lo) | (u64::from(hi) << 32)`: the halves do not overlap.
  pub write_chunk : H.State → List ℕ → H.State
  write_chunk s (a ∷ b ∷ c ∷ d ∷ rest) =
      H.write_u64 (H.write_u64 s (a + b * 2 ^ 32)) (c + d * 2 ^ 32)
  write_chunk s xs = s

  pub write_chunks : H.State → List (List ℕ) → H.State
  write_chunks s [] = s
  write_chunks s (c ∷ cs) = write_chunks (write_chunk s c) cs

  pub write_values : H.State → List ℕ → H.State
  write_values s [] = s
  write_values s (v ∷ vs) = write_values (H.write_u32 s v) vs

  pub calculate_band_hash : List ℕ → ℕ
  calculate_band_hash band =
      H.finish (write_values (write_chunks H.initial (chunks_exact 4 band)) (remainder 4 band))

  -- `&signature[start..start + rows]`
  abbrev pub slice : ℕ → ℕ → List ℕ → List ℕ
  slice start rows signature = take rows (drop start signature)

  pub band_hashes : List ℕ → ℕ → ℕ → ℕ → List ℕ
  band_hashes signature rows zero band = []
  band_hashes signature rows (suc count) band =
      calculate_band_hash (slice (band * rows) rows signature)
      ∷ band_hashes signature rows count (band + 1)

  pub try_compute_band_hashes : List ℕ → Result SignatureError (List ℕ)
  try_compute_band_hashes signature =
      if length signature == 0 || not (length signature % num_bands == 0)
      then err (incompatible_length (length signature) num_bands)
      else ok (band_hashes signature (length signature / num_bands) num_bands 0)

  -- `unwrap_or_default()`
  pub compute_band_hashes : List ℕ → List ℕ
  compute_band_hashes signature = elim (try_compute_band_hashes signature) [
    | err e ↦ []
    | ok hashes ↦ hashes
  ]
