-- ===== src/Tests/MinHash.antt =====
-- MinHash at concrete inputs.
use incrededup.Base.{
  ok, ℕ, ◌≡◌, ◌≤◌, ◌/◌, ◌↔◌, refl, List, [], ◌∷◌, ◌++◌, map, some, All, Elem, arith, length, concat,
}
use incrededup.UnionFind.{◌>>=◌}
use incrededup.Tests.Values.{bits, draw, adder}
use incrededup.MinHash.{
  RMinHash, new, update_bytes, try_jaccard_from_signatures, count_equal, calculate_band_hash,
  try_compute_band_hashes, num_bands,
}
use incrededup.MinHash.Signature.{
  lowered, update_bytes_lem, update_bytes-append, update_bytes-set, new-IsValid,
}
use incrededup.MinHash.Similarity.{try_jaccard_from_signatures-ratio}
use incrededup.MinHash.Bands.{try_compute_band_hashes-tiles}

-- 20 permutations: one complete chunk and a remainder.
abbrev state : RMinHash
state = new draw 20 42

abbrev items : List (List ℕ)
items = (97 ∷ 98 ∷ 99 ∷ []) ∷ (98 ∷ 99 ∷ 100 ∷ []) ∷ []

abbrev others : List (List ℕ)
others = (98 ∷ 99 ∷ 100 ∷ []) ∷ (97 ∷ 98 ∷ 99 ∷ []) ∷ (98 ∷ 99 ∷ 100 ∷ []) ∷ []

update_bytes_lem_example : update_bytes state items ≡ some (lowered state items)
update_bytes_lem_example = update_bytes_lem state items (new-IsValid draw 20 42)

update_bytes-append_example :
    (do m' ← update_bytes state items; update_bytes m' others)
    ≡ update_bytes state (items ++ others)
update_bytes-append_example = update_bytes-append state items others (new-IsValid draw 20 42)

same_items : (x : List ℕ) → Elem x items ↔ Elem x others
same_items x = ground arith

update_bytes-set_example : update_bytes state items ≡ update_bytes state others
update_bytes-set_example = update_bytes-set state items others (new-IsValid draw 20 42) same_items

-- Nine positions: one complete chunk and a remainder.
abbrev signature : List ℕ
signature = 1 ∷ 2 ∷ 3 ∷ 4 ∷ 5 ∷ 6 ∷ 7 ∷ 8 ∷ 9 ∷ []

abbrev other : List ℕ
other = 1 ∷ 2 ∷ 0 ∷ 4 ∷ 5 ∷ 6 ∷ 0 ∷ 8 ∷ 9 ∷ []

try_jaccard_from_signatures-ratio_example :
    (try_jaccard_from_signatures bits signature other
      ≡ ok (bits.ratio (count_equal signature other) (length signature)))
    × (count_equal signature other ≤ length signature)
try_jaccard_from_signatures-ratio_example =
    try_jaccard_from_signatures-ratio bits signature other refl (omega arith)

abbrev banded : List ℕ
banded = 1 ∷ 2 ∷ 3 ∷ 4 ∷ 5 ∷ 6 ∷ 7 ∷ 8 ∷ 9 ∷ 10 ∷ 11 ∷ 12 ∷ 13 ∷ 14 ∷ 15 ∷ 16 ∷ []

try_compute_band_hashes-tiles_example :
    (parts : List (List ℕ)) × (try_compute_band_hashes adder banded
      ≡ ok (map (calculate_band_hash adder) parts))
    × (concat parts ≡ banded)
    × (length parts ≡ num_bands)
    × All (λ b. length b ≡ length banded / num_bands) parts
try_compute_band_hashes-tiles_example =
    try_compute_band_hashes-tiles adder banded (omega arith) (omega arith)
