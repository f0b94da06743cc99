-- ===== src/Tests/Lsh.antt =====
-- The in-memory index at concrete inputs.
use incrededup.Base.{
  ℕ, ◌≡◌, ◌↔◌, List, [], ◌∷◌, Elem, All, arith, refl, ok, ℕ_discrete, length, ◌*◌,
}
use incrededup.Table.{Table}
use incrededup.Table.Assoc.{assoc}
use incrededup.UnionFind.{Uuid}
use incrededup.Tests.Values.{adder}
use incrededup.Lsh.{InMemoryLsh, with_params, try_query}
use incrededup.Lsh.Query.{insert_all, Stored, try_query-Stored}

abbrev buckets : Table ℕ (List Uuid)
buckets = assoc ℕ_discrete

abbrev signatures : Table Uuid (List ℕ)
signatures = assoc ℕ_discrete

-- Two bands of two rows: 7 shares the second band with the query, 8 no band.
abbrev docs : List (Uuid × List ℕ)
docs = (7, 1 ∷ 2 ∷ 3 ∷ 4 ∷ []) ∷ (8, 5 ∷ 6 ∷ 7 ∷ 8 ∷ []) ∷ []

abbrev query : List ℕ
query = 9 ∷ 9 ∷ 3 ∷ 4 ∷ []

lengths : All (λ (e : Uuid × List ℕ). length e.1 ≡ 2 * 2) docs
lengths = (refl, (refl, tt))

try_query-Stored_example :
    (m : InMemoryLsh adder buckets signatures) × (ids : List Uuid) × (insert_all adder buckets
        signatures
        (with_params adder buckets signatures 2 2)
        docs
      ≡ ok m)
    × (try_query adder buckets signatures m query ≡ ok ids)
    × ((x : Uuid) → Elem x ids ↔ Stored adder buckets signatures docs query 2 2 x)
try_query-Stored_example =
    try_query-Stored adder buckets signatures 2 2 docs query (omega arith) (omega arith) lengths
      refl
