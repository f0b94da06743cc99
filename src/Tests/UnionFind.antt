-- ===== src/Tests/UnionFind.antt =====
-- The union-find at concrete inputs.
use incrededup.Base.{◌<◌, ◌≢◌, ◌↔◌, arith, [], some, ◌≡◌, ◌∷◌, ℕ, List}
use incrededup.Tests.Values.{ids}
use incrededup.Table.Assoc.{assoc_get}
use incrededup.UnionFind.{union_by_key, from_pairs, find}
use incrededup.UnionFind.Find.{find-Found, Found, parent_of}
use incrededup.UnionFind.Components.{Canonical}
use incrededup.UnionFind.Union.{United, union_by_key-United}
use incrededup.UnionFind.Pairs.{from_pairs-Canonical}

abbrev chain : List (ℕ × ℕ)
chain = (2, 1) ∷ (3, 2) ∷ (7, 5) ∷ []

from_pairs-Canonical_example :
    (t : List (ℕ × ℕ)) × (from_pairs ids 8 chain ≡ some t)
    × ((x r : ℕ) → (ids.get t x ≡ some r) ↔ (Canonical (λ id. id) chain x r × (r ≢ x)))
from_pairs-Canonical_example = from_pairs-Canonical ids 8 8 chain (omega arith) (omega arith)

-- 4 → 2 → 1
abbrev tree : List (ℕ × ℕ)
tree = (4, 2) ∷ (2, 1) ∷ (1, 1) ∷ []

tree_ranked : (x : ℕ) → parent_of ids tree x ≢ x → parent_of ids tree x < x
unfolding assoc_get
tree_ranked x n = ground arith

find-Found_example :
    (uf' : List (ℕ × ℕ)) × (r : ℕ) × (find ids 5 tree 4 ≡ some (uf', r))
    × Found ids (λ id. id) tree 4 uf' r
find-Found_example = find-Found ids (λ id. id) 5 tree 4 tree_ranked (omega arith)

union_by_key-United_example :
    (uf' : List (ℕ × ℕ)) × (winner loser : ℕ) × (union_by_key ids 9 (λ id. id) tree 4 8 ≡ some uf')
    × United ids (λ id. id) tree 4 8 uf' winner loser
union_by_key-United_example =
    union_by_key-United ids (λ id. id) 9 tree 4 8 tree_ranked (omega arith) (omega arith)
      (λ r s c d e. e)
