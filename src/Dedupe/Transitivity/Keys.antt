-- ===== src/Dedupe/Transitivity/Keys.antt =====
-- The root key `(priority, id)` of src/dedupe/mod.rs.
use incrededup.Base.{refl, ◌≡◌, ℕ, ◌*◌, ◌^◌, ◌≤◌, ◌<◌, List, Elem, arith, contains_iff}
use incrededup.UnionFind.Components.{Conn, Canonical, Keyed}
use incrededup.Dedupe.Transitivity.{match_root_key, root_key}

-- Ids of 128 bits have keys of their own, and fuel above every key serves `find`.
pub root_key-Keyed :
    (preferred new_docs : List ℕ) (fuel : ℕ)
    → 3 * 2 ^ 128 ≤ fuel
    → Keyed (root_key preferred new_docs) (2 ^ 128) fuel
unfolding root_key
root_key-Keyed preferred new_docs fuel h = record {
  injective = λ x y hx hy e. ground arith;
  fueled = λ x hx. ground arith;
}

-- The canonical member of a component in which some document is preferred is preferred.
pub Canonical-preferred :
    (preferred new_docs : List ℕ) (es : List (ℕ × ℕ)) (x r p : ℕ)
    → p < 2 ^ 128
    → Canonical (root_key preferred new_docs) es x r
    → Conn es x p
    → Elem p preferred
    → Elem r preferred
unfolding root_key
Canonical-preferred preferred new_docs es x r p lt h c m =
    ground (arith, h.lowest p c, contains_iff preferred p, contains_iff preferred r)

-- The two copies of the root key are one function.
pub match_root_key-root_key : match_root_key ≡ root_key
unfolding match_root_key root_key
match_root_key-root_key = refl
