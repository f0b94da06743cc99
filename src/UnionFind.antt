-- ===== src/UnionFind.antt =====
-- src/union_find.rs: the struct `UnionFind` and its methods.
-- A `Uuid` is the 128-bit number of its bytes, which are compared in order. The struct's one
-- field, `parent`, is the state. The `while` loop of `find` takes fuel, and `none` is a loop that
-- the fuel did not end. A root key is a number, and keys are compared as `K: Ord` is.
pub mod Forest
pub mod Find
pub mod Union
pub mod Components
pub mod Nodes
pub mod Pairs
use incrededup.Base.{
  ℕ, zero, suc, Bool, Option, none, some, List, [], ◌∷◌, ◌++◌, map, if◌then◌else◌, ◌==◌, leb,
}
use incrededup.Table.{Table}

abbrev pub Uuid : Type 0
Uuid = ℕ

infixl 5 ◌>>=◌
abbrev pub ◌>>=◌ : {A B : Type 0} → Option A → (A → Option B) → Option B
none >>= f = none
some a >>= f = f a

module _ (M : Table Uuid Uuid) where
  open M use {T, empty, get, insert, entries}

  abbrev pub UnionFind : Type 0
  UnionFind = T

  unfoldable pub make_set : UnionFind → Uuid → UnionFind
  make_set uf x = elim (get uf x) [ none ↦ insert uf x x | some _ ↦ uf ]

  -- The `while` loop of `find`: the node where it stops, and the nodes that it passed.
  unfoldable pub walk : ℕ → UnionFind → Uuid → List Uuid → Option (Uuid × List Uuid)
  walk zero uf node path = none
  walk (suc fuel) uf node path = elim (get uf node) [
    | none ↦ some (node, path)
    | some parent ↦
        let rest = walk fuel uf parent (path ++ node ∷ []) in
        if parent == node then some (node, path) else rest
  ]

  -- The loop that points each node of the path at the root.
  unfoldable pub compress : UnionFind → List Uuid → Uuid → UnionFind
  compress uf [] node = uf
  compress uf (child ∷ path) node = compress (insert uf child node) path node

  unfoldable pub find : ℕ → UnionFind → Uuid → Option (UnionFind × Uuid)
  find fuel uf x = do (node, path) ← walk fuel uf x []; some (compress uf path node, node)

  unfoldable pub union_by_key : ℕ → (Uuid → ℕ) → UnionFind → Uuid → Uuid → Option UnionFind
  union_by_key fuel root_key uf x y = do
    (uf₁, root_x) ← find fuel uf x
    (uf₂, root_y) ← find fuel uf₁ y
    some (
        if root_x == root_y
        then uf₂
        else if leb (root_key root_x) (root_key root_y)
        then insert uf₂ root_y root_x
        else insert uf₂ root_x root_y)

  pub union : ℕ → UnionFind → Uuid → Uuid → Option UnionFind
  union fuel uf x y = union_by_key fuel (λ id. id) uf x y

  unfoldable pub nodes : UnionFind → List Uuid
  nodes uf = map (λ e. e.0) (entries uf)

  -- `for node in nodes { let root = uf.find(node); … }`, where the body updates `acc`.
  unfoldable pub for_nodes :
      {A : Type 0} → ℕ → (Uuid → Uuid → A → A) → UnionFind → List Uuid → A → Option A
  for_nodes fuel body uf [] acc = some acc
  for_nodes fuel body uf (node ∷ rest) acc = do
    (uf', root) ← find fuel uf node
    for_nodes fuel body uf' rest (body node root acc)

  -- The first loop of `from_pairs`.
  pub make_sets : UnionFind → List (Uuid × Uuid) → UnionFind
  make_sets uf [] = uf
  make_sets uf ((child, parent) ∷ pairs) = make_sets (make_set (make_set uf child) parent) pairs

  -- The second loop of `from_pairs`.
  pub union_pairs : ℕ → UnionFind → List (Uuid × Uuid) → Option UnionFind
  union_pairs fuel uf [] = some uf
  union_pairs fuel uf ((child, parent) ∷ pairs) = do
    uf' ← union fuel uf child parent
    union_pairs fuel uf' pairs

  pub assign : Uuid → Uuid → T → T
  assign node root assignments = if root == node then assignments else insert assignments node root

  pub from_pairs : ℕ → List (Uuid × Uuid) → Option T
  from_pairs fuel [] = some empty
  from_pairs fuel (pair ∷ rest) = do
    uf ← union_pairs fuel (make_sets empty (pair ∷ rest)) (pair ∷ rest)
    for_nodes fuel assign uf (nodes uf) empty
