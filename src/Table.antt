-- ===== src/Table.antt =====
-- Tables from keys to values: the std `HashMap` of src/union_find.rs and src/dedupe/mod.rs, and
-- the tables of the `redb` sidecars of src/storage/mod.rs, src/lsh/mod.rs and
-- src/disk_dedupe.rs. Neither is code of the repository, so they are an interface.
pub mod Keys
pub mod Assoc
use incrededup.Base.{Distinct, ◌≡◌, ◌≢◌, ◌↔◌, Option, none, some, List, Elem}

-- The operations that the code calls, with their documented behaviour. The order of `entries`,
-- which is what iteration visits, is left open.
pub record Table (K V : Type 0) : Type 1 where
  pub T : Type 0
  pub empty : T
  pub get : T → K → Option V
  pub insert : T → K → V → T
  pub remove : T → K → T
  pub entries : T → List (K × V)
  pub get-empty : (k : K) → get empty k ≡ none
  pub get-insert_self : (t : T) (k : K) (v : V) → get (insert t k v) k ≡ some v
  pub get-insert_ne : (t : T) (k j : K) (v : V) → j ≢ k → get (insert t k v) j ≡ get t j
  pub get-remove_self : (t : T) (k : K) → get (remove t k) k ≡ none
  pub get-remove_ne : (t : T) (k j : K) → j ≢ k → get (remove t k) j ≡ get t j
  pub distinct-entries : (t : T) → Distinct (λ (e : K × V). e.0) (entries t)
  pub Elem-entries : (t : T) (k : K) (v : V) → Elem (k, v) (entries t) ↔ (get t k ≡ some v)
