-- ===== src/Table/Assoc.antt =====
-- A table that meets the interface, for the examples: an association list, newest entry first.
use mathlib.Core.Logic.{ite, if_pos, if_neg}
use incrededup.Base.{
  Distinct, ◌≡◌, ◌≢◌, ◌↔◌, refl, sym, Option, none, some, List, [], ◌∷◌, Elem, arith,
}
use incrededup.Table.{Table}

module _ {K V : Type 0} (d : Discrete K) where
  unfoldable pub assoc_get : List (K × V) → K → Option V
  assoc_get [] k = none
  assoc_get ((j, v) ∷ t) k = ite (d j k) (some v) (assoc_get t k)

  unfoldable pub assoc_remove : List (K × V) → K → List (K × V)
  assoc_remove [] k = []
  assoc_remove ((j, v) ∷ t) k = ite (d j k) (assoc_remove t k) ((j, v) ∷ assoc_remove t k)

  -- A later entry under the same key is not seen.
  unfoldable pub assoc_entries : List (K × V) → List (K × V)
  unfolding assoc_remove
  assoc_entries [] = []
  assoc_entries ((j, v) ∷ t) = (j, v) ∷ assoc_remove (assoc_entries t) j

  pub get-cons_ne :
      (t : List (K × V)) (k j : K) (v : V) → j ≢ k → assoc_get ((k, v) ∷ t) j ≡ assoc_get t j
  unfolding assoc_get
  get-cons_ne t k j v n = rw (if_neg _ (λ e. n (sym e)))

  pub get-cons_self : (t : List (K × V)) (k : K) (v : V) → assoc_get ((k, v) ∷ t) k ≡ some v
  unfolding assoc_get
  get-cons_self t k v = rw (if_pos _ refl)

  pub get-remove_self : (t : List (K × V)) (k : K) → assoc_get (assoc_remove t k) k ≡ none
  unfolding assoc_get assoc_remove
  get-remove_self [] k = refl
  get-remove_self ((j, v) ∷ t) k = elim (d j k) [
    | yes e ↦ rw (if_pos _ e) (get-remove_self t k)
    | no n ↦
        rw (if_neg _ n)
          (rw (get-cons_ne (assoc_remove t k) j k v (λ e. n (sym e))) (get-remove_self t k))
  ]

  pub get-remove_ne :
      (t : List (K × V)) (k j : K) → j ≢ k → assoc_get (assoc_remove t k) j ≡ assoc_get t j
  unfolding assoc_get assoc_remove
  get-remove_ne [] k j n = refl
  get-remove_ne ((i, v) ∷ t) k j n = ground (arith, get-remove_ne t k j)

  Elem-remove :
      (t : List (K × V)) (i k : K) (v : V)
      → Elem (k, v) (assoc_remove t i) ↔ ((k ≢ i) × Elem (k, v) t)
  unfolding assoc_remove
  Elem-remove [] i k v = (λ m. absurd m, λ m. m.1)
  Elem-remove ((j, w) ∷ t) i k v = ground (arith, Elem-remove t i k v)

  pub Elem-assoc_entries :
      (t : List (K × V)) (k : K) (v : V) → Elem (k, v) (assoc_entries t) ↔ (assoc_get t k ≡ some v)
  unfolding assoc_get assoc_entries
  Elem-assoc_entries [] k v = (λ m. absurd m, λ e. cc)
  Elem-assoc_entries ((j, w) ∷ t) k v =
      ground (arith, Elem-assoc_entries t k v, Elem-remove (assoc_entries t) j k v)

  Distinct-remove :
      (t : List (K × V)) (i : K)
      → Distinct (λ (e : K × V). e.0) t
      → Distinct (λ (e : K × V). e.0) (assoc_remove t i)
  unfolding assoc_remove
  Distinct-remove [] i h = tt
  Distinct-remove ((j, w) ∷ t) i h = elim (d j i) [
    | yes e ↦ rw (if_pos _ e) (Distinct-remove t i h.1)
    | no n ↦
        rw (if_neg _ n) (λ y m. h.0 y ((Elem-remove t i y.0 y.1).0 m).1, Distinct-remove t i h.1)
  ]

  pub Distinct-assoc_entries : (t : List (K × V)) → Distinct (λ (e : K × V). e.0) (assoc_entries t)
  unfolding assoc_entries
  Distinct-assoc_entries [] = tt
  Distinct-assoc_entries ((j, w) ∷ t) = (
    λ y m e. ((Elem-remove (assoc_entries t) j y.0 y.1).0 m).0 (sym e),
    Distinct-remove (assoc_entries t) j (Distinct-assoc_entries t),
  )

  pub get-nil : (k : K) → assoc_get [] k ≡ none
  unfolding assoc_get
  get-nil k = refl

  abbrev pub assoc : Table K V
  assoc = record {
    T = List (K × V);
    empty = [];
    get = assoc_get;
    insert = λ t k v. (k, v) ∷ t;
    remove = assoc_remove;
    entries = assoc_entries;
    get-empty = get-nil;
    get-insert_self = get-cons_self;
    get-insert_ne = get-cons_ne;
    get-remove_self = get-remove_self;
    get-remove_ne = get-remove_ne;
    distinct-entries = Distinct-assoc_entries;
    Elem-entries = Elem-assoc_entries;
  }
