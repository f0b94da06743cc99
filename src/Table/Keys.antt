-- ===== src/Table/Keys.antt =====
-- A table with ids for keys: what a read returns after a write, in one equation.
use incrededup.Base.{
  ℕ, ◌≡◌, Option, none, some, inl, inr, if◌then◌else◌, ◌==◌, ==-cases, List, [], ◌∷◌, map, Elem,
  ◌↔◌, ◌≢◌, refl, ap,
}
use incrededup.Table.{Table}

module _ {V : Type 0} (M : Table ℕ V) where
  open M use {T, get, insert, remove, entries}

  pub get-insert :
      (t : T) (k j : ℕ) (v : V) → get (insert t k v) j ≡ (if j == k then some v else get t j)
  get-insert t k j v = elim (==-cases j k) [
    | inl (e, same) ↦ rw (e, same) (M.get-insert_self t k v)
    | inr (e, ne) ↦ rw e (M.get-insert_ne t k j v ne)
  ]

  pub get-remove : (t : T) (k j : ℕ) → get (remove t k) j ≡ (if j == k then none else get t j)
  get-remove t k j = elim (==-cases j k) [
    | inl (e, same) ↦ rw (e, same) (M.get-remove_self t k)
    | inr (e, ne) ↦ rw e (M.get-remove_ne t k j ne)
  ]

module _ {K V : Type 0} where
  Elem-keys_in : (k : K) (v : V) (es : List (K × V)) → Elem (k, v) es → Elem k (map (λ e. e.0) es)
  Elem-keys_in k v [] m = m
  Elem-keys_in k v (e ∷ es) (inl h) = inl (ap (λ t. t.0) h)
  Elem-keys_in k v (e ∷ es) (inr m) = inr (Elem-keys_in k v es m)

  Elem-keys_out :
      (k : K) (es : List (K × V)) → Elem k (map (λ e. e.0) es) → (v : V) × Elem (k, v) es
  Elem-keys_out k [] m = absurd m
  Elem-keys_out k ((j, w) ∷ es) (inl h) = (w, inl (λ i. (h i, w)))
  Elem-keys_out k (e ∷ es) (inr m) = let (v, f) = Elem-keys_out k es m in (v, inr f)

  -- The keys that iteration visits are those that a read finds.
  pub Elem-keys :
      (M : Table K V) (t : M.T) (k : K) → Elem k (map (λ e. e.0) (M.entries t)) ↔ (M.get t k ≢ none)
  Elem-keys M t k = (
    λ m.
        let (v, f) = Elem-keys_out k (M.entries t) m in
        let e = (M.Elem-entries t k v).0 f in λ n. cc,
    λ n. found (M.get t k) refl n,
  )
    where
      found : (o : Option V) → M.get t k ≡ o → o ≢ none → Elem k (map (λ e. e.0) (M.entries t))
      found none e n = absurd (n refl)
      found (some v) e n = Elem-keys_in k v (M.entries t) ((M.Elem-entries t k v).1 e)
