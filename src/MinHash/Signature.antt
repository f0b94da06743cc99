-- ===== src/MinHash/Signature.antt =====
-- The signature that `RMinHash::update_bytes` of src/minhash/mod.rs makes of the items.
use incrededup.Base.{
  ℕ, zero, suc, ◌+◌, ◌≤◌, min, ◌≡◌, ◌↔◌, inl, inr, refl, sym, ap, ◌∙◌, List, [], ◌∷◌, ◌++◌, map,
  some, Elem, arith, length, chunks, concat, concat-chunks,
}
use incrededup.UnionFind.{◌>>=◌}
use incrededup.MinHash.{
  RMinHash, permute_hash, calculate_hash_fast, update_batches, update_bytes, new, new_values, draws,
}
use incrededup.MinHash.Update.{
  IsValid, least, least_each, least_each-nil, least_each-batches, length-least_each,
  update_from_hashes_lem,
}

-- The state with every value taken down by the hashes of the items.
abbrev pub lowered : RMinHash → List (List ℕ) → RMinHash
lowered m items = record m {
  hash_values = least_each m.permutations m.hash_values (map calculate_hash_fast items);
}

pub lowered-IsValid : (m : RMinHash) (items : List (List ℕ)) → IsValid m → IsValid (lowered m items)
lowered-IsValid m items h = record {
  permuted = h.permuted;
  valued =
      length-least_each m.permutations m.hash_values _ (h.permuted ∙ sym h.valued) ∙ h.permuted;
}

map-append : {A B : Type 0} (f : A → B) (xs ys : List A) → map f (xs ++ ys) ≡ map f xs ++ map f ys
map-append f [] ys = refl
map-append f (x ∷ xs) ys = ap (λ t. f x ∷ t) (map-append f xs ys)

pub lowered-nil : (m : RMinHash) → IsValid m → lowered m [] ≡ m
lowered-nil m h =
    ap (λ t. record m { hash_values = t })
      (least_each-nil m.permutations m.hash_values (h.permuted ∙ sym h.valued))

pub lowered-append :
    (m : RMinHash) (xs ys : List (List ℕ)) → lowered (lowered m xs) ys ≡ lowered m (xs ++ ys)
lowered-append m xs ys =
    ap (λ t. record m { hash_values = t })
      (least_each-batches m.permutations m.hash_values (map calculate_hash_fast xs)
          (map calculate_hash_fast ys)
        ∙ ap (least_each m.permutations m.hash_values) (sym (map-append calculate_hash_fast xs ys)))

update_batches_lem :
    (m : RMinHash) (batches : List (List (List ℕ)))
    → IsValid m
    → update_batches m batches ≡ some (lowered m (concat batches))
unfolding update_batches concat
update_batches_lem m [] h =
    ap (λ t. some (record m { hash_values = t }))
      (sym (least_each-nil m.permutations m.hash_values (h.permuted ∙ sym h.valued)))
update_batches_lem m (batch ∷ batches) h =
    rw (update_from_hashes_lem m (map calculate_hash_fast batch) h) (
      update_batches_lem (lowered m batch) batches (lowered-IsValid m batch h)
      ∙ ap some (lowered-append m batch (concat batches)))

-- On a valid state `update_bytes`, which works in batches, returns, and every value becomes the
-- minimum of itself and of what its permutation makes of the hashes of all items.
pub update_bytes_lem :
    (m : RMinHash) (items : List (List ℕ))
    → IsValid m
    → update_bytes m items ≡ some (lowered m items)
unfolding update_bytes
update_bytes_lem m items h =
    update_batches_lem m (chunks 32 items) h
    ∙ ap (λ t. some (lowered m t)) (concat-chunks 32 items (omega arith))

-- Two updates of a valid state are one with the items of both.
pub update_bytes-append :
    (m : RMinHash) (xs ys : List (List ℕ))
    → IsValid m
    → (do m' ← update_bytes m xs; update_bytes m' ys) ≡ update_bytes m (xs ++ ys)
update_bytes-append m xs ys h =
    rw (update_bytes_lem m xs h, update_bytes_lem m (xs ++ ys) h)
      (update_bytes_lem (lowered m xs) ys (lowered-IsValid m xs h)
        ∙ ap some (lowered-append m xs ys))

least-le : (p : ℕ × ℕ) (v : ℕ) (hs : List ℕ) → least p v hs ≤ v
least-le p v [] = omega arith
least-le p v (h ∷ hs) = omega (arith, least-le p (min v (permute_hash h p.0 p.1)) hs)

least-le_each :
    (p : ℕ × ℕ) (v : ℕ) (hs : List ℕ) (h : ℕ) → Elem h hs → least p v hs ≤ permute_hash h p.0 p.1
least-le_each p v [] h m = absurd m
least-le_each p v (g ∷ hs) h (inl e) =
    rw e (omega (arith, least-le p (min v (permute_hash g p.0 p.1)) hs))
least-le_each p v (g ∷ hs) h (inr m) = least-le_each p (min v (permute_hash g p.0 p.1)) hs h m

le-least :
    (k : ℕ) (p : ℕ × ℕ) (v : ℕ) (hs : List ℕ)
    → k ≤ v
    → ((h : ℕ) → Elem h hs → k ≤ permute_hash h p.0 p.1)
    → k ≤ least p v hs
le-least k p v [] le all = le
le-least k p v (h ∷ hs) le all =
    le-least k p (min v (permute_hash h p.0 p.1)) hs (omega (arith, all h (inl refl)))
      (λ g m. all g (inr m))

least_mono :
    (p : ℕ × ℕ) (v : ℕ) (gs hs : List ℕ)
    → ((x : ℕ) → Elem x hs → Elem x gs)
    → least p v gs ≤ least p v hs
least_mono p v gs hs f =
    le-least (least p v gs) p v hs (least-le p v gs) (λ h m. least-le_each p v gs h (f h m))

least_each-same :
    (ps : List (ℕ × ℕ)) (vs gs hs : List ℕ)
    → ((x : ℕ) → Elem x gs ↔ Elem x hs)
    → least_each ps vs gs ≡ least_each ps vs hs
least_each-same [] vs gs hs f = refl
least_each-same (p ∷ ps) [] gs hs f = refl
least_each-same (p ∷ ps) (v ∷ vs) gs hs f =
    let same : least p v gs ≡ least p v hs =
      omega (arith, least_mono p v gs hs (λ x. (f x).1), least_mono p v hs gs (λ x. (f x).0)) in
    rw (same, least_each-same ps vs gs hs f) refl

Elem-map :
    {A B : Type 0} (f : A → B) (y : B) (xs : List A)
    → Elem y (map f xs) ↔ ((x : A) × Elem x xs × (y ≡ f x))
Elem-map f y [] = (λ m. absurd m, λ k. absurd k.1)
Elem-map f y (x ∷ xs) = (
  λ m. elim m [
    | inl e ↦ (x, inl refl, e)
    | inr n ↦ let (z, l, e) = (Elem-map f y xs).0 n in (z, inr l, e)
  ],
  λ k. elim k.1 [ inl e ↦ inl (k.2 ∙ ap f e) | inr l ↦ inr ((Elem-map f y xs).1 (k.0, l, k.2)) ],
)

-- On a valid state, the update depends on the set of the items alone, not on their order or on
-- how often they occur.
pub update_bytes-set :
    (m : RMinHash) (xs ys : List (List ℕ))
    → IsValid m
    → ((x : List ℕ) → Elem x xs ↔ Elem x ys)
    → update_bytes m xs ≡ update_bytes m ys
update_bytes-set m xs ys h f =
    update_bytes_lem m xs h
    ∙ ap (λ t. some (record m { hash_values = t }))
        (least_each-same m.permutations m.hash_values _ _ hashes)
    ∙ sym (update_bytes_lem m ys h)
  where
    hashes : (x : ℕ) → Elem x (map calculate_hash_fast xs) ↔ Elem x (map calculate_hash_fast ys)
    hashes x = (
      λ k.
          let (z, l, e) = (Elem-map calculate_hash_fast x xs).0 k in
          (Elem-map calculate_hash_fast x ys).1 (z, (f z).0 l, e),
      λ k.
          let (z, l, e) = (Elem-map calculate_hash_fast x ys).0 k in
          (Elem-map calculate_hash_fast x xs).1 (z, (f z).1 l, e),
    )

length-draws : (draw : ℕ → ℕ → ℕ) (seed count n : ℕ) → length (draws draw seed count n) ≡ count
unfolding draws
length-draws draw seed zero n = refl
length-draws draw seed (suc count) n = ap suc (length-draws draw seed count (n + 2))

length-new_values : (count : ℕ) → length (new_values count) ≡ count
unfolding new_values
length-new_values zero = refl
length-new_values (suc count) = ap suc (length-new_values count)

-- A new state is valid, for every generator, number of permutations and seed.
pub new-IsValid : (draw : ℕ → ℕ → ℕ) (count seed : ℕ) → IsValid (new draw count seed)
unfolding new
new-IsValid draw count seed = record {
  permuted = length-draws draw seed count 0;
  valued = length-new_values count;
}
