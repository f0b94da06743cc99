-- ===== src/MinHash/Update.antt =====
-- `RMinHash::update_from_hashes` of src/minhash/mod.rs: its chunks and its remainder together take
-- the minimum at every position.
use incrededup.Base.{
  false, drop-append_at, sizes, ℕ, ◌+◌, ◌*◌, ◌/◌, min, ◌≡◌, refl, sym, ap, ◌∙◌, List, [], ◌∷◌, ◌++◌,
  some, All, arith, length, length-append, drop, take-append_at, chunks_exact, remainder, concat,
  chunks_exact-IsSplit, ltb, Bool-cases, inl, inr,
}
use incrededup.MinHash.{
  RMinHash, permute_hash, min_row, min_rows, update_chunks, slice_from, update_from_hashes,
  perm_chunk_size,
}

-- The minimum of a value and of what a permutation makes of some hashes.
abbrev pub least : ℕ × ℕ → ℕ → List ℕ → ℕ
least p v [] = v
least p v (h ∷ hs) = least p (min v (permute_hash h p.0 p.1)) hs

-- That minimum at every position.
abbrev pub least_each : List (ℕ × ℕ) → List ℕ → List ℕ → List ℕ
least_each [] vs hs = []
least_each (p ∷ ps) [] hs = []
least_each (p ∷ ps) (v ∷ vs) hs = least p v hs ∷ least_each ps vs hs

pub least_each-nil :
    (ps : List (ℕ × ℕ)) (vs : List ℕ) → length ps ≡ length vs → least_each ps vs [] ≡ vs
least_each-nil [] [] e = refl
least_each-nil [] (v ∷ vs) e = absurd (omega arith)
least_each-nil (p ∷ ps) [] e = refl
least_each-nil (p ∷ ps) (v ∷ vs) e = ap (λ t. v ∷ t) (least_each-nil ps vs (omega arith))

pub length-least_each :
    (ps : List (ℕ × ℕ)) (vs hs : List ℕ)
    → length ps ≡ length vs
    → length (least_each ps vs hs) ≡ length ps
length-least_each [] vs hs e = refl
length-least_each (p ∷ ps) [] hs e = sym e
length-least_each (p ∷ ps) (v ∷ vs) hs e = omega (arith, length-least_each ps vs hs)

pub least-append :
    (p : ℕ × ℕ) (v : ℕ) (gs hs : List ℕ) → least p v (gs ++ hs) ≡ least p (least p v gs) hs
least-append p v [] hs = refl
least-append p v (g ∷ gs) hs = least-append p (min v (permute_hash g p.0 p.1)) gs hs

-- Two batches are one.
pub least_each-batches :
    (ps : List (ℕ × ℕ)) (vs gs hs : List ℕ)
    → least_each ps (least_each ps vs gs) hs ≡ least_each ps vs (gs ++ hs)
least_each-batches [] vs gs hs = refl
least_each-batches (p ∷ ps) [] gs hs = refl
least_each-batches (p ∷ ps) (v ∷ vs) gs hs =
    rw (least-append p v gs hs, least_each-batches ps vs gs hs) refl

least_each-append :
    (ps qs : List (ℕ × ℕ)) (vs ws hs : List ℕ)
    → length ps ≡ length vs
    → least_each (ps ++ qs) (vs ++ ws) hs ≡ least_each ps vs hs ++ least_each qs ws hs
least_each-append [] qs [] ws hs e = refl
least_each-append [] qs (v ∷ vs) ws hs e = absurd (omega arith)
least_each-append (p ∷ ps) qs [] ws hs e = absurd (omega arith)
least_each-append (p ∷ ps) qs (v ∷ vs) ws hs e =
    ap (λ t. least p v hs ∷ t) (least_each-append ps qs vs ws hs (omega arith))

min_row_lem :
    (ps : List (ℕ × ℕ)) (vs : List ℕ) (h : ℕ)
    → length ps ≡ length vs
    → min_row ps vs h ≡ some (least_each ps vs (h ∷ []))
unfolding min_row
min_row_lem [] [] h e = refl
min_row_lem [] (v ∷ vs) h e = absurd (omega arith)
min_row_lem (p ∷ ps) [] h e = absurd (omega arith)
min_row_lem (p ∷ ps) (v ∷ vs) h e = rw (min_row_lem ps vs h (omega arith)) refl

min_rows_lem :
    (ps : List (ℕ × ℕ)) (vs hs : List ℕ)
    → length ps ≡ length vs
    → min_rows ps vs hs ≡ some (least_each ps vs hs)
unfolding min_rows
min_rows_lem ps vs [] e = rw (least_each-nil ps vs e) refl
min_rows_lem ps vs (h ∷ hs) e = rw (min_row_lem ps vs h e) (
    min_rows_lem ps (least_each ps vs (h ∷ [])) hs
      (omega (arith, length-least_each ps vs (h ∷ []) e))
    ∙ ap some (least_each-batches ps vs (h ∷ []) hs))

update_chunks_lem :
    (pss : List (List (ℕ × ℕ))) (hss : List (List ℕ)) (hs : List ℕ)
    → length pss ≡ length hss
    → All (λ c. length c ≡ perm_chunk_size) pss
    → All (λ c. length c ≡ perm_chunk_size) hss
    → update_chunks pss hss hs ≡ some (least_each (concat pss) (concat hss) hs)
unfolding update_chunks concat
update_chunks_lem [] [] hs e h k = refl
update_chunks_lem [] (v ∷ vs) hs e h k = absurd (omega arith)
update_chunks_lem (p ∷ ps) [] hs e h k = absurd (omega arith)
update_chunks_lem (p ∷ ps) (v ∷ vs) hs e h k =
    rw (min_rows_lem p v hs (h.0 ∙ sym k.0), update_chunks_lem ps vs hs (omega arith) h.1 k.1)
      (ap some (sym (least_each-append p (concat ps) v (concat vs) hs (h.0 ∙ sym k.0))))

-- Lists of one length split into as many chunks, of as many elements.
same_chunks :
    {A B : Type 0} (xs : List A) (ys : List B)
    → length xs ≡ length ys
    → (length (chunks_exact perm_chunk_size xs) ≡ length (chunks_exact perm_chunk_size ys))
      × (length (concat (chunks_exact perm_chunk_size xs))
          ≡ length xs / perm_chunk_size * perm_chunk_size)
      × (length (concat (chunks_exact perm_chunk_size ys))
          ≡ length xs / perm_chunk_size * perm_chunk_size)
same_chunks xs ys e =
    let s = sizes perm_chunk_size xs (omega arith) in
    let t = sizes perm_chunk_size ys (omega arith) in (omega arith, omega arith, omega arith)

least_each-none : (ps : List (ℕ × ℕ)) (vs hs : List ℕ) → length vs ≡ 0 → least_each ps vs hs ≡ vs
least_each-none [] [] hs e = refl
least_each-none (p ∷ ps) [] hs e = refl
least_each-none ps (v ∷ vs) hs e = absurd (omega arith)

-- The state that `new` makes and every update keeps: a value for each permutation.
pub record IsValid (m : RMinHash) : Type 0 where
  pub permuted : length m.permutations ≡ m.num_perm
  pub valued : length m.hash_values ≡ m.num_perm

-- On a valid state no index is out of range, and every value becomes the minimum of itself and of
-- what its permutation makes of the hashes of the batch.
pub update_from_hashes_lem :
    (m : RMinHash) (hs : List ℕ)
    → IsValid m
    → update_from_hashes m hs
      ≡ some (record m { hash_values = least_each m.permutations m.hash_values hs })
unfolding update_from_hashes slice_from
update_from_hashes_lem m hs h =
    let n : ℕ = perm_chunk_size in
    let start : ℕ = m.num_perm / n * n in
    let cp = concat (chunks_exact n m.permutations) in
    let rp = remainder n m.permutations in
    let cv = concat (chunks_exact n m.hash_values) in
    let rv = remainder n m.hash_values in
    let sp = chunks_exact-IsSplit n m.permutations (omega arith) in
    let sv = chunks_exact-IsSplit n m.hash_values (omega arith) in
    let (count, long_p, long_v) =
      same_chunks m.permutations m.hash_values (h.permuted ∙ sym h.valued) in
    let at : length cp ≡ start = long_p ∙ ap (λ k. k / n * n) h.permuted in
    let same : length cp ≡ length cv = long_p ∙ sym long_v in
    let new_values = least_each cp cv hs in
    let new_at : length new_values ≡ start = length-least_each cp cv hs same ∙ at in
    let drop_p : drop start m.permutations ≡ rp =
      ap (drop start) (sym sp.whole) ∙ drop-append_at start cp rp at in
    let lp : length m.permutations ≡ length cp + length rp =
      ap length (sym sp.whole) ∙ length-append cp rp in
    let lv : length m.hash_values ≡ length cv + length rv =
      ap length (sym sv.whole) ∙ length-append cv rv in
    let ls = length-append new_values rv in
    let in_p : ltb (length m.permutations) start ≡ false = ground arith in
    let in_v : ltb (length (new_values ++ rv)) start ≡ false = ground arith in
    let run =
      update_chunks_lem (chunks_exact n m.permutations) (chunks_exact n m.hash_values) hs count
        sp.full sv.full in
    let last = min_rows_lem rp rv hs (omega (arith, h.permuted, h.valued)) in
    let total : new_values ++ least_each rp rv hs ≡ least_each m.permutations m.hash_values hs =
      sym (least_each-append cp rp cv rv hs same)
      ∙ ap (λ ps. least_each ps (cv ++ rv) hs) sp.whole
      ∙ ap (λ vs. least_each m.permutations vs hs) sv.whole in
    elim (Bool-cases (ltb start m.num_perm)) [
      | inl more ↦
          rw
            (
              run,
              more,
              in_p,
              drop_p,
              in_v,
              drop-append_at start new_values rv new_at,
              last,
              take-append_at start new_values rv new_at,
              total,
            )
            refl
      | inr none_left ↦
          let no_rest : length rv ≡ 0 = ground (arith, h.valued) in
          rw (run, none_left)
            (ap (λ t. some (record m { hash_values = t }))
              (ap (λ t. new_values ++ t) (sym (least_each-none rp rv hs no_rest)) ∙ total))
    ]
