-- ===== src/Storage/Codec.antt =====
-- The bytes of keys and values in src/storage/mod.rs: what is written is read back.
use incrededup.Base.{
  append_nil, drop-drop, ℕ, ◌+◌, ◌^◌, ◌<◌, ◌≡◌, refl, sym, ap, ◌∙◌, false, [], ◌++◌, arith, length,
  length-append, take, drop, take-append_at, drop-append_at, ok, le_bytes, length-le_bytes,
  length-be_bytes, le_value-le_bytes, be_value-be_bytes, ltb,
}
use incrededup.Match.{Float, MatchRecord}
use incrededup.UnionFind.{Uuid}
use incrededup.Storage.{
  Bytes, as_bytes, from_slice, part, match_key, child_id_from_match_key, adjacency_key, f64_bytes,
  f64_from, serialize_record, deserialize_record,
}

-- The ids have 128 bits, and the difference of the sizes is a 32-bit pattern.
pub record Fits (F : Float) (r : MatchRecord F) : Type 0 where
  pub child : r.child_id < 2 ^ 128
  pub parent : r.parent_id < 2 ^ 128
  pub difference : r.size_difference < 2 ^ 32

pub from_slice-as_bytes : (id : Uuid) → id < 2 ^ 128 → from_slice (as_bytes id) ≡ id
from_slice-as_bytes id h = be_value-be_bytes 16 id (omega arith)

-- The part of a concatenation behind its first list, and the part that is a list in the middle.
pub part-append :
    (start count n : ℕ) (xs ys : Bytes)
    → length xs ≡ n
    → part (n + start) count (xs ++ ys) ≡ part start count ys
part-append start count n xs ys e =
    ap (take count)
      (sym (drop-drop n start (xs ++ ys)) ∙ ap (drop start) (drop-append_at n xs ys e))

pub part_first : (n : ℕ) (xs ys : Bytes) → length xs ≡ n → part 0 n (xs ++ ys) ≡ xs
part_first n xs ys e = take-append_at n xs ys e

pub part_whole : (n : ℕ) (xs : Bytes) → length xs ≡ n → part 0 n xs ≡ xs
part_whole n xs e = ap (take n) (sym (append_nil xs)) ∙ take-append_at n xs [] e

length-match_key : (c p : Uuid) → length (match_key c p) ≡ 32
unfolding match_key
length-match_key c p =
    omega
      (arith, length-append (as_bytes c) (as_bytes p), length-be_bytes 16 c, length-be_bytes 16 p)

-- The child is read back from the key of an edge.
pub child_id-match_key : (c p : Uuid) → c < 2 ^ 128 → child_id_from_match_key (match_key c p) ≡ ok c
unfolding child_id_from_match_key
child_id-match_key c p h =
    let e = length-match_key c p in
    let first : part 0 16 (match_key c p) ≡ as_bytes c =
      unfold match_key in part_first 16 (as_bytes c) (as_bytes p) (length-be_bytes 16 c) in
    rw (e, first) (ap ok (from_slice-as_bytes c h))

-- Distinct edges have distinct keys.
pub match_key_inj :
    (c p d q : Uuid)
    → c < 2 ^ 128
    → p < 2 ^ 128
    → d < 2 ^ 128
    → q < 2 ^ 128
    → match_key c p ≡ match_key d q
    → (c ≡ d) × (p ≡ q)
unfolding match_key
match_key_inj c p d q hc hp hd hq e =
    let first : as_bytes c ≡ as_bytes d =
      sym (part_first 16 (as_bytes c) (as_bytes p) (length-be_bytes 16 c))
      ∙ ap (part 0 16) e
      ∙ part_first 16 (as_bytes d) (as_bytes q) (length-be_bytes 16 d) in
    let second : as_bytes p ≡ as_bytes q =
      sym (drop-append_at 16 (as_bytes c) (as_bytes p) (length-be_bytes 16 c))
      ∙ ap (drop 16) e
      ∙ drop-append_at 16 (as_bytes d) (as_bytes q) (length-be_bytes 16 d) in
    (
      sym (from_slice-as_bytes c hc) ∙ ap from_slice first ∙ from_slice-as_bytes d hd,
      sym (from_slice-as_bytes p hp) ∙ ap from_slice second ∙ from_slice-as_bytes q hq,
    )

module _ (F : Float) where
  pub f64_from-f64_bytes : (x : F.F64) → f64_from F (f64_bytes F x) ≡ x
  f64_from-f64_bytes x =
      ap F.from_bits (le_value-le_bytes 8 (F.to_bits x) (omega (arith, F.to_bits-lt x)))
      ∙ F.from_bits-to_bits x

  -- What is stored for an edge is read back as the edge.
  pub deserialize_record-serialize_record :
      (r : MatchRecord F) → Fits F r → deserialize_record F r.child_id (serialize_record F r) ≡ ok r
  unfolding deserialize_record serialize_record
  deserialize_record-serialize_record r h =
      let a = as_bytes r.parent_id in
      let b = f64_bytes F r.jaccard_similarity in
      let c = le_bytes 4 r.size_difference in
      let d = f64_bytes F r.size_difference_pct in
      let la = length-be_bytes 16 r.parent_id in
      let lb = length-le_bytes 8 (F.to_bits r.jaccard_similarity) in
      let lc = length-le_bytes 4 r.size_difference in
      let ld = length-le_bytes 8 (F.to_bits r.size_difference_pct) in
      let l1 = length-append a (b ++ (c ++ d)) in
      let l2 = length-append b (c ++ d) in
      let l3 = length-append c d in
      let long : ltb (length (a ++ (b ++ (c ++ d)))) 36 ≡ false = ground arith in
      let pa = part_first 16 a (b ++ (c ++ d)) la in
      let pb : part 16 8 (a ++ (b ++ (c ++ d))) ≡ b =
        part-append 0 8 16 a (b ++ (c ++ d)) la ∙ part_first 8 b (c ++ d) lb in
      let pc : part 24 4 (a ++ (b ++ (c ++ d))) ≡ c =
        part-append 8 4 16 a (b ++ (c ++ d)) la
        ∙ part-append 0 4 8 b (c ++ d) lb
        ∙ part_first 4 c d lc in
      let pd : part 28 8 (a ++ (b ++ (c ++ d))) ≡ d =
        part-append 12 8 16 a (b ++ (c ++ d)) la
        ∙ part-append 4 8 8 b (c ++ d) lb
        ∙ part-append 0 8 4 c d lc
        ∙ part_whole 8 d ld in
      rw
        (
          long,
          pa,
          pb,
          pc,
          pd,
          from_slice-as_bytes r.parent_id h.parent,
          f64_from-f64_bytes r.jaccard_similarity,
          le_value-le_bytes 4 r.size_difference (omega (arith, h.difference)),
          f64_from-f64_bytes r.size_difference_pct,
        )
        refl

  -- The similarity that `insert_batch` compares with is that of the edge in the table.
  pub similarity-serialize_record :
      (r : MatchRecord F)
      → (f64_from F (part 16 8 (serialize_record F r)) ≡ r.jaccard_similarity)
        × (length (serialize_record F r) ≡ 36)
  unfolding serialize_record
  similarity-serialize_record r =
      let a = as_bytes r.parent_id in
      let b = f64_bytes F r.jaccard_similarity in
      let c = le_bytes 4 r.size_difference in
      let d = f64_bytes F r.size_difference_pct in
      let la = length-be_bytes 16 r.parent_id in
      let lb = length-le_bytes 8 (F.to_bits r.jaccard_similarity) in
      let lc = length-le_bytes 4 r.size_difference in
      let ld = length-le_bytes 8 (F.to_bits r.size_difference_pct) in
      let l1 = length-append a (b ++ (c ++ d)) in
      let l2 = length-append b (c ++ d) in
      let l3 = length-append c d in
      let pb : part 16 8 (a ++ (b ++ (c ++ d))) ≡ b =
        part-append 0 8 16 a (b ++ (c ++ d)) la ∙ part_first 8 b (c ++ d) lb in
      (ap (f64_from F) pb ∙ f64_from-f64_bytes r.jaccard_similarity, omega arith)

-- Distinct entries of the index have distinct keys.
pub adjacency_key_inj :
    (n c p m d q : Uuid)
    → n < 2 ^ 128
    → c < 2 ^ 128
    → p < 2 ^ 128
    → m < 2 ^ 128
    → d < 2 ^ 128
    → q < 2 ^ 128
    → adjacency_key n c p ≡ adjacency_key m d q
    → (n ≡ m) × (c ≡ d) × (p ≡ q)
unfolding adjacency_key
adjacency_key_inj n c p m d q hn hc hp hm hd hq e =
    let first : as_bytes n ≡ as_bytes m =
      sym (part_first 16 (as_bytes n) (as_bytes c ++ as_bytes p) (length-be_bytes 16 n))
      ∙ ap (part 0 16) e
      ∙ part_first 16 (as_bytes m) (as_bytes d ++ as_bytes q) (length-be_bytes 16 m) in
    let rest : as_bytes c ++ as_bytes p ≡ as_bytes d ++ as_bytes q =
      sym (drop-append_at 16 (as_bytes n) (as_bytes c ++ as_bytes p) (length-be_bytes 16 n))
      ∙ ap (drop 16) e
      ∙ drop-append_at 16 (as_bytes m) (as_bytes d ++ as_bytes q) (length-be_bytes 16 m) in
    let (same_c, same_p) = match_key_inj c p d q hc hp hd hq (unfold match_key in rest) in
    (
      sym (from_slice-as_bytes n hn) ∙ ap from_slice first ∙ from_slice-as_bytes m hm,
      same_c,
      same_p,
    )
