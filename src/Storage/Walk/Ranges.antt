-- ===== src/Storage/Walk/Ranges.antt =====
-- The range of a node in the adjacency index: exactly the entries whose key starts with the node.
use incrededup.Base.{
  Elem-filter, ℕ, zero, suc, ◌%◌, ◌/◌, ◌<◌, ◌^◌, ◌≡◌, ◌↔◌, refl, sym, ap, ◌∙◌, subst, Bool, true,
  ◌&&◌, List, [], ◌∷◌, ◌++◌, arith, Elem, All, All-append, length, length-append, be_bytes,
  length-be_bytes,
}
use incrededup.UnionFind.{Uuid}
use incrededup.Storage.{from_slice, Bytes, as_bytes, adjacency_key}
use incrededup.Storage.Codec.{from_slice-as_bytes}
use incrededup.Storage.Walk.{bytes_leb, repeat, node_range}

-- Slices between two that share a prefix share it too.
bytes_leb-prefix :
    (p q a b c : Bytes)
    → length p ≡ length q
    → bytes_leb (p ++ a) (q ++ b) ≡ true
    → bytes_leb (q ++ b) (p ++ c) ≡ true
    → p ≡ q
unfolding bytes_leb
bytes_leb-prefix [] [] a b c e h k = refl
bytes_leb-prefix [] (y ∷ q) a b c e h k = absurd (omega arith)
bytes_leb-prefix (x ∷ p) [] a b c e h k = absurd (omega arith)
bytes_leb-prefix (x ∷ p) (y ∷ q) a b c e h k =
    let same : x ≡ y = ground arith in
    let first : bytes_leb (p ++ a) (q ++ b) ≡ true = ground arith in
    let second : bytes_leb (q ++ b) (p ++ c) ≡ true = ground arith in
    rw (same, bytes_leb-prefix p q a b c (omega arith) first second) refl

bytes_leb-same : (p a b : Bytes) → bytes_leb a b ≡ true → bytes_leb (p ++ a) (p ++ b) ≡ true
unfolding bytes_leb
bytes_leb-same [] a b h = h
bytes_leb-same (x ∷ p) a b h = ground (arith, bytes_leb-same p a b h)

least-bytes : (n : ℕ) (b : Bytes) → length b ≡ n → bytes_leb (repeat n 0) b ≡ true
unfolding bytes_leb repeat
least-bytes zero b e = refl
least-bytes (suc n) [] e = absurd (omega arith)
least-bytes (suc n) (x ∷ b) e = ground (arith, least-bytes n b (omega arith))

greatest-bytes :
    (n : ℕ) (b : Bytes) → length b ≡ n → All (λ x. x < 256) b → bytes_leb b (repeat n 255) ≡ true
unfolding bytes_leb repeat
greatest-bytes zero [] e h = refl
greatest-bytes zero (x ∷ b) e h = absurd (omega arith)
greatest-bytes (suc n) [] e h = refl
greatest-bytes (suc n) (x ∷ b) e h = ground (arith, h.0, greatest-bytes n b (omega arith) h.1)

be_bytes-All : (n x : ℕ) → All (λ b. b < 256) (be_bytes n x)
unfolding be_bytes
be_bytes-All zero x = tt
be_bytes-All (suc n) x =
    All-append (λ b. b < 256) (be_bytes n (x / 256)) (x % 256 ∷ []) (be_bytes-All n (x / 256))
      (omega arith, tt)

abbrev between : Uuid → Bytes × Bytes → Bool
between node e =
    bytes_leb (as_bytes node ++ repeat 32 0) e.0 && bytes_leb e.0 (as_bytes node ++ repeat 32 255)

-- An entry of the index is in the range of a node exactly when it is an entry of the node.
pub Elem-node_range :
    (node n c p : Uuid) (value : Bytes) (es : List (Bytes × Bytes))
    → node < 2 ^ 128
    → n < 2 ^ 128
    → Elem (adjacency_key n c p, value) (node_range node es)
      ↔ (Elem (adjacency_key n c p, value) es × (n ≡ node))
unfolding node_range adjacency_key
Elem-node_range node n c p value es hn hm = (
  λ m.
      let (k, t) = (Elem-filter (between node) (adjacency_key n c p, value) es).0 m in
      let rest = as_bytes c ++ as_bytes p in
      let lo = as_bytes node ++ repeat 32 0 in
      let hi = as_bytes node ++ repeat 32 255 in
      let a : bytes_leb lo (as_bytes n ++ rest) ≡ true = ground arith in
      let b : bytes_leb (as_bytes n ++ rest) hi ≡ true = ground arith in
      let same =
        bytes_leb-prefix (as_bytes node) (as_bytes n) (repeat 32 0) rest (repeat 32 255)
          (length-be_bytes 16 node ∙ sym (length-be_bytes 16 n)) a b in
      (k, sym (from_slice-as_bytes n hm) ∙ ap from_slice (sym same) ∙ from_slice-as_bytes node hn),
  λ k.
      let rest = as_bytes c ++ as_bytes p in
      let size : length rest ≡ 32 = omega (
        arith,
        length-append (as_bytes c) (as_bytes p),
        length-be_bytes 16 c,
        length-be_bytes 16 p,
      ) in
      let small =
        All-append (λ b. b < 256) (as_bytes c) (as_bytes p) (be_bytes-All 16 c)
          (be_bytes-All 16 p) in
      let low = bytes_leb-same (as_bytes node) (repeat 32 0) rest (least-bytes 32 rest size) in
      let high =
        bytes_leb-same (as_bytes node) rest (repeat 32 255) (greatest-bytes 32 rest size small) in
      (Elem-filter (between node) (adjacency_key n c p, value) es).1 (
        k.0,
        subst (λ x. between node (as_bytes x ++ rest, value) ≡ true) (sym k.1)
            (rw (low, high) refl),
      ),
)

pub node_range-entry :
    (node : Uuid) (e : Bytes × Bytes) (es : List (Bytes × Bytes))
    → Elem e (node_range node es)
    → Elem e es
unfolding node_range
node_range-entry node e es k = ((Elem-filter (between node) e es).0 k).0
