-- ===== src/Base/Bytes.antt =====
-- Numbers as bytes: `to_le_bytes` and `from_le_bytes` of a machine word, and the bytes of a
-- `Uuid`, the most significant first. A byte is a number below 256.
use Prim.Native.Nat.{ℕ, zero, suc, ◌+◌, ◌*◌, ◌/◌, ◌%◌, ◌^◌, ◌<◌}
use mathlib.Core.Path.{◌≡◌, refl, ap}
use mathlib.Core.List.{List, [], ◌∷◌, ◌++◌}
use native.Mathlib.Numerals.{unary_clauses}
use native.Mathlib.Omega.{arith}
use incrededup.Base.Lists.{length, length-append}

-- The low `n` bytes, the least significant first.
unfoldable pub le_bytes : ℕ → ℕ → List ℕ
le_bytes zero x = []
le_bytes (suc n) x = x % 256 ∷ le_bytes n (x / 256)

unfoldable pub le_value : List ℕ → ℕ
le_value [] = 0
le_value (b ∷ bs) = b + 256 * le_value bs

-- The low `n` bytes, the most significant first.
unfoldable pub be_bytes : ℕ → ℕ → List ℕ
be_bytes zero x = []
be_bytes (suc n) x = be_bytes n (x / 256) ++ x % 256 ∷ []

be_value_from : ℕ → List ℕ → ℕ
be_value_from acc [] = acc
be_value_from acc (b ∷ bs) = be_value_from (acc * 256 + b) bs

unfoldable pub be_value : List ℕ → ℕ
unfolding be_value_from
be_value bs = be_value_from 0 bs

pub length-le_bytes : (n x : ℕ) → length (le_bytes n x) ≡ n
unfolding le_bytes
length-le_bytes zero x = refl
length-le_bytes (suc n) x = ap suc (length-le_bytes n (x / 256))

pub length-be_bytes : (n x : ℕ) → length (be_bytes n x) ≡ n
unfolding be_bytes
length-be_bytes zero x = refl
length-be_bytes (suc n) x =
    omega (arith, length-append (be_bytes n (x / 256)) (x % 256 ∷ []), length-be_bytes n (x / 256))

smaller : (n x : ℕ) → x < 256 ^ suc n → x / 256 < 256 ^ n
smaller n x h =
    let e : 256 ^ suc n ≡ 256 * 256 ^ n = simp unary_clauses (omega arith) in omega arith

pub le_value-le_bytes : (n x : ℕ) → x < 256 ^ n → le_value (le_bytes n x) ≡ x
unfolding le_bytes le_value
le_value-le_bytes zero x h = omega arith
le_value-le_bytes (suc n) x h = omega (arith, le_value-le_bytes n (x / 256) (smaller n x h))

be_value_from-append :
    (bs : List ℕ) (acc b : ℕ) → be_value_from acc (bs ++ b ∷ []) ≡ be_value_from acc bs * 256 + b
unfolding be_value_from
be_value_from-append [] acc b = refl
be_value_from-append (c ∷ bs) acc b = be_value_from-append bs (acc * 256 + c) b

pub be_value-be_bytes : (n x : ℕ) → x < 256 ^ n → be_value (be_bytes n x) ≡ x
unfolding be_bytes be_value be_value_from
be_value-be_bytes zero x h = omega arith
be_value-be_bytes (suc n) x h = omega (
  arith,
  be_value_from-append (be_bytes n (x / 256)) 0 (x % 256),
  be_value-be_bytes n (x / 256) (smaller n x h),
)
