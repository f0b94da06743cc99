-- ===== src/Match.antt =====
-- The raw duplicate edge: `MatchRecord` of src/storage/mod.rs, and of src/disk_dedupe.rs, which
-- has the same fields, and `DupeMatch` of src/db/mod.rs. The type `f64` and its operations are an
-- interface. An `i32` is its 32-bit pattern.
use incrededup.Base.{ℕ, Bool, false, true, ◌≡◌, ◌<◌, ◌^◌, ◌==◌}
use incrededup.UnionFind.{Uuid}

-- `f64`: `a > b`, `a == b`, the bits of a value, and the quotient of two counts. The laws hold for
-- every value, NaN included, of which both tests are false.
pub record Float : Type 1 where
  pub F64 : Type 0
  pub gt : F64 → F64 → Bool
  pub eq : F64 → F64 → Bool
  pub to_bits : F64 → ℕ
  pub from_bits : ℕ → F64
  pub ratio : ℕ → ℕ → F64
  pub gt_irrefl : (a : F64) → gt a a ≡ false
  pub gt_trans : (a b c : F64) → gt a b ≡ true → gt b c ≡ true → gt a c ≡ true
  pub gt-eq : (a b c : F64) → gt a b ≡ true → eq b c ≡ true → gt a c ≡ true
  pub eq-gt : (a b c : F64) → eq a b ≡ true → gt b c ≡ true → gt a c ≡ true
  pub eq_trans : (a b c : F64) → eq a b ≡ true → eq b c ≡ true → eq a c ≡ true
  pub from_bits-to_bits : (a : F64) → from_bits (to_bits a) ≡ a
  pub to_bits-lt : (a : F64) → to_bits a < 2 ^ 64

module _ (F : Float) where
  pub record MatchRecord : Type 0 where
    pub child_id : Uuid
    pub parent_id : Uuid
    pub jaccard_similarity : F.F64
    pub size_difference : ℕ
    pub size_difference_pct : F.F64

  pub record DupeMatch : Type 0 where
    pub child_id : Uuid
    pub parent_id : Uuid
    pub jaccard_similarity : F.F64
    pub size_difference : ℕ
    pub size_difference_pct : F.F64

  -- A record whose two ends are one document.
  abbrev pub is_self : MatchRecord → Bool
  is_self m = m.child_id == m.parent_id
