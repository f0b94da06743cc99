-- ===== src/Tests/Values.antt =====
-- Concrete instances of the interfaces: association lists for tables, and a type of two floats.
use incrededup.Base.{
  ℕ, ◌+◌, ◌≡◌, ◌<◌, ◌^◌, ◌==◌, Bool, true, false, ◌&&◌, not, refl, arith, ℕ_discrete, leb,
}
use incrededup.Match.{Float, MatchRecord}
use incrededup.MinHash.{Hasher}
use incrededup.Table.{Table}
use incrededup.Table.Assoc.{assoc}

abbrev pub ids : Table ℕ ℕ
ids = assoc ℕ_discrete

pub to_bit : Bool → ℕ
to_bit true = 1
to_bit false = 0

pub from_bit-to_bit : (a : Bool) → to_bit a == 1 ≡ a
unfolding to_bit
from_bit-to_bit true = refl
from_bit-to_bit false = refl

pub to_bit-lt : (a : Bool) → to_bit a < 2 ^ 64
unfolding to_bit
to_bit-lt a = ground arith

abbrev pub same : Bool → Bool → Bool
same true b = b
same false b = not b

pub above_irrefl : (a : Bool) → a && not a ≡ false
above_irrefl a = ground arith

pub above_trans : (a b c : Bool) → a && not b ≡ true → b && not c ≡ true → a && not c ≡ true
above_trans a b c = ground arith

pub above-same : (a b c : Bool) → a && not b ≡ true → same b c ≡ true → a && not c ≡ true
above-same a b c = ground arith

pub same-above : (a b c : Bool) → same a b ≡ true → b && not c ≡ true → a && not c ≡ true
same-above a b c = ground arith

pub same_trans : (a b c : Bool) → same a b ≡ true → same b c ≡ true → same a c ≡ true
same_trans a b c = ground arith

-- Two floats: `true` is the greater.
abbrev pub bits : Float
bits = record {
  F64 = Bool;
  gt = λ a b. a && not b;
  eq = same;
  to_bits = to_bit;
  from_bits = λ n. n == 1;
  ratio = λ a b. leb b a;
  gt_irrefl = above_irrefl;
  gt_trans = above_trans;
  gt-eq = above-same;
  eq-gt = same-above;
  eq_trans = same_trans;
  from_bits-to_bits = from_bit-to_bit;
  to_bits-lt = to_bit-lt;
}

abbrev pub edge : ℕ → ℕ → Bool → MatchRecord bits
edge child parent jaccard = record {
  child_id = child;
  parent_id = parent;
  jaccard_similarity = jaccard;
  size_difference = child;
  size_difference_pct = false;
}

-- A generator that counts, and a hasher that adds.
abbrev pub draw : ℕ → ℕ → ℕ
draw seed n = seed + n

abbrev pub adder : Hasher
adder = record {
  State = ℕ;
  initial = 0;
  write_u64 = λ s v. s + v;
  write_u32 = λ s v. s + v;
  finish = λ s. s;
}
