-- ===== src/Base/Results.antt =====
-- Results that hold an error or a value.
pub data Result (E A : Type 0) : Type 0 where
  err : E → Result E A
  ok : A → Result E A

infixl 5 ◌>>=◌
abbrev pub ◌>>=◌ : {E A B : Type 0} → Result E A → (A → Result E B) → Result E B
err e >>= f = err e
ok a >>= f = f a
