-- ===== src/Dedupe/Run.antt =====
-- The effects of the sync in src/dedupe/mod.rs: a state that a step changes, an error that ends the
-- run, and fuel, of which `none` is the lack.
use incrededup.Base.{Option, none, some, List, [], ◌∷◌, Result, err, ok}

abbrev pub Run : Type 0 → Type 0 → Type 0 → Type 0
Run S E A = S → Option (S × Result E A)

module _ {S E : Type 0} where
  abbrev pub and_then :
      {A B : Type 0} → (A → Run S E B) → Option (S × Result E A) → Option (S × Result E B)
  and_then f none = none
  and_then f (some (s, err e)) = some (s, err e)
  and_then f (some (s, ok a)) = f a s

  infixl 5 ◌>>=◌
  abbrev pub ◌>>=◌ : {A B : Type 0} → Run S E A → (A → Run S E B) → Run S E B
  (m >>= f) s = and_then f (m s)

  -- `for x in xs { body(x)?; }`
  unfoldable pub for_each : {A : Type 0} → List A → (A → Run S E Unit) → Run S E Unit
  for_each [] body s = some (s, ok tt)
  for_each (x ∷ xs) body s = (do u ← body x; for_each xs body) s
