-- ===== src/Tokenizer/Normalize.antt =====
-- `normalize_content` of src/tokenizer.rs: the form of its result.
use incrededup.Base.{
  ℕ, ◌≡◌, ◌⊎◌, inl, inr, refl, ap, ◌∙◌, Bool, true, false, List, [], ◌∷◌, map, concat, arith,
  if◌then◌else◌, ==-cases,
}
use incrededup.Tokenizer.{normalize_chars, normalize_content, trim_end, space}

module _ (lower : ℕ → List ℕ) (alnum : ℕ → Bool) where
  -- Alphanumeric characters and single spaces, none where `last` says that one stands before.
  abbrev Shape : Bool → List ℕ → Type 0
  Shape last [] = Unit
  Shape last (c ∷ cs) =
      (alnum c ≡ true) × Shape false cs ⊎ (last ≡ false) × (c ≡ space) × Shape true cs

  -- The same with no space at the end.
  abbrev pub Normal : Bool → List ℕ → Type 0
  Normal last [] = last ≡ false
  Normal last (c ∷ cs) =
      (alnum c ≡ true) × Normal false cs ⊎ (last ≡ false) × (c ≡ space) × Normal true cs

  -- The alphanumeric characters.
  abbrev pub letters : List ℕ → List ℕ
  letters [] = []
  letters (c ∷ cs) = if alnum c then c ∷ letters cs else letters cs

  normalize_chars-Shape :
      (chs : List ℕ) (last : Bool) → Shape last (normalize_chars lower alnum chs last)
  unfolding normalize_chars
  normalize_chars-Shape [] last = tt
  normalize_chars-Shape (c ∷ cs) last =
      let word = normalize_chars-Shape cs false in
      let after = normalize_chars-Shape cs true in ground (arith, word, after)

  letters-normalize_chars :
      (chs : List ℕ) (last : Bool)
      → alnum space ≡ false
      → letters (normalize_chars lower alnum chs last) ≡ letters chs
  unfolding normalize_chars
  letters-normalize_chars [] last h = refl
  letters-normalize_chars (c ∷ cs) last h =
      let word = letters-normalize_chars cs false h in
      let after = letters-normalize_chars cs true h in ground (arith, word, after, h)

  trim_end-Normal :
      (c : ℕ) (cs : List ℕ) (last : Bool)
      → alnum space ≡ false
      → Shape last (c ∷ cs)
      → Normal last (trim_end (c ∷ cs))
  unfolding trim_end
  trim_end-Normal c [] last h s = ground (arith, h, s)
  trim_end-Normal c (d ∷ cs) last h (inl s) = inl (s.0, trim_end-Normal d cs false h s.1)
  trim_end-Normal c (d ∷ cs) last h (inr s) = inr (s.0, s.1, trim_end-Normal d cs true h s.2)

  letters-trim_end : (cs : List ℕ) → alnum space ≡ false → letters (trim_end cs) ≡ letters cs
  unfolding trim_end
  letters-trim_end [] h = refl
  letters-trim_end (c ∷ []) h = elim (==-cases c space) [
    | inl (t, e) ↦ let none_here : alnum c ≡ false = ap alnum e ∙ h in rw (t, none_here) refl
    | inr (t, n) ↦ rw t refl
  ]
  letters-trim_end (c ∷ d ∷ cs) h = rw (letters-trim_end (d ∷ cs) h) refl

  -- Where the space is not alphanumeric, the normalized content is empty or consists of
  -- alphanumeric characters and single spaces between them, none at either end, and it has the
  -- alphanumeric characters of the lowercase content, all of them and in their order.
  pub normalize_content-Normal :
      (content : List ℕ)
      → alnum space ≡ false
      → ((normalize_content lower alnum content ≡ [])
          ⊎ Normal true (normalize_content lower alnum content))
        × (letters (normalize_content lower alnum content) ≡ letters (concat (map lower content)))
  unfolding normalize_content
  normalize_content-Normal content h =
      let chs = concat (map lower content) in
      (
        form (normalize_chars lower alnum chs true) (normalize_chars-Shape chs true),
        letters-trim_end (normalize_chars lower alnum chs true) h
            ∙ letters-normalize_chars chs true h,
      )
    where
      form : (cs : List ℕ) → Shape true cs → (trim_end cs ≡ []) ⊎ Normal true (trim_end cs)
      form [] s = inl (unfold trim_end in refl)
      form (c ∷ cs) s = inr (trim_end-Normal c cs true h s)
