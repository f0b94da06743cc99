-- ===== src/Tests/Tokenizer.antt =====
-- The tokenizer at concrete inputs.
use incrededup.Base.{
  true, ℕ, ◌⊎◌, sym, ◌∙◌, ◌≡◌, ◌≢◌, refl, Bool, not, ◌==◌, some, List, [], ◌∷◌, map, concat, arith,
}
use incrededup.Tests.Values.{draw}
use incrededup.MinHash.{new, num_perm}
use incrededup.MinHash.Signature.{lowered}
use incrededup.Tokenizer.{
  normalize_content, normalize_chars, trim_end, as_bytes, tokenize_with_ngram_width,
  compute_signature_with_ngram_width, space,
}
use incrededup.Tokenizer.Normalize.{Normal, letters, normalize_content-Normal}
use incrededup.Tokenizer.Signature.{compute_signature_with_ngram_width-tokenize}

abbrev lower : ℕ → List ℕ
lower c = c ∷ []

abbrev alnum : ℕ → Bool
alnum c = not (c == space)

abbrev utf8 : ℕ → List ℕ
utf8 c = c ∷ []

-- Spaces around and between two words.
abbrev content : List ℕ
content = 32 ∷ 97 ∷ 98 ∷ 32 ∷ 32 ∷ 99 ∷ 100 ∷ 32 ∷ []

abbrev words : List ℕ
words = 97 ∷ 98 ∷ 32 ∷ 99 ∷ 100 ∷ []

run_normalize : normalize_content lower alnum content ≡ words
unfolding normalize_content normalize_chars trim_end concat
run_normalize = refl

content-not_blank : normalize_content lower alnum content ≢ []
content-not_blank e = let nothing : words ≡ [] = sym run_normalize ∙ e in ground arith

compute_signature_with_ngram_width-tokenize_example :
    (tokens : List (List ℕ)) × (tokenize_with_ngram_width lower alnum content 3 ≡ some tokens)
    × (compute_signature_with_ngram_width lower alnum utf8 draw content 42 3
        ≡ some
            (lowered
              (new draw num_perm 42)
              (map (as_bytes lower alnum utf8 draw) tokens)).hash_values)
compute_signature_with_ngram_width-tokenize_example =
    compute_signature_with_ngram_width-tokenize lower alnum utf8 draw content 42 3 (omega arith)
      content-not_blank

normalize_content-Normal_example :
    ((normalize_content lower alnum content ≡ [])
      ⊎ Normal lower alnum true (normalize_content lower alnum content))
    × (letters lower alnum (normalize_content lower alnum content)
        ≡ letters lower alnum (concat (map lower content)))
normalize_content-Normal_example = normalize_content-Normal lower alnum content refl
