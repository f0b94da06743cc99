-- ===== src/Tokenizer.antt =====
-- src/tokenizer.rs. A string is its list of characters. What Unicode says of a character, its
-- lowercase, whether it is alphanumeric and its UTF-8 bytes, are parameters. A failed assertion, a
-- panic of the source, is `none`.
pub mod Normalize
pub mod Signature
use incrededup.Base.{
  ℕ, zero, suc, ◌+◌, ◌-◌, Bool, true, false, Option, none, some, List, [], ◌∷◌, ◌++◌, map,
  if◌then◌else◌, ◌==◌, leb, length, take, drop, concat,
}
use incrededup.UnionFind.{◌>>=◌}
use incrededup.MinHash.{RMinHash, new, update_bytes, num_perm}

abbrev pub default_char_ngram_width : ℕ
default_char_ngram_width = 3

abbrev pub byte_update_batch_size : ℕ
byte_update_batch_size = 256

-- The space.
abbrev pub space : ℕ
space = 32

-- `normalized[start..end]` for every start, `count` of them from `idx` on.
pub windows : List ℕ → ℕ → ℕ → ℕ → List (List ℕ)
windows text width zero idx = []
windows text width (suc count) idx = take width (drop idx text) ∷ windows text width count (idx + 1)

-- `ends_with(' ')` and `pop`.
unfoldable pub trim_end : List ℕ → List ℕ
trim_end [] = []
trim_end (c ∷ []) = if c == space then [] else c ∷ []
trim_end (c ∷ d ∷ cs) = c ∷ trim_end (d ∷ cs)

module _ (to_lowercase : ℕ → List ℕ) (is_alphanumeric : ℕ → Bool) where
  -- What the loop pushes for the characters left.
  unfoldable pub normalize_chars : List ℕ → Bool → List ℕ
  normalize_chars [] last_was_space = []
  normalize_chars (ch ∷ chs) last_was_space =
      let in_word = normalize_chars chs false in
      let after_space = normalize_chars chs true in
      if is_alphanumeric ch
      then ch ∷ in_word
      else if last_was_space
      then after_space
      else space ∷ after_space

  unfoldable pub normalize_content : List ℕ → List ℕ
  normalize_content content = trim_end (normalize_chars (concat (map to_lowercase content)) true)

  pub ngrams : List ℕ → ℕ → List (List ℕ)
  ngrams [] width = []
  ngrams (c ∷ cs) width =
      if leb (length (c ∷ cs)) width
      then (c ∷ cs) ∷ []
      else windows (c ∷ cs) width (length (c ∷ cs) - width + 1) 0

  pub tokenize_with_ngram_width : List ℕ → ℕ → Option (List (List ℕ))
  tokenize_with_ngram_width content width =
      if width == 0 then none else some (ngrams (normalize_content content) width)

  pub tokenize : List ℕ → Option (List (List ℕ))
  tokenize content = tokenize_with_ngram_width content default_char_ngram_width

  module _ (utf8 : ℕ → List ℕ) (draw : ℕ → ℕ → ℕ) where
    pub as_bytes : List ℕ → List ℕ
    as_bytes text = concat (map utf8 text)

    -- A full batch is handed on and cleared.
    pub push : RMinHash → List (List ℕ) → Option (RMinHash × List (List ℕ))
    push minhash batch =
        if length batch == byte_update_batch_size
        then (do minhash' ← update_bytes minhash batch; some (minhash', []))
        else some (minhash, batch)

    pub finish : RMinHash → List (List ℕ) → Option RMinHash
    finish minhash [] = some minhash
    finish minhash (item ∷ items) = update_bytes minhash (item ∷ items)

    -- The loop over the windows.
    pub update_windows : List ℕ → ℕ → ℕ → ℕ → RMinHash → List (List ℕ) → Option RMinHash
    update_windows text width zero idx minhash batch = finish minhash batch
    update_windows text width (suc count) idx minhash batch = do
      (minhash', batch') ← push minhash (batch ++ as_bytes (take width (drop idx text)) ∷ [])
      update_windows text width count (idx + 1) minhash' batch'

    pub signature_of : List ℕ → List ℕ → RMinHash → ℕ → Option RMinHash
    signature_of content [] minhash width = update_bytes minhash (as_bytes content ∷ [])
    signature_of content (c ∷ cs) minhash width =
        if leb (length (c ∷ cs)) width
        then update_bytes minhash (as_bytes (c ∷ cs) ∷ [])
        else update_windows (c ∷ cs) width (length (c ∷ cs) - width + 1) 0 minhash []

    pub compute_signature_with_ngram_width : List ℕ → ℕ → ℕ → Option (List ℕ)
    compute_signature_with_ngram_width content seed width = do
      minhash ←
          if width == 0
          then none
          else signature_of content (normalize_content content) (new draw num_perm seed) width
      some minhash.hash_values

    pub compute_signature : List ℕ → ℕ → Option (List ℕ)
    compute_signature content seed =
        compute_signature_with_ngram_width content seed default_char_ngram_width
