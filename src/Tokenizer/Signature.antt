-- ===== src/Tokenizer/Signature.antt =====
-- The signature that `compute_signature_with_ngram_width` of src/tokenizer.rs makes is that of the
-- tokens of `tokenize_with_ngram_width`.
use incrededup.Base.{
  append_assoc, append_nil, ℕ, zero, suc, ◌+◌, ◌-◌, ◌<◌, ◌≡◌, ◌≢◌, refl, sym, ap, ◌∙◌, Bool, true,
  false, some, List, [], ◌∷◌, ◌++◌, map, ◌==◌, leb, length, take, drop, arith, Bool-cases, inl, inr,
}
use incrededup.MinHash.{RMinHash, new, update_bytes, num_perm}
use incrededup.MinHash.Update.{IsValid}
use incrededup.MinHash.Signature.{
  lowered, lowered-IsValid, lowered-append, lowered-nil, update_bytes_lem, new-IsValid,
}
use incrededup.Tokenizer.{
  windows, normalize_content, ngrams, as_bytes, push, finish, update_windows, signature_of,
  tokenize_with_ngram_width, compute_signature_with_ngram_width, byte_update_batch_size,
}

module _ (lower : ℕ → List ℕ) (alnum : ℕ → Bool) (utf8 : ℕ → List ℕ) (draw : ℕ → ℕ → ℕ) where
  abbrev bytes : List ℕ → List ℕ
  bytes = as_bytes lower alnum utf8 draw

  finish_lem :
      (m : RMinHash) (batch : List (List ℕ))
      → IsValid m
      → finish lower alnum utf8 draw m batch ≡ some (lowered m batch)
  unfolding finish
  finish_lem m [] h = ap some (sym (lowered-nil m h))
  finish_lem m (item ∷ items) h = update_bytes_lem m (item ∷ items) h

  push_full :
      (m : RMinHash) (batch : List (List ℕ))
      → IsValid m
      → (length batch == byte_update_batch_size) ≡ true
      → push lower alnum utf8 draw m batch ≡ some (lowered m batch, [])
  unfolding push
  push_full m batch h full = rw (full, update_bytes_lem m batch h) refl

  push_room :
      (m : RMinHash) (batch : List (List ℕ))
      → (length batch == byte_update_batch_size) ≡ false
      → push lower alnum utf8 draw m batch ≡ some (m, batch)
  unfolding push
  push_room m batch room = rw room refl

  update_windows_lem :
      (text : List ℕ) (width count idx : ℕ) (m : RMinHash) (batch : List (List ℕ))
      → IsValid m
      → update_windows lower alnum utf8 draw text width count idx m batch
        ≡ some (lowered m (batch ++ map bytes (windows text width count idx)))
  unfolding update_windows windows
  update_windows_lem text width zero idx m batch h =
      finish_lem m batch h ∙ ap (λ t. some (lowered m t)) (sym (append_nil batch))
  update_windows_lem text width (suc count) idx m batch h =
      let item = bytes (take width (drop idx text)) in
      let batch' = batch ++ item ∷ [] in
      let rest = map bytes (windows text width count (idx + 1)) in
      let regroup : batch' ++ rest ≡ batch ++ item ∷ rest = append_assoc batch (item ∷ []) rest in
      elim (Bool-cases (length batch' == byte_update_batch_size)) [
        | inl full ↦ rw (push_full m batch' h full) (
            update_windows_lem text width count (idx + 1) (lowered m batch') []
              (lowered-IsValid m batch' h)
            ∙ ap some (lowered-append m batch' rest ∙ ap (lowered m) regroup))
        | inr room ↦ rw (push_room m batch' room) (
            update_windows_lem text width count (idx + 1) m batch' h
            ∙ ap (λ t. some (lowered m t)) regroup)
      ]

  signature_of_lem :
      (content text : List ℕ) (m : RMinHash) (width : ℕ)
      → IsValid m
      → text ≢ []
      → signature_of lower alnum utf8 draw content text m width
        ≡ update_bytes m (map bytes (ngrams lower alnum text width))
  unfolding signature_of ngrams
  signature_of_lem content [] m width h n = absurd (n refl)
  signature_of_lem content (c ∷ cs) m width h n = elim (Bool-cases (leb (length (c ∷ cs)) width)) [
    | inl short ↦ rw short refl
    | inr long ↦ rw long (
        update_windows_lem (c ∷ cs) width (length (c ∷ cs) - width + 1) 0 m [] h
        ∙ sym (update_bytes_lem m _ h))
  ]

  -- For a positive width, tokenizing succeeds, and where some character of the content is left
  -- after normalization, the signature is the digest of a new state updated with the bytes of all
  -- tokens, although the code never makes their list and hands them on in batches.
  pub compute_signature_with_ngram_width-tokenize :
      (content : List ℕ) (seed width : ℕ)
      → 0 < width
      → normalize_content lower alnum content ≢ []
      → (tokens : List (List ℕ)) × (tokenize_with_ngram_width lower alnum content width
          ≡ some tokens)
        × (compute_signature_with_ngram_width lower alnum utf8 draw content seed width
            ≡ some (lowered (new draw num_perm seed) (map bytes tokens)).hash_values)
  unfolding tokenize_with_ngram_width compute_signature_with_ngram_width
  compute_signature_with_ngram_width-tokenize content seed width pos n =
      let text = normalize_content lower alnum content in
      let m = new draw num_perm seed in
      let valid = new-IsValid draw num_perm seed in
      let wide : (width == 0) ≡ false = ground arith in
      let tokens = ngrams lower alnum text width in
      (
        tokens,
        rw wide refl,
        rw
            (
              wide,
              signature_of_lem content text m width valid n
                  ∙ update_bytes_lem m (map bytes tokens) valid,
            )
            refl,
      )
