-- ===== src/ListVar/Words.antt =====
-- The words of a string, as a specification: the pieces between delimiters, without empty ones.
use ngxmp.Base.{
  ℕ, ◌≡◌, refl, sym, ap, ap₂, ◌∙◌, true, false, List, [], ◌∷◌, ◌++◌, append-nil, append_assoc, ◌==◌,
  Bool-cases, inl, inr, if◌then◌else◌, take, drop, Bytes,
}
use ngxmp.Util.Tokens.{next_tok}
use ngxmp.ListVar.{skip_delims}

-- A piece that has ended is a word unless it is empty.
abbrev flush : Bytes → List Bytes → List Bytes
flush [] ws = ws
flush (c ∷ cs) ws = (c ∷ cs) ∷ ws

-- The words of a string, with the part of a word that has been read.
abbrev pub words_from : ℕ → Bytes → Bytes → List Bytes
words_from delim cur [] = flush cur []
words_from delim cur (x ∷ xs) =
    let ended = words_from delim [] xs in
    let longer = words_from delim (cur ++ x ∷ []) xs in
    if x == delim then flush cur ended else longer

abbrev pub words : ℕ → Bytes → List Bytes
words delim xs = words_from delim [] xs

module _ (delim : ℕ) where
  words-delim : (x : ℕ) (xs : Bytes) → (x == delim) ≡ true → words delim (x ∷ xs) ≡ words delim xs
  words-delim x xs e = rw e refl

  words-other :
      (x : ℕ) (xs : Bytes)
      → (x == delim) ≡ false
      → words delim (x ∷ xs) ≡ words_from delim (x ∷ []) xs
  words-other x xs e = rw e refl

  pub words-skip_delims : (xs : Bytes) → words delim (skip_delims delim xs) ≡ words delim xs
  unfolding skip_delims
  words-skip_delims [] = refl
  words-skip_delims (x ∷ xs) = elim (Bool-cases (x == delim)) [
    | inl e ↦ rw e (words-skip_delims xs)
    | inr e ↦ rw e (words-other x xs e)
  ]

  -- A word that has begun goes up to the next delimiter.
  pub words_from-next_tok :
      (c : ℕ) (cs xs : Bytes)
      → words_from delim (c ∷ cs) xs
        ≡ ((c ∷ cs) ++ take (next_tok delim xs) xs) ∷ words delim (drop (next_tok delim xs) xs)
  unfolding next_tok
  words_from-next_tok c cs [] = ap (λ z. (c ∷ z) ∷ []) (sym (append-nil cs))
  words_from-next_tok c cs (x ∷ xs) = elim (Bool-cases (x == delim)) [
    | inl e ↦ rw e (ap₂ ◌∷◌ (ap (λ z. c ∷ z) (sym (append-nil cs))) (sym (words-delim x xs e)))
    | inr e ↦ rw e (
        words_from-next_tok c (cs ++ x ∷ []) xs
        ∙ ap (λ z. (c ∷ z) ∷ words delim (drop (next_tok delim xs) xs))
            (append_assoc cs (x ∷ []) (take (next_tok delim xs) xs)))
  ]

  -- At a byte that is no delimiter, the first word goes up to the next one.
  pub words-word :
      (x : ℕ) (xs : Bytes)
      → (x == delim) ≡ false
      → words delim (x ∷ xs)
        ≡ take (next_tok delim (x ∷ xs)) (x ∷ xs)
          ∷ words delim (drop (next_tok delim (x ∷ xs)) (x ∷ xs))
  unfolding next_tok
  words-word x xs e = words-other x xs e ∙ words_from-next_tok x [] xs ∙ rw e refl
