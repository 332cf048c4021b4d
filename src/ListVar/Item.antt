-- ===== src/ListVar/Item.antt =====
-- `getitem` of c/ngx_http_list_module/ngx_http_list_module.c gives the word of an index.
use ngxmp.Base.{
  ℕ, zero, suc, ◌≡◌, refl, sym, ap, ◌∙◌, false, Option, none, some, List, [], ◌∷◌, ◌==◌, Bool-cases,
  ==→eq, length-eq-zero, inl, inr, get_elem?, drop, Bytes, length,
}
use ngxmp.Util.Tokens.{next_tok}
use ngxmp.ListVar.{ListCtx, valid, skip_delims, pick, item_index, listitem_get}
use ngxmp.ListVar.Words.{words, words-skip_delims, words-word}

-- The word, or the empty string where there is none.
abbrev pub word_or_empty : Option Bytes → Bytes
word_or_empty none = []
word_or_empty (some w) = w

-- The string begins with a byte that is no delimiter, or is empty.
abbrev Starts : ℕ → Bytes → Type 0
Starts delim [] = Unit
Starts delim (x ∷ xs) = (x == delim) ≡ false

skip_delims-Starts : (delim : ℕ) (xs : Bytes) → Starts delim (skip_delims delim xs)
unfolding skip_delims
skip_delims-Starts delim [] = tt
skip_delims-Starts delim (x ∷ xs) = elim (Bool-cases (x == delim)) [
  | inl e ↦ rw e (skip_delims-Starts delim xs)
  | inr e ↦ rw e e
]

pick-words :
    (delim n : ℕ) (xs : Bytes)
    → Starts delim xs
    → pick delim n xs ≡ word_or_empty (get_elem? (words delim xs) n)
unfolding pick
pick-words delim n [] h = refl
pick-words delim zero (x ∷ xs) h = rw (words-word delim x xs h) refl
pick-words delim (suc n) (x ∷ xs) h =
    let behind = drop (next_tok delim (x ∷ xs)) (x ∷ xs) in
    pick-words delim n (skip_delims delim behind) (skip_delims-Starts delim behind)
    ∙ ap (λ z. word_or_empty (get_elem? z n)) (words-skip_delims delim behind)
    ∙ ap (λ z. word_or_empty (get_elem? z (suc n))) (sym (words-word delim x xs h))

-- getitem gives the word whose index, from 0, the index variable holds, or the first one where it
-- holds no number, and behind the last word the empty string; the words are the pieces between
-- delimiters without the empty ones.
pub listitem_get-words :
    (atoi : Bytes → Option ℕ) (lctx : ListCtx) (draws : List ℕ) (iiv : Bytes)
    → listitem_get atoi false lctx draws (some iiv)
      ≡ some (valid (word_or_empty (get_elem? (words lctx.delim lctx.raw) (item_index atoi iiv))))
unfolding listitem_get
listitem_get-words atoi lctx draws iiv = elim (Bool-cases (length lctx.raw == 0)) [
  | inl e ↦
      let nil : lctx.raw ≡ [] = length-eq-zero lctx.raw (==→eq (length lctx.raw) 0 e) in
      rw e (
        ap
          (λ z. some (valid (word_or_empty (get_elem? (words lctx.delim z) (item_index atoi iiv)))))
          (sym nil))
  | inr e ↦ rw e (
      ap (λ z. some (valid z))
        (pick-words lctx.delim (item_index atoi iiv) (skip_delims lctx.delim lctx.raw)
            (skip_delims-Starts lctx.delim lctx.raw)
          ∙ ap (λ z. word_or_empty (get_elem? z (item_index atoi iiv)))
              (words-skip_delims lctx.delim lctx.raw)))
]
