-- ===== src/Repl/Page.antt =====
-- What the handler answers.
use ngxmp.Base.{
  ℕ, ◌≡◌, sym, ap, subst, ◌∙◌, Bool, some, List, [], ◌∷◌, ◌++◌, append_assoc, ◌==◌, if◌then◌else◌,
  Bytes, length, arith, ltb, ◌||◌, Bool-cases, inl, inr, peek,
}
use ngxmp.Util.Append.{text}
use ngxmp.Repl.Pattern.{
  fill_in, ends_open, over_read, Writes, Writes-put_vv, Writes-then, Writes-nothing,
  replace_pattern_lem, put,
}
use ngxmp.Repl.{
  Vars, internal_error, page, handler, output, answer, put_vv, put_items, last_item, room,
  replace_pattern,
}

-- The items that a delimiter ends, and what stands behind the last delimiter.
abbrev pub split_at : ℕ → Bytes → Bytes → List Bytes × Bytes
split_at d li [] = ([], li)
split_at d li (x ∷ xs) =
    let (ended, last) = split_at d [] xs in
    let longer = split_at d (li ++ x ∷ []) xs in if x == d then (li ∷ ended, last) else longer

-- The pattern with an item put in place, as it is written.
abbrev pub filled_item : Vars → Bytes → Bytes
filled_item v li =
    let ptn = text v.replace_pattern in fill_in li ptn ++ over_read v.past (ends_open ptn)

abbrev pub last_text : Vars → Bytes → Bytes
last_text v [] = []
last_text v (x ∷ xs) = filled_item v (x ∷ xs)

abbrev pub items_text : Vars → List Bytes → Bytes
items_text v [] = []
items_text v (li ∷ lis) = filled_item v li ++ (v.replace_delimiter ++ items_text v lis)

-- The page, for a delimiter whose first byte is `d`.
abbrev pub page_text : Vars → ℕ → Bytes
page_text v d =
    let (ended, last) = split_at d [] v.list in
    v.replace_prefix ++ (items_text v ended ++ last_text v last ++ v.replace_suffix)

module _ (v : Vars) (ptn : Bytes) (there : v.replace_pattern ≡ some ptn) where
  Writes-pattern :
      (li : Bytes) → Writes (replace_pattern li v.past v.replace_pattern) (filled_item v li)
  Writes-pattern li =
      subst
        (λ p.
          Writes (replace_pattern li v.past p)
            (fill_in li (text p) ++ over_read v.past (ends_open (text p))))
        (sym there) (replace_pattern_lem li v.past ptn)

  abbrev split_text : List Bytes × Bytes → Bytes
  split_text (ended, last) = items_text v ended ++ last_text v last

  Writes-last_item : (li : Bytes) → Writes (last_item v li) (last_text v li)
  unfolding last_item
  Writes-last_item [] = Writes-nothing
  Writes-last_item (x ∷ xs) = Writes-pattern (x ∷ xs)

  Writes-put_items :
      (d : ℕ) (li xs : Bytes) → Writes (put_items v d li xs) (split_text (split_at d li xs))
  unfolding put_items
  Writes-put_items d li [] n w h = Writes-last_item li n w h
  Writes-put_items d li (x ∷ xs) n w h = elim (Bool-cases (x == d)) [
    | inl z ↦
        let rest = split_at d [] xs in
        rw z (
          Writes-then (replace_pattern li v.past v.replace_pattern) _ (filled_item v li) _
            (Writes-pattern li)
            (Writes-then (put_vv (some v.replace_delimiter)) _ v.replace_delimiter _
              (Writes-put_vv v.replace_delimiter) (Writes-put_items d [] xs))
            n w h
          ∙ ap (λ t. put n (w ++ t))
              (ap (λ t. filled_item v li ++ t)
                  (sym
                    (append_assoc v.replace_delimiter (items_text v rest.0) (last_text v rest.1)))
                ∙ sym (
                    append_assoc (filled_item v li) (v.replace_delimiter ++ items_text v rest.0)
                      (last_text v rest.1))))
    | inr z ↦ rw z (Writes-put_items d (li ++ x ∷ []) xs n w h)
  ]

  Writes-output : (d : ℕ) → output v d ≡ put room (page_text v d)
  unfolding output room
  Writes-output d =
      Writes-then (put_vv (some v.replace_prefix)) _ v.replace_prefix _
        (Writes-put_vv v.replace_prefix)
        (Writes-then (put_items v d [] v.list) _ (split_text (split_at d [] v.list)) _
          (Writes-put_items d [] v.list) (Writes-put_vv v.replace_suffix))
        room [] (omega arith)

-- For all variables of a request, where the data of the pattern are not NULL: a page for a list and a
-- delimiter that are not empty is sent where it fits into 4095 bytes, whole and with its length
-- announced; a longer page, a missing list or a missing delimiter give an internal error. The page is
-- the prefix, the pattern filled with each item that a delimiter ends and the replacing delimiter, the
-- pattern filled with the last item unless that is empty, and the suffix. Where the pattern is empty
-- or its last %% stands at its end, each filled pattern is followed by the byte that stands in memory
-- behind the pattern.
pub handler_lem :
    (is_main : Bool) (v : Vars) (ptn : Bytes)
    → v.replace_pattern ≡ some ptn
    → handler is_main v ≡ (
        if length v.list == 0
          || length v.list_delimiter == 0
          || ltb 4095 (length (page_text v (peek v.list_delimiter)))
        then internal_error
        else page
            (page_text v (peek v.list_delimiter))
            (length (page_text v (peek v.list_delimiter)))
            is_main)
unfolding handler answer room
handler_lem is_main v ptn there =
    let t = page_text v (peek v.list_delimiter) in
    rw (Writes-output v ptn there (peek v.list_delimiter)) (ground arith)
