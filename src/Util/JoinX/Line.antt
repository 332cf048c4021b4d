-- ===== src/Util/JoinX/Line.antt =====
-- A line of `array_join_x` of c/ngx_util/ngx_util.h.
use ngxmp.Base.{
  ℕ, suc, ◌+◌, ◌%◌, ◌≤◌, ◌≡◌, refl, sym, ap, ◌∙◌, Option, none, some, List, [], ◌∷◌, ◌++◌,
  append-nil, append_assoc, map, get_elem?, Bytes, length, length-append, arith, get_elem-append,
  suc-ne-zero,
}
use ngxmp.Util.Append.{Cursor, append_str-written, written, text}
use ngxmp.Util.JoinX.{append_item, append_del, join_line}

-- The text behind the item `j` of a line.
abbrev pub del_text : Option (List Bytes) → ℕ → Bytes
del_text none j = []
del_text (some dels) j = text (get_elem? dels (j % length dels))

-- The items of a line from the one with the index `j` on, with delimiters between them.
abbrev pub line_text : Option (List Bytes) → ℕ → List Bytes → Bytes
line_text dels j [] = []
line_text dels j (x ∷ []) = x
line_text dels j (x ∷ y ∷ l) = x ++ (del_text dels j ++ line_text dels (j + 1) (y ∷ l))

abbrev pub to_items : List Bytes → List (Option Bytes)
to_items xs = map some xs

append_del-written :
    (n : ℕ) (w : Bytes) (dels : Option (List Bytes)) (j : ℕ)
    → length w + length (del_text dels j) ≤ n
    → append_del (written n w) dels j ≡ written n (w ++ del_text dels j)
unfolding append_del
append_del-written n w none j h = rw (append-nil w) refl
append_del-written n w (some dels) j h = append_str-written n w (some (del_text (some dels) j)) h

-- The item that stands behind `pre`.
append_item-written :
    (n : ℕ) (w x : Bytes) (pre post : List (Option Bytes)) (i : ℕ)
    → i ≡ length pre
    → length w + length x ≤ n
    → append_item (written n w) (get_elem? (pre ++ some x ∷ post) i) ≡ written n (w ++ x)
unfolding append_item
append_item-written n w x pre post i e h =
    ap (λ k. append_item (written n w) (get_elem? (pre ++ some x ∷ post) k)) e
    ∙ ap (append_item (written n w)) (get_elem-append pre post (some x))
    ∙ append_str-written n w (some x) h

-- A round of the loop, but for the last one.
join_line_step :
    (xs : List (Option Bytes)) (dels : Option (List Bytes)) (base j k : ℕ) (c : Cursor)
    → join_line xs dels base j (suc (suc k)) c
      ≡ join_line xs dels base
          (j + 1)
          (suc k)
          (append_del (append_item c (get_elem? xs (base + j))) dels j)
unfolding join_line
join_line_step xs dels base j k c = rw (suc-ne-zero k) refl

pub join_line-written :
    (n : ℕ) (dels : Option (List Bytes)) (base j : ℕ) (l : List Bytes)
    (pre post : List (Option Bytes)) (w : Bytes)
    → base + j ≡ length pre
    → length w + length (line_text dels j l) ≤ n
    → join_line (pre ++ (to_items l ++ post)) dels base j (length l) (written n w)
      ≡ written n (w ++ line_text dels j l)
unfolding join_line
join_line-written n dels base j [] pre post w e h = rw (append-nil w) refl
join_line-written n dels base j (x ∷ []) pre post w e h =
    append_item-written n w x pre post (base + j) e h
join_line-written n dels base j (x ∷ y ∷ l) pre post w e h =
    let d = del_text dels j in
    let rest = line_text dels (j + 1) (y ∷ l) in
    let tail = to_items (y ∷ l) ++ post in
    let h' : length w + (length x + (length d + length rest)) ≤ n =
      omega (arith, h, length-append x (d ++ rest), length-append d rest) in
    let lx = length-append w x in
    let ld = length-append (w ++ x) d in
    let item = append_item-written n w x pre tail (base + j) e (omega arith) in
    let del = append_del-written n (w ++ x) dels j (omega arith) in
    let on =
      join_line-written n dels base (j + 1) (y ∷ l) (pre ++ some x ∷ []) post (w ++ x ++ d)
        (omega (arith, e, length-append pre (some x ∷ []))) (omega arith) in
    let go =
      λ (c : Cursor). join_line (pre ++ some x ∷ tail) dels base (j + 1) (length (y ∷ l)) c in
    join_line_step (pre ++ some x ∷ tail) dels base j (length l) (written n w)
    ∙ ap (λ c. go (append_del c dels j)) item
    ∙ ap go del
    ∙ ap (λ z. join_line z dels base (j + 1) (length (y ∷ l)) (written n (w ++ x ++ d)))
        (sym (append_assoc pre (some x ∷ []) tail))
    ∙ on
    ∙ ap (written n) (append_assoc (w ++ x) d rest ∙ append_assoc w x (d ++ rest))
