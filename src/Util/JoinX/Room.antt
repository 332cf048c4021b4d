-- ===== src/Util/JoinX/Room.antt =====
-- The length that `array_join_x` of c/ngx_util/ngx_util.h allocates is enough for whole lines.
use ngxmp.Base.{
  ℕ, zero, suc, ◌+◌, ◌-◌, ◌*◌, ◌/◌, ◌%◌, ◌≤◌, ◌≡◌, refl, ap, ◌∙◌, true, false, Option, none, some,
  List, [], ◌∷◌, ◌++◌, map, ◌==◌, get_elem?, Bytes, length, length-append, arith, ==-eq-false,
}
use native.Mathlib.Nat.{mul-suc, zero-mul, suc-mul, div-eq_of_lt-le, mul-div_left, add-mul, one-mul}
use ngxmp.Util.Append.{cursor, append_str, append_str-written, written, text}
use ngxmp.Util.Join.{joined, finish, total}
use ngxmp.Util.JoinX.Line.{line_text, del_text, to_items}
use ngxmp.Util.JoinX.Whole.{
  lines_text, all_items, Whole, length-lines_text, length-to_items, step_pos, join_lines-written,
}
use ngxmp.Util.JoinX.{
  Lines, step_of, items_size, dels_size, dels_part, no_dels, lines_size, is_null, join_lines,
  lines_count, array_join_x,
}

dels_size-suc :
    (dels : List Bytes) (r i k : ℕ)
    → dels_size dels (suc r) i k ≡ dels_size dels r i k + dels_size dels 1 i k
unfolding dels_size
dels_size-suc dels r i zero = omega arith
dels_size-suc dels r i (suc k) =
    let d = length (text (get_elem? dels (i % length dels))) in
    omega (arith, mul-suc d r, dels_size-suc dels r (i + 1) k)

dels_part-suc :
    (o : Option (List Bytes)) (r i k : ℕ)
    → dels_part o (suc r) i k ≡ dels_part o r i k + dels_part o 1 i k
dels_part-suc none r i k = omega arith
dels_part-suc (some dels) r i k = dels_size-suc dels r i k

-- A line takes no more than its items and the delimiters of one row.
line_room :
    (o : Option (List Bytes)) (j : ℕ) (l : List Bytes)
    → length (line_text o j l) ≤ total l + dels_part o 1 j (length l)
unfolding total dels_size
line_room o j [] = omega arith
line_room o j (x ∷ []) = omega arith
line_room none j (x ∷ y ∷ l) =
    omega (
      arith,
      length-append x ([] ++ line_text none (j + 1) (y ∷ l)),
      line_room none (j + 1) (y ∷ l),
    )
line_room (some dels) j (x ∷ y ∷ l) =
    let d = del_text (some dels) j in
    let rest = line_text (some dels) (j + 1) (y ∷ l) in
    omega (
      arith,
      length-append x (d ++ rest),
      length-append d rest,
      line_room (some dels) (j + 1) (y ∷ l),
    )

total-append : (xs ys : List Bytes) → total (xs ++ ys) ≡ total xs + total ys
unfolding total
total-append [] ys = omega arith
total-append (x ∷ xs) ys = omega (arith, total-append xs ys)

-- The lines take no more than is allocated for as many rows.
lines_room :
    (f : Lines) (ls : List (List Bytes))
    → Whole f ls
    → length (lines_text f ls)
      ≤ total (all_items ls)
        + length (text f.lhead) * length ls
        + length (text f.ltail) * length ls
        + length (text f.ldel) * length ls
        + dels_part f.dels (length ls) 0 (step_of f)
lines_room f [] h = omega arith
lines_room f (l ∷ []) (s, _) = omega (
  arith,
  length-append (text f.lhead) (line_text f.dels 0 l ++ text f.ltail),
  length-append (line_text f.dels 0 l) (text f.ltail),
  line_room f.dels 0 l,
  ap (dels_part f.dels 1 0) s,
  total-append l [],
)
lines_room f (l ∷ l' ∷ ls) (s, ss) =
    let r = length (l' ∷ ls) in
    omega (
      arith,
      length-lines_text f l l' ls,
      line_room f.dels 0 l,
      ap (dels_part f.dels 1 0) s,
      total-append l (all_items (l' ∷ ls)),
      lines_room f (l' ∷ ls) ss,
      mul-suc (length (text f.lhead)) r,
      mul-suc (length (text f.ltail)) r,
      mul-suc (length (text f.ldel)) r,
      dels_part-suc f.dels r 0 (step_of f),
    )

items_size-to_items : (xs : List Bytes) → items_size (to_items xs) ≡ total xs
unfolding items_size total
items_size-to_items [] = refl
items_size-to_items (x ∷ xs) = ap (λ n. length x + n) (items_size-to_items xs)

pub length-all_items :
    (f : Lines) (ls : List (List Bytes))
    → Whole f ls
    → length (all_items ls) ≡ length ls * step_of f
length-all_items f [] h = omega (arith, zero-mul (step_of f))
length-all_items f (l ∷ ls) (s, ss) = omega (
  arith,
  s,
  length-append l (all_items ls),
  length-all_items f ls ss,
  suc-mul (length ls) (step_of f),
)

-- All rows and the texts around them fit.
lines_size_lem :
    (f : Lines) (ls : List (List Bytes))
    → Whole f ls
    → length (text f.head) + length (lines_text f ls) + length (text f.tail)
      ≤ lines_size f (to_items (all_items ls))
unfolding lines_size
lines_size_lem f ls h =
    let items = all_items ls in
    let r = length ls in
    let rows : length (to_items items) / step_of f + 1 ≡ suc r =
      ap (λ n. n / step_of f + 1) (length-to_items items ∙ length-all_items f ls h)
      ∙ ap (λ n. n + 1) (mul-div_left r (step_pos f))
      ∙ omega arith in
    rw rows (
      omega (
        arith,
        items_size-to_items items,
        lines_room f ls h,
        mul-suc (length (text f.lhead)) r,
        mul-suc (length (text f.ltail)) r,
        mul-suc (length (text f.ldel)) r,
        dels_part-suc f.dels r 0 (step_of f),
      ))

is_null-to_items : (xs : List Bytes) (i : ℕ) → is_null (get_elem? (to_items xs) i) ≡ false
is_null-to_items [] i = refl
is_null-to_items (x ∷ xs) zero = refl
is_null-to_items (x ∷ xs) (suc i) = is_null-to_items xs i

lines_count_lem :
    (f : Lines) (l : List Bytes) (ls : List (List Bytes))
    → Whole f (l ∷ ls)
    → lines_count f (to_items (all_items (l ∷ ls))) ≡ length (l ∷ ls)
unfolding lines_count
lines_count_lem f l ls h =
    let k = step_of f in
    let n = length (to_items (all_items (l ∷ ls))) in
    let m = length ls in
    let e : n ≡ m * k + k =
      length-to_items (all_items (l ∷ ls)) ∙ length-all_items f (l ∷ ls) h ∙ suc-mul m k in
    let pos = step_pos f in
    let q : (n - 1) / k ≡ m =
      div-eq_of_lt-le k (omega (arith, e)) (omega (arith, e, add-mul m 1 k, one-mul k)) in
    rw (is_null-to_items (all_items (l ∷ ls)) (((n - 1) / k + 1 - 1) * k))
      (ap (λ z. z + 1) q ∙ omega arith)

-- Where the memory is given, and the array of delimiters is missing or not empty, an array
-- without NULL items that fills at least one line and whose lines are all whole is joined by
-- array_join_x: the result is the head, the lines, each between lhead and ltail and with the
-- delimiters taken in turn between its items, and with ldel between the lines, and the tail; the
-- length that is allocated is enough, so nothing is cut and nothing is written through NULL.
pub array_join_x_lem :
    (f : Lines) (l : List Bytes) (ls : List (List Bytes))
    → no_dels f.dels ≡ false
    → Whole f (l ∷ ls)
    → array_join_x true f (map some (all_items (l ∷ ls)))
      ≡ joined (text f.head ++ lines_text f (l ∷ ls) ++ text f.tail)
unfolding array_join_x finish
array_join_x_lem f l ls d h =
    let items = to_items (all_items (l ∷ ls)) in
    let n = lines_size f items in
    let size = lines_size_lem f (l ∷ ls) h in
    let t = lines_text f (l ∷ ls) in
    let filled : (length items == 0) ≡ false = ==-eq-false _ 0 (λ z. omega (
      arith,
      z,
      length-to_items (all_items (l ∷ ls)),
      length-append l (all_items ls),
      h.0,
      step_pos f,
    )) in
    let start : cursor [] n ≡ written n [] = ap (cursor []) (omega arith) in
    let lines : join_lines f items 0 (length (l ∷ ls)) (written n (text f.head))
        ≡ written n (text f.head ++ t) =
      join_lines-written n f l ls [] (text f.head) 0 h (zero-mul (step_of f)) (omega arith) in
    let run : append_str
          (join_lines f items 0 (lines_count f items) (append_str (cursor [] n) f.head)) f.tail
        ≡ written n (text f.head ++ t ++ text f.tail) =
      ap (λ c. append_str (join_lines f items 0 (lines_count f items) (append_str c f.head)) f.tail)
        start
      ∙ ap (λ k. append_str (join_lines f items 0 k (append_str (written n []) f.head)) f.tail)
          (lines_count_lem f l ls h)
      ∙ ap (λ c. append_str (join_lines f items 0 (length (l ∷ ls)) c) f.tail)
          (append_str-written n [] f.head (omega arith))
      ∙ ap (λ c. append_str c f.tail) lines
      ∙ append_str-written n (text f.head ++ t) f.tail
          (omega (arith, length-append (text f.head) t)) in
    rw (d, filled, run) refl
