-- ===== src/Util/JoinX/Whole.antt =====
-- `array_join_x` of c/ngx_util/ngx_util.h on whole lines: what the loops write where there is room.
use ngxmp.Base.{
  ℕ, suc, ◌+◌, ◌*◌, ◌≤◌, ◌<◌, ◌≡◌, refl, sym, ap, ◌∙◌, false, Option, some, List, [], ◌∷◌, ◌++◌,
  append_assoc, ◌==◌, if◌then◌else◌, get_elem?, Bytes, length, length-append, arith, All,
  get_elem-append, suc-ne-zero,
}
use native.Mathlib.Nat.{add-mul, one-mul}
use ngxmp.Util.Append.{Cursor, append_str, append_str-written, written, text}
use ngxmp.Util.JoinX.Line.{line_text, to_items, join_line-written}
use ngxmp.Util.JoinX.{Lines, step_of, join_line, is_null, join_lines}

-- The lines, each between lhead and ltail, with ldel between them.
abbrev pub lines_text : Lines → List (List Bytes) → Bytes
lines_text f [] = []
lines_text f (l ∷ []) = text f.lhead ++ (line_text f.dels 0 l ++ text f.ltail)
lines_text f (l ∷ l' ∷ ls) =
    text f.lhead
    ++ (line_text f.dels 0 l ++ (text f.ltail ++ (text f.ldel ++ lines_text f (l' ∷ ls))))

-- The items of all lines.
abbrev pub all_items : List (List Bytes) → List Bytes
all_items [] = []
all_items (l ∷ ls) = l ++ all_items ls

-- Lines of `step` items each.
abbrev pub Whole : Lines → List (List Bytes) → Type 0
Whole f ls = All (λ l. length l ≡ step_of f) ls

-- One line, where the items in front are `pre`.
pub line-written :
    (n : ℕ) (f : Lines) (l : List Bytes) (pre post : List (Option Bytes)) (w : Bytes) (base k : ℕ)
    → base ≡ length pre
    → length l ≡ k
    → length w + (length (text f.lhead) + (length (line_text f.dels 0 l) + length (text f.ltail)))
      ≤ n
    → append_str
        (join_line (pre ++ (to_items l ++ post)) f.dels base 0 k (append_str (written n w) f.lhead))
        f.ltail
      ≡ written n (w ++ (text f.lhead ++ (line_text f.dels 0 l ++ text f.ltail)))
line-written n f l pre post w base k e s h =
    let a = text f.lhead in
    let t = line_text f.dels 0 l in
    let xs = pre ++ (to_items l ++ post) in
    let la = length-append w a in
    let line =
      join_line-written n f.dels base 0 l pre post (w ++ a) (omega (arith, e)) (omega arith) in
    ap (λ c. append_str (join_line xs f.dels base 0 k c) f.ltail)
      (append_str-written n w f.lhead (omega arith))
    ∙ ap (λ k'. append_str (join_line xs f.dels base 0 k' (written n (w ++ a))) f.ltail) (sym s)
    ∙ ap (λ c. append_str c f.ltail) line
    ∙ append_str-written n (w ++ a ++ t) f.ltail (omega (arith, la, length-append (w ++ a) t))
    ∙ ap (written n) (append_assoc (w ++ a) t (text f.ltail) ∙ append_assoc w a (t ++ text f.ltail))

pub length-lines_text :
    (f : Lines) (l l' : List Bytes) (ls : List (List Bytes))
    → length (lines_text f (l ∷ l' ∷ ls))
      ≡ length (text f.lhead)
        + (length (line_text f.dels 0 l)
            + (length (text f.ltail) + (length (text f.ldel) + length (lines_text f (l' ∷ ls)))))
length-lines_text f l l' ls =
    let a = text f.lhead in
    let t = line_text f.dels 0 l in
    let b = text f.ltail in
    let d = text f.ldel in
    let rest = lines_text f (l' ∷ ls) in
    omega (
      arith,
      length-append a (t ++ (b ++ (d ++ rest))),
      length-append t (b ++ (d ++ rest)),
      length-append b (d ++ rest),
      length-append d rest,
    )

-- The first item of a line is not NULL.
not_null_lem :
    (pre post : List (Option Bytes)) (l : List Bytes) (base : ℕ)
    → 0 < length l
    → base ≡ length pre
    → is_null (get_elem? (pre ++ (to_items l ++ post)) base) ≡ false
not_null_lem pre post [] base h e = absurd (omega arith)
not_null_lem pre post (x ∷ l) base h e =
    ap (λ b. is_null (get_elem? (pre ++ some x ∷ (to_items l ++ post)) b)) e
    ∙ ap is_null (get_elem-append pre (to_items l ++ post) (some x))

-- A round of the loop on the lines, where the first item is not NULL.
join_lines_step :
    (f : Lines) (xs : List (Option Bytes)) (i k : ℕ) (c : Cursor)
    → is_null (get_elem? xs (i * step_of f)) ≡ false
    → join_lines f xs i (suc k) c
      ≡ join_lines f xs (i + 1) k (
          let line =
            append_str
              (join_line xs f.dels (i * step_of f) 0 (step_of f) (append_str c f.lhead))
              f.ltail in
          if k == 0 then line else append_str line f.ldel)
unfolding join_lines
join_lines_step f xs i k c e = rw e refl

pub step_pos : (f : Lines) → 0 < step_of f
unfolding step_of
step_pos f = ground arith

to_items-append : (xs ys : List Bytes) → to_items (xs ++ ys) ≡ to_items xs ++ to_items ys
to_items-append [] ys = refl
to_items-append (x ∷ xs) ys = ap (λ z. some x ∷ z) (to_items-append xs ys)

pub length-to_items : (xs : List Bytes) → length (to_items xs) ≡ length xs
length-to_items [] = refl
length-to_items (x ∷ xs) = ap suc (length-to_items xs)

length-framed :
    (f : Lines) (l : List Bytes) (w : Bytes)
    → length (w ++ (text f.lhead ++ (line_text f.dels 0 l ++ text f.ltail)))
      ≡ length w + (length (text f.lhead) + (length (line_text f.dels 0 l) + length (text f.ltail)))
length-framed f l w =
    let t = line_text f.dels 0 l in
    omega (
      arith,
      length-append w (text f.lhead ++ (t ++ text f.ltail)),
      length-append (text f.lhead) (t ++ text f.ltail),
      length-append t (text f.ltail),
    )

framed-lines_text :
    (f : Lines) (l l' : List Bytes) (ls : List (List Bytes)) (w : Bytes)
    → w
        ++ (text f.lhead ++ (line_text f.dels 0 l ++ text f.ltail))
        ++ text f.ldel
        ++ lines_text f (l' ∷ ls)
      ≡ w ++ lines_text f (l ∷ l' ∷ ls)
framed-lines_text f l l' ls w =
    let a = text f.lhead in
    let t = line_text f.dels 0 l in
    let b = text f.ltail in
    let d = text f.ldel in
    let rest = lines_text f (l' ∷ ls) in
    append_assoc (w ++ (a ++ (t ++ b))) d rest
    ∙ append_assoc w (a ++ (t ++ b)) (d ++ rest)
    ∙ ap (λ z. w ++ z)
        (append_assoc a (t ++ b) (d ++ rest) ∙ ap (λ z. a ++ z) (append_assoc t b (d ++ rest)))

pub join_lines-written :
    (n : ℕ) (f : Lines) (l : List Bytes) (ls : List (List Bytes)) (pre : List (Option Bytes))
    (w : Bytes) (i : ℕ)
    → Whole f (l ∷ ls)
    → i * step_of f ≡ length pre
    → length w + length (lines_text f (l ∷ ls)) ≤ n
    → join_lines f (pre ++ to_items (all_items (l ∷ ls))) i (length (l ∷ ls)) (written n w)
      ≡ written n (w ++ lines_text f (l ∷ ls))
unfolding join_lines
join_lines-written n f l [] pre w i (s, _) e h =
    let xs = pre ++ (to_items l ++ []) in
    let k = step_of f in
    ap (λ z. join_lines f (pre ++ z) i 1 (written n w)) (to_items-append l [])
    ∙ join_lines_step f xs i 0 (written n w)
        (not_null_lem pre [] l (i * k) (omega (arith, s, step_pos f)) e)
    ∙ line-written n f l pre [] w (i * k) k e s (
        omega (
          arith,
          length-append (text f.lhead) (line_text f.dels 0 l ++ text f.ltail),
          length-append (line_text f.dels 0 l) (text f.ltail),
        ))
join_lines-written n f l (l' ∷ ls) pre w i (s, ss) e h =
    let post = to_items (all_items (l' ∷ ls)) in
    let xs = pre ++ (to_items l ++ post) in
    let k = step_of f in
    let m = length (l' ∷ ls) in
    let framed = text f.lhead ++ (line_text f.dels 0 l ++ text f.ltail) in
    let line =
      append_str (join_line xs f.dels (i * k) 0 k (append_str (written n w) f.lhead)) f.ltail in
    let size = length-lines_text f l l' ls in
    let lw = length-framed f l w in
    let d = text f.ldel in
    ap (λ z. join_lines f (pre ++ z) i (suc m) (written n w)) (to_items-append l _)
    ∙ join_lines_step f xs i m (written n w)
        (not_null_lem pre post l (i * k) (omega (arith, s, step_pos f)) e)
    ∙ ap (λ b. join_lines f xs (i + 1) m (if b then line else append_str line f.ldel))
        (suc-ne-zero (length ls))
    ∙ ap (λ c. join_lines f xs (i + 1) m (append_str c f.ldel))
        (line-written n f l pre post w (i * k) k e s (omega arith))
    ∙ ap (join_lines f xs (i + 1) m) (append_str-written n (w ++ framed) f.ldel (omega arith))
    ∙ ap (λ z. join_lines f z (i + 1) m (written n (w ++ framed ++ d)))
        (sym (append_assoc pre (to_items l) post))
    ∙ join_lines-written n f l' ls (pre ++ to_items l) (w ++ framed ++ d) (i + 1) ss
        (omega (arith, add-mul i 1 k, one-mul k, length-append pre (to_items l), length-to_items l))
        (omega (arith, length-append (w ++ framed) d))
    ∙ ap (written n) (framed-lines_text f l l' ls w)
