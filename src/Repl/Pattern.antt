-- ===== src/Repl/Pattern.antt =====
-- What the loop of `replace_pattern` writes.
use ngxmp.Base.{
  ℕ, ◌≤◌, ◌≡◌, refl, sym, ap, ◌∙◌, Bool, true, false, ◌&&◌, Option, none, some, [], ◌∷◌, ◌++◌,
  append-nil, append_assoc, ◌==◌, if◌then◌else◌, Bytes, length, length-append, arith, leb,
  Bool-cases, inl, inr, leb→le, le→leb, ◌>>=◌,
}
use ngxmp.Util.Append.{Cursor, written, append_str, append_vv}
use ngxmp.Repl.{not_null, put_str, put_vv, put_rest, replace_from, replace_pattern}

-- `%%` in the pattern stands for the item.
abbrev pub fill_in : Bytes → Bytes → Bytes
fill_in li [] = []
fill_in li (x ∷ []) = x ∷ []
fill_in li (x ∷ y ∷ ptn) =
    let on = fill_in li (y ∷ ptn) in
    let behind = fill_in li ptn in if x == b'%' && y == b'%' then li ++ behind else x ∷ on

-- A pattern that is empty, or whose last `%%` stands at its end.
abbrev pub ends_open : Bytes → Bool
ends_open [] = true
ends_open (x ∷ []) = false
ends_open (x ∷ y ∷ ptn) =
    let on = ends_open (y ∷ ptn) in
    let behind = ends_open ptn in if x == b'%' && y == b'%' then behind else on

-- The byte behind the pattern, if its loop reads that.
abbrev pub over_read : ℕ → Bool → Bytes
over_read past true = past ∷ []
over_read past false = []

-- A step writes a text behind what stands in the buffer where it fits, and fails where not.
abbrev pub put : ℕ → Bytes → Option Cursor
put n w = if leb (length w) n then some (written n w) else none

abbrev pub Writes : (Cursor → Option Cursor) → Bytes → Type 0
Writes f t = (n : ℕ) (w : Bytes) → length w ≤ n → f (written n w) ≡ put n (w ++ t)

Writes-put_str : (s : Bytes) → Writes (put_str s) s
unfolding put_str not_null append_str
Writes-put_str s n w h = ground (arith, length-append w s)

pub Writes-put_vv : (s : Bytes) → Writes (put_vv (some s)) s
unfolding put_vv not_null append_vv
Writes-put_vv s n w h = ground (arith, length-append w s)

put-too-long : (n : ℕ) (w t : Bytes) → leb (length w) n ≡ false → put n (w ++ t) ≡ none
put-too-long n w t h = ground (arith, length-append w t)

-- Two steps write their texts one behind the other.
pub Writes-then :
    (f g : Cursor → Option Cursor) (s t : Bytes)
    → Writes f s
    → Writes g t
    → Writes (λ c. f c >>= g) (s ++ t)
Writes-then f g s t hf hg n w h = elim (Bool-cases (leb (length (w ++ s)) n)) [
  | inl z ↦ rw (hf n w h, z) (hg n (w ++ s) (leb→le _ _ z) ∙ ap (put n) (append_assoc w s t))
  | inr z ↦ rw (hf n w h, z) (sym (put-too-long n (w ++ s) t z) ∙ ap (put n) (append_assoc w s t))
]

pub Writes-nothing : Writes (λ c. some c) []
Writes-nothing n w h = rw append-nil (rw (le→leb _ _ h) refl)

Writes-put_rest : (s : Bytes) → Writes (put_rest s) s
unfolding put_rest
Writes-put_rest [] n w h = Writes-nothing n w h
Writes-put_rest (x ∷ xs) n w h = Writes-put_str (x ∷ xs) n w h

-- What the loop writes from a place in the pattern on.
abbrev filled : Bytes → ℕ → Bytes → Bytes
filled li past ptn = fill_in li ptn ++ over_read past (ends_open ptn)

Writes-replace_from :
    (li : Bytes) (past : ℕ) (part ptn : Bytes)
    → Writes (replace_from li past part ptn) (part ++ filled li past ptn)
unfolding replace_from
Writes-replace_from li past part [] n w h = Writes-put_rest (part ++ past ∷ []) n w h
Writes-replace_from li past part (x ∷ []) n w h = Writes-put_rest (part ++ x ∷ []) n w h
Writes-replace_from li past part (x ∷ y ∷ ptn) n w h = elim (Bool-cases (x == b'%' && y == b'%')) [
  | inl z ↦ rw z (
      Writes-then (put_str part) _ part _ (Writes-put_str part)
        (Writes-then (put_str li) _ li _ (Writes-put_str li) (Writes-replace_from li past [] ptn)) n
        w h
      ∙ ap (λ t. put n (w ++ (part ++ t)))
          (sym (append_assoc li (fill_in li ptn) (over_read past (ends_open ptn)))))
  | inr z ↦ rw z (
      Writes-replace_from li past (part ++ x ∷ []) (y ∷ ptn) n w h
      ∙ ap (λ t. put n (w ++ t)) (append_assoc part (x ∷ []) (filled li past (y ∷ ptn))))
]

-- `replace_pattern` writes the pattern with the item in place of each `%%`, or fails where the
-- buffer has no room for that. Behind a pattern that is empty, or whose last `%%` stands at its
-- end, it also writes the byte that stands in memory behind the pattern.
pub replace_pattern_lem :
    (li : Bytes) (past : ℕ) (ptn : Bytes)
    → Writes (replace_pattern li past (some ptn)) (fill_in li ptn ++ over_read past (ends_open ptn))
unfolding replace_pattern
replace_pattern_lem li past ptn = Writes-replace_from li past [] ptn
