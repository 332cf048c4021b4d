-- ===== src/Util/Html.antt =====
-- `ngx_htmlencoding` of c/ngx_util/ngx_util.h.
use ngxmp.Base.{
  ℕ, ◌+◌, ◌*◌, ◌^◌, ◌%◌, ◌<◌, ◌≡◌, refl, Bool, true, not, ◌||◌, [], ◌∷◌, ◌++◌, ◌==◌, leb,
  if◌then◌else◌, Bytes, codes, length, arith,
}

-- The new string, NGX_ERROR, or a write behind the memory that was allocated.
pub data Encoded : Type 0 where
  encoded : Bytes → Encoded
  encode_error : Encoded
  overrun : Encoded

-- The first loop; `n` is never set, so it starts from what its memory holds.
unfoldable pub count_marks : ℕ → Bytes → ℕ
count_marks n [] = n
count_marks n (x ∷ xs) = count_marks (if x == b'<' || x == b'>' then (n + 1) % 2 ^ 64 else n) xs

-- The second loop.
unfoldable pub encode : Bytes → Bytes
encode [] = []
encode (x ∷ xs) =
    (if x == b'<' then codes "&lt;" else if x == b'>' then codes "&gt;" else x ∷ []) ++ encode xs

-- `garbage` is the content of the uninitialised `n`; the memory has `len` bytes.
unfoldable pub htmlencoding : ℕ → Bool → Bytes → Encoded
htmlencoding garbage allocated s =
    let len = (length s + count_marks garbage s * 3) % 2 ^ 64 in
    if not allocated
    then encode_error
    else if leb (length (encode s)) len
    then encoded (encode s)
    else overrun

-- The marks that are replaced.
abbrev pub marks : Bytes → ℕ
marks [] = 0
marks (x ∷ xs) = (if x == b'<' || x == b'>' then 1 else 0) + marks xs

count_marks_lem : (n : ℕ) (s : Bytes) → n + marks s < 2 ^ 64 → count_marks n s ≡ n + marks s
unfolding count_marks
count_marks_lem n [] h = omega arith
count_marks_lem n (x ∷ xs) h = ground (arith, count_marks_lem n xs, count_marks_lem (n + 1) xs)

length-encode : (s : Bytes) → length (encode s) ≡ length s + marks s * 3
unfolding encode
length-encode [] = refl
length-encode (x ∷ xs) = ground (arith, length-encode xs)

-- Where the count of marks does not wrap, nor the length computed from it, the memory is given,
-- and whatever the count started from, the allocated memory is large enough and the result is
-- the string with its marks replaced.
pub htmlencoding-encode :
    (garbage : ℕ) (s : Bytes)
    → garbage + marks s < 2 ^ 64
    → length s + (garbage + marks s) * 3 < 2 ^ 64
    → htmlencoding garbage true s ≡ encoded (encode s)
unfolding htmlencoding
htmlencoding-encode garbage s h l = ground (arith, count_marks_lem garbage s h, length-encode s)
