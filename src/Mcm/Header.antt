-- ===== src/Mcm/Header.antt =====
-- `ngx_http_mcm_process_header`: the first line of memcached's answer.

pub mod Accepts
pub mod OwnKey
use mathlib.Core.Option
use ngxmp.Base.{
  c_string, ℕ, suc, not, Option, none, some, [], ◌∷◌, ◌++◌, ◌==◌, if◌then◌else◌, Bytes, codes,
  length, drop, peek, next, strncmp_eq, same_bytes,
}
use ngxmp.Mcm.{Variable, cr, lf, size_add, size_sub}

-- `found` carries `content_length_n` and the new `u->buffer.pos`; `crash` is a read through NULL.
pub data HeaderResult : Type 0 where
  again : HeaderResult
  invalid_header : HeaderResult
  found : ℕ → Bytes → HeaderResult
  not_found : HeaderResult
  crash : HeaderResult

abbrev longer_line : ℕ → Bytes × Bytes → Bytes × Bytes
longer_line c (line, rest) = (c ∷ line, rest)

-- The loop to LF, and the test behind it, which reads one byte past the data: `past`.
unfoldable pub find_lf : Bytes → ℕ → Option (Bytes × Bytes)
find_lf [] past = if past == lf then some ([], []) else none
find_lf (c ∷ cs) past =
    if c == lf then some ([], cs) else Option.map (longer_line c) (find_lf cs past)

-- `while (*p) { if (*p++ == ' ') goto length; }`
unfoldable pub skip_flags : Bytes → Option Bytes
skip_flags [] = none
skip_flags (c ∷ p) = if c == 0 then none else if c == b' ' then some p else skip_flags p

abbrev one_more : ℕ × Bytes → ℕ × Bytes
one_more (n, p) = (suc n, p)

-- `while (*p && *p++ != CR)`, with the number of bytes passed.
unfoldable pub skip_cr : Bytes → ℕ × Bytes
skip_cr [] = (0, [])
skip_cr (c ∷ p) = if c == 0 then (0, c ∷ p) else if c == cr then (1, p) else one_more (skip_cr p)

-- `ngx_atoof(line, n)` is nginx's: it reads `n` bytes from `line`, and fails by `none`.
module _ (atoof : Bytes → ℕ → Option ℕ) (prefix suffix : Option Variable) where
  -- `r->headers_out.content_length_n += pv->len + sv->len`, at a number that was read.
  unfoldable pub announce : Bytes → Option ℕ → HeaderResult
  announce p none = invalid_header
  announce p (some n) = elim prefix [
    | none ↦ crash
    | some pv ↦ elim suffix [
      | none ↦ crash
      | some sv ↦ found (size_add n (size_add (length pv.text) (length sv.text))) (next p)
    ]
  ]

  -- From the label `length` on.
  unfoldable pub read_length : Bytes → HeaderResult
  read_length p = let (n, q) = skip_cr p in announce q (atoof p (size_sub n 1))

  unfoldable pub after_flags : Option Bytes → HeaderResult
  after_flags none = invalid_header
  after_flags (some p) = read_length p

  unfoldable pub after_key : Bytes → HeaderResult
  after_key p = if not (peek p == b' ') then invalid_header else after_flags (skip_flags (next p))

  -- `*p = 0` has made the line a C string; the data behind it stay.
  unfoldable pub parse_line : Bytes → Bytes → HeaderResult
  parse_line key p =
      if strncmp_eq p (codes "VALUE ")
      then (let q = drop 6 p in
          if strncmp_eq q key then after_key (drop (length key) q) else invalid_header)
      else if same_bytes (c_string p) (codes "END" ++ cr ∷ [])
      then not_found
      else invalid_header

  unfoldable pub process_header : Bytes → Bytes → ℕ → HeaderResult
  process_header key buffer past = elim (find_lf buffer past) [
    | none ↦ again
    | some (line, rest) ↦ parse_line key (line ++ 0 ∷ rest)
  ]
