-- ===== src/Repl.antt =====
-- c/ngx_http_repl_module/ngx_http_repl_module.c: a page that is a list with a pattern put in place
-- of each of its items.
pub mod Conf
pub mod Pattern
pub mod Page
mod Tests
use ngxmp.Base.{
  ℕ, ◌-◌, Bool, true, false, ◌&&◌, ◌||◌, Option, none, some, [], ◌∷◌, ◌++◌, ◌==◌, if◌then◌else◌,
  Bytes, length, ◌>>=◌, peek,
}
use ngxmp.Util.Append.{Cursor, cursor, null_cursor, crashed, append_str, append_vv}

-- `NULL == (oc = append_...)` is `none`.
unfoldable pub not_null : Cursor → Option Cursor
not_null (cursor w room) = some (cursor w room)
not_null null_cursor = none
not_null crashed = some crashed

unfoldable pub put_str : Bytes → Cursor → Option Cursor
put_str s oc = not_null (append_str oc (some s))

unfoldable pub put_vv : Option Bytes → Cursor → Option Cursor
put_vv v oc = not_null (append_vv oc v)

-- The code behind the loop: `++pi`, and the bytes from `pc` up to it, if there are any.
unfoldable pub put_rest : Bytes → Cursor → Option Cursor
put_rest [] oc = some oc
put_rest (x ∷ xs) oc = put_str (x ∷ xs) oc

-- The loop of `replace_pattern`, with the bytes from `pc` to `pi`, those from `pi` to the end of
-- the pattern, and the byte that stands in memory behind the pattern. Where the loop stops at that
-- end, the `++pi` goes past it.
unfoldable pub replace_from : Bytes → ℕ → Bytes → Bytes → Cursor → Option Cursor
replace_from li past part [] oc = put_rest (part ++ past ∷ []) oc
replace_from li past part (x ∷ []) oc = put_rest (part ++ x ∷ []) oc
replace_from li past part (x ∷ y ∷ ptn) oc =
    let on = replace_from li past (part ++ x ∷ []) (y ∷ ptn) oc in
    let found =
      put_str part oc >>= λ oc1. put_str li oc1 >>= λ oc2. replace_from li past [] ptn oc2 in
    if x == b'%' && y == b'%' then found else on

-- The value of the variable is `none` where its data are NULL: its length is 0 then, and the end of
-- the loop, which lies one byte in front of that of the pattern, wraps, so that the loop reads NULL.
unfoldable pub replace_pattern : Bytes → ℕ → Option Bytes → Cursor → Option Cursor
replace_pattern li past none oc = some crashed
replace_pattern li past (some ptn) oc = replace_from li past [] ptn oc

-- The variables of a request, with the byte that stands in memory behind the pattern. A value whose
-- data are NULL is `none` for the pattern; the others are only tested for their length or appended,
-- as an empty text is.
pub record Vars : Type 0 where
  pub list : Bytes
  pub list_delimiter : Bytes
  pub replace_prefix : Bytes
  pub replace_suffix : Bytes
  pub replace_pattern : Option Bytes
  pub replace_delimiter : Bytes
  pub past : ℕ

-- `if (e > c)`: the last item, unless it is empty.
unfoldable pub last_item : Vars → Bytes → Cursor → Option Cursor
last_item v [] oc = some oc
last_item v (x ∷ xs) oc = replace_pattern (x ∷ xs) v.past v.replace_pattern oc

-- The loop of the handler with the last item behind it, with the first byte of the delimiter, the
-- bytes from `c` to `e` and those from `e` on.
unfoldable pub put_items : Vars → ℕ → Bytes → Bytes → Cursor → Option Cursor
put_items v d li [] oc = last_item v li oc
put_items v d li (x ∷ xs) oc =
    let on = put_items v d (li ++ x ∷ []) xs oc in
    let ended = replace_pattern li v.past v.replace_pattern oc >>= λ oc1.
    put_vv (some v.replace_delimiter) oc1 >>= λ oc2. put_items v d [] xs oc2 in
    if x == d then ended else on

-- The answer: an error code, a page whose length is announced, or an access to NULL. `last_buf` is
-- set for a main request only.
pub data Answer : Type 0 where
  internal_error : Answer
  page : Bytes → ℕ → Bool → Answer
  null_access : Answer

unfoldable pub answer : Bool → Option Cursor → Answer
answer is_main none = internal_error
answer is_main (some (cursor w room)) = page w (length w) is_main
answer is_main (some null_cursor) = null_access
answer is_main (some crashed) = null_access

-- `MAX_OUT_LEN`, and the room up to `oe`, which leaves a byte for the terminating zero.
abbrev pub max_out_len : ℕ
max_out_len = 4096

unfoldable pub room : ℕ
room = max_out_len - 1

unfoldable pub output : Vars → ℕ → Option Cursor
output v d = put_vv (some v.replace_prefix) (cursor [] room) >>= λ oc.
    put_items v d [] v.list oc >>= λ oc1. put_vv (some v.replace_suffix) oc1

-- `ngx_http_repl_handler` up to the calls that send the answer; memory is given.
unfoldable pub handler : Bool → Vars → Answer
handler is_main v =
    if length v.list == 0 || length v.list_delimiter == 0
    then internal_error
    else answer is_main (output v (peek v.list_delimiter))
