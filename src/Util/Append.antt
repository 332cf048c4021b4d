-- ===== src/Util/Append.antt =====
-- `append_vv`, `append_str` and `ngx_buf_append_str` of c/ngx_util/ngx_util.h, on the pair of a
-- cursor and the end of its buffer.
use ngxmp.Base.{
  ℕ, ◌+◌, ◌-◌, ◌≤◌, ◌≡◌, refl, Option, none, some, [], ◌++◌, append-nil, ◌⊎◌, inl, inr, Bool-cases,
  leb→le, ◌<◌, length-append, ◌==◌, leb, if◌then◌else◌, Bytes, length, arith,
}

-- What a writer holds: the bytes written so far and the room behind them, or the NULL that a
-- failed append gave. `crashed` is a copy to NULL.
pub data Cursor : Type 0 where
  cursor : Bytes → ℕ → Cursor
  null_cursor : Cursor
  crashed : Cursor

-- A NULL string is `none`. At a NULL cursor the end is behind any string, so the string is copied
-- to NULL: a crash, but for the empty string.
unfoldable pub append_str : Cursor → Option Bytes → Cursor
append_str c none = c
append_str (cursor w room) (some s) =
    if leb (length s) room then cursor (w ++ s) (room - length s) else null_cursor
append_str null_cursor (some s) = if length s == 0 then null_cursor else crashed
append_str crashed (some s) = crashed

-- `append_vv` makes the same test the other way round, `end - start >= vv->len`.
unfoldable pub append_vv : Cursor → Option Bytes → Cursor
append_vv c none = c
append_vv (cursor w room) (some v) =
    if leb (length v) room then cursor (w ++ v) (room - length v) else null_cursor
append_vv null_cursor (some v) = if length v == 0 then null_cursor else crashed
append_vv crashed (some v) = crashed

-- A buffer from `pos` to `last`, and the room to `end`.
pub record Buf : Type 0 where
  pub content : Bytes
  pub room : ℕ

-- NGX_ERROR is `none`.
abbrev buf_of : Cursor → Option Buf
buf_of (cursor w r) = some (record { content = w; room = r })
buf_of null_cursor = none
buf_of crashed = none

unfoldable pub buf_append_str : Buf → Option Bytes → Option Buf
buf_append_str b s = buf_of (append_str (cursor b.content b.room) s)

-- The bytes of a string that may be NULL.
abbrev pub text : Option Bytes → Bytes
text none = []
text (some s) = s

-- A cursor into a buffer of `n` bytes of which `w` are written.
abbrev pub written : ℕ → Bytes → Cursor
written n w = cursor w (n - length w)

pub append_str-written :
    (n : ℕ) (w : Bytes) (s : Option Bytes)
    → length w + length (text s) ≤ n
    → append_str (written n w) s ≡ written n (w ++ text s)
unfolding append_str
append_str-written n w none h = rw (append-nil w) refl
append_str-written n w (some s) h = grind (arith, length-append w s)

-- Where the string fits it is written behind the content and the room shrinks by its length;
-- where it does not, NGX_ERROR is returned.
pub buf_append_str_lem :
    (b : Buf) (s : Bytes)
    → ((length s ≤ b.room)
        × (buf_append_str b (some s)
            ≡ some (record { content = b.content ++ s; room = b.room - length s })))
      ⊎ ((b.room < length s) × (buf_append_str b (some s) ≡ none))
unfolding buf_append_str append_str
buf_append_str_lem b s = elim (Bool-cases (leb (length s) b.room)) [
  | inl z ↦ inl (leb→le _ _ z, ground arith)
  | inr z ↦ inr (ground arith, ground arith)
]
