-- ===== src/Util/VarName.antt =====
-- `ngx_http_get_var_name_str` of c/ngx_util/ngx_util.h.
use ngxmp.Base.{ℕ, ◌+◌, ◌&&◌, leb, Option, none, some, [], ◌∷◌, ◌==◌, if◌then◌else◌, Bytes}

-- The name behind the `$`; a message is `none`.
unfoldable pub var_name : Bytes → Option Bytes
var_name [] = none
var_name (c ∷ cs) = if c == b'$' then some cs else none

-- `ngx_tolower`
abbrev pub lower : ℕ → ℕ
lower c = if leb b'A' c && leb c b'Z' then c + 32 else c
