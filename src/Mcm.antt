-- ===== src/Mcm.antt =====
-- c/ngx_http_memcached_more_module/ngx_http_memcached_more_module.c: an upstream module that asks
-- memcached for one key and sends the value between two configured variables.
-- A variable's value is `none` where nginx hands out a NULL pointer.
pub mod Request
pub mod Header
pub mod Filter
pub mod Handler
pub mod Conf
pub mod Deliver
mod Tests
use ngxmp.Base.{ℕ, ◌+◌, ◌-◌, ◌%◌, ◌^◌, Bool, List, [], ◌∷◌, Bytes, codes}

-- `ngx_http_variable_value_t`, of the fields that the module reads.
pub record Variable : Type 0 where
  pub not_found : Bool
  pub text : Bytes

abbrev pub cr : ℕ
cr = 13

abbrev pub lf : ℕ
lf = 10

-- `mc_end`, the trailer CRLF "END" CRLF, without the terminating zero.
abbrev pub mc_end : Bytes
mc_end = cr ∷ lf ∷ b'E' ∷ b'N' ∷ b'D' ∷ cr ∷ lf ∷ []

-- `MC_END_LEN`
abbrev pub mc_end_len : ℕ
mc_end_len = 7

-- `size_t` and `off_t` arithmetic.
abbrev pub size_add : ℕ → ℕ → ℕ
size_add a b = (a + b) % 2 ^ 64

abbrev pub size_sub : ℕ → ℕ → ℕ
size_sub a b = (a + 2 ^ 64 - b) % 2 ^ 64
