-- ===== src/Rand.antt =====
-- c/ngx_http_rand_module/ngx_http_rand_module.c: variables that give random numbers of a range.
pub mod Range
mod Tests
use ngxmp.Base.{
  ℕ, ◌+◌, ◌-◌, ◌^◌, ◌%◌, Bool, true, false, not, Option, none, some, ◌==◌, ltb, if◌then◌else◌,
  Bytes,
}
use ngxmp.Util.VarName.{var_name}

-- `ngx_http_rand_vctx_t`
pub record RandCtx : Type 0 where
  pub start : ℕ
  pub end : ℕ

-- The number that a variable gives for a number of `random`, in the arithmetic of 64 bits; `none` is
-- a division by zero.
unfoldable pub rand_number : RandCtx → ℕ → Option ℕ
rand_number ctx ran =
    let width = (1 + ctx.end + 2 ^ 64 - ctx.start) % 2 ^ 64 in
    if width == 0 then none else some ((ran % width + ctx.start) % 2 ^ 64)

-- `ngx_http_rand_get_handler`, with `sprintf` of "%ld".
unfoldable pub rand_get : (ℕ → Bytes) → RandCtx → ℕ → Option Bytes
rand_get print_ld ctx ran = elim (rand_number ctx ran) [ none ↦ none | some n ↦ some (print_ld n) ]

-- The declared variable, a message, NGX_CONF_ERROR, or a write through NULL.
pub data RandDeclared : Type 0 where
  rand_declared : Bytes → RandCtx → RandDeclared
  rand_bad_name : RandDeclared
  rand_bad_number : RandDeclared
  rand_no_memory : RandDeclared
  rand_null_variable : RandDeclared

unfoldable pub ordered : ℕ → ℕ → RandCtx
ordered startn endn =
    if ltb endn startn
    then record { start = endn; end = startn }
    else record { start = startn; end = endn }

-- The names for which `ngx_http_add_variable` gives a variable: NULL comes of one that is not
-- changeable, and of memory that is not given. The result is written through without a test.
abbrev rand_declare : (Bytes → Bool) → Bool → Option Bytes → Option ℕ → Option ℕ → RandDeclared
rand_declare changeable allocated none a b = rand_bad_name
rand_declare changeable allocated (some name) none b = rand_bad_number
rand_declare changeable allocated (some name) (some startn) none = rand_bad_number
rand_declare changeable allocated (some name) (some startn) (some endn) =
    if not (changeable name)
    then rand_null_variable
    else if allocated
    then rand_declared name (ordered startn endn)
    else rand_no_memory

-- `ngx_http_rand_command`; `ngx_atoi` fails with `none`.
unfoldable pub rand_command :
    (Bytes → Bool) → (Bytes → Option ℕ) → Bool → Bytes → Bytes → Bytes → RandDeclared
rand_command changeable atoi allocated name x y =
    rand_declare changeable allocated (var_name name) (atoi x) (atoi y)
