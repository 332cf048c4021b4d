-- ===== src/Rv/Command.antt =====
-- `ngx_http_rv_remote_var_command` of c/ngx_http_rv_module/ngx_http_rv_module.c: the declaration of
-- a remote variable.
use ngxmp.Base.{
  ℕ, Bool, false, not, ◌||◌, Option, some, List, [], ◌∷◌, if◌then◌else◌, Bytes, codes, strncmp_eq,
}
use ngxmp.Util.VarName.{var_name}
use ngxmp.Rv.{Op, rv_set, rv_incr, rv_decr, ℤ, pos, negsuc}

-- What is set of `ngx_http_rv_vctx_t`, with the names for the indices.
pub record RemoteVar : Type 0 where
  pub val_name : Bytes
  pub key_name : Bytes
  pub us_name : Bytes
  pub op : Op
  pub v0 : ℕ

-- The variable, a message, or a read behind the arguments.
pub data Declared : Type 0 where
  declared : RemoteVar → Declared
  few_arguments : Declared
  bad_name : Declared
  duplicate : Declared
  no_memory : Declared
  wild : Declared

-- A name that begins with the new one is taken for a duplicate.
unfoldable pub is_declared : List Bytes → Bytes → Bool
is_declared [] name = false
is_declared (n ∷ ns) name = strncmp_eq n name || is_declared ns name

-- The fifth word.
unfoldable pub op_of : List Bytes → Op
op_of [] = rv_set
op_of (ops ∷ rest) =
    if strncmp_eq ops (codes "decr")
    then rv_decr
    else if strncmp_eq ops (codes "incr")
    then rv_incr
    else rv_set

-- With six words or more, the default is read from the fifth one.
unfoldable pub default_of : (Bytes → ℤ) → List Bytes → ℕ
default_of atoi (ops ∷ v0s ∷ rest) = elim (atoi ops) [ pos n ↦ n | negsuc n ↦ 0 ]
default_of atoi _ = 0

-- From the names on.
unfoldable pub declare_named :
    (Bytes → ℤ) → Bool → Bool → Bytes → Bytes → List Bytes → List Bytes → Declared
declare_named atoi alloc_ctx pushed val_name key_name [] rvs = wild
declare_named atoi alloc_ctx pushed val_name key_name (us ∷ more) rvs =
    if is_declared rvs val_name
    then duplicate
    else if not alloc_ctx || not pushed
    then no_memory
    else declared (record {
      val_name = val_name;
      key_name = key_name;
      us_name = us;
      op = op_of more;
      v0 = default_of atoi more;
    })

abbrev with_names :
    (Bytes → ℤ) → Bool → Bool → Option Bytes → Option Bytes → List Bytes → List Bytes → Declared
with_names atoi alloc_ctx pushed (some v) (some k) more rvs =
    declare_named atoi alloc_ctx pushed v k more rvs
with_names atoi alloc_ctx pushed _ _ more rvs = bad_name

-- The command, with its words and the names of the variables that are declared so far.
unfoldable pub declare : (Bytes → ℤ) → Bool → Bool → List Bytes → List Bytes → Declared
declare atoi alloc_ctx pushed (command ∷ v ∷ k ∷ more) rvs =
    with_names atoi alloc_ctx pushed (var_name v) (var_name k) more rvs
declare atoi alloc_ctx pushed _ rvs = few_arguments
