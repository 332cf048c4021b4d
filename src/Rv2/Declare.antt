-- ===== src/Rv2/Declare.antt =====
-- `ngx_http_rv2_dec_command` of c/ngx_http_rv2_module/ngx_http_rv2_module.c, the directive rv_dec
-- that declares a reverse variable, and the searches in the declared variables.
pub mod Names
use ngxmp.Base.{
  ℕ, suc, ◌+◌, Bool, true, false, not, ◌&&◌, Option, none, some, List, [], ◌∷◌, ◌++◌, if◌then◌else◌,
  take, drop, ltb, same_bytes, starts_with, Bytes, codes, length, get_elem?,
}
use ngxmp.Util.Conf.{Conf, ok, message, wild, ◌>>=◌, or_message, return_if, name_of}

-- HASH_CRC32 and HASH_CRC32_SHORT; each comes with its function.
pub data HashType : Type 0 where
  crc32 crc32_short : HashType

-- `ngx_http_rv2_t` as it is declared: the expressions for the upstream and for the default are
-- given by their texts.
pub record Declared : Type 0 where
  pub name : Bytes
  pub us_name : Bytes
  pub key_idx : ℕ
  pub hash_type : HashType
  pub hash_key_idx : ℕ
  pub default_val : Bytes

-- `ngx_http_rv2_if_exists`
unfoldable pub if_exists : List Declared → Bytes → Bool
if_exists [] name = false
if_exists (rv ∷ rvs) name =
    let rest = if_exists rvs name in if same_bytes name rv.name then true else rest

-- `ngx_http_rv2_get_index`; NGX_ERROR is `none`. The count is from `i`.
unfoldable pub get_index : ℕ → List Declared → Bytes → Option ℕ
get_index i [] name = none
get_index i (rv ∷ rvs) name =
    let rest = get_index (i + 1) rvs name in if same_bytes name rv.name then some i else rest

-- `ngx_http_rv2_find`
unfoldable pub find : List Declared → Bytes → Option Declared
find [] name = none
find (rv ∷ rvs) name = let rest = find rvs name in if same_bytes name rv.name then some rv else rest

-- `ngx_http_script_compile` on an expression in memory that was not cleared. It follows the pointers
-- to the codes where they are not NULL, so that the call is safe only if that memory was zero; then
-- it succeeds or not, by the text.
unfoldable pub script_compile : Bool → (Bytes → Bool) → Bytes → Bytes → Conf Bytes
script_compile zeroed compiles text m =
    if zeroed then (if compiles text then ok text else message m) else wild

-- Whether the memory of the declared variable was zero, whether the five allocations succeed, and
-- what stands in memory behind the buffers of 64 bytes.
pub record Memory : Type 0 where
  pub zeroed : Bool
  pub rv : Bool
  pub usname : Bool
  pub keyname : Bool
  pub hash_key : Bool
  pub behind_usname : Bytes
  pub behind_keyname : Bytes
  pub behind_hash_key : Bytes

-- `s.len = snprintf(s.data, 64, ...)`: the length is that of the whole text, also where it was cut.
unfoldable pub printed : Bytes → Bytes → Bytes
printed behind text =
    if ltb (length text) 64 then text else take (length text) (take 63 text ++ 0 ∷ behind)

pub record Options : Type 0 where
  pub usname : Bytes
  pub keyname : Bytes
  pub hash : Bytes
  pub hash_key : Bytes
  pub default_val : Bytes
  pub hash_set : Bool

-- The values before the arguments are read.
unfoldable pub default_options : Memory → Bytes → Options
unfolding printed
default_options m name = record {
  usname = printed m.behind_usname (name ++ codes "_us");
  keyname = printed m.behind_keyname (name ++ codes "_key");
  hash = codes "crc32";
  hash_key = printed m.behind_hash_key (name ++ codes "_key");
  default_val = codes "NULL";
  hash_set = false;
}

-- One pass of the loop over the arguments; an unknown argument is skipped.
unfoldable pub read_option : Options → Bytes → Conf Options
unfolding name_of
read_option o a =
    if starts_with (codes "upstream=") a
    then ok (record o { usname = drop 9 a })
    else if starts_with (codes "key=") a
    then name_of (drop 4 a) >>= (λ n. ok (record o { keyname = n }))
    else if starts_with (codes "hash=") a
    then ok (record o { hash = drop 5 a })
    else if starts_with (codes "hash_key=") a
    then name_of (drop 9 a) >>= (λ n. ok (record o { hash_key = n; hash_set = true }))
    else if starts_with (codes "default=") a
    then ok (record o { default_val = drop 8 a })
    else ok o

unfoldable pub read_options : Options → List Bytes → Conf Options
read_options o [] = ok o
read_options o (a ∷ args) = read_option o a >>= λ o'. read_options o' args

-- The hash key is the key, unless an argument gives another.
unfoldable pub hash_key_name : Options → Bytes
hash_key_name o = if o.hash_set then o.hash_key else o.keyname

unfoldable pub hash_method : Bytes → Conf HashType
hash_method hash =
    if same_bytes hash (codes "crc32")
    then ok crc32
    else if same_bytes hash (codes "crc32_short")
    then ok crc32_short
    else message (codes "unsupported hash method")

-- Which texts compile, and `ngx_http_get_variable_index`.
module _ (compiles : Bytes → Bool) (variable_index : Bytes → Option ℕ) where
  -- The variable that the options describe.
  unfoldable pub declare : Bool → Bytes → Options → Conf Declared
  unfolding hash_key_name script_compile
  declare zeroed name o =
      script_compile zeroed compiles o.usname (codes "parse upstream name expression failed")
      >>= λ us.
          or_message (codes "key name variable is not set") (variable_index o.keyname) >>= λ k.
          hash_method o.hash >>= λ h.
          or_message (codes "hash key variable is not set") (variable_index (hash_key_name o))
          >>= λ hk.
              script_compile zeroed compiles o.default_val
                (codes "parsing default value expression failed")
              >>= λ d. ok (record {
                name = name;
                us_name = us;
                key_idx = k;
                hash_type = h;
                hash_key_idx = hk;
                default_val = d;
              })

  -- The texts for the names are allocated. That of the hash key is not looked at before it is
  -- written through.
  unfoldable pub alloc_names : Memory → Bytes → Conf Options
  alloc_names m name =
      return_if (not (m.usname && m.keyname)) (codes "allocating buffers failed") >>= λ _.
      if m.hash_key then ok (default_options m name) else wild

  -- The steps behind the name. A variable that is pushed and then fails stays behind only in a
  -- configuration that nginx gives up.
  unfoldable pub dec_named : Memory → List Declared → Bytes → List Bytes → Conf (List Declared)
  unfolding alloc_names
  dec_named m rvs name args =
      return_if (if_exists rvs name) (codes "duplicate rv name declared") >>= λ _.
      return_if (not m.rv) (codes "allocating rv context failed") >>= λ _.
      alloc_names m name >>= λ o.
      read_options o args >>= λ o'. declare m.zeroed name o' >>= λ rv. ok (rvs ++ rv ∷ [])

  -- The arguments from the name of the directive on.
  unfoldable pub dec_command : Memory → List Declared → List Bytes → Conf (List Declared)
  unfolding name_of dec_named
  dec_command m rvs (cmd ∷ v ∷ args) = name_of v >>= λ name. dec_named m rvs name args
  dec_command m rvs _ = message (codes "require at least 1 argument")
