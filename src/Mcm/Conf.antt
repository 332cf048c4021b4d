-- ===== src/Mcm/Conf.antt =====
-- The configuration of a location in
-- c/ngx_http_memcached_more_module/ngx_http_memcached_more_module.c: how it is created, what
-- memcached_pass sets in it, and how it is merged with that of the enclosing block.
pub mod Merged
pub mod Passing
mod Tests
use Prim.Native.Nat.{bit_and}
use ngxmp.Base.{
  ℕ, Bool, true, false, not, Option, none, some, List, [], ◌∷◌, if◌then◌else◌, ◌==◌, Bytes, codes,
  length,
}
use ngxmp.Util.Conf.{Conf, ok, message, conf_error, wild, ◌>>=◌, or_error, arg, return_if}

-- `ngx_http_mcm_loc_conf_t`, of the fields of `upstream` that are not hard-coded. A value that is
-- NGX_CONF_UNSET in its type is `none`, and so is a NULL `upstream`.
pub record LocConf : Type 0 where
  pub connect_timeout : Option ℕ
  pub send_timeout : Option ℕ
  pub read_timeout : Option ℕ
  pub buffer_size : Option ℕ
  pub next_upstream : ℕ
  pub upstream : Option ℕ
  pub schema : Bytes
  pub prefix_index : Option ℕ
  pub suffix_index : Option ℕ
  pub key_index : Option ℕ
  pub value_index : Option ℕ

abbrev pub empty_conf : LocConf
empty_conf = record {
  connect_timeout = none;
  send_timeout = none;
  read_timeout = none;
  buffer_size = none;
  next_upstream = 0;
  upstream = none;
  schema = [];
  prefix_index = none;
  suffix_index = none;
  key_index = none;
  value_index = none;
}

-- `ngx_http_mcm_create_loc_conf`; `none` is NGX_CONF_ERROR.
unfoldable pub create_loc_conf : Bool → Option LocConf
create_loc_conf alloc = if alloc then some empty_conf else none

-- `NGX_HTTP_UPSTREAM_FT_OFF`
abbrev pub ft_off : ℕ
ft_off = 2147483648

-- `NGX_CONF_BITMASK_SET | NGX_HTTP_UPSTREAM_FT_OFF`
abbrev pub off_alone : ℕ
off_alone = 2147483649

-- `NGX_CONF_BITMASK_SET | NGX_HTTP_UPSTREAM_FT_ERROR | NGX_HTTP_UPSTREAM_FT_TIMEOUT`
abbrev pub default_masks : ℕ
default_masks = 7

-- `ngx_conf_merge_msec_value` and `ngx_conf_merge_size_value`
abbrev pub merge_value : Option ℕ → Option ℕ → ℕ → Option ℕ
merge_value (some c) prev default = some c
merge_value none (some p) default = some p
merge_value none none default = some default

-- `ngx_conf_merge_bitmask_value`
abbrev pub merge_bitmask : ℕ → ℕ → ℕ → ℕ
merge_bitmask c prev default = if c == 0 then (if prev == 0 then default else prev) else c

abbrev pub without_others : ℕ → ℕ
without_others m = if bit_and m ft_off == 0 then m else off_alone

-- `if (conf->key_index == NGX_CONF_UNSET) { conf->key_index = prev->key_index; }`
abbrev pub inherit {ℓ} : {A : Type ℓ} → Option A → Option A → Option A
inherit none prev = prev
inherit (some i) prev = some i

abbrev pub inherit_schema : Option ℕ → Bytes → Bytes → Bytes
inherit_schema none own prev = prev
inherit_schema (some u) own prev = own

-- `ngx_http_mcm_merge_loc_conf`, with `ngx_pagesize`.
unfoldable pub merge_loc_conf : ℕ → LocConf → LocConf → LocConf
merge_loc_conf pagesize prev conf = record {
  connect_timeout = merge_value conf.connect_timeout prev.connect_timeout 60000;
  send_timeout = merge_value conf.send_timeout prev.send_timeout 60000;
  read_timeout = merge_value conf.read_timeout prev.read_timeout 60000;
  buffer_size = merge_value conf.buffer_size prev.buffer_size pagesize;
  next_upstream =
      without_others (merge_bitmask conf.next_upstream prev.next_upstream default_masks);
  upstream = inherit conf.upstream prev.upstream;
  schema = inherit_schema conf.upstream conf.schema prev.schema;
  prefix_index = inherit conf.prefix_index prev.prefix_index;
  suffix_index = inherit conf.suffix_index prev.suffix_index;
  key_index = inherit conf.key_index prev.key_index;
  value_index = inherit conf.value_index prev.value_index;
}

-- What memcached_pass leaves: the configuration, `clcf->auto_redirect`, and the data of the variable
-- $memcached_prefix, which is -1 for `none`. `clcf->handler` is `ngx_http_mcm_handler`.
pub record Passed : Type 0 where
  pub conf : LocConf
  pub auto_redirect : Bool
  pub prefix_data : Option ℕ

-- `clcf->name.data[clcf->name.len - 1]`
abbrev pub last_byte : Bytes → Conf ℕ
last_byte [] = wild
last_byte (b ∷ []) = ok b
last_byte (b ∷ c ∷ s) = last_byte (c ∷ s)

abbrev pub with_pass : ℕ → ℕ → ℕ → ℕ → LocConf → LocConf
with_pass u key prefix suffix conf = record conf {
  upstream = some u;
  schema = codes "memcached://";
  key_index = some key;
  prefix_index = some prefix;
  suffix_index = some suffix;
}

-- `v->set_handler = value_set_handler`, where $memcached_prefix is there.
abbrev pub reached : Bool → Conf (Unit {0})
reached true = ok tt
reached false = wild

-- `ngx_http_mcm_pass` for a location, with what `auto_redirect` was, and with
-- `ngx_http_upstream_add`, whether `ngx_http_add_variable` gives $memcached_prefix, and
-- `ngx_http_get_variable_index`.
module _ (upstream_add : Bytes → Option ℕ) (added : Bool) (variable_index : Bytes → Option ℕ) where
  unfoldable pub pass : Bytes → Bool → LocConf → Bytes → Conf Passed
  pass name redirect conf url =
      return_if (not (length conf.schema == 0)) (codes "is duplicate") >>= λ _.
      or_error (upstream_add url) >>= λ u. last_byte name >>= λ b. reached added >>= λ _.
      or_error (variable_index (codes "memcached_key")) >>= λ key.
      or_error (variable_index (codes "memcached_prefix")) >>= λ prefix.
      or_error (variable_index (codes "memcached_suffix")) >>= λ suffix. ok (record {
        conf = with_pass u key prefix suffix conf;
        auto_redirect = if b == b'/' then true else redirect;
        prefix_data = variable_index (codes "memcached_prefix");
      })

-- `ngx_http_mcm_get_ctx` and the handlers of $memcached_prefix. `ctx->pre` is `none` in a context
-- as it was allocated.
abbrev pub get_ctx : Bool → Option (Option Bytes) → Option (Option Bytes)
get_ctx alloc (some ctx) = some ctx
get_ctx alloc none = if alloc then some none else none

-- `none` is a write through NULL.
unfoldable pub value_set_handler : Bool → Option (Option Bytes) → Bytes → Option (Option Bytes)
value_set_handler alloc ctx text = elim (get_ctx alloc ctx) [
  | none ↦ none
  | some c ↦ some (some text)
]

-- `none` is a read through NULL, and `some none` a value whose pointer and length were never
-- written.
unfoldable pub value_get_handler : Bool → Option (Option Bytes) → Option (Option Bytes)
value_get_handler alloc ctx = get_ctx alloc ctx

-- The directives memcached_upstream_max_fails and memcached_upstream_fail_timeout.
abbrev pub max_fails_unsupported : Conf LocConf
max_fails_unsupported = conf_error

abbrev pub fail_timeout_unsupported : Conf LocConf
fail_timeout_unsupported = conf_error
