-- ===== src/Repl/Conf.antt =====
-- The directive repl of c/ngx_http_repl_module/ngx_http_repl_module.c, the configuration of a
-- location, and the variables that the handler reads by it.
use ngxmp.Base.{ℕ, ◌≡◌, refl, Option, none, some, Bytes, codes, ◌>>=◌}
use ngxmp.Util.Append.{text}
use ngxmp.Repl.{Vars}

-- `ngx_http_repl_loc_conf_t`; `none` is NGX_CONF_UNSET, and NGX_ERROR, which is the same number.
pub record LocConf : Type 0 where
  pub list_index : Option ℕ
  pub list_dlm_index : Option ℕ
  pub rep_pre_index : Option ℕ
  pub rep_suf_index : Option ℕ
  pub rep_ptn_index : Option ℕ
  pub rep_dlm_index : Option ℕ

-- `ngx_http_create_loc_conf`, where memory is given.
abbrev pub create_loc_conf : LocConf
create_loc_conf = record {
  list_index = none;
  list_dlm_index = none;
  rep_pre_index = none;
  rep_suf_index = none;
  rep_ptn_index = none;
  rep_dlm_index = none;
}

-- `ngx_http_repl_command`, with `ngx_http_get_variable_index`; it makes `ngx_http_repl_handler` the
-- handler of the location.
unfoldable pub repl_command : (Bytes → Option ℕ) → LocConf → LocConf
repl_command variable_index lcf = record lcf {
  list_index = variable_index (codes "list");
  list_dlm_index = variable_index (codes "list_delimiter");
  rep_pre_index = variable_index (codes "replace_prefix");
  rep_suf_index = variable_index (codes "replace_suffix");
  rep_ptn_index = variable_index (codes "replace_pattern");
  rep_dlm_index = variable_index (codes "replace_delimiter");
}

-- `ngx_conf_merge_value(c, p, NGX_CONF_UNSET)`
abbrev pub merge_index : Option ℕ → Option ℕ → Option ℕ
merge_index none p = p
merge_index (some i) p = some i

-- `ngx_http_merge_loc_conf`, with the configuration of the enclosing block first.
unfoldable pub merge_loc_conf : LocConf → LocConf → LocConf
merge_loc_conf p c = record {
  list_index = merge_index c.list_index p.list_index;
  list_dlm_index = merge_index c.list_dlm_index p.list_dlm_index;
  rep_pre_index = merge_index c.rep_pre_index p.rep_pre_index;
  rep_suf_index = merge_index c.rep_suf_index p.rep_suf_index;
  rep_ptn_index = merge_index c.rep_ptn_index p.rep_ptn_index;
  rep_dlm_index = merge_index c.rep_dlm_index p.rep_dlm_index;
}

-- The variables of a request that `ngx_http_repl_handler` reads, with `ngx_http_get_flushed_variable`
-- and the byte behind the pattern; `none` is the index -1, which lies outside the array of variables,
-- or a variable that is NULL. A value is itself `none` where its data are NULL.
unfoldable pub read_vars : (ℕ → Option (Option Bytes)) → ℕ → LocConf → Option Vars
read_vars flushed past lcf = lcf.list_index >>= flushed >>= λ list.
    lcf.list_dlm_index >>= flushed >>= λ dlm. lcf.rep_pre_index >>= flushed >>= λ pre.
    lcf.rep_suf_index >>= flushed >>= λ suf. lcf.rep_ptn_index >>= flushed >>= λ ptn.
    lcf.rep_dlm_index >>= flushed >>= λ rep_dlm. some (record {
      list = text list;
      list_delimiter = text dlm;
      replace_prefix = text pre;
      replace_suffix = text suf;
      replace_pattern = ptn;
      replace_delimiter = text rep_dlm;
      past = past;
    })

-- The variables by their names.
abbrev pub named_vars : (Bytes → Option Bytes) → ℕ → Vars
named_vars value past = record {
  list = text (value (codes "list"));
  list_delimiter = text (value (codes "list_delimiter"));
  replace_prefix = text (value (codes "replace_prefix"));
  replace_suffix = text (value (codes "replace_suffix"));
  replace_pattern = value (codes "replace_pattern");
  replace_delimiter = text (value (codes "replace_delimiter"));
  past = past;
}

-- By the configuration of a location with repl, inside any block, and by that of a block inside it, a
-- request reads the six variables by their names, where each name has an index and each variable a
-- value.
pub read_vars-repl_command :
    (variable_index : Bytes → Option ℕ) (flushed : ℕ → Option (Option Bytes)) (past : ℕ)
    (p c : LocConf) (index : Bytes → ℕ) (value : Bytes → Option Bytes)
    → ((n : Bytes) → variable_index n ≡ some (index n))
    → flushed (index (codes "list")) ≡ some (value (codes "list"))
    → flushed (index (codes "list_delimiter")) ≡ some (value (codes "list_delimiter"))
    → flushed (index (codes "replace_prefix")) ≡ some (value (codes "replace_prefix"))
    → flushed (index (codes "replace_suffix")) ≡ some (value (codes "replace_suffix"))
    → flushed (index (codes "replace_pattern")) ≡ some (value (codes "replace_pattern"))
    → flushed (index (codes "replace_delimiter")) ≡ some (value (codes "replace_delimiter"))
    → let m = merge_loc_conf p (repl_command variable_index c) in
      (read_vars flushed past m ≡ some (named_vars value past))
      × (read_vars flushed past (merge_loc_conf m create_loc_conf) ≡ some (named_vars value past))
unfolding read_vars merge_loc_conf repl_command
read_vars-repl_command variable_index flushed past p c index value h h1 h2 h3 h4 h5 h6 =
    rw
      (
        h (codes "list"),
        h (codes "list_delimiter"),
        h (codes "replace_prefix"),
        h (codes "replace_suffix"),
        h (codes "replace_pattern"),
        h (codes "replace_delimiter"),
        h1,
        h2,
        h3,
        h4,
        h5,
        h6,
      )
      (refl, refl)
