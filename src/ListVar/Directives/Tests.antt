-- ===== src/ListVar/Directives/Tests.antt =====
-- A list $l and its item $v, of c/ngx_http_list_module/ngx_http_list_module.c.
use ngxmp.Base.{ℕ, ◌≡◌, refl, true, false, Option, none, some, [], ◌∷◌, Bytes, codes}
use ngxmp.Util.Conf.{message, wild, name_of}
use ngxmp.Util.VarName.{var_name}
use ngxmp.ListVar.{set_list_delim}
use ngxmp.ListVar.Directives.{set_list_command, getitem_command}

-- The index is the number of bytes.
abbrev atoi : Bytes → Option ℕ
atoi [] = none
atoi (b ∷ bs) = some 1

abbrev value_of : Option ℕ → Option Bytes
value_of none = none
value_of (some n) = some (codes "1")

abbrev index_of : Bytes → Option ℕ
index_of n = some 3

-- A name without its dollar.
getitem-dollar :
    getitem_command
      (λ n. true)
      index_of
      true
      (codes "getitem")
      []
      (codes "v" ∷ codes "$l" ∷ codes "$i" ∷ [])
    ≡ message (codes "found invalid variable name")
unfolding getitem_command name_of var_name
getitem-dollar = refl

-- A list of nginx's own variable that cannot be changed is written through NULL.
uri_is_null : set_list_command (λ n. false) true [] (codes "$uri" ∷ codes "," ∷ []) ≡ wild
unfolding set_list_command name_of var_name set_list_delim
uri_is_null = refl
