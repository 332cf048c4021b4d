-- ===== src/Rv2/Tests.antt =====
-- The codes of c/ngx_http_rv2_module/ngx_http_rv2_module.c on concrete answers of memcached.
use ngxmp.Base.{
  ℕ, ◌+◌, ◌-◌, ◌≡◌, refl, Option, none, some, List, [], ◌∷◌, Bytes, codes, length, true,
}
use ngxmp.Rv2.{
  rv_incr, MemRc, mem_success, mem_notfound, Rv, OpData, at_node, pushed, Call, call_add, push_rc,
  push_str, default_number, add_default_value, get_cmd_type, find_cmd, get_mcd, get_mcd_node,
  after_get, getter_code, getter_error, getter_value, default_value, setter_vidx, choose,
  with_number, run_call, after_number, setter_code,
}
use ngxmp.Rv2.Balance.{Pushes, getter_code-Pushes, setter_code-Pushes}

abbrev rv : Rv
rv = record {
  us_name = some (codes "u");
  hash_key = some (codes "h");
  key = some (codes "k");
  default_val = some (codes "5");
}

abbrev incr : OpData
incr = record { optype = rv_incr; vidx = true; rcidx = true; v2set = some (codes "1") }

abbrev node : ℕ
node = 8

abbrev nodes : List ℕ
nodes = 7 ∷ node ∷ []

-- One digit in the place of `ngx_atoi` and of `snprintf`.
abbrev digit : Bytes → Option ℕ
digit [] = none
digit (c ∷ cs) = some (c - b'0')

abbrev print_digit : ℕ → ℕ → Bytes
print_digit a b = (a - b + b'0') ∷ []

-- A server that does not know the key and then stores it.
abbrev fresh_key : Call → MemRc × ℕ
fresh_key (call_add v) = (mem_success, 0)
fresh_key _ = (mem_notfound, 0)

get_cmd_type-incr : get_cmd_type (codes "rv_incr") ≡ rv_incr
unfolding get_cmd_type find_cmd
get_cmd_type-incr = refl

get_mcd-second : get_mcd (λ name. at_node nodes) length rv ≡ at_node node
unfolding get_mcd get_mcd_node
get_mcd-second = refl

setter_code-incr :
    setter_code digit print_digit fresh_key incr rv [] true (at_node node)
    ≡ pushed (codes "SUCCESS" ∷ codes "6" ∷ [])
unfolding setter_code choose with_number run_call after_number add_default_value default_number
    push_str push_rc
setter_code-incr = refl

getter_code-default :
    getter_code (λ n k. (mem_notfound, [])) incr rv [] true (at_node node)
    ≡ pushed (codes "NOTFOUND" ∷ codes "5" ∷ [])
unfolding getter_code after_get getter_error getter_value default_value push_rc
getter_code-default = refl

two_got : Pushes (getter_code (λ n k. (mem_notfound, [])) incr rv [] true (at_node node)) 2
two_got = getter_code-Pushes incr rv [] true (λ n k. (mem_notfound, [])) (at_node node)

two_set : Pushes (setter_code digit print_digit fresh_key incr rv [] true (at_node node)) 2
two_set =
    setter_code-Pushes incr rv [] true digit print_digit fresh_key (at_node node)
      (unfold setter_vidx in refl)
