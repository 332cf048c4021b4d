-- ===== src/Rv2/Engine/Tests.antt =====
-- The directives of c/ngx_http_rv2_module/ngx_http_rv2_module.c on a small configuration: an
-- upstream with one server, the variable $v that is declared on it, and the variables $x and $rc.
use ngxmp.Base.{
  ℕ, ◌≡◌, refl, true, false, Option, none, some, List, [], ◌∷◌, ◌++◌, if◌then◌else◌, get_elem?,
  same_bytes, Bytes, codes,
}
use ngxmp.HashTable.{hash_find, chain_find, chain_walk}
use ngxmp.Rv2.{get_mcd, get_mcd_node, get_cmd_type, find_cmd}
use ngxmp.Util.Conf.{ok, wild, name_of, message}
use ngxmp.Rv2.Declare.{
  Declared, find, if_exists, read_option, read_options, default_options, hash_method, declare,
  dec_command,
}
use ngxmp.Rv2.Declare.Names.{Distinct, find-dec_command}
use ngxmp.Rv2.Compile.{
  with_get_handler, by_index, Code, in_place, getter_command, setter_command, make_var, take_value,
  take_rv,
}
use ngxmp.Rv2.Upstreams.{McdNode, unwritten, MainConf, post_conf, find_us}
use ngxmp.Rv2.Upstreams.Found.{find_us-post_conf, found_in, nodes_of}
use ngxmp.Rv2.Engine.{Machine, exec}
use ngxmp.Rv2.Engine.RoundTrip.{Reaches, get-set}
use ngxmp.Rv2.{
  rv_incr, bad_key, Lookup, at_node, no_node, divided, choose, with_number, setter_code, run_call,
  after_number, add_default_value, default_number, push_str, push_rc,
}
use ngxmp.Rv2.Compile.{
  Made, SetOp, getter, setter, store, add_var, rc_name, rc_var, rc_code, code_set_gen,
}
use ngxmp.Rv2.Engine.{
  evaluated, node_of, get_handle, run_setter, answers_at, store_at, store_default,
}
use ngxmp.Rv2.Engine.Results.{get_result}
use ngxmp.Rv2.Engine.Runs.{finish}
use ngxmp.Rv2.Engine.Getters.{getter_rc, exec-getter_command}
use ngxmp.Rv2.Engine.Setters.{exec-moved}
use ngxmp.Rv2.Engine.Sample.{
  key_of, memory, variable_index, add_variable, v, upstreams, main, Store, world, machine, rc,
}

dec_command-v :
    dec_command (λ t. true) variable_index memory [] (codes "rv_dec" ∷ codes "$v" ∷ [])
    ≡ ok (v ∷ [])
unfolding dec_command declare default_options hash_method if_exists read_options read_option
dec_command-v = refl

dec_command-twice :
    dec_command (λ t. true) variable_index memory (v ∷ []) (codes "rv_dec" ∷ codes "$v" ∷ [])
    ≡ message (codes "duplicate rv name declared")
unfolding dec_command if_exists
dec_command-twice = refl

find-dec_command_example :
    (rv : Declared) × (get_elem? (codes "rv_dec" ∷ codes "$v" ∷ []) 1 ≡ some (b'$' ∷ rv.name))
    × ((n : Bytes) → find (v ∷ []) n ≡ (if same_bytes n rv.name then some rv else find [] n))
    × Distinct (v ∷ [])
find-dec_command_example =
    find-dec_command (λ t. true) variable_index memory [] (v ∷ [])
      (codes "rv_dec" ∷ codes "$v" ∷ []) dec_command-v tt

find_us-post_conf_example :
    (m : MainConf ℕ) × (post_conf key_of true (λ _. true) true (λ _. true) upstreams ≡ some m)
    × ((name : Bytes) → find_us key_of m name ≡ found_in (nodes_of upstreams) name)
find_us-post_conf_example = find_us-post_conf key_of upstreams

reaches : Reaches world [] machine v (codes "5") 97 (codes "key") (codes "5")
unfolding main find_us hash_find chain_find chain_walk get_mcd get_mcd_node
reaches = record { addr = codes "a"; node = refl; key = refl; value = refl }

get-set_example :
    (cs : List Code) × (ds : List Code) × (setter_command add_variable variable_index
        (v ∷ [])
        true
        (λ t. true)
        in_place
        in_place
        in_place
        (codes "rv_set")
        (codes "$v" ∷ codes "5" ∷ [])
      ≡ ok cs)
    × (getter_command add_variable variable_index
          (v ∷ [])
          in_place
          in_place
          in_place
          (codes "$x" ∷ codes "$v" ∷ [])
        ≡ ok ds)
    × (exec world true [] (cs ++ ds) machine
        ≡ some (record machine {
          vars = codes "key" ∷ codes "5" ∷ [] ∷ [];
          mem = (codes "key", codes "5") ∷ [];
        }))
unfolding make_var main find name_of with_get_handler
get-set_example =
    get-set world [] machine v (codes "5") 97 (codes "key") (codes "5") reaches add_variable
      variable_index (v ∷ []) (λ t. true) (codes "x") (codes "v") (1, by_index (some 1)) refl refl
      refl refl

rc_read : getter_rc add_variable variable_index (v ∷ []) in_place (codes "$rc" ∷ []) ≡ ok (some rc)
unfolding name_of add_var with_get_handler rc_name rc_var rc_code code_set_gen
rc_read = refl

-- The codes of `rv_get $x $v $rc`.
abbrev get_codes : List Code
get_codes =
    getter (record { vidx = 1; rcidx = some 2; rv = v })
    ∷ store (by_index (some 1))
    ∷ store (by_index (some 2))
    ∷ []

get_made :
    getter_command add_variable variable_index
      (v ∷ [])
      in_place
      in_place
      in_place
      (codes "$x" ∷ codes "$v" ∷ codes "$rc" ∷ [])
    ≡ ok get_codes
unfolding getter_command name_of find with_get_handler
get_made = refl

exec-getter_command_example :
    (n : Bytes) × (rv : Declared) × (m : Made) × (mrc : Option Made) × (name_of (codes "$v") ≡ ok n)
    × (find (v ∷ []) n ≡ some rv)
    × (make_var add_variable variable_index in_place (codes "$x") ≡ ok m)
    × (getter_rc add_variable variable_index (v ∷ []) in_place (codes "$rc" ∷ []) ≡ ok mrc)
    × ((s : Machine (List Bytes) Store)
        → exec world true [] get_codes s
          ≡ finish world
              (some m)
              mrc
              s.mem
              (get_result
                (evaluated world s.vars rv)
                []
                true
                (λ c k. world.memcached_get c k s.mem)
                (get_handle (evaluated world s.vars rv).key (node_of world s.vars rv)))
              s)
exec-getter_command_example =
    exec-getter_command add_variable variable_index (v ∷ []) world true [] in_place in_place
      in_place (codes "$x") (codes "$v") (codes "$rc" ∷ []) get_codes get_made

-- The codes of `rv_incr $x $v 1 $rc`.
abbrev incr_op : SetOp
incr_op = record {
  optype = rv_incr;
  vidx = some 1;
  rcidx = some 2;
  rv = some v;
  v2set = some (codes "1");
}

abbrev incr_args : List Bytes
incr_args = codes "$x" ∷ codes "$v" ∷ codes "1" ∷ codes "$rc" ∷ []

abbrev incr_codes : SetOp → List Code
incr_codes op = setter op ∷ store (by_index (some 1)) ∷ store (by_index (some 2)) ∷ []

incr_made :
    setter_command add_variable variable_index
      (v ∷ [])
      true
      (λ t. true)
      in_place
      in_place
      in_place
      (codes "rv_incr")
      incr_args
    ≡ ok (incr_codes incr_op)
unfolding setter_command find_cmd name_of find with_get_handler
incr_made = refl

-- The same directive where the array of codes moves: the code that is run holds no variable.
abbrev lost_op : SetOp
lost_op = record { optype = rv_incr; vidx = some 1; rcidx = none; rv = none; v2set = none }

exec-moved_example : exec world true [] (incr_codes lost_op) machine ≡ none
unfolding setter_command find_cmd name_of find with_get_handler
exec-moved_example =
    exec-moved add_variable variable_index (v ∷ []) true (λ t. true) world true [] in_place in_place
      (codes "rv_incr") incr_args (incr_codes lost_op) refl refl machine

-- A directive with one argument too few, which its declaration lets through.
set_alone :
    setter_command add_variable variable_index
      (v ∷ [])
      true
      (λ t. true)
      in_place
      in_place
      in_place
      (codes "rv_set")
      (codes "$v" ∷ [])
    ≡ wild
unfolding setter_command get_cmd_type find_cmd take_value take_rv name_of find
set_alone = refl

-- The expression of a setter in memory that is not zero.
set_stale :
    setter_command add_variable variable_index
      (v ∷ [])
      false
      (λ t. true)
      in_place
      in_place
      in_place
      (codes "rv_set")
      (codes "$v" ∷ codes "5" ∷ [])
    ≡ wild
unfolding setter_command get_cmd_type find_cmd take_value take_rv name_of find
set_stale = refl

-- Before a process connects, a getter whose key is not valid pushes the error; with a valid key it
-- follows a pointer that was never written.
abbrev unconnected : Lookup (McdNode ℕ)
unconnected = at_node (record { addr = codes "a"; mc = unwritten })

unconnected_key : get_handle none unconnected ≡ no_node bad_key
unconnected_key = refl

unconnected_crash : get_handle (some (codes "key")) unconnected ≡ divided
unconnected_crash = refl

-- `rv_incr $x $v 1 $rc` on a missing key adds the default, which is no number, and 1.
incr_missing :
    exec world true [] (incr_codes incr_op) machine
    ≡ some (record machine {
      vars = codes "key" ∷ codes "1" ∷ codes "SUCCESS" ∷ [];
      mem = (codes "key", codes "1") ∷ [];
    })
unfolding exec main find_us hash_find chain_find chain_walk get_mcd get_mcd_node choose with_number
    run_setter setter_code run_call after_number add_default_value default_number push_str push_rc
    answers_at store_at store_default
incr_missing = refl
