-- ===== src/Rv2.antt =====
-- c/ngx_http_rv2_module/ngx_http_rv2_module.c: the script codes that read and write memcached while
-- a request is handled. A code pushes strings on the stack of the script engine, from which the
-- codes behind it set the variables of the return code and of the value.
pub mod Balance
pub mod Declare
mod Compile
mod Upstreams
mod Engine
mod Tests
use ngxmp.Base.{
  ℕ, zero, suc, ◌+◌, ◌%◌, Bool, true, false, not, ◌||◌, Option, none, some, List, [], ◌∷◌, ◌++◌,
  ◌==◌, ltb, if◌then◌else◌, get_elem?, drop, same_bytes, Bytes, codes, length,
}

-- `rv_op_t`
pub data RvOp : Type 0 where
  rv_unknown rv_get rv_set rv_incr rv_decr rv_add rv_delete rv_null : RvOp

-- The strings `rv2_err_...`.
pub data Rcs : Type 0 where
  success notfound notstored error connection invalid_us nosuch_us internal hashkey bad_key
        invalid_val :
      Rcs

abbrev pub rcs_text : Rcs → Bytes
rcs_text success = codes "SUCCESS"
rcs_text notfound = codes "NOTFOUND"
rcs_text notstored = codes "NOTSTORED"
rcs_text error = codes "ERROR"
rcs_text connection = codes "CONNECTION"
rcs_text invalid_us = codes "INVALID_US"
rcs_text nosuch_us = codes "NOSUCH_US"
rcs_text internal = codes "INTERNAL"
rcs_text hashkey = codes "HASHKEY"
rcs_text bad_key = codes "KEY"
rcs_text invalid_val = codes "INVALID_VAL"

abbrev pub cmd_map : List (Bytes × RvOp)
cmd_map =
    (codes "get", rv_get)
    ∷ (codes "set", rv_set)
    ∷ (codes "incr", rv_incr)
    ∷ (codes "decr", rv_decr)
    ∷ (codes "add", rv_add)
    ∷ (codes "delete", rv_delete)
    ∷ []

unfoldable pub find_cmd : List (Bytes × RvOp) → Bytes → RvOp
find_cmd [] c = rv_unknown
find_cmd ((name, op) ∷ rest) c =
    let other = find_cmd rest c in if same_bytes c name then op else other

-- `str_shift(&c, sizeof("rv_") - 1)` drops three bytes, whatever they are.
unfoldable pub get_cmd_type : Bytes → RvOp
get_cmd_type cmd = if ltb (length cmd) 3 then rv_unknown else find_cmd cmd_map (drop 3 cmd)

-- What a call of the memcached library returns; `refused` is MEMCACHED_ERRNO with ECONNREFUSED.
pub data MemRc : Type 0 where
  mem_success mem_notfound mem_notstored refused other_rc : MemRc

-- A reverse variable during a request: the evaluated name of its upstream, the variables of its
-- hash key and of its key where these are valid and not empty, and its evaluated default value.
pub record Rv : Type 0 where
  pub us_name : Option Bytes
  pub hash_key : Option Bytes
  pub key : Option Bytes
  pub default_val : Option Bytes

-- `ngx_http_rv2_op_data_t`: whether `vidx` and `rcidx` are set, and the evaluated value.
pub record OpData : Type 0 where
  pub optype : RvOp
  pub vidx : Bool
  pub rcidx : Bool
  pub v2set : Option Bytes

-- The backend of a request, an error, or the division by zero of an upstream without backends. Where
-- handles are looked up, `divided` is also a handle that cannot be used.
pub data Lookup (N : Type 0) : Type 0 where
  at_node : N → Lookup N
  no_node : Rcs → Lookup N
  divided : Lookup N

unfoldable pub get_mcd_node : {N : Type 0} → (Bytes → ℕ) → Rv → List N → Lookup N
get_mcd_node hash_func rv nodes = elim rv.hash_key [
  | none ↦ no_node hashkey
  | some h ↦ elim (get_elem? nodes (hash_func h % length nodes)) [
    | none ↦ divided
    | some n ↦ at_node n
  ]
]

-- The choice of the node in `rv2_get_mcd`; `find_us` is the search for the upstream in
-- `rv2_get_us_node`.
unfoldable pub get_mcd : {N : Type 0} → (Bytes → Lookup (List N)) → (Bytes → ℕ) → Rv → Lookup N
get_mcd find_us hash_func rv = elim rv.us_name [
  | none ↦ no_node invalid_us
  | some name ↦ elim (find_us name) [
    | divided ↦ divided
    | no_node rcs ↦ no_node rcs
    | at_node nodes ↦ get_mcd_node hash_func rv nodes
  ]
]

-- The return code is pushed where a variable takes it.
unfoldable pub push_rc : OpData → Rcs → List Bytes
push_rc rvop rcs = if rvop.rcidx then rcs_text rcs ∷ [] else []

-- `ngx_http_rv2_setter_command` sets `vidx` for incr and decr only.
unfoldable pub setter_vidx : RvOp → Bool
setter_vidx rv_incr = true
setter_vidx rv_decr = true
setter_vidx _ = false

-- What a code pushes, the first string first; `crashed` is where `divided` leads.
pub data Run : Type 0 where
  pushed : List Bytes → Run
  crashed : Run

-- `ngx_http_rv2_eval_default_value` where its result is not looked at: `stale` is what the string
-- holds if the evaluation fails.
unfoldable pub default_value : Rv → Bytes → Bytes
default_value rv stale = elim rv.default_val [ none ↦ stale | some v ↦ v ]

unfoldable pub getter_value : Rv → Bytes → Rcs → Bytes
getter_value rv stale notfound = default_value rv stale
getter_value rv stale _ = []

-- `error_return` of the getter.
unfoldable pub getter_error : OpData → Rv → Bytes → Rcs → List Bytes
getter_error rvop rv stale rcs = push_rc rvop rcs ++ getter_value rv stale rcs ∷ []

-- The branches on what `memcached_get` returned.
unfoldable pub after_get : OpData → Rv → Bytes → Bool → MemRc → Bytes → List Bytes
after_get rvop rv stale alloc mem_success val =
    if alloc then push_rc rvop success ++ val ∷ [] else getter_error rvop rv stale internal
after_get rvop rv stale alloc mem_notfound val = getter_error rvop rv stale notfound
after_get rvop rv stale alloc refused val = getter_error rvop rv stale connection
after_get rvop rv stale alloc mem_notstored val = getter_error rvop rv stale error
after_get rvop rv stale alloc other_rc val = getter_error rvop rv stale error

-- `ngx_http_rv2_getter_code` from the choice of the backend on; `memcached_get` is an argument.
unfoldable pub getter_code :
    {N : Type 0} → (N → Bytes → MemRc × Bytes) → OpData → Rv → Bytes → Bool → Lookup N → Run
getter_code memcached_get rvop rv stale alloc divided = crashed
getter_code memcached_get rvop rv stale alloc (no_node rcs) =
    pushed (getter_error rvop rv stale rcs)
getter_code memcached_get rvop rv stale alloc (at_node n) = elim rv.key [
  | none ↦ pushed (getter_error rvop rv stale bad_key)
  | some k ↦ pushed (after_get rvop rv stale alloc (memcached_get n k).0 (memcached_get n k).1)
]

unfoldable pub setter_value : Rv → Bytes → Rcs → Bytes
setter_value rv stale notstored = default_value rv stale
setter_value rv stale _ = []

-- `error_return` of the setter.
unfoldable pub setter_error : OpData → Rv → Bytes → Rcs → List Bytes
setter_error rvop rv stale rcs =
    push_rc rvop rcs ++ (if rvop.vidx then setter_value rv stale rcs ∷ [] else [])

-- `rv2_push_str`
unfoldable pub push_str : OpData → Bytes → Rcs → List Bytes
push_str rvop v rcs = push_rc rvop rcs ++ v ∷ []

-- The calls of the memcached library that a setter makes.
pub data Call : Type 0 where
  call_set : Bytes → Call
  call_add : Bytes → Call
  call_increment : ℕ → Call
  call_decrement : ℕ → Call
  call_delete : Call

pub data Chosen : Type 0 where
  call : Call → Chosen
  refuse : Rcs → Chosen

module _ (atoi : Bytes → Option ℕ) where
  -- The tests in front of the switch, and the switch.
  unfoldable pub with_number : (ℕ → Call) → Bytes → Chosen
  with_number f v = elim (atoi v) [ none ↦ refuse invalid_val | some d ↦ call (f d) ]

  unfoldable pub choose : RvOp → Option Bytes → Chosen
  choose rv_delete v = call call_delete
  choose op none = refuse internal
  choose rv_set (some v) = call (call_set v)
  choose rv_add (some v) = call (call_add v)
  choose rv_incr (some v) = with_number call_increment v
  choose rv_decr (some v) = with_number call_decrement v
  choose op (some v) = refuse internal

  module _ (print_int : ℕ → ℕ → Bytes) (answer : Call → MemRc × ℕ) where
    -- The value that is added for a key that does not exist; `print_int a b` prints `a - b`.
    unfoldable pub default_number : Call → Bytes → Bytes
    default_number (call_increment d) v = print_int (elim (atoi v) [ none ↦ 0 | some n ↦ n ] + d) 0
    default_number (call_decrement d) v = print_int (elim (atoi v) [ none ↦ 0 | some n ↦ n ]) d
    default_number _ v = print_int (elim (atoi v) [ none ↦ 0 | some n ↦ n ]) 0

    abbrev pub added : OpData → Bytes → Bytes → MemRc → List Bytes
    added rvop v num mem_success = push_str rvop num success
    added rvop v num mem_notstored = push_str rvop v notstored
    added rvop v num _ = push_str rvop v internal

    -- `rv2_add_default_value`, and `error_return` where it fails.
    unfoldable pub add_default_value : OpData → Rv → Bytes → Bool → Call → List Bytes
    add_default_value rvop rv stale alloc c = elim rv.default_val [
      | none ↦ setter_error rvop rv stale internal
      | some v ↦
          if alloc
          then added rvop v (default_number c v) (answer (call_add (default_number c v))).0
          else setter_error rvop rv stale internal
    ]

    -- `rv2_push_i`, and `error_return` where it fails.
    unfoldable pub push_i : OpData → Rv → Bytes → Bool → ℕ → List Bytes
    push_i rvop rv stale alloc ival =
        if alloc
        then push_str rvop (print_int ival 0) success
        else setter_error rvop rv stale internal

    -- The branches behind an increment or a decrement, and behind the other calls.
    unfoldable pub after_number : OpData → Rv → Bytes → Bool → Call → MemRc → ℕ → List Bytes
    after_number rvop rv stale alloc c refused ival = setter_error rvop rv stale connection
    after_number rvop rv stale alloc c mem_success ival = push_i rvop rv stale alloc ival
    after_number rvop rv stale alloc c mem_notfound ival = add_default_value rvop rv stale alloc c
    after_number rvop rv stale alloc c _ ival = setter_error rvop rv stale error

    unfoldable pub after_store : OpData → Rv → Bytes → MemRc → List Bytes
    after_store rvop rv stale refused = setter_error rvop rv stale connection
    after_store rvop rv stale mem_success = push_rc rvop success
    after_store rvop rv stale mem_notstored = setter_error rvop rv stale notstored
    after_store rvop rv stale _ = setter_error rvop rv stale error

    unfoldable pub run_call : OpData → Rv → Bytes → Bool → Chosen → List Bytes
    run_call rvop rv stale alloc (refuse rcs) = setter_error rvop rv stale rcs
    run_call rvop rv stale alloc (call (call_increment d)) =
        after_number rvop rv stale alloc (call_increment d) (answer (call_increment d)).0
          (answer (call_increment d)).1
    run_call rvop rv stale alloc (call (call_decrement d)) =
        after_number rvop rv stale alloc (call_decrement d) (answer (call_decrement d)).0
          (answer (call_decrement d)).1
    run_call rvop rv stale alloc (call c) = after_store rvop rv stale (answer c).0

    -- `ngx_http_rv2_setter_code` from the choice of the backend on.
    unfoldable pub setter_code : {N : Type 0} → OpData → Rv → Bytes → Bool → Lookup N → Run
    setter_code rvop rv stale alloc divided = crashed
    setter_code rvop rv stale alloc (no_node rcs) = pushed (setter_error rvop rv stale rcs)
    setter_code rvop rv stale alloc (at_node n) = elim rv.key [
      | none ↦ pushed (setter_error rvop rv stale bad_key)
      | some k ↦ pushed (run_call rvop rv stale alloc (choose rvop.optype rvop.v2set))
    ]
