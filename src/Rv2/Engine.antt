-- ===== src/Rv2/Engine.antt =====
-- The script codes of c/ngx_http_rv2_module/ngx_http_rv2_module.c while a request is handled: they
-- run on a stack of strings, the variables of the request and the store of memcached.
pub mod Results
pub mod Runs
mod Sample
mod Tests
pub mod Getters
pub mod Setters
pub mod RoundTrip
pub mod Increments
mod Counting
use ngxmp.Base.{
  ℕ, Bool, true, false, Option, none, some, List, [], ◌∷◌, ◌++◌, if◌then◌else◌, Bytes, ◌>>=◌,
}
use ngxmp.Rv2.{
  RvOp, rv_get, Rcs, success, bad_key, MemRc, mem_success, mem_notfound, mem_notstored, refused,
  other_rc, Rv, OpData, Lookup, at_node, no_node, divided, Run, pushed, crashed, get_mcd,
  getter_code, Call, call_set, call_add, call_increment, call_decrement, call_delete, Chosen, call,
  refuse, choose, default_number, setter_code,
}
use ngxmp.Rv2.Declare.{HashType, Declared}
use ngxmp.Rv2.Compile.{Target, SetOp, GetOp, Code, getter, setter, store, is_number}
use ngxmp.Rv2.Upstreams.{McdNode, unwritten, connected}

-- What the codes call. Of nginx: `ngx_http_script_run`, `ngx_http_get_indexed_variable` where the
-- variable is valid and not empty, the codes that store a string, `ngx_atoi`, and `snprintf` of a
-- difference. Of the module: the search for an upstream. `V` are the variables, `M` is the store of
-- all servers, `C` are the handles of the memcached library. `mc_zeroed` tells whether the pointers
-- to handles that were never written are NULL.
pub record World (V M C : Type 0) : Type 0 where
  pub script_run : V → Bytes → Option Bytes
  pub variable : V → ℕ → Option Bytes
  pub store_var : Target → Bytes → V → V
  pub atoi : Bytes → Option ℕ
  pub print_int : ℕ → ℕ → Bytes
  pub hash_func : HashType → Bytes → ℕ
  pub find_us : Bytes → Lookup (List (McdNode C))
  pub memcached_get : C → Bytes → M → MemRc × Bytes
  pub perform : C → Bytes → Call → M → (MemRc × ℕ) × M
  pub mc_zeroed : Bool

pub record Machine (V M : Type 0) : Type 0 where
  pub stack : List Bytes
  pub vars : V
  pub mem : M

-- The strings in the order in which they are pushed; the top of a stack is its head.
abbrev pub push_all : List Bytes → List Bytes → List Bytes
push_all [] sp = sp
push_all (w ∷ ws) sp = push_all ws (w ∷ sp)

-- The handle of a node, for a getter with its key. The key is looked at first; then the pointer is
-- given to memcached_get, also where no process has written it, which is a crash.
abbrev pub get_handle : {C : Type 0} → Option Bytes → Lookup (McdNode C) → Lookup C
get_handle key divided = divided
get_handle key (no_node rcs) = no_node rcs
get_handle key (at_node n) = elim n.mc [
  | unwritten ↦ elim key [ none ↦ no_node bad_key | some k ↦ divided ]
  | connected c ↦ at_node c
]

-- The same for a setter: a pointer that is NULL makes it return with the code that it began with.
-- Any other that was never written is given to the library behind the tests of the key and of the
-- value.
abbrev pub set_handle : {C : Type 0} → Bool → Option Bytes → Chosen → Lookup (McdNode C) → Lookup C
set_handle zeroed key chosen divided = divided
set_handle zeroed key chosen (no_node rcs) = no_node rcs
set_handle zeroed key chosen (at_node n) = elim n.mc [
  | unwritten ↦ if zeroed then no_node success else elim key [
    | none ↦ no_node bad_key
    | some k ↦ elim chosen [ refuse rcs ↦ no_node rcs | call f ↦ divided ]
  ]
  | connected c ↦ at_node c
]

abbrev pub is_set : Option ℕ → Bool
is_set none = false
is_set (some i) = true

module _ {V M C : Type 0} (w : World V M C) where
  -- A declared variable in a request.
  abbrev pub evaluated : V → Declared → Rv
  evaluated v d = record {
    us_name = w.script_run v d.us_name;
    hash_key = w.variable v d.hash_key_idx;
    key = w.variable v d.key_idx;
    default_val = w.script_run v d.default_val;
  }

  abbrev pub node_of : V → Declared → Lookup (McdNode C)
  node_of v d = get_mcd w.find_us (w.hash_func d.hash_type) (evaluated v d)

  -- The second call of an increment or a decrement, an addition, meets the store that the first
  -- call left.
  unfoldable pub store_before : C → Bytes → Chosen → M → Call → M
  store_before c k (call (call_increment d)) mem (call_add v) =
      (w.perform c k (call_increment d) mem).1
  store_before c k (call (call_decrement d)) mem (call_add v) =
      (w.perform c k (call_decrement d) mem).1
  store_before c k chosen mem f = mem

  unfoldable pub answer : C → Bytes → Chosen → M → Call → MemRc × ℕ
  unfolding store_before
  answer c k chosen mem f = (w.perform c k f (store_before c k chosen mem f)).0

  -- The store behind the second call.
  unfoldable pub store_default : Bool → Rv → C → Bytes → Call → MemRc → M → M
  store_default alloc rv c k f mem_notfound mem = elim rv.default_val [
    | none ↦ mem
    | some v ↦
        if alloc
        then (w.perform c k
            (call_add (default_number w.atoi w.print_int (λ g. answer c k (call f) mem g) f v))
            mem).1
        else mem
  ]
  store_default alloc rv c k f rc mem = mem

  -- The store behind all calls of a setter.
  unfoldable pub store_after : Bool → Rv → C → Bytes → Chosen → M → M
  unfolding store_default
  store_after alloc rv c k (refuse rcs) mem = mem
  store_after alloc rv c k (call (call_increment d)) mem =
      let p = w.perform c k (call_increment d) mem in
      store_default alloc rv c k (call_increment d) p.0.0 p.1
  store_after alloc rv c k (call (call_decrement d)) mem =
      let p = w.perform c k (call_decrement d) mem in
      store_default alloc rv c k (call_decrement d) p.0.0 p.1
  store_after alloc rv c k (call f) mem = (w.perform c k f mem).1

  -- The calls stand only where there are a server and a key.
  unfoldable pub answers_at : Lookup C → Rv → Chosen → M → Call → MemRc × ℕ
  unfolding answer
  answers_at (at_node c) rv chosen mem f = elim rv.key [
    | none ↦ (other_rc, 0)
    | some k ↦ answer c k chosen mem f
  ]
  answers_at _ rv chosen mem f = (other_rc, 0)

  unfoldable pub store_at : Bool → Lookup C → Rv → Chosen → M → M
  unfolding store_after
  store_at alloc (at_node c) rv chosen mem = elim rv.key [
    | none ↦ mem
    | some k ↦ store_after alloc rv c k chosen mem
  ]
  store_at alloc _ rv chosen mem = mem

  abbrev pub get_data : GetOp → OpData
  get_data op = record { optype = rv_get; vidx = true; rcidx = is_set op.rcidx; v2set = none }

  -- The value to set is the text of the directive, evaluated.
  abbrev pub script : V → Option Bytes → Option Bytes
  script v text = text >>= w.script_run v

  abbrev pub set_data : SetOp → V → OpData
  set_data op v = record {
    optype = op.optype;
    vidx = is_set op.vidx;
    rcidx = is_set op.rcidx;
    v2set = script v op.v2set;
  }

  -- By whether the one allocation of a code succeeds, and what stands in an uninitialised string.
  module _ (alloc : Bool) (stale : Bytes) where
    abbrev pub ran : Run → M → Machine V M → Option (Machine V M)
    ran crashed mem s = none
    ran (pushed ws) mem s = some (record s { stack = push_all ws s.stack; mem = mem })

    unfoldable pub run_setter : OpData → Rv → Lookup C → Machine V M → Option (Machine V M)
    unfolding answers_at store_at
    run_setter op rv l s =
        let chosen = choose w.atoi op.optype op.v2set in
        ran (setter_code w.atoi w.print_int (answers_at l rv chosen s.mem) op rv stale alloc l)
          (store_at alloc l rv chosen s.mem) s

    -- `none` is a crash: a division by zero, a pointer that was never written, or an empty stack.
    unfoldable pub exec_code : Code → Machine V M → Option (Machine V M)
    unfolding run_setter
    exec_code (getter op) s =
        ran
          (getter_code (λ c k. w.memcached_get c k s.mem) (get_data op) (evaluated s.vars op.rv)
            stale alloc (get_handle (evaluated s.vars op.rv).key (node_of s.vars op.rv)))
          s.mem s
    exec_code (setter op) s = elim op.rv [
      | none ↦ none
      | some d ↦
          let data_ = set_data op s.vars in
          let rv = evaluated s.vars d in
          run_setter data_ rv
            (set_handle w.mc_zeroed rv.key (choose w.atoi op.optype data_.v2set) (node_of s.vars d))
            s
    ]
    exec_code (store t) s = elim s.stack [
      | [] ↦ none
      | x ∷ sp ↦ some (record s { stack = sp; vars = w.store_var t x s.vars })
    ]

    unfoldable pub exec : List Code → Machine V M → Option (Machine V M)
    unfolding exec_code
    exec [] s = some s
    exec (c ∷ cs) s = elim (exec_code c s) [ none ↦ none | some s' ↦ exec cs s' ]
