-- ===== src/Arrayv/Directives/Script.antt =====
-- The script codes of c/ngx_http_arrayv_module/ngx_http_arrayv_module.c while a request is handled:
-- they run on a stack of values, the variables of the request and the contexts of its arrays.
use ngxmp.Base.{ℕ, Bool, Option, none, some, List, [], ◌∷◌, if◌then◌else◌, ◌==◌, Bytes}
use ngxmp.Util.JoinX.{Lines}
use ngxmp.Arrayv.{
  op_default, Ctx, Got, got, null_value, get_error, untouched, wild, get_handler, set_handler,
}
use ngxmp.Arrayv.Directives.{
  Handler, av_handler, rewrite_var, foreign, VarData, op_data, JoinX, unset, lines, AvOp, Code,
  value_code, complex_code, get_code, set_code, own_set_code, var_code,
}

-- What the codes call of nginx and of other modules: the value of a text with variables, the code
-- that stores a value in an indexed variable, and the handlers of other modules. `alloc` and
-- `created` tell whether the list and the array of a split value can be allocated, and `budget` how
-- many strings the latter takes.
pub record World (V : Type 0) : Type 0 where
  pub script_run : V → Bytes → Bytes
  pub store_var : ℕ → Bytes → V → V
  pub get_foreign : ℕ → V → Bytes
  pub set_foreign : ℕ → Bytes → V → V
  pub alloc : Bool
  pub created : Bool
  pub budget : ℕ

-- The contexts are kept by the index of the array variable.
pub record Machine (V : Type 0) : Type 0 where
  pub stack : List Bytes
  pub vars : V
  pub arrays : ℕ → Option Ctx

abbrev pub update : (ℕ → Option Ctx) → ℕ → Ctx → ℕ → Option Ctx
update f i c j = if j == i then some c else f j

-- OP_LIST alone reads `opindex->joinx`. With a step of 0 it gives `wild`, which is what comes of a
-- pointer that is NULL or was never written.
abbrev pub lines_of : JoinX → Lines
lines_of (lines l) = l
lines_of _ = record {
  step = 0;
  head = none;
  tail = none;
  lhead = none;
  ltail = none;
  ldel = none;
  dels = none;
}

module _ {V : Type 0} (w : World V) (stale : Bytes) where
  -- What the call of a get handler leaves in the slot on top of the stack; where it fails, or does
  -- nothing, that is what stood there before. `none` is an access outside an array.
  abbrev pub pushed : ℕ → Got → Machine V → Option (Machine V)
  pushed i wild s = none
  pushed i (got x c) s = some (record s { stack = x ∷ s.stack; arrays = update s.arrays i c })
  pushed i (null_value c) s = some (record s { stack = [] ∷ s.stack; arrays = update s.arrays i c })
  pushed i (get_error c) s =
      some (record s { stack = stale ∷ s.stack; arrays = update s.arrays i c })
  pushed i (untouched c) s =
      some (record s { stack = stale ∷ s.stack; arrays = update s.arrays i c })

  abbrev pub kept : ℕ → List Bytes → Option Ctx → Machine V → Option (Machine V)
  kept i sp none s = none
  kept i sp (some c) s = some (record s { stack = sp; arrays = update s.arrays i c })

  -- `ngx_http_script_var_get_handler_code`
  unfoldable pub run_get : Handler → AvOp → Machine V → Option (Machine V)
  run_get av_handler op s = elim op.index [
    | none ↦ none
    | some i ↦ pushed i (get_handler w.alloc (lines_of op.joinx) op.op (s.arrays i)) s
  ]
  run_get rewrite_var op s = some (record s { stack = [] ∷ s.stack })
  run_get (foreign h) op s = some (record s { stack = w.get_foreign h s.vars ∷ s.stack })

  -- `ngx_http_script_var_set_handler_code` of nginx takes the value from the stack.
  unfoldable pub run_set : Handler → AvOp → Bytes → List Bytes → Machine V → Option (Machine V)
  run_set av_handler op x sp s = elim op.index [
    | none ↦ none
    | some i ↦ kept i sp (set_handler w.created w.budget op.del op.op (s.arrays i) x) s
  ]
  run_set rewrite_var op x sp s = some (record s { stack = sp })
  run_set (foreign h) op x sp s = some (record s { stack = sp; vars = w.set_foreign h x s.vars })

  -- The data that `ngx_http_av_array_var_command` gives a variable have an op of 0, which is none of
  -- the operations and has no branch, as OP_DEFAULT.
  unfoldable pub run_own : Handler → VarData → Bytes → List Bytes → Machine V → Option (Machine V)
  unfolding run_set
  run_own h (op_data i) x sp s =
      run_set h (record { op = op_default; index = i; joinx = unset; del = 0 }) x sp s
  run_own h _ x sp s = elim h [
    | av_handler ↦ none
    | h' ↦ run_set h' (record { op = op_default; index = none; joinx = unset; del = 0 }) x sp s
  ]

  unfoldable pub exec_code : Code → Machine V → Option (Machine V)
  unfolding run_get run_own
  exec_code (value_code n text) s = some (record s { stack = text ∷ s.stack })
  exec_code (complex_code text) s = some (record s { stack = w.script_run s.vars text ∷ s.stack })
  exec_code (get_code h op) s = run_get h op s
  exec_code (set_code h op) s = elim s.stack [ [] ↦ none | x ∷ sp ↦ run_set h op x sp s ]
  exec_code (own_set_code h d) s = elim s.stack [ [] ↦ none | x ∷ sp ↦ run_own h d x sp s ]
  exec_code (var_code i) s = elim s.stack [
    | [] ↦ none
    | x ∷ sp ↦ some (record s { stack = sp; vars = w.store_var i x s.vars })
  ]

  unfoldable pub exec : List Code → Machine V → Option (Machine V)
  unfolding exec_code
  exec [] s = some s
  exec (c ∷ cs) s = elim (exec_code c s) [ none ↦ none | some s' ↦ exec cs s' ]
