-- ===== src/Rv2/Compile.antt =====
-- The directives of c/ngx_http_rv2_module/ngx_http_rv2_module.c that append script codes: rv_get,
-- and rv_set, rv_incr, rv_decr, rv_add and rv_delete.
use ngxmp.Base.{
  ℕ, Bool, true, false, ◌&&◌, ◌||◌, Option, none, some, List, [], ◌∷◌, ◌++◌, if◌then◌else◌, ◌==◌,
  Bytes, codes,
}
use ngxmp.Rv2.{RvOp, rv_unknown, rv_incr, rv_decr, rv_delete, get_cmd_type}
use ngxmp.Util.Conf.{Conf, ok, conf_error, wild, ◌>>=◌, or_error, return_if, name_of}
use ngxmp.Util.VarName.{lower}
use ngxmp.Rv2.Declare.{Declared, find, script_compile}

-- A variable that nginx gives out: its functions are numbers, those of other modules and the one
-- that rv2 sets, `ngx_http_rv2_unreachable_get_handler`.
pub data GetHandler : Type 0 where
  foreign : ℕ → GetHandler
  unreachable : GetHandler

pub record Variable : Type 0 where
  pub name : Bytes
  pub get_handler : Option GetHandler
  pub set_handler : Option ℕ
  pub value : Option ℕ

-- The codes of nginx that take a string from the stack: by the function of a variable with its
-- data, or by the index of a variable, where NGX_ERROR is `none`.
pub data Target : Type 0 where
  by_handler : ℕ → Option ℕ → Target
  by_index : Option ℕ → Target

-- `ngx_http_rv2_op_data_t` in the code of a setter, with NGX_CONF_UNSET as `none`. `rv` and `v2set`,
-- the text of the value, are `none` where nothing was written to the code that is run.
pub record SetOp : Type 0 where
  pub optype : RvOp
  pub vidx : Option ℕ
  pub rcidx : Option ℕ
  pub rv : Option Declared
  pub v2set : Option Bytes

-- A getter is all written before the next code is appended.
pub record GetOp : Type 0 where
  pub vidx : ℕ
  pub rcidx : Option ℕ
  pub rv : Declared

pub data Code : Type 0 where
  getter : GetOp → Code
  setter : SetOp → Code
  store : Target → Code

-- `ngx_http_script_start_code`: the array of codes stays in its place, or moves to a larger one.
pub data Push : Type 0 where
  failed in_place moved : Push

abbrev pub started : Push → Conf (Unit {0})
started failed = conf_error
started in_place = ok tt
started moved = ok tt

-- `value_of[i]` for the arguments in their order; no directive looks whether there is another.
abbrev pub first : List Bytes → Conf (Bytes × List Bytes)
first [] = wild
first (a ∷ args) = ok (a, args)

-- `ngx_strncasecmp(name, prefix, strlen(prefix)) == 0`
abbrev pub has_prefix : Bytes → Bytes → Bool
has_prefix [] s = true
has_prefix (x ∷ xs) [] = false
has_prefix (x ∷ xs) (y ∷ ys) = lower y == x && has_prefix xs ys

unfoldable pub is_special : Bytes → Bool
is_special n =
    has_prefix (codes "http_") n
    || has_prefix (codes "sent_http_") n
    || has_prefix (codes "upstream_http_") n

-- A variable that no module has declared gets a function.
unfoldable pub with_get_handler : Bytes → Option ℕ → Variable → Variable
unfolding is_special
with_get_handler n index v = elim v.get_handler [
  | some h ↦ v
  | none ↦ if is_special n then v else record v { get_handler = some unreachable; value = index }
]

abbrev pub is_number : RvOp → Bool
is_number rv_incr = true
is_number rv_decr = true
is_number _ = false

abbrev pub is_unknown : RvOp → Bool
is_unknown rv_unknown = true
is_unknown _ = false

abbrev pub is_delete : RvOp → Bool
is_delete rv_delete = true
is_delete _ = false

-- What was made for a variable: its index, and the code that takes a string for it.
abbrev pub Made : Type 0
Made = ℕ × Target

abbrev pub made_index : Option Made → Option ℕ
made_index none = none
made_index (some m) = some m.0

abbrev pub made_codes : Option Made → List Code
made_codes none = []
made_codes (some m) = store m.1 ∷ []

-- `ngx_http_add_variable` and `ngx_http_get_variable_index`.
module _ (add_variable : Bytes → Option Variable) (variable_index : Bytes → Option ℕ) where
  -- `ngx_http_rv2_add_var`; an index of NGX_ERROR makes each caller give up.
  unfoldable pub add_var : Bytes → Option (ℕ × Variable)
  add_var n = elim (add_variable n) [
    | none ↦ none
    | some v ↦ elim (variable_index n) [
      | none ↦ none
      | some i ↦ some (i, with_get_handler n (some i) v)
    ]
  ]

  -- `ngx_http_rv2_code_set_gen`
  unfoldable pub code_set_gen : Push → Variable → Conf Target
  code_set_gen p v = started p >>= λ _. ok (elim v.set_handler [
    | some h ↦ by_handler h v.value
    | none ↦ by_index (variable_index v.name)
  ])

  -- A variable by its argument, and the code behind.
  unfoldable pub make_var : Push → Bytes → Conf Made
  unfolding add_var code_set_gen
  make_var p a =
      name_of a >>= λ n. or_error (add_var n) >>= λ v. code_set_gen p v.1 >>= λ t. ok (v.0, t)

  -- An argument for the return code is read where there are three, and used where its name is not
  -- empty.
  unfoldable pub rc_name : List Bytes → Conf Bytes
  rc_name (a ∷ []) = name_of a
  rc_name _ = ok []

  unfoldable pub rc_var : Bytes → Conf (Option (ℕ × Variable))
  rc_var [] = ok none
  rc_var (c ∷ cs) = or_error (add_var (c ∷ cs)) >>= λ v. ok (some v)

  unfoldable pub rc_code : Push → Option (ℕ × Variable) → Conf (Option Made)
  rc_code p none = ok none
  rc_code p (some v) = code_set_gen p v.1 >>= λ t. ok (some (v.0, t))

  module _ (rvs : List Declared) where
    -- The codes that `ngx_http_rv2_getter_command` appends, by what the three appends do.
    unfoldable pub getter_command : Push → Push → Push → List Bytes → Conf (List Code)
    unfolding add_var code_set_gen rc_name rc_var rc_code
    getter_command p1 p2 p3 args = first args >>= λ a. name_of a.0 >>= λ val. first a.1 >>= λ b.
        name_of b.0 >>= λ rvname. rc_name b.1 >>= λ rcname. or_error (add_var val) >>= λ v.
        started p1 >>= λ _. or_error (find rvs rvname) >>= λ rv. rc_var rcname >>= λ rcv.
        code_set_gen p2 v.1 >>= λ t. rc_code p3 rcv >>= λ rc.
        ok
          (getter (record { vidx = v.0; rcidx = made_index rc; rv = rv }) ∷ store t ∷ made_codes rc)

    -- The first argument of incr and decr.
    unfoldable pub take_value : Push → RvOp → List Bytes → Conf (Option Made × List Bytes)
    unfolding make_var
    take_value p op args =
        if is_number op
        then first args >>= (λ a. make_var p a.0 >>= λ m. ok (some m, a.1))
        else ok (none, args)

    unfoldable pub take_rv : List Bytes → Conf (Declared × List Bytes)
    take_rv args =
        first args >>= λ a. name_of a.0 >>= λ n. or_error (find rvs n) >>= λ rv. ok (rv, a.1)

    -- The value, whose text `ngx_http_script_compile` takes; a deletion has none. The expression
    -- lies in the new code, whose memory may be zero or not.
    unfoldable pub take_v2set :
        Bool → (Bytes → Bool) → RvOp → List Bytes → Conf (Option Bytes × List Bytes)
    unfolding script_compile
    take_v2set zeroed compiles op args =
        if is_delete op
        then ok (none, args)
        else first args >>= (λ a.
          script_compile zeroed compiles a.0 (codes "parse value_to_set expression failed") >>= λ t.
          ok (some t, a.1))

    -- A further argument is the variable of the return code; more are not looked at.
    unfoldable pub take_rc : Push → List Bytes → Conf (Option Made)
    unfolding make_var
    take_rc p [] = ok none
    take_rc p (a ∷ args) = make_var p a >>= λ m. ok (some m)

    -- What stands in the code that is run. Where the array moved when the code of the value was
    -- appended, all that is written behind it goes to the old array.
    unfoldable pub written : Push → RvOp → Option Made → SetOp → SetOp
    written moved op (some m) whole = record {
      optype = op;
      vidx = some m.0;
      rcidx = none;
      rv = none;
      v2set = none;
    }
    written p op m whole = whole

    -- `ngx_http_rv2_setter_command`, by the name of the directive.
    unfoldable pub setter_command :
        Bool → (Bytes → Bool) → Push → Push → Push → Bytes → List Bytes → Conf (List Code)
    unfolding take_value take_rv take_v2set take_rc written get_cmd_type
    setter_command zeroed compiles p1 p2 p3 cmd args =
        let op = get_cmd_type cmd in
        return_if (is_unknown op) (codes "illegal command name") >>= λ _. started p1 >>= λ _.
        take_value p2 op args >>= λ a. take_rv a.1 >>= λ b.
        take_v2set zeroed compiles op b.1 >>= λ c. take_rc p3 c.1 >>= λ rc. ok (
          setter (
              written p2 op a.0 (record {
                optype = op;
                vidx = made_index a.0;
                rcidx = made_index rc;
                rv = some b.0;
                v2set = c.0;
              }))
            ∷ made_codes a.0
          ++ made_codes rc)
