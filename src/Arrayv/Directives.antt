-- ===== src/Arrayv/Directives.antt =====
-- The directives of c/ngx_http_arrayv_module/ngx_http_arrayv_module.c: array_var declares an array
-- variable, and push_array, unshift_array, pop_array, shift_array, print_array and str_to_array
-- append script codes that access it.
pub mod Script
pub mod Steps
pub mod Run
mod Tests
use ngxmp.Base.{
  ℕ, zero, suc, ◌+◌, Bool, true, false, not, ◌&&◌, ◌||◌, Option, none, some, List, [], ◌∷◌, ◌++◌,
  if◌then◌else◌, ◌==◌, same_bytes, strncmp_eq, peek, Bytes, codes, length,
}
use ngxmp.Util.Conf.{Conf, ok, message, conf_error, wild, ◌>>=◌, or_error, arg, return_if, name_of}
use ngxmp.Util.VarName.{var_name}
use ngxmp.Util.JoinX.{Lines}
use ngxmp.Arrayv.{Op, op_head, op_tail, op_list, op_str}
use ngxmp.Arrayv.Format.{ReadStr, read_lines, wrong_format, running}

-- The functions of variables: those of this module, and others by numbers.
pub data Handler : Type 0 where
  av_handler : Handler
  rewrite_var : Handler
  foreign : ℕ → Handler

-- The data of a variable: NULL, the `ngx_http_av_op_t` of an array variable with its index, which is
-- `none` where it is NGX_ERROR, or an index itself.
pub data VarData : Type 0 where
  no_data : VarData
  op_data : Option ℕ → VarData
  plain_index : ℕ → VarData

pub record Variable : Type 0 where
  pub name : Bytes
  pub get_handler : Option Handler
  pub set_handler : Option Handler
  pub own : VarData

-- `joinx`, which a directive without a format leaves as it was allocated.
pub data JoinX : Type 0 where
  unset null : JoinX
  lines : Lines → JoinX

-- `ngx_http_av_op_t`
pub record AvOp : Type 0 where
  pub op : Op
  pub index : Option ℕ
  pub joinx : JoinX
  pub del : ℕ

-- The codes that are appended: a literal text with its number, a text with variables, the call of a
-- get handler onto the stack, that of a set handler with what is on the stack, and the code of nginx
-- for an indexed variable. A handler of another module has its own data.
pub data Code : Type 0 where
  value_code : ℕ → Bytes → Code
  complex_code : Bytes → Code
  get_code : Handler → AvOp → Code
  set_code : Handler → AvOp → Code
  own_set_code : Handler → VarData → Code
  var_code : ℕ → Code

-- A name that begins with the new one is taken for a duplicate.
unfoldable pub is_array : List Variable → Bytes → Bool
is_array [] name = false
is_array (v ∷ avs) name = strncmp_eq v.name name || is_array avs name

-- What nginx gives for a name: the variable that was declared, or one of another module.
unfoldable pub add_variable : List Variable → (Bytes → Option Variable) → Bytes → Option Variable
add_variable [] other n = other n
add_variable (v ∷ avs) other n =
    let rest = add_variable avs other n in if same_bytes v.name n then some v else rest

-- `((ngx_http_av_op_t*) v->data)->index`
unfoldable op_index : VarData → Conf (Option ℕ)
op_index (op_data i) = ok i
op_index _ = wild

abbrev pub must : Bool → Conf (Unit {0})
must true = ok tt
must false = wild

abbrev pub must_push : Bool → Conf (Unit {0})
must_push true = ok tt
must_push false = conf_error

-- `name[0] != '$'`
abbrev pub dollar : Bytes → Conf Bytes
dollar a = or_error (var_name a)

-- `ngx_http_add_variable` for names that are no array variable, `ngx_http_get_variable_index`, and
-- whether a name is one of a header.
module _ (other : Bytes → Option Variable) (variable_index : Bytes → Option ℕ)
    (special : Bytes → Bool) where
  -- `ngx_http_av_array_var_command`, with the allocation of the data, which is not looked at, and
  -- the push.
  unfoldable pub array_var_command : Bool → Bool → List Variable → List Bytes → Conf (List Variable)
  unfolding name_of
  array_var_command alloc pushed avs (a ∷ []) = name_of a >>= λ n.
      return_if (is_array avs n) (codes "found duplicated AV name") >>= λ _. arg (other n) >>= λ v.
      must alloc >>= λ _.
      return_if (not pushed) (codes "pushing array_variable to main conf failed") >>= λ _. ok (
        avs
        ++ record {
          name = n;
          get_handler = some av_handler;
          set_handler = some av_handler;
          own = op_data (variable_index n);
        }
          ∷ [])
  array_var_command alloc pushed avs _ = message (codes "arguments number must  be  1")

  -- A variable without a function gets `ngx_http_rewrite_var`, unless its name is that of a header.
  -- Here it is used for the code of this directive; what it leaves for directives behind is not kept.
  unfoldable pub with_rewrite_var : Bytes → ℕ → Variable → Variable
  with_rewrite_var n i v = elim v.get_handler [
    | some h ↦ v
    | none ↦
        if special n then v else record v { get_handler = some rewrite_var; own = plain_index i }
  ]

  -- With `ngx_http_script_variables_count`, `ngx_atoi` and whether `ngx_http_script_compile` succeeds.
  module _ (variables_count : Bytes → ℕ) (atoi : Bytes → Option ℕ) (compiles : Bytes → Bool) where
    -- `ngx_http_rewrite_value`; an error of `ngx_atoi` becomes 0.
    unfoldable pub rewrite_value : Bool → Bytes → Conf Code
    rewrite_value pushed text = must_push pushed >>= λ _.
        if variables_count text == 0
        then ok (value_code (elim (atoi text) [ none ↦ 0 | some n ↦ n ]) text)
        else if compiles text
        then ok (complex_code text)
        else conf_error

    -- The delimiter of str_to_array; the first byte of a text is its terminator where it is empty.
    unfoldable pub del_of : ℕ → List Bytes → Conf ℕ
    del_of unset_del [] = ok unset_del
    del_of unset_del (d ∷ []) = ok (peek d)
    del_of unset_del _ = conf_error

    -- `ngx_http_av_in_command`, with the byte that stands in an allocated `del`, and what the
    -- allocation of the data, which is not looked at, and the two appends give.
    unfoldable pub in_command :
        Op → ℕ → Bool → Bool → Bool → List Variable → List Bytes → Conf (List Code)
    unfolding rewrite_value del_of op_index
    in_command op unset_del alloc p1 p2 avs (a ∷ text ∷ more) = dollar a >>= λ n.
        or_error (add_variable avs other n) >>= λ v. must alloc >>= λ _. op_index v.own >>= λ index.
        del_of unset_del more >>= λ del. or_error (variable_index n) >>= λ i.
        rewrite_value p1 text >>= λ c. must_push p2 >>= λ _. ok (
          c
          ∷ (elim v.set_handler [
            | some h ↦ set_code h (record { op = op; index = index; joinx = unset; del = del })
            | none ↦ var_code i
          ])
          ∷ [])
    in_command op unset_del alloc p1 p2 avs _ = wild

    -- The format of print_array. One that is wrong leaves NULL, which is only logged; `wild` stands
    -- for one that is never read to its end, too.
    unfoldable pub format_of : (Bytes → ReadStr) → List Bytes → Conf JoinX
    format_of readstr [] = ok unset
    format_of readstr (f ∷ []) = elim (readstr f) [
      | read_lines l ↦ ok (lines l)
      | wrong_format ↦ ok null
      | running ↦ wild
    ]
    format_of readstr _ = conf_error

    -- The code that takes a value from the array: none where the array has no function, which then
    -- gets one.
    unfoldable pub take_codes : Bool → Variable → AvOp → Conf (List Code)
    take_codes pushed v op = elim v.get_handler [
      | none ↦ ok []
      | some h ↦ must_push pushed >>= (λ _. ok (get_code h op ∷ []))
    ]

    -- `ngx_http_av_out_command`
    unfoldable pub out_command :
        (Bytes → ReadStr)
        → Op
        → ℕ
        → Bool
        → Bool
        → Bool
        → List Variable
        → List Bytes
        → Conf (List Code)
    unfolding format_of take_codes with_rewrite_var op_index
    out_command readstr op unset_del alloc p1 p2 avs (x ∷ a ∷ more) = dollar x >>= λ n.
        dollar a >>= λ m. must alloc >>= λ _. arg (add_variable avs other m) >>= λ array.
        op_index array.own >>= λ index. format_of readstr more >>= λ joinx.
        or_error (add_variable avs other n) >>= λ v. or_error (variable_index n) >>= λ i.
        or_error (variable_index m) >>= λ j.
        take_codes p1 (if same_bytes n m then with_rewrite_var n i v else array)
          (record { op = op; index = index; joinx = joinx; del = unset_del })
        >>= λ cs. must_push p2 >>= λ _. ok (
            cs
            ++ (elim v.set_handler [
              | some h ↦ own_set_code h (with_rewrite_var n i v).own
              | none ↦ var_code i
            ])
              ∷ [])
    out_command readstr op unset_del alloc p1 p2 avs _ = wild

    abbrev pub pop_var_command :
        (Bytes → ReadStr) → ℕ → Bool → Bool → Bool → List Variable → List Bytes → Conf (List Code)
    pop_var_command readstr = out_command readstr op_head

    abbrev pub shift_var_command :
        (Bytes → ReadStr) → ℕ → Bool → Bool → Bool → List Variable → List Bytes → Conf (List Code)
    shift_var_command readstr = out_command readstr op_tail

    abbrev pub push_var_command :
        ℕ → Bool → Bool → Bool → List Variable → List Bytes → Conf (List Code)
    push_var_command = in_command op_head

    abbrev pub unshift_var_command :
        ℕ → Bool → Bool → Bool → List Variable → List Bytes → Conf (List Code)
    unshift_var_command = in_command op_tail

    abbrev pub print_var_command :
        (Bytes → ReadStr) → ℕ → Bool → Bool → Bool → List Variable → List Bytes → Conf (List Code)
    print_var_command readstr = out_command readstr op_list

    abbrev pub str_to_var_command :
        ℕ → Bool → Bool → Bool → List Variable → List Bytes → Conf (List Code)
    str_to_var_command = in_command op_str
