-- ===== src/Arrayv/Directives/Tests.antt =====
-- The directives of c/ngx_http_arrayv_module/ngx_http_arrayv_module.c on an array $a.
use ngxmp.Base.{
  ℕ, ◌≡◌, refl, true, false, Option, none, some, List, [], ◌∷◌, if◌then◌else◌, same_bytes, set,
  Bytes, codes, strncmp_eq,
}
use ngxmp.Util.Conf.{ok, message, wild}
use ngxmp.Util.VarName.{var_name}
use ngxmp.Arrayv.{av_ctx, op_list}
use ngxmp.Arrayv.Deque.{represents, ctx_of}
use ngxmp.Arrayv.Format.{wrong_format}
use ngxmp.Arrayv.Directives.{
  av_handler, op_data, no_data, Variable, null, Code, get_code, var_code, is_array, add_variable,
  array_var_command, out_command, print_var_command,
}
use ngxmp.Arrayv.Directives.Script.{World, Machine}
use ngxmp.Arrayv.Directives.Steps.{Leaves}
use ngxmp.Arrayv.Directives.Run.{
  Directive, unshift, pop_to, all_codes, IsArray, IsPlain, exec-all_codes,
}

abbrev array : Variable
array = record {
  name = codes "a";
  get_handler = some av_handler;
  set_handler = some av_handler;
  own = op_data (some 0);
}

abbrev plain : Bytes → Option Variable
plain n = some (record { name = n; get_handler = none; set_handler = none; own = no_data })

-- $a is the variable 0, and every other name the variable 1.
abbrev variable_index : Bytes → Option ℕ
variable_index n = if same_bytes n (codes "a") then some 0 else some 1

array_var-a :
    array_var_command plain variable_index (λ n. false) true true [] (codes "$a" ∷ [])
    ≡ ok (array ∷ [])
unfolding array_var_command is_array
array_var-a = refl

-- A name is refused where a declared one begins with it.
array_var-prefix :
    array_var_command plain variable_index
      (λ n. false)
      true
      true
      (record array { name = codes "ab" } ∷ [])
      (codes "$a" ∷ [])
    ≡ message (codes "found duplicated AV name")
unfolding array_var_command is_array strncmp_eq
array_var-prefix = refl

-- An array that was not declared has no data.
out_command-plain :
    print_var_command plain variable_index
      (λ n. false)
      (λ t. 0)
      (λ t. none)
      (λ t. true)
      (λ f. wrong_format)
      0
      true
      true
      true
      []
      (codes "$x" ∷ codes "$a" ∷ [])
    ≡ wild
unfolding out_command add_variable var_name
out_command-plain = refl

-- A wrong format leaves NULL for the code that prints.
out_command-wrong :
    print_var_command plain variable_index
      (λ n. false)
      (λ t. 0)
      (λ t. none)
      (λ t. true)
      (λ f. wrong_format)
      0
      true
      true
      true
      (array ∷ [])
      (codes "$x" ∷ codes "$a" ∷ codes "?" ∷ [])
    ≡ ok (
        get_code av_handler (record { op = op_list; index = some 0; joinx = null; del = 0 })
        ∷ var_code 1
        ∷ [])
unfolding out_command add_variable var_name
out_command-wrong = refl

abbrev world : World (List Bytes)
world = record {
  script_run = λ v t. t;
  store_var = λ i x v. set v i x;
  get_foreign = λ h v. [];
  set_foreign = λ h x v. v;
  alloc = true;
  created = true;
  budget = 9;
}

abbrev machine : Machine (List Bytes)
machine = record {
  stack = codes "other" ∷ [];
  vars = [] ∷ [] ∷ [];
  arrays = λ i. some (ctx_of [] (codes "3" ∷ []) [] (codes "4" ∷ []));
}

array-IsArray :
    IsArray plain variable_index
      (λ n. false)
      (λ t. 0)
      (λ t. none)
      (λ t. true)
      (λ f. wrong_format)
      0
      (array ∷ [])
      (codes "a")
      0
      0
unfolding add_variable
array-IsArray = record {
  v = array;
  found = refl;
  get_handler = refl;
  set_handler = refl;
  own = refl;
  index = refl;
}

abbrev x_variable : Variable
x_variable = record { name = codes "x"; get_handler = none; set_handler = none; own = no_data }

plain-IsPlain :
    IsPlain plain variable_index
      (λ n. false)
      (λ t. 0)
      (λ t. none)
      (λ t. true)
      (λ f. wrong_format)
      0
      (array ∷ [])
      (codes "a")
      (codes "x")
unfolding add_variable
plain-IsPlain = record { v = x_variable; found = refl; set_handler = refl; k = 1; index = refl }

abbrev three : List Directive
three = unshift (codes "1") ∷ unshift (codes "2") ∷ pop_to (codes "x") ∷ []

exec-all_codes_example :
    (cs : List Code) × (all_codes plain variable_index
        (λ n. false)
        (λ t. 0)
        (λ t. none)
        (λ t. true)
        (λ f. wrong_format)
        0
        (array ∷ [])
        (codes "a")
        three
      ≡ ok cs)
    × Leaves world [] 0 cs machine (codes "2" ∷ codes "1" ∷ codes "4" ∷ [], [] ∷ codes "3" ∷ [])
unfolding av_ctx
exec-all_codes_example =
    exec-all_codes plain variable_index (λ n. false) (λ t. 0) (λ t. none) (λ t. true)
      (λ f. wrong_format) 0 (array ∷ []) (codes "a") 0 0 array-IsArray world [] three machine
      (codes "4" ∷ codes "3" ∷ []) (refl, (refl, (plain-IsPlain, tt)))
      (represents [] (codes "3" ∷ []) [] (codes "4" ∷ []))
