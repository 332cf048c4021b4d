-- ===== src/ListVar/Directives.antt =====
-- The directives setlist, getitem and getranditem of c/ngx_http_list_module/ngx_http_list_module.c,
-- on the variables that nginx keeps by their names, and the accesses that use what they leave.
pub mod Linked
mod Tests
use ngxmp.Base.{
  ℕ, ◌+◌, Bool, true, false, not, Option, none, some, List, [], ◌∷◌, if◌then◌else◌, same_bytes,
  strncmp_eq, Bytes, codes, length, map,
}
use ngxmp.Util.Conf.{Conf, ok, message, wild, ◌>>=◌, or_message, return_if, name_of}
use ngxmp.Util.VarName.{lower}
use ngxmp.ListVar.{ListCtx, Value, invalid, list_set, listitem_get, set_list_delim}

-- `ngx_http_listitem_ctx_t`. `list`, a pointer to a variable, is the name it is kept under, or NULL, and an
-- index is `none` where it is NGX_ERROR.
pub record ItemCtx : Type 0 where
  pub vi : Option ℕ
  pub ii : Option ℕ
  pub list : Option Bytes
  pub is_rand : Bool

pub data Handler : Type 0 where
  list_handler item_handler : Handler
  foreign : ℕ → Handler

pub data VarData : Type 0 where
  no_data : VarData
  list_data : ListCtx → VarData
  item_data : ItemCtx → VarData
  foreign_data : ℕ → VarData

pub record Variable : Type 0 where
  pub get_handler : Option Handler
  pub set_handler : Option Handler
  pub own : VarData

abbrev pub Variables : Type 0
Variables = List (Bytes × Variable)

unfoldable pub find : Variables → Bytes → Option Variable
find [] m = none
find ((k, v) ∷ xs) m = let rest = find xs m in if same_bytes m k then some v else rest

unfoldable pub put : Variables → Bytes → Variable → Variables
put [] n v = (n, v) ∷ []
put ((k, w) ∷ xs) n v =
    let rest = put xs n v in if same_bytes k n then (k, v) ∷ xs else (k, w) ∷ rest

-- A variable where there was none.
abbrev pub or_fresh : Option Variable → Variable
or_fresh none = record { get_handler = none; set_handler = none; own = no_data }
or_fresh (some v) = v

-- nginx keeps a variable under its name in small letters.
abbrev pub key_of : Bytes → Bytes
key_of n = map lower n

abbrev pub must : Bool → Conf (Unit {0})
must true = ok tt
must false = wild

-- The names for which `ngx_http_add_variable` gives a variable, the one of the name or a new one: NULL
-- comes of a variable that cannot be changed, and of memory that is not given.
module _ (changeable : Bytes → Bool) where
  -- `ngx_http_set_list_command`, on the arguments behind the name of the directive; `alloc` is for
  -- the context. The variable is written to without a test for NULL.
  unfoldable pub set_list_command : Bool → Variables → List Bytes → Conf Variables
  unfolding name_of set_list_delim
  set_list_command alloc xs [] = message (codes "not enough list arguments")
  set_list_command alloc xs (a ∷ []) = name_of a >>= λ _. wild
  set_list_command alloc xs (a ∷ d ∷ more) = name_of a >>= λ n.
      or_message (codes "delimiter too long") (set_list_delim (3 + length more) d) >>= λ delim.
      must (changeable n) >>= λ _. return_if (not alloc) (codes "alloc ctx failed") >>= λ _. ok (
        put xs (key_of n) (record {
          get_handler = some list_handler;
          set_handler = some list_handler;
          own = list_data (record { idx = 0; delim = delim; raw = [] });
        }))

  module _ (variable_index : Bytes → Option ℕ) where
    -- The variable of the list is there from now on; its name, or NULL.
    abbrev pub with_list : Variables → Bytes → Variables
    with_list xs l = if changeable l then put xs (key_of l) (or_fresh (find xs (key_of l))) else xs

    abbrev pub list_of : Bytes → Option Bytes
    list_of l = if changeable l then some (key_of l) else none

    -- What `ngx_http_list_getitem_command` leaves for the variable `v`, the list `l` and the index
    -- `i`, where there is a variable `v`.
    unfoldable pub link : Bytes → Variables → Bytes → Bytes → Bytes → Variables
    link cmd xs v l i =
        let k = key_of v in
        let xs1 = put xs k (record (or_fresh (find xs k)) { get_handler = some item_handler }) in
        let xs2 = with_list xs1 l in
        put xs2 k (record (or_fresh (find xs2 k)) {
          own = item_data (record {
            vi = variable_index v;
            ii = variable_index i;
            list = list_of l;
            is_rand = strncmp_eq cmd (codes "getranditem");
          });
        })

    -- `ngx_http_list_getitem_command`, with the name of the directive.
    unfoldable pub getitem_command : Bool → Bytes → Variables → List Bytes → Conf Variables
    unfolding name_of link
    getitem_command alloc cmd xs (a ∷ b ∷ c ∷ []) = name_of a >>= λ v. name_of b >>= λ l.
        name_of c >>= λ i. must (changeable v) >>= λ _. must alloc >>= λ _. ok (link cmd xs v l i)
    getitem_command alloc cmd xs _ = message (codes "not enough arguments, need 3")

-- What nginx does for a value that is set: it calls the set handler with the variable's data, which
-- are those of the time of the directive that sets it, so no setlist may follow that one. `none` is a handler that is given the data of something else, or the handler of another module.
unfoldable pub set_variable :
    Variables → List Value → Bytes → Bytes → Option (Variables × List Value)
unfolding list_set
set_variable xs values n text = elim (find xs (key_of n)) [
  | none ↦ none
  | some v ↦ elim v.set_handler [
    | some list_handler ↦ elim v.own [
      | list_data ctx ↦
          let done = list_set ctx values text in
          some (put xs (key_of n) (record v { own = list_data done.0 }), done.1)
      | _ ↦ none
    ]
    | _ ↦ none
  ]
]

abbrev variable_at : Variables → Option Bytes → Option Variable
variable_at xs none = none
variable_at xs (some l) = find xs l

module _ (atoi : Bytes → Option ℕ) where
  -- `ngx_http_listitem_get_handler`, from the data of the variable on. The outer `none` is an access
  -- to data that are no list, the inner one a loop that the draws do not end.
  unfoldable pub get_item :
      Variables → (Option ℕ → Option Bytes) → List ℕ → ItemCtx → Option (Option Value)
  unfolding listitem_get
  get_item xs value_of draws ctx = elim (value_of ctx.ii) [
    | none ↦ some (some invalid)
    | some iiv ↦ elim (variable_at xs ctx.list) [
      | none ↦ none
      | some v ↦ elim v.own [
        | list_data lctx ↦ some (listitem_get atoi ctx.is_rand lctx draws (some iiv))
        | _ ↦ none
      ]
    ]
  ]

  unfoldable pub get_variable :
      Variables → (Option ℕ → Option Bytes) → List ℕ → Bytes → Option (Option Value)
  unfolding get_item
  get_variable xs value_of draws n = elim (find xs (key_of n)) [
    | none ↦ none
    | some v ↦ elim v.get_handler [
      | some item_handler ↦ elim v.own [ item_data ctx ↦ get_item xs value_of draws ctx | _ ↦ none ]
      | _ ↦ none
    ]
  ]
