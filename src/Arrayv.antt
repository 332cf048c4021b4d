-- ===== src/Arrayv.antt =====
-- c/ngx_http_arrayv_module/ngx_http_arrayv_module.c: array variables. A variable holds two arrays
-- that each grow at the end; `pop` takes the head end of the sequence and `sft` the tail end.
pub mod Slots
pub mod Deque
pub mod Listing
pub mod Sequence
pub mod Printing
pub mod Format
pub mod Directives
mod Tests
use ngxmp.Base.{
  ℕ, zero, suc, ◌+◌, ◌-◌, Bool, true, false, ◌&&◌, Option, none, some, List, [], ◌∷◌, ◌++◌, ◌==◌,
  ltb, leb, if◌then◌else◌, get_elem?, set, take, drop, Bytes, length, map, ◌%◌,
}
use ngxmp.Util.Join.{Joined, joined, join_error, join_crash}
use ngxmp.Util.JoinX.{Lines, array_join_x, step_of}
use ngxmp.Util.Tokens.{Token, str_to_array}

-- `ngx_http_av_elt`. `start` and `end` are one more than the source's, which begin at -1. The
-- elements are the bytes of the values; the copies that are made of them are not told apart.
pub record Elt : Type 0 where
  pub arr : List Bytes
  pub size : ℕ
  pub start : ℕ
  pub end : ℕ

-- `ngx_http_av_vctx_t`
pub record Ctx : Type 0 where
  pub pop : Elt
  pub sft : Elt

-- The values of `op` in `ngx_http_av_op_t`.
pub data Op : Type 0 where
  op_default op_head op_tail op_list op_str : Op

-- What a get handler gives: a value, the null value, NGX_ERROR, NGX_OK with `*v` as it was, or
-- `wild`, an access outside the elements of an array.
pub data Got : Type 0 where
  got : Bytes → Ctx → Got
  null_value : Ctx → Got
  get_error : Ctx → Got
  untouched : Ctx → Got
  wild : Got

abbrev pub empty_elt : Elt
empty_elt = record { arr = []; size = 0; start = 0; end = 0 }

-- The context that the first access of a request makes.
unfoldable pub av_ctx : Option Ctx → Ctx
av_ctx none = record { pop = empty_elt; sft = empty_elt }
av_ctx (some ctx) = ctx

-- `arg[i]`, where `i` is one more than the index.
abbrev pub elt_at : List Bytes → ℕ → Option Bytes
elt_at xs zero = none
elt_at xs (suc i) = get_elem? xs i

-- A value is taken at `end`: the branches in which the own array is not empty.
unfoldable pub take_end : Elt → Elt
take_end e = record {
  arr = take (length e.arr - 1) e.arr;
  size = e.size - 1;
  start = if e.size == 1 then e.start - 1 else e.start;
  end = e.end - 1;
}

-- A value is taken at `start`: the branches in which only the other array is not empty.
unfoldable pub take_start : Elt → Elt
take_start e =
    if e.size == 1
    then record {
      arr = take (length e.arr - 1) e.arr;
      size = 0;
      start = e.start - 1;
      end = e.end - 1;
    }
    else record { arr = e.arr; size = e.size - 1; start = e.start + 1; end = e.end }

abbrev give : Option Bytes → Ctx → Got
give none ctx = wild
give (some x) ctx = got x ctx

-- The get handler for OP_HEAD.
unfoldable pub get_head : Ctx → Got
get_head ctx =
    if ctx.pop.size == 0
    then if ctx.sft.size == 0
      then null_value ctx
      else give (elt_at ctx.sft.arr ctx.sft.start) (record ctx { sft = take_start ctx.sft })
    else give (elt_at ctx.pop.arr ctx.pop.end) (record ctx { pop = take_end ctx.pop })

-- The get handler for OP_TAIL.
unfoldable pub get_tail : Ctx → Got
get_tail ctx =
    if ctx.sft.size == 0
    then if ctx.pop.size == 0
      then null_value ctx
      else give (elt_at ctx.pop.arr ctx.pop.start) (record ctx { pop = take_start ctx.pop })
    else give (elt_at ctx.sft.arr ctx.sft.end) (record ctx { sft = take_end ctx.sft })

-- `ngx_array_push` and the counters behind it.
unfoldable pub push_end : Elt → Bytes → Elt
push_end e x = record {
  arr = e.arr ++ x ∷ [];
  size = e.size + 1;
  start = if e.size == 0 then e.start + 1 else e.start;
  end = e.end + 1;
}

-- `arg[--start] = x` of the array, or an access in front of it.
unfoldable pub put_start : Elt → Bytes → Option Elt
put_start e x =
    if leb e.start 1
    then none
    else if ltb (e.start - 2) (length e.arr)
    then some (record e { arr = set e.arr (e.start - 2) x; start = e.start - 1 })
    else none

abbrev with_pop : (Elt → Ctx) → Option Elt → Option Ctx
with_pop f none = none
with_pop f (some e) = some (f e)

-- The set handler for OP_HEAD, and one round of OP_STR. The front of `sft` has room, but the value
-- is put in front of `pop`. `none` is an access in front of the array.
unfoldable pub set_head : Ctx → Bytes → Option Ctx
set_head ctx x =
    if ctx.pop.size == 0 && (ltb 0 ctx.sft.size && ltb 1 ctx.sft.start)
    then with_pop (λ e. record { pop = e; sft = record ctx.sft { size = ctx.sft.size + 1 } })
        (put_start ctx.pop x)
    else some (record ctx { pop = push_end ctx.pop x })

-- The set handler for OP_TAIL.
unfoldable pub set_tail : Ctx → Bytes → Option Ctx
set_tail ctx x =
    if ctx.sft.size == 0 && (ltb 0 ctx.pop.size && ltb 1 ctx.pop.start)
    then with_pop (λ e. record ctx { pop = record e { size = ctx.pop.size + 1 } })
        (put_start ctx.pop x)
    else some (record ctx { sft = push_end ctx.sft x })

-- The loop of OP_STR.
unfoldable pub set_all : Ctx → List Bytes → Option Ctx
set_all ctx [] = some ctx
set_all ctx (x ∷ xs) = elim (set_head ctx x) [ none ↦ none | some ctx' ↦ set_all ctx' xs ]

-- A token of `str_to_array` in the value.
abbrev token_bytes : Bytes → Token → Bytes
token_bytes v t = take t.size (drop t.at v)

-- The set handler for OP_STR: where `str_to_array` fails, nothing is set.
unfoldable pub set_str : Bool → ℕ → ℕ → Ctx → Bytes → Option Ctx
set_str created budget del ctx v = elim (str_to_array created budget del v) [
  | none ↦ some ctx
  | some ts ↦ set_all ctx (map (token_bytes v) ts)
]

-- The two loops of OP_LIST: `size` elements of `sft` from `end` downwards, and of `pop` from
-- `start` upwards.
unfoldable pub list_down : List Bytes → ℕ → ℕ → Option (List Bytes)
list_down arr curr zero = some []
list_down arr curr (suc k) = elim (elt_at arr curr) [
  | none ↦ none
  | some x ↦ elim (list_down arr (curr - 1) k) [ none ↦ none | some xs ↦ some (x ∷ xs) ]
]

unfoldable pub list_up : List Bytes → ℕ → ℕ → Option (List Bytes)
list_up arr curr zero = some []
list_up arr curr (suc k) = elim (elt_at arr curr) [
  | none ↦ none
  | some x ↦ elim (list_up arr (curr + 1) k) [ none ↦ none | some xs ↦ some (x ∷ xs) ]
]

-- The array of all values, or an access outside the elements.
unfoldable pub list_all : Ctx → Option (List Bytes)
list_all ctx = elim (list_down ctx.sft.arr ctx.sft.end ctx.sft.size) [
  | none ↦ none
  | some xs ↦ elim (list_up ctx.pop.arr ctx.pop.start ctx.pop.size) [
    | none ↦ none
    | some ys ↦ some (xs ++ ys)
  ]
]

-- `temparr->nelts -= temparr->nelts % step`
unfoldable pub cut_list : ℕ → List Bytes → List Bytes
cut_list step xs = take (length xs - length xs % step) xs

abbrev pub give_joined : Ctx → Joined → Got
give_joined ctx (joined w) = got w ctx
give_joined ctx join_error = get_error ctx
give_joined ctx join_crash = wild

-- The get handler for OP_LIST; a `step` of 0 is a division by zero.
unfoldable pub get_list : Bool → Lines → Ctx → Got
get_list allocated f ctx =
    if ctx.sft.size + ctx.pop.size == 0
    then get_error ctx
    else if f.step == 0
    then wild
    else elim (list_all ctx) [
      | none ↦ wild
      | some xs ↦ give_joined ctx (array_join_x allocated f (map some (cut_list f.step xs)))
    ]

-- `ngx_http_av_get_handler`
unfoldable pub get_handler : Bool → Lines → Op → Option Ctx → Got
get_handler allocated f op_head stored = get_head (av_ctx stored)
get_handler allocated f op_tail stored = get_tail (av_ctx stored)
get_handler allocated f op_list stored = get_list allocated f (av_ctx stored)
get_handler allocated f _ stored = untouched (av_ctx stored)

-- `ngx_http_av_set_handler`
unfoldable pub set_handler : Bool → ℕ → ℕ → Op → Option Ctx → Bytes → Option Ctx
set_handler created budget del op_head stored v = set_head (av_ctx stored) v
set_handler created budget del op_tail stored v = set_tail (av_ctx stored) v
set_handler created budget del op_str stored v = set_str created budget del (av_ctx stored) v
set_handler created budget del _ stored v = some (av_ctx stored)
