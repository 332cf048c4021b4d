-- ===== src/ListVar.antt =====
-- c/ngx_http_list_module/ngx_http_list_module.c: variables that hold a list of words, and the
-- variables that give one word of a list by its index or at random.
pub mod Words
pub mod Item
pub mod Random
pub mod Directives
mod Tests
use ngxmp.Base.{
  ℕ, zero, suc, ◌+◌, ◌-◌, ◌%◌, Bool, true, false, not, ◌&&◌, ◌||◌, Option, none, some, List, [],
  ◌∷◌, ◌==◌, if◌then◌else◌, get_elem?, set, take, drop, Bytes, codes, length,
}
use ngxmp.Util.Tokens.{next_tok}

-- `ngx_http_list_ctx_t`. `idx` is never set, and `ngx_pcalloc` has made it 0.
pub record ListCtx : Type 0 where
  pub idx : ℕ
  pub delim : ℕ
  pub raw : Bytes

-- The value of a variable: a string, or not valid.
pub data Value : Type 0 where
  valid : Bytes → Value
  invalid : Value

-- The set handler: the context keeps the string, and the variable with the index `idx` gets it.
unfoldable pub list_set : ListCtx → List Value → Bytes → ListCtx × List Value
list_set ctx variables v = (record ctx { raw = v }, set variables ctx.idx (valid v))

-- `for (i = 0; i < raw->len && delim == raw->data[i]; ++i)` on the bytes from `i` on, and
-- `while (delim == raw->data[i] && i < raw->len) ++i`, which also reads the byte behind the string
-- but stops there whatever it is.
unfoldable pub skip_delims : ℕ → Bytes → Bytes
skip_delims delim [] = []
skip_delims delim (x ∷ xs) = let rest = skip_delims delim xs in if x == delim then rest else x ∷ xs

-- The loop on the words, on the bytes from `i` on; `n` is `ii - j`.
unfoldable pub pick : ℕ → ℕ → Bytes → Bytes
pick delim n [] = []
pick delim zero (x ∷ xs) = take (next_tok delim (x ∷ xs)) (x ∷ xs)
pick delim (suc n) (x ∷ xs) =
    pick delim n (skip_delims delim (drop (next_tok delim (x ∷ xs)) (x ∷ xs)))

-- The scan from `ran - 1` down to a delimiter or -1, and the `++a` behind it. At -1 the byte in
-- front of the string is read, but the loop ends there whatever it is.
unfoldable pub scan_back : ℕ → Bytes → ℕ → ℕ
scan_back delim raw zero = 0
scan_back delim raw (suc k) =
    let rest = scan_back delim raw k in
    elim (get_elem? raw k) [ none ↦ suc k | some x ↦ if x == delim then suc k else rest ]

-- The do-while loop, on the numbers that `random` gives; `none` says that they did not suffice.
unfoldable pub rand_item : ℕ → Bytes → List ℕ → Option Bytes
rand_item delim raw [] = none
rand_item delim raw (r ∷ draws) =
    let rest = rand_item delim raw draws in
    let ran = r % length raw in
    let a = scan_back delim raw ran in
    let b = ran + next_tok delim (drop ran raw) in
    if a == b then rest else some (take (b - a) (drop a raw))

module _ (atoi : Bytes → Option ℕ) where
  -- The index that a variable holds; `ngx_atoi` fails with `none`.
  unfoldable pub item_index : Bytes → ℕ
  item_index iiv = elim (atoi iiv) [ none ↦ 0 | some n ↦ n ]

  abbrev rand_value : Option Bytes → Option Value
  rand_value none = none
  rand_value (some w) = some (valid w)

  -- `ngx_http_listitem_get_handler`; `iiv` is the index variable, or NULL. `none` is a loop that
  -- the draws did not end.
  unfoldable pub listitem_get : Bool → ListCtx → List ℕ → Option Bytes → Option Value
  listitem_get is_rand lctx draws none = some invalid
  listitem_get is_rand lctx draws (some iiv) =
      if length lctx.raw == 0
      then some (valid [])
      else if is_rand
      then rand_value (rand_item lctx.delim lctx.raw draws)
      else some (valid (pick lctx.delim (item_index iiv) (skip_delims lctx.delim lctx.raw)))

-- The delimiter that `setlist` takes, by the number of its words and the last of them; `none` is a
-- delimiter that is too long. With TAKE2 there are always three words.
unfoldable pub set_list_delim : ℕ → Bytes → Option ℕ
set_list_delim nelts [] = some b' '
set_list_delim nelts (c ∷ cs) =
    if nelts == 3 then some b' ' else if length (c ∷ cs) == 1 then some c else none
