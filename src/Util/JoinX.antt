-- ===== src/Util/JoinX.antt =====
-- `array_join_x` of c/ngx_util/ngx_util.h: the items are joined in lines of `step` items. An item
-- whose data is NULL and whose length is 0 is `none`.
pub mod Line
pub mod Whole
pub mod Room
use ngxmp.Base.{
  ℕ, zero, suc, ◌+◌, ◌-◌, ◌*◌, ◌/◌, ◌%◌, Bool, true, false, not, Option, none, some, List, [], ◌∷◌,
  ◌==◌, if◌then◌else◌, get_elem?, Bytes, length,
}
use ngxmp.Util.Append.{Cursor, cursor, crashed, append_str, text}
use ngxmp.Util.Join.{Joined, join_error, join_crash, finish}

pub record Lines : Type 0 where
  pub step : ℕ
  pub head : Option Bytes
  pub tail : Option Bytes
  pub lhead : Option Bytes
  pub ltail : Option Bytes
  pub ldel : Option Bytes
  pub dels : Option (List Bytes)

-- `if (0 >= step) step = 1`. The test of `n % step` behind it comes before `n` is set, when `n` is 0, and never holds.
unfoldable pub step_of : Lines → ℕ
step_of f = if f.step == 0 then 1 else f.step

unfoldable pub items_size : List (Option Bytes) → ℕ
items_size [] = 0
items_size (x ∷ xs) = length (text x) + items_size xs

-- The loop on `del[i % ndel]`, on the rounds that are left.
unfoldable pub dels_size : List Bytes → ℕ → ℕ → ℕ → ℕ
dels_size dels rows i zero = 0
dels_size dels rows i (suc k) =
    length (text (get_elem? dels (i % length dels))) * rows + dels_size dels rows (i + 1) k

-- What is allocated for the delimiters, from the `i`-th on, unless there are none.
abbrev pub dels_part : Option (List Bytes) → ℕ → ℕ → ℕ → ℕ
dels_part none rows i k = 0
dels_part (some dels) rows i k = dels_size dels rows i k

-- The length that is allocated for.
unfoldable pub lines_size : Lines → List (Option Bytes) → ℕ
lines_size f items =
    let rows = length items / step_of f + 1 in
    items_size items
    + length (text f.head)
    + length (text f.tail)
    + length (text f.lhead) * rows
    + length (text f.ltail) * rows
    + length (text f.ldel) * rows
    + dels_part f.dels rows 0 (step_of f)

-- An item by its index; behind the array there is none to read.
unfoldable pub append_item : Cursor → Option (Option Bytes) → Cursor
append_item c none = crashed
append_item c (some none) = append_str c (some [])
append_item c (some (some x)) = append_str c (some x)

-- `del[j % ndel]`, unless `del` is NULL.
unfoldable pub append_del : Cursor → Option (List Bytes) → ℕ → Cursor
append_del c none j = c
append_del c (some dels) j = append_str c (some (text (get_elem? dels (j % length dels))))

-- The items of one line from the `j`-th on, `k` of them.
unfoldable pub join_line : List (Option Bytes) → Option (List Bytes) → ℕ → ℕ → ℕ → Cursor → Cursor
join_line items dels base j zero c = c
join_line items dels base j (suc k) c =
    let c1 = append_item c (get_elem? items (base + j)) in
    join_line items dels base (j + 1) k (if k == 0 then c1 else append_del c1 dels j)

abbrev pub is_null : Option (Option Bytes) → Bool
is_null none = false
is_null (some none) = true
is_null (some (some x)) = false

-- The lines from the `i`-th on, `k` of them.
unfoldable pub join_lines : Lines → List (Option Bytes) → ℕ → ℕ → Cursor → Cursor
join_lines f items i zero c = c
join_lines f items i (suc k) c =
    let step = step_of f in
    let line =
      append_str (join_line items f.dels (i * step) 0 step (append_str c f.lhead)) f.ltail in
    let next =
      if is_null (get_elem? items (i * step))
      then c
      else if k == 0
      then line
      else append_str line f.ldel in
    join_lines f items (i + 1) k next

-- The number of lines; a last line that begins with a NULL item is left out.
unfoldable pub lines_count : Lines → List (Option Bytes) → ℕ
lines_count f items =
    let ln = (length items - 1) / step_of f + 1 in
    if is_null (get_elem? items ((ln - 1) * step_of f)) then ln - 1 else ln

-- An array of delimiters that has no elements.
abbrev pub no_dels : Option (List Bytes) → Bool
no_dels none = false
no_dels (some dels) = length dels == 0

-- A crash is a division by the number of an empty `dels`, the read of `item[-step]` where there
-- are no items, or one of the loops'.
unfoldable pub array_join_x : Bool → Lines → List (Option Bytes) → Joined
array_join_x allocated f items =
    if no_dels f.dels
    then join_crash
    else if not allocated
    then join_error
    else if length items == 0
    then join_crash
    else finish (
        append_str
          (join_lines f items 0 (lines_count f items)
            (append_str (cursor [] (lines_size f items)) f.head))
          f.tail)
