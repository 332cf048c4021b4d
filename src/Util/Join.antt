-- ===== src/Util/Join.antt =====
-- `array_join` of c/ngx_util/ngx_util.h. The strings at `item_offset` of the elements are a list.
use ngxmp.Base.{
  ℕ, suc, ◌+◌, ◌-◌, ◌*◌, ◌≤◌, ◌≡◌, refl, sym, ap, ◌∙◌, Bool, true, not, Option, some, List, [], ◌∷◌,
  ◌++◌, append_assoc, leb, if◌then◌else◌, Bytes, length, length-append, arith, Bool-cases, inl, inr,
  leb→le, length-eq-zero,
}
use native.Mathlib.Nat.{mul-suc, mul-zero}
use ngxmp.Util.Append.{
  Cursor, cursor, null_cursor, crashed, append_str, append_str-written, written, text,
}

-- The joined string, NGX_ERROR, or a crash: a write through NULL or a read behind the array.
pub data Joined : Type 0 where
  joined : Bytes → Joined
  join_error : Joined
  join_crash : Joined

-- The strings around the whole text, and around and between the items; NULL is `none`.
pub record Frame : Type 0 where
  pub head : Option Bytes
  pub tail : Option Bytes
  pub pre : Option Bytes
  pub suf : Option Bytes
  pub del : Option Bytes

unfoldable pub total : List Bytes → ℕ
total [] = 0
total (x ∷ xs) = length x + total xs

-- The length that is allocated for.
unfoldable pub join_size : Frame → List Bytes → ℕ
join_size f items =
    let n = length items in
    total items
    + length (text f.head)
    + length (text f.tail)
    + length (text f.pre) * n
    + length (text f.suf) * n
    + length (text f.del) * (n - 1)

-- The loop on all items but the last one, and the last one; without items, the read of the first
-- element is behind the array.
unfoldable pub join_items : Frame → List Bytes → Cursor → Cursor
join_items f [] c = crashed
join_items f (x ∷ []) c = append_str (append_str (append_str c f.pre) (some x)) f.suf
join_items f (x ∷ y ∷ xs) c =
    join_items f (y ∷ xs)
      (append_str (append_str (append_str (append_str c f.pre) (some x)) f.suf) f.del)

-- The terminating `*c = 0`, for which one byte more is allocated.
unfoldable pub finish : Cursor → Joined
finish (cursor w room) = joined w
finish null_cursor = join_crash
finish crashed = join_crash

-- `allocated` tells whether `ngx_palloc` gives the memory.
unfoldable pub array_join : Bool → Frame → List Bytes → Joined
array_join allocated f items =
    let len = join_size f items in
    if leb len 0
    then joined []
    else if not allocated
    then join_error
    else finish (append_str (join_items f items (append_str (cursor [] len) f.head)) f.tail)

-- The text between head and tail.
abbrev pub body : Frame → List Bytes → Bytes
body f [] = []
body f (x ∷ []) = text f.pre ++ (x ++ text f.suf)
body f (x ∷ y ∷ xs) = text f.pre ++ (x ++ (text f.suf ++ (text f.del ++ body f (y ∷ xs))))

-- The room the items need.
abbrev need : Frame → List Bytes → ℕ
need f [] = 0
need f (x ∷ []) = length (text f.pre) + (length x + length (text f.suf))
need f (x ∷ y ∷ xs) =
    length (text f.pre)
    + (length x + (length (text f.suf) + (length (text f.del) + need f (y ∷ xs))))

module _ (f : Frame) where
  suc_sub : (n : ℕ) → suc n - 1 ≡ n
  suc_sub n = omega arith

  join_size-need :
      (x : Bytes) (xs : List Bytes)
      → join_size f (x ∷ xs) ≡ length (text f.head) + need f (x ∷ xs) + length (text f.tail)
  unfolding join_size total
  join_size-need x [] = rw (mul-suc, mul-zero) (omega arith)
  join_size-need x (y ∷ xs) =
      let rest = join_size-need y xs in
      let n = length xs in
      let d = length (text f.del) in
      let e1 : d * (length (x ∷ y ∷ xs) - 1) ≡ d * suc n = ap (λ z. d * z) (suc_sub (suc n)) in
      let e2 : d * (length (y ∷ xs) - 1) ≡ d * n = ap (λ z. d * z) (suc_sub n) in
      omega (
        arith,
        rest,
        e1,
        e2,
        mul-suc (length (text f.pre)) (suc n),
        mul-suc (length (text f.suf)) (suc n),
        mul-suc (length (text f.del)) n,
      )

  -- An item with what stands around it.
  item_lem :
      (n : ℕ) (w x : Bytes)
      → length w + (length (text f.pre) + (length x + length (text f.suf))) ≤ n
      → append_str (append_str (append_str (written n w) f.pre) (some x)) f.suf
        ≡ written n (w ++ (text f.pre ++ (x ++ text f.suf)))
  item_lem n w x h =
      let p = text f.pre in
      let s = text f.suf in
      rw (append_str-written n w f.pre (omega arith)) (
        rw (append_str-written n (w ++ p) (some x) (omega (arith, length-append w p))) (
          rw
            (append_str-written n (w ++ p ++ x) f.suf
              (omega (arith, length-append w p, length-append (w ++ p) x)))
            (ap (written n) (append_assoc (w ++ p) x s ∙ append_assoc w p (x ++ s)))))

  length-item :
      (w x : Bytes)
      → length (w ++ (text f.pre ++ (x ++ text f.suf)))
        ≡ length w + (length (text f.pre) + (length x + length (text f.suf)))
  length-item w x = omega (
    arith,
    length-append w (text f.pre ++ (x ++ text f.suf)),
    length-append (text f.pre) (x ++ text f.suf),
    length-append x (text f.suf),
  )

  join_items_lem :
      (n : ℕ) (x : Bytes) (xs : List Bytes) (w : Bytes)
      → length w + need f (x ∷ xs) ≤ n
      → (join_items f (x ∷ xs) (written n w) ≡ written n (w ++ body f (x ∷ xs)))
        × (length (w ++ body f (x ∷ xs)) ≡ length w + need f (x ∷ xs))
  unfolding join_items
  join_items_lem n x [] w h = (item_lem n w x h, length-item w x)
  join_items_lem n x (y ∷ xs) w h =
      let item = text f.pre ++ (x ++ text f.suf) in
      let d = text f.del in
      let l = length-append (w ++ item) d in
      let (rest, size) =
        join_items_lem n y xs (w ++ item ++ d) (omega (arith, length-item w x, l)) in
      let whole : w ++ item ++ d ++ body f (y ∷ xs) ≡ w ++ body f (x ∷ y ∷ xs) =
        append_assoc (w ++ item) d (body f (y ∷ xs))
        ∙ append_assoc w item (d ++ body f (y ∷ xs))
        ∙ ap (λ z. w ++ z)
            (append_assoc (text f.pre) (x ++ text f.suf) (d ++ body f (y ∷ xs))
              ∙ ap (λ z. text f.pre ++ z) (append_assoc x (text f.suf) (d ++ body f (y ∷ xs)))) in
      (
        rw (item_lem n w x (omega arith)) (
            rw (append_str-written n (w ++ item) f.del (omega (arith, length-item w x)))
              (rest ∙ ap (written n) whole)),
        rw (← whole) (omega (arith, size, length-item w x, l)),
      )

  -- An array that is not empty is joined, where the memory is given: the result is the head, the
  -- items each between pre and suf and with del between them, and the tail; the length computed
  -- beforehand is enough, and nothing is cut.
  pub array_join_lem :
      (x : Bytes) (xs : List Bytes)
      → array_join true f (x ∷ xs) ≡ joined (text f.head ++ body f (x ∷ xs) ++ text f.tail)
  unfolding array_join finish
  array_join_lem x xs =
      let n = join_size f (x ∷ xs) in
      let size = join_size-need x xs in
      let (items, l) = join_items_lem n x xs (text f.head) (omega arith) in
      let start : cursor [] n ≡ written n [] = ap (cursor []) (omega arith) in
      let run : append_str (join_items f (x ∷ xs) (append_str (cursor [] n) f.head)) f.tail
          ≡ written n (text f.head ++ body f (x ∷ xs) ++ text f.tail) =
        ap (λ c. append_str (join_items f (x ∷ xs) (append_str c f.head)) f.tail) start
        ∙ rw (append_str-written n [] f.head (omega arith)) (
            rw items
              (append_str-written n (text f.head ++ body f (x ∷ xs)) f.tail (omega arith))) in
      elim (Bool-cases (leb n 0)) [
        | inl z ↦ rw z (
            ap joined (
              sym (
                length-eq-zero _ (
                  omega (
                    arith,
                    leb→le n 0 z,
                    l,
                    length-append (text f.head ++ body f (x ∷ xs)) (text f.tail),
                  )))))
        | inr z ↦ rw (z, run) refl
      ]

  -- With no items and a head or a tail to write, the first element of the empty array is read.
  pub array_join-nil :
      1 ≤ length (text f.head) + length (text f.tail) → array_join true f [] ≡ join_crash
  unfolding array_join join_size total join_items append_str finish
  array_join-nil h = rw mul-zero (rw mul-zero (rw mul-zero (ground arith)))
