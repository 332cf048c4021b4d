-- ===== src/Arrayv/Printing.antt =====
-- print_array: the get handler for OP_LIST with the helper `array_join_x` of c/ngx_util/ngx_util.h.
use ngxmp.Base.{
  ℕ, ◌+◌, ◌*◌, ◌%◌, ◌<◌, ◌≡◌, refl, sym, ap, ◌∙◌, Bool, true, false, some, List, [], ◌∷◌, ◌++◌, map,
  take, ==-eq-false, Bytes, length, length-append, take-append, arith, Bool-cases, inl, inr,
}
use native.Mathlib.Nat.{zero-mul, mul-add-mod_self_right, mod-eq_of_lt}
use ngxmp.Util.Append.{text}
use ngxmp.Util.JoinX.{Lines, step_of, no_dels, array_join_x}
use ngxmp.Util.JoinX.Whole.{lines_text, all_items, Whole, step_pos}
use ngxmp.Util.JoinX.Room.{length-all_items, array_join_x_lem}
use ngxmp.Arrayv.{Ctx, got, wild, cut_list, get_list, give_joined}
use ngxmp.Arrayv.Deque.{Represents, represents, backwards}
use ngxmp.Arrayv.Listing.{list_all_lem, length-backwards}

-- The counters count the values.
sizes : (ctx : Ctx) (q : List Bytes) → Represents ctx q → ctx.sft.size + ctx.pop.size ≡ length q
sizes ctx q (represents dp lp ds ls) =
    omega (arith, length-append (backwards ls) lp, length-backwards ls)

step_of-step : (f : Lines) → 0 < f.step → step_of f ≡ f.step
unfolding step_of
step_of-step f h = rw (==-eq-false f.step 0 (λ e. omega (arith, e))) refl

cut_list_lem :
    (k r : ℕ) (items rest : List Bytes)
    → length items ≡ r * k
    → length rest < k
    → cut_list k (items ++ rest) ≡ items
unfolding cut_list
cut_list_lem k r items rest e h =
    let l = length-append items rest in
    let q : length (items ++ rest) % k ≡ length rest =
      ap (λ n. n % k) (l ∙ ap (λ n. n + length rest) e)
      ∙ mul-add-mod_self_right r k (length rest)
      ∙ mod-eq_of_lt h in
    rw q (ap (λ n. take n (items ++ rest)) (omega (arith, l)) ∙ take-append items rest)

-- A list of values that is not empty, given to `array_join_x`.
get_list_step :
    (allocated : Bool) (f : Lines) (ctx : Ctx) (q : List Bytes)
    → Represents ctx q
    → 0 < length q
    → 0 < f.step
    → get_list allocated f ctx
      ≡ give_joined ctx (array_join_x allocated f (map some (cut_list f.step q)))
unfolding get_list
get_list_step allocated f ctx q rep pos h =
    rw
      (
        ==-eq-false (ctx.sft.size + ctx.pop.size) 0 (λ e. omega (arith, e, sizes ctx q rep)),
        ==-eq-false f.step 0 (λ e. omega (arith, e)),
        list_all_lem ctx q rep,
      )
      refl

-- With memory given, in a state that stands for a sequence of values, print_array with a format of
-- at least one $, whose array of delimiters is missing or not empty, gives the head, the values in
-- lines of as many as the format has $, in their order, and the tail, when they fill at least one
-- line; values that do not fill a last line are left out, and the state stays as it was.
pub get_list_lem :
    (f : Lines) (ctx : Ctx) (l rest : List Bytes) (ls : List (List Bytes))
    → Represents ctx (all_items (l ∷ ls) ++ rest)
    → 0 < f.step
    → no_dels f.dels ≡ false
    → Whole f (l ∷ ls)
    → length rest < f.step
    → get_list true f ctx ≡ got (text f.head ++ lines_text f (l ∷ ls) ++ text f.tail) ctx
get_list_lem f ctx l rest ls rep pos d h short =
    let items = all_items (l ∷ ls) in
    let k = step_of-step f pos in
    let e : length items ≡ length (l ∷ ls) * f.step =
      length-all_items f (l ∷ ls) h ∙ ap (λ n. length (l ∷ ls) * n) k in
    let some_values : 0 < length (items ++ rest) =
      omega (arith, h.0, step_pos f, length-append items rest, length-append l (all_items ls)) in
    get_list_step true f ctx (items ++ rest) rep some_values pos
    ∙ ap (λ z. give_joined ctx (array_join_x true f (map some z)))
        (cut_list_lem f.step (length (l ∷ ls)) items rest e short)
    ∙ ap (give_joined ctx) (array_join_x_lem f l ls d h)

-- In a state that stands for a sequence of values that is not empty, with memory given and with
-- fewer values than a line has, print_array makes array_join_x read an element in front of the
-- array, unless it divides by zero before.
pub get_list-short :
    (f : Lines) (ctx : Ctx) (x : Bytes) (xs : List Bytes)
    → Represents ctx (x ∷ xs)
    → length (x ∷ xs) < f.step
    → get_list true f ctx ≡ wild
unfolding array_join_x
get_list-short f ctx x xs rep h =
    get_list_step true f ctx (x ∷ xs) rep (omega arith) (omega arith)
    ∙ ap (λ z. give_joined ctx (array_join_x true f (map some z)))
        (cut_list_lem f.step 0 [] (x ∷ xs) (sym (zero-mul f.step)) h)
    ∙ elim (Bool-cases (no_dels f.dels)) [ inl z ↦ rw z refl | inr z ↦ rw z refl ]
