-- ===== src/Arrayv/Sequence.antt =====
-- Sequences of unshift, pop and shift on an array variable of
-- c/ngx_http_arrayv_module/ngx_http_arrayv_module.c.
use ngxmp.Base.{◌≡◌, refl, sym, ap, ◌∙◌, Option, none, some, List, [], ◌∷◌, ◌++◌, Bytes, inl, inr}
use ngxmp.Arrayv.{Ctx, Got, got, null_value, get_head, get_tail, set_tail}
use ngxmp.Arrayv.Deque.{Represents, get_head_lem, get_tail_lem, set_tail_lem}

pub data Access : Type 0 where
  do_pop do_shift : Access
  do_unshift : Bytes → Access

-- What the accesses give, one after the other; the null value is `none`.
abbrev add : Option Bytes → Option (List (Option Bytes)) → Option (List (Option Bytes))
add v none = none
add v (some vs) = some (v ∷ vs)

abbrev then_run : (Ctx → Option (List (Option Bytes))) → Got → Option (List (Option Bytes))
then_run f (got x c) = add (some x) (f c)
then_run f (null_value c) = add none (f c)
then_run f _ = none

abbrev then_set : (Ctx → Option (List (Option Bytes))) → Option Ctx → Option (List (Option Bytes))
then_set f none = none
then_set f (some c) = f c

-- On the state of the module; `none` is an access outside the elements of an array.
abbrev pub run_ctx : List Access → Ctx → Option (List (Option Bytes))
run_ctx [] ctx = some []
run_ctx (do_pop ∷ s) ctx = then_run (run_ctx s) (get_head ctx)
run_ctx (do_shift ∷ s) ctx = then_run (run_ctx s) (get_tail ctx)
run_ctx (do_unshift x ∷ s) ctx = then_set (run_ctx s) (set_tail ctx x)

-- All values but the last one, and the last one.
abbrev pub split_last : List Bytes → Option (List Bytes × Bytes)
split_last [] = none
split_last (x ∷ xs) = elim (split_last xs) [ none ↦ some ([], x) | some r ↦ some (x ∷ r.0, r.1) ]

-- On a sequence.
abbrev pub run_list : List Access → List Bytes → List (Option Bytes)
run_list [] q = []
run_list (do_pop ∷ s) q = elim (split_last q) [
  | none ↦ none ∷ run_list s []
  | some r ↦ some r.1 ∷ run_list s r.0
]
run_list (do_shift ∷ s) [] = none ∷ run_list s []
run_list (do_shift ∷ s) (x ∷ q) = some x ∷ run_list s q
run_list (do_unshift x ∷ s) q = run_list s (x ∷ q)

pub split_last-append : (xs : List Bytes) (x : Bytes) → split_last (xs ++ x ∷ []) ≡ some (xs, x)
split_last-append [] x = refl
split_last-append (y ∷ xs) x = rw (split_last-append xs x) refl

run_list-pop :
    (s : List Access) (rest : List Bytes) (x : Bytes)
    → run_list (do_pop ∷ s) (rest ++ x ∷ []) ≡ some x ∷ run_list s rest
run_list-pop s rest x = rw (run_list, split_last-append rest x) refl

-- A variable that stays as it was gives the null value again.
null-pop :
    (s : List Access) (ctx : Ctx) (q : List Bytes)
    → q ≡ []
    → get_head ctx ≡ null_value ctx
    → run_ctx s ctx ≡ some (run_list s q)
    → run_ctx (do_pop ∷ s) ctx ≡ some (run_list (do_pop ∷ s) q)
null-pop s ctx q e g rec =
    ap (then_run (run_ctx s)) g
    ∙ ap (add none) (rec ∙ ap (λ z. some (run_list s z)) e)
    ∙ ap (λ z. some (run_list (do_pop ∷ s) z)) (sym e)

null-shift :
    (s : List Access) (ctx : Ctx) (q : List Bytes)
    → q ≡ []
    → get_tail ctx ≡ null_value ctx
    → run_ctx s ctx ≡ some (run_list s q)
    → run_ctx (do_shift ∷ s) ctx ≡ some (run_list (do_shift ∷ s) q)
null-shift s ctx q e g rec =
    ap (then_run (run_ctx s)) g
    ∙ ap (add none) (rec ∙ ap (λ z. some (run_list s z)) e)
    ∙ ap (λ z. some (run_list (do_shift ∷ s) z)) (sym e)

-- From a state that stands for a sequence of values, any unshifts, pops and shifts give what they
-- give on the sequence, and none of them leaves the elements of the arrays.
pub run_ctx-run_list :
    (s : List Access) (ctx : Ctx) (q : List Bytes)
    → Represents ctx q
    → run_ctx s ctx ≡ some (run_list s q)
run_ctx-run_list [] ctx q r = refl
run_ctx-run_list (do_pop ∷ s) ctx q r = elim (get_head_lem ctx q r) [
  | inl (e, g) ↦ null-pop s ctx q e g (run_ctx-run_list s ctx q r)
  | inr (x, rest, c, e, g, r') ↦
      ap (then_run (run_ctx s)) g
      ∙ ap (add (some x)) (run_ctx-run_list s c rest r')
      ∙ ap some (sym (ap (run_list (do_pop ∷ s)) e ∙ run_list-pop s rest x))
]
run_ctx-run_list (do_shift ∷ s) ctx q r = elim (get_tail_lem ctx q r) [
  | inl (e, g) ↦ null-shift s ctx q e g (run_ctx-run_list s ctx q r)
  | inr (x, rest, c, e, g, r') ↦
      ap (then_run (run_ctx s)) g
      ∙ ap (add (some x)) (run_ctx-run_list s c rest r')
      ∙ ap some (sym (ap (run_list (do_shift ∷ s)) e))
]
run_ctx-run_list (do_unshift x ∷ s) ctx q r =
    let (c, g, r') = set_tail_lem ctx q x r in
    ap (then_set (run_ctx s)) g ∙ run_ctx-run_list s c (x ∷ q) r'
