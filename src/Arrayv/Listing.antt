-- ===== src/Arrayv/Listing.antt =====
-- OP_LIST of c/ngx_http_arrayv_module/ngx_http_arrayv_module.c: the loops that list all values.
use ngxmp.Base.{
  ℕ, suc, ◌+◌, ◌-◌, ◌≡◌, refl, sym, ap, ◌∙◌, some, List, [], ◌∷◌, ◌++◌, append-nil, append_assoc,
  Bytes, length, length-append, arith,
}
use ngxmp.Arrayv.{Ctx, elt_at, list_up, list_down, list_all}
use ngxmp.Arrayv.Slots.{first, elt_at-start}
use ngxmp.Arrayv.Deque.{backwards, backwards-append, Represents, represents}

list_up_step :
    (arr xs : List Bytes) (n k : ℕ) (x : Bytes)
    → elt_at arr n ≡ some x
    → list_up arr (n + 1) k ≡ some xs
    → list_up arr n (suc k) ≡ some (x ∷ xs)
unfolding list_up
list_up_step arr xs n k x q r = rw (list_up, q, r) refl

list_up_lem :
    (dp lp : List Bytes) (n : ℕ) → n ≡ length dp + 1 → list_up (dp ++ lp) n (length lp) ≡ some lp
list_up_lem dp [] n e = unfold list_up in refl
list_up_lem dp (x ∷ lp) n e =
    list_up_step (dp ++ x ∷ lp) lp n (length lp) x
      (ap (elt_at (dp ++ x ∷ lp)) e ∙ elt_at-start dp lp x)
      (ap (λ z. list_up z (n + 1) (length lp)) (sym (append_assoc dp (x ∷ []) lp))
        ∙ list_up_lem (dp ++ x ∷ []) lp (n + 1) (omega (arith, e, length-append dp (x ∷ []))))

list_up_all : (dp lp : List Bytes) → list_up (dp ++ lp) (length dp + first lp) (length lp) ≡ some lp
list_up_all dp [] = unfold list_up in refl
list_up_all dp (x ∷ lp) = list_up_lem dp (x ∷ lp) (length dp + 1) refl

list_down_step :
    (arr xs : List Bytes) (n k : ℕ) (x : Bytes)
    → elt_at arr n ≡ some x
    → list_down arr (n - 1) k ≡ some xs
    → list_down arr n (suc k) ≡ some (x ∷ xs)
unfolding list_down
list_down_step arr xs n k x q r = rw (list_down, q, r) refl

pub length-backwards : (xs : List Bytes) → length (backwards xs) ≡ length xs
length-backwards [] = refl
length-backwards (x ∷ xs) =
    omega (arith, length-append (backwards xs) (x ∷ []), length-backwards xs)

backwards-backwards : (xs : List Bytes) → backwards (backwards xs) ≡ xs
backwards-backwards [] = refl
backwards-backwards (x ∷ xs) =
    backwards-append (backwards xs) x ∙ ap (◌∷◌ x) (backwards-backwards xs)

-- The values `r`, the last one first, between the slots `ds` and `post`.
list_down_lem :
    (ds r post : List Bytes) (n : ℕ)
    → n ≡ length ds + length r
    → list_down (ds ++ backwards r ++ post) n (length r) ≡ some r
list_down_lem ds [] post n e = unfold list_down in refl
list_down_lem ds (x ∷ r) post n e =
    let b = backwards r in
    let arr = ds ++ (b ++ x ∷ []) ++ post in
    let same : arr ≡ ds ++ b ++ x ∷ post =
      ap (λ z. z ++ post) (sym (append_assoc ds b (x ∷ [])))
      ∙ append_assoc (ds ++ b) (x ∷ []) post in
    let here : n ≡ length (ds ++ b) + 1 =
      omega (arith, e, length-append ds b, length-backwards r) in
    list_down_step arr r n (length r) x
      (ap (λ z. elt_at z n) same
        ∙ ap (elt_at (ds ++ b ++ x ∷ post)) here
        ∙ elt_at-start (ds ++ b) post x)
      (ap (λ z. list_down z (n - 1) (length r)) same
        ∙ list_down_lem ds r (x ∷ post) (n - 1) (omega (arith, e)))

list_down_all :
    (ds ls : List Bytes)
    → list_down (ds ++ ls) (length ds + length ls) (length ls) ≡ some (backwards ls)
list_down_all ds ls =
    let l = length-backwards ls in
    let q = list_down_lem ds (backwards ls) [] (length ds + length ls) (omega (arith, l)) in
    ap (λ z. list_down z (length ds + length ls) (length ls))
      (ap (λ z. ds ++ z) (sym (backwards-backwards ls))
        ∙ sym (append-nil (ds ++ backwards (backwards ls))))
    ∙ ap (list_down (ds ++ backwards (backwards ls) ++ []) (length ds + length ls)) (sym l)
    ∙ q

-- `print_array` lists exactly the values of the sequence, in its order, and reads nothing outside
-- the elements.
pub list_all_lem : (ctx : Ctx) (q : List Bytes) → Represents ctx q → list_all ctx ≡ some q
unfolding list_all
list_all_lem ctx q (represents dp lp ds ls) =
    rw (list_all, list_down_all ds ls, list_up_all dp lp) refl
