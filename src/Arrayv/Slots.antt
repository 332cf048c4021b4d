-- ===== src/Arrayv/Slots.antt =====
-- The arrays of c/ngx_http_arrayv_module/ngx_http_arrayv_module.c: what each access does to the
-- values that are in use.
use ngxmp.Base.{
  ℕ, suc, ◌+◌, ◌-◌, ◌<◌, ◌≡◌, refl, sym, ap, ◌∙◌, true, false, some, List, [], ◌∷◌, ◌++◌,
  append-nil, append_assoc, ◌==◌, set, take, Bytes, length, length-append, take-append, ==-eq-false,
  ltb, leb, arith, get_elem-append,
}
use ngxmp.Arrayv.{Elt, elt_at, take_end, take_start, push_end, put_start}

eq_elt :
    {a a' : List Bytes} {n n' s s' e e' : ℕ}
    → a ≡ a'
    → n ≡ n'
    → s ≡ s'
    → e ≡ e'
    → ◌≡◌ {A = Elt}
        (record { arr = a; size = n; start = s; end = e })
        (record { arr = a'; size = n'; start = s'; end = e' })
eq_elt p q r s = cc

-- One more than `start` where there are no values, and where there are.
abbrev pub first : List Bytes → ℕ
first [] = 0
first (x ∷ xs) = 1

-- The array with the slots `dead` in front of the values `live`.
abbrev pub elt_of : List Bytes → List Bytes → Elt
elt_of dead live = record {
  arr = dead ++ live;
  size = length live;
  start = length dead + first live;
  end = length dead + length live;
}

no : (n k : ℕ) → k < suc n → (suc n == k) ≡ false
no n k h = ==-eq-false (suc n) k (λ e. omega arith)

take_last : (xs : List Bytes) (x : Bytes) → take (length (xs ++ x ∷ []) - 1) (xs ++ x ∷ []) ≡ xs
take_last xs x =
    ap (λ n. take n (xs ++ x ∷ [])) (omega (arith, length-append xs (x ∷ [])))
    ∙ take-append xs (x ∷ [])

set-append :
    (xs ys : List Bytes) (old x : Bytes) → set (xs ++ old ∷ ys) (length xs) x ≡ xs ++ x ∷ ys
set-append [] ys old x = refl
set-append (z ∷ xs) ys old x = ap (◌∷◌ z) (set-append xs ys old x)

pub push_end-elt_of :
    (dead live : List Bytes) (x : Bytes)
    → push_end (elt_of dead live) x ≡ elt_of dead (live ++ x ∷ [])
unfolding push_end
push_end-elt_of dead [] x =
    eq_elt (ap (λ z. z ++ x ∷ []) (append-nil dead)) refl (omega arith) (omega arith)
push_end-elt_of dead (y ∷ live) x =
    eq_elt (append_assoc dead (y ∷ live) (x ∷ [])) (omega (arith, length-append live (x ∷ [])))
      (rw (no (length live) 0 (omega arith)) refl) (omega (arith, length-append live (x ∷ [])))

pub take_end-elt_of :
    (dead live : List Bytes) (x : Bytes)
    → take_end (elt_of dead (live ++ x ∷ [])) ≡ elt_of dead live
unfolding take_end
take_end-elt_of dead [] x =
    eq_elt (take_last dead x ∙ sym (append-nil dead)) refl (omega arith) (omega arith)
take_end-elt_of dead (y ∷ live) x =
    let l = length-append live (x ∷ []) in
    eq_elt
      (ap (λ z. take (length z - 1) z) (sym (append_assoc dead (y ∷ live) (x ∷ [])))
        ∙ take_last (dead ++ y ∷ live) x)
      (omega (arith, l)) (rw (no (length (live ++ x ∷ [])) 1 (omega (arith, l))) refl)
      (omega (arith, l))

pub take_start-elt_of-one :
    (dead : List Bytes) (x : Bytes) → take_start (elt_of dead (x ∷ [])) ≡ elt_of dead []
unfolding take_start
take_start-elt_of-one dead x =
    eq_elt (take_last dead x ∙ sym (append-nil dead)) refl (omega arith) (omega arith)

pub take_start-elt_of :
    (dead live : List Bytes) (x y : Bytes)
    → take_start (elt_of dead (x ∷ y ∷ live)) ≡ elt_of (dead ++ x ∷ []) (y ∷ live)
unfolding take_start
take_start-elt_of dead live x y =
    let l = length-append dead (x ∷ []) in
    rw (no (suc (length live)) 1 (omega arith)) (
      eq_elt (sym (append_assoc dead (x ∷ []) (y ∷ live))) (omega arith) (omega (arith, l))
        (omega (arith, l)))

put_start_lem :
    (a : List Bytes) (n e k : ℕ) (x : Bytes)
    → k < length a
    → put_start (record { arr = a; size = n; start = k + 2; end = e }) x
      ≡ some (record { arr = set a k x; size = n; start = k + 1; end = e })
unfolding put_start
put_start_lem a n e k x h =
    let slot : k + 2 - 2 ≡ k = omega arith in
    let low : leb (k + 2) 1 ≡ false = ground arith in
    let fits : ltb (k + 2 - 2) (length a) ≡ true = ground arith in
    rw (low, fits) (ap some (eq_elt (ap (λ i. set a i x) slot) refl (omega arith) refl))

pub put_start-elt_of :
    (dead live : List Bytes) (old x y : Bytes)
    → put_start (elt_of (dead ++ old ∷ []) (y ∷ live)) x
      ≡ some (record (elt_of dead (x ∷ y ∷ live)) { size = suc (length live) })
unfolding put_start
put_start-elt_of dead live old x y =
    let l = length-append dead (old ∷ []) in
    let a = append_assoc dead (old ∷ []) (y ∷ live) in
    let e1 : length (dead ++ old ∷ []) + 1 ≡ length dead + 2 = omega (arith, l) in
    let e2 : length (dead ++ old ∷ []) + suc (length live) ≡ length dead + suc (suc (length live)) =
      omega (arith, l) in
    ap (λ z. put_start z x) (eq_elt a refl e1 e2)
    ∙ put_start_lem (dead ++ old ∷ y ∷ live) (suc (length live))
        (length dead + suc (suc (length live))) (length dead) x
        (omega (arith, length-append dead (old ∷ y ∷ live)))
    ∙ ap some (eq_elt (set-append dead (y ∷ live) old x) refl refl refl)

pub elt_at-start :
    (dead live : List Bytes) (x : Bytes) → elt_at (dead ++ x ∷ live) (length dead + 1) ≡ some x
elt_at-start dead live x =
    ap (elt_at (dead ++ x ∷ live)) {y = suc (length dead)} (omega arith)
    ∙ get_elem-append dead live x

pub elt_at-end :
    (dead live : List Bytes) (x : Bytes)
    → elt_at (dead ++ (live ++ x ∷ [])) (length dead + length (live ++ x ∷ [])) ≡ some x
elt_at-end dead live x =
    ap (λ z. elt_at z (length dead + length (live ++ x ∷ [])))
      (sym (append_assoc dead live (x ∷ [])))
    ∙ ap (elt_at (dead ++ live ++ x ∷ [])) {x = length dead + length (live ++ x ∷ [])}
        {y = suc (length (dead ++ live))}
        (omega (arith, length-append dead live, length-append live (x ∷ [])))
    ∙ get_elem-append (dead ++ live) [] x
