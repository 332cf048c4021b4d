-- ===== src/Arrayv/Deque.antt =====
-- The array variables of c/ngx_http_arrayv_module/ngx_http_arrayv_module.c as sequences of values.
use ngxmp.Base.{
  ℕ, suc, ◌+◌, ◌≤◌, ◌<◌, ◌≡◌, refl, sym, ap, subst, ◌∙◌, ◌⊎◌, inl, inr, true, false, none, some,
  List, [], ◌∷◌, ◌++◌, append-nil, append_assoc, ◌==◌, ==-eq-false, ltb, Bool-cases, ltb→lt, Bytes,
  length, length-append, arith, suc-ne-zero,
}
use ngxmp.Arrayv.{
  Ctx, Got, got, null_value, push_end, put_start, get_head, get_tail, set_head, set_tail,
}
use ngxmp.Arrayv.Slots.{
  elt_of, push_end-elt_of, take_end-elt_of, take_start-elt_of, take_start-elt_of-one,
  put_start-elt_of, elt_at-start, elt_at-end,
}

abbrev pub backwards : List Bytes → List Bytes
backwards [] = []
backwards (x ∷ xs) = backwards xs ++ x ∷ []

abbrev pub ctx_of : List Bytes → List Bytes → List Bytes → List Bytes → Ctx
ctx_of dp lp ds ls = record { pop = elt_of dp lp; sft = elt_of ds ls }

-- The sequence of a variable, from the tail end to the head end: `sft` from its end to its start,
-- then `pop` from its start to its end.
pub data Represents : Ctx → List Bytes → Type 0 where
  represents : (dp lp ds ls : List Bytes) → Represents (ctx_of dp lp ds ls) (backwards ls ++ lp)

-- A list is empty or has a last element.
snoc_cases : (xs : List Bytes) → (xs ≡ []) ⊎ ((ys : List Bytes) × (y : Bytes) × (xs ≡ ys ++ y ∷ []))
snoc_cases [] = inl refl
snoc_cases (x ∷ xs) = elim (snoc_cases xs) [
  | inl e ↦ inr ([], x, ap (◌∷◌ x) e)
  | inr (ys, y, e) ↦ inr (x ∷ ys, y, ap (◌∷◌ x) e)
]

no_zero : (xs : List Bytes) (x : Bytes) → (length (xs ++ x ∷ []) == 0) ≡ false
no_zero xs x = ==-eq-false _ 0 (λ e. omega (arith, length-append xs (x ∷ []), e))

-- What taking a value at an end gives: the null value on the empty sequence, or that value and a
-- state of the rest.
abbrev pub Taken : Ctx → Got → (Bytes → List Bytes → List Bytes) → List Bytes → Type 0
Taken ctx g add q =
    ((q ≡ []) × (g ≡ null_value ctx))
    ⊎ ((x : Bytes) × (rest : List Bytes) × (ctx' : Ctx) × (q ≡ add x rest)
        × (g ≡ got x ctx')
        × Represents ctx' rest)

get_head-pop :
    (dp l ds ls : List Bytes) (x : Bytes)
    → get_head (ctx_of dp (l ++ x ∷ []) ds ls) ≡ got x (ctx_of dp l ds ls)
unfolding get_head
get_head-pop dp l ds ls x =
    rw (no_zero l x, elt_at-end dp l x)
      (ap (λ e. got x (record { pop = e; sft = elt_of ds ls })) (take_end-elt_of dp l x))

get_head-sft :
    (dp ds ls : List Bytes) (x y : Bytes)
    → get_head (ctx_of dp [] ds (x ∷ y ∷ ls)) ≡ got x (ctx_of dp [] (ds ++ x ∷ []) (y ∷ ls))
unfolding get_head
get_head-sft dp ds ls x y =
    rw (suc-ne-zero (suc (length ls)), elt_at-start ds (y ∷ ls) x)
      (ap (λ e. got x (record { pop = elt_of dp []; sft = e })) (take_start-elt_of ds ls x y))

get_head-sft_one :
    (dp ds : List Bytes) (x : Bytes)
    → get_head (ctx_of dp [] ds (x ∷ [])) ≡ got x (ctx_of dp [] ds [])
unfolding get_head
get_head-sft_one dp ds x =
    rw (elt_at-start ds [] x)
      (ap (λ e. got x (record { pop = elt_of dp []; sft = e })) (take_start-elt_of-one ds x))

get_tail-sft :
    (dp lp ds l : List Bytes) (x : Bytes)
    → get_tail (ctx_of dp lp ds (l ++ x ∷ [])) ≡ got x (ctx_of dp lp ds l)
unfolding get_tail
get_tail-sft dp lp ds l x =
    rw (no_zero l x, elt_at-end ds l x)
      (ap (λ e. got x (record { pop = elt_of dp lp; sft = e })) (take_end-elt_of ds l x))

get_tail-pop :
    (dp ds lp : List Bytes) (x y : Bytes)
    → get_tail (ctx_of dp (x ∷ y ∷ lp) ds []) ≡ got x (ctx_of (dp ++ x ∷ []) (y ∷ lp) ds [])
unfolding get_tail
get_tail-pop dp ds lp x y =
    rw (suc-ne-zero (suc (length lp)), elt_at-start dp (y ∷ lp) x)
      (ap (λ e. got x (record { pop = e; sft = elt_of ds [] })) (take_start-elt_of dp lp x y))

get_tail-pop_one :
    (dp ds : List Bytes) (x : Bytes)
    → get_tail (ctx_of dp (x ∷ []) ds []) ≡ got x (ctx_of dp [] ds [])
unfolding get_tail
get_tail-pop_one dp ds x =
    rw (elt_at-start dp [] x)
      (ap (λ e. got x (record { pop = e; sft = elt_of ds [] })) (take_start-elt_of-one dp x))

pub backwards-append : (xs : List Bytes) (x : Bytes) → backwards (xs ++ x ∷ []) ≡ x ∷ backwards xs
backwards-append [] x = refl
backwards-append (y ∷ xs) x = ap (λ z. z ++ y ∷ []) (backwards-append xs x)

head_of_pop :
    (dp l ds ls lp : List Bytes) (x : Bytes)
    → lp ≡ l ++ x ∷ []
    → Taken
        (ctx_of dp lp ds ls)
        (get_head (ctx_of dp lp ds ls))
        (λ y rest. rest ++ y ∷ [])
        (backwards ls ++ lp)
head_of_pop dp l ds ls lp x e =
    subst
      (λ z.
        Taken (ctx_of dp z ds ls) (get_head (ctx_of dp z ds ls)) (λ y rest. rest ++ y ∷ [])
          (backwards ls ++ z))
      (sym e)
      (inr (
        x,
        backwards ls ++ l,
        ctx_of dp l ds ls,
        sym (append_assoc (backwards ls) l (x ∷ [])),
        get_head-pop dp l ds ls x,
        represents dp l ds ls,
      ))

tail_of_sft :
    (dp lp ds l ls : List Bytes) (x : Bytes)
    → ls ≡ l ++ x ∷ []
    → Taken (ctx_of dp lp ds ls) (get_tail (ctx_of dp lp ds ls)) ◌∷◌ (backwards ls ++ lp)
tail_of_sft dp lp ds l ls x e =
    subst (λ z. Taken (ctx_of dp lp ds z) (get_tail (ctx_of dp lp ds z)) ◌∷◌ (backwards z ++ lp))
      (sym e)
      (inr (
        x,
        backwards l ++ lp,
        ctx_of dp lp ds l,
        ap (λ z. z ++ lp) (backwards-append l x),
        get_tail-sft dp lp ds l x,
        represents dp lp ds l,
      ))

-- In a state that stands for a sequence of values, pop takes the last value of the sequence,
-- whichever of the two arrays holds it, and leaves a state that stands for the rest; on the empty
-- sequence it gives the null value.
pub get_head_lem :
    (ctx : Ctx) (q : List Bytes)
    → Represents ctx q
    → Taken ctx (get_head ctx) (λ x rest. rest ++ x ∷ []) q
get_head_lem ctx q (represents dp [] ds []) = inl (refl, unfold get_head in refl)
get_head_lem ctx q (represents dp [] ds (x ∷ [])) =
    inr (x, [], ctx_of dp [] ds [], refl, get_head-sft_one dp ds x, represents dp [] ds [])
get_head_lem ctx q (represents dp [] ds (x ∷ y ∷ ls)) = inr (
  x,
  backwards (y ∷ ls) ++ [],
  ctx_of dp [] (ds ++ x ∷ []) (y ∷ ls),
  append-nil (backwards (x ∷ y ∷ ls))
      ∙ ap (λ z. z ++ x ∷ []) (sym (append-nil (backwards (y ∷ ls)))),
  get_head-sft dp ds ls x y,
  represents dp [] (ds ++ x ∷ []) (y ∷ ls),
)
get_head_lem ctx q (represents dp (z ∷ lp) ds ls) = elim (snoc_cases (z ∷ lp)) [
  | inl e ↦ absurd (cc e)
  | inr (l, x, e) ↦ head_of_pop dp l ds ls (z ∷ lp) x e
]

-- `shift` takes the first value of the sequence, wherever it stands, or gives the null value if
-- there is none.
pub get_tail_lem : (ctx : Ctx) (q : List Bytes) → Represents ctx q → Taken ctx (get_tail ctx) ◌∷◌ q
get_tail_lem ctx q (represents dp [] ds []) = inl (refl, unfold get_tail in refl)
get_tail_lem ctx q (represents dp (x ∷ []) ds []) =
    inr (x, [], ctx_of dp [] ds [], refl, get_tail-pop_one dp ds x, represents dp [] ds [])
get_tail_lem ctx q (represents dp (x ∷ y ∷ lp) ds []) = inr (
  x,
  y ∷ lp,
  ctx_of (dp ++ x ∷ []) (y ∷ lp) ds [],
  refl,
  get_tail-pop dp ds lp x y,
  represents (dp ++ x ∷ []) (y ∷ lp) ds [],
)
get_tail_lem ctx q (represents dp lp ds (z ∷ ls)) = elim (snoc_cases (z ∷ ls)) [
  | inl e ↦ absurd (cc e)
  | inr (l, x, e) ↦ tail_of_sft dp lp ds l (z ∷ ls) x e
]

-- The state after a value is put in `sft`.
put_sft :
    (dp lp ds ls : List Bytes) (x : Bytes)
    → (ctx' : Ctx) × (some (record { pop = elt_of dp lp; sft = push_end (elt_of ds ls) x })
        ≡ some ctx')
      × Represents ctx' (x ∷ (backwards ls ++ lp))
put_sft dp lp ds ls x = (
  ctx_of dp lp ds (ls ++ x ∷ []),
  ap (λ e. some (record { pop = elt_of dp lp; sft = e })) (push_end-elt_of ds ls x),
  subst (Represents (ctx_of dp lp ds (ls ++ x ∷ []))) (ap (λ z. z ++ lp) (backwards-append ls x))
      (represents dp lp ds (ls ++ x ∷ [])),
)

put_pop :
    (dp lp ds ls : List Bytes) (x : Bytes)
    → (ctx' : Ctx) × (some (record { pop = push_end (elt_of dp lp) x; sft = elt_of ds ls })
        ≡ some ctx')
      × Represents ctx' (backwards ls ++ lp ++ x ∷ [])
put_pop dp lp ds ls x = (
  ctx_of dp (lp ++ x ∷ []) ds ls,
  ap (λ e. some (record { pop = e; sft = elt_of ds ls })) (push_end-elt_of dp lp x),
  subst (Represents (ctx_of dp (lp ++ x ∷ []) ds ls))
      (sym (append_assoc (backwards ls) lp (x ∷ []))) (represents dp (lp ++ x ∷ []) ds ls),
)

lt-zero-suc : (n : ℕ) → ltb 0 (suc n) ≡ true
lt-zero-suc n = ground arith

-- `unshift` in front of `pop`, where slots are free there.
set_tail-slot :
    (d lp ds : List Bytes) (old x y : Bytes)
    → set_tail (ctx_of (d ++ old ∷ []) (y ∷ lp) ds []) x ≡ some (ctx_of d (x ∷ y ∷ lp) ds [])
unfolding set_tail
set_tail-slot d lp ds old x y =
    let front : ltb 1 (length (d ++ old ∷ []) + 1) ≡ true =
      ground (arith, length-append d (old ∷ [])) in
    rw (lt-zero-suc (length lp), front, put_start-elt_of d lp old x y)
      (ap
        (λ n.
          some (record { pop = record (elt_of d (x ∷ y ∷ lp)) { size = n }; sft = elt_of ds [] }))
        (omega arith))

-- In a state that stands for a sequence of values, unshift leaves a state that stands for the
-- sequence with the value in front.
pub set_tail_lem :
    (ctx : Ctx) (q : List Bytes) (x : Bytes)
    → Represents ctx q
    → (ctx' : Ctx) × (set_tail ctx x ≡ some ctx') × Represents ctx' (x ∷ q)
unfolding set_tail
set_tail_lem ctx q x (represents dp [] ds []) = put_sft dp [] ds [] x
set_tail_lem ctx q x (represents dp lp ds (z ∷ ls)) =
    rw (suc-ne-zero (length ls)) (put_sft dp lp ds (z ∷ ls) x)
set_tail_lem ctx q x (represents dp (y ∷ lp) ds []) = elim (snoc_cases dp) [
  | inl e ↦ rw (e, lt-zero-suc (length lp)) (put_sft [] (y ∷ lp) ds [] x)
  | inr (d, old, e) ↦
      rw (e, set_tail-slot d lp ds old x y)
        (ctx_of d (x ∷ y ∷ lp) ds [], refl, represents d (x ∷ y ∷ lp) ds [])
]

-- In a state that stands for a sequence of values, push leaves a state that stands for the
-- sequence with the value behind it, unless pop is empty, sft is not, and sft starts behind its
-- first slot.
pub set_head_lem :
    (ctx : Ctx) (q : List Bytes) (x : Bytes)
    → Represents ctx q
    → ((ctx' : Ctx) × (set_head ctx x ≡ some ctx') × Represents ctx' (q ++ x ∷ []))
      ⊎ ((ctx.pop.size ≡ 0) × (0 < ctx.sft.size) × (1 < ctx.sft.start))
unfolding set_head
set_head_lem ctx q x (represents dp (y ∷ lp) ds ls) =
    inl (rw (suc-ne-zero (length lp)) (put_pop dp (y ∷ lp) ds ls x))
set_head_lem ctx q x (represents dp [] ds []) = inl (put_pop dp [] ds [] x)
set_head_lem ctx q x (represents dp [] ds (z ∷ ls)) = elim (Bool-cases (ltb 1 (length ds + 1))) [
  | inl e ↦ inr (refl, omega arith, ltb→lt 1 (length ds + 1) e)
  | inr e ↦ inl (rw (lt-zero-suc (length ls), e) (put_pop dp [] ds (z ∷ ls) x))
]

-- Where all values are in sft, some were taken from its start and pop was never used, push writes
-- in front of the array of pop.
pub set_head-wild :
    (ds ls : List Bytes) (z x : Bytes)
    → 1 ≤ length ds
    → set_head (ctx_of [] [] ds (z ∷ ls)) x ≡ none
unfolding set_head put_start
set_head-wild ds ls z x h =
    let front : ltb 1 (length ds + 1) ≡ true = ground arith in
    rw (lt-zero-suc (length ls), front) refl
