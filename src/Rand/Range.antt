-- ===== src/Rand/Range.antt =====
-- The range of the random numbers.
use ngxmp.Base.{
  ℕ, ◌+◌, ◌-◌, ◌^◌, ◌%◌, ◌<◌, ◌≤◌, ◌≡◌, refl, Bool, true, Option, some, ◌∷◌, ltb, Bytes, arith,
  Bool-cases, inl, inr, ==-eq-false,
}
use native.Mathlib.Nat.{mod-lt}
use Prim.Native.Nat.{min, max}
use ngxmp.Util.VarName.{var_name}
use ngxmp.Rand.{RandCtx, rand_number, rand_declared, ordered, rand_command}

ordered_range : (a b : ℕ) → ((ordered a b).start ≡ min a b) × ((ordered a b).end ≡ max a b)
unfolding ordered
ordered_range a b = elim (Bool-cases (ltb b a)) [
  | inl e ↦ rw e (ground arith, ground arith)
  | inr e ↦ rw e (ground arith, ground arith)
]

number_in :
    (ctx : RandCtx) (ran : ℕ)
    → ctx.start ≤ ctx.end
    → ctx.end < 2 ^ 63
    → (n : ℕ) × (rand_number ctx ran ≡ some n) × (ctx.start ≤ n) × (n ≤ ctx.end)
unfolding rand_number
number_in ctx ran l h =
    let width : (1 + ctx.end + 2 ^ 64 - ctx.start) % 2 ^ 64 ≡ 1 + ctx.end - ctx.start =
      omega arith in
    let k = 1 + ctx.end - ctx.start in
    let small : ran % k < k = mod-lt ran (omega arith) in
    let whole : (ran % k + ctx.start) % 2 ^ 64 ≡ ran % k + ctx.start = omega arith in
    (
      ran % k + ctx.start,
      rw (width, ==-eq-false k 0 (λ e. omega (arith, e)), whole) refl,
      omega arith,
      omega arith,
    )

-- With memory given, and a name for which nginx gives a variable: a variable that is declared with two numbers, in any order and of the range
-- of ngx_int_t, gives a number between the two, both included, whatever random gives; there is no
-- division by zero.
pub rand_command-rand_number :
    (changeable : Bytes → Bool) (atoi : Bytes → Option ℕ) (name x y : Bytes) (a b ran : ℕ)
    → changeable name ≡ true
    → atoi x ≡ some a
    → atoi y ≡ some b
    → a < 2 ^ 63
    → b < 2 ^ 63
    → (ctx : RandCtx) × (n : ℕ) × (rand_command changeable atoi true (b'$' ∷ name) x y
        ≡ rand_declared name ctx)
      × (rand_number ctx ran ≡ some n)
      × (min a b ≤ n)
      × (n ≤ max a b)
unfolding rand_command var_name
rand_command-rand_number changeable atoi name x y a b ran c ea eb la lb =
    let (s, t) = ordered_range a b in
    let (n, e, lo, hi) = number_in (ordered a b) ran (omega (arith, s, t)) (omega (arith, t)) in
    (ordered a b, n, rw (ea, eb, c) refl, e, omega (arith, s, lo), omega (arith, t, hi))
