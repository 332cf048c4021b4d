-- ===== src/Rand/Tests.antt =====
-- A random number between 3 and 7, and the witness.
use ngxmp.Base.{ℕ, ◌≡◌, refl, ◌≤◌, true, false, Option, some, Bytes, codes, length, arith}
use Prim.Native.Nat.{min, max}
use ngxmp.Rand.{RandCtx, rand_number, rand_declared, rand_null_variable, rand_command}
use ngxmp.Util.VarName.{var_name}
use ngxmp.Rand.Range.{rand_command-rand_number}

from_three : rand_number (record { start = 3; end = 7 }) 13 ≡ some 6
unfolding rand_number
from_three = refl

-- Numbers in strokes.
abbrev atoi : Bytes → Option ℕ
atoi s = some (length s)

rand_command-rand_number_example :
    (ctx : RandCtx) × (n : ℕ) × (rand_command
        (λ n. true)
        atoi
        true
        (codes "$x")
        (codes "|||||||")
        (codes "|||")
      ≡ rand_declared (codes "x") ctx)
    × (rand_number ctx 13 ≡ some n)
    × (min 7 3 ≤ n)
    × (n ≤ max 7 3)
rand_command-rand_number_example =
    rand_command-rand_number (λ n. true) atoi (codes "x") (codes "|||||||") (codes "|||") 7 3 13
      refl refl refl (omega arith) (omega arith)

-- A variable of nginx that cannot be changed.
null_variable :
    rand_command (λ n. false) atoi true (codes "$uri") (codes "|") (codes "||") ≡ rand_null_variable
unfolding rand_command var_name
null_variable = refl
