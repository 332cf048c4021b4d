-- ===== src/Base/Memory.antt =====
-- C strings in memory. A pointer is the list of the bytes from it on; behind the modelled bytes a
-- read gives 0, the terminator.
use Prim.Native.Nat.{ℕ}
use mathlib.Core.Bool.{Bool, true, ◌&&◌, ◌||◌}
use mathlib.Core.List.{[], ◌∷◌, ◌++◌}
use mathlib.Core.Path.{◌≡◌, refl}
use native.Mathlib.Omega.{arith}
use ngxmp.Base.Lists.{Bytes}
use ngxmp.Base.Tests.{◌==◌, if◌then◌else◌}

-- `*p`
abbrev pub peek : Bytes → ℕ
peek [] = 0
peek (c ∷ _) = c

-- `p + 1`
abbrev pub next : Bytes → Bytes
next [] = []
next (_ ∷ p) = p

-- `strncmp(p, s, strlen(s)) == 0`: bytes are compared up to the first zero.
unfoldable pub strncmp_eq : Bytes → Bytes → Bool
strncmp_eq p [] = true
strncmp_eq p (c ∷ cs) = peek p == c && (c == 0 || strncmp_eq (next p) cs)

-- The bytes of a C string, up to the first zero.
unfoldable pub c_string : Bytes → Bytes
c_string [] = []
c_string (c ∷ p) = let rest = c_string p in if c == 0 then [] else c ∷ rest

-- A string is found where it stands.
pub strncmp_eq-append : (s p : Bytes) → strncmp_eq (s ++ p) s ≡ true
unfolding strncmp_eq
strncmp_eq-append [] p = refl
strncmp_eq-append (c ∷ cs) p = ground (arith, strncmp_eq-append cs p)
