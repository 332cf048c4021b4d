-- ===== src/Rv/Tests.antt =====
-- Counters on a memcached of one list of numbers, and the witness.
use ngxmp.Base.{
  ℕ, zero, suc, ◌+◌, ◌-◌, ◌*◌, ◌≡◌, refl, true, ◌&&◌, Option, none, some, [], ◌∷◌, leb,
  if◌then◌else◌, Bytes, codes, length, strncmp_eq,
}
use ngxmp.Rv.{Op, rv_incr, rv_decr, ℤ, pos, negsuc, Memcache}
use ngxmp.Util.VarName.{var_name}
use ngxmp.Rv.Command.{declare, declared, op_of, default_of, is_declared}
use ngxmp.Rv.Counters.{moved}

-- A memcached with one counter, for all keys; a number is written with as many strokes, and a minus
-- before them where it is negative.
abbrev Store : Type 0
Store = Option ℕ

abbrev strokes : ℕ → Bytes
strokes zero = []
strokes (suc n) = b'|' ∷ strokes n

abbrev print_d : ℤ → Bytes
print_d (pos n) = strokes n
print_d (negsuc n) = b'-' ∷ strokes (suc n)

abbrev bump : Op → Store → ℤ → Store × ℕ
bump op none d = (none, 0)
bump op (some a) (negsuc d) = (some a, 0)
bump op (some a) (pos d) = (some (moved op a d), moved op a d)

abbrev mem : Memcache Store
mem = record {
  aget = λ m s k. none;
  delete = λ m s k. none;
  incr = λ m s k d. bump rv_incr m d;
  decr = λ m s k d. bump rv_decr m d;
  set = λ m s k t. (some (length t), true);
  connect_again = λ m s. m;
}

abbrev number : Store → ℕ → Bytes → Option ℕ
number m s key = m

abbrev atoi : Bytes → ℤ
atoi v = pos (length v)

-- Digits, or -1.
abbrev digits : ℕ → Bytes → ℤ
digits acc [] = pos acc
digits acc (c ∷ s) =
    let rest = digits (acc * 10 + (c - b'0')) s in
    if leb b'0' c && leb c b'9' then rest else negsuc 0

abbrev atoi_digits : Bytes → ℤ
atoi_digits [] = negsuc 0
atoi_digits (c ∷ s) = digits 0 (c ∷ s)

-- The default of a counter is looked for in the word of the operation.
no_default :
    declare atoi_digits true true
      (codes "remote_var" ∷ codes "$v" ∷ codes "$k" ∷ codes "up" ∷ codes "incr" ∷ codes "7" ∷ [])
      []
    ≡ declared (record {
      val_name = codes "v";
      key_name = codes "k";
      us_name = codes "up";
      op = rv_incr;
      v0 = 0;
    })
unfolding declare ngxmp.Rv.Command.declare_named var_name op_of default_of is_declared strncmp_eq
no_default = refl
