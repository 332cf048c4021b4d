-- ===== src/Rv/Counters.antt =====
-- The counters of remote variables, on a memcached that counts.
use ngxmp.Base.{
  ℕ, ◌+◌, ◌-◌, ◌^◌, ◌≡◌, true, Option, none, some, [], ◌==◌, if◌then◌else◌, Bytes, ◌<◌,
}
use ngxmp.Rv.{Op, rv_incr, rv_decr, ℤ, pos, Memcache, Stored, pooled, on_stack, count}

-- What an operation makes of a counter.
abbrev pub moved : Op → ℕ → ℕ → ℕ
moved rv_incr a d = a + d
moved _ a d = a - d

-- The number that a counter has afterwards, by the one it had: where there was none, and also where
-- it would become 0, that of the default.
abbrev pub next_count : Op → ℕ → ℕ → Option ℕ → ℕ
next_count op v0 d none = moved op v0 d
next_count op v0 d (some a) = if moved op a d == 0 then moved op v0 d else moved op a d

abbrev pub text_of : Stored → Bytes
text_of Stored.not_found = []
text_of (pooled t) = t
text_of (Stored.given t) = t
text_of (on_stack t) = t

-- An operation that counts.
pub data Counts : Op → Type 0 where
  by_incr : Counts rv_incr
  by_decr : Counts rv_decr

module _ {M : Type 0} (mc : Memcache M) (crc32 : Bytes → ℕ) (atoi : Bytes → ℤ) (print_d : ℤ → Bytes)
    (servers : ℕ) (number : M → ℕ → Bytes → Option ℕ) where
  -- A counter that is there is moved, short of an overflow, and its new number is returned.
  abbrev pub Moves : Type 0
  Moves =
      (op : Op) (m : M) (s : ℕ) (key : Bytes) (a d : ℕ)
      → Counts op
      → number m s key ≡ some a
      → a + d < 2 ^ 32
      → (m' : M) × (count mc op m s key (pos d) ≡ (m', moved op a d))
        × (number m' s key ≡ some (moved op a d))

  -- A counter that is missing stays so, and 0 is returned.
  abbrev pub Misses : Type 0
  Misses =
      (op : Op) (m : M) (s : ℕ) (key : Bytes) (d : ℕ)
      → Counts op
      → number m s key ≡ none
      → count mc op m s key (pos d) ≡ (m, 0)

  -- A number that is stored is there, as far as "%d" prints it.
  abbrev pub Stores : Type 0
  Stores =
      (m : M) (s : ℕ) (key : Bytes) (n : ℕ)
      → n < 2 ^ 31
      → (m' : M) × (mc.set m s key (print_d (pos n)) ≡ (m', true)) × (number m' s key ≡ some n)

  -- What a call leaves: the number that the counter has on its server, and the text of that number
  -- in the variable.
  abbrev pub Leaves : ℕ → Bytes → ℕ → M × Option Stored → Type 0
  Leaves s key n r =
      (m' : M) × (st : Stored) × (r ≡ (m', some st))
      × (number m' s key ≡ some n)
      × (text_of st ≡ print_d (pos n))
