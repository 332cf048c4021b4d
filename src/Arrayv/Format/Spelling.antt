-- ===== src/Arrayv/Format/Spelling.antt =====
-- How texts are spelled in a format: a byte stands for itself, or for itself behind a backslash.
-- The loops of the reader give the texts that are spelled.
use ngxmp.Base.{
  ℕ, zero, suc, ◌+◌, ◌-◌, ◌≡◌, refl, ap, Bool, true, false, List, [], ◌∷◌, ◌++◌, ◌==◌,
  if◌then◌else◌, Bytes, length, peek, arith, ==_self,
}
use ngxmp.Arrayv.Format.{add_byte, scan, do_scan, scan_tail, is_byte, ends_del}

-- A text that ends at the first byte for which `stop` holds.
pub data Spells (stop : ℕ → Bool) : Bytes → Bytes → Type 0 where
  nil : Spells stop [] []
  plain :
      {c : ℕ} {s t : Bytes}
      → (c == b'\\') ≡ false
      → stop c ≡ false
      → Spells stop s t
      → Spells stop (c ∷ s) (c ∷ t)
  taken : (c : ℕ) {s t : Bytes} → Spells stop s t → Spells stop (b'\\' ∷ c ∷ s) (c ∷ t)

-- The delimiters, each with `$` behind it.
pub data SpellsDels : Bytes → List Bytes → Type 0 where
  dels_nil : SpellsDels [] []
  dels_cons :
      {s d ss : Bytes} {ds : List Bytes}
      → Spells ends_del s d
      → SpellsDels ss ds
      → SpellsDels (s ++ b'$' ∷ ss) (d ∷ ds)

plus_suc : (a b : ℕ) → suc a + b ≡ suc (a + b)
plus_suc a b = omega arith

zero_plus : (b : ℕ) → 0 + b ≡ b
zero_plus b = omega arith

sub_one : (a b : ℕ) → suc a + b - 1 ≡ a + b
sub_one a b = omega arith

module _ (stop : ℕ → Bool) (bs : stop b'\\' ≡ false) where
  pub scan-Spells :
      {s t : Bytes} (k : ℕ) (p : Bytes)
      → scan stop false k p ≡ record { text = []; left = k; at = p }
      → Spells stop s t
      → scan stop false (length s + k) (s ++ p) ≡ record { text = t; left = k; at = p }
  unfolding scan
  scan-Spells k p e nil = rw zero_plus e
  scan-Spells k p e (plain {c} {s} h i sp) =
      rw (plus_suc (length s) k, i, h) (ap (add_byte c) (scan-Spells k p e sp))
  scan-Spells k p e (taken c {s} sp) =
      rw (plus_suc (suc (length s)) k, plus_suc (length s) k, bs)
        (ap (add_byte c) (scan-Spells k p e sp))

  -- A loop stops at the end of the string, and at the byte that ends the text.
  pub scan-stop :
      (k d : ℕ) (rest : Bytes)
      → stop d ≡ true
      → scan stop false k (d ∷ rest) ≡ record { text = []; left = k; at = d ∷ rest }
  unfolding scan
  scan-stop zero d rest e = refl
  scan-stop (suc k) d rest e = rw e refl

  -- What stands in front of the byte `x` begins with no byte that ends the text.
  pub peek-Spells :
      {s t : Bytes} (c x : ℕ) (rest : Bytes)
      → ((y : ℕ) → stop y ≡ false → (y == c) ≡ false)
      → (x == c) ≡ false
      → Spells stop s t
      → (peek (s ++ x ∷ rest) == c) ≡ false
  peek-Spells c x rest f e nil = e
  peek-Spells c x rest f e (plain {c = y} h i sp) = f y i
  peek-Spells c x rest f e (taken y sp) = f b'\\' bs

-- The texts that begin the format: empty before their end, and read by a do-while loop if not.
pub do_scan-Spells :
    {s t : Bytes} (d k : ℕ) (rest : Bytes)
    → (b'\\' == d) ≡ false
    → Spells (is_byte d) s t
    → (if peek (s ++ d ∷ rest) == d
        then record { text = []; left = length s + k; at = s ++ d ∷ rest }
        else do_scan (is_byte d) (length s + k) (s ++ d ∷ rest))
      ≡ record { text = t; left = k; at = d ∷ rest }
unfolding do_scan scan
do_scan-Spells d k rest e nil = ground arith
do_scan-Spells d k rest e (plain {c} {s} h i sp) =
    rw (i, h, sub_one (length s) k)
      (ap (add_byte c)
        (scan-Spells (is_byte d) e k (d ∷ rest) (scan-stop (is_byte d) e k d rest (==_self d)) sp))
do_scan-Spells d k rest e (taken c {s} sp) =
    rw (e, sub_one (suc (length s)) k, plus_suc (length s) k)
      (ap (add_byte c)
        (scan-Spells (is_byte d) e k (d ∷ rest) (scan-stop (is_byte d) e k d rest (==_self d)) sp))

pub scan_tail-Spells :
    {s t : Bytes} (rest : Bytes) → Spells (is_byte 0) s t → scan_tail false (s ++ 0 ∷ rest) ≡ t
unfolding scan_tail
scan_tail-Spells rest nil = refl
scan_tail-Spells rest (plain {c} h i sp) = rw (i, h) (ap (λ z. c ∷ z) (scan_tail-Spells rest sp))
scan_tail-Spells rest (taken c sp) = ap (λ z. c ∷ z) (scan_tail-Spells rest sp)
