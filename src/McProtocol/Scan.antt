-- ===== src/McProtocol/Scan.antt =====
-- The loops of the parser, and texts that stand in memory.
use ngxmp.Base.{
  ℕ, zero, suc, ◌+◌, ◌≤◌, ◌<◌, ◌≡◌, ◌≢◌, refl, ap, true, false, some, [], ◌∷◌, ◌++◌, Bytes, length,
  arith, All, Bool-cases, inl, inr,
}
use ngxmp.McProtocol.{matches_at, scan_delim, scan_text}

-- The bytes stand in memory from `c` on.
abbrev pub Holds : (ℕ → ℕ) → ℕ → Bytes → Type 0
Holds mem c [] = Unit
Holds mem c (x ∷ xs) = (mem c ≡ x) × Holds mem (c + 1) xs

-- The `n` bytes from `c` on.
abbrev pub bytes_at : (ℕ → ℕ) → ℕ → ℕ → Bytes
bytes_at mem c zero = []
bytes_at mem c (suc n) = mem c ∷ bytes_at mem (c + 1) n

module _ (mem : ℕ → ℕ) where
  pub matches_at-Holds : (c : ℕ) (xs : Bytes) → Holds mem c xs → matches_at mem c xs ≡ true
  unfolding matches_at
  matches_at-Holds c [] h = refl
  matches_at-Holds c (x ∷ xs) (h, hs) = ground (arith, matches_at-Holds (c + 1) xs hs)

  matches_at_ne : (c x : ℕ) (xs : Bytes) → mem c ≢ x → matches_at mem c (x ∷ xs) ≡ false
  unfolding matches_at
  matches_at_ne c x xs h = ground arith

  pub Holds-matches_at : (c : ℕ) (xs : Bytes) → matches_at mem c xs ≡ true → Holds mem c xs
  unfolding matches_at
  Holds-matches_at c [] h = tt
  Holds-matches_at c (x ∷ xs) h = (ground arith, Holds-matches_at (c + 1) xs (ground arith))

  pub Holds-append :
      (c d : ℕ) (xs ys : Bytes)
      → Holds mem c xs
      → Holds mem d ys
      → d ≡ c + length xs
      → Holds mem c (xs ++ ys)
  Holds-append c d [] ys h k e = let e' : c ≡ d = omega arith in rw e' k
  Holds-append c d (x ∷ xs) ys (h, hs) k e = (h, Holds-append (c + 1) d xs ys hs k (omega arith))

  pub Holds-append_left : (c : ℕ) (xs ys : Bytes) → Holds mem c (xs ++ ys) → Holds mem c xs
  Holds-append_left c [] ys h = tt
  Holds-append_left c (x ∷ xs) ys (h, hs) = (h, Holds-append_left (c + 1) xs ys hs)

  pub Holds-append_right :
      (c d : ℕ) (xs ys : Bytes) → Holds mem c (xs ++ ys) → d ≡ c + length xs → Holds mem d ys
  Holds-append_right c d [] ys h e = let e' : d ≡ c = omega arith in rw e' h
  Holds-append_right c d (x ∷ xs) ys (h, hs) e = Holds-append_right (c + 1) d xs ys hs (omega arith)

  pub bytes_at-Holds : (c n : ℕ) → Holds mem c (bytes_at mem c n)
  bytes_at-Holds c zero = tt
  bytes_at-Holds c (suc n) = (refl, bytes_at-Holds (c + 1) n)

  pub length-bytes_at : (c n : ℕ) → length (bytes_at mem c n) ≡ n
  length-bytes_at c zero = refl
  length-bytes_at c (suc n) = ap suc (length-bytes_at (c + 1) n)

  pub scan_delim_bounds : (n c : ℕ) → (c ≤ scan_delim mem n c) × (scan_delim mem n c ≤ c + n)
  unfolding scan_delim
  scan_delim_bounds zero c = omega arith
  scan_delim_bounds (suc n) c = ground (arith, scan_delim_bounds n (c + 1))

  pub scan_text_bounds :
      (text : Bytes) (n c i : ℕ)
      → scan_text mem text n c ≡ some i
      → (c ≤ i) × (i < c + n) × Holds mem i text
  unfolding scan_text
  scan_text_bounds text zero c i e = absurd (ground arith)
  scan_text_bounds text (suc n) c i e = elim (Bool-cases (matches_at mem c text)) [
    | inl m ↦
        let f : c ≡ i = ground arith in
        (omega arith, omega arith, rw (← f) (Holds-matches_at c text m))
    | inr m ↦
        let (a, b, h) = scan_text_bounds text n (c + 1) i (ground arith) in
        (omega arith, omega arith, h)
  ]

  -- A text is found behind bytes that differ from its first one.
  pub scan_text-Holds :
      (x : ℕ) (text pre : Bytes) (n c i : ℕ)
      → All (λ y. y ≢ x) pre
      → Holds mem c (pre ++ x ∷ text)
      → length pre < n
      → i ≡ c + length pre
      → scan_text mem (x ∷ text) n c ≡ some i
  unfolding scan_text
  scan_text-Holds x text pre zero c i a h l e = absurd (omega arith)
  scan_text-Holds x text [] (suc n) c i a h l e =
      rw (matches_at-Holds c (x ∷ text) h) (ap some (omega arith))
  scan_text-Holds x text (y ∷ pre) (suc n) c i (a, as') (h, hs) l e =
      ground (arith, scan_text-Holds x text pre n (c + 1) i as' hs, matches_at_ne c x text)

  pub scan_delim-Holds :
      (pre : Bytes) (n c i : ℕ)
      → All (λ y. y ≢ b' ') pre
      → Holds mem c (pre ++ b' ' ∷ [])
      → length pre < n
      → i ≡ c + length pre
      → scan_delim mem n c ≡ i
  unfolding scan_delim
  scan_delim-Holds pre zero c i a h l e = absurd (omega arith)
  scan_delim-Holds [] (suc n) c i a h l e = ground arith
  scan_delim-Holds (y ∷ pre) (suc n) c i (a, as') (h, hs) l e =
      ground (arith, scan_delim-Holds pre n (c + 1) i as' hs)
