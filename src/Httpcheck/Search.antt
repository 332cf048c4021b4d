-- ===== src/Httpcheck/Search.antt =====
-- What the loops that search and trim in the answer of a checked server find.
use ngxmp.Base.{
  ℕ, zero, suc, ◌-◌, ◌≤◌, ◌<◌, ◌≡◌, refl, sym, ap, ◌∙◌, Bool, true, false, ◌||◌, Option, none, some,
  [], ◌∷◌, ◌==◌, drop, Bytes, next, strncmp_eq, arith, length, length-drop, length-eq-zero, ltb,
  ltb→lt, Bool-cases, inl, inr, ==→eq,
}
use ngxmp.Httpcheck.{find, byte_at, trim}

-- The pattern stands at none of the first `k` places.
abbrev pub Absent : Bytes → ℕ → Bytes → Type 0
Absent pat k p = (i : ℕ) → i < k → strncmp_eq (drop i p) pat ≡ false

drop-nil : (n : ℕ) → drop {A = ℕ} n [] ≡ []
drop-nil zero = refl
drop-nil (suc n) = refl

drop-next : (n : ℕ) (p : Bytes) → drop (suc n) p ≡ drop n (next p)
drop-next n [] = sym (drop-nil n)
drop-next n (x ∷ p) = refl

pub find-Absent : (pat : Bytes) (k : ℕ) (p : Bytes) → Absent pat k p → find pat k p ≡ k
unfolding find
find-Absent pat zero p h = refl
find-Absent pat (suc k) p h =
    rw
      (
        h 0 (omega arith),
        find-Absent pat k (next p) (λ i l.
            ap (λ q. strncmp_eq q pat) (sym (drop-next i p)) ∙ h (suc i) (omega (arith, l))),
      )
      refl

-- Where the search does not run to its end, it stops at the pattern.
pub find-found :
    (pat : Bytes) (k : ℕ) (p : Bytes)
    → find pat k p < k
    → strncmp_eq (drop (find pat k p) p) pat ≡ true
unfolding find
find-found pat zero p h = absurd (omega (arith, h))
find-found pat (suc k) p h = elim (Bool-cases (strncmp_eq p pat)) [
  | inl e ↦ rw e e
  | inr e ↦
      let q : find pat (suc k) p ≡ suc (find pat k (next p)) = rw e refl in
      rw (e, drop-next (find pat k (next p)) p) (find-found pat k (next p) (omega (arith, h, q)))
]

pub find-le : (pat : Bytes) (k : ℕ) (p : Bytes) → find pat k p ≤ k
unfolding find
find-le pat zero p = omega arith
find-le pat (suc k) p = ground (arith, find-le pat k (next p))

-- CR or LF.
abbrev pub is_line_end : ℕ → Bool
is_line_end c = c == 13 || c == 10

-- The bytes from `e` to `last` are CR and LF.
abbrev pub LineEnds : Bytes → ℕ → ℕ → Type 0
LineEnds mem e last = (i : ℕ) → e ≤ i → i < last → is_line_end (byte_at mem i) ≡ true

-- What is taken off the end of a line that ends at `last` are CR and LF, and what is left does not
-- end with them.
abbrev pub Trimmed : Bytes → ℕ → Option ℕ → Type 0
Trimmed mem last none = Unit
Trimmed mem last (some e) =
    (e ≤ last) × (is_line_end (byte_at mem (e - 1)) ≡ false) × LineEnds mem e last

Trimmed-longer :
    (mem : Bytes) (last : ℕ) (o : Option ℕ)
    → is_line_end (byte_at mem last) ≡ true
    → Trimmed mem last o
    → Trimmed mem (suc last) o
Trimmed-longer mem last none z t = tt
Trimmed-longer mem last (some e) z (l, b, ends) = (
  omega (arith, l),
  b,
  λ i le lt. elim (Bool-cases (i == last)) [
    | inl q ↦ ap (λ j. is_line_end (byte_at mem j)) (==→eq i last q) ∙ z
    | inr q ↦ ends i le (ground arith)
  ],
)

pub trim-Trimmed : (mem : Bytes) (last : ℕ) → Trimmed mem last (trim mem last)
unfolding trim
trim-Trimmed mem zero = tt
trim-Trimmed mem (suc last) = elim (Bool-cases (is_line_end (byte_at mem last))) [
  | inl z ↦ rw z (Trimmed-longer mem last (trim mem last) z (trim-Trimmed mem last))
  | inr z ↦ rw z (
    omega arith,
    ap (λ j. is_line_end (byte_at mem j)) {x = suc last - 1} {y = last} (omega arith) ∙ z,
    λ i le lt. absurd (omega (arith, le, lt)),
  )
]

Absent-later :
    (pat : Bytes) (k : ℕ) (p : Bytes)
    → strncmp_eq p pat ≡ false
    → Absent pat k (next p)
    → Absent pat (suc k) p
Absent-later pat k p e h zero l = e
Absent-later pat k p e h (suc i) l =
    ap (λ q. strncmp_eq q pat) (drop-next i p) ∙ h i (omega (arith, l))

-- A search that runs to its end has not met the pattern.
pub Absent-find : (pat : Bytes) (k : ℕ) (p : Bytes) → find pat k p ≡ k → Absent pat k p
unfolding find
Absent-find pat zero p h i l = absurd (omega (arith, l))
Absent-find pat (suc k) p h i l = elim (Bool-cases (strncmp_eq p pat)) [
  | inl e ↦ let q : find pat (suc k) p ≡ 0 = rw e refl in absurd (omega (arith, h, q))
  | inr e ↦
      let q : find pat (suc k) p ≡ suc (find pat k (next p)) = rw e refl in
      Absent-later pat k p e (Absent-find pat k (next p) (omega (arith, h, q))) i l
]

-- Behind the memory that is modelled no pattern begins with a byte that is not zero.
pub Absent-everywhere :
    (c : ℕ) (cs p : Bytes)
    → (0 == c) ≡ false
    → Absent (c ∷ cs) (length p) p
    → (i : ℕ) → strncmp_eq (drop i p) (c ∷ cs) ≡ false
unfolding strncmp_eq
Absent-everywhere c cs p z h i = elim (Bool-cases (ltb i (length p))) [
  | inl e ↦ h i (ltb→lt _ _ e)
  | inr e ↦
      let past : length p ≤ i = ground arith in
      let q : drop i p ≡ [] = length-eq-zero (drop i p) (omega (arith, length-drop i p, past)) in
      ap (λ w. strncmp_eq w (c ∷ cs)) q ∙ rw z refl
]

-- A search stops at the first place of the pattern.
pub find_first :
    (pat : Bytes) (k h : ℕ) (p : Bytes)
    → h < k
    → strncmp_eq (drop h p) pat ≡ true
    → Absent pat h p
    → find pat k p ≡ h
unfolding find
find_first pat zero h p l m a = absurd (omega (arith, l))
find_first pat (suc k) zero p l m a = rw m refl
find_first pat (suc k) (suc h) p l m a =
    let later : Absent pat h (next p) =
      λ i le. ap (λ q. strncmp_eq q pat) (sym (drop-next i p)) ∙ a (suc i) (omega (arith, le)) in
    let there = ap (λ q. strncmp_eq q pat) (sym (drop-next h p)) ∙ m in
    rw (a 0 (omega arith)) (ap suc (find_first pat k h (next p) (omega (arith, l)) there later))

-- The loop that trims stops at the first byte from the end that is not CR or LF.
pub trim_lem :
    (mem : Bytes) (last e : ℕ)
    → 0 < e
    → e ≤ last
    → is_line_end (byte_at mem (e - 1)) ≡ false
    → LineEnds mem e last
    → trim mem last ≡ some e
unfolding trim
trim_lem mem zero e pos l b ends = absurd (omega (arith, pos, l))
trim_lem mem (suc last) e pos l b ends = elim (Bool-cases (e == suc last)) [
  | inl z ↦
      let q = ==→eq e (suc last) z in
      let here : is_line_end (byte_at mem last) ≡ false =
        ap (λ j. is_line_end (byte_at mem j)) {x = last} {y = e - 1} (omega (arith, q)) ∙ b in
      rw here (ap some (sym q))
  | inr z ↦
      let before : e ≤ last = ground arith in
      rw (ends last before (omega arith))
        (trim_lem mem last e pos before b (λ i le lt. ends i le (omega (arith, lt))))
]
