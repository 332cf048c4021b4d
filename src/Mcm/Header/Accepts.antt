-- ===== src/Mcm/Header/Accepts.antt =====
-- What `process_header` makes of an answer that follows the protocol, and what it accepts.
use ngxmp.Base.{
  ℕ, suc, ◌<◌, ◌^◌, ◌≡◌, ◌≢◌, refl, sym, ap, subst, ◌∙◌, Option, some, List, [], ◌∷◌, ◌++◌, Bytes,
  length, drop-append, append_assoc, arith, All, codes, strncmp_eq-append,
}
use ngxmp.Mcm.{Variable, cr, lf, size_add, size_sub}
use ngxmp.Mcm.Header.{
  found, find_lf, skip_flags, skip_cr, announce, read_length, after_flags, after_key, parse_line,
  process_header,
}

-- Bytes that stand in a header line.
abbrev pub InLine : ℕ → Type 0
InLine c = (c ≢ 0) × (c ≢ lf)

abbrev pub IsFlag : ℕ → Type 0
IsFlag c = InLine c × (c ≢ b' ')

abbrev pub IsDigit : ℕ → Type 0
IsDigit c = InLine c × (c ≢ cr)

find_lf_lem :
    (line rest : Bytes) (past : ℕ)
    → All (λ c. c ≢ lf) line
    → find_lf (line ++ lf ∷ rest) past ≡ some (line, rest)
unfolding find_lf
find_lf_lem [] rest past h = refl
find_lf_lem (c ∷ cs) rest past (h, hs) = ground (arith, find_lf_lem cs rest past hs)

skip_flags_lem : (flags p : Bytes) → All IsFlag flags → skip_flags (flags ++ b' ' ∷ p) ≡ some p
unfolding skip_flags
skip_flags_lem [] p h = refl
skip_flags_lem (c ∷ cs) p (h, hs) = ground (arith, skip_flags_lem cs p hs)

skip_cr_lem :
    (digits p : Bytes) → All IsDigit digits → skip_cr (digits ++ cr ∷ p) ≡ (suc (length digits), p)
unfolding skip_cr
skip_cr_lem [] p h = refl
skip_cr_lem (c ∷ cs) p (h, hs) = ground (arith, skip_cr_lem cs p hs)

All-append {ℓ κ} :
    {A : Type ℓ} (P : A → Type κ) (xs ys : List A) → All P xs → All P ys → All P (xs ++ ys)
All-append P [] ys hx hy = hy
All-append P (x ∷ xs) ys hx hy = (hx.0, All-append P xs ys hx.1 hy)

All-map {ℓ κ μ} :
    {A : Type ℓ} (P : A → Type κ) (Q : A → Type μ) (xs : List A)
    → ((x : A) → P x → Q x)
    → All P xs
    → All Q xs
All-map P Q [] f h = tt
All-map P Q (x ∷ xs) f h = (f x h.0, All-map P Q xs f h.1)

-- The first line of a protocol answer, without CRLF.
abbrev pub value_line : Bytes → Bytes → Bytes → Bytes
value_line key flags digits = codes "VALUE " ++ (key ++ (b' ' ∷ (flags ++ (b' ' ∷ digits))))

module _ (atoof : Bytes → ℕ → Option ℕ) (pv sv : Variable) where
  read_length_lem :
      (digits body : Bytes) (n : ℕ)
      → All IsDigit digits
      → length digits < 2 ^ 32
      → atoof (digits ++ cr ∷ 0 ∷ body) (length digits) ≡ some n
      → read_length atoof (some pv) (some sv) (digits ++ cr ∷ 0 ∷ body)
        ≡ found (size_add n (size_add (length pv.text) (length sv.text))) body
  unfolding read_length announce
  read_length_lem digits body n h b e =
      let size : size_sub (suc (length digits)) 1 ≡ length digits = omega arith in
      rw (skip_cr_lem digits (0 ∷ body) h) (rw (size, e))

  after_key_lem :
      (flags digits body : Bytes) (n : ℕ)
      → All IsFlag flags
      → All IsDigit digits
      → length digits < 2 ^ 32
      → atoof (digits ++ cr ∷ 0 ∷ body) (length digits) ≡ some n
      → after_key atoof (some pv) (some sv) (b' ' ∷ (flags ++ (b' ' ∷ (digits ++ cr ∷ 0 ∷ body))))
        ≡ found (size_add n (size_add (length pv.text) (length sv.text))) body
  unfolding after_key after_flags
  after_key_lem flags digits body n hf hd b e =
      rw (skip_flags_lem flags (digits ++ cr ∷ 0 ∷ body) hf) (read_length_lem digits body n hd b e)

  parse_line_lem :
      (key flags digits body : Bytes) (n : ℕ)
      → All IsFlag flags
      → All IsDigit digits
      → length digits < 2 ^ 32
      → atoof (digits ++ cr ∷ 0 ∷ body) (length digits) ≡ some n
      → parse_line atoof
          (some pv)
          (some sv)
          key
          (codes "VALUE " ++ (key ++ (b' ' ∷ (flags ++ (b' ' ∷ (digits ++ cr ∷ 0 ∷ body))))))
        ≡ found (size_add n (size_add (length pv.text) (length sv.text))) body
  unfolding parse_line
  parse_line_lem key flags digits body n hf hd b e =
      let tail = b' ' ∷ (flags ++ (b' ' ∷ (digits ++ cr ∷ 0 ∷ body))) in
      rw
        (
          strncmp_eq-append (codes "VALUE ") (key ++ tail),
          strncmp_eq-append key tail,
          drop-append key tail,
        )
        (after_key_lem flags digits body n hf hd b e)

  -- The whole first line, CRLF included, with any body behind it.
  value_line-append :
      (key flags digits rest : Bytes)
      → value_line key flags digits ++ rest
        ≡ codes "VALUE " ++ (key ++ (b' ' ∷ (flags ++ (b' ' ∷ (digits ++ rest)))))
  value_line-append key flags digits rest = simp append_assoc

  value_line-InLine :
      (key flags digits : Bytes)
      → All InLine key
      → All IsFlag flags
      → All IsDigit digits
      → All (λ c. c ≢ lf) (value_line key flags digits ++ cr ∷ [])
  value_line-InLine key flags digits hk hf hd =
      let no_lf = λ (c : ℕ) (h : InLine c). h.1 in
      subst (All (λ c. c ≢ lf)) (sym (value_line-append key flags digits (cr ∷ []))) (
        All-append (λ c. c ≢ lf) (codes "VALUE ") _ (omega arith)
          (All-append (λ c. c ≢ lf) key _ (All-map InLine (λ c. c ≢ lf) key no_lf hk)
            (
              omega arith,
              All-append (λ c. c ≢ lf) flags _
                  (All-map IsFlag (λ c. c ≢ lf) flags (λ c h. h.0.1) hf)
                  (
                    omega arith,
                    All-append (λ c. c ≢ lf) digits (cr ∷ [])
                        (All-map IsDigit (λ c. c ≢ lf) digits (λ c h. h.0.1) hd) (omega arith),
                  ),
            )))

  -- An answer line VALUE key flags digits CRLF for the key that was asked is accepted: the
  -- announced length is the number read from the digits plus the lengths of the two variables, and
  -- the body starts right behind the line.
  pub process_header-value_line :
      (key flags digits body : Bytes) (past n : ℕ)
      → All InLine key
      → All IsFlag flags
      → All IsDigit digits
      → length digits < 2 ^ 32
      → atoof (digits ++ cr ∷ 0 ∷ body) (length digits) ≡ some n
      → process_header atoof
          (some pv)
          (some sv)
          key
          (value_line key flags digits ++ cr ∷ lf ∷ body)
          past
        ≡ found (size_add n (size_add (length pv.text) (length sv.text))) body
  unfolding process_header
  process_header-value_line key flags digits body past n hk hf hd b e =
      let line = value_line key flags digits ++ cr ∷ [] in
      let seen : find_lf (value_line key flags digits ++ cr ∷ lf ∷ body) past ≡ some (line, body) =
        ap (λ m. find_lf m past)
          (sym (append_assoc (value_line key flags digits) (cr ∷ []) (lf ∷ body)))
        ∙ find_lf_lem line body past (value_line-InLine key flags digits hk hf hd) in
      let split =
        append_assoc (value_line key flags digits) (cr ∷ []) (0 ∷ body)
        ∙ value_line-append key flags digits (cr ∷ 0 ∷ body) in
      rw (seen, process_header) (rw split (parse_line_lem key flags digits body n hf hd b e))
