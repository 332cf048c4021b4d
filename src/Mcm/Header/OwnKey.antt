-- ===== src/Mcm/Header/OwnKey.antt =====
-- `process_header` takes no answer for another key.
use ngxmp.Base.{
  ℕ, ◌≡◌, ◌≢◌, refl, ap, ◌∙◌, inl, inr, true, Option, some, [], ◌∷◌, ◌++◌, ◌==◌, Bytes, length,
  drop-append, append_assoc, arith, All, codes, drop, peek, strncmp_eq, Bool-cases, Option-cases,
}
use ngxmp.Mcm.{Variable, lf}
use ngxmp.Mcm.Header.{found, find_lf, after_key, parse_line, process_header}

-- A successful comparison with a text without zeros finds it in front of the terminator.
strncmp_eq-front :
    (line rest s : Bytes)
    → All (λ c. c ≢ 0) s
    → strncmp_eq (line ++ 0 ∷ rest) s ≡ true
    → (r : Bytes) × (line ≡ s ++ r)
unfolding strncmp_eq
strncmp_eq-front line rest [] h e = (line, refl)
strncmp_eq-front [] rest (c ∷ s) (h, hs) e = absurd (ground arith)
strncmp_eq-front (x ∷ line) rest (c ∷ s) (h, hs) e =
    let (r, q) = strncmp_eq-front line rest s hs (ground arith) in (r, ground arith)

-- The line is a front of the buffer.
find_lf-front :
    (buffer : Bytes) (past : ℕ) {line rest : Bytes}
    → find_lf buffer past ≡ some (line, rest)
    → (r : Bytes) × (buffer ≡ line ++ r)
unfolding find_lf
find_lf-front [] past e = ([], ground arith)
find_lf-front (c ∷ cs) past {line} {rest} e = elim (Bool-cases (c == lf)) [
  | inl q ↦ (c ∷ cs, ground arith)
  | inr q ↦ elim (Option-cases (find_lf cs past)) [
    | inl n ↦ absurd (ground arith)
    | inr ((l, t), f) ↦ let (r, g) = find_lf-front cs past f in (r, ground arith)
  ]
]

module _ (atoof : Bytes → ℕ → Option ℕ) (pv sv : Option Variable) where
  after_key-space :
      (p body : Bytes) (n : ℕ) → after_key atoof pv sv p ≡ found n body → peek p ≡ b' '
  unfolding after_key
  after_key-space p body n e = ground arith

  parse_line-eq-found :
      (key p body : Bytes) (n : ℕ)
      → parse_line atoof pv sv key p ≡ found n body
      → (strncmp_eq p (codes "VALUE ") ≡ true)
        × (strncmp_eq (drop 6 p) key ≡ true)
        × (after_key atoof pv sv (drop (length key) (drop 6 p)) ≡ found n body)
  unfolding parse_line
  parse_line-eq-found key p body n e = ground arith

  -- The memory behind the key starts with a blank, so a line has one there.
  blank-front : (r rest : Bytes) → peek (r ++ 0 ∷ rest) ≡ b' ' → (t : Bytes) × (r ≡ b' ' ∷ t)
  blank-front [] rest e = absurd (omega arith)
  blank-front (c ∷ r) rest e = (r, ap (λ x. x ∷ r) e)

  parse_line-front :
      (key line rest body : Bytes) (n : ℕ)
      → All (λ c. c ≢ 0) key
      → parse_line atoof pv sv key (line ++ 0 ∷ rest) ≡ found n body
      → (r : Bytes) × (line ≡ codes "VALUE " ++ (key ++ (b' ' ∷ r)))
  parse_line-front key line rest body n h e =
      let (a, b, c) = parse_line-eq-found key (line ++ 0 ∷ rest) body n e in
      let (s, p) = strncmp_eq-front line rest (codes "VALUE ") (omega arith) a in
      let b' = rw p at b in
      let (t, q) = strncmp_eq-front s rest key h b' in
      let c' = rw (p, q) at c in
      let memory =
        ap (drop (length key)) (append_assoc key t (0 ∷ rest)) ∙ drop-append key (t ++ 0 ∷ rest) in
      let c'' = rw memory at c' in
      let (r, f) = blank-front t rest (after_key-space (t ++ 0 ∷ rest) body n c'') in
      (r, p ∙ ap (λ z. codes "VALUE " ++ z) (q ∙ ap (λ z. key ++ z) f))

  -- Whenever an answer is accepted, the data begin with VALUE, a blank, the very key that was
  -- asked (a key without zero bytes), and a blank: no answer for another key is passed to the
  -- client.
  pub process_header-own_key :
      (key buffer body : Bytes) (past n : ℕ)
      → All (λ c. c ≢ 0) key
      → process_header atoof pv sv key buffer past ≡ found n body
      → (r : Bytes) × (buffer ≡ codes "VALUE " ++ (key ++ (b' ' ∷ r)))
  unfolding process_header
  process_header-own_key key buffer body past n h e = elim (Option-cases (find_lf buffer past)) [
    | inl z ↦ absurd (ground arith)
    | inr ((line, rest), f) ↦
        let (t, g) = find_lf-front buffer past f in
        let (r, p) = parse_line-front key line rest body n h (ground arith) in
        (r ++ t, g ∙ rw p (simp append_assoc))
  ]
