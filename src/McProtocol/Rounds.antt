-- ===== src/McProtocol/Rounds.antt =====
-- One round of the loop for each kind of table entry: what makes it go on, and what follows from
-- that it has gone on.
use ngxmp.Base.{
  ℕ, ◌+◌, ◌-◌, ◌≤◌, ◌<◌, ◌≡◌, ◌≢◌, refl, ap, none, some, List, [], ◌∷◌, ◌++◌, Bytes, length, arith,
  All, Option-cases, Bool-cases, inl, inr,
}
use ngxmp.McProtocol.{
  McStatus, null, Buffer, McData, Step, advance, again, error, Rc, rc_ok, remember_cur, matches_at,
  scan_text, expect, continue, found_at, step_until_delim, step_until, step, offset, parse_from,
}
use ngxmp.McProtocol.Scan.{
  Holds, matches_at-Holds, Holds-matches_at, scan_text_bounds, scan_text-Holds, scan_delim-Holds,
  Holds-append_right,
}

module _ (b : Buffer) where
  pub parse_from-advance :
      (s : McStatus) (sts : List McStatus) (d e : McData)
      → s ≢ null
      → step s b (offset d) d ≡ advance e
      → parse_from (s ∷ sts) b d ≡ parse_from sts b e
  unfolding parse_from
  parse_from-advance null sts d e n h = absurd (n refl)
  parse_from-advance s sts d e n h = ap (continue (_ ∷ sts) (parse_from sts b)) h

  continue-ok :
      (l : List McStatus) (f : McData → Rc × McData) (st : Step)
      → (continue l f st).0 ≡ rc_ok
      → (e : McData) × (st ≡ advance e) × ((f e).0 ≡ rc_ok)
  continue-ok l f (advance e) h = (e, refl, h)
  continue-ok l f (again e) h = cc
  continue-ok l f (error e) h = cc

  pub parse_from-ok :
      (s : McStatus) (sts : List McStatus) (d : McData)
      → s ≢ null
      → (parse_from (s ∷ sts) b d).0 ≡ rc_ok
      → (e : McData) × (step s b (offset d) d ≡ advance e) × ((parse_from sts b e).0 ≡ rc_ok)
  unfolding parse_from
  parse_from-ok null sts d n h = absurd (n refl)
  parse_from-ok s sts d n h = continue-ok (_ ∷ sts) (parse_from sts b) (step _ b (offset d) d) h

  pub expect-Holds :
      (text : Bytes) (c : ℕ) (d : McData)
      → Holds b.mem c text
      → c + length text ≤ b.last
      → expect b text c d ≡ advance (record d { c = some (c + length text) })
  unfolding expect
  expect-Holds text c d h l = ground (arith, matches_at-Holds b.mem c text h)

  pub expect-eq-advance :
      (text : Bytes) (c : ℕ) (d e : McData)
      → expect b text c d ≡ advance e
      → Holds b.mem c text
        × (c + length text ≤ b.last)
        × (e ≡ record d { c = some (c + length text) })
  unfolding expect
  expect-eq-advance text c d e h = elim (Bool-cases (matches_at b.mem c text)) [
    | inl m ↦ (Holds-matches_at b.mem c text m, ground arith, ground arith)
    | inr m ↦ absurd (ground arith)
  ]

  pub step_until-Holds :
      (x : ℕ) (text pre : Bytes) (c : ℕ) (d : McData)
      → d.pre ≡ none
      → All (λ y. y ≢ x) pre
      → Holds b.mem c (pre ++ x ∷ text)
      → c + length pre < b.last
      → step_until b (x ∷ text) c d ≡ advance (record d { c = some (c + length pre); pre = some c })
  unfolding step_until remember_cur found_at
  step_until-Holds x text pre c d n a h l =
      rw (n, step_until)
        (rw
          (scan_text-Holds b.mem x text pre (b.last - c) c (c + length pre) a h (omega arith) refl))

  pub step_until-eq-advance :
      (text : Bytes) (c : ℕ) (d e : McData)
      → d.pre ≡ none
      → step_until b text c d ≡ advance e
      → (i : ℕ) × (c ≤ i) × Holds b.mem i text × (e ≡ record d { c = some i; pre = some c })
  unfolding step_until remember_cur found_at
  step_until-eq-advance text c d e n h = elim (Option-cases (scan_text b.mem text (b.last - c) c)) [
    | inl z ↦ absurd (ground arith)
    | inr (i, z) ↦
        let (lo, hi, holds) = scan_text_bounds b.mem text (b.last - c) c i z in
        (i, lo, holds, ground arith)
  ]

  pub step_until_delim-Holds :
      (pre : Bytes) (c : ℕ) (d : McData)
      → d.pre ≡ none
      → All (λ y. y ≢ b' ') pre
      → Holds b.mem c (pre ++ b' ' ∷ [])
      → c + length pre < b.last
      → step_until_delim b c d ≡ advance (record d { c = some (c + length pre); pre = some c })
  unfolding step_until_delim remember_cur
  step_until_delim-Holds pre c d n a h l = ground (
    arith,
    scan_delim-Holds b.mem pre (b.last - c) c (c + length pre) a h (omega arith) refl,
    (Holds-append_right b.mem c (c + length pre) pre (b' ' ∷ []) h refl).0,
  )
