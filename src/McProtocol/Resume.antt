-- ===== src/McProtocol/Resume.antt =====
-- What happens when the parser is called again with more data after NGX_AGAIN.
use ngxmp.Base.{ℕ, ◌≡◌, ◌≢◌, refl, sym, ap, subst, Option, none, some, List, [], ◌∷◌, Bytes, arith}
use ngxmp.McProtocol.{
  McStatus, start, until_delim, until_end, until_lb, null, Buffer, McData, Step, advance, again,
  error, Rc, rc_again, rc_error, remember_cur, continue, found_at, step_until_delim, step_until,
  step, offset, parse_from, parse, mc_cmd_end, mc_cmd_linebreak,
}

abbrev pub IsUntil : McStatus → Type 0
IsUntil until_delim = Unit
IsUntil until_end = Unit
IsUntil until_lb = Unit
IsUntil _ = ⊥

-- At an entry that searches, the start of the search is remembered.
abbrev Remembers : List McStatus → Option ℕ → Type 0
Remembers [] o = Unit
Remembers (s ∷ l) o = IsUntil s → o ≢ none

step_until-again :
    (b : Buffer) (text : Bytes) (c : ℕ) (d e : McData)
    → step_until b text c d ≡ again e
    → e.pre ≢ none
unfolding step_until remember_cur found_at
step_until-again b text c d e h = ground arith

step_until_delim-again :
    (b : Buffer) (c : ℕ) (d e : McData) → step_until_delim b c d ≡ again e → e.pre ≢ none
unfolding step_until_delim remember_cur
step_until_delim-again b c d e h = ground arith

step-again :
    (s : McStatus) (b : Buffer) (c : ℕ) (d e : McData)
    → step s b c d ≡ again e
    → IsUntil s
    → e.pre ≢ none
unfolding step
step-again until_delim b c d e h u = step_until_delim-again b c d e h
step-again until_end b c d e h u = step_until-again b mc_cmd_end c d e h
step-again until_lb b c d e h u = step_until-again b mc_cmd_linebreak c d e h
step-again start b c d e h u = elim u [ ]
step-again _ b c d e h u = elim u [ ]

continue-again :
    (s : McStatus) (l : List McStatus) (f : McData → Rc × McData) (st : Step) (e : McData)
    → ((d : McData) → f d ≡ (rc_again, e) → Remembers e.st e.pre)
    → ((d : McData) → st ≡ again d → IsUntil s → d.pre ≢ none)
    → continue (s ∷ l) f st ≡ (rc_again, e)
    → Remembers e.st e.pre
continue-again s l f (advance d) e rec now h = rec d h
continue-again s l f (again d) e rec now h =
    subst (λ (x : McData). Remembers x.st x.pre) (ap (λ (r : Rc × McData). r.1) h) (now d refl)
continue-again s l f (error d) e rec now h = cc

parse_from-again :
    (sts : List McStatus) (b : Buffer) (d e : McData)
    → parse_from sts b d ≡ (rc_again, e)
    → Remembers e.st e.pre
unfolding parse_from
parse_from-again [] b d e h = cc
parse_from-again (null ∷ sts) b d e h = cc
parse_from-again (s ∷ sts) b d e h =
    continue-again _ sts (parse_from sts b) (step _ b (offset d) d) e
      (λ d' h'. parse_from-again sts b d' e h') (λ d' h' u. step-again _ b (offset d) d d' h' u) h

module _ (b : Buffer) (l : List McStatus) where
  step_until-error :
      (text : Bytes) (c : ℕ) (d : McData) → d.pre ≢ none → step_until b text c d ≡ error d
  unfolding step_until remember_cur
  step_until-error text c d n = ground arith

  step_until_delim-error : (c : ℕ) (d : McData) → d.pre ≢ none → step_until_delim b c d ≡ error d
  unfolding step_until_delim remember_cur
  step_until_delim-error c d n = ground arith

  parse_from-error :
      (s : McStatus) (d : McData) → IsUntil s → d.pre ≢ none → (parse_from (s ∷ l) b d).0 ≡ rc_error
  unfolding parse_from step
  parse_from-error until_delim d u n = rw (step_until_delim-error (offset d) d n)
  parse_from-error until_end d u n = rw (step_until-error mc_cmd_end (offset d) d n)
  parse_from-error until_lb d u n = rw (step_until-error mc_cmd_linebreak (offset d) d n)
  parse_from-error null d u n = elim u [ ]
  parse_from-error _ d u n = elim u [ ]

-- A parser that stopped with NGX_AGAIN at an entry that searches returns NGX_ERROR at the next
-- call, whatever data that call brings.
pub parse-again-until :
    (b b' : Buffer) (s : McStatus) (l : List McStatus) (d e : McData)
    → parse (some b) d ≡ (rc_again, e)
    → e.st ≡ s ∷ l
    → IsUntil s
    → (parse (some b') e).0 ≡ rc_error
unfolding parse
parse-again-until b b' s l d e h q u =
    let kept : IsUntil s → e.pre ≢ none =
      rw q at (parse_from-again d.st b (record d { c = some (offset d) }) e h) in
    let e' = record e { c = some (offset e) } in
    subst (λ (z : List McStatus). (parse_from z b' e').0 ≡ rc_error) (sym q)
      (parse_from-error b' l s e' u (kept u))
