-- ===== src/McProtocol/Bounds.antt =====
-- The parser stays inside the buffer, whatever the table and the data are.
use ngxmp.Base.{
  ℕ, ◌+◌, ◌-◌, ◌≤◌, ◌≡◌, refl, Option, none, some, List, [], ◌∷◌, Bytes, arith, Option-cases, inl,
  inr,
}
use ngxmp.McProtocol.{
  McStatus, start, line_break, cmd, delim, end, until_delim, until_end, until_lb, null, Buffer,
  Span, McData, Step, advance, again, error, Rc, remember_cur, data_str, scan_text, expect,
  expect_cmd, continue, found_at, step_until_delim, step_until, step, offset, parse_from, parse,
  mc_cmd_end, mc_cmd_linebreak,
}
use ngxmp.McProtocol.Scan.{scan_delim_bounds, scan_text_bounds}

abbrev pub Inside : ℕ → Option Span → Type 0
Inside last none = Unit
Inside last (some s) = s.at + s.size ≤ last

abbrev pub Below : Option ℕ → ℕ → Type 0
Below none c = Unit
Below (some p) c = p ≤ c

-- `d->c` and every stored string end at `last` or before it, and `d->pre_c` is not behind `d->c`.
pub record IsBounded (last : ℕ) (d : McData) : Type 0 where
  pub cursor : offset d ≤ last
  pub remembered : Below d.pre (offset d)
  pub in_key : Inside last d.key
  pub in_val : Inside last d.val
  pub in_exp : Inside last d.exp
  pub in_flag : Inside last d.flag
  pub in_len : Inside last d.len

abbrev Keeps : ℕ → Step → Type 0
Keeps last (advance e) = IsBounded last e
Keeps last (again e) = IsBounded last e
Keeps last (error e) = IsBounded last e

module _ (b : Buffer) (d : McData) (h : IsBounded b.last d) where
  expect-Keeps : (text : Bytes) → Keeps b.last (expect b text (offset d) d)
  unfolding expect
  expect-Keeps text = ground arith

  expect_cmd-Keeps : (text : Option Bytes) → Keeps b.last (expect_cmd text b (offset d) d)
  unfolding expect_cmd
  expect_cmd-Keeps none = h
  expect_cmd-Keeps (some text) = expect-Keeps text

  step_until_delim-Keeps : Keeps b.last (step_until_delim b (offset d) d)
  unfolding step_until_delim remember_cur
  step_until_delim-Keeps = ground (arith, scan_delim_bounds b.mem (b.last - offset d) (offset d))

  found_at-Keeps :
      (text : Bytes) (e : McData)
      → IsBounded b.last e
      → offset e ≡ offset d
      → Below e.pre (offset d)
      → Keeps b.last (found_at b (offset d) e (scan_text b.mem text (b.last - offset d) (offset d)))
  unfolding found_at
  found_at-Keeps text e k o r =
      elim (Option-cases (scan_text b.mem text (b.last - offset d) (offset d))) [
        | inl z ↦ rw z (ground arith)
        | inr (i, z) ↦
            let (lo, hi, _) = scan_text_bounds b.mem text (b.last - offset d) (offset d) i z in
            rw z (ground arith)
      ]

  step_until-Keeps : (text : Bytes) → Keeps b.last (step_until b text (offset d) d)
  unfolding step_until remember_cur
  step_until-Keeps text = elim (Option-cases d.pre) [
    | inl z ↦
        rw (z, step_until)
          (found_at-Keeps text (record d { pre = some (offset d) }) (ground arith) refl
            (omega arith))
    | inr (p, z) ↦ ground arith
  ]

  step-Keeps : (s : McStatus) → Keeps b.last (step s b (offset d) d)
  unfolding step
  step-Keeps start = h
  step-Keeps line_break = expect-Keeps mc_cmd_linebreak
  step-Keeps cmd = expect_cmd-Keeps d.cmd
  step-Keeps delim = expect-Keeps (b' ' ∷ [])
  step-Keeps end = expect-Keeps mc_cmd_end
  step-Keeps until_delim = step_until_delim-Keeps
  step-Keeps until_end = step_until-Keeps mc_cmd_end
  step-Keeps until_lb = step_until-Keeps mc_cmd_linebreak
  step-Keeps null = h
  step-Keeps _ = unfold data_str in ground arith

IsBounded-st :
    (last : ℕ) (d : McData) (sts : List McStatus)
    → IsBounded last d
    → IsBounded last (record d { st = sts })
IsBounded-st last d sts h = ground arith

continue-IsBounded :
    (last : ℕ) (l : List McStatus) (f : McData → Rc × McData) (st : Step)
    → ((e : McData) → IsBounded last e → IsBounded last (f e).1)
    → Keeps last st
    → IsBounded last (continue l f st).1
continue-IsBounded last l f (advance e) keep h = keep e h
continue-IsBounded last l f (again e) keep h = IsBounded-st last e l h
continue-IsBounded last l f (error e) keep h = IsBounded-st last e l h

parse_from-IsBounded :
    (sts : List McStatus) (b : Buffer) (d : McData)
    → IsBounded b.last d
    → IsBounded b.last (parse_from sts b d).1
unfolding parse_from
parse_from-IsBounded [] b d h = h
parse_from-IsBounded (null ∷ sts) b d h = IsBounded-st b.last d (null ∷ sts) h
parse_from-IsBounded (s ∷ sts) b d h =
    continue-IsBounded b.last _ (parse_from sts b) (step _ b (offset d) d)
      (parse_from-IsBounded sts b) (step-Keeps b d h _)

-- With any table and any chunk, a parser whose cursor and strings lie in the buffer leaves them in
-- the buffer, whatever it returns.
pub parse-IsBounded :
    (b : Buffer) (d : McData) → IsBounded b.last d → IsBounded b.last (parse (some b) d).1
unfolding parse
parse-IsBounded b d h =
    parse_from-IsBounded d.st b (record d { c = some (offset d) }) (ground arith)
