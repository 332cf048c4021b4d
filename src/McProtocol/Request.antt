-- ===== src/McProtocol/Request.antt =====
-- The table `mc_get_req` is `get <key> CRLF`.
use ngxmp.Base.{
  ℕ, ◌+◌, ◌-◌, ◌≤◌, ◌≡◌, ◌≢◌, refl, sym, ap, ◌∙◌, none, some, [], ◌∷◌, ◌++◌, codes, Bytes, length,
  arith, All,
}
use ngxmp.McProtocol.{
  start, line_break, cmd, key, delim, until_lb, null, Buffer, McData, rc_ok, get, mc_get_req,
  mc_cmds, mc_cmd_linebreak, step, expect_cmd, data_str, parse_from, parse,
}
use ngxmp.McProtocol.Scan.{
  Holds, Holds-append, Holds-append_left, Holds-append_right, bytes_at, bytes_at-Holds,
  length-bytes_at,
}
use ngxmp.McProtocol.Rounds.{
  parse_from-advance, parse_from-ok, expect-Holds, expect-eq-advance, step_until-Holds,
  step_until-eq-advance,
}

abbrev pub request_line : Bytes → Bytes
request_line k = codes "get " ++ (k ++ mc_cmd_linebreak)

-- What `mc_parse_init` gives for this table.
abbrev pub fresh : McData
fresh = record {
  type = get;
  st = mc_get_req;
  c = none;
  pre = none;
  cmd = mc_cmds get;
  key = none;
  val = none;
  exp = none;
  flag = none;
  len = none;
}

-- The parser at the end of a request with a key of `n` bytes.
abbrev pub accepted : ℕ → McData
accepted n = record fresh {
  st = null ∷ [];
  c = some (4 + n + 2);
  key = some (record { at = 4; size = 4 + n - 4 });
}

module _ (b : Buffer) where
  abbrev at_key : McData
  at_key = record fresh { c = some 4 }

  to_key :
      Holds b.mem 0 (codes "get ")
      → 4 ≤ b.last
      → parse (some b) fresh ≡ parse_from (until_lb ∷ key ∷ line_break ∷ null ∷ []) b at_key
  unfolding parse step expect_cmd
  to_key h l =
      parse_from-advance b start _ (record fresh { c = some 0 }) (record fresh { c = some 0 })
        (λ e. cc e) refl
      ∙ parse_from-advance b cmd _ (record fresh { c = some 0 }) (record fresh { c = some 3 })
          (λ e. cc e)
          (expect-Holds b (codes "get") 0 (record fresh { c = some 0 })
            (h.0, (h.1.0, (h.1.1.0, tt))) (omega arith))
      ∙ parse_from-advance b delim _ (record fresh { c = some 3 }) at_key (λ e. cc e)
          (expect-Holds b (b' ' ∷ []) 3 (record fresh { c = some 3 }) (h.1.1.1.0, tt) (omega arith))

  from_key :
      (k : Bytes)
      → All (λ y. y ≢ 13) k
      → Holds b.mem 4 (k ++ mc_cmd_linebreak)
      → length k + 6 ≤ b.last
      → parse_from (until_lb ∷ key ∷ line_break ∷ null ∷ []) b at_key ≡ (rc_ok, accepted (length k))
  unfolding step data_str
  from_key k a h l =
      let d1 = record at_key { c = some (4 + length k); pre = some 4 } in
      let d2 = record at_key {
        c = some (4 + length k);
        key = some (record { at = 4; size = 4 + length k - 4 });
      } in
      let d3 = record d2 { c = some (4 + length k + 2) } in
      parse_from-advance b until_lb _ at_key d1 (λ e. cc e)
        (step_until-Holds b 13 (10 ∷ []) k 4 at_key refl a h (omega arith))
      ∙ parse_from-advance b key _ d1 d2 (λ e. cc e) refl
      ∙ parse_from-advance b line_break _ d2 d3 (λ e. cc e)
          (expect-Holds b mc_cmd_linebreak (4 + length k) d2
            (Holds-append_right b.mem 4 (4 + length k) k mc_cmd_linebreak h refl) (omega arith))
      ∙ unfold parse_from in refl

  -- A buffer that holds get, a blank, a key without CR, and CRLF is accepted by the request table,
  -- with the key stored and the cursor behind CRLF.
  pub parse-request_line :
      (k : Bytes)
      → All (λ y. y ≢ 13) k
      → Holds b.mem 0 (request_line k)
      → length k + 6 ≤ b.last
      → parse (some b) fresh ≡ (rc_ok, accepted (length k))
  parse-request_line k a h l =
      to_key (Holds-append_left b.mem 0 (codes "get ") (k ++ mc_cmd_linebreak) h) (omega arith)
      ∙ from_key k a (Holds-append_right b.mem 0 4 (codes "get ") (k ++ mc_cmd_linebreak) h refl) l

  abbrev until : ℕ → McData
  until i = record at_key { c = some i; pre = some 4 }

  abbrev stored_key : ℕ → McData
  stored_key i = record at_key { c = some i; key = some (record { at = 4; size = i - 4 }) }

  line_break-ok :
      (i n : ℕ)
      → 4 + n ≡ i
      → (parse_from (line_break ∷ null ∷ []) b (stored_key i)).0 ≡ rc_ok
      → (n + 6 ≤ b.last) × ((parse_from (line_break ∷ null ∷ []) b (stored_key i)).1 ≡ accepted n)
  unfolding step
  line_break-ok i n e h =
      let (d, s, _) = parse_from-ok b line_break _ (stored_key i) (λ e. cc e) h in
      let (_, l, q) = expect-eq-advance b mc_cmd_linebreak i (stored_key i) d s in
      let went = parse_from-advance b line_break _ (stored_key i) d (λ e. cc e) s in
      (omega arith, ap (λ r. r.1) went ∙ rw q (unfold parse_from in ground arith))

  key-ok :
      (i n : ℕ)
      → 4 + n ≡ i
      → (parse_from (key ∷ line_break ∷ null ∷ []) b (until i)).0 ≡ rc_ok
      → (n + 6 ≤ b.last) × ((parse_from (key ∷ line_break ∷ null ∷ []) b (until i)).1 ≡ accepted n)
  unfolding step data_str
  key-ok i n e h =
      let went =
        parse_from-advance b key (line_break ∷ null ∷ []) (until i) (stored_key i) (λ e. cc e)
          refl in
      rw went (line_break-ok i n e (rw went at h))

  -- What an accepted run has read from the key on.
  from_key-ok :
      (parse_from (until_lb ∷ key ∷ line_break ∷ null ∷ []) b at_key).0 ≡ rc_ok
      → (k : Bytes) × Holds b.mem 4 (k ++ mc_cmd_linebreak)
        × (length k + 6 ≤ b.last)
        × ((parse_from (until_lb ∷ key ∷ line_break ∷ null ∷ []) b at_key).1 ≡ accepted (length k))
  unfolding step
  from_key-ok h =
      let (d, s, _) = parse_from-ok b until_lb _ at_key (λ e. cc e) h in
      let (i, lo, holds, q) = step_until-eq-advance b mc_cmd_linebreak 4 at_key d refl s in
      let went =
        parse_from-advance b until_lb (key ∷ line_break ∷ null ∷ []) at_key d (λ e. cc e) s
        ∙ ap (parse_from (key ∷ line_break ∷ null ∷ []) b) q in
      let k = bytes_at b.mem 4 (i - 4) in
      let size : 4 + length k ≡ i = omega (arith, length-bytes_at b.mem 4 (i - 4)) in
      let (l, f) = key-ok i (length k) size (rw went at h) in
      (
        k,
        Holds-append b.mem 4 i k mc_cmd_linebreak (bytes_at-Holds b.mem 4 (i - 4)) holds (sym size),
        l,
        ap (λ r. r.1) went ∙ f,
      )

  -- The front of an accepted run.
  to_key-ok : (parse (some b) fresh).0 ≡ rc_ok → Holds b.mem 0 (codes "get ") × (4 ≤ b.last)
  unfolding parse step expect_cmd
  to_key-ok h =
      let at = λ (c : ℕ). record fresh { c = some c } in
      let tail = until_lb ∷ key ∷ line_break ∷ null ∷ [] in
      let first = parse_from-advance b start (cmd ∷ delim ∷ tail) (at 0) (at 0) (λ e. cc e) refl in
      let h1 = rw first at h in
      let (d2, s2, h2) = parse_from-ok b cmd (delim ∷ tail) (at 0) (λ e. cc e) h1 in
      let (g, l2, q2) = expect-eq-advance b (codes "get") 0 (at 0) d2 s2 in
      let h2' = rw q2 at h2 in
      let (d3, s3, h3) = parse_from-ok b delim tail (at 3) (λ e. cc e) h2' in
      let (sp, l3, _) = expect-eq-advance b (b' ' ∷ []) 3 (at 3) d3 s3 in
      ((g.0, (g.1.0, (g.1.1.0, (sp.0, tt)))), l3)

  -- When the request table accepts a buffer, the buffer holds get, a blank, some key and CRLF, and
  -- the parser's state is the one of that key: nothing else is accepted.
  pub parse-ok :
      (parse (some b) fresh).0 ≡ rc_ok
      → (k : Bytes) × Holds b.mem 0 (request_line k)
        × (length k + 6 ≤ b.last)
        × ((parse (some b) fresh).1 ≡ accepted (length k))
  parse-ok h =
      let (front, l) = to_key-ok h in
      let went = to_key front l in
      let (k, holds, fits, state) = from_key-ok (rw went at h) in
      (
        k,
        Holds-append b.mem 0 4 (codes "get ") (k ++ mc_cmd_linebreak) front holds refl,
        fits,
        rw went state,
      )
