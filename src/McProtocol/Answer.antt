-- ===== src/McProtocol/Answer.antt =====
-- The table `mc_get_v_req` is `VALUE <key> <flag> <exp> <len> CRLF <val> CRLF END CRLF`.
use ngxmp.Base.{
  ℕ, ◌+◌, ◌-◌, ◌≤◌, ◌≡◌, ◌≢◌, refl, ◌∙◌, none, some, List, [], ◌∷◌, ◌++◌, codes, Bytes, length,
  length-append, arith, All,
}
use ngxmp.McProtocol.{
  McStatus, start, line_break, cmd, key, val, exp, flag, len, delim, end, until_delim, until_lb,
  null, Buffer, Span, McData, rc_ok, advance, value, mc_get_v_req, mc_cmds, mc_cmd_linebreak,
  mc_cmd_end, step, expect_cmd, data_str, parse_from, parse,
}
use ngxmp.McProtocol.Scan.{Holds, Holds-append_left, Holds-append_right}
use ngxmp.McProtocol.Rounds.{
  parse_from-advance, expect-Holds, step_until-Holds, step_until_delim-Holds,
}

-- The entries that store a string, and where.
data IsField : McStatus → Type 0 where
  a_key : IsField key
  a_val : IsField val
  an_exp : IsField exp
  a_flag : IsField flag
  a_len : IsField len

abbrev store : McStatus → Span → McData → McData
store key s d = record d { key = some s }
store val s d = record d { val = some s }
store exp s d = record d { exp = some s }
store flag s d = record d { flag = some s }
store len s d = record d { len = some s }
store _ s d = d

abbrev span : ℕ → Bytes → Span
span c w = record { at = c; size = c + length w - c }

abbrev move : ℕ → McData → McData
move c d = record d { c = some c }

IsField-ne-null : {s : McStatus} → IsField s → s ≢ null
IsField-ne-null a_key e = cc
IsField-ne-null a_val e = cc
IsField-ne-null an_exp e = cc
IsField-ne-null a_flag e = cc
IsField-ne-null a_len e = cc

module _ (b : Buffer) where
  step-field :
      {s : McStatus} (c i : ℕ) (d : McData)
      → IsField s
      → d.pre ≡ none
      → step s b i (record d { c = some i; pre = some c })
        ≡ advance (store s (record { at = c; size = i - c }) (record d { c = some i }))
  unfolding step data_str
  step-field c i d a_key n = ground arith
  step-field c i d a_val n = ground arith
  step-field c i d an_exp n = ground arith
  step-field c i d a_flag n = ground arith
  step-field c i d a_len n = ground arith

  delim-field :
      {s : McStatus} (rest : List McStatus) (c i : ℕ) (t : Span) (d : McData)
      → IsField s
      → b.mem i ≡ b' '
      → i + 1 ≤ b.last
      → parse_from (delim ∷ rest) b (store s t (move i d))
        ≡ parse_from rest b (move (i + 1) (store s t d))
  unfolding step
  delim-field rest c i t d a_key m l =
      parse_from-advance b delim rest (store key t (move i d)) (move (i + 1) (store key t d))
        (λ e. cc e) (expect-Holds b (b' ' ∷ []) i (store key t (move i d)) (m, tt) l)
  delim-field rest c i t d a_val m l =
      parse_from-advance b delim rest (store val t (move i d)) (move (i + 1) (store val t d))
        (λ e. cc e) (expect-Holds b (b' ' ∷ []) i (store val t (move i d)) (m, tt) l)
  delim-field rest c i t d an_exp m l =
      parse_from-advance b delim rest (store exp t (move i d)) (move (i + 1) (store exp t d))
        (λ e. cc e) (expect-Holds b (b' ' ∷ []) i (store exp t (move i d)) (m, tt) l)
  delim-field rest c i t d a_flag m l =
      parse_from-advance b delim rest (store flag t (move i d)) (move (i + 1) (store flag t d))
        (λ e. cc e) (expect-Holds b (b' ' ∷ []) i (store flag t (move i d)) (m, tt) l)
  delim-field rest c i t d a_len m l =
      parse_from-advance b delim rest (store len t (move i d)) (move (i + 1) (store len t d))
        (λ e. cc e) (expect-Holds b (b' ' ∷ []) i (store len t (move i d)) (m, tt) l)

  -- A field up to a blank, the blank included.
  word_lem :
      {s : McStatus} (rest : List McStatus) (w : Bytes) (c : ℕ) (d : McData)
      → IsField s
      → d.pre ≡ none
      → All (λ y. y ≢ b' ') w
      → Holds b.mem c (w ++ b' ' ∷ [])
      → c + length w + 1 ≤ b.last
      → parse_from (until_delim ∷ s ∷ delim ∷ rest) b (move c d)
        ≡ parse_from rest b (move (c + length w + 1) (store s (span c w) d))
  unfolding step
  word_lem {s} rest w c d f n a h l =
      let i = c + length w in
      let d1 = record d { c = some i; pre = some c } in
      parse_from-advance b until_delim (s ∷ delim ∷ rest) (move c d) d1 (λ e. cc e)
        (step_until_delim-Holds b w c (move c d) n a h (omega arith))
      ∙ parse_from-advance b s (delim ∷ rest) d1 (store s (span c w) (move i d)) (IsField-ne-null f)
          (step-field c i d f n)
      ∙ delim-field rest c i (span c w) d f (Holds-append_right b.mem c i w (b' ' ∷ []) h refl).0
          (omega arith)

  break-field :
      {s : McStatus} (rest : List McStatus) (c i : ℕ) (t : Span) (d : McData)
      → IsField s
      → Holds b.mem i mc_cmd_linebreak
      → i + 2 ≤ b.last
      → parse_from (line_break ∷ rest) b (store s t (move i d))
        ≡ parse_from rest b (move (i + 2) (store s t d))
  unfolding step
  break-field rest c i t d a_key m l =
      parse_from-advance b line_break rest (store key t (move i d)) (move (i + 2) (store key t d))
        (λ e. cc e) (expect-Holds b mc_cmd_linebreak i (store key t (move i d)) m l)
  break-field rest c i t d a_val m l =
      parse_from-advance b line_break rest (store val t (move i d)) (move (i + 2) (store val t d))
        (λ e. cc e) (expect-Holds b mc_cmd_linebreak i (store val t (move i d)) m l)
  break-field rest c i t d an_exp m l =
      parse_from-advance b line_break rest (store exp t (move i d)) (move (i + 2) (store exp t d))
        (λ e. cc e) (expect-Holds b mc_cmd_linebreak i (store exp t (move i d)) m l)
  break-field rest c i t d a_flag m l =
      parse_from-advance b line_break rest (store flag t (move i d)) (move (i + 2) (store flag t d))
        (λ e. cc e) (expect-Holds b mc_cmd_linebreak i (store flag t (move i d)) m l)
  break-field rest c i t d a_len m l =
      parse_from-advance b line_break rest (store len t (move i d)) (move (i + 2) (store len t d))
        (λ e. cc e) (expect-Holds b mc_cmd_linebreak i (store len t (move i d)) m l)

  -- A field up to CRLF, CRLF included.
  line_lem :
      {s : McStatus} (rest : List McStatus) (w : Bytes) (c : ℕ) (d : McData)
      → IsField s
      → d.pre ≡ none
      → All (λ y. y ≢ 13) w
      → Holds b.mem c (w ++ mc_cmd_linebreak)
      → c + length w + 2 ≤ b.last
      → parse_from (until_lb ∷ s ∷ line_break ∷ rest) b (move c d)
        ≡ parse_from rest b (move (c + length w + 2) (store s (span c w) d))
  unfolding step
  line_lem {s} rest w c d f n a h l =
      let i = c + length w in
      let d1 = record d { c = some i; pre = some c } in
      parse_from-advance b until_lb (s ∷ line_break ∷ rest) (move c d) d1 (λ e. cc e)
        (step_until-Holds b 13 (10 ∷ []) w c (move c d) n a h (omega arith))
      ∙ parse_from-advance b s (line_break ∷ rest) d1 (store s (span c w) (move i d))
          (IsField-ne-null f) (step-field c i d f n)
      ∙ break-field rest c i (span c w) d f (Holds-append_right b.mem c i w mc_cmd_linebreak h refl)
          (omega arith)

-- `VALUE <key> <flag> <exp> <len>`, the value, `END`, each line with its CRLF.
abbrev pub answer_text : Bytes → Bytes → Bytes → Bytes → Bytes → Bytes
answer_text k f e n v =
    codes "VALUE "
    ++ ((k ++ b' ' ∷ [])
        ++ ((f ++ b' ' ∷ [])
            ++ ((e ++ b' ' ∷ [])
                ++ ((n ++ mc_cmd_linebreak)
                    ++ ((v ++ mc_cmd_linebreak) ++ (codes "END" ++ mc_cmd_linebreak))))))

abbrev pub fresh_answer : McData
fresh_answer = record {
  type = value;
  st = mc_get_v_req;
  c = none;
  pre = none;
  cmd = mc_cmds value;
  key = none;
  val = none;
  exp = none;
  flag = none;
  len = none;
}

-- The parser behind an answer with these fields.
abbrev pub accepted_answer : Bytes → Bytes → Bytes → Bytes → Bytes → McData
accepted_answer k f e n v =
    let c1 = 6 + length k + 1 in
    let c2 = c1 + length f + 1 in
    let c3 = c2 + length e + 1 in
    let c4 = c3 + length n + 2 in
    let c5 = c4 + length v + 2 in
    record fresh_answer {
      st = null ∷ [];
      c = some (c5 + 3 + 2);
      key = some (span 6 k);
      flag = some (span c1 f);
      exp = some (span c2 e);
      len = some (span c3 n);
      val = some (span c4 v);
    }

module _ (b : Buffer) where
  abbrev answer_at : ℕ → McData
  answer_at c = move c fresh_answer

  to_fields :
      (rest : List McStatus)
      → Holds b.mem 0 (codes "VALUE ")
      → 6 ≤ b.last
      → parse_from (start ∷ cmd ∷ delim ∷ rest) b (answer_at 0) ≡ parse_from rest b (answer_at 6)
  unfolding step expect_cmd
  to_fields rest h l =
      parse_from-advance b start (cmd ∷ delim ∷ rest) (answer_at 0) (answer_at 0) (λ e. cc e) refl
      ∙ parse_from-advance b cmd (delim ∷ rest) (answer_at 0) (answer_at 5) (λ e. cc e)
          (expect-Holds b (codes "VALUE") 0 (answer_at 0)
            (Holds-append_left b.mem 0 (codes "VALUE") (b' ' ∷ []) h) (omega arith))
      ∙ parse_from-advance b delim rest (answer_at 5) (answer_at 6) (λ e. cc e)
          (expect-Holds b (b' ' ∷ []) 5 (answer_at 5)
            (Holds-append_right b.mem 0 5 (codes "VALUE") (b' ' ∷ []) h refl) (omega arith))

  -- A field with its separator, and what is behind.
  piece :
      (c d : ℕ) (w sep t : Bytes)
      → Holds b.mem c ((w ++ sep) ++ t)
      → d ≡ c + length w + length sep
      → Holds b.mem c (w ++ sep) × Holds b.mem d t
  piece c d w sep t h e = (
    Holds-append_left b.mem c (w ++ sep) t h,
    Holds-append_right b.mem c d (w ++ sep) t h (omega (arith, length-append w sep)),
  )

  from_end :
      (c : ℕ) (d : McData)
      → Holds b.mem c (codes "END" ++ mc_cmd_linebreak)
      → c + 5 ≤ b.last
      → parse_from (end ∷ line_break ∷ null ∷ []) b (move c d)
        ≡ (rc_ok, record d { c = some (c + 3 + 2); st = null ∷ [] })
  unfolding step
  from_end c d h l =
      parse_from-advance b end (line_break ∷ null ∷ []) (move c d) (move (c + 3) d) (λ e. cc e)
        (expect-Holds b mc_cmd_end c (move c d)
          (Holds-append_left b.mem c (codes "END") mc_cmd_linebreak h) (omega arith))
      ∙ parse_from-advance b line_break (null ∷ []) (move (c + 3) d) (move (c + 3 + 2) d)
          (λ e. cc e)
          (expect-Holds b mc_cmd_linebreak (c + 3) (move (c + 3) d)
            (Holds-append_right b.mem c (c + 3) (codes "END") mc_cmd_linebreak h refl)
            (omega arith))
      ∙ unfold parse_from in refl

  -- A buffer that holds a whole answer (VALUE, key, flag, exp and length, the value, END, each
  -- line with CRLF), its key, flag and exp without blanks and its length and value without CR, is
  -- accepted by the answer table, and each field is stored with the place and the size it has in
  -- the buffer.
  pub parse-answer_text :
      (k f e n v : Bytes)
      → All (λ y. y ≢ b' ') k
      → All (λ y. y ≢ b' ') f
      → All (λ y. y ≢ b' ') e
      → All (λ y. y ≢ 13) n
      → All (λ y. y ≢ 13) v
      → Holds b.mem 0 (answer_text k f e n v)
      → 18 + length k + length f + length e + length n + length v ≤ b.last
      → parse (some b) fresh_answer ≡ (rc_ok, accepted_answer k f e n v)
  parse-answer_text k f e n v ak af ae an av h l =
      let c1 = 6 + length k + 1 in
      let c2 = c1 + length f + 1 in
      let c3 = c2 + length e + 1 in
      let c4 = c3 + length n + 2 in
      let c5 = c4 + length v + 2 in
      let t5 = codes "END" ++ mc_cmd_linebreak in
      let t4 = (v ++ mc_cmd_linebreak) ++ t5 in
      let t3 = (n ++ mc_cmd_linebreak) ++ t4 in
      let t2 = (e ++ b' ' ∷ []) ++ t3 in
      let t1 = (f ++ b' ' ∷ []) ++ t2 in
      let t0 = (k ++ b' ' ∷ []) ++ t1 in
      let hd = Holds-append_left b.mem 0 (codes "VALUE ") t0 h in
      let h0 = Holds-append_right b.mem 0 6 (codes "VALUE ") t0 h refl in
      let (w0, h1) = piece 6 c1 k (b' ' ∷ []) t1 h0 refl in
      let (w1, h2) = piece c1 c2 f (b' ' ∷ []) t2 h1 refl in
      let (w2, h3) = piece c2 c3 e (b' ' ∷ []) t3 h2 refl in
      let (w3, h4) = piece c3 c4 n mc_cmd_linebreak t4 h3 refl in
      let (w4, h5) = piece c4 c5 v mc_cmd_linebreak t5 h4 refl in
      let d1 = store key (span 6 k) fresh_answer in
      let d2 = store flag (span c1 f) d1 in
      let d3 = store exp (span c2 e) d2 in
      let d4 = store len (span c3 n) d3 in
      let d5 = store val (span c4 v) d4 in
      let r5 = end ∷ line_break ∷ null ∷ [] in
      let r4 = until_lb ∷ val ∷ line_break ∷ r5 in
      let r3 = until_lb ∷ len ∷ line_break ∷ r4 in
      let r2 = until_delim ∷ exp ∷ delim ∷ r3 in
      let r1 = until_delim ∷ flag ∷ delim ∷ r2 in
      unfold parse in
      to_fields (until_delim ∷ key ∷ delim ∷ r1) hd (omega arith)
      ∙ word_lem b r1 k 6 fresh_answer a_key refl ak w0 (omega arith)
      ∙ word_lem b r2 f c1 d1 a_flag refl af w1 (omega arith)
      ∙ word_lem b r3 e c2 d2 an_exp refl ae w2 (omega arith)
      ∙ line_lem b r4 n c3 d3 a_len refl an w3 (omega arith)
      ∙ line_lem b r5 v c4 d4 a_val refl av w4 (omega arith)
      ∙ from_end c5 d5 h5 (omega arith)
