-- ===== src/Arrayv/Format/Single.antt =====
-- Formats with one `$` and a text behind it: no delimiter is put into the array of delimiters.
use ngxmp.Base.{
  ℕ, suc, ◌+◌, ◌<◌, ◌≡◌, refl, ap, ◌∙◌, Bool, false, some, [], ◌∷◌, ◌++◌, ◌==◌, Bytes, List, Option,
  length, peek,
}
use ngxmp.Util.Join.{join_crash}
use ngxmp.Util.JoinX.{Lines, array_join_x}
use ngxmp.Arrayv.Format.{is_byte, ends_del, read_lines, read_elts, readstr}
use ngxmp.Arrayv.Format.Spelling.{Spells, plain, taken, dels_nil}
use ngxmp.Arrayv.Format.Reads.{read_dels-Spells, suc_sub, ends_del_not}
use ngxmp.Arrayv.Format.RoundTrip.{
  spell, spell-Spells, begin, close, length-begin, length-close, readstr-begin, read_end-Spells,
}

peek_text :
    (rest : Bytes) {c : ℕ} {s t : Bytes}
    → Spells ends_del s (c ∷ t)
    → (peek (s ++ rest) == b')') ≡ false
peek_text rest (plain {c} h i sp) = ends_del_not c i
peek_text rest (taken c sp) = refl

-- `head{(lhead$` and then the text, `)ldel?}tail`.
abbrev pub print_single : Bytes → Bytes → Bytes → Bytes → Bytes → Bytes → Bytes
print_single head lhead ltail ldel tail rest =
    begin (spell (is_byte b'{') head) (spell (is_byte b'$') lhead) []
      (close (spell ends_del ltail) (spell (is_byte b'?') ldel) (spell (is_byte 0) tail) rest)

abbrev pub single_lines : Bytes → Bytes → Bytes → Bytes → Bytes → Lines
single_lines head lhead ltail ldel tail = record {
  step = 1;
  head = some head;
  tail = some tail;
  lhead = some lhead;
  ltail = some ltail;
  ldel = some ldel;
  dels = some [];
}

-- A format with one $ and a text that is not empty between it and the ) is accepted by
-- ngx_http_av_readstr with an empty array of delimiters, and printing any list with what was read
-- makes array_join_x divide by zero.
pub readstr-single :
    (head lhead ldel tail rest : Bytes) (c : ℕ) (t : Bytes) (rounds : ℕ)
    → 0 < rounds
    → (readstr rounds
          (length (print_single head lhead (c ∷ t) ldel tail []))
          (print_single head lhead (c ∷ t) ldel tail (0 ∷ rest))
        ≡ read_lines (single_lines head lhead (c ∷ t) ldel tail))
      × ((allocated : Bool) (items : List (Option Bytes))
          → array_join_x allocated (single_lines head lhead (c ∷ t) ldel tail) items ≡ join_crash)
unfolding read_elts array_join_x
readstr-single head lhead ldel tail rest c t rounds h =
    let sh = spell (is_byte b'{') head in
    let sl = spell (is_byte b'$') lhead in
    let st = spell ends_del (c ∷ t) in
    let sd = spell (is_byte b'?') ldel in
    let se = spell (is_byte 0) tail in
    let m = suc (suc (length se)) in
    let k = 0 + (length st + suc (length sd + m)) in
    let len : length (print_single head lhead (c ∷ t) ldel tail [])
        ≡ length sh + suc (suc (length sl + suc k)) =
      length-begin sh sl [] (close st sd se [])
      ∙ ap (λ z. length sh + suc (suc (length sl + suc (0 + z)))) (length-close st sd se) in
    let after = b')' ∷ (sd ++ b'?' ∷ b'}' ∷ (se ++ 0 ∷ rest)) in
    (
      rw
          (
            len,
            readstr-begin rounds k (st ++ after) (spell-Spells (is_byte b'{') head)
                (spell-Spells (is_byte b'$') lhead),
            peek_text after (spell-Spells ends_del (c ∷ t)),
            suc_sub k,
            read_dels-Spells rounds [] 1 (suc (length sd + m))
                (sd ++ b'?' ∷ b'}' ∷ (se ++ 0 ∷ rest)) h dels_nil (spell-Spells ends_del (c ∷ t)),
          )
          (read_end-Spells [] 1 m head lhead (c ∷ t) rest (spell-Spells (is_byte b'?') ldel)
            (spell-Spells (is_byte 0) tail)),
      λ allocated items. refl,
    )
