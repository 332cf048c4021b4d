-- ===== src/Arrayv/Format/RoundTrip.antt =====
-- A format that is printed is read back, and one that is not closed is never read to its end.
use ngxmp.Base.{
  ℕ, suc, ◌+◌, ◌-◌, ◌<◌, ◌≡◌, refl, ap, ◌∙◌, Bool, false, ◌||◌, some, List, [], ◌∷◌, ◌++◌, ◌==◌,
  if◌then◌else◌, Bytes, length, length-append, append_assoc, peek, arith, Bool-cases, inl, inr,
}
use ngxmp.Util.JoinX.{Lines}
use ngxmp.Arrayv.Format.{
  is_byte, ends_del, read_lines, running, read_end, read_elts, read_group, readstr,
}
use ngxmp.Arrayv.Format.Spelling.{
  Spells, nil, plain, taken, SpellsDels, dels_nil, dels_cons, scan-Spells, scan-stop, peek-Spells,
  do_scan-Spells, scan_tail-Spells,
}
use ngxmp.Arrayv.Format.Reads.{read_dels-Spells, read_dels-open, suc_sub, ends_del_not}

-- The texts of a format with at least two `$`.
pub record Format : Type 0 where
  pub head : Bytes
  pub lhead : Bytes
  pub del : Bytes
  pub dels : List Bytes
  pub ltail : Bytes
  pub ldel : Bytes
  pub tail : Bytes

-- What array_join_x is given for it: a line has one item more than there are delimiters.
abbrev pub lines_of : Format → Lines
lines_of f = record {
  step = suc (length (f.del ∷ f.dels));
  head = some f.head;
  tail = some f.tail;
  lhead = some f.lhead;
  ltail = some f.ltail;
  ldel = some f.ldel;
  dels = some (f.del ∷ f.dels);
}

-- A text with a backslash in front of each backslash and of each byte that would end it.
abbrev pub spell : (ℕ → Bool) → Bytes → Bytes
spell stop [] = []
spell stop (c ∷ t) = if c == b'\\' || stop c then b'\\' ∷ c ∷ spell stop t else c ∷ spell stop t

abbrev pub spell_dels : List Bytes → Bytes
spell_dels [] = []
spell_dels (d ∷ ds) = spell ends_del d ++ b'$' ∷ spell_dels ds

pub spell-Spells : (stop : ℕ → Bool) (t : Bytes) → Spells stop (spell stop t) t
spell-Spells stop [] = nil
spell-Spells stop (c ∷ t) = elim (Bool-cases (c == b'\\')) [
  | inl e ↦ rw e (taken c (spell-Spells stop t))
  | inr e ↦ elim (Bool-cases (stop c)) [
    | inl i ↦ rw (e, i) (taken c (spell-Spells stop t))
    | inr i ↦ rw (e, i) (plain e i (spell-Spells stop t))
  ]
]

spell_dels-SpellsDels : (ds : List Bytes) → SpellsDels (spell_dels ds) ds
spell_dels-SpellsDels [] = dels_nil
spell_dels-SpellsDels (d ∷ ds) = dels_cons (spell-Spells ends_del d) (spell_dels-SpellsDels ds)

-- The texts of a format as they are spelled: `head{(lhead$` and the delimiters, `ltail)ldel?}tail`.
abbrev pub begin : Bytes → Bytes → Bytes → Bytes → Bytes
begin sh sl ss rest = sh ++ b'{' ∷ b'(' ∷ (sl ++ b'$' ∷ (ss ++ rest))

abbrev pub close : Bytes → Bytes → Bytes → Bytes → Bytes
close st sd se rest = st ++ b')' ∷ (sd ++ b'?' ∷ b'}' ∷ (se ++ rest))

-- The format as a string, with what stands behind it in memory.
abbrev pub print : Format → Bytes → Bytes
print f rest =
    begin (spell (is_byte b'{') f.head) (spell (is_byte b'$') f.lhead) (spell_dels (f.del ∷ f.dels))
      (close (spell ends_del f.ltail) (spell (is_byte b'?') f.ldel) (spell (is_byte 0) f.tail) rest)

pub length-begin :
    (sh sl ss rest : Bytes)
    → length (begin sh sl ss rest)
      ≡ length sh + suc (suc (length sl + suc (length ss + length rest)))
length-begin sh sl ss rest = omega (
  arith,
  length-append sh (b'{' ∷ b'(' ∷ (sl ++ b'$' ∷ (ss ++ rest))),
  length-append sl (b'$' ∷ (ss ++ rest)),
  length-append ss rest,
)

pub length-close :
    (st sd se : Bytes)
    → length (close st sd se []) ≡ length st + suc (length sd + suc (suc (length se)))
length-close st sd se = omega (
  arith,
  length-append st (b')' ∷ (sd ++ b'?' ∷ b'}' ∷ (se ++ []))),
  length-append sd (b'?' ∷ b'}' ∷ (se ++ [])),
  length-append se [],
)

sub_two : (a : ℕ) → suc (suc a) - 2 ≡ a
sub_two a = omega arith

-- Up to the first `$`.
pub readstr-begin :
    (rounds k : ℕ) (rest : Bytes) {sh sl head lhead : Bytes}
    → Spells (is_byte b'{') sh head
    → Spells (is_byte b'$') sl lhead
    → readstr rounds
        (length sh + suc (suc (length sl + suc k)))
        (sh ++ b'{' ∷ b'(' ∷ (sl ++ b'$' ∷ rest))
      ≡ read_elts rounds head lhead (suc k) (b'$' ∷ rest)
unfolding readstr read_group
readstr-begin rounds k rest {sh} {sl} hs ls =
    rw
      (
        do_scan-Spells b'{' (suc (suc (length sl + suc k))) (b'(' ∷ (sl ++ b'$' ∷ rest)) refl hs,
        sub_two (length sl + suc k),
        do_scan-Spells b'$' (suc k) rest refl ls,
      )
      refl

-- Delimiters do not begin with `)`.
peek-dels_cons :
    (rest : Bytes) {ss d : Bytes} {ds : List Bytes}
    → SpellsDels ss (d ∷ ds)
    → (peek (ss ++ rest) == b')') ≡ false
peek-dels_cons rest (dels_cons {s = s1} {ss = ss1} y sd) =
    rw (append_assoc s1 (b'$' ∷ ss1) rest)
      (peek-Spells ends_del refl b')' b'$' (ss1 ++ rest) ends_del_not refl y)

-- From the first `$` up to the `)`.
read_elts-Spells :
    (rounds k : ℕ) (head lhead rest : Bytes) {ss d st t : Bytes} {ds : List Bytes}
    → length (d ∷ ds) < rounds
    → SpellsDels ss (d ∷ ds)
    → Spells ends_del st t
    → read_elts rounds head lhead
        (suc (length ss + (length st + k)))
        (b'$' ∷ (ss ++ (st ++ b')' ∷ rest)))
      ≡ read_end head lhead (record {
        dels = d ∷ ds;
        nelts = 1 + length (d ∷ ds);
        ltail = t;
        left = k;
        at = b')' ∷ rest;
      })
unfolding read_elts
read_elts-Spells rounds k head lhead rest {ss} {st = st} h sd sp =
    rw
      (
        peek-dels_cons (st ++ b')' ∷ rest) sd,
        suc_sub (length ss + (length st + k)),
        read_dels-Spells rounds [] 1 k rest h sd sp,
      )
      refl

-- From the `)` on.
pub read_end-Spells :
    (dels : List Bytes) (nelts k : ℕ) (head lhead ltail rest : Bytes) {sd ldel se tail : Bytes}
    → Spells (is_byte b'?') sd ldel
    → Spells (is_byte 0) se tail
    → read_end head lhead (record {
      dels = dels;
      nelts = nelts;
      ltail = ltail;
      left = suc (length sd + k);
      at = b')' ∷ (sd ++ b'?' ∷ b'}' ∷ (se ++ 0 ∷ rest));
    })
      ≡ read_lines (record {
        step = nelts;
        head = some head;
        tail = some tail;
        lhead = some lhead;
        ltail = some ltail;
        ldel = some ldel;
        dels = some dels;
      })
unfolding read_end
read_end-Spells dels nelts k head lhead ltail rest {sd} {se = se} ds es =
    rw
      (
        suc_sub (length sd + k),
        scan-Spells (is_byte b'?') refl k (b'?' ∷ b'}' ∷ (se ++ 0 ∷ rest))
            (scan-stop (is_byte b'?') refl k b'?' (b'}' ∷ (se ++ 0 ∷ rest)) refl) ds,
        scan_tail-Spells rest es,
      )
      refl

-- A format with at least two $ that is printed, with a backslash in front of each byte that would
-- end its text, is read back by ngx_http_av_readstr, whatever stands in memory behind its
-- terminating zero, when the loop between the parentheses is given as many rounds as there are $,
-- or more: all texts are the same, and a line has an item for each $.
pub readstr-print :
    (f : Format) (rest : Bytes) (rounds : ℕ)
    → length f.dels + 1 < rounds
    → readstr rounds (length (print f [])) (print f (0 ∷ rest)) ≡ read_lines (lines_of f)
readstr-print f rest rounds h =
    let sh = spell (is_byte b'{') f.head in
    let sl = spell (is_byte b'$') f.lhead in
    let ss = spell_dels (f.del ∷ f.dels) in
    let st = spell ends_del f.ltail in
    let sd = spell (is_byte b'?') f.ldel in
    let se = spell (is_byte 0) f.tail in
    let m = suc (suc (length se)) in
    let k = suc (length sd + m) in
    let len : length (print f [])
        ≡ length sh + suc (suc (length sl + suc (length ss + (length st + k)))) =
      length-begin sh sl ss (close st sd se [])
      ∙ ap (λ z. length sh + suc (suc (length sl + suc (length ss + z)))) (length-close st sd se) in
    let more : 1 + length (f.del ∷ f.dels) ≡ suc (length (f.del ∷ f.dels)) = omega arith in
    rw
      (
        len,
        readstr-begin rounds (length ss + (length st + k)) (ss ++ close st sd se (0 ∷ rest))
            (spell-Spells (is_byte b'{') f.head) (spell-Spells (is_byte b'$') f.lhead),
        read_elts-Spells rounds k f.head f.lhead (sd ++ b'?' ∷ b'}' ∷ (se ++ 0 ∷ rest))
            (omega arith) (spell_dels-SpellsDels (f.del ∷ f.dels)) (spell-Spells ends_del f.ltail),
        more,
      )
      (read_end-Spells (f.del ∷ f.dels) (suc (length (f.del ∷ f.dels))) m f.head f.lhead f.ltail
        rest (spell-Spells (is_byte b'?') f.ldel) (spell-Spells (is_byte 0) f.tail))

-- A format that is cut off in front of its `)`, with a text behind the last `$`.
abbrev pub print_open : Bytes → Bytes → List Bytes → Bytes → Bytes → Bytes
print_open head lhead dels t rest =
    begin (spell (is_byte b'{') head) (spell (is_byte b'$') lhead) (spell_dels dels)
      (spell ends_del t ++ rest)

-- A format in its canonical spelling, with a backslash in front of exactly the characters that need
-- one, whose string ends between the parentheses, behind a $ and before any ), is never read to its
-- end: ngx_http_av_readstr is still running after any number of rounds of its loop.
pub readstr-print_open :
    (head lhead t rest : Bytes) (dels : List Bytes) (rounds : ℕ)
    → readstr rounds
        (length (print_open head lhead dels t []))
        (print_open head lhead dels t (0 ∷ rest))
      ≡ running
unfolding read_elts
readstr-print_open head lhead t rest dels rounds =
    let sh = spell (is_byte b'{') head in
    let sl = spell (is_byte b'$') lhead in
    let ss = spell_dels dels in
    let st = spell ends_del t in
    let k = length ss + (length st + 0) in
    let len : length (print_open head lhead dels t []) ≡ length sh + suc (suc (length sl + suc k)) =
      length-begin sh sl ss (st ++ [])
      ∙ ap (λ z. length sh + suc (suc (length sl + suc (length ss + z)))) (length-append st []) in
    rw
      (
        len,
        readstr-begin rounds k (ss ++ (st ++ 0 ∷ rest)) (spell-Spells (is_byte b'{') head)
            (spell-Spells (is_byte b'$') lhead),
        suc_sub k,
        read_dels-open rounds _ 1 rest (spell_dels-SpellsDels dels) (spell-Spells ends_del t),
      )
      refl
