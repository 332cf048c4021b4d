-- ===== src/Arrayv/Format.antt =====
-- `ngx_http_av_readstr` of c/ngx_http_arrayv_module/ngx_http_arrayv_module.c: the format of
-- print_array, `head{(lhead$del$...$ltail)ldel?}tail`, in which a backslash takes the byte behind it
-- as it is.
pub mod Spelling
pub mod Reads
pub mod RoundTrip
pub mod Single
mod Tests
use ngxmp.Base.{
  ℕ, zero, suc, ◌+◌, ◌-◌, Bool, true, false, ◌||◌, Option, none, some, List, [], ◌∷◌, ◌++◌, ◌==◌,
  if◌then◌else◌, Bytes, length, peek, next,
}
use ngxmp.Util.JoinX.{Lines}

-- Where a loop stands behind its text: `len - i`, or 0 behind the end, and the bytes in memory
-- from `i` on.
pub record Scanned : Type 0 where
  pub text : Bytes
  pub left : ℕ
  pub at : Bytes

abbrev pub add_byte : ℕ → Scanned → Scanned
add_byte c r = record r { text = c ∷ r.text }

-- `while (tok != ... && i < str->len)`, with the number of bytes to the end of the string and the
-- memory. The byte behind a backslash is taken unseen, even behind the end.
unfoldable pub scan : (ℕ → Bool) → Bool → ℕ → Bytes → Scanned
scan stop true zero p = record { text = peek p ∷ []; left = 0; at = next p }
scan stop true (suc k) p = add_byte (peek p) (scan stop false k (next p))
scan stop false zero p = record { text = []; left = 0; at = p }
scan stop false (suc k) p =
    let on = scan stop false k (next p) in
    let taken = scan stop true k (next p) in
    if stop (peek p)
    then record { text = []; left = suc k; at = p }
    else if peek p == b'\\'
    then taken
    else add_byte (peek p) on

-- The do-while loops: the first byte is not compared with the one that ends the text.
unfoldable pub do_scan : (ℕ → Bool) → ℕ → Bytes → Scanned
do_scan stop k p =
    if peek p == b'\\'
    then scan stop true (k - 1) (next p)
    else add_byte (peek p) (scan stop false (k - 1) (next p))

-- The loop on the tail, which ends at a zero byte only.
unfoldable pub scan_tail : Bool → Bytes → Bytes
scan_tail true [] = 0 ∷ []
scan_tail true (c ∷ p) = c ∷ scan_tail false p
scan_tail false [] = []
scan_tail false (c ∷ p) =
    let on = scan_tail false p in
    let taken = scan_tail true p in if c == 0 then [] else if c == b'\\' then taken else c ∷ on

abbrev pub is_byte : ℕ → ℕ → Bool
is_byte d c = c == d

abbrev pub ends_del : ℕ → Bool
ends_del c = c == b'$' || c == b')'

-- What is read between the parentheses behind the first `$`.
pub record Dels : Type 0 where
  pub dels : List Bytes
  pub nelts : ℕ
  pub ltail : Bytes
  pub left : ℕ
  pub at : Bytes

-- `while (tok != ')')`, with the dels and the number of `$` so far. Where the text of a round ends
-- neither at `$` nor at `)`, the next round stands where this one ended. `none` is a loop that the
-- rounds did not end.
unfoldable pub read_dels : ℕ → List Bytes → ℕ → ℕ → Bytes → Option Dels
read_dels zero dels nelts k p = none
read_dels (suc rounds) dels nelts k p =
    let r = scan ends_del false k p in
    let another = read_dels rounds (dels ++ r.text ∷ []) (nelts + 1) (r.left - 1) (next r.at) in
    let stay = read_dels rounds dels nelts r.left r.at in
    if peek p == b')'
    then some (record { dels = dels; nelts = nelts; ltail = []; left = k; at = p })
    else if peek r.at == b'$'
    then another
    else if peek r.at == b')'
    then some (record { dels = dels; nelts = nelts; ltail = r.text; left = r.left; at = r.at })
    else stay

-- The format, the NULL of a wrong one, or a loop between the parentheses that did not end.
pub data ReadStr : Type 0 where
  read_lines : Lines → ReadStr
  wrong_format : ReadStr
  running : ReadStr

-- From the `)` on.
unfoldable pub read_end : Bytes → Bytes → Dels → ReadStr
read_end head lhead d =
    let r = scan (is_byte b'?') false (d.left - 1) (next d.at) in
    let p = next r.at in
    if peek p == b'}'
    then read_lines (record {
      step = d.nelts;
      head = some head;
      tail = some (scan_tail false (next p));
      lhead = some lhead;
      ltail = some d.ltail;
      ldel = some r.text;
      dels = some d.dels;
    })
    else wrong_format

abbrev read_closed : Bytes → Bytes → Option Dels → ReadStr
read_closed head lhead none = running
read_closed head lhead (some d) = read_end head lhead d

-- From the first `$` on. Where `)` stands behind it, an empty string is pushed.
unfoldable pub read_elts : ℕ → Bytes → Bytes → ℕ → Bytes → ReadStr
read_elts rounds head lhead k p =
    read_closed head lhead
      (read_dels rounds (if peek (next p) == b')' then [] ∷ [] else []) 1 (k - 1) (next p))

-- From the `{` on.
unfoldable pub read_group : ℕ → Bytes → ℕ → Bytes → ReadStr
read_group rounds head k p =
    let q = next p in
    let r =
      if peek (next q) == b'$'
      then record { text = []; left = k - 2; at = next q }
      else do_scan (is_byte b'$') (k - 2) (next q) in
    if peek q == b'(' then read_elts rounds head r.text r.left r.at else wrong_format

-- `ngx_http_av_readstr` on a string of length `len`, with the memory from its first byte on.
unfoldable pub readstr : ℕ → ℕ → Bytes → ReadStr
readstr rounds len p =
    let r =
      if peek p == b'{'
      then record { text = []; left = len; at = p }
      else do_scan (is_byte b'{') len p in
    read_group rounds r.text r.left r.at
