-- ===== src/Mcm/Tests.antt =====
-- The memcached module on a concrete answer.
use ngxmp.Base.{
  c_string, ℕ, zero, suc, ◌+◌, ◌*◌, ◌-◌, ◌≡◌, refl, ◌++◌, true, false, ◌&&◌, Option, none, some,
  List, [], ◌∷◌, ◌==◌, leb, if◌then◌else◌, Bytes, codes, length, arith, strncmp_eq,
}
use ngxmp.Mcm.{Variable, cr, lf, mc_end}
use ngxmp.Mcm.Handler
use ngxmp.Mcm.Handler.{Ctx, Entry}
use ngxmp.Mcm.Request.{Request, create_request, request_key, request_size, create_request-fits}
use ngxmp.Mcm.Header.{
  HeaderResult, find_lf, skip_flags, skip_cr, announce, read_length, after_flags, after_key,
  parse_line, process_header,
}
use ngxmp.Mcm.Header.Accepts.{value_line, process_header-value_line}
use ngxmp.Mcm.Header.OwnKey.{process_header-own_key}
use ngxmp.Mcm.Filter.{
  ok, Upstream, Read, link, filter_init, add_suffix, check_trailer, filter_trailer, cut_last,
  filter_last, filter, run,
}
use ngxmp.Mcm.Filter.Chunks.{Done, run-Done}
use ngxmp.Mcm.Deliver.{Exactly, deliver, sent, header_sent, deliver_answer}

-- A decimal reader in the place of `ngx_atoof`.
decimal : Bytes → ℕ → ℕ → Option ℕ
decimal m zero acc = some acc
decimal [] (suc n) acc = none
decimal (c ∷ m) (suc n) acc =
    let rest = decimal m n (acc * 10 + (c - b'0')) in
    if leb b'0' c && leb c b'9' then rest else none

atoof : Bytes → ℕ → Option ℕ
atoof m n = if n == 0 then none else decimal m n 0

abbrev pre : Variable
pre = record { not_found = false; text = codes "<" }

abbrev suf : Variable
suf = record { not_found = false; text = codes ">" }

abbrev piece : Bytes → Read
piece b = record { chunk = b; stale = []; alloc = true; alloc_suffix = true }

-- "hello" comes in two reads, and the trailer in two.
abbrev reads : Bytes → List Read
reads body =
    piece body ∷ piece (codes "lo" ++ cr ∷ []) ∷ piece (lf ∷ (codes "END" ++ cr ∷ lf ∷ [])) ∷ []

abbrev entry : Entry
entry = record {
  method = 2;
  discard = none;
  content_type = true;
  alloc_upstream = true;
  alloc_ctx = true;
}

abbrev ctx : Ctx
ctx = record { rest = 7; times = 2 }

abbrev answer : Bytes
answer = value_line (codes "k") (codes "0") (codes "5") ++ cr ∷ lf ∷ codes "hel"

deliver_hello :
    deliver atoof (some pre) (some suf) (λ m. m == 4) entry ctx true (codes "k") answer 0 reads
    ≡ sent 7 (
      ok,
      record {
        length = 0;
        rest = 0;
        out = codes "<" ∷ codes "hel" ∷ codes "lo" ∷ codes ">" ∷ [];
        bad_trailers = 0;
      },
    )
unfolding deliver process_header parse_line after_key after_flags read_length announce find_lf
    skip_flags skip_cr strncmp_eq atoof decimal filter_init run filter filter_trailer filter_last
    cut_last check_trailer link add_suffix
deliver_hello = refl

-- Of an answer to HEAD, nginx sends the header alone.
deliver_head :
    deliver atoof
      (some pre)
      (some suf)
      (λ m. m == 4)
      (record entry { method = 4 })
      ctx
      true
      (codes "k")
      answer
      0
      reads
    ≡ header_sent 7
unfolding deliver process_header parse_line after_key after_flags read_length announce find_lf
    skip_flags skip_cr strncmp_eq atoof decimal
deliver_head = refl

process_header_missing :
    process_header atoof (some pre) (some suf) (codes "k") (codes "END" ++ cr ∷ lf ∷ []) 0
    ≡ HeaderResult.not_found
unfolding process_header parse_line find_lf strncmp_eq c_string
process_header_missing = refl

process_header_cut :
    process_header atoof (some pre) (some suf) (codes "k") (codes "VALUE k") 0 ≡ HeaderResult.again
unfolding process_header find_lf
process_header_cut = refl

handler-entry : Handler.handler entry ≡ Handler.done ctx
unfolding Handler.handler
handler-entry = refl

atoof_five : atoof (codes "5" ++ cr ∷ 0 ∷ codes "hel") 1 ≡ some 5
unfolding atoof decimal
atoof_five = refl

deliver_answer_example :
    Exactly
      (codes "<hello>")
      (deliver atoof (some pre) (some suf) (λ m. m == 4) entry ctx true (codes "k") answer 0 reads)
deliver_answer_example =
    deliver_answer atoof pre suf (λ m. m == 4) entry ctx (codes "k") (codes "0") (codes "5")
      (codes "hel") (codes "hello") mc_end 0 reads refl refl handler-entry refl (omega arith)
      (omega arith) (omega arith) (omega arith) atoof_five
      (((λ e. cc e), refl, refl), (((λ e. cc e), refl, refl), (((λ e. cc e), refl, refl), tt))) refl
      refl (omega arith)

process_header-value_line_example :
    process_header atoof (some pre) (some suf) (codes "k") answer 0
    ≡ HeaderResult.found 7 (codes "hel")
process_header-value_line_example =
    process_header-value_line atoof pre suf (codes "k") (codes "0") (codes "5") (codes "hel") 0 5
      (omega arith) (omega arith) (omega arith) (omega arith) atoof_five

process_header-own_key_example :
    (r : Bytes) × (answer ≡ codes "VALUE " ++ (codes "k" ++ (b' ' ∷ r)))
process_header-own_key_example =
    process_header-own_key atoof (some pre) (some suf) (codes "k") answer (codes "hel") 0 7
      (omega arith) process_header-value_line_example

abbrev halfway : Upstream
halfway = record { length = 9; rest = 7; out = codes "hel" ∷ []; bad_trailers = 0 }

run-Done_example : Done ((codes "hel" ++ codes "lo") ++ codes ">") (
    run
      (some suf)
      (piece (codes "lo" ++ cr ∷ []) ∷ piece (lf ∷ (codes "END" ++ cr ∷ lf ∷ [])) ∷ [])
      halfway)
run-Done_example =
    run-Done suf refl
      (piece (codes "lo" ++ cr ∷ []) ∷ piece (lf ∷ (codes "END" ++ cr ∷ lf ∷ [])) ∷ []) halfway
      (codes "lo") mc_end (((λ e. cc e), refl, refl), (((λ e. cc e), refl, refl), tt)) refl refl
      refl refl (omega arith)

-- Escaping of blanks, in the place of `ngx_escape_uri`.
abbrev blanks : Bytes → ℕ
blanks [] = 0
blanks (c ∷ cs) = (if c == b' ' then 1 else 0) + blanks cs

abbrev percent : Bytes → Bytes
percent [] = []
percent (c ∷ cs) = (if c == b' ' then codes "%20" else c ∷ []) ++ percent cs

length-percent : (s : Bytes) → length (percent s) ≡ length s + 2 * blanks s
length-percent [] = refl
length-percent (c ∷ cs) = ground (arith, length-percent cs)

percent_none : (s : Bytes) → blanks s ≡ 0 → percent s ≡ s
percent_none [] h = refl
percent_none (c ∷ cs) h = ground (arith, percent_none cs)

abbrev key_var : Variable
key_var = record { not_found = false; text = codes "a b" }

abbrev request : Request
request = record { bytes = codes "get a%20b" ++ cr ∷ lf ∷ []; size = 11; key = codes "a%20b" }

create_request_ab : create_request blanks percent (some key_var) true true ≡ some request
unfolding create_request request_key request_size
create_request_ab = refl

create_request-fits_example :
    (length request.bytes ≡ 11)
    × (codes "a%20b" ≡ percent (codes "a b"))
    × (request.bytes ≡ codes "get " ++ (percent (codes "a b") ++ cr ∷ lf ∷ []))
create_request-fits_example =
    create_request-fits blanks percent length-percent percent_none key_var true true request
      (omega arith) create_request_ab
