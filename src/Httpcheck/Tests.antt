-- ===== src/Httpcheck/Tests.antt =====
-- Answers of a checked server, and the witnesses.
use ngxmp.Base.{
  true, drop, ap, Bool-cases, inl, inr, ==→eq, ◌==◌, ℕ, ◌+◌, ◌/◌, ◌%◌, ◌*◌, ◌-◌, ◌≡◌, refl, Bool,
  ◌&&◌, Option, none, some, [], ◌∷◌, ◌++◌, ltb, leb, if◌then◌else◌, Bytes, codes, length,
  strncmp_eq, arith,
}
use ngxmp.Httpcheck.{
  byte_at, crlf, find, find_blank, find_end, is_chunk, chunked, content_length, header_end, trim,
  Ctx, failed, checked, redirected, again, get_code, get_len, set_res, set_line, read_body,
  read_chunk, chunk_line, last_crlf, process_body, process_header,
}
use ngxmp.Httpcheck.Search.{Absent, Absent-find, Absent-everywhere, LineEnds, is_line_end}
use ngxmp.Httpcheck.Split.{Sound, process_header-cut, process_header-Sound, process_header-whole}

abbrev decimal : ℕ → Bytes → Option ℕ
decimal acc [] = some acc
decimal acc (c ∷ s) =
    let rest = decimal (acc * 10 + (c - b'0')) s in if leb b'0' c && leb c b'9' then rest else none

abbrev atoi : Bytes → Option ℕ
atoi [] = none
atoi (c ∷ s) = decimal 0 (c ∷ s)

-- Numbers of three digits, which the codes are.
abbrev print_d : Option ℕ → Bytes
print_d none = codes "-1"
print_d (some n) = (n / 100 + b'0') ∷ ((n / 10) % 10 + b'0') ∷ (n % 10 + b'0') ∷ []

abbrev palloc : ℕ → Bool
palloc n = ltb n 4096

abbrev fresh : Ctx
fresh = record { code = some 0; content_len = some 0 }

abbrev answer : Bytes
answer =
    codes "HTTP/1.1 200 OK"
    ++ crlf
    ++ codes "Content-Length: 4"
    ++ crlf
    ++ crlf
    ++ codes "up"
    ++ crlf

accepted :
    (process_header atoi print_d palloc redirected fresh answer (length answer)).1
    ≡ checked (codes "200") (codes "up") redirected
unfolding process_header find strncmp_eq find_blank find_end is_chunk trim get_code get_len set_res
    set_line read_body process_body
accepted = refl

-- The same answer, without its last byte.
not_yet : (process_header atoi print_d palloc redirected fresh answer 41).1 ≡ again
unfolding process_header find strncmp_eq find_blank find_end is_chunk trim get_code get_len set_res
    set_line read_body process_body
not_yet = refl

abbrev in_chunks : Bytes
in_chunks =
    codes "HTTP/1.1 200 OK"
    ++ crlf
    ++ chunked
    ++ crlf
    ++ codes "2"
    ++ crlf
    ++ codes "up"
    ++ crlf
    ++ codes "0"
    ++ crlf
    ++ crlf

accepted_chunk :
    (process_header atoi print_d palloc redirected fresh in_chunks (length in_chunks)).1
    ≡ checked (codes "200") (codes "up") redirected
unfolding process_header find strncmp_eq find_blank find_end is_chunk trim get_code get_len set_res
    set_line read_chunk chunk_line last_crlf process_body
accepted_chunk = refl

-- The body of an empty chunked answer ends in front of its beginning, and its length wraps.
empty_chunk :
    (let mem = codes "HTTP/1.1 200 OK" ++ crlf ++ chunked ++ crlf ++ codes "0" ++ crlf ++ crlf in
      (process_header atoi print_d palloc redirected fresh mem (length mem)).1 ≡ failed)
unfolding process_header find strncmp_eq find_blank find_end is_chunk trim get_code get_len set_res
    set_line read_chunk chunk_line last_crlf process_body
empty_chunk = refl

answer-chunked : Absent chunked (length answer) answer
unfolding find strncmp_eq
answer-chunked = Absent-find chunked (length answer) answer refl

process_header-Sound_example :
    Sound atoi print_d palloc redirected answer
      (length answer)
      (process_header atoi print_d palloc redirected fresh answer (length answer)).1
process_header-Sound_example =
    process_header-Sound atoi print_d palloc redirected fresh answer (length answer) refl (
      Absent-everywhere b'T' (codes "ransfer-Encoding: chunked" ++ crlf) answer refl answer-chunked)

-- What has come of an answer when its first line is there.
abbrev cut : Bytes
cut = codes "HTTP/1.1 200 OK" ++ crlf

cut-header_end : Absent header_end 14 cut
unfolding find strncmp_eq
cut-header_end = Absent-find header_end 14 cut refl

cut-chunked : Absent chunked 18 cut
unfolding find strncmp_eq
cut-chunked = Absent-find chunked 18 cut refl

cut-content_length : Absent content_length 18 cut
unfolding find strncmp_eq
cut-content_length = Absent-find content_length 18 cut refl

process_header-cut_example : (process_header atoi print_d palloc redirected fresh cut 17).1 ≡ failed
process_header-cut_example =
    process_header-cut atoi print_d palloc redirected fresh cut 17 refl (omega arith) cut-header_end
      cut-chunked cut-content_length

answer-header_end : Absent header_end 34 answer
unfolding find strncmp_eq
answer-header_end = Absent-find header_end 34 answer refl

answer_end : strncmp_eq (drop 34 answer) header_end ≡ true
unfolding strncmp_eq
answer_end = refl

answer_code : get_code atoi answer (length answer) ≡ some 200
unfolding get_code find_blank
answer_code = refl

answer_length : get_len atoi answer 38 ≡ some 4
unfolding get_len find strncmp_eq find_end
answer_length = refl

answer-LineEnds : LineEnds answer 40 (length answer)
answer-LineEnds i le lt = elim (Bool-cases (i == 40)) [
  | inl e ↦ ap (λ j. is_line_end (byte_at answer j)) (==→eq i 40 e)
  | inr e ↦ ap (λ j. is_line_end (byte_at answer j)) {x = i} {y = 41} (ground arith)
]

process_header-whole_example :
    (process_header atoi print_d palloc redirected fresh answer (length answer)).1
    ≡ checked (codes "200") (codes "up") redirected
process_header-whole_example =
    process_header-whole atoi print_d palloc redirected fresh answer (length answer) 34 199 4 40
      refl refl (omega arith) refl refl
      (Absent-everywhere b'T' (codes "ransfer-Encoding: chunked" ++ crlf) answer refl
        answer-chunked)
      answer_end answer-header_end (omega arith) answer_code answer_length (omega arith)
      (omega arith) (omega arith) refl answer-LineEnds
