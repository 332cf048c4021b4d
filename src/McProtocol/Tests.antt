-- ===== src/McProtocol/Tests.antt =====
-- The parser of c/ngx_util/mc_protocal.h on a concrete request and a concrete answer.
use ngxmp.Base.{ℕ, zero, suc, ◌+◌, ◌≤◌, ◌≡◌, refl, some, [], ◌∷◌, Bytes, codes, arith, length, true}
use ngxmp.McProtocol.{
  line_break, key, until_lb, null, Buffer, McData, rc_ok, rc_again, rc_error, get, parse,
  parse_init, remember_cur, data_str, matches_at, scan_text, expect, expect_cmd, found_at,
  step_until, step, parse_from, mc_get_req,
}
use ngxmp.McProtocol.Scan.{Holds}
use ngxmp.McProtocol.Bounds.{IsBounded, parse-IsBounded}
use ngxmp.McProtocol.Request.{fresh, accepted, request_line, parse-request_line, parse-ok}
use ngxmp.McProtocol.Resume.{parse-again-until}
use ngxmp.McProtocol.Answer.{answer_text, fresh_answer, accepted_answer, parse-answer_text}

-- Memory that holds these bytes, and zeros behind.
abbrev mem_of : Bytes → ℕ → ℕ
mem_of [] i = 0
mem_of (x ∷ xs) zero = x
mem_of (x ∷ xs) (suc i) = mem_of xs i

abbrev request : Buffer
request = record { mem = mem_of (request_line (codes "key")); last = 9 }

abbrev half_request : Buffer
half_request = record { mem = mem_of (codes "get ke"); last = 6 }

abbrev answer : Buffer
answer = record {
  mem = mem_of (answer_text (codes "k") (codes "0") (codes "9") (codes "3") (codes "abc"));
  last = 25;
}

abbrev waiting : McData
waiting = record fresh { st = until_lb ∷ key ∷ line_break ∷ null ∷ []; c = some 6; pre = some 4 }

parse_init-get : parse_init true mc_get_req get ≡ some fresh
unfolding parse_init
parse_init-get = refl

parse-half : parse (some half_request) fresh ≡ (rc_again, waiting)
unfolding parse parse_from step expect expect_cmd matches_at step_until remember_cur found_at
    scan_text
parse-half = refl

parse-IsBounded_example : IsBounded 6 (parse (some half_request) fresh).1
parse-IsBounded_example = parse-IsBounded half_request fresh (ground arith)

line_parsed : parse (some request) fresh ≡ (rc_ok, accepted 3)
line_parsed =
    parse-request_line request (codes "key") (ground arith)
      (refl, (refl, (refl, (refl, (refl, (refl, (refl, (refl, (refl, tt))))))))) (omega arith)

request-ok : (parse (some request) fresh).0 ≡ rc_ok
unfolding parse parse_from step expect expect_cmd matches_at step_until remember_cur found_at
    scan_text data_str
request-ok = refl

parse-ok_example :
    (k : Bytes) × Holds request.mem 0 (request_line k)
    × (length k + 6 ≤ 9)
    × ((parse (some request) fresh).1 ≡ accepted (length k))
parse-ok_example = parse-ok request request-ok

parse-again-until_example : (parse (some request) waiting).0 ≡ rc_error
parse-again-until_example =
    parse-again-until half_request request until_lb (key ∷ line_break ∷ null ∷ []) fresh waiting
      parse-half refl tt

parse-answer_text_example :
    parse (some answer) fresh_answer
    ≡ (rc_ok, accepted_answer (codes "k") (codes "0") (codes "9") (codes "3") (codes "abc"))
parse-answer_text_example =
    parse-answer_text answer (codes "k") (codes "0") (codes "9") (codes "3") (codes "abc")
      (ground arith) (ground arith) (ground arith) (ground arith) (ground arith)
      (
        refl,
        (
          refl,
          (
            refl,
            (
              refl,
              (
                refl,
                (
                  refl,
                  (
                    refl,
                    (
                      refl,
                      (
                        refl,
                        (
                          refl,
                          (
                            refl,
                            (
                              refl,
                              (
                                refl,
                                (
                                  refl,
                                  (
                                    refl,
                                    (
                                      refl,
                                      (
                                        refl,
                                        (
                                          refl,
                                          (
                                            refl,
                                            (refl, (refl, (refl, (refl, (refl, (refl, tt)))))),
                                          ),
                                        ),
                                      ),
                                    ),
                                  ),
                                ),
                              ),
                            ),
                          ),
                        ),
                      ),
                    ),
                  ),
                ),
              ),
            ),
          ),
        ),
      )
      (omega arith)
