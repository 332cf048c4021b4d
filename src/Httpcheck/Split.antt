-- ===== src/Httpcheck/Split.antt =====
-- What `ngx_http_httpcheck_process_header` accepts, and what it does when the header of the answer
-- has not come whole.
use ngxmp.Base.{
  suc, ℕ, ◌+◌, ◌-◌, ◌^◌, ◌%◌, ◌≤◌, ◌<◌, ◌≡◌, refl, Bool, true, false, Option, none, some, ◌==◌, leb,
  if◌then◌else◌, take, drop, Bytes, strncmp_eq, arith, Bool-cases, inl, inr, ==-eq-false, ==_self,
  leb→le, le→leb, suc-ne-zero, Option-cases,
}
use ngxmp.Httpcheck.{
  find, byte_at, chunked, content_length, header_end, is_chunk, trim, Redirect, Ctx, Outcome, again,
  failed, checked, wild, get_code, get_len, set_res, set_line, is_longer, read_body, is_unset,
  process_body, process_header,
}
use ngxmp.Httpcheck.Search.{
  Absent, find-Absent, find-found, find_first, trim_lem, LineEnds, is_line_end, Trimmed,
  trim-Trimmed,
}

is_chunk-Absent : (mem : Bytes) (p : ℕ) → Absent chunked p mem → is_chunk mem p ≡ false
unfolding is_chunk
is_chunk-Absent mem p h = rw (find-Absent chunked p mem h, ==_self p) refl

is_longer_fit : (p n last : ℕ) → p + n ≤ last → is_longer (some n) p last ≡ false
is_longer_fit p n last l = ground arith

not_longer : (p n last : ℕ) → is_longer (some n) p last ≡ false → p + n ≤ last
not_longer p n last x = ground arith

module _ (atoi : Bytes → Option ℕ) (print_d : Option ℕ → Bytes) (palloc : ℕ → Bool)
    (redirect : Redirect) where
  -- With no length kept from an earlier call and at least four bytes received, an answer in which
  -- neither the end of the header, nor a chunked encoding, nor a length stands so far is given up
  -- as failed: process_header does not wait for the rest.
  pub process_header-cut :
      (ctx : Ctx) (mem : Bytes) (last : ℕ)
      → ctx.content_len ≡ some 0
      → 4 ≤ last
      → Absent header_end (last - 3) mem
      → Absent chunked (last + 1) mem
      → Absent content_length (last + 1) mem
      → (process_header atoi print_d palloc redirect ctx mem last).1 ≡ failed
  unfolding process_header process_body get_len
  process_header-cut ctx mem last u l he ch cl =
      let p : last - 3 + 4 ≡ last + 1 = omega arith in
      let code = if is_unset ctx.code then get_code atoi mem last else ctx.code in
      rw
        (
          find-Absent header_end (last - 3) mem he,
          p,
          ==-eq-false (last + 1) last (λ e. omega (arith, e)),
        )
        (elim (Bool-cases (is_unset code)) [
          | inl z ↦ rw z refl
          | inr z ↦
              rw
                (
                  z,
                  is_chunk-Absent mem (last + 1) ch,
                  u,
                  find-Absent content_length (last + 1) mem cl,
                  ==_self (last + 1),
                )
                refl
        ])

  -- What an accepted answer is.
  abbrev pub Sound : Bytes → ℕ → Outcome → Type 0
  Sound mem last again = Unit
  Sound mem last failed = Unit
  Sound mem last wild = Unit
  Sound mem last (checked code res r) =
      (h : ℕ) × (n : ℕ) × (e : ℕ) × (strncmp_eq (drop h mem) header_end ≡ true)
      × (get_len atoi mem (h + 4) ≡ some n)
      × (h + 4 + n ≤ last)
      × (h + 4 ≤ e)
      × (e ≤ last)
      × (res ≡ take (e - (h + 4)) (drop (h + 4) mem))
      × LineEnds mem e last
      × (is_line_end (byte_at mem (e - 1)) ≡ false)

  Sound-set_res :
      (code : Option ℕ) (mem : Bytes) (last h n e : ℕ)
      → strncmp_eq (drop h mem) header_end ≡ true
      → get_len atoi mem (h + 4) ≡ some n
      → h + 4 + n ≤ last
      → Trimmed mem last (some e)
      → Sound mem last (set_res atoi print_d palloc redirect code mem (h + 4) e)
  unfolding set_res
  Sound-set_res code mem last h n e f g l (el, b, ends) = elim (Bool-cases (palloc 32)) [
    | inr z ↦ rw z tt
    | inl z ↦ elim (Bool-cases (palloc ((e + 2 ^ 64 - (h + 4)) % 2 ^ 64))) [
      | inr y ↦ rw (z, y) tt
      | inl y ↦ elim (Bool-cases (leb (h + 4) e)) [
        | inr x ↦ rw (z, y, x) tt
        | inl x ↦ rw (z, y, x) (h, n, e, f, g, l, leb→le (h + 4) e x, el, refl, ends, b)
      ]
    ]
  ]

  Sound-set_line :
      (code : Option ℕ) (mem : Bytes) (last h n : ℕ) (o : Option ℕ)
      → strncmp_eq (drop h mem) header_end ≡ true
      → get_len atoi mem (h + 4) ≡ some n
      → h + 4 + n ≤ last
      → Trimmed mem last o
      → Sound mem last (elim o [
        | none ↦ wild
        | some e' ↦ set_res atoi print_d palloc redirect code mem (h + 4) e'
      ])
  Sound-set_line code mem last h n none f g l t = tt
  Sound-set_line code mem last h n (some e) f g l t = Sound-set_res code mem last h n e f g l t

  -- Whatever has been received, and for any behaviour of ngx_atoi, sprintf, ngx_palloc and the
  -- redirect: with no length kept from an earlier call, an answer that never holds a chunked
  -- encoding is only accepted when its header has come whole, with a length, and as many bytes as
  -- that length are there behind it. The text that is passed on is the body as received, without
  -- the CR and LF at its end.
  pub process_header-Sound :
      (ctx : Ctx) (mem : Bytes) (last : ℕ)
      → ctx.content_len ≡ some 0
      → ((i : ℕ) → strncmp_eq (drop i mem) chunked ≡ false)
      → Sound mem last (process_header atoi print_d palloc redirect ctx mem last).1
  unfolding process_header process_body read_body set_line
  process_header-Sound ctx mem last u ch =
      let h = find header_end (last - 3) mem in
      let code = if is_unset ctx.code then get_code atoi mem last else ctx.code in
      elim (Bool-cases (h + 4 == last)) [
        | inl z ↦ rw z tt
        | inr z ↦ elim (Bool-cases (is_unset code)) [
          | inl y ↦ rw (z, y) tt
          | inr y ↦ elim (Option-cases (get_len atoi mem (h + 4))) [
            | inl g ↦ rw (z, y, is_chunk-Absent mem (h + 4) (λ i l. ch i), u, g) tt
            | inr (n, g) ↦ elim (Bool-cases (is_longer (some n) (h + 4) last)) [
              | inl x ↦ rw (z, y, is_chunk-Absent mem (h + 4) (λ i l. ch i), u, g, x) tt
              | inr x ↦
                  let fit = not_longer (h + 4) n last x in
                  rw (z, y, is_chunk-Absent mem (h + 4) (λ i l. ch i), u, g, x)
                    (Sound-set_line code mem last h n (trim mem last)
                      (find-found header_end (last - 3) mem (omega (arith, fit))) g fit
                      (trim-Trimmed mem last))
            ]
          ]
        ]
      ]

  -- An answer that has come whole and is never chunked, of less than 2^63 bytes, is accepted: with
  -- an unset context and memory for the two values, a readable code that is not 0, a header that
  -- ends at h, a body of at least the announced number of bytes that does not end where the header
  -- ends, and the end e of the body without the CR and LF that end it, the two variables get the
  -- code and the body up to e, and the redirect follows.
  pub process_header-whole :
      (ctx : Ctx) (mem : Bytes) (last h c n e : ℕ)
      → ctx.code ≡ some 0
      → ctx.content_len ≡ some 0
      → last < 2 ^ 63
      → palloc 32 ≡ true
      → palloc (e - (h + 4)) ≡ true
      → ((i : ℕ) → strncmp_eq (drop i mem) chunked ≡ false)
      → strncmp_eq (drop h mem) header_end ≡ true
      → Absent header_end h mem
      → h + 4 < last
      → get_code atoi mem last ≡ some (suc c)
      → get_len atoi mem (h + 4) ≡ some n
      → h + 4 + n ≤ last
      → h + 4 ≤ e
      → e ≤ last
      → is_line_end (byte_at mem (e - 1)) ≡ false
      → LineEnds mem e last
      → (process_header atoi print_d palloc redirect ctx mem last).1
        ≡ checked (print_d (some (suc c))) (take (e - (h + 4)) (drop (h + 4) mem)) redirect
  unfolding process_header process_body read_body set_line set_res
  process_header-whole ctx mem last h c n e uc ul big alloc_code alloc_res ch m a l code len fit le
        el b ends =
      let size : (e + 2 ^ 64 - (h + 4)) % 2 ^ 64 ≡ e - (h + 4) = omega arith in
      rw
        (
          find_first header_end (last - 3) h mem (omega arith) m a,
          ==-eq-false (h + 4) last (λ z. omega (arith, z)),
          uc,
          code,
          suc-ne-zero c,
          is_chunk-Absent mem (h + 4) (λ i k. ch i),
          ul,
          len,
          is_longer_fit (h + 4) n last fit,
          set_line,
          trim_lem mem last e (omega arith) el b ends,
          alloc_code,
          size,
          alloc_res,
          le→leb (h + 4) e le,
        )
        refl
