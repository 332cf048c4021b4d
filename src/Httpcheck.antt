-- ===== src/Httpcheck.antt =====
-- c/ngx_http_httpcheck_module/ngx_http_httpcheck_module.c: a request to a server that is checked,
-- and the reading of its answer into two variables, before the request is redirected.
pub mod Search
pub mod Split
mod Tests
use Prim.Native.Nat.{bit_and}
use ngxmp.Base.{
  ℕ, zero, suc, ◌+◌, ◌-◌, ◌^◌, ◌%◌, Bool, true, false, not, ◌&&◌, ◌||◌, Option, none, some, [], ◌∷◌,
  ◌++◌, ◌==◌, ltb, leb, if◌then◌else◌, take, drop, Bytes, codes, length, peek, next, strncmp_eq,
}

-- `ngx_http_httpcheck_handler`. `discarded` hands on what `ngx_http_discard_request_body` returned,
-- and `crash` is a write through the NULL context.
pub data Handled : Type 0 where
  not_allowed : Handled
  discarded : ℕ → Handled
  internal_error : Handled
  crash : Handled
  done : Handled

-- `NGX_HTTP_GET | NGX_HTTP_HEAD`
abbrev get_or_head : ℕ
get_or_head = 6

unfoldable pub start : Bool → Bool → Handled
start alloc_upstream alloc_ctx =
    if not alloc_upstream then internal_error else if not alloc_ctx then crash else done

-- With the method, the code of `ngx_http_discard_request_body` unless that is NGX_OK, and whether
-- the upstream and the context could be allocated.
unfoldable pub handler : ℕ → Option ℕ → Bool → Bool → Handled
handler method discard alloc_upstream alloc_ctx =
    if bit_and method get_or_head == 0
    then not_allowed
    else elim discard [ none ↦ start alloc_upstream alloc_ctx | some rc ↦ discarded rc ]

abbrev pub crlf : Bytes
crlf = 13 ∷ 10 ∷ []

-- `get_head`, `uri_loc`, `sHTTP` and `sHost`.
abbrev pub get_head : Bytes
get_head = codes "GET "

abbrev pub uri_loc : Bytes
uri_loc = codes "/sass/interface/sass_data_input_output.php?"

abbrev pub http_line : Bytes
http_line = codes " HTTP/1.1" ++ crlf

abbrev pub host_line : Bytes
host_line = codes "Host: localhost:4194" ++ crlf

-- What is sent, with the size of its buffer.
pub record Request : Type 0 where
  pub text : Bytes
  pub size : ℕ

-- `ngx_http_httpcheck_create_request`; the variable is `none` where it is NULL or not found. The
-- texts are copied without a look at the size. NGX_ERROR is `none`.
unfoldable pub create_request : Bool → Bool → Option Bytes → Option Request
create_request alloc_buf alloc_link none = none
create_request alloc_buf alloc_link (some uri) =
    if length uri == 0 || not alloc_buf || not alloc_link
    then none
    else some (record {
      text = get_head ++ uri ++ http_line ++ host_line ++ crlf;
      size = length get_head + length uri + length uri_loc + 256;
    })

-- `for (; c < e && ngx_strncmp(pat.data, c, pat.len); ++c)` on `k` places: the number of steps.
unfoldable pub find : Bytes → ℕ → Bytes → ℕ
find pat zero p = 0
find pat (suc k) p = let rest = find pat k (next p) in if strncmp_eq p pat then 0 else suc rest

-- `for (; c < last && *c != ' '; ++c)` on `k` places.
unfoldable pub find_blank : ℕ → Bytes → ℕ
find_blank zero p = 0
find_blank (suc k) p = let rest = find_blank k (next p) in if peek p == b' ' then 0 else suc rest

-- `for (; d < e && ' ' != *d && ngx_strncmp(crlf.data, d, crlf.len); ++d)` on `k` places.
unfoldable pub find_end : ℕ → Bytes → ℕ
find_end zero p = 0
find_end (suc k) p =
    let rest = find_end k (next p) in if peek p == b' ' || strncmp_eq p crlf then 0 else suc rest

-- `p[i]`
abbrev pub byte_at : Bytes → ℕ → ℕ
byte_at mem i = peek (drop i mem)

abbrev pub chunked : Bytes
chunked = codes "Transfer-Encoding: chunked" ++ crlf

abbrev pub chunk_end : Bytes
chunk_end = crlf ++ codes "0" ++ crlf ++ crlf

abbrev pub content_length : Bytes
content_length = codes "Content-Length: "

abbrev pub header_end : Bytes
header_end = crlf ++ crlf

-- `ngx_http_httpcheck_ischunk` from `pos` to `p`.
unfoldable pub is_chunk : Bytes → ℕ → Bool
is_chunk mem p = not (find chunked p mem == p)

-- The loop that takes CR and LF off the end of the line, from the offset of that end; `none` is a
-- read in front of the buffer.
unfoldable pub trim : Bytes → ℕ → Option ℕ
trim mem zero = none
trim mem (suc e) =
    let rest = trim mem e in
    if byte_at mem e == 13 || byte_at mem e == 10 then rest else some (suc e)

-- `for (; s >= p && !(s[0] == '\r' && s[1] == '\n'); --s)` from `s = p + k - 1`, and `s += 2`.
unfoldable pub last_crlf : Bytes → ℕ → ℕ → ℕ
last_crlf mem p zero = p + 1
last_crlf mem p (suc k) =
    let rest = last_crlf mem p k in
    if byte_at mem (p + k) == 13 && byte_at mem (p + k + 1) == 10 then p + k + 2 else rest

-- Where the last line of a chunked body begins, when the body ends at `last`.
unfoldable pub chunk_line : Bytes → ℕ → ℕ → ℕ
chunk_line mem p last = if ltb last p then last + 1 else last_crlf mem p (last - p)

-- What follows the variables: the redirect, an error with a 404, or an error.
pub data Redirect : Type 0 where
  redirected : Redirect
  bad_uri : Redirect
  no_uri : Redirect

-- The context; -1 is `none`.
pub record Ctx : Type 0 where
  pub code : Option ℕ
  pub content_len : Option ℕ

-- NGX_AGAIN, NGX_ERROR, the values of $hc_code and $hc_res with the redirect, or a read or a write
-- outside the buffers.
pub data Outcome : Type 0 where
  again : Outcome
  failed : Outcome
  checked : Bytes → Bytes → Redirect → Outcome
  wild : Outcome

abbrev pub is_unset : Option ℕ → Bool
is_unset none = false
is_unset (some n) = n == 0

-- `ctx->content_len > last - p`
abbrev pub is_longer : Option ℕ → ℕ → ℕ → Bool
is_longer none p last = false
is_longer (some n) p last = ltb last (p + n)

module _ (atoi : Bytes → Option ℕ) where
  -- `ngx_http_httpcheck_getcode`
  unfoldable pub get_code : Bytes → ℕ → Option ℕ
  get_code mem last =
      let c = find_blank last mem in
      let s = drop (c + 1) mem in
      if byte_at mem c == b' ' then atoi (take (find_blank (last - (c + 1)) s) s) else some 0

  -- `ngx_http_httpcheck_getlen` from `pos` to `p`.
  unfoldable pub get_len : Bytes → ℕ → Option ℕ
  get_len mem p =
      let c = find content_length p mem in
      let d = c + length content_length in
      let s = drop d mem in if c == p then none else atoi (take (find_end (p - d) s) s)

-- With `ngx_atoi`, `sprintf` of "%d", `ngx_palloc` by the size, and what the redirect comes to.
module _ (atoi : Bytes → Option ℕ) (print_d : Option ℕ → Bytes) (palloc : ℕ → Bool)
    (redirect : Redirect) where
  -- The end of `ngx_http_httpcheck_process_header`, on the line from `at` to `e`. The length is a
  -- `size_t`.
  unfoldable pub set_res : Option ℕ → Bytes → ℕ → ℕ → Outcome
  set_res code mem at e =
      if not (palloc 32)
      then failed
      else if not (palloc ((e + 2 ^ 64 - at) % 2 ^ 64))
      then failed
      else if leb at e
      then checked (print_d code) (take (e - at) (drop at mem)) redirect
      else wild

  unfoldable pub set_line : Option ℕ → Bytes → ℕ → ℕ → Outcome
  set_line code mem at e = elim (trim mem e) [ none ↦ wild | some e' ↦ set_res code mem at e' ]

  -- A chunked body is complete when it ends with an empty chunk.
  unfoldable pub read_chunk : Option ℕ → Bytes → ℕ → ℕ → Outcome
  read_chunk code mem p last =
      if ltb last (length chunk_end)
      then wild
      else if not (strncmp_eq (drop (last - length chunk_end) mem) chunk_end)
      then again
      else set_line code mem (chunk_line mem p (last - length chunk_end)) (last - length chunk_end)

  -- A body whose length was announced.
  unfoldable pub read_body : Ctx → Bytes → ℕ → ℕ → Ctx × Outcome
  read_body ctx mem p last =
      if is_longer ctx.content_len p last then (ctx, again) else (ctx, set_line ctx.code mem p last)

  abbrev with_len : Ctx → Bytes → ℕ → ℕ → Option ℕ → Ctx × Outcome
  with_len ctx mem p last none = (record ctx { content_len = none }, failed)
  with_len ctx mem p last (some n) = read_body (record ctx { content_len = some n }) mem p last

  -- From the test for a chunked body on, with the header from 0 to `p`.
  unfoldable pub process_body : Ctx → Bytes → ℕ → ℕ → Ctx × Outcome
  process_body ctx mem p last =
      if is_chunk mem p
      then (ctx, read_chunk ctx.code mem p last)
      else if is_unset ctx.content_len
      then with_len ctx mem p last (get_len atoi mem p)
      else read_body ctx mem p last

  -- `ngx_http_httpcheck_process_header` on the memory from `pos` on, of which `last` bytes have been
  -- received.
  unfoldable pub process_header : Ctx → Bytes → ℕ → Ctx × Outcome
  process_header ctx mem last =
      let h = find header_end (last - 3) mem in
      let code = if is_unset ctx.code then get_code atoi mem last else ctx.code in
      let ctx' = record ctx { code = code } in
      if h + 4 == last
      then (ctx, again)
      else if is_unset code
      then (ctx', failed)
      else process_body ctx' mem (h + 4) last
