-- ===== src/Mcm/Deliver.antt =====
-- The module as nginx's upstream code drives it, from the request to the last byte of the body.
use ngxmp.Base.{
  ℕ, ◌+◌, ◌<◌, ◌^◌, ◌≡◌, refl, Bool, true, false, if◌then◌else◌, Option, some, List, [], ◌∷◌, ◌++◌,
  Bytes, length, length-append, append-nil, concat, All, arith, length-eq-zero,
}
use ngxmp.Mcm.{Variable, cr, lf, size_add}
use ngxmp.Mcm.Handler
use ngxmp.Mcm.Handler.{Ctx, Entry}
use ngxmp.Mcm.Header.{HeaderResult, process_header}
use ngxmp.Mcm.Header.Accepts.{InLine, IsFlag, IsDigit, value_line, process_header-value_line}
use ngxmp.Mcm.Filter.{Status, ok, error, Upstream, Read, filter_init, run}
use ngxmp.Mcm.Filter.Chunks.{chunks, Served, Done, run-Done}

-- What the client gets: an error code, the announced `Content-Length` alone, or with what was sent.
pub data Outcome : Type 0 where
  waiting : Outcome
  refused : Outcome
  missing : Outcome
  header_sent : ℕ → Outcome
  crashed : Outcome
  sent : ℕ → Status × Upstream → Outcome

module _ (atoof : Bytes → ℕ → Option ℕ) (pv sv : Option Variable) where
  read_phase : List Read → ℕ → Status × Upstream → Outcome
  read_phase reads n (ok, u) = sent n (run sv reads u)
  read_phase reads n (error, u) = sent n (error, u)

  -- nginx hands `content_length_n` to `u->length`, runs `filter_init`, and then the read loop.
  body_phase : Ctx → Bool → List Read → ℕ → Outcome
  body_phase ctx alloc reads n =
      read_phase reads n (
        filter_init pv sv alloc
          (record { length = n; rest = ctx.rest; out = []; bad_trailers = 0 }))

  -- `ended` tells that `ngx_http_upstream_send_response` of nginx ends the request behind the header.
  header_phase : Bool → Ctx → Bool → (Bytes → List Read) → HeaderResult → Outcome
  header_phase ended ctx alloc reads HeaderResult.again = waiting
  header_phase ended ctx alloc reads HeaderResult.invalid_header = refused
  header_phase ended ctx alloc reads HeaderResult.not_found = missing
  header_phase ended ctx alloc reads HeaderResult.crash = crashed
  header_phase ended ctx alloc reads (HeaderResult.found n body) =
      if ended then header_sent n else body_phase ctx alloc (reads body) n

  -- `reads` gives the calls of the filter: the first takes what came with the header.
  -- The methods are those that nginx answers with a header alone.
  unfoldable pub deliver :
      (ℕ → Bool) → Entry → Ctx → Bool → Bytes → Bytes → ℕ → (Bytes → List Read) → Outcome
  unfolding header_phase body_phase read_phase
  deliver header_only r ctx alloc key buffer past reads =
      header_phase (header_only r.method) ctx alloc reads
        (process_header atoof pv sv key buffer past)

-- The announced length is the number of bytes sent, which are `text`.
abbrev pub Exactly : Bytes → Outcome → Type 0
Exactly text (sent n r) = Done text r × (n ≡ length text)
Exactly text _ = ⊥

-- What `filter_init` has set up before the first read, with `n` bytes of value to come.
record IsStarted (pv : Variable) (n : ℕ) (r : Status × Upstream) : Type 0 where
  fine : r.0 ≡ ok
  length : r.1.length ≡ n + 7
  rest : r.1.rest ≡ 7
  sent : concat r.1.out ≡ pv.text

filter_init-IsStarted :
    (pv sv : Variable) (n : ℕ) (u : Upstream)
    → n + length pv.text + length sv.text + 7 < 2 ^ 63
    → u.length ≡ n + length pv.text + length sv.text
    → u.rest ≡ 7
    → u.out ≡ []
    → IsStarted pv n (filter_init (some pv) (some sv) true u)
unfolding filter_init
filter_init-IsStarted pv sv n u b l r o = ground (arith, append-nil pv.text, length-eq-zero pv.text)

ctx-handler : (r : Entry) (ctx : Ctx) → Handler.handler r ≡ Handler.done ctx → ctx.rest ≡ 7
unfolding Handler.handler
ctx-handler r ctx e = ground arith

module _ (atoof : Bytes → ℕ → Option ℕ) (pv sv : Variable) where
  read_phase_lem :
      (reads : List Read) (value t : Bytes) (n : ℕ) (r : Status × Upstream)
      → IsStarted pv (length value) r
      → sv.not_found ≡ false
      → All Served reads
      → chunks reads ≡ value ++ t
      → length t ≡ 7
      → length value < 2 ^ 63
      → n ≡ length ((pv.text ++ value) ++ sv.text)
      → Exactly ((pv.text ++ value) ++ sv.text) (read_phase atoof (some pv) (some sv) reads n r)
  unfolding read_phase
  read_phase_lem reads value t n (error, u) g there h e k b w = cc g.fine
  read_phase_lem reads value t n (ok, u) g there h e k b w =
      (rw g.sent at (run-Done sv there reads u value t h e k g.length g.rest (omega arith)), w)

  -- A GET request that the handler lets in, on an nginx that does not end such a request behind its
  -- header, answered by a line VALUE key flags digits CRLF, the value
  -- and any seven bytes of trailer, with a readable length, short of the range of off_t, and
  -- allocations that succeed: the client gets the prefix, the value and the suffix, and the
  -- announced Content-Length is the length of these, wherever the reads cut the answer behind its
  -- first line.
  pub deliver_answer :
      (header_only : ℕ → Bool) (r : Entry) (ctx : Ctx) (key flags digits body value t : Bytes)
      (past : ℕ) (reads : Bytes → List Read)
      → r.method ≡ 2
      → header_only 2 ≡ false
      → Handler.handler r ≡ Handler.done ctx
      → sv.not_found ≡ false
      → All InLine key
      → All IsFlag flags
      → All IsDigit digits
      → length digits < 2 ^ 32
      → atoof (digits ++ cr ∷ 0 ∷ body) (length digits) ≡ some (length value)
      → All Served (reads body)
      → chunks (reads body) ≡ value ++ t
      → length t ≡ 7
      → length value + length pv.text + length sv.text + 7 < 2 ^ 63
      → Exactly ((pv.text ++ value) ++ sv.text) (
          deliver atoof
            (some pv)
            (some sv)
            header_only
            r
            ctx
            true
            key
            (value_line key flags digits ++ cr ∷ lf ∷ body)
            past
            reads)
  unfolding deliver
  deliver_answer header_only r ctx key flags digits body value t past reads get only hr there hk hf
        hd bd ha h e k b =
      let sum : size_add (length value) (size_add (length pv.text) (length sv.text))
          ≡ length value + length pv.text + length sv.text =
        omega arith in
      rw
        (
          process_header-value_line atoof pv sv key flags digits body past (length value) hk hf hd
              bd ha,
          sum,
          get,
          only,
        )
        (read_phase_lem (reads body) value t (length value + length pv.text + length sv.text) _
          (filter_init-IsStarted pv sv (length value) _ b refl (ctx-handler r ctx hr) refl) there h
          e k (omega arith)
          (omega (arith, length-append (pv.text ++ value) sv.text, length-append pv.text value)))
