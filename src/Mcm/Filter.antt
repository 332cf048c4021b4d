-- ===== src/Mcm/Filter.antt =====
-- `ngx_http_mcm_filter_init` and `ngx_http_mcm_filter`: the body of the answer, as it arrives.

pub mod Chunks
use ngxmp.Base.{
  ℕ, ◌+◌, ◌-◌, Bool, true, false, not, Option, none, some, List, [], ◌∷◌, ◌++◌, ◌==◌, leb,
  if◌then◌else◌, Bytes, length, take, drop, strncmp_eq,
}
use ngxmp.Mcm.{Variable, mc_end, mc_end_len, size_add, size_sub}

pub data Status : Type 0 where
  ok : Status
  error : Status

-- `u->length`, `ctx->rest`, every buffer ever linked to `u->out_bufs`, and how often
-- "memcached sent invalid trailer" was logged.
pub record Upstream : Type 0 where
  pub length : ℕ
  pub rest : ℕ
  pub out : List Bytes
  pub bad_trailers : ℕ

-- One call of the filter: the bytes that were read, the memory behind them in the buffer, and
-- whether `ngx_chain_get_free_buf` succeeds for the body and for the suffix.
pub record Read : Type 0 where
  pub chunk : Bytes
  pub stale : Bytes
  pub alloc : Bool
  pub alloc_suffix : Bool

-- `ngx_get_free_chain` with the assignments behind it: a buffer over `data` joins `u->out_bufs`.
unfoldable pub link : Bytes → Upstream → Upstream
link text u = record u { out = u.out ++ text ∷ [] }

-- The body of `ngx_http_mcm_filter_init`, once both variables are there.
unfoldable pub init_with : Variable → Variable → Bool → Upstream → Status × Upstream
unfolding link
init_with pv sv alloc u =
    let grown = record u { length = size_add u.length mc_end_len } in
    let cut = λ (w : Upstream). record w {
      length = size_sub (size_sub w.length (length pv.text)) (length sv.text);
    } in
    if length pv.text == 0
    then (ok, cut grown)
    else if not alloc
    then (error, grown)
    else (ok, cut (link pv.text grown))

-- `NULL == pv` and `NULL == sv` are tested behind the first assignment.
unfoldable pub filter_init : Option Variable → Option Variable → Bool → Upstream → Status × Upstream
unfolding init_with
filter_init none sv alloc u = (error, record u { length = size_add u.length mc_end_len })
filter_init (some pv) none alloc u = (error, record u { length = size_add u.length mc_end_len })
filter_init (some pv) (some sv) alloc u = init_with pv sv alloc u

unfoldable pub add_suffix : Option Variable → Bool → Upstream → Status × Upstream
unfolding link
add_suffix none alloc u = (error, u)
add_suffix (some sv) alloc u =
    if sv.not_found
    then (error, u)
    else if length sv.text == 0
    then (ok, u)
    else if not alloc
    then (error, u)
    else (ok, link sv.text u)

-- The trailer is only compared and logged.
unfoldable pub check_trailer : Bool → Upstream → Upstream
check_trailer true u = u
check_trailer false u = record u { bad_trailers = u.bad_trailers + 1 }

-- `u->length == ctx->rest`: what is left to read is trailer.
unfoldable pub filter_trailer : Option Variable → Read → Upstream → Status × Upstream
filter_trailer sv rd u =
    let good = strncmp_eq (rd.chunk ++ rd.stale) (drop (mc_end_len - u.rest) mc_end) in
    add_suffix sv rd.alloc_suffix (record (check_trailer good u) { length = 0; rest = 0 })

-- The chunk reaches into the trailer by `over` bytes: the statements up to `u->length = ctx->rest`.
unfoldable pub cut_last : Read → Upstream → Upstream
cut_last rd u =
    let body = u.length - mc_end_len in
    let over = length rd.chunk - body in
    let good = strncmp_eq (drop body rd.chunk) (take over (mc_end ++ 0 ∷ [])) in
    record (link (take body rd.chunk) (check_trailer good u)) {
      length = size_sub u.rest over;
      rest = size_sub u.rest over;
    }

unfoldable pub filter_last : Option Variable → Read → Upstream → Status × Upstream
filter_last sv rd u =
    let u' = cut_last rd u in if u'.length == 0 then add_suffix sv rd.alloc_suffix u' else (ok, u')

-- `bytes <= (ssize_t) (u->length - MC_END_LEN)` is a signed test, so it is written without `-`.
unfoldable pub filter : Option Variable → Read → Upstream → Status × Upstream
filter sv rd u =
    if u.length == u.rest
    then filter_trailer sv rd u
    else if not rd.alloc
    then (error, u)
    else if leb (length rd.chunk + mc_end_len) u.length
    then (ok, record (link rd.chunk u) { length = size_sub u.length (length rd.chunk) })
    else filter_last sv rd u

-- nginx's read loop: it ends at `u->length == 0`, and when the filter fails.
unfoldable pub run : Option Variable → List Read → Upstream → Status × Upstream
run sv [] u = (ok, u)
run sv (rd ∷ rds) u = elim (u.length == 0) [
  | true ↦ (ok, u)
  | false ↦ let (s, u') = filter sv rd u in elim s [ ok ↦ run sv rds u' | error ↦ (error, u') ]
]
