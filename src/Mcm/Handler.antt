-- ===== src/Mcm/Handler.antt =====
-- `ngx_http_mcm_handler`: the request that enters the module.
use Prim.Native.Nat.{bit_and}
use ngxmp.Base.{ℕ, Bool, not, Option, none, some, ◌==◌, if◌then◌else◌}
use ngxmp.Mcm.{mc_end_len}

-- `ngx_http_mcm_ctx_t`, of the fields that are set here.
pub record Ctx : Type 0 where
  pub rest : ℕ
  pub times : ℕ

-- `NGX_DONE` comes with the context that the upstream is started with; `discarded` hands on what
-- `ngx_http_discard_request_body` returned; `crash` is a write through the NULL context.
pub data HandlerResult : Type 0 where
  not_allowed : HandlerResult
  discarded : ℕ → HandlerResult
  internal_error : HandlerResult
  crash : HandlerResult
  done : Ctx → HandlerResult

-- What nginx answers: `r->method`, the code of `ngx_http_discard_request_body` unless it is
-- NGX_OK, whether the content type could be set, whether `ngx_pcalloc` gives the upstream, and
-- whether `ngx_http_mcm_get_ctx` gives a context.
pub record Entry : Type 0 where
  pub method : ℕ
  pub discard : Option ℕ
  pub content_type : Bool
  pub alloc_upstream : Bool
  pub alloc_ctx : Bool

-- `NGX_HTTP_GET | NGX_HTTP_HEAD`
abbrev get_or_head : ℕ
get_or_head = 6

unfoldable pub start : Entry → HandlerResult
start r =
    if not r.content_type
    then internal_error
    else if not r.alloc_upstream
    then internal_error
    else if not r.alloc_ctx
    then crash
    else done (record { rest = mc_end_len; times = 2 })

unfoldable pub discard_body : Entry → Option ℕ → HandlerResult
unfolding start
discard_body r none = start r
discard_body r (some rc) = discarded rc

unfoldable pub handler : Entry → HandlerResult
unfolding discard_body
handler r = if bit_and r.method get_or_head == 0 then not_allowed else discard_body r r.discard
