-- ===== src/Mcm/Request.antt =====
-- `ngx_http_mcm_create_request`: the command `get` for the value of `$memcached_key`.
use Prim.Native.Nat.{◌*◌}
use ngxmp.Base.{
  ℕ, ◌+◌, ◌*◌, ◌%◌, ◌^◌, ◌<◌, ◌≡◌, sym, inl, inr, Bool, not, ◌||◌, Option, none, some, [], ◌∷◌,
  ◌++◌, ◌==◌, if◌then◌else◌, Bytes, codes, length, length-append, arith, Bool-cases,
}
use ngxmp.Mcm.{Variable, cr, lf}

-- The one request buffer: the bytes from `b->pos` to `b->last`, its size `b->end - b->start`, and
-- `ctx->key`.
pub record Request : Type 0 where
  pub bytes : Bytes
  pub size : ℕ
  pub key : Bytes

-- `ngx_escape_uri` is nginx's: called with NULL it counts the bytes to escape, else it writes.
module _ (escape_count : Bytes → ℕ) (escape_uri : Bytes → Bytes) where
  -- `ctx->key`
  unfoldable pub request_key : Bytes → Bytes
  request_key text = if (2 * escape_count text) % 2 ^ 64 == 0 then text else escape_uri text

  -- `sizeof("get ") - 1 + vv->len + escape + sizeof(CRLF) - 1`
  unfoldable pub request_size : Bytes → ℕ
  request_size text = (4 + length text + (2 * escape_count text) % 2 ^ 64 + 2) % 2 ^ 64

  -- `none` is NGX_ERROR; `alloc_buf` and `alloc_chain` say whether the allocations succeed.
  unfoldable pub create_request : Option Variable → Bool → Bool → Option Request
  create_request none alloc_buf alloc_chain = none
  create_request (some vv) alloc_buf alloc_chain =
      if vv.not_found || length vv.text == 0
      then none
      else if not alloc_buf || not alloc_chain
      then none
      else some (record {
        bytes = codes "get " ++ (request_key vv.text ++ cr ∷ lf ∷ []);
        size = request_size vv.text;
        key = request_key vv.text;
      })

  -- What is documented of `ngx_escape_uri`: each escaped byte becomes three, and nothing changes
  -- where nothing is counted.
  module _ (escape_length : (s : Bytes) → length (escape_uri s) ≡ length s + 2 * escape_count s)
      (escape_none : (s : Bytes) → escape_count s ≡ 0 → escape_uri s ≡ s) where
    request_key-eq-escape_uri :
        (s : Bytes) → 2 * escape_count s < 2 ^ 64 → request_key s ≡ escape_uri s
    unfolding request_key
    request_key-eq-escape_uri s b = elim (Bool-cases ((2 * escape_count s) % 2 ^ 64 == 0)) [
      | inl z ↦ rw z (sym (escape_none s (ground arith)))
      | inr z ↦ rw z
    ]

    -- A request that is made holds get, the escaped key and CRLF, and fills its buffer exactly,
    -- given that escaping makes three bytes of each byte it counts and changes nothing where it
    -- counts none; the key that answers are compared with is the escaped one.
    pub create_request-fits :
        (vv : Variable) (alloc_buf alloc_chain : Bool) (q : Request)
        → length vv.text + 2 * escape_count vv.text + 6 < 2 ^ 64
        → create_request (some vv) alloc_buf alloc_chain ≡ some q
        → (length q.bytes ≡ q.size)
          × (q.key ≡ escape_uri vv.text)
          × (q.bytes ≡ codes "get " ++ (escape_uri vv.text ++ cr ∷ lf ∷ []))
    unfolding create_request request_size
    create_request-fits vv alloc_buf alloc_chain q b e =
        let k = request_key-eq-escape_uri vv.text (omega arith) in
        ground (arith, k, escape_length vv.text, length-append (escape_uri vv.text) (cr ∷ lf ∷ []))
