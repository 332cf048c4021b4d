-- ===== src/Rv.antt =====
-- c/ngx_http_rv_module/ngx_http_rv_module.c: variables that are read from and written to memcached.
pub mod Counters
pub mod Command
mod Tests
use ngxmp.Base.{
  c_string, ℕ, zero, suc, ◌+◌, ◌-◌, ◌%◌, ◌^◌, Bool, true, false, not, ◌&&◌, ◌||◌, Option, none,
  some, List, [], ◌∷◌, ◌==◌, ltb, leb, if◌then◌else◌, Bytes, codes, length, same_bytes, starts_with,
}

-- `ngx_http_rv_op_t`
pub data Op : Type 0 where
  rv_set rv_incr rv_decr rv_unknow : Op

-- `ngx_int_t`: `n`, or minus one and `n`.
pub data ℤ : Type 0 where
  pos : ℕ → ℤ
  negsuc : ℕ → ℤ

abbrev pub is_zero : ℤ → Bool
is_zero (pos n) = n == 0
is_zero (negsuc n) = false

-- `v0 + d` and `v0 - d`, or 0 where that is negative.
abbrev pub plus : ℕ → ℤ → ℕ
plus v0 (pos n) = v0 + n
plus v0 (negsuc n) = v0 - suc n

abbrev pub minus : ℕ → ℤ → ℕ
minus v0 (pos n) = v0 - n
minus v0 (negsuc n) = v0 + suc n

-- The memcached library on some servers: a state, and what the calls on the server with a number
-- give. `set` tells whether it succeeds.
pub record Memcache (M : Type 0) : Type 0 where
  pub aget : M → ℕ → Bytes → Option Bytes
  pub delete : M → ℕ → Bytes → M
  pub incr : M → ℕ → Bytes → ℤ → M × ℕ
  pub decr : M → ℕ → Bytes → ℤ → M × ℕ
  pub set : M → ℕ → Bytes → Bytes → M × Bool
  pub connect_again : M → ℕ → M

-- What the variable for the value is set to: not found, a string in the request's memory, the
-- string that was given, or one on the stack of the handler.
pub data Stored : Type 0 where
  not_found : Stored
  pooled : Bytes → Stored
  given : Bytes → Stored
  on_stack : Bytes → Stored

-- NGX_ERROR, the null value, or a value.
pub data Got : Type 0 where
  get_error : Got
  null_value : Got
  got : Bytes → Got

-- `get_mc`, with `ngx_crc32_long` and the number of servers, which is not 0: the number of a server.
unfoldable pub get_mc : (Bytes → ℕ) → ℕ → Bytes → ℕ
get_mc crc32 servers key = crc32 key % servers

-- The number in the value, with `ngx_atoi` and its -1 for an error: of one character, its distance
-- from `0`.
unfoldable pub amount : (Bytes → ℤ) → Bytes → ℤ
amount atoi (c ∷ []) = if leb b'0' c then pos (c - b'0') else negsuc (b'0' - c - 1)
amount atoi v = atoi v

-- `mc_incr` and `mc_decr`.
unfoldable pub count : {M : Type 0} → Memcache M → Op → M → ℕ → Bytes → ℤ → M × ℕ
count mc rv_incr m s key d = mc.incr m s key d
count mc _ m s key d = mc.decr m s key d

-- The default, by the operation.
unfoldable pub default_value : Op → ℤ → ℕ → ℕ
default_value rv_incr d v0 = plus v0 d
default_value _ d v0 = minus v0 d

-- The `int` that "%d" takes from a number: its last 32 bits, with a sign.
unfoldable pub as_int : ℕ → ℤ
as_int n = let m = n % 2 ^ 32 in if ltb m (2 ^ 31) then pos m else negsuc (2 ^ 32 - 1 - m)

-- With the functions of libraries above, and `sprintf` of "%d".
module _ {M : Type 0} (mc : Memcache M) (crc32 : Bytes → ℕ) (atoi : Bytes → ℤ) (print_d : ℤ → Bytes)
    (servers : ℕ) where
  -- `ngx_http_rv_get_handler`, with the key and the value that chooses the server, or `none` where
  -- they are not found. After a miss the connection to the server of the key itself is made again.
  unfoldable pub get_handler : Bool → M → Option Bytes → Option Bytes → M × Got
  get_handler allocated m none hash_value = (m, get_error)
  get_handler allocated m (some key) none = (m, get_error)
  get_handler allocated m (some key) (some hash_value) =
      elim (mc.aget m (get_mc crc32 servers hash_value) key) [
        | none ↦ (mc.connect_again m (get_mc crc32 servers key), null_value)
        | some value ↦ (m, if allocated then got (c_string value) else get_error)
      ]

  -- `mc_set` and what follows it; the text is what the value variable is set to.
  unfoldable pub store : M → Bytes → Bytes → Bytes → Stored → M × Option Stored
  store m key hash_value text stored =
      let (m', ok) = mc.set m (get_mc crc32 servers hash_value) key text in
      if ok
      then (m', some stored)
      else (mc.connect_again m' (get_mc crc32 servers key), some not_found)

  -- Behind `mc_incr` or `mc_decr`, with its state and its result.
  unfoldable pub counted : Bool → Op → ℤ → ℕ → Bytes → Bytes → M × ℕ → M × Option Stored
  counted allocated op d v0 key hash_value (m, rc) =
      if rc == 0
      then store m key hash_value (print_d (as_int (default_value op d v0)))
          (on_stack (print_d (as_int (default_value op d v0))))
      else (m, some (if allocated then pooled (print_d (as_int rc)) else not_found))

  unfoldable pub change : Bool → Op → ℤ → ℕ → M → Bytes → Bytes → M × Option Stored
  change allocated op d v0 m key hash_value =
      if is_zero d
      then (m, none)
      else counted allocated op d v0 key hash_value
          (count mc op m (get_mc crc32 servers hash_value) key d)

  -- `ngx_http_rv_set_handler` for the value `v`; the variable stays as it was where `none` is given.
  -- An unknown operation leaves the result at -1.
  unfoldable pub set_value : Bool → Op → ℕ → M → Bytes → Bytes → Bytes → M × Option Stored
  set_value allocated rv_set v0 m key hash_value v = store m key hash_value v (given v)
  set_value allocated rv_unknow v0 m key hash_value v =
      (m, some (if allocated then pooled (codes "-1") else not_found))
  set_value allocated op v0 m key hash_value v =
      change allocated op (amount atoi v) v0 m key hash_value

  unfoldable pub set_handler :
      Bool → Op → ℕ → M → Option Bytes → Option Bytes → Bytes → M × Option Stored
  set_handler allocated op v0 m none hash_value v = (m, none)
  set_handler allocated op v0 m (some key) none v = (m, none)
  set_handler allocated op v0 m (some key) (some hash_value) v =
      if length v == 0
      then (mc.delete m (get_mc crc32 servers hash_value) key, some not_found)
      else set_value allocated op v0 m key hash_value v
