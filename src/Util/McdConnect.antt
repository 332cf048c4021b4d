-- ===== src/Util/McdConnect.antt =====
-- `ngx_mcd_connect` of c/ngx_util/ngx_memcached_util.h.
use ngxmp.Base.{Bool, Option, none, some, if◌then◌else◌, ◌==◌, ltb, peek, Bytes, length}

-- What a call does to the handle that it is given a pointer to: nothing, or a new handle is stored,
-- and whether the server answered then; `overflow` is a write behind the buffer of 128 bytes.
pub data Connected (C : Type 0) : Type 0 where
  kept : Connected C
  stored : C → Bool → Connected C
  overflow : Connected C

-- The handle that memcached_server_push or memcached_server_add_unix_socket gives where it
-- succeeds, and whether memcached_get of the key "a" gives MEMCACHED_SUCCESS or MEMCACHED_NOTFOUND.
pub record McdLibrary (C : Type 0) : Type 0 where
  pub server_push : Bytes → Option C
  pub add_unix_socket : Bytes → Option C
  pub answers : C → Bool

module _ {C : Type 0} (lib : McdLibrary C) where
  unfoldable pub mcd_connect : Bytes → Connected C
  mcd_connect addr =
      if length addr == 0
      then kept
      else if ltb (length addr) 128
      then (elim (if peek addr == b'/' then lib.add_unix_socket addr else lib.server_push addr) [
        | none ↦ kept
        | some c ↦ stored c (lib.answers c)
      ])
      else overflow
