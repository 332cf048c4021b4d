-- ===== src/Rv2/Upstreams.antt =====
-- `ngx_http_rv2_post_conf` and `ngx_http_rv2_init_proc` of
-- c/ngx_http_rv2_module/ngx_http_rv2_module.c: the upstreams of the configuration become nodes with
-- the addresses of their servers, the nodes are found by a hash table, and each server is connected.
pub mod Found
use ngxmp.Base.{
  ℕ, suc, ◌+◌, ◌*◌, Bool, true, false, Option, none, some, List, [], ◌∷◌, ◌++◌, if◌then◌else◌,
  get_elem?, Bytes, length, map, ◌>>=◌,
}
use ngxmp.HashTable.{Table, Added, added, add_error, divided, hash_create, hash_padd, hash_find}
use ngxmp.Rv2.{Rcs, nosuch_us, Lookup, at_node, no_node}
use ngxmp.Usset.{table_of}
use ngxmp.Util.McdConnect.{McdLibrary, kept, stored, overflow, mcd_connect}

-- `ngx_http_upstream_srv_conf_t` of nginx, as far as it is read: the addresses of the servers, or
-- NULL for an upstream without a list of servers.
pub record Upstream : Type 0 where
  pub host : Bytes
  pub servers : Option (List Bytes)

-- The pointer to a handle of the memcached library. The memory of a node is not cleared, so that
-- before `init_proc` writes it, the pointer is whatever stood there.
pub data Mc (C : Type 0) : Type 0 where
  unwritten : Mc C
  connected : C → Mc C

-- `ngx_http_rv2_mcd_node_t`
pub record McdNode (C : Type 0) : Type 0 where
  pub addr : Bytes
  pub mc : Mc C

-- `ngx_http_rv2_us_node_t`
pub record UsNode (C : Type 0) : Type 0 where
  pub name : Bytes
  pub mcd_array : List (McdNode C)

-- `ngx_http_rv2_main_conf_t` without the declared variables.
pub record MainConf (C : Type 0) : Type 0 where
  pub uss : List (UsNode C)
  pub us_hash : Table

module _ {C : Type 0} where
  unfoldable pub mcd_nodes : List Bytes → List (McdNode C)
  mcd_nodes [] = []
  mcd_nodes (a ∷ as') = record { addr = a; mc = unwritten } ∷ mcd_nodes as'

  -- The first loop; `allocs` are the arrays of servers that can be allocated.
  unfoldable pub us_nodes : (Bytes → Bool) → List Upstream → Option (List (UsNode C))
  unfolding mcd_nodes
  us_nodes allocs [] = some []
  us_nodes allocs (u ∷ us) = elim u.servers [
    | none ↦ us_nodes allocs us
    | some servers ↦
        if allocs u.host
        then us_nodes allocs us
          >>= (λ ns. some (record { name = u.host; mcd_array = mcd_nodes servers } ∷ ns))
        else none
  ]

  -- The second loop: the pointer to a node is its place in the array.
  unfoldable pub add_nodes :
      (Bytes → ℕ) → (Bytes → Bool) → ℕ → List (UsNode C) → Table → Option Table
  add_nodes hash_key allocs i [] t = some t
  add_nodes hash_key allocs i (n ∷ ns) t =
      table_of (hash_padd hash_key (allocs n.name) t n.name (some i)) >>= λ t'.
      add_nodes hash_key allocs (i + 1) ns t'

  -- By which allocations succeed: the array of nodes, the arrays of servers, the table, and the
  -- elements of the table. NGX_ERROR is `none`.
  unfoldable pub post_conf :
      (Bytes → ℕ)
      → Bool
      → (Bytes → Bool)
      → Bool
      → (Bytes → Bool)
      → List Upstream
      → Option (MainConf C)
  unfolding us_nodes add_nodes
  post_conf hash_key alloc_uss alloc_servers alloc_table alloc_elts us =
      if alloc_uss
      then us_nodes alloc_servers us >>= (λ ns. hash_create alloc_table (length ns * 2) >>= λ t.
          add_nodes hash_key alloc_elts 0 ns t >>= λ t'. some (record { uss = ns; us_hash = t' }))
      else none

  -- A connection that fails does not end the loops. `none` is a write behind a buffer.
  unfoldable pub connect_nodes : McdLibrary C → List (McdNode C) → Option (List (McdNode C))
  unfolding mcd_connect
  connect_nodes lib [] = some []
  connect_nodes lib (n ∷ ns) = elim (mcd_connect lib n.addr) [
    | overflow ↦ none
    | kept ↦ connect_nodes lib ns >>= (λ ms. some (n ∷ ms))
    | stored c answered ↦ connect_nodes lib ns >>= (λ ms. some (record n { mc = connected c } ∷ ms))
  ]

  unfoldable pub connect_uss : McdLibrary C → List (UsNode C) → Option (List (UsNode C))
  unfolding connect_nodes
  connect_uss lib [] = some []
  connect_uss lib (u ∷ us) = connect_nodes lib u.mcd_array >>= λ ms.
      connect_uss lib us >>= λ vs. some (record u { mcd_array = ms } ∷ vs)

  unfoldable pub init_proc : McdLibrary C → MainConf C → Option (MainConf C)
  unfolding connect_uss
  init_proc lib m = connect_uss lib m.uss >>= λ uss. some (record m { uss = uss })

  -- The search of `rv2_get_us_node`; the pointer that was stored is taken back to its node.
  unfoldable pub find_us : (Bytes → ℕ) → MainConf C → Bytes → Lookup (List (McdNode C))
  find_us hash_key m name = elim (hash_find hash_key m.us_hash name) [
    | none ↦ Lookup.divided
    | some none ↦ no_node nosuch_us
    | some (some i) ↦ elim (get_elem? m.uss i) [
      | none ↦ no_node nosuch_us
      | some u ↦ at_node u.mcd_array
    ]
  ]
