-- ===== src/Mcm/Conf/Tests.antt =====
-- Blocks with memcached_pass, of
-- c/ngx_http_memcached_more_module/ngx_http_memcached_more_module.c.
use ngxmp.Base.{
  ℕ, ◌≡◌, refl, Bool, true, false, Option, none, some, [], ◌∷◌, if◌then◌else◌, same_bytes, Bytes,
  codes,
}
use ngxmp.Util.Conf.{ok, message, wild}
use ngxmp.Mcm.Conf.{
  LocConf, empty_conf, create_loc_conf, merge_loc_conf, Passed, with_pass, pass, value_set_handler,
  value_get_handler,
}
use ngxmp.Mcm.Conf.Merged.{masks, served, merge_all, merge_all-innermost}
use ngxmp.Mcm.Conf.Passing.{pass-merge}

created : create_loc_conf true ≡ some empty_conf
unfolding create_loc_conf
created = refl

-- The block of the server sets a timeout and the masks, the location an upstream.
abbrev server : LocConf
server = record empty_conf { connect_timeout = some 500; next_upstream = 2147483713 }

abbrev location : LocConf
location =
    with_pass 7 0 1 2 (record empty_conf { connect_timeout = some 20; buffer_size = some 100 })

-- Of the masks, only `off` is left.
merge_all-innermost_example :
    let m = merge_all 4096 empty_conf (server ∷ location ∷ []) in
    (m.connect_timeout ≡ some 20)
    × (m.send_timeout ≡ some 60000)
    × (m.read_timeout ≡ some 60000)
    × (m.buffer_size ≡ some 100)
    × (masks m ≡ some 2147483649)
    × (served m ≡ some (7, codes "memcached://"))
    × (m.key_index ≡ some 0)
    × (m.value_index ≡ none)
    × (m.prefix_index ≡ some 1)
    × (m.suffix_index ≡ some 2)
merge_all-innermost_example = merge_all-innermost 4096 empty_conf server (location ∷ [])

abbrev index_of : Bytes → Option ℕ
index_of n =
    if same_bytes n (codes "memcached_key")
    then some 0
    else if same_bytes n (codes "memcached_prefix")
    then some 1
    else some 2

abbrev passed : Passed
passed = record { conf = with_pass 7 0 1 2 empty_conf; auto_redirect = true; prefix_data = some 1 }

pass-slash :
    pass (λ url. some 7) true index_of (codes "/mc/") false empty_conf (codes "10.0.0.1:11211")
    ≡ ok passed
unfolding pass
pass-slash = refl

-- A location without a name, as `if` has: the byte in front of it is read.
pass-nameless :
    pass (λ url. some 7) true index_of [] false empty_conf (codes "10.0.0.1:11211") ≡ wild
unfolding pass
pass-nameless = refl

pass-merge_example :
    let m = merge_loc_conf 4096 server passed.conf in
    let n = merge_loc_conf 4096 m empty_conf in
    ((u : ℕ) × (some 7 ≡ some u)
      × (served m ≡ some (u, codes "memcached://"))
      × (served n ≡ some (u, codes "memcached://")))
    × ((i : ℕ) × (index_of (codes "memcached_key") ≡ some i)
        × (m.key_index ≡ some i)
        × (n.key_index ≡ some i))
    × ((i : ℕ) × (index_of (codes "memcached_prefix") ≡ some i)
        × (m.prefix_index ≡ some i)
        × (n.prefix_index ≡ some i)
        × (some 1 ≡ some i))
    × ((i : ℕ) × (index_of (codes "memcached_suffix") ≡ some i)
        × (m.suffix_index ≡ some i)
        × (n.suffix_index ≡ some i))
    × ((name' url' : Bytes) (redirect' : Bool)
        → pass (λ url. some 7) true index_of name' redirect' passed.conf url'
          ≡ message (codes "is duplicate"))
pass-merge_example =
    pass-merge (λ url. some 7) true index_of 4096 (codes "/mc/") (codes "10.0.0.1:11211") false
      empty_conf server empty_conf passed pass-slash refl refl refl refl

-- The first value of $memcached_prefix makes the context, and is read back.
prefix_read :
    value_get_handler true (value_set_handler true none (codes "<x>")) ≡ some (some (codes "<x>"))
unfolding value_get_handler value_set_handler
prefix_read = refl

-- Read before it is set, it has a pointer that was never written.
prefix_unset : value_get_handler true none ≡ some none
unfolding value_get_handler
prefix_unset = refl
