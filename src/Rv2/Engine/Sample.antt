-- ===== src/Rv2/Engine/Sample.antt =====
-- A small configuration of c/ngx_http_rv2_module/ngx_http_rv2_module.c for tests: an upstream with
-- one server, the variable $v that is declared on it, and the variables $x and $rc.
use ngxmp.Base.{
  ℕ, ◌+◌, ◌-◌, true, false, Option, none, some, List, [], ◌∷◌, if◌then◌else◌, get_elem?, set,
  same_bytes, Bytes, codes, length, leb, ◌&&◌, ◌>>=◌,
}
use ngxmp.HashTable.{hash_create, empty_buckets, hash_add, hash_padd, chain_add}
use ngxmp.Util.McdConnect.{McdLibrary, mcd_connect}
use ngxmp.Rv2.{MemRc, mem_success, mem_notfound, Call, call_set, call_add}
use ngxmp.Rv2.Declare.{crc32, Declared, Memory}
use ngxmp.Rv2.Compile.{Variable, Target, by_index}
use ngxmp.Rv2.Upstreams.{
  Upstream, MainConf, mcd_nodes, us_nodes, add_nodes, post_conf, connect_nodes, connect_uss,
  init_proc, find_us,
}
use ngxmp.Rv2.Engine.{World, Machine}

abbrev pub key_of : Bytes → ℕ
key_of name = length name

abbrev pub memory : Memory
memory = record {
  zeroed = true;
  rv = true;
  usname = true;
  keyname = true;
  hash_key = true;
  behind_usname = [];
  behind_keyname = [];
  behind_hash_key = [];
}

-- $v_key is the variable 0, $x is 1 and $rc is 2.
abbrev pub variable_index : Bytes → Option ℕ
variable_index n =
    if same_bytes n (codes "v_key")
    then some 0
    else if same_bytes n (codes "x")
    then some 1
    else if same_bytes n (codes "rc")
    then some 2
    else none

abbrev pub add_variable : Bytes → Option Variable
add_variable n = some (record { name = n; get_handler = none; set_handler = none; value = none })

abbrev pub rc : ℕ × Target
rc = (2, by_index (some 2))

abbrev pub v : Declared
v = record {
  name = codes "v";
  us_name = codes "v_us";
  key_idx = 0;
  hash_type = crc32;
  hash_key_idx = 0;
  default_val = codes "NULL";
}

-- The configuration.
abbrev pub upstreams : List Upstream
upstreams =
    record { host = codes "empty"; servers = none }
    ∷ record { host = codes "v_us"; servers = some (codes "a" ∷ []) }
    ∷ []

-- The address is the handle's number: one byte, so that "a" becomes 97.
abbrev pub library : McdLibrary ℕ
library = record {
  server_push = λ a. get_elem? a 0;
  add_unix_socket = λ a. none;
  answers = λ c. true;
}

abbrev pub no_conf : MainConf ℕ
no_conf = record { uss = []; us_hash = record { buckets = [] } }

abbrev pub or_none : Option (MainConf ℕ) → MainConf ℕ
or_none none = no_conf
or_none (some m) = m

-- The configuration in a process, with its servers connected.
unfoldable pub main : MainConf ℕ
unfolding post_conf us_nodes add_nodes mcd_nodes hash_create empty_buckets hash_padd hash_add
    chain_add init_proc connect_uss connect_nodes mcd_connect
main =
    or_none
      (post_conf key_of true (λ _. true) true (λ _. true) upstreams >>= λ m. init_proc library m)

-- The store of all servers: what was set last is found first. An increment misses.
abbrev pub Store : Type 0
Store = List (Bytes × Bytes)

abbrev pub get_from : Store → Bytes → MemRc × Bytes
get_from [] k = (mem_notfound, [])
get_from ((j, v) ∷ m) k =
    let rest = get_from m k in if same_bytes j k then (mem_success, v) else rest

abbrev pub perform : ℕ → Bytes → Call → Store → (MemRc × ℕ) × Store
perform c k (call_set x) m = ((mem_success, 0), (k, x) ∷ m)
perform c k (call_add x) m = ((mem_success, 0), (k, x) ∷ m)
perform c k _ m = ((mem_notfound, 0), m)

abbrev pub store_var : Target → Bytes → List Bytes → List Bytes
store_var (by_index (some i)) x v = set v i x
store_var _ x v = v

abbrev pub non_empty : Option Bytes → Option Bytes
non_empty (some (c ∷ cs)) = some (c ∷ cs)
non_empty _ = none

-- One digit in the place of `ngx_atoi` and of `snprintf`.
abbrev pub digit : Bytes → Option ℕ
digit [] = none
digit (c ∷ cs) = if leb b'0' c && leb c b'9' then some (c - b'0') else none

abbrev pub print_digit : ℕ → ℕ → Bytes
print_digit a b = (a - b + b'0') ∷ []

abbrev pub world : World (List Bytes) Store ℕ
unfolding main
world = record {
  script_run = λ v t. some t;
  variable = λ v i. non_empty (get_elem? v i);
  store_var = store_var;
  atoi = digit;
  print_int = print_digit;
  hash_func = λ t k. length k;
  find_us = find_us key_of main;
  memcached_get = λ c k m. get_from m k;
  perform = perform;
  mc_zeroed = false;
}

abbrev pub machine : Machine (List Bytes) Store
machine = record { stack = codes "other" ∷ []; vars = codes "key" ∷ [] ∷ [] ∷ []; mem = [] }
