-- ===== src/Usset.antt =====
-- c/ngx_http_usset_module/ngx_http_usset_module.c: the table of the configured upstreams, in which
-- an upstream is looked up by its name while a request is handled.
pub mod Chains
pub mod Lookup
mod Tests
use ngxmp.Base.{
  ℕ, suc, ◌+◌, ◌%◌, Bool, true, false, not, Option, none, some, List, [], ◌∷◌, if◌then◌else◌,
  get_elem?, same_bytes, Bytes, length, ◌>>=◌, ◌||◌,
}
use ngxmp.HashTable.{
  HashElt, Table, Added, added, add_error, divided, hash_create, bucket_of, hash_add,
}

-- `HASH_MAX_SIZE` of c/ngx_util/ngx_hash_util.h.
abbrev pub hash_max_size : ℕ
hash_max_size = 32

-- `ngx_http_usset_get_us`: the names of the upstreams, whose places from `i` on stand for the
-- pointers to their configurations. The code does not set `next` of the elements: it is NULL where the
-- memory that `ngx_palloc` gives is zero, which is the case here.
unfoldable pub get_us : ℕ → List Bytes → List HashElt
get_us i [] = []
get_us i (host ∷ hosts) = record { name = host; val = some i } ∷ get_us (i + 1) hosts

abbrev pub table_of : Added → Option Table
table_of (added t) = some t
table_of add_error = none
table_of divided = none

-- The loop of `hash_add`.
unfoldable pub add_all : (Bytes → ℕ) → Table → List HashElt → Option Table
add_all hash_key t [] = some t
add_all hash_key t (e ∷ es) = table_of (hash_add hash_key t e) >>= λ t'. add_all hash_key t' es

-- A table, NGX_ERROR, or chains that run into memory that was never written: `hash_add` copies the
-- first element of a bucket with its `next`.
pub data Made : Type 0 where
  made : Table → Made
  no_table : Made
  stale_chains : Made

abbrev pub or_no_table : Option Table → Made
or_no_table none = no_table
or_no_table (some t) = made t

abbrev no_hosts : List Bytes → Bool
no_hosts [] = true
no_hosts (h ∷ hs) = false

-- `ngx_http_usset_create_us_hash`, by whether the elements and the table could be allocated, and
-- whether the memory of the elements is zero.
unfoldable pub create_us_hash : (Bytes → ℕ) → Bool → Bool → Bool → List Bytes → Made
create_us_hash hash_key alloc_elts alloc_table zeroed hosts =
    if not alloc_elts || not alloc_table
    then no_table
    else if zeroed || no_hosts hosts
    then or_no_table
        (hash_create alloc_table hash_max_size >>= λ t. add_all hash_key t (get_us 0 hosts))
    else stale_chains

-- The configuration of an upstream, NULL, or the pointer -1 of an empty bucket.
pub data Found : Type 0 where
  upstream : ℕ → Found
  null_upstream : Found
  minus_one : Found

abbrev pub found_val : Option ℕ → Found
found_val none = minus_one
found_val (some i) = upstream i

-- The loop on the chain.
unfoldable pub walk : List HashElt → Bytes → Found
walk [] name = null_upstream
walk (b ∷ bs) name =
    let rest = walk bs name in if same_bytes b.name name then found_val b.val else rest

-- A bucket: `NULL == b->next` holds for one element, and for an empty bucket.
unfoldable pub find_in_bucket : List HashElt → Bytes → Found
find_in_bucket [] name = minus_one
find_in_bucket (b ∷ []) name = found_val b.val
find_in_bucket (b ∷ c ∷ bs) name = walk (b ∷ c ∷ bs) name

-- `ngx_http_usset_find_upstream_server_byname`; a bucket that is not there is the division by zero.
unfoldable pub find_upstream : (Bytes → ℕ) → Table → Bytes → Option Found
find_upstream hash_key t name = elim (get_elem? t.buckets (bucket_of hash_key t name)) [
  | none ↦ none
  | some b ↦ some (find_in_bucket b name)
]
