-- ===== src/Usset/Tests.antt =====
-- Lookups of upstreams with a hash function, and the witnesses.
use ngxmp.Base.{◌≡◌, refl, true, false, Option, none, some, List, [], ◌∷◌, Bytes, codes, length}
use ngxmp.HashTable.{Table, hash_create, hash_add, chain_add, empty_buckets}
use ngxmp.Usset.{
  get_us, add_all, create_us_hash, made, stale_chains, Found, upstream, null_upstream, walk,
  find_in_bucket, find_upstream,
}
use ngxmp.Usset.Lookup.{find_upstream-create_us_hash, find_upstream-one}

abbrev hosts : List Bytes
hosts = codes "mc1" ∷ codes "mc2" ∷ codes "store" ∷ []

-- A lookup in the table of some upstreams, with the length of a name in the place of its hash.
abbrev look : List Bytes → Bytes → Option Found
look hs name = elim (create_us_hash length true true true hs) [
  | made t ↦ find_upstream length t name
  | _ ↦ none
]

second : look hosts (codes "mc2") ≡ some (upstream 1)
unfolding create_us_hash hash_create empty_buckets get_us add_all hash_add chain_add find_upstream
    find_in_bucket walk
second = refl

missing : look hosts (codes "mc3") ≡ some null_upstream
unfolding create_us_hash hash_create empty_buckets get_us add_all hash_add chain_add find_upstream
    find_in_bucket walk
missing = refl

-- A name that is not configured, alone in the bucket of another.
mistaken : look hosts (codes "other") ≡ some (upstream 2)
unfolding create_us_hash hash_create empty_buckets get_us add_all hash_add chain_add find_upstream
    find_in_bucket walk
mistaken = refl

find_upstream-create_us_hash_example :
    (t : Table) × (create_us_hash length true true true hosts ≡ made t)
    × (find_upstream length t (codes "store") ≡ some (upstream 2))
find_upstream-create_us_hash_example =
    find_upstream-create_us_hash length hosts (codes "store") 2 refl

one_upstream :
    (t : Table) × (create_us_hash length true true true (codes "mc1" ∷ []) ≡ made t)
    × (find_upstream length t (codes "abc") ≡ some (upstream 0))
one_upstream = find_upstream-one length (codes "mc1") (codes "abc")

-- Where the memory of the elements is not zero, the table has no end of its chains.
stale : create_us_hash length true true false hosts ≡ stale_chains
unfolding create_us_hash
stale = refl
