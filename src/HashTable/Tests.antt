-- ===== src/HashTable/Tests.antt =====
-- A hash table on concrete names.
use ngxmp.Base.{◌≡◌, refl, none, some, [], ◌∷◌, codes, length, true}
use ngxmp.HashTable.{
  Table, added, empty_buckets, hash_create, chain_add, chain_walk, chain_find, hash_add, hash_padd,
  hash_find,
}
use ngxmp.HashTable.Find.{merged, hash_find-hash_padd}

-- Two buckets; `a` stands in the second one.
abbrev one : Table
one = record { buckets = [] ∷ (record { name = codes "a"; val = some 3 } ∷ []) ∷ [] }

hash_create-two : hash_create true 2 ≡ some (record { buckets = [] ∷ [] ∷ [] })
unfolding hash_create empty_buckets
hash_create-two = refl

hash_padd-lost :
    hash_padd length true
      (record { buckets = (record { name = codes "a"; val = none } ∷ []) ∷ [] })
      (codes "b")
      (some 1)
    ≡ added (record { buckets = (record { name = codes "b"; val = some 1 } ∷ []) ∷ [] })
unfolding hash_padd hash_add chain_add
hash_padd-lost = refl

hash_find-one : hash_find length one (codes "a") ≡ some (some 3)
unfolding hash_find chain_find chain_walk
hash_find-one = refl

hash_find-hash_padd_example :
    (t' : Table) × (hash_padd length true one (codes "b") (some 4) ≡ added t')
    × (hash_find length t' (codes "b")
        ≡ merged (codes "b") (codes "b") 4 (hash_find length one (codes "b")))
hash_find-hash_padd_example =
    hash_find-hash_padd length one (codes "b") (codes "b") 4
      (record { name = codes "a"; val = some 3 } ∷ []) refl ((λ e. cc e), tt)
