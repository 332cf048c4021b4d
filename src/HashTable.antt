-- ===== src/HashTable.antt =====
-- c/ngx_util/ngx_hash_util.h: a hash table with chains. The first element of a chain lies in the
-- array of buckets; the value -1, HASH_VAL_UNSET, marks a bucket without elements.
mod Tests
pub mod Find
use ngxmp.Base.{
  ℕ, zero, suc, ◌+◌, ◌%◌, Bool, true, false, not, Option, none, some, List, [], ◌∷◌, ◌++◌,
  if◌then◌else◌, get_elem?, set, same_bytes, Bytes, length,
}

-- `hash_elt_t`; -1 is `none`.
pub record HashElt : Type 0 where
  pub name : Bytes
  pub val : Option ℕ

-- `hash_t`: each bucket with its chain.
pub record Table : Type 0 where
  pub buckets : List (List HashElt)

-- The new table, NGX_ERROR, or the division by the size of an empty table.
pub data Added : Type 0 where
  added : Table → Added
  add_error : Added
  divided : Added

unfoldable pub empty_buckets : ℕ → List (List HashElt)
empty_buckets zero = []
empty_buckets (suc n) = [] ∷ empty_buckets n

-- NULL is `none`.
unfoldable pub hash_create : Bool → ℕ → Option Table
hash_create allocated size =
    if allocated then some (record { buckets = empty_buckets size }) else none

-- `*b = *elt` on a first element that is marked drops its chain.
unfoldable pub chain_add : List HashElt → HashElt → List HashElt
chain_add [] elt = elt ∷ []
chain_add (b ∷ bs) elt = elim b.val [ none ↦ elt ∷ [] | some v ↦ b ∷ bs ++ elt ∷ [] ]

unfoldable pub chain_walk : List HashElt → Bytes → Option ℕ
chain_walk [] name = none
chain_walk (b ∷ bs) name =
    let rest = chain_walk bs name in if same_bytes name b.name then b.val else rest

unfoldable pub chain_find : List HashElt → Bytes → Option ℕ
chain_find [] name = none
chain_find (b ∷ bs) name = elim b.val [ none ↦ none | some v ↦ chain_walk (b ∷ bs) name ]

module _ (hash_key : Bytes → ℕ) where
  -- `i = elt->hash % hash->size`
  abbrev pub bucket_of : Table → Bytes → ℕ
  bucket_of t name = hash_key name % length t.buckets

  unfoldable pub hash_add : Table → HashElt → Added
  hash_add t elt = elim (get_elem? t.buckets (bucket_of t elt.name)) [
    | none ↦ divided
    | some b ↦ added (record { buckets = set t.buckets (bucket_of t elt.name) (chain_add b elt) })
  ]

  unfoldable pub hash_padd : Bool → Table → Bytes → Option ℕ → Added
  hash_padd allocated t name val =
      if allocated then hash_add t (record { name = name; val = val }) else add_error

  -- A bucket that is not there is the division by zero.
  unfoldable pub hash_find : Table → Bytes → Option (Option ℕ)
  hash_find t name = elim (get_elem? t.buckets (bucket_of t name)) [
    | none ↦ none
    | some b ↦ some (chain_find b name)
  ]
