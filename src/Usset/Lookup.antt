-- ===== src/Usset/Lookup.antt =====
-- Which upstream a name gives.
use ngxmp.Base.{
  ℕ, ◌+◌, ◌%◌, ◌≡◌, refl, ap, ◌∙◌, true, Option, none, some, List, [], ◌∷◌, ◌==◌, ==_self,
  if◌then◌else◌, get_elem?, same_bytes, Bytes, arith, All, Bool-cases, inl, inr,
}
use native.Mathlib.Nat.{mod-lt}
use ngxmp.HashTable.{HashElt, Table, hash_create, empty_buckets, bucket_of}
use ngxmp.HashTable.Find.{HasValue, same_bytes-eq}
use ngxmp.Usset.{
  get_us, create_us_hash, made, hash_max_size, Found, upstream, null_upstream, minus_one, walk,
  find_in_bucket, find_upstream,
}
use ngxmp.Usset.Chains.{select, add_all-select, get_elem-empty_buckets, length-empty_buckets}

-- The place of the first upstream with a name, counted from `i`.
abbrev pub index_from : Bytes → ℕ → List Bytes → Option ℕ
index_from name i [] = none
index_from name i (h ∷ hs) =
    let rest = index_from name (i + 1) hs in if same_bytes h name then some i else rest

pub get_us-HasValue : (i : ℕ) (hosts : List Bytes) → All HasValue (get_us i hosts)
unfolding get_us
get_us-HasValue i [] = tt
get_us-HasValue i (h ∷ hs) = (λ e. cc e, get_us-HasValue (i + 1) hs)

abbrev walked : Option ℕ → Found
walked none = null_upstream
walked (some i) = upstream i

module _ (hash_key : Bytes → ℕ) where
  -- In the bucket of a name, the loop finds the first upstream with that name.
  walk-get_us :
      (name : Bytes) (n i : ℕ) (hosts : List Bytes)
      → walk (select hash_key n (hash_key name % n) (get_us i hosts)) name
        ≡ walked (index_from name i hosts)
  unfolding walk get_us
  walk-get_us name n i [] = refl
  walk-get_us name n i (h ∷ hs) = elim (Bool-cases (same_bytes h name)) [
    | inl s ↦
        let z : (hash_key h % n == hash_key name % n) ≡ true =
          ap (λ m. hash_key m % n == hash_key name % n) (same_bytes-eq h name s)
          ∙ ==_self (hash_key name % n) in
        rw (z, s) refl
    | inr s ↦ elim (Bool-cases (hash_key h % n == hash_key name % n)) [
      | inl z ↦ rw (z, s) (walk-get_us name n (i + 1) hs)
      | inr z ↦ rw (z, s) (walk-get_us name n (i + 1) hs)
    ]
  ]

  find_in_bucket-walk :
      (c : List HashElt) (name : Bytes) (k : ℕ)
      → walk c name ≡ upstream k
      → find_in_bucket c name ≡ upstream k
  unfolding walk find_in_bucket
  find_in_bucket-walk [] name k h = absurd (cc h)
  find_in_bucket-walk (b ∷ []) name k h = ground arith
  find_in_bucket-walk (b ∷ c ∷ bs) name k h = h

  -- The table that is made, and the chain of a name in it.
  created :
      (hosts : List Bytes) (name : Bytes)
      → (t : Table) × (create_us_hash hash_key true true true hosts ≡ made t)
        × (find_upstream hash_key t name
            ≡ some (
                find_in_bucket
                  (select hash_key hash_max_size (hash_key name % hash_max_size) (get_us 0 hosts))
                  name))
  unfolding create_us_hash hash_create find_upstream
  created hosts name =
      let j = hash_key name % hash_max_size in
      let (t, e, l, g) =
        add_all-select hash_key j hash_max_size (record { buckets = empty_buckets hash_max_size })
          (get_us 0 hosts) [] (omega arith) (length-empty_buckets hash_max_size)
          (get_elem-empty_buckets hash_max_size j (mod-lt (hash_key name) (omega arith))) tt
          (get_us-HasValue 0 hosts) in
      let at : get_elem? t.buckets (bucket_of hash_key t name)
          ≡ some (select hash_key hash_max_size j (get_us 0 hosts)) =
        ap (λ m. get_elem? t.buckets (hash_key name % m)) l ∙ g in
      (t, rw e refl, rw (find_upstream, at) refl)

  -- When memory is given, and that of the elements is zero, which the code does not see to: a name that
  -- is configured gives the first upstream with that name in the
  -- table that is made of the upstreams, however many upstreams there are and whatever the hash
  -- function is.
  pub find_upstream-create_us_hash :
      (hosts : List Bytes) (name : Bytes) (k : ℕ)
      → index_from name 0 hosts ≡ some k
      → (t : Table) × (create_us_hash hash_key true true true hosts ≡ made t)
        × (find_upstream hash_key t name ≡ some (upstream k))
  find_upstream-create_us_hash hosts name k h =
      let (t, e, found) = created hosts name in
      (
        t,
        e,
        found
            ∙ ap some (
                find_in_bucket-walk _ name k
                  (walk-get_us name hash_max_size 0 hosts ∙ ap walked h)),
      )

  -- When memory is given, zero for the elements, and one upstream is configured, no name is ever reported as missing: each
  -- name gives that upstream, when it falls into the same bucket, or else the pointer -1, which is
  -- not NULL.
  pub find_upstream-one :
      (host name : Bytes)
      → (t : Table) × (create_us_hash hash_key true true true (host ∷ []) ≡ made t)
        × (find_upstream hash_key t name
            ≡ some (
                if hash_key host % hash_max_size == hash_key name % hash_max_size
                then upstream 0
                else minus_one))
  unfolding find_in_bucket get_us
  find_upstream-one host name =
      let (t, e, found) = created (host ∷ []) name in
      (
        t,
        e,
        found ∙ elim (Bool-cases (hash_key host % hash_max_size == hash_key name % hash_max_size)) [
          | inl z ↦ rw z refl
          | inr z ↦ rw z refl
        ],
      )
