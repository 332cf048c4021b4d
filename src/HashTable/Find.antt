-- ===== src/HashTable/Find.antt =====
-- Lookups in the table of c/ngx_util/ngx_hash_util.h after an element is added.
use ngxmp.Base.{
  ℕ, zero, suc, ◌%◌, ◌≡◌, ◌≢◌, refl, sym, ap, ◌∙◌, true, false, Option, none, some, List, [], ◌∷◌,
  ◌++◌, ◌==◌, ==→eq, ==_self, Bool-cases, inl, inr, if◌then◌else◌, get_elem?, set, same_bytes,
  Bytes, length-set, arith, All,
}
use ngxmp.HashTable.{
  HashElt, Table, added, chain_add, chain_walk, chain_find, bucket_of, hash_add, hash_padd,
  hash_find,
}

abbrev pub HasValue : HashElt → Type 0
HasValue e = e.val ≢ none

-- The first entry of a name wins.
abbrev pub or_else : Option ℕ → Option ℕ → Option ℕ
or_else none o = o
or_else (some v) o = some v

abbrev if_same : Bytes → Bytes → Option ℕ → Option ℕ
if_same m n o = if same_bytes m n then o else none

chain_walk-append :
    (bs : List HashElt) (n m : Bytes) (v : ℕ)
    → All HasValue bs
    → chain_walk (bs ++ record { name = n; val = some v } ∷ []) m
      ≡ or_else (chain_walk bs m) (if_same m n (some v))
unfolding chain_walk
chain_walk-append [] n m v h = refl
chain_walk-append (b ∷ bs) n m v (h, hs) = ground (arith, chain_walk-append bs n m v hs)

chain_find-some :
    (b : HashElt) (bs : List HashElt) (m : Bytes)
    → HasValue b
    → chain_find (b ∷ bs) m ≡ chain_walk (b ∷ bs) m
unfolding chain_find
chain_find-some b bs m h = ground arith

-- In a chain without marked elements.
chain_find-chain_add :
    (bs : List HashElt) (n m : Bytes) (v : ℕ)
    → All HasValue bs
    → chain_find (chain_add bs (record { name = n; val = some v })) m
      ≡ or_else (chain_find bs m) (if_same m n (some v))
unfolding chain_add
chain_find-chain_add [] n m v h = unfold chain_find in unfold chain_walk in refl
chain_find-chain_add (b ∷ bs) n m v (h, hs) =
    let e : HashElt = record { name = n; val = some v } in
    let kept : chain_add (b ∷ bs) e ≡ b ∷ bs ++ e ∷ [] = ground arith in
    ap (λ z. chain_find z m) kept
    ∙ chain_find-some b (bs ++ e ∷ []) m h
    ∙ chain_walk-append (b ∷ bs) n m v (h, hs)
    ∙ ap (λ z. or_else z (if_same m n (some v))) (sym (chain_find-some b bs m h))

pub same_bytes_comm : (xs ys : Bytes) → same_bytes xs ys ≡ same_bytes ys xs
same_bytes_comm [] [] = refl
same_bytes_comm (x ∷ xs) (y ∷ ys) = ground (arith, same_bytes_comm xs ys)
same_bytes_comm [] (y ∷ ys) = refl
same_bytes_comm (x ∷ xs) [] = refl

pub same_bytes-eq : (xs ys : Bytes) → same_bytes xs ys ≡ true → xs ≡ ys
same_bytes-eq [] [] h = refl
same_bytes-eq (x ∷ xs) (y ∷ ys) h = ground (arith, same_bytes-eq xs ys)
same_bytes-eq [] (y ∷ ys) h = absurd (cc h)
same_bytes-eq (x ∷ xs) [] h = absurd (cc h)

module _ {A : Type 0} where
  pub get_elem-set_same :
      (xs : List A) (i : ℕ) (old v : A)
      → get_elem? xs i ≡ some old
      → get_elem? (set xs i v) i ≡ some v
  get_elem-set_same [] i old v h = absurd (cc h)
  get_elem-set_same (x ∷ xs) zero old v h = refl
  get_elem-set_same (x ∷ xs) (suc i) old v h = get_elem-set_same xs i old v h

  pub get_elem-set_other :
      (xs : List A) (i j : ℕ) (v : A) → i ≢ j → get_elem? (set xs i v) j ≡ get_elem? xs j
  get_elem-set_other [] i j v h = refl
  get_elem-set_other (x ∷ xs) zero zero v h = absurd (h refl)
  get_elem-set_other (x ∷ xs) zero (suc j) v h = refl
  get_elem-set_other (x ∷ xs) (suc i) zero v h = refl
  get_elem-set_other (x ∷ xs) (suc i) (suc j) v h = get_elem-set_other xs i j v (λ e. h (ap suc e))

-- A lookup behind the addition of `n` with the value `v`, by what it gave before.
abbrev pub merged : Bytes → Bytes → ℕ → Option (Option ℕ) → Option (Option ℕ)
merged n m v none = none
merged n m v (some o) = some (or_else o (if same_bytes m n then some v else none))

merged-other :
    (n m : Bytes) (v : ℕ) (o : Option (Option ℕ)) → same_bytes m n ≡ false → merged n m v o ≡ o
merged-other n m v none h = refl
merged-other n m v (some none) h = rw h refl
merged-other n m v (some (some w)) h = refl

module _ (hash_key : Bytes → ℕ) (t : Table) where
  -- The table with one bucket replaced.
  abbrev with_bucket : ℕ → List HashElt → Table
  with_bucket i b = record { buckets = set t.buckets i b }

  abbrev found : Bytes → Option (List HashElt) → Option (Option ℕ)
  found m none = none
  found m (some b) = some (chain_find b m)

  hash_find-found :
      (s : Table) (m : Bytes) (o : Option (List HashElt))
      → get_elem? s.buckets (bucket_of hash_key s m) ≡ o
      → hash_find hash_key s m ≡ found m o
  unfolding hash_find
  hash_find-found s m none e = rw (hash_find, e) refl
  hash_find-found s m (some b) e = rw (hash_find, e) refl

  bucket_of-with_bucket :
      (i : ℕ) (b : List HashElt) (m : Bytes)
      → bucket_of hash_key (with_bucket i b) m ≡ bucket_of hash_key t m
  bucket_of-with_bucket i b m = ap (λ l. hash_key m % l) (length-set t.buckets i b)

  hash_find-same :
      (n m : Bytes) (old b : List HashElt)
      → get_elem? t.buckets (bucket_of hash_key t n) ≡ some old
      → bucket_of hash_key t m ≡ bucket_of hash_key t n
      → hash_find hash_key (with_bucket (bucket_of hash_key t n) b) m ≡ some (chain_find b m)
  hash_find-same n m old b h e =
      let i = bucket_of hash_key t n in
      hash_find-found (with_bucket i b) m (some b) (
        ap (get_elem? (set t.buckets i b)) (bucket_of-with_bucket i b m ∙ e)
        ∙ get_elem-set_same t.buckets i old b h)

  hash_find-other :
      (n m : Bytes) (b : List HashElt)
      → bucket_of hash_key t n ≢ bucket_of hash_key t m
      → hash_find hash_key (with_bucket (bucket_of hash_key t n) b) m ≡ hash_find hash_key t m
  hash_find-other n m b h =
      let i = bucket_of hash_key t n in
      hash_find-found (with_bucket i b) m (get_elem? t.buckets (bucket_of hash_key t m)) (
        ap (get_elem? (set t.buckets i b)) (bucket_of-with_bucket i b m)
        ∙ get_elem-set_other t.buckets i (bucket_of hash_key t m) b h)
      ∙ sym (hash_find-found t m (get_elem? t.buckets (bucket_of hash_key t m)) refl)

  find_in :
      (old : List HashElt) (n m : Bytes) (v : ℕ)
      → get_elem? t.buckets (bucket_of hash_key t n) ≡ some old
      → All HasValue old
      → hash_find hash_key
          (with_bucket (bucket_of hash_key t n) (chain_add old (record { name = n; val = some v })))
          m
        ≡ merged n m v (hash_find hash_key t m)
  find_in old n m v h a =
      let i = bucket_of hash_key t n in
      let j = bucket_of hash_key t m in
      let b = chain_add old (record { name = n; val = some v }) in
      elim (Bool-cases (i == j)) [
        | inl e ↦
            let ij = ==→eq i j e in
            hash_find-same n m old b h (sym ij)
            ∙ ap some (chain_find-chain_add old n m v a)
            ∙ sym (
                ap (merged n m v)
                  (hash_find-found t m (some old) (ap (get_elem? t.buckets) (sym ij) ∙ h)))
        | inr e ↦
            let apart : i ≢ j = ground (arith, ==_self i) in
            hash_find-other n m b apart
            ∙ sym (
                merged-other n m v (hash_find hash_key t m) (elim (Bool-cases (same_bytes m n)) [
                  | inl s ↦ absurd (apart (ap (bucket_of hash_key t) (sym (same_bytes-eq m n s))))
                  | inr s ↦ s
                ]))
      ]

  -- In a bucket without marked elements, an element that is added is found by its name from then
  -- on, unless there was one of that name before it; every other lookup gives what it gave.
  pub hash_find-hash_padd :
      (n m : Bytes) (v : ℕ) (old : List HashElt)
      → get_elem? t.buckets (bucket_of hash_key t n) ≡ some old
      → All HasValue old
      → (t' : Table) × (hash_padd hash_key true t n (some v) ≡ added t')
        × (hash_find hash_key t' m ≡ merged n m v (hash_find hash_key t m))
  unfolding hash_padd hash_add
  hash_find-hash_padd n m v old h a =
      let i = bucket_of hash_key t n in
      let b = chain_add old (record { name = n; val = some v }) in
      (with_bucket i b, rw (hash_add, h) refl, find_in old n m v h a)
