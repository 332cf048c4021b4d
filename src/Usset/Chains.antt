-- ===== src/Usset/Chains.antt =====
-- What the buckets hold when the elements are added.
use ngxmp.Base.{
  ℕ, zero, suc, ◌%◌, ◌<◌, ◌≡◌, ◌≢◌, refl, sym, ap, ◌∙◌, some, List, [], ◌∷◌, ◌++◌, append-nil,
  append_assoc, ◌==◌, ==→eq, ==_self, if◌then◌else◌, get_elem?, set, Bytes, length, length-set,
  arith, All, Bool-cases, inl, inr,
}
use native.Mathlib.Nat.{mod-lt}
use mathlib.Core.Option.{some-injective}
use ngxmp.HashTable.{HashElt, Table, added, chain_add, hash_add, bucket_of, empty_buckets}
use ngxmp.HashTable.Find.{HasValue, get_elem-set_same, get_elem-set_other}
use ngxmp.Usset.{add_all}

-- The elements of one bucket, in their order.
abbrev pub select : (Bytes → ℕ) → ℕ → ℕ → List HashElt → List HashElt
select hash_key n j [] = []
select hash_key n j (e ∷ es) =
    let rest = select hash_key n j es in if hash_key e.name % n == j then e ∷ rest else rest

get_elem-lt :
    {A : Type 0} (xs : List A) (i : ℕ) → i < length xs → (x : A) × (get_elem? xs i ≡ some x)
get_elem-lt [] i h = absurd (omega (arith, h))
get_elem-lt (x ∷ xs) zero h = (x, refl)
get_elem-lt (x ∷ xs) (suc i) h = get_elem-lt xs i (omega (arith, h))

chain_add-HasValue :
    (bs : List HashElt) (e : HashElt) → All HasValue bs → chain_add bs e ≡ bs ++ e ∷ []
unfolding chain_add
chain_add-HasValue [] e h = refl
chain_add-HasValue (b ∷ bs) e (h, hs) = ground arith

All-append :
    (bs : List HashElt) (e : HashElt) → All HasValue bs → HasValue e → All HasValue (bs ++ e ∷ [])
All-append [] e h he = (he, tt)
All-append (b ∷ bs) e (h, hs) he = (h, All-append bs e hs he)

module _ (hash_key : Bytes → ℕ) (j : ℕ) where
  -- One element is added.
  add_one :
      (t : Table) (e : HashElt) (old : List HashElt)
      → 0 < length t.buckets
      → get_elem? t.buckets j ≡ some old
      → All HasValue old
      → (t' : Table) × (hash_add hash_key t e ≡ added t')
        × (length t'.buckets ≡ length t.buckets)
        × (get_elem? t'.buckets j
            ≡ some (if hash_key e.name % length t.buckets == j then old ++ e ∷ [] else old))
  unfolding hash_add
  add_one t e old pos g h =
      let i = bucket_of hash_key t e.name in
      let (b, at) = get_elem-lt t.buckets i (mod-lt (hash_key e.name) pos) in
      (
        record { buckets = set t.buckets i (chain_add b e) },
        rw (hash_add, at) refl,
        length-set t.buckets i (chain_add b e),
        elim (Bool-cases (i == j)) [
          | inl z ↦
              let ij = ==→eq i j z in
              let same : b ≡ old =
                some-injective b old (sym at ∙ ap (get_elem? t.buckets) ij ∙ g) in
              rw z (
                ap (get_elem? (set t.buckets i (chain_add b e))) (sym ij)
                ∙ get_elem-set_same t.buckets i b (chain_add b e) at
                ∙ ap some (ap (λ c. chain_add c e) same ∙ chain_add-HasValue old e h))
          | inr z ↦
              let apart : i ≢ j = ground (arith, ==_self i) in
              rw z (get_elem-set_other t.buckets i j (chain_add b e) apart ∙ g)
        ],
      )

  -- All elements are added: a bucket then also holds those of its elements, in their order.
  pub add_all-select :
      (n : ℕ) (t : Table) (es : List HashElt) (old : List HashElt)
      → 0 < n
      → length t.buckets ≡ n
      → get_elem? t.buckets j ≡ some old
      → All HasValue old
      → All HasValue es
      → (t' : Table) × (add_all hash_key t es ≡ some t')
        × (length t'.buckets ≡ n)
        × (get_elem? t'.buckets j ≡ some (old ++ select hash_key n j es))
  unfolding add_all
  add_all-select n t [] old pos l g h hs = (t, refl, l, g ∙ ap some (sym (append-nil old)))
  add_all-select n t (e ∷ es) old pos l g h (he, hs) =
      let (t1, added1, l1, g1) = add_one t e old (omega (arith, pos, l)) g h in
      let g2 : get_elem? t1.buckets j
          ≡ some (if hash_key e.name % n == j then old ++ e ∷ [] else old) =
        g1 ∙ ap (λ m. some (if hash_key e.name % m == j then old ++ e ∷ [] else old)) l in
      elim (Bool-cases (hash_key e.name % n == j)) [
        | inl z ↦
            let (t', all, l', g') =
              add_all-select n t1 es (old ++ e ∷ []) pos (l1 ∙ l) (g2 ∙ rw z refl)
                (All-append old e h he) hs in
            (
              t',
              rw added1 all,
              l',
              rw z (g' ∙ ap some (append_assoc old (e ∷ []) (select hash_key n j es))),
            )
        | inr z ↦
            let (t', all, l', g') = add_all-select n t1 es old pos (l1 ∙ l) (g2 ∙ rw z refl) h hs in
            (t', rw added1 all, l', rw z g')
      ]

pub get_elem-empty_buckets : (n j : ℕ) → j < n → get_elem? (empty_buckets n) j ≡ some []
unfolding empty_buckets
get_elem-empty_buckets zero j h = absurd (omega (arith, h))
get_elem-empty_buckets (suc n) zero h = refl
get_elem-empty_buckets (suc n) (suc j) h = get_elem-empty_buckets n j (omega (arith, h))

pub length-empty_buckets : (n : ℕ) → length (empty_buckets n) ≡ n
unfolding empty_buckets
length-empty_buckets zero = refl
length-empty_buckets (suc n) = ap suc (length-empty_buckets n)
