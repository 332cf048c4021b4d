-- ===== src/Rv2/Upstreams/Found.antt =====
-- Which servers the name of an upstream gives, from the configuration to the table of rv2.
use ngxmp.Base.{
  ℕ, ◌+◌, ◌*◌, ◌%◌, ◌<◌, ◌≡◌, refl, sym, ap, subst, ◌∙◌, true, Option, none, some, List, [], ◌∷◌,
  ◌++◌, append_assoc, ◌==◌, ==_self, if◌then◌else◌, get_elem?, get_elem-append, same_bytes, Bytes,
  length, length-append, arith, All, Bool-cases, inl, inr, ◌>>=◌,
}
use native.Mathlib.Nat.{mod-lt}
use mathlib.Core.Path.{fun_ext}
use mathlib.Core.Option.{some-injective}
use ngxmp.HashTable.{
  HashElt, Table, hash_create, hash_padd, hash_find, chain_walk, chain_find, bucket_of,
  empty_buckets,
}
use ngxmp.HashTable.Find.{HasValue, same_bytes-eq, same_bytes_comm}
use ngxmp.Usset.{get_us, add_all}
use ngxmp.Usset.Chains.{select, add_all-select, get_elem-empty_buckets, length-empty_buckets}
use ngxmp.Usset.Lookup.{index_from, get_us-HasValue}
use ngxmp.Rv2.{nosuch_us, Lookup, at_node, no_node}
use ngxmp.Rv2.Upstreams.{
  Upstream, McdNode, UsNode, MainConf, mcd_nodes, us_nodes, add_nodes, post_conf, find_us,
}

chain_find-walk :
    (bs : List HashElt) (name : Bytes) → All HasValue bs → chain_find bs name ≡ chain_walk bs name
unfolding chain_find chain_walk
chain_find-walk [] name h = refl
chain_find-walk (b ∷ bs) name (h, hs) = ground arith

module _ (hash_key : Bytes → ℕ) where
  -- In the bucket of a name, the walk finds the first element with that name.
  chain_walk-get_us :
      (name : Bytes) (n i : ℕ) (hosts : List Bytes)
      → chain_walk (select hash_key n (hash_key name % n) (get_us i hosts)) name
        ≡ index_from name i hosts
  unfolding chain_walk get_us
  chain_walk-get_us name n i [] = refl
  chain_walk-get_us name n i (h ∷ hs) = elim (Bool-cases (same_bytes h name)) [
    | inl s ↦
        let z : (hash_key h % n == hash_key name % n) ≡ true =
          ap (λ m. hash_key m % n == hash_key name % n) (same_bytes-eq h name s)
          ∙ ==_self (hash_key name % n) in
        rw (z, s, same_bytes_comm name h ∙ s) refl
    | inr s ↦ elim (Bool-cases (hash_key h % n == hash_key name % n)) [
      | inl z ↦ rw (z, s, same_bytes_comm name h ∙ s) (chain_walk-get_us name n (i + 1) hs)
      | inr z ↦ rw (z, s) (chain_walk-get_us name n (i + 1) hs)
    ]
  ]

  select-HasValue :
      (n j : ℕ) (es : List HashElt) → All HasValue es → All HasValue (select hash_key n j es)
  select-HasValue n j [] h = tt
  select-HasValue n j (e ∷ es) (he, hs) = elim (Bool-cases (hash_key e.name % n == j)) [
    | inl z ↦ rw z (he, select-HasValue n j es hs)
    | inr z ↦ rw z (select-HasValue n j es hs)
  ]

  -- The table of `post_conf` finds the index of the first name.
  table-finds :
      (n : ℕ) (hosts : List Bytes) (name : Bytes)
      → 0 < n
      → (t : Table) × (add_all hash_key (record { buckets = empty_buckets n }) (get_us 0 hosts)
          ≡ some t)
        × (hash_find hash_key t name ≡ some (index_from name 0 hosts))
  unfolding hash_find
  table-finds n hosts name pos =
      let j = hash_key name % n in
      let (t, made, l, g) =
        add_all-select hash_key j n (record { buckets = empty_buckets n }) (get_us 0 hosts) [] pos
          (length-empty_buckets n) (get_elem-empty_buckets n j (mod-lt (hash_key name) pos)) tt
          (get_us-HasValue 0 hosts) in
      let chain = select hash_key n j (get_us 0 hosts) in
      let at : get_elem? t.buckets (bucket_of hash_key t name) ≡ some chain =
        ap (λ m. get_elem? t.buckets (hash_key name % m)) l ∙ g in
      (
        t,
        made,
        rw (hash_find, at)
            (ap some (
              chain_find-walk chain name
                (select-HasValue n j (get_us 0 hosts) (get_us-HasValue 0 hosts))
              ∙ chain_walk-get_us name n 0 hosts)),
      )

module _ {C : Type 0} where
  abbrev names : List (UsNode C) → List Bytes
  names [] = []
  names (n ∷ ns) = n.name ∷ names ns

  -- The first node with a name.
  abbrev pub first_node : Bytes → List (UsNode C) → Lookup (List (McdNode C))
  first_node name [] = no_node nosuch_us
  first_node name (n ∷ ns) =
      let rest = first_node name ns in if same_bytes n.name name then at_node n.mcd_array else rest

  -- The nodes of the upstreams with servers, in their order.
  abbrev pub nodes_of : List Upstream → List (UsNode C)
  nodes_of [] = []
  nodes_of (u ∷ us) = elim u.servers [
    | none ↦ nodes_of us
    | some servers ↦ record { name = u.host; mcd_array = mcd_nodes servers } ∷ nodes_of us
  ]

  us_nodes_lem : (us : List Upstream) → us_nodes (λ _. true) us ≡ some (nodes_of us)
  unfolding us_nodes
  us_nodes_lem [] = refl
  us_nodes_lem (u ∷ us) = ground (arith, us_nodes_lem us)

  module _ (hash_key : Bytes → ℕ) where
    add_nodes-add_all :
        (i : ℕ) (ns : List (UsNode C)) (t : Table)
        → add_nodes hash_key (λ _. true) i ns t ≡ add_all hash_key t (get_us i (names ns))
    unfolding add_nodes add_all get_us hash_padd
    add_nodes-add_all i [] t = refl
    add_nodes-add_all i (n ∷ ns) t = rw (fun_ext (λ t'. add_nodes-add_all (i + 1) ns t')) refl

  -- A pointer in the table, taken back to its node.
  abbrev node_at : List (UsNode C) → Option ℕ → Lookup (List (McdNode C))
  node_at ns none = no_node nosuch_us
  node_at ns (some i) = elim (get_elem? ns i) [
    | none ↦ no_node nosuch_us
    | some u ↦ at_node u.mcd_array
  ]

  node_at-index_from :
      (pre ns : List (UsNode C)) (name : Bytes)
      → node_at (pre ++ ns) (index_from name (length pre) (names ns)) ≡ first_node name ns
  node_at-index_from pre [] name = refl
  node_at-index_from pre (n ∷ ns) name = elim (Bool-cases (same_bytes n.name name)) [
    | inl z ↦ rw (z, node_at, get_elem-append pre ns n) refl
    | inr z ↦
        let len : length (pre ++ n ∷ []) ≡ length pre + 1 = length-append pre (n ∷ []) in
        rw z (
          ap (λ k. node_at (pre ++ n ∷ ns) (index_from name k (names ns))) (sym len)
          ∙ ap (λ l. node_at l (index_from name (length (pre ++ n ∷ [])) (names ns)))
              (sym (append_assoc pre (n ∷ []) ns))
          ∙ node_at-index_from (pre ++ n ∷ []) ns name)
  ]

  taken :
      (ns : List (UsNode C)) (o : Option ℕ)
      → (elim o [
        | none ↦ no_node nosuch_us
        | some i ↦ elim (get_elem? ns i) [ none ↦ no_node nosuch_us | some u ↦ at_node u.mcd_array ]
      ])
        ≡ node_at ns o
  taken ns none = refl
  taken ns (some i) = refl

  abbrev pub found_in : List (UsNode C) → Bytes → Lookup (List (McdNode C))
  found_in [] name = Lookup.divided
  found_in (n ∷ ns) name = first_node name (n ∷ ns)

  found-table :
      (hash_key : Bytes → ℕ) (ns : List (UsNode C)) (t : Table) (name : Bytes)
      → 0 < length ns
      → add_all hash_key (record { buckets = empty_buckets (length ns * 2) }) (get_us 0 (names ns))
        ≡ some t
      → find_us hash_key (record { uss = ns; us_hash = t }) name ≡ first_node name ns
  unfolding find_us
  found-table hash_key ns t name pos made =
      let (t', made', finds) =
        table-finds hash_key (length ns * 2) (names ns) name (omega (arith, pos)) in
      let same : t' ≡ t = some-injective t' t (sym made' ∙ made) in
      let found : hash_find hash_key t name ≡ some (index_from name 0 (names ns)) =
        subst (λ x. hash_find hash_key x name ≡ some (index_from name 0 (names ns))) same finds in
      rw (find_us, found) (taken ns (index_from name 0 (names ns)) ∙ node_at-index_from [] ns name)

  -- The second loop of `post_conf` on the nodes, and the searches in what it makes.
  made_of :
      (hash_key : Bytes → ℕ) (ns : List (UsNode C))
      → (m : MainConf C) × ((add_nodes hash_key
              (λ _. true)
              0
              ns
              (record { buckets = empty_buckets (length ns * 2) })
            >>= λ t'. some (record { uss = ns; us_hash = t' }))
          ≡ some m)
        × ((name : Bytes) → find_us hash_key m name ≡ found_in ns name)
  unfolding find_us hash_find empty_buckets add_nodes
  made_of hash_key [] = (record { uss = []; us_hash = record { buckets = [] } }, refl, λ name. refl)
  made_of hash_key (n ∷ ns) =
      let all = n ∷ ns in
      let size = length all * 2 in
      let (t, made, _) = table-finds hash_key size (names all) [] (omega arith) in
      let added_all =
        add_nodes-add_all hash_key 0 all (record { buckets = empty_buckets size }) ∙ made in
      (
        record { uss = all; us_hash = t },
        rw (add_nodes, added_all) refl,
        λ name. found-table hash_key all t name (omega arith) made,
      )

  -- When memory is given: in a configuration in which some upstream has a list of servers, a name
  -- gives the servers of the first such upstream with that name, in their order, by their addresses
  -- and with handles that are not written yet, whatever the hash function is and however many names
  -- fall into one bucket; another name gives NOSUCH_US. Where no upstream has one, each search divides
  -- by zero.
  pub find_us-post_conf :
      (hash_key : Bytes → ℕ) (us : List Upstream)
      → (m : MainConf C) × (post_conf hash_key true (λ _. true) true (λ _. true) us ≡ some m)
        × ((name : Bytes) → find_us hash_key m name ≡ found_in (nodes_of us) name)
  unfolding post_conf hash_create find_us
  find_us-post_conf hash_key us = rw (us_nodes_lem us) (made_of hash_key (nodes_of us))
