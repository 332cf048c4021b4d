-- ===== src/Mcm/Conf/Passing.antt =====
-- memcached_pass of c/ngx_http_memcached_more_module/ngx_http_memcached_more_module.c: what a
-- location that has it hands to requests.
use ngxmp.Base.{
  ℕ, not, length, ◌==◌, ◌≡◌, refl, sym, ap, ◌∙◌, Bool, Option, none, some, Bytes, codes,
}
use ngxmp.Util.Conf.{Conf, ok, return_if, message, >>=-eq-ok, or_error, or_error-ok, ok-injective}
use ngxmp.Mcm.Conf.{LocConf, with_pass, merge_loc_conf, Passed, pass, last_byte, reached}
use ngxmp.Mcm.Conf.Merged.{served}

module _ (upstream_add : Bytes → Option ℕ) (added : Bool) (variable_index : Bytes → Option ℕ) where
  abbrev pass_at : Bytes → Bool → LocConf → Bytes → Conf Passed
  pass_at = pass upstream_add added variable_index

  accepted :
      (name url : Bytes) (redirect : Bool) (c : LocConf) (d : Passed)
      → pass_at name redirect c url ≡ ok d
      → (u : ℕ) × (k : ℕ) × (x : ℕ) × (s : ℕ) × (upstream_add url ≡ some u)
        × (variable_index (codes "memcached_key") ≡ some k)
        × (variable_index (codes "memcached_prefix") ≡ some x)
        × (variable_index (codes "memcached_suffix") ≡ some s)
        × (d.conf ≡ with_pass u k x s c)
        × (d.prefix_data ≡ some x)
  unfolding pass
  accepted name url redirect c d h =
      let (_, _, h1) =
        >>=-eq-ok (return_if (not (length c.schema == 0)) (codes "is duplicate")) _ h in
      let (u, eu, h2) = >>=-eq-ok (or_error (upstream_add url)) _ h1 in
      let (_, _, h3) = >>=-eq-ok (last_byte name) _ h2 in
      let (_, _, h4) = >>=-eq-ok (reached added) _ h3 in
      let (k, ek, h5) = >>=-eq-ok (or_error (variable_index (codes "memcached_key"))) _ h4 in
      let (x, ex, h6) = >>=-eq-ok (or_error (variable_index (codes "memcached_prefix"))) _ h5 in
      let (s, es, h7) = >>=-eq-ok (or_error (variable_index (codes "memcached_suffix"))) _ h6 in
      let prefix = or_error-ok _ ex in
      (
        u,
        k,
        x,
        s,
        or_error-ok _ eu,
        or_error-ok _ ek,
        prefix,
        or_error-ok _ es,
        sym (ap Passed.conf (ok-injective h7)),
        sym (ap Passed.prefix_data (ok-injective h7)) ∙ prefix,
      )

  -- A location with a memcached_pass that is accepted, merged with any block around it, and a block
  -- inside it that has none of its own: both serve the upstream of the given address, under the
  -- schema of memcached, and have indices for the variables of the key, the prefix and the suffix.
  -- A second memcached_pass in the location is refused as a duplicate.
  pub pass-merge :
      (pagesize : ℕ) (name url : Bytes) (redirect : Bool) (c p inner : LocConf) (d : Passed)
      → pass_at name redirect c url ≡ ok d
      → inner.upstream ≡ none
      → inner.key_index ≡ none
      → inner.prefix_index ≡ none
      → inner.suffix_index ≡ none
      → let m = merge_loc_conf pagesize p d.conf in
        let n = merge_loc_conf pagesize m inner in
        ((u : ℕ) × (upstream_add url ≡ some u)
          × (served m ≡ some (u, codes "memcached://"))
          × (served n ≡ some (u, codes "memcached://")))
        × ((i : ℕ) × (variable_index (codes "memcached_key") ≡ some i)
            × (m.key_index ≡ some i)
            × (n.key_index ≡ some i))
        × ((i : ℕ) × (variable_index (codes "memcached_prefix") ≡ some i)
            × (m.prefix_index ≡ some i)
            × (n.prefix_index ≡ some i)
            × (d.prefix_data ≡ some i))
        × ((i : ℕ) × (variable_index (codes "memcached_suffix") ≡ some i)
            × (m.suffix_index ≡ some i)
            × (n.suffix_index ≡ some i))
        × ((name' url' : Bytes) (redirect' : Bool)
            → pass_at name' redirect' d.conf url' ≡ message (codes "is duplicate"))
  unfolding pass merge_loc_conf
  pass-merge pagesize name url redirect c p inner d h hu hk hp hs =
      let (u, k, x, s, eu, ek, ex, es, e, ed) = accepted name url redirect c d h in
      rw (e, hu, hk, hp, hs)
        (
          (u, eu, refl, refl),
          (k, ek, refl, refl),
          (x, ex, refl, refl, ed),
          (s, es, refl, refl),
          λ name' url' redirect'. refl,
        )
