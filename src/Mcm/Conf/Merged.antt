-- ===== src/Mcm/Conf/Merged.antt =====
-- What a location of c/ngx_http_memcached_more_module/ngx_http_memcached_more_module.c has when it
-- was merged with all blocks around it.
use Prim.Native.Nat.{bit_and}
use ngxmp.Base.{
  ℕ, ◌≡◌, refl, ap, ◌∙◌, false, inl, inr, Option, none, some, List, [], ◌∷◌, map, if◌then◌else◌,
  ◌==◌, Bytes, Bool-cases, Option-cases,
}
use ngxmp.Mcm.Conf.{
  LocConf, ft_off, default_masks, merge_value, merge_bitmask, without_others, inherit,
  merge_loc_conf,
}

-- The last block of the list that sets a value.
abbrev pub innermost {ℓ} : {A : Type ℓ} → List (Option A) → Option A
innermost [] = none
innermost (x ∷ xs) = inherit (innermost xs) x

abbrev pub value_or : ℕ → Option ℕ → ℕ
value_or d none = d
value_or d (some x) = x

-- The upstream of a block with its schema.
abbrev pub served : LocConf → Option (ℕ × Bytes)
served c = elim c.upstream [ none ↦ none | some u ↦ some (u, c.schema) ]

abbrev of_mask : ℕ → Option ℕ
of_mask m = if m == 0 then none else some m

-- The upstreams that are tried next, unless none was named.
abbrev pub masks : LocConf → Option ℕ
masks c = of_mask c.next_upstream

inherit_assoc {ℓ} :
    {A : Type ℓ} (x y z : Option A) → inherit x (inherit y z) ≡ inherit (inherit x y) z
inherit_assoc none y z = refl
inherit_assoc (some x) y z = refl

-- A default that was filled in once stays.
value_or-inherit :
    (d : ℕ) (n : ℕ → ℕ)
    → ((m : ℕ) → n (n m) ≡ n m)
    → (x y : Option ℕ)
    → n (value_or d (inherit x (some (n (value_or d y))))) ≡ n (value_or d (inherit x y))
value_or-inherit d n idem none y = idem (value_or d y)
value_or-inherit d n idem (some x) y = refl

module _ (pagesize : ℕ) where
  -- Blocks from the outermost one to the location.
  abbrev pub merge_all : LocConf → List LocConf → LocConf
  merge_all prev [] = prev
  merge_all prev (c ∷ cs) = merge_all (merge_loc_conf pagesize prev c) cs

  inherited {ℓ} :
      {A : Type ℓ} (f : LocConf → Option A)
      → ((p c : LocConf) → f (merge_loc_conf pagesize p c) ≡ inherit (f c) (f p))
      → (p : LocConf) (cs : List LocConf) → f (merge_all p cs) ≡ innermost (f p ∷ map f cs)
  inherited f h p [] = refl
  inherited f h p (c ∷ cs) =
      inherited f h (merge_loc_conf pagesize p c) cs
      ∙ ap (inherit (innermost (map f cs))) (h p c)
      ∙ inherit_assoc (innermost (map f cs)) (f c) (f p)

  defaulted :
      (f : LocConf → Option ℕ) (d : ℕ) (n : ℕ → ℕ)
      → ((m : ℕ) → n (n m) ≡ n m)
      → ((p c : LocConf)
          → f (merge_loc_conf pagesize p c) ≡ some (n (value_or d (inherit (f c) (f p)))))
      → (p c : LocConf) (cs : List LocConf)
      → f (merge_all p (c ∷ cs)) ≡ some (n (value_or d (innermost (map f (p ∷ c ∷ cs)))))
  defaulted f d n idem h p c [] = h p c
  defaulted f d n idem h p c (c' ∷ cs) =
      let later = innermost (map f (c' ∷ cs)) in
      defaulted f d n idem h (merge_loc_conf pagesize p c) c' cs
      ∙ ap (λ o. some (n (value_or d (inherit later o)))) (h p c)
      ∙ ap some (value_or-inherit d n idem later (inherit (f c) (f p)))
      ∙ ap (λ o. some (n (value_or d o))) (inherit_assoc later (f c) (f p))

  merge_value_lem : (c p : Option ℕ) (d : ℕ) → merge_value c p d ≡ some (value_or d (inherit c p))
  merge_value_lem (some c) p d = refl
  merge_value_lem none (some p) d = refl
  merge_value_lem none none d = refl

  served-merge :
      (p c : LocConf) → served (merge_loc_conf pagesize p c) ≡ inherit (served c) (served p)
  unfolding merge_loc_conf
  served-merge p c = elim (Option-cases c.upstream) [ inl e ↦ rw e refl | inr (u, e) ↦ rw e refl ]

  without_others_self : (m : ℕ) → without_others (without_others m) ≡ without_others m
  without_others_self m = elim (Bool-cases (bit_and m ft_off == 0)) [
    | inl e ↦ rw (e, e) refl
    | inr e ↦ rw e refl
  ]

  merge_bitmask_lem :
      (c p : ℕ)
      → (merge_bitmask c p default_masks ≡ value_or default_masks (inherit (of_mask c) (of_mask p)))
        × ((merge_bitmask c p default_masks == 0) ≡ false)
  merge_bitmask_lem c p = elim (Bool-cases (c == 0)) [
    | inr e ↦ rw e (refl, e)
    | inl e ↦
        rw e (elim (Bool-cases (p == 0)) [ inl d ↦ rw d (refl, refl) | inr d ↦ rw d (refl, d) ])
  ]

  of_mask-without_others :
      (m : ℕ) → (m == 0) ≡ false → of_mask (without_others m) ≡ some (without_others m)
  of_mask-without_others m h = elim (Bool-cases (bit_and m ft_off == 0)) [
    | inl e ↦ rw (e, h) refl
    | inr e ↦ rw e refl
  ]

  masks-merge :
      (p c : LocConf)
      → masks (merge_loc_conf pagesize p c)
        ≡ some (without_others (value_or default_masks (inherit (masks c) (masks p))))
  unfolding merge_loc_conf
  masks-merge p c =
      let (e, z) = merge_bitmask_lem c.next_upstream p.next_upstream in
      of_mask-without_others (merge_bitmask c.next_upstream p.next_upstream default_masks) z
      ∙ ap (λ m. some (without_others m)) e

  -- A location that is merged through all blocks around it has each timeout, the size of the
  -- buffer, and the masks of memcached_next_upstream of the innermost block that sets them, or the
  -- default where none does, and `off` leaves no other mask. The indices of the variables are those of the
  -- innermost block that has them, and the upstream comes with its schema from the innermost block
  -- that has an upstream.
  pub merge_all-innermost :
      (p c : LocConf) (cs : List LocConf)
      → let m = merge_all p (c ∷ cs) in
        let blocks = p ∷ c ∷ cs in
        (m.connect_timeout ≡ some (value_or 60000 (innermost (map LocConf.connect_timeout blocks))))
        × (m.send_timeout ≡ some (value_or 60000 (innermost (map LocConf.send_timeout blocks))))
        × (m.read_timeout ≡ some (value_or 60000 (innermost (map LocConf.read_timeout blocks))))
        × (m.buffer_size ≡ some (value_or pagesize (innermost (map LocConf.buffer_size blocks))))
        × (masks m ≡ some (without_others (value_or default_masks (innermost (map masks blocks)))))
        × (served m ≡ innermost (map served blocks))
        × (m.key_index ≡ innermost (map LocConf.key_index blocks))
        × (m.value_index ≡ innermost (map LocConf.value_index blocks))
        × (m.prefix_index ≡ innermost (map LocConf.prefix_index blocks))
        × (m.suffix_index ≡ innermost (map LocConf.suffix_index blocks))
  unfolding merge_loc_conf
  merge_all-innermost p c cs =
      let id = λ (m : ℕ). refl in
      (
        defaulted LocConf.connect_timeout 60000 (λ m. m) id
            (λ p c. merge_value_lem c.connect_timeout p.connect_timeout 60000) p c cs,
        defaulted LocConf.send_timeout 60000 (λ m. m) id
            (λ p c. merge_value_lem c.send_timeout p.send_timeout 60000) p c cs,
        defaulted LocConf.read_timeout 60000 (λ m. m) id
            (λ p c. merge_value_lem c.read_timeout p.read_timeout 60000) p c cs,
        defaulted LocConf.buffer_size pagesize (λ m. m) id
            (λ p c. merge_value_lem c.buffer_size p.buffer_size pagesize) p c cs,
        defaulted masks default_masks without_others without_others_self masks-merge p c cs,
        inherited served served-merge p (c ∷ cs),
        inherited LocConf.key_index (λ p c. refl) p (c ∷ cs),
        inherited LocConf.value_index (λ p c. refl) p (c ∷ cs),
        inherited LocConf.prefix_index (λ p c. refl) p (c ∷ cs),
        inherited LocConf.suffix_index (λ p c. refl) p (c ∷ cs),
      )
