-- ===== src/Rv2/Declare/Names.antt =====
-- What the declared variables of c/ngx_http_rv2_module/ngx_http_rv2_module.c are found by.
use ngxmp.Base.{
  ℕ, ◌≡◌, refl, sym, ap, subst, ◌∙◌, Bool, true, false, Option, none, some, List, [], ◌∷◌, ◌++◌,
  if◌then◌else◌, same_bytes, Bytes, get_elem?, arith, Bool-cases, inl, inr, not,
}
use ngxmp.HashTable.Find.{same_bytes-eq, same_bytes_comm}
use ngxmp.Util.Conf.{ok, >>=-eq-ok, or_message, return_if, return_if-ok, name_of}
use ngxmp.Util.VarName.{var_name}
use ngxmp.Rv2.Declare.{
  Declared, if_exists, find, Memory, Options, read_options, hash_method, hash_key_name, declare,
  alloc_names, dec_named, dec_command, script_compile,
}

-- The three searches agree.
abbrev is_some : Option Declared → Bool
is_some none = false
is_some (some rv) = true

pub if_exists-find : (rvs : List Declared) (n : Bytes) → if_exists rvs n ≡ is_some (find rvs n)
unfolding if_exists find
if_exists-find [] n = refl
if_exists-find (rv ∷ rvs) n = ground (arith, if_exists-find rvs n)

-- A variable behind the others is found where none of them has the name.
abbrev otherwise : Option Declared → Option Declared → Option Declared
otherwise none o = o
otherwise (some rv) o = some rv

find-append :
    (rvs : List Declared) (rv : Declared) (n : Bytes)
    → find (rvs ++ rv ∷ []) n
      ≡ otherwise (find rvs n) (if same_bytes n rv.name then some rv else none)
unfolding find
find-append [] rv n = refl
find-append (x ∷ rvs) rv n = elim (Bool-cases (same_bytes n x.name)) [
  | inl z ↦ rw z refl
  | inr z ↦ rw z (find-append rvs rv n)
]

find-add :
    (rvs : List Declared) (rv : Declared) (n : Bytes)
    → if_exists rvs rv.name ≡ false
    → find (rvs ++ rv ∷ []) n ≡ (if same_bytes n rv.name then some rv else find rvs n)
find-add rvs rv n h = elim (Bool-cases (same_bytes n rv.name)) [
  | inl z ↦
      let e = same_bytes-eq n rv.name z in
      let none_yet : is_some (find rvs n) ≡ false =
        sym (if_exists-find rvs n) ∙ ap (if_exists rvs) e ∙ h in
      find-append rvs rv n ∙ rw z (ground (arith, none_yet))
  | inr z ↦ find-append rvs rv n ∙ rw z (keep (find rvs n))
]
  where
    keep : (o : Option Declared) → otherwise o none ≡ o
    keep none = refl
    keep (some x) = refl

-- No two variables have one name.
abbrev pub Distinct : List Declared → Type 0
Distinct [] = Unit
Distinct (rv ∷ rvs) = (if_exists rvs rv.name ≡ false) × Distinct rvs

if_exists-append :
    (rvs : List Declared) (rv : Declared) (n : Bytes)
    → same_bytes n rv.name ≡ false
    → if_exists (rvs ++ rv ∷ []) n ≡ if_exists rvs n
unfolding if_exists
if_exists-append [] rv n h = rw h refl
if_exists-append (x ∷ rvs) rv n h = ground (arith, if_exists-append rvs rv n h)

Distinct-append :
    (rvs : List Declared) (rv : Declared)
    → Distinct rvs
    → if_exists rvs rv.name ≡ false
    → Distinct (rvs ++ rv ∷ [])
unfolding if_exists
Distinct-append [] rv d h = (refl, tt)
Distinct-append (x ∷ rvs) rv (dx, d) h = elim (Bool-cases (same_bytes rv.name x.name)) [
  | inl z ↦ absurd (cc (rw z at h))
  | inr z ↦
      let away : if_exists rvs rv.name ≡ false = rw z at h in
      (
        if_exists-append rvs rv x.name (same_bytes_comm x.name rv.name ∙ z) ∙ dx,
        Distinct-append rvs rv d away,
      )
]

name_of-ok : (v n : Bytes) → name_of v ≡ ok n → some v ≡ some (b'$' ∷ n)
unfolding name_of var_name
name_of-ok [] n h = absurd (cc h)
name_of-ok (c ∷ cs) n h = ground arith

module _ (compiles : Bytes → Bool) (variable_index : Bytes → Option ℕ) where
  declare-name :
      (zeroed : Bool) (name : Bytes) (o : Options) (rv : Declared)
      → declare compiles variable_index zeroed name o ≡ ok rv
      → rv.name ≡ name
  unfolding declare
  declare-name zeroed name o rv h =
      let (us, _, h1) = >>=-eq-ok (script_compile zeroed compiles o.usname _) _ h in
      let (k, _, h2) = >>=-eq-ok (or_message _ (variable_index o.keyname)) _ h1 in
      let (t, _, h3) = >>=-eq-ok (hash_method o.hash) _ h2 in
      let (hk, _, h4) = >>=-eq-ok (or_message _ (variable_index (hash_key_name o))) _ h3 in
      let (d, _, h5) = >>=-eq-ok (script_compile zeroed compiles o.default_val _) _ h4 in cc h5

  dec_named-ok :
      (m : Memory) (rvs : List Declared) (name : Bytes) (args : List Bytes) (rvs' : List Declared)
      → dec_named compiles variable_index m rvs name args ≡ ok rvs'
      → (rv : Declared) × (rvs' ≡ rvs ++ rv ∷ []) × (rv.name ≡ name) × (if_exists rvs name ≡ false)
  unfolding dec_named
  dec_named-ok m rvs name args rvs' h =
      let (_, new, h1) = >>=-eq-ok (return_if (if_exists rvs name) _) _ h in
      let (_, _, h2) = >>=-eq-ok (return_if (not m.rv) _) _ h1 in
      let (o, _, h3) = >>=-eq-ok (alloc_names compiles variable_index m name) _ h2 in
      let (o', _, h4) = >>=-eq-ok (read_options o args) _ h3 in
      let (rv, made, h5) = >>=-eq-ok (declare compiles variable_index m.zeroed name o') _ h4 in
      (rv, cc h5, declare-name m.zeroed name o' rv made, return_if-ok (if_exists rvs name) _ new)

  -- A declaration that is accepted adds one variable, whose name stands behind the $ in the first
  -- argument. From then on the variable is found by its name, and every other name finds what it
  -- found before. Where no two variables had one name, no two have.
  pub find-dec_command :
      (m : Memory) (rvs rvs' : List Declared) (vals : List Bytes)
      → dec_command compiles variable_index m rvs vals ≡ ok rvs'
      → Distinct rvs
      → (rv : Declared) × (get_elem? vals 1 ≡ some (b'$' ∷ rv.name))
        × ((n : Bytes) → find rvs' n ≡ (if same_bytes n rv.name then some rv else find rvs n))
        × Distinct rvs'
  unfolding dec_command name_of
  find-dec_command m rvs rvs' [] h d = absurd (cc h)
  find-dec_command m rvs rvs' (cmd ∷ []) h d = absurd (cc h)
  find-dec_command m rvs rvs' (cmd ∷ v ∷ args) h d =
      let (name, named, h1) = >>=-eq-ok (name_of v) _ h in
      let (rv, all, same, new) = dec_named-ok m rvs name args rvs' h1 in
      let fresh : if_exists rvs rv.name ≡ false = ap (if_exists rvs) same ∙ new in
      (
        rv,
        name_of-ok v name named ∙ ap (λ n. some (b'$' ∷ n)) (sym same),
        λ n. ap (λ l. find l n) all ∙ find-add rvs rv n fresh,
        subst Distinct (sym all) (Distinct-append rvs rv d fresh),
      )
