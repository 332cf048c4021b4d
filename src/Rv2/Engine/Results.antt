-- ===== src/Rv2/Engine/Results.antt =====
-- What a getter and a setter of c/ngx_http_rv2_module/ngx_http_rv2_module.c push, as one pair of a
-- return code and a value.
use ngxmp.Base.{
  ℕ, ◌≡◌, refl, sym, ap, Bool, true, false, Option, none, some, [], ◌∷◌, ◌++◌, append-nil,
  if◌then◌else◌, Bytes, inl, inr, Bool-cases, Option-cases,
}
use ngxmp.Rv2.{
  Rcs, success, notfound, notstored, error, connection, internal, bad_key, MemRc, mem_success,
  mem_notfound, mem_notstored, refused, other_rc, Rv, OpData, Lookup, at_node, no_node, divided,
  Run, pushed, crashed, default_value, push_rc, getter_value, setter_value, setter_vidx, added,
  getter_error, after_get, getter_code, setter_error, push_str, Call, call_set, call_add,
  call_increment, call_decrement, call_delete, Chosen, call, refuse, choose, default_number,
  add_default_value, push_i, after_number, after_store, run_call, setter_code,
}
use ngxmp.Rv2.Balance.{Fits, choose-Fits}

-- A return code and a value, or a crash.
abbrev pub Outcome : Type 0
Outcome = Option (Rcs × Bytes)

-- The strings are pushed where a variable takes them, the return code first.
abbrev pub pushes : OpData → Outcome → Run
pushes op none = crashed
pushes op (some r) = pushed (push_rc op r.0 ++ (if op.vidx then r.1 ∷ [] else []))

module _ (rv : Rv) (stale : Bytes) (alloc : Bool) where
  -- What a getter gives for each answer of the library: a value only with SUCCESS, the default with
  -- NOTFOUND, and the empty string with all else.
  abbrev got : MemRc → Bytes → Rcs × Bytes
  got mem_success val = if alloc then (success, val) else (internal, [])
  got mem_notfound val = (notfound, getter_value rv stale notfound)
  got refused val = (connection, [])
  got mem_notstored val = (error, [])
  got other_rc val = (error, [])

  abbrev pub get_result : {C : Type 0} → (C → Bytes → MemRc × Bytes) → Lookup C → Outcome
  get_result memcached_get divided = none
  get_result memcached_get (no_node rcs) = some (rcs, getter_value rv stale rcs)
  get_result memcached_get (at_node c) = elim rv.key [
    | none ↦ some (bad_key, [])
    | some k ↦ some (got (memcached_get c k).0 (memcached_get c k).1)
  ]

  after_get-got :
      (op : OpData) (rc : MemRc) (val : Bytes)
      → op.vidx ≡ true
      → pushed (after_get op rv stale alloc rc val) ≡ pushes op (some (got rc val))
  unfolding after_get getter_error getter_value
  after_get-got op mem_success val h = elim (Bool-cases alloc) [
    | inl e ↦ rw (after_get, e, h) refl
    | inr e ↦ rw (after_get, getter_error, e, h) refl
  ]
  after_get-got op mem_notfound val h = rw h refl
  after_get-got op refused val h = rw h refl
  after_get-got op mem_notstored val h = rw h refl
  after_get-got op other_rc val h = rw h refl

  pub getter_code-get_result :
      {C : Type 0} (memcached_get : C → Bytes → MemRc × Bytes) (op : OpData) (l : Lookup C)
      → op.vidx ≡ true
      → getter_code memcached_get op rv stale alloc l ≡ pushes op (get_result memcached_get l)
  unfolding getter_code getter_error getter_value default_value
  getter_code-get_result mg op divided h = refl
  getter_code-get_result mg op (no_node rcs) h = rw h refl
  getter_code-get_result mg op (at_node c) h = elim (Option-cases rv.key) [
    | inl e ↦ rw (getter_code, e, h) refl
    | inr (k, e) ↦ rw (getter_code, e) (after_get-got op (mg c k).0 (mg c k).1 h)
  ]

  -- A code that stores or deletes gives its return code, with an empty value but for NOTSTORED.
  abbrev stored : MemRc → Rcs × Bytes
  stored mem_success = (success, [])
  stored mem_notstored = (notstored, setter_value rv stale notstored)
  stored refused = (connection, [])
  stored mem_notfound = (error, [])
  stored other_rc = (error, [])

  module _ (atoi : Bytes → Option ℕ) (print_int : ℕ → ℕ → Bytes) (answer : Call → MemRc × ℕ) where
    -- What an addition for a missing key gives: the new number, or the default as it was evaluated.
    abbrev new_number : Bytes → Bytes → MemRc → Rcs × Bytes
    new_number v num mem_success = (success, num)
    new_number v num mem_notstored = (notstored, v)
    new_number v num _ = (internal, v)

    abbrev defaulted : Call → Rcs × Bytes
    defaulted f = elim rv.default_val [
      | none ↦ (internal, [])
      | some v ↦
          if alloc
          then new_number v (default_number atoi print_int answer f v)
              (answer (call_add (default_number atoi print_int answer f v))).0
          else (internal, [])
    ]

    abbrev counted : Call → MemRc → ℕ → Rcs × Bytes
    counted f mem_success ival = if alloc then (success, print_int ival 0) else (internal, [])
    counted f mem_notfound ival = defaulted f
    counted f refused ival = (connection, [])
    counted f mem_notstored ival = (error, [])
    counted f other_rc ival = (error, [])

    abbrev performed : Chosen → Rcs × Bytes
    performed (refuse rcs) = (rcs, setter_value rv stale rcs)
    performed (call (call_increment d)) =
        counted (call_increment d) (answer (call_increment d)).0 (answer (call_increment d)).1
    performed (call (call_decrement d)) =
        counted (call_decrement d) (answer (call_decrement d)).0 (answer (call_decrement d)).1
    performed (call f) = stored (answer f).0

    abbrev pub set_result : {C : Type 0} → Chosen → Lookup C → Outcome
    set_result chosen divided = none
    set_result chosen (no_node rcs) = some (rcs, setter_value rv stale rcs)
    set_result chosen (at_node c) = elim rv.key [
      | none ↦ some (bad_key, [])
      | some k ↦ some (performed chosen)
    ]

    -- The pushes of a setter, by its end.
    error_pushes :
        (op : OpData) (rcs : Rcs)
        → pushed (setter_error op rv stale rcs) ≡ pushes op (some (rcs, setter_value rv stale rcs))
    unfolding setter_error
    error_pushes op rcs = refl

    number_pushes :
        (op : OpData) (v : Bytes) (rcs : Rcs)
        → op.vidx ≡ true
        → pushed (push_str op v rcs) ≡ pushes op (some (rcs, v))
    unfolding push_str
    number_pushes op v rcs h = rw h refl

    new_number-pushes :
        (op : OpData) (v num : Bytes) (rc : MemRc)
        → op.vidx ≡ true
        → pushed (added atoi print_int answer op v num rc) ≡ pushes op (some (new_number v num rc))
    new_number-pushes op v num mem_success h = number_pushes op num success h
    new_number-pushes op v num mem_notstored h = number_pushes op v notstored h
    new_number-pushes op v num mem_notfound h = number_pushes op v internal h
    new_number-pushes op v num refused h = number_pushes op v internal h
    new_number-pushes op v num other_rc h = number_pushes op v internal h

    defaulted-pushes :
        (op : OpData) (f : Call)
        → op.vidx ≡ true
        → pushed (add_default_value atoi print_int answer op rv stale alloc f)
          ≡ pushes op (some (defaulted f))
    unfolding add_default_value setter_value setter_error
    defaulted-pushes op f h = elim (Option-cases rv.default_val) [
      | inl e ↦ rw (add_default_value, defaulted, e) refl
      | inr (v, e) ↦ elim (Bool-cases alloc) [
        | inl a ↦
            rw (add_default_value, defaulted, e, a)
              (new_number-pushes op v (default_number atoi print_int answer f v)
                (answer (call_add (default_number atoi print_int answer f v))).0 h)
        | inr a ↦ rw (add_default_value, defaulted, e, a) refl
      ]
    ]

    counted-pushes :
        (op : OpData) (f : Call) (rc : MemRc) (ival : ℕ)
        → op.vidx ≡ true
        → pushed (after_number atoi print_int answer op rv stale alloc f rc ival)
          ≡ pushes op (some (counted f rc ival))
    unfolding after_number push_i setter_value setter_error
    counted-pushes op f refused ival h = refl
    counted-pushes op f mem_success ival h = elim (Bool-cases alloc) [
      | inl a ↦ rw (after_number, push_i, a) (number_pushes op (print_int ival 0) success h)
      | inr a ↦ rw (after_number, push_i, a) refl
    ]
    counted-pushes op f mem_notfound ival h = defaulted-pushes op f h
    counted-pushes op f mem_notstored ival h = refl
    counted-pushes op f other_rc ival h = refl

    stored-pushes :
        (op : OpData) (rc : MemRc)
        → op.vidx ≡ false
        → pushed (after_store atoi print_int answer op rv stale rc) ≡ pushes op (some (stored rc))
    unfolding after_store setter_value setter_error push_rc
    stored-pushes op mem_success h = rw h (ap pushed (sym (append-nil (push_rc op success))))
    stored-pushes op refused h = refl
    stored-pushes op mem_notstored h = refl
    stored-pushes op mem_notfound h = refl
    stored-pushes op other_rc h = refl

    performed-pushes :
        (op : OpData) (chosen : Chosen)
        → Fits op rv stale alloc chosen
        → pushed (run_call atoi print_int answer op rv stale alloc chosen)
          ≡ pushes op (some (performed chosen))
    unfolding run_call
    performed-pushes op (refuse rcs) h = error_pushes op rcs
    performed-pushes op (call (call_increment d)) h =
        counted-pushes op (call_increment d) (answer (call_increment d)).0
          (answer (call_increment d)).1 h
    performed-pushes op (call (call_decrement d)) h =
        counted-pushes op (call_decrement d) (answer (call_decrement d)).0
          (answer (call_decrement d)).1 h
    performed-pushes op (call (call_set v)) h = stored-pushes op (answer (call_set v)).0 h
    performed-pushes op (call (call_add v)) h = stored-pushes op (answer (call_add v)).0 h
    performed-pushes op (call call_delete) h = stored-pushes op (answer call_delete).0 h

    pub setter_code-set_result :
        {C : Type 0} (op : OpData) (l : Lookup C)
        → op.vidx ≡ setter_vidx op.optype
        → setter_code atoi print_int answer op rv stale alloc l
          ≡ pushes op (set_result (choose atoi op.optype op.v2set) l)
    unfolding setter_code setter_value setter_error
    setter_code-set_result op divided h = refl
    setter_code-set_result op (no_node rcs) h = refl
    setter_code-set_result op (at_node c) h = elim (Option-cases rv.key) [
      | inl e ↦ rw (setter_code, set_result, e) refl
      | inr (k, e) ↦
          simp (setter_code, set_result, e)
            (performed-pushes op (choose atoi op.optype op.v2set)
              (choose-Fits op rv stale alloc atoi op.optype op.v2set h))
    ]
