-- ===== src/Rv2/Balance.antt =====
-- The codes of c/ngx_http_rv2_module/ngx_http_rv2_module.c leave on the stack what the codes behind
-- them take: one string for the return code and one for the value, where these are wanted.
use ngxmp.Base.{
  ℕ, ◌+◌, ◌≡◌, sym, ap, ◌∙◌, Bool, true, false, Option, none, some, [], ◌∷◌, ◌++◌, if◌then◌else◌,
  Bytes, length, length-append, arith, inl, inr, Bool-cases, Option-cases,
}
use ngxmp.Rv2.{
  RvOp, rv_unknown, rv_get, rv_set, rv_incr, rv_decr, rv_add, rv_delete, rv_null, Rcs, success,
  notfound, notstored, error, connection, internal, bad_key, MemRc, mem_success, mem_notfound,
  mem_notstored, refused, other_rc, Rv, OpData, Lookup, at_node, no_node, divided, Run, pushed,
  crashed, push_rc, getter_value, setter_value, setter_vidx, added, getter_error, after_get,
  getter_code, setter_error, push_str, Call, call_set, call_add, call_increment, call_decrement,
  call_delete, Chosen, call, refuse, with_number, choose, default_number, add_default_value, push_i,
  after_number, after_store, run_call, setter_code,
}

abbrev one_if : Bool → ℕ
one_if true = 1
one_if false = 0

-- The strings that the codes behind a getter take.
abbrev pub getter_takes : OpData → ℕ
getter_takes rvop = one_if rvop.rcidx + 1

abbrev pub setter_takes : OpData → ℕ
setter_takes rvop = one_if rvop.rcidx + one_if rvop.vidx

-- A code that returns has pushed this many strings.
abbrev pub Pushes : Run → ℕ → Type 0
Pushes crashed n = Unit
Pushes (pushed ws) n = length ws ≡ n

length-push_rc : (rvop : OpData) (rcs : Rcs) → length (push_rc rvop rcs) ≡ one_if rvop.rcidx
unfolding push_rc
length-push_rc rvop rcs = ground arith

length-push_str :
    (rvop : OpData) (v : Bytes) (rcs : Rcs) → length (push_str rvop v rcs) ≡ getter_takes rvop
unfolding push_str
length-push_str rvop v rcs =
    omega (arith, length-append (push_rc rvop rcs) (v ∷ []), length-push_rc rvop rcs)

length-push_str_open :
    (rvop : OpData) (v : Bytes) (rcs : Rcs)
    → length (push_rc rvop rcs ++ v ∷ []) ≡ getter_takes rvop
length-push_str_open rvop v rcs =
    omega (arith, length-append (push_rc rvop rcs) (v ∷ []), length-push_rc rvop rcs)

module _ (rvop : OpData) (rv : Rv) (stale : Bytes) (alloc : Bool) where
  length-getter_error : (rcs : Rcs) → length (getter_error rvop rv stale rcs) ≡ getter_takes rvop
  unfolding getter_error
  length-getter_error rcs = omega (
    arith,
    length-append (push_rc rvop rcs) (getter_value rv stale rcs ∷ []),
    length-push_rc rvop rcs,
  )

  length-after_get :
      (rc : MemRc) (val : Bytes) → length (after_get rvop rv stale alloc rc val) ≡ getter_takes rvop
  unfolding after_get
  length-after_get mem_success val = elim (Bool-cases alloc) [
    | inl e ↦ rw (after_get, e) (length-push_str_open rvop val success)
    | inr e ↦ rw (after_get, e) (length-getter_error internal)
  ]
  length-after_get mem_notfound val = length-getter_error notfound
  length-after_get refused val = length-getter_error connection
  length-after_get mem_notstored val = length-getter_error error
  length-after_get other_rc val = length-getter_error error

  -- A getter that returns has pushed a value, and before it a return code if one is wanted,
  -- whatever memcached answers and whatever fails on the way.
  pub getter_code-Pushes :
      {N : Type 0} (memcached_get : N → Bytes → MemRc × Bytes) (l : Lookup N)
      → Pushes (getter_code memcached_get rvop rv stale alloc l) (getter_takes rvop)
  unfolding getter_code
  getter_code-Pushes memcached_get divided = tt
  getter_code-Pushes memcached_get (no_node rcs) = length-getter_error rcs
  getter_code-Pushes memcached_get (at_node n) =
      elim rv.key
        as (λ o.
          Pushes
            (elim o as (λ x. Run) [
              | none ↦ pushed (getter_error rvop rv stale bad_key)
              | some k ↦
                  pushed (after_get rvop rv stale alloc (memcached_get n k).0 (memcached_get n k).1)
            ])
            (getter_takes rvop)) [
              | none ↦ length-getter_error bad_key
              | some k ↦ length-after_get (memcached_get n k).0 (memcached_get n k).1
            ]

  length-setter_error : (rcs : Rcs) → length (setter_error rvop rv stale rcs) ≡ setter_takes rvop
  unfolding setter_error
  length-setter_error rcs =
      elim rvop.vidx
        as (λ z.
          length (push_rc rvop rcs ++ (if z then setter_value rv stale rcs ∷ [] else []))
          ≡ one_if rvop.rcidx + one_if z) [
            | true ↦
                (omega (
                  arith,
                  length-append (push_rc rvop rcs) (setter_value rv stale rcs ∷ []),
                  length-push_rc rvop rcs,
                ))
            | false ↦ (omega (arith, length-append (push_rc rvop rcs) [], length-push_rc rvop rcs))
          ]

  -- A call that gives a number needs a variable for it, the others must have none.
  abbrev pub Fits : Chosen → Type 0
  Fits (refuse rcs) = Unit
  Fits (call (call_increment d)) = rvop.vidx ≡ true
  Fits (call (call_decrement d)) = rvop.vidx ≡ true
  Fits (call c) = rvop.vidx ≡ false

  module _ (atoi : Bytes → Option ℕ) where
    with_number-Fits :
        (f : ℕ → Call) (v : Bytes) → ((d : ℕ) → Fits (call (f d))) → Fits (with_number atoi f v)
    unfolding with_number
    with_number-Fits f v h = elim (Option-cases (atoi v)) [
      | inl e ↦ rw (with_number, e) tt
      | inr (d, e) ↦ rw (with_number, e) (h d)
    ]

    pub choose-Fits :
        (op : RvOp) (v : Option Bytes) → rvop.vidx ≡ setter_vidx op → Fits (choose atoi op v)
    unfolding choose setter_vidx
    choose-Fits rv_delete v h = h
    choose-Fits rv_set none h = tt
    choose-Fits rv_set (some v) h = h
    choose-Fits rv_add none h = tt
    choose-Fits rv_add (some v) h = h
    choose-Fits rv_incr none h = tt
    choose-Fits rv_incr (some v) h = with_number-Fits call_increment v (λ d. h)
    choose-Fits rv_decr none h = tt
    choose-Fits rv_decr (some v) h = with_number-Fits call_decrement v (λ d. h)
    choose-Fits rv_unknown none h = tt
    choose-Fits rv_unknown (some v) h = tt
    choose-Fits rv_get none h = tt
    choose-Fits rv_get (some v) h = tt
    choose-Fits rv_null none h = tt
    choose-Fits rv_null (some v) h = tt

    module _ (print_int : ℕ → ℕ → Bytes) (answer : Call → MemRc × ℕ) where
      number_takes :
          (v : Bytes) (rcs : Rcs)
          → rvop.vidx ≡ true
          → length (push_str rvop v rcs) ≡ setter_takes rvop
      number_takes v rcs h =
          length-push_str rvop v rcs ∙ ap (λ z. one_if rvop.rcidx + one_if z) (sym h)

      length-added :
          (v num : Bytes) (rc : MemRc)
          → rvop.vidx ≡ true
          → length (added atoi print_int answer rvop v num rc) ≡ setter_takes rvop
      length-added v num mem_success h = number_takes num success h
      length-added v num mem_notstored h = number_takes v notstored h
      length-added v num mem_notfound h = number_takes v internal h
      length-added v num refused h = number_takes v internal h
      length-added v num other_rc h = number_takes v internal h

      length-add_default_value :
          (c : Call)
          → rvop.vidx ≡ true
          → length (add_default_value atoi print_int answer rvop rv stale alloc c)
            ≡ setter_takes rvop
      unfolding add_default_value
      length-add_default_value c h = elim (Option-cases rv.default_val) [
        | inl e ↦ rw (add_default_value, e) (length-setter_error internal)
        | inr (v, e) ↦ elim (Bool-cases alloc) [
          | inl a ↦
              rw (add_default_value, e, a)
                (length-added v (default_number atoi print_int answer c v)
                  (answer (call_add (default_number atoi print_int answer c v))).0 h)
          | inr a ↦ rw (add_default_value, e, a) (length-setter_error internal)
        ]
      ]

      length-after_number :
          (c : Call) (rc : MemRc) (ival : ℕ)
          → rvop.vidx ≡ true
          → length (after_number atoi print_int answer rvop rv stale alloc c rc ival)
            ≡ setter_takes rvop
      unfolding after_number push_i
      length-after_number c refused ival h = length-setter_error connection
      length-after_number c mem_success ival h = elim (Bool-cases alloc) [
        | inl a ↦ rw (after_number, push_i, a) (number_takes (print_int ival 0) success h)
        | inr a ↦ rw (after_number, push_i, a) (length-setter_error internal)
      ]
      length-after_number c mem_notfound ival h = length-add_default_value c h
      length-after_number c mem_notstored ival h = length-setter_error error
      length-after_number c other_rc ival h = length-setter_error error

      length-after_store :
          (rc : MemRc)
          → rvop.vidx ≡ false
          → length (after_store atoi print_int answer rvop rv stale rc) ≡ setter_takes rvop
      unfolding after_store
      length-after_store mem_success h =
          length-push_rc rvop success ∙ omega arith ∙ ap (λ z. one_if rvop.rcidx + one_if z) (sym h)
      length-after_store refused h = length-setter_error connection
      length-after_store mem_notstored h = length-setter_error notstored
      length-after_store mem_notfound h = length-setter_error error
      length-after_store other_rc h = length-setter_error error

      length-run_call :
          (c : Chosen)
          → Fits c
          → length (run_call atoi print_int answer rvop rv stale alloc c) ≡ setter_takes rvop
      unfolding run_call
      length-run_call (refuse rcs) h = length-setter_error rcs
      length-run_call (call (call_increment d)) h =
          length-after_number (call_increment d) (answer (call_increment d)).0
            (answer (call_increment d)).1 h
      length-run_call (call (call_decrement d)) h =
          length-after_number (call_decrement d) (answer (call_decrement d)).0
            (answer (call_decrement d)).1 h
      length-run_call (call (call_set v)) h = length-after_store (answer (call_set v)).0 h
      length-run_call (call (call_add v)) h = length-after_store (answer (call_add v)).0 h
      length-run_call (call call_delete) h = length-after_store (answer call_delete).0 h

      -- A setter that returns, with a variable for the value if and only if it is incr or decr,
      -- has pushed one string for the return code if one is wanted, and one for the value if there
      -- is a variable for it, whatever memcached answers and whatever fails.
      pub setter_code-Pushes :
          {N : Type 0} (l : Lookup N)
          → rvop.vidx ≡ setter_vidx rvop.optype
          → Pushes (setter_code atoi print_int answer rvop rv stale alloc l) (setter_takes rvop)
      unfolding setter_code
      setter_code-Pushes divided h = tt
      setter_code-Pushes (no_node rcs) h = length-setter_error rcs
      setter_code-Pushes (at_node n) h =
          elim rv.key
            as (λ o.
              Pushes
                (elim o as (λ x. Run) [
                  | none ↦ pushed (setter_error rvop rv stale bad_key)
                  | some k ↦ pushed (
                      run_call atoi print_int answer rvop rv stale alloc
                        (choose atoi rvop.optype rvop.v2set))
                ])
                (setter_takes rvop)) [
                  | none ↦ length-setter_error bad_key
                  | some k ↦
                      length-run_call (choose atoi rvop.optype rvop.v2set)
                        (choose-Fits rvop.optype rvop.v2set h)
                ]
