-- ===== src/Rv2/Engine/Increments.antt =====
-- rv_incr and rv_decr of c/ngx_http_rv2_module/ngx_http_rv2_module.c, from their arguments to the
-- number in the variable and in the store.
use ngxmp.Base.{
  ℕ, ◌+◌, ◌^◌, ◌<◌, inl, inr, Option-cases, ◌≡◌, refl, ap, ◌∙◌, Bool, true, Option, none, some,
  List, [], ◌∷◌, Bytes, codes,
}
use ngxmp.Rv2.{
  rv_incr, mem_success, mem_notfound, at_node, success, rcs_text, Call, call_increment, call_add,
  call, choose, with_number, find_cmd, setter_vidx, default_number,
}
use ngxmp.Util.Conf.{ok, >>=-ok, name_of}
use ngxmp.Rv2.Declare.{Declared, find}
use ngxmp.Rv2.Compile.{
  Variable, Code, setter, store, in_place, Made, make_var, written, setter_command, take_value,
  take_rv, take_v2set, take_rc,
}
use ngxmp.Rv2.Engine.{
  World, Machine, evaluated, answers_at, answer, store_before, store_at, store_after, store_default,
  exec,
}
use ngxmp.Rv2.Engine.RoundTrip.{Reaches}
use ngxmp.Rv2.Engine.Runs.{set_finish, whole, exec-setter}

-- The number that a counter has afterwards; a missing one starts from the default.
abbrev pub next_count : ℕ → ℕ → Option ℕ → ℕ
next_count d0 d none = d0 + d
next_count d0 d (some a) = a + d

module _ {V M C : Type 0} (w : World V M C) (c : C) (k : Bytes)
    (number : M → C → Bytes → Option ℕ) where
  -- A counter that is there is moved, short of 2^31, and its new number is returned.
  abbrev pub Increments : Type 0
  Increments =
      (mem : M) (a d : ℕ)
      → number mem c k ≡ some a
      → a + d < 2 ^ 31
      → (mem' : M) × (w.perform c k (call_increment d) mem ≡ ((mem_success, a + d), mem'))
        × (number mem' c k ≡ some (a + d))

  -- A counter that is missing is not found, and stays so.
  abbrev pub Misses : Type 0
  Misses =
      (mem : M) (d : ℕ)
      → number mem c k ≡ none
      → (x : ℕ) × (w.perform c k (call_increment d) mem ≡ ((mem_notfound, x), mem))

  -- Where a counter is missing, a number that is added as "%d" prints it is there.
  abbrev pub Adds : Type 0
  Adds =
      (mem : M) (a : ℕ)
      → number mem c k ≡ none
      → a < 2 ^ 31
      → (y : ℕ) × (mem' : M) × (w.perform c k (call_add (w.print_int a 0)) mem
          ≡ ((mem_success, y), mem'))
        × (number mem' c k ≡ some a)

module _ {V M C : Type 0} (w : World V M C) (stale : Bytes) (s : Machine V M) (rv : Declared)
    (text : Bytes) (c : C) (k v : Bytes) (r : Reaches w stale s rv text c k v) (m mrc : Made) where
  -- The value goes to one variable, and SUCCESS to the other.
  abbrev pub counted : Bytes → M → Machine V M
  counted num mem = record s {
    vars = w.store_var mrc.1 (rcs_text success) (w.store_var m.1 num s.vars);
    mem = mem;
  }

  abbrev pub incr_codes : List Code
  incr_codes =
      setter (whole (some m) (some mrc) rv_incr (some text) rv) ∷ store m.1 ∷ store mrc.1 ∷ []

  number_chosen :
      (d : ℕ) → w.atoi v ≡ some d → choose w.atoi rv_incr (some v) ≡ call (call_increment d)
  unfolding choose with_number
  number_chosen d num = rw (choose, with_number, num) refl

  asked :
      (d : ℕ) (f : Call)
      → answers_at w (at_node c) (evaluated w s.vars rv) (call (call_increment d)) s.mem f
        ≡ answer w c k (call (call_increment d)) s.mem f
  unfolding answers_at
  asked d f = rw (answers_at, r.key) refl

  -- A key that is there.
  incr-hit :
      (d n : ℕ) (mem : M)
      → w.atoi v ≡ some d
      → w.perform c k (call_increment d) s.mem ≡ ((mem_success, n), mem)
      → exec w true stale incr_codes s ≡ some (counted (w.print_int n 0) mem)
  unfolding choose with_number store_at store_after store_default answers_at answer store_before
  incr-hit d n mem num hit =
      let first_answer = asked d (call_increment d) ∙ ap (λ q. q.0) hit in
      exec-setter w true stale (some m) (some mrc) rv_incr (some text) rv s
        (unfold setter_vidx in refl)
      ∙ rw (set_finish, r.node, r.key, r.value, number_chosen d num) (rw (first_answer, hit) refl)

  -- A key that is missing.
  incr-miss :
      (d d0 x y : ℕ) (dv : Bytes) (mem mem' : M)
      → w.atoi v ≡ some d
      → w.script_run s.vars rv.default_val ≡ some dv
      → w.atoi dv ≡ some d0
      → w.perform c k (call_increment d) s.mem ≡ ((mem_notfound, x), mem)
      → w.perform c k (call_add (w.print_int (d0 + d) 0)) mem ≡ ((mem_success, y), mem')
      → exec w true stale incr_codes s ≡ some (counted (w.print_int (d0 + d) 0) mem')
  unfolding choose with_number store_at store_after store_default answers_at answer store_before
      default_number
  incr-miss d d0 x y dv mem mem' num def num0 miss add =
      let first_answer = asked d (call_increment d) ∙ ap (λ q. q.0) miss in
      let f = call_add (w.print_int (d0 + d) 0) in
      let second_answer = asked d f ∙ ap (λ q. (w.perform c k f q.1).0) miss ∙ ap (λ q. q.0) add in
      let as_made =
        ap
          (λ (o : Option ℕ).
            answers_at w (at_node c) (evaluated w s.vars rv) (call (call_increment d)) s.mem
              (call_add (w.print_int (elim o [ none ↦ 0 | some n ↦ n ] + d) 0)))
          num0
        ∙ second_answer in
      exec-setter w true stale (some m) (some mrc) rv_incr (some text) rv s
        (unfold setter_vidx in refl)
      ∙ rw (set_finish, r.node, r.key, r.value, number_chosen d num)
          (rw (first_answer, miss, def) (rw as_made (rw (num0, add) refl)))

  module _ (add_variable : Bytes → Option Variable) (variable_index : Bytes → Option ℕ)
      (rvs : List Declared) (compiles : Bytes → Bool) (x n y : Bytes) where
    incr-accepted :
        find rvs n ≡ some rv
        → compiles text ≡ true
        → make_var add_variable variable_index in_place (b'$' ∷ x) ≡ ok m
        → make_var add_variable variable_index in_place (b'$' ∷ y) ≡ ok mrc
        → setter_command add_variable variable_index rvs true compiles in_place in_place in_place
            (codes "rv_incr")
            ((b'$' ∷ x) ∷ (b'$' ∷ n) ∷ text ∷ (b'$' ∷ y) ∷ [])
          ≡ ok incr_codes
    unfolding setter_command find_cmd written take_value take_rv take_v2set take_rc name_of
    incr-accepted found comp made made_rc =
        let rest = (b'$' ∷ n) ∷ text ∷ (b'$' ∷ y) ∷ [] in
        let value : take_value add_variable variable_index rvs in_place rv_incr ((b'$' ∷ x) ∷ rest)
            ≡ ok (some m, rest) =
          rw (take_value, made) refl in
        let rc : take_rc add_variable variable_index rvs in_place ((b'$' ∷ y) ∷ [])
            ≡ ok (some mrc) =
          rw (take_rc, made_rc) refl in
        >>=-ok (take_value add_variable variable_index rvs in_place rv_incr ((b'$' ∷ x) ∷ rest)) _
          value
          (rw (found, comp)
            (>>=-ok (take_rc add_variable variable_index rvs in_place ((b'$' ∷ y) ∷ [])) _ rc refl))

    module _ (number : M → C → Bytes → Option ℕ) where
      -- rv_incr with variables for the new number and for the return code, on a memcached that
      -- counts: the directive is accepted, and its codes leave the stack as it was. They move the
      -- counter of the key by the value, or set a missing one to the default moved by it, give the
      -- first variable the number that the counter then has, and the second SUCCESS. The memory of
      -- the code was zero where its expression stands, allocations succeed, the variable reaches a
      -- connected server, the value and the default are numbers, and the new number is below 2^31,
      -- as far as "%d" prints it.
      pub incr-counts :
          (d d0 : ℕ) (dv : Bytes)
          → Increments w c k number
          → Misses w c k number
          → Adds w c k number
          → find rvs n ≡ some rv
          → compiles text ≡ true
          → make_var add_variable variable_index in_place (b'$' ∷ x) ≡ ok m
          → make_var add_variable variable_index in_place (b'$' ∷ y) ≡ ok mrc
          → w.atoi v ≡ some d
          → w.script_run s.vars rv.default_val ≡ some dv
          → w.atoi dv ≡ some d0
          → next_count d0 d (number s.mem c k) < 2 ^ 31
          → (cs : List Code) × (mem : M) × (setter_command add_variable variable_index rvs true
                compiles in_place in_place in_place
                (codes "rv_incr")
                ((b'$' ∷ x) ∷ (b'$' ∷ n) ∷ text ∷ (b'$' ∷ y) ∷ [])
              ≡ ok cs)
            × (exec w true stale cs s
                ≡ some (counted (w.print_int (next_count d0 d (number s.mem c k)) 0) mem))
            × (number mem c k ≡ some (next_count d0 d (number s.mem c k)))
      incr-counts d d0 dv incs misses adds found comp made made_rc num def num0 small =
          let accepted = incr-accepted found comp made made_rc in
          elim (Option-cases (number s.mem c k)) [
            | inl z ↦
                let (_, miss) = misses s.mem d z in
                let (_, mem', add, at) = adds s.mem (d0 + d) z (rw z at small) in
                rw z (
                  incr_codes,
                  mem',
                  accepted,
                  incr-miss d d0 _ _ dv s.mem mem' num def num0 miss add,
                  at,
                )
            | inr (a, z) ↦
                let below : a + d < 2 ^ 31 = rw z at small in
                let (mem', hit, at) = incs s.mem a d z below in
                rw z (incr_codes, mem', accepted, incr-hit d (a + d) mem' num hit, at)
          ]
