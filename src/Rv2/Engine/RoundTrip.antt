-- ===== src/Rv2/Engine/RoundTrip.antt =====
-- A value that rv_set stores is the one that rv_get reads.
use ngxmp.Base.{
  ℕ, ◌≡◌, refl, ap, ◌∙◌, Bool, true, Option, none, some, Option-cases, inl, inr, List, [], ◌∷◌,
  ◌++◌, Bytes, codes,
}
use ngxmp.Rv2.{rv_set, mem_success, at_node, call_set, choose, find_cmd, setter_vidx}
use ngxmp.Util.Conf.{ok, >>=-ok, >>=-eq-ok, ok-injective, or_error, name_of}
use ngxmp.Rv2.Declare.{Declared, find}
use ngxmp.Rv2.Compile.{
  Variable, Code, getter, setter, store, in_place, Made, add_var, make_var, getter_command, written,
  rc_name, rc_var, rc_code, setter_command,
}
use ngxmp.Rv2.Upstreams.{connected}
use ngxmp.Rv2.Engine.{
  World, Machine, node_of, answers_at, answer, store_before, store_at, store_after, exec_code, exec,
}
use ngxmp.Rv2.Engine.Runs.{set_finish, whole, exec-getter, exec-setter}

module _ {V M C : Type 0} (w : World V M C) (stale : Bytes) where
  abbrev exec_some : Option (Machine V M) → List Code → Option (Machine V M)
  exec_some none ds = none
  exec_some (some s) ds = exec w true stale ds s

  exec-append :
      (cs ds : List Code) (s : Machine V M) {t : Machine V M}
      → exec w true stale cs s ≡ some t
      → exec w true stale (cs ++ ds) s ≡ exec w true stale ds t
  unfolding exec
  exec-append [] ds s h = ap (λ o. exec_some o ds) h
  exec-append (c ∷ cs) ds s h = elim (Option-cases (exec_code w true stale c s)) [
    | inl e ↦ absurd (cc (rw (exec, e) at h))
    | inr (s', e) ↦ rw (exec, e) (exec-append cs ds s' (rw (exec, e) at h))
  ]

  -- A variable on a server that is connected, with a key and a value that can be evaluated.
  pub record Reaches (s : Machine V M) (rv : Declared) (text : Bytes) (c : C) (k v : Bytes)
      : Type 0 where
    pub addr : Bytes
    pub node : node_of w s.vars rv ≡ at_node (record { addr = addr; mc = connected c })
    pub key : w.variable s.vars rv.key_idx ≡ some k
    pub value : w.script_run s.vars text ≡ some v

  module _ (s : Machine V M) (rv : Declared) (text : Bytes) (c : C) (k v : Bytes)
      (r : Reaches s rv text c k v) where
    abbrev after_set : M
    after_set = (w.perform c k (call_set v) s.mem).1

    set_run :
        exec w true stale (setter (whole none none rv_set (some text) rv) ∷ []) s
        ≡ some (record s { mem = after_set })
    unfolding choose store_at store_after answers_at answer store_before
    set_run =
        exec-setter w true stale none none rv_set (some text) rv s (unfold setter_vidx in refl)
        ∙ rw (set_finish, r.node, r.key, r.value) refl

    get_run :
        (m : Made)
        → w.memcached_get c k after_set ≡ (mem_success, v)
        → exec w true stale
            (getter (record { vidx = m.0; rcidx = none; rv = rv }) ∷ store m.1 ∷ [])
            (record s { mem = after_set })
          ≡ some (record s { vars = w.store_var m.1 v s.vars; mem = after_set })
    get_run m h =
        exec-getter w true stale m none rv (record s { mem = after_set })
        ∙ rw (r.node, r.key) (rw h refl)

    -- rv_set and rv_get of one variable, both without a return code: the directives are accepted, and
    -- their codes, run one after the other with allocations that succeed, give the variable of the
    -- getter the value that was set. The memory of the setter's code was zero where its
    -- expression stands, the variable reaches a connected server, and a memcached_get behind the
    -- memcached_set gives what was set.
    pub get-set :
        (add_variable : Bytes → Option Variable) (variable_index : Bytes → Option ℕ)
        (rvs : List Declared) (compiles : Bytes → Bool) (x n : Bytes) (m : Made)
        → find rvs n ≡ some rv
        → compiles text ≡ true
        → make_var add_variable variable_index in_place (b'$' ∷ x) ≡ ok m
        → w.memcached_get c k after_set ≡ (mem_success, v)
        → (cs : List Code) × (ds : List Code) × (setter_command add_variable variable_index rvs true
              compiles in_place in_place in_place
              (codes "rv_set")
              ((b'$' ∷ n) ∷ text ∷ [])
            ≡ ok cs)
          × (getter_command add_variable variable_index rvs in_place in_place in_place
                ((b'$' ∷ x) ∷ (b'$' ∷ n) ∷ [])
              ≡ ok ds)
          × (exec w true stale (cs ++ ds) s
              ≡ some (record s { vars = w.store_var m.1 v s.vars; mem = after_set }))
    unfolding setter_command getter_command find_cmd make_var written rc_name rc_var rc_code name_of
    get-set add_variable variable_index rvs compiles x n m found comp made h =
        let (var, e1, h1) = >>=-eq-ok (or_error (add_var add_variable variable_index x)) _ made in
        (
          setter (whole none none rv_set (some text) rv) ∷ [],
          getter (record { vidx = m.0; rcidx = none; rv = rv }) ∷ store m.1 ∷ [],
          rw (found, comp) refl,
          >>=-ok (or_error (add_var add_variable variable_index x)) _ e1 (
              rw found (
                ap
                  (λ (q : Made).
                    ok (getter (record { vidx = q.0; rcidx = none; rv = rv }) ∷ store q.1 ∷ []))
                  (ok-injective h1))),
          exec-append (setter (whole none none rv_set (some text) rv) ∷ [])
                (getter (record { vidx = m.0; rcidx = none; rv = rv }) ∷ store m.1 ∷ []) s set_run
              ∙ get_run m h,
        )
