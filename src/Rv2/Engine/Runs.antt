-- ===== src/Rv2/Engine/Runs.antt =====
-- A getter or a setter of c/ngx_http_rv2_module/ngx_http_rv2_module.c, run with the codes that take
-- what it pushes.
use ngxmp.Base.{◌≡◌, refl, Bool, Option, none, some, ◌∷◌, ◌++◌, Bytes}
use ngxmp.Rv2.{RvOp, rcs_text, OpData, Run, getter_code, setter_code, push_rc, setter_vidx, choose}
use ngxmp.Rv2.Declare.{Declared}
use ngxmp.Rv2.Compile.{SetOp, GetOp, getter, setter, Made, made_index, made_codes}
use ngxmp.Rv2.Engine.{
  World, Machine, get_handle, set_handle, evaluated, node_of, answers_at, store_at, script,
  get_data, set_data, ran, run_setter, exec_code, exec, is_set,
}
use ngxmp.Rv2.Engine.Results.{
  Outcome, pushes, get_result, set_result, getter_code-get_result, setter_code-set_result,
}

abbrev pub whole : Option Made → Option Made → RvOp → Option Bytes → Declared → SetOp
whole mv mrc op text rv = record {
  optype = op;
  vidx = made_index mv;
  rcidx = made_index mrc;
  rv = some rv;
  v2set = text;
}

module _ {V M C : Type 0} (w : World V M C) where
  abbrev assign : Option Made → Bytes → V → V
  assign none x v = v
  assign (some m) x v = w.store_var m.1 x v

  -- The machine with the value and then the return code in their variables, and the stack as it was.
  abbrev pub finish : Option Made → Option Made → M → Outcome → Machine V M → Option (Machine V M)
  finish mv mrc mem none s = none
  finish mv mrc mem (some r) s =
      some (record s { vars = assign mrc (rcs_text r.0) (assign mv r.1 s.vars); mem = mem })

  module _ (alloc : Bool) (stale : Bytes) where
    -- What the codes of a setter give.
    abbrev pub set_finish :
        Option Made
        → Option Made
        → RvOp
        → Option Bytes
        → Declared
        → Machine V M
        → Option (Machine V M)
    set_finish mv mrc op text rv s =
        let r = evaluated w s.vars rv in
        let chosen = choose w.atoi op (script w s.vars text) in
        let l = set_handle w.mc_zeroed r.key chosen (node_of w s.vars rv) in
        finish mv mrc (store_at w alloc l r chosen s.mem)
          (set_result r stale alloc w.atoi w.print_int (answers_at w l r chosen s.mem) chosen l) s

    -- The codes behind a getter or a setter take what it has pushed.
    exec-made_codes :
        (mv mrc : Option Made) (op : OpData) (o : Outcome) (mem : M) (s : Machine V M)
        → op.vidx ≡ is_set (made_index mv)
        → op.rcidx ≡ is_set (made_index mrc)
        → (elim (ran w alloc stale (pushes op o) mem s) [
          | none ↦ none
          | some s' ↦ exec w alloc stale (made_codes mv ++ made_codes mrc) s'
        ])
          ≡ finish mv mrc mem o s
    unfolding exec exec_code push_rc
    exec-made_codes mv mrc op none mem s hv hr = refl
    exec-made_codes none none op (some r) mem s hv hr = rw (hv, hr) refl
    exec-made_codes none (some mr) op (some r) mem s hv hr = rw (hv, hr) refl
    exec-made_codes (some m) none op (some r) mem s hv hr = rw (hv, hr) refl
    exec-made_codes (some m) (some mr) op (some r) mem s hv hr = rw (hv, hr) refl

    exec-pushes :
        (mv mrc : Option Made) (op : OpData) (o : Outcome) (mem : M) (s : Machine V M) (r : Run)
        → r ≡ pushes op o
        → op.vidx ≡ is_set (made_index mv)
        → op.rcidx ≡ is_set (made_index mrc)
        → (elim (ran w alloc stale r mem s) [
          | none ↦ none
          | some s' ↦ exec w alloc stale (made_codes mv ++ made_codes mrc) s'
        ])
          ≡ finish mv mrc mem o s
    exec-pushes mv mrc op o mem s r e hv hr = rw e (exec-made_codes mv mrc op o mem s hv hr)

    pub exec-getter :
        (m : Made) (mrc : Option Made) (rv : Declared) (s : Machine V M)
        → exec w alloc stale
            (getter (record { vidx = m.0; rcidx = made_index mrc; rv = rv }) ∷ made_codes (some m)
              ++ made_codes mrc)
            s
          ≡ finish
              (some m)
              mrc
              s.mem
              (get_result
                (evaluated w s.vars rv)
                stale
                alloc
                (λ c k. w.memcached_get c k s.mem)
                (get_handle (evaluated w s.vars rv).key (node_of w s.vars rv)))
              s
    unfolding exec exec_code
    exec-getter m mrc rv s =
        let op : GetOp = record { vidx = m.0; rcidx = made_index mrc; rv = rv } in
        exec-pushes (some m) mrc (get_data w op) _ s.mem s
          (getter_code (λ c k. w.memcached_get c k s.mem) (get_data w op) (evaluated w s.vars rv)
            stale alloc (get_handle (evaluated w s.vars rv).key (node_of w s.vars rv)))
          (getter_code-get_result (evaluated w s.vars rv) stale alloc
            (λ c k. w.memcached_get c k s.mem) (get_data w op)
            (get_handle (evaluated w s.vars rv).key (node_of w s.vars rv)) refl)
          refl refl

    -- The codes of a setter that are all written.
    pub exec-setter :
        (mv mrc : Option Made) (op : RvOp) (text : Option Bytes) (rv : Declared) (s : Machine V M)
        → is_set (made_index mv) ≡ setter_vidx op
        → exec w alloc stale (setter (whole mv mrc op text rv) ∷ made_codes mv ++ made_codes mrc) s
          ≡ set_finish mv mrc op text rv s
    unfolding exec exec_code run_setter
    exec-setter mv mrc op text rv s h =
        let data_ = set_data w (whole mv mrc op text rv) s.vars in
        let r = evaluated w s.vars rv in
        let chosen = choose w.atoi op data_.v2set in
        let l = set_handle w.mc_zeroed r.key chosen (node_of w s.vars rv) in
        exec-pushes mv mrc data_ _ (store_at w alloc l r chosen s.mem) s
          (setter_code w.atoi w.print_int (answers_at w l r chosen s.mem) data_ r stale alloc l)
          (setter_code-set_result r stale alloc w.atoi w.print_int (answers_at w l r chosen s.mem)
            data_ l h)
          refl refl
