-- ===== src/Rv2/Engine/Setters.antt =====
-- The directives that append a setter in c/ngx_http_rv2_module/ngx_http_rv2_module.c: what they are
-- made of, and what becomes of one where the array of codes moves.
use ngxmp.Base.{
  ℕ, ◌≡◌, inl, inr, refl, sym, ap, ◌∙◌, Bool, true, Option, none, some, List, ◌∷◌, ◌++◌, Bytes,
  Bool-cases,
}
use ngxmp.Rv2.{RvOp, get_cmd_type}
use ngxmp.Util.Conf.{ok, >>=-eq-ok, ok-injective, return_if}
use ngxmp.Rv2.Declare.{Declared}
use ngxmp.Rv2.Compile.{
  Variable, Code, setter, Push, moved, started, Made, made_index, made_codes, make_var, first,
  take_value, take_rv, take_v2set, take_rc, written, setter_command, is_number, is_unknown,
}
use ngxmp.Rv2.Engine.{World, Machine, exec_code, exec, is_set}
use ngxmp.Rv2.Engine.Runs.{whole}

module _ (add_variable : Bytes → Option Variable) (variable_index : Bytes → Option ℕ)
    (rvs : List Declared) (zeroed : Bool) (compiles : Bytes → Bool) where
  -- The parts of a setter that is accepted, as they are read from its arguments.
  pub record Parts (p2 p3 : Push) (op : RvOp) (args : List Bytes) (mv mrc : Option Made)
      (rv : Declared) (text : Option Bytes) : Type 0 where
    pub args1 : List Bytes
    pub args2 : List Bytes
    pub args3 : List Bytes
    pub value : take_value add_variable variable_index rvs p2 op args ≡ ok (mv, args1)
    pub variable : take_rv add_variable variable_index rvs args1 ≡ ok (rv, args2)
    pub to_set :
        take_v2set add_variable variable_index rvs zeroed compiles op args2 ≡ ok (text, args3)
    pub rc : take_rc add_variable variable_index rvs p3 args3 ≡ ok mrc

  setter_command-ok :
      (p1 p2 p3 : Push) (cmd : Bytes) (args : List Bytes) (cs : List Code)
      → setter_command add_variable variable_index rvs zeroed compiles p1 p2 p3 cmd args ≡ ok cs
      → (mv : Option Made) × (mrc : Option Made) × (rv : Declared) × (text : Option Bytes) × Parts
          p2 p3
          (get_cmd_type cmd)
          args
          mv
          mrc
          rv
          text
        × (cs
            ≡ setter (
                  written add_variable variable_index rvs p2
                    (get_cmd_type cmd)
                    mv
                    (whole mv mrc (get_cmd_type cmd) text rv))
                ∷ made_codes mv
              ++ made_codes mrc)
  unfolding setter_command
  setter_command-ok p1 p2 p3 cmd args cs h =
      let op = get_cmd_type cmd in
      let (_, _, h1) = >>=-eq-ok (return_if (is_unknown op) _) _ h in
      let (_, _, h2) = >>=-eq-ok (started p1) _ h1 in
      let (a, e3, h3) = >>=-eq-ok (take_value add_variable variable_index rvs p2 op args) _ h2 in
      let (b, e4, h4) = >>=-eq-ok (take_rv add_variable variable_index rvs a.1) _ h3 in
      let (c, e5, h5) =
        >>=-eq-ok (take_v2set add_variable variable_index rvs zeroed compiles op b.1) _ h4 in
      let (rc, e6, h6) = >>=-eq-ok (take_rc add_variable variable_index rvs p3 c.1) _ h5 in
      (
        a.0,
        rc,
        b.0,
        c.0,
        record {
          args1 = a.1;
          args2 = b.1;
          args3 = c.1;
          value = e3;
          variable = e4;
          to_set = e5;
          rc = e6;
        },
        sym (ok-injective h6),
      )

  take_value-is_set :
      (p : Push) (op : RvOp) (args rest : List Bytes) (mv : Option Made)
      → take_value add_variable variable_index rvs p op args ≡ ok (mv, rest)
      → is_set (made_index mv) ≡ is_number op
  unfolding take_value
  take_value-is_set p op args rest mv h = elim (Bool-cases (is_number op)) [
    | inl z ↦
        let (a, _, h1) = >>=-eq-ok (first args) _ (rw z at h) in
        let (m, _, h2) = >>=-eq-ok (make_var add_variable variable_index p a.0) _ h1 in
        let same : some m ≡ mv = ap (λ q. q.0) (ok-injective h2) in
        rw z (ap (λ q. is_set (made_index q)) (sym same))
    | inr z ↦
        let same : none ≡ mv = ap (λ q. q.0) (ok-injective (rw z at h)) in
        rw z (ap (λ q. is_set (made_index q)) (sym same))
  ]

  module _ {V M C : Type 0} (w : World V M C) (alloc : Bool) (stale : Bytes) where
    lost :
        (mv mrc : Option Made) (rv : Declared) (text : Option Bytes) (op : RvOp)
        → is_set (made_index mv) ≡ true
        → (s : Machine V M)
        → exec w alloc stale
            (setter (written add_variable variable_index rvs moved op mv (whole mv mrc op text rv))
                ∷ made_codes mv
              ++ made_codes mrc)
            s
          ≡ none
    unfolding exec exec_code written
    lost none mrc rv text op v s = absurd (cc v)
    lost (some m) mrc rv text op v s = refl

    -- An accepted incr or decr, when the array of codes moves as the code of the new value is
    -- appended: what is written afterwards goes to the old array, and the code that runs reads a
    -- pointer that was never written.
    pub exec-moved :
        (p1 p3 : Push) (cmd : Bytes) (args : List Bytes) (cs : List Code)
        → setter_command add_variable variable_index rvs zeroed compiles p1 moved p3 cmd args
          ≡ ok cs
        → is_number (get_cmd_type cmd) ≡ true
        → (s : Machine V M) → exec w alloc stale cs s ≡ none
    unfolding exec exec_code written
    exec-moved p1 p3 cmd args cs h num s =
        let op = get_cmd_type cmd in
        let (mv, mrc, rv, text, parts, made) = setter_command-ok p1 moved p3 cmd args cs h in
        let v = take_value-is_set moved op args parts.args1 mv parts.value in
        ap (λ l. exec w alloc stale l s) made ∙ lost mv mrc rv text op (v ∙ num) s
