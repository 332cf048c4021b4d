-- ===== src/Rv2/Engine/Getters.antt =====
-- The directive rv_get of c/ngx_http_rv2_module/ngx_http_rv2_module.c, from its arguments to what
-- its codes do.
use ngxmp.Base.{ℕ, ◌≡◌, refl, sym, ap, ◌∙◌, Bool, Option, some, List, ◌∷◌, ◌++◌, Bytes}
use ngxmp.Util.Conf.{
  Conf, ok, ◌>>=◌, >>=-eq-ok, >>=-ok, ok-injective, or_error, or_error-ok, name_of,
}
use ngxmp.Rv2.Declare.{Declared, find}
use ngxmp.Rv2.Compile.{
  Variable, Code, getter, Push, started, Made, made_index, made_codes, add_var, code_set_gen,
  make_var, rc_name, rc_var, rc_code, getter_command,
}
use ngxmp.Rv2.Engine.{World, Machine, get_handle, evaluated, node_of, exec_code, exec}
use ngxmp.Rv2.Engine.Results.{get_result}
use ngxmp.Rv2.Engine.Runs.{finish, exec-getter}

module _ (add_variable : Bytes → Option Variable) (variable_index : Bytes → Option ℕ)
    (rvs : List Declared) where
  -- The variable of the return code of a getter: that of the third argument, where there are
  -- three and its name is not empty.
  abbrev pub getter_rc : Push → List Bytes → Conf (Option Made)
  getter_rc p rest = rc_name add_variable variable_index rest >>= λ n.
      rc_var add_variable variable_index n >>= λ v. rc_code add_variable variable_index p v

  -- The codes of a getter that is accepted, and what they are made from.
  getter_command-ok :
      (p1 p2 p3 : Push) (a b : Bytes) (rest : List Bytes) (cs : List Code)
      → getter_command add_variable variable_index rvs p1 p2 p3 (a ∷ b ∷ rest) ≡ ok cs
      → (n : Bytes) × (rv : Declared) × (m : Made) × (mrc : Option Made) × (name_of b ≡ ok n)
        × (find rvs n ≡ some rv)
        × (make_var add_variable variable_index p2 a ≡ ok m)
        × (getter_rc p3 rest ≡ ok mrc)
        × (cs
            ≡ getter (record { vidx = m.0; rcidx = made_index mrc; rv = rv }) ∷ made_codes (some m)
              ++ made_codes mrc)
  unfolding getter_command make_var
  getter_command-ok p1 p2 p3 a b rest cs h =
      let (val, e1, h1) = >>=-eq-ok (name_of a) _ h in
      let (n, e2, h2) = >>=-eq-ok (name_of b) _ h1 in
      let (rcname, e3, h3) = >>=-eq-ok (rc_name add_variable variable_index rest) _ h2 in
      let (v, e4, h4) = >>=-eq-ok (or_error (add_var add_variable variable_index val)) _ h3 in
      let (_, _, h5) = >>=-eq-ok (started p1) _ h4 in
      let (rv, e6, h6) = >>=-eq-ok (or_error (find rvs n)) _ h5 in
      let (rcv, e7, h7) = >>=-eq-ok (rc_var add_variable variable_index rcname) _ h6 in
      let (t, e8, h8) = >>=-eq-ok (code_set_gen add_variable variable_index p2 v.1) _ h7 in
      let (rc, e9, h9) = >>=-eq-ok (rc_code add_variable variable_index p3 rcv) _ h8 in
      (
        n,
        rv,
        (v.0, t),
        rc,
        e2,
        or_error-ok (find rvs n) e6,
        >>=-ok (name_of a) _ e1 (
            >>=-ok (or_error (add_var add_variable variable_index val)) _ e4
              (>>=-ok (code_set_gen add_variable variable_index p2 v.1) _ e8 refl)),
        >>=-ok (rc_name add_variable variable_index rest) _ e3
            (>>=-ok (rc_var add_variable variable_index rcname) _ e7 e9),
        sym (ok-injective h9),
      )

  module _ {V M C : Type 0} (w : World V M C) (alloc : Bool) (stale : Bytes) where
    -- A getter that is accepted: its codes leave the stack as it was, and give what the search of
    -- the backend and memcached yield, the value to the variable of the first argument and the
    -- return code to that of the third, if there is one. They crash only where the search divides
    -- by zero, or where the key is valid and the server was never connected.
    pub exec-getter_command :
        (p1 p2 p3 : Push) (a b : Bytes) (rest : List Bytes) (cs : List Code)
        → getter_command add_variable variable_index rvs p1 p2 p3 (a ∷ b ∷ rest) ≡ ok cs
        → (n : Bytes) × (rv : Declared) × (m : Made) × (mrc : Option Made) × (name_of b ≡ ok n)
          × (find rvs n ≡ some rv)
          × (make_var add_variable variable_index p2 a ≡ ok m)
          × (getter_rc p3 rest ≡ ok mrc)
          × ((s : Machine V M)
              → exec w alloc stale cs s
                ≡ finish w
                    (some m)
                    mrc
                    s.mem
                    (get_result
                      (evaluated w s.vars rv)
                      stale
                      alloc
                      (λ c k. w.memcached_get c k s.mem)
                      (get_handle (evaluated w s.vars rv).key (node_of w s.vars rv)))
                    s)
    unfolding exec exec_code
    exec-getter_command p1 p2 p3 a b rest cs h =
        let (n, rv, m, mrc, e1, e2, e3, e4, made) = getter_command-ok p1 p2 p3 a b rest cs h in
        (
          n,
          rv,
          m,
          mrc,
          e1,
          e2,
          e3,
          e4,
          λ s. ap (λ l. exec w alloc stale l s) made ∙ exec-getter w alloc stale m mrc rv s,
        )
