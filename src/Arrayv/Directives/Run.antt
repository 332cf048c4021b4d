-- ===== src/Arrayv/Directives/Run.antt =====
-- Directives on one array variable of c/ngx_http_arrayv_module/ngx_http_arrayv_module.c: what their
-- codes do is what the accesses do to a sequence of values.
use ngxmp.Base.{
  ℕ, ◌≡◌, refl, sym, ap, subst, ◌∙◌, Bool, true, false, Option, none, some, List, [], ◌∷◌, ◌++◌,
  if◌then◌else◌, ◌==◌, same_bytes, Bytes, Bool-cases, inl, inr,
}
use mathlib.Core.Option.{some-injective}
use ngxmp.HashTable.Find.{same_bytes-eq}
use ngxmp.Util.Conf.{Conf, ok, ◌>>=◌, >>=-ok}
use ngxmp.Util.VarName.{var_name}
use ngxmp.Arrayv.{Op, op_head, op_tail, av_ctx, get_handler, set_handler}
use ngxmp.Arrayv.Deque.{Represents, get_head_lem, get_tail_lem, set_tail_lem}
use ngxmp.Arrayv.Sequence.{split_last, split_last-append}
use ngxmp.Arrayv.Format.{ReadStr}
use ngxmp.Arrayv.Directives.{
  av_handler, op_data, Variable, unset, Code, value_code, complex_code, get_code, set_code,
  var_code, add_variable, in_command, out_command, unshift_var_command, pop_var_command,
  shift_var_command,
}
use ngxmp.Arrayv.Directives.Script.{World, Machine, update, kept, run_set, exec_code, exec}
use ngxmp.Arrayv.Directives.Steps.{Leaves, update_self, exec-append, out-Leaves}

-- `unshift_array $a text`, `pop_array $x $a` and `shift_array $x $a`.
pub data Directive : Type 0 where
  unshift : Bytes → Directive
  pop_to shift_to : Bytes → Directive

abbrev or_zero : Option ℕ → ℕ
or_zero none = 0
or_zero (some i) = i

module _ (other : Bytes → Option Variable) (variable_index : Bytes → Option ℕ)
    (special : Bytes → Bool) (variables_count : Bytes → ℕ) (atoi : Bytes → Option ℕ)
    (compiles : Bytes → Bool) (readstr : Bytes → ReadStr) (unset_del : ℕ) (avs : List Variable)
    (a : Bytes) where
  -- The codes of a directive, where all allocations succeed.
  abbrev codes_of : Directive → Conf (List Code)
  codes_of (unshift t) =
      unshift_var_command other variable_index special variables_count atoi compiles unset_del true
        true true avs ((b'$' ∷ a) ∷ t ∷ [])
  codes_of (pop_to x) =
      pop_var_command other variable_index special variables_count atoi compiles readstr unset_del
        true true true avs ((b'$' ∷ x) ∷ (b'$' ∷ a) ∷ [])
  codes_of (shift_to x) =
      shift_var_command other variable_index special variables_count atoi compiles readstr unset_del
        true true true avs ((b'$' ∷ x) ∷ (b'$' ∷ a) ∷ [])

  abbrev pub all_codes : List Directive → Conf (List Code)
  all_codes [] = ok []
  all_codes (d ∷ ds) = codes_of d >>= λ cs. all_codes ds >>= λ rest. ok (cs ++ rest)

  -- The array is declared, with the index `i`.
  pub record IsArray (i j : ℕ) : Type 0 where
    pub v : Variable
    pub found : add_variable avs other a ≡ some v
    pub get_handler : v.get_handler ≡ some av_handler
    pub set_handler : v.set_handler ≡ some av_handler
    pub own : v.own ≡ op_data (some i)
    pub index : variable_index a ≡ some j

  -- A plain variable that takes a value.
  pub record IsPlain (x : Bytes) : Type 0 where
    pub v : Variable
    pub found : add_variable avs other x ≡ some v
    pub set_handler : v.set_handler ≡ none
    pub k : ℕ
    pub index : variable_index x ≡ some k

  abbrev Accepted : Directive → Type 0
  Accepted (unshift t) = compiles t ≡ true
  Accepted (pop_to x) = IsPlain x
  Accepted (shift_to x) = IsPlain x

  abbrev pub AllAccepted : List Directive → Type 0
  AllAccepted [] = Unit
  AllAccepted (d ∷ ds) = Accepted d × AllAccepted ds

  abbrev text_code : Bytes → Code
  text_code t =
      if variables_count t == 0
      then value_code (elim (atoi t) [ none ↦ 0 | some n ↦ n ]) t
      else complex_code t

  module _ (i j : ℕ) (arr : IsArray i j) where
    in_codes :
        (t : Bytes)
        → compiles t ≡ true
        → codes_of (unshift t)
          ≡ ok (
              text_code t
              ∷ set_code av_handler
                  (record { op = op_tail; index = some i; joinx = unset; del = unset_del })
              ∷ [])
    unfolding in_command var_name
    in_codes t c =
        rw (var_name, arr.found, arr.own, arr.index)
          (elim (Bool-cases (variables_count t == 0)) [
            | inl z ↦ rw (z, arr.set_handler) refl
            | inr z ↦ rw (z, c, arr.set_handler) refl
          ])

    not_array : (x : Bytes) → IsPlain x → same_bytes x a ≡ false
    not_array x p = elim (Bool-cases (same_bytes x a)) [
      | inr d ↦ d
      | inl e ↦
          let vs =
            some-injective _ _
              (sym p.found ∙ ap (add_variable avs other) (same_bytes-eq x a e) ∙ arr.found) in
          absurd (cc (sym p.set_handler ∙ ap (λ u. u.set_handler) vs ∙ arr.set_handler))
    ]

    out_codes :
        (x : Bytes) (op : Op) (p : IsPlain x)
        → out_command other variable_index special variables_count atoi compiles readstr op
            unset_del true true true avs
            ((b'$' ∷ x) ∷ (b'$' ∷ a) ∷ [])
          ≡ ok (
              get_code av_handler
                (record { op = op; index = some i; joinx = unset; del = unset_del })
              ∷ var_code p.k
              ∷ [])
    unfolding out_command var_name
    out_codes x op p =
        rw
          (
            var_name,
            arr.found,
            arr.own,
            p.found,
            p.index,
            arr.index,
            not_array x p,
            arr.get_handler,
            p.set_handler,
          )
          refl

    module _ {V : Type 0} (w : World V) (stale : Bytes) where
      -- What a directive does to a sequence and to the variables of a request.
      abbrev text_value : V → Bytes → Bytes
      text_value vars t = if variables_count t == 0 then t else w.script_run vars t

      abbrev give : Bytes → Bytes → V → V
      give x y vars = w.store_var (or_zero (variable_index x)) y vars

      abbrev pub apply : Directive → List Bytes × V → List Bytes × V
      apply (unshift t) (q, vars) = (text_value vars t ∷ q, vars)
      apply (pop_to x) (q, vars) = elim (split_last q) [
        | none ↦ (q, give x [] vars)
        | some r ↦ (r.0, give x r.1 vars)
      ]
      apply (shift_to x) ([], vars) = ([], give x [] vars)
      apply (shift_to x) (y ∷ q, vars) = (q, give x y vars)

      abbrev pub apply_all : List Directive → List Bytes × V → List Bytes × V
      apply_all [] st = st
      apply_all (d ∷ ds) st = apply_all ds (apply d st)

      -- The code of a text pushes its value.
      exec-text_code :
          (t : Bytes) (cs : List Code) (s : Machine V)
          → exec w stale (text_code t ∷ cs) s
            ≡ exec w stale cs (record s { stack = text_value s.vars t ∷ s.stack })
      unfolding exec exec_code
      exec-text_code t cs s = elim (Bool-cases (variables_count t == 0)) [
        | inl z ↦ rw z refl
        | inr z ↦ rw z refl
      ]

      unshift-Leaves :
          (t : Bytes) (s : Machine V) (q : List Bytes)
          → Represents (av_ctx (s.arrays i)) q
          → Leaves w stale i
              (text_code t
                ∷ set_code av_handler
                    (record { op = op_tail; index = some i; joinx = unset; del = unset_del })
                ∷ [])
              s
              (apply (unshift t) (q, s.vars))
      unfolding exec exec_code run_set set_handler av_ctx
      unshift-Leaves t s q rep =
          let x = text_value s.vars t in
          let (c, e, r) = set_tail_lem (av_ctx (s.arrays i)) q x rep in
          (
            record s { arrays = update s.arrays i c },
            exec-text_code t
                  (set_code av_handler
                      (record { op = op_tail; index = some i; joinx = unset; del = unset_del })
                    ∷ [])
                  s
                ∙ ap
                    (λ o. elim (kept w stale i s.stack o (record s { stack = x ∷ s.stack })) [
                      | none ↦ none
                      | some s' ↦ exec w stale [] s'
                    ])
                    e,
            refl,
            refl,
            subst (λ o. Represents (av_ctx o) (x ∷ q)) (sym (update_self w stale i s.arrays c)) r,
          )

      pop-Leaves :
          (x : Bytes) (k : ℕ) (s : Machine V) (q : List Bytes)
          → variable_index x ≡ some k
          → Represents (av_ctx (s.arrays i)) q
          → Leaves w stale i
              (get_code av_handler
                  (record { op = op_head; index = some i; joinx = unset; del = unset_del })
                ∷ var_code k
                ∷ [])
              s
              (apply (pop_to x) (q, s.vars))
      unfolding get_handler
      pop-Leaves x k s q h rep =
          subst
            (λ n.
              Leaves w stale i
                (get_code av_handler
                    (record { op = op_head; index = some i; joinx = unset; del = unset_del })
                  ∷ var_code n
                  ∷ [])
                s (apply (pop_to x) (q, s.vars)))
            (ap or_zero h)
            (elim (get_head_lem (av_ctx (s.arrays i)) q rep) [
              | inl (e, g) ↦ rw e (
                  out-Leaves w stale i unset_del op_head (or_zero (variable_index x)) s []
                    (av_ctx (s.arrays i)) [] _ g refl (rw e at rep))
              | inr (y, rest, c, e, g, r) ↦
                  rw (e, apply, split_last-append rest y)
                    (out-Leaves w stale i unset_del op_head (or_zero (variable_index x)) s y c rest
                      _ g refl r)
            ])

      shift-Leaves :
          (x : Bytes) (k : ℕ) (s : Machine V) (q : List Bytes)
          → variable_index x ≡ some k
          → Represents (av_ctx (s.arrays i)) q
          → Leaves w stale i
              (get_code av_handler
                  (record { op = op_tail; index = some i; joinx = unset; del = unset_del })
                ∷ var_code k
                ∷ [])
              s
              (apply (shift_to x) (q, s.vars))
      unfolding get_handler
      shift-Leaves x k s q h rep =
          subst
            (λ n.
              Leaves w stale i
                (get_code av_handler
                    (record { op = op_tail; index = some i; joinx = unset; del = unset_del })
                  ∷ var_code n
                  ∷ [])
                s (apply (shift_to x) (q, s.vars)))
            (ap or_zero h)
            (elim (get_tail_lem (av_ctx (s.arrays i)) q rep) [
              | inl (e, g) ↦ rw e (
                  out-Leaves w stale i unset_del op_tail (or_zero (variable_index x)) s []
                    (av_ctx (s.arrays i)) [] _ g refl (rw e at rep))
              | inr (y, rest, c, e, g, r) ↦ rw e (
                  out-Leaves w stale i unset_del op_tail (or_zero (variable_index x)) s y c rest _ g
                    refl r)
            ])

      -- One directive.
      abbrev Runs : Directive → Type 0
      Runs d =
          (cs : List Code) × (codes_of d ≡ ok cs)
          × ((s : Machine V) (q : List Bytes)
              → Represents (av_ctx (s.arrays i)) q
              → Leaves w stale i cs s (apply d (q, s.vars)))

      codes_of-Runs : (d : Directive) → Accepted d → Runs d
      codes_of-Runs (unshift t) h = (_, in_codes t h, unshift-Leaves t)
      codes_of-Runs (pop_to x) p = (_, out_codes x op_head p, λ s q. pop-Leaves x p.k s q p.index)
      codes_of-Runs (shift_to x) p =
          (_, out_codes x op_tail p, λ s q. shift-Leaves x p.k s q p.index)

      all_run :
          (ds : List Directive)
          → AllAccepted ds
          → (cs : List Code) × (all_codes ds ≡ ok cs)
            × ((s : Machine V) (q : List Bytes)
                → Represents (av_ctx (s.arrays i)) q
                → Leaves w stale i cs s (apply_all ds (q, s.vars)))
      unfolding exec
      all_run [] h = ([], refl, λ s q rep. (s, refl, refl, refl, rep))
      all_run (d ∷ ds) (hd, hs) =
          let (c, e, run) = codes_of-Runs d hd in
          let (cs, es, rest) = all_run ds hs in
          (
            c ++ cs,
            >>=-ok (codes_of d) _ e (>>=-ok (all_codes ds) _ es refl),
            λ s q rep.
                let st = apply d (q, s.vars) in
                let (s1, r1, k1, v1, rep1) = run s q rep in
                let (s2, r2, k2, v2, rep2) = rest s1 st.0 rep1 in
                (
                  s2,
                  exec-append w stale i c cs s s1 r1 ∙ r2,
                  k2 ∙ k1,
                  v2 ∙ ap (λ v. (apply_all ds (st.0, v)).1) v1,
                  subst (λ v. Represents (av_ctx (s2.arrays i)) (apply_all ds (st.0, v)).0) v1 rep2,
                ),
          )

      -- Any sequence of unshift_array, pop_array and shift_array on a declared array, with texts that
      -- compile and plain variables, is accepted where the allocations succeed. Its codes, run from
      -- a state in which the array stands for a sequence of values, leave the stack as it was, give
      -- each variable what the accesses give on the sequence, with the empty string where it is
      -- empty, and leave the array standing for what is left. They never leave the arrays.
      pub exec-all_codes :
          (ds : List Directive) (s : Machine V) (q : List Bytes)
          → AllAccepted ds
          → Represents (av_ctx (s.arrays i)) q
          → (cs : List Code) × (all_codes ds ≡ ok cs)
            × Leaves w stale i cs s (apply_all ds (q, s.vars))
      exec-all_codes ds s q h rep = let (cs, e, run) = all_run ds h in (cs, e, run s q rep)
