-- ===== src/Arrayv/Directives/Steps.antt =====
-- Steps of the script codes of c/ngx_http_arrayv_module/ngx_http_arrayv_module.c on a machine: codes
-- behind each other, and a value that goes from an array to a variable.
use ngxmp.Base.{
  ℕ, ◌≡◌, refl, sym, ap, subst, ◌∙◌, Option, none, some, List, [], ◌∷◌, ◌++◌, ==_self, Bytes,
  Option-cases, inl, inr,
}
use ngxmp.Arrayv.{Op, Ctx, Got, av_ctx, get_handler}
use ngxmp.Arrayv.Deque.{Represents}
use ngxmp.Arrayv.Directives.{av_handler, unset, Code, get_code, var_code}
use ngxmp.Arrayv.Directives.Script.{
  World, Machine, update, pushed, run_get, exec_code, exec, lines_of,
}

module _ {V : Type 0} (w : World V) (stale : Bytes) (i : ℕ) where
  -- The state of a request that comes out of another one, for a sequence and variables.
  abbrev pub Leaves : List Code → Machine V → List Bytes × V → Type 0
  Leaves cs s st =
      (s' : Machine V) × (exec w stale cs s ≡ some s')
      × (s'.stack ≡ s.stack)
      × (s'.vars ≡ st.1)
      × Represents (av_ctx (s'.arrays i)) st.0

  pub update_self : (f : ℕ → Option Ctx) (c : Ctx) → update f i c i ≡ some c
  update_self f c = rw (update, ==_self i) refl

  pub exec-append :
      (cs ds : List Code) (s t : Machine V)
      → exec w stale cs s ≡ some t
      → exec w stale (cs ++ ds) s ≡ exec w stale ds t
  unfolding exec
  exec-append [] ds s t h = ap (λ o. elim o [ none ↦ none | some s' ↦ exec w stale ds s' ]) h
  exec-append (c ∷ cs) ds s t h = elim (Option-cases (exec_code w stale c s)) [
    | inl e ↦ absurd (cc (rw (exec, e) at h))
    | inr (s', e) ↦ rw (exec, e) (exec-append cs ds s' t (rw (exec, e) at h))
  ]

  -- A value that the array gives goes to the variable.
  pub out-Leaves :
      (unset_del : ℕ) (op : Op) (k : ℕ) (s : Machine V) (x : Bytes) (c : Ctx) (q : List Bytes)
      (g : Got)
      → get_handler w.alloc (lines_of unset) op (s.arrays i) ≡ g
      → pushed w stale i g s ≡ some (record s { stack = x ∷ s.stack; arrays = update s.arrays i c })
      → Represents c q
      → Leaves
          (get_code av_handler (record { op = op; index = some i; joinx = unset; del = unset_del })
            ∷ var_code k
            ∷ [])
          s
          (q, w.store_var k x s.vars)
  unfolding exec exec_code run_get av_ctx
  out-Leaves unset_del op k s x c q g e p rep = (
    record s { vars = w.store_var k x s.vars; arrays = update s.arrays i c },
    ap
          (λ g'. elim (pushed w stale i g' s) [
            | none ↦ none
            | some s' ↦ exec w stale (var_code k ∷ []) s'
          ])
          e
        ∙ ap (λ o. elim o [ none ↦ none | some s' ↦ exec w stale (var_code k ∷ []) s' ]) p,
    refl,
    refl,
    subst (λ o. Represents (av_ctx o) q) (sym (update_self s.arrays c)) rep,
  )
