-- ===== src/Mcm/Filter/Chunks.antt =====
-- However the answer is cut into reads, the client gets the value followed by the suffix.
use native.Mathlib.Decide.{dec_le, dec_lt}
use ngxmp.Base.{
  ℕ, suc, ◌+◌, ◌-◌, ◌<◌, ◌≤◌, ◌^◌, ◌≡◌, ◌≢◌, refl, sym, ap, ◌∙◌, Bool, true, false, some, List, [],
  ◌∷◌, ◌++◌, Bytes, length, length-append, take-append, concat, concat-append, append_assoc,
  append-nil, arith, All, append_split, length-eq-zero, pos-length, strncmp_eq, drop, take,
}
use ngxmp.Mcm.{Variable, mc_end, mc_end_len}
use ngxmp.Mcm.Filter.{
  Status, ok, Upstream, Read, link, add_suffix, check_trailer, filter_trailer, cut_last,
  filter_last, filter, run,
}

abbrev pub chunks : List Read → Bytes
chunks [] = []
chunks (rd ∷ rds) = rd.chunk ++ chunks rds

-- A read that brings at least one byte, with memory for both buffers.
abbrev pub Served : Read → Type 0
Served rd = (rd.chunk ≢ []) × (rd.alloc ≡ true) × (rd.alloc_suffix ≡ true)

-- The filter has ended well, and the client is sent `text`.
pub record Done (text : Bytes) (r : Status × Upstream) : Type 0 where
  pub fine : r.0 ≡ ok
  pub finished : r.1.length ≡ 0
  pub sent : concat r.1.out ≡ text

concat-link : (b : Bytes) (u : Upstream) → concat (link b u).out ≡ concat u.out ++ b
unfolding link
concat-link b u = concat-append u.out (b ∷ []) ∙ ap (◌++◌ (concat u.out)) (append-nil b)

out-check_trailer : (g : Bool) (u : Upstream) → (check_trailer g u).out ≡ u.out
unfolding check_trailer
out-check_trailer true u = refl
out-check_trailer false u = refl

length-check_trailer : (g : Bool) (u : Upstream) → (check_trailer g u).length ≡ u.length
unfolding check_trailer
length-check_trailer true u = refl
length-check_trailer false u = refl

module _ (sv : Variable) (there : sv.not_found ≡ false) where
  add_suffix-Done :
      (u : Upstream) {text : Bytes}
      → u.length ≡ 0
      → concat u.out ≡ text
      → Done (text ++ sv.text) (add_suffix (some sv) true u)
  unfolding add_suffix link
  add_suffix-Done u {text} z w =
      ground (arith, there, length-eq-zero sv.text, append-nil text, concat-link sv.text u)

  -- Past its end the loop changes nothing.
  run-finished : (rds : List Read) (u : Upstream) → u.length ≡ 0 → run (some sv) rds u ≡ (ok, u)
  unfolding run
  run-finished [] u z = refl
  run-finished (rd ∷ rds) u z = rw z

  run-step :
      (rd : Read) (rds : List Read) (u u' : Upstream)
      → u.length ≢ 0
      → filter (some sv) rd u ≡ (ok, u')
      → run (some sv) (rd ∷ rds) u ≡ run (some sv) rds u'
  unfolding run
  run-step rd rds u u' n e = ground arith

  -- A call of the filter that is the last one.
  run-last :
      (rd : Read) (rds : List Read) (u : Upstream) {text : Bytes}
      → u.length ≢ 0
      → Done text (filter (some sv) rd u)
      → Done text (run (some sv) (rd ∷ rds) u)
  run-last rd rds u n d =
      rw
        (run-step rd rds u (filter (some sv) rd u).1 n
          (ap (λ s. (s, (filter (some sv) rd u).1)) d.fine))
        (rw (run-finished rds (filter (some sv) rd u).1 d.finished)
          (record { fine = refl; finished = d.finished; sent = d.sent }))

  filter-eq-filter_trailer :
      (rd : Read) (u : Upstream)
      → u.length ≡ u.rest
      → filter (some sv) rd u ≡ filter_trailer (some sv) rd u
  unfolding filter
  filter-eq-filter_trailer rd u e = ground arith

  filter_trailer-Done :
      (rd : Read) (u : Upstream)
      → rd.alloc_suffix ≡ true
      → Done (concat u.out ++ sv.text) (filter_trailer (some sv) rd u)
  unfolding filter_trailer
  filter_trailer-Done rd u a =
      let good = strncmp_eq (rd.chunk ++ rd.stale) (drop (mc_end_len - u.rest) mc_end) in
      let u' = record (check_trailer good u) { length = 0; rest = 0 } in
      rw a (add_suffix-Done u' refl (ap concat (out-check_trailer good u)))

  run-trailer :
      (rds : List Read) (u : Upstream)
      → All Served rds
      → u.length ≡ u.rest
      → u.length ≢ 0
      → length (chunks rds) ≡ u.length
      → Done (concat u.out ++ sv.text) (run (some sv) rds u)
  run-trailer [] u h e n c = absurd (omega arith)
  run-trailer (rd ∷ rds) u (h, hs) e n c =
      run-last rd rds u n (rw (filter-eq-filter_trailer rd u e) (filter_trailer-Done rd u h.2))

  -- A read that ends in the value, or right behind it.
  filter-inside :
      (rd : Read) (u : Upstream)
      → rd.alloc ≡ true
      → u.rest ≡ 7
      → length rd.chunk + 7 ≤ u.length
      → rd.chunk ≢ []
      → u.length < 2 ^ 64
      → filter (some sv) rd u
        ≡ (ok, record (link rd.chunk u) { length = u.length - length rd.chunk })
  unfolding filter
  filter-inside rd u a r f ne b = ground (arith, length-eq-zero rd.chunk)

  -- The read that reaches into the trailer.
  filter-eq-filter_last :
      (rd : Read) (u : Upstream)
      → rd.alloc ≡ true
      → u.rest ≡ 7
      → 7 < u.length
      → u.length < length rd.chunk + 7
      → filter (some sv) rd u ≡ filter_last (some sv) rd u
  unfolding filter
  filter-eq-filter_last rd u a r l h = ground arith

  -- It brings the last of the value, and `over` bytes of the trailer.
  length-cut_last :
      (rd : Read) (u : Upstream) (over : ℕ)
      → u.rest ≡ 7
      → 7 < u.length
      → length rd.chunk + 7 ≡ u.length + over
      → over ≤ 7
      → ((cut_last rd u).length ≡ 7 - over) × ((cut_last rd u).rest ≡ 7 - over)
  unfolding cut_last
  length-cut_last rd u over r l h o = omega arith

  out-cut_last :
      (rd : Read) (u : Upstream)
      → concat (cut_last rd u).out ≡ concat u.out ++ take (u.length - 7) rd.chunk
  unfolding cut_last
  out-cut_last rd u =
      let good = strncmp_eq _ _ in
      concat-link (take (u.length - 7) rd.chunk) (check_trailer good u)
      ∙ ap (λ o. concat o ++ take (u.length - 7) rd.chunk) (out-check_trailer good u)

  filter_last-whole :
      (rd : Read) (u : Upstream)
      → (cut_last rd u).length ≡ 0
      → filter_last (some sv) rd u ≡ add_suffix (some sv) rd.alloc_suffix (cut_last rd u)
  unfolding filter_last
  filter_last-whole rd u z = ground arith

  filter_last-part :
      (rd : Read) (u : Upstream)
      → (cut_last rd u).length ≢ 0
      → filter_last (some sv) rd u ≡ (ok, cut_last rd u)
  unfolding filter_last
  filter_last-part rd u z = ground arith

  out-cut_last_value :
      (rd : Read) (u : Upstream) (v m : Bytes)
      → rd.chunk ≡ v ++ m
      → u.length ≡ length v + 7
      → concat (cut_last rd u).out ≡ concat u.out ++ v
  out-cut_last_value rd u v m c l =
      let front : take (u.length - 7) rd.chunk ≡ v =
        rw c (ap (λ n. take n (v ++ m)) (omega arith) ∙ take-append v m) in
      out-cut_last rd u ∙ ap (◌++◌ (concat u.out)) front

  -- All of the trailer comes with the last of the value.
  filter_whole-Done :
      (rd : Read) (u : Upstream) (v m : Bytes)
      → Served rd
      → rd.chunk ≡ v ++ m
      → length m ≡ 7
      → u.length ≡ length v + 7
      → 0 < length v
      → u.rest ≡ 7
      → Done ((concat u.out ++ v) ++ sv.text) (filter (some sv) rd u)
  unfolding cut_last
  filter_whole-Done rd u v m h c k l nv r =
      let size = ap length c ∙ length-append v m in
      let z : (cut_last rd u).length ≡ 0 =
        (length-cut_last rd u 7 r (omega arith) (omega arith) (omega arith)).0 in
      rw (filter-eq-filter_last rd u h.1 r (omega arith) (omega arith)) (
        rw (filter_last-whole rd u z)
          (rw h.2 (add_suffix-Done (cut_last rd u) z (out-cut_last_value rd u v m c l))))

  -- Some of it does; the rest of the trailer comes later.
  run_part-Done :
      (rd : Read) (rds : List Read) (u : Upstream) (v m : Bytes)
      → All Served (rd ∷ rds)
      → rd.chunk ≡ v ++ m
      → length m < 7
      → 0 < length m
      → length m + length (chunks rds) ≡ 7
      → u.length ≡ length v + 7
      → 0 < length v
      → u.rest ≡ 7
      → Done ((concat u.out ++ v) ++ sv.text) (run (some sv) (rd ∷ rds) u)
  run_part-Done rd rds u v m (h, hs) c lm pm k l nv r =
      let size = ap length c ∙ length-append v m in
      let cut = length-cut_last rd u (length m) r (omega arith) (omega arith) (omega arith) in
      let last = filter-eq-filter_last rd u h.1 r (omega arith) (omega arith) in
      let went = filter_last-part rd u (omega arith) in
      rw
        (
          run-step rd rds u (cut_last rd u) (omega arith) (last ∙ went),
          ← out-cut_last_value rd u v m c l,
        )
        (run-trailer rds (cut_last rd u) hs (omega arith) (omega arith) (omega arith))

  -- The read that ends in the trailer, and what follows it. `v` is what was left of the value.
  run_over :
      (rd : Read) (rds : List Read) (u : Upstream) (v t m : Bytes)
      → All Served (rd ∷ rds)
      → rd.chunk ≡ v ++ m
      → t ≡ m ++ chunks rds
      → m ≢ []
      → length t ≡ 7
      → u.length ≡ length v + 7
      → v ≢ []
      → u.rest ≡ 7
      → Done ((concat u.out ++ v) ++ sv.text) (run (some sv) (rd ∷ rds) u)
  run_over rd rds u v t m (h, hs) c e ne k l nv r =
      let size = ap length e ∙ length-append m (chunks rds) in
      let full = λ (q : length m ≡ 7).
        run-last rd rds u (omega arith) (filter_whole-Done rd u v m h c q l (pos-length v nv) r) in
      elim (dec_lt (length m) 7) [
        | yes q ↦
            run_part-Done rd rds u v m (h, hs) c q (pos-length m ne) (omega arith) l
              (pos-length v nv) r
        | no q ↦ full (omega arith)
      ]

  -- From a state in which a part of the value is left and the reads bring that part and seven
  -- bytes of trailer: with allocations that succeed the filter ends well, and the client gets that
  -- part and the suffix behind what it had, wherever the reads cut the two.
  pub run-Done :
      (rds : List Read) (u : Upstream) (v t : Bytes)
      → All Served rds
      → chunks rds ≡ v ++ t
      → length t ≡ 7
      → u.length ≡ length v + 7
      → u.rest ≡ 7
      → u.length < 2 ^ 64
      → Done ((concat u.out ++ v) ++ sv.text) (run (some sv) rds u)
  unfolding link
  run-Done [] u v t h e k l r b = absurd (omega (arith, ap length e, length-append v t))
  run-Done (rd ∷ rds) u [] t h e k l r b =
      rw append-nil
        (run-trailer (rd ∷ rds) u h (omega arith) (omega arith) (omega (arith, ap length e)))
  run-Done (rd ∷ rds) u (x ∷ v) t (h, hs) e k l r b =
      elim (dec_le (length rd.chunk) (suc (length v))) [
        | yes inside ↦
            let (w, p, q) = append_split rd.chunk (chunks rds) (x ∷ v) t e (omega arith) in
            let size = ap length p ∙ length-append rd.chunk w in
            let step = filter-inside rd u h.1 r (omega arith) h.0 b in
            let u' = record (link rd.chunk u) { length = u.length - length rd.chunk } in
            rw
              (
                run-step rd rds u u' (omega arith) step,
                p,
                ← append_assoc (concat u.out) rd.chunk w,
                ← concat-link rd.chunk u,
              )
              (run-Done rds u' w t hs q k (omega arith) (omega arith) (omega arith))
        | no over ↦
            let (m, p, q) = append_split (x ∷ v) t rd.chunk (chunks rds) (sym e) (omega arith) in
            run_over rd rds u (x ∷ v) t m (h, hs) p q
              (λ z. over (omega (arith, ap length p, length-append (x ∷ v) m, ap length z))) k l
              (λ z. cc z) r
      ]
