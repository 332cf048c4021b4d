-- ===== src/ListVar/Random.antt =====
-- `getranditem` of c/ngx_http_list_module/ngx_http_list_module.c gives a word that is not empty.
use ngxmp.Base.{
  ℕ, zero, suc, ◌+◌, ◌-◌, ◌%◌, ◌≤◌, ◌<◌, ◌≡◌, ◌≢◌, refl, sym, ap, ◌∙◌, none, some, List, [], ◌∷◌,
  ◌++◌, ◌==◌, Bool-cases, ltb, ltb→lt, ==→eq, Option-cases, ==_self, inl, inr, get_elem?, take,
  drop, Bytes, length, arith, All,
}
use ngxmp.Util.Tokens.{next_tok}
use ngxmp.ListVar.{scan_back, rand_item}

scan_back_bounds : (delim : ℕ) (raw : Bytes) (k : ℕ) → scan_back delim raw k ≤ k
unfolding scan_back
scan_back_bounds delim raw zero = omega arith
scan_back_bounds delim raw (suc k) = ground (arith, scan_back_bounds delim raw k)

get_elem-All :
    (delim : ℕ) (raw : Bytes) (k x : ℕ)
    → All (λ y. y ≡ delim) raw
    → get_elem? raw k ≡ some x
    → x ≡ delim
get_elem-All delim [] k x h e = absurd (cc e)
get_elem-All delim (y ∷ raw) zero x (h, hs) e = cc
get_elem-All delim (y ∷ raw) (suc k) x (h, hs) e = get_elem-All delim raw k x hs e

next_tok-other :
    (delim : ℕ) (xs : Bytes) (n x : ℕ)
    → get_elem? xs n ≡ some x
    → x ≢ delim
    → 1 ≤ next_tok delim (drop n xs)
unfolding next_tok
next_tok-other delim [] n x h ne = absurd (cc h)
next_tok-other delim (y ∷ xs) zero x h ne = ground arith
next_tok-other delim (y ∷ xs) (suc n) x h ne = next_tok-other delim xs n x h ne

-- A draw at a byte that is no delimiter ends the loop of getranditem, whatever was drawn before.
pub rand_item-ends :
    (delim : ℕ) (raw : Bytes) (before after : List ℕ) (r x : ℕ)
    → get_elem? raw (r % length raw) ≡ some x
    → x ≢ delim
    → rand_item delim raw (before ++ r ∷ after) ≢ none
unfolding rand_item
rand_item-ends delim raw [] after r x h ne =
    let a = scan_back_bounds delim raw (r % length raw) in
    let b = next_tok-other delim raw (r % length raw) x h ne in ground (arith, a, b)
rand_item-ends delim raw (q ∷ before) after r x h ne =
    ground (arith, rand_item-ends delim raw before after r x h ne)

module _ (delim : ℕ) where
  scan_back-delims : (raw : Bytes) (k : ℕ) → All (λ y. y ≡ delim) raw → scan_back delim raw k ≡ k
  unfolding scan_back
  scan_back-delims raw zero h = refl
  scan_back-delims raw (suc k) h = elim (Option-cases (get_elem? raw k)) [
    | inl e ↦ rw (scan_back, e) refl
    | inr (x, e) ↦ rw (scan_back, e, get_elem-All delim raw k x h e, ==_self delim) refl
  ]

  next_tok-delims :
      (raw : Bytes) (n : ℕ) → All (λ y. y ≡ delim) raw → next_tok delim (drop n raw) ≡ 0
  unfolding next_tok
  next_tok-delims [] zero h = refl
  next_tok-delims [] (suc n) h = refl
  next_tok-delims (x ∷ xs) zero (h, hs) = ground arith
  next_tok-delims (x ∷ xs) (suc n) (h, hs) = next_tok-delims xs n hs

  -- In a list of delimiters alone no draw ever ends the loop of getranditem.
  pub rand_item-delims :
      (raw : Bytes) (draws : List ℕ) → All (λ y. y ≡ delim) raw → rand_item delim raw draws ≡ none
  unfolding rand_item
  rand_item-delims raw [] h = refl
  rand_item-delims raw (r ∷ draws) h =
      let ran = r % length raw in
      rw (scan_back-delims raw ran h, next_tok-delims raw ran h)
        (ground (arith, rand_item-delims raw draws h))

  scan_back_lem :
      (raw : Bytes) (k i : ℕ) → scan_back delim raw k ≤ i → i < k → get_elem? raw i ≢ some delim
  unfolding scan_back
  scan_back_lem raw zero i l u e = absurd (omega arith)
  scan_back_lem raw (suc k) i l u e = elim (Option-cases (get_elem? raw k)) [
    | inl q ↦ let l' : suc k ≤ i = rw (scan_back, q) at l in omega arith
    | inr (x, q) ↦ elim (Bool-cases (x == delim)) [
      | inl t ↦ let l' : suc k ≤ i = rw (scan_back, q, t) at l in omega arith
      | inr t ↦
          let l' : scan_back delim raw k ≤ i = rw (scan_back, q, t) at l in
          elim (Bool-cases (i == k)) [
            | inl s ↦ let s' : i ≡ k = ==→eq i k s in let e' = rw (s', q) at e in ground (arith, e')
            | inr s ↦ scan_back_lem raw k i l' (ground arith) e
          ]
    ]
  ]

  next_tok_lem : (raw : Bytes) (i : ℕ) → i < next_tok delim raw → get_elem? raw i ≢ some delim
  unfolding next_tok
  next_tok_lem [] i u e = absurd (omega arith)
  next_tok_lem (x ∷ xs) zero u e = ground arith
  next_tok_lem (x ∷ xs) (suc i) u e = next_tok_lem xs i (ground arith) e

  get_elem-drop : (raw : Bytes) (n i : ℕ) → get_elem? raw (n + i) ≡ get_elem? (drop n raw) i
  get_elem-drop raw zero i = ap (get_elem? raw) (omega arith)
  get_elem-drop [] (suc n) i = refl
  get_elem-drop (x ∷ raw) (suc n) i =
      ap (get_elem? (x ∷ raw)) {y = suc (n + i)} (omega arith) ∙ get_elem-drop raw n i

  between :
      (raw : Bytes) (ran i : ℕ)
      → scan_back delim raw ran ≤ i
      → i < ran + next_tok delim (drop ran raw)
      → get_elem? raw i ≢ some delim
  between raw ran i l u e = elim (Bool-cases (ltb i ran)) [
    | inl t ↦ scan_back_lem raw ran i l (ltb→lt i ran t) e
    | inr t ↦
        let split : i ≡ ran + (i - ran) = ground arith in
        next_tok_lem (drop ran raw) (i - ran) (ground arith)
          (sym (get_elem-drop raw ran (i - ran)) ∙ ap (get_elem? raw) (sym split) ∙ e)
  ]

  -- A word that getranditem gives is not empty and lies in the list between two offsets, and no
  -- byte between them is a delimiter.
  pub rand_item-eq-some :
      (raw : Bytes) (draws : List ℕ) (w : Bytes)
      → rand_item delim raw draws ≡ some w
      → (a b : ℕ) × (a < b)
        × (w ≡ take (b - a) (drop a raw))
        × ((i : ℕ) → a ≤ i → i < b → get_elem? raw i ≢ some delim)
  unfolding rand_item
  rand_item-eq-some raw [] w h = absurd (cc h)
  rand_item-eq-some raw (r ∷ draws) w h =
      let ran = r % length raw in
      let a = scan_back delim raw ran in
      let b = ran + next_tok delim (drop ran raw) in
      let low = scan_back_bounds delim raw ran in
      elim (Bool-cases (a == b)) [
        | inl t ↦ rand_item-eq-some raw draws w (rw t at h)
        | inr t ↦ (a, b, ground (arith, low), ground (arith, h), between raw ran)
      ]
