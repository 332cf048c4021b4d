-- ===== src/Util/Tokens.antt =====
-- `next_tok`, `str_to_array_0` and `str_to_array` of c/ngx_util/ngx_util.h.
use ngxmp.Base.{
  ℕ, zero, suc, ◌+◌, ◌-◌, ◌^◌, ◌%◌, ◌<◌, ◌≡◌, ◌≢◌, refl, ap, Bool, true, false, not, Option, none,
  some, List, [], ◌∷◌, ◌++◌, ◌==◌, if◌then◌else◌, Bytes, length, arith, All, drop, ==_self,
  ==-eq-false,
}

-- An element of the array: the offset of its data, and its length as a `size_t`.
pub record Token : Type 0 where
  pub at : ℕ
  pub size : ℕ

-- `next_tok(d, l, del, c)` on the bytes from `c` on: how far it goes.
unfoldable pub next_tok : ℕ → Bytes → ℕ
next_tok del [] = 0
next_tok del (x ∷ xs) = let rest = next_tok del xs in if x == del then 0 else suc rest

abbrev add_token : Token → Option (List Token) → Option (List Token)
add_token t none = none
add_token t (some ts) = some (t ∷ ts)

-- The loop of `str_to_array_0` at offset `i`, with the bytes from there on; `s` is where the token
-- begins and `budget` the number of times that `ngx_array_push` succeeds. NGX_ERROR is `none`.
unfoldable pub push_tokens : ℕ → ℕ → Bytes → ℕ → ℕ → Option (List Token)
push_tokens budget del [] i s = some []
push_tokens zero del (x ∷ xs) i s = none
push_tokens (suc budget) del (x ∷ xs) i s =
    let e = i + next_tok del (x ∷ xs) in
    add_token (record { at = s; size = (e + 2 ^ 64 - s) % 2 ^ 64 })
      (push_tokens budget del (drop (next_tok del (x ∷ xs)) (x ∷ xs)) e (e + 1))

-- `created` tells whether `ngx_array_create` gives the array.
unfoldable pub str_to_array : Bool → ℕ → ℕ → Bytes → Option (List Token)
str_to_array created budget del bytes =
    if not created then none else push_tokens budget del bytes 0 0

next_tok-none : (del : ℕ) (xs : Bytes) → All (λ y. y ≢ del) xs → next_tok del xs ≡ length xs
unfolding next_tok
next_tok-none del [] h = refl
next_tok-none del (x ∷ xs) (h, hs) = ground (arith, next_tok-none del xs hs)

drop-length : (xs : Bytes) → drop (length xs) xs ≡ []
drop-length [] = refl
drop-length (x ∷ xs) = drop-length xs

-- At a delimiter the loop does not move, so every push is made and the last one fails.
push_tokens-stuck :
    (budget del : ℕ) (xs : Bytes) (i s : ℕ) → push_tokens budget del (del ∷ xs) i s ≡ none
unfolding push_tokens next_tok
push_tokens-stuck zero del xs i s = refl
push_tokens-stuck (suc budget) del xs i s =
    rw (==_self del, push_tokens-stuck budget del xs (i + 0) (i + 0 + 1)) refl

drop-next_tok :
    (del : ℕ) (pre post : Bytes)
    → All (λ y. y ≢ del) pre
    → drop (next_tok del (pre ++ del ∷ post)) (pre ++ del ∷ post) ≡ del ∷ post
unfolding next_tok
drop-next_tok del [] post h = rw (==_self del) refl
drop-next_tok del (x ∷ pre) post (h, hs) = rw (==-eq-false x del h) (drop-next_tok del pre post hs)

-- Data that are not empty and hold no delimiter become an array of one string, which is all of
-- them.
pub str_to_array-whole :
    (budget del x : ℕ) (xs : Bytes)
    → All (λ y. y ≢ del) (x ∷ xs)
    → length (x ∷ xs) < 2 ^ 64
    → str_to_array true (suc budget) del (x ∷ xs)
      ≡ some (record { at = 0; size = length (x ∷ xs) } ∷ [])
unfolding str_to_array push_tokens
str_to_array-whole budget del x xs h l =
    rw (next_tok-none del (x ∷ xs) h)
      (rw (drop-length (x ∷ xs)) (ap (λ n. some (record { at = 0; size = n } ∷ [])) (omega arith)))

-- str_to_array fails on data with a delimiter in them, however much memory the array may take.
pub str_to_array-error :
    (created : Bool) (budget del : ℕ) (pre post : Bytes)
    → All (λ y. y ≢ del) pre
    → str_to_array created budget del (pre ++ del ∷ post) ≡ none
unfolding str_to_array
str_to_array-error false budget del pre post h = refl
str_to_array-error true budget del [] post h = push_tokens-stuck budget del post 0 0
str_to_array-error true zero del (x ∷ pre) post h = unfold push_tokens in refl
str_to_array-error true (suc budget) del (x ∷ pre) post h =
    unfold push_tokens in
    rw (drop-next_tok del (x ∷ pre) post h) (rw (push_tokens-stuck budget del post) refl)
