-- ===== src/Base/Split.antt =====
-- Splitting a list that is written as a concatenation in two ways.
use Prim.Native.Nat.{◌≤◌, ◌<◌}
use mathlib.Core.Path.{◌≡◌, refl, ap, ◌∙◌, sym}
use mathlib.Core.List.{List, [], ◌∷◌, ◌++◌, head-eq_of_cons-eq, tail-eq_of_cons-eq}
use native.Mathlib.Omega.{arith}
use ngxmp.Base.Lists.{length}

module _ {ℓ} {A : Type ℓ} where
  -- The shorter front is a front of the longer one.
  pub append_split :
      (a b c d : List A)
      → a ++ b ≡ c ++ d
      → length a ≤ length c
      → (m : List A) × (c ≡ a ++ m) × (b ≡ m ++ d)
  append_split [] b c d e h = (c, refl, e)
  append_split (x ∷ a) b [] d e h = absurd (omega arith)
  append_split (x ∷ a) b (y ∷ c) d e h =
      let (m, p, q) = append_split a b c d (tail-eq_of_cons-eq e) (omega arith) in
      (m, ap (λ t. y ∷ t) p ∙ ap (λ z. z ∷ (a ++ m)) (sym (head-eq_of_cons-eq e)), q)

  pub length-eq-zero : (xs : List A) → length xs ≡ 0 → xs ≡ []
  length-eq-zero [] h = refl
  length-eq-zero (x ∷ xs) h = absurd (omega arith)

  pub pos-length : (xs : List A) → (xs ≡ [] → ⊥) → 0 < length xs
  pos-length [] h = absurd (h refl)
  pos-length (x ∷ xs) h = omega arith
