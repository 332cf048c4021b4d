-- ===== src/Util/Conf.antt =====
-- What a directive of a module gives while the configuration is read.
use ngxmp.Base.{◌≡◌, refl, ap, ◌∙◌, Bool, true, false, Option, none, some, Bytes, codes}
use ngxmp.Util.VarName.{var_name}

-- NGX_CONF_OK with what was made, a message, NGX_CONF_ERROR, or an access outside an array or
-- through NULL.
pub data Conf {ℓ} (A : Type ℓ) : Type ℓ where
  ok : A → Conf A
  message : Bytes → Conf A
  conf_error : Conf A
  wild : Conf A

infixl 5 ◌>>=◌
abbrev pub ◌>>=◌ {ℓ κ} : {A : Type ℓ} {B : Type κ} → Conf A → (A → Conf B) → Conf B
wild >>= k = wild
conf_error >>= k = conf_error
message m >>= k = message m
ok x >>= k = k x

-- A directive that is accepted has passed each of its steps.
pub >>=-eq-ok {ℓ κ} :
    {A : Type ℓ} {B : Type κ} (step : Conf A) (k : A → Conf B) {made : B}
    → (step >>= k) ≡ ok made
    → (x : A) × (step ≡ ok x) × (k x ≡ ok made)
>>=-eq-ok wild k h = absurd (cc h)
>>=-eq-ok conf_error k h = absurd (cc h)
>>=-eq-ok (message m) k h = absurd (cc h)
>>=-eq-ok (ok x) k h = (x, refl, h)

-- An argument of the directive; behind the last one there is no check.
abbrev pub arg {ℓ} : {A : Type ℓ} → Option A → Conf A
arg none = wild
arg (some a) = ok a

abbrev pub or_error {ℓ} : {A : Type ℓ} → Option A → Conf A
or_error none = conf_error
or_error (some a) = ok a

abbrev pub or_message {ℓ} : {A : Type ℓ} → Bytes → Option A → Conf A
or_message m none = message m
or_message m (some a) = ok a

-- `if (test) { return "m"; }`
abbrev pub return_if : Bool → Bytes → Conf (Unit {0})
return_if true m = message m
return_if false m = ok tt

pub return_if-ok : (b : Bool) (m : Bytes) → return_if b m ≡ ok tt → b ≡ false
return_if-ok true m h = absurd (cc h)
return_if-ok false m h = refl

-- `ngx_http_get_var_name_str`
unfoldable pub name_of : Bytes → Conf Bytes
unfolding var_name
name_of v = or_message (codes "found invalid variable name") (var_name v)

pub or_error-ok : {A : Type 0} (o : Option A) {a : A} → or_error o ≡ ok a → o ≡ some a
or_error-ok none h = absurd (cc h)
or_error-ok (some x) h = cc h

pub >>=-ok {ℓ κ} :
    {A : Type ℓ} {B : Type κ} (m : Conf A) (f : A → Conf B) {a : A} {r : Conf B}
    → m ≡ ok a
    → f a ≡ r
    → (m >>= f) ≡ r
>>=-ok m f e h = ap (λ x. x >>= f) e ∙ h

pub ok-injective {ℓ} : {A : Type ℓ} {a b : A} → ok a ≡ ok b → a ≡ b
ok-injective h = cc h
