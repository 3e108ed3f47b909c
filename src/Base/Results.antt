-- ===== src/Base/Results.antt =====
-- The errors that the modelled code returns, and a result that is a value or an error.
use mathlib.Core.Path.{◌≡◌, refl, ap}
use mathlib.Core.List.{[]}
use mathlib.Core.Logic.{◌⊎◌, inl, inr}
use hairpin.Base.Strings.{Bytes, text}

-- `external` is an error of code that is not modelled, with its text.
pub data Error : Type 0 where
  not_found conflict no_update bad_page_token index_out_of_range : Error
  invalid_argument not_connected already_connected tx_failed : Error
  external : Bytes → Error

-- `%v` of an error: the text of one from outside, or of a session that is gone.
unfoldable pub error_text : Error → Bytes
error_text (external t) = t
error_text not_connected = text "no live harness session for job"
error_text _ = []

pub data Result {ℓ} (A : Type ℓ) : Type ℓ where
  ok : A → Result A
  err : Error → Result A

pub Result-cases {ℓ} :
    {A : Type ℓ} (r : Result A) → ((a : A) × (r ≡ ok a)) ⊎ ((e : Error) × (r ≡ err e))
Result-cases (ok a) = inl (a, refl)
Result-cases (err e) = inr (e, refl)

infixl 5 ◌>>=◌ ◌>>◌
-- The first error ends the chain.
abbrev pub ◌>>=◌ {ℓ κ} : {A : Type ℓ} {B : Type κ} → Result A → (A → Result B) → Result B
err e >>= next = err e
ok a >>= next = next a

abbrev pub ◌>>◌ {ℓ} : {B : Type ℓ} → Result (Unit {0}) → Result B → Result B
r >> next = r >>= λ u. next

-- A chain that ends well went through its first part.
pub ok_of_bind :
    {A B : Type 0} (m : Result A) (f : A → Result B) (b : B)
    → (m >>= f) ≡ ok b
    → (a : A) × (m ≡ ok a) × (f a ≡ ok b)
ok_of_bind (ok a) f b h = (a, refl, h)
ok_of_bind (err e) f b h = absurd cc

module _ {A : Type 0} where
  value_or : A → Result A → A
  value_or a (ok b) = b
  value_or a (err e) = a

  pub ok-injective : (a b : A) → ok a ≡ ok b → a ≡ b
  unfolding value_or
  ok-injective a b h = ap (value_or a) h
