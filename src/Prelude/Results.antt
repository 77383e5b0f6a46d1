-- ===== src/Prelude/Results.antt =====
-- What a call returns or raises. An exception is an error of the component's own type.
use mathlib.Core.Path.{◌≡◌, refl}
use mathlib.Core.Bool.{Bool, true, false}
use mathlib.Core.Logic.{◌⊎◌, inl, inr}
use native.Mathlib.Omega.{arith}
use nova_harness.Prelude.Tests.{if◌then◌else◌}
use nova_harness.Prelude.Lists.{is_nil}
use nova_harness.Prelude.Texts.{Text, strip, strip-strip, is_blank, is_nil-strip}

pub data Result {ℓ κ} (E : Type ℓ) (A : Type κ) : Type (ℓ ⊔ κ) where
  ok : A → Result E A
  err : E → Result E A

-- An exception ends the statements that follow.
module _ {ℓ κ} {E : Type ℓ} {B : Type κ} where
  infixl 5 ◌>>=◌
  abbrev pub ◌>>=◌ {μ} : {A : Type μ} → Result E A → (A → Result E B) → Result E B
  r >>= next = elim r [ err raised ↦ err raised | ok value ↦ next value ]

  infixl 5 ◌>>◌
  abbrev pub ◌>>◌ : Result E (Unit {0}) → Result E B → Result E B
  check >> rest = check >>= λ _. rest

  -- Statements that return have a first one that returns.
  pub >>=-eq-ok {μ} :
      {A : Type μ} {out : B} (r : Result E A) (next : A → Result E B)
      → (r >>= next) ≡ ok out
      → (value : A) × (r ≡ ok value) × (next value ≡ ok out)
  >>=-eq-ok (err raised) next returned = cc
  >>=-eq-ok (ok value) next returned = (value, refl, returned)

module _ {ℓ} {E : Type ℓ} where
  -- `if test: raise e`
  abbrev pub refuse : Bool → E → Result E (Unit {0})
  refuse true e = err e
  refuse false e = ok tt

  -- The validator `value = value.strip(); if not value: raise ...; return value`.
  unfoldable pub required : E → Text → Result E Text
  required e t = let value = strip t in if is_nil value then err e else ok value

  pub required_blank : (e : E) (t : Text) → is_blank t ≡ true → required e t ≡ err e
  unfolding required
  required_blank e t h = ground (arith, is_nil-strip t)

  pub required_solid : (e : E) (t : Text) → is_blank t ≡ false → required e t ≡ ok (strip t)
  unfolding required
  required_solid e t h = ground (arith, is_nil-strip t)

  pub required-ok :
      (e : E) (t : Text) {value : Text}
      → required e t ≡ ok value
      → (is_blank t ≡ false) × (value ≡ strip t)
  unfolding required
  required-ok e t h = (ground (arith, is_nil-strip t), ground arith)

  -- What the validator returns is stripped and not empty, and such a text is returned as it is.
  pub required-normal :
      (e : E) (t : Text) {value : Text}
      → required e t ≡ ok value
      → (strip value ≡ value) × (is_nil value ≡ false)
  unfolding required
  required-normal e t h = (cc (strip-strip t, (required-ok e t h).1), ground arith)

  pub required_normal : (e : E) (t : Text) → strip t ≡ t → is_nil t ≡ false → required e t ≡ ok t
  unfolding required
  required_normal e t stripped solid = rw (stripped, solid)

pub Result-cases {ℓ κ} :
    {E : Type ℓ} {A : Type κ} (r : Result E A) → ((a : A) × (r ≡ ok a)) ⊎ ((e : E) × (r ≡ err e))
Result-cases (ok a) = inl (a, refl)
Result-cases (err e) = inr (e, refl)
