-- ===== src/Prelude/Tests.antt =====
-- Boolean tests: on numbers, and Python's `==` as an interface over a decision.
use Prim.Native.Nat.{ℕ, compare, Ordering}
use mathlib.Core.Path.{◌≡◌, refl}
use mathlib.Core.Logic.{◌⊎◌, inl, inr}
use mathlib.Core.Bool.{Bool, true, false}
use mathlib.Core.Option.{Option, none, some}
use native.Mathlib.Omega.{arith}
use native.Mathlib.Decide.{ℕ_discrete}

abbrev pub ltb : ℕ → ℕ → Bool
ltb a b = elim (compare a b) [ Ordering.lt ↦ true | _ ↦ false ]

abbrev pub leb : ℕ → ℕ → Bool
leb a b = elim (compare a b) [ Ordering.gt ↦ false | _ ↦ true ]

infix 1 if◌then◌else◌
abbrev pub if◌then◌else◌ {ℓ} : {A : Type ℓ} → Bool → A → A → A
if true then x else y = x
if false then x else y = y

abbrev pub is_yes {ℓ} : {P : Type ℓ} → Dec P → Bool
is_yes (yes p) = true
is_yes (no n) = false

-- Types whose values the program compares.
pub record Eq {κ} (K : Type κ) : Type κ where
  pub eq? : Discrete K

infix 50 ◌==◌
abbrev pub ◌==◌ {κ} : {K : Type κ} ⦃decides : Eq K⦄ → K → K → Bool
◌==◌ ⦃decides⦄ x y = is_yes (decides.eq? x y)

instance abbrev pub nat_eq : Eq ℕ
nat_eq = record { eq? = ℕ_discrete }

module _ {ℓ} {A : Type ℓ} ⦃e : Eq A⦄ where
  pub ==_sound : (x y : A) → (x == y) ≡ true → x ≡ y
  ==_sound x y h = ground arith

  pub ==_refl : (x : A) → (x == x) ≡ true
  ==_refl x = ground arith

pub Bool-cases : (b : Bool) → (b ≡ true) ⊎ (b ≡ false)
Bool-cases true = inl refl
Bool-cases false = inr refl

pub Option-cases {ℓ} : {A : Type ℓ} (o : Option A) → (o ≡ none) ⊎ ((a : A) × (o ≡ some a))
Option-cases none = inl refl
Option-cases (some a) = inr (a, refl)

-- `x is not None`
abbrev pub is_some {ℓ} : {A : Type ℓ} → Option A → Bool
is_some none = false
is_some (some a) = true
