-- ===== src/Prelude/Fields.antt =====
-- The checks that the fields of a pydantic model declare, and what its ValidationError is about.
use mathlib.Core.Path.{◌≡◌, refl, ap, sym, ◌∙◌}
use mathlib.Core.Logic.{◌↔◌}
use mathlib.Core.List.{List, [], ◌∷◌, map}
use native.Mathlib.Omega.{arith}
use mathlib.Core.Bool.{Bool, false, not}
use mathlib.Core.Option.{Option, none, some}
use nova_harness.Prelude.Ints.{ℤ, ltb_ℤ}
use nova_harness.Prelude.Texts.{Text, text_eq, strip, is_blank}
use nova_harness.Prelude.Lists.{All, All-map, mem?}
use nova_harness.Prelude.Seen.{Apart, Apart-cons, Apart-cons_of, Apart-nil, Distinct, Known}
use nova_harness.Prelude.Results.{
  Result, ok, err, refuse, required, required-ok, required_solid, ◌>>◌,
}

-- A blank text, a number out of its range, a list that is too short, an id that stands twice, one
-- that is not there, and a model's own rule, by the name of its validator.
pub data ModelError : Type 0 where
  blank out_of_range too_few : Text → ModelError
  duplicate unknown_reference : Text → Text → ModelError
  refused_by : Text → ModelError

-- `Field(min_length=1)` with the validator that strips and refuses a blank text.
abbrev pub solid : Text → Text → Result ModelError Text
solid field t = required (blank field) t

-- `ge` and `le` of an optional number.
abbrev pub given_below : ℤ → Option ℤ → Bool
given_below least none = false
given_below least (some n) = ltb_ℤ n least

abbrev pub given_above : ℤ → Option ℤ → Bool
given_above most none = false
given_above most (some n) = ltb_ℤ most n

-- `if first is not None: raise ...`, for a loop that looks for a first wrong item.
abbrev pub refuse_first {ℓ} :
    {A : Type ℓ} → (A → ModelError) → Option A → Result ModelError (Unit {0})
refuse_first wrong none = ok tt
refuse_first wrong (some a) = err (wrong a)

-- `for x in xs: ...`, whose body may raise.
unfoldable pub check_every {ℓ} :
    {A : Type ℓ} → (A → Result ModelError (Unit {0})) → List A → Result ModelError (Unit {0})
check_every check [] = ok tt
check_every check (x ∷ xs) = let rest = check_every check xs in check x >> rest

-- The same, where first `if key(x) in seen: raise ...` and `seen.add(key(x))`.
unfoldable pub check_distinct {ℓ} :
    {A : Type ℓ}
    → (A → Text)
    → Text
    → (A → Result ModelError (Unit {0}))
    → List Text
    → List A
    → Result ModelError (Unit {0})
check_distinct key field check seen [] = ok tt
check_distinct key field check seen (x ∷ xs) =
    let rest = check_distinct key field check (key x ∷ seen) xs in
    refuse (mem? (key x) seen) (duplicate field (key x)) >> check x >> rest

module _ {ℓ} {A : Type ℓ} (check : A → Result ModelError (Unit {0})) where
  pub check_every_iff :
      (xs : List A) → (check_every check xs ≡ ok tt) ↔ All (λ x. check x ≡ ok tt) xs
  unfolding check_every
  check_every_iff [] = ((λ h. tt), (λ a. refl))
  check_every_iff (x ∷ xs) =
      let ih = check_every_iff xs in
      ((λ h. (ground arith, ih.0 (ground arith))), (λ a. ground (arith, ih.1 a.1, a.0)))

  pub check_every_means {κ} :
      {P : A → Type κ} (xs : List A)
      → ((x : A) → (check x ≡ ok tt) ↔ P x)
      → (check_every check xs ≡ ok tt) ↔ All P xs
  check_every_means xs means = (
    (λ h. All-map xs (λ x. (means x).0) ((check_every_iff xs).0 h)),
    (λ a. (check_every_iff xs).1 (All-map xs (λ x. (means x).1) a)),
  )

  module _ (key : A → Text) (field : Text) where
    check_each_sound :
        (seen : List Text) (xs : List A)
        → check_distinct key field check seen xs ≡ ok tt
        → Distinct (map key xs) × Apart (map key xs) seen × All (λ x. check x ≡ ok tt) xs
    unfolding check_distinct
    check_each_sound seen [] h = (tt, tt, tt)
    check_each_sound seen (x ∷ xs) h =
        let (differ, apart, rest) = check_each_sound (key x ∷ seen) xs (ground arith) in
        let (fresh, others) = Apart-cons (key x) (map key xs) seen apart in
        ((fresh, differ), (ground arith, others), (ground arith, rest))

    check_each_complete :
        (seen : List Text) (xs : List A)
        → Distinct (map key xs)
        → Apart (map key xs) seen
        → All (λ x. check x ≡ ok tt) xs
        → check_distinct key field check seen xs ≡ ok tt
    unfolding check_distinct
    check_each_complete seen [] d a c = refl
    check_each_complete seen (x ∷ xs) d a c =
        let apart = Apart-cons_of (key x) (map key xs) seen d.0 a.1 in
        ground (arith, check_each_complete (key x ∷ seen) xs d.1 apart c.1, a.0, c.0)

    pub check_distinct_means {κ} :
        {P : A → Type κ} (xs : List A)
        → ((x : A) → (check x ≡ ok tt) ↔ P x)
        → (check_distinct key field check [] xs ≡ ok tt) ↔ (Distinct (map key xs) × All P xs)
    check_distinct_means xs means = (
      (λ h.
          let (differ, apart, rest) = check_each_sound [] xs h in
          (differ, All-map xs (λ x. (means x).0) rest)),
      (λ (differ, a).
          check_each_complete [] xs differ (Apart-nil (map key xs))
            (All-map xs (λ x. (means x).1) a)),
    )

pub solid_iff :
    (field t value : Text) → (solid field t ≡ ok value) ↔ ((is_blank t ≡ false) × (value ≡ strip t))
solid_iff field t value = (
  (λ h. required-ok (blank field) t h),
  (λ (named, same). required_solid (blank field) t named ∙ ap ok (sym same)),
)

-- `if id not in ids: raise ...`
unfoldable pub refer_to : List Text → Text → Text → Result ModelError (Unit {0})
refer_to ids field id = refuse (not (mem? id ids)) (unknown_reference field id)

pub refer_to_iff :
    (ids : List Text) (field id : Text) → (refer_to ids field id ≡ ok tt) ↔ Known ids id
unfolding refer_to
refer_to_iff ids field id = ((λ h. ground arith), (λ k. ground arith))

pub refer_to_each_iff {ℓ} :
    {A : Type ℓ} (ids : List Text) (field : Text) (key : A → Text) (xs : List A)
    → (check_every (λ x. refer_to ids field (key x)) xs ≡ ok tt) ↔ All (λ x. Known ids (key x)) xs
refer_to_each_iff ids field key xs =
    check_every_means (λ x. refer_to ids field (key x)) xs (λ x. refer_to_iff ids field (key x))
