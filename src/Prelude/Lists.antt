-- ===== src/Prelude/Lists.antt =====
-- Lists: lengths as native numbers, and Python's `in`, `any`, `all` and list comprehensions.
use Prim.Native.Nat.{ℕ, zero, suc, ◌+◌, ◌≤◌}
use mathlib.Core.Path.{◌≡◌, refl, ap, sym, subst, ◌∙◌}
use mathlib.Core.Logic.{◌↔◌, inl, inr}
use mathlib.Core.Bool.{Bool, true, false, ◌&&◌, ◌||◌}
use mathlib.Core.Option.{Option, none, some}
use mathlib.Core.List.{List, [], ◌∷◌, ◌++◌, map, Memᴰ}
use native.Mathlib.Omega.{arith}
use nova_harness.Prelude.Tests.{Eq, ◌==◌, if◌then◌else◌, Bool-cases}

module _ {ℓ} {A : Type ℓ} where
  abbrev pub length : List A → ℕ
  length [] = 0
  length (x ∷ xs) = suc (length xs)

  unfoldable pub take : ℕ → List A → List A
  take zero xs = []
  take (suc n) [] = []
  take (suc n) (x ∷ xs) = x ∷ take n xs

  unfoldable pub drop : ℕ → List A → List A
  drop zero xs = xs
  drop (suc n) [] = []
  drop (suc n) (x ∷ xs) = drop n xs

  abbrev pub is_nil : List A → Bool
  is_nil [] = true
  is_nil (x ∷ xs) = false

  -- `any(test(x) for x in xs)`
  unfoldable pub any? : (A → Bool) → List A → Bool
  any? test [] = false
  any? test (x ∷ xs) = test x || any? test xs

  -- `all(test(x) for x in xs)`
  unfoldable pub all? : (A → Bool) → List A → Bool
  all? test [] = true
  all? test (x ∷ xs) = test x && all? test xs

  -- `[x for x in xs if test(x)]`
  unfoldable pub keep : (A → Bool) → List A → List A
  keep test [] = []
  keep test (x ∷ xs) = let rest = keep test xs in if test x then x ∷ rest else rest

  -- `sum(1 for x in xs if test(x))`
  unfoldable pub count_if : (A → Bool) → List A → ℕ
  count_if test [] = 0
  count_if test (x ∷ xs) = let rest = count_if test xs in if test x then suc rest else rest

  abbrev pub All {κ} : (A → Type κ) → List A → Type κ
  All P [] = Unit
  All P (x ∷ xs) = P x × All P xs

module _ {ℓ} {A : Type ℓ} where
  pub length-append : (xs ys : List A) → length (xs ++ ys) ≡ length xs + length ys
  length-append [] ys = omega arith
  length-append (x ∷ xs) ys = omega (arith, length-append xs ys)

  pub take-nil : (n : ℕ) → take {A = A} n [] ≡ []
  unfolding take
  take-nil zero = refl
  take-nil (suc n) = refl

  pub drop-nil : (n : ℕ) → drop {A = A} n [] ≡ []
  unfolding drop
  drop-nil zero = refl
  drop-nil (suc n) = refl

  pub length-take : (n : ℕ) (xs : List A) → length (take n xs) ≤ n
  unfolding take
  length-take zero xs = omega arith
  length-take (suc n) [] = omega arith
  length-take (suc n) (x ∷ xs) = omega (arith, length-take n xs)

  pub count_if-append :
      (test : A → Bool) (xs ys : List A)
      → count_if test (xs ++ ys) ≡ count_if test xs + count_if test ys
  unfolding count_if
  count_if-append test [] ys = omega arith
  count_if-append test (x ∷ xs) ys = ground (arith, count_if-append test xs ys)

  pub count_if-le-length : (test : A → Bool) (xs : List A) → count_if test xs ≤ length xs
  unfolding count_if
  count_if-le-length test [] = omega arith
  count_if-le-length test (x ∷ xs) = ground (arith, count_if-le-length test xs)

  pub length-keep : (test : A → Bool) (xs : List A) → length (keep test xs) ≡ count_if test xs
  unfolding keep count_if
  length-keep test [] = refl
  length-keep test (x ∷ xs) = ground (arith, length-keep test xs)

  pub all?-append :
      (test : A → Bool) (xs ys : List A) → all? test (xs ++ ys) ≡ all? test xs && all? test ys
  unfolding all?
  all?-append test [] ys = refl
  all?-append test (x ∷ xs) ys = ground (arith, all?-append test xs ys)

  pub All-append {κ} : (P : A → Type κ) (xs ys : List A) → All P xs → All P ys → All P (xs ++ ys)
  All-append P [] ys p q = q
  All-append P (x ∷ xs) ys p q = (p.0, All-append P xs ys p.1 q)

  pub All-of-all? {κ} :
      {P : A → Type κ} (test : A → Bool) (xs : List A)
      → ((x : A) → test x ≡ true → P x)
      → all? test xs ≡ true
      → All P xs
  unfolding all?
  All-of-all? test [] sound h = tt
  All-of-all? test (x ∷ xs) sound h =
      (sound x (ground arith), All-of-all? test xs sound (ground arith))

  pub all?-of-All {κ} :
      {P : A → Type κ} (test : A → Bool) (xs : List A)
      → ((x : A) → P x → test x ≡ true)
      → All P xs
      → all? test xs ≡ true
  unfolding all?
  all?-of-All test [] complete h = refl
  all?-of-All test (x ∷ xs) complete h =
      ground (arith, complete x h.0, all?-of-All test xs complete h.1)

  pub All-map {κ μ} :
      {P : A → Type κ} {Q : A → Type μ} (xs : List A) → ((x : A) → P x → Q x) → All P xs → All Q xs
  All-map [] f h = tt
  All-map (x ∷ xs) f h = (f x h.0, All-map xs f h.1)

module _ {ℓ κ} {A : Type ℓ} {B : Type κ} where
  pub length-map : (f : A → B) (xs : List A) → length (map f xs) ≡ length xs
  length-map f [] = refl
  length-map f (x ∷ xs) = ap suc (length-map f xs)

module _ {ℓ} {A : Type ℓ} ⦃e : Eq A⦄ where
  -- `a in xs`
  unfoldable pub mem? : A → List A → Bool
  mem? a [] = false
  mem? a (x ∷ xs) = a == x || mem? a xs

  pub mem?-append : (a : A) (xs ys : List A) → mem? a (xs ++ ys) ≡ mem? a xs || mem? a ys
  unfolding mem?
  mem?-append a [] ys = refl
  mem?-append a (x ∷ xs) ys = ground (arith, mem?-append a xs ys)

  pub All-mem {κ} : (P : A → Type κ) (a : A) (xs : List A) → All P xs → mem? a xs ≡ true → P a
  unfolding mem?
  All-mem P a [] h m = absurd (ground arith)
  All-mem P a (x ∷ xs) h m = elim (e.eq? a x) [
    | yes p ↦ rw p h.0
    | no n ↦ All-mem P a xs h.1 (ground arith)
  ]

  pub any?-false :
      (test : A → Bool) (xs : List A) (a : A)
      → any? test xs ≡ false
      → mem? a xs ≡ true
      → test a ≡ false
  unfolding any? mem?
  any?-false test [] a h m = cc
  any?-false test (x ∷ xs) a h m = elim (e.eq? a x) [
    | yes p ↦ rw p (ground arith)
    | no n ↦ any?-false test xs a (ground arith) (ground arith)
  ]

  pub any?-false_of :
      (test : A → Bool) (xs : List A)
      → ((a : A) → mem? a xs ≡ true → test a ≡ false)
      → any? test xs ≡ false
  unfolding any? mem?
  any?-false_of test [] h = refl
  any?-false_of test (x ∷ xs) h =
      ground (arith, h x (ground arith), any?-false_of test xs (λ a m. h a (ground arith)))

-- Python's `dict`, as the list of its items in insertion order.
module _ {ℓ κ} {K : Type ℓ} {V : Type κ} ⦃e : Eq K⦄ where
  -- `d.get(k)`
  unfoldable pub lookup : K → List (K × V) → Option V
  lookup k [] = none
  lookup k ((j, v) ∷ items) = if k == j then some v else lookup k items

module _ {ℓ κ} {A : Type ℓ} {B : Type κ} ⦃e : Eq B⦄ where
  -- Where an image comes from.
  pub mem?-map :
      (f : A → B) (xs : List A) (b : B) → mem? b (map f xs) ≡ true → (a : A) × Memᴰ a xs × (f a ≡ b)
  unfolding mem?
  mem?-map f [] b h = cc
  mem?-map f (x ∷ xs) b h = elim (e.eq? b (f x)) [
    | yes p ↦ (x, Memᴰ.head refl, sym p)
    | no n ↦ let (a, listed, same) = mem?-map f xs b (ground arith) in (a, Memᴰ.tail listed, same)
  ]

  pub mem?-map_of : {a : A} (f : A → B) (xs : List A) → Memᴰ a xs → mem? (f a) (map f xs) ≡ true
  unfolding mem?
  mem?-map_of f [] m = elim m [ ]
  mem?-map_of f (x ∷ xs) (Memᴰ.head p) = ground (arith, ap f p)
  mem?-map_of f (x ∷ xs) (Memᴰ.tail m) = ground (arith, mem?-map_of f xs m)

module _ {ℓ} {A : Type ℓ} where
  -- `[x for x in xs if test(x)]` is not empty when an item passes, and its head is such an item.
  pub keep_head :
      (test : A → Bool) (xs : List A) {y : A} {ys : List A}
      → keep test xs ≡ y ∷ ys
      → Memᴰ y xs × (test y ≡ true)
  unfolding keep
  keep_head test [] h = cc
  keep_head test (x ∷ xs) {y} {ys} h = elim (Bool-cases (test x)) [
    | inl passes ↦ (Memᴰ.head (ground arith), ground arith)
    | inr fails ↦
        let (m, p) = keep_head test xs {y = y} {ys = ys} (ground arith) in (Memᴰ.tail m, p)
  ]

  pub keep_some :
      {a : A} (test : A → Bool) (xs : List A)
      → Memᴰ a xs
      → test a ≡ true
      → (y : A) × (ys : List A) × (keep test xs ≡ y ∷ ys)
  unfolding keep
  keep_some test [] m h = elim m [ ]
  keep_some {a} test (x ∷ xs) (Memᴰ.head p) h = (x, keep test xs, ground (arith, ap test p))
  keep_some test (x ∷ xs) (Memᴰ.tail m) h = elim (Bool-cases (test x)) [
    | inl passes ↦ (x, keep test xs, ground arith)
    | inr fails ↦ let (y, ys, e) = keep_some test xs m h in (y, ys, ground arith)
  ]

  pub All-Memᴰ {κ} : {a : A} (P : A → Type κ) (xs : List A) → All P xs → Memᴰ a xs → P a
  All-Memᴰ P [] h m = elim m [ ]
  All-Memᴰ P (x ∷ xs) h (Memᴰ.head p) = rw p h.0
  All-Memᴰ P (x ∷ xs) h (Memᴰ.tail m) = All-Memᴰ P xs h.1 m

  pub keep-Memᴰ :
      {a : A} (test : A → Bool) (xs : List A) → Memᴰ a xs → test a ≡ true → Memᴰ a (keep test xs)
  unfolding keep
  keep-Memᴰ test [] m h = elim m [ ]
  keep-Memᴰ {a} test (x ∷ xs) (Memᴰ.head p) h =
      let passes : test x ≡ true = ap test (sym p) ∙ h in rw passes (Memᴰ.head p)
  keep-Memᴰ test (x ∷ xs) (Memᴰ.tail m) h = elim (Bool-cases (test x)) [
    | inl passes ↦ rw passes (Memᴰ.tail (keep-Memᴰ test xs m h))
    | inr fails ↦ rw fails (keep-Memᴰ test xs m h)
  ]

  -- What holds of the items that pass.
  pub Memᴰ-keep :
      {a : A} (test : A → Bool) (xs : List A) → Memᴰ a (keep test xs) → Memᴰ a xs × (test a ≡ true)
  unfolding keep
  Memᴰ-keep test [] m = elim m [ ]
  Memᴰ-keep {a} test (x ∷ xs) m =
      let Within : Bool → Type ℓ = λ b. Memᴰ a (if b then x ∷ keep test xs else keep test xs) in
      elim (Bool-cases (test x)) [
        | inl passes ↦
            let moved : Memᴰ a (x ∷ keep test xs) = subst Within passes m in
            elim moved [
              | Memᴰ.head p ↦ (Memᴰ.head p, ap test p ∙ passes)
              | Memᴰ.tail later ↦
                  let (listed, given) = Memᴰ-keep test xs later in (Memᴰ.tail listed, given)
            ]
        | inr fails ↦
            let later : Memᴰ a (keep test xs) = subst Within fails m in
            let (listed, given) = Memᴰ-keep test xs later in (Memᴰ.tail listed, given)
      ]

  pub All-keep {κ} :
      (P : A → Type κ) (test : A → Bool) (xs : List A)
      → All P (keep test xs) ↔ All (λ x. test x ≡ true → P x) xs
  unfolding keep
  All-keep P test [] = ((λ h. tt), (λ h. tt))
  All-keep P test (x ∷ xs) =
      let ih = All-keep P test xs in
      elim (Bool-cases (test x)) [
        | inl passes ↦ rw passes ((λ h. ((λ _. h.0), ih.0 h.1)), (λ h. (h.0 refl, ih.1 h.1)))
        | inr fails ↦ rw fails ((λ h. ((λ e. absurd (cc e)), ih.0 h)), (λ h. ih.1 h.1))
      ]
