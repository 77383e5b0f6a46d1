-- ===== src/Prelude/Seen.antt =====
-- The loop `for x in xs: if x in seen: raise ...; seen.add(x)`.
use Prim.Native.Nat.{◌≤◌}
use mathlib.Core.Path.{◌≡◌, refl, sym, ap, ◌∙◌}
use mathlib.Core.Logic.{◌↔◌}
use mathlib.Core.Bool.{Bool, true, false}
use mathlib.Core.Option.{Option, none, some}
use mathlib.Core.List.{List, [], ◌∷◌, map, Memᴰ}
use native.Mathlib.Omega.{arith}
use nova_harness.Prelude.Tests.{Eq, ◌==◌, nat_eq, if◌then◌else◌}
use nova_harness.Prelude.Lists.{All, length, mem?, mem?-map_of}

module _ {ℓ} {A : Type ℓ} ⦃e : Eq A⦄ where
  -- The first item that an earlier one, or one of `seen`, equals.
  unfoldable pub first_repeat : List A → List A → Option A
  first_repeat seen [] = none
  first_repeat seen (x ∷ xs) =
      let rest = first_repeat (x ∷ seen) xs in if mem? x seen then some x else rest

  -- No item stands twice.
  abbrev pub Distinct : List A → Type 0
  Distinct [] = Unit
  Distinct (x ∷ xs) = (mem? x xs ≡ false) × Distinct xs

  -- None of the first list's items stands in the second.
  abbrev pub Apart : List A → List A → Type 0
  Apart [] ys = Unit
  Apart (x ∷ xs) ys = (mem? x ys ≡ false) × Apart xs ys

  pub Apart-cons :
      (x : A) (xs seen : List A) → Apart xs (x ∷ seen) → (mem? x xs ≡ false) × Apart xs seen
  unfolding mem?
  Apart-cons x [] seen h = (refl, tt)
  Apart-cons x (y ∷ xs) seen h =
      let (fresh, rest) = Apart-cons x xs seen h.1 in (ground arith, (ground arith, rest))

  pub Apart-cons_of :
      (x : A) (xs seen : List A) → mem? x xs ≡ false → Apart xs seen → Apart xs (x ∷ seen)
  unfolding mem?
  Apart-cons_of x [] seen f h = tt
  Apart-cons_of x (y ∷ xs) seen f h = (ground arith, Apart-cons_of x xs seen (ground arith) h.1)

  first_repeat_sound :
      (seen xs : List A) → first_repeat seen xs ≡ none → Distinct xs × Apart xs seen
  unfolding first_repeat
  first_repeat_sound seen [] h = (tt, tt)
  first_repeat_sound seen (x ∷ xs) h =
      let (distinct, apart) = first_repeat_sound (x ∷ seen) xs (ground arith) in
      let (fresh, rest) = Apart-cons x xs seen apart in ((fresh, distinct), (ground arith, rest))

  first_repeat_complete :
      (seen xs : List A) → Distinct xs → Apart xs seen → first_repeat seen xs ≡ none
  unfolding first_repeat
  first_repeat_complete seen [] d a = refl
  first_repeat_complete seen (x ∷ xs) d a =
      ground (arith, first_repeat_complete (x ∷ seen) xs d.1 (Apart-cons_of x xs seen d.0 a.1))

  pub Apart-nil : (xs : List A) → Apart xs []
  unfolding mem?
  Apart-nil [] = tt
  Apart-nil (x ∷ xs) = (refl, Apart-nil xs)

  pub first_repeat_iff : (xs : List A) → (first_repeat [] xs ≡ none) ↔ Distinct xs
  first_repeat_iff xs =
      (λ h. (first_repeat_sound [] xs h).0, λ d. first_repeat_complete [] xs d (Apart-nil xs))

  -- `set(xs)`, of which only the size is asked.
  unfoldable pub set_of : List A → List A
  set_of [] = []
  set_of (x ∷ xs) = let rest = set_of xs in if mem? x xs then rest else x ∷ rest

  -- `len(xs) == len(set(xs))`
  unfoldable pub is_unique : List A → Bool
  is_unique xs = length xs == length (set_of xs)

  length-set_of : (xs : List A) → length (set_of xs) ≤ length xs
  unfolding set_of
  length-set_of [] = omega arith
  length-set_of (x ∷ xs) = ground (arith, length-set_of xs)

  pub is_unique_iff : (xs : List A) → (is_unique xs ≡ true) ↔ Distinct xs
  unfolding is_unique set_of
  is_unique_iff [] = ((λ h. tt), (λ d. ground arith))
  is_unique_iff (x ∷ xs) =
      let ih = is_unique_iff xs in
      let most = length-set_of xs in
      ((λ h. (ground (arith, most), ih.0 (ground (arith, most)))), (λ d. ground (arith, ih.1 d.1)))

  -- The first item of the second list that is not in the first.
  unfoldable pub first_missing : List A → List A → Option A
  first_missing known [] = none
  first_missing known (x ∷ xs) =
      let rest = first_missing known xs in if mem? x known then rest else some x

  abbrev pub Known : List A → A → Type 0
  Known known x = mem? x known ≡ true

  pub first_missing_iff :
      (known xs : List A) → (first_missing known xs ≡ none) ↔ All (Known known) xs
  unfolding first_missing
  first_missing_iff known [] = ((λ h. tt), (λ k. refl))
  first_missing_iff known (x ∷ xs) =
      let ih = first_missing_iff known xs in
      ((λ h. (ground arith, ih.0 (ground arith))), (λ k. ground (arith, ih.1 k.1, k.0)))

module _ {ℓ κ} {A : Type ℓ} {B : Type κ} ⦃e : Eq B⦄ where
  -- Where the images differ, an item is found by its image.
  pub Distinct-map_injective :
      {a b : A} (f : A → B) (xs : List A)
      → Distinct (map f xs)
      → Memᴰ a xs
      → Memᴰ b xs
      → f a ≡ f b
      → a ≡ b
  Distinct-map_injective f [] d m n p = elim m [ ]
  Distinct-map_injective f (x ∷ xs) d (Memᴰ.head h) (Memᴰ.head k) p = h ∙ sym k
  Distinct-map_injective f (x ∷ xs) d (Memᴰ.head h) (Memᴰ.tail n) p =
      cc (d.0, mem?-map_of f xs n, ap f h)
  Distinct-map_injective f (x ∷ xs) d (Memᴰ.tail m) (Memᴰ.head k) p =
      cc (d.0, mem?-map_of f xs m, ap f k)
  Distinct-map_injective f (x ∷ xs) d (Memᴰ.tail m) (Memᴰ.tail n) p =
      Distinct-map_injective f xs d.1 m n p
