-- ===== src/Prelude/Texts.antt =====
-- Python's `str` as its list of code points, and the methods that the program calls.
use Prim.Native.Nat.{ℕ, zero, suc, ◌+◌, ◌/◌, ◌%◌}
use Prim.Native.Char.{code}
use Prim.Native.String.{String}
use mathlib.Core.Path.{◌≡◌, refl}
use mathlib.Core.Bool.{Bool, true, false, not, ◌&&◌, ◌||◌}
use mathlib.Core.Option.{Option, none, some}
use mathlib.Core.List.{List, [], ◌∷◌, ◌++◌, map}
use native.Mathlib.Omega.{arith}
use native.Mathlib.Decide.{ℕ_discrete}
use nova_harness.Prelude.Tests.{Eq, ◌==◌, nat_eq, leb, ltb, if◌then◌else◌}
use nova_harness.Prelude.Lists.{is_nil}

abbrev pub Text : Type 0
Text = List ℕ

unfoldable pub Text-discrete : Discrete Text
unfolding ℕ_discrete
Text-discrete [] [] = yes refl
Text-discrete [] (d ∷ u) = no (λ e. cc)
Text-discrete (c ∷ t) [] = no (λ e. cc)
Text-discrete (c ∷ t) (d ∷ u) =
    let rest = Text-discrete t u in
    elim (ℕ_discrete c d) [
      | yes p ↦ elim rest [ yes q ↦ yes (cc (p, q)) | no n ↦ no (λ e. n (cc)) ]
      | no n ↦ no (λ e. n (cc))
    ]

instance abbrev pub text_eq : Eq Text
text_eq = record { eq? = Text-discrete }

-- The truth of an `Optional[str]`.
unfoldable pub has_text : Option Text → Bool
has_text none = false
has_text (some t) = not (is_nil t)

-- The code points of a literal.
abbrev pub codes : String → Text
codes String.[] = []
codes (String.◌∷◌ c s) = code c ∷ codes s

-- The characters that `str.strip()` removes, those of `str.isspace()`.
unfoldable pub is_space : ℕ → Bool
unfolding ℕ_discrete
is_space c =
    leb 9 c && leb c 13
    || leb 28 c && leb c 32
    || c == 0x85
    || c == 0xA0
    || c == 0x1680
    || leb 0x2000 c && leb c 0x200A
    || c == 0x2028
    || c == 0x2029
    || c == 0x202F
    || c == 0x205F
    || c == 0x3000

unfoldable pub is_blank : Text → Bool
is_blank [] = true
is_blank (c ∷ t) = is_space c && is_blank t

unfoldable pub lstrip : Text → Text
lstrip [] = []
lstrip (c ∷ t) = let rest = lstrip t in if is_space c then rest else c ∷ t

unfoldable pub rstrip : Text → Text
rstrip [] = []
rstrip (c ∷ t) = let rest = rstrip t in if is_space c && is_nil rest then [] else c ∷ rest

-- `t.strip()`
unfoldable pub strip : Text → Text
unfolding lstrip rstrip
strip t = rstrip (lstrip t)

is_nil-rstrip : (t : Text) → is_nil (rstrip t) ≡ is_blank t
unfolding rstrip is_blank
is_nil-rstrip [] = refl
is_nil-rstrip (c ∷ t) = ground (arith, is_nil-rstrip t)

is_blank-lstrip : (t : Text) → is_blank (lstrip t) ≡ is_blank t
unfolding lstrip is_blank
is_blank-lstrip [] = refl
is_blank-lstrip (c ∷ t) = ground (arith, is_blank-lstrip t)

-- A text is empty after `strip` exactly when it is all white space.
pub is_nil-strip : (t : Text) → is_nil (strip t) ≡ is_blank t
is_nil-strip t = unfold strip in rw (is_nil-rstrip (lstrip t)) (is_blank-lstrip t)

rstrip-rstrip : (t : Text) → rstrip (rstrip t) ≡ rstrip t
unfolding rstrip
rstrip-rstrip [] = refl
rstrip-rstrip (c ∷ t) = ground (arith, rstrip-rstrip t)

-- What `lstrip` leaves begins with no white space, also after `rstrip`.
lstrip-rstrip-lstrip : (t : Text) → lstrip (rstrip (lstrip t)) ≡ rstrip (lstrip t)
unfolding lstrip rstrip
lstrip-rstrip-lstrip [] = refl
lstrip-rstrip-lstrip (c ∷ t) = ground (arith, lstrip-rstrip-lstrip t)

pub strip-strip : (t : Text) → strip (strip t) ≡ strip t
strip-strip t = unfold strip in rw (lstrip-rstrip-lstrip t) (rstrip-rstrip (lstrip t))

pub is_blank-strip : (t : Text) → is_blank (strip t) ≡ is_blank t
is_blank-strip t = rw (← is_nil-strip (strip t)) (rw (strip-strip t) (is_nil-strip t))

pub is_blank-append : (s t : Text) → is_blank (s ++ t) ≡ is_blank s && is_blank t
unfolding is_blank
is_blank-append [] t = refl
is_blank-append (c ∷ s) t = ground (arith, is_blank-append s t)

-- `s < t`, by the first code points that differ
unfoldable pub text_ltb : Text → Text → Bool
unfolding ℕ_discrete
text_ltb s [] = false
text_ltb [] (d ∷ t) = true
text_ltb (c ∷ s) (d ∷ t) = ltb c d || (c == d && text_ltb s t)

-- `t.startswith(prefix)`
unfoldable pub starts_with : Text → Text → Bool
unfolding ℕ_discrete
starts_with [] t = true
starts_with (p ∷ prefix) [] = false
starts_with (p ∷ prefix) (c ∷ t) = p == c && starts_with prefix t

-- `part in t`
unfoldable pub has_part : Text → Text → Bool
unfolding starts_with
has_part part [] = starts_with part []
has_part part (c ∷ t) = starts_with part (c ∷ t) || has_part part t

-- `t.endswith(suffix)`
unfoldable pub ends_with : Text → Text → Bool
unfolding Text-discrete
ends_with suffix [] = is_nil suffix
ends_with suffix (c ∷ t) = suffix == (c ∷ t) || ends_with suffix t

-- The first piece of a split, with `c` put in front of it.
abbrev pub onto_first : ℕ → List Text → List Text
onto_first c [] = (c ∷ []) ∷ []
onto_first c (piece ∷ pieces) = (c ∷ piece) ∷ pieces

-- `t.split(sep)` for a separator of one character.
unfoldable pub split_on : ℕ → Text → List Text
unfolding ℕ_discrete
split_on sep [] = [] ∷ []
split_on sep (c ∷ t) =
    let pieces = split_on sep t in if c == sep then [] ∷ pieces else onto_first c pieces

-- `glue.join(pieces)`
unfoldable pub join : Text → List Text → Text
join glue [] = []
join glue (piece ∷ []) = piece
join glue (piece ∷ next ∷ pieces) = piece ++ (glue ++ join glue (next ∷ pieces))

digits_of : ℕ → ℕ → Text → Text
digits_of zero n out = out
digits_of (suc fuel) n out =
    let more = digits_of fuel (n / 10) ((48 + n % 10) ∷ out) in
    elim (leb n 9) [ true ↦ (48 + n) ∷ out | false ↦ more ]

-- `str(n)` for a natural number, which has at most n + 1 digits.
unfoldable pub decimal : ℕ → Text
unfolding digits_of
decimal n = digits_of (suc n) n []

-- `str(names)` for a list of names that hold no quote, backslash or unprintable character.
unfoldable pub list_repr : List Text → Text
unfolding join
list_repr names =
    codes "[" ++ (join (codes ", ") (map (λ n. codes "'" ++ (n ++ codes "'")) names) ++ codes "]")

-- Unfolded, this lets `strip`, `is_blank`, `split_on` and their like run on literal texts.
unfoldable pub run_texts : Unit {0}
unfolding is_space is_blank strip starts_with has_part ends_with split_on join decimal Text-discrete
run_texts = tt
