-- ===== src/Prelude/Strings.antt =====
-- Rust's tests and parts of strings, on lists of code points.
use Prim.Native.Nat.{ℕ, zero, suc, ◌+◌, ◌/◌, ◌%◌}
use mathlib.Core.Path.{◌≡◌, refl, ap, ◌∙◌}
use mathlib.Core.Bool.{Bool, true, false, not, ◌||◌}
use mathlib.Core.Option.{Option, none, some}
use mathlib.Core.List.{List, [], ◌∷◌, ◌++◌}
use native.Mathlib.Omega.{arith}
use cartridge_runtime.Prelude.Tests.{ltb, ◌==◌, if◌then◌else◌}
use cartridge_runtime.Prelude.Lists.{all}
use cartridge_runtime.Prelude.Text.{Text, text_eq, text_eq_iff}
use cartridge_runtime.Prelude.Ascii.{is_ascii_uppercase, is_ascii_lowercase}

-- `to_ascii_lowercase`
unfoldable pub lower_char : ℕ → ℕ
lower_char c = if is_ascii_uppercase c then c + 32 else c

unfoldable pub to_ascii_lowercase : Text → Text
unfolding lower_char
to_ascii_lowercase [] = []
to_ascii_lowercase (c ∷ t) = lower_char c ∷ to_ascii_lowercase t

unfoldable pub eq_ignore_ascii_case : Text → Text → Bool
unfolding to_ascii_lowercase
eq_ignore_ascii_case s t = text_eq (to_ascii_lowercase s) (to_ascii_lowercase t)

-- `strip_prefix`, and `starts_with` at a text.
unfoldable pub strip_prefix : Text → Text → Option Text
strip_prefix [] t = some t
strip_prefix (c ∷ p) [] = none
strip_prefix (c ∷ p) (d ∷ t) = let rest = strip_prefix p t in if c == d then rest else none

unfoldable pub starts_with : Text → Text → Bool
unfolding strip_prefix
starts_with p t = elim (strip_prefix p t) [ none ↦ false | some rest ↦ true ]

-- `contains` at a text.
unfoldable pub contains_text : Text → Text → Bool
unfolding starts_with
contains_text p [] = starts_with p []
contains_text p (c ∷ t) = starts_with p (c ∷ t) || contains_text p t

abbrev cons_head : ℕ → List Text → List Text
cons_head c [] = (c ∷ []) ∷ []
cons_head c (p ∷ ps) = (c ∷ p) ∷ ps

-- `split` at a character.
unfoldable pub split : ℕ → Text → List Text
split c [] = [] ∷ []
split c (d ∷ t) = let rest = split c t in if d == c then [] ∷ rest else cons_head d rest

-- `split_once` and `rsplit_once` at a character: what is before its first place and after it, and
-- so with the last one.
abbrev before : ℕ → Option (Text × Text) → Option (Text × Text)
before d none = none
before d (some (a, b)) = some (d ∷ a, b)

unfoldable pub split_once : ℕ → Text → Option (Text × Text)
split_once c [] = none
split_once c (d ∷ t) = let rest = split_once c t in if d == c then some ([], t) else before d rest

unfoldable pub rsplit_once : ℕ → Text → Option (Text × Text)
rsplit_once c [] = none
rsplit_once c (d ∷ t) = elim (rsplit_once c t) [
  | none ↦ if d == c then some ([], t) else none
  | some parts ↦ before d (some parts)
]

-- `contains` of a set of texts.
unfoldable pub member : Text → List Text → Bool
member x [] = false
member x (t ∷ ts) = text_eq x t || member x ts

-- `replace` of a character by another.
unfoldable pub replace_char : ℕ → ℕ → Text → Text
replace_char c e [] = []
replace_char c e (d ∷ t) = (if d == c then e else d) ∷ replace_char c e t

-- The decimal digits of a number, which has fewer of them than it counts to.
unfoldable pub digits : ℕ → ℕ → Text → Text
digits zero n t = t
digits (suc fuel) n t =
    let rest = digits fuel (n / 10) ((48 + n % 10) ∷ t) in if ltb n 10 then (48 + n) ∷ t else rest

unfoldable pub decimal : ℕ → Text
unfolding digits
decimal n = digits (suc n) n []

-- `join`
unfoldable pub join : Text → List Text → Text
join separator [] = []
join separator (t ∷ []) = t
join separator (t ∷ s ∷ ts) = t ++ separator ++ join separator (s ∷ ts)

abbrev pub is_letter : ℕ → Bool
is_letter c = is_ascii_lowercase c || is_ascii_uppercase c

lower_char-eq : (c d : ℕ) → not (is_letter d) ≡ true → lower_char c ≡ lower_char d → c ≡ d
unfolding lower_char
lower_char-eq c d h e = ground (arith, h, e)

lower-eq :
    (s t : Text)
    → all (λ c. not (is_letter c)) t ≡ true
    → to_ascii_lowercase s ≡ to_ascii_lowercase t
    → s ≡ t
unfolding to_ascii_lowercase
lower-eq [] [] h e = refl
lower-eq [] (d ∷ t) h e = cc
lower-eq (c ∷ s) [] h e = cc
lower-eq (c ∷ s) (d ∷ t) h e = cc (
  lower_char-eq c d (ground (arith, h)) (ap (first_or 0) e),
  lower-eq s t (ground (arith, h)) (ap tail e),
)
  where
    first_or : ℕ → Text → ℕ
    first_or z [] = z
    first_or z (x ∷ xs) = x

    tail : Text → Text
    tail [] = []
    tail (x ∷ xs) = xs

-- A text without letters is equal to what it is equal to but for case.
pub eq_ignore_ascii_case-eq :
    (s t : Text) → all (λ c. not (is_letter c)) t ≡ true → eq_ignore_ascii_case s t ≡ true → s ≡ t
unfolding eq_ignore_ascii_case
eq_ignore_ascii_case-eq s t plain same =
    lower-eq s t plain ((text_eq_iff (to_ascii_lowercase s) (to_ascii_lowercase t)).0 same)

pub eq_ignore_ascii_case_trans :
    (s t u : Text)
    → eq_ignore_ascii_case s t ≡ true
    → eq_ignore_ascii_case t u ≡ true
    → eq_ignore_ascii_case s u ≡ true
unfolding eq_ignore_ascii_case
eq_ignore_ascii_case_trans s t u h k =
    (text_eq_iff (to_ascii_lowercase s) (to_ascii_lowercase u)).1 (
      (text_eq_iff (to_ascii_lowercase s) (to_ascii_lowercase t)).0 h
      ∙ (text_eq_iff (to_ascii_lowercase t) (to_ascii_lowercase u)).0 k)
