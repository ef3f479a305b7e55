-- ===== src/Prelude/Text.antt =====
-- Rust's `String`, as the list of its code points. Lengths and byte tests go by its UTF-8, and the
-- order of texts is the lexicographic order of code points, which is the order of their UTF-8.
use Prim.Native.Nat.{ℕ, ◌+◌, ◌/◌, ◌%◌, compare, Ordering}
use Prim.Native.Char.{code}
use Prim.Native.String.{String}
use mathlib.Core.Path.{◌≡◌, refl}
use mathlib.Core.Logic.{◌↔◌}
use mathlib.Core.Bool.{Bool, true, false}
use mathlib.Core.List.{List, [], ◌∷◌, ◌++◌}
use native.Mathlib.Omega.{arith}
use cartridge_runtime.Prelude.Tests.{ltb, if◌then◌else◌}
use cartridge_runtime.Prelude.Lists.{length}
use cartridge_runtime.Prelude.Order.{Ord, flip}

abbrev pub Text : Type 0
Text = List ℕ

abbrev pub Bytes : Type 0
Bytes = List ℕ

-- The text of a literal.
abbrev pub text : String → Text
text String.[] = []
text (String.◌∷◌ c s) = code c ∷ text s

-- The UTF-8 of a code point.
unfoldable pub utf8 : ℕ → Bytes
utf8 c =
    if ltb c 128
    then c ∷ []
    else if ltb c 2048
    then (192 + c / 64) ∷ (128 + c % 64) ∷ []
    else if ltb c 65536
    then (224 + c / 4096) ∷ (128 + c / 64 % 64) ∷ (128 + c % 64) ∷ []
    else (240 + c / 262144) ∷ (128 + c / 4096 % 64) ∷ (128 + c / 64 % 64) ∷ (128 + c % 64) ∷ []

-- `as_bytes`
unfoldable pub bytes : Text → Bytes
unfolding utf8
bytes [] = []
bytes (c ∷ t) = utf8 c ++ bytes t

-- `len`
unfoldable pub len : Text → ℕ
unfolding bytes
len t = length (bytes t)

-- `cmp` of two lists of numbers, entry by entry.
abbrev first_difference : Ordering → Ordering → Ordering
first_difference Ordering.lt o = Ordering.lt
first_difference Ordering.eq o = o
first_difference Ordering.gt o = Ordering.gt

unfoldable pub text_cmp : List ℕ → List ℕ → Ordering
text_cmp [] [] = Ordering.eq
text_cmp [] (d ∷ t) = Ordering.lt
text_cmp (c ∷ s) [] = Ordering.gt
text_cmp (c ∷ s) (d ∷ t) = first_difference (compare c d) (text_cmp s t)

pub text_cmp_eq : (s t : List ℕ) → text_cmp s t ≡ Ordering.eq → s ≡ t
unfolding text_cmp
text_cmp_eq [] [] h = refl
text_cmp_eq [] (d ∷ t) h = cc
text_cmp_eq (c ∷ s) [] h = cc
text_cmp_eq (c ∷ s) (d ∷ t) h = ground (arith, text_cmp_eq s t)

pub text_cmp_refl : (s : List ℕ) → text_cmp s s ≡ Ordering.eq
unfolding text_cmp
text_cmp_refl [] = refl
text_cmp_refl (c ∷ s) = ground (arith, text_cmp_refl s)

pub text_cmp-flip : (s t : List ℕ) → text_cmp t s ≡ flip (text_cmp s t)
unfolding text_cmp
text_cmp-flip [] [] = refl
text_cmp-flip [] (d ∷ t) = refl
text_cmp-flip (c ∷ s) [] = refl
text_cmp-flip (c ∷ s) (d ∷ t) = ground (arith, text_cmp-flip s t)

pub text_cmp_trans :
    (s t u : List ℕ)
    → text_cmp s t ≡ Ordering.lt
    → text_cmp t u ≡ Ordering.lt
    → text_cmp s u ≡ Ordering.lt
unfolding text_cmp
text_cmp_trans [] [] u h k = cc
text_cmp_trans [] (d ∷ t) [] h k = cc
text_cmp_trans [] (d ∷ t) (e ∷ u) h k = refl
text_cmp_trans (c ∷ s) [] u h k = cc
text_cmp_trans (c ∷ s) (d ∷ t) [] h k = cc
text_cmp_trans (c ∷ s) (d ∷ t) (e ∷ u) h k = ground (arith, text_cmp_trans s t u)

instance abbrev pub text_ord : Ord (List ℕ)
text_ord = record {
  cmp = text_cmp;
  cmp_eq = text_cmp_eq;
  cmp_refl = text_cmp_refl;
  cmp_flip = text_cmp-flip;
  lt_trans = text_cmp_trans;
}

-- `==` of two texts, and of two byte strings.
unfoldable pub text_eq : List ℕ → List ℕ → Bool
unfolding text_cmp
text_eq s t = elim (text_cmp s t) [ Ordering.eq ↦ true | _ ↦ false ]

pub text_eq_iff : (s t : List ℕ) → (text_eq s t ≡ true) ↔ (s ≡ t)
unfolding text_eq
text_eq_iff s t = ground (arith, text_cmp_eq s t, text_cmp_refl s)
