-- ===== src/Resolver/Checks/Alias.antt =====
-- Aliases as texts.
use cartridge_runtime.Prelude.{
  ℕ, ◌≤◌, Bool, true, false, ◌&&◌, List, [], ◌∷◌, ◌++◌, ltb, leb, all, any, length, length-append,
  ◌≡◌, refl, sym, ◌∙◌, ap, subst, inl, inr, Bool-cases, if_cases, arith,
}
use cartridge_runtime.Prelude.Text.{Text, Bytes, len, bytes, utf8}
use cartridge_runtime.Prelude.Ascii.{is_control}
use cartridge_runtime.Supervisor.Names.{is_whitespace}
use cartridge_runtime.Manifest.Names.{is_name_byte}
use cartridge_runtime.Resolver.Checks.{is_alias, is_bounded_text}

all-append {ℓ} :
    {A : Type ℓ} (p : A → Bool) (xs ys : List A) → all p (xs ++ ys) ≡ (all p xs && all p ys)
all-append p [] ys = refl
all-append p (x ∷ xs) ys = ground (arith, all-append p xs ys)

abbrev IsLong : Bytes → Type 0
IsLong bs = (b : ℕ) × (rest : Bytes) × (bs ≡ b ∷ rest) × (192 ≤ b)

IsLong-utf8 : (c : ℕ) → ltb c 128 ≡ false → IsLong (utf8 c)
unfolding utf8
IsLong-utf8 c high =
    if_cases IsLong (ltb c 128) _ _ (λ low. absurd (cc (high, low)))
      (λ e.
        if_cases IsLong (ltb c 2048) _ _ (λ low. (_, _, refl, omega arith))
          (λ over.
            if_cases IsLong (ltb c 65536) _ _ (λ low. (_, _, refl, omega arith))
              (λ top. (_, _, refl, omega arith))))

short_char : (c : ℕ) → ltb c 128 ≡ true → utf8 c ≡ c ∷ []
unfolding utf8
short_char c low = rw low refl

no_name_byte : (b : ℕ) → 192 ≤ b → is_name_byte b ≡ false
no_name_byte b h = ground arith

split_and : (a b : Bool) → (a && b) ≡ true → a ≡ true
split_and a b h = ground arith

split_rest : (a b : Bool) → (a && b) ≡ true → b ≡ true
split_rest a b h = ground arith

-- A code point whose bytes are those of names is one of them, and has one byte.
plain_char :
    (c : ℕ) → all is_name_byte (utf8 c) ≡ true → (is_name_byte c ≡ true) × (utf8 c ≡ c ∷ [])
plain_char c h = elim (Bool-cases (ltb c 128)) [
  | inl low ↦ (
    split_and (is_name_byte c) true (subst (λ bs. all is_name_byte bs ≡ true) (short_char c low) h),
    short_char c low,
  )
  | inr high ↦
      let (b, rest, e, big) = IsLong-utf8 c high in
      absurd (
        cc (
          no_name_byte b big,
          split_and (is_name_byte b) (all is_name_byte rest)
              (subst (λ bs. all is_name_byte bs ≡ true) e h),
        ))
]

plain_text :
    (t : Text)
    → all is_name_byte (bytes t) ≡ true
    → (all is_name_byte t ≡ true) × (length (bytes t) ≡ length t)
unfolding bytes
plain_text [] h = (refl, refl)
plain_text (c ∷ t) h =
    let both = all-append is_name_byte (utf8 c) (bytes t) in
    let (name, one) = plain_char c (split_and _ (all is_name_byte (bytes t)) (sym both ∙ h)) in
    let (names, same) = plain_text t (split_rest (all is_name_byte (utf8 c)) _ (sym both ∙ h)) in
    (cc (name, names), omega (arith, length-append (utf8 c) (bytes t), same, ap length one))

printable_char :
    (c : ℕ) → is_name_byte c ≡ true → (is_whitespace c ≡ false) × (is_control c ≡ false)
unfolding is_whitespace
printable_char c h = ground arith

printable_text : (t : Text) → all is_name_byte t ≡ true → any is_control t ≡ false
printable_text [] h = refl
printable_text (c ∷ t) h = cc (
  (printable_char c (split_and (is_name_byte c) (all is_name_byte t) h)).1,
  printable_text t (split_rest (is_name_byte c) (all is_name_byte t) h),
)

-- An alias is a text of any bound from 48 up.
pub is_alias_bounded :
    (value : Text) (maximum : ℕ)
    → 48 ≤ maximum
    → is_alias value ≡ true
    → is_bounded_text value maximum false ≡ true
unfolding is_alias is_bounded_text len
is_alias_bounded [] maximum l h = cc
is_alias_bounded (c ∷ t) maximum l h =
    let (names, same) = plain_text (c ∷ t) (ground (arith, h)) in
    let name = split_and (is_name_byte c) (all is_name_byte t) names in
    let short : length (bytes (c ∷ t)) ≤ 48 = ground (arith, h) in
    let fits : leb (length (c ∷ t)) maximum ≡ true = ground (arith, short, same) in
    cc ((printable_char c name).0, fits, printable_text (c ∷ t) names)
