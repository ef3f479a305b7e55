-- ===== src/Prelude/Sets.antt =====
-- Rust's `BTreeSet` of numbers: its members in strictly ascending order. `Vec` filters too.
use Prim.Native.Nat.{ℕ, zero, suc, ◌+◌, ◌-◌, ◌≤◌, ◌<◌}
use mathlib.Core.Path.{◌≡◌, refl, ap, subst}
use mathlib.Core.Logic.{inl, inr}
use mathlib.Core.Bool.{Bool, true, false, not, ◌&&◌, ◌||◌}
use mathlib.Core.List.{List, [], ◌∷◌, ◌++◌}
use native.Mathlib.Omega.{arith}
use cartridge_runtime.Prelude.Tests.{◌==◌, leb, if◌then◌else◌, Bool-cases, ==_iff}
use cartridge_runtime.Prelude.Lists.{length, take, All}

unfoldable pub contains : ℕ → List ℕ → Bool
contains a [] = false
contains a (x ∷ xs) = a == x || contains a xs

unfoldable pub keep {ℓ} : {A : Type ℓ} → (A → Bool) → List A → List A
keep p [] = []
keep p (x ∷ xs) = let rest = keep p xs in if p x then x ∷ rest else rest

-- `a..=b`, as `n` numbers from `a`.
unfoldable pub range : ℕ → ℕ → List ℕ
range zero a = []
range (suc n) a = a ∷ range n (a + 1)

-- `sort_unstable`
unfoldable pub insert_sorted : ℕ → List ℕ → List ℕ
insert_sorted a [] = a ∷ []
insert_sorted a (x ∷ xs) = let rest = insert_sorted a xs in if leb a x then a ∷ x ∷ xs else x ∷ rest

unfoldable pub sort : List ℕ → List ℕ
unfolding insert_sorted
sort [] = []
sort (x ∷ xs) = insert_sorted x (sort xs)

-- The members rise strictly, from `a` or above.
abbrev pub From : ℕ → List ℕ → Type 0
From a [] = Unit
From a (x ∷ xs) = (a ≤ x) × From (x + 1) xs

abbrev pub IsAscending : List ℕ → Type 0
IsAscending xs = From 0 xs

-- Every member of the one is a member of the other.
abbrev pub Within : List ℕ → List ℕ → Type 0
Within ys xs = All (λ x. contains x ys ≡ true) xs

pub From-le : (a b : ℕ) (xs : List ℕ) → a ≤ b → From b xs → From a xs
From-le a b [] h f = tt
From-le a b (x ∷ xs) h f = (omega arith, f.1)

pub contains-From : (a k : ℕ) (xs : List ℕ) → From a xs → contains k xs ≡ true → a ≤ k
unfolding contains
contains-From a k [] f h = cc
contains-From a k (x ∷ xs) f h = ground (arith, contains-From (x + 1) k xs f.1)

pub keep-From : (p : ℕ → Bool) (a : ℕ) (xs : List ℕ) → From a xs → From a (keep p xs)
unfolding keep
keep-From p a [] f = tt
keep-From p a (x ∷ xs) f = ground (arith, keep-From p (x + 1) xs f.1, From-le a (x + 1) (keep p xs))

pub range-From : (n a : ℕ) → From a (range n a)
unfolding range
range-From zero a = tt
range-From (suc n) a = (omega arith, range-From n (a + 1))

pub length-range : (n a : ℕ) → length (range n a) ≡ n
unfolding range
length-range zero a = refl
length-range (suc n) a = ap suc (length-range n (a + 1))

pub contains-range : (k n a : ℕ) → a ≤ k → k < a + n → contains k (range n a) ≡ true
unfolding contains range
contains-range k zero a h l = absurd (omega arith)
contains-range k (suc n) a h l = ground (arith, contains-range k n (a + 1))

pub All-range {ℓ} :
    (P : ℕ → Type ℓ) (n a : ℕ) → ((k : ℕ) → a ≤ k → k < a + n → P k) → All P (range n a)
unfolding range
All-range P zero a h = tt
All-range P (suc n) a h = (
  h a (omega arith) (omega arith),
  All-range P n (a + 1) (λ k x y. h k (omega arith) (omega arith)),
)

pub contains-keep :
    (p : ℕ → Bool) (k : ℕ) (xs : List ℕ) → contains k (keep p xs) ≡ (p k && contains k xs)
unfolding contains keep
contains-keep p k [] = ground arith
contains-keep p k (x ∷ xs) = ground (arith, contains-keep p k xs, λ (e : k ≡ x). ap p e)

pub length-keep-not :
    (p : ℕ → Bool) (xs : List ℕ)
    → length (keep p xs) + length (keep (λ x. not (p x)) xs) ≡ length xs
unfolding keep
length-keep-not p [] = omega arith
length-keep-not p (x ∷ xs) = ground (arith, length-keep-not p xs)

Within-tail : (y : ℕ) (ys xs : List ℕ) → From (y + 1) xs → Within (y ∷ ys) xs → Within ys xs
unfolding contains
Within-tail y ys [] f w = tt
Within-tail y ys (x ∷ xs) f w =
    (ground arith, Within-tail y ys xs (From-le (y + 1) (x + 1) xs (omega arith) f.1) w.1)

after_head :
    (a x y : ℕ) (ys : List ℕ)
    → From a (y ∷ ys)
    → contains x (y ∷ ys) ≡ true
    → (x == y) ≡ false
    → y + 1 ≤ x
unfolding contains
after_head a x y ys f h n = contains-From (y + 1) x ys f.1 (ground arith)

-- A set within a set has no more members.
pub length-Within :
    (a b : ℕ) (ys xs : List ℕ) → From a ys → From b xs → Within ys xs → length xs ≤ length ys
unfolding contains
length-Within a b ys [] s t w = omega arith
length-Within a b [] (x ∷ xs) s t w = cc (w.0)
length-Within a b (y ∷ ys) (x ∷ xs) s t w = elim (Bool-cases (x == y)) [
  | inl e ↦
      let same : x ≡ y = (==_iff x y).0 e in
      let rest =
        length-Within (y + 1) (x + 1) ys xs s.1 t.1
          (Within-tail y ys xs (From-le (y + 1) (x + 1) xs (omega arith) t.1) w.1) in
      omega (arith, rest)
  | inr n ↦
      let later = after_head a x y ys s w.0 n in
      let rest =
        length-Within (y + 1) (y + 1) ys (x ∷ xs) s.1 (later, t.1)
          (Within-tail y ys (x ∷ xs) (later, t.1) w) in
      omega (arith, rest)
]

pub keep-All : (p : ℕ → Bool) (xs : List ℕ) → All (λ x. p x ≡ true) (keep p xs)
unfolding keep
keep-All p [] = tt
keep-All p (x ∷ xs) = ground (arith, keep-All p xs)

pub contains-insert_sorted :
    (k a : ℕ) (xs : List ℕ) → contains k (insert_sorted a xs) ≡ (k == a || contains k xs)
unfolding contains insert_sorted
contains-insert_sorted k a [] = ground arith
contains-insert_sorted k a (x ∷ xs) = ground (arith, contains-insert_sorted k a xs)

pub contains-sort : (k : ℕ) (xs : List ℕ) → contains k (sort xs) ≡ contains k xs
unfolding contains sort
contains-sort k [] = refl
contains-sort k (x ∷ xs) = ground (arith, contains-insert_sorted k x (sort xs), contains-sort k xs)

pub contains-append :
    (k : ℕ) (xs ys : List ℕ) → contains k (xs ++ ys) ≡ (contains k xs || contains k ys)
unfolding contains
contains-append k [] ys = refl
contains-append k (x ∷ xs) ys = ground (arith, contains-append k xs ys)

pub take-From : (n a : ℕ) (xs : List ℕ) → From a xs → From a (take n xs)
take-From zero a xs f = tt
take-From (suc n) a [] f = tt
take-From (suc n) a (x ∷ xs) f = (f.0, take-From n (x + 1) xs f.1)

-- Two tests that agree above a bound keep the same members above it.
keep_agree :
    (p q : ℕ → Bool) (a : ℕ) (xs : List ℕ)
    → ((k : ℕ) → a ≤ k → p k ≡ q k)
    → From a xs
    → keep p xs ≡ keep q xs
unfolding keep
keep_agree p q a [] h f = refl
keep_agree p q a (x ∷ xs) h f = ground (
  arith,
  h x f.0,
  keep_agree p q (x + 1) xs (λ k l. h k (let le : a ≤ x = f.0 in omega arith)) f.1,
)

after_first : (k x : ℕ) (xs : List ℕ) → x + 1 ≤ k → not (contains k (x ∷ xs)) ≡ not (contains k xs)
unfolding contains
after_first k x xs l = ground arith

-- Without its first `n` members a set has `n` members fewer.
pub length-without_take :
    (n a : ℕ) (xs : List ℕ)
    → From a xs
    → length (keep (λ x. not (contains x (take n xs))) xs) ≡ length xs - n
unfolding keep contains
length-without_take n a [] f = omega arith
length-without_take zero a (x ∷ xs) f = omega (arith, length-without_take zero (x + 1) xs f.1)
length-without_take (suc n) a (x ∷ xs) f =
    let agree =
      keep_agree (λ k. not (contains k (x ∷ take n xs))) (λ k. not (contains k (take n xs))) (x + 1)
        xs (λ k l. after_first k x (take n xs) l) f.1 in
    ground (arith, agree, length-without_take n (x + 1) xs f.1)

in_first : (x : ℕ) (xs : List ℕ) → contains x (x ∷ xs) ≡ true
unfolding contains
in_first x xs = ground arith

in_rest : (k x : ℕ) (xs : List ℕ) → contains k xs ≡ true → contains k (x ∷ xs) ≡ true
unfolding contains
in_rest k x xs h = ground arith

-- Two tests that agree on the members keep the same ones.
pub keep_same :
    (p q : ℕ → Bool) (xs : List ℕ)
    → ((k : ℕ) → contains k xs ≡ true → p k ≡ q k)
    → keep p xs ≡ keep q xs
unfolding keep
keep_same p q [] h = refl
keep_same p q (x ∷ xs) h =
    ground (arith, h x (in_first x xs), keep_same p q xs (λ k c. h k (in_rest k x xs c)))

pub contains-Within :
    (k : ℕ) (ys xs : List ℕ) → Within ys xs → contains k xs ≡ true → contains k ys ≡ true
unfolding contains
contains-Within k ys [] w h = cc
contains-Within k ys (x ∷ xs) w h =
    ground
      (arith, contains-Within k ys xs w.1, λ (e : x ≡ k). subst (λ j. contains j ys ≡ true) e w.0)

pub Within-contains :
    (ys xs : List ℕ) → ((k : ℕ) → contains k xs ≡ true → contains k ys ≡ true) → Within ys xs
Within-contains ys [] h = tt
Within-contains ys (x ∷ xs) h =
    (h x (in_first x xs), Within-contains ys xs (λ k c. h k (in_rest k x xs c)))

pub contains-take : (k n : ℕ) (xs : List ℕ) → contains k (take n xs) ≡ true → contains k xs ≡ true
unfolding contains
contains-take k zero xs h = cc
contains-take k (suc n) [] h = cc
contains-take k (suc n) (x ∷ xs) h = ground (arith, contains-take k n xs)

length-insert_sorted : (a : ℕ) (xs : List ℕ) → length (insert_sorted a xs) ≡ suc (length xs)
unfolding insert_sorted
length-insert_sorted a [] = refl
length-insert_sorted a (x ∷ xs) = ground (arith, length-insert_sorted a xs)

pub length-sort : (xs : List ℕ) → length (sort xs) ≡ length xs
unfolding sort
length-sort [] = refl
length-sort (x ∷ xs) = ground (arith, length-insert_sorted x (sort xs), length-sort xs)
