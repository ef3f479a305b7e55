-- ===== src/Prelude/Map/Size.antt =====
-- How the operations of an ordered map change the number of its entries and a sum over its values.
use Prim.Native.Nat.{ℕ, ◌+◌, Ordering}
use mathlib.Core.Path.{◌≡◌, subst}
use mathlib.Core.Option.{Option, none, some}
use mathlib.Core.List.{[], ◌∷◌}
use native.Mathlib.Omega.{arith}
use cartridge_runtime.Prelude.Lists.{length}
use cartridge_runtime.Prelude.Order.{Ord}
use cartridge_runtime.Prelude.Map.{Map, get, insert, remove, Above, IsSorted, get-Above}

-- The size of a value, zero where there is none.
abbrev pub size_of {κ} : {V : Type κ} (f : V → ℕ) → Option V → ℕ
size_of f none = 0
size_of f (some v) = f v

-- The sum of `f` over the values.
module _ {ℓ κ} {K : Type ℓ} {V : Type κ} (f : V → ℕ) where
  abbrev pub total : Map K V → ℕ
  total [] = 0
  total ((k, v) ∷ m) = f v + total m

module _ {ℓ κ} {K : Type ℓ} {V : Type κ} where
  abbrev pub AllValues {μ} : (V → Type μ) → Map K V → Type μ
  AllValues P [] = Unit
  AllValues P ((k, v) ∷ m) = P v × AllValues P m

abbrev pub count_of {ℓ} : {V : Type ℓ} → Option V → ℕ
count_of none = 0
count_of (some v) = 1

module _ {ℓ κ} {K : Type ℓ} {V : Type κ} ⦃o : Ord K⦄ where
  get_first :
      (k j : K) (w : V) (m : Map K V)
      → o.cmp k j ≡ Ordering.lt
      → Above j m
      → get k ((j, w) ∷ m) ≡ none
  get_first k j w m h a = get-Above k ((j, w) ∷ m) (h, a)

  tail-IsSorted : (j : K) (m : Map K V) → Above j m → IsSorted m
  tail-IsSorted j [] a = tt
  tail-IsSorted j ((i, w) ∷ m) a = a.1

  pub total-insert :
      (f : V → ℕ) (k : K) (v : V) (m : Map K V)
      → IsSorted m
      → total f (insert k v m) + size_of f (get k m) ≡ total f m + f v
  unfolding get insert
  total-insert f k v [] s = omega arith
  total-insert f k v ((j, w) ∷ m) s =
      ground (arith, total-insert f k v m (tail-IsSorted j m s), get_first k j w m)

  pub length-insert :
      (k : K) (v : V) (m : Map K V)
      → IsSorted m
      → length (insert k v m) + count_of (get k m) ≡ length m + 1
  unfolding get insert
  length-insert k v [] s = omega arith
  length-insert k v ((j, w) ∷ m) s =
      ground (arith, length-insert k v m (tail-IsSorted j m s), get_first k j w m)

  pub total-remove :
      (f : V → ℕ) (k : K) (m : Map K V) → total f (remove k m) + size_of f (get k m) ≡ total f m
  unfolding get remove
  total-remove f k [] = omega arith
  total-remove f k ((j, w) ∷ m) = ground (arith, total-remove f k m)

  pub length-remove : (k : K) (m : Map K V) → length (remove k m) + count_of (get k m) ≡ length m
  unfolding get remove
  length-remove k [] = omega arith
  length-remove k ((j, w) ∷ m) = ground (arith, length-remove k m)

  pub AllValues-insert {μ} :
      (P : V → Type μ) (k : K) (v : V) (m : Map K V)
      → P v
      → AllValues P m
      → AllValues P (insert k v m)
  unfolding insert
  AllValues-insert P k v [] p a = (p, tt)
  AllValues-insert P k v ((j, w) ∷ m) p a = ground (arith, AllValues-insert P k v m p a.1)

  pub AllValues-remove {μ} :
      (P : V → Type μ) (k : K) (m : Map K V) → AllValues P m → AllValues P (remove k m)
  unfolding remove
  AllValues-remove P k [] a = tt
  AllValues-remove P k ((j, w) ∷ m) a = ground (arith, AllValues-remove P k m a.1)

  pub AllValues-get {μ} :
      (P : V → Type μ) (k : K) (m : Map K V) {v : V} → AllValues P m → get k m ≡ some v → P v
  unfolding get
  AllValues-get P k [] a e = cc
  AllValues-get P k ((j, w) ∷ m) {v} a e =
      ground (arith, AllValues-get P k m {v = v} a.1, λ (p : w ≡ v). subst P p a.0)
