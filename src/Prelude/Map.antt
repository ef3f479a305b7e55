-- ===== src/Prelude/Map.antt =====
-- Rust's `BTreeMap`: the entries in ascending order of their keys.
pub mod Size
use Prim.Native.Nat.{ℕ, ◌+◌, ◌≤◌, Ordering}
use mathlib.Core.Path.{◌≡◌, refl}
use mathlib.Core.Bool.{Bool, true, false}
use mathlib.Core.Option.{Option, none, some}
use mathlib.Core.List.{List, [], ◌∷◌}
use native.Mathlib.Omega.{arith}
use cartridge_runtime.Prelude.Tests.{is_some, if◌then◌else◌}
use cartridge_runtime.Prelude.Lists.{length}
use cartridge_runtime.Prelude.Order.{Ord, flip}

abbrev pub Map {ℓ κ} : Type ℓ → Type κ → Type (ℓ ⊔ κ)
Map K V = List (K × V)

module _ {ℓ} {K : Type ℓ} ⦃o : Ord K⦄ where
  -- The test that two keys are one.
  abbrev pub same_key : K → K → Bool
  same_key k j = elim (o.cmp k j) [ Ordering.eq ↦ true | _ ↦ false ]

  pub same_key_refl : (k : K) → same_key k k ≡ true
  same_key_refl k = ground (arith, o.cmp_refl k)

  pub same_key-eq : (k j : K) → same_key k j ≡ true → k ≡ j
  same_key-eq k j h = ground (arith, o.cmp_eq k j)

module _ {ℓ κ} {K : Type ℓ} {V : Type κ} ⦃o : Ord K⦄ where
  unfoldable pub get : K → Map K V → Option V
  get k [] = none
  get k ((j, v) ∷ m) = let rest = get k m in elim (o.cmp k j) [ Ordering.eq ↦ some v | _ ↦ rest ]

  unfoldable pub insert : K → V → Map K V → Map K V
  insert k v [] = (k, v) ∷ []
  insert k v ((j, w) ∷ m) =
      let rest = insert k v m in
      elim (o.cmp k j) [
        | Ordering.lt ↦ (k, v) ∷ (j, w) ∷ m
        | Ordering.eq ↦ (k, v) ∷ m
        | Ordering.gt ↦ (j, w) ∷ rest
      ]

  unfoldable pub remove : K → Map K V → Map K V
  remove k [] = []
  remove k ((j, w) ∷ m) =
      let rest = remove k m in elim (o.cmp k j) [ Ordering.eq ↦ m | _ ↦ (j, w) ∷ rest ]

  -- The keys rise strictly, from above `k`.
  abbrev pub Above : K → Map K V → Type 0
  Above k [] = Unit
  Above k ((j, v) ∷ m) = (o.cmp k j ≡ Ordering.lt) × Above j m

  abbrev pub IsSorted : Map K V → Type 0
  IsSorted [] = Unit
  IsSorted ((j, v) ∷ m) = Above j m

module _ {ℓ κ} {K : Type ℓ} {V : Type κ} ⦃o : Ord K⦄ where
  pub get-insert :
      (k j : K) (v : V) (m : Map K V)
      → get j (insert k v m) ≡ (if same_key j k then some v else get j m)
  unfolding get insert
  get-insert k j v [] = ground arith
  get-insert k j v ((i, w) ∷ m) = ground (
    arith,
    get-insert k j v m,
    o.cmp_eq k i,
    o.cmp_eq j k,
    o.cmp_eq j i,
    o.cmp_flip k i,
    o.cmp_flip j k,
    o.cmp_flip j i,
    o.cmp_refl i,
    o.cmp_refl k,
  )

  Above-trans : (k j : K) (m : Map K V) → o.cmp k j ≡ Ordering.lt → Above j m → Above {V = V} k m
  Above-trans k j [] h a = tt
  Above-trans k j ((i, v) ∷ m) h a = (o.lt_trans k j i h a.0, a.1)

  pub get-Above : (k : K) (m : Map K V) → Above k m → get k m ≡ none
  unfolding get
  get-Above k [] a = refl
  get-Above k ((i, v) ∷ m) a = ground (arith, get-Above k m (Above-trans k i m a.0 a.1))

  Above-insert :
      (i k : K) (v : V) (m : Map K V) → o.cmp i k ≡ Ordering.lt → Above i m → Above i (insert k v m)
  unfolding insert
  Above-insert i k v [] h a = (h, tt)
  Above-insert i k v ((j, w) ∷ m) h a =
      ground (arith, o.cmp_flip k j, o.cmp_eq k j, Above-insert j k v m)

  pub IsSorted-insert : (k : K) (v : V) (m : Map K V) → IsSorted m → IsSorted (insert k v m)
  unfolding insert
  IsSorted-insert k v [] s = tt
  IsSorted-insert k v ((j, w) ∷ m) s =
      ground (arith, o.cmp_flip k j, o.cmp_eq k j, Above-insert j k v m)

  Above-remove : (i k : K) (m : Map K V) → Above i m → Above i (remove k m)
  unfolding remove
  Above-remove i k [] a = tt
  Above-remove i k ((j, w) ∷ m) a = ground (arith, Above-remove j k m, Above-trans i j m a.0 a.1)

  pub IsSorted-remove : (k : K) (m : Map K V) → IsSorted m → IsSorted (remove k m)
  unfolding remove
  IsSorted-remove k [] s = tt
  IsSorted-remove k ((j, w) ∷ m) s = ground (arith, Above-remove j k m, sorted_tail j m)
    where
      sorted_tail : (j : K) (m : Map K V) → Above j m → IsSorted m
      sorted_tail j [] a = tt
      sorted_tail j ((i, w) ∷ m) a = a.1

  get-remove_from :
      (i k j : K) (m : Map K V)
      → Above i m
      → get j (remove k m) ≡ (if same_key j k then none else get j m)
  unfolding get remove
  get-remove_from i k j [] a = ground arith
  get-remove_from i k j ((h, w) ∷ m) a = ground (
    arith,
    get-remove_from h k j m a.1,
    get-Above h m a.1,
    o.cmp_eq k h,
    o.cmp_eq j k,
    o.cmp_eq j h,
    o.cmp_refl h,
    o.cmp_refl k,
  )

  pub get-remove :
      (k j : K) (m : Map K V)
      → IsSorted m
      → get j (remove k m) ≡ (if same_key j k then none else get j m)
  unfolding get remove
  get-remove k j [] s = ground arith
  get-remove k j ((h, w) ∷ m) s = ground (
    arith,
    get-remove_from h k j m s,
    get-Above h m s,
    o.cmp_eq k h,
    o.cmp_eq j k,
    o.cmp_eq j h,
    o.cmp_refl h,
    o.cmp_refl k,
  )
