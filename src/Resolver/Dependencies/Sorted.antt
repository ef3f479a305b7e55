-- ===== src/Resolver/Dependencies/Sorted.antt =====
-- Candidates from the highest version, and the first of them that provides what is asked for.
use cartridge_runtime.Prelude.{
  Bool, true, false, ◌&&◌, none, some, List, [], ◌∷◌, All, ◌≡◌, subst, inl, inr, Bool-cases,
  if_cases, arith,
}
use cartridge_runtime.Manifest.Types.{Crates, PackageManifest, CartridgeDependency}
use cartridge_runtime.Resolver.Dependencies.{
  provides_all, is_lower, insert_version, sort_versions, find_provider,
}

module _ {V R : Type 0} (crates : Crates V R) where
  abbrev pub Found : Type 0
  Found = V × PackageManifest

  not_lower_trans :
      (x y z : V)
      → is_lower crates x y ≡ false
      → is_lower crates y z ≡ false
      → is_lower crates x z ≡ false
  not_lower_trans x y z h k =
      let o = crates.version_ord in ground (arith, o.cmp_flip x y, o.cmp_eq x y, o.lt_trans y x z)

  not_lower_flip : (x y : V) → is_lower crates x y ≡ true → is_lower crates y x ≡ false
  not_lower_flip x y h = ground (arith, crates.version_ord.cmp_flip x y)

  -- No version after another is higher.
  abbrev pub IsDescending : List Found → Type 0
  IsDescending [] = Unit
  IsDescending (x ∷ xs) = All (λ y. is_lower crates x.0 y.0 ≡ false) xs × IsDescending xs

  pub All-insert {ℓ} :
      (P : Found → Type ℓ) (x : Found) (ys : List Found)
      → P x
      → All P ys
      → All P (insert_version crates x ys)
  unfolding insert_version
  All-insert P x [] h k = (h, tt)
  All-insert P x (y ∷ ys) h k =
      if_cases (All P) (is_lower crates x.0 y.0) (y ∷ insert_version crates x ys) (x ∷ y ∷ ys)
        (λ low. (k.0, All-insert P x ys h k.1)) (λ high. (h, k))

  pub insert-All {ℓ} :
      (P : Found → Type ℓ) (x : Found) (ys : List Found)
      → All P (insert_version crates x ys)
      → P x × All P ys
  unfolding insert_version
  insert-All P x [] = λ h. h
  insert-All P x (y ∷ ys) =
      if_cases (λ xs. All P xs → P x × All P (y ∷ ys)) (is_lower crates x.0 y.0)
        (y ∷ insert_version crates x ys) (x ∷ y ∷ ys)
        (λ low h. let (here, rest) = insert-All P x ys h.1 in (here, (h.0, rest))) (λ high h. h)

  insert-IsDescending :
      (x : Found) (ys : List Found) → IsDescending ys → IsDescending (insert_version crates x ys)
  unfolding insert_version
  insert-IsDescending x [] h = (tt, tt)
  insert-IsDescending x (y ∷ ys) h =
      if_cases IsDescending (is_lower crates x.0 y.0) (y ∷ insert_version crates x ys) (x ∷ y ∷ ys)
        (λ low. (
          All-insert (λ z. is_lower crates y.0 z.0 ≡ false) x ys (not_lower_flip x.0 y.0 low) h.0,
          insert-IsDescending x ys h.1,
        ))
        (λ high. ((high, below ys h.0 high), h))
    where
      below :
          (zs : List Found)
          → All (λ z. is_lower crates y.0 z.0 ≡ false) zs
          → is_lower crates x.0 y.0 ≡ false
          → All (λ z. is_lower crates x.0 z.0 ≡ false) zs
      below [] k high = tt
      below (z ∷ zs) k high = (not_lower_trans x.0 y.0 z.0 high k.0, below zs k.1 high)

  pub sort-IsDescending : (xs : List Found) → IsDescending (sort_versions crates xs)
  unfolding sort_versions
  sort-IsDescending [] = tt
  sort-IsDescending (x ∷ xs) =
      insert-IsDescending x (sort_versions crates xs) (sort-IsDescending xs)

  pub All-sort {ℓ} :
      (P : Found → Type ℓ) (xs : List Found) → All P xs → All P (sort_versions crates xs)
  unfolding sort_versions
  All-sort P [] h = tt
  All-sort P (x ∷ xs) h = All-insert P x (sort_versions crates xs) h.0 (All-sort P xs h.1)

  pub sort-All {ℓ} :
      (P : Found → Type ℓ) (xs : List Found) → All P (sort_versions crates xs) → All P xs
  unfolding sort_versions
  sort-All P [] h = tt
  sort-All P (x ∷ xs) h =
      let (here, rest) = insert-All P x (sort_versions crates xs) h in (here, sort-All P xs rest)

  -- A test of a version fails for everything found that provides the interfaces.
  abbrev pub Unfit : CartridgeDependency → (V → Bool) → List Found → Type 0
  Unfit d p = All (λ y. (provides_all d y.1 && p y.0) ≡ false)

  pub find-best :
      (d : CartridgeDependency) (xs : List Found) (x : Found)
      → IsDescending xs
      → find_provider crates d xs ≡ some x
      → (provides_all d x.1 ≡ true) × Unfit d (is_lower crates x.0) xs
  unfolding find_provider
  find-best d [] x s h = cc
  find-best d (y ∷ ys) x s h = elim (Bool-cases (provides_all d y.1)) [
    | inl fit ↦
        let e : y ≡ x = ground (arith, fit, h) in
        subst (λ z. (provides_all d z.1 ≡ true) × Unfit d (is_lower crates z.0) (y ∷ ys)) e
          (fit, (ground (arith, crates.version_ord.cmp_refl y.0), weaken ys s.0))
    | inr unfit ↦
        let (fit, rest) = find-best d ys x s.1 (ground (arith, unfit, h)) in
        (fit, (ground (arith, unfit), rest))
  ]
    where
      weaken :
          (zs : List Found)
          → All (λ z. is_lower crates y.0 z.0 ≡ false) zs
          → Unfit d (is_lower crates y.0) zs
      weaken [] k = tt
      weaken (z ∷ zs) k = (ground (arith, k.0), weaken zs k.1)

  pub find-none :
      (d : CartridgeDependency) (xs : List Found)
      → find_provider crates d xs ≡ none
      → Unfit d (λ v. true) xs
  unfolding find_provider
  find-none d [] h = tt
  find-none d (y ∷ ys) h = (ground (arith, h), find-none d ys (ground (arith, h)))
