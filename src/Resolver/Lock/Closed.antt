-- ===== src/Resolver/Lock/Closed.antt =====
-- What a valid lock has.
use mathlib.Core.Logic.{⊎_elim}
use mathlib.Core.List.{Memᴰ}
use mathlib.Core.List.Memᴰ
use cartridge_runtime.Prelude.{
  true, not, ◌||◌, Option, none, some, List, [], ◌∷◌, ltb, ◌==◌, length, all, map, is_some_and,
  if_cases, ◌≡◌, ◌⊎◌, inl, inr, ◌↔◌, refl, sym, subst, Bool-cases, arith,
}
use Prim.Native.Nat.{Ordering}
use cartridge_runtime.Prelude.Text.{text_cmp, text_cmp_eq, text_eq_iff}
use cartridge_runtime.Prelude.Results.{ok, reject, >>=-eq-ok, >>-eq-ok, reject-ok, ok_injective}
use cartridge_runtime.Manifest.Types.{Crates}
use cartridge_runtime.Resolver.Types.{
  LockedPackage, CompositionLock, ResolutionPlan, ResolvedDependency, Key, key_eq, has_key,
  lock_counts, lock_order, composition_lock_format_version, max_locked_packages,
}
use cartridge_runtime.Resolver.Lock.{
  provider_key, dependency_key, key_lt, same_keys, insert_provider, sort_providers,
  validate_locked_package, check_providers, check_resolved, check_unavailable, validate_lock,
  new_lock,
}

-- The one package comes before the other: its id is lower, byte for byte, or they have one id and its
-- version is lower.
abbrev pub IsBefore : LockedPackage → LockedPackage → Type 0
IsBefore p q =
    (text_cmp p.cartridge_id q.cartridge_id ≡ Ordering.lt)
    ⊎ ((p.cartridge_id ≡ q.cartridge_id) × (text_cmp p.version q.version ≡ Ordering.lt))

-- The package comes before the first of the list.
abbrev pub Heads : LockedPackage → List LockedPackage → Type 0
Heads p [] = Unit
Heads p (q ∷ qs) = IsBefore p q

-- Each package comes before the next.
abbrev pub Rising : List LockedPackage → Type 0
Rising [] = Unit
Rising (p ∷ ps) = Heads p ps × Rising ps

-- The dependency is on the package.
abbrev pub IsFor : ResolvedDependency → LockedPackage → Type 0
IsFor d p = (d.cartridge ≡ p.cartridge_id) × (d.version ≡ p.version)

-- The providers rise; each resolved dependency is on one of them, and each has a dependency on it.
pub record IsClosed (l : CompositionLock) : Type 0 where
  pub rising : Rising l.providers
  pub supplied :
      (d : ResolvedDependency)
      → Memᴰ d l.plan.resolved
      → (p : LockedPackage) × Memᴰ p l.providers × IsFor d p
  pub needed :
      (p : LockedPackage)
      → Memᴰ p l.providers
      → (d : ResolvedDependency) × Memᴰ d l.plan.resolved × IsFor d p

key_lt-IsBefore :
    (p q : LockedPackage) → key_lt (provider_key p) (provider_key q) ≡ true → IsBefore p q
key_lt-IsBefore p q h = go (text_cmp p.cartridge_id q.cartridge_id) refl
  where
    go : (o : Ordering) → text_cmp p.cartridge_id q.cartridge_id ≡ o → IsBefore p q
    go Ordering.lt e = inl e
    go Ordering.eq e = inr (text_cmp_eq p.cartridge_id q.cartridge_id e, ground (arith, h, e))
    go Ordering.gt e = absurd (ground (arith, h, e))

-- A key of a list belongs to one of its members.
has_key-Memᴰ {ℓ} :
    {A : Type ℓ} (f : A → Key) (k : Key) (xs : List A)
    → has_key k (map f xs) ≡ true
    → (x : A) × Memᴰ x xs × ((k.0 ≡ (f x).0) × (k.1 ≡ (f x).1))
has_key-Memᴰ f k [] h = cc
has_key-Memᴰ f k (x ∷ xs) h = elim (Bool-cases (key_eq k (f x))) [
  | inl e ↦ (
    x,
    Memᴰ.head refl,
    (
      (text_eq_iff k.0 (f x).0).0 (ground (arith, e)),
      (text_eq_iff k.1 (f x).1).0 (ground (arith, e)),
    ),
  )
  | inr n ↦ let (y, m, same) = has_key-Memᴰ f k xs (ground (arith, h, n)) in (y, Memᴰ.tail m, same)
]

all-Memᴰ {ℓ} :
    {A : Type ℓ} (f : A → Key) (keys : List Key) (xs : List A) (x : A)
    → all (λ k. has_key k keys) (map f xs) ≡ true
    → Memᴰ x xs
    → has_key (f x) keys ≡ true
all-Memᴰ f keys [] x h m = absurd (Memᴰ.not-nil m)
all-Memᴰ f keys (y ∷ xs) x h m =
    ⊎_elim (λ e. subst (λ z. has_key (f z) keys ≡ true) (sym e) (ground (arith, h)))
      (λ i. all-Memᴰ f keys xs x (ground (arith, h)) i) (Memᴰ.cases_cons m)

Memᴰ-insert :
    (x p : LockedPackage) (qs : List LockedPackage)
    → Memᴰ x (insert_provider p qs) ↔ Memᴰ x (p ∷ qs)
unfolding insert_provider
Memᴰ-insert x p [] = (λ m. m, λ m. m)
Memᴰ-insert x p (q ∷ qs) =
    if_cases (λ xs. Memᴰ x xs ↔ Memᴰ x (p ∷ q ∷ qs)) (key_lt (provider_key q) (provider_key p))
      (q ∷ insert_provider p qs) (p ∷ q ∷ qs)
      (λ low. (
        λ m.
            ⊎_elim (λ e. Memᴰ.tail (Memᴰ.head e)) (λ i. later ((Memᴰ-insert x p qs).0 i))
              (Memᴰ.cases_cons m),
        λ m.
            ⊎_elim (λ e. Memᴰ.tail ((Memᴰ-insert x p qs).1 (Memᴰ.head e)))
              (λ i.
                ⊎_elim Memᴰ.head (λ j. Memᴰ.tail ((Memᴰ-insert x p qs).1 (Memᴰ.tail j)))
                  (Memᴰ.cases_cons i))
              (Memᴰ.cases_cons m),
      ))
      (λ high. (λ m. m, λ m. m))
  where
    later : Memᴰ x (p ∷ qs) → Memᴰ x (p ∷ q ∷ qs)
    later m = ⊎_elim Memᴰ.head (λ i. Memᴰ.tail (Memᴰ.tail i)) (Memᴰ.cases_cons m)

Memᴰ-sort : (x : LockedPackage) (ps : List LockedPackage) → Memᴰ x (sort_providers ps) ↔ Memᴰ x ps
unfolding sort_providers
Memᴰ-sort x [] = (λ m. m, λ m. m)
Memᴰ-sort x (p ∷ ps) = (
  λ m.
      ⊎_elim Memᴰ.head (λ i. Memᴰ.tail ((Memᴰ-sort x ps).0 i))
        (Memᴰ.cases_cons ((Memᴰ-insert x p (sort_providers ps)).0 m)),
  λ m.
      (Memᴰ-insert x p (sort_providers ps)).1
        (⊎_elim Memᴰ.head (λ i. Memᴰ.tail ((Memᴰ-sort x ps).1 i)) (Memᴰ.cases_cons m)),
)

module _ {V R : Type 0} (crates : Crates V R) where
  check_providers-Heads :
      (p : LockedPackage) (ps : List LockedPackage)
      → check_providers crates (some (provider_key p)) ps ≡ ok tt
      → Heads p ps
  unfolding check_providers
  check_providers-Heads p [] h = tt
  check_providers-Heads p (q ∷ ps) h =
      let (valid, h1) = >>-eq-ok (validate_locked_package crates q) _ h in
      let (above, h2) =
        >>-eq-ok (reject (not (key_lt (provider_key p) (provider_key q))) lock_order) _ h1 in
      key_lt-IsBefore p q (ground (arith, reject-ok _ _ above))

  check_providers-Rising :
      (last : Option Key) (ps : List LockedPackage)
      → check_providers crates last ps ≡ ok tt
      → Rising ps
  unfolding check_providers
  check_providers-Rising last [] h = tt
  check_providers-Rising last (p ∷ ps) h =
      let (valid, h1) = >>-eq-ok (validate_locked_package crates p) _ h in
      let (above, h2) =
        >>-eq-ok (reject (is_some_and last (λ key. not (key_lt key (provider_key p)))) lock_order) _
          h1 in
      (check_providers-Heads p ps h2, check_providers-Rising (some (provider_key p)) ps h2)

  validate_lock-IsClosed : (l : CompositionLock) → validate_lock crates l ≡ ok tt → IsClosed l
  unfolding validate_lock
  validate_lock-IsClosed l h =
      let (counts, h1) =
        >>-eq-ok
          (reject
            (not (l.format_version == composition_lock_format_version)
              || ltb max_locked_packages (length l.providers)
              || ltb max_locked_packages (length l.plan.resolved)
              || ltb max_locked_packages (length l.plan.unavailable_optional))
            lock_counts)
          _ h in
      let (root, h2) = >>-eq-ok (validate_locked_package crates l.root) _ h1 in
      let (rising, h3) = >>-eq-ok (check_providers crates none l.providers) _ h2 in
      let (aliases, resolved, h4) =
        >>=-eq-ok (check_resolved crates [] (map provider_key l.providers) l.plan.resolved) _ h3 in
      let (left, h5) =
        >>-eq-ok (check_unavailable crates aliases l.plan.unavailable_optional) _ h4 in
      let same : same_keys (map provider_key l.providers) (map dependency_key l.plan.resolved)
          ≡ true =
        ground (arith, reject-ok _ _ h5) in
      record {
        rising = check_providers-Rising none l.providers rising;
        supplied = λ d m. has_key-Memᴰ provider_key (dependency_key d) l.providers (
            all-Memᴰ dependency_key (map provider_key l.providers) l.plan.resolved d
              (ground (arith, same)) m);
        needed = λ p m. needed_by p (
            has_key-Memᴰ dependency_key (provider_key p) l.plan.resolved (
              all-Memᴰ provider_key (map dependency_key l.plan.resolved) l.providers p
                (ground (arith, same)) m));
      }
    where
      needed_by :
          (p : LockedPackage)
          → (d : ResolvedDependency) × Memᴰ d l.plan.resolved
            × ((p.cartridge_id ≡ d.cartridge) × (p.version ≡ d.version))
          → (d : ResolvedDependency) × Memᴰ d l.plan.resolved × IsFor d p
      needed_by p (d, m, (i, v)) = (d, m, (sym i, sym v))

  -- A lock that is made has the packages it is made from as its providers, in strictly ascending order
  -- of their ids, and of their versions where the ids are the same; each dependency of its plan is on
  -- one of them by id and version, and each of them has a dependency on it.
  pub new_lock-IsClosed :
      (root : LockedPackage) (providers : List LockedPackage) (plan : ResolutionPlan)
      (l : CompositionLock) (p : LockedPackage)
      → new_lock crates root providers plan ≡ ok l
      → IsClosed l × (Memᴰ p l.providers ↔ Memᴰ p providers) × (l.plan ≡ plan)
  unfolding new_lock
  new_lock-IsClosed root providers plan l p h =
      let lock : CompositionLock = record {
        format_version = composition_lock_format_version;
        root = root;
        providers = sort_providers providers;
        plan = plan;
      } in
      let (valid, h1) = >>-eq-ok (validate_lock crates lock) _ h in
      subst (λ k. IsClosed k × (Memᴰ p k.providers ↔ Memᴰ p providers) × (k.plan ≡ plan))
        (ok_injective lock l _ refl h1)
        (validate_lock-IsClosed lock valid, Memᴰ-sort p providers, refl)
