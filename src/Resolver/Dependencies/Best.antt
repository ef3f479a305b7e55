-- ===== src/Resolver/Dependencies/Best.antt =====
-- Which of the candidates `resolve_dependencies` chooses.
use mathlib.Core.List.{Memᴰ}
use cartridge_runtime.Prelude.{
  Bool, true, false, ◌&&◌, none, some, List, [], ◌∷◌, ltb, length, any, All, if◌then◌else◌, ◌≡◌,
  refl, subst, inl, inr, Bool-cases, if_cases, option_cases, ◌||◌, arith,
}
use cartridge_runtime.Prelude.Text.{Text, text_eq}
use cartridge_runtime.Prelude.Results.{
  ok, reject, ok_or, ◌>>=◌, >>=-eq-ok, >>-eq-ok, ok_or-ok, ok_injective,
}
use cartridge_runtime.Manifest.Types.{Crates, PackageManifest, CartridgeDependency}
use cartridge_runtime.Manifest.Package.{validate_package}
use cartridge_runtime.Resolver.Types.{
  ResolvedDependency, UnavailableDependency, ResolutionPlan, Resolution, invalid_manifest,
  candidate_limit, max_resolution_candidates,
}
use cartridge_runtime.Resolver.Dependencies.{
  provides_all, matching, is_lower, sort_versions, find_provider, leave_out, unavailable_reason,
  resolved_by, add_resolved, add_unavailable, resolve_all, resolve_dependencies, of_manifest,
  check_candidates, check_unique,
}
use cartridge_runtime.Resolver.Dependencies.Sorted.{
  Found, sort-IsDescending, All-sort, sort-All, Unfit, find-best, find-none,
}

module _ {V R : Type 0} (crates : Crates V R) where
  -- A candidate that `d` could use, if its version passes the test.
  abbrev pub is_usable : R → CartridgeDependency → (V → Bool) → PackageManifest → Bool
  is_usable requirement d p c = elim (crates.parse c.cartridge.version) [
    | none ↦ false
    | some version ↦
        text_eq c.cartridge.id d.cartridge
        && crates.matches_version requirement version
        && provides_all d c
        && p version
  ]

  matching-unusable :
      (requirement : R) (d : CartridgeDependency) (p : V → Bool) (cs : List PackageManifest)
      → Unfit crates d p (matching crates requirement d cs)
      → any (is_usable requirement d p) cs ≡ false
  unfolding matching
  matching-unusable requirement d p [] = λ h. refl
  matching-unusable requirement d p (c ∷ cs) =
      let rest = matching crates requirement d cs in
      option_cases
        (λ o.
          Unfit crates d p (elim o [
            | none ↦ rest
            | some v ↦
                if text_eq c.cartridge.id d.cartridge && crates.matches_version requirement v
                then (v, c) ∷ rest
                else rest
          ])
          → (elim o [
            | none ↦ false
            | some v ↦
                text_eq c.cartridge.id d.cartridge
                && crates.matches_version requirement v
                && provides_all d c
                && p v
          ]
              || any (is_usable requirement d p) cs)
            ≡ false)
        (crates.parse c.cartridge.version) (λ e h. matching-unusable requirement d p cs h)
        (λ v e.
          if_cases
            (λ xs.
              Unfit crates d p xs
              → ((text_eq c.cartridge.id d.cartridge
                    && crates.matches_version requirement v
                    && provides_all d c
                    && p v)
                  || any (is_usable requirement d p) cs)
                ≡ false)
            (text_eq c.cartridge.id d.cartridge && crates.matches_version requirement v)
            ((v, c) ∷ rest) rest
            (λ t h. ground (arith, t, h.0, matching-unusable requirement d p cs h.1))
            (λ t h. ground (arith, t, matching-unusable requirement d p cs h)))

  -- One of the candidates, of the dependency's id and with a version that matches.
  abbrev pub IsCandidate : R → CartridgeDependency → List PackageManifest → Found crates → Type 0
  IsCandidate requirement d candidates x =
      Memᴰ x.1 candidates
      × (crates.parse x.1.cartridge.version ≡ some x.0)
      × (text_eq x.1.cartridge.id d.cartridge ≡ true)
      × (crates.matches_version requirement x.0 ≡ true)

  matching-IsCandidate :
      (requirement : R) (d : CartridgeDependency) (candidates cs : List PackageManifest)
      → ((c : PackageManifest) → Memᴰ c cs → Memᴰ c candidates)
      → All (IsCandidate requirement d candidates) (matching crates requirement d cs)
  unfolding matching
  matching-IsCandidate requirement d candidates [] inside = tt
  matching-IsCandidate requirement d candidates (c ∷ cs) inside =
      let rest = matching crates requirement d cs in
      let found =
        matching-IsCandidate requirement d candidates cs (λ x i. inside x (Memᴰ.tail i)) in
      option_cases
        (λ o. All (IsCandidate requirement d candidates) (elim o [
          | none ↦ rest
          | some v ↦
              if text_eq c.cartridge.id d.cartridge && crates.matches_version requirement v
              then (v, c) ∷ rest
              else rest
        ]))
        (crates.parse c.cartridge.version) (λ e. found)
        (λ v e.
          if_cases (All (IsCandidate requirement d candidates))
            (text_eq c.cartridge.id d.cartridge && crates.matches_version requirement v)
            ((v, c) ∷ rest) rest
            (λ t. ((inside c (Memᴰ.head refl), e, ground (arith, t), ground (arith, t)), found))
            (λ t. found))

  find-All {ℓ} :
      (P : Found crates → Type ℓ) (d : CartridgeDependency) (xs : List (Found crates))
      (x : Found crates)
      → All P xs
      → find_provider crates d xs ≡ some x
      → P x
  unfolding find_provider
  find-All P d [] x k h = cc
  find-All P d (y ∷ ys) x k h = elim (Bool-cases (provides_all d y.1)) [
    | inl fit ↦ subst P (ground (arith, fit, h)) k.0
    | inr unfit ↦ find-All P d ys x k.1 (ground (arith, unfit, h))
  ]

  -- A dependency is resolved by the highest version of the candidates that it could use.
  abbrev pub IsBest : List PackageManifest → CartridgeDependency → ResolvedDependency → Type 0
  IsBest candidates d r =
      (requirement : R) × (version : V) × (provider : PackageManifest) × (crates.parse_requirement
          d.version
        ≡ some requirement)
      × IsCandidate requirement d candidates (version, provider)
      × (provides_all d provider ≡ true)
      × (any (is_usable requirement d (is_lower crates version)) candidates ≡ false)
      × (r ≡ resolved_by crates d version)

  -- A dependency that is optional, and that no candidate could serve.
  abbrev pub IsLeftOut : List PackageManifest → CartridgeDependency → UnavailableDependency → Type 0
  IsLeftOut candidates d u =
      (requirement : R) × (crates.parse_requirement d.version ≡ some requirement)
      × (d.optional ≡ true)
      × (any (is_usable requirement d (λ v. true)) candidates ≡ false)
      × (u.alias ≡ d.alias)
      × (u.cartridge ≡ d.cartridge)

  -- Every dependency, in turn, is resolved by the best candidate or left out.
  pub data IsResolution (candidates : List PackageManifest)
      : List CartridgeDependency
        → List ResolvedDependency
        → List UnavailableDependency
        → Type 0 where
    finished : IsResolution candidates [] [] []
    resolves :
        {d : CartridgeDependency} {r : ResolvedDependency} {ds : List CartridgeDependency}
        {rs : List ResolvedDependency} {us : List UnavailableDependency}
        → IsBest candidates d r
        → IsResolution candidates ds rs us
        → IsResolution candidates (d ∷ ds) (r ∷ rs) us
    leaves_out :
        {d : CartridgeDependency} {u : UnavailableDependency} {ds : List CartridgeDependency}
        {rs : List ResolvedDependency} {us : List UnavailableDependency}
        → IsLeftOut candidates d u
        → IsResolution candidates ds rs us
        → IsResolution candidates (d ∷ ds) rs (u ∷ us)

  abbrev Resolved : List PackageManifest → List CartridgeDependency → ResolutionPlan → Type 0
  Resolved candidates ds plan = IsResolution candidates ds plan.resolved plan.unavailable_optional

  taken-Resolved :
      (candidates : List PackageManifest) (d : CartridgeDependency) (ds : List CartridgeDependency)
      (r : ResolvedDependency) (rest : Resolution ResolutionPlan) (plan : ResolutionPlan)
      → IsBest candidates d r
      → ((p : ResolutionPlan) → rest ≡ ok p → Resolved candidates ds p)
      → (rest >>= (λ p. ok (add_resolved crates r p))) ≡ ok plan
      → Resolved candidates (d ∷ ds) plan
  taken-Resolved candidates d ds r rest plan best later h =
      let (p, went, h1) = >>=-eq-ok rest _ h in
      subst (Resolved candidates (d ∷ ds)) (ok_injective (add_resolved crates r p) plan _ refl h1)
        (resolves best (later p went))

  left_out-Resolved :
      (candidates : List PackageManifest) (d : CartridgeDependency) (ds : List CartridgeDependency)
      (reason : Text) (rest : Resolution ResolutionPlan) (plan : ResolutionPlan) (requirement : R)
      → crates.parse_requirement d.version ≡ some requirement
      → any (is_usable requirement d (λ v. true)) candidates ≡ false
      → ((p : ResolutionPlan) → rest ≡ ok p → Resolved candidates ds p)
      → leave_out crates d reason rest ≡ ok plan
      → Resolved candidates (d ∷ ds) plan
  unfolding leave_out
  left_out-Resolved candidates d ds reason rest plan requirement parsed unusable later h =
      elim (Bool-cases d.optional) [
        | inr required ↦ absurd (cc (required, h))
        | inl spare ↦
            let u : UnavailableDependency = record {
              alias = d.alias;
              cartridge = d.cartridge;
              reason = reason;
            } in
            let (p, went, h1) =
              >>=-eq-ok rest (λ p. ok (add_unavailable crates u p)) (cc (spare, h)) in
            subst (Resolved candidates (d ∷ ds))
              (ok_injective (add_unavailable crates u p) plan _ refl h1)
              (leaves_out {u = u} (requirement, parsed, spare, unusable, refl, refl) (later p went))
      ]

  found-IsBest :
      (candidates : List PackageManifest) (d : CartridgeDependency) (requirement : R)
      (x : Found crates)
      → crates.parse_requirement d.version ≡ some requirement
      → find_provider crates d (sort_versions crates (matching crates requirement d candidates))
        ≡ some x
      → IsBest candidates d (resolved_by crates d x.0)
  found-IsBest candidates d requirement x parsed found =
      let all = matching crates requirement d candidates in
      let (fit, above) =
        find-best crates d (sort_versions crates all) x (sort-IsDescending crates all) found in
      let chosen =
        find-All (IsCandidate requirement d candidates) d (sort_versions crates all) x
          (All-sort crates (IsCandidate requirement d candidates) all
            (matching-IsCandidate requirement d candidates candidates (λ c i. i)))
          found in
      (
        requirement,
        x.0,
        x.1,
        parsed,
        chosen,
        fit,
        matching-unusable requirement d (is_lower crates x.0) candidates
            (sort-All crates _ all above),
        refl,
      )

  resolve_all-Resolved :
      (candidates : List PackageManifest) (ds : List CartridgeDependency) (plan : ResolutionPlan)
      → resolve_all crates candidates ds ≡ ok plan
      → Resolved candidates ds plan
  unfolding resolve_all
  resolve_all-Resolved candidates [] plan h =
      subst (Resolved candidates [])
        (ok_injective (record { resolved = []; unavailable_optional = [] }) plan _ refl h) finished
  resolve_all-Resolved candidates (d ∷ ds) plan h =
      let (requirement, got, h1) =
        >>=-eq-ok (ok_or (crates.parse_requirement d.version) invalid_manifest) _ h in
      let parsed = ok_or-ok _ _ got in
      let sorted = sort_versions crates (matching crates requirement d candidates) in
      let rest = resolve_all crates candidates ds in
      option_cases
        (λ o.
          elim o [
            | none ↦ leave_out crates d (unavailable_reason crates d candidates requirement) rest
            | some x ↦ rest >>= (λ p. ok (add_resolved crates (resolved_by crates d x.0) p))
          ]
            ≡ ok plan
          → Resolved candidates (d ∷ ds) plan)
        (find_provider crates d sorted)
        (λ missing.
          left_out-Resolved candidates d ds (unavailable_reason crates d candidates requirement)
            rest plan requirement parsed
            (matching-unusable requirement d (λ v. true) candidates
              (sort-All crates _ (matching crates requirement d candidates)
                (find-none crates d sorted missing)))
            (λ p. resolve_all-Resolved candidates ds p))
        (λ x found.
          taken-Resolved candidates d ds (resolved_by crates d x.0) rest plan
            (found-IsBest candidates d requirement x parsed found)
            (λ p. resolve_all-Resolved candidates ds p))
        h1

  -- A plan that is found resolves every dependency of the package, in their order, by the highest
  -- version of the candidates that it could use, or leaves it out if it is optional and there are none.
  pub resolve_dependencies-IsResolution :
      (root : PackageManifest) (candidates : List PackageManifest) (plan : ResolutionPlan)
      → resolve_dependencies crates root candidates ≡ ok plan
      → IsResolution candidates root.dependencies plan.resolved plan.unavailable_optional
  unfolding resolve_dependencies
  resolve_dependencies-IsResolution root candidates plan h =
      let (few, h1) =
        >>-eq-ok (reject (ltb max_resolution_candidates (length candidates)) candidate_limit) _ h in
      let (valid, h2) = >>-eq-ok (of_manifest (validate_package crates root)) _ h1 in
      let (checked, h3) = >>-eq-ok (check_candidates crates candidates) _ h2 in
      let (unique, h4) = >>-eq-ok (check_unique crates [] candidates) _ h3 in
      resolve_all-Resolved candidates root.dependencies plan h4
