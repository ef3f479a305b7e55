-- ===== src/Resolver/Dependencies.antt =====
-- The choice of the providers of a package's dependencies, crates/cartridge-core/src/resolver.rs.
pub mod Sorted
pub mod Best
use Prim.Native.Nat.{Ordering}
use cartridge_runtime.Prelude.{
  Bool, true, false, not, ◌&&◌, Option, none, some, List, [], ◌∷◌, ◌++◌, map, ltb, length, all, any,
  is_empty, is_some, is_some_and, if◌then◌else◌,
}
use cartridge_runtime.Prelude.Text.{Text, text_eq}
use cartridge_runtime.Prelude.Text
use cartridge_runtime.Prelude.Strings.{member, join}
use cartridge_runtime.Prelude.Results.{Result, ok, err, reject, ok_or, ◌>>=◌, ◌>>◌}
use cartridge_runtime.Manifest.Types.{
  Crates, PackageManifest, CartridgeDependency, ProvidedService, ServiceVisibility,
}
use cartridge_runtime.Manifest.Types
use cartridge_runtime.Manifest.Package.{validate_package}
use cartridge_runtime.Resolver.Types.{
  ResolvedDependency, UnavailableDependency, ResolutionPlan, ResolveError, Resolution, Key, has_key,
  invalid_manifest, candidate_limit, duplicate_candidate, required_unavailable,
  max_resolution_candidates,
}

abbrev pub is_private : ServiceVisibility → Bool
is_private ServiceVisibility.private = true
is_private _ = false

-- The interfaces of the services that are not private.
unfoldable pub provided : List ProvidedService → List Text
provided [] = []
provided (s ∷ ss) =
    let rest = provided ss in if is_private s.visibility then rest else s.interface ∷ rest

unfoldable pub provides_all : CartridgeDependency → PackageManifest → Bool
unfolding provided
provides_all d c = all (λ i. member i (provided c.services.provides)) d.interfaces

-- `map_err(|error| ResolveError::InvalidManifest(..))`
abbrev pub of_manifest : Types.Result (Unit {0}) → Resolution (Unit {0})
of_manifest (ok a) = ok a
of_manifest (err e) = err invalid_manifest

module _ {V R : Type 0} (crates : Crates V R) where
  -- The candidates of the dependency's id whose version matches, with their versions.
  unfoldable pub matching :
      R → CartridgeDependency → List PackageManifest → List (V × PackageManifest)
  matching requirement d [] = []
  matching requirement d (c ∷ cs) =
      let rest = matching requirement d cs in
      elim (crates.parse c.cartridge.version) [
        | none ↦ rest
        | some version ↦
            if text_eq c.cartridge.id d.cartridge && crates.matches_version requirement version
            then (version, c) ∷ rest
            else rest
      ]

  abbrev pub is_lower : V → V → Bool
  is_lower v w = elim (crates.version_ord.cmp v w) [ Ordering.lt ↦ true | _ ↦ false ]

  -- `sort_by`, from the highest version, where what was first stays first among equals.
  unfoldable pub insert_version :
      V × PackageManifest → List (V × PackageManifest) → List (V × PackageManifest)
  insert_version x [] = x ∷ []
  insert_version x (y ∷ ys) =
      let rest = insert_version x ys in if is_lower x.0 y.0 then y ∷ rest else x ∷ y ∷ ys

  unfoldable pub sort_versions : List (V × PackageManifest) → List (V × PackageManifest)
  unfolding insert_version
  sort_versions [] = []
  sort_versions (x ∷ xs) = insert_version x (sort_versions xs)

  unfoldable pub find_provider :
      CartridgeDependency → List (V × PackageManifest) → Option (V × PackageManifest)
  unfolding provides_all
  find_provider d [] = none
  find_provider d (x ∷ xs) =
      let rest = find_provider d xs in if provides_all d x.1 then some x else rest

  -- The interfaces that a candidate lacks.
  unfoldable pub missing_interfaces : PackageManifest → List Text → List Text
  unfolding provided
  missing_interfaces c [] = []
  missing_interfaces c (i ∷ is) =
      let rest = missing_interfaces c is in
      if member i (provided c.services.provides) then rest else i ∷ rest

  -- `min_by_key(Vec::len)`, which keeps the first of equals.
  unfoldable pub shortest : List Text → List (List Text) → List Text
  shortest best [] = best
  shortest best (x ∷ xs) = shortest (if ltb (length x) (length best) then x else best) xs

  unfoldable pub shortest_missing : CartridgeDependency → List (V × PackageManifest) → List Text
  unfolding missing_interfaces shortest
  shortest_missing d [] = d.interfaces
  shortest_missing d (x ∷ xs) =
      shortest (missing_interfaces x.1 d.interfaces)
        (map (λ y. missing_interfaces y.1 d.interfaces) xs)

  abbrev pub is_installed : CartridgeDependency → List PackageManifest → Bool
  is_installed d = any (λ c. text_eq c.cartridge.id d.cartridge)

  unfoldable pub unavailable_reason : CartridgeDependency → List PackageManifest → R → Text
  unfolding matching shortest_missing
  unavailable_reason d candidates requirement =
      if not (is_installed d candidates)
      then Text.text "cartridge is not installed"
      else if is_empty (matching requirement d candidates)
      then Text.text "installed versions do not satisfy the requested range"
      else Text.text "compatible versions do not provide: "
        ++ join (Text.text ", ") (shortest_missing d (matching requirement d candidates))

  unfoldable pub check_candidates : List PackageManifest → Resolution (Unit {0})
  check_candidates [] = ok tt
  check_candidates (c ∷ cs) = do of_manifest (validate_package crates c); check_candidates cs

  unfoldable pub check_unique : List Key → List PackageManifest → Resolution (Unit {0})
  check_unique seen [] = ok tt
  check_unique seen (c ∷ cs) = do
    reject (has_key (c.cartridge.id, c.cartridge.version) seen)
        (duplicate_candidate c.cartridge.id c.cartridge.version)
    check_unique ((c.cartridge.id, c.cartridge.version) ∷ seen) cs

  abbrev pub resolved_by : CartridgeDependency → V → ResolvedDependency
  resolved_by d version = record {
    alias = d.alias;
    cartridge = d.cartridge;
    version = crates.to_string version;
    interfaces = d.interfaces;
  }

  abbrev pub add_resolved : ResolvedDependency → ResolutionPlan → ResolutionPlan
  add_resolved r plan = record plan { resolved = r ∷ plan.resolved }

  abbrev pub add_unavailable : UnavailableDependency → ResolutionPlan → ResolutionPlan
  add_unavailable u plan = record plan { unavailable_optional = u ∷ plan.unavailable_optional }

  -- A dependency that no candidate provides.
  unfoldable pub leave_out :
      CartridgeDependency → Text → Resolution ResolutionPlan → Resolution ResolutionPlan
  leave_out d reason rest =
      if d.optional
      then rest >>= (λ plan. ok (
          add_unavailable (record { alias = d.alias; cartridge = d.cartridge; reason = reason })
            plan))
      else err (required_unavailable d.alias d.cartridge d.version reason)

  -- The loop over the dependencies: what it pushes for one goes before what it pushes later.
  unfoldable pub resolve_all :
      List PackageManifest → List CartridgeDependency → Resolution ResolutionPlan
  unfolding sort_versions find_provider unavailable_reason leave_out
  resolve_all candidates [] = ok (record { resolved = []; unavailable_optional = [] })
  resolve_all candidates (d ∷ ds) =
      let rest = resolve_all candidates ds in
      do
        requirement ← ok_or (crates.parse_requirement d.version) invalid_manifest
        elim (find_provider d (sort_versions (matching requirement d candidates))) [
          | none ↦ leave_out d (unavailable_reason d candidates requirement) rest
          | some x ↦ do plan ← rest; ok (add_resolved (resolved_by d x.0) plan)
        ]

  unfoldable pub resolve_dependencies :
      PackageManifest → List PackageManifest → Resolution ResolutionPlan
  unfolding check_candidates check_unique resolve_all
  resolve_dependencies root candidates = do
    reject (ltb max_resolution_candidates (length candidates)) candidate_limit
    of_manifest (validate_package crates root)
    check_candidates candidates
    check_unique [] candidates
    resolve_all candidates root.dependencies
