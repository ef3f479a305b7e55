-- ===== src/Manifest/Package/Negotiation.antt =====
-- What `negotiate_platform` grants.
use cartridge_runtime.Prelude.{
  not, Option, none, some, is_empty, if◌then◌else◌, ◌≡◌, refl, sym, subst, inl, inr, Bool-cases,
  arith,
}
use cartridge_runtime.Prelude.Text.{Text}
use cartridge_runtime.Prelude.Results.{
  ok, reject, ok_or, >>=-eq-ok, >>-eq-ok, reject-ok, ok_or-ok, ok_injective,
}
use cartridge_runtime.Manifest.Types.{
  Crates, Compatibility, PackageManifest, NegotiatedPlatform, expectation, host_mismatch,
}
use cartridge_runtime.Manifest.Platform.{permission_map, is_set, negotiate, host_api_version}
use cartridge_runtime.Manifest.Platform.Negotiated.{IsSatisfied, IsNegotiated, negotiate_all}
use cartridge_runtime.Manifest.Package.{validate_package, host_satisfies, negotiate_platform}

module _ {V R : Type 0} (crates : Crates V R) where
  -- The requirement of the host's interface, if there is one.
  abbrev pub host_requirement : Compatibility → Option Text
  host_requirement c = if is_empty c.host_api then none else some c.host_api

  host_satisfies-IsSatisfied :
      (c : Compatibility) (version : V)
      → host_satisfies crates c version ≡ ok tt
      → IsSatisfied crates (host_requirement c) version
  unfolding host_satisfies
  host_satisfies-IsSatisfied c version h = elim (Bool-cases (is_empty c.host_api)) [
    | inl e ↦
        subst (λ b. IsSatisfied crates (if b then none else some c.host_api) version) (sym e) tt
    | inr full ↦
        let (r, parsed, rest) =
          >>=-eq-ok (ok_or (crates.parse_requirement c.host_api) expectation)
            (λ r. reject (not (crates.matches_version r version)) host_mismatch) (cc (h, full)) in
        subst (λ b. IsSatisfied crates (if b then none else some c.host_api) version) (sym full)
          (r, ok_or-ok _ _ parsed, ground (arith, reject-ok _ _ rest))
  ]

  -- A platform that is negotiated grants a capability if its permission is set, at the host's version
  -- 1.0.0, which then satisfies the manifest's requirement of it, and otherwise does not grant it; and
  -- the version of the host's interface satisfies the requirement of that, if there is one.
  pub negotiate_platform-IsNegotiated :
      (m : PackageManifest) (p : NegotiatedPlatform) (k : Text)
      → negotiate_platform crates m ≡ ok p
      → IsNegotiated crates m.compatibility.capabilities p.capabilities k
          (is_set k (permission_map m.permissions))
        × (version : V) × (crates.parse host_api_version ≡ some version)
        × IsSatisfied crates (host_requirement m.compatibility) version
  unfolding negotiate_platform
  negotiate_platform-IsNegotiated m p k h =
      let (valid, h1) = >>-eq-ok (validate_package crates m) _ h in
      let (version, parsed, h2) =
        >>=-eq-ok (ok_or (crates.parse host_api_version) expectation) _ h1 in
      let (met, h3) = >>-eq-ok (host_satisfies crates m.compatibility version) _ h2 in
      let (granted, went, h4) =
        >>=-eq-ok (negotiate crates m.compatibility.capabilities (permission_map m.permissions)) _
          h3 in
      let same = ok_injective _ p _ refl h4 in
      (
        subst
            (λ q.
              IsNegotiated crates m.compatibility.capabilities q.capabilities k
                (is_set k (permission_map m.permissions)))
            same (negotiate_all crates m.compatibility.capabilities m.permissions granted went k),
        version,
        ok_or-ok _ _ parsed,
        host_satisfies-IsSatisfied m.compatibility version met,
      )
