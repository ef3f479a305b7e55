-- ===== src/Manifest/Package.antt =====
-- `PackageManifest::validate`, and what it opens, crates/cartridge-core/src/manifest.rs.
pub mod Migrations
pub mod Negotiation
use cartridge_runtime.Prelude.{
  ℕ, Bool, true, false, not, ◌&&◌, none, some, List, [], ◌∷◌, ltb, ◌==◌, is_empty, is_some,
  if◌then◌else◌,
}
use cartridge_runtime.Prelude.Results.{ok, err, reject, ok_or, ◌>>=◌, ◌>>◌}
use cartridge_runtime.Prelude.Results
use cartridge_runtime.Network.Limits
use cartridge_runtime.Network.Http.Policy.{validate_policy}
use cartridge_runtime.Manifest.Types.{
  Crates, PackageManifest, MigrationPlan, NegotiatedPlatform, Compatibility, Error, Result,
  bad_format, version_invalid, http_scopes, newer_state, host_mismatch, expectation,
  current_format_version, migration_plan_format_version,
}
use cartridge_runtime.Manifest.Names.{validate_id, validate_human_text}
use cartridge_runtime.Manifest.Limits.{validate_limits}
use cartridge_runtime.Manifest.Relations.{validate_relationships}
use cartridge_runtime.Manifest.State.{validate_state, collect_sources, walk}
use cartridge_runtime.Manifest.Integrity.{validate_integrity}
use cartridge_runtime.Manifest.Platform.{
  validate_compatibility, permission_map, negotiate, host_api_version,
}

-- `map_err(Error::Manifest)`
abbrev pub of_network {ℓ} : {A : Type ℓ} → Results.Result Limits.Error A → Result A
of_network (ok a) = ok a
of_network (err e) = err (Error.network e)

module _ {V R : Type 0} (crates : Crates V R) where
  unfoldable pub validate_package : PackageManifest → Result (Unit {0})
  validate_package m = do
    reject (not (m.format_version == current_format_version)) bad_format
    validate_id m.cartridge.id
    validate_human_text m.cartridge.name 80 false
    validate_human_text m.cartridge.description 240 true
    reject (not (is_some (crates.parse m.cartridge.version))) version_invalid
    of_network (validate_policy m.http)
    reject (not m.permissions.http && not (is_empty m.http.scopes)) http_scopes
    validate_compatibility crates m.compatibility m.permissions
    validate_limits m.runtime
    validate_state m
    validate_integrity crates m.integrity
    validate_relationships crates m

  unfoldable pub migration_plan : PackageManifest → ℕ → Result MigrationPlan
  migration_plan m source_schema = do
    validate_package m
    reject (ltb m.state.schema source_schema) newer_state
    steps ← walk m.state.schema m.state.schema (collect_sources [] m.state.migrations) source_schema
    ok (record {
      format_version = migration_plan_format_version;
      cartridge_id = m.cartridge.id;
      cartridge_version = m.cartridge.version;
      component_sha256 = m.integrity.component_sha256;
      source_schema = source_schema;
      target_schema = m.state.schema;
      steps = steps;
    })

  unfoldable pub host_satisfies : Compatibility → V → Result (Unit {0})
  host_satisfies c version = if is_empty c.host_api then ok tt else do
    requirement ← ok_or (crates.parse_requirement c.host_api) expectation
    reject (not (crates.matches_version requirement version)) host_mismatch

  unfoldable pub negotiate_platform : PackageManifest → Result NegotiatedPlatform
  unfolding host_satisfies
  negotiate_platform m = do
    validate_package m
    host_api ← ok_or (crates.parse host_api_version) expectation
    host_satisfies m.compatibility host_api
    negotiated ← negotiate crates m.compatibility.capabilities (permission_map m.permissions)
    ok (record { host_api = crates.to_string host_api; capabilities = negotiated })
