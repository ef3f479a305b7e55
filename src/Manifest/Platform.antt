-- ===== src/Manifest/Platform.antt =====
-- The permissions and the platform of a package, crates/cartridge-core/src/manifest.rs.
pub mod Negotiated
use cartridge_runtime.Prelude.{
  ℕ, Bool, true, false, not, ◌&&◌, ◌||◌, Option, none, some, List, [], ◌∷◌, ltb, is_empty, is_some,
  is_some_and, length, if◌then◌else◌,
}
use cartridge_runtime.Prelude.Text.{Text, text_ord}
use cartridge_runtime.Prelude.Text
use cartridge_runtime.Prelude.Map.{Map}
use cartridge_runtime.Prelude.Map
use cartridge_runtime.Prelude.Results.{ok, err, reject, ok_or, ◌>>=◌, ◌>>◌}
use cartridge_runtime.Manifest.Types.{
  Crates, Permissions, Compatibility, PackageManifest, NegotiatedPlatform, Result,
  too_many_capabilities, bad_requirement, capability_disabled, host_mismatch, not_implemented,
  capability_mismatch, expectation, max_capability_requirements,
}
use cartridge_runtime.Manifest.Names.{validate_capability_name}

abbrev pub host_api_version : Text
host_api_version = Text.text "0.4.0"

-- The entries in the order of their keys, as `BTreeMap::from` puts them.
abbrev pub permission_map : Permissions → Map Text Bool
permission_map p =
    (Text.text "assets", p.assets)
    ∷ (Text.text "audio", p.audio)
    ∷ (Text.text "clock", p.clock)
    ∷ (Text.text "graphics", p.graphics)
    ∷ (Text.text "http", p.http)
    ∷ (Text.text "midi", p.midi)
    ∷ (Text.text "random", p.random)
    ∷ (Text.text "serve", p.serve)
    ∷ (Text.text "storage", p.storage)
    ∷ []

-- `get(name).copied().unwrap_or(false)`
abbrev pub is_set : Text → Map Text Bool → Bool
is_set name m = is_some_and (Map.get name m) (λ enabled. enabled)

module _ {V R : Type 0} (crates : Crates V R) where
  -- The loop over the requirements.
  unfoldable pub check_capabilities : Permissions → Map Text Text → Result (Unit {0})
  check_capabilities p [] = ok tt
  check_capabilities p ((name, requirement) ∷ rest) = do
    validate_capability_name name
    reject (not (is_some (crates.parse_requirement requirement))) bad_requirement
    reject (not (is_set name (permission_map p))) capability_disabled
    check_capabilities p rest

  -- `Compatibility::validate`
  unfoldable pub validate_compatibility : Compatibility → Permissions → Result (Unit {0})
  unfolding check_capabilities
  validate_compatibility c p = do
    reject (ltb max_capability_requirements (length c.capabilities)) too_many_capabilities
    reject (not (is_empty c.host_api) && not (is_some (crates.parse_requirement c.host_api)))
        bad_requirement
    check_capabilities p c.capabilities

  -- Every capability of the host, at version 1.0.0.
  unfoldable pub host_capabilities : Map Text V
  host_capabilities =
      (Text.text "assets", crates.new_version 1 0 0)
      ∷ (Text.text "audio", crates.new_version 1 0 0)
      ∷ (Text.text "clock", crates.new_version 1 0 0)
      ∷ (Text.text "graphics", crates.new_version 1 0 0)
      ∷ (Text.text "http", crates.new_version 1 0 0)
      ∷ (Text.text "midi", crates.new_version 1 0 0)
      ∷ (Text.text "random", crates.new_version 1 0 0)
      ∷ (Text.text "serve", crates.new_version 1 0 0)
      ∷ (Text.text "storage", crates.new_version 1 0 0)
      ∷ []

  -- `if let Some(requirement)`, where an `expect` that fails is an error of the model.
  unfoldable pub satisfies : Option Text → V → Result (Unit {0})
  satisfies none version = ok tt
  satisfies (some text) version = do
    requirement ← ok_or (crates.parse_requirement text) expectation
    reject (not (crates.matches_version requirement version)) capability_mismatch

  -- The loop of `negotiate_platform` over the permissions.
  unfoldable pub negotiate : Map Text Text → Map Text Bool → Result (Map Text Text)
  unfolding host_capabilities satisfies
  negotiate requirements [] = ok []
  negotiate requirements ((name, false) ∷ permissions) = negotiate requirements permissions
  negotiate requirements ((name, true) ∷ permissions) = do
    version ← ok_or (Map.get name host_capabilities) not_implemented
    satisfies (Map.get name requirements) version
    rest ← negotiate requirements permissions
    ok (Map.insert name (crates.to_string version) rest)
