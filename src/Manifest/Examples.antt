-- ===== src/Manifest/Examples.antt =====
-- A package with two migrations, over versions that are their first digit.
use cartridge_runtime.Prelude.{
  arith, ℕ, ◌+◌, ◌-◌, ◌≡◌, refl, true, false, Option, none, some, [], ◌∷◌, leb,
}
use cartridge_runtime.Prelude.Text.{Text, Bytes}
use cartridge_runtime.Prelude.Text
use cartridge_runtime.Prelude.Results.{ok}
use cartridge_runtime.Network.Http.Policy.{default_policy}
use cartridge_runtime.Manifest.Types.{
  Crates, StateMigration, PackageManifest, MigrationPlan, NegotiatedPlatform,
}
use cartridge_runtime.Prelude.Text.{text_eq, text_cmp}
use cartridge_runtime.Prelude.Map
use cartridge_runtime.Prelude.Order.{number_ord}
use cartridge_runtime.Prelude.Ascii.{starts_with_char, ends_with_char}
use cartridge_runtime.Prelude.Strings.{split, member}
use cartridge_runtime.Supervisor.Names.{is_whitespace}
use cartridge_runtime.Network.Http.Policy.{validate_policy, validate_scopes}
use cartridge_runtime.Manifest.Names.{
  validate_id, is_segment, validate_human_text, validate_capability_name, validate_alias,
}
use cartridge_runtime.Manifest.Platform.{
  validate_compatibility, check_capabilities, permission_map, is_set, host_api_version, negotiate,
  satisfies, host_capabilities,
}
use cartridge_runtime.Manifest.State.{
  validate_state, check_migrations, check_paths, walk, collect_sources,
}
use cartridge_runtime.Manifest.Integrity.{validate_integrity, check_assets}
use cartridge_runtime.Manifest.Relations.{
  validate_relationships, check_dependencies, check_services,
}
use cartridge_runtime.Manifest.Limits.{
  maximum, default_limits, validate_limits, constrained_by, AtMost,
}
use cartridge_runtime.Manifest.Limits.Ceiling.{constrained_by_greatest}
use cartridge_runtime.Manifest.Package.{
  validate_package, migration_plan, negotiate_platform, host_satisfies,
}
use cartridge_runtime.Manifest.Package.Migrations.{
  IsPath, IsAnswered, migration_plan-Chain, migration_plan_cases,
}
use cartridge_runtime.Manifest.Package.Negotiation.{
  host_requirement, negotiate_platform-IsNegotiated,
}
use cartridge_runtime.Manifest.Platform.Negotiated.{IsNegotiated, IsSatisfied}
use cartridge_runtime.Prelude.Map.{Map}

abbrev first_digit : Text → Option ℕ
first_digit [] = none
first_digit (c ∷ t) = some (c - 48)

abbrev crates : Crates ℕ ℕ
crates = record {
  parse = first_digit;
  new_version = λ major minor patch. major;
  parse_requirement = first_digit;
  matches_version = λ requirement version. leb requirement version;
  version_ord = number_ord;
  major = λ version. version;
  to_string = λ version. (48 + version) ∷ [];
  sha256 = λ bytes. 7 ∷ [];
  hex_encode = λ bytes. bytes;
  hex_decode = λ text. some zeros;
}
  where
    zeros : Bytes
    zeros =
        0 ∷ 0 ∷ 0 ∷ 0 ∷ 0 ∷ 0 ∷ 0 ∷ 0 ∷ 0 ∷ 0 ∷ 0 ∷ 0 ∷ 0 ∷ 0 ∷ 0 ∷ 0 ∷ 0 ∷ 0 ∷ 0 ∷ 0 ∷ 0 ∷ 0 ∷ 0
        ∷ 0 ∷ 0 ∷ 0 ∷ 0 ∷ 0 ∷ 0 ∷ 0 ∷ 0 ∷ 0 ∷ []

abbrev first_step : StateMigration
first_step = record { name = Text.text "a"; from = 0; to = 2 }

abbrev second_step : StateMigration
second_step = record { name = Text.text "b"; from = 2; to = 3 }

abbrev notes : PackageManifest
notes = record {
  format_version = 1;
  cartridge = record {
    id = Text.text "a.b.c";
    name = Text.text "Notes";
    version = Text.text "1.0.0";
    description = [];
  };
  permissions = record {
    clock = true;
    random = false;
    assets = false;
    storage = true;
    graphics = false;
    audio = false;
    midi = false;
    http = false;
    serve = false;
  };
  http = default_policy;
  compatibility = record {
    host_api = Text.text "0.4";
    capabilities = (Text.text "clock", Text.text "1") ∷ [];
  };
  runtime = default_limits;
  state = record { schema = 3; migrations = first_step ∷ second_step ∷ [] };
  dependencies = [];
  services = record { provides = [] };
  integrity = record { component_sha256 = []; assets_sha256 = []; assets_root_sha256 = [] };
}

abbrev plan : MigrationPlan
plan = record {
  format_version = 1;
  cartridge_id = Text.text "a.b.c";
  cartridge_version = Text.text "1.0.0";
  component_sha256 = [];
  source_schema = 0;
  target_schema = 3;
  steps = first_step ∷ second_step ∷ [];
}

notes_valid : validate_package crates notes ≡ ok tt
unfolding validate_package validate_id is_segment validate_human_text is_whitespace validate_policy
    validate_scopes validate_compatibility check_capabilities validate_capability_name
    validate_limits validate_state check_migrations validate_alias check_paths walk
    validate_integrity check_assets validate_relationships check_dependencies check_services split
    starts_with_char ends_with_char Text.bytes Text.len member text_eq text_cmp Map.get Map.insert
notes_valid = refl

notes_planned : migration_plan crates notes 0 ≡ ok plan
unfolding migration_plan collect_sources walk Map.get Map.insert
notes_planned = rw notes_valid refl

constrained_by_greatest_example :
    (validate_limits (constrained_by maximum default_limits) ≡ ok tt)
    × (AtMost (constrained_by maximum default_limits) maximum
        × AtMost (constrained_by maximum default_limits) default_limits)
    × AtMost default_limits (constrained_by maximum default_limits)
unfolding validate_limits
constrained_by_greatest_example =
    constrained_by_greatest maximum default_limits default_limits refl refl refl (ground arith)
      (ground arith)

abbrev platform : NegotiatedPlatform
platform = record {
  host_api = Text.text "0";
  capabilities = (Text.text "clock", Text.text "1") ∷ (Text.text "storage", Text.text "1") ∷ [];
}

notes_negotiated : negotiate_platform crates notes ≡ ok platform
unfolding negotiate_platform host_satisfies negotiate satisfies host_capabilities Map.get Map.insert
    text_cmp
notes_negotiated = rw notes_valid refl

migration_plan-Chain_example : IsPath crates notes 0 plan
migration_plan-Chain_example = migration_plan-Chain crates notes 0 plan notes_planned

migration_plan_cases_example : IsAnswered crates notes 1
migration_plan_cases_example = migration_plan_cases crates notes 1 notes_valid

negotiate_platform-IsNegotiated_example :
    IsNegotiated crates notes.compatibility.capabilities platform.capabilities
      (Text.text "clock")
      (is_set (Text.text "clock") (permission_map notes.permissions))
    × (version : ℕ) × (crates.parse host_api_version ≡ some version)
    × IsSatisfied crates (host_requirement crates notes.compatibility) version
negotiate_platform-IsNegotiated_example =
    negotiate_platform-IsNegotiated crates notes platform (Text.text "clock") notes_negotiated
