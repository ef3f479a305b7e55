-- ===== src/Manifest/Types.antt =====
-- The manifest of a package, crates/cartridge-core/src/manifest.rs. `usize` has 64 bits. A `Vec` of
-- assets under paths is a map in the order of its keys.
use cartridge_runtime.Prelude.{ℕ, ◌*◌, Bool, Option, List}
use cartridge_runtime.Prelude.Text.{Text, Bytes}
use cartridge_runtime.Prelude.Map.{Map}
use cartridge_runtime.Prelude.Order.{Ord}
use cartridge_runtime.Prelude.Results
use cartridge_runtime.Network.Limits
use cartridge_runtime.Network.Http.Policy.{HttpPolicy}

-- What third-party code computes: the parts and the text of a semantic version, the total order of
-- versions, the matches of a requirement, SHA-256, and hexadecimal texts.
pub record Crates (V R : Type 0) : Type 0 where
  pub parse : Text → Option V
  pub new_version : ℕ → ℕ → ℕ → V
  pub parse_requirement : Text → Option R
  pub matches_version : R → V → Bool
  pub version_ord : Ord V
  pub major : V → ℕ
  pub to_string : V → Text
  pub sha256 : Bytes → Bytes
  pub hex_encode : Bytes → Text
  pub hex_decode : Text → Option Bytes

abbrev pub current_format_version : ℕ
current_format_version = 1

abbrev pub migration_plan_format_version : ℕ
migration_plan_format_version = 1

abbrev pub max_fuel : ℕ
max_fuel = 1_000_000_000_000

abbrev pub max_memory_bytes : ℕ
max_memory_bytes = 256 * 1024 * 1024

abbrev pub max_storage_bytes : ℕ
max_storage_bytes = 64 * 1024 * 1024

abbrev pub max_storage_keys : ℕ
max_storage_keys = 100_000

abbrev pub max_storage_value_bytes : ℕ
max_storage_value_bytes = 8 * 1024 * 1024

abbrev pub max_timeout_ms : ℕ
max_timeout_ms = 5 * 60 * 1000

abbrev pub max_graphics_pixels : ℕ
max_graphics_pixels = 4 * 1024 * 1024

abbrev pub max_graphics_commands : ℕ
max_graphics_commands = 32_768

abbrev pub max_audio_nodes : ℕ
max_audio_nodes = 128

abbrev pub max_audio_events : ℕ
max_audio_events = 65_536

abbrev pub max_audio_frames : ℕ
max_audio_frames = 48_000 * 30

abbrev pub max_migrations : ℕ
max_migrations = 256

abbrev pub max_dependencies : ℕ
max_dependencies = 128

abbrev pub max_services : ℕ
max_services = 128

abbrev pub max_interfaces_per_dependency : ℕ
max_interfaces_per_dependency = 64

abbrev pub max_capability_requirements : ℕ
max_capability_requirements = 64

pub record CartridgeMetadata : Type 0 where
  pub id : Text
  pub name : Text
  pub version : Text
  pub description : Text

pub record Permissions : Type 0 where
  pub clock : Bool
  pub random : Bool
  pub assets : Bool
  pub storage : Bool
  pub graphics : Bool
  pub audio : Bool
  pub midi : Bool
  pub http : Bool
  pub serve : Bool

pub record Compatibility : Type 0 where
  pub host_api : Text
  pub capabilities : Map Text Text

pub record RuntimeLimits : Type 0 where
  pub fuel : ℕ
  pub memory_bytes : ℕ
  pub timeout_ms : ℕ
  pub storage_bytes : ℕ
  pub storage_keys : ℕ
  pub storage_value_bytes : ℕ
  pub graphics_pixels : ℕ
  pub graphics_commands : ℕ
  pub audio_nodes : ℕ
  pub audio_events : ℕ
  pub audio_frames : ℕ

pub record StateMigration : Type 0 where
  pub name : Text
  pub from : ℕ
  pub to : ℕ

pub record StateConfig : Type 0 where
  pub schema : ℕ
  pub migrations : List StateMigration

pub record CartridgeDependency : Type 0 where
  pub alias : Text
  pub cartridge : Text
  pub version : Text
  pub interfaces : List Text
  pub optional : Bool
  pub reason : Text

pub data ServiceVisibility : Type 0 where
  private dependency public : ServiceVisibility

pub record ProvidedService : Type 0 where
  pub name : Text
  pub interface : Text
  pub visibility : ServiceVisibility
  pub description : Text

pub record Services : Type 0 where
  pub provides : List ProvidedService

pub record Integrity : Type 0 where
  pub component_sha256 : Text
  pub assets_sha256 : Map Text Text
  pub assets_root_sha256 : Text

pub record PackageManifest : Type 0 where
  pub format_version : ℕ
  pub cartridge : CartridgeMetadata
  pub permissions : Permissions
  pub http : HttpPolicy
  pub compatibility : Compatibility
  pub runtime : RuntimeLimits
  pub state : StateConfig
  pub dependencies : List CartridgeDependency
  pub services : Services
  pub integrity : Integrity

pub record MigrationPlan : Type 0 where
  pub format_version : ℕ
  pub cartridge_id : Text
  pub cartridge_version : Text
  pub component_sha256 : Text
  pub source_schema : ℕ
  pub target_schema : ℕ
  pub steps : List StateMigration

pub record NegotiatedPlatform : Type 0 where
  pub host_api : Text
  pub capabilities : Map Text Text

pub data Error : Type 0 where
  bad_format bad_id bad_text version_invalid http_scopes bad_component bad_path bad_asset : Error
  bad_root root_mismatch too_many_capabilities bad_requirement bad_capability : Error
  capability_disabled host_mismatch not_implemented capability_mismatch bad_limits : Error
  too_many_dependencies too_many_services bad_alias self_dependency no_interfaces : Error
  too_many_interfaces duplicate_alias duplicate_dependency duplicate_interface : Error
  duplicate_service bad_interface state_without_storage too_many_migrations : Error
  duplicate_migration not_increasing beyond_schema duplicate_source no_path newer_state : Error
  out_of_fuel expectation : Error
  network : Limits.Error → Error

abbrev pub Result {ℓ} : Type ℓ → Type ℓ
Result A = Results.Result Error A
