-- ===== src/Resolver/Examples.antt =====
-- Compositions of a few packages, over versions that are their first digit.
use mathlib.Core.List.{Memᴰ}
use cartridge_runtime.Prelude.{
  ℕ, ◌+◌, ◌-◌, ◌≡◌, ◌↔◌, refl, false, Option, none, some, List, [], ◌∷◌, map, leb,
}
use cartridge_runtime.Prelude.Text.{Text, Bytes, text_eq, text_cmp, utf8}
use cartridge_runtime.Prelude.Text
use cartridge_runtime.Prelude.Order.{number_ord}
use cartridge_runtime.Prelude.Map
use cartridge_runtime.Prelude.Sets.{keep}
use cartridge_runtime.Prelude.Ascii.{starts_with_char, ends_with_char}
use cartridge_runtime.Prelude.Strings.{
  split, split_once, rsplit_once, member, replace_char, decimal, digits,
}
use cartridge_runtime.Prelude.Results.{ok, err}
use cartridge_runtime.Supervisor.Names.{is_whitespace, is_digest}
use cartridge_runtime.Network.Http.Policy.{default_policy, validate_policy, validate_scopes}
use cartridge_runtime.Manifest.Types.{
  Crates, PackageManifest, CartridgeDependency, ServiceVisibility,
}
use cartridge_runtime.Manifest.Names.{
  validate_id, is_segment, validate_human_text, validate_alias, validate_interface,
  validate_wit_name,
}
use cartridge_runtime.Manifest.Platform.{validate_compatibility, check_capabilities}
use cartridge_runtime.Manifest.State.{validate_state, check_migrations, check_paths}
use cartridge_runtime.Manifest.Integrity.{validate_integrity, check_assets}
use cartridge_runtime.Manifest.Relations.{
  validate_relationships, check_dependencies, check_services, check_interfaces,
}
use cartridge_runtime.Manifest.Limits.{default_limits, validate_limits}
use cartridge_runtime.Manifest.Package.{validate_package}
use cartridge_runtime.Resolver.Types.{
  ResolutionPlan, LockedPackage, CompositionLock, ApprovedGraph, Expansion,
}
use cartridge_runtime.Resolver.Checks.{
  is_alias, is_bounded_text, is_cartridge_id, bad_interfaces, bad_version,
}
use cartridge_runtime.Resolver.Dependencies.{
  provided, provides_all, matching, insert_version, sort_versions, find_provider, check_candidates,
  check_unique, resolve_all, resolve_dependencies,
}
use cartridge_runtime.Resolver.Dependencies.Best.{IsResolution, resolve_dependencies-IsResolution}
use cartridge_runtime.Resolver.Lock.{
  new_lock, sort_providers, insert_provider, validate_lock, validate_locked_package,
  check_providers, check_resolved, bad_resolved, check_unavailable,
}
use cartridge_runtime.Resolver.Lock.Closed.{IsClosed, new_lock-IsClosed}
use cartridge_runtime.Resolver.Graph.{
  lookup, next_instance_id, find_manifest, visit, provider_of, expand_all, expand_graph,
  build_approved_graph, check_nodes, bad_edge, validate_graph,
}
use cartridge_runtime.Resolver.Graph.Linked.{IsComposed}
use cartridge_runtime.Resolver.Graph.Built.{build_approved_graph-IsComposed}
use cartridge_runtime.Resolver.Authority.{from_graph}
use cartridge_runtime.Resolver.Authority.Granted.{IsGranted, from_graph_total}

abbrev first_digit : Text → Option ℕ
first_digit [] = none
first_digit (c ∷ t) = some (c - 48)

abbrev crates : Crates ℕ ℕ
crates = record {
  parse = first_digit;
  new_version = λ major minor patch. major;
  parse_requirement = first_digit;
  matches_version = λ requirement version. leb requirement version;
  version_ord = number_ord;
  major = λ version. version;
  to_string = λ version. (48 + version) ∷ [];
  sha256 = λ bytes. bytes;
  hex_encode = λ bytes. bytes;
  hex_decode = λ text. some text;
}

abbrev interface_name : Text
interface_name = Text.text "a:b/c@1"

abbrev package_of : Text → Text → List CartridgeDependency → PackageManifest
package_of id version dependencies = record {
  format_version = 1;
  cartridge = record { id = id; version = version; name = Text.text "p"; description = [] };
  permissions = record {
    clock = false;
    random = false;
    assets = false;
    storage = false;
    graphics = false;
    audio = false;
    midi = false;
    http = false;
    serve = false;
  };
  http = default_policy;
  compatibility = record { host_api = []; capabilities = [] };
  runtime = default_limits;
  state = record { schema = 0; migrations = [] };
  dependencies = dependencies;
  services = record {
    provides =
        record {
          name = Text.text "s";
          interface = interface_name;
          visibility = ServiceVisibility.public;
          description = [];
        }
        ∷ [];
  };
  integrity = record { component_sha256 = []; assets_sha256 = []; assets_root_sha256 = [] };
}

abbrev needs : Text → Text → CartridgeDependency
needs alias id = record {
  alias = alias;
  cartridge = id;
  version = Text.text "1";
  interfaces = interface_name ∷ [];
  optional = false;
  reason = [];
}

-- A package, and two versions of the one that it needs.
abbrev app : PackageManifest
app =
    package_of (Text.text "x.y.app") (Text.text "1")
      (needs (Text.text "dep") (Text.text "x.y.dep") ∷ [])

abbrev candidates : List PackageManifest
candidates =
    package_of (Text.text "x.y.dep") (Text.text "1") []
    ∷ package_of (Text.text "x.y.dep") (Text.text "2") []
    ∷ []

abbrev chosen : ResolutionPlan
chosen = record {
  resolved =
      record {
        alias = Text.text "dep";
        cartridge = Text.text "x.y.dep";
        version = Text.text "2";
        interfaces = interface_name ∷ [];
      }
      ∷ [];
  unavailable_optional = [];
}

app_resolved : resolve_dependencies crates app candidates ≡ ok chosen
unfolding resolve_dependencies validate_package validate_id is_segment validate_human_text
    is_whitespace validate_policy validate_scopes validate_compatibility check_capabilities
    validate_limits validate_state check_migrations validate_alias check_paths validate_integrity
    check_assets validate_relationships check_dependencies check_services check_interfaces
    validate_interface validate_wit_name split split_once rsplit_once starts_with_char
    ends_with_char Text.bytes utf8 Text.len member text_eq text_cmp provided provides_all matching
    insert_version sort_versions find_provider check_candidates check_unique resolve_all
app_resolved = refl

resolve_dependencies-IsResolution_example :
    IsResolution crates candidates app.dependencies chosen.resolved []
resolve_dependencies-IsResolution_example =
    resolve_dependencies-IsResolution crates app candidates chosen app_resolved

abbrev graph : ApprovedGraph
graph = record {
  format_version = 1;
  root_instance = Text.text "root";
  nodes =
      record {
        instance_name = Text.text "root";
        cartridge_id = Text.text "x.y.app";
        version = Text.text "1";
        interfaces = interface_name ∷ [];
      }
      ∷ record {
        instance_name = Text.text "x-y-dep-v2";
        cartridge_id = Text.text "x.y.dep";
        version = Text.text "2";
        interfaces = interface_name ∷ [];
      }
      ∷ [];
  edges =
      record {
        caller_instance = Text.text "root";
        provider_instance = Text.text "x-y-dep-v2";
        alias = Text.text "dep";
        interfaces = interface_name ∷ [];
      }
      ∷ [];
  unavailable_optional = [];
}

app_built : build_approved_graph crates candidates app ≡ ok graph
unfolding build_approved_graph expand_graph expand_all provider_of visit lookup next_instance_id
    find_manifest replace_char decimal digits Map.get Map.insert keep resolve_dependencies
    validate_package validate_id is_segment validate_human_text is_whitespace validate_policy
    validate_scopes validate_compatibility check_capabilities validate_limits validate_state
    check_migrations validate_alias check_paths validate_integrity check_assets
    validate_relationships check_dependencies check_services check_interfaces validate_interface
    validate_wit_name split split_once rsplit_once starts_with_char ends_with_char Text.bytes utf8
    Text.len member text_eq text_cmp provided provides_all matching insert_version sort_versions
    find_provider check_candidates check_unique resolve_all
app_built = refl

build_approved_graph-IsComposed_example : IsComposed graph
build_approved_graph-IsComposed_example =
    build_approved_graph-IsComposed crates candidates app graph app_built

graph_valid : validate_graph crates graph ≡ ok tt
unfolding validate_graph check_nodes bad_edge is_alias is_cartridge_id is_segment bad_version
    bad_interfaces is_bounded_text is_whitespace validate_interface validate_wit_name split
    split_once rsplit_once starts_with_char ends_with_char Text.bytes utf8 Text.len member text_eq
    text_cmp
graph_valid = refl

from_graph_total_example : IsGranted 7 graph.edges (from_graph crates graph 7)
from_graph_total_example = from_graph_total crates graph 7 graph_valid

-- Two packages that need each other, of which the one is the root.
abbrev first_of_two : PackageManifest
first_of_two =
    package_of (Text.text "x.y.a") (Text.text "1") (needs (Text.text "b") (Text.text "x.y.b") ∷ [])

abbrev second_of_two : PackageManifest
second_of_two =
    package_of (Text.text "x.y.b") (Text.text "1") (needs (Text.text "a") (Text.text "x.y.a") ∷ [])

-- The ends of the edges of a graph that is built.
abbrev ends : Expansion ApprovedGraph → List (Text × Text)
ends (ok g) = map (λ e. (e.caller_instance, e.provider_instance)) g.edges
ends (err e) = []

-- Each needs the other, and yet there is a graph.
cycle_built :
    ends (build_approved_graph crates (first_of_two ∷ second_of_two ∷ []) first_of_two)
    ≡ (Text.text "x-y-b-v1", Text.text "root") ∷ (Text.text "root", Text.text "x-y-b-v1") ∷ []
unfolding build_approved_graph expand_graph expand_all provider_of visit lookup next_instance_id
    find_manifest replace_char decimal digits Map.get Map.insert keep resolve_dependencies
    validate_package validate_id is_segment validate_human_text is_whitespace validate_policy
    validate_scopes validate_compatibility check_capabilities validate_limits validate_state
    check_migrations validate_alias check_paths validate_integrity check_assets
    validate_relationships check_dependencies check_services check_interfaces validate_interface
    validate_wit_name split split_once rsplit_once starts_with_char ends_with_char Text.bytes utf8
    Text.len member text_eq text_cmp provided provides_all matching insert_version sort_versions
    find_provider check_candidates check_unique resolve_all
cycle_built = refl

-- Two packages whose ids differ in a dot and a dash.
abbrev twins : List PackageManifest
twins =
    package_of (Text.text "x.y.a-b") (Text.text "1") []
    ∷ package_of (Text.text "x.y-a.b") (Text.text "1") []
    ∷ []

abbrev user_of_twins : PackageManifest
user_of_twins =
    package_of (Text.text "x.y.u") (Text.text "1") (
      needs (Text.text "l") (Text.text "x.y.a-b")
      ∷ needs (Text.text "r") (Text.text "x.y-a.b")
      ∷ [])

-- Both are under one name.
twins_built :
    ends (build_approved_graph crates twins user_of_twins)
    ≡ (Text.text "root", Text.text "x-y-a-b-v1") ∷ (Text.text "root", Text.text "x-y-a-b-v1") ∷ []
unfolding build_approved_graph expand_graph expand_all provider_of visit lookup next_instance_id
    find_manifest replace_char decimal digits Map.get Map.insert keep resolve_dependencies
    validate_package validate_id is_segment validate_human_text is_whitespace validate_policy
    validate_scopes validate_compatibility check_capabilities validate_limits validate_state
    check_migrations validate_alias check_paths validate_integrity check_assets
    validate_relationships check_dependencies check_services check_interfaces validate_interface
    validate_wit_name split split_once rsplit_once starts_with_char ends_with_char Text.bytes utf8
    Text.len member text_eq text_cmp provided provides_all matching insert_version sort_versions
    find_provider check_candidates check_unique resolve_all
twins_built = refl

abbrev some_digest : Text
some_digest = Text.text "0123456789abcdef0123456789abcdef0123456789abcdef0123456789abcdef"

abbrev locked : Text → Text → LockedPackage
locked id version = record {
  cartridge_id = id;
  version = version;
  package_sha256 = some_digest;
  package_bytes = 9;
  component_sha256 = some_digest;
  assets_root_sha256 = [];
}

abbrev dep_locked : LockedPackage
dep_locked = locked (Text.text "x.y.dep") (Text.text "2")

abbrev lock : CompositionLock
lock = record {
  format_version = 1;
  root = locked (Text.text "x.y.app") (Text.text "1");
  providers = dep_locked ∷ [];
  plan = chosen;
}

lock_made : new_lock crates lock.root (dep_locked ∷ []) chosen ≡ ok lock
unfolding new_lock sort_providers insert_provider validate_lock validate_locked_package
    check_providers check_resolved bad_resolved check_unavailable is_digest is_alias is_cartridge_id
    is_segment bad_version bad_interfaces is_bounded_text is_whitespace validate_interface
    validate_wit_name split split_once rsplit_once starts_with_char ends_with_char Text.bytes utf8
    Text.len member text_eq text_cmp
lock_made = refl

new_lock-IsClosed_example :
    IsClosed lock
    × (Memᴰ dep_locked lock.providers ↔ Memᴰ dep_locked (dep_locked ∷ []))
    × (lock.plan ≡ chosen)
new_lock-IsClosed_example =
    new_lock-IsClosed crates lock.root (dep_locked ∷ []) chosen lock dep_locked lock_made
