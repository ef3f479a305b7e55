-- ===== src/Resolver/Types.antt =====
-- The data of crates/cartridge-core/src/resolver.rs.
use cartridge_runtime.Prelude.{ℕ, ◌*◌, ◌&&◌, Bool, Option, List, any}
use cartridge_runtime.Prelude.Text.{Text, text_eq}
use cartridge_runtime.Prelude.Results

abbrev pub composition_lock_format_version : ℕ
composition_lock_format_version = 1

abbrev pub approved_graph_format_version : ℕ
approved_graph_format_version = 1

abbrev pub max_resolution_candidates : ℕ
max_resolution_candidates = 4096

abbrev pub max_locked_packages : ℕ
max_locked_packages = 128

abbrev pub max_locked_package_bytes : ℕ
max_locked_package_bytes = 160 * 1024 * 1024

abbrev pub max_transitive_depth : ℕ
max_transitive_depth = 64

abbrev pub max_graph_nodes : ℕ
max_graph_nodes = 256

abbrev pub max_graph_edges : ℕ
max_graph_edges = 1024

-- The id and the version of a package.
abbrev pub Key : Type 0
Key = Text × Text

abbrev pub key_eq : Key → Key → Bool
key_eq k j = text_eq k.0 j.0 && text_eq k.1 j.1

abbrev pub has_key : Key → List Key → Bool
has_key k = any (key_eq k)

pub record ResolvedDependency : Type 0 where
  pub alias : Text
  pub cartridge : Text
  pub version : Text
  pub interfaces : List Text

pub record UnavailableDependency : Type 0 where
  pub alias : Text
  pub cartridge : Text
  pub reason : Text

pub record ResolutionPlan : Type 0 where
  pub resolved : List ResolvedDependency
  pub unavailable_optional : List UnavailableDependency

pub data ResolveError : Type 0 where
  invalid_manifest candidate_limit : ResolveError
  duplicate_candidate : Text → Text → ResolveError
  required_unavailable : Text → Text → Text → Text → ResolveError

pub record LockedPackage : Type 0 where
  pub cartridge_id : Text
  pub version : Text
  pub package_sha256 : Text
  pub package_bytes : ℕ
  pub component_sha256 : Text
  pub assets_root_sha256 : Text

pub record CompositionLock : Type 0 where
  pub format_version : ℕ
  pub root : LockedPackage
  pub providers : List LockedPackage
  pub plan : ResolutionPlan

pub record GraphNode : Type 0 where
  pub instance_name : Text
  pub cartridge_id : Text
  pub version : Text
  pub interfaces : List Text

pub record GraphEdge : Type 0 where
  pub caller_instance : Text
  pub provider_instance : Text
  pub alias : Text
  pub interfaces : List Text

pub record ApprovedGraph : Type 0 where
  pub format_version : ℕ
  pub root_instance : Text
  pub nodes : List GraphNode
  pub edges : List GraphEdge
  pub unavailable_optional : List UnavailableDependency

pub data EdgeKind : Type 0 where
  session persistent policy_provided revoked : EdgeKind

pub record RelationshipGrant : Type 0 where
  pub caller_instance : Text
  pub provider_instance : Text
  pub interfaces : List Text
  pub scope : Text
  pub kind : EdgeKind
  pub expiry_ms : Option ℕ
  pub approval_generation : ℕ

pub record RelationshipAuthority : Type 0 where
  pub format_version : ℕ
  pub grants : List RelationshipGrant

pub data GraphError : Type 0 where
  cycle : Text → Text → GraphError
  depth_exceeded node_limit : GraphError
  resolution : ResolveError → GraphError

-- The errors of the checks of a lock, a graph and an authority.
pub data Error : Type 0 where
  lock_counts lock_order lock_edge lock_optional lock_unreferenced lock_package : Error
  graph_format graph_limits graph_node graph_root graph_edge : Error
  grant_invalid authority_format authority_limit : Error

abbrev pub Result {ℓ} : Type ℓ → Type ℓ
Result A = Results.Result Error A

abbrev pub Resolution {ℓ} : Type ℓ → Type ℓ
Resolution A = Results.Result ResolveError A

abbrev pub Expansion {ℓ} : Type ℓ → Type ℓ
Expansion A = Results.Result GraphError A
