-- ===== src/Resolver/Graph.antt =====
-- The approved graph of a composition, crates/cartridge-core/src/resolver.rs. The map of what was
-- visited is a list of its entries, since only new keys are put in, and the path is a list too.
pub mod Linked
pub mod Built
use cartridge_runtime.Prelude.{
  ℕ, zero, suc, ◌+◌, Bool, true, false, not, ◌||◌, ◌&&◌, Option, none, some, List, [], ◌∷◌, ◌++◌,
  ltb, ◌==◌, length, any, if◌then◌else◌,
}
use cartridge_runtime.Prelude.Text.{Text, text_eq, text_ord}
use cartridge_runtime.Prelude.Text
use cartridge_runtime.Prelude.Map.{Map}
use cartridge_runtime.Prelude.Map
use cartridge_runtime.Prelude.Strings.{member, replace_char, decimal}
use cartridge_runtime.Prelude.Sets.{keep}
use cartridge_runtime.Prelude.Results.{ok, err, reject, ok_or, ◌>>=◌, ◌>>◌}
use cartridge_runtime.Prelude.Results
use cartridge_runtime.Manifest.Types.{Crates, PackageManifest}
use cartridge_runtime.Resolver.Types.{
  ResolvedDependency, UnavailableDependency, GraphNode, GraphEdge, ApprovedGraph, ResolveError, Key,
  key_eq, has_key, Result, Resolution, Expansion, cycle, depth_exceeded, node_limit, resolution,
  required_unavailable, graph_format, graph_limits, graph_node, graph_root, graph_edge,
  approved_graph_format_version, max_transitive_depth, max_graph_nodes, max_graph_edges,
}
use cartridge_runtime.Resolver.Checks.{is_cartridge_id, is_alias, bad_interfaces, bad_version}
use cartridge_runtime.Resolver.Dependencies.{provided, resolve_dependencies}

-- What `expand_graph` takes by mutable references.
pub record Search : Type 0 where
  pub nodes : List GraphNode
  pub edges : List GraphEdge
  pub visited : List (Key × Text)
  pub path : List Key
  pub instance_counts : Map Text ℕ
  pub unavailable_optional : List UnavailableDependency

unfoldable pub lookup : Key → List (Key × Text) → Option Text
lookup k [] = none
lookup k ((j, i) ∷ visited) = let rest = lookup k visited in if key_eq k j then some i else rest

abbrev pub or_zero : Option ℕ → ℕ
or_zero none = 0
or_zero (some n) = n

-- The name of the next instance, and its count.
unfoldable pub next_instance_id : Text → Map Text ℕ → Text × ℕ
next_instance_id id counts =
    let count = or_zero (Map.get id counts) + 1 in
    let base = replace_char b'.' b'-' id in
    (if count == 1 then base else base ++ Text.text "-" ++ decimal count, count)

abbrev pub node_of : Text → Text → Text → PackageManifest → GraphNode
node_of name id version m = record {
  instance_name = name;
  cartridge_id = id;
  version = version;
  interfaces = provided m.services.provides;
}

-- `?` on the result of a resolution.
abbrev pub of_resolution {ℓ} : {A : Type ℓ} → Resolution A → Expansion A
of_resolution (ok a) = ok a
of_resolution (err e) = err (resolution e)

abbrev pub vanished : ResolvedDependency → ResolveError
vanished d =
    required_unavailable d.alias d.cartridge d.version
      (Text.text "provider vanished during graph expansion")

unfoldable pub find_manifest : Text → Text → List PackageManifest → Option PackageManifest
find_manifest id version [] = none
find_manifest id version (m ∷ ms) =
    let rest = find_manifest id version ms in
    if text_eq m.cartridge.id id && text_eq m.cartridge.version version then some m else rest

module _ {V R : Type 0} (crates : Crates V R) (candidates : List PackageManifest) where
  -- `Version::parse(..).map_or(0, |v| v.major)`
  abbrev pub major_of : Text → ℕ
  major_of version = elim (crates.parse version) [ none ↦ 0 | some v ↦ crates.major v ]

  abbrev pub instance_of : ResolvedDependency → Text → Text
  instance_of d base =
      if ltb 0 (major_of d.version)
      then base ++ Text.text "-v" ++ decimal (major_of d.version)
      else base

  -- A provider that is not visited: its node, and what `go` expands from it.
  unfoldable pub visit :
      (PackageManifest → Text → Search → Expansion Search)
      → ResolvedDependency
      → Search
      → Expansion (Text × Search)
  unfolding next_instance_id
  visit go d s =
      let (base, count) = next_instance_id d.cartridge s.instance_counts in
      let name = instance_of d base in
      let key : Key = (d.cartridge, d.version) in
      do
        m ← ok_or (find_manifest d.cartridge d.version candidates) (resolution (vanished d))
        t ← go m name (record s {
          nodes = s.nodes ++ node_of name d.cartridge d.version m ∷ [];
          visited = (key, name) ∷ s.visited;
          path = key ∷ s.path;
          instance_counts = Map.insert d.cartridge count s.instance_counts;
        })
        ok (name, record t { path = keep (λ k. not (key_eq k key)) t.path })

  unfoldable pub provider_of :
      (PackageManifest → Text → Search → Expansion Search)
      → ResolvedDependency
      → Search
      → Expansion (Text × Search)
  unfolding lookup visit
  provider_of go d s = elim (lookup (d.cartridge, d.version) s.visited) [
    | some existing ↦ ok (existing, s)
    | none ↦ visit go d s
  ]

  -- The loop over what is resolved for `parent`.
  unfoldable pub expand_all :
      (PackageManifest → Text → Search → Expansion Search)
      → Text
      → List ResolvedDependency
      → Search
      → Expansion Search
  unfolding provider_of
  expand_all go parent [] s = ok s
  expand_all go parent (d ∷ ds) s = do
    reject (has_key (d.cartridge, d.version) s.path) (cycle parent d.alias)
    (provider, t) ← provider_of go d s
    expand_all go parent ds (record t {
      edges =
          t.edges
          ++ record {
            caller_instance = parent;
            provider_instance = provider;
            alias = d.alias;
            interfaces = d.interfaces;
          }
            ∷ [];
    })

  -- `expand_graph`, where the levels left stand for the depth: none is left beyond the limit.
  unfoldable pub expand_graph : ℕ → PackageManifest → Text → Search → Expansion Search
  unfolding expand_all
  expand_graph zero m parent s = err depth_exceeded
  expand_graph (suc left) m parent s = do
    reject (ltb max_graph_nodes (length s.nodes)) node_limit
    plan ← of_resolution (resolve_dependencies crates m candidates)
    expand_all (expand_graph left) parent plan.resolved
        (record s { unavailable_optional = s.unavailable_optional ++ plan.unavailable_optional })

  abbrev pub root_name : Text
  root_name = Text.text "root"

  abbrev pub first_search : PackageManifest → Search
  first_search root = record {
    nodes = node_of root_name root.cartridge.id root.cartridge.version root ∷ [];
    edges = [];
    visited = ((root.cartridge.id, root.cartridge.version), root_name) ∷ [];
    path = [];
    instance_counts = [];
    unavailable_optional = [];
  }

  unfoldable pub build_approved_graph : PackageManifest → Expansion ApprovedGraph
  unfolding expand_graph
  build_approved_graph root = do
    s ← expand_graph (max_transitive_depth + 1) root root_name (first_search root)
    ok (record {
      format_version = approved_graph_format_version;
      root_instance = root_name;
      nodes = s.nodes;
      edges = s.edges;
      unavailable_optional = s.unavailable_optional;
    })

module _ {V R : Type 0} (crates : Crates V R) where
  -- The loop over the nodes of a graph, which answers the instances.
  unfoldable pub check_nodes : List Text → List GraphNode → Result (List Text)
  check_nodes instances [] = ok instances
  check_nodes instances (n ∷ ns) = do
    reject
        (not (is_alias n.instance_name)
          || not (is_cartridge_id n.cartridge_id)
          || bad_version crates n.version
          || member n.instance_name instances)
        graph_node
    check_nodes (n.instance_name ∷ instances) ns

  unfoldable pub bad_edge : List Text → GraphEdge → Bool
  bad_edge instances e =
      not (member e.caller_instance instances)
      || not (member e.provider_instance instances)
      || not (is_alias e.alias)
      || bad_interfaces crates e.interfaces

  -- `ApprovedGraph::validate`
  unfoldable pub validate_graph : ApprovedGraph → Result (Unit {0})
  unfolding check_nodes bad_edge
  validate_graph g = do
    reject (not (g.format_version == approved_graph_format_version)) graph_format
    reject (ltb max_graph_nodes (length g.nodes) || ltb max_graph_edges (length g.edges))
        graph_limits
    instances ← check_nodes [] g.nodes
    reject (not (member g.root_instance instances)) graph_root
    reject (any (bad_edge instances) g.edges) graph_edge
