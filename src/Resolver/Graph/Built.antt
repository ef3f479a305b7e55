-- ===== src/Resolver/Graph/Built.antt =====
-- What an expansion comes to.
use cartridge_runtime.Prelude.{
  ℕ, zero, suc, ◌+◌, ◌≤◌, true, not, none, some, List, [], ◌∷◌, ◌++◌, ltb, length, ◌≡◌, refl, subst,
  option_cases, arith,
}
use cartridge_runtime.Prelude.Text.{Text, text_ord}
use cartridge_runtime.Prelude.Strings.{member}
use cartridge_runtime.Prelude.Map.{Map}
use cartridge_runtime.Prelude.Map
use cartridge_runtime.Prelude.Sets.{keep}
use cartridge_runtime.Prelude.Results.{
  ok, reject, ok_or, >>=-eq-ok, >>-eq-ok, reject-ok, ok_injective,
}
use cartridge_runtime.Manifest.Types.{Crates, PackageManifest}
use cartridge_runtime.Resolver.Types.{
  ResolvedDependency, GraphEdge, ApprovedGraph, Key, key_eq, has_key, Expansion, cycle, node_limit,
  resolution, max_graph_nodes, max_transitive_depth,
}
use cartridge_runtime.Resolver.Dependencies.{resolve_dependencies}
use cartridge_runtime.Resolver.Graph.{
  Search, lookup, node_of, of_resolution, vanished, find_manifest, next_instance_id, instance_of,
  visit, provider_of, expand_all, expand_graph, root_name, first_search, build_approved_graph,
}
use cartridge_runtime.Resolver.Graph.Linked.{
  Grows, IsComposed, IsLinked, IsReached, found_first, instances, lookup-All, member_last, relink,
  with_edge, with_edge-IsLinked, with_node, with_node-Grows, with_node-IsLinked,
}

-- What holds of every expansion of one level down.
abbrev IsGood : (PackageManifest → Text → Search → Expansion Search) → Type 0
IsGood go =
    (m : PackageManifest) (parent : Text) (s t : Search)
    → go m parent s ≡ ok t
    → member parent (instances s.nodes) ≡ true
    → IsLinked s
    → IsReached s t

module _ {V R : Type 0} (crates : Crates V R) (candidates : List PackageManifest) where
  -- The provider is a node.
  record IsProvided (s : Search) (provider : Text) (t : Search) : Type 0 where
    present : member provider (instances t.nodes) ≡ true
    reached : IsReached s t

  abbrev after : Key → Search → Search
  after key s = record s { path = keep (λ k. not (key_eq k key)) s.path }

  visit-IsProvided :
      (go : PackageManifest → Text → Search → Expansion Search) (d : ResolvedDependency)
      (s t : Search) (provider : Text)
      → IsGood go
      → IsLinked s
      → lookup (d.cartridge, d.version) s.visited ≡ none
      → visit crates candidates go d s ≡ ok (provider, t)
      → IsProvided s provider t
  unfolding visit
  visit-IsProvided go d s t provider good l fresh h =
      let (base, count) = next_instance_id d.cartridge s.instance_counts in
      let name = instance_of crates candidates d base in
      let key : Key = (d.cartridge, d.version) in
      let (m, found, h1) =
        >>=-eq-ok (ok_or (find_manifest d.cartridge d.version candidates) (resolution (vanished d)))
          _ h in
      let n = node_of name d.cartridge d.version m in
      let next = with_node s n (key ∷ s.path) (Map.insert d.cartridge count s.instance_counts) in
      let (below, went, h2) = >>=-eq-ok (go m name next) _ h1 in
      let reached =
        good m name next below went (member_last s n) (with_node-IsLinked s n _ _ l fresh) in
      let here = member_last s n in
      let grows : Grows s below = λ x k.
        reached.grows x (
          with_node-Grows s n (key ∷ s.path) (Map.insert d.cartridge count s.instance_counts) x
            k) in
      subst (λ q. IsProvided s q.0 q.1)
        (ok_injective (name, after key below) (provider, t) _ refl h2)
        (record {
          present = reached.grows name here;
          reached = record {
            linked =
                relink below (after key below).path below.instance_counts below.unavailable_optional
                  reached.linked;
            grows = grows;
            bounded = reached.bounded;
          };
        })

  provider-IsProvided :
      (go : PackageManifest → Text → Search → Expansion Search) (d : ResolvedDependency)
      (s t : Search) (provider : Text)
      → IsGood go
      → IsLinked s
      → length s.nodes ≤ max_graph_nodes
      → provider_of crates candidates go d s ≡ ok (provider, t)
      → IsProvided s provider t
  unfolding provider_of
  provider-IsProvided go d s t provider good l few h =
      option_cases
        (λ o.
          lookup (d.cartridge, d.version) s.visited ≡ o
          → (elim o [ some existing ↦ ok (existing, s) | none ↦ visit crates candidates go d s ])
            ≡ ok (provider, t)
          → IsProvided s provider t)
        (lookup (d.cartridge, d.version) s.visited)
        (λ missing e. visit-IsProvided go d s t provider good l missing)
        (λ existing found e k.
          let same = ok_injective (existing, s) (provider, t) _ refl k in
          subst (λ q. IsProvided s q.0 q.1) same
            (record {
              present =
                  lookup-All (λ name. member name (instances s.nodes) ≡ true)
                    (d.cartridge, d.version) existing s.visited l.named found;
              reached = record { linked = l; grows = λ x m. m; bounded = few };
            }))
        refl h

  expand_all-IsReached :
      (go : PackageManifest → Text → Search → Expansion Search) (parent : Text)
      (ds : List ResolvedDependency) (s t : Search)
      → IsGood go
      → IsLinked s
      → length s.nodes ≤ max_graph_nodes
      → member parent (instances s.nodes) ≡ true
      → expand_all crates candidates go parent ds s ≡ ok t
      → IsReached s t
  unfolding expand_all
  expand_all-IsReached go parent [] s t good l few here h =
      subst (IsReached s) (ok_injective s t _ refl h)
        (record { linked = l; grows = λ x m. m; bounded = few })
  expand_all-IsReached go parent (d ∷ ds) s t good l few here h =
      let (straight, h1) =
        >>-eq-ok (reject (has_key (d.cartridge, d.version) s.path) (cycle parent d.alias)) _ h in
      let (pair, went, h2) = >>=-eq-ok (provider_of crates candidates go d s) _ h1 in
      let provided = provider-IsProvided go d s pair.1 pair.0 good l few went in
      let reached = provided.reached in
      let edge : GraphEdge = record {
        caller_instance = parent;
        provider_instance = pair.0;
        alias = d.alias;
        interfaces = d.interfaces;
      } in
      let parent_here = reached.grows parent here in
      let linked = with_edge-IsLinked pair.1 edge reached.linked (parent_here, provided.present) in
      let rest =
        expand_all-IsReached go parent ds (with_edge pair.1 edge) t good linked reached.bounded
          parent_here h2 in
      record {
        linked = rest.linked;
        grows = λ x m. rest.grows x (reached.grows x m);
        bounded = rest.bounded;
      }

  expand_graph-IsGood : (left : ℕ) → IsGood (expand_graph crates candidates left)
  unfolding expand_graph
  expand_graph-IsGood zero m parent s t h here l = cc
  expand_graph-IsGood (suc left) m parent s t h here l =
      let (few, h1) = >>-eq-ok (reject (ltb max_graph_nodes (length s.nodes)) node_limit) _ h in
      let (plan, resolved, h2) =
        >>=-eq-ok (of_resolution (resolve_dependencies crates m candidates)) _ h1 in
      let start = record s {
        unavailable_optional = s.unavailable_optional ++ plan.unavailable_optional;
      } in
      let reached =
        expand_all-IsReached (expand_graph crates candidates left) parent plan.resolved start t
          (expand_graph-IsGood left)
          (relink s s.path s.instance_counts start.unavailable_optional l)
          (ground (arith, reject-ok _ _ few)) here h2 in
      record { linked = reached.linked; grows = reached.grows; bounded = reached.bounded }

  -- Every edge of a graph that is built joins two of its nodes; the root is a node; there are at most
  -- 256 nodes, and no package is two of them.
  pub build_approved_graph-IsComposed :
      (root : PackageManifest) (g : ApprovedGraph)
      → build_approved_graph crates candidates root ≡ ok g
      → IsComposed g
  unfolding build_approved_graph
  build_approved_graph-IsComposed root g h =
      let first = first_search crates candidates root in
      let (s, went, h1) =
        >>=-eq-ok (expand_graph crates candidates (max_transitive_depth + 1) root _ first) _ h in
      let at_root =
        member_last (record first { nodes = [] })
          (node_of (root_name crates candidates) root.cartridge.id root.cartridge.version root) in
      let linked : IsLinked first = record {
        joined = tt;
        named = (at_root, tt);
        known = (found_first (root.cartridge.id, root.cartridge.version) _ [], tt);
        distinct = (refl, tt);
      } in
      let reached =
        expand_graph-IsGood (max_transitive_depth + 1) root (root_name crates candidates) first s
          went at_root linked in
      subst IsComposed (ok_injective _ g _ refl h1)
        (reached.linked.joined, reached.grows _ at_root, reached.bounded, reached.linked.distinct)
