-- ===== src/Resolver/Authority/Granted.antt =====
-- The authority of a valid graph.
use cartridge_runtime.Prelude.{
  ℕ, none, true, false, not, ◌||◌, List, [], ◌∷◌, map, ltb, ◌==◌, length, length-map, any, All, ◌≡◌,
  refl, sym, subst, inl, inr, Bool-cases, arith,
}
use cartridge_runtime.Prelude.Text.{Text, text_eq, text_eq_iff}
use cartridge_runtime.Prelude.Strings.{member}
use cartridge_runtime.Prelude.Results.{
  ok, err, reject, >>=-eq-ok, >>-eq-ok, reject-ok, ok_injective,
}
use cartridge_runtime.Manifest.Types.{Crates}
use cartridge_runtime.Resolver.Types.{
  GraphNode, GraphEdge, ApprovedGraph, EdgeKind, RelationshipGrant, RelationshipAuthority, Result,
  graph_format, graph_limits, graph_node, graph_root, approved_graph_format_version,
  max_graph_nodes, max_graph_edges,
}
use cartridge_runtime.Resolver.Checks.{is_alias, is_cartridge_id, bad_version}
use cartridge_runtime.Resolver.Checks.Alias.{is_alias_bounded}
use cartridge_runtime.Resolver.Graph.{check_nodes, bad_edge, validate_graph}
use cartridge_runtime.Resolver.Authority.{
  grant_of, validate_grant, validate_grants, validate_authority, from_graph,
}

abbrev AreAliases : List Text → Type 0
AreAliases = All (λ x. is_alias x ≡ true)

member-alias :
    (x : Text) (names : List Text) → AreAliases names → member x names ≡ true → is_alias x ≡ true
unfolding member
member-alias x [] h m = cc
member-alias x (n ∷ ns) h m = elim (Bool-cases (text_eq x n)) [
  | inl same ↦ subst (λ y. is_alias y ≡ true) (sym ((text_eq_iff x n).0 same)) h.0
  | inr other ↦ member-alias x ns h.1 (ground (arith, other, m))
]

-- A grant gives the caller of the edge the interfaces of the edge at its provider, under the alias of
-- the edge, for the session and without a time to expire.
pub record IsGrantOf (generation : ℕ) (e : GraphEdge) (g : RelationshipGrant) : Type 0 where
  pub caller : g.caller_instance ≡ e.caller_instance
  pub provider : g.provider_instance ≡ e.provider_instance
  pub interfaces : g.interfaces ≡ e.interfaces
  pub scope : g.scope ≡ e.alias
  pub kind : g.kind ≡ EdgeKind.session
  pub expiry : g.expiry_ms ≡ none
  pub approval : g.approval_generation ≡ generation

-- One grant for each edge, in the order of the edges.
abbrev pub AreGrants : ℕ → List GraphEdge → List RelationshipGrant → Type 0
AreGrants generation [] [] = Unit
AreGrants generation [] (g ∷ gs) = ⊥
AreGrants generation (e ∷ es) [] = ⊥
AreGrants generation (e ∷ es) (g ∷ gs) = IsGrantOf generation e g × AreGrants generation es gs

-- There is an authority, and its grants are those of the edges.
abbrev pub IsGranted : ℕ → List GraphEdge → Result RelationshipAuthority → Type 0
IsGranted generation es (err e) = ⊥
IsGranted generation es (ok a) =
    (a.format_version ≡ approved_graph_format_version) × AreGrants generation es a.grants

map-AreGrants :
    (generation : ℕ) (es : List GraphEdge) → AreGrants generation es (map (grant_of generation) es)
unfolding grant_of
map-AreGrants generation [] = tt
map-AreGrants generation (e ∷ es) = (
  record {
    caller = refl;
    provider = refl;
    interfaces = refl;
    scope = refl;
    kind = refl;
    expiry = refl;
    approval = refl;
  },
  map-AreGrants generation es,
)

module _ {V R : Type 0} (crates : Crates V R) where
  check_nodes-AreAliases :
      (names out : List Text) (ns : List GraphNode)
      → check_nodes crates names ns ≡ ok out
      → AreAliases names
      → AreAliases out
  unfolding check_nodes
  check_nodes-AreAliases names out [] h a = subst AreAliases (ok_injective names out _ refl h) a
  check_nodes-AreAliases names out (n ∷ ns) h a =
      let (good, h1) =
        >>-eq-ok
          (reject
            (not (is_alias n.instance_name)
              || not (is_cartridge_id n.cartridge_id)
              || bad_version crates n.version
              || member n.instance_name names)
            graph_node)
          _ h in
      check_nodes-AreAliases (n.instance_name ∷ names) out ns h1
        (ground (arith, reject-ok _ _ good), a)

  grant_of_valid :
      (names : List Text) (generation : ℕ) (e : GraphEdge)
      → AreAliases names
      → bad_edge crates names e ≡ false
      → validate_grant crates (grant_of generation e) ≡ ok tt
  unfolding bad_edge validate_grant grant_of
  grant_of_valid names generation e a good =
      let caller = member-alias e.caller_instance names a (ground (arith, good)) in
      let provider = member-alias e.provider_instance names a (ground (arith, good)) in
      let scope = is_alias_bounded e.alias 256 (ground arith) (ground (arith, good)) in
      ground (arith, good, caller, provider, scope)

  grants_valid :
      (names : List Text) (generation : ℕ) (es : List GraphEdge)
      → AreAliases names
      → any (bad_edge crates names) es ≡ false
      → validate_grants crates (map (grant_of generation) es) ≡ ok tt
  unfolding validate_grants
  grants_valid names generation [] a good = refl
  grants_valid names generation (e ∷ es) a good = cc (
    grant_of_valid names generation e a (ground (arith, good)),
    grants_valid names generation es a (ground (arith, good)),
  )

  -- A valid graph always has an authority, with one grant for each edge in their order: to the caller
  -- of the edge, at its provider, the interfaces of the edge under its alias, for the session, without a
  -- time to expire and with the approval's generation.
  pub from_graph_total :
      (g : ApprovedGraph) (generation : ℕ)
      → validate_graph crates g ≡ ok tt
      → IsGranted generation g.edges (from_graph crates g generation)
  unfolding validate_graph from_graph validate_authority
  from_graph_total g generation h =
      let (version, h1) =
        >>-eq-ok (reject (not (g.format_version == approved_graph_format_version)) graph_format) _
          h in
      let (few, h2) =
        >>-eq-ok
          (reject (ltb max_graph_nodes (length g.nodes) || ltb max_graph_edges (length g.edges))
            graph_limits)
          _ h1 in
      let (names, checked, h3) = >>=-eq-ok (check_nodes crates [] g.nodes) _ h2 in
      let (root, h4) = >>-eq-ok (reject (not (member g.root_instance names)) graph_root) _ h3 in
      let aliases = check_nodes-AreAliases [] names g.nodes checked tt in
      let valid = grants_valid names generation g.edges aliases (reject-ok _ _ h4) in
      let bounded : ltb max_graph_edges (length (map (grant_of generation) g.edges)) ≡ false =
        ground (arith, reject-ok _ _ few, length-map (grant_of generation) g.edges) in
      let authority : RelationshipAuthority = record {
        format_version = approved_graph_format_version;
        grants = map (grant_of generation) g.edges;
      } in
      let made : from_graph crates g generation ≡ ok authority = cc (valid, bounded) in
      subst (IsGranted generation g.edges) (sym made) (refl, map-AreGrants generation g.edges)
