-- ===== src/Resolver/Authority.antt =====
-- The grants between the instances of a composition, crates/cartridge-core/src/resolver.rs.
pub mod Granted
use cartridge_runtime.Prelude.{
  ℕ, Bool, true, false, not, ◌&&◌, ◌||◌, none, List, [], ◌∷◌, map, ltb, ◌==◌, length, any,
}
use cartridge_runtime.Prelude.Text.{Text, text_eq}
use cartridge_runtime.Prelude.Sets.{keep}
use cartridge_runtime.Prelude.Results.{ok, reject, ◌>>◌}
use cartridge_runtime.Manifest.Types.{Crates}
use cartridge_runtime.Resolver.Types.{
  GraphEdge, ApprovedGraph, EdgeKind, RelationshipGrant, RelationshipAuthority, Result,
  grant_invalid, authority_format, authority_limit, approved_graph_format_version, max_graph_edges,
}
use cartridge_runtime.Resolver.Checks.{is_alias, is_bounded_text, bad_interfaces}

abbrev pub is_revoked : EdgeKind → Bool
is_revoked EdgeKind.revoked = true
is_revoked _ = false

unfoldable pub grant_of : ℕ → GraphEdge → RelationshipGrant
grant_of generation e = record {
  caller_instance = e.caller_instance;
  provider_instance = e.provider_instance;
  interfaces = e.interfaces;
  scope = e.alias;
  kind = EdgeKind.session;
  expiry_ms = none;
  approval_generation = generation;
}

unfoldable pub active_grants_for_caller : RelationshipAuthority → Text → List RelationshipGrant
active_grants_for_caller a caller =
    keep (λ g. text_eq g.caller_instance caller && not (is_revoked g.kind)) a.grants

-- A grant is answered by one the other way.
abbrev pub is_answered : RelationshipAuthority → RelationshipGrant → Bool
is_answered a g =
    any (λ h. text_eq h.provider_instance g.caller_instance)
      (keep (λ h. text_eq h.caller_instance g.provider_instance && not (is_revoked h.kind))
        a.grants)

unfoldable pub provider_authority_is_isolated : RelationshipAuthority → Bool
provider_authority_is_isolated a =
    not (any (λ g. not (is_revoked g.kind) && is_answered a g) a.grants)

module _ {V R : Type 0} (crates : Crates V R) where
  -- `RelationshipGrant::validate`
  unfoldable pub validate_grant : RelationshipGrant → Result (Unit {0})
  validate_grant g =
      reject
        (not (is_alias g.caller_instance)
          || not (is_alias g.provider_instance)
          || bad_interfaces crates g.interfaces
          || not (is_bounded_text g.scope 256 false))
        grant_invalid

  unfoldable pub validate_grants : List RelationshipGrant → Result (Unit {0})
  unfolding validate_grant
  validate_grants [] = ok tt
  validate_grants (g ∷ gs) = do validate_grant g; validate_grants gs

  -- `RelationshipAuthority::validate`
  unfoldable pub validate_authority : RelationshipAuthority → Result (Unit {0})
  unfolding validate_grants
  validate_authority a = do
    reject (not (a.format_version == approved_graph_format_version)) authority_format
    reject (ltb max_graph_edges (length a.grants)) authority_limit
    validate_grants a.grants

  -- `RelationshipAuthority::from_graph`
  unfoldable pub from_graph : ApprovedGraph → ℕ → Result RelationshipAuthority
  unfolding grant_of validate_authority
  from_graph g generation =
      let authority : RelationshipAuthority = record {
        format_version = approved_graph_format_version;
        grants = map (grant_of generation) g.edges;
      } in
      do validate_authority authority; ok authority
