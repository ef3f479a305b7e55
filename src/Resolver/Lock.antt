-- ===== src/Resolver/Lock.antt =====
-- Locks of compositions, crates/cartridge-core/src/resolver.rs. A set that a loop fills is the list of
-- its members, the last one first.
pub mod Closed
use Prim.Native.Nat.{Ordering}
use cartridge_runtime.Prelude.{
  Bool, true, false, not, ◌&&◌, ◌||◌, Option, none, some, List, [], ◌∷◌, ltb, ◌==◌, length, all,
  is_empty, is_some_and, map, if◌then◌else◌,
}
use cartridge_runtime.Prelude.Text.{Text, text_eq, text_cmp}
use cartridge_runtime.Prelude.Strings.{member}
use cartridge_runtime.Prelude.Results.{ok, reject, ◌>>=◌, ◌>>◌}
use cartridge_runtime.Supervisor.Names.{is_digest}
use cartridge_runtime.Manifest.Types.{Crates}
use cartridge_runtime.Resolver.Types.{
  LockedPackage, CompositionLock, ResolutionPlan, ResolvedDependency, UnavailableDependency, Key,
  has_key, Result, lock_counts, lock_order, lock_edge, lock_optional, lock_unreferenced,
  lock_package, composition_lock_format_version, max_locked_packages, max_locked_package_bytes,
}
use cartridge_runtime.Resolver.Checks.{
  is_cartridge_id, is_alias, is_bounded_text, bad_interfaces, bad_version,
}

abbrev pub provider_key : LockedPackage → Key
provider_key p = (p.cartridge_id, p.version)

abbrev pub dependency_key : ResolvedDependency → Key
dependency_key d = (d.cartridge, d.version)

-- `cmp` of two keys.
abbrev pub key_cmp : Key → Key → Ordering
key_cmp k j = elim (text_cmp k.0 j.0) [
  | Ordering.eq ↦ text_cmp k.1 j.1
  | Ordering.lt ↦ Ordering.lt
  | Ordering.gt ↦ Ordering.gt
]

abbrev pub key_lt : Key → Key → Bool
key_lt k j = elim (key_cmp k j) [ Ordering.lt ↦ true | _ ↦ false ]

-- `sort_by`, where what was first stays first among equals.
unfoldable pub insert_provider : LockedPackage → List LockedPackage → List LockedPackage
insert_provider p [] = p ∷ []
insert_provider p (q ∷ qs) =
    let rest = insert_provider p qs in
    if key_lt (provider_key q) (provider_key p) then q ∷ rest else p ∷ q ∷ qs

unfoldable pub sort_providers : List LockedPackage → List LockedPackage
unfolding insert_provider
sort_providers [] = []
sort_providers (p ∷ ps) = insert_provider p (sort_providers ps)

-- The test that two sets of keys are one.
abbrev pub same_keys : List Key → List Key → Bool
same_keys a b = all (λ k. has_key k b) a && all (λ k. has_key k a) b

module _ {V R : Type 0} (crates : Crates V R) where
  unfoldable pub validate_locked_package : LockedPackage → Result (Unit {0})
  validate_locked_package p =
      reject
        (not (is_cartridge_id p.cartridge_id)
          || bad_version crates p.version
          || p.package_bytes == 0
          || ltb max_locked_package_bytes p.package_bytes
          || not (is_digest p.package_sha256)
          || not (is_digest p.component_sha256)
          || (not (is_empty p.assets_root_sha256) && not (is_digest p.assets_root_sha256)))
        lock_package

  -- The loop over the providers, from the last key.
  unfoldable pub check_providers : Option Key → List LockedPackage → Result (Unit {0})
  unfolding validate_locked_package
  check_providers previous [] = ok tt
  check_providers previous (p ∷ ps) = do
    validate_locked_package p
    reject (is_some_and previous (λ key. not (key_lt key (provider_key p)))) lock_order
    check_providers (some (provider_key p)) ps

  -- The tests of a resolved dependency, from the aliases seen and the keys of the providers.
  unfoldable pub bad_resolved : List Text → List Key → ResolvedDependency → Bool
  bad_resolved aliases indexed d =
      not (is_alias d.alias)
      || not (is_cartridge_id d.cartridge)
      || bad_version crates d.version
      || member d.alias aliases
      || bad_interfaces crates d.interfaces
      || not (has_key (dependency_key d) indexed)

  -- The loop over the resolved dependencies, which answers the aliases.
  unfoldable pub check_resolved :
      List Text → List Key → List ResolvedDependency → Result (List Text)
  unfolding bad_resolved
  check_resolved aliases indexed [] = ok aliases
  check_resolved aliases indexed (d ∷ ds) = do
    reject (bad_resolved aliases indexed d) lock_edge
    check_resolved (d.alias ∷ aliases) indexed ds

  unfoldable pub check_unavailable : List Text → List UnavailableDependency → Result (Unit {0})
  check_unavailable aliases [] = ok tt
  check_unavailable aliases (u ∷ us) = do
    reject
        (not (is_alias u.alias)
          || not (is_cartridge_id u.cartridge)
          || member u.alias aliases
          || not (is_bounded_text u.reason 512 false))
        lock_optional
    check_unavailable (u.alias ∷ aliases) us

  unfoldable pub validate_lock : CompositionLock → Result (Unit {0})
  unfolding check_providers check_resolved check_unavailable
  validate_lock l = do
    reject
        (not (l.format_version == composition_lock_format_version)
          || ltb max_locked_packages (length l.providers)
          || ltb max_locked_packages (length l.plan.resolved)
          || ltb max_locked_packages (length l.plan.unavailable_optional))
        lock_counts
    validate_locked_package l.root
    check_providers none l.providers
    aliases ← check_resolved [] (map provider_key l.providers) l.plan.resolved
    check_unavailable aliases l.plan.unavailable_optional
    reject (not (same_keys (map provider_key l.providers) (map dependency_key l.plan.resolved)))
        lock_unreferenced

  -- `CompositionLock::new`
  unfoldable pub new_lock :
      LockedPackage → List LockedPackage → ResolutionPlan → Result CompositionLock
  unfolding sort_providers
  new_lock root providers plan =
      let lock : CompositionLock = record {
        format_version = composition_lock_format_version;
        root = root;
        providers = sort_providers providers;
        plan = plan;
      } in
      do validate_lock lock; ok lock
