-- ===== src/Manifest/Relations.antt =====
-- The dependencies and the services of a manifest, crates/cartridge-core/src/manifest.rs. A set that
-- a loop fills is the list of its members, the last one first.
use cartridge_runtime.Prelude.{true, not, List, [], ◌∷◌, ltb, is_empty, is_some, length}
use cartridge_runtime.Prelude.Text.{Text, text_eq}
use cartridge_runtime.Prelude.Strings.{member}
use cartridge_runtime.Prelude.Results.{ok, reject, ◌>>◌}
use cartridge_runtime.Manifest.Types.{
  Crates, CartridgeDependency, ProvidedService, PackageManifest, Result, too_many_dependencies,
  too_many_services, self_dependency, bad_requirement, no_interfaces, too_many_interfaces,
  duplicate_alias, duplicate_dependency, duplicate_interface, duplicate_service, max_dependencies,
  max_services, max_interfaces_per_dependency,
}
use cartridge_runtime.Manifest.Names.{
  validate_id, validate_alias, validate_human_text, validate_interface,
}

module _ {V R : Type 0} (crates : Crates V R) where
  -- The loop over the interfaces of a dependency.
  unfoldable pub check_interfaces : List Text → List Text → Result (Unit {0})
  check_interfaces seen [] = ok tt
  check_interfaces seen (i ∷ is) = do
    validate_interface crates i
    reject (member i seen) duplicate_interface
    check_interfaces (i ∷ seen) is

  -- The loop over the dependencies, from the aliases and the ids seen.
  unfoldable pub check_dependencies :
      Text → List Text → List Text → List CartridgeDependency → Result (Unit {0})
  unfolding check_interfaces
  check_dependencies id aliases ids [] = ok tt
  check_dependencies id aliases ids (d ∷ ds) = do
    validate_alias d.alias
    validate_id d.cartridge
    reject (text_eq d.cartridge id) self_dependency
    reject (not (is_some (crates.parse_requirement d.version))) bad_requirement
    reject (is_empty d.interfaces) no_interfaces
    reject (ltb max_interfaces_per_dependency (length d.interfaces)) too_many_interfaces
    validate_human_text d.reason 240 true
    reject (member d.alias aliases) duplicate_alias
    reject (member d.cartridge ids) duplicate_dependency
    check_interfaces [] d.interfaces
    check_dependencies id (d.alias ∷ aliases) (d.cartridge ∷ ids) ds

  -- The loop over the services, from the names and the interfaces seen.
  unfoldable pub check_services : List Text → List Text → List ProvidedService → Result (Unit {0})
  check_services names interfaces [] = ok tt
  check_services names interfaces (s ∷ ss) = do
    validate_alias s.name
    validate_interface crates s.interface
    validate_human_text s.description 240 true
    reject (member s.name names) duplicate_service
    reject (member s.interface interfaces) duplicate_interface
    check_services (s.name ∷ names) (s.interface ∷ interfaces) ss

  unfoldable pub validate_relationships : PackageManifest → Result (Unit {0})
  unfolding check_dependencies check_services
  validate_relationships m = do
    reject (ltb max_dependencies (length m.dependencies)) too_many_dependencies
    reject (ltb max_services (length m.services.provides)) too_many_services
    check_dependencies m.cartridge.id [] [] m.dependencies
    check_services [] [] m.services.provides
