-- ===== src/Manifest/State.antt =====
-- The migrations of a package's state, crates/cartridge-core/src/manifest.rs.
pub mod Paths
use cartridge_runtime.Prelude.{
  ℕ, zero, suc, ◌+◌, Bool, true, false, not, ◌&&◌, Option, none, some, List, [], ◌∷◌, ltb, leb,
  is_some, length, if◌then◌else◌,
}
use cartridge_runtime.Prelude.Text.{Text}
use cartridge_runtime.Prelude.Strings.{member}
use cartridge_runtime.Prelude.Map.{Map}
use cartridge_runtime.Prelude.Map
use cartridge_runtime.Prelude.Order.{number_ord}
use cartridge_runtime.Prelude.Results.{ok, err, reject, ok_or, ◌>>=◌, ◌>>◌}
use cartridge_runtime.Manifest.Types.{
  StateMigration, PackageManifest, Result, state_without_storage, too_many_migrations,
  duplicate_migration, not_increasing, beyond_schema, duplicate_source, no_path, out_of_fuel,
  max_migrations,
}
use cartridge_runtime.Manifest.Names.{validate_alias}

abbrev pub Sources : Type 0
Sources = Map ℕ StateMigration

-- The first loop of `validate_state`, from the names seen and the sources put in.
unfoldable pub check_migrations : ℕ → List Text → Sources → List StateMigration → Result Sources
check_migrations schema names sources [] = ok sources
check_migrations schema names sources (m ∷ ms) = do
  validate_alias m.name
  reject (member m.name names) duplicate_migration
  reject (leb m.to m.from) not_increasing
  reject (ltb schema m.to) beyond_schema
  reject (is_some (Map.get m.from sources)) duplicate_source
  check_migrations schema (m.name ∷ names) (Map.insert m.from m sources) ms

-- `while current < schema`, with the migrations taken.
unfoldable pub walk : ℕ → ℕ → Sources → ℕ → Result (List StateMigration)
walk zero schema sources current = if ltb current schema then err out_of_fuel else ok []
walk (suc left) schema sources current = elim (ltb current schema) [
  | false ↦ ok []
  | true ↦ do
    m ← ok_or (Map.get current sources) no_path
    steps ← walk left schema sources m.to
    ok (m ∷ steps)
]

-- The second loop of `validate_state`, which walks on from every migration. A walk takes at most as
-- many migrations as there are schemas.
unfoldable pub check_paths : ℕ → Sources → List StateMigration → Result (Unit {0})
unfolding walk
check_paths schema sources [] = ok tt
check_paths schema sources (m ∷ ms) = do
  steps ← walk schema schema sources m.to
  check_paths schema sources ms

unfoldable pub validate_state : PackageManifest → Result (Unit {0})
unfolding check_migrations check_paths
validate_state m = do
  reject (ltb 0 m.state.schema && not m.permissions.storage) state_without_storage
  reject (ltb max_migrations (length m.state.migrations)) too_many_migrations
  sources ← check_migrations m.state.schema [] [] m.state.migrations
  check_paths m.state.schema sources m.state.migrations

-- The map from the sources that `migration_plan` collects.
unfoldable pub collect_sources : Sources → List StateMigration → Sources
collect_sources sources [] = sources
collect_sources sources (m ∷ ms) = collect_sources (Map.insert m.from m sources) ms
