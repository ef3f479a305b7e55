-- ===== src/Manifest/Package/Migrations.antt =====
-- The plans that `migration_plan` gives.
use mathlib.Core.List.{Memᴰ}
use mathlib.Core.List.Memᴰ
use cartridge_runtime.Prelude.{
  ℕ, zero, suc, ◌≤◌, ◌<◌, true, false, not, ◌&&◌, none, some, List, [], ◌∷◌, ltb, ◌==◌, is_empty,
  is_some, length, All, ◌≡◌, ◌≢◌, refl, sym, subst, ◌⊎◌, inl, inr, Bool-cases, Option-cases, arith,
}
use cartridge_runtime.Prelude.Map
use cartridge_runtime.Prelude.Order.{number_ord}
use cartridge_runtime.Prelude.Results.{
  ok, err, reject, >>=-eq-ok, >>-eq-ok, reject-ok, ok_injective,
}
use cartridge_runtime.Network.Http.Policy.{validate_policy}
use cartridge_runtime.Manifest.Types.{
  Crates, StateMigration, PackageManifest, MigrationPlan, bad_format, version_invalid, http_scopes,
  newer_state, no_path, state_without_storage, too_many_migrations, max_migrations,
  current_format_version, migration_plan_format_version,
}
use cartridge_runtime.Manifest.Names.{validate_id, validate_human_text}
use cartridge_runtime.Manifest.Limits.{validate_limits}
use cartridge_runtime.Manifest.State.{
  Sources, validate_state, check_migrations, check_paths, collect_sources, walk,
}
use cartridge_runtime.Manifest.State.Paths.{
  Chain, AreSound, IsIndex, check_migrations-IsIndex, walk-Chain, walk_enough, walk_at, walk_on,
  walk_missing,
}
use cartridge_runtime.Manifest.Platform.{validate_compatibility}
use cartridge_runtime.Manifest.Package.{validate_package, migration_plan, of_network}

abbrev sources_of : PackageManifest → Sources
sources_of m = collect_sources [] m.state.migrations

-- What a valid state has of its sources.
abbrev IsPlanned : PackageManifest → Sources → Type 0
IsPlanned m sources =
    IsIndex m.state.schema m.state.migrations [] m.state.migrations sources
    × All
        (λ x.
          (steps : List StateMigration) × (walk m.state.schema m.state.schema sources x.to
            ≡ ok steps))
        m.state.migrations

no_sources : (k : ℕ) (x : StateMigration) → Map.get k [] ≡ some x → ⊥
unfolding Map.get
no_sources k x got = cc

All-Memᴰ {ℓ κ} : {A : Type ℓ} (P : A → Type κ) (x : A) (xs : List A) → All P xs → Memᴰ x xs → P x
All-Memᴰ P x [] h m = absurd (Memᴰ.not-nil m)
All-Memᴰ P x (y ∷ ys) h m = elim (Memᴰ.cases_cons m) [
  | inl e ↦ subst P (sym e) h.0
  | inr rest ↦ All-Memᴰ P x ys h.1 rest
]

check_paths-All :
    (schema : ℕ) (sources : Sources) (ms : List StateMigration)
    → check_paths schema sources ms ≡ ok tt
    → All (λ x. (steps : List StateMigration) × (walk schema schema sources x.to ≡ ok steps)) ms
unfolding check_paths
check_paths-All schema sources [] h = tt
check_paths-All schema sources (m ∷ ms) h =
    let (steps, went, rest) = >>=-eq-ok (walk schema schema sources m.to) _ h in
    ((steps, went), check_paths-All schema sources ms rest)

validate_state-IsPlanned :
    (m : PackageManifest) → validate_state m ≡ ok tt → IsPlanned m (sources_of m)
unfolding validate_state
validate_state-IsPlanned m h =
    let (a, h1) =
      >>-eq-ok (reject (ltb 0 m.state.schema && not m.permissions.storage) state_without_storage) _
        h in
    let (b, h2) =
      >>-eq-ok (reject (ltb max_migrations (length m.state.migrations)) too_many_migrations) _ h1 in
    let (out, collected, paths) =
      >>=-eq-ok (check_migrations m.state.schema [] [] m.state.migrations) _ h2 in
    let index =
      check_migrations-IsIndex m.state.schema m.state.migrations [] [] m.state.migrations out
        collected (λ x i. i) (λ k x got. absurd (no_sources k x got)) in
    subst (IsPlanned m) index.collected
      (index, check_paths-All m.state.schema out m.state.migrations paths)

module _ {V R : Type 0} (crates : Crates V R) (m : PackageManifest) where
  validate_package-state : validate_package crates m ≡ ok tt → validate_state m ≡ ok tt
  unfolding validate_package
  validate_package-state h =
      let (a, h1) =
        >>-eq-ok (reject (not (m.format_version == current_format_version)) bad_format) _ h in
      let (b, h2) = >>-eq-ok (validate_id m.cartridge.id) _ h1 in
      let (c, h3) = >>-eq-ok (validate_human_text m.cartridge.name 80 false) _ h2 in
      let (d, h4) = >>-eq-ok (validate_human_text m.cartridge.description 240 true) _ h3 in
      let (e, h5) =
        >>-eq-ok (reject (not (is_some (crates.parse m.cartridge.version))) version_invalid) _ h4 in
      let (f, h6) = >>-eq-ok (of_network (validate_policy m.http)) _ h5 in
      let (g, h7) =
        >>-eq-ok (reject (not m.permissions.http && not (is_empty m.http.scopes)) http_scopes) _
          h6 in
      let (i, h8) = >>-eq-ok (validate_compatibility crates m.compatibility m.permissions) _ h7 in
      let (j, h9) = >>-eq-ok (validate_limits m.runtime) _ h8 in
      (>>-eq-ok (validate_state m) _ h9).0

  abbrev plan_of : ℕ → List StateMigration → MigrationPlan
  plan_of source_schema steps = record {
    format_version = migration_plan_format_version;
    cartridge_id = m.cartridge.id;
    cartridge_version = m.cartridge.version;
    component_sha256 = m.integrity.component_sha256;
    source_schema = source_schema;
    target_schema = m.state.schema;
    steps = steps;
  }

  -- The steps lead from a schema to the package's, each on from where the one before led, and are
  -- migrations of the manifest.
  abbrev pub IsPath : ℕ → MigrationPlan → Type 0
  IsPath source_schema p =
      (p.source_schema ≡ source_schema)
      × (p.target_schema ≡ m.state.schema)
      × Chain source_schema p.steps m.state.schema
      × All (λ x. Memᴰ x m.state.migrations) p.steps

  -- There is a plan, or the schema is newer than the package's, or it is older and no migration starts
  -- there.
  abbrev pub IsAnswered : ℕ → Type 0
  IsAnswered source_schema =
      ((p : MigrationPlan) × (migration_plan crates m source_schema ≡ ok p))
      ⊎ ((m.state.schema < source_schema)
          × (migration_plan crates m source_schema ≡ err newer_state))
      ⊎ ((source_schema < m.state.schema)
          × All (λ x. x.from ≢ source_schema) m.state.migrations
          × (migration_plan crates m source_schema ≡ err no_path))

  -- From where a migration starts, a walk gets to the end.
  walk_from :
      (x : StateMigration)
      → IsPlanned m (sources_of m)
      → Map.get x.from (sources_of m) ≡ some x
      → Memᴰ x m.state.migrations
      → (steps : List StateMigration) × (walk m.state.schema m.state.schema (sources_of m) x.from
          ≡ ok steps)
  walk_from x (index, leads) got here =
      let (from, rising, low, inside) = index.sound x.from x got in
      let (steps, went) = All-Memᴰ _ x m.state.migrations leads here in
      go m.state.schema index.sound rising low steps went
    where
      go :
          (schema : ℕ)
          → AreSound schema m.state.migrations (sources_of m)
          → x.from < x.to
          → x.to ≤ schema
          → (steps : List StateMigration) → walk schema schema (sources_of m) x.to ≡ ok steps
          → (all : List StateMigration) × (walk schema schema (sources_of m) x.from ≡ ok all)
      go zero sound rising low steps went = absurd (omega arith)
      go (suc left) sound rising low steps went =
          let (runs, same) =
            walk_enough left (suc left) m.state.migrations (sources_of m) x.to sound
              (omega arith) in
          (
            x ∷ steps,
            cc (walk_on left (suc left) (sources_of m) x.from (ground arith), got, same, went),
          )

  -- A plan's steps are migrations of the manifest, which lead from the schema asked for, each on from
  -- where the one before led, to the schema of the package.
  pub migration_plan-Chain :
      (source_schema : ℕ) (p : MigrationPlan)
      → migration_plan crates m source_schema ≡ ok p
      → IsPath source_schema p
  unfolding migration_plan
  migration_plan-Chain source_schema p h =
      let (valid, h1) = >>-eq-ok (validate_package crates m) _ h in
      let (old, h2) = >>-eq-ok (reject (ltb m.state.schema source_schema) newer_state) _ h1 in
      let (steps, went, h3) =
        >>=-eq-ok (walk m.state.schema m.state.schema (sources_of m) source_schema) _ h2 in
      let (index, leads) = validate_state-IsPlanned m (validate_package-state valid) in
      let (chain, inside) =
        walk-Chain m.state.schema m.state.schema m.state.migrations (sources_of m) source_schema
          steps index.sound (ground (arith, reject-ok _ _ old)) went in
      subst (IsPath source_schema) (ok_injective (plan_of source_schema steps) p _ refl h3)
        (refl, refl, chain, inside)

  no_start :
      (c : ℕ) (ms : List StateMigration)
      → Map.get c (sources_of m) ≡ none
      → All (λ x. Map.get x.from (sources_of m) ≡ some x) ms
      → All (λ x. x.from ≢ c) ms
  no_start c [] missing found = tt
  no_start c (x ∷ xs) missing found = (λ e. cc (missing, found.0, e), no_start c xs missing found.1)

  -- A manifest that is valid has a plan from a schema, or the schema is newer than the package's, or it
  -- is older and no migration starts there.
  pub migration_plan_cases :
      (source_schema : ℕ) → validate_package crates m ≡ ok tt → IsAnswered source_schema
  unfolding migration_plan
  migration_plan_cases source_schema valid =
      let planned = validate_state-IsPlanned m (validate_package-state valid) in
      elim (Bool-cases (ltb m.state.schema source_schema)) [
        | inl newer ↦ inr (inl (ground (arith, newer), cc (valid, newer)))
        | inr older ↦ elim (Bool-cases (ltb source_schema m.state.schema)) [
          | inr there ↦
              let went = walk_at m.state.schema m.state.schema (sources_of m) source_schema there in
              inl (plan_of source_schema [], cc (valid, older, went))
          | inl before ↦ elim (Option-cases (Map.get source_schema (sources_of m))) [
            | inl missing ↦
                let went =
                  walk_missing m.state.schema (sources_of m) source_schema before missing in
                inr (
                  inr (
                    ground (arith, before),
                    no_start source_schema m.state.migrations missing planned.0.found,
                    cc (valid, older, went),
                  ))
            | inr (x, got) ↦
                let (same, rising, low, here) = planned.0.sound source_schema x got in
                let (steps, went) = walk_from x planned (cc (got, same)) here in
                inl (plan_of source_schema steps, cc (valid, older, went, same))
          ]
        ]
      ]
