-- ===== src/Manifest/State/Paths.antt =====
-- Where walks over the migrations of a state lead.
use mathlib.Core.List.{Memᴰ}
use cartridge_runtime.Prelude.{
  ℕ, zero, suc, ◌-◌, ◌≤◌, ◌<◌, true, false, none, some, List, [], ◌∷◌, ltb, leb, is_some, All, ◌≡◌,
  ◌≢◌, refl, sym, ◌∙◌, subst, inl, inr, Bool-cases, Option-cases, arith,
}
use cartridge_runtime.Prelude.Text.{Text}
use cartridge_runtime.Prelude.Strings.{member}
use cartridge_runtime.Prelude.Map
use cartridge_runtime.Prelude.Map.{get-insert, same_key, same_key-eq, same_key_refl}
use cartridge_runtime.Prelude.Order.{number_ord}
use cartridge_runtime.Prelude.Results.{
  ok, err, reject, ok_or, ◌>>=◌, >>=-eq-ok, >>-eq-ok, reject-ok, ok_or-ok, ok_injective,
}
use cartridge_runtime.Manifest.Types.{
  StateMigration, Result, out_of_fuel, no_path, duplicate_migration, not_increasing, beyond_schema,
  duplicate_source,
}
use cartridge_runtime.Manifest.Names.{validate_alias}
use cartridge_runtime.Manifest.State.{Sources, check_migrations, walk, collect_sources}

-- Migrations that lead from one schema to another, each on from where the one before led.
abbrev pub Chain : ℕ → List StateMigration → ℕ → Type 0
Chain a [] b = a ≡ b
Chain a (m ∷ ms) b = (m.from ≡ a) × (a < m.to) × Chain m.to ms b

-- What is found in the sources is one of the migrations, from the schema it is found under.
abbrev pub AreSound : ℕ → List StateMigration → Sources → Type 0
AreSound schema all sources =
    (k : ℕ) (m : StateMigration)
    → Map.get k sources ≡ some m
    → (m.from ≡ k) × (k < m.to) × (m.to ≤ schema) × Memᴰ m all

abbrev Holds : Sources → Sources → Type 0
Holds sources out =
    (k : ℕ) (m : StateMigration) → Map.get k sources ≡ some m → Map.get k out ≡ some m

pub record IsIndex (schema : ℕ) (all : List StateMigration) (sources : Sources)
    (ms : List StateMigration) (out : Sources) : Type 0 where
  pub sound : AreSound schema all out
  pub kept : Holds sources out
  pub found : All (λ m. Map.get m.from out ≡ some m) ms
  pub collected : out ≡ collect_sources sources ms

insert-AreSound :
    (schema : ℕ) (all : List StateMigration) (sources : Sources) (m : StateMigration)
    → AreSound schema all sources
    → m.from < m.to
    → m.to ≤ schema
    → Memᴰ m all
    → AreSound schema all (Map.insert m.from m sources)
insert-AreSound schema all sources m s less most here k x got =
    elim (Bool-cases (same_key k m.from)) [
      | inl same ↦
          let e : k ≡ m.from = same_key-eq k m.from same in
          let x_eq : x ≡ m = cc (get-insert m.from k m sources, got, same) in
          subst (λ y. (y.from ≡ k) × (k < y.to) × (y.to ≤ schema) × Memᴰ y all) (sym x_eq)
            (sym e, (omega arith), most, here)
      | inr other ↦ s k x (cc (get-insert m.from k m sources, got, other))
    ]

get_inserted :
    (m : StateMigration) (sources : Sources) → Map.get m.from (Map.insert m.from m sources) ≡ some m
get_inserted m sources = cc (get-insert m.from m.from m sources, same_key_refl m.from)

insert-Holds :
    (sources : Sources) (m : StateMigration)
    → is_some (Map.get m.from sources) ≡ false
    → Holds sources (Map.insert m.from m sources)
insert-Holds sources m fresh k x got = elim (Bool-cases (same_key k m.from)) [
  | inl same ↦ let e : k ≡ m.from = same_key-eq k m.from same in absurd (cc (fresh, got, e))
  | inr other ↦ cc (get-insert m.from k m sources, got, other)
]

pub check_migrations-IsIndex :
    (schema : ℕ) (all : List StateMigration) (names : List Text) (sources : Sources)
    (ms : List StateMigration) (out : Sources)
    → check_migrations schema names sources ms ≡ ok out
    → ((m : StateMigration) → Memᴰ m ms → Memᴰ m all)
    → AreSound schema all sources
    → IsIndex schema all sources ms out
unfolding check_migrations collect_sources
check_migrations-IsIndex schema all names sources [] out h inside s =
    let e : sources ≡ out = ok_injective sources out _ refl h in
    record {
      sound = λ k m got. s k m (cc (e, got));
      kept = λ k m got. cc (e, got);
      found = tt;
      collected = cc (e);
    }
check_migrations-IsIndex schema all names sources (m ∷ ms) out h inside s =
    let (valid, h1) = >>-eq-ok (validate_alias m.name) _ h in
    let (named, h2) = >>-eq-ok (reject (member m.name names) duplicate_migration) _ h1 in
    let (rising, h3) = >>-eq-ok (reject (leb m.to m.from) not_increasing) _ h2 in
    let (low, h4) = >>-eq-ok (reject (ltb schema m.to) beyond_schema) _ h3 in
    let (fresh, h5) = >>-eq-ok (reject (is_some (Map.get m.from sources)) duplicate_source) _ h4 in
    let less : m.from < m.to = ground (arith, reject-ok _ _ rising) in
    let most : m.to ≤ schema = ground (arith, reject-ok _ _ low) in
    let rest =
      check_migrations-IsIndex schema all (m.name ∷ names) (Map.insert m.from m sources) ms out h5
        (λ x i. inside x (Memᴰ.tail i))
        (insert-AreSound schema all sources m s less most (inside m (Memᴰ.head refl))) in
    record {
      sound = rest.sound;
      kept = λ k x got. rest.kept k x (insert-Holds sources m (reject-ok _ _ fresh) k x got);
      found = (rest.kept m.from m (get_inserted m sources), rest.found);
      collected = rest.collected;
    }

pub walk_at :
    (fuel schema : ℕ) (sources : Sources) (c : ℕ)
    → ltb c schema ≡ false
    → walk fuel schema sources c ≡ ok []
unfolding walk
walk_at zero schema sources c e = ground (arith, e)
walk_at (suc fuel) schema sources c e = ground (arith, e)

pub walk_on :
    (fuel schema : ℕ) (sources : Sources) (c : ℕ)
    → ltb c schema ≡ true
    → walk (suc fuel) schema sources c ≡ (
        ok_or (Map.get c sources) no_path
        >>= (λ m. walk fuel schema sources m.to >>= (λ rest. ok (m ∷ rest))))
unfolding walk
walk_on fuel schema sources c e = ground (arith, e)

-- At the schema, a walk is over.
stay-Chain :
    (fuel schema : ℕ) (all : List StateMigration) (sources : Sources) (c : ℕ)
    (steps : List StateMigration)
    → c ≤ schema
    → ltb c schema ≡ false
    → walk fuel schema sources c ≡ ok steps
    → Chain c steps schema × All (λ m. Memᴰ m all) steps
stay-Chain fuel schema all sources c steps l e h =
    subst (λ xs. Chain c xs schema × All (λ m. Memᴰ m all) xs)
      (ok_injective [] steps _ (walk_at fuel schema sources c e) h) (ground (arith, e), tt)

pub walk-Chain :
    (fuel schema : ℕ) (all : List StateMigration) (sources : Sources) (c : ℕ)
    (steps : List StateMigration)
    → AreSound schema all sources
    → c ≤ schema
    → walk fuel schema sources c ≡ ok steps
    → Chain c steps schema × All (λ m. Memᴰ m all) steps
unfolding walk
walk-Chain zero schema all sources c steps s l h = elim (Bool-cases (ltb c schema)) [
  | inl e ↦ absurd (cc (e, h))
  | inr e ↦ stay-Chain zero schema all sources c steps l e h
]
walk-Chain (suc fuel) schema all sources c steps s l h = elim (Bool-cases (ltb c schema)) [
  | inl e ↦
      let (m, found, h1) =
        >>=-eq-ok (ok_or (Map.get c sources) no_path) _
          (sym (walk_on fuel schema sources c e) ∙ h) in
      let (rest, walked, h2) = >>=-eq-ok (walk fuel schema sources m.to) _ h1 in
      let (from, rising, low, here) = s c m (ok_or-ok _ _ found) in
      let (chain, inside) = walk-Chain fuel schema all sources m.to rest s low walked in
      let e : m ∷ rest ≡ steps = ok_injective (m ∷ rest) steps _ refl h2 in
      subst (λ xs. Chain c xs schema × All (λ m. Memᴰ m all) xs) e
        ((from, rising, chain), (here, inside))
  | inr e ↦ stay-Chain (suc fuel) schema all sources c steps l e h
]

over :
    (fuel schema : ℕ) (sources : Sources) (c : ℕ)
    → ltb c schema ≡ false
    → (walk fuel schema sources c ≢ err out_of_fuel)
      × (walk (suc fuel) schema sources c ≡ walk fuel schema sources c)
over fuel schema sources c e = (
  λ out. cc (walk_at fuel schema sources c e, out),
  cc (walk_at fuel schema sources c e, walk_at (suc fuel) schema sources c e),
)

cut :
    (r : Result (List StateMigration)) (m : StateMigration)
    → (r >>= (λ rest. ok (m ∷ rest))) ≡ err out_of_fuel
    → r ≡ err out_of_fuel
cut (ok steps) m h = cc
cut (err e) m h = cc

-- With as much fuel as there are schemas left, more of it changes nothing, and none runs out.
pub walk_enough :
    (fuel schema : ℕ) (all : List StateMigration) (sources : Sources) (c : ℕ)
    → AreSound schema all sources
    → schema - c ≤ fuel
    → (walk fuel schema sources c ≢ err out_of_fuel)
      × (walk (suc fuel) schema sources c ≡ walk fuel schema sources c)
unfolding walk
walk_enough zero schema all sources c s l = elim (Bool-cases (ltb c schema)) [
  | inl e ↦ absurd (ground (arith, e))
  | inr e ↦ over zero schema sources c e
]
walk_enough (suc fuel) schema all sources c s l = elim (Bool-cases (ltb c schema)) [
  | inl e ↦ elim (Option-cases (Map.get c sources)) [
    | inl missing ↦ (
      λ out. cc (walk_on fuel schema sources c e, missing, out),
      cc (walk_on (suc fuel) schema sources c e, walk_on fuel schema sources c e, missing),
    )
    | inr (m, got) ↦
        let (from, rising, low, here) = s c m got in
        let (runs, same) = walk_enough fuel schema all sources m.to s (omega arith) in
        (
          λ out. runs (
              cut (walk fuel schema sources m.to) m
                (cc (walk_on fuel schema sources c e, got, out))),
          cc (walk_on (suc fuel) schema sources c e, walk_on fuel schema sources c e, got, same),
        )
  ]
  | inr e ↦ over (suc fuel) schema sources c e
]

pub walk_missing :
    (schema : ℕ) (sources : Sources) (c : ℕ)
    → ltb c schema ≡ true
    → Map.get c sources ≡ none
    → walk schema schema sources c ≡ err no_path
walk_missing zero sources c before missing = absurd (ground (arith, before))
walk_missing (suc left) sources c before missing =
    cc (walk_on left (suc left) sources c before, missing)
