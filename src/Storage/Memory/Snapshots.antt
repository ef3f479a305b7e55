-- ===== src/Storage/Memory/Snapshots.antt =====
-- `snapshot_state` and `load_namespace` of crates/cartridge-storage/src/lib.rs, by which the directory
-- backend reads and fills the in-memory one.
use cartridge_runtime.Prelude.{
  ℕ, ◌+◌, ◌<◌, ◌≡◌, refl, sym, ap, ◌∙◌, false, Option, none, some, [], ◌∷◌, arith, length,
  if◌then◌else◌, inl, inr, subst, Bool-cases,
}
use cartridge_runtime.Prelude.Text.{Text, Bytes, text_ord}
use cartridge_runtime.Prelude.Map
use cartridge_runtime.Prelude.Map.{Map, IsSorted, IsSorted-insert, get-insert, same_key_refl}
use cartridge_runtime.Prelude.Map.Size.{AllValues-insert}
use cartridge_runtime.Prelude.Words.{u64_mod}
use cartridge_runtime.Prelude.Results.{ok, err, ◌>>=◌, ◌>>◌, Result-cases}
use cartridge_runtime.Storage.Types.{
  StorageLimits, StorageUsage, Result, Namespace, MemoryStorage, unavailable,
}
use cartridge_runtime.Storage.Validate.{
  validate_namespace, validate_limits, validate_entry_limits, sum_values,
}
use cartridge_runtime.Storage.Mutations.Accounting.{total_bytes}
use cartridge_runtime.Storage.Memory.{put_back, on_read}
use cartridge_runtime.Storage.Memory.Valid.{IsValid, AllValid}

contents : Option Namespace → ℕ × Map Text Bytes
contents none = (0, [])
contents (some n) = (n.revision, n.entries)

pub snapshot_state : MemoryStorage → Text → StorageLimits → Result (ℕ × Map Text Bytes)
unfolding contents on_read
snapshot_state s name limits = do
  found ←
      on_read s (do validate_namespace name; validate_limits limits)
        (contents (Map.get name s.namespaces))
  usage ← validate_entry_limits found.1 limits
  ok found

loaded : ℕ → ℕ → Map Text Bytes → StorageUsage → Namespace
loaded schema revision entries usage = record {
  state_schema = schema;
  revision = revision;
  entries = entries;
  bytes = usage.bytes;
}

load_checked :
    MemoryStorage
    → Text
    → (StorageUsage → Namespace)
    → Result StorageUsage
    → Result (Unit {0}) × MemoryStorage
load_checked s name made (err e) = (err e, s)
load_checked s name made (ok usage) =
    if s.poisoned then (err unavailable, s) else (ok tt, put_back s name (made usage))

unfoldable pub load_namespace :
    MemoryStorage
    → Text
    → ℕ
    → ℕ
    → Map Text Bytes
    → StorageLimits
    → Result (Unit {0}) × MemoryStorage
unfolding loaded load_checked
load_namespace s name schema revision entries limits =
    load_checked s name (loaded schema revision entries)
      (do validate_namespace name; validate_entry_limits entries limits)

sum_values-total :
    (limits : StorageLimits) (bytes b : ℕ) (entries : Map Text Bytes)
    → bytes < u64_mod
    → sum_values limits bytes entries ≡ ok b
    → (b ≡ bytes + total_bytes entries) × (b < u64_mod)
unfolding sum_values
sum_values-total limits bytes b [] w h = ground arith
sum_values-total limits bytes b ((k, v) ∷ entries) w h =
    ground (arith, sum_values-total limits (bytes + length v) b entries)

validate_entry_limits-total :
    (entries : Map Text Bytes) (limits : StorageLimits) (u : StorageUsage)
    → validate_entry_limits entries limits ≡ ok u
    → (u.bytes ≡ total_bytes entries) × (u.bytes < u64_mod)
unfolding validate_entry_limits
validate_entry_limits-total entries limits u h = elim (Result-cases (sum_values limits 0 entries)) [
  | inl (e, c) ↦ ground (arith, c)
  | inr (b, c) ↦ ground (arith, c, sum_values-total limits 0 b entries (omega arith) c)
]

load_facts :
    (s : MemoryStorage) (name : Text) (schema revision : ℕ) (entries : Map Text Bytes)
    (limits : StorageLimits)
    → (load_namespace s name schema revision entries limits).0 ≡ ok tt
    → (validate_namespace name ≡ ok tt)
      × (s.poisoned ≡ false)
      × ((u : StorageUsage) × (validate_entry_limits entries limits ≡ ok u)
          × ((load_namespace s name schema revision entries limits).1
              ≡ put_back s name (loaded schema revision entries u)))
unfolding load_namespace loaded
load_facts s name schema revision entries limits h = elim (Result-cases (validate_namespace name)) [
  | inl (e, c) ↦ absurd (ground (arith, h, c))
  | inr (v, c) ↦ elim (Result-cases (validate_entry_limits entries limits)) [
    | inl (e, d) ↦ absurd (ground (arith, h, c, d))
    | inr (u, d) ↦ elim (Bool-cases s.poisoned) [
      | inl p ↦ absurd (ground (arith, h, c, d, p))
      | inr p ↦ (c, p, (u, d, simp (c, d, p) refl))
    ]
  ]
]

-- Loading a namespace whose keys are in order, with a revision below 2^64, keeps a state valid.
pub load_namespace-AllValid :
    (s : MemoryStorage) (name : Text) (schema revision : ℕ) (entries : Map Text Bytes)
    (limits : StorageLimits)
    → AllValid s
    → IsSorted entries
    → revision < u64_mod
    → (load_namespace s name schema revision entries limits).0 ≡ ok tt
    → AllValid (load_namespace s name schema revision entries limits).1
unfolding loaded
load_namespace-AllValid s name schema revision entries limits v sorted w h =
    let (checked, sound, (u, counted, left)) = load_facts s name schema revision entries limits h in
    let (sum, word) = validate_entry_limits-total entries limits u counted in
    subst AllValid (sym left) (record {
      names = IsSorted-insert name (loaded schema revision entries u) s.namespaces v.names;
      each =
          AllValues-insert IsValid name (loaded schema revision entries u) s.namespaces
            (record { sorted = sorted; counted = sum; word = word; revision_word = w }) v.each;
    })

limits_checked :
    (entries : Map Text Bytes) (limits : StorageLimits) (u : StorageUsage)
    → validate_entry_limits entries limits ≡ ok u
    → validate_limits limits ≡ ok tt
unfolding validate_entry_limits
limits_checked entries limits u h = ground arith

-- What `load_namespace` has loaded `snapshot_state` gives back, the revision and the entries.
pub snapshot_state-load_namespace :
    (s : MemoryStorage) (name : Text) (schema revision : ℕ) (entries : Map Text Bytes)
    (limits : StorageLimits)
    → (load_namespace s name schema revision entries limits).0 ≡ ok tt
    → snapshot_state (load_namespace s name schema revision entries limits).1 name limits
      ≡ ok (revision, entries)
unfolding snapshot_state loaded
snapshot_state-load_namespace s name schema revision entries limits h =
    let (checked, sound, (u, counted, left)) = load_facts s name schema revision entries limits h in
    let there : Map.get name (Map.insert name (loaded schema revision entries u) s.namespaces)
        ≡ some (loaded schema revision entries u) =
      get-insert name name (loaded schema revision entries u) s.namespaces
      ∙ ap (λ b. if b then some (loaded schema revision entries u) else Map.get name s.namespaces)
          (same_key_refl name) in
    subst (λ t. snapshot_state t name limits ≡ ok (revision, entries)) (sym left)
      (simp (checked, limits_checked entries limits u counted, sound, there, counted) refl)
