-- ===== src/Storage/Mutations.antt =====
-- How a batch of mutations is counted and applied, crates/cartridge-storage/src/lib.rs.
pub mod Accounting
use cartridge_runtime.Prelude.{
  ℕ, ◌+◌, ◌≡◌, ◌↔◌, Bool, true, false, not, Option, none, some, List, [], ◌∷◌, arith, ltb,
  if◌then◌else◌, any, length, is_some,
}
use cartridge_runtime.Prelude.Text.{Text, Bytes, text_eq, text_eq_iff, text_ord}
use cartridge_runtime.Prelude.Map
use cartridge_runtime.Prelude.Map.{Map}
use cartridge_runtime.Prelude.Words.{checked_add, checked_sub, u64_mod, u64_max}
use cartridge_runtime.Prelude.Results.{ok, err, reject, ok_or, ◌>>=◌, ◌>>◌}
use cartridge_runtime.Storage.Types.{
  StorageLimits, StorageUsage, StorageMutation, Error, Result, quota_exceeded, key_limit_exceeded,
  revision_overflow,
}

-- `==` of two optional byte strings.
unfoldable pub opt_eq : Option Bytes → Option Bytes → Bool
opt_eq none none = true
opt_eq none (some b) = false
opt_eq (some a) none = false
opt_eq (some a) (some b) = text_eq a b

pub opt_eq_iff : (a b : Option Bytes) → (opt_eq a b ≡ true) ↔ (a ≡ b)
unfolding opt_eq
opt_eq_iff none none = ground arith
opt_eq_iff none (some b) = ground arith
opt_eq_iff (some a) none = ground arith
opt_eq_iff (some a) (some b) = ground (arith, text_eq_iff a b)

-- The counters of the first loop of `apply_mutations`.
pub record Tally : Type 0 where
  pub removed_bytes : ℕ
  pub added_bytes : ℕ
  pub removed_keys : ℕ
  pub added_keys : ℕ
  pub changed : Bool

abbrev pub no_tally : Tally
no_tally = record {
  removed_bytes = 0;
  added_bytes = 0;
  removed_keys = 0;
  added_keys = 0;
  changed = false;
}

abbrev over_quota : StorageLimits → Error
over_quota limits = quota_exceeded u64_max limits.max_bytes

-- What one mutation takes away, by the current value of its key. `some` is a value that is replaced
-- or removed.
tally_current : StorageLimits → Tally → Option Bytes → Option Bytes → Result Tally
tally_current limits t (some current) value = do
  removed ← ok_or (checked_add u64_mod t.removed_bytes (length current)) (over_quota limits)
  ok (record t {
    removed_bytes = removed;
    removed_keys = if is_some value then t.removed_keys else t.removed_keys + 1;
  })
tally_current limits t none value =
    ok (record t { added_keys = if is_some value then t.added_keys + 1 else t.added_keys })

-- What it adds.
tally_value : StorageLimits → Tally → Option Bytes → Result Tally
tally_value limits t none = ok t
tally_value limits t (some value) = do
  added ← ok_or (checked_add u64_mod t.added_bytes (length value)) (over_quota limits)
  ok (record t { added_bytes = added })

-- The body of the first loop of `apply_mutations`, at a mutation that changes its key.
tally_one : StorageLimits → Tally → Option Bytes → Option Bytes → Result Tally
unfolding tally_current tally_value
tally_one limits t current value = do
  u ← tally_current limits (record t { changed = true }) current value
  tally_value limits u value

-- The first loop of `apply_mutations`; a mutation that changes nothing is passed over.
unfoldable pub tally : StorageLimits → Map Text Bytes → Tally → List StorageMutation → Result Tally
unfolding tally_one
tally limits entries t [] = ok t
tally limits entries t (m ∷ ms) =
    let current = Map.get m.key entries in
    let skip = tally limits entries t ms in
    let count : Result Tally = (do
      u ← tally_one limits t current m.value
      tally limits entries u ms) in
    if opt_eq current m.value then skip else count

-- The body of the second loop of `apply_mutations`.
unfoldable pub write_one : Text → Option Bytes → Map Text Bytes → Map Text Bytes
write_one key (some value) entries = Map.insert key value entries
write_one key none entries = Map.remove key entries

-- The second loop.
unfoldable pub write_all : List StorageMutation → Map Text Bytes → Map Text Bytes
write_all [] entries = entries
write_all (m ∷ ms) entries = write_all ms (write_one m.key m.value entries)

pub record Applied : Type 0 where
  pub entries : Map Text Bytes
  pub usage : StorageUsage
  pub changed : Bool

-- `apply_mutations` from the counters on.
apply_counted :
    Map Text Bytes → StorageUsage → List StorageMutation → StorageLimits → Tally → Result Applied
apply_counted entries usage mutations limits t = do
  kept ← ok_or (checked_sub usage.bytes t.removed_bytes) (over_quota limits)
  next_bytes ← ok_or (checked_add u64_mod kept t.added_bytes) (over_quota limits)
  kept_keys ← ok_or (checked_sub usage.keys t.removed_keys) (key_limit_exceeded limits.max_keys)
  next_keys ←
      ok_or (checked_add u64_mod kept_keys t.added_keys) (key_limit_exceeded limits.max_keys)
  reject (ltb limits.max_bytes next_bytes) (quota_exceeded next_bytes limits.max_bytes)
  reject (ltb limits.max_keys next_keys) (key_limit_exceeded limits.max_keys)
  ok (
      if t.changed
      then record {
        entries = write_all mutations entries;
        usage = record { bytes = next_bytes; keys = next_keys };
        changed = true;
      }
      else record { entries = entries; usage = usage; changed = false })

unfoldable pub apply_mutations :
    Map Text Bytes → StorageUsage → List StorageMutation → StorageLimits → Result Applied
unfolding apply_counted
apply_mutations entries usage mutations limits = do
  t ← tally limits entries no_tally mutations
  apply_counted entries usage mutations limits t

unfoldable pub mutations_change : Map Text Bytes → List StorageMutation → Bool
mutations_change entries mutations =
    any (λ m. not (opt_eq (Map.get m.key entries) m.value)) mutations

unfoldable pub next_revision : ℕ → Result ℕ
next_revision revision = ok_or (checked_add u64_mod revision 1) revision_overflow
