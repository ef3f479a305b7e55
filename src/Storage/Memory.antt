-- ===== src/Storage/Memory.antt =====
-- The operations of `MemoryStorage`, crates/cartridge-storage/src/lib.rs. A call returns its result
-- and the state that it leaves, the state beside an error too.
pub mod Requests
pub mod Valid
pub mod Changes
pub mod Histories
pub mod Effects
pub mod Refinement
pub mod Answers
pub mod Snapshots
mod Examples
use cartridge_runtime.Prelude.{
  ℕ, ◌+◌, ◌-◌, ◌%◌, ◌≡◌, Bool, true, false, not, ◌&&◌, ◌||◌, Option, none, some, List, [], ◌∷◌, ltb,
  leb, ◌==◌, if◌then◌else◌, length, is_some,
}
use cartridge_runtime.Prelude.Text.{Text, Bytes, text_eq, text_ord}
use cartridge_runtime.Prelude.Map
use cartridge_runtime.Prelude.Map.{Map}
use cartridge_runtime.Prelude.Words.{checked_add, checked_sub, u64_mod, u64_max}
use cartridge_runtime.Prelude.Results.{ok, err, reject, ok_or, ◌>>=◌, ◌>>◌}
use cartridge_runtime.Storage.Types.{
  StorageLimits, StorageUsage, StorageMutation, StorageTransactionResult, Error, Result, Namespace,
  MemoryStorage, default_namespace, value_too_large, quota_exceeded, key_limit_exceeded,
  unavailable, schema_mismatch,
}
use cartridge_runtime.Storage.Validate.{
  validate_namespace, validate_key, validate_prefix, validate_limits, validate_entry_limits,
  validate_mutations, validate_compare_exchange, value_len,
}
use cartridge_runtime.Storage.Mutations.{opt_eq, apply_mutations, mutations_change, next_revision}

-- `entry(namespace).or_default()`
pub or_default : Option Namespace → Namespace
or_default none = default_namespace
or_default (some n) = n

-- The namespace as a call finds it, and a state with that namespace replaced.
abbrev pub view : MemoryStorage → Text → Namespace
unfolding or_default
view s name = or_default (Map.get name s.namespaces)

abbrev pub put_back : MemoryStorage → Text → Namespace → MemoryStorage
put_back s name n = record s { namespaces = Map.insert name n s.namespaces }

-- What a call leaves: the namespace with its change, or, when the work failed, as it was found, since
-- the source changes a namespace only once the last check of the call has passed.
-- The entry that `or_default` made stays in both cases.
pub settle {ℓ} :
    {A : Type ℓ}
    → MemoryStorage
    → Text
    → Namespace
    → Result (Namespace × A)
    → Result A × MemoryStorage
settle s name found (ok (n, a)) = (ok a, put_back s name n)
settle s name found (err e) = (err e, put_back s name found)

-- A call that writes: its checks, the lock, then its work on the namespace's entry.
pub on_entry {ℓ} :
    {A : Type ℓ}
    → MemoryStorage
    → Text
    → Result (Unit {0})
    → (Namespace → Result (Namespace × A))
    → Result A × MemoryStorage
unfolding settle
on_entry s name (err e) work = (err e, s)
on_entry s name (ok u) work =
    if s.poisoned then (err unavailable, s) else settle s name (view s name) (work (view s name))

-- The schema check of `prepare` on the entry of its namespace.
pub schema_of : Option Namespace → ℕ → Result Namespace
schema_of none schema = ok (record default_namespace { state_schema = schema })
schema_of (some n) schema =
    if n.state_schema == schema then ok n else err (schema_mismatch schema n.state_schema)

prepare_entry :
    MemoryStorage → Text → ℕ → StorageLimits → Result Namespace → Result (Unit {0}) × MemoryStorage
prepare_entry s name schema limits (err e) = (err e, s)
prepare_entry s name schema limits (ok n) =
    ((validate_entry_limits n.entries limits >>= λ usage. ok tt), put_back s name n)

prepare_checked :
    MemoryStorage → Text → ℕ → StorageLimits → Result (Unit {0}) → Result (Unit {0}) × MemoryStorage
unfolding schema_of prepare_entry
prepare_checked s name schema limits (err e) = (err e, s)
prepare_checked s name schema limits (ok u) =
    if s.poisoned
    then (err unavailable, s)
    else prepare_entry s name schema limits (schema_of (Map.get name s.namespaces) schema)

pub prepare : MemoryStorage → Text → ℕ → StorageLimits → Result (Unit {0}) × MemoryStorage
unfolding prepare_checked
prepare s name schema limits =
    prepare_checked s name schema limits (do validate_namespace name; validate_limits limits)

-- A call that reads: its checks, the lock, then its answer from the namespace, if there is one.
pub on_read {ℓ} : {A : Type ℓ} → MemoryStorage → Result (Unit {0}) → A → Result A
on_read s checks answer = do checks; reject s.poisoned unavailable; ok answer

entry_of : Option Namespace → Text → Option Bytes
entry_of none key = none
entry_of (some n) key = Map.get key n.entries

pub get : MemoryStorage → Text → Text → Result (Option Bytes)
unfolding on_read entry_of
get s name key =
    on_read s (do validate_namespace name; validate_key key)
      (entry_of (Map.get name s.namespaces) key)

-- The text begins with the prefix.
starts_with : Text → Text → Bool
starts_with key [] = true
starts_with [] (c ∷ prefix) = false
starts_with (d ∷ key) (c ∷ prefix) = d == c && starts_with key prefix

pub keys_with : Text → Map Text Bytes → List Text
unfolding starts_with
keys_with prefix [] = []
keys_with prefix ((k, v) ∷ m) =
    let rest = keys_with prefix m in if starts_with k prefix then k ∷ rest else rest

listed : Option Namespace → Text → List Text
unfolding keys_with
listed none prefix = []
listed (some n) prefix = keys_with prefix n.entries

pub list : MemoryStorage → Text → Text → Result (List Text)
unfolding on_read listed
list s name prefix =
    on_read s (do validate_namespace name; validate_prefix prefix)
      (listed (Map.get name s.namespaces) prefix)

usage_of : Option Namespace → StorageUsage
usage_of none = record { bytes = 0; keys = 0 }
usage_of (some n) = record { bytes = n.bytes; keys = length n.entries }

pub usage : MemoryStorage → Text → Result StorageUsage
unfolding on_read usage_of
usage s name = on_read s (validate_namespace name) (usage_of (Map.get name s.namespaces))

revision_of : Option Namespace → ℕ
revision_of none = 0
revision_of (some n) = n.revision

pub revision : MemoryStorage → Text → Result ℕ
unfolding on_read revision_of
revision s name = on_read s (validate_namespace name) (revision_of (Map.get name s.namespaces))

-- The checks of `put` that need no lock.
put_checks : Text → Text → Bytes → StorageLimits → Result (Unit {0})
put_checks name key value limits = do
  validate_namespace name
  validate_key key
  validate_limits limits
  reject (ltb limits.max_value_bytes (length value))
      (value_too_large (length value) limits.max_value_bytes)

-- The work of `put` once its value is known to be a new one.
put_changed : Namespace → Text → Bytes → StorageLimits → Result (Namespace × Unit {0})
unfolding value_len
put_changed n key value limits = do
  kept ←
      ok_or (checked_sub n.bytes (value_len (Map.get key n.entries)))
        (quota_exceeded u64_max limits.max_bytes)
  next_bytes ←
      ok_or (checked_add u64_mod kept (length value)) (quota_exceeded u64_max limits.max_bytes)
  reject (ltb limits.max_bytes next_bytes) (quota_exceeded next_bytes limits.max_bytes)
  reject (not (is_some (Map.get key n.entries)) && leb limits.max_keys (length n.entries))
      (key_limit_exceeded limits.max_keys)
  next ← next_revision n.revision
  ok (
    record n { entries = Map.insert key value n.entries; bytes = next_bytes; revision = next },
    tt,
  )

pub put_work : Text → Bytes → StorageLimits → Namespace → Result (Namespace × Unit {0})
unfolding put_changed
put_work key value limits n =
    if opt_eq (Map.get key n.entries) (some value)
    then ok (n, tt)
    else put_changed n key value limits

pub put : MemoryStorage → Text → Text → Bytes → StorageLimits → Result (Unit {0}) × MemoryStorage
unfolding put_checks put_work on_entry
put s name key value limits =
    on_entry s name (put_checks name key value limits) (put_work key value limits)

-- `bytes -= value_len` wraps as the release build does.
delete_value : Namespace → Text → Option Bytes → Result (Namespace × Bool)
delete_value n key none = ok (n, false)
delete_value n key (some value) = do
  next ← next_revision n.revision
  ok (
    record n {
      entries = Map.remove key n.entries;
      bytes = (n.bytes + u64_mod - length value) % u64_mod;
      revision = next;
    },
    true,
  )

pub delete_work : Text → Namespace → Result (Namespace × Bool)
unfolding delete_value
delete_work key n = delete_value n key (Map.get key n.entries)

-- `delete` makes no entry for a namespace that is not there.
delete_in : MemoryStorage → Text → Text → Option Namespace → Result Bool × MemoryStorage
unfolding delete_work settle
delete_in s name key none = (ok false, s)
delete_in s name key (some n) = settle s name n (delete_work key n)

delete_checked : MemoryStorage → Text → Text → Result (Unit {0}) → Result Bool × MemoryStorage
unfolding delete_in
delete_checked s name key (err e) = (err e, s)
delete_checked s name key (ok u) =
    if s.poisoned then (err unavailable, s) else delete_in s name key (Map.get name s.namespaces)

pub delete : MemoryStorage → Text → Text → Result Bool × MemoryStorage
unfolding delete_checked
delete s name key = delete_checked s name key (do validate_namespace name; validate_key key)

-- The common end of `compare_exchange` and `apply_batch`.
pub transact :
    List StorageMutation → StorageLimits → Namespace → Result (Namespace × StorageTransactionResult)
transact mutations limits n = do
  next ← (if mutations_change n.entries mutations then next_revision n.revision else ok n.revision)
  done ←
      apply_mutations n.entries (record { bytes = n.bytes; keys = length n.entries }) mutations
        limits
  let after = (if done.changed then next else n.revision)
  ok (
    record n { entries = done.entries; bytes = done.usage.bytes; revision = after },
    record { applied = true; revision = after },
  )

abbrev pub not_applied : Namespace → Result (Namespace × StorageTransactionResult)
not_applied n = ok (n, record { applied = false; revision = n.revision })

pub exchange_work :
    ℕ
    → Text
    → Option Bytes
    → Option Bytes
    → StorageLimits
    → Namespace
    → Result (Namespace × StorageTransactionResult)
unfolding transact
exchange_work expected_revision key expected replacement limits n =
    if not (n.revision == expected_revision) || not (opt_eq (Map.get key n.entries) expected)
    then not_applied n
    else transact (record { key = key; value = replacement } ∷ []) limits n

pub compare_exchange :
    MemoryStorage
    → Text
    → ℕ
    → Text
    → Option Bytes
    → Option Bytes
    → StorageLimits
    → Result StorageTransactionResult × MemoryStorage
unfolding exchange_work on_entry
compare_exchange s name expected_revision key expected replacement limits =
    on_entry s name
      (do validate_compare_exchange key expected replacement limits; validate_namespace name)
      (exchange_work expected_revision key expected replacement limits)

pub batch_work :
    ℕ
    → List StorageMutation
    → StorageLimits
    → Namespace
    → Result (Namespace × StorageTransactionResult)
unfolding transact
batch_work expected_revision mutations limits n =
    if not (n.revision == expected_revision) then not_applied n else transact mutations limits n

pub apply_batch :
    MemoryStorage
    → Text
    → ℕ
    → List StorageMutation
    → StorageLimits
    → Result StorageTransactionResult × MemoryStorage
unfolding batch_work on_entry
apply_batch s name expected_revision mutations limits =
    on_entry s name (do validate_mutations mutations limits; validate_namespace name)
      (batch_work expected_revision mutations limits)
