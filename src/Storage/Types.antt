-- ===== src/Storage/Types.antt =====
-- The data of crates/cartridge-storage/src/lib.rs: limits, usage, mutations, errors and the state.
-- The errors are those that the in-memory backend returns.
use cartridge_runtime.Prelude.{ℕ, ◌*◌, Bool, false, Option, []}
use cartridge_runtime.Prelude.Text.{Text, Bytes}
use cartridge_runtime.Prelude.Map.{Map}
use cartridge_runtime.Prelude.Results

abbrev pub max_key_bytes : ℕ
max_key_bytes = 256

abbrev pub max_storage_bytes : ℕ
max_storage_bytes = 64 * 1024 * 1024

abbrev pub max_storage_keys : ℕ
max_storage_keys = 100_000

abbrev pub max_storage_value_bytes : ℕ
max_storage_value_bytes = 8 * 1024 * 1024

abbrev pub max_transaction_input_bytes : ℕ
max_transaction_input_bytes = 16 * 1024 * 1024

abbrev pub max_transaction_operations : ℕ
max_transaction_operations = 128

pub record StorageLimits : Type 0 where
  pub max_bytes : ℕ
  pub max_keys : ℕ
  pub max_value_bytes : ℕ

pub record StorageUsage : Type 0 where
  pub bytes : ℕ
  pub keys : ℕ

pub record StorageMutation : Type 0 where
  pub key : Text
  pub value : Option Bytes

pub record StorageTransactionResult : Type 0 where
  pub applied : Bool
  pub revision : ℕ

pub data Error : Type 0 where
  invalid_namespace invalid_key : Text → Error
  invalid_limits : Error
  -- size, limit
  value_too_large quota_exceeded : ℕ → ℕ → Error
  key_limit_exceeded : ℕ → Error
  unavailable : Error
  -- expected, actual
  schema_mismatch : ℕ → ℕ → Error
  invalid_transaction : Error
  transaction_too_large : ℕ → ℕ → Error
  revision_overflow : Error

abbrev pub Result {ℓ} : Type ℓ → Type ℓ
Result A = Results.Result Error A

pub record Namespace : Type 0 where
  pub state_schema : ℕ
  pub revision : ℕ
  pub entries : Map Text Bytes
  pub bytes : ℕ

-- `Namespace::default()`
abbrev pub default_namespace : Namespace
default_namespace = record { state_schema = 0; revision = 0; entries = []; bytes = 0 }

-- The lock is poisoned once a thread has panicked while it held it.
pub record MemoryStorage : Type 0 where
  pub namespaces : Map Text Namespace
  pub poisoned : Bool

abbrev pub new : MemoryStorage
new = record { namespaces = []; poisoned = false }
