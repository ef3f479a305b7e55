-- ===== src/Storage/Validate.antt =====
-- The checks of names, keys, limits and transactions in crates/cartridge-storage/src/lib.rs.
pub mod Keys
use cartridge_runtime.Prelude.{
  ℕ, suc, ◌+◌, ◌≡◌, Bool, true, false, not, ◌&&◌, ◌||◌, Option, none, some, List, [], ◌∷◌, ltb, leb,
  ◌==◌, if◌then◌else◌, all, any, is_empty, length, is_some_and,
}
use cartridge_runtime.Prelude.Text.{Text, Bytes, text_eq, len}
use cartridge_runtime.Prelude.Text
use cartridge_runtime.Prelude.Ascii.{
  is_ascii_lowercase, is_ascii_digit, is_ascii_alphanumeric, starts_with_char, ends_with_char,
}
use cartridge_runtime.Prelude.Map.{Map}
use cartridge_runtime.Prelude.Words.{checked_add, u64_mod, u64_max}
use cartridge_runtime.Prelude.Results.{ok, err, reject, ok_or, ◌>>=◌, ◌>>◌}
use cartridge_runtime.Storage.Types.{
  StorageLimits, StorageUsage, StorageMutation, Error, Result, invalid_namespace, invalid_key,
  invalid_limits, value_too_large, quota_exceeded, key_limit_exceeded, invalid_transaction,
  transaction_too_large, max_key_bytes, max_storage_bytes, max_storage_keys,
  max_storage_value_bytes, max_transaction_input_bytes, max_transaction_operations,
}

abbrev is_namespace_byte : ℕ → Bool
is_namespace_byte b = is_ascii_lowercase b || is_ascii_digit b || b == b'-' || b == b'.'

abbrev is_key_byte : ℕ → Bool
is_key_byte b = is_ascii_alphanumeric b || b == b'-' || b == b'_' || b == b'.' || b == b'/'

-- The text without its last character.
but_last : Text → Text
but_last [] = []
but_last (d ∷ []) = []
but_last (d ∷ e ∷ t) = d ∷ but_last (e ∷ t)

-- `split(c)`: the pieces between the separators, at least one.
grow_first : ℕ → List Text → List Text
grow_first d [] = (d ∷ []) ∷ []
grow_first d (s ∷ ss) = (d ∷ s) ∷ ss

split : ℕ → Text → List Text
unfolding grow_first
split c [] = [] ∷ []
split c (d ∷ t) = let rest = split c t in if d == c then [] ∷ rest else grow_first d rest

unfoldable pub validate_namespace : Text → Result (Unit {0})
validate_namespace namespace =
    reject
      (is_empty namespace
        || ltb 128 (len namespace)
        || not (all is_namespace_byte (Text.bytes namespace)))
      (invalid_namespace namespace)

-- A segment that a path may not have: the empty one, `.` and `..`.
is_bad_segment : Text → Bool
is_bad_segment s = is_empty s || text_eq s (b'.' ∷ []) || text_eq s (b'.' ∷ b'.' ∷ [])

unfoldable pub validate_key : Text → Result (Unit {0})
unfolding starts_with_char ends_with_char split is_bad_segment
validate_key key =
    reject
      (is_empty key
        || ltb max_key_bytes (len key)
        || starts_with_char b'/' key
        || ends_with_char b'/' key
        || not (all is_key_byte (Text.bytes key))
        || any is_bad_segment (split b'/' key))
      (invalid_key key)

unfoldable pub validate_prefix : Text → Result (Unit {0})
unfolding but_last ends_with_char
validate_prefix prefix =
    if is_empty prefix
    then ok tt
    else validate_key (if ends_with_char b'/' prefix then but_last prefix else prefix)

unfoldable pub validate_limits : StorageLimits → Result (Unit {0})
validate_limits limits =
    reject
      (limits.max_bytes == 0
        || limits.max_keys == 0
        || limits.max_value_bytes == 0
        || ltb limits.max_bytes limits.max_value_bytes
        || ltb max_storage_bytes limits.max_bytes
        || ltb max_storage_keys limits.max_keys
        || ltb max_storage_value_bytes limits.max_value_bytes)
      invalid_limits

-- The loop of `validate_entry_limits`, from the bytes counted so far.
unfoldable pub sum_values : StorageLimits → ℕ → Map Text Bytes → Result ℕ
sum_values limits bytes [] = ok bytes
sum_values limits bytes ((k, value) ∷ rest) = do
  reject (ltb limits.max_value_bytes (length value))
      (value_too_large (length value) limits.max_value_bytes)
  next ← ok_or (checked_add u64_mod bytes (length value)) (quota_exceeded u64_max limits.max_bytes)
  sum_values limits next rest

unfoldable pub validate_entry_limits : Map Text Bytes → StorageLimits → Result StorageUsage
unfolding sum_values validate_limits
validate_entry_limits entries limits = do
  validate_limits limits
  reject (ltb limits.max_keys (length entries)) (key_limit_exceeded limits.max_keys)
  bytes ← sum_values limits 0 entries
  reject (ltb limits.max_bytes bytes) (quota_exceeded bytes limits.max_bytes)
  ok (record { bytes = bytes; keys = length entries })

unfoldable pub contains : Text → List Text → Bool
contains k [] = false
contains k (j ∷ js) = text_eq k j || contains k js

-- The bytes of a mutation's value on top of those counted.
add_value : ℕ → Option Bytes → Option ℕ
add_value bytes none = some bytes
add_value bytes (some value) = checked_add u64_mod bytes (length value)

abbrev and_then : Option ℕ → (ℕ → Option ℕ) → Option ℕ
and_then none f = none
and_then (some a) f = f a

pub value_over : StorageLimits → Option Bytes → Result (Unit {0})
value_over limits none = ok tt
value_over limits (some value) =
    reject (ltb limits.max_value_bytes (length value))
      (value_too_large (length value) limits.max_value_bytes)

-- The body of the loop of `validate_mutations`: the bytes counted with this mutation.
unfoldable pub check_mutation : StorageLimits → List Text → ℕ → StorageMutation → Result ℕ
unfolding add_value value_over
check_mutation limits seen input m = do
  validate_key m.key
  reject (contains m.key seen) invalid_transaction
  next ←
      ok_or (and_then (checked_add u64_mod input (len m.key)) (λ bytes. add_value bytes m.value))
        (transaction_too_large u64_max max_transaction_input_bytes)
  value_over limits m.value
  ok next

-- The loop, from the keys seen and the bytes counted so far.
unfoldable pub check_mutations : StorageLimits → List Text → ℕ → List StorageMutation → Result ℕ
check_mutations limits seen input [] = ok input
check_mutations limits seen input (m ∷ ms) = do
  next ← check_mutation limits seen input m
  check_mutations limits (m.key ∷ seen) next ms

unfoldable pub validate_mutations : List StorageMutation → StorageLimits → Result (Unit {0})
validate_mutations mutations limits = do
  validate_limits limits
  reject (is_empty mutations || ltb max_transaction_operations (length mutations))
      invalid_transaction
  input ← check_mutations limits [] 0 mutations
  reject (ltb max_transaction_input_bytes input)
      (transaction_too_large input max_transaction_input_bytes)

unfoldable pub value_len : Option Bytes → ℕ
value_len none = 0
value_len (some value) = length value

unfoldable pub validate_compare_exchange :
    Text → Option Bytes → Option Bytes → StorageLimits → Result (Unit {0})
unfolding value_len
validate_compare_exchange key expected replacement limits = do
  input ←
      ok_or
        (and_then (checked_add u64_mod (len key) (value_len expected))
          (λ bytes. checked_add u64_mod bytes (value_len replacement)))
        (transaction_too_large u64_max max_transaction_input_bytes)
  reject (ltb max_transaction_input_bytes input)
      (transaction_too_large input max_transaction_input_bytes)
  validate_mutations (record { key = key; value = replacement } ∷ []) limits
  reject (is_some_and expected (λ value. ltb limits.max_value_bytes (length value)))
      (value_too_large (value_len expected) limits.max_value_bytes)
