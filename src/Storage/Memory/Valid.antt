-- ===== src/Storage/Memory/Valid.antt =====
-- The representation invariant of a state: in every namespace the entries are in order, the byte
-- counter is the sum of the sizes of the values, and the counters are machine words.
use cartridge_runtime.Prelude.{
  ℕ, ◌+◌, ◌≤◌, ◌<◌, ◌≡◌, refl, Bool, true, false, ◌&&◌, Option, List, [], ◌∷◌, arith, length,
  Bool-cases, ==_iff, ◌==◌, ◌≢◌, ◌⊎◌, if◌then◌else◌, inl, inr,
}
use cartridge_runtime.Prelude.Text.{Text, Bytes, text_ord}
use cartridge_runtime.Prelude.Map
use cartridge_runtime.Prelude.Map.{IsSorted, IsSorted-insert, IsSorted-remove}
use cartridge_runtime.Prelude.Map.Size.{AllValues, total-insert, total-remove}
use cartridge_runtime.Prelude.Words.{u64_mod}
use cartridge_runtime.Prelude.Results.{ok, err, Result-cases}
use cartridge_runtime.Storage.Types.{
  StorageLimits, StorageMutation, StorageTransactionResult, StorageUsage, Error, Namespace,
  MemoryStorage, default_namespace,
}
use cartridge_runtime.Storage.Validate.{contains, value_len}
use cartridge_runtime.Storage.Validate.Keys.{Distinct}
use cartridge_runtime.Storage.Mutations.{
  opt_eq, opt_eq_iff, next_revision, mutations_change, apply_mutations, Applied, write_all,
}
use cartridge_runtime.Storage.Mutations.Accounting.{
  total_bytes, IsApplied, apply_mutations-IsApplied,
}
use cartridge_runtime.Storage.Memory.{
  put_work, put_changed, delete_work, transact, exchange_work, batch_work,
}

pub record IsValid (n : Namespace) : Type 0 where
  pub sorted : IsSorted n.entries
  pub counted : n.bytes ≡ total_bytes n.entries
  pub word : n.bytes < u64_mod
  pub revision_word : n.revision < u64_mod

pub record AllValid (s : MemoryStorage) : Type 0 where
  pub names : IsSorted s.namespaces
  pub each : AllValues IsValid s.namespaces

pub default-IsValid : IsValid default_namespace
default-IsValid = record {
  sorted = tt;
  counted = refl;
  word = omega arith;
  revision_word = omega arith;
}

put_changed-IsValid :
    (n n' : Namespace) (key : Text) (value : Bytes) (limits : StorageLimits) (a : Unit {0})
    → IsValid n
    → put_changed n key value limits ≡ ok (n', a)
    → IsValid n'
unfolding put_changed next_revision value_len
put_changed-IsValid n n' key value limits a v h = ground (
  arith,
  total-insert length key value n.entries v.sorted,
  IsSorted-insert key value n.entries v.sorted,
)

pub put_work-IsValid :
    (n n' : Namespace) (key : Text) (value : Bytes) (limits : StorageLimits) (a : Unit {0})
    → IsValid n
    → put_work key value limits n ≡ ok (n', a)
    → IsValid n'
unfolding put_work
put_work-IsValid n n' key value limits a v h =
    ground (arith, put_changed-IsValid n n' key value limits a v)

pub delete_work-IsValid :
    (n n' : Namespace) (key : Text) (a : Bool)
    → IsValid n
    → delete_work key n ≡ ok (n', a)
    → IsValid n'
unfolding delete_work next_revision
delete_work-IsValid n n' key a v h =
    ground (arith, total-remove length key n.entries, IsSorted-remove key n.entries v.sorted)

abbrev namespace_usage : Namespace → StorageUsage
namespace_usage n = record { bytes = n.bytes; keys = length n.entries }

-- What a transaction that goes through leaves and answers.
pub record IsTransacted (n n' : Namespace) (ms : List StorageMutation) (limits : StorageLimits)
    (a : StorageTransactionResult) : Type 0 where
  pub schema : n'.state_schema ≡ n.state_schema
  pub entries :
      n'.entries ≡ (if mutations_change n.entries ms then write_all ms n.entries else n.entries)
  pub revision :
      n'.revision ≡ (if mutations_change n.entries ms then n.revision + 1 else n.revision)
  pub answer : a ≡ record { applied = true; revision = n'.revision }
  pub valid : IsValid n'
  pub bytes_fit : n'.bytes ≤ limits.max_bytes
  pub keys_fit : length n'.entries ≤ limits.max_keys

module _ (n n' : Namespace) (ms : List StorageMutation) (limits : StorageLimits)
    (a : StorageTransactionResult) (v : IsValid n) (h : transact ms limits n ≡ ok (n', a)) where
  transact_applied :
      (r : Applied)
      → apply_mutations n.entries (namespace_usage n) ms limits ≡ ok r
      → IsApplied n.entries (namespace_usage n) ms limits r
      → IsTransacted n n' ms limits a
  unfolding transact next_revision
  transact_applied r done p = elim (Bool-cases (mutations_change n.entries ms)) [
    | inl c ↦ ground arith
    | inr c ↦ ground arith
  ]

  transact_failed :
      (e : Error) → apply_mutations n.entries (namespace_usage n) ms limits ≡ err e → ⊥
  unfolding transact next_revision
  transact_failed e c = ground arith

  -- A transaction with distinct keys on a valid namespace, when it goes through, keeps the schema,
  -- writes its mutations and raises the revision by one if one of them changes something, and keeps
  -- entries and revision if none does; it answers as applied with the new revision, and leaves a
  -- valid namespace within both limits.
  pub transact-IsTransacted : Distinct [] ms → IsTransacted n n' ms limits a
  transact-IsTransacted d =
      elim (Result-cases (apply_mutations n.entries (namespace_usage n) ms limits)) [
        | inl (e, c) ↦ absurd (transact_failed e c)
        | inr (r, c) ↦ transact_applied r c (
            apply_mutations-IsApplied n.entries (namespace_usage n) ms limits r v.sorted d v.counted
              refl v.word c)
      ]

-- A compare-exchange whose revision or value differs does nothing; else it is a transaction.
pub exchange_work_cases :
    (revision : ℕ) (key : Text) (expected replacement : Option Bytes) (limits : StorageLimits)
    (n n' : Namespace) (a : StorageTransactionResult)
    → IsValid n
    → exchange_work revision key expected replacement limits n ≡ ok (n', a)
    → ((n' ≡ n)
        × (a ≡ record { applied = false; revision = n.revision })
        × ((n.revision == revision && opt_eq (Map.get key n.entries) expected) ≡ false))
      ⊎ ((n.revision ≡ revision)
          × (Map.get key n.entries ≡ expected)
          × IsTransacted n n' (record { key = key; value = replacement } ∷ []) limits a)
unfolding exchange_work contains
exchange_work_cases revision key expected replacement limits n n' a v h =
    elim (Bool-cases (n.revision == revision)) [
      | inr r ↦ inl (ground arith)
      | inl r ↦ elim (Bool-cases (opt_eq (Map.get key n.entries) expected)) [
        | inr e ↦ inl (ground arith)
        | inl e ↦ inr (
          (==_iff _ _).0 r,
          (opt_eq_iff _ _).0 e,
          transact-IsTransacted n n' _ limits a v (rw (r, e, exchange_work) at h) (refl, tt),
        )
      ]
    ]

-- So with a batch, by its revision.
pub batch_work_cases :
    (revision : ℕ) (ms : List StorageMutation) (limits : StorageLimits) (n n' : Namespace)
    (a : StorageTransactionResult)
    → IsValid n
    → Distinct [] ms
    → batch_work revision ms limits n ≡ ok (n', a)
    → ((n' ≡ n) × (n.revision ≢ revision) × (a ≡ record { applied = false; revision = n.revision }))
      ⊎ ((n.revision ≡ revision) × IsTransacted n n' ms limits a)
unfolding batch_work
batch_work_cases revision ms limits n n' a v d h = elim (Bool-cases (n.revision == revision)) [
  | inr r ↦ inl (ground arith)
  | inl r ↦
      inr ((==_iff _ _).0 r, transact-IsTransacted n n' ms limits a v (rw (r, batch_work) at h) d)
]
