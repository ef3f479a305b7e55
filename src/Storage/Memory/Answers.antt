-- ===== src/Storage/Memory/Answers.antt =====
-- What the transactions answer, and the limits that a change keeps.
use cartridge_runtime.Prelude.{
  ℕ, ◌≤◌, ◌≡◌, ◌≢◌, ◌∙◌, ap, ◌⊎◌, inl, inr, true, ◌&&◌, Option, some, List, arith, length, ◌==◌,
  ==_iff, Bool-cases, if◌then◌else◌,
}
use cartridge_runtime.Prelude.Text.{Text, Bytes, text_ord}
use cartridge_runtime.Prelude.Map
use cartridge_runtime.Prelude.Map.Size.{length-insert}
use cartridge_runtime.Prelude.Results.{ok}
use cartridge_runtime.Storage.Types.{
  StorageLimits, StorageMutation, StorageTransactionResult, Namespace, MemoryStorage,
}
use cartridge_runtime.Storage.Mutations.{opt_eq, opt_eq_iff, next_revision}
use cartridge_runtime.Storage.Memory.{
  view, put_back, put, put_work, put_changed, compare_exchange, apply_batch, exchange_work,
  batch_work, put_checks,
}
use cartridge_runtime.Storage.Memory.Requests.{on_entry_rule}
use cartridge_runtime.Storage.Memory.Valid.{
  AllValid, IsValid, exchange_work_cases, batch_work_cases,
}
use cartridge_runtime.Storage.Memory.Changes.{view-put_back, view-IsValid, batch_keys}
use cartridge_runtime.Storage.Memory.Effects.{lookup}
use cartridge_runtime.Prelude.Map.{same_key_refl}

view_same : (s : MemoryStorage) (name : Text) (n : Namespace) → view (put_back s name n) name ≡ n
view_same s name n =
    view-put_back s name name n ∙ ap (λ b. if b then n else view s name) (same_key_refl name)

exchange_applied :
    (revision : ℕ) (key : Text) (expected replacement : Option Bytes) (limits : StorageLimits)
    (n n' : Namespace) (a : StorageTransactionResult)
    → IsValid n
    → exchange_work revision key expected replacement limits n ≡ ok (n', a)
    → (a.applied ≡ (n.revision == revision && opt_eq (Map.get key n.entries) expected))
      × (a.revision ≡ n'.revision)
unfolding exchange_work
exchange_applied revision key expected replacement limits n n' a v h =
    elim (exchange_work_cases revision key expected replacement limits n n' a v h) [
      | inr (r, e, t) ↦ ground (arith, r, e, t.answer, (==_iff _ _).1 r, (opt_eq_iff _ _).1 e)
      | inl (same, answer, e) ↦ ground (arith, same, answer, e)
    ]

-- In a valid state a compare-exchange that returns was applied exactly if the revision of the
-- namespace and the value of the key were the expected ones; it answers the revision that the
-- namespace then has.
pub compare_exchange_applied :
    (s : MemoryStorage) (name : Text) (revision : ℕ) (key : Text)
    (expected replacement : Option Bytes) (limits : StorageLimits) (a : StorageTransactionResult)
    → AllValid s
    → (compare_exchange s name revision key expected replacement limits).0 ≡ ok a
    → (a.applied ≡ ((view s name).revision == revision && opt_eq (lookup s name key) expected))
      × (a.revision
          ≡ (view
              (compare_exchange s name revision key expected replacement limits).1
              name).revision)
unfolding compare_exchange
compare_exchange_applied s name revision key expected replacement limits a v =
    on_entry_rule
      (λ r.
        r.0 ≡ ok a
        → (a.applied ≡ ((view s name).revision == revision && opt_eq (lookup s name key) expected))
          × (a.revision ≡ (view r.1 name).revision))
      s name _ (exchange_work revision key expected replacement limits) (λ e h. cc)
      (λ n b c p w h. rw (view_same s name n) (
        ground (
          arith,
          h,
          exchange_applied revision key expected replacement limits (view s name) n b
              (view-IsValid s name v) w,
        )))
      (λ e w h. cc)

put_work_bounds :
    (key : Text) (value : Bytes) (limits : StorageLimits) (n n' : Namespace) (u : Unit {0})
    → IsValid n
    → put_work key value limits n ≡ ok (n', u)
    → (Map.get key n.entries ≡ some value)
      ⊎ ((n'.bytes ≤ limits.max_bytes)
          × ((length n'.entries ≤ limits.max_keys) ⊎ (length n'.entries ≡ length n.entries)))
unfolding put_work put_changed next_revision
put_work_bounds key value limits n n' u v h =
    elim (Bool-cases (opt_eq (Map.get key n.entries) (some value))) [
      | inl e ↦ inl ((opt_eq_iff _ _).0 e)
      | inr e ↦ inr (ground (arith, h, length-insert key value n.entries v.sorted))
    ]

-- In a valid state a `put` that returns leaves a namespace whose counted bytes, which are the sum of
-- the sizes of its values, are within the limit of bytes, and whose keys are within the limit of
-- keys or as many as before; unless the key had that value already.
pub put_within_limits :
    (s : MemoryStorage) (name key : Text) (value : Bytes) (limits : StorageLimits)
    → AllValid s
    → (put s name key value limits).0 ≡ ok tt
    → lookup s name key ≢ some value
    → let n = view (put s name key value limits).1 name in
      (n.bytes ≤ limits.max_bytes)
      × ((length n.entries ≤ limits.max_keys) ⊎ (length n.entries ≡ length (view s name).entries))
unfolding put
put_within_limits s name key value limits v =
    on_entry_rule
      (λ r.
        r.0 ≡ ok tt
        → lookup s name key ≢ some value
        → ((view r.1 name).bytes ≤ limits.max_bytes)
          × ((length (view r.1 name).entries ≤ limits.max_keys)
              ⊎ (length (view r.1 name).entries ≡ length (view s name).entries)))
      s name (put_checks name key value limits) (put_work key value limits) (λ e h. cc)
      (λ n u c p w h d.
        rw (view_same s name n)
          (elim (put_work_bounds key value limits (view s name) n u (view-IsValid s name v) w) [
            | inl same ↦ absurd (d same)
            | inr fits ↦ fits
          ]))
      (λ e w h. cc)

-- In a valid state a batch that returns as applied found the expected revision, and leaves a
-- namespace within both limits.
pub apply_batch_within_limits :
    (s : MemoryStorage) (name : Text) (revision : ℕ) (ms : List StorageMutation)
    (limits : StorageLimits) (a : StorageTransactionResult)
    → AllValid s
    → (apply_batch s name revision ms limits).0 ≡ ok a
    → a.applied ≡ true
    → let n = view (apply_batch s name revision ms limits).1 name in
      ((view s name).revision ≡ revision)
      × (n.bytes ≤ limits.max_bytes)
      × (length n.entries ≤ limits.max_keys)
      × (a.revision ≡ n.revision)
unfolding apply_batch
apply_batch_within_limits s name revision ms limits a v =
    on_entry_rule
      (λ r.
        r.0 ≡ ok a
        → a.applied ≡ true
        → ((view s name).revision ≡ revision)
          × ((view r.1 name).bytes ≤ limits.max_bytes)
          × (length (view r.1 name).entries ≤ limits.max_keys)
          × (a.revision ≡ (view r.1 name).revision))
      s name _ (batch_work revision ms limits) (λ e h. cc)
      (λ n b c p w h d.
        rw (view_same s name n)
          (elim (batch_work_cases revision ms limits (view s name) n b (view-IsValid s name v)
            (batch_keys ms limits name c) w) [
              | inl (same, _, answer) ↦ ground (arith, h, d, answer)
              | inr (found, t) ↦ (found, t.bytes_fit, t.keys_fit, ground (arith, h, t.answer))
            ]))
      (λ e w h. cc)
