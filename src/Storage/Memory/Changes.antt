-- ===== src/Storage/Memory/Changes.antt =====
-- What any call that writes may do to the namespaces of a valid state.
use cartridge_runtime.Prelude.{
  ℕ, ◌+◌, ◌≡◌, refl, sym, subst, ◌⊎◌, inl, inr, Bool, true, false, Option, none, some, List, [],
  arith, if◌then◌else◌,
}
use cartridge_runtime.Prelude.Text.{Text, Bytes, text_ord}
use cartridge_runtime.Prelude.Map
use cartridge_runtime.Prelude.Map.{IsSorted, same_key, same_key-eq, get-insert, IsSorted-insert}
use cartridge_runtime.Prelude.Map.Size.{AllValues-insert, AllValues-get}
use cartridge_runtime.Prelude.Results.{ok, ◌>>◌, Result-cases}
use cartridge_runtime.Storage.Types.{
  StorageLimits, StorageMutation, StorageTransactionResult, Result, Namespace, MemoryStorage,
}
use cartridge_runtime.Storage.Validate.{validate_mutations, validate_namespace}
use cartridge_runtime.Storage.Validate.Keys.{Distinct, validate_mutations-Distinct}
use cartridge_runtime.Storage.Mutations.{next_revision}
use cartridge_runtime.Storage.Memory.{
  view, put_back, or_default, on_entry, schema_of, put_work, put_changed, delete_work, prepare, put,
  delete, compare_exchange, apply_batch,
}
use cartridge_runtime.Storage.Memory.Requests.{
  Request, prepares, puts, deletes, exchanges, batches, call, reply_state, settle_rule,
  on_entry_rule, prepare_rule, delete_rule,
}
use cartridge_runtime.Storage.Memory.Valid.{
  IsValid, AllValid, default-IsValid, put_work-IsValid, delete_work-IsValid, IsTransacted,
  exchange_work_cases, batch_work_cases,
}

-- The contents and the revision stay, or the revision rises by one.
abbrev pub Kept : Namespace → Namespace → Type 0
Kept n n' =
    ((n'.entries ≡ n.entries) × (n'.bytes ≡ n.bytes) × (n'.revision ≡ n.revision))
    ⊎ (n'.revision ≡ n.revision + 1)

pub record IsChange (n n' : Namespace) : Type 0 where
  pub valid : IsValid n'
  pub kept : Kept n n'

-- A state after a call.
pub record IsStep (s s' : MemoryStorage) : Type 0 where
  pub valid : AllValid s'
  pub kept : (name : Text) → Kept (view s name) (view s' name)

pub view-IsValid : (s : MemoryStorage) (name : Text) → AllValid s → IsValid (view s name)
unfolding view or_default
view-IsValid s name v = go (Map.get name s.namespaces) refl
  where
    go : (o : Option Namespace) → Map.get name s.namespaces ≡ o → IsValid (or_default o)
    go none e = default-IsValid
    go (some n) e = AllValues-get IsValid name s.namespaces v.each e

pub view-put_back :
    (s : MemoryStorage) (name j : Text) (n : Namespace)
    → view (put_back s name n) j ≡ (if same_key j name then n else view s j)
unfolding or_default
view-put_back s name j n = ground (arith, get-insert name j n s.namespaces)

-- A statement of every namespace holds after a write if it holds of the new one and held before.
pub put_back_at {κ} :
    (P : Text → Namespace → Type κ) (s : MemoryStorage) (name : Text) (n : Namespace)
    → P name n
    → ((j : Text) → same_key j name ≡ false → P j (view s j))
    → (j : Text) → P j (view (put_back s name n) j)
put_back_at P s name n new old j = rw (view-put_back s name j n) (pick (same_key j name) refl)
  where
    pick : (b : Bool) → same_key j name ≡ b → P j (if b then n else view s j)
    pick true e = subst (λ k. P k n) (sym (same_key-eq j name e)) new
    pick false e = old j e

IsStep-refl : (s : MemoryStorage) → AllValid s → IsStep s s
IsStep-refl s v = record { valid = v; kept = λ name. inl (refl, refl, refl) }

IsStep-put_back :
    (s : MemoryStorage) (name : Text) (n : Namespace)
    → AllValid s
    → IsChange (view s name) n
    → IsStep s (put_back s name n)
IsStep-put_back s name n v c = record {
  valid = record {
    names = IsSorted-insert name n s.namespaces v.names;
    each = AllValues-insert IsValid name n s.namespaces c.valid v.each;
  };
  kept = put_back_at (λ j n'. Kept (view s j) n') s name n c.kept (λ j d. inl (refl, refl, refl));
}

put_work-IsChange :
    (key : Text) (value : Bytes) (limits : StorageLimits) (n n' : Namespace) (a : Unit {0})
    → IsValid n
    → put_work key value limits n ≡ ok (n', a)
    → IsChange n n'
unfolding put_work put_changed next_revision
put_work-IsChange key value limits n n' a v h = record {
  valid = put_work-IsValid n n' key value limits a v h;
  kept = ground arith;
}

delete_work-IsChange :
    (key : Text) (n n' : Namespace) (a : Bool)
    → IsValid n
    → delete_work key n ≡ ok (n', a)
    → IsChange n n'
unfolding delete_work next_revision
delete_work-IsChange key n n' a v h = record {
  valid = delete_work-IsValid n n' key a v h;
  kept = ground arith;
}

transact-IsChange :
    (n n' : Namespace) (ms : List StorageMutation) (limits : StorageLimits)
    (a : StorageTransactionResult)
    → IsValid n
    → IsTransacted n n' ms limits a
    → IsChange n n'
transact-IsChange n n' ms limits a v t = record { valid = t.valid; kept = ground arith }

schema_of-IsChange :
    (o : Option Namespace) (schema : ℕ) (n : Namespace)
    → IsValid (or_default o)
    → schema_of o schema ≡ ok n
    → IsChange (or_default o) n
unfolding schema_of or_default
schema_of-IsChange none schema n v h = ground arith
schema_of-IsChange (some m) schema n v h = ground arith

pub batch_keys :
    (ms : List StorageMutation) (limits : StorageLimits) (name : Text)
    → (validate_mutations ms limits >> validate_namespace name) ≡ ok tt
    → Distinct [] ms
batch_keys ms limits name c = elim (Result-cases (validate_mutations ms limits)) [
  | inl (e, h) ↦ ground arith
  | inr (u, h) ↦ validate_mutations-Distinct ms limits h
]

module _ (s : MemoryStorage) (v : AllValid s) where
  on_entry-IsStep {ℓ} :
      {A : Type ℓ} (name : Text) (checks : Result (Unit {0}))
      (work : Namespace → Result (Namespace × A))
      → ((n n' : Namespace) (a : A)
          → IsValid n
          → checks ≡ ok tt
          → work n ≡ ok (n', a)
          → IsChange n n')
      → IsStep s (on_entry s name checks work).1
  on_entry-IsStep name checks work keep =
      on_entry_rule (λ r. IsStep s r.1) s name checks work (λ e. IsStep-refl s v)
        (λ n a c p h.
          IsStep-put_back s name n v (keep (view s name) n a (view-IsValid s name v) c h))
        (λ e h.
          IsStep-put_back s name (view s name) v
            (record { valid = view-IsValid s name v; kept = inl (refl, refl, refl) }))

  put-IsStep :
      (name key : Text) (value : Bytes) (limits : StorageLimits)
      → IsStep s (put s name key value limits).1
  unfolding put
  put-IsStep name key value limits =
      on_entry-IsStep name _ _ (λ n n' a v c. put_work-IsChange key value limits n n' a v)

  delete-IsStep : (name key : Text) → IsStep s (delete s name key).1
  unfolding view or_default
  delete-IsStep name key =
      delete_rule (λ r. IsStep s r.1) s name key (λ e. IsStep-refl s v) (λ e. IsStep-refl s v)
        λ n found.
          settle_rule (λ r. IsStep s r.1) s name n (delete_work key n)
            (λ n' a h.
              IsStep-put_back s name n' v
                (rw (found, view) (delete_work-IsChange key n n' a (valid n found) h)))
            (λ e h.
              IsStep-put_back s name n v (
                rw (found, view) (record { valid = valid n found; kept = inl (refl, refl, refl) })))
    where
      valid : (n : Namespace) → Map.get name s.namespaces ≡ some n → IsValid n
      valid n found = AllValues-get IsValid name s.namespaces v.each found

  compare_exchange-IsStep :
      (name : Text) (revision : ℕ) (key : Text) (expected replacement : Option Bytes)
      (limits : StorageLimits)
      → IsStep s (compare_exchange s name revision key expected replacement limits).1
  unfolding compare_exchange
  compare_exchange-IsStep name revision key expected replacement limits =
      on_entry-IsStep name _ _ λ n n' a v c h.
        elim (exchange_work_cases revision key expected replacement limits n n' a v h) [
          | inl (e, _, _) ↦ rw e (record { valid = v; kept = inl (refl, refl, refl) })
          | inr (_, _, t) ↦ transact-IsChange n n' _ limits a v t
        ]

  apply_batch-IsStep :
      (name : Text) (revision : ℕ) (ms : List StorageMutation) (limits : StorageLimits)
      → IsStep s (apply_batch s name revision ms limits).1
  unfolding apply_batch
  apply_batch-IsStep name revision ms limits = on_entry-IsStep name _ _ λ n n' a v c h.
      elim (batch_work_cases revision ms limits n n' a v (batch_keys ms limits name c) h) [
        | inl (e, _, _) ↦ rw e (record { valid = v; kept = inl (refl, refl, refl) })
        | inr (_, t) ↦ transact-IsChange n n' _ limits a v t
      ]

  prepare-IsStep :
      (name : Text) (schema : ℕ) (limits : StorageLimits)
      → IsStep s (prepare s name schema limits).1
  unfolding view
  prepare-IsStep name schema limits =
      prepare_rule (λ r. IsStep s r.1) s name schema limits (λ e. IsStep-refl s v)
        λ n c h.
          IsStep-put_back s name n v
            (schema_of-IsChange (Map.get name s.namespaces) schema n (view-IsValid s name v) h)

  -- Every call leaves a valid state, and in each namespace either what was there, under the same
  -- revision, or a revision one higher.
  pub call-IsStep : (r : Request) → IsStep s (call s r).1
  unfolding call
  call-IsStep (prepares name schema limits) = rw reply_state (prepare-IsStep name schema limits)
  call-IsStep (puts name key value limits) = rw reply_state (put-IsStep name key value limits)
  call-IsStep (deletes name key) = rw reply_state (delete-IsStep name key)
  call-IsStep (exchanges name revision key expected replacement limits) =
      rw reply_state (compare_exchange-IsStep name revision key expected replacement limits)
  call-IsStep (batches name revision ms limits) =
      rw reply_state (apply_batch-IsStep name revision ms limits)
