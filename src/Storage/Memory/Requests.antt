-- ===== src/Storage/Memory/Requests.antt =====
-- The calls that write, as one type of requests, and their effect on a state; the rule by which a
-- statement about such a call is proved.
use cartridge_runtime.Prelude.{
  ℕ, ◌≡◌, refl, Bool, false, Option, none, some, List, [], ◌∷◌, Bool-cases, inl, inr,
}
use cartridge_runtime.Prelude.Text.{Text, Bytes, text_ord}
use cartridge_runtime.Prelude.Map
use cartridge_runtime.Prelude.Results.{ok, err, ◌>>=◌, ◌>>◌}
use cartridge_runtime.Storage.Types.{
  StorageLimits, StorageMutation, StorageTransactionResult, Error, Result, Namespace, MemoryStorage,
}
use cartridge_runtime.Storage.Validate.{validate_namespace, validate_limits, validate_entry_limits}
use cartridge_runtime.Storage.Memory.{
  view, put_back, delete_work, delete_in, delete_checked, settle, on_entry, schema_of,
  prepare_entry, prepare_checked, prepare, put, delete, compare_exchange, apply_batch,
}

pub data Request : Type 0 where
  prepares : Text → ℕ → StorageLimits → Request
  puts : Text → Text → Bytes → StorageLimits → Request
  deletes : Text → Text → Request
  exchanges : Text → ℕ → Text → Option Bytes → Option Bytes → StorageLimits → Request
  batches : Text → ℕ → List StorageMutation → StorageLimits → Request

pub data Reply : Type 0 where
  done : Reply
  deleted : Bool → Reply
  transacted : StorageTransactionResult → Reply

abbrev pub reply {ℓ} :
    {A : Type ℓ} → (A → Reply) → Result A × MemoryStorage → Result Reply × MemoryStorage
reply f (ok a, s) = (ok (f a), s)
reply f (err e, s) = (err e, s)

pub reply_state {ℓ} :
    {A : Type ℓ} (f : A → Reply) (r : Result A × MemoryStorage) → (reply f r).1 ≡ r.1
reply_state f (ok a, s) = refl
reply_state f (err e, s) = refl

unfoldable pub call : MemoryStorage → Request → Result Reply × MemoryStorage
call s (prepares name schema limits) = reply (λ u. done) (prepare s name schema limits)
call s (puts name key value limits) = reply (λ u. done) (put s name key value limits)
call s (deletes name key) = reply deleted (delete s name key)
call s (exchanges name revision key expected replacement limits) =
    reply transacted (compare_exchange s name revision key expected replacement limits)
call s (batches name revision mutations limits) =
    reply transacted (apply_batch s name revision mutations limits)

unfoldable pub run : MemoryStorage → List Request → MemoryStorage
run s [] = s
run s (r ∷ rs) = run (call s r).1 rs

module _ {ℓ κ} {A : Type ℓ} (P : Result A × MemoryStorage → Type κ) (s : MemoryStorage)
    (name : Text) where
  pub settle_rule :
      (found : Namespace) (r : Result (Namespace × A))
      → ((n : Namespace) (a : A) → r ≡ ok (n, a) → P (ok a, put_back s name n))
      → ((e : Error) → r ≡ err e → P (err e, put_back s name found))
      → P (settle s name found r)
  unfolding settle
  settle_rule found (ok (n, a)) worked failed = worked n a refl
  settle_rule found (err e) worked failed = failed e refl

  -- A call that writes fails before its work, does it, or fails in it.
  pub on_entry_rule :
      (checks : Result (Unit {0})) (work : Namespace → Result (Namespace × A))
      → ((e : Error) → P (err e, s))
      → ((n : Namespace) (a : A)
          → checks ≡ ok tt
          → s.poisoned ≡ false
          → work (view s name) ≡ ok (n, a)
          → P (ok a, put_back s name n))
      → ((e : Error) → work (view s name) ≡ err e → P (err e, put_back s name (view s name)))
      → P (on_entry s name checks work)
  unfolding on_entry
  on_entry_rule (err e) work early worked failed = early e
  on_entry_rule (ok u) work early worked failed = elim (Bool-cases s.poisoned) [
    | inl p ↦ simp p (early _)
    | inr p ↦
        simp p (settle_rule (view s name) (work (view s name)) (λ n a. worked n a refl p) failed)
  ]

-- What `prepare` answers once it has the entry.
abbrev pub entry_check : Namespace → StorageLimits → Result (Unit {0})
entry_check n limits = validate_entry_limits n.entries limits >>= λ usage. ok tt

module _ {κ} (P : Result (Unit {0}) × MemoryStorage → Type κ) (s : MemoryStorage) (name : Text)
    (schema : ℕ) (limits : StorageLimits) where
  prepare_entry_rule :
      (m : Result Namespace)
      → ((e : Error) → P (err e, s))
      → ((n : Namespace) → m ≡ ok n → P (entry_check n limits, put_back s name n))
      → P (prepare_entry s name schema limits m)
  unfolding prepare_entry
  prepare_entry_rule (ok n) early made = made n refl
  prepare_entry_rule (err e) early made = early e

  prepare_checked_rule :
      (checks : Result (Unit {0}))
      → ((e : Error) → P (err e, s))
      → ((n : Namespace)
          → checks ≡ ok tt
          → schema_of (Map.get name s.namespaces) schema ≡ ok n
          → P (entry_check n limits, put_back s name n))
      → P (prepare_checked s name schema limits checks)
  unfolding prepare_checked
  prepare_checked_rule (err e) early made = early e
  prepare_checked_rule (ok u) early made = elim (Bool-cases s.poisoned) [
    | inl p ↦ simp p (early _)
    | inr p ↦ simp p (prepare_entry_rule _ early (λ n. made n refl))
  ]

  -- `prepare` fails before its work, or keeps an entry of the same schema or makes a new one.
  pub prepare_rule :
      ((e : Error) → P (err e, s))
      → ((n : Namespace)
          → (validate_namespace name >> validate_limits limits) ≡ ok tt
          → schema_of (Map.get name s.namespaces) schema ≡ ok n
          → P (entry_check n limits, put_back s name n))
      → P (prepare s name schema limits)
  unfolding prepare
  prepare_rule early made = prepare_checked_rule _ early made

module _ {κ} (P : Result Bool × MemoryStorage → Type κ) (s : MemoryStorage) (name key : Text) where
  delete_in_rule :
      (o : Option Namespace)
      → (o ≡ none → P (ok false, s))
      → ((n : Namespace) → o ≡ some n → P (settle s name n (delete_work key n)))
      → P (delete_in s name key o)
  unfolding delete_in
  delete_in_rule none absent present = absent refl
  delete_in_rule (some n) absent present = present n refl

  delete_checked_rule :
      (checks : Result (Unit {0}))
      → ((e : Error) → P (err e, s))
      → (Map.get name s.namespaces ≡ none → P (ok false, s))
      → ((n : Namespace)
          → Map.get name s.namespaces ≡ some n
          → P (settle s name n (delete_work key n)))
      → P (delete_checked s name key checks)
  unfolding delete_checked
  delete_checked_rule (err e) early absent present = early e
  delete_checked_rule (ok u) early absent present = elim (Bool-cases s.poisoned) [
    | inl p ↦ simp p (early _)
    | inr p ↦ simp p (delete_in_rule (Map.get name s.namespaces) absent present)
  ]

  -- `delete` fails before its work, finds no namespace, or works on the one it finds.
  pub delete_rule :
      ((e : Error) → P (err e, s))
      → (Map.get name s.namespaces ≡ none → P (ok false, s))
      → ((n : Namespace)
          → Map.get name s.namespaces ≡ some n
          → P (settle s name n (delete_work key n)))
      → P (delete s name key)
  unfolding delete
  delete_rule early absent present = delete_checked_rule _ early absent present
