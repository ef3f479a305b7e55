-- ===== src/Storage/Memory/Refinement.antt =====
-- The in-memory backend refines a map from namespaces and keys to values, as its callers see it by
-- `get`.
use cartridge_runtime.Prelude.{◌≡◌, refl, sym, subst, ◌∙◌, ap, false, Option, none, some, arith}
use cartridge_runtime.Prelude.Text.{Text, Bytes, text_ord}
use cartridge_runtime.Prelude.Map
use cartridge_runtime.Prelude.Results.{ok, err, ◌>>◌}
use cartridge_runtime.Storage.Types.{Result, Namespace, MemoryStorage}
use cartridge_runtime.Storage.Validate.{validate_namespace, validate_key}
use cartridge_runtime.Storage.Memory.{
  view, or_default, on_entry, entry_of, get, put, prepare, compare_exchange, apply_batch,
  delete_work,
}
use cartridge_runtime.Storage.Memory.Requests.{
  Request, Reply, done, deleted, transacted, prepares, puts, deletes, exchanges, batches, call,
  reply, on_entry_rule, delete_rule, settle_rule, prepare_rule, reply_state,
}
use cartridge_runtime.Storage.Memory.Valid.{AllValid}
use cartridge_runtime.Storage.Memory.Effects.{
  effect, lookup, HasEffect, put-HasEffect, delete-HasEffect, prepare-HasEffect,
  compare_exchange-HasEffect, apply_batch-HasEffect,
}

reply-HasEffect {ℓ} :
    {A : Type ℓ} (F : Reply → Text → Text → Option Bytes → Option Bytes) (g : A → Reply)
    (s : MemoryStorage) (r : Result A × MemoryStorage)
    → HasEffect (λ a. F (g a)) s r
    → HasEffect F s (reply g r)
reply-HasEffect F g s (ok a, t) h b e name key =
    let same : g a ≡ b = cc in
    subst (λ c. lookup t name key ≡ F c name key (lookup s name key)) same (h a refl name key)
reply-HasEffect F g s (err x, t) h b e name key = cc

-- A call on a valid state that returns a reply gives every key of every namespace the value that
-- the abstract effect of the request assigns.
pub call-HasEffect :
    (s : MemoryStorage) (v : AllValid s) (r : Request) → HasEffect (effect r) s (call s r)
unfolding call
call-HasEffect s v (prepares name schema limits) =
    reply-HasEffect (effect (prepares name schema limits)) (λ u. done) s
      (prepare s name schema limits) (prepare-HasEffect s v name schema limits)
call-HasEffect s v (puts name key value limits) =
    reply-HasEffect (effect (puts name key value limits)) (λ u. done) s _
      (put-HasEffect s v name key value limits)
call-HasEffect s v (deletes name key) =
    reply-HasEffect (effect (deletes name key)) deleted s _ (delete-HasEffect s v name key)
call-HasEffect s v (exchanges name revision key expected replacement limits) =
    reply-HasEffect (effect (exchanges name revision key expected replacement limits)) transacted s
      _ (compare_exchange-HasEffect s v name revision key expected replacement limits)
call-HasEffect s v (batches name revision ms limits) =
    reply-HasEffect (effect (batches name revision ms limits)) transacted s _
      (apply_batch-HasEffect s v name revision ms limits)

-- No call poisons the lock.
on_entry_poisoned {ℓ} :
    {A : Type ℓ} (s : MemoryStorage) (name : Text) (checks : Result (Unit {0}))
    (work : Namespace → Result (Namespace × A))
    → (on_entry s name checks work).1.poisoned ≡ s.poisoned
on_entry_poisoned s name checks work =
    on_entry_rule (λ r. r.1.poisoned ≡ s.poisoned) s name checks work (λ e. refl)
      (λ n a c p h. refl) (λ e h. refl)

call_poisoned : (s : MemoryStorage) (r : Request) → (call s r).1.poisoned ≡ s.poisoned
unfolding call put compare_exchange apply_batch
call_poisoned s (prepares name schema limits) =
    rw reply_state (
      prepare_rule (λ r. r.1.poisoned ≡ s.poisoned) s name schema limits (λ e. refl)
        (λ n c h. refl))
call_poisoned s (puts name key value limits) = rw reply_state (on_entry_poisoned s name _ _)
call_poisoned s (deletes name key) = rw reply_state (
    delete_rule (λ r. r.1.poisoned ≡ s.poisoned) s name key (λ e. refl) (λ m. refl)
      λ n found.
        settle_rule (λ r. r.1.poisoned ≡ s.poisoned) s name n (delete_work key n) (λ n' a h. refl)
          (λ e h. refl))
call_poisoned s (exchanges name revision key expected replacement limits) =
    rw reply_state (on_entry_poisoned s name _ _)
call_poisoned s (batches name revision ms limits) = rw reply_state (on_entry_poisoned s name _ _)

entry_of-lookup :
    (o : Option Namespace) (key : Text) → entry_of o key ≡ Map.get key (or_default o).entries
unfolding entry_of or_default Map.get
entry_of-lookup none key = refl
entry_of-lookup (some n) key = refl

-- A `get` with a valid name and key, while the lock is sound, returns what the map has there.
get-lookup :
    (s : MemoryStorage) (name key : Text)
    → (validate_namespace name >> validate_key key) ≡ ok tt
    → s.poisoned ≡ false
    → get s name key ≡ ok (lookup s name key)
unfolding get view
get-lookup s name key c p = ground (arith, entry_of-lookup (Map.get name s.namespaces) key)

get_checked :
    (s : MemoryStorage) (name key : Text) (v : Option Bytes)
    → get s name key ≡ ok v
    → ((validate_namespace name >> validate_key key) ≡ ok tt) × (s.poisoned ≡ false)
unfolding get
get_checked s name key v h = ground arith

-- In a valid state, after a call that returned a reply, a `get` that would have returned `v` before
-- the call returns what the effect of the request makes of `v`: the value put, nothing after a
-- delete, the replacement of an exchange or the assignment of a batch that was applied, and `v` for
-- every other key, every other namespace, and transactions that were not applied.
pub get_after_call :
    (s : MemoryStorage) (r : Request) (a : Reply) (name key : Text) (v : Option Bytes)
    → AllValid s
    → (call s r).0 ≡ ok a
    → get s name key ≡ ok v
    → get (call s r).1 name key ≡ ok (effect r a name key v)
get_after_call s r a name key v valid replied before =
    let (checks, sound) = get_checked s name key v before in
    let was : v ≡ lookup s name key = cc (get-lookup s name key checks sound) in
    let now = get-lookup (call s r).1 name key checks (call_poisoned s r ∙ sound) in
    now ∙ ap ok (call-HasEffect s valid r a replied name key ∙ ap (effect r a name key) (sym was))
