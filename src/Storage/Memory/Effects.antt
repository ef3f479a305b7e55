-- ===== src/Storage/Memory/Effects.antt =====
-- The storage as an abstract map from namespaces and keys to values: what a successful call does to
-- it, and what a later `get` returns.
use cartridge_runtime.Prelude.{
  ℕ, ◌≡◌, refl, sym, subst, ◌∙◌, ap, inl, inr, Bool, true, false, ◌&&◌, Option, none, some, List,
  [], ◌∷◌, arith, if◌then◌else◌, Bool-cases, is_some,
}
use cartridge_runtime.Prelude.Text.{Text, Bytes, text_ord}
use cartridge_runtime.Prelude.Map
use cartridge_runtime.Prelude.Map.{
  Map, IsSorted, same_key, same_key-eq, same_key_refl, get-insert, get-remove,
}
use cartridge_runtime.Prelude.Map.Size.{AllValues-get}
use cartridge_runtime.Prelude.Results.{ok}
use cartridge_runtime.Storage.Types.{
  StorageLimits, StorageMutation, StorageTransactionResult, Result, Namespace, MemoryStorage,
}
use cartridge_runtime.Storage.Mutations.{
  opt_eq, opt_eq_iff, mutations_change, write_one, write_all, next_revision,
}
use cartridge_runtime.Storage.Mutations.Accounting.{get-write_one, write_one-IsSorted}
use cartridge_runtime.Storage.Memory.{
  view, put_back, or_default, on_entry, schema_of, put_work, put_changed, delete_work, prepare, put,
  delete, compare_exchange, apply_batch,
}
use cartridge_runtime.Storage.Memory.Requests.{
  Request, Reply, done, deleted, transacted, prepares, puts, deletes, exchanges, batches,
  on_entry_rule, delete_rule, settle_rule, prepare_rule,
}
use cartridge_runtime.Storage.Memory.Valid.{
  IsValid, AllValid, IsTransacted, exchange_work_cases, batch_work_cases,
}
use cartridge_runtime.Storage.Memory.Changes.{put_back_at, view-IsValid, batch_keys}

-- The value of a key after the mutations, in their order.
abbrev pub assigned : List StorageMutation → Text → Option Bytes → Option Bytes
assigned [] key v = v
assigned (m ∷ ms) key v = assigned ms key (if same_key key m.key then m.value else v)

-- What a call that replied does to the value of a key of a namespace.
abbrev pub effect : Request → Reply → Text → Text → Option Bytes → Option Bytes
effect (prepares n schema limits) reply name key v = v
effect (puts n k value limits) reply name key v =
    if same_key name n && same_key key k then some value else v
effect (deletes n k) reply name key v = if same_key name n && same_key key k then none else v
effect (exchanges n revision k expected replacement limits) (transacted a) name key v =
    if a.applied && same_key name n && same_key key k then replacement else v
effect (exchanges n revision k expected replacement limits) reply name key v = v
effect (batches n revision ms limits) (transacted a) name key v =
    if a.applied && same_key name n then assigned ms key v else v
effect (batches n revision ms limits) reply name key v = v

get-write_all :
    (ms : List StorageMutation) (key : Text) (m : Map Text Bytes)
    → IsSorted m
    → Map.get key (write_all ms m) ≡ assigned ms key (Map.get key m)
unfolding write_all
get-write_all [] key m s = refl
get-write_all (x ∷ ms) key m s =
    get-write_all ms key (write_one x.key x.value m) (write_one-IsSorted x.key x.value m s)
    ∙ ap (assigned ms key) (get-write_one x.key key x.value m s)

assigned_one :
    (k key : Text) (v : Option Bytes) (m : Map Text Bytes)
    → opt_eq (Map.get k m) v ≡ true
    → (if same_key key k then v else Map.get key m) ≡ Map.get key m
assigned_one k key v m h = elim (Bool-cases (same_key key k)) [
  | inr e ↦ rw e
  | inl e ↦ rw e (sym ((opt_eq_iff _ _).0 h) ∙ ap (λ j. Map.get j m) (sym (same_key-eq key k e)))
]

-- Mutations that change nothing assign what is there.
assigned_idle :
    (ms : List StorageMutation) (key : Text) (m : Map Text Bytes)
    → mutations_change m ms ≡ false
    → assigned ms key (Map.get key m) ≡ Map.get key m
unfolding mutations_change
assigned_idle [] key m h = refl
assigned_idle (x ∷ ms) key m h =
    rw (assigned_one x.key key x.value m (ground arith)) (assigned_idle ms key m (ground arith))

-- A transaction that goes through gives every key the value that the mutations assign.
get-transacted :
    (n n' : Namespace) (ms : List StorageMutation) (limits : StorageLimits)
    (a : StorageTransactionResult) (key : Text)
    → IsValid n
    → IsTransacted n n' ms limits a
    → Map.get key n'.entries ≡ assigned ms key (Map.get key n.entries)
get-transacted n n' ms limits a key v t = elim (Bool-cases (mutations_change n.entries ms)) [
  | inl c ↦ rw (t.entries, c) (get-write_all ms key n.entries v.sorted)
  | inr c ↦ rw (t.entries, c) (sym (assigned_idle ms key n.entries c))
]

get-put_work :
    (key j : Text) (value : Bytes) (limits : StorageLimits) (n n' : Namespace) (u : Unit {0})
    → put_work key value limits n ≡ ok (n', u)
    → Map.get j n'.entries ≡ (if same_key j key then some value else Map.get j n.entries)
unfolding put_work put_changed next_revision
get-put_work key j value limits n n' u h =
    elim (Bool-cases (opt_eq (Map.get key n.entries) (some value))) [
      | inl e ↦ ground (arith, sym (assigned_one key j (some value) n.entries e))
      | inr e ↦ ground (arith, get-insert key j value n.entries)
    ]

get-delete_work :
    (key j : Text) (n n' : Namespace) (b : Bool)
    → IsValid n
    → delete_work key n ≡ ok (n', b)
    → Map.get j n'.entries ≡ (if same_key j key then none else Map.get j n.entries)
unfolding delete_work next_revision
get-delete_work key j n n' b v h =
    ground (arith, get-remove key j n.entries v.sorted, same_key-eq j key)

delete_work_answer :
    (key : Text) (n n' : Namespace) (b : Bool)
    → delete_work key n ≡ ok (n', b)
    → b ≡ is_some (Map.get key n.entries)
unfolding delete_work next_revision
delete_work_answer key n n' b h = ground arith

abbrev pub lookup : MemoryStorage → Text → Text → Option Bytes
lookup s name key = Map.get key (view s name).entries

lookup_absent :
    (s : MemoryStorage) (name key : Text)
    → Map.get name s.namespaces ≡ none
    → lookup s name key ≡ none
unfolding view or_default Map.get
lookup_absent s name key h = rw h

-- If the result is a success, `f` gives each key's new value from its old one.
abbrev pub HasEffect {ℓ} :
    {A : Type ℓ}
    → (A → Text → Text → Option Bytes → Option Bytes)
    → MemoryStorage
    → Result A × MemoryStorage
    → Type ℓ
HasEffect f s r =
    (a : _)
    → r.0 ≡ ok a
    → (name key : Text) → lookup r.1 name key ≡ f a name key (lookup s name key)

module _ {ℓ} {A : Type ℓ} (f : A → Text → Text → Option Bytes → Option Bytes) (s : MemoryStorage)
    (name : Text) where
  HasEffect-put_back :
      (n' : Namespace) (a : A)
      → ((key : Text) → Map.get key n'.entries ≡ f a name key (lookup s name key))
      → ((j key : Text) → same_key j name ≡ false → f a j key (lookup s j key) ≡ lookup s j key)
      → HasEffect f s (ok a, put_back s name n')
  HasEffect-put_back n' a new old b h j key =
      let same : a ≡ b = cc in
      subst (λ c. lookup (put_back s name n') j key ≡ f c j key (lookup s j key)) same
        (put_back_at (λ i m. Map.get key m.entries ≡ f a i key (lookup s i key)) s name n' (new key)
          (λ i d. sym (old i key d)) j)

  HasEffect-on_entry :
      (checks : Result (Unit {0})) (work : Namespace → Result (Namespace × A))
      → ((n' : Namespace) (a : A) (key : Text)
          → checks ≡ ok tt
          → work (view s name) ≡ ok (n', a)
          → Map.get key n'.entries ≡ f a name key (lookup s name key))
      → ((a : A) (j key : Text)
          → same_key j name ≡ false
          → f a j key (lookup s j key) ≡ lookup s j key)
      → HasEffect f s (on_entry s name checks work)
  HasEffect-on_entry checks work new old =
      on_entry_rule (HasEffect f s) s name checks work (λ e a h. cc)
        (λ n' a c p w. HasEffect-put_back n' a (λ key. new n' a key c w) (old a)) (λ e w a h. cc)

made_entries :
    (o : Option Namespace) (schema : ℕ) (n : Namespace) (key : Text)
    → schema_of o schema ≡ ok n
    → Map.get key n.entries ≡ Map.get key (or_default o).entries
unfolding schema_of or_default
made_entries none schema n key h = ground arith
made_entries (some m) schema n key h = ground arith

module _ (s : MemoryStorage) (v : AllValid s) (name : Text) where
  pub put-HasEffect :
      (key : Text) (value : Bytes) (limits : StorageLimits)
      → HasEffect (λ u. effect (puts name key value limits) done) s (put s name key value limits)
  unfolding put
  put-HasEffect key value limits =
      HasEffect-on_entry (λ u. effect (puts name key value limits) done) s name _ _
        (λ n' u j c w.
          rw (same_key_refl name) (get-put_work key j value limits (view s name) n' u w))
        (λ u i j d. rw d)

  pub delete-HasEffect :
      (key : Text) → HasEffect (λ b. effect (deletes name key) (deleted b)) s (delete s name key)
  unfolding view or_default
  delete-HasEffect key =
      delete_rule (HasEffect f s) s name key (λ e a h. cc) (λ missing b h i j. absent missing i j)
        λ n found.
          settle_rule (HasEffect f s) s name n (delete_work key n)
            (λ n' b w.
              HasEffect-put_back f s name n' b
                (λ j.
                  rw (same_key_refl name, found, view)
                    (get-delete_work key j n n' b
                      (AllValues-get IsValid name s.namespaces v.each found) w))
                (λ i j d. rw d))
            (λ e w a h. cc)
    where
      f : Bool → Text → Text → Option Bytes → Option Bytes
      f b = effect (deletes name key) (deleted b)

      absent :
          Map.get name s.namespaces ≡ none
          → (i j : Text)
          → lookup s i j ≡ (if same_key i name && same_key j key then none else lookup s i j)
      absent missing i j = elim (Bool-cases (same_key i name)) [
        | inr d ↦ rw d
        | inl e ↦
            let none_there : lookup s i j ≡ none =
              lookup_absent s i j (rw (same_key-eq i name e) missing) in
            ground (arith, none_there)
      ]

  pub compare_exchange-HasEffect :
      (revision : ℕ) (key : Text) (expected replacement : Option Bytes) (limits : StorageLimits)
      → HasEffect
          (λ a. effect (exchanges name revision key expected replacement limits) (transacted a))
          s
          (compare_exchange s name revision key expected replacement limits)
  unfolding compare_exchange
  compare_exchange-HasEffect revision key expected replacement limits =
      HasEffect-on_entry
        (λ a. effect (exchanges name revision key expected replacement limits) (transacted a)) s
        name _ _
        (λ n' a j c w.
          elim (exchange_work_cases revision key expected replacement limits (view s name) n' a
            (view-IsValid s name v) w) [
              | inl (same, answer, _) ↦ rw (same, answer)
              | inr (r, e, t) ↦
                  rw (t.answer, same_key_refl name)
                    (get-transacted (view s name) n' _ limits a j (view-IsValid s name v) t)
            ])
        (λ a i j d. ground arith)

  pub apply_batch-HasEffect :
      (revision : ℕ) (ms : List StorageMutation) (limits : StorageLimits)
      → HasEffect
          (λ a. effect (batches name revision ms limits) (transacted a))
          s
          (apply_batch s name revision ms limits)
  unfolding apply_batch
  apply_batch-HasEffect revision ms limits =
      HasEffect-on_entry (λ a. effect (batches name revision ms limits) (transacted a)) s name _ _
        (λ n' a j c w.
          elim (batch_work_cases revision ms limits (view s name) n' a (view-IsValid s name v)
            (batch_keys ms limits name c) w) [
              | inl (same, _, answer) ↦ rw (same, answer)
              | inr (r, t) ↦
                  rw (t.answer, same_key_refl name)
                    (get-transacted (view s name) n' ms limits a j (view-IsValid s name v) t)
            ])
        (λ a i j d. ground arith)

  pub prepare-HasEffect :
      (schema : ℕ) (limits : StorageLimits)
      → HasEffect (λ u. effect (prepares name schema limits) done) s (prepare s name schema limits)
  unfolding view
  prepare-HasEffect schema limits =
      prepare_rule (HasEffect (λ u i j w. w) s) s name schema limits (λ e a h. cc)
        λ n c made u h i j.
          put_back_at (λ i m. Map.get j m.entries ≡ lookup s i j) s name n
            (made_entries (Map.get name s.namespaces) schema n j made) (λ i d. refl) i
