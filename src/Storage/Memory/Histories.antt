-- ===== src/Storage/Memory/Histories.antt =====
-- Sequences of calls: the invariant, and what a revision says of the contents.
use cartridge_runtime.Prelude.{◌≤◌, ◌≡◌, refl, ◌∙◌, inl, inr, List, [], ◌∷◌, arith}
use cartridge_runtime.Prelude.Text.{Text}
use cartridge_runtime.Storage.Types.{MemoryStorage, Namespace, new}
use cartridge_runtime.Storage.Memory.{view}
use cartridge_runtime.Storage.Memory.Requests.{Request, call, run}
use cartridge_runtime.Storage.Memory.Valid.{AllValid}
use cartridge_runtime.Storage.Memory.Changes.{Kept, call-IsStep}

pub new-AllValid : AllValid new
new-AllValid = record { names = tt; each = tt }

run-AllValid_from : (s : MemoryStorage) (rs : List Request) → AllValid s → AllValid (run s rs)
unfolding run
run-AllValid_from s [] v = v
run-AllValid_from s (r ∷ rs) v = run-AllValid_from (call s r).1 rs (call-IsStep s v r).valid

-- From the empty storage, any writing calls of the storage interface, failing ones among them, leave
-- every namespace with its entries in strictly ascending order of keys, its byte counter equal to the sum of the sizes of its values,
-- and its byte counter and revision below 2^64.
pub run-AllValid : (rs : List Request) → AllValid (run new rs)
run-AllValid rs = run-AllValid_from new rs new-AllValid

-- The revision does not fall, and while it stands the contents stand.
abbrev Later : Namespace → Namespace → Type 0
Later n n' = (n.revision ≤ n'.revision) × (n'.revision ≡ n.revision → n'.entries ≡ n.entries)

Later-step : (n m u : Namespace) → Kept n m → Later m u → Later n u
Later-step n m u (inl (e, b, r)) l = (omega arith, λ h. l.1 (omega arith) ∙ e)
Later-step n m u (inr r) l = (omega arith, λ h. absurd (omega arith))

run-Later :
    (s : MemoryStorage) (rs : List Request) (name : Text)
    → AllValid s
    → Later (view s name) (view (run s rs) name)
unfolding run
run-Later s [] name v = (omega arith, λ e. refl)
run-Later s (r ∷ rs) name v =
    let step = call-IsStep s v r in
    Later-step (view s name) (view (call s r).1 name) (view (run (call s r).1 rs) name)
      (step.kept name) (run-Later (call s r).1 rs name step.valid)

-- Over any calls on a valid state the revision of a namespace does not fall.
pub run-revision_le :
    (s : MemoryStorage) (rs : List Request) (name : Text)
    → AllValid s
    → (view s name).revision ≤ (view (run s rs) name).revision
run-revision_le s rs name v = (run-Later s rs name v).0

-- If after any calls on a valid state a namespace has the revision that it had before them, it has
-- the entries that it had before them: no revision comes back with other contents.
pub run_same_revision :
    (s : MemoryStorage) (rs : List Request) (name : Text)
    → AllValid s
    → (view (run s rs) name).revision ≡ (view s name).revision
    → (view (run s rs) name).entries ≡ (view s name).entries
run_same_revision s rs name v = (run-Later s rs name v).1
