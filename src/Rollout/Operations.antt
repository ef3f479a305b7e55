-- ===== src/Rollout/Operations.antt =====
-- The operations of `RolloutProgress`, crates/cartridge-engine/src/rollout_progress.rs. An operation
-- on `&mut self` returns its result and the progress that it leaves, beside an error too.
pub mod Idle
pub mod Calls
pub mod Steps
pub mod Bound
use Prim.Native.Nat.{compare, Ordering}
use cartridge_runtime.Prelude.{
  ℕ, ◌+◌, Bool, true, false, not, ◌&&◌, ◌||◌, Option, none, some, List, [], ◌∷◌, ltb, ◌==◌, any,
  length, is_empty, is_some, if◌then◌else◌,
}
use cartridge_runtime.Prelude.Text.{Text, text_eq}
use cartridge_runtime.Prelude.Sets.{contains}
use cartridge_runtime.Prelude.Map.{Map, get, insert}
use cartridge_runtime.Prelude.Order.{number_ord}
use cartridge_runtime.Prelude.Words.{u64_mod, checked_add}
use cartridge_runtime.Prelude.Results.{ok, err, reject, ok_or, ◌>>=◌, ◌>>◌}
use cartridge_runtime.Prelude.Results
use cartridge_runtime.Supervisor.Types.{ReplicaRuntime, StackRuntimeStatus}
use cartridge_runtime.Supervisor.Validate.{is_stopped}
use cartridge_runtime.Supervisor.Validate
use cartridge_runtime.Supervisor.Types
use cartridge_runtime.Rollout.Types.{
  DrainIntent, RolloutInstanceProgress, RolloutProgress, RolloutExecutionPhase, Error, Result,
  Encoding, time_backwards, not_rolling, start_empty, start_invalid, drain_empty, drain_overflow,
  drain_invalid, no_instance, sequence_overflow, bad_transition, wrong_generation,
}
use cartridge_runtime.Rollout.Validate.{validate, computed_sha256}

unfoldable pub refresh : Encoding → RolloutProgress → Result (Unit {0}) × RolloutProgress
refresh e p = go (computed_sha256 e p)
  where
    go : Result Text → Result (Unit {0}) × RolloutProgress
    go (err fault) = (err fault, record p { progress_sha256 = [] })
    go (ok digest) =
        (validate e (record p { progress_sha256 = digest }), record p { progress_sha256 = digest })

unfoldable pub mark_progress : Encoding → RolloutProgress → ℕ → Result (Unit {0}) × RolloutProgress
mark_progress e p now = go (checked_add u64_mod p.action_sequence 1)
  where
    go : Option ℕ → Result (Unit {0}) × RolloutProgress
    go none = (err sequence_overflow, p)
    go (some next) =
        refresh e
          (record p { action_sequence = next; updated_at_ms = now; last_progress_at_ms = now })

unfoldable pub ensure_time : RolloutProgress → ℕ → Result (Unit {0})
ensure_time p now = reject (now == 0 || ltb now p.updated_at_ms) time_backwards

abbrev pub is_rolling : RolloutExecutionPhase → Bool
is_rolling RolloutExecutionPhase.rolling = true
is_rolling _ = false

unfoldable pub ensure_mutable : RolloutProgress → ℕ → Result (Unit {0})
unfolding ensure_time
ensure_mutable p now = do ensure_time p now; reject (not (is_rolling p.phase)) not_rolling

-- `instance_mut`: the first instance of the name, and the list with that one replaced.
unfoldable pub find : Text → List RolloutInstanceProgress → Option RolloutInstanceProgress
find name [] = none
find name (i ∷ is) = let rest = find name is in if text_eq i.name name then some i else rest

unfoldable pub replace :
    Text → RolloutInstanceProgress → List RolloutInstanceProgress → List RolloutInstanceProgress
replace name j [] = []
replace name j (i ∷ is) =
    let rest = replace name j is in if text_eq i.name name then j ∷ is else i ∷ rest

-- `BTreeSet::insert` and `extend`.
unfoldable pub insert_member : ℕ → List ℕ → List ℕ
insert_member a [] = a ∷ []
insert_member a (x ∷ xs) =
    let rest = insert_member a xs in
    elim (compare a x) [ Ordering.lt ↦ a ∷ x ∷ xs | Ordering.eq ↦ x ∷ xs | Ordering.gt ↦ x ∷ rest ]

unfoldable pub extend : List ℕ → List ℕ → List ℕ
extend set [] = set
extend set (x ∷ xs) = extend (insert_member x set) xs

-- The test of the ordinals in `enable_candidate`.
unfoldable pub bad_start : RolloutInstanceProgress → List ℕ → Bool
bad_start i ordinals =
    any
      (λ ordinal.
        ordinal == 0 || ltb i.candidate_replicas ordinal || contains ordinal i.candidate_enabled)
      ordinals

-- Ends an operation that changes the instance it found, or refuses.
unfoldable pub with_instance :
    Encoding
    → RolloutProgress
    → Text
    → ℕ
    → Result RolloutInstanceProgress
    → Result (Unit {0}) × RolloutProgress
unfolding mark_progress
with_instance e p name now (err fault) = (err fault, p)
with_instance e p name now (ok i) =
    mark_progress e (record p { instances = replace name i p.instances }) now

unfoldable pub enabled_instance :
    RolloutProgress → Text → List ℕ → ℕ → Result RolloutInstanceProgress
unfolding bad_start
enabled_instance p name ordinals now = do
  ensure_mutable p now
  reject (is_empty ordinals) start_empty
  i ← ok_or (find name p.instances) no_instance
  reject (bad_start i ordinals) start_invalid
  ok (record i { candidate_enabled = extend i.candidate_enabled ordinals })

unfoldable pub enable_candidate :
    Encoding → RolloutProgress → Text → List ℕ → ℕ → Result (Unit {0}) × RolloutProgress
unfolding with_instance
enable_candidate e p name ordinals now =
    with_instance e p name now (enabled_instance p name ordinals now)

-- The test of the ordinals in `request_previous_drain`.
unfoldable pub bad_drain : RolloutInstanceProgress → List ℕ → Bool
bad_drain i ordinals =
    any
      (λ ordinal.
        ordinal == 0
        || ltb i.previous_replicas ordinal
        || is_some (get ordinal i.previous_draining))
      ordinals

unfoldable pub insert_intents : DrainIntent → List ℕ → Map ℕ DrainIntent → Map ℕ DrainIntent
insert_intents intent [] draining = draining
insert_intents intent (x ∷ xs) draining = insert_intents intent xs (insert x intent draining)

unfoldable pub drained_instance :
    RolloutProgress → Text → List ℕ → ℕ → Result RolloutInstanceProgress
unfolding bad_drain
drained_instance p name ordinals now = do
  ensure_mutable p now
  reject (is_empty ordinals) drain_empty
  i ← ok_or (find name p.instances) no_instance
  deadline ← ok_or (checked_add u64_mod now i.policy.drain_timeout_ms) drain_overflow
  reject (bad_drain i ordinals) drain_invalid
  ok (record i {
    previous_draining =
        insert_intents (record { requested_at_ms = now; deadline_at_ms = deadline }) ordinals
          i.previous_draining;
  })

unfoldable pub request_previous_drain :
    Encoding → RolloutProgress → Text → List ℕ → ℕ → Result (Unit {0}) × RolloutProgress
unfolding with_instance
request_previous_drain e p name ordinals now =
    with_instance e p name now (drained_instance p name ordinals now)

-- The transitions that `set_phase` allows.
unfoldable pub allowed : RolloutExecutionPhase → RolloutExecutionPhase → Bool
allowed RolloutExecutionPhase.rolling RolloutExecutionPhase.paused = true
allowed RolloutExecutionPhase.rolling RolloutExecutionPhase.completing = true
allowed RolloutExecutionPhase.rolling RolloutExecutionPhase.rolling_back = true
allowed RolloutExecutionPhase.paused RolloutExecutionPhase.rolling = true
allowed RolloutExecutionPhase.paused RolloutExecutionPhase.completing = true
allowed RolloutExecutionPhase.paused RolloutExecutionPhase.rolling_back = true
allowed RolloutExecutionPhase.completing RolloutExecutionPhase.completed = true
allowed RolloutExecutionPhase.completing RolloutExecutionPhase.rolling_back = true
allowed RolloutExecutionPhase.rolling_back RolloutExecutionPhase.rolled_back = true
allowed _ _ = false

unfoldable pub set_phase :
    Encoding → RolloutProgress → RolloutExecutionPhase → ℕ → Result (Unit {0}) × RolloutProgress
unfolding ensure_time
set_phase e p next now =
    go (do ensure_time p now; reject (not (allowed p.phase next)) bad_transition)
  where
    go : Result (Unit {0}) → Result (Unit {0}) × RolloutProgress
    go (err fault) = (err fault, p)
    go (ok u) = mark_progress e (record p { phase = next }) now

unfoldable pub heartbeat : Encoding → RolloutProgress → ℕ → Result (Unit {0}) × RolloutProgress
heartbeat e p now = go (ensure_time p now)
  where
    go : Result (Unit {0}) → Result (Unit {0}) × RolloutProgress
    go (err fault) = (err fault, p)
    go (ok u) = refresh e (record p { updated_at_ms = now })

-- `?` on a result of the supervisor.
abbrev pub of_runtime {ℓ} : {A : Type ℓ} → Results.Result Types.Error A → Result A
of_runtime (ok a) = ok a
of_runtime (err fault) = err (Error.runtime fault)

-- `Some(a) != b`
abbrev pub differs {ℓ} : {A : Type ℓ} → (A → A → Bool) → A → Option A → Bool
differs same a none = true
differs same a (some b) = not (same a b)

unfoldable pub validate_runtime :
    Encoding
    → RolloutProgress
    → Option StackRuntimeStatus
    → Option ℕ
    → Option Text
    → Result (Unit {0})
validate_runtime e p none revision generation = ok tt
validate_runtime e p (some s) revision generation = do
  of_runtime (Validate.validate e.hashing s)
  reject
      (not (text_eq s.stack p.stack)
        || differs (λ a b. a == b) s.revision revision
        || differs text_eq s.generation generation)
      wrong_generation

-- The stopped replicas end their drains, in one instance.
unfoldable pub is_drained : List ReplicaRuntime → Text → ℕ → Bool
is_drained replicas name ordinal =
    any (λ r. text_eq r.id.instance_name name && r.id.ordinal == ordinal && is_stopped r.phase)
      replicas

-- `retain`, with the number of intents that it removes.
unfoldable pub retain_intents :
    List ReplicaRuntime → Text → Map ℕ DrainIntent → Map ℕ DrainIntent × ℕ
retain_intents replicas name [] = ([], 0)
retain_intents replicas name ((ordinal, intent) ∷ draining) =
    let (kept, removed) = retain_intents replicas name draining in
    if is_drained replicas name ordinal
    then (kept, removed + 1)
    else ((ordinal, intent) ∷ kept, removed)

-- The loop over the instances.
unfoldable pub end_drains :
    List ReplicaRuntime → List RolloutInstanceProgress → List RolloutInstanceProgress × ℕ
unfolding retain_intents
end_drains replicas [] = ([], 0)
end_drains replicas (i ∷ is) =
    let (kept, removed) = retain_intents replicas i.name i.previous_draining in
    let (rest, others) = end_drains replicas is in
    (record i { previous_draining = kept } ∷ rest, removed + others)

-- `acknowledge_drained` once there is a status and it passed the checks.
unfoldable pub acknowledge_status :
    Encoding → RolloutProgress → StackRuntimeStatus → ℕ → Result ℕ × RolloutProgress
unfolding end_drains mark_progress
acknowledge_status e p s now =
    let (is, removed) = end_drains s.replicas p.instances in
    let left = record p { instances = is } in
    let (answer, marked) = mark_progress e left now in
    if removed == 0 then (ok 0, left) else ((answer >>= λ u. ok removed), marked)

unfoldable pub acknowledge_drained :
    Encoding → RolloutProgress → Option StackRuntimeStatus → ℕ → Result ℕ × RolloutProgress
unfolding acknowledge_status
acknowledge_drained e p previous now = go previous (do
  ensure_mutable p now
  validate_runtime e p previous p.previous_revision p.previous_generation)
  where
    go : Option StackRuntimeStatus → Result (Unit {0}) → Result ℕ × RolloutProgress
    go status (err fault) = (err fault, p)
    go none (ok u) = (ok 0, p)
    go (some s) (ok u) = acknowledge_status e p s now
