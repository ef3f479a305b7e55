-- ===== src/Rollout/Schedule.antt =====
-- The scheduler's decision, `next_action` of crates/cartridge-engine/src/rollout_progress.rs.
pub mod Capacity
pub mod Starts
use Prim.Native.Nat.{max}
use cartridge_runtime.Prelude.{
  ℕ, ◌+◌, ◌-◌, ◌%◌, Bool, true, false, not, ◌&&◌, ◌||◌, Option, none, some, List, [], ◌∷◌, ltb, any,
  length, is_empty, is_some, if◌then◌else◌, take,
}
use cartridge_runtime.Prelude.Text.{Text}
use cartridge_runtime.Prelude.Words.{u16_mod, u64_mod, checked_add}
use cartridge_runtime.Prelude.Results.{ok, err, reject, ok_or, ◌>>=◌, ◌>>◌}
use cartridge_runtime.Rolling.{
  RollingObservation, RollingAction, RollingWaitReason, RollingUpdatePolicy, next,
}
use cartridge_runtime.Supervisor.Types.{StackRuntimeStatus}
use cartridge_runtime.Rollout.Types.{
  RolloutInstanceProgress, RolloutProgress, RolloutProgressAction, Result, Encoding, not_rolling,
  active_overflow, limit_overflow, over_active, max_stack_total_active_replicas,
}
use cartridge_runtime.Rollout.Validate.{validate, of_policy}
use cartridge_runtime.Rollout.Operations.{ensure_time, is_rolling, validate_runtime}
use cartridge_runtime.Rollout.Observe.{instance_observation}

-- `collect::<Result<Vec<_>, _>>` of the observations.
unfoldable pub observations :
    RolloutProgress
    → Option StackRuntimeStatus
    → Option StackRuntimeStatus
    → ℕ
    → List RolloutInstanceProgress
    → Result (List RollingObservation)
unfolding instance_observation
observations p previous candidate now [] = ok []
observations p previous candidate now (i ∷ is) = do
  o ← instance_observation p previous candidate now i
  os ← observations p previous candidate now is
  ok (o ∷ os)

-- `try_fold` over the active replicas of both generations; an overflow stays.
unfoldable pub add_active : Option ℕ → RollingObservation → Option ℕ
add_active none o = none
add_active (some total) o = elim (checked_add u64_mod total (length o.previous_active)) [
  | none ↦ none
  | some value ↦ checked_add u64_mod value (length o.candidate_active)
]

unfoldable pub count_active : Option ℕ → List RollingObservation → Option ℕ
unfolding add_active
count_active total [] = total
count_active total (o ∷ os) = count_active (add_active total o) os

-- `sum::<u16>`
unfoldable pub sum_by : (RolloutInstanceProgress → ℕ) → List RolloutInstanceProgress → ℕ
sum_by f [] = 0
sum_by f (i ∷ is) = (f i + sum_by f is) % u16_mod

unfoldable pub active_limit : RolloutProgress → Result ℕ
unfolding sum_by
active_limit p =
    ok_or
      (checked_add u64_mod
        (max (sum_by (λ i. i.previous_replicas) p.instances)
          (sum_by (λ i. i.candidate_replicas) p.instances))
        (sum_by (λ i. i.policy.max_surge) p.instances))
      limit_overflow

unfoldable pub stack_start_capacity : RolloutProgress → List RollingObservation → Result ℕ
unfolding count_active active_limit
stack_start_capacity p os = do
  active ← ok_or (count_active (some 0) os) active_overflow
  limit ← active_limit p
  reject (ltb limit active || ltb max_stack_total_active_replicas limit) over_active
  ok (limit - active)

-- `get_or_insert`
abbrev pub get_or_insert {ℓ} : {A : Type ℓ} → Option A → A → Option A
get_or_insert none a = some a
get_or_insert (some b) a = some b

-- The loop over the instances: an action that returns at once, or the first action and wait so far.
pub data Scan : Type 0 where
  returns : RolloutProgressAction → Scan
  scanned : Option RolloutProgressAction → Option RolloutProgressAction → Scan

abbrev pub at_instance : RolloutInstanceProgress → RollingAction → RolloutProgressAction
at_instance i a = record { instance_name = some i.name; action = a }

abbrev pub budget_wait : RollingAction
budget_wait = RollingAction.wait RollingWaitReason.availability_budget

-- One turn of the loop.
unfoldable pub scan_action :
    ℕ
    → RolloutInstanceProgress
    → Option RolloutProgressAction
    → Option RolloutProgressAction
    → RollingAction
    → Scan
scan_action capacity i action waiting RollingAction.complete = scanned action waiting
scan_action capacity i action waiting (RollingAction.rollback reason) =
    returns (at_instance i (RollingAction.rollback reason))
scan_action capacity i action waiting (RollingAction.wait reason) =
    scanned action (get_or_insert waiting (at_instance i (RollingAction.wait reason)))
scan_action capacity i action waiting (RollingAction.start_candidate ordinals) =
    if is_empty (take capacity ordinals)
    then scanned action (get_or_insert waiting (at_instance i budget_wait))
    else scanned
        (get_or_insert action
          (at_instance i (RollingAction.start_candidate (take capacity ordinals))))
        waiting
scan_action capacity i action waiting (RollingAction.drain_previous ordinals timeout) =
    scanned (get_or_insert action (at_instance i (RollingAction.drain_previous ordinals timeout)))
      waiting

abbrev pub then_scan :
    (Option RolloutProgressAction → Option RolloutProgressAction → Result Scan) → Scan → Result Scan
then_scan rest (returns a) = ok (returns a)
then_scan rest (scanned action waiting) = rest action waiting

-- `zip`, and the turns until one returns.
unfoldable pub scan :
    ℕ
    → Option RolloutProgressAction
    → Option RolloutProgressAction
    → List RolloutInstanceProgress
    → List RollingObservation
    → Result Scan
unfolding scan_action
scan capacity action waiting [] os = ok (scanned action waiting)
scan capacity action waiting (i ∷ is) [] = ok (scanned action waiting)
scan capacity action waiting (i ∷ is) (o ∷ os) = do
  decided ← of_policy (next o i.policy)
  then_scan (λ a w. scan capacity a w is os) (scan_action capacity i action waiting decided)

abbrev pub for_stack : RollingAction → RolloutProgressAction
for_stack a = record { instance_name = none; action = a }

-- What is returned after the loop.
unfoldable pub conclude : Bool → Scan → RolloutProgressAction
conclude pending (returns a) = a
conclude true (scanned a w) = for_stack budget_wait
conclude false (scanned (some a) w) = a
conclude false (scanned none (some w)) = w
conclude false (scanned none none) = for_stack RollingAction.complete

abbrev pub drains_pending : RolloutProgress → Bool
drains_pending p = any (λ i. not (is_empty i.previous_draining)) p.instances

unfoldable pub schedule :
    RolloutProgress
    → Option StackRuntimeStatus
    → Option StackRuntimeStatus
    → ℕ
    → Result RolloutProgressAction
unfolding conclude
schedule p previous candidate now = do
  os ← observations p previous candidate now p.instances
  capacity ← stack_start_capacity p os
  found ← scan capacity none none p.instances os
  ok (conclude (drains_pending p) found)

unfoldable pub next_action :
    Encoding
    → RolloutProgress
    → Option StackRuntimeStatus
    → Option StackRuntimeStatus
    → ℕ
    → Result RolloutProgressAction
next_action e p previous candidate now = do
  validate e p
  ensure_time p now
  reject (not (is_rolling p.phase)) not_rolling
  validate_runtime e p previous p.previous_revision p.previous_generation
  validate_runtime e p candidate (some p.candidate_revision) (some p.candidate_generation)
  (if not (is_some previous) && any (λ i. ltb 0 i.previous_replicas) p.instances
      then ok (for_stack budget_wait)
      else schedule p previous candidate now)
