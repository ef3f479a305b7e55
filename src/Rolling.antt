-- ===== src/Rolling.antt =====
-- The rolling update policy, crates/cartridge-engine/src/rolling.rs. A `BTreeSet<u16>` is a list in
-- ascending order, and a `u16` or `u64` a number.
pub mod Consistent
pub mod Starts
pub mod Drains
pub mod Advance
mod Examples
use Prim.Native.Nat.{min, max}
use cartridge_runtime.Prelude.{
  ℕ, ◌+◌, ◌-◌, ◌*◌, ◌≡◌, Bool, true, false, not, ◌&&◌, ◌||◌, Option, none, some, List, [], ◌∷◌,
  ◌++◌, ltb, leb, ◌==◌, if◌then◌else◌, length, any, all, is_empty, take,
}
use cartridge_runtime.Prelude.Sets.{contains, keep, range, sort}
use cartridge_runtime.Prelude.Words.{checked_add, u64_mod}
use cartridge_runtime.Prelude.Results.{Result, ok, err, reject, ok_or, ◌>>=◌, ◌>>◌}

abbrev pub max_stack_replicas : ℕ
max_stack_replicas = 32

abbrev pub min_rolling_progress_deadline_ms : ℕ
min_rolling_progress_deadline_ms = 1_000

abbrev pub max_rolling_progress_deadline_ms : ℕ
max_rolling_progress_deadline_ms = 60 * 60 * 1_000

abbrev pub max_rolling_min_ready_ms : ℕ
max_rolling_min_ready_ms = 5 * 60 * 1_000

abbrev pub max_rolling_drain_timeout_ms : ℕ
max_rolling_drain_timeout_ms = 5 * 60 * 1_000

pub data RollingOrder : Type 0 where
  start_first stop_first : RollingOrder

pub record RollingUpdatePolicy : Type 0 where
  pub order : RollingOrder
  pub max_surge : ℕ
  pub max_unavailable : ℕ
  pub min_ready_ms : ℕ
  pub progress_deadline_ms : ℕ
  pub drain_timeout_ms : ℕ

-- `RollingUpdatePolicy::default()`
abbrev pub default_policy : RollingUpdatePolicy
default_policy = record {
  order = start_first;
  max_surge = 1;
  max_unavailable = 0;
  min_ready_ms = 2_000;
  progress_deadline_ms = 5 * 60 * 1_000;
  drain_timeout_ms = 30_000;
}

pub data Error : Type 0 where
  invalid_policy inconsistent_observation active_overflow surge_overflow over_surge : Error

unfoldable pub validate_policy : RollingUpdatePolicy → ℕ → Result Error (Unit {0})
validate_policy p replicas =
    reject
      (replicas == 0
        || ltb max_stack_replicas replicas
        || ltb replicas p.max_surge
        || ltb replicas p.max_unavailable
        || (p.max_surge == 0 && p.max_unavailable == 0)
        || ltb max_rolling_min_ready_ms p.min_ready_ms
        || not (
            leb min_rolling_progress_deadline_ms p.progress_deadline_ms
            && leb p.progress_deadline_ms max_rolling_progress_deadline_ms)
        || leb p.progress_deadline_ms p.min_ready_ms
        || ltb max_rolling_drain_timeout_ms p.drain_timeout_ms
        || leb p.progress_deadline_ms p.drain_timeout_ms)
      invalid_policy

pub record RollingObservation : Type 0 where
  pub previous_replicas : ℕ
  pub candidate_replicas : ℕ
  pub previous_active : List ℕ
  pub previous_ready : List ℕ
  pub candidate_active : List ℕ
  pub candidate_ready : List ℕ
  pub candidate_available : List ℕ
  pub candidate_terminal : List ℕ
  pub elapsed_since_progress_ms : ℕ

pub data RollingWaitReason : Type 0 where
  candidate_readiness minimum_ready_time availability_budget : RollingWaitReason

pub data RollingRollbackReason : Type 0 where
  candidate_failed progress_deadline : RollingRollbackReason

pub data RollingAction : Type 0 where
  start_candidate : List ℕ → RollingAction
  -- the ordinals and the timeout
  drain_previous : List ℕ → ℕ → RollingAction
  wait : RollingWaitReason → RollingAction
  complete : RollingAction
  rollback : RollingRollbackReason → RollingAction

-- An ordinal that a generation of so many replicas has.
abbrev pub is_ordinal : ℕ → ℕ → Bool
is_ordinal replicas ordinal = ltb 0 ordinal && leb ordinal replicas

abbrev pub is_subset : List ℕ → List ℕ → Bool
is_subset xs ys = all (λ x. contains x ys) xs

abbrev pub is_disjoint : List ℕ → List ℕ → Bool
is_disjoint xs ys = all (λ x. not (contains x ys)) xs

abbrev pub policy_replicas : RollingObservation → ℕ
policy_replicas o = max o.previous_replicas o.candidate_replicas

-- The sets of an observation that does not fit its replicas.
unfoldable pub is_inconsistent : RollingObservation → Bool
is_inconsistent o =
    any (λ x. not (is_ordinal o.previous_replicas x)) o.previous_active
    || any (λ x. not (is_ordinal o.previous_replicas x)) o.previous_ready
    || any (λ x. not (is_ordinal o.candidate_replicas x)) o.candidate_active
    || any (λ x. not (is_ordinal o.candidate_replicas x)) o.candidate_ready
    || any (λ x. not (is_ordinal o.candidate_replicas x)) o.candidate_available
    || any (λ x. not (is_ordinal o.candidate_replicas x)) o.candidate_terminal
    || not (is_subset o.previous_ready o.previous_active)
    || not (is_subset o.candidate_ready o.candidate_active)
    || not (is_subset o.candidate_available o.candidate_ready)
    || not (is_disjoint o.candidate_terminal o.candidate_active)

unfoldable pub validate : RollingObservation → RollingUpdatePolicy → Result Error (Unit {0})
validate o p = do
  validate_policy p (policy_replicas o)
  reject (is_inconsistent o) inconsistent_observation
  active ←
      ok_or (checked_add u64_mod (length o.previous_active) (length o.candidate_active))
        active_overflow
  limit ← ok_or (checked_add u64_mod (policy_replicas o) p.max_surge) surge_overflow
  reject (ltb limit active) over_surge

-- The number of candidates that `start_action` may start.
abbrev pub start_count : RollingObservation → RollingUpdatePolicy → ℕ
start_count o p =
    min (o.candidate_replicas - length o.candidate_active)
      (policy_replicas o + p.max_surge - (length o.previous_active + length o.candidate_active))

-- The ordinals from 1 that are neither active nor terminal.
abbrev pub startable : RollingObservation → List ℕ
startable o =
    keep (λ x. not (contains x o.candidate_active) && not (contains x o.candidate_terminal))
      (range o.candidate_replicas 1)

unfoldable pub start_action : RollingObservation → RollingUpdatePolicy → Option RollingAction
start_action o p =
    if start_count o p == 0
    then none
    else (let ordinals = take (start_count o p) (startable o) in
        if is_empty ordinals then none else some (start_candidate ordinals))

-- The ready replicas that `drain_action` may take away.
abbrev pub ready_budget : RollingObservation → RollingUpdatePolicy → ℕ
ready_budget o p =
    length o.previous_ready
    + length o.candidate_available
    - (o.candidate_replicas - p.max_unavailable)

abbrev pub drainable : RollingObservation → RollingUpdatePolicy → List ℕ
drainable o p =
    keep (λ x. not (contains x o.previous_ready)) o.previous_active
    ++ take (ready_budget o p) o.previous_ready

unfoldable pub drain_action : RollingObservation → RollingUpdatePolicy → Option RollingAction
drain_action o p =
    if is_empty o.previous_active
    then none
    else if is_empty (drainable o p)
    then none
    else some (drain_previous (sort (drainable o p)) p.drain_timeout_ms)

-- `or_else`
abbrev or_else : Option RollingAction → Option RollingAction → Option RollingAction
or_else none b = b
or_else (some a) b = some a

unfoldable pub ordered_action :
    RollingOrder → Option RollingAction → Option RollingAction → Option RollingAction
ordered_action start_first start drain = or_else start drain
ordered_action stop_first start drain = or_else drain start

pub wait_reason : RollingObservation → RollingWaitReason
wait_reason o =
    if ltb (length o.candidate_ready) (length o.candidate_active)
    then candidate_readiness
    else if ltb (length o.candidate_available) (length o.candidate_ready)
    then minimum_ready_time
    else availability_budget

or_wait : RollingObservation → Option RollingAction → RollingAction
unfolding wait_reason
or_wait o none = wait (wait_reason o)
or_wait o (some action) = action

-- `next` once the observation is valid.
unfoldable pub decide : RollingObservation → RollingUpdatePolicy → RollingAction
unfolding or_wait
decide o p =
    if not (is_empty o.candidate_terminal)
    then rollback candidate_failed
    else if is_empty o.previous_active && length o.candidate_available == o.candidate_replicas
    then complete
    else if leb p.progress_deadline_ms o.elapsed_since_progress_ms
    then rollback progress_deadline
    else or_wait o (ordered_action p.order (start_action o p) (drain_action o p))

unfoldable pub next : RollingObservation → RollingUpdatePolicy → Result Error RollingAction
next o p = do validate o p; ok (decide o p)
