-- ===== src/Health.antt =====
-- The health report of a stack, crates/cartridge-engine/src/health.rs. The sums of counters are plain
-- ones: `validate` checks their total for overflow first, and a status has at most 256 replicas.
pub mod Report
pub mod Counts
pub mod Ready
mod Examples
pub use Report.*
use cartridge_runtime.Prelude.{
  ℕ, ◌+◌, ◌-◌, Bool, true, false, not, ◌&&◌, ◌||◌, Option, none, some, List, [], ◌∷◌, ltb, leb,
  ◌==◌, length, is_some, is_some_and, if◌then◌else◌,
}
use Prim.Native.Nat.{Ordering}
use cartridge_runtime.Prelude.Text.{Text, text_eq, text_cmp}
use cartridge_runtime.Prelude.Words.{u16_mod, checked_add}
use cartridge_runtime.Prelude.Results.{Result, ok, err, reject, ok_or, ◌>>=◌, ◌>>◌}
use cartridge_runtime.Supervisor.Types
use cartridge_runtime.Supervisor.Types.{
  ReplicaPhase, ProbePhase, ReplicaProbeRuntime, ReplicaRuntime, StackRuntimeStatus, Hashing,
  max_stack_instances, max_stack_total_replicas,
}
use cartridge_runtime.Supervisor.Names.{valid_name, is_digest}
use cartridge_runtime.Supervisor.Validate

validate_plan_sha256 : EngineStackState → StackStatus → Bool
validate_plan_sha256 EngineStackState.removed s =
    is_some s.plan_sha256 || not (s.instance_count == 0) || not (s.desired_replicas == 0)
validate_plan_sha256 _ s = not (is_some s.plan_sha256)

pub validate_stack_status : StackStatus → Result Error (Unit {0})
unfolding validate_plan_sha256
validate_stack_status s =
    reject
      (not (valid_name s.stack)
        || s.revision == 0
        || ltb max_stack_instances s.instance_count
        || ltb max_stack_total_replicas s.desired_replicas
        || not (is_digest s.event_sha256)
        || is_some_and s.plan_sha256 (λ value. not (is_digest value))
        || validate_plan_sha256 s.state s)
      status_invalid

abbrev pub waiting : StackHealthReport → ℕ
waiting r = r.pending + r.starting + r.backoff

abbrev pub failures : StackHealthReport → ℕ
failures r = r.failed + r.exhausted

abbrev pub successful : StackHealthReport → ℕ
successful r = r.running + r.succeeded

pub derived_applied_state : StackHealthReport → ℕ → ℕ → StackHealthState
derived_applied_state r now runtime_observed =
    if (ltb 0 r.running || ltb 0 (waiting r))
      && ltb supervisor_stale_after_ms (now - runtime_observed)
    then StackHealthState.stale
    else if ltb 0 r.probe_unhealthy
    then StackHealthState.degraded
    else if ltb 0 (failures r)
    then if ltb 0 (successful r) || ltb 0 (waiting r)
      then StackHealthState.degraded
      else StackHealthState.failed
    else if ltb 0 (waiting r) || ltb (successful r) r.desired_replicas
    then StackHealthState.starting
    else if r.running == 0 && r.succeeded == r.desired_replicas
    then StackHealthState.completed
    else StackHealthState.healthy

-- `state_matches_counts` of an applied stack with replicas, by the state of the report.
pub applied_matches : StackHealthState → StackHealthReport → Bool
applied_matches StackHealthState.healthy r =
    failures r == 0
    && r.probe_unhealthy == 0
    && r.probe_waiting == 0
    && waiting r == 0
    && ltb 0 r.running
    && successful r == r.desired_replicas
applied_matches StackHealthState.completed r =
    failures r == 0
    && r.probe_unhealthy == 0
    && r.probe_waiting == 0
    && waiting r == 0
    && r.running == 0
    && r.succeeded == r.desired_replicas
applied_matches StackHealthState.starting r =
    failures r == 0
    && r.probe_unhealthy == 0
    && (ltb 0 (waiting r) || ltb (successful r) r.desired_replicas)
applied_matches StackHealthState.degraded r =
    ltb 0 r.probe_unhealthy || (ltb 0 (failures r) && (ltb 0 (successful r) || ltb 0 (waiting r)))
applied_matches StackHealthState.failed r =
    ltb 0 (failures r) && successful r == 0 && waiting r == 0
applied_matches StackHealthState.stale r = is_some_and r.runtime_observed_at_ms λ observed.
    (ltb 0 r.running || ltb 0 (waiting r))
    && ltb supervisor_stale_after_ms (r.observed_at_ms - observed)
applied_matches StackHealthState.stopped r = false
applied_matches StackHealthState.removed r = false

abbrev pub is_stopped : StackHealthState → Bool
is_stopped StackHealthState.stopped = true
is_stopped _ = false

abbrev pub is_removed : StackHealthState → Bool
is_removed StackHealthState.removed = true
is_removed _ = false

pub matches : EngineStackState → StackHealthReport → Bool
matches EngineStackState.removed r =
    is_removed r.state && r.replicas_total == 0 && not (is_some r.runtime_observed_at_ms)
matches EngineStackState.stopped r =
    is_stopped r.state
    && r.desired_replicas == 0
    && waiting r == 0
    && successful r == 0
    && failures r == 0
matches EngineStackState.applied r =
    if r.desired_replicas == 0 then is_stopped r.state else applied_matches r.state r

pub state_matches_counts : StackHealthReport → Bool
unfolding matches applied_matches
state_matches_counts r = matches r.desired_state r

-- A sum of `u16` counters by `checked_add`.
pub sum_counts : ℕ → List ℕ → Result Error ℕ
sum_counts a [] = ok a
sum_counts a (b ∷ bs) = do next ← ok_or (checked_add u16_mod a b) count_overflow; sum_counts next bs

pub computed_sha256 : ReportDigest → StackHealthReport → Result Error Text
computed_sha256 digest r = ok_or (digest (record r { report_sha256 = [] })) not_encoded

pub bad_report : StackHealthReport → ℕ → ℕ → Bool
bad_report r total probed =
    not (r.format_version == engine_health_format_version)
    || not (valid_name r.stack)
    || r.revision == 0
    || r.observed_at_ms == 0
    || ltb max_stack_total_replicas r.desired_replicas
    || ltb max_stack_total_replicas r.replicas_total
    || not (total == r.replicas_total)
    || ltb r.replicas_total probed
    || is_some_and r.runtime_observed_at_ms (λ value. value == 0 || ltb r.observed_at_ms value)
    || not (is_digest r.report_sha256)

pub validate : ReportDigest → StackHealthReport → Result Error (Unit {0})
validate digest r = do
  total ←
      sum_counts r.pending
        (r.starting ∷ r.running ∷ r.backoff ∷ r.succeeded ∷ r.failed ∷ r.exhausted ∷ r.stopped ∷ [])
  probed ← sum_counts r.probe_waiting (r.probe_ready ∷ r.probe_unhealthy ∷ [])
  reject (bad_report r total probed) report_invalid
  computed ← computed_sha256 digest r
  reject (not (text_eq computed r.report_sha256)) report_invalid
  reject (not (state_matches_counts r)) report_invalid

pub refresh : ReportDigest → StackHealthReport → Result Error StackHealthReport
refresh digest r = do
  computed ← computed_sha256 digest (record r { report_sha256 = [] })
  validate digest (record r { report_sha256 = computed })
  ok (record r { report_sha256 = computed })

-- `ready()` and `terminal_failure()`
pub ready : StackHealthState → Bool
ready StackHealthState.healthy = true
ready StackHealthState.completed = true
ready _ = false

pub terminal_failure : StackHealthState → Bool
terminal_failure StackHealthState.degraded = true
terminal_failure StackHealthState.failed = true
terminal_failure _ = false

-- `checked_add(1)` on a counter.
abbrev pub count_up : ℕ → Error → Result Error ℕ
count_up n e = ok_or (checked_add u16_mod n 1) e

pub count_phase : ReplicaPhase → StackHealthReport → Result Error StackHealthReport
count_phase ReplicaPhase.pending r = do
  n ← count_up r.pending count_overflow
  ok (record r { pending = n })
count_phase ReplicaPhase.starting r = do
  n ← count_up r.starting count_overflow
  ok (record r { starting = n })
count_phase ReplicaPhase.running r = do
  n ← count_up r.running count_overflow
  ok (record r { running = n })
count_phase ReplicaPhase.backoff r = do
  n ← count_up r.backoff count_overflow
  ok (record r { backoff = n })
count_phase ReplicaPhase.succeeded r = do
  n ← count_up r.succeeded count_overflow
  ok (record r { succeeded = n })
count_phase ReplicaPhase.failed r = do
  n ← count_up r.failed count_overflow
  ok (record r { failed = n })
count_phase ReplicaPhase.exhausted r = do
  n ← count_up r.exhausted count_overflow
  ok (record r { exhausted = n })
count_phase ReplicaPhase.stopped r = do
  n ← count_up r.stopped count_overflow
  ok (record r { stopped = n })

pub count_probe_phase : ProbePhase → StackHealthReport → Result Error StackHealthReport
count_probe_phase ProbePhase.waiting r = do
  n ← count_up r.probe_waiting probe_overflow
  ok (record r { probe_waiting = n })
count_probe_phase ProbePhase.ready r = do
  n ← count_up r.probe_ready probe_overflow
  ok (record r { probe_ready = n })
count_probe_phase ProbePhase.unhealthy r = do
  n ← count_up r.probe_unhealthy probe_overflow
  ok (record r { probe_unhealthy = n })

pub count_probe : Option ReplicaProbeRuntime → StackHealthReport → Result Error StackHealthReport
count_probe none r = ok r
count_probe (some p) r = count_probe_phase p.phase r

-- The loop of `from_status` over the replicas.
pub count_replicas : List ReplicaRuntime → StackHealthReport → Result Error StackHealthReport
count_replicas [] r = ok r
count_replicas (q ∷ qs) r = do
  phased ← count_phase q.phase r
  probed ← count_probe q.probe phased
  count_replicas qs probed

abbrev pub first_state : EngineStackState → ℕ → StackHealthState
first_state EngineStackState.applied desired =
    if desired == 0 then StackHealthState.stopped else StackHealthState.starting
first_state EngineStackState.stopped desired = StackHealthState.stopped
first_state EngineStackState.removed desired = StackHealthState.removed

abbrev observed_of : Option StackRuntimeStatus → Option ℕ
observed_of none = none
observed_of (some t) = some t.observed_at_ms

pub first_report : StackStatus → Option StackRuntimeStatus → ℕ → StackHealthReport
first_report s runtime now = record {
  format_version = engine_health_format_version;
  stack = s.stack;
  revision = s.revision;
  desired_state = s.state;
  state = first_state s.state s.desired_replicas;
  observed_at_ms = now;
  runtime_observed_at_ms = observed_of runtime;
  desired_replicas = s.desired_replicas;
  replicas_total = 0;
  pending = 0;
  starting = 0;
  running = 0;
  backoff = 0;
  succeeded = 0;
  failed = 0;
  exhausted = 0;
  stopped = 0;
  probe_waiting = 0;
  probe_ready = 0;
  probe_unhealthy = 0;
  report_sha256 = [];
}

abbrev pub is_applied : EngineStackState → Bool
is_applied EngineStackState.applied = true
is_applied _ = false

abbrev pub of_runtime {ℓ} : {A : Type ℓ} → Result Types.Error A → Result Error A
of_runtime (ok a) = ok a
of_runtime (err e) = err (runtime_invalid e)

-- What `from_status` makes of a runtime status, if there is one.
pub add_runtime :
    Hashing
    → StackStatus
    → ℕ
    → Option StackRuntimeStatus
    → StackHealthReport
    → Result Error StackHealthReport
add_runtime h s now none r = ok r
add_runtime h s now (some t) r = do
  of_runtime (Validate.validate h t)
  reject
      (not (text_eq t.stack s.stack)
        || not (t.revision == s.revision)
        || not (text_eq t.generation s.event_sha256))
      other_generation
  reject (leb u16_mod (length t.replicas)) total_overflow
  counted ← count_replicas t.replicas (record r { replicas_total = length t.replicas })
  ok (
      if is_applied s.state && ltb 0 r.desired_replicas
      then record counted { state = derived_applied_state counted now t.observed_at_ms }
      else counted)

pub from_status :
    Hashing
    → ReportDigest
    → StackStatus
    → Option StackRuntimeStatus
    → ℕ
    → Result Error StackHealthReport
from_status h digest s runtime now = do
  validate_stack_status s
  reject (now == 0) time_invalid
  reject (leb u16_mod s.desired_replicas) desired_overflow
  report ← add_runtime h s now runtime (first_report s runtime now)
  refresh digest report

-- The loop of `validate_health_reports`, after the stack `previous`.
check_reports : ReportDigest → Option Text → List StackHealthReport → Result Error (Unit {0})
check_reports digest previous [] = ok tt
check_reports digest previous (r ∷ rs) = do
  validate digest r
  reject
      (is_some_and previous
        λ stack. elim (text_cmp stack r.stack) [ Ordering.lt ↦ false | _ ↦ true ])
      unsorted
  check_reports digest (some r.stack) rs

pub validate_health_reports : ReportDigest → List StackHealthReport → Result Error (Unit {0})
unfolding check_reports
validate_health_reports digest reports = do
  reject (ltb max_engine_health_reports (length reports)) too_many
  check_reports digest none reports
