-- ===== src/Health/Examples.antt =====
-- The report of a stack with one replica.
use cartridge_runtime.Prelude.{◌≡◌, refl, none, some, [], ◌∷◌}
use cartridge_runtime.Prelude.Text.{Text, text_cmp, text_eq}
use cartridge_runtime.Prelude.Text
use cartridge_runtime.Prelude.Ascii.{starts_with_char, ends_with_char}
use cartridge_runtime.Supervisor.Names.{valid_name, valid_text, is_digest}
use cartridge_runtime.Supervisor.Types.{
  ReplicaPhase, ReplicaRuntime, StackRuntimeStatus, DesiredState, RestartPolicy, Hashing,
}
use cartridge_runtime.Supervisor.Validate
use cartridge_runtime.Supervisor.Validate.{
  bad_identity, check_replicas, id_lt, id_cmp, id_eq, validate_replica, bad_replica, check_probe,
  misfit, active_misfit, planned_stopped, drained,
}
use cartridge_runtime.Health.{
  StackStatus, StackHealthReport, StackHealthState, EngineStackState, ReportDigest, validate,
  from_status, refresh, computed_sha256, validate_stack_status, add_runtime, first_report,
  count_replicas, count_phase, count_probe, derived_applied_state, sum_counts, bad_report,
  state_matches_counts, ready,
}
use cartridge_runtime.Health.Ready.{AreReady, from_status_ready}

abbrev digits : Text
digits = Text.text "0123456789abcdef0123456789abcdef0123456789abcdef0123456789abcdef"

abbrev hashing : Hashing
hashing = record { status_digest = λ s. some digits; start_word = λ id attempt. 0 }

abbrev digest : ReportDigest
digest r = some digits

abbrev replica : ReplicaRuntime
replica = record {
  id = record { instance_name = Text.text "app"; ordinal = 1 };
  desired = DesiredState.running;
  restart = RestartPolicy.always;
  max_restarts = 2;
  attempt = 1;
  phase = ReplicaPhase.running;
  run_id = some digits;
  started_at_ms = some 5_000;
  finished_at_ms = none;
  next_start_at_ms = none;
  last_exit_code = none;
  detail = none;
  probe = none;
}

abbrev runtime : StackRuntimeStatus
runtime = record {
  format_version = 2;
  stack = Text.text "demo";
  revision = 1;
  generation = digits;
  observed_at_ms = 5_000;
  replicas = replica ∷ [];
  status_sha256 = digits;
}

abbrev status : StackStatus
status = record {
  stack = Text.text "demo";
  revision = 1;
  state = EngineStackState.applied;
  plan_sha256 = some digits;
  instance_count = 1;
  desired_replicas = 1;
  event_sha256 = digits;
}

abbrev report : StackHealthReport
report = record {
  format_version = 2;
  stack = Text.text "demo";
  revision = 1;
  desired_state = EngineStackState.applied;
  state = StackHealthState.healthy;
  observed_at_ms = 6_000;
  runtime_observed_at_ms = some 5_000;
  desired_replicas = 1;
  replicas_total = 1;
  pending = 0;
  starting = 0;
  running = 1;
  backoff = 0;
  succeeded = 0;
  failed = 0;
  exhausted = 0;
  stopped = 0;
  probe_waiting = 0;
  probe_ready = 0;
  probe_unhealthy = 0;
  report_sha256 = digits;
}

from_status_ready_example : AreReady (some runtime) status.desired_replicas
unfolding from_status refresh computed_sha256 validate validate_stack_status add_runtime
    first_report count_replicas count_phase count_probe derived_applied_state sum_counts bad_report
    state_matches_counts ready Validate.validate Validate.computed_sha256 bad_identity
    check_replicas id_lt id_cmp id_eq validate_replica bad_replica check_probe misfit active_misfit
    planned_stopped drained valid_name valid_text is_digest starts_with_char ends_with_char
    Text.bytes Text.len text_cmp text_eq
from_status_ready_example =
    from_status_ready hashing digest status (some runtime) 6_000 report refl refl

-- The one replica has succeeded before its probe signalled.
abbrev early_success : StackHealthReport
early_success = record report {
  state = StackHealthState.completed;
  running = 0;
  succeeded = 1;
  probe_waiting = 1;
}

-- It is the state that the counts give.
state_of_early_success :
    derived_applied_state early_success 6_000 5_000 ≡ StackHealthState.completed
unfolding derived_applied_state
state_of_early_success = refl
