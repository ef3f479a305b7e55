-- ===== src/Rollout/Examples.antt =====
-- A rollout from two replicas to two others, at concrete times.
use cartridge_runtime.Prelude.{ℕ, ◌+◌, ◌≤◌, ◌≡◌, refl, true, none, some, List, [], ◌∷◌, arith}
use cartridge_runtime.Prelude.Text.{Text, Bytes, text_cmp, text_eq}
use cartridge_runtime.Prelude.Text
use cartridge_runtime.Prelude.Ascii.{starts_with_char, ends_with_char}
use cartridge_runtime.Prelude.Sets.{contains, keep, range}
use cartridge_runtime.Prelude.Results.{ok}
use cartridge_runtime.Rolling.{default_policy, RollingAction, RollingObservation}
use cartridge_runtime.Rolling
use cartridge_runtime.Supervisor.Names.{valid_name, is_digest}
use cartridge_runtime.Supervisor.Types.{
  ReplicaPhase, ReplicaRuntime, StackRuntimeStatus, DesiredState, RestartPolicy,
  max_stack_total_replicas,
}
use cartridge_runtime.Rollout.Types.{
  RolloutInstanceProgress, RolloutProgress, RolloutExecutionPhase, Encoding,
}
use cartridge_runtime.Supervisor.Validate.{
  check_replicas, validate_replica, bad_replica, check_probe, misfit, active_misfit, id_lt, id_cmp,
  id_eq,
}
use cartridge_runtime.Supervisor.Validate
use cartridge_runtime.Rollout.Validate.{
  validate, bad_identity, computed_sha256, check_instances, validate_instance, bad_intents,
}
use cartridge_runtime.Rollout.Operations.{is_rolling, ensure_time, validate_runtime, insert_member}
use cartridge_runtime.Rollout.Operations.Idle.{missing}
use cartridge_runtime.Rollout.Operations.Calls.{Request, enables, enters, beats, call}
use cartridge_runtime.Rollout.Operations.Steps.{IsStep, call-IsStep}
use cartridge_runtime.Rollout.Operations.Bound.{
  run, enable_calls, enable_calls_le, rank, Settles, run-Settles,
}
use cartridge_runtime.Rollout.Observe.{
  instance_observation, first_observation, observe_all_previous, observe_previous, replica_ready,
  observe_all_candidate, observe_candidate,
}
use cartridge_runtime.Rollout.Schedule.{
  observations, next_action, schedule, stack_start_capacity, count_active, add_active, active_limit,
  sum_by, scan, scan_action, conclude,
}
use cartridge_runtime.Rollout.Schedule.Starts.{IsStackStart, next_action-IsStackStart}

-- 64 hexadecimal digits.
abbrev some_digest : Text
some_digest = Text.text "0123456789abcdef0123456789abcdef0123456789abcdef0123456789abcdef"

-- An encoder that writes one byte, and digests that are the same for everything.
abbrev encoding : Encoding
encoding = record {
  encode = λ p. some (0 ∷ []);
  sha256 = λ bytes. some_digest;
  hashing = record { status_digest = λ s. some some_digest; start_word = λ id attempt. 0 };
}

abbrev web : RolloutInstanceProgress
web = record {
  name = Text.text "web";
  previous_replicas = 2;
  candidate_replicas = 2;
  policy = default_policy;
  candidate_enabled = [];
  previous_draining = [];
}

abbrev begun : RolloutProgress
begun = record {
  format_version = 1;
  rollout_id = some_digest;
  stack = Text.text "shop";
  phase = RolloutExecutionPhase.rolling;
  previous_revision = some 1;
  previous_generation = some some_digest;
  candidate_revision = 2;
  candidate_generation = some_digest;
  started_at_ms = 10_000;
  updated_at_ms = 10_000;
  last_progress_at_ms = 10_000;
  action_sequence = 0;
  instances = web ∷ [];
  progress_sha256 = some_digest;
}

abbrev replica : ℕ → ReplicaRuntime
replica ordinal = record {
  id = record { instance_name = Text.text "web"; ordinal = ordinal };
  desired = DesiredState.running;
  restart = RestartPolicy.on_failure;
  max_restarts = 2;
  attempt = 1;
  phase = ReplicaPhase.running;
  run_id = some some_digest;
  started_at_ms = some 5_000;
  finished_at_ms = none;
  next_start_at_ms = none;
  last_exit_code = none;
  detail = none;
  probe = none;
}

abbrev serving : StackRuntimeStatus
serving = record {
  format_version = 2;
  stack = Text.text "shop";
  revision = 1;
  generation = some_digest;
  observed_at_ms = 10_000;
  replicas = replica 1 ∷ replica 2 ∷ [];
  status_sha256 = some_digest;
}

abbrev work : List (ℕ × Request)
work =
    (11_000, enables (Text.text "web") (1 ∷ []))
    ∷ (12_000, enables (Text.text "web") (1 ∷ []))
    ∷ (13_000, beats)
    ∷ (14_000, enters RolloutExecutionPhase.rolling_back)
    ∷ (15_000, enters RolloutExecutionPhase.rolled_back)
    ∷ []

call-IsStep_example :
    IsStep encoding begun (call encoding begun 11_000 (enables (Text.text "web") (1 ∷ [])))
call-IsStep_example = call-IsStep encoding begun 11_000 (enables (Text.text "web") (1 ∷ []))

enable_calls_le_example :
    (enable_calls encoding begun work + missing (run encoding begun work).instances
      ≤ missing begun.instances)
    × (enable_calls encoding begun work ≤ max_stack_total_replicas)
unfolding validate bad_identity computed_sha256 check_instances validate_instance bad_intents
    Rolling.validate_policy valid_name is_digest starts_with_char ends_with_char Text.bytes Text.len
    text_cmp text_eq
enable_calls_le_example = enable_calls_le encoding begun work refl

run-Settles_example :
    Settles
      (record begun { phase = RolloutExecutionPhase.completing })
      (run encoding (record begun { phase = RolloutExecutionPhase.completing }) work)
unfolding rank
run-Settles_example =
    run-Settles encoding (record begun { phase = RolloutExecutionPhase.completing }) work
      (omega arith)

next_action-IsStackStart_example :
    (is_rolling begun.phase ≡ true)
    × (os : List RollingObservation) × (observations begun
          (some serving)
          none
          11_000
          begun.instances
        ≡ ok os)
    × IsStackStart begun os
        (record {
          instance_name = some (Text.text "web");
          action = RollingAction.start_candidate (1 ∷ []);
        })
        (1 ∷ [])
unfolding next_action validate bad_identity computed_sha256 check_instances validate_instance
    bad_intents Rolling.validate_policy valid_name is_digest starts_with_char ends_with_char
    Text.bytes Text.len text_cmp text_eq ensure_time validate_runtime Validate.validate
    Validate.bad_identity Validate.computed_sha256 check_replicas validate_replica bad_replica
    check_probe misfit active_misfit id_lt id_cmp id_eq schedule observations instance_observation
    first_observation observe_all_previous observe_previous replica_ready insert_member
    observe_all_candidate observe_candidate stack_start_capacity count_active add_active
    active_limit sum_by scan scan_action conclude Rolling.next Rolling.validate
    Rolling.is_inconsistent Rolling.decide Rolling.start_action Rolling.drain_action
    Rolling.ordered_action contains keep range
next_action-IsStackStart_example =
    next_action-IsStackStart encoding begun (some serving) none 11_000 _ (1 ∷ []) refl refl
