-- ===== src/Supervisor/Operations/Examples.antt =====
-- A stack of one replica, at concrete times.
use cartridge_runtime.Prelude.{
  ℕ, ◌+◌, ◌≤◌, ◌≡◌, refl, true, false, ◌&&◌, none, some, List, [], ◌∷◌, arith, ltb, any,
}
use cartridge_runtime.Prelude.Text.{Text, text_cmp, text_eq}
use cartridge_runtime.Prelude.Text
use cartridge_runtime.Prelude.Ascii.{starts_with_char, ends_with_char}
use cartridge_runtime.Prelude.Results.{ok}
use cartridge_runtime.Supervisor.Names.{valid_name, valid_text, is_digest}
use cartridge_runtime.Supervisor.Types.{
  ReplicaId, ReplicaPhase, ReplicaRuntime, StackRuntimeStatus, DesiredState, RestartPolicy, Hashing,
}
use cartridge_runtime.Supervisor.Validate.{
  validate_replica, bad_replica, check_probe, misfit, active_misfit, backoff_misfit, pending_misfit,
  terminal_misfit, planned_stopped, drained, wants_running, attempts_allowed, validate,
  bad_identity, computed_sha256, check_replicas, id_lt, id_cmp, id_eq,
}
use cartridge_runtime.Supervisor.Operations.{
  backoff_base, restart_backoff_ms, wants_restart, final_phase, finish_replica, is_eligible,
  begin_start, mark_running, mark_exit, start_step, may_start, running_step, exit_step, on_replica,
  finish, refresh, find, replace, eligible_starts, runs, runs_as, drain_step,
}
use cartridge_runtime.Supervisor.Operations.Calls.{Request, begins, marks_running, exits, call}
use cartridge_runtime.Supervisor.Operations.Attempts.{run_calls, starts, starts_le}
use cartridge_runtime.Supervisor.Operations.Outcomes.{HasBegun, begin_start_eligible}
use cartridge_runtime.Supervisor.Operations.Steps.{drains, replica_step, replica_step_valid}
use cartridge_runtime.Supervisor.Operations.Finish.{finish_replica_valid, finish_replica_eligible}

-- 64 hexadecimal digits.
abbrev pub some_digest : Text
some_digest = Text.text "0123456789abcdef0123456789abcdef0123456789abcdef0123456789abcdef"

-- A digest that is the same for every status, and a word that is the attempt.
abbrev hashing : Hashing
hashing = record {
  status_digest = λ s. some some_digest;
  start_word = λ id attempt. 1000 + attempt;
}

abbrev app_1 : ReplicaId
app_1 = record { instance_name = Text.text "app"; ordinal = 1 }

abbrev active : ReplicaRuntime
active = record {
  id = app_1;
  desired = DesiredState.running;
  restart = RestartPolicy.on_failure;
  max_restarts = 2;
  attempt = 1;
  phase = ReplicaPhase.running;
  run_id = some some_digest;
  started_at_ms = some 5_000;
  finished_at_ms = none;
  next_start_at_ms = none;
  last_exit_code = none;
  detail = none;
  probe = none;
}

finish_replica_valid_example :
    validate_replica (finish_replica hashing active false (some 1) (Text.text "crashed") 6_000)
    ≡ ok tt
unfolding validate_replica bad_replica check_probe misfit active_misfit backoff_misfit
    pending_misfit terminal_misfit planned_stopped drained valid_name valid_text is_digest
    starts_with_char ends_with_char Text.bytes Text.len
finish_replica_valid_example =
    finish_replica_valid hashing active false (some 1) (Text.text "crashed") 6_000 refl refl refl
      refl (omega arith)

replica_step_valid_example :
    validate_replica (replica_step hashing 6_000 (drains (some some_digest)) active).1 ≡ ok tt
unfolding drain_step runs runs_as validate_replica bad_replica check_probe misfit active_misfit
    backoff_misfit pending_misfit terminal_misfit planned_stopped drained valid_name valid_text
    is_digest starts_with_char ends_with_char Text.bytes Text.len text_cmp text_eq
replica_step_valid_example =
    replica_step_valid hashing 6_000 (drains (some some_digest)) active refl refl refl refl
      (omega arith) refl

finish_replica_eligible_example :
    is_eligible
      (6_000 + 30_000)
      (finish_replica hashing active false (some 1) (Text.text "crashed") 6_000)
    ≡ (wants_running active.desired
        && wants_restart active.restart false
        && ltb active.attempt (attempts_allowed active.max_restarts))
finish_replica_eligible_example =
    finish_replica_eligible hashing active false (some 1) (Text.text "crashed") 6_000 (omega arith)

abbrev fresh : ReplicaRuntime
fresh = record active {
  attempt = 0;
  phase = ReplicaPhase.pending;
  run_id = none;
  started_at_ms = none;
}

abbrev stack : StackRuntimeStatus
stack = record {
  format_version = 2;
  stack = Text.text "demo";
  revision = 1;
  generation = some_digest;
  observed_at_ms = 4_000;
  replicas = fresh ∷ [];
  status_sha256 = some_digest;
}

-- A start, its acknowledgement, a crash and the next start, at their times.
abbrev crash : List (ℕ × Request)
crash =
    (5_000, begins app_1 some_digest)
    ∷ (5_100, marks_running app_1 some_digest)
    ∷ (6_000, exits app_1 some_digest false (some 1) (Text.text "crashed"))
    ∷ (7_000, begins app_1 some_digest)
    ∷ []

starts_le_example : starts hashing app_1 stack crash ≤ 3
unfolding call run_calls starts begin_start mark_running mark_exit start_step may_start running_step
    exit_step on_replica finish refresh find replace eligible_starts runs finish_replica
    wants_restart final_phase restart_backoff_ms backoff_base validate bad_identity computed_sha256
    check_replicas id_lt id_cmp id_eq validate_replica bad_replica check_probe misfit active_misfit
    backoff_misfit pending_misfit terminal_misfit planned_stopped drained valid_name valid_text
    is_digest starts_with_char ends_with_char Text.bytes Text.len text_cmp text_eq
starts_le_example = starts_le hashing app_1 fresh stack crash refl refl

-- Both starts take place.
starts_of_crash : starts hashing app_1 stack crash ≡ 2
unfolding call run_calls starts begin_start mark_running mark_exit start_step may_start running_step
    exit_step on_replica finish refresh find replace eligible_starts runs finish_replica
    wants_restart final_phase restart_backoff_ms backoff_base validate bad_identity computed_sha256
    check_replicas id_lt id_cmp id_eq validate_replica bad_replica check_probe misfit active_misfit
    backoff_misfit pending_misfit terminal_misfit planned_stopped drained valid_name valid_text
    is_digest starts_with_char ends_with_char Text.bytes Text.len text_cmp text_eq
starts_of_crash = refl

begin_start_eligible_example :
    (any (λ j. id_eq j app_1) (eligible_starts stack 5_000) ≡ true)
    × ((r : ReplicaRuntime) × (find app_1 stack.replicas ≡ some r)
        × ((q : ReplicaRuntime) × (find app_1
                (begin_start hashing stack app_1 some_digest 5_000).1.replicas
              ≡ some q)
            × HasBegun some_digest r q))
    × (is_digest some_digest ≡ true)
    × (stack.observed_at_ms ≤ 5_000)
unfolding call run_calls starts begin_start mark_running mark_exit start_step may_start running_step
    exit_step on_replica finish refresh find replace eligible_starts runs finish_replica
    wants_restart final_phase restart_backoff_ms backoff_base validate bad_identity computed_sha256
    check_replicas id_lt id_cmp id_eq validate_replica bad_replica check_probe misfit active_misfit
    backoff_misfit pending_misfit terminal_misfit planned_stopped drained valid_name valid_text
    is_digest starts_with_char ends_with_char Text.bytes Text.len text_cmp text_eq
begin_start_eligible_example = begin_start_eligible hashing stack app_1 some_digest 5_000 1 refl
