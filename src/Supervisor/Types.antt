-- ===== src/Supervisor/Types.antt =====
-- The data of crates/cartridge-engine/src/supervisor.rs, and the enums of lib.rs beside it that it
-- uses. An `i32` exit code is its 32-bit pattern.
use cartridge_runtime.Prelude.{ℕ, Option, List}
use cartridge_runtime.Prelude.Text.{Text}
use cartridge_runtime.Prelude.Results

abbrev pub supervisor_status_format_version : ℕ
supervisor_status_format_version = 2

abbrev pub legacy_supervisor_status_format_version : ℕ
legacy_supervisor_status_format_version = 1

abbrev pub max_restart_backoff_ms : ℕ
max_restart_backoff_ms = 30_000

abbrev pub min_restart_backoff_ms : ℕ
min_restart_backoff_ms = 250

abbrev pub max_stack_total_replicas : ℕ
max_stack_total_replicas = 256

abbrev pub max_stack_instances : ℕ
max_stack_instances = 64

abbrev pub max_stack_restarts : ℕ
max_stack_restarts = 64

abbrev pub max_probe_failure_threshold : ℕ
max_probe_failure_threshold = 10

pub data DesiredState : Type 0 where
  running stopped : DesiredState

pub data RestartPolicy : Type 0 where
  never on_failure always : RestartPolicy

pub data ProbeSignalKind : Type 0 where
  started ready heartbeat unhealthy : ProbeSignalKind

pub record ReplicaId : Type 0 where
  pub instance_name : Text
  pub ordinal : ℕ

pub data ReplicaPhase : Type 0 where
  pending starting running backoff succeeded failed exhausted stopped : ReplicaPhase

pub data ProbePhase : Type 0 where
  waiting ready unhealthy : ProbePhase

pub record ReplicaProbeRuntime : Type 0 where
  pub phase : ProbePhase
  pub last_sequence : ℕ
  pub last_signal_at_ms : Option ℕ
  pub ready_at_ms : Option ℕ
  pub consecutive_failures : ℕ

pub record ReplicaRuntime : Type 0 where
  pub id : ReplicaId
  pub desired : DesiredState
  pub restart : RestartPolicy
  pub max_restarts : ℕ
  pub attempt : ℕ
  pub phase : ReplicaPhase
  pub run_id : Option Text
  pub started_at_ms : Option ℕ
  pub finished_at_ms : Option ℕ
  pub next_start_at_ms : Option ℕ
  pub last_exit_code : Option ℕ
  pub detail : Option Text
  pub probe : Option ReplicaProbeRuntime

pub record StackRuntimeStatus : Type 0 where
  pub format_version : ℕ
  pub stack : Text
  pub revision : ℕ
  pub generation : Text
  pub observed_at_ms : ℕ
  pub replicas : List ReplicaRuntime
  pub status_sha256 : Text

pub data Error : Type 0 where
  generation_invalid identity_invalid replica_invalid not_sorted phase_fields probe_state : Error
  run_identity not_eligible attempt_overflow budget_exhausted time_backwards stale_start : Error
  probe_gated stale_signal no_probe replayed failure_overflow failure_limit stale_timeout : Error
  exit_detail stale_exit stale_drain unknown_replica not_encoded : Error

abbrev pub Result {ℓ} : Type ℓ → Type ℓ
Result A = Results.Result Error A

-- What third-party code computes: the hexadecimal SHA-256 of the JSON of a status, which the encoder
-- may refuse, and the first two bytes, as a little-endian number, of the SHA-256 of a replica and its
-- attempt.
pub record Hashing : Type 0 where
  pub status_digest : StackRuntimeStatus → Option Text
  pub start_word : ReplicaId → ℕ → ℕ
