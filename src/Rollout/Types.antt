-- ===== src/Rollout/Types.antt =====
-- The data of crates/cartridge-engine/src/rollout_progress.rs. A `BTreeSet<u16>` is a list in
-- ascending order, and `String` errors are without their messages.
use cartridge_runtime.Prelude.{ℕ, ◌*◌, ◌+◌, Option, List}
use cartridge_runtime.Prelude.Text.{Text, Bytes}
use cartridge_runtime.Prelude.Map.{Map}
use cartridge_runtime.Prelude.Results
use cartridge_runtime.Rolling
use cartridge_runtime.Rolling.{RollingUpdatePolicy, RollingAction}
use cartridge_runtime.Supervisor.Types.{Hashing, max_stack_total_replicas}
use cartridge_runtime.Supervisor.Types

abbrev pub engine_rollout_progress_format_version : ℕ
engine_rollout_progress_format_version = 1

abbrev pub max_rollout_progress_bytes : ℕ
max_rollout_progress_bytes = 1024 * 1024

abbrev pub max_stack_total_surge_replicas : ℕ
max_stack_total_surge_replicas = 64

abbrev pub max_stack_total_active_replicas : ℕ
max_stack_total_active_replicas = max_stack_total_replicas + max_stack_total_surge_replicas

abbrev pub rollout_stability_window_ms : ℕ
rollout_stability_window_ms = 2_000

pub data RolloutExecutionPhase : Type 0 where
  rolling paused completing rolling_back completed rolled_back : RolloutExecutionPhase

pub record DrainIntent : Type 0 where
  pub requested_at_ms : ℕ
  pub deadline_at_ms : ℕ

pub record RolloutInstanceProgress : Type 0 where
  pub name : Text
  pub previous_replicas : ℕ
  pub candidate_replicas : ℕ
  pub policy : RollingUpdatePolicy
  pub candidate_enabled : List ℕ
  pub previous_draining : Map ℕ DrainIntent

pub record RolloutProgress : Type 0 where
  pub format_version : ℕ
  pub rollout_id : Text
  pub stack : Text
  pub phase : RolloutExecutionPhase
  pub previous_revision : Option ℕ
  pub previous_generation : Option Text
  pub candidate_revision : ℕ
  pub candidate_generation : Text
  pub started_at_ms : ℕ
  pub updated_at_ms : ℕ
  pub last_progress_at_ms : ℕ
  pub action_sequence : ℕ
  pub instances : List RolloutInstanceProgress
  pub progress_sha256 : Text

pub record RolloutProgressAction : Type 0 where
  pub instance_name : Option Text
  pub action : RollingAction

pub data Error : Type 0 where
  identity_invalid not_sorted previous_overflow candidate_overflow surge_overflow : Error
  over_aggregate not_encoded progress_too_large instance_invalid ordinals_invalid : Error
  time_backwards not_rolling start_empty start_invalid drain_empty drain_overflow : Error
  drain_invalid no_instance sequence_overflow bad_transition wrong_generation : Error
  unauthorized no_ready_time active_overflow limit_overflow over_active : Error
  policy : Rolling.Error → Error
  runtime : Types.Error → Error

abbrev pub Result {ℓ} : Type ℓ → Type ℓ
Result A = Results.Result Error A

-- What third-party code computes: the JSON of a progress, which the encoder may refuse, the
-- hexadecimal SHA-256 of bytes, and the hashes of the supervisor.
pub record Encoding : Type 0 where
  pub encode : RolloutProgress → Option Bytes
  pub sha256 : Bytes → Text
  pub hashing : Hashing
