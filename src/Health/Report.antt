-- ===== src/Health/Report.antt =====
-- The data of crates/cartridge-engine/src/health.rs, and the status of a stack in lib.rs beside it.
use cartridge_runtime.Prelude.{ℕ, Option}
use cartridge_runtime.Prelude.Text.{Text}
use cartridge_runtime.Supervisor.Types

abbrev pub engine_health_format_version : ℕ
engine_health_format_version = 2

abbrev pub supervisor_stale_after_ms : ℕ
supervisor_stale_after_ms = 20_000

abbrev pub max_engine_health_reports : ℕ
max_engine_health_reports = 64

pub data EngineStackState : Type 0 where
  applied stopped removed : EngineStackState

pub record StackStatus : Type 0 where
  pub stack : Text
  pub revision : ℕ
  pub state : EngineStackState
  pub plan_sha256 : Option Text
  pub instance_count : ℕ
  pub desired_replicas : ℕ
  pub event_sha256 : Text

pub data StackHealthState : Type 0 where
  healthy starting degraded failed completed stopped removed stale : StackHealthState

pub record StackHealthReport : Type 0 where
  pub format_version : ℕ
  pub stack : Text
  pub revision : ℕ
  pub desired_state : EngineStackState
  pub state : StackHealthState
  pub observed_at_ms : ℕ
  pub runtime_observed_at_ms : Option ℕ
  pub desired_replicas : ℕ
  pub replicas_total : ℕ
  pub pending : ℕ
  pub starting : ℕ
  pub running : ℕ
  pub backoff : ℕ
  pub succeeded : ℕ
  pub failed : ℕ
  pub exhausted : ℕ
  pub stopped : ℕ
  pub probe_waiting : ℕ
  pub probe_ready : ℕ
  pub probe_unhealthy : ℕ
  pub report_sha256 : Text

pub data Error : Type 0 where
  status_invalid time_invalid desired_overflow other_generation total_overflow count_overflow :
      Error
  probe_overflow report_invalid too_many unsorted not_encoded : Error
  runtime_invalid : Types.Error → Error

-- The hexadecimal SHA-256 of the JSON of a report, which the encoder may refuse.
abbrev pub ReportDigest : Type 0
ReportDigest = StackHealthReport → Option Text
