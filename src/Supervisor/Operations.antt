-- ===== src/Supervisor/Operations.antt =====
-- The operations of `StackRuntimeStatus`, crates/cartridge-engine/src/supervisor.rs. An operation on
-- `&mut self` returns its result and the status that it leaves, the status beside an error too.
pub mod Finish
pub mod Calls
pub mod Attempts
pub mod Outcomes
pub mod Checks
pub mod Steps
mod Examples
use cartridge_runtime.Prelude.{
  ℕ, ◌+◌, ◌-◌, ◌*◌, ◌/◌, ◌%◌, ◌^◌, Bool, true, false, not, ◌&&◌, ◌||◌, Option, none, some, List, [],
  ◌∷◌, ltb, leb, ◌==◌, is_some, is_some_and, if◌then◌else◌,
}
use Prim.Native.Nat.{min}
use cartridge_runtime.Prelude.Text.{Text, text_eq}
use cartridge_runtime.Prelude.Text
use cartridge_runtime.Prelude.Words.{u16_mod, checked_add, saturating_add}
use cartridge_runtime.Prelude.Results.{ok, err, reject, ok_or, ◌>>=◌, ◌>>◌}
use cartridge_runtime.Supervisor.Names.{valid_text, is_digest}
use cartridge_runtime.Supervisor.Types.{
  ReplicaId, ReplicaPhase, ProbePhase, ReplicaProbeRuntime, ReplicaRuntime, StackRuntimeStatus,
  ProbeSignalKind, RestartPolicy, Error, Result, Hashing, run_identity, not_eligible,
  attempt_overflow, budget_exhausted, time_backwards, stale_start, probe_gated, stale_signal,
  no_probe, replayed, failure_overflow, failure_limit, stale_timeout, exit_detail, stale_exit,
  stale_drain, unknown_replica, min_restart_backoff_ms, max_restart_backoff_ms,
  max_probe_failure_threshold,
}
use cartridge_runtime.Supervisor.Validate.{
  validate, computed_sha256, id_eq, is_active, is_ready, is_starting, is_stopped, wants_running,
  drained_detail, attempts_allowed,
}
unfoldable pub use cartridge_runtime.Supervisor.Change.{
  backoff_base, restart_backoff_ms, wants_restart, final_phase, finish_replica, refresh, find,
  replace, finish, with_replica, settle, on_found, on_replica,
}
unfoldable pub use cartridge_runtime.Supervisor.Probes.{
  runs, failed_probe, put_probe, forget, signal_kind, signal_probe, signal_step, mark_probe_signal,
  timeout_probe, timeout_step, mark_probe_timeout,
}

-- The test of the phase in `eligible_starts`: `Pending`, or `Backoff` with its time come.
abbrev pub is_due : ℕ → ReplicaPhase → Option ℕ → Bool
is_due now ReplicaPhase.pending next = true
is_due now ReplicaPhase.backoff next = is_some_and next (λ deadline. leb deadline now)
is_due now _ next = false

pub is_eligible : ℕ → ReplicaRuntime → Bool
is_eligible now r = wants_running r.desired && is_due now r.phase r.next_start_at_ms

pub eligible_ids : ℕ → List ReplicaRuntime → List ReplicaId
eligible_ids now [] = []
eligible_ids now (r ∷ rs) =
    let rest = eligible_ids now rs in if is_eligible now r then r.id ∷ rest else rest

pub eligible_starts : StackRuntimeStatus → ℕ → List ReplicaId
unfolding eligible_ids is_eligible
eligible_starts s now = eligible_ids now s.replicas

abbrev pub waiting_probe : ReplicaProbeRuntime
waiting_probe = record {
  phase = ProbePhase.waiting;
  last_sequence = 0;
  last_signal_at_ms = none;
  ready_at_ms = none;
  consecutive_failures = 0;
}

-- A probe, if there is one, starts over.
abbrev pub reset_probe : Option ReplicaProbeRuntime → Option ReplicaProbeRuntime
reset_probe none = none
reset_probe (some p) = some waiting_probe

-- `eligible` of `begin_start`, which tests the phase once more.
unfoldable pub may_start : ℕ → ReplicaPhase → Option ℕ → Bool
may_start now ReplicaPhase.pending next = true
may_start now ReplicaPhase.backoff next = is_some_and next (λ deadline. leb deadline now)
may_start now _ next = false

pub start_step : Text → ℕ → ReplicaRuntime → Result ℕ × ReplicaRuntime
unfolding may_start
start_step run now r =
    if not (may_start now r.phase r.next_start_at_ms) || not (wants_running r.desired)
    then (err not_eligible, r)
    else if not (ltb (r.attempt + 1) u16_mod)
    then (err attempt_overflow, r)
    else if ltb (attempts_allowed r.max_restarts) (r.attempt + 1)
    then (err budget_exhausted, r)
    else (
      ok (r.attempt + 1),
      record r {
        attempt = r.attempt + 1;
        phase = ReplicaPhase.starting;
        run_id = some run;
        started_at_ms = some now;
        finished_at_ms = none;
        next_start_at_ms = none;
        last_exit_code = none;
        detail = none;
        probe = reset_probe r.probe;
      },
    )

pub begin_start :
    Hashing → StackRuntimeStatus → ReplicaId → Text → ℕ → Result ℕ × StackRuntimeStatus
unfolding start_step on_replica
begin_start h s id run now =
    on_replica h s id now (not (is_digest run) || ltb now s.observed_at_ms) run_identity
      (start_step run now)

pub running_step : Text → ReplicaRuntime → Result (Unit {0}) × ReplicaRuntime
unfolding runs
running_step run r =
    if not (is_starting r.phase) || not (runs run r.run_id)
    then (err stale_start, r)
    else if is_some r.probe
    then (err probe_gated, r)
    else (ok tt, record r { phase = ReplicaPhase.running })

pub mark_running :
    Hashing → StackRuntimeStatus → ReplicaId → Text → ℕ → Result (Unit {0}) × StackRuntimeStatus
unfolding running_step on_replica
mark_running h s id run now =
    on_replica h s id now (ltb now s.observed_at_ms) time_backwards (running_step run)

-- `is_none_or` the phase of the probe is `Ready`.
probe_is_ready : Option ReplicaProbeRuntime → Bool
probe_is_ready none = true
probe_is_ready (some p) = is_ready p.phase

pub probe_ready : StackRuntimeStatus → ReplicaId → Bool
unfolding find probe_is_ready
probe_ready s id = is_some_and (find id s.replicas) (λ r. probe_is_ready r.probe)

pub exit_step :
    Hashing
    → Text
    → Bool
    → Option ℕ
    → Text
    → ℕ
    → ReplicaRuntime
    → Result (Unit {0}) × ReplicaRuntime
unfolding runs finish_replica
exit_step h run success exit_code detail now r =
    if not (is_active r.phase) || not (runs run r.run_id)
    then (err stale_exit, r)
    else (ok tt, finish_replica h r success exit_code detail now)

pub mark_exit :
    Hashing
    → StackRuntimeStatus
    → ReplicaId
    → Text
    → Bool
    → Option ℕ
    → Text
    → ℕ
    → Result (Unit {0}) × StackRuntimeStatus
unfolding exit_step on_replica
mark_exit h s id run success exit_code detail now =
    on_replica h s id now (not (valid_text detail 512 false) || ltb now s.observed_at_ms)
      exit_detail (exit_step h run success exit_code detail now)

-- `replica.run_id.as_deref() != run_id`
unfoldable pub runs_as : Option Text → Option Text → Bool
unfolding runs
runs_as none none = true
runs_as none (some current) = false
runs_as (some run) current = runs run current

-- `active != run_id.is_some()`
abbrev differ : Bool → Bool → Bool
differ true b = not b
differ false b = b

pub drain_step : Option Text → ℕ → ReplicaRuntime → Result (Unit {0}) × ReplicaRuntime
unfolding runs_as
drain_step run now r =
    if not (wants_running r.desired)
      || is_stopped r.phase
      || differ (is_active r.phase) (is_some run)
      || (is_active r.phase && not (runs_as run r.run_id))
    then (err stale_drain, r)
    else (
      ok tt,
      record r {
        phase = ReplicaPhase.stopped;
        run_id = none;
        finished_at_ms = some now;
        next_start_at_ms = none;
        last_exit_code = none;
        detail = some drained_detail;
      },
    )

pub mark_drained :
    Hashing
    → StackRuntimeStatus
    → ReplicaId
    → Option Text
    → ℕ
    → Result (Unit {0}) × StackRuntimeStatus
unfolding drain_step on_replica
mark_drained h s id run now =
    on_replica h s id now (ltb now s.observed_at_ms) time_backwards (drain_step run now)

abbrev pub interrupted_detail : Text
interrupted_detail = Text.text "previous supervisor exited before the worker"

-- The loop of `recover_interrupted`.
pub recover : Hashing → ℕ → List ReplicaRuntime → ℕ × List ReplicaRuntime
unfolding finish_replica
recover h now [] = (0, [])
recover h now (r ∷ rs) =
    let rest = recover h now rs in
    if is_active r.phase
    then (rest.0 + 1, finish_replica h r false none interrupted_detail now ∷ rest.1)
    else (rest.0, r ∷ rest.1)

pub recover_interrupted : Hashing → StackRuntimeStatus → ℕ → Result ℕ × StackRuntimeStatus
unfolding recover finish
recover_interrupted h s now =
    let found = recover h now s.replicas in
    if ltb now s.observed_at_ms
    then (err time_backwards, s)
    else if ltb 0 found.0
    then finish h (record s { replicas = found.1 }) now found.0
    else (ok found.0, s)

pub heartbeat : Hashing → StackRuntimeStatus → ℕ → Result (Unit {0}) × StackRuntimeStatus
unfolding finish
heartbeat h s now = if ltb now s.observed_at_ms then (err time_backwards, s) else finish h s now tt
