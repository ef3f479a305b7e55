-- ===== src/Supervisor/Operations/Checks.antt =====
-- The checks of a replica, one after the other, after the step of an operation.
use cartridge_runtime.Prelude.{ℕ, ◌≡◌, refl, Bool, true, false, Option, none, some, arith, ltb}
use cartridge_runtime.Prelude.Text.{Text, text_eq_iff}
use cartridge_runtime.Prelude.Results.{ok}
use cartridge_runtime.Supervisor.Names.{valid_text, is_digest}
use cartridge_runtime.Supervisor.Types.{
  ReplicaPhase, ReplicaProbeRuntime, ReplicaRuntime, ProbeSignalKind,
}
use cartridge_runtime.Supervisor.Validate.{
  both, bad_replica, misfit, check_probe, active_misfit, backoff_misfit, pending_misfit,
  terminal_misfit, planned_stopped, drained, validate_probe_runtime, is_pristine, drained_detail,
}
use cartridge_runtime.Supervisor.Operations.{
  start_step, running_step, signal_step, timeout_step, drain_step, signal_probe, signal_kind,
  timeout_probe, failed_probe, put_probe,
}
use cartridge_runtime.Supervisor.Operations.Finish.{check_probe_idle}

-- A probe has had a signal.
abbrev pub has_signalled : Option ReplicaProbeRuntime → Bool
has_signalled none = true
has_signalled (some p) = ltb 0 p.last_sequence

abbrev pub ready_time : Option ReplicaProbeRuntime → Option ℕ
ready_time none = none
ready_time (some p) = p.ready_at_ms

-- The parts of the checks, one after the other.
pub start_step_good :
    (run : Text) (now a : ℕ) (r : ReplicaRuntime)
    → bad_replica r ≡ false
    → (start_step run now r).0 ≡ ok a
    → bad_replica (start_step run now r).1 ≡ false
unfolding start_step bad_replica
start_step_good run now a r b h = ground (arith, b, h)

pub start_step_probe :
    (run : Text) (now a : ℕ) (r : ReplicaRuntime)
    → (start_step run now r).0 ≡ ok a
    → check_probe (start_step run now r).1.probe (start_step run now r).1.phase ≡ ok tt
unfolding start_step check_probe validate_probe_runtime is_pristine
start_step_probe run now a r h = ground (arith, h)

pub start_step_fits :
    (run : Text) (now a : ℕ) (r : ReplicaRuntime)
    → is_digest run ≡ true
    → (start_step run now r).0 ≡ ok a
    → misfit (start_step run now r).1 ≡ false
unfolding start_step misfit active_misfit
start_step_fits run now a r d h = ground (arith, d, h)

pub running_step_good :
    (run : Text) (r : ReplicaRuntime)
    → bad_replica r ≡ false
    → bad_replica (running_step run r).1 ≡ false
unfolding running_step bad_replica
running_step_good run r b = ground (arith, b)

pub running_step_probe :
    (run : Text) (r : ReplicaRuntime)
    → (running_step run r).0 ≡ ok tt
    → check_probe (running_step run r).1.probe (running_step run r).1.phase ≡ ok tt
unfolding running_step check_probe
running_step_probe run r h = ground (arith, h)

pub running_step_fits :
    (run : Text) (r : ReplicaRuntime)
    → misfit r ≡ false
    → (running_step run r).0 ≡ ok tt
    → misfit (running_step run r).1 ≡ false
unfolding running_step misfit active_misfit planned_stopped drained
running_step_fits run r m h = ground (arith, m, h)

pub drain_step_good :
    (run : Option Text) (now : ℕ) (r : ReplicaRuntime)
    → bad_replica r ≡ false
    → bad_replica (drain_step run now r).1 ≡ false
unfolding drain_step bad_replica valid_text
drain_step_good run now r b = ground (arith, b)

pub drain_step_probe :
    (run : Option Text) (now : ℕ) (r : ReplicaRuntime)
    → check_probe r.probe r.phase ≡ ok tt
    → (drain_step run now r).0 ≡ ok tt
    → check_probe (drain_step run now r).1.probe (drain_step run now r).1.phase ≡ ok tt
unfolding drain_step
drain_step_probe run now r c h =
    let low = check_probe_idle r.probe r.phase ReplicaPhase.stopped c refl in ground (arith, low, h)

pub drain_step_fits :
    (run : Option Text) (now : ℕ) (r : ReplicaRuntime)
    → misfit r ≡ false
    → both (some now) r.started_at_ms (λ finished started. ltb finished started) ≡ false
    → (drain_step run now r).0 ≡ ok tt
    → misfit (drain_step run now r).1 ≡ false
unfolding drain_step misfit active_misfit backoff_misfit pending_misfit terminal_misfit
    planned_stopped drained
drain_step_fits run now r m t h =
    ground (arith, m, t, h, (text_eq_iff drained_detail drained_detail).1 refl)

pub signal_step_good :
    (run : Text) (sequence now : ℕ) (kind : ProbeSignalKind) (r : ReplicaRuntime)
    → bad_replica r ≡ false
    → (signal_step run sequence kind now r).0 ≡ ok tt
    → bad_replica (signal_step run sequence kind now r).1 ≡ false
unfolding signal_step signal_probe signal_kind failed_probe put_probe bad_replica
signal_step_good run sequence now kind r b h = ground (arith, b, h)

pub signal_step_probe :
    (run : Text) (sequence now : ℕ) (kind : ProbeSignalKind) (r : ReplicaRuntime)
    → check_probe r.probe r.phase ≡ ok tt
    → both (some now) (ready_time r.probe) (λ signal ready. ltb signal ready) ≡ false
    → (signal_step run sequence kind now r).0 ≡ ok tt
    → check_probe
        (signal_step run sequence kind now r).1.probe
        (signal_step run sequence kind now r).1.phase
      ≡ ok tt
unfolding signal_step signal_probe signal_kind failed_probe put_probe check_probe
    validate_probe_runtime is_pristine
signal_step_probe run sequence now kind r c t h = ground (arith, c, t, h)

pub signal_step_fits :
    (run : Text) (sequence now : ℕ) (kind : ProbeSignalKind) (r : ReplicaRuntime)
    → misfit r ≡ false
    → (signal_step run sequence kind now r).0 ≡ ok tt
    → misfit (signal_step run sequence kind now r).1 ≡ false
unfolding signal_step signal_probe signal_kind failed_probe put_probe misfit active_misfit
    planned_stopped drained
signal_step_fits run sequence now kind r m h = ground (arith, m, h)

pub timeout_step_good :
    (run : Text) (a : ℕ) (r : ReplicaRuntime)
    → bad_replica r ≡ false
    → (timeout_step run r).0 ≡ ok a
    → bad_replica (timeout_step run r).1 ≡ false
unfolding timeout_step timeout_probe failed_probe put_probe bad_replica
timeout_step_good run a r b h = ground (arith, b, h)

pub timeout_step_probe :
    (run : Text) (a : ℕ) (r : ReplicaRuntime)
    → check_probe r.probe r.phase ≡ ok tt
    → has_signalled r.probe ≡ true
    → (timeout_step run r).0 ≡ ok a
    → check_probe (timeout_step run r).1.probe (timeout_step run r).1.phase ≡ ok tt
unfolding timeout_step timeout_probe failed_probe put_probe check_probe validate_probe_runtime
    is_pristine
timeout_step_probe run a r c s h = ground (arith, c, s, h)

pub timeout_step_fits :
    (run : Text) (a : ℕ) (r : ReplicaRuntime)
    → misfit r ≡ false
    → (timeout_step run r).0 ≡ ok a
    → misfit (timeout_step run r).1 ≡ false
unfolding timeout_step timeout_probe failed_probe put_probe misfit active_misfit planned_stopped
    drained
timeout_step_fits run a r m h = ground (arith, m, h)
