-- ===== src/Supervisor/Probes.antt =====
-- The signals of probes and their timeouts, crates/cartridge-engine/src/supervisor.rs.
use cartridge_runtime.Prelude.{
  ℕ, ◌+◌, Bool, false, not, ◌||◌, Option, none, some, ltb, leb, if◌then◌else◌,
}
use cartridge_runtime.Prelude.Text.{Text, text_eq}
use cartridge_runtime.Prelude.Words.{u16_mod}
use cartridge_runtime.Prelude.Results.{ok, err}
use cartridge_runtime.Supervisor.Types.{
  ReplicaId, ReplicaPhase, ProbePhase, ReplicaProbeRuntime, ReplicaRuntime, StackRuntimeStatus,
  ProbeSignalKind, Result, Hashing, time_backwards, stale_signal, no_probe, replayed,
  failure_overflow, failure_limit, stale_timeout, max_probe_failure_threshold,
}
use cartridge_runtime.Supervisor.Validate.{is_active}
use cartridge_runtime.Supervisor.Change.{on_replica}

-- `replica.run_id.as_deref() == Some(run_id)`
unfoldable pub runs : Text → Option Text → Bool
runs run none = false
runs run (some current) = text_eq current run

-- The probe with one more failure: its phase changes, and its time of readiness goes, before the
-- counter is checked.
unfoldable pub failed_probe : ReplicaProbeRuntime → Result ℕ × ReplicaProbeRuntime
failed_probe p =
    let q = record p { phase = ProbePhase.unhealthy; ready_at_ms = none } in
    if not (ltb (p.consecutive_failures + 1) u16_mod)
    then (err failure_overflow, q)
    else if ltb max_probe_failure_threshold (p.consecutive_failures + 1)
    then (err failure_limit, record q { consecutive_failures = p.consecutive_failures + 1 })
    else (
      ok (p.consecutive_failures + 1),
      record q { consecutive_failures = p.consecutive_failures + 1 },
    )

-- The replica with what became of its probe.
unfoldable pub put_probe {ℓ} :
    {A : Type ℓ} → ReplicaRuntime → Result A × ReplicaProbeRuntime → Result A × ReplicaRuntime
put_probe r (a, p) = (a, record r { probe = some p })

abbrev pub forget {ℓ} :
    {A : Type ℓ} → Result A × ReplicaRuntime → Result (Unit {0}) × ReplicaRuntime
forget (ok a, r) = (ok tt, r)
forget (err e, r) = (err e, r)

-- The signal on a probe whose sequence number and time it has set.
unfoldable pub signal_kind :
    ProbeSignalKind → ℕ → ReplicaRuntime → ReplicaProbeRuntime → Result (Unit {0}) × ReplicaRuntime
unfolding failed_probe put_probe
signal_kind ProbeSignalKind.started now r p = (ok tt, record r { probe = some p })
signal_kind ProbeSignalKind.heartbeat now r p = (ok tt, record r { probe = some p })
signal_kind ProbeSignalKind.ready now r p = (
  ok tt,
  record r {
    probe =
        some
          (record p { phase = ProbePhase.ready; ready_at_ms = some now; consecutive_failures = 0 });
    phase = ReplicaPhase.running;
  },
)
signal_kind ProbeSignalKind.unhealthy now r p = forget (put_probe r (failed_probe p))

unfoldable pub signal_probe :
    ℕ
    → ProbeSignalKind
    → ℕ
    → ReplicaRuntime
    → Option ReplicaProbeRuntime
    → Result (Unit {0}) × ReplicaRuntime
unfolding signal_kind
signal_probe sequence kind now r none = (err no_probe, r)
signal_probe sequence kind now r (some p) =
    if leb sequence p.last_sequence
    then (err replayed, r)
    else signal_kind kind now r
        (record p { last_sequence = sequence; last_signal_at_ms = some now })

unfoldable pub signal_step :
    Text → ℕ → ProbeSignalKind → ℕ → ReplicaRuntime → Result (Unit {0}) × ReplicaRuntime
unfolding runs signal_probe
signal_step run sequence kind now r =
    if not (is_active r.phase) || not (runs run r.run_id)
    then (err stale_signal, r)
    else signal_probe sequence kind now r r.probe

unfoldable pub mark_probe_signal :
    Hashing
    → StackRuntimeStatus
    → ReplicaId
    → Text
    → ℕ
    → ProbeSignalKind
    → ℕ
    → Result (Unit {0}) × StackRuntimeStatus
unfolding signal_step on_replica
mark_probe_signal h s id run sequence kind now =
    on_replica h s id now (ltb now s.observed_at_ms) time_backwards
      (signal_step run sequence kind now)

unfoldable pub timeout_probe :
    ReplicaRuntime → Option ReplicaProbeRuntime → Result ℕ × ReplicaRuntime
unfolding failed_probe put_probe
timeout_probe r none = (err no_probe, r)
timeout_probe r (some p) = put_probe r (failed_probe p)

unfoldable pub timeout_step : Text → ReplicaRuntime → Result ℕ × ReplicaRuntime
unfolding runs timeout_probe
timeout_step run r =
    if not (is_active r.phase) || not (runs run r.run_id)
    then (err stale_timeout, r)
    else timeout_probe r r.probe

unfoldable pub mark_probe_timeout :
    Hashing → StackRuntimeStatus → ReplicaId → Text → ℕ → Result ℕ × StackRuntimeStatus
unfolding timeout_step on_replica
mark_probe_timeout h s id run now =
    on_replica h s id now (ltb now s.observed_at_ms) time_backwards (timeout_step run)
