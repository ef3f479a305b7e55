-- ===== src/Supervisor/Operations/Finish.antt =====
-- The end of a run: how long a replica waits to start again, and that it ends in a valid state.
use cartridge_runtime.Prelude.{
  ℕ, zero, suc, ◌+◌, ◌-◌, ◌^◌, ◌≤◌, ◌<◌, ◌≡◌, Bool, true, false, ◌&&◌, Option, none, some, arith,
  ltb, if◌then◌else◌, is_some, ◌==◌,
}
use Prim.Native.Nat.{min}
use cartridge_runtime.Prelude.Text.{Text}
use cartridge_runtime.Prelude.Words.{u64_max}
use cartridge_runtime.Prelude.Results.{ok}
use cartridge_runtime.Supervisor.Names.{valid_text}
use cartridge_runtime.Supervisor.Types.{
  ReplicaId, ReplicaPhase, ReplicaProbeRuntime, ReplicaRuntime, Hashing,
}
use cartridge_runtime.Supervisor.Validate.{
  both, is_active, wants_running, bad_replica, misfit, check_probe, validate_replica, active_misfit,
  backoff_misfit, terminal_misfit, planned_stopped, validate_probe_runtime, attempts_allowed,
}
use cartridge_runtime.Supervisor.Operations.{
  backoff_base, restart_backoff_ms, wants_restart, final_phase, finish_replica, is_eligible,
}

pow_pos : (k : ℕ) → 1 ≤ 2 ^ k
pow_pos zero = omega arith
pow_pos (suc k) = omega (arith, pow_pos k)

-- The wait before a restart is at least that of the attempt, which is at least 250 ms, and at most
-- 30 s.
pub restart_backoff_ms_bounds :
    (h : Hashing) (id : ReplicaId) (attempt : ℕ)
    → (250 ≤ backoff_base attempt)
      × (backoff_base attempt ≤ restart_backoff_ms h id attempt)
      × (restart_backoff_ms h id attempt ≤ 30_000)
unfolding backoff_base restart_backoff_ms
restart_backoff_ms_bounds h id attempt = ground (arith, pow_pos (min (attempt - 1) 7))

-- The parts of `validate_replica`.
pub validate_replica_parts :
    (r : ReplicaRuntime)
    → validate_replica r ≡ ok tt
    → (bad_replica r ≡ false) × (check_probe r.probe r.phase ≡ ok tt) × (misfit r ≡ false)
unfolding validate_replica
validate_replica_parts r h = ground arith

pub of_validate_replica_parts :
    (r : ReplicaRuntime)
    → bad_replica r ≡ false
    → check_probe r.probe r.phase ≡ ok tt
    → misfit r ≡ false
    → validate_replica r ≡ ok tt
unfolding validate_replica
of_validate_replica_parts r b c m = ground arith

-- The phase that an ended replica has.
abbrev end_phase : ReplicaRuntime → Bool → ReplicaPhase
end_phase r success =
    if wants_restart r.restart success && ltb r.attempt (attempts_allowed r.max_restarts)
    then ReplicaPhase.backoff
    else final_phase (wants_restart r.restart success) success

end_phase_idle : (r : ReplicaRuntime) (success : Bool) → is_active (end_phase r success) ≡ false
unfolding wants_restart final_phase
end_phase_idle r success = ground arith

pub check_probe_idle :
    (o : Option ReplicaProbeRuntime) (phase after : ReplicaPhase)
    → check_probe o phase ≡ ok tt
    → is_active after ≡ false
    → check_probe o after ≡ ok tt
unfolding check_probe validate_probe_runtime
check_probe_idle none phase after h i = ground arith
check_probe_idle (some p) phase after h i = ground arith

module _ (h : Hashing) (r : ReplicaRuntime) (success : Bool) (exit_code : Option ℕ) (detail : Text)
    (now : ℕ) where
  finish_replica_good :
      bad_replica r ≡ false
      → valid_text detail 512 false ≡ true
      → bad_replica (finish_replica h r success exit_code detail now) ≡ false
  unfolding bad_replica finish_replica
  finish_replica_good b t = ground arith

  -- What the checks of an active replica leave for the end of its run.
  active_facts :
      is_active r.phase ≡ true
      → misfit r ≡ false
      → ((r.attempt == 0) ≡ false)
        × (is_some r.started_at_ms ≡ true)
        × (wants_running r.desired ≡ true)
  unfolding misfit active_misfit planned_stopped
  active_facts a m = ground arith

  finish_replica_fits :
      is_active r.phase ≡ true
      → misfit r ≡ false
      → both (some now) r.started_at_ms (λ finished started. ltb finished started) ≡ false
      → now < u64_max
      → misfit (finish_replica h r success exit_code detail now) ≡ false
  unfolding misfit backoff_misfit terminal_misfit finish_replica wants_restart final_phase
  finish_replica_fits a m s n =
      ground (arith, active_facts a m, restart_backoff_ms_bounds h r.id r.attempt)

  finish_replica_probe :
      check_probe r.probe r.phase ≡ ok tt
      → check_probe
          (finish_replica h r success exit_code detail now).probe
          (finish_replica h r success exit_code detail now).phase
        ≡ ok tt
  unfolding finish_replica
  finish_replica_probe c =
      check_probe_idle r.probe r.phase (end_phase r success) c (end_phase_idle r success)

  -- An active replica that passes the checks passes them after the end of its run, if its detail is a
  -- valid text, it did not start later and the time is below 2^64 - 1.
  pub finish_replica_valid :
      validate_replica r ≡ ok tt
      → is_active r.phase ≡ true
      → valid_text detail 512 false ≡ true
      → both (some now) r.started_at_ms (λ finished started. ltb finished started) ≡ false
      → now < u64_max
      → validate_replica (finish_replica h r success exit_code detail now) ≡ ok tt
  finish_replica_valid v a t s n =
      let (b, c, m) = validate_replica_parts r v in
      of_validate_replica_parts (finish_replica h r success exit_code detail now)
        (finish_replica_good b t) (finish_replica_probe c) (finish_replica_fits a m s n)

  -- A replica whose run has ended does not start again within the wait of its attempt.
  pub finish_replica_waits :
      (later : ℕ)
      → now + 30_000 < u64_max
      → is_eligible later (finish_replica h r success exit_code detail now) ≡ true
      → now + backoff_base r.attempt ≤ later
  unfolding is_eligible finish_replica final_phase
  finish_replica_waits later n e = ground (arith, e, restart_backoff_ms_bounds h r.id r.attempt)

  -- A replica whose run has ended may start again 30 s later exactly if the plan wants it running,
  -- its policy wants a restart after such an end and it has an attempt left.
  pub finish_replica_eligible :
      now + 30_000 < u64_max
      → is_eligible (now + 30_000) (finish_replica h r success exit_code detail now) ≡ (
          wants_running r.desired
          && wants_restart r.restart success
          && ltb r.attempt (attempts_allowed r.max_restarts))
  unfolding is_eligible finish_replica final_phase
  finish_replica_eligible n = ground (arith, restart_backoff_ms_bounds h r.id r.attempt)
