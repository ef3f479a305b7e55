-- ===== src/Supervisor/Operations/Steps.antt =====
-- What the steps of the operations leave of one replica, before the status is checked once more.
use cartridge_runtime.Prelude.{
  ℕ, ◌<◌, ◌≡◌, refl, sym, subst, ◌∙◌, Bool, true, false, Option, some, arith, ltb,
}
use cartridge_runtime.Prelude.Text.{Text}
use cartridge_runtime.Prelude.Words.{u64_max}
use cartridge_runtime.Prelude.Results.{ok, err}
use cartridge_runtime.Supervisor.Names.{valid_text, is_digest}
use cartridge_runtime.Supervisor.Types.{
  ReplicaPhase, ReplicaProbeRuntime, ReplicaRuntime, ProbeSignalKind, Hashing,
}
use cartridge_runtime.Supervisor.Types
use cartridge_runtime.Supervisor.Validate.{both, validate_replica, is_active}
use cartridge_runtime.Supervisor.Operations.{
  start_step, running_step, signal_step, timeout_step, exit_step, drain_step, finish_replica,
}
use cartridge_runtime.Supervisor.Operations.Finish.{
  validate_replica_parts, of_validate_replica_parts, finish_replica_valid,
}
use cartridge_runtime.Supervisor.Operations.Checks.{
  has_signalled, ready_time, start_step_good, start_step_probe, start_step_fits, running_step_good,
  running_step_probe, running_step_fits, drain_step_good, drain_step_probe, drain_step_fits,
  signal_step_good, signal_step_probe, signal_step_fits, timeout_step_good, timeout_step_probe,
  timeout_step_fits,
}

-- What an operation does to the replica that it names.
pub data ReplicaStep : Type 0 where
  starts : Text → ReplicaStep
  gets_running : Text → ReplicaStep
  signals : Text → ℕ → ProbeSignalKind → ReplicaStep
  times_out : Text → ReplicaStep
  exits : Text → Bool → Option ℕ → Text → ReplicaStep
  drains : Option Text → ReplicaStep

abbrev answer {ℓ} :
    {A : Type ℓ} → Types.Result A × ReplicaRuntime → Types.Result (Unit {0}) × ReplicaRuntime
answer (ok a, r) = (ok tt, r)
answer (err e, r) = (err e, r)

-- The step at a time.
abbrev pub replica_step :
    Hashing → ℕ → ReplicaStep → ReplicaRuntime → Types.Result (Unit {0}) × ReplicaRuntime
replica_step h now (starts run) r = answer (start_step run now r)
replica_step h now (gets_running run) r = answer (running_step run r)
replica_step h now (signals run sequence kind) r = answer (signal_step run sequence kind now r)
replica_step h now (times_out run) r = answer (timeout_step run r)
replica_step h now (exits run success code detail) r =
    answer (exit_step h run success code detail now r)
replica_step h now (drains run) r = answer (drain_step run now r)

-- What the operation tests first, and for a timeout that the probe has had a signal.
abbrev pub is_proper : ReplicaStep → ReplicaRuntime → Bool
is_proper (starts run) r = is_digest run
is_proper (gets_running run) r = true
is_proper (signals run sequence kind) r = true
is_proper (times_out run) r = has_signalled r.probe
is_proper (exits run success code detail) r = valid_text detail 512 false
is_proper (drains run) r = true

answer-ok {ℓ} :
    {A : Type ℓ} (t : Types.Result A × ReplicaRuntime)
    → (answer t).0 ≡ ok tt
    → ((a : A) × (t.0 ≡ ok a)) × ((answer t).1 ≡ t.1)
answer-ok (ok a, r) h = ((a, refl), refl)
answer-ok (err e, r) h = cc

exit_step_finish :
    (h : Hashing) (run detail : Text) (success : Bool) (code : Option ℕ) (now : ℕ)
    (r : ReplicaRuntime)
    → (exit_step h run success code detail now r).0 ≡ ok tt
    → (is_active r.phase ≡ true)
      × ((exit_step h run success code detail now r).1 ≡ finish_replica h r success code detail now)
unfolding exit_step
exit_step_finish h run detail success code now r e = (ground (arith, e), ground (arith, e))

-- The step of an operation that does not fail, on a replica that passes its checks, leaves one that
-- passes them, if the run is named by a digest, the detail of an exit is a valid text, a probe that
-- times out has had a signal, and the time is below 2^64 - 1, not before the replica's start, and not
-- before its probe got ready.
pub replica_step_valid :
    (h : Hashing) (now : ℕ) (q : ReplicaStep) (r : ReplicaRuntime)
    → validate_replica r ≡ ok tt
    → is_proper q r ≡ true
    → both (some now) r.started_at_ms (λ finished started. ltb finished started) ≡ false
    → both (some now) (ready_time r.probe) (λ signal ready. ltb signal ready) ≡ false
    → now < u64_max
    → (replica_step h now q r).0 ≡ ok tt
    → validate_replica (replica_step h now q r).1 ≡ ok tt
replica_step_valid h now (starts run) r v d t s n e =
    let (b, c, m) = validate_replica_parts r v in
    let ((a, f), same) = answer-ok (start_step run now r) e in
    subst (λ x. validate_replica x ≡ ok tt) (sym same)
      (of_validate_replica_parts _ (start_step_good run now a r b f)
        (start_step_probe run now a r f) (start_step_fits run now a r d f))
replica_step_valid h now (gets_running run) r v d t s n e =
    let (b, c, m) = validate_replica_parts r v in
    let ((a, f), same) = answer-ok (running_step run r) e in
    subst (λ x. validate_replica x ≡ ok tt) (sym same)
      (of_validate_replica_parts _ (running_step_good run r b) (running_step_probe run r f)
        (running_step_fits run r m f))
replica_step_valid h now (signals run sequence kind) r v d t s n e =
    let (b, c, m) = validate_replica_parts r v in
    let ((a, f), same) = answer-ok (signal_step run sequence kind now r) e in
    subst (λ x. validate_replica x ≡ ok tt) (sym same)
      (of_validate_replica_parts _ (signal_step_good run sequence now kind r b f)
        (signal_step_probe run sequence now kind r c s f)
        (signal_step_fits run sequence now kind r m f))
replica_step_valid h now (times_out run) r v d t s n e =
    let (b, c, m) = validate_replica_parts r v in
    let ((a, f), same) = answer-ok (timeout_step run r) e in
    subst (λ x. validate_replica x ≡ ok tt) (sym same)
      (of_validate_replica_parts _ (timeout_step_good run a r b f)
        (timeout_step_probe run a r c d f) (timeout_step_fits run a r m f))
replica_step_valid h now (exits run success code detail) r v d t s n e =
    let ((a, f), same) = answer-ok (exit_step h run success code detail now r) e in
    let (active, finished) = exit_step_finish h run detail success code now r f in
    subst (λ x. validate_replica x ≡ ok tt) (sym (same ∙ finished))
      (finish_replica_valid h r success code detail now v active d t n)
replica_step_valid h now (drains run) r v d t s n e =
    let (b, c, m) = validate_replica_parts r v in
    let ((a, f), same) = answer-ok (drain_step run now r) e in
    subst (λ x. validate_replica x ≡ ok tt) (sym same)
      (of_validate_replica_parts _ (drain_step_good run now r b) (drain_step_probe run now r c f)
        (drain_step_fits run now r m t f))
