-- ===== src/Rollout/Operations/Calls.antt =====
-- The operations on a progress as one type of requests, and what each leaves of it.
use cartridge_runtime.Prelude.{
  ℕ, ◌≤◌, ◌≡◌, refl, ap, ◌⊎◌, inl, inr, true, false, Option, some, List, arith, is_empty,
  Option-cases,
}
use cartridge_runtime.Prelude.Text.{Text}
use cartridge_runtime.Prelude.Words.{u64_mod, checked_add}
use cartridge_runtime.Prelude.Results.{
  ok, err, reject, ok_or, Result-cases, >>=-eq-ok, >>-eq-ok, reject-ok, ok_or-ok, ok_injective,
}
use cartridge_runtime.Supervisor.Types.{StackRuntimeStatus}
use cartridge_runtime.Rollout.Types.{
  RolloutInstanceProgress, RolloutProgress, RolloutExecutionPhase, Result, Encoding, drain_empty,
  drain_overflow, drain_invalid,
}
use cartridge_runtime.Rollout.Validate.{validate, computed_sha256}
use cartridge_runtime.Rollout.Operations.{
  refresh, mark_progress, ensure_time, ensure_mutable, is_rolling, find, enabled_instance,
  enable_candidate, drained_instance, request_previous_drain, set_phase, heartbeat,
  acknowledge_drained, bad_start, bad_drain, extend,
}

pub data Request : Type 0 where
  enables : Text → List ℕ → Request
  drains : Text → List ℕ → Request
  enters : RolloutExecutionPhase → Request
  beats : Request
  acknowledges : Option StackRuntimeStatus → Request

abbrev pub answer : Result ℕ × RolloutProgress → Result (Unit {0}) × RolloutProgress
answer (ok n, p) = (ok tt, p)
answer (err e, p) = (err e, p)

-- A request at a time.
unfoldable pub call : Encoding → RolloutProgress → ℕ → Request → Result (Unit {0}) × RolloutProgress
call e p now (enables name ordinals) = enable_candidate e p name ordinals now
call e p now (drains name ordinals) = request_previous_drain e p name ordinals now
call e p now (enters next) = set_phase e p next now
call e p now beats = heartbeat e p now
call e p now (acknowledges previous) = answer (acknowledge_drained e p previous now)

-- What the end of an operation keeps of the progress handed to it.
pub record IsMarked (e : Encoding) (p : RolloutProgress) (now : ℕ)
    (t : Result (Unit {0}) × RolloutProgress) : Type 0 where
  pub phase : t.1.phase ≡ p.phase
  pub instances : t.1.instances ≡ p.instances
  pub time : (t.1.updated_at_ms ≡ p.updated_at_ms) ⊎ (t.1.updated_at_ms ≡ now)
  pub sequence : p.action_sequence ≤ t.1.action_sequence
  pub valid : t.0 ≡ ok tt → (validate e t.1 ≡ ok tt) × (t.1.updated_at_ms ≡ now)

pub refresh-IsMarked :
    (e : Encoding) (p : RolloutProgress) → IsMarked e p p.updated_at_ms (refresh e p)
unfolding refresh
refresh-IsMarked e p = elim (Result-cases (computed_sha256 e p)) [
  | inl (fault, c) ↦ simp c (record {
    phase = refl;
    instances = refl;
    time = inl refl;
    sequence = omega arith;
    valid = λ k. cc;
  })
  | inr (digest, c) ↦ simp c (record {
    phase = refl;
    instances = refl;
    time = inl refl;
    sequence = omega arith;
    valid = λ k. (k, refl);
  })
]

pub mark_progress-IsMarked :
    (e : Encoding) (p : RolloutProgress) (now : ℕ) → IsMarked e p now (mark_progress e p now)
unfolding mark_progress
mark_progress-IsMarked e p now = elim (Option-cases (checked_add u64_mod p.action_sequence 1)) [
  | inl c ↦ simp c (record {
    phase = refl;
    instances = refl;
    time = inl refl;
    sequence = omega arith;
    valid = λ k. cc;
  })
  | inr (next, c) ↦ simp c (
      let m =
        refresh-IsMarked e
          (record p { action_sequence = next; updated_at_ms = now; last_progress_at_ms = now }) in
      record {
        phase = m.phase;
        instances = m.instances;
        time = inr (elim m.time [ inl t ↦ t | inr t ↦ t ]);
        sequence = ground (arith, m.sequence, c);
        valid = m.valid;
      })
]

-- What the checks of an operation that needs a rolling phase let through.
pub ensure_mutable_ok :
    (p : RolloutProgress) (now : ℕ)
    → ensure_mutable p now ≡ ok tt
    → (is_rolling p.phase ≡ true) × (p.updated_at_ms ≤ now)
unfolding ensure_mutable ensure_time
ensure_mutable_ok p now h = ground (arith, h)

pub enabled_instance_ok :
    (p : RolloutProgress) (name : Text) (ordinals : List ℕ) (now : ℕ) (j : RolloutInstanceProgress)
    → enabled_instance p name ordinals now ≡ ok j
    → (i : RolloutInstanceProgress) × (ensure_mutable p now ≡ ok tt)
      × (is_empty ordinals ≡ false)
      × (find name p.instances ≡ some i)
      × (bad_start i ordinals ≡ false)
      × (record i { candidate_enabled = extend i.candidate_enabled ordinals } ≡ j)
unfolding enabled_instance
enabled_instance_ok p name ordinals now j h =
    let (mutable, h1) = >>-eq-ok (ensure_mutable p now) _ h in
    let (some_one, h2) = >>-eq-ok _ _ h1 in
    let (i, found, h3) = >>=-eq-ok _ _ h2 in
    let (good, h4) = >>-eq-ok _ _ h3 in
    (i, mutable, reject-ok _ _ some_one, ok_or-ok _ _ found, reject-ok _ _ good, cc)

pub drained_instance_ok :
    (p : RolloutProgress) (name : Text) (ordinals : List ℕ) (now : ℕ) (j : RolloutInstanceProgress)
    → drained_instance p name ordinals now ≡ ok j
    → (i : RolloutInstanceProgress) × (ensure_mutable p now ≡ ok tt)
      × (find name p.instances ≡ some i)
      × (i.candidate_replicas ≡ j.candidate_replicas)
      × (i.candidate_enabled ≡ j.candidate_enabled)
unfolding drained_instance
drained_instance_ok p name ordinals now j h =
    let (mutable, h1) = >>-eq-ok (ensure_mutable p now) _ h in
    let (some_one, h2) = >>-eq-ok (reject (is_empty ordinals) drain_empty) _ h1 in
    let (i, found, h3) = >>=-eq-ok _ _ h2 in
    let (deadline, fits, h4) =
      >>=-eq-ok (ok_or (checked_add u64_mod now i.policy.drain_timeout_ms) drain_overflow) _ h3 in
    let (good, h5) = >>-eq-ok (reject (bad_drain i ordinals) drain_invalid) _ h4 in
    (
      i,
      mutable,
      ok_or-ok _ _ found,
      ap (λ q. q.candidate_replicas) (ok_injective _ j _ refl h5),
      ap (λ q. q.candidate_enabled) (ok_injective _ j _ refl h5),
    )
